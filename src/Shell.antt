-- ===== src/Shell.antt =====
-- gdm_shell_expand of common/gdm-common.c: the expansion of variables in the values of env.d files.
use gdm.Base.{
  ℕ, zero, suc, ◌+◌, ◌==◌, ◌≡◌, Option, none, some, Bool, true, false, not, ◌&&◌, ◌||◌, List, [],
  ◌∷◌, ◌++◌, leb, if◌then◌else◌, Bytes, length,
}
pub mod Quoting
mod Tests

abbrev pub is_ascii_digit : ℕ → Bool
is_ascii_digit c = leb b'0' c && leb c b'9'

abbrev pub is_ascii_alpha : ℕ → Bool
is_ascii_alpha c = (leb b'a' c && leb c b'z') || (leb b'A' c && leb c b'Z')

-- g_ascii_isspace, which leaves out the vertical tab.
abbrev pub is_ascii_space : ℕ → Bool
is_ascii_space c = (c == b' ') || ((leb 9 c && leb c 10) || (leb 12 c && leb c 13))

-- gdm_shell_var_is_valid_char
unfoldable pub shell_var_is_valid_char : ℕ → Bool → Bool
shell_var_is_valid_char c first =
    (not first && is_ascii_digit c) || ((c == b'_') || is_ascii_alpha c)

-- The longest name at the head of a text, and the rest.
unfoldable pub span_var : Bool → Bytes → Bytes × Bytes
unfolding shell_var_is_valid_char
span_var first [] = ([], [])
span_var first (c ∷ p) =
    let (name, rest) = span_var false p in
    if shell_var_is_valid_char c first then (c ∷ name, rest) else ([], c ∷ p)

-- One round of the loop: what is appended, whether a word begins, and the rest; or the end.
pub data Step : Type 0 where
  done : Step
  appended : Bytes → Bool → Bytes → Step

abbrev pub is_special : ℕ → Bool
is_special c = (c == b'\\') || ((c == b'$') || (c == b'#'))

-- After a backslash.
abbrev pub escape : Bool → Bytes → Step
escape w [] = appended [] w []
escape w (c ∷ p) = if is_special c then appended (c ∷ []) w p else appended (b'\\' ∷ c ∷ []) w p

abbrev pub starts_with_byte : ℕ → Bytes → Bool
starts_with_byte b [] = false
starts_with_byte b (c ∷ p) = c == b

abbrev pub after_first : Bytes → Bytes
after_first [] = []
after_first (c ∷ p) = p

abbrev pub text_of : Option Bytes → Bytes
text_of none = []
text_of (some v) = v

abbrev pub is_invalid : Bool → Bytes → Bytes → Bool
is_invalid brackets [] rest = true
is_invalid brackets (c ∷ name) rest = brackets && not (starts_with_byte b'}' rest)

abbrev pub variable : (Bytes → Option Bytes) → Bool → Bool → Bytes × Bytes → Step
variable f w brackets (name, rest) =
    if is_invalid brackets name rest
    then appended (b'$' ∷ (if brackets then b'{' ∷ name else name)) w rest
    else appended (text_of (f name)) w (if brackets then after_first rest else rest)

-- After a dollar sign.
unfoldable pub dollar : (Bytes → Option Bytes) → Bool → Bytes → Step
unfolding span_var
dollar f w p =
    if starts_with_byte b'{' p
    then variable f w true (span_var true (after_first p))
    else variable f w false (span_var true p)

unfoldable pub step : (Bytes → Option Bytes) → Bool → Bytes → Step
unfolding dollar
step f w [] = done
step f w (c ∷ p) =
    if c == b'\\'
    then escape w p
    else if (c == b'#') && w
    then done
    else if c == b'$'
    then dollar f w p
    else appended (c ∷ []) (is_ascii_space c) p

-- The result with what a round has appended in front of it.
abbrev pub prepended : Bytes → Option Bytes → Option Bytes
prepended out none = none
prepended out (some rest) = some (out ++ rest)

-- The loop, by fuel: each round but the last takes at least one byte. Without a result, the fuel has
-- run out.
unfoldable pub expand : ℕ → (Bytes → Option Bytes) → Bool → Bytes → Option Bytes
unfolding step
expand zero f w p = none
expand (suc k) f w p = elim (step f w p) [
  | done ↦ some []
  | appended out w' rest ↦ prepended out (expand k f w' rest)
]

-- gdm_shell_expand
unfoldable pub gdm_shell_expand : (Bytes → Option Bytes) → Bytes → Option Bytes
unfolding expand
gdm_shell_expand f str = expand (suc (length str)) f true str
