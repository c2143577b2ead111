-- ===== src/Shell/Quoting.antt =====
-- What gdm_shell_expand of common/gdm-common.c comes to: quoted texts, comments, and its loop's end.
use gdm.Base.{
  ℕ, zero, suc, ◌==◌, ◌≡◌, ◌≤◌, ◌<◌, refl, ap, ◌∙◌, Option, some, Bool, true, false, [], ◌∷◌, ◌++◌,
  if◌then◌else◌, Bytes, length, arith, Bool-cases, inl, inr,
}
use gdm.Shell.{
  is_special, is_ascii_space, shell_var_is_valid_char, span_var, Step, done, appended, escape,
  variable, dollar, step, prepended, expand, gdm_shell_expand, text_of, after_first,
  starts_with_byte,
}

-- Every byte that means something is put behind a backslash.
abbrev pub quote : Bytes → Bytes
quote [] = []
quote (c ∷ s) = if is_special c then b'\\' ∷ c ∷ quote s else c ∷ quote s

-- The rounds of a loop with fuel for the length, or more.
length-quote : (s : Bytes) → length s ≤ length (quote s)
length-quote [] = omega arith
length-quote (c ∷ s) = ground (arith, length-quote s)

expand-quote :
    (k : ℕ) (f : Bytes → Option Bytes) (w : Bool) (s : Bytes)
    → length s ≤ k
    → expand (suc k) f w (quote s) ≡ some s
unfolding expand step
expand-quote k f w [] h = refl
expand-quote zero f w (c ∷ s) h = absurd (omega (arith, h))
expand-quote (suc k) f w (c ∷ s) h = elim (Bool-cases (is_special c)) [
  | inl y ↦ ground (arith, expand-quote k f w s)
  | inr n ↦ ground (arith, expand-quote k f (is_ascii_space c) s)
]

-- A text whose special bytes stand behind backslashes is expanded to the text itself, whatever the
-- variables are.
pub gdm_shell_expand-quote :
    (f : Bytes → Option Bytes) (s : Bytes) → gdm_shell_expand f (quote s) ≡ some s
unfolding gdm_shell_expand
gdm_shell_expand-quote f s = expand-quote (length (quote s)) f true s (length-quote s)

-- The bytes of a variable's name.
abbrev pub IsVar : Bool → Bytes → Type 0
IsVar first [] = Unit {0}
IsVar first (c ∷ name) = (shell_var_is_valid_char c first ≡ true) × IsVar false name

span_var-comment :
    (first : Bool) (name rest : Bytes)
    → IsVar first name
    → span_var first (name ++ b'#' ∷ rest) ≡ (name, b'#' ∷ rest)
unfolding span_var shell_var_is_valid_char
span_var-comment true [] rest h = refl
span_var-comment false [] rest h = refl
span_var-comment first (c ∷ name) rest (v, h) = rw (v, span_var-comment false name rest h)

append-nil_bytes : (v : Bytes) → v ++ [] ≡ v
append-nil_bytes [] = refl
append-nil_bytes (x ∷ v) = ap (λ (u : Bytes). x ∷ u) (append-nil_bytes v)

-- The first byte of a name is no brace.
no_brace : (c : ℕ) → shell_var_is_valid_char c true ≡ true → (c == b'{') ≡ false
unfolding shell_var_is_valid_char
no_brace c v = ground arith

dollar-comment :
    (f : Bytes → Option Bytes) (c : ℕ) (name rest : Bytes)
    → IsVar true (c ∷ name)
    → dollar f true (c ∷ (name ++ b'#' ∷ rest))
      ≡ appended (text_of (f (c ∷ name))) true (b'#' ∷ rest)
unfolding dollar
dollar-comment f c name rest h = rw (no_brace c h.0, span_var-comment true (c ∷ name) rest h)

-- At the beginning of a text, a number sign that follows a variable in the same word begins a comment,
-- which is cut off, although the documentation takes it for one at the beginning of a word only.
pub gdm_shell_expand-comment :
    (f : Bytes → Option Bytes) (c : ℕ) (name rest : Bytes)
    → IsVar true (c ∷ name)
    → gdm_shell_expand f (b'$' ∷ c ∷ (name ++ b'#' ∷ rest)) ≡ some (text_of (f (c ∷ name)))
unfolding gdm_shell_expand expand step
gdm_shell_expand-comment f c name rest h =
    ap
      (λ (s : Step). elim s [
        | done ↦ some []
        | appended out w' rest' ↦
            prepended out (expand (suc (length (c ∷ (name ++ b'#' ∷ rest)))) f w' rest')
      ])
      (dollar-comment f c name rest h)
    ∙ ap (λ (t : Bytes). some t) (append-nil_bytes (text_of (f (c ∷ name))))

-- The text that a round leaves.
abbrev pub left_by : Step → Bytes
left_by done = []
left_by (appended out w rest) = rest

length-span_var : (first : Bool) (p : Bytes) → length (span_var first p).1 ≤ length p
unfolding span_var
length-span_var first [] = omega arith
length-span_var first (c ∷ p) = ground (arith, length-span_var false p)

length-after_first : (p : Bytes) → length (after_first p) ≤ length p
length-after_first [] = omega arith
length-after_first (c ∷ p) = omega arith

length-variable :
    (f : Bytes → Option Bytes) (w b : Bool) (s : Bytes × Bytes)
    → length (left_by (variable f w b s)) ≤ length s.1
length-variable f w b (name, rest) = ground (arith, length-after_first rest)

length-dollar :
    (f : Bytes → Option Bytes) (w : Bool) (p : Bytes) → length (left_by (dollar f w p)) ≤ length p
unfolding dollar
length-dollar f w p = elim (Bool-cases (starts_with_byte b'{' p)) [
  | inl y ↦ ground (
    arith,
    y,
    length-variable f w true (span_var true (after_first p)),
    length-span_var true (after_first p),
    length-after_first p,
  )
  | inr n ↦ ground (arith, n, length-variable f w false (span_var true p), length-span_var true p)
]

length-escape : (w : Bool) (p : Bytes) → length (left_by (escape w p)) ≤ length p
length-escape w [] = omega arith
length-escape w (c ∷ p) = ground arith

length-step :
    (f : Bytes → Option Bytes) (w : Bool) (c : ℕ) (p : Bytes)
    → length (left_by (step f w (c ∷ p))) ≤ length p
unfolding step
length-step f w c p = ground (arith, length-escape w p, length-dollar f w p)

-- The loop with fuel has ended with a result.
abbrev pub Expands : ℕ → (Bytes → Option Bytes) → Bool → Bytes → Bytes → Type 0
Expands k f w p r = expand k f w p ≡ some r

-- What comes of a round, with a fuel for the rest.
abbrev after : ℕ → (Bytes → Option Bytes) → Step → Option Bytes
after i f s = elim s [ done ↦ some [] | appended out w' rest ↦ prepended out (expand i f w' rest) ]

-- Wherever the loop begins, it ends by itself, after at most one round more than the text has bytes:
-- there is one result, to which the text is expanded with every fuel above its length.
pub expand-enough :
    (f : Bytes → Option Bytes) (w : Bool) (p : Bytes) (k j : ℕ)
    → length p < k
    → length p < j
    → (r : Bytes) × (Expands k f w p r × Expands j f w p r)
unfolding expand step
expand-enough f w p zero j h g = absurd (omega (arith, h))
expand-enough f w p (suc k) zero h g = absurd (omega (arith, g))
expand-enough f w [] (suc k) (suc j) h g = ([], (refl, refl))
expand-enough f w (c ∷ p) (suc k) (suc j) h g =
    go (step f w (c ∷ p)) (length-step f w c p) (λ v q a b. expand-enough f v q k j a b)
  where
    go :
        (s : Step)
        → length (left_by s) ≤ length p
        → ((v : Bool) (q : Bytes)
            → length q < k
            → length q < j
            → ((r : Bytes) × (Expands k f v q r × Expands j f v q r)))
        → (r : Bytes) × ((after k f s ≡ some r) × (after j f s ≡ some r))
    go done l ih = ([], (refl, refl))
    go (appended out w' rest) l ih =
        let (r, (a, b)) = ih w' rest (omega (arith, l, h)) (omega (arith, l, g)) in
        (out ++ r, (ap (prepended out) a, ap (prepended out) b))
