-- ===== src/Config/Values.antt =====
-- common/gdm-settings-utils.c: the values of the configuration as texts.
use gdm.Base.{
  ℕ, suc, ◌+◌, ◌≡◌, ◌↔◌, refl, Option, none, some, Bool, true, false, not, ◌&&◌, ◌||◌, [], ◌∷◌,
  arith, leb, if◌then◌else◌, Bytes, codes, same_bytes, ℤ, pos, negsuc, map,
}
use gdm.Config.Integers.{
  digits-starts_with_digit, starts_with_digit, print_int, strtol, to_int, same_int, IsInt,
  strtol-print_int, to_int_lem, to_int-IsInt, same_int_iff,
}

-- gdm_settings_parse_integer_as_value
unfoldable pub parse_integer_as_value : ℤ → Bytes
parse_integer_as_value z = print_int z

-- gdm_settings_parse_boolean_as_value
unfoldable pub parse_boolean_as_value : Bool → Bytes
parse_boolean_as_value true = codes "true"
parse_boolean_as_value false = codes "false"

abbrev to_lower : ℕ → ℕ
to_lower c = if leb b'A' c && leb c b'Z' then c + 32 else c

-- `g_ascii_strcasecmp (a, b) == 0`
abbrev pub same_ignoring_case : Bytes → Bytes → Bool
same_ignoring_case a b = same_bytes (map to_lower a) (map to_lower b)

-- gdm_settings_parse_value_as_boolean; `none` is a text that is no boolean.
unfoldable pub parse_value_as_boolean : Bytes → Option Bool
parse_value_as_boolean v =
    if same_ignoring_case v (codes "true") || same_bytes v (codes "1")
    then some true
    else if same_ignoring_case v (codes "false") || same_bytes v (codes "0")
    then some false
    else none

abbrev pub is_empty : Bytes → Bool
is_empty [] = true
is_empty (x ∷ xs) = false

-- gdm_settings_parse_value_as_integer; `none` is a text that is no `int`.
unfoldable pub parse_value_as_integer : Bytes → Option ℤ
parse_value_as_integer v =
    let (long_value, rest, is_erange) = strtol v in
    if is_empty v || not (is_empty rest)
    then none
    else (let int_value = to_int long_value in
        if not (same_int int_value long_value) || is_erange then none else some int_value)

-- Every boolean that is printed as a value is read back as itself.
pub parse_boolean_roundtrip :
    (b : Bool) → parse_value_as_boolean (parse_boolean_as_value b) ≡ some b
unfolding parse_value_as_boolean parse_boolean_as_value
parse_boolean_roundtrip true = refl
parse_boolean_roundtrip false = refl

is_empty-digit : (s : Bytes) → starts_with_digit s ≡ true → is_empty s ≡ false
is_empty-digit [] h = cc
is_empty-digit (c ∷ cs) h = refl

is_empty-print_int : (z : ℤ) → is_empty (print_int z) ≡ false
unfolding print_int
is_empty-print_int (pos n) = is_empty-digit _ (digits-starts_with_digit (suc n) n [] (omega arith))
is_empty-print_int (negsuc n) = refl

-- What the reader of integers accepts: a text that is not empty, that strtol reads to its end and
-- without ERANGE, and whose value is an `int`.
pub record Reads (v : Bytes) (z : ℤ) : Type 0 where
  pub some_text : is_empty v ≡ false
  pub read_whole : strtol v ≡ (z, [], false)
  pub fits : IsInt z

Reads-some : (v : Bytes) (z : ℤ) → Reads v z → parse_value_as_integer v ≡ some z
unfolding parse_value_as_integer
Reads-some v z r = rw (r.some_text, r.read_whole, to_int_lem z r.fits, (same_int_iff z z).1 refl)

some-Reads : (v : Bytes) (z : ℤ) → parse_value_as_integer v ≡ some z → Reads v z
unfolding parse_value_as_integer
some-Reads v z e =
    ground (arith, same_int_iff (to_int (strtol v).0) (strtol v).0, to_int-IsInt (strtol v).0)

-- A text is read as the integer z exactly where it is not empty, strtol reads it to its end as z
-- without ERANGE, and z is in the range of an `int`: the comparison of the `int` with the `long`
-- finds every value that does not fit.
pub parse_value_as_integer-Reads :
    (v : Bytes) (z : ℤ) → (parse_value_as_integer v ≡ some z) ↔ Reads v z
parse_value_as_integer-Reads v z = (some-Reads v z, Reads-some v z)

-- Every `int` that is printed as a value is read back as itself.
pub parse_integer_roundtrip :
    (z : ℤ) → IsInt z → parse_value_as_integer (parse_integer_as_value z) ≡ some z
unfolding parse_integer_as_value
parse_integer_roundtrip z h =
    Reads-some (print_int z) z
      (record { some_text = is_empty-print_int z; read_whole = strtol-print_int z h; fits = h })
