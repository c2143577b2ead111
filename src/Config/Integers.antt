-- ===== src/Config/Integers.antt =====
-- The conversions of libc that common/gdm-settings-utils.c calls for integers: printf's `%d` and
-- strtol in base ten, for a `long` of 64 and an `int` of 32 bits.
use gdm.Base.{
  digits, is_digit, scan_digits, scan_digits-digits, ℕ, zero, suc, ◌+◌, ◌-◌, ◌/◌, ◌%◌, ◌^◌, ◌<◌,
  ◌≡◌, ◌↔◌, refl, ap, ◌∙◌, Bool, true, false, ◌&&◌, ◌||◌, [], ◌∷◌, ◌==◌, ltb, leb, if◌then◌else◌,
  arith, Bytes, ℤ, pos, negsuc, Bool-cases, inl, inr,
}

-- A number has fewer digits than its value and one.
unfoldable pub print_int : ℤ → Bytes
unfolding digits
print_int (pos n) = digits (suc n) n []
print_int (negsuc n) = b'-' ∷ digits (suc (suc n)) (suc n) []

-- isspace in the C locale.
abbrev pub is_space : ℕ → Bool
is_space c = (c == b' ') || (leb 9 c && leb c 13)

unfoldable pub skip_spaces : Bytes → Bytes
skip_spaces [] = []
skip_spaces (c ∷ cs) = let rest = skip_spaces cs in if is_space c then rest else c ∷ cs

abbrev pub opposite : ℕ → ℤ
opposite zero = pos 0
opposite (suc n) = negsuc n

-- The value, clamped to a `long`, and whether errno is ERANGE.
abbrev pub clamp_long : Bool → ℕ → ℤ × Bool
clamp_long false n = if ltb n (2 ^ 63) then (pos n, false) else (pos (2 ^ 63 - 1), true)
clamp_long true n = if leb n (2 ^ 63) then (opposite n, false) else (negsuc (2 ^ 63 - 1), true)

abbrev pub starts_with_digit : Bytes → Bool
starts_with_digit [] = false
starts_with_digit (c ∷ cs) = is_digit c

-- What strtol gives: the value, where it stopped, and whether errno is ERANGE. Without a digit
-- nothing is read.
abbrev pub read_magnitude : Bool → Bytes → Bytes → ℤ × Bytes × Bool
read_magnitude negative whole s =
    if starts_with_digit s
    then (
      (clamp_long negative (scan_digits 0 s).0).0,
      (scan_digits 0 s).1,
      (clamp_long negative (scan_digits 0 s).0).1,
    )
    else (pos 0, whole, false)

abbrev pub read_sign : Bytes → Bytes → ℤ × Bytes × Bool
read_sign whole [] = read_magnitude false whole []
read_sign whole (c ∷ cs) =
    if c == b'-'
    then read_magnitude true whole cs
    else if c == b'+'
    then read_magnitude false whole cs
    else read_magnitude false whole (c ∷ cs)

unfoldable pub strtol : Bytes → ℤ × Bytes × Bool
unfolding scan_digits skip_spaces
strtol s = read_sign s (skip_spaces s)

-- The conversion of a `long` to an `int`, which keeps the low 32 bits.
abbrev pub signed32 : ℕ → ℤ
signed32 w = if ltb w (2 ^ 31) then pos w else negsuc (2 ^ 32 - 1 - w)

unfoldable pub to_int : ℤ → ℤ
to_int (pos n) = signed32 (n % 2 ^ 32)
to_int (negsuc n) = signed32 (2 ^ 32 - 1 - n % 2 ^ 32)

unfoldable pub same_int : ℤ → ℤ → Bool
same_int (pos a) (pos b) = a == b
same_int (pos a) (negsuc b) = false
same_int (negsuc a) (pos b) = false
same_int (negsuc a) (negsuc b) = a == b

-- INT_MIN to INT_MAX.
abbrev pub IsInt : ℤ → Type 0
IsInt (pos n) = n < 2 ^ 31
IsInt (negsuc n) = n < 2 ^ 31

pub digits-starts_with_digit :
    (f n : ℕ) (out : Bytes) → n < f → starts_with_digit (digits f n out) ≡ true
unfolding digits
digits-starts_with_digit zero n out h = absurd (omega arith)
digits-starts_with_digit (suc f) n out h = elim (Bool-cases (ltb n 10)) [
  | inl y ↦ ground arith
  | inr y ↦ ground (arith, digits-starts_with_digit f (n / 10) ((b'0' + n % 10) ∷ out))
]

-- What does not start with a space is read from its first byte.
skip_spaces-digit : (s : Bytes) → starts_with_digit s ≡ true → skip_spaces s ≡ s
unfolding skip_spaces
skip_spaces-digit [] h = refl
skip_spaces-digit (c ∷ cs) h = ground arith

read_sign-digit :
    (s : Bytes) → starts_with_digit s ≡ true → read_sign s s ≡ read_magnitude false s s
read_sign-digit [] h = refl
read_sign-digit (c ∷ cs) h = ground arith

magnitude-digits :
    (negative : Bool) (whole : Bytes) (f n : ℕ)
    → n < f
    → read_magnitude negative whole (digits f n [])
      ≡ ((clamp_long negative n).0, [], (clamp_long negative n).1)
unfolding scan_digits
magnitude-digits negative whole f n h =
    rw (digits-starts_with_digit f n [] h, scan_digits-digits f n [] h)

strtol-digits : (n : ℕ) → n < 2 ^ 63 → strtol (digits (suc n) n []) ≡ (pos n, [], false)
unfolding strtol
strtol-digits n h =
    ap (read_sign s) (skip_spaces-digit s d)
    ∙ (read_sign-digit s d ∙ (magnitude-digits false s (suc n) n (omega arith) ∙ ground arith))
  where
    s : Bytes
    s = digits (suc n) n []

    d : starts_with_digit s ≡ true
    d = digits-starts_with_digit (suc n) n [] (omega arith)

strtol-minus :
    (n : ℕ) → n < 2 ^ 63 → strtol (b'-' ∷ digits (suc (suc n)) (suc n) []) ≡ (negsuc n, [], false)
unfolding strtol skip_spaces
strtol-minus n h =
    magnitude-digits true (b'-' ∷ digits (suc (suc n)) (suc n) []) (suc (suc n)) (suc n)
      (omega arith)
    ∙ ground arith

-- What printf prints strtol reads back, and to its end.
pub strtol-print_int : (z : ℤ) → IsInt z → strtol (print_int z) ≡ (z, [], false)
unfolding print_int
strtol-print_int (pos n) h = strtol-digits n (omega arith)
strtol-print_int (negsuc n) h = strtol-minus n (omega arith)

pub to_int_lem : (z : ℤ) → IsInt z → to_int z ≡ z
unfolding to_int
to_int_lem (pos n) h = ground arith
to_int_lem (negsuc n) h = ground arith

pub to_int-IsInt : (z : ℤ) → IsInt (to_int z)
unfolding to_int
to_int-IsInt (pos n) = ground arith
to_int-IsInt (negsuc n) = ground arith

pub same_int_iff : (a b : ℤ) → (same_int a b ≡ true) ↔ (a ≡ b)
unfolding same_int
same_int_iff a b = ground arith
