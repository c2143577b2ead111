-- ===== src/Base/Decimals.antt =====
-- Numbers as decimal texts, the way printf writes them and strtol reads them.
use Prim.Native.Nat.{ℕ, zero, suc, ◌+◌, ◌-◌, ◌*◌, ◌/◌, ◌%◌, ◌<◌}
use mathlib.Core.Path.{◌≡◌, ap, ◌∙◌, sym}
use mathlib.Core.Logic.{inl, inr}
use mathlib.Core.Bool.{Bool, ◌&&◌}
use mathlib.Core.List.{[], ◌∷◌}
use native.Mathlib.Omega.{arith}
use gdm.Base.Tests.{if◌then◌else◌, ltb, leb, Bool-cases}
use gdm.Base.CStrings.{Bytes}

-- The decimal digits of a number before a text, with a step of fuel for each.
unfoldable pub digits : ℕ → ℕ → Bytes → Bytes
digits zero n out = out
digits (suc f) n out =
    let more = digits f (n / 10) ((b'0' + n % 10) ∷ out) in
    if ltb n 10 then (b'0' + n) ∷ out else more

abbrev pub is_digit : ℕ → Bool
is_digit c = leb b'0' c && leb c b'9'

-- The number at the head of a text, from what was read before, and the rest.
unfoldable pub scan_digits : ℕ → Bytes → ℕ × Bytes
scan_digits n [] = (n, [])
scan_digits n (c ∷ cs) =
    let rest = scan_digits (10 * n + (c - b'0')) cs in if is_digit c then rest else (n, c ∷ cs)

-- Reading digits goes on from what they print.
pub scan_digits-digits :
    (f n : ℕ) (out : Bytes) → n < f → scan_digits 0 (digits f n out) ≡ scan_digits n out
unfolding scan_digits digits
scan_digits-digits zero n out h = absurd (omega arith)
scan_digits-digits (suc f) n out h = elim (Bool-cases (ltb n 10)) [
  | inl y ↦ ground arith
  | inr y ↦ ground (arith, scan_digits-digits f (n / 10) ((b'0' + n % 10) ∷ out))
]

-- `%lu`
abbrev pub print_size : ℕ → Bytes
print_size n = digits (suc n) n []

scan_digits-print_size : (n : ℕ) → scan_digits 0 (print_size n) ≡ (n, [])
unfolding scan_digits
scan_digits-print_size n = scan_digits-digits (suc n) n [] (omega arith)

pub print_size-injective : (m n : ℕ) → print_size m ≡ print_size n → m ≡ n
print_size-injective m n e =
    ap (λ (x : ℕ × Bytes). x.0)
      (sym (scan_digits-print_size m) ∙ ap (scan_digits 0) e ∙ scan_digits-print_size n)
