-- ===== src/Base/CStrings.antt =====
-- C strings that the code walks, as lists of their bytes, and integers with a sign.
use Prim.Native.Char.{code}
use Prim.Native.String.{String}
use Prim.Native.Nat.{ℕ, suc}
use mathlib.Core.Path.{◌≡◌, refl}
use mathlib.Core.Logic.{◌↔◌}
use mathlib.Core.Bool.{Bool, true, false, ◌&&◌}
use mathlib.Core.Option.{Option, none, some}
use mathlib.Core.List.{List, [], ◌∷◌, ◌++◌}
use native.Mathlib.Omega.{arith}
use gdm.Base.Tests.{if◌then◌else◌, ◌==◌}

abbrev pub Bytes : Type 0
Bytes = List ℕ

-- The bytes of a literal in ASCII.
abbrev pub codes : String → Bytes
codes String.[] = []
codes (String.◌∷◌ c s) = code c ∷ codes s

-- `strcmp (a, b) == 0`
abbrev pub same_bytes : Bytes → Bytes → Bool
same_bytes [] [] = true
same_bytes [] (y ∷ ys) = false
same_bytes (x ∷ xs) [] = false
same_bytes (x ∷ xs) (y ∷ ys) = (x == y) && same_bytes xs ys

pub same_bytes_iff : (a b : Bytes) → (same_bytes a b ≡ true) ↔ (a ≡ b)
same_bytes_iff [] [] = ground arith
same_bytes_iff [] (y ∷ ys) = ground arith
same_bytes_iff (x ∷ xs) [] = ground arith
same_bytes_iff (x ∷ xs) (y ∷ ys) = ground (arith, same_bytes_iff xs ys)

-- `strchr`: where the byte stands first.
abbrev pub index_of : ℕ → Bytes → Option ℕ
index_of c [] = none
index_of c (x ∷ xs) =
    let rest : Option ℕ = elim (index_of c xs) [ none ↦ none | some i ↦ some (suc i) ] in
    if x == c then some 0 else rest

-- `g_strsplit (s, delimiter, 2)`: what stands before the first delimiter, and what stands after it.
abbrev pub split_once : ℕ → Bytes → Bytes × Option Bytes
split_once c [] = ([], none)
split_once c (x ∷ xs) =
    let rest = split_once c xs in if x == c then ([], some xs) else (x ∷ rest.0, rest.1)

-- The byte does not occur.
abbrev pub Lacks : ℕ → Bytes → Type 0
Lacks c [] = Unit {0}
Lacks c (x ∷ xs) = ((x == c) ≡ false) × Lacks c xs

pub split_once-at :
    (c : ℕ) (xs ys : Bytes) → Lacks c xs → split_once c (xs ++ c ∷ ys) ≡ (xs, some ys)
split_once-at c [] ys h = ground arith
split_once-at c (x ∷ xs) ys h = ground (arith, split_once-at c xs ys h.1)

pub split_once_whole : (c : ℕ) (xs : Bytes) → Lacks c xs → split_once c xs ≡ (xs, none)
split_once_whole c [] h = refl
split_once_whole c (x ∷ xs) h = ground (arith, split_once_whole c xs h.1)

pub index_of-none : (c : ℕ) (xs : Bytes) → Lacks c xs → index_of c xs ≡ none
index_of-none c [] h = refl
index_of-none c (x ∷ xs) h = ground (arith, index_of-none c xs h.1)

-- `negsuc n` is -(n + 1).
pub data ℤ : Type 0 where
  pos : ℕ → ℤ
  negsuc : ℕ → ℤ
