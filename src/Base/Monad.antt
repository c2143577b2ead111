-- ===== src/Base/Monad.antt =====
-- State passing with a possible abort: `none` stands for a failed g_assert, which ends the process.
use mathlib.Core.Option.{Option, none, some, some-injective}
use mathlib.Core.Bool.{Bool, true, false}
use mathlib.Core.Path.{◌≡◌, refl, ap, subst}

abbrev pub M : Type 0 → Type 0 → Type 0
M S A = S → Option (A × S)

infixl 5 ◌>>=◌ ◌>>◌
abbrev pub ◌>>=◌ : {S A B : Type 0} → M S A → (A → M S B) → M S B
◌>>=◌ m f s = elim (m s) [ none ↦ none | some (a, s') ↦ f a s' ]

abbrev pub ◌>>◌ : {S B : Type 0} → M S (Unit {0}) → M S B → M S B
m >> k = m >>= λ _. k

abbrev pub pure : {S A : Type 0} → A → M S A
pure a s = some (a, s)

abbrev pub read : {S A : Type 0} → (S → A) → M S A
read f s = some (f s, s)

abbrev pub modify : {S : Type 0} → (S → S) → M S (Unit {0})
modify f s = some (tt, f s)

-- A statement under a C `if` with no `else`.
abbrev pub when : {S : Type 0} → Bool → M S (Unit {0}) → M S (Unit {0})
when true m s = m s
when false m s = some (tt, s)

-- `g_assert (b)`.
abbrev pub g_assert : {S : Type 0} → Bool → M S (Unit {0})
g_assert true s = some (tt, s)
g_assert false s = none

-- What holds of the value and the state if the run does not abort.
abbrev pub Ensures : {S A : Type 0} → (A → S → Type 0) → Option (A × S) → Type 0
Ensures P none = Unit {0}
Ensures P (some (a, s)) = P a s

module _ {S A B : Type 0} where
  pub Ensures-bind :
      (P : A → S → Type 0) (Q : B → S → Type 0) (m : M S A) (f : A → M S B) (s : S)
      → Ensures P (m s)
      → ((a : A) (s' : S) → P a s' → Ensures Q (f a s'))
      → Ensures Q ((m >>= f) s)
  Ensures-bind P Q m f s h k = go (m s) h
    where
      go :
          (r : Option (A × S))
          → Ensures P r
          → Ensures Q (elim r [ none ↦ none | some (a, s') ↦ f a s' ])
      go none _ = tt
      go (some (a, s')) p = k a s' p

module _ {S A : Type 0} where
  -- What an assertion guards need hold only where it passes.
  pub Ensures-g_assert :
      (P : A → S → Type 0) (b : Bool) (m : M S A) (s : S)
      → (b ≡ true → Ensures P (m s))
      → Ensures P ((g_assert b >> m) s)
  Ensures-g_assert P true m s h = h refl
  Ensures-g_assert P false m s h = tt

  pub Ensures-some :
      (P : A → S → Type 0) (r : Option (A × S)) {a : A} {s : S}
      → Ensures P r
      → r ≡ some (a, s)
      → P a s
  Ensures-some P none h e = cc
  Ensures-some P (some (b, t)) h e = subst (λ (x : A × S). P x.0 x.1) (some-injective (b, t) _ e) h

-- A run whose first part gives a value goes on with it.
pub bind-some :
    {S A B : Type 0} (m : M S A) (f : A → M S B) (s : S) (a : A) (s' : S)
    → m s ≡ some (a, s')
    → (m >>= f) s ≡ f a s'
bind-some {S} {A} {B} m f s a s' e =
    ap (λ (r : Option (A × S)). elim r [ none ↦ none | some (b, t) ↦ f b t ]) e
