-- ===== src/UserStore/Names.antt =====
-- The names that pick_username of daemon/gdm-dynamic-user-store.c tries: they differ, so that a store
-- with fewer users than there are names has one left.
use gdm.Base.{
  ℕ, zero, suc, ◌-◌, ◌≡◌, ◌≤◌, inl, inr, ap, subst, same_bytes_iff, none, some, true, false, List,
  [], ◌∷◌, ◌++◌, arith, Bool-cases, Bytes, same_bytes, if◌then◌else◌, length, print_size-injective,
}
use mathlib.Core.Option.{some-injective}
use gdm.UserStore.{Range, DynamicUser, contains_name}
use gdm.UserStore.Users.{numbered, pick_numbered, pick_username}

tail : Bytes → Bytes
tail [] = []
tail (x ∷ xs) = xs

append-injective : (p a b : Bytes) → p ++ a ≡ p ++ b → a ≡ b
unfolding tail
append-injective [] a b e = e
append-injective (x ∷ p) a b e = append-injective p a b (ap tail e)

numbered-injective : (p : Bytes) (i j : ℕ) → numbered p i ≡ numbered p j → i ≡ j
unfolding tail
numbered-injective p i j e = print_size-injective i j (ap tail (append-injective p _ _ e))

longer_absurd : (p x : Bytes) (c : ℕ) → p ≡ p ++ c ∷ x → ⊥
unfolding tail
longer_absurd [] x c e = cc
longer_absurd (y ∷ p) x c e = longer_absurd p x c (ap tail e)

-- The users without the first that has the name.
drop_first : List DynamicUser → Bytes → List DynamicUser
drop_first [] name = []
drop_first (u ∷ us) name = if same_bytes u.username name then us else u ∷ drop_first us name

length-drop_first :
    (us : List DynamicUser) (name : Bytes)
    → contains_name us name ≡ true
    → length us ≡ suc (length (drop_first us name))
unfolding drop_first
length-drop_first [] name h = cc
length-drop_first (u ∷ us) name h = ground (arith, length-drop_first us name)

drop_first-other :
    (us : List DynamicUser) (name other : Bytes)
    → same_bytes name other ≡ false
    → contains_name us other ≡ true
    → contains_name (drop_first us name) other ≡ true
unfolding drop_first
drop_first-other [] name other n h = h
drop_first-other (u ∷ us) name other n h = ground (
  arith,
  same_bytes_iff u.username name,
  same_bytes_iff u.username other,
  same_bytes_iff name other,
  drop_first-other us name other n,
)

-- All the names from the number i on, k of them, are in use.
abbrev pub AllNamed : ℕ → List DynamicUser → Bytes → ℕ → Type 0
AllNamed zero us p i = Unit {0}
AllNamed (suc k) us p i = (contains_name us (numbered p i) ≡ true) × AllNamed k us p (suc i)

differ : (a b : Bytes) → (a ≡ b → ⊥) → same_bytes a b ≡ false
differ a b n = elim (Bool-cases (same_bytes a b)) [
  | inl e ↦ absurd (n ((same_bytes_iff a b).0 e))
  | inr e ↦ e
]

AllNamed-drop_first :
    (k : ℕ) (us : List DynamicUser) (p : Bytes) (i : ℕ) (name : Bytes)
    → ((j : ℕ) → i ≤ j → same_bytes name (numbered p j) ≡ false)
    → AllNamed k us p i
    → AllNamed k (drop_first us name) p i
AllNamed-drop_first zero us p i name d h = tt
AllNamed-drop_first (suc k) us p i name d h = (
  drop_first-other us name (numbered p i) (d i (omega arith)) h.0,
  AllNamed-drop_first k us p (suc i) name (λ j l. d j (omega (arith, l))) h.1,
)

-- As many names in use need as many users.
AllNamed-length :
    (k : ℕ) (us : List DynamicUser) (p : Bytes) (i : ℕ) → AllNamed k us p i → k ≤ length us
AllNamed-length zero us p i h = omega arith
AllNamed-length (suc k) us p i h = omega (
  arith,
  length-drop_first us (numbered p i) h.0,
  AllNamed-length k (drop_first us (numbered p i)) p (suc i) (
      AllNamed-drop_first k us p (suc i) (numbered p i)
        (λ j l. differ _ _ (λ e. (let same = numbered-injective p i j e in omega (arith, l, same))))
        h.1),
)

pick_numbered-none :
    (k : ℕ) (us : List DynamicUser) (p : Bytes) (i : ℕ)
    → pick_numbered k us p i ≡ none
    → AllNamed k us p i
unfolding pick_numbered
pick_numbered-none zero us p i e = tt
pick_numbered-none (suc k) us p i e = elim (Bool-cases (contains_name us (numbered p i))) [
  | inl y ↦ (y, pick_numbered-none k us p (suc i) (ground arith))
  | inr y ↦ ground arith
]

pick_numbered-some :
    (k : ℕ) (us : List DynamicUser) (p : Bytes) (i : ℕ) (name : Bytes)
    → pick_numbered k us p i ≡ some name
    → contains_name us name ≡ false
unfolding pick_numbered
pick_numbered-some zero us p i name e = cc
pick_numbered-some (suc k) us p i name e = elim (Bool-cases (contains_name us (numbered p i))) [
  | inl y ↦ ground (arith, pick_numbered-some k us p (suc i) name)
  | inr y ↦
      subst (λ (n : Bytes). contains_name us n ≡ false) (some-injective _ name (ground arith)) y
]

-- The name that is picked is nobody's.
pub pick_username-some :
    (r : Range) (us : List DynamicUser) (p name : Bytes)
    → pick_username r us p ≡ some name
    → contains_name us name ≡ false
unfolding pick_username
pick_username-some r us p name e = elim (Bool-cases (contains_name us p)) [
  | inl y ↦ pick_numbered-some (r.high - r.low) us p 2 name (ground arith)
  | inr y ↦
      subst (λ (n : Bytes). contains_name us n ≡ false) (some-injective _ name (ground arith)) y
]

-- The assertion fails only where there are as many users as the range has UIDs.
pub pick_username-none :
    (r : Range) (us : List DynamicUser) (p : Bytes)
    → pick_username r us p ≡ none
    → suc (r.high - r.low) ≤ length us
unfolding pick_username
pick_username-none r us p e = elim (Bool-cases (contains_name us p)) [
  | inl y ↦ omega (
    arith,
    length-drop_first us p y,
    AllNamed-length (r.high - r.low) (drop_first us p) p 2 (
        AllNamed-drop_first (r.high - r.low) us p 2 p (λ j l. differ _ _ (longer_absurd p _ _))
          (pick_numbered-none (r.high - r.low) us p 2 (ground arith))),
  )
  | inr y ↦ ground arith
]
