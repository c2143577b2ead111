-- ===== src/UserStore/Search.antt =====
-- The search for a free UID of daemon/gdm-dynamic-user-store.c: it ends, and what it finds.
use gdm.Base.{
  ℕ, zero, suc, ◌+◌, ◌-◌, ◌≡◌, ◌≤◌, ◌<◌, ◌==◌, ◌||◌, ==_iff, inl, inr, refl, ap, ◌∙◌, sym, subst,
  Option, none, some, Bool, true, false, arith, ltb, Bool-cases,
}
use gdm.UserStore.{Range, UserStore, stored, contains, advance, search, pick_uid}

module _ (r : Range) (used : ℕ → Bool) where
  abbrev pub AllUsed : ℕ → ℕ → Type 0
  AllUsed a b = (u : ℕ) → a ≤ u → u < b → used u ≡ true

  -- What the search finds: a free UID of the range, or that there is none.
  abbrev pub IsFound : Option ℕ × ℕ → Type 0
  IsFound (some u, next) =
      (r.low ≤ u) × (u ≤ r.high) × (used u ≡ false) × (r.low ≤ next) × (next ≤ r.high)
  IsFound (none, next) = AllUsed r.low (suc r.high) × (r.low ≤ next) × (next ≤ r.high)

  abbrev pub Finds : Option (Option ℕ × ℕ) → Type 0
  Finds none = ⊥
  Finds (some f) = IsFound f

  extend : (a next : ℕ) → AllUsed a next → used next ≡ true → AllUsed a (suc next)
  extend a next h e u l m = elim (Bool-cases (u == next)) [
    | inl y ↦ subst (λ (v : ℕ). used v ≡ true) (sym ((==_iff u next).0 y)) e
    | inr n ↦ h u l (ground (arith, n))
  ]

  -- Two adjacent stretches.
  joined : (a b c : ℕ) → AllUsed a b → AllUsed b c → AllUsed a c
  joined a b c g h u l m = elim (Bool-cases (ltb u b)) [
    | inl y ↦ g u l (ground (arith, y))
    | inr n ↦ h u (ground (arith, n)) m
  ]

  hit :
      (k start next : ℕ)
      → used next ≡ false
      → search (suc k) r used start next ≡ some (some next, advance r next)
  unfolding search
  hit k start next e = rw e

  given_up :
      (k start next : ℕ)
      → used next ≡ true
      → (advance r next == start) ≡ true
      → search (suc k) r used start next ≡ some (none, advance r next)
  unfolding search
  given_up k start next e y = rw (e, y)

  gone_on :
      (k start next : ℕ)
      → used next ≡ true
      → (advance r next == start) ≡ false
      → search (suc k) r used start next ≡ search k r used start (advance r next)
  unfolding search
  gone_on k start next e n = rw (e, n)

  free-IsFound :
      (next : ℕ)
      → r.low ≤ next
      → next ≤ r.high
      → used next ≡ false
      → IsFound (some next, advance r next)
  free-IsFound next a b e = ground arith

  advance_below : (next : ℕ) → next < r.high → advance r next ≡ suc next
  advance_below next l = ground arith

  advance_wraps : (next : ℕ) → next ≡ r.high → advance r next ≡ r.low
  advance_wraps next e = ground arith

  -- Below the start, when the range has been wrapped around.
  search_wrapped :
      (k start next : ℕ)
      → start ≤ r.high
      → r.low ≤ next
      → next < start
      → start ≤ next + k
      → AllUsed start (suc r.high)
      → AllUsed r.low next
      → Finds (search k r used start next)
  unfolding search
  search_wrapped zero start next a b c d h g = ground arith
  search_wrapped (suc k) start next a b c d h g = elim (Bool-cases (used next)) [
    | inl e ↦ elim (Bool-cases (advance r next == start)) [
      | inl y ↦ subst Finds (sym (given_up k start next e y)) (
        joined r.low start (suc r.high)
            (subst (AllUsed r.low) (sym up ∙ (==_iff (advance r next) start).0 y)
              (extend r.low next g e))
            h,
        ground (arith, up),
        ground (arith, up),
      )
      | inr n ↦ subst Finds (sym (gone_on k start next e n ∙ ap (search k r used start) up)) (
          search_wrapped k start (suc next) a (omega (arith, b)) (ground (arith, up, c, n))
            (omega (arith, d)) h (extend r.low next g e))
    ]
    | inr e ↦ subst Finds (sym (hit k start next e)) (free-IsFound next b (omega (arith, a, c)) e)
  ]
    where
      up : advance r next ≡ suc next
      up = advance_below next (omega (arith, a, c))

  nothing : (a : ℕ) → AllUsed a a
  nothing a u l m = ground (arith, l, m)

  -- At the top of the range.
  search_top :
      (k start : ℕ)
      → r.low ≤ start
      → start ≤ r.high
      → start ≤ r.low + k
      → used r.high ≡ true
      → AllUsed start (suc r.high)
      → Finds (search (suc k) r used start r.high)
  search_top k start a b d e g = elim (Bool-cases (advance r r.high == start)) [
    | inl y ↦ subst Finds (sym (given_up k start r.high e y)) (
      subst (λ (v : ℕ). AllUsed v (suc r.high))
          (sym (sym down ∙ (==_iff (advance r r.high) start).0 y)) g,
      ground (arith, down),
      ground (arith, down),
    )
    | inr n ↦ subst Finds (sym (gone_on k start r.high e n ∙ ap (search k r used start) down)) (
        search_wrapped k start r.low b (omega arith) (ground (arith, down, n, a)) d g
          (nothing r.low))
  ]
    where
      down : advance r r.high ≡ r.low
      down = advance_wraps r.high refl

  -- From the start upwards.
  search_first :
      (k start next : ℕ)
      → r.low ≤ start
      → start ≤ next
      → next ≤ r.high
      → suc r.high + start ≤ next + k + r.low
      → AllUsed start next
      → Finds (search k r used start next)
  unfolding search
  search_first zero start next a b c d g = ground arith
  search_first (suc k) start next a b c d g = elim (Bool-cases (used next)) [
    | inl e ↦ elim (Bool-cases (ltb next r.high)) [
      | inl y ↦
          subst Finds
            (sym (
              gone_on k start next e (ground (arith, y, b))
              ∙ ap (search k r used start) (advance_below next (ground (arith, y)))))
            (search_first k start (suc next) a (omega (arith, b)) (ground (arith, y))
              (omega (arith, d)) (extend start next g e))
      | inr n ↦
          subst (λ (v : ℕ). Finds (search (suc k) r used start v)) (sym (top n))
            (search_top k start a (omega (arith, b, c)) (ground (arith, d, top n))
              (subst (λ (v : ℕ). used v ≡ true) (top n) e)
              (subst (λ (v : ℕ). AllUsed start (suc v)) (top n) (extend start next g e)))
    ]
    | inr e ↦ subst Finds (sym (hit k start next e)) (free-IsFound next (omega (arith, a, b)) c e)
  ]
    where
      top : ltb next r.high ≡ false → next ≡ r.high
      top n = ground (arith, n, c)

-- The UIDs that the search must avoid.
abbrev pub already_used : (ℕ → Bool) → UserStore → ℕ → Bool
already_used get_pwent_for_uid store u = contains store.by_uid u || get_pwent_for_uid u

-- What a call of pick_uid leaves: a free UID of the range, or the proof that there is none; the users
-- are the same, and the next UID to try is in the range.
abbrev pub IsPicked : Range → (ℕ → Bool) → UserStore → Option (Option ℕ × UserStore) → Type 0
IsPicked r get store none = ⊥
IsPicked r get store (some (found, after)) =
    IsFound r (already_used get store) (found, after.next_alloc)
    × (after.by_uid ≡ store.by_uid)
    × (after.by_name ≡ store.by_name)

stored-IsPicked :
    (r : Range) (get : ℕ → Bool) (store : UserStore) (s : Option (Option ℕ × ℕ))
    → Finds r (already_used get store) s
    → IsPicked r get store (stored store s)
stored-IsPicked r get store none f = f
stored-IsPicked r get store (some (found, next)) f = (f, refl, refl)

-- Where the next UID to try is in the range, pick_uid returns: it gives a UID of the range that
-- neither the store nor the system's users have, or, where it fails, every UID of the range is
-- taken; the store has the same users after, and its next UID to try is in the range again.
pub pick_uid-IsPicked :
    (r : Range) (get_pwent_for_uid : ℕ → Bool) (store : UserStore)
    → r.low ≤ store.next_alloc
    → store.next_alloc ≤ r.high
    → IsPicked r get_pwent_for_uid store (pick_uid r get_pwent_for_uid store)
unfolding pick_uid
pick_uid-IsPicked r get_pwent_for_uid store a b = stored-IsPicked r get_pwent_for_uid store _ (
    search_first r (already_used get_pwent_for_uid store) (suc (r.high - r.low)) store.next_alloc
      store.next_alloc a (omega arith) b (omega (arith, a, b))
      (nothing r (already_used get_pwent_for_uid store) store.next_alloc))
