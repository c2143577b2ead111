-- ===== src/UserStore/Tables.antt =====
-- The two tables of daemon/gdm-dynamic-user-store.c: what a sound store is, and what removal does.
use gdm.Base.{
  ℕ, ◌≡◌, ◌≤◌, ◌==◌, ◌||◌, inl, inr, refl, ap, sym, subst, same_bytes_iff, Option, none, some, Bool,
  true, false, List, [], ◌∷◌, arith, Bool-cases, Option-cases, Bytes, codes, same_bytes, take,
  if◌then◌else◌,
}
use mathlib.Core.Option.{some-injective}
use gdm.UserStore.{Range, DynamicUser, UserStore, contains, contains_name}
use gdm.UserStore.Users.{
  dynamic_user_free, with_names, remove_name, remove_uid, lookup_uid, remove_user, remove,
}

-- A home that dynamic_user_free does not take for a mistake.
abbrev pub is_guarded : Bytes → Bool
is_guarded home = same_bytes home (codes "/") || same_bytes (take 5 home) (codes "/home")

module _ (r : Range) (home_of : Bytes → Bytes) where
  -- The users have names and UIDs of their own, UIDs of the range, and the homes of their names.
  abbrev pub AreUsers : List DynamicUser → Type 0
  AreUsers [] = Unit {0}
  AreUsers (u ∷ us) =
      (contains_name us u.username ≡ false)
      × (contains us u.uid ≡ false)
      × (r.low ≤ u.uid)
      × (u.uid ≤ r.high)
      × (u.home ≡ home_of u.username)
      × AreUsers us

  -- Both tables hold the same users, in the same order of insertion.
  pub record IsSound (store : UserStore) : Type 0 where
    pub in_step : store.by_uid ≡ store.by_name
    pub users : AreUsers store.by_name
    pub above_low : r.low ≤ store.next_alloc
    pub below_high : store.next_alloc ≤ r.high

pub remove_uid_absent :
    (us : List DynamicUser) (v : ℕ) → contains us v ≡ false → remove_uid us v ≡ us
unfolding remove_uid
remove_uid_absent [] v h = refl
remove_uid_absent (u ∷ us) v h = ground (arith, remove_uid_absent us v)

pub remove_name_absent :
    (us : List DynamicUser) (name : Bytes)
    → contains_name us name ≡ false
    → remove_name us name ≡ some (us, [])
unfolding remove_name
remove_name_absent [] name h = refl
remove_name_absent (u ∷ us) name h = ground (arith, remove_name_absent us name)

remove_uid-contains_name :
    (us : List DynamicUser) (v : ℕ) (name : Bytes)
    → contains_name us name ≡ false
    → contains_name (remove_uid us v) name ≡ false
unfolding remove_uid
remove_uid-contains_name [] v name h = refl
remove_uid-contains_name (u ∷ us) v name h = ground (arith, remove_uid-contains_name us v name)

remove_uid-contains :
    (us : List DynamicUser) (v w : ℕ) → contains us w ≡ false → contains (remove_uid us v) w ≡ false
unfolding remove_uid
remove_uid-contains [] v w h = refl
remove_uid-contains (u ∷ us) v w h = ground (arith, remove_uid-contains us v w)

pub contains-remove_uid : (us : List DynamicUser) (v : ℕ) → contains (remove_uid us v) v ≡ false
unfolding remove_uid
contains-remove_uid [] v = refl
contains-remove_uid (u ∷ us) v = ground (arith, contains-remove_uid us v)

pub lookup_uid-remove_uid :
    (us : List DynamicUser) (v w : ℕ)
    → (v == w) ≡ false
    → lookup_uid (remove_uid us v) w ≡ lookup_uid us w
unfolding remove_uid lookup_uid
lookup_uid-remove_uid [] v w h = refl
lookup_uid-remove_uid (u ∷ us) v w h = ground (arith, lookup_uid-remove_uid us v w)

-- Who is found under a UID is in the table, under the name too.
lookup_uid-contains_name :
    (us : List DynamicUser) (v : ℕ) (u : DynamicUser)
    → lookup_uid us v ≡ some u
    → contains_name us u.username ≡ true
unfolding lookup_uid
lookup_uid-contains_name [] v u h = cc
lookup_uid-contains_name (x ∷ us) v u h = elim (Bool-cases (x.uid == v)) [
  | inl e ↦
      subst (λ (w : DynamicUser). contains_name (x ∷ us) w.username ≡ true)
        (some-injective x u (ground arith)) (rw (same_bytes_iff x.username x.username).1 refl)
  | inr e ↦ ground (arith, lookup_uid-contains_name us v u)
]

pub lookup_uid_absent :
    (us : List DynamicUser) (v : ℕ) → lookup_uid us v ≡ none → contains us v ≡ false
unfolding lookup_uid
lookup_uid_absent [] v h = refl
lookup_uid_absent (u ∷ us) v h = ground (arith, lookup_uid_absent us v)

module _ (r : Range) (home_of : Bytes → Bytes) where
  AreUsers-remove_uid :
      (us : List DynamicUser) (v : ℕ) → AreUsers r home_of us → AreUsers r home_of (remove_uid us v)
  unfolding remove_uid
  AreUsers-remove_uid [] v h = tt
  AreUsers-remove_uid (u ∷ us) v (n, w, low, high, home, rest) =
      go (u.uid == v) (AreUsers-remove_uid us v rest)
    where
      go :
          (b : Bool)
          → AreUsers r home_of (remove_uid us v)
          → AreUsers r home_of (if b then remove_uid us v else u ∷ remove_uid us v)
      go true ih = ih
      go false ih = (
        remove_uid-contains_name us v u.username n,
        remove_uid-contains us v u.uid w,
        low,
        high,
        home,
        ih,
      )

  module _ (safe : (name : Bytes) → is_guarded (home_of name) ≡ false) where
    freed : (u : DynamicUser) → u.home ≡ home_of u.username → dynamic_user_free u ≡ some u.home
    unfolding dynamic_user_free
    freed u e =
        subst (λ (h : Bytes). (if is_guarded h then none else some h) ≡ some h) (sym e)
          (rw (safe u.username))

    remove_head :
        (us : List DynamicUser) (v : ℕ) (x : DynamicUser)
        → contains_name us x.username ≡ false
        → contains us x.uid ≡ false
        → x.home ≡ home_of x.username
        → (x.uid == v) ≡ true
        → remove_name (x ∷ us) x.username ≡ some (remove_uid (x ∷ us) v, x.home ∷ [])
    unfolding remove_name remove_uid
    remove_head us v x n w home y = rw (
      (same_bytes_iff x.username x.username).1 refl,
      freed x home,
      remove_name_absent us x.username n,
      y,
      remove_uid_absent us v (ground (arith, w, y)),
    )

    remove_other :
        (us : List DynamicUser) (v : ℕ) (x u : DynamicUser)
        → contains_name us x.username ≡ false
        → contains_name us u.username ≡ true
        → (x.uid == v) ≡ false
        → remove_name us u.username ≡ some (remove_uid us v, u.home ∷ [])
        → remove_name (x ∷ us) u.username ≡ some (remove_uid (x ∷ us) v, u.home ∷ [])
    unfolding remove_name remove_uid
    remove_other us v x u n m y ih = ground (arith, ih, y, same_bytes_iff x.username u.username)

    -- The removal from the table by name is that from the table by UID.
    pub remove_name-remove_uid :
        (us : List DynamicUser) (v : ℕ) (u : DynamicUser)
        → AreUsers r home_of us
        → lookup_uid us v ≡ some u
        → remove_name us u.username ≡ some (remove_uid us v, u.home ∷ [])
    unfolding lookup_uid
    remove_name-remove_uid [] v u h e = cc
    remove_name-remove_uid (x ∷ us) v u (n, w, low, high, home, rest) e =
        elim (Bool-cases (x.uid == v)) [
          | inl y ↦
              subst
                (λ (t : DynamicUser).
                  remove_name (x ∷ us) t.username ≡ some (remove_uid (x ∷ us) v, t.home ∷ []))
                (some-injective x u (ground arith)) (remove_head us v x n w home y)
          | inr y ↦
              (let l : lookup_uid us v ≡ some u = ground arith in
                remove_other us v x u n (lookup_uid-contains_name us v u l) y
                  (remove_name-remove_uid us v u rest l))
        ]

    abbrev pub homes_of : Option DynamicUser → List Bytes
    homes_of none = []
    homes_of (some u) = u.home ∷ []

    -- What a removal leaves: a sound store without a user of the UID, in which the others are found as
    -- before, and the home of the user that was removed, if there was one.
    abbrev pub IsRemoved : UserStore → ℕ → Option (UserStore × List Bytes) → Type 0
    IsRemoved store v none = ⊥
    IsRemoved store v (some (after, homes)) =
        IsSound r home_of after
        × (contains after.by_uid v ≡ false)
        × (contains after.by_name v ≡ false)
        × ((w : ℕ) → (v == w) ≡ false → lookup_uid after.by_uid w ≡ lookup_uid store.by_uid w)
        × (homes ≡ homes_of (lookup_uid store.by_uid v))

    remove_user_present :
        (store : UserStore) (v : ℕ) (u : DynamicUser)
        → IsSound r home_of store
        → lookup_uid store.by_uid v ≡ some u
        → IsRemoved store v (remove_user store v (some u))
    remove_user_present store v u h e =
        subst
          (λ (x : Option (List DynamicUser × List Bytes)).
            IsRemoved store v (with_names (record store { by_uid = remove_uid store.by_uid v }) x))
          (sym (
            remove_name-remove_uid store.by_name v u h.users
              (subst (λ (us : List DynamicUser). lookup_uid us v ≡ some u) h.in_step e)))
          (
            record {
              in_step = ap (λ (us : List DynamicUser). remove_uid us v) h.in_step;
              users = AreUsers-remove_uid store.by_name v h.users;
              above_low = h.above_low;
              below_high = h.below_high;
            },
            contains-remove_uid store.by_uid v,
            contains-remove_uid store.by_name v,
            (λ w n. lookup_uid-remove_uid store.by_uid v w n),
            ap homes_of (sym e),
          )

    remove_user_missing :
        (store : UserStore) (v : ℕ)
        → IsSound r home_of store
        → lookup_uid store.by_uid v ≡ none
        → IsRemoved store v (remove_user store v none)
    remove_user_missing store v h e = (
      h,
      lookup_uid_absent store.by_uid v e,
      subst (λ (us : List DynamicUser). contains us v ≡ false) h.in_step
          (lookup_uid_absent store.by_uid v e),
      (λ w n. refl),
      ap homes_of (sym e),
    )

    -- From a sound store, in which every home that a name has is one that may be removed, a removal
    -- does not abort: the store is sound after it, the UID is in neither table, every other UID is
    -- found as before, and the home that is deleted is that of the user, if there was one.
    pub remove-IsRemoved :
        (store : UserStore) (v : ℕ) → IsSound r home_of store → IsRemoved store v (remove store v)
    unfolding remove
    remove-IsRemoved store v h = elim (Option-cases (lookup_uid store.by_uid v)) [
      | inl e ↦
          subst (λ (o : Option DynamicUser). IsRemoved store v (remove_user store v o)) (sym e)
            (remove_user_missing store v h e)
      | inr (u, e) ↦
          subst (λ (o : Option DynamicUser). IsRemoved store v (remove_user store v o)) (sym e)
            (remove_user_present store v u h e)
    ]
