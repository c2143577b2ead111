-- ===== src/UserStore/Creation.antt =====
-- gdm_dynamic_user_store_create of daemon/gdm-dynamic-user-store.c: what it leaves, and what a removal
-- undoes.
use gdm.Base.{
  ℕ, suc, ◌-◌, ◌≡◌, ◌≤◌, inl, inr, refl, ap, ◌∙◌, sym, subst, Option, none, some, Bool, true, false,
  List, [], ◌∷◌, arith, Option-cases, Bytes, if◌then◌else◌, length,
}
use gdm.UserStore.{Range, DynamicUser, UserStore, contains, contains_name}
use gdm.UserStore.Search.{IsPicked, AllUsed, already_used, pick_uid-IsPicked}
use gdm.UserStore.Users.{
  Host, Wanted, Outcome, no_free_uid, no_such_group, no_home, created, pick_username, insert_user,
  add_member, add_picked, add_named, create, remove_name, remove_uid, lookup_uid, remove,
}
use gdm.UserStore.Tables.{
  is_guarded, IsSound, AreUsers, remove_uid_absent, remove_name_absent, remove_name-remove_uid,
}
use gdm.UserStore.Names.{pick_username-some, pick_username-none}

module _ (r : Range) (host : Host) (wanted : Wanted) where
  -- A store with the same users.
  abbrev pub IsKept : UserStore → UserStore → List Bytes → Type 0
  IsKept store after homes =
      IsSound r host.home_of after × (after.by_name ≡ store.by_name) × (homes ≡ [])

  -- What a creation leaves: nothing but the next UID to try is changed by an error, and a user that is
  -- created has a name and a UID that nobody had. The abort needs a full store.
  abbrev pub IsCreated : UserStore → Outcome → Type 0
  IsCreated store none = suc (r.high - r.low) ≤ length store.by_name
  IsCreated store (some (no_free_uid, after, homes)) =
      IsKept store after homes
      × AllUsed r (already_used host.get_pwent_for_uid store) r.low (suc r.high)
  IsCreated store (some (no_such_group, after, homes)) =
      IsKept store after homes × (host.get_grent_for_name wanted.member_of ≡ none)
  IsCreated store (some (no_home, after, homes)) = IsKept store after homes
  IsCreated store (some (created username uid home, after, homes)) =
      IsSound r host.home_of after
      × (homes ≡ [])
      × (contains_name store.by_name username ≡ false)
      × (contains store.by_name uid ≡ false)
      × (host.get_pwent_for_uid uid ≡ false)
      × (home ≡ host.home_of username)
      × ((u : DynamicUser) × (after.by_name ≡ u ∷ store.by_name)
          × (u.username ≡ username)
          × (u.uid ≡ uid))

  -- The members after the UID was picked, in a store that differs in the next UID only.
  record IsReady (store picked : UserStore) (username : Bytes) (uid : ℕ) : Type 0 where
    sound : IsSound r host.home_of picked
    same : picked.by_name ≡ store.by_name
    new_name : contains_name store.by_name username ≡ false
    new_uid : contains store.by_name uid ≡ false
    no_entry : host.get_pwent_for_uid uid ≡ false
    above_low : r.low ≤ uid
    below_high : uid ≤ r.high

  insert_user-IsCreated :
      (store picked : UserStore) (u : DynamicUser)
      → IsReady store picked u.username u.uid
      → u.home ≡ host.home_of u.username
      → IsCreated store (insert_user u picked (remove_name picked.by_name u.username))
  insert_user-IsCreated store picked u ready h =
      subst
        (λ (x : Option (List DynamicUser × List Bytes)). IsCreated store (insert_user u picked x))
        (sym (remove_name_absent picked.by_name u.username name))
        (
          record {
            in_step =
                ap (λ (us : List DynamicUser). u ∷ us)
                  (remove_uid_absent picked.by_uid u.uid (
                      subst (λ (us : List DynamicUser). contains us u.uid ≡ false)
                        (sym ready.sound.in_step) uid)
                    ∙ ready.sound.in_step);
            users = (name, uid, ready.above_low, ready.below_high, h, ready.sound.users);
            above_low = ready.sound.above_low;
            below_high = ready.sound.below_high;
          },
          refl,
          ready.new_name,
          ready.new_uid,
          ready.no_entry,
          h,
          (u, ap (λ (us : List DynamicUser). u ∷ us) ready.same, refl, refl),
        )
    where
      name : contains_name picked.by_name u.username ≡ false
      name =
          subst (λ (us : List DynamicUser). contains_name us u.username ≡ false) (sym ready.same)
            ready.new_name

      uid : contains picked.by_name u.uid ≡ false
      uid =
          subst (λ (us : List DynamicUser). contains us u.uid ≡ false) (sym ready.same)
            ready.new_uid

  module _ (store picked : UserStore) (username : Bytes) (uid : ℕ)
      (ready : IsReady store picked username uid) where
    add_member-IsCreated :
        (o : Option (Bytes × ℕ))
        → host.get_grent_for_name wanted.member_of ≡ o
        → IsCreated store (add_member r host wanted username uid picked o)
    unfolding add_member
    add_member-IsCreated none e = ((ready.sound, ready.same, refl), e)
    add_member-IsCreated (some (gr_name, gr_gid)) e =
        go (host.ensure_dir (host.home_of username) uid)
      where
        user : DynamicUser
        user = record {
          username = username;
          display_name = wanted.display_name;
          home = host.home_of username;
          uid = uid;
          group = gr_name;
          gid = gr_gid;
        }

        go :
            (b : Bool)
            → IsCreated store (
                if b
                then insert_user user picked (remove_name picked.by_name username)
                else some (no_home, picked, []))
        go true = insert_user-IsCreated store picked user ready refl
        go false = (ready.sound, ready.same, refl)

  kept :
      (store after : UserStore)
      → IsSound r host.home_of store
      → after.by_uid ≡ store.by_uid
      → after.by_name ≡ store.by_name
      → r.low ≤ after.next_alloc
      → after.next_alloc ≤ r.high
      → IsSound r host.home_of after
  kept store after s e n a b = record {
    in_step = e ∙ s.in_step ∙ sym n;
    users = subst (AreUsers r host.home_of) (sym n) s.users;
    above_low = a;
    below_high = b;
  }

  add_picked-IsCreated :
      (store : UserStore) (username : Bytes) (o : Option (Option ℕ × UserStore))
      → IsSound r host.home_of store
      → contains_name store.by_name username ≡ false
      → IsPicked r host.get_pwent_for_uid store o
      → IsCreated store (add_picked r host wanted username o)
  unfolding add_picked
  add_picked-IsCreated store username none s n p = absurd p
  add_picked-IsCreated store username (some (none, after)) s n ((all, a, b), e, f) =
      ((kept store after s e f a b, f, refl), all)
  add_picked-IsCreated store username (some (some uid, after)) s n ((l, m, free, a, b), e, f) =
      add_member-IsCreated store after username uid
        (record {
          sound = kept store after s e f a b;
          same = f;
          new_name = n;
          new_uid =
              subst (λ (us : List DynamicUser). contains us uid ≡ false) s.in_step
                (ground (arith, free));
          no_entry = ground (arith, free);
          above_low = l;
          below_high = m;
        })
        _ refl

  -- From a sound store, a creation leaves a sound store and deletes no home. A user that is created has
  -- a name and a UID that no user of the store had, a UID that the system's users do not have, and is
  -- the one user more, in both tables; after an error the users are the same, and NO_FREE_UID means
  -- that every UID is taken, NO_SUCH_GROUP that there is no such group. The call aborts only from a store
  -- with as many users as there are UIDs.
  pub create-IsCreated :
      (store : UserStore)
      → IsSound r host.home_of store
      → IsCreated store (create r host wanted store)
  unfolding create
  create-IsCreated store s =
      elim (Option-cases (pick_username r store.by_name wanted.preferred_username)) [
        | inl e ↦
            subst (λ (o : Option Bytes). IsCreated store (add_named r host wanted store o)) (sym e)
              (pick_username-none r store.by_name wanted.preferred_username e)
        | inr (name, e) ↦
            subst (λ (o : Option Bytes). IsCreated store (add_named r host wanted store o)) (sym e)
              (add_picked-IsCreated store name _ s
                (pick_username-some r store.by_name wanted.preferred_username name e)
                (pick_uid-IsPicked r host.get_pwent_for_uid store s.above_low s.below_high))
      ]

  module _ (safe : (name : Bytes) → is_guarded (host.home_of name) ≡ false) where
    lookup_head : (us : List DynamicUser) (u : DynamicUser) → lookup_uid (u ∷ us) u.uid ≡ some u
    unfolding lookup_uid
    lookup_head us u = ground arith

    remove_uid_head :
        (us : List DynamicUser) (u : DynamicUser)
        → contains us u.uid ≡ false
        → remove_uid (u ∷ us) u.uid ≡ us
    unfolding remove_uid
    remove_uid_head us u n = ground (arith, remove_uid_absent us u.uid n)

    removed_newest :
        (us : List DynamicUser) (after : UserStore) (u : DynamicUser)
        → IsSound r host.home_of after
        → after.by_name ≡ u ∷ us
        → remove after u.uid
          ≡ some (record { by_name = us; by_uid = us; next_alloc = after.next_alloc }, u.home ∷ [])
    unfolding remove
    removed_newest us after u s e = rw (
      by_uid,
      e,
      lookup_head us u,
      remove_name-remove_uid r host.home_of safe (u ∷ us) u.uid u users (lookup_head us u),
      remove_uid_head us u users.1,
    )
      where
        users : AreUsers r host.home_of (u ∷ us)
        users = subst (AreUsers r host.home_of) e s.users

        by_uid : after.by_uid ≡ u ∷ us
        by_uid = s.in_step ∙ e

    -- From a sound store, if no home that a name has is refused by the removal's checks: after a user is
    -- created, the removal of the UID gives back the tables as they were, and deletes the home.
    pub remove-create :
        (store after : UserStore) (username home : Bytes) (uid : ℕ) (homes : List Bytes)
        → IsSound r host.home_of store
        → create r host wanted store ≡ some (created username uid home, after, homes)
        → remove after uid ≡ some (record store { next_alloc = after.next_alloc }, home ∷ [])
    remove-create store after username home uid homes s e =
        undone (subst (IsCreated store) e (create-IsCreated store s))
      where
        undone :
            IsCreated store (some (created username uid home, after, homes))
            → remove after uid ≡ some (record store { next_alloc = after.next_alloc }, home ∷ [])
        undone (sound, none_freed, n, f, g, h, (u, p, q, v)) =
            ap (remove after) (sym v)
            ∙ removed_newest store.by_name after u sound p
            ∙ rw (s.in_step, h, sym q, (subst (AreUsers r host.home_of) p sound.users).4)
