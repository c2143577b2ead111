-- ===== src/UserStore/Tests.antt =====
-- The theorems on daemon/gdm-dynamic-user-store.c at concrete inputs.
use gdm.Base.{none, true, ◌++◌, digits, codes, ◌==◌, ◌≡◌, refl, some, [], ◌∷◌, arith}
use gdm.UserStore.{Range, UserStore, DynamicUser, pick_uid}
use gdm.UserStore.Search.{IsPicked, pick_uid-IsPicked}
use gdm.UserStore.Users.{
  Host, Wanted, created, pick_numbered, pick_username, add_member, add_picked, create, remove,
  remove_name, remove_uid,
}
use gdm.UserStore.Tables.{IsSound, IsRemoved, remove-IsRemoved}
use gdm.UserStore.Creation.{IsCreated, create-IsCreated, remove-create}

abbrev greeters : Range
greeters = record { low = 60578; high = 60580 }

abbrev greeter : DynamicUser
greeter = record {
  username = codes "gdm-greeter";
  display_name = codes "GDM Greeter";
  home = codes "/run/gdm/home/gdm-greeter";
  uid = 60579;
  group = codes "gdm";
  gid = 120;
}

-- The two highest are taken, by a greeter and by a user of the system.
abbrev two_taken : UserStore
two_taken = record { by_name = greeter ∷ []; by_uid = greeter ∷ []; next_alloc = 60579 }

pick_uid-IsPicked_example :
    IsPicked greeters (λ u. u == 60580) two_taken (pick_uid greeters (λ u. u == 60580) two_taken)
pick_uid-IsPicked_example =
    pick_uid-IsPicked greeters (λ u. u == 60580) two_taken (omega arith) (omega arith)

two_taken_wraps :
    pick_uid greeters (λ u. u == 60580) two_taken
    ≡ some (some 60578, record two_taken { next_alloc = 60579 })
unfolding pick_uid
two_taken_wraps = refl

abbrev host : Host
host = record {
  get_pwent_for_uid = λ u. u == 60580;
  get_grent_for_name = λ name. some (codes "gdm", 120);
  ensure_dir = λ home uid. true;
  home_of = λ name. codes "/run/gdm/home/" ++ name;
}

abbrev wanted : Wanted
wanted = record {
  preferred_username = codes "gdm-greeter";
  display_name = codes "GDM Greeter";
  member_of = codes "gdm";
}

two_taken-IsSound : IsSound greeters host.home_of two_taken
two_taken-IsSound = record {
  in_step = refl;
  users = (refl, refl, omega arith, omega arith, refl, tt);
  above_low = omega arith;
  below_high = omega arith;
}

abbrev second : DynamicUser
second = record greeter {
  username = codes "gdm-greeter-2";
  home = codes "/run/gdm/home/gdm-greeter-2";
  uid = 60578;
}

abbrev both_created : UserStore
both_created = record {
  by_name = second ∷ greeter ∷ [];
  by_uid = second ∷ greeter ∷ [];
  next_alloc = 60579;
}

second_created :
    create greeters host wanted two_taken
    ≡ some (
      created (codes "gdm-greeter-2") 60578 (codes "/run/gdm/home/gdm-greeter-2"),
      both_created,
      [],
    )
unfolding create pick_username pick_numbered add_picked add_member remove_name remove_uid pick_uid
    digits
second_created = refl

create-IsCreated_example :
    IsCreated greeters host wanted two_taken (create greeters host wanted two_taken)
create-IsCreated_example = create-IsCreated greeters host wanted two_taken two_taken-IsSound

remove-IsRemoved_example :
    IsRemoved greeters host.home_of (λ name. refl) two_taken 60579 (remove two_taken 60579)
remove-IsRemoved_example =
    remove-IsRemoved greeters host.home_of (λ name. refl) two_taken 60579 two_taken-IsSound

remove-create_example :
    remove both_created 60578
    ≡ some (record two_taken { next_alloc = 60579 }, codes "/run/gdm/home/gdm-greeter-2" ∷ [])
remove-create_example =
    remove-create greeters host wanted (λ name. refl) two_taken both_created (codes "gdm-greeter-2")
      (codes "/run/gdm/home/gdm-greeter-2") 60578 [] two_taken-IsSound second_created

-- A full store, in which every name that a fourth greeter may have is in use: the creation aborts
-- before the search for a UID can fail.
abbrev full : UserStore
full =
    (let users =
        record greeter { username = codes "gdm-greeter-3"; uid = 60580 }
        ∷ record greeter { username = codes "gdm-greeter-2"; uid = 60578 }
        ∷ greeter
        ∷ [] in
      record { by_name = users; by_uid = users; next_alloc = 60578 })

full_aborts : create greeters host wanted full ≡ none
unfolding create pick_username pick_numbered digits
full_aborts = refl
