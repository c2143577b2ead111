-- ===== src/UserStore/Users.antt =====
-- daemon/gdm-dynamic-user-store.c: the creation and the removal of users, in both tables.
use gdm.Base.{
  ℕ, zero, suc, ◌-◌, ◌==◌, ◌||◌, Option, none, some, Bool, List, [], ◌∷◌, ◌++◌, if◌then◌else◌,
  Bytes, codes, same_bytes, take, print_size,
}
use gdm.UserStore.{Range, DynamicUser, UserStore, contains_name, pick_uid}

-- The name with a number, `%s-%lu`.
abbrev pub numbered : Bytes → ℕ → Bytes
numbered preferred i = preferred ++ b'-' ∷ print_size i

-- The loop of pick_username, from the number i on for k numbers; `none` is g_assert_not_reached.
unfoldable pub pick_numbered : ℕ → List DynamicUser → Bytes → ℕ → Option Bytes
pick_numbered zero users preferred i = none
pick_numbered (suc k) users preferred i =
    let rest = pick_numbered k users preferred (suc i) in
    if contains_name users (numbered preferred i) then rest else some (numbered preferred i)

-- pick_username; the numbers run from 2 to GREETER_UID_COUNT, which is high - low + 1.
unfoldable pub pick_username : Range → List DynamicUser → Bytes → Option Bytes
unfolding pick_numbered
pick_username r users preferred =
    if contains_name users preferred
    then pick_numbered (r.high - r.low) users preferred 2
    else some preferred

-- dynamic_user_free: the home that is removed; `none` is the g_error for a home that is not one.
unfoldable pub dynamic_user_free : DynamicUser → Option Bytes
dynamic_user_free u =
    if same_bytes u.home (codes "/") || same_bytes (take 5 u.home) (codes "/home")
    then none
    else some u.home

abbrev pub with_freed :
    Option Bytes → Option (List DynamicUser × List Bytes) → Option (List DynamicUser × List Bytes)
with_freed none r = none
with_freed (some home) none = none
with_freed (some home) (some (us, homes)) = some (us, home ∷ homes)

abbrev pub with_kept :
    DynamicUser → Option (List DynamicUser × List Bytes) → Option (List DynamicUser × List Bytes)
with_kept u none = none
with_kept u (some (us, homes)) = some (u ∷ us, homes)

-- g_hash_table_remove of by_name, which owns the users: what is left, and the homes of those freed.
unfoldable pub remove_name : List DynamicUser → Bytes → Option (List DynamicUser × List Bytes)
unfolding dynamic_user_free
remove_name [] name = some ([], [])
remove_name (u ∷ us) name =
    if same_bytes u.username name
    then with_freed (dynamic_user_free u) (remove_name us name)
    else with_kept u (remove_name us name)

-- g_hash_table_remove of by_uid, which owns nothing.
unfoldable pub remove_uid : List DynamicUser → ℕ → List DynamicUser
remove_uid [] v = []
remove_uid (u ∷ us) v = let rest = remove_uid us v in if u.uid == v then rest else u ∷ rest

unfoldable pub lookup_uid : List DynamicUser → ℕ → Option DynamicUser
lookup_uid [] v = none
lookup_uid (u ∷ us) v = let rest = lookup_uid us v in if u.uid == v then some u else rest

-- What the system answers: a UID's entry in the users' database, a group's name and number, whether
-- the home can be made, and g_build_filename (GDM_DYN_HOME_DIR, username).
pub record Host : Type 0 where
  pub get_pwent_for_uid : ℕ → Bool
  pub get_grent_for_name : Bytes → Option (Bytes × ℕ)
  pub ensure_dir : Bytes → ℕ → Bool
  pub home_of : Bytes → Bytes

-- The arguments of gdm_dynamic_user_store_create.
pub record Wanted : Type 0 where
  pub preferred_username : Bytes
  pub display_name : Bytes
  pub member_of : Bytes

pub data Created : Type 0 where
  no_free_uid no_such_group no_home : Created
  created : Bytes → ℕ → Bytes → Created

-- A call's result, the store after it, and the homes that were removed; `none` is an abort.
abbrev pub Outcome : Type 0
Outcome = Option (Created × UserStore × List Bytes)

-- Both insertions, of which the first frees a user of the same name.
abbrev pub insert_user : DynamicUser → UserStore → Option (List DynamicUser × List Bytes) → Outcome
insert_user u store none = none
insert_user u store (some (others, homes)) = some (
  created u.username u.uid u.home,
  record store { by_name = u ∷ others; by_uid = u ∷ remove_uid store.by_uid u.uid },
  homes,
)

module _ (r : Range) (host : Host) (wanted : Wanted) where
  -- From the group on.
  unfoldable pub add_member : Bytes → ℕ → UserStore → Option (Bytes × ℕ) → Outcome
  unfolding remove_name remove_uid
  add_member username uid store none = some (no_such_group, store, [])
  add_member username uid store (some (gr_name, gr_gid)) =
      if host.ensure_dir (host.home_of username) uid
      then insert_user
          (record {
            username = username;
            display_name = wanted.display_name;
            home = host.home_of username;
            uid = uid;
            group = gr_name;
            gid = gr_gid;
          })
          store (remove_name store.by_name username)
      else some (no_home, store, [])

  -- From the UID on.
  unfoldable pub add_picked : Bytes → Option (Option ℕ × UserStore) → Outcome
  unfolding add_member
  add_picked username none = none
  add_picked username (some (none, store)) = some (no_free_uid, store, [])
  add_picked username (some (some uid, store)) =
      add_member username uid store (host.get_grent_for_name wanted.member_of)

  abbrev pub add_named : UserStore → Option Bytes → Outcome
  add_named store none = none
  add_named store (some username) = add_picked username (pick_uid r host.get_pwent_for_uid store)

  -- gdm_dynamic_user_store_create
  unfoldable pub create : UserStore → Outcome
  unfolding add_picked pick_username
  create store = add_named store (pick_username r store.by_name wanted.preferred_username)

abbrev pub with_names :
    UserStore → Option (List DynamicUser × List Bytes) → Option (UserStore × List Bytes)
with_names store none = none
with_names store (some (users, homes)) = some (record store { by_name = users }, homes)

abbrev pub remove_user : UserStore → ℕ → Option DynamicUser → Option (UserStore × List Bytes)
remove_user store v none = some (store, [])
remove_user store v (some u) =
    with_names (record store { by_uid = remove_uid store.by_uid v })
      (remove_name store.by_name u.username)

-- gdm_dynamic_user_store_remove
unfoldable pub remove : UserStore → ℕ → Option (UserStore × List Bytes)
unfolding lookup_uid remove_uid remove_name
remove store v = remove_user store v (lookup_uid store.by_uid v)
