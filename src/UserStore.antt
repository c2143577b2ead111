-- ===== src/UserStore.antt =====
-- daemon/gdm-dynamic-user-store.c, of a build with userdb: the two tables of users, as lists, and the
-- search for a free UID. GREETER_UID_MIN and GREETER_UID_MAX are arguments, and so is what
-- gdm_get_pwent_for_uid answers.
use gdm.Base.{
  ℕ, zero, suc, ◌-◌, ◌==◌, ◌||◌, Option, none, some, Bool, true, false, List, [], ◌∷◌, ltb,
  if◌then◌else◌, Bytes, same_bytes,
}
pub mod Search
pub mod Users
pub mod Tables
pub mod Names
pub mod Creation
pub mod Tests

-- GREETER_UID_MIN and GREETER_UID_MAX.
pub record Range : Type 0 where
  pub low : ℕ
  pub high : ℕ

pub record DynamicUser : Type 0 where
  pub username : Bytes
  pub display_name : Bytes
  pub home : Bytes
  pub uid : ℕ
  pub group : Bytes
  pub gid : ℕ

-- The key of a user in each table is the user's own field.
pub record UserStore : Type 0 where
  pub by_name : List DynamicUser
  pub by_uid : List DynamicUser
  pub next_alloc : ℕ

-- g_hash_table_contains
abbrev pub contains : List DynamicUser → ℕ → Bool
contains [] u = false
contains (x ∷ xs) u = (x.uid == u) || contains xs u

abbrev pub contains_name : List DynamicUser → Bytes → Bool
contains_name [] name = false
contains_name (x ∷ xs) name = same_bytes x.username name || contains_name xs name

-- The UID that is tried after the given one.
abbrev pub advance : Range → ℕ → ℕ
advance r next = if ltb next r.high then suc next else r.low

-- The loop, by fuel: the UID that was found, if any, and the one to try next.
unfoldable pub search : ℕ → Range → (ℕ → Bool) → ℕ → ℕ → Option (Option ℕ × ℕ)
search zero r already_used start next = none
search (suc k) r already_used start next =
    let rest = search k r already_used start (advance r next) in
    if already_used next
    then (if advance r next == start then some (none, advance r next) else rest)
    else some (some next, advance r next)

-- What the search leaves in the store.
abbrev pub stored : UserStore → Option (Option ℕ × ℕ) → Option (Option ℕ × UserStore)
stored store none = none
stored store (some (found, next)) = some (found, record store { next_alloc = next })

-- pick_uid: the UID, or none where the error NO_FREE_UID is set, and the store.
unfoldable pub pick_uid : Range → (ℕ → Bool) → UserStore → Option (Option ℕ × UserStore)
unfolding search
pick_uid r get_pwent_for_uid store = stored store (
    search (suc (r.high - r.low)) r (λ u. contains store.by_uid u || get_pwent_for_uid u)
      store.next_alloc store.next_alloc)
