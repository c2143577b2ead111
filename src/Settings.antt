-- ===== src/Settings.antt =====
-- daemon/gdm-session-settings.c: the saved session, session type and language of a user, which
-- accountsservice stores. An `ActUser` is the library's object as it reads at the time of a call;
-- what `act_user_manager_get_user` and `act_user_manager_cache_user` answer are arguments. The
-- property notifications that a call emits are its second result, in the order of emission.
use gdm.Base.{
  String, Option, none, some, Bool, true, false, not, ◌&&◌, ◌||◌, List, [], ◌∷◌, ◌++◌,
  if◌then◌else◌, is_nonempty, strcmp0_eq, is_some,
}
pub mod Laws
pub mod Tests

pub record ActUser : Type 0 where
  pub is_loaded : Bool
  pub is_local : Bool
  pub session : Option String
  pub session_type : Option String
  pub language : Option String

pub data Notification : Type 0 where
  session_name_changed session_type_changed language_name_changed loaded : Notification

pub record Settings : Type 0 where
  pub user : Option ActUser
  pub session_name : Option String
  pub session_type : Option String
  pub language_name : Option String

unfoldable pub new : Settings
new = record { user = none; session_name = none; session_type = none; language_name = none }

unfoldable pub is_loaded : Settings → Bool
is_loaded s = elim s.user [ none ↦ false | some u ↦ u.is_loaded ]

-- `x == NULL || strcmp (x, name) != 0`: the value is replaced, and the change is announced.
abbrev pub differs : Option String → String → Bool
differs x name = not (strcmp0_eq x (some name))

unfoldable pub set_language_name : Settings → String → Settings × List Notification
set_language_name s name =
    if differs s.language_name name
    then (record s { language_name = some name }, language_name_changed ∷ [])
    else (s, [])

unfoldable pub set_session_name : Settings → String → Settings × List Notification
set_session_name s name =
    if differs s.session_name name
    then (record s { session_name = some name }, session_name_changed ∷ [])
    else (s, [])

unfoldable pub set_session_type : Settings → String → Settings × List Notification
set_session_type s name =
    if differs s.session_type name
    then (record s { session_type = some name }, session_type_changed ∷ [])
    else (s, [])

-- A setter under `if (value != NULL && value[0] != '\0')`.
abbrev pub set_if_nonempty :
    (Settings → String → Settings × List Notification)
    → Settings
    → Option String
    → Settings × List Notification
set_if_nonempty set s none = (s, [])
set_if_nonempty set s (some v) = if is_nonempty (some v) then set s v else (s, [])

unfoldable pub load_settings_from_user : Settings → Settings × List Notification
unfolding set_session_type set_session_name set_language_name
load_settings_from_user s = elim s.user [
  | none ↦ (s, [])
  | some u ↦
      if u.is_loaded
      then (let (s₁, n₁) = set_if_nonempty set_session_type s u.session_type in
          let (s₂, n₂) = set_if_nonempty set_session_name s₁ u.session in
          let (s₃, n₃) = set_if_nonempty set_language_name s₂ u.language in
          (s₃, n₁ ++ n₂ ++ n₃ ++ loaded ∷ []))
      else (s, [])
]

-- The user object has announced that it changed, and now reads `u`.
unfoldable pub on_user_is_loaded_changed : ActUser → Settings → Settings × List Notification
unfolding load_settings_from_user
on_user_is_loaded_changed u s =
    let s' = record s { user = some u } in
    if u.is_loaded then load_settings_from_user s' else (s', [])

-- The result says whether the settings are loaded when the call returns. A call on settings that
-- are loaded, or for no user, is refused by g_return_val_if_fail.
unfoldable pub load :
    (String → ActUser) → Settings → Option String → Settings × Bool × List Notification
unfolding is_loaded load_settings_from_user
load get_user s none = (s, false, [])
load get_user s (some username) =
    if is_loaded s
    then (s, false, [])
    else (let s' = record s { user = some (get_user username) } in
        if (get_user username).is_loaded
        then (let (s'', ns) = load_settings_from_user s' in (s'', true, ns))
        else (s', false, []))

-- What `save` writes to the user: the calls of act_user_set_session and its two siblings.
pub data Write : Type 0 where
  set_session set_session_type_of set_language : String → Write

abbrev pub write_if_set : (String → Write) → Option String → List Write
write_if_set c none = []
write_if_set c (some v) = c v ∷ []

unfoldable pub save :
    (String → ActUser) → (String → Bool) → Settings → Option String → Bool × List Write
unfolding is_loaded
save get_user cache_user s none = (false, [])
save get_user cache_user s (some username) =
    let u = get_user username in
    let writes =
      write_if_set set_session s.session_name
      ++ write_if_set set_session_type_of s.session_type
      ++ write_if_set set_language s.language_name in
    if is_loaded s && u.is_loaded then (u.is_local || cache_user username, writes) else (false, [])
