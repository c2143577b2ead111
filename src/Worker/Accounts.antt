-- ===== src/Worker/Accounts.antt =====
-- daemon/gdm-session-worker.c: the worker's state changes, its user name, the saved settings of the
-- user, the PAM environment and the lookup in the passwd database.
use Prim.Native.String.{◌++◌ as append}
use gdm.Base.{
  ℕ, String, Option, none, some, Bool, true, false, not, List, [], ◌∷◌, if◌then◌else◌, pure, read,
  modify, when, g_assert, ◌>>=◌, ◌>>◌, strcmp0_eq, is_nonempty, streq,
}
use gdm.Settings
use gdm.Settings.{Settings, Notification}
use gdm.Worker.{State, Effect, Env, Build, W, emit, is_state}

-- The auditor's methods are refused by g_return_if_fail while there is no auditor.
abbrev pub audit : Effect → W (Unit {0})
audit e = do has ← read (λ w. w.auditor); when has (emit e)

-- gdm_session_worker_get_username
unfoldable pub get_username : Env → W (Option (Option String))
get_username env = do
  handle ← read (λ w. w.pam_handle)
  g_assert handle
  elim env.pam_user [
    | none ↦ pure none
    | some item ↦ do audit (Effect.audit_username item); pure (some item)
  ]

unfoldable pub set_state : State → W (Unit {0})
set_state s = do
  old ← read (λ w. w.state)
  when (not (is_state old s))
      (do modify (λ w. record w { state = s }); emit (Effect.state_changed s))

unfoldable pub queue_state_change : W (Unit {0})
queue_state_change = modify (λ w. record w { state_change_idle_id = true })

-- The settings, if there are any, are written for the user.
unfoldable pub write_settings : Env → W (Unit {0})
write_settings env = do
  settings ← read (λ w. w.user_settings)
  username ← read (λ w. w.username)
  elim settings [
    | none ↦ pure tt
    | some saved ↦
        emit (Effect.save_settings (Settings.save env.get_user env.cache_user saved username).1)
  ]

unfoldable pub save_account_details_now : Env → W (Unit {0})
save_account_details_now env = do
  s ← read (λ w. w.state)
  g_assert (is_state s State.accredited)
  set_state State.account_details_saved
  write_settings env
  queue_state_change

-- Is the settings object there, and loaded?
abbrev pub settings_loaded : Option Settings → Bool
settings_loaded none = false
settings_loaded (some s) = Settings.is_loaded s

abbrev pub disconnect : W (Unit {0})
disconnect = modify (λ w. record w { awaiting_settings = false })

-- Loaded settings move the worker on in the two states that wait for them.
unfoldable pub continue_loaded : Env → State → W (Unit {0})
continue_loaded env State.none_state = do queue_state_change; disconnect
continue_loaded env State.accredited = do save_account_details_now env; disconnect
continue_loaded env _ = pure tt

unfoldable pub on_settings_is_loaded_changed : Env → W (Unit {0})
on_settings_is_loaded_changed env = do
  loaded ← read (λ w. settings_loaded w.user_settings)
  s ← read (λ w. w.state)
  when loaded (do modify (λ w. record w { saved_names_connected = false }); continue_loaded env s)

abbrev name_of : (Settings → Option String) → Option Settings → Option String
name_of f none = none
name_of f (some s) = f s

-- A handler of a notification of the settings object runs if it is connected.
unfoldable pub notify : Env → Notification → W (Unit {0})
notify env Notification.session_name_changed = do
  on ← read (λ w. w.saved_names_connected)
  name ← read (λ w. name_of (λ s. s.session_name) w.user_settings)
  when on (emit (Effect.saved_session_name_read name))
notify env Notification.language_name_changed = do
  on ← read (λ w. w.saved_names_connected)
  name ← read (λ w. name_of (λ s. s.language_name) w.user_settings)
  when on (emit (Effect.saved_language_name_read name))
notify env Notification.session_type_changed = do
  on ← read (λ w. w.saved_type_connected)
  name ← read (λ w. name_of (λ s. s.session_type) w.user_settings)
  when on (emit (Effect.saved_session_type_read name))
notify env Notification.loaded = do
  on ← read (λ w. w.awaiting_settings)
  when on (on_settings_is_loaded_changed env)

unfoldable pub notify_all : Env → List Notification → W (Unit {0})
notify_all env [] = pure tt
notify_all env (n ∷ ns) = do notify env n; notify_all env ns

-- Put the settings back that an operation on them has returned, and run the handlers.
abbrev pub store_settings : Env → Settings → List Notification → W (Unit {0})
store_settings env s ns = do modify (λ w. record w { user_settings = some s }); notify_all env ns

-- gdm_session_settings_load (worker->user_settings, username), for settings that are there.
unfoldable pub load_settings : Env → Settings → Option String → W Bool
load_settings env s username = do
  let (s', loaded, ns) = Settings.load env.get_user s username
  store_settings env s' ns
  pure loaded

unfoldable pub attempt_to_load_user_settings : Env → Option String → W (Unit {0})
unfolding load_settings
attempt_to_load_user_settings env username = do
  settings ← read (λ w. w.user_settings)
  elim settings [
    | none ↦ pure tt
    | some s ↦
        if Settings.is_loaded s then pure tt else (do _ ← load_settings env s username; pure tt)
  ]

-- A user name that differs is announced, and the settings of the new user are asked for.
unfoldable pub change_username : Env → Option String → W (Unit {0})
unfolding attempt_to_load_user_settings
change_username env username = do
  modify (λ w. record w { username = username })
  emit (Effect.username_changed username)
  when (is_nonempty username) (attempt_to_load_user_settings env username)

-- The name that PAM has, if it could be read, becomes the worker's.
unfoldable pub adopt_username : Env → Option (Option String) → W (Unit {0})
unfolding change_username
adopt_username env none = pure tt
adopt_username env (some username) = do
  old ← read (λ w. w.username)
  audit (Effect.audit_username old)
  when (not (strcmp0_eq old username)) (change_username env username)

-- gdm_session_worker_update_username
unfoldable pub update_username : Env → W (Unit {0})
unfolding get_username adopt_username
update_username env = do res ← get_username env; adopt_username env res

-- gdm_session_worker_set_environment_variable
abbrev pub set_environment_variable : String → Option String → W (Unit {0})
set_environment_variable key value = emit (Effect.pam_putenv key value)

unfoldable pub update_environment_from_passwd_info : String → String → W (Unit {0})
update_environment_from_passwd_info home shell = do
  username ← read (λ w. w.username)
  set_environment_variable "LOGNAME" username
  set_environment_variable "USER" username
  set_environment_variable "USERNAME" username
  set_environment_variable "HOME" (some home)
  set_environment_variable "PWD" (some home)
  set_environment_variable "SHELL" (some shell)

pub record Account : Type 0 where
  pub account_uid : ℕ
  pub account_gid : ℕ
  pub home : String
  pub shell : String

abbrev or_default : Option String → String → String
or_default none d = d
or_default (some s) d = if is_nonempty (some s) then s else d

-- _lookup_passwd_info: an interrupted lookup is repeated by the caller of getpwnam_r, so the
-- environment answers with its last result.
unfoldable pub lookup_passwd_info : Env → String → Option Account
lookup_passwd_info env name = elim (env.getpwnam name) [
  | none ↦ none
  | some p ↦ some (record {
    account_uid = p.pw_uid;
    account_gid = p.pw_gid;
    home = or_default p.pw_dir "/";
    shell = or_default p.pw_shell "/bin/bash";
  })
]

-- The PATH that gdm_session_worker_accredit_user gives where PAM has set none.
unfoldable pub default_path : Build → String
default_path b =
    if streq b.bindir "/usr/bin"
    then b.session_default_path
    else append b.bindir (append ":" b.session_default_path)
