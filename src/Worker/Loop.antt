-- ===== src/Worker/Loop.antt =====
-- daemon/gdm-session-worker.c: what the idle source does, and the main loop. An event is a method
-- call, the idle source, a change of the user object, or the exit of the session's program.
use gdm.Base.{
  ℕ, String, Option, none, some, Bool, true, false, not, List, [], ◌∷◌, pure, read, modify, when,
  g_assert, ◌>>=◌, ◌>>◌, is_some, if◌then◌else◌,
}
use gdm.Settings
use gdm.Settings.{ActUser, Settings}
use gdm.Worker.{State, Effect, Worker, Env, Build, W, Reply, CredFlags, DisplayMode, emit, is_state}
use gdm.Worker.Accounts.{save_account_details_now, store_settings, load_settings, update_username}
use gdm.Worker.Pam.{Failure, initialize_pam, authenticate_user, authorize_user, accredit_user}
use gdm.Worker.Session.{open_session, start_session, session_worker_child_watch}
use gdm.Worker.Requests.{
  Detail, text_of, handle_initialize, handle_authenticate, handle_authorize,
  handle_establish_credentials, handle_open, handle_start_program, handle_start_reauthentication,
  on_reauthentication_client_disconnected, handle_set_environment_variable, handle_set_session_name,
  handle_set_language_name, handle_set_session_display_mode,
}

-- The reply of a method call that failed, or else the given one.
abbrev pub reply_of : Failure → Reply → Reply
reply_of none r = r
reply_of (some (code, message)) r = Reply.error code message

-- The end of each `do_` function: the pending method call is answered. (Without one there is
-- nothing to answer.)
abbrev pub answer : Reply → W (Unit {0})
answer r = do
  pending ← read (λ w. w.pending_invocation)
  elim pending [ none ↦ pure tt | some i ↦ emit (Effect.reply i r) ]
  modify (λ w. record w { pending_invocation = none })

unfoldable pub do_setup : Env → Build → W (Unit {0})
do_setup env build = do res ← initialize_pam env build; answer (reply_of res Reply.completed)

unfoldable pub do_authenticate : Env → W (Unit {0})
do_authenticate env = do
  required ← read (λ w. w.password_is_required)
  res ← authenticate_user env required
  is_program ← read (λ w. w.is_program_session)
  when (if is_some res then false else not is_program) (update_username env)
  answer (reply_of res Reply.completed)

unfoldable pub do_authorize : Env → W (Unit {0})
do_authorize env = do
  required ← read (λ w. w.password_is_required)
  res ← authorize_user env required
  answer (reply_of res Reply.completed)

unfoldable pub do_accredit : Env → Build → W (Unit {0})
do_accredit env build = do res ← accredit_user env build; answer (reply_of res Reply.completed)

unfoldable pub do_save_account_details_when_ready : Env → W (Unit {0})
do_save_account_details_when_ready env = do
  s ← read (λ w. w.state)
  g_assert (is_state s State.accredited)
  settings ← read (λ w. w.user_settings)
  username ← read (λ w. w.username)
  elim settings [
    | none ↦ save_account_details_now env
    | some saved ↦ elim (Settings.is_loaded saved) [
      | true ↦ save_account_details_now env
      | false ↦ do
        modify (λ w. record w { awaiting_settings = true })
        _ ← load_settings env saved username
        pure tt
    ]
  ]

unfoldable pub do_open_session : Env → Build → W (Unit {0})
do_open_session env build = do
  res ← open_session env build
  id ← read (λ w. w.session_id)
  answer (reply_of res (Reply.opened_session (text_of id)))

abbrev pub pid_of : Option ℕ → ℕ
pid_of none = 0
pid_of (some pid) = pid

unfoldable pub do_start_session : Env → W (Unit {0})
do_start_session env = do
  res ← start_session env
  pid ← read (λ w. w.child_pid)
  answer (reply_of res (Reply.started_program (pid_of pid)))

-- The `switch` on the state that follows the present one; after the last there is none.
unfoldable pub dispatch : Env → Build → State → W (Unit {0})
dispatch env build State.none_state = do_setup env build
dispatch env build State.setup_complete = do_authenticate env
dispatch env build State.authenticated = do_authorize env
dispatch env build State.authorized = do_accredit env build
dispatch env build State.accredited = do_save_account_details_when_ready env
dispatch env build State.account_details_saved = do_open_session env build
dispatch env build State.session_opened = do_start_session env
dispatch env build State.session_started = g_assert false

unfoldable pub state_change_idle : Env → Build → W (Unit {0})
unfolding dispatch
state_change_idle env build = do
  s ← read (λ w. w.state)
  modify (λ w. record w { state_change_idle_id = false })
  dispatch env build s

pub data Event : Type 0 where
  initialize : ℕ → List Detail → Event
  authenticate authorize establish_credentials open_session_of : ℕ → Event
  start_program set_session_name set_language_name set_session_display_mode : ℕ → String → Event
  set_environment : ℕ → String → String → Event
  start_reauthentication : ℕ → ℕ → ℕ → Event
  reauthentication_client_disconnected : ℕ → Event
  idle : Event
  user_is_loaded : ActUser → Event
  child_exited : ℕ → Event

-- The user object of the settings announces a change; the settings listen until it is loaded.
unfoldable pub on_user_is_loaded : Env → ActUser → W (Unit {0})
on_user_is_loaded env u = do
  settings ← read (λ w. w.user_settings)
  elim settings [
    | none ↦ pure tt
    | some s ↦ elim (if is_some s.user then not (Settings.is_loaded s) else false) [
      | false ↦ pure tt
      | true ↦ do let (s', ns) = Settings.on_user_is_loaded_changed u s; store_settings env s' ns
    ]
  ]

-- The idle source and the child watch run only where they are installed.
unfoldable pub handle : Build → Env → Event → W (Unit {0})
unfolding on_user_is_loaded
handle build env (initialize i details) = handle_initialize env i details
handle build env (authenticate i) = handle_authenticate i
handle build env (authorize i) = handle_authorize i
handle build env (establish_credentials i) = handle_establish_credentials i
handle build env (open_session_of i) = handle_open i
handle build env (start_program i text) = handle_start_program env i text
handle build env (set_session_name i name) = handle_set_session_name env i name
handle build env (set_language_name i name) = handle_set_language_name env i name
handle build env (set_session_display_mode i mode) = handle_set_session_display_mode i mode
handle build env (set_environment i key value) = handle_set_environment_variable i key value
handle build env (start_reauthentication i pid uid) = handle_start_reauthentication i pid uid
handle build env (reauthentication_client_disconnected pid) =
    on_reauthentication_client_disconnected pid
handle build env idle = do
  queued ← read (λ w. w.state_change_idle_id)
  when queued (state_change_idle env build)
handle build env (user_is_loaded u) = on_user_is_loaded env u
handle build env (child_exited status) = do
  child ← read (λ w. w.child_pid)
  elim child [ none ↦ pure tt | some pid ↦ session_worker_child_watch env build pid status ]

-- The main loop over a history; each event comes with the answers of its environment.
unfoldable pub run : Build → List (Env × Event) → W (Unit {0})
run build [] = pure tt
run build ((env, e) ∷ es) = do handle build env e; run build es

-- A new worker, as gdm_session_worker_init leaves the zeroed object.
unfoldable pub new : Bool → Worker
new is_reauth = record {
  state = State.none_state;
  pam_handle = false;
  auditor = false;
  child_pid = none;
  service = none;
  display_device = none;
  display_seat_id = none;
  hostname = none;
  username = none;
  log_file = none;
  extensions = [];
  session_id = none;
  uid = 0;
  gid = 0;
  password_is_required = false;
  cred_flags = CredFlags.no_flags;
  session_vt = 0;
  session_tty = false;
  arguments = [];
  cancelled = false;
  timed_out = false;
  is_program_session = false;
  is_reauth_session = is_reauth;
  display_is_local = false;
  display_is_initial = false;
  seat0_has_vts = false;
  state_change_idle_id = false;
  display_mode = DisplayMode.new_vt;
  reauthentication_requests = [];
  user_settings = none;
  pending_invocation = none;
  awaiting_settings = false;
  saved_names_connected = false;
  saved_type_connected = false;
  log = [];
}
