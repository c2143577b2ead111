-- ===== src/Worker/Invariant/Events.antt =====
-- The invariant of the worker of daemon/gdm-session-worker.c, for every event and every history.
use gdm.Base.{
  ℕ, ◌+◌, ◌≡◌, inl, inr, refl, String, Option, none, some, Bool, false, not, List, [], ◌∷◌, arith,
  Bool-cases, Option-cases, is_some, if◌then◌else◌, Ensures, Ensures-bind, ◌>>◌,
}
use gdm.Settings
use gdm.Settings.{ActUser, Notification, Settings}
use gdm.Worker.{Reply, Effect, State, Worker, Env, Build, emit}
use gdm.Worker.Ledger.{ledger}
use gdm.Worker.Requests.{
  update_settings, handle_set_session_name, handle_set_language_name,
  handle_set_session_display_mode, handle_set_environment_variable, handle_start_reauthentication,
  on_reauthentication_client_disconnected, handle_authenticate, handle_authorize, handle_open,
}
use gdm.Worker.Session.{session_worker_child_watch}
use gdm.Worker.Loop.{Event, on_user_is_loaded, handle, run, new}
use gdm.Worker.Invariant.{Inv, Sound}
use gdm.Worker.Invariant.Programs.{child_watch-Sound}
use gdm.Worker.Invariant.Served.{Served, Steady, Steady-after, Served-bind, Sound-Served}
use gdm.Worker.Invariant.Notified.{
  Notified-Served, Notified, idem-Notified, store_settings-Notified,
}
use gdm.Worker.Invariant.Steps.{state_change_idle-Served}
use gdm.Worker.Invariant.Calls.{
  validate_and_queue-Served, establish_credentials-Served, initialize-Served, start_program-Steady,
  start_program-Served,
}

replied :
    (i : ℕ) (r : Reply) (w : Worker)
    → Inv w
    → Ensures (λ _ v. Served 1 w v) (emit (Effect.reply i r) w)
unfolding ledger
replied i r w v = ground arith

update_settings-Notified :
    (env : Env) (set : Settings → Settings × List Notification) (w : Worker)
    → Inv w
    → Ensures (λ _ v. Notified w v) (update_settings env set w)
unfolding update_settings
update_settings-Notified env set w i = elim (Option-cases w.user_settings) [
  | inl e ↦ ground (arith, idem-Notified w i)
  | inr (s, e) ↦ ground (arith, store_settings-Notified env (set s).0 (set s).1 w i)
]

-- A setter reaches the settings object, and its call is answered.
update_and_reply-Served :
    (env : Env) (i : ℕ) (set : Settings → Settings × List Notification) (w : Worker)
    → Inv w
    → Ensures
        (λ _ v. Served 1 w v)
        ((update_settings env set >> emit (Effect.reply i Reply.completed)) w)
update_and_reply-Served env i set w v =
    Served-bind 1 (update_settings env set) (λ _. emit (Effect.reply i Reply.completed)) w
      (Notified-Served w (update_settings env set w) (update_settings-Notified env set w v))
      λ _ x s. replied i Reply.completed x s.inv

set_environment-Served :
    (i : ℕ) (key value : String) (w : Worker)
    → Inv w
    → Ensures (λ _ v. Served 1 w v) (handle_set_environment_variable i key value w)
unfolding handle_set_environment_variable ledger
set_environment-Served i key value w v = ground arith

set_display_mode-Served :
    (i : ℕ) (mode : String) (w : Worker)
    → Inv w
    → Ensures (λ _ v. Served 1 w v) (handle_set_session_display_mode i mode w)
unfolding handle_set_session_display_mode ledger
set_display_mode-Served i mode w v = ground arith

start_reauthentication-Served :
    (i pid uid : ℕ) (w : Worker)
    → Inv w
    → Ensures (λ _ v. Served 1 w v) (handle_start_reauthentication i pid uid w)
unfolding handle_start_reauthentication ledger
start_reauthentication-Served i pid uid w v = ground arith

disconnected-Served :
    (pid : ℕ) (w : Worker)
    → Inv w
    → Ensures (λ _ v. Served 0 w v) (on_reauthentication_client_disconnected pid w)
unfolding on_reauthentication_client_disconnected
disconnected-Served pid w v = ground arith

pub on_user_is_loaded-Notified :
    (env : Env) (u : ActUser) (w : Worker)
    → Inv w
    → Ensures (λ _ v. Notified w v) (on_user_is_loaded env u w)
unfolding on_user_is_loaded
on_user_is_loaded-Notified env u w i = elim (Option-cases w.user_settings) [
  | inl e ↦ ground (arith, idem-Notified w i)
  | inr (s, e) ↦ elim (Bool-cases (if is_some s.user then not (Settings.is_loaded s) else false)) [
    | inl y ↦ ground (
      arith,
      store_settings-Notified env (Settings.on_user_is_loaded_changed u s).0
          (Settings.on_user_is_loaded_changed u s).1 w i,
    )
    | inr n ↦ ground (arith, idem-Notified w i)
  ]
]

on_user_is_loaded-Served :
    (env : Env) (u : ActUser) (w : Worker)
    → Inv w
    → Ensures (λ _ v. Served 0 w v) (on_user_is_loaded env u w)
on_user_is_loaded-Served env u w i =
    Notified-Served w (on_user_is_loaded env u w) (on_user_is_loaded-Notified env u w i)

-- The method calls of an event, of which there is at most one.
abbrev pub calls : Event → ℕ
calls Event.idle = 0
calls (Event.user_is_loaded _) = 0
calls (Event.child_exited _) = 0
calls (Event.reauthentication_client_disconnected _) = 0
calls _ = 1

-- The daemon asks for a program only where a session is open and no other call is pending.
abbrev pub Placed : Event → Worker → Type 0
Placed (Event.start_program _ _) w =
    (w.state ≡ State.session_opened) × (w.pending_invocation ≡ none)
Placed _ w = Unit {0}

ensured-Served :
    {A : Type 0} (v : Worker) (r : Option (A × Worker))
    → Ensures (λ _ w. Sound v w) r
    → Ensures (λ _ w. Served 0 v w) r
ensured-Served v none h = tt
ensured-Served v (some (a, w)) h = Sound-Served h

pub handle-Served :
    (build : Build) (env : Env) (e : Event) (w : Worker)
    → Placed e w
    → Inv w
    → Ensures (λ _ v. Served (calls e) w v) (handle build env e w)
unfolding handle handle_authenticate handle_authorize handle_open handle_set_session_name
    handle_set_language_name
handle-Served build env (Event.initialize i ds) w p v = initialize-Served env i ds w v
handle-Served build env (Event.authenticate i) w p v =
    validate_and_queue-Served i State.authenticated w (omega arith) v
handle-Served build env (Event.authorize i) w p v =
    validate_and_queue-Served i State.authorized w (omega arith) v
handle-Served build env (Event.establish_credentials i) w p v = establish_credentials-Served i w v
handle-Served build env (Event.open_session_of i) w p v =
    validate_and_queue-Served i State.account_details_saved w (omega arith) v
handle-Served build env (Event.start_program i text) w (s, p) v =
    start_program-Served env i text w s p v
handle-Served build env (Event.set_session_name i name) w p v =
    update_and_reply-Served env i (λ s. Settings.set_session_name s name) w v
handle-Served build env (Event.set_language_name i name) w p v =
    update_and_reply-Served env i (λ s. Settings.set_language_name s name) w v
handle-Served build env (Event.set_session_display_mode i mode) w p v =
    set_display_mode-Served i mode w v
handle-Served build env (Event.set_environment i key value) w p v =
    set_environment-Served i key value w v
handle-Served build env (Event.start_reauthentication i pid uid) w p v =
    start_reauthentication-Served i pid uid w v
handle-Served build env (Event.reauthentication_client_disconnected pid) w p v =
    disconnected-Served pid w v
handle-Served build env Event.idle w p v = elim (Bool-cases w.state_change_idle_id) [
  | inl q ↦ ground (arith, state_change_idle-Served env build w q v)
  | inr n ↦ ground (arith, (idem-Notified w v).served)
]
handle-Served build env (Event.user_is_loaded u) w p v = on_user_is_loaded-Served env u w v
handle-Served build env (Event.child_exited status) w p v = elim (Option-cases w.child_pid) [
  | inl e ↦ ground (arith, (idem-Notified w v).served)
  | inr (pid, e) ↦ ground (
    arith,
    ensured-Served w (session_worker_child_watch env build pid status w)
        (child_watch-Sound env build pid status w v),
  )
]

Served-Steady :
    {A : Type 0} (n : ℕ) (v : Worker) (r : Option (A × Worker))
    → Ensures (λ _ w. Served n v w) r
    → Ensures (λ _ w. Steady v w) r
Served-Steady n v none h = tt
Served-Steady n v (some (a, w)) h = record { inv = h.inv; same_reauth = h.same_reauth }

pub handle-Steady :
    (build : Build) (env : Env) (e : Event) (w : Worker)
    → Inv w
    → Ensures (λ _ v. Steady w v) (handle build env e w)
unfolding handle
handle-Steady build env (Event.start_program i text) w v = start_program-Steady env i text w v
handle-Steady build env e w v =
    Served-Steady (calls e) w (handle build env e w) (handle-Served build env e w tt v)

-- However the events come, and whatever the environment answers.
pub run-Steady :
    (build : Build) (es : List (Env × Event)) (w : Worker)
    → Inv w
    → Ensures (λ _ v. Steady w v) (run build es w)
unfolding run
run-Steady build [] w v = record { inv = v; same_reauth = refl }
run-Steady build ((env, e) ∷ es) w v =
    Ensures-bind (λ _ v. Steady w v) (λ _ v. Steady w v) (handle build env e) (λ _. run build es) w
      (handle-Steady build env e w v)
      λ _ x i. Steady-after w x (run build es x) i (run-Steady build es x i.inv)

-- A history in which programs are asked for only where a session is open and idle.
abbrev pub IsCareful : Build → List (Env × Event) → Worker → Type 0
IsCareful build [] w = Unit {0}
IsCareful build ((env, e) ∷ es) w =
    Placed e w × Ensures (λ _ v. IsCareful build es v) (handle build env e w)

abbrev pub all_calls : List (Env × Event) → ℕ
all_calls [] = 0
all_calls ((_, e) ∷ es) = calls e + all_calls es

pub new-Inv : (is_reauth : Bool) → Inv (new is_reauth)
unfolding new ledger
new-Inv is_reauth = ground arith
