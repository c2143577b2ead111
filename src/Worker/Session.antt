-- ===== src/Worker/Session.antt =====
-- daemon/gdm-session-worker.c: the virtual terminal, the session that PAM opens, the program that
-- runs in it, and its end.
use gdm.Base.{
  ℕ, String, Option, none, some, Bool, true, false, not, ◌&&◌, List, if◌then◌else◌, ltb, ◌==◌, pure,
  read, modify, when, g_assert, ◌>>=◌, ◌>>◌, strcmp0_eq, is_some,
}
use gdm.Worker.{
  State, Effect, Worker, Env, Build, DisplayMode, W, PamCode, ErrorCode, emit, is_state,
}
use gdm.Worker.Ledger.{is_success}
use gdm.Worker.Accounts.{audit, get_username, set_state}
use gdm.Worker.Messages.{converse}
use gdm.Worker.Pam.{Failure, finish, uninitialize_pam}

-- `g_strcmp0 (worker->display_seat_id, "seat0") == 0 && worker->seat0_has_vts`
abbrev pub on_seat0_with_vts : Worker → Bool
on_seat0_with_vts w = strcmp0_eq w.display_seat_id (some "seat0") && w.seat0_has_vts

-- The terminal on which a session that is not the initial one is put.
set_up_free_vt : Env → W Bool
set_up_free_vt env = elim env.free_vt [
  | none ↦ pure false
  | some vt ↦ do
    modify (λ w. record w { session_vt = vt })
    g_assert (ltb 0 vt)
    emit (Effect.pam_put_vtnr vt)
    modify (λ w. record w { session_tty = env.session_tty_opens })
    emit (Effect.pam_set_tty vt)
    pure true
]

set_up_initial_vt : Build → W Bool
set_up_initial_vt build = do
  modify (λ w. record w { session_vt = build.initial_vt })
  g_assert (ltb 0 build.initial_vt)
  emit (Effect.pam_put_vtnr build.initial_vt)
  modify (λ w. record w { session_tty = true })
  emit (Effect.pam_set_tty build.initial_vt)
  pure true

unfoldable pub set_up_for_new_vt : Env → Build → W Bool
unfolding set_up_free_vt set_up_initial_vt
set_up_for_new_vt env build = do
  is_initial ← read (λ w. w.display_is_initial)
  if env.initial_vt_opens
      then (if is_initial then set_up_initial_vt build else set_up_free_vt env)
      else (pure false)

-- The session is open: its id is kept, and the login reported.
unfoldable pub report_opened : Env → W (Unit {0})
unfolding get_username
report_opened env = do
  let id : Option String = env.getenv "XDG_SESSION_ID"
  when (is_some id) (modify (λ w. record w { session_id = id }))
  _ ← get_username env
  audit Effect.audit_login

unfoldable pub fail_to_open : Env → W Failure
fail_to_open env = do
  uninitialize_pam env env.open_session_code
  modify (λ w. record w { session_vt = 0 })
  pure (some (ErrorCode.opening_session, env.strerror env.open_session_code))

-- What follows pam_open_session, by its success.
unfoldable pub after_open : Env → Bool → W Failure
after_open env true = do set_state State.session_opened; report_opened env; pure none
after_open env false = fail_to_open env

-- gdm_session_worker_open_session from the call of pam_open_session on
unfoldable pub open_pam_session : Env → W Failure
open_pam_session env = do
  is_program ← read (λ w. w.is_program_session)
  converse env env.conversation
  emit (Effect.pam_open_session is_program env.open_session_code)
  after_open env (is_success env.open_session_code)

-- On seat0 with virtual terminals a terminal must be set up first.
unfoldable pub prepare_vt : Env → Build → W Bool
unfolding set_up_for_new_vt
prepare_vt env build = do
  needs_vt ← read on_seat0_with_vts
  if needs_vt then (set_up_for_new_vt env build) else (pure true)

unfoldable pub open_if_ready : Env → Bool → W Failure
open_if_ready env true = open_pam_session env
open_if_ready env false = pure (some (ErrorCode.opening_session, "Unable to open VT"))

-- gdm_session_worker_open_session
unfoldable pub open_session : Env → Build → W Failure
open_session env build = do
  s ← read (λ w. w.state)
  g_assert (is_state s State.account_details_saved)
  g_assert env.euid_is_root
  ready ← prepare_vt env build
  open_if_ready env ready

abbrev pub is_new_vt : DisplayMode → Bool
is_new_vt DisplayMode.new_vt = true
is_new_vt _ = false

-- The fork has succeeded.
unfoldable pub fork_program : List String → ℕ → W (Unit {0})
unfolding set_state
fork_program arguments pid = do
  emit (Effect.fork_session arguments pid)
  modify (λ w. record w { session_tty = false; child_pid = some pid })
  set_state State.session_started

-- The parent's side of the fork.
unfoldable pub after_fork : Env → List String → Option ℕ → W Failure
after_fork env arguments none =
    finish env PamCode.pam_abort (some (ErrorCode.opening_session, env.fork_error))
after_fork env arguments (some pid) = do fork_program arguments pid; pure none

-- gdm_session_worker_start_session, in the parent of the fork
unfoldable pub start_session : Env → W Failure
start_session env = do
  new_vt ← read (λ w. on_seat0_with_vts w && is_new_vt w.display_mode)
  vt ← read (λ w. w.session_vt)
  arguments ← read (λ w. w.arguments)
  when new_vt (emit (Effect.jump_to_vt vt))
  after_fork env arguments env.fork_result

unfoldable pub jump_back_to_initial_vt : Build → W (Unit {0})
jump_back_to_initial_vt build = do
  vt ← read (λ w. w.session_vt)
  vts ← read on_seat0_with_vts
  when (not (vt == 0) && not (vt == build.initial_vt) && vts)
      (do emit (Effect.jump_to_vt build.initial_vt); modify (λ w. record w { session_vt = 0 }))

-- session_worker_child_watch, after the end of the conversation
unfoldable pub report_exit : Build → ℕ → ℕ → W (Unit {0})
unfolding jump_back_to_initial_vt
report_exit build pid status = do
  modify (λ w. record w { child_pid = none })
  emit (Effect.session_exited status)
  emit (Effect.kill_group pid)
  jump_back_to_initial_vt build

unfoldable pub session_worker_child_watch : Env → Build → ℕ → ℕ → W (Unit {0})
session_worker_child_watch env build pid status = do
  uninitialize_pam env PamCode.success
  report_exit build pid status

-- gdm_session_worker_finalize: the process is about to exit.
unfoldable pub finalize : Env → Build → W (Unit {0})
finalize env build = do
  child ← read (λ w. w.child_pid)
  when (is_some child) (emit (Effect.terminate (pid_of child)))
  uninitialize_pam env PamCode.success
  jump_back_to_initial_vt build
  where
    pid_of : Option ℕ → ℕ
    pid_of none = 0
    pid_of (some pid) = pid
