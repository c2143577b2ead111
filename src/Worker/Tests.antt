-- ===== src/Worker/Tests.antt =====
-- Runs of the worker of daemon/gdm-session-worker.c on concrete histories, and the theorems at
-- concrete inputs.
use gdm.Base.{
  ◌+◌, ◌≡◌, refl, Option, none, some, true, false, List, [], ◌∷◌, ◌++◌, map, take, drop, is_some,
  Ensures,
}
use gdm.Settings.{ActUser}
use gdm.Worker.{State, Effect, Worker, Env, Build, PamCode, Message, MessageStyle, Reply, ErrorCode}
use gdm.Worker.Ledger.{Ledger, granted, ledger}
use gdm.Worker.Session.{finalize}
use gdm.Worker.Invariant.Served.{pend}
use gdm.Worker.Invariant.Events.{IsCareful}
use gdm.Worker.Safety.{
  IsBacked, IsReleased, run-forks_granted, run-IsBacked, run_reauth_never_forks,
  finalize-IsReleased,
}
use gdm.Worker.Replies.{
  IsHandedOver, run-replies, pam_new_messages_handler-IsHandedOver, start_program_aborts,
}
use gdm.Worker.Returns.{InCall, Ends, authenticate_user-Ends}
use gdm.Worker.Messages.{pam_new_messages_handler}
use gdm.Worker.Endings.{IsAuthorized, authorize_user-Ends}
use gdm.Worker.Endings.Credentials.{Accredits, accredit_user-Ends}
use gdm.Worker.Pam.{authenticate_user, authorize_user, accredit_user}
use gdm.Worker.Requests.{
  Detail, validate_and_queue_state_change, handle_start_program, wrong_state_text,
}
use gdm.Worker.Loop.{Event, run, new, handle}

abbrev pub build : Build
build = record { initial_vt = 1; bindir = "/usr/bin"; session_default_path = "/usr/local/bin:/bin" }

abbrev pub loaded_user : ActUser
loaded_user = record {
  is_loaded = true;
  is_local = true;
  session = some "gnome";
  session_type = none;
  language = some "C";
}

-- Everything succeeds.
abbrev pub helpful : Env
helpful = record {
  start_code = PamCode.success;
  start_sets_handle = true;
  set_item_code = λ _. PamCode.success;
  pam_user = some (some "ann");
  getenv = λ _. none;
  strerror = λ _. "";
  conversation = [];
  expiry_conversation = [];
  max_resp_size = 512;
  authenticate_code = PamCode.success;
  acct_mgmt_code = PamCode.success;
  chauthtok_code = PamCode.success;
  setcred_code = PamCode.success;
  open_session_code = PamCode.success;
  getpwnam = λ _. some (record { pw_uid = 1000; pw_gid = 100; pw_dir = none; pw_shell = none });
  setgid_ok = true;
  initgroups_ok = true;
  initial_vt_opens = true;
  free_vt = some 2;
  session_tty_opens = true;
  euid_is_root = true;
  fork_result = some 77;
  fork_error = "";
  seat0_can_tty = true;
  parse_argv = λ s. some (s ∷ []);
  get_user = λ _. loaded_user;
  cache_user = λ _. true;
}

abbrev with_helpful : List Event → List (Env × Event)
with_helpful = map (λ e. (helpful, e))

abbrev login : List Event
login =
    Event.initialize 1 (Detail.service "gdm-password" ∷ Detail.display_is_local true ∷ [])
    ∷ Event.idle
    ∷ Event.authenticate 2
    ∷ Event.idle
    ∷ Event.authorize 3
    ∷ Event.idle
    ∷ Event.establish_credentials 4
    ∷ Event.idle
    ∷ Event.open_session_of 5
    ∷ Event.idle
    ∷ Event.idle
    ∷ Event.start_program 6 "gnome-session"
    ∷ Event.idle
    ∷ []

-- Where a run of a new worker ends; a run that aborts would end nowhere.
abbrev end_of : Option (Unit {0} × Worker) → Worker → Worker
end_of none w = w
end_of (some (_, v)) w = v

abbrev logged_in : Worker
logged_in = end_of (run build (with_helpful login) (new false)) (new false)

abbrev reauthenticated : Worker
reauthenticated = end_of (run build (with_helpful login) (new true)) (new true)

-- The login starts its program, and is careful; a worker for a reauthentication runs on as well.
login_runs :
    (run build (with_helpful login) (new false) ≡ some (tt, logged_in))
    × (logged_in.state ≡ State.session_started)
    × (logged_in.log
        ≡ take 2 logged_in.log
          ++ (Effect.fork_session ("gnome-session" ∷ []) 77 ∷ drop 3 logged_in.log))
    × IsCareful build (with_helpful login) (new false)
    × (run build (with_helpful login) (new true) ≡ some (tt, reauthenticated))
unfolding gdm.Settings.new gdm.Settings.is_loaded gdm.Settings.set_language_name
    gdm.Settings.set_session_name gdm.Settings.set_session_type gdm.Settings.load_settings_from_user
    gdm.Settings.load gdm.Worker.Accounts.get_username gdm.Worker.Accounts.set_state
    gdm.Worker.Accounts.queue_state_change gdm.Worker.Accounts.write_settings
    gdm.Worker.Accounts.save_account_details_now gdm.Worker.Accounts.continue_loaded
    gdm.Worker.Accounts.on_settings_is_loaded_changed gdm.Worker.Accounts.notify
    gdm.Worker.Accounts.notify_all gdm.Worker.Accounts.load_settings
    gdm.Worker.Accounts.attempt_to_load_user_settings gdm.Worker.Accounts.change_username
    gdm.Worker.Accounts.adopt_username gdm.Worker.Accounts.update_username
    gdm.Worker.Accounts.update_environment_from_passwd_info gdm.Worker.Accounts.lookup_passwd_info
    gdm.Worker.Accounts.default_path gdm.Worker.Ledger.observe gdm.Worker.Ledger.ledger
    gdm.Worker.Loop.do_setup gdm.Worker.Loop.do_authenticate gdm.Worker.Loop.do_authorize
    gdm.Worker.Loop.do_accredit gdm.Worker.Loop.do_save_account_details_when_ready
    gdm.Worker.Loop.do_open_session gdm.Worker.Loop.do_start_session gdm.Worker.Loop.dispatch
    gdm.Worker.Loop.state_change_idle gdm.Worker.Loop.handle gdm.Worker.Loop.run gdm.Worker.Loop.new
    gdm.Worker.Messages.process_pam_message gdm.Worker.Messages.collect_replies
    gdm.Worker.Messages.pam_new_messages_handler gdm.Worker.Messages.converse gdm.Worker.Pam.finish
    gdm.Worker.Pam.conclude gdm.Worker.Pam.set_initial_items gdm.Worker.Pam.set_up_environment
    gdm.Worker.Pam.configure gdm.Worker.Pam.start_conversation gdm.Worker.Pam.initialize_pam
    gdm.Worker.Pam.authentication_failure gdm.Worker.Pam.authenticate_user
    gdm.Worker.Pam.requires_new_token gdm.Worker.Pam.change_expired_token gdm.Worker.Pam.decide
    gdm.Worker.Pam.authorization_code gdm.Worker.Pam.authorize_user gdm.Worker.Pam.become_user
    gdm.Worker.Pam.set_credentials gdm.Worker.Pam.credentials_after gdm.Worker.Pam.accredit_account
    gdm.Worker.Pam.accredit_found gdm.Worker.Pam.accredit_username gdm.Worker.Pam.report_accredited
    gdm.Worker.Pam.accredit_user gdm.Worker.Requests.state_name
    gdm.Worker.Requests.validate_state_change gdm.Worker.Requests.validate_and_queue_state_change
    gdm.Worker.Requests.handle_authenticate gdm.Worker.Requests.handle_authorize
    gdm.Worker.Requests.handle_establish_credentials gdm.Worker.Requests.handle_open
    gdm.Worker.Requests.apply_details gdm.Worker.Requests.create_settings
    gdm.Worker.Requests.begin_conversation gdm.Worker.Requests.handle_initialize
    gdm.Worker.Requests.request_program gdm.Worker.Requests.handle_start_program
    gdm.Worker.Requests.update_settings gdm.Worker.Session.set_up_for_new_vt
    gdm.Worker.Session.report_opened gdm.Worker.Session.after_open
    gdm.Worker.Session.open_pam_session gdm.Worker.Session.prepare_vt
    gdm.Worker.Session.open_if_ready gdm.Worker.Session.open_session gdm.Worker.Session.fork_program
    gdm.Worker.Session.after_fork gdm.Worker.Session.start_session
login_runs = (
  refl,
  refl,
  refl,
  (tt, (tt, (tt, (tt, (tt, (tt, (tt, (tt, (tt, (tt, (tt, ((refl, refl), (tt, tt))))))))))))),
  refl,
)

run-forks_granted_example : granted (ledger (drop 3 logged_in.log)) ≡ true
run-forks_granted_example =
    run-forks_granted build (with_helpful login) false logged_in (take 2 logged_in.log)
      (drop 3 logged_in.log) ("gnome-session" ∷ []) 77 login_runs.0 login_runs.2

run-IsBacked_example : IsBacked logged_in
run-IsBacked_example = run-IsBacked build (with_helpful login) logged_in login_runs.0

run_reauth_never_forks_example : (ledger reauthenticated.log).forks ≡ 0
run_reauth_never_forks_example =
    run_reauth_never_forks build (with_helpful login) reauthenticated login_runs.4

finalize-IsReleased_example :
    (is_some (finalize helpful build logged_in) ≡ true)
    × Ensures (λ _ v. IsReleased v) (finalize helpful build logged_in)
finalize-IsReleased_example =
    finalize-IsReleased build (with_helpful login) false logged_in helpful login_runs.0

run-replies_example : (ledger logged_in.log).replies + pend logged_in.pending_invocation ≡ 6
run-replies_example =
    run-replies build (with_helpful login) false logged_in login_runs.3 login_runs.0

-- A worker whose conversation has begun, and the messages and answers of a login.
abbrev prompted : Worker
prompted = record (new false) { state = State.setup_complete; pam_handle = true }

abbrev messages : List Message
messages =
    record { style = MessageStyle.text_info; delivered = true; answer = none }
    ∷ record {
      style = MessageStyle.prompt_echo_off;
      delivered = true;
      answer = some (104 ∷ 105 ∷ []);
    }
    ∷ []

prompted_call : InCall prompted
unfolding new
prompted_call = record { with_handle = refl; is_calm = refl }

pam_new_messages_handler-IsHandedOver_example :
    (is_some (pam_new_messages_handler helpful messages prompted) ≡ true)
    × Ensures
        (λ r _. IsHandedOver helpful messages r)
        (pam_new_messages_handler helpful messages prompted)
pam_new_messages_handler-IsHandedOver_example =
    pam_new_messages_handler-IsHandedOver helpful messages prompted prompted_call

-- The user gives a wrong password.
abbrev refusing : Env
refusing = record helpful { authenticate_code = PamCode.auth_err; conversation = messages ∷ [] }

authenticate_user-Ends_example :
    (is_some (authenticate_user refusing true prompted) ≡ true)
    × Ensures
        (λ res v. Ends false State.authenticated res v)
        (authenticate_user refusing true prompted)
authenticate_user-Ends_example = authenticate_user-Ends refusing true prompted refl refl

-- The same worker, one and two steps later.
abbrev checked : Worker
checked = record prompted { state = State.authenticated }

abbrev admitted : Worker
admitted = record prompted { state = State.authorized }

authorize_user-Ends_example :
    (is_some (authorize_user refusing true checked) ≡ true)
    × Ensures
        (λ res v. IsAuthorized refusing checked.is_reauth_session res v)
        (authorize_user refusing true checked)
authorize_user-Ends_example = authorize_user-Ends refusing true checked refl refl

accredit_user-Ends_example :
    (is_some (accredit_user refusing build admitted) ≡ true)
    × Ensures (λ res v. Accredits refusing admitted res v) (accredit_user refusing build admitted)
accredit_user-Ends_example = accredit_user-Ends refusing build admitted refl refl

abbrev in_session : Worker
in_session = record (new false) { state = State.session_started; pam_handle = true }

start_program_aborts_example :
    run build ((helpful, Event.start_program 9 "xterm") ∷ (helpful, Event.idle) ∷ []) in_session
    ≡ none
unfolding new
start_program_aborts_example =
    start_program_aborts build helpful helpful 9 "xterm" ("xterm" ∷ []) in_session refl refl refl
      refl
