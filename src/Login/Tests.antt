-- ===== src/Login/Tests.antt =====
-- A login from both sides: a session and its worker.
use gdm.Base.{◌≡◌, ◌≢◌, refl, Option, none, some, true, false, List, [], ◌∷◌, codes}
use gdm.Worker.{Worker, Env}
use gdm.Worker.Ledger.{ledger}
use gdm.Worker.Loop.{new}
use gdm.Worker.Tests.{build, helpful}
use gdm.Session.State.{initialize, registered, call, GdmSession}
use gdm.Session.Tests.{system, fresh}
use gdm.Session.Loop.{query, answer}
use gdm.Login.{Site, Own, idle, Round, play}
use gdm.Login.Callbacks.{openings}
use gdm.Login.Histories.{HaveNoRefusal, IsOpen, play-HaveNoRefusal, play-IsOpen}

abbrev site : Site
site = record {
  text = λ _. "ann";
  service_name = "gdm-password";
  user_verifier_extensions = [];
  log_file = none;
  display_hostname = none;
  display_is_local = true;
  display_is_initial = false;
  display_device = none;
  display_seat_id = some "seat0";
}

-- The idle source runs twice, which the call Open needs.
abbrev round : Round
round = record {
  env = helpful;
  own = (helpful, idle) ∷ (helpful, idle) ∷ [];
  meanwhile =
      (system, query (codes "gdm-password") 3)
      ∷ (system, answer (codes "gdm-password") (some (codes "secret")))
      ∷ [];
  system = system;
}

-- The worker of the only conversation has registered, and is initialized.
abbrev begun : GdmSession
begun = record fresh {
  conversations =
      (
        codes "gdm-password",
        some (record {
          number = 0;
          service_name = codes "gdm-password";
          worker_pid = 4242;
          starting_invocation = some 1;
          starting_username = none;
          pending_invocation = none;
          is_connected = true;
          session_id = none;
          is_stopping = false;
        }),
      )
      ∷ [];
  next_number = 1;
  log = call 0 (initialize none) ∷ registered 0 ∷ [];
}

abbrev rounds : List Round
rounds = round ∷ round ∷ round ∷ round ∷ round ∷ round ∷ []

abbrev played : Option (GdmSession × Worker)
played = play site build 0 rounds 0 (some (initialize none)) begun (new false)

abbrev last : Option (GdmSession × Worker) → GdmSession × Worker
last none = (begun, new false)
last (some r) = r

login_plays :
    (played ≡ some (last played))
    × (openings 0 (last played).0.log ≡ 1)
    × (openings 0 begun.log ≡ 0)
unfolding gdm.Settings.new gdm.Settings.is_loaded gdm.Settings.set_language_name
    gdm.Settings.set_session_name gdm.Settings.set_session_type gdm.Settings.load_settings_from_user
    gdm.Settings.load gdm.Worker.Accounts.get_username gdm.Worker.Accounts.set_state
    gdm.Worker.Accounts.queue_state_change gdm.Worker.Accounts.write_settings
    gdm.Worker.Accounts.save_account_details_now gdm.Worker.Accounts.continue_loaded
    gdm.Worker.Accounts.on_settings_is_loaded_changed gdm.Worker.Accounts.notify
    gdm.Worker.Accounts.notify_all gdm.Worker.Accounts.load_settings
    gdm.Worker.Accounts.attempt_to_load_user_settings gdm.Worker.Accounts.change_username
    gdm.Worker.Accounts.adopt_username gdm.Worker.Accounts.update_username
    gdm.Worker.Accounts.update_environment_from_passwd_info gdm.Worker.Accounts.lookup_passwd_info
    gdm.Worker.Accounts.default_path gdm.Worker.Ledger.observe gdm.Worker.Ledger.ledger
    gdm.Worker.Loop.do_setup gdm.Worker.Loop.do_authenticate gdm.Worker.Loop.do_authorize
    gdm.Worker.Loop.do_accredit gdm.Worker.Loop.do_save_account_details_when_ready
    gdm.Worker.Loop.do_open_session gdm.Worker.Loop.do_start_session gdm.Worker.Loop.dispatch
    gdm.Worker.Loop.state_change_idle gdm.Worker.Loop.handle gdm.Worker.Loop.run gdm.Worker.Loop.new
    gdm.Worker.Messages.process_pam_message gdm.Worker.Messages.collect_replies
    gdm.Worker.Messages.pam_new_messages_handler gdm.Worker.Messages.converse gdm.Worker.Pam.finish
    gdm.Worker.Pam.conclude gdm.Worker.Pam.set_initial_items gdm.Worker.Pam.set_up_environment
    gdm.Worker.Pam.configure gdm.Worker.Pam.start_conversation gdm.Worker.Pam.initialize_pam
    gdm.Worker.Pam.authentication_failure gdm.Worker.Pam.authenticate_user
    gdm.Worker.Pam.requires_new_token gdm.Worker.Pam.change_expired_token gdm.Worker.Pam.decide
    gdm.Worker.Pam.authorization_code gdm.Worker.Pam.authorize_user gdm.Worker.Pam.become_user
    gdm.Worker.Pam.set_credentials gdm.Worker.Pam.credentials_after gdm.Worker.Pam.accredit_account
    gdm.Worker.Pam.accredit_found gdm.Worker.Pam.accredit_username gdm.Worker.Pam.report_accredited
    gdm.Worker.Pam.accredit_user gdm.Worker.Requests.state_name
    gdm.Worker.Requests.validate_state_change gdm.Worker.Requests.validate_and_queue_state_change
    gdm.Worker.Requests.handle_authenticate gdm.Worker.Requests.handle_authorize
    gdm.Worker.Requests.handle_establish_credentials gdm.Worker.Requests.handle_open
    gdm.Worker.Requests.apply_details gdm.Worker.Requests.create_settings
    gdm.Worker.Requests.begin_conversation gdm.Worker.Requests.handle_initialize
    gdm.Worker.Requests.request_program gdm.Worker.Requests.handle_start_program
    gdm.Worker.Requests.update_settings gdm.Worker.Session.set_up_for_new_vt
    gdm.Worker.Session.report_opened gdm.Worker.Session.after_open
    gdm.Worker.Session.open_pam_session gdm.Worker.Session.prepare_vt
    gdm.Worker.Session.open_if_ready gdm.Worker.Session.open_session gdm.Worker.Session.fork_program
    gdm.Worker.Session.after_fork gdm.Worker.Session.start_session play openings
    gdm.Login.details_of gdm.Login.event_of gdm.Login.await gdm.Login.exchange gdm.Login.sent
    gdm.Login.callback_of gdm.Session.Loop.handle gdm.Session.Loop.run gdm.Session.Loop.handle_query
    gdm.Session.Loop.answer_query gdm.Session.Events.on_initialization_complete_cb
    gdm.Session.Events.on_authenticate_cb gdm.Session.Events.on_authorize_cb
    gdm.Session.Events.on_establish_credentials_cb gdm.Session.Events.on_opened
    gdm.Session.State.lookup gdm.Session.State.find_by_number gdm.Session.State.update_table
    gdm.Session.State.gdm_session_authenticate gdm.Session.State.gdm_session_authorize
    gdm.Session.State.gdm_session_accredit gdm.Session.State.gdm_session_open_session
login_plays = (refl, refl, refl)

newly_opened : openings 0 (last played).0.log ≢ openings 0 begun.log
newly_opened e = cc (login_plays.1, login_plays.2)

play-HaveNoRefusal_example : HaveNoRefusal (ledger (last played).1.log).answers
play-HaveNoRefusal_example =
    play-HaveNoRefusal site build 0 rounds false none begun (last played).0 (last played).1 refl
      login_plays.0

play-IsOpen_example : IsOpen (last played).1
play-IsOpen_example =
    play-IsOpen site build 0 rounds false none begun (last played).0 (last played).1 refl
      login_plays.0 newly_opened
