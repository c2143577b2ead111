-- ===== src/Worker/Invariant/Steps.antt =====
-- The invariant of the worker of daemon/gdm-session-worker.c, for what the idle source does.
use gdm.Base.{
  ◌≡◌, Option, none, some, inl, inr, refl, Bool, true, false, not, arith, if◌then◌else◌, Bool-cases,
  Option-cases, is_some, when, Ensures, Ensures-bind, ◌>>=◌,
}
use gdm.Settings
use gdm.Settings.{Settings}
use gdm.Worker.{Reply, State, Worker, Env, Build, W}
use gdm.Worker.Accounts.{update_username, load_settings}
use gdm.Worker.Pam.{Failure, authorize_user, authenticate_user, initialize_pam, accredit_user}
use gdm.Worker.Session.{open_session, start_session}
use gdm.Worker.Requests.{text_of}
use gdm.Worker.Loop.{
  answer, reply_of, pid_of, do_setup, do_authenticate, do_authorize, do_accredit, do_open_session,
  do_start_session, do_authenticate, do_save_account_details_when_ready, dispatch,
  state_change_idle,
}
use gdm.Worker.Invariant.Authentication.{authenticate_user-Sound, authorize_user-Sound}
use gdm.Worker.Invariant.Accreditation.{accredit_user-Sound}
use gdm.Worker.Invariant.Setup.{initialize_pam-Sound}
use gdm.Worker.Invariant.Sessions.{open_session-Sound}
use gdm.Worker.Invariant.Programs.{start_session-Sound}
use gdm.Worker.Invariant.{Inv, Sound}
use gdm.Worker.Invariant.Served.{Served, Sound-Served, Served-after, answer-Served}
use gdm.Worker.Invariant.Notified.{
  Notified-Served, Notified, Notified-trans, idem-Notified, load_settings-Notified,
  update_username-Notified, save_now-Notified, handlers-Notified,
}

answered :
    (m : W Failure) (w : Worker)
    → Ensures (λ _ v. Sound w v) (m w)
    → (r : Failure → Worker → Reply)
    → Ensures (λ _ v. Served 0 w v) ((m >>= λ res v. answer (r res v) v) w)
answered m w h r =
    Ensures-bind (λ _ v. Sound w v) (λ _ v. Served 0 w v) m _ w h
      λ res v s.
        Served-after 0 (answer (r res v) v) (Sound-Served s) (answer-Served (r res v) v s.inv)

do_setup-Served :
    (env : Env) (build : Build) (w : Worker)
    → w.state ≡ State.none_state
    → Inv w
    → Ensures (λ _ v. Served 0 w v) (do_setup env build w)
unfolding do_setup
do_setup-Served env build w s i =
    answered (initialize_pam env build) w (initialize_pam-Sound env build w s i)
      (λ res v. reply_of res Reply.completed)

do_authorize-Served :
    (env : Env) (w : Worker)
    → w.state ≡ State.authenticated
    → Inv w
    → Ensures (λ _ v. Served 0 w v) (do_authorize env w)
unfolding do_authorize
do_authorize-Served env w s i =
    answered (authorize_user env w.password_is_required) w
      (authorize_user-Sound env w.password_is_required w s i)
      (λ res v. reply_of res Reply.completed)

do_accredit-Served :
    (env : Env) (build : Build) (w : Worker)
    → w.state ≡ State.authorized
    → Inv w
    → Ensures (λ _ v. Served 0 w v) (do_accredit env build w)
unfolding do_accredit
do_accredit-Served env build w s i =
    answered (accredit_user env build) w (accredit_user-Sound env build w s i)
      (λ res v. reply_of res Reply.completed)

do_open_session-Served :
    (env : Env) (build : Build) (w : Worker)
    → w.state ≡ State.account_details_saved
    → w.state_change_idle_id ≡ false
    → Inv w
    → Ensures (λ _ v. Served 0 w v) (do_open_session env build w)
unfolding do_open_session
do_open_session-Served env build w s q i =
    answered (open_session env build) w (open_session-Sound env build w s q i)
      (λ res v. reply_of res (Reply.opened_session (text_of v.session_id)))

do_start_session-Served :
    (env : Env) (w : Worker)
    → w.state ≡ State.session_opened
    → w.is_reauth_session ≡ false
    → Inv w
    → Ensures (λ _ v. Served 0 w v) (do_start_session env w)
unfolding do_start_session
do_start_session-Served env w s r i =
    answered (start_session env) w (start_session-Sound env w s r i)
      (λ res v. reply_of res (Reply.started_program (pid_of v.child_pid)))

updated :
    (b : Bool) (env : Env) (w : Worker)
    → Inv w
    → Ensures (λ _ v. Notified w v) (when b (update_username env) w)
updated true env w i = update_username-Notified env w i
updated false env w i = idem-Notified w i

do_authenticate-Served :
    (env : Env) (w : Worker)
    → w.state ≡ State.setup_complete
    → Inv w
    → Ensures (λ _ v. Served 0 w v) (do_authenticate env w)
unfolding do_authenticate
do_authenticate-Served env w s i =
    Ensures-bind (λ _ v. Sound w v) (λ _ v. Served 0 w v)
      (authenticate_user env w.password_is_required) _ w
      (authenticate_user-Sound env w.password_is_required w s i)
      λ res v o. Served-after 0 _ (Sound-Served o) (
        Ensures-bind (λ _ x. Notified v x) (λ _ x. Served 0 v x)
          (when (if is_some res then false else not v.is_program_session) (update_username env)) _ v
          (updated (if is_some res then false else not v.is_program_session) env v o.inv)
          λ _ x n.
            Served-after 0 (answer (reply_of res Reply.completed) x) n.served
              (answer-Served (reply_of res Reply.completed) x n.served.inv))

-- Before the session is opened, the settings are saved, or waited for.
pub save-Notified :
    (env : Env) (w : Worker)
    → w.state ≡ State.accredited
    → Inv w
    → Ensures (λ _ v. Notified w v) (do_save_account_details_when_ready env w)
unfolding do_save_account_details_when_ready
save-Notified env w s i = elim (Option-cases w.user_settings) [
  | inl e ↦ ground (arith, save_now-Notified env w s i)
  | inr (saved, e) ↦ elim (Bool-cases (Settings.is_loaded saved)) [
    | inl loaded ↦ ground (arith, save_now-Notified env w s i)
    | inr unloaded ↦ ground (arith, later saved)
  ]
]
  where
    waiting : Worker
    waiting = record w { awaiting_settings = true }

    step : Notified w waiting
    step = handlers-Notified w w.saved_names_connected true i

    follow :
        (r : Option (Bool × Worker))
        → Ensures (λ _ v. Notified waiting v) r
        → Ensures (λ _ v. Notified w v) r
    follow none n = tt
    follow (some (_, v)) n = Notified-trans step n

    later :
        (saved : Settings)
        → Ensures (λ _ v. Notified w v) (load_settings env saved w.username waiting)
    later saved =
        follow (load_settings env saved w.username waiting)
          (load_settings-Notified env saved w.username waiting step.served.inv)

dispatch-Served :
    (env : Env) (build : Build) (s : State) (w : Worker)
    → w.state ≡ s
    → w.state_change_idle_id ≡ false
    → (s ≡ State.session_opened → w.is_reauth_session ≡ false)
    → Inv w
    → Ensures (λ _ v. Served 0 w v) (dispatch env build s w)
unfolding dispatch
dispatch-Served env build State.none_state w s q r i = do_setup-Served env build w s i
dispatch-Served env build State.setup_complete w s q r i = do_authenticate-Served env w s i
dispatch-Served env build State.authenticated w s q r i = do_authorize-Served env w s i
dispatch-Served env build State.authorized w s q r i = do_accredit-Served env build w s i
dispatch-Served env build State.accredited w s q r i =
    Notified-Served w (do_save_account_details_when_ready env w) (save-Notified env w s i)
dispatch-Served env build State.account_details_saved w s q r i =
    do_open_session-Served env build w s q i
dispatch-Served env build State.session_opened w s q r i =
    do_start_session-Served env w s (r refl) i
dispatch-Served env build State.session_started w s q r i = tt

pub state_change_idle-Served :
    (env : Env) (build : Build) (w : Worker)
    → w.state_change_idle_id ≡ true
    → Inv w
    → Ensures (λ _ v. Served 0 w v) (state_change_idle env build w)
unfolding state_change_idle
state_change_idle-Served env build w q i =
    Served-after 0 (dispatch env build w.state idle) taken
      (dispatch-Served env build w.state idle refl refl (λ o. i.may_fork o q) taken.inv)
  where
    idle : Worker
    idle = record w { state_change_idle_id = false }

    taken : Served 0 w idle
    taken = ground arith
