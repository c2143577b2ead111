-- ===== src/Login/Outcomes.antt =====
-- How the operations of daemon/gdm-session-worker.c that answer a call end: in the state that the call
-- asks for, or with an error that is no refusal.
use gdm.Base.{
  ◌≡◌, refl, String, Option, none, some, Bool, true, false, arith, is_some, when, Ensures,
  Ensures-bind, ◌>>=◌, Bool-cases, inl, inr, not, if◌then◌else◌, g_assert, ◌∷◌, ◌||◌,
}
use gdm.Worker.{State, Effect, Worker, Env, Build, W, PamCode, ErrorCode, is_state}
use gdm.Worker.Frame.{Frame, set_state-Frame}
use gdm.Worker.Ledger.{is_success}
use gdm.Worker.Accounts.{Account, lookup_passwd_info, set_state}
use gdm.Worker.Messages.{converse}
use gdm.Worker.Pam.{
  Failure, uninitialize_pam, finish, conclude, configure, set_initial_items, set_up_environment,
  service_name, start_conversation, initialize_pam, authentication_failure, hide_unknown_user,
  authenticate_user, authorization_code, authorize_user, become_user, set_credentials,
  credentials_after, accredit_account, accredit_found, accredit_username, report_accredited,
  accredit_user,
}
use gdm.Worker.Session.{
  after_open, open_pam_session, open_if_ready, prepare_vt, open_session, fail_to_open,
  report_opened,
}

-- A call is refused where the worker is not in its place, or has another call to answer.
abbrev pub refuses : ErrorCode → Bool
refuses ErrorCode.wrong_state = true
refuses ErrorCode.outstanding_request = true
refuses _ = false

abbrev pub Reaches : State → Failure → Worker → Type 0
Reaches s none v = v.state ≡ s
Reaches s (some (code, message)) v = refuses code ≡ false

-- An error, and no refusal.
abbrev Proper : Failure → Type 0
Proper none = ⊥
Proper (some (code, message)) = refuses code ≡ false

ended-Reaches : (s : State) (failure : Failure) (w : Worker) → Proper failure → Reaches s failure w
ended-Reaches s none w p = absurd p
ended-Reaches s (some (code, message)) w p = p

-- What follows whatever it was.
module _ {A B : Type 0} where
  any-Ensures :
      (P : A → Type 0) (Q : B → Worker → Type 0) (m : W A) (f : A → W B) (w : Worker)
      → Ensures (λ a _. P a) (m w)
      → ((a : A) (v : Worker) → P a → Ensures Q (f a v))
      → Ensures Q ((m >>= f) w)
  any-Ensures P Q m f w h k = Ensures-bind (λ a _. P a) Q m f w h k

  next-Ensures :
      (Q : B → Worker → Type 0) (m : W A) (f : A → W B) (w : Worker)
      → ((a : A) (v : Worker) → Ensures Q (f a v))
      → Ensures Q ((m >>= f) w)
  next-Ensures Q m f w k = any-Ensures (λ _. Unit {0}) Q m f w (nothing (m w)) (λ a v _. k a v)
    where
      nothing : (r : Option (A × Worker)) → Ensures (λ _ _. Unit {0}) r
      nothing none = tt
      nothing (some (a, v)) = tt

finish-Reaches :
    (env : Env) (code : PamCode) (s : State) (failure : Failure) (w : Worker)
    → Proper failure
    → (is_success code ≡ true → w.state ≡ s)
    → Ensures (λ res v. Reaches s res v) (finish env code failure w)
unfolding finish
finish-Reaches env code s failure w p h = elim (Bool-cases (is_success code)) [
  | inl ok ↦ rw ok (h ok)
  | inr bad ↦ rw bad (
      next-Ensures (λ res v. Reaches s res v) (uninitialize_pam env code) _ w
        (λ _ v. ended-Reaches s failure v p))
]

set_state-Reaches : (s : State) (w : Worker) → Ensures (λ _ v. v.state ≡ s) (set_state s w)
set_state-Reaches s w = stated (set_state s w) (set_state-Frame s w)
  where
    stated :
        (r : Option (Unit {0} × Worker))
        → Ensures (λ _ v. Frame (record w { state = s }) v) r
        → Ensures (λ _ v. v.state ≡ s) r
    stated none f = tt
    stated (some (_, v)) f = f.same_state

excused :
    (s : State) (r : Option (Unit {0} × Worker))
    → Ensures (λ _ v. v.state ≡ s) r
    → Ensures (λ _ v. true ≡ true → v.state ≡ s) r
excused s none h = tt
excused s (some (_, v)) h = λ _. h

conclude-Reaches :
    (env : Env) (code : PamCode) (s : State) (failure : Failure) (w : Worker)
    → Proper failure
    → Ensures (λ res v. Reaches s res v) (conclude env code s failure w)
unfolding conclude
conclude-Reaches env code s failure w p =
    Ensures-bind (λ _ v. is_success code ≡ true → v.state ≡ s) (λ res v. Reaches s res v)
      (when (is_success code) (set_state s)) (λ _. finish env code failure) w
      (moved (is_success code)) (λ _ v h. finish-Reaches env code s failure v p h)
  where
    moved : (ok : Bool) → Ensures (λ _ v. ok ≡ true → v.state ≡ s) (when ok (set_state s) w)
    moved true = excused s (set_state s w) (set_state-Reaches s w)
    moved false = λ e. cc

authentication-Proper :
    (service : Option String) (code : PamCode) → Proper (authentication_failure service code)
unfolding authentication_failure
authentication-Proper service code = ground arith

pub authenticate_user-Reaches :
    (env : Env) (b : Bool) (w : Worker)
    → Ensures (λ res v. Reaches State.authenticated res v) (authenticate_user env b w)
unfolding authenticate_user
authenticate_user-Reaches env b w =
    next-Ensures (λ res v. Reaches State.authenticated res v) (converse env env.conversation) _ w
      (λ _ v.
        conclude-Reaches env (hide_unknown_user env.authenticate_code) State.authenticated
          (authentication_failure v.service env.authenticate_code)
          (record v { log = Effect.pam_authenticate b env.authenticate_code ∷ v.log })
          (authentication-Proper v.service env.authenticate_code))

pub authorize_user-Reaches :
    (env : Env) (b : Bool) (w : Worker)
    → Ensures (λ res v. Reaches State.authorized res v) (authorize_user env b w)
unfolding authorize_user
authorize_user-Reaches env b w =
    next-Ensures (λ res v. Reaches State.authorized res v) (authorization_code env b) _ w
      (λ code v. conclude-Reaches env code State.authorized _ v refl)

-- The error that is at hand while the credentials are established.
abbrev Prepared : PamCode × Failure → Type 0
Prepared r = Proper r.1

credentials_after-Proper :
    (env : Env) (changed is_reauth : Bool) (w : Worker)
    → Ensures (λ r _. Prepared r) (credentials_after env changed is_reauth w)
unfolding credentials_after set_credentials
credentials_after-Proper env false is_reauth w = refl
credentials_after-Proper env true is_reauth w =
    next-Ensures (λ r _. Prepared r) (converse env env.conversation) _ w (λ _ v. refl)

accredit_found-Proper :
    (env : Env) (build : Build) (found : Option Account) (w : Worker)
    → Ensures (λ r _. Prepared r) (accredit_found env build found w)
unfolding accredit_found accredit_account
accredit_found-Proper env build none w = refl
accredit_found-Proper env build (some a) w =
    next-Ensures (λ r _. Prepared r) (become_user env build a) _ w
      (λ changed v. credentials_after-Proper env changed v.is_reauth_session v)

accredit_username-Proper :
    (env : Env) (build : Build) (name : Option String) (w : Worker)
    → Ensures (λ r _. Prepared r) (accredit_username env build name w)
unfolding accredit_username
accredit_username-Proper env build none w = refl
accredit_username-Proper env build (some name) w =
    accredit_found-Proper env build (lookup_passwd_info env name) w

pub accredit_user-Reaches :
    (env : Env) (build : Build) (w : Worker)
    → Ensures (λ res v. Reaches State.accredited res v) (accredit_user env build w)
unfolding accredit_user
accredit_user-Reaches env build w =
    any-Ensures Prepared (λ res v. Reaches State.accredited res v)
      (accredit_username env build w.username) _ w (accredit_username-Proper env build w.username w)
      (λ r v p.
        next-Ensures (λ res x. Reaches State.accredited res x)
          (when (is_success r.0) (report_accredited env)) _ v
          (λ _ x. conclude-Reaches env r.0 State.accredited r.1 x p))

set_up_environment-Reaches :
    (env : Env) (build : Build) (service : String) (w : Worker)
    → Ensures (λ _ v. v.state ≡ State.setup_complete) (set_up_environment env build service w)
unfolding set_up_environment
set_up_environment-Reaches env build service w = ground arith

configure-Reaches :
    (env : Env) (build : Build) (w : Worker)
    → Ensures (λ res v. Reaches State.setup_complete res v) (configure env build w)
unfolding configure
configure-Reaches env build w =
    next-Ensures (λ res v. Reaches State.setup_complete res v) (set_initial_items env) _ w
      (λ code v.
        Ensures-bind (λ _ x. is_success code ≡ true → x.state ≡ State.setup_complete)
          (λ res x. Reaches State.setup_complete res x)
          (when (is_success code) (set_up_environment env build (service_name v.service))) _ v
          (set_up (is_success code) v)
          (λ _ x h.
            finish-Reaches env code State.setup_complete (some (ErrorCode.authenticating, "")) x
              refl h))
  where
    set_up :
        (ok : Bool) (v : Worker)
        → Ensures
            (λ _ x. ok ≡ true → x.state ≡ State.setup_complete)
            (when ok (set_up_environment env build (service_name v.service)) v)
    set_up true v =
        excused State.setup_complete (set_up_environment env build (service_name v.service) v)
          (set_up_environment-Reaches env build (service_name v.service) v)
    set_up false v = λ e. cc

start_conversation-Reaches :
    (env : Env) (build : Build) (w : Worker)
    → Ensures (λ res v. Reaches State.setup_complete res v) (start_conversation env build w)
unfolding start_conversation
start_conversation-Reaches env build w = go (is_success env.start_code) refl
  where
    begun : Worker
    begun = record w {
      auditor = true;
      log = Effect.pam_start env.start_code ∷ w.log;
      pam_handle = is_success env.start_code || env.start_sets_handle;
    }

    go :
        (ok : Bool)
        → is_success env.start_code ≡ ok
        → Ensures
            (λ res v. Reaches State.setup_complete res v)
            ((if ok
                then configure env build
                else finish env env.start_code (some (ErrorCode.service_unavailable, "")))
              begun)
    go true e = configure-Reaches env build begun
    go false e =
        finish-Reaches env env.start_code State.setup_complete
          (some (ErrorCode.service_unavailable, "")) begun refl (λ y. cc)

pub initialize_pam-Reaches :
    (env : Env) (build : Build) (w : Worker)
    → Ensures (λ res v. Reaches State.setup_complete res v) (initialize_pam env build w)
unfolding initialize_pam
initialize_pam-Reaches env build w = next-Ensures Q (g_assert (is_some w.service)) _ w (λ _ v.
    next-Ensures Q (g_assert (not v.pam_handle)) _ v
      (λ _ x. start_conversation-Reaches env build x))
  where
    Q : Failure → Worker → Type 0
    Q = Reaches State.setup_complete

report_opened-Stays :
    (env : Env) (s : State) (w : Worker)
    → w.state ≡ s
    → Ensures (λ _ v. v.state ≡ s) (report_opened env w)
unfolding report_opened
report_opened-Stays env s w e = ground arith

after_open-Reaches :
    (env : Env) (opened : Bool) (w : Worker)
    → Ensures (λ res v. Reaches State.session_opened res v) (after_open env opened w)
unfolding after_open fail_to_open
after_open-Reaches env true w =
    Ensures-bind (λ _ v. v.state ≡ State.session_opened)
      (λ res v. Reaches State.session_opened res v) (set_state State.session_opened) _ w
      (set_state-Reaches State.session_opened w)
      (λ _ v e.
        Ensures-bind (λ _ x. x.state ≡ State.session_opened)
          (λ res x. Reaches State.session_opened res x) (report_opened env) _ v
          (report_opened-Stays env State.session_opened v e) (λ _ x h. h))
after_open-Reaches env false w =
    next-Ensures (λ res v. Reaches State.session_opened res v)
      (uninitialize_pam env env.open_session_code) _ w (λ _ v. refl)

open_if_ready-Reaches :
    (env : Env) (ready : Bool) (w : Worker)
    → Ensures (λ res v. Reaches State.session_opened res v) (open_if_ready env ready w)
unfolding open_if_ready open_pam_session
open_if_ready-Reaches env false w = refl
open_if_ready-Reaches env true w =
    next-Ensures (λ res v. Reaches State.session_opened res v) (converse env env.conversation) _ w
      (λ _ v. after_open-Reaches env (is_success env.open_session_code) (record v {
        log = Effect.pam_open_session w.is_program_session env.open_session_code ∷ v.log;
      }))

pub open_session-Reaches :
    (env : Env) (build : Build) (w : Worker)
    → Ensures (λ res v. Reaches State.session_opened res v) (open_session env build w)
unfolding open_session
open_session-Reaches env build w =
    next-Ensures Q (g_assert (is_state w.state State.account_details_saved)) _ w (λ _ v.
      next-Ensures Q (g_assert env.euid_is_root) _ v (λ _ x.
        next-Ensures Q (prepare_vt env build) (open_if_ready env) x
          (λ ready y. open_if_ready-Reaches env ready y)))
  where
    Q : Failure → Worker → Type 0
    Q = Reaches State.session_opened
