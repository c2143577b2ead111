-- ===== src/Login/Exchange.antt =====
-- One call of daemon/gdm-session.c in the worker of daemon/gdm-session-worker.c: from a state in which
-- the call is in its place until it is answered.
use gdm.Base.{
  ℕ, ◌<◌, ◌≡◌, ◌∙◌, inl, inr, refl, sym, subst, Option, none, some, Bool, true, false, not, List,
  [], ◌∷◌, Bytes, arith, is_some, when, if◌then◌else◌, Ensures, Ensures-bind, ◌>>=◌,
}
use gdm.Worker.{State, Effect, Reply, Worker, Env, Build, W}
use gdm.Worker.Ledger.{ledger}
use gdm.Worker.Accounts.{update_username}
use gdm.Worker.Pam.{Failure, initialize_pam, authenticate_user, authorize_user, accredit_user}
use gdm.Worker.Session.{open_session as open_pam}
use gdm.Worker.Requests.{text_of}
use gdm.Worker.Loop.{
  answer, reply_of, do_setup, do_authenticate, do_authorize, do_accredit, do_open_session,
}
use gdm.Worker.Invariant.{Inv, Sound}
use gdm.Worker.Invariant.Setup.{initialize_pam-Sound}
use gdm.Worker.Invariant.Authentication.{authenticate_user-Sound, authorize_user-Sound}
use gdm.Worker.Invariant.Accreditation.{accredit_user-Sound}
use gdm.Worker.Invariant.Sessions.{open_session-Sound}
use gdm.Worker.Invariant.Notified.{Moves, Notified, update_username-Notified}
use gdm.Session.State.{
  Request, initialize, authenticate, authorize, establish_credentials, open_session, start_program,
}
use gdm.Login.Outcomes.{
  Reaches, refuses, initialize_pam-Reaches, authenticate_user-Reaches, authorize_user-Reaches,
  accredit_user-Reaches, open_session-Reaches,
}

abbrev pub is_error : Reply → Bool
is_error (Reply.error code message) = true
is_error _ = false

abbrev pub is_refusal : Reply → Bool
is_refusal (Reply.error code message) = refuses code
is_refusal _ = false

-- The replies so far are to calls before the one numbered `i`, and none is a refusal.
abbrev pub IsGood : ℕ → List (ℕ × Reply) → Type 0
IsGood i [] = Unit {0}
IsGood i ((j, r) ∷ answers) = (j < i) × (is_refusal r ≡ false) × IsGood i answers

abbrev pub IsServed : Worker → ℕ → Type 0
IsServed w i = IsGood i (ledger w.log).answers

-- The states between which a call takes the worker.
abbrev pub before : Request → State
before (initialize u) = State.none_state
before authenticate = State.setup_complete
before authorize = State.authenticated
before establish_credentials = State.authorized
before open_session = State.accredited
before (start_program command) = State.session_opened

abbrev pub after : Request → State
after (initialize u) = State.setup_complete
after authenticate = State.authenticated
after authorize = State.authorized
after establish_credentials = State.accredited
after open_session = State.session_opened
after (start_program command) = State.session_started

-- The calls that a callback makes.
abbrev pub is_step : Request → Bool
is_step (start_program command) = false
is_step _ = true

-- The call numbered `i` is pending; settings that it waits for may have been saved.
pub record IsWaiting (i : ℕ) (r : Request) (w : Worker) : Type 0 where
  pub inv : Inv w
  pub pending : w.pending_invocation ≡ some i
  pub served : IsServed w i
  pub place : Moves (before r) w.state

-- The call numbered `i` has just been answered.
pub record IsSettled (i : ℕ) (r : Request) (w : Worker) : Type 0 where
  pub inv : Inv w
  pub settled : w.pending_invocation ≡ none
  pub reply : Reply
  pub earlier : List (ℕ × Reply)
  pub answered : (ledger w.log).answers ≡ (i, reply) ∷ earlier
  pub served : IsGood i earlier
  pub accepted : is_refusal reply ≡ false
  pub reached : is_error reply ≡ false → w.state ≡ after r

-- Two postconditions of one run.
pub both :
    {A : Type 0} (P Q : A → Worker → Type 0) (r : Option (A × Worker))
    → Ensures P r
    → Ensures Q r
    → Ensures (λ a w. P a w × Q a w) r
both P Q none p q = tt
both P Q (some (a, w)) p q = (p, q)

replied-Inv :
    (i : ℕ) (reply : Reply) (w : Worker)
    → Inv w
    → Inv (record w { log = Effect.reply i reply ∷ w.log; pending_invocation = none })
unfolding ledger
replied-Inv i reply w v = ground arith

-- The end of an operation whose call is pending: the call is answered.
pub answer-IsSettled :
    (i : ℕ) (r : Request) (reply : Reply) (w : Worker)
    → Inv w
    → w.pending_invocation ≡ some i
    → IsServed w i
    → is_refusal reply ≡ false
    → (is_error reply ≡ false → w.state ≡ after r)
    → Ensures (λ _ v. IsSettled i r v) (answer reply w)
unfolding ledger
answer-IsSettled i r reply w v p g a o =
    subst (Ensures (λ _ v. IsSettled i r v)) (sym computed) (record {
      inv = replied-Inv i reply w v;
      settled = refl;
      reply = reply;
      earlier = (ledger w.log).answers;
      answered = refl;
      served = g;
      accepted = a;
      reached = o;
    })
  where
    computed :
        answer reply w
        ≡ some (tt, record w { log = Effect.reply i reply ∷ w.log; pending_invocation = none })
    computed = ground arith

-- The answer is the outcome of the operation.
outcome-IsSettled :
    (i : ℕ) (r : Request) (res : Failure) (reply : Reply) (w : Worker)
    → Inv w
    → w.pending_invocation ≡ some i
    → IsServed w i
    → is_refusal reply ≡ false
    → Reaches (after r) res w
    → Ensures (λ _ v. IsSettled i r v) (answer (reply_of res reply) w)
outcome-IsSettled i r none reply w v p g a o = answer-IsSettled i r reply w v p g a (λ _. o)
outcome-IsSettled i r (some (c, m)) reply w v p g a o =
    answer-IsSettled i r (Reply.error c m) w v p g o (λ e. cc)

-- A call is pending in a worker that is about to carry it out.
abbrev pub Taken : ℕ → Worker → Type 0
Taken i w = (w.pending_invocation ≡ some i) × IsServed w i

Taken-kept : (i : ℕ) (v w : Worker) → Taken i v → Sound v w → Taken i w
Taken-kept i v w (p, g) s = (s.kept.kept_pending ∙ p, subst (IsGood i) (sym s.kept.kept_answers) g)

operation-IsSettled :
    (i : ℕ) (r : Request) (m : W Failure) (reply : Worker → Reply) (w : Worker)
    → Taken i w
    → ((v : Worker) → is_refusal (reply v) ≡ false)
    → Ensures (λ _ v. Sound w v) (m w)
    → Ensures (λ res v. Reaches (after r) res v) (m w)
    → Ensures (λ _ v. IsSettled i r v) ((m >>= λ res v. answer (reply_of res (reply v)) v) w)
operation-IsSettled i r m reply w t a s o =
    Ensures-bind (λ res v. Sound w v × Reaches (after r) res v) (λ _ v. IsSettled i r v) m _ w
      (both (λ _ v. Sound w v) (λ res v. Reaches (after r) res v) (m w) s o)
      (λ res v h.
        let (p, g) = Taken-kept i w v t h.0 in
        outcome-IsSettled i r res (reply v) v h.0.inv p g (a v) h.1)

pub do_setup-IsSettled :
    (i : ℕ) (u : Option Bytes) (env : Env) (build : Build) (w : Worker)
    → w.state ≡ State.none_state
    → Inv w
    → Taken i w
    → Ensures (λ _ v. IsSettled i (initialize u) v) (do_setup env build w)
unfolding do_setup
do_setup-IsSettled i u env build w s v t =
    operation-IsSettled i (initialize u) (initialize_pam env build) (λ _. Reply.completed) w t
      (λ _. refl) (initialize_pam-Sound env build w s v) (initialize_pam-Reaches env build w)

pub do_authorize-IsSettled :
    (i : ℕ) (env : Env) (w : Worker)
    → w.state ≡ State.authenticated
    → Inv w
    → Taken i w
    → Ensures (λ _ v. IsSettled i authorize v) (do_authorize env w)
unfolding do_authorize
do_authorize-IsSettled i env w s v t =
    operation-IsSettled i authorize (authorize_user env w.password_is_required)
      (λ _. Reply.completed) w t (λ _. refl) (authorize_user-Sound env w.password_is_required w s v)
      (authorize_user-Reaches env w.password_is_required w)

pub do_accredit-IsSettled :
    (i : ℕ) (env : Env) (build : Build) (w : Worker)
    → w.state ≡ State.authorized
    → Inv w
    → Taken i w
    → Ensures (λ _ v. IsSettled i establish_credentials v) (do_accredit env build w)
unfolding do_accredit
do_accredit-IsSettled i env build w s v t =
    operation-IsSettled i establish_credentials (accredit_user env build) (λ _. Reply.completed) w t
      (λ _. refl) (accredit_user-Sound env build w s v) (accredit_user-Reaches env build w)

pub do_open_session-IsSettled :
    (i : ℕ) (env : Env) (build : Build) (w : Worker)
    → w.state ≡ State.account_details_saved
    → w.state_change_idle_id ≡ false
    → Inv w
    → Taken i w
    → Ensures (λ _ v. IsSettled i open_session v) (do_open_session env build w)
unfolding do_open_session
do_open_session-IsSettled i env build w s q v t =
    operation-IsSettled i open_session (open_pam env build)
      (λ v. Reply.opened_session (text_of v.session_id)) w t (λ _. refl)
      (open_session-Sound env build w s q v) (open_session-Reaches env build w)

-- Authentication may bring a new user name, whose settings are asked for.
renamed-IsSettled :
    (i : ℕ) (res : Failure) (env : Env) (wanted : Bool) (w : Worker)
    → Inv w
    → Taken i w
    → Reaches State.authenticated res w
    → Ensures
        (λ _ v. IsSettled i authenticate v)
        ((when wanted (update_username env) >>= λ _. answer (reply_of res Reply.completed)) w)
renamed-IsSettled i res env false w v (p, g) o =
    outcome-IsSettled i authenticate res Reply.completed w v p g refl o
renamed-IsSettled i res env true w v (p, g) o =
    Ensures-bind (λ _ x. Notified w x) (λ _ x. IsSettled i authenticate x) (update_username env) _ w
      (update_username-Notified env w v)
      (λ _ x n.
        outcome-IsSettled i authenticate res Reply.completed x n.served.inv (n.same_pending ∙ p)
          (subst (IsGood i) (sym n.same_answers) g) refl (same_outcome res x n.moves o))
  where
    same_outcome :
        (res : Failure) (x : Worker)
        → Moves w.state x.state
        → Reaches State.authenticated res w
        → Reaches State.authenticated res x
    same_outcome none x (inl e) o = e ∙ o
    same_outcome none x (inr (e, f)) o = absurd (differ (sym e ∙ o))
      where
        differ : State.accredited ≡ State.authenticated → ⊥
        differ e = cc
    same_outcome (some (c, m)) x n o = o

pub do_authenticate-IsSettled :
    (i : ℕ) (env : Env) (w : Worker)
    → w.state ≡ State.setup_complete
    → Inv w
    → Taken i w
    → Ensures (λ _ v. IsSettled i authenticate v) (do_authenticate env w)
unfolding do_authenticate
do_authenticate-IsSettled i env w s v t =
    Ensures-bind (λ res x. Sound w x × Reaches State.authenticated res x)
      (λ _ x. IsSettled i authenticate x) (authenticate_user env w.password_is_required) _ w
      (both (λ _ x. Sound w x) (λ res x. Reaches State.authenticated res x)
        (authenticate_user env w.password_is_required w)
        (authenticate_user-Sound env w.password_is_required w s v)
        (authenticate_user-Reaches env w.password_is_required w))
      (λ res x h.
        renamed-IsSettled i res env (if is_some res then false else not x.is_program_session) x
          h.0.inv (Taken-kept i w x t h.0) h.1)
