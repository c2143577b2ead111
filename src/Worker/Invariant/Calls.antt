-- ===== src/Worker/Invariant/Calls.antt =====
-- The invariant of the worker of daemon/gdm-session-worker.c, for the methods that move it on.
use gdm.Base.{
  ℕ, suc, ◌≤◌, ◌≡◌, subst, sym, inl, inr, refl, String, Option, none, some, Bool, true, false, ◌==◌,
  ==_iff, List, [], ◌∷◌, arith, Bool-cases, Option-cases, is_some, when, modify, pure, Ensures,
  Ensures-bind, ◌>>◌, if◌then◌else◌,
}
use gdm.Settings
use gdm.Settings.{Settings}
use gdm.Worker.{ErrorCode, Reply, State, rank, Effect, Worker, Env, is_state}
use gdm.Worker.Ledger.{ledger}
use gdm.Worker.Frame.{Frame, Frame-refl, Frame-trans}
use gdm.Worker.Accounts.{queue_state_change}
use gdm.Worker.Requests.{
  outstanding_text, wrong_state_text, state_name, validate_state_change,
  validate_and_queue_state_change, handle_establish_credentials, begin_conversation, await_or_queue,
  request_program, handle_initialize, handle_start_program, apply_detail, apply_details, Detail,
  create_settings,
}
use gdm.Worker.Invariant.{Inv}
use gdm.Worker.Invariant.Served.{Served, Served-then, Steady, Steady-after}
use gdm.Worker.Invariant.Notified.{Notified, Notified-trans, idem-Notified, load_settings-Notified}

-- What a validation leaves: an accepted call finds the worker in the state before the new one and
-- with nothing pending, and a rejected call is answered.
pub record Accepted (s : State) (v w : Worker) : Type 0 where
  pub unchanged : w ≡ v
  pub idle : v.pending_invocation ≡ none
  pub next : suc (rank v.state) ≡ rank s

abbrev pub Verdict : State → Worker → Bool → Worker → Type 0
Verdict s v true w = Accepted s v w
Verdict s v false w = Served 1 v w

replied-Served :
    (w : Worker) (i : ℕ) (r : Reply)
    → Inv w
    → Served 1 w (record w { log = Effect.reply i r ∷ w.log })
unfolding ledger
replied-Served w i r v = ground arith

pub validate-Verdict :
    (i : ℕ) (s : State) (w : Worker)
    → Inv w
    → Ensures (λ b v. Verdict s w b v) (validate_state_change i s w)
unfolding validate_state_change
validate-Verdict i s w v = elim (Option-cases w.pending_invocation) [
  | inl e ↦ elim (Bool-cases (suc (rank w.state) == rank s)) [
    | inl y ↦ ground (arith, (==_iff (suc (rank w.state)) (rank s)).0 y)
    | inr n ↦ ground (
      arith,
      replied-Served w i (Reply.error ErrorCode.wrong_state (wrong_state_text s w.state)) v,
    )
  ]
  | inr (p, e) ↦ elim (Bool-cases (is_some (state_name (suc (rank w.state))))) [
    | inl y ↦ ground (
      arith,
      replied-Served w i (Reply.error ErrorCode.outstanding_request (outstanding_text s w.state)) v,
    )
    | inr n ↦ ground arith
  ]
]

pub queued-Served :
    (s : State) (i : ℕ) (w : Worker)
    → rank s ≤ 5
    → suc (rank w.state) ≡ rank s
    → w.pending_invocation ≡ none
    → Inv w
    → Served 1 w (record w { pending_invocation = some i; state_change_idle_id = true })
queued-Served s i w b n e v = ground arith

pub validate_and_queue-Served :
    (i : ℕ) (s : State) (w : Worker)
    → rank s ≤ 5
    → Inv w
    → Ensures (λ _ v. Served 1 w v) (validate_and_queue_state_change i s w)
unfolding validate_and_queue_state_change
validate_and_queue-Served i s w b v =
    Ensures-bind (λ b v. Verdict s w b v) (λ _ v. Served 1 w v) (validate_state_change i s) _ w
      (validate-Verdict i s w v) go
  where
    go :
        (b : Bool) (x : Worker)
        → Verdict s w b x
        → Ensures
            (λ _ v. Served 1 w v)
            (when b
              (modify (λ w. record w { pending_invocation = some i }) >> queue_state_change)
              x)
    go true x a = ground (arith, queued-Served s i w b a.next a.idle v)
    go false x a = a

pub establish_credentials-Served :
    (i : ℕ) (w : Worker) → Inv w → Ensures (λ _ v. Served 1 w v) (handle_establish_credentials i w)
unfolding handle_establish_credentials
establish_credentials-Served i w v =
    Ensures-bind (λ _ v. Served 1 w v) (λ _ v. Served 1 w v)
      (validate_and_queue_state_change i State.accredited) _ w
      (validate_and_queue-Served i State.accredited w (omega arith) v) λ _ x a. ground arith

pub apply_details-Frame : (ds : List Detail) (w : Worker) → Frame w (apply_details ds w)
unfolding apply_details
apply_details-Frame [] w = Frame-refl w
apply_details-Frame (d ∷ ds) w =
    Frame-trans (apply_detail-Frame d w) (apply_details-Frame ds (apply_detail d w))
  where
    apply_detail-Frame : (d : Detail) (w : Worker) → Frame w (apply_detail d w)
    apply_detail-Frame d w = ground arith

create_settings-Notified :
    (env : Env) (w : Worker) → Inv w → Ensures (λ _ v. Notified w v) (create_settings env w)
unfolding create_settings
create_settings-Notified env w i = elim (Option-cases w.username) [
  | inl e ↦ ground (arith, step)
  | inr (n, e) ↦
      ground (arith, load_settings-Notified env Settings.new (some n) fresh step.served.inv, trans)
]
  where
    fresh : Worker
    fresh = record w {
      user_settings = some Settings.new;
      awaiting_settings = false;
      saved_names_connected = true;
      saved_type_connected = true;
    }

    step : Notified w fresh
    step = ground arith

    trans :
        {A : Type 0} (r : Option (A × Worker))
        → Ensures (λ _ v. Notified fresh v) r
        → Ensures (λ _ v. Notified w v) r
    trans none h = tt
    trans (some (a, v)) h = Notified-trans step h

pub prepared-Served :
    (env : Env) (i : ℕ) (ds : List Detail) (w : Worker)
    → w.pending_invocation ≡ none
    → Inv w
    → Served 1 w (record (apply_details ds w) {
      seat0_has_vts = env.seat0_can_tty;
      pending_invocation = some i;
    })
prepared-Served env i ds w e v = ground (arith, apply_details-Frame ds w)

-- With the settings loaded or to be waited for, the idle source is queued or not.
pub ready-Served :
    (wait : Bool) (w : Worker)
    → is_state w.state State.session_opened ≡ false
    → Inv w
    → Ensures (λ _ v. Served 0 w v) (await_or_queue wait w)
unfolding queue_state_change
ready-Served true w n i = ground arith
ready-Served false w n i = ground arith

pub settled-Notified :
    (env : Env) (is_program : Bool) (w : Worker)
    → Inv w
    → Ensures (λ _ v. Notified w v) ((if is_program then pure false else create_settings env) w)
settled-Notified env true w i = idem-Notified w i
settled-Notified env false w i = create_settings-Notified env w i

begin-Served :
    (env : Env) (i : ℕ) (ds : List Detail) (w : Worker)
    → w.state ≡ State.none_state
    → w.pending_invocation ≡ none
    → Inv w
    → Ensures (λ _ v. Served 1 w v) (begin_conversation env i ds w)
unfolding begin_conversation
begin-Served env i ds w s e v =
    settle
      ((if (apply_details ds w).is_program_session then pure false else create_settings env)
        prepared)
      (settled-Notified env (apply_details ds w).is_program_session prepared step.inv)
  where
    prepared : Worker
    prepared = record (apply_details ds w) {
      seat0_has_vts = env.seat0_can_tty;
      pending_invocation = some i;
    }

    step : Served 1 w prepared
    step = prepared-Served env i ds w e v

    closed : is_state prepared.state State.session_opened ≡ false
    closed = ground (arith, apply_details-Frame ds w)

    settle :
        (r : Option (Bool × Worker))
        → Ensures (λ _ v. Notified prepared v) r
        → Ensures (λ _ v. Served 1 w v) (elim r [ none ↦ none | some (b, x) ↦ await_or_queue b x ])
    settle none n = tt
    settle (some (b, x)) n =
        finish (await_or_queue b x) (ready-Served b x (n.unopened closed) n.served.inv)
      where
        finish :
            (r : Option (Unit {0} × Worker))
            → Ensures (λ _ v. Served 0 x v) r
            → Ensures (λ _ v. Served 1 w v) r
        finish none h = tt
        finish (some (_, y)) h = Served-then (Served-then step n.served) h

pub initialize-Served :
    (env : Env) (i : ℕ) (ds : List Detail) (w : Worker)
    → Inv w
    → Ensures (λ _ v. Served 1 w v) (handle_initialize env i ds w)
unfolding handle_initialize
initialize-Served env i ds w v =
    Ensures-bind (λ b v. Verdict State.setup_complete w b v) (λ _ v. Served 1 w v)
      (validate_state_change i State.setup_complete) _ w
      (validate-Verdict i State.setup_complete w v) go
  where
    go :
        (b : Bool) (x : Worker)
        → Verdict State.setup_complete w b x
        → Ensures (λ _ v. Served 1 w v) (when b (begin_conversation env i ds) x)
    go true x a = rw a.unchanged (begin-Served env i ds w (ground (arith, a.next)) a.idle v)
    go false x a = a

request_program-Steady :
    (env : Env) (i : ℕ) (text : String) (w : Worker)
    → Inv w
    → Ensures (λ _ v. Steady w v) (request_program env i text w)
unfolding request_program ledger queue_state_change
request_program-Steady env i text w v = elim (Option-cases (env.parse_argv text)) [
  | inl e ↦ ground arith
  | inr (argv, e) ↦ ground arith
]

request_program-Served :
    (env : Env) (i : ℕ) (text : String) (w : Worker)
    → w.pending_invocation ≡ none
    → Inv w
    → Ensures (λ _ v. Served 1 w v) (request_program env i text w)
unfolding request_program ledger queue_state_change
request_program-Served env i text w p v = elim (Option-cases (env.parse_argv text)) [
  | inl e ↦ ground arith
  | inr (argv, e) ↦ ground arith
]

Verdict-Steady : (s : State) (b : Bool) (w x : Worker) → Inv w → Verdict s w b x → Steady w x
Verdict-Steady s true w x v a =
    subst (Steady w) (sym a.unchanged) (record { inv = v; same_reauth = refl })
Verdict-Steady s false w x v a = record { inv = a.inv; same_reauth = a.same_reauth }

-- The worker stays sound whatever the state in which a program is to be started.
pub start_program-Steady :
    (env : Env) (i : ℕ) (text : String) (w : Worker)
    → Inv w
    → Ensures (λ _ v. Steady w v) (handle_start_program env i text w)
unfolding handle_start_program
start_program-Steady env i text w v =
    Ensures-bind (λ b v. Verdict State.session_started w b v) (λ _ v. Steady w v)
      (validate_state_change i State.session_started) _ w
      (validate-Verdict i State.session_started w v)
      λ b x a.
        let step = Verdict-Steady State.session_started b w x v a in
        Steady-after w x (request_program env i text x) step
          (request_program-Steady env i text x step.inv)

pub start_program-Served :
    (env : Env) (i : ℕ) (text : String) (w : Worker)
    → w.state ≡ State.session_opened
    → w.pending_invocation ≡ none
    → Inv w
    → Ensures (λ _ v. Served 1 w v) (handle_start_program env i text w)
unfolding handle_start_program validate_state_change
start_program-Served env i text w s p v = ground (arith, request_program-Served env i text w p v)
