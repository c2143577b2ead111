-- ===== src/Worker/Replies.antt =====
-- How the method calls of the worker of daemon/gdm-session-worker.c are answered, and what PAM's
-- conversation function is given.
use gdm.Base.{
  ℕ, suc, ◌+◌, ◌-◌, ◌≡◌, ◌≤◌, ◌==◌, ◌⊎◌, inl, inr, refl, String, Option, none, some, Bool, true,
  false, List, [], ◌∷◌, if◌then◌else◌, arith, Ensures, Ensures-bind, Ensures-some, is_some, length,
  length-take, take, subst, sym, ◌||◌,
}
use gdm.Worker.{
  State, rank, Effect, Reply, ErrorCode, Worker, Env, Build, PamCode, Message, MessageStyle, W,
  prompt_echo_on, prompt_echo_off, text_info, error_msg, radio_type, binary_prompt, unknown_style,
}
use gdm.Worker.Ledger.{ledger}
use gdm.Worker.Accounts.{update_username, queue_state_change}
use gdm.Worker.Messages.{
  add_reply, go_on, handed_over, is_binary, process_pam_message, collect_replies,
  pam_new_messages_handler,
}
use gdm.Worker.Requests.{
  validate_state_change, validate_and_queue_state_change, handle_start_program, request_program,
  wrong_state_text, outstanding_text, state_name,
}
use gdm.Worker.Loop.{Event, handle, run, new, state_change_idle, dispatch}
use gdm.Worker.Returns.{InCall, handler_returns}
use gdm.Worker.Invariant.{Inv}
use gdm.Worker.Invariant.Served.{Served, pend}
use gdm.Worker.Invariant.Events.{handle-Served, new-Inv, IsCareful, all_calls, calls}

Served-sum : {n m : ℕ} {u v w : Worker} → Served n u v → Served m v w → Served (n + m) u w
Served-sum s t = ground arith

-- Two runs in a row, where the second may rely on what `P` says of the state between.
Served-after_both :
    (n m : ℕ) (P : Worker → Type 0) (w : Worker) (r : Option (Unit {0} × Worker))
    → (f : Worker → Option (Unit {0} × Worker)) → Ensures (λ _ v. Served n w v) r
    → Ensures (λ _ v. P v) r
    → ((x : Worker) → Inv x → P x → Ensures (λ _ v. Served m x v) (f x))
    → Ensures (λ _ v. Served (n + m) w v) (elim r [ none ↦ none | some (_, x) ↦ f x ])
Served-after_both n m P w none f s p k = tt
Served-after_both n m P w (some (_, x)) f s p k = finish (f x) (k x s.inv p)
  where
    finish :
        (r : Option (Unit {0} × Worker))
        → Ensures (λ _ v. Served m x v) r
        → Ensures (λ _ v. Served (n + m) w v) r
    finish none h = tt
    finish (some (_, v)) h = Served-sum s h

run-Served :
    (build : Build) (es : List (Env × Event)) (w : Worker)
    → IsCareful build es w
    → Inv w
    → Ensures (λ _ v. Served (all_calls es) w v) (run build es w)
unfolding run
run-Served build [] w c i = ground arith
run-Served build ((env, e) ∷ es) w (p, c) i =
    Served-after_both (calls e) (all_calls es) (IsCareful build es) w (handle build env e w)
      (run build es) (handle-Served build env e w p i) c λ x j d. run-Served build es x d j

-- In a history from a new worker in which programs are asked for only in the state SESSION_OPENED
-- and with no other call pending, the replies given and the one that is still owed, if a call is
-- pending, are together as many as the method calls.
pub run-replies :
    (build : Build) (es : List (Env × Event)) (is_reauth : Bool) (w : Worker)
    → IsCareful build es (new is_reauth)
    → run build es (new is_reauth) ≡ some (tt, w)
    → (ledger w.log).replies + pend w.pending_invocation ≡ all_calls es
unfolding new ledger
run-replies build es is_reauth w c e = omega (
  arith,
  (Ensures-some (λ _ v. Served (all_calls es) (new is_reauth) v) (run build es (new is_reauth))
      (run-Served build es (new is_reauth) c (new-Inv is_reauth)) e).account,
)

-- What is done with a call that asks for a state, in every state of the worker but SESSION_STARTED:
-- with another call pending it is answered with OUTSTANDING_REQUEST; if it asks for the next state it
-- becomes the pending call, and the idle source is queued; and else it is answered with WRONG_STATE.
-- Nothing else of the worker changes.
pub validate_and_queue_branches :
    (i : ℕ) (s : State) (w : Worker)
    → rank w.state ≤ 6
    → validate_and_queue_state_change i s w ≡ (
        if is_some w.pending_invocation
        then some (
          tt,
          record w {
            log =
                Effect.reply i
                  (Reply.error ErrorCode.outstanding_request (outstanding_text s w.state))
                ∷ w.log;
          },
        )
        else if suc (rank w.state) == rank s
        then some (tt, record w { pending_invocation = some i; state_change_idle_id = true })
        else some (
          tt,
          record w {
            log =
                Effect.reply i (Reply.error ErrorCode.wrong_state (wrong_state_text s w.state))
                ∷ w.log;
          },
        ))
unfolding validate_and_queue_state_change validate_state_change queue_state_change state_name
validate_and_queue_branches i s w b = ground arith

-- A response fits into PAM's buffer, with the terminating zero.
abbrev pub Fits : ℕ → Option (List ℕ) → Type 0
Fits size none = Unit {0}
Fits size (some text) = length text ≤ size - 1

-- An answer, cut to the size that PAM takes.
abbrev pub cut : ℕ → Option (List ℕ) → Option (List ℕ)
cut size none = none
cut size (some text) = some (take (size - 1) text)

-- What PAM is to be given for a message, by its style, by whether the daemon took it, and by the answer
-- of the user: nothing for what is only shown, the answer of an extension as it is, and else the cut one.
abbrev pub expected_for : ℕ → MessageStyle → Bool → Option (List ℕ) → Option (List ℕ)
expected_for size text_info delivered answer = none
expected_for size error_msg delivered answer = none
expected_for size unknown_style delivered answer = none
expected_for size binary_prompt delivered answer = if delivered then answer else none
expected_for size _ delivered answer = if delivered then cut size answer else none

abbrev pub expected : ℕ → Message → Option (List ℕ)
expected size m = expected_for size m.style m.delivered m.answer

-- Whether the loop goes on after a message: a prompt with an answer counts even if the call failed.
abbrev pub goes_on_after : MessageStyle → Bool → Option (List ℕ) → Bool
goes_on_after text_info delivered answer = delivered
goes_on_after error_msg delivered answer = delivered
goes_on_after unknown_style delivered answer = false
goes_on_after binary_prompt delivered answer = delivered
goes_on_after _ delivered answer = is_some answer || delivered

abbrev pub is_processed : Message → Bool
is_processed m = goes_on_after m.style m.delivered m.answer

-- Each message was processed, and for each, in their order, there is the response that is expected; it
-- fits unless an extension made it.
pub data Answered (size : ℕ) : List Message → List (Option (List ℕ)) → Type 0 where
  end : Answered size [] []
  response :
      {m : Message} {ms : List Message} {r : Option (List ℕ)} {rs : List (Option (List ℕ))}
      → is_processed m ≡ true
      → r ≡ expected size m
      → (is_binary m.style ≡ false → Fits size r)
      → Answered size ms rs
      → Answered size (m ∷ ms) (r ∷ rs)

-- One of the messages cannot be processed.
abbrev pub IsStuck : List Message → Type 0
IsStuck [] = ⊥
IsStuck (m ∷ ms) = (is_processed m ≡ false) ⊎ IsStuck ms

cut-Fits : (size : ℕ) (d : Bool) (o : Option (List ℕ)) → Fits size (if d then cut size o else none)
cut-Fits size false o = tt
cut-Fits size true none = tt
cut-Fits size true (some text) = length-take (size - 1) text

expected-Fits :
    (size : ℕ) (s : MessageStyle) (d : Bool) (o : Option (List ℕ))
    → is_binary s ≡ false
    → Fits size (expected_for size s d o)
expected-Fits size prompt_echo_on d o h = cut-Fits size d o
expected-Fits size prompt_echo_off d o h = cut-Fits size d o
expected-Fits size text_info d o h = tt
expected-Fits size error_msg d o h = tt
expected-Fits size radio_type d o h = cut-Fits size d o
expected-Fits size binary_prompt d o h = cc
expected-Fits size unknown_style d o h = tt

anything : {A : Type 0} (r : Option (A × Worker)) → Ensures (λ _ _. Unit {0}) r
anything none = tt
anything (some _) = tt

-- How a message was processed, and what PAM is given for it.
abbrev IsProcessed : Env → Message → Bool × Option (List ℕ) → Type 0
IsProcessed env m r = (r.0 ≡ is_processed m) × (r.1 ≡ expected env.max_resp_size m)

process_pam_message-IsProcessed :
    (env : Env) (m : Message) (w : Worker)
    → Ensures (λ r _. IsProcessed env m r) (process_pam_message env m w)
unfolding process_pam_message
process_pam_message-IsProcessed env m w =
    Ensures-bind (λ _ _. Unit {0}) (λ r _. IsProcessed env m r) (update_username env) _ w
      (anything (update_username env w)) λ _ v _. ground arith

-- What the loop gives: nothing, or a response for each message.
abbrev Collected : Env → List Message → Option (List (Option (List ℕ))) → Type 0
Collected env ms none = IsStuck ms
Collected env ms (some rs) = Answered env.max_resp_size ms rs

add_reply-Collected :
    (env : Env) (m : Message) (ms : List Message) (r : Option (List ℕ))
    → (rs : Option (List (Option (List ℕ)))) → is_processed m ≡ true
    → r ≡ expected env.max_resp_size m
    → Collected env ms rs
    → Collected env (m ∷ ms) (add_reply r rs)
add_reply-Collected env m ms r none p e c = inr c
add_reply-Collected env m ms r (some rs) p e c = response p e (λ b. fits b) c
  where
    fits : is_binary m.style ≡ false → Fits env.max_resp_size r
    fits b =
        subst (Fits env.max_resp_size) (sym e)
          (expected-Fits env.max_resp_size m.style m.delivered m.answer b)

go_on-Collected :
    (env : Env) (m : Message) (ms : List Message) (got : Bool) (r : Option (List ℕ))
    → (rest : W (Option (List (Option (List ℕ))))) (w : Worker) → IsProcessed env m (got, r)
    → Ensures (λ rs _. Collected env ms rs) (rest w)
    → Ensures (λ rs _. Collected env (m ∷ ms) rs) (go_on got r rest w)
go_on-Collected env m ms false r rest w (p, e) c = inl (sym p)
go_on-Collected env m ms true r rest w (p, e) c =
    Ensures-bind (λ rs _. Collected env ms rs) (λ rs _. Collected env (m ∷ ms) rs) rest _ w c
      λ rs _ d. add_reply-Collected env m ms r rs (sym p) e d

collect_replies-Collected :
    (env : Env) (ms : List Message) (w : Worker)
    → Ensures (λ r _. Collected env ms r) (collect_replies env ms w)
unfolding collect_replies
collect_replies-Collected env [] w = end
collect_replies-Collected env (m ∷ ms) w =
    Ensures-bind (λ r _. IsProcessed env m r) (λ r _. Collected env (m ∷ ms) r)
      (process_pam_message env m) _ w (process_pam_message-IsProcessed env m w)
      λ r v f.
        go_on-Collected env m ms r.0 r.1 (collect_replies env ms) v f
          (collect_replies-Collected env ms v)

-- The two outcomes of the conversation function.
abbrev pub IsHandedOver : Env → List Message → PamCode × List (Option (List ℕ)) → Type 0
IsHandedOver env ms r =
    ((r.0 ≡ PamCode.success) × Answered env.max_resp_size ms r.1)
    ⊎ ((r.0 ≡ PamCode.conv_err) × (r.1 ≡ []) × IsStuck ms)

handed_over-IsHandedOver :
    (env : Env) (ms : List Message) (r : Option (List (Option (List ℕ))))
    → Collected env ms r
    → IsHandedOver env ms (handed_over r)
handed_over-IsHandedOver env ms none c = inr (refl, refl, c)
handed_over-IsHandedOver env ms (some rs) c = inl (refl, c)

-- What PAM is given for a list of messages while its handle is there and the conversation is in a
-- state where loaded settings do not move it on: the conversation function returns. On success every
-- message was processed, and there is a response for each, in their order: none for a message that is
-- only shown or was not delivered, the answer of an extension as it is, and else the user's answer to
-- that message, cut to PAM_MAX_RESP_SIZE - 1 bytes. On failure there is no response, and one of the
-- messages cannot be processed.
pub pam_new_messages_handler-IsHandedOver :
    (env : Env) (ms : List Message) (w : Worker)
    → InCall w
    → (is_some (pam_new_messages_handler env ms w) ≡ true)
      × Ensures (λ r _. IsHandedOver env ms r) (pam_new_messages_handler env ms w)
unfolding pam_new_messages_handler
pam_new_messages_handler-IsHandedOver env ms w c = (
  handler_returns env ms w c,
  Ensures-bind (λ r _. Collected env ms r) (λ r _. IsHandedOver env ms r) (collect_replies env ms) _
      w (collect_replies-Collected env ms w) λ r v c. handed_over-IsHandedOver env ms r c,
)

-- A program that is asked for too early, in a login session with nothing pending: the call is
-- answered with an error, and yet it is queued and stays pending, to be answered once more.
pub start_program_queued_after_error :
    (env : Env) (i : ℕ) (text : String) (argv : List String) (w : Worker)
    → rank w.state ≤ 5
    → w.pending_invocation ≡ none
    → w.is_reauth_session ≡ false
    → env.parse_argv text ≡ some argv
    → handle_start_program env i text w
      ≡ some (
        tt,
        record w {
          arguments = argv;
          pending_invocation = some i;
          state_change_idle_id = true;
          log =
              Effect.reply i
                (Reply.error ErrorCode.wrong_state (wrong_state_text State.session_started w.state))
              ∷ w.log;
        },
      )
unfolding handle_start_program validate_state_change request_program queue_state_change
start_program_queued_after_error env i text argv w b p r e = ground arith

-- A program that is asked for where one runs already, in a login session with nothing pending:
-- the idle source that the call queues runs into an assertion, and the worker is aborted.
pub start_program_aborts :
    (build : Build) (env idle_env : Env) (i : ℕ) (text : String) (argv : List String) (w : Worker)
    → w.state ≡ State.session_started
    → w.pending_invocation ≡ none
    → w.is_reauth_session ≡ false
    → env.parse_argv text ≡ some argv
    → run build ((env, Event.start_program i text) ∷ (idle_env, Event.idle) ∷ []) w ≡ none
unfolding run handle handle_start_program validate_state_change request_program queue_state_change
    state_change_idle dispatch
start_program_aborts build env idle_env i text argv w s p r e = ground arith
