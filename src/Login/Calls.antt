-- ===== src/Login/Calls.antt =====
-- The arrival of a call of daemon/gdm-session.c in a worker of daemon/gdm-session-worker.c that is in
-- the state for it.
use gdm.Base.{
  ℕ, suc, ◌≤◌, ◌≡◌, ◌∙◌, inl, refl, sym, subst, ap, Option, none, some, Bool, true, false, List,
  Bytes, arith, when, if◌then◌else◌, Ensures, Ensures-bind, bind-some, pure,
}
use gdm.Worker.{State, rank, Worker, Env, Build}
use gdm.Worker.Ledger.{Ledger}
use gdm.Worker.Frame.{Frame}
use gdm.Worker.Accounts.{queue_state_change}
use gdm.Worker.Requests.{
  Detail, validate_state_change, validate_and_queue_state_change, handle_establish_credentials,
  handle_initialize, begin_conversation, await_or_queue, create_settings, apply_details,
  handle_authenticate, handle_authorize, handle_open,
}
use gdm.Worker.Invariant.Calls.{
  queued-Served, settled-Notified, prepared-Served, apply_details-Frame,
}
use gdm.Worker.Loop.{handle}
use gdm.Worker.Invariant.{Inv}
use gdm.Worker.Invariant.Notified.{Notified}
use gdm.Session.State.{
  Request, initialize, authenticate, authorize, establish_credentials, open_session, start_program,
}
use gdm.Login.{Site, Round, event_of, details_of, exchange, await}
use gdm.Login.Rounds.{Notified-IsWaiting, Told, await-Told}
use gdm.Login.Exchange.{IsGood, IsServed, before, is_step, IsWaiting}

-- A worker that is where the call numbered `i` finds it in its place.
pub record IsReady (i : ℕ) (r : Request) (w : Worker) : Type 0 where
  pub inv : Inv w
  pub free : w.pending_invocation ≡ none
  pub served : IsServed w i
  pub place : w.state ≡ before r

queued-IsWaiting :
    (i : ℕ) (r : Request) (s : State) (w : Worker)
    → rank s ≤ 5
    → suc (rank (before r)) ≡ rank s
    → IsReady i r w
    → Ensures (λ _ v. IsWaiting i r v) (validate_and_queue_state_change i s w)
unfolding validate_and_queue_state_change validate_state_change queue_state_change
queued-IsWaiting i r s w b n h = subst (Ensures (λ _ v. IsWaiting i r v)) (sym computed) (record {
  inv = (queued-Served s i w b next h.free h.inv).inv;
  pending = refl;
  served = h.served;
  place = inl h.place;
})
  where
    next : suc (rank w.state) ≡ rank s
    next = ap (λ (t : State). suc (rank t)) h.place ∙ n

    computed :
        validate_and_queue_state_change i s w
        ≡ some (tt, record w { pending_invocation = some i; state_change_idle_id = true })
    computed = ground (arith, next, h.free)

credentials-IsWaiting :
    (i : ℕ) (w : Worker)
    → IsReady i establish_credentials w
    → Ensures (λ _ v. IsWaiting i establish_credentials v) (handle_establish_credentials i w)
unfolding handle_establish_credentials
credentials-IsWaiting i w h =
    Ensures-bind (λ _ v. IsWaiting i establish_credentials v)
      (λ _ v. IsWaiting i establish_credentials v)
      (validate_and_queue_state_change i State.accredited) _ w
      (queued-IsWaiting i establish_credentials State.accredited w (omega arith) refl h)
      (λ _ v j. record {
        inv = (let k = j.inv in ground arith);
        pending = j.pending;
        served = j.served;
        place = j.place;
      })

-- The conversation begins, or waits for the settings.
awaited-IsWaiting :
    (i : ℕ) (u : Option Bytes) (wait : Bool) (w : Worker)
    → IsWaiting i (initialize u) w
    → Ensures (λ _ v. IsWaiting i (initialize u) v) (await_or_queue wait w)
unfolding queue_state_change
awaited-IsWaiting i u true w h = record {
  inv = (let v = h.inv in ground arith);
  pending = h.pending;
  served = h.served;
  place = h.place;
}
awaited-IsWaiting i u false w h = record {
  inv = (let v = h.inv in let p = h.place in ground arith);
  pending = h.pending;
  served = h.served;
  place = h.place;
}

initialize-IsWaiting :
    (i : ℕ) (u : Option Bytes) (env : Env) (ds : List Detail) (w : Worker)
    → IsReady i (initialize u) w
    → Ensures (λ _ v. IsWaiting i (initialize u) v) (handle_initialize env i ds w)
unfolding handle_initialize begin_conversation validate_state_change
initialize-IsWaiting i u env ds w h =
    subst (Ensures (λ _ v. IsWaiting i (initialize u) v))
      (sym (
        bind-some (validate_state_change i State.setup_complete)
          (λ valid. when valid (begin_conversation env i ds)) w true w valid))
      (Ensures-bind (λ _ x. Notified prepared x) (λ _ x. IsWaiting i (initialize u) x)
        (if (apply_details ds w).is_program_session then pure false else create_settings env)
        await_or_queue prepared
        (settled-Notified env (apply_details ds w).is_program_session prepared begun.inv)
        (λ b x n.
          awaited-IsWaiting i u b x (Notified-IsWaiting i (initialize u) prepared x begun n)))
  where
    prepared : Worker
    prepared = record (apply_details ds w) {
      seat0_has_vts = env.seat0_can_tty;
      pending_invocation = some i;
    }

    valid : validate_state_change i State.setup_complete w ≡ some (true, w)
    valid = ground (arith, h.free, h.place)

    same : Frame w (apply_details ds w)
    same = apply_details-Frame ds w

    begun : IsWaiting i (initialize u) prepared
    begun = record {
      inv = (prepared-Served env i ds w h.free h.inv).inv;
      pending = refl;
      served = subst (λ (l : Ledger). IsGood i l.answers) (sym same.same_ledger) h.served;
      place = inl (same.same_state ∙ h.place);
    }

-- A call that the worker is ready for is accepted.
call-IsWaiting :
    (i : ℕ) (r : Request) (site : Site) (is_program : Bool) (env : Env) (build : Build) (w : Worker)
    → is_step r ≡ true
    → IsReady i r w
    → Ensures (λ _ v. IsWaiting i r v) (handle build env (event_of site is_program i r) w)
unfolding handle event_of handle_authenticate handle_authorize handle_open
call-IsWaiting i (initialize u) site p env build w k h =
    initialize-IsWaiting i u env (details_of site p u) w h
call-IsWaiting i authenticate site p env build w k h =
    queued-IsWaiting i authenticate State.authenticated w (omega arith) refl h
call-IsWaiting i authorize site p env build w k h =
    queued-IsWaiting i authorize State.authorized w (omega arith) refl h
call-IsWaiting i establish_credentials site p env build w k h = credentials-IsWaiting i w h
call-IsWaiting i open_session site p env build w k h =
    queued-IsWaiting i open_session State.account_details_saved w (omega arith) refl h
call-IsWaiting i (start_program command) site p env build w k h = cc

-- A call in its place is answered, if it is, by its outcome, and is not refused.
pub exchange-Told :
    (i : ℕ) (r : Request) (site : Site) (is_program : Bool) (build : Build) (round : Round)
    (w : Worker)
    → is_step r ≡ true
    → IsReady i r w
    → Ensures (λ a v. Told i r a v) (exchange site build is_program round i r w)
unfolding exchange
exchange-Told i r site is_program build round w k h =
    Ensures-bind (λ _ v. IsWaiting i r v) (λ a v. Told i r a v)
      (handle build round.env (event_of site is_program i r)) (λ _. await build i round.own) w
      (call-IsWaiting i r site is_program round.env build w k h)
      (λ _ v j. await-Told i r build round.own v k (inl j))
