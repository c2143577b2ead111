-- ===== src/Login/Rounds.antt =====
-- The events of a worker of daemon/gdm-session-worker.c from the arrival of a call of
-- daemon/gdm-session.c to its answer.
use gdm.Base.{
  ℕ, ◌≡◌, ◌⊎◌, ◌∙◌, inl, inr, refl, sym, subst, ap, Option, none, some, Bool, true, false, List, [],
  ◌∷◌, arith, when, Ensures, Ensures-bind, ◌>>◌,
}
use gdm.Worker.{State, Reply, Worker, Env, Build}
use gdm.Worker.Ledger.{ledger}
use gdm.Worker.Loop.{handle, Event as WorkerEvent, dispatch, state_change_idle, on_user_is_loaded}
use gdm.Worker.Invariant.Notified.{Moves, Moves-trans, Notified}
use gdm.Worker.Invariant.Steps.{save-Notified}
use gdm.Worker.Invariant.Events.{on_user_is_loaded-Notified}
use gdm.Session.State.{
  Request, initialize, authenticate, authorize, establish_credentials, open_session, start_program,
}
use gdm.Login.{Own, idle, user_is_loaded, own_event, await, find_answer, answer_to, unless_answered}
use gdm.Login.Exchange.{
  IsGood, IsServed, before, is_step, IsWaiting, IsSettled, do_setup-IsSettled,
  do_authenticate-IsSettled, do_authorize-IsSettled, do_accredit-IsSettled,
  do_open_session-IsSettled,
}

abbrev pub IsUnderWay : ℕ → Request → Worker → Type 0
IsUnderWay i r w = IsWaiting i r w ⊎ IsSettled i r w

-- The handlers of the settings leave a pending call pending.
pub Notified-IsWaiting :
    (i : ℕ) (r : Request) (v w : Worker) → IsWaiting i r v → Notified v w → IsWaiting i r w
Notified-IsWaiting i r v w h n = record {
  inv = n.served.inv;
  pending = n.same_pending ∙ h.pending;
  served = subst (IsGood i) (sym n.same_answers) h.served;
  place = Moves-trans (before r) v.state w.state h.place n.moves;
}

waiting-IsUnderWay :
    {A : Type 0} (i : ℕ) (r : Request) (w : Worker) (o : Option (A × Worker))
    → IsWaiting i r w
    → Ensures (λ _ v. Notified w v) o
    → Ensures (λ _ v. IsUnderWay i r v) o
waiting-IsUnderWay i r w none h n = tt
waiting-IsUnderWay i r w (some (a, v)) h n = inl (Notified-IsWaiting i r w v h n)

settled-IsUnderWay :
    {A : Type 0} (i : ℕ) (r : Request) (o : Option (A × Worker))
    → Ensures (λ _ v. IsSettled i r v) o
    → Ensures (λ _ v. IsUnderWay i r v) o
settled-IsUnderWay i r none h = tt
settled-IsUnderWay i r (some (a, v)) h = inr h

at_state :
    (i : ℕ) (r : Request) (env : Env) (build : Build) (s : State) (w : Worker)
    → w.state ≡ s
    → Ensures (λ _ v. IsUnderWay i r v) (dispatch env build s w)
    → Ensures (λ _ v. IsUnderWay i r v) (dispatch env build w.state w)
at_state i r env build s w e h =
    subst (λ (t : State). Ensures (λ _ v. IsUnderWay i r v) (dispatch env build t w)) (sym e) h

-- The idle source carries out the call that is pending, by the state it finds.
pub dispatch-IsUnderWay :
    (i : ℕ) (r : Request) (env : Env) (build : Build) (w : Worker)
    → is_step r ≡ true
    → w.state_change_idle_id ≡ false
    → IsWaiting i r w
    → Moves (before r) w.state
    → Ensures (λ _ v. IsUnderWay i r v) (dispatch env build w.state w)
unfolding dispatch
dispatch-IsUnderWay i (start_program command) env build w k q h p = cc
dispatch-IsUnderWay i (initialize u) env build w k q h (inl e) =
    at_state i (initialize u) env build State.none_state w e (
      settled-IsUnderWay i (initialize u) _
        (do_setup-IsSettled i u env build w e h.inv (h.pending, h.served)))
dispatch-IsUnderWay i authenticate env build w k q h (inl e) =
    at_state i authenticate env build State.setup_complete w e (
      settled-IsUnderWay i authenticate _
        (do_authenticate-IsSettled i env w e h.inv (h.pending, h.served)))
dispatch-IsUnderWay i authorize env build w k q h (inl e) =
    at_state i authorize env build State.authenticated w e (
      settled-IsUnderWay i authorize _
        (do_authorize-IsSettled i env w e h.inv (h.pending, h.served)))
dispatch-IsUnderWay i establish_credentials env build w k q h (inl e) =
    at_state i establish_credentials env build State.authorized w e (
      settled-IsUnderWay i establish_credentials _
        (do_accredit-IsSettled i env build w e h.inv (h.pending, h.served)))
dispatch-IsUnderWay i open_session env build w k q h (inl e) =
    at_state i open_session env build State.accredited w e
      (waiting-IsUnderWay i open_session w _ h (save-Notified env w e h.inv))
dispatch-IsUnderWay i open_session env build w k q h (inr (d, e)) =
    at_state i open_session env build State.account_details_saved w e (
      settled-IsUnderWay i open_session _
        (do_open_session-IsSettled i env build w e q h.inv (h.pending, h.served)))
dispatch-IsUnderWay i r env build w k q h (inr (d, e)) = cc

taken-IsWaiting :
    (i : ℕ) (r : Request) (w : Worker)
    → IsWaiting i r w
    → IsWaiting i r (record w { state_change_idle_id = false })
taken-IsWaiting i r w h = record {
  inv = (let v = h.inv in ground arith);
  pending = h.pending;
  served = h.served;
  place = h.place;
}

idle-IsUnderWay :
    (i : ℕ) (r : Request) (env : Env) (build : Build) (w : Worker)
    → is_step r ≡ true
    → IsWaiting i r w
    → Ensures (λ _ v. IsUnderWay i r v) (handle build env WorkerEvent.idle w)
unfolding handle state_change_idle
idle-IsUnderWay i r env build w k h = go w.state_change_idle_id
  where
    go :
        (queued : Bool)
        → Ensures (λ _ v. IsUnderWay i r v) (when queued (state_change_idle env build) w)
    go false = inl h
    go true =
        dispatch-IsUnderWay i r env build (record w { state_change_idle_id = false }) k refl
          (taken-IsWaiting i r w h) h.place

-- What else happens in the worker leaves the call pending, or answers it.
own-IsUnderWay :
    (i : ℕ) (r : Request) (env : Env) (build : Build) (e : Own) (w : Worker)
    → is_step r ≡ true
    → IsWaiting i r w
    → Ensures (λ _ v. IsUnderWay i r v) (handle build env (own_event e) w)
unfolding handle
own-IsUnderWay i r env build idle w k h = idle-IsUnderWay i r env build w k h
own-IsUnderWay i r env build (user_is_loaded u) w k h =
    waiting-IsUnderWay i r w (on_user_is_loaded env u w) h
      (on_user_is_loaded-Notified env u w h.inv)

find_answer-above :
    (i : ℕ) (answers : List (ℕ × Reply)) → IsGood i answers → find_answer i answers ≡ none
find_answer-above i [] g = refl
find_answer-above i ((j, r) ∷ answers) (b, a, g) = ground (arith, find_answer-above i answers g)

-- What the daemon is told: the answer of a call that is settled, or nothing yet.
abbrev pub Told : ℕ → Request → Option Reply → Worker → Type 0
Told i r none w = IsServed w i
Told i r (some reply) w = (h : IsSettled i r w) × (h.reply ≡ reply)

waiting_answer : (i : ℕ) (r : Request) (w : Worker) → IsWaiting i r w → answer_to i w ≡ none
waiting_answer i r w h = find_answer-above i (ledger w.log).answers h.served

settled_answer :
    (i : ℕ) (r : Request) (w : Worker) (h : IsSettled i r w) → answer_to i w ≡ some h.reply
settled_answer i r w h = ap (find_answer i) h.answered ∙ found
  where
    found : find_answer i ((i, h.reply) ∷ h.earlier) ≡ some h.reply
    found = ground arith

settled-Told : (i : ℕ) (r : Request) (w : Worker) (h : IsSettled i r w) → Told i r (some h.reply) w
settled-Told i r w h = (h, refl)

pub await-Told :
    (i : ℕ) (r : Request) (build : Build) (es : List (Env × Own)) (w : Worker)
    → is_step r ≡ true
    → IsUnderWay i r w
    → Ensures (λ a v. Told i r a v) (await build i es w)
unfolding await
await-Told i r build [] w k (inl h) =
    subst (λ (a : Option Reply). Told i r a w) (sym (waiting_answer i r w h)) h.served
await-Told i r build [] w k (inr h) =
    subst (λ (a : Option Reply). Told i r a w) (sym (settled_answer i r w h)) (settled-Told i r w h)
await-Told i r build ((env, e) ∷ es) w k (inr h) =
    subst
      (λ (a : Option Reply).
        Ensures (λ b v. Told i r b v)
          (unless_answered a (handle build env (own_event e) >> await build i es) w))
      (sym (settled_answer i r w h)) (settled-Told i r w h)
await-Told i r build ((env, e) ∷ es) w k (inl h) =
    subst
      (λ (a : Option Reply).
        Ensures (λ b v. Told i r b v)
          (unless_answered a (handle build env (own_event e) >> await build i es) w))
      (sym (waiting_answer i r w h))
      (Ensures-bind (λ _ v. IsUnderWay i r v) (λ a v. Told i r a v) (handle build env (own_event e))
        (λ _. await build i es) w (own-IsUnderWay i r env build e w k h)
        (λ _ v j. await-Told i r build es v k j))
