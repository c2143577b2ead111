-- ===== src/Worker/Invariant/Setup.antt =====
-- The invariant of the worker of daemon/gdm-session-worker.c, for pam_start and what follows it.
use gdm.Base.{
  ◌≡◌, ◌∙◌, inl, inr, refl, String, Bool, true, not, ◌∷◌, arith, Bool-cases, when, Ensures,
  Ensures-bind, Ensures-g_assert, is_some, ◌>>=◌,
}
use gdm.Worker.{State, Effect, Worker, Env, Build, PamCode}
use gdm.Worker.Ledger.{ledger, is_success}
use gdm.Worker.Frame.{Frame}
use gdm.Worker.Pam.{
  Failure, start_conversation, configure, service_name, set_initial_items, set_up_environment,
  finish, initialize_pam,
}
use gdm.Worker.Invariant.{
  Inv, Evidence, Frame-Evidence, Sound, Sound-after, Kept, Kept-trans, finish-Sound, Frame-Kept,
}

set_initial_items-Frame :
    (env : Env) (w : Worker) → Ensures (λ _ v. Frame w v) (set_initial_items env w)
unfolding set_initial_items ledger
set_initial_items-Frame env w = ground arith

-- The worker has been set up.
record Configured (w v : Worker) : Type 0 where
  backed : Evidence v
  state : v.state ≡ State.setup_complete
  handle : v.pam_handle ≡ w.pam_handle
  kept : Kept w v

set_up_environment-Configured :
    (env : Env) (build : Build) (service : String) (w : Worker)
    → w.state ≡ State.none_state
    → Evidence w
    → Ensures (λ _ v. Configured w v) (set_up_environment env build service w)
unfolding set_up_environment ledger
set_up_environment-Configured env build service w s e = ground arith

configured-Sound :
    (env : Env) (build : Build) (code : PamCode) (service : String) (failure : Failure)
    (w v : Worker)
    → Kept w v
    → v.state ≡ State.none_state
    → v.pam_handle ≡ true
    → Evidence v
    → Ensures
        (λ _ x. Sound w x)
        (((when (is_success code) (set_up_environment env build service)) >>= λ _.
            finish env code failure)
          v)
configured-Sound env build code service failure w v k s h e = elim (Bool-cases (is_success code)) [
  | inl ok ↦ rw ok (
      Ensures-bind (λ _ x. Configured v x) (λ _ x. Sound w x) (set_up_environment env build service)
        _ v (set_up_environment-Configured env build service v s e)
        λ _ x c. Sound-after (finish env code failure x) (Kept-trans k c.kept) (
          finish-Sound env code failure x c.backed (ground arith)
            (λ _. record { evidence = c.backed; has_handle = ground arith })))
  | inr bad ↦ rw bad (
      Sound-after (finish env code failure v) k
        (finish-Sound env code failure v e (λ z. cc) (λ z. cc)))
]

configure-Sound :
    (env : Env) (build : Build) (w : Worker)
    → w.state ≡ State.none_state
    → w.pam_handle ≡ true
    → Evidence w
    → Ensures (λ _ v. Sound w v) (configure env build w)
unfolding configure
configure-Sound env build w s h e =
    Ensures-bind (λ _ v. Frame w v) (λ _ v. Sound w v) (set_initial_items env) _ w
      (set_initial_items-Frame env w)
      λ code v f.
        configured-Sound env build code (service_name v.service) _ w v (Frame-Kept f)
          (f.same_state ∙ s) (f.same_handle ∙ h) (Frame-Evidence f e)

abbrev started : Env → Bool → Worker → Worker
started env handle w = record w {
  auditor = true;
  log = Effect.pam_start env.start_code ∷ w.log;
  pam_handle = handle;
}

started-Evidence :
    (env : Env) (h : Bool) (w : Worker)
    → w.state ≡ State.none_state
    → Inv w
    → Evidence (started env h w)
unfolding ledger
started-Evidence env h w s i = ground arith

started-Kept : (env : Env) (h : Bool) (w : Worker) → Kept w (started env h w)
unfolding ledger
started-Kept env h w = record {
  kept_reauth = refl;
  kept_queue = refl;
  kept_pending = refl;
  kept_replies = refl;
  kept_answers = refl;
}

start_conversation-Sound :
    (env : Env) (build : Build) (w : Worker)
    → w.state ≡ State.none_state
    → Inv w
    → Ensures (λ _ v. Sound w v) (start_conversation env build w)
unfolding start_conversation
start_conversation-Sound env build w s i = elim (Bool-cases (is_success env.start_code)) [
  | inl ok ↦ rw ok (
      Sound-after (configure env build (given true)) (same true)
        (configure-Sound env build (given true) s refl (backed true)))
  | inr bad ↦ rw bad (
      Sound-after (finish env env.start_code _ (given env.start_sets_handle))
        (same env.start_sets_handle)
        (finish-Sound env env.start_code _ (given env.start_sets_handle)
          (backed env.start_sets_handle) (λ _. s) (λ z. cc)))
]
  where
    given : Bool → Worker
    given h = record w {
      auditor = true;
      log = Effect.pam_start env.start_code ∷ w.log;
      pam_handle = h;
    }

    backed : (h : Bool) → Evidence (given h)
    backed h = started-Evidence env h w s i

    same : (h : Bool) → Kept w (given h)
    same h = started-Kept env h w

pub initialize_pam-Sound :
    (env : Env) (build : Build) (w : Worker)
    → w.state ≡ State.none_state
    → Inv w
    → Ensures (λ _ v. Sound w v) (initialize_pam env build w)
unfolding initialize_pam
initialize_pam-Sound env build w s i =
    Ensures-g_assert (λ _ v. Sound w v) (is_some w.service) _ w
      λ _.
        Ensures-g_assert (λ _ v. Sound w v) (not w.pam_handle) (start_conversation env build) w
          λ _. start_conversation-Sound env build w s i
