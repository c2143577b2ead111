-- ===== src/Worker/Invariant/Sessions.antt =====
-- The invariant of the worker of daemon/gdm-session-worker.c, for the session that PAM opens and the program in it.
use gdm.Base.{
  ◌≡◌, ◌∙◌, refl, Option, none, some, Bool, true, false, ◌∷◌, arith, ltb, pure, Ensures,
  Ensures-bind, Ensures-g_assert, ◌>>=◌,
}
use gdm.Worker.{State, rank, Effect, Worker, Env, Build, W, PamCode, is_state}
use gdm.Worker.Ledger.{ledger, is_success}
use gdm.Worker.Frame.{Frame, set_state-Frame, Frame-refl, converse-Frame}
use gdm.Worker.Messages.{converse}
use gdm.Worker.Accounts.{set_state}
use gdm.Worker.Pam.{Failure}
use gdm.Worker.Session.{
  after_open, report_opened, fail_to_open, prepare_vt, open_if_ready, open_pam_session,
  open_session,
}
use gdm.Worker.Invariant.{
  Inv, Evidence, Frame-Inv, Sound, Sound-after, Kept, Kept-trans, uninitialize-Sound, Frame-then,
  Frame-Kept,
}

prepare_vt-Frame :
    (env : Env) (build : Build) (w : Worker) → Ensures (λ _ v. Frame w v) (prepare_vt env build w)
unfolding prepare_vt ledger
prepare_vt-Frame env build w = ground arith

report_opened-Frame : (env : Env) (w : Worker) → Ensures (λ _ v. Frame w v) (report_opened env w)
unfolding report_opened ledger
report_opened-Frame env w = ground arith

fail_to_open-Sound :
    (env : Env) (w : Worker)
    → Evidence w
    → (w.pam_handle ≡ false → w.state ≡ State.none_state)
    → Ensures (λ _ v. Sound w v) (fail_to_open env w)
unfolding fail_to_open
fail_to_open-Sound env w e h = ground (arith, uninitialize-Sound env env.open_session_code w e h)

abbrev called : PamCode → Bool → Worker → Worker
called c b w = record w { log = Effect.pam_open_session b c ∷ w.log }

called-Opened :
    (c : PamCode) (b : Bool) (w : Worker) (s : State)
    → rank s ≡ 6
    → s ≡ State.session_opened
    → w.state ≡ State.account_details_saved
    → is_success c ≡ true
    → w.state_change_idle_id ≡ false
    → Evidence w
    → Evidence (record (called c b w) { state = s })
unfolding ledger
called-Opened c b w s r z o ok q e = ground arith

called-Failed :
    (c : PamCode) (b : Bool) (w : Worker)
    → is_success c ≡ false
    → Evidence w
    → Evidence (called c b w)
unfolding ledger
called-Failed c b w bad e = ground arith

-- The result of an operation whose last part moves nothing.
pub Sound-Frame :
    {A B : Type 0} (u : Worker) (m : W A) (f : A → W B) (w : Worker)
    → Ensures (λ _ v. Sound u v) (m w)
    → ((a : A) (v : Worker) → Ensures (λ _ x. Frame v x) (f a v))
    → Ensures (λ _ x. Sound u x) ((m >>= f) w)
Sound-Frame {A} {B} u m f w h k =
    Ensures-bind (λ _ v. Sound u v) (λ _ x. Sound u x) m f w h λ a v s. go (f a v) s (k a v)
  where
    go :
        {v : Worker} (r : Option (B × Worker))
        → Sound u v
        → Ensures (λ _ x. Frame v x) r
        → Ensures (λ _ x. Sound u x) r
    go none s f = tt
    go (some (b, x)) s f = record {
      inv = Frame-Inv f s.inv;
      kept = Kept-trans s.kept (Frame-Kept f);
    }

-- Evidence for the new state makes the change of state sound.
pub set_state-Sound :
    (s : State) (u w : Worker)
    → Evidence (record w { state = s })
    → w.pam_handle ≡ ltb 0 (rank s)
    → Kept u w
    → Ensures (λ _ v. Sound u v) (set_state s w)
set_state-Sound s u w e h k = go (set_state s w) (set_state-Frame s w)
  where
    moved : Worker
    moved = record w { state = s }

    backed : Inv moved
    backed = record { evidence = e; has_handle = h }

    go :
        (r : Option (Unit {0} × Worker))
        → Ensures (λ _ v. Frame moved v) r
        → Ensures (λ _ v. Sound u v) r
    go none f = tt
    go (some (_, v)) f = record { inv = Frame-Inv f backed; kept = ground arith }

report_opened-then :
    (env : Env) (w : Worker)
    → Ensures {A = Failure} (λ _ v. Frame w v) ((report_opened env >>= λ _. pure none) w)
report_opened-then env w = ground (arith, report_opened-Frame env w)

after_open-Sound :
    (env : Env) (b ok : Bool) (u w : Worker)
    → is_success env.open_session_code ≡ ok
    → w.state ≡ State.account_details_saved
    → w.state_change_idle_id ≡ false
    → Inv w
    → Kept u w
    → Ensures (λ _ v. Sound u v) (after_open env ok (called env.open_session_code b w))
unfolding after_open ledger
after_open-Sound env b true u w ok s q i k =
    Sound-Frame u (set_state State.session_opened) _ (called env.open_session_code b w)
      (set_state-Sound State.session_opened u (called env.open_session_code b w)
        (called-Opened env.open_session_code b w State.session_opened refl refl s ok q i.evidence)
        (ground arith) (ground arith))
      λ _ v. report_opened-then env v
after_open-Sound env b false u w ok s q i k =
    Sound-after (fail_to_open env (called env.open_session_code b w)) (ground arith) (
      fail_to_open-Sound env (called env.open_session_code b w)
        (called-Failed env.open_session_code b w ok i.evidence) (λ z. ground arith))

open_pam_session-Sound :
    (env : Env) (w : Worker)
    → w.state ≡ State.account_details_saved
    → w.state_change_idle_id ≡ false
    → Inv w
    → Ensures (λ _ v. Sound w v) (open_pam_session env w)
unfolding open_pam_session
open_pam_session-Sound env w s q i =
    Frame-then (converse env env.conversation) _ w i
      (converse-Frame env env.conversation w (ground arith))
      λ _ v f j.
        after_open-Sound env w.is_program_session (is_success env.open_session_code) v v refl
          (f.same_state ∙ s) (f.same_queue ∙ q) j (ground arith)

open_if_ready-Sound :
    (env : Env) (ready : Bool) (w : Worker)
    → w.state ≡ State.account_details_saved
    → w.state_change_idle_id ≡ false
    → Inv w
    → Ensures (λ _ v. Sound w v) (open_if_ready env ready w)
unfolding open_if_ready
open_if_ready-Sound env true w s q i = open_pam_session-Sound env w s q i
open_if_ready-Sound env false w s q i = record { inv = i; kept = Frame-Kept (Frame-refl w) }

pub open_session-Sound :
    (env : Env) (build : Build) (w : Worker)
    → w.state ≡ State.account_details_saved
    → w.state_change_idle_id ≡ false
    → Inv w
    → Ensures (λ _ v. Sound w v) (open_session env build w)
unfolding open_session
open_session-Sound env build w s q i =
    Ensures-g_assert (λ _ v. Sound w v) (is_state w.state State.account_details_saved) _ w
      λ _.
        Ensures-g_assert (λ _ v. Sound w v) env.euid_is_root _ w
          λ _.
            Frame-then (prepare_vt env build) (open_if_ready env) w i (prepare_vt-Frame env build w)
              λ ready v f j. open_if_ready-Sound env ready v (f.same_state ∙ s) (f.same_queue ∙ q) j
