-- ===== src/Worker/Invariant/Conclude.antt =====
-- The invariant of the worker of daemon/gdm-session-worker.c, for the end of each step of the conversation.
use gdm.Base.{◌≤◌, ◌≡◌, inl, inr, Bool, true, false, arith, Bool-cases, when, Ensures}
use gdm.Worker.{State, rank, Worker, Env, W, PamCode}
use gdm.Worker.Ledger.{ledger, is_success}
use gdm.Worker.Frame.{Frame, Frame-refl}
use gdm.Worker.Pam.{Failure, conclude, finish}
use gdm.Worker.Invariant.{Evidence, Sound, Kept, uninitialize-Sound}

-- Calls of PAM have been logged, and the outcome is known.
pub conclude-Sound :
    (env : Env) (code : PamCode) (s : State) (failure : Failure) (v w : Worker)
    → Kept v w
    → Evidence w
    → w.pam_handle ≡ true
    → 1 ≤ rank s
    → (is_success code ≡ true → Evidence (record w { state = s }))
    → Ensures (λ _ w'. Sound v w') (conclude env code s failure w)
unfolding conclude finish ledger
conclude-Sound env code s failure v w k e h p i = elim (Bool-cases (is_success code)) [
  | inl ok ↦ rw ok (ground (arith, i ok))
  | inr bad ↦ rw bad (ground (arith, uninitialize-Sound env code w e (λ z. cc)))
]

pub when-Frame :
    (b : Bool) (m : W (Unit {0})) (w : Worker)
    → Ensures (λ _ v. Frame w v) (m w)
    → Ensures (λ _ v. Frame w v) (when b m w)
when-Frame true m w f = f
when-Frame false m w f = Frame-refl w
