-- ===== src/Worker/Safety.antt =====
-- What every history of the worker of daemon/gdm-session-worker.c guarantees about the programs
-- it starts and the sessions it opens.
use gdm.Base.{
  ℕ, ◌≡◌, ◌≤◌, ◌↔◌, inl, inr, subst, String, Option, none, some, Bool, true, false, List, [], ◌∷◌,
  ◌++◌, arith, Ensures-bind, ◌>>◌, is_some, Option-cases, Ensures, Ensures-some,
}
use gdm.Worker.{State, rank, Effect, Worker, Env, Build, PamCode}
use gdm.Worker.Ledger.{Ledger, ledger, observe, granted}
use gdm.Worker.Session.{finalize, jump_back_to_initial_vt}
use gdm.Worker.Pam.{uninitialize_pam}
use gdm.Worker.Loop.{Event, run, new}
use gdm.Worker.Invariant.{Inv, Frame-Evidence, Sound, uninitialize-Sound}
use gdm.Worker.Invariant.Served.{Steady}
use gdm.Worker.Invariant.Events.{run-Steady, new-Inv}

observe_forks :
    (e : Effect) (l : Ledger) → (observe e l).forks_granted ≡ true → l.forks_granted ≡ true
unfolding observe
observe_forks e l h = ground arith

ledger-forks :
    (later earlier : List Effect)
    → (ledger (later ++ earlier)).forks_granted ≡ true
    → (ledger earlier).forks_granted ≡ true
unfolding ledger
ledger-forks [] earlier h = h
ledger-forks (e ∷ later) earlier h =
    ledger-forks later earlier (observe_forks e (ledger (later ++ earlier)) h)

fork-granted :
    (arguments : List String) (pid : ℕ) (log : List Effect)
    → (ledger (Effect.fork_session arguments pid ∷ log)).forks_granted ≡ true
    → granted (ledger log) ≡ true
unfolding ledger observe
fork-granted arguments pid log h = ground arith

reached-Steady :
    (build : Build) (es : List (Env × Event)) (is_reauth : Bool) (w : Worker)
    → run build es (new is_reauth) ≡ some (tt, w)
    → Steady (new is_reauth) w
reached-Steady build es is_reauth w e =
    Ensures-some (λ _ v. Steady (new is_reauth) v) (run build es (new is_reauth))
      (run-Steady build es (new is_reauth) (new-Inv is_reauth)) e

-- Whenever, in any history from a new worker, a program is forked, the latest pam_authenticate, the
-- latest pam_acct_mgmt or pam_chauthtok, the latest pam_setcred and the latest pam_open_session on
-- the PAM handle of that moment have all succeeded before the fork, and the session is not closed.
pub run-forks_granted :
    (build : Build) (es : List (Env × Event)) (is_reauth : Bool) (w : Worker)
    → (later earlier : List Effect) (arguments : List String) (pid : ℕ)
    → run build es (new is_reauth) ≡ some (tt, w)
    → w.log ≡ later ++ (Effect.fork_session arguments pid ∷ earlier)
    → granted (ledger earlier) ≡ true
run-forks_granted build es is_reauth w later earlier arguments pid e l =
    fork-granted arguments pid earlier (
      ledger-forks later (Effect.fork_session arguments pid ∷ earlier) (
        subst (λ log. (ledger log).forks_granted ≡ true) l
          (reached-Steady build es is_reauth w e).inv.forks_are_granted))

-- What PAM has granted on the worker's handle, for the state it is in.
pub record IsBacked (w : Worker) : Type 0 where
  pub authenticated_backed : 2 ≤ rank w.state → (ledger w.log).authenticated ≡ true
  pub authorized_backed : 3 ≤ rank w.state → (ledger w.log).authorized ≡ true
  pub credentials_backed : 4 ≤ rank w.state → (ledger w.log).credentials ≡ true
  pub session_backed : ((ledger w.log).session ≡ true) ↔ (6 ≤ rank w.state)
  pub handle_backed : (w.pam_handle ≡ true) ↔ (1 ≤ rank w.state)

-- In any history of a worker for a login, the state it ends in is backed: from AUTHENTICATED on the
-- handle's authentication has succeeded, from AUTHORIZED on its account check, from ACCREDITED on
-- its credentials, its session is open exactly from SESSION_OPENED on, and there is a handle exactly
-- where the state is not NONE.
pub run-IsBacked :
    (build : Build) (es : List (Env × Event)) (w : Worker)
    → run build es (new false) ≡ some (tt, w)
    → IsBacked w
unfolding new
run-IsBacked build es w e = backed w s.inv s.same_reauth
  where
    s : Steady (new false) w
    s = reached-Steady build es false w e

    backed : (w : Worker) → Inv w → w.is_reauth_session ≡ false → IsBacked w
    backed w i r = ground arith

-- In no history does a worker for a reauthentication fork a program.
pub run_reauth_never_forks :
    (build : Build) (es : List (Env × Event)) (w : Worker)
    → run build es (new true) ≡ some (tt, w)
    → (ledger w.log).forks ≡ 0
unfolding new
run_reauth_never_forks build es w e = s.inv.reauth_forks_nothing s.same_reauth
  where
    s : Steady (new true) w
    s = reached-Steady build es true w e

-- Nothing of PAM's is left behind.
pub record IsReleased (w : Worker) : Type 0 where
  pub no_handle : w.pam_handle ≡ false
  pub no_state : w.state ≡ State.none_state
  pub all_closed : (ledger w.log).opens ≡ (ledger w.log).closes

Sound-IsReleased : {v w : Worker} → Sound v w → w.pam_handle ≡ false → IsReleased w
Sound-IsReleased s h = ground arith

uninitialize_handle :
    (env : Env) (code : PamCode) (w : Worker)
    → Ensures (λ _ v. v.pam_handle ≡ false) (uninitialize_pam env code w)
unfolding uninitialize_pam
uninitialize_handle env code w = ground arith

uninitialize-IsReleased :
    (env : Env) (code : PamCode) (w : Worker)
    → Inv w
    → Ensures (λ _ v. IsReleased v) (uninitialize_pam env code w)
uninitialize-IsReleased env code w i =
    both (uninitialize_pam env code w)
      (uninitialize-Sound env code w i.evidence (λ h. ground arith))
      (uninitialize_handle env code w)
  where
    both :
        (r : Option (Unit {0} × Worker))
        → Ensures (λ _ v. Sound w v) r
        → Ensures (λ _ v. v.pam_handle ≡ false) r
        → Ensures (λ _ v. IsReleased v) r
    both none s h = tt
    both (some (_, v)) s h = Sound-IsReleased s h

uninitialize_returns :
    (env : Env) (code : PamCode) (w : Worker) → is_some (uninitialize_pam env code w) ≡ true
unfolding uninitialize_pam
uninitialize_returns env code w = ground arith

jump_back-IsReleased :
    (build : Build) (w : Worker)
    → IsReleased w
    → Ensures (λ _ v. IsReleased v) (jump_back_to_initial_vt build w)
unfolding jump_back_to_initial_vt ledger
jump_back-IsReleased build w r = ground arith

release-IsReleased :
    (env : Env) (build : Build) (w : Worker)
    → Inv w
    → Ensures
        (λ _ v. IsReleased v)
        ((uninitialize_pam env PamCode.success >> jump_back_to_initial_vt build) w)
release-IsReleased env build w i =
    Ensures-bind (λ _ v. IsReleased v) (λ _ v. IsReleased v) (uninitialize_pam env PamCode.success)
      (λ _. jump_back_to_initial_vt build) w (uninitialize-IsReleased env PamCode.success w i)
      λ _ v r. jump_back-IsReleased build v r

release_returns :
    (env : Env) (build : Build) (w : Worker)
    → is_some ((uninitialize_pam env PamCode.success >> jump_back_to_initial_vt build) w) ≡ true
unfolding jump_back_to_initial_vt uninitialize_pam
release_returns env build w = ground arith

-- In any history of any worker, the finalization that follows returns, and leaves no handle, the
-- state NONE, and every session that PAM has opened closed.
pub finalize-IsReleased :
    (build : Build) (es : List (Env × Event)) (is_reauth : Bool) (w : Worker) (env : Env)
    → run build es (new is_reauth) ≡ some (tt, w)
    → (is_some (finalize env build w) ≡ true) × Ensures (λ _ v. IsReleased v) (finalize env build w)
unfolding finalize ledger
finalize-IsReleased build es is_reauth w env e = elim (Option-cases w.child_pid) [
  | inl n ↦ ground (arith, release-IsReleased env build w i, release_returns env build w)
  | inr (pid, n) ↦ ground (
    arith,
    release-IsReleased env build (killed pid) (killed-Inv pid),
    release_returns env build (killed pid),
  )
]
  where
    i : Inv w
    i = (reached-Steady build es is_reauth w e).inv

    killed : ℕ → Worker
    killed pid = record w { log = Effect.terminate pid ∷ w.log }

    killed-Inv : (pid : ℕ) → Inv (killed pid)
    killed-Inv pid = record {
      evidence = Frame-Evidence (ground arith) i.evidence;
      has_handle = i.has_handle;
    }
