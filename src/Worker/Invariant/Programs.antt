-- ===== src/Worker/Invariant/Programs.antt =====
-- The invariant of the worker of daemon/gdm-session-worker.c, for the program of the session and its exit.
use gdm.Base.{
  ℕ, ◌≡◌, ◌∙◌, ◌≢◌, refl, String, Option, none, some, Bool, false, ◌&&◌, List, ◌∷◌, arith, when,
  Ensures,
}
use gdm.Worker.{State, rank, Effect, Worker, Env, Build, PamCode, emit}
use gdm.Worker.Ledger.{ledger}
use gdm.Worker.Frame.{Frame}
use gdm.Worker.Pam.{uninitialize_pam}
use gdm.Worker.Session.{
  fork_program, after_fork, report_exit, start_session, session_worker_child_watch, is_new_vt,
  on_seat0_with_vts,
}
use gdm.Worker.Invariant.{
  Inv, Evidence, Frame-Evidence, Sound, finish-Sound, uninitialize-Sound, Frame-then,
}
use gdm.Worker.Invariant.Sessions.{Sound-Frame, set_state-Sound}

-- All that a fork needs has been granted.
forked-Evidence :
    (arguments : List String) (pid : ℕ) (w : Worker) (s : State)
    → rank s ≡ 7
    → s ≢ State.session_opened
    → w.state ≡ State.session_opened
    → w.is_reauth_session ≡ false
    → Evidence w
    → Evidence (record w { state = s; log = Effect.fork_session arguments pid ∷ w.log })
unfolding ledger
forked-Evidence arguments pid w s r n o a e = ground arith

fork_program-Sound :
    (arguments : List String) (pid : ℕ) (w : Worker)
    → w.state ≡ State.session_opened
    → w.is_reauth_session ≡ false
    → Inv w
    → Ensures (λ _ v. Sound w v) (fork_program arguments pid w)
unfolding fork_program ledger
fork_program-Sound arguments pid w s r i =
    set_state-Sound State.session_started w forked
      (Frame-Evidence same
        (forked-Evidence arguments pid w State.session_started refl (λ z. cc) s r i.evidence))
      (ground arith) (ground arith)
  where
    forked : Worker
    forked = record w {
      session_tty = false;
      child_pid = some pid;
      log = Effect.fork_session arguments pid ∷ w.log;
    }

    same :
        Frame
          (record w {
            state = State.session_started;
            log = Effect.fork_session arguments pid ∷ w.log;
          })
          (record forked { state = State.session_started })
    same = ground arith

after_fork-Sound :
    (env : Env) (arguments : List String) (result : Option ℕ) (w : Worker)
    → w.state ≡ State.session_opened
    → w.is_reauth_session ≡ false
    → Inv w
    → Ensures (λ _ v. Sound w v) (after_fork env arguments result w)
unfolding after_fork
after_fork-Sound env arguments none w s r i =
    finish-Sound env PamCode.pam_abort _ w i.evidence (λ z. ground arith) (λ z. cc)
after_fork-Sound env arguments (some pid) w s r i =
    ground (arith, fork_program-Sound arguments pid w s r i)

jump-Frame :
    (b : Bool) (vt : ℕ) (w : Worker)
    → Ensures (λ _ v. Frame w v) (when b (emit (Effect.jump_to_vt vt)) w)
unfolding ledger
jump-Frame b vt w = ground arith

pub start_session-Sound :
    (env : Env) (w : Worker)
    → w.state ≡ State.session_opened
    → w.is_reauth_session ≡ false
    → Inv w
    → Ensures (λ _ v. Sound w v) (start_session env w)
unfolding start_session
start_session-Sound env w s r i =
    Frame-then
      (when (on_seat0_with_vts w && is_new_vt w.display_mode)
        (emit (Effect.jump_to_vt w.session_vt)))
      _ w i (jump-Frame (on_seat0_with_vts w && is_new_vt w.display_mode) w.session_vt w)
      λ _ v f j.
        after_fork-Sound env w.arguments env.fork_result v (f.same_state ∙ s) (f.same_reauth ∙ r) j

report_exit-Frame :
    (build : Build) (pid status : ℕ) (w : Worker)
    → Ensures (λ _ v. Frame w v) (report_exit build pid status w)
unfolding report_exit ledger
report_exit-Frame build pid status w = ground arith

pub child_watch-Sound :
    (env : Env) (build : Build) (pid status : ℕ) (w : Worker)
    → Inv w
    → Ensures (λ _ v. Sound w v) (session_worker_child_watch env build pid status w)
unfolding session_worker_child_watch
child_watch-Sound env build pid status w i =
    Sound-Frame w (uninitialize_pam env PamCode.success) _ w
      (uninitialize-Sound env PamCode.success w i.evidence (λ z. ground arith))
      λ _ v. report_exit-Frame build pid status v
