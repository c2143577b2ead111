-- ===== src/Worker/Invariant.antt =====
-- What holds of the worker of daemon/gdm-session-worker.c between two events: its state is backed
-- by what PAM has granted on the current handle.
pub mod Conclude
pub mod Authentication
pub mod Accreditation
pub mod Setup
pub mod Sessions
pub mod Programs
pub mod Served
pub mod Notified
pub mod Steps
pub mod Calls
pub mod Events
use gdm.Base.{
  ℕ, ◌+◌, ◌≤◌, ◌≡◌, ◌∙◌, ◌⊎◌, inl, inr, refl, String, Option, none, some, Bool, true, false, not,
  List, [], ◌∷◌, arith, leb, ltb, if◌then◌else◌, Bool-cases, Ensures, Ensures-bind, ◌>>=◌,
}
use gdm.Worker.{State, rank, Effect, Worker, Env, Build, W, PamCode}
use gdm.Worker.Ledger.{Ledger, ledger, is_success}
use gdm.Worker.Frame.{Frame, converse-Frame}
use gdm.Worker.Pam.{Failure, uninitialize_pam, finish}

pub record Evidence (w : Worker) : Type 0 where
  pub has_authenticated : 2 ≤ rank w.state → (ledger w.log).authenticated ≡ true
  pub has_authorized :
      3 ≤ rank w.state → ((ledger w.log).authorized ≡ true) ⊎ (w.is_reauth_session ≡ true)
  pub has_credentials :
      4 ≤ rank w.state → ((ledger w.log).credentials ≡ true) ⊎ (w.is_reauth_session ≡ true)
  pub has_session : (ledger w.log).session ≡ leb 6 (rank w.state)
  pub balanced :
      (ledger w.log).opens ≡ (ledger w.log).closes + (if leb 6 (rank w.state) then 1 else 0)
  pub forks_are_granted : (ledger w.log).forks_granted ≡ true
  pub reauth_forks_nothing : w.is_reauth_session ≡ true → (ledger w.log).forks ≡ 0
  pub may_fork :
      w.state ≡ State.session_opened → w.state_change_idle_id ≡ true → w.is_reauth_session ≡ false

pub record Inv (w : Worker) : Type 0 where
  pub evidence : Evidence w
  pub open evidence use *
  pub has_handle : w.pam_handle ≡ ltb 0 (rank w.state)

pub Frame-Evidence : {v w : Worker} → Frame v w → Evidence v → Evidence w
Frame-Evidence f e = ground arith

pub Frame-Inv : {v w : Worker} → Frame v w → Inv v → Inv w
Frame-Inv f i = record { evidence = Frame-Evidence f i.evidence; has_handle = ground arith }

-- What the operations below `do_` leave alone: they answer no method call and queue nothing.
pub record Kept (v w : Worker) : Type 0 where
  pub kept_reauth : w.is_reauth_session ≡ v.is_reauth_session
  pub kept_queue : w.state_change_idle_id ≡ v.state_change_idle_id
  pub kept_pending : w.pending_invocation ≡ v.pending_invocation
  pub kept_replies : (ledger w.log).replies ≡ (ledger v.log).replies
  pub kept_answers : (ledger w.log).answers ≡ (ledger v.log).answers

pub record Sound (v w : Worker) : Type 0 where
  pub inv : Inv w
  pub kept : Kept v w

pub Frame-Kept : {v w : Worker} → Frame v w → Kept v w
Frame-Kept f = ground arith

pub Kept-trans : {u v w : Worker} → Kept u v → Kept v w → Kept u w
Kept-trans f g = ground arith

pub Sound-after :
    {A : Type 0} {u v : Worker} (r : Option (A × Worker))
    → Kept u v
    → Ensures (λ _ w. Sound v w) r
    → Ensures (λ _ w. Sound u w) r
Sound-after none k s = tt
Sound-after (some (a, w)) k s = record { inv = s.inv; kept = Kept-trans k s.kept }

-- The end of a conversation, from a state that the handle need not yet agree with.
pub uninitialize-Sound :
    (env : Env) (code : PamCode) (w : Worker)
    → Evidence w
    → (w.pam_handle ≡ false → w.state ≡ State.none_state)
    → Ensures (λ _ w'. Sound w w') (uninitialize_pam env code w)
unfolding uninitialize_pam ledger
uninitialize-Sound env code w e h = ground arith

-- The label `out`: on success the invariant holds already, else the conversation ends.
pub finish-Sound :
    (env : Env) (code : PamCode) (failure : Failure) (w : Worker)
    → Evidence w
    → (w.pam_handle ≡ false → w.state ≡ State.none_state)
    → (is_success code ≡ true → Inv w)
    → Ensures (λ _ w'. Sound w w') (finish env code failure w)
unfolding finish
finish-Sound env code failure w e h i = elim (Bool-cases (is_success code)) [
  | inl ok ↦ rw ok (record { inv = i ok; kept = ground arith })
  | inr bad ↦ rw bad (ground (arith, uninitialize-Sound env code w e h))
]

-- What precedes may be a conversation, or anything else that moves nothing.
pub Frame-then :
    {A B : Type 0} (m : W A) (f : A → W B) (w : Worker)
    → Inv w
    → Ensures (λ _ v. Frame w v) (m w)
    → ((a : A) (v : Worker) → Frame w v → Inv v → Ensures (λ _ w'. Sound v w') (f a v))
    → Ensures (λ _ w'. Sound w w') ((m >>= f) w)
Frame-then m f w i h k =
    Ensures-bind (λ _ v. Frame w v) (λ _ w'. Sound w w') m f w h
      λ a v g. Sound-after (f a v) (Frame-Kept g) (k a v g (Frame-Inv g i))

-- Between the calls of one operation: the state is the old one, and is still backed.
pub record Underway (v w : Worker) : Type 0 where
  pub still : Evidence w
  pub same_state : w.state ≡ v.state
  pub same_handle : w.pam_handle ≡ v.pam_handle
  pub kept : Kept v w

pub Underway-trans : {u v w : Worker} → Underway u v → Underway v w → Underway u w
Underway-trans a b = record {
  still = b.still;
  same_state = b.same_state ∙ a.same_state;
  same_handle = b.same_handle ∙ a.same_handle;
  kept = Kept-trans a.kept b.kept;
}

pub Frame-Underway : {v w : Worker} → Evidence v → Frame v w → Underway v w
Frame-Underway e f = record {
  still = Frame-Evidence f e;
  same_state = f.same_state;
  same_handle = f.same_handle;
  kept = Frame-Kept f;
}
