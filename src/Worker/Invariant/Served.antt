-- ===== src/Worker/Invariant/Served.antt =====
-- The invariant of the worker of daemon/gdm-session-worker.c, for one event, with the account of its method calls.
use gdm.Base.{ℕ, ◌+◌, ◌≡◌, ◌∙◌, Option, none, some, arith, Ensures, Ensures-bind, ◌>>=◌}
use gdm.Worker.{Reply, Worker, W}
use gdm.Worker.Ledger.{ledger}
use gdm.Worker.Frame.{Frame}
use gdm.Worker.Loop.{answer}
use gdm.Worker.Invariant.{Inv, Frame-Inv, Sound, Frame-Kept}

abbrev pub pend : Option ℕ → ℕ
pend none = 0
pend (some _) = 1

-- Replies given and owed.
abbrev pub owed : Worker → ℕ
owed w = (ledger w.log).replies + pend w.pending_invocation

-- The worker is sound, and has taken `n` method calls, each answered or pending.
pub record Served (n : ℕ) (v w : Worker) : Type 0 where
  pub inv : Inv w
  pub same_reauth : w.is_reauth_session ≡ v.is_reauth_session
  pub account : owed w ≡ n + owed v

-- The worker is sound, and its kind of session is the same.
pub record Steady (v w : Worker) : Type 0 where
  pub inv : Inv w
  pub same_reauth : w.is_reauth_session ≡ v.is_reauth_session

pub Steady-trans : {u v w : Worker} → Steady u v → Steady v w → Steady u w
Steady-trans s t = record { inv = t.inv; same_reauth = t.same_reauth ∙ s.same_reauth }

pub Steady-after :
    {A : Type 0} (u v : Worker) (r : Option (A × Worker))
    → Steady u v
    → Ensures (λ _ w. Steady v w) r
    → Ensures (λ _ w. Steady u w) r
Steady-after u v none s h = tt
Steady-after u v (some (a, w)) s h = Steady-trans s h

pub Served-trans : {n : ℕ} {u v w : Worker} → Served 0 u v → Served n v w → Served n u w
Served-trans {n} s t = record {
  inv = t.inv;
  same_reauth = t.same_reauth ∙ s.same_reauth;
  account = omega (arith, s.account, t.account);
}

pub Served-then : {n : ℕ} {u v w : Worker} → Served n u v → Served 0 v w → Served n u w
Served-then {n} s t = record {
  inv = t.inv;
  same_reauth = t.same_reauth ∙ s.same_reauth;
  account = omega (arith, s.account, t.account);
}

pub Sound-Served : {v w : Worker} → Sound v w → Served 0 v w
Sound-Served {v} {w} s = record {
  inv = s.inv;
  same_reauth = s.kept.kept_reauth;
  account = ground arith;
}

pub Served-after :
    {A : Type 0} (n : ℕ) {u v : Worker} (r : Option (A × Worker))
    → Served 0 u v
    → Ensures (λ _ w. Served n v w) r
    → Ensures (λ _ w. Served n u w) r
Served-after n none s h = tt
Served-after n (some (a, w)) s h = Served-trans s h

pub Served-bind :
    {A B : Type 0} (n : ℕ) (m : W A) (f : A → W B) (w : Worker)
    → Ensures (λ _ v. Served 0 w v) (m w)
    → ((a : A) (v : Worker) → Served 0 w v → Ensures (λ _ x. Served n v x) (f a v))
    → Ensures (λ _ x. Served n w x) ((m >>= f) w)
Served-bind n m f w h k =
    Ensures-bind (λ _ v. Served 0 w v) (λ _ x. Served n w x) m f w h
      λ a v s. Served-after n (f a v) s (k a v s)

-- The reply settles the account of the pending call.
pub answer-Served : (r : Reply) (w : Worker) → Inv w → Ensures (λ _ v. Served 0 w v) (answer r w)
unfolding ledger
answer-Served r w i = ground arith

pub Frame-Served : {v w : Worker} → Inv v → Frame v w → Served 0 v w
Frame-Served i f = Sound-Served (record { inv = Frame-Inv f i; kept = Frame-Kept f })
