-- ===== src/Login/Histories.antt =====
-- A session of daemon/gdm-session.c and its worker, daemon/gdm-session-worker.c, over whole
-- conversations.
use gdm.Base.{
  ℕ, suc, ◌≡◌, ◌≢◌, ◌⊎◌, ◌∙◌, inl, inr, refl, sym, ap, subst, Option, none, some, Bool, true, false,
  List, [], ◌∷◌, Bytes, arith, Ensures,
}
use gdm.Worker.{State, Reply, Worker, Build}
use gdm.Worker.Ledger.{ledger, granted}
use gdm.Worker.Loop.{new}
use gdm.Worker.Invariant.{Inv}
use gdm.Worker.Invariant.Events.{new-Inv}
use gdm.Session.State.{Request, initialize, open_session, start_program, GdmSession}
use gdm.Login.{Site, Round, exchange, resume, sent, newest, play}
use gdm.Login.Exchange.{IsGood, IsSettled, before, after, is_step, is_refusal, is_error}
use gdm.Login.Rounds.{Told}
use gdm.Login.Calls.{IsReady, exchange-Told}
use gdm.Login.Meanwhile.{all_meanwhile, are_meanwhile, resume-Follows}
use gdm.Login.Callbacks.{openings, Follows, newest_same, newest_next}

-- None of the worker's replies is a refusal.
abbrev pub HaveNoRefusal : List (ℕ × Reply) → Type 0
HaveNoRefusal [] = Unit {0}
HaveNoRefusal ((i, r) ∷ answers) = (is_refusal r ≡ false) × HaveNoRefusal answers

-- PAM has granted on the worker's handle all that a session needs, and the session is open. A
-- reauthentication passes over an account check and credentials that are refused.
pub record IsOpen (w : Worker) : Type 0 where
  pub state : w.state ≡ State.session_opened
  pub handle : w.pam_handle ≡ true
  pub authenticated : (ledger w.log).authenticated ≡ true
  pub session : (ledger w.log).session ≡ true
  pub login : w.is_reauth_session ≡ false → granted (ledger w.log) ≡ true

opened-IsOpen : (w : Worker) → Inv w → w.state ≡ State.session_opened → IsOpen w
opened-IsOpen w i e = ground arith

good-HaveNoRefusal : (i : ℕ) (answers : List (ℕ × Reply)) → IsGood i answers → HaveNoRefusal answers
good-HaveNoRefusal i [] g = tt
good-HaveNoRefusal i ((j, r) ∷ answers) (b, a, g) = (a, good-HaveNoRefusal i answers g)

IsGood-suc : (i : ℕ) (answers : List (ℕ × Reply)) → IsGood i answers → IsGood (suc i) answers
IsGood-suc i [] g = tt
IsGood-suc i ((j, r) ∷ answers) (b, a, g) = (omega arith, a, IsGood-suc i answers g)

-- Where a conversation that began with `o` openings may end.
abbrev Outcome : ℕ → ℕ → GdmSession → Worker → Type 0
Outcome n o s w = HaveNoRefusal (ledger w.log).answers × ((openings n s.log ≡ o) ⊎ IsOpen w)

abbrev Ended : ℕ → ℕ → Option (GdmSession × Worker) → Type 0
Ended n o none = Unit {0}
Ended n o (some (s, w)) = Outcome n o s w

-- A call is owed that the worker is ready for, or the conversation is over.
abbrev Owed : ℕ → ℕ → ℕ → Option Request → GdmSession → Worker → Type 0
Owed n o i none s w = Outcome n o s w
Owed n o i (some r) s w = IsReady i r w × (is_step r ≡ true) × (openings n s.log ≡ o)

settled-answers :
    (i : ℕ) (r : Request) (w : Worker) → IsSettled i r w → IsGood (suc i) (ledger w.log).answers
settled-answers i r w h =
    subst (IsGood (suc i)) (sym h.answered)
      (omega arith, h.accepted, IsGood-suc i h.earlier h.served)

-- After Open no call follows.
last_call : (r r' : Request) → before r' ≡ after r → is_step r' ≡ true → r ≡ open_session → ⊥
last_call open_session (start_program command) b k e = cc
last_call r r' b k e = cc

-- What an answer and its callback leave.
next-Owed :
    (n o i : ℕ) (r : Request) (reply : Reply) (s s' : GdmSession) (w : Worker)
    → openings n s.log ≡ o
    → Told i r (some reply) w
    → Follows n r reply s s'
    → Owed n o (suc i) (newest (sent n s.log) (sent n s'.log)) s' w
next-Owed n o i r reply s s' w p (h, q) f = go f.calls
  where
    good : IsGood (suc i) (ledger w.log).answers
    good = settled-answers i r w h

    reached : is_error reply ≡ false → w.state ≡ after r
    reached e = h.reached (ap is_error q ∙ e)

    opening : (openings n s'.log ≡ o) ⊎ IsOpen w
    opening = elim f.opens [
      | inl e ↦ inl (e ∙ p)
      | inr (e, ok) ↦ inr (opened-IsOpen w h.inv (reached ok ∙ ap after e))
    ]

    unopened : (r' : Request) → before r' ≡ after r → is_step r' ≡ true → openings n s'.log ≡ o
    unopened r' b k = elim f.opens [ inl e ↦ e ∙ p | inr (e, ok) ↦ absurd (last_call r r' b k e) ]

    go :
        ((sent n s'.log ≡ sent n s.log)
          ⊎ ((is_error reply ≡ false)
              × ((r' : Request) × (sent n s'.log ≡ r' ∷ sent n s.log)
                  × (before r' ≡ after r)
                  × (is_step r' ≡ true))))
        → Owed n o (suc i) (newest (sent n s.log) (sent n s'.log)) s' w
    go (inl e) =
        subst (λ (c : Option Request). Owed n o (suc i) c s' w)
          (sym (newest_same (sent n s.log) (sent n s'.log) e))
          (good-HaveNoRefusal (suc i) (ledger w.log).answers good, opening)
    go (inr (ok, (r', e, b, k))) =
        subst (λ (c : Option Request). Owed n o (suc i) c s' w)
          (sym (newest_next (sent n s.log) (sent n s'.log) r' e))
          (
            record { inv = h.inv; free = h.settled; served = good; place = reached ok ∙ sym b },
            k,
            unopened r' b k,
          )

owed-Outcome :
    (n o i : ℕ) (c : Option Request) (s : GdmSession) (w : Worker)
    → Owed n o i c s w
    → Outcome n o s w
owed-Outcome n o i none s w h = h
owed-Outcome n o i (some r) s w (h, k, e) =
    (good-HaveNoRefusal i (ledger w.log).answers h.served, inl e)

play-Ended :
    (site : Site) (build : Build) (n o : ℕ) (rounds : List Round) (i : ℕ) (c : Option Request)
    (s : GdmSession) (w : Worker)
    → are_meanwhile rounds ≡ true
    → Owed n o i c s w
    → Ended n o (play site build n rounds i c s w)
unfolding play
play-Ended site build n o [] i c s w m h = owed-Outcome n o i c s w h
play-Ended site build n o (round ∷ rounds) i none s w m h = h
play-Ended site build n o (round ∷ rounds) i (some r) s w m (h, k, e) =
    exchanged (exchange site build s.is_program_session round i r w)
      (exchange-Told i r site s.is_program_session build round w k h)
      (λ s' v owed.
        play-Ended site build n o rounds (suc i) (newest (sent n s.log) (sent n s'.log)) s' v later
          owed)
  where
    now : all_meanwhile round.meanwhile ≡ true
    now = ground arith

    later : are_meanwhile rounds ≡ true
    later = ground arith

    called_back :
        (reply : Reply) (v : Worker) (m : Option (Unit {0} × GdmSession))
        → Told i r (some reply) v
        → Ensures (λ _ s'. Follows n r reply s s') m
        → ((s' : GdmSession)
            → Owed n o (suc i) (newest (sent n s.log) (sent n s'.log)) s' v
            → Ended n o
                (play site build n rounds (suc i) (newest (sent n s.log) (sent n s'.log)) s' v))
        → Ended n o (elim m [
          | none ↦ none
          | some (_, s') ↦
              play site build n rounds (suc i) (newest (sent n s.log) (sent n s'.log)) s' v
        ])
    called_back reply v none t f rest = tt
    called_back reply v (some (_, s')) t f rest = rest s' (next-Owed n o i r reply s s' v e t f)

    exchanged :
        (m : Option (Option Reply × Worker))
        → Ensures (λ a v. Told i r a v) m
        → ((s' : GdmSession) (v : Worker)
            → Owed n o (suc i) (newest (sent n s.log) (sent n s'.log)) s' v
            → Ended n o
                (play site build n rounds (suc i) (newest (sent n s.log) (sent n s'.log)) s' v))
        → Ended n o (elim m [
          | none ↦ none
          | some (none, w') ↦ some (s, w')
          | some (some reply, w') ↦ elim (resume n round r reply s) [
            | none ↦ none
            | some (_, s') ↦
                play site build n rounds (suc i) (newest (sent n s.log) (sent n s'.log)) s' w'
          ]
        ])
    exchanged none t rest = tt
    exchanged (some (none, v)) t rest = (good-HaveNoRefusal i (ledger v.log).answers t, inl e)
    exchanged (some (some reply, v)) t rest =
        called_back reply v (resume n round r reply s) t (resume-Follows n round r reply s k now)
          (λ s' owed. rest s' v owed)

-- A new worker, whose first call is Initialize.
new-Owed :
    (n : ℕ) (is_reauth : Bool) (username : Option Bytes) (s : GdmSession)
    → Owed n (openings n s.log) 0 (some (initialize username)) s (new is_reauth)
unfolding new ledger
new-Owed n is_reauth username s =
    (record { inv = new-Inv is_reauth; free = refl; served = tt; place = refl }, refl, refl)

-- The end of a conversation from a new worker, if none of the two processes aborts.
reached-Outcome :
    (site : Site) (build : Build) (n : ℕ) (rounds : List Round) (is_reauth : Bool)
    (username : Option Bytes) (s s' : GdmSession) (w' : Worker)
    → are_meanwhile rounds ≡ true
    → play site build n rounds 0 (some (initialize username)) s (new is_reauth) ≡ some (s', w')
    → Outcome n (openings n s.log) s' w'
reached-Outcome site build n rounds is_reauth username s s' w' m e =
    subst (Ended n (openings n s.log)) e (
      play-Ended site build n (openings n s.log) rounds 0 (some (initialize username)) s
        (new is_reauth) m (new-Owed n is_reauth username s))

-- However long a session and a new worker go on, whatever PAM, the user's settings and the session's
-- state are, and wherever it ends but in an abort of one of the two processes: if, while a call is
-- pending, the session only gets PAM's queries and their answers, the worker's reports of the user's
-- name and settings, and the greeter's choices of a session or a user, then the worker has refused none
-- of the session's calls, neither with WRONG_STATE nor with OUTSTANDING_REQUEST.
pub play-HaveNoRefusal :
    (site : Site) (build : Build) (n : ℕ) (rounds : List Round) (is_reauth : Bool)
    (username : Option Bytes) (s s' : GdmSession) (w' : Worker)
    → are_meanwhile rounds ≡ true
    → play site build n rounds 0 (some (initialize username)) s (new is_reauth) ≡ some (s', w')
    → HaveNoRefusal (ledger w'.log).answers
play-HaveNoRefusal site build n rounds is_reauth username s s' w' m e =
    (reached-Outcome site build n rounds is_reauth username s s' w' m e).0

-- Where a session goes through a conversation with a new worker, neither process aborts, and while a
-- call is pending the session only gets PAM's queries and their answers, the worker's reports of the
-- user's name and settings, and the greeter's choices of a session or a user: if the session has
-- reported, by then, an opening that it had not reported before, then the worker is in the state
-- SESSION_OPENED, its PAM handle is there, has authenticated the user and has a session open; and unless
-- it is a reauthentication's worker, the account check and the credentials have succeeded on the handle
-- too.
pub play-IsOpen :
    (site : Site) (build : Build) (n : ℕ) (rounds : List Round) (is_reauth : Bool)
    (username : Option Bytes) (s s' : GdmSession) (w' : Worker)
    → are_meanwhile rounds ≡ true
    → play site build n rounds 0 (some (initialize username)) s (new is_reauth) ≡ some (s', w')
    → openings n s'.log ≢ openings n s.log
    → IsOpen w'
play-IsOpen site build n rounds is_reauth username s s' w' m e new_opening =
    elim (reached-Outcome site build n rounds is_reauth username s s' w' m e).1 [
      | inl same ↦ absurd (new_opening same)
      | inr h ↦ h
    ]
