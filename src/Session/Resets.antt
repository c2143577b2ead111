-- ===== src/Session/Resets.antt =====
-- What a reset of daemon/gdm-session.c leaves behind.
use gdm.Base.{
  ℕ, ◌≡◌, refl, ap, ◌∙◌, Option, none, some, Bool, true, false, List, [], ◌∷◌, ◌>>◌, pure, modify,
  Bool-cases, inl, inr,
}
use gdm.Session.Types.{System}
use gdm.Session.State.{Effect, stopped, returned, stop_conflicting_session, Table, GdmSession}
use gdm.Session.Loop.{
  stop_all_now, do_reset, handle_stop_conflicting_session, handle, run, reset,
  stop_conflicting_call,
}
use gdm.Session.Order.{has_told}

-- No worker failed to be spawned.
abbrev pub IsSpawned : Table → Type 0
IsSpawned [] = Unit {0}
IsSpawned ((key, none) ∷ table) = ⊥
IsSpawned ((key, some c) ∷ table) = IsSpawned table

-- The log after every worker is stopped.
abbrev pub stopped_log : Table → List Effect → List Effect
stopped_log [] log = log
stopped_log ((key, none) ∷ table) log = stopped_log table log
stopped_log ((key, some c) ∷ table) log = stopped_log table (stopped c.number ∷ log)

stop_all_now-IsSpawned :
    (t : Table) (s : GdmSession)
    → IsSpawned t
    → stop_all_now t s ≡ some (tt, record s { log = stopped_log t s.log })
unfolding stop_all_now
stop_all_now-IsSpawned [] s h = refl
stop_all_now-IsSpawned ((key, none) ∷ t) s h = absurd h
stop_all_now-IsSpawned ((key, some c) ∷ t) s h =
    stop_all_now-IsSpawned t (record s { log = stopped c.number ∷ s.log }) h

-- What do_reset clears.
abbrev pub cleared : GdmSession → GdmSession
cleared s = record s {
  conversations = [];
  session_conversation = none;
  selected_user = none;
  choice = record s.choice { selected_session = none; saved_session = none };
  saved_language = none;
  session_opened = none;
  session_pid = none;
}

-- The session after a reset.
abbrev pub after_reset : GdmSession → GdmSession
after_reset s = cleared (record s { log = stopped_log s.conversations s.log })

do_reset-IsSpawned :
    (s : GdmSession) → IsSpawned s.conversations → do_reset s ≡ some (tt, after_reset s)
unfolding do_reset
do_reset-IsSpawned s h =
    ap (λ (r : Option (Unit {0} × GdmSession)). ((λ _. r) >> modify cleared) s)
      (stop_all_now-IsSpawned s.conversations s h)

-- The signal names no session.
abbrev pub names_none : Effect → Bool
names_none (stop_conflicting_session none) = true
names_none _ = false

stop_conflicting_unnamed :
    (i : ℕ) (s : GdmSession)
    → s.is_opened ≡ true
    → s.session_opened ≡ none
    → (s' : GdmSession) × ((handle_stop_conflicting_session i >> pure tt) s ≡ some (tt, s'))
      × (has_told names_none s'.log ≡ true)
unfolding handle_stop_conflicting_session
stop_conflicting_unnamed i s e n = elim (Bool-cases s.has_greeter) [
  | inl g ↦
      (record s { log = returned i ∷ stop_conflicting_session none ∷ s.log }, rw (e, n, g), refl)
  | inr g ↦ (record s { log = stop_conflicting_session none ∷ s.log }, rw (e, n, g), refl)
]

-- For an opened session whose workers were all spawned: after a reset, the call StopConflictingSession
-- is accepted, although no session is open any more, and its signal names no session.
pub reset_stop_conflicting :
    (sys sys' : System) (i : ℕ) (s : GdmSession)
    → IsSpawned s.conversations
    → s.is_opened ≡ true
    → (s' : GdmSession) × (run ((sys, reset) ∷ (sys', stop_conflicting_call i) ∷ []) s
        ≡ some (tt, s'))
      × (has_told names_none s'.log ≡ true)
unfolding run handle handle_stop_conflicting_session
reset_stop_conflicting sys sys' i s h e =
    (let (s', r, t) = stop_conflicting_unnamed i (after_reset s) e refl in
      (
        s',
        ap
              (λ (q : Option (Unit {0} × GdmSession)).
                ((λ _. q) >> (handle_stop_conflicting_session i >> pure tt)) s)
              (do_reset-IsSpawned s h)
            ∙ r,
        t,
      ))
