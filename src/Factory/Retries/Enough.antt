-- ===== src/Factory/Retries/Enough.antt =====
-- Away from the initial VT, the retries after failures of the greeter on seat0 end.
use gdm.Base.{
  ℕ, zero, suc, ◌+◌, ◌*◌, ◌≤◌, ◌==◌, ◌≡◌, refl, arith, Option, none, some, false, List, [], ◌∷◌,
  inl, inr,
}
use gdm.Display.{Status, prepared, finished, failed}
use gdm.Factory.{Env, World, F}
use gdm.Factory.Seats.{
  seat0, ensure_display_for_seat, factory_on_status_changed, status_changed, notify,
}
use gdm.Factory.Retries.{Reaches, Arrives, Ok, bind-Reaches, weaken-Reaches}
use gdm.Factory.Retries.Manager.{SetUp, prepared-Reaches, failed-Reaches, done-Reaches}
use gdm.Factory.Retries.Calm.{IsCalm}
use gdm.Factory.Retries.Calm.{finished_handler-Reaches}
use gdm.Factory.Retries.Creation.{forget-Ok}
use gdm.Factory.Retries.Ensured.{ensure-Reaches}
use gdm.Factory.Retries.Handlers.{failed_handler-Reaches, ready_handler-Reaches}

-- Nothing is left to show where the failures are too many already.
spent :
    (env : Env) (l : List (ℕ × Status)) (lo : ℕ) (J : Unit {0} → World → Type 0) (m : F (Unit {0}))
    → 6 ≤ lo
    → Reaches (Ok env l lo 5) J m
spent env l lo J m e = record { reaches = λ w h. absurd (omega (arith, e, h.3, h.4)) }

module _ (env : Env) (calm : IsCalm env) where
  -- What is to be shown of a notification, by the status of its display and the fuel.
  abbrev EndsFinished : ℕ → Type 0
  EndsFinished f =
      (l : List (ℕ × Status)) (n : ℕ)
      → 1 ≤ f
      → Reaches (Ok env ((n, finished) ∷ l) 0 6) (λ _ w. Ok env ((n, finished) ∷ l) 0 6 w)
          (notify env f n)

  abbrev EndsFailed : ℕ → Type 0
  EndsFailed f =
      (l : List (ℕ × Status)) (n lo : ℕ)
      → 11 ≤ f + 2 * lo
      → Reaches (Ok env ((n, failed) ∷ l) lo 5) (λ _ w. Ok env ((n, failed) ∷ l) 0 6 w)
          (notify env f n)

  abbrev EndsPrepared : ℕ → Type 0
  EndsPrepared f =
      (l : List (ℕ × Status)) (n lo : ℕ)
      → 12 ≤ f + 2 * lo
      → Reaches (Ok env ((n, prepared) ∷ l) lo 5) (λ _ w. Ok env l 0 6 w) (notify env f n)

  notify-EndsFinished : (f : ℕ) → EndsFinished f
  unfolding notify status_changed
  notify-EndsFinished zero l n e = absurd (omega (arith, e))
  notify-EndsFinished (suc f) l n e =
      bind-Reaches _ (λ _ w. Ok env ((n, finished) ∷ l) 0 6 w) _ _ _
        (done-Reaches env (notify env f) l n 0 6)
        (λ _. finished_handler-Reaches env calm (notify env f) l n 0 6)

  notify-EndsFailed : (f : ℕ) → EndsPrepared f → EndsFailed (suc f)
  unfolding notify status_changed
  notify-EndsFailed f k l n lo e =
      bind-Reaches _ (λ _ w. Ok env ((n, failed) ∷ l) lo 5 w) _ _ _
        (failed-Reaches env (notify env f) l n lo 5)
        (λ _. failed_handler-Reaches env (notify env f) l n lo (
          ensure-Reaches env calm (notify env f) ((n, failed) ∷ l) (suc lo)
            (λ m. k ((n, failed) ∷ l) m (suc lo) (omega (arith, e)))))

  notify-EndsPrepared : (f : ℕ) → EndsFailed f → EndsPrepared (suc f)
  unfolding notify status_changed
  notify-EndsPrepared zero k l n lo e = spent env ((n, prepared) ∷ l) lo _ _ (omega (arith, e))
  notify-EndsPrepared (suc f) k l n lo e =
      bind-Reaches _ (λ _ w. SetUp env told l n lo failing finishing w) (λ _ w. Ok env l 0 6 w) _ _
        (prepared-Reaches env told l n lo failing finishing calm.enable calm.user)
        (λ _. record { reaches = λ w h. after w h })
    where
      told : ℕ → F (Unit {0})
      told = notify env (suc f)

      failing :
          Reaches (Ok env ((n, failed) ∷ l) lo 5) (λ _ w. Ok env ((n, failed) ∷ l) 0 6 w) (told n)
      failing = k l n lo (omega (arith, e))

      finishing :
          Reaches
            (Ok env ((n, finished) ∷ l) 0 6)
            (λ _ w. Ok env ((n, finished) ∷ l) 0 6 w)
            (told n)
      finishing = notify-EndsFinished (suc f) l n (omega arith)

      after :
          (w : World)
          → SetUp env told l n lo failing finishing w
          → Arrives (λ _ w'. Ok env l 0 6 w') (factory_on_status_changed env told n w)
      after w (inl h) = (ready_handler-Reaches env told l n lo).reaches w h
      after w (inr h) =
          (weaken-Reaches _ _ _ _ (finished_handler-Reaches env calm told l n 0 6)
              (λ _ w' i. forget-Ok env l n finished 0 6 w' (omega arith) i)).reaches
            w h

  notify_both : (f : ℕ) → EndsFailed f × EndsPrepared f
  notify_both zero = (
    λ l n lo e. spent env ((n, failed) ∷ l) lo _ _ (omega (arith, e)),
    λ l n lo e. spent env ((n, prepared) ∷ l) lo _ _ (omega (arith, e)),
  )
  notify_both (suc f) =
      (let h = notify_both f in (notify-EndsFailed f h.1, notify-EndsPrepared f h.0))

-- Where the environment is calm, the initial VT is not active and the failures are at most five, the
-- demand for a display on seat0 comes to an end, with twelve levels of nested notifications or more,
-- whichever greeters get no user: after that there are at most six failures.
pub ensure_display_for_seat_ends :
    (env : Env) (calm : IsCalm env) (fuel : ℕ) (w : World)
    → 12 ≤ fuel
    → (w.active_vt == env.initial_vt) ≡ false
    → w.num_failures ≤ 5
    → (w' : World) × (ensure_display_for_seat env (notify env fuel) seat0 w ≡ some (tt, w'))
      × (w'.num_failures ≤ 6)
ensure_display_for_seat_ends env calm fuel w e v f =
    ended (ensure_display_for_seat env (notify env fuel) seat0 w) (
      (ensure-Reaches env calm (notify env fuel) [] 0
          (λ n. (notify_both env calm fuel).1 [] n 0 (omega (arith, e)))).reaches
        w (tt, tt, v, omega arith, f))
  where
    ended :
        (r : Option (Unit {0} × World))
        → Arrives (λ _ w'. Ok env [] 0 6 w') r
        → (w' : World) × (r ≡ some (tt, w')) × (w'.num_failures ≤ 6)
    ended none h = absurd h
    ended (some (u, w')) h = (w', refl, h.4)
