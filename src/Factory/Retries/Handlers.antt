-- ===== src/Factory/Retries/Handlers.antt =====
-- The factory's handlers for a followed display that is failed, or that the manager has set up.
use gdm.Base.{
  ℕ, suc, ◌+◌, ◌%◌, ◌^◌, ◌≤◌, ◌≡◌, ltb, refl, sym, subst, arith, Option, Bool, true, false, not,
  ◌&&◌, List, ◌∷◌, Bytes, read, modify, when, ◌>>=◌,
}
use gdm.Display.{Status, number, prepared, failed}
use gdm.Factory.{SeatDisplay, Env, World, F}
use gdm.Factory.Seats.{
  seat0, ensure_display_for_seat, on_failed, factory_by_status, factory_on_status_changed,
}
use gdm.Factory.Retries.{
  Reaches, Ok, IsGreeter, bind-Reaches, with_display-Reaches, modify-Reaches, read-Reaches,
}
use gdm.Factory.Retries.Creation.{forget-Ok, loosen-Ok}
use gdm.Factory.Prepared.Seats.{same_text_iff}

next_failure : (n : ℕ) → n ≤ 5 → (n + 1) % 2 ^ 32 ≡ n + 1
next_failure n h = omega (arith, h)

module _ (env : Env) (told : ℕ → F (Unit {0})) (l : List (ℕ × Status)) (lo : ℕ)
    (k : Reaches
      (Ok env l (suc lo) 5)
      (λ _ w. Ok env l 0 6 w)
      (ensure_display_for_seat env told seat0)) where
  -- The failures are counted.
  abbrev Counted : ℕ → World → Type 0
  Counted f w = Ok env l (suc lo) 6 w × (w.num_failures ≡ f)

  count-Reaches :
      Reaches
        (Ok env l lo 5)
        (λ _ w. Ok env l (suc lo) 6 w)
        (modify (λ (w : World). record w { num_failures = (w.num_failures + 1) % 2 ^ 32 }))
  count-Reaches = record {
    reaches = λ w h. (
      h.0,
      h.1,
      h.2,
      omega (arith, next_failure w.num_failures h.4, h.3),
      omega (arith, next_failure w.num_failures h.4, h.4),
    );
  }

  failures-Reaches : Reaches (Ok env l (suc lo) 6) Counted (read (λ (w : World). w.num_failures))
  failures-Reaches = record { reaches = λ w h. (h, refl) }

  retry :
      (f : ℕ) (b : Bool)
      → ltb 5 f ≡ b
      → Reaches
          (Counted f)
          (λ _ w. Ok env l 0 6 w)
          (when (not b) (ensure_display_for_seat env told seat0))
  retry f true e = record { reaches = λ w h. loosen-Ok env l (suc lo) 6 w (omega arith) h.0 }
  retry f false e = record {
    reaches = λ w h. k.reaches w (h.0.0, h.0.1, h.0.2, h.0.3, ground (arith, e, h.1));
  }

  on_failed-Reaches :
      (d : SeatDisplay)
      → d.seat_id ≡ seat0
      → Reaches (Ok env l lo 5) (λ _ w. Ok env l 0 6 w) (on_failed env told d)
  unfolding on_failed
  on_failed-Reaches d e =
      bind-Reaches (Ok env l lo 5) (λ _ w. Ok env l lo 5 w) (λ _ w. Ok env l 0 6 w) _ _
        (modify-Reaches env l lo 5 (λ w. record w { purge_displays_id = true }) (λ w h. h))
        (λ _. go d.state.is_local)
    where
      counted :
          Reaches
            (Ok env l lo 5)
            (λ _ w. Ok env l 0 6 w)
            (modify (λ (w : World). record w { num_failures = (w.num_failures + 1) % 2 ^ 32 })
              >>= λ _. read (λ (w : World). w.num_failures) >>= λ f.
                  when (not (ltb 5 f)) (ensure_display_for_seat env told d.seat_id))
      counted =
          bind-Reaches _ (λ _ w. Ok env l (suc lo) 6 w) _ _ _ count-Reaches
            (λ _. bind-Reaches _ Counted _ _ _ failures-Reaches (λ f.
              subst
                (λ (seat : Option Bytes).
                  Reaches (Counted f) (λ _ w. Ok env l 0 6 w)
                    (when (not (ltb 5 f)) (ensure_display_for_seat env told seat)))
                (sym e) (retry f (ltb 5 f) refl)))

      go :
          (b : Bool)
          → Reaches
              (Ok env l lo 5)
              (λ _ w. Ok env l 0 6 w)
              (when b (
                modify (λ (w : World). record w { num_failures = (w.num_failures + 1) % 2 ^ 32 })
                >>= λ _. read (λ (w : World). w.num_failures) >>= λ f.
                    when (not (ltb 5 f)) (ensure_display_for_seat env told d.seat_id)))
      go true = record { reaches = λ w h. counted.reaches w h }
      go false = record { reaches = λ w h. loosen-Ok env l lo 5 w (omega arith) h }

module _ (env : Env) (told : ℕ → F (Unit {0})) (l : List (ℕ × Status)) (n lo : ℕ) where
  -- The factory's handler for a display that is failed.
  pub failed_handler-Reaches :
      Reaches
        (Ok env ((n, failed) ∷ l) (suc lo) 5)
        (λ _ w. Ok env ((n, failed) ∷ l) 0 6 w)
        (ensure_display_for_seat env told seat0)
      → Reaches
          (Ok env ((n, failed) ∷ l) lo 5)
          (λ _ w. Ok env ((n, failed) ∷ l) 0 6 w)
          (factory_on_status_changed env told n)
  unfolding factory_on_status_changed
  failed_handler-Reaches k = with_display-Reaches env l lo 5 n failed _ _ (λ d i.
      bind-Reaches I (λ _ w. I w) (λ _ w. To w) _ _ (read-Reaches I (λ w. w.is_started))
        (λ started. by_watch d i (d.is_watched && started)))
    where
      I : World → Type 0
      I = Ok env ((n, failed) ∷ l) lo 5

      To : World → Type 0
      To = Ok env ((n, failed) ∷ l) 0 6

      by_status :
          (d : SeatDisplay) (s : Status)
          → number s ≡ number failed
          → IsGreeter failed d
          → Reaches I (λ _ w. To w) (factory_by_status env told s d)
      by_status d failed e i =
          on_failed-Reaches env told ((n, failed) ∷ l) lo k d (same_text_iff d.seat_id seat0 i.1)
      by_status d _ e i = absurd (omega (arith, e))

      by_watch :
          (d : SeatDisplay)
          → IsGreeter failed d
          → (b : Bool)
          → Reaches I (λ _ w. To w) (when b (factory_by_status env told d.state.status d))
      by_watch d i true = record { reaches = λ w h. (by_status d d.state.status i.0 i).reaches w h }
      by_watch d i false = record {
        reaches = λ w h. loosen-Ok env ((n, failed) ∷ l) lo 5 w (omega arith) h;
      }

  -- The factory's handler after the manager has set the display up.
  pub ready_handler-Reaches :
      Reaches
        (Ok env ((n, prepared) ∷ l) lo 5)
        (λ _ w. Ok env l 0 6 w)
        (factory_on_status_changed env told n)
  unfolding factory_on_status_changed
  ready_handler-Reaches = with_display-Reaches env l lo 5 n prepared _ _ (λ d i.
      bind-Reaches I (λ _ w. I w) (λ _ w. Ok env l 0 6 w) _ _ (read-Reaches I (λ w. w.is_started))
        (λ started. by_watch d (d.is_watched && started) d.state.status i.0))
    where
      I : World → Type 0
      I = Ok env ((n, prepared) ∷ l) lo 5

      by_watch :
          (d : SeatDisplay) (b : Bool) (s : Status)
          → number s ≡ number prepared
          → Reaches I (λ _ w. Ok env l 0 6 w) (when b (factory_by_status env told s d))
      by_watch d true prepared e = record {
        reaches = λ w h. forget-Ok env l n prepared lo 5 w (omega arith) h;
      }
      by_watch d true _ e = absurd (omega (arith, e))
      by_watch d false s e = record {
        reaches = λ w h. forget-Ok env l n prepared lo 5 w (omega arith) h;
      }
