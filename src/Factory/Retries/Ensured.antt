-- ===== src/Factory/Retries/Ensured.antt =====
-- When seat0 is to get a display, the run ends if the preparation of a new display does.
use gdm.Base.{ℕ, arith, Option, none, some, Bool, true, false, ◌&&◌, ◌||◌, List, ◌∷◌}
use gdm.Display.{Status, prepared}
use gdm.Factory.{graphics_unsupported, plymouth_quit, Env, World, F}
use gdm.Factory.Seats.{
  clear_uevent_handler, seat0, Graphics, platform_graphics, boot_up_graphics, no_graphics, settle,
  find_graphics, udev_is_settled, signal_graphics_unsupported, by_graphics, await_graphics,
  ensure_new_display, ensure_display_for_seat,
}
use gdm.Factory.Retries.{
  Reaches, Ok, bind-Reaches, weaken-Reaches, emit-Reaches, modify-Reaches, pure-Reaches,
  read-Reaches, when-Reaches, branch-Reaches,
}
use gdm.Factory.Retries.Calm.{IsCalm}
use gdm.Factory.Retries.Creation.{loosen-Ok, create_unless_there-Reaches}

module _ (env : Env) (calm : IsCalm env) (told : ℕ → F (Unit {0})) (l : List (ℕ × Status))
    (lo : ℕ) where
  abbrev From : World → Type 0
  From = Ok env l lo 5

  abbrev To : World → Type 0
  To = Ok env l 0 6

  signal-Reaches : Reaches From (λ _ w. From w) (signal_graphics_unsupported env)
  unfolding signal_graphics_unsupported
  signal-Reaches =
      bind-Reaches From (λ _ w. From w) (λ _ w. From w) _ _
        (emit-Reaches env l lo 5 graphics_unsupported)
        (λ _.
          bind-Reaches From (λ _ w. From w) (λ _ w. From w) _ _
            (read-Reaches From (λ w. w.hears_graphics && w.plymouth_is_running))
            (λ running. when-Reaches From running _ (
              bind-Reaches From (λ _ w. From w) (λ _ w. From w) _ _
                (emit-Reaches env l lo 5 (plymouth_quit false))
                (λ _.
                  modify-Reaches env l lo 5 (λ w. record w { plymouth_is_running = false })
                    (λ w h. h)))))

  settle-Reaches : (g : Graphics) → Reaches From (λ _ w. From w) (settle g)
  settle-Reaches platform_graphics = record { reaches = λ w h. h }
  settle-Reaches boot_up_graphics = record { reaches = λ w h. h }
  settle-Reaches no_graphics = record { reaches = λ w h. h }

  settled-Reaches : Reaches From (λ _ w. From w) (udev_is_settled env)
  unfolding udev_is_settled
  settled-Reaches =
      bind-Reaches From (λ _ w. From w) (λ _ w. From w) _ _
        (read-Reaches From (λ w. w.seat0_has_platform_graphics || w.seat0_has_boot_up_graphics))
        (λ has.
          bind-Reaches From (λ _ w. From w) (λ _ w. From w) _ _
            (read-Reaches From (λ w. w.seat0_graphics_check_timed_out))
            (λ timed_out.
              branch-Reaches From (λ _ w. From w) has _ _ (pure-Reaches From true)
                (branch-Reaches From (λ _ w. From w) timed_out _ _
                  (bind-Reaches From (λ _ w. From w) (λ _ w. From w) _ _
                    (modify-Reaches env l lo 5 clear_uevent_handler (λ w h. h))
                    (λ _. pure-Reaches From true))
                  (settle-Reaches (find_graphics env.devices)))))

  module _
      (k : (n : ℕ)
        → Reaches (Ok env ((n, prepared) ∷ l) lo 5) (λ _ w. Ok env l 0 6 w) (told n)) where
    by_graphics-Reaches :
        (o : Option Bool) → Reaches From (λ _ w. To w) (by_graphics env told seat0 o)
    by_graphics-Reaches none = record { reaches = λ w h. loosen-Ok env l lo 5 w (omega arith) h }
    by_graphics-Reaches (some false) =
        weaken-Reaches From (λ _ w. From w) (λ _ w. To w) _ signal-Reaches
          (λ _ w h. loosen-Ok env l lo 5 w (omega arith) h)
    by_graphics-Reaches (some true) = create_unless_there-Reaches env calm told l lo k

    await-Reaches : Reaches From (λ _ w. To w) (await_graphics env told seat0)
    await-Reaches = record { reaches = λ w h. loosen-Ok env l lo 5 w (omega arith) h }

    ensure_new-Reaches : Reaches From (λ _ w. To w) (ensure_new_display env told seat0)
    unfolding ensure_new_display
    ensure_new-Reaches =
        bind-Reaches From (λ _ w. From w) (λ _ w. To w) _ _ settled-Reaches
          (λ settled.
            branch-Reaches From (λ _ w. To w) settled _ _
              (bind-Reaches From (λ _ w. From w) (λ _ w. To w) _ _
                (modify-Reaches env l lo 5
                  (λ w. record w { seat0_graphics_check_timeout_id = false }) (λ w h. h))
                (λ _. by_graphics-Reaches (env.can_graphical seat0)))
              await-Reaches)

    pub ensure-Reaches : Reaches From (λ _ w. To w) (ensure_display_for_seat env told seat0)
    unfolding ensure_display_for_seat
    ensure-Reaches = record { reaches = λ w h. rw calm.no_window (ensure_new-Reaches.reaches w h) }
