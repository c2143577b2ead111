-- ===== src/Factory/Prepared/Owner.antt =====
-- What the factory does when the status of a display changes, however deep the notifications nest,
-- keeps the number of prepared displays on seat0 below a bound.
use gdm.Base.{ℕ, zero, suc, ◌==◌, refl, Option, none, some, Bool, true, false, [], ◌∷◌, Bytes}
use gdm.Display.{Status, unmanaged, prepared, managed, waiting_to_finish, finished, failed}
use gdm.Factory.{SeatDisplay, Env, F}
use gdm.Factory.Store.{GdmDisplayStore}
use gdm.Factory.Seats.{
  Graphics, platform_graphics, boot_up_graphics, no_graphics, settle, udev_is_settled,
  signal_graphics_unsupported, by_graphics, ensure_new_display, activate_login_window,
  find_login_window, ensure_display_for_seat, finish_display_on_seat_if_waiting, finish_each,
  finish_waiting_displays_on_seat, on_finished, on_failed, factory_by_status,
  factory_on_status_changed, status_changed, notify,
}
use gdm.Factory.Keeps.{AtMost, Keeps, keeping, bind-Keeps, read-Keeps, when-Keeps}
use gdm.Factory.Prepared.{
  put_status-Keeps, gdm_display_unmanage-Keeps, gdm_display_finish-Keeps,
  manager_on_status_changed-Keeps,
}
use gdm.Factory.Prepared.Seats.{create_unless_there-Keeps}

module _ (c : ℕ) (env : Env) where
  settle-Keeps : (g : Graphics) → Keeps (AtMost (suc c)) (settle g)
  settle-Keeps platform_graphics = search keeping depth 14 fits 3000
  settle-Keeps boot_up_graphics = search keeping depth 14 fits 3000
  settle-Keeps no_graphics = search keeping depth 14 fits 3000

  pub udev_is_settled-Keeps : Keeps (AtMost (suc c)) (udev_is_settled env)
  unfolding udev_is_settled
  udev_is_settled-Keeps = search (keeping, settle-Keeps) depth 14 fits 3000

  signal-Keeps : Keeps (AtMost (suc c)) (signal_graphics_unsupported env)
  unfolding signal_graphics_unsupported
  signal-Keeps = search keeping depth 14 fits 3000

module _ (c : ℕ) (env : Env) (notify : ℕ → F (Unit {0}))
    (k : (n : ℕ) → Keeps (AtMost (suc c)) (notify n)) where
  by_graphics-Keeps :
      (seat : Option Bytes) (o : Option Bool)
      → Keeps (AtMost (suc c)) (by_graphics env notify seat o)
  by_graphics-Keeps seat none = search keeping
  by_graphics-Keeps seat (some false) = search (keeping, signal-Keeps) depth 14 fits 3000
  by_graphics-Keeps seat (some true) = create_unless_there-Keeps c env notify k seat

  ensure_new_display-Keeps :
      (seat : Option Bytes) → Keeps (AtMost (suc c)) (ensure_new_display env notify seat)
  unfolding ensure_new_display
  ensure_new_display-Keeps seat =
      search (keeping, udev_is_settled-Keeps, by_graphics-Keeps) depth 14 fits 3000

  activate-Keeps :
      (seat session : Option Bytes) (o : Option (ℕ × SeatDisplay))
      → Keeps (AtMost (suc c)) (activate_login_window env notify seat session o)
  activate-Keeps seat none o = search keeping
  activate-Keeps seat (some s) none = search keeping
  activate-Keeps seat (some s) (some (n, d)) =
      search (keeping, put_status-Keeps (suc c) env notify k n managed refl) depth 14 fits 3000

  find_login_window-Keeps :
      (session : Option Bytes) → Keeps (AtMost (suc c)) (find_login_window session)
  find_login_window-Keeps none = search keeping
  find_login_window-Keeps (some s) = search keeping

  pub ensure_display_for_seat-Keeps :
      (seat : Option Bytes) → Keeps (AtMost (suc c)) (ensure_display_for_seat env notify seat)
  unfolding ensure_display_for_seat
  ensure_display_for_seat-Keeps seat =
      search (keeping, find_login_window-Keeps, activate-Keeps, ensure_new_display-Keeps) depth 14
        fits 3000

  finish_display-Keeps :
      (n : ℕ) → Keeps (AtMost (suc c)) (finish_display_on_seat_if_waiting env notify n)
  unfolding finish_display_on_seat_if_waiting
  finish_display-Keeps n =
      search
        (
          keeping,
          gdm_display_unmanage-Keeps (suc c) env notify k,
          gdm_display_finish-Keeps (suc c) env notify k,
        )
        depth 14 fits 3000

  finish_each-Keeps :
      (st : GdmDisplayStore SeatDisplay) → Keeps (AtMost (suc c)) (finish_each env notify st)
  unfolding finish_each
  finish_each-Keeps [] = search keeping
  finish_each-Keeps ((n, d) ∷ st) =
      bind-Keeps (AtMost (suc c)) _ _ (read-Keeps (AtMost (suc c)) (λ w. w.changes)) (λ before.
        bind-Keeps (AtMost (suc c)) _ _ (finish_display-Keeps n) (λ _.
          bind-Keeps (AtMost (suc c)) _ _ (read-Keeps (AtMost (suc c)) (λ w. w.changes))
            (λ after. when-Keeps (AtMost (suc c)) (before == after) _ (finish_each-Keeps st))))

  pub finish_waiting-Keeps : Keeps (AtMost (suc c)) (finish_waiting_displays_on_seat env notify)
  unfolding finish_waiting_displays_on_seat
  finish_waiting-Keeps = search (keeping, finish_each-Keeps) depth 14 fits 3000

  on_finished-Keeps : (d : SeatDisplay) → Keeps (AtMost (suc c)) (on_finished env notify d)
  unfolding on_finished
  on_finished-Keeps d = search (keeping, ensure_display_for_seat-Keeps) depth 14 fits 3000

  on_failed-Keeps : (d : SeatDisplay) → Keeps (AtMost (suc c)) (on_failed env notify d)
  unfolding on_failed
  on_failed-Keeps d = search (keeping, ensure_display_for_seat-Keeps) depth 14 fits 3000

  factory_by_status-Keeps :
      (s : Status) (d : SeatDisplay) → Keeps (AtMost (suc c)) (factory_by_status env notify s d)
  factory_by_status-Keeps finished d = on_finished-Keeps d
  factory_by_status-Keeps failed d = on_failed-Keeps d
  factory_by_status-Keeps unmanaged d = search keeping
  factory_by_status-Keeps prepared d = search keeping
  factory_by_status-Keeps managed d = finish_waiting-Keeps
  factory_by_status-Keeps waiting_to_finish d = search keeping

  factory_on_status_changed-Keeps :
      (n : ℕ) → Keeps (AtMost (suc c)) (factory_on_status_changed env notify n)
  unfolding factory_on_status_changed
  factory_on_status_changed-Keeps n = search (keeping, factory_by_status-Keeps) depth 14 fits 3000

  status_changed-Keeps : (n : ℕ) → Keeps (AtMost (suc c)) (status_changed env notify n)
  unfolding status_changed
  status_changed-Keeps n =
      search
        (
          keeping,
          manager_on_status_changed-Keeps (suc c) env notify k,
          factory_on_status_changed-Keeps,
        )
        depth 14 fits 3000

pub notify-Keeps : (c : ℕ) (env : Env) (fuel n : ℕ) → Keeps (AtMost (suc c)) (notify env fuel n)
unfolding notify
notify-Keeps c env zero n = record { keeps = λ w h. tt }
notify-Keeps c env (suc f) n = status_changed-Keeps c env (notify env f) (notify-Keeps c env f) n
