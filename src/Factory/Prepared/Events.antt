-- ===== src/Factory/Prepared/Events.antt =====
-- The handlers of what happens to the daemon keep the number of prepared displays on seat0 below a
-- bound.
use gdm.Base.{ℕ, suc, refl, Option, none, some, Bool, true, false, List, [], ◌∷◌, Bytes}
use gdm.Display.{managed, waiting_to_finish}
use gdm.Factory.{SeatDisplay, Env, F}
use gdm.Factory.Seats.{notify}
use gdm.Factory.Loop.{
  Line, unreadable, again, line, Condition, maybe_stop_greeter_in_background, leave_login_window,
  reach_session, change_vt, scan_line, unless_hup, by_line, on_vt_changed, on_uevent,
  on_seat_properties_changed, on_seat0_graphics_check_timeout, ensure_each, start_monitor,
  stop_monitor, sync_seats, gdm_local_display_factory_start, gdm_local_display_factory_stop,
  gdm_manager_start, gdm_manager_stop, plymouth_quit_timeout_cb, handle_register_display,
  handle_register_session, remove_user_session, user_display, create_display_for_user_session,
}
use gdm.Factory.Keeps.{AtMost, Keeps, keeping, bind-Keeps, pure-Keeps}
use gdm.Factory.Prepared.{put_status-Keeps, gdm_display_unmanage-Keeps, gdm_display_finish-Keeps}
use gdm.Factory.Prepared.Seats.{store_display-Keeps}
use gdm.Factory.Prepared.Owner.{ensure_display_for_seat-Keeps, udev_is_settled-Keeps}
use gdm.Factory.Prepared.Requests.{delete_display-Keeps}

module _ (c : ℕ) (env : Env) (notify : ℕ → F (Unit {0}))
    (k : (n : ℕ) → Keeps (AtMost (suc c)) (notify n)) where
  stop_greeter_in_background-Keeps :
      (d : ℕ × SeatDisplay) → Keeps (AtMost (suc c)) (maybe_stop_greeter_in_background env notify d)
  unfolding maybe_stop_greeter_in_background
  stop_greeter_in_background-Keeps (n, d) =
      search (keeping, put_status-Keeps (suc c) env notify k n waiting_to_finish refl) depth 14 fits
        3000

  leave-Keeps : (vt : ℕ) → Keeps (AtMost (suc c)) (leave_login_window env notify vt)
  unfolding leave_login_window
  leave-Keeps vt = search (keeping, stop_greeter_in_background-Keeps) depth 14 fits 3000

  reach-Keeps : (tty : Bytes) (vt : ℕ) → Keeps (AtMost (suc c)) (reach_session env notify tty vt)
  unfolding reach_session
  reach-Keeps tty vt = search keeping depth 14 fits 3000

  change_vt-Keeps : (tty : Bytes) (vt : ℕ) → Keeps (AtMost (suc c)) (change_vt env notify tty vt)
  unfolding change_vt
  change_vt-Keeps tty vt =
      search (keeping, leave-Keeps, reach-Keeps, ensure_display_for_seat-Keeps c env notify k) depth
        16 fits 3000

  scan_line-Keeps : (o : Option Bytes) → Keeps (AtMost (suc c)) (scan_line env notify o)
  scan_line-Keeps none = search keeping
  scan_line-Keeps (some text) = search (keeping, change_vt-Keeps) depth 14 fits 3000

  unless_hup-Keeps :
      (hup : Bool) (o : Option Bytes) → Keeps (AtMost (suc c)) (unless_hup env notify hup o)
  unless_hup-Keeps true o = search keeping
  unless_hup-Keeps false o = scan_line-Keeps o

  by_line-Keeps : (hup : Bool) (o : Option Line) → Keeps (AtMost (suc c)) (by_line env notify hup o)
  by_line-Keeps hup none = unless_hup-Keeps hup none
  by_line-Keeps hup (some unreadable) = search keeping
  by_line-Keeps hup (some again) = search keeping
  by_line-Keeps hup (some (line text)) = unless_hup-Keeps hup text

  pub on_vt_changed-Keeps : (d : Condition) → Keeps (AtMost (suc c)) (on_vt_changed env notify d)
  unfolding on_vt_changed
  on_vt_changed-Keeps d = by_line-Keeps d.hup d.pri

  pub on_uevent-Keeps :
      (has : Bool) (action : Bytes) → Keeps (AtMost (suc c)) (on_uevent env notify has action)
  unfolding on_uevent
  on_uevent-Keeps has action =
      search (keeping, udev_is_settled-Keeps, ensure_display_for_seat-Keeps c env notify k) depth 14
        fits 3000

  pub seat_changed-Keeps :
      (seat : Option Bytes) (changed : Bool)
      → Keeps (AtMost (suc c)) (on_seat_properties_changed env notify seat changed)
  unfolding on_seat_properties_changed
  seat_changed-Keeps seat changed =
      search (keeping, delete_display-Keeps, ensure_display_for_seat-Keeps c env notify k) depth 14
        fits 3000

  pub check_timeout-Keeps : Keeps (AtMost (suc c)) (on_seat0_graphics_check_timeout env notify)
  unfolding on_seat0_graphics_check_timeout
  check_timeout-Keeps =
      search (keeping, ensure_display_for_seat-Keeps c env notify k) depth 14 fits 3000

  ensure_each-Keeps : (seats : List Bytes) → Keeps (AtMost (suc c)) (ensure_each env notify seats)
  unfolding ensure_each
  ensure_each-Keeps [] = search keeping
  ensure_each-Keeps (seat ∷ seats) =
      bind-Keeps (AtMost (suc c)) _ _ (ensure_display_for_seat-Keeps c env notify k (some seat))
        (λ _. ensure_each-Keeps seats)

  stop-Keeps : Keeps (AtMost (suc c)) (gdm_local_display_factory_stop env notify)
  unfolding gdm_local_display_factory_stop stop_monitor
  stop-Keeps = search keeping depth 14 fits 3000

  start-Keeps : Keeps (AtMost (suc c)) (gdm_local_display_factory_start env notify)
  unfolding gdm_local_display_factory_start start_monitor sync_seats
  start-Keeps = search (keeping, ensure_each-Keeps) depth 14 fits 3000

  pub manager_start-Keeps : Keeps (AtMost (suc c)) (gdm_manager_start env notify)
  unfolding gdm_manager_start
  manager_start-Keeps = search (keeping, start-Keeps) depth 14 fits 3000

  pub manager_stop-Keeps : Keeps (AtMost (suc c)) (gdm_manager_stop env notify)
  unfolding gdm_manager_stop
  manager_stop-Keeps = search (keeping, stop-Keeps) depth 14 fits 3000

  pub quit_timeout-Keeps : Keeps (AtMost (suc c)) (plymouth_quit_timeout_cb env notify)
  unfolding plymouth_quit_timeout_cb
  quit_timeout-Keeps = search keeping depth 14 fits 3000

  pub register_display-Keeps :
      (i : ℕ) (caller : Option ℕ)
      → Keeps (AtMost (suc c)) (handle_register_display env notify i caller)
  unfolding handle_register_display
  register_display-Keeps i caller =
      search (keeping, λ (n : ℕ). put_status-Keeps (suc c) env notify k n managed refl) depth 14
        fits 3000

  pub register_session-Keeps :
      (i : ℕ) (caller : Option ℕ)
      → Keeps (AtMost (suc c)) (handle_register_session env notify i caller)
  unfolding handle_register_session
  register_session-Keeps i caller = search keeping depth 16 fits 3000

  pub remove_user_session-Keeps :
      (n : ℕ) → Keeps (AtMost (suc c)) (remove_user_session env notify n)
  unfolding remove_user_session
  remove_user_session-Keeps n =
      search
        (
          keeping,
          gdm_display_unmanage-Keeps (suc c) env notify k,
          gdm_display_finish-Keeps (suc c) env notify k,
        )
        depth 14 fits 3000

-- A display for a session of a user is not prepared.
pub user_display-Keeps :
    (b : ℕ) (env : Env) (notify : ℕ → F (Unit {0})) (seat : Option Bytes) (session : Bytes)
    (uid : ℕ)
    → Keeps (AtMost b) (create_display_for_user_session env notify seat session uid)
unfolding create_display_for_user_session
user_display-Keeps b env notify seat session uid =
    bind-Keeps (AtMost b) _ _
      (store_display-Keeps b (user_display env notify seat session uid) refl)
      (λ _. pure-Keeps (AtMost b) tt)
