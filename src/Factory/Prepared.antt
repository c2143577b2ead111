-- ===== src/Factory/Prepared.antt =====
-- Operations on the displays and on the seats that keep the number of prepared displays on seat0
-- below a bound.
pub mod Seats
pub mod Owner
pub mod Requests
pub mod Events
pub mod Histories
use gdm.Base.{
  ℕ, zero, suc, ◌+◌, ◌≤◌, ◌==◌, ◌≡◌, refl, arith, Option, none, some, Bool, true, false, not, ◌&&◌,
  List, [], ◌∷◌, pure, read, modify, when, ◌>>=◌, Ensures, Ensures-bind,
}
use gdm.Display.{Status, number, prepared, unmanaged, managed, waiting_to_finish, finished, failed}
use gdm.Factory.{SeatDisplay, Env, World, F}
use gdm.Factory.Displays.{
  put_status, set_status, gdm_display_unmanage, gdm_display_finish, finish_idle, self_destruct,
  queue_finish, gdm_display_stop_greeter_session, create_user_session_for_display,
  set_up_greeter_session, set_up_automatic_login_session,
  set_up_automatic_login_session_if_user_exists, set_up_session, get_automatic_login_details,
  quit_plymouth, forget_session, manager_on_status_changed, update, with_status, manager_by_status,
}
use gdm.Factory.Keeps.{
  AtMost, Keeps, keeping, bind-Keeps, update-Keeps, with_display-Keeps, is_waiting,
}

module _ (b : ℕ) (env : Env) (notify : ℕ → F (Unit {0}))
    (k : (n : ℕ) → Keeps (AtMost b) (notify n)) where
  pub put_status-Keeps :
      (n : ℕ) (s : Status)
      → (number s == number prepared) ≡ false
      → Keeps (AtMost b) (put_status env notify n s)
  unfolding put_status
  put_status-Keeps n s h =
      bind-Keeps (AtMost b) _ _ (update-Keeps b n (with_status s) (λ d e. ground (arith, e, h)))
        (λ _. k n)

  pub set_status-Keeps :
      (n : ℕ) (s : Status)
      → (number s == number prepared) ≡ false
      → Keeps (AtMost b) (set_status env notify n s)
  unfolding set_status
  set_status-Keeps n s h = search (keeping, put_status-Keeps, h) depth 14 fits 3000

  pub gdm_display_unmanage-Keeps : (n : ℕ) → Keeps (AtMost b) (gdm_display_unmanage env notify n)
  unfolding gdm_display_unmanage
  gdm_display_unmanage-Keeps n = search (keeping, set_status-Keeps) depth 14 fits 3000

  pub gdm_display_finish-Keeps : (n : ℕ) → Keeps (AtMost b) (gdm_display_finish env notify n)
  unfolding gdm_display_finish
  gdm_display_finish-Keeps n = search (keeping, set_status-Keeps) depth 14 fits 3000

  pub finish_idle-Keeps : (n : ℕ) → Keeps (AtMost b) (finish_idle env notify n)
  unfolding finish_idle
  finish_idle-Keeps n = search (keeping, gdm_display_finish-Keeps) depth 14 fits 3000

  queue_finish-Keeps : (n : ℕ) → Keeps (AtMost b) (queue_finish n)
  unfolding queue_finish
  queue_finish-Keeps n = search keeping depth 14 fits 3000

  pub self_destruct-Keeps : (n : ℕ) → Keeps (AtMost b) (self_destruct env notify n)
  unfolding self_destruct
  self_destruct-Keeps n =
      search (keeping, gdm_display_unmanage-Keeps, queue_finish-Keeps) depth 14 fits 3000

  pub stop_greeter-Keeps : (n : ℕ) → Keeps (AtMost b) (gdm_display_stop_greeter_session n)
  unfolding gdm_display_stop_greeter_session
  stop_greeter-Keeps n = search keeping depth 14 fits 3000

  create_session-Keeps :
      (n uid : ℕ) → Keeps (AtMost b) (create_user_session_for_display env notify n uid)
  unfolding create_user_session_for_display
  create_session-Keeps n uid = search keeping depth 14 fits 3000

  set_up_greeter_session-Keeps : (n : ℕ) → Keeps (AtMost b) (set_up_greeter_session env notify n)
  unfolding set_up_greeter_session
  set_up_greeter_session-Keeps n =
      search (keeping, gdm_display_unmanage-Keeps, gdm_display_finish-Keeps, create_session-Keeps)
        depth 14 fits 3000

  automatic_login-Keeps : (n : ℕ) → Keeps (AtMost b) (set_up_automatic_login_session env notify n)
  unfolding set_up_automatic_login_session
  automatic_login-Keeps n = search (keeping, create_session-Keeps) depth 14 fits 3000

  pub if_user_exists-Keeps :
      (n : ℕ) → Keeps (AtMost b) (set_up_automatic_login_session_if_user_exists env notify n)
  unfolding set_up_automatic_login_session_if_user_exists
  if_user_exists-Keeps n =
      search (keeping, set_up_greeter_session-Keeps, automatic_login-Keeps) depth 14 fits 3000

  details-Keeps : (d : SeatDisplay) → Keeps (AtMost b) (get_automatic_login_details env notify d)
  unfolding get_automatic_login_details
  details-Keeps d = search keeping depth 14 fits 3000

  set_up_session-Keeps :
      (n : ℕ) (d : SeatDisplay) → Keeps (AtMost b) (set_up_session env notify n d)
  unfolding set_up_session
  set_up_session-Keeps n d =
      search (keeping, details-Keeps, set_up_greeter_session-Keeps, if_user_exists-Keeps) depth 14
        fits 3000

  quit_plymouth-Keeps :
      (t : Bool) (d : SeatDisplay) → Keeps (AtMost b) (quit_plymouth env notify t d)
  unfolding quit_plymouth
  quit_plymouth-Keeps t d = search keeping depth 14 fits 3000

  forget_session-Keeps :
      (n : ℕ) (d : SeatDisplay) → Keeps (AtMost b) (forget_session env notify n d)
  unfolding forget_session
  forget_session-Keeps n d = search (keeping, quit_plymouth-Keeps) depth 14 fits 3000

  manager_by_status-Keeps :
      (s : Status) (n : ℕ) (d : SeatDisplay) → Keeps (AtMost b) (manager_by_status env notify s n d)
  manager_by_status-Keeps prepared n d = search (keeping, set_up_session-Keeps) depth 14 fits 3000
  manager_by_status-Keeps managed n d = quit_plymouth-Keeps true d
  manager_by_status-Keeps waiting_to_finish n d = search keeping
  manager_by_status-Keeps unmanaged n d = forget_session-Keeps n d
  manager_by_status-Keeps finished n d = forget_session-Keeps n d
  manager_by_status-Keeps failed n d = forget_session-Keeps n d

  pub manager_on_status_changed-Keeps :
      (n : ℕ) → Keeps (AtMost b) (manager_on_status_changed env notify n)
  unfolding manager_on_status_changed
  manager_on_status_changed-Keeps n =
      with_display-Keeps b n _ (λ d. manager_by_status-Keeps d.state.status n d)
