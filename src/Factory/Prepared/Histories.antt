-- ===== src/Factory/Prepared/Histories.antt =====
-- Every history of the daemon's displays: how many wait for a login on seat0.
use gdm.Base.{ℕ, suc, ◌≤◌, ◌≡◌, refl, ap, subst, ◌∙◌, arith, some, Bool, List, [], ◌∷◌, Ensures}
use gdm.Factory.{SeatDisplay, Env, World, F}
use gdm.Factory.Store.{GdmDisplayStore}
use gdm.Factory.Seats.{notify}
use gdm.Factory.Loop.{
  Event, where_installed, handle, run, manager_started, manager_stopped, seat_activated,
  seat_removed, seat_changed, uevent, vt_changed, graphics_check_timed_out, finish_timed_out,
  plymouth_timed_out, purge_queued, greeter_opened, greeter_ended, idle_finished, user_loaded,
  session_ended, user_session_opened, register_display, register_session, create_transient,
  create_user, destroy_user, create_remote_user, create_remote,
}
use gdm.Factory.Keeps.{
  AtMost, Keeps, Leads, Keeps-Leads, bind-Leads, keeping, waiting, when-Keeps, bind-Keeps,
  read-Keeps,
}
use gdm.Factory.Prepared.{self_destruct-Keeps, finish_idle-Keeps, if_user_exists-Keeps}
use gdm.Factory.Prepared.Owner.{notify-Keeps, ensure_display_for_seat-Keeps, finish_waiting-Keeps}
use gdm.Factory.Prepared.Requests.{
  delete_display-Keeps, purge_displays-Keeps, create_transient-Leads, create_user-Leads,
  destroy_user-Keeps, create_remote_display-Keeps, create_remote_user-Keeps,
}
use gdm.Factory.Prepared.Events.{
  on_vt_changed-Keeps, on_uevent-Keeps, seat_changed-Keeps, check_timeout-Keeps,
  manager_start-Keeps, manager_stop-Keeps, quit_timeout-Keeps, register_display-Keeps,
  register_session-Keeps, remove_user_session-Keeps, user_display-Keeps,
}

-- The bound after an event: a client may ask for a display more.
abbrev pub bound : Event → ℕ → ℕ
bound (create_transient i) b = suc b
bound (create_user i user) b = suc b
bound _ b = b

abbrev pub bound_after : List (Env × Event) → ℕ → ℕ
bound_after [] b = b
bound_after ((env, e) ∷ es) b = bound_after es (bound e b)

-- How many displays on seat0 clients ask for.
abbrev pub requests : List (Env × Event) → ℕ
requests es = bound_after es 0

module _ (c : ℕ) (env : Env) (fuel : ℕ) where
  abbrev I : World → Type 0
  I = AtMost (suc c)

  abbrev told : ℕ → F (Unit {0})
  told = notify env fuel

  tells : (n : ℕ) → Keeps I (told n)
  tells = notify-Keeps c env fuel

  installed-Keeps :
      (f : World → Bool) (m : F (Unit {0})) → Keeps I m → Keeps I (where_installed f m)
  installed-Keeps f m k =
      bind-Keeps I _ _ (read-Keeps I f) (λ installed. when-Keeps I installed m k)

  handle-Leads : (e : Event) → Leads I (λ _ w. AtMost (bound e (suc c)) w) (handle env told e)
  unfolding handle
  handle-Leads manager_started = Keeps-Leads I _ (manager_start-Keeps c env told tells)
  handle-Leads manager_stopped = Keeps-Leads I _ (manager_stop-Keeps c env told tells)
  handle-Leads (seat_activated seat) =
      Keeps-Leads I _
        (installed-Keeps _ _ (ensure_display_for_seat-Keeps c env told tells (some seat)))
  handle-Leads (seat_removed seat) =
      Keeps-Leads I _ (installed-Keeps _ _ (delete_display-Keeps (suc c) (some seat)))
  handle-Leads (seat_changed seat changed) =
      Keeps-Leads I _ (installed-Keeps _ _ (seat_changed-Keeps c env told tells seat changed))
  handle-Leads (uevent has action) =
      Keeps-Leads I _ (installed-Keeps _ _ (on_uevent-Keeps c env told tells has action))
  handle-Leads (vt_changed d) =
      Keeps-Leads I _
        (search (keeping, installed-Keeps, on_vt_changed-Keeps c env told tells) depth 14 fits 3000)
  handle-Leads graphics_check_timed_out =
      Keeps-Leads I _ (installed-Keeps _ _ (check_timeout-Keeps c env told tells))
  handle-Leads finish_timed_out =
      Keeps-Leads I _ (installed-Keeps _ _ (finish_waiting-Keeps c env told tells))
  handle-Leads plymouth_timed_out =
      Keeps-Leads I _ (installed-Keeps _ _ (quit_timeout-Keeps c env told tells))
  handle-Leads purge_queued = Keeps-Leads I _ (installed-Keeps _ _ (purge_displays-Keeps (suc c)))
  handle-Leads (greeter_opened n session) = Keeps-Leads I _ (search keeping depth 14 fits 3000)
  handle-Leads (greeter_ended n) =
      Keeps-Leads I _
        (search (keeping, self_destruct-Keeps (suc c) env told tells) depth 14 fits 3000)
  handle-Leads (idle_finished n) =
      Keeps-Leads I _
        (search (keeping, finish_idle-Keeps (suc c) env told tells) depth 14 fits 3000)
  handle-Leads (user_loaded n) = Keeps-Leads I _ (
      search (keeping, installed-Keeps, if_user_exists-Keeps (suc c) env told tells) depth 14 fits
        3000)
  handle-Leads (session_ended n) = Keeps-Leads I _ (remove_user_session-Keeps c env told tells n)
  handle-Leads (user_session_opened seat session uid) =
      Keeps-Leads I _ (user_display-Keeps (suc c) env told seat session uid)
  handle-Leads (register_display i caller) =
      Keeps-Leads I _ (register_display-Keeps c env told tells i caller)
  handle-Leads (register_session i caller) =
      Keeps-Leads I _ (register_session-Keeps c env told tells i caller)
  handle-Leads (create_transient i) = create_transient-Leads (suc c) env fuel i
  handle-Leads (create_user i user) = create_user-Leads (suc c) env fuel i user
  handle-Leads (destroy_user i user) = Keeps-Leads I _ (destroy_user-Keeps (suc c) env fuel i user)
  handle-Leads (create_remote_user i user) =
      Keeps-Leads I _ (create_remote_user-Keeps c env fuel i user)
  handle-Leads (create_remote i has_id) =
      Keeps-Leads I _ (create_remote_display-Keeps c env fuel i has_id)

run-Leads :
    (fuel c : ℕ) (es : List (Env × Event))
    → Leads (AtMost (suc c)) (λ _ w. AtMost (bound_after es (suc c)) w) (run fuel es)
unfolding run
run-Leads fuel c [] = record { leads = λ w h. h }
run-Leads fuel c ((env, e) ∷ es) =
    bind-Leads (AtMost (suc c)) (λ _ w. AtMost (bound e (suc c)) w) _ _ _
      (handle-Leads c env fuel e) (λ _. go e (λ b. run-Leads fuel b es))
  where
    go :
        (e : Event)
        → ((b : ℕ)
            → Leads (AtMost (suc b)) (λ _ w. AtMost (bound_after es (suc b)) w) (run fuel es))
        → Leads
            (AtMost (bound e (suc c)))
            (λ _ w. AtMost (bound_after es (bound e (suc c))) w)
            (run fuel es)
    go (create_transient i) k = k (suc c)
    go (create_user i user) k = k (suc c)
    go _ k = k c

bound-suc : (e : Event) (b : ℕ) → bound e (suc b) ≡ suc (bound e b)
bound-suc (create_transient i) b = refl
bound-suc (create_user i user) b = refl
bound-suc _ b = refl

bound_after-suc :
    (es : List (Env × Event)) (b : ℕ) → bound_after es (suc b) ≡ suc (bound_after es b)
bound_after-suc [] b = refl
bound_after-suc ((env, e) ∷ es) b =
    ap (bound_after es) (bound-suc e b) ∙ bound_after-suc es (bound e b)

-- For every history of events that reaches a daemon without displays, with whatever answers of logind,
-- udev and the rest, and for every fuel: if the run does not abort, then at most one display on seat0 is
-- prepared and not yet managed, beside those that clients have asked for by CreateTransientDisplay and
-- CreateUserDisplay.
pub run-AtMost :
    (fuel : ℕ) (es : List (Env × Event)) (w : World)
    → w.displays ≡ []
    → Ensures (λ _ w'. AtMost (suc (requests es)) w') (run fuel es w)
unfolding waiting
run-AtMost fuel es w e =
    subst (λ (b : ℕ). Ensures (λ _ w'. AtMost b w') (run fuel es w)) (bound_after-suc es 0)
      ((run-Leads fuel 0 es).leads w (start w.displays e))
  where
    start : (st : GdmDisplayStore SeatDisplay) → st ≡ [] → waiting st ≤ 1
    start st e = rw e (omega arith)
