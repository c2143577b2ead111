-- ===== src/Factory/Loop.antt =====
-- daemon/gdm-local-display-factory.c and daemon/gdm-manager.c: what logind, udev, the kernel, the
-- greeters, timers and D-Bus clients set off, and every history of it.
use gdm.Base.{
  ℕ, ◌+◌, ◌==◌, Option, none, some, Bool, true, false, not, ◌||◌, ◌&&◌, List, [], ◌∷◌,
  if◌then◌else◌, Bytes, codes, same_bytes, is_some, pure, read, modify, when, ◌>>=◌, ◌>>◌,
}
use gdm.Session.Types.{same_text}
use gdm.Display.{managed, waiting_to_finish, finished, failed}
use gdm.Factory.{SeatDisplay, returned, refused_call, plymouth_quit, Env, World, F, emit}
use gdm.Factory.Store.{GdmDisplayStore, gdm_display_store_foreach_remove}
use gdm.Factory.Displays.{
  with_display, update, has_status, branch, by_option, emit_removals, store_display, put_status,
  gdm_display_unmanage, gdm_display_finish, finish_idle, self_destruct,
  set_up_automatic_login_session_if_user_exists,
}
use gdm.Factory.Seats.{
  seat0, find, lookup_by_seat_id, lookup_by_session_id, udev_is_settled, new_display,
  ensure_display_for_seat, finish_waiting_displays_on_seat, notify,
}
use gdm.Factory.Users.{
  handle_create_transient_display, handle_create_user_display, handle_destroy_user_display,
  handle_create_remote_display, handle_create_remote_user_display,
}

abbrev pub is_nonempty_list : List ℕ → Bool
is_nonempty_list [] = false
is_nonempty_list (n ∷ ns) = true

abbrev pub write_removal : GdmDisplayStore SeatDisplay × List ℕ → F (Unit {0})
write_removal removal =
    when (is_nonempty_list removal.1)
      (modify (λ w. record w { displays = removal.0; changes = w.changes + 1 }))

-- Displays that pass the test leave the store, and their handlers with them.
unfoldable pub remove_displays : (ℕ → SeatDisplay → Bool) → F (Unit {0})
unfolding gdm_display_store_foreach_remove emit_removals
remove_displays p = do
  removal ← read (λ w. gdm_display_store_foreach_remove w.displays p)
  write_removal removal
  emit_removals removal.1

unfoldable pub delete_display : Option Bytes → F (Unit {0})
unfolding remove_displays
delete_display seat = remove_displays (λ _ d. lookup_by_seat_id seat d)

abbrev pub purge_display : SeatDisplay → Bool
purge_display d = has_status finished d || has_status failed d

unfoldable pub purge_displays : F (Unit {0})
unfolding remove_displays
purge_displays = do
  modify (λ w. record w { purge_displays_id = false })
  remove_displays (λ _ d. purge_display d)

-- A line of /sys/class/tty/tty0/active, or why there is none.
pub data Line : Type 0 where
  unreadable again : Line
  line : Option Bytes → Line

-- A condition on the channel: `pri` that there is a line, `hup` that the kernel hung up.
pub record Condition : Type 0 where
  pub pri : Option Line
  pub hup : Bool

abbrev pub lookup_by_tty : Env → Bytes → SeatDisplay → Bool
lookup_by_tty env tty d = tty_of d.session_id
  where
    tty_of : Option Bytes → Bool
    tty_of none = false
    tty_of (some session) = same_text (env.session_tty session) (some tty)

module _ (env : Env) (notify : ℕ → F (Unit {0})) where
  unfoldable pub maybe_stop_greeter_in_background : ℕ × SeatDisplay → F (Unit {0})
  unfolding put_status
  maybe_stop_greeter_in_background (n, d) =
      when (has_status managed d && not d.state.doing_initial_setup)
        (put_status env notify n waiting_to_finish)

  abbrev pub login_window_vt : Option Bytes → ℕ
  login_window_vt none = 0
  login_window_vt (some session) = vt_of (env.session_vt session)
    where
      vt_of : Option ℕ → ℕ
      vt_of none = 0
      vt_of (some vt) = vt

  -- The part of on_vt_changed for the login window on the old VT.
  unfoldable pub leave_login_window : ℕ → F (Unit {0})
  unfolding maybe_stop_greeter_in_background
  leave_login_window previous_vt =
      (let session = env.login_window_session seat0 in
        let vt = login_window_vt session in
        by_option session (pure tt) (λ s. when (not (vt == 0) && (vt == previous_vt)) (do
          d ← find (lookup_by_session_id s)
          by_option d (pure tt) maybe_stop_greeter_in_background)))

  abbrev pub reap_later : ℕ × SeatDisplay → F (Unit {0})
  reap_later (n, d) =
      when d.state.session_registered (modify (λ w. record w { wait_to_finish_timeout_id = true }))

  unfoldable pub reach_session : Bytes → ℕ → F (Unit {0})
  reach_session tty new_vt =
      when (not (new_vt == login_window_vt (env.login_window_session seat0))) (do
        modify (λ w. record w { seat0_graphics_check_timeout_id = false })
        d ← find (lookup_by_tty env tty)
        by_option d (pure tt) reap_later)

  unfoldable pub change_vt : Bytes → ℕ → F (Unit {0})
  unfolding leave_login_window reach_session ensure_display_for_seat
  change_vt tty new_vt = do
    previous_vt ← read (λ w. w.active_vt)
    when (not (new_vt == previous_vt)) (do
      modify (λ w. record w { active_vt = new_vt })
      when (not (previous_vt == 0)) (do
        leave_login_window previous_vt
        reach_session tty new_vt
        when (new_vt == env.initial_vt) (ensure_display_for_seat env notify seat0)))

  abbrev pub scan_line : Option Bytes → F Bool
  scan_line none = pure true
  scan_line (some text) =
      (let tty = env.strchomp text in
        by_option (env.scan_vt tty) (pure true) (λ vt. do change_vt tty vt; pure true))

  abbrev pub unless_hup : Bool → Option Bytes → F Bool
  unless_hup true text = pure false
  unless_hup false text = scan_line text

  abbrev pub by_line : Bool → Option Line → F Bool
  by_line hup (some unreadable) = pure false
  by_line hup (some again) = pure true
  by_line hup (some (line text)) = unless_hup hup text
  by_line hup none = unless_hup hup none

  -- on_vt_changed, and whether its watch stays.
  unfoldable pub on_vt_changed : Condition → F Bool
  unfolding change_vt
  on_vt_changed c = by_line c.hup c.pri

  unfoldable pub on_uevent : Bool → Bytes → F (Unit {0})
  unfolding udev_is_settled ensure_display_for_seat
  on_uevent has_device_file action =
      when
        (has_device_file && (same_bytes action (codes "add") || same_bytes action (codes "change")))
        (do settled ← udev_is_settled env; when settled (ensure_display_for_seat env notify seat0))

  -- The seat's name and whether the signal says that CanGraphical has changed.
  unfoldable pub on_seat_properties_changed : Option Bytes → Bool → F (Unit {0})
  unfolding ensure_display_for_seat delete_display
  on_seat_properties_changed seat changed = when (is_some seat && changed) (
      by_option (env.can_graphical seat) (pure tt)
        (λ can. branch can (ensure_display_for_seat env notify seat) (delete_display seat)))

  unfoldable pub on_seat0_graphics_check_timeout : F (Unit {0})
  unfolding ensure_display_for_seat
  on_seat0_graphics_check_timeout = do
    modify (λ w. record w {
      seat0_graphics_check_timeout_id = false;
      seat0_graphics_check_timed_out = true;
    })
    ensure_display_for_seat env notify seat0

  unfoldable pub ensure_each : List Bytes → F (Unit {0})
  unfolding ensure_display_for_seat
  ensure_each [] = pure tt
  ensure_each (seat ∷ seats) = do ensure_display_for_seat env notify (some seat); ensure_each seats

  unfoldable pub start_monitor : F (Unit {0})
  start_monitor =
      modify (λ w. record w {
        monitors_seats = true;
        uevent_handler_id = true;
        active_vt_watch_id = true;
      })

  unfoldable pub stop_monitor : F (Unit {0})
  stop_monitor = modify (λ w. record w {
    uevent_handler_id = false;
    monitors_seats = false;
    active_vt_watch_id = false;
    wait_to_finish_timeout_id = false;
    seat0_graphics_check_timeout_id = false;
  })

  -- gdm_local_display_factory_sync_seats; logind may not answer.
  unfoldable pub sync_seats : F (Unit {0})
  unfolding ensure_each
  sync_seats = by_option env.list_seats (pure tt) ensure_each

  unfoldable pub gdm_local_display_factory_start : F (Unit {0})
  unfolding start_monitor sync_seats
  gdm_local_display_factory_start = do
    modify (λ w. record w { is_started = true; is_listening = true })
    start_monitor
    sync_seats

  unfoldable pub gdm_local_display_factory_stop : F (Unit {0})
  unfolding stop_monitor
  gdm_local_display_factory_stop = do
    stop_monitor
    modify (λ w. record w { is_listening = false; is_started = false })

  -- The local part of gdm_manager_start.
  unfoldable pub gdm_manager_start : F (Unit {0})
  unfolding gdm_local_display_factory_start
  gdm_manager_start = do
    modify (λ w. record w { plymouth_is_running = env.plymouth_runs })
    gdm_local_display_factory_start
    modify (λ w. record w { hears_graphics = true })

  unfoldable pub gdm_manager_stop : F (Unit {0})
  unfolding gdm_local_display_factory_stop
  gdm_manager_stop = do
    gdm_local_display_factory_stop
    modify (λ w. record w { hears_graphics = false; plymouth_quit_timeout_id = false })

  -- gdm_manager_handle_register_display, for the display of the caller.
  unfoldable pub handle_register_display : ℕ → Option ℕ → F (Unit {0})
  unfolding put_status
  handle_register_display invocation caller =
      by_option caller (emit (refused_call invocation))
        (λ n. do put_status env notify n managed; emit (returned invocation none))

  -- gdm_manager_handle_register_session, as far as the display goes.
  unfoldable pub handle_register_session : ℕ → Option ℕ → F (Unit {0})
  unfolding update with_display
  handle_register_session invocation caller =
      by_option caller (emit (refused_call invocation)) (λ n. do
        update n (λ d. record d { state = record d.state { session_registered = true } })
        running ← read (λ w. w.plymouth_is_running)
        with_display n (λ d.
            when (running && d.state.is_local)
              (modify (λ w. record w { plymouth_quit_timeout_id = true })))
        emit (returned invocation none))

  -- plymouth_quit_timeout_cb
  unfoldable pub plymouth_quit_timeout_cb : F (Unit {0})
  plymouth_quit_timeout_cb = do
    modify (λ w. record w { plymouth_quit_timeout_id = false })
    running ← read (λ w. w.plymouth_is_running)
    when running
        (do emit (plymouth_quit false); modify (λ w. record w { plymouth_is_running = false }))

  -- The display of a session that is over, in remove_user_session.
  unfoldable pub remove_user_session : ℕ → F (Unit {0})
  unfolding gdm_display_unmanage with_display gdm_display_finish
  remove_user_session n = do
    gdm_display_unmanage env notify n
    with_display n (λ d. when (not (has_status failed d)) (gdm_display_finish env notify n))

  abbrev pub user_display : Option Bytes → Bytes → ℕ → SeatDisplay
  user_display seat session uid = record (new_display [] seat false none) {
    session_class = codes "user";
    session_id = some session;
    user_session = some uid;
  }

  -- create_display_for_user_session, for a local session.
  unfoldable pub create_display_for_user_session : Option Bytes → Bytes → ℕ → F (Unit {0})
  unfolding store_display
  create_display_for_user_session seat session uid = do
    _ ← store_display (user_display seat session uid)
    pure tt

-- What happens to the daemon.
pub data Event : Type 0 where
  manager_started manager_stopped : Event
  seat_activated seat_removed : Bytes → Event
  seat_changed : Option Bytes → Bool → Event
  uevent : Bool → Bytes → Event
  vt_changed : Condition → Event
  graphics_check_timed_out finish_timed_out plymouth_timed_out purge_queued : Event
  greeter_opened : ℕ → Option Bytes → Event
  greeter_ended idle_finished user_loaded session_ended : ℕ → Event
  user_session_opened : Option Bytes → Bytes → ℕ → Event
  register_display register_session : ℕ → Option ℕ → Event
  create_transient : ℕ → Event
  create_user destroy_user create_remote_user : ℕ → Bytes → Event
  create_remote : ℕ → Bool → Event

-- A source or a handler runs where it is installed.
abbrev pub where_installed : (World → Bool) → F (Unit {0}) → F (Unit {0})
where_installed f m = do installed ← read f; when installed m

unfoldable pub is_pending : ℕ → List ℕ → Bool
is_pending n [] = false
is_pending n (m ∷ ms) = (m == n) || is_pending n ms

unfoldable pub without_pending : ℕ → List ℕ → List ℕ
without_pending n [] = []
without_pending n (m ∷ ms) = let rest = without_pending n ms in if m == n then rest else m ∷ rest

module _ (env : Env) (notify : ℕ → F (Unit {0})) where
  unfoldable pub handle : Event → F (Unit {0})
  unfolding gdm_manager_start gdm_manager_stop ensure_display_for_seat delete_display
      on_seat_properties_changed on_uevent on_vt_changed on_seat0_graphics_check_timeout
      finish_waiting_displays_on_seat plymouth_quit_timeout_cb purge_displays update with_display
      self_destruct finish_idle is_pending without_pending
      set_up_automatic_login_session_if_user_exists remove_user_session
      create_display_for_user_session handle_register_display handle_register_session
      handle_create_transient_display handle_create_user_display handle_destroy_user_display
      handle_create_remote_display handle_create_remote_user_display
  handle manager_started = gdm_manager_start env notify
  handle manager_stopped = gdm_manager_stop env notify
  handle (seat_activated seat) =
      where_installed (λ w. w.monitors_seats) (ensure_display_for_seat env notify (some seat))
  handle (seat_removed seat) = where_installed (λ w. w.monitors_seats) (delete_display (some seat))
  handle (seat_changed seat changed) =
      where_installed (λ w. w.monitors_seats) (on_seat_properties_changed env notify seat changed)
  handle (uevent has_file action) =
      where_installed (λ w. w.uevent_handler_id) (on_uevent env notify has_file action)
  handle (vt_changed c) =
      where_installed (λ w. w.active_vt_watch_id)
        (do
          stays ← on_vt_changed env notify c
          when (not stays) (modify (λ w. record w { active_vt_watch_id = false })))
  handle graphics_check_timed_out =
      where_installed (λ w. w.seat0_graphics_check_timeout_id)
        (on_seat0_graphics_check_timeout env notify)
  handle finish_timed_out =
      where_installed (λ w. w.wait_to_finish_timeout_id)
        (finish_waiting_displays_on_seat env notify)
  handle plymouth_timed_out =
      where_installed (λ w. w.plymouth_quit_timeout_id) (plymouth_quit_timeout_cb env notify)
  handle purge_queued = where_installed (λ w. w.purge_displays_id) purge_displays
  handle (greeter_opened n session) =
      with_display n
        (λ d. when d.state.launch_environment (update n (λ e. record e { session_id = session })))
  handle (greeter_ended n) =
      with_display n (λ d. when d.state.launch_environment (self_destruct env notify n))
  handle (idle_finished n) =
      with_display n (λ d. when d.state.finish_idle_id (finish_idle env notify n))
  handle (user_loaded n) =
      where_installed (λ w. is_pending n w.username_lookups)
        (do
          set_up_automatic_login_session_if_user_exists env notify n
          modify (λ w. record w { username_lookups = without_pending n w.username_lookups }))
  handle (session_ended n) = remove_user_session env notify n
  handle (user_session_opened seat session uid) =
      create_display_for_user_session env notify seat session uid
  handle (register_display invocation caller) = handle_register_display env notify invocation caller
  handle (register_session invocation caller) = handle_register_session env notify invocation caller
  handle (create_transient invocation) = handle_create_transient_display env notify invocation
  handle (create_user invocation user) = handle_create_user_display env notify invocation user
  handle (destroy_user invocation user) = handle_destroy_user_display env notify invocation user
  handle (create_remote_user invocation user) =
      handle_create_remote_user_display env notify invocation user
  handle (create_remote invocation has_id) =
      handle_create_remote_display env notify invocation has_id

-- A history, with the answers that each event meets, and the fuel for nested notifications.
unfoldable pub run : ℕ → List (Env × Event) → F (Unit {0})
unfolding notify handle
run fuel [] = pure tt
run fuel ((env, e) ∷ es) = do handle env (notify env fuel) e; run fuel es
