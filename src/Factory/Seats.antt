-- ===== src/Factory/Seats.antt =====
-- daemon/gdm-local-display-factory.c: when a seat gets a display, and what the factory does when
-- the status of a display changes.
use gdm.Base.{
  ℕ, zero, suc, ◌+◌, ◌%◌, ◌^◌, ◌==◌, ltb, Option, none, some, Bool, true, false, not, ◌||◌, ◌&&◌,
  List, [], ◌∷◌, if◌then◌else◌, Bytes, codes, same_bytes, is_some, pure, read, modify, when, ◌>>=◌,
  ◌>>◌,
}
use gdm.Session.Types.{same_text}
use gdm.Config.Direct.{Answer, aborted, refused, got}
use gdm.Display.{Status, unmanaged, prepared, managed, waiting_to_finish, finished, failed}
use gdm.Factory.{
  SeatDisplay, session_activated, graphics_unsupported, plymouth_quit, Device, Env, World, F, emit,
}
use gdm.Factory.Store.{GdmDisplayStore, gdm_display_store_find}
use gdm.Factory.Displays.{
  with_display, has_status, branch, require, store_display, put_status,
  gdm_display_stop_greeter_session, gdm_display_unmanage, gdm_display_finish, gdm_display_prepare,
  manager_on_status_changed,
}

abbrev pub max_display_failures : ℕ
max_display_failures = 5

abbrev pub seat0 : Option Bytes
seat0 = some (codes "seat0")

abbrev pub is_seat0 : Option Bytes → Bool
is_seat0 seat = same_text seat seat0

abbrev pub lookup_by_seat_id : Option Bytes → SeatDisplay → Bool
lookup_by_seat_id seat d = same_text d.seat_id seat

abbrev pub lookup_prepared_display_by_seat_id : Option Bytes → SeatDisplay → Bool
lookup_prepared_display_by_seat_id seat d = has_status prepared d && lookup_by_seat_id seat d

abbrev pub lookup_managed_display_by_seat_id : Option Bytes → SeatDisplay → Bool
lookup_managed_display_by_seat_id seat d = has_status managed d && lookup_by_seat_id seat d

abbrev pub lookup_by_session_id : Bytes → SeatDisplay → Bool
lookup_by_session_id session d = same_text d.session_id (some session)

abbrev pub find : (SeatDisplay → Bool) → F (Option (ℕ × SeatDisplay))
find p = read (λ w. gdm_display_store_find w.displays p)

-- get_display_for_seat
unfoldable pub get_display_for_seat : Option Bytes → F (Option (ℕ × SeatDisplay))
get_display_for_seat seat =
    branch (is_seat0 seat) (find (lookup_prepared_display_by_seat_id seat))
      (find (lookup_managed_display_by_seat_id seat))

-- g_strrstr (text, part) != NULL
abbrev pub has_prefix : Bytes → Bytes → Bool
has_prefix [] text = true
has_prefix (c ∷ part) [] = false
has_prefix (c ∷ part) (x ∷ text) = (c == x) && has_prefix part text

abbrev pub has_part : Bytes → Bytes → Bool
has_part part [] = has_prefix part []
has_part part (x ∷ text) = has_prefix part (x ∷ text) || has_part part text

abbrev pub is_simple_framebuffer : Option Bytes → Bool
is_simple_framebuffer none = false
is_simple_framebuffer (some path) = has_part (codes "platform-simple-framebuffer") path

abbrev pub is_one : Option ℕ → Bool
is_one none = false
is_one (some n) = n == 1

-- What the loop over the devices finds.
pub data Graphics : Type 0 where
  platform_graphics boot_up_graphics no_graphics : Graphics

abbrev pub graphics_of : Device → Graphics → Graphics
graphics_of device rest =
    if is_simple_framebuffer device.id_path
    then rest
    else if device.has_platform_device
    then platform_graphics
    else if is_one device.boot_vga
    then boot_up_graphics
    else if is_one device.boot_display
    then boot_up_graphics
    else rest

unfoldable pub find_graphics : List Device → Graphics
find_graphics [] = no_graphics
find_graphics (device ∷ devices) = graphics_of device (find_graphics devices)

abbrev pub clear_uevent_handler : World → World
clear_uevent_handler w = record w { uevent_handler_id = false }

abbrev pub settle : Graphics → F Bool
settle platform_graphics = do
  modify (λ w. clear_uevent_handler (record w { seat0_has_platform_graphics = true }))
  pure true
settle boot_up_graphics = do
  modify (λ w. clear_uevent_handler (record w { seat0_has_boot_up_graphics = true }))
  pure true
settle no_graphics = pure false

module _ (env : Env) where
  unfoldable pub udev_is_settled : F Bool
  unfolding find_graphics
  udev_is_settled = do
    has ← read (λ w. w.seat0_has_platform_graphics || w.seat0_has_boot_up_graphics)
    timed_out ← read (λ w. w.seat0_graphics_check_timed_out)
    branch has (pure true) (
        branch timed_out (do modify clear_uevent_handler; pure true)
          (settle (find_graphics env.devices)))

  abbrev pub with_x11 : Answer Bool → Option (List Bytes)
  with_x11 aborted = none
  with_x11 refused = some (codes "wayland" ∷ [])
  with_x11 (got enabled) =
      if enabled && env.has_x_server
      then some (codes "wayland" ∷ codes "x11" ∷ [])
      else some (codes "wayland" ∷ [])

  -- gdm_local_display_factory_get_session_types; `none` is a failed assertion of the settings.
  unfoldable pub get_session_types : Option (List Bytes)
  get_session_types = with_x11 env.xorg_enable

  -- on_graphics_unsupported of the manager, which the signal calls once the manager is connected.
  unfoldable pub signal_graphics_unsupported : F (Unit {0})
  signal_graphics_unsupported = do
    emit graphics_unsupported
    running ← read (λ w. w.hears_graphics && w.plymouth_is_running)
    when running
        (do emit (plymouth_quit false); modify (λ w. record w { plymouth_is_running = false }))

-- A display as gdm_local_display_new makes it.
abbrev pub new_display : List Bytes → Option Bytes → Bool → Option Bytes → SeatDisplay
new_display types seat is_initial user = record {
  state = record {
    status = unmanaged;
    finish_idle_id = false;
    session_registered = false;
    is_local = true;
    have_existing_user_accounts = false;
    doing_initial_setup = false;
    launch_environment = false;
  };
  supported_session_types = types;
  seat_id = seat;
  session_id = none;
  session_class = codes "greeter";
  is_initial = is_initial;
  autologin_user = user;
  user_session = none;
  is_watched = false;
}

-- The display with a login window that can be gone back to.
abbrev pub is_login_window : Option (ℕ × SeatDisplay) → Bool
is_login_window none = false
is_login_window (some (n, d)) = has_status managed d || has_status waiting_to_finish d

abbrev pub find_login_window : Option Bytes → F (Option (ℕ × SeatDisplay))
find_login_window none = pure none
find_login_window (some session) = find (lookup_by_session_id session)

abbrev pub queue_purge_displays : F (Unit {0})
queue_purge_displays = modify (λ w. record w { purge_displays_id = true })

module _ (env : Env) (notify : ℕ → F (Unit {0})) where
  unfoldable pub prepare_or_unmanage : ℕ → F Bool
  unfolding gdm_display_prepare gdm_display_unmanage
  prepare_or_unmanage n = do
    ok ← gdm_display_prepare env notify n
    when (not ok) (gdm_display_unmanage env notify n)
    pure ok

  -- The end of ensure_display_for_seat, for a seat with graphics.
  unfoldable pub create_unless_there : Option Bytes → F (Unit {0})
  unfolding get_session_types get_display_for_seat store_display prepare_or_unmanage
  create_unless_there seat = do
    types ← require (get_session_types env)
    there ← get_display_for_seat seat
    when (not (is_some there)) (do
      n ← store_display (new_display types seat (is_seat0 seat) none)
      ok ← prepare_or_unmanage n
      pure tt)

  abbrev pub await_graphics : Option Bytes → F (Unit {0})
  await_graphics seat =
      when (is_seat0 seat) (modify (λ w. record w { seat0_graphics_check_timeout_id = true }))

  abbrev pub by_graphics : Option Bytes → Option Bool → F (Unit {0})
  by_graphics seat none = pure tt
  by_graphics seat (some false) = when (is_seat0 seat) (signal_graphics_unsupported env)
  by_graphics seat (some true) = create_unless_there seat

  -- The part of ensure_display_for_seat for a seat without a login window.
  unfoldable pub ensure_new_display : Option Bytes → F (Unit {0})
  unfolding udev_is_settled create_unless_there signal_graphics_unsupported
  ensure_new_display seat = do
    settled ← udev_is_settled env
    branch settled
        (do
          modify (λ w. record w { seat0_graphics_check_timeout_id = false })
          by_graphics seat (env.can_graphical seat))
        (await_graphics seat)

  abbrev pub activate_login_window :
      Option Bytes → Option Bytes → Option (ℕ × SeatDisplay) → F (Unit {0})
  activate_login_window seat (some session) (some (n, d)) = do
    put_status env notify n managed
    emit (session_activated seat session)
  activate_login_window seat _ _ = pure tt

  unfoldable pub ensure_display_for_seat : Option Bytes → F (Unit {0})
  unfolding put_status ensure_new_display
  ensure_display_for_seat seat = do
    let session = env.login_window_session seat
    window ← find_login_window session
    branch (is_login_window window) (activate_login_window seat session window)
        (ensure_new_display seat)

  unfoldable pub finish_display_on_seat_if_waiting : ℕ → F (Unit {0})
  unfolding with_display gdm_display_stop_greeter_session gdm_display_unmanage gdm_display_finish
  finish_display_on_seat_if_waiting n = with_display n (λ d.
      when (has_status waiting_to_finish d) (do
        gdm_display_stop_greeter_session n
        gdm_display_unmanage env notify n
        gdm_display_finish env notify n))

  -- gdm_display_store_foreach, which glib ends when the table has got or lost keys meanwhile.
  unfoldable pub finish_each : GdmDisplayStore SeatDisplay → F (Unit {0})
  unfolding finish_display_on_seat_if_waiting
  finish_each [] = pure tt
  finish_each ((n, d) ∷ st) = do
    before ← read (λ w. w.changes)
    finish_display_on_seat_if_waiting n
    after ← read (λ w. w.changes)
    when (before == after) (finish_each st)

  -- finish_waiting_displays_on_seat, which does not look at its seat.
  unfoldable pub finish_waiting_displays_on_seat : F (Unit {0})
  unfolding finish_each
  finish_waiting_displays_on_seat = do st ← read (λ w. w.displays); finish_each st

  -- The display was not the greeter's, and its session was active if any is.
  abbrev pub was_active_session : SeatDisplay → Bool
  was_active_session d =
      not (same_bytes d.session_class (codes "greeter"))
      && (not (is_some (env.seat_active_session d.seat_id))
          || same_text d.session_id (env.seat_active_session d.seat_id))

  abbrev pub needs_login_screen : ℕ → SeatDisplay → Bool
  needs_login_screen active_vt d =
      d.state.is_local
      && (was_active_session d || (active_vt == env.initial_vt) || not (is_seat0 d.seat_id))

  unfoldable pub on_finished : SeatDisplay → F (Unit {0})
  unfolding ensure_display_for_seat
  on_finished d = do
    queue_purge_displays
    active_vt ← read (λ w. w.active_vt)
    when (needs_login_screen active_vt d)
        (do modify (λ w. record w { num_failures = 0 }); ensure_display_for_seat d.seat_id)

  unfoldable pub on_failed : SeatDisplay → F (Unit {0})
  unfolding ensure_display_for_seat
  on_failed d = do
    queue_purge_displays
    when d.state.is_local (do
      modify (λ w. record w { num_failures = (w.num_failures + 1) % 2 ^ 32 })
      failures ← read (λ w. w.num_failures)
      when (not (ltb max_display_failures failures)) (ensure_display_for_seat d.seat_id))

  abbrev pub factory_by_status : Status → SeatDisplay → F (Unit {0})
  factory_by_status finished d = on_finished d
  factory_by_status failed d = on_failed d
  factory_by_status unmanaged d = pure tt
  factory_by_status prepared d = pure tt
  factory_by_status managed d = finish_waiting_displays_on_seat
  factory_by_status waiting_to_finish d = pure tt

  -- on_display_status_changed of the factory.
  unfoldable pub factory_on_status_changed : ℕ → F (Unit {0})
  unfolding with_display on_finished on_failed finish_waiting_displays_on_seat
  factory_on_status_changed n = with_display n (λ d. do
    started ← read (λ w. w.is_started)
    when (d.is_watched && started) (factory_by_status d.state.status d))

  -- The handlers of the status, in the order in which they are connected.
  unfoldable pub status_changed : ℕ → F (Unit {0})
  unfolding manager_on_status_changed factory_on_status_changed
  status_changed n = do manager_on_status_changed env notify n; factory_on_status_changed n

-- A notification runs the handlers, and what they change is notified in turn; `none` is a nesting
-- deeper than the fuel.
unfoldable pub notify : Env → ℕ → ℕ → F (Unit {0})
unfolding status_changed
notify env zero n = λ w. none
notify env (suc k) n = status_changed env (notify env k) n
