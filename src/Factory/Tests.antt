-- ===== src/Factory/Tests.antt =====
-- The theorems on the displays of daemon/gdm-local-display-factory.c at concrete inputs.
use gdm.Base.{
  arith, ◌≤◌, ℕ, suc, ◌≡◌, refl, Option, none, some, true, false, List, [], ◌∷◌, codes, Ensures,
}
use gdm.Config.Direct.{got}
use gdm.Factory.{Device, Env, World, session_terminated}
use gdm.Factory.Store.{gdm_display_store_lookup, gdm_display_store_find}
use gdm.Factory.Users.{without_user}
use gdm.Factory.Users.Creation.{create_and_destroy, destruction-creation}
use gdm.Factory.Loop.{Event, run, manager_started, create_transient, seat_activated}
use gdm.Factory.Seats.{ensure_display_for_seat, notify, seat0, get_session_types}
use gdm.Factory.Retries.Calm.{IsCalm}
use gdm.Factory.Retries.Enough.{ensure_display_for_seat_ends}
use gdm.Factory.Keeps.{AtMost, waiting}
use gdm.Factory.Prepared.Histories.{requests, run-AtMost}

abbrev card : Device
card = record {
  id_path = some (codes "pci-0000:00:02.0");
  has_platform_device = false;
  boot_vga = some 1;
  boot_display = none;
}

-- A machine with one seat, whose greeters get a user.
abbrev desktop : Env
desktop = record {
  initial_vt = 1;
  seat_active_session = λ seat. none;
  login_window_session = λ seat. none;
  session_tty = λ session. none;
  session_vt = λ session. none;
  can_graphical = λ seat. some true;
  list_seats = some (codes "seat0" ∷ []);
  devices = card ∷ [];
  machine = record {
    list_cached_users = some 1;
    ran_initial_setup = false;
    cmdline_argument = none;
    has_initial_setup = false;
    initial_setup_enable = got true;
  };
  ensure_uid = λ n. some 60578;
  xorg_enable = got true;
  has_x_server = false;
  automatic_login_enable = got false;
  automatic_login = got none;
  user_is_loaded = true;
  user_is_nonexistent = false;
  graphical_sessions = λ user. some [];
  has_system_bus = true;
  terminates = λ session. true;
  has_polkit_authority = true;
  is_authorized = some true;
  strchomp = λ text. text;
  plymouth_runs = false;
  scan_vt = λ text. none;
}

-- The user has a session by now.
abbrev later : Env
later = record desktop { graphical_sessions = λ user. some (codes "c2" ∷ []) }

abbrev boot : World
boot = record {
  displays = [];
  changes = 0;
  next_number = 0;
  num_failures = 0;
  seat0_has_platform_graphics = false;
  seat0_has_boot_up_graphics = false;
  seat0_graphics_check_timed_out = false;
  seat0_graphics_check_timeout_id = false;
  uevent_handler_id = false;
  monitors_seats = false;
  active_vt = 0;
  active_vt_watch_id = false;
  wait_to_finish_timeout_id = false;
  is_started = false;
  is_listening = false;
  purge_displays_id = false;
  display_creation_users = [];
  authority = false;
  hears_graphics = false;
  plymouth_is_running = false;
  plymouth_quit_timeout_id = false;
  did_automatic_login = false;
  automatic_login_display = none;
  username_lookups = [];
  log = [];
}

-- The daemon starts, hears of the same seat again, and a client asks for a display.
abbrev morning : List (Env × Event)
morning =
    (desktop, manager_started)
    ∷ (desktop, seat_activated (codes "seat0"))
    ∷ (desktop, create_transient 7)
    ∷ []

abbrev waiting_after : Option (Unit {0} × World) → Option ℕ
waiting_after none = none
waiting_after (some (u, w)) = some (waiting w.displays)

-- The seat has one display, and the client another.
morning_waiting : waiting_after (run 4 morning boot) ≡ some 2
unfolding run waiting gdm_display_store_find
morning_waiting = refl

run-AtMost_example : Ensures (λ _ w. AtMost (suc (requests morning)) w) (run 4 morning boot)
run-AtMost_example = run-AtMost 4 morning boot refl

destruction-creation_example :
    create_and_destroy desktop later (codes "joe") boot
    ≡ some ((true, true), record boot { log = session_terminated (codes "c2") ∷ [] })
unfolding without_user
destruction-creation_example =
    destruction-creation desktop later (codes "joe") boot (codes "c2") [] refl refl refl (λ x. refl)

-- The user store has no user for greeters.
abbrev full : Env
full = record desktop { ensure_uid = λ n. none }

abbrev made_after : Option (Unit {0} × World) → Option (ℕ × ℕ)
made_after none = none
made_after (some (u, w)) = some (w.next_number, w.num_failures)

-- Where the initial VT is not active, the greeter is given up after six displays.
full_elsewhere :
    made_after (run 14 ((full, manager_started) ∷ []) (record boot { active_vt = 2 })) ≡ some (6, 6)
unfolding run gdm_display_store_find gdm_display_store_lookup
full_elsewhere = refl

full_here :
    made_after (run 30 ((full, manager_started) ∷ []) (record boot { active_vt = 1 })) ≡ none
unfolding run gdm_display_store_find gdm_display_store_lookup
full_here = refl

abbrev full_calm : IsCalm full
unfolding get_session_types
full_calm = record {
  users = 1;
  types = codes "wayland" ∷ [];
  no_window = refl;
  lists = refl;
  reads = refl;
  setup = refl;
  enable = refl;
  user = refl;
}

ensure_display_for_seat_ends_example :
    (w : World) × (ensure_display_for_seat full
        (notify full 12)
        seat0
        (record boot { active_vt = 2 })
      ≡ some (tt, w))
    × (w.num_failures ≤ 6)
ensure_display_for_seat_ends_example =
    ensure_display_for_seat_ends full full_calm 12 (record boot { active_vt = 2 }) (omega arith)
      refl (omega arith)
