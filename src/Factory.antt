-- ===== src/Factory.antt =====
-- daemon/gdm-local-display-factory.c, with the displays that it keeps in a store, the seats that
-- logind tells it of, and what the manager does when the status of a display changes.
pub mod Store
pub mod Displays
pub mod Seats
pub mod Users
pub mod Loop
pub mod Keeps
pub mod Prepared
pub mod Retries
mod Tests
use gdm.Base.{ℕ, Option, Bool, List, Bytes, M, modify, ◌∷◌}
use gdm.Config.Direct.{Answer}
use gdm.Display.{Display, Machine}
use Store.{GdmDisplayStore}

-- The fields of a display that its factory and the manager read; `state` holds those that
-- gdm-display.c changes itself. A display is known by its number, which stands for its id. The
-- factory's handler of the status is connected where the factory was started when the display was
-- stored. `user_session` is the user that the display's session was made for.
pub record SeatDisplay : Type 0 where
  pub state : Display
  pub supported_session_types : List Bytes
  pub seat_id : Option Bytes
  pub session_id : Option Bytes
  pub session_class : Bytes
  pub is_initial : Bool
  pub autologin_user : Option Bytes
  pub user_session : Option ℕ
  pub is_watched : Bool

-- What others see of the daemon.
pub data Effect : Type 0 where
  exported unexported : ℕ → Effect
  plymouth_quit : Bool → Effect
  user_session_created : ℕ → ℕ → Effect
  conversation_started : ℕ → Bytes → Effect
  greeter_started greeter_stopped : ℕ → Effect
  session_activated : Option Bytes → Bytes → Effect
  session_terminated : Bytes → Effect
  graphics_unsupported : Effect
  returned : ℕ → Option ℕ → Effect
  refused_call : ℕ → Effect

-- A graphics device of udev: its path, whether it has a platform's device above it, and the
-- attributes of the PCI and the DRM device above it.
pub record Device : Type 0 where
  pub id_path : Option Bytes
  pub has_platform_device : Bool
  pub boot_vga : Option ℕ
  pub boot_display : Option ℕ

-- What logind, udev, accountsservice, polkit, the settings and the launch environment answer while
-- one event is handled. `can_graphical` is `none` where the query fails, and `ensure_uid` where the
-- display's greeter gets no user.
pub record Env : Type 0 where
  pub initial_vt : ℕ
  pub seat_active_session : Option Bytes → Option Bytes
  pub login_window_session : Option Bytes → Option Bytes
  pub session_tty : Bytes → Option Bytes
  pub session_vt : Bytes → Option ℕ
  pub can_graphical : Option Bytes → Option Bool
  pub list_seats : Option (List Bytes)
  pub devices : List Device
  pub machine : Machine
  pub ensure_uid : ℕ → Option ℕ
  pub xorg_enable : Answer Bool
  pub has_x_server : Bool
  pub automatic_login_enable : Answer Bool
  pub automatic_login : Answer (Option Bytes)
  pub user_is_loaded : Bool
  pub user_is_nonexistent : Bool
  pub graphical_sessions : Bytes → Option (List Bytes)
  pub has_system_bus : Bool
  pub terminates : Bytes → Bool
  pub has_polkit_authority : Bool
  pub is_authorized : Option Bool
  pub strchomp : Bytes → Bytes
  pub plymouth_runs : Bool
  pub scan_vt : Bytes → Option ℕ

-- The fields of the factory, of its parent and of the manager; a source's id is whether there is one.
-- `changes` counts the changes of the store's keys, and `is_listening` says that the factory hears
-- of new displays, `hears_graphics` that the manager hears of seats without graphics.
pub record World : Type 0 where
  pub displays : GdmDisplayStore SeatDisplay
  pub changes : ℕ
  pub next_number : ℕ
  pub num_failures : ℕ
  pub seat0_has_platform_graphics : Bool
  pub seat0_has_boot_up_graphics : Bool
  pub seat0_graphics_check_timed_out : Bool
  pub seat0_graphics_check_timeout_id : Bool
  pub uevent_handler_id : Bool
  pub monitors_seats : Bool
  pub active_vt : ℕ
  pub active_vt_watch_id : Bool
  pub wait_to_finish_timeout_id : Bool
  pub is_started : Bool
  pub is_listening : Bool
  pub purge_displays_id : Bool
  pub display_creation_users : List Bytes
  pub authority : Bool
  pub hears_graphics : Bool
  pub plymouth_is_running : Bool
  pub plymouth_quit_timeout_id : Bool
  pub did_automatic_login : Bool
  pub automatic_login_display : Option ℕ
  pub username_lookups : List ℕ
  pub log : List Effect

abbrev pub F : Type 0 → Type 0
F = M World

abbrev pub emit : Effect → F (Unit {0})
emit e = modify (λ w. record w { log = e ∷ w.log })
