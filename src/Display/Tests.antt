-- ===== src/Display/Tests.antt =====
-- The theorems on daemon/gdm-display.c at concrete inputs.
use gdm.Base.{◌≡◌, ◌↔◌, refl, none, some, true, false}
use gdm.Config.Direct.{got}
use gdm.Display.{
  Display, Machine, managed, finished, number, self_destruct, finish_idle, wants_initial_setup,
}
use gdm.Display.Lifecycle.{ended, IsWanted, finish_idle-self_destruct, wants_initial_setup-IsWanted}

abbrev greeter_display : Display
greeter_display = record {
  status = managed;
  finish_idle_id = false;
  session_registered = true;
  is_local = true;
  have_existing_user_accounts = false;
  doing_initial_setup = false;
  launch_environment = true;
}

abbrev new_machine : Machine
new_machine = record {
  list_cached_users = some 0;
  ran_initial_setup = false;
  cmdline_argument = none;
  has_initial_setup = true;
  initial_setup_enable = got true;
}

finish_idle-self_destruct_example :
    (number (self_destruct (λ d. d) greeter_display).status ≡ number (ended greeter_display))
    × ((self_destruct (λ d. d) greeter_display).finish_idle_id ≡ true)
    × (number (finish_idle (λ d. d) (self_destruct (λ d. d) greeter_display)).status
        ≡ number finished)
finish_idle-self_destruct_example = finish_idle-self_destruct (λ d. d) greeter_display (λ e. refl)

wants_initial_setup-IsWanted_example :
    (wants_initial_setup new_machine greeter_display ≡ got true)
    ↔ IsWanted new_machine greeter_display
wants_initial_setup-IsWanted_example = wants_initial_setup-IsWanted new_machine greeter_display
