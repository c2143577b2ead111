-- ===== src/Session/Tests.antt =====
-- The theorems on daemon/gdm-session.c at concrete inputs.
use gdm.Base.{
  ◌≡◌, refl, inl, inr, none, some, Bool, true, false, ◌||◌, List, [], ◌∷◌, ◌++◌, if◌then◌else◌,
  Bytes, codes, same_bytes, Ensures,
}
use gdm.Session.Types.{
  is_at_most, System, Choice, SessionFile, Dirs, get_session_command_for_file,
  get_session_command_for_name, load_key_file_for_file, get_system_session_dirs, session_dirs,
  supports_session_type, is_wayland_headless, get_fallback_session_name, installed_sessions,
  add_dirs, add_names, insert_sorted, if_command,
}
use gdm.Session.Fallback.{StandsInOne, IsSession, is_candidate, get_fallback_session_name-IsFirst}
use gdm.Session.State.{GdmSession, login}
use gdm.Session.Events.{opened_as}
use gdm.Session.Loop.{
  Event, run, begin, register, initialization_complete, authenticate_done, authorize_done,
  establish_done, open_done, start_session, program_done, query, answer, reset,
  stop_conflicting_call,
}
use gdm.Session.Order.{IsOrdered, has_told}
use gdm.Session.Histories.{run-IsOrdered}
use gdm.Session.Resets.{names_none, reset_stop_conflicting}

abbrev pub plain_file : Bytes → SessionFile
plain_file name = record {
  hidden = none;
  can_run_headless = false;
  session_registers = false;
  try_exec = none;
  exec = some name;
}

abbrev pub dirs : Dirs
dirs = record {
  x_data_dirs = codes "/usr/share/xsessions" ∷ [];
  x_search_dirs = codes "/etc/X11/sessions/" ∷ [];
  gdm_wayland_search_dir = codes "/usr/share/gdm/greeter/wayland-sessions/";
  wayland_data_dirs = codes "/usr/share/wayland-sessions" ∷ [];
  wayland_search_dir = codes "/usr/share/wayland-sessions/";
}

-- Two sessions are installed, of which neither is "gnome".
abbrev pub is_installed : Bytes → Bool
is_installed file = same_bytes file (codes "sway.desktop") || same_bytes file (codes "kde.desktop")

abbrev pub system : System
system = record {
  dirs = dirs;
  load_from_dirs = λ file search.
      if is_installed file
      then some (plain_file file, codes "/usr/share/wayland-sessions/" ++ file)
      else none;
  is_prog_in_path = λ prog. true;
  read_dir = λ dir.
      if same_bytes dir (codes "/usr/share/wayland-sessions/")
      then some (codes "sway.desktop" ∷ codes "readme" ∷ codes "kde.desktop" ∷ [])
      else none;
  configured_fallback = none;
  libexecdir = codes "/usr/libexec";
}

abbrev pub choice : Choice
choice = record {
  selected_session = none;
  saved_session = none;
  session_type = none;
  display_is_local = true;
  supported_session_types = codes "wayland" ∷ [];
  fallback_session_name = none;
}

kde_chosen : get_fallback_session_name system choice ≡ some (codes "kde")
unfolding get_fallback_session_name installed_sessions add_dirs add_names insert_sorted
    get_system_session_dirs session_dirs get_session_command_for_name get_session_command_for_file
    supports_session_type load_key_file_for_file is_wayland_headless
kde_chosen = refl

gnome_missing : if_command system choice (some (codes "gnome")) ≡ none
unfolding get_session_command_for_name get_session_command_for_file supports_session_type
    load_key_file_for_file
gnome_missing = refl

sway_stands :
    StandsInOne system choice (codes "sway.desktop") (get_system_session_dirs system choice none)
unfolding get_system_session_dirs session_dirs
sway_stands = inr (inr (inl (inl refl)))

sway_runs : is_candidate system choice (codes "sway.desktop") ≡ true
unfolding get_session_command_for_file supports_session_type load_key_file_for_file
    is_wayland_headless
sway_runs = refl

get_fallback_session_name-IsFirst_example :
    (m : Bytes) × ((get_fallback_session_name system choice ≡ some m)
      × ((is_at_most m (codes "sway") ≡ true) × IsSession system choice m))
get_fallback_session_name-IsFirst_example =
    get_fallback_session_name-IsFirst system choice (codes "sway.desktop") refl gnome_missing
      sway_stands sway_runs

abbrev pub fresh : GdmSession
fresh = record {
  choice = choice;
  saved_session_type = none;
  saved_language = none;
  selected_user = none;
  conversations = [];
  session_conversation = none;
  session_pid = none;
  verification_mode = login;
  has_user_verifier = true;
  has_greeter = true;
  is_program_session = false;
  display_seat_id = some (codes "seat0");
  is_opened = false;
  session_opened = none;
  next_number = 0;
  log = [];
}

-- A user logs in with a password.
abbrev password_login : List (System × Event)
password_login =
    (system, begin 1 (codes "gdm-password") (some (codes "alice")) (some 4242))
    ∷ (system, register 2 4242)
    ∷ (system, initialization_complete 0 none)
    ∷ (system, query (codes "gdm-password") 3)
    ∷ (system, answer (codes "gdm-password") (some (codes "secret")))
    ∷ (system, authenticate_done 0 none)
    ∷ (system, authorize_done 0 none)
    ∷ (system, establish_done 0 none)
    ∷ (system, open_done 0 (opened_as (codes "c2")))
    ∷ (system, start_session (codes "gdm-password"))
    ∷ (system, program_done 0 (some 4300))
    ∷ []

run-IsOrdered_example : Ensures (λ _ s'. IsOrdered s'.log) (run password_login fresh)
run-IsOrdered_example = run-IsOrdered password_login fresh refl refl

abbrev opened_session : GdmSession
opened_session = record fresh {
  is_opened = true;
  session_opened = some (codes "c2");
  conversations =
      (
        codes "gdm-password",
        some (record {
          number = 0;
          service_name = codes "gdm-password";
          worker_pid = 4242;
          starting_invocation = none;
          starting_username = none;
          pending_invocation = none;
          is_connected = true;
          session_id = some (codes "c2");
          is_stopping = false;
        }),
      )
      ∷ [];
}

reset_stop_conflicting_example :
    (s' : GdmSession) × (run
        ((system, reset) ∷ (system, stop_conflicting_call 9) ∷ [])
        opened_session
      ≡ some (tt, s'))
    × (has_told names_none s'.log ≡ true)
reset_stop_conflicting_example = reset_stop_conflicting system system 9 opened_session tt refl
