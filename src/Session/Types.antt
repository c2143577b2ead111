-- ===== src/Session/Types.antt =====
-- daemon/gdm-session.c: the files of the installed sessions, the command and the type of a session, and
-- the session that is started for want of another. Texts are bytes; what GLib and the system answer
-- is a record.
use gdm.Base.{
  ◌-◌, ◌==◌, Option, none, some, Bool, true, false, not, ◌&&◌, ◌||◌, List, [], ◌∷◌, ◌++◌, ltb, leb,
  if◌then◌else◌, Bytes, codes, same_bytes, length, take, drop, is_some,
}

-- `g_strcmp0 (a, b) == 0`
abbrev pub same_text : Option Bytes → Option Bytes → Bool
same_text none none = true
same_text none (some b) = false
same_text (some a) none = false
same_text (some a) (some b) = same_bytes a b

-- What the code reads from a session's file: each boolean is false also where there is no such key,
-- except that `hidden` is none where reading it is an error.
pub record SessionFile : Type 0 where
  pub hidden : Option Bool
  pub can_run_headless : Bool
  pub session_registers : Bool
  pub try_exec : Option Bytes
  pub exec : Option Bytes

-- The directories of the build, and, for each of g_get_system_data_dirs, the two directories in it.
pub record Dirs : Type 0 where
  pub x_data_dirs : List Bytes
  pub x_search_dirs : List Bytes
  pub gdm_wayland_search_dir : Bytes
  pub wayland_data_dirs : List Bytes
  pub wayland_search_dir : Bytes

-- g_key_file_load_from_dirs with the path that was found, g_find_program_in_path, and the names in a
-- directory, in the order in which it is read.
pub record System : Type 0 where
  pub dirs : Dirs
  pub load_from_dirs : Bytes → List Bytes → Option (SessionFile × Bytes)
  pub is_prog_in_path : Bytes → Bool
  pub read_dir : Bytes → Option (List Bytes)
  pub configured_fallback : Option Bytes
  pub libexecdir : Bytes

-- The fields of _GdmSession that choose the session.
pub record Choice : Type 0 where
  pub selected_session : Option Bytes
  pub saved_session : Option Bytes
  pub session_type : Option Bytes
  pub display_is_local : Bool
  pub supported_session_types : List Bytes
  pub fallback_session_name : Option Bytes

-- g_strv_contains
abbrev pub is_member : List Bytes → Bytes → Bool
is_member [] t = false
is_member (x ∷ xs) t = same_bytes x t || is_member xs t

unfoldable pub supports_session_type : Choice → Option Bytes → Bool
supports_session_type self none = true
supports_session_type self (some t) = is_member self.supported_session_types t

abbrev pub is_wanted : Option Bytes → Bytes → Bool
is_wanted none supported = true
is_wanted (some t) supported = same_bytes t supported

-- The directories of one supported type.
abbrev pub dirs_of_type : Dirs → Option Bytes → Bytes → List Bytes
dirs_of_type d wanted supported =
    (if same_bytes supported (codes "x11") && is_wanted wanted supported
      then d.x_data_dirs ++ d.x_search_dirs
      else [])
    ++ (if same_bytes supported (codes "wayland") && is_wanted wanted supported
        then d.gdm_wayland_search_dir ∷ (d.wayland_data_dirs ++ d.wayland_search_dir ∷ [])
        else [])

-- get_system_session_dirs
unfoldable pub session_dirs : Dirs → List Bytes → Option Bytes → List Bytes
session_dirs d [] wanted = []
session_dirs d (t ∷ ts) wanted = dirs_of_type d wanted t ++ session_dirs d ts wanted

module _ (sys : System) where
  unfoldable pub get_system_session_dirs : Choice → Option Bytes → List Bytes
  unfolding session_dirs
  get_system_session_dirs self wanted = session_dirs sys.dirs self.supported_session_types wanted

  -- load_key_file_for_file, with the full path.
  unfoldable pub load_key_file_for_file :
      Choice → Bytes → Option Bytes → Option (SessionFile × Bytes)
  unfolding get_system_session_dirs
  load_key_file_for_file self file wanted =
      sys.load_from_dirs file (get_system_session_dirs self wanted)

  unfoldable pub is_wayland_headless : Choice → Bool
  is_wayland_headless self =
      same_text self.session_type (some (codes "wayland")) && not self.display_is_local

  abbrev pub is_hidden : Option Bool → Bool
  is_hidden none = false
  is_hidden (some b) = b

  abbrev pub can_try : Option Bytes → Bool
  can_try none = true
  can_try (some prog) = sys.is_prog_in_path prog

  -- The checks of get_session_command_for_file on the file that was loaded.
  abbrev pub checked_command : Choice → Option (SessionFile × Bytes) → Option Bytes
  checked_command self none = none
  checked_command self (some (f, path)) =
      if is_hidden f.hidden
      then none
      else if is_wayland_headless self && not f.can_run_headless
      then none
      else if can_try f.try_exec
      then f.exec
      else none

  -- get_session_command_for_file; `none` is FALSE.
  unfoldable pub get_session_command_for_file : Choice → Bytes → Option Bytes → Option Bytes
  unfolding supports_session_type load_key_file_for_file is_wayland_headless
  get_session_command_for_file self file wanted =
      if supports_session_type self wanted
      then checked_command self (load_key_file_for_file self file wanted)
      else none

  -- get_session_command_for_name
  unfoldable pub get_session_command_for_name : Choice → Bytes → Option Bytes → Option Bytes
  unfolding get_session_command_for_file
  get_session_command_for_name self name wanted =
      get_session_command_for_file self (name ++ codes ".desktop") wanted

  abbrev pub has_command : Choice → Bytes → Bool
  has_command self name = is_some (get_session_command_for_name self name none)

-- g_str_has_suffix (base_name, ".desktop")
abbrev pub is_desktop_name : Bytes → Bool
is_desktop_name base =
    if leb 8 (length base)
    then same_bytes (drop (length base - 8) base) (codes ".desktop")
    else false

-- The name without its suffix.
abbrev pub session_name_of : Bytes → Bytes
session_name_of base = take (length base - 8) base

-- `strcmp (a, b) <= 0`
abbrev pub is_at_most : Bytes → Bytes → Bool
is_at_most [] b = true
is_at_most (x ∷ xs) [] = false
is_at_most (x ∷ xs) (y ∷ ys) = ltb x y || ((x == y) && is_at_most xs ys)

-- g_sequence_insert_sorted, which puts a name behind those that equal it.
unfoldable pub insert_sorted : Bytes → List Bytes → List Bytes
insert_sorted name [] = name ∷ []
insert_sorted name (x ∷ xs) =
    let rest = insert_sorted name xs in if is_at_most x name then x ∷ rest else name ∷ x ∷ xs

abbrev pub or_choose : Option Bytes → Option Bytes → Option Bytes
or_choose none other = other
or_choose (some a) other = some a

abbrev pub first_of : List Bytes → Option Bytes
first_of [] = none
first_of (x ∷ xs) = some x

-- The name that is configured, or else "gnome".
abbrev pub configured_name : Option Bytes → Bytes
configured_name none = codes "gnome"
configured_name (some []) = codes "gnome"
configured_name (some (c ∷ cs)) = c ∷ cs

module _ (sys : System) (self : Choice) where
  -- The inner loop, over the names in a directory.
  unfoldable pub add_names : List Bytes → List Bytes → List Bytes
  unfolding insert_sorted
  add_names [] sessions = sessions
  add_names (base ∷ bases) sessions = add_names bases (
      if is_desktop_name base && is_some (get_session_command_for_file sys self base none)
      then insert_sorted (session_name_of base) sessions
      else sessions)

  abbrev pub add_dir : Option (List Bytes) → List Bytes → List Bytes
  add_dir none sessions = sessions
  add_dir (some bases) sessions = add_names bases sessions

  -- The outer loop, over the directories.
  unfoldable pub add_dirs : List Bytes → List Bytes → List Bytes
  unfolding add_names
  add_dirs [] sessions = sessions
  add_dirs (d ∷ ds) sessions = add_dirs ds (add_dir (sys.read_dir d) sessions)

  -- The installed sessions, sorted.
  unfoldable pub installed_sessions : List Bytes
  unfolding add_dirs
  installed_sessions = add_dirs (get_system_session_dirs sys self none) []

  -- A name, if it has a command.
  abbrev pub if_command : Option Bytes → Option Bytes
  if_command none = none
  if_command (some name) = if has_command sys self name then some name else none

  -- get_fallback_session_name, which is also the fallback_session_name after it; `none` is the g_error
  -- for want of any session.
  unfoldable pub get_fallback_session_name : Option Bytes
  unfolding installed_sessions
  get_fallback_session_name = or_choose (if_command self.fallback_session_name) (
      or_choose (if_command (some (configured_name sys.configured_fallback)))
        (first_of installed_sessions))

  unfoldable pub get_default_session_name : Option Bytes
  unfolding get_fallback_session_name
  get_default_session_name = or_choose self.saved_session get_fallback_session_name

  unfoldable pub get_session_name : Option Bytes
  unfolding get_default_session_name
  get_session_name = or_choose self.selected_session get_default_session_name
