-- ===== src/Config/KeyFile.antt =====
-- common/gdm-settings-desktop-backend.c: a key file that is read once, changed in memory, and
-- written back by a timer or at the end. GLib's GKeyFile is a parameter: `F` is its type, and `D`
-- the type of a file's contents.
use gdm.Base.{
  ℕ, ◌+◌, ◌-◌, ◌≡◌, Option, none, some, Bool, true, false, not, ◌&&◌, ◌||◌, ltb, if◌then◌else◌,
  Bytes, split_once, index_of, take, drop, same_bytes, ◌==◌, [], ◌∷◌, codes,
}
use gdm.Config.Integers.{is_space}
use gdm.Config.Values.{is_empty}

-- A key as parse_key_string takes it apart.
pub record KeyParts : Type 0 where
  pub group : Bytes
  pub key : Bytes
  pub locale : Option Bytes
  pub value : Option Bytes

-- The locale in brackets is cut off the key.
abbrev pub trim_locale : Bytes → Option ℕ → Option ℕ → Bytes × Option Bytes
trim_locale k (some i) (some j) =
    if ltb i j then (take i k, some (take (j - i - 1) (drop (i + 1) k))) else (k, none)
trim_locale k (some i) none = (k, none)
trim_locale k none j = (k, none)

abbrev pub parts_of : Bytes → Bytes → KeyParts
parts_of g rest =
    let (k, v) = split_once b'=' rest in
    let (k', l) = trim_locale k (index_of b'[' k) (index_of b']' k) in
    record { group = g; key = k'; locale = l; value = v }

-- What parse_key_string does with the two halves of the text; `none` is an invalid key.
abbrev pub checked_parts : Bytes × Option Bytes → Option KeyParts
checked_parts (g, none) = none
checked_parts (g, some rest) = if is_empty g || is_empty rest then none else some (parts_of g rest)

unfoldable pub parse_key_string : Bytes → Option KeyParts
parse_key_string keystring = checked_parts (split_once b'/' keystring)

-- The functions of GKeyFile that the backend calls; `to_data` is none where it fails, and `of_data`
-- is the key file after g_key_file_load_from_file, also of contents that it cannot read.
pub record KeyFileApi (F D : Type 0) : Type 0 where
  pub lookup : F → Bytes → Bytes → Option Bytes
  pub store : F → Bytes → Bytes → Bytes → F
  pub to_data : F → Option D
  pub of_data : D → F
  pub is_name : Bytes → Bytes → Bool

-- What GLib documents of g_key_file_set_value: a value that is set under valid names is found, and no
-- other is touched.
pub record IsKeyFile {F D : Type 0} (api : KeyFileApi F D) : Type 0 where
  pub lookup-store :
      (f : F) (g k v g' k' : Bytes)
      → api.is_name g k ≡ true
      → api.lookup (api.store f g k v) g' k'
        ≡ (if same_bytes g g' && same_bytes k k' then some v else api.lookup f g' k')

-- A value that reads the same from a line of a file, although g_key_file_set_value escapes nothing:
-- it has no end of a line, and does not begin with white space.
abbrev pub is_line : Bytes → Bool
is_line [] = true
is_line (c ∷ v) = not (c == b'\n') && (not (c == b'\r') && is_line v)

abbrev pub is_plain : Bytes → Bool
is_plain [] = true
is_plain (c ∷ v) = not (is_space c) && is_line (c ∷ v)

-- All values of the key file are such, and none is under the key Encoding, which means something to
-- the parser.
pub record IsPlainFile {F D : Type 0} (api : KeyFileApi F D) (f : F) : Type 0 where
  pub plain : (g k v : Bytes) → api.lookup f g k ≡ some v → is_plain v ≡ true
  pub no_encoding : (g : Bytes) → api.lookup f g (codes "Encoding") ≡ none

-- What GLib documents of writing and reading: a key file of such values reads the same again.
pub record IsWritable {F D : Type 0} (api : KeyFileApi F D) : Type 0 where
  pub lookup-of_data :
      (f : F) (d : D) (g k : Bytes)
      → IsPlainFile api f
      → api.to_data f ≡ some d
      → api.lookup (api.of_data d) g k ≡ api.lookup f g k

-- `save_id` says whether the timer is installed.
pub record Backend (F : Type 0) : Type 0 where
  pub filename : Bytes
  pub key_file : F
  pub dirty : Bool
  pub save_id : Bool

-- The signal that a changed value emits: the key, the old value and the new one.
pub record ValueChanged : Type 0 where
  pub changed_key : Bytes
  pub old_value : Option Bytes
  pub new_value : Bytes

-- The timer that saves is installed once.
abbrev pub queue_save : {F : Type 0} → Backend F → Backend F
queue_save b = if not b.dirty then b else if b.save_id then b else record b { save_id = true }

-- The contents of the regular files, by name.
abbrev pub Disk : Type 0 → Type 0
Disk D = Bytes → Option D

abbrev pub write_file : {D : Type 0} → Bytes → D → Disk D → Disk D
write_file name d disk other = if same_bytes name other then some d else disk other

module _ {F D : Type 0} (api : KeyFileApi F D) where
  -- gdm_settings_desktop_backend_get_value; `none` is the error KEY_NOT_FOUND.
  abbrev pub lookup_parts : Backend F → Option KeyParts → Option Bytes
  lookup_parts b none = none
  lookup_parts b (some p) = api.lookup b.key_file p.group p.key

  unfoldable pub backend_get_value : Backend F → Bytes → Option Bytes
  backend_get_value b key = lookup_parts b (parse_key_string key)

  -- gdm_settings_desktop_backend_set_value
  abbrev pub store_parts :
      Backend F → Bytes → Bytes → Option KeyParts → Option (Backend F × ValueChanged)
  store_parts b key value none = none
  store_parts b key value (some p) = some (
    queue_save (record b { key_file = api.store b.key_file p.group p.key value; dirty = true }),
    record {
      changed_key = key;
      old_value = api.lookup b.key_file p.group p.key;
      new_value = value;
    },
  )

  unfoldable pub backend_set_value : Backend F → Bytes → Bytes → Option (Backend F × ValueChanged)
  backend_set_value b key value = store_parts b key value (parse_key_string key)

  -- save_settings, with the result of g_file_set_contents.
  abbrev pub save_contents : Bool → Backend F → Option D → Disk D → Backend F × Disk D
  save_contents write_ok b none disk = (b, disk)
  save_contents write_ok b (some d) disk =
      if write_ok then (record b { dirty = false }, write_file b.filename d disk) else (b, disk)

  unfoldable pub save_settings : Bool → Backend F → Disk D → Backend F × Disk D
  save_settings write_ok b disk =
      if b.dirty then save_contents write_ok b (api.to_data b.key_file) disk else (b, disk)

  unfoldable pub save_settings_timer : Bool → Backend F → Disk D → Backend F × Disk D
  unfolding save_settings
  save_settings_timer write_ok b disk =
      let (b', disk') = save_settings write_ok b disk in (record b' { save_id = false }, disk')

  -- gdm_settings_desktop_backend_finalize: what is left on the disk.
  unfoldable pub backend_finalize : Bool → Backend F → Disk D → Disk D
  unfolding save_settings
  backend_finalize write_ok b disk = (save_settings write_ok b disk).1

  -- gdm_settings_desktop_backend_new; `none` where there is no regular file.
  unfoldable pub backend_new : Bytes → Disk D → Option (Backend F)
  backend_new filename disk = elim (disk filename) [
    | none ↦ none
    | some d ↦
        some
          (record { filename = filename; key_file = api.of_data d; dirty = false; save_id = false })
  ]
