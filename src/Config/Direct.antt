-- ===== src/Config/Direct.antt =====
-- common/gdm-settings-direct.c: the values of keys by their schemas, with the defaults of the schemas
-- for keys that no file has.
use gdm.Base.{
  ℕ, Option, none, some, Bool, true, false, List, [], ◌∷◌, if◌then◌else◌, Bytes, codes, same_bytes,
  ℤ, pos, negsuc,
}
use gdm.Config.KeyFile.{KeyFileApi}
use gdm.Config.Stack.{GdmSettings, get_value}
use gdm.Config.Values.{parse_value_as_integer, parse_value_as_boolean}
use gdm.Config.Schemas.{SettingsEntry, Markup, parse_schemas}

-- What a getter comes to: `aborted` is a failed assertion, `refused` is FALSE.
pub data Answer (A : Type 0) : Type 0 where
  aborted refused : Answer A
  got : A → Answer A

abbrev pub Table : Type 0
Table = Bytes → Option SettingsEntry

-- The two variables of the file; the first is NULL before the first schemas are read, and after
-- schemas that cannot be read.
pub record Direct (F : Type 0) : Type 0 where
  pub schemas : Option Table
  pub settings_object : Option (GdmSettings F)

abbrev pub no_schemas : Table
no_schemas key = none

-- g_hash_table_insert, which replaces an entry of the same key.
abbrev pub insert : Bytes → SettingsEntry → Table → Table
insert key e table other = if same_bytes key other then some e else table other

abbrev pub insert_at : Option Bytes → SettingsEntry → Table → Option Table
insert_at none e table = none
insert_at (some key) e table = some (insert key e table)

-- hashify_list; `none` is the hash of a key that is NULL.
unfoldable pub hashify_list : Option SettingsEntry → Table → Option Table
hashify_list none table = none
hashify_list (some e) table = insert_at e.key e table

abbrev pub then_hashify : Option Table → (Table → Option Table) → Option Table
then_hashify none k = none
then_hashify (some table) k = k table

-- g_slist_foreach with hashify_list.
unfoldable pub hashify_all : List (Option SettingsEntry) → Table → Option Table
hashify_all [] table = some table
hashify_all (e ∷ es) table = then_hashify (hashify_list e table) (hashify_all es)

abbrev pub hashify_parsed : Option (List (Option SettingsEntry)) → Option Table
hashify_parsed none = none
hashify_parsed (some es) = hashify_all es no_schemas

abbrev pub initialised : {F : Type 0} → GdmSettings F → Option Table → Option (Direct F × Bool)
initialised settings none = none
initialised settings (some table) =
    some (record { schemas = some table; settings_object = some settings }, true)

abbrev pub lookup_in : Option Table → Bytes → Option SettingsEntry
lookup_in none key = none
lookup_in (some table) key = table key

module _ {F : Type 0} where
  -- gdm_settings_direct_init, from the events of the schema file, if it can be read.
  unfoldable pub direct_init :
      GdmSettings F → Option (List Markup) → Direct F → Option (Direct F × Bool)
  unfolding hashify_all
  direct_init settings none st = some (record st { schemas = none }, false)
  direct_init settings (some ms) st = initialised settings (hashify_parsed (parse_schemas ms))

  unfoldable pub get_entry_for_key : Direct F → Bytes → Option SettingsEntry
  get_entry_for_key st key = lookup_in st.schemas key

-- assert_signature: whether its assertions hold.
abbrev pub is_signature : Option Bytes → Bytes → Bool
is_signature none signature = false
is_signature (some sig) signature = same_bytes signature sig

unfoldable pub assert_signature : Option SettingsEntry → Bytes → Bool
assert_signature none signature = false
assert_signature (some e) signature = is_signature e.signature signature

abbrev pub default_of : Option SettingsEntry → Option Bytes
default_of none = none
default_of (some e) = e.default_value

abbrev pub or_default : Option Bytes → Option Bytes → Option Bytes
or_default none d = d
or_default (some v) d = some v

abbrev pub answer_of : {A : Type 0} → Option A → Answer A
answer_of none = refused
answer_of (some a) = got a

-- A text that may be NULL, which the parsers refuse.
abbrev pub parse_text : {A : Type 0} → (Bytes → Option A) → Option Bytes → Answer A
parse_text parse none = refused
parse_text parse (some v) = answer_of (parse v)

-- `ret && intvalue >= 0`
abbrev pub as_uint : Answer ℤ → Answer ℕ
as_uint aborted = aborted
as_uint refused = refused
as_uint (got (pos n)) = got n
as_uint (got (negsuc n)) = refused

module _ {F D : Type 0} (api : KeyFileApi F D) where
  -- get_value, of the settings if there are any.
  abbrev pub value_of : Option (GdmSettings F) → Bytes → Option Bytes
  value_of none key = none
  value_of (some s) key = get_value api s key

  -- The text that each getter reads: that of the settings, or else the default.
  unfoldable pub text_for : Direct F → Bytes → Option SettingsEntry → Option Bytes
  text_for st key e = or_default (value_of st.settings_object key) (default_of e)

  unfoldable pub direct_get_int : Direct F → Bytes → Answer ℤ
  unfolding text_for get_entry_for_key assert_signature
  direct_get_int st key =
      let entry = get_entry_for_key st key in
      if assert_signature entry (codes "i")
      then parse_text parse_value_as_integer (text_for st key entry)
      else aborted

  unfoldable pub direct_get_uint : Direct F → Bytes → Answer ℕ
  unfolding direct_get_int
  direct_get_uint st key = as_uint (direct_get_int st key)

  unfoldable pub direct_get_boolean : Direct F → Bytes → Answer Bool
  unfolding text_for get_entry_for_key assert_signature
  direct_get_boolean st key =
      let entry = get_entry_for_key st key in
      if assert_signature entry (codes "b")
      then parse_text parse_value_as_boolean (text_for st key entry)
      else aborted

  -- The string may be NULL.
  unfoldable pub direct_get_string : Direct F → Bytes → Answer (Option Bytes)
  unfolding text_for get_entry_for_key assert_signature
  direct_get_string st key =
      let entry = get_entry_for_key st key in
      if assert_signature entry (codes "s") then got (text_for st key entry) else aborted
