-- ===== src/Config/Schemas.antt =====
-- common/gdm-settings-utils.c: the schemas of the configuration, which are read by the callbacks of
-- a GMarkup parser. The parser's events are the input. An entry is known by its number, since the
-- parser goes on holding the last entry of its list.
use gdm.Base.{
  ℕ, suc, Option, none, some, Bool, true, false, List, [], ◌∷◌, ◌==◌, if◌then◌else◌, Bytes, codes,
  same_bytes,
}

-- _GdmSettingsEntry
pub record SettingsEntry : Type 0 where
  pub key : Option Bytes
  pub signature : Option Bytes
  pub default_value : Option Bytes
  pub value : Option Bytes

-- gdm_settings_entry_new
abbrev pub entry_new : SettingsEntry
entry_new = record { key = none; signature = none; default_value = none; value = none }

pub data Markup : Type 0 where
  start_element end_element text : Bytes → Markup

-- ParserInfo, with the entries that were allocated: `fresh` of them.
pub record ParserInfo : Type 0 where
  pub entries : ℕ → SettingsEntry
  pub fresh : ℕ
  pub list : List (Option ℕ)
  pub entry : Option ℕ
  pub in_key : Bool
  pub in_signature : Bool
  pub in_default : Bool

abbrev pub put_entry : (ℕ → SettingsEntry) → ℕ → SettingsEntry → ℕ → SettingsEntry
put_entry entries n e m = if n == m then e else entries m

unfoldable pub start_element_cb : Bytes → ParserInfo → ParserInfo
start_element_cb name info =
    if same_bytes name (codes "schema")
    then record info {
      entries = put_entry info.entries info.fresh entry_new;
      fresh = suc info.fresh;
      entry = some info.fresh;
    }
    else if same_bytes name (codes "key")
    then record info { in_key = true }
    else if same_bytes name (codes "signature")
    then record info { in_signature = true }
    else if same_bytes name (codes "default")
    then record info { in_default = true }
    else info

-- add_schema_entry
abbrev pub add_schema_entry : ParserInfo → ParserInfo
add_schema_entry info = record info { list = info.entry ∷ info.list }

unfoldable pub end_element_cb : Bytes → ParserInfo → ParserInfo
end_element_cb name info =
    if same_bytes name (codes "schema")
    then add_schema_entry info
    else if same_bytes name (codes "key")
    then record info { in_key = false }
    else if same_bytes name (codes "signature")
    then record info { in_signature = false }
    else if same_bytes name (codes "default")
    then record info { in_default = false }
    else info

-- A text goes to the field that is open.
abbrev pub fill : Bool → Bool → Bool → Bytes → SettingsEntry → SettingsEntry
fill true s d t e = record e { key = some t }
fill false true d t e = record e { signature = some t }
fill false false true t e = record e { default_value = some t }
fill false false false t e = e

-- The write through the pointer to the entry, which must not be NULL.
abbrev pub write_entry : (SettingsEntry → SettingsEntry) → ParserInfo → Option ℕ → Option ParserInfo
write_entry f info none = none
write_entry f info (some n) =
    some (record info { entries = put_entry info.entries n (f (info.entries n)) })

unfoldable pub text_cb : Bytes → ParserInfo → Option ParserInfo
text_cb t info =
    if info.in_key
    then write_entry (fill true info.in_signature info.in_default t) info info.entry
    else if info.in_signature
    then write_entry (fill false true info.in_default t) info info.entry
    else if info.in_default
    then write_entry (fill false false true t) info info.entry
    else some info

unfoldable pub on_markup : Markup → ParserInfo → Option ParserInfo
unfolding start_element_cb end_element_cb text_cb
on_markup (start_element name) info = some (start_element_cb name info)
on_markup (end_element name) info = some (end_element_cb name info)
on_markup (text t) info = text_cb t info

abbrev pub and_then : Option ParserInfo → (ParserInfo → Option ParserInfo) → Option ParserInfo
and_then none k = none
and_then (some info) k = k info

unfoldable pub run_markup : List Markup → ParserInfo → Option ParserInfo
run_markup [] info = some info
run_markup (m ∷ ms) info = and_then (on_markup m info) (run_markup ms)

-- g_new0 (ParserInfo, 1)
abbrev pub parser_info : ParserInfo
parser_info = record {
  entries = λ _. entry_new;
  fresh = 0;
  list = [];
  entry = none;
  in_key = false;
  in_signature = false;
  in_default = false;
}

-- The entries of the list, with NULL where a schema ended that had not begun.
abbrev pub resolve : (ℕ → SettingsEntry) → List (Option ℕ) → List (Option SettingsEntry)
resolve entries [] = []
resolve entries (none ∷ ns) = none ∷ resolve entries ns
resolve entries (some n ∷ ns) = some (entries n) ∷ resolve entries ns

abbrev pub result_of : Option ParserInfo → Option (List (Option SettingsEntry))
result_of none = none
result_of (some info) = some (resolve info.entries info.list)

-- gdm_settings_parse_schemas, from the events of the file on; `none` is a write through NULL.
unfoldable pub parse_schemas : List Markup → Option (List (Option SettingsEntry))
unfolding run_markup
parse_schemas ms = result_of (run_markup ms parser_info)
