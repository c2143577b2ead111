-- ===== src/Config/Typed.antt =====
-- What the getters of common/gdm-settings-direct.c answer for keys of a schema file, for keys that
-- were set, and for values out of range.
use gdm.Base.{
  ℕ, ◌<◌, ◌^◌, ◌≡◌, ◌↔◌, refl, ap, ◌∙◌, subst, Option, none, some, Bool, true, false, List, [], ◌∷◌,
  if◌then◌else◌, arith, Bytes, codes, same_bytes, same_bytes_iff, ℤ, pos, negsuc,
}
use gdm.Config.Integers.{IsInt}
use gdm.Config.Values.{
  parse_integer_as_value, parse_value_as_integer, parse_integer_roundtrip,
  parse_value_as_integer-Reads,
}
use gdm.Config.KeyFile.{KeyParts, KeyFileApi, IsKeyFile, ValueChanged, parse_key_string}
use gdm.Config.Stack.{GdmSettings, get_value, set_value}
use gdm.Config.Lookup.{get_value-set_value}
use gdm.Config.Schemas.{SettingsEntry}
use gdm.Config.Documents.{
  Schema, entry_of, write_document, entries_onto, parse_schemas-write_document,
}
use gdm.Config.Direct.{
  Answer, aborted, refused, got, Table, Direct, no_schemas, insert, hashify_list, hashify_all,
  hashify_parsed, initialised, direct_init, get_entry_for_key, assert_signature, parse_text,
  answer_of, text_for, as_uint, direct_get_int, direct_get_uint,
}

-- The entry of the first schema that has the key.
abbrev pub first_schema : List Schema → Bytes → Option SettingsEntry
first_schema [] key = none
first_schema (s ∷ ss) key = if same_bytes s.key key then some (entry_of s) else first_schema ss key

abbrev over : List Schema → Table → Table
over [] table = table
over (s ∷ ss) table = insert s.key (entry_of s) (over ss table)

hashify_all-entries_onto :
    (ss : List Schema) (acc : List (Option SettingsEntry)) (table : Table)
    → hashify_all (entries_onto ss acc) table ≡ hashify_all acc (over ss table)
unfolding hashify_all hashify_list
hashify_all-entries_onto [] acc table = refl
hashify_all-entries_onto (s ∷ ss) acc table =
    hashify_all-entries_onto ss (some (entry_of s) ∷ acc) table

over_first : (ss : List Schema) (key : Bytes) → over ss no_schemas key ≡ first_schema ss key
over_first [] key = refl
over_first (s ∷ ss) key = rw (over_first ss key)

-- The settings that are initialised from a written document hold for each key the entry of the first
-- schema of the document with that key: of two schemas with one key the first wins, although the
-- later insertion into the table does.
pub direct_init-write_document :
    {F : Type 0} (gap : Bytes) (ss : List Schema) (settings : GdmSettings F) (st : Direct F)
    → direct_init settings (some (write_document gap ss)) st
      ≡ some (record { schemas = some (first_schema ss); settings_object = some settings }, true)
unfolding direct_init hashify_all
direct_init-write_document gap ss settings st =
    ap (λ (r : Option (List (Option SettingsEntry))). initialised settings (hashify_parsed r))
      (parse_schemas-write_document gap ss)
    ∙ ap (initialised settings) (
        hashify_all-entries_onto ss [] no_schemas
        ∙ ap (λ (t : Table). some t) (λ i key. over_first ss key i))

as_uint-got : (r : Answer ℤ) (n : ℕ) → (as_uint r ≡ got n) ↔ (r ≡ got (pos n))
as_uint-got aborted n = ground arith
as_uint-got refused n = ground arith
as_uint-got (got (pos m)) n = ground arith
as_uint-got (got (negsuc m)) n = ground arith

answer_of-got : {A : Type 0} (o : Option A) (a : A) → answer_of o ≡ got a → o ≡ some a
answer_of-got none a h = ground arith
answer_of-got (some b) a h = ground arith

parse_text-IsInt :
    (o : Option Bytes) (z : ℤ) → parse_text parse_value_as_integer o ≡ got z → IsInt z
parse_text-IsInt none z h = ground arith
parse_text-IsInt (some v) z h = ((parse_value_as_integer-Reads v z).0 (answer_of-got _ z h)).fits

module _ {F D : Type 0} (api : KeyFileApi F D) where
  direct_get_int-IsInt :
      (st : Direct F) (key : Bytes) (z : ℤ) → direct_get_int api st key ≡ got z → IsInt z
  unfolding direct_get_int
  direct_get_int-IsInt st key z = go (assert_signature (get_entry_for_key st key) (codes "i"))
    where
      go :
          (b : Bool)
          → (if b
              then parse_text parse_value_as_integer
                  (text_for api st key (get_entry_for_key st key))
              else aborted)
            ≡ got z
          → IsInt z
      go true h = parse_text-IsInt _ z h
      go false h = ground arith

  -- Where the unsigned getter answers n, the getter of integers answers n too, and n is below 2^31;
  -- and where that answers n, so does the unsigned one: negative values are refused, not wrapped.
  pub direct_get_uint-bounds :
      (st : Direct F) (key : Bytes) (n : ℕ)
      → (direct_get_uint api st key ≡ got n)
        ↔ ((direct_get_int api st key ≡ got (pos n)) × (n < 2 ^ 31))
  unfolding direct_get_uint direct_get_int
  direct_get_uint-bounds st key n = (
    λ h.
        (let e = (as_uint-got (direct_get_int api st key) n).0 h in
          (e, direct_get_int-IsInt st key (pos n) e)),
    λ h. (as_uint-got (direct_get_int api st key) n).1 h.0,
  )

  module _ (laws : IsKeyFile api) where
    -- After an `int` is set under a key whose schema has the signature "i", and whose names are valid
    -- for a key file, the getter of integers answers it, whatever the files and the default say.
    pub direct_get_int-set_value :
        (table : Table) (s s' : GdmSettings F) (e : ValueChanged) (key : Bytes) (p : KeyParts)
        (z : ℤ)
        → IsInt z
        → assert_signature (table key) (codes "i") ≡ true
        → parse_key_string key ≡ some p
        → api.is_name p.group p.key ≡ true
        → set_value api s key (parse_integer_as_value z) ≡ some (s', e)
        → direct_get_int api (record { schemas = some table; settings_object = some s' }) key
          ≡ got z
    unfolding direct_get_int get_entry_for_key text_for
    direct_get_int-set_value table s s' e key p z i sig parsed named set = rw (
      sig,
      get_value-set_value api laws key (parse_integer_as_value z) p parsed named s s' e key p parsed
          set,
      (same_bytes_iff p.group p.group).1 refl,
      (same_bytes_iff p.key p.key).1 refl,
      parse_integer_roundtrip z i,
    )

  -- For a key that the settings do not have, and the first schema of the file with that key, which has
  -- the signature "i" and an `int` as its default: after the file is read, the getter of integers
  -- answers the default.
  pub direct_get_int-default :
      (gap : Bytes) (ss : List Schema) (settings : GdmSettings F) (st st' : Direct F)
      → (key : Bytes) (s : Schema) (z : ℤ)
      → direct_init settings (some (write_document gap ss)) st ≡ some (st', true)
      → first_schema ss key ≡ some (entry_of s)
      → s.signature ≡ codes "i"
      → s.default_value ≡ parse_integer_as_value z
      → IsInt z
      → get_value api settings key ≡ none
      → direct_get_int api st' key ≡ got z
  unfolding direct_get_int get_entry_for_key text_for assert_signature
  direct_get_int-default gap ss settings st st' key s z init first sig def i missing =
      subst (λ (t : Direct F). direct_get_int api t key ≡ got z)
        {x = record { schemas = some (first_schema ss); settings_object = some settings }} {y = st'}
        (ground (arith, direct_init-write_document gap ss settings st, init))
        (rw (first, sig, missing, def, parse_integer_roundtrip z i))
