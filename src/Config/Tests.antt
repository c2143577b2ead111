-- ===== src/Config/Tests.antt =====
-- The theorems on the configuration at concrete inputs: a key file that is a function from names to
-- values.
use gdm.Base.{
  ℕ, ◌<◌, ◌^◌, ◌≡◌, ◌↔◌, refl, Option, none, some, Bool, true, false, ◌&&◌, List, [], ◌∷◌,
  if◌then◌else◌, arith, Bytes, codes, same_bytes, Lacks, not, ◌==◌, pos,
}
use gdm.Config.Integers.{strtol, print_int, to_int, same_int}
use gdm.Config.Values.{
  Reads, parse_integer_as_value, parse_value_as_integer, parse_value_as_integer-Reads,
}
use gdm.Config.KeyFile.{
  KeyParts, KeyFileApi, IsKeyFile, Backend, ValueChanged, parse_key_string, backend_set_value,
  backend_get_value,
}
use gdm.Config.Keys.{IsName, print_key, parse_key_string-print_key}
use gdm.Config.Stack.{GdmSettings, ConfFiles, get_value, set_value, set_first, first_value}
use gdm.Config.Lookup.{get_value-set_value}
use gdm.Config.Schemas.{parse_schemas}
use gdm.Config.Documents.{Schema, entry_of, write_document, parse_schemas-write_document}
use gdm.Config.Direct.{Direct, got, direct_init, assert_signature, direct_get_int, direct_get_uint}
use gdm.Config.Typed.{
  first_schema, direct_init-write_document, direct_get_uint-bounds, direct_get_int-set_value,
  direct_get_int-default,
}

abbrev Names : Type 0
Names = Bytes → Bytes → Option Bytes

abbrev names : KeyFileApi Names Names
names = record {
  lookup = λ f g k. f g k;
  store = λ f g k v g' k'. if same_bytes g g' && same_bytes k k' then some v else f g' k';
  to_data = λ f. some f;
  of_data = λ d. d;
  is_name = λ g k. true;
}

names-IsKeyFile : IsKeyFile names
names-IsKeyFile = record { lookup-store = λ f g k v g' k' h. refl }

abbrev delay_key : Bytes
delay_key = codes "daemon/TimedLoginDelay"

abbrev delay_parts : KeyParts
delay_parts = record {
  group = codes "daemon";
  key = codes "TimedLoginDelay";
  locale = none;
  value = none;
}

-- The same key in another language.
abbrev german_parts : KeyParts
german_parts = record delay_parts { locale = some (codes "de") }

abbrev is_lacking : ℕ → Bytes → Bool
is_lacking c [] = true
is_lacking c (x ∷ xs) = not (x == c) && is_lacking c xs

is_lacking-Lacks : (c : ℕ) (xs : Bytes) → is_lacking c xs ≡ true → Lacks c xs
is_lacking-Lacks c [] h = tt
is_lacking-Lacks c (x ∷ xs) h = (ground arith, is_lacking-Lacks c xs (ground arith))

german_parts-IsName : IsName german_parts
german_parts-IsName = record {
  some_group = refl;
  one_group = is_lacking-Lacks b'/' (codes "daemon") refl;
  some_key = refl;
  no_value = is_lacking-Lacks b'=' (codes "TimedLoginDelay") refl;
  no_opening = is_lacking-Lacks b'[' (codes "TimedLoginDelay") refl;
  no_closing = is_lacking-Lacks b']' (codes "TimedLoginDelay") refl;
  locale_is_name =
      (is_lacking-Lacks b'=' (codes "de") refl, is_lacking-Lacks b']' (codes "de") refl);
}

abbrev empty_file : Names
empty_file g k = none

-- The files of the stack: the runtime file before the custom one, and both empty.
abbrev conf_files : ConfFiles
conf_files = record {
  runtime_conf = codes "/run/gdm3/custom.conf";
  custom_conf = codes "/etc/gdm3/custom.conf";
}

abbrev opened : Bytes → Backend Names
opened name = record { filename = name; key_file = empty_file; dirty = false; save_id = false }

abbrev both : GdmSettings Names
both = record { backends = opened conf_files.runtime_conf ∷ opened conf_files.custom_conf ∷ [] }

abbrev delayed : Names
delayed g k =
    if same_bytes (codes "daemon") g && same_bytes (codes "TimedLoginDelay") k
    then some (codes "30")
    else none

abbrev both_delayed : GdmSettings Names
both_delayed = record {
  backends =
      record {
        filename = conf_files.runtime_conf;
        key_file = delayed;
        dirty = true;
        save_id = true;
      }
      ∷ opened conf_files.custom_conf
      ∷ [];
}

abbrev delay_changed : ValueChanged
delay_changed = record { changed_key = delay_key; old_value = none; new_value = codes "30" }

delay_parsed : parse_key_string delay_key ≡ some delay_parts
unfolding parse_key_string
delay_parsed = refl

delay_set : set_value names both delay_key (codes "30") ≡ some (both_delayed, delay_changed)
unfolding set_value set_first backend_set_value parse_key_string
delay_set = refl

abbrev delay_schema : Schema
delay_schema = record { key = delay_key; signature = codes "i"; default_value = codes "10" }

-- A second schema with the same key, which does not count.
abbrev shadowed_schema : Schema
shadowed_schema = record { key = delay_key; signature = codes "s"; default_value = codes "soon" }

abbrev two_schemas : List Schema
two_schemas = delay_schema ∷ shadowed_schema ∷ []

german_parsed : parse_key_string (codes "daemon/TimedLoginDelay[de]") ≡ some german_parts
unfolding parse_key_string
german_parsed = refl

delay_signed : assert_signature (first_schema two_schemas delay_key) (codes "i") ≡ true
unfolding assert_signature
delay_signed = refl

delay_set_int :
    set_value names both delay_key (parse_integer_as_value (pos 30))
    ≡ some (both_delayed, delay_changed)
unfolding set_value set_first backend_set_value parse_key_string parse_integer_as_value print_int
delay_set_int = refl

ten_printed : codes "10" ≡ parse_integer_as_value (pos 10)
unfolding parse_integer_as_value print_int
ten_printed = refl

nothing_set : get_value names both delay_key ≡ none
unfolding get_value first_value backend_get_value parse_key_string
nothing_set = refl

parse_value_as_integer-Reads_example :
    (parse_value_as_integer (codes " +7") ≡ some (pos 7)) ↔ Reads (codes " +7") (pos 7)
parse_value_as_integer-Reads_example = parse_value_as_integer-Reads (codes " +7") (pos 7)

-- One past the greatest `int` is refused.
too_great : parse_value_as_integer (codes "2147483648") ≡ none
unfolding parse_value_as_integer strtol to_int same_int
too_great = refl

parse_key_string-print_key_example : parse_key_string (print_key german_parts) ≡ some german_parts
parse_key_string-print_key_example = parse_key_string-print_key german_parts german_parts-IsName

-- The same key in another language is found as the value that is set.
get_value-set_value_example :
    get_value names both_delayed (codes "daemon/TimedLoginDelay[de]") ≡ some (codes "30")
get_value-set_value_example =
    get_value-set_value names names-IsKeyFile delay_key (codes "30") delay_parts delay_parsed refl
      both both_delayed delay_changed (codes "daemon/TimedLoginDelay[de]") german_parts
      german_parsed delay_set

parse_schemas-write_document_example :
    parse_schemas (write_document (codes " ") two_schemas)
    ≡ some (some (entry_of shadowed_schema) ∷ some (entry_of delay_schema) ∷ [])
parse_schemas-write_document_example = parse_schemas-write_document (codes " ") two_schemas

abbrev no_direct : Direct Names
no_direct = record { schemas = none; settings_object = none }

abbrev read_direct : Direct Names
read_direct = record { schemas = some (first_schema two_schemas); settings_object = some both }

direct_init-write_document_example :
    direct_init both (some (write_document (codes " ") two_schemas)) no_direct
    ≡ some (read_direct, true)
direct_init-write_document_example =
    direct_init-write_document (codes " ") two_schemas both no_direct

direct_get_uint-bounds_example :
    (direct_get_uint names read_direct delay_key ≡ got 10)
    ↔ ((direct_get_int names read_direct delay_key ≡ got (pos 10)) × (10 < 2 ^ 31))
direct_get_uint-bounds_example = direct_get_uint-bounds names read_direct delay_key 10

direct_get_int-set_value_example :
    direct_get_int names
      (record { schemas = some (first_schema two_schemas); settings_object = some both_delayed })
      delay_key
    ≡ got (pos 30)
direct_get_int-set_value_example =
    direct_get_int-set_value names names-IsKeyFile (first_schema two_schemas) both both_delayed
      delay_changed delay_key delay_parts (pos 30) (omega arith) delay_signed delay_parsed refl
      delay_set_int

direct_get_int-default_example : direct_get_int names read_direct delay_key ≡ got (pos 10)
direct_get_int-default_example =
    direct_get_int-default names (codes " ") two_schemas both no_direct read_direct delay_key
      delay_schema (pos 10) (direct_init-write_document (codes " ") two_schemas both no_direct) refl
      refl ten_printed (omega arith) nothing_set
