-- ===== src/Config/Documents.antt =====
-- Schemas that are written out as markup are read back by the parser of common/gdm-settings-utils.c.
use gdm.Base.{
  ℕ, suc, ◌<◌, ◌≡◌, refl, ◌∙◌, Option, none, some, false, List, [], ◌∷◌, ◌++◌, Bytes, codes, arith,
}
use gdm.Config.Schemas.{
  SettingsEntry, Markup, ParserInfo, start_element, end_element, text, entry_new, start_element_cb,
  end_element_cb, text_cb, put_entry, on_markup, run_markup, resolve, result_of, parse_schemas,
}

-- One schema of a file: the three texts.
pub record Schema : Type 0 where
  pub key : Bytes
  pub signature : Bytes
  pub default_value : Bytes

abbrev pub entry_of : Schema → SettingsEntry
entry_of s = record {
  key = some s.key;
  signature = some s.signature;
  default_value = some s.default_value;
  value = none;
}

-- The events of a schema, with the white space between its elements.
pub write_schema : Bytes → Schema → List Markup
write_schema gap s =
    start_element (codes "schema")
    ∷ text gap
    ∷ start_element (codes "key")
    ∷ text s.key
    ∷ end_element (codes "key")
    ∷ text gap
    ∷ start_element (codes "signature")
    ∷ text s.signature
    ∷ end_element (codes "signature")
    ∷ text gap
    ∷ start_element (codes "default")
    ∷ text s.default_value
    ∷ end_element (codes "default")
    ∷ text gap
    ∷ end_element (codes "schema")
    ∷ text gap
    ∷ []

abbrev pub write_schemas : Bytes → List Schema → List Markup
write_schemas gap [] = []
write_schemas gap (s ∷ ss) = write_schema gap s ++ write_schemas gap ss

-- The whole file: the schemas stand in two elements of other names.
pub write_document : Bytes → List Schema → List Markup
write_document gap ss =
    start_element (codes "gdmschemafile")
    ∷ text gap
    ∷ start_element (codes "schemalist")
    ∷ text gap
    ∷ (write_schemas gap ss
        ++ end_element (codes "schemalist") ∷ text gap ∷ end_element (codes "gdmschemafile") ∷ [])

-- Between two schemas.
abbrev between : (ℕ → SettingsEntry) → ℕ → List (Option ℕ) → Option ℕ → ParserInfo
between entries fresh list entry = record {
  entries = entries;
  fresh = fresh;
  list = list;
  entry = entry;
  in_key = false;
  in_signature = false;
  in_default = false;
}

-- A write to one field of the entry that is open.
abbrev write_at : ℕ → (SettingsEntry → SettingsEntry) → (ℕ → SettingsEntry) → ℕ → SettingsEntry
write_at n f entries = put_entry entries n (f (entries n))

-- The entries behind a schema.
abbrev entries_behind : ℕ → Schema → (ℕ → SettingsEntry) → ℕ → SettingsEntry
entries_behind n s entries =
    write_at n (λ e. record e { default_value = some s.default_value })
      (write_at n (λ e. record e { signature = some s.signature })
        (write_at n (λ e. record e { key = some s.key }) (put_entry entries n entry_new)))

entries_behind-new :
    (n : ℕ) (s : Schema) (entries : ℕ → SettingsEntry) → entries_behind n s entries n ≡ entry_of s
entries_behind-new n s entries = ground arith

entries_behind-old :
    (n : ℕ) (s : Schema) (entries : ℕ → SettingsEntry) (m : ℕ)
    → m < n
    → entries_behind n s entries m ≡ entries m
entries_behind-old n s entries m h = ground arith

-- The numbers of a list are those of entries that were allocated.
abbrev Below : ℕ → List (Option ℕ) → Type 0
Below k [] = Unit {0}
Below k (none ∷ ns) = Below k ns
Below k (some n ∷ ns) = (n < k) × Below k ns

Below-suc : (k : ℕ) (ns : List (Option ℕ)) → Below k ns → Below (suc k) ns
Below-suc k [] h = tt
Below-suc k (none ∷ ns) h = Below-suc k ns h
Below-suc k (some n ∷ ns) h = (omega (arith, h.0), Below-suc k ns h.1)

resolve_behind :
    (k : ℕ) (s : Schema) (entries : ℕ → SettingsEntry) (ns : List (Option ℕ))
    → Below k ns
    → resolve (entries_behind k s entries) ns ≡ resolve entries ns
resolve_behind k s entries [] h = refl
resolve_behind k s entries (none ∷ ns) h = rw (resolve_behind k s entries ns h)
resolve_behind k s entries (some n ∷ ns) h =
    rw (entries_behind-old k s entries n h.0, resolve_behind k s entries ns h.1)

-- The entries of the schemas are put before a list one by one.
abbrev pub entries_onto : List Schema → List (Option SettingsEntry) → List (Option SettingsEntry)
entries_onto [] acc = acc
entries_onto (s ∷ ss) acc = entries_onto ss (some (entry_of s) ∷ acc)

run_schemas :
    (gap : Bytes) (ss : List Schema) (entries : ℕ → SettingsEntry) (fresh : ℕ)
    → (list : List (Option ℕ)) (entry : Option ℕ) → Below fresh list
    → result_of (
        run_markup
          (write_schemas gap ss
            ++ end_element (codes "schemalist")
              ∷ text gap
              ∷ end_element (codes "gdmschemafile")
              ∷ [])
          (between entries fresh list entry))
      ≡ some (entries_onto ss (resolve entries list))
unfolding run_markup on_markup start_element_cb end_element_cb text_cb write_schema
run_schemas gap [] entries fresh list entry h = refl
run_schemas gap (s ∷ ss) entries fresh list entry h =
    run_schemas gap ss (entries_behind fresh s entries) (suc fresh) (some fresh ∷ list) (some fresh)
      (omega arith, Below-suc fresh list h)
    ∙ rw (entries_behind-new fresh s entries, resolve_behind fresh s entries list h)

-- A configuration file that is written as its schemas, with any white space between the elements, is
-- parsed without a write through NULL, and what it is parsed to are the entries of the schemas with
-- their three texts and no value, in the reverse order of the document.
pub parse_schemas-write_document :
    (gap : Bytes) (ss : List Schema)
    → parse_schemas (write_document gap ss) ≡ some (entries_onto ss [])
unfolding parse_schemas run_markup on_markup write_document start_element_cb text_cb
parse_schemas-write_document gap ss = run_schemas gap ss (λ _. entry_new) 0 [] none tt
