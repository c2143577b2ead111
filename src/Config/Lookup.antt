-- ===== src/Config/Lookup.antt =====
-- What a value that is set in the stack of common/gdm-settings.c is found as, at once and after a
-- reload.
use gdm.Base.{
  ◌≡◌, refl, ap, ◌∙◌, subst, Option, some, Bool, true, false, ◌&&◌, List, [], ◌∷◌, if◌then◌else◌,
  arith, Bytes, same_bytes,
}
use gdm.Config.KeyFile.{
  KeyParts, Backend, KeyFileApi, IsKeyFile, IsWritable, ValueChanged, parse_key_string,
  backend_get_value, backend_set_value, queue_save,
}
use gdm.Config.Stack.{
  or_else, with_backends, GdmSettings, ConfFiles, first_value, get_value, set_first, set_value,
}

-- The keys name the same value: the locale does not count.
abbrev pub same_value : KeyParts → KeyParts → Bool
same_value p q = same_bytes p.group q.group && same_bytes p.key q.key

module _ {F D : Type 0} (api : KeyFileApi F D) (laws : IsKeyFile api) where
  module _ (key value : Bytes) (p : KeyParts) (parsed : parse_key_string key ≡ some p)
      (named : api.is_name p.group p.key ≡ true) where
    -- The backend after the value is set.
    changed : Backend F → Backend F
    changed b =
        queue_save (record b { key_file = api.store b.key_file p.group p.key value; dirty = true })

    changed-key_file :
        (b : Backend F) → (changed b).key_file ≡ api.store b.key_file p.group p.key value
    unfolding changed
    changed-key_file b = ground arith

    set_first-changed :
        (b : Backend F) (bs : List (Backend F))
        → set_first api (b ∷ bs) key value
          ≡ some (
            changed b ∷ bs,
            record {
              changed_key = key;
              old_value = api.lookup b.key_file p.group p.key;
              new_value = value;
            },
          )
    unfolding set_first backend_set_value changed
    set_first-changed b bs = rw (parsed, set_first, backend_set_value)

    get-changed :
        (b : Backend F) (key' : Bytes) (q : KeyParts)
        → parse_key_string key' ≡ some q
        → backend_get_value api (changed b) key'
          ≡ (if same_value p q then some value else backend_get_value api b key')
    unfolding backend_get_value
    get-changed b key' q e = rw (
      e,
      changed-key_file b,
      laws.lookup-store b.key_file p.group p.key value q.group q.key named,
    )

    first-changed :
        (b : Backend F) (bs : List (Backend F)) (key' : Bytes) (q : KeyParts)
        → parse_key_string key' ≡ some q
        → first_value api (changed b ∷ bs) key'
          ≡ (if same_value p q then some value else first_value api (b ∷ bs) key')
    unfolding first_value
    first-changed b bs key' q e =
        ap (λ (r : Option Bytes). or_else r (first_value api bs key')) (get-changed b key' q e)
        ∙ split (same_value p q)
      where
        split :
            (t : Bool)
            → or_else
                (if t then some value else backend_get_value api b key')
                (first_value api bs key')
              ≡ (if t
                  then some value
                  else or_else (backend_get_value api b key') (first_value api bs key'))
        split true = refl
        split false = refl

    get-set_first :
        (bs : List (Backend F)) (s' : GdmSettings F) (e : ValueChanged) (key' : Bytes)
        (q : KeyParts)
        → parse_key_string key' ≡ some q
        → with_backends (set_first api bs key value) ≡ some (s', e)
        → get_value api s' key' ≡ (if same_value p q then some value else first_value api bs key')
    unfolding set_first get_value
    get-set_first [] s' e key' q pq h = cc
    get-set_first (b ∷ bs) s' e key' q pq h =
        subst
          (λ (t : GdmSettings F).
            first_value api t.backends key'
            ≡ (if same_value p q then some value else first_value api (b ∷ bs) key'))
          {x = record { backends = changed b ∷ bs }} (ground (arith, set_first-changed b bs, h))
          (first-changed b bs key' q pq)

    -- For settings, a key with names that are valid for a key file and a value that is set without an
    -- error: the value is what the key is found as then, and so is every key that names the same
    -- group and key; every other valid key is found as before.
    pub get_value-set_value :
        (s s' : GdmSettings F) (e : ValueChanged) (key' : Bytes) (q : KeyParts)
        → parse_key_string key' ≡ some q
        → set_value api s key value ≡ some (s', e)
        → get_value api s' key' ≡ (if same_value p q then some value else get_value api s key')
    unfolding set_value get_value
    get_value-set_value s s' e key' q pq h = get-set_first s.backends s' e key' q pq h

  -- The name is that of no backend.
  abbrev pub IsOther : Bytes → List (Backend F) → Type 0
  IsOther name [] = Unit {0}
  IsOther name (b ∷ bs) = (same_bytes b.filename name ≡ false) × IsOther name bs

  module _ (files : ConfFiles) (key value : Bytes) (p : KeyParts)
      (parsed : parse_key_string key ≡ some p) (named : api.is_name p.group p.key ≡ true)
      (writable : IsWritable api) where
    abbrev opened : D → Backend F
    opened d = record {
      filename = files.runtime_conf;
      key_file = api.of_data d;
      dirty = false;
      save_id = false;
    }
