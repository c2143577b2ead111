-- ===== src/Config/Stack.antt =====
-- common/gdm-settings.c: the settings, as a stack of backends of which the first that has an answer
-- is asked.
use gdm.Base.{Option, none, some, Bool, List, [], ◌∷◌, ◌++◌, Bytes}
use gdm.Config.KeyFile.{
  Backend, Disk, KeyFileApi, ValueChanged, backend_get_value, backend_set_value, backend_finalize,
  backend_new,
}

pub record GdmSettings (F : Type 0) : Type 0 where
  pub backends : List (Backend F)

-- The names of the two files, GDM_RUNTIME_CONF and GDM_CUSTOM_CONF.
pub record ConfFiles : Type 0 where
  pub runtime_conf : Bytes
  pub custom_conf : Bytes

abbrev pub list_of : {A : Type 0} → Option A → List A
list_of none = []
list_of (some a) = a ∷ []

-- The answer of a backend, or else that of those behind it.
abbrev pub or_else : {A : Type 0} → Option A → Option A → Option A
or_else none other = other
or_else (some a) other = some a

abbrev pub put_front :
    {F : Type 0}
    → List (Backend F)
    → Option (Backend F × ValueChanged)
    → Option (List (Backend F) × ValueChanged)
put_front bs none = none
put_front bs (some (b, e)) = some (b ∷ bs, e)

abbrev pub put_behind :
    {F : Type 0}
    → Backend F
    → Option (List (Backend F) × ValueChanged)
    → Option (List (Backend F) × ValueChanged)
put_behind b none = none
put_behind b (some (bs, e)) = some (b ∷ bs, e)

abbrev pub with_backends :
    {F : Type 0} → Option (List (Backend F) × ValueChanged) → Option (GdmSettings F × ValueChanged)
with_backends none = none
with_backends (some (bs, e)) = some (record { backends = bs }, e)

module _ {F D : Type 0} (api : KeyFileApi F D) where
  -- The loop of gdm_settings_get_value.
  unfoldable pub first_value : List (Backend F) → Bytes → Option Bytes
  first_value [] key = none
  first_value (b ∷ bs) key = or_else (backend_get_value api b key) (first_value bs key)

  -- gdm_settings_get_value
  unfoldable pub get_value : GdmSettings F → Bytes → Option Bytes
  unfolding first_value
  get_value s key = first_value s.backends key

  -- The loop of gdm_settings_set_value.
  unfoldable pub set_first :
      List (Backend F) → Bytes → Bytes → Option (List (Backend F) × ValueChanged)
  set_first [] key value = none
  set_first (b ∷ bs) key value =
      or_else (put_front bs (backend_set_value api b key value))
        (put_behind b (set_first bs key value))

  -- gdm_settings_set_value; the signal is passed on.
  unfoldable pub set_value : GdmSettings F → Bytes → Bytes → Option (GdmSettings F × ValueChanged)
  unfolding set_first
  set_value s key value = with_backends (set_first s.backends key value)

  -- The last reference of each backend is dropped, so that it is finalized.
  unfoldable pub finalize_all : Bool → List (Backend F) → Disk D → Disk D
  finalize_all write_ok [] disk = disk
  finalize_all write_ok (b ∷ bs) disk =
      finalize_all write_ok bs (backend_finalize api write_ok b disk)

  -- gdm_settings_reload
  unfoldable pub reload : ConfFiles → Bool → GdmSettings F → Disk D → GdmSettings F × Disk D
  unfolding finalize_all
  reload files write_ok s disk =
      let disk' = finalize_all write_ok s.backends disk in
      (
        record {
          backends =
              list_of (backend_new api files.runtime_conf disk')
              ++ list_of (backend_new api files.custom_conf disk');
        },
        disk',
      )
