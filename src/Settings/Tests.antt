-- ===== src/Settings/Tests.antt =====
-- The theorems on daemon/gdm-session-settings.c at concrete inputs.
use gdm.Base.{◌≡◌, refl, none, some, true, false, []}
use gdm.Settings
use gdm.Settings.{ActUser, Settings, on_user_is_loaded_changed, load}
use gdm.Settings.Laws.{load_deferred, load-merged}

abbrev stored : ActUser
stored = record {
  is_loaded = true;
  is_local = true;
  session = some "gnome";
  session_type = some "";
  language = none;
}

-- The same account before accountsservice has loaded it.
abbrev unknown : ActUser
unknown = record stored { is_loaded = false }

abbrev chosen : Settings
chosen = record {
  user = none;
  session_name = some "kde";
  session_type = some "x11";
  language_name = none;
}

is_unloaded : Settings.is_loaded chosen ≡ false
unfolding Settings.is_loaded
is_unloaded = refl

load_deferred_example :
    (on_user_is_loaded_changed stored (load (λ _. unknown) chosen (some "ann")).0
      ≡ ((load (λ _. stored) chosen (some "ann")).0, (load (λ _. stored) chosen (some "ann")).2))
    × ((load (λ _. unknown) chosen (some "ann")).2 ≡ [])
    × ((load (λ _. unknown) chosen (some "ann")).1 ≡ false)
    × ((load (λ _. stored) chosen (some "ann")).1 ≡ true)
load_deferred_example =
    load_deferred (λ _. unknown) (λ _. stored) chosen "ann" is_unloaded refl refl

load-merged_example :
    ((load (λ _. stored) chosen (some "ann")).0 ≡ record {
      user = some stored;
      session_name = some "gnome";
      session_type = some "x11";
      language_name = none;
    })
    × ((load (λ _. stored) chosen (some "ann")).1 ≡ true)
load-merged_example = load-merged (λ _. stored) chosen "ann" is_unloaded refl
