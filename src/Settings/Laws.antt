-- ===== src/Settings/Laws.antt =====
-- What daemon/gdm-session-settings.c keeps of a user's saved settings, and when it says so.
use gdm.Base.{
  ◌≡◌, refl, sym, ap, ◌∙◌, inl, inr, String, Option, none, some, Bool, true, false, List, [], ◌∷◌,
  arith, if◌then◌else◌, is_nonempty, strcmp0_eq, strcmp0_eq-some, Bool-cases,
}
use gdm.Settings.{
  ActUser, Settings, Notification, session_name_changed, session_type_changed,
  language_name_changed, is_loaded, differs, set_language_name, set_session_name, set_session_type,
  set_if_nonempty, load_settings_from_user, on_user_is_loaded_changed, load,
}

load_when_unloaded :
    (get_user : String → ActUser) (s : Settings) (name : String)
    → is_loaded s ≡ false
    → (get_user name).is_loaded ≡ false
    → load get_user s (some name) ≡ (record s { user = some (get_user name) }, false, [])
unfolding load
load_when_unloaded get_user s name l u = rw (l, u)

load_when_loaded :
    (get_user : String → ActUser) (s : Settings) (name : String)
    → is_loaded s ≡ false
    → (get_user name).is_loaded ≡ true
    → load get_user s (some name) ≡ (
      (load_settings_from_user (record s { user = some (get_user name) })).0,
      true,
      (load_settings_from_user (record s { user = some (get_user name) })).1,
    )
unfolding load
load_when_loaded get_user s name l u = rw (l, u)

changed_when_loaded :
    (u : ActUser) (s : Settings)
    → u.is_loaded ≡ true
    → on_user_is_loaded_changed u s ≡ load_settings_from_user (record s { user = some u })
unfolding on_user_is_loaded_changed
changed_when_loaded u s l = rw l

-- Settings for an account whose user object accountsservice loads only after the call end up the
-- same, with the same notifications, as those for one that is loaded already: the call itself sends
-- none then, and is answered with false and not with true.
pub load_deferred :
    (get_user late : String → ActUser) (s : Settings) (name : String)
    → is_loaded s ≡ false
    → (get_user name).is_loaded ≡ false
    → (late name).is_loaded ≡ true
    → (on_user_is_loaded_changed (late name) (load get_user s (some name)).0
        ≡ ((load late s (some name)).0, (load late s (some name)).2))
      × ((load get_user s (some name)).2 ≡ [])
      × ((load get_user s (some name)).1 ≡ false)
      × ((load late s (some name)).1 ≡ true)
load_deferred get_user late s name l u v = (
  unloaded_then_loaded,
  ap (λ (r : Settings × Bool × List Notification). r.2) (load_when_unloaded get_user s name l u),
  ap (λ (r : Settings × Bool × List Notification). r.1) (load_when_unloaded get_user s name l u),
  ap (λ (r : Settings × Bool × List Notification). r.1) (load_when_loaded late s name l v),
)
  where
    with_user : ActUser → Settings
    with_user a = record s { user = some a }

    unloaded_then_loaded :
        on_user_is_loaded_changed (late name) (load get_user s (some name)).0
        ≡ ((load late s (some name)).0, (load late s (some name)).2)
    unloaded_then_loaded =
        ap (λ (r : Settings × Bool × List Notification). on_user_is_loaded_changed (late name) r.0)
          (load_when_unloaded get_user s name l u)
        ∙ (changed_when_loaded (late name) (with_user (get_user name)) v
            ∙ ap (λ (r : Settings × Bool × List Notification). (r.0, r.2))
                (sym (load_when_loaded late s name l v)))

-- A value is replaced and announced where it differs, and else nothing happens.
set_session_name_cases :
    (s : Settings) (x : String)
    → set_session_name s x ≡ (
      record s { session_name = some x },
      if differs s.session_name x then session_name_changed ∷ [] else [],
    )
unfolding set_session_name
set_session_name_cases s x = elim (Bool-cases (strcmp0_eq s.session_name (some x))) [
  | inl e ↦ ground (arith, (strcmp0_eq-some s.session_name x).0 e)
  | inr e ↦ ground arith
]

set_session_type_cases :
    (s : Settings) (x : String)
    → set_session_type s x ≡ (
      record s { session_type = some x },
      if differs s.session_type x then session_type_changed ∷ [] else [],
    )
unfolding set_session_type
set_session_type_cases s x = elim (Bool-cases (strcmp0_eq s.session_type (some x))) [
  | inl e ↦ ground (arith, (strcmp0_eq-some s.session_type x).0 e)
  | inr e ↦ ground arith
]

set_language_name_cases :
    (s : Settings) (x : String)
    → set_language_name s x ≡ (
      record s { language_name = some x },
      if differs s.language_name x then language_name_changed ∷ [] else [],
    )
unfolding set_language_name
set_language_name_cases s x = elim (Bool-cases (strcmp0_eq s.language_name (some x))) [
  | inl e ↦ ground (arith, (strcmp0_eq-some s.language_name x).0 e)
  | inr e ↦ ground arith
]

-- The value that a user's stored one leaves.
abbrev pub preferred : Option String → Option String → Option String
preferred stored old = if is_nonempty stored then stored else old

stored_type :
    (s : Settings) (v : Option String)
    → (set_if_nonempty set_session_type s v).0
      ≡ record s { session_type = preferred v s.session_type }
stored_type s none = refl
stored_type s (some x) = elim (Bool-cases (is_nonempty (some x))) [
  | inl e ↦ rw e (ap (λ (r : Settings × List Notification). r.0) (set_session_type_cases s x))
  | inr e ↦ rw e
]

stored_name :
    (s : Settings) (v : Option String)
    → (set_if_nonempty set_session_name s v).0
      ≡ record s { session_name = preferred v s.session_name }
stored_name s none = refl
stored_name s (some x) = elim (Bool-cases (is_nonempty (some x))) [
  | inl e ↦ rw e (ap (λ (r : Settings × List Notification). r.0) (set_session_name_cases s x))
  | inr e ↦ rw e
]

stored_language :
    (s : Settings) (v : Option String)
    → (set_if_nonempty set_language_name s v).0
      ≡ record s { language_name = preferred v s.language_name }
stored_language s none = refl
stored_language s (some x) = elim (Bool-cases (is_nonempty (some x))) [
  | inl e ↦ rw e (ap (λ (r : Settings × List Notification). r.0) (set_language_name_cases s x))
  | inr e ↦ rw e
]

-- The settings of a user, over those that were there.
abbrev pub merged : ActUser → Settings → Settings
merged u s = record {
  user = some u;
  session_name = preferred u.session s.session_name;
  session_type = preferred u.session_type s.session_type;
  language_name = preferred u.language s.language_name;
}

from_user-merged :
    (u : ActUser) (s : Settings)
    → u.is_loaded ≡ true
    → (load_settings_from_user (record s { user = some u })).0 ≡ merged u s
unfolding load_settings_from_user
from_user-merged u s l = rw (
  stored_type (record s { user = some u }) u.session_type,
  stored_name (record s { user = some u; session_type = preferred u.session_type s.session_type })
      u.session,
  stored_language
      (record s {
        user = some u;
        session_type = preferred u.session_type s.session_type;
        session_name = preferred u.session s.session_name;
      })
      u.language,
  l,
)

-- Unless settings are loaded already, loading those of a loaded user succeeds, and leaves of each of
-- the three values the user's where it is a nonempty text, and else what was there.
pub load-merged :
    (get_user : String → ActUser) (s : Settings) (name : String)
    → is_loaded s ≡ false
    → (get_user name).is_loaded ≡ true
    → ((load get_user s (some name)).0 ≡ merged (get_user name) s)
      × ((load get_user s (some name)).1 ≡ true)
load-merged get_user s name l u = (
  ap (λ (r : Settings × Bool × List Notification). r.0) (load_when_loaded get_user s name l u)
      ∙ from_user-merged (get_user name) s u,
  ap (λ (r : Settings × Bool × List Notification). r.1) (load_when_loaded get_user s name l u),
)
