-- ===== src/Base/Texts.antt =====
-- C strings that may be NULL, compared the way g_strcmp0 compares them.
use Prim.Native.String.{String}
use text.Mathlib.Text.{◌==◌ as str_eq}
use text.Mathlib.TextEquality.{eq_iff}
use mathlib.Core.Path.{◌≡◌, ap}
use mathlib.Core.Logic.{◌↔◌}
use mathlib.Core.Bool.{Bool, true, false}
use mathlib.Core.Option.{Option, none, some, some-injective}

abbrev pub streq : String → String → Bool
streq a b = str_eq a b

pub streq_iff : (a b : String) → (streq a b ≡ true) ↔ (a ≡ b)
streq_iff = eq_iff

-- `g_strcmp0 (a, b) == 0`: NULL equals NULL only.
abbrev pub strcmp0_eq : Option String → Option String → Bool
strcmp0_eq none none = true
strcmp0_eq none (some _) = false
strcmp0_eq (some _) none = false
strcmp0_eq (some a) (some b) = streq a b

-- `s != NULL && s[0] != '\0'`.
abbrev pub is_nonempty : Option String → Bool
is_nonempty none = false
is_nonempty (some String.[]) = false
is_nonempty (some (String.◌∷◌ _ _)) = true

pub strcmp0_eq-some :
    (a : Option String) (b : String) → (strcmp0_eq a (some b) ≡ true) ↔ (a ≡ some b)
strcmp0_eq-some none b = (λ e. cc, λ e. cc)
strcmp0_eq-some (some a) b =
    (λ e. ap some ((streq_iff a b).0 e), λ e. (streq_iff a b).1 (some-injective a b e))
