-- ===== src/Factory/Store.antt =====
-- daemon/gdm-display-store.c: the hash table of the displays, by their ids.
pub mod Calls
use gdm.Base.{
  ℕ, suc, ◌+◌, ◌==◌, Option, none, some, Bool, true, false, List, [], ◌∷◌, ◌++◌, if◌then◌else◌,
}

abbrev pub GdmDisplayStore : Type 0 → Type 0
GdmDisplayStore D = List (ℕ × D)

-- Whether the key of an entry is the one, and what to do with the entry.
abbrev pub found_or {ℓ} : {A : Type ℓ} → Bool → A → A → A
found_or true a b = a
found_or false a b = b

module _ {D : Type 0} where
  unfoldable pub gdm_display_store_lookup : GdmDisplayStore D → ℕ → Option D
  gdm_display_store_lookup [] n = none
  gdm_display_store_lookup ((k, d) ∷ st) n =
      found_or (k == n) (some d) (gdm_display_store_lookup st n)

  -- The first display of the table that passes the test.
  unfoldable pub gdm_display_store_find : GdmDisplayStore D → (D → Bool) → Option (ℕ × D)
  gdm_display_store_find [] p = none
  gdm_display_store_find ((k, d) ∷ st) p =
      found_or (p d) (some (k, d)) (gdm_display_store_find st p)

  -- What is left by gdm_display_store_foreach_remove, and the displays whose removal it signals.
  unfoldable pub gdm_display_store_foreach_remove :
      GdmDisplayStore D → (ℕ → D → Bool) → GdmDisplayStore D × List ℕ
  gdm_display_store_foreach_remove [] p = ([], [])
  gdm_display_store_foreach_remove ((k, d) ∷ st) p =
      (let rest = gdm_display_store_foreach_remove st p in
        found_or (p k d) (rest.0, k ∷ rest.1) ((k, d) ∷ rest.0, rest.1))

  unfoldable pub gdm_display_store_remove : GdmDisplayStore D → ℕ → GdmDisplayStore D × List ℕ
  unfolding gdm_display_store_foreach_remove
  gdm_display_store_remove st n = gdm_display_store_foreach_remove st (λ k _. k == n)

  unfoldable pub gdm_display_store_clear : GdmDisplayStore D → GdmDisplayStore D × List ℕ
  unfolding gdm_display_store_foreach_remove
  gdm_display_store_clear st = gdm_display_store_foreach_remove st (λ _ _. true)

  -- g_hash_table_insert, which frees the display that it replaces.
  unfoldable pub gdm_display_store_add : GdmDisplayStore D → ℕ → D → GdmDisplayStore D × List ℕ
  unfolding gdm_display_store_remove
  gdm_display_store_add st n d =
      let rest = gdm_display_store_remove st n in ((n, d) ∷ rest.0, rest.1)

  -- A write to the fields of the display of a number.
  unfoldable pub change : ℕ → (D → D) → GdmDisplayStore D → GdmDisplayStore D
  change n f [] = []
  change n f ((k, d) ∷ st) = found_or (k == n) ((k, f d) ∷ st) ((k, d) ∷ change n f st)
