-- ===== src/Factory/Store/Calls.antt =====
-- What a write to a display of daemon/gdm-display-store.c does to what is found in the store.
use gdm.Base.{ℕ, ◌==◌, ◌≡◌, arith, Option, none, some, [], ◌∷◌}
use gdm.Factory.Store.{GdmDisplayStore, found_or, gdm_display_store_lookup, change}

module _ {D : Type 0} where
  abbrev pub written : (D → D) → Option D → Option D
  written f none = none
  written f (some d) = some (f d)

  pub lookup-change :
      (st : GdmDisplayStore D) (n : ℕ) (f : D → D) (k : ℕ)
      → gdm_display_store_lookup (change n f st) k
        ≡ found_or
            (k == n)
            (written f (gdm_display_store_lookup st k))
            (gdm_display_store_lookup st k)
  unfolding gdm_display_store_lookup change
  lookup-change [] n f k = ground arith
  lookup-change ((m, d) ∷ st) n f k = ground (arith, lookup-change st n f k)
