-- ===== src/Factory/Retries.antt =====
-- Displays on seat0 whose status is followed while notifications nest, for runs that are to end.
pub mod Manager
pub mod Calm
pub mod Creation
pub mod Ensured
pub mod Handlers
pub mod Enough
use gdm.Base.{
  ℕ, zero, suc, ◌+◌, ◌≤◌, ◌<◌, ◌==◌, ◌≡◌, refl, sym, ap, subst, arith, Option, none, some, Bool,
  true, false, not, List, [], ◌∷◌, Bytes, codes, same_bytes, pure, read, modify, when, ◌>>=◌, inl,
  inr, Bool-cases, ==_iff,
}
use gdm.Display.{Status, number}
use gdm.Factory.{SeatDisplay, Effect, Env, World, F, emit}
use gdm.Factory.Store.{
  GdmDisplayStore, found_or, gdm_display_store_lookup, gdm_display_store_foreach_remove,
  gdm_display_store_remove, gdm_display_store_add, change,
}
use gdm.Factory.Store.Calls.{written, lookup-change}
use gdm.Factory.Displays.{display, with_display, update, branch, by_option, require}
use gdm.Factory.Seats.{is_seat0}

-- A run that gives a result, and one of which something holds.
abbrev pub Arrives : {A : Type 0} → (A → World → Type 0) → Option (A × World) → Type 0
Arrives J none = ⊥
Arrives J (some (a, w)) = J a w

pub record Reaches {A : Type 0} (I : World → Type 0) (J : A → World → Type 0) (m : F A)
    : Type 0 where
  pub reaches : (w : World) → I w → Arrives J (m w)

pub bind-Reaches :
    {A B : Type 0} (I : World → Type 0) (J : A → World → Type 0) (K : B → World → Type 0) (m : F A)
    (f : A → F B)
    → Reaches I J m
    → ((a : A) → Reaches (J a) K (f a))
    → Reaches I K (m >>= f)
bind-Reaches {A} {B} I J K m f h k = record { reaches = λ w i. go (m w) (h.reaches w i) }
  where
    go :
        (r : Option (A × World))
        → Arrives J r
        → Arrives K (elim r [ none ↦ none | some (a, w') ↦ f a w' ])
    go none j = absurd j
    go (some (a, w')) j = (k a).reaches w' j

-- A display of a greeter on seat0, in a status, whose session has not registered.
abbrev pub IsGreeter : Status → SeatDisplay → Type 0
IsGreeter s d =
    (number d.state.status ≡ number s)
    × (is_seat0 d.seat_id ≡ true)
    × (same_bytes d.session_class (codes "greeter") ≡ true)
    × (d.state.session_registered ≡ false)

abbrev pub IsAt : Status → Option SeatDisplay → Type 0
IsAt s none = ⊥
IsAt s (some d) = IsGreeter s d

abbrev pub Avoids : ℕ → List (ℕ × Status) → Type 0
Avoids n [] = Unit {0}
Avoids n ((m, s) ∷ l) = ((m == n) ≡ false) × Avoids n l

abbrev pub AreAt : List (ℕ × Status) → GdmDisplayStore SeatDisplay → Type 0
AreAt [] st = Unit {0}
AreAt ((n, s) ∷ l) st = IsAt s (gdm_display_store_lookup st n) × Avoids n l × AreAt l st

abbrev pub AreBelow : List (ℕ × Status) → ℕ → Type 0
AreBelow [] b = Unit {0}
AreBelow ((n, s) ∷ l) b = (n < b) × AreBelow l b

-- The displays that are followed are in their status, the initial VT is not active, and the failures
-- are between two bounds.
abbrev pub Ok : Env → List (ℕ × Status) → ℕ → ℕ → World → Type 0
Ok env l lo hi w =
    AreAt l w.displays
    × AreBelow l w.next_number
    × ((w.active_vt == env.initial_vt) ≡ false)
    × (lo ≤ w.num_failures)
    × (w.num_failures ≤ hi)

lookup-change_other :
    (st : GdmDisplayStore SeatDisplay) (n m : ℕ) (f : SeatDisplay → SeatDisplay)
    → (m == n) ≡ false
    → gdm_display_store_lookup (change n f st) m ≡ gdm_display_store_lookup st m
unfolding change gdm_display_store_lookup
lookup-change_other [] n m f h = refl
lookup-change_other ((k, d) ∷ st) n m f h = ground (arith, h, lookup-change_other st n m f h)

pub lookup-remove_other :
    (st : GdmDisplayStore SeatDisplay) (n m : ℕ)
    → (m == n) ≡ false
    → gdm_display_store_lookup (gdm_display_store_foreach_remove st (λ k _. k == n)).0 m
      ≡ gdm_display_store_lookup st m
unfolding gdm_display_store_lookup gdm_display_store_foreach_remove
lookup-remove_other [] n m h = refl
lookup-remove_other ((k, d) ∷ st) n m h = ground (arith, h, lookup-remove_other st n m h)

AreAt-change :
    (l : List (ℕ × Status)) (st : GdmDisplayStore SeatDisplay) (n : ℕ)
    (f : SeatDisplay → SeatDisplay)
    → Avoids n l
    → AreAt l st
    → AreAt l (change n f st)
AreAt-change [] st n f a h = tt
AreAt-change ((m, s) ∷ l) st n f (e, a) (i, b, h) =
    (subst (IsAt s) (sym (lookup-change_other st n m f e)) i, b, AreAt-change l st n f a h)

IsAt-change :
    (st : GdmDisplayStore SeatDisplay) (n : ℕ) (s s' : Status) (f : SeatDisplay → SeatDisplay)
    → ((d : SeatDisplay) → IsGreeter s d → IsGreeter s' (f d))
    → IsAt s (gdm_display_store_lookup st n)
    → IsAt s' (gdm_display_store_lookup (change n f st) n)
IsAt-change st n s s' f k h =
    subst (IsAt s') (sym (lookup-change st n f n))
      (rw ((==_iff n n).1 refl) (go (gdm_display_store_lookup st n) h))
  where
    go : (o : Option SeatDisplay) → IsAt s o → IsAt s' (written f o)
    go none h = h
    go (some d) h = k d h

module _ (env : Env) (l : List (ℕ × Status)) (lo hi : ℕ) where
  -- A write that the display's new status is right for.
  pub update-Reaches :
      (n : ℕ) (s s' : Status) (f : SeatDisplay → SeatDisplay)
      → ((d : SeatDisplay) → IsGreeter s d → IsGreeter s' (f d))
      → Reaches (Ok env ((n, s) ∷ l) lo hi) (λ _ w. Ok env ((n, s') ∷ l) lo hi w) (update n f)
  unfolding update
  update-Reaches n s s' f k = record {
    reaches = λ w h. (
      (IsAt-change w.displays n s s' f k h.0.0, h.0.1, AreAt-change l w.displays n f h.0.1 h.0.2),
      h.1,
      h.2,
      h.3,
      h.4,
    );
  }

  pub with_display-Reaches :
      (n : ℕ) (s : Status) (J : Unit {0} → World → Type 0) (f : SeatDisplay → F (Unit {0}))
      → ((d : SeatDisplay) → IsGreeter s d → Reaches (Ok env ((n, s) ∷ l) lo hi) J (f d))
      → Reaches (Ok env ((n, s) ∷ l) lo hi) J (with_display n f)
  unfolding with_display display
  with_display-Reaches n s J f k = record {
    reaches = λ w h. go w h (gdm_display_store_lookup w.displays n) h.0.0;
  }
    where
      go :
          (w : World)
          → Ok env ((n, s) ∷ l) lo hi w
          → (o : Option SeatDisplay) → IsAt s o
          → Arrives J (by_option o (pure tt) f w)
      go w h none i = absurd i
      go w h (some d) i = (k d i).reaches w h

pub weaken-Reaches :
    {A : Type 0} (I : World → Type 0) (J K : A → World → Type 0) (m : F A)
    → Reaches I J m
    → ((a : A) (w : World) → J a w → K a w)
    → Reaches I K m
weaken-Reaches {A} I J K m h k = record { reaches = λ w i. go (m w) (h.reaches w i) }
  where
    go : (r : Option (A × World)) → Arrives J r → Arrives K r
    go none j = j
    go (some (a, w)) j = k a w j

module _ (I : World → Type 0) where
  pub pure-Reaches : {A : Type 0} (a : A) → Reaches I (λ _ w. I w) (pure a)
  pure-Reaches a = record { reaches = λ w h. h }

  pub read-Reaches : {A : Type 0} (f : World → A) → Reaches I (λ _ w. I w) (read f)
  read-Reaches f = record { reaches = λ w h. h }

  pub when-Reaches :
      (b : Bool) (m : F (Unit {0})) → Reaches I (λ _ w. I w) m → Reaches I (λ _ w. I w) (when b m)
  when-Reaches true m k = record { reaches = λ w h. k.reaches w h }
  when-Reaches false m k = record { reaches = λ w h. h }

  pub branch-Reaches :
      {A : Type 0} (J : A → World → Type 0) (b : Bool) (m k : F A)
      → Reaches I J m
      → Reaches I J k
      → Reaches I J (branch b m k)
  branch-Reaches J true m k h j = record { reaches = λ w i. h.reaches w i }
  branch-Reaches J false m k h j = record { reaches = λ w i. j.reaches w i }

  pub by_option-Reaches :
      {A B : Type 0} (J : B → World → Type 0) (o : Option A) (m : F B) (f : A → F B)
      → Reaches I J m
      → ((a : A) → Reaches I J (f a))
      → Reaches I J (by_option o m f)
  by_option-Reaches J none m f h k = record { reaches = λ w i. h.reaches w i }
  by_option-Reaches J (some a) m f h k = record { reaches = λ w i. (k a).reaches w i }

  pub require-Reaches :
      {A : Type 0} (o : Option A) (a : A) → o ≡ some a → Reaches I (λ _ w. I w) (require o)
  require-Reaches none a e = absurd (differ e)
    where
      differ : {A : Type 0} {a : A} → none ≡ some a → ⊥
      differ e = cc
  require-Reaches (some b) a e = record { reaches = λ w h. h }

  -- Where the test is known to pass.
  pub passing-Reaches :
      (J : Unit {0} → World → Type 0) (b : Bool) (m : F (Unit {0}))
      → b ≡ true
      → Reaches I J m
      → Reaches I J (when b m)
  passing-Reaches J true m e k = record { reaches = λ w h. k.reaches w h }
  passing-Reaches J false m e k = cc

module _ (env : Env) (l : List (ℕ × Status)) (lo hi : ℕ) where
  pub emit-Reaches : (e : Effect) → Reaches (Ok env l lo hi) (λ _ w. Ok env l lo hi w) (emit e)
  emit-Reaches e = record { reaches = λ w h. h }

  -- A write to fields that are not followed.
  pub modify-Reaches :
      (f : World → World)
      → ((w : World) → Ok env l lo hi w → Ok env l lo hi (f w))
      → Reaches (Ok env l lo hi) (λ _ w. Ok env l lo hi w) (modify f)
  modify-Reaches f k = record { reaches = λ w h. k w h }
