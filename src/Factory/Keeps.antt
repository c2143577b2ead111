-- ===== src/Factory/Keeps.antt =====
-- How many displays on seat0 are prepared, and what keeps that number below a bound.
use gdm.Base.{
  ℕ, ◌+◌, ◌≤◌, ◌==◌, ◌≡◌, refl, sym, subst, arith, Option, none, some, Bool, true, false, List, [],
  ◌∷◌, if◌then◌else◌, pure, read, modify, when, ◌>>=◌, Ensures, Ensures-bind,
}
use gdm.Config.Direct.{Answer, aborted, refused, got}
use gdm.Display.{prepared}
use gdm.Factory.{SeatDisplay, Effect, World, F, emit}
use gdm.Factory.Store.{
  GdmDisplayStore, gdm_display_store_lookup, gdm_display_store_foreach_remove,
  gdm_display_store_remove, gdm_display_store_add, change,
}
use gdm.Factory.Displays.{
  display, with_display, update, with_status, branch, by_option, answer, require, require_answer,
  emit_removals,
}
use gdm.Factory.Seats.{is_seat0, seat0, lookup_prepared_display_by_seat_id}

-- The display is prepared for a login on seat0.
abbrev pub is_waiting : SeatDisplay → Bool
is_waiting d = lookup_prepared_display_by_seat_id seat0 d

unfoldable pub waiting : GdmDisplayStore SeatDisplay → ℕ
waiting [] = 0
waiting ((k, d) ∷ st) = (if is_waiting d then 1 else 0) + waiting st

-- One, if the display of the number is on seat0.
abbrev pub weight : Option SeatDisplay → ℕ
weight none = 0
weight (some d) = if is_seat0 d.seat_id then 1 else 0

pub waiting-remove :
    (st : GdmDisplayStore SeatDisplay) (p : ℕ → SeatDisplay → Bool)
    → waiting (gdm_display_store_foreach_remove st p).0 ≤ waiting st
unfolding gdm_display_store_foreach_remove waiting
waiting-remove [] p = omega arith
waiting-remove ((k, d) ∷ st) p = ground (arith, waiting-remove st p)

pub waiting-add :
    (st : GdmDisplayStore SeatDisplay) (n : ℕ) (d : SeatDisplay)
    → waiting (gdm_display_store_add st n d).0 ≤ (if is_waiting d then 1 else 0) + waiting st
unfolding gdm_display_store_add gdm_display_store_remove waiting
waiting-add st n d = omega (arith, waiting-remove st (λ k _. k == n))

-- A change that makes no display wait.
pub waiting-change :
    (n : ℕ) (f : SeatDisplay → SeatDisplay) (st : GdmDisplayStore SeatDisplay)
    → ((d : SeatDisplay) → is_waiting (f d) ≡ true → is_waiting d ≡ true)
    → waiting (change n f st) ≤ waiting st
unfolding change waiting
waiting-change n f [] h = omega arith
waiting-change n f ((k, d) ∷ st) h = ground (arith, waiting-change n f st h, h d)

pub waiting-prepare :
    (n : ℕ) (st : GdmDisplayStore SeatDisplay)
    → waiting (change n (with_status prepared) st)
      ≤ weight (gdm_display_store_lookup st n) + waiting st
unfolding change waiting gdm_display_store_lookup
waiting-prepare n [] = omega arith
waiting-prepare n ((k, d) ∷ st) = ground (arith, waiting-prepare n st)

pub weight-change :
    (n : ℕ) (f : SeatDisplay → SeatDisplay) (st : GdmDisplayStore SeatDisplay)
    → ((d : SeatDisplay) → (f d).seat_id ≡ d.seat_id)
    → weight (gdm_display_store_lookup (change n f st) n) ≡ weight (gdm_display_store_lookup st n)
unfolding change gdm_display_store_lookup
weight-change n f [] h = refl
weight-change n f ((k, d) ∷ st) h = ground (arith, weight-change n f st h, h d)

abbrev pub AtMost : ℕ → World → Type 0
AtMost b w = waiting w.displays ≤ b

-- There is room for the display of the number to wait.
abbrev pub HasRoom : ℕ → ℕ → World → Type 0
HasRoom n b w = weight (gdm_display_store_lookup w.displays n) + waiting w.displays ≤ b

-- An operation keeps what holds of the world.
pub record Keeps {A : Type 0} (I : World → Type 0) (m : F A) : Type 0 where
  pub keeps : (w : World) → I w → Ensures (λ (a : A) w'. I w') (m w)

module _ (I : World → Type 0) where
  pub pure-Keeps : {A : Type 0} (a : A) → Keeps I (pure a)
  pure-Keeps a = record { keeps = λ w h. h }

  pub read-Keeps : {A : Type 0} (f : World → A) → Keeps I (read f)
  read-Keeps f = record { keeps = λ w h. h }

  pub bind-Keeps :
      {A B : Type 0} (m : F A) (f : A → F B)
      → Keeps I m
      → ((a : A) → Keeps I (f a))
      → Keeps I (m >>= f)
  bind-Keeps m f h k = record {
    keeps = λ w i.
        Ensures-bind (λ a w'. I w') (λ b w'. I w') m f w (h.keeps w i) (λ a w' j. (k a).keeps w' j);
  }

  pub when-Keeps : (b : Bool) (m : F (Unit {0})) → Keeps I m → Keeps I (when b m)
  when-Keeps true m k = record { keeps = λ w h. k.keeps w h }
  when-Keeps false m k = record { keeps = λ w h. h }

  pub branch-Keeps :
      {A : Type 0} (b : Bool) (m k : F A) → Keeps I m → Keeps I k → Keeps I (branch b m k)
  branch-Keeps true m k h j = record { keeps = λ w i. h.keeps w i }
  branch-Keeps false m k h j = record { keeps = λ w i. j.keeps w i }

  pub by_option-Keeps :
      {A B : Type 0} (o : Option A) (m : F B) (f : A → F B)
      → Keeps I m
      → ((a : A) → Keeps I (f a))
      → Keeps I (by_option o m f)
  by_option-Keeps none m f h k = record { keeps = λ w i. h.keeps w i }
  by_option-Keeps (some a) m f h k = record { keeps = λ w i. (k a).keeps w i }

  pub require-Keeps : {A : Type 0} (o : Option A) → Keeps I (require o)
  require-Keeps none = record { keeps = λ w h. tt }
  require-Keeps (some a) = record { keeps = λ w h. h }

  pub require_answer-Keeps : {A : Type 0} (o : Answer A) → Keeps I (require_answer o)
  require_answer-Keeps aborted = record { keeps = λ w h. tt }
  require_answer-Keeps refused = record { keeps = λ w h. tt }
  require_answer-Keeps (got a) = record { keeps = λ w h. h }

  pub answer-Keeps : {A : Type 0} (o : Answer A) → Keeps I (answer o)
  answer-Keeps aborted = record { keeps = λ w h. tt }
  answer-Keeps refused = record { keeps = λ w h. h }
  answer-Keeps (got a) = record { keeps = λ w h. h }

-- An operation leads from what holds before to what holds after it.
pub record Leads {A : Type 0} (I : World → Type 0) (J : A → World → Type 0) (m : F A) : Type 0 where
  pub leads : (w : World) → I w → Ensures J (m w)

pub Keeps-Leads :
    (I : World → Type 0) {A : Type 0} (m : F A) → Keeps I m → Leads I (λ (_ : A) w. I w) m
Keeps-Leads I m k = record { leads = λ w h. k.keeps w h }

pub bind-Leads :
    (I : World → Type 0) {A B : Type 0} (J : A → World → Type 0) (K : B → World → Type 0) (m : F A)
    (f : A → F B)
    → Leads I J m
    → ((a : A) → Leads (J a) K (f a))
    → Leads I K (m >>= f)
bind-Leads I J K m f h k = record {
  leads = λ w i. Ensures-bind J K m f w (h.leads w i) (λ a w' j. (k a).leads w' j);
}

module _ (b : ℕ) where
  -- A write that leaves the store alone.
  pub modify-Keeps :
      (f : World → World)
      → ((w : World) → (f w).displays ≡ w.displays)
      → Keeps (AtMost b) (modify f)
  modify-Keeps f e = record {
    keeps = λ w h. subst (λ (st : GdmDisplayStore SeatDisplay). waiting st ≤ b) (sym (e w)) h;
  }

  pub emit-Keeps : (e : Effect) → Keeps (AtMost b) (emit e)
  emit-Keeps e = record { keeps = λ w h. h }

  pub emit_removals-Keeps : (ns : List ℕ) → Keeps (AtMost b) (emit_removals ns)
  unfolding emit_removals
  emit_removals-Keeps [] = pure-Keeps (AtMost b) tt
  emit_removals-Keeps (n ∷ ns) =
      bind-Keeps (AtMost b) _ _ (emit-Keeps _) (λ _. emit_removals-Keeps ns)

  pub update-Keeps :
      (n : ℕ) (f : SeatDisplay → SeatDisplay)
      → ((d : SeatDisplay) → is_waiting (f d) ≡ true → is_waiting d ≡ true)
      → Keeps (AtMost b) (update n f)
  unfolding update
  update-Keeps n f h = record { keeps = λ w i. omega (arith, i, waiting-change n f w.displays h) }

  pub with_display-Keeps :
      (n : ℕ) (f : SeatDisplay → F (Unit {0}))
      → ((d : SeatDisplay) → Keeps (AtMost b) (f d))
      → Keeps (AtMost b) (with_display n f)
  unfolding with_display display
  with_display-Keeps n f k =
      bind-Keeps (AtMost b) _ _ (read-Keeps (AtMost b) _)
        (λ o. by_option-Keeps (AtMost b) o (pure tt) f (pure-Keeps (AtMost b) tt) k)

pub ruleset keeping = (
  bind-Keeps, pure-Keeps, read-Keeps, when-Keeps, branch-Keeps, by_option-Keeps, require-Keeps,
  require_answer-Keeps, answer-Keeps, modify-Keeps, emit-Keeps, emit_removals-Keeps, update-Keeps,
  with_display-Keeps,
)
