-- ===== src/Factory/Retries/Creation.antt =====
-- A new display on seat0 is stored and prepared, and the preparation ends.
use gdm.Base.{
  ℕ, ◌+◌, ◌≤◌, ◌==◌, ◌≡◌, refl, sym, subst, arith, none, Bool, true, false, not, List, [], ◌∷◌,
  Bytes, codes, same_bytes, is_some, pure, when, ◌>>=◌, ==_iff,
}
use gdm.Config.Direct.{Answer, aborted, refused, got}
use gdm.Display.{Status, unmanaged, prepared, is_positive}
use gdm.Factory.{SeatDisplay, exported, Env, World, F, emit}
use gdm.Factory.Store.{
  GdmDisplayStore, gdm_display_store_lookup, gdm_display_store_add, gdm_display_store_remove,
  gdm_display_store_find,
}
use gdm.Factory.Displays.{
  require_answer, gdm_display_prepare, gdm_display_unmanage, store_display, emit_removals,
}
use gdm.Factory.Seats.{
  lookup_prepared_display_by_seat_id, seat0, get_session_types, new_display, prepare_or_unmanage,
  create_unless_there, get_display_for_seat,
}
use gdm.Factory.Retries.{
  Reaches, Ok, IsGreeter, IsAt, Avoids, AreAt, AreBelow, lookup-remove_other, bind-Reaches,
  update-Reaches, with_display-Reaches, pure-Reaches, read-Reaches, require-Reaches,
}
use gdm.Factory.Retries.Manager.{set_status-Reaches}
use gdm.Factory.Retries.Calm.{IsCalm, IsGot, wants-IsGot}

-- The world only forgets what is followed, or how many failures there are at least.
pub forget-Ok :
    (env : Env) (l : List (ℕ × Status)) (n : ℕ) (s : Status) (lo hi : ℕ) (w : World)
    → hi ≤ 6
    → Ok env ((n, s) ∷ l) lo hi w
    → Ok env l 0 6 w
forget-Ok env l n s lo hi w b h = (h.0.2, h.1.1, h.2, omega arith, omega (arith, b, h.4))

pub loosen-Ok :
    (env : Env) (l : List (ℕ × Status)) (lo hi : ℕ) (w : World)
    → hi ≤ 6
    → Ok env l lo hi w
    → Ok env l 0 6 w
loosen-Ok env l lo hi w b h = (h.0, h.1, h.2, omega arith, omega (arith, b, h.4))

Avoids-below : (l : List (ℕ × Status)) (b : ℕ) → AreBelow l b → Avoids b l
Avoids-below [] b h = tt
Avoids-below ((n, s) ∷ l) b (i, h) = (ground (arith, i), Avoids-below l b h)

AreBelow-suc : (l : List (ℕ × Status)) (b : ℕ) → AreBelow l b → AreBelow l (b + 1)
AreBelow-suc [] b h = tt
AreBelow-suc ((n, s) ∷ l) b (i, h) = (omega (arith, i), AreBelow-suc l b h)

lookup-add_other :
    (st : GdmDisplayStore SeatDisplay) (n m : ℕ) (d : SeatDisplay)
    → (m == n) ≡ false
    → gdm_display_store_lookup (gdm_display_store_add st n d).0 m ≡ gdm_display_store_lookup st m
unfolding gdm_display_store_add gdm_display_store_remove gdm_display_store_lookup
lookup-add_other st n m d h = ground (arith, h, lookup-remove_other st n m h)

AreAt-add :
    (l : List (ℕ × Status)) (st : GdmDisplayStore SeatDisplay) (n : ℕ) (d : SeatDisplay)
    → Avoids n l
    → AreAt l st
    → AreAt l (gdm_display_store_add st n d).0
AreAt-add [] st n d a h = tt
AreAt-add ((m, s) ∷ l) st n d (e, a) (i, b, h) =
    (subst (IsAt s) (sym (lookup-add_other st n m d e)) i, b, AreAt-add l st n d a h)

IsAt-add :
    (st : GdmDisplayStore SeatDisplay) (n : ℕ) (s : Status) (d : SeatDisplay)
    → IsGreeter s d
    → IsAt s (gdm_display_store_lookup (gdm_display_store_add st n d).0 n)
unfolding gdm_display_store_add gdm_display_store_lookup
IsAt-add st n s d h = rw ((==_iff n n).1 refl) h

emit_removals-Reaches :
    (env : Env) (l : List (ℕ × Status)) (lo hi : ℕ) (ns : List ℕ)
    → Reaches (Ok env l lo hi) (λ _ w. Ok env l lo hi w) (emit_removals ns)
unfolding emit_removals
emit_removals-Reaches env l lo hi [] = record { reaches = λ w h. h }
emit_removals-Reaches env l lo hi (m ∷ ns) = record {
  reaches = λ w h. (emit_removals-Reaches env l lo hi ns).reaches _ h;
}

announce-Reaches :
    (env : Env) (l : List (ℕ × Status)) (lo hi n : ℕ) (ns : List ℕ)
    → Reaches
        (Ok env ((n, unmanaged) ∷ l) lo hi)
        (λ m w. Ok env ((m, unmanaged) ∷ l) lo hi w)
        (emit_removals ns >>= λ _. emit (exported n) >>= λ _. pure n)
announce-Reaches env l lo hi n ns =
    bind-Reaches _ (λ _ w. Ok env ((n, unmanaged) ∷ l) lo hi w)
      (λ m w. Ok env ((m, unmanaged) ∷ l) lo hi w) _ _
      (emit_removals-Reaches env ((n, unmanaged) ∷ l) lo hi ns) (λ _. record { reaches = λ w h. h })

store_display-Reaches :
    (env : Env) (l : List (ℕ × Status)) (lo hi : ℕ) (types : List Bytes)
    → Reaches
        (Ok env l lo hi)
        (λ n w. Ok env ((n, unmanaged) ∷ l) lo hi w)
        (store_display (new_display types seat0 true none))
unfolding store_display
store_display-Reaches env l lo hi types = record {
  reaches = λ w h.
      (let d = record (new_display types seat0 true none) { is_watched = w.is_listening } in
        let added = gdm_display_store_add w.displays w.next_number d in
        (announce-Reaches env l lo hi w.next_number added.1).reaches
          (record w {
            displays = added.0;
            changes = w.changes + 1;
            next_number = w.next_number + 1;
          })
          (
            (
              IsAt-add w.displays w.next_number unmanaged d (refl, refl, refl, refl),
              Avoids-below l w.next_number h.1,
              AreAt-add l w.displays w.next_number d (Avoids-below l w.next_number h.1) h.0,
            ),
            (omega arith, AreBelow-suc l w.next_number h.1),
            h.2,
            h.3,
            h.4,
          ));
}

require_answer-Reaches :
    (I : World → Type 0) (a : Answer Bool) → IsGot a → Reaches I (λ _ w. I w) (require_answer a)
require_answer-Reaches I aborted (b, e) = cc
require_answer-Reaches I refused (b, e) = cc
require_answer-Reaches I (got b) e = record { reaches = λ w h. h }

module _ (env : Env) (calm : IsCalm env) (told : ℕ → F (Unit {0})) (l : List (ℕ × Status))
    (lo : ℕ) where
  prepare-Reaches :
      (n : ℕ)
      → Reaches (Ok env ((n, prepared) ∷ l) lo 5) (λ _ w. Ok env l 0 6 w) (told n)
      → Reaches
          (Ok env ((n, unmanaged) ∷ l) lo 5)
          (λ ok w. (ok ≡ true) × Ok env l 0 6 w)
          (gdm_display_prepare env told n)
  unfolding gdm_display_prepare
  prepare-Reaches n k =
      bind-Reaches I (λ _ w. I w) _ _ _
        (require-Reaches I env.machine.list_cached_users calm.users calm.lists)
        (λ users.
          bind-Reaches I (λ _ w. I w) _ _ _
            (with_display-Reaches env l lo 5 n unmanaged (λ _ w. I w) _
              (λ d i.
                bind-Reaches I (λ _ w. I w) (λ _ w. I w) _ _
                  (require_answer-Reaches I _ (
                    wants-IsGot env calm
                      (record d.state { have_existing_user_accounts = is_positive users })))
                  (λ wants.
                    update-Reaches env l lo 5 n unmanaged unmanaged
                      (λ e. record e {
                        state = record e.state {
                          have_existing_user_accounts = is_positive users;
                          doing_initial_setup = wants;
                          launch_environment = same_bytes d.session_class (codes "greeter");
                        };
                      })
                      (λ e j. j))))
            (λ _.
              bind-Reaches I (λ _ w. Ok env l 0 6 w) _ _ _
                (set_status-Reaches env told l n unmanaged prepared lo 5 (λ _ w. Ok env l 0 6 w)
                  refl k)
                (λ _. record { reaches = λ w h. (refl, h) })))
    where
      I : World → Type 0
      I = Ok env ((n, unmanaged) ∷ l) lo 5

  unless_prepared :
      (n : ℕ) (ok : Bool)
      → Reaches
          (λ w. (ok ≡ true) × Ok env l 0 6 w)
          (λ _ w. Ok env l 0 6 w)
          (when (not ok) (gdm_display_unmanage env told n) >>= λ _. pure ok)
  unless_prepared n true = record { reaches = λ w h. h.1 }
  unless_prepared n false = record { reaches = λ w h. absurd (differ h.0) }
    where
      differ : false ≡ true → ⊥
      differ e = cc

  prepare_or_unmanage-Reaches :
      (n : ℕ)
      → Reaches (Ok env ((n, prepared) ∷ l) lo 5) (λ _ w. Ok env l 0 6 w) (told n)
      → Reaches
          (Ok env ((n, unmanaged) ∷ l) lo 5)
          (λ _ w. Ok env l 0 6 w)
          (prepare_or_unmanage env told n)
  unfolding prepare_or_unmanage
  prepare_or_unmanage-Reaches n k =
      bind-Reaches _ (λ ok w. (ok ≡ true) × Ok env l 0 6 w) (λ _ w. Ok env l 0 6 w) _ _
        (prepare-Reaches n k) (unless_prepared n)

  module _
      (k : (n : ℕ)
        → Reaches (Ok env ((n, prepared) ∷ l) lo 5) (λ _ w. Ok env l 0 6 w) (told n)) where
    unless_there :
        (types : List Bytes) (b : Bool)
        → Reaches
            (Ok env l lo 5)
            (λ _ w. Ok env l 0 6 w)
            (when b (
              store_display (new_display types seat0 true none) >>= λ n.
              prepare_or_unmanage env told n >>= λ ok. pure tt))
    unless_there types true = record {
      reaches = λ w h.
          (bind-Reaches (Ok env l lo 5) (λ n w. Ok env ((n, unmanaged) ∷ l) lo 5 w)
              (λ _ w. Ok env l 0 6 w) _ _ (store_display-Reaches env l lo 5 types)
              (λ n.
                bind-Reaches _ (λ _ w. Ok env l 0 6 w) (λ _ w. Ok env l 0 6 w) _ _
                  (prepare_or_unmanage-Reaches n (k n))
                  (λ ok. pure-Reaches (Ok env l 0 6) tt))).reaches
            w h;
    }
    unless_there types false = record { reaches = λ w h. loosen-Ok env l lo 5 w (omega arith) h }

    pub create_unless_there-Reaches :
        Reaches (Ok env l lo 5) (λ _ w. Ok env l 0 6 w) (create_unless_there env told seat0)
    unfolding create_unless_there get_display_for_seat
    create_unless_there-Reaches =
        bind-Reaches I (λ _ w. I w) (λ _ w. Ok env l 0 6 w) _ _
          (require-Reaches I (get_session_types env) calm.types calm.reads)
          (λ types.
            bind-Reaches I (λ _ w. I w) (λ _ w. Ok env l 0 6 w) _ _
              (read-Reaches I
                (λ w. gdm_display_store_find w.displays (lookup_prepared_display_by_seat_id seat0)))
              (λ there. unless_there types (not (is_some there))))
      where
        I : World → Type 0
        I = Ok env l lo 5
