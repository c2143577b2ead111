-- ===== src/Factory/Prepared/Seats.antt =====
-- A new display on seat0 where none is prepared: what the factory's operations on the seats keep.
use gdm.Base.{
  ℕ, suc, ◌+◌, ◌≤◌, ◌==◌, ◌≡◌, refl, ap, arith, Option, none, some, Bool, true, false, not, List,
  [], ◌∷◌, Bytes, same_bytes_iff, is_some, pure, when, ◌>>=◌, Ensures, inl, inr, Bool-cases,
  if◌then◌else◌,
}
use gdm.Session.Types.{same_text}
use gdm.Display.{number, prepared}
use gdm.Factory.{SeatDisplay, exported, Env, World, F, emit}
use gdm.Factory.Store.{
  GdmDisplayStore, gdm_display_store_lookup, gdm_display_store_find, gdm_display_store_add,
  gdm_display_store_remove,
}
use gdm.Factory.Displays.{
  put_status, set_status, gdm_display_prepare, update, with_display, display, by_option,
  store_display, emit_removals,
}
use gdm.Factory.Seats.{
  prepare_or_unmanage, create_unless_there, get_display_for_seat, get_session_types, is_seat0,
  seat0, lookup_prepared_display_by_seat_id, new_display,
}
use gdm.Factory.Keeps.{
  AtMost, HasRoom, Keeps, Leads, Keeps-Leads, bind-Leads, keeping, bind-Keeps, pure-Keeps,
  read-Keeps, when-Keeps, by_option-Keeps, require-Keeps, require_answer-Keeps, waiting, weight,
  is_waiting, waiting-change, waiting-prepare, weight-change, waiting-remove, waiting-add,
}
use gdm.Factory.Prepared.{gdm_display_unmanage-Keeps}

room-AtMost : (n b : ℕ) (w : World) → HasRoom n b w → AtMost b w
room-AtMost n b w h = omega (arith, h)

module _ (n b : ℕ) where
  room_update-Keeps :
      (f : SeatDisplay → SeatDisplay)
      → ((d : SeatDisplay) → (f d).seat_id ≡ d.seat_id)
      → ((d : SeatDisplay) → is_waiting (f d) ≡ true → is_waiting d ≡ true)
      → Keeps (HasRoom n b) (update n f)
  unfolding update
  room_update-Keeps f e h = record {
    keeps =
        λ w i. omega (arith, i, weight-change n f w.displays e, waiting-change n f w.displays h);
  }

  room_display-Keeps :
      (f : SeatDisplay → F (Unit {0}))
      → ((d : SeatDisplay) → Keeps (HasRoom n b) (f d))
      → Keeps (HasRoom n b) (with_display n f)
  unfolding with_display display
  room_display-Keeps f k =
      bind-Keeps (HasRoom n b) _ _ (read-Keeps (HasRoom n b) _)
        (λ o. by_option-Keeps (HasRoom n b) o (pure tt) f (pure-Keeps (HasRoom n b) tt) k)

module _ (n b : ℕ) (env : Env) (notify : ℕ → F (Unit {0}))
    (k : (n : ℕ) → Keeps (AtMost b) (notify n)) where
  put_prepared :
      (w : World)
      → HasRoom n b w
      → Ensures (λ _ w'. AtMost b w') (put_status env notify n prepared w)
  unfolding put_status update
  put_prepared w h = (k n).keeps _ (omega (arith, h, waiting-prepare n w.displays))

  set_prepared :
      (w : World)
      → HasRoom n b w
      → Ensures (λ _ w'. AtMost b w') (set_status env notify n prepared w)
  unfolding set_status with_display display
  set_prepared w h = go (gdm_display_store_lookup w.displays n)
    where
      turn :
          (c : Bool) → Ensures (λ _ w'. AtMost b w') (when c (put_status env notify n prepared) w)
      turn true = put_prepared w h
      turn false = room-AtMost n b w h

      go :
          (o : Option SeatDisplay)
          → Ensures
              (λ _ w'. AtMost b w')
              (by_option o
                (pure tt)
                (λ d.
                  when
                    (not (number d.state.status == number prepared))
                    (put_status env notify n prepared))
                w)
      go none = room-AtMost n b w h
      go (some d) = turn (not (number d.state.status == number prepared))

  prepare-Leads : Leads (HasRoom n b) (λ _ w. AtMost b w) (gdm_display_prepare env notify n)
  unfolding gdm_display_prepare
  prepare-Leads =
      bind-Leads (HasRoom n b) (λ _ w. HasRoom n b w) _ _ _
        (Keeps-Leads (HasRoom n b) _ (require-Keeps (HasRoom n b) env.machine.list_cached_users))
        (λ users.
          bind-Leads (HasRoom n b) (λ _ w. HasRoom n b w) _ _ _
            (Keeps-Leads (HasRoom n b) _ (
              room_display-Keeps n b _ (λ d.
                bind-Keeps (HasRoom n b) _ _ (require_answer-Keeps (HasRoom n b) _)
                  (λ wants. room_update-Keeps n b _ (λ e. refl) (λ e i. i)))))
            (λ _.
              bind-Leads (HasRoom n b) (λ _ w. AtMost b w) _ _ _ (record { leads = set_prepared })
                (λ _. Keeps-Leads (AtMost b) _ (pure-Keeps (AtMost b) true))))

  pub prepare_or_unmanage-Leads :
      Leads (HasRoom n b) (λ _ w. AtMost b w) (prepare_or_unmanage env notify n)
  unfolding prepare_or_unmanage
  prepare_or_unmanage-Leads =
      bind-Leads (HasRoom n b) (λ _ w. AtMost b w) _ _ _ prepare-Leads
        (λ ok. Keeps-Leads (AtMost b) _ (
          bind-Keeps (AtMost b) _ _
            (when-Keeps (AtMost b) (not ok) _ (gdm_display_unmanage-Keeps b env notify k n))
            (λ _. pure-Keeps (AtMost b) ok)))

emit_room : (n b : ℕ) (ns : List ℕ) → Leads (HasRoom n b) (λ _ w. HasRoom n b w) (emit_removals ns)
unfolding emit_removals
emit_room n b [] = record { leads = λ w h. h }
emit_room n b (m ∷ ns) = record { leads = λ w h. (emit_room n b ns).leads _ h }

announce_room :
    (n b : ℕ) (ns : List ℕ)
    → Leads
        (HasRoom n b)
        (λ m w. HasRoom m b w)
        (emit_removals ns >>= λ _. emit (exported n) >>= λ _. pure n)
announce_room n b ns =
    bind-Leads (HasRoom n b) (λ _ w. HasRoom n b w) (λ m w. HasRoom m b w) _ _ (emit_room n b ns)
      (λ _. record { leads = λ w h. h })

added-HasRoom :
    (b n : ℕ) (d : SeatDisplay) (st : GdmDisplayStore SeatDisplay)
    → is_waiting d ≡ false
    → (if is_seat0 d.seat_id then 1 else 0) + waiting st ≤ b
    → weight (gdm_display_store_lookup (gdm_display_store_add st n d).0 n)
        + waiting (gdm_display_store_add st n d).0
      ≤ b
unfolding gdm_display_store_add gdm_display_store_remove gdm_display_store_lookup waiting
added-HasRoom b n d st e h = ground (arith, waiting-remove st (λ k _. k == n))

-- A display that is stored has its own room.
pub store_display-Leads :
    (b : ℕ) (d : SeatDisplay)
    → is_waiting d ≡ false
    → Leads
        (λ w. (if is_seat0 d.seat_id then 1 else 0) + waiting w.displays ≤ b)
        (λ n w. HasRoom n b w)
        (store_display d)
unfolding store_display
store_display-Leads b d e = record {
  leads = λ w h.
      (let d' = record d { is_watched = w.is_listening } in
        let added = gdm_display_store_add w.displays w.next_number d' in
        (announce_room w.next_number b added.1).leads
          (record w {
            displays = added.0;
            changes = w.changes + 1;
            next_number = w.next_number + 1;
          })
          (added-HasRoom b w.next_number d' w.displays e h));
}

announce-Keeps :
    (n b : ℕ) (ns : List ℕ)
    → Keeps (AtMost b) (emit_removals ns >>= λ _. emit (exported n) >>= λ _. pure n)
announce-Keeps n b ns = search keeping depth 14 fits 3000

-- A display that is not prepared changes nothing when it is stored.
pub store_display-Keeps :
    (b : ℕ) (d : SeatDisplay) → is_waiting d ≡ false → Keeps (AtMost b) (store_display d)
unfolding store_display
store_display-Keeps b d e = record {
  keeps = λ w h.
      (let d' = record d { is_watched = w.is_listening } in
        let added = gdm_display_store_add w.displays w.next_number d' in
        (announce-Keeps w.next_number b added.1).keeps
          (record w {
            displays = added.0;
            changes = w.changes + 1;
            next_number = w.next_number + 1;
          })
          (ground (arith, e, h, waiting-add w.displays w.next_number d')));
}

pub same_text_iff : (a b : Option Bytes) → (same_text a b ≡ true) → a ≡ b
same_text_iff none none h = refl
same_text_iff none (some b) h = cc
same_text_iff (some a) none h = cc
same_text_iff (some a) (some b) h = ap some ((same_bytes_iff a b).0 h)

find_none :
    (st : GdmDisplayStore SeatDisplay)
    → gdm_display_store_find st (lookup_prepared_display_by_seat_id seat0) ≡ none
    → waiting st ≡ 0
unfolding gdm_display_store_find waiting
find_none [] h = refl
find_none ((k, d) ∷ st) h = ground (arith, find_none st)

-- There is room for a display on the seat if none is found for it.
abbrev WasLooked : ℕ → Option Bytes → Option (ℕ × SeatDisplay) → World → Type 0
WasLooked b seat o w =
    AtMost b w × (o ≡ none → (if is_seat0 seat then 1 else 0) + waiting w.displays ≤ b)

looked :
    (c : ℕ) (seat : Option Bytes) (w : World)
    → AtMost (suc c) w
    → Ensures (WasLooked (suc c) seat) (get_display_for_seat seat w)
unfolding get_display_for_seat
looked c seat w h = elim (Bool-cases (is_seat0 seat)) [
  | inl y ↦ rw (same_text_iff seat seat0 y) (h, λ e. omega (arith, find_none w.displays e))
  | inr n ↦ rw n (h, λ e. ground (arith, n, h))
]

module _ (c : ℕ) (env : Env) (notify : ℕ → F (Unit {0}))
    (k : (n : ℕ) → Keeps (AtMost (suc c)) (notify n)) (seat : Option Bytes) where
  create-Leads :
      (types : List Bytes) (o : Option (ℕ × SeatDisplay))
      → Leads
          (WasLooked (suc c) seat o)
          (λ _ w. AtMost (suc c) w)
          (when (not (is_some o)) (
            store_display (new_display types seat (is_seat0 seat) none) >>= λ n.
            prepare_or_unmanage env notify n >>= λ ok. pure tt))
  create-Leads types (some d) = record { leads = λ w h. h.0 }
  create-Leads types none = record {
    leads = λ w h.
        (bind-Leads _ (λ n w. HasRoom n (suc c) w) (λ _ w. AtMost (suc c) w) _ _
            (store_display-Leads (suc c) (new_display types seat (is_seat0 seat) none) refl)
            (λ n.
              bind-Leads (HasRoom n (suc c)) (λ _ w. AtMost (suc c) w) _ _ _
                (prepare_or_unmanage-Leads n (suc c) env notify k)
                (λ ok. Keeps-Leads (AtMost (suc c)) _ (pure-Keeps (AtMost (suc c)) tt)))).leads
          w (h.1 refl);
  }

  pub create_unless_there-Keeps : Keeps (AtMost (suc c)) (create_unless_there env notify seat)
  unfolding create_unless_there
  create_unless_there-Keeps = record {
    keeps = λ w h.
        (bind-Leads (AtMost (suc c)) (λ _ w. AtMost (suc c) w) (λ _ w. AtMost (suc c) w) _ _
            (Keeps-Leads (AtMost (suc c)) _
              (require-Keeps (AtMost (suc c)) (get_session_types env)))
            (λ types.
              bind-Leads (AtMost (suc c)) (WasLooked (suc c) seat) (λ _ w. AtMost (suc c) w) _ _
                (record { leads = looked c seat }) (create-Leads types))).leads
          w h;
  }
