-- ===== src/Factory/Prepared/Requests.antt =====
-- Displays that leave the store, and displays that clients ask for: how many wait for a login on seat0.
use gdm.Base.{
  ℕ, suc, ◌≤◌, refl, arith, Option, none, some, Bool, true, false, List, [], ◌∷◌, Bytes, codes,
  read, Ensures,
}
use gdm.Factory.{SeatDisplay, refused_call, Env, World, F}
use gdm.Factory.Store.{GdmDisplayStore, gdm_display_store_foreach_remove}
use gdm.Factory.Displays.{branch}
use gdm.Factory.Seats.{notify, new_display, seat0, get_session_types}
use gdm.Factory.Users.{
  note_creation, on_user_display_creation, on_user_display_destruction,
  authorize_manage_user_displays, ensure_polkit_authority, terminate_sessions, authorized_call,
  reply, create_display, create_remote_display, new_remote_display, handle_create_transient_display,
  handle_create_user_display, handle_destroy_user_display, handle_create_remote_display,
  handle_create_remote_user_display,
}
use gdm.Factory.Loop.{write_removal, remove_displays, delete_display, purge_displays}
use gdm.Factory.Keeps.{
  AtMost, HasRoom, Keeps, Leads, Keeps-Leads, bind-Leads, keeping, bind-Keeps, pure-Keeps, waiting,
  waiting-remove, emit_removals-Keeps, emit-Keeps, branch-Keeps, require-Keeps,
}
use gdm.Factory.Prepared.Seats.{prepare_or_unmanage-Leads, store_display-Leads}
use gdm.Factory.Prepared.Owner.{notify-Keeps}

module _ (b : ℕ) where
  write_removal-Leads :
      (r : GdmDisplayStore SeatDisplay × List ℕ)
      → Leads (λ w. AtMost b w × (waiting r.0 ≤ b)) (λ _ w. AtMost b w) (write_removal r)
  write_removal-Leads (st, []) = record { leads = λ w h. h.0 }
  write_removal-Leads (st, n ∷ ns) = record { leads = λ w h. h.1 }

  read_removal :
      (p : ℕ → SeatDisplay → Bool)
      → Leads
          (AtMost b)
          (λ r w. AtMost b w × (waiting r.0 ≤ b))
          (read (λ (w : World). gdm_display_store_foreach_remove w.displays p))
  read_removal p = record { leads = λ w i. (i, omega (arith, i, waiting-remove w.displays p)) }

  remove_displays-Keeps : (p : ℕ → SeatDisplay → Bool) → Keeps (AtMost b) (remove_displays p)
  unfolding remove_displays
  remove_displays-Keeps p = record {
    keeps = λ w h.
        (bind-Leads (AtMost b) (λ r w. AtMost b w × (waiting r.0 ≤ b)) (λ _ w. AtMost b w) _ _
            (read_removal p)
            (λ r.
              bind-Leads _ (λ _ w. AtMost b w) (λ _ w. AtMost b w) _ _ (write_removal-Leads r)
                (λ _. Keeps-Leads (AtMost b) _ (emit_removals-Keeps b r.1)))).leads
          w h;
  }

  pub delete_display-Keeps : (seat : Option Bytes) → Keeps (AtMost b) (delete_display seat)
  unfolding delete_display
  delete_display-Keeps seat = remove_displays-Keeps _

  pub purge_displays-Keeps : Keeps (AtMost b) purge_displays
  unfolding purge_displays
  purge_displays-Keeps = search (keeping, remove_displays-Keeps) depth 14 fits 3000

module _ (b : ℕ) (env : Env) where
  note_creation-Keeps :
      (user : Bytes) (o : Option (List Bytes)) → Keeps (AtMost b) (note_creation user o)
  note_creation-Keeps user none = search keeping
  note_creation-Keeps user (some []) = search keeping
  note_creation-Keeps user (some (s ∷ ss)) = search keeping

  creation-Keeps : (user : Bytes) → Keeps (AtMost b) (on_user_display_creation env user)
  unfolding on_user_display_creation
  creation-Keeps user = search (keeping, note_creation-Keeps) depth 14 fits 3000

  terminate-Keeps : (sessions : List Bytes) → Keeps (AtMost b) (terminate_sessions env sessions)
  unfolding terminate_sessions
  terminate-Keeps [] = search keeping
  terminate-Keeps (s ∷ ss) =
      branch-Keeps (AtMost b) _ _ _
        (bind-Keeps (AtMost b) _ _ (emit-Keeps b _) (λ _. terminate-Keeps ss))
        (pure-Keeps (AtMost b) false)

  destruction-Keeps : (user : Bytes) → Keeps (AtMost b) (on_user_display_destruction env user)
  unfolding on_user_display_destruction
  destruction-Keeps user = search (keeping, terminate-Keeps) depth 14 fits 3000

  authorize-Keeps : (method : Bytes) → Keeps (AtMost b) (authorize_manage_user_displays env method)
  unfolding authorize_manage_user_displays ensure_polkit_authority
  authorize-Keeps method = search keeping depth 14 fits 3000

  reply-Keeps : (ok : Bool) (i : ℕ) (id : Option ℕ) → Keeps (AtMost b) (reply ok i id)
  reply-Keeps true i id = search keeping
  reply-Keeps false i id = search keeping

more-Leads :
    (b : ℕ) {A : Type 0} (m : F A)
    → Keeps (AtMost b) m
    → Leads (AtMost b) (λ (_ : A) w. AtMost (suc b) w) m
more-Leads b {A = A} m k = record { leads = λ w h. go (m w) (k.keeps w h) }
  where
    go :
        (r : Option (A × World))
        → Ensures (λ _ w'. AtMost b w') r
        → Ensures (λ _ w'. AtMost (suc b) w') r
    go none h = tt
    go (some (a, w')) h = omega (arith, h)

branch-Leads :
    (b : ℕ) (t : Bool) (m k : F (Unit {0}))
    → Leads (AtMost b) (λ _ w. AtMost (suc b) w) m
    → Keeps (AtMost b) k
    → Leads (AtMost b) (λ _ w. AtMost (suc b) w) (branch t m k)
branch-Leads b true m k h j = record { leads = λ w i. h.leads w i }
branch-Leads b false m k h j = record { leads = λ w i. (more-Leads b k j).leads w i }

authorized-Leads :
    (b : ℕ) (env : Env) (i : ℕ) (method : Bytes) (handler : F (Unit {0}))
    → Leads (AtMost b) (λ _ w. AtMost (suc b) w) handler
    → Leads (AtMost b) (λ _ w. AtMost (suc b) w) (authorized_call env i method handler)
authorized-Leads b env i method handler h =
    bind-Leads (AtMost b) (λ _ w. AtMost b w) _ _ _
      (Keeps-Leads (AtMost b) _ (authorize-Keeps b env method))
      (λ ok. branch-Leads b ok _ _ h (emit-Keeps b _))

module _ (c : ℕ) (env : Env) (fuel : ℕ) where
  abbrev notified : ℕ → F (Unit {0})
  notified = notify env fuel

  create_display-Leads :
      (user : Option Bytes)
      → Leads (AtMost c) (λ _ w. AtMost (suc c) w) (create_display env notified user)
  unfolding create_display
  create_display-Leads user =
      bind-Leads (AtMost c) (λ _ w. AtMost c w) _ _ _
        (Keeps-Leads (AtMost c) _ (require-Keeps (AtMost c) (get_session_types env)))
        (λ types.
          bind-Leads (AtMost c) (λ n w. HasRoom n (suc c) w) _ _ _
            (record {
              leads = λ w h.
                  (store_display-Leads (suc c) (new_display types seat0 true user) refl).leads w
                    (omega (arith, h));
            })
            (λ n.
              bind-Leads (HasRoom n (suc c)) (λ _ w. AtMost (suc c) w) _ _ _
                (prepare_or_unmanage-Leads n (suc c) env notified (notify-Keeps c env fuel))
                (λ ok. Keeps-Leads (AtMost (suc c)) _ (pure-Keeps (AtMost (suc c)) (ok, n)))))

  create_remote-Keeps :
      (user : Option Bytes) → Keeps (AtMost (suc c)) (create_remote_display env notified user)
  unfolding create_remote_display
  create_remote-Keeps user = record {
    keeps = λ w h.
        (bind-Leads (AtMost (suc c)) (λ n w. HasRoom n (suc c) w) (λ _ w. AtMost (suc c) w) _ _
            (record {
              leads = λ w i.
                  (store_display-Leads (suc c) (new_remote_display env notified user) refl).leads w
                    (omega (arith, i));
            })
            (λ n. prepare_or_unmanage-Leads n (suc c) env notified (notify-Keeps c env fuel))).leads
          w h;
  }

  pub create_transient-Leads :
      (i : ℕ)
      → Leads (AtMost c) (λ _ w. AtMost (suc c) w) (handle_create_transient_display env notified i)
  unfolding handle_create_transient_display
  create_transient-Leads i = authorized-Leads c env i (codes "CreateTransientDisplay") _ (
      bind-Leads (AtMost c) (λ _ w. AtMost (suc c) w) _ _ _ (create_display-Leads none)
        (λ created.
          Keeps-Leads (AtMost (suc c)) _ (reply-Keeps (suc c) env created.0 i (some created.1))))

  pub create_user-Leads :
      (i : ℕ) (user : Bytes)
      → Leads (AtMost c) (λ _ w. AtMost (suc c) w) (handle_create_user_display env notified i user)
  unfolding handle_create_user_display
  create_user-Leads i user = authorized-Leads c env i (codes "CreateUserDisplay") _ (
      bind-Leads (AtMost c) (λ _ w. AtMost c w) _ _ _
        (Keeps-Leads (AtMost c) _ (creation-Keeps c env user))
        (λ allowed.
          branch-Leads c allowed _ _
            (bind-Leads (AtMost c) (λ _ w. AtMost (suc c) w) _ _ _
              (create_display-Leads (some user))
              (λ created.
                Keeps-Leads (AtMost (suc c)) _ (reply-Keeps (suc c) env created.0 i none)))
            (emit-Keeps c (refused_call i))))

  pub destroy_user-Keeps :
      (i : ℕ) (user : Bytes) → Keeps (AtMost c) (handle_destroy_user_display env notified i user)
  unfolding handle_destroy_user_display
  destroy_user-Keeps i user =
      search (keeping, authorize-Keeps c env, destruction-Keeps c env, reply-Keeps c env) depth 14
        fits 3000

  pub create_remote_display-Keeps :
      (i : ℕ) (has_id : Bool)
      → Keeps (AtMost (suc c)) (handle_create_remote_display env notified i has_id)
  unfolding handle_create_remote_display
  create_remote_display-Keeps i has_id =
      search (keeping, authorize-Keeps (suc c) env, create_remote-Keeps, reply-Keeps (suc c) env)
        depth 14 fits 3000

  pub create_remote_user-Keeps :
      (i : ℕ) (user : Bytes)
      → Keeps (AtMost (suc c)) (handle_create_remote_user_display env notified i user)
  unfolding handle_create_remote_user_display
  create_remote_user-Keeps i user =
      search
        (
          keeping,
          authorize-Keeps (suc c) env,
          creation-Keeps (suc c) env,
          create_remote-Keeps,
          reply-Keeps (suc c) env,
        )
        depth 14 fits 3000
