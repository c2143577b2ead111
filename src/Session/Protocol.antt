-- ===== src/Session/Protocol.antt =====
-- The order of the calls that daemon/gdm-session.c makes to its workers: every event keeps it.
use gdm.Base.{
  ℕ, ==_iff, refl, Option, none, some, Bool, true, false, List, ◌∷◌, if◌then◌else◌, Bytes, codes,
  pure, ◌>>=◌, ◌>>◌,
}
use gdm.Session.Types.{System, Choice, supports_session_type, get_session_name}
use gdm.Session.State.{
  Conversation, initialize, Effect, registered, stopped, returned, refused, emit, lookup,
}
use gdm.Session.Events.{
  require, set_session_type, update_session_type, defaults_changed, initialize_worker,
  gdm_session_setup, gdm_session_setup_for_user, gdm_session_setup_for_program, is_wayland_session,
  new_conversation, insert_conversation, start_in_place_of, start_conversation, found_if, begin_in,
  begin_verification, set_up_started, register_in, register_worker,
}
use gdm.Session.Order.{AreKeyed-without, AreKnown-without, has_key-without_same, IsKnown, IsNamed}
use gdm.Session.Keeps.{
  Keeps, keeping, logged, emit-Keeps, pure-Keeps, read-Keeps, bind-Keeps, require-Keeps,
  modify-Keeps, update-Inv, change-Keeps, call_found-Inv,
}

module _ (o : Option ℕ) where
  pub set_session_type-Keeps : (t : Bytes) → Keeps o (set_session_type t)
  set_session_type-Keeps t = modify-Keeps o _ (λ s. refl) (λ s. refl)

  module _ (sys : System) where
    pub update_session_type-Keeps : Keeps o (update_session_type sys)
    unfolding update_session_type
    update_session_type-Keeps =
        bind-Keeps o _ _ (read-Keeps o (λ s. s.choice))
          (λ self. go self (supports_session_type self (some (codes "wayland"))))
      where
        go :
            (self : Choice) (b : Bool)
            → Keeps o (elim b [
              | false ↦ set_session_type (codes "x11")
              | true ↦ require (get_session_name sys self) >>= λ name.
                  set_session_type
                    (if is_wayland_session sys self name then codes "wayland" else codes "x11")
            ])
        go self false = set_session_type-Keeps (codes "x11")
        go self true = bind-Keeps o _ _ (require-Keeps o _) (λ name. set_session_type-Keeps _)

    pub defaults_changed-Keeps : Keeps o (defaults_changed sys)
    unfolding defaults_changed
    defaults_changed-Keeps = search (keeping, update_session_type-Keeps) depth 14 fits 3000

    initialize_worker-Keeps :
        (service : Bytes) (u : Option Bytes) → Keeps o (initialize_worker service u)
    unfolding initialize_worker
    initialize_worker-Keeps service u = record {
      keeps = λ s h. call_found-Inv o service (initialize u) s h (λ c e. refl);
    }

    pub setup-Keeps : (service : Bytes) → Keeps o (gdm_session_setup sys service)
    unfolding gdm_session_setup
    setup-Keeps service =
        search (keeping, update_session_type-Keeps, initialize_worker-Keeps, defaults_changed-Keeps)
          depth 14 fits 3000

    pub setup_for_user-Keeps :
        (service user : Bytes) → Keeps o (gdm_session_setup_for_user sys service user)
    unfolding gdm_session_setup_for_user
    setup_for_user-Keeps service user =
        search (keeping, update_session_type-Keeps, initialize_worker-Keeps, defaults_changed-Keeps)
          depth 14 fits 3000

    set_up_started-Keeps :
        (c : Conversation) (i : Option ℕ) (u : Option Bytes) → Keeps o (set_up_started sys c i u)
    set_up_started-Keeps c none u = pure-Keeps o tt
    set_up_started-Keeps c (some i) none = setup-Keeps c.service_name
    set_up_started-Keeps c (some i) (some u) =
        search (keeping, setup_for_user-Keeps) depth 14 fits 3000

    register_in-Keeps : (i : ℕ) (c : Option Conversation) → Keeps o (register_in sys i c)
    register_in-Keeps i none = emit-Keeps o (refused i) refl
    register_in-Keeps i (some c) = record {
      keeps = λ s h. (set_up_started-Keeps c c.starting_invocation c.starting_username).keeps _ (
          update-Inv o c.number (λ d. record d { is_connected = true })
            (record s { log = registered c.number ∷ returned i ∷ s.log })
            (record {
              names = λ d. refl;
              knows = λ d e k j. rw (e, (==_iff c.number c.number).1 refl);
            })
            (logged o (registered c.number) _ (logged o (returned i) s h tt) tt));
    }

    pub register_worker-Keeps : (i pid : ℕ) → Keeps o (register_worker sys i pid)
    unfolding register_worker
    register_worker-Keeps i pid = search (keeping, register_in-Keeps) depth 14 fits 3000

  pub setup_for_program-Keeps :
      (service : Bytes) (u : Option Bytes) → Keeps o (gdm_session_setup_for_program service u)
  unfolding gdm_session_setup_for_program initialize_worker
  setup_for_program-Keeps service u =
      bind-Keeps o _ _ (modify-Keeps o _ (λ s. refl) (λ s. refl))
        (λ _. record { keeps = λ s h. call_found-Inv o service (initialize u) s h (λ c e. refl) })

  insert-Keeps :
      (service : Bytes) (spawned : Option ℕ) → Keeps o (insert_conversation service spawned)
  insert-Keeps service spawned = record {
    keeps = λ s h. record {
      keyed = (
        named s.next_number spawned,
        has_key-without_same s.conversations service,
        AreKeyed-without s.conversations service h.keyed,
      );
      known = (
        fresh s.next_number spawned s.log,
        AreKnown-without s.log s.conversations service h.known,
      );
      ordered = h.ordered;
      noted = h.noted;
    };
  }
    where
      named : (n : ℕ) (p : Option ℕ) → IsNamed service (new_conversation n service p)
      named n none = tt
      named n (some pid) = refl

      fresh :
          (n : ℕ) (p : Option ℕ) (log : List Effect) → IsKnown log (new_conversation n service p)
      fresh n none log = tt
      fresh n (some pid) log = λ e. cc

  start_in_place-Keeps :
      (service : Bytes) (spawned : Option ℕ) (c : Option Conversation)
      → Keeps o (start_in_place_of service spawned c)
  start_in_place-Keeps service spawned none = search (keeping, insert-Keeps) depth 14 fits 3000
  start_in_place-Keeps service spawned (some c) = go c.is_stopping
    where
      go :
          (b : Bool)
          → Keeps o (elim b [
            | false ↦ pure false
            | true ↦ emit (stopped c.number) >> (insert_conversation service spawned >> pure true)
          ])
      go false = pure-Keeps o false
      go true = search (keeping, insert-Keeps) depth 14 fits 3000

  begin_in-Keeps : (i : ℕ) (u : Option Bytes) (c : Option Conversation) → Keeps o (begin_in i u c)
  begin_in-Keeps i u none = emit-Keeps o (refused i) refl
  begin_in-Keeps i u (some c) = change-Keeps o c.number _ (λ d. refl) (λ d. refl) (λ d. refl)

  found_if-Keeps : (b : Bool) (service : Bytes) → Keeps o (found_if b service)
  found_if-Keeps true service = read-Keeps o (λ s. lookup s.conversations service)
  found_if-Keeps false service = pure-Keeps o none

  pub start_conversation-Keeps :
      (service : Bytes) (spawned : Option ℕ) → Keeps o (start_conversation service spawned)
  unfolding start_conversation
  start_conversation-Keeps service spawned =
      search (keeping, start_in_place-Keeps) depth 14 fits 3000

  pub begin_verification-Keeps :
      (i : ℕ) (service : Bytes) (u : Option Bytes) (spawned : Option ℕ)
      → Keeps o (begin_verification i service u spawned)
  unfolding begin_verification start_conversation
  begin_verification-Keeps i service u spawned =
      search (keeping, start_in_place-Keeps, begin_in-Keeps, found_if-Keeps) depth 14 fits 3000
