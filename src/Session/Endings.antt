-- ===== src/Session/Endings.antt =====
-- Queries, programs, the end of workers and the reset in daemon/gdm-session.c keep the order of the calls.
use gdm.Base.{
  ℕ, ◌==◌, refl, Option, none, some, Bool, true, false, not, [], ◌∷◌, Bytes, codes, same_bytes,
  is_some, read, modify, when, ◌>>=◌, ◌>>◌,
}
use gdm.Session.Types.{
  System, Choice, get_session_name, get_default_session_name, get_session_command_for_name,
}
use gdm.Session.State.{
  Conversation, start_program, stopped, signal, stop_conflicting_session, returned, refused,
  terminate, Table, GdmSession, S, emit, lookup, without,
}
use gdm.Session.Events.{
  require, update_session_type, select_user, on_opened, opened_as, not_opened, Opening,
  on_start_program_cb,
}
use gdm.Session.Loop.{
  stop_others, start_in, program_of, worker_on_username_changed, set_saved_session, take_saved_type,
  worker_on_saved_session_name_read, tell_name, tell_names, gdm_session_select_session,
  set_pending_query, handle_query, answer_pending, answer_in, answer_query, terminate_program,
  worker_ended, stop_all_now, do_reset, handle_stop_conflicting_session, unless_running,
  read_language,
}
use gdm.Session.Order.{Inv, AreKeyed-without, AreKnown-without, IsKnown}
use gdm.Session.Keeps.{
  Keeps, keeping, emit-Keeps, pure-Keeps, read-Keeps, bind-Keeps, when-Keeps, require-Keeps,
  modify-Keeps, call_worker-Inv, stop_conversation-Keeps,
}
use gdm.Session.Protocol.{set_session_type-Keeps, update_session_type-Keeps, defaults_changed-Keeps}

module _ (o : Option ℕ) where
  pub on_opened-Keeps : (c : Conversation) (r : Opening) → Keeps o (on_opened c r)
  unfolding on_opened
  on_opened-Keeps c (not_opened failure) = search keeping depth 14 fits 3000
  on_opened-Keeps c (opened_as session_id) = search keeping depth 24 fits 5000

  pub on_start_program_cb-Keeps :
      (c : Conversation) (r : Option ℕ) → Keeps o (on_start_program_cb c r)
  unfolding on_start_program_cb
  on_start_program_cb-Keeps c none = search keeping depth 14 fits 3000
  on_start_program_cb-Keeps c (some pid) = search keeping depth 14 fits 3000

  stop_others-Keeps : (n : ℕ) (t : Table) → Keeps o (stop_others n t)
  unfolding stop_others
  stop_others-Keeps n [] = pure-Keeps o tt
  stop_others-Keeps n ((key, none) ∷ t) = require-Keeps o none
  stop_others-Keeps n ((key, some c) ∷ t) =
      bind-Keeps o _ _ (when-Keeps o (not (c.number == n)) _ (stop_conversation-Keeps o c))
        (λ _. stop_others-Keeps n t)

  stop_all_now-Keeps : (t : Table) → Keeps o (stop_all_now t)
  unfolding stop_all_now
  stop_all_now-Keeps [] = pure-Keeps o tt
  stop_all_now-Keeps ((key, none) ∷ t) = require-Keeps o none
  stop_all_now-Keeps ((key, some c) ∷ t) =
      bind-Keeps o _ _ (emit-Keeps o (stopped c.number) refl) (λ _. stop_all_now-Keeps t)

  pub answer_pending-Keeps :
      (n : ℕ) (i : Option ℕ) (t : Option Bytes) → Keeps o (answer_pending n i t)
  answer_pending-Keeps n none t = pure-Keeps o tt
  answer_pending-Keeps n (some i) t = search keeping depth 14 fits 3000

  pub answer_query-Keeps : (service : Bytes) (t : Option Bytes) → Keeps o (answer_query service t)
  unfolding answer_query
  answer_query-Keeps service t =
      bind-Keeps o _ _ (read-Keeps o (λ s. lookup s.conversations service)) go
    where
      go : (c : Option Conversation) → Keeps o (answer_in c t)
      go none = pure-Keeps o tt
      go (some c) = answer_pending-Keeps c.number c.pending_invocation t

  set_pending_query-Keeps : (i : ℕ) (c : Option Conversation) → Keeps o (set_pending_query i c)
  set_pending_query-Keeps i none = pure-Keeps o tt
  set_pending_query-Keeps i (some c) = search keeping depth 14 fits 3000

  pub handle_query-Keeps : (service : Bytes) (i : ℕ) → Keeps o (handle_query service i)
  unfolding handle_query
  handle_query-Keeps service i = search (keeping, set_pending_query-Keeps) depth 14 fits 3000

  terminate_program-Keeps : (pid : Option ℕ) → Keeps o (terminate_program pid)
  terminate_program-Keeps none = pure-Keeps o tt
  terminate_program-Keeps (some pid) = emit-Keeps o (terminate pid) refl

  -- A conversation is taken out of the table.
  drop-Keeps :
      (name : Bytes)
      → Keeps o (modify (λ s. record s { conversations = without s.conversations name }))
  drop-Keeps name = record {
    keeps = λ s h. record {
      keyed = AreKeyed-without s.conversations name h.keyed;
      known = AreKnown-without s.log s.conversations name h.known;
      ordered = h.ordered;
      noted = h.noted;
    };
  }

  -- do_reset empties the table.
  emptied-Keeps : Keeps o (
      modify (λ s. record s {
        conversations = [];
        session_conversation = none;
        selected_user = none;
        choice = record s.choice { selected_session = none; saved_session = none };
        saved_language = none;
        session_opened = none;
        session_pid = none;
      }))
  emptied-Keeps = record {
    keeps = λ s h. record { keyed = tt; known = tt; ordered = h.ordered; noted = h.noted };
  }

  pub worker_ended-Keeps : (died : Bool) (c : Conversation) → Keeps o (worker_ended died c)
  unfolding worker_ended
  worker_ended-Keeps died c =
      search (keeping, drop-Keeps, terminate_program-Keeps) depth 24 fits 5000

  pub do_reset-Keeps : Keeps o do_reset
  unfolding do_reset
  do_reset-Keeps = search (keeping, stop_all_now-Keeps, emptied-Keeps) depth 14 fits 3000

  pub stop_conflicting-Keeps : (i : ℕ) → Keeps o (handle_stop_conflicting_session i)
  unfolding handle_stop_conflicting_session
  stop_conflicting-Keeps i = bind-Keeps o _ _ (read-Keeps o (λ s. s.is_opened)) go
    where
      go :
          (b : Bool)
          → Keeps o (elim b [
            | false ↦ emit (refused i)
            | true ↦ read (λ s. s.session_opened) >>= λ session.
                emit (stop_conflicting_session session)
                >> (read (λ s. s.has_greeter) >>= λ greeter. when greeter (emit (returned i)))
          ])
      go false = emit-Keeps o (refused i) refl
      go true = search keeping depth 14 fits 3000

  pub unless_running-Keeps : (i : ℕ) (f : S (Unit {0})) → Keeps o f → Keeps o (unless_running i f)
  unless_running-Keeps i f k =
      bind-Keeps o _ _ (read-Keeps o (λ s. s.session_pid)) (λ pid. go (is_some pid))
    where
      go :
          (b : Bool)
          → Keeps o (elim b [
            | true ↦ emit (refused i)
            | false ↦ read (λ s. s.has_greeter) >>= λ greeter. when greeter (emit (returned i)) >> f
          ])
      go true = emit-Keeps o (refused i) refl
      go false = bind-Keeps o _ _ (read-Keeps o (λ s. s.has_greeter)) (λ greeter.
          bind-Keeps o _ _ (when-Keeps o greeter _ (emit-Keeps o (returned i) refl)) (λ _. k))

  pub select_user-Keeps : (text : Bytes) → Keeps o (select_user text)
  select_user-Keeps text = modify-Keeps o _ (λ s. refl) (λ s. refl)

  set_saved-Keeps : (name : Option Bytes) → Keeps o (set_saved_session name)
  set_saved-Keeps name = modify-Keeps o _ (λ s. refl) (λ s. refl)

  pub read_language-Keeps : (text : Bytes) → Keeps o (read_language text)
  read_language-Keeps [] = pure-Keeps o tt
  read_language-Keeps (b ∷ bs) = search keeping depth 14 fits 3000

  module _ (sys : System) where
    pub username_changed-Keeps : (text : Bytes) → Keeps o (worker_on_username_changed sys text)
    unfolding worker_on_username_changed
    username_changed-Keeps [] = defaults_changed-Keeps o sys
    username_changed-Keeps (b ∷ bs) =
        bind-Keeps o _ _ (select_user-Keeps (b ∷ bs)) (λ _. defaults_changed-Keeps o sys)

    take_saved_type-Keeps : (t : Option Bytes) → Keeps o (take_saved_type sys t)
    take_saved_type-Keeps none = update_session_type-Keeps o sys
    take_saved_type-Keeps (some t) = set_session_type-Keeps o t

    pub saved_session-Keeps : (name : Bytes) → Keeps o (worker_on_saved_session_name_read sys name)
    unfolding worker_on_saved_session_name_read
    saved_session-Keeps name = bind-Keeps o _ _ (read-Keeps o (λ s. s.choice)) (λ self.
        bind-Keeps o _ _ (read-Keeps o (λ s. s.saved_session_type))
          (λ type. go self type (is_some (get_session_command_for_name sys self name type))))
      where
        go :
            (self : Choice) (type : Option Bytes) (b : Bool)
            → Keeps o (elim b [
              | false ↦ set_saved_session none >> update_session_type sys
              | true ↦ require (get_default_session_name sys self) >>= λ default.
                  when (not (same_bytes name default)) (
                    set_saved_session (some name)
                    >> (read (λ s. s.has_greeter) >>= λ greeter.
                        when greeter (emit (signal (codes "default-session-name-changed")))))
                  >> take_saved_type sys type
            ])
        go self type false =
            bind-Keeps o _ _ (set_saved-Keeps none) (λ _. update_session_type-Keeps o sys)
        go self type true = search (keeping, take_saved_type-Keeps) depth 24 fits 5000

    tell_names-Keeps : (t : Table) → Keeps o (tell_names sys t)
    unfolding tell_names
    tell_names-Keeps [] = pure-Keeps o tt
    tell_names-Keeps ((key, none) ∷ t) = require-Keeps o none
    tell_names-Keeps ((key, some c) ∷ t) = bind-Keeps o _ _ told_name (λ _. tell_names-Keeps t)
      where
        told_name : Keeps o (tell_name sys c)
        told_name = search keeping depth 24 fits 5000

    pub select_session-Keeps : (text : Bytes) → Keeps o (gdm_session_select_session sys text)
    unfolding gdm_session_select_session
    select_session-Keeps text = bind-Keeps o _ _ (modify-Keeps o _ (λ s. refl) (λ s. refl)) (λ _.
        bind-Keeps o _ _ (update_session_type-Keeps o sys)
          (λ _. bind-Keeps o _ _ (read-Keeps o (λ s. s.conversations)) tell_names-Keeps))

    -- The start of a program, in a conversation that is known whenever the call is made.
    pub start_in-Keeps :
        (c : Conversation)
        → ((s : GdmSession) → Inv o s → IsKnown s.log (some c))
        → Keeps o (start_in sys (some c))
    start_in-Keeps c known = bind-Keeps o _ _ (read-Keeps o (λ s. s.conversations)) (λ table.
        bind-Keeps o _ _ (stop_others-Keeps c.number table) (λ _.
          bind-Keeps o _ _ (read-Keeps o (λ s. s.choice)) (λ self.
            bind-Keeps o _ _ (require-Keeps o (get_session_name sys self)) (λ name.
              bind-Keeps o _ _ (require-Keeps o (get_session_command_for_name sys self name none))
                (λ command. record {
                  keeps = λ s h.
                      call_worker-Inv o c (start_program (program_of sys self name command)) s h
                        (known s h) refl;
                })))))
