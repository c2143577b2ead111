-- ===== src/Session/Histories.antt =====
-- Every history of events of daemon/gdm-session.c: the order of the calls that its workers get.
use gdm.Base.{
  ℕ, ◌≡◌, refl, sym, subst, Option, none, some, Bool, true, false, List, [], ◌∷◌, Bytes, pure, read,
  ◌>>=◌, ◌∙◌, Ensures,
}
use gdm.Session.Types.{System}
use gdm.Session.State.{Conversation, GdmSession, S, lookup, find_by_number}
use gdm.Session.Loop.{
  Event, start_in, gdm_session_start_session, cancel_pending_query, if_alive, in_conversation,
  handle, run, begin, register, set_up_program, initialization_complete, authenticate_done,
  authorize_done, establish_done, open_done, program_done, start_session, query, answer,
  cancel_query, ended, program_exited, username_changed, saved_language_read, saved_session_read,
  saved_type_read, select_session_call, select_user_call, stop_conflicting_call,
  start_conversation_call, setup_call, setup_for_user_call, stop_conversation_call, reset,
}
use gdm.Session.Order.{Inv, IsOrdered, AreKeyed, AreKnown, lookup-found, lookup-IsKnown}
use gdm.Session.Keeps.{
  Keeps, keeping, gdm_session_stop_conversation-Keeps, pure-Keeps, read-Keeps, bind-Keeps,
  modify-Keeps,
}
use gdm.Session.Protocol.{
  start_conversation-Keeps, setup-Keeps, setup_for_user-Keeps, register_worker-Keeps,
  setup_for_program-Keeps, begin_verification-Keeps,
}
use gdm.Session.Callbacks.{
  KeepsFound, on_authenticate_cb-KeepsFound, on_authorize_cb-KeepsFound,
  on_establish_credentials_cb-KeepsFound, on_initialization_complete_cb-KeepsFound,
}
use gdm.Session.Endings.{
  on_opened-Keeps, on_start_program_cb-Keeps, handle_query-Keeps, answer_query-Keeps,
  answer_pending-Keeps, worker_ended-Keeps, do_reset-Keeps, stop_conflicting-Keeps,
  unless_running-Keeps, select_user-Keeps, read_language-Keeps, username_changed-Keeps,
  saved_session-Keeps, select_session-Keeps, start_in-Keeps,
}

noted-Inv : (o : Option ℕ) (s : GdmSession) → Inv o s → Inv none s
noted-Inv o s h = record { keyed = h.keyed; known = h.known; ordered = h.ordered; noted = tt }

forget_noted :
    (o : Option ℕ) (r : Option (Unit {0} × GdmSession))
    → Ensures (λ _ s. Inv o s) r
    → Ensures (λ _ s. Inv none s) r
forget_noted o none h = tt
forget_noted o (some (u, s)) h = noted-Inv o s h

start_found-Inv :
    (sys : System) (c : Option Conversation) (service : Bytes) (s : GdmSession)
    → Inv none s
    → lookup s.conversations service ≡ c
    → Ensures (λ _ s'. Inv none s') (start_in sys c s)
start_found-Inv sys none service s h e = h
start_found-Inv sys (some c) service s h e = go c.is_connected refl
  where
    go : (b : Bool) → c.is_connected ≡ b → Ensures (λ _ s'. Inv none s') (start_in sys (some c) s)
    go true i = forget_noted (some c.number) _ (
        (start_in-Keeps (some c.number) sys c (λ t k j. k.noted)).keeps s (record {
          keyed = h.keyed;
          known = h.known;
          ordered = h.ordered;
          noted = lookup-IsKnown s.log s.conversations service c h.known e i;
        }))
    go false i = (start_in-Keeps none sys c (λ t k j. absurd (differ (sym j ∙ i)))).keeps s h
      where
        differ : true ≡ false → ⊥
        differ e = cc

start_session-Keeps :
    (sys : System) (service : Bytes) → Keeps none (gdm_session_start_session sys service)
unfolding gdm_session_start_session
start_session-Keeps sys service =
    bind-Keeps none _ _ (read-Keeps none (λ s. s.session_conversation)) go
  where
    go :
        (current : Option ℕ)
        → Keeps none (elim current [
          | some n ↦ pure tt
          | none ↦ read (λ s. lookup s.conversations service) >>= λ c. start_in sys c
        ])
    go (some n) = pure-Keeps none tt
    go none = record {
      keeps = λ s h. start_found-Inv sys (lookup s.conversations service) service s h refl;
    }

module _ (n : ℕ) (f : Conversation → S (Unit {0})) where
  in_conversation-Keeps : ((c : Conversation) → Keeps none (f c)) → Keeps none (in_conversation n f)
  in_conversation-Keeps k =
      bind-Keeps none _ _ (read-Keeps none (λ s. find_by_number s.conversations n)) go
    where
      go : (c : Option Conversation) → Keeps none (if_alive c f)
      go none = pure-Keeps none tt
      go (some c) = k c

  -- A callback of a conversation of the table.
  callback-Keeps : ((c : Conversation) → KeepsFound none c (f c)) → Keeps none (in_conversation n f)
  callback-Keeps k = record { keeps = λ s h. go s h (find_by_number s.conversations n) refl }
    where
      go :
          (s : GdmSession)
          → Inv none s
          → (c : Option Conversation) → find_by_number s.conversations n ≡ c
          → Ensures (λ _ s'. Inv none s') (if_alive c f s)
      go s h none e = h
      go s h (some c) e = k c s h (lookup-found s.conversations n c h.keyed e)

handle-Keeps : (sys : System) (e : Event) → Keeps none (handle sys e)
unfolding handle cancel_pending_query
handle-Keeps sys (begin invocation service username spawned) =
    begin_verification-Keeps none invocation service username spawned
handle-Keeps sys (register invocation pid) = register_worker-Keeps none sys invocation pid
handle-Keeps sys (set_up_program service username) = setup_for_program-Keeps none service username
handle-Keeps sys (initialization_complete n r) =
    callback-Keeps n _ (λ c. on_initialization_complete_cb-KeepsFound none c r)
handle-Keeps sys (authenticate_done n r) =
    callback-Keeps n _ (λ c. on_authenticate_cb-KeepsFound none c r)
handle-Keeps sys (authorize_done n r) =
    callback-Keeps n _ (λ c. on_authorize_cb-KeepsFound none c r)
handle-Keeps sys (establish_done n r) =
    callback-Keeps n _ (λ c. on_establish_credentials_cb-KeepsFound none c r)
handle-Keeps sys (open_done n r) = in_conversation-Keeps n _ (λ c. on_opened-Keeps none c r)
handle-Keeps sys (program_done n r) =
    in_conversation-Keeps n _ (λ c. on_start_program_cb-Keeps none c r)
handle-Keeps sys (start_session service) = start_session-Keeps sys service
handle-Keeps sys (query service invocation) = handle_query-Keeps none service invocation
handle-Keeps sys (answer service text) = answer_query-Keeps none service text
handle-Keeps sys (cancel_query n) =
    in_conversation-Keeps n _ (λ c. answer_pending-Keeps none c.number c.pending_invocation none)
handle-Keeps sys (ended died n) = in_conversation-Keeps n _ (worker_ended-Keeps none died)
handle-Keeps sys (program_exited n) =
    in_conversation-Keeps n _ (λ c. search keeping depth 14 fits 3000)
handle-Keeps sys (username_changed n text) =
    in_conversation-Keeps n _ (λ c. username_changed-Keeps none sys text)
handle-Keeps sys (saved_language_read n text) =
    in_conversation-Keeps n _ (λ c. read_language-Keeps none text)
handle-Keeps sys (saved_session_read n text) =
    in_conversation-Keeps n _ (λ c. saved_session-Keeps none sys text)
handle-Keeps sys (saved_type_read n text) =
    in_conversation-Keeps n _ (λ c. modify-Keeps none _ (λ s. refl) (λ s. refl))
handle-Keeps sys (select_session_call invocation text) =
    unless_running-Keeps none invocation _ (select_session-Keeps none sys text)
handle-Keeps sys (select_user_call invocation text) =
    unless_running-Keeps none invocation _ (select_user-Keeps none text)
handle-Keeps sys (stop_conflicting_call invocation) = stop_conflicting-Keeps none invocation
handle-Keeps sys (start_conversation_call service spawned) =
    bind-Keeps none _ _ (start_conversation-Keeps none service spawned) (λ _. pure-Keeps none tt)
handle-Keeps sys (setup_call service) = setup-Keeps none sys service
handle-Keeps sys (setup_for_user_call service username) =
    setup_for_user-Keeps none sys service username
handle-Keeps sys (stop_conversation_call service) = gdm_session_stop_conversation-Keeps none service
handle-Keeps sys reset = do_reset-Keeps none

run-Keeps : (es : List (System × Event)) → Keeps none (run es)
unfolding run
run-Keeps [] = pure-Keeps none tt
run-Keeps ((sys, e) ∷ es) = bind-Keeps none _ _ (handle-Keeps sys e) (λ _. run-Keeps es)

-- For every history of events that reaches a session without conversations and with an empty log: each
-- call of a worker's method whose answer is awaited goes to a worker that is registered, Authenticate
-- only after that worker has answered Initialize with success, Authorize only after Authenticate, EstablishCredentials only
-- after Authorize, and Open only after EstablishCredentials.
pub run-IsOrdered :
    (es : List (System × Event)) (s : GdmSession)
    → s.conversations ≡ []
    → s.log ≡ []
    → Ensures (λ _ s'. IsOrdered s'.log) (run es s)
run-IsOrdered es s t l = only_order (run es s) (
    (run-Keeps es).keeps s (record {
      keyed = subst AreKeyed (sym t) tt;
      known = subst (AreKnown s.log) (sym t) tt;
      ordered = subst IsOrdered (sym l) tt;
      noted = tt;
    }))
  where
    only_order :
        (r : Option (Unit {0} × GdmSession))
        → Ensures (λ _ s'. Inv none s') r
        → Ensures (λ _ s'. IsOrdered s'.log) r
    only_order none h = tt
    only_order (some (u, s')) h = h.ordered
