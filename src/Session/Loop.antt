-- ===== src/Session/Loop.antt =====
-- daemon/gdm-session.c: the start of the session's program, the queries of PAM, the end of workers, the
-- reset, and the events that reach a session.
use gdm.Base.{
  ℕ, ◌==◌, Option, none, some, Bool, true, false, not, List, [], ◌∷◌, ◌++◌, if◌then◌else◌, Bytes,
  codes, same_bytes, is_some, pure, read, modify, when, g_assert, ◌>>=◌, ◌>>◌,
}
use gdm.Session.Types.{
  System, Choice, get_session_name, get_session_command_for_name, get_default_session_name,
  same_text, SessionFile, load_key_file_for_file,
}
use gdm.Session.State.{
  Conversation, Failure, start_program, stopped, asked, answered, signal, stop_conflicting_session,
  returned, refused, terminate, Table, S, emit, find_conversation_by_name, without, find_by_number,
  update_conversation, call_worker, stop_conversation, gdm_session_stop_conversation, tell_worker,
  set_session_name,
}
use gdm.Session.Events.{
  require, set_session_type, update_session_type, defaults_changed, select_user, begin_verification,
  register_worker, gdm_session_setup_for_program, start_conversation, gdm_session_setup,
  gdm_session_setup_for_user, on_initialization_complete_cb, on_authenticate_cb, on_authorize_cb,
  on_establish_credentials_cb, on_opened, on_start_program_cb, Opening,
}

-- The loop of stop_all_other_conversations; `none` is a stop of a NULL conversation.
unfoldable pub stop_others : ℕ → Table → S (Unit {0})
unfolding stop_conversation
stop_others keep [] = pure tt
stop_others keep ((key, none) ∷ table) = require none
stop_others keep ((key, some c) ∷ table) = do
  when (not (c.number == keep)) (stop_conversation c)
  stop_others keep table

abbrev pub file_registers : Option (SessionFile × Bytes) → Bool
file_registers none = false
file_registers (some (f, path)) = f.session_registers

abbrev pub set_saved_session : Option Bytes → S (Unit {0})
set_saved_session name =
    modify (λ s. record s { choice = record s.choice { saved_session = name } })

module _ (sys : System) where
  -- gdm_session_session_registers
  abbrev pub session_registers : Choice → Bytes → Bool
  session_registers self name =
      file_registers (load_key_file_for_file sys self (name ++ codes ".desktop") none)

  abbrev pub program_of : Choice → Bytes → Bytes → Bytes
  program_of self name command =
      if same_text self.session_type (some (codes "wayland"))
      then sys.libexecdir
        ++ codes "/gdm-wayland-session "
        ++ (if session_registers self name then [] else codes "--handle-registration ")
        ++ b'"' ∷ (command ++ b'"' ∷ [])
      else sys.libexecdir ++ codes "/gdm-x-session " ++ b'"' ∷ (command ++ b'"' ∷ [])

  abbrev pub start_in : Option Conversation → S (Unit {0})
  start_in none = pure tt
  start_in (some c) = do
    table ← read (λ s. s.conversations)
    stop_others c.number table
    self ← read (λ s. s.choice)
    name ← require (get_session_name sys self)
    command ← require (get_session_command_for_name sys self name none)
    call_worker c (start_program (program_of self name command))

  -- gdm_session_start_session
  unfoldable pub gdm_session_start_session : Bytes → S (Unit {0})
  unfolding stop_others
  gdm_session_start_session service = do
    current ← read (λ s. s.session_conversation)
    elim current [ some n ↦ pure tt | none ↦ do c ← find_conversation_by_name service; start_in c ]

  unfoldable pub worker_on_username_changed : Bytes → S (Unit {0})
  unfolding defaults_changed
  worker_on_username_changed [] = defaults_changed sys
  worker_on_username_changed (b ∷ bs) = do select_user (b ∷ bs); defaults_changed sys

  abbrev pub take_saved_type : Option Bytes → S (Unit {0})
  take_saved_type none = update_session_type sys
  take_saved_type (some t) = set_session_type t

  unfoldable pub worker_on_saved_session_name_read : Bytes → S (Unit {0})
  unfolding update_session_type
  worker_on_saved_session_name_read name = do
    self ← read (λ s. s.choice)
    type ← read (λ s. s.saved_session_type)
    elim (is_some (get_session_command_for_name sys self name type)) [
      | false ↦ do set_saved_session none; update_session_type sys
      | true ↦ do
        default ← require (get_default_session_name sys self)
        when (not (same_bytes name default)) (do
          set_saved_session (some name)
          greeter ← read (λ s. s.has_greeter)
          when greeter (emit (signal (codes "default-session-name-changed"))))
        take_saved_type type
    ]

  -- The name of the session is sent to a worker with an open connection.
  abbrev pub tell_name : Conversation → S (Unit {0})
  tell_name c = when c.is_connected (do
    self ← read (λ s. s.choice)
    name ← require (get_session_name sys self)
    tell_worker c (set_session_name name))

  -- The loop over the conversations; `none` is a read through a NULL conversation.
  unfoldable pub tell_names : Table → S (Unit {0})
  tell_names [] = pure tt
  tell_names ((key, none) ∷ table) = require none
  tell_names ((key, some c) ∷ table) = do tell_name c; tell_names table

  unfoldable pub gdm_session_select_session : Bytes → S (Unit {0})
  unfolding update_session_type tell_names
  gdm_session_select_session text = do
    modify (λ s. record s { choice = record s.choice { selected_session = some text } })
    update_session_type sys
    table ← read (λ s. s.conversations)
    tell_names table

-- set_pending_query in the conversation of a name.
abbrev pub set_pending_query : ℕ → Option Conversation → S (Unit {0})
set_pending_query invocation none = pure tt
set_pending_query invocation (some c) = do
  g_assert (not (is_some c.pending_invocation))
  update_conversation c.number (λ d. record d { pending_invocation = some invocation })
  emit (asked invocation)

-- gdm_session_handle_info_query and its sibling for secrets.
unfoldable pub handle_query : Bytes → ℕ → S (Unit {0})
handle_query service invocation = do
  verifier ← read (λ s. s.has_user_verifier)
  when verifier (do c ← find_conversation_by_name service; set_pending_query invocation c)

-- The pending query is answered, with a text or with an error, if there is one.
abbrev pub answer_pending : ℕ → Option ℕ → Option Bytes → S (Unit {0})
answer_pending n none text = pure tt
answer_pending n (some invocation) text = do
  emit (answered invocation text)
  update_conversation n (λ d. record d { pending_invocation = none })

abbrev pub answer_in : Option Conversation → Option Bytes → S (Unit {0})
answer_in none text = pure tt
answer_in (some c) text = answer_pending c.number c.pending_invocation text

-- gdm_session_answer_query, and with no text gdm_session_report_error.
unfoldable pub answer_query : Bytes → Option Bytes → S (Unit {0})
answer_query service text = do c ← find_conversation_by_name service; answer_in c text

-- cancel_pending_query
unfoldable pub cancel_pending_query : Conversation → S (Unit {0})
cancel_pending_query c = answer_pending c.number c.pending_invocation none

abbrev pub is_session_of : Option ℕ → ℕ → Bool
is_session_of none n = false
is_session_of (some m) n = m == n

abbrev pub terminate_program : Option ℕ → S (Unit {0})
terminate_program none = pure tt
terminate_program (some pid) = emit (terminate pid)

-- worker_exited, and where it was killed by a signal worker_died.
unfoldable pub worker_ended : Bool → Conversation → S (Unit {0})
worker_ended died c = do
  modify (λ s. record s { conversations = without s.conversations c.service_name })
  current ← read (λ s. s.session_conversation)
  when (is_session_of current c.number) (do
    pid ← read (λ s. s.session_pid)
    when died (terminate_program pid)
    emit (signal (if died then codes "session-died" else codes "session-exited"))
    modify (λ s. record s { session_conversation = none }))
  emit (signal (codes "conversation-stopped"))

-- The loop of stop_all_conversations.
unfoldable pub stop_all_now : Table → S (Unit {0})
stop_all_now [] = pure tt
stop_all_now ((key, none) ∷ table) = require none
stop_all_now ((key, some c) ∷ table) = do emit (stopped c.number); stop_all_now table

-- do_reset
unfoldable pub do_reset : S (Unit {0})
unfolding stop_all_now
do_reset = do
  table ← read (λ s. s.conversations)
  stop_all_now table
  modify (λ s. record s {
    conversations = [];
    session_conversation = none;
    selected_user = none;
    choice = record s.choice { selected_session = none; saved_session = none };
    saved_language = none;
    session_opened = none;
    session_pid = none;
  })

unfoldable pub handle_stop_conflicting_session : ℕ → S (Unit {0})
handle_stop_conflicting_session invocation = do
  is_opened ← read (λ s. s.is_opened)
  elim is_opened [
    | false ↦ emit (refused invocation)
    | true ↦ do
      session ← read (λ s. s.session_opened)
      emit (stop_conflicting_session session)
      greeter ← read (λ s. s.has_greeter)
      when greeter (emit (returned invocation))
  ]

-- The calls of the greeter that are refused while a session runs.
abbrev pub unless_running : ℕ → S (Unit {0}) → S (Unit {0})
unless_running invocation f = do
  pid ← read (λ s. s.session_pid)
  elim (is_some pid) [
    | true ↦ emit (refused invocation)
    | false ↦ do greeter ← read (λ s. s.has_greeter); when greeter (emit (returned invocation)); f
  ]

pub data Event : Type 0 where
  begin : ℕ → Bytes → Option Bytes → Option ℕ → Event
  register : ℕ → ℕ → Event
  set_up_program : Bytes → Option Bytes → Event
  initialization_complete authenticate_done authorize_done establish_done :
      ℕ → Option Failure → Event
  open_done : ℕ → Opening → Event
  program_done : ℕ → Option ℕ → Event
  start_session : Bytes → Event
  query : Bytes → ℕ → Event
  answer : Bytes → Option Bytes → Event
  cancel_query : ℕ → Event
  ended : Bool → ℕ → Event
  program_exited : ℕ → Event
  username_changed : ℕ → Bytes → Event
  saved_language_read saved_session_read saved_type_read : ℕ → Bytes → Event
  select_session_call : ℕ → Bytes → Event
  select_user_call : ℕ → Bytes → Event
  stop_conflicting_call : ℕ → Event
  -- What the session's owner calls: the manager, or the launch environment.
  start_conversation_call : Bytes → Option ℕ → Event
  setup_call : Bytes → Event
  setup_for_user_call : Bytes → Bytes → Event
  stop_conversation_call : Bytes → Event
  reset : Event

-- A callback of a conversation that is freed comes to nothing.
abbrev pub if_alive : Option Conversation → (Conversation → S (Unit {0})) → S (Unit {0})
if_alive none f = pure tt
if_alive (some c) f = f c

abbrev pub in_conversation : ℕ → (Conversation → S (Unit {0})) → S (Unit {0})
in_conversation n f = do c ← read (λ s. find_by_number s.conversations n); if_alive c f

-- worker_on_saved_language_name_read
abbrev pub read_language : Bytes → S (Unit {0})
read_language [] = pure tt
read_language (b ∷ bs) = do
  modify (λ s. record s { saved_language = some (b ∷ bs) })
  greeter ← read (λ s. s.has_greeter)
  when greeter (emit (signal (codes "default-language-name-changed")))

unfoldable pub handle : System → Event → S (Unit {0})
unfolding begin_verification register_worker gdm_session_setup_for_program start_conversation
    gdm_session_setup gdm_session_setup_for_user gdm_session_stop_conversation
    on_initialization_complete_cb on_authenticate_cb on_authorize_cb on_establish_credentials_cb
    on_opened on_start_program_cb gdm_session_start_session handle_query answer_query
    cancel_pending_query worker_ended do_reset worker_on_username_changed
    worker_on_saved_session_name_read gdm_session_select_session handle_stop_conflicting_session
handle sys (begin invocation service username spawned) =
    begin_verification invocation service username spawned
handle sys (register invocation pid) = register_worker sys invocation pid
handle sys (set_up_program service username) = gdm_session_setup_for_program service username
handle sys (initialization_complete n r) =
    in_conversation n (λ c. on_initialization_complete_cb c r)
handle sys (authenticate_done n r) = in_conversation n (λ c. on_authenticate_cb c r)
handle sys (authorize_done n r) = in_conversation n (λ c. on_authorize_cb c r)
handle sys (establish_done n r) = in_conversation n (λ c. on_establish_credentials_cb c r)
handle sys (open_done n r) = in_conversation n (λ c. on_opened c r)
handle sys (program_done n r) = in_conversation n (λ c. on_start_program_cb c r)
handle sys (start_session service) = gdm_session_start_session sys service
handle sys (query service invocation) = handle_query service invocation
handle sys (answer service text) = answer_query service text
handle sys (cancel_query n) = in_conversation n cancel_pending_query
handle sys (ended died n) = in_conversation n (worker_ended died)
handle sys (program_exited n) = in_conversation n (λ c. do
  modify (λ s. record s { session_conversation = none })
  emit (signal (codes "session-exited")))
handle sys (username_changed n text) = in_conversation n (λ c. worker_on_username_changed sys text)
handle sys (saved_language_read n text) = in_conversation n (λ c. read_language text)
handle sys (saved_session_read n text) =
    in_conversation n (λ c. worker_on_saved_session_name_read sys text)
handle sys (saved_type_read n text) =
    in_conversation n (λ c. modify (λ s. record s { saved_session_type = some text }))
handle sys (select_session_call invocation text) =
    unless_running invocation (gdm_session_select_session sys text)
handle sys (select_user_call invocation text) = unless_running invocation (select_user text)
handle sys (stop_conflicting_call invocation) = handle_stop_conflicting_session invocation
handle sys (start_conversation_call service spawned) = do
  _ ← start_conversation service spawned
  pure tt
handle sys (setup_call service) = gdm_session_setup sys service
handle sys (setup_for_user_call service username) = gdm_session_setup_for_user sys service username
handle sys (stop_conversation_call service) = gdm_session_stop_conversation service
handle sys reset = do_reset

-- A history, each event with what the system answers while it is handled.
unfoldable pub run : List (System × Event) → S (Unit {0})
unfolding handle
run [] = pure tt
run ((sys, e) ∷ es) = do handle sys e; run es
