-- ===== src/Session/Events.antt =====
-- daemon/gdm-session.c: the callbacks of the workers' calls, the methods that workers and clients call,
-- and what the manager asks for.
use gdm.Base.{
  ℕ, suc, ◌==◌, Option, none, some, Bool, true, false, not, ◌&&◌, ◌||◌, [], ◌∷◌, ◌++◌,
  if◌then◌else◌, Bytes, codes, pure, read, modify, when, ◌>>=◌, ◌>>◌,
}
use gdm.Session.Types.{
  System, Choice, supports_session_type, load_key_file_for_file, get_session_name,
  get_default_session_name, SessionFile,
}
use gdm.Session.State.{
  Conversation, VerificationMode, login, chooser, reauthenticate, Failure, service_unavailable,
  too_many_retries, other_failure, initialize, registered, initialized, authenticated, authorized,
  accredited, opened, started, stopped, signal, returned, refused, S, emit,
  find_conversation_by_name, without, update_conversation, find_conversation_by_pid, call_found,
  gdm_session_authenticate, gdm_session_authorize, gdm_session_accredit, gdm_session_open_session,
  gdm_session_stop_conversation, report_and_stop_conversation,
}

-- `strstr (text, part) != NULL`
abbrev pub starts_with : Bytes → Bytes → Bool
starts_with [] ys = true
starts_with (x ∷ xs) [] = false
starts_with (x ∷ xs) (y ∷ ys) = (x == y) && starts_with xs ys

abbrev pub has_part : Bytes → Bytes → Bool
has_part part [] = starts_with part []
has_part part (y ∷ ys) = starts_with part (y ∷ ys) || has_part part ys

abbrev pub is_wayland_path : Option (SessionFile × Bytes) → Bool
is_wayland_path none = false
is_wayland_path (some (f, path)) = has_part (codes "/wayland-sessions/") path

-- A value that the session cannot go on without: the g_error for want of any session.
abbrev pub require : {A : Type 0} → Option A → S A
require none s = none
require (some a) s = some (a, s)

abbrev pub set_session_type : Bytes → S (Unit {0})
set_session_type t = modify (λ s. record s { choice = record s.choice { session_type = some t } })

-- gdm_session_select_user
abbrev pub select_user : Bytes → S (Unit {0})
select_user text = modify (λ s. record s {
  selected_user = some text;
  choice = record s.choice { saved_session = none };
  saved_session_type = none;
  saved_language = none;
})

-- The function initialize, with the name of the user.
unfoldable pub initialize_worker : Bytes → Option Bytes → S (Unit {0})
initialize_worker service username = do
  c ← find_conversation_by_name service
  call_found c (initialize username)

unfoldable pub gdm_session_setup_for_program : Bytes → Option Bytes → S (Unit {0})
unfolding initialize_worker
gdm_session_setup_for_program service username = do
  modify (λ s. record s { is_program_session = true })
  initialize_worker service username

-- What is inserted for a service: a conversation with the worker's PID, or NULL.
abbrev pub new_conversation : ℕ → Bytes → Option ℕ → Option Conversation
new_conversation n service none = none
new_conversation n service (some pid) = some (record {
  number = n;
  service_name = service;
  worker_pid = pid;
  starting_invocation = none;
  starting_username = none;
  pending_invocation = none;
  is_connected = false;
  session_id = none;
  is_stopping = false;
})

abbrev pub insert_conversation : Bytes → Option ℕ → S (Unit {0})
insert_conversation service spawned = modify (λ s. record s {
  conversations =
      (service, new_conversation s.next_number service spawned) ∷ without s.conversations service;
  next_number = suc s.next_number;
})

-- gdm_session_start_conversation, with the PID of the worker if it can be spawned.
abbrev pub start_in_place_of : Bytes → Option ℕ → Option Conversation → S Bool
start_in_place_of service spawned none = do insert_conversation service spawned; pure true
start_in_place_of service spawned (some c) = elim c.is_stopping [
  | false ↦ pure false
  | true ↦ do emit (stopped c.number); insert_conversation service spawned; pure true
]

unfoldable pub start_conversation : Bytes → Option ℕ → S Bool
start_conversation service spawned = do
  c ← find_conversation_by_name service
  start_in_place_of service spawned c

-- What begin_verification_conversation finds after the start.
abbrev pub found_if : Bool → Bytes → S (Option Conversation)
found_if true service = find_conversation_by_name service
found_if false service = pure none

abbrev pub begin_in : ℕ → Option Bytes → Option Conversation → S (Unit {0})
begin_in invocation username none = emit (refused invocation)
begin_in invocation username (some c) =
    update_conversation c.number
      (λ d. record d { starting_invocation = some invocation; starting_username = username })

-- gdm_session_handle_client_begin_verification and its sibling for a user.
unfoldable pub begin_verification : ℕ → Bytes → Option Bytes → Option ℕ → S (Unit {0})
unfolding start_conversation
begin_verification invocation service username spawned = do
  is_started ← start_conversation service spawned
  c ← found_if is_started service
  begin_in invocation username c

module _ (sys : System) where
  -- gdm_session_is_wayland_session
  unfoldable pub is_wayland_session : Choice → Bytes → Bool
  is_wayland_session self name =
      is_wayland_path (load_key_file_for_file sys self (name ++ codes ".desktop") none)

  unfoldable pub update_session_type : S (Unit {0})
  unfolding is_wayland_session
  update_session_type = do
    self ← read (λ s. s.choice)
    elim (supports_session_type self (some (codes "wayland"))) [
      | false ↦ set_session_type (codes "x11")
      | true ↦ do
        name ← require (get_session_name sys self)
        set_session_type (if is_wayland_session self name then codes "wayland" else codes "x11")
    ]

  -- gdm_session_defaults_changed
  unfoldable pub defaults_changed : S (Unit {0})
  unfolding update_session_type
  defaults_changed = do
    update_session_type
    greeter ← read (λ s. s.has_greeter)
    when greeter (do
      emit (signal (codes "default-language-name-changed"))
      self ← read (λ s. s.choice)
      name ← require (get_default_session_name sys self)
      emit (signal (codes "default-session-name-changed")))

  unfoldable pub gdm_session_setup : Bytes → S (Unit {0})
  unfolding update_session_type initialize_worker defaults_changed
  gdm_session_setup service = do
    update_session_type
    initialize_worker service none
    defaults_changed

  unfoldable pub gdm_session_setup_for_user : Bytes → Bytes → S (Unit {0})
  unfolding update_session_type initialize_worker defaults_changed
  gdm_session_setup_for_user service username = do
    update_session_type
    select_user username
    modify (λ s. record s { is_program_session = false })
    initialize_worker service (some username)
    defaults_changed

  -- The end of register_worker: a client that waits for the conversation gets it set up.
  abbrev pub set_up_started : Conversation → Option ℕ → Option Bytes → S (Unit {0})
  set_up_started c none username = pure tt
  set_up_started c (some invocation) none = gdm_session_setup c.service_name
  set_up_started c (some invocation) (some username) = do
    gdm_session_setup_for_user c.service_name username
    update_conversation c.number (λ d. record d { starting_username = none })

  abbrev pub register_in : ℕ → Option Conversation → S (Unit {0})
  register_in invocation none = emit (refused invocation)
  register_in invocation (some c) = do
    emit (returned invocation)
    emit (registered c.number)
    update_conversation c.number (λ d. record d { is_connected = true })
    set_up_started c c.starting_invocation c.starting_username

  -- register_worker, of a connection that is tracked, by the PID of its peer.
  unfoldable pub register_worker : ℕ → ℕ → S (Unit {0})
  unfolding gdm_session_setup gdm_session_setup_for_user
  register_worker invocation pid = do
    table ← read (λ s. s.conversations)
    c ← require (find_conversation_by_pid table pid)
    register_in invocation c

abbrev pub return_starting : Option ℕ → Option Failure → S (Unit {0})
return_starting none result = pure tt
return_starting (some invocation) none = emit (returned invocation)
return_starting (some invocation) (some failure) = emit (refused invocation)

abbrev pub is_unavailable : Failure → Bool
is_unavailable service_unavailable = true
is_unavailable too_many_retries = false
is_unavailable other_failure = false

-- The answer of the method Open.
pub data Opening : Type 0 where
  opened_as : Bytes → Opening
  not_opened : Failure → Opening

-- The callbacks, for a conversation that still exists, and an answer that is none of the errors CLOSED
-- and CANCELLED: `none` where the
-- call worked.
module _ (c : Conversation) where
  unfoldable pub on_initialization_complete_cb : Option Failure → S (Unit {0})
  unfolding gdm_session_authenticate report_and_stop_conversation
  on_initialization_complete_cb result = do
    return_starting c.starting_invocation result
    elim result [
      | none ↦ do
        emit (initialized c.number)
        emit (signal (codes "setup-complete"))
        gdm_session_authenticate c.service_name
      | some failure ↦ report_and_stop_conversation c.service_name failure
    ]
    update_conversation c.number (λ d. record d { starting_invocation = none })

  unfoldable pub on_authenticate_cb : Option Failure → S (Unit {0})
  unfolding gdm_session_authorize report_and_stop_conversation
  on_authenticate_cb result = elim result [
    | none ↦ do emit (authenticated c.number); gdm_session_authorize c.service_name
    | some failure ↦ do
      when (not (is_unavailable failure)) (emit (signal (codes "authentication-failed")))
      report_and_stop_conversation c.service_name failure
  ]

  unfoldable pub on_authorize_cb : Option Failure → S (Unit {0})
  unfolding gdm_session_accredit report_and_stop_conversation
  on_authorize_cb result = elim result [
    | none ↦ do emit (authorized c.number); gdm_session_accredit c.service_name
    | some failure ↦ report_and_stop_conversation c.service_name failure
  ]

  abbrev pub verified : VerificationMode → S (Unit {0})
  verified login = gdm_session_open_session c.service_name
  verified reauthenticate = do
    verifier ← read (λ s. s.has_user_verifier)
    when verifier (emit (signal (codes "verification-complete")))
  verified chooser = pure tt

  unfoldable pub on_establish_credentials_cb : Option Failure → S (Unit {0})
  unfolding gdm_session_open_session report_and_stop_conversation
  on_establish_credentials_cb result = elim result [
    | none ↦ do
      emit (accredited c.number)
      emit (signal (codes "credentials-established"))
      mode ← read (λ s. s.verification_mode)
      verified mode
    | some failure ↦ report_and_stop_conversation c.service_name failure
  ]

  unfoldable pub on_opened : Opening → S (Unit {0})
  unfolding report_and_stop_conversation
  on_opened (not_opened failure) = do
    report_and_stop_conversation c.service_name failure
    emit (signal (codes "session-opened-failed"))
  on_opened (opened_as session_id) = do
    update_conversation c.number (λ d. record d { session_id = some session_id })
    modify (λ s. record s { session_opened = some session_id })
    emit (opened c.number)
    verifier ← read (λ s. s.has_user_verifier)
    when verifier (emit (signal (codes "verification-complete")))
    emit (signal (codes "session-opened"))
    modify (λ s. record s { is_opened = true })

  unfoldable pub on_start_program_cb : Option ℕ → S (Unit {0})
  unfolding gdm_session_stop_conversation
  on_start_program_cb none = do
    gdm_session_stop_conversation c.service_name
    emit (signal (codes "session-start-failed"))
  on_start_program_cb (some pid) = do
    modify (λ s. record s { session_pid = some pid; session_conversation = some c.number })
    emit (started c.number pid)
    emit (signal (codes "session-started"))
