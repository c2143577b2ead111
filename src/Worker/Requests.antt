-- ===== src/Worker/Requests.antt =====
-- daemon/gdm-session-worker.c: the methods of the worker's D-Bus interface. A method call is known
-- by the number of its invocation.
use Prim.Native.String.{◌++◌ as append}
use gdm.Base.{
  ℕ, zero, suc, ◌-◌, ◌==◌, String, Option, none, some, Bool, true, false, not, List, [], ◌∷◌,
  if◌then◌else◌, pure, read, modify, when, g_assert, ◌>>=◌, ◌>>◌, is_some, streq,
}
use gdm.Settings
use gdm.Settings.{Settings, Notification}
use gdm.Worker.{
  State, rank, Effect, Worker, Env, CredFlags, DisplayMode, W, ErrorCode, Reply, emit, is_state,
}
use gdm.Worker.Accounts.{
  queue_state_change, load_settings, store_settings, set_environment_variable,
}

-- get_state_name; it does not return for a number that is no state.
unfoldable pub state_name : ℕ → Option String
state_name zero = some "NONE"
state_name (suc zero) = some "SETUP_COMPLETE"
state_name (suc (suc zero)) = some "AUTHENTICATED"
state_name (suc (suc (suc zero))) = some "AUTHORIZED"
state_name (suc (suc (suc (suc zero)))) = some "ACCREDITED"
state_name (suc (suc (suc (suc (suc zero))))) = some "ACCOUNT_DETAILS_SAVED"
state_name (suc (suc (suc (suc (suc (suc zero)))))) = some "SESSION_OPENED"
state_name (suc (suc (suc (suc (suc (suc (suc zero))))))) = some "SESSION_STARTED"
state_name _ = none

abbrev pub text_of : Option String → String
text_of none = ""
text_of (some s) = s

abbrev pub return_error : ℕ → ErrorCode → String → W (Unit {0})
return_error invocation code message = emit (Effect.reply invocation (Reply.error code message))

abbrev pub outstanding_text : State → State → String
outstanding_text new old = append "Cannot process state change to " (
    append (text_of (state_name (rank new))) (
      append ", as there is already an outstanding request to move to state "
        (text_of (state_name (suc (rank old))))))

abbrev pub wrong_state_text : State → State → String
wrong_state_text new old = append "Cannot move to state " (
    append (text_of (state_name (rank new))) (
      append ", in state " (
        append (text_of (state_name (rank old)))
          (append ", not " (text_of (state_name (rank new - 1)))))))

-- validate_state_change
unfoldable pub validate_state_change : ℕ → State → W Bool
unfolding state_name
validate_state_change invocation new_state = do
  pending ← read (λ w. w.pending_invocation)
  s ← read (λ w. w.state)
  elim pending [
    | some _ ↦ do
      g_assert (is_some (state_name (suc (rank s))))
      return_error invocation ErrorCode.outstanding_request (outstanding_text new_state s)
      pure false
    | none ↦ elim (suc (rank s) == rank new_state) [
      | false ↦ do
        return_error invocation ErrorCode.wrong_state (wrong_state_text new_state s)
        pure false
      | true ↦ pure true
    ]
  ]

unfoldable pub validate_and_queue_state_change : ℕ → State → W (Unit {0})
unfolding validate_state_change queue_state_change
validate_and_queue_state_change invocation new_state = do
  valid ← validate_state_change invocation new_state
  when valid
      (do modify (λ w. record w { pending_invocation = some invocation }); queue_state_change)

unfoldable pub handle_authenticate : ℕ → W (Unit {0})
unfolding validate_and_queue_state_change
handle_authenticate invocation = validate_and_queue_state_change invocation State.authenticated

unfoldable pub handle_authorize : ℕ → W (Unit {0})
unfolding validate_and_queue_state_change
handle_authorize invocation = validate_and_queue_state_change invocation State.authorized

unfoldable pub handle_establish_credentials : ℕ → W (Unit {0})
unfolding validate_and_queue_state_change
handle_establish_credentials invocation = do
  validate_and_queue_state_change invocation State.accredited
  is_reauth ← read (λ w. w.is_reauth_session)
  modify (λ w. record w {
    cred_flags = if is_reauth then CredFlags.reinitialize_cred else CredFlags.establish_cred;
  })

unfoldable pub handle_open : ℕ → W (Unit {0})
unfolding validate_and_queue_state_change
handle_open invocation = validate_and_queue_state_change invocation State.account_details_saved

-- The entries of the dictionary that `Initialize` takes.
pub data Detail : Type 0 where
  service username log_file console seat_id hostname : String → Detail
  is_program_session display_is_local display_is_initial : Bool → Detail
  extensions : List String → Detail
  other : Detail

abbrev contains : List String → String → Bool
contains [] s = false
contains (x ∷ xs) s = if streq x s then true else contains xs s

-- The extensions of PAM that the worker supports.
abbrev pub supported_extensions : List String
supported_extensions =
    "org.gnome.DisplayManager.UserVerifier.ChoiceList"
    ∷ "org.gnome.DisplayManager.UserVerifier.CustomJSON" ∷ []

-- filter_extensions
unfoldable pub filter_extensions : List String → List String
filter_extensions [] = []
filter_extensions (x ∷ xs) =
    let rest = filter_extensions xs in if contains supported_extensions x then x ∷ rest else rest

abbrev pub apply_detail : Detail → Worker → Worker
apply_detail (Detail.service s) w = record w { service = some s }
apply_detail (Detail.username s) w = record w { username = some s }
apply_detail (Detail.log_file s) w = record w { log_file = some s }
apply_detail (Detail.console s) w = record w { display_device = some s }
apply_detail (Detail.seat_id s) w = record w { display_seat_id = some s }
apply_detail (Detail.hostname s) w = record w { hostname = some s }
apply_detail (Detail.is_program_session b) w = record w { is_program_session = b }
apply_detail (Detail.display_is_local b) w = record w { display_is_local = b }
apply_detail (Detail.display_is_initial b) w = record w { display_is_initial = b }
apply_detail (Detail.extensions xs) w = record w { extensions = filter_extensions xs }
apply_detail Detail.other w = w

unfoldable pub apply_details : List Detail → Worker → Worker
apply_details [] w = w
apply_details (d ∷ ds) w = apply_details ds (apply_detail d w)

-- The settings object of a login session, and whether it must be waited for.
unfoldable pub create_settings : Env → W Bool
create_settings env = do
  modify (λ w. record w {
    user_settings = some Settings.new;
    awaiting_settings = false;
    saved_names_connected = true;
    saved_type_connected = true;
  })
  name ← read (λ w. w.username)
  elim name [
    | none ↦ pure false
    | some n ↦ do loaded ← load_settings env Settings.new (some n); pure (not loaded)
  ]

-- The conversation begins at once, or when the settings are loaded.
abbrev pub await_or_queue : Bool → W (Unit {0})
await_or_queue true = modify (λ w. record w { awaiting_settings = true })
await_or_queue false = queue_state_change

-- What `Initialize` does once its call is accepted.
unfoldable pub begin_conversation : Env → ℕ → List Detail → W (Unit {0})
unfolding create_settings queue_state_change
begin_conversation env invocation details = do
  modify (λ w. record (apply_details details w) {
    seat0_has_vts = env.seat0_can_tty;
    pending_invocation = some invocation;
  })
  is_program ← read (λ w. w.is_program_session)
  wait ← (if is_program then pure false else create_settings env)
  await_or_queue wait

unfoldable pub handle_initialize : Env → ℕ → List Detail → W (Unit {0})
unfolding validate_state_change begin_conversation
handle_initialize env invocation details = do
  valid ← validate_state_change invocation State.setup_complete
  when valid (begin_conversation env invocation details)

-- What `StartProgram` does after the validation.
unfoldable pub request_program : Env → ℕ → String → W (Unit {0})
unfolding queue_state_change
request_program env invocation text = do
  is_reauth ← read (λ w. w.is_reauth_session)
  elim is_reauth [
    | true ↦
        return_error invocation ErrorCode.in_reauth_session
          "Cannot start a program while in a reauth session"
    | false ↦ do
      modify (λ w. record w { arguments = [] })
      elim (env.parse_argv text) [
        | none ↦ return_error invocation ErrorCode.parse_failed ""
        | some argv ↦ do
          modify (λ w. record w { arguments = argv; pending_invocation = some invocation })
          queue_state_change
      ]
  ]

-- The result of validate_state_change is not looked at.
unfoldable pub handle_start_program : Env → ℕ → String → W (Unit {0})
unfolding validate_state_change request_program
handle_start_program env invocation text = do
  _ ← validate_state_change invocation State.session_started
  request_program env invocation text

-- g_hash_table_replace and g_hash_table_remove on the requests, which are known by their caller.
abbrev pub without : ℕ → List ℕ → List ℕ
without pid [] = []
without pid (p ∷ ps) = let rest = without pid ps in if p == pid then rest else p ∷ rest

unfoldable pub handle_start_reauthentication : ℕ → ℕ → ℕ → W (Unit {0})
handle_start_reauthentication invocation pid_of_caller uid_of_caller = do
  s ← read (λ w. w.state)
  if is_state s State.session_started
      then (do
        emit (Effect.start_reauthentication pid_of_caller uid_of_caller)
        emit (Effect.reply invocation Reply.completed)
        modify (λ w. record w {
          reauthentication_requests =
              pid_of_caller ∷ without pid_of_caller w.reauthentication_requests;
        }))
      else (return_error invocation ErrorCode.wrong_state
          (append "Cannot reauthenticate while in state " (text_of (state_name (rank s)))))

unfoldable pub on_reauthentication_client_disconnected : ℕ → W (Unit {0})
on_reauthentication_client_disconnected pid =
    modify (λ w. record w { reauthentication_requests = without pid w.reauthentication_requests })

unfoldable pub handle_set_environment_variable : ℕ → String → String → W (Unit {0})
handle_set_environment_variable invocation key value = do
  set_environment_variable key (some value)
  emit (Effect.reply invocation Reply.completed)

-- The setters of the saved session and language reach the settings object if there is one.
unfoldable pub update_settings : Env → (Settings → Settings × List Notification) → W (Unit {0})
update_settings env set = do
  settings ← read (λ w. w.user_settings)
  elim settings [ none ↦ pure tt | some s ↦ do let (s', ns) = set s; store_settings env s' ns ]

unfoldable pub handle_set_session_name : Env → ℕ → String → W (Unit {0})
unfolding update_settings
handle_set_session_name env invocation name = do
  update_settings env (λ s. Settings.set_session_name s name)
  emit (Effect.reply invocation Reply.completed)

unfoldable pub handle_set_language_name : Env → ℕ → String → W (Unit {0})
unfolding update_settings
handle_set_language_name env invocation name = do
  update_settings env (λ s. Settings.set_language_name s name)
  emit (Effect.reply invocation Reply.completed)

-- gdm_session_display_mode_from_string, of daemon/gdm-session.c
unfoldable pub display_mode_from_string : String → DisplayMode
display_mode_from_string s =
    if streq s "new-vt"
    then DisplayMode.new_vt
    else if streq s "logind-managed"
    then DisplayMode.logind_managed
    else DisplayMode.unknown_mode

unfoldable pub handle_set_session_display_mode : ℕ → String → W (Unit {0})
unfolding display_mode_from_string
handle_set_session_display_mode invocation mode = do
  modify (λ w. record w { display_mode = display_mode_from_string mode })
  emit (Effect.reply invocation Reply.completed)
