-- ===== src/Worker.antt =====
-- daemon/gdm-session-worker.c, daemon/gdm-session-worker.h and daemon/gdm-session-worker-common.h:
-- the process that runs one PAM conversation. This file has the state, the answers of the
-- environment and the effects. An operation is a state-passing function; a failed g_assert is
-- `none`. Calls that leave the process are appended to `log`, newest first.
use gdm.Base.{ℕ, String, Option, Bool, List, M, modify, ◌∷◌, ◌==◌}
use gdm.Settings
use gdm.Settings.{Settings, ActUser}
pub mod Ledger
pub mod Frame
pub mod Accounts
pub mod Messages
pub mod Pam
pub mod Session
pub mod Requests
pub mod Loop
pub mod Invariant
pub mod Safety
pub mod Replies
pub mod Returns
pub mod Endings
pub mod Tests

pub data State : Type 0 where
  none_state setup_complete authenticated authorized accredited : State
  account_details_saved session_opened session_started : State

-- The values of the enumeration.
abbrev pub rank : State → ℕ
rank none_state = 0
rank setup_complete = 1
rank authenticated = 2
rank authorized = 3
rank accredited = 4
rank account_details_saved = 5
rank session_opened = 6
rank session_started = 7

pub data ErrorCode : Type 0 where
  generic with_session_command forking opening_message_pipe communicating worker_died : ErrorCode
  service_unavailable too_many_retries authenticating authorizing opening_log_file : ErrorCode
  opening_session giving_credentials wrong_state outstanding_request : ErrorCode
  in_reauth_session : ErrorCode
  parse_failed : ErrorCode  -- the domain of g_shell_parse_argv

-- The return codes of PAM that the worker tells apart.
pub data PamCode : Type 0 where
  success ignored authinfo_unavail module_unknown maxtries user_unknown auth_err : PamCode
  new_authtok_reqd acct_expired authtok_expired system_err conv_err pam_abort : PamCode
  other : ℕ → PamCode

pub data PamItem : Type 0 where
  user_prompt rhost : PamItem

pub data CredFlags : Type 0 where
  no_flags establish_cred reinitialize_cred : CredFlags

pub data DisplayMode : Type 0 where
  new_vt logind_managed unknown_mode : DisplayMode

-- What a method call is answered with.
pub data Reply : Type 0 where
  completed : Reply
  opened_session : String → Reply
  started_program : ℕ → Reply
  error : ErrorCode → String → Reply

pub data Effect : Type 0 where
  pam_start : PamCode → Effect
  pam_set_item : PamItem → String → Effect
  pam_set_tty : ℕ → Effect  -- PAM_TTY is /dev/tty<n>
  pam_putenv : String → Option String → Effect
  pam_put_vtnr : ℕ → Effect  -- XDG_VTNR=<n>
  pam_authenticate pam_acct_mgmt : Bool → PamCode → Effect
  pam_chauthtok : PamCode → Effect
  pam_setcred : CredFlags → PamCode → Effect
  pam_open_session : Bool → PamCode → Effect
  pam_delete_cred pam_close_session : Effect  -- pam_setcred with PAM_DELETE_CRED
  pam_end : PamCode → Effect
  audit_username : Option String → Effect
  audit_password_changed audit_password_change_failure audit_accredited : Effect
  audit_login audit_logout : Effect
  audit_login_failure : PamCode → Effect
  change_user : ℕ → ℕ → Effect
  jump_to_vt : ℕ → Effect
  fork_session : List String → ℕ → Effect
  kill_group : ℕ → Effect
  terminate : ℕ → Effect
  state_changed : State → Effect
  username_changed : Option String → Effect
  saved_language_name_read saved_session_name_read saved_session_type_read : Option String → Effect
  save_settings : List Settings.Write → Effect
  session_exited : ℕ → Effect
  cancel_pending_query : Effect
  start_reauthentication : ℕ → ℕ → Effect
  reply : ℕ → Reply → Effect

-- The fields of _GdmSessionWorker that the operations read or write. `pam_handle` and `auditor`
-- say whether the pointer is set, `state_change_idle_id` whether the idle source is queued, and
-- `pending_invocation` is the method call to be answered. The last three record which handlers of
-- the settings object are connected.
pub record Worker : Type 0 where
  pub state : State
  pub pam_handle : Bool
  pub auditor : Bool
  pub child_pid : Option ℕ
  pub service : Option String
  pub display_device : Option String
  pub display_seat_id : Option String
  pub hostname : Option String
  pub username : Option String
  pub log_file : Option String
  pub extensions : List String
  pub session_id : Option String
  pub uid : ℕ
  pub gid : ℕ
  pub password_is_required : Bool
  pub cred_flags : CredFlags
  pub session_vt : ℕ
  pub session_tty : Bool
  pub arguments : List String
  pub cancelled : Bool
  pub timed_out : Bool
  pub is_program_session : Bool
  pub is_reauth_session : Bool
  pub display_is_local : Bool
  pub display_is_initial : Bool
  pub seat0_has_vts : Bool
  pub state_change_idle_id : Bool
  pub display_mode : DisplayMode
  pub reauthentication_requests : List ℕ
  pub user_settings : Option Settings
  pub pending_invocation : Option ℕ
  pub awaiting_settings : Bool
  pub saved_names_connected : Bool
  pub saved_type_connected : Bool
  pub log : List Effect

pub data MessageStyle : Type 0 where
  prompt_echo_on prompt_echo_off text_info error_msg radio_type binary_prompt unknown_style :
      MessageStyle

-- One message of PAM's conversation: its style, whether the call to the daemon that shows it
-- succeeds, and the bytes that the user answers. (For an extended message, `binary_prompt`, the
-- two stand for the outcome of its handler.)
pub record Message : Type 0 where
  pub style : MessageStyle
  pub delivered : Bool
  pub answer : Option (List ℕ)

pub record Passwd : Type 0 where
  pub pw_uid : ℕ
  pub pw_gid : ℕ
  pub pw_dir : Option String
  pub pw_shell : Option String

-- What libpam, libc, the kernel, accountsservice and glib answer while one event is handled.
-- PAM's blocking calls first hold the conversations listed for them.
pub record Env : Type 0 where
  pub start_code : PamCode
  pub start_sets_handle : Bool
  pub set_item_code : PamItem → PamCode
  pub pam_user : Option (Option String)
  pub getenv : String → Option String
  pub strerror : PamCode → String
  pub conversation : List (List Message)
  pub expiry_conversation : List (List Message)
  pub max_resp_size : ℕ
  pub authenticate_code : PamCode
  pub acct_mgmt_code : PamCode
  pub chauthtok_code : PamCode
  pub setcred_code : PamCode
  pub open_session_code : PamCode
  pub getpwnam : String → Option Passwd
  pub setgid_ok : Bool
  pub initgroups_ok : Bool
  pub initial_vt_opens : Bool
  pub free_vt : Option ℕ
  pub session_tty_opens : Bool
  pub euid_is_root : Bool
  pub fork_result : Option ℕ
  pub fork_error : String
  pub seat0_can_tty : Bool
  pub parse_argv : String → Option (List String)
  pub get_user : String → ActUser
  pub cache_user : String → Bool

-- The constants that the build chooses: GDM_INITIAL_VT, BINDIR and GDM_SESSION_DEFAULT_PATH.
pub record Build : Type 0 where
  pub initial_vt : ℕ
  pub bindir : String
  pub session_default_path : String

abbrev pub W : Type 0 → Type 0
W A = M Worker A

abbrev pub is_state : State → State → Bool
is_state a b = rank a == rank b

abbrev pub emit : Effect → W (Unit {0})
emit e = modify (λ w. record w { log = e ∷ w.log })
