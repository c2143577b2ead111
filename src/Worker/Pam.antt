-- ===== src/Worker/Pam.antt =====
-- daemon/gdm-session-worker.c: the calls of PAM from pam_start to pam_setcred, and the end of a
-- conversation. The result of an operation is the GError that it sets, `none` if it returns TRUE.
use gdm.Base.{
  String, Option, none, some, Bool, true, false, not, ◌&&◌, ◌||◌, if◌then◌else◌, leb, pure, read,
  modify, when, g_assert, ◌>>=◌, ◌>>◌, strcmp0_eq, is_nonempty, is_some,
}
use gdm.Worker.{State, rank, Effect, Env, Build, W, PamCode, PamItem, ErrorCode, emit}
use gdm.Worker.Ledger.{is_success}
use gdm.Worker.Accounts.{
  audit, get_username, set_state, set_environment_variable, update_environment_from_passwd_info,
  Account, lookup_passwd_info, default_path,
}
use gdm.Worker.Messages.{converse, friendly_error_message}

abbrev pub Failure : Type 0
Failure = Option (ErrorCode × String)

abbrev pub stop_auditor : W (Unit {0})
stop_auditor = modify (λ w. record w { auditor = false })

-- gdm_session_worker_uninitialize_pam
unfoldable pub uninitialize_pam : Env → PamCode → W (Unit {0})
unfolding get_username set_state
uninitialize_pam env status = do
  handle ← read (λ w. w.pam_handle)
  elim handle [
    | false ↦ pure tt
    | true ↦ do
      _ ← get_username env
      s ← read (λ w. w.state)
      if leb 6 (rank s)
          then (do emit Effect.pam_close_session; audit Effect.audit_logout)
          else (audit (Effect.audit_login_failure status))
      when (leb 4 (rank s)) (emit Effect.pam_delete_cred)
      emit (Effect.pam_end status)
      modify (λ w. record w { pam_handle = false })
      stop_auditor
      set_state State.none_state
  ]

-- The label `out` of the operations below, where the error code tells failure from success.
unfoldable pub finish : Env → PamCode → Failure → W Failure
finish env code failure = do
  when (not (is_success code)) (uninitialize_pam env code)
  pure (if is_success code then none else failure)

-- A step of the conversation: on success the worker moves on to the state, else it starts over.
unfoldable pub conclude : Env → PamCode → State → Failure → W Failure
unfolding finish set_state
conclude env code s failure = do when (is_success code) (set_state s); finish env code failure

-- PAM_RHOST, for a display that is not local.
abbrev rhost_of : Option String → String
rhost_of none = "0.0.0.0"
rhost_of (some h) = if is_nonempty (some h) then h else "0.0.0.0"

-- The items that gdm_session_worker_initialize_pam sets once the handle is there: the code of the
-- first that fails.
unfoldable pub set_initial_items : Env → W PamCode
set_initial_items env = do
  username ← read (λ w. w.username)
  hostname ← read (λ w. w.hostname)
  is_local ← read (λ w. w.display_is_local)
  let wants_prompt : Bool = not (is_some username)
  let prompt_code : PamCode =
      if wants_prompt then env.set_item_code PamItem.user_prompt else PamCode.success
  when wants_prompt (emit (Effect.pam_set_item PamItem.user_prompt "Username:"))
  let wants_rhost : Bool = is_success prompt_code && not is_local
  when wants_rhost (emit (Effect.pam_set_item PamItem.rhost (rhost_of hostname)))
  pure (if wants_rhost then env.set_item_code PamItem.rhost else prompt_code)

-- What follows when the items are set: the environment, the state, the terminal of the login.
unfoldable pub set_up_environment : Env → Build → String → W (Unit {0})
unfolding set_state
set_up_environment env build service = do
  seat ← read (λ w. w.display_seat_id)
  vts ← read (λ w. w.seat0_has_vts)
  is_local ← read (λ w. w.display_is_local)
  set_environment_variable "XDG_SESSION_EXTRA_DEVICE_ACCESS" (some "render:accel")
  when (is_nonempty seat) (set_environment_variable "XDG_SEAT" seat)
  when (strcmp0_eq (some service) (some "gdm-launch-environment"))
      (set_environment_variable "XDG_SESSION_CLASS" (some "greeter"))
  set_state State.setup_complete
  when (strcmp0_eq seat (some "seat0") && vts) (emit (Effect.pam_set_tty build.initial_vt))
  when (not is_local) (modify (λ w. record w { password_is_required = true }))

abbrev pub service_name : Option String → String
service_name none = ""
service_name (some s) = s

-- What follows a call of pam_start that has given a handle.
unfoldable pub configure : Env → Build → W Failure
unfolding set_initial_items set_up_environment finish
configure env build = do
  code ← set_initial_items env
  service ← read (λ w. w.service)
  when (is_success code) (set_up_environment env build (service_name service))
  finish env code (some (ErrorCode.authenticating, ""))

unfoldable pub start_conversation : Env → Build → W Failure
start_conversation env build = do
  modify (λ w. record w { auditor = true })
  emit (Effect.pam_start env.start_code)
  modify (λ w. record w { pam_handle = is_success env.start_code || env.start_sets_handle })
  if is_success env.start_code
      then (configure env build)
      else (finish env env.start_code (some (ErrorCode.service_unavailable, "")))

-- gdm_session_worker_initialize_pam, with the worker's own fields for its arguments
unfoldable pub initialize_pam : Env → Build → W Failure
unfolding start_conversation
initialize_pam env build = do
  service ← read (λ w. w.service)
  g_assert (is_some service)
  handle ← read (λ w. w.pam_handle)
  g_assert (not handle)
  start_conversation env build

-- PAM_USER_UNKNOWN is not told apart from a wrong password.
abbrev pub hide_unknown_user : PamCode → PamCode
hide_unknown_user PamCode.user_unknown = PamCode.auth_err
hide_unknown_user c = c

-- How gdm_session_worker_authenticate_user reports the code of pam_authenticate.
unfoldable pub authentication_failure : Option String → PamCode → Failure
authentication_failure service PamCode.authinfo_unavail = some (ErrorCode.service_unavailable, "")
authentication_failure service PamCode.module_unknown = some (ErrorCode.service_unavailable, "")
authentication_failure service PamCode.maxtries =
    some (ErrorCode.too_many_retries, friendly_error_message service PamCode.maxtries)
authentication_failure service c =
    some (ErrorCode.authenticating, friendly_error_message service (hide_unknown_user c))

-- gdm_session_worker_authenticate_user
unfoldable pub authenticate_user : Env → Bool → W Failure
unfolding conclude authentication_failure
authenticate_user env password_is_required = do
  converse env env.conversation
  emit (Effect.pam_authenticate password_is_required env.authenticate_code)
  service ← read (λ w. w.service)
  conclude env (hide_unknown_user env.authenticate_code) State.authenticated
      (authentication_failure service env.authenticate_code)

-- `error_code == PAM_NEW_AUTHTOK_REQD && !worker->is_program_session`
unfoldable pub requires_new_token : PamCode → Bool → Bool
requires_new_token PamCode.new_authtok_reqd is_program = not is_program
requires_new_token _ is_program = false

-- An expired password is changed.
unfoldable pub change_expired_token : Env → W (Unit {0})
unfolding get_username
change_expired_token env = do
  converse env env.expiry_conversation
  emit (Effect.pam_chauthtok env.chauthtok_code)
  _ ← get_username env
  audit (
      if is_success env.chauthtok_code
      then Effect.audit_password_changed
      else Effect.audit_password_change_failure)

-- The code that gdm_session_worker_authorize_user goes by. A user who is logged in already needs
-- no authorization.
unfoldable pub decide : Env → Bool → Bool → W PamCode
unfolding change_expired_token
decide env expired is_reauth = do
  when expired (change_expired_token env)
  let code : PamCode = if expired then env.chauthtok_code else env.acct_mgmt_code
  pure (if is_reauth then PamCode.success else code)

unfoldable pub authorization_code : Env → Bool → W PamCode
unfolding decide requires_new_token
authorization_code env password_is_required = do
  converse env env.conversation
  emit (Effect.pam_acct_mgmt password_is_required env.acct_mgmt_code)
  is_program ← read (λ w. w.is_program_session)
  is_reauth ← read (λ w. w.is_reauth_session)
  decide env (requires_new_token env.acct_mgmt_code is_program) is_reauth

-- gdm_session_worker_authorize_user
unfoldable pub authorize_user : Env → Bool → W Failure
unfolding authorization_code conclude
authorize_user env password_is_required = do
  code ← authorization_code env password_is_required
  service ← read (λ w. w.service)
  conclude env code State.authorized
      (some (ErrorCode.authorizing, friendly_error_message service code))

-- _change_user
change_user : Env → Account → W Bool
change_user env a = do
  modify (λ w. record w { uid = a.account_uid; gid = a.account_gid })
  emit (Effect.change_user a.account_uid a.account_gid)
  pure (env.setgid_ok && env.initgroups_ok)

-- The environment of the account, a default PATH where PAM has set none, and the change of user.
unfoldable pub become_user : Env → Build → Account → W Bool
unfolding change_user update_environment_from_passwd_info
become_user env build a = do
  update_environment_from_passwd_info a.home a.shell
  when (not (is_some (env.getenv "PATH")))
      (set_environment_variable "PATH" (some (default_path build)))
  change_user env a

-- pam_setcred, by the flags of the method call. A user who is logged in already is not locked out.
unfoldable pub set_credentials : Env → Bool → W (PamCode × Failure)
set_credentials env is_reauth = do
  converse env env.conversation
  flags ← read (λ w. w.cred_flags)
  emit (Effect.pam_setcred flags env.setcred_code)
  let code : PamCode = if is_reauth then PamCode.success else env.setcred_code
  pure (code, some (ErrorCode.giving_credentials, env.strerror code))

-- What follows a change of user that failed or succeeded.
unfoldable pub credentials_after : Env → Bool → Bool → W (PamCode × Failure)
unfolding set_credentials
credentials_after env false is_reauth =
    pure (PamCode.system_err, some (ErrorCode.giving_credentials, "Unable to change to user"))
credentials_after env true is_reauth = set_credentials env is_reauth

-- The body of gdm_session_worker_accredit_user for an account that exists: the code and the error.
unfoldable pub accredit_account : Env → Build → Account → W (PamCode × Failure)
unfolding become_user credentials_after
accredit_account env build a = do
  changed ← become_user env build a
  is_reauth ← read (λ w. w.is_reauth_session)
  credentials_after env changed is_reauth

unfoldable pub accredit_found : Env → Build → Option Account → W (PamCode × Failure)
unfolding accredit_account
accredit_found env build none =
    pure
      (PamCode.authinfo_unavail, some (ErrorCode.giving_credentials, "no user account available"))
accredit_found env build (some a) = accredit_account env build a

unfoldable pub accredit_username : Env → Build → Option String → W (PamCode × Failure)
unfolding accredit_found
accredit_username env build none =
    pure (PamCode.user_unknown, some (ErrorCode.giving_credentials, "no user account available"))
accredit_username env build (some name) = accredit_found env build (lookup_passwd_info env name)

unfoldable pub report_accredited : Env → W (Unit {0})
unfolding get_username
report_accredited env = do _ ← get_username env; audit Effect.audit_accredited

-- gdm_session_worker_accredit_user
unfoldable pub accredit_user : Env → Build → W Failure
unfolding accredit_username report_accredited conclude
accredit_user env build = do
  username ← read (λ w. w.username)
  (code, failure) ← accredit_username env build username
  when (is_success code) (report_accredited env)
  conclude env code State.accredited failure
