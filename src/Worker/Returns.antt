-- ===== src/Worker/Returns.antt =====
-- The operations of daemon/gdm-session-worker.c below `do_authenticate`, `do_authorize` and
-- `do_accredit`: they return, and how they end.
use gdm.Base.{
  ℕ, ◌≡◌, inl, inr, refl, subst, ◌∙◌, String, Option, none, some, Bool, true, false, List, [], ◌∷◌,
  arith, Ensures, Ensures-bind, is_some, Option-cases, ◌>>=◌,
}
use gdm.Settings
use gdm.Settings.{Settings, Notification}
use gdm.Worker.{State, Effect, Worker, Env, PamCode, Message, W}
use gdm.Worker.Ledger.{is_success}
use gdm.Worker.Frame.{Frame, calm, converse-Frame, handler-Frame, process_pam_message-Frame}
use gdm.Worker.Accounts.{
  continue_loaded, on_settings_is_loaded_changed, notify, notify_all, load_settings,
  attempt_to_load_user_settings, change_username, adopt_username, update_username, get_username,
  save_account_details_now, queue_state_change, write_settings, set_state, audit,
}
use gdm.Worker.Messages.{
  process_pam_message, collect_replies, go_on, pam_new_messages_handler, converse,
}
use gdm.Worker.Pam.{
  Failure, uninitialize_pam, finish, conclude, authenticate_user, hide_unknown_user,
  authentication_failure,
}

pub returns_bind :
    {A B : Type 0} (m : W A) (f : A → W B) (w : Worker)
    → is_some (m w) ≡ true
    → ((a : A) (v : Worker) → is_some (f a v) ≡ true)
    → is_some ((m >>= f) w) ≡ true
returns_bind {A} {B} m f w h k = go (m w) h
  where
    go :
        (r : Option (A × Worker))
        → is_some r ≡ true
        → is_some (elim r as (λ _. Option (B × Worker)) [ none ↦ none | some (a, v) ↦ f a v ])
          ≡ true
    go none h = cc
    go (some (a, v)) h = k a v

continue_returns :
    (env : Env) (s : State) (w : Worker) → w.state ≡ s → is_some (continue_loaded env s w) ≡ true
unfolding continue_loaded save_account_details_now queue_state_change set_state write_settings
continue_returns env s w e = ground arith

on_settings_returns :
    (env : Env) (w : Worker) → is_some (on_settings_is_loaded_changed env w) ≡ true
unfolding on_settings_is_loaded_changed
on_settings_returns env w =
    ground (arith, continue_returns env w.state (record w { saved_names_connected = false }) refl)

notify_returns : (env : Env) (n : Notification) (w : Worker) → is_some (notify env n w) ≡ true
unfolding notify
notify_returns env Notification.loaded w = ground (arith, on_settings_returns env w)
notify_returns env _ w = ground arith

notify_all_returns :
    (env : Env) (ns : List Notification) (w : Worker) → is_some (notify_all env ns w) ≡ true
unfolding notify_all
notify_all_returns env [] w = refl
notify_all_returns env (n ∷ ns) w =
    returns_bind (notify env n) (λ _. notify_all env ns) w (notify_returns env n w)
      λ _ v. notify_all_returns env ns v

load_settings_returns :
    (env : Env) (s : Settings) (name : Option String) (w : Worker)
    → is_some (load_settings env s name w) ≡ true
unfolding load_settings
load_settings_returns env s name w =
    let (s', _, ns) = Settings.load env.get_user s name in
    ground (arith, notify_all_returns env ns (record w { user_settings = some s' }))

attempt_returns :
    (env : Env) (name : Option String) (w : Worker)
    → is_some (attempt_to_load_user_settings env name w) ≡ true
unfolding attempt_to_load_user_settings
attempt_returns env name w = elim (Option-cases w.user_settings) [
  | inl e ↦ ground arith
  | inr (s, e) ↦ ground (arith, load_settings_returns env s name w)
]

change_username_returns :
    (env : Env) (name : Option String) (w : Worker) → is_some (change_username env name w) ≡ true
unfolding change_username
change_username_returns env name w = ground (
  arith,
  attempt_returns env name
      (record w { username = name; log = Effect.username_changed name ∷ w.log }),
)

adopt_username_returns :
    (env : Env) (res : Option (Option String)) (w : Worker)
    → is_some (adopt_username env res w) ≡ true
unfolding adopt_username
adopt_username_returns env none w = refl
adopt_username_returns env (some name) w =
    returns_bind (audit (Effect.audit_username w.username)) _ w (ground arith)
      λ _ v. ground (arith, change_username_returns env name v)

-- In a conversation: the handle is there, and loaded settings do not move the worker on.
pub record InCall (w : Worker) : Type 0 where
  pub with_handle : w.pam_handle ≡ true
  pub is_calm : calm w.state ≡ true

pub Frame-InCall : {v w : Worker} → Frame v w → InCall v → InCall w
Frame-InCall f c = ground arith

-- What follows an operation that moves nothing.
pub returns_call :
    {A B : Type 0} (m : W A) (f : A → W B) (w : Worker)
    → InCall w
    → is_some (m w) ≡ true
    → Ensures (λ _ v. Frame w v) (m w)
    → ((a : A) (v : Worker) → InCall v → is_some (f a v) ≡ true)
    → is_some ((m >>= f) w) ≡ true
returns_call {A} {B} m f w c h g k = go (m w) h g
  where
    go :
        (r : Option (A × Worker))
        → is_some r ≡ true
        → Ensures (λ _ v. Frame w v) r
        → is_some (elim r as (λ _. Option (B × Worker)) [ none ↦ none | some (a, v) ↦ f a v ])
          ≡ true
    go none h g = cc
    go (some (a, v)) h g = k a v (Frame-InCall g c)

pub get_username_returns : (env : Env) (w : Worker) → InCall w → is_some (get_username env w) ≡ true
unfolding get_username
get_username_returns env w c = ground arith

update_username_returns :
    (env : Env) (w : Worker) → InCall w → is_some (update_username env w) ≡ true
unfolding update_username
update_username_returns env w c =
    returns_bind (get_username env) (adopt_username env) w (get_username_returns env w c)
      (adopt_username_returns env)

process_pam_message_returns :
    (env : Env) (m : Message) (w : Worker) → InCall w → is_some (process_pam_message env m w) ≡ true
unfolding process_pam_message
process_pam_message_returns env m w c =
    returns_bind (update_username env) _ w (update_username_returns env w c) λ _ v. ground arith

go_on_returns :
    (got : Bool) (r : Option (List ℕ)) (rest : W (Option (List (Option (List ℕ))))) (w : Worker)
    → is_some (rest w) ≡ true
    → is_some (go_on got r rest w) ≡ true
go_on_returns false r rest w h = refl
go_on_returns true r rest w h = returns_bind rest _ w h λ a v. refl

collect_replies_returns :
    (env : Env) (ms : List Message) (w : Worker)
    → InCall w
    → is_some (collect_replies env ms w) ≡ true
unfolding collect_replies
collect_replies_returns env [] w c = refl
collect_replies_returns env (m ∷ ms) w c =
    returns_call (process_pam_message env m) _ w c (process_pam_message_returns env m w c)
      (process_pam_message-Frame env m w c.is_calm)
      λ r v d. go_on_returns r.0 r.1 (collect_replies env ms) v (collect_replies_returns env ms v d)

pub handler_returns :
    (env : Env) (ms : List Message) (w : Worker)
    → InCall w
    → is_some (pam_new_messages_handler env ms w) ≡ true
unfolding pam_new_messages_handler
handler_returns env ms w c =
    returns_bind (collect_replies env ms) _ w (collect_replies_returns env ms w c) λ r v. refl

pub converse_returns :
    (env : Env) (batches : List (List Message)) (w : Worker)
    → InCall w
    → is_some (converse env batches w) ≡ true
unfolding converse
converse_returns env [] w c = refl
converse_returns env (ms ∷ rest) w c =
    returns_call (pam_new_messages_handler env ms) _ w c (handler_returns env ms w c)
      (handler-Frame env ms w c.is_calm) λ _ v d. converse_returns env rest v d

-- How an operation of the conversation ends: the state it is for, or no conversation at all.
abbrev pub Ends : Bool → State → Failure → Worker → Type 0
Ends true s res w = (res ≡ none) × (w.state ≡ s)
Ends false s res w = (is_some res ≡ true) × (w.state ≡ State.none_state) × (w.pam_handle ≡ false)

pub conclude-Ends :
    (env : Env) (code : PamCode) (s : State) (failure : Failure) (w : Worker)
    → w.pam_handle ≡ true
    → is_some failure ≡ true
    → Ensures (λ res v. Ends (is_success code) s res v) (conclude env code s failure w)
unfolding conclude finish uninitialize_pam
conclude-Ends env code s failure w h f = ground arith

pub conclude_returns :
    (env : Env) (code : PamCode) (s : State) (failure : Failure) (w : Worker)
    → is_some (conclude env code s failure w) ≡ true
unfolding conclude finish uninitialize_pam
conclude_returns env code s failure w = ground arith

failure-is_some :
    (service : Option String) (code : PamCode)
    → is_some (authentication_failure service code) ≡ true
unfolding authentication_failure
failure-is_some service code = ground arith

hidden-is_success : (code : PamCode) → is_success (hide_unknown_user code) ≡ is_success code
hidden-is_success code = ground arith

-- What follows the conversation of pam_authenticate.
abbrev judged : Env → Bool → W Failure
judged env b v =
    conclude env (hide_unknown_user env.authenticate_code) State.authenticated
      (authentication_failure v.service env.authenticate_code)
      (record v { log = Effect.pam_authenticate b env.authenticate_code ∷ v.log })

judged-Ends :
    (env : Env) (b : Bool) (v : Worker)
    → v.pam_handle ≡ true
    → Ensures
        (λ res x. Ends (is_success env.authenticate_code) State.authenticated res x)
        (judged env b v)
judged-Ends env b v h =
    subst (λ (ok : Bool). Ensures (λ res x. Ends ok State.authenticated res x) (judged env b v))
      (hidden-is_success env.authenticate_code)
      (conclude-Ends env (hide_unknown_user env.authenticate_code) State.authenticated
        (authentication_failure v.service env.authenticate_code)
        (record v { log = Effect.pam_authenticate b env.authenticate_code ∷ v.log }) h
        (failure-is_some v.service env.authenticate_code))

-- In the state SETUP_COMPLETE, with a handle, the authentication returns, whatever messages PAM
-- shows and whatever the user answers: where pam_authenticate succeeds there is no error and the
-- state is AUTHENTICATED, and else there is an error, the state is NONE and the handle is released.
pub authenticate_user-Ends :
    (env : Env) (b : Bool) (w : Worker)
    → w.state ≡ State.setup_complete
    → w.pam_handle ≡ true
    → (is_some (authenticate_user env b w) ≡ true)
      × Ensures
          (λ res v. Ends (is_success env.authenticate_code) State.authenticated res v)
          (authenticate_user env b w)
unfolding authenticate_user
authenticate_user-Ends env b w s h = (
  returns_bind (converse env env.conversation) (λ _. judged env b) w
      (converse_returns env env.conversation w c)
      λ _ v.
        conclude_returns env (hide_unknown_user env.authenticate_code) State.authenticated
          (authentication_failure v.service env.authenticate_code)
          (record v { log = Effect.pam_authenticate b env.authenticate_code ∷ v.log }),
  Ensures-bind (λ _ v. Frame w v)
      (λ res v. Ends (is_success env.authenticate_code) State.authenticated res v)
      (converse env env.conversation) (λ _. judged env b) w
      (converse-Frame env env.conversation w c.is_calm)
      λ _ v f. judged-Ends env b v (f.same_handle ∙ h),
)
  where
    c : InCall w
    c = record { with_handle = h; is_calm = ground arith }
