-- ===== src/Worker/Frame.antt =====
-- Operations of daemon/gdm-session-worker.c that leave the course of the conversation alone.
use gdm.Base.{
  ◌≡◌, String, Option, none, some, Bool, true, false, List, [], ◌∷◌, arith, Ensures, Ensures-bind,
  Option-cases, Bool-cases, inl, inr, ◌>>=◌,
}
use gdm.Settings
use gdm.Settings.{Settings, Notification}
use gdm.Worker.{State, Effect, Worker, Env, W, Message, is_state}
use gdm.Worker.Ledger.{ledger}
use gdm.Worker.Accounts.{
  continue_loaded, set_state, audit, adopt_username, change_username, get_username, store_settings,
  notify, notify_all, load_settings, on_settings_is_loaded_changed, attempt_to_load_user_settings,
  update_username, update_environment_from_passwd_info,
}
use gdm.Worker.Messages.{process_pam_message, collect_replies, pam_new_messages_handler, converse}

-- The state, the handle, the queue and the pending call are the same, and the log has only entries
-- that the ledger does not read.
pub record Frame (w w' : Worker) : Type 0 where
  pub same_state : w'.state ≡ w.state
  pub same_handle : w'.pam_handle ≡ w.pam_handle
  pub same_reauth : w'.is_reauth_session ≡ w.is_reauth_session
  pub same_queue : w'.state_change_idle_id ≡ w.state_change_idle_id
  pub same_pending : w'.pending_invocation ≡ w.pending_invocation
  pub same_ledger : ledger w'.log ≡ ledger w.log

pub get_username-Frame :
    (env : Env) (w : Worker) → Ensures (λ _ w'. Frame w w') (get_username env w)
unfolding get_username ledger
get_username-Frame env w = ground arith

-- The points of the conversation where settings that get loaded do not move it on.
abbrev pub calm : State → Bool
calm State.none_state = false
calm State.accredited = false
calm _ = true

pub Frame-refl : (w : Worker) → Frame w w
Frame-refl w = ground arith

pub Frame-trans : {u v w : Worker} → Frame u v → Frame v w → Frame u w
Frame-trans f g = ground arith

Frame-calm : (u v : Worker) → Frame u v → calm u.state ≡ true → calm v.state ≡ true
Frame-calm u v f c = ground arith

continue-Frame :
    (env : Env) (s : State) (w : Worker)
    → calm s ≡ true
    → Ensures (λ _ w'. Frame w w') (continue_loaded env s w)
unfolding continue_loaded
continue-Frame env State.none_state w c = cc
continue-Frame env State.accredited w c = cc
continue-Frame env _ w c = Frame-refl w

on_settings-Frame :
    (env : Env) (w : Worker)
    → calm w.state ≡ true
    → Ensures (λ _ w'. Frame w w') (on_settings_is_loaded_changed env w)
unfolding on_settings_is_loaded_changed
on_settings-Frame env w c =
    ground (arith, continue-Frame env w.state (record w { saved_names_connected = false }) c)

notify-Frame :
    (env : Env) (n : Notification) (w : Worker)
    → calm w.state ≡ true
    → Ensures (λ _ w'. Frame w w') (notify env n w)
unfolding notify ledger
notify-Frame env Notification.loaded w c = ground (arith, on_settings-Frame env w c)
notify-Frame env _ w c = ground arith

-- Two calm operations in a row.
pub Frame-bind :
    {A B : Type 0} (m : W A) (f : A → W B) (w : Worker)
    → calm w.state ≡ true
    → Ensures (λ _ w'. Frame w w') (m w)
    → ((a : A) (v : Worker) → calm v.state ≡ true → Ensures (λ _ w'. Frame v w') (f a v))
    → Ensures (λ _ w'. Frame w w') ((m >>= f) w)
Frame-bind {A} {B} m f w c h k =
    Ensures-bind (λ _ w'. Frame w w') (λ _ w'. Frame w w') m f w h
      λ a v g. Ensures-map (f a v) g (k a v (Frame-calm w v g c))
  where
    Ensures-map :
        {v : Worker} (r : Option (B × Worker))
        → Frame w v
        → Ensures (λ _ w'. Frame v w') r
        → Ensures (λ _ w'. Frame w w') r
    Ensures-map none g h = tt
    Ensures-map (some (b, u)) g h = Frame-trans g h

notify_all-Frame :
    (env : Env) (ns : List Notification) (w : Worker)
    → calm w.state ≡ true
    → Ensures (λ _ w'. Frame w w') (notify_all env ns w)
unfolding notify_all
notify_all-Frame env [] w c = Frame-refl w
notify_all-Frame env (n ∷ ns) w c =
    Frame-bind (notify env n) (λ _. notify_all env ns) w c (notify-Frame env n w c)
      λ _ v d. notify_all-Frame env ns v d

-- Putting the settings back runs the handlers.
pub store_settings-Frame :
    (env : Env) (s : Settings) (ns : List Notification) (w : Worker)
    → calm w.state ≡ true
    → Ensures (λ _ w'. Frame w w') (store_settings env s ns w)
store_settings-Frame env s ns w c =
    ground (arith, notify_all-Frame env ns (record w { user_settings = some s }) c)

load_settings-Frame :
    (env : Env) (s : Settings) (name : Option String) (w : Worker)
    → calm w.state ≡ true
    → Ensures (λ _ w'. Frame w w') (load_settings env s name w)
unfolding load_settings
load_settings-Frame env s name w c =
    let (s', _, ns) = Settings.load env.get_user s name in
    ground (arith, notify_all-Frame env ns (record w { user_settings = some s' }) c)

attempt-Frame :
    (env : Env) (name : Option String) (w : Worker)
    → calm w.state ≡ true
    → Ensures (λ _ w'. Frame w w') (attempt_to_load_user_settings env name w)
unfolding attempt_to_load_user_settings
attempt-Frame env name w c = elim (Option-cases w.user_settings) [
  | inl e ↦ ground arith
  | inr (s, e) ↦ ground (arith, load_settings-Frame env s name w c)
]

change_username-Frame :
    (env : Env) (name : Option String) (w : Worker)
    → calm w.state ≡ true
    → Ensures (λ _ w'. Frame w w') (change_username env name w)
unfolding change_username ledger
change_username-Frame env name w c = ground (
  arith,
  attempt-Frame env name (record w { username = name; log = Effect.username_changed name ∷ w.log })
      c,
)

pub audit_username-Frame :
    (name : Option String) (w : Worker)
    → Ensures (λ _ w'. Frame w w') (audit (Effect.audit_username name) w)
unfolding ledger
audit_username-Frame name w = ground arith

adopt_username-Frame :
    (env : Env) (res : Option (Option String)) (w : Worker)
    → calm w.state ≡ true
    → Ensures (λ _ w'. Frame w w') (adopt_username env res w)
unfolding adopt_username
adopt_username-Frame env none w c = Frame-refl w
adopt_username-Frame env (some name) w c =
    Frame-bind (audit (Effect.audit_username w.username)) _ w c (audit_username-Frame w.username w)
      λ _ v d. ground (arith, change_username-Frame env name v d, Frame-refl v)

pub update_username-Frame :
    (env : Env) (w : Worker)
    → calm w.state ≡ true
    → Ensures (λ _ w'. Frame w w') (update_username env w)
unfolding update_username
update_username-Frame env w c =
    Frame-bind (get_username env) (adopt_username env) w c (get_username-Frame env w)
      (adopt_username-Frame env)

pub process_pam_message-Frame :
    (env : Env) (m : Message) (w : Worker)
    → calm w.state ≡ true
    → Ensures (λ _ w'. Frame w w') (process_pam_message env m w)
unfolding process_pam_message ledger
process_pam_message-Frame env m w c =
    Frame-bind (update_username env) _ w c (update_username-Frame env w c) λ _ v d. ground arith

collect_replies-Frame :
    (env : Env) (ms : List Message) (w : Worker)
    → calm w.state ≡ true
    → Ensures (λ _ w'. Frame w w') (collect_replies env ms w)
unfolding collect_replies
collect_replies-Frame env [] w c = Frame-refl w
collect_replies-Frame env (m ∷ ms) w c =
    Frame-bind (process_pam_message env m) _ w c (process_pam_message-Frame env m w c)
      λ got v d. ground (arith, collect_replies-Frame env ms v d, Frame-refl v)

pub handler-Frame :
    (env : Env) (ms : List Message) (w : Worker)
    → calm w.state ≡ true
    → Ensures (λ _ w'. Frame w w') (pam_new_messages_handler env ms w)
unfolding pam_new_messages_handler
handler-Frame env ms w c = ground (arith, collect_replies-Frame env ms w c)

-- A conversation, whatever PAM says and the user answers, changes nothing that the ledger reads.
pub converse-Frame :
    (env : Env) (batches : List (List Message)) (w : Worker)
    → calm w.state ≡ true
    → Ensures (λ _ w'. Frame w w') (converse env batches w)
unfolding converse
converse-Frame env [] w c = Frame-refl w
converse-Frame env (ms ∷ rest) w c =
    Frame-bind (pam_new_messages_handler env ms) _ w c (handler-Frame env ms w c)
      λ _ v d. converse-Frame env rest v d

pub passwd_environment-Frame :
    (home shell : String) (w : Worker)
    → Ensures (λ _ w'. Frame w w') (update_environment_from_passwd_info home shell w)
unfolding update_environment_from_passwd_info ledger
passwd_environment-Frame home shell w = ground arith

-- A change of state is announced, and is all that happens.
pub set_state-Frame :
    (s : State) (w : Worker) → Ensures (λ _ v. Frame (record w { state = s }) v) (set_state s w)
unfolding set_state ledger
set_state-Frame s w = elim (Bool-cases (is_state w.state s)) [
  | inl same ↦ ground arith
  | inr new ↦ rw new (ground arith)
]
