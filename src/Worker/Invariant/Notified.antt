-- ===== src/Worker/Invariant/Notified.antt =====
-- The invariant of the worker of daemon/gdm-session-worker.c, for the handlers of the settings object.
use gdm.Base.{
  ◌≡◌, ◌≢◌, ◌⊎◌, ◌∙◌, sym, inl, inr, refl, String, Option, none, some, Bool, true, false, List, [],
  ◌∷◌, arith, Option-cases, is_nonempty, when, modify, pure, Ensures, Ensures-bind,
  Ensures-g_assert, ◌>>=◌,
}
use gdm.Worker.{State, rank, Effect, Worker, Env, W, is_state, emit}
use gdm.Worker.Ledger.{ledger}
use gdm.Worker.Frame.{
  Frame, Frame-trans, audit_username-Frame, set_state-Frame, Frame-refl, get_username-Frame,
}
use gdm.Settings
use gdm.Settings.{Settings, Notification}
use gdm.Worker.Accounts.{
  save_account_details_now, on_settings_is_loaded_changed, notify, notify_all, store_settings,
  load_settings, attempt_to_load_user_settings, continue_loaded, settings_loaded, write_settings,
  change_username, adopt_username, update_username, audit, queue_state_change, get_username,
  set_state,
}
use gdm.Worker.Invariant.{Inv, Evidence}
use gdm.Worker.Invariant.Served.{Served, Served-trans, Frame-Served}

-- The states are the same, or settings that were waited for have been saved.
abbrev pub Moves : State → State → Type 0
Moves s t = (t ≡ s) ⊎ ((s ≡ State.accredited) × (t ≡ State.account_details_saved))

-- A handler keeps the worker sound, answers no call and opens no session.
pub record Notified (v w : Worker) : Type 0 where
  pub served : Served 0 v w
  pub same_pending : w.pending_invocation ≡ v.pending_invocation
  pub same_answers : (ledger w.log).answers ≡ (ledger v.log).answers
  pub moves : Moves v.state w.state
  pub unopened :
      is_state v.state State.session_opened ≡ false → is_state w.state State.session_opened ≡ false

pub Moves-trans : (s t u : State) → Moves s t → Moves t u → Moves s u
Moves-trans s t u (inl a) (inl b) = inl (b ∙ a)
Moves-trans s t u (inl a) (inr (b, c)) = inr (sym a ∙ b, c)
Moves-trans s t u (inr (a, b)) (inl c) = inr (a, c ∙ b)
Moves-trans s t u (inr (a, b)) (inr (c, d)) = inr (a, d)

pub Notified-trans : {u v w : Worker} → Notified u v → Notified v w → Notified u w
Notified-trans a b = record {
  served = Served-trans a.served b.served;
  same_pending = b.same_pending ∙ a.same_pending;
  same_answers = b.same_answers ∙ a.same_answers;
  moves = Moves-trans _ _ _ a.moves b.moves;
  unopened = λ h. b.unopened (a.unopened h);
}

abbrev saved : Worker → Worker
saved w = record w { state = State.account_details_saved }

saved-Evidence :
    (w : Worker) (s : State)
    → rank s ≡ 5
    → s ≢ State.session_opened
    → w.state ≡ State.accredited
    → Evidence w
    → Evidence (record w { state = s })
saved-Evidence w s r n a e = ground arith

-- The state after the settings were saved, however they are logged.
moved-Notified :
    (s : State) (w v : Worker)
    → rank s ≡ 5
    → s ≡ State.account_details_saved
    → s ≢ State.session_opened
    → w.state ≡ State.accredited
    → Inv w
    → Frame (record w { state = s }) v
    → Notified w (record v { state_change_idle_id = true })
moved-Notified s w v r t n a i f = record {
  served = record {
    inv = record {
      evidence = ground (arith, saved-Evidence w s r n a i.evidence);
      has_handle = ground arith;
    };
    same_reauth = f.same_reauth;
    account = ground arith;
  };
  same_pending = f.same_pending;
  same_answers = ground arith;
  moves = inr (a, f.same_state ∙ t);
  unopened = λ _. ground arith;
}

write_settings-Frame : (env : Env) (w : Worker) → Ensures (λ _ v. Frame w v) (write_settings env w)
unfolding write_settings ledger
write_settings-Frame env w = ground arith

pub save_now-Notified :
    (env : Env) (w : Worker)
    → w.state ≡ State.accredited
    → Inv w
    → Ensures (λ _ v. Notified w v) (save_account_details_now env w)
unfolding save_account_details_now queue_state_change
save_now-Notified env w a i =
    Ensures-g_assert (λ _ v. Notified w v) (is_state w.state State.accredited) _ w
      λ _.
        Ensures-bind (λ _ v. Frame moved v) (λ _ v. Notified w v)
          (set_state State.account_details_saved) _ w
          (set_state-Frame State.account_details_saved w)
          λ _ v f.
            Ensures-bind (λ _ x. Frame v x) (λ _ x. Notified w x) (write_settings env) _ v
              (write_settings-Frame env v)
              λ _ x g.
                moved-Notified State.account_details_saved w x refl refl (λ z. cc) a i
                  (Frame-trans f g)
  where
    moved : Worker
    moved = record w { state = State.account_details_saved }

framed : {v w : Worker} → Inv v → Frame v w → Notified v w
framed i f = record {
  served = Frame-Served i f;
  same_pending = f.same_pending;
  same_answers = ground arith;
  moves = inl f.same_state;
  unopened = λ h. ground arith;
}

pub idem-Notified : (w : Worker) → Inv w → Notified w w
idem-Notified w i = framed i (Frame-refl w)

-- Two operations in a row.
pub Notified-bind :
    {A B : Type 0} (m : W A) (f : A → W B) (w : Worker)
    → Ensures (λ _ v. Notified w v) (m w)
    → ((a : A) (v : Worker) → Notified w v → Ensures (λ _ x. Notified v x) (f a v))
    → Ensures (λ _ x. Notified w x) ((m >>= f) w)
Notified-bind {A} {B} m f w h k =
    Ensures-bind (λ _ v. Notified w v) (λ _ x. Notified w x) m f w h λ a v s. go (f a v) s (k a v s)
  where
    go :
        {v : Worker} (r : Option (B × Worker))
        → Notified w v
        → Ensures (λ _ x. Notified v x) r
        → Ensures (λ _ x. Notified w x) r
    go none s h = tt
    go (some (b, x)) s h = Notified-trans s h

-- Which handlers of the settings are connected is nothing to the invariant.
pub handlers-Notified :
    (w : Worker) (b c : Bool)
    → Inv w
    → Notified w (record w { saved_names_connected = b; awaiting_settings = c })
handlers-Notified w b c i = framed i (ground arith)

queued-Notified :
    (w : Worker)
    → w.state ≡ State.none_state
    → Inv w
    → Notified w (record w { awaiting_settings = false; state_change_idle_id = true })
queued-Notified w s i = ground arith

continue-Notified :
    (env : Env) (s : State) (w : Worker)
    → w.state ≡ s
    → Inv w
    → Ensures (λ _ v. Notified w v) (continue_loaded env s w)
unfolding continue_loaded queue_state_change
continue-Notified env State.none_state w e i = queued-Notified w e i
continue-Notified env State.accredited w e i =
    Notified-bind (save_account_details_now env) _ w (save_now-Notified env w e i)
      λ _ v n. handlers-Notified v v.saved_names_connected false n.served.inv
continue-Notified env _ w e i = idem-Notified w i

on_settings-Notified :
    (env : Env) (w : Worker)
    → Inv w
    → Ensures (λ _ v. Notified w v) (on_settings_is_loaded_changed env w)
unfolding on_settings_is_loaded_changed
on_settings-Notified env w i = go (settings_loaded w.user_settings)
  where
    unnamed : Worker
    unnamed = record w { saved_names_connected = false }

    step : Notified w unnamed
    step = handlers-Notified w false w.awaiting_settings i

    follow :
        (r : Option (Unit {0} × Worker))
        → Ensures (λ _ v. Notified unnamed v) r
        → Ensures (λ _ v. Notified w v) r
    follow none n = tt
    follow (some (_, v)) n = Notified-trans step n

    go :
        (loaded : Bool)
        → Ensures
            (λ _ v. Notified w v)
            (when loaded
              (λ x. continue_loaded env w.state (record x { saved_names_connected = false }))
              w)
    go true =
        follow (continue_loaded env w.state unnamed)
          (continue-Notified env w.state unnamed refl step.served.inv)
    go false = idem-Notified w i

announced-Notified :
    (b : Bool) (e : Effect) (w : Worker)
    → ledger (e ∷ w.log) ≡ ledger w.log
    → Inv w
    → Ensures (λ _ v. Notified w v) (when b (emit e) w)
announced-Notified true e w q i = framed i (ground arith)
announced-Notified false e w q i = idem-Notified w i

notify-Notified :
    (env : Env) (n : Notification) (w : Worker)
    → Inv w
    → Ensures (λ _ v. Notified w v) (notify env n w)
unfolding notify ledger
notify-Notified env Notification.loaded w i =
    ground (arith, on_settings-Notified env w i, idem-Notified w i)
notify-Notified env Notification.session_name_changed w i =
    announced-Notified w.saved_names_connected (Effect.saved_session_name_read _) w refl i
notify-Notified env Notification.session_type_changed w i =
    announced-Notified w.saved_type_connected (Effect.saved_session_type_read _) w refl i
notify-Notified env Notification.language_name_changed w i =
    announced-Notified w.saved_names_connected (Effect.saved_language_name_read _) w refl i

notify_all-Notified :
    (env : Env) (ns : List Notification) (w : Worker)
    → Inv w
    → Ensures (λ _ v. Notified w v) (notify_all env ns w)
unfolding notify_all
notify_all-Notified env [] w i = idem-Notified w i
notify_all-Notified env (n ∷ ns) w i =
    Notified-bind (notify env n) (λ _. notify_all env ns) w (notify-Notified env n w i)
      λ _ v s. notify_all-Notified env ns v s.served.inv

settings_put-Notified :
    (s : Settings) (w : Worker) → Inv w → Notified w (record w { user_settings = some s })
settings_put-Notified s w i = framed i (ground arith)

pub store_settings-Notified :
    (env : Env) (s : Settings) (ns : List Notification) (w : Worker)
    → Inv w
    → Ensures (λ _ v. Notified w v) (store_settings env s ns w)
store_settings-Notified env s ns w i =
    Notified-bind (modify (λ v. record v { user_settings = some s })) (λ _. notify_all env ns) w
      (settings_put-Notified s w i) λ _ v n. notify_all-Notified env ns v n.served.inv

pub load_settings-Notified :
    (env : Env) (s : Settings) (name : Option String) (w : Worker)
    → Inv w
    → Ensures (λ _ v. Notified w v) (load_settings env s name w)
unfolding load_settings
load_settings-Notified env s name w i =
    let (s', b, ns) = Settings.load env.get_user s name in
    Notified-bind (store_settings env s' ns) (λ _. pure b) w (store_settings-Notified env s' ns w i)
      λ _ v n. idem-Notified v n.served.inv

attempt-Notified :
    (env : Env) (name : Option String) (w : Worker)
    → Inv w
    → Ensures (λ _ v. Notified w v) (attempt_to_load_user_settings env name w)
unfolding attempt_to_load_user_settings
attempt-Notified env name w i = elim (Option-cases w.user_settings) [
  | inl e ↦ ground (arith, idem-Notified w i)
  | inr (s, e) ↦ ground (arith, load_settings-Notified env s name w i, idem-Notified w i)
]

framed-after :
    {A : Type 0} {v : Worker} (r : Option (A × Worker))
    → Inv v
    → Ensures (λ _ w. Frame v w) r
    → Ensures (λ _ w. Notified v w) r
framed-after none i h = tt
framed-after (some (a, w)) i h = framed i h

abbrev renamed : Option String → W (Unit {0})
renamed name v = some (tt, record v { username = name; log = Effect.username_changed name ∷ v.log })

renamed-Frame : (name : Option String) (w : Worker) → Ensures (λ _ v. Frame w v) (renamed name w)
unfolding ledger
renamed-Frame name w = ground arith

change_username-Notified :
    (env : Env) (name : Option String) (w : Worker)
    → Inv w
    → Ensures (λ _ v. Notified w v) (change_username env name w)
unfolding change_username
change_username-Notified env name w i =
    Notified-bind (renamed name)
      (λ _. when (is_nonempty name) (attempt_to_load_user_settings env name)) w
      (framed-after (renamed name w) i (renamed-Frame name w))
      λ _ v n.
        ground (arith, attempt-Notified env name v n.served.inv, idem-Notified v n.served.inv)

adopt_username-Notified :
    (env : Env) (res : Option (Option String)) (w : Worker)
    → Inv w
    → Ensures (λ _ v. Notified w v) (adopt_username env res w)
unfolding adopt_username
adopt_username-Notified env none w i = idem-Notified w i
adopt_username-Notified env (some name) w i =
    Notified-bind (audit (Effect.audit_username w.username)) _ w
      (framed-after (audit (Effect.audit_username w.username) w) i
        (audit_username-Frame w.username w))
      λ _ v n.
        ground
          (arith, change_username-Notified env name v n.served.inv, idem-Notified v n.served.inv)

pub update_username-Notified :
    (env : Env) (w : Worker) → Inv w → Ensures (λ _ v. Notified w v) (update_username env w)
unfolding update_username
update_username-Notified env w i =
    Notified-bind (get_username env) (adopt_username env) w
      (framed-after (get_username env w) i (get_username-Frame env w))
      λ name v n. adopt_username-Notified env name v n.served.inv

pub Notified-Served :
    {A : Type 0} (v : Worker) (r : Option (A × Worker))
    → Ensures (λ _ w. Notified v w) r
    → Ensures (λ _ w. Served 0 v w) r
Notified-Served v none h = tt
Notified-Served v (some (a, w)) h = h.served
