-- ===== src/Factory/Displays.antt =====
-- The displays of the store: daemon/gdm-display.c for a display among others, whose status others
-- listen to, and what daemon/gdm-manager.c does to it.
use gdm.Base.{
  ℕ, ◌+◌, ◌==◌, Option, none, some, Bool, true, false, not, ◌||◌, ◌&&◌, List, [], ◌∷◌, Bytes, codes,
  same_bytes, is_some, pure, read, modify, when, ◌>>=◌, ◌>>◌,
}
use gdm.Session.Types.{same_text}
use gdm.Config.Direct.{Answer, aborted, refused, got}
use gdm.Display.{
  Status, unmanaged, prepared, managed, waiting_to_finish, finished, failed, number,
  wants_initial_setup, is_positive,
}
use gdm.Factory.{
  SeatDisplay, exported, unexported, plymouth_quit, user_session_created, conversation_started,
  greeter_started, greeter_stopped, Env, F, emit,
}
use gdm.Factory.Store.{gdm_display_store_lookup, gdm_display_store_add, change}

unfoldable pub display : ℕ → F (Option SeatDisplay)
unfolding gdm_display_store_lookup
display n = read (λ w. gdm_display_store_lookup w.displays n)

-- An if with an else, and a test for NULL.
abbrev pub branch : {A : Type 0} → Bool → F A → F A → F A
branch true m k w = m w
branch false m k w = k w

abbrev pub by_option : {A B : Type 0} → Option A → F B → (A → F B) → F B
by_option none m f w = m w
by_option (some a) m f w = f a w

-- Nothing is done to a display that the store has no more: nobody listens to it.
unfoldable pub with_display : ℕ → (SeatDisplay → F (Unit {0})) → F (Unit {0})
unfolding display
with_display n f = do d ← display n; by_option d (pure tt) f

-- A write to fields other than the status.
unfoldable pub update : ℕ → (SeatDisplay → SeatDisplay) → F (Unit {0})
unfolding change
update n f = modify (λ w. record w { displays = change n f w.displays })

abbrev pub with_status : Status → SeatDisplay → SeatDisplay
with_status s d = record d { state = record d.state { status = s } }

abbrev pub has_status : Status → SeatDisplay → Bool
has_status s d = number d.state.status == number s

-- What a getter of the settings comes to: FALSE, or a value.
abbrev pub answer : {A : Type 0} → Answer A → F (Option A)
answer aborted w = none
answer refused w = some (none, w)
answer (got a) w = some (some a, w)

abbrev pub require : {A : Type 0} → Option A → F A
require none w = none
require (some a) w = some (a, w)

abbrev pub require_answer : {A : Type 0} → Answer A → F A
require_answer (got a) w = some (a, w)
require_answer _ w = none

unfoldable pub emit_removals : List ℕ → F (Unit {0})
emit_removals [] = pure tt
emit_removals (n ∷ ns) = do emit (unexported n); emit_removals ns

-- store_display, with what the manager and the factory do when a display is added.
unfoldable pub store_display : SeatDisplay → F ℕ
unfolding gdm_display_store_add emit_removals
store_display d = do
  n ← read (λ w. w.next_number)
  listening ← read (λ w. w.is_listening)
  added ← read (λ w. gdm_display_store_add w.displays n (record d { is_watched = listening }))
  modify (λ w. record w { displays = added.0; changes = w.changes + 1; next_number = n + 1 })
  emit_removals added.1
  emit (exported n)
  pure n

-- gdm_display_stop_greeter_session; only a running greeter has the display listen to it.
unfoldable pub gdm_display_stop_greeter_session : ℕ → F (Unit {0})
unfolding with_display update
gdm_display_stop_greeter_session n = with_display n (λ d. when d.state.launch_environment (do
  emit (greeter_stopped n)
  update n (λ e. record e { state = record e.state { launch_environment = false } })))

unfoldable pub queue_finish : ℕ → F (Unit {0})
unfolding update
queue_finish n = update n (λ d. record d { state = record d.state { finish_idle_id = true } })

module _ (env : Env) (notify : ℕ → F (Unit {0})) where
  -- A write of the property, which notifies even if the status stays.
  unfoldable pub put_status : ℕ → Status → F (Unit {0})
  unfolding update
  put_status n s = do update n (with_status s); notify n

  -- _gdm_display_set_status
  unfoldable pub set_status : ℕ → Status → F (Unit {0})
  unfolding with_display put_status
  set_status n s = with_display n (λ d. when (not (has_status s d)) (put_status n s))

  unfoldable pub gdm_display_unmanage : ℕ → F (Unit {0})
  unfolding with_display set_status
  gdm_display_unmanage n =
      with_display n
        (λ d. branch d.state.session_registered (set_status n unmanaged) (set_status n failed))

  unfoldable pub gdm_display_finish : ℕ → F (Unit {0})
  unfolding update set_status
  gdm_display_finish n = do
    update n (λ d. record d { state = record d.state { finish_idle_id = false } })
    set_status n finished

  unfoldable pub finish_idle : ℕ → F (Unit {0})
  unfolding update gdm_display_finish
  finish_idle n = do
    update n (λ d. record d { state = record d.state { finish_idle_id = false } })
    gdm_display_finish n

  unfoldable pub self_destruct : ℕ → F (Unit {0})
  unfolding gdm_display_unmanage with_display queue_finish
  self_destruct n = do
    gdm_display_unmanage n
    with_display n (λ d. when (not (has_status finished d)) (queue_finish n))

  -- gdm_display_prepare of a local or a remote display, which makes the launch environment of a
  -- greeter and answers TRUE; the process exits if accountsservice does not answer.
  unfoldable pub gdm_display_prepare : ℕ → F Bool
  unfolding with_display update set_status wants_initial_setup
  gdm_display_prepare n = do
    users ← require env.machine.list_cached_users
    with_display n (λ d. do
      let state = record d.state { have_existing_user_accounts = is_positive users }
      wants ← require_answer (wants_initial_setup env.machine state)
      update n (λ e. record e {
        state = record e.state {
          have_existing_user_accounts = is_positive users;
          doing_initial_setup = wants;
          launch_environment = same_bytes d.session_class (codes "greeter");
        };
      }))
    set_status n prepared
    pure true

  -- create_user_session_for_display: the new session takes the place of the old.
  unfoldable pub create_user_session_for_display : ℕ → ℕ → F (Unit {0})
  unfolding update
  create_user_session_for_display n uid = do
    emit (user_session_created n uid)
    update n (λ d. record d { user_session = some uid })

  unfoldable pub set_up_greeter_session : ℕ → F (Unit {0})
  unfolding gdm_display_unmanage gdm_display_finish create_user_session_for_display
  set_up_greeter_session n =
      by_option (env.ensure_uid n) (do gdm_display_unmanage n; gdm_display_finish n)
        (λ uid. do create_user_session_for_display n uid; emit (greeter_started n))

  -- The daemon talks to the session itself, as user 0.
  unfoldable pub set_up_automatic_login_session : ℕ → F (Unit {0})
  unfolding create_user_session_for_display
  set_up_automatic_login_session n = do
    create_user_session_for_display n 0
    emit (conversation_started n (codes "gdm-autologin"))

  unfoldable pub set_up_automatic_login_session_if_user_exists : ℕ → F (Unit {0})
  unfolding set_up_greeter_session set_up_automatic_login_session
  set_up_automatic_login_session_if_user_exists n =
      branch env.user_is_nonexistent (set_up_greeter_session n) (set_up_automatic_login_session n)

  -- `enabled && username != NULL && username[0] != '\0'`
  abbrev pub enabled_user : Bool → Option Bytes → Option Bytes
  enabled_user false user = none
  enabled_user true none = none
  enabled_user true (some []) = none
  enabled_user true (some (c ∷ cs)) = some (c ∷ cs)

  abbrev pub configured_user : F (Option Bytes)
  configured_user = do
    enabled ← answer env.automatic_login_enable
    by_option enabled (pure none) (λ b. do
      user ← answer env.automatic_login
      by_option user (pure none) (λ u. pure (enabled_user b u)))

  unfoldable pub get_automatic_login_details : SeatDisplay → F (Option Bytes)
  get_automatic_login_details d =
      by_option d.autologin_user
        (branch (same_text d.seat_id (some (codes "seat0")))
          (do
            did ← read (λ w. w.did_automatic_login || is_some w.automatic_login_display)
            branch did (pure none) configured_user)
          (pure none))
        (λ user. pure (some user))

  -- The user's account may have to be loaded first.
  unfoldable pub set_up_session : ℕ → SeatDisplay → F (Unit {0})
  unfolding get_automatic_login_details set_up_greeter_session
      set_up_automatic_login_session_if_user_exists
  set_up_session n d = do
    details ← get_automatic_login_details d
    by_option details (set_up_greeter_session n) (λ user.
        branch env.user_is_loaded (set_up_automatic_login_session_if_user_exists n)
          (modify (λ w. record w { username_lookups = n ∷ w.username_lookups })))

  unfoldable pub quit_plymouth : Bool → SeatDisplay → F (Unit {0})
  quit_plymouth with_transition d = do
    running ← read (λ w. w.plymouth_is_running)
    when (d.state.is_local && running) (do
      emit (plymouth_quit with_transition)
      modify (λ w. record w { plymouth_is_running = false; plymouth_quit_timeout_id = false }))

  abbrev pub is_display : ℕ → Option ℕ → Bool
  is_display n none = false
  is_display n (some m) = m == n

  -- on_display_status_changed of the manager, for a display whose session is over.
  unfoldable pub forget_session : ℕ → SeatDisplay → F (Unit {0})
  unfolding quit_plymouth update
  forget_session n d = do
    quit_plymouth false d
    update n (λ e. record e { user_session = none })
    is_automatic ← read (λ w. is_display n w.automatic_login_display)
    when is_automatic
        (modify (λ w. record w { automatic_login_display = none; did_automatic_login = true }))

  abbrev pub manager_by_status : Status → ℕ → SeatDisplay → F (Unit {0})
  manager_by_status prepared n d =
      when (same_bytes d.session_class (codes "greeter")) (set_up_session n d)
  manager_by_status managed n d = quit_plymouth true d
  manager_by_status waiting_to_finish n d = pure tt
  manager_by_status unmanaged n d = forget_session n d
  manager_by_status finished n d = forget_session n d
  manager_by_status failed n d = forget_session n d

  -- on_display_status_changed of the manager.
  unfoldable pub manager_on_status_changed : ℕ → F (Unit {0})
  unfolding with_display set_up_session quit_plymouth forget_session
  manager_on_status_changed n = with_display n (λ d. manager_by_status d.state.status n d)
