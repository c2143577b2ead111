-- ===== src/Factory/Retries/Calm.antt =====
-- What the environment may answer for the retries to end, and what the factory does with displays
-- that are finished.
use gdm.Base.{
  ℕ, ◌==◌, ◌≡◌, refl, arith, Option, none, some, Bool, true, false, not, ◌&&◌, List, ◌∷◌, Bytes,
  modify, when, ◌>>=◌, if◌then◌else◌,
}
use gdm.Config.Direct.{Answer, aborted, refused, got}
use gdm.Display.{
  Status, Display, number, finished, wants_initial_setup, enabled, unless_forced, is_truthy,
}
use gdm.Factory.{SeatDisplay, Env, World, F}
use gdm.Factory.Seats.{
  seat0, get_session_types, ensure_display_for_seat, needs_login_screen, on_finished,
  factory_by_status, factory_on_status_changed,
}
use gdm.Factory.Retries.{Reaches, Arrives, Ok, IsGreeter, with_display-Reaches}
use gdm.Factory.Retries.Manager.{is_answered}

-- What the environment answers: seat0 has no login window, accountsservice lists the users, and the
-- settings can be read.
pub record IsCalm (env : Env) : Type 0 where
  pub users : ℕ
  pub types : List Bytes
  pub no_window : env.login_window_session seat0 ≡ none
  pub lists : env.machine.list_cached_users ≡ some users
  pub reads : get_session_types env ≡ some types
  pub setup : is_answered env.machine.initial_setup_enable ≡ true
  pub enable : is_answered env.automatic_login_enable ≡ true
  pub user : is_answered env.automatic_login ≡ true

abbrev pub IsGot : Answer Bool → Type 0
IsGot a = (b : Bool) × (a ≡ got b)

if-IsGot : (c : Bool) (a b : Answer Bool) → IsGot a → IsGot b → IsGot (if c then a else b)
if-IsGot true a b h k = h
if-IsGot false a b h k = k

enabled-IsGot : (a : Answer Bool) → is_answered a ≡ true → IsGot (enabled a)
enabled-IsGot aborted e = cc
enabled-IsGot refused e = (false, refl)
enabled-IsGot (got b) e = (b, refl)

pub wants-IsGot :
    (env : Env) (calm : IsCalm env) (d : Display) → IsGot (wants_initial_setup env.machine d)
unfolding wants_initial_setup
wants-IsGot env calm d =
    if-IsGot env.machine.ran_initial_setup _ _ (false, refl) (go env.machine.cmdline_argument)
  where
    go : (o : Option Bytes) → IsGot (unless_forced env.machine d o)
    go none =
        if-IsGot (not d.is_local) _ _ (false, refl)
          (if-IsGot d.have_existing_user_accounts _ _ (false, refl)
            (if-IsGot env.machine.has_initial_setup _ _
              (enabled-IsGot env.machine.initial_setup_enable calm.setup) (false, refl)))
    go (some argument) = (is_truthy argument, refl)

pub no_screen :
    (env : Env) (told : ℕ → F (Unit {0})) (vt : ℕ) (s : Status) (d : SeatDisplay)
    → IsGreeter s d
    → (vt == env.initial_vt) ≡ false
    → needs_login_screen env told vt d ≡ false
no_screen env told vt s d i v = rw (i.1, i.2, v) (go d.state.is_local)
  where
    go : (b : Bool) → (b && false) ≡ false
    go true = refl
    go false = refl

module _ (env : Env) (calm : IsCalm env) (told : ℕ → F (Unit {0})) (l : List (ℕ × Status)) where
  -- The factory's handler for a display that is finished.
  pub finished_handler-Reaches :
      (n lo hi : ℕ)
      → Reaches
          (Ok env ((n, finished) ∷ l) lo hi)
          (λ _ w. Ok env ((n, finished) ∷ l) lo hi w)
          (factory_on_status_changed env told n)
  unfolding factory_on_status_changed on_finished
  finished_handler-Reaches n lo hi =
      with_display-Reaches env l lo hi n finished _ _
        (λ d i. record { reaches = λ w h. by_started d i w h (d.is_watched && w.is_started) })
    where
      quiet :
          (d : SeatDisplay) (w : World) (c : Bool)
          → c ≡ false
          → Ok env ((n, finished) ∷ l) lo hi w
          → Arrives
              (λ _ w'. Ok env ((n, finished) ∷ l) lo hi w')
              (when c
                (modify (λ x. record x { num_failures = 0 }) >>= λ _.
                  ensure_display_for_seat env told d.seat_id)
                w)
      quiet d w true e h = cc
      quiet d w false e h = h

      by_status :
          (d : SeatDisplay) (s : Status) (w : World)
          → number s ≡ number finished
          → IsGreeter finished d
          → Ok env ((n, finished) ∷ l) lo hi w
          → Arrives (λ _ w'. Ok env ((n, finished) ∷ l) lo hi w') (factory_by_status env told s d w)
      by_status d finished w e i h =
          quiet d _ (needs_login_screen env told w.active_vt d)
            (no_screen env told w.active_vt finished d i h.2) h
      by_status d _ w e i h = absurd (omega (arith, e))

      by_started :
          (d : SeatDisplay)
          → IsGreeter finished d
          → (w : World) → Ok env ((n, finished) ∷ l) lo hi w
          → (b : Bool)
          → Arrives
              (λ _ w'. Ok env ((n, finished) ∷ l) lo hi w')
              (when b (factory_by_status env told d.state.status d) w)
      by_started d i w h true = by_status d d.state.status w i.0 i h
      by_started d i w h false = h
