-- ===== src/Factory/Retries/Manager.antt =====
-- What the manager does to a followed display ends, if the notifications that it sets off do.
use gdm.Base.{
  ℕ, ◌==◌, ◌≡◌, ◌⊎◌, refl, arith, none, some, Bool, true, false, not, ◌&&◌, List, ◌∷◌, codes,
  same_bytes, modify, when, inl, inr,
}
use gdm.Config.Direct.{Answer, aborted, refused, got}
use gdm.Display.{Status, number, prepared, finished, failed}
use gdm.Factory.{
  SeatDisplay, Effect, user_session_created, plymouth_quit, greeter_started, conversation_started,
  Env, World, F, emit,
}
use gdm.Factory.Displays.{
  with_status, has_status, branch, answer, put_status, set_status, gdm_display_unmanage,
  gdm_display_finish, create_user_session_for_display, set_up_greeter_session,
  set_up_automatic_login_session, set_up_automatic_login_session_if_user_exists, configured_user,
  enabled_user, get_automatic_login_details, set_up_session, quit_plymouth, is_display,
  forget_session, manager_by_status, manager_on_status_changed,
}
use gdm.Factory.Retries.{
  Reaches, Ok, bind-Reaches, update-Reaches, with_display-Reaches, weaken-Reaches, emit-Reaches,
  modify-Reaches, passing-Reaches, pure-Reaches, read-Reaches, when-Reaches, branch-Reaches,
  by_option-Reaches,
}

-- The settings of the automatic login can be read, or are not there.
abbrev pub is_answered : {A : Type 0} → Answer A → Bool
is_answered aborted = false
is_answered _ = true

module _ (env : Env) (told : ℕ → F (Unit {0})) (l : List (ℕ × Status)) (n : ℕ) where
  pub set_status-Reaches :
      (s s' : Status) (lo hi : ℕ) (J : Unit {0} → World → Type 0)
      → (number s == number s') ≡ false
      → Reaches (Ok env ((n, s') ∷ l) lo hi) J (told n)
      → Reaches (Ok env ((n, s) ∷ l) lo hi) J (set_status env told n s')
  unfolding set_status put_status
  set_status-Reaches s s' lo hi J e k =
      with_display-Reaches env l lo hi n s J _ (λ d i. go (has_status s' d) (ground (arith, i, e)))
    where
      go :
          (b : Bool)
          → b ≡ false
          → Reaches (Ok env ((n, s) ∷ l) lo hi) J (when (not b) (put_status env told n s'))
      go true e = cc
      go false e = record {
        reaches = λ w h.
            (bind-Reaches _ _ J _ _
                (update-Reaches env l lo hi n s s' (with_status s') (λ d i. (refl, i.1, i.2, i.3)))
                (λ _. k)).reaches
              w h;
      }

  module _ (lo : ℕ)
      (k : Reaches (Ok env ((n, failed) ∷ l) lo 5) (λ _ w. Ok env ((n, failed) ∷ l) 0 6 w) (told n))
      (j : Reaches
        (Ok env ((n, finished) ∷ l) 0 6)
        (λ _ w. Ok env ((n, finished) ∷ l) 0 6 w)
        (told n)) where
    unmanage-Reaches :
        Reaches
          (Ok env ((n, prepared) ∷ l) lo 5)
          (λ _ w. Ok env ((n, failed) ∷ l) 0 6 w)
          (gdm_display_unmanage env told n)
    unfolding gdm_display_unmanage
    unmanage-Reaches =
        with_display-Reaches env l lo 5 n prepared _ _ (λ d i. go d.state.session_registered i.3)
      where
        go :
            (b : Bool)
            → b ≡ false
            → Reaches
                (Ok env ((n, prepared) ∷ l) lo 5)
                (λ _ w. Ok env ((n, failed) ∷ l) 0 6 w)
                (branch b (set_status env told n Status.unmanaged) (set_status env told n failed))
        go true e = cc
        go false e = record {
          reaches = λ w h. (set_status-Reaches prepared failed lo 5 _ refl k).reaches w h;
        }

    finish-Reaches :
        Reaches
          (Ok env ((n, failed) ∷ l) 0 6)
          (λ _ w. Ok env ((n, finished) ∷ l) 0 6 w)
          (gdm_display_finish env told n)
    unfolding gdm_display_finish
    finish-Reaches =
        bind-Reaches _ _ _ _ _ (update-Reaches env l 0 6 n failed failed _ (λ d i. i))
          (λ _. set_status-Reaches failed finished 0 6 _ refl j)

    -- The greeter runs, or the display is finished.
    abbrev pub SetUp : World → Type 0
    SetUp w = Ok env ((n, prepared) ∷ l) lo 5 w ⊎ Ok env ((n, finished) ∷ l) 0 6 w

    abbrev Before : World → Type 0
    Before = Ok env ((n, prepared) ∷ l) lo 5

    create_session-Reaches :
        (uid : ℕ)
        → Reaches Before (λ _ w. Before w) (create_user_session_for_display env told n uid)
    unfolding create_user_session_for_display
    create_session-Reaches uid =
        bind-Reaches Before (λ _ w. Before w) (λ _ w. Before w) _ _
          (emit-Reaches env ((n, prepared) ∷ l) lo 5 (user_session_created n uid))
          (λ _.
            update-Reaches env l lo 5 n prepared prepared
              (λ d. record d { user_session = some uid }) (λ d i. i))

    started-Reaches : (e : Effect) → Reaches Before (λ _ w. SetUp w) (emit e)
    started-Reaches e = record { reaches = λ w h. inl h }

    finished-Reaches :
        Reaches (Ok env ((n, failed) ∷ l) 0 6) (λ _ w. SetUp w) (gdm_display_finish env told n)
    finished-Reaches =
        weaken-Reaches _ (λ _ w. Ok env ((n, finished) ∷ l) 0 6 w) (λ _ w. SetUp w) _ finish-Reaches
          (λ _ w h. inr h)

    greeter-Reaches : Reaches Before (λ _ w. SetUp w) (set_up_greeter_session env told n)
    unfolding set_up_greeter_session
    greeter-Reaches =
        by_option-Reaches Before (λ _ w. SetUp w) (env.ensure_uid n) _ _
          (bind-Reaches Before (λ _ w. Ok env ((n, failed) ∷ l) 0 6 w) (λ _ w. SetUp w) _ _
            unmanage-Reaches (λ _. finished-Reaches))
          (λ uid.
            bind-Reaches Before (λ _ w. Before w) (λ _ w. SetUp w) _ _ (create_session-Reaches uid)
              (λ _. started-Reaches (greeter_started n)))

    automatic-Reaches : Reaches Before (λ _ w. SetUp w) (set_up_automatic_login_session env told n)
    unfolding set_up_automatic_login_session
    automatic-Reaches =
        bind-Reaches Before (λ _ w. Before w) (λ _ w. SetUp w) _ _ (create_session-Reaches 0)
          (λ _. started-Reaches (conversation_started n (codes "gdm-autologin")))

    awaits-Reaches :
        (f : World → World)
        → ((w : World) → Before w → Before (f w))
        → Reaches Before (λ _ w. SetUp w) (modify f)
    awaits-Reaches f k = record { reaches = λ w h. inl (k w h) }

    if_user_exists-Reaches :
        Reaches Before (λ _ w. SetUp w) (set_up_automatic_login_session_if_user_exists env told n)
    unfolding set_up_automatic_login_session_if_user_exists
    if_user_exists-Reaches =
        branch-Reaches Before (λ _ w. SetUp w) env.user_is_nonexistent _ _ greeter-Reaches
          automatic-Reaches

    answer-Reaches :
        {A : Type 0} (a : Answer A)
        → is_answered a ≡ true
        → Reaches Before (λ _ w. Before w) (answer a)
    answer-Reaches aborted e = cc
    answer-Reaches refused e = record { reaches = λ w h. h }
    answer-Reaches (got a) e = record { reaches = λ w h. h }

    module _ (enable : is_answered env.automatic_login_enable ≡ true)
        (user : is_answered env.automatic_login ≡ true) where
      configured-Reaches : Reaches Before (λ _ w. Before w) (configured_user env told)
      configured-Reaches =
          bind-Reaches Before (λ _ w. Before w) _ _ _
            (answer-Reaches env.automatic_login_enable enable)
            (λ o.
              by_option-Reaches Before (λ _ w. Before w) o _ _ (pure-Reaches Before none)
                (λ b.
                  bind-Reaches Before (λ _ w. Before w) _ _ _
                    (answer-Reaches env.automatic_login user)
                    (λ p.
                      by_option-Reaches Before (λ _ w. Before w) p _ _ (pure-Reaches Before none)
                        (λ u. pure-Reaches Before (enabled_user env told b u)))))

      details-Reaches :
          (d : SeatDisplay)
          → Reaches Before (λ _ w. Before w) (get_automatic_login_details env told d)
      unfolding get_automatic_login_details
      details-Reaches d =
          by_option-Reaches Before (λ _ w. Before w) d.autologin_user _ _
            (branch-Reaches Before (λ _ w. Before w) _ _ _
              (bind-Reaches Before (λ _ w. Before w) _ _ _ (read-Reaches Before _)
                (λ did.
                  branch-Reaches Before (λ _ w. Before w) did _ _ (pure-Reaches Before none)
                    configured-Reaches))
              (pure-Reaches Before none))
            (λ u. pure-Reaches Before (some u))

      set_up_session-Reaches :
          (d : SeatDisplay) → Reaches Before (λ _ w. SetUp w) (set_up_session env told n d)
      unfolding set_up_session
      set_up_session-Reaches d =
          bind-Reaches Before (λ _ w. Before w) _ _ _ (details-Reaches d)
            (λ o.
              by_option-Reaches Before (λ _ w. SetUp w) o _ _ greeter-Reaches
                (λ u.
                  branch-Reaches Before (λ _ w. SetUp w) env.user_is_loaded _ _
                    if_user_exists-Reaches
                    (awaits-Reaches (λ w. record w { username_lookups = n ∷ w.username_lookups })
                      (λ w h. h))))

      -- The manager's handler for a display that is prepared.
      pub prepared-Reaches : Reaches Before (λ _ w. SetUp w) (manager_on_status_changed env told n)
      unfolding manager_on_status_changed
      prepared-Reaches =
          with_display-Reaches env l lo 5 n prepared _ _ (λ d i. go d d.state.status i.0 i.2)
        where
          go :
              (d : SeatDisplay) (s : Status)
              → number s ≡ number prepared
              → same_bytes d.session_class (codes "greeter") ≡ true
              → Reaches Before (λ _ w. SetUp w) (manager_by_status env told s n d)
          go d prepared e g =
              passing-Reaches Before (λ _ w. SetUp w) _ _ g (set_up_session-Reaches d)
          go d _ e g = absurd (omega (arith, e))

  quit-Reaches :
      (s : Status) (lo hi : ℕ) (d : SeatDisplay)
      → Reaches
          (Ok env ((n, s) ∷ l) lo hi)
          (λ _ w. Ok env ((n, s) ∷ l) lo hi w)
          (quit_plymouth env told false d)
  unfolding quit_plymouth
  quit-Reaches s lo hi d =
      bind-Reaches I (λ _ w. I w) (λ _ w. I w) _ _ (read-Reaches I _)
        (λ running. when-Reaches I (d.state.is_local && running) _ (
          bind-Reaches I (λ _ w. I w) (λ _ w. I w) _ _
            (emit-Reaches env ((n, s) ∷ l) lo hi (plymouth_quit false))
            (λ _.
              modify-Reaches env ((n, s) ∷ l) lo hi
                (λ w. record w { plymouth_is_running = false; plymouth_quit_timeout_id = false })
                (λ w h. h))))
    where
      I : World → Type 0
      I = Ok env ((n, s) ∷ l) lo hi

  -- The manager's handler for a display that is failed or finished.
  forget-Reaches :
      (s : Status) (lo hi : ℕ) (d : SeatDisplay)
      → Reaches
          (Ok env ((n, s) ∷ l) lo hi)
          (λ _ w. Ok env ((n, s) ∷ l) lo hi w)
          (forget_session env told n d)
  unfolding forget_session
  forget-Reaches s lo hi d =
      bind-Reaches I (λ _ w. I w) (λ _ w. I w) _ _ (quit-Reaches s lo hi d)
        (λ _.
          bind-Reaches I (λ _ w. I w) (λ _ w. I w) _ _
            (update-Reaches env l lo hi n s s (λ e. record e { user_session = none }) (λ e i. i))
            (λ _.
              bind-Reaches I (λ _ w. I w) (λ _ w. I w) _ _
                (read-Reaches I (λ w. is_display env told n w.automatic_login_display))
                (λ is_automatic. when-Reaches I is_automatic _ (
                  modify-Reaches env ((n, s) ∷ l) lo hi
                    (λ w. record w { automatic_login_display = none; did_automatic_login = true })
                    (λ w h. h)))))
    where
      I : World → Type 0
      I = Ok env ((n, s) ∷ l) lo hi

  pub failed-Reaches :
      (lo hi : ℕ)
      → Reaches
          (Ok env ((n, failed) ∷ l) lo hi)
          (λ _ w. Ok env ((n, failed) ∷ l) lo hi w)
          (manager_on_status_changed env told n)
  unfolding manager_on_status_changed
  failed-Reaches lo hi =
      with_display-Reaches env l lo hi n failed _ _ (λ d i. go d d.state.status i.0)
    where
      go :
          (d : SeatDisplay) (s : Status)
          → number s ≡ number failed
          → Reaches
              (Ok env ((n, failed) ∷ l) lo hi)
              (λ _ w. Ok env ((n, failed) ∷ l) lo hi w)
              (manager_by_status env told s n d)
      go d failed e = forget-Reaches failed lo hi d
      go d _ e = absurd (omega (arith, e))

  pub done-Reaches :
      (lo hi : ℕ)
      → Reaches
          (Ok env ((n, finished) ∷ l) lo hi)
          (λ _ w. Ok env ((n, finished) ∷ l) lo hi w)
          (manager_on_status_changed env told n)
  unfolding manager_on_status_changed
  done-Reaches lo hi =
      with_display-Reaches env l lo hi n finished _ _ (λ d i. go d d.state.status i.0)
    where
      go :
          (d : SeatDisplay) (s : Status)
          → number s ≡ number finished
          → Reaches
              (Ok env ((n, finished) ∷ l) lo hi)
              (λ _ w. Ok env ((n, finished) ∷ l) lo hi w)
              (manager_by_status env told s n d)
      go d finished e = forget-Reaches finished lo hi d
      go d _ e = absurd (omega (arith, e))
