-- ===== src/Worker/Endings.antt =====
-- The operations of daemon/gdm-session-worker.c below `do_authorize`: they return, and how they end.
pub mod Credentials
use gdm.Base.{
  ◌≡◌, refl, subst, String, Option, none, some, Bool, true, false, List, [], ◌∷◌, arith, when,
  Ensures, Ensures-bind, is_some, if◌then◌else◌, ◌>>=◌,
}
use gdm.Worker.{State, Effect, Worker, Env, Build, PamCode, ErrorCode, Message, W}
use gdm.Worker.Ledger.{is_success}
use gdm.Worker.Frame.{Frame, converse-Frame}
use gdm.Worker.Accounts.{Account, lookup_passwd_info, get_username}
use gdm.Worker.Messages.{converse, friendly_error_message}
use gdm.Worker.Pam.{
  Failure, conclude, change_expired_token, decide, requires_new_token, authorization_code,
  authorize_user, become_user, set_credentials, credentials_after, accredit_account, accredit_found,
  accredit_username, report_accredited, accredit_user,
}
use gdm.Worker.Invariant.Accreditation.{become_user-Frame}
use gdm.Worker.Returns.{
  InCall, Frame-InCall, Ends, conclude-Ends, returns_bind, returns_call, conclude_returns,
  get_username_returns, converse_returns,
}

-- How a step of the conversation ends: in its state, or with an error and without a conversation.
abbrev pub Settles : State → Failure → Worker → Type 0
Settles s none v = v.state ≡ s
Settles s (some e) v = (v.state ≡ State.none_state) × (v.pam_handle ≡ false)

-- An operation returns with a postcondition.
pub record Returns {A : Type 0} (P : A → Worker → Type 0) (r : Option (A × Worker)) : Type 0 where
  pub does : is_some r ≡ true
  pub ensures : Ensures P r

module _ {A B : Type 0} where
  pub Returns-bind :
      (P : A → Worker → Type 0) (Q : B → Worker → Type 0) (m : W A) (f : A → W B) (w : Worker)
      → Returns P (m w)
      → ((a : A) (v : Worker) → P a v → Returns Q (f a v))
      → Returns Q ((m >>= f) w)
  Returns-bind P Q m f w h k = go (m w) h
    where
      go :
          (r : Option (A × Worker))
          → Returns P r
          → Returns Q (elim r as (λ _. Option (B × Worker)) [ none ↦ none | some (a, v) ↦ f a v ])
      go none h = let d = h.does in cc
      go (some (a, v)) h = k a v h.ensures

pub logged-InCall : (e : Effect) (w : Worker) → InCall w → InCall (record w { log = e ∷ w.log })
logged-InCall e w c = record { with_handle = c.with_handle; is_calm = c.is_calm }

pub converse-Returns :
    (env : Env) (batches : List (List Message)) (w : Worker)
    → InCall w
    → Returns (λ _ v. Frame w v) (converse env batches w)
converse-Returns env batches w c = record {
  does = converse_returns env batches w c;
  ensures = converse-Frame env batches w c.is_calm;
}

pub conclude-Returns :
    (env : Env) (code : PamCode) (s : State) (failure : Failure) (w : Worker)
    → InCall w
    → is_some failure ≡ true
    → Returns
        (λ res v. Settles s res v × (is_success code ≡ true → res ≡ none))
        (conclude env code s failure w)
conclude-Returns env code s failure w c f = record {
  does = conclude_returns env code s failure w;
  ensures =
      ended (is_success code) (conclude env code s failure w)
        (conclude-Ends env code s failure w c.with_handle f);
}
  where
    ended :
        (ok : Bool) (r : Option (Failure × Worker))
        → Ensures (λ res v. Ends ok s res v) r
        → Ensures (λ res v. Settles s res v × (ok ≡ true → res ≡ none)) r
    ended ok none h = tt
    ended true (some (none, v)) (e, h) = (h, λ _. refl)
    ended true (some (some x, v)) (e, h) = cc
    ended false (some (none, v)) h = cc
    ended false (some (some x, v)) (e, h, g) = ((h, g), λ y. cc)

change_expired_token-Returns :
    (env : Env) (w : Worker) → InCall w → Returns (λ _ v. InCall v) (change_expired_token env w)
unfolding change_expired_token get_username
change_expired_token-Returns env w c =
    Returns-bind (λ _ v. Frame w v) (λ _ v. InCall v) (converse env env.expiry_conversation) _ w
      (converse-Returns env env.expiry_conversation w c)
      (λ _ v f.
        let d = Frame-InCall f c in
        let h = d.with_handle in
        let k = d.is_calm in record { does = ground arith; ensures = ground arith })

-- The code that an authorization goes by: a reauthentication passes, and so does a sound account.
abbrev Decided : Env → Bool → PamCode → Worker → Type 0
Decided env is_reauth code v =
    InCall v
    × (is_reauth ≡ true → is_success code ≡ true)
    × (is_success env.acct_mgmt_code ≡ true → is_success code ≡ true)

decide-Returns :
    (env : Env) (expired is_reauth : Bool) (w : Worker)
    → InCall w
    → (is_success env.acct_mgmt_code ≡ true → expired ≡ false)
    → Returns (λ code v. Decided env is_reauth code v) (decide env expired is_reauth w)
unfolding decide
decide-Returns env false true w c h = record { does = refl; ensures = (c, λ _. refl, λ _. refl) }
decide-Returns env false false w c h = record { does = refl; ensures = (c, λ e. cc, λ e. e) }
decide-Returns env true true w c h =
    Returns-bind (λ _ v. InCall v) (λ code v. Decided env true code v) (change_expired_token env) _
      w (change_expired_token-Returns env w c)
      (λ _ v d. record { does = refl; ensures = (d, λ _. refl, λ _. refl) })
decide-Returns env true false w c h =
    Returns-bind (λ _ v. InCall v) (λ code v. Decided env false code v) (change_expired_token env) _
      w (change_expired_token-Returns env w c)
      (λ _ v d. record { does = refl; ensures = (d, λ e. cc, λ e. let x = h e in cc) })

sound_account :
    (code : PamCode) (is_program : Bool)
    → is_success code ≡ true
    → requires_new_token code is_program ≡ false
unfolding requires_new_token
sound_account code is_program e = ground arith

authorization_code-Returns :
    (env : Env) (b : Bool) (w : Worker)
    → InCall w
    → Returns (λ code v. Decided env w.is_reauth_session code v) (authorization_code env b w)
unfolding authorization_code
authorization_code-Returns env b w c =
    Returns-bind (λ _ v. Frame w v) (λ code v. Decided env w.is_reauth_session code v)
      (converse env env.conversation) _ w (converse-Returns env env.conversation w c)
      (λ _ v f.
        subst
          (λ (r : Bool).
            Returns (λ code x. Decided env r code x)
              (decide env (requires_new_token env.acct_mgmt_code v.is_program_session)
                v.is_reauth_session
                (record v { log = Effect.pam_acct_mgmt b env.acct_mgmt_code ∷ v.log })))
          f.same_reauth
          (decide-Returns env (requires_new_token env.acct_mgmt_code v.is_program_session)
            v.is_reauth_session
            (record v { log = Effect.pam_acct_mgmt b env.acct_mgmt_code ∷ v.log })
            (logged-InCall (Effect.pam_acct_mgmt b env.acct_mgmt_code) v (Frame-InCall f c))
            (sound_account env.acct_mgmt_code v.is_program_session)))

-- How an authorization ends; a reauthentication and a sound account pass.
abbrev pub IsAuthorized : Env → Bool → Failure → Worker → Type 0
IsAuthorized env is_reauth res v =
    Settles State.authorized res v
    × (is_reauth ≡ true → res ≡ none)
    × (is_success env.acct_mgmt_code ≡ true → res ≡ none)

authorize-Returns :
    (env : Env) (b : Bool) (w : Worker)
    → InCall w
    → Returns (λ res v. IsAuthorized env w.is_reauth_session res v) (authorize_user env b w)
unfolding authorize_user
authorize-Returns env b w c =
    Returns-bind (λ code v. Decided env w.is_reauth_session code v)
      (λ res v. IsAuthorized env w.is_reauth_session res v) (authorization_code env b) _ w
      (authorization_code-Returns env b w c)
      (λ code v d.
        let o =
          conclude-Returns env code State.authorized
            (some (ErrorCode.authorizing, friendly_error_message v.service code)) v d.0 refl in
        record {
          does = o.does;
          ensures =
              passed code d.1 d.2
                (conclude env code State.authorized
                  (some (ErrorCode.authorizing, friendly_error_message v.service code)) v)
                o.ensures;
        })
  where
    passed :
        (code : PamCode)
        → (w.is_reauth_session ≡ true → is_success code ≡ true)
        → (is_success env.acct_mgmt_code ≡ true → is_success code ≡ true)
        → (r : Option (Failure × Worker))
        → Ensures
            (λ res v. Settles State.authorized res v × (is_success code ≡ true → res ≡ none))
            r
        → Ensures (λ res v. IsAuthorized env w.is_reauth_session res v) r
    passed code p q none h = tt
    passed code p q (some (res, v)) (h, k) = (h, λ e. k (p e), λ e. k (q e))

-- In the state AUTHENTICATED, with a handle, the authorization returns, whatever messages PAM shows and
-- whatever the user answers: without an error the state is AUTHORIZED, and with one the state is NONE
-- and the handle is released; a user who is logged in already is let through, and so is everyone whose
-- account pam_acct_mgmt accepts.
pub authorize_user-Ends :
    (env : Env) (b : Bool) (w : Worker)
    → w.state ≡ State.authenticated
    → w.pam_handle ≡ true
    → (is_some (authorize_user env b w) ≡ true)
      × Ensures (λ res v. IsAuthorized env w.is_reauth_session res v) (authorize_user env b w)
authorize_user-Ends env b w s h = (o.does, o.ensures)
  where
    o : Returns (λ res v. IsAuthorized env w.is_reauth_session res v) (authorize_user env b w)
    o = authorize-Returns env b w (record { with_handle = h; is_calm = ground arith })
