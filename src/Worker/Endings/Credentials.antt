-- ===== src/Worker/Endings/Credentials.antt =====
-- The operations of daemon/gdm-session-worker.c below `do_accredit`: they return, and how they end.
use gdm.Base.{
  ◌≡◌, refl, String, Option, none, some, Bool, true, false, arith, when, Ensures, is_some, ◌&&◌,
  ◌||◌, subst, ap, ◌∙◌,
}
use gdm.Worker.{State, Effect, Worker, Env, Build, PamCode, ErrorCode}
use gdm.Worker.Ledger.{is_success, ledger}
use gdm.Worker.Frame.{Frame}
use gdm.Worker.Accounts.{Account, lookup_passwd_info, get_username}
use gdm.Worker.Messages.{converse}
use gdm.Worker.Pam.{
  Failure, conclude, finish, uninitialize_pam, become_user, set_credentials, credentials_after,
  accredit_account, accredit_found, accredit_username, report_accredited, accredit_user,
}
use gdm.Worker.Invariant.Accreditation.{report_accredited-Frame}
use gdm.Worker.Invariant.Conclude.{when-Frame}
use gdm.Worker.Returns.{InCall, Frame-InCall, conclude_returns}
use gdm.Worker.Endings.{Returns, Returns-bind, logged-InCall, converse-Returns}

-- There is an account, and the worker can become its user.
abbrev pub has_user : Env → Option String → Bool
has_user env none = false
has_user env (some name) =
    is_some (lookup_passwd_info env name) && (env.setgid_ok && env.initgroups_ok)

-- PAM gives the credentials, or what it says of them does not count, as in a reauthentication.
abbrev pub gives_credentials : Env → Bool → Bool
gives_credentials env is_reauth = is_reauth || is_success env.setcred_code

-- How the operation ends. Without an error PAM was asked for the credentials, and what it said stands
-- in the ledger.
abbrev pub Accredits : Env → Worker → Failure → Worker → Type 0
Accredits env w none v =
    (v.state ≡ State.accredited)
    × ((has_user env w.username && gives_credentials env w.is_reauth_session) ≡ true)
    × ((ledger v.log).credentials ≡ is_success env.setcred_code)
Accredits env w (some e) v =
    (v.state ≡ State.none_state)
    × (v.pam_handle ≡ false)
    × ((has_user env w.username && gives_credentials env w.is_reauth_session) ≡ false)

-- The code that is found for credentials that are given or not: there is an error at hand, which counts
-- unless the code is success, and then what PAM said stands in the ledger.
record Tried (env : Env) (given : Bool) (r : PamCode × Failure) (v : Worker) : Type 0 where
  call : InCall v
  has_error : is_some r.1 ≡ true
  code : is_success r.0 ≡ given
  entered : given ≡ true → (ledger v.log).credentials ≡ is_success env.setcred_code

-- A change of user, and whether it succeeded.
abbrev Changed : Env → Worker → Bool → Worker → Type 0
Changed env w changed v = Frame w v × (changed ≡ (env.setgid_ok && env.initgroups_ok))

become_user-Returns :
    (env : Env) (build : Build) (a : Account) (w : Worker)
    → Returns (λ changed v. Changed env w changed v) (become_user env build a w)
unfolding become_user ledger
become_user-Returns env build a w = record { does = always; ensures = ground arith }
  where
    always : is_some (become_user env build a w) ≡ true
    always = ground arith

set_credentials-Returns :
    (env : Env) (is_reauth : Bool) (w : Worker)
    → InCall w
    → Returns
        (λ r v. Tried env (gives_credentials env is_reauth) r v)
        (set_credentials env is_reauth w)
unfolding set_credentials ledger
set_credentials-Returns env is_reauth w c =
    Returns-bind (λ _ v. Frame w v) (λ r v. Tried env (gives_credentials env is_reauth) r v)
      (converse env env.conversation) _ w (converse-Returns env env.conversation w c)
      (λ _ v f. record {
        does = refl;
        ensures = record {
          call =
              logged-InCall (Effect.pam_setcred v.cred_flags env.setcred_code) v (Frame-InCall f c);
          has_error = refl;
          code = ground arith;
          entered = λ _. refl;
        };
      })

credentials_after-Returns :
    (env : Env) (changed is_reauth : Bool) (w : Worker)
    → InCall w
    → Returns
        (λ r v. Tried env (changed && gives_credentials env is_reauth) r v)
        (credentials_after env changed is_reauth w)
unfolding credentials_after
credentials_after-Returns env false is_reauth w c = record {
  does = refl;
  ensures = record { call = c; has_error = refl; code = refl; entered = λ e. cc };
}
credentials_after-Returns env true is_reauth w c = set_credentials-Returns env is_reauth w c

accredit_account-Returns :
    (env : Env) (build : Build) (a : Account) (w : Worker)
    → InCall w
    → Returns
        (λ r v.
          Tried env
            ((env.setgid_ok && env.initgroups_ok) && gives_credentials env w.is_reauth_session)
            r
            v)
        (accredit_account env build a w)
unfolding accredit_account
accredit_account-Returns env build a w c =
    Returns-bind (λ changed v. Changed env w changed v)
      (λ r v.
        Tried env
          ((env.setgid_ok && env.initgroups_ok) && gives_credentials env w.is_reauth_session) r v)
      (become_user env build a) _ w (become_user-Returns env build a w)
      (λ changed v (f, e).
        subst
          (λ (given : Bool).
            Returns (λ r x. Tried env given r x)
              (credentials_after env changed v.is_reauth_session v))
          (ap (λ (b : Bool). b && gives_credentials env v.is_reauth_session) e
            ∙ ap (λ (b : Bool). (env.setgid_ok && env.initgroups_ok) && gives_credentials env b)
                f.same_reauth)
          (credentials_after-Returns env changed v.is_reauth_session v (Frame-InCall f c)))

-- Without an account there is an error.
no_account :
    (env : Env) (code : PamCode) (text : String) (w : Worker)
    → InCall w
    → is_success code ≡ false
    → Tried env false (code, some (ErrorCode.giving_credentials, text)) w
no_account env code text w c e = record { call = c; has_error = refl; code = e; entered = λ h. cc }

accredit_username-Returns :
    (env : Env) (build : Build) (name : Option String) (w : Worker)
    → InCall w
    → Returns
        (λ r v. Tried env (has_user env name && gives_credentials env w.is_reauth_session) r v)
        (accredit_username env build name w)
unfolding accredit_username accredit_found
accredit_username-Returns env build none w c = record {
  does = refl;
  ensures = no_account env _ _ w c refl;
}
accredit_username-Returns env build (some name) w c = go (lookup_passwd_info env name)
  where
    go :
        (found : Option Account)
        → Returns
            (λ r v.
              Tried env
                ((is_some found && (env.setgid_ok && env.initgroups_ok))
                  && gives_credentials env w.is_reauth_session)
                r
                v)
            (accredit_found env build found w)
    go none = record { does = refl; ensures = no_account env _ _ w c refl }
    go (some a) = accredit_account-Returns env build a w c

reported-Returns :
    (env : Env) (ok : Bool) (w : Worker)
    → InCall w
    → Returns (λ _ v. Frame w v) (when ok (report_accredited env) w)
unfolding report_accredited get_username
reported-Returns env ok w c = record {
  does = always ok;
  ensures = when-Frame ok (report_accredited env) w (report_accredited-Frame env w);
}
  where
    always : (b : Bool) → is_some (when b (report_accredited env) w) ≡ true
    always b = ground arith

-- The end of the operation, by whether the credentials are given.
concluded :
    (env : Env) (w v x : Worker) (r : PamCode × Failure)
    → Tried env (has_user env w.username && gives_credentials env w.is_reauth_session) r v
    → Frame v x
    → Returns (λ res y. Accredits env w res y) (conclude env r.0 State.accredited r.1 x)
unfolding conclude finish uninitialize_pam ledger
concluded env w v x r t f =
    let c = Frame-InCall f t.call in
    let h = c.with_handle in
    let e = t.has_error in
    let k = t.code in
    let l = t.entered in
    let m = f.same_ledger in
    record { does = conclude_returns env r.0 State.accredited r.1 x; ensures = ground arith }

accredit-Returns :
    (env : Env) (build : Build) (w : Worker)
    → InCall w
    → Returns (λ res v. Accredits env w res v) (accredit_user env build w)
unfolding accredit_user
accredit-Returns env build w c =
    Returns-bind
      (λ r v. Tried env (has_user env w.username && gives_credentials env w.is_reauth_session) r v)
      (λ res v. Accredits env w res v) (accredit_username env build w.username) _ w
      (accredit_username-Returns env build w.username w c)
      (λ r v t.
        Returns-bind (λ _ x. Frame v x) (λ res x. Accredits env w res x)
          (when (is_success r.0) (report_accredited env)) _ v
          (reported-Returns env (is_success r.0) v t.call) (λ _ x f. concluded env w v x r t f))

-- In the state AUTHORIZED, with a handle, the operation returns, whatever messages PAM shows and
-- whatever the user answers. There is no error exactly if the user name has an account, the worker can
-- become its user, and pam_setcred succeeds or the conversation is a reauthentication: the state is
-- ACCREDITED then, and the log has the answer of pam_setcred for the handle. With an error the state is
-- NONE, and the handle is released.
pub accredit_user-Ends :
    (env : Env) (build : Build) (w : Worker)
    → w.state ≡ State.authorized
    → w.pam_handle ≡ true
    → (is_some (accredit_user env build w) ≡ true)
      × Ensures (λ res v. Accredits env w res v) (accredit_user env build w)
accredit_user-Ends env build w s h = (o.does, o.ensures)
  where
    o : Returns (λ res v. Accredits env w res v) (accredit_user env build w)
    o = accredit-Returns env build w (record { with_handle = h; is_calm = ground arith })
