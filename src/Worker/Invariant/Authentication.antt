-- ===== src/Worker/Invariant/Authentication.antt =====
-- The invariant of the worker of daemon/gdm-session-worker.c, for authentication and authorization.
use gdm.Base.{◌≡◌, ◌∙◌, ◌⊎◌, inl, inr, refl, Bool, true, false, ◌∷◌, arith, Ensures, Ensures-bind}
use gdm.Worker.{State, Effect, Worker, Env, PamCode}
use gdm.Worker.Ledger.{ledger, is_success}
use gdm.Worker.Frame.{Frame, converse-Frame}
use gdm.Worker.Messages.{converse}
use gdm.Worker.Pam.{
  change_expired_token, decide, requires_new_token, authorization_code, authorize_user,
  hide_unknown_user, authenticate_user,
}
use gdm.Worker.Invariant.{
  Inv, Evidence, Underway, Underway-trans, Frame-Underway, Sound, Frame-then,
}
use gdm.Worker.Invariant.Conclude.{conclude-Sound}

hides_no_failure : (c : PamCode) → is_success (hide_unknown_user c) ≡ is_success c
hides_no_failure PamCode.user_unknown = refl
hides_no_failure _ = refl

pub authenticate_user-Sound :
    (env : Env) (b : Bool) (w : Worker)
    → w.state ≡ State.setup_complete
    → Inv w
    → Ensures (λ _ w'. Sound w w') (authenticate_user env b w)
unfolding authenticate_user ledger
authenticate_user-Sound env b w s i =
    Frame-then (converse env env.conversation) _ w i
      (converse-Frame env env.conversation w (ground arith))
      λ _ v f j.
        conclude-Sound env (hide_unknown_user env.authenticate_code) State.authenticated _ v _
          (ground arith) (ground arith) (ground arith) (omega arith)
          (λ ok. ground (arith, hides_no_failure env.authenticate_code))

-- What a change of an expired password leaves.
abbrev Changed : Env → Worker → Worker → Type 0
Changed env w v = Underway w v × ((ledger v.log).authorized ≡ is_success env.chauthtok_code)

change_token-Changed :
    (env : Env) (w : Worker)
    → w.state ≡ State.authenticated
    → Evidence w
    → Ensures (λ _ v. Changed env w v) (change_expired_token env w)
unfolding change_expired_token ledger
change_token-Changed env w s e =
    Ensures-bind (λ _ v. Frame w v) (λ _ v. Changed env w v) (converse env env.expiry_conversation)
      _ w (converse-Frame env env.expiry_conversation w (ground arith))
      λ _ v f. ground (arith, Frame-Underway e f)

-- Before the user is authorized, what PAM has answered is in the ledger.
abbrev Decided : Worker → PamCode → Worker → Type 0
Decided w c v =
    Underway w v
    × (is_success c ≡ true → ((ledger v.log).authorized ≡ true) ⊎ (v.is_reauth_session ≡ true))

-- pam_acct_mgmt has been called, and the password is changed or not.
expiry-Decided :
    (env : Env) (w v : Worker) (expired is_reauth : Bool)
    → v.is_reauth_session ≡ is_reauth
    → v.state ≡ State.authenticated
    → Underway w v
    → (ledger v.log).authorized ≡ is_success env.acct_mgmt_code
    → Ensures (λ c v'. Decided w c v') (decide env expired is_reauth v)
unfolding decide
expiry-Decided env w v true true r s u a =
    Ensures-bind (λ _ v'. Changed env v v') (λ c v'. Decided w c v') (change_expired_token env) _ v
      (change_token-Changed env v s u.still)
      λ _ v' g. (Underway-trans u g.0, λ _. inr (g.0.kept.kept_reauth ∙ r))
expiry-Decided env w v true false r s u a =
    Ensures-bind (λ _ v'. Changed env v v') (λ c v'. Decided w c v') (change_expired_token env) _ v
      (change_token-Changed env v s u.still) λ _ v' g. (Underway-trans u g.0, λ ok. inl (g.1 ∙ ok))
expiry-Decided env w v false true r s u a = (u, λ _. inr r)
expiry-Decided env w v false false r s u a = (u, λ ok. inl (a ∙ ok))

authorization_code-Decided :
    (env : Env) (b : Bool) (w : Worker)
    → w.state ≡ State.authenticated
    → Evidence w
    → Ensures (λ c v. Decided w c v) (authorization_code env b w)
unfolding authorization_code ledger
authorization_code-Decided env b w s e =
    Ensures-bind (λ _ v. Frame w v) (λ c v. Decided w c v) (converse env env.conversation) _ w
      (converse-Frame env env.conversation w (ground arith))
      λ _ v f.
        let asked : Worker = record v { log = Effect.pam_acct_mgmt b env.acct_mgmt_code ∷ v.log } in
        let u : Underway w v = Frame-Underway e f in
        expiry-Decided env w asked (requires_new_token env.acct_mgmt_code v.is_program_session)
          v.is_reauth_session refl (ground arith) (ground arith) refl

pub authorize_user-Sound :
    (env : Env) (b : Bool) (w : Worker)
    → w.state ≡ State.authenticated
    → Inv w
    → Ensures (λ _ w'. Sound w w') (authorize_user env b w)
unfolding authorize_user
authorize_user-Sound env b w s i =
    Ensures-bind (λ c v. Decided w c v) (λ _ w'. Sound w w') (authorization_code env b) _ w
      (authorization_code-Decided env b w s i.evidence)
      λ c v d.
        conclude-Sound env c State.authorized _ w v (ground arith) (ground arith) (ground arith)
          (omega arith) (λ ok. ground (arith, d.1 ok))
