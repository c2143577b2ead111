-- ===== src/Worker/Invariant/Accreditation.antt =====
-- The invariant of the worker of daemon/gdm-session-worker.c, for the user's credentials.
use gdm.Base.{
  ◌≡◌, ◌∙◌, ◌⊎◌, inl, inr, refl, String, Option, none, some, Bool, true, false, arith,
  if◌then◌else◌, when, Ensures, Ensures-bind,
}
use gdm.Worker.{State, rank, Worker, Env, Build, PamCode}
use gdm.Worker.Ledger.{ledger, is_success}
use gdm.Worker.Frame.{Frame, Frame-refl, converse-Frame}
use gdm.Worker.Messages.{converse}
use gdm.Worker.Accounts.{Account, lookup_passwd_info}
use gdm.Worker.Pam.{
  Failure, become_user, set_credentials, credentials_after, accredit_account, accredit_username,
  accredit_found, report_accredited, accredit_user,
}
use gdm.Worker.Invariant.{
  Inv, Evidence, Frame-Evidence, Underway, Underway-trans, Frame-Underway, Sound,
}
use gdm.Worker.Invariant.Conclude.{conclude-Sound, when-Frame}

-- Credentials that PAM has established are in the ledger.
abbrev Granted : Worker → PamCode × Failure → Worker → Type 0
Granted w r v =
    Underway w v
    × (is_success r.0 ≡ true → ((ledger v.log).credentials ≡ true) ⊎ (v.is_reauth_session ≡ true))

pub become_user-Frame :
    (env : Env) (build : Build) (a : Account) (w : Worker)
    → Ensures (λ _ v. Frame w v) (become_user env build a w)
unfolding become_user ledger
become_user-Frame env build a w = ground arith

credentials_of :
    (c : PamCode) (is_reauth : Bool)
    → is_success (if is_reauth then PamCode.success else c) ≡ true
    → (is_success c ≡ true) ⊎ (is_reauth ≡ true)
credentials_of c true ok = inr refl
credentials_of c false ok = inl ok

set_credentials-Granted :
    (env : Env) (w : Worker) (is_reauth : Bool)
    → w.is_reauth_session ≡ is_reauth
    → w.state ≡ State.authorized
    → Evidence w
    → Ensures (λ r v. Granted w r v) (set_credentials env is_reauth w)
unfolding set_credentials ledger
set_credentials-Granted env w b r s e =
    Ensures-bind (λ _ v. Frame w v) (λ r v. Granted w r v) (converse env env.conversation) _ w
      (converse-Frame env env.conversation w (ground arith))
      λ _ v f.
        let u : Underway w v = Frame-Underway e f in
        (
          ground arith,
          λ ok. elim (credentials_of env.setcred_code b ok) [
            | inl granted ↦ inl granted
            | inr reauth ↦ inr (f.same_reauth ∙ r ∙ reauth)
          ],
        )

follow-Granted :
    {u v : Worker} (m : Option ((PamCode × Failure) × Worker))
    → Underway u v
    → Ensures (λ r w. Granted v r w) m
    → Ensures (λ r w. Granted u r w) m
follow-Granted none a g = tt
follow-Granted (some (r, w)) a g = (Underway-trans a g.0, g.1)

credentials_after-Granted :
    (env : Env) (changed : Bool) (w : Worker)
    → w.state ≡ State.authorized
    → Evidence w
    → Ensures (λ r v. Granted w r v) (credentials_after env changed w.is_reauth_session w)
unfolding credentials_after
credentials_after-Granted env false w s e = (Frame-Underway e (Frame-refl w), λ ok. cc)
credentials_after-Granted env true w s e =
    set_credentials-Granted env w w.is_reauth_session refl s e

accredit_account-Granted :
    (env : Env) (build : Build) (a : Account) (w : Worker)
    → w.state ≡ State.authorized
    → Evidence w
    → Ensures (λ r v. Granted w r v) (accredit_account env build a w)
unfolding accredit_account
accredit_account-Granted env build a w s e =
    Ensures-bind (λ _ v. Frame w v) (λ r v. Granted w r v) (become_user env build a) _ w
      (become_user-Frame env build a w)
      λ changed v f.
        follow-Granted (credentials_after env changed v.is_reauth_session v) (Frame-Underway e f)
          (credentials_after-Granted env changed v (f.same_state ∙ s) (Frame-Evidence f e))

accredit_found-Granted :
    (env : Env) (build : Build) (found : Option Account) (w : Worker)
    → w.state ≡ State.authorized
    → Evidence w
    → Ensures (λ r v. Granted w r v) (accredit_found env build found w)
unfolding accredit_found
accredit_found-Granted env build none w s e = (Frame-Underway e (Frame-refl w), λ ok. cc)
accredit_found-Granted env build (some a) w s e = accredit_account-Granted env build a w s e

accredit_username-Granted :
    (env : Env) (build : Build) (name : Option String) (w : Worker)
    → w.state ≡ State.authorized
    → Evidence w
    → Ensures (λ r v. Granted w r v) (accredit_username env build name w)
unfolding accredit_username
accredit_username-Granted env build none w s e = (Frame-Underway e (Frame-refl w), λ ok. cc)
accredit_username-Granted env build (some name) w s e =
    accredit_found-Granted env build (lookup_passwd_info env name) w s e

pub report_accredited-Frame :
    (env : Env) (w : Worker) → Ensures (λ _ v. Frame w v) (report_accredited env w)
unfolding report_accredited ledger
report_accredited-Frame env w = ground arith

accredited_after :
    (u v : Worker) (s : State)
    → rank s ≡ 4
    → Underway u v
    → u.state ≡ State.authorized
    → ((ledger v.log).credentials ≡ true) ⊎ (v.is_reauth_session ≡ true)
    → Evidence (record v { state = s })
accredited_after u v s r a e c = ground arith

pub accredit_user-Sound :
    (env : Env) (build : Build) (w : Worker)
    → w.state ≡ State.authorized
    → Inv w
    → Ensures (λ _ w'. Sound w w') (accredit_user env build w)
unfolding accredit_user
accredit_user-Sound env build w s i =
    Ensures-bind (λ r v. Granted w r v) (λ _ w'. Sound w w')
      (accredit_username env build w.username) _ w
      (accredit_username-Granted env build w.username w s i.evidence)
      λ r v g.
        Ensures-bind (λ _ x. Frame v x) (λ _ w'. Sound w w')
          (when (is_success r.0) (report_accredited env)) _ v
          (when-Frame (is_success r.0) (report_accredited env) v (report_accredited-Frame env v))
          λ _ x f.
            let u : Underway w x = Underway-trans g.0 (Frame-Underway g.0.still f) in
            conclude-Sound env r.0 State.accredited r.1 w x u.kept u.still
              (u.same_handle ∙ ground arith) (omega arith)
              (λ ok. accredited_after w x State.accredited refl u s (ground (arith, g.1 ok)))
