-- ===== src/Worker/Ledger.antt =====
-- A reading of the worker's log: what the PAM calls of the current handle have granted, how many
-- sessions and replies there were, and the replies themselves, newest first. It is written from the meaning of PAM's calls alone, and
-- knows nothing of the worker's state.
use gdm.Base.{ℕ, suc, Bool, true, false, ◌&&◌, List, [], ◌∷◌, if◌then◌else◌}
use gdm.Worker.{Effect, PamCode, Reply}

pub record Ledger : Type 0 where
  pub authenticated : Bool
  pub authorized : Bool
  pub credentials : Bool
  pub session : Bool
  pub opens : ℕ
  pub closes : ℕ
  pub replies : ℕ
  pub answers : List (ℕ × Reply)
  pub forks_granted : Bool
  pub forks : ℕ

abbrev pub is_success : PamCode → Bool
is_success PamCode.success = true
is_success _ = false

abbrev pub empty : Ledger
empty = record {
  authenticated = false;
  authorized = false;
  credentials = false;
  session = false;
  opens = 0;
  closes = 0;
  replies = 0;
  answers = [];
  forks_granted = true;
  forks = 0;
}

-- A handle that begins or ends has granted nothing.
abbrev revoke : Ledger → Ledger
revoke l = record l {
  authenticated = false;
  authorized = false;
  credentials = false;
  session = false;
}

abbrev opened : PamCode → Ledger → Ledger
opened c l = if is_success c then record l { session = true; opens = suc l.opens } else l

abbrev pub granted : Ledger → Bool
granted l = l.authenticated && l.authorized && l.credentials && l.session

unfoldable pub observe : Effect → Ledger → Ledger
observe (Effect.pam_start _) l = revoke l
observe (Effect.pam_end _) l = revoke l
observe (Effect.pam_authenticate _ c) l = record l { authenticated = is_success c }
observe (Effect.pam_acct_mgmt _ c) l = record l { authorized = is_success c }
observe (Effect.pam_chauthtok c) l = record l { authorized = is_success c }
observe Effect.pam_delete_cred l = record l { credentials = false }
observe (Effect.pam_setcred _ c) l = record l { credentials = is_success c }
observe (Effect.pam_open_session _ c) l = opened c l
observe Effect.pam_close_session l = record l { session = false; closes = suc l.closes }
observe (Effect.fork_session _ _) l = record l {
  forks_granted = l.forks_granted && granted l;
  forks = suc l.forks;
}
observe (Effect.reply i r) l = record l { replies = suc l.replies; answers = (i, r) ∷ l.answers }
observe _ l = l

unfoldable pub ledger : List Effect → Ledger
unfolding observe
ledger [] = empty
ledger (e ∷ log) = observe e (ledger log)
