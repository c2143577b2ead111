-- ===== src/Session/Callbacks.antt =====
-- The callbacks of daemon/gdm-session.c, and the events that are left, keep the order of the calls.
use gdm.Base.{
  ℕ, ◌==◌, ◌≡◌, ==_iff, refl, Option, none, some, Bool, true, false, not, subst, sym, when, codes,
  ◌>>=◌, ◌>>◌, Ensures, Ensures-bind,
}
use gdm.Session.State.{
  Setting, told, tell_worker, send_display_mode, send_session_type, open_found, Conversation,
  authenticate, authorize, establish_credentials, open_session, initialized, authenticated,
  authorized, accredited, signal, returned, refused, GdmSession, S, emit, lookup,
  update_conversation, Failure, gdm_session_authenticate, gdm_session_authorize,
  gdm_session_accredit, gdm_session_open_session, VerificationMode, login, reauthenticate, chooser,
  report_and_stop_conversation,
}
use gdm.Session.Events.{
  return_starting, on_initialization_complete_cb, on_authenticate_cb, on_authorize_cb,
  on_establish_credentials_cb, verified, is_unavailable,
}
use gdm.Session.Order.{Inv, is_ready, IsKnown, lookup-IsKnown}
use gdm.Session.Keeps.{
  Keeps, logged, emit-Keeps, bind-Keeps, when-Keeps, change-Keeps, call_own-Inv, call_worker-Inv,
  report_and_stop_conversation-Keeps,
}

-- What a call of Open relies on, which the calls before it leave.
record Prepared (o : Option ℕ) (c : Conversation) (s : GdmSession) : Type 0 where
  inv : Inv o s
  known : IsKnown s.log (some c)
  ready : is_ready open_session c.number s.log ≡ true

tell_worker-Prepared :
    (o : Option ℕ) (c : Conversation) (x : Setting) (s : GdmSession)
    → Prepared o c s
    → Ensures (λ _ t. Prepared o c t) (tell_worker c x s)
tell_worker-Prepared o c x s p = go c.is_connected
  where
    go : (b : Bool) → Ensures (λ _ t. Prepared o c t) (when b (emit (told c.number x)) s)
    go true = record {
      inv = logged o (told c.number x) s p.inv tt;
      known = p.known;
      ready = p.ready;
    }
    go false = p

open_found-Inv :
    (o : Option ℕ) (c : Conversation) (s : GdmSession)
    → Prepared o c s
    → Ensures (λ _ t. Inv o t) (open_found (some c) s)
open_found-Inv o c s p =
    Ensures-bind (λ _ t. Prepared o c t) (λ _ t. Inv o t) (send_display_mode c) _ s
      (tell_worker-Prepared o c _ s p)
      (λ _ t q.
        Ensures-bind (λ _ u. Prepared o c u) (λ _ u. Inv o u) (send_session_type c) _ t
          (tell_worker-Prepared o c _ t q)
          (λ _ u r. call_worker-Inv o c open_session u r.inv r.known r.ready))

-- The session is opened in a conversation that is found by its own name.
opening-Inv :
    (o : Option ℕ) (c : Conversation) (s : GdmSession)
    → Inv o s
    → lookup s.conversations c.service_name ≡ some c
    → is_ready open_session c.number s.log ≡ true
    → Ensures (λ _ t. Inv o t) (open_found (lookup s.conversations c.service_name) s)
opening-Inv o c s h e k =
    subst (λ (d : Option Conversation). Ensures (λ _ t. Inv o t) (open_found d s)) (sym e)
      (open_found-Inv o c s (record {
        inv = h;
        known = lookup-IsKnown s.log s.conversations c.service_name c h.known e;
        ready = k;
      }))

module _ (o : Option ℕ) (c : Conversation) where
  -- What a callback does, from a state in which its conversation is found by its own name.
  abbrev pub KeepsFound : S (Unit {0}) → Type 0
  KeepsFound m =
      (s : GdmSession)
      → Inv o s
      → lookup s.conversations c.service_name ≡ some c
      → Ensures (λ _ s'. Inv o s') (m s)

  same_number : (c.number == c.number) ≡ true
  same_number = (==_iff c.number c.number).1 refl

  pub on_authenticate_cb-KeepsFound : (r : Option Failure) → KeepsFound (on_authenticate_cb c r)
  unfolding on_authenticate_cb gdm_session_authorize
  on_authenticate_cb-KeepsFound none s h e =
      call_own-Inv o c authorize _ (logged o (authenticated c.number) s h tt) e (rw same_number)
  on_authenticate_cb-KeepsFound (some failure) s h e =
      (bind-Keeps o _ _
          (when-Keeps o (not (is_unavailable failure)) _
            (emit-Keeps o (signal (codes "authentication-failed")) refl))
          (λ _. report_and_stop_conversation-Keeps o c.service_name failure)).keeps
        s h

  pub on_authorize_cb-KeepsFound : (r : Option Failure) → KeepsFound (on_authorize_cb c r)
  unfolding on_authorize_cb gdm_session_accredit
  on_authorize_cb-KeepsFound none s h e =
      call_own-Inv o c establish_credentials _ (logged o (authorized c.number) s h tt) e
        (rw same_number)
  on_authorize_cb-KeepsFound (some failure) s h e =
      (report_and_stop_conversation-Keeps o c.service_name failure).keeps s h

  verified-KeepsFound :
      (mode : VerificationMode) (s : GdmSession)
      → Inv o s
      → lookup s.conversations c.service_name ≡ some c
      → is_ready open_session c.number s.log ≡ true
      → Ensures (λ _ s'. Inv o s') (verified c mode s)
  unfolding gdm_session_open_session
  verified-KeepsFound login s h e k = opening-Inv o c s h e k
  verified-KeepsFound chooser s h e k = h
  verified-KeepsFound reauthenticate s h e k =
      (when-Keeps o s.has_user_verifier _
          (emit-Keeps o (signal (codes "verification-complete")) refl)).keeps
        s h

  pub on_establish_credentials_cb-KeepsFound :
      (r : Option Failure) → KeepsFound (on_establish_credentials_cb c r)
  unfolding on_establish_credentials_cb
  on_establish_credentials_cb-KeepsFound none s h e =
      verified-KeepsFound s.verification_mode _
        (logged o (signal (codes "credentials-established")) _
          (logged o (accredited c.number) s h tt) tt)
        e (rw same_number)
  on_establish_credentials_cb-KeepsFound (some failure) s h e =
      (report_and_stop_conversation-Keeps o c.service_name failure).keeps s h

  forget_starting-Keeps :
      Keeps o (update_conversation c.number (λ d. record d { starting_invocation = none }))
  forget_starting-Keeps = change-Keeps o c.number _ (λ d. refl) (λ d. refl) (λ d. refl)

  initialized-Inv :
      (s : GdmSession)
      → Inv o s
      → lookup s.conversations c.service_name ≡ some c
      → Ensures
          (λ _ s'. Inv o s')
          ((emit (initialized c.number)
              >> (emit (signal (codes "setup-complete"))
                  >> gdm_session_authenticate c.service_name))
            s)
  unfolding gdm_session_authenticate
  initialized-Inv s h e =
      call_own-Inv o c authenticate _
        (logged o (signal (codes "setup-complete")) _ (logged o (initialized c.number) s h tt) tt) e
        (rw same_number)

  answered_starting-Inv :
      (i : Option ℕ) (r : Option Failure) (s : GdmSession)
      → Inv o s
      → lookup s.conversations c.service_name ≡ some c
      → Ensures
          (λ _ s'. Inv o s' × (lookup s'.conversations c.service_name ≡ some c))
          (return_starting i r s)
  answered_starting-Inv none r s h e = (h, e)
  answered_starting-Inv (some i) none s h e = (logged o (returned i) s h tt, e)
  answered_starting-Inv (some i) (some failure) s h e = (logged o (refused i) s h tt, e)

  -- What follows the answer to the client.
  abbrev proceed : Option Failure → S (Unit {0})
  proceed none =
      emit (initialized c.number)
      >> (emit (signal (codes "setup-complete")) >> gdm_session_authenticate c.service_name)
  proceed (some failure) = report_and_stop_conversation c.service_name failure

  proceed-KeepsFound : (r : Option Failure) → KeepsFound (proceed r)
  proceed-KeepsFound none s h e = initialized-Inv s h e
  proceed-KeepsFound (some failure) s h e =
      (report_and_stop_conversation-Keeps o c.service_name failure).keeps s h

  abbrev forget : S (Unit {0})
  forget = update_conversation c.number (λ d. record d { starting_invocation = none })

  proceed-forget-KeepsFound :
      (q : Option Failure)
      → KeepsFound (return_starting c.starting_invocation q >>= λ _. proceed q >>= λ _. forget)
  proceed-forget-KeepsFound q s h e =
      Ensures-bind (λ _ s'. Inv o s' × (lookup s'.conversations c.service_name ≡ some c))
        (λ _ s'. Inv o s') (return_starting c.starting_invocation q)
        (λ _. proceed q >>= λ _. forget) s (answered_starting-Inv c.starting_invocation q s h e)
        (λ _ s' p.
          Ensures-bind (λ _ t. Inv o t) (λ _ t. Inv o t) (proceed q) (λ _. forget) s'
            (proceed-KeepsFound q s' p.0 p.1) (λ _ t j. forget_starting-Keeps.keeps t j))

  pub on_initialization_complete_cb-KeepsFound :
      (r : Option Failure) → KeepsFound (on_initialization_complete_cb c r)
  unfolding on_initialization_complete_cb
  on_initialization_complete_cb-KeepsFound none s h e = proceed-forget-KeepsFound none s h e
  on_initialization_complete_cb-KeepsFound (some failure) s h e =
      proceed-forget-KeepsFound (some failure) s h e
