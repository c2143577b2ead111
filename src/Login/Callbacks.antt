-- ===== src/Login/Callbacks.antt =====
-- The callbacks of daemon/gdm-session.c: which call follows which answer, and when a session counts
-- as opened.
use gdm.Base.{
  ℕ, suc, ◌≡◌, ◌⊎◌, ◌∙◌, inl, inr, refl, ap, Option, none, some, Bool, true, false, ◌==◌, List, [],
  ◌∷◌, Bytes, arith, when, length, not, codes, Ensures, Ensures-bind, ◌>>◌,
}
use gdm.Worker.{Reply}
use gdm.Session.Types.{System}
use gdm.Session.State.{
  Setting, told, tell_worker, send_display_mode, send_session_type, open_found, Conversation,
  Request, initialize, authenticate, authorize, establish_credentials, open_session, start_program,
  Effect, opened, signal, authenticated, authorized, accredited, initialized, login, chooser,
  reauthenticate, GdmSession, S, emit, lookup, find_by_number, update_table, call_found,
  stop_conversation, gdm_session_stop_conversation, Failure, report_and_stop_conversation,
  gdm_session_authenticate, gdm_session_authorize, gdm_session_accredit, gdm_session_open_session,
  VerificationMode,
}
use gdm.Session.Events.{
  on_initialization_complete_cb, on_authenticate_cb, on_authorize_cb, on_establish_credentials_cb,
  on_opened, Opening, opened_as, not_opened, return_starting, verified, is_unavailable,
}
use gdm.Session.Loop.{handle, if_alive, in_conversation}
use gdm.Login.{callback_of, sent, newest, failure_of, opening_of}
use gdm.Login.Exchange.{before, after, is_step, is_error}

abbrev count_if : Bool → ℕ → ℕ
count_if true m = suc m
count_if false m = m

-- How often the session of the conversation n was reported to be open.
unfoldable pub openings : ℕ → List Effect → ℕ
openings n [] = 0
openings n (opened m ∷ log) = count_if (m == n) (openings n log)
openings n (_ ∷ log) = openings n log

module _ (n : ℕ) where
  -- Nothing is called in the conversation, and no opening reported.
  pub record Quiet (s s' : GdmSession) : Type 0 where
    pub same_sent : sent n s'.log ≡ sent n s.log
    pub same_openings : openings n s'.log ≡ openings n s.log

  -- At most the call `r` is made.
  record Makes (r : Request) (s s' : GdmSession) : Type 0 where
    made : (sent n s'.log ≡ sent n s.log) ⊎ (sent n s'.log ≡ r ∷ sent n s.log)
    unopened : openings n s'.log ≡ openings n s.log

  report-Quiet :
      (service : Bytes) (failure : Failure) (s : GdmSession)
      → Ensures (λ _ s'. Quiet s s') (report_and_stop_conversation service failure s)
  unfolding report_and_stop_conversation gdm_session_stop_conversation stop_conversation sent
      openings
  report-Quiet service failure s = ground arith

  call_worker-Makes :
      (c : Option Conversation) (r : Request) (s : GdmSession)
      → Ensures (λ _ s'. Makes r s s') (call_found c r s)
  unfolding sent openings
  call_worker-Makes none r s = ground arith
  call_worker-Makes (some c) r s = ground arith

-- What a callback leaves: the call that comes next, if any, follows a success; and an opening is
-- reported only for a success of Open.
pub record Follows (n : ℕ) (r : Request) (reply : Reply) (s s' : GdmSession) : Type 0 where
  pub calls :
      (sent n s'.log ≡ sent n s.log)
      ⊎ ((is_error reply ≡ false)
          × ((r' : Request) × (sent n s'.log ≡ r' ∷ sent n s.log)
              × (before r' ≡ after r)
              × (is_step r' ≡ true)))
  pub opens :
      (openings n s'.log ≡ openings n s.log) ⊎ ((r ≡ open_session) × (is_error reply ≡ false))

implied :
    {A : Type 0} (P Q : A → GdmSession → Type 0) (r : Option (A × GdmSession))
    → ((a : A) (s : GdmSession) → P a s → Q a s)
    → Ensures P r
    → Ensures Q r
implied P Q none k h = tt
implied P Q (some (a, s)) k h = k a s h

pub Quiet-trans : (n : ℕ) {s t u : GdmSession} → Quiet n s t → Quiet n t u → Quiet n s u
Quiet-trans n q p = record {
  same_sent = p.same_sent ∙ q.same_sent;
  same_openings = p.same_openings ∙ q.same_openings;
}

module _ (n : ℕ) (r : Request) (reply : Reply) where
  idem-Follows : (s : GdmSession) → Follows n r reply s s
  idem-Follows s = record { calls = inl refl; opens = inl refl }

  Quiet-Follows : {s s' : GdmSession} → Quiet n s s' → Follows n r reply s s'
  Quiet-Follows q = record { calls = inl q.same_sent; opens = inl q.same_openings }

  Makes-Follows :
      (r' : Request) (s s1 s' : GdmSession)
      → is_error reply ≡ false
      → before r' ≡ after r
      → is_step r' ≡ true
      → Quiet n s s1
      → Makes n r' s1 s'
      → Follows n r reply s s'
  Makes-Follows r' s s1 s' e b k q m = record {
    calls = elim m.made [
      | inl h ↦ inl (h ∙ q.same_sent)
      | inr h ↦ inr (e, (r', h ∙ ap (λ (t : List Request). r' ∷ t) q.same_sent, b, k))
    ];
    opens = inl (m.unopened ∙ q.same_openings);
  }

  reported-Follows :
      (service : Bytes) (failure : Failure) (s s1 : GdmSession)
      → Quiet n s s1
      → Ensures (λ _ s'. Follows n r reply s s') (report_and_stop_conversation service failure s1)
  reported-Follows service failure s s1 q =
      implied (λ _ s'. Quiet n s1 s') (λ _ s'. Follows n r reply s s')
        (report_and_stop_conversation service failure s1)
        (λ _ s' p. Quiet-Follows (Quiet-trans n q p)) (report-Quiet n service failure s1)

  called-Follows :
      (r' : Request) (c : Option Conversation) (s s1 : GdmSession)
      → is_error reply ≡ false
      → before r' ≡ after r
      → is_step r' ≡ true
      → Quiet n s s1
      → Ensures (λ _ s'. Follows n r reply s s') (call_found c r' s1)
  called-Follows r' c s s1 e b k q =
      implied (λ _ s'. Makes n r' s1 s') (λ _ s'. Follows n r reply s s') (call_found c r' s1)
        (λ _ s' m. Makes-Follows r' s s1 s' e b k q m) (call_worker-Makes n c r' s1)

logged-Quiet :
    (n : ℕ) (e : Effect) (s : GdmSession)
    → sent n (e ∷ s.log) ≡ sent n s.log
    → openings n (e ∷ s.log) ≡ openings n s.log
    → Quiet n s (record s { log = e ∷ s.log })
logged-Quiet n e s a b = record { same_sent = a; same_openings = b }

worked : (reply : Reply) → failure_of reply ≡ none → is_error reply ≡ false
worked (Reply.error code message) e = cc
worked _ e = refl

opened_worked :
    (reply : Reply) {id : Bytes} → opening_of reply ≡ opened_as id → is_error reply ≡ false
opened_worked (Reply.error code message) e = cc
opened_worked _ e = refl

signal-Quiet :
    (n : ℕ) (b : Bool) (text : Bytes) (s : GdmSession)
    → Ensures (λ _ s'. Quiet n s s') (when b (emit (signal text)) s)
unfolding sent openings
signal-Quiet n true text s = logged-Quiet n (signal text) s refl refl
signal-Quiet n false text s = record { same_sent = refl; same_openings = refl }

tell_worker-Quiet :
    (n : ℕ) (c : Conversation) (x : Setting) (s : GdmSession)
    → Ensures (λ _ s'. Quiet n s s') (tell_worker c x s)
unfolding sent openings
tell_worker-Quiet n c x s = go c.is_connected
  where
    go : (b : Bool) → Ensures (λ _ s'. Quiet n s s') (when b (emit (told c.number x)) s)
    go true = logged-Quiet n (told c.number x) s refl refl
    go false = record { same_sent = refl; same_openings = refl }

starting-Quiet :
    (n : ℕ) (invocation : Option ℕ) (failure : Option Failure) (s : GdmSession)
    → Ensures (λ _ s'. Quiet n s s') (return_starting invocation failure s)
unfolding sent openings
starting-Quiet n none failure s = ground arith
starting-Quiet n (some i) none s = ground arith
starting-Quiet n (some i) (some failure) s = ground arith

module _ (n : ℕ) (c : Conversation) where
  -- What on_initialization_complete_cb does by the outcome.
  abbrev after_setup : Option Failure → S (Unit {0})
  after_setup none = do
    emit (initialized c.number)
    emit (signal (codes "setup-complete"))
    gdm_session_authenticate c.service_name
  after_setup (some failure) = report_and_stop_conversation c.service_name failure

  after_setup-Follows :
      (u : Option Bytes) (reply : Reply) (failure : Option Failure) (s s1 : GdmSession)
      → failure_of reply ≡ failure
      → Quiet n s s1
      → Ensures (λ _ s'. Follows n (initialize u) reply s s') (after_setup failure s1)
  unfolding gdm_session_authenticate sent openings
  after_setup-Follows u reply none s s1 e q =
      called-Follows n (initialize u) reply authenticate (lookup s1.conversations c.service_name) s
        (record s1 { log = signal (codes "setup-complete") ∷ initialized c.number ∷ s1.log })
        (worked reply e) refl refl
        (record { same_sent = q.same_sent; same_openings = q.same_openings })
  after_setup-Follows u reply (some failure) s s1 e q =
      reported-Follows n (initialize u) reply c.service_name failure s s1 q

  initialize_cb-Follows :
      (u : Option Bytes) (reply : Reply) (failure : Option Failure) (s : GdmSession)
      → failure_of reply ≡ failure
      → Ensures
          (λ _ s'. Follows n (initialize u) reply s s')
          (on_initialization_complete_cb c failure s)
  unfolding on_initialization_complete_cb
  initialize_cb-Follows u reply failure s e =
      Ensures-bind (λ _ s1. Quiet n s s1) (λ _ s'. Follows n (initialize u) reply s s')
        (return_starting c.starting_invocation failure) _ s
        (starting-Quiet n c.starting_invocation failure s)
        (λ _ s1 q.
          Ensures-bind (λ _ s2. Follows n (initialize u) reply s s2)
            (λ _ s'. Follows n (initialize u) reply s s') (after_setup failure) _ s1
            (after_setup-Follows u reply failure s s1 e q)
            (λ _ s2 f. record { calls = f.calls; opens = f.opens }))

  authenticate_cb-Follows :
      (reply : Reply) (failure : Option Failure) (s : GdmSession)
      → failure_of reply ≡ failure
      → Ensures (λ _ s'. Follows n authenticate reply s s') (on_authenticate_cb c failure s)
  unfolding on_authenticate_cb gdm_session_authorize sent openings
  authenticate_cb-Follows reply none s e =
      called-Follows n authenticate reply authorize (lookup s.conversations c.service_name) s
        (record s { log = authenticated c.number ∷ s.log }) (worked reply e) refl refl
        (logged-Quiet n (authenticated c.number) s refl refl)
  authenticate_cb-Follows reply (some failure) s e =
      Ensures-bind (λ _ s1. Quiet n s s1) (λ _ s'. Follows n authenticate reply s s')
        (when (not (is_unavailable failure)) (emit (signal (codes "authentication-failed")))) _ s
        (signal-Quiet n (not (is_unavailable failure)) (codes "authentication-failed") s)
        (λ _ s1 q. reported-Follows n authenticate reply c.service_name failure s s1 q)

  authorize_cb-Follows :
      (reply : Reply) (failure : Option Failure) (s : GdmSession)
      → failure_of reply ≡ failure
      → Ensures (λ _ s'. Follows n authorize reply s s') (on_authorize_cb c failure s)
  unfolding on_authorize_cb gdm_session_accredit sent openings
  authorize_cb-Follows reply none s e =
      called-Follows n authorize reply establish_credentials (lookup s.conversations c.service_name)
        s (record s { log = authorized c.number ∷ s.log }) (worked reply e) refl refl
        (logged-Quiet n (authorized c.number) s refl refl)
  authorize_cb-Follows reply (some failure) s e =
      reported-Follows n authorize reply c.service_name failure s s
        (record { same_sent = refl; same_openings = refl })

  opening-Follows :
      (reply : Reply) (found : Option Conversation) (s s1 : GdmSession)
      → is_error reply ≡ false
      → Quiet n s s1
      → Ensures (λ _ s'. Follows n establish_credentials reply s s') (open_found found s1)
  opening-Follows reply none s s1 e q = Quiet-Follows n establish_credentials reply q
  opening-Follows reply (some d) s s1 e q =
      Ensures-bind (λ _ t. Quiet n s1 t) (λ _ t. Follows n establish_credentials reply s t)
        (send_display_mode d) _ s1 (tell_worker-Quiet n d _ s1)
        (λ _ t a.
          Ensures-bind (λ _ u. Quiet n t u) (λ _ u. Follows n establish_credentials reply s u)
            (send_session_type d) _ t (tell_worker-Quiet n d _ t)
            (λ _ u b.
              called-Follows n establish_credentials reply open_session (some d) s u e refl refl
                (Quiet-trans n q (Quiet-trans n a b))))

  -- After the credentials the mode of the session decides.
  verified-Follows :
      (reply : Reply) (mode : VerificationMode) (s s1 : GdmSession)
      → is_error reply ≡ false
      → Quiet n s s1
      → Ensures (λ _ s'. Follows n establish_credentials reply s s') (verified c mode s1)
  unfolding gdm_session_open_session
  verified-Follows reply login s s1 e q =
      opening-Follows reply (lookup s1.conversations c.service_name) s s1 e q
  verified-Follows reply chooser s s1 e q = Quiet-Follows n establish_credentials reply q
  verified-Follows reply reauthenticate s s1 e q =
      implied (λ _ s'. Quiet n s1 s') (λ _ s'. Follows n establish_credentials reply s s')
        (when s1.has_user_verifier (emit (signal (codes "verification-complete"))) s1)
        (λ _ s' p. Quiet-Follows n establish_credentials reply (Quiet-trans n q p))
        (signal-Quiet n s1.has_user_verifier (codes "verification-complete") s1)

  establish_cb-Follows :
      (reply : Reply) (failure : Option Failure) (s : GdmSession)
      → failure_of reply ≡ failure
      → Ensures
          (λ _ s'. Follows n establish_credentials reply s s')
          (on_establish_credentials_cb c failure s)
  unfolding on_establish_credentials_cb sent openings
  establish_cb-Follows reply none s e =
      verified-Follows reply s.verification_mode s
        (record s { log = signal (codes "credentials-established") ∷ accredited c.number ∷ s.log })
        (worked reply e) (record { same_sent = refl; same_openings = refl })
  establish_cb-Follows reply (some failure) s e =
      reported-Follows n establish_credentials reply c.service_name failure s s
        (record { same_sent = refl; same_openings = refl })

  opened_cb-Follows :
      (reply : Reply) (opening : Opening) (s : GdmSession)
      → opening_of reply ≡ opening
      → Ensures (λ _ s'. Follows n open_session reply s s') (on_opened c opening s)
  unfolding on_opened sent openings
  opened_cb-Follows reply (not_opened failure) s e =
      Ensures-bind (λ _ s1. Follows n open_session reply s s1)
        (λ _ s'. Follows n open_session reply s s')
        (report_and_stop_conversation c.service_name failure) _ s
        (reported-Follows n open_session reply c.service_name failure s s
          (record { same_sent = refl; same_openings = refl }))
        (λ _ s1 f. record { calls = f.calls; opens = f.opens })
  opened_cb-Follows reply (opened_as id) s e =
      Ensures-bind (λ _ s1. Quiet n told s1) (λ _ s'. Follows n open_session reply s s')
        (when s.has_user_verifier (emit (signal (codes "verification-complete")))) _ told
        (signal-Quiet n s.has_user_verifier (codes "verification-complete") told)
        (λ _ s1 q. record { calls = inl q.same_sent; opens = inr (refl, opened_worked reply e) })
    where
      told : GdmSession
      told = record s {
        conversations =
            update_table c.number (λ d. record d { session_id = some id }) s.conversations;
        session_opened = some id;
        log = opened c.number ∷ s.log;
      }

module _ (n : ℕ) (sys : System) where
  -- A callback of a conversation that is freed comes to nothing.
  alive-Follows :
      (r : Request) (reply : Reply) (f : Conversation → S (Unit {0})) (s : GdmSession)
      → ((c : Conversation) → Ensures (λ _ s'. Follows n r reply s s') (f c s))
      → Ensures (λ _ s'. Follows n r reply s s') (in_conversation n f s)
  alive-Follows r reply f s k = go (find_by_number s.conversations n)
    where
      go : (c : Option Conversation) → Ensures (λ _ s'. Follows n r reply s s') (if_alive c f s)
      go none = idem-Follows n r reply s
      go (some c) = k c

  pub callback-Follows :
      (r : Request) (reply : Reply) (s : GdmSession)
      → is_step r ≡ true
      → Ensures (λ _ s'. Follows n r reply s s') (handle sys (callback_of n r reply) s)
  unfolding handle callback_of
  callback-Follows (initialize u) reply s k =
      alive-Follows (initialize u) reply _ s
        (λ c. initialize_cb-Follows n c u reply (failure_of reply) s refl)
  callback-Follows authenticate reply s k =
      alive-Follows authenticate reply _ s
        (λ c. authenticate_cb-Follows n c reply (failure_of reply) s refl)
  callback-Follows authorize reply s k =
      alive-Follows authorize reply _ s
        (λ c. authorize_cb-Follows n c reply (failure_of reply) s refl)
  callback-Follows establish_credentials reply s k =
      alive-Follows establish_credentials reply _ s
        (λ c. establish_cb-Follows n c reply (failure_of reply) s refl)
  callback-Follows open_session reply s k =
      alive-Follows open_session reply _ s
        (λ c. opened_cb-Follows n c reply (opening_of reply) s refl)
  callback-Follows (start_program command) reply s k = cc

pub newest_same : (old new : List Request) → new ≡ old → newest old new ≡ none
newest_same [] [] e = refl
newest_same [] (x ∷ xs) e = cc
newest_same (y ∷ ys) [] e = refl
newest_same (y ∷ ys) (x ∷ xs) e = ground (arith, ap length e)

pub newest_next : (old new : List Request) (r : Request) → new ≡ r ∷ old → newest old new ≡ some r
newest_next old [] r e = cc
newest_next old (x ∷ xs) r e = ground (arith, ap length e, e)
