-- ===== src/Login/Meanwhile.antt =====
-- What else happens to a session of daemon/gdm-session.c while a call of its worker is pending: PAM's
-- queries and their answers, what the worker reads of the user's settings, the greeter's calls.
use gdm.Base.{
  ℕ, ◌≡◌, ◌⊎◌, ◌&&◌, refl, subst, Option, none, some, Bool, true, false, not, List, [], ◌∷◌, Bytes,
  codes, same_bytes, is_some, ap, pure, read, modify, when, g_assert, if◌then◌else◌, ◌>>=◌, ◌>>◌,
  Ensures, Ensures-bind, arith,
}
use gdm.Session.Types.{
  System, Choice, supports_session_type, get_session_name, get_default_session_name,
  get_session_command_for_name,
}
use gdm.Session.State.{
  Table, Conversation, Request, open_session, Effect, call, opened, signal, returned, refused,
  GdmSession, S, emit, lookup, find_by_number,
}
use gdm.Session.Events.{
  require, set_session_type, is_wayland_session, update_session_type, defaults_changed,
}
use gdm.Session.Loop.{
  Event, handle, run, worker_on_username_changed, set_saved_session, take_saved_type,
  worker_on_saved_session_name_read, tell_name, tell_names, gdm_session_select_session,
  set_pending_query, handle_query, answer_pending, answer_in, answer_query, unless_running,
  read_language, in_conversation, if_alive, query, answer, cancel_query, username_changed,
  saved_language_read, saved_session_read, saved_type_read, select_session_call, select_user_call,
  cancel_pending_query,
}
use gdm.Worker.{Reply}
use gdm.Login.{Round, callback_of, resume, sent}
use gdm.Login.Exchange.{before, after, is_step, is_error}
use gdm.Login.Callbacks.{openings, Quiet, Quiet-trans, Follows, callback-Follows}

-- The events that come while a call is pending.
abbrev pub comes_meanwhile : Event → Bool
comes_meanwhile (query service invocation) = true
comes_meanwhile (answer service text) = true
comes_meanwhile (cancel_query n) = true
comes_meanwhile (username_changed n text) = true
comes_meanwhile (saved_language_read n text) = true
comes_meanwhile (saved_session_read n text) = true
comes_meanwhile (saved_type_read n text) = true
comes_meanwhile (select_session_call invocation text) = true
comes_meanwhile (select_user_call invocation text) = true
comes_meanwhile _ = false

-- Entries of the log that count as a call or as an opening.
abbrev is_loud : Effect → Bool
is_loud (call n r) = true
is_loud (opened n) = true
is_loud _ = false

logged-Quiet :
    (n : ℕ) (e : Effect) (s : GdmSession)
    → is_loud e ≡ false
    → Quiet n s (record s { log = e ∷ s.log })
unfolding sent openings
logged-Quiet n (call m r) s q = cc
logged-Quiet n (opened m) s q = cc
logged-Quiet n _ s q = record { same_sent = refl; same_openings = refl }

module _ (n : ℕ) where
  record Hushed {A : Type 0} (m : S A) : Type 0 where
    hushes : (s : GdmSession) → Ensures (λ (a : A) s'. Quiet n s s') (m s)

  idem-Quiet : (s : GdmSession) → Quiet n s s
  idem-Quiet s = record { same_sent = refl; same_openings = refl }

  emit-Hushed : (e : Effect) → is_loud e ≡ false → Hushed (emit e)
  emit-Hushed e q = record { hushes = λ s. logged-Quiet n e s q }

  pure-Hushed : {A : Type 0} (a : A) → Hushed (pure a)
  pure-Hushed a = record { hushes = λ s. idem-Quiet s }

  read-Hushed : {A : Type 0} (f : GdmSession → A) → Hushed (read f)
  read-Hushed f = record { hushes = λ s. idem-Quiet s }

  Quiet-after :
      {A : Type 0} (s t : GdmSession) (r : Option (A × GdmSession))
      → Quiet n s t
      → Ensures (λ _ u. Quiet n t u) r
      → Ensures (λ _ u. Quiet n s u) r
  Quiet-after s t none q h = tt
  Quiet-after s t (some (a, u)) q h = Quiet-trans n q h

  bind-Hushed :
      {A B : Type 0} (m : S A) (f : A → S B)
      → Hushed m
      → ((a : A) → Hushed (f a))
      → Hushed (m >>= f)
  bind-Hushed m f h k = record {
    hushes = λ s.
        Ensures-bind (λ _ t. Quiet n s t) (λ _ u. Quiet n s u) m f s (h.hushes s)
          (λ a t q. Quiet-after s t (f a t) q ((k a).hushes t));
  }

  when-Hushed : (b : Bool) (m : S (Unit {0})) → Hushed m → Hushed (when b m)
  when-Hushed true m k = record { hushes = λ s. k.hushes s }
  when-Hushed false m k = record { hushes = λ s. idem-Quiet s }

  require-Hushed : {A : Type 0} (a : Option A) → Hushed (require a)
  require-Hushed none = record { hushes = λ s. tt }
  require-Hushed (some a) = record { hushes = λ s. idem-Quiet s }

  g_assert-Hushed : (b : Bool) → Hushed (g_assert b)
  g_assert-Hushed true = record { hushes = λ s. idem-Quiet s }
  g_assert-Hushed false = record { hushes = λ s. tt }

  -- A write that leaves the log alone.
  modify-Hushed :
      (f : GdmSession → GdmSession) → ((s : GdmSession) → (f s).log ≡ s.log) → Hushed (modify f)
  modify-Hushed f l = record {
    hushes = λ s. record { same_sent = ap (sent n) (l s); same_openings = ap (openings n) (l s) };
  }

ruleset hushing = (
  bind-Hushed, emit-Hushed, pure-Hushed, read-Hushed, when-Hushed, require-Hushed, g_assert-Hushed,
  modify-Hushed,
)

module _ (n : ℕ) where
  answer_pending-Hushed :
      (m : ℕ) (i : Option ℕ) (t : Option Bytes) → Hushed n (answer_pending m i t)
  answer_pending-Hushed m none t = pure-Hushed n tt
  answer_pending-Hushed m (some i) t = search hushing depth 14 fits 3000

  answer_in-Hushed : (c : Option Conversation) (t : Option Bytes) → Hushed n (answer_in c t)
  answer_in-Hushed none t = pure-Hushed n tt
  answer_in-Hushed (some c) t = answer_pending-Hushed c.number c.pending_invocation t

  set_pending_query-Hushed : (i : ℕ) (c : Option Conversation) → Hushed n (set_pending_query i c)
  set_pending_query-Hushed i none = pure-Hushed n tt
  set_pending_query-Hushed i (some c) = search hushing depth 14 fits 3000

  in_conversation-Hushed :
      (m : ℕ) (f : Conversation → S (Unit {0}))
      → ((c : Conversation) → Hushed n (f c))
      → Hushed n (in_conversation m f)
  in_conversation-Hushed m f k =
      bind-Hushed n _ _ (read-Hushed n (λ s. find_by_number s.conversations m)) go
    where
      go : (c : Option Conversation) → Hushed n (if_alive c f)
      go none = pure-Hushed n tt
      go (some c) = k c

  unless_running-Hushed : (i : ℕ) (f : S (Unit {0})) → Hushed n f → Hushed n (unless_running i f)
  unless_running-Hushed i f k =
      bind-Hushed n _ _ (read-Hushed n (λ s. s.session_pid)) (λ pid. go (is_some pid))
    where
      go :
          (b : Bool)
          → Hushed n (elim b [
            | true ↦ emit (refused i)
            | false ↦ read (λ s. s.has_greeter) >>= λ greeter. when greeter (emit (returned i)) >> f
          ])
      go true = emit-Hushed n (refused i) refl
      go false = bind-Hushed n _ _ (read-Hushed n (λ s. s.has_greeter)) (λ greeter.
          bind-Hushed n _ _ (when-Hushed n greeter _ (emit-Hushed n (returned i) refl)) (λ _. k))

  read_language-Hushed : (text : Bytes) → Hushed n (read_language text)
  read_language-Hushed [] = pure-Hushed n tt
  read_language-Hushed (b ∷ bs) = search hushing depth 14 fits 3000

  module _ (sys : System) where
    update_session_type-Hushed : Hushed n (update_session_type sys)
    unfolding update_session_type
    update_session_type-Hushed =
        bind-Hushed n _ _ (read-Hushed n (λ s. s.choice))
          (λ self. go self (supports_session_type self (some (codes "wayland"))))
      where
        go :
            (self : Choice) (b : Bool)
            → Hushed n (elim b [
              | false ↦ set_session_type (codes "x11")
              | true ↦ require (get_session_name sys self) >>= λ name.
                  set_session_type
                    (if is_wayland_session sys self name then codes "wayland" else codes "x11")
            ])
        go self false = modify-Hushed n _ (λ s. refl)
        go self true =
            bind-Hushed n _ _ (require-Hushed n _) (λ name. modify-Hushed n _ (λ s. refl))

    defaults_changed-Hushed : Hushed n (defaults_changed sys)
    unfolding defaults_changed
    defaults_changed-Hushed = search (hushing, update_session_type-Hushed) depth 14 fits 3000

    username_changed-Hushed : (text : Bytes) → Hushed n (worker_on_username_changed sys text)
    unfolding worker_on_username_changed
    username_changed-Hushed [] = defaults_changed-Hushed
    username_changed-Hushed (b ∷ bs) =
        bind-Hushed n _ _ (modify-Hushed n _ (λ s. refl)) (λ _. defaults_changed-Hushed)

    take_saved_type-Hushed : (t : Option Bytes) → Hushed n (take_saved_type sys t)
    take_saved_type-Hushed none = update_session_type-Hushed
    take_saved_type-Hushed (some t) = modify-Hushed n _ (λ s. refl)

    saved_session-Hushed : (name : Bytes) → Hushed n (worker_on_saved_session_name_read sys name)
    unfolding worker_on_saved_session_name_read
    saved_session-Hushed name = bind-Hushed n _ _ (read-Hushed n (λ s. s.choice)) (λ self.
        bind-Hushed n _ _ (read-Hushed n (λ s. s.saved_session_type))
          (λ type. go self type (is_some (get_session_command_for_name sys self name type))))
      where
        go :
            (self : Choice) (type : Option Bytes) (b : Bool)
            → Hushed n (elim b [
              | false ↦ set_saved_session none >> update_session_type sys
              | true ↦ require (get_default_session_name sys self) >>= λ default.
                  when (not (same_bytes name default)) (
                    set_saved_session (some name)
                    >> (read (λ s. s.has_greeter) >>= λ greeter.
                        when greeter (emit (signal (codes "default-session-name-changed")))))
                  >> take_saved_type sys type
            ])
        go self type false =
            bind-Hushed n _ _ (modify-Hushed n _ (λ s. refl)) (λ _. update_session_type-Hushed)
        go self type true = search (hushing, take_saved_type-Hushed) depth 24 fits 5000

    tell_names-Hushed : (t : Table) → Hushed n (tell_names sys t)
    unfolding tell_names
    tell_names-Hushed [] = pure-Hushed n tt
    tell_names-Hushed ((key, none) ∷ t) = require-Hushed n none
    tell_names-Hushed ((key, some c) ∷ t) = bind-Hushed n _ _ told_name (λ _. tell_names-Hushed t)
      where
        told_name : Hushed n (tell_name sys c)
        told_name = search hushing depth 24 fits 5000

    handle-Hushed : (e : Event) → comes_meanwhile e ≡ true → Hushed n (handle sys e)
    unfolding handle handle_query answer_query cancel_pending_query gdm_session_select_session
    handle-Hushed (query service i) m =
        search (hushing, set_pending_query-Hushed) depth 14 fits 3000
    handle-Hushed (answer service text) m =
        bind-Hushed n _ _ (read-Hushed n (λ s. lookup s.conversations service))
          (λ c. answer_in-Hushed c text)
    handle-Hushed (cancel_query k) m =
        in_conversation-Hushed k _ (λ c. answer_pending-Hushed c.number c.pending_invocation none)
    handle-Hushed (username_changed k text) m =
        in_conversation-Hushed k _ (λ c. username_changed-Hushed text)
    handle-Hushed (saved_language_read k text) m =
        in_conversation-Hushed k _ (λ c. read_language-Hushed text)
    handle-Hushed (saved_session_read k text) m =
        in_conversation-Hushed k _ (λ c. saved_session-Hushed text)
    handle-Hushed (saved_type_read k text) m =
        in_conversation-Hushed k _ (λ c. modify-Hushed n _ (λ s. refl))
    handle-Hushed (select_session_call i text) m = unless_running-Hushed i _ (
        bind-Hushed n _ _ (modify-Hushed n _ (λ s. refl)) (λ _.
          bind-Hushed n _ _ update_session_type-Hushed
            (λ _. bind-Hushed n _ _ (read-Hushed n (λ s. s.conversations)) tell_names-Hushed)))
    handle-Hushed (select_user_call i text) m =
        unless_running-Hushed i _ (modify-Hushed n _ (λ s. refl))
    handle-Hushed _ m = cc

abbrev pub all_meanwhile : List (System × Event) → Bool
all_meanwhile [] = true
all_meanwhile ((sys, e) ∷ es) = comes_meanwhile e && all_meanwhile es

-- In all rounds, only such events come before the answer.
abbrev pub are_meanwhile : List Round → Bool
are_meanwhile [] = true
are_meanwhile (round ∷ rounds) = all_meanwhile round.meanwhile && are_meanwhile rounds

run-Quiet :
    (n : ℕ) (es : List (System × Event)) (s : GdmSession)
    → all_meanwhile es ≡ true
    → Ensures (λ _ s'. Quiet n s s') (run es s)
unfolding run
run-Quiet n [] s m = idem-Quiet n s
run-Quiet n ((sys, e) ∷ es) s m =
    Ensures-bind (λ _ t. Quiet n s t) (λ _ u. Quiet n s u) (handle sys e) (λ _. run es) s
      ((handle-Hushed n sys e (ground arith)).hushes s)
      (λ _ t q. Quiet-after n s t (run es t) q (run-Quiet n es t (ground arith)))

Follows-after :
    (n : ℕ) (r : Request) (reply : Reply) (s t : GdmSession) (o : Option (Unit {0} × GdmSession))
    → Quiet n s t
    → Ensures (λ _ u. Follows n r reply t u) o
    → Ensures (λ _ u. Follows n r reply s u) o
Follows-after n r reply s t none q h = tt
Follows-after n r reply s t (some (_, u)) q h = record {
  calls =
      subst
        (λ (k : List Request).
          (sent n u.log ≡ k)
          ⊎ ((is_error reply ≡ false)
              × ((r' : Request) × (sent n u.log ≡ r' ∷ k)
                  × (before r' ≡ after r)
                  × (is_step r' ≡ true))))
        q.same_sent h.calls;
  opens =
      subst (λ (k : ℕ). (openings n u.log ≡ k) ⊎ ((r ≡ open_session) × (is_error reply ≡ false)))
        q.same_openings h.opens;
}

-- What comes before the answer leaves the course of the calls to the callback.
pub resume-Follows :
    (n : ℕ) (round : Round) (r : Request) (reply : Reply) (s : GdmSession)
    → is_step r ≡ true
    → all_meanwhile round.meanwhile ≡ true
    → Ensures (λ _ s'. Follows n r reply s s') (resume n round r reply s)
unfolding resume
resume-Follows n round r reply s k m =
    Ensures-bind (λ _ t. Quiet n s t) (λ _ u. Follows n r reply s u) (run round.meanwhile) _ s
      (run-Quiet n round.meanwhile s m)
      (λ _ t q.
        Follows-after n r reply s t (handle round.system (callback_of n r reply) t) q
          (callback-Follows n round.system r reply t k))
