-- ===== src/Session/Keeps.antt =====
-- Operations of daemon/gdm-session.c that keep the invariant of the table and of the log.
use gdm.Base.{
  ℕ, ◌≡◌, refl, ◌∙◌, sym, subst, Option, none, some, Bool, true, false, List, ◌∷◌, Bytes, codes,
  pure, read, modify, when, g_assert, ◌>>=◌, Ensures, Ensures-bind,
}
use mathlib.Core.Option.{some-injective}
use gdm.Session.State.{
  Conversation, Request, Effect, call, stopped, signal, Table, GdmSession, S, emit, lookup,
  update_table, update_conversation, call_worker, call_found, Failure, stop_conversation,
  gdm_session_stop_conversation, report_and_stop_conversation, stop_found, report_name,
}
use gdm.Session.Events.{require}
use gdm.Session.Order.{
  Inv, IsMild, IsNoted, Justified, is_ready, is_registered, AreKeyed-update, AreKnown-update,
  AreKnown-log, IsNoted-log, lookup-IsKnown, IsKnown, AreKeyed, AreKnown, IsOrdered,
}

-- The invariant is kept from every state.
pub record Keeps {A : Type 0} (o : Option ℕ) (m : S A) : Type 0 where
  pub keeps : (s : GdmSession) → Inv o s → Ensures (λ (a : A) s'. Inv o s') (m s)

-- An entry of the log that is no call.
abbrev pub is_quiet : Effect → Bool
is_quiet (call n r) = false
is_quiet _ = true

pub logged :
    (o : Option ℕ) (e : Effect) (s : GdmSession)
    → Inv o s
    → Justified e s.log
    → Inv o (record s { log = e ∷ s.log })
logged o e s h j = record {
  keyed = h.keyed;
  known = AreKnown-log e s.log s.conversations h.known;
  ordered = (j, h.ordered);
  noted = IsNoted-log e s.log o h.noted;
}

quiet-Justified : (e : Effect) (log : List Effect) → is_quiet e ≡ true → Justified e log
quiet-Justified (call n r) log h = cc
quiet-Justified _ log h = tt

module _ (o : Option ℕ) where
  pub emit-Keeps : (e : Effect) → is_quiet e ≡ true → Keeps o (emit e)
  emit-Keeps e q = record { keeps = λ s h. logged o e s h (quiet-Justified e s.log q) }

  pub pure-Keeps : {A : Type 0} (a : A) → Keeps o (pure a)
  pure-Keeps a = record { keeps = λ s h. h }

  pub read-Keeps : {A : Type 0} (f : GdmSession → A) → Keeps o (read f)
  read-Keeps f = record { keeps = λ s h. h }

  pub bind-Keeps :
      {A B : Type 0} (m : S A) (f : A → S B)
      → Keeps o m
      → ((a : A) → Keeps o (f a))
      → Keeps o (m >>= f)
  bind-Keeps m f h k = record {
    keeps = λ s i.
        Ensures-bind (λ a s'. Inv o s') (λ b s'. Inv o s') m f s (h.keeps s i)
          (λ a s' j. (k a).keeps s' j);
  }

  pub when-Keeps : (b : Bool) (m : S (Unit {0})) → Keeps o m → Keeps o (when b m)
  when-Keeps true m k = record { keeps = λ s h. k.keeps s h }
  when-Keeps false m k = record { keeps = λ s h. h }

  pub require-Keeps : {A : Type 0} (a : Option A) → Keeps o (require a)
  require-Keeps none = record { keeps = λ s h. tt }
  require-Keeps (some a) = record { keeps = λ s h. h }

  pub g_assert-Keeps : (b : Bool) → Keeps o (g_assert b)
  g_assert-Keeps true = record { keeps = λ s h. h }
  g_assert-Keeps false = record { keeps = λ s h. tt }

  -- A write that leaves the table and the log alone.
  pub modify-Keeps :
      (f : GdmSession → GdmSession)
      → ((s : GdmSession) → (f s).conversations ≡ s.conversations)
      → ((s : GdmSession) → (f s).log ≡ s.log)
      → Keeps o (modify f)
  modify-Keeps f t l = record {
    keeps = λ s h. record {
      keyed = subst AreKeyed (sym (t s)) h.keyed;
      known =
          subst (λ (u : Table). AreKnown (f s).log u) (sym (t s))
            (subst (λ (g : List Effect). AreKnown g s.conversations) (sym (l s)) h.known);
      ordered = subst IsOrdered (sym (l s)) h.ordered;
      noted = subst (IsNoted o) (sym (l s)) h.noted;
    };
  }

  pub update-Inv :
      (n : ℕ) (f : Conversation → Conversation) (s : GdmSession)
      → IsMild n s.log f
      → Inv o s
      → Inv o (record s { conversations = update_table n f s.conversations })
  update-Inv n f s mild h = record {
    keyed = AreKeyed-update n f s.log mild s.conversations h.keyed;
    known = AreKnown-update n f s.log mild s.conversations h.known;
    ordered = h.ordered;
    noted = h.noted;
  }

  pub update-Keeps :
      (n : ℕ) (f : Conversation → Conversation)
      → ((log : List Effect) → IsMild n log f)
      → Keeps o (update_conversation n f)
  update-Keeps n f mild = record { keeps = λ s h. update-Inv n f s (mild s.log) h }

  -- A change of a conversation that leaves its name, its number and its connection.
  pub change-Keeps :
      (n : ℕ) (f : Conversation → Conversation)
      → ((d : Conversation) → (f d).service_name ≡ d.service_name)
      → ((d : Conversation) → (f d).number ≡ d.number)
      → ((d : Conversation) → (f d).is_connected ≡ d.is_connected)
      → Keeps o (update_conversation n f)
  change-Keeps n f names numbers connections = update-Keeps n f (λ log. record {
    names = names;
    knows = λ d e k i.
        subst (λ (m : ℕ). is_registered m log ≡ true) (sym (numbers d))
          (k (sym (connections d) ∙ i));
  })

  -- A call in a conversation that is known, and whose step before has worked.
  pub call_worker-Inv :
      (c : Conversation) (r : Request) (s : GdmSession)
      → Inv o s
      → IsKnown s.log (some c)
      → is_ready r c.number s.log ≡ true
      → Ensures (λ _ s'. Inv o s') (call_worker c r s)
  call_worker-Inv c r s h k e = go c.is_connected refl
    where
      go :
          (b : Bool)
          → c.is_connected ≡ b
          → Ensures (λ _ s'. Inv o s') (when b (emit (call c.number r)) s)
      go true i = logged o (call c.number r) s h (k i, e)
      go false i = h

  -- A call in the conversation of a name, by what is found there.
  pub call_found-Inv :
      (service : Bytes) (r : Request) (s : GdmSession)
      → Inv o s
      → ((c : Conversation)
          → lookup s.conversations service ≡ some c
          → is_ready r c.number s.log ≡ true)
      → Ensures (λ _ s'. Inv o s') (call_found (lookup s.conversations service) r s)
  call_found-Inv service r s h k = go (lookup s.conversations service) refl
    where
      go :
          (c : Option Conversation)
          → lookup s.conversations service ≡ c
          → Ensures (λ _ s'. Inv o s') (call_found c r s)
      go none e = h
      go (some c) e =
          call_worker-Inv c r s h (lookup-IsKnown s.log s.conversations service c h.known e) (k c e)

  -- A call in a conversation that is found by its own name.
  pub call_own-Inv :
      (c : Conversation) (r : Request) (s : GdmSession)
      → Inv o s
      → lookup s.conversations c.service_name ≡ some c
      → is_ready r c.number s.log ≡ true
      → Ensures (λ _ s'. Inv o s') (call_found (lookup s.conversations c.service_name) r s)
  call_own-Inv c r s h e k = call_found-Inv c.service_name r s h (λ d g.
      subst (λ (x : Conversation). is_ready r x.number s.log ≡ true)
        (some-injective c d (sym e ∙ g)) k)

  stopping-IsMild :
      (n : ℕ) (log : List Effect)
      → IsMild n log (λ d. record d { is_connected = false; is_stopping = true })
  stopping-IsMild n log = record { names = λ d. refl; knows = λ d e k i. absurd (differ i) }
    where
      differ : false ≡ true → ⊥
      differ i = cc

  pub stop_conversation-Keeps : (c : Conversation) → Keeps o (stop_conversation c)
  unfolding stop_conversation
  stop_conversation-Keeps c =
      bind-Keeps _ _ (update-Keeps c.number _ (stopping-IsMild c.number))
        (λ _. emit-Keeps (stopped c.number) refl)

  stop_found-Keeps : (c : Option Conversation) → Keeps o (stop_found c)
  stop_found-Keeps none = pure-Keeps tt
  stop_found-Keeps (some c) = stop_conversation-Keeps c

  pub gdm_session_stop_conversation-Keeps :
      (service : Bytes) → Keeps o (gdm_session_stop_conversation service)
  unfolding gdm_session_stop_conversation
  gdm_session_stop_conversation-Keeps service =
      bind-Keeps _ _ (read-Keeps (λ s. lookup s.conversations service)) stop_found-Keeps

  pub report_and_stop_conversation-Keeps :
      (service : Bytes) (failure : Failure) → Keeps o (report_and_stop_conversation service failure)
  unfolding report_and_stop_conversation
  report_and_stop_conversation-Keeps service failure =
      bind-Keeps _ _ (read-Keeps (λ s. s.has_user_verifier)) (λ v.
        bind-Keeps _ _
          (when-Keeps v _ (
            bind-Keeps _ _ (emit-Keeps (signal (report_name failure)) refl)
              (λ _. emit-Keeps (signal (codes "verification-failed")) refl)))
          (λ _. gdm_session_stop_conversation-Keeps service))

pub ruleset keeping = (
  bind-Keeps, emit-Keeps, pure-Keeps, read-Keeps, when-Keeps, require-Keeps, g_assert-Keeps,
  modify-Keeps, change-Keeps, gdm_session_stop_conversation-Keeps,
  report_and_stop_conversation-Keeps, stop_conversation-Keeps,
)
