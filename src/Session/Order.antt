-- ===== src/Session/Order.antt =====
-- The order of the calls that daemon/gdm-session.c makes to its workers: the invariant of the table and
-- of the log, and what keeps it.
use gdm.Base.{
  ℕ, ◌==◌, ◌≡◌, ==_iff, inl, inr, refl, ap, ◌∙◌, sym, subst, Option, none, some, Bool, true, false,
  ◌||◌, List, [], ◌∷◌, arith, if◌then◌else◌, Bytes, same_bytes, same_bytes_iff, Bool-cases,
}
use mathlib.Core.Option.{some-injective}
use gdm.Session.State.{
  Conversation, Request, initialize, authenticate, authorize, establish_credentials, open_session,
  start_program, Effect, registered, call, initialized, authenticated, authorized, accredited,
  Table, GdmSession, or_null, lookup, drop_key, without, find_by_number, update_entry, update_table,
}

-- The worker of the conversation is known by its connection.
abbrev pub tells_registered : ℕ → Effect → Bool
tells_registered n (registered m) = m == n
tells_registered n _ = false

-- The entry of the log that a request needs: the worker's answer that its step before worked.
abbrev pub tells_ready : Request → ℕ → Effect → Bool
tells_ready authenticate n (initialized m) = m == n
tells_ready authorize n (authenticated m) = m == n
tells_ready establish_credentials n (authorized m) = m == n
tells_ready open_session n (accredited m) = m == n
tells_ready _ n _ = false

abbrev pub has_told : (Effect → Bool) → List Effect → Bool
has_told f [] = false
has_told f (e ∷ log) = f e || has_told f log

abbrev pub is_ready : Request → ℕ → List Effect → Bool
is_ready (initialize username) n log = true
is_ready (start_program command) n log = true
is_ready r n log = has_told (tells_ready r n) log

abbrev pub is_registered : ℕ → List Effect → Bool
is_registered n log = has_told (tells_registered n) log

-- A call goes to a worker that is registered, whose step before has worked.
abbrev pub Justified : Effect → List Effect → Type 0
Justified (call n r) log = (is_registered n log ≡ true) × (is_ready r n log ≡ true)
Justified _ log = Unit {0}

abbrev pub IsOrdered : List Effect → Type 0
IsOrdered [] = Unit {0}
IsOrdered (e ∷ log) = Justified e log × IsOrdered log

abbrev pub has_key : Table → Bytes → Bool
has_key [] name = false
has_key ((key, c) ∷ table) name = same_bytes key name || has_key table name

abbrev pub IsNamed : Bytes → Option Conversation → Type 0
IsNamed key none = Unit {0}
IsNamed key (some c) = c.service_name ≡ key

-- Each conversation stands under its own name, and under no other.
abbrev pub AreKeyed : Table → Type 0
AreKeyed [] = Unit {0}
AreKeyed ((key, c) ∷ table) = IsNamed key c × (has_key table key ≡ false) × AreKeyed table

abbrev pub IsKnown : List Effect → Option Conversation → Type 0
IsKnown log none = Unit {0}
IsKnown log (some c) = c.is_connected ≡ true → is_registered c.number log ≡ true

abbrev pub AreKnown : List Effect → Table → Type 0
AreKnown log [] = Unit {0}
AreKnown log ((key, c) ∷ table) = IsKnown log c × AreKnown log table

-- A number that stays registered, if one is followed.
abbrev pub IsNoted : Option ℕ → List Effect → Type 0
IsNoted none log = Unit {0}
IsNoted (some n) log = is_registered n log ≡ true

pub record Inv (o : Option ℕ) (s : GdmSession) : Type 0 where
  pub keyed : AreKeyed s.conversations
  pub known : AreKnown s.log s.conversations
  pub ordered : IsOrdered s.log
  pub noted : IsNoted o s.log

-- The table: what is found by number is found by its name.
no_lookup : (t : Table) (name : Bytes) → has_key t name ≡ false → lookup t name ≡ none
unfolding lookup
no_lookup [] name h = refl
no_lookup ((key, c) ∷ t) name h = ground (arith, no_lookup t name)

found-has_key :
    (t : Table) (n : ℕ) (c : Conversation)
    → AreKeyed t
    → find_by_number t n ≡ some c
    → has_key t c.service_name ≡ true
unfolding find_by_number
found-has_key [] n c k e = cc
found-has_key ((key, none) ∷ t) n c (m, a, k) e = ground (arith, found-has_key t n c k e)
found-has_key ((key, some d) ∷ t) n c (m, a, k) e = elim (Bool-cases (d.number == n)) [
  | inl y ↦
      subst (λ (x : Conversation). has_key ((key, some d) ∷ t) x.service_name ≡ true)
        (some-injective d c (ground arith)) (rw (m, (same_bytes_iff key key).1 refl))
  | inr y ↦ ground (arith, found-has_key t n c k)
]

other_key :
    (t : Table) (key name : Bytes)
    → has_key t key ≡ false
    → has_key t name ≡ true
    → same_bytes key name ≡ false
other_key t key name a h = elim (Bool-cases (same_bytes key name)) [
  | inl y ↦ absurd (differ (sym h ∙ ap (has_key t) (sym ((same_bytes_iff key name).0 y)) ∙ a))
  | inr y ↦ y
]
  where
    differ : true ≡ false → ⊥
    differ e = cc

pub lookup-found :
    (t : Table) (n : ℕ) (c : Conversation)
    → AreKeyed t
    → find_by_number t n ≡ some c
    → lookup t c.service_name ≡ some c
unfolding find_by_number lookup
lookup-found [] n c k e = cc
lookup-found ((key, none) ∷ t) n c (m, a, k) e =
    rw (other_key t key c.service_name a (found-has_key t n c k e)) (lookup-found t n c k e)
lookup-found ((key, some d) ∷ t) n c (m, a, k) e = elim (Bool-cases (d.number == n)) [
  | inl y ↦
      subst (λ (x : Conversation). lookup ((key, some d) ∷ t) x.service_name ≡ some x)
        (some-injective d c (ground arith)) (rw (m, (same_bytes_iff key key).1 refl))
  | inr y ↦
      (let e' : find_by_number t n ≡ some c = ground arith in
        rw (other_key t key c.service_name a (found-has_key t n c k e')) (lookup-found t n c k e'))
]

has_key-update :
    (n : ℕ) (f : Conversation → Conversation) (t : Table) (name : Bytes)
    → has_key (update_table n f t) name ≡ has_key t name
unfolding update_table
has_key-update n f [] name = refl
has_key-update n f ((key, c) ∷ t) name =
    ap (λ (b : Bool). same_bytes key name || b) (has_key-update n f t name)

-- A change of a conversation that keeps its name, and connects none but a registered one.
pub record IsMild (n : ℕ) (log : List Effect) (f : Conversation → Conversation) : Type 0 where
  pub names : (d : Conversation) → (f d).service_name ≡ d.service_name
  pub knows : (d : Conversation) → d.number ≡ n → IsKnown log (some d) → IsKnown log (some (f d))

module _ (n : ℕ) (f : Conversation → Conversation) (log : List Effect) (mild : IsMild n log f) where
  IsNamed-update :
      (key : Bytes) (c : Option Conversation) → IsNamed key c → IsNamed key (update_entry n f c)
  IsNamed-update key none h = tt
  IsNamed-update key (some d) h = go (d.number == n)
    where
      go : (b : Bool) → IsNamed key (if b then some (f d) else some d)
      go true = mild.names d ∙ h
      go false = h

  IsKnown-update : (c : Option Conversation) → IsKnown log c → IsKnown log (update_entry n f c)
  IsKnown-update none h = tt
  IsKnown-update (some d) h = go (d.number == n) refl
    where
      go : (b : Bool) → (d.number == n) ≡ b → IsKnown log (if b then some (f d) else some d)
      go true e = mild.knows d ((==_iff d.number n).0 e) h
      go false e = h

  pub AreKeyed-update : (t : Table) → AreKeyed t → AreKeyed (update_table n f t)
  unfolding update_table
  AreKeyed-update [] h = tt
  AreKeyed-update ((key, c) ∷ t) (m, a, k) =
      (IsNamed-update key c m, has_key-update n f t key ∙ a, AreKeyed-update t k)

  pub AreKnown-update : (t : Table) → AreKnown log t → AreKnown log (update_table n f t)
  unfolding update_table
  AreKnown-update [] h = tt
  AreKnown-update ((key, c) ∷ t) (h, k) = (IsKnown-update c h, AreKnown-update t k)

has_key-without :
    (t : Table) (name key : Bytes) → has_key t key ≡ false → has_key (without t name) key ≡ false
unfolding without
has_key-without [] name key h = refl
has_key-without ((k, c) ∷ t) name key h = ground (arith, has_key-without t name key)

pub has_key-without_same : (t : Table) (name : Bytes) → has_key (without t name) name ≡ false
unfolding without
has_key-without_same [] name = refl
has_key-without_same ((k, c) ∷ t) name = ground (arith, has_key-without_same t name)

pub AreKeyed-without : (t : Table) (name : Bytes) → AreKeyed t → AreKeyed (without t name)
unfolding without
AreKeyed-without [] name h = tt
AreKeyed-without ((key, c) ∷ t) name (m, a, k) =
    go (same_bytes key name) (AreKeyed-without t name k)
  where
    go : (b : Bool) → AreKeyed (without t name) → AreKeyed (drop_key b (key, c) (without t name))
    go true h = h
    go false h = (m, has_key-without t name key a, h)

pub AreKnown-without :
    (log : List Effect) (t : Table) (name : Bytes) → AreKnown log t → AreKnown log (without t name)
unfolding without
AreKnown-without log [] name h = tt
AreKnown-without log ((key, c) ∷ t) name (m, k) =
    go (same_bytes key name) (AreKnown-without log t name k)
  where
    go :
        (b : Bool)
        → AreKnown log (without t name)
        → AreKnown log (drop_key b (key, c) (without t name))
    go true h = h
    go false h = (m, h)

IsKnown-log :
    (e : Effect) (log : List Effect) (c : Option Conversation) → IsKnown log c → IsKnown (e ∷ log) c
IsKnown-log e log none h = tt
IsKnown-log e log (some d) h = λ i. (let k = h i in ground (arith, k))

pub AreKnown-log :
    (e : Effect) (log : List Effect) (t : Table) → AreKnown log t → AreKnown (e ∷ log) t
AreKnown-log e log [] h = tt
AreKnown-log e log ((key, c) ∷ t) (m, k) = (IsKnown-log e log c m, AreKnown-log e log t k)

pub IsNoted-log :
    (e : Effect) (log : List Effect) (o : Option ℕ) → IsNoted o log → IsNoted o (e ∷ log)
IsNoted-log e log none h = tt
IsNoted-log e log (some n) h = ground (arith, h)

-- A conversation of the table that is found is known.
pub lookup-IsKnown :
    (log : List Effect) (t : Table) (name : Bytes) (c : Conversation)
    → AreKnown log t
    → lookup t name ≡ some c
    → IsKnown log (some c)
unfolding lookup
lookup-IsKnown log [] name c k e = cc
lookup-IsKnown log ((key, d) ∷ t) name c (m, k) e =
    go (same_bytes key name) e (lookup-IsKnown log t name c k)
  where
    go :
        (b : Bool)
        → or_null b d (lookup t name) ≡ some c
        → (lookup t name ≡ some c → IsKnown log (some c))
        → IsKnown log (some c)
    go true h ih = subst (IsKnown log) h m
    go false h ih = ih h
