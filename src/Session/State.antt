-- ===== src/Session/State.antt =====
-- daemon/gdm-session.c: the state of a session, and the table of its conversations. A conversation
-- is known by its number, in the order of their creation, and a D-Bus method call by that of its
-- invocation.
use gdm.Base.{
  ℕ, ◌==◌, Option, none, some, Bool, true, false, List, [], ◌∷◌, if◌then◌else◌, Bytes, codes,
  same_bytes, pure, read, modify, when, ◌>>=◌, ◌>>◌, M,
}
use gdm.Session.Types.{Choice, same_text}

-- GdmSessionConversation. `is_connected` says that there is a worker_proxy, whose connection is open.
pub record Conversation : Type 0 where
  pub number : ℕ
  pub service_name : Bytes
  pub worker_pid : ℕ
  pub starting_invocation : Option ℕ
  pub starting_username : Option Bytes
  pub pending_invocation : Option ℕ
  pub is_connected : Bool
  pub session_id : Option Bytes
  pub is_stopping : Bool

pub data VerificationMode : Type 0 where
  login chooser reauthenticate : VerificationMode

-- The errors of a worker that are told apart.
pub data Failure : Type 0 where
  service_unavailable too_many_retries other_failure : Failure

pub data GdmSessionDisplayMode : Type 0 where
  new_vt logind_managed : GdmSessionDisplayMode

-- The calls of a worker's methods.
pub data Request : Type 0 where
  initialize : Option Bytes → Request
  authenticate authorize establish_credentials open_session : Request
  start_program : Bytes → Request

-- The calls that set something in a worker, and that wait for no answer.
pub data Setting : Type 0 where
  set_session_name : Bytes → Setting
  set_session_display_mode : GdmSessionDisplayMode → Setting
  set_xdg_session_type : Bytes → Setting

-- What the session does that others see, and what a worker tells it.
pub data Effect : Type 0 where
  registered : ℕ → Effect
  call : ℕ → Request → Effect
  told : ℕ → Setting → Effect
  initialized authenticated authorized accredited opened : ℕ → Effect
  started : ℕ → ℕ → Effect
  stopped : ℕ → Effect
  asked : ℕ → Effect
  answered : ℕ → Option Bytes → Effect
  signal : Bytes → Effect
  stop_conflicting_session : Option Bytes → Effect
  returned refused : ℕ → Effect
  terminate : ℕ → Effect

-- The hash table by service name; NULL is inserted for a worker that cannot be spawned.
abbrev pub Table : Type 0
Table = List (Bytes × Option Conversation)

-- _GdmSession. `choice` holds the fields that choose the session, and `session_conversation` is
-- the number of the conversation that is pointed to.
pub record GdmSession : Type 0 where
  pub choice : Choice
  pub saved_session_type : Option Bytes
  pub saved_language : Option Bytes
  pub selected_user : Option Bytes
  pub conversations : Table
  pub session_conversation : Option ℕ
  pub session_pid : Option ℕ
  pub verification_mode : VerificationMode
  pub has_user_verifier : Bool
  pub has_greeter : Bool
  pub is_program_session : Bool
  pub display_seat_id : Option Bytes
  pub is_opened : Bool
  pub session_opened : Option Bytes
  pub next_number : ℕ
  pub log : List Effect

abbrev pub S : Type 0 → Type 0
S = M GdmSession

abbrev pub emit : Effect → S (Unit {0})
emit e = modify (λ s. record s { log = e ∷ s.log })

abbrev pub or_null : Bool → Option Conversation → Option Conversation → Option Conversation
or_null true c other = c
or_null false c other = other

-- g_hash_table_lookup, which answers NULL also for a NULL that was inserted.
unfoldable pub lookup : Table → Bytes → Option Conversation
lookup [] name = none
lookup ((key, c) ∷ table) name = or_null (same_bytes key name) c (lookup table name)

-- find_conversation_by_name
abbrev pub find_conversation_by_name : Bytes → S (Option Conversation)
find_conversation_by_name name = read (λ s. lookup s.conversations name)

abbrev pub drop_key : Bool → Bytes × Option Conversation → Table → Table
drop_key true entry table = table
drop_key false entry table = entry ∷ table

-- g_hash_table_remove and g_hash_table_steal.
unfoldable pub without : Table → Bytes → Table
without [] name = []
without ((key, c) ∷ table) name = drop_key (same_bytes key name) (key, c) (without table name)

abbrev pub is_number : ℕ → Option Conversation → Bool
is_number n none = false
is_number n (some c) = c.number == n

-- The conversation that a callback was given, as long as it is not freed: until then it is in the table.
unfoldable pub find_by_number : Table → ℕ → Option Conversation
find_by_number [] n = none
find_by_number ((key, c) ∷ table) n = or_null (is_number n c) c (find_by_number table n)

-- A write to the fields of a conversation of the table.
abbrev pub update_entry :
    ℕ → (Conversation → Conversation) → Option Conversation → Option Conversation
update_entry n f none = none
update_entry n f (some c) = if c.number == n then some (f c) else some c

unfoldable pub update_table : ℕ → (Conversation → Conversation) → Table → Table
update_table n f [] = []
update_table n f ((key, c) ∷ table) = (key, update_entry n f c) ∷ update_table n f table

abbrev pub update_conversation : ℕ → (Conversation → Conversation) → S (Unit {0})
update_conversation n f =
    modify (λ s. record s { conversations = update_table n f s.conversations })

-- find_conversation_by_pid reads each conversation that it meets; `none` is a read through NULL.
unfoldable pub find_conversation_by_pid : Table → ℕ → Option (Option Conversation)
find_conversation_by_pid [] pid = some none
find_conversation_by_pid ((key, none) ∷ table) pid = none
find_conversation_by_pid ((key, some c) ∷ table) pid =
    let rest = find_conversation_by_pid table pid in
    if c.worker_pid == pid then some (some c) else rest

-- gdm_dbus_worker_call_*: nothing is sent without an open connection.
abbrev pub call_worker : Conversation → Request → S (Unit {0})
call_worker c r = when c.is_connected (emit (call c.number r))

-- A method of the worker is called in the conversation of a name, if there is one.
abbrev pub call_found : Option Conversation → Request → S (Unit {0})
call_found none r = pure tt
call_found (some c) r = call_worker c r

unfoldable pub gdm_session_authenticate : Bytes → S (Unit {0})
gdm_session_authenticate service = do
  c ← find_conversation_by_name service
  call_found c authenticate

unfoldable pub gdm_session_authorize : Bytes → S (Unit {0})
gdm_session_authorize service = do c ← find_conversation_by_name service; call_found c authorize

unfoldable pub gdm_session_accredit : Bytes → S (Unit {0})
gdm_session_accredit service = do
  c ← find_conversation_by_name service
  call_found c establish_credentials

-- A call that sets something in the worker of a conversation.
abbrev pub tell_worker : Conversation → Setting → S (Unit {0})
tell_worker c x = when c.is_connected (emit (told c.number x))

-- gdm_session_get_display_mode
abbrev pub display_mode : Option Bytes → GdmSessionDisplayMode
display_mode seat = if same_text seat (some (codes "seat0")) then new_vt else logind_managed

abbrev pub send_display_mode : Conversation → S (Unit {0})
send_display_mode c = do
  seat ← read (λ s. s.display_seat_id)
  tell_worker c (set_session_display_mode (display_mode seat))

-- The session type, or "wayland" where there is none.
abbrev pub type_to_send : Option Bytes → Bytes
type_to_send none = codes "wayland"
type_to_send (some type) = type

abbrev pub send_session_type : Conversation → S (Unit {0})
send_session_type c = do
  type ← read (λ s. s.choice.session_type)
  tell_worker c (set_xdg_session_type (type_to_send type))

abbrev pub open_found : Option Conversation → S (Unit {0})
open_found none = pure tt
open_found (some c) = do send_display_mode c; send_session_type c; call_worker c open_session

unfoldable pub gdm_session_open_session : Bytes → S (Unit {0})
gdm_session_open_session service = do c ← find_conversation_by_name service; open_found c

-- stop_conversation: the connection is closed, and the worker is told to stop.
unfoldable pub stop_conversation : Conversation → S (Unit {0})
stop_conversation c = do
  update_conversation c.number (λ d. record d { is_connected = false; is_stopping = true })
  emit (stopped c.number)

abbrev pub stop_found : Option Conversation → S (Unit {0})
stop_found none = pure tt
stop_found (some c) = stop_conversation c

unfoldable pub gdm_session_stop_conversation : Bytes → S (Unit {0})
unfolding stop_conversation
gdm_session_stop_conversation service = do c ← find_conversation_by_name service; stop_found c

abbrev pub report_name : Failure → Bytes
report_name service_unavailable = codes "service-unavailable"
report_name too_many_retries = codes "service-unavailable"
report_name other_failure = codes "problem"

-- report_and_stop_conversation; the user's client is told with the signals of its interface.
unfoldable pub report_and_stop_conversation : Bytes → Failure → S (Unit {0})
unfolding gdm_session_stop_conversation
report_and_stop_conversation service failure = do
  verifier ← read (λ s. s.has_user_verifier)
  when verifier
      (do emit (signal (report_name failure)); emit (signal (codes "verification-failed")))
  gdm_session_stop_conversation service
