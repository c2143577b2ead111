-- ===== src/Login.antt =====
-- daemon/gdm-session.c and daemon/gdm-session-worker.c together: the calls that a session makes to
-- one of its workers, the events of both until a call is answered, and the callback that takes the
-- answer. D-Bus delivers the calls of one worker in their order, and the next call is made by a
-- callback only.
pub mod Outcomes
pub mod Exchange
pub mod Rounds
pub mod Calls
pub mod Callbacks
pub mod Meanwhile
pub mod Histories
pub mod Tests
use gdm.Base.{
  ℕ, suc, ◌==◌, String, Option, none, some, Bool, true, false, List, [], ◌∷◌, ◌++◌, if◌then◌else◌,
  ltb, length, Bytes, codes, pure, read, ◌>>=◌, ◌>>◌,
}
use gdm.Settings.{ActUser}
use gdm.Worker.{Worker, Env, Build, W, Reply, ErrorCode}
use gdm.Worker.Ledger.{ledger}
use gdm.Worker.Requests.{Detail}
use gdm.Worker.Loop.{handle as serve, Event as WorkerEvent}
use gdm.Session.Types.{System}
use gdm.Session.State.{
  Request, initialize, authenticate, authorize, establish_credentials, open_session, start_program,
  Effect, call, Failure, service_unavailable, too_many_retries, other_failure, GdmSession, S,
}
use gdm.Session.Events.{Opening, opened_as, not_opened}
use gdm.Session.Loop.{handle, run, Event}

-- What the function initialize reads besides the user's name and the kind of the session: its other
-- arguments, fields of _GdmSession that do not change, and how a text is passed.
pub record Site : Type 0 where
  pub text : Bytes → String
  pub service_name : String
  pub user_verifier_extensions : List String
  pub log_file : Option String
  pub display_hostname : Option String
  pub display_is_local : Bool
  pub display_is_initial : Bool
  pub display_device : Option String
  pub display_seat_id : Option String

abbrev pub if_set : {A : Type 0} → Option A → (A → Detail) → List Detail
if_set none f = []
if_set (some a) f = f a ∷ []

abbrev pub if_true : Bool → Detail → List Detail
if_true false d = []
if_true true d = d ∷ []

abbrev pub text_if_set : (Bytes → String) → Option Bytes → Option String
text_if_set text none = none
text_if_set text (some b) = some (text b)

-- The dictionary that the function initialize builds.
unfoldable pub details_of : Site → Bool → Option Bytes → List Detail
details_of site is_program username =
    Detail.service site.service_name
    ∷ Detail.extensions site.user_verifier_extensions
    ∷ (if_set (text_if_set site.text username) Detail.username
        ++ (if_set site.log_file Detail.log_file
            ++ (if_true is_program (Detail.is_program_session is_program)
                ++ (if_set site.display_hostname Detail.hostname
                    ++ (if_true site.display_is_local
                          (Detail.display_is_local site.display_is_local)
                        ++ (if_true site.display_is_initial
                              (Detail.display_is_initial site.display_is_initial)
                            ++ (if_set site.display_device Detail.console
                                ++ if_set site.display_seat_id Detail.seat_id)))))))

-- The worker's method that a call reaches.
unfoldable pub event_of : Site → Bool → ℕ → Request → WorkerEvent
unfolding details_of
event_of site is_program i (initialize u) = WorkerEvent.initialize i (details_of site is_program u)
event_of site is_program i authenticate = WorkerEvent.authenticate i
event_of site is_program i authorize = WorkerEvent.authorize i
event_of site is_program i establish_credentials = WorkerEvent.establish_credentials i
event_of site is_program i open_session = WorkerEvent.open_session_of i
event_of site is_program i (start_program command) = WorkerEvent.start_program i (site.text command)

-- What a callback makes of an error.
abbrev pub failure_by : ErrorCode → Failure
failure_by ErrorCode.service_unavailable = service_unavailable
failure_by ErrorCode.too_many_retries = too_many_retries
failure_by _ = other_failure

abbrev pub failure_of : Reply → Option Failure
failure_of (Reply.error code message) = some (failure_by code)
failure_of _ = none

-- An answer of another type than the method's is an error.
abbrev pub opening_of : Reply → Opening
opening_of (Reply.opened_session id) = opened_as (codes id)
opening_of (Reply.error code message) = not_opened (failure_by code)
opening_of _ = not_opened other_failure

abbrev pub pid_of_reply : Reply → Option ℕ
pid_of_reply (Reply.started_program pid) = some pid
pid_of_reply _ = none

-- The callback that a call was made with, in the conversation n.
unfoldable pub callback_of : ℕ → Request → Reply → Event
callback_of n (initialize u) r = Event.initialization_complete n (failure_of r)
callback_of n authenticate r = Event.authenticate_done n (failure_of r)
callback_of n authorize r = Event.authorize_done n (failure_of r)
callback_of n establish_credentials r = Event.establish_done n (failure_of r)
callback_of n open_session r = Event.open_done n (opening_of r)
callback_of n (start_program command) r = Event.program_done n (pid_of_reply r)

-- What happens in the worker while a call is pending.
pub data Own : Type 0 where
  idle : Own
  user_is_loaded : ActUser → Own

abbrev pub own_event : Own → WorkerEvent
own_event idle = WorkerEvent.idle
own_event (user_is_loaded u) = WorkerEvent.user_is_loaded u

abbrev pub find_answer : ℕ → List (ℕ × Reply) → Option Reply
find_answer i [] = none
find_answer i ((j, r) ∷ answers) = if j == i then some r else find_answer i answers

abbrev pub answer_to : ℕ → Worker → Option Reply
answer_to i w = find_answer i (ledger w.log).answers

abbrev pub unless_answered : Option Reply → W (Option Reply) → W (Option Reply)
unless_answered none m = m
unless_answered (some r) m = pure (some r)

-- The worker's events until the call is answered, if it is.
unfoldable pub await : Build → ℕ → List (Env × Own) → W (Option Reply)
unfolding ledger serve
await build i [] = read (answer_to i)
await build i ((env, e) ∷ es) = do
  answer ← read (answer_to i)
  unless_answered answer (do serve build env (own_event e); await build i es)

-- One call: the environment that it meets, the worker's events after it, the session's events until the
-- answer arrives, and what the system answers while the callback runs.
pub record Round : Type 0 where
  pub env : Env
  pub own : List (Env × Own)
  pub meanwhile : List (System × Event)
  pub system : System

unfoldable pub exchange : Site → Build → Bool → Round → ℕ → Request → W (Option Reply)
unfolding event_of await
exchange site build is_program round i r = do
  serve build round.env (event_of site is_program i r)
  await build i round.own

abbrev pub call_if : Bool → Request → List Request → List Request
call_if true r rs = r ∷ rs
call_if false r rs = rs

-- The calls of the conversation n, newest first.
unfoldable pub sent : ℕ → List Effect → List Request
sent n [] = []
sent n (call m r ∷ log) = call_if (m == n) r (sent n log)
sent n (_ ∷ log) = sent n log

-- The call that was made last, if there are more calls than before.
abbrev pub newest : List Request → List Request → Option Request
newest old [] = none
newest old (r ∷ rs) = if ltb (length old) (length (r ∷ rs)) then some r else none

-- The session until a call is answered, and its callback.
unfoldable pub resume : ℕ → Round → Request → Reply → S (Unit {0})
unfolding callback_of handle run
resume n round r reply = do run round.meanwhile; handle round.system (callback_of n r reply)

-- The calls and callbacks in turn, numbered from `i`. It ends with the rounds, when the session makes
-- no further call, or when a call is not answered; `none` is an abort of one of the two processes.
unfoldable pub play :
    Site
    → Build
    → ℕ
    → List Round
    → ℕ
    → Option Request
    → GdmSession
    → Worker
    → Option (GdmSession × Worker)
unfolding exchange resume sent
play site build n [] i r s w = some (s, w)
play site build n (round ∷ rounds) i none s w = some (s, w)
play site build n (round ∷ rounds) i (some r) s w =
    elim (exchange site build s.is_program_session round i r w) [
      | none ↦ none
      | some (none, w') ↦ some (s, w')
      | some (some reply, w') ↦ elim (resume n round r reply s) [
        | none ↦ none
        | some (_, s') ↦
            play site build n rounds (suc i) (newest (sent n s.log) (sent n s'.log)) s' w'
      ]
    ]
