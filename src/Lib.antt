-- ===== src/Lib.antt =====
-- GDM, the GNOME display manager: the session worker, the settings of its user, the configuration,
-- the users of the greeters, the daemon's sessions and displays, and a part of the shared helpers.
--
-- daemon/gdm-session-worker.c is a process of its own that the daemon starts for each
-- conversation with PAM. The daemon calls its methods over D-Bus (Initialize, Authenticate,
-- Authorize, EstablishCredentials, Open, StartProgram and some setters); a call that moves the
-- worker on is validated, kept as the pending invocation, and carried out by an idle source, which
-- takes the worker to the next of eight states and answers the call. On the way it drives PAM,
-- asks the user through the daemon, reads and stores the user's settings, and at the end forks
-- the session's program.
--
-- daemon/gdm-session.c is the daemon's end of these conversations: it starts a worker for each PAM
-- service, makes the calls in their order as the answers come, and starts the program of the session
-- that was chosen. Displays (daemon/gdm-display.c) run a greeter, under a user of
-- daemon/gdm-dynamic-user-store.c, and read the configuration of common/gdm-settings*.c.
--
-- Base                 what the modules share: tests, lists, texts that may be NULL, and state
--                      passing in which a failed g_assert is `none`.
-- Settings             daemon/gdm-session-settings.c: the saved session, its type and the
--                      language, with the notifications that a call emits. Settings/Laws has its
--                      theorems, Settings/Tests the concrete inputs.
-- Worker               daemon/gdm-session-worker.c: the fields of _GdmSessionWorker, the answers of
--                      the environment (Env), the constants of the build (Build), and the effects,
--                      which are logged newest first.
-- Worker/Accounts      the user name, the settings' handlers, the account (get_username,
--                      update_username, on_settings_is_loaded_changed, _lookup_passwd_info).
-- Worker/Messages      the conversation function and the texts of the errors.
-- Worker/Pam           initialize_pam, authenticate_user, authorize_user, accredit_user and
--                      uninitialize_pam; the label `out` of each is `finish`.
-- Worker/Session       set_up_for_new_vt, open_session, start_session, the child watch, finalize.
-- Worker/Requests      the methods, validate_state_change and its two users.
-- Worker/Loop          the `do_` functions, state_change_idle, the events and the main loop `run`.
-- Worker/Ledger        an independent reading of the log: what PAM has granted on the handle.
-- Worker/Frame         operations that change nothing that the ledger reads.
-- Worker/Invariant     the invariant (Inv), and that each operation keeps it: one child per group
--                      of operations, up to Invariant/Events for every event and every history.
-- Worker/Safety, Worker/Replies, Worker/Returns, Worker/Endings
--                      the theorems; Worker/Tests has runs and concrete inputs.
-- Display              daemon/gdm-display.c: the status, the ways to finish a display, and
--                      wants_initial_setup, which reads the configuration. What the display's owner
--                      does when the status changes is a function that the operations take.
--                      Display/Lifecycle has the theorems, Display/Tests the concrete inputs.
-- Session              daemon/gdm-session.c: Session/Types has the files of the installed sessions, the
--                      command of a session and the fallback session, Session/State the table of
--                      conversations and the calls of the workers, Session/Events the callbacks and
--                      Session/Loop the queries, the program, the reset, and the events. A callback
--                      names its conversation by number, since C's pointer is good as long as the
--                      conversation is in the table. Session/Order and Session/Keeps have the
--                      invariant and its parts, Session/Protocol, Session/Callbacks and
--                      Session/Endings that the operations keep it, Session/Histories,
--                      Session/Resets and Session/Fallback the theorems, with Session/Sorted for
--                      sorted names, and Session/Tests the concrete inputs.
-- UserStore            daemon/gdm-dynamic-user-store.c of a build with userdb: the two tables and
--                      pick_uid; UserStore/Users has pick_username, create and remove.
--                      UserStore/Search, UserStore/Names, UserStore/Tables and UserStore/Creation
--                      have the theorems, UserStore/Tests the concrete inputs.
-- Factory              daemon/gdm-local-display-factory.c and what it needs of gdm-display-factory.c,
--                      gdm-display-store.c, gdm-remote-display-factory.c and gdm-manager.c: the displays
--                      in their store, and the fields of the factory and the manager in one World.
--                      Factory/Store is the store, Factory/Displays a display among others and the
--                      manager's handler of its status, Factory/Seats when a seat gets a display and the
--                      factory's handler, Factory/Users the displays that clients ask for, Factory/Loop
--                      the events. A change of status runs both handlers before it returns, and they
--                      change the status of displays in turn: the operations take what a notification
--                      does as a function, and notify ties the knot with fuel for the nesting.
--                      Factory/Keeps and Factory/Prepared have the invariant and what keeps it,
--                      Factory/Retries follows displays through nested notifications;
--                      Factory/Store/Calls has a lemma on the store, Factory/Users/Creation further
--                      theorems, Factory/Tests the concrete inputs.
-- Login                daemon/gdm-session.c and daemon/gdm-session-worker.c composed: a call of the
--                      session, the worker's event that it arrives as, the events of both until the
--                      answer, and the callback that makes the next call, in rounds. Login/Outcomes and
--                      Login/Exchange follow the worker's operations to their answers, Login/Rounds and
--                      Login/Calls a call from its arrival to its answer, Login/Callbacks and
--                      Login/Meanwhile the session from an answer to the next call; Login/Histories has
--                      the theorems, Login/Tests a login from both sides.
-- Shell                common/gdm-common.c: gdm_shell_expand. Shell/Quoting has the theorems, Shell/Tests
--                      the concrete inputs.
-- Config               common/gdm-settings*.c: Config/Integers has printf's "%d" and strtol on bytes;
--                      Config/Values and Config/Schemas model gdm-settings-utils.c, Config/KeyFile
--                      gdm-settings-desktop-backend.c, Config/Stack gdm-settings.c, and Config/Direct
--                      gdm-settings-direct.c. Config/Keys, Config/Lookup, Config/Documents and
--                      Config/Typed have the theorems, Config/Tests the concrete inputs.
--
-- libpam, libc, the kernel, accountsservice and glib are not modelled: what they answer while one
-- event is handled is a record Env, and a history is a list of events, each with its own Env. PAM's
-- calls that block hold the conversations that Env lists. The loops of the worker are over
-- lists. That of pick_username counts numbers down, and that of pick_uid has fuel, one step for each
-- UID of the range, which is enough. gdm_shell_expand has a round for each byte of its text and one
-- for the end, and is none if these do not do, which never happens; printf's "%d" has one step more
-- than the number, which is enough too. The notifications of a
-- display's status have fuel for their nesting, and a run that needs more is none: twelve levels are
-- enough for the retries of a greeter away from the initial VT.
--
-- Not modelled: the varlink server and the locks of the dynamic user store, the child's side
-- of the fork, the signal handlers of a reauthentication session, the switching of virtual
-- terminals beyond its effect, the environment of a session but its XDG_SESSION_TYPE, the
-- D-Bus servers and the extensions of a session, the calls that StartReauthentication of a
-- session makes and is answered by (gdm_session_start_reauthentication), and the other files
-- of the daemon (the launch environment, the auditors, the rest of the manager) and the client
-- library; of a session and its worker together, the start of the program, other
-- conversations, a reset while a call is pending, and that the calls that only set something
-- (SetSessionName, SetSessionDisplayMode, SetEnvironmentVariable) arrive at the worker in
-- their order with the others; of the display factories, the D-Bus objects and builds without
-- udev or without X11; of the configuration, the values as doubles, the signals' listeners and
-- the parser of markup below its events.
pub mod Base
pub mod Config
pub mod Display
pub mod Factory
pub mod Login
pub mod Session
pub mod Settings
pub mod Shell
pub mod UserStore
pub mod Worker
