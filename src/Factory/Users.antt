-- ===== src/Factory/Users.antt =====
-- daemon/gdm-display-factory.c: the displays of users, and the displays that are created on request.
pub mod Creation
use gdm.Base.{
  ℕ, Option, none, some, Bool, true, false, not, ◌||◌, List, [], ◌∷◌, if◌then◌else◌, Bytes, codes,
  same_bytes, pure, read, modify, when, ◌>>=◌, ◌>>◌,
}
use gdm.Display.{Display}
use gdm.Factory.{
  SeatDisplay, Effect, session_terminated, returned, refused_call, Env, World, F, emit,
}
use gdm.Factory.Displays.{branch, by_option, require, store_display}
use gdm.Factory.Seats.{get_session_types, new_display, seat0, prepare_or_unmanage}

unfoldable pub is_user : Bytes → List Bytes → Bool
is_user user [] = false
is_user user (u ∷ users) = same_bytes u user || is_user user users

unfoldable pub without_user : Bytes → List Bytes → List Bytes
without_user user [] = []
without_user user (u ∷ users) =
    let rest = without_user user users in if same_bytes u user then rest else u ∷ rest

-- The value that a user is inserted with into display_creation_users: NULL.
abbrev pub creation_value : Option (Unit {0})
creation_value = none

-- g_hash_table_lookup in display_creation_users: the value of the user, or NULL where there is none.
unfoldable pub lookup_creation : Bytes → List Bytes → Option (Unit {0})
lookup_creation user [] = none
lookup_creation user (u ∷ users) =
    let rest = lookup_creation user users in if same_bytes u user then creation_value else rest

abbrev pub is_empty : List Bytes → Bool
is_empty [] = true
is_empty (s ∷ sessions) = false

-- The user is noted if logind lists no sessions.
abbrev pub note_creation : Bytes → Option (List Bytes) → F Bool
note_creation user none = pure false
note_creation user (some (s ∷ sessions)) = pure false
note_creation user (some []) = do
  modify
      (λ w. record w { display_creation_users = user ∷ without_user user w.display_creation_users })
  pure true

module _ (env : Env) where
  -- gdm_display_factory_on_user_display_creation
  unfoldable pub on_user_display_creation : Bytes → F Bool
  unfolding lookup_creation without_user
  on_user_display_creation user = do
    created ← read (λ w. lookup_creation user w.display_creation_users)
    by_option created (note_creation user (env.graphical_sessions user)) (λ _. pure false)

  -- The loop over the sessions, which ends where one cannot be terminated.
  unfoldable pub terminate_sessions : List Bytes → F Bool
  terminate_sessions [] = pure true
  terminate_sessions (session ∷ sessions) =
      branch (env.terminates session)
        (do emit (session_terminated session); terminate_sessions sessions) (pure false)

  abbrev pub terminate_all : List Bytes → F Bool
  terminate_all sessions =
      branch (is_empty sessions) (pure false)
        (branch env.has_system_bus (terminate_sessions sessions) (pure false))

  -- gdm_display_factory_on_user_display_destruction
  unfoldable pub on_user_display_destruction : Bytes → F Bool
  unfolding is_user without_user terminate_sessions
  on_user_display_destruction user = do
    created ← read (λ w. is_user user w.display_creation_users)
    branch created
        (do
          modify (λ w. record w {
            display_creation_users = without_user user w.display_creation_users;
          })
          by_option (env.graphical_sessions user) (pure false) terminate_all)
        (pure false)

  unfoldable pub ensure_polkit_authority : F Bool
  ensure_polkit_authority = do
    has ← read (λ w. w.authority)
    branch has (pure true) (do
      modify (λ w. record w { authority = env.has_polkit_authority })
      pure env.has_polkit_authority)

  abbrev pub is_granted : Option Bool → Bool
  is_granted none = false
  is_granted (some b) = b

  -- gdm_display_factory_authorize_manage_user_displays
  unfoldable pub authorize_manage_user_displays : Bytes → F Bool
  unfolding ensure_polkit_authority
  authorize_manage_user_displays method =
      branch
        (same_bytes method (codes "CreateUserDisplay")
          || same_bytes method (codes "DestroyUserDisplay"))
        (do
          has ← ensure_polkit_authority
          branch has (pure (is_granted env.is_authorized)) (pure false))
        (pure true)

-- on_authorize_method, before the method's own handler.
abbrev pub authorized_call : Env → ℕ → Bytes → F (Unit {0}) → F (Unit {0})
authorized_call env invocation method handler = do
  ok ← authorize_manage_user_displays env method
  branch ok handler (emit (refused_call invocation))

abbrev pub reply : Bool → ℕ → Option ℕ → F (Unit {0})
reply true invocation id = emit (returned invocation id)
reply false invocation id = emit (refused_call invocation)

module _ (env : Env) (notify : ℕ → F (Unit {0})) where
  -- gdm_local_display_factory_create_display, and the number of the display.
  unfoldable pub create_display : Option Bytes → F (Bool × ℕ)
  unfolding get_session_types store_display prepare_or_unmanage
  create_display user = do
    types ← require (get_session_types env)
    n ← store_display (new_display types seat0 true user)
    ok ← prepare_or_unmanage env notify n
    pure (ok, n)

  unfoldable pub handle_create_transient_display : ℕ → F (Unit {0})
  unfolding create_display authorize_manage_user_displays
  handle_create_transient_display invocation =
      authorized_call env invocation (codes "CreateTransientDisplay")
        (do created ← create_display none; reply created.0 invocation (some created.1))

  unfoldable pub handle_create_user_display : ℕ → Bytes → F (Unit {0})
  unfolding create_display authorize_manage_user_displays on_user_display_creation
  handle_create_user_display invocation user =
      authorized_call env invocation (codes "CreateUserDisplay") (do
        allowed ← on_user_display_creation env user
        branch allowed (do created ← create_display (some user); reply created.0 invocation none)
            (emit (refused_call invocation)))

  unfoldable pub handle_destroy_user_display : ℕ → Bytes → F (Unit {0})
  unfolding authorize_manage_user_displays on_user_display_destruction
  handle_destroy_user_display invocation user =
      authorized_call env invocation (codes "DestroyUserDisplay")
        (do destroyed ← on_user_display_destruction env user; reply destroyed invocation none)

  -- The displays of daemon/gdm-remote-display-factory.c.
  abbrev pub new_remote_display : Option Bytes → SeatDisplay
  new_remote_display user =
      (let d = new_display (codes "wayland" ∷ []) none false user in
        record d { state = record d.state { is_local = false } })

  -- gdm_remote_display_factory_create_display
  unfoldable pub create_remote_display : Option Bytes → F Bool
  unfolding store_display prepare_or_unmanage
  create_remote_display user = do
    n ← store_display (new_remote_display user)
    prepare_or_unmanage env notify n

  -- The remote display's id on the side of the client may be missing.
  unfoldable pub handle_create_remote_display : ℕ → Bool → F (Unit {0})
  unfolding create_remote_display authorize_manage_user_displays
  handle_create_remote_display invocation has_remote_id =
      authorized_call env invocation (codes "CreateRemoteDisplay") (
        branch has_remote_id
          (do created ← create_remote_display none; reply created invocation none)
          (emit (refused_call invocation)))

  unfoldable pub handle_create_remote_user_display : ℕ → Bytes → F (Unit {0})
  unfolding create_remote_display authorize_manage_user_displays on_user_display_creation
  handle_create_remote_user_display invocation user =
      authorized_call env invocation (codes "CreateUserDisplay") (do
        allowed ← on_user_display_creation env user
        branch allowed
            (do created ← create_remote_display (some user); reply created invocation none)
            (emit (refused_call invocation)))
