-- ===== src/Factory/Users/Creation.antt =====
-- The displays of users that clients create and destroy, in daemon/gdm-display-factory.c.
use gdm.Base.{
  ◌≡◌, refl, ap, ◌∙◌, none, some, Bool, true, List, [], ◌∷◌, Bytes, same_bytes, same_bytes_iff,
  arith, pure, ◌>>=◌, bind-some, Bool-cases, inl, inr,
}
use gdm.Factory.{Effect, session_terminated, Env, World, F}
use gdm.Factory.Users.{
  lookup_creation, is_user, without_user, on_user_display_creation, terminate_sessions,
  on_user_display_destruction,
}

same_self : (user : Bytes) → same_bytes user user ≡ true
same_self user = (same_bytes_iff user user).1 refl

without_user_twice :
    (user : Bytes) (users : List Bytes)
    → without_user user (without_user user users) ≡ without_user user users
unfolding without_user
without_user_twice user [] = refl
without_user_twice user (u ∷ users) = elim (Bool-cases (same_bytes u user)) [
  | inl y ↦ rw y (without_user_twice user users)
  | inr n ↦ rw (n, n) (ap (λ (us : List Bytes). u ∷ us) (without_user_twice user users))
]

-- The log after the sessions are terminated.
abbrev pub terminated : List Bytes → List Effect → List Effect
terminated [] log = log
terminated (s ∷ ss) log = terminated ss (session_terminated s ∷ log)

terminate_all-some :
    (env : Env) (ss : List Bytes) (w : World)
    → ((s : Bytes) → env.terminates s ≡ true)
    → terminate_sessions env ss w ≡ some (true, record w { log = terminated ss w.log })
unfolding terminate_sessions
terminate_all-some env [] w t = refl
terminate_all-some env (s ∷ ss) w t =
    rw (t s) (terminate_all-some env ss (record w { log = session_terminated s ∷ w.log }) t)

-- Whoever is looked up, the value is NULL, so that the test for a creation before never holds.
lookup_creation-is_null : (user : Bytes) (users : List Bytes) → lookup_creation user users ≡ none
unfolding lookup_creation
lookup_creation-is_null user [] = refl
lookup_creation-is_null user (u ∷ users) = ground (arith, lookup_creation-is_null user users)

created :
    (env : Env) (user : Bytes) (w : World)
    → env.graphical_sessions user ≡ some []
    → on_user_display_creation env user w
      ≡ some (
        true,
        record w { display_creation_users = user ∷ without_user user w.display_creation_users },
      )
unfolding on_user_display_creation
created env user w e = rw (lookup_creation-is_null user w.display_creation_users, e)

destroyed :
    (env : Env) (user : Bytes) (w : World) (s : Bytes) (ss : List Bytes)
    → is_user user w.display_creation_users ≡ true
    → env.graphical_sessions user ≡ some (s ∷ ss)
    → env.has_system_bus ≡ true
    → ((x : Bytes) → env.terminates x ≡ true)
    → on_user_display_destruction env user w
      ≡ some (
        true,
        record w {
          display_creation_users = without_user user w.display_creation_users;
          log = terminated (s ∷ ss) w.log;
        },
      )
unfolding on_user_display_destruction
destroyed env user w s ss i a bus t =
    rw (i, a, bus)
      (terminate_all-some env (s ∷ ss)
        (record w { display_creation_users = without_user user w.display_creation_users }) t)

forgotten :
    (user : Bytes) (users : List Bytes)
    → without_user user (user ∷ without_user user users) ≡ without_user user users
unfolding without_user
forgotten user users = rw (same_self user) (without_user_twice user users)

noted : (user : Bytes) (users : List Bytes) → is_user user (user ∷ users) ≡ true
unfolding is_user
noted user users = rw (same_self user) refl

unfoldable pub create_and_destroy : Env → Env → Bytes → F (Bool × Bool)
unfolding on_user_display_creation on_user_display_destruction
create_and_destroy before after user = do
  created ← on_user_display_creation before user
  destroyed ← on_user_display_destruction after user
  pure (created, destroyed)

-- Creations for one user, one after the other.
unfoldable pub create_twice : Env → Env → Bytes → F (Bool × Bool)
unfolding on_user_display_creation
create_twice before after user = do
  first ← on_user_display_creation before user
  second ← on_user_display_creation after user
  pure (first, second)

-- A display that is created for a user can be destroyed: if logind lists sessions of the user by then
-- and each can be terminated, these are terminated in their order and the user is forgotten, together
-- with whatever creations there were before.
pub destruction-creation :
    (before after : Env) (user : Bytes) (w : World) (s : Bytes) (ss : List Bytes)
    → before.graphical_sessions user ≡ some []
    → after.graphical_sessions user ≡ some (s ∷ ss)
    → after.has_system_bus ≡ true
    → ((x : Bytes) → after.terminates x ≡ true)
    → create_and_destroy before after user w
      ≡ some (
        (true, true),
        record w {
          display_creation_users = without_user user w.display_creation_users;
          log = terminated (s ∷ ss) w.log;
        },
      )
unfolding create_and_destroy
destruction-creation before after user w s ss b a bus t =
    bind-some (on_user_display_creation before user)
      (λ created. on_user_display_destruction after user >>= λ destroyed. pair created destroyed) w
      true w1 (created before user w b)
    ∙ bind-some (on_user_display_destruction after user) (pair true) w1 true _
        (destroyed after user w1 s ss (noted user _) a bus t)
    ∙ ap
        (λ (users : List Bytes). some (
          (true, true),
          record w { display_creation_users = users; log = terminated (s ∷ ss) w.log },
        ))
        (forgotten user w.display_creation_users)
  where
    pair : Bool → Bool → F (Bool × Bool)
    pair a b = pure (a, b)

    w1 : World
    w1 = record w { display_creation_users = user ∷ without_user user w.display_creation_users }
