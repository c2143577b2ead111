-- ===== src/Display.antt =====
-- daemon/gdm-display.c: the status of a display, how it is finished, and whether it runs the initial
-- setup. What the display's owner does when the status changes is a function of the model, since the
-- signal's handlers run before the change returns.
use gdm.Base.{
  ℕ, ◌==◌, ◌≡◌, Option, none, some, Bool, true, false, not, ◌&&◌, ◌||◌, List, [], ◌∷◌,
  if◌then◌else◌, Bytes, codes, same_bytes,
}
use gdm.Config.Direct.{Answer, got, refused}
pub mod Lifecycle
mod Tests

-- GdmDisplayStatus
pub data Status : Type 0 where
  unmanaged prepared managed waiting_to_finish finished failed : Status

-- The numbers of the states.
abbrev pub number : Status → ℕ
number unmanaged = 0
number prepared = 1
number managed = 2
number waiting_to_finish = 3
number finished = 4
number failed = 5

-- _GdmDisplayPrivate, with the launch environment as whether there is one.
pub record Display : Type 0 where
  pub status : Status
  pub finish_idle_id : Bool
  pub session_registered : Bool
  pub is_local : Bool
  pub have_existing_user_accounts : Bool
  pub doing_initial_setup : Bool
  pub launch_environment : Bool

-- What is asked while a display is prepared: the users that accountsservice lists, the file of an
-- initial setup on this boot, the argument on the kernel's command line, whether the initial setup is
-- installed, and the setting.
pub record Machine : Type 0 where
  pub list_cached_users : Option ℕ
  pub ran_initial_setup : Bool
  pub cmdline_argument : Option Bytes
  pub has_initial_setup : Bool
  pub initial_setup_enable : Answer Bool

unfoldable pub queue_finish : Display → Display
queue_finish d = if d.finish_idle_id then d else record d { finish_idle_id = true }

abbrev pub unless_finished : Display → Display
unless_finished d = if number d.status == number finished then d else queue_finish d

module _ (on_status : Display → Display) where
  -- _gdm_display_set_status
  unfoldable pub set_status : Status → Display → Display
  set_status s d = if number s == number d.status then d else on_status (record d { status = s })

  unfoldable pub gdm_display_unmanage : Display → Display
  unfolding set_status
  gdm_display_unmanage d =
      if d.session_registered then set_status unmanaged d else set_status failed d

  unfoldable pub gdm_display_finish : Display → Display
  unfolding set_status
  gdm_display_finish d = set_status finished (record d { finish_idle_id = false })

  -- finish_idle, which runs only where it was queued.
  unfoldable pub finish_idle : Display → Display
  unfolding gdm_display_finish
  finish_idle d =
      if d.finish_idle_id then gdm_display_finish (record d { finish_idle_id = false }) else d

  -- self_destruct, which the end of the greeter's session leads to.
  unfoldable pub self_destruct : Display → Display
  unfolding gdm_display_unmanage queue_finish
  self_destruct d = unless_finished (gdm_display_unmanage d)

-- `setup_argument[0] == '1'`
abbrev pub is_truthy : Bytes → Bool
is_truthy [] = false
is_truthy (c ∷ cs) = c == b'1'

-- The setting, where the getter fails FALSE.
abbrev pub enabled : Answer Bool → Answer Bool
enabled refused = got false
enabled a = a

abbrev pub unforced : Machine → Display → Answer Bool
unforced m d =
    if not d.is_local
    then got false
    else if d.have_existing_user_accounts
    then got false
    else if m.has_initial_setup
    then enabled m.initial_setup_enable
    else got false

abbrev pub unless_forced : Machine → Display → Option Bytes → Answer Bool
unless_forced m d none = unforced m d
unless_forced m d (some argument) = got (is_truthy argument)

-- wants_initial_setup
unfoldable pub wants_initial_setup : Machine → Display → Answer Bool
wants_initial_setup m d =
    if m.ran_initial_setup then got false else unless_forced m d m.cmdline_argument

abbrev pub is_positive : ℕ → Bool
is_positive n = not (n == 0)

abbrev pub prepare_with : (Display → Display) → Display → Answer Bool → Option Display
prepare_with on_status d (got b) =
    some (set_status on_status prepared (record d { doing_initial_setup = b }))
prepare_with on_status d _ = none

-- gdm_display_prepare; `none` is the exit for want of accountsservice, or an abort.
abbrev pub prepare_listed : (Display → Display) → Machine → Display → Option ℕ → Option Display
prepare_listed on_status m d none = none
prepare_listed on_status m d (some n) =
    (let d' = record d { have_existing_user_accounts = is_positive n } in
      prepare_with on_status d' (wants_initial_setup m d'))

unfoldable pub gdm_display_prepare : (Display → Display) → Machine → Display → Option Display
unfolding wants_initial_setup set_status
gdm_display_prepare on_status m d = prepare_listed on_status m d m.list_cached_users
