-- ===== src/Display/Lifecycle.antt =====
-- What daemon/gdm-display.c comes to: displays that destroy themselves are finished, and the initial
-- setup runs only where it is wanted.
use gdm.Base.{Bool, if◌then◌else◌, ◌≡◌, ◌↔◌, ◌⊎◌, none, some, true, false, Bytes, arith}
use gdm.Config.Direct.{got}
use gdm.Display.{
  Status, unmanaged, failed, finished, number, Display, Machine, set_status, gdm_display_unmanage,
  gdm_display_finish, finish_idle, queue_finish, unless_finished, self_destruct, is_truthy,
  wants_initial_setup,
}

-- The status that a display without a session is left in: it failed if none was ever registered.
abbrev pub ended : Display → Status
ended d = if d.session_registered then unmanaged else failed

unmanage-ended :
    (on_status : Display → Display) (d : Display)
    → ((e : Display) → number (on_status e).status ≡ number e.status)
    → number (gdm_display_unmanage on_status d).status ≡ number (ended d)
unfolding gdm_display_unmanage set_status
unmanage-ended on_status d keeps =
    ground (arith, keeps (record d { status = unmanaged }), keeps (record d { status = failed }))

unless_finished-queued :
    (d : Display) (b : Bool)
    → number d.status ≡ number (if b then unmanaged else failed)
    → (number (unless_finished d).status ≡ number (if b then unmanaged else failed))
      × ((unless_finished d).finish_idle_id ≡ true)
unfolding queue_finish
unless_finished-queued d b e = ground (arith, e)

finish_idle-finished :
    (on_status : Display → Display) (d : Display)
    → ((e : Display) → number (on_status e).status ≡ number e.status)
    → d.finish_idle_id ≡ true
    → number (finish_idle on_status d).status ≡ number finished
unfolding finish_idle gdm_display_finish set_status
finish_idle-finished on_status d keeps h =
    ground (arith, h, keeps (record d { finish_idle_id = false; status = finished }))

-- If the owner does not change the status itself when it is told of a change, a display that destroys
-- itself is unmanaged then, or failed where no session was registered, and an idle source is installed,
-- after which the display is finished.
pub finish_idle-self_destruct :
    (on_status : Display → Display) (d : Display)
    → ((e : Display) → number (on_status e).status ≡ number e.status)
    → (number (self_destruct on_status d).status ≡ number (ended d))
      × ((self_destruct on_status d).finish_idle_id ≡ true)
      × (number (finish_idle on_status (self_destruct on_status d)).status ≡ number finished)
unfolding self_destruct
finish_idle-self_destruct on_status d keeps =
    let (e, q) =
      unless_finished-queued (gdm_display_unmanage on_status d) d.session_registered
        (unmanage-ended on_status d keeps) in
    (e, q, finish_idle-finished on_status (self_destruct on_status d) keeps q)

-- Why the initial setup may run: the kernel's command line asks for it, or, where that does not say, the
-- display is local, nobody has an account, the setup is installed, and it is enabled.
abbrev pub IsWanted : Machine → Display → Type 0
IsWanted m d =
    (m.ran_initial_setup ≡ false)
    × (((a : Bytes) × (m.cmdline_argument ≡ some a) × (is_truthy a ≡ true))
        ⊎ ((m.cmdline_argument ≡ none)
            × (d.is_local ≡ true)
            × (d.have_existing_user_accounts ≡ false)
            × (m.has_initial_setup ≡ true)
            × (m.initial_setup_enable ≡ got true)))

-- The initial setup is wanted exactly where it has not run on this boot, and the kernel's command line
-- asks for it, or does not say while the display is local, nobody has an account, the setup is installed
-- and the setting enables it.
pub wants_initial_setup-IsWanted :
    (m : Machine) (d : Display) → (wants_initial_setup m d ≡ got true) ↔ IsWanted m d
unfolding wants_initial_setup
wants_initial_setup-IsWanted m d = ground arith
