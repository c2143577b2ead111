-- ===== src/Worker/Messages.antt =====
-- daemon/gdm-session-worker.c: the conversation function that PAM calls with messages for the user,
-- and the texts of the errors.
use gdm.Base.{
  ℕ, ◌-◌, String, Option, none, some, Bool, true, false, List, [], ◌∷◌, if◌then◌else◌, pure, read,
  modify, when, ◌>>=◌, ◌>>◌, take, is_some, strcmp0_eq,
}
use gdm.Worker.{
  Effect, Env, W, Message, MessageStyle, PamCode, emit, prompt_echo_on, prompt_echo_off, text_info,
  error_msg, radio_type, binary_prompt, unknown_style,
}
use gdm.Worker.Accounts.{update_username}

-- The `switch` on the style: the result of the call to the daemon, and the answer it brought.
abbrev pub ask : Message → Bool × Option (List ℕ)
ask m = elim m.style [
  | prompt_echo_on ↦ (m.delivered, m.answer)
  | prompt_echo_off ↦ (m.delivered, m.answer)
  | text_info ↦ (m.delivered, none)
  | error_msg ↦ (m.delivered, none)
  | radio_type ↦ (m.delivered, m.answer)
  | binary_prompt ↦ (m.delivered, m.answer)
  | unknown_style ↦ (false, none)
]

abbrev pub is_binary : MessageStyle → Bool
is_binary binary_prompt = true
is_binary _ = false

-- The answer that is handed to PAM, cut to the size that PAM takes.
abbrev pub response_of : Env → Bool → Option (List ℕ) → Option (List ℕ)
response_of env res none = none
response_of env res (some text) = if res then some (take (env.max_resp_size - 1) text) else none

-- What is left of gdm_session_worker_process_pam_message after the user name was updated.
process_plain_message : Env → Message → W (Bool × Option (List ℕ))
process_plain_message env m = do
  modify (λ w. record w { cancelled = false; timed_out = false })
  let (res, answer) = ask m
  timed_out ← read (λ w. w.timed_out)
  when timed_out (do emit Effect.cancel_pending_query; modify (λ w. record w { timed_out = false }))
  pure (if is_some answer then (true, response_of env res answer) else (res, none))

-- The handler of extended messages sets the response only where it succeeds.
process_extended_message : Message → W (Bool × Option (List ℕ))
process_extended_message m = pure (m.delivered, if m.delivered then m.answer else none)

unfoldable pub process_pam_message : Env → Message → W (Bool × Option (List ℕ))
unfolding process_plain_message process_extended_message
process_pam_message env m = do
  update_username env
  if is_binary m.style then process_extended_message m else process_plain_message env m

abbrev pub add_reply :
    Option (List ℕ) → Option (List (Option (List ℕ))) → Option (List (Option (List ℕ)))
add_reply response none = none
add_reply response (some rs) = some (response ∷ rs)

-- The loop goes on after a message that was processed, and else is left by `goto out`.
abbrev pub go_on :
    Bool
    → Option (List ℕ)
    → W (Option (List (Option (List ℕ))))
    → W (Option (List (Option (List ℕ))))
go_on false response rest = pure none
go_on true response rest = do rs ← rest; pure (add_reply response rs)

-- The loop over the messages.
unfoldable pub collect_replies : Env → List Message → W (Option (List (Option (List ℕ))))
collect_replies env [] = pure (some [])
collect_replies env (m ∷ ms) = do
  (got, response) ← process_pam_message env m
  go_on got response (collect_replies env ms)

-- What PAM is given: the code, and the replies.
abbrev pub handed_over : Option (List (Option (List ℕ))) → PamCode × List (Option (List ℕ))
handed_over none = (PamCode.conv_err, [])
handed_over (some rs) = (PamCode.success, rs)

-- gdm_session_worker_pam_new_messages_handler: the code, and the replies that PAM is given.
unfoldable pub pam_new_messages_handler : Env → List Message → W (PamCode × List (Option (List ℕ)))
unfolding collect_replies
pam_new_messages_handler env ms = do replies ← collect_replies env ms; pure (handed_over replies)

-- The conversation that one blocking call of PAM holds, a list of messages at a time.
unfoldable pub converse : Env → List (List Message) → W (Unit {0})
unfolding pam_new_messages_handler
converse env [] = pure tt
converse env (ms ∷ rest) = do _ ← pam_new_messages_handler env ms; converse env rest

-- get_max_retries_error_message
max_retries_error_message : Option String → String
max_retries_error_message s =
    if strcmp0_eq s (some "gdm-password")
    then "You reached the maximum password authentication attempts, please try another method"
    else if strcmp0_eq s (some "gdm-autologin")
    then "You reached the maximum auto login attempts, please try another authentication method"
    else if strcmp0_eq s (some "gdm-fingerprint")
    then "You reached the maximum fingerprint authentication attempts, please try another method"
    else if strcmp0_eq s (some "gdm-smartcard")
    then "You reached the maximum smart card authentication attempts, please try another method"
    else "You reached the maximum authentication attempts, please try another method"

-- get_generic_error_message
generic_error_message : Option String → String
generic_error_message s =
    if strcmp0_eq s (some "gdm-password")
    then "Sorry, password authentication didn’t work. Please try again."
    else if strcmp0_eq s (some "gdm-autologin")
    then "Sorry, auto login didn’t work. Please try again."
    else if strcmp0_eq s (some "gdm-fingerprint")
    then "Sorry, fingerprint authentication didn’t work. Please try again."
    else if strcmp0_eq s (some "gdm-smartcard")
    then "Sorry, smart card authentication didn’t work. Please try again."
    else "Sorry, that didn’t work. Please try again."

-- get_friendly_error_message
unfoldable pub friendly_error_message : Option String → PamCode → String
unfolding max_retries_error_message generic_error_message
friendly_error_message s PamCode.success = ""
friendly_error_message s PamCode.ignored = ""
friendly_error_message s PamCode.acct_expired =
    "Your account was given a time limit that’s now passed."
friendly_error_message s PamCode.authtok_expired =
    "Your account was given a time limit that’s now passed."
friendly_error_message s PamCode.maxtries = max_retries_error_message s
friendly_error_message s _ = generic_error_message s
