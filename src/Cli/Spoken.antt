-- ===== src/Cli/Spoken.antt =====
-- What the operator says in a chat is what the Node is sent: in order, once each, and nothing else.
use corvus_node.Prelude.{
  ◌||◌, arith, elem, strip, zero, String, ◌≡◌, refl, ap, sym, Bool, true, false, List, [], ◌∷◌,
  ◌++◌, ◌==◌, Bool-cases, inl, inr, if◌then◌else◌,
}
use mathlib.Core.Path.{subst}
use corvus_node.Settings.{strip_text}
use corvus_node.Cli.Header.{is_exit_command, is_help_command}
use corvus_node.Prelude.Int.{ℤ, pos}
use corvus_node.Json.Text.{text_at}
use corvus_node.Cli.{
  Host, Trace, called, wrote, Received, Failure, control, uncaught, exhausted, Command, Result, ok,
  err, pure, raise, ◌>>=◌, ◌>>◌, catch, finally, emit,
}
use corvus_node.Cli.Client.{send}
use corvus_node.Cli.Header.{ChatChrome}
use corvus_node.Cli.Chat.{
  Next, waits, leaves, Said, nothing, leave_chat, show_help, message, said_by, user_text,
  stdin_closed, continued, respond, converse, failed_with, run_live_chat,
}
use corvus_node.Cli.Screen.{Terminal, Typed, interrupted, typed, leave_text}
use corvus_node.Cli.Silent.{
  texts_in, Silent, write_error-Silent, enter-Silent, prompt_operator-Silent, replies-Silent,
}

-- The second list, with the first before it in reverse.
unfoldable pub onto : List String → List String → List String
onto [] ts = ts
onto (x ∷ xs) ts = onto xs (x ∷ ts)

abbrev said_messages : Said → List String → List String
said_messages nothing ms = ms
said_messages leave_chat ms = []
said_messages show_help ms = ms
said_messages (message x) ms = x ∷ ms

-- What the operator says until the end of the input or until the chat is left.
abbrev with_line : (String → String) → String → List String → List String
with_line lower raw rest =
    let t = strip_text raw in
    let word = lower (strip_text t) in
    if t == ""
    then rest
    else if word == "/exit" || word == "/quit"
    then []
    else if word == "/help"
    then rest
    else t ∷ rest

unfoldable pub messages : (String → String) → List Typed → List String
unfolding strip
messages lower [] = []
messages lower (interrupted ∷ ls) = messages lower ls
messages lower (typed raw ∷ ls) =
    let rest = messages lower ls in if raw == "" then [] else with_line lower raw rest

said_by-messages :
    (lower : String → String) (raw : String) (rest : List String)
    → said_messages (said_by lower raw) rest ≡ with_line lower raw rest
unfolding said_by is_exit_command is_help_command elem
said_by-messages lower raw rest = ground arith

module _ (host : Host) (terminal : Terminal) where
  -- An end with code 0 leaves nothing unsaid.
  abbrev IsComplete : Result Failure ℤ → List String → Type 0
  IsComplete (ok (pos zero)) rest = rest ≡ []
  IsComplete _ rest = Unit

  -- The first messages have been sent, in order, since the earlier ones.
  abbrev pub IsSpoken : List String → List String → Result Failure ℤ × Trace → Type 0
  IsSpoken ms earlier o =
      (sent : List String) × (rest : List String) × (ms ≡ sent ++ rest)
      × (texts_in o.1 ≡ onto sent earlier)
      × IsComplete o.0 rest

  record Speaks (ms : List String) (m : Command ℤ) : Type 0 where
    after : (t : Trace) → IsSpoken ms (texts_in t) (m t)

  -- What says nothing, and then what follows.
  bind-Speaks :
      {A : Type 0} {m : Command A} {f : A → Command ℤ} (ms : List String)
      → Silent m
      → ((a : A) → Speaks ms (f a))
      → Speaks ms (m >>= f)
  unfolding onto
  bind-Speaks {A} {m} {f} ms h k = record { after = λ t. of_result t (m t) (h.after t) }
    where
      of_result :
          (t : Trace) (o : Result Failure A × Trace)
          → texts_in o.1 ≡ texts_in t
          → IsSpoken ms
              (texts_in t)
              (elim o.0 as (λ r. Result Failure ℤ × Trace) [ ok a ↦ f a o.1 | err e ↦ raise e o.1 ])
      of_result t (ok a, u) e = rw (sym e) ((k a).after u)
      of_result t (err x, u) e = ([], ms, refl, e, tt)

  done-Speaks : Speaks [] (pure (pos 0))
  unfolding onto
  done-Speaks = record { after = λ t. ([], [], refl, refl, refl) }

  given_up-Speaks : (ms : List String) → Speaks ms (pure (pos 2))
  unfolding onto
  given_up-Speaks ms = record { after = λ t. ([], ms, refl, refl, tt) }

  raised-Speaks : (ms : List String) (e : Failure) → Speaks ms (raise e)
  unfolding onto
  raised-Speaks ms e = record { after = λ t. ([], ms, refl, refl, tt) }

  stdin_closed-Speaks : Speaks [] (stdin_closed host terminal)
  stdin_closed-Speaks = bind-Speaks [] (write_error-Silent _) λ _. done-Speaks

  continued-Speaks :
      (ms : List String) (go : List Received → Command ℤ) (next : Next)
      → ((rs : List Received) → Speaks ms (go rs))
      → Speaks ms (continued host terminal go next)
  continued-Speaks ms go (waits rs) h = h rs
  continued-Speaks ms go leaves h = given_up-Speaks ms

  said_before :
      (ms earlier : List String) (x : String) (o : Result Failure ℤ × Trace)
      → IsSpoken ms (x ∷ earlier) o
      → IsSpoken (x ∷ ms) earlier o
  unfolding onto
  said_before ms earlier x o (sent, rest, e, f, c) =
      (x ∷ sent, rest, ap (λ (l : List String). x ∷ l) e, f, c)

  message-Speaks :
      (ms : List String) (x : String) (k : Command ℤ)
      → Speaks ms k
      → Speaks (x ∷ ms) (send host "user" (user_text host terminal x) >> k)
  unfolding send texts_in text_at
  message-Speaks ms x k h = record {
    after = λ t.
        said_before ms (texts_in t) x ((send host "user" (user_text host terminal x) >> k) t)
          (of_sent (host.sends t) t);
  }
    where
      of_sent :
          (b : Bool) (t : Trace)
          → IsSpoken ms (x ∷ texts_in t) (
              ((if b then pure tt else raise uncaught) >> k)
                (called "user" (user_text host terminal x) ∷ t))
      of_sent true t = h.after (called "user" (user_text host terminal x) ∷ t)
      of_sent false t =
          (raised-Speaks ms uncaught).after (called "user" (user_text host terminal x) ∷ t)

  respond-Speaks :
      (chrome : ChatChrome) (ms : List String) (go : List Received → Command ℤ) (rs : List Received)
      (s : Said)
      → ((rs : List Received) → Speaks ms (go rs))
      → Speaks (said_messages s ms) (respond host terminal chrome go rs s)
  unfolding respond
  respond-Speaks chrome ms go rs nothing h = h rs
  respond-Speaks chrome ms go rs leave_chat h = done-Speaks
  respond-Speaks chrome ms go rs show_help h = bind-Speaks ms (write_error-Silent _) λ _. h rs
  respond-Speaks chrome ms go rs (message x) h = message-Speaks ms x _ (
      bind-Speaks ms (replies-Silent host terminal chrome.model rs)
        λ next. continued-Speaks ms go next h)

  of_line :
      (ms : List String) (raw : String) (m : Command ℤ)
      → Speaks ms m
      → Speaks (if raw == "" then [] else ms) (if raw == "" then stdin_closed host terminal else m)
  of_line ms raw m h = elim (Bool-cases (raw == "")) [
    | inl e ↦ rw e stdin_closed-Speaks
    | inr e ↦ rw e h
  ]

  converse-Speaks :
      (chrome : ChatChrome) (ls : List Typed) (rs : List Received)
      → Speaks (messages host.lower ls) (converse host terminal chrome ls rs)
  unfolding converse messages
  converse-Speaks chrome [] rs =
      bind-Speaks [] (prompt_operator-Silent host terminal chrome) λ _. stdin_closed-Speaks
  converse-Speaks chrome (interrupted ∷ ls) rs =
      bind-Speaks _ (prompt_operator-Silent host terminal chrome) λ _. converse-Speaks chrome ls rs
  converse-Speaks chrome (typed raw ∷ ls) rs =
      bind-Speaks _ (prompt_operator-Silent host terminal chrome) λ _. of_line _ raw _ (
        subst
          (λ ms. Speaks ms (
            respond host terminal chrome (converse host terminal chrome ls) rs
              (said_by host.lower raw)))
          (said_by-messages host.lower raw (messages host.lower ls))
          (respond-Speaks chrome (messages host.lower ls) _ rs (said_by host.lower raw)
            λ rs'. converse-Speaks chrome ls rs'))

  -- A caught error, and leaving the screen.
  closed :
      (ms earlier : List String) (tty : Bool) (o : Result Failure ℤ × Trace)
      → IsSpoken ms earlier o
      → IsSpoken ms earlier
          (finally (λ t. o) (if tty then emit (wrote leave_text) else pure tt) o.1)
  unfolding texts_in
  closed ms earlier true (ok a, t) h = h
  closed ms earlier true (err e, t) h = h
  closed ms earlier false (ok a, t) h = h
  closed ms earlier false (err e, t) h = h

  caught :
      (ms earlier : List String) (o : Result Failure ℤ × Trace)
      → IsSpoken ms earlier o
      → IsSpoken ms earlier (catch (λ t. o) (failed_with host terminal) o.1)
  unfolding texts_in
  caught ms earlier (ok a, t) h = h
  caught ms earlier (err (control code why), t) (sent, rest, e, f, c) = (sent, rest, e, f, tt)
  caught ms earlier (err uncaught, t) h = h
  caught ms earlier (err exhausted, t) h = h

  -- Whatever is typed and replied, a chat sends the Node the operator's messages, from the first
  -- one on, in order and once each, and no other; all of them, up to the end of the input or the
  -- leaving of the chat, where it ends with code 0.
  pub run_live_chat-IsSpoken :
      (chrome : ChatChrome) (t : Trace)
      → IsSpoken
          (messages host.lower terminal.lines)
          (texts_in t)
          (run_live_chat host terminal chrome t)
  unfolding run_live_chat
  run_live_chat-IsSpoken chrome t =
      (bind-Speaks ms (enter-Silent host terminal chrome) λ _. record {
        after = λ u. closed ms (texts_in u) terminal.is_tty _ (
            caught ms (texts_in u) _
              ((converse-Speaks chrome terminal.lines terminal.replies).after u));
      }).after
        t
    where
      ms : List String
      ms = messages host.lower terminal.lines
