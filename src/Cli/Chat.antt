-- ===== src/Cli/Chat.antt =====
-- src/corvus_node/node/chatview.py and `_run_chat` of src/corvus_node/cli.py: the chat with the agent, over
-- the lines that the operator types and the replies that come.
use corvus_node.Prelude.{
  String, ◌<>◌, code, Option, none, some, List, [], ◌∷◌, ◌==◌, strip, if◌then◌else◌,
}
use corvus_node.Prelude.Int.{ℤ, pos}
use corvus_node.Json.{str, Fields, end, field, get}
use corvus_node.Json.Text.{text_at}
use corvus_node.Control.{Frame}
use corvus_node.Settings.{strip_text}
use corvus_node.Cli.{
  Host, prompted, wrote_error, Received, Command, control, uncaught, pure, raise, ◌>>=◌, ◌>>◌,
  catch, finally, emit, leave,
}
use corvus_node.Cli.Client.{connect, send, receive, read_received, rpc_status}
use corvus_node.Cli.Consent.{is_running}
use corvus_node.Cli.Header.{ChatChrome, chrome_from_snapshot, is_exit_command, is_help_command}
use corvus_node.Cli.Screen.{
  Typed, Terminal, print_reply, enter, leave_screen, maybe_relayout, interrupted, typed,
}

-- What follows a message: the Node waits for the next one, or the chat ends with code 2.
pub data Next : Type 0 where
  waits : List Received → Next
  leaves : Next

-- The operator's message, without white space around it, and what is made of it.
pub data Said : Type 0 where
  nothing leave_chat show_help : Said
  message : String → Said

unfoldable pub said_by : (String → String) → String → Said
unfolding strip is_exit_command is_help_command
said_by lower raw =
    let t = strip_text raw in
    if t == ""
    then nothing
    else if is_exit_command lower t
    then leave_chat
    else if is_help_command lower t
    then show_help
    else message t

module _ (host : Host) (terminal : Terminal) where
  -- The replies to a message: the agent's are printed until the Node waits.
  unfoldable pub replies : String → List Received → Command Next
  unfolding print_reply
  replies model [] = raise (control "closed" "control socket closed")
  replies model (r ∷ rs) = read_received host r >>= λ f.
      let rest = replies model rs in
      if f.type == "agent"
      then print_reply model (text_at "text" f.payload) >> rest
      else if f.type == "waiting"
      then pure (waits rs)
      else emit (wrote_error ("corvus: unexpected chat reply " <> (f.type <> "\n"))) >> pure leaves

  abbrev pub user_text : String → Fields
  user_text t = field "text" (str t) end

  abbrev pub help_text : String
  help_text = "Live chat. /exit leaves (VM stays up). /help this text.\n"

  abbrev pub stdin_closed : Command ℤ
  stdin_closed = emit (wrote_error "corvus: stdin closed\n") >> pure (pos 0)

  abbrev pub prompt_operator : ChatChrome → Command (Unit {0})
  prompt_operator chrome = maybe_relayout host terminal chrome >> emit (prompted "you  ")

  -- What a message comes to; the conversation goes on from the replies that are left.
  abbrev pub continued : (List Received → Command ℤ) → Next → Command ℤ
  continued go (waits rs) = go rs
  continued go leaves = pure (pos 2)

  unfoldable pub respond :
      ChatChrome → (List Received → Command ℤ) → List Received → Said → Command ℤ
  unfolding send replies
  respond chrome go rs nothing = go rs
  respond chrome go rs leave_chat = pure (pos 0)
  respond chrome go rs show_help = emit (wrote_error help_text) >> go rs
  respond chrome go rs (message t) =
      send host "user" (user_text t) >> (replies chrome.model rs >>= continued go)

  -- The loop of `run_live_chat`.
  unfoldable pub converse : ChatChrome → List Typed → List Received → Command ℤ
  unfolding maybe_relayout said_by respond
  converse chrome [] rs = prompt_operator chrome >> stdin_closed
  converse chrome (interrupted ∷ ls) rs = prompt_operator chrome >> converse chrome ls rs
  converse chrome (typed raw ∷ ls) rs =
      let go = converse chrome ls in
      prompt_operator chrome
      >> (if raw == "" then stdin_closed else respond chrome go rs (said_by host.lower raw))

  abbrev pub failed_with : String → String → Command ℤ
  failed_with code why = emit (wrote_error ("corvus: " <> (why <> "\n"))) >> pure (pos 2)

  unfoldable pub run_live_chat : ChatChrome → Command ℤ
  unfolding enter converse
  run_live_chat chrome =
      enter host terminal chrome
      >> finally (catch (converse chrome terminal.lines terminal.replies) failed_with)
          (leave_screen host terminal)

  -- `_run_chat`: a call of the Node for its state, and a chat where the agent runs.
  abbrev pub attached : ChatChrome → Frame → Command ℤ
  attached chrome f =
      if f.type == "waiting"
      then run_live_chat chrome
      else leave ("corvus: unexpected attach reply " <> f.type) (pos 2)

  abbrev pub attach : Option ChatChrome → Command ℤ
  attach none = raise uncaught
  attach (some chrome) =
      catch (do connect host; send host "chat_attach" end; f ← receive host; attached chrome f)
        λ code why. leave ("corvus: " <> why) (pos 2)

  abbrev pub with_status : Option Fields → Command ℤ
  with_status none = pure (pos 2)
  with_status (some snap) =
      if is_running (get "state" snap)
      then attach (chrome_from_snapshot snap)
      else leave "corvus: the agent is not running; corvus vm start" (pos 2)

  abbrev pub asked_status : Command (Option Fields)
  asked_status =
      catch (rpc_status host >>= λ snap. pure (some snap))
        λ code why. leave ("corvus: " <> why) (pos 2) >>= λ exit_code. pure none

  unfoldable pub run_chat : Command ℤ
  unfolding rpc_status get connect send receive chrome_from_snapshot run_live_chat
  run_chat = asked_status >>= with_status
