-- ===== src/Tests/Commands.antt =====
-- Runs of the operator's commands against a host on which the Node is up.
use corvus_node.Prelude.{
  ℕ, ◌+◌, String, ◌<>◌, ◌≡◌, refl, true, false, Option, none, some, [], ◌∷◌, ◌==◌, arith, strip,
  if◌then◌else◌,
}
use corvus_node.Prelude.Int.{pos}
use corvus_node.Json.{str, obj, Fields, end, field, get}
use corvus_node.Json.Text.{text}
use corvus_node.Control.{Parsed, value, client_read, decode_frame}
use corvus_node.Settings.{LaunchSettings, loaded}
use corvus_node.Update.{found}
use corvus_node.Workspace.{folder}
use corvus_node.Cli.{Host, Trace, Command, pure, file_text, line, shown, ok}
use corvus_node.Cli.Client.{connect, send, receive, rpc, rpc_status, rpc_stop}
use corvus_node.Cli.Stop.{vm_stop, product_stop}
use corvus_node.Cli.Update.{update}
use corvus_node.Cli.Start.{run_once_via_node, Launch, down, os_error}
use corvus_node.Cli.Once.{last_call, run_once_via_node-last_call}
use corvus_node.Cli.Wait.{Ticks}
use corvus_node.Cli.Refused.{Ends, commands-Ends}

-- Every event takes 50 ms.
unfoldable pub elapsed : Trace → ℕ
elapsed [] = 0
elapsed (e ∷ t) = elapsed t + 50

abbrev pub framed_as : String → Fields → Parsed
framed_as type payload = value (obj (field "type" (str type) (field "payload" (obj payload) end)))

-- The Node's reply to a request, by its name.
abbrev pub parse : String → Parsed
parse t =
    if t == "status"
    then framed_as "status_ok" (field "state" (str "running") end)
    else if t == "chat_attach"
    then framed_as "waiting" end
    else if t == "user"
    then framed_as "agent" (field "text" (str "hello") end)
    else framed_as "stop_ok" end

abbrev pub text_of : Option String → String
text_of none = ""
text_of (some t) = t

abbrev pub host : Host
host = record {
  loads = parse;
  lower = λ t. t;
  int_of_text = λ t. some (pos 7);
  env = λ name. "";
  home = "/home/me";
  child = λ a b. a <> ("/" <> b);
  resolve = λ p. p;
  is_file = λ p t. true;
  euid = 0;
  clock = elapsed;
  pid_file = λ t. file_text "7";
  is_alive = λ pid t. true;
  socket_up = λ t. true;
  connects = λ t. true;
  sends = λ t. true;
  receives = λ t. line (text_of (last_call t));
  is_tty = λ t. true;
  read_line = λ t. "no";
  main_pid = λ t. shown "7";
  systemctl = λ c t. some (pos 0);
  pip = λ r t. pos 0;
  checkout = λ t. record { is_source = false; status = ""; ahead = "" };
  lookup = λ t. found "9.9.9";
  default_path = "/home/me/Corvus-Node/workspace";
  launch = λ t. loaded (record { tools = []; workspace = none });
  workspace_setting = λ v t. folder v;
  stores = λ t. true;
  gaps = λ t. [];
  default_workspace = λ t. folder "/home/me/Corvus-Node/workspace";
}

abbrev rules : LaunchSettings
rules = record { tools = []; workspace = none }

run_once_via_node-last_call_example :
    last_call (run_once_via_node host "hi" rules []).1 ≡ some "stop"
run_once_via_node-last_call_example = run_once_via_node-last_call host (λ t. refl) "hi" rules []

ticks : Ticks host
unfolding elapsed
ticks = record { onward = λ e t. omega arith; pause = λ t. omega arith }

commands-Ends_example :
    Ends (vm_stop host true []) × Ends (product_stop host true []) × Ends (update host true [])
commands-Ends_example = commands-Ends host true [] ticks

-- The reply is printed and the agent is stopped.
once_run : (run_once_via_node host "hi" rules []).0 ≡ ok (pos 0)
unfolding run_once_via_node connect send receive rpc rpc_status rpc_stop last_call client_read
    decode_frame get strip text
once_run = refl

-- No launch works here.
abbrev pub no_daemon : LaunchSettings → Command (Launch (Unit {0}))
no_daemon merged = pure (down (os_error "none"))

abbrev pub no_turn : String → LaunchSettings → Command (Launch String)
no_turn t merged = pure (down (os_error "none"))
