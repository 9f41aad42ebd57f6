-- ===== src/Tests/Operator.antt =====
-- Updates, settings, control frames, the daemon and the scripted model.
use corvus_node.Prelude.{
  String, ◌≡◌, ◌≢◌, ◌↔◌, refl, true, false, not, ◌&&◌, none, some, [], ◌∷◌, elem, map, chars,
  of_chars, split, strip,
}
use corvus_node.Json.{obj, str, field, end, get}
use corvus_node.Workspace.{resolve_host_workspace}
use corvus_node.Update.{
  Checkout, found, check_version, version_lt, parse_version, local_version, latest, lstrip_v,
  read_digits,
}
use corvus_node.Update.Order.{IsLatest, latest-IsLatest, check_version_iff}
use corvus_node.Settings.{
  LaunchSettings, loaded, parsed, load_launch, save_body, parse_tools, strip_text,
}
use corvus_node.Settings.Store.{elem-parse_tools, load-save}
use corvus_node.Control.{Frame, value, client_read, decode_frame, client_read-type}
use corvus_node.Daemon.{
  ServeState, running, vm_up, stop_vm, booted, listening, chatting, closed, frame, handle,
}
use corvus_node.Daemon.Keeps.{IsSound, handle-config, handle-IsSound}
use corvus_node.Json.{Value, Fields, arr, cons, nil}
use corvus_node.Json.Text.{text, text_at}
use corvus_node.Prelude.{All, length, ◌≤◌, show_ℕ}
use corvus_node.Stub.{
  Patterns, complete, pick_calls, number_calls, last_user, tools_after, schema_names,
}
use corvus_node.Stub.Calls.{complete-calls}
use corvus_node.Tests.Inputs.{file_system}

version_run : parse_version " v1.20.x3-rc " ≡ record { major = 1; minor = 20; patch = 3 }
unfolding parse_version lstrip_v read_digits split strip
version_run = refl

latest-IsLatest_example :
    (elem (latest "v0.1.9" ("v0.2.0" ∷ "v0.1.10" ∷ [])) ("v0.1.9" ∷ "v0.2.0" ∷ "v0.1.10" ∷ [])
      ≡ true)
    × IsLatest (latest "v0.1.9" ("v0.2.0" ∷ "v0.1.10" ∷ [])) ("v0.1.9" ∷ "v0.2.0" ∷ "v0.1.10" ∷ [])
latest-IsLatest_example = latest-IsLatest "v0.1.9" ("v0.2.0" ∷ "v0.1.10" ∷ [])

abbrev installed : Checkout
installed = record { is_source = false; status = ""; ahead = "" }

check_version_iff_example : ((check_version installed (found "9.0.0")).update_available ≡ true) ↔ (
    (g : String) × (found "9.0.0" ≡ found g)
    × (version_lt (parse_version local_version) (parse_version g) ≡ true)
    × (installed.is_source ≡ false))
check_version_iff_example = check_version_iff installed (found "9.0.0")

elem-parse_tools_example : elem "echo" (parse_tools (some "echo, ,file_read")) ≡ (
    elem "echo" (map strip_text (map of_chars (split 44 (chars "echo, ,file_read")))) && not false)
elem-parse_tools_example = elem-parse_tools "echo" "echo, ,file_read"

abbrev settings : LaunchSettings
settings = record { tools = "file_read" ∷ "echo" ∷ []; workspace = some "/home/me" }

load-save_example :
    (s' : LaunchSettings) × (load_launch file_system "old" "launch.json"
        (parsed (save_body settings))
      ≡ loaded s')
    × (s'.workspace ≡ settings.workspace)
    × ((t : String) → elem t s'.tools ≡ elem t settings.tools)
unfolding strip resolve_host_workspace
load-save_example = load-save file_system "old" "launch.json" settings refl (refl, refl)

abbrev status_frame : Frame
status_frame = record { type = "status"; payload = end }

client_read-type_example : (status_frame.type ≢ "") × (status_frame.type ≢ "error")
unfolding client_read decode_frame get strip
client_read-type_example =
    client_read-type (λ t. value (obj (field "type" (str "status") end))) "x" status_frame refl

abbrev serving : ServeState
serving = record {
  config = record { allowed_tools = "echo" ∷ []; workspace_paths = []; vm_instance_id = "vm" };
  prompts = some [];
  responses = some [];
  ready = true;
  stop = false;
  shutdown = false;
  chat_attached = false;
  boot_task = running;
}

abbrev start_frame : Frame
start_frame = record { type = "start"; payload = end }

handle-config_example :
    (handle 7 listening (frame start_frame booted "vm2") serving).state.config ≡ serving.config
unfolding vm_up
handle-config_example = handle-config 7 listening (frame start_frame booted "vm2") serving refl

handle-IsSound_example : IsSound (handle 7 listening (frame start_frame booted "vm2") serving).state
handle-IsSound_example =
    handle-IsSound 7 listening (frame start_frame booted "vm2") serving (refl, refl)

abbrev user_frame : Frame
user_frame = record { type = "user"; payload = end }

-- A chat whose guest another connection has stopped is closed by the next prompt, without a frame.
orphan_chat :
    handle 7 chatting (frame user_frame booted "vm2") (stop_vm serving)
    ≡ record { mode = closed; state = stop_vm serving; frames = [] }
unfolding stop_vm handle
orphan_chat = refl

abbrev patterns : Patterns
patterns = record {
  path = λ t. none;
  listing = λ t. false;
  quoted = λ t. none;
  say = λ t. none;
  lower = λ t. t;
}

abbrev greeting : Value
greeting = obj (field "role" (str "user") (field "content" (str "hello") end))

abbrev schema : Value
schema = arr (cons (obj (field "name" (str "echo") end)) nil)

abbrev echo_call : Fields
echo_call = field "id" (str "call_stub_1") (
    field "name" (str "echo")
      (field "arguments" (obj (field "text" (str "Hello from echo") end)) end))

echo_called :
    complete patterns (greeting ∷ []) schema
    ≡ some (record { content = ""; tool_calls = echo_call ∷ [] })
unfolding complete tools_after last_user schema_names number_calls pick_calls get elem show_ℕ text
    text_at
echo_called = refl

complete-calls_example :
    (length (echo_call ∷ []) ≤ 1)
    × All (λ (call : Fields). elem (text_at "name" call) ("echo" ∷ []) ≡ true) (echo_call ∷ [])
unfolding schema_names get text
complete-calls_example =
    complete-calls patterns (greeting ∷ []) schema ("echo" ∷ []) refl echo_called
