-- ===== src/Daemon.antt =====
-- src/corvus_node/node/daemon.py: the state that all connections to the control socket share, and
-- what one connection does with a frame. How a boot ends and what the guest replies are inputs.
pub mod Keeps
use corvus_node.Prelude.{
  ℕ, String, Bool, true, false, not, Option, none, some, List, [], ◌∷◌, ◌++◌, map, sorted, ◌==◌,
  if◌then◌else◌,
}
use corvus_node.Prelude.Int.{pos}
use corvus_node.Json.{Value, null, num, str, arr, Fields, end, field, get, str_items}
use corvus_node.Json.Text.{text, text_at}
use corvus_node.Policy.{or_null}
use corvus_node.Session.Handlers.{list_of}
use corvus_node.Settings.{to_set}
use corvus_node.Control.{Frame}

-- The task that runs the guest.
pub data Task : Type 0 where
  no_task running finished : Task

-- The fields of `LaunchConfig` that the daemon sets or shows.
pub record Rules : Type 0 where
  pub allowed_tools : List String
  pub workspace_paths : List String
  pub vm_instance_id : String

-- `ServeState`. A queue holds what was put and not yet taken.
pub record ServeState : Type 0 where
  pub config : Rules
  pub prompts : Option (List (Option String))
  pub responses : Option (List (Option String))
  pub ready : Bool
  pub stop : Bool
  pub shutdown : Bool
  pub chat_attached : Bool
  pub boot_task : Task

abbrev pub is_running : Task → Bool
is_running running = true
is_running _ = false

unfoldable pub vm_up : ServeState → Bool
vm_up s = is_running s.boot_task

abbrev if_up {ℓ} : {A : Type ℓ} → ServeState → A → A → A
if_up s x y = if is_running s.boot_task then x else y

unfoldable pub snapshot : ℕ → ServeState → Fields
snapshot pid s = field "state" (str (if_up s "running" "idle")) (
    field "pid" (num (pos pid)) (
      field "vm_instance_id" (str (if_up s s.config.vm_instance_id "")) (
        field "tools" (arr (str_items (if_up s (sorted s.config.allowed_tools) []))) (
          field "workspace" (arr (str_items (if_up s s.config.workspace_paths [])))
            (field "llm" (str "stub") end)))))

-- `put_nowait(None)` on a queue, if there is one.
abbrev put : Option String → Option (List (Option String)) → Option (List (Option String))
put v none = none
put v (some q) = some (q ++ (v ∷ []))

unfoldable pub request_stop : ServeState → ServeState
request_stop s = record s {
  stop = true;
  prompts = put none s.prompts;
  responses = put none s.responses;
}

-- `_stop_vm` in one step: while the code awaits the end of the guest's task, between the request and
-- the clearing of the fields, another connection may be served; such steps in between are left out.
unfoldable pub stop_vm : ServeState → ServeState
unfolding request_stop
stop_vm s = elim s.boot_task [
  | no_task ↦ s
  | _ ↦ record (request_stop s) {
    boot_task = no_task;
    prompts = none;
    responses = none;
    chat_attached = false;
  }
]

-- `_config_from_payload`: nothing when a field is no sequence.
unfoldable pub config_from_payload : String → Fields → Option Rules
unfolding to_set get
config_from_payload instance_id payload = elim (list_of (or_null (get "tools" payload))) [
  | none ↦ none
  | some tools ↦ elim (list_of (or_null (get "workspace" payload))) [
    | none ↦ none
    | some paths ↦ some (record {
      allowed_tools = to_set (map text tools);
      workspace_paths = map text paths;
      vm_instance_id = instance_id;
    })
  ]
]

-- How `_boot_vm` ends: ready, with an error that is reported, or with another.
pub data Boot : Type 0 where
  booted : Boot
  boot_error : String → Boot
  boot_crash : Boot

-- The state that `_boot_vm` sets up before it waits.
unfoldable pub begin_boot : Rules → ServeState → ServeState
begin_boot config s = record s {
  config = config;
  prompts = some [];
  responses = some [];
  ready = false;
  stop = false;
  boot_task = running;
}

-- Where a connection stands: reading frames, in a chat, waiting for the guest's reply, or closed.
pub data Mode : Type 0 where
  listening chatting awaiting closed : Mode

-- What one connection meets next. With a frame come the answers that it may need.
pub data Input : Type 0 where
  end_of_stream bad_frame : Input
  frame : Frame → Boot → String → Input
  reply : Option String → Input

pub record Reaction : Type 0 where
  pub mode : Mode
  pub state : ServeState
  pub frames : List Frame

abbrev react : Mode → ServeState → List Frame → Reaction
react mode state frames = record { mode = mode; state = state; frames = frames }

abbrev frame_of : String → Fields → Frame
frame_of type payload = record { type = type; payload = payload }

abbrev error_frame : String → String → Frame
error_frame code reason =
    frame_of "error" (field "code" (str code) (field "reason" (str reason) end))

abbrev idle_payload : Fields
idle_payload = field "state" (str "idle") end

module _ (pid : ℕ) where
  -- After the wait of `_boot_vm`.
  unfoldable pub end_boot : Boot → ServeState → Reaction
  unfolding snapshot stop_vm
  end_boot booted s =
      let up : ServeState = record s { ready = true } in
      react listening up (frame_of "start_ok" (snapshot pid up) ∷ [])
  end_boot (boot_error why) s = react listening (stop_vm s) (error_frame "boot" why ∷ [])
  end_boot boot_crash s = react closed (record s { boot_task = finished }) []

  unfoldable pub boot_with : Boot → Option Rules → ServeState → Reaction
  unfolding end_boot begin_boot
  boot_with boot none s = react closed s []
  boot_with boot (some config) s = end_boot boot (begin_boot config s)

  unfoldable pub on_start : Fields → Boot → String → ServeState → Reaction
  unfolding boot_with config_from_payload
  on_start payload boot instance_id s =
      if is_running s.boot_task
      then react listening s (error_frame "busy" "guest VM already running" ∷ [])
      else boot_with boot (config_from_payload instance_id payload) s

  unfoldable pub on_attach : ServeState → Reaction
  on_attach s =
      if not (is_running s.boot_task)
      then react closed s (error_frame "idle" "guest VM is not running; corvus vm start" ∷ [])
      else if s.chat_attached
      then react closed s (error_frame "busy" "chat already attached" ∷ [])
      else react chatting (record s { chat_attached = true }) (frame_of "waiting" end ∷ [])

  unfoldable pub settings_payload : ServeState → Fields
  settings_payload s =
      field "tools" (arr (str_items (if_up s (sorted s.config.allowed_tools) [])))
        (field "workspace" (arr (str_items (if_up s s.config.workspace_paths []))) end)

  -- A frame outside a chat.
  unfoldable pub on_frame : Frame → Boot → String → ServeState → Reaction
  unfolding snapshot settings_payload on_start on_attach stop_vm
  on_frame f boot instance_id s =
      if f.type == "status"
      then react listening s (frame_of "status_ok" (snapshot pid s) ∷ [])
      else if f.type == "settings_get"
      then react listening s (frame_of "settings_ok" (settings_payload s) ∷ [])
      else if f.type == "start"
      then on_start f.payload boot instance_id s
      else if f.type == "stop"
      then react listening (stop_vm s) (frame_of "stop_ok" idle_payload ∷ [])
      else if f.type == "shutdown"
      then react closed (record (stop_vm s) { shutdown = true }) (frame_of "shutdown_ok" end ∷ [])
      else if f.type == "chat_attach"
      then on_attach s
      else react listening s (error_frame "unknown" f.type ∷ [])

  -- The `finally` of a chat.
  abbrev leave : ServeState → List Frame → Reaction
  leave s frames = react closed (record s { chat_attached = false }) frames

  -- The prompt is put. Where a queue is gone, an assertion fails.
  abbrev pub put_text :
      String → Option (List (Option String)) → Option (List (Option String)) → ServeState → Reaction
  put_text t (some q) (some _) s =
      react awaiting (record s { prompts = some (q ++ (some t ∷ [])) }) []
  put_text t _ _ s = leave s []

  -- A frame in a chat.
  unfoldable pub on_chat_frame : Frame → ServeState → Reaction
  unfolding stop_vm
  on_chat_frame f s =
      if f.type == "stop"
      then leave (stop_vm s) (frame_of "stop_ok" idle_payload ∷ [])
      else if not (f.type == "user")
      then react chatting s (error_frame "unknown" f.type ∷ [])
      else put_text (text_at "text" f.payload) s.prompts s.responses s

  unfoldable pub on_reply : Option String → ServeState → Reaction
  on_reply none s = leave s (error_frame "stopped" "guest VM stopped" ∷ [])
  on_reply (some t) s =
      react chatting s (frame_of "agent" (field "text" (str t) end) ∷ frame_of "waiting" end ∷ [])

  -- One step of `_handle_control`.
  unfoldable pub handle : Mode → Input → ServeState → Reaction
  unfolding on_frame on_chat_frame on_reply
  handle listening (frame f boot instance_id) s = on_frame f boot instance_id s
  handle listening (reply r) s = react listening s []
  handle listening _ s = react closed s []
  handle chatting (frame f boot instance_id) s = on_chat_frame f s
  handle chatting (reply r) s = react chatting s []
  handle chatting _ s = leave s []
  handle awaiting (reply r) s = on_reply r s
  handle awaiting _ s = react awaiting s []
  handle closed i s = react closed s []
