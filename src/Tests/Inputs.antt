-- ===== src/Tests/Inputs.antt =====
-- The messages, stores and environments that the tests share.
use corvus_node.Prelude.{String, ◌<>◌, true, false, none, some, [], ◌∷◌, show_ℕ}
use corvus_node.Prelude.Int.{pos, negsuc}
use corvus_node.Json.{str, obj, Fields, end, field}
use corvus_node.Identity.{operator_principal}
use corvus_node.Protocol.{Envelope, EngineId, loop, engine1, to_node, request}
use corvus_node.Protocol.Mac.{Digests, HopMac}
use corvus_node.Audit.{zero_link, new_jsonl_store}
use corvus_node.Workspace.{FileSystem, done}
use corvus_node.Session.{SessionEnv, LaunchConfig, NodeSession, decoded, new_session}

abbrev pub digests : Digests
digests = record { sha256 = λ t. zero_link; hmac = λ k t. "m" }

abbrev pub message : EngineId → String → Fields → Envelope
message source type payload = record {
  id = "i";
  correlation_id = "c";
  origin_correlation_id = none;
  timestamp = "t";
  source_engine = source;
  destination = to_node;
  dest_target = "node";
  message_class = request;
  type = type;
  payload = payload;
  seq = pos 0;
  payload_sha256 = zero_link;
  mac = "m";
}

abbrev pub hello : Envelope
hello = message loop "handshake" end

abbrev pub keyed_hop : HopMac
keyed_hop = record {
  key = some "k";
  vm_instance_id = "vm";
  guest_cid = pos 3;
  out_seq = 0;
  in_seq = negsuc 0;
}

abbrev pub arguments : Fields
arguments = field "path" (str "/workspace/notes.txt") (field "content" (str "hi") end)

abbrev pub write_call : Envelope
write_call =
    message engine1 "tool_call" (
      field "id" (str "1")
        (field "name" (str "file_write") (field "arguments" (obj arguments) end)))

-- A disk is the text of its one file.
abbrev pub file_system : FileSystem
file_system = record {
  Disk = String;
  is_symlink = λ d p. false;
  exists = λ d p. true;
  is_dir = λ d p. true;
  is_file = λ d p. true;
  may_read = λ d p. true;
  expand_user = λ p. p;
  resolve = λ d p. done p;
  size_of = λ d p. done 2;
  read_text = λ d p. done d;
  list_dir = λ d p. done ("notes.txt" ∷ []);
  make_parent = λ d p. done d;
  write_text = λ d p t. done t;
  own_like = λ d p r. done d;
}

abbrev pub env : SessionEnv
env = record {
  fs = file_system;
  digests = digests;
  uuid4 = λ n. "u" <> show_ℕ n;
  timestamp = λ n. "t";
  clock = λ n. n;
  complete = λ ms schema. none;
  decode_line = λ t. decoded write_call;
}

abbrev pub config : LaunchConfig
config = record {
  agent_id = "agent";
  allowed_tools = "file_write" ∷ [];
  workspace_paths = "/home/me" ∷ [];
  user_text = "hello";
  once = true;
  principal = operator_principal;
  vm_instance_id = "vm";
  guest_cid = 3;
}

abbrev pub session : NodeSession env
session = new_session env config new_jsonl_store "k" none none "old"
