-- ===== src/Session.antt =====
-- src/corvus_node/node/session.py: the state of `NodeSession` and what it does to answer, log and
-- send. What the session is given from outside is in `SessionEnv`: the file system, the digests,
-- fresh identifiers, the clock, the language model and the decoder of a line.
pub mod Handlers
pub mod Serve
pub mod Frame
pub mod Answers
pub mod Caps
pub mod Confined
pub mod Settled
pub mod Gate
pub mod Calls
pub mod Approved
pub mod Replies
pub mod Logged
pub mod Journal
pub mod Trail
use corvus_node.Prelude.{
  ℕ, ◌+◌, String, Bool, true, false, Option, none, some, List, [], ◌∷◌, ◌++◌, leb, ◌==◌,
  if◌then◌else◌,
}
use corvus_node.Prelude.Int.{pos}
use corvus_node.Json.{Value, null, num, str, Fields, end, field}
use corvus_node.Identity.{Principal}
pub use corvus_node.Protocol.{Decoded, decoded, codec_error}
use corvus_node.Protocol.{
  Envelope, EngineId, node, Destination, to_engine, to_loop, MessageClass, request, response,
  system, engine_text,
}
use corvus_node.Protocol.Mac.{Digests, HopMac, sign, new_hop}
use corvus_node.Policy.{PolicyEngine, launch_engine}
use corvus_node.Memory.{MemoryService}
use corvus_node.Audit
use corvus_node.Audit.{AuditStore, Hop, new_store}
use corvus_node.Workspace.{FileSystem}

-- `StubCompletion`, or the completion of another model; the finish reason is not read.
pub record Completion : Type 0 where
  pub content : String
  pub tool_calls : List Fields

-- The n-th draw gives an identifier, the printed time and the clock of the loop in milliseconds.
-- `complete` gives nothing when the model raises.
pub record SessionEnv : Type 1 where
  pub fs : FileSystem
  pub digests : Digests
  pub uuid4 : ℕ → String
  pub timestamp : ℕ → String
  pub clock : ℕ → ℕ
  pub complete : List Value → Value → Option Completion
  pub decode_line : String → Decoded

pub record LaunchConfig : Type 0 where
  pub agent_id : String
  pub allowed_tools : List String
  pub workspace_paths : List String
  pub user_text : String
  pub once : Bool
  pub principal : Principal
  pub vm_instance_id : String
  pub guest_cid : ℕ

abbrev pub deny_burst : ℕ
deny_burst = 3

abbrev pub max_messages : ℕ
max_messages = 64

abbrev pub max_bytes : ℕ
max_bytes = 1048576

abbrev pub max_session_turns : ℕ
max_session_turns = 32

abbrev pub turn_timeout : ℕ
turn_timeout = 90000

abbrev pub tool_result_max : ℕ
tool_result_max = 65536

-- `prompts` and `responses` are the queues of the configuration: the prompts that will come, and the
-- responses put so far. `waiting` counts the calls of `on_waiting_prompt`. `sent` is what was written.
pub record NodeSession (env : SessionEnv) : Type 0 where
  pub config : LaunchConfig
  pub policy : PolicyEngine
  pub audit : AuditStore
  pub memory : MemoryService
  pub final_response : Option String
  pub origin : Option String
  pub session_key : String
  pub mac : HopMac
  pub deny_streak : ℕ
  pub outstanding_calls : List String
  pub messages : ℕ
  pub bytes : ℕ
  pub turns : ℕ
  pub awaiting_guest : Bool
  pub turn_deadline : Option ℕ
  pub prompts : Option (List (Option String))
  pub responses : Option (List (Option String))
  pub waiting : ℕ
  pub sent : List Envelope
  pub disk : env.fs.Disk
  pub draws : ℕ

abbrev or_text : Option String → String → String
or_text none d = d
or_text (some t) d = t

module _ (env : SessionEnv) where
  -- `NodeSession(config, audit=audit, session_key=key)`
  unfoldable pub new_session :
      LaunchConfig
      → AuditStore
      → String
      → Option (List (Option String))
      → Option (List (Option String))
      → env.fs.Disk
      → NodeSession env
  unfolding new_hop
  new_session config audit key prompts responses disk = record {
    config = config;
    policy =
        launch_engine config.agent_id config.allowed_tools config.workspace_paths config.principal;
    audit = audit;
    memory = [];
    final_response = none;
    origin = none;
    session_key = key;
    mac = new_hop (some key) config.vm_instance_id (pos config.guest_cid);
    deny_streak = 0;
    outstanding_calls = [];
    messages = 0;
    bytes = 0;
    turns = 0;
    awaiting_guest = true;
    turn_deadline = none;
    prompts = prompts;
    responses = responses;
    waiting = 0;
    sent = [];
    disk = disk;
    draws = 0;
  }

  unfoldable pub log_hop : Hop → Option String → Fields → NodeSession env → NodeSession env
  log_hop hop decision details s = record s {
    audit = Audit.log_hop env.digests hop decision details (env.timestamp s.draws) s.audit;
    draws = s.draws + 1;
  }

  unfoldable pub log_flag : String → Hop → Fields → NodeSession env → NodeSession env
  log_flag code hop details s = record s {
    audit = Audit.log_flag env.digests code hop details (env.timestamp s.draws) s.audit;
    draws = s.draws + 1;
  }

  unfoldable pub log_elevate : Hop → Fields → NodeSession env → NodeSession env
  log_elevate hop details s = record s {
    audit = Audit.log_elevate env.digests hop details (env.timestamp s.draws) s.audit;
    draws = s.draws + 1;
  }

  abbrev pub hop_of : Envelope → String → Hop
  hop_of m message_type = record {
    message_type = message_type;
    source_engine = engine_text m.source_engine;
    correlation_id = m.correlation_id;
    origin_correlation_id = m.origin_correlation_id;
  }

  -- A hop of the Node itself: `correlation_id=self._origin or uuid4()`.
  abbrev pub node_hop : String → NodeSession env → Hop
  node_hop message_type s = record {
    message_type = message_type;
    source_engine = engine_text node;
    correlation_id = or_text s.origin (env.uuid4 s.draws);
    origin_correlation_id = s.origin;
  }

  -- `_sign`
  unfoldable pub sign_out : Envelope → NodeSession env → Envelope × NodeSession env
  sign_out m s =
      let (signed, mac) = sign env.digests s.mac m in
      (signed, record s { mac = mac; draws = s.draws + 1 })

  abbrev node_envelope :
      NodeSession env
      → String
      → Option String
      → Destination
      → String
      → MessageClass
      → String
      → Fields
      → Envelope
  node_envelope s correlation_id origin destination dest_target class type payload = record {
    id = env.uuid4 s.draws;
    correlation_id = correlation_id;
    origin_correlation_id = origin;
    timestamp = env.timestamp s.draws;
    source_engine = node;
    destination = destination;
    dest_target = dest_target;
    message_class = class;
    type = type;
    payload = payload;
    seq = pos 0;
    payload_sha256 = "";
    mac = "";
  }

  -- `_write`
  unfoldable pub write : Envelope → NodeSession env → NodeSession env
  write m s =
      let s' = log_hop (hop_of m m.type) none end s in record s' { sent = s'.sent ++ (m ∷ []) }

  -- `_reply`, and the write that follows it.
  unfoldable pub reply : Envelope → String → Fields → NodeSession env → NodeSession env
  reply incoming type payload s =
      let dest = engine_text incoming.source_engine in
      let origin = some (or_text incoming.origin_correlation_id incoming.correlation_id) in
      let (m, s') =
        sign_out
          (node_envelope s incoming.correlation_id origin to_engine dest response type payload) s in
      write m s'

  -- `_note_decision`
  unfoldable pub note_decision : Bool → NodeSession env → NodeSession env
  note_decision is_deny s =
      if is_deny
      then (let s' : NodeSession env = record s { deny_streak = s.deny_streak + 1 } in
          if leb deny_burst s'.deny_streak
          then log_flag "deny_burst" (node_hop "policy" s')
              (field "streak" (num (pos s'.deny_streak)) end) s'
          else s')
      else record s { deny_streak = 0 }

  -- `_send_session_init`: the hop is logged by hand, as `_write` would.
  unfoldable pub send_session_init : NodeSession env → NodeSession env
  send_session_init s =
      let payload = field "session_key" (str s.session_key) (
        field "vm_instance_id" (str s.config.vm_instance_id)
          (field "guest_cid" (num (pos s.config.guest_cid)) end)) in
      let (m, s') =
        sign_out
          (node_envelope s (env.uuid4 (s.draws + 1)) none to_loop "loop" system "session_init"
            payload)
          s in
      write m s'

  -- `_arm_guest_wait`
  unfoldable pub arm_guest_wait : NodeSession env → NodeSession env
  arm_guest_wait s = record s {
    awaiting_guest = true;
    messages = 0;
    bytes = 0;
    turn_deadline = some (env.clock s.draws + turn_timeout);
  }

  -- `_send_user_query`, with `_user_query_envelope`.
  unfoldable pub send_user_query : String → NodeSession env → NodeSession env
  send_user_query text s =
      let armed = arm_guest_wait (record s { turns = s.turns + 1 }) in
      let origin = env.uuid4 armed.draws in
      let begun : NodeSession env = record armed {
        origin = some origin;
        draws = armed.draws + 1;
      } in
      let (m, s') =
        sign_out
          (node_envelope begun origin (some origin) to_loop "loop" request "user_query"
            (field "text" (str text) end))
          begun in
      write m s'

  -- `_send_session_end`
  unfoldable pub send_session_end : NodeSession env → NodeSession env
  send_session_end s =
      let quiet : NodeSession env = record s { awaiting_guest = false; turn_deadline = none } in
      let (m, s') =
        sign_out
          (node_envelope quiet (env.uuid4 (quiet.draws + 1)) none to_loop "loop" system
            "session_end" end)
          quiet in
      write m s'
