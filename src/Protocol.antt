-- ===== src/Protocol.antt =====
-- src/corvus_node/protocol/models.py: the message envelope of one hop between Node and guest.
-- An identifier (UUID) and a timestamp are their printed texts.
pub mod Validator
pub mod Mac
use corvus_node.Prelude.{String, Bool, true, false, Option, List, [], ◌∷◌, ◌==◌, ◌||◌}
use corvus_node.Prelude.Int.{ℤ}
use corvus_node.Json.{Fields}

pub data EngineId : Type 0 where
  loop engine1 engine2 engine3 engine4 node : EngineId

pub data MessageClass : Type 0 where
  request response event error system : MessageClass

pub data Destination : Type 0 where
  to_node to_engine to_loop : Destination

abbrev pub engine_eq : EngineId → EngineId → Bool
engine_eq loop loop = true
engine_eq engine1 engine1 = true
engine_eq engine2 engine2 = true
engine_eq engine3 engine3 = true
engine_eq engine4 engine4 = true
engine_eq node node = true
engine_eq _ _ = false

abbrev pub destination_eq : Destination → Destination → Bool
destination_eq to_node to_node = true
destination_eq to_engine to_engine = true
destination_eq to_loop to_loop = true
destination_eq _ _ = false

-- `str(engine)` and `str(destination)`: the values of the enums.
unfoldable pub engine_text : EngineId → String
engine_text loop = "loop"
engine_text engine1 = "engine1"
engine_text engine2 = "engine2"
engine_text engine3 = "engine3"
engine_text engine4 = "engine4"
engine_text node = "node"

unfoldable pub destination_text : Destination → String
destination_text to_node = "node"
destination_text to_engine = "engine"
destination_text to_loop = "loop"

-- `version` has one value, "1.1", and is left out.
pub record Envelope : Type 0 where
  pub id : String
  pub correlation_id : String
  pub origin_correlation_id : Option String
  pub timestamp : String
  pub source_engine : EngineId
  pub destination : Destination
  pub dest_target : String
  pub message_class : MessageClass
  pub type : String
  pub payload : Fields
  pub seq : ℤ
  pub payload_sha256 : String
  pub mac : String

-- `ALLOWED_OUTBOUND`
unfoldable pub allowed_outbound : EngineId → List String
allowed_outbound loop = "handshake" ∷ []
allowed_outbound engine1 = "tool_call" ∷ "tool_result" ∷ []
allowed_outbound engine2 = "user_query" ∷ "agent_response" ∷ []
allowed_outbound engine3 = "llm_request" ∷ []
allowed_outbound engine4 = "memory:query" ∷ "memory:write" ∷ []
allowed_outbound node = []

-- `decode_line`: an envelope, or the text of a `CodecError`.
pub data Decoded : Type 0 where
  decoded : Envelope → Decoded
  codec_error : String → Decoded
