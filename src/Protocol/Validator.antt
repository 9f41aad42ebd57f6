-- ===== src/Protocol/Validator.antt =====
-- src/corvus_node/runtime/validator.py: the guest checks a message before it is sent.
use corvus_node.Prelude.{String, ◌≡◌, ◌↔◌, true, not, elem, arith, if◌then◌else◌}
use corvus_node.Protocol.{
  Envelope, EngineId, Destination, to_node, engine_eq, destination_eq, allowed_outbound,
}

pub data GuestError : Type 0 where
  spoof : GuestError
  may_not_send : EngineId → String → GuestError
  not_to_node : GuestError

pub data Validation : Type 0 where
  valid : Validation
  rejected : GuestError → Validation

unfoldable pub validate_outbound : Envelope → EngineId → Validation
validate_outbound message claimed_engine =
    if not (engine_eq message.source_engine claimed_engine)
    then rejected spoof
    else if not (elem message.type (allowed_outbound message.source_engine))
    then rejected (may_not_send message.source_engine message.type)
    else if not (destination_eq message.destination to_node)
    then rejected not_to_node
    else valid

pub engine_eq_iff : (a b : EngineId) → (engine_eq a b ≡ true) ↔ (a ≡ b)
engine_eq_iff a b = ground arith

destination_eq_iff : (a b : Destination) → (destination_eq a b ≡ true) ↔ (a ≡ b)
destination_eq_iff a b = ground arith

-- The guest's check passes a message exactly when its source is the engine that sends it, its type
-- is one that this engine may send, and it goes to the Node.
pub validate_outbound_iff :
    (message : Envelope) (claimed_engine : EngineId)
    → (validate_outbound message claimed_engine ≡ valid) ↔ (
        (message.source_engine ≡ claimed_engine)
        × (elem message.type (allowed_outbound message.source_engine) ≡ true)
        × (message.destination ≡ to_node))
unfolding validate_outbound
validate_outbound_iff message claimed_engine = ground (
  arith,
  engine_eq_iff message.source_engine claimed_engine,
  destination_eq_iff message.destination to_node,
)
