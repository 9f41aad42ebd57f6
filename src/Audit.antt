-- ===== src/Audit.antt =====
-- src/corvus_node/audit/store.py: the append-only log, in memory and as a hash-chained journal. A
-- line of the journal is the JSON object that it holds. `sha256` is that of `Digests`.
pub mod Scrub
pub mod Chain
use corvus_node.Prelude.{
  String, ◌<>◌, Bool, true, false, ◌&&◌, Option, none, some, List, [], ◌∷◌, ◌++◌, map, ◌==◌,
  if◌then◌else◌,
}
use corvus_node.Json.{
  Value, null, boolean, num, float, str, arr, obj, Items, nil, cons, Fields, end, field, get,
}
use corvus_node.Json.Dumps.{canonical}
use corvus_node.Protocol.Mac.{Digests}
use text.Mathlib.Text.{find?}

pub record AuditEvent : Type 0 where
  pub event_type : String
  pub correlation_id : String
  pub origin_correlation_id : Option String
  pub source_engine : String
  pub message_type : String
  pub decision : Option String
  pub details : Fields
  pub timestamp : String

-- The state that `JsonlAuditStore` adds: its file and the last link of the chain.
pub record Journal : Type 0 where
  pub lines : List Fields
  pub prev : String

-- A plain `AuditStore` has no journal.
pub record AuditStore : Type 0 where
  pub events : List AuditEvent
  pub journal : Option Journal

-- `"0" * 64`
abbrev pub zero_link : String
zero_link = "0000000000000000000000000000000000000000000000000000000000000000"

abbrev pub new_store : AuditStore
new_store = record { events = []; journal = none }

-- `JsonlAuditStore(path)` on a new file.
abbrev pub new_jsonl_store : AuditStore
new_jsonl_store = record { events = []; journal = some (record { lines = []; prev = zero_link }) }

-- `part in value`
abbrev pub occurs : String → String → Bool
occurs part value = elim (find? value part) [ none ↦ false | some _ ↦ true ]

-- `_scrub`
unfoldable mutual
  pub scrub : Value → Value
  scrub (obj fs) = obj (scrub_fields fs)
  scrub (arr vs) = arr (scrub_items vs)
  scrub (str s) = if occurs "session_key" s then str "[redacted]" else str s
  scrub null = null
  scrub (boolean b) = boolean b
  scrub (num n) = num n
  scrub (float s) = float s

  scrub_items : Items → Items
  scrub_items nil = nil
  scrub_items (cons v vs) = cons (scrub v) (scrub_items vs)

  pub scrub_fields : Fields → Fields
  scrub_fields end = end
  scrub_fields (field k v fs) =
      if k == "session_key" then scrub_fields fs else field k (scrub v) (scrub_fields fs)

abbrev text_or_null : Option String → Value
text_or_null none = null
text_or_null (some s) = str s

-- The object that `JsonlAuditStore.append` writes, before its chain link.
unfoldable pub event_record : AuditEvent → Fields
unfolding scrub
event_record event = field "event_type" (str event.event_type) (
    field "correlation_id" (str event.correlation_id) (
      field "origin_correlation_id" (text_or_null event.origin_correlation_id) (
        field "source_engine" (str event.source_engine) (
          field "message_type" (str event.message_type) (
            field "decision" (text_or_null event.decision) (
              field "details" (obj (scrub_fields event.details))
                (field "timestamp" (str event.timestamp) end)))))))

-- `record["chain"] = chain` of a record with no such key: the last one.
unfoldable pub add_chain : String → Fields → Fields
add_chain chain end = field "chain" (str chain) end
add_chain chain (field k v fs) = field k v (add_chain chain fs)

-- What `record.pop("chain", None)` leaves.
unfoldable pub pop_chain : Fields → Fields
pop_chain end = end
pop_chain (field k v fs) = let rest = pop_chain fs in if k == "chain" then fs else field k v rest

abbrev pub is_text : String → Option Value → Bool
is_text s (some (str t)) = t == s
is_text s _ = false

-- What the `log_` methods are told of a message.
pub record Hop : Type 0 where
  pub message_type : String
  pub source_engine : String
  pub correlation_id : String
  pub origin_correlation_id : Option String

abbrev make_event : String → Hop → Option String → Fields → String → AuditEvent
make_event event_type hop decision details now = record {
  event_type = event_type;
  correlation_id = hop.correlation_id;
  origin_correlation_id = hop.origin_correlation_id;
  source_engine = hop.source_engine;
  message_type = hop.message_type;
  decision = decision;
  details = details;
  timestamp = now;
}

-- `extra["code"] = code`
abbrev pub set_code : String → Fields → Fields
set_code code end = field "code" (str code) end
set_code code (field k v fs) =
    let rest = set_code code fs in if k == "code" then field k (str code) fs else field k v rest

module _ (d : Digests) where
  -- The next link of the chain.
  unfoldable pub link : String → Fields → String
  link prev line = d.sha256 (prev <> canonical line)

  unfoldable pub append_line : Fields → Journal → Journal
  append_line line j =
      let chain = link j.prev line in
      record { lines = j.lines ++ (add_chain chain line ∷ []); prev = chain }

  -- `AuditStore.append` and `JsonlAuditStore.append`
  unfoldable pub append : AuditEvent → AuditStore → AuditStore
  append event s = record {
    events = s.events ++ (event ∷ []);
    journal = elim s.journal [ none ↦ none | some j ↦ some (append_line (event_record event) j) ];
  }

  -- `verify_chain`: the last link, or nothing when the chain is broken.
  unfoldable pub verify_chain : String → List Fields → Option String
  verify_chain prev [] = some prev
  verify_chain prev (line ∷ lines) =
      let expect = link prev (pop_chain line) in
      let rest = verify_chain expect lines in
      if is_text expect (get "chain" line) then rest else none

  unfoldable pub log_hop : Hop → Option String → Fields → String → AuditStore → AuditStore
  unfolding append
  log_hop hop decision details now = append (make_event "message_hop" hop decision details now)

  unfoldable pub log_flag : String → Hop → Fields → String → AuditStore → AuditStore
  unfolding append
  log_flag code hop details now =
      append (make_event "flag" hop (some "flag") (set_code code details) now)

  unfoldable pub log_elevate : Hop → Fields → String → AuditStore → AuditStore
  unfolding append
  log_elevate hop details now = append (make_event "elevate" hop (some "elevate") details now)
