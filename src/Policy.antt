-- ===== src/Policy.antt =====
-- src/corvus_node/policy/engine.py: the ordered first-match filter, default deny.
pub mod Launch
pub mod ToolCalls
use corvus_node.Prelude.{
  String, ◌<>◌, ◌≡◌, Bool, true, false, not, ◌&&◌, ◌||◌, Option, none, some, List, [], ◌∷◌, ◌++◌,
  select, elem, sorted, ◌==◌, if◌then◌else◌,
}
use corvus_node.Json.{Fields, Value, null, str, end, field, get, dict_or_empty}
use corvus_node.Json.Text.{text_at, repr_text}
use corvus_node.Identity.{Principal, Role, role_eq, principal_id, is_operator}
use corvus_node.Protocol.{
  Envelope, EngineId, loop, engine1, engine3, node, engine_eq, engine_text, allowed_outbound,
}
use corvus_node.Tools.Paths.{workspace_relpath, workspace_list_relpath, is_nil}

pub data Decision : Type 0 where
  allow deny elevate flag : Decision

pub record PolicyDecision : Type 0 where
  pub decision : Decision
  pub rule_id : String
  pub reason : String
  pub flag_code : Option String

pub record PolicyRule : Type 0 where
  pub rule_id : String
  pub action : Decision
  pub engine : Option EngineId
  pub message_type : Option String
  pub tool : Option String
  pub principal_id : Option String
  pub role : Option Role

pub record PolicyEngine : Type 0 where
  pub agent_id : String
  pub allowed_tools : List String
  pub workspace_paths : List String
  pub principal : Principal
  pub rules : List PolicyRule

abbrev pub is_allow : Decision → Bool
is_allow allow = true
is_allow _ = false

-- `TOOL_TAGS.get(name, "exec")`
unfoldable pub tool_tag : String → String
tool_tag name =
    if elem name ("echo" ∷ "file_read" ∷ "file_list" ∷ [])
    then "low"
    else if name == "file_write"
    then "write"
    else "exec"

-- `name in FILE_TOOLS`
unfoldable pub is_file_tool : String → Bool
is_file_tool name = elem name ("file_read" ∷ "file_write" ∷ "file_list" ∷ [])

-- `tag in RISKY_TAGS`
unfoldable pub is_risky : String → Bool
is_risky tag = elem tag ("write" ∷ "exec" ∷ "net" ∷ [])

abbrev open_rule : String → Option EngineId → String → PolicyRule
open_rule rule_id engine type = record {
  rule_id = rule_id;
  action = allow;
  engine = engine;
  message_type = some type;
  tool = none;
  principal_id = none;
  role = none;
}

abbrev tool_rule : String → Decision → Principal → String → PolicyRule
tool_rule prefix action p name = record {
  rule_id = prefix <> name;
  action = action;
  engine = some engine1;
  message_type = some "tool_call";
  tool = some name;
  principal_id = some (principal_id p);
  role = none;
}

-- The rules of the loop over `sorted(allowed_tools)`.
unfoldable pub tool_rules : Principal → List String → List PolicyRule
tool_rules p [] = []
tool_rules p (name ∷ names) =
    let rest = tool_rules p names in
    if is_operator p
    then tool_rule "tool-" allow p name ∷ rest
    else if is_risky (tool_tag name)
    then tool_rule "elevate-" elevate p name ∷ rest
    else rest

unfoldable pub rules_from_launch : List String → Principal → List PolicyRule
rules_from_launch allowed_tools p =
    open_rule "handshake" none "handshake"
    ∷ open_rule "llm-engine" (some engine3) "llm_request"
    ∷ open_rule "channel-query" none "user_query"
    ∷ open_rule "channel-response" none "agent_response"
    ∷ open_rule "tool-result" (some engine1) "tool_result"
    ∷ tool_rules p (sorted allowed_tools)

-- `PolicyEngine(...)` with no rules given.
abbrev pub launch_engine : String → List String → List String → Principal → PolicyEngine
launch_engine agent_id allowed_tools workspace_paths p = record {
  agent_id = agent_id;
  allowed_tools = allowed_tools;
  workspace_paths = workspace_paths;
  principal = p;
  rules = rules_from_launch allowed_tools p;
}

abbrev matches {ℓ} : {A : Type ℓ} → (A → Bool) → Option A → Bool
matches test none = true
matches test (some a) = test a

-- `PolicyEngine._matches`, on the parts of the message that it reads.
unfoldable pub rule_matches : PolicyEngine → PolicyRule → EngineId → String → Fields → Bool
rule_matches e rule source type payload =
    matches (engine_eq source) rule.engine
    && matches (λ t. type == t) rule.message_type
    && matches (λ name. type == "tool_call" && text_at "name" payload == name) rule.tool
    && matches (λ id. principal_id e.principal == id) rule.principal_id
    && matches (λ r. role_eq e.principal.role r) rule.role

abbrev denied : String → String → Option String → PolicyDecision
denied rule_id reason flag_code = record {
  decision = deny;
  rule_id = rule_id;
  reason = reason;
  flag_code = flag_code;
}

-- The loop over the rules.
unfoldable pub first_match :
    PolicyEngine → EngineId → String → Fields → List PolicyRule → PolicyDecision
first_match e source type payload [] = denied "default-deny" ("no rule for " <> type) none
first_match e source type payload (rule ∷ rules) =
    let rest = first_match e source type payload rules in
    if rule_matches e rule source type payload
    then record {
      decision = rule.action;
      rule_id = rule.rule_id;
      reason = "rule " <> rule.rule_id;
      flag_code = none;
    }
    else rest

-- Which engine may send which type; a decision if it may not.
unfoldable pub path_check : EngineId → String → Option PolicyDecision
path_check source type =
    if type == "handshake"
    then (if engine_eq source loop
        then none
        else some (denied "path" "only loop may handshake" none))
    else if engine_eq source node || elem type (allowed_outbound source)
    then none
    else some (
        denied "path" ("engine " <> (engine_text source <> (" may not send " <> type)))
          (if type == "tool_call" then some "engine_spoof" else none))

-- The path argument of a file tool, when there are arguments.
unfoldable pub argument_check : String → Value → Option PolicyDecision
argument_check name null = none
argument_check name arguments =
    let path = text_at "path" (dict_or_empty arguments) in
    let under =
      if name == "file_list" then workspace_list_relpath path else workspace_relpath path in
    elim under [
      | some rel ↦ none
      | none ↦ some (
          denied "path" ("path " <> (repr_text path <> " is outside /workspace"))
            (some "path_escape"))
    ]

abbrev pub or_null : Option Value → Value
or_null none = null
or_null (some v) = v

-- What a tool call has to pass before the rules are read.
unfoldable pub tool_check : PolicyEngine → Fields → Option PolicyDecision
unfolding argument_check
tool_check e payload =
    let name = text_at "name" payload in
    if not (elem name e.allowed_tools)
    then some (
        denied "tool-allowlist" ("tool " <> (repr_text name <> " not in launch allowlist"))
          (some "unknown_tool"))
    else if not (is_file_tool name)
    then none
    else if is_nil e.workspace_paths
    then some (denied "workspace" "file tools require an allowed workspace" none)
    else argument_check name (or_null (get "arguments" payload))

abbrev pub or_decide : Option PolicyDecision → PolicyDecision → PolicyDecision
or_decide (some d) rest = d
or_decide none rest = rest

-- `PolicyEngine.evaluate` on the source, the type and the payload of a message.
unfoldable pub decide : PolicyEngine → EngineId → String → Fields → PolicyDecision
decide e source type payload = or_decide (path_check source type) (
    or_decide (if type == "tool_call" then tool_check e payload else none)
      (first_match e source type payload e.rules))

unfoldable pub evaluate : PolicyEngine → Envelope → PolicyDecision
unfolding decide
evaluate e message = decide e message.source_engine message.type message.payload

-- `visible_tools`: the probe is a tool call of engine 1 with no arguments.
unfoldable pub visible_tools : PolicyEngine → List String
visible_tools e =
    select (λ name. is_allow (decide e engine1 "tool_call" (field "name" (str name) end)).decision)
      e.allowed_tools
