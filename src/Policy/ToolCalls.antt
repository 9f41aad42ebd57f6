-- ===== src/Policy/ToolCalls.antt =====
-- Which messages the filter lets through, under the rules of a launch.
use corvus_node.Prelude.{
  String, ◌≡◌, refl, ◌∙◌, ◌↔◌, ◌⊎◌, Bool, true, false, not, ◌&&◌, ◌||◌, Option, none, some, List,
  elem, elem-select, ◌==◌, arith, if◌then◌else◌,
}
use corvus_node.Json.{Fields, str, end, field, get, null, Value, dict_or_empty}
use corvus_node.Json.Text.{text_at}
use corvus_node.Identity.{Principal, is_operator}
use corvus_node.Protocol.{
  Envelope, EngineId, loop, engine1, engine2, engine3, node, engine_eq, allowed_outbound,
}
use corvus_node.Protocol.Validator.{engine_eq_iff}
use corvus_node.Tools.Paths.{workspace_relpath, workspace_list_relpath, is_nil}
use corvus_node.Policy.{
  allow, PolicyDecision, launch_engine, is_allow, is_file_tool, path_check, tool_check,
  argument_check, or_null, or_decide, decide, evaluate, visible_tools, first_match,
  rules_from_launch,
}
use corvus_node.Policy.Launch.{launch_rules_tool_call}

-- The path of a file tool's arguments, when there are any, lies under /workspace; `file_list` may
-- name /workspace itself.
abbrev pub found {ℓ} : {A : Type ℓ} → Option A → Bool
found none = false
found (some _) = true

abbrev pub path_ok : String → Option Value → Bool
path_ok name none = true
path_ok name (some null) = true
path_ok name (some arguments) =
    let path = text_at "path" (dict_or_empty arguments) in
    if name == "file_list"
    then found (workspace_list_relpath path)
    else found (workspace_relpath path)

-- A tool that is no file tool needs no workspace; a file tool needs one, and a path under it.
abbrev pub workspace_ok : List String → Fields → Bool
workspace_ok paths payload =
    let name = text_at "name" payload in
    not (is_file_tool name) || (not (is_nil paths) && path_ok name (get "arguments" payload))

argument_check-path_ok :
    (name : String) (arguments : Option Value)
    → found (argument_check name (or_null arguments)) ≡ not (path_ok name arguments)
unfolding argument_check
argument_check-path_ok name none = refl
argument_check-path_ok name (some null) = refl
argument_check-path_ok name (some _) = ground arith

named : (name : String) → text_at "name" (field "name" (str name) end) ≡ name
unfolding text_at
named name = refl

no_arguments : (name : String) → get "arguments" (field "name" (str name) end) ≡ none
unfolding get
no_arguments name = refl

abbrev pub chat : EngineId → String → Bool
chat source type =
    (type == "handshake" && engine_eq source loop)
    || (type == "llm_request" && engine_eq source engine3)
    || (type == "user_query" && (engine_eq source engine2 || engine_eq source node))
    || (type == "agent_response" && (engine_eq source engine2 || engine_eq source node))
    || (type == "tool_result" && engine_eq source engine1)

-- Only engine 1, or a sender that says it is the Node, gets a tool call past the type check.
may_call :
    (source : EngineId)
    → (engine_eq source node || elem "tool_call" (allowed_outbound source))
      ≡ (engine_eq source engine1 || engine_eq source node)
unfolding allowed_outbound elem
may_call source = ground arith

module _ (agent : String) (tools paths : List String) (p : Principal) where
  tool_check-found :
      (payload : Fields)
      → found (tool_check (launch_engine agent tools paths p) payload)
        ≡ not (elem (text_at "name" payload) tools && workspace_ok paths payload)
  unfolding tool_check
  tool_check-found payload =
      ground (arith, argument_check-path_ok (text_at "name" payload) (get "arguments" payload))

  -- What the checks before the rules decide is always a denial.
  or_decide-argument_check :
      (name : String) (arguments : Option Value) (rest : PolicyDecision)
      → is_allow (or_decide (argument_check name (or_null arguments)) rest).decision
        ≡ (path_ok name arguments && is_allow rest.decision)
  unfolding argument_check
  or_decide-argument_check name none rest = refl
  or_decide-argument_check name (some null) rest = refl
  or_decide-argument_check name (some _) rest = ground arith

  or_decide-tool_check :
      (payload : Fields) (rest : PolicyDecision)
      → is_allow (or_decide (tool_check (launch_engine agent tools paths p) payload) rest).decision
        ≡ (elem (text_at "name" payload) tools
            && workspace_ok paths payload
            && is_allow rest.decision)
  unfolding tool_check
  or_decide-tool_check payload rest =
      let name = text_at "name" payload in
      ground (arith, or_decide-argument_check name (get "arguments" payload) rest)

  rules_part :
      (source : EngineId) (payload : Fields)
      → is_allow
          (or_decide (tool_check (launch_engine agent tools paths p) payload) (
            first_match
              (launch_engine agent tools paths p)
              source
              "tool_call"
              payload
              (rules_from_launch tools p))).decision
        ≡ (engine_eq source engine1
            && is_operator p
            && elem (text_at "name" payload) tools
            && workspace_ok paths payload)
  rules_part source payload =
      or_decide-tool_check payload _
      ∙ rw (launch_rules_tool_call (launch_engine agent tools paths p) source payload tools)
          (ground arith)

  decide_tool_call :
      (source : EngineId) (payload : Fields)
      → is_allow (decide (launch_engine agent tools paths p) source "tool_call" payload).decision
        ≡ (engine_eq source engine1
            && is_operator p
            && elem (text_at "name" payload) tools
            && workspace_ok paths payload)
  unfolding decide path_check
  decide_tool_call source payload = rw may_call (ground (arith, rules_part source payload))

  -- Under the rules of a launch, a tool call is allowed exactly when engine 1 sends it, the
  -- principal is an operator, the tool was launched, and, for a file tool, a workspace is allowed
  -- and the path in its arguments, when it has any, lies under /workspace.
  pub evaluate-tool_call_iff :
      (message : Envelope)
      → message.type ≡ "tool_call"
      → let name = text_at "name" message.payload in
        ((evaluate (launch_engine agent tools paths p) message).decision ≡ allow) ↔ (
          (message.source_engine ≡ engine1)
          × (is_operator p ≡ true)
          × (elem name tools ≡ true)
          × ((is_file_tool name ≡ false)
              ⊎ ((is_nil paths ≡ false) × (path_ok name (get "arguments" message.payload) ≡ true))))
  unfolding evaluate
  evaluate-tool_call_iff message t = rw t (
      ground (
        arith,
        decide_tool_call message.source_engine message.payload,
        engine_eq_iff message.source_engine engine1,
      ))

  -- A tool is visible exactly when it was launched, the principal is an operator and, for a file
  -- tool, a workspace is allowed.
  pub elem-visible_tools :
      (name : String)
      → elem name (visible_tools (launch_engine agent tools paths p))
        ≡ (elem name tools && (is_operator p && (not (is_file_tool name) || not (is_nil paths))))
  unfolding visible_tools
  elem-visible_tools name =
      elem-select _ name tools
      ∙ rw (decide_tool_call engine1 (field "name" (str name) end), named name, no_arguments name)
          (ground arith)
