-- ===== src/Policy/Launch.antt =====
-- The rules that a launch installs, walked by the first-match loop.
use corvus_node.Prelude.{
  String, ◌≡◌, refl, true, false, ◌&&◌, ◌||◌, List, [], ◌∷◌, elem, sorted, elem-sorted, ◌==◌,
  eq_refl, arith, Bool-cases, inl, inr,
}
use corvus_node.Json.{Fields}
use corvus_node.Json.Text.{text_at}
use corvus_node.Identity.{principal_id, is_operator}
use corvus_node.Protocol.{EngineId, engine1, engine3, engine_eq}
use corvus_node.Policy.{
  PolicyEngine, is_allow, tool_rules, rules_from_launch, rule_matches, first_match,
}

module _ (e : PolicyEngine) (source : EngineId) (payload : Fields) where
  -- For the operator a tool call is allowed by the rules exactly when engine 1 sends it and its
  -- name is among the tools.
  operator_rules :
      (names : List String)
      → is_operator e.principal ≡ true
      → is_allow (first_match e source "tool_call" payload (tool_rules e.principal names)).decision
        ≡ (engine_eq source engine1 && elem (text_at "name" payload) names)
  unfolding first_match tool_rules rule_matches elem
  operator_rules [] h = ground arith
  operator_rules (name ∷ names) h =
      rw (h, eq_refl (principal_id e.principal)) (ground (arith, operator_rules names h))

  -- For anyone else no rule allows a tool call.
  other_rules :
      (names : List String)
      → is_operator e.principal ≡ false
      → is_allow (first_match e source "tool_call" payload (tool_rules e.principal names)).decision
        ≡ false
  unfolding first_match tool_rules rule_matches
  other_rules [] h = refl
  other_rules (name ∷ names) h = rw h (ground (arith, other_rules names h))

  -- No tool rule speaks of another type of message.
  tool_rules_silent :
      (type : String) (names : List String)
      → (type == "tool_call") ≡ false
      → is_allow (first_match e source type payload (tool_rules e.principal names)).decision ≡ false
  unfolding first_match tool_rules rule_matches
  tool_rules_silent type [] h = refl
  tool_rules_silent type (name ∷ names) h = ground (arith, tool_rules_silent type names h)

  -- Under the rules of a launch a tool call passes the rules exactly when the speaker is the
  -- operator, engine 1 sends it, and the tool was launched.
  pub launch_rules_tool_call :
      (tools : List String)
      → is_allow
          (first_match e source "tool_call" payload (rules_from_launch tools e.principal)).decision
        ≡ (is_operator e.principal
            && (engine_eq source engine1 && elem (text_at "name" payload) tools))
  unfolding first_match rules_from_launch rule_matches
  launch_rules_tool_call tools =
      let found = elem-sorted (text_at "name" payload) tools in
      elim (Bool-cases (is_operator e.principal)) [
        | inl h ↦ ground (arith, h, operator_rules (sorted tools) h, found)
        | inr h ↦ ground (arith, h, other_rules (sorted tools) h)
      ]

  -- The five open rules and no other allow a message that is no tool call.
  pub launch_rules_open :
      (type : String) (tools : List String)
      → (type == "tool_call") ≡ false
      → is_allow (first_match e source type payload (rules_from_launch tools e.principal)).decision
        ≡ (type == "handshake"
            || (type == "llm_request" && engine_eq source engine3)
            || type == "user_query"
            || type == "agent_response"
            || (type == "tool_result" && engine_eq source engine1))
  unfolding first_match rules_from_launch rule_matches
  launch_rules_open type tools h = ground (arith, tool_rules_silent type (sorted tools) h)
