-- ===== src/Session/Answers.antt =====
-- What the branches of `serve` change.
use corvus_node.Prelude.{String, ◌≡◌, Option, none, some, ◌∷◌, arith, Bool-cases, inl, inr}
use corvus_node.Json.{Fields, dict_or_empty, get, field, str, end}
use corvus_node.Json.Text.{text_at}
use corvus_node.Protocol.{Envelope}
use corvus_node.Policy.{
  Decision, allow, deny, elevate, flag, PolicyDecision, evaluate, is_allow, or_null,
}
use corvus_node.Session.{SessionEnv, NodeSession, log_hop, log_flag, hop_of, note_decision}
use corvus_node.Session.Handlers.{
  decision_text, is_deny, Handled, answered, raised, workspace_tool, on_handshake, complete_llm,
  on_llm_request, approve_call, decided_call, flag_call, log_call, on_tool_call, on_tool_result,
  on_agent_response, on_memory, dispatch,
}
use corvus_node.Session.Frame.{
  Quiet, Still, Still-refl, Quiet-trans, Still-trans, log_hop-Quiet, log_hop-Still, log_flag-Still,
  log_elevate-Still, note_decision-Quiet, note_decision-Still,
}

abbrev pub handled_state : {env : SessionEnv} → Handled env → NodeSession env
handled_state (answered a) = a.state
handled_state (raised s) = s

module _ (env : SessionEnv) where
  complete_llm-state :
      (m : Envelope) (s : NodeSession env) → handled_state (complete_llm env m s) ≡ s
  unfolding complete_llm
  complete_llm-state m s = ground arith

  workspace_tool-Still :
      (name : String) (arguments : Fields) (s : NodeSession env)
      → Still s (workspace_tool env name arguments s).1
  unfolding workspace_tool
  workspace_tool-Still name arguments s = ground arith

  approve_call-Still :
      (m : Envelope) (reason : String) (s : NodeSession env)
      → Still s (approve_call env m reason s).state
  unfolding approve_call
  approve_call-Still m reason s =
      let args = dict_or_empty (or_null (get "arguments" m.payload)) in
      let name = text_at "name" m.payload in
      let call_id = text_at "id" m.payload in
      let s' : NodeSession env = record s { outstanding_calls = call_id ∷ s.outstanding_calls } in
      ground (arith, workspace_tool-Still name args s, workspace_tool-Still name args s')

  flag_call-Still :
      (m : Envelope) (code : Option String) (s : NodeSession env) → Still s (flag_call env m code s)
  unfolding flag_call
  flag_call-Still m none s = Still-refl s
  flag_call-Still m (some code) s = log_flag-Still env code (hop_of env m "tool_call") _ s

  log_call-Still :
      (m : Envelope) (d : PolicyDecision) (s : NodeSession env) → Still s (log_call env m d s)
  unfolding log_call
  log_call-Still m d s =
      Still-trans (log_hop-Still env _ _ _ s)
        (Still-trans (flag_call-Still m d.flag_code _) (note_decision-Still env _ _))

  decided_call-Still :
      (m : Envelope) (d : Decision) (reason : String) (s : NodeSession env)
      → Still s (decided_call env m d reason s).state
  unfolding decided_call
  decided_call-Still m allow reason s = approve_call-Still m reason s
  decided_call-Still m elevate reason s = log_elevate-Still env _ _ s
  decided_call-Still m deny reason s = Still-refl s
  decided_call-Still m flag reason s = Still-refl s

  -- A model request is logged, counted, and then answered or refused: nothing else changes.
  pub on_llm_request-frame :
      (m : Envelope) (s : NodeSession env)
      → Quiet s (handled_state (on_llm_request env m s))
        × Still s (handled_state (on_llm_request env m s))
  unfolding on_llm_request
  on_llm_request-frame m s =
      let d = evaluate s.policy m in
      let logged =
        log_hop env (hop_of env m "policy") (some (decision_text d.decision))
          (field "rule_id" (str d.rule_id) (field "reason" (str d.reason) end)) s in
      let noted = note_decision env (is_deny d.decision) logged in
      let quiet =
        Quiet-trans (log_hop-Quiet env _ _ _ s)
          (note_decision-Quiet env (is_deny d.decision) logged) in
      let still =
        Still-trans (log_hop-Still env _ _ _ s)
          (note_decision-Still env (is_deny d.decision) logged) in
      elim (Bool-cases (is_allow d.decision)) [
        | inl h ↦ rw (h, complete_llm-state m noted) (quiet, still)
        | inr h ↦ rw h (quiet, still)
      ]

  on_tool_result-Still :
      (m : Envelope) (s : NodeSession env) → Still s (on_tool_result env m s).state
  unfolding on_tool_result log_flag
  on_tool_result-Still m s = ground arith

  on_memory-Still : (m : Envelope) (s : NodeSession env) → Still s (on_memory env m s).state
  unfolding on_memory
  on_memory-Still m s =
      ground (arith, note_decision-Still env (is_deny (evaluate s.policy m).decision) s)

  tool_call-Still : (m : Envelope) (s : NodeSession env) → Still s (on_tool_call env m s).state
  unfolding on_tool_call
  tool_call-Still m s =
      let d = evaluate s.policy m in
      Still-trans (log_call-Still m d s)
        (decided_call-Still m d.decision d.reason (log_call env m d s))

  on_agent_response-Still :
      (m : Envelope) (s : NodeSession env) → Still s (on_agent_response env m s).state
  unfolding on_agent_response
  on_agent_response-Still m s = ground arith

  on_handshake-Still : (m : Envelope) (s : NodeSession env) → Still s (on_handshake env m s).state
  unfolding on_handshake
  on_handshake-Still m s = Still-refl s

  -- No branch touches the counters, the queues, the policy or the configuration.
  pub dispatch-Still :
      (m : Envelope) (s : NodeSession env) → Still s (handled_state (dispatch env m s))
  unfolding dispatch
  dispatch-Still m s = ground (
    arith,
    (on_llm_request-frame m s).1,
    tool_call-Still m s,
    on_tool_result-Still m s,
    on_memory-Still m s,
    on_agent_response-Still m s,
    on_handshake-Still m s,
  )
