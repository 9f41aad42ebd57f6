-- ===== src/Tests/Replies.antt =====
-- Replies of a session.
use Prim.Native.String.{count}
use corvus_node.Prelude.{◌≡◌, ◌≤◌, refl, true, some, none, List, [], ◌∷◌, elem, sorted, join}
use corvus_node.Json.{str, arr, nil, field, end, get}
use corvus_node.Json.Text.{text, text_at}
use corvus_node.Protocol.{Envelope, engine1, engine3, allowed_outbound}
use corvus_node.Prelude.Int.{◌+ℤ◌}
use corvus_node.Protocol.Mac.{verify, payload_digest, compute_mac}
use corvus_node.Tools.Paths.{workspace_relpath}
use corvus_node.Workspace.{resolve_host_workspace}
use corvus_node.Policy.{
  tool_check, is_file_tool, tool_tag, is_risky, evaluate, decide, path_check, is_allow,
  visible_tools, first_match, rules_from_launch, tool_rules, rule_matches,
}
use corvus_node.Session.{
  reply, write, sign_out, note_decision, log_hop, SessionEnv, NodeSession, new_session,
  tool_result_max,
}
use corvus_node.Session.Answers.{handled_state}
use corvus_node.Session.Handlers.{
  Answer, answered, on_tool_result, on_llm_request, complete_llm, dispatch, on_tool_call,
  decided_call, log_call, flag_call, approve_call, workspace_tool, visible_calls, filter_schema,
  llm_payload,
}
use corvus_node.Session.Replies.{Offers, on_llm_request-Offers}
use corvus_node.Session.Approved.{Approved, on_tool_result-Approved}
use corvus_node.Session.Settled.{step_state}
use corvus_node.Session.Serve.{
  Incoming, going, line, step, serve_loop, count_line, on_decoded, on_verified, on_message,
  conclude,
}
use corvus_node.Identity.{is_operator, principal_id}
use corvus_node.Audit.{new_jsonl_store}
use corvus_node.Tests.Inputs.{env, config, session, message}

abbrev result : Envelope
result = message engine1 "tool_result" (field "id" (str "1") (field "result" (str "ok") end))

abbrev one_line : List Incoming
one_line = line "x" ∷ []

abbrev called : NodeSession env
called = step_state (serve_loop env one_line true session)

-- The line is a call of file_write, which is launched.
called_goes_on : serve_loop env one_line true session ≡ going true called
unfolding serve_loop step count_line new_session on_decoded on_verified verify ◌+ℤ◌ payload_digest
    compute_mac on_message conclude dispatch
called_goes_on = refl

acknowledged : (on_tool_result env result called).type ≡ "tool_result_ack"
unfolding serve_loop step on_tool_result elem count_line new_session on_decoded on_verified verify
    ◌+ℤ◌ payload_digest compute_mac on_message conclude dispatch reply write log_hop sign_out
    on_tool_call decided_call log_call flag_call approve_call workspace_tool evaluate decide
    path_check allowed_outbound first_match rules_from_launch rule_matches note_decision tool_check
    tool_rules sorted is_operator principal_id is_file_tool tool_tag text text_at is_risky get
    workspace_relpath join resolve_host_workspace
acknowledged = refl

on_tool_result-Approved_example :
    Approved env "1" one_line true session
    × (count "ok" ≤ tool_result_max)
    × ((on_tool_result env result (on_tool_result env result called).state).type ≡ "error")
unfolding text_at get text new_session
on_tool_result-Approved_example =
    on_tool_result-Approved env one_line true session result refl called_goes_on acknowledged

-- A model that calls a tool that is not launched.
abbrev eager_env : SessionEnv
eager_env = record env {
  complete =
      λ ms schema. some (record { content = "hi"; tool_calls = field "name" (str "rm") end ∷ [] });
}

abbrev asked : NodeSession eager_env
asked = new_session eager_env config new_jsonl_store "k" none none "old"

abbrev request : Envelope
request = message engine3 "llm_request" (field "messages" (arr nil) end)

abbrev spoken : Answer eager_env
spoken = record {
  type = "llm_response";
  payload = llm_payload "hi" [];
  state = handled_state (on_llm_request eager_env request asked);
}

first_reply : on_llm_request eager_env request asked ≡ answered spoken
unfolding on_llm_request evaluate decide path_check elem allowed_outbound first_match new_session
    rules_from_launch rule_matches complete_llm filter_schema get visible_calls visible_tools
    note_decision log_hop tool_check tool_rules sorted is_operator principal_id is_file_tool
    tool_tag text text_at is_risky
first_reply = refl

on_llm_request-Offers_example :
    (is_allow (evaluate asked.policy request).decision ≡ true)
    × Offers eager_env request (visible_tools asked.policy) spoken
on_llm_request-Offers_example = on_llm_request-Offers eager_env request asked first_reply refl
