-- ===== src/Session/Journal.antt =====
-- The audit journal verifies after every branch of a session's loop.
use corvus_node.Prelude.{
  String, ◌≡◌, refl, Bool, true, false, not, Option, none, some, List, [], ◌∷◌, elem, ltb, arith,
  if◌then◌else◌, ◌==◌, starts_with,
}
use Prim.Native.String.{count}
use corvus_node.Json.{Fields, end, dict_or_empty, get}
use corvus_node.Json.Text.{text_at}
use corvus_node.Protocol.{Envelope}
use corvus_node.Policy.{Decision, allow, deny, elevate, flag, evaluate, is_allow, or_null}
use corvus_node.Workspace.{Resolved, folder, unusable, resolve_host_workspace}
use corvus_node.Session.{SessionEnv, NodeSession, tool_result_max}
use corvus_node.Session.Handlers.{
  Answer, Handled, workspace_tool, complete_llm, on_llm_request, approve_call, decided_call,
  flag_call, log_call, on_tool_call, on_tool_result, on_agent_response, on_handshake, on_memory,
  dispatch, is_deny,
}
use corvus_node.Session.Serve.{Step}
use corvus_node.Session.Answers.{handled_state}
use corvus_node.Session.Settled.{step_state}
use corvus_node.Session.Logged.{
  IsLogged, log_hop-IsLogged, log_flag-IsLogged, log_elevate-IsLogged, note_decision-IsLogged,
}

module _ (env : SessionEnv) where
  workspace_tool-audit :
      (name : String) (arguments : Fields) (s : NodeSession env)
      → (workspace_tool env name arguments s).1.audit ≡ s.audit
  unfolding workspace_tool
  workspace_tool-audit name arguments s = by_paths s.config.workspace_paths refl
    where
      by_root :
          (first : String) (rest : List String)
          → s.config.workspace_paths ≡ first ∷ rest
          → (r : Resolved) → resolve_host_workspace env.fs s.disk first ≡ r
          → (workspace_tool env name arguments s).1.audit ≡ s.audit
      by_root first rest e (unusable reason) f = rw (e, f, workspace_tool) refl
      by_root first rest e (folder root) f = rw (e, f, workspace_tool) (ground arith)

      by_paths :
          (paths : List String)
          → s.config.workspace_paths ≡ paths
          → (workspace_tool env name arguments s).1.audit ≡ s.audit
      by_paths [] e = rw (e, workspace_tool) refl
      by_paths (first ∷ rest) e =
          by_root first rest e (resolve_host_workspace env.fs s.disk first) refl

  approve_call-audit :
      (m : Envelope) (reason : String) (s : NodeSession env)
      → (approve_call env m reason s).state.audit ≡ s.audit
  unfolding approve_call
  approve_call-audit m reason s =
      let name = text_at "name" m.payload in
      let arguments = dict_or_empty (or_null (get "arguments" m.payload)) in
      ground (
        arith,
        workspace_tool-audit name arguments s,
        workspace_tool-audit name arguments
            (record s { outstanding_calls = text_at "id" m.payload ∷ s.outstanding_calls }),
      )

  decided_call-IsLogged :
      (m : Envelope) (d : Decision) (reason : String) (s : NodeSession env)
      → IsLogged env s
      → IsLogged env (decided_call env m d reason s).state
  unfolding decided_call
  decided_call-IsLogged m allow reason s v = rw (approve_call-audit m reason s) v
  decided_call-IsLogged m elevate reason s v = log_elevate-IsLogged env _ _ s v
  decided_call-IsLogged m deny reason s v = v
  decided_call-IsLogged m flag reason s v = v

  flag_call-IsLogged :
      (m : Envelope) (code : Option String) (s : NodeSession env)
      → IsLogged env s
      → IsLogged env (flag_call env m code s)
  unfolding flag_call
  flag_call-IsLogged m none s v = v
  flag_call-IsLogged m (some code) s v = log_flag-IsLogged env code _ end s v

  on_tool_call-IsLogged :
      (m : Envelope) (s : NodeSession env)
      → IsLogged env s
      → IsLogged env (on_tool_call env m s).state
  unfolding on_tool_call log_call
  on_tool_call-IsLogged m s v =
      let d = evaluate s.policy m in
      decided_call-IsLogged m d.decision d.reason (log_call env m d s) (
        note_decision-IsLogged env _ _
          (flag_call-IsLogged m d.flag_code _ (log_hop-IsLogged env _ _ _ s v)))

  complete_llm-audit :
      (m : Envelope) (s : NodeSession env) → (handled_state (complete_llm env m s)).audit ≡ s.audit
  unfolding complete_llm
  complete_llm-audit m s = ground arith

  -- Both branches of a test.
  pub if-IsLogged :
      {A : Type 0} (of : A → NodeSession env) (b : Bool) (x y : A)
      → IsLogged env (of x)
      → IsLogged env (of y)
      → IsLogged env (of (if b then x else y))
  if-IsLogged of true x y v w = v
  if-IsLogged of false x y v w = w

  abbrev handled : Handled env → NodeSession env
  handled h = handled_state h

  abbrev answer_state : Answer env → NodeSession env
  answer_state a = a.state

  abbrev pub left : Step env → NodeSession env
  left t = step_state t

  on_llm_request-IsLogged :
      (m : Envelope) (s : NodeSession env)
      → IsLogged env s
      → IsLogged env (handled_state (on_llm_request env m s))
  unfolding on_llm_request
  on_llm_request-IsLogged m s v =
      let d = evaluate s.policy m in
      let noted =
        note_decision-IsLogged env (is_deny d.decision) _ (log_hop-IsLogged env _ _ _ s v) in
      if-IsLogged handled (is_allow d.decision) _ _ (rw (complete_llm-audit m _) noted) noted

  on_tool_result-IsLogged :
      (m : Envelope) (s : NodeSession env)
      → IsLogged env s
      → IsLogged env (on_tool_result env m s).state
  unfolding on_tool_result
  on_tool_result-IsLogged m s v =
      if-IsLogged answer_state (not (elem (text_at "id" m.payload) s.outstanding_calls)) _ _
        (log_flag-IsLogged env _ _ end s v)
        (if-IsLogged answer_state (ltb tool_result_max (count (text_at "result" m.payload))) _ _
          (log_flag-IsLogged env _ _ end s v) v)

  on_memory-IsLogged :
      (m : Envelope) (s : NodeSession env) → IsLogged env s → IsLogged env (on_memory env m s).state
  unfolding on_memory
  on_memory-IsLogged m s v =
      let d = evaluate s.policy m in
      let noted = note_decision-IsLogged env (is_deny d.decision) s v in
      if-IsLogged answer_state (not (is_allow d.decision)) _ _ noted
        (if-IsLogged answer_state (m.type == "memory:write") _ _ noted noted)

  pub dispatch-IsLogged :
      (m : Envelope) (s : NodeSession env)
      → IsLogged env s
      → IsLogged env (handled_state (dispatch env m s))
  unfolding dispatch on_handshake on_agent_response
  dispatch-IsLogged m s v = if-IsLogged handled (m.type == "handshake") _ _ v (
      if-IsLogged handled (m.type == "llm_request") _ _ (on_llm_request-IsLogged m s v) (
        if-IsLogged handled (m.type == "tool_call") _ _ (on_tool_call-IsLogged m s v) (
          if-IsLogged handled (m.type == "tool_result") _ _ (on_tool_result-IsLogged m s v) (
            if-IsLogged handled (m.type == "agent_response") _ _ v (
              if-IsLogged handled (starts_with m.type "memory:") _ _ (on_memory-IsLogged m s v)
                v)))))
