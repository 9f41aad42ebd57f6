-- ===== src/Session/Calls.antt =====
-- Of what the session does with a message, only an approved call is added to those whose results are
-- awaited.
use corvus_node.Prelude.{
  String, ◌≡◌, refl, sym, ap, ◌∙◌, Bool, true, not, ◌&&◌, none, ◌∷◌, arith, elem, elem-discard,
  Bool-cases, inl, inr, ◌⊎◌, eq_iff, ◌==◌,
}
use corvus_node.Json.{Fields, end, get, dict_or_empty}
use corvus_node.Json.Text.{text_at}
use corvus_node.Protocol.{Envelope}
use corvus_node.Policy.{Decision, allow, elevate, deny, flag, evaluate, is_allow, or_null}
use corvus_node.Session.{SessionEnv, NodeSession, log_hop, log_flag, hop_of}
use corvus_node.Session.Frame.{
  Quiet, log_hop-Quiet, log_flag-Quiet, log_elevate-Quiet, note_decision-Quiet,
}
use corvus_node.Session.Answers.{handled_state, on_llm_request-frame}
use corvus_node.Session.Confined.{log_call-Quiet, dispatch-tool_call}
use corvus_node.Session.Handlers.{
  is_deny, workspace_tool, approve_call, decided_call, log_call, on_tool_call, on_tool_result,
  on_memory, on_handshake, on_agent_response, dispatch,
}
use corvus_node.Session.Gate.{was_done}
use corvus_node.Session.Settled.{step_state, conclude-Quiet}
use corvus_node.Session.Serve.{on_message}

module _ (env : SessionEnv) (id : String) where
  -- A result of the call with this id would be taken.
  abbrev pub IsOpen : NodeSession env → Type 0
  IsOpen s = elem id s.outstanding_calls ≡ true

  -- The message is a call with this id that the policy allows.
  abbrev pub Approves : Envelope → NodeSession env → Type 0
  Approves m s =
      (m.type ≡ "tool_call")
      × (is_allow (evaluate s.policy m).decision ≡ true)
      × (text_at "id" m.payload ≡ id)

  pub Quiet-IsOpen : {s t : NodeSession env} → Quiet s t → IsOpen t → IsOpen s
  Quiet-IsOpen q h = ap (elem id) (sym q.outstanding_calls) ∙ h

  workspace_tool-calls :
      (name : String) (arguments : Fields) (s : NodeSession env)
      → (workspace_tool env name arguments s).1.outstanding_calls ≡ s.outstanding_calls
  unfolding workspace_tool
  workspace_tool-calls name arguments s = ground arith

  approve_call-calls :
      (m : Envelope) (reason : String) (s : NodeSession env)
      → IsOpen (approve_call env m reason s).state
      → IsOpen s ⊎ (text_at "id" m.payload ≡ id)
  unfolding approve_call elem
  approve_call-calls m reason s h =
      let args = dict_or_empty (or_null (get "arguments" m.payload)) in
      let name = text_at "name" m.payload in
      let call_id = text_at "id" m.payload in
      let s' : NodeSession env = record s { outstanding_calls = call_id ∷ s.outstanding_calls } in
      ground (
        arith,
        h,
        workspace_tool-calls name args s,
        workspace_tool-calls name args s',
        eq_iff call_id id,
        eq_iff id call_id,
      )

  decided_call-calls :
      (m : Envelope) (d : Decision) (reason : String) (s : NodeSession env)
      → IsOpen (decided_call env m d reason s).state
      → IsOpen s ⊎ ((is_allow d ≡ true) × (text_at "id" m.payload ≡ id))
  unfolding decided_call
  decided_call-calls m allow reason s h = elim (approve_call-calls m reason s h) [
    | inl p ↦ inl p
    | inr e ↦ inr (refl, e)
  ]
  decided_call-calls m elevate reason s h = inl (Quiet-IsOpen (log_elevate-Quiet env _ _ s) h)
  decided_call-calls m deny reason s h = inl h
  decided_call-calls m flag reason s h = inl h

  on_tool_call-calls :
      (m : Envelope) (s : NodeSession env)
      → IsOpen (on_tool_call env m s).state
      → IsOpen s
        ⊎ ((is_allow (evaluate s.policy m).decision ≡ true) × (text_at "id" m.payload ≡ id))
  unfolding on_tool_call
  on_tool_call-calls m s h =
      let d = evaluate s.policy m in
      elim (decided_call-calls m d.decision d.reason (log_call env m d s) h) [
        | inl p ↦ inl (Quiet-IsOpen (log_call-Quiet env m d s) p)
        | inr a ↦ inr a
      ]

  on_tool_result-calls :
      (m : Envelope) (s : NodeSession env) → IsOpen (on_tool_result env m s).state → IsOpen s
  unfolding on_tool_result log_flag
  on_tool_result-calls m s h =
      ground (arith, h, elem-discard id (text_at "id" m.payload) s.outstanding_calls)

  on_memory-calls :
      (m : Envelope) (s : NodeSession env)
      → (on_memory env m s).state.outstanding_calls ≡ s.outstanding_calls
  unfolding on_memory
  on_memory-calls m s = ground (
    arith,
    (note_decision-Quiet env (is_deny (evaluate s.policy m).decision) s).outstanding_calls,
  )

  -- Of the branches, only that of the calls opens one.
  dispatch-calls :
      (m : Envelope) (s : NodeSession env)
      → IsOpen (handled_state (dispatch env m s))
      → IsOpen s ⊎ Approves m s
  unfolding dispatch on_handshake on_agent_response
  dispatch-calls m s h = elim (Bool-cases (m.type == "tool_call")) [
    | inl k ↦
        let e : m.type ≡ "tool_call" = (eq_iff m.type "tool_call").0 k in
        elim (on_tool_call-calls m s (
          ap (λ a. elem id (handled_state a).outstanding_calls) (sym (dispatch-tool_call env m s e))
          ∙ h)) [ inl p ↦ inl p | inr (a, i) ↦ inr (e, a, i) ]
    | inr k ↦ inl (
        ground (
          arith,
          h,
          k,
          (on_llm_request-frame env m s).0.outstanding_calls,
          on_tool_result-calls m s,
          on_memory-calls m s,
        ))
  ]

  pub on_message-calls :
      (done : Bool) (m : Envelope) (s : NodeSession env)
      → IsOpen (step_state (on_message env done m s))
      → IsOpen s ⊎ ((done ≡ true) × Approves m s)
  unfolding on_message
  on_message-calls done m s h =
      let logged = log_hop env (hop_of env m m.type) none end s in
      let quiet = log_hop-Quiet env (hop_of env m m.type) none end s in
      elim (Bool-cases (not done && not (m.type == "handshake"))) [
        | inl k ↦ inl (
            Quiet-IsOpen quiet
              (Quiet-IsOpen (log_flag-Quiet env "pre_handshake" _ _ logged) (rw k at h)))
        | inr k ↦
            elim (dispatch-calls m logged
              (Quiet-IsOpen (conclude-Quiet env m (dispatch env m logged)) (rw k at h))) [
                | inl p ↦ inl (Quiet-IsOpen quiet p)
                | inr (e, a, i) ↦
                    inr (was_done env done (rw e at k), (e, rw (quiet.policy) at a, i))
              ]
      ]
