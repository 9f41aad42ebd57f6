-- ===== src/Session/Replies.antt =====
-- What the session's replies to tool results and model requests say.
use Prim.Native.String.{count}
use corvus_node.Prelude.{
  String, ◌≡◌, ◌≢◌, ◌≤◌, refl, sym, ap, ◌∙◌, true, false, Option, none, some, List, [], ◌∷◌, All,
  arith, ltb, elem, elem-discard, discard, Bool-cases, inl, inr, eq_refl, eq_iff,
}
use mathlib.Core.Path.{subst}
use corvus_node.Json.{Value, Fields, get, field, str, end}
use corvus_node.Json.Text.{text_at}
use corvus_node.Protocol.{Envelope}
use corvus_node.Session.Frame.{log_hop-Quiet, note_decision-Quiet}
use corvus_node.Policy.{PolicyEngine, evaluate, is_allow, visible_tools, or_null}
use corvus_node.Session.{
  SessionEnv, NodeSession, Completion, tool_result_max, log_hop, note_decision, hop_of,
}
use corvus_node.Session.Handlers.{
  decision_text, is_deny, Answer, answered, complete_llm, on_llm_request, on_tool_result,
  visible_calls, llm_payload, filter_schema, list_of,
}

visible_calls-All :
    (visible : List String) (calls : List Fields)
    → All
        (λ (call : Fields). elem (text_at "name" call) visible ≡ true)
        (visible_calls visible calls)
unfolding visible_calls
visible_calls-All visible [] = tt
visible_calls-All visible (call ∷ calls) = elim (Bool-cases (elem (text_at "name" call) visible)) [
  | inl h ↦ rw h (h, visible_calls-All visible calls)
  | inr h ↦ rw h (visible_calls-All visible calls)
]

-- An error is no acknowledgement and no completion.
error_is_no_ack : ◌≢◌ {A = String} "error" "tool_result_ack"
error_is_no_ack e = cc ((eq_iff "error" "tool_result_ack").1 e)

error_is_no_response : ◌≢◌ {A = String} "error" "llm_response"
error_is_no_response e = cc ((eq_iff "error" "llm_response").1 e)

module _ (env : SessionEnv) (m : Envelope) where
  abbrev result_id : String
  result_id = text_at "id" m.payload

  on_tool_result_unbound :
      (s : NodeSession env)
      → elem result_id s.outstanding_calls ≡ false
      → (on_tool_result env m s).type ≡ "error"
  unfolding on_tool_result
  on_tool_result_unbound s h = rw (on_tool_result, h) refl

  on_tool_result_bound :
      (s : NodeSession env)
      → elem result_id s.outstanding_calls ≡ true
      → ltb tool_result_max (count (text_at "result" m.payload)) ≡ false
      → (on_tool_result env m s).state.outstanding_calls ≡ discard result_id s.outstanding_calls
  unfolding on_tool_result
  on_tool_result_bound s h k = rw (on_tool_result, h, k) refl

  on_tool_result_too_large :
      (s : NodeSession env)
      → elem result_id s.outstanding_calls ≡ true
      → ltb tool_result_max (count (text_at "result" m.payload)) ≡ true
      → (on_tool_result env m s).type ≡ "error"
  unfolding on_tool_result
  on_tool_result_too_large s h k = rw (on_tool_result, h, k) refl

  gone : (ids : List String) → elem result_id (discard result_id ids) ≡ false
  gone ids = elem-discard result_id result_id ids ∙ rw (eq_refl result_id) refl

  -- A tool result is acknowledged only for an approved call that is outstanding and a result
  -- within the limit, and only once: the same message after it is answered with an error.
  pub on_tool_result_once :
      (s : NodeSession env)
      → (on_tool_result env m s).type ≡ "tool_result_ack"
      → (elem result_id s.outstanding_calls ≡ true)
        × (count (text_at "result" m.payload) ≤ tool_result_max)
        × ((on_tool_result env m (on_tool_result env m s).state).type ≡ "error")
  on_tool_result_once s h = elim (Bool-cases (elem result_id s.outstanding_calls)) [
    | inr lacks ↦ absurd (error_is_no_ack (sym (on_tool_result_unbound s lacks) ∙ h))
    | inl held ↦ elim (Bool-cases (ltb tool_result_max (count (text_at "result" m.payload)))) [
      | inl big ↦ absurd (error_is_no_ack (sym (on_tool_result_too_large s held big) ∙ h))
      | inr fits ↦ (
        held,
        ground (arith, fits),
        on_tool_result_unbound (on_tool_result env m s).state
            (ap (elem result_id) (on_tool_result_bound s held fits) ∙ gone s.outstanding_calls),
      )
    ]
  ]

  -- A completion whose calls are all visible.
  abbrev pub Offers : List String → Answer env → Type 0
  Offers visible a =
      (content : String) × (calls : List Fields) × (a.payload ≡ llm_payload content calls)
      × All (λ (call : Fields). elem (text_at "name" call) visible ≡ true) calls

  answered_inj : {a b : Answer env} → answered a ≡ answered b → a ≡ b
  answered_inj e = cc e

  complete_llm-Offers :
      (s : NodeSession env) {a : Answer env}
      → complete_llm env m s ≡ answered a
      → Offers (visible_tools s.policy) a
  unfolding complete_llm
  complete_llm-Offers s {a} h =
      by_schema (filter_schema visible (or_null (get "tools_schema" m.payload))) refl
    where
      visible : List String
      visible = visible_tools s.policy

      by_completion :
          (schema : Value) (messages : List Value) (c : Option Completion)
          → filter_schema visible (or_null (get "tools_schema" m.payload)) ≡ some schema
          → list_of (or_null (get "messages" m.payload)) ≡ some messages
          → env.complete messages schema ≡ c
          → Offers visible a
      by_completion schema messages none e f g = cc (rw (complete_llm, e, f, g) at h)
      by_completion schema messages (some c) e f g =
          subst (Offers visible) (answered_inj (rw (complete_llm, e, f, g) at h)) (
            c.content,
            visible_calls visible c.tool_calls,
            refl,
            visible_calls-All visible c.tool_calls,
          )

      by_messages :
          (schema : Value) (o : Option (List Value))
          → filter_schema visible (or_null (get "tools_schema" m.payload)) ≡ some schema
          → list_of (or_null (get "messages" m.payload)) ≡ o
          → Offers visible a
      by_messages schema none e f = cc (rw (complete_llm, e, f) at h)
      by_messages schema (some messages) e f =
          by_completion schema messages (env.complete messages schema) e f refl

      by_schema :
          (o : Option Value)
          → filter_schema visible (or_null (get "tools_schema" m.payload)) ≡ o
          → Offers visible a
      by_schema none e = cc (rw (complete_llm, e) at h)
      by_schema (some schema) e =
          by_messages schema (list_of (or_null (get "messages" m.payload))) e refl

  abbrev logged : NodeSession env → NodeSession env
  logged s =
      let d = evaluate s.policy m in
      log_hop env (hop_of env m "policy") (some (decision_text d.decision))
        (field "rule_id" (str d.rule_id) (field "reason" (str d.reason) end)) s

  -- A model request is answered with a completion only if the policy allows it, and the completion
  -- calls only tools that are visible under the policy.
  pub on_llm_request-Offers :
      (s : NodeSession env) {a : Answer env}
      → on_llm_request env m s ≡ answered a
      → a.type ≡ "llm_response"
      → (is_allow (evaluate s.policy m).decision ≡ true) × Offers (visible_tools s.policy) a
  unfolding on_llm_request
  on_llm_request-Offers s {a} h t = elim (Bool-cases (is_allow (evaluate s.policy m).decision)) [
    | inl held ↦
        let noted = note_decision env (is_deny (evaluate s.policy m).decision) (logged s) in
        let same : noted.policy ≡ s.policy =
          (note_decision-Quiet env (is_deny (evaluate s.policy m).decision) (logged s)).policy
          ∙ (log_hop-Quiet env (hop_of env m "policy") _ _ s).policy in
        (
          held,
          subst (λ (p : PolicyEngine). Offers (visible_tools p) a) same
              (complete_llm-Offers noted (rw (on_llm_request, held) at h)),
        )
    | inr lacks ↦ absurd (
        error_is_no_response
          (ap (λ (x : Answer env). x.type) (answered_inj (rw (on_llm_request, lacks) at h)) ∙ t))
  ]
