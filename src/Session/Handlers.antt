-- ===== src/Session/Handlers.antt =====
-- The branches of `serve`, one for each type of message. A branch gives the type and the payload of
-- its reply and the new state.
use Prim.Native.String.{count}
use corvus_node.Prelude.{
  String, Bool, true, false, not, Option, none, some, List, [], ◌∷◌, select, elem, discard, sorted,
  ltb, ◌==◌, starts_with, of_chars, chars, Char, if◌then◌else◌,
}
use corvus_node.Json.{
  Value, null, boolean, str, arr, obj, Items, nil, cons, Fields, end, field, get, truthy,
  dict_or_empty, item_list, str_items,
}
use corvus_node.Json.Text.{text_at}
use corvus_node.Protocol.{Envelope}
use corvus_node.Policy.{
  Decision, allow, deny, elevate, flag, PolicyDecision, evaluate, visible_tools, is_allow,
  is_file_tool, or_null,
}
use corvus_node.Memory
use corvus_node.Workspace.{
  folder, unusable, resolve_host_workspace, host_file_read, host_file_list, host_file_write,
}
use corvus_node.Session.{
  SessionEnv, NodeSession, tool_result_max, log_hop, log_flag, log_elevate, hop_of, note_decision,
}

pub record Answer (env : SessionEnv) : Type 0 where
  pub type : String
  pub payload : Fields
  pub state : NodeSession env

-- A branch answers, or raises in the state that it has reached.
pub data Handled (env : SessionEnv) : Type 0 where
  answered : Answer env → Handled env
  raised : NodeSession env → Handled env

abbrev pub decision_text : Decision → String
decision_text allow = "allow"
decision_text deny = "deny"
decision_text elevate = "elevate"
decision_text flag = "flag"

abbrev pub is_deny : Decision → Bool
is_deny deny = true
is_deny _ = false

abbrev pub error_payload : String → String → Fields
error_payload code reason = field "code" (str code) (field "reason" (str reason) end)

abbrev ok_payload : Fields
ok_payload = field "ok" (boolean true) end

-- `list(v or [])`: the items of a list, the characters of a text, the keys of a dict.
abbrev field_keys : Fields → List Value
field_keys end = []
field_keys (field k v fs) = str k ∷ field_keys fs

abbrev char_texts : List Char → List Value
char_texts [] = []
char_texts (c ∷ cs) = str (of_chars (c ∷ [])) ∷ char_texts cs

abbrev pub list_of : Value → Option (List Value)
list_of (arr vs) = some (item_list vs)
list_of (str s) = some (char_texts (chars s))
list_of (obj fs) = some (field_keys fs)
list_of v = if truthy v then none else some []

-- `[entry for entry in schema if str(entry.get("name", "")) in visible]`
unfoldable pub visible_schema : List String → Items → Option Items
visible_schema visible nil = some nil
visible_schema visible (cons (obj entry) rest) = elim (visible_schema visible rest) [
  | none ↦ none
  | some kept ↦ some (if elem (text_at "name" entry) visible then cons (obj entry) kept else kept)
]
visible_schema visible (cons _ rest) = none

-- The schema that the model is given: as it came if it is empty, else with its visible entries.
unfoldable pub filter_schema : List String → Value → Option Value
unfolding visible_schema
filter_schema visible (arr entries) = elim (visible_schema visible entries) [
  | none ↦ none
  | some kept ↦ some (arr kept)
]
filter_schema visible schema = if truthy schema then none else some schema

abbrev call_items : List Fields → Items
call_items [] = nil
call_items (call ∷ calls) = cons (obj call) (call_items calls)

-- `[call for call in completion.tool_calls if str(call.get("name", "")) in visible]`
unfoldable pub visible_calls : List String → List Fields → List Fields
visible_calls visible = select (λ call. elem (text_at "name" call) visible)

abbrev pub llm_payload : String → List Fields → Fields
llm_payload content calls = field "content" (str content) (
    field "tool_calls" (arr (call_items calls))
      (field "finish_reason" (str (elim calls [ [] ↦ "stop" | _ ∷ _ ↦ "tool_calls" ])) end))

module _ (env : SessionEnv) where
  abbrev pub State : Type 0
  State = NodeSession env

  abbrev answer : String → Fields → State → Answer env
  answer type payload state = record { type = type; payload = payload; state = state }

  -- `_workspace_tool`
  unfoldable pub workspace_tool : String → Fields → State → Fields × State
  workspace_tool name arguments s = elim s.config.workspace_paths [
    | [] ↦ (field "error" (str "no workspace") end, s)
    | first ∷ _ ↦ elim (resolve_host_workspace env.fs s.disk first) [
      | unusable reason ↦ (field "error" (str reason) end, s)
      | folder root ↦
          let path = text_at "path" arguments in
          if name == "file_read"
          then (host_file_read env.fs s.disk root path, s)
          else if name == "file_list"
          then (host_file_list env.fs s.disk root path, s)
          else (let (result, disk) =
                host_file_write env.fs s.disk root path (text_at "content" arguments) in
              (result, record s { disk = disk }))
    ]
  ]

  unfoldable pub on_handshake : Envelope → State → Answer env
  on_handshake msg s =
      answer "handshake_ok"
        (field "agent_id" (str s.config.agent_id)
          (field "allowed_tools" (arr (str_items (sorted (visible_tools s.policy)))) end))
        s

  -- After an allow.
  unfoldable pub complete_llm : Envelope → State → Handled env
  complete_llm msg s =
      let visible = visible_tools s.policy in
      elim (filter_schema visible (or_null (get "tools_schema" msg.payload))) [
        | none ↦ raised s
        | some schema ↦ elim (list_of (or_null (get "messages" msg.payload))) [
          | none ↦ raised s
          | some messages ↦ elim (env.complete messages schema) [
            | none ↦ raised s
            | some completion ↦ answered (
                answer "llm_response"
                  (llm_payload completion.content (visible_calls visible completion.tool_calls)) s)
          ]
        ]
      ]

  unfoldable pub on_llm_request : Envelope → State → Handled env
  on_llm_request msg s =
      let d = evaluate s.policy msg in
      let logged =
        log_hop env (hop_of env msg "policy") (some (decision_text d.decision))
          (field "rule_id" (str d.rule_id) (field "reason" (str d.reason) end)) s in
      let noted = note_decision env (is_deny d.decision) logged in
      if is_allow d.decision
      then complete_llm msg noted
      else answered (answer "error" (error_payload "RBAC_DENIED" d.reason) noted)

  -- An approved call: its id is remembered, and a file tool is run on the host.
  unfoldable pub approve_call : Envelope → String → State → Answer env
  approve_call msg reason s =
      let call_id = text_at "id" msg.payload in
      let s' : State =
        if call_id == ""
        then s
        else record s { outstanding_calls = call_id ∷ s.outstanding_calls } in
      let name = text_at "name" msg.payload in
      if is_file_tool name
      then (let (result, s'') =
            workspace_tool name (dict_or_empty (or_null (get "arguments" msg.payload))) s' in
          answer "tool_call_response"
            (field "approved" (boolean true)
              (field "reason" (str reason) (field "result" (obj result) end)))
            s'')
      else answer "tool_call_response"
          (field "approved" (boolean true) (field "reason" (str reason) end)) s'

  abbrev refused_call : String → Fields → Fields
  refused_call reason rest = field "approved" (boolean false) (field "reason" (str reason) rest)

  -- What is answered once the decision is logged.
  unfoldable pub decided_call : Envelope → Decision → String → State → Answer env
  decided_call msg elevate reason s =
      let details =
        field "tool" (or_null (get "name" msg.payload))
          (field "code" (str "ELEVATE_REQUIRED") end) in
      answer "tool_call_response" (refused_call reason (field "code" (str "ELEVATE_REQUIRED") end))
        (log_elevate env (hop_of env msg "tool_call") details s)
  decided_call msg allow reason s = approve_call msg reason s
  decided_call msg _ reason s = answer "tool_call_response" (refused_call reason end) s

  unfoldable pub flag_call : Envelope → Option String → State → State
  flag_call msg none s = s
  flag_call msg (some code) s = log_flag env code (hop_of env msg "tool_call") end s

  unfoldable pub log_call : Envelope → PolicyDecision → State → State
  log_call msg d s =
      let logged =
        log_hop env (hop_of env msg "policy") (some (decision_text d.decision))
          (field "rule_id" (str d.rule_id) (field "tool" (or_null (get "name" msg.payload)) end))
          s in
      note_decision env (not (is_allow d.decision)) (flag_call msg d.flag_code logged)

  unfoldable pub on_tool_call : Envelope → State → Answer env
  on_tool_call msg s =
      let d = evaluate s.policy msg in decided_call msg d.decision d.reason (log_call msg d s)

  unfoldable pub on_tool_result : Envelope → State → Answer env
  on_tool_result msg s =
      let call_id = text_at "id" msg.payload in
      let blob = text_at "result" msg.payload in
      if not (elem call_id s.outstanding_calls)
      then answer "error" (error_payload "UNBOUND_TOOL_RESULT" "no approved call")
          (log_flag env "unbound_tool_result" (hop_of env msg "tool_result") end s)
      else if ltb tool_result_max (count blob)
      then answer "error" (error_payload "TOOL_RESULT_TOO_LARGE" "result exceeds cap")
          (log_flag env "tool_result_too_large" (hop_of env msg "tool_result") end s)
      else answer "tool_result_ack" ok_payload
          (record s { outstanding_calls = discard call_id s.outstanding_calls })

  unfoldable pub on_agent_response : Envelope → State → Answer env
  on_agent_response msg s =
      answer "agent_response_ack" ok_payload
        (record s { final_response = some (text_at "text" msg.payload) })

  abbrev value_or_null : Option String → Value
  value_or_null none = null
  value_or_null (some v) = str v

  unfoldable pub on_memory : Envelope → State → Answer env
  on_memory msg s =
      let d = evaluate s.policy msg in
      let noted = note_decision env (is_deny d.decision) s in
      let key = text_at "key" msg.payload in
      if not (is_allow d.decision)
      then answer "error" (error_payload "RBAC_DENIED" d.reason) noted
      else if msg.type == "memory:write"
      then answer "memory:write_ok" ok_payload
          (record noted { memory = Memory.write key (text_at "value" msg.payload) noted.memory })
      else answer "memory:query_ok"
          (field "value" (value_or_null (Memory.query key noted.memory)) end) noted

  -- The chain of tests on the type.
  unfoldable pub dispatch : Envelope → State → Handled env
  dispatch msg s =
      if msg.type == "handshake"
      then answered (on_handshake msg s)
      else if msg.type == "llm_request"
      then on_llm_request msg s
      else if msg.type == "tool_call"
      then answered (on_tool_call msg s)
      else if msg.type == "tool_result"
      then answered (on_tool_result msg s)
      else if msg.type == "agent_response"
      then answered (on_agent_response msg s)
      else if starts_with msg.type "memory:"
      then answered (on_memory msg s)
      else answered (answer "error" (error_payload "UNKNOWN_TYPE" msg.type) s)
