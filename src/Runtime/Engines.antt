-- ===== src/Runtime/Engines.antt =====
-- src/corvus_node/runtime/engines.py and src/corvus_node/tools/echo.py: the four engines.
use corvus_node.Prelude.{String, ◌<>◌, not, ◌||◌, Option, some, List, [], ◌∷◌, ◌==◌, if◌then◌else◌}
use corvus_node.Json.{Value, str, arr, obj, Fields, end, field, get, get_or, truthy, to_items}
use corvus_node.Json.Text.{text}
use corvus_node.Protocol.{Envelope, engine1, engine2, engine3, engine4, request, event}
use corvus_node.Policy.{or_null}
use corvus_node.Runtime.{GuestEnv, Action, pure, raise_if, runtime_error, ◌>>=◌, ◌>>◌, ask}

-- `arguments.get("text", arguments.get("message", ""))`
unfoldable pub echo : Fields → Fields
unfolding get get_or
echo arguments =
    field "text" (str (text (get_or (get_or (str "") "message" arguments) "text" arguments))) end

-- What engine 1 makes of the Node's reply to a call.
abbrev local_result : String → Fields → Option Value → Fields
local_result name arguments (some (obj result)) = result
local_result name arguments _ =
    if name == "echo"
    then echo arguments
    else field "error" (str ("unknown local tool " <> name)) end

unfoldable pub call_result : String → Fields → Envelope → Fields
unfolding get get_or echo
call_result name arguments resp =
    if not (resp.type == "tool_call_response")
      || not (truthy (or_null (get "approved" resp.payload)))
    then field "error" (get_or (str "denied") "reason" resp.payload) end
    else local_result name arguments (get "result" resp.payload)

abbrev call_payload : String → Fields → String → Fields
call_payload name arguments call_id =
    field "name" (str name) (field "arguments" (obj arguments) (field "id" (str call_id) end))

abbrev result_payload : String → String → Fields → Fields
result_payload name call_id result =
    field "id" (str call_id) (field "name" (str name) (field "result" (obj result) end))

-- A schema is sent when it has entries.
abbrev infer_payload : List Value → List Value → Fields
infer_payload messages [] = field "messages" (arr (to_items messages)) end
infer_payload messages (entry ∷ schema) =
    field "messages" (arr (to_items messages))
      (field "tools_schema" (arr (to_items (entry ∷ schema))) end)

module _ (env : GuestEnv) where
  -- `Engine1.run_tool`
  unfoldable pub run_tool : Option String → String → Fields → String → Action Fields
  unfolding call_result
  run_tool origin name arguments call_id = do
    resp ← ask env origin engine1 request "tool_call" (call_payload name arguments call_id)
    let result = call_result name arguments resp
    ack ← ask env origin engine1 event "tool_result" (result_payload name call_id result)
    pure result

  -- `Engine2.respond`
  unfoldable pub respond : Option String → String → Action (Unit {0})
  respond origin t = do
    ack ← ask env origin engine2 event "agent_response" (field "text" (str t) end)
    pure tt

  -- `Engine3.infer`
  unfoldable pub infer : Option String → List Value → List Value → Action Fields
  infer origin messages schema = do
    resp ← ask env origin engine3 request "llm_request" (infer_payload messages schema)
    raise_if (not (resp.type == "llm_response"))
        (runtime_error ("expected llm_response, got " <> resp.type))
    pure resp.payload

  -- `Engine4.write`
  unfoldable pub remember : Option String → String → String → Action (Unit {0})
  remember origin key value = do
    ack ←
        ask env origin engine4 request "memory:write"
          (field "key" (str key) (field "value" (str value) end))
    pure tt
