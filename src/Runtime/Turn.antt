-- ===== src/Runtime/Turn.antt =====
-- src/corvus_node/runtime/turn.py: the guest's handshake, its turns and its loop.
use corvus_node.Prelude.{
  ℕ, zero, suc, ◌-◌, ◌+◌, String, ◌<>◌, Bool, false, not, Option, none, some, List, [], ◌∷◌, ◌++◌,
  map, length, drop, sorted, ◌==◌, if◌then◌else◌,
}
use corvus_node.Json.{Value, null, str, obj, Fields, end, field, get, get_or, truthy, dict_or_empty}
use corvus_node.Json.Text.{text, text_at}
use corvus_node.Protocol.{Envelope, loop, system}
use corvus_node.Policy.{or_null}
use corvus_node.Session.Handlers.{list_of}
use corvus_node.Settings.{to_set}
use corvus_node.Runtime.{
  GuestEnv, Action, ok, pure, raise, raise_if, or_raise, runtime_error, type_error, exhausted,
  ◌>>=◌, ◌>>◌, read, ask, set_session_key, bind_to, int_of,
}
use corvus_node.Runtime.Engines.{run_tool, respond, infer}

abbrev pub history_max : ℕ
history_max = 32

abbrev describe : String → String → Value
describe name description =
    obj (field "name" (str name) (field "description" (str description) end))

-- `TOOL_SCHEMAS`
unfoldable pub tool_schema : String → Option Value
tool_schema name =
    if name == "echo"
    then some (describe name "Echo text")
    else if name == "file_read"
    then some (describe name "Read a file under /workspace")
    else if name == "file_list"
    then some (describe name "List one directory under /workspace")
    else if name == "file_write"
    then some (describe name "Write a file under /workspace")
    else none

abbrev add_some : Option Value → List Value → List Value
add_some none vs = vs
add_some (some v) vs = v ∷ vs

-- `[TOOL_SCHEMAS[name] for name in names if name in TOOL_SCHEMAS]`
unfoldable pub schemas : List String → List Value
unfolding tool_schema
schemas [] = []
schemas (name ∷ names) = add_some (tool_schema name) (schemas names)

-- `_trim`
unfoldable pub trim : List Value → List Value
trim messages = drop (length messages - history_max) messages

abbrev said : String → String → Value
said role content = obj (field "role" (str role) (field "content" (str content) end))

abbrev tool_message : Fields → Fields → Value
tool_message call result = obj (
    field "role" (str "tool") (
      field "content" (str (text (obj result)))
        (field "tool_call_id" (or_null (get "id" call)) end)))

-- `str(value or "")`
abbrev text_or_empty : Value → String
text_or_empty v = if truthy v then text v else ""

abbrev or_text : Option String → String → String
or_text none d = d
or_text (some t) d = t

-- `mac.key_hex is not None`
abbrev pub has_key : Option String → Bool
has_key none = false
has_key (some k) = not (k == "")

-- The tools that a reply to the handshake names, or those of before.
abbrev pub reply_tools : List String → Option Value → Action (List String)
reply_tools tools none = pure tools
reply_tools tools (some v) = do
  names ← or_raise type_error (list_of (if truthy v then v else null))
  pure (to_set (map text names))

module _ (env : GuestEnv) where
  -- `accept_session`
  unfoldable pub accept_session : Action (Unit {0})
  unfolding get
  accept_session = do
    init ← read env
    raise_if (not (init.type == "session_init"))
        (runtime_error ("expected session_init, got " <> init.type))
    let key = or_null (get "session_key" init.payload)
    raise_if (not (truthy key)) (runtime_error "session_init missing host-minted key")
    set_session_key env (text key)
    cid ← int_of env (or_null (get "guest_cid" init.payload))
    bind_to env (text_at "vm_instance_id" init.payload) cid

  unfoldable pub ensure_key : Action (Unit {0})
  unfolding accept_session
  ensure_key w = if has_key w.mac.key then (ok tt, w) else accept_session w

  -- What `handshake` does once the key is there, with the tools of after it.
  unfoldable pub greet : List String → Action (List String)
  unfolding get to_set
  greet tools = do
    resp ← ask env none loop system "handshake" (field "role" (str "guest") end)
    raise_if (not (resp.type == "handshake_ok")) (runtime_error ("handshake failed: " <> resp.type))
    reply_tools tools (get "allowed_tools" resp.payload)

  unfoldable pub handshake : List String → Action (List String)
  unfolding ensure_key greet
  handshake tools = ensure_key >> greet tools

  -- The calls of a completion in turn, with the messages so far.
  unfoldable pub run_calls : Option String → List Value → List Value → Action (List Value)
  unfolding get get_or
  run_calls origin [] messages = pure messages
  run_calls origin (obj call ∷ calls) messages = do
    result ←
        run_tool env origin (text_at "name" call) (dict_or_empty (or_null (get "arguments" call)))
          (text (get_or (str "call") "id" call))
    run_calls origin calls (messages ++ (tool_message call result ∷ []))
  run_calls origin (_ ∷ calls) messages = raise type_error

  -- After the calls the model is asked again, without tools.
  abbrev pub second_answer : Option String → Bool → Fields → List Value → Action Fields
  second_answer origin called first messages =
      if called then infer env origin messages [] else pure first

  -- `_one_turn`: the text, and the messages of after it.
  unfoldable pub one_turn :
      List String → String → Option String → List Value → Action (String × List Value)
  unfolding schemas trim get
  one_turn tools user_text origin history = do
    let asked = trim (history ++ (said "user" user_text ∷ []))
    first ← infer env origin asked (schemas (sorted tools))
    let called = or_null (get "tool_calls" first)
    calls ← or_raise type_error (list_of (if truthy called then called else null))
    messages ← run_calls origin calls asked
    final ← second_answer origin (truthy called) first messages
    let answer = text_or_empty (or_null (get "content" final))
    respond env origin answer
    pure (answer, trim (messages ++ (said "assistant" answer ∷ [])))

  -- What the loop of `run` does with a message; `rest` is the loop after a turn.
  unfoldable pub on_query :
      List String → List Value → (String → List Value → Action String) → Envelope → Action String
  unfolding one_turn
  on_query tools history rest inbound = do
    raise_if (not (inbound.type == "user_query"))
        (runtime_error ("expected user_query, got " <> inbound.type))
    answered ←
        one_turn tools (text_at "text" inbound.payload)
          (some (or_text inbound.origin_correlation_id inbound.correlation_id)) history
    rest answered.0 answered.1

  abbrev pub on_inbound :
      List String
      → String
      → List Value
      → (String → List Value → Action String)
      → Envelope
      → Action String
  on_inbound tools last history rest inbound =
      if inbound.type == "session_end" then pure last else on_query tools history rest inbound

  -- The loop of `run`. The fuel is spent by the turns.
  unfoldable pub run_loop : ℕ → List String → String → List Value → Action String
  unfolding on_query
  run_loop zero tools last history = raise exhausted
  run_loop (suc fuel) tools last history = do
    inbound ← read env
    on_inbound tools last history (λ answer messages. run_loop fuel tools answer messages) inbound

  -- `GuestTurn.run`: every turn reads a line, so the lines that will come are fuel enough.
  unfoldable pub run : List String → Action String
  unfolding handshake run_loop
  run tools w = (handshake tools >>= λ tools'. run_loop (length w.inbox + 1) tools' "" []) w
