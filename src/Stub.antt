-- ===== src/Stub.antt =====
-- src/corvus_node/llm/stub.py: the scripted model. The searches by regular expression and the
-- lowering of a text are parameters.
pub mod Calls
use corvus_node.Prelude.{
  ℕ, ◌+◌, String, ◌<>◌, Bool, true, false, not, ◌&&◌, ◌||◌, Option, none, some, List, [], ◌∷◌, ◌++◌,
  map, elem, any, show_ℕ, join_with, ◌==◌, if◌then◌else◌,
}
use corvus_node.Json.{Value, null, str, arr, obj, Items, Fields, end, field, get, truthy, item_list}
use corvus_node.Json.Text.{text, text_at}
use corvus_node.Policy.{or_null}
use corvus_node.Audit.{occurs}
use corvus_node.Session.{Completion}

-- `_PATH`, `_LIST`, the two searches of `_write_content` (the second with its strip), `text.lower()`.
pub record Patterns : Type 0 where
  pub path : String → Option String
  pub listing : String → Bool
  pub quoted : String → Option String
  pub say : String → Option String
  pub lower : String → String

-- `_WRITE` and `_READ`
abbrev pub write_words : List String
write_words = "edit" ∷ "write" ∷ "fix" ∷ "change" ∷ "update" ∷ "create" ∷ "replace" ∷ []

abbrev pub read_words : List String
read_words = "read" ∷ "review" ∷ "open" ∷ "show" ∷ "cat" ∷ "look" ∷ []

abbrev role_of : Fields → String
role_of message = text (or_null (get "role" message))

-- `_tools_after_last_user`, of the messages from the last to the first. A message that is no dict
-- raises.
unfoldable pub tools_after : List Value → Option (List Fields)
unfolding get
tools_after [] = some []
tools_after (obj message ∷ earlier) =
    let rest = tools_after earlier in
    if role_of message == "user" then some [] else elim rest [
      | none ↦ none
      | some tools ↦ some (if role_of message == "tool" then tools ++ (message ∷ []) else tools)
    ]
tools_after (_ ∷ earlier) = none

-- `_last_user`, of the messages from the last to the first.
unfoldable pub last_user : List Value → Option String
unfolding get
last_user [] = some ""
last_user (obj message ∷ earlier) =
    let rest = last_user earlier in
    if role_of message == "user" then some (text_at "content" message) else rest
last_user (_ ∷ earlier) = none

abbrev or_empty : Value → String
or_empty v = if truthy v then text v else ""

-- The name of one entry: its own, or that of its function.
abbrev entry_name : Fields → Option String
entry_name entry =
    let own = or_null (get "name" entry) in
    let function = or_null (get "function" entry) in
    if truthy own
    then some (text own)
    else if not (truthy function)
    then some ""
    else elim function [ obj inner ↦ some (or_empty (or_null (get "name" inner))) | _ ↦ none ]

-- `_schema_names`
unfoldable pub schema_names : List Value → Option (List String)
unfolding get
schema_names [] = some []
schema_names (obj entry ∷ entries) = elim (schema_names entries) [
  | none ↦ none
  | some names ↦ elim (entry_name entry) [
    | none ↦ none
    | some name ↦ some (if name == "" then names else name ∷ names)
  ]
]
schema_names (_ ∷ entries) = none

abbrev or_default : Option String → String → String
or_default none d = d
or_default (some t) d = t

module _ (patterns : Patterns) where
  -- `_path`
  unfoldable pub path_in : String → String
  path_in t = or_default (patterns.path t) "hello.txt"

  -- `_write_content`
  unfoldable pub write_content : String → String
  write_content t = elim (patterns.quoted t) [
    | some q ↦ q
    | none ↦ or_default (patterns.say t) "hello from file_write"
  ]

  abbrev file_write_call : String → List (String × Fields)
  file_write_call t =
      ("file_write", field "path" (str (path_in t)) (field "content" (str (write_content t)) end))
      ∷ []

  -- `_pick_calls`
  unfoldable pub pick_calls : String → List String → List (String × Fields)
  unfolding path_in write_content
  pick_calls t available =
      let lower = patterns.lower t in
      let writes = any (λ word. occurs word lower) write_words in
      let reads = any (λ word. occurs word lower) read_words in
      if writes && elem "file_write" available
      then file_write_call t
      else if elem "file_list" available && (patterns.listing t && not reads)
      then ("file_list", field "path" (str "/workspace") end) ∷ []
      else if elem "file_read" available && (reads || not (elem "echo" available))
      then ("file_read", field "path" (str (path_in t)) end) ∷ []
      else if elem "echo" available
      then ("echo", field "text" (str "Hello from echo") end) ∷ []
      else if elem "file_write" available
      then file_write_call t
      else []

  -- The calls, numbered from `n`.
  unfoldable pub number_calls : ℕ → List (String × Fields) → List Fields
  number_calls n [] = []
  number_calls n ((name, arguments) ∷ calls) =
      field "id" (str ("call_stub_" <> show_ℕ n))
        (field "name" (str name) (field "arguments" (obj arguments) end))
      ∷ number_calls (n + 1) calls

  abbrev spoken : String → Completion
  spoken content = record { content = content; tool_calls = [] }

  abbrev say_user : String → Completion
  say_user t =
      spoken (if t == "" then "Stub LLM response for turn." else "Stub LLM response: " <> t)

  -- The names of a schema that is no empty value; iterating anything but a list of dicts raises.
  abbrev pub names_of : Value → Option (List String)
  names_of (arr entries) = schema_names (item_list entries)
  names_of v = if truthy v then none else some []

  abbrev pub with_calls : String → List Fields → Completion
  with_calls t [] = say_user t
  with_calls t (call ∷ calls) = record { content = ""; tool_calls = call ∷ calls }

  -- `StubLlm.complete`, of the messages from the last to the first.
  unfoldable pub complete : List Value → Value → Option Completion
  unfolding schema_names number_calls pick_calls
  complete reversed schema = elim (tools_after reversed) [
    | none ↦ none
    | some (tool ∷ tools) ↦ some (
        spoken
          ("Stub LLM after tools: " <> join_with "; " (map (text_at "content") (tool ∷ tools))))
    | some [] ↦ elim (last_user reversed) [
      | none ↦ none
      | some t ↦ elim (names_of schema) [
        | none ↦ none
        | some names ↦
            some (with_calls t (number_calls 1 (if truthy schema then pick_calls t names else [])))
      ]
    ]
  ]
