-- ===== src/Settings.antt =====
-- src/corvus_node/node/settings.py: the launch rules of the operator. A set of tools is a list of
-- names without repetition; what reading and parsing the file gave is a parameter.
pub mod Store
use corvus_node.Prelude.{
  String, ◌<>◌, Bool, true, false, not, ◌&&◌, Option, none, some, List, [], ◌∷◌, map, select, all,
  elem, sorted, ◌==◌, chars, of_chars, strip, split, join_with, if◌then◌else◌,
}
use corvus_node.Json.{
  Value, null, str, arr, obj, Items, nil, cons, Fields, end, field, get, str_items,
}
use corvus_node.Update.{local_version}
use corvus_node.Workspace.{FileSystem, Resolved, folder, unusable, resolve_host_workspace}

pub record LaunchSettings : Type 0 where
  pub tools : List String
  pub workspace : Option String

-- Settings, or a `SettingsError` or `WorkspaceError` with its text.
pub data Loaded : Type 0 where
  loaded : LaunchSettings → Loaded
  settings_error workspace_error : String → Loaded

-- What is at the path: no file, what is unreadable or no JSON (with the error's text), or a value.
pub data LaunchFile : Type 0 where
  no_file : LaunchFile
  bad_file : String → LaunchFile
  parsed : Value → LaunchFile

abbrev pub strip_text : String → String
strip_text t = of_chars (strip (chars t))

-- `frozenset(names)`
unfoldable pub to_set : List String → List String
to_set [] = []
to_set (x ∷ xs) = let rest = to_set xs in if elem x rest then rest else x ∷ rest

-- `frozenset(t.strip() for t in names if t.strip())`
unfoldable pub stripped_set : List String → List String
unfolding to_set
stripped_set names = to_set (select (λ t. not (t == "")) (map strip_text names))

unfoldable pub parse_tools : Option String → List String
unfolding stripped_set split
parse_tools none = []
parse_tools (some raw) =
    if raw == "" then [] else stripped_set (map of_chars (split 44 (chars raw)))

-- The texts of a JSON list of texts.
unfoldable pub text_items : Items → Option (List String)
text_items nil = some []
text_items (cons v vs) = elim (text_items vs) [
  | none ↦ none
  | some ts ↦ elim v [ str t ↦ some (t ∷ ts) | _ ↦ none ]
]

-- `data.get("tools", [])`, where null counts as an empty list.
unfoldable pub tools_of : Option Value → Option (List String)
unfolding text_items
tools_of none = some []
tools_of (some null) = some []
tools_of (some (arr vs)) = text_items vs
tools_of (some _) = none

abbrev invalid : String → String → Loaded
invalid path why = settings_error ("invalid launch file " <> (path <> (": " <> why)))

module _ (fs : FileSystem) (disk : fs.Disk) where
  -- The workspace is resolved; the tools are those given.
  abbrev with_workspace : List String → String → Loaded
  with_workspace tools raw = elim (resolve_host_workspace fs disk raw) [
    | unusable why ↦ workspace_error why
    | folder root ↦ loaded (record { tools = tools; workspace = some root })
  ]

  abbrev without_workspace : List String → Loaded
  without_workspace tools = loaded (record { tools = tools; workspace = none })

  abbrev workspace_of : String → List String → Option Value → Loaded
  workspace_of path tools none = without_workspace tools
  workspace_of path tools (some null) = without_workspace tools
  workspace_of path tools (some (str w)) =
      if strip_text w == ""
      then invalid path "workspace must be a string"
      else with_workspace tools (strip_text w)
  workspace_of path tools (some _) = invalid path "workspace must be a string"

  unfoldable pub load_launch : String → LaunchFile → Loaded
  unfolding stripped_set tools_of get
  load_launch path no_file = without_workspace []
  load_launch path (bad_file why) = invalid path why
  load_launch path (parsed (obj fs')) = elim (tools_of (get "tools" fs')) [
    | none ↦ invalid path "tools must be a list of strings"
    | some tools ↦ workspace_of path (stripped_set tools) (get "workspace" fs')
  ]
  load_launch path (parsed _) = invalid path "expected object"

  -- `merge_launch`: what is given on the command line comes before the file.
  unfoldable pub merge_launch : LaunchSettings → Option String → Option (List String) → Loaded
  unfolding parse_tools
  merge_launch stored tools workspace =
      let out_tools : List String = elim tools [
        | none ↦ stored.tools
        | some raw ↦ parse_tools (some raw)
      ] in
      elim workspace [
        | none ↦ loaded (record { tools = out_tools; workspace = stored.workspace })
        | some [] ↦ without_workspace out_tools
        | some (w ∷ []) ↦ with_workspace out_tools w
        | some (_ ∷ _ ∷ _) ↦
            workspace_error ("v" <> (local_version <> " accepts one --workspace path"))
      ]

  -- `resolve_workspace_setting`, with the folder that `ensure_default_workspace` gives.
  unfoldable pub resolve_workspace_setting : String → String → Resolved
  resolve_workspace_setting default value =
      if strip_text value == "default" then folder default else resolve_host_workspace fs disk value

-- The object that `save_launch` writes.
unfoldable pub save_body : LaunchSettings → Value
save_body s = obj (
    field "tools" (arr (str_items (sorted s.tools)))
      (field "workspace" (elim s.workspace [ none ↦ null | some w ↦ str w ]) end))

unfoldable pub format_settings : LaunchSettings → String → String
unfolding join_with sorted
format_settings s default_workspace =
    let names = join_with "," (sorted s.tools) in
    let tools = if names == "" then "(none)" else names in
    let disabled = default_workspace <> " (disabled)" in
    let workspace : String = elim s.workspace [
      | none ↦ disabled
      | some w ↦ if w == "" then disabled else w <> " (allowed)"
    ] in
    "tools: " <> (tools <> ("\nworkspace: " <> (workspace <> "\n")))
