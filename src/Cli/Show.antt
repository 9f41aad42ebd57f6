-- ===== src/Cli/Show.antt =====
-- src/corvus_node/node/info.py and src/corvus_node/cli.py: the commands that show how the Node is.
use corvus_node.Prelude.{
  ℕ, String, ◌<>◌, Bool, true, false, ◌||◌, Option, none, some, List, [], ◌∷◌, ◌==◌, join_with,
  show_ℕ, if◌then◌else◌,
}
use corvus_node.Prelude.Int.{ℤ, pos}
use corvus_node.Json.{Value, str, obj, num, Fields, get, get_or, truthy}
use corvus_node.Json.Text.{text}
use corvus_node.Policy.{or_null}
use corvus_node.Session.Handlers.{list_of}
use corvus_node.Settings.{Loaded, loaded, settings_error, workspace_error}
use corvus_node.Update.{local_version, check_version, format_version_status}
use corvus_node.Workspace.{Resolved, folder, unusable}
use corvus_node.Control.{text_or}
use corvus_node.Cli.{
  Host, looked, Command, uncaught, pure, raise, ◌>>=◌, ◌>>◌, catch, ask, say, warn, leave,
}
use corvus_node.Cli.Client.{node_pid, not_running_hint, rpc_status}

unfoldable pub build_lines : List String
build_lines =
    ("Corvus-Node " <> local_version)
    ∷ "LLM: stub"
    ∷ "This preview: chat, start/stop, echo, file read/write/list, default workspace, splash GUI."
    ∷ "Not yet: live AI model, extra skills, saved memory, full operator window."
    ∷ []

abbrev text_or_empty : Option String → String
text_or_empty none = ""
text_or_empty (some t) = t

-- `format_workspace_line`
unfoldable pub format_workspace_line : Option String → String → String
format_workspace_line workspace default_workspace =
    let w = text_or_empty workspace in
    if w == ""
    then "Workspace: " <> (default_workspace <> " (disabled)")
    else "Workspace: " <> (w <> " (allowed)")

-- The texts that `join` takes.
abbrev texts : List Value → Option (List String)
texts [] = some []
texts (str t ∷ vs) = elim (texts vs) [ none ↦ none | some ts ↦ some (t ∷ ts) ]
texts (_ ∷ vs) = none

abbrev pub joined : Option (List Value) → Option String
joined none = none
joined (some vs) = elim (texts vs) [ none ↦ none | some ts ↦ some (join_with "," ts) ]

-- `workspace[0]`, if there is a workspace; a mapping has no key 0.
abbrev head_of : List Value → Option Value
head_of [] = none
head_of (v ∷ vs) = some v

abbrev pub first_path : Value → Option (Option Value)
first_path (obj fs) = if truthy (obj fs) then none else some none
first_path v = elim (list_of v) [ none ↦ none | some vs ↦ some (head_of vs) ]

abbrev path_line : String → Option Value → String
path_line default_workspace (some v) = "Workspace: " <> (text v <> " (allowed)")
path_line default_workspace none =
    if default_workspace == ""
    then "Workspace: (disabled)"
    else "Workspace: " <> (default_workspace <> " (disabled)")

abbrev running_lines :
    String → String → Option String → Option (Option Value) → Option (List String)
running_lines id default_workspace (some tools) (some path) = some (
    ("VM: running  id=" <> (if id == "" then "(none)" else id))
    ∷ ("Tools: " <> (if tools == "" then "(none)" else tools))
    ∷ path_line default_workspace path
    ∷ [])
running_lines id default_workspace _ _ = none

-- `format_vm_status`; nothing where a list of names is none.
unfoldable pub format_vm_status : Fields → String → Option (List String)
unfolding join_with get
format_vm_status snap default_workspace =
    let state = text_or "idle" "state" snap in
    if state == "running"
    then running_lines (text_or "" "vm_instance_id" snap) default_workspace
        (joined (list_of (or_null (get "tools" snap))))
        (first_path (or_null (get "workspace" snap)))
    else some (("VM: " <> state) ∷ [])

abbrev node_lines : ℕ → Fields → Option (List String) → Option (List String)
node_lines pid snap none = none
node_lines pid snap (some lines) =
    some (("Node: up  pid=" <> text (get_or (num (pos pid)) "pid" snap)) ∷ lines)

-- `format_runtime_status`
unfoldable pub format_runtime_status :
    Option ℕ → Option Fields → String → String → Option (List String)
unfolding format_vm_status show_ℕ get_or
format_runtime_status none snap error default_workspace = some ("Node: down" ∷ "VM: (none)" ∷ [])
format_runtime_status (some pid) none error default_workspace = some (
    ("Node: up  pid=" <> (show_ℕ pid <> (if error == "" then "" else " (" <> (error <> ")"))))
    ∷ "VM: (unknown)"
    ∷ [])
format_runtime_status (some pid) (some snap) error default_workspace =
    node_lines pid snap (format_vm_status snap default_workspace)

abbrev pub say_all : List String → Command (Unit {0})
say_all [] = pure tt
say_all (line ∷ lines) = say line >> say_all lines

abbrev pub say_lines : Option (List String) → Command (Unit {0})
say_lines none = raise uncaught
say_lines (some lines) = say_all lines

module _ (host : Host) where
  -- `_default_workspace_text`
  abbrev pub or_default : Resolved → Command String
  or_default (folder path) = pure path
  or_default (unusable why) = warn ("corvus: " <> why) >> pure host.default_path

  unfoldable pub default_workspace_text : Command String
  default_workspace_text = ask (looked "default workspace") host.default_workspace >>= or_default

  -- `_remembered_workspace`: a `WorkspaceError` is not caught.
  abbrev pub remembered : Loaded → Command (Option String)
  remembered (loaded s) = pure s.workspace
  remembered (settings_error why) = warn ("corvus: " <> why) >> pure none
  remembered (workspace_error why) = raise uncaught

  unfoldable pub remembered_workspace : Command (Option String)
  remembered_workspace = ask (looked "launch file") host.launch >>= remembered

  -- The Node's state, or the text of the error.
  abbrev pub node_state : Option ℕ → Command (Option Fields × String)
  node_state none = pure (none, "")
  node_state (some pid) =
      catch (rpc_status host >>= λ snap. pure (some snap, "")) λ code why. pure (none, why)

  abbrev pub is_up : Option Fields → Bool
  is_up none = false
  is_up (some snap) = text_or "" "state" snap == "running"

  abbrev pub show_workspace : Bool → String → Command (Unit {0})
  show_workspace hidden default =
      if hidden
      then pure tt
      else remembered_workspace >>= λ path. say (format_workspace_line path default)

  abbrev pub show_hint : Option ℕ → Command (Unit {0})
  show_hint (some pid) = pure tt
  show_hint none = ask (looked "env") (not_running_hint host) >>= λ hint. say ("Hint: " <> hint)

  abbrev pub say_gaps : List String → Command (Unit {0})
  say_gaps [] = pure tt
  say_gaps (gap ∷ gaps) = say ("  - " <> gap) >> say_gaps gaps

  abbrev pub show_gaps : List String → Command (Unit {0})
  show_gaps [] = say "Isolation: ready"
  show_gaps (gap ∷ gaps) = say "Isolation: not ready" >> say_gaps (gap ∷ gaps)

  abbrev pub show_rest : Bool → Command ℤ
  show_rest true = pure (pos 0)
  show_rest false = do
    say ""
    say_all build_lines
    say ""
    version ← ask (looked "version") λ t. check_version (host.checkout t) (host.lookup t)
    say (format_version_status version)
    say ""
    gaps ← ask (looked "isolation") host.gaps
    show_gaps gaps
    pure (pos 0)

  -- `_status`
  unfoldable pub status : Bool → Command ℤ
  unfolding node_pid default_workspace_text rpc_status format_runtime_status remembered_workspace
      format_workspace_line not_running_hint build_lines check_version format_version_status
  status brief = do
    pid ← node_pid host
    default ← default_workspace_text
    state ← node_state pid
    say_lines (format_runtime_status pid state.0 state.1 default)
    show_workspace (is_up state.0 || brief) default
    show_hint pid
    show_rest brief

  -- `_vm_status`
  abbrev pub show_vm : Fields → Command ℤ
  show_vm snap = do
    default ← default_workspace_text
    say_lines (format_vm_status snap default)
    pure (pos 0)

  abbrev pub after_status : Option Fields → Command ℤ
  after_status none = pure (pos 2)
  after_status (some snap) = show_vm snap

  abbrev pub vm_status_there : Option ℕ → Command ℤ
  vm_status_there none = do
    say "VM: (none)"
    hint ← ask (looked "env") (not_running_hint host)
    leave ("corvus: " <> hint) (pos 2)
  vm_status_there (some pid) =
      catch (rpc_status host >>= λ snap. pure (some snap))
        (λ code why. leave ("corvus: " <> why) (pos 2) >>= λ c. pure none)
      >>= after_status

  unfoldable pub vm_status : Command ℤ
  unfolding node_pid not_running_hint rpc_status default_workspace_text format_vm_status
  vm_status = node_pid host >>= vm_status_there
