-- ===== src/Cli/Settings.antt =====
-- src/corvus_node/cli.py: the command that shows and remembers the launch rules.
use corvus_node.Prelude.{ℕ, String, ◌<>◌, Option, none, some, List, [], ◌∷◌, ◌==◌, if◌then◌else◌}
use corvus_node.Prelude.Int.{ℤ, pos}
use corvus_node.Json.{Value, get, truthy}
use corvus_node.Json.Text.{text}
use corvus_node.Policy.{or_null}
use corvus_node.Session.Handlers.{list_of}
use corvus_node.Settings.{
  LaunchSettings, Loaded, loaded, settings_error, workspace_error, parse_tools, format_settings,
}
use corvus_node.Workspace.{Resolved, folder, unusable}
use corvus_node.Cli.{
  Host, looked, stored, Command, uncaught, pure, raise, ◌>>=◌, ◌>>◌, catch, ask, say, leave,
}
use corvus_node.Cli.Client.{node_pid, rpc_status}
use corvus_node.Cli.Show.{joined, first_path, say_lines}

-- What is done, of the key "tools" or "workspace"; the reader of the arguments lets no other key pass.
pub data Edit : Type 0 where
  set_tools set_workspace : String → Edit
  unset_tools unset_workspace : Edit

-- A setting, or the text of a `WorkspaceError` or `SettingsError`, which are handled alike.
pub data Checked {ℓ} (A : Type ℓ) : Type ℓ where
  good : A → Checked A
  bad : String → Checked A

abbrev pub checked_folder : Resolved → Checked String
checked_folder (folder path) = good path
checked_folder (unusable why) = bad why

abbrev pub checked_rules : Loaded → Checked LaunchSettings
checked_rules (loaded s) = good s
checked_rules (settings_error why) = bad why
checked_rules (workspace_error why) = bad why

-- The rules after an edit; `resolve` is `resolve_workspace_setting`.
unfoldable pub edited : (String → Resolved) → Edit → LaunchSettings → Checked LaunchSettings
unfolding parse_tools
edited resolve (set_tools value) s = good (record s { tools = parse_tools (some value) })
edited resolve (set_workspace value) s = elim (resolve value) [
  | folder path ↦ good (record s { workspace = some path })
  | unusable why ↦ bad why
]
edited resolve unset_tools s = good (record s { tools = [] })
edited resolve unset_workspace s = good (record s { workspace = none })

abbrev active_path : String → Option Value → String
active_path default none = "workspace: " <> (default <> " (disabled)")
active_path default (some v) =
    if truthy v
    then "workspace: " <> (text v <> " (allowed)")
    else "workspace: " <> (default <> " (disabled)")

abbrev pub active_lines : String → Option String → Option (Option Value) → Option (List String)
active_lines default (some tools) (some path) = some (
    "active launch (unchanged until vm stop then vm start):"
    ∷ ("tools: " <> (if tools == "" then "(none)" else tools))
    ∷ active_path default path
    ∷ [])
active_lines default _ _ = none

module _ (host : Host) where
  -- The rules of the running agent, if the Node answers.
  abbrev pub show_active : String → Option ℕ → Command ℤ
  show_active default none = pure (pos 0)
  show_active default (some pid) =
      catch
        (rpc_status host >>= λ snap.
          say_lines (
            active_lines default (joined (list_of (or_null (get "tools" snap))))
              (first_path (or_null (get "workspace" snap))))
          >> pure (pos 0))
        λ code why. pure (pos 0)

  abbrev pub show_stored : String → LaunchSettings → Command ℤ
  show_stored default s = do
    say (format_settings s default)
    pid ← node_pid host
    show_active default pid

  -- After the edit the file is read again; an error is then not caught.
  abbrev pub node_note : Option ℕ → Command ℤ
  node_note none = pure (pos 0)
  node_note (some pid) = leave "corvus: running VM is unchanged until vm stop then vm start" (pos 0)

  abbrev pub reshow : Checked LaunchSettings → Checked String → Command ℤ
  reshow (good s) (good default) = do
    say (format_settings s default)
    pid ← node_pid host
    node_note pid
  reshow _ _ = raise uncaught

  abbrev pub read_again : Command ℤ
  read_again = do
    rules ← ask (looked "launch file") host.launch
    default ← ask (looked "default workspace") host.default_workspace
    reshow (checked_rules rules) (checked_folder default)

  abbrev pub save : Checked LaunchSettings → Command ℤ
  save (bad why) = leave ("corvus: " <> why) (pos 2)
  save (good s) = do
    written ← ask (stored s) host.stores
    if written then read_again else raise uncaught

  abbrev pub edit_or_show : Option Edit → String → LaunchSettings → Command ℤ
  edit_or_show none default s = show_stored default s
  edit_or_show (some edit) default s =
      ask (looked "workspace setting")
        (λ t. edited (λ value. host.workspace_setting value t) edit s)
      >>= save

  abbrev pub with_rules : Option Edit → String → Checked LaunchSettings → Command ℤ
  with_rules edit default (good s) = edit_or_show edit default s
  with_rules edit default (bad why) = leave ("corvus: " <> why) (pos 2)

  abbrev pub rules_after : Option Edit → Checked String → Command ℤ
  rules_after edit (bad why) = leave ("corvus: " <> why) (pos 2)
  rules_after edit (good default) =
      ask (looked "launch file") host.launch >>= λ l. with_rules edit default (checked_rules l)

  -- `_settings`
  unfoldable pub settings : Option Edit → Command ℤ
  unfolding rpc_status node_pid format_settings edited get
  settings edit = ask (looked "default workspace") host.default_workspace >>= λ r.
      rules_after edit (checked_folder r)
