-- ===== src/Cli/Showing.antt =====
-- To show how the Node is, or to remember launch rules, changes nothing that runs.
use corvus_node.Prelude.{
  ℕ, String, ◌<>◌, Bool, true, false, ◌||◌, Option, none, some, List, [], ◌∷◌, All, refl,
}
use corvus_node.Prelude.Int.{pos}
use corvus_node.Json.{Fields}
use corvus_node.Settings.{Loaded, loaded, settings_error, workspace_error}
use corvus_node.Update.{check_version, format_version_status}
use corvus_node.Workspace.{Resolved, folder, unusable}
use corvus_node.Cli.{Host, Command, uncaught}
use corvus_node.Cli.Client.{not_running_hint}
use corvus_node.Cli.Show.{
  build_lines, format_workspace_line, format_vm_status, format_runtime_status, say_all, say_lines,
  or_default, default_workspace_text, remembered, remembered_workspace, node_state, show_workspace,
  show_hint, say_gaps, show_gaps, is_up, after_status, show_rest, status, show_vm, vm_status_there,
  vm_status,
}
use corvus_node.Cli.Settings.{
  Edit, Checked, good, bad, checked_folder, checked_rules, edited, active_lines, show_active,
  node_note, reshow, read_again, save, edit_or_show, with_rules, rules_after, settings,
}
use corvus_node.Json.{get}
use corvus_node.Policy.{or_null}
use corvus_node.Session.Handlers.{list_of}
use corvus_node.Cli.{stored}
use corvus_node.Settings.{LaunchSettings, format_settings}
use corvus_node.Cli.Show.{joined, first_path}
use corvus_node.Cli.Keeps.{
  ask-Keeps, Keeps, bind-Keeps, pure-Keeps, raise-Keeps, if-Keeps, catch-Keeps, warn-Keeps,
  say-Keeps, leave-Keeps, look-Keeps, rpc_status-Keeps, node_pid-Keeps,
}
use corvus_node.Cli.Refused.{IsHarmless, IsError, quiet_base, ensured}

abbrev pub Quiet {ℓ} : {A : Type ℓ} → Command A → Type ℓ
Quiet m = Keeps IsHarmless IsError m

module _ (host : Host) where
  say_all-Quiet : (lines : List String) → Quiet (say_all lines)
  say_all-Quiet [] = pure-Keeps tt
  say_all-Quiet (line ∷ lines) =
      bind-Keeps (say-Keeps quiet_base host line) λ _. say_all-Quiet lines

  say_lines-Quiet : (lines : Option (List String)) → Quiet (say_lines lines)
  say_lines-Quiet none = raise-Keeps uncaught tt
  say_lines-Quiet (some lines) = say_all-Quiet lines

  or_default-Quiet : (r : Resolved) → Quiet (or_default host r)
  or_default-Quiet (folder path) = pure-Keeps path
  or_default-Quiet (unusable why) =
      bind-Keeps (warn-Keeps quiet_base host ("corvus: " <> why)) λ _. pure-Keeps host.default_path

  default_workspace_text-Quiet : Quiet (default_workspace_text host)
  unfolding default_workspace_text
  default_workspace_text-Quiet =
      bind-Keeps (look-Keeps quiet_base host "default workspace" host.default_workspace)
        λ r. or_default-Quiet r

  remembered-Quiet : (l : Loaded) → Quiet (remembered host l)
  remembered-Quiet (loaded s) = pure-Keeps s.workspace
  remembered-Quiet (settings_error why) =
      bind-Keeps (warn-Keeps quiet_base host ("corvus: " <> why)) λ _. pure-Keeps none
  remembered-Quiet (workspace_error why) = raise-Keeps uncaught tt

  remembered_workspace-Quiet : Quiet (remembered_workspace host)
  unfolding remembered_workspace
  remembered_workspace-Quiet =
      bind-Keeps (look-Keeps quiet_base host "launch file" host.launch) λ l. remembered-Quiet l

  node_state-Quiet : (pid : Option ℕ) → Quiet (node_state host pid)
  node_state-Quiet none = pure-Keeps (none, "")
  node_state-Quiet (some pid) =
      catch-Keeps (bind-Keeps (rpc_status-Keeps quiet_base host) λ snap. pure-Keeps (some snap, ""))
        λ code why. pure-Keeps (none, why)

  show_workspace-Quiet :
      (hidden : Bool) (default : String) → Quiet (show_workspace host hidden default)
  show_workspace-Quiet hidden default = if-Keeps hidden (pure-Keeps tt) (
      bind-Keeps remembered_workspace-Quiet
        λ path. say-Keeps quiet_base host (format_workspace_line path default))

  show_hint-Quiet : (pid : Option ℕ) → Quiet (show_hint host pid)
  show_hint-Quiet (some pid) = pure-Keeps tt
  show_hint-Quiet none =
      bind-Keeps (look-Keeps quiet_base host "env" (not_running_hint host))
        λ hint. say-Keeps quiet_base host ("Hint: " <> hint)

  say_gaps-Quiet : (gaps : List String) → Quiet (say_gaps host gaps)
  say_gaps-Quiet [] = pure-Keeps tt
  say_gaps-Quiet (gap ∷ gaps) =
      bind-Keeps (say-Keeps quiet_base host ("  - " <> gap)) λ _. say_gaps-Quiet gaps

  show_gaps-Quiet : (gaps : List String) → Quiet (show_gaps host gaps)
  show_gaps-Quiet [] = say-Keeps quiet_base host "Isolation: ready"
  show_gaps-Quiet (gap ∷ gaps) =
      bind-Keeps (say-Keeps quiet_base host "Isolation: not ready") λ _. say_gaps-Quiet (gap ∷ gaps)

  show_rest-Quiet : (brief : Bool) → Quiet (show_rest host brief)
  show_rest-Quiet true = pure-Keeps (pos 0)
  show_rest-Quiet false = bind-Keeps (say-Keeps quiet_base host "") λ _.
      bind-Keeps (say_all-Quiet build_lines) λ _. bind-Keeps (say-Keeps quiet_base host "") λ _.
        bind-Keeps
          (look-Keeps quiet_base host "version"
            λ t. check_version (host.checkout t) (host.lookup t))
          λ version. bind-Keeps (say-Keeps quiet_base host (format_version_status version)) λ _.
            bind-Keeps (say-Keeps quiet_base host "") λ _.
              bind-Keeps (look-Keeps quiet_base host "isolation" host.gaps)
                λ gaps. bind-Keeps (show_gaps-Quiet gaps) λ _. pure-Keeps (pos 0)

  pub status-Quiet : (brief : Bool) → Quiet (status host brief)
  unfolding status
  status-Quiet brief = bind-Keeps (node_pid-Keeps quiet_base host) λ pid.
      bind-Keeps default_workspace_text-Quiet λ default. bind-Keeps (node_state-Quiet pid) λ state.
        bind-Keeps (say_lines-Quiet (format_runtime_status pid state.0 state.1 default)) λ _.
          bind-Keeps (show_workspace-Quiet (is_up host state.0 || brief) default)
            λ _. bind-Keeps (show_hint-Quiet pid) λ _. show_rest-Quiet brief

  show_vm-Quiet : (snap : Fields) → Quiet (show_vm host snap)
  show_vm-Quiet snap = bind-Keeps default_workspace_text-Quiet λ default.
      bind-Keeps (say_lines-Quiet (format_vm_status snap default)) λ _. pure-Keeps (pos 0)

  after_status-Quiet : (snap : Option Fields) → Quiet (after_status host snap)
  after_status-Quiet none = pure-Keeps (pos 2)
  after_status-Quiet (some snap) = show_vm-Quiet snap

  vm_status_there-Quiet : (pid : Option ℕ) → Quiet (vm_status_there host pid)
  vm_status_there-Quiet none = bind-Keeps (say-Keeps quiet_base host "VM: (none)") λ _.
      bind-Keeps (look-Keeps quiet_base host "env" (not_running_hint host))
        λ hint. leave-Keeps quiet_base host ("corvus: " <> hint) (pos 2)
  vm_status_there-Quiet (some pid) =
      bind-Keeps
        (catch-Keeps (bind-Keeps (rpc_status-Keeps quiet_base host) λ snap. pure-Keeps (some snap))
          λ code why.
            bind-Keeps (leave-Keeps quiet_base host ("corvus: " <> why) (pos 2))
              λ c. pure-Keeps none)
        λ snap. after_status-Quiet snap

  pub vm_status-Quiet : Quiet (vm_status host)
  unfolding vm_status
  vm_status-Quiet = bind-Keeps (node_pid-Keeps quiet_base host) λ pid. vm_status_there-Quiet pid

  show_active-Quiet : (default : String) (pid : Option ℕ) → Quiet (show_active host default pid)
  show_active-Quiet default none = pure-Keeps (pos 0)
  show_active-Quiet default (some pid) =
      catch-Keeps
        (bind-Keeps (rpc_status-Keeps quiet_base host) λ snap.
          bind-Keeps
            (say_lines-Quiet (
              active_lines default (joined (list_of (or_null (get "tools" snap))))
                (first_path (or_null (get "workspace" snap)))))
            λ _. pure-Keeps (pos 0))
        λ code why. pure-Keeps (pos 0)

  node_note-Quiet : (pid : Option ℕ) → Quiet (node_note host pid)
  node_note-Quiet none = pure-Keeps (pos 0)
  node_note-Quiet (some pid) = leave-Keeps quiet_base host _ (pos 0)

  reshow-Quiet :
      (s : Checked LaunchSettings) (default : Checked String) → Quiet (reshow host s default)
  reshow-Quiet (good s) (good default) =
      bind-Keeps (say-Keeps quiet_base host (format_settings s default))
        λ _. bind-Keeps (node_pid-Keeps quiet_base host) λ pid. node_note-Quiet pid
  reshow-Quiet (good s) (bad why) = raise-Keeps uncaught tt
  reshow-Quiet (bad why) default = raise-Keeps uncaught tt

  read_again-Quiet : Quiet (read_again host)
  read_again-Quiet = bind-Keeps (look-Keeps quiet_base host "launch file" host.launch) λ rules.
      bind-Keeps (look-Keeps quiet_base host "default workspace" host.default_workspace)
        λ default. reshow-Quiet (checked_rules rules) (checked_folder default)

  save-Quiet : (s : Checked LaunchSettings) → Quiet (save host s)
  save-Quiet (bad why) = leave-Keeps quiet_base host _ (pos 2)
  save-Quiet (good s) =
      bind-Keeps (ask-Keeps (stored s) host.stores refl)
        λ written. if-Keeps written read_again-Quiet (raise-Keeps uncaught tt)

  edit_or_show-Quiet :
      (edit : Option Edit) (default : String) (s : LaunchSettings)
      → Quiet (edit_or_show host edit default s)
  edit_or_show-Quiet none default s =
      bind-Keeps (say-Keeps quiet_base host (format_settings s default))
        λ _. bind-Keeps (node_pid-Keeps quiet_base host) λ pid. show_active-Quiet default pid
  edit_or_show-Quiet (some edit) default s =
      bind-Keeps
        (look-Keeps quiet_base host "workspace setting"
          λ t. edited (λ value. host.workspace_setting value t) edit s)
        λ after. save-Quiet after

  with_rules-Quiet :
      (edit : Option Edit) (default : String) (s : Checked LaunchSettings)
      → Quiet (with_rules host edit default s)
  with_rules-Quiet edit default (good s) = edit_or_show-Quiet edit default s
  with_rules-Quiet edit default (bad why) = leave-Keeps quiet_base host _ (pos 2)

  rules_after-Quiet :
      (edit : Option Edit) (default : Checked String) → Quiet (rules_after host edit default)
  rules_after-Quiet edit (bad why) = leave-Keeps quiet_base host _ (pos 2)
  rules_after-Quiet edit (good default) =
      bind-Keeps (look-Keeps quiet_base host "launch file" host.launch)
        λ l. with_rules-Quiet edit default (checked_rules l)

  pub settings-Quiet : (edit : Option Edit) → Quiet (settings host edit)
  unfolding settings
  settings-Quiet edit =
      bind-Keeps (look-Keeps quiet_base host "default workspace" host.default_workspace)
        λ r. rules_after-Quiet edit (checked_folder r)

  -- On any host, `status`, `vm status` and `settings`, with or without an edit and each from an
  -- empty trace, send the Node no request but `status`, stop no unit and run no pip, also when
  -- they fail.
  pub show-IsHarmless :
      (brief : Bool) (edit : Option Edit)
      → All IsHarmless (status host brief []).1
        × All IsHarmless (vm_status host []).1
        × All IsHarmless (settings host edit []).1
  show-IsHarmless brief edit = (
    ensured _ ((status-Quiet brief).after [] tt),
    ensured _ (vm_status-Quiet.after [] tt),
    ensured _ ((settings-Quiet edit).after [] tt),
  )
