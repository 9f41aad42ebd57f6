-- ===== src/Cli/Update.antt =====
-- src/corvus_node/cli.py: the update, which stops a Node that runs.
use corvus_node.Prelude.{
  ℕ, String, ◌<>◌, Bool, true, false, not, ◌&&◌, Option, none, some, ◌==◌, if◌then◌else◌,
}
use corvus_node.Prelude.Int.{ℤ, pos, ◌==ℤ◌}
use corvus_node.Update.{
  local_version, VersionStatus, check_version, format_version_status, github_install_ref,
}
use corvus_node.Cli.{Host, looked, Command, pure, ◌>>=◌, ◌>>◌, ask, say, warn, leave}
use corvus_node.Cli.Client.{node_pid}
use corvus_node.Cli.Consent.{
  agent_line, confirm, no_tty, vm_is_running, uses_this_systemd_unit, start_systemd_unit,
  pip_upgrade,
}
use corvus_node.Cli.Stop.{execute_product_stop, is_stopped}

abbrev pub why_prompt : String → String
why_prompt why =
    if why == "update"
    then "Stop Corvus-Node, then continue the update?"
    else "Stop Corvus-Node, then continue install?"

module _ (host : Host) where
  -- `_print_replace_stop_explain`
  abbrev pub explain_rest : String → Command (Unit {0})
  explain_rest why =
      if why == "update"
      then warn "  3. The newer release is installed." >> warn "  4. Corvus-Node starts again."
      else warn "  3. Install continues, then Corvus-Node starts again."

  unfoldable pub print_replace_stop_explain : String → Bool → Command (Unit {0})
  print_replace_stop_explain why vm_up = do
    warn ("corvus " <> (why <> " — Corvus-Node is already running"))
    warn (agent_line vm_up)
    warn "  2. Corvus-Node in the background will stop so files can be replaced."
    explain_rest why
    warn "A password may be asked because isolation is a system job."

  -- `_stop_running_for_replace`: the exit code, and whether the Node is to be started again.
  abbrev pub replace_there : Bool → String → Option ℕ → Bool → Command (ℤ × Bool)
  replace_there assume_yes why pid systemd = do
    vm_up ← vm_is_running host pid
    print_replace_stop_explain why vm_up
    confirmed ← confirm host (why_prompt why) assume_yes no_tty
    if confirmed
        then (execute_product_stop host >>= λ code. pure (code, systemd && (code ==ℤ pos 0)))
        else warn "corvus: cancelled; Corvus-Node is still running" >> pure (pos 2, false)

  unfoldable pub stop_running_for_replace : Bool → String → Command (ℤ × Bool)
  unfolding node_pid uses_this_systemd_unit vm_is_running print_replace_stop_explain confirm
      execute_product_stop
  stop_running_for_replace assume_yes why = do
    pid ← node_pid host
    systemd ← uses_this_systemd_unit host pid
    if is_stopped pid systemd then pure (pos 0, false) else replace_there assume_yes why pid systemd

  -- `_update`
  abbrev pub start_again : Bool → Command ℤ
  start_again false = leave "corvus: updated" (pos 0)
  start_again true = do
    code ← start_systemd_unit host
    if code ==ℤ pos 0
        then leave "corvus: updated; Corvus-Node started" (pos 0)
        else leave "corvus: updated, but Corvus-Node did not start (./install.sh)" code

  abbrev pub pip_failed : Bool → ℤ → Command ℤ
  pip_failed false code = pure code
  pip_failed true code =
      leave "corvus: Corvus-Node is down; ./install.sh (or sudo systemctl start corvus-node)" code

  abbrev pub install : String → ℤ × Bool → Command ℤ
  install version (stop_code, restart) = if not (stop_code ==ℤ pos 0) then pure stop_code else do
    warn (
        "corvus: installing GitHub release wheel "
        <> (github_install_ref version <> " (CLI and GUI)"))
    code ← pip_upgrade host (github_install_ref version)
    if code ==ℤ pos 0 then start_again restart else do
      warn "corvus: pip failed; sudo corvus update (installs the GitHub release wheel)"
      pip_failed restart code

  abbrev pub offer : Bool → String → Command ℤ
  offer assume_yes version = do
    warn ("Installed: " <> (local_version <> (". GitHub release: " <> (version <> "."))))
    warn "Say no to keep the version you have."
    confirmed ← confirm host ("Upgrade to GitHub release " <> (version <> "?")) assume_yes no_tty
    if confirmed
        then stop_running_for_replace assume_yes "update" >>= install version
        else leave ("corvus: keeping " <> local_version) (pos 0)

  -- The release that is offered: none, or an empty text, is none.
  abbrev pub offered : VersionStatus → Option String
  offered status =
      if status.update_available
      then elim status.github [ none ↦ none | some v ↦ if v == "" then none else some v ]
      else none

  abbrev pub offer_if : Bool → Option String → Command ℤ
  offer_if assume_yes none = pure (pos 0)
  offer_if assume_yes (some version) = offer assume_yes version

  unfoldable pub update : Bool → Command ℤ
  unfolding confirm stop_running_for_replace pip_upgrade start_systemd_unit github_install_ref
      check_version format_version_status
  update assume_yes = do
    status ← ask (looked "version") λ t. check_version (host.checkout t) (host.lookup t)
    say (format_version_status status)
    offer_if assume_yes (offered status)
