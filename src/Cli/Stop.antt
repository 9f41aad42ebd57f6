-- ===== src/Cli/Stop.antt =====
-- src/corvus_node/cli.py: the commands that stop the agent, or the agent and the Node.
use corvus_node.Prelude.{ℕ, ◌<>◌, Bool, true, false, not, ◌&&◌, Option, none, some, if◌then◌else◌}
use corvus_node.Prelude.Int.{ℤ, pos, ◌==ℤ◌}
use corvus_node.Cli.{Host, looked, Command, pure, ◌>>=◌, ◌>>◌, catch, ask, warn, leave}
use corvus_node.Cli.Client.{node_pid, not_running_hint, rpc_stop, rpc_shutdown, wait_node_gone}
use corvus_node.Cli.Consent.{
  agent_line, confirm, no_tty, vm_is_running, uses_this_systemd_unit, stop_systemd_unit,
}

abbrev pub is_stopped : Option ℕ → Bool → Bool
is_stopped none systemd = not systemd
is_stopped (some pid) systemd = false

module _ (host : Host) where
  -- The agent is stopped if the Node is there.
  abbrev pub end_agent : Option ℕ → Command (Unit {0})
  end_agent none = pure tt
  end_agent (some pid) =
      catch (rpc_stop host >> warn "corvus: agent session ended")
        λ code why. warn ("corvus: agent session: " <> why)

  abbrev pub stop_unit : Command ℤ
  stop_unit = do
    code ← stop_systemd_unit host
    if not (code ==ℤ pos 0)
        then leave
            "corvus: Corvus-Node did not stop; it may still be up (sudo systemctl stop corvus-node)"
            (pos 2)
        else do gone ← wait_node_gone host; leave "corvus: Corvus-Node stopped" (pos 0)

  abbrev pub stop_process : Option ℕ → Command ℤ
  stop_process none = leave "corvus: Corvus-Node stopped" (pos 0)
  stop_process (some pid) =
      catch (rpc_shutdown host >> leave "corvus: Corvus-Node stopped" (pos 0))
        λ code why. leave ("corvus: " <> why) (pos 2)

  -- `_execute_product_stop`
  abbrev pub stop_there : Option ℕ → Bool → Command ℤ
  stop_there pid systemd = do
    end_agent pid
    if systemd then stop_unit else node_pid host >>= stop_process

  unfoldable pub execute_product_stop : Command ℤ
  unfolding node_pid uses_this_systemd_unit rpc_stop stop_systemd_unit wait_node_gone rpc_shutdown
  execute_product_stop = do
    pid ← node_pid host
    systemd ← uses_this_systemd_unit host pid
    if is_stopped pid systemd
        then leave "corvus: Corvus-Node is already stopped" (pos 0)
        else stop_there pid systemd

  -- `_print_vm_stop_explain`
  unfoldable pub print_vm_stop_explain : Bool → Command (Unit {0})
  print_vm_stop_explain running = do
    warn "corvus vm stop — end the agent session only"
    warn (
        if running
        then "The isolated agent will shut down."
        else "There is no agent session running.")
    warn "Corvus-Node stays ready in the background."
    warn "You can corvus vm start again without reinstalling."
    warn "Chat, if open, will disconnect."
    warn "This does not shut Corvus-Node down. Use corvus stop for that."

  -- `_print_product_stop_explain`
  abbrev pub explain_unit : Bool → Command (Unit {0})
  explain_unit false = warn "  2. Corvus-Node in the background will stop."
  explain_unit true = do
    warn "  2. Corvus-Node in the background will stop."
    warn "     Chat will not work until it is started again."
    warn "Start again with: corvus start"
    warn "A password may be asked because isolation is a system job."
    warn "You are not giving the agent an admin account."

  unfoldable pub print_product_stop_explain : Bool → Bool → Command (Unit {0})
  print_product_stop_explain vm_up systemd = do
    warn "corvus stop — shut Corvus-Node down"
    warn (agent_line vm_up)
    explain_unit systemd
    warn "To end only the agent session and leave Corvus-Node ready: corvus vm stop"

  -- `_vm_stop`
  abbrev pub stop_agent : Bool → Command ℤ
  stop_agent running =
      catch
        (do
          rpc_stop host
          leave
              (if running
                then "corvus: agent session ended; Corvus-Node stays ready"
                else "corvus: no agent session was running; Corvus-Node stays ready")
              (pos 0))
        λ code why. leave ("corvus: " <> why) (pos 2)

  abbrev pub vm_stop_there : Bool → Option ℕ → Command ℤ
  vm_stop_there assume_yes none = do
    hint ← ask (looked "env") (not_running_hint host)
    leave ("corvus: " <> hint) (pos 2)
  vm_stop_there assume_yes (some pid) = do
    running ← vm_is_running host (some pid)
    print_vm_stop_explain running
    confirmed ← confirm host "End the agent session? Corvus-Node will stay ready." assume_yes no_tty
    if confirmed then stop_agent running else leave "corvus: cancelled" (pos 2)

  unfoldable pub vm_stop : Bool → Command ℤ
  unfolding node_pid not_running_hint vm_is_running print_vm_stop_explain confirm rpc_stop
  vm_stop assume_yes = node_pid host >>= vm_stop_there assume_yes

  -- `_product_stop`
  abbrev pub stop_hint : Bool → ℤ → Command ℤ
  stop_hint systemd code =
      if code ==ℤ pos 0 && systemd
      then leave "corvus: start again with corvus start (or sudo systemctl start corvus-node)" code
      else pure code

  abbrev pub product_stop_there : Bool → Option ℕ → Bool → Command ℤ
  product_stop_there assume_yes pid systemd = do
    vm_up ← vm_is_running host pid
    print_product_stop_explain vm_up systemd
    confirmed ← confirm host "Shut down the agent and Corvus-Node?" assume_yes no_tty
    if confirmed
        then execute_product_stop >>= stop_hint systemd
        else leave "corvus: cancelled" (pos 2)

  unfoldable pub product_stop : Bool → Command ℤ
  unfolding node_pid uses_this_systemd_unit vm_is_running print_product_stop_explain confirm
      execute_product_stop
  product_stop assume_yes = do
    pid ← node_pid host
    systemd ← uses_this_systemd_unit host pid
    if is_stopped pid systemd
        then leave "corvus: Corvus-Node is already stopped" (pos 0)
        else product_stop_there assume_yes pid systemd
