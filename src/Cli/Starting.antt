-- ===== src/Cli/Starting.antt =====
-- The start of the Node asks before it starts the agent.
use corvus_node.Prelude.{
  ℕ, String, ◌<>◌, ◌≡◌, ◌⊎◌, inl, inr, Bool, true, false, not, ◌&&◌, Option, none, some, ◌==◌,
  ◌==ℕ◌, arith, if◌then◌else◌,
}
use corvus_node.Prelude.Int.{ℤ, pos, ◌==ℤ◌}
use corvus_node.Settings.{LaunchSettings}
use corvus_node.Workspace.{Resolved, folder, unusable}
use corvus_node.Cli.{Host, Trace, Event, ran_pip, Command, Failure, leave}
use corvus_node.Cli.Client.{rpc_start, wait_node, is_product_install}
use corvus_node.Cli.Consent.{is_consent}
use corvus_node.Cli.Start.{
  LaunchError, already_running, isolation_unavailable, boot_timeout, os_error, Launch, up, down,
  launch_errors, workspace_paths, install_hint, is_smoke, start_unit, up_or_start, ensure_node_up,
  after_boot, start_call, after_call, start, offer_agent, node_then_agent, with_default,
  product_start,
}
use corvus_node.Cli.Keeps.{
  Keeps, Base, bind-Keeps, pure-Keeps, if-Keeps, catch-Keeps, warn-Keeps, leave-Keeps, look-Keeps,
  rpc-Keeps, node_pid-Keeps,
}
use corvus_node.Cli.Agreed.{
  confirm-Keeps, vm_is_running-Keeps, start_systemd_unit-Keeps, wait_node_ready-Keeps,
}
use corvus_node.Cli.Refused.{IsHarmless, Refuses, IsError, quiet_base, wait_node-Keeps}

module _ {Allowed : Event → Type 0} {Fair : Failure → Type 0} (base : Base Allowed Fair)
    (host : Host) (waits : (wanted : Bool) → Keeps Allowed Fair (wait_node host wanted)) where
  abbrev Kept {ℓ} : {A : Type ℓ} → Command A → Type ℓ
  Kept m = Keeps Allowed Fair m

  start_unit-Keeps : Kept (start_unit host)
  start_unit-Keeps = bind-Keeps (start_systemd_unit-Keeps base host) λ code.
      if-Keeps (not (code ==ℤ pos 0))
        (leave-Keeps base host ("corvus: Corvus-Node did not start (" <> (install_hint <> ")"))
          (pos 2))
        (bind-Keeps (wait_node_ready-Keeps base host waits) λ ready.
          if-Keeps ready (leave-Keeps base host "corvus: Corvus-Node started" (pos 0)) (
            leave-Keeps base host
              ("corvus: Corvus-Node did not become ready (" <> (install_hint <> ")")) (pos 2)))

  up_or_start-Keeps : (pid : Option ℕ) → Kept (up_or_start host pid)
  up_or_start-Keeps (some pid) = pure-Keeps (pos 0)
  up_or_start-Keeps none =
      if-Keeps (is_product_install host) start_unit-Keeps
        (leave-Keeps base host ("corvus: " <> install_hint) (pos 2))

  ensure_node_up-Keeps : Kept (ensure_node_up host)
  unfolding ensure_node_up
  ensure_node_up-Keeps = bind-Keeps (node_pid-Keeps base host) λ pid. up_or_start-Keeps pid

  launch_errors-Keeps : (e : LaunchError) → Kept (launch_errors e)
  unfolding launch_errors
  launch_errors-Keeps (already_running why) = leave-Keeps base host _ (pos 2)
  launch_errors-Keeps (isolation_unavailable why) =
      bind-Keeps (warn-Keeps base host ("corvus: isolation unavailable: " <> why)) λ _.
        leave-Keeps base host "Refusing to run without isolation (virtualization is required)."
          (pos 2)
  launch_errors-Keeps (boot_timeout why) = leave-Keeps base host _ (pos 2)
  launch_errors-Keeps (os_error why) = leave-Keeps base host _ (pos 2)

  module _ (start_daemon : LaunchSettings → Command (Launch (Unit {0})))
      (launch_turn : String → LaunchSettings → Command (Launch String)) (merged : LaunchSettings)
      (starts : ((e : Event) → Allowed e) → Keeps Allowed Fair (start_daemon merged)) where
    after_boot-Keeps : (o : Launch (Unit {0})) → Kept (after_boot host start_daemon launch_turn o)
    after_boot-Keeps (up u) = leave-Keeps base host _ (pos 0)
    after_boot-Keeps (down e) = launch_errors-Keeps e

    module _ (all : (e : Event) → Allowed e) where
      rpc_start-Keeps : Kept (rpc_start host merged.tools (workspace_paths merged))
      unfolding rpc_start
      rpc_start-Keeps = rpc-Keeps base host _ _ _ _ (all _)

      start_call-Keeps : Kept (start_call host start_daemon launch_turn merged)
      start_call-Keeps =
          catch-Keeps (bind-Keeps rpc_start-Keeps λ payload. pure-Keeps none)
            λ code why. pure-Keeps (some (code, why))

      after_call-Keeps :
          (failed : Option (String × String))
          → Kept (after_call host start_daemon launch_turn merged failed)
      after_call-Keeps none = leave-Keeps base host _ (pos 0)
      after_call-Keeps (some (code, why)) =
          if-Keeps (code == "not_running" && (host.euid ==ℕ 0) && is_smoke host)
            (bind-Keeps (starts all) λ o. after_boot-Keeps o)
            (leave-Keeps base host ("corvus: " <> why) (pos 2))

      start-Keeps : Kept (start host start_daemon launch_turn merged)
      unfolding start
      start-Keeps = bind-Keeps start_call-Keeps λ failed. after_call-Keeps failed

    module _ (assume_yes : Bool)
        (licence : (t : Trace)
          → (assume_yes ≡ true) ⊎ (is_consent host (host.read_line t) ≡ true)
          → (e : Event) → Allowed e) where
      offer_agent-Keeps :
          (running : Bool)
          → Kept (offer_agent host start_daemon launch_turn merged assume_yes running)
      offer_agent-Keeps running =
          if-Keeps running (leave-Keeps base host "corvus: agent already running" (pos 0)) (
            confirm-Keeps base host assume_yes licence "Start the isolated agent (VM) as well?"
              "corvus: not starting the VM (pass --yes to start it)"
              (λ confirmed.
                if confirmed
                then start host start_daemon launch_turn merged
                else leave "corvus: Corvus-Node is ready; agent not running (corvus vm start)"
                    (pos 0))
              start-Keeps
              (leave-Keeps base host
                "corvus: Corvus-Node is ready; agent not running (corvus vm start)" (pos 0)))

      node_then_agent-Keeps :
          (code : ℤ) → Kept (node_then_agent host start_daemon launch_turn merged assume_yes code)
      node_then_agent-Keeps code = if-Keeps (not (code ==ℤ pos 0)) (pure-Keeps code) (
          bind-Keeps (node_pid-Keeps base host) λ pid.
            bind-Keeps (vm_is_running-Keeps base host pid) λ running. offer_agent-Keeps running)

      with_default-Keeps :
          (r : Resolved) → Kept (with_default host start_daemon launch_turn merged assume_yes r)
      with_default-Keeps (unusable why) = leave-Keeps base host _ (pos 2)
      with_default-Keeps (folder path) =
          bind-Keeps ensure_node_up-Keeps λ code. node_then_agent-Keeps code

      product_start-Keeps : Kept (product_start host start_daemon launch_turn merged assume_yes)
      unfolding product_start
      product_start-Keeps =
          bind-Keeps (look-Keeps base host "default workspace" host.default_workspace)
            λ r. with_default-Keeps r

-- The start of the Node and the agent.
pub product_start-Quiet :
    (host : Host) (start_daemon : LaunchSettings → Command (Launch (Unit {0})))
    (launch_turn : String → LaunchSettings → Command (Launch String)) (merged : LaunchSettings)
    → Refuses host
    → Keeps IsHarmless IsError (product_start host start_daemon launch_turn merged false)
product_start-Quiet host start_daemon launch_turn merged refuses =
    let never : ((e : Event) → IsHarmless e) → ⊥ = λ all. ground (arith, all (ran_pip "")) in
    product_start-Keeps quiet_base host (wait_node-Keeps host) start_daemon launch_turn merged
      (λ all. absurd (never all)) false
      λ t h. elim h [
        | inl e ↦ absurd (ground (arith, e))
        | inr e ↦ absurd (ground (arith, e, refuses t))
      ]
