-- ===== src/Cli/Start.antt =====
-- src/corvus_node/cli.py: the commands that bring the Node and the agent up, and the one reply. The
-- launches of a development machine without an installed Node are parameters.
use corvus_node.Prelude.{
  ℕ, String, ◌<>◌, Bool, true, false, not, ◌&&◌, ◌||◌, Option, none, some, List, [], ◌∷◌, ◌==◌,
  ◌==ℕ◌, if◌then◌else◌,
}
use corvus_node.Prelude.Int.{ℤ, pos, ◌==ℤ◌}
use corvus_node.Json.{str, end, field, get}
use corvus_node.Json.Text.{text_at}
use corvus_node.Control.{Frame}
use corvus_node.Settings.{LaunchSettings, strip_text}
use corvus_node.Workspace.{Resolved, folder, unusable}
use corvus_node.Cli.{
  Host, looked, Command, pure, ◌>>=◌, ◌>>◌, catch, finally, ask, say, warn, leave,
}
use corvus_node.Cli.Client.{
  node_pid, is_product_install, not_running_hint, connect, send, receive, rpc_status, rpc_start,
  rpc_stop, wait_node_ready,
}
use corvus_node.Cli.Consent.{is_running, confirm, vm_is_running, start_systemd_unit}

-- The errors that `_launch_errors` knows, with their texts.
pub data LaunchError : Type 0 where
  already_running isolation_unavailable boot_timeout os_error : String → LaunchError

pub data Launch {ℓ} (A : Type ℓ) : Type ℓ where
  up : A → Launch A
  down : LaunchError → Launch A

unfoldable pub launch_errors : LaunchError → Command ℤ
launch_errors (already_running why) = leave ("corvus: " <> why) (pos 2)
launch_errors (isolation_unavailable why) = do
  warn ("corvus: isolation unavailable: " <> why)
  leave "Refusing to run without isolation (virtualization is required)." (pos 2)
launch_errors (boot_timeout why) = leave ("corvus: guest boot timed out: " <> why) (pos 2)
launch_errors (os_error why) = leave ("corvus: failed to launch microVM: " <> why) (pos 2)

-- The paths of `_config`.
unfoldable pub workspace_paths : LaunchSettings → List String
workspace_paths merged = elim merged.workspace [
  | none ↦ []
  | some path ↦ if path == "" then [] else path ∷ []
]

abbrev pub install_hint : String
install_hint = "Corvus-Node is not running; ./install.sh"

module _ (host : Host) where
  abbrev pub is_smoke : Bool
  is_smoke = strip_text (host.env "CORVUS_NODE_SMOKE") == "1"

  abbrev hint_and_leave : Command ℤ
  hint_and_leave = do
    hint ← ask (looked "env") (not_running_hint host)
    leave ("corvus: " <> hint) (pos 2)

  -- A frame of the asked type is awaited.
  abbrev expect : String → String → Frame → Command ℤ → Command ℤ
  expect type what f rest =
      if f.type == type
      then rest
      else leave ("corvus: unexpected " <> (what <> (" reply " <> f.type))) (pos 2)

  -- The agent is there, or is started.
  abbrev agent_up : LaunchSettings → Bool → Command (Unit {0})
  agent_up merged true = pure tt
  agent_up merged false =
      rpc_start host merged.tools (workspace_paths merged) >>= λ payload. pure tt

  abbrev one_reply : String → Command ℤ
  one_reply t = do
    connect host
    send host "chat_attach" end
    f ← receive host
    expect "waiting" "attach" f (do
      send host "user" (field "text" (str t) end)
      g ← receive host
      expect "agent" "chat" g (say (text_at "text" g.payload) >> pure (pos 0)))

  -- `_run_once_via_node`
  unfoldable pub run_once_via_node : String → LaunchSettings → Command ℤ
  unfolding rpc_status rpc_start workspace_paths connect send receive rpc_stop get
  run_once_via_node t merged =
      finally
        (catch
          (do snap ← rpc_status host; agent_up merged (is_running (get "state" snap)); one_reply t)
          λ code why. leave ("corvus: " <> why) (pos 2))
        (catch (rpc_stop host) λ code why. pure tt)

  -- `_ensure_node_up`
  abbrev pub start_unit : Command ℤ
  start_unit = do
    code ← start_systemd_unit host
    if not (code ==ℤ pos 0)
        then leave ("corvus: Corvus-Node did not start (" <> (install_hint <> ")")) (pos 2)
        else do
          ready ← wait_node_ready host
          if ready
              then leave "corvus: Corvus-Node started" (pos 0)
              else leave ("corvus: Corvus-Node did not become ready (" <> (install_hint <> ")"))
                  (pos 2)

  abbrev pub up_or_start : Option ℕ → Command ℤ
  up_or_start (some pid) = pure (pos 0)
  up_or_start none =
      if is_product_install host then start_unit else leave ("corvus: " <> install_hint) (pos 2)

  unfoldable pub ensure_node_up : Command ℤ
  unfolding node_pid is_product_install start_systemd_unit wait_node_ready
  ensure_node_up = node_pid host >>= up_or_start

  -- `start_daemon` and `launch_turn`
  module _ (start_daemon : LaunchSettings → Command (Launch (Unit {0})))
      (launch_turn : String → LaunchSettings → Command (Launch String)) where
    abbrev pub reported : Command ℤ
    reported = leave "corvus: agent started" (pos 0)

    abbrev pub after_boot : Launch (Unit {0}) → Command ℤ
    after_boot (up u) = reported
    after_boot (down e) = launch_errors e

    abbrev pub boot : LaunchSettings → String → String → Command ℤ
    boot merged code why =
        if code == "not_running" && (host.euid ==ℕ 0) && is_smoke
        then start_daemon merged >>= after_boot
        else leave ("corvus: " <> why) (pos 2)

    -- `_start`: an error of the call is looked at.
    abbrev pub start_call : LaunchSettings → Command (Option (String × String))
    start_call merged =
        catch (rpc_start host merged.tools (workspace_paths merged) >>= λ payload. pure none)
          λ code why. pure (some (code, why))

    abbrev pub after_call : LaunchSettings → Option (String × String) → Command ℤ
    after_call merged none = reported
    after_call merged (some (code, why)) = boot merged code why

    unfoldable pub start : LaunchSettings → Command ℤ
    unfolding rpc_start workspace_paths launch_errors
    start merged = start_call merged >>= after_call merged

    -- `_product_start`
    abbrev pub offer_agent : LaunchSettings → Bool → Bool → Command ℤ
    offer_agent merged assume_yes running =
        if running
        then leave "corvus: agent already running" (pos 0)
        else confirm host "Start the isolated agent (VM) as well?" assume_yes
            "corvus: not starting the VM (pass --yes to start it)"
          >>= λ confirmed.
              if confirmed
              then start merged
              else leave "corvus: Corvus-Node is ready; agent not running (corvus vm start)" (pos 0)

    abbrev pub node_then_agent : LaunchSettings → Bool → ℤ → Command ℤ
    node_then_agent merged assume_yes code = if not (code ==ℤ pos 0) then pure code else do
      pid ← node_pid host
      running ← vm_is_running host pid
      offer_agent merged assume_yes running

    abbrev pub with_default : LaunchSettings → Bool → Resolved → Command ℤ
    with_default merged assume_yes (unusable why) = leave ("corvus: " <> why) (pos 2)
    with_default merged assume_yes (folder path) =
        ensure_node_up >>= node_then_agent merged assume_yes

    unfoldable pub product_start : LaunchSettings → Bool → Command ℤ
    unfolding ensure_node_up node_pid vm_is_running confirm start
    product_start merged assume_yes =
        ask (looked "default workspace") host.default_workspace >>= with_default merged assume_yes

    -- `_run_once`
    abbrev answered : Launch String → Command ℤ
    answered (up response) = say response >> pure (pos 0)
    answered (down e) = launch_errors e

    abbrev once_by : String → LaunchSettings → Option ℕ → Command ℤ
    once_by t merged (some pid) = run_once_via_node t merged
    once_by t merged none =
        if not (host.euid ==ℕ 0) || not is_smoke
        then hint_and_leave
        else launch_turn t merged >>= answered

    unfoldable pub run_once : String → LaunchSettings → Command ℤ
    unfolding node_pid run_once_via_node not_running_hint launch_errors
    run_once t merged = node_pid host >>= once_by t merged
