-- ===== src/Cli/Consent.antt =====
-- src/corvus_node/cli.py: the question to the operator, and what the host is asked and told.
use corvus_node.Prelude.{
  ℕ, suc, String, ◌<>◌, Bool, true, false, not, Option, none, some, [], ◌∷◌, elem, ◌==◌, ◌==ℕ◌,
  if◌then◌else◌,
}
use corvus_node.Prelude.Int.{ℤ, pos, ◌==ℤ◌}
use corvus_node.Json.{Value, str, get}
use corvus_node.Settings.{strip_text}
use corvus_node.Cli.{
  Host, prompted, looked, ran_systemctl, ran_pip, Shown, shown, Command, pure, ◌>>=◌, ◌>>◌, catch,
  emit, ask, warn, leave,
}
use corvus_node.Cli.Client.{is_product_install, rpc_status}

-- `status.get("state") == "running"`
abbrev pub is_running : Option Value → Bool
is_running (some (str state)) = state == "running"
is_running _ = false

abbrev pub agent_line : Bool → String
agent_line vm_up =
    "  1. The isolated agent" <> (if vm_up then " will shut down." else " is already stopped.")

-- `sudo` stands before the command of another user than root.
abbrev pub unit_command : ℕ → String → String
unit_command euid verb =
    (if euid ==ℕ 0 then "systemctl " else "sudo systemctl ") <> (verb <> " corvus-node.service")

abbrev pub code_or : Option ℤ → ℤ
code_or none = pos 127
code_or (some code) = code

-- The pid that `systemctl show` printed, if it is positive.
abbrev pub positive_pid : Option ℤ → Option ℕ
positive_pid (some (pos (suc n))) = some (suc n)
positive_pid _ = none

abbrev pub or_zero : String → String
or_zero t = if t == "" then "0" else t

abbrev pub no_tty : String
no_tty = "corvus: not a TTY; pass --yes to confirm"

module _ (host : Host) where
  -- `answer.strip().lower() in {"y", "yes"}`
  unfoldable pub is_consent : String → Bool
  unfolding elem
  is_consent answer = elem (host.lower (strip_text answer)) ("y" ∷ "yes" ∷ [])

  -- `_confirm`
  abbrev pub ask_operator : String → Command Bool
  ask_operator prompt = do
    emit (prompted (prompt <> " [y/N] "))
    answer ← ask (looked "stdin") host.read_line
    pure (is_consent answer)

  unfoldable pub confirm : String → Bool → String → Command Bool
  unfolding is_consent
  confirm prompt assume_yes missing_tty =
      if assume_yes
      then pure true
      else ask (looked "tty") host.is_tty >>= λ tty.
          if tty then ask_operator prompt else warn missing_tty >> pure false

  -- `_vm_is_running`
  unfoldable pub vm_is_running : Option ℕ → Command Bool
  unfolding rpc_status get
  vm_is_running none = pure false
  vm_is_running (some pid) =
      catch (rpc_status host >>= λ snap. pure (is_running (get "state" snap)))
        λ code why. pure false

  -- `_systemd_main_pid`
  abbrev pub pid_shown : Shown → Option ℕ
  pid_shown (shown out) = positive_pid (host.int_of_text (or_zero (strip_text out)))
  pid_shown _ = none

  unfoldable pub systemd_main_pid : Command (Option ℕ)
  systemd_main_pid = do s ← ask (looked "systemctl show") host.main_pid; pure (pid_shown s)

  -- `_uses_this_systemd_unit`
  abbrev pub same_unit : Option ℕ → Option ℕ → Bool
  same_unit (some (suc node)) (some main) = main ==ℕ suc node
  same_unit _ (some main) = is_product_install host
  same_unit _ none = false

  unfoldable pub uses_this_systemd_unit : Option ℕ → Command Bool
  unfolding systemd_main_pid is_product_install
  uses_this_systemd_unit node = do main ← systemd_main_pid; pure (same_unit node main)

  abbrev pub run_unit : String → String → Command ℤ
  run_unit text verb = do
    warn text
    code ← ask (ran_systemctl verb) (host.systemctl (unit_command host.euid verb))
    pure (code_or code)

  unfoldable pub stop_systemd_unit : Command ℤ
  stop_systemd_unit =
      run_unit "corvus: stopping Corvus-Node (password: isolation is a system job)" "stop"

  unfoldable pub start_systemd_unit : Command ℤ
  start_systemd_unit =
      run_unit "corvus: starting Corvus-Node (password: isolation is a system job)" "start"

  -- `_pip_upgrade`
  abbrev pub pip_gui : Command ℤ
  pip_gui = do
    gui ← ask (ran_pip "PySide6") (host.pip "PySide6")
    if gui ==ℤ pos 0
        then pure (pos 0)
        else leave "corvus: GUI extras skipped (PySide6); CLI is available (corvus gui needs them)"
            (pos 0)

  unfoldable pub pip_upgrade : String → Command ℤ
  pip_upgrade ref = do
    code ← ask (ran_pip ref) (host.pip ref)
    if not (code ==ℤ pos 0) then pure code else pip_gui
