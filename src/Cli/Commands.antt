-- ===== src/Cli/Commands.antt =====
-- What the commands that ask first do without consent, and that every command comes to an end.
use corvus_node.Prelude.{
  ℕ, String, ◌<>◌, ◌≡◌, ◌⊎◌, refl, Bool, true, false, not, ◌&&◌, Option, none, some, if◌then◌else◌,
}
use corvus_node.Prelude.Int.{ℤ, pos, ◌==ℤ◌}
use corvus_node.Update.{check_version, format_version_status, github_install_ref, local_version}
use corvus_node.Cli.{Host, Trace, Event, ran_pip, Command, Failure, ◌>>=◌}
use corvus_node.Cli.Client.{wait_node, not_running_hint}
use corvus_node.Cli.Consent.{is_consent, confirm, no_tty, pip_upgrade}
use corvus_node.Cli.Stop.{
  is_stopped, stop_agent, vm_stop_there, vm_stop, stop_hint, product_stop_there, product_stop,
}
use corvus_node.Cli.Update.{
  why_prompt, print_replace_stop_explain, replace_there, stop_running_for_replace, start_again,
  pip_failed, install, offered, offer_if, update,
}
use corvus_node.Cli.Keeps.{
  Keeps, Base, bind-Keeps, pure-Keeps, ask-Keeps, if-Keeps, catch-Keeps, warn-Keeps, leave-Keeps,
  say-Keeps, look-Keeps, rpc_stop-Keeps, node_pid-Keeps,
}
use corvus_node.Cli.Agreed.{
  confirm-Keeps, vm_is_running-Keeps, uses_this_systemd_unit-Keeps, start_systemd_unit-Keeps,
  print_vm_stop_explain-Keeps, print_product_stop_explain-Keeps, execute_product_stop-Keeps,
}

module _ {Allowed : Event → Type 0} {Fair : Failure → Type 0} (base : Base Allowed Fair)
    (host : Host) (waits : (wanted : Bool) → Keeps Allowed Fair (wait_node host wanted))
    (assume_yes : Bool)
    (licence : (t : Trace)
      → (assume_yes ≡ true) ⊎ (is_consent host (host.read_line t) ≡ true)
      → (e : Event) → Allowed e) where
  open base use {harmless}

  abbrev Kept {ℓ} : {A : Type ℓ} → Command A → Type ℓ
  Kept m = Keeps Allowed Fair m

  -- A question is answered: what follows may do all, or leaves.
  agreed {ℓ} :
      {B : Type ℓ} {m n : Command B} (prompt missing_tty : String)
      → (((e : Event) → Allowed e) → Kept m)
      → Kept n
      → Kept
          (confirm host prompt assume_yes missing_tty >>= λ confirmed. if confirmed then m else n)
  agreed {m} {n} prompt missing_tty =
      confirm-Keeps base host assume_yes licence prompt missing_tty
        (λ confirmed. if confirmed then m else n)

  stop_agent-Keeps : ((e : Event) → Allowed e) → (running : Bool) → Kept (stop_agent host running)
  stop_agent-Keeps all running =
      catch-Keeps
        (bind-Keeps (rpc_stop-Keeps base host (all _)) λ _.
          leave-Keeps base host
            (if running
              then "corvus: agent session ended; Corvus-Node stays ready"
              else "corvus: no agent session was running; Corvus-Node stays ready")
            (pos 0))
        λ code why. leave-Keeps base host ("corvus: " <> why) (pos 2)

  vm_stop_there-Keeps : (pid : Option ℕ) → Kept (vm_stop_there host assume_yes pid)
  vm_stop_there-Keeps none =
      bind-Keeps (look-Keeps base host "env" (not_running_hint host))
        λ hint. leave-Keeps base host ("corvus: " <> hint) (pos 2)
  vm_stop_there-Keeps (some pid) = bind-Keeps (vm_is_running-Keeps base host (some pid)) λ running.
      bind-Keeps (print_vm_stop_explain-Keeps base host running) λ _.
        agreed "End the agent session? Corvus-Node will stay ready." no_tty
          (λ all. stop_agent-Keeps all running) (leave-Keeps base host "corvus: cancelled" (pos 2))

  vm_stop-Keeps : Kept (vm_stop host assume_yes)
  unfolding vm_stop
  vm_stop-Keeps = bind-Keeps (node_pid-Keeps base host) λ pid. vm_stop_there-Keeps pid

  stop_hint-Keeps : (systemd : Bool) (code : ℤ) → Kept (stop_hint host systemd code)
  stop_hint-Keeps systemd code =
      if-Keeps (code ==ℤ pos 0 && systemd)
        (leave-Keeps base host
          "corvus: start again with corvus start (or sudo systemctl start corvus-node)" code)
        (pure-Keeps code)

  product_stop_there-Keeps :
      (pid : Option ℕ) (systemd : Bool) → Kept (product_stop_there host assume_yes pid systemd)
  product_stop_there-Keeps pid systemd = bind-Keeps (vm_is_running-Keeps base host pid) λ vm_up.
      bind-Keeps (print_product_stop_explain-Keeps base host vm_up systemd) λ _.
        agreed "Shut down the agent and Corvus-Node?" no_tty
          (λ all.
            bind-Keeps (execute_product_stop-Keeps base host waits all)
              λ code. stop_hint-Keeps systemd code)
          (leave-Keeps base host "corvus: cancelled" (pos 2))

  product_stop-Keeps : Kept (product_stop host assume_yes)
  unfolding product_stop
  product_stop-Keeps = bind-Keeps (node_pid-Keeps base host) λ pid.
      bind-Keeps (uses_this_systemd_unit-Keeps base host pid) λ systemd.
        if-Keeps (is_stopped pid systemd)
          (leave-Keeps base host "corvus: Corvus-Node is already stopped" (pos 0))
          (product_stop_there-Keeps pid systemd)

  print_replace_stop_explain-Keeps :
      (vm_up : Bool) → Kept (print_replace_stop_explain host "update" vm_up)
  unfolding print_replace_stop_explain
  print_replace_stop_explain-Keeps vm_up = record {
    after = λ t p. (
      harmless _ refl,
      (
        harmless _ refl,
        (harmless _ refl, (harmless _ refl, (harmless _ refl, (harmless _ refl, p)))),
      ),
    );
  }

  replace_there-Keeps :
      (pid : Option ℕ) (systemd : Bool) → Kept (replace_there host assume_yes "update" pid systemd)
  replace_there-Keeps pid systemd = bind-Keeps (vm_is_running-Keeps base host pid) λ vm_up.
      bind-Keeps (print_replace_stop_explain-Keeps vm_up) λ _.
        agreed (why_prompt "update") no_tty
          (λ all.
            bind-Keeps (execute_product_stop-Keeps base host waits all)
              λ code. pure-Keeps (code, systemd && (code ==ℤ pos 0)))
          (bind-Keeps (warn-Keeps base host "corvus: cancelled; Corvus-Node is still running")
            λ _. pure-Keeps (pos 2, false))

  stop_running_for_replace-Keeps : Kept (stop_running_for_replace host assume_yes "update")
  unfolding stop_running_for_replace
  stop_running_for_replace-Keeps = bind-Keeps (node_pid-Keeps base host) λ pid.
      bind-Keeps (uses_this_systemd_unit-Keeps base host pid) λ systemd.
        if-Keeps (is_stopped pid systemd) (pure-Keeps (pos 0, false))
          (replace_there-Keeps pid systemd)

  start_again-Keeps : (restart : Bool) → Kept (start_again host restart)
  start_again-Keeps false = leave-Keeps base host "corvus: updated" (pos 0)
  start_again-Keeps true = bind-Keeps (start_systemd_unit-Keeps base host) λ code.
      if-Keeps (code ==ℤ pos 0)
        (leave-Keeps base host "corvus: updated; Corvus-Node started" (pos 0))
        (leave-Keeps base host "corvus: updated, but Corvus-Node did not start (./install.sh)" code)

  pip_failed-Keeps : (restart : Bool) (code : ℤ) → Kept (pip_failed host restart code)
  pip_failed-Keeps false code = pure-Keeps code
  pip_failed-Keeps true code = leave-Keeps base host _ code

  pip_upgrade-Keeps : ((e : Event) → Allowed e) → (ref : String) → Kept (pip_upgrade host ref)
  unfolding pip_upgrade
  pip_upgrade-Keeps all ref = bind-Keeps (ask-Keeps (ran_pip ref) (host.pip ref) (all _)) λ code.
      if-Keeps (not (code ==ℤ pos 0)) (pure-Keeps code) (
        bind-Keeps (ask-Keeps (ran_pip "PySide6") (host.pip "PySide6") (all _)) λ gui.
          if-Keeps (gui ==ℤ pos 0) (pure-Keeps (pos 0)) (
            leave-Keeps base host
              "corvus: GUI extras skipped (PySide6); CLI is available (corvus gui needs them)"
              (pos 0)))

  install-Keeps :
      ((e : Event) → Allowed e) → (version : String) (r : ℤ × Bool) → Kept (install host version r)
  install-Keeps all version (stop_code, restart) =
      if-Keeps (not (stop_code ==ℤ pos 0)) (pure-Keeps stop_code) (
        bind-Keeps (warn-Keeps base host _) λ _.
          bind-Keeps (pip_upgrade-Keeps all (github_install_ref version)) λ code.
            if-Keeps (code ==ℤ pos 0) (start_again-Keeps restart) (
              bind-Keeps
                (warn-Keeps base host
                  "corvus: pip failed; sudo corvus update (installs the GitHub release wheel)")
                λ _. pip_failed-Keeps restart code))

  offer_if-Keeps : (version : Option String) → Kept (offer_if host assume_yes version)
  offer_if-Keeps none = pure-Keeps (pos 0)
  offer_if-Keeps (some version) = bind-Keeps (warn-Keeps base host _) λ _.
      bind-Keeps (warn-Keeps base host "Say no to keep the version you have.") λ _.
        agreed ("Upgrade to GitHub release " <> (version <> "?")) no_tty
          (λ all. bind-Keeps stop_running_for_replace-Keeps λ r. install-Keeps all version r)
          (leave-Keeps base host ("corvus: keeping " <> local_version) (pos 0))

  update-Keeps : Kept (update host assume_yes)
  unfolding update
  update-Keeps =
      bind-Keeps
        (look-Keeps base host "version" λ t. check_version (host.checkout t) (host.lookup t))
        λ status.
          bind-Keeps (say-Keeps base host (format_version_status status))
            λ _. offer_if-Keeps (offered host status)

  -- The four commands that ask.
  abbrev pub CommandsKeep : Type 0
  CommandsKeep =
      Kept (vm_stop host assume_yes)
      × Kept (product_stop host assume_yes)
      × Kept (update host assume_yes)

  pub commands_keep : CommandsKeep
  commands_keep = (vm_stop-Keeps, product_stop-Keeps, update-Keeps)
