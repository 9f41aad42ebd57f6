-- ===== src/Cli/Agreed.antt =====
-- A command that asks first does what changes something only with the operator's consent.
use corvus_node.Prelude.{
  ℕ, String, ◌≡◌, ◌⊎◌, inl, inr, refl, Bool, true, false, not, Option, none, some, [], All,
  if◌then◌else◌,
}
use corvus_node.Prelude.Int.{pos, ◌==ℤ◌}
use corvus_node.Json.{get}
use corvus_node.Cli.{
  Host, Trace, Event, looked, ran_systemctl, Command, Failure, pure, ◌>>=◌, ◌>>◌, ask, warn,
}
use corvus_node.Cli.Client.{rpc_shutdown, wait_node, wait_node_gone, wait_node_ready}
use corvus_node.Cli.Consent.{
  is_running, is_consent, confirm, ask_operator, vm_is_running, uses_this_systemd_unit,
  systemd_main_pid, pid_shown, same_unit, run_unit, unit_command, code_or, stop_systemd_unit,
  start_systemd_unit,
}
use corvus_node.Cli.Stop.{
  end_agent, stop_unit, stop_process, stop_there, is_stopped, execute_product_stop,
  print_vm_stop_explain, print_product_stop_explain,
}
use corvus_node.Cli.Keeps.{
  Ensures, Keeps, Base, bind-Keeps, pure-Keeps, ask-Keeps, if-Keeps, catch-Keeps, warn-Keeps,
  leave-Keeps, look-Keeps, rpc-Keeps, rpc_status-Keeps, rpc_stop-Keeps, node_pid-Keeps,
}

module _ {Allowed : Event → Type 0} {Fair : Failure → Type 0} (base : Base Allowed Fair)
    (host : Host) where
  open base use {harmless}

  abbrev pub Kept {ℓ} : {A : Type ℓ} → Command A → Type ℓ
  Kept m = Keeps Allowed Fair m

  abbrev pub Licence : Type 0
  Licence = (e : Event) → Allowed e

  -- The operator's answer is a licence for all.
  module _ (assume_yes : Bool)
      (licence : (t : Trace)
        → (assume_yes ≡ true) ⊎ (is_consent host (host.read_line t) ≡ true)
        → Licence) where
    pub confirm-Keeps {ℓ} :
        {B : Type ℓ} (prompt missing_tty : String) (f : Bool → Command B)
        → (Licence → Kept (f true))
        → Kept (f false)
        → Kept (confirm host prompt assume_yes missing_tty >>= f)
    unfolding confirm
    confirm-Keeps {B} prompt missing_tty f y n = of_yes assume_yes refl
      where
        of_answer :
            (t' t : Trace) (a : Bool)
            → is_consent host (host.read_line t') ≡ a
            → All Allowed t
            → Ensures Allowed Fair (f a t)
        of_answer t' t true e p = (y (licence t' (inr e))).after t p
        of_answer t' t false e p = n.after t p

        of_tty :
            (tty : Bool) (t : Trace)
            → All Allowed t
            → Ensures Allowed Fair {A = B} (
                ((if tty then ask_operator host prompt else warn missing_tty >> pure false) >>= f)
                  t)
        of_tty true t p = of_answer _ _ _ refl (harmless _ refl, (harmless _ refl, p))
        of_tty false t p = n.after _ (harmless _ refl, p)

        of_yes :
            (b : Bool)
            → assume_yes ≡ b
            → Kept (
                (if b
                  then pure true
                  else (ask (looked "tty") host.is_tty >>= λ tty.
                      if tty then ask_operator host prompt else warn missing_tty >> pure false))
                >>= f)
        of_yes true e = record { after = λ t p. (y (licence [] (inl e))).after t p }
        of_yes false e = record { after = λ t p. of_tty (host.is_tty t) _ (harmless _ refl, p) }

  pub vm_is_running-Keeps : (pid : Option ℕ) → Kept (vm_is_running host pid)
  unfolding vm_is_running
  vm_is_running-Keeps none = pure-Keeps false
  vm_is_running-Keeps (some pid) =
      catch-Keeps
        (bind-Keeps (rpc_status-Keeps base host) λ snap. pure-Keeps (is_running (get "state" snap)))
        λ code why. pure-Keeps false

  systemd_main_pid-Keeps : Kept (systemd_main_pid host)
  unfolding systemd_main_pid
  systemd_main_pid-Keeps =
      bind-Keeps (look-Keeps base host "systemctl show" host.main_pid)
        λ s. pure-Keeps (pid_shown host s)

  pub uses_this_systemd_unit-Keeps : (node : Option ℕ) → Kept (uses_this_systemd_unit host node)
  unfolding uses_this_systemd_unit
  uses_this_systemd_unit-Keeps node =
      bind-Keeps systemd_main_pid-Keeps λ main. pure-Keeps (same_unit host node main)

  run_unit-Keeps :
      (text verb : String) → Allowed (ran_systemctl verb) → Kept (run_unit host text verb)
  run_unit-Keeps text verb h = bind-Keeps (warn-Keeps base host text) λ _.
      bind-Keeps (ask-Keeps (ran_systemctl verb) (host.systemctl (unit_command host.euid verb)) h)
        λ code. pure-Keeps (code_or code)

  pub start_systemd_unit-Keeps : Kept (start_systemd_unit host)
  unfolding start_systemd_unit
  start_systemd_unit-Keeps = run_unit-Keeps _ "start" (harmless _ refl)

  pub print_vm_stop_explain-Keeps : (running : Bool) → Kept (print_vm_stop_explain host running)
  unfolding print_vm_stop_explain
  print_vm_stop_explain-Keeps running = record {
    after = λ t p. (
      harmless _ refl,
      (
        harmless _ refl,
        (harmless _ refl, (harmless _ refl, (harmless _ refl, (harmless _ refl, p)))),
      ),
    );
  }

  pub print_product_stop_explain-Keeps :
      (vm_up systemd : Bool) → Kept (print_product_stop_explain host vm_up systemd)
  unfolding print_product_stop_explain
  print_product_stop_explain-Keeps vm_up true = record {
    after = λ t p. (
      harmless _ refl,
      (
        harmless _ refl,
        (
          harmless _ refl,
          (
            harmless _ refl,
            (harmless _ refl, (harmless _ refl, (harmless _ refl, (harmless _ refl, p)))),
          ),
        ),
      ),
    );
  }
  print_product_stop_explain-Keeps vm_up false = record {
    after = λ t p. (harmless _ refl, (harmless _ refl, (harmless _ refl, (harmless _ refl, p))));
  }

  -- With a licence, and where waiting keeps to it.
  module _ (waits : (wanted : Bool) → Kept (wait_node host wanted)) where
    wait_node_gone-Keeps : Kept (wait_node_gone host)
    unfolding wait_node_gone
    wait_node_gone-Keeps = waits false

    pub wait_node_ready-Keeps : Kept (wait_node_ready host)
    unfolding wait_node_ready
    wait_node_ready-Keeps = waits true

    module _ (licence : Licence) where
      stop_systemd_unit-Keeps : Kept (stop_systemd_unit host)
      unfolding stop_systemd_unit
      stop_systemd_unit-Keeps = run_unit-Keeps _ "stop" (licence _)

      end_agent-Keeps : (pid : Option ℕ) → Kept (end_agent host pid)
      end_agent-Keeps none = pure-Keeps tt
      end_agent-Keeps (some pid) =
          catch-Keeps
            (bind-Keeps (rpc_stop-Keeps base host (licence _))
              λ _. warn-Keeps base host "corvus: agent session ended")
            λ code why. warn-Keeps base host _

      rpc_shutdown-Keeps : Kept (rpc_shutdown host)
      unfolding rpc_shutdown
      rpc_shutdown-Keeps =
          bind-Keeps (rpc-Keeps base host _ _ _ _ (licence _))
            λ fs. bind-Keeps wait_node_gone-Keeps λ gone. pure-Keeps tt

      stop_unit-Keeps : Kept (stop_unit host)
      stop_unit-Keeps = bind-Keeps stop_systemd_unit-Keeps λ code.
          if-Keeps (not (code ==ℤ pos 0))
            (leave-Keeps base host
              "corvus: Corvus-Node did not stop; it may still be up (sudo systemctl stop corvus-node)"
              (pos 2))
            (bind-Keeps wait_node_gone-Keeps
              λ gone. leave-Keeps base host "corvus: Corvus-Node stopped" (pos 0))

      stop_process-Keeps : (pid : Option ℕ) → Kept (stop_process host pid)
      stop_process-Keeps none = leave-Keeps base host _ (pos 0)
      stop_process-Keeps (some pid) =
          catch-Keeps
            (bind-Keeps rpc_shutdown-Keeps
              λ _. leave-Keeps base host "corvus: Corvus-Node stopped" (pos 0))
            λ code why. leave-Keeps base host _ (pos 2)

      stop_there-Keeps : (pid : Option ℕ) (systemd : Bool) → Kept (stop_there host pid systemd)
      stop_there-Keeps pid systemd = bind-Keeps (end_agent-Keeps pid) λ _.
          if-Keeps systemd stop_unit-Keeps
            (bind-Keeps (node_pid-Keeps base host) λ p. stop_process-Keeps p)

      pub execute_product_stop-Keeps : Kept (execute_product_stop host)
      unfolding execute_product_stop
      execute_product_stop-Keeps = bind-Keeps (node_pid-Keeps base host) λ pid.
          bind-Keeps (uses_this_systemd_unit-Keeps pid) λ systemd.
            if-Keeps (is_stopped pid systemd)
              (leave-Keeps base host "corvus: Corvus-Node is already stopped" (pos 0))
              (stop_there-Keeps pid systemd)
