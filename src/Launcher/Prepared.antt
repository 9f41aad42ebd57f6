-- ===== src/Launcher/Prepared.antt =====
-- What precedes and what follows the start of the jailer starts nothing.
use corvus_node.Prelude.{ℕ, zero, suc, String, ◌<>◌, refl, Bool, Option, none, some}
use corvus_node.Json.{Fields}
use corvus_node.Launcher.{
  Machine, looked, slept, did, Op, make_dir, unlink, touch, bind, open_log, remove_tree, set_mode,
  chown, copy, write, kill, kill_jailer, close_server, end_prompts, Scene, Launch, act, read_pid,
  other,
}
use corvus_node.Launcher.Jail.{
  jailer_uid, jail_root, jail_dir, audit_dir, chown_mode, place, stage_jail_root, require_unix_path,
  vsock_listen_path,
}
use corvus_node.Launcher.Turn.{
  Mode, Instance, reap_of, await_death, reap_process, attempted, when, end_jailer, read,
  pid_path_of, cleanup, bound, start_server, config_of, hand_over, prepare,
}
use corvus_node.Launcher.Keeps.{
  Keeps, same, bind-Keeps, pure-Keeps, raise-Keeps, if-Keeps, emit-Keeps, ask-Keeps, attempt-Keeps,
  require-Keeps, or_raise-Keeps, act-Keeps,
}
use corvus_node.Launcher.Spawns.{IsQuiet, IsAny}

module _ (machine : Machine) where
  abbrev pub StartsNothing {ℓ} : {A : Type ℓ} → Launch A → Type ℓ
  StartsNothing m = Keeps IsQuiet IsAny m

  pub op-Keeps :
      (op : Op) → ((why : Option String) → IsQuiet (did op why)) → StartsNothing (act machine op)
  op-Keeps op h = act-Keeps machine op h λ why. tt

  pub attempted-Keeps :
      (op : Op)
      → ((why : Option String) → IsQuiet (did op why))
      → StartsNothing (attempted machine op)
  attempted-Keeps op h = bind-Keeps (attempt-Keeps machine op h) λ why. pure-Keeps tt

  chown_mode-Keeps :
      (path : String) (uid mode : ℕ) → StartsNothing (chown_mode machine path uid mode)
  chown_mode-Keeps path uid mode =
      bind-Keeps (op-Keeps (chown uid path) λ why. refl)
        λ _. op-Keeps (set_mode mode path) λ why. refl

  place-Keeps : (src dest : String) → StartsNothing (place machine src dest)
  place-Keeps src dest =
      bind-Keeps (op-Keeps (unlink dest) λ why. refl) λ _. op-Keeps (copy src dest) λ why. refl

  stage_jail_root-Keeps :
      (root kernel rootfs : String) (config : Fields)
      → StartsNothing (stage_jail_root machine root kernel rootfs config)
  unfolding stage_jail_root
  stage_jail_root-Keeps root kernel rootfs config =
      bind-Keeps (op-Keeps (make_dir root) λ why. refl) λ _.
        bind-Keeps (op-Keeps (set_mode 0x1c0 root) λ why. refl) λ _.
          bind-Keeps (place-Keeps kernel (machine.child root "vmlinux")) λ _.
            bind-Keeps (place-Keeps rootfs (machine.child root "rootfs.ext4")) λ _.
              bind-Keeps
                (op-Keeps
                  (write (machine.child root "vm.json") (machine.dumps_indented config <> "\n"))
                  λ why. refl)
                λ _. bind-Keeps (op-Keeps (touch (machine.child root "fc.log")) λ why. refl) λ _.
                  bind-Keeps (op-Keeps (set_mode 0x180 (machine.child root "vm.json")) λ why. refl)
                    λ _. op-Keeps (set_mode 0x180 (machine.child root "fc.log")) λ why. refl

  hand_over-Keeps :
      (root listen_path : String) (uid : ℕ) → StartsNothing (hand_over machine root listen_path uid)
  unfolding hand_over
  hand_over-Keeps root listen_path uid =
      bind-Keeps (chown_mode-Keeps (machine.child root "vmlinux") uid 0x100) λ _.
        bind-Keeps (chown_mode-Keeps (machine.child root "rootfs.ext4") uid 0x100) λ _.
          bind-Keeps (chown_mode-Keeps (machine.child root "vm.json") uid 0x180) λ _.
            bind-Keeps (chown_mode-Keeps (machine.child root "fc.log") uid 0x180) λ _.
              bind-Keeps (chown_mode-Keeps listen_path uid 0x180) λ _.
                bind-Keeps (op-Keeps (touch (machine.child root "serial.log")) λ why. refl)
                  λ _. chown_mode-Keeps (machine.child root "serial.log") uid 0x180

  bound-Keeps : (path : String) (o : Option String) → StartsNothing (bound machine path o)
  bound-Keeps path none = record { after = λ s. (same s.trace, refl) }
  bound-Keeps path (some why) = raise-Keeps _ tt

  start_server-Keeps : (path : String) → StartsNothing (start_server machine path)
  start_server-Keeps path =
      bind-Keeps (attempt-Keeps machine (bind path) λ why. refl) λ o. bound-Keeps path o

  require_unix_path-Keeps : (path : String) → StartsNothing (require_unix_path machine path)
  unfolding require_unix_path
  require_unix_path-Keeps path = require-Keeps _ _ tt

  pub prepare-Keeps : (inst : Instance) → StartsNothing (prepare machine inst)
  unfolding prepare
  prepare-Keeps inst =
      bind-Keeps (ask-Keeps (looked inst.assets.kernel) (machine.resolve inst.assets.kernel) refl)
        λ kernel.
          bind-Keeps
            (ask-Keeps (looked inst.assets.rootfs) (machine.resolve inst.assets.rootfs) refl)
            λ rootfs.
              bind-Keeps
                (stage_jail_root-Keeps root kernel rootfs (config_of machine inst kernel rootfs))
                λ _. bind-Keeps (require_unix_path-Keeps listen_path) λ _.
                  bind-Keeps (op-Keeps (make_dir (audit_dir machine)) λ why. refl) λ _.
                    bind-Keeps (start_server-Keeps listen_path) λ _.
                      bind-Keeps (hand_over-Keeps root listen_path (jailer_uid machine inst.id))
                        λ _. op-Keeps (open_log (machine.child root "serial.log")) λ why. refl
    where
      root : String
      root = jail_root machine inst.base inst.exec_name inst.id

      listen_path : String
      listen_path = vsock_listen_path machine (machine.child root "v.sock") inst.assets.vsock_port

  reap_of-Keeps : (path : String) (seen : Option ℕ) → StartsNothing (reap_of machine path seen)
  reap_of-Keeps path (some pid) = pure-Keeps (some pid)
  reap_of-Keeps path none =
      bind-Keeps (ask-Keeps (looked path) (machine.read_file path) refl)
        λ file. or_raise-Keeps other (read_pid file) tt

  await_death-Keeps : (pid n : ℕ) → StartsNothing (await_death machine pid n)
  unfolding await_death
  await_death-Keeps pid zero = pure-Keeps tt
  await_death-Keeps pid (suc n) =
      bind-Keeps (ask-Keeps (looked "/proc") (machine.is_alive pid) refl) λ alive.
        if-Keeps alive (bind-Keeps (emit-Keeps slept refl) λ _. await_death-Keeps pid n)
          (pure-Keeps tt)

  reap_process-Keeps : (o : Option ℕ) → StartsNothing (reap_process machine o)
  reap_process-Keeps none = pure-Keeps tt
  reap_process-Keeps (some pid) =
      bind-Keeps (attempt-Keeps machine (kill pid) λ why. refl) λ why. await_death-Keeps pid 50

  when-Keeps :
      (b : Bool) (m : Launch (Unit {0})) → StartsNothing m → StartsNothing (when machine b m)
  when-Keeps b m h = if-Keeps b h (pure-Keeps tt)

  end_jailer-Keeps : StartsNothing (end_jailer machine)
  end_jailer-Keeps =
      bind-Keeps (ask-Keeps (looked "jailer") machine.jailer_runs refl)
        λ runs. when-Keeps runs _ (attempted-Keeps kill_jailer λ why. refl)

  read-Keeps {ℓ} : {A : Type ℓ} (variable : Scene → A) → StartsNothing (read machine variable)
  read-Keeps variable = record { after = λ s. (same s.trace, refl) }

  pub cleanup-Keeps : (mode : Mode) (inst : Instance) → StartsNothing (cleanup machine mode inst)
  unfolding cleanup
  cleanup-Keeps mode inst =
      bind-Keeps (when-Keeps mode.has_prompts _ (attempted-Keeps end_prompts λ why. refl)) λ _.
        bind-Keeps (read-Keeps (λ s. s.fc_pid)) λ seen.
          bind-Keeps (reap_of-Keeps (pid_path_of machine inst) seen) λ reap.
            bind-Keeps (reap_process-Keeps reap) λ _. bind-Keeps (read-Keeps (λ s. s.proc)) λ proc.
              bind-Keeps (when-Keeps proc _ end_jailer-Keeps) λ _.
                bind-Keeps (read-Keeps (λ s. s.server)) λ server.
                  bind-Keeps (when-Keeps server _ (attempted-Keeps close_server λ why. refl)) λ _.
                    attempted-Keeps
                      (remove_tree (jail_dir machine inst.base inst.exec_name inst.id)) λ why. refl
