-- ===== src/Launcher/Turn.antt =====
-- src/corvus_node/vm/launcher.py: `launch_turn`, from the checks to the cleanup, which runs on every
-- way out of what follows the choice of the instance.
use corvus_node.Prelude.{
  chars, of_chars, drop, length, ◌-◌, ℕ, zero, suc, String, ◌<>◌, Bool, true, Option, none, some,
  List, ◌==◌, if◌then◌else◌,
}
use corvus_node.Json.{Fields}
use corvus_node.Launcher.{
  Machine, Trace, Op, make_dir, touch, bind, open_log, close_log, remove_tree, set_mode, spawn,
  kill, kill_jailer, close_server, end_prompts, looked, slept, configured, Scene, isolation,
  boot_timeout, session_error, other, cancelled, Launch, ok, pure, raise, ◌>>=◌, ◌>>◌, finally,
  emit, ask, or_raise, attempt, act, read_pid,
}
use corvus_node.Launcher.Assets.{RuntimeAssets, unnamed, ensure_runtime}
use corvus_node.Launcher.Jail.{
  jailer_uid, jail_dir, jail_root, jailer_pid_path, build_jailer_argv, build_vm_config,
  vsock_listen_path, require_unix_path, require_dev_nodes, require_root, instance_base_dir,
  audit_dir, chown_mode, stage_jail_root,
}
use corvus_node.Launcher.Watch as W
use corvus_node.Launcher.Watch.{Outcome, seeking, watch}

-- Of the configuration: whether the turn is the only one, and whether there is a queue of prompts.
pub record Mode : Type 0 where
  pub once : Bool
  pub has_prompts : Bool

-- What the launch has chosen.
pub record Instance : Type 0 where
  pub id : String
  pub base : String
  pub exec_name : String
  pub assets : RuntimeAssets

abbrev pub default_mem_mib : ℕ
default_mem_mib = 512

module _ (machine : Machine) where
  abbrev pub or_text : String → String → String
  or_text log path = if log == "" then "(empty or missing: " <> (path <> ")") else log

  abbrev pub serial_part : String → String
  serial_part serial = if serial == "" then "" else "\n--- guest serial ---\n" <> serial

  -- `_tail_text`
  unfoldable pub tail_text : String → Trace → String
  tail_text path t =
      let cs = chars (machine.read_replaced path t) in
      if machine.is_file path t then of_chars (drop (length cs - 4000) cs) else ""

  -- `_boot_failure_detail`, with what `_tail_text` gives for the log and for the serial line.
  unfoldable pub boot_failure_detail : String → String → Trace → String
  unfolding tail_text
  boot_failure_detail prefix log_path t =
      prefix
      <> ("\n--- firecracker log ---\n"
          <> (or_text (tail_text log_path t) log_path
              <> serial_part (tail_text (machine.child (machine.parent log_path) "serial.log") t)))

  -- The number of a process that is to be killed: the one seen, or the one of the pid file.
  abbrev pub reap_of : String → Option ℕ → Launch (Option ℕ)
  reap_of pid_path (some pid) = pure (some pid)
  reap_of pid_path none = do
    file ← ask (looked pid_path) (machine.read_file pid_path)
    or_raise other (read_pid file)

  -- At most so many looks, 50 ms apart.
  unfoldable pub await_death : ℕ → ℕ → Launch (Unit {0})
  await_death pid zero = pure tt
  await_death pid (suc n) = do
    let rest = await_death pid n
    alive ← ask (looked "/proc") (machine.is_alive pid)
    if alive then emit slept >> rest else pure tt

  abbrev pub reap_process : Option ℕ → Launch (Unit {0})
  reap_process none = pure tt
  reap_process (some pid) = attempt machine (kill pid) >>= λ why. await_death pid 50

  -- An operation whose error is passed over.
  abbrev pub attempted : Op → Launch (Unit {0})
  attempted op = attempt machine op >>= λ why. pure tt

  abbrev pub when : Bool → Launch (Unit {0}) → Launch (Unit {0})
  when b m = if b then m else pure tt

  abbrev pub end_jailer : Launch (Unit {0})
  end_jailer = do
    runs ← ask (looked "jailer") machine.jailer_runs
    when runs (attempted kill_jailer)

  -- The value of a variable of the launch.
  abbrev pub read {ℓ} : {A : Type ℓ} → (Scene → A) → Launch A
  read variable s = (ok (variable s), s)

  abbrev pub pid_path_of : Instance → String
  pid_path_of inst =
      jailer_pid_path machine (jail_root machine inst.base inst.exec_name inst.id) inst.exec_name

  -- What the `finally` does.
  unfoldable pub cleanup : Mode → Instance → Launch (Unit {0})
  unfolding await_death
  cleanup mode inst = do
    when mode.has_prompts (attempted end_prompts)
    seen ← read (λ s. s.fc_pid)
    reap ← reap_of (pid_path_of inst) seen
    reap_process reap
    proc ← read (λ s. s.proc)
    when proc end_jailer
    server ← read (λ s. s.server)
    when server (attempted close_server)
    attempted (remove_tree (jail_dir machine inst.base inst.exec_name inst.id))

  -- `asyncio.start_unix_server`
  abbrev pub bound : String → Option String → Launch (Unit {0})
  bound path none = λ s. (ok tt, record s { server = true })
  bound path (some why) = raise (isolation ("failed to bind vsock UDS " <> (path <> (": " <> why))))

  abbrev pub start_server : String → Launch (Unit {0})
  start_server path = attempt machine (bind path) >>= bound path

  -- `asyncio.create_subprocess_exec`
  abbrev pub start_jailer : List String → Launch (Unit {0})
  start_jailer argv = act machine (spawn argv) >> λ s. (ok tt, record s { proc = true })

  -- The first argument is the details of the boot.
  abbrev pub ending : (String → String) → Outcome → Launch String
  ending detail (W.replied text) = pure text
  ending detail W.failed = raise session_error
  ending detail (W.not_booted why) = raise (boot_timeout (detail why))
  ending detail (W.lost why) = raise (boot_timeout (detail (detail why)))
  ending detail W.late = raise (boot_timeout (detail "guest did not complete a turn within 90s"))
  ending detail W.cancelled = raise cancelled

  unfoldable pub await_turn : Mode → String → String → Launch String
  unfolding watch boot_failure_detail
  await_turn mode pid_name log_path s =
      let (outcome, pid) = watch mode.once pid_name seeking (machine.happens s.trace) in
      ending (λ why. boot_failure_detail why log_path s.trace) outcome (record s { fc_pid = pid })

  abbrev pub config_of : Instance → String → String → Fields
  config_of inst kernel rootfs =
      build_vm_config (record { kernel = kernel; rootfs = rootfs; uds_path = "/v.sock" })
        inst.assets.guest_cid default_mem_mib (some "/fc.log") true

  abbrev pub argv_of : Instance → List String
  argv_of inst =
      let uid = jailer_uid machine inst.id in
      build_jailer_argv inst.assets.jailer_bin inst.assets.firecracker_bin inst.id uid uid inst.base
        default_mem_mib

  -- The files and the socket go to the user of the jail.
  unfoldable pub hand_over : String → String → ℕ → Launch (Unit {0})
  hand_over root listen_path uid = do
    chown_mode machine (machine.child root "vmlinux") uid 0x100
    chown_mode machine (machine.child root "rootfs.ext4") uid 0x100
    chown_mode machine (machine.child root "vm.json") uid 0x180
    chown_mode machine (machine.child root "fc.log") uid 0x180
    chown_mode machine listen_path uid 0x180
    act machine (touch (machine.child root "serial.log"))
    chown_mode machine (machine.child root "serial.log") uid 0x180

  -- What the `try` does.
  unfoldable pub prepare : Instance → Launch (Unit {0})
  unfolding build_vm_config stage_jail_root vsock_listen_path require_unix_path audit_dir hand_over
      jailer_uid
  prepare inst = do
    let root = jail_root machine inst.base inst.exec_name inst.id
    kernel ← ask (looked inst.assets.kernel) (machine.resolve inst.assets.kernel)
    rootfs ← ask (looked inst.assets.rootfs) (machine.resolve inst.assets.rootfs)
    stage_jail_root machine root kernel rootfs (config_of inst kernel rootfs)
    let listen_path = vsock_listen_path machine (machine.child root "v.sock") inst.assets.vsock_port
    require_unix_path machine listen_path
    act machine (make_dir (audit_dir machine))
    start_server listen_path
    hand_over root listen_path (jailer_uid machine inst.id)
    act machine (open_log (machine.child root "serial.log"))

  -- The jailer is started, and the parent's end of its log is closed.
  abbrev pub boot : Instance → Launch (Unit {0})
  boot inst = finally (start_jailer (argv_of inst)) (
      attempted (
        close_log
          (machine.child (jail_root machine inst.base inst.exec_name inst.id) "serial.log")))

  unfoldable pub attend : Mode → Instance → Launch String
  unfolding build_jailer_argv jailer_uid await_turn prepare
  attend mode inst = do
    let root = jail_root machine inst.base inst.exec_name inst.id
    prepare inst
    boot inst
    await_turn mode (inst.exec_name <> ".pid") (machine.child root "fc.log")

  unfoldable pub choose : Launch Instance
  unfolding require_root ensure_runtime instance_base_dir require_dev_nodes
  choose = do
    require_root machine
    assets ← ensure_runtime machine unnamed
    emit (configured machine.uuid_hex assets.guest_cid)
    let base = instance_base_dir machine
    act machine (make_dir base)
    act machine (set_mode 0x1c0 base)
    require_dev_nodes machine base
    pure record {
      id = machine.uuid_hex;
      base = base;
      exec_name = machine.name_of (machine.path assets.firecracker_bin);
      assets = assets;
    }

  unfoldable pub launch_turn : Mode → Launch String
  unfolding choose attend cleanup
  launch_turn mode = choose >>= λ inst. finally (attend mode inst) (cleanup mode inst)
