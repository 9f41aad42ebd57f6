-- ===== src/Launcher/Jail.antt =====
-- src/corvus_node/vm/launcher.py: the jail of a launch: its ids and paths, the command line of the
-- jailer, the configuration of Firecracker, and the files that are placed for it.
use corvus_node.Prelude.{
  ℕ, ◌+◌, ◌-◌, ◌*◌, ◌%◌, ◌/◌, strip, String, ◌<>◌, Char, code, chars, Bool, true, false, Option,
  none, some, List, [], ◌∷◌, take, leb, ltb, show_ℕ, ◌==◌, ◌==ℕ◌, not, if◌then◌else◌,
}
use corvus_node.Prelude.Int.{ℤ, pos, show_ℤ}
use corvus_node.Json.{Value, num, boolean, str, arr, obj, nil, cons, Fields, end, field}
use corvus_node.Settings.{strip_text}
use corvus_node.Launcher.{
  Trace, Machine, make_dir, unlink, touch, set_mode, chown, copy, write, Launch, ◌>>=◌, ◌>>◌,
  require, act, ask, looked,
}

abbrev pub jailer_uid_base : ℕ
jailer_uid_base = 60000

abbrev pub jailer_uid_span : ℕ
jailer_uid_span = 1000

abbrev pub unix_path_max : ℕ
unix_path_max = 107

abbrev pub boot_args : String
boot_args =
    "console=ttyS0 reboot=k panic=1 pci=off nomodules root=/dev/vda ro init=/opt/corvus/guest/init.sh"

-- `int(digits, 16)` of the digits 0-9 and a-f.
abbrev hex_digit : ℕ → ℕ
hex_digit n = if leb 97 n then n - 87 else n - 48

unfoldable pub read_hex : ℕ → List Char → ℕ
read_hex n [] = n
read_hex n (c ∷ cs) = read_hex (n * 16 + hex_digit (code c)) cs

-- The bytes of a text in UTF-8, as `os.fsencode` counts them.
abbrev char_bytes : ℕ → ℕ
char_bytes n = if ltb n 0x80 then 1 else if ltb n 0x800 then 2 else if ltb n 0x10000 then 3 else 4

unfoldable pub utf8_length : List Char → ℕ
utf8_length [] = 0
utf8_length (c ∷ cs) = char_bytes (code c) + utf8_length cs

unfoldable pub build_jailer_argv : String → String → String → ℕ → ℕ → String → ℕ → List String
unfolding show_ℕ
build_jailer_argv jailer_bin firecracker_bin jail_id uid gid chroot_base mem_mib =
    jailer_bin
    ∷ "--id"
    ∷ jail_id
    ∷ "--exec-file"
    ∷ firecracker_bin
    ∷ "--uid"
    ∷ show_ℕ uid
    ∷ "--gid"
    ∷ show_ℕ gid
    ∷ "--chroot-base-dir"
    ∷ chroot_base
    ∷ "--new-pid-ns"
    ∷ "--cgroup-version"
    ∷ "2"
    ∷ "--cgroup"
    ∷ ("memory.max=" <> show_ℕ (mem_mib * 1024 * 1024))
    ∷ "--cgroup"
    ∷ "pids.max=128"
    ∷ "--"
    ∷ "--config-file"
    ∷ "/vm.json"
    ∷ "--api-sock"
    ∷ "/fc.sock"
    ∷ []

-- What the configuration names: the paths in the jail, or those of the host, the log as it is given.
pub record Places : Type 0 where
  pub kernel : String
  pub rootfs : String
  pub uds_path : String

abbrev pub jailed_places : Places
jailed_places = record { kernel = "/vmlinux"; rootfs = "/rootfs.ext4"; uds_path = "/v.sock" }

abbrev pub drive : String → Value
drive rootfs = obj (
    field "drive_id" (str "rootfs") (
      field "path_on_host" (str rootfs)
        (field "is_root_device" (boolean true) (field "is_read_only" (boolean true) end))))

abbrev pub machine_config : ℕ → Value
machine_config mem_size_mib = obj (
    field "vcpu_count" (num (pos 1))
      (field "mem_size_mib" (num (pos mem_size_mib)) (field "smt" (boolean false) end)))

abbrev pub vsock_config : ℕ → String → Value
vsock_config guest_cid uds_path = obj (
    field "vsock_id" (str "vsock0")
      (field "guest_cid" (num (pos guest_cid)) (field "uds_path" (str uds_path) end)))

abbrev pub log_text : Bool → String → String
log_text jailed log_path = if jailed then "/fc.log" else log_path

abbrev pub logger : Bool → Option String → Fields
logger jailed none = end
logger jailed (some log_path) =
    field "logger"
      (obj (
        field "log_path" (str (log_text jailed log_path)) (
          field "level" (str "Info")
            (field "show_level" (boolean true) (field "show_log_origin" (boolean true) end)))))
      end

unfoldable pub build_vm_config : Places → ℕ → ℕ → Option String → Bool → Fields
build_vm_config host guest_cid mem_size_mib log_path jailed =
    let places = if jailed then jailed_places else host in
    field "boot-source"
      (obj (field "kernel_image_path" (str places.kernel) (field "boot_args" (str boot_args) end)))
      (field "drives" (arr (cons (drive places.rootfs) nil)) (
        field "machine-config" (machine_config mem_size_mib)
          (field "vsock" (vsock_config guest_cid places.uds_path) (logger jailed log_path))))

abbrev pub forbidden : String → String
forbidden path = "jail chroot " <> (path <> " is on a nodev mount; jailer cannot open /dev/kvm")

module _ (machine : Machine) where
  unfoldable pub jailer_uid : String → ℕ
  unfolding read_hex
  jailer_uid instance_id =
      let n = read_hex 0 (take 8 (chars (machine.sha256_hex instance_id))) in
      jailer_uid_base + n % jailer_uid_span

  abbrev pub jail_dir : String → String → String → String
  jail_dir chroot_base exec_name jail_id =
      machine.child (machine.child chroot_base exec_name) jail_id

  abbrev pub jail_root : String → String → String → String
  jail_root chroot_base exec_name jail_id =
      machine.child (jail_dir chroot_base exec_name jail_id) "root"

  abbrev pub jailer_pid_path : String → String → String
  jailer_pid_path root exec_name = machine.child root (exec_name <> ".pid")

  -- The host's socket that Firecracker connects to.
  unfoldable pub vsock_listen_path : String → ℤ → String
  unfolding show_ℤ
  vsock_listen_path uds_path port = machine.path (uds_path <> ("_" <> show_ℤ port))

  unfoldable pub require_unix_path : String → Launch (Unit {0})
  unfolding utf8_length show_ℕ
  require_unix_path path =
      let encoded = utf8_length (chars path) in
      require (leb encoded unix_path_max) (
        "AF_UNIX path too long ("
        <> (show_ℕ encoded <> (" > " <> (show_ℕ unix_path_max <> (" bytes): " <> path)))))

  abbrev flagged : Option ℕ → Bool
  flagged none = false
  flagged (some flags) = flags / machine.st_nodev % 2 ==ℕ 1

  unfoldable pub mount_forbids_device_nodes : String → Trace → Bool
  mount_forbids_device_nodes path t = flagged (machine.mount_flags path t)

  unfoldable pub require_dev_nodes : String → Launch (Unit {0})
  unfolding mount_forbids_device_nodes
  require_dev_nodes path = do
    nodev ← ask (looked path) (mount_forbids_device_nodes path)
    require (not nodev) (forbidden path)

  unfoldable pub require_root : Launch (Unit {0})
  require_root =
      require (machine.euid ==ℕ 0) "jailer launch requires root (euid 0); no raw Firecracker"

  abbrev pub root_instance_dir : String
  root_instance_dir = "/var/lib/corvus-node"

  unfoldable pub instance_base_dir : String
  unfolding strip
  instance_base_dir =
      let runtime = strip_text (machine.env "XDG_RUNTIME_DIR") in
      if machine.euid ==ℕ 0
      then root_instance_dir
      else if not (runtime == "")
      then machine.child (machine.path runtime) "corvus-node"
      else root_instance_dir

  unfoldable pub audit_dir : String
  unfolding strip
  audit_dir =
      let state = strip_text (machine.env "XDG_STATE_HOME") in
      let base =
        if not (state == "")
        then machine.path state
        else machine.child (machine.child machine.home ".local") "state" in
      machine.child (machine.child base "corvus-node") "audit"

  abbrev pub chown_mode : String → ℕ → ℕ → Launch (Unit {0})
  chown_mode path uid mode = act machine (chown uid path) >> act machine (set_mode mode path)

  -- `_place`: the old file goes first, and a copy is made.
  abbrev pub place : String → String → Launch (Unit {0})
  place src dest = act machine (unlink dest) >> act machine (copy src dest)

  unfoldable pub stage_jail_root : String → String → String → Fields → Launch (Unit {0})
  stage_jail_root root kernel rootfs config = do
    act machine (make_dir root)
    act machine (set_mode 0x1c0 root)
    place kernel (machine.child root "vmlinux")
    place rootfs (machine.child root "rootfs.ext4")
    act machine (write (machine.child root "vm.json") (machine.dumps_indented config <> "\n"))
    act machine (touch (machine.child root "fc.log"))
    act machine (set_mode 0x180 (machine.child root "vm.json"))
    act machine (set_mode 0x180 (machine.child root "fc.log"))
