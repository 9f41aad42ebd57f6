-- ===== src/Launcher/Assets.antt =====
-- src/corvus_node/vm/launcher.py: where the assets of a launch are
-- found, and what must hold of them before anything is started.
use corvus_node.Prelude.{
  ℕ, strip, String, ◌<>◌, ◌&&◌, ◌||◌, Option, none, some, List, [], ◌∷◌, ◌==◌, not, of_chars,
  if◌then◌else◌,
}
use corvus_node.Prelude.Int.{ℤ, pos}
use corvus_node.Settings.{strip_text}
use corvus_node.Launcher.{
  Machine, Failure, isolation, os_error, other, Launch, Result, ok, err, looked, pure, raise, ◌>>=◌,
  ◌>>◌, ask, require, or_raise, FileText, no_file, not_utf8, file_text,
}
use corvus_node.Launcher.PidFile.{word_of}
use corvus_node.Launcher.Checksums.{
  Arch, x86_64, aarch64, kernel_sha256, firecracker_bin_sha256, jailer_bin_sha256, verify_sha256,
}

pub record RuntimeAssets : Type 0 where
  pub firecracker_bin : String
  pub jailer_bin : String
  pub kernel : String
  pub rootfs : String
  pub vsock_port : ℤ
  pub guest_cid : ℕ

abbrev pub default_vsock_port : ℤ
default_vsock_port = pos 4040

abbrev pub default_guest_cid : ℕ
default_guest_cid = 3

abbrev pub assets_of : String → String → String → String → RuntimeAssets
assets_of firecracker_bin jailer_bin kernel rootfs = record {
  firecracker_bin = firecracker_bin;
  jailer_bin = jailer_bin;
  kernel = kernel;
  rootfs = rootfs;
  vsock_port = default_vsock_port;
  guest_cid = default_guest_cid;
}

-- What the caller of `ensure_runtime` may name.
pub record Named : Type 0 where
  pub kernel : Option String
  pub rootfs : Option String
  pub firecracker_bin : Option String
  pub jailer_bin : Option String

abbrev pub unnamed : Named
unnamed = record { kernel = none; rootfs = none; firecracker_bin = none; jailer_bin = none }

abbrev pub default_cache : String
default_cache = ".cache/corvus-node"

abbrev pub kvm_path : String
kvm_path = "/dev/kvm"

abbrev pub no_vsock : String
no_vsock = "AF_VSOCK is not available on this Python/OS"

abbrev pub no_kvm : String
no_kvm = kvm_path <> " is missing; Corvus-Node requires KVM"

abbrev pub unsupported : String → String
unsupported machine = "unsupported architecture " <> machine

-- `_arch`
unfoldable pub arch_of : String → Option Arch
arch_of machine =
    if machine == "x86_64" || machine == "amd64"
    then some x86_64
    else if machine == "aarch64" || machine == "arm64"
    then some aarch64
    else none

abbrev pub missing_binary : String → String → String
missing_binary name variable =
    name <> (" binary not found; run `make guest-assets` or set " <> variable)

abbrev pub not_executable : String → String → String
not_executable name binary = name <> (" is not executable: " <> binary)

abbrev pub missing_file : String → String
missing_file variable = "set " <> (variable <> " or run `make guest-assets` (see guest/README.md)")

abbrev pub missing_sidecar : String → String
missing_sidecar sidecar = "missing rootfs checksum sidecar: " <> sidecar

module _ (machine : Machine) where
  -- `resolve_kernel` and `resolve_rootfs`
  abbrev pub by_env : String → String → String
  by_env name default =
      let env = strip_text (machine.env name) in if env == "" then default else machine.path env

  unfoldable pub resolve_kernel : Option String → String
  unfolding strip
  resolve_kernel (some kernel) = kernel
  resolve_kernel none = by_env "CORVUS_NODE_KERNEL" (machine.child default_cache "vmlinux")

  unfoldable pub resolve_rootfs : Option String → String
  unfolding strip
  resolve_rootfs (some rootfs) = rootfs
  resolve_rootfs none = by_env "CORVUS_NODE_ROOTFS" (machine.child default_cache "rootfs.ext4")

  -- `resolve_firecracker` and `resolve_jailer`: the named binary, the environment's, the one on the
  -- search path, or the one in the cache.
  abbrev pub cached_binary : String → Launch (Option String)
  cached_binary cached = do
    there ← ask (looked cached) (machine.is_file cached)
    if there
        then (ask (looked cached) (machine.resolve cached) >>= λ r. pure (some r))
        else pure none

  abbrev pub found_or : String → Option String → Launch (Option String)
  found_or cached none = cached_binary cached
  found_or cached (some which) = if which == "" then cached_binary cached else pure (some which)

  unfoldable pub search_binary : String → String → Launch (Option String)
  unfolding strip
  search_binary variable name = do
    let env = strip_text (machine.env variable)
    if not (env == "") then pure (some env) else do
      which ← ask (looked name) (machine.which name)
      found_or (machine.child default_cache name) which

  unfoldable pub resolve_binary : String → String → Option String → Launch (Option String)
  unfolding search_binary
  resolve_binary variable name none = search_binary variable name
  resolve_binary variable name (some binary) =
      if binary == "" then search_binary variable name else pure (some binary)

  unfoldable pub resolve_firecracker : Option String → Launch (Option String)
  unfolding resolve_binary
  resolve_firecracker = resolve_binary "CORVUS_NODE_FIRECRACKER" "firecracker"

  unfoldable pub resolve_jailer : Option String → Launch (Option String)
  unfolding resolve_binary
  resolve_jailer = resolve_binary "CORVUS_NODE_JAILER" "jailer"

  unfoldable pub resolve_vsock_port : Launch ℤ
  unfolding strip
  resolve_vsock_port =
      let raw = strip_text (machine.env "CORVUS_NODE_VSOCK_PORT") in
      if raw == "" then pure default_vsock_port else or_raise other (machine.int_of_text raw)

  abbrev pub expected_of : FileText → Launch String
  expected_of no_file = raise (os_error "")
  expected_of not_utf8 = raise other
  expected_of (file_text raw) = elim (word_of raw) [
    | none ↦ raise other
    | some w ↦ pure (of_chars w)
  ]

  -- `_verify_rootfs`
  unfoldable pub verify_rootfs : String → Launch (Unit {0})
  unfolding verify_sha256
  verify_rootfs rootfs = do
    let sidecar = machine.path (rootfs <> ".sha256")
    there ← ask (looked sidecar) (machine.is_file sidecar)
    require there (missing_sidecar sidecar)
    text ← ask (looked sidecar) (machine.read_file sidecar)
    expected ← expected_of text
    verify_sha256 machine rootfs expected "rootfs"

  -- A binary that is there and that may be run.
  abbrev pub usable : String → String → Option String → Launch String
  usable name variable none = raise (isolation (missing_binary name variable))
  usable name variable (some binary) = do
    there ← ask (looked binary) (machine.is_file (machine.path binary))
    require (not (binary == "") && there) (missing_binary name variable)
    runs ← ask (looked binary) (machine.is_executable binary)
    require runs (not_executable name binary)
    pure binary

  abbrev pub usable_file : String → String → Launch (Unit {0})
  usable_file variable path = do
    there ← ask (looked path) (machine.is_file path)
    require there (missing_file variable)

  unfoldable pub check_arch : Launch Arch
  unfolding arch_of
  check_arch = or_raise (isolation (unsupported machine.arch_text)) (arch_of machine.arch_text)

  unfoldable pub find_assets : Named → Launch RuntimeAssets
  unfolding resolve_firecracker resolve_jailer resolve_kernel resolve_rootfs
  find_assets named = do
    fc ← resolve_firecracker named.firecracker_bin
    binary ← usable "firecracker" "CORVUS_NODE_FIRECRACKER" fc
    j ← resolve_jailer named.jailer_bin
    jailer ← usable "jailer" "CORVUS_NODE_JAILER" j
    let kernel = resolve_kernel named.kernel
    usable_file "CORVUS_NODE_KERNEL" kernel
    let rootfs = resolve_rootfs named.rootfs
    usable_file "CORVUS_NODE_ROOTFS" rootfs
    pure (assets_of binary jailer kernel rootfs)

  unfoldable pub verify_assets : Arch → RuntimeAssets → Launch (Unit {0})
  unfolding verify_sha256 verify_rootfs
  verify_assets arch assets = do
    verify_sha256 machine assets.kernel (kernel_sha256 arch) "kernel"
    verify_sha256 machine (machine.path assets.firecracker_bin) (firecracker_bin_sha256 arch)
        "firecracker"
    verify_sha256 machine (machine.path assets.jailer_bin) (jailer_bin_sha256 arch) "jailer"
    verify_rootfs assets.rootfs

  unfoldable pub ensure_runtime : Named → Launch RuntimeAssets
  unfolding check_arch find_assets verify_assets resolve_vsock_port
  ensure_runtime named = do
    require machine.has_vsock no_vsock
    kvm ← ask (looked kvm_path) (machine.exists kvm_path)
    require kvm no_kvm
    arch ← check_arch
    assets ← find_assets named
    verify_assets arch assets
    port ← resolve_vsock_port
    pure (record assets { vsock_port = port })

  -- `probe_isolation`: what would make the launch fail closed; another error goes on.
  abbrev pub gaps_of : Result Failure RuntimeAssets → Launch (List String)
  gaps_of (ok assets) = pure []
  gaps_of (err (isolation why)) = pure (why ∷ [])
  gaps_of (err e) = raise e

  unfoldable pub probe_isolation : Launch (List String)
  unfolding ensure_runtime
  probe_isolation s = let (r, s') = ensure_runtime unnamed s in gaps_of r s'
