-- ===== src/Launcher/Checks.antt =====
-- The checks of a launch ask and measure only, and end with errors of three kinds.
use corvus_node.Prelude.{String, ◌<>◌, not, ◌&&◌, Option, none, some, List, ◌==◌, of_chars, Char}
use corvus_node.Settings.{strip_text}
use corvus_node.Launcher.{
  Machine, Event, looked, Failure, other, FileText, no_file, not_utf8, file_text, pure, raise,
}
use corvus_node.Launcher.PidFile.{word_of}
use corvus_node.Launcher.Assets.{
  RuntimeAssets, assets_of, Named, no_vsock, no_kvm, default_cache, default_vsock_port,
  cached_binary, found_or, search_binary, resolve_binary, resolve_firecracker, resolve_jailer,
  resolve_vsock_port, resolve_kernel, resolve_rootfs, expected_of, verify_rootfs, missing_binary,
  not_executable, missing_file, missing_sidecar, usable, usable_file, check_arch, arch_of, kvm_path,
  find_assets, verify_assets, ensure_runtime,
}
use corvus_node.Launcher.Checksums.{
  Arch, kernel_sha256, firecracker_bin_sha256, jailer_bin_sha256, digest_of, verify_sha256,
  mismatch,
}
use corvus_node.Launcher.Keeps.{
  Base, Keeps, bind-Keeps, pure-Keeps, raise-Keeps, if-Keeps, ask-Keeps, require-Keeps,
  or_raise-Keeps, measure-Keeps,
}

module _ {Allowed : Event → Type 0} {Fair : Failure → Type 0} (base : Base Allowed Fair)
    (machine : Machine) where
  open base use {looks, measures, isolations, os_errors, others}

  cached_binary-Keeps : (cached : String) → Keeps Allowed Fair (cached_binary machine cached)
  cached_binary-Keeps cached =
      bind-Keeps (ask-Keeps (looked cached) (machine.is_file cached) (looks cached)) λ there.
        if-Keeps there
          (bind-Keeps (ask-Keeps (looked cached) (machine.resolve cached) (looks cached))
            λ r. pure-Keeps (some r))
          (pure-Keeps none)

  found_or-Keeps :
      (cached : String) (o : Option String) → Keeps Allowed Fair (found_or machine cached o)
  found_or-Keeps cached none = cached_binary-Keeps cached
  found_or-Keeps cached (some which) =
      if-Keeps (which == "") (cached_binary-Keeps cached) (pure-Keeps (some which))

  search_binary-Keeps :
      (variable name : String) → Keeps Allowed Fair (search_binary machine variable name)
  unfolding search_binary
  search_binary-Keeps variable name =
      if-Keeps (not (strip_text (machine.env variable) == ""))
        (pure-Keeps (some (strip_text (machine.env variable))))
        (bind-Keeps (ask-Keeps (looked name) (machine.which name) (looks name))
          λ which. found_or-Keeps (machine.child default_cache name) which)

  pub resolve_binary-Keeps :
      (variable name : String) (o : Option String)
      → Keeps Allowed Fair (resolve_binary machine variable name o)
  unfolding resolve_binary
  resolve_binary-Keeps variable name none = search_binary-Keeps variable name
  resolve_binary-Keeps variable name (some binary) =
      if-Keeps (binary == "") (search_binary-Keeps variable name) (pure-Keeps (some binary))

  pub resolve_vsock_port-Keeps : Keeps Allowed Fair (resolve_vsock_port machine)
  unfolding resolve_vsock_port
  resolve_vsock_port-Keeps =
      if-Keeps (strip_text (machine.env "CORVUS_NODE_VSOCK_PORT") == "")
        (pure-Keeps default_vsock_port) (or_raise-Keeps other _ others)

  digest_of-Keeps :
      (path : String) (o : Option String) → Keeps Allowed Fair (digest_of machine path o)
  digest_of-Keeps path none = raise-Keeps _ (os_errors path)
  digest_of-Keeps path (some d) = pure-Keeps d

  pub verify_sha256-Keeps :
      (path expected name : String) → Keeps Allowed Fair (verify_sha256 machine path expected name)
  unfolding verify_sha256
  verify_sha256-Keeps path expected name =
      bind-Keeps (measure-Keeps machine path (measures path)) λ d.
        bind-Keeps (digest_of-Keeps path d) λ actual.
          require-Keeps (actual == expected) (mismatch name actual expected) (isolations _)

  of_word-Keeps :
      (o : Option (List Char))
      → Keeps Allowed Fair {A = String} (elim o [ none ↦ raise other | some w ↦ pure (of_chars w) ])
  of_word-Keeps none = raise-Keeps other others
  of_word-Keeps (some w) = pure-Keeps (of_chars w)

  pub expected_of-Keeps : (f : FileText) → Keeps Allowed Fair (expected_of machine f)
  expected_of-Keeps no_file = raise-Keeps _ (os_errors "")
  expected_of-Keeps not_utf8 = raise-Keeps other others
  expected_of-Keeps (file_text raw) = of_word-Keeps (word_of raw)

  verify_rootfs-Keeps : (rootfs : String) → Keeps Allowed Fair (verify_rootfs machine rootfs)
  unfolding verify_rootfs
  verify_rootfs-Keeps rootfs =
      bind-Keeps (ask-Keeps (looked sidecar) (machine.is_file sidecar) (looks sidecar)) λ there.
        bind-Keeps (require-Keeps there (missing_sidecar sidecar) (isolations _)) λ _.
          bind-Keeps (ask-Keeps (looked sidecar) (machine.read_file sidecar) (looks sidecar))
            λ text.
              bind-Keeps (expected_of-Keeps text)
                λ expected. verify_sha256-Keeps rootfs expected "rootfs"
    where
      sidecar : String
      sidecar = machine.path (rootfs <> ".sha256")

  usable-Keeps :
      (name variable : String) (o : Option String)
      → Keeps Allowed Fair (usable machine name variable o)
  usable-Keeps name variable none = raise-Keeps _ (isolations (missing_binary name variable))
  usable-Keeps name variable (some binary) =
      bind-Keeps (ask-Keeps (looked binary) (machine.is_file (machine.path binary)) (looks binary))
        λ there.
          bind-Keeps
            (require-Keeps (not (binary == "") && there) (missing_binary name variable)
              (isolations _))
            λ _.
              bind-Keeps (ask-Keeps (looked binary) (machine.is_executable binary) (looks binary))
                λ runs.
                  bind-Keeps (require-Keeps runs (not_executable name binary) (isolations _))
                    λ _. pure-Keeps binary

  usable_file-Keeps :
      (variable path : String) → Keeps Allowed Fair (usable_file machine variable path)
  usable_file-Keeps variable path =
      bind-Keeps (ask-Keeps (looked path) (machine.is_file path) (looks path))
        λ there. require-Keeps there (missing_file variable) (isolations _)

  pub check_arch-Keeps : Keeps Allowed Fair (check_arch machine)
  unfolding check_arch
  check_arch-Keeps = or_raise-Keeps _ (arch_of machine.arch_text) (isolations _)

  pub find_assets-Keeps : (named : Named) → Keeps Allowed Fair (find_assets machine named)
  unfolding find_assets resolve_firecracker resolve_jailer
  find_assets-Keeps named =
      bind-Keeps
        (resolve_binary-Keeps "CORVUS_NODE_FIRECRACKER" "firecracker" named.firecracker_bin)
        λ fc. bind-Keeps (usable-Keeps "firecracker" "CORVUS_NODE_FIRECRACKER" fc) λ binary.
          bind-Keeps (resolve_binary-Keeps "CORVUS_NODE_JAILER" "jailer" named.jailer_bin) λ j.
            bind-Keeps (usable-Keeps "jailer" "CORVUS_NODE_JAILER" j) λ jailer.
              bind-Keeps (usable_file-Keeps "CORVUS_NODE_KERNEL" kernel) λ _.
                bind-Keeps (usable_file-Keeps "CORVUS_NODE_ROOTFS" rootfs)
                  λ _. pure-Keeps (assets_of binary jailer kernel rootfs)
    where
      kernel : String
      kernel = resolve_kernel machine named.kernel

      rootfs : String
      rootfs = resolve_rootfs machine named.rootfs

  pub verify_assets-Keeps :
      (arch : Arch) (assets : RuntimeAssets)
      → Keeps Allowed Fair (verify_assets machine arch assets)
  unfolding verify_assets
  verify_assets-Keeps arch assets =
      bind-Keeps (verify_sha256-Keeps assets.kernel (kernel_sha256 arch) "kernel") λ _.
        bind-Keeps (verify_sha256-Keeps firecracker (firecracker_bin_sha256 arch) "firecracker")
          λ _.
            bind-Keeps (verify_sha256-Keeps jailer (jailer_bin_sha256 arch) "jailer")
              λ _. verify_rootfs-Keeps assets.rootfs
    where
      firecracker : String
      firecracker = machine.path assets.firecracker_bin

      jailer : String
      jailer = machine.path assets.jailer_bin

  pub ensure_runtime-Keeps : (named : Named) → Keeps Allowed Fair (ensure_runtime machine named)
  unfolding ensure_runtime
  ensure_runtime-Keeps named =
      bind-Keeps (require-Keeps machine.has_vsock no_vsock (isolations _)) λ _.
        bind-Keeps (ask-Keeps (looked kvm) (machine.exists kvm) (looks kvm)) λ there.
          bind-Keeps (require-Keeps there no_kvm (isolations _)) λ _.
            bind-Keeps check_arch-Keeps λ arch. bind-Keeps (find_assets-Keeps named) λ assets.
              bind-Keeps (verify_assets-Keeps arch assets) λ _.
                bind-Keeps resolve_vsock_port-Keeps
                  λ port. pure-Keeps (record assets { vsock_port = port })
    where
      kvm : String
      kvm = kvm_path
