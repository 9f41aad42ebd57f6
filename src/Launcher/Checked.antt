-- ===== src/Launcher/Checked.antt =====
-- `launch_turn` starts the jailer only as root and only after every asset was measured.
use corvus_node.Prelude.{
  String, ◌<>◌, ◌≡◌, refl, Option, none, some, List, ◌∷◌, inl, inr, Char, of_chars, ◌==◌, eq_iff,
  Bool-cases,
}
use mathlib.Core.Path.{subst}
use corvus_node.Launcher.{
  Machine, Trace, Event, looked, measured, Scene, isolation, other, Launch, pure, raise, ◌>>=◌,
  require, ask, FileText, no_file, not_utf8, file_text,
}
use corvus_node.Launcher.PidFile.{word_of}
use corvus_node.Launcher.Assets.{
  arch_of, RuntimeAssets, expected_of, verify_rootfs, verify_assets, missing_sidecar, no_vsock,
  no_kvm, unsupported, kvm_path, check_arch, ensure_runtime, Named,
}
use corvus_node.Launcher.Checksums.{
  Arch, kernel_sha256, firecracker_bin_sha256, jailer_bin_sha256, digest_of, mismatch,
  verify_sha256,
}
use corvus_node.Launcher.Keeps.{Base, same, more, ask-Keeps, require-Keeps}
use corvus_node.Launcher.Checks.{find_assets-Keeps, resolve_vsock_port-Keeps}
use corvus_node.Launcher.Spawns.{
  Saw, IsQuiet, IsAny, Saw-Grows, IsRootfs, IsChecked, IsSafe, Ends, Meets, Stays, bind-Meets,
  quiet-Meets, consequence, IsNamed, IsChecked-Stays, pure-Meets, or_raise-Meets,
}

pub plain_base : Base IsQuiet IsAny
plain_base = record {
  looks = λ name. refl;
  measures = λ path d. refl;
  isolations = λ why. tt;
  os_errors = λ why. tt;
  others = tt;
}

module _ {machine : Machine} where
  pub always-Stays : Stays machine (λ t. Unit)
  always-Stays = record { grows = λ t t' g h. tt }

  pub fixed-Stays : (C : Type 0) → Stays machine (λ t. C)
  fixed-Stays C = record { grows = λ t t' g h. h }

  pub Saw-Stays : (e : Event) → Stays machine (Saw e)
  Saw-Stays e = record { grows = λ t t' g h. Saw-Grows e t t' g h }

  pub both-Stays :
      {P Q : Trace → Type 0} → Stays machine P → Stays machine Q → Stays machine (λ t. P t × Q t)
  both-Stays p q = record { grows = λ t t' g h. (p.grows t t' g h.0, q.grows t t' g h.1) }

  -- After a digest is verified, it has been measured.
  module _ {P : Trace → Type 0} (stays : Stays machine P) where
    of_test :
        (path actual expected name : String) (s : Scene)
        → IsSafe machine s.trace
        → P s.trace
        → Saw (measured path (some actual)) s.trace
        → Ends machine
            (λ u t. P t × Saw (measured path (some expected)) t)
            (require (actual == expected) (mismatch name actual expected) s)
    of_test path actual expected name s i p w = elim (Bool-cases (actual == expected)) [
      | inl h ↦ rw h (
        i,
        (p, subst (λ d. Saw (measured path (some d)) s.trace) ((eq_iff actual expected).0 h) w),
      )
      | inr h ↦ rw h i
    ]

    of_digest :
        (path expected name : String) (o : Option String) (s : Scene)
        → IsSafe machine s.trace
        → P s.trace
        → Saw (measured path o) s.trace
        → Ends machine
            (λ u t. P t × Saw (measured path (some expected)) t)
            ((digest_of machine path o >>= λ actual.
                require (actual == expected) (mismatch name actual expected))
              s)
    of_digest path expected name none s i p w = i
    of_digest path expected name (some actual) s i p w = of_test path actual expected name s i p w

    pub verify_sha256-Meets :
        (path expected name : String)
        → Meets machine P
            (verify_sha256 machine path expected name)
            (λ u t. P t × Saw (measured path (some expected)) t)
    unfolding verify_sha256
    verify_sha256-Meets path expected name = record {
      after = λ s i p.
          of_digest path expected name (machine.digest path s.trace)
            (record s { trace = measured path (machine.digest path s.trace) ∷ s.trace }) (tt, i)
            (stays.grows s.trace _ (more _ _ _ refl (same s.trace)) p) (inl refl);
    }

module _ (machine : Machine) {P : Trace → Type 0} (stays : Stays machine P) where
  abbrev Read : String → FileText → Type 0
  Read rootfs text =
      (t0 : Trace) × (machine.read_file (machine.path (rootfs <> ".sha256")) t0 ≡ text)

  text-Meets :
      (rootfs : String)
      → Meets machine P
          (ask
            (looked (machine.path (rootfs <> ".sha256")))
            (machine.read_file (machine.path (rootfs <> ".sha256"))))
          (λ text t. P t × Read rootfs text)
  text-Meets rootfs = record {
    after = λ s i p.
        ((tt, i), (stays.grows s.trace _ (more _ _ _ refl (same s.trace)) p, (s.trace, refl)));
  }

  expected_of-Meets :
      (rootfs : String) (text : FileText)
      → Meets machine
          (λ t. P t × Read rootfs text)
          (expected_of machine text)
          (λ d t. P t × IsNamed machine rootfs d)
  expected_of-Meets rootfs no_file = record { after = λ s i p. i }
  expected_of-Meets rootfs not_utf8 = record { after = λ s i p. i }
  expected_of-Meets rootfs (file_text raw) = record {
    after = λ s i p. of_word s (word_of raw) refl i p.0 p.1.0 p.1.1;
  }
    where
      of_word :
          (s : Scene) (o : Option (List Char))
          → word_of raw ≡ o
          → IsSafe machine s.trace
          → P s.trace
          → (t0 : Trace) → machine.read_file (machine.path (rootfs <> ".sha256")) t0 ≡ file_text raw
          → Ends machine {A = String}
              (λ d t. P t × IsNamed machine rootfs d)
              ((elim o as (λ x. Launch String) [ none ↦ raise other | some w ↦ pure (of_chars w) ])
                s)
      of_word s none q i p t0 h = i
      of_word s (some w) q i p t0 h = (i, (p, (t0, raw, w, h, q, refl)))

  verify_rootfs-Meets :
      (rootfs : String)
      → Meets machine P (verify_rootfs machine rootfs) (λ u t. P t × IsRootfs machine rootfs t)
  unfolding verify_rootfs
  verify_rootfs-Meets rootfs =
      bind-Meets (quiet-Meets stays (ask-Keeps (looked sidecar) (machine.is_file sidecar) refl))
        λ there.
          bind-Meets (quiet-Meets stays (require-Keeps there (missing_sidecar sidecar) tt)) λ _.
            bind-Meets (text-Meets rootfs) λ text.
              bind-Meets (expected_of-Meets rootfs text) λ expected.
                consequence
                  (verify_sha256-Meets
                    (both-Stays stays (fixed-Stays (IsNamed machine rootfs expected))) rootfs
                    expected "rootfs")
                  λ u t h. (h.0.0, (expected, h.0.1, h.1))
    where
      sidecar : String
      sidecar = machine.path (rootfs <> ".sha256")

module _ (machine : Machine) where
  verify_assets-Meets :
      (arch : Arch) (assets : RuntimeAssets)
      → arch_of machine.arch_text ≡ some arch
      → Meets machine
          (λ t. Unit)
          (verify_assets machine arch assets)
          (λ u t. IsChecked machine assets t)
  unfolding verify_assets
  verify_assets-Meets arch assets known =
      bind-Meets (verify_sha256-Meets always-Stays assets.kernel (kernel_sha256 arch) "kernel") λ _.
        bind-Meets (verify_sha256-Meets one firecracker (firecracker_bin_sha256 arch) "firecracker")
          λ _. bind-Meets (verify_sha256-Meets two jailer (jailer_bin_sha256 arch) "jailer") λ _.
            consequence (verify_rootfs-Meets machine (both-Stays two (Saw-Stays _)) assets.rootfs)
              λ u t h. (arch, known, h.0.0.0.1, h.0.0.1, h.0.1, h.1)
    where
      firecracker : String
      firecracker = machine.path assets.firecracker_bin

      jailer : String
      jailer = machine.path assets.jailer_bin

      one : Stays machine (λ t. Unit × Saw (measured assets.kernel (some (kernel_sha256 arch))) t)
      one = both-Stays always-Stays (Saw-Stays _)

      two : Stays machine (λ t.
          (Unit × Saw (measured assets.kernel (some (kernel_sha256 arch))) t)
          × Saw (measured firecracker (some (firecracker_bin_sha256 arch))) t)
      two = both-Stays one (Saw-Stays _)

  pub ensure_runtime-Meets :
      (named : Named)
      → Meets machine
          (λ t. Unit)
          (ensure_runtime machine named)
          (λ assets t. IsChecked machine assets t)
  unfolding ensure_runtime check_arch
  ensure_runtime-Meets named =
      bind-Meets (quiet-Meets always-Stays (require-Keeps machine.has_vsock no_vsock tt)) λ _.
        bind-Meets
          (quiet-Meets always-Stays (ask-Keeps (looked kvm_path) (machine.exists kvm_path) refl))
          λ there. bind-Meets (quiet-Meets always-Stays (require-Keeps there no_kvm tt)) λ _.
            bind-Meets
              (or_raise-Meets (isolation (unsupported machine.arch_text))
                (arch_of machine.arch_text))
              λ arch.
                bind-Meets
                  (quiet-Meets (both-Stays (fixed-Stays _) always-Stays)
                    (find_assets-Keeps plain_base machine named))
                  λ assets. bind-Meets (under (verify_assets-Meets arch assets)) λ _.
                    bind-Meets
                      (quiet-Meets (IsChecked-Stays machine assets)
                        (resolve_vsock_port-Keeps plain_base machine))
                      λ port. pure-Meets (record assets { vsock_port = port }) λ t h. h
    where
      under :
          {C : Type 0} {m : Launch (Unit {0})} {Q : Unit {0} → Trace → Type 0}
          → (C → Meets machine (λ t. Unit) m Q)
          → Meets machine (λ t. C × Unit) m Q
      under k = record { after = λ s i p. (k p.0).after s i tt }
