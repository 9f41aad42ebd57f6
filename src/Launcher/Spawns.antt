-- ===== src/Launcher/Spawns.antt =====
-- What must hold when the jailer is started, and the launches that start it only then.
use corvus_node.Prelude.{
  ◌≤◌, ◌<◌, String, ◌<>◌, ◌≡◌, refl, Bool, true, false, Option, none, some, List, [], ◌∷◌, ◌⊎◌, inr,
  Char, of_chars,
}
use corvus_node.Launcher.{
  Machine, Trace, Event, measured, did, spawn, Scene, Failure, Launch, Result, ok, err, pure, raise,
  ◌>>=◌, finally, require, or_raise, file_text,
}
use corvus_node.Launcher.PidFile.{word_of}
use corvus_node.Launcher.Assets.{arch_of, RuntimeAssets}
use corvus_node.Launcher.Checksums.{Arch, kernel_sha256, firecracker_bin_sha256, jailer_bin_sha256}
use corvus_node.Launcher.Jail.{jailer_uid}
use corvus_node.Launcher.Turn.{Instance, argv_of}
use corvus_node.Launcher.Keeps.{Grows, same, more, Keeps, Ensures}

abbrev pub spawned : Event → Option (List String)
spawned (did (spawn argv) why) = some argv
spawned _ = none

-- The event has happened.
abbrev pub Saw : Event → Trace → Type 0
Saw e [] = ⊥
Saw e (x ∷ t) = (x ≡ e) ⊎ Saw e t

abbrev pub IsQuiet : Event → Type 0
IsQuiet e = spawned e ≡ none

abbrev pub IsAny : Failure → Type 0
IsAny e = Unit

pub Saw-Grows : (e : Event) (t t' : Trace) → Grows IsQuiet t t' → Saw e t → Saw e t'
Saw-Grows e t _ (same _) h = h
Saw-Grows e t _ (more x _ t' q g) h = inr (Saw-Grows e t t' g h)

module _ (machine : Machine) where
  -- The text of the rootfs' sidecar starts with this word.
  abbrev pub IsNamed : String → String → Type 0
  IsNamed rootfs d =
      (t0 : Trace) × (raw : String) × (w : List Char) × (machine.read_file
          (machine.path (rootfs <> ".sha256")) t0
        ≡ file_text raw)
      × (word_of raw ≡ some w)
      × (d ≡ of_chars w)

  -- The rootfs had the digest that its sidecar named.
  abbrev pub IsRootfs : String → Trace → Type 0
  IsRootfs rootfs t = (d : String) × IsNamed rootfs d × Saw (measured rootfs (some d)) t

  -- Every asset has been measured, with the pinned digest of the architecture or the sidecar's.
  abbrev pub IsChecked : RuntimeAssets → Trace → Type 0
  IsChecked assets t =
      (arch : Arch) × (arch_of machine.arch_text ≡ some arch)
      × Saw (measured assets.kernel (some (kernel_sha256 arch))) t
      × Saw (measured (machine.path assets.firecracker_bin) (some (firecracker_bin_sha256 arch))) t
      × Saw (measured (machine.path assets.jailer_bin) (some (jailer_bin_sha256 arch))) t
      × IsRootfs assets.rootfs t

  -- The command line is the one of a checked instance, of root, for a user of the jail.
  abbrev pub MayStart : List String → Trace → Type 0
  MayStart argv t =
      (inst : Instance) × (argv ≡ argv_of machine inst)
      × (machine.euid ≡ 0)
      × (60000 ≤ jailer_uid machine inst.id)
      × (jailer_uid machine inst.id < 61000)
      × IsChecked inst.assets t

  abbrev pub Before : Option (List String) → Trace → Type 0
  Before none t = Unit
  Before (some argv) t = MayStart argv t

  -- Each start of the jailer came after what it needs.
  abbrev pub IsSafe : Trace → Type 0
  IsSafe [] = Unit
  IsSafe (e ∷ t) = Before (spawned e) t × IsSafe t

  pub IsSafe-Grows : (t t' : Trace) → Grows IsQuiet t t' → IsSafe t → IsSafe t'
  IsSafe-Grows t _ (same _) h = h
  IsSafe-Grows t _ (more e _ t' q g) h = (rw q tt, IsSafe-Grows t t' g h)

  -- From what holds before to what holds after; all starts stay safe, also where it raises.
  abbrev pub Ends {ℓ} : {A : Type ℓ} → (A → Trace → Type 0) → Result Failure A × Scene → Type 0
  Ends Q (ok a, s) = IsSafe s.trace × Q a s.trace
  Ends Q (err e, s) = IsSafe s.trace

  pub record Meets {ℓ} {A : Type ℓ} (P : Trace → Type 0) (m : Launch A) (Q : A → Trace → Type 0)
      : Type ℓ where
    pub after : (s : Scene) → IsSafe s.trace → P s.trace → Ends Q (m s)

  -- A property that quiet events keep.
  pub record Stays (P : Trace → Type 0) : Type 0 where
    pub grows : (t t' : Trace) → Grows IsQuiet t t' → P t → P t'

pub IsChecked-Stays :
    (machine : Machine) (assets : RuntimeAssets) → Stays machine (λ t. IsChecked machine assets t)
IsChecked-Stays machine assets = record {
  grows = λ t t' g h. (
    h.0,
    h.1,
    Saw-Grows _ t t' g h.2,
    Saw-Grows _ t t' g h.3,
    Saw-Grows _ t t' g h.4,
    (h.5.0, h.5.1, Saw-Grows _ t t' g h.5.2),
  );
}

Ends-consequence {ℓ} :
    {A : Type ℓ} (machine : Machine) {Q R : A → Trace → Type 0} (o : Result Failure A × Scene)
    → Ends machine Q o
    → ((a : A) (t : Trace) → Q a t → R a t)
    → Ends machine R o
Ends-consequence machine (ok a, s) (i, q) k = (i, k a s.trace q)
Ends-consequence machine (err e, s) i k = i

module _ {machine : Machine} where
  Ends-bind {ℓ κ} :
      {A : Type ℓ} {B : Type κ} {Q : A → Trace → Type 0} {R : B → Trace → Type 0} (f : A → Launch B)
      (o : Result Failure A × Scene)
      → Ends machine Q o
      → ((a : A) → Meets machine (Q a) (f a) R)
      → Ends machine {A = B} R (elim o.0 [ ok a ↦ f a o.1 | err e ↦ raise e o.1 ])
  Ends-bind f (ok a, s) (h, q) k = (k a).after s h q
  Ends-bind f (err e, s) h k = h

  pub bind-Meets {ℓ κ} :
      {A : Type ℓ} {B : Type κ} {P : Trace → Type 0} {Q : A → Trace → Type 0}
      {R : B → Trace → Type 0} {m : Launch A} {f : A → Launch B}
      → Meets machine P m Q
      → ((a : A) → Meets machine (Q a) (f a) R)
      → Meets machine P (m >>= f) R
  bind-Meets {m} {f} h k = record { after = λ s i p. Ends-bind f (m s) (h.after s i p) k }

  Ends-keeps {ℓ} :
      {A : Type ℓ} {P : Trace → Type 0} (s : Scene) (o : Result Failure A × Scene)
      → Ensures IsQuiet IsAny s o
      → Stays machine P
      → IsSafe machine s.trace
      → P s.trace
      → Ends machine (λ a t. P t) o
  Ends-keeps s (ok a, u) (g, q) stays i p =
      (IsSafe-Grows machine s.trace u.trace g i, stays.grows s.trace u.trace g p)
  Ends-keeps s (err e, u) ((g, q), f) stays i p = IsSafe-Grows machine s.trace u.trace g i

  -- What starts nothing.
  pub quiet-Meets {ℓ} :
      {A : Type ℓ} {P : Trace → Type 0} {m : Launch A}
      → Stays machine P
      → Keeps IsQuiet IsAny m
      → Meets machine P m (λ a t. P t)
  quiet-Meets {m} stays k = record { after = λ s i p. Ends-keeps s (m s) (k.after s) stays i p }

  pub pure-Meets {ℓ} :
      {A : Type ℓ} {P : Trace → Type 0} {Q : A → Trace → Type 0} (a : A)
      → ((t : Trace) → P t → Q a t)
      → Meets machine P (pure a) Q
  pure-Meets a h = record { after = λ s i p. (i, h s.trace p) }

  pub consequence {ℓ} :
      {A : Type ℓ} {P : Trace → Type 0} {Q R : A → Trace → Type 0} {m : Launch A}
      → Meets machine P m Q
      → ((a : A) (t : Trace) → Q a t → R a t)
      → Meets machine P m R
  consequence {m} h k = record { after = λ s i p. Ends-consequence machine (m s) (h.after s i p) k }

  pub require-Meets :
      {P : Trace → Type 0} (b : Bool) (why : String)
      → Meets machine P (require b why) (λ u t. (b ≡ true) × P t)
  require-Meets true why = record { after = λ s i p. (i, (refl, p)) }
  require-Meets false why = record { after = λ s i p. i }

  pub or_raise-Meets :
      {A : Type 0} {P : Trace → Type 0} (e : Failure) (o : Option A)
      → Meets machine P (or_raise e o) (λ a t. (o ≡ some a) × P t)
  or_raise-Meets e none = record { after = λ s i p. i }
  or_raise-Meets e (some a) = record { after = λ s i p. (i, (refl, p)) }

module _ (machine : Machine) where
  pub Ends-IsSafe {ℓ} :
      {A : Type ℓ} (Q : A → Trace → Type 0) (o : Result Failure A × Scene)
      → Ends machine Q o
      → IsSafe machine o.1.trace
  Ends-IsSafe Q (ok a, s) (i, q) = i
  Ends-IsSafe Q (err e, s) i = i

  Ensures-IsSafe {ℓ} :
      {A : Type ℓ} (s : Scene) (o : Result Failure A × Scene)
      → IsSafe machine s.trace
      → Ensures IsQuiet IsAny s o
      → IsSafe machine o.1.trace
  Ensures-IsSafe s (ok a, u) i (g, p) = IsSafe-Grows machine s.trace u.trace g i
  Ensures-IsSafe s (err e, u) i ((g, p), f) = IsSafe-Grows machine s.trace u.trace g i

  -- A last program that starts nothing leaves all starts safe.
  pub finally-Safe {ℓ} :
      {A : Type ℓ} (Q : A → Trace → Type 0) (m : Launch A) (f : Launch (Unit {0})) (s : Scene)
      → Ends machine Q (m s)
      → Keeps IsQuiet IsAny f
      → IsSafe machine (finally m f s).1.trace
  finally-Safe Q m f s h k =
      Ensures-IsSafe (m s).1 (f (m s).1) (Ends-IsSafe Q (m s) h) (k.after (m s).1)
