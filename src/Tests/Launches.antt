-- ===== src/Tests/Launches.antt =====
-- Launches on a concrete machine, and the theorems on launches at concrete inputs.
use corvus_node.Prelude.{
  String, ◌<>◌, ◌≡◌, refl, true, false, Option, none, some, [], ◌∷◌, ◌==◌, if◌then◌else◌,
}
use corvus_node.Prelude.Int.{pos}
use corvus_node.Launcher.{
  Machine, Scene, served, polled_pid, jailer_ended, ok, err, Result, Failure, no_file, file_text,
  read_pid,
}
use corvus_node.Update.{read_digits}
use corvus_node.Launcher.PidFile.{word_of}
use corvus_node.Launcher.Assets.{probe_isolation, RuntimeAssets}
use corvus_node.Launcher.Checksums.{
  x86_64, kernel_sha256, firecracker_bin_sha256, jailer_bin_sha256,
}
use corvus_node.Launcher.Turn.{Mode, Instance, choose, prepare, boot, launch_turn}
use corvus_node.Launcher.Waits.{launch_turn-served}

abbrev digests : String → Option String
digests path =
    if path == ".cache/corvus-node/vmlinux"
    then some (kernel_sha256 x86_64)
    else if path == "/bin/firecracker"
    then some (firecracker_bin_sha256 x86_64)
    else if path == "/bin/jailer"
    then some (jailer_bin_sha256 x86_64)
    else some "77"

-- A machine with all assets, where each file that is read holds this text.
abbrev machine_with : String → Machine
machine_with text = record {
  env = λ name. "";
  home = "/root";
  path = λ p. p;
  child = λ p name. p <> ("/" <> name);
  name_of = λ p. "firecracker";
  parent = λ p. "/";
  euid = 0;
  arch_text = "x86_64";
  has_vsock = true;
  sha256_hex = λ t. "0000ffff";
  dumps_indented = λ fs. "";
  int_of_text = λ t. none;
  uuid_hex = "a1";
  exists = λ p t. true;
  is_file = λ p t. true;
  is_executable = λ p t. true;
  mount_flags = λ p t. some 3;
  st_nodev = 4;
  which = λ name t. some ("/bin/" <> name);
  resolve = λ p t. p;
  digest = λ p t. digests p;
  read_file = λ p t. file_text text;
  read_replaced = λ p t. "";
  fails = λ op t. none;
  happens = λ t. jailer_ended (pos 0) ∷ polled_pid false no_file none ∷ served "hello" ∷ [];
  jailer_runs = λ t. false;
  is_alive = λ pid t. false;
}

abbrev machine : Machine
machine = machine_with "77  rootfs.ext4"

abbrev mode : Mode
mode = record { once = true; has_prompts = false }

abbrev start : Scene
start = record { trace = []; server = false; proc = false; fc_pid = none }

launched : (launch_turn machine mode start).0 ≡ ok "hello"
unfolding launch_turn
launched = refl

without_gaps : (probe_isolation machine start).0 ≡ ok []
unfolding probe_isolation word_of
without_gaps = refl

with_a_gap :
    (probe_isolation (record machine { has_vsock = false }) start).0
    ≡ ok ("AF_VSOCK is not available on this Python/OS" ∷ [])
unfolding probe_isolation
with_a_gap = refl

abbrev no_assets : RuntimeAssets
no_assets = record {
  firecracker_bin = "";
  jailer_bin = "";
  kernel = "";
  rootfs = "";
  vsock_port = pos 0;
  guest_cid = 0;
}

abbrev instance_of : Result Failure Instance → Instance
instance_of (ok inst) = inst
instance_of (err e) = record { id = ""; base = ""; exec_name = ""; assets = no_assets }

abbrev at_choice : Result Failure Instance × Scene
at_choice = choose machine start

abbrev launched_instance : Instance
launched_instance = instance_of at_choice.0

abbrev at_boot : Scene
at_boot = (prepare machine launched_instance at_choice.1).1

launch_turn-served_example : (launch_turn machine mode start).0 ≡ ok "hello"
unfolding choose prepare read_pid read_digits
launch_turn-served_example =
    launch_turn-served machine (λ inst t. (some 77, refl)) mode launched_instance start at_choice.1
      at_boot (boot machine launched_instance at_boot).1
      (jailer_ended (pos 0) ∷ polled_pid false no_file none ∷ []) [] "hello" refl refl refl refl
      (refl, (refl, tt))
