-- ===== src/Launcher.antt =====
-- src/corvus_node/vm/launcher.py: a launch as a program over the scene: what has been done so far, the
-- last first, and the variables that the cleanup reads. The machine answers each question by what
-- has been done.
pub mod PidFile
pub mod Checksums
pub mod Assets
pub mod Jail
pub mod Watch
pub mod Turn
pub mod Keeps
pub mod Checks
pub mod Spawns
pub mod Checked
pub mod Prepared
pub mod Started
pub mod Total
pub mod Cleanup
pub mod Tidy
pub mod Waits
pub use corvus_node.Program.{Program, Result, ok, err, pure, raise, ◌>>=◌, ◌>>◌, finally}
pub use PidFile.{FileText, no_file, not_utf8, file_text}
unfoldable pub use PidFile.{read_pid}
use corvus_node.Prelude.{
  ℕ, ◌+◌, ◌*◌, ◌%◌, String, ◌<>◌, Bool, true, false, Option, none, some, List, [], ◌∷◌, map, Char,
  code, chars, take, leb, ltb, ◌&&◌, ◌-◌, ◌==◌, show_ℕ, if◌then◌else◌,
}
use corvus_node.Prelude.Int.{ℤ, pos}
use corvus_node.Json.{Fields}

-- What is done to the machine.
pub data Op : Type 0 where
  make_dir unlink touch bind open_log close_log remove_tree : String → Op
  set_mode chown : ℕ → String → Op
  copy write : String → String → Op
  spawn : List String → Op
  kill : ℕ → Op
  kill_jailer close_server end_prompts : Op

-- A question, the digest that a file has, an operation with the text of its `OSError`, a pause, or the
-- instance and context id that the configuration is given.
pub data Event : Type 0 where
  looked : String → Event
  measured : String → Option String → Event
  did : Op → Option String → Event
  slept : Event
  configured : String → ℕ → Event

abbrev pub Trace : Type 0
Trace = List Event

-- What happens while the turn is awaited: a session with the guest returns a text or raises, the
-- jailer exits, the watcher of Firecracker looks for the pid file (late, or not, with the exit code
-- of the jailer) or whether the process is alive, and the time of the turn is over.
pub data Happening : Type 0 where
  served : String → Happening
  session_failed : Happening
  jailer_ended : ℤ → Happening
  polled_pid : Bool → FileText → Option ℤ → Happening
  polled_life : Bool → Happening
  time_over : Happening

-- The parts of `os`, `pathlib`, `shutil`, `hashlib` and `asyncio` that the launch builds on. `st_nodev` is a
-- mask of one bit; `read_replaced` is the text of a file, with what is no UTF-8 replaced.
pub record Machine : Type 0 where
  pub env : String → String
  pub home : String
  pub path : String → String
  pub child : String → String → String
  pub name_of : String → String
  pub parent : String → String
  pub euid : ℕ
  pub arch_text : String
  pub has_vsock : Bool
  pub sha256_hex : String → String
  pub dumps_indented : Fields → String
  pub int_of_text : String → Option ℤ
  pub uuid_hex : String
  pub exists : String → Trace → Bool
  pub is_file : String → Trace → Bool
  pub is_executable : String → Trace → Bool
  pub mount_flags : String → Trace → Option ℕ
  pub st_nodev : ℕ
  pub which : String → Trace → Option String
  pub resolve : String → Trace → String
  pub digest : String → Trace → Option String
  pub read_file : String → Trace → FileText
  pub read_replaced : String → Trace → String
  pub fails : Op → Trace → Option String
  pub happens : Trace → List Happening
  pub jailer_runs : Trace → Bool
  pub is_alive : ℕ → Trace → Bool

-- `IsolationUnavailable`, `GuestBootTimeout`, an `OSError`, what a session raises, any other error, and
-- the cancellation of the launch.
pub data Failure : Type 0 where
  isolation boot_timeout os_error : String → Failure
  session_error other cancelled : Failure

-- The trace, and the variables `server`, `proc` (whether they are set) and `fc_pid`.
pub record Scene : Type 0 where
  pub trace : Trace
  pub server : Bool
  pub proc : Bool
  pub fc_pid : Option ℕ

abbrev pub Launch {ℓ} : Type ℓ → Type ℓ
Launch A = Program Scene Failure A

abbrev pub emit : Event → Launch (Unit {0})
emit e s = (ok tt, record s { trace = e ∷ s.trace })

abbrev pub ask {ℓ} : {A : Type ℓ} → Event → (Trace → A) → Launch A
ask e answer s = (ok (answer s.trace), record s { trace = e ∷ s.trace })

abbrev pub require : Bool → String → Launch (Unit {0})
require b why = if b then pure tt else raise (isolation why)

abbrev pub or_raise {ℓ} : {A : Type ℓ} → Failure → Option A → Launch A
or_raise e none = raise e
or_raise e (some a) = pure a

-- An operation, with the text of its `OSError`.
abbrev pub attempt : Machine → Op → Launch (Option String)
attempt machine op s =
    let why = machine.fails op s.trace in (ok why, record s { trace = did op why ∷ s.trace })

abbrev pub or_os_error : Option String → Launch (Unit {0})
or_os_error none = pure tt
or_os_error (some why) = raise (os_error why)

abbrev pub act : Machine → Op → Launch (Unit {0})
act machine op = attempt machine op >>= or_os_error
