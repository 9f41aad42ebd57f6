-- ===== src/Cli.antt =====
-- src/corvus_node/cli.py: the commands of the operator, as programs over the trace of what they did.
-- The host answers each question by that trace; a trace has the last event first.
pub mod Client
pub mod Consent
pub mod Stop
pub mod Update
pub mod Start
pub mod Keeps
pub mod Agreed
pub mod Commands
pub mod Wait
pub mod Once
pub mod Refused
pub mod Starting
pub mod Show
pub mod Settings
pub mod Showing
pub mod Header
pub mod Screen
pub mod Chat
pub mod Talks
pub mod Silent
pub mod Spoken
pub mod Main
pub mod Calm
pub use corvus_node.Program.{Program, Result, ok, err, pure, raise, ◌>>=◌, ◌>>◌, finally, emit, ask}
pub use corvus_node.Launcher.PidFile.{FileText, no_file, not_utf8, file_text}
use corvus_node.Prelude.{
  ℕ, ◌+◌, String, ◌<>◌, Bool, true, false, not, ◌&&◌, ◌||◌, Option, none, some, List, [], ◌∷◌, ◌==◌,
  chars, of_chars, strip, if◌then◌else◌,
}
use corvus_node.Prelude.Int.{ℤ, pos, negsuc}
use corvus_node.Json.{Fields}
use corvus_node.Control.{Parsed}
use corvus_node.Update.{Checkout, Lookup}
use corvus_node.Workspace.{Resolved}
use corvus_node.Settings.{LaunchSettings, Loaded}
use corvus_node.Protocol.Mac.{error_code}

-- What a command does: it writes a line, a text, or asks the operator on the error stream, looks at the
-- host, calls the Node, runs `systemctl` or `pip`, and stores launch rules.
pub data Event : Type 0 where
  said warned prompted looked : String → Event
  wrote wrote_error : String → Event
  called : String → Fields → Event
  ran_systemctl ran_pip : String → Event
  stored : LaunchSettings → Event
  slept : Event

abbrev pub Trace : Type 0
Trace = List Event

-- What comes on the control socket: a line, its end, or another error than a `ControlError`.
pub data Received : Type 0 where
  line : String → Received
  at_end socket_error : Received

-- What `systemctl show` gave.
pub data Shown : Type 0 where
  no_systemctl failed : Shown
  shown : String → Shown

pub record Host : Type 0 where
  pub loads : String → Parsed
  pub lower : String → String
  pub int_of_text : String → Option ℤ
  pub env : String → String
  pub home : String
  pub child : String → String → String
  pub resolve : String → String
  pub is_file : String → Trace → Bool
  pub euid : ℕ
  pub clock : Trace → ℕ
  pub pid_file : Trace → FileText
  pub is_alive : ℕ → Trace → Bool
  pub socket_up : Trace → Bool
  pub connects : Trace → Bool
  pub sends : Trace → Bool
  pub receives : Trace → Received
  pub is_tty : Trace → Bool
  pub read_line : Trace → String
  pub main_pid : Trace → Shown
  pub systemctl : String → Trace → Option ℤ
  pub pip : String → Trace → ℤ
  pub checkout : Trace → Checkout
  pub lookup : Trace → Lookup
  pub default_workspace : Trace → Resolved
  pub default_path : String
  pub launch : Trace → Loaded
  pub workspace_setting : String → Trace → Resolved
  pub stores : Trace → Bool
  pub gaps : Trace → List String

-- A `ControlError` with its code and text, an error that no command catches, or the end of the fuel.
pub data Failure : Type 0 where
  control : String → String → Failure
  uncaught exhausted : Failure

abbrev pub Command {ℓ} : Type ℓ → Type ℓ
Command A = Program Trace Failure A

-- `except ControlError`
abbrev pub handled {ℓ} : {A : Type ℓ} → (String → String → Command A) → Result Failure A → Command A
handled h (err (control code why)) = h code why
handled h (err e) = raise e
handled h (ok a) = pure a

abbrev pub catch {ℓ} : {A : Type ℓ} → Command A → (String → String → Command A) → Command A
catch m h t = let (r, t') = m t in handled h r t'

abbrev pub say : String → Command (Unit {0})
say text = emit (said text)

-- `print(..., file=sys.stderr)`
abbrev pub warn : String → Command (Unit {0})
warn text = emit (warned text)

-- A line on the error stream and an exit code.
abbrev pub leave : String → ℤ → Command ℤ
leave text code = do warn text; pure code
