-- ===== src/Cli/Main.antt =====
-- src/corvus_node/cli.py: `main` and `_vm`, from the parsed arguments to a command. `argparse`, the help text, the
-- splash and the service itself are parameters.
use corvus_node.Prelude.{
  String, ◌<>◌, Bool, not, ◌&&◌, Option, none, some, List, ◌==◌, if◌then◌else◌,
}
use corvus_node.Prelude.Int.{ℤ, pos}
use corvus_node.Settings.{
  LaunchSettings, Loaded, loaded, settings_error, workspace_error, merge_launch,
}
use corvus_node.Update.{local_version}
use corvus_node.Workspace.{FileSystem, Resolved, folder, unusable}
use corvus_node.Cli.{Host, Trace, looked, Command, pure, ◌>>=◌, ◌>>◌, ask, say, leave}
use corvus_node.Cli.Stop.{vm_stop, product_stop}
use corvus_node.Cli.Update.{update}
use corvus_node.Cli.Start.{Launch, up, down, launch_errors, start, product_start, run_once}
use corvus_node.Cli.Show.{status, vm_status}
use corvus_node.Cli.Settings.{Edit, settings}
use corvus_node.Cli.Chat.{run_chat}
use corvus_node.Cli.Screen.{Terminal}

-- `--tools` and `--workspace`
pub record Flags : Type 0 where
  pub tools : Option String
  pub workspace : Option (List String)

-- The arguments as they are parsed; the Boolean is `--brief`, `--yes` or `--once`.
pub data Request : Type 0 where
  help version chat gui vm_status_only vm_alone : Request
  status_of : Bool → Request
  settings_of : Option Edit → Request
  stop vm_stop_of update_of : Bool → Request
  vm_start : Flags → Request
  start_of : Flags → Bool → Request
  serve : Flags → Request
  run : Flags → Bool → Option String → Request

-- What the splash comes to: the runtime is missing, something it needs is missing, or its exit code.
pub data Splash : Type 0 where
  no_runtime : Splash
  missing : String → Splash
  splashed : ℤ → Splash

-- `not args.once or not args.text`
abbrev pub turn_text : Bool → Option String → Option String
turn_text once none = none
turn_text once (some t) = if once && not (t == "") then some t else none

pub record Around : Type 1 where
  pub fs : FileSystem
  pub disk : Trace → fs.Disk
  pub help_text : String
  pub splash : Trace → Splash
  pub start_daemon : LaunchSettings → Command (Launch (Unit {0}))
  pub launch_turn : String → LaunchSettings → Command (Launch String)
  pub serve_node : LaunchSettings → Command (Launch (Unit {0}))
  pub terminal : Terminal

module _ (host : Host) (around : Around) where
  -- `_merged_launch`, with its errors.
  abbrev pub with_merged : (LaunchSettings → Command ℤ) → Loaded → Command ℤ
  with_merged go (loaded merged) = go merged
  with_merged go (settings_error why) = leave ("corvus: " <> why) (pos 2)
  with_merged go (workspace_error why) = leave ("corvus: " <> why) (pos 2)

  abbrev pub with_stored : Flags → (LaunchSettings → Command ℤ) → Loaded → Command ℤ
  with_stored flags go (loaded stored) = do
    merged ←
        ask (looked "workspace")
          (λ t. merge_launch around.fs (around.disk t) stored flags.tools flags.workspace)
    with_merged go merged
  with_stored flags go (settings_error why) = leave ("corvus: " <> why) (pos 2)
  with_stored flags go (workspace_error why) = leave ("corvus: " <> why) (pos 2)

  unfoldable pub merged_launch : Flags → (LaunchSettings → Command ℤ) → Command ℤ
  unfolding merge_launch
  merged_launch flags go = ask (looked "launch file") host.launch >>= with_stored flags go

  -- `_gui`
  abbrev pub after_splash : Splash → Command ℤ
  after_splash no_runtime =
      leave
        ("corvus: v" <> (local_version <> " GUI runtime is missing; ./install.sh or corvus update"))
        (pos 2)
  after_splash (missing why) = leave ("corvus: " <> why) (pos 2)
  after_splash (splashed code) = pure code

  unfoldable pub show_splash : Command ℤ
  show_splash = ask (looked "splash") around.splash >>= after_splash

  -- `_serve`
  abbrev pub served : Launch (Unit {0}) → Command ℤ
  served (up u) = pure (pos 0)
  served (down e) = launch_errors e

  unfoldable pub serve_launch : LaunchSettings → Command ℤ
  unfolding launch_errors
  serve_launch merged = around.serve_node merged >>= served

  -- `vm start`
  abbrev pub with_folder : Flags → Resolved → Command ℤ
  with_folder flags (unusable why) = leave ("corvus: " <> why) (pos 2)
  with_folder flags (folder path) =
      merged_launch flags (start host around.start_daemon around.launch_turn)

  abbrev pub run_turn : Option String → LaunchSettings → Command ℤ
  run_turn none merged =
      leave ("corvus: v" <> (local_version <> " requires: run --once TEXT")) (pos 2)
  run_turn (some t) merged = run_once host around.start_daemon around.launch_turn t merged

  unfoldable pub main : Request → Command ℤ
  unfolding status settings run_chat product_stop vm_stop vm_status update start product_start
      run_once merged_launch serve_launch show_splash
  main help = say around.help_text >> pure (pos 0)
  main version = say local_version >> pure (pos 0)
  main (status_of brief) = status host brief
  main (settings_of edit) = settings host edit
  main chat = run_chat host around.terminal
  main gui = show_splash
  main (stop assume_yes) = product_stop host assume_yes
  main vm_status_only = vm_status host
  main (vm_stop_of assume_yes) = vm_stop host assume_yes
  main (vm_start flags) =
      ask (looked "default workspace") host.default_workspace >>= with_folder flags
  main vm_alone =
      leave ("corvus: v" <> (local_version <> " requires: vm start|stop|status")) (pos 2)
  main (update_of assume_yes) = update host assume_yes
  main (start_of flags assume_yes) =
      merged_launch flags
        λ merged. product_start host around.start_daemon around.launch_turn merged assume_yes
  main (serve flags) = merged_launch flags serve_launch
  main (run flags once t) = merged_launch flags (run_turn (turn_text once t))
