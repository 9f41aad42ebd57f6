-- ===== src/Cli/Calm.antt =====
-- Where the operator agrees to nothing, a request that shows something or asks first changes nothing.
use corvus_node.Prelude.{
  String, Bool, true, false, not, Option, none, some, [], ◌≡◌, refl, All, arith,
}
use corvus_node.Prelude.Int.{ℤ, pos}
use corvus_node.Settings.{LaunchSettings, Loaded, loaded, settings_error, workspace_error}
use corvus_node.Cli.{Host, Command, pure, ◌>>◌, say}
use corvus_node.Cli.Keeps.{Keeps, bind-Keeps, pure-Keeps, leave-Keeps, look-Keeps, say-Keeps}
use corvus_node.Cli.Refused.{IsHarmless, IsError, Refuses, quiet_base, ensured, stopping-Keeps}
use corvus_node.Cli.Starting.{product_start-Quiet}
use corvus_node.Cli.Showing.{status-Quiet, vm_status-Quiet, settings-Quiet}
use corvus_node.Cli.Main.{
  Flags, Request, help, version, chat, gui, vm_status_only, vm_alone, status_of, settings_of, stop,
  vm_stop_of, update_of, vm_start, start_of, serve, run, Splash, no_runtime, missing, splashed,
  turn_text, Around, with_merged, with_stored, merged_launch, after_splash, show_splash, main,
}

-- A request that shows something or asks before it changes anything.
abbrev pub asks_first : Request → Bool
asks_first help = true
asks_first version = true
asks_first gui = true
asks_first vm_status_only = true
asks_first vm_alone = true
asks_first (status_of brief) = true
asks_first (settings_of edit) = true
asks_first (stop assume_yes) = not assume_yes
asks_first (vm_stop_of assume_yes) = not assume_yes
asks_first (update_of assume_yes) = not assume_yes
asks_first (start_of flags assume_yes) = not assume_yes
asks_first (run flags once t) = not once
asks_first chat = false
asks_first (vm_start flags) = false
asks_first (serve flags) = false

module _ (host : Host) (around : Around) where
  abbrev Calm : Command ℤ → Type 0
  Calm m = Keeps IsHarmless IsError m

  with_merged-Calm :
      (go : LaunchSettings → Command ℤ) (l : Loaded)
      → ((merged : LaunchSettings) → Calm (go merged))
      → Calm (with_merged host around go l)
  with_merged-Calm go (loaded merged) h = h merged
  with_merged-Calm go (settings_error why) h = leave-Keeps quiet_base host _ (pos 2)
  with_merged-Calm go (workspace_error why) h = leave-Keeps quiet_base host _ (pos 2)

  merged_launch-Calm :
      (flags : Flags) (go : LaunchSettings → Command ℤ)
      → ((merged : LaunchSettings) → Calm (go merged))
      → Calm (merged_launch host around flags go)
  unfolding merged_launch
  merged_launch-Calm flags go h =
      bind-Keeps (look-Keeps quiet_base host "launch file" host.launch) λ l. with_stored-Calm l
    where
      with_stored-Calm : (l : Loaded) → Calm (with_stored host around flags go l)
      with_stored-Calm (loaded stored) =
          bind-Keeps (look-Keeps quiet_base host "workspace" _)
            λ merged. with_merged-Calm go merged h
      with_stored-Calm (settings_error why) = leave-Keeps quiet_base host _ (pos 2)
      with_stored-Calm (workspace_error why) = leave-Keeps quiet_base host _ (pos 2)

  after_splash-Calm : (s : Splash) → Calm (after_splash host around s)
  after_splash-Calm no_runtime = leave-Keeps quiet_base host _ (pos 2)
  after_splash-Calm (missing why) = leave-Keeps quiet_base host _ (pos 2)
  after_splash-Calm (splashed code) = pure-Keeps code

  say_and_end : (t : String) → Calm (say t >> pure (pos 0))
  say_and_end t = bind-Keeps (say-Keeps quiet_base host t) λ _. pure-Keeps (pos 0)

  turn_text-once : (t : Option String) → turn_text false t ≡ none
  turn_text-once none = refl
  turn_text-once (some t) = refl

  main-Calm :
      (request : Request)
      → Refuses host
      → asks_first request ≡ true
      → Calm (main host around request)
  unfolding main show_splash
  main-Calm help refuses h = say_and_end _
  main-Calm version refuses h = say_and_end _
  main-Calm gui refuses h =
      bind-Keeps (look-Keeps quiet_base host "splash" around.splash) λ s. after_splash-Calm s
  main-Calm vm_status_only refuses h = vm_status-Quiet host
  main-Calm vm_alone refuses h = leave-Keeps quiet_base host _ (pos 2)
  main-Calm (status_of brief) refuses h = status-Quiet host brief
  main-Calm (settings_of edit) refuses h = settings-Quiet host edit
  main-Calm (stop true) refuses h = absurd (ground (arith, h))
  main-Calm (stop false) refuses h = (stopping-Keeps host refuses).1
  main-Calm (vm_stop_of true) refuses h = absurd (ground (arith, h))
  main-Calm (vm_stop_of false) refuses h = (stopping-Keeps host refuses).0
  main-Calm (update_of true) refuses h = absurd (ground (arith, h))
  main-Calm (update_of false) refuses h = (stopping-Keeps host refuses).2
  main-Calm (start_of flags true) refuses h = absurd (ground (arith, h))
  main-Calm (start_of flags false) refuses h =
      merged_launch-Calm flags _
        λ merged. product_start-Quiet host around.start_daemon around.launch_turn merged refuses
  main-Calm (run flags true t) refuses h = absurd (ground (arith, h))
  main-Calm (run flags false t) refuses h =
      rw (turn_text-once t)
        (merged_launch-Calm flags _ λ merged. leave-Keeps quiet_base host _ (pos 2))
  main-Calm chat refuses h = absurd (ground (arith, h))
  main-Calm (vm_start flags) refuses h = absurd (ground (arith, h))
  main-Calm (serve flags) refuses h = absurd (ground (arith, h))

  -- On a host whose operator answers no question with a yes, a request that shows something, or
  -- that is to stop, update or start without `--yes`, or to run without `--once`, from an empty
  -- trace, sends the Node no request but `status`, stops no unit and runs no pip, also when it
  -- fails.
  pub main-IsHarmless :
      (request : Request)
      → Refuses host
      → asks_first request ≡ true
      → All IsHarmless (main host around request []).1
  main-IsHarmless request refuses h = ensured _ ((main-Calm request refuses h).after [] tt)
