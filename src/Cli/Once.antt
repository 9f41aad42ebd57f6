-- ===== src/Cli/Once.antt =====
-- However a one-reply run ends, its last request to the Node is to stop the agent.
use corvus_node.Prelude.{String, ◌≡◌, true, Option, none, some, [], ◌∷◌, arith}
use corvus_node.Settings.{LaunchSettings}
use corvus_node.Cli.{
  Failure, Host, Trace, called, Result, ok, err, control, pure, handled, uncaught, exhausted, catch,
}
use corvus_node.Cli.Client.{connect, send, receive, rpc, rpc_stop}
use corvus_node.Cli.Start.{run_once_via_node}

-- The type of the last request.
unfoldable pub last_call : Trace → Option String
last_call [] = none
last_call (called type payload ∷ t) = some type
last_call (_ ∷ t) = last_call t

module _ (host : Host) (connects : (t : Trace) → host.connects t ≡ true) where
  rpc_stop-last_call : (t : Trace) → last_call (rpc_stop host t).1 ≡ some "stop"
  unfolding rpc_stop rpc connect send receive last_call
  rpc_stop-last_call t = ground (arith, connects t)

  tried-last_call :
      (t : Trace) → last_call (catch (rpc_stop host) (λ code why. pure tt) t).1 ≡ some "stop"
  tried-last_call t = of_result (rpc_stop host t) (rpc_stop-last_call t)
    where
      of_result :
          (o : Result Failure (Unit {0}) × Trace)
          → last_call o.1 ≡ some "stop"
          → last_call (handled (λ code why. pure tt) o.0 o.1).1 ≡ some "stop"
      of_result (ok a, t') h = h
      of_result (err (control code why), t') h = h
      of_result (err uncaught, t') h = h
      of_result (err exhausted, t') h = h

  -- On a host that can connect to the Node, a one-reply run by way of the Node leaves a stop of
  -- the agent as its last request, however the run ends.
  pub run_once_via_node-last_call :
      (text : String) (merged : LaunchSettings) (t : Trace)
      → last_call (run_once_via_node host text merged t).1 ≡ some "stop"
  unfolding run_once_via_node
  run_once_via_node-last_call text merged t = tried-last_call _
