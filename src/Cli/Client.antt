-- ===== src/Cli/Client.antt =====
-- src/corvus_node/node/control.py and the calls of src/corvus_node/node/daemon.py: how a command finds
-- the Node and calls it.
use corvus_node.Prelude.{
  ℕ, zero, suc, ◌+◌, String, ◌<>◌, Bool, true, false, not, ◌&&◌, Option, none, some, List, sorted,
  ltb, ◌==◌, strip, if◌then◌else◌,
}
use corvus_node.Json.{arr, str_items, Fields, end, field}
use corvus_node.Control.{Frame, Decoding, framed, control_error, client_read}
use corvus_node.Settings.{strip_text}
use corvus_node.Launcher.PidFile.{read_pid}
use corvus_node.Cli.{
  Host, Trace, looked, called, slept, Received, line, at_end, socket_error, Command, control,
  uncaught, exhausted, pure, raise, ◌>>=◌, ◌>>◌, emit, ask,
}

-- What `read_pid_file` gives, or the error that it does not catch.
abbrev pub or_uncaught : Option (Option ℕ) → Command (Option ℕ)
or_uncaught none = raise uncaught
or_uncaught (some pid) = pure pid

-- What a call is given for a line.
abbrev pub given : Decoding → Command Frame
given (framed f) = pure f
given (control_error code why) = raise (control code why)

abbrev pub polls : ℕ
polls = 301

module _ (host : Host) where
  -- `product_prefix`
  unfoldable pub product_prefix : String
  unfolding strip
  product_prefix =
      let env = strip_text (host.env "CORVUS_NODE_PREFIX") in
      if env == "" then host.child host.home "Corvus-Node" else env

  unfoldable pub runtime_dir : String
  unfolding strip product_prefix
  runtime_dir =
      let env = strip_text (host.env "CORVUS_NODE_RUNTIME_DIR") in
      if env == "" then host.child product_prefix "run" else env

  unfoldable pub is_product_install : Bool
  unfolding runtime_dir product_prefix
  is_product_install = host.resolve runtime_dir == host.resolve (host.child product_prefix "run")

  -- `not_running_hint`
  unfoldable pub not_running_hint : Trace → String
  unfolding is_product_install product_prefix
  not_running_hint t =
      if is_product_install && host.is_file (host.child product_prefix "env") t
      then "Corvus-Node is not running; corvus start"
      else "Corvus-Node is not running; ./install.sh"

  -- `read_pid_file`
  unfoldable pub read_pid_file : Command (Option ℕ)
  unfolding read_pid
  read_pid_file = ask (looked "node.pid") host.pid_file >>= λ file. or_uncaught (read_pid file)

  -- Without a live process of the file, the socket tells.
  abbrev pub pid_or_zero : Option ℕ → ℕ
  pid_or_zero none = 0
  pid_or_zero (some pid) = pid

  abbrev pub by_socket : Option ℕ → Command (Option ℕ)
  by_socket pid = do
    up ← ask (looked "control.sock") host.socket_up
    pure (if up then some (pid_or_zero pid) else none)

  abbrev pub by_process : Option ℕ → Command (Option ℕ)
  by_process none = by_socket none
  by_process (some pid) = do
    alive ← ask (looked "/proc") (host.is_alive pid)
    if alive then pure (some pid) else by_socket (some pid)

  -- `node_pid`
  unfoldable pub node_pid : Command (Option ℕ)
  unfolding read_pid_file
  node_pid = read_pid_file >>= by_process

  -- `ControlClient.connect`, `send` and `read`
  abbrev pub no_node : Command (Unit {0})
  no_node = do hint ← ask (looked "env") not_running_hint; raise (control "not_running" hint)

  unfoldable pub connect : Command (Unit {0})
  unfolding not_running_hint
  connect = do open_ ← ask (looked "connect") host.connects; if open_ then pure tt else no_node

  unfoldable pub send : String → Fields → Command (Unit {0})
  send type payload = do
    sent ← ask (called type payload) host.sends
    if sent then pure tt else raise uncaught

  abbrev pub read_received : Received → Command Frame
  read_received (line text) = given (client_read host.loads text)
  read_received at_end = raise (control "closed" "control socket closed")
  read_received socket_error = raise uncaught

  -- `ControlClient.recv`. The code waits for a reply without a limit; here the host always has one, or
  -- the end of the stream or an error, so that a command that waits for ever is left out.
  unfoldable pub receive : Command Frame
  unfolding client_read
  receive = ask (looked "reply") host.receives >>= read_received

  -- `ControlClient.rpc` on a connection of its own, and the type that its reply must have.
  unfoldable pub rpc : String → String → String → Fields → Command Fields
  unfolding connect send receive
  rpc what reply type payload = do
    connect
    send type payload
    f ← receive
    if f.type == reply
        then pure f.payload
        else raise (control "control" ("unexpected " <> (what <> (" reply: " <> f.type))))

  unfoldable pub rpc_status : Command Fields
  unfolding rpc
  rpc_status = rpc "status" "status_ok" "status" end

  unfoldable pub rpc_start : List String → List String → Command Fields
  unfolding rpc
  rpc_start tools workspace = rpc "start" "start_ok" "start" (
      field "tools" (arr (str_items (sorted tools)))
        (field "workspace" (arr (str_items workspace)) end))

  unfoldable pub rpc_stop : Command (Unit {0})
  unfolding rpc
  rpc_stop = rpc "stop" "stop_ok" "stop" end >>= λ _. pure tt

  -- `wait_node_ready` and `wait_node_gone`: the Node is looked for until a deadline, every 50 ms. The
  -- fuel is spent by the pauses.
  abbrev pub is_there : Option ℕ → Bool
  is_there none = false
  is_there (some pid) = true

  unfoldable pub wait_until : Bool → ℕ → ℕ → Command Bool
  unfolding node_pid
  wait_until wanted deadline zero = raise exhausted
  wait_until wanted deadline (suc fuel) = do
    now ← ask (looked "clock") host.clock
    if not (ltb now deadline) then pure false else do
      pid ← node_pid
      if (if wanted then is_there pid else not (is_there pid))
          then pure true
          else do emit slept; wait_until wanted deadline fuel

  abbrev pub wait_node : Bool → Command Bool
  wait_node wanted = do
    start ← ask (looked "clock") host.clock
    wait_until wanted (start + 15000) polls

  unfoldable pub wait_node_ready : Command Bool
  unfolding wait_until
  wait_node_ready = wait_node true

  unfoldable pub wait_node_gone : Command Bool
  unfolding wait_until
  wait_node_gone = wait_node false

  unfoldable pub rpc_shutdown : Command (Unit {0})
  unfolding rpc wait_node_gone
  rpc_shutdown = do
    payload ← rpc "shutdown" "shutdown_ok" "shutdown" end
    gone ← wait_node_gone
    pure tt
