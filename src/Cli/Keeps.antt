-- ===== src/Cli/Keeps.antt =====
-- What every event of a command is allowed to be, and every error it ends with, is shown by parts: of
-- a bind, of a caught error and of the calls of the Node.
use corvus_node.Prelude.{
  ℕ, String, ◌<>◌, ◌≡◌, refl, Bool, true, false, not, Option, none, some, All, ◌==◌, if◌then◌else◌,
}
use corvus_node.Prelude.Int.{ℤ}
use corvus_node.Json.{Fields, end}
use corvus_node.Control.{Decoding, framed, control_error, client_read}
use corvus_node.Cli.{
  Host, Trace, Event, looked, called, ran_systemctl, ran_pip, Received, line, at_end, socket_error,
  Command, Result, ok, err, Failure, control, uncaught, exhausted, pure, raise, ◌>>=◌, catch,
  handled, ask, say, warn, leave,
}
use corvus_node.Launcher.PidFile.{read_pid}
use corvus_node.Cli.Client.{
  given, read_received, no_node, not_running_hint, pid_or_zero, or_uncaught, by_socket, by_process,
  node_pid, read_pid_file, connect, send, receive, rpc, rpc_status, rpc_stop,
}

-- What changes the agent, the Node or the installation; a Node may be started without a question.
abbrev pub is_change : Event → Bool
is_change (called type payload) = not (type == "status")
is_change (ran_systemctl verb) = verb == "stop"
is_change (ran_pip target) = true
is_change _ = false

module _ (Allowed : Event → Type 0) (Fair : Failure → Type 0) where
  -- The events so far are allowed, and what is raised is fair.
  abbrev pub Ensures {ℓ} : {A : Type ℓ} → Result Failure A × Trace → Type 0
  Ensures (ok a, t) = All Allowed t
  Ensures (err e, t) = All Allowed t × Fair e

  pub record Keeps {ℓ} {A : Type ℓ} (m : Command A) : Type ℓ where
    pub after : (t : Trace) → All Allowed t → Ensures (m t)

  -- What changes nothing is allowed, and the errors of a call are fair.
  pub record Base : Type 0 where
    pub harmless : (e : Event) → is_change e ≡ false → Allowed e
    pub uncaughts : Fair uncaught
    pub controls : (code why : String) → Fair (control code why)

module _ {Allowed : Event → Type 0} {Fair : Failure → Type 0} where
  Ensures-bind {ℓ κ} :
      {A : Type ℓ} {B : Type κ} (f : A → Command B) (o : Result Failure A × Trace)
      → Ensures Allowed Fair o
      → ((a : A) → Keeps Allowed Fair (f a))
      → Ensures Allowed Fair {A = B} (elim o.0 [ ok a ↦ f a o.1 | err e ↦ raise e o.1 ])
  Ensures-bind f (ok a, t) p k = (k a).after t p
  Ensures-bind f (err e, t) q k = q

  pub bind-Keeps {ℓ κ} :
      {A : Type ℓ} {B : Type κ} {m : Command A} {f : A → Command B}
      → Keeps Allowed Fair m
      → ((a : A) → Keeps Allowed Fair (f a))
      → Keeps Allowed Fair (m >>= f)
  bind-Keeps {m} {f} h k = record { after = λ t p. Ensures-bind f (m t) (h.after t p) k }

  pub pure-Keeps {ℓ} : {A : Type ℓ} (a : A) → Keeps Allowed Fair (pure a)
  pure-Keeps a = record { after = λ t p. p }

  pub raise-Keeps {ℓ} : {A : Type ℓ} (e : Failure) → Fair e → Keeps Allowed Fair (raise {A = A} e)
  raise-Keeps e h = record { after = λ t p. (p, h) }

  pub ask-Keeps {ℓ} :
      {A : Type ℓ} (e : Event) (answer : Trace → A) → Allowed e → Keeps Allowed Fair (ask e answer)
  ask-Keeps e answer h = record { after = λ t p. (h, p) }

  pub if-Keeps {ℓ} :
      {A : Type ℓ} (b : Bool) {m n : Command A}
      → Keeps Allowed Fair m
      → Keeps Allowed Fair n
      → Keeps Allowed Fair (if b then m else n)
  if-Keeps true h k = h
  if-Keeps false h k = k

  Ensures-catch {ℓ} :
      {A : Type ℓ} (h : String → String → Command A) (o : Result Failure A × Trace)
      → Ensures Allowed Fair o
      → ((code why : String) → Keeps Allowed Fair (h code why))
      → Ensures Allowed Fair (handled h o.0 o.1)
  Ensures-catch h (ok a, t) q k = q
  Ensures-catch h (err (control code why), t) (p, f) k = (k code why).after t p
  Ensures-catch h (err uncaught, t) q k = q
  Ensures-catch h (err exhausted, t) q k = q

  pub catch-Keeps {ℓ} :
      {A : Type ℓ} {m : Command A} {h : String → String → Command A}
      → Keeps Allowed Fair m
      → ((code why : String) → Keeps Allowed Fair (h code why))
      → Keeps Allowed Fair (catch m h)
  catch-Keeps {m} {h} q k = record { after = λ t p. Ensures-catch h (m t) (q.after t p) k }

  module _ (base : Base Allowed Fair) (host : Host) where
    open base use {harmless, uncaughts, controls}

    pub warn-Keeps : (text : String) → Keeps Allowed Fair (warn text)
    warn-Keeps text = record { after = λ t p. (harmless _ refl, p) }

    pub say-Keeps : (text : String) → Keeps Allowed Fair (say text)
    say-Keeps text = record { after = λ t p. (harmless _ refl, p) }

    pub leave-Keeps : (text : String) (code : ℤ) → Keeps Allowed Fair (leave text code)
    leave-Keeps text code = record { after = λ t p. (harmless _ refl, p) }

    pub look-Keeps {ℓ} :
        {A : Type ℓ} (name : String) (answer : Trace → A)
        → Keeps Allowed Fair (ask (looked name) answer)
    look-Keeps name answer = ask-Keeps _ answer (harmless _ refl)

    no_node-Keeps : Keeps Allowed Fair (no_node host)
    no_node-Keeps =
        bind-Keeps (look-Keeps "env" (not_running_hint host))
          λ hint. raise-Keeps _ (controls "not_running" hint)

    pub connect-Keeps : Keeps Allowed Fair (connect host)
    unfolding connect
    connect-Keeps =
        bind-Keeps (look-Keeps "connect" host.connects)
          λ open_. if-Keeps open_ (pure-Keeps tt) no_node-Keeps

    pub send-Keeps :
        (type : String) (payload : Fields)
        → Allowed (called type payload)
        → Keeps Allowed Fair (send host type payload)
    unfolding send
    send-Keeps type payload h =
        bind-Keeps (ask-Keeps (called type payload) host.sends h)
          λ sent. if-Keeps sent (pure-Keeps tt) (raise-Keeps uncaught uncaughts)

    given-Keeps : (o : Decoding) → Keeps Allowed Fair (given o)
    given-Keeps (framed f) = pure-Keeps f
    given-Keeps (control_error code why) = raise-Keeps _ (controls code why)

    pub read_received-Keeps : (r : Received) → Keeps Allowed Fair (read_received host r)
    read_received-Keeps (line text) = given-Keeps (client_read host.loads text)
    read_received-Keeps at_end = raise-Keeps _ (controls _ _)
    read_received-Keeps socket_error = raise-Keeps uncaught uncaughts

    pub receive-Keeps : Keeps Allowed Fair (receive host)
    unfolding receive
    receive-Keeps = bind-Keeps (look-Keeps "reply" host.receives) λ r. read_received-Keeps r

    pub rpc-Keeps :
        (what reply type : String) (payload : Fields)
        → Allowed (called type payload)
        → Keeps Allowed Fair (rpc host what reply type payload)
    unfolding rpc
    rpc-Keeps what reply type payload h = bind-Keeps connect-Keeps λ _.
        bind-Keeps (send-Keeps type payload h) λ _. bind-Keeps receive-Keeps λ f.
          if-Keeps (f.type == reply) (pure-Keeps f.payload)
            (raise-Keeps _ (controls "control" ("unexpected " <> (what <> (" reply: " <> f.type)))))

    pub rpc_status-Keeps : Keeps Allowed Fair (rpc_status host)
    unfolding rpc_status
    rpc_status-Keeps = rpc-Keeps _ _ _ _ (harmless _ refl)

    pub rpc_stop-Keeps : Allowed (called "stop" end) → Keeps Allowed Fair (rpc_stop host)
    unfolding rpc_stop
    rpc_stop-Keeps h = bind-Keeps (rpc-Keeps _ _ _ _ h) λ fs. pure-Keeps tt

    or_uncaught-Keeps : (o : Option (Option ℕ)) → Keeps Allowed Fair (or_uncaught o)
    or_uncaught-Keeps none = raise-Keeps uncaught uncaughts
    or_uncaught-Keeps (some pid) = pure-Keeps pid

    by_socket-Keeps : (pid : Option ℕ) → Keeps Allowed Fair (by_socket host pid)
    by_socket-Keeps pid =
        bind-Keeps (look-Keeps "control.sock" host.socket_up)
          λ up. pure-Keeps (if up then some (pid_or_zero host pid) else none)

    by_process-Keeps : (pid : Option ℕ) → Keeps Allowed Fair (by_process host pid)
    by_process-Keeps none = by_socket-Keeps none
    by_process-Keeps (some pid) =
        bind-Keeps (look-Keeps "/proc" (host.is_alive pid))
          λ alive. if-Keeps alive (pure-Keeps (some pid)) (by_socket-Keeps (some pid))

    pub node_pid-Keeps : Keeps Allowed Fair (node_pid host)
    unfolding node_pid read_pid_file
    node_pid-Keeps =
        bind-Keeps
          (bind-Keeps (look-Keeps "node.pid" host.pid_file) λ f. or_uncaught-Keeps (read_pid f))
          λ pid. by_process-Keeps pid
