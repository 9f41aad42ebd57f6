-- ===== src/Cli/Wait.antt =====
-- Waiting for the Node, to come or to go, ends before the fuel does.
use corvus_node.Prelude.{
  ℕ, zero, suc, ◌+◌, ◌*◌, ◌≤◌, ◌<◌, ◌≡◌, refl, Bool, true, false, not, Option, none, some, [], ◌∷◌,
  All, ltb, arith, if◌then◌else◌,
}
use corvus_node.Cli.{
  Host, Trace, Event, looked, slept, Command, Result, ok, err, Failure, control, uncaught,
  exhausted, pure, raise, ◌>>=◌, ◌>>◌, emit,
}
use corvus_node.Launcher.PidFile.{read_pid}
use corvus_node.Cli.Client.{
  node_pid, read_pid_file, or_uncaught, by_socket, by_process, wait_until, wait_node, is_there,
}
use corvus_node.Cli.Keeps.{Ensures, Keeps, Base, node_pid-Keeps}

-- Any error but the end of the fuel.
abbrev pub IsReal : Failure → Type 0
IsReal exhausted = ⊥
IsReal uncaught = Unit
IsReal (control code why) = Unit

abbrev pub IsAny : Event → Type 0
IsAny e = Unit

pub All-IsAny : (t : Trace) → All IsAny t
All-IsAny [] = tt
All-IsAny (e ∷ t) = (tt, All-IsAny t)

pub plain_base : Base IsAny IsReal
plain_base = record { harmless = λ e h. tt; uncaughts = tt; controls = λ code why. tt }

-- The clock does not go back, and a pause takes its 50 ms.
pub record Ticks (host : Host) : Type 0 where
  pub onward : (e : Event) (t : Trace) → host.clock t ≤ host.clock (e ∷ t)
  pub pause : (t : Trace) → host.clock t + 50 ≤ host.clock (slept ∷ t)

module _ (host : Host) (ticks : Ticks host) where
  open ticks use {onward, pause}

  by_socket-clock :
      (pid : Option ℕ) (t : Trace) → host.clock t ≤ host.clock (by_socket host pid t).1
  by_socket-clock pid t = onward _ t

  by_process-clock :
      (pid : Option ℕ) (t : Trace) → host.clock t ≤ host.clock (by_process host pid t).1
  by_process-clock none t = onward _ t
  by_process-clock (some pid) t = of_alive (host.is_alive pid t)
    where
      of_alive :
          (alive : Bool)
          → host.clock t
            ≤ host.clock
                ((if alive then pure (some pid) else by_socket host (some pid))
                  (looked "/proc" ∷ t)).1
      of_alive true = onward _ t
      of_alive false =
          omega
            (arith, onward (looked "/proc") t, onward (looked "control.sock") (looked "/proc" ∷ t))

  node_pid-clock : (t : Trace) → host.clock t ≤ host.clock (node_pid host t).1
  unfolding node_pid read_pid_file
  node_pid-clock t = of_pid (read_pid (host.pid_file t))
    where
      t1 : Trace
      t1 = looked "node.pid" ∷ t

      of_pid :
          (o : Option (Option ℕ))
          → host.clock t ≤ host.clock ((or_uncaught o >>= by_process host) t1).1
      of_pid none = onward _ t
      of_pid (some pid) = omega (arith, onward (looked "node.pid") t, by_process-clock pid t1)

  abbrev Fine {ℓ} : {A : Type ℓ} → Result Failure A × Trace → Type 0
  Fine o = Ensures IsAny IsReal o

  module _ (wanted : Bool) (deadline : ℕ) where
    after_look-Fine :
        (rest : Command Bool) (b : Bool) (t : Trace)
        → Fine (rest t)
        → Fine ((if b then pure true else rest) t)
    after_look-Fine rest true t h = All-IsAny t
    after_look-Fine rest false t h = h

    -- One turn of the loop, where what follows a pause is fine.
    wait_step :
        (n : ℕ) (t : Trace)
        → ((t' : Trace)
            → host.clock t < deadline
            → host.clock t ≤ host.clock t'
            → Fine (wait_until host wanted deadline n (slept ∷ t')))
        → Fine (wait_until host wanted deadline (suc n) t)
    unfolding wait_until
    wait_step n t next = of_clock (ltb (host.clock t) deadline) refl
      where
        t1 : Trace
        t1 = looked "clock" ∷ t

        of_pid :
            host.clock t < deadline
            → (o : Result Failure (Option ℕ) × Trace) → Fine o
            → host.clock t ≤ host.clock o.1
            → Fine {A = Bool} (elim o.0 [
              | ok pid ↦
                  (if (if wanted then is_there host pid else not (is_there host pid))
                      then pure true
                      else (emit slept >> wait_until host wanted deadline n))
                    o.1
              | err e ↦ raise e o.1
            ])
        of_pid lt (ok pid, t') f le =
            after_look-Fine (emit slept >> wait_until host wanted deadline n)
              (if wanted then is_there host pid else not (is_there host pid)) t' (next t' lt le)
        of_pid lt (err e, t') f le = f

        of_clock :
            (b : Bool)
            → ltb (host.clock t) deadline ≡ b
            → Fine {A = Bool} (
                (if not b
                    then pure false
                    else (node_pid host >>= λ pid.
                        if (if wanted then is_there host pid else not (is_there host pid))
                        then pure true
                        else (emit slept >> wait_until host wanted deadline n)))
                  t1)
        of_clock false e = All-IsAny t1
        of_clock true e =
            of_pid (ground (arith, e)) (node_pid host t1)
              ((node_pid-Keeps plain_base host).after t1 (All-IsAny t1))
              (omega (arith, onward (looked "clock") t, node_pid-clock t1))

    -- With a pause for every 50 ms to the deadline and one look more, the fuel is enough.
    wait_until-Fine :
        (n : ℕ) (t : Trace)
        → deadline ≤ host.clock t + 50 * n
        → Fine (wait_until host wanted deadline (suc n) t)
    wait_until-Fine zero t h = wait_step zero t (λ t' lt le. absurd (omega (arith, lt, h)))
    wait_until-Fine (suc n) t h =
        wait_step (suc n) t
          (λ t' lt le. wait_until-Fine n (slept ∷ t') (omega (arith, h, le, pause t')))

  pub waits : (wanted : Bool) → Keeps IsAny IsReal (wait_node host wanted)
  waits wanted = record {
    after = λ t p.
        wait_until-Fine wanted (host.clock t + 15000) 300 (looked "clock" ∷ t)
          (omega (arith, onward (looked "clock") t));
  }
