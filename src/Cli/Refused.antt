-- ===== src/Cli/Refused.antt =====
-- Without the operator's consent nothing is changed, and the commands end.
use corvus_node.Prelude.{
  ℕ, zero, suc, ◌+◌, ◌≡◌, inl, inr, refl, Bool, true, false, not, ltb, All, arith, if◌then◌else◌,
}
use corvus_node.Cli.{Host, Trace, Event, Result, ok, err, Failure, exhausted, emit, slept}
use corvus_node.Cli.Client.{wait_node, wait_until, is_there, polls}
use corvus_node.Cli.Consent.{is_consent}
use corvus_node.Cli.Stop.{vm_stop, product_stop}
use corvus_node.Cli.Update.{update}
use corvus_node.Cli.Keeps.{
  is_change, Ensures, Keeps, Base, node_pid-Keeps, bind-Keeps, look-Keeps, pure-Keeps, raise-Keeps,
  if-Keeps,
}
use corvus_node.Cli.Commands.{commands_keep}
use corvus_node.Cli.Wait.{IsReal, IsAny, plain_base, All-IsAny, Ticks, waits}

abbrev pub IsHarmless : Event → Type 0
IsHarmless e = is_change e ≡ false

abbrev pub Refuses : Host → Type 0
Refuses host = (t : Trace) → is_consent host (host.read_line t) ≡ false

abbrev pub IsError : Failure → Type 0
IsError e = Unit

pub quiet_base : Base IsHarmless IsError
quiet_base = record { harmless = λ e h. h; uncaughts = tt; controls = λ code why. tt }

pause-Keeps : Keeps IsHarmless IsError (emit slept)
pause-Keeps = record { after = λ t p. (refl, p) }

wait_until-Keeps :
    (host : Host) (wanted : Bool) (deadline fuel : ℕ)
    → Keeps IsHarmless IsError (wait_until host wanted deadline fuel)
unfolding wait_until
wait_until-Keeps host wanted deadline zero = raise-Keeps exhausted tt
wait_until-Keeps host wanted deadline (suc fuel) =
    bind-Keeps (look-Keeps quiet_base host "clock" host.clock) λ now.
      if-Keeps (not (ltb now deadline)) (pure-Keeps false) (
        bind-Keeps (node_pid-Keeps quiet_base host) λ pid.
          if-Keeps (if wanted then is_there host pid else not (is_there host pid)) (pure-Keeps true)
            (bind-Keeps pause-Keeps λ _. wait_until-Keeps host wanted deadline fuel))

pub wait_node-Keeps :
    (host : Host) (wanted : Bool) → Keeps IsHarmless IsError (wait_node host wanted)
wait_node-Keeps host wanted =
    bind-Keeps (look-Keeps quiet_base host "clock" host.clock)
      λ start. wait_until-Keeps host wanted (start + 15000) polls

module _ {A : Type 0} where
  pub ensured : (o : Result Failure A × Trace) → Ensures IsHarmless IsError o → All IsHarmless o.1
  ensured (ok a, t) p = p
  ensured (err e, t) p = p.0

  -- A command ended with a code or an error of the host.
  abbrev pub Ends : Result Failure A × Trace → Type 0
  Ends (ok a, t) = Unit
  Ends (err e, t) = IsReal e

  ended : (o : Result Failure A × Trace) → Ensures IsAny IsReal o → Ends o
  ended (ok a, t) p = tt
  ended (err e, t) p = p.1

-- The three commands that stop or replace something.
pub stopping-Keeps :
    (host : Host)
    → Refuses host
    → Keeps IsHarmless IsError (vm_stop host false)
      × Keeps IsHarmless IsError (product_stop host false)
      × Keeps IsHarmless IsError (update host false)
stopping-Keeps host refuses = commands_keep quiet_base host (wait_node-Keeps host) false λ t h.
    elim h [ inl e ↦ absurd (ground (arith, e)) | inr e ↦ absurd (ground (arith, e, refuses t)) ]

-- Where the clock does not go back and a pause takes its 50 ms, `vm stop`, `stop` and `update`
-- end, with an exit code or an error of the host, before the fuel of their waiting does, with and
-- without `--yes` and from any trace.
pub commands-Ends :
    (host : Host) (assume_yes : Bool) (t : Trace)
    → Ticks host
    → Ends (vm_stop host assume_yes t)
      × Ends (product_stop host assume_yes t)
      × Ends (update host assume_yes t)
commands-Ends host assume_yes t ticks =
    let (vm, node, new) = commands_keep plain_base host (waits host ticks) assume_yes λ t h e. tt in
    (
      ended _ (vm.after t (All-IsAny t)),
      ended _ (node.after t (All-IsAny t)),
      ended _ (new.after t (All-IsAny t)),
    )
