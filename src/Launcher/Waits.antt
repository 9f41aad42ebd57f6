-- ===== src/Launcher/Waits.antt =====
-- As long as nothing goes wrong before, a launch ends with the answer of the guest.
use corvus_node.Prelude.{
  ℕ, ◌<>◌, Option, some, String, ◌≡◌, refl, ap, ◌∙◌, Bool, true, false, not, List, [], ◌∷◌, ◌++◌,
  All, arith,
}
use corvus_node.Prelude.Int.{pos, ◌==ℤ◌}
use corvus_node.Program.{after_all, bind-ok}
use corvus_node.Launcher.{
  Machine, Trace, Scene, Failure, Launch, ◌>>◌, Result, ok, err, finally, Happening, served,
  session_failed, jailer_ended, polled_pid, polled_life, time_over, read_pid,
}
use corvus_node.Launcher.Watch.{
  replied, Phase, seeking, following, watched, found, on, watch, goes_on, Turn,
}
use corvus_node.Launcher.Turn.{
  Mode, Instance, choose, prepare, boot, attend, await_turn, cleanup, launch_turn, pid_path_of,
}
use corvus_node.Launcher.Total.{Done}
use corvus_node.Launcher.Jail.{jail_root}
use corvus_node.Launcher.Tidy.{cleanup-Total}
use corvus_node.Launcher.Cleanup.{IsRemoved}

-- What lets a turn go on: the jailer exits with code 0, the pid file is looked for in time, the
-- process is alive, and the time of a turn that is not the only one.
abbrev pub lets_go_on : Bool → Happening → Bool
lets_go_on once (served text) = false
lets_go_on once session_failed = false
lets_go_on once (jailer_ended code) = code ==ℤ pos 0
lets_go_on once (polled_pid is_late file code) = not is_late
lets_go_on once (polled_life alive) = alive
lets_go_on once time_over = not once

abbrev pub LetsGoOn : Bool → Happening → Type 0
LetsGoOn once h = lets_go_on once h ≡ true

module _ (once : Bool) (pid_name : String) where
  abbrev GoesOn : Turn → Type 0
  GoesOn turn = (phase : Phase) × (turn ≡ goes_on phase)

  on-GoesOn : (phase : Phase) (h : Happening) → LetsGoOn once h → GoesOn (on once pid_name phase h)
  unfolding on
  on-GoesOn phase (served text) e = grind arith
  on-GoesOn phase session_failed e = grind arith
  on-GoesOn phase (jailer_ended code) e = (phase, rw e refl)
  on-GoesOn seeking (polled_pid true file code) e = grind arith
  on-GoesOn (following pid) (polled_pid true file code) e = grind arith
  on-GoesOn watched (polled_pid true file code) e = grind arith
  on-GoesOn seeking (polled_pid false file code) e = (found code (read_pid file), refl)
  on-GoesOn (following pid) (polled_pid false file code) e = (following pid, refl)
  on-GoesOn watched (polled_pid false file code) e = (watched, refl)
  on-GoesOn seeking (polled_life alive) e = (seeking, refl)
  on-GoesOn (following pid) (polled_life alive) e = (following pid, rw e refl)
  on-GoesOn watched (polled_life alive) e = (watched, refl)
  on-GoesOn phase time_over e = (phase, ground (arith, e))

  -- The watch ends with the text of the guest's session where nothing before it ends the watch.
  pub watch-served :
      (phase : Phase) (hs rest : List Happening) (text : String)
      → All (LetsGoOn once) hs
      → (watch once pid_name phase (hs ++ (served text ∷ rest))).0 ≡ replied text
  unfolding watch
  watch-served phase [] rest text a = refl
  watch-served phase (h ∷ hs) rest text a =
      let p = on-GoesOn phase h a.0 in rw (p.1, watch) (watch-served p.0 hs rest text a.1)

finally-ok :
    {A : Type 0} (m : Launch A) (f : Launch (Unit {0})) (Q : Scene → Type 0) {s s' : Scene} {a : A}
    → m s ≡ (ok a, s')
    → Done (λ u s. Q s) (f s')
    → (finally m f s).0 ≡ ok a
finally-ok m f Q {s} {s'} {a} h d = rw h (of_last (f s') d)
  where
    of_last :
        (o : Result Failure (Unit {0}) × Scene) → Done (λ u s. Q s) o → after_all (ok a) o.0 ≡ ok a
    of_last (ok u, s) d = refl
    of_last (err e, s) d = absurd d

module _ (machine : Machine)
    (readable : (inst : Instance) (t : Trace)
      → (o : Option ℕ) × (read_pid (machine.read_file (pid_path_of machine inst) t) ≡ some o)) where
  await_turn-served :
      (mode : Mode) (pid_name log_path : String) (s : Scene) (hs rest : List Happening)
      (text : String)
      → machine.happens s.trace ≡ hs ++ (served text ∷ rest)
      → All (LetsGoOn mode.once) hs
      → (pid : Option ℕ) × (await_turn machine mode pid_name log_path s
          ≡ (ok text, record s { fc_pid = pid }))
  unfolding await_turn
  await_turn-served mode pid_name log_path s hs rest text h a = (
    (watch mode.once pid_name seeking (machine.happens s.trace)).1,
    rw h (rw (watch-served mode.once pid_name seeking hs rest text a) refl),
  )

  attend-served :
      (mode : Mode) (inst : Instance) (chosen prepared booted : Scene) (hs rest : List Happening)
      (text : String)
      → prepare machine inst chosen ≡ (ok tt, prepared)
      → boot machine inst prepared ≡ (ok tt, booted)
      → machine.happens booted.trace ≡ hs ++ (served text ∷ rest)
      → All (LetsGoOn mode.once) hs
      → (last : Scene) × (attend machine mode inst chosen ≡ (ok text, last))
  unfolding attend
  attend-served mode inst chosen prepared booted hs rest text p b h a =
      let root = jail_root machine inst.base inst.exec_name inst.id in
      let wait : Launch String =
        await_turn machine mode (inst.exec_name <> ".pid") (machine.child root "fc.log") in
      let (pid, served_text) =
        await_turn-served mode (inst.exec_name <> ".pid") (machine.child root "fc.log") booted hs
          rest text h a in
      (
        record booted { fc_pid = pid },
        bind-ok (prepare machine inst) (λ u. boot machine inst >> wait) p
            ∙ (bind-ok (boot machine inst) (λ u. wait) b ∙ served_text),
      )

  -- On a machine whose pid files of the jail can be read and are not empty, a launch ends with the
  -- text of the guest's session where an instance is chosen, its jail is prepared, the jailer is
  -- started, and then, before that text comes, the jailer exits with code 0 only, the pid file is
  -- looked for in time, the process is found alive, and the time of an only turn is not over.
  pub launch_turn-served :
      (mode : Mode) (inst : Instance) (s chosen prepared booted : Scene) (hs rest : List Happening)
      (text : String)
      → choose machine s ≡ (ok inst, chosen)
      → prepare machine inst chosen ≡ (ok tt, prepared)
      → boot machine inst prepared ≡ (ok tt, booted)
      → machine.happens booted.trace ≡ hs ++ (served text ∷ rest)
      → All (LetsGoOn mode.once) hs
      → (launch_turn machine mode s).0 ≡ ok text
  unfolding launch_turn
  launch_turn-served mode inst s chosen prepared booted hs rest text c p b h a =
      let (last, attended) = attend-served mode inst chosen prepared booted hs rest text p b h a in
      ap (λ (o : Result Failure String × Scene). o.0)
        (bind-ok (choose machine)
          (λ inst. finally (attend machine mode inst) (cleanup machine mode inst)) c)
      ∙ finally-ok (attend machine mode inst) (cleanup machine mode inst) (IsRemoved machine inst)
          attended ((cleanup-Total machine readable mode inst last.fc_pid).after last refl)
