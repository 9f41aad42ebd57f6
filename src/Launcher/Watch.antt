-- ===== src/Launcher/Watch.antt =====
-- src/corvus_node/vm/launcher.py: what decides a launched turn: `on_guest`, `watch_jailer` and
-- `watch_firecracker`, and the wait for the first of them, over what happens in turn.
use corvus_node.Prelude.{
  ℕ, String, ◌<>◌, Bool, true, false, Option, none, some, List, [], ◌∷◌, show_ℕ, not, if◌then◌else◌,
}
use corvus_node.Prelude.Int.{ℤ, pos, show_ℤ, ◌==ℤ◌}
use corvus_node.Launcher.{
  Happening, served, session_failed, jailer_ended, polled_pid, polled_life, time_over, read_pid,
}

-- What the wait ends with: the answer, an exception of a session, a `GuestBootTimeout` of a watcher with
-- or without the details of the boot, the end of the time, or its cancellation, where nothing
-- decides it.
pub data Outcome : Type 0 where
  replied : String → Outcome
  failed : Outcome
  not_booted : String → Outcome
  lost : String → Outcome
  late : Outcome
  cancelled : Outcome

-- Where `watch_firecracker` is: it looks for the pid file, it follows a process, or it has ended.
pub data Phase : Type 0 where
  seeking : Phase
  following : ℕ → Phase
  watched : Phase

-- A turn of the watcher: it has decided, or it goes on.
pub data Turn : Type 0 where
  decides : Outcome → Turn
  goes_on : Phase → Turn

-- `code not in (None, 0)`
abbrev pub is_error : Option ℤ → Bool
is_error none = false
is_error (some code) = not (code ==ℤ pos 0)

-- What is made of the pid file; an error of reading it ends the watcher.
abbrev pub found : Option ℤ → Option (Option ℕ) → Phase
found jailer_code none = watched
found jailer_code (some (some pid)) = following pid
found jailer_code (some none) = if is_error jailer_code then watched else seeking

abbrev pub pid_of : Phase → Option ℕ
pid_of seeking = none
pid_of (following pid) = some pid
pid_of watched = none

abbrev pub exited_text : ℕ → String
exited_text pid = "firecracker pid " <> (show_ℕ pid <> " exited before turn completed")

module _ (once : Bool) (pid_name : String) where
  -- What one happening makes of the watcher; `fc_pid` is the pid it has seen.
  unfoldable pub on : Phase → Happening → Turn
  unfolding read_pid show_ℕ show_ℤ
  on phase (served text) = decides (replied text)
  on phase session_failed = decides failed
  on phase (jailer_ended code) =
      if is_error (some code)
      then decides (not_booted ("jailer exited " <> (show_ℤ code <> " before turn completed")))
      else goes_on phase
  on seeking (polled_pid true file jailer_code) =
      decides (lost ("jailer did not write " <> pid_name))
  on seeking (polled_pid false file jailer_code) = goes_on (found jailer_code (read_pid file))
  on (following pid) (polled_pid is_late file jailer_code) = goes_on (following pid)
  on watched (polled_pid is_late file jailer_code) = goes_on watched
  on seeking (polled_life alive) = goes_on seeking
  on (following pid) (polled_life alive) =
      if alive then goes_on (following pid) else decides (lost (exited_text pid))
  on watched (polled_life alive) = goes_on watched
  on phase time_over = if once then decides late else goes_on phase

  -- The wait: the first that decides, and the pid that the watcher has seen.
  unfoldable pub watch : Phase → List Happening → Outcome × Option ℕ
  unfolding on
  watch phase [] = (cancelled, pid_of phase)
  watch phase (h ∷ hs) = elim (on phase h) [
    | decides o ↦ (o, pid_of phase)
    | goes_on phase' ↦ watch phase' hs
  ]
