-- ===== src/Launcher/Tidy.antt =====
-- However a launch ends, it has placed nothing for an instance, or the process of Firecracker that it saw
-- has been sent SIGKILL and the removal of the instance that it chose is asked for last.
use corvus_node.Prelude.{ℕ, ◌≡◌, refl, Bool, true, false, Option, none, some, ◌⊎◌, arith}
use corvus_node.Launcher.{
  Machine, Trace, Event, did, make_dir, set_mode, close_server, end_prompts, remove_tree, Scene,
  Launch, ok, read_pid,
}
use corvus_node.Launcher.Jail.{jail_dir}
use corvus_node.Launcher.Turn.{
  Mode, Instance, reap_of, attempted, read, pid_path_of, cleanup, choose,
}
use corvus_node.Launcher.Keeps.{Grows, Keeps, same}
use corvus_node.Launcher.Total.{IsAnything, IsNever, Total, Lasts, bind-Total, kept_Total}
use corvus_node.Launcher.Cleanup.{
  IsRemoved, IsSeen, IsSeen-Lasts, IsReaped, IsReaped-Lasts, IsReap, attempted-Keeps, when-Keeps,
  end_jailer-Keeps, reap_process-Total,
}

-- What a launch may do before it has chosen its instance.
abbrev pub is_harmless : Event → Bool
is_harmless (did (make_dir path) why) = true
is_harmless (did (set_mode mode path) why) = true
is_harmless (did op why) = false
is_harmless _ = true

abbrev pub IsHarmless : Event → Type 0
IsHarmless e = is_harmless e ≡ true

module _ (machine : Machine) where
  -- From the scene `s` on, only what comes before the choice of an instance, or the removal of the
  -- instance that is chosen at `s`.
  abbrev pub IsTidy : Scene → Scene → Type 0
  IsTidy s s' =
      Grows IsHarmless s.trace s'.trace
      ⊎ ((inst : Instance) × ((choose machine s).0 ≡ ok inst) × IsRemoved machine inst s')

  -- The variable as it stands.
  read_pid-Total :
      (seen : Option ℕ)
      → Total
          (IsSeen machine seen)
          (read machine (λ s. s.fc_pid))
          (λ o s. (o ≡ seen) × IsSeen machine seen s)
  read_pid-Total seen = record { after = λ s p. (p, p) }

  variable-Keeps :
      {A : Type 0} (variable : Scene → A) → Keeps IsAnything IsNever (read machine variable)
  variable-Keeps variable = record { after = λ s. (same s.trace, refl) }

  module _
      (readable : (inst : Instance) (t : Trace)
        → (o : Option ℕ) × (read_pid (machine.read_file (pid_path_of machine inst) t)
            ≡ some o)) where
    reap_of-Total :
        (inst : Instance) (seen o : Option ℕ)
        → o ≡ seen
        → Total
            (IsSeen machine seen)
            (reap_of machine (pid_path_of machine inst) o)
            (λ reap s. IsReap seen reap × IsSeen machine seen s)
    reap_of-Total inst none none e = record {
      after = λ s p. rw ((readable inst s.trace).1) (tt, p);
    }
    reap_of-Total inst none (some pid) e = record { after = λ s p. (tt, p) }
    reap_of-Total inst (some q) none e = grind arith
    reap_of-Total inst (some q) (some pid) e = record { after = λ s p. (e, p) }

    remove-Total :
        (inst : Instance) (seen : Option ℕ)
        → Total
            (IsReaped machine seen)
            (attempted machine (remove_tree (jail_dir machine inst.base inst.exec_name inst.id)))
            (λ u s. IsRemoved machine inst s)
    remove-Total inst seen = record { after = λ s p. (s.trace, refl, rw p.0 p.1) }

    pub cleanup-Total :
        (mode : Mode) (inst : Instance) (seen : Option ℕ)
        → Total (IsSeen machine seen) (cleanup machine mode inst) (λ u s. IsRemoved machine inst s)
    unfolding cleanup
    cleanup-Total mode inst seen =
        bind-Total
          (kept_Total (IsSeen-Lasts machine seen)
            (when-Keeps machine mode.has_prompts _ (attempted-Keeps machine end_prompts)))
          λ _. bind-Total (read_pid-Total seen) λ o.
            bind-Total (same_pid o (λ e. reap_of-Total inst seen o e)) λ reap.
              bind-Total (same_reap reap (λ h. reap_process-Total machine seen reap h)) λ _.
                bind-Total (kept_Total reaped (variable-Keeps (λ s. s.proc))) λ proc.
                  bind-Total
                    (kept_Total reaped (when-Keeps machine proc _ (end_jailer-Keeps machine)))
                    λ _. bind-Total (kept_Total reaped (variable-Keeps (λ s. s.server))) λ server.
                      bind-Total
                        (kept_Total reaped
                          (when-Keeps machine server _ (attempted-Keeps machine close_server)))
                        λ _. remove-Total inst seen
      where
        reaped : Lasts (IsReaped machine seen)
        reaped = IsReaped-Lasts machine seen

        same_pid :
            {m : Launch (Option ℕ)} {Q : Option ℕ → Scene → Type 0} (o : Option ℕ)
            → (o ≡ seen → Total (IsSeen machine seen) m Q)
            → Total (λ s. (o ≡ seen) × IsSeen machine seen s) m Q
        same_pid o k = record { after = λ s p. (k p.0).after s p.1 }

        same_reap :
            {m : Launch (Unit {0})} {Q : Unit {0} → Scene → Type 0} (reap : Option ℕ)
            → (IsReap seen reap → Total (IsSeen machine seen) m Q)
            → Total (λ s. IsReap seen reap × IsSeen machine seen s) m Q
        same_reap reap k = record { after = λ s p. (k p.0).after s p.1 }
