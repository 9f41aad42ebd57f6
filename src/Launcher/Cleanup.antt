-- ===== src/Launcher/Cleanup.antt =====
-- However a launch ends after it has chosen its instance, the process of Firecracker that it saw has been
-- sent SIGKILL and the removal of the instance is asked for last.
use corvus_node.Prelude.{ℕ, zero, suc, String, ◌≡◌, refl, ◌∙◌, Bool, Option, none, some, ◌∷◌, inl}
use corvus_node.Launcher.{
  Machine, Trace, looked, slept, did, Op, kill, kill_jailer, remove_tree, Scene, Failure, Launch,
  Result, ok, err,
}
use corvus_node.Launcher.Jail.{jail_dir}
use corvus_node.Launcher.Turn.{Instance, await_death, reap_process, attempted, when, end_jailer}
use corvus_node.Launcher.Keeps.{
  Grows, Keeps, bind-Keeps, pure-Keeps, if-Keeps, emit-Keeps, ask-Keeps, attempt-Keeps,
}
use corvus_node.Launcher.Spawns.{Saw}
use corvus_node.Launcher.Total.{IsAnything, IsNever, Done, Total, Lasts, Saw-later, kept_Total}

-- The process has been sent SIGKILL, whatever came of it.
abbrev pub IsKilled : Option ℕ → Trace → Type 0
IsKilled none t = Unit
IsKilled (some pid) t = (why : Option String) × Saw (did (kill pid) why) t

IsKilled-later :
    (o : Option ℕ) (t t' : Trace) → Grows IsAnything t t' → IsKilled o t → IsKilled o t'
IsKilled-later none t t' g h = tt
IsKilled-later (some pid) t t' g h = (h.0, Saw-later _ t t' g h.1)

-- The process to be killed is the one seen, where one was.
abbrev pub IsReap : Option ℕ → Option ℕ → Type 0
IsReap none reap = Unit
IsReap (some pid) reap = reap ≡ some pid

module _ (machine : Machine) where
  -- The removal of the directory of the instance has been asked for last, with the outcome that the
  -- system gives.
  abbrev pub IsRemoved : Instance → Scene → Type 0
  IsRemoved inst s =
      let op = remove_tree (jail_dir machine inst.base inst.exec_name inst.id) in
      (t : Trace) × (s.trace ≡ did op (machine.fails op t) ∷ t) × IsKilled s.fc_pid t

  abbrev pub Quietly {ℓ} : {A : Type ℓ} → Launch A → Type ℓ
  Quietly m = Keeps IsAnything IsNever m

  pub attempted-Keeps : (op : Op) → Quietly (attempted machine op)
  attempted-Keeps op = bind-Keeps (attempt-Keeps machine op λ why. tt) λ why. pure-Keeps tt

  pub when-Keeps : (b : Bool) (m : Launch (Unit {0})) → Quietly m → Quietly (when machine b m)
  when-Keeps b m h = if-Keeps b h (pure-Keeps tt)

  pub end_jailer-Keeps : Quietly (end_jailer machine)
  end_jailer-Keeps =
      bind-Keeps (ask-Keeps (looked "jailer") machine.jailer_runs tt)
        λ runs. when-Keeps runs _ (attempted-Keeps kill_jailer)

  await_death-Keeps : (pid n : ℕ) → Quietly (await_death machine pid n)
  unfolding await_death
  await_death-Keeps pid zero = pure-Keeps tt
  await_death-Keeps pid (suc n) =
      bind-Keeps (ask-Keeps (looked "/proc") (machine.is_alive pid) tt) λ alive.
        if-Keeps alive (bind-Keeps (emit-Keeps slept tt) λ _. await_death-Keeps pid n)
          (pure-Keeps tt)

  module _ (seen : Option ℕ) where
    abbrev pub IsSeen : Scene → Type 0
    IsSeen s = s.fc_pid ≡ seen

    pub IsSeen-Lasts : Lasts IsSeen
    IsSeen-Lasts = record { later = λ s s' l h. l.1 ∙ h }

    abbrev pub IsReaped : Scene → Type 0
    IsReaped s = (s.fc_pid ≡ seen) × IsKilled seen s.trace

    pub IsReaped-Lasts : Lasts IsReaped
    IsReaped-Lasts = record {
      later = λ s s' l h. (l.1 ∙ h.0, IsKilled-later seen s.trace s'.trace l.0 h.1);
    }

    pub reap_process-Total :
        (reap : Option ℕ)
        → IsReap seen reap
        → Total IsSeen (reap_process machine reap) (λ u s. IsReaped s)
    reap_process-Total reap h = by_seen seen h
      where
        killed :
            (pid : ℕ) (s : Scene)
            → s.fc_pid ≡ some pid
            → Done
                (λ u s. (s.fc_pid ≡ some pid) × IsKilled (some pid) s.trace)
                (reap_process machine (some pid) s)
        killed pid s p =
            (kept_Total killed_Lasts (await_death-Keeps pid 50)).after
              (record s { trace = did (kill pid) (machine.fails (kill pid) s.trace) ∷ s.trace })
              (p, (machine.fails (kill pid) s.trace, inl refl))
          where
            killed_Lasts : Lasts (λ s. (s.fc_pid ≡ some pid) × IsKilled (some pid) s.trace)
            killed_Lasts = record {
              later = λ s s' l h. (l.1 ∙ h.0, IsKilled-later (some pid) s.trace s'.trace l.0 h.1);
            }

        unseen : (reap : Option ℕ) → Quietly (reap_process machine reap)
        unseen none = pure-Keeps tt
        unseen (some pid) =
            bind-Keeps (attempt-Keeps machine (kill pid) λ why. tt) λ why. await_death-Keeps pid 50

        by_seen :
            (o : Option ℕ)
            → IsReap o reap
            → Total
                (λ s. s.fc_pid ≡ o)
                (reap_process machine reap)
                (λ u s. (s.fc_pid ≡ o) × IsKilled o s.trace)
        by_seen none h = record {
          after = λ s p.
              Done-pair (reap_process machine reap s) ((kept_Total lasts (unseen reap)).after s p);
        }
          where
            lasts : Lasts (λ s. s.fc_pid ≡ none)
            lasts = record { later = λ s s' l q. l.1 ∙ q }

            Done-pair :
                (o : Result Failure (Unit {0}) × Scene)
                → Done (λ u s. s.fc_pid ≡ none) o
                → Done (λ u s. (s.fc_pid ≡ none) × Unit) o
            Done-pair (ok u, s) q = (q, tt)
            Done-pair (err e, s) q = q
        by_seen (some pid) h = rw h (record { after = λ s p. killed pid s p })
