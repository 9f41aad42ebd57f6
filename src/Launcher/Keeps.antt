-- ===== src/Launcher/Keeps.antt =====
-- What every event of a launch is allowed to be, and every error it ends with, is shown by parts.
use corvus_node.Prelude.{
  String, ◌≡◌, refl, ◌∙◌, Bool, true, false, Option, none, some, ◌∷◌, if◌then◌else◌,
}
use corvus_node.Launcher.{
  Machine, Trace, Event, looked, measured, did, Op, Scene, Failure, isolation, os_error, other,
  Launch, Result, ok, err, pure, raise, ◌>>=◌, emit, ask, require, or_raise, attempt, or_os_error,
  act,
}
use corvus_node.Launcher.Checksums.{measure}

module _ (Allowed : Event → Type 0) where
  -- The second trace goes on from the first by allowed events.
  pub data Grows : Trace → Trace → Type 0 where
    same : (t : Trace) → Grows t t
    more : (e : Event) (t t' : Trace) → Allowed e → Grows t t' → Grows t (e ∷ t')

  pub Grows-trans : (t u v : Trace) → Grows t u → Grows u v → Grows t v
  Grows-trans t u v g (same _) = g
  Grows-trans t u v g (more e _ t' h k) = more e t t' h (Grows-trans t u t' g k)

  -- From one scene to a later one; the pid that was seen stays.
  abbrev pub Later : Scene → Scene → Type 0
  Later s s' = Grows s.trace s'.trace × (s'.fc_pid ≡ s.fc_pid)

  pub Later-trans : (s u v : Scene) → Later s u → Later u v → Later s v
  Later-trans s u v (g, p) (h, q) = (Grows-trans s.trace u.trace v.trace g h, q ∙ p)

  -- One event, and an answer.
  pub one_event : (e : Event) (s : Scene) → Allowed e → Later s (record s { trace = e ∷ s.trace })
  one_event e s h = (more e s.trace s.trace h (same s.trace), refl)

module _ (Allowed : Event → Type 0) (Fair : Failure → Type 0) where
  -- All new events are allowed, and what is raised is fair.
  abbrev pub Ensures {ℓ} : {A : Type ℓ} → Scene → Result Failure A × Scene → Type 0
  Ensures s (ok a, s') = Later Allowed s s'
  Ensures s (err e, s') = Later Allowed s s' × Fair e

  pub record Keeps {ℓ} {A : Type ℓ} (m : Launch A) : Type ℓ where
    pub after : (s : Scene) → Ensures s (m s)

  -- Questions and digests are allowed, and the errors of the checks are fair.
  pub record Base : Type 0 where
    pub looks : (name : String) → Allowed (looked name)
    pub measures : (path : String) (d : Option String) → Allowed (measured path d)
    pub isolations : (why : String) → Fair (isolation why)
    pub os_errors : (why : String) → Fair (os_error why)
    pub others : Fair other

  pub Later-Ensures {ℓ} :
      {A : Type ℓ} (s u : Scene) (o : Result Failure A × Scene)
      → Later Allowed s u
      → Ensures u o
      → Ensures s o
  Later-Ensures s u (ok a, v) l h = Later-trans Allowed s u v l h
  Later-Ensures s u (err e, v) l (h, f) = (Later-trans Allowed s u v l h, f)

module _ {Allowed : Event → Type 0} {Fair : Failure → Type 0} where
  Ensures-bind {ℓ κ} :
      {A : Type ℓ} {B : Type κ} (f : A → Launch B) (s : Scene) (o : Result Failure A × Scene)
      → Ensures Allowed Fair s o
      → ((a : A) → Keeps Allowed Fair (f a))
      → Ensures Allowed Fair {A = B} s (elim o.0 [ ok a ↦ f a o.1 | err e ↦ raise e o.1 ])
  Ensures-bind f s (ok a, u) l k = Later-Ensures Allowed Fair s u (f a u) l ((k a).after u)
  Ensures-bind f s (err e, u) q k = q

  pub bind-Keeps {ℓ κ} :
      {A : Type ℓ} {B : Type κ} {m : Launch A} {f : A → Launch B}
      → Keeps Allowed Fair m
      → ((a : A) → Keeps Allowed Fair (f a))
      → Keeps Allowed Fair (m >>= f)
  bind-Keeps {m} {f} h k = record { after = λ s. Ensures-bind f s (m s) (h.after s) k }

  pub pure-Keeps {ℓ} : {A : Type ℓ} (a : A) → Keeps Allowed Fair (pure a)
  pure-Keeps a = record { after = λ s. (same s.trace, refl) }

  pub raise-Keeps {ℓ} : {A : Type ℓ} (e : Failure) → Fair e → Keeps Allowed Fair (raise {A = A} e)
  raise-Keeps e h = record { after = λ s. ((same s.trace, refl), h) }

  pub if-Keeps {ℓ} :
      {A : Type ℓ} (b : Bool) {m n : Launch A}
      → Keeps Allowed Fair m
      → Keeps Allowed Fair n
      → Keeps Allowed Fair (if b then m else n)
  if-Keeps true h k = h
  if-Keeps false h k = k

  pub emit-Keeps : (e : Event) → Allowed e → Keeps Allowed Fair (emit e)
  emit-Keeps e h = record { after = λ s. one_event Allowed e s h }

  pub ask-Keeps {ℓ} :
      {A : Type ℓ} (e : Event) (answer : Trace → A) → Allowed e → Keeps Allowed Fair (ask e answer)
  ask-Keeps e answer h = record { after = λ s. one_event Allowed e s h }

  pub attempt-Keeps :
      (machine : Machine) (op : Op)
      → ((why : Option String) → Allowed (did op why))
      → Keeps Allowed Fair (attempt machine op)
  attempt-Keeps machine op h = record {
    after = λ s. one_event Allowed _ s (h (machine.fails op s.trace));
  }

  pub require-Keeps :
      (b : Bool) (why : String) → Fair (isolation why) → Keeps Allowed Fair (require b why)
  require-Keeps b why h = if-Keeps b (pure-Keeps tt) (raise-Keeps _ h)

  pub or_raise-Keeps {ℓ} :
      {A : Type ℓ} (e : Failure) (o : Option A) → Fair e → Keeps Allowed Fair (or_raise e o)
  or_raise-Keeps e none h = raise-Keeps e h
  or_raise-Keeps e (some a) h = pure-Keeps a

  or_os_error-Keeps :
      (o : Option String)
      → ((why : String) → Fair (os_error why))
      → Keeps Allowed Fair (or_os_error o)
  or_os_error-Keeps none h = pure-Keeps tt
  or_os_error-Keeps (some why) h = raise-Keeps _ (h why)

  pub act-Keeps :
      (machine : Machine) (op : Op)
      → ((why : Option String) → Allowed (did op why))
      → ((why : String) → Fair (os_error why))
      → Keeps Allowed Fair (act machine op)
  act-Keeps machine op h k = bind-Keeps (attempt-Keeps machine op h) λ why. or_os_error-Keeps why k

  pub measure-Keeps :
      (machine : Machine) (path : String)
      → ((d : Option String) → Allowed (measured path d))
      → Keeps Allowed Fair (measure machine path)
  measure-Keeps machine path h = record {
    after = λ s. one_event Allowed _ s (h (machine.digest path s.trace));
  }
