-- ===== src/Launcher/Total.antt =====
-- Programs of a launch that end without an error, from what holds before to what holds after.
use corvus_node.Prelude.{inr}
use corvus_node.Launcher.{Trace, Event, Scene, Failure, Launch, Result, ok, err, raise, ◌>>=◌}
use corvus_node.Launcher.Keeps.{Grows, same, more, Later, Keeps, Ensures}
use corvus_node.Launcher.Spawns.{Saw}

abbrev pub IsAnything : Event → Type 0
IsAnything e = Unit

abbrev pub IsNever : Failure → Type 0
IsNever e = ⊥

abbrev pub Done {ℓ} : {A : Type ℓ} → (A → Scene → Type 0) → Result Failure A × Scene → Type 0
Done Q (ok a, s) = Q a s
Done Q (err e, s) = ⊥

pub record Total {ℓ} {A : Type ℓ} (P : Scene → Type 0) (m : Launch A) (Q : A → Scene → Type 0)
    : Type ℓ where
  pub after : (s : Scene) → P s → Done Q (m s)

-- A property that every event keeps, as long as the pid that was seen stays.
pub record Lasts (P : Scene → Type 0) : Type 0 where
  pub later : (s s' : Scene) → Later IsAnything s s' → P s → P s'

pub Saw-later : (e : Event) (t t' : Trace) → Grows IsAnything t t' → Saw e t → Saw e t'
Saw-later e t _ (same _) h = h
Saw-later e t _ (more x _ t' q g) h = inr (Saw-later e t t' g h)

Done-bind {ℓ κ} :
    {A : Type ℓ} {B : Type κ} {Q : A → Scene → Type 0} {R : B → Scene → Type 0} (f : A → Launch B)
    (o : Result Failure A × Scene)
    → Done Q o
    → ((a : A) → Total (Q a) (f a) R)
    → Done {A = B} R (elim o.0 [ ok a ↦ f a o.1 | err e ↦ raise e o.1 ])
Done-bind f (ok a, s) q k = (k a).after s q
Done-bind f (err e, s) q k = absurd q

pub bind-Total {ℓ κ} :
    {A : Type ℓ} {B : Type κ} {P : Scene → Type 0} {Q : A → Scene → Type 0} {R : B → Scene → Type 0}
    {m : Launch A} {f : A → Launch B}
    → Total P m Q
    → ((a : A) → Total (Q a) (f a) R)
    → Total P (m >>= f) R
bind-Total {m} {f} h k = record { after = λ s p. Done-bind f (m s) (h.after s p) k }

Done-kept {ℓ} :
    {A : Type ℓ} {P : Scene → Type 0} (s : Scene) (o : Result Failure A × Scene)
    → Lasts P
    → P s
    → Ensures IsAnything IsNever s o
    → Done (λ a s. P s) o
Done-kept s (ok a, u) lasts p h = lasts.later s u h p
Done-kept s (err e, u) lasts p h = absurd h.1

-- What raises nothing keeps what lasts.
pub kept_Total {ℓ} :
    {A : Type ℓ} {P : Scene → Type 0} {m : Launch A}
    → Lasts P
    → Keeps IsAnything IsNever m
    → Total P m (λ a s. P s)
kept_Total {m} lasts k = record { after = λ s p. Done-kept s (m s) lasts p (k.after s) }

-- What a program that raises nothing leaves.
pub Done-left {ℓ} :
    {A : Type ℓ} (Q : Scene → Type 0) (o : Result Failure A × Scene) → Done (λ a s. Q s) o → Q o.1
Done-left Q (ok a, s) h = h
Done-left Q (err e, s) h = absurd h
