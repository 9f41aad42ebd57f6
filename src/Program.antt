-- ===== src/Program.antt =====
-- Programs that pass a state on and may raise: the actions of the guest's runtime, the commands of the
-- operator and the launch of the virtual machine.
use corvus_node.Prelude.{◌≡◌, ap, Bool, List, ◌∷◌, if◌then◌else◌}

pub data Result {ℓ} (F : Type 0) (A : Type ℓ) : Type ℓ where
  ok : A → Result F A
  err : F → Result F A

-- From a state: a result, and the state of after it, also when it raises.
abbrev pub Program {ℓ} : Type 0 → Type 0 → Type ℓ → Type ℓ
Program S F A = S → Result F A × S

module _ {S F : Type 0} where
  abbrev pub pure {ℓ} : {A : Type ℓ} → A → Program S F A
  pure a s = (ok a, s)

  abbrev pub raise {ℓ} : {A : Type ℓ} → F → Program S F A
  raise e s = (err e, s)

-- What is left of a result when a last program has ended.
abbrev pub after_all {ℓ} : {F : Type 0} {A : Type ℓ} → Result F A → Result F (Unit {0}) → Result F A
after_all r (ok u) = r
after_all r (err e) = err e

infixl 5 ◌>>=◌ ◌>>◌
abbrev pub ◌>>=◌ {ℓ κ} :
    {S F : Type 0} {A : Type ℓ} {B : Type κ} → Program S F A → (A → Program S F B) → Program S F B
◌>>=◌ m f s = let (r, s') = m s in elim r [ ok a ↦ f a s' | err e ↦ raise e s' ]

abbrev pub ◌>>◌ {ℓ} :
    {S F : Type 0} {B : Type ℓ} → Program S F (Unit {0}) → Program S F B → Program S F B
m >> k = m >>= λ _. k

-- What comes after a program that has ended without an error.
pub bind-ok {ℓ κ} :
    {S F : Type 0} {A : Type ℓ} {B : Type κ} (m : Program S F A) (f : A → Program S F B) {s s' : S}
    {a : A}
    → m s ≡ (ok a, s')
    → (m >>= f) s ≡ f a s'
bind-ok {S} {F} {A} {B} m f h =
    ap
      (λ (o : Result F A × S). elim o.0 as (λ r. Result F B × S) [
        | ok a ↦ f a o.1
        | err e ↦ raise e o.1
      ])
      h

module _ {S F : Type 0} where
  abbrev pub raise_if : Bool → F → Program S F (Unit {0})
  raise_if c e s = (if c then err e else ok tt, s)

  -- `finally`
  abbrev pub finally {ℓ} : {A : Type ℓ} → Program S F A → Program S F (Unit {0}) → Program S F A
  finally m f s = let (r, s') = m s in let (u, s'') = f s' in (after_all r u, s'')

module _ {E F : Type 0} where
  -- Where the state is the events so far, the last first.
  abbrev pub emit : E → Program (List E) F (Unit {0})
  emit e t = (ok tt, e ∷ t)

  -- What the world says now; the question is an event.
  abbrev pub ask {ℓ} : {A : Type ℓ} → E → (List E → A) → Program (List E) F A
  ask e answer t = (ok (answer t), e ∷ t)
