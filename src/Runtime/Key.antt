-- ===== src/Runtime/Key.antt =====
-- On a wire that has just been opened, the guest takes a key before it sends anything.
use corvus_node.Prelude.{
  String, ◌≡◌, refl, ap, ◌∙◌, Bool, true, false, not, Option, none, some, [], ◌==◌, if◌then◌else◌,
}
use corvus_node.Prelude.Int.{ℤ}
use corvus_node.Json.{get, truthy}
use corvus_node.Json.Text.{text_at, text}
use corvus_node.Protocol.Mac.{HopMac, set_key, set_bind}
use corvus_node.Protocol.Mac.Hop.{verify-accepted}
use corvus_node.Policy.{or_null}
use corvus_node.Runtime.{
  Failure, GuestEnv, Wire, Action, Result, ok, err, raise, ◌>>=◌, set_session_key, bind_to,
  value_error,
}
use corvus_node.Runtime.Turn.{ensure_key, accept_session, has_key}
use corvus_node.Runtime.Keeps.{Ensures, Keeps, raise_if-Keeps}
use corvus_node.Runtime.Steady.{Listens, read-Keeps, int_of-Keeps}

-- Nothing was sent.
abbrev pub IsUnsent : Wire → Type 0
IsUnsent w = (w.sent ≡ []) × (w.mac.out_seq ≡ 0)

-- So far, and there is a key.
abbrev pub IsKeyed : Wire → Type 0
IsKeyed w = IsUnsent w × ((k : String) × (w.mac.key ≡ some k))

-- What an action leaves: this, or an error and nothing sent.
abbrev pub Opened {ℓ} : {A : Type ℓ} → (Wire → Type 0) → Result Failure A × Wire → Type 0
Opened Q (ok a, v) = Q v
Opened Q (err e, v) = v.sent ≡ []

record Opens {ℓ} {A : Type ℓ} (P : Wire → Type 0) (m : Action A) (Q : Wire → Type 0) : Type ℓ where
  after : (w : Wire) → P w → Opened Q (m w)

Opened-bind {ℓ κ} :
    {A : Type ℓ} {B : Type κ} {Q R : Wire → Type 0} (f : A → Action B) (o : Result Failure A × Wire)
    → Opened Q o
    → ((a : A) → Opens Q (f a) R)
    → Opened {A = B} R (elim o.0 [ ok a ↦ f a o.1 | err e ↦ raise e o.1 ])
Opened-bind f (ok a, v) q k = (k a).after v q
Opened-bind f (err e, v) q k = q

bind-Opens {ℓ κ} :
    {A : Type ℓ} {B : Type κ} {P Q R : Wire → Type 0} {m : Action A} {f : A → Action B}
    → Opens P m Q
    → ((a : A) → Opens Q (f a) R)
    → Opens P (m >>= f) R
bind-Opens {m} {f} h k = record { after = λ w p. Opened-bind f (m w) (h.after w p) k }

Keeps-Opens {ℓ} :
    {A : Type ℓ} {P : Wire → Type 0} {m : Action A}
    → ((w : Wire) → P w → w.sent ≡ [])
    → Keeps P m
    → Opens P m P
Keeps-Opens {A} {P} {m} unsent h = record { after = λ w p. of_end w (m w) (h.after w p) }
  where
    of_end : (w : Wire) (o : Result Failure A × Wire) → Ensures P w o → Opened P o
    of_end w (ok a, v) q = q.0
    of_end w (err e, v) q = unsent v q.0

module _ (env : GuestEnv) where
  IsUnsent-Listens : Listens env IsUnsent
  IsUnsent-Listens = record {
    take = λ w ls p. p;
    check = λ w m mac h p.
        (p.0, ap (λ (g : HopMac). g.out_seq) (verify-accepted env.digests w.mac m h).1 ∙ p.1);
  }

  set_session_key-Opens : (key : String) → Opens IsUnsent (set_session_key env key) IsKeyed
  unfolding set_session_key set_key
  set_session_key-Opens key = record { after = λ w p. of_hex w (env.from_hex key) p }
    where
      of_hex :
          (w : Wire) (o : Option String)
          → IsUnsent w
          → Opened {A = Unit {0}} IsKeyed (elim o [
            | none ↦ (err value_error, w)
            | some hex ↦ (ok tt, record w { mac = set_key hex w.mac })
          ])
      of_hex w none p = p.0
      of_hex w (some hex) p = (p, (hex, refl))

  bind_to-Opens : (vm : String) (cid : ℤ) → Opens IsKeyed (bind_to env vm cid) IsKeyed
  unfolding bind_to set_bind
  bind_to-Opens vm cid = record { after = λ w p. p }

  accept_session-Opens : Opens IsUnsent (accept_session env) IsKeyed
  unfolding accept_session
  accept_session-Opens =
      bind-Opens (Keeps-Opens (λ w p. p.0) (read-Keeps env IsUnsent IsUnsent-Listens)) λ init.
        bind-Opens
          (Keeps-Opens (λ w p. p.0)
            (raise_if-Keeps IsUnsent (not (init.type == "session_init")) _ tt))
          λ _.
            bind-Opens
              (Keeps-Opens (λ w p. p.0)
                (raise_if-Keeps IsUnsent (not (truthy (or_null (get "session_key" init.payload)))) _
                  tt))
              λ _.
                bind-Opens (set_session_key-Opens (text (or_null (get "session_key" init.payload))))
                  λ _.
                    bind-Opens
                      (Keeps-Opens (λ w p. p.0.0)
                        (int_of-Keeps env IsKeyed (or_null (get "guest_cid" init.payload))))
                      λ cid. bind_to-Opens (text_at "vm_instance_id" init.payload) cid

  -- Where there was no key before, there is one now, and nothing was sent.
  pub ensure_key-Opened :
      (w : Wire) → w.mac.key ≡ none → IsUnsent w → Opened IsKeyed (ensure_key env w)
  unfolding ensure_key
  ensure_key-Opened w keyless p = of_test (has_key w.mac.key) (ap has_key keyless)
    where
      of_test :
          (b : Bool)
          → b ≡ false
          → Opened {A = Unit {0}} IsKeyed (if b then (ok tt, w) else accept_session env w)
      of_test true e = absurd (cc e)
      of_test false e = accept_session-Opens.after w p
