-- ===== src/Runtime/Loop.antt =====
-- The loop of the guest's run keeps what its turns keep, and its fuel is enough, since every turn reads
-- a line.
use corvus_node.Prelude.{
  ℕ, zero, suc, ◌+◌, ◌<◌, String, ◌≡◌, refl, ap, sym, ◌∙◌, Bool-cases, inl, inr, not, List, [], ◌∷◌,
  length, arith, ◌==◌,
}
use corvus_node.Json.{Value}
use corvus_node.Protocol.{Envelope}
use corvus_node.Runtime.{
  Failure, GuestEnv, Wire, Line, Action, Result, ok, err, raise, read_from, accept_line, ◌>>=◌,
  read,
}
use corvus_node.Runtime.Turn.{ensure_key, greet, on_query, on_inbound, run_loop, run}
use corvus_node.Runtime.Keeps.{
  Ensures, Keeps, Base, weaken, pure-Keeps, raise_if-Keeps, greet-Keeps, handshake-Keeps,
  one_turn-Keeps,
}

accept_line-inbox : (env : GuestEnv) (l : Line) (w : Wire) → (accept_line env l w).1.inbox ≡ w.inbox
unfolding accept_line
accept_line-inbox env l w = ground arith

-- If a message was read, a line is gone.
abbrev ReadsOne {ℓ} : {A : Type ℓ} → Wire → Result Failure A × Wire → Type 0
ReadsOne w (ok a, v) = suc (length v.inbox) ≡ length w.inbox
ReadsOne w (err e, v) = Unit

read-length : (env : GuestEnv) (w : Wire) → ReadsOne w (read env w)
unfolding read
read-length env w = from w.inbox refl
  where
    of_line :
        (o : Result Failure Envelope × Wire)
        → suc (length o.1.inbox) ≡ length w.inbox
        → ReadsOne w o
    of_line (ok a, v) e = e
    of_line (err x, v) e = tt

    from : (ls : List Line) → w.inbox ≡ ls → ReadsOne w (read_from env ls w)
    from [] e = tt
    from (l ∷ ls) e = of_line _ (
        ap (λ (t : List Line). suc (length t)) (accept_line-inbox env l (record w { inbox = ls }))
        ∙ sym (ap length e))

module _ (P : Wire → Type 0) (env : GuestEnv) (base : Base P env) where
  open base use {reads}

  -- As `Keeps`, with fewer lines to come than the fuel.
  pub record Within {ℓ} {A : Type ℓ} (n : ℕ) (m : Action A) : Type ℓ where
    pub after : (w : Wire) → length w.inbox < n → P w → Ensures P w (m w)

  bind-Within :
      {n : ℕ} {A B : Type 0} {m : Action A} {f : A → Action B}
      → Keeps P m
      → ((a : A) → Within n (f a))
      → Within n (m >>= f)
  bind-Within {n} {A} {B} {m} {f} h k = record { after = λ w lt p. go w (m w) lt (h.after w p) }
    where
      go :
          (w : Wire) (o : Result Failure A × Wire)
          → length w.inbox < n
          → Ensures P w o
          → Ensures P {A = B} w (elim o.0 [ ok a ↦ f a o.1 | err e ↦ raise e o.1 ])
      go w (ok a, v) lt (p, le) = weaken P w v (f a v) le ((k a).after v (omega (arith, lt, le)) p)
      go w (err e, v) lt q = q

  read_bind-Within :
      {n : ℕ} {B : Type 0} {f : Envelope → Action B}
      → ((m : Envelope) → Within n (f m))
      → Within (suc n) (read env >>= f)
  read_bind-Within {n} {B} {f} k = record {
    after = λ w lt p. go w (read env w) lt (read-length env w) (reads.after w p);
  }
    where
      go :
          (w : Wire) (o : Result Failure Envelope × Wire)
          → length w.inbox < suc n
          → ReadsOne w o
          → Ensures P w o
          → Ensures P {A = B} w (elim o.0 [ ok a ↦ f a o.1 | err e ↦ raise e o.1 ])
      go w (ok a, v) lt one (p, le) =
          weaken P w v (f a v) le ((k a).after v (omega (arith, lt, one)) p)
      go w (err e, v) lt one q = q

  Keeps-Within : {n : ℕ} {A : Type 0} {m : Action A} → Keeps P m → Within n m
  Keeps-Within h = record { after = λ w lt p. h.after w p }

  on_query-Within :
      (n : ℕ) (tools : List String) (history : List Value)
      (rest : String → List Value → Action String) (inbound : Envelope)
      → ((answer : String) (messages : List Value) → Within n (rest answer messages))
      → Within n (on_query env tools history rest inbound)
  unfolding on_query
  on_query-Within n tools history rest inbound k =
      bind-Within (raise_if-Keeps P (not (inbound.type == "user_query")) _ tt) λ _.
        bind-Within (one_turn-Keeps P env base tools _ _ history)
          λ answered. k answered.0 answered.1

  on_inbound-Within :
      (n : ℕ) (tools : List String) (last : String) (history : List Value)
      (rest : String → List Value → Action String) (inbound : Envelope)
      → ((answer : String) (messages : List Value) → Within n (rest answer messages))
      → Within n (on_inbound env tools last history rest inbound)
  on_inbound-Within n tools last history rest inbound k =
      elim (Bool-cases (inbound.type == "session_end")) [
        | inl h ↦ rw h (Keeps-Within (pure-Keeps P last))
        | inr h ↦ rw h (on_query-Within n tools history rest inbound k)
      ]

  run_loop-Within :
      (fuel : ℕ) (tools : List String) (last : String) (history : List Value)
      → Within fuel (run_loop env fuel tools last history)
  unfolding run_loop
  run_loop-Within zero tools last history = record { after = λ w lt p. absurd (omega (arith, lt)) }
  run_loop-Within (suc fuel) tools last history = read_bind-Within λ inbound.
      on_inbound-Within fuel tools last history _ inbound
        λ answer messages. run_loop-Within fuel tools answer messages

  -- What a run does once the key is there.
  pub greeted-Within :
      (fuel : ℕ) (tools : List String)
      → Within fuel (greet env tools >>= λ tools'. run_loop env fuel tools' "" [])
  greeted-Within fuel tools =
      bind-Within (greet-Keeps P env base tools) λ tools'. run_loop-Within fuel tools' "" []

  -- So does a whole run, and it never comes to the end of its fuel.
  pub run-Keeps : Keeps P (ensure_key env) → (tools : List String) → Keeps P (run env tools)
  unfolding run
  run-Keeps key tools = record {
    after = λ w p.
        (bind-Within {n = length w.inbox + 1} (handshake-Keeps P env base key tools)
            λ tools'. run_loop-Within (length w.inbox + 1) tools' "" []).after
          w (omega arith) p;
  }
