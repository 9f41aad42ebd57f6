-- ===== src/Runtime/Keeps.antt =====
-- A property of the wire that reading, asking and taking the key keep is kept by what the runtime
-- does in a turn.
use corvus_node.Prelude.{
  ◌≤◌, String, ◌≡◌, refl, Bool, true, false, not, Option, none, some, List, [], ◌∷◌, length, elem,
  arith, ◌==◌,
}
use corvus_node.Json.{Value, obj, Fields, get}
use corvus_node.Protocol.{EngineId, MessageClass, allowed_outbound}
use corvus_node.Runtime.{
  GuestEnv, Wire, Action, Result, ok, err, Failure, exhausted, invalid, closed, bad_utf8, bad_line,
  bad_mac, value_error, type_error, runtime_error, pure, raise, raise_if, or_raise, ◌>>=◌, read,
  ask,
}
use corvus_node.Runtime.Engines.{run_tool, respond, infer}
use corvus_node.Runtime.Turn.{
  ensure_key, reply_tools, greet, handshake, run_calls, second_answer, one_turn,
}

-- What the stream and the Node may make the runtime raise: not the end of the fuel, and no refusal of
-- a message of its own.
abbrev pub IsFair : Failure → Type 0
IsFair exhausted = ⊥
IsFair (invalid e) = ⊥
IsFair closed = Unit
IsFair bad_utf8 = Unit
IsFair (bad_line e) = Unit
IsFair (bad_mac e) = Unit
IsFair (runtime_error t) = Unit
IsFair type_error = Unit
IsFair value_error = Unit

module _ (P : Wire → Type 0) where
  -- After the action the property holds again, no line has been added, and what is raised is fair.
  abbrev pub Ensures {ℓ} : {A : Type ℓ} → Wire → Result Failure A × Wire → Type 0
  Ensures w (ok a, w') = P w' × (length w'.inbox ≤ length w.inbox)
  Ensures w (err e, w') = P w' × IsFair e

  pub record Keeps {ℓ} {A : Type ℓ} (m : Action A) : Type ℓ where
    pub after : (w : Wire) → P w → Ensures w (m w)

  pub weaken {ℓ} :
      {A : Type ℓ} (w w' : Wire) (o : Result Failure A × Wire)
      → length w'.inbox ≤ length w.inbox
      → Ensures w' o
      → Ensures w o
  weaken w w' (ok a, v) le (p, le') = (p, omega (arith, le, le'))
  weaken w w' (err e, v) le q = q

  Ensures-bind {ℓ κ} :
      {A : Type ℓ} {B : Type κ} (f : A → Action B) (w : Wire) (o : Result Failure A × Wire)
      → Ensures w o
      → ((a : A) → Keeps (f a))
      → Ensures {A = B} w (elim o.0 [ ok a ↦ f a o.1 | err e ↦ raise e o.1 ])
  Ensures-bind f w (ok a, v) (p, le) k = weaken w v (f a v) le ((k a).after v p)
  Ensures-bind f w (err e, v) q k = q

  pub bind-Keeps {ℓ κ} :
      {A : Type ℓ} {B : Type κ} {m : Action A} {f : A → Action B}
      → Keeps m
      → ((a : A) → Keeps (f a))
      → Keeps (m >>= f)
  bind-Keeps {m} {f} h k = record { after = λ w p. Ensures-bind f w (m w) (h.after w p) k }

  pub pure-Keeps {ℓ} : {A : Type ℓ} (a : A) → Keeps (pure a)
  pure-Keeps a = record { after = λ w p. (p, omega arith) }

  pub raise-Keeps {ℓ} : {A : Type ℓ} (e : Failure) → IsFair e → Keeps (raise {A = A} e)
  raise-Keeps e h = record { after = λ w p. (p, h) }

  pub raise_if-Keeps : (b : Bool) (e : Failure) → IsFair e → Keeps (raise_if b e)
  raise_if-Keeps true e h = record { after = λ w p. (p, h) }
  raise_if-Keeps false e h = record { after = λ w p. (p, omega arith) }

  pub or_raise-Keeps {ℓ} :
      {A : Type ℓ} (e : Failure) (o : Option A) → IsFair e → Keeps (or_raise e o)
  or_raise-Keeps e none h = raise-Keeps e h
  or_raise-Keeps e (some a) h = pure-Keeps a

  -- Reading and asking keep the property.
  pub record Base (env : GuestEnv) : Type 0 where
    pub reads : Keeps (read env)
    pub asks :
        (origin : Option String) (source : EngineId) (class : MessageClass) (type : String)
        (payload : Fields)
        → elem type (allowed_outbound source) ≡ true
        → Keeps (ask env origin source class type payload)

  module _ (env : GuestEnv) (base : Base env) where
    open base use {reads, asks}

    run_tool-Keeps :
        (origin : Option String) (name : String) (arguments : Fields) (call_id : String)
        → Keeps (run_tool env origin name arguments call_id)
    unfolding run_tool allowed_outbound elem
    run_tool-Keeps origin name arguments call_id =
        bind-Keeps (asks _ _ _ _ _ refl)
          λ resp. bind-Keeps (asks _ _ _ _ _ refl) λ ack. pure-Keeps _

    respond-Keeps : (origin : Option String) (t : String) → Keeps (respond env origin t)
    unfolding respond allowed_outbound elem
    respond-Keeps origin t = bind-Keeps (asks _ _ _ _ _ refl) λ ack. pure-Keeps tt

    infer-Keeps :
        (origin : Option String) (messages schema : List Value)
        → Keeps (infer env origin messages schema)
    unfolding infer allowed_outbound elem
    infer-Keeps origin messages schema =
        bind-Keeps (asks _ _ _ _ _ refl)
          λ resp. bind-Keeps (raise_if-Keeps _ _ tt) λ _. pure-Keeps resp.payload

    reply_tools-Keeps : (tools : List String) (v : Option Value) → Keeps (reply_tools tools v)
    reply_tools-Keeps tools none = pure-Keeps tools
    reply_tools-Keeps tools (some v) = bind-Keeps (or_raise-Keeps _ _ tt) λ names. pure-Keeps _

    pub greet-Keeps : (tools : List String) → Keeps (greet env tools)
    unfolding greet allowed_outbound elem
    greet-Keeps tools = bind-Keeps (asks _ _ _ _ _ refl) λ resp.
        bind-Keeps (raise_if-Keeps (not (resp.type == "handshake_ok")) _ tt)
          λ _. reply_tools-Keeps tools (get "allowed_tools" resp.payload)

    pub handshake-Keeps :
        Keeps (ensure_key env) → (tools : List String) → Keeps (handshake env tools)
    unfolding handshake
    handshake-Keeps key tools = bind-Keeps key λ _. greet-Keeps tools

    run_calls-Keeps :
        (origin : Option String) (calls messages : List Value)
        → Keeps (run_calls env origin calls messages)
    unfolding run_calls
    run_calls-Keeps origin [] messages = pure-Keeps messages
    run_calls-Keeps origin (obj call ∷ calls) messages =
        bind-Keeps (run_tool-Keeps origin _ _ _) λ result. run_calls-Keeps origin calls _
    run_calls-Keeps origin (_ ∷ calls) messages = raise-Keeps type_error tt

    second_answer-Keeps :
        (origin : Option String) (called : Bool) (first : Fields) (messages : List Value)
        → Keeps (second_answer env origin called first messages)
    second_answer-Keeps origin true first messages = infer-Keeps origin messages []
    second_answer-Keeps origin false first messages = pure-Keeps first

    pub one_turn-Keeps :
        (tools : List String) (user_text : String) (origin : Option String) (history : List Value)
        → Keeps (one_turn env tools user_text origin history)
    unfolding one_turn
    one_turn-Keeps tools user_text origin history = bind-Keeps (infer-Keeps origin _ _) λ first.
        bind-Keeps (or_raise-Keeps _ _ tt) λ calls.
          bind-Keeps (run_calls-Keeps origin calls _) λ messages.
            bind-Keeps (second_answer-Keeps origin _ first messages)
              λ final. bind-Keeps (respond-Keeps origin _) λ _. pure-Keeps _
