-- ===== src/Runtime/Run.antt =====
-- What a whole run of the guest guarantees: it ends, what it sends the Node's table of types has, and
-- the Node's end of the hop accepts it.
use corvus_node.Prelude.{
  String, ◌≡◌, refl, ap, sym, ◌∙◌, true, false, none, List, [], elem, All, All-append, arith,
  eq_iff, ◌⊎◌, inl, inr,
}
use corvus_node.Protocol.{
  Envelope, EngineId, loop, engine1, engine2, engine3, engine4, node, to_node, allowed_outbound,
}
use corvus_node.Protocol.Validator.{validate_outbound, valid, validate_outbound_iff, engine_eq_iff}
use corvus_node.Protocol.Mac.{sign}
use corvus_node.Policy.{path_check}
use corvus_node.Runtime.{Failure, GuestEnv, Wire, Result, ok, err, send}
use corvus_node.Runtime.Turn.{run, ensure_key}
use corvus_node.Runtime.Loop.{run-Keeps}
use corvus_node.Runtime.Keeps.{IsFair, Ensures, Keeps}
use corvus_node.Runtime.Steady.{Steady, base_of, ensure_key-Keeps}

-- The run ended, and not by a refusal of the guest's own check.
abbrev pub EndsFairly {ℓ} : {A : Type ℓ} → Result Failure A × Wire → Type 0
EndsFairly (ok a, w) = Unit
EndsFairly (err e, w) = IsFair e

module _ {ℓ} {A : Type ℓ} (P : Wire → Type 0) (w : Wire) where
  pub ensured : (o : Result Failure A × Wire) → Ensures P w o → P o.1
  ensured (ok a, v) q = q.0
  ensured (err e, v) q = q.0

anything : (env : GuestEnv) → Steady env (λ w. Unit)
anything env = record {
  listens = record { take = λ w ls p. tt; check = λ w m mac h p. tt };
  draw = λ w n p. tt;
  sends = λ w m e h p. tt;
}

pub any_key : (env : GuestEnv) → Keeps (λ w. Unit) (ensure_key env)
any_key env = ensure_key-Keeps env _ (anything env).listens λ w mac p. tt

-- The Node's table of types has the message, and it goes to the Node.
abbrev pub IsLegal : Envelope → Type 0
IsLegal m = (path_check m.source_engine m.type ≡ none) × (m.destination ≡ to_node)

-- Only the loop may send a handshake.
handshake-loop :
    (source : EngineId) → source ≡ loop ⊎ (elem "handshake" (allowed_outbound source) ≡ false)
unfolding allowed_outbound elem
handshake-loop loop = inl refl
handshake-loop engine1 = inr refl
handshake-loop engine2 = inr refl
handshake-loop engine3 = inr refl
handshake-loop engine4 = inr refl
handshake-loop node = inr refl

type_in :
    (source : EngineId) (type : String)
    → elem type (allowed_outbound source) ≡ true
    → type ≡ "handshake"
    → source ≡ loop
type_in source type h e = elim (handshake-loop source) [
  | inl l ↦ l
  | inr n ↦ absurd (ground (arith, sym h ∙ ap (λ t. elem t (allowed_outbound source)) e ∙ n))
]

allowed-path_check :
    (source : EngineId) (type : String)
    → elem type (allowed_outbound source) ≡ true
    → path_check source type ≡ none
unfolding path_check
allowed-path_check source type h =
    ground (arith, eq_iff type "handshake", engine_eq_iff source loop, type_in source type h)

-- What is sent is legal, so far.
abbrev AllLegal : Wire → Type 0
AllLegal w = All IsLegal w.sent

send-IsLegal :
    (env : GuestEnv) (w : Wire) (m : Envelope) (e : EngineId)
    → validate_outbound m e ≡ valid
    → AllLegal w
    → AllLegal (send env m w).1
unfolding send sign
send-IsLegal env w m e h p =
    let (own, may, goes) = (validate_outbound_iff m e).0 h in
    All-append IsLegal w.sent _ p
      ((ground (arith, goes, allowed-path_check m.source_engine m.type may)), tt)

legal_steady : (env : GuestEnv) → Steady env AllLegal
legal_steady env = record {
  listens = record { take = λ w ls p. p; check = λ w m mac h p. p };
  draw = λ w n p. p;
  sends = send-IsLegal env;
}

-- From a wire on which nothing was sent, all that a run of the guest sends, whatever it reads,
-- goes to the Node and passes the Node's table of which engine may send which type.
pub run-IsLegal :
    (env : GuestEnv) (tools : List String) (w : Wire)
    → w.sent ≡ []
    → All IsLegal (run env tools w).1.sent
run-IsLegal env tools w e =
    let base = base_of env _ (legal_steady env) in
    let key = ensure_key-Keeps env _ (legal_steady env).listens λ v mac p. p in
    ensured AllLegal w _ ((run-Keeps _ env base key tools).after w (rw e tt))
