-- ===== src/Runtime/Steady.antt =====
-- A property of the wire that drawing, taking a line and sending a valid message keep is kept by all
-- that the runtime builds on.
use corvus_node.Prelude.{
  ℕ, ◌+◌, String, ◌≡◌, refl, sym, Bool, true, false, not, Option, none, some, List, [], ◌∷◌, elem,
  arith, ◌==◌, Bool-cases, inl, inr, if◌then◌else◌,
}
use mathlib.Core.Path.{subst}
use corvus_node.Prelude.Int.{ℤ, pos}
use corvus_node.Json.{
  Fields, field, end, Value, num, boolean, str, float, null, arr, obj, nil, cons, truthy, get,
}
use corvus_node.Json.Text.{text_at, text}
use corvus_node.Protocol.{
  Envelope, EngineId, MessageClass, Decoded, decoded, codec_error, allowed_outbound,
}
use corvus_node.Protocol.Validator.{valid, validate_outbound, validate_outbound_iff}
use corvus_node.Protocol.Mac.{HopMac, Verified, accepted, refused, uncomparable, verify, set_key}
use corvus_node.Protocol.Mac.Hop.{verify-refused, verify-uncomparable}
use corvus_node.Policy.{or_null}
use corvus_node.Runtime.{
  Failure, GuestEnv, Wire, Line, line, not_utf8, too_long, Result, ok, err, pure, accept_line, read,
  read_from, send, request, compose, ask, bad_mac, bad_line, set_session_key, bind_to, int_of,
  value_error, type_error,
}
use corvus_node.Runtime.Turn.{ensure_key, accept_session, has_key}
use corvus_node.Runtime.Keeps.{
  Ensures, Keeps, Base, bind-Keeps, pure-Keeps, raise-Keeps, raise_if-Keeps, or_raise-Keeps, weaken,
}

-- A property that is kept by what reading does.
pub record Listens (env : GuestEnv) (P : Wire → Type 0) : Type 0 where
  pub take : (w : Wire) (ls : List Line) → P w → P (record w { inbox = ls })
  pub check :
      (w : Wire) (m : Envelope) (mac : HopMac)
      → verify env.digests w.mac m ≡ accepted mac
      → P w
      → P (record w { mac = mac })

-- A property that is kept by what the wire does.
pub record Steady (env : GuestEnv) (P : Wire → Type 0) : Type 0 where
  pub listens : Listens env P
  pub draw : (w : Wire) (n : ℕ) → P w → P (record w { draws = n })
  pub sends :
      (w : Wire) (m : Envelope) (e : EngineId)
      → validate_outbound m e ≡ valid
      → P w
      → P (send env m w).1

-- The verdict of `verify` on what was read, as `accept_line` has it.
abbrev pub taken : Wire → Envelope → Verified → Result Failure Envelope × Wire
taken w m (refused e mac) = (err (bad_mac e), record w { mac = mac })
taken w m (uncomparable mac) = (err type_error, record w { mac = mac })
taken w m (accepted mac) = (ok m, record w { mac = mac })

abbrev pub decoding : GuestEnv → Wire → Decoded → Result Failure Envelope × Wire
decoding env w (codec_error e) = (err (bad_line e), w)
decoding env w (decoded m) = taken w m (verify env.digests w.mac m)

pub accept_line-decoding :
    (env : GuestEnv) (text : String) (w : Wire)
    → accept_line env (line text) w ≡ decoding env w (env.decode_line text)
unfolding accept_line
accept_line-decoding env text w = ground arith

module _ (env : GuestEnv) (P : Wire → Type 0) where
  pub int_of-Keeps : (v : Value) → Keeps P (int_of env v)
  int_of-Keeps (num n) = pure-Keeps P n
  int_of-Keeps (boolean b) = pure-Keeps P _
  int_of-Keeps (str s) = elim (Bool-cases (s == "")) [
    | inl h ↦ rw h (pure-Keeps P (pos 0))
    | inr h ↦ rw h (or_raise-Keeps P value_error _ tt)
  ]
  int_of-Keeps (float s) = or_raise-Keeps P value_error _ tt
  int_of-Keeps null = pure-Keeps P (pos 0)
  int_of-Keeps (arr nil) = pure-Keeps P (pos 0)
  int_of-Keeps (arr (cons v vs)) = raise-Keeps P type_error tt
  int_of-Keeps (obj end) = pure-Keeps P (pos 0)
  int_of-Keeps (obj (field k v fs)) = raise-Keeps P type_error tt

module _ (env : GuestEnv) (P : Wire → Type 0) (listens : Listens env P) where
  same_mac : (w : Wire) (mac : HopMac) → mac ≡ w.mac → P w → P (record w { mac = mac })
  same_mac w mac e p = subst (λ (g : HopMac). P (record w { mac = g })) (sym e) p

  taken-Ensures :
      (w : Wire) (m : Envelope) (v : Verified)
      → verify env.digests w.mac m ≡ v
      → P w
      → Ensures P w (taken w m v)
  taken-Ensures w m (refused e mac) h p = (same_mac w mac (verify-refused _ w.mac m h) p, tt)
  taken-Ensures w m (uncomparable mac) h p =
      (same_mac w mac (verify-uncomparable _ w.mac m h) p, tt)
  taken-Ensures w m (accepted mac) h p = (listens.check w m mac h p, omega arith)

  decoding-Ensures : (w : Wire) (d : Decoded) → P w → Ensures P w (decoding env w d)
  decoding-Ensures w (codec_error e) p = (p, tt)
  decoding-Ensures w (decoded m) p = taken-Ensures w m _ refl p

  accept_line-Keeps : (l : Line) → Keeps P (accept_line env l)
  unfolding accept_line
  accept_line-Keeps not_utf8 = record { after = λ w p. (p, tt) }
  accept_line-Keeps too_long = record { after = λ w p. (p, tt) }
  accept_line-Keeps (line text) = record {
    after =
        λ w p. subst (Ensures P w) (sym (accept_line-decoding env text w)) (decoding-Ensures w _ p);
  }

  read_from-Ensures :
      (w : Wire) (ls : List Line) → w.inbox ≡ ls → P w → Ensures P w (read_from env ls w)
  read_from-Ensures w [] e p = (p, tt)
  read_from-Ensures w (l ∷ ls) e p =
      weaken P w (record w { inbox = ls }) _ (rw e (omega arith))
        ((accept_line-Keeps l).after _ (listens.take w ls p))

  pub read-Keeps : Keeps P (read env)
  unfolding read
  read-Keeps = record { after = λ w p. read_from-Ensures w w.inbox refl p }

  module _ (rekey : (w : Wire) (mac : HopMac) → P w → P (record w { mac = mac })) where
    set_session_key-Keeps : (key : String) → Keeps P (set_session_key env key)
    unfolding set_session_key
    set_session_key-Keeps key = record { after = λ w p. of_hex w (env.from_hex key) p }
      where
        of_hex :
            (w : Wire) (o : Option String)
            → P w
            → Ensures P {A = Unit {0}} w (elim o [
              | none ↦ (err value_error, w)
              | some hex ↦ (ok tt, record w { mac = set_key hex w.mac })
            ])
        of_hex w none p = (p, tt)
        of_hex w (some hex) p = (rekey w _ p, omega arith)

    bind_to-Keeps : (vm : String) (cid : ℤ) → Keeps P (bind_to env vm cid)
    unfolding bind_to
    bind_to-Keeps vm cid = record { after = λ w p. (rekey w _ p, omega arith) }

    accept_session-Keeps : Keeps P (accept_session env)
    unfolding accept_session
    accept_session-Keeps = bind-Keeps P read-Keeps λ init.
        bind-Keeps P (raise_if-Keeps P (not (init.type == "session_init")) _ tt) λ _.
          bind-Keeps P
            (raise_if-Keeps P (not (truthy (or_null (get "session_key" init.payload)))) _ tt)
            λ _.
              bind-Keeps P (set_session_key-Keeps (text (or_null (get "session_key" init.payload))))
                λ _.
                  bind-Keeps P (int_of-Keeps env P (or_null (get "guest_cid" init.payload)))
                    λ cid. bind_to-Keeps (text_at "vm_instance_id" init.payload) cid

    pub ensure_key-Keeps : Keeps P (ensure_key env)
    unfolding ensure_key
    ensure_key-Keeps = record { after = λ w p. of_key w (has_key w.mac.key) p }
      where
        of_key :
            (w : Wire) (b : Bool)
            → P w
            → Ensures P {A = Unit {0}} w (if b then (ok tt, w) else accept_session env w)
        of_key w true p = (p, omega arith)
        of_key w false p = accept_session-Keeps.after w p

module _ (env : GuestEnv) (P : Wire → Type 0) (steady : Steady env P) where
  send-Keeps : (m : Envelope) (e : EngineId) → validate_outbound m e ≡ valid → Keeps P (send env m)
  unfolding send
  send-Keeps m e h = record { after = λ w p. (steady.sends w m e h p, omega arith) }

  request-Keeps :
      (m : Envelope) (e : EngineId) → validate_outbound m e ≡ valid → Keeps P (request env m e)
  unfolding request
  request-Keeps m e h = rw h (
      bind-Keeps P {A = Unit {0}} {m = pure tt} (pure-Keeps P tt)
        λ _. bind-Keeps P (send-Keeps m e h) λ _. read-Keeps env P steady.listens)

  ask-Keeps :
      (origin : Option String) (source : EngineId) (class : MessageClass) (type : String)
      (payload : Fields)
      → elem type (allowed_outbound source) ≡ true
      → Keeps P (ask env origin source class type payload)
  unfolding ask compose
  ask-Keeps origin source class type payload h = record {
    after = λ w p.
        weaken P w (record w { draws = w.draws + 2 }) _ (omega arith)
          ((request-Keeps _ source ((validate_outbound_iff _ source).1 (refl, h, refl))).after _
            (steady.draw w (w.draws + 2) p));
  }

  -- That is all the runtime builds on.
  pub base_of : Base P env
  base_of = record { reads = read-Keeps env P steady.listens; asks = ask-Keeps }
