-- ===== src/Runtime/Delivery.antt =====
-- The Node's hop accepts all that the guest sends in a run, in the order in which it is sent.
use corvus_node.Prelude.{
  String, ◌≡◌, ◌≢◌, refl, ap, sym, ◌∙◌, none, some, ◌+◌, length, inl, inr, ◌⊎◌, List, [], ◌∷◌, ◌++◌,
  arith,
}
use mathlib.Core.Path.{subst}
use corvus_node.Prelude.Int.{pos, negsuc, ◌+ℤ◌}
use corvus_node.Protocol.{Envelope, EngineId}
use corvus_node.Protocol.Validator.{validate_outbound, valid}
use corvus_node.Protocol.Mac.{
  Digests, HopMac, Verified, accepted, refused, uncomparable, verify, sign, new_hop,
}
use corvus_node.Protocol.Mac.Hop.{InStep, receive, received, verify-accepted, verify-sign, key-sign}
use corvus_node.Runtime.{GuestEnv, Wire, Action, Failure, Result, ok, err, raise, ◌>>=◌, send}
use corvus_node.Runtime.Turn.{ensure_key, greet, handshake, run_loop, run}
use corvus_node.Runtime.Loop.{greeted-Within}
use corvus_node.Runtime.Keeps.{Ensures}
use corvus_node.Runtime.Steady.{Steady, base_of}
use corvus_node.Runtime.Run.{ensured, any_key}
use corvus_node.Runtime.Key.{IsKeyed, Opened, ensure_key-Opened}

receive-append :
    (d : Digests) (ms : List Envelope) (h : HopMac) (m : Envelope) {g f : HopMac}
    → receive d h ms ≡ accepted g
    → verify d g m ≡ accepted f
    → receive d h (ms ++ (m ∷ [])) ≡ accepted f
unfolding receive
receive-append d [] h m p q = ground arith
receive-append d (x ∷ xs) h m {g} {f} p q =
    of_first (verify d h x) p (λ k r. receive-append d xs k m {g = g} {f = f} r q)
  where
    of_first :
        (v : Verified)
        → elim v [
          | refused e h ↦ refused e h
          | uncomparable h ↦ uncomparable h
          | accepted k ↦ receive d k xs
        ]
          ≡ accepted g
        → ((k : HopMac) → receive d k xs ≡ accepted g → receive d k (xs ++ (m ∷ [])) ≡ accepted f)
        → elim v [
          | refused e h ↦ refused e h
          | uncomparable h ↦ uncomparable h
          | accepted k ↦ receive d k (xs ++ (m ∷ []))
        ]
          ≡ accepted f
    of_first (refused e h) p rest = cc
    of_first (uncomparable h) p rest = cc
    of_first (accepted k) p rest = rest k p

-- The hop `node` accepted all of it, and is then in step with the sender.
pub record Delivered (d : Digests) (node s : HopMac) (ms : List Envelope) : Type 0 where
  pub last : HopMac
  pub took : receive d node ms ≡ accepted last
  pub in_step : InStep s last

-- A hop with this key and binding that has neither signed nor taken a message.
abbrev pub opened : HopMac → HopMac
opened h = record h { out_seq = 0; in_seq = negsuc 0 }

opened-sign : (d : Digests) (h : HopMac) (m : Envelope) → opened (sign d h m).1 ≡ opened h
unfolding sign
opened-sign d h m = ground arith

-- Nothing was sent, or the guest has a key, and the Node's end of the hop with this key and this
-- binding, fresh as it is made, accepts all that was sent, in that order, and is then in step.
abbrev pub IsDelivered : Digests → Wire → Type 0
IsDelivered d w =
    (w.sent ≡ []) ⊎ ((k : String) × (w.mac.key ≡ some k) × Delivered d (opened w.mac) w.mac w.sent)

module _ (env : GuestEnv) (hmac_nonempty : (k t : String) → env.digests.hmac k t ≢ "") where
  module _ (node : HopMac) (k : String) where
    abbrev Arrives : Wire → Type 0
    Arrives w =
        Delivered env.digests node w.mac w.sent × (w.mac.key ≡ some k) × (opened w.mac ≡ node)

    check-Arrives :
        (w : Wire) (m : Envelope) (mac : HopMac)
        → verify env.digests w.mac m ≡ accepted mac
        → Arrives w
        → Arrives (record w { mac = mac })
    check-Arrives w m mac h (p, key, same) =
        subst
          (λ (g : HopMac).
            Delivered env.digests node g w.sent × (g.key ≡ some k) × (opened g ≡ node))
          (sym (verify-accepted env.digests w.mac m h).1)
          (
            record {
              last = p.last;
              took = p.took;
              in_step = record {
                key = p.in_step.key;
                vm_instance_id = p.in_step.vm_instance_id;
                guest_cid = p.in_step.guest_cid;
                next = p.in_step.next;
              };
            },
            key,
            same,
          )

    send-Arrives :
        (w : Wire) (m : Envelope) (e : EngineId)
        → validate_outbound m e ≡ valid
        → Arrives w
        → Arrives (send env m w).1
    unfolding send
    send-Arrives w m e h (p, key, same) =
        let one = verify-sign env.digests hmac_nonempty w.mac p.last m k p.in_step key in
        (
          record {
            last = received _ p.last;
            took = receive-append env.digests w.sent node _ p.took one.0;
            in_step = one.1;
          },
          key-sign env.digests w.mac m ∙ key,
          opened-sign env.digests w.mac m ∙ same,
        )

    pub steady_here : Steady env Arrives
    steady_here = record {
      listens = record { take = λ w ls p. p; check = check-Arrives };
      draw = λ w n p. p;
      sends = send-Arrives;
    }

  Arrives-IsDelivered :
      (node : HopMac) (k : String) (w : Wire) → Arrives node k w → IsDelivered env.digests w
  Arrives-IsDelivered node k w (p, key, same) =
      inr (k, key, subst (λ (n : HopMac). Delivered env.digests n w.mac w.sent) (sym same) p)

  keyed-Arrives : (w : Wire) (p : IsKeyed w) → Arrives (opened w.mac) p.1.0 w
  unfolding receive ◌+ℤ◌
  keyed-Arrives w p = (
    record {
      last = opened w.mac;
      took = rw (p.0.0) refl;
      in_step = record {
        key = refl;
        vm_instance_id = refl;
        guest_cid = refl;
        next = ap pos (sym p.0.1);
      };
    },
    p.1.1,
    refl,
  )

  -- What a run does once it has tried to take a key.
  after_key :
      (tools : List String) (w : Wire) (o : Result Failure (Unit {0}) × Wire)
      → Opened IsKeyed o
      → Ensures (λ v. Unit) w o
      → IsDelivered env.digests
          (elim o.0 as (λ r. Result Failure String × Wire) [
            | ok u ↦
                (greet env tools >>= λ tools'. run_loop env (length w.inbox + 1) tools' "" []) o.1
            | err e ↦ raise {A = String} e o.1
          ]).1
  after_key tools w (ok u, v) p (q, le) =
      let node = opened v.mac in
      let k = p.1.0 in
      let rest : Action String =
        greet env tools >>= λ tools'. run_loop env (length w.inbox + 1) tools' "" [] in
      let base = base_of env _ (steady_here node k) in
      let kept =
        (greeted-Within _ env base (length w.inbox + 1) tools).after v (omega (arith, le))
          (keyed-Arrives v p) in
      Arrives-IsDelivered node k (rest v).1 (ensured (Arrives node k) v (rest v) kept)
  after_key tools w (err e, v) p q = inl p

  bind_assoc :
      (o : Result Failure (Unit {0}) × Wire) (f : Action (List String))
      (g : List String → Action String)
      → (elim (elim o.0 as (λ r. Result Failure (List String) × Wire) [
        | ok u ↦ f o.1
        | err e ↦ raise {A = List String} e o.1
      ]).0
          as (λ r. Result Failure String × Wire) [
            | ok a ↦
                g a
                  (elim o.0 as (λ r. Result Failure (List String) × Wire) [
                    | ok u ↦ f o.1
                    | err e ↦ raise {A = List String} e o.1
                  ]).1
            | err e ↦
                raise {A = String} e
                  (elim o.0 as (λ r. Result Failure (List String) × Wire) [
                    | ok u ↦ f o.1
                    | err e ↦ raise {A = List String} e o.1
                  ]).1
          ])
        ≡ elim o.0 as (λ r. Result Failure String × Wire) [
          | ok u ↦ (f >>= g) o.1
          | err e ↦ raise {A = String} e o.1
        ]
  bind_assoc (ok u, v) f g = refl
  bind_assoc (err e, v) f g = refl

  -- Where no HMAC is empty, after a run of the guest on a wire as it is made, without a key and
  -- with nothing sent, whatever it reads, nothing was sent, or the guest has a key, and the Node's
  -- end of the hop with this key and this binding, fresh as it is made, accepts all that was sent,
  -- in that order, and is then in step with the guest's.
  pub receive-run :
      (tools : List String) (w : Wire)
      → w.mac ≡ new_hop none "" (pos 0)
      → w.sent ≡ []
      → IsDelivered env.digests (run env tools w).1
  unfolding run handshake new_hop
  receive-run tools w fresh unsent =
      subst (λ (o : Result Failure String × Wire). IsDelivered env.digests o.1)
        (sym (
          bind_assoc (ensure_key env w) (greet env tools)
            (λ tools'. run_loop env (length w.inbox + 1) tools' "" [])))
        (after_key tools w (ensure_key env w)
          (ensure_key-Opened env w (ap (λ (h : HopMac). h.key) fresh)
            (unsent, ap (λ (h : HopMac). h.out_seq) fresh))
          ((any_key env).after w tt))
