-- ===== src/Protocol/Mac/Hop.antt =====
-- What the sequence numbers and MACs of `HopMac` guarantee: delivery in order, without replay.
use corvus_node.Prelude.{
  ℕ, ◌+◌, String, ◌≡◌, ◌≢◌, refl, ap, ◌∙◌, true, false, none, some, List, [], ◌∷◌, ◌==◌, arith,
  eq_iff, eq_refl, ◌⊎◌,
}
use corvus_node.Prelude.Int.{ℤ, pos, ◌+ℤ◌, ltb_ℤ, ◌==ℤ◌, ==ℤ_iff}
use mathlib.Core.Path.{subst}
use corvus_node.Protocol.{Envelope}
use corvus_node.Protocol.Mac.{
  Digests, HopMac, MacError, payload_digest, compute_mac, mac_material, sign, verify, check_mac,
  Verified, accepted, refused, uncomparable, replay,
}

-- Sender and receiver agree on key and binding, and the receiver waits for the sender's number.
pub record InStep (s r : HopMac) : Type 0 where
  pub key : r.key ≡ s.key
  pub vm_instance_id : r.vm_instance_id ≡ s.vm_instance_id
  pub guest_cid : r.guest_cid ≡ s.guest_cid
  pub next : r.in_seq +ℤ pos 1 ≡ pos s.out_seq

-- A receiver that has taken the message with number `n`.
abbrev pub received : ℤ → HopMac → HopMac
received n h = record h { in_seq = n }

-- Messages signed in turn.
unfoldable pub sign_all : Digests → HopMac → List Envelope → List Envelope × HopMac
sign_all d h [] = ([], h)
sign_all d h (m ∷ ms) =
    let (m', h') = sign d h m in let (rest, last) = sign_all d h' ms in (m' ∷ rest, last)

-- Messages verified in turn, up to the first that is refused.
unfoldable pub receive : Digests → HopMac → List Envelope → Verified
receive d h [] = accepted h
receive d h (m ∷ ms) = elim (verify d h m) [
  | refused e g ↦ refused e g
  | uncomparable g ↦ uncomparable g
  | accepted h' ↦ receive d h' ms
]

pub ltb-next : (n : ℤ) → ltb_ℤ n (n +ℤ pos 1) ≡ true
unfolding ◌+ℤ◌
ltb-next n = ground arith

ltb_self : (n : ℕ) → ltb_ℤ (pos n) (pos n) ≡ false
ltb_self n = ground arith

eq_self : (n : ℕ) → (pos n ==ℤ pos n) ≡ true
eq_self n = ground arith

module _ (d : Digests) where
  -- An accepted message has the awaited number, and the receiver moves on to it and changes
  -- nothing else.
  pub verify-accepted :
      (h : HopMac) (m : Envelope) {h' : HopMac}
      → verify d h m ≡ accepted h'
      → (m.seq ≡ h.in_seq +ℤ pos 1) × (h' ≡ received m.seq h)
  unfolding verify
  verify-accepted h m e = ground (arith, ==ℤ_iff m.seq (h.in_seq +ℤ pos 1))

  -- What is refused leaves the hop as it was.
  pub verify-refused :
      (h : HopMac) (m : Envelope) {e : MacError} {h' : HopMac}
      → verify d h m ≡ refused e h'
      → h' ≡ h
  unfolding verify check_mac
  verify-refused h m e = ground arith

  pub verify-uncomparable :
      (h : HopMac) (m : Envelope) {h' : HopMac} → verify d h m ≡ uncomparable h' → h' ≡ h
  unfolding verify check_mac
  verify-uncomparable h m e = ground arith

  -- A message that was accepted is refused as a replay when it comes again at once.
  pub verify_twice :
      (h : HopMac) (m : Envelope) {h' : HopMac}
      → verify d h m ≡ accepted h'
      → verify d h' m ≡ refused (replay m.seq) h'
  unfolding verify
  verify_twice h m e = rw ((verify-accepted h m e).1, ltb-next)

  -- What a receiver without a key accepts is a session_init.
  pub verify_without_key :
      (h : HopMac) (m : Envelope) {h' : HopMac}
      → h.key ≡ none
      → verify d h m ≡ accepted h'
      → m.type ≡ "session_init"
  unfolding verify
  verify_without_key h m k e = ground (arith, eq_iff m.type "session_init")

  -- What a receiver with a key accepts has the stated payload hash, and is a session_init or
  -- carries the HMAC of the message under this key, bound to the receiver's instance and context
  -- id.
  pub verify_with_key :
      (h : HopMac) (m : Envelope) (k : String) {h' : HopMac}
      → h.key ≡ some k
      → verify d h m ≡ accepted h'
      → (payload_digest d m.payload ≡ m.payload_sha256)
        × ((m.type ≡ "session_init") ⊎ (compute_mac d k m h.vm_instance_id h.guest_cid ≡ m.mac))
  unfolding verify
  verify_with_key h m k key e = ground (
    arith,
    eq_iff m.type "session_init",
    eq_iff (payload_digest d m.payload) m.payload_sha256,
    eq_iff (compute_mac d k m h.vm_instance_id h.guest_cid) m.mac,
  )

-- The numbers after `n` without a gap.
abbrev pub Consecutive : ℤ → List Envelope → Type 0
Consecutive n [] = Unit
Consecutive n (m ∷ ms) = (m.seq ≡ n +ℤ pos 1) × Consecutive m.seq ms

-- If a run of messages is accepted, their numbers are consecutive from the one that the receiver
-- awaited.
pub receive-Consecutive :
    (d : Digests) (ms : List Envelope) (h : HopMac) {h' : HopMac}
    → receive d h ms ≡ accepted h'
    → Consecutive h.in_seq ms
unfolding receive
receive-Consecutive d [] h e = tt
receive-Consecutive d (m ∷ ms) h {h'} e =
    receive_step (verify d h m) refl e (λ g q. receive-Consecutive d ms g {h' = h'} q)
  where
    receive_step :
        (v : Verified)
        → verify d h m ≡ v
        → elim v [
          | refused x g ↦ refused x g
          | uncomparable g ↦ uncomparable g
          | accepted g ↦ receive d g ms
        ]
          ≡ accepted h'
        → ((g : HopMac) → receive d g ms ≡ accepted h' → Consecutive g.in_seq ms)
        → Consecutive h.in_seq (m ∷ ms)
    receive_step (refused x g) p q rest = cc
    receive_step (uncomparable g) p q rest = cc
    receive_step (accepted g) p q rest =
        let moved = verify-accepted d h m p in
        (moved.0, subst (λ (f : HopMac). Consecutive f.in_seq ms) moved.1 (rest g q))

pub key-sign : (d : Digests) (s : HopMac) (m : Envelope) → (sign d s m).1.key ≡ s.key
unfolding sign
key-sign d s m = ground arith

next-received : (r : HopMac) (n : ℕ) → (received (pos n) r).in_seq +ℤ pos 1 ≡ pos (n + 1)
unfolding ◌+ℤ◌
next-received r n = ground arith

mac_material-mac :
    (m : Envelope) (x vm : String) (cid : ℤ)
    → mac_material (record m { mac = x }) vm cid ≡ mac_material m vm cid
unfolding mac_material
mac_material-mac m x vm cid = refl

module _ (d : Digests) (hmac_nonempty : (k t : String) → d.hmac k t ≢ "") where
  compute_mac-nonempty :
      (k : String) (m : Envelope) (vm : String) (cid : ℤ) → (compute_mac d k m vm cid == "") ≡ false
  unfolding compute_mac
  compute_mac-nonempty k m vm cid =
      let t = mac_material m vm cid in ground (arith, eq_iff (d.hmac k t) "", hmac_nonempty k t)

  compute_mac-mac :
      (k : String) (m : Envelope) (x vm : String) (cid : ℤ)
      → compute_mac d k (record m { mac = x }) vm cid ≡ compute_mac d k m vm cid
  unfolding compute_mac
  compute_mac-mac k m x vm cid = ap (d.hmac k) (mac_material-mac m x vm cid)

  -- A message that a peer signs under the shared key, the same binding and the awaited number is
  -- accepted, and the two stay in step.
  pub verify-sign :
      (s r : HopMac) (m : Envelope) (k : String)
      → InStep s r
      → s.key ≡ some k
      → (verify d r (sign d s m).0 ≡ accepted (received (pos s.out_seq) r))
        × InStep (sign d s m).1 (received (pos s.out_seq) r)
  unfolding verify sign check_mac
  verify-sign s r m k step key =
      let stamped : Envelope = record m {
        seq = pos s.out_seq;
        payload_sha256 = payload_digest d m.payload;
        mac = "";
      } in
      let tag : String = compute_mac d k stamped s.vm_instance_id s.guest_cid in
      ground (
        arith,
        step.next,
        ltb_self s.out_seq,
        eq_self s.out_seq,
        eq_refl (payload_digest d m.payload),
        eq_refl tag,
        compute_mac-nonempty k stamped s.vm_instance_id s.guest_cid,
        compute_mac-mac k stamped tag s.vm_instance_id s.guest_cid,
        next-received r s.out_seq,
      )

  -- Where no HMAC is empty and two hops are in step under a key, messages that one signs in turn
  -- are all accepted by the other in that order, and the two are in step again.
  pub receive-sign_all :
      (ms : List Envelope) (s r : HopMac) (k : String)
      → InStep s r
      → s.key ≡ some k
      → (r' : HopMac) × (receive d r (sign_all d s ms).0 ≡ accepted r')
        × InStep (sign_all d s ms).1 r'
  unfolding receive sign_all
  receive-sign_all [] s r k step key = (r, refl, step)
  receive-sign_all (m ∷ ms) s r k step key =
      let one = verify-sign s r m k step key in
      let (r', done, stepped) =
        receive-sign_all ms (sign d s m).1 _ k one.1 (key-sign d s m ∙ key) in
      (r', rw (one.0, receive) done, stepped)
