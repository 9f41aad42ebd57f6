-- ===== src/Protocol/Mac.antt =====
-- src/corvus_node/protocol/mac.py: sequence numbers and HMAC on every hop. The digests of the
-- standard library are parameters: `sha256` gives the hexadecimal digest of a text, `hmac` that of a
-- material under a key. A key is its hexadecimal text.
pub mod Hop
use corvus_node.Prelude.{
  ltb, code, chars, all, ℕ, ◌+◌, String, ◌<>◌, Bool, true, false, not, ◌&&◌, ◌||◌, Option, none,
  some, List, [], ◌∷◌, ◌==◌, join_with, show_ℕ, if◌then◌else◌,
}
use corvus_node.Prelude.Int.{ℤ, pos, negsuc, ◌+ℤ◌, ltb_ℤ, ◌==ℤ◌, show_ℤ}
use corvus_node.Json.{Fields}
use corvus_node.Json.Dumps.{canonical}
use corvus_node.Protocol.{Envelope, engine_text, destination_text}

pub record Digests : Type 0 where
  pub sha256 : String → String
  pub hmac : String → String → String

pub data MacError : Type 0 where
  replay : ℤ → MacError
  seq_gap : ℤ → ℤ → MacError
  hash_mismatch no_key hmac_mismatch : MacError

-- `MacError.code`
abbrev pub error_code : MacError → String
error_code (replay _) = "replay"
error_code (seq_gap _ _) = "seq_gap"
error_code _ = "mac_fail"

-- `str(exc)`
unfoldable pub error_text : MacError → String
unfolding show_ℤ
error_text (replay n) = "replay: seq " <> (show_ℤ n <> " replayed")
error_text (seq_gap expected n) =
    "seq_gap: expected seq " <> (show_ℤ expected <> (", got " <> show_ℤ n))
error_text hash_mismatch = "mac_fail: payload hash mismatch"
error_text no_key = "mac_fail: session key not installed"
error_text hmac_mismatch = "mac_fail: hmac mismatch"

pub record HopMac : Type 0 where
  pub key : Option String
  pub vm_instance_id : String
  pub guest_cid : ℤ
  pub out_seq : ℕ
  pub in_seq : ℤ

-- `HopMac(key_hex, ...)`: an empty key is none.
unfoldable pub new_hop : Option String → String → ℤ → HopMac
new_hop key_hex vm cid = record {
  key = elim key_hex [ none ↦ none | some k ↦ if k == "" then none else some k ];
  vm_instance_id = vm;
  guest_cid = cid;
  out_seq = 0;
  in_seq = negsuc 0;
}

unfoldable pub set_key : String → HopMac → HopMac
set_key key_hex h = record h { key = some key_hex }

unfoldable pub set_bind : String → ℤ → HopMac → HopMac
set_bind vm cid h = record h { vm_instance_id = vm; guest_cid = cid }

-- `type in BOOTSTRAP_TYPES`
abbrev pub is_bootstrap : String → Bool
is_bootstrap type = type == "session_init"

abbrev origin_text : Option String → String
origin_text none = ""
origin_text (some o) = o

-- `HopMac.verify` with the hop as it leaves it: without an error, with a `MacError`, or with the
-- TypeError of a comparison of texts that are not all ASCII.
pub data Verified : Type 0 where
  accepted : HopMac → Verified
  refused : MacError → HopMac → Verified
  uncomparable : HopMac → Verified

abbrev is_ascii : String → Bool
is_ascii t = all (λ c. ltb (code c) 128) (chars t)

-- The text under the MAC: every field that the receiver relies on, but the payload, of which it has
-- the hash, and the binding to one instance.
unfoldable pub mac_material : Envelope → String → ℤ → String
unfolding join_with show_ℤ show_ℕ engine_text destination_text
mac_material m vm cid = join_with "|" (
    m.id
    ∷ m.type
    ∷ engine_text m.source_engine
    ∷ destination_text m.destination
    ∷ show_ℤ m.seq
    ∷ m.correlation_id
    ∷ origin_text m.origin_correlation_id
    ∷ m.payload_sha256
    ∷ vm
    ∷ show_ℤ cid
    ∷ [])

module _ (d : Digests) where
  -- `payload_sha256`
  unfoldable pub payload_digest : Fields → String
  unfolding canonical
  payload_digest payload = d.sha256 (canonical payload)

  unfoldable pub compute_mac : String → Envelope → String → ℤ → String
  compute_mac key m vm cid = d.hmac key (mac_material m vm cid)

  unfoldable pub sign : HopMac → Envelope → Envelope × HopMac
  sign h m =
      let stamped : Envelope = record m {
        seq = pos h.out_seq;
        payload_sha256 = payload_digest m.payload;
        mac = "";
      } in
      let h' : HopMac = record h { out_seq = h.out_seq + 1 } in
      elim h.key [
        | none ↦ (stamped, h')
        | some key ↦
            if is_bootstrap m.type
            then (stamped, h')
            else (record stamped { mac = compute_mac key stamped h.vm_instance_id h.guest_cid }, h')
      ]

  -- The test of the MAC itself, for a message that is no bootstrap. A digest is ASCII, and so is what
  -- is equal to it.
  unfoldable pub check_mac : HopMac → Envelope → Option String → Verified
  check_mac h m none = refused no_key h
  check_mac h m (some key) =
      if m.mac == ""
      then refused hmac_mismatch h
      else if compute_mac key m h.vm_instance_id h.guest_cid == m.mac
      then accepted (record h { in_seq = m.seq })
      else if is_ascii m.mac
      then refused hmac_mismatch h
      else uncomparable h

  unfoldable pub verify : HopMac → Envelope → Verified
  unfolding check_mac
  verify h m =
      let expected_seq = h.in_seq +ℤ pos 1 in
      if ltb_ℤ m.seq expected_seq
      then refused (replay m.seq) h
      else if not (m.seq ==ℤ expected_seq)
      then refused (seq_gap expected_seq m.seq) h
      else if not (payload_digest m.payload == m.payload_sha256)
      then refused hash_mismatch h
      else if is_bootstrap m.type
      then accepted (record h { in_seq = m.seq })
      else check_mac h m h.key
