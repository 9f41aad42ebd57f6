-- ===== src/Tests/Hops.antt =====
-- Hops and audit journals.
use corvus_node.Prelude.{
  ◌<>◌, ◌==◌, if◌then◌else◌, String, ◌≡◌, ◌≢◌, ◌⊎◌, refl, none, List, [], ◌∷◌,
}
use corvus_node.Prelude.Int.{pos, ◌+ℤ◌}
use corvus_node.Json.{get, Fields, end, field, str, obj}
use corvus_node.Json.Dumps.{canonical}
use corvus_node.Protocol.{loop}
use corvus_node.Protocol.Mac.{
  verify, check_mac, compute_mac, payload_digest, accepted, HopMac, Digests,
}
use corvus_node.Protocol.Mac.Hop.{
  InStep, received, receive, sign_all, Consecutive, verify_with_key, receive-Consecutive,
  receive-sign_all,
}
use corvus_node.Audit.Scrub.{NoSecret, scrub-NoSecret}
use corvus_node.Audit.{AuditEvent, link, scrub, zero_link, verify_chain, pop_chain}
use corvus_node.Tests.Inputs.{digests, hello, keyed_hop, message}

hello_accepted : verify digests keyed_hop hello ≡ accepted (received (pos 0) keyed_hop)
unfolding verify check_mac compute_mac payload_digest ◌+ℤ◌
hello_accepted = refl

verify_with_key_example :
    (payload_digest digests end ≡ zero_link)
    × ((hello.type ≡ "session_init") ⊎ (compute_mac digests "k" hello "vm" (pos 3) ≡ "m"))
verify_with_key_example = verify_with_key digests keyed_hop hello "k" refl hello_accepted

abbrev fresh_hop : HopMac
fresh_hop = record keyed_hop { key = none }

init_accepted :
    verify digests fresh_hop (message loop "session_init" end)
    ≡ accepted (received (pos 0) fresh_hop)
unfolding verify check_mac payload_digest ◌+ℤ◌
init_accepted = refl

hellos_accepted :
    receive digests keyed_hop (hello ∷ record hello { seq = pos 1 } ∷ [])
    ≡ accepted (received (pos 1) keyed_hop)
unfolding receive verify check_mac compute_mac payload_digest ◌+ℤ◌
hellos_accepted = refl

receive-Consecutive_example :
    Consecutive keyed_hop.in_seq (hello ∷ record hello { seq = pos 1 } ∷ [])
receive-Consecutive_example =
    receive-Consecutive digests (hello ∷ record hello { seq = pos 1 } ∷ []) keyed_hop
      hellos_accepted

hmac_nonempty : (k t : String) → digests.hmac k t ≢ ""
hmac_nonempty k t e = cc e

receive-sign_all_example :
    (r' : HopMac) × (receive digests keyed_hop (sign_all digests keyed_hop (hello ∷ hello ∷ [])).0
      ≡ accepted r')
    × InStep (sign_all digests keyed_hop (hello ∷ hello ∷ [])).1 r'
unfolding ◌+ℤ◌
receive-sign_all_example =
    receive-sign_all digests hmac_nonempty (hello ∷ hello ∷ []) keyed_hop keyed_hop "k"
      (record { key = refl; vm_instance_id = refl; guest_cid = refl; next = refl }) refl

abbrev event : AuditEvent
event = record {
  event_type = "flag";
  correlation_id = "c";
  origin_correlation_id = none;
  source_engine = "loop";
  message_type = "handshake";
  decision = none;
  details = field "session_key" (str "k") end;
  timestamp = "t";
}

abbrev one_link : String
one_link = "1111111111111111111111111111111111111111111111111111111111111111"

abbrev record_text : String
record_text = "{\"a\":\"1\",\"b\":\"2\"}"

-- The text of the first line of a journal has a digest of its own.
abbrev first_differs : Digests
first_differs = record {
  sha256 = λ t. if t == zero_link <> record_text then one_link else zero_link;
  hmac = λ k t. "m";
}

-- Two journals of the same records, whose fields stand in different orders.
abbrev sorted_lines : List Fields
sorted_lines =
    field "a" (str "1") (field "b" (str "2") (field "chain" (str one_link) end))
    ∷ field "a" (str "1") (field "b" (str "2") (field "chain" (str zero_link) end))
    ∷ []

abbrev unsorted_lines : List Fields
unsorted_lines =
    field "b" (str "2") (field "a" (str "1") (field "chain" (str one_link) end))
    ∷ field "b" (str "2") (field "a" (str "1") (field "chain" (str zero_link) end))
    ∷ []

-- With the lines in the other order, the chain is broken.
reversed_fails :
    verify_chain first_differs zero_link (
      field "a" (str "1") (field "b" (str "2") (field "chain" (str zero_link) end))
      ∷ field "a" (str "1") (field "b" (str "2") (field "chain" (str one_link) end))
      ∷ [])
    ≡ none
unfolding verify_chain link get canonical pop_chain
reversed_fails = refl

scrub-NoSecret_example : NoSecret (scrub (obj (field "a" (str "my session_key") end)))
scrub-NoSecret_example = scrub-NoSecret (obj (field "a" (str "my session_key") end))

-- The key is gone and the text is masked.
scrub_run :
    scrub (obj (field "session_key" (str "k") (field "a" (str "my session_key") end)))
    ≡ obj (field "a" (str "[redacted]") end)
unfolding scrub
scrub_run = refl
