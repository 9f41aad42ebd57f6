-- ===== src/Tests/Guest.antt =====
-- A run of the guest against a Node that answers every line.
use corvus_node.Prelude.{
  ℕ, ◌<>◌, String, ◌≡◌, ◌≢◌, refl, none, some, [], ◌∷◌, All, ◌==◌, show_ℕ, elem, if◌then◌else◌, map,
}
use corvus_node.Prelude.Int.{pos, ◌+ℤ◌}
use corvus_node.Json.{str, num, arr, nil, cons, obj, Fields, end, field}
use corvus_node.Json.Text.{text}
use corvus_node.Protocol.{Envelope, node, decoded, allowed_outbound}
use corvus_node.Protocol.Validator.{validate_outbound}
use corvus_node.Protocol.Mac.{
  verify, replay, sign, payload_digest, compute_mac, check_mac, new_hop, set_key, set_bind,
}
use corvus_node.Runtime.{
  GuestEnv, Wire, line, ok, err, bad_mac, read, accept_line, ask, set_session_key, bind_to,
}
use corvus_node.Runtime.Engines.{infer, run_tool, respond}
use corvus_node.Runtime.Turn.{run, run_calls, trim}
use corvus_node.Runtime.Run.{IsLegal, run-IsLegal}
use corvus_node.Runtime.Delivery.{IsDelivered, receive-run}
use corvus_node.Runtime.Errors.{read-error}
use corvus_node.Runtime.History.{IsHistoryOf, trim-IsHistoryOf}
use corvus_node.Tests.Inputs.{digests, message, keyed_hop}

abbrev reply : String → ℕ → Fields → Envelope
reply type seq payload = record (message node type payload) { seq = pos seq }

-- The Node's replies by the text of a line: a handshake, one turn with a call, and the end.
abbrev answer : String → Envelope
answer t =
    if t == "0"
    then reply "handshake_ok" 0 (field "allowed_tools" (arr (cons (str "echo") nil)) end)
    else if t == "1"
    then reply "user_query" 1 (field "text" (str "hi") end)
    else if t == "2"
    then reply "llm_response" 2
        (field "tool_calls" (arr (cons (obj (field "name" (str "echo") end)) nil)) end)
    else if t == "3"
    then reply "tool_call_response" 3 (field "approved" (num (pos 1)) end)
    else if t == "4"
    then reply "ack" 4 end
    else if t == "5"
    then reply "llm_response" 5 (field "content" (str "done") end)
    else if t == "6"
    then reply "ack" 6 end
    else reply "session_end" 7 end

abbrev guest : GuestEnv
guest = record {
  digests = digests;
  uuid4 = λ n. "u" <> show_ℕ n;
  timestamp = λ n. "t";
  decode_line = λ t. decoded (answer t);
  from_hex = λ t. some t;
  int_of_text = λ t. none;
  int_of_float = λ t. none;
}

abbrev stream : Wire
stream = record {
  mac = keyed_hop;
  inbox =
      line "0" ∷ line "1" ∷ line "2" ∷ line "3" ∷ line "4" ∷ line "5" ∷ line "6" ∷ line "7" ∷ [];
  sent = [];
  draws = 0;
}

-- The turn comes to its answer, after these messages.
whole_turn :
    ((run guest [] stream).0 ≡ ok "done")
    × (map (λ (m : Envelope). m.type) (run guest [] stream).1.sent
        ≡ "handshake" ∷ "llm_request" ∷ "tool_call" ∷ "tool_result" ∷ "llm_request"
          ∷ "agent_response" ∷ [])
unfolding run ask validate_outbound elem allowed_outbound verify ◌+ℤ◌ sign payload_digest
    compute_mac infer run_calls run_tool respond text
whole_turn = (refl, refl)

run-IsLegal_example : All IsLegal (run guest [] stream).1.sent
run-IsLegal_example = run-IsLegal guest [] stream refl

hmac_nonempty : (k t : String) → digests.hmac k t ≢ ""
hmac_nonempty k t e = cc e

-- The Node's `session_init` comes before all else.
abbrev after_init : String → Envelope
after_init t =
    if t == "init"
    then reply "session_init" 0 (
        field "session_key" (str "k")
          (field "vm_instance_id" (str "vm") (field "guest_cid" (num (pos 3)) end)))
    else record (answer t) { seq = (answer t).seq +ℤ pos 1 }

abbrev new_guest : GuestEnv
new_guest = record guest { decode_line = λ t. decoded (after_init t) }

abbrev new_wire : Wire
new_wire = record {
  mac = new_hop none "" (pos 0);
  inbox =
      line "init"
      ∷ line "0"
      ∷ line "1"
      ∷ line "2"
      ∷ line "3"
      ∷ line "4"
      ∷ line "5"
      ∷ line "6"
      ∷ line "7"
      ∷ [];
  sent = [];
  draws = 0;
}

-- The run takes the key and comes to its answer.
keyed_turn :
    ((run new_guest [] new_wire).0 ≡ ok "done") × ((run new_guest [] new_wire).1.mac.key ≡ some "k")
unfolding run ask validate_outbound elem allowed_outbound verify check_mac ◌+ℤ◌ sign payload_digest
    compute_mac infer run_calls run_tool respond text new_hop set_session_key bind_to set_bind
    set_key
keyed_turn = (refl, refl)

receive-run_example : IsDelivered digests (run new_guest [] new_wire).1
receive-run_example = receive-run new_guest hmac_nonempty [] new_wire refl refl

trim-IsHistoryOf_example : IsHistoryOf (str "a" ∷ str "b" ∷ []) (trim (str "a" ∷ str "b" ∷ []))
trim-IsHistoryOf_example = trim-IsHistoryOf (str "a" ∷ str "b" ∷ [])

-- The first line that comes repeats a number.
abbrev late : Wire
late = record stream { mac = record keyed_hop { in_seq = pos 0 } }

late_fails : (read guest late).0 ≡ err (bad_mac (replay (pos 0)))
unfolding read accept_line verify ◌+ℤ◌
late_fails = refl

read-error_example :
    ((read guest late).1.mac ≡ late.mac)
    × ((read guest late).1.sent ≡ late.sent)
    × ((read guest late).1.draws ≡ late.draws)
read-error_example = read-error guest late late_fails
