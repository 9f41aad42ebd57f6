-- ===== src/Tests/Sessions.antt =====
-- Sessions.
use corvus_node.Prelude.{◌≡◌, ◌⊎◌, ◌≤◌, ◌+◌, refl, arith, true, List, [], ◌∷◌, none}
use corvus_node.Prelude.Int.{◌+ℤ◌}
use corvus_node.Json.{end}
use corvus_node.Protocol.{engine1}
use corvus_node.Protocol.Mac.{verify, check_mac, compute_mac, payload_digest, new_hop}
use corvus_node.Session.{
  SessionEnv, NodeSession, decoded, max_messages, max_bytes, new_session, log_hop, reply, sign_out,
  write,
}
use corvus_node.Session.Handlers.{dispatch}
use corvus_node.Session.Caps.{lines_in, bytes_in, total, serve_loop-cap}
use corvus_node.Session.Gate.{CallIn, step-disk}
use corvus_node.Session.Settled.{step_state}
use corvus_node.Session.Serve.{
  Incoming, going, line, step, serve_loop, count_line, on_decoded, on_verified, on_message,
  conclude, serve,
}
use corvus_node.Audit.{new_jsonl_store, verify_chain}
use corvus_node.Session.Logged.{IsLogged}
use corvus_node.Session.Trail.{serve-IsLogged}
use corvus_node.Tests.Inputs.{env, config, session, message}

-- Every line is a message of an unknown type.
abbrev ping_env : SessionEnv
ping_env = record env { decode_line = λ t. decoded (message engine1 "ping" end) }

abbrev ping_session : NodeSession ping_env
ping_session = new_session ping_env config new_jsonl_store "k" none none "old"

abbrev one_ping : List Incoming
one_ping = line "ping" ∷ []

ping_goes_on :
    serve_loop ping_env one_ping true ping_session
    ≡ going true (step_state (serve_loop ping_env one_ping true ping_session))
unfolding serve_loop step count_line on_decoded on_verified verify check_mac compute_mac
    payload_digest ◌+ℤ◌ new_session new_hop on_message conclude dispatch
ping_goes_on = refl

ping_turn : (step_state (serve_loop ping_env one_ping true ping_session)).turns ≡ ping_session.turns
unfolding serve_loop step count_line on_decoded on_verified verify check_mac compute_mac
    payload_digest ◌+ℤ◌ new_session new_hop on_message conclude dispatch log_hop reply sign_out
    write
ping_turn = refl

serve_loop-cap_example :
    (ping_session.messages + total lines_in one_ping ≤ max_messages)
    × (ping_session.bytes + total bytes_in one_ping ≤ max_bytes)
unfolding new_session
serve_loop-cap_example =
    serve_loop-cap ping_env one_ping true ping_session
      (record { messages = omega arith; bytes = omega arith }) ping_goes_on ping_turn

step-disk_example :
    ((step_state (step env true (line "x") session)).disk ≡ "old")
    ⊎ CallIn env true session (line "x")
unfolding new_session
step-disk_example = step-disk env true (line "x") session

serve-IsLogged_example : IsLogged env (step_state (serve env (line "x" ∷ []) session))
unfolding new_session verify_chain
serve-IsLogged_example = serve-IsLogged env (line "x" ∷ []) session refl
