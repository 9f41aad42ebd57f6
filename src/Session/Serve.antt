-- ===== src/Session/Serve.antt =====
-- `NodeSession.serve`: one turn of its loop for each thing that the guest's stream gives, and the
-- loop over what it gives.
use Prim.Native.String.{len}
use corvus_node.Prelude.{
  ℕ, ◌+◌, String, Bool, true, false, not, ◌&&◌, ◌||◌, Option, none, some, List, [], ◌∷◌, ◌++◌, ltb,
  leb, ◌==◌, if◌then◌else◌,
}
use corvus_node.Prelude.Int.{pos}
use corvus_node.Json.{num, str, Fields, end, field}
use corvus_node.Protocol.{Envelope}
use corvus_node.Protocol.Mac.{
  verify, Verified, accepted, refused, uncomparable, error_code, error_text,
}
use corvus_node.Session.{
  SessionEnv, NodeSession, Decoded, decoded, codec_error, max_messages, max_bytes,
  max_session_turns, log_hop, log_flag, hop_of, node_hop, reply, send_session_init, send_user_query,
  send_session_end, arm_guest_wait,
}
use corvus_node.Session.Handlers.{Handled, answered, raised, dispatch}

-- What waiting for a line can give: the timeout of a turn, a line (empty at the end of the stream), a
-- line of so many bytes that are no UTF-8, or a line over the limit of the reader, 64 KiB.
pub data Incoming : Type 0 where
  timed_out : Incoming
  line : String → Incoming
  not_utf8 : ℕ → Incoming
  too_long : Incoming

-- After a turn the loop goes on, has ended, waits for a prompt that does not come, or has raised.
pub data Step (env : SessionEnv) : Type 0 where
  going : Bool → NodeSession env → Step env
  ended : NodeSession env → Step env
  waits : NodeSession env → Step env
  failed : NodeSession env → Step env

-- `_next_prompt`, with the state after it; or the queue is empty.
pub data Prompted (env : SessionEnv) : Type 0 where
  prompted : Option String → NodeSession env → Prompted env
  unprompted : NodeSession env → Prompted env

abbrev pub is_some {ℓ} : {A : Type ℓ} → Option A → Bool
is_some none = false
is_some (some _) = true

module _ (env : SessionEnv) where
  abbrev pub State : Type 0
  State = NodeSession env

  unfoldable pub next_prompt : State → Prompted env
  next_prompt s =
      let s' : State = record s { waiting = s.waiting + 1 } in
      if s.config.once then prompted (some s.config.user_text) s else elim s.prompts [
        | none ↦ prompted none s'
        | some [] ↦ unprompted s'
        | some (p ∷ ps) ↦ prompted p (record s' { prompts = some ps })
      ]

  -- The next prompt is sent, or the session ends.
  unfoldable pub follow : Prompted env → Step env
  follow (unprompted s) = waits s
  follow (prompted none s) = ended (send_session_end env s)
  follow (prompted (some text) s) = going true (send_user_query env text s)

  abbrev pub deliver : Option String → Option (List (Option String)) → Option (List (Option String))
  deliver (some text) (some responses) = some (responses ++ (some text ∷ []))
  deliver _ responses = responses

  -- `_after_agent_response`, and the break that follows it.
  unfoldable pub after_agent_response : State → Step env
  after_agent_response s =
      let told : State = record s {
        awaiting_guest = false;
        turn_deadline = none;
        responses = deliver s.final_response s.responses;
      } in
      if told.config.once || leb max_session_turns told.turns
      then ended (send_session_end env told)
      else follow (next_prompt told)

  -- After a handshake no prompt ends the session, but not that of `once`.
  unfoldable pub greet : Prompted env → Step env
  greet (unprompted s) = waits s
  greet (prompted none s) =
      if s.config.once
      then going true (send_user_query env "" s)
      else ended (send_session_end env s)
  greet (prompted (some text) s) = going true (send_user_query env text s)

  unfoldable pub after_handshake : State → Step env
  after_handshake s = greet (next_prompt s)

  -- The reply is written, and two types of message have a sequel.
  unfoldable pub conclude : Envelope → Handled env → Step env
  conclude msg (raised s) = failed s
  conclude msg (answered a) =
      let s = reply env msg a.type a.payload a.state in
      if msg.type == "handshake"
      then after_handshake s
      else if msg.type == "agent_response"
      then after_agent_response s
      else going true s

  -- A message that passed the MAC.
  unfoldable pub on_message : Bool → Envelope → State → Step env
  on_message handshake_done msg s =
      let logged = log_hop env (hop_of env msg msg.type) none end s in
      if not handshake_done && not (msg.type == "handshake")
      then ended (log_flag env "pre_handshake" (hop_of env msg msg.type) end logged)
      else conclude msg (dispatch env msg logged)

  -- A flag under the type "mac", and the end of the session.
  abbrev bad_line : String → String → State → Step env
  bad_line code reason s =
      ended (log_flag env code (node_hop env "mac" s) (field "reason" (str reason) end) s)

  unfoldable pub on_verified : Bool → Envelope → Verified → State → Step env
  on_verified handshake_done msg (refused e mac) s =
      bad_line (error_code e) (error_text e) (record s { mac = mac })
  on_verified handshake_done msg (uncomparable mac) s = failed (record s { mac = mac })
  on_verified handshake_done msg (accepted mac) s =
      on_message handshake_done msg (record s { mac = mac })

  unfoldable pub on_decoded : Bool → Decoded → State → Step env
  on_decoded handshake_done (codec_error e) s = bad_line "mac_fail" e s
  on_decoded handshake_done (decoded msg) s =
      on_verified handshake_done msg (verify env.digests s.mac msg) s

  -- The counters of the turn.
  unfoldable pub count_line : ℕ → State → State
  count_line size s = record s { messages = s.messages + 1; bytes = s.bytes + size }

  abbrev pub over_cap : State → Bool
  over_cap s = ltb max_messages s.messages || ltb max_bytes s.bytes

  unfoldable pub turn_cap : Fields → State → Step env
  turn_cap details s =
      ended (send_session_end env (log_flag env "turn_cap" (node_hop env "cap" s) details s))

  abbrev cap_details : State → Fields
  cap_details s = field "messages" (num (pos s.messages)) (field "bytes" (num (pos s.bytes)) end)

  -- One turn of the loop. Where no timeout is armed, none comes.
  unfoldable pub step : Bool → Incoming → State → Step env
  step handshake_done timed_out s =
      if s.awaiting_guest && is_some s.turn_deadline
      then turn_cap (field "reason" (str "turn timeout") end) s
      else going handshake_done s
  step handshake_done (line text) s =
      let counted = count_line (len text) s in
      if text == ""
      then ended s
      else if over_cap counted
      then turn_cap (cap_details counted) counted
      else on_decoded handshake_done (env.decode_line text) counted
  step handshake_done (not_utf8 size) s =
      let counted = count_line size s in
      if over_cap counted then turn_cap (cap_details counted) counted else failed counted
  step handshake_done too_long s = failed s

  abbrev pub go_on : (Bool → State → Step env) → Step env → Step env
  go_on next (going done s) = next done s
  go_on next (ended s) = ended s
  go_on next (waits s) = waits s
  go_on next (failed s) = failed s

  -- The loop, on all that the stream gives.
  unfoldable pub serve_loop : List Incoming → Bool → State → Step env
  serve_loop [] handshake_done s = going handshake_done s
  serve_loop (i ∷ is) handshake_done s =
      go_on (λ done s'. serve_loop is done s') (step handshake_done i s)

  unfoldable pub serve : List Incoming → State → Step env
  serve is s = serve_loop is false (arm_guest_wait env (send_session_init env s))
