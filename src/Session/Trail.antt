-- ===== src/Session/Trail.antt =====
-- The audit journal verifies after every turn of a session's loop, whatever the guest sends.
use corvus_node.Prelude.{
  ◌+◌, ◌≡◌, Bool, false, not, ◌&&◌, ◌||◌, none, some, List, [], ◌∷◌, leb, arith, ◌==◌,
}
use Prim.Native.String.{len}
use corvus_node.Json.{Fields, end}
use corvus_node.Protocol.{Envelope, Decoded, decoded, codec_error}
use corvus_node.Protocol.Mac.{Verified, accepted, refused, uncomparable, verify}
use corvus_node.Session.{SessionEnv, NodeSession, hop_of, arm_guest_wait, max_session_turns}
use corvus_node.Session.Handlers.{Handled, answered, raised}
use corvus_node.Session.Serve.{
  Step, going, ended, waits, failed, Incoming, timed_out, line, not_utf8, too_long, Prompted,
  prompted, unprompted, is_some, next_prompt, follow, deliver, after_agent_response, greet,
  after_handshake, conclude, on_message, on_verified, on_decoded, count_line, over_cap, turn_cap,
  step, go_on, serve_loop, serve,
}
use corvus_node.Session.Answers.{handled_state}
use corvus_node.Session.Settled.{step_state}
use corvus_node.Session.Logged.{
  IsLogged, log_hop-IsLogged, log_flag-IsLogged, reply-IsLogged, send_session_init-IsLogged,
  send_user_query-IsLogged, send_session_end-IsLogged,
}
use corvus_node.Session.Journal.{if-IsLogged, left, dispatch-IsLogged}

module _ (env : SessionEnv) where
  abbrev of_prompt : Prompted env → NodeSession env
  of_prompt (prompted p s) = s
  of_prompt (unprompted s) = s

  next_prompt-audit : (s : NodeSession env) → (of_prompt (next_prompt env s)).audit ≡ s.audit
  unfolding next_prompt
  next_prompt-audit s = ground arith

  next_prompt-IsLogged :
      (s : NodeSession env) → IsLogged env s → IsLogged env (of_prompt (next_prompt env s))
  next_prompt-IsLogged s v = rw (next_prompt-audit s) v

  follow-IsLogged :
      (p : Prompted env) → IsLogged env (of_prompt p) → IsLogged env (step_state (follow env p))
  unfolding follow
  follow-IsLogged (unprompted s) v = v
  follow-IsLogged (prompted none s) v = send_session_end-IsLogged env s v
  follow-IsLogged (prompted (some text) s) v = send_user_query-IsLogged env text s v

  greet-IsLogged :
      (p : Prompted env) → IsLogged env (of_prompt p) → IsLogged env (step_state (greet env p))
  unfolding greet
  greet-IsLogged (unprompted s) v = v
  greet-IsLogged (prompted none s) v =
      if-IsLogged env (left env) s.config.once _ _ (send_user_query-IsLogged env "" s v)
        (send_session_end-IsLogged env s v)
  greet-IsLogged (prompted (some text) s) v = send_user_query-IsLogged env text s v

  after_agent_response-IsLogged :
      (s : NodeSession env)
      → IsLogged env s
      → IsLogged env (step_state (after_agent_response env s))
  unfolding after_agent_response
  after_agent_response-IsLogged s v =
      let told : NodeSession env = record s {
        awaiting_guest = false;
        turn_deadline = none;
        responses = deliver env s.final_response s.responses;
      } in
      if-IsLogged env (left env) (told.config.once || leb max_session_turns told.turns) _ _
        (send_session_end-IsLogged env told v)
        (follow-IsLogged (next_prompt env told) (next_prompt-IsLogged told v))

  conclude-IsLogged :
      (m : Envelope) (h : Handled env)
      → IsLogged env (handled_state h)
      → IsLogged env (step_state (conclude env m h))
  unfolding conclude after_handshake
  conclude-IsLogged m (raised s) v = v
  conclude-IsLogged m (answered a) v =
      let replied = reply-IsLogged env m a.type a.payload a.state v in
      if-IsLogged env (left env) (m.type == "handshake") _ _
        (greet-IsLogged _ (next_prompt-IsLogged _ replied))
        (if-IsLogged env (left env) (m.type == "agent_response") _ _
          (after_agent_response-IsLogged _ replied) replied)

  on_message-IsLogged :
      (done : Bool) (m : Envelope) (s : NodeSession env)
      → IsLogged env s
      → IsLogged env (step_state (on_message env done m s))
  unfolding on_message
  on_message-IsLogged done m s v =
      let logged = log_hop-IsLogged env (hop_of env m m.type) none end s v in
      if-IsLogged env (left env) (not done && not (m.type == "handshake")) _ _
        (log_flag-IsLogged env _ _ end _ logged)
        (conclude-IsLogged m _ (dispatch-IsLogged env m _ logged))

  on_verified-IsLogged :
      (done : Bool) (m : Envelope) (o : Verified) (s : NodeSession env)
      → IsLogged env s
      → IsLogged env (step_state (on_verified env done m o s))
  unfolding on_verified
  on_verified-IsLogged done m (refused e mac) s v =
      log_flag-IsLogged env _ _ _ (record s { mac = mac }) v
  on_verified-IsLogged done m (uncomparable mac) s v = v
  on_verified-IsLogged done m (accepted mac) s v =
      on_message-IsLogged done m (record s { mac = mac }) v

  on_decoded-IsLogged :
      (done : Bool) (o : Decoded) (s : NodeSession env)
      → IsLogged env s
      → IsLogged env (step_state (on_decoded env done o s))
  unfolding on_decoded
  on_decoded-IsLogged done (codec_error e) s v = log_flag-IsLogged env _ _ _ s v
  on_decoded-IsLogged done (decoded m) s v =
      on_verified-IsLogged done m (verify env.digests s.mac m) s v

  turn_cap-IsLogged :
      (details : Fields) (s : NodeSession env)
      → IsLogged env s
      → IsLogged env (step_state (turn_cap env details s))
  unfolding turn_cap
  turn_cap-IsLogged details s v =
      send_session_end-IsLogged env _ (log_flag-IsLogged env _ _ details s v)

  step-IsLogged :
      (done : Bool) (i : Incoming) (s : NodeSession env)
      → IsLogged env s
      → IsLogged env (step_state (step env done i s))
  unfolding step count_line
  step-IsLogged done timed_out s v =
      if-IsLogged env (left env) (s.awaiting_guest && is_some s.turn_deadline) _ _
        (turn_cap-IsLogged _ s v) v
  step-IsLogged done (line text) s v =
      let counted : NodeSession env = record s {
        messages = s.messages + 1;
        bytes = s.bytes + len text;
      } in
      if-IsLogged env (left env) (text == "") _ _ v (
        if-IsLogged env (left env) (over_cap env counted) _ _ (turn_cap-IsLogged _ counted v)
          (on_decoded-IsLogged done (env.decode_line text) counted v))
  step-IsLogged done (not_utf8 size) s v =
      let counted : NodeSession env = record s {
        messages = s.messages + 1;
        bytes = s.bytes + size;
      } in
      if-IsLogged env (left env) (over_cap env counted) _ _ (turn_cap-IsLogged _ counted v) v
  step-IsLogged done too_long s v = v

  go_on-IsLogged :
      (next : Bool → NodeSession env → Step env) (t : Step env)
      → IsLogged env (step_state t)
      → ((done : Bool) (s : NodeSession env)
          → IsLogged env s
          → IsLogged env (step_state (next done s)))
      → IsLogged env (step_state (go_on env next t))
  go_on-IsLogged next (going done s) v k = k done s v
  go_on-IsLogged next (ended s) v k = v
  go_on-IsLogged next (waits s) v k = v
  go_on-IsLogged next (failed s) v k = v

  serve_loop-IsLogged :
      (is : List Incoming) (done : Bool) (s : NodeSession env)
      → IsLogged env s
      → IsLogged env (step_state (serve_loop env is done s))
  unfolding serve_loop
  serve_loop-IsLogged [] done s v = v
  serve_loop-IsLogged (i ∷ is) done s v =
      go_on-IsLogged (λ done s. serve_loop env is done s) (step env done i s)
        (step-IsLogged done i s v) λ done' s' v'. serve_loop-IsLogged is done' s' v'

  -- If the journal of a session's store verifies up to the link that the store holds, it does so
  -- when the session has served, whatever lines the guest sends and wherever the stream stops.
  pub serve-IsLogged :
      (is : List Incoming) (s : NodeSession env)
      → IsLogged env s
      → IsLogged env (step_state (serve env is s))
  unfolding serve arm_guest_wait
  serve-IsLogged is s v = serve_loop-IsLogged is false _ (send_session_init-IsLogged env s v)
