-- ===== src/Session/Settled.antt =====
-- What follows a handled message leaves alone what the guest's messages act on.
use corvus_node.Prelude.{refl, Bool, true, false, ◌||◌, leb, none, some, arith, ◌==◌, if◌then◌else◌}
use corvus_node.Json.{Fields}
use corvus_node.Protocol.{Envelope}
use corvus_node.Session.{SessionEnv, NodeSession, max_session_turns, reply}
use corvus_node.Session.Frame.{
  Quiet, Quiet-refl, Quiet-trans, log_flag-Quiet, reply-Quiet, send_user_query-Quiet,
  send_session_end-Quiet,
}
use corvus_node.Session.Answers.{handled_state}
use corvus_node.Session.Handlers.{Handled, answered, raised}
use corvus_node.Session.Serve.{
  Step, going, ended, waits, failed, Prompted, prompted, unprompted, next_prompt, follow,
  after_agent_response, greet, after_handshake, conclude, turn_cap, deliver,
}

-- The state that a turn leaves.
abbrev pub step_state : {env : SessionEnv} → Step env → NodeSession env
step_state (going _ s) = s
step_state (ended s) = s
step_state (waits s) = s
step_state (failed s) = s

module _ (env : SessionEnv) where
  abbrev next_state : Prompted env → NodeSession env
  next_state (prompted _ s) = s
  next_state (unprompted s) = s

  follow-Quiet : (p : Prompted env) → Quiet (next_state p) (step_state (follow env p))
  unfolding follow
  follow-Quiet (unprompted s) = Quiet-refl s
  follow-Quiet (prompted none s) = send_session_end-Quiet env s
  follow-Quiet (prompted (some text) s) = send_user_query-Quiet env text s

  either-Quiet :
      (b : Bool) (x y : Step env) {s : NodeSession env}
      → Quiet s (step_state x)
      → Quiet s (step_state y)
      → Quiet s (step_state (if b then x else y))
  either-Quiet true x y p q = p
  either-Quiet false x y p q = q

  greet-Quiet : (p : Prompted env) → Quiet (next_state p) (step_state (greet env p))
  unfolding greet
  greet-Quiet (unprompted s) = Quiet-refl s
  greet-Quiet (prompted none s) =
      either-Quiet s.config.once _ _ (send_user_query-Quiet env "" s) (send_session_end-Quiet env s)
  greet-Quiet (prompted (some text) s) = send_user_query-Quiet env text s

  next_prompt-Quiet : (s : NodeSession env) → Quiet s (next_state (next_prompt env s))
  unfolding next_prompt
  next_prompt-Quiet s = ground arith

  after_agent_response-Quiet :
      (s : NodeSession env) → Quiet s (step_state (after_agent_response env s))
  unfolding after_agent_response
  after_agent_response-Quiet s =
      let told : NodeSession env = record s {
        awaiting_guest = false;
        turn_deadline = none;
        responses = deliver env s.final_response s.responses;
      } in
      let same : Quiet s told = record {
        config = refl;
        policy = refl;
        memory = refl;
        final_response = refl;
        outstanding_calls = refl;
        disk = refl;
      } in
      either-Quiet (s.config.once || leb max_session_turns s.turns) _ _
        (Quiet-trans same (send_session_end-Quiet env told))
        (Quiet-trans same (Quiet-trans (next_prompt-Quiet told) (follow-Quiet _)))

  pub conclude-Quiet :
      (m : Envelope) (h : Handled env) → Quiet (handled_state h) (step_state (conclude env m h))
  unfolding conclude after_handshake
  conclude-Quiet m (raised s) = Quiet-refl s
  conclude-Quiet m (answered a) =
      let replied = reply-Quiet env m a.type a.payload a.state in
      let s = reply env m a.type a.payload a.state in
      either-Quiet (m.type == "handshake") _ _
        (Quiet-trans replied (Quiet-trans (next_prompt-Quiet s) (greet-Quiet _)))
        (either-Quiet (m.type == "agent_response") _ _
          (Quiet-trans replied (after_agent_response-Quiet s)) replied)

  pub turn_cap-Quiet :
      (details : Fields) (s : NodeSession env) → Quiet s (step_state (turn_cap env details s))
  unfolding turn_cap
  turn_cap-Quiet details s = Quiet-trans (log_flag-Quiet env _ _ _ s) (send_session_end-Quiet env _)
