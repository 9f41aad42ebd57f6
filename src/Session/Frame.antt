-- ===== src/Session/Frame.antt =====
-- What the logging, signing and sending of a session leave alone.
use corvus_node.Prelude.{String, ◌≡◌, refl, ◌∙◌, Bool, Option, arith}
use corvus_node.Json.{Fields}
use corvus_node.Protocol.{Envelope}
use corvus_node.Audit.{Hop}
use corvus_node.Session.{
  SessionEnv, NodeSession, log_hop, log_flag, log_elevate, sign_out, write, reply, note_decision,
  send_session_end, send_user_query, arm_guest_wait,
}

-- What the guest's messages act on is the same.
pub record Quiet {env : SessionEnv} (s t : NodeSession env) : Type 0 where
  pub config : t.config ≡ s.config
  pub policy : t.policy ≡ s.policy
  pub memory : t.memory ≡ s.memory
  pub final_response : t.final_response ≡ s.final_response
  pub outstanding_calls : t.outstanding_calls ≡ s.outstanding_calls
  pub disk : t.disk ≡ s.disk

-- So are the counters and the queues.
pub record Still {env : SessionEnv} (s t : NodeSession env) : Type 0 where
  pub config : t.config ≡ s.config
  pub policy : t.policy ≡ s.policy
  pub messages : t.messages ≡ s.messages
  pub bytes : t.bytes ≡ s.bytes
  pub turns : t.turns ≡ s.turns
  pub prompts : t.prompts ≡ s.prompts

module _ {env : SessionEnv} {s t u : NodeSession env} where
  pub Quiet-trans : Quiet s t → Quiet t u → Quiet s u
  Quiet-trans a b = record {
    config = b.config ∙ a.config;
    policy = b.policy ∙ a.policy;
    memory = b.memory ∙ a.memory;
    final_response = b.final_response ∙ a.final_response;
    outstanding_calls = b.outstanding_calls ∙ a.outstanding_calls;
    disk = b.disk ∙ a.disk;
  }

  pub Still-trans : Still s t → Still t u → Still s u
  Still-trans a b = record {
    config = b.config ∙ a.config;
    policy = b.policy ∙ a.policy;
    messages = b.messages ∙ a.messages;
    bytes = b.bytes ∙ a.bytes;
    turns = b.turns ∙ a.turns;
    prompts = b.prompts ∙ a.prompts;
  }

pub Quiet-refl : {env : SessionEnv} (s : NodeSession env) → Quiet s s
Quiet-refl s = record {
  config = refl;
  policy = refl;
  memory = refl;
  final_response = refl;
  outstanding_calls = refl;
  disk = refl;
}

pub Still-refl : {env : SessionEnv} (s : NodeSession env) → Still s s
Still-refl s = record {
  config = refl;
  policy = refl;
  messages = refl;
  bytes = refl;
  turns = refl;
  prompts = refl;
}

module _ (env : SessionEnv) where
  pub log_hop-Quiet :
      (hop : Hop) (decision : Option String) (details : Fields) (s : NodeSession env)
      → Quiet s (log_hop env hop decision details s)
  unfolding log_hop
  log_hop-Quiet hop decision details s = ground arith

  pub log_hop-Still :
      (hop : Hop) (decision : Option String) (details : Fields) (s : NodeSession env)
      → Still s (log_hop env hop decision details s)
  unfolding log_hop
  log_hop-Still hop decision details s = ground arith

  pub log_flag-Quiet :
      (code : String) (hop : Hop) (details : Fields) (s : NodeSession env)
      → Quiet s (log_flag env code hop details s)
  unfolding log_flag
  log_flag-Quiet code hop details s = ground arith

  pub log_flag-Still :
      (code : String) (hop : Hop) (details : Fields) (s : NodeSession env)
      → Still s (log_flag env code hop details s)
  unfolding log_flag
  log_flag-Still code hop details s = ground arith

  pub log_elevate-Quiet :
      (hop : Hop) (details : Fields) (s : NodeSession env) → Quiet s (log_elevate env hop details s)
  unfolding log_elevate
  log_elevate-Quiet hop details s = ground arith

  pub log_elevate-Still :
      (hop : Hop) (details : Fields) (s : NodeSession env) → Still s (log_elevate env hop details s)
  unfolding log_elevate
  log_elevate-Still hop details s = ground arith

  pub write-Quiet : (m : Envelope) (s : NodeSession env) → Quiet s (write env m s)
  unfolding write log_hop
  write-Quiet m s = ground arith

  pub write-Still : (m : Envelope) (s : NodeSession env) → Still s (write env m s)
  unfolding write log_hop
  write-Still m s = ground arith

  pub sign_out-Quiet : (m : Envelope) (s : NodeSession env) → Quiet s (sign_out env m s).1
  unfolding sign_out
  sign_out-Quiet m s = ground arith

  pub sign_out-Still : (m : Envelope) (s : NodeSession env) → Still s (sign_out env m s).1
  unfolding sign_out
  sign_out-Still m s = ground arith

  pub note_decision-Quiet :
      (is_deny : Bool) (s : NodeSession env) → Quiet s (note_decision env is_deny s)
  unfolding note_decision log_flag
  note_decision-Quiet is_deny s = ground arith

  pub note_decision-Still :
      (is_deny : Bool) (s : NodeSession env) → Still s (note_decision env is_deny s)
  unfolding note_decision log_flag
  note_decision-Still is_deny s = ground arith

  pub reply-Quiet :
      (m : Envelope) (type : String) (payload : Fields) (s : NodeSession env)
      → Quiet s (reply env m type payload s)
  unfolding reply sign_out write log_hop
  reply-Quiet m type payload s = ground arith

  pub reply-Still :
      (m : Envelope) (type : String) (payload : Fields) (s : NodeSession env)
      → Still s (reply env m type payload s)
  unfolding reply sign_out write log_hop
  reply-Still m type payload s = ground arith

  pub send_session_end-Quiet : (s : NodeSession env) → Quiet s (send_session_end env s)
  unfolding send_session_end sign_out write log_hop
  send_session_end-Quiet s = ground arith

  pub send_user_query-Quiet :
      (text : String) (s : NodeSession env) → Quiet s (send_user_query env text s)
  unfolding send_user_query arm_guest_wait sign_out write log_hop
  send_user_query-Quiet text s = ground arith
