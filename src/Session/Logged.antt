-- ===== src/Session/Logged.antt =====
-- The audit journal verifies through all that a session does.
use corvus_node.Prelude.{◌+◌, String, Bool, true, false, Option, none, Bool-cases, inl, inr, leb}
use corvus_node.Json.{Fields, end}
use corvus_node.Audit as A
use corvus_node.Audit.{AuditStore, Hop, append}
use corvus_node.Audit.Chain.{Verifies, append-Verifies}
use corvus_node.Protocol.{Envelope}
use corvus_node.Session.{
  SessionEnv, NodeSession, log_hop, log_flag, log_elevate, sign_out, write, reply, note_decision,
  send_session_init, send_user_query, send_session_end, arm_guest_wait, deny_burst,
}

module _ (env : SessionEnv) where
  abbrev pub IsLogged : NodeSession env → Type 0
  IsLogged s = Verifies env.digests s.audit

  pub log_hop-IsLogged :
      (hop : Hop) (decision : Option String) (details : Fields) (s : NodeSession env)
      → IsLogged s
      → IsLogged (log_hop env hop decision details s)
  unfolding log_hop append A.log_hop
  log_hop-IsLogged hop decision details s v = append-Verifies env.digests _ s.audit v

  pub log_flag-IsLogged :
      (code : String) (hop : Hop) (details : Fields) (s : NodeSession env)
      → IsLogged s
      → IsLogged (log_flag env code hop details s)
  unfolding log_flag append A.log_flag
  log_flag-IsLogged code hop details s v = append-Verifies env.digests _ s.audit v

  pub log_elevate-IsLogged :
      (hop : Hop) (details : Fields) (s : NodeSession env)
      → IsLogged s
      → IsLogged (log_elevate env hop details s)
  unfolding log_elevate append A.log_elevate
  log_elevate-IsLogged hop details s v = append-Verifies env.digests _ s.audit v

  write-IsLogged : (m : Envelope) (s : NodeSession env) → IsLogged s → IsLogged (write env m s)
  unfolding write
  write-IsLogged m s v = log_hop-IsLogged _ none end s v

  pub reply-IsLogged :
      (m : Envelope) (type : String) (payload : Fields) (s : NodeSession env)
      → IsLogged s
      → IsLogged (reply env m type payload s)
  unfolding reply sign_out
  reply-IsLogged m type payload s v = write-IsLogged _ _ v

  pub note_decision-IsLogged :
      (denied : Bool) (s : NodeSession env) → IsLogged s → IsLogged (note_decision env denied s)
  unfolding note_decision
  note_decision-IsLogged false s v = v
  note_decision-IsLogged true s v = elim (Bool-cases (leb deny_burst (s.deny_streak + 1))) [
    | inl h ↦ rw h (log_flag-IsLogged _ _ _ (record s { deny_streak = s.deny_streak + 1 }) v)
    | inr h ↦ rw h v
  ]

  pub send_session_init-IsLogged :
      (s : NodeSession env) → IsLogged s → IsLogged (send_session_init env s)
  unfolding send_session_init sign_out
  send_session_init-IsLogged s v = write-IsLogged _ _ v

  pub send_user_query-IsLogged :
      (text : String) (s : NodeSession env) → IsLogged s → IsLogged (send_user_query env text s)
  unfolding send_user_query sign_out arm_guest_wait
  send_user_query-IsLogged text s v = write-IsLogged _ _ v

  pub send_session_end-IsLogged :
      (s : NodeSession env) → IsLogged s → IsLogged (send_session_end env s)
  unfolding send_session_end sign_out
  send_session_end-IsLogged s v = write-IsLogged _ _ v
