-- ===== src/Session/Approved.antt =====
-- A session lets a guest report on no call but those that it has approved.
use Prim.Native.String.{count, len}
use corvus_node.Prelude.{
  String, ◌≡◌, ◌≤◌, refl, sym, Bool, true, ◌&&◌, List, [], ◌∷◌, elem, Bool-cases, inl, inr, ◌⊎◌,
  ◌==◌,
}
use mathlib.Core.Path.{subst}
use corvus_node.Json.Text.{text_at}
use corvus_node.Protocol.{Envelope}
use corvus_node.Protocol.Mac.{HopMac, Verified, accepted, refused, uncomparable, verify}
use corvus_node.Session.{SessionEnv, NodeSession, Decoded, decoded, codec_error, tool_result_max}
use corvus_node.Session.Frame.{log_flag-Quiet}
use corvus_node.Session.Handlers.{on_tool_result}
use corvus_node.Session.Settled.{step_state, turn_cap-Quiet}
use corvus_node.Session.Replies.{on_tool_result_once}
use corvus_node.Session.Serve.{
  Incoming, timed_out, line, not_utf8, too_long, Step, going, ended, waits, failed, on_verified,
  on_decoded, count_line, step, over_cap, is_some, go_on, serve_loop,
}
use corvus_node.Session.Calls.{IsOpen, Approves, Quiet-IsOpen, on_message-calls}

module _ (env : SessionEnv) (id : String) where
  -- The line is a call with this id, after the handshake and with a MAC that the session accepts,
  -- that the policy allows.
  pub data Grants (done : Bool) (s : NodeSession env) : Incoming → Type 0 where
    grants :
        {text : String} (m : Envelope) (mac : HopMac)
        → env.decode_line text ≡ decoded m
        → verify env.digests s.mac m ≡ accepted mac
        → done ≡ true
        → Approves env id m s
        → Grants done s (line text)

  step_line-calls :
      (done : Bool) (text : String) (s : NodeSession env) (d : Decoded)
      → env.decode_line text ≡ d
      → IsOpen env id (step_state (on_decoded env done d (count_line env (len text) s)))
      → IsOpen env id s ⊎ Grants done s (line text)
  unfolding on_decoded on_verified count_line
  step_line-calls done text s (codec_error e) f h =
      inl (Quiet-IsOpen env id (log_flag-Quiet env _ _ _ (count_line env (len text) s)) h)
  step_line-calls done text s (decoded m) f h = by_mac (verify env.digests s.mac m) refl h
    where
      counted : NodeSession env
      counted = count_line env (len text) s

      by_mac :
          (v : Verified)
          → verify env.digests s.mac m ≡ v
          → IsOpen env id (step_state (on_verified env done m v counted))
          → IsOpen env id s ⊎ Grants done s (line text)
      by_mac (refused e mac) g h =
          inl (Quiet-IsOpen env id (log_flag-Quiet env _ _ _ (record counted { mac = mac })) h)
      by_mac (uncomparable mac) g h = inl h
      by_mac (accepted mac) g h =
          elim (on_message-calls env id done m (record counted { mac = mac }) h) [
            | inl p ↦ inl p
            | inr (d, a) ↦ inr (grants m mac f g d a)
          ]

  step-calls :
      (done : Bool) (i : Incoming) (s : NodeSession env)
      → IsOpen env id (step_state (step env done i s))
      → IsOpen env id s ⊎ Grants done s i
  unfolding step count_line
  step-calls done timed_out s h =
      inl (elim (Bool-cases (s.awaiting_guest && is_some s.turn_deadline)) [
        | inl k ↦ Quiet-IsOpen env id (turn_cap-Quiet env _ s) (rw k at h)
        | inr k ↦ rw k at h
      ])
  step-calls done (line text) s h =
      let counted = count_line env (len text) s in
      elim (Bool-cases (text == "")) [
        | inl k ↦ inl (rw k at h)
        | inr k ↦ elim (Bool-cases (over_cap env counted)) [
          | inl c ↦ inl (Quiet-IsOpen env id (turn_cap-Quiet env _ counted) (rw (k, c) at h))
          | inr c ↦ step_line-calls done text s (env.decode_line text) refl (rw (k, c) at h)
        ]
      ]
  step-calls done (not_utf8 size) s h =
      let counted = count_line env size s in
      inl (elim (Bool-cases (over_cap env counted)) [
        | inl k ↦ Quiet-IsOpen env id (turn_cap-Quiet env _ counted) (rw k at h)
        | inr k ↦ rw k at h
      ])
  step-calls done too_long s h = inl h

  -- In this run of the loop a line is such a call.
  pub data Approved : List Incoming → Bool → NodeSession env → Type 0 where
    here :
        {done : Bool} {s : NodeSession env} {i : Incoming} {is : List Incoming}
        → Grants done s i
        → Approved (i ∷ is) done s
    later :
        {done next : Bool} {s t : NodeSession env} {i : Incoming} {is : List Incoming}
        → step env done i s ≡ going next t
        → Approved is next t
        → Approved (i ∷ is) done s

  serve_loop-calls :
      (is : List Incoming) (done : Bool) (s : NodeSession env)
      → IsOpen env id (step_state (serve_loop env is done s))
      → IsOpen env id s ⊎ Approved is done s
  unfolding serve_loop
  serve_loop-calls [] done s h = inl h
  serve_loop-calls (i ∷ is) done s h =
      by_step (step env done i s) refl h (λ next t p. serve_loop-calls is next t p)
    where
      at_once :
          IsOpen env id (step_state (step env done i s))
          → IsOpen env id s ⊎ Approved (i ∷ is) done s
      at_once p = elim (step-calls done i s p) [ inl q ↦ inl q | inr g ↦ inr (here g) ]

      by_step :
          (r : Step env)
          → step env done i s ≡ r
          → IsOpen env id (step_state (go_on env (serve_loop env is) r))
          → ((next : Bool) (t : NodeSession env)
              → IsOpen env id (step_state (serve_loop env is next t))
              → IsOpen env id t ⊎ Approved is next t)
          → IsOpen env id s ⊎ Approved (i ∷ is) done s
      by_step (going next t) e h k = elim (k next t h) [
        | inr p ↦ inr (later e p)
        | inl p ↦ at_once (subst (λ (r : Step env). IsOpen env id (step_state r)) (sym e) p)
      ]
      by_step (ended t) e h k =
          at_once (subst (λ (r : Step env). IsOpen env id (step_state r)) (sym e) h)
      by_step (waits t) e h k =
          at_once (subst (λ (r : Step env). IsOpen env id (step_state r)) (sym e) h)
      by_step (failed t) e h k =
          at_once (subst (λ (r : Step env). IsOpen env id (step_state r)) (sym e) h)

module _ (env : SessionEnv) where
  -- In a session that starts without calls whose results are awaited, a tool result is
  -- acknowledged after some lines of the guest only if one of them was an accepted call with the
  -- id of the result that the policy allowed, and the result is within the limit; the same message
  -- after it is answered with an error.
  pub on_tool_result-Approved :
      (is : List Incoming) (done : Bool) (s : NodeSession env) (m : Envelope) {next : Bool}
      {t : NodeSession env}
      → s.outstanding_calls ≡ []
      → serve_loop env is done s ≡ going next t
      → (on_tool_result env m t).type ≡ "tool_result_ack"
      → Approved env (text_at "id" m.payload) is done s
        × (count (text_at "result" m.payload) ≤ tool_result_max)
        × ((on_tool_result env m (on_tool_result env m t).state).type ≡ "error")
  unfolding elem
  on_tool_result-Approved is done s m {next} {t} fresh run ack =
      let (held, fits, again) = on_tool_result_once env m t ack in
      let id = text_at "id" m.payload in
      let reached =
        subst (λ (r : Step env). elem id (step_state r).outstanding_calls ≡ true) (sym run) held in
      (
        elim (serve_loop-calls env id is done s reached) [
          | inr p ↦ p
          | inl p ↦ absurd (cc (rw fresh at p))
        ],
        fits,
        again,
      )
