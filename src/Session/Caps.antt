-- ===== src/Session/Caps.antt =====
-- The caps of `serve`: messages and bytes of one wait, and turns of a session.
use Prim.Native.String.{len}
use corvus_node.Prelude.{
  refl, ℕ, ◌+◌, ◌<◌, ◌≤◌, ◌⊎◌, ◌∙◌, ◌≤◌, String, ◌≡◌, Bool, true, false, not, ◌||◌, ◌&&◌, none,
  some, List, [], ◌∷◌, leb, arith, Bool-cases, inl, inr, ◌==◌, if◌then◌else◌,
}
use mathlib.Core.Path.{subst}
use corvus_node.Json.{end}
use corvus_node.Protocol.{Envelope}
use corvus_node.Protocol.Mac.{Verified, accepted, refused, uncomparable}
use corvus_node.Session.{
  SessionEnv, NodeSession, Decoded, decoded, codec_error, max_messages, max_bytes,
  max_session_turns, log_hop, hop_of, send_user_query, arm_guest_wait, write, sign_out,
}
use corvus_node.Session.Handlers.{Handled, answered, raised}
use corvus_node.Session.Serve.{
  Incoming, timed_out, line, not_utf8, too_long, Step, going, ended, waits, failed, Prompted,
  prompted, next_prompt, unprompted, follow, greet, after_agent_response, over_cap, is_some, go_on,
  after_handshake, conclude, on_message, on_verified, on_decoded, count_line, turn_cap, step,
  serve_loop,
}
use corvus_node.Session.Frame.{Still, log_hop-Still, reply-Still}
use corvus_node.Session.Answers.{handled_state, dispatch-Still}

pub record IsWithin {env : SessionEnv} (s : NodeSession env) : Type 0 where
  pub messages : s.messages ≤ max_messages
  pub bytes : s.bytes ≤ max_bytes

-- Within the caps, and either in a later turn, or in turn `n` with these counts.
pub record After {env : SessionEnv} (n k b : ℕ) (s : NodeSession env) : Type 0 where
  pub messages : s.messages ≤ max_messages
  pub bytes : s.bytes ≤ max_bytes
  pub turn : (n < s.turns) ⊎ ((s.turns ≡ n) × (s.messages ≡ k) × (s.bytes ≡ b))

-- So it is if the loop goes on.
abbrev pub GoesOn : {env : SessionEnv} → ℕ → ℕ → ℕ → Step env → Type 0
GoesOn n k b (going done s) = After n k b s
GoesOn n k b (ended s) = Unit
GoesOn n k b (waits s) = Unit
GoesOn n k b (failed s) = Unit

-- The lines and bytes that the stream gives.
abbrev pub lines_in : Incoming → ℕ
lines_in timed_out = 0
lines_in (line text) = 1
lines_in (not_utf8 size) = 1
lines_in too_long = 0

abbrev pub bytes_in : Incoming → ℕ
bytes_in timed_out = 0
bytes_in (line text) = len text
bytes_in (not_utf8 size) = size
bytes_in too_long = 0

abbrev pub total : (Incoming → ℕ) → List Incoming → ℕ
total f [] = 0
total f (i ∷ is) = f i + total f is

module _ (env : SessionEnv) where
  prompt_turns : Prompted env → ℕ
  prompt_turns (prompted _ s) = s.turns
  prompt_turns (unprompted s) = s.turns

  next_prompt-turns : (s : NodeSession env) → prompt_turns (next_prompt env s) ≡ s.turns
  unfolding next_prompt prompt_turns
  next_prompt-turns s = ground arith

  -- A message that is handled from turn `n` on, with these counts.
  module _ (n k b : ℕ) where
    After-le : (s : NodeSession env) → After n k b s → n ≤ s.turns
    After-le s w = elim w.turn [ inl p ↦ omega (arith, p) | inr (e, f, g) ↦ omega (arith, e) ]

    Still-After : {s t : NodeSession env} → Still s t → After n k b s → After n k b t
    Still-After q w = record {
      messages = rw q.messages w.messages;
      bytes = rw q.bytes w.bytes;
      turn = elim w.turn [
        | inl p ↦ inl (rw q.turns p)
        | inr (x, y, z) ↦ inr (q.turns ∙ x, q.messages ∙ y, q.bytes ∙ z)
      ];
    }

    send_user_query-After :
        (text : String) (s : NodeSession env)
        → n ≤ s.turns
        → After n k b (send_user_query env text s)
    unfolding send_user_query arm_guest_wait sign_out write log_hop
    send_user_query-After text s h = record {
      messages = omega arith;
      bytes = omega arith;
      turn = inl (omega (arith, h));
    }

    either-GoesOn :
        (c : Bool) (x y : Step env)
        → GoesOn n k b x
        → GoesOn n k b y
        → GoesOn n k b (if c then x else y)
    either-GoesOn true x y v w = v
    either-GoesOn false x y v w = w

    greet-GoesOn : (p : Prompted env) → n ≤ prompt_turns p → GoesOn n k b (greet env p)
    unfolding greet prompt_turns
    greet-GoesOn (unprompted s) h = tt
    greet-GoesOn (prompted none s) h =
        either-GoesOn s.config.once _ _ (send_user_query-After "" s h) tt
    greet-GoesOn (prompted (some text) s) h = send_user_query-After text s h

    follow-GoesOn : (p : Prompted env) → n ≤ prompt_turns p → GoesOn n k b (follow env p)
    unfolding follow prompt_turns
    follow-GoesOn (unprompted s) h = tt
    follow-GoesOn (prompted none s) h = tt
    follow-GoesOn (prompted (some text) s) h = send_user_query-After text s h

    after_agent_response-GoesOn :
        (s : NodeSession env) → n ≤ s.turns → GoesOn n k b (after_agent_response env s)
    unfolding after_agent_response
    after_agent_response-GoesOn s h =
        either-GoesOn (s.config.once || leb max_session_turns s.turns) _ _ tt
          (follow-GoesOn _ (rw (next_prompt-turns _) h))

    conclude-GoesOn :
        (m : Envelope) (h : Handled env)
        → After n k b (handled_state h)
        → GoesOn n k b (conclude env m h)
    unfolding conclude after_handshake
    conclude-GoesOn m (raised s) w = tt
    conclude-GoesOn m (answered a) w =
        let v = Still-After (reply-Still env m a.type a.payload a.state) w in
        let le = After-le _ v in
        either-GoesOn (m.type == "handshake") _ _ (greet-GoesOn _ (rw (next_prompt-turns _) le))
          (either-GoesOn (m.type == "agent_response") _ _ (after_agent_response-GoesOn _ le) v)

    on_message-GoesOn :
        (done : Bool) (m : Envelope) (s : NodeSession env)
        → After n k b s
        → GoesOn n k b (on_message env done m s)
    unfolding on_message
    on_message-GoesOn done m s w =
        let logged = log_hop env (hop_of env m m.type) none end s in
        let v = Still-After (log_hop-Still env (hop_of env m m.type) none end s) w in
        either-GoesOn (not done && not (m.type == "handshake")) _ _ tt
          (conclude-GoesOn m _ (Still-After (dispatch-Still env m logged) v))

    on_verified-GoesOn :
        (done : Bool) (m : Envelope) (v : Verified) (s : NodeSession env)
        → After n k b s
        → GoesOn n k b (on_verified env done m v s)
    unfolding on_verified
    on_verified-GoesOn done m (refused e mac) s w = tt
    on_verified-GoesOn done m (uncomparable mac) s w = tt
    on_verified-GoesOn done m (accepted mac) s w =
        on_message-GoesOn done m _
          (record { messages = w.messages; bytes = w.bytes; turn = w.turn })

    on_decoded-GoesOn :
        (done : Bool) (d : Decoded) (s : NodeSession env)
        → After n k b s
        → GoesOn n k b (on_decoded env done d s)
    unfolding on_decoded
    on_decoded-GoesOn done (codec_error e) s w = tt
    on_decoded-GoesOn done (decoded m) s w = on_verified-GoesOn done m _ s w

  counted-After :
      (size : ℕ) (s : NodeSession env)
      → over_cap env (count_line env size s) ≡ false
      → After s.turns (s.messages + 1) (s.bytes + size) (count_line env size s)
  unfolding count_line
  counted-After size s h = record {
    messages = ground (arith, h);
    bytes = ground (arith, h);
    turn = inr (refl, refl, refl);
  }

  -- One turn of the loop counts what it reads, unless it sends a new query.
  step-GoesOn :
      (done : Bool) (i : Incoming) (s : NodeSession env)
      → IsWithin s
      → GoesOn s.turns (s.messages + lines_in i) (s.bytes + bytes_in i) (step env done i s)
  unfolding step turn_cap
  step-GoesOn done timed_out s w =
      either-GoesOn _ _ _ (s.awaiting_guest && is_some s.turn_deadline) _ _ tt (record {
        messages = w.messages;
        bytes = w.bytes;
        turn = inr (refl, omega arith, omega arith);
      })
  step-GoesOn done (line text) s w =
      let counted = count_line env (len text) s in
      either-GoesOn _ _ _ (text == "") _ _ tt (elim (Bool-cases (over_cap env counted)) [
        | inl h ↦ rw h tt
        | inr h ↦ rw h (on_decoded-GoesOn _ _ _ done _ counted (counted-After (len text) s h))
      ])
  step-GoesOn done (not_utf8 size) s w =
      either-GoesOn _ _ _ (over_cap env (count_line env size s)) _ _ tt tt
  step-GoesOn done too_long s w = tt

  GoesOn-trans :
      (n k b x y : ℕ) (s : NodeSession env) (r : Step env)
      → After n k b s
      → (k' b' : ℕ) → k' ≡ k + x
      → b' ≡ b + y
      → GoesOn s.turns (s.messages + x) (s.bytes + y) r
      → GoesOn n k' b' r
  GoesOn-trans n k b x y s (going d t) w k' b' c c' v = record {
    messages = v.messages;
    bytes = v.bytes;
    turn = elim w.turn [
      | inl p ↦ elim v.turn [
        | inl q ↦ inl (omega (arith, p, q))
        | inr (e, f, g) ↦ inl (omega (arith, p, e))
      ]
      | inr (e, f, g) ↦ elim v.turn [
        | inl q ↦ inl (omega (arith, q, e))
        | inr (e', f', g') ↦ inr (e' ∙ e, omega (arith, f, f', c), omega (arith, g, g', c'))
      ]
    ];
  }
  GoesOn-trans n k b x y s (ended t) w k' b' c c' v = tt
  GoesOn-trans n k b x y s (waits t) w k' b' c c' v = tt
  GoesOn-trans n k b x y s (failed t) w k' b' c c' v = tt

  serve_loop-GoesOn :
      (is : List Incoming) (done : Bool) (s : NodeSession env)
      → IsWithin s
      → GoesOn s.turns
          (s.messages + total lines_in is)
          (s.bytes + total bytes_in is)
          (serve_loop env is done s)
  unfolding serve_loop
  serve_loop-GoesOn [] done s w = record {
    messages = w.messages;
    bytes = w.bytes;
    turn = inr (refl, omega arith, omega arith);
  }
  serve_loop-GoesOn (i ∷ is) done s w =
      by_step (step env done i s) (step-GoesOn done i s w) (λ d t v. serve_loop-GoesOn is d t v)
    where
      by_step :
          (r : Step env)
          → GoesOn s.turns (s.messages + lines_in i) (s.bytes + bytes_in i) r
          → ((d : Bool) (t : NodeSession env)
              → IsWithin t
              → GoesOn t.turns
                  (t.messages + total lines_in is)
                  (t.bytes + total bytes_in is)
                  (serve_loop env is d t))
          → GoesOn s.turns
              (s.messages + (lines_in i + total lines_in is))
              (s.bytes + (bytes_in i + total bytes_in is))
              (go_on env (serve_loop env is) r)
      by_step (going d t) v next =
          GoesOn-trans s.turns (s.messages + lines_in i) (s.bytes + bytes_in i) (total lines_in is)
            (total bytes_in is) t (serve_loop env is d t) v _ _ (omega arith) (omega arith)
            (next d t (record { messages = v.messages; bytes = v.bytes }))
      by_step (ended t) v next = tt
      by_step (waits t) v next = tt
      by_step (failed t) v next = tt

  -- If the loop starts within the caps and goes on without sending a new query, whatever the guest
  -- sends, the lines and bytes counted before and those that it has read since are together at
  -- most 64 lines and 1 MiB.
  pub serve_loop-cap :
      (is : List Incoming) (done : Bool) (s : NodeSession env) {d : Bool} {t : NodeSession env}
      → IsWithin s
      → serve_loop env is done s ≡ going d t
      → t.turns ≡ s.turns
      → (s.messages + total lines_in is ≤ max_messages) × (s.bytes + total bytes_in is ≤ max_bytes)
  serve_loop-cap is done s {d} {t} w e same =
      let v : After s.turns (s.messages + total lines_in is) (s.bytes + total bytes_in is) t =
        subst (GoesOn s.turns (s.messages + total lines_in is) (s.bytes + total bytes_in is)) e
          (serve_loop-GoesOn is done s w) in
      let counts =
        elim v.turn
          as (λ _.
            (t.messages ≡ s.messages + total lines_in is)
            × (t.bytes ≡ s.bytes + total bytes_in is)) [
              | inl p ↦ absurd (omega (arith, p, same))
              | inr (_, f, g) ↦ (f, g)
            ] in
      (omega (arith, counts.0, v.messages), omega (arith, counts.1, v.bytes))
