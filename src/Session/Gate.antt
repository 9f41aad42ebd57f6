-- ===== src/Session/Gate.antt =====
-- What one turn of the loop may do to the host's disk.
use Prim.Native.String.{len}
use corvus_node.Prelude.{
  String, ◌≡◌, refl, sym, ◌∙◌, Bool, true, false, not, ◌&&◌, none, Bool-cases, inl, inr, ◌⊎◌, ◌==◌,
}
use corvus_node.Json.{end}
use corvus_node.Protocol.{Envelope}
use corvus_node.Protocol.Mac.{HopMac, Verified, accepted, refused, uncomparable, verify}
use corvus_node.Policy.{evaluate, is_allow}
use corvus_node.Session.{SessionEnv, NodeSession, Decoded, decoded, codec_error, log_hop, hop_of}
use corvus_node.Session.Frame.{log_hop-Quiet, log_flag-Quiet}
use corvus_node.Session.Settled.{step_state, conclude-Quiet, turn_cap-Quiet}
use corvus_node.Session.Handlers.{dispatch}
use corvus_node.Session.Confined.{InFolder, dispatch-disk, call_arguments, InFolder-transport}
use corvus_node.Session.Serve.{
  Incoming, timed_out, line, not_utf8, too_long, on_message, on_verified, on_decoded, count_line,
  step, over_cap, is_some,
}

module _ (env : SessionEnv) where
  pub was_done : (done : Bool) → (not done && true) ≡ false → done ≡ true
  was_done true h = refl
  was_done false h = sym h

  -- A call of a tool, after the handshake, that the policy allows and whose path is in the folder.
  abbrev pub Call : Bool → Envelope → NodeSession env → Type 0
  Call done m s =
      (done ≡ true)
      × (m.type ≡ "tool_call")
      × (is_allow (evaluate s.policy m).decision ≡ true)
      × InFolder env s.config s.disk (call_arguments m)

  on_message-disk :
      (done : Bool) (m : Envelope) (s : NodeSession env)
      → ((step_state (on_message env done m s)).disk ≡ s.disk) ⊎ Call done m s
  unfolding on_message
  on_message-disk done m s =
      let logged = log_hop env (hop_of env m m.type) none end s in
      let quiet = log_hop-Quiet env (hop_of env m m.type) none end s in
      elim (Bool-cases (not done && not (m.type == "handshake"))) [
        | inl h ↦ inl (rw h ((log_flag-Quiet env "pre_handshake" _ _ logged).disk ∙ quiet.disk))
        | inr h ↦ rw h (elim (dispatch-disk env m logged) [
          | inl same ↦ inl ((conclude-Quiet env m (dispatch env m logged)).disk ∙ same ∙ quiet.disk)
          | inr (e, a, p) ↦ inr (
            was_done done (rw e at h),
            e,
            rw (quiet.policy) at a,
            InFolder-transport env (call_arguments m) quiet.config quiet.disk p,
          )
        ])
      ]

  -- The line of this turn is a call with a MAC that the session accepts.
  pub data CallIn (done : Bool) (s : NodeSession env) : Incoming → Type 0 where
    call_in :
        {text : String} (m : Envelope) (mac : HopMac)
        → env.decode_line text ≡ decoded m
        → verify env.digests s.mac m ≡ accepted mac
        → Call done m s
        → CallIn done s (line text)

  step_line-disk :
      (done : Bool) (text : String) (s : NodeSession env) (d : Decoded)
      → env.decode_line text ≡ d
      → ((step_state (on_decoded env done d (count_line env (len text) s))).disk ≡ s.disk)
        ⊎ CallIn done s (line text)
  unfolding on_decoded on_verified count_line
  step_line-disk done text s (codec_error e) f =
      inl (log_flag-Quiet env _ _ _ (count_line env (len text) s)).disk
  step_line-disk done text s (decoded m) f = by_mac (verify env.digests s.mac m) refl
    where
      by_mac :
          (v : Verified)
          → verify env.digests s.mac m ≡ v
          → ((step_state (on_verified env done m v (count_line env (len text) s))).disk ≡ s.disk)
            ⊎ CallIn done s (line text)
      by_mac (refused e mac) g =
          inl (log_flag-Quiet env _ _ _ (record (count_line env (len text) s) { mac = mac })).disk
      by_mac (uncomparable mac) g = inl refl
      by_mac (accepted mac) g =
          elim (on_message-disk done m (record (count_line env (len text) s) { mac = mac })) [
            | inl same ↦ inl same
            | inr call ↦ inr (call_in m mac f g call)
          ]

  -- One turn of the session's loop leaves the host's disk as it is, unless the handshake is done
  -- and the line decodes to a message whose MAC and sequence number the session accepts, which
  -- calls a tool that the policy allows, with a path confined to the folder of the launch.
  pub step-disk :
      (done : Bool) (i : Incoming) (s : NodeSession env)
      → ((step_state (step env done i s)).disk ≡ s.disk) ⊎ CallIn done s i
  unfolding step count_line
  step-disk done timed_out s =
      inl (elim (Bool-cases (s.awaiting_guest && is_some s.turn_deadline)) [
        | inl h ↦ rw h (turn_cap-Quiet env _ s).disk
        | inr h ↦ rw h refl
      ])
  step-disk done (line text) s =
      let counted = count_line env (len text) s in
      elim (Bool-cases (text == "")) [
        | inl h ↦ inl (rw h refl)
        | inr h ↦ rw h (elim (Bool-cases (over_cap env counted)) [
          | inl k ↦ inl (rw k (turn_cap-Quiet env _ counted).disk)
          | inr k ↦ rw k (step_line-disk done text s (env.decode_line text) refl)
        ])
      ]
  step-disk done (not_utf8 size) s =
      let counted = count_line env size s in
      inl (elim (Bool-cases (over_cap env counted)) [
        | inl k ↦ rw k (turn_cap-Quiet env _ counted).disk
        | inr k ↦ rw k refl
      ])
  step-disk done too_long s = inl refl
