-- ===== src/Runtime/Errors.antt =====
-- What reading leaves when it raises.
use corvus_node.Prelude.{◌≡◌, refl, ap, List, [], ◌∷◌, sym}
use mathlib.Core.Path.{subst}
use corvus_node.Protocol.{Envelope, Decoded, decoded, codec_error}
use corvus_node.Runtime.Steady.{taken, decoding, accept_line-decoding}
use corvus_node.Protocol.Mac.{HopMac, Verified, accepted, refused, uncomparable, verify}
use corvus_node.Protocol.Mac.Hop.{verify-refused, verify-uncomparable}
use corvus_node.Runtime.{
  GuestEnv, Wire, Line, line, not_utf8, too_long, Result, err, Failure, accept_line, read,
  read_from,
}

taken-error :
    (env : GuestEnv) (w : Wire) (m : Envelope) (v : Verified) {e : Failure}
    → verify env.digests w.mac m ≡ v
    → (taken w m v).0 ≡ err e
    → (taken w m v).1 ≡ w
taken-error env w m (refused x mac) p h =
    ap (λ (g : HopMac). record w { mac = g }) (verify-refused _ w.mac m p)
taken-error env w m (uncomparable mac) p h =
    ap (λ (g : HopMac). record w { mac = g }) (verify-uncomparable _ w.mac m p)
taken-error env w m (accepted mac) p h = cc h

decoding-error :
    (env : GuestEnv) (w : Wire) (o : Decoded) {e : Failure}
    → (decoding env w o).0 ≡ err e
    → (decoding env w o).1 ≡ w
decoding-error env w (codec_error x) h = refl
decoding-error env w (decoded m) {e} h =
    taken-error env w m (verify env.digests w.mac m) {e = e} refl h

accept_line-error :
    (env : GuestEnv) (l : Line) (w : Wire) {e : Failure}
    → (accept_line env l w).0 ≡ err e
    → (accept_line env l w).1 ≡ w
unfolding accept_line
accept_line-error env not_utf8 w h = refl
accept_line-error env too_long w h = refl
accept_line-error env (line text) w {e} h =
    subst (λ (o : Result Failure Envelope × Wire). o.0 ≡ err e → o.1 ≡ w)
      (sym (accept_line-decoding env text w))
      (λ q. decoding-error env w (env.decode_line text) {e = e} q) h

-- When the guest's reading raises, its hop, what it has sent and its count of draws are as before.
pub read-error :
    (env : GuestEnv) (w : Wire) {e : Failure}
    → (read env w).0 ≡ err e
    → ((read env w).1.mac ≡ w.mac)
      × ((read env w).1.sent ≡ w.sent)
      × ((read env w).1.draws ≡ w.draws)
unfolding read
read-error env w {e} h = from w.inbox h
  where
    from :
        (ls : List Line)
        → (read_from env ls w).0 ≡ err e
        → ((read_from env ls w).1.mac ≡ w.mac)
          × ((read_from env ls w).1.sent ≡ w.sent)
          × ((read_from env ls w).1.draws ≡ w.draws)
    from [] h = (refl, refl, refl)
    from (l ∷ ls) h =
        let same = accept_line-error env l (record w { inbox = ls }) {e = e} h in
        (
          ap (λ (v : Wire). v.mac) same,
          ap (λ (v : Wire). v.sent) same,
          ap (λ (v : Wire). v.draws) same,
        )
