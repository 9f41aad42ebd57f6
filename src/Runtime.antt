-- ===== src/Runtime.antt =====
-- src/corvus_node/runtime/wire.py: the guest's end of the stream, and the actions of the runtime. An
-- action takes the state of the wire and gives a result and the next state, also when it raises.
pub mod Engines
pub mod Turn
pub mod Keeps
pub mod Loop
pub mod Steady
pub mod Run
pub mod Key
pub mod Delivery
pub mod History
pub mod Errors
pub use corvus_node.Program.{Program, Result, ok, err, pure, raise, ◌>>=◌, ◌>>◌, raise_if}
use corvus_node.Prelude.{
  ℕ, ◌+◌, String, Bool, true, false, Option, none, some, List, [], ◌∷◌, ◌++◌, ◌==◌, if◌then◌else◌,
}
use corvus_node.Prelude.Int.{ℤ, pos, negsuc}
use corvus_node.Json.{Value, null, boolean, num, float, str, arr, nil, obj, Fields, end}
use corvus_node.Protocol.{
  Envelope, EngineId, Destination, to_node, MessageClass, Decoded, decoded, codec_error,
}
use corvus_node.Protocol.Validator.{GuestError, Validation, valid, rejected, validate_outbound}
use corvus_node.Protocol.Mac.{
  Digests, HopMac, MacError, sign, verify, Verified, accepted, refused, uncomparable, set_key,
  set_bind,
}

-- The n-th draw gives an identifier and a time. `from_hex` gives the hexadecimal text of the bytes
-- that a text stands for, and `int_of_text`, `int_of_float` what `int` makes of a text and a float.
pub record GuestEnv : Type 0 where
  pub digests : Digests
  pub uuid4 : ℕ → String
  pub timestamp : ℕ → String
  pub decode_line : String → Decoded
  pub from_hex : String → Option String
  pub int_of_text : String → Option ℤ
  pub int_of_float : String → Option ℤ

-- A line of the stream, one that is no UTF-8, or one over the limit of the reader, 64 KiB.
pub data Line : Type 0 where
  line : String → Line
  not_utf8 too_long : Line

-- The lines that will come, and what was written.
pub record Wire : Type 0 where
  pub mac : HopMac
  pub inbox : List Line
  pub sent : List Envelope
  pub draws : ℕ

-- What the runtime raises; `exhausted` is no error of the code but the end of the fuel.
pub data Failure : Type 0 where
  invalid : GuestError → Failure
  closed bad_utf8 : Failure
  bad_line : String → Failure
  bad_mac : MacError → Failure
  runtime_error : String → Failure
  type_error value_error exhausted : Failure

abbrev pub Action {ℓ} : Type ℓ → Type ℓ
Action A = Program Wire Failure A

abbrev pub or_raise {ℓ} : {A : Type ℓ} → Failure → Option A → Action A
or_raise e none = raise e
or_raise e (some a) = pure a

module _ (env : GuestEnv) where
  -- A line that has come is decoded and verified.
  unfoldable pub accept_line : Line → Action Envelope
  accept_line not_utf8 w = (err bad_utf8, w)
  accept_line too_long w = (err value_error, w)
  accept_line (line text) w = elim (env.decode_line text) [
    | codec_error e ↦ (err (bad_line e), w)
    | decoded m ↦ elim (verify env.digests w.mac m) [
      | refused e mac ↦ (err (bad_mac e), record w { mac = mac })
      | uncomparable mac ↦ (err type_error, record w { mac = mac })
      | accepted mac ↦ (ok m, record w { mac = mac })
    ]
  ]

  abbrev read_from : List Line → Action Envelope
  read_from [] w = (err closed, w)
  read_from (l ∷ ls) w = accept_line l (record w { inbox = ls })

  -- `Wire.read`
  unfoldable pub read : Action Envelope
  unfolding accept_line
  read w = read_from w.inbox w

  abbrev validated : Validation → Action (Unit {0})
  validated valid = pure tt
  validated (rejected e) = raise (invalid e)

  -- The message is signed and written.
  unfoldable pub send : Envelope → Action (Unit {0})
  send m w =
      let (signed, mac) = sign env.digests w.mac m in
      (ok tt, record w { mac = mac; sent = w.sent ++ (signed ∷ []) })

  -- `Wire.request`
  unfoldable pub request : Envelope → EngineId → Action Envelope
  unfolding send read
  request m claimed_engine = do validated (validate_outbound m claimed_engine); send m; read

  -- An envelope to the Node with a fresh identifier and time.
  unfoldable pub compose :
      Option String → EngineId → MessageClass → String → Fields → Action Envelope
  compose origin source class type payload w = (
    ok (record {
      id = env.uuid4 w.draws;
      correlation_id = env.uuid4 (w.draws + 1);
      origin_correlation_id = origin;
      timestamp = env.timestamp w.draws;
      source_engine = source;
      destination = to_node;
      dest_target = "";
      message_class = class;
      type = type;
      payload = payload;
      seq = pos 0;
      payload_sha256 = "";
      mac = "";
    }),
    record w { draws = w.draws + 2 },
  )

  -- An envelope of an engine, sent by it.
  unfoldable pub ask : Option String → EngineId → MessageClass → String → Fields → Action Envelope
  unfolding compose request
  ask origin source class type payload = do
    m ← compose origin source class type payload
    request m source

  -- `Wire.set_session_key`
  unfoldable pub set_session_key : String → Action (Unit {0})
  set_session_key key w = elim (env.from_hex key) [
    | none ↦ (err value_error, w)
    | some hex ↦ (ok tt, record w { mac = set_key hex w.mac })
  ]

  -- `Wire.set_bind`
  unfoldable pub bind_to : String → ℤ → Action (Unit {0})
  bind_to vm cid w = (ok tt, record w { mac = set_bind vm cid w.mac })

  -- `int(value or 0)`
  abbrev pub int_of : Value → Action ℤ
  int_of (num n) = pure n
  int_of (boolean b) = pure (if b then pos 1 else pos 0)
  int_of (str s) = if s == "" then pure (pos 0) else or_raise value_error (env.int_of_text s)
  int_of (float s) = or_raise value_error (env.int_of_float s)
  int_of null = pure (pos 0)
  int_of (arr nil) = pure (pos 0)
  int_of (obj end) = pure (pos 0)
  int_of _ = raise type_error
