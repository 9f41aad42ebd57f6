-- ===== src/Control.antt =====
-- src/corvus_node/node/control.py: the frames of the operator's socket. `loads` stands for
-- `json.loads`; a line is the text of its bytes.
use corvus_node.Prelude.{
  String, ◌<>◌, ◌≡◌, ◌≢◌, false, Option, none, some, ◌==◌, refl, inl, inr, Bool-cases, eq_iff,
  arith, chars, of_chars, strip, if◌then◌else◌,
}
use mathlib.Core.Path.{subst}
use corvus_node.Json.{Value, null, str, obj, Fields, end, field, get}
use corvus_node.Json.Text.{text}
use corvus_node.Json.{truthy}
use corvus_node.Json.Dumps.{dumps}

pub record Frame : Type 0 where
  pub type : String
  pub payload : Fields

-- A frame, or a `ControlError` with its code and text.
pub data Decoding : Type 0 where
  framed : Frame → Decoding
  control_error : String → String → Decoding

-- What `json.loads` gives: a value, or the text of its error.
pub data Parsed : Type 0 where
  value : Value → Parsed
  invalid : String → Parsed

unfoldable pub encode_frame : String → Fields → String
encode_frame type payload =
    dumps (obj (field "type" (str type) (field "payload" (obj payload) end))) <> "\n"

abbrev frame_payload : String → Option Value → Decoding
frame_payload type none = framed (record { type = type; payload = end })
frame_payload type (some null) = framed (record { type = type; payload = end })
frame_payload type (some (obj payload)) = framed (record { type = type; payload = payload })
frame_payload type (some _) = control_error "codec" "control payload must be an object"

abbrev typed_frame : Fields → Option Value → Decoding
typed_frame fields (some (str type)) =
    if type == ""
    then control_error "codec" "control frame missing type"
    else frame_payload type (get "payload" fields)
typed_frame fields _ = control_error "codec" "control frame missing type"

abbrev parsed_frame : Parsed → Decoding
parsed_frame (invalid why) = control_error "codec" ("invalid control JSON: " <> why)
parsed_frame (value (obj fields)) = typed_frame fields (get "type" fields)
parsed_frame (value _) = control_error "codec" "control frame missing type"

unfoldable pub decode_frame : (String → Parsed) → String → Decoding
unfolding strip
decode_frame loads line =
    let t = of_chars (strip (chars line)) in
    if t == "" then control_error "codec" "empty control frame" else parsed_frame (loads t)

-- `str(payload.get(key) or default)`
abbrev pub text_or : String → String → Fields → String
text_or default key fields = elim (get key fields) [
  | none ↦ default
  | some v ↦ if truthy v then text v else default
]

-- `ControlClient.read`, after a line has come: an error frame is raised.
unfoldable pub client_read : (String → Parsed) → String → Decoding
unfolding decode_frame get
client_read loads line = elim (decode_frame loads line) [
  | control_error code why ↦ control_error code why
  | framed f ↦
      if f.type == "error"
      then control_error (text_or "control" "code" f.payload)
          (text_or "control error" "reason" f.payload)
      else framed f
]

frame_payload-type :
    (type : String) (payload : Option Value) (f : Frame)
    → frame_payload type payload ≡ framed f
    → (type == "") ≡ false
    → f.type ≢ ""
frame_payload-type type payload f h e = ground (arith, h, eq_iff type "")

typed_frame-type :
    (fields : Fields) (type : Option Value) (f : Frame)
    → typed_frame fields type ≡ framed f
    → f.type ≢ ""
typed_frame-type fields (some (str type)) f h = elim (Bool-cases (type == "")) [
  | inl e ↦ cc (rw e at h)
  | inr e ↦ λ empty. frame_payload-type type (get "payload" fields) f (rw e at h) e empty
]
typed_frame-type fields _ f h = cc h

parsed_frame-type : (r : Parsed) (f : Frame) → parsed_frame r ≡ framed f → f.type ≢ ""
parsed_frame-type (value (obj fields)) f h = typed_frame-type fields (get "type" fields) f h
parsed_frame-type _ f h = cc h

framed_inj : (g f : Frame) → framed g ≡ framed f → g ≡ f
framed_inj g f h = cc h

decode_frame-type :
    (loads : String → Parsed) (line : String) (f : Frame)
    → decode_frame loads line ≡ framed f
    → f.type ≢ ""
unfolding decode_frame
decode_frame-type loads line f h =
    let t = of_chars (strip (chars line)) in
    elim (Bool-cases (t == "")) [
      | inl k ↦ cc (rw (k, decode_frame) at h)
      | inr k ↦ parsed_frame-type (loads t) f (rw (k, decode_frame) at h)
    ]

-- What the client is given is a frame with a type that is neither empty nor "error".
pub client_read-type :
    (loads : String → Parsed) (line : String) (f : Frame)
    → client_read loads line ≡ framed f
    → (f.type ≢ "") × (f.type ≢ "error")
unfolding client_read
client_read-type loads line f h = by_decoding (decode_frame loads line) refl
  where
    by_decoding : (r : Decoding) → decode_frame loads line ≡ r → (f.type ≢ "") × (f.type ≢ "error")
    by_decoding (control_error code why) e = cc (rw (e, client_read) at h)
    by_decoding (framed g) e = elim (Bool-cases (g.type == "error")) [
      | inl k ↦ cc (rw (e, client_read, k) at h)
      | inr k ↦
          let same = framed_inj g f (rw (e, client_read, k) at h) in
          subst (λ (x : Frame). (x.type ≢ "") × (x.type ≢ "error")) same
            (decode_frame-type loads line g e, ground (arith, k, eq_iff g.type "error"))
    ]
