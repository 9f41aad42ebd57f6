-- ===== src/Cli/Screen.antt =====
-- src/corvus_node/node/chatview.py: what a chat writes on the terminal.
use corvus_node.Prelude.{
  ℕ, String, ◌<>◌, Char, code, Bool, false, not, ◌&&◌, ◌||◌, List, [], ◌∷◌, leb, ltb, ◌==ℕ◌, chars,
  of_chars, show_ℕ, if◌then◌else◌,
}
use corvus_node.Cli.{
  Host, Trace, looked, wrote, wrote_error, Received, Command, pure, ◌>>=◌, ◌>>◌, emit, ask,
}
use corvus_node.Cli.Header.{ChatChrome, format_header_lines, format_header_plain}

-- A line as it is read, empty at the end of the input, or an `InterruptedError`.
pub data Typed : Type 0 where
  interrupted : Typed
  typed : String → Typed

-- What comes from the operator and, after the attachment, from the Node, in turn; whether both streams
-- are a terminal, its size, and whether the size has changed.
pub record Terminal : Type 0 where
  pub lines : List Typed
  pub replies : List Received
  pub is_tty : Bool
  pub columns : Trace → ℕ
  pub rows : Trace → ℕ
  pub resized : Trace → Bool

abbrev is_break : ℕ → Bool
is_break n =
    (leb 10 n && leb n 13) || (leb 28 n && leb n 30) || n ==ℕ 0x85 || n ==ℕ 0x2028 || n ==ℕ 0x2029

abbrev starts_with_feed : List Char → Bool
starts_with_feed [] = false
starts_with_feed (c ∷ cs) = code c ==ℕ 10

abbrev add_to_first : Char → List (List Char) → List (List Char)
add_to_first c [] = (c ∷ []) ∷ []
add_to_first c (w ∷ ws) = (c ∷ w) ∷ ws

-- `text.splitlines(keepends=True)`
unfoldable pub splitlines : List Char → List (List Char)
splitlines [] = []
splitlines (c ∷ cs) =
    let rest = splitlines cs in
    if is_break (code c) && not (code c ==ℕ 13 && starts_with_feed cs)
    then (c ∷ []) ∷ rest
    else add_to_first c rest

-- `text if text.endswith("\n") else f"{text}\n"`
unfoldable pub with_feed : List Char → List Char
with_feed [] = "\n" ∷ []
with_feed (c ∷ cs) = elim cs [
  | [] ↦ if code c ==ℕ 10 then c ∷ [] else c ∷ "\n" ∷ []
  | _ ∷ _ ↦ c ∷ with_feed cs
]

abbrev spaces : List Char → List Char
spaces [] = []
spaces (c ∷ cs) = " " ∷ spaces cs

unfoldable pub write_lines : String → List (List Char) → Command (Unit {0})
write_lines pad [] = pure tt
write_lines pad (w ∷ ws) = emit (wrote (pad <> of_chars w)) >> write_lines pad ws

abbrev pub pad_of : String → String
pad_of model = of_chars (spaces (chars model)) <> "  "

-- `_print_reply`
abbrev pub write_reply : String → List (List Char) → Command (Unit {0})
write_reply model [] = pure tt
write_reply model (w ∷ ws) =
    emit (wrote (model <> ("  " <> of_chars w))) >> write_lines (pad_of model) ws

unfoldable pub print_reply : String → String → Command (Unit {0})
unfolding splitlines with_feed write_lines
print_reply model t = write_reply model (splitlines (with_feed (chars t)))

abbrev pub esc : String → String
esc t = "\u{1b}" <> t

abbrev pub save_text : String
save_text = esc "[s" <> esc "[r"

abbrev pub restore_text : String
restore_text = esc "[u"

abbrev pub leave_text : String
leave_text = esc "[r" <> esc "[?1049l"

-- `_write_header` and `_set_scroll` on a terminal of at least 20 columns and 6 rows.
abbrev pub at_least : ℕ → ℕ → ℕ
at_least low n = if ltb n low then low else n

abbrev pub header_texts : List (List Char) → String
header_texts [] = ""
header_texts (w ∷ ws) = elim ws [
  | [] ↦ of_chars w <> "\n"
  | _ ∷ _ ↦ esc "[7m" <> (of_chars w <> (esc "[0m" <> ("\n" <> header_texts ws)))
]

unfoldable pub header_text : ChatChrome → ℕ → String
unfolding format_header_lines
header_text chrome columns =
    esc "[H" <> header_texts (format_header_lines chrome (at_least 20 columns))

unfoldable pub scroll_text : ℕ → String
unfolding show_ℕ
scroll_text rows = esc "[4;" <> (show_ℕ (at_least 6 rows) <> ("r" <> esc "[4;1H"))

module _ (host : Host) (terminal : Terminal) where
  unfoldable pub draw_header : ChatChrome → Command (Unit {0})
  unfolding header_text scroll_text
  draw_header chrome = do
    columns ← ask (looked "size") terminal.columns
    rows ← ask (looked "size") terminal.rows
    emit (wrote (header_text chrome columns))
    emit (wrote (scroll_text rows))

  -- `_LiveScreen`
  unfoldable pub enter : ChatChrome → Command (Unit {0})
  unfolding draw_header format_header_plain
  enter chrome =
      if terminal.is_tty
      then emit (wrote (esc "[?1049h" <> esc "[2J")) >> draw_header chrome
      else emit (wrote_error (format_header_plain chrome 80))

  abbrev pub leave_screen : Command (Unit {0})
  leave_screen = if terminal.is_tty then emit (wrote leave_text) else pure tt

  abbrev pub relaid : ChatChrome → Bool → Command (Unit {0})
  relaid chrome changed =
      if changed
      then emit (wrote save_text) >> (draw_header chrome >> emit (wrote restore_text))
      else pure tt

  unfoldable pub maybe_relayout : ChatChrome → Command (Unit {0})
  unfolding draw_header
  maybe_relayout chrome =
      if terminal.is_tty
      then ask (looked "SIGWINCH") terminal.resized >>= relaid chrome
      else pure tt
