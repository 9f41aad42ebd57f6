-- ===== src/Cli/Silent.antt =====
-- What of a chat sends the Node no message.
use corvus_node.Prelude.{
  String, ◌≡◌, refl, ◌∙◌, Bool, true, false, Option, none, some, List, [], ◌∷◌, Char, ◌==◌, chars,
  if◌then◌else◌,
}
use corvus_node.Json.Text.{text_at}
use corvus_node.Control.{Decoding, framed, control_error, client_read}
use corvus_node.Cli.{
  Host, Trace, Event, called, prompted, looked, wrote, wrote_error, Received, line, at_end,
  socket_error, Failure, uncaught, Command, Result, ok, err, pure, raise, ◌>>=◌, emit, ask,
}
use corvus_node.Cli.Client.{given, read_received}
use corvus_node.Cli.Header.{ChatChrome, format_header_plain}
use corvus_node.Cli.Chat.{waits, leaves, replies, prompt_operator}
use corvus_node.Cli.Screen.{
  Terminal, splitlines, with_feed, save_text, restore_text, pad_of, write_lines, write_reply,
  print_reply, header_text, scroll_text, draw_header, enter, relaid, maybe_relayout,
}

-- The messages of a trace, the last first.
abbrev text_of : Event → Option String
text_of (called type payload) = if type == "user" then some (text_at "text" payload) else none
text_of _ = none

abbrev added : Option String → List String → List String
added none ts = ts
added (some t) ts = t ∷ ts

unfoldable pub texts_in : Trace → List String
texts_in [] = []
texts_in (e ∷ t) = added (text_of e) (texts_in t)

pub record Silent {ℓ} {A : Type ℓ} (m : Command A) : Type ℓ where
  pub after : (t : Trace) → texts_in (m t).1 ≡ texts_in t

Silent-bind {ℓ κ} :
    {A : Type ℓ} {B : Type κ} (f : A → Command B) (o : Result Failure A × Trace)
    → ((a : A) → Silent (f a))
    → texts_in
        (elim o.0 as (λ r. Result Failure B × Trace) [ ok a ↦ f a o.1 | err e ↦ raise e o.1 ]).1
      ≡ texts_in o.1
Silent-bind f (ok a, t) k = (k a).after t
Silent-bind f (err e, t) k = refl

pub bind-Silent {ℓ κ} :
    {A : Type ℓ} {B : Type κ} {m : Command A} {f : A → Command B}
    → Silent m
    → ((a : A) → Silent (f a))
    → Silent (m >>= f)
bind-Silent {m} {f} h k = record { after = λ t. Silent-bind f (m t) k ∙ h.after t }

pub pure-Silent {ℓ} : {A : Type ℓ} (a : A) → Silent (pure a)
pure-Silent a = record { after = λ t. refl }

pub raise-Silent {ℓ} : {A : Type ℓ} (e : Failure) → Silent (raise {A = A} e)
raise-Silent e = record { after = λ t. refl }

pub if-Silent {ℓ} :
    {A : Type ℓ} (b : Bool) {m n : Command A} → Silent m → Silent n → Silent (if b then m else n)
if-Silent true h k = h
if-Silent false h k = k

pub write-Silent : (x : String) → Silent (emit (wrote x))
unfolding texts_in
write-Silent x = record { after = λ t. refl }

pub write_error-Silent : (x : String) → Silent (emit (wrote_error x))
unfolding texts_in
write_error-Silent x = record { after = λ t. refl }

pub prompt-Silent : (x : String) → Silent (emit (prompted x))
unfolding texts_in
prompt-Silent x = record { after = λ t. refl }

pub look-Silent {ℓ} :
    {A : Type ℓ} (name : String) (answer : Trace → A) → Silent (ask (looked name) answer)
unfolding texts_in
look-Silent name answer = record { after = λ t. refl }

write_lines-Silent : (pad : String) (ws : List (List Char)) → Silent (write_lines pad ws)
unfolding write_lines
write_lines-Silent pad [] = pure-Silent tt
write_lines-Silent pad (w ∷ ws) = bind-Silent (write-Silent _) λ _. write_lines-Silent pad ws

write_reply-Silent : (model : String) (ws : List (List Char)) → Silent (write_reply model ws)
write_reply-Silent model [] = pure-Silent tt
write_reply-Silent model (w ∷ ws) =
    bind-Silent (write-Silent _) λ _. write_lines-Silent (pad_of model) ws

print_reply-Silent : (model x : String) → Silent (print_reply model x)
unfolding print_reply
print_reply-Silent model x = write_reply-Silent model (splitlines (with_feed (chars x)))

given-Silent : (o : Decoding) → Silent (given o)
given-Silent (framed f) = pure-Silent f
given-Silent (control_error code why) = raise-Silent _

module _ (host : Host) (terminal : Terminal) where
  draw_header-Silent : (chrome : ChatChrome) → Silent (draw_header host terminal chrome)
  unfolding draw_header
  draw_header-Silent chrome = bind-Silent (look-Silent "size" terminal.columns) λ columns.
      bind-Silent (look-Silent "size" terminal.rows) λ rows.
        bind-Silent (write-Silent (header_text chrome columns)) λ _. write-Silent (scroll_text rows)

  pub enter-Silent : (chrome : ChatChrome) → Silent (enter host terminal chrome)
  unfolding enter
  enter-Silent chrome =
      if-Silent terminal.is_tty (bind-Silent (write-Silent _) λ _. draw_header-Silent chrome)
        (write_error-Silent (format_header_plain chrome 80))

  relaid-Silent :
      (chrome : ChatChrome) (changed : Bool) → Silent (relaid host terminal chrome changed)
  relaid-Silent chrome changed =
      if-Silent changed
        (bind-Silent (write-Silent save_text)
          λ _. bind-Silent (draw_header-Silent chrome) λ _. write-Silent restore_text)
        (pure-Silent tt)

  pub prompt_operator-Silent : (chrome : ChatChrome) → Silent (prompt_operator host terminal chrome)
  unfolding maybe_relayout
  prompt_operator-Silent chrome =
      bind-Silent
        (if-Silent terminal.is_tty
          (bind-Silent (look-Silent "SIGWINCH" terminal.resized)
            λ changed. relaid-Silent chrome changed)
          (pure-Silent tt))
        λ _. prompt-Silent "you  "

  pub read_received-Silent : (r : Received) → Silent (read_received host r)
  read_received-Silent (line text) = given-Silent (client_read host.loads text)
  read_received-Silent at_end = raise-Silent _
  read_received-Silent socket_error = raise-Silent uncaught

  pub replies-Silent :
      (model : String) (rs : List Received) → Silent (replies host terminal model rs)
  unfolding replies
  replies-Silent model [] = raise-Silent _
  replies-Silent model (r ∷ rs) = bind-Silent (read_received-Silent r) λ f.
      if-Silent (f.type == "agent")
        (bind-Silent (print_reply-Silent model (text_at "text" f.payload))
          λ _. replies-Silent model rs)
        (if-Silent (f.type == "waiting") (pure-Silent (waits rs))
          (bind-Silent (write_error-Silent _) λ _. pure-Silent leaves))
