-- ===== src/Tests/Chats.antt =====
-- Chats of an operator against a host on which the Node is up, and the dispatch of requests.
use corvus_node.Prelude.{◌≡◌, refl, true, false, [], ◌∷◌, All, elem, strip}
use corvus_node.Prelude.Int.{pos}
use corvus_node.Control.{client_read, decode_frame}
use corvus_node.Json.Text.{text_at}
use corvus_node.Cli.{line, ok}
use corvus_node.Cli.Client.{send}
use corvus_node.Cli.Consent.{is_consent}
use corvus_node.Cli.Header.{ChatChrome}
use corvus_node.Cli.Chat.{run_live_chat}
use corvus_node.Cli.Screen.{Terminal, interrupted, typed}
use corvus_node.Cli.Silent.{texts_in}
use corvus_node.Cli.Spoken.{messages, IsSpoken, run_live_chat-IsSpoken}
use corvus_node.Cli.Main.{Around, no_runtime, main, status_of}
use corvus_node.Cli.Refused.{IsHarmless}
use corvus_node.Cli.Calm.{main-IsHarmless}
use corvus_node.Tests.Inputs.{file_system}
use corvus_node.Tests.Commands.{host, no_daemon, no_turn}

abbrev chrome : ChatChrome
chrome = record { version = "0.1.0"; model = "stub"; context = ""; tools = "echo"; workspace = "" }

abbrev terminal : Terminal
terminal = record {
  lines =
      typed "hi\n"
      ∷ interrupted
      ∷ typed "\n"
      ∷ typed "/help\n"
      ∷ typed "again\n"
      ∷ typed "/exit\n"
      ∷ typed "lost\n"
      ∷ [];
  replies = line "user" ∷ line "chat_attach" ∷ line "chat_attach" ∷ [];
  is_tty = true;
  columns = λ t. 80;
  rows = λ t. 24;
  resized = λ t. false;
}

abbrev around : Around
around = record {
  fs = file_system;
  disk = λ t. "old";
  help_text = "usage";
  splash = λ t. no_runtime;
  start_daemon = no_daemon;
  launch_turn = no_turn;
  serve_node = no_daemon;
  terminal = terminal;
}

run_live_chat-IsSpoken_example :
    IsSpoken host terminal ("hi" ∷ "again" ∷ []) [] (run_live_chat host terminal chrome [])
unfolding messages elem strip texts_in
run_live_chat-IsSpoken_example = run_live_chat-IsSpoken host terminal chrome []

main-IsHarmless_example : All IsHarmless (main host around (status_of true) []).1
unfolding is_consent elem strip
main-IsHarmless_example = main-IsHarmless host around (status_of true) (λ t. refl) refl

-- The chat is left, and both messages have been sent.
chat_run : (run_live_chat host terminal chrome []).0 ≡ ok (pos 0)
unfolding run_live_chat client_read decode_frame send elem strip text_at
chat_run = refl
