-- ===== src/Cli/Talks.antt =====
-- A chat sends the Node nothing but its questions for the state, its attachment and messages.
use corvus_node.Prelude.{◌≡◌, Bool, true, not, [], ◌∷◌, elem}
use corvus_node.Cli.{Event, called, Failure, Command}
use corvus_node.Cli.Keeps.{is_change, Keeps}

-- What a chat may do: a change is the attachment of a chat or a message of the operator.
abbrev pub is_talk : Event → Bool
is_talk (called type payload) = elem type ("status" ∷ "chat_attach" ∷ "user" ∷ [])
is_talk e = not (is_change e)

abbrev pub IsTalk : Event → Type 0
IsTalk e = is_talk e ≡ true

abbrev Any : Failure → Type 0
Any e = Unit

abbrev Talks {ℓ} : {A : Type ℓ} → Command A → Type ℓ
Talks m = Keeps IsTalk Any m
