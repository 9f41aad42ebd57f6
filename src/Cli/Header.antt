-- ===== src/Cli/Header.antt =====
-- src/corvus_node/node/chatview.py: the header of a chat and the commands of its operator.
use corvus_node.Prelude.{
  ℕ, zero, suc, ◌-◌, String, ◌<>◌, Char, Bool, Option, none, some, List, [], ◌∷◌, ◌++◌, map, length,
  take, leb, ltb, ◌==◌, chars, of_chars, strip, join_with, elem, if◌then◌else◌,
}
use corvus_node.Json.{Value, arr, nil, str, Fields, get, truthy}
use corvus_node.Json.Text.{text}
use corvus_node.Policy.{or_null}
use corvus_node.Session.Handlers.{list_of}
use corvus_node.Settings.{strip_text}
use corvus_node.Update.{local_version}
use corvus_node.Cli.Show.{first_path}

pub record ChatChrome : Type 0 where
  pub version : String
  pub model : String
  pub context : String
  pub tools : String
  pub workspace : String

abbrev pub llm_name : String
llm_name = "stub"

-- `v or default`
abbrev or_else : Value → Value → Value
or_else v default = if truthy v then v else default

abbrev first_text : Option Value → String
first_text none = ""
first_text (some v) = text v

abbrev chrome_of : String → Option (List Value) → Option (Option Value) → Option ChatChrome
chrome_of model (some tools) (some path) = some record {
  version = local_version;
  model = model;
  context = "";
  tools = join_with "," (map text tools);
  workspace = first_text path;
}
chrome_of model _ _ = none

-- Nothing where the tools or the workspace cannot be walked through.
unfoldable pub chrome_from_snapshot : Fields → Option ChatChrome
unfolding text join_with
chrome_from_snapshot snap =
    let tools = or_else (or_null (get "tools" snap)) (arr nil) in
    let workspace = or_else (or_null (get "workspace" snap)) (arr nil) in
    chrome_of (text (or_else (or_null (get "llm" snap)) (str llm_name))) (list_of tools)
      (first_path workspace)

-- The first argument is `str.lower`.
unfoldable pub is_exit_command : (String → String) → String → Bool
unfolding elem strip
is_exit_command lower t = elem (lower (strip_text t)) ("/exit" ∷ "/quit" ∷ [])

unfoldable pub is_help_command : (String → String) → String → Bool
unfolding elem strip
is_help_command lower t = elem (lower (strip_text t)) ("/help" ∷ [])

abbrev pub at_least_one : ℕ → ℕ
at_least_one zero = 1
at_least_one (suc n) = suc n

-- `c * n`
unfoldable pub repeat : Char → ℕ → List Char
repeat c zero = []
repeat c (suc n) = c ∷ repeat c n

-- `text.ljust(width)`
abbrev pub ljust : List Char → ℕ → List Char
ljust cs width = cs ++ repeat " " (width - length cs)

-- `_fit`
unfoldable pub fit_to : List Char → ℕ → List Char
unfolding repeat
fit_to cs width =
    if ltb width (length cs)
    then if leb width 3 then take width cs else take (width - 3) cs ++ chars "..."
    else ljust cs width

unfoldable pub fit : List Char → ℕ → List Char
unfolding fit_to
fit cs width = fit_to cs (at_least_one width)

abbrev or_dash : String → String
or_dash context = if context == "" then "—" else context

abbrev pub title_line : ChatChrome → String
title_line chrome =
    " Corvus-Node "
    <> (chrome.version
        <> ("  ·  model: "
            <> (chrome.model
                <> ("  ·  context: "
                    <> (or_dash (strip_text chrome.context) <> "  ·  /exit to leave")))))

abbrev bit : String → String → List String → List String
bit name t rest = if t == "" then rest else (name <> t) ∷ rest

abbrev pub rules_line : ChatChrome → String
rules_line chrome =
    " "
    <> join_with "  ·  " (
        bit "tools: " chrome.tools
          (bit "workspace: " chrome.workspace ("session stays up until corvus vm stop" ∷ [])))

unfoldable pub format_header_lines : ChatChrome → ℕ → List (List Char)
unfolding fit repeat join_with strip
format_header_lines chrome width =
    fit (chars (title_line chrome)) width
    ∷ fit (chars (rules_line chrome)) width
    ∷ fit (repeat "─" (at_least_one width)) width
    ∷ []

unfoldable pub format_header_plain : ChatChrome → ℕ → String
unfolding join_with format_header_lines
format_header_plain chrome width =
    join_with "\n" (map of_chars (format_header_lines chrome width)) <> "\n"
