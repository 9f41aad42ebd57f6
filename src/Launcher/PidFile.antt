-- ===== src/Launcher/PidFile.antt =====
-- `read_pid_file` of src/corvus_node/vm/launcher.py, on what reading the file gives.
use corvus_node.Prelude.{
  ℕ, String, Option, none, some, List, [], ◌∷◌, Char, chars, strip, all, is_space, if◌then◌else◌,
}
use corvus_node.Update.{is_digit, read_digits}

-- The text of a file: none for an `OSError`, or no UTF-8.
pub data FileText : Type 0 where
  no_file not_utf8 : FileText
  file_text : String → FileText

-- The first word of a stripped text.
unfoldable pub first_word : List Char → List Char
first_word [] = []
first_word (c ∷ cs) = let rest = first_word cs in if is_space c then [] else c ∷ rest

-- `text.strip().split()[0]`: none for an `IndexError`.
abbrev pub checked_word : List Char → Option (List Char)
checked_word [] = none
checked_word (c ∷ cs) = some (c ∷ cs)

unfoldable pub word_of : String → Option (List Char)
unfolding first_word strip
word_of raw = checked_word (first_word (strip (chars raw)))

abbrev pub number_of : List Char → Option ℕ
number_of cs = if all is_digit cs then some (read_digits 0 cs) else none

-- A pid, if there is one; the outer none is an error that `read_pid_file` does not catch.
abbrev pub pid_of_word : Option (List Char) → Option (Option ℕ)
pid_of_word none = none
pid_of_word (some cs) = some (number_of cs)

unfoldable pub read_pid : FileText → Option (Option ℕ)
unfolding word_of
read_pid no_file = some none
read_pid not_utf8 = none
read_pid (file_text raw) = pid_of_word (word_of raw)
