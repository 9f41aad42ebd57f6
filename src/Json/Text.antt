-- ===== src/Json/Text.antt =====
-- `str(v)` of a JSON value. A text is itself; inside a list or a dict it stands with its `repr`.
-- `repr` escapes what is unprintable up to U+00FF and shows every other character as itself.
use Prim.Native.String.{slice}
use corvus_node.Prelude.{
  ℕ, ◌+◌, ◌/◌, ◌%◌, String, ◌<>◌, Char, code, Bool, true, false, not, ◌&&◌, ◌||◌, List, [], ◌∷◌,
  ltb, leb, any, ◌==ℕ◌, chars, of_chars, if◌then◌else◌,
}
use corvus_node.Prelude.Int.{show_ℤ}
use corvus_node.Json.{
  Value, null, boolean, num, float, str, arr, obj, Items, nil, cons, Fields, end, field, get_or,
}

abbrev pub hex_digit : ℕ → String
hex_digit n = slice "0123456789abcdef" n (n + 1)

has_char : ℕ → List Char → Bool
has_char n = any (λ c. code c ==ℕ n)

-- One character of a `repr` in the quotes `q`.
repr_char : ℕ → Char → String
repr_char q c =
    let n = code c in
    if n ==ℕ q || n ==ℕ 92
    then "\\" <> of_chars (c ∷ [])
    else if n ==ℕ 10
    then "\\n"
    else if n ==ℕ 13
    then "\\r"
    else if n ==ℕ 9
    then "\\t"
    else if ltb n 32 || (leb 127 n && leb n 160) || n ==ℕ 173
    then "\\x" <> (hex_digit (n / 16) <> hex_digit (n % 16))
    else of_chars (c ∷ [])

repr_chars : ℕ → List Char → String
repr_chars q [] = ""
repr_chars q (c ∷ cs) = repr_char q c <> repr_chars q cs

unfoldable pub repr_text : String → String
unfolding repr_chars repr_char has_char
repr_text s =
    let cs = chars s in
    if has_char 39 cs && not (has_char 34 cs)
    then "\"" <> (repr_chars 34 cs <> "\"")
    else "'" <> (repr_chars 39 cs <> "'")

unfoldable mutual
  unfolding repr_text show_ℤ

  pub repr : Value → String
  repr null = "None"
  repr (boolean true) = "True"
  repr (boolean false) = "False"
  repr (num n) = show_ℤ n
  repr (float s) = s
  repr (str s) = repr_text s
  repr (arr vs) = "[" <> (repr_items vs <> "]")
  repr (obj fs) = "{" <> (repr_fields fs <> "}")

  repr_items : Items → String
  repr_items nil = ""
  repr_items (cons v nil) = repr v
  repr_items (cons v (cons w vs)) = repr v <> (", " <> repr_items (cons w vs))

  repr_fields : Fields → String
  repr_fields end = ""
  repr_fields (field k v end) = repr_text k <> (": " <> repr v)
  repr_fields (field k v (field j w fs)) =
      repr_text k <> (": " <> (repr v <> (", " <> repr_fields (field j w fs))))

-- `str(v)`
unfoldable pub text : Value → String
unfolding repr
text (str s) = s
text v = repr v

-- `str(d.get(k, ""))`
unfoldable pub text_at : String → Fields → String
unfolding text get_or
text_at k fs = text (get_or (str "") k fs)
