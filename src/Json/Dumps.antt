-- ===== src/Json/Dumps.antt =====
-- `json.dumps`, with its separators: ASCII output, every other character escaped.
use Prim.Native.Nat.{◌-◌}
use corvus_node.Prelude.{
  ℕ, ◌+◌, ◌/◌, ◌%◌, String, ◌<>◌, Char, code, true, false, ◌&&◌, List, [], ◌∷◌, ltb, leb, ◌==ℕ◌,
  chars, of_chars, text_le, if◌then◌else◌,
}
use corvus_node.Prelude.Int.{show_ℤ}
use corvus_node.Json.{
  Value, null, boolean, num, float, str, arr, obj, Items, nil, cons, Fields, end, field,
}
use corvus_node.Json.Text.{hex_digit}

unicode_escape : ℕ → String
unicode_escape n =
    "\\u"
    <> (hex_digit (n / 4096 % 16)
        <> (hex_digit (n / 256 % 16) <> (hex_digit (n / 16 % 16) <> hex_digit (n % 16))))

escape_char : Char → String
escape_char c =
    let n = code c in
    if n ==ℕ 34
    then "\\\""
    else if n ==ℕ 92
    then "\\\\"
    else if leb 32 n && leb n 126
    then of_chars (c ∷ [])
    else if n ==ℕ 10
    then "\\n"
    else if n ==ℕ 13
    then "\\r"
    else if n ==ℕ 9
    then "\\t"
    else if n ==ℕ 12
    then "\\f"
    else if n ==ℕ 8
    then "\\b"
    else if ltb n 65536
    then unicode_escape n
    else unicode_escape (0xd800 + (n - 65536) / 1024)
      <> unicode_escape (0xdc00 + (n - 65536) % 1024)

escape_chars : List Char → String
escape_chars [] = ""
escape_chars (c ∷ cs) = escape_char c <> escape_chars cs

dump_text : String → String
unfolding escape_chars escape_char unicode_escape
dump_text s = "\"" <> (escape_chars (chars s) <> "\"")

-- A field put where `sort_keys` has it.
insert_field : String → Value → Fields → Fields
insert_field k v end = field k v end
insert_field k v (field j w rest) =
    let deeper = insert_field k v rest in
    if text_le k j then field k v (field j w rest) else field j w deeper

-- `sort_keys=True`: the fields of every dict in the order of their keys.
unfoldable mutual
  unfolding insert_field

  pub sort_keys : Value → Value
  sort_keys (arr vs) = arr (sort_items vs)
  sort_keys (obj fs) = obj (sort_fields fs)
  sort_keys null = null
  sort_keys (boolean b) = boolean b
  sort_keys (num n) = num n
  sort_keys (float s) = float s
  sort_keys (str s) = str s

  sort_items : Items → Items
  sort_items nil = nil
  sort_items (cons v vs) = cons (sort_keys v) (sort_items vs)

  sort_fields : Fields → Fields
  sort_fields end = end
  sort_fields (field k v fs) = insert_field k (sort_keys v) (sort_fields fs)

-- `separators=(",", ":")`
unfoldable mutual
  unfolding dump_text show_ℤ

  pub dumps : Value → String
  dumps null = "null"
  dumps (boolean true) = "true"
  dumps (boolean false) = "false"
  dumps (num n) = show_ℤ n
  dumps (float s) = s
  dumps (str s) = dump_text s
  dumps (arr vs) = "[" <> (dump_items vs <> "]")
  dumps (obj fs) = "{" <> (dump_fields fs <> "}")

  dump_items : Items → String
  dump_items nil = ""
  dump_items (cons v nil) = dumps v
  dump_items (cons v (cons w vs)) = dumps v <> ("," <> dump_items (cons w vs))

  dump_fields : Fields → String
  dump_fields end = ""
  dump_fields (field k v end) = dump_text k <> (":" <> dumps v)
  dump_fields (field k v (field j w fs)) =
      dump_text k <> (":" <> (dumps v <> ("," <> dump_fields (field j w fs))))

-- `json.dumps(d, sort_keys=True, separators=(",", ":"))`
unfoldable pub canonical : Fields → String
unfolding sort_keys dumps
canonical fs = dumps (sort_keys (obj fs))
