-- ===== src/Json.antt =====
-- The JSON values of message payloads (`dict[str, Any]`) and what Python's truth test and
-- `dict.get` do with them. A float is kept as its printed text. `str` stands in the child `Text`,
-- `json.dumps` in the child `Dumps`.
pub mod Text
pub mod Dumps
use corvus_node.Prelude.{
  String, Bool, true, false, not, ◌||◌, Option, none, some, List, [], ◌∷◌, ◌==ℕ◌, ◌==◌,
  if◌then◌else◌,
}
use corvus_node.Prelude.Int.{ℤ, pos}

mutual
  pub data Value : Type 0 where
    null : Value
    boolean : Bool → Value
    num : ℤ → Value
    float : String → Value
    str : String → Value
    arr : Items → Value
    obj : Fields → Value

  pub data Fields : Type 0 where
    end : Fields
    field : String → Value → Fields → Fields

  pub data Items : Type 0 where
    nil : Items
    cons : Value → Items → Items

-- `d.get(k)`
unfoldable pub get : String → Fields → Option Value
get k end = none
get k (field j v rest) = if k == j then some v else get k rest

-- `d.get(k, default)`
unfoldable pub get_or : Value → String → Fields → Value
unfolding get
get_or d k fs = elim (get k fs) [ none ↦ d | some v ↦ v ]

-- `bool(v)`
abbrev pub truthy : Value → Bool
truthy null = false
truthy (boolean b) = b
truthy (num (pos n)) = not (n ==ℕ 0)
truthy (num _) = true
truthy (float s) = not (s == "0.0" || s == "-0.0")
truthy (str s) = not (s == "")
truthy (arr nil) = false
truthy (arr (cons _ _)) = true
truthy (obj end) = false
truthy (obj (field _ _ _)) = true

-- `v if isinstance(v, dict) else {}`
abbrev pub dict_or_empty : Value → Fields
dict_or_empty (obj fs) = fs
dict_or_empty _ = end

abbrev pub item_list : Items → List Value
item_list nil = []
item_list (cons v vs) = v ∷ item_list vs

-- The values of a JSON list; no value for what is no list.
abbrev pub list_or_empty : Value → List Value
list_or_empty (arr vs) = item_list vs
list_or_empty _ = []

abbrev pub to_items : List Value → Items
to_items [] = nil
to_items (v ∷ vs) = cons v (to_items vs)

abbrev pub str_items : List String → Items
str_items [] = nil
str_items (s ∷ ss) = cons (str s) (str_items ss)
