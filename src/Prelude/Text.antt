-- ===== src/Prelude/Text.antt =====
-- Texts as lists of characters, where the program walks them; decimal numbers; sorting of names.
use Prim.Native.Nat.{ℕ, zero, suc, ◌/◌, ◌%◌}
use Prim.Native.Char.{Char, code}
use Prim.Native.String.{String, compare, ◌++◌ as ◌<>◌}
use mathlib.Core.Path.{◌≡◌, refl, ap}
use mathlib.Core.Bool.{Bool, true, false, ◌&&◌, ◌||◌}
use mathlib.Core.List.{List, [], ◌∷◌, ◌++◌}
use native.Mathlib.Omega.{arith}
use Prim.Native.Nat.{Ordering}
use corvus_node.Prelude.Tests.{ltb, leb, ◌==ℕ◌, ◌==◌, if◌then◌else◌}
use corvus_node.Prelude.Lists.{all, elem}

abbrev pub chars : String → List Char
chars String.[] = []
chars (String.◌∷◌ c s) = c ∷ chars s

abbrev pub of_chars : List Char → String
of_chars [] = String.[]
of_chars (c ∷ cs) = String.◌∷◌ c (of_chars cs)

pub chars-of_chars : (cs : List Char) → chars (of_chars cs) ≡ cs
chars-of_chars [] = refl
chars-of_chars (c ∷ cs) = ap (λ (t : List Char). c ∷ t) (chars-of_chars cs)

-- The white space that `str.strip()` removes.
unfoldable pub is_space : Char → Bool
is_space c =
    let n = code c in
    n ==ℕ 32
    || (leb 9 n && leb n 13)
    || (leb 28 n && leb n 31)
    || n ==ℕ 0x85
    || n ==ℕ 0xa0
    || n ==ℕ 0x1680
    || (leb 0x2000 n && leb n 0x200a)
    || (leb 0x2028 n && leb n 0x2029)
    || n ==ℕ 0x202f
    || n ==ℕ 0x205f
    || n ==ℕ 0x3000

unfoldable pub strip_left : List Char → List Char
unfolding is_space
strip_left [] = []
strip_left (c ∷ cs) = let rest = strip_left cs in if is_space c then rest else c ∷ cs

-- What is left of a text when the white space at its end is gone.
unfoldable pub strip_right : List Char → List Char
unfolding is_space
strip_right [] = []
strip_right (c ∷ cs) = elim (strip_right cs) [
  | [] ↦ if is_space c then [] else c ∷ []
  | d ∷ ds ↦ c ∷ d ∷ ds
]

-- `text.strip()`
unfoldable pub strip : List Char → List Char
unfolding strip_left strip_right
strip cs = strip_right (strip_left cs)

-- `text.split(sep)` for one character: never empty.
abbrev split_add : Char → List (List Char) → List (List Char)
split_add c [] = (c ∷ []) ∷ []
split_add c (w ∷ ws) = (c ∷ w) ∷ ws

unfoldable pub split : ℕ → List Char → List (List Char)
split sep [] = [] ∷ []
split sep (c ∷ cs) =
    let rest = split sep cs in if code c ==ℕ sep then [] ∷ rest else split_add c rest

-- `sep.join(parts)` for one character.
unfoldable pub join : Char → List (List Char) → List Char
join sep [] = []
join sep (w ∷ ws) = elim ws [ [] ↦ w | _ ∷ _ ↦ w ++ (sep ∷ join sep ws) ]

-- `sep.join(parts)` of texts.
unfoldable pub join_with : String → List String → String
join_with sep [] = ""
join_with sep (w ∷ ws) = elim ws [ [] ↦ w | _ ∷ _ ↦ w <> (sep <> join_with sep ws) ]

-- `str(n)`, with the number as its own fuel.
digit : ℕ → String
digit n =
    if n ==ℕ 0
    then "0"
    else if n ==ℕ 1
    then "1"
    else if n ==ℕ 2
    then "2"
    else if n ==ℕ 3
    then "3"
    else if n ==ℕ 4
    then "4"
    else if n ==ℕ 5
    then "5"
    else if n ==ℕ 6
    then "6"
    else if n ==ℕ 7
    then "7"
    else if n ==ℕ 8
    then "8"
    else "9"

show_fuel : ℕ → ℕ → String
show_fuel zero n = ""
show_fuel (suc f) n =
    let front = show_fuel f (n / 10) in if ltb n 10 then digit n else front <> digit (n % 10)

unfoldable pub show_ℕ : ℕ → String
unfolding show_fuel digit
show_ℕ n = show_fuel (suc n) n

-- `a <= b` on texts, by code points.
abbrev pub text_le : String → String → Bool
text_le a b = elim (compare a b) [ Ordering.gt ↦ false | _ ↦ true ]

insert_sorted : String → List String → List String
insert_sorted x [] = x ∷ []
insert_sorted x (y ∷ ys) =
    let rest = insert_sorted x ys in if text_le x y then x ∷ y ∷ ys else y ∷ rest

-- `sorted(names)`
unfoldable pub sorted : List String → List String
unfolding insert_sorted
sorted [] = []
sorted (x ∷ xs) = insert_sorted x (sorted xs)

elem-insert_sorted :
    (x y : String) (ys : List String) → elem x (insert_sorted y ys) ≡ (x == y || elem x ys)
unfolding insert_sorted elem
elem-insert_sorted x y [] = refl
elem-insert_sorted x y (z ∷ ys) = ground (arith, elem-insert_sorted x y ys)

-- Sorting keeps the names.
pub elem-sorted : (x : String) (xs : List String) → elem x (sorted xs) ≡ elem x xs
unfolding sorted elem
elem-sorted x [] = refl
elem-sorted x (y ∷ ys) = ground (arith, elem-insert_sorted x y (sorted ys), elem-sorted x ys)

all-insert_sorted :
    (p : String → Bool) (y : String) (ys : List String)
    → all p (insert_sorted y ys) ≡ (p y && all p ys)
unfolding insert_sorted
all-insert_sorted p y [] = refl
all-insert_sorted p y (z ∷ ys) = ground (arith, all-insert_sorted p y ys)

-- A test holds of all sorted names exactly when it holds of all names.
pub all-sorted : (p : String → Bool) (xs : List String) → all p (sorted xs) ≡ all p xs
unfolding sorted
all-sorted p [] = refl
all-sorted p (y ∷ ys) = ground (arith, all-insert_sorted p y (sorted ys), all-sorted p ys)
