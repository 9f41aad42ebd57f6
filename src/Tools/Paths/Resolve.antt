-- ===== src/Tools/Paths/Resolve.antt =====
-- `workspace_relpath` against a description of its own: the names that a path walks through.
use mathlib.Core.List.{reverse}
use corvus_node.Prelude.{
  ℕ, ◌≡◌, refl, false, Option, none, some, List, [], ◌∷◌, All, drop, split, join, chars, ◌==ℕ◌,
  if◌then◌else◌, Bool-cases, inl, inr,
}
use corvus_node.Tools.Paths.{
  Chars, slash, chars_eq, is_dotdot, is_skipped, is_absolute, last_is_dotdot, norm_loop,
}
use corvus_node.Tools.Paths.Pieces.{IsPiece}

-- A component that names an entry: it has no slash, and is not "", "." or "..".
abbrev pub IsName : Chars → Type 0
IsName w = IsPiece w × (is_skipped w ≡ false) × (is_dotdot w ≡ false)

-- The names that are left when the components are walked one by one, the last one first.
abbrev pub walk : List Chars → List Chars → List Chars
walk names [] = names
walk names (w ∷ ws) =
    walk (if is_skipped w then names else if is_dotdot w then drop 1 names else w ∷ names) ws

-- The names from the root of the file system to what a text denotes, /workspace being where a
-- relative text starts.
unfoldable pub resolve : Chars → List Chars
resolve text =
    reverse (walk (if is_absolute text then [] else chars "workspace" ∷ []) (split 47 text))

-- What lies below the first name, if that is "workspace".
abbrev pub below : List Chars → Option Chars
below [] = none
below (w ∷ ws) =
    if chars_eq w (chars "workspace")
    then elim ws [ [] ↦ none | n ∷ ns ↦ some (join slash (n ∷ ns)) ]
    else none

drop-IsName : (st : List Chars) → All IsName st → All IsName (drop 1 st)
drop-IsName [] p = tt
drop-IsName (w ∷ st) p = p.1

pub walk-IsName : (st ws : List Chars) → All IsName st → All IsPiece ws → All IsName (walk st ws)
walk-IsName st [] p q = p
walk-IsName st (w ∷ ws) p q = elim (Bool-cases (is_skipped w)) [
  | inl h ↦ rw h (walk-IsName st ws p q.1)
  | inr h ↦ elim (Bool-cases (is_dotdot w)) [
    | inl k ↦ rw (h, k) (walk-IsName (drop 1 st) ws (drop-IsName st p) q.1)
    | inr k ↦ rw (h, k) (walk-IsName (w ∷ st) ws ((q.0, h, k), p) q.1)
  ]
]

last_no_dotdot : (st : List Chars) → All IsName st → last_is_dotdot st ≡ false
last_no_dotdot [] p = refl
last_no_dotdot (w ∷ st) p = p.0.2

-- In an absolute path the loop of `normpath` is this walk.
pub norm_loop-walk :
    (n : ℕ) (st ws : List Chars)
    → (n ==ℕ 0) ≡ false
    → All IsName st
    → All IsPiece ws
    → norm_loop n st ws ≡ walk st ws
unfolding norm_loop
norm_loop-walk n st [] z p q = refl
norm_loop-walk n st (w ∷ ws) z p q = elim (Bool-cases (is_skipped w)) [
  | inl h ↦ rw h (norm_loop-walk n st ws z p q.1)
  | inr h ↦ elim (Bool-cases (is_dotdot w)) [
    | inl k ↦
        rw (h, k, z, last_no_dotdot st p) (norm_loop-walk n (drop 1 st) ws z (drop-IsName st p) q.1)
    | inr k ↦ rw (h, k) (norm_loop-walk n (w ∷ st) ws z ((q.0, h, k), p) q.1)
  ]
]
