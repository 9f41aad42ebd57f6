-- ===== src/Tools/Paths/Below.antt =====
-- `workspace_relpath` computes what lies below /workspace in the names that a path walks through.
use text.Mathlib.TextEquality.{Char-path}
use mathlib.Core.List.{reverse, reverse-cons}
use mathlib.Core.Option.{some-injective}
use corvus_node.Prelude.{
  ◌⊎◌, String, ◌≡◌, refl, ap, sym, ◌∙◌, true, false, ◌||◌, Option, none, some, List, [], ◌∷◌, ◌++◌,
  any, All, All-append, split, join, strip, chars, of_chars, chars-of_chars, arith, ◌==ℕ◌,
  if◌then◌else◌, Bool-cases, inl, inr,
}
use corvus_node.Tools.Paths.{
  Chars, slash, chars_eq, begins, is_dotdot, is_nil, is_absolute, initial_slashes, norm_loop,
  normpath, join_path, guest_root, relative_part, relpath, workspace_relpath, text_of,
}
use corvus_node.Tools.Paths.Pieces.{IsPiece, split-IsPiece, split-join, split-slash, split-append}
use corvus_node.Tools.Paths.Resolve.{IsName, walk, walk-IsName, norm_loop-walk, resolve, below}

begins-append :
    (p w rest : Chars)
    → IsPiece p
    → IsPiece w
    → begins (p ++ slash ∷ []) (w ++ (slash ∷ rest)) ≡ chars_eq w p
begins-append [] [] rest h k = refl
begins-append [] (c ∷ w) rest h k = ground arith
begins-append (d ∷ p) [] rest h k = ground arith
begins-append (d ∷ p) (c ∷ w) rest h k = ground (arith, begins-append p w rest h.1 k.1)

begins-piece : (p w : Chars) → IsPiece w → begins (p ++ slash ∷ []) w ≡ false
begins-piece [] [] k = refl
begins-piece [] (c ∷ w) k = ground arith
begins-piece (d ∷ p) [] k = refl
begins-piece (d ∷ p) (c ∷ w) k = ground (arith, begins-piece p w k.1)

chars_eq-append : (w rest p : Chars) → IsPiece p → chars_eq (w ++ (slash ∷ rest)) p ≡ false
chars_eq-append [] rest [] h = refl
chars_eq-append [] rest (d ∷ p) h = ground arith
chars_eq-append (c ∷ w) rest [] h = refl
chars_eq-append (c ∷ w) rest (d ∷ p) h = ground (arith, chars_eq-append w rest p h.1)

pub chars_eq→eq : (v w : Chars) → chars_eq v w ≡ true → v ≡ w
chars_eq→eq [] [] h = refl
chars_eq→eq [] (d ∷ w) h = cc
chars_eq→eq (c ∷ v) [] h = cc
chars_eq→eq (c ∷ v) (d ∷ w) h = cc (Char-path c d (ground arith), chars_eq→eq v w (ground arith))

workspace-IsPiece : IsPiece (chars "workspace")
workspace-IsPiece = ground arith

-- The text after "/workspace/" of a path of clean names is relative and has no "..".
any_dotdot : (ws : List Chars) → All IsName ws → any is_dotdot ws ≡ false
any_dotdot [] p = refl
any_dotdot (w ∷ ws) p = rw p.0.2 (any_dotdot ws p.1)

All-pieces : (ws : List Chars) → All IsName ws → All IsPiece ws
All-pieces [] p = tt
All-pieces (w ∷ ws) p = (p.0.0, All-pieces ws p.1)

join_name :
    (n : Chars) (ns : List Chars)
    → IsName n
    → (is_nil (join slash (n ∷ ns)) ≡ false) × (is_absolute (join slash (n ∷ ns)) ≡ false)
unfolding join
join_name [] ns p = absurd (ground arith)
join_name (c ∷ n) [] p = (refl, p.0.0)
join_name (c ∷ n) (m ∷ ns) p = (refl, p.0.0)

rel_below :
    (n : Chars) (ns : List Chars)
    → All IsName (n ∷ ns)
    → (is_nil (join slash (n ∷ ns))
        || is_absolute (join slash (n ∷ ns))
        || any is_dotdot (split 47 (join slash (n ∷ ns))))
      ≡ false
rel_below n ns p =
    rw ((join_name n ns p.0).0, (join_name n ns p.0).1, split-join n ns (All-pieces (n ∷ ns) p))
      (any_dotdot (n ∷ ns) p)

relative_part-workspace :
    (n : Chars) (ns : List Chars)
    → All IsName (n ∷ ns)
    → relative_part guest_root (slash ∷ (chars "workspace" ++ (slash ∷ join slash (n ∷ ns))))
      ≡ some (join slash (n ∷ ns))
unfolding relative_part
relative_part-workspace n ns p = rw (rel_below n ns p)

relative_part-below :
    (ws : List Chars) → All IsName ws → relative_part guest_root (slash ∷ join slash ws) ≡ below ws
unfolding relative_part join
relative_part-below [] p = refl
relative_part-below (w ∷ []) p = elim (Bool-cases (chars_eq w (chars "workspace"))) [
  | inl h ↦ rw (h, relative_part)
  | inr h ↦ rw (h, relative_part) (rw (begins-piece (chars "workspace") w p.0.0))
]
relative_part-below (w ∷ n ∷ ns) p = elim (Bool-cases (chars_eq w (chars "workspace"))) [
  | inl h ↦ rw (chars_eq→eq w (chars "workspace") h) (relative_part-workspace n ns p.1)
  | inr h ↦
      let rest = join slash (n ∷ ns) in
      rw (
        h,
        chars_eq-append w rest (chars "workspace") workspace-IsPiece,
        begins-append (chars "workspace") w rest workspace-IsPiece p.0.0,
        h,
      )
]

All-reverse : (ws : List Chars) → All IsName ws → All IsName (reverse ws)
All-reverse [] p = tt
All-reverse (w ∷ ws) p =
    rw reverse-cons (All-append IsName (reverse ws) (w ∷ []) (All-reverse ws p.1) (p.0, tt))

-- A path with one slash in front.
normpath_one :
    (text : Chars)
    → initial_slashes text ≡ 1
    → normpath text ≡ slash ∷ join slash (reverse (walk [] (split 47 text)))
unfolding normpath
normpath_one [] h = absurd (omega arith)
normpath_one (c ∷ cs) h =
    rw (h, norm_loop-walk 1 [] (split 47 (c ∷ cs)) refl tt (split-IsPiece (c ∷ cs)))

normpath_two :
    (text : Chars)
    → initial_slashes text ≡ 2
    → (rest : Chars) × (normpath text ≡ slash ∷ slash ∷ rest)
unfolding normpath
normpath_two [] h = absurd (omega arith)
normpath_two (c ∷ cs) h = (join slash (reverse (norm_loop 2 [] (split 47 (c ∷ cs)))), rw h)

names_IsName :
    (start : List Chars) (text : Chars)
    → All IsName start
    → All IsName (reverse (walk start (split 47 text)))
names_IsName start text p = All-reverse _ (walk-IsName start (split 47 text) p (split-IsPiece text))

workspace-IsName : All IsName (chars "workspace" ∷ [])
workspace-IsName = ((workspace-IsPiece, refl, refl), tt)

pub resolve-IsName : (text : Chars) → All IsName (resolve text)
unfolding resolve
resolve-IsName text = elim (Bool-cases (is_absolute text)) [
  | inl h ↦ rw h (names_IsName [] text tt)
  | inr h ↦ rw h (names_IsName (chars "workspace" ∷ []) text workspace-IsName)
]

guest_root_normal : normpath guest_root ≡ guest_root
unfolding normpath split join
guest_root_normal = refl

-- What `relpath` answers, by the names alone.
pub answer : Chars → Option Chars
answer text = if is_nil text || initial_slashes text ==ℕ 2 then none else below (resolve text)

split-guest_root :
    (text : Chars)
    → split 47 (guest_root ++ (slash ∷ text)) ≡ [] ∷ chars "workspace" ∷ split 47 text
split-guest_root text =
    split-slash _
    ∙ ap (λ (t : List Chars). [] ∷ t) (split-append (chars "workspace") text workspace-IsPiece)

normpath_relative :
    (text : Chars)
    → is_absolute text ≡ false
    → normpath (join_path guest_root text) ≡ slash ∷ join slash (resolve text)
unfolding join_path resolve
normpath_relative text h =
    rw (h, normpath_one (guest_root ++ (slash ∷ text)) refl, split-guest_root text)

normpath_absolute :
    (text : Chars)
    → is_absolute text ≡ true
    → initial_slashes text ≡ 1
    → normpath text ≡ slash ∷ join slash (resolve text)
unfolding resolve
normpath_absolute text h one = rw (h, normpath_one text one)

two_slashes : (rest : Chars) → relative_part guest_root (slash ∷ slash ∷ rest) ≡ none
unfolding relative_part
two_slashes rest = refl

slashes_cases :
    (text : Chars)
    → is_absolute text ≡ true
    → (initial_slashes text ≡ 1) ⊎ (initial_slashes text ≡ 2)
slashes_cases [] h = cc
slashes_cases (c ∷ cs) h = ground arith

no_slashes : (text : Chars) → is_absolute text ≡ false → initial_slashes text ≡ 0
no_slashes [] h = refl
no_slashes (c ∷ cs) h = ground arith

relpath_nonempty :
    (text : Chars)
    → relative_part guest_root
        (normpath (if is_absolute text then text else join_path guest_root text))
      ≡ (if initial_slashes text ==ℕ 2 then none else below (resolve text))
relpath_nonempty text = elim (Bool-cases (is_absolute text)) [
  | inr h ↦
      rw (h, no_slashes text h, normpath_relative text h)
        (relative_part-below (resolve text) (resolve-IsName text))
  | inl h ↦ elim (slashes_cases text h) [
    | inl one ↦
        rw (h, one, normpath_absolute text h one)
          (relative_part-below (resolve text) (resolve-IsName text))
    | inr two ↦ let (rest, e) = normpath_two text two in rw (h, two, e) (two_slashes rest)
  ]
]

relpath-answer : (text : Chars) → relpath guest_root text ≡ answer text
unfolding relpath answer
relpath-answer text = rw (guest_root_normal, relpath_nonempty text) (ground arith)

-- workspace_relpath gives, for every text, what a walk through its components gives: nothing for
-- an empty text, for two leading slashes, and where the names that remain do not start with
-- "workspace" and go on; else the names below it, joined.
pub workspace_relpath-answer :
    (raw : String) → workspace_relpath raw ≡ text_of (answer (strip (chars raw)))
unfolding workspace_relpath
workspace_relpath-answer raw = ap text_of (relpath-answer (strip (chars raw)))

below-some :
    (ws : List Chars) (rel : Chars)
    → All IsName ws
    → below ws ≡ some rel
    → ws ≡ chars "workspace" ∷ split 47 rel
below-some [] rel p h = cc
below-some (w ∷ []) rel p h = ground arith
below-some (w ∷ n ∷ ns) rel p h = elim (Bool-cases (chars_eq w (chars "workspace"))) [
  | inl e ↦ cc (
    chars_eq→eq w (chars "workspace") e,
    some-injective _ _ (rw e at h),
    split-join n ns (All-pieces (n ∷ ns) p.1),
  )
  | inr e ↦ cc (rw e at h)
]

text_of-some : (o : Option Chars) (rel : String) → text_of o ≡ some rel → o ≡ some (chars rel)
text_of-some none rel h = cc
text_of-some (some r) rel h =
    ap (λ (t : Chars). some t)
      (sym (chars-of_chars r) ∙ ap chars (some-injective (of_chars r) rel h))

answer-some :
    (text rel : Chars) → answer text ≡ some rel → resolve text ≡ chars "workspace" ∷ split 47 rel
unfolding answer
answer-some text rel h = elim (Bool-cases (is_nil text || initial_slashes text ==ℕ 2)) [
  | inl e ↦ cc (rw e at h)
  | inr e ↦ below-some (resolve text) rel (resolve-IsName text) (rw e at h)
]

-- Where workspace_relpath accepts a path, walking the raw path leads through "workspace" and then
-- through the components of the answer, each of which is a name: not empty, not ".", not "..",
-- without a slash.
pub workspace_relpath-IsName :
    (raw rel : String)
    → workspace_relpath raw ≡ some rel
    → (resolve (strip (chars raw)) ≡ chars "workspace" ∷ split 47 (chars rel))
      × All IsName (split 47 (chars rel))
unfolding workspace_relpath
workspace_relpath-IsName raw rel h =
    let text = strip (chars raw) in
    let e : resolve text ≡ chars "workspace" ∷ split 47 (chars rel) =
      answer-some text (chars rel) (sym (relpath-answer text) ∙ text_of-some _ rel h) in
    (e, (rw e at (resolve-IsName text)).1)
