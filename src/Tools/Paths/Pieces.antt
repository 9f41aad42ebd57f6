-- ===== src/Tools/Paths/Pieces.antt =====
-- Splitting a path at its slashes and joining the pieces.
use text.Mathlib.TextEquality.{Char-path}
use corvus_node.Prelude.{
  ◌≡◌, refl, ap, ◌∙◌, Char, true, false, List, [], ◌∷◌, ◌++◌, All, split, join, arith, Bool-cases,
  inl, inr,
}
use corvus_node.Tools.Paths.{Chars, is_slash, slash}

-- No slash inside.
abbrev pub IsPiece : Chars → Type 0
IsPiece [] = Unit
IsPiece (c ∷ cs) = (is_slash c ≡ false) × IsPiece cs

slash-eq : (c : Char) → is_slash c ≡ true → c ≡ slash
slash-eq c h = Char-path c slash (ground arith)

pub split-slash : (cs : Chars) → split 47 (slash ∷ cs) ≡ [] ∷ split 47 cs
unfolding split
split-slash cs = refl

pub split-cons :
    (c : Char) (cs w : Chars) (ws : List Chars)
    → is_slash c ≡ false
    → split 47 cs ≡ w ∷ ws
    → split 47 (c ∷ cs) ≡ (c ∷ w) ∷ ws
unfolding split
split-cons c cs w ws h e = rw (h, e)

split_cases : (cs : Chars) → (w : Chars) × (ws : List Chars) × (split 47 cs ≡ w ∷ ws)
unfolding split
split_cases [] = ([], [], refl)
split_cases (c ∷ cs) =
    let (w, ws, e) = split_cases cs in
    elim (Bool-cases (is_slash c)) [
      | inl h ↦ ([], split 47 cs, rw h)
      | inr h ↦ (c ∷ w, ws, rw (h, e))
    ]

pub split-IsPiece : (cs : Chars) → All IsPiece (split 47 cs)
unfolding split
split-IsPiece [] = (tt, tt)
split-IsPiece (c ∷ cs) =
    let (w, ws, e) = split_cases cs in
    let rest : All IsPiece (w ∷ ws) = rw e at (split-IsPiece cs) in
    elim (Bool-cases (is_slash c)) [
      | inl h ↦ rw (h, e) (tt, rest)
      | inr h ↦ rw (h, e) ((h, rest.0), rest.1)
    ]

-- A piece, a slash, and the rest.
pub split-append : (w rest : Chars) → IsPiece w → split 47 (w ++ (slash ∷ rest)) ≡ w ∷ split 47 rest
split-append [] rest p = split-slash rest
split-append (c ∷ w) rest p = split-cons c _ w _ p.0 (split-append w rest p.1)

split_piece : (w : Chars) → IsPiece w → split 47 w ≡ w ∷ []
unfolding split
split_piece [] p = refl
split_piece (c ∷ w) p = split-cons c w w [] p.0 (split_piece w p.1)

pub split-join :
    (w : Chars) (ws : List Chars) → All IsPiece (w ∷ ws) → split 47 (join slash (w ∷ ws)) ≡ w ∷ ws
unfolding join
split-join w [] p = split_piece w p.0
split-join w (v ∷ ws) p =
    split-append w _ p.0 ∙ ap (λ (t : List Chars). w ∷ t) (split-join v ws p.1)

join-cons-cons :
    (c : Char) (w : Chars) (ws : List Chars) → join slash ((c ∷ w) ∷ ws) ≡ c ∷ join slash (w ∷ ws)
unfolding join
join-cons-cons c w [] = refl
join-cons-cons c w (v ∷ ws) = refl

pub join-split : (cs : Chars) → join slash (split 47 cs) ≡ cs
unfolding split join
join-split [] = refl
join-split (c ∷ cs) =
    let (w, ws, e) = split_cases cs in
    let rest : join slash (w ∷ ws) ≡ cs = rw e at (join-split cs) in
    elim (Bool-cases (is_slash c)) [
      | inl h ↦ rw (h, e, join) (cc (slash-eq c h, rest))
      | inr h ↦ rw (h, e) (join-cons-cons c w ws ∙ ap (λ (t : Chars). c ∷ t) rest)
    ]
