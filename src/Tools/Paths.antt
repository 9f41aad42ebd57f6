-- ===== src/Tools/Paths.antt =====
-- src/corvus_node/tools/paths.py: which paths lie under /workspace. Paths are walked as lists of
-- characters; `posixpath.normpath` and `posixpath.join` are written out.
pub mod Pieces
pub mod Resolve
pub mod Below
use mathlib.Core.List.{reverse}
use corvus_node.Prelude.{
  ℕ, String, Char, code, Bool, true, false, not, ◌&&◌, ◌||◌, Option, none, some, List, [], ◌∷◌,
  ◌++◌, any, drop, length, strip, split, join, chars, of_chars, ◌==ℕ◌, ltb, if◌then◌else◌,
}

abbrev pub Chars : Type 0
Chars = List Char

abbrev pub chars_eq : Chars → Chars → Bool
chars_eq [] [] = true
chars_eq (c ∷ cs) (d ∷ ds) = code c ==ℕ code d && chars_eq cs ds
chars_eq _ _ = false

-- `text.startswith(prefix)`
abbrev pub begins : Chars → Chars → Bool
begins [] text = true
begins (p ∷ ps) [] = false
begins (p ∷ ps) (c ∷ cs) = code p ==ℕ code c && begins ps cs

abbrev pub is_slash : Char → Bool
is_slash c = code c ==ℕ 47

abbrev pub is_absolute : Chars → Bool
is_absolute [] = false
is_absolute (c ∷ cs) = is_slash c

abbrev pub is_dotdot : Chars → Bool
is_dotdot w = chars_eq w (chars "..")

-- `comp in ("", ".")`
abbrev pub is_skipped : Chars → Bool
is_skipped w = chars_eq w [] || chars_eq w (chars ".")

-- `initial_slashes`: 0, 1, or 2 for exactly two.
abbrev pub initial_slashes : Chars → ℕ
initial_slashes [] = 0
initial_slashes (c ∷ cs) =
    if not (is_slash c) then 0 else if is_absolute cs && not (is_absolute (drop 1 cs)) then 2 else 1

abbrev pub last_is_dotdot : List Chars → Bool
last_is_dotdot [] = false
last_is_dotdot (w ∷ ws) = is_dotdot w

abbrev pub is_nil {ℓ} : {A : Type ℓ} → List A → Bool
is_nil [] = true
is_nil (_ ∷ _) = false

-- One turn of the loop of `normpath`; the list of components is kept in reverse.
abbrev pub norm_step : ℕ → List Chars → Chars → List Chars
norm_step slashes new_comps comp =
    if is_skipped comp
    then new_comps
    else if not (is_dotdot comp) || (slashes ==ℕ 0 && is_nil new_comps) || last_is_dotdot new_comps
    then comp ∷ new_comps
    else drop 1 new_comps

unfoldable pub norm_loop : ℕ → List Chars → List Chars → List Chars
norm_loop slashes new_comps [] = new_comps
norm_loop slashes new_comps (comp ∷ comps) =
    norm_loop slashes (norm_step slashes new_comps comp) comps

abbrev pub slash : Char
slash = "/"

abbrev pub slashes_text : ℕ → Chars
slashes_text n = if n ==ℕ 2 then slash ∷ slash ∷ [] else if n ==ℕ 1 then slash ∷ [] else []

-- `posixpath.normpath`
unfoldable pub normpath : Chars → Chars
unfolding norm_loop
normpath path =
    let slashes = initial_slashes path in
    let comps = reverse (norm_loop slashes [] (split 47 path)) in
    let whole = slashes_text slashes ++ join slash comps in
    if is_nil path || is_nil whole then chars "." else whole

abbrev pub ends_in_slash : Chars → Bool
ends_in_slash [] = false
ends_in_slash (c ∷ cs) = elim cs [ [] ↦ is_slash c | _ ∷ _ ↦ ends_in_slash cs ]

-- `posixpath.join(root, text)`
unfoldable pub join_path : Chars → Chars → Chars
join_path root text =
    if is_absolute text
    then text
    else if is_nil root || ends_in_slash root
    then root ++ text
    else root ++ (slash ∷ text)

-- `text.rstrip("/")`
abbrev pub rstrip_slash : Chars → Chars
rstrip_slash [] = []
rstrip_slash (c ∷ cs) = elim (rstrip_slash cs) [
  | [] ↦ if is_slash c then [] else c ∷ []
  | d ∷ ds ↦ c ∷ d ∷ ds
]

abbrev pub guest_root : Chars
guest_root = chars "/workspace"

-- The rest of `workspace_relpath`, after the path has been normalised.
unfoldable pub relative_part : Chars → Chars → Option Chars
unfolding split
relative_part root_n normalized =
    let prefix = rstrip_slash root_n ++ slash ∷ [] in
    let rel = drop (length prefix) normalized in
    if chars_eq normalized root_n
    then none
    else if not (begins prefix normalized)
    then none
    else if is_nil rel || is_absolute rel || any is_dotdot (split 47 rel)
    then none
    else some rel

-- `workspace_relpath` with its root, on the text that `strip` leaves.
unfoldable pub relpath : Chars → Chars → Option Chars
unfolding normpath join_path relative_part
relpath root text =
    if is_nil text
    then none
    else relative_part (normpath root)
        (normpath (if is_absolute text then text else join_path root text))

abbrev pub text_of : Option Chars → Option String
text_of none = none
text_of (some rel) = some (of_chars rel)

unfoldable pub workspace_relpath : String → Option String
unfolding relpath strip
workspace_relpath raw = text_of (relpath guest_root (strip (chars raw)))

-- `workspace_list_relpath`: the root itself is "".
unfoldable pub workspace_list_relpath : String → Option String
unfolding workspace_relpath strip normpath
workspace_list_relpath raw =
    let text = strip (chars raw) in
    if is_nil text || chars_eq text (chars ".") || chars_eq text (normpath guest_root)
    then some ""
    else workspace_relpath (of_chars text)
