-- ===== src/Settings/Store.antt =====
-- What is saved is loaded again, and which tools a text names.
use corvus_node.Prelude.{
  String, ◌≡◌, refl, ◌∙◌, Bool, true, not, ◌&&◌, Option, none, some, List, [], ◌∷◌, map, select,
  all, elem, sorted, elem-sorted, elem-select, all-sorted, ◌==◌, eq_iff, arith, chars, of_chars,
  split, strip, Bool-cases, inl, inr, &&-eq-true,
}
use corvus_node.Json.{str_items, get}
use corvus_node.Workspace.{FileSystem, folder, resolve_host_workspace}
use corvus_node.Settings.{
  LaunchSettings, loaded, parsed, strip_text, to_set, stripped_set, parse_tools, text_items,
  tools_of, load_launch, save_body,
}

elem-to_set : (t : String) (xs : List String) → elem t (to_set xs) ≡ elem t xs
unfolding to_set elem
elem-to_set t [] = refl
elem-to_set t (x ∷ xs) = ground (arith, elem-to_set t xs, eq_iff t x)

strip_nil : strip_text "" ≡ ""
unfolding strip
strip_nil = refl

-- A name is among the tools of a text exactly when it is not empty and is a part of the text
-- between commas, without the white space around it.
pub elem-parse_tools :
    (t raw : String)
    → elem t (parse_tools (some raw))
      ≡ (elem t (map strip_text (map of_chars (split 44 (chars raw)))) && not (t == ""))
unfolding parse_tools stripped_set split elem
elem-parse_tools t raw = elim (Bool-cases (raw == "")) [
  | inl h ↦ rw ((eq_iff raw "").0 h) (ground (arith, eq_iff t "", strip_nil))
  | inr h ↦
      let names = map strip_text (map of_chars (split 44 (chars raw))) in
      rw h (
        elem-to_set t (select (λ u. not (u == "")) names)
        ∙ elem-select (λ u. not (u == "")) t names)
]

-- A tool's name that is not empty and has no white space around it.
abbrev pub is_clean : String → Bool
is_clean t = (strip_text t == t) && not (t == "")

strip-clean : (xs : List String) → all is_clean xs ≡ true → map strip_text xs ≡ xs
strip-clean [] h = refl
strip-clean (x ∷ xs) h =
    let (here, rest) = &&-eq-true (is_clean x) (all is_clean xs) h in
    let (same, _) = &&-eq-true (strip_text x == x) (not (x == "")) here in
    rw ((eq_iff (strip_text x) x).0 same, strip-clean xs rest) refl

select-clean : (xs : List String) → all is_clean xs ≡ true → select (λ t. not (t == "")) xs ≡ xs
select-clean [] h = refl
select-clean (x ∷ xs) h =
    let (here, rest) = &&-eq-true (is_clean x) (all is_clean xs) h in
    let (_, some_text) = &&-eq-true (strip_text x == x) (not (x == "")) here in
    rw (some_text, select-clean xs rest) refl

text_items-str_items : (xs : List String) → text_items (str_items xs) ≡ some xs
unfolding text_items
text_items-str_items [] = refl
text_items-str_items (x ∷ xs) = rw (text_items-str_items xs) refl

elem-stripped_set :
    (t : String) (xs : List String) → all is_clean xs ≡ true → elem t (stripped_set xs) ≡ elem t xs
unfolding stripped_set
elem-stripped_set t xs h =
    elem-to_set t (select (λ u. not (u == "")) (map strip_text xs))
    ∙ rw (strip-clean xs h, select-clean xs h) refl

module _ (fs : FileSystem) (disk : fs.Disk) where
  -- A workspace that is saved as it resolves.
  abbrev pub IsUsable : Option String → Type 0
  IsUsable none = Unit
  IsUsable (some w) = (is_clean w ≡ true) × (resolve_host_workspace fs disk w ≡ folder w)

  load_saved :
      (path : String) (tools : List String) (w : Option String)
      → IsUsable w
      → load_launch fs disk path (parsed (save_body (record { tools = tools; workspace = w })))
        ≡ loaded (record { tools = stripped_set (sorted tools); workspace = w })
  unfolding load_launch save_body get tools_of
  load_saved path tools none u = rw (load_launch, text_items-str_items (sorted tools)) refl
  load_saved path tools (some w) u =
      let (same, some_text) = &&-eq-true (strip_text w == w) (not (w == "")) u.0 in
      let e : strip_text w ≡ w = (eq_iff (strip_text w) w).0 same in
      rw (load_launch, text_items-str_items (sorted tools), e) (ground (arith, some_text, u.1))

-- Settings whose tools have clean names, and whose workspace, if any, has a clean name and is a
-- folder that resolves to itself, are loaded as they were saved: the same workspace and the same
-- set of tools.
pub load-save :
    (fs : FileSystem) (disk : fs.Disk) (path : String) (s : LaunchSettings)
    → all is_clean s.tools ≡ true
    → IsUsable fs disk s.workspace
    → (s' : LaunchSettings) × (load_launch fs disk path (parsed (save_body s)) ≡ loaded s')
      × (s'.workspace ≡ s.workspace)
      × ((t : String) → elem t s'.tools ≡ elem t s.tools)
load-save fs disk path s clean usable =
    let names = sorted s.tools in
    (
      record { tools = stripped_set names; workspace = s.workspace },
      load_saved fs disk path s.tools s.workspace usable,
      refl,
      λ t. elem-stripped_set t names (all-sorted is_clean s.tools ∙ clean) ∙ elem-sorted t s.tools,
    )
