-- ===== src/Memory.antt =====
-- src/corvus_node/memory/service.py: a private dictionary of texts, the latest entry first.
use corvus_node.Prelude.{
  String, ◌≡◌, Option, none, some, List, [], ◌∷◌, ◌==◌, eq_iff, arith, refl, if◌then◌else◌,
}

abbrev pub MemoryService : Type 0
MemoryService = List (String × String)

unfoldable pub write : String → String → MemoryService → MemoryService
write key value [] = (key, value) ∷ []
write key value ((k, v) ∷ m) =
    let rest = write key value m in if key == k then (key, value) ∷ m else (k, v) ∷ rest

unfoldable pub query : String → MemoryService → Option String
query key [] = none
query key ((k, v) ∷ m) = if key == k then some v else query key m

-- After a write, the written key holds the written value and every other key what it held.
pub query-write :
    (key value j : String) (m : MemoryService)
    → query j (write key value m) ≡ (if j == key then some value else query j m)
unfolding query write
query-write key value j [] = refl
query-write key value j ((k, v) ∷ m) =
    ground (arith, query-write key value j m, eq_iff j key, eq_iff key k, eq_iff j k)
