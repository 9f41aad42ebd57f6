-- ===== src/Stub/Calls.antt =====
-- Which tools the scripted model calls.
use corvus_node.Prelude.{
  ℕ, ◌+◌, String, ◌≡◌, refl, Bool, true, false, ◌&&◌, Option, none, some, List, [], ◌∷◌, &&-eq-true,
  elem, All, length, ◌≤◌, arith, if◌then◌else◌,
}
use mathlib.Core.Path.{subst}
use mathlib.Core.Option.{some-injective}
use corvus_node.Json.{truthy, Value, Fields, get}
use corvus_node.Json.Text.{text_at}
use corvus_node.Session.{Completion}
use corvus_node.Stub.{
  Patterns, pick_calls, number_calls, complete, tools_after, names_of, last_user, with_calls,
}

-- The calls of a picked list, each of an available tool.
abbrev AllAvailable : List String → List (String × Fields) → Type 0
AllAvailable available = All (λ (call : String × Fields). elem call.0 available ≡ true)

abbrev Picked : List String → List (String × Fields) → Type 0
Picked available calls = (length calls ≤ 1) × AllAvailable available calls

-- A pick behind a test that has the tool's membership in it.
pick_if :
    (b : Bool) (available : List String) (name : String) (arguments : Fields)
    (rest : List (String × Fields))
    → (b ≡ true → elem name available ≡ true)
    → Picked available rest
    → Picked available (if b then ((name, arguments) ∷ []) else rest)
pick_if true available name arguments rest f p = (omega arith, (f refl, tt))
pick_if false available name arguments rest f p = p

and_right : (a b : Bool) → (a && b) ≡ true → b ≡ true
and_right a b h = (&&-eq-true a b h).1

and_left : (a b : Bool) → (a && b) ≡ true → a ≡ true
and_left a b h = (&&-eq-true a b h).0

module _ (patterns : Patterns) where
  -- At most one call is picked, and it is of an available tool.
  pub pick_calls-elem :
      (t : String) (available : List String) → Picked available (pick_calls patterns t available)
  unfolding pick_calls
  pick_calls-elem t available = pick_if _ available "file_write" _ _ (and_right _ _) (
      pick_if _ available "file_list" _ _ (and_left _ _) (
        pick_if _ available "file_read" _ _ (and_left _ _) (
          pick_if _ available "echo" _ _ (λ h. h)
            (pick_if _ available "file_write" _ _ (λ h. h) (omega arith, tt)))))

  -- Every call of a completion is of an available tool.
  CallsIn : List String → List Fields → Type 0
  CallsIn names = All (λ (call : Fields). elem (text_at "name" call) names ≡ true)

  number_calls-All :
      (n : ℕ) (names : List String) (calls : List (String × Fields))
      → AllAvailable names calls
      → CallsIn names (number_calls patterns n calls)
  unfolding number_calls CallsIn text_at get
  number_calls-All n names [] a = tt
  number_calls-All n names ((name, arguments) ∷ calls) a =
      (a.0, number_calls-All (n + 1) names calls a.1)

  -- At most one call, of a tool that the schema names.
  abbrev IsOffered : List String → Completion → Type 0
  IsOffered names c = (length c.tool_calls ≤ 1) × CallsIn names c.tool_calls

  length-number_calls :
      (n : ℕ) (calls : List (String × Fields))
      → length (number_calls patterns n calls) ≡ length calls
  unfolding number_calls
  length-number_calls n [] = refl
  length-number_calls n (call ∷ calls) = omega (arith, length-number_calls (n + 1) calls)

  with_calls-IsOffered :
      (t : String) (names : List String) (calls : List Fields)
      → (length calls ≤ 1) × CallsIn names calls
      → IsOffered names (with_calls patterns t calls)
  unfolding CallsIn
  with_calls-IsOffered t names [] p = (omega arith, tt)
  with_calls-IsOffered t names (call ∷ calls) p = p

  numbered :
      (t : String) (names : List String) (calls : List (String × Fields))
      → Picked names calls
      → (length (number_calls patterns 1 calls) ≤ 1) × CallsIn names (number_calls patterns 1 calls)
  numbered t names calls p =
      (omega (arith, length-number_calls 1 calls, p.0), number_calls-All 1 names calls p.1)

  pick_or_nothing :
      (b : Bool) (t : String) (names : List String)
      → Picked names (if b then pick_calls patterns t names else [])
  pick_or_nothing true t names = pick_calls-elem t names
  pick_or_nothing false t names = (omega arith, tt)

  -- What the scripted model calls, if it answers at all, is at most one tool, which the schema
  -- names.
  pub complete-calls :
      (reversed : List Value) (schema : Value) (names : List String) {c : Completion}
      → names_of patterns schema ≡ some names
      → complete patterns reversed schema ≡ some c
      → (length c.tool_calls ≤ 1)
        × All (λ (call : Fields). elem (text_at "name" call) names ≡ true) c.tool_calls
  unfolding CallsIn complete
  complete-calls reversed schema names {c} e h = by_tools (tools_after reversed) refl
    where
      spoke :
          (content : String)
          → some (record { content = content; tool_calls = [] }) ≡ some c
          → IsOffered names c
      spoke content p = subst (IsOffered names) (some-injective _ _ p) (omega arith, tt)

      by_user :
          (o : Option String)
          → last_user reversed ≡ o
          → tools_after reversed ≡ some []
          → IsOffered names c
      by_user none f g = cc (rw (complete, g, f) at h)
      by_user (some t) f g =
          subst (IsOffered names) (some-injective _ _ (rw (complete, g, f, e) at h)) (
            with_calls-IsOffered t names _
              (numbered t names _ (pick_or_nothing (truthy schema) t names)))

      by_tools : (o : Option (List Fields)) → tools_after reversed ≡ o → IsOffered names c
      by_tools none f = cc (rw (complete, f) at h)
      by_tools (some []) f = by_user (last_user reversed) refl f
      by_tools (some (tool ∷ tools)) f = spoke _ (rw (complete, f) at h)
