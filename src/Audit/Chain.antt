-- ===== src/Audit/Chain.antt =====
-- The hash chain of the journal: what `append` writes verifies, and what verifies to the same last
-- link is the same.
use mathlib.Core.Option.{some-injective}
use corvus_node.Prelude.{
  String, ◌<>◌, ◌≡◌, ◌≢◌, ◌⊎◌, inl, inr, refl, false, Option, none, some, List, [], ◌∷◌, ◌++◌, map,
  ◌==◌, eq_iff, eq_refl, arith, Bool-cases,
}
use corvus_node.Json.{str, Fields, end, field, get}
use corvus_node.Json.Dumps.{canonical}
use corvus_node.Protocol.Mac.{Digests}
use corvus_node.Audit.{
  AuditEvent, Journal, AuditStore, zero_link, event_record, add_chain, pop_chain, link, append_line,
  append, verify_chain, is_text,
}

-- No field is called "chain".
abbrev pub HasNoChain : Fields → Type 0
HasNoChain end = Unit
HasNoChain (field k v fs) = ((k == "chain") ≡ false) × HasNoChain fs

pop-add_chain : (c : String) (fs : Fields) → HasNoChain fs → pop_chain (add_chain c fs) ≡ fs
unfolding pop_chain add_chain
pop-add_chain c end p = refl
pop-add_chain c (field k v fs) p = rw (p.0, pop-add_chain c fs p.1)

get-add_chain :
    (c : String) (fs : Fields) → HasNoChain fs → get "chain" (add_chain c fs) ≡ some (str c)
unfolding get add_chain
get-add_chain c end p = refl
get-add_chain c (field k v fs) p =
    ground (arith, eq_iff "chain" k, eq_iff k "chain", get-add_chain c fs p.1)

event_record-HasNoChain : (event : AuditEvent) → HasNoChain (event_record event)
unfolding event_record
event_record-HasNoChain event = ground arith

module _ (d : Digests) where
  verify_chain_last :
      (prev q : String) (lines : List Fields) (line : Fields)
      → HasNoChain line
      → verify_chain d prev lines ≡ some q
      → verify_chain d prev (lines ++ (add_chain (link d q line) line ∷ [])) ≡ some (link d q line)
  unfolding verify_chain
  verify_chain_last prev q [] line n h =
      let e = some-injective prev q h in
      rw (
        e,
        pop-add_chain (link d q line) line n,
        get-add_chain (link d q line) line n,
        eq_refl (link d q line),
      )
  verify_chain_last prev q (l ∷ lines) line n h =
      elim (Bool-cases (is_text (link d prev (pop_chain l)) (get "chain" l))) [
        | inl t ↦ rw t (verify_chain_last (link d prev (pop_chain l)) q lines line n (rw t at h))
        | inr t ↦ cc (rw t at h)
      ]

  abbrev pub JournalVerifies : Option Journal → Type 0
  JournalVerifies none = Unit
  JournalVerifies (some j) = verify_chain d zero_link j.lines ≡ some j.prev

  -- The file of a store verifies, and ends in the link that the store holds.
  abbrev pub Verifies : AuditStore → Type 0
  Verifies s = JournalVerifies s.journal

  pub append-Verifies :
      (event : AuditEvent) (s : AuditStore) → Verifies s → Verifies (append d event s)
  unfolding append append_line
  append-Verifies event s v = by_journal s.journal v
    where
      by_journal :
          (j : Option Journal)
          → JournalVerifies j
          → JournalVerifies
              (elim j [ none ↦ none | some k ↦ some (append_line d (event_record event) k) ])
      by_journal none v = tt
      by_journal (some j) v =
          verify_chain_last zero_link j.prev j.lines (event_record event)
            (event_record-HasNoChain event) v

  -- Events logged in turn.
  unfoldable pub append_all : List AuditEvent → AuditStore → AuditStore
  append_all [] s = s
  append_all (event ∷ events) s = append_all events (append d event s)

  -- If the journal of a store verifies up to the link that the store holds, it does so after any
  -- events are appended in turn.
  pub append_all-Verifies :
      (events : List AuditEvent) (s : AuditStore) → Verifies s → Verifies (append_all events s)
  unfolding append_all
  append_all-Verifies [] s v = v
  append_all-Verifies (event ∷ events) s v =
      append_all-Verifies events (append d event s) (append-Verifies event s v)

  -- What the links are taken over, but the link before.
  abbrev pub contents : List Fields → List String
  contents = map (λ line. canonical (pop_chain line))

  -- The texts of which a journal has the digests, from the link before it on.
  abbrev pub linked : String → List Fields → List String
  linked prev [] = []
  linked prev (line ∷ lines) =
      let text = prev <> canonical (pop_chain line) in text ∷ linked (d.sha256 text) lines

  -- At one place of both lists stand two different texts with one digest.
  abbrev pub Collides : List String → List String → Type 0
  Collides [] ys = ⊥
  Collides (x ∷ xs) [] = ⊥
  Collides (x ∷ xs) (y ∷ ys) = ((x ≢ y) × (d.sha256 x ≡ d.sha256 y)) ⊎ Collides xs ys
