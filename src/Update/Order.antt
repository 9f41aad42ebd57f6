-- ===== src/Update/Order.antt =====
-- The order of versions, the choice of the latest, and when an update is offered.
use corvus_node.Prelude.{
  String, ◌≡◌, ◌↔◌, inl, inr, refl, ap, sym, eq_refl, Bool, true, false, List, [], ◌∷◌, arith, elem,
  All, Bool-cases, if◌then◌else◌,
}
use mathlib.Core.Path.{subst}
use corvus_node.Update.{
  Version, version_lt, parse_version, latest, local_version, Checkout, local_unreleased, Lookup,
  found, missing, check_version,
}

version_lt_irrefl : (a : Version) → version_lt a a ≡ false
version_lt_irrefl a = ground arith

-- No version below a bound is above what does not lie below the bound.
version_le_trans :
    (a b c : Version) → version_lt b a ≡ false → version_lt c b ≡ false → version_lt c a ≡ false
version_le_trans a b c p q = ground arith

version_lt_asym : (a b : Version) → version_lt a b ≡ true → version_lt b a ≡ false
version_lt_asym a b p = ground arith

-- No name on the list is of a later version.
abbrev pub IsLatest : String → List String → Type 0
IsLatest best = All (λ name. version_lt (parse_version best) (parse_version name) ≡ false)

-- The next name takes the place of the best exactly when it is later.
latest_later :
    (best name : String) (names : List String)
    → version_lt (parse_version best) (parse_version name) ≡ true
    → latest best (name ∷ names) ≡ latest name names
unfolding latest
latest_later best name names h = ap (λ (b : Bool). latest (if b then name else best) names) h

latest_else :
    (best name : String) (names : List String)
    → version_lt (parse_version best) (parse_version name) ≡ false
    → latest best (name ∷ names) ≡ latest best names
unfolding latest
latest_else best name names h = ap (λ (b : Bool). latest (if b then name else best) names) h

latest_nil : (best : String) → latest best [] ≡ best
unfolding latest
latest_nil best = refl

abbrev Bounds : String → List String → String → Type 0
Bounds best names x = (version_lt (parse_version x) (parse_version best) ≡ false) × IsLatest x names

latest-bound :
    (best : String) (names : List String)
    → (version_lt (parse_version (latest best names)) (parse_version best) ≡ false)
      × IsLatest (latest best names) names
latest-bound best [] = (rw (latest_nil best) (version_lt_irrefl (parse_version best)), tt)
latest-bound best (name ∷ names) =
    elim (Bool-cases (version_lt (parse_version best) (parse_version name))) [
      | inl h ↦
          let (above, rest) = latest-bound name names in
          subst (Bounds best (name ∷ names)) (sym (latest_later best name names h)) (
            version_le_trans (parse_version best) (parse_version name)
                (parse_version (latest name names))
                (version_lt_asym (parse_version best) (parse_version name) h) above,
            (above, rest),
          )
      | inr h ↦
          let (above, rest) = latest-bound best names in
          subst (Bounds best (name ∷ names)) (sym (latest_else best name names h)) (
            above,
            (
              version_le_trans (parse_version name) (parse_version best)
                  (parse_version (latest best names)) h above,
              rest,
            ),
          )
    ]

latest-elem : (best : String) (names : List String) → elem (latest best names) (best ∷ names) ≡ true
unfolding elem
latest-elem best [] = rw (latest_nil best) (ground (arith, eq_refl best))
latest-elem best (name ∷ names) =
    elim (Bool-cases (version_lt (parse_version best) (parse_version name))) [
      | inl h ↦
          subst (λ (x : String). elem x (best ∷ name ∷ names) ≡ true)
            (sym (latest_later best name names h)) (ground (arith, latest-elem name names))
      | inr h ↦
          subst (λ (x : String). elem x (best ∷ name ∷ names) ≡ true)
            (sym (latest_else best name names h)) (ground (arith, latest-elem best names))
    ]

-- The chosen name is one of the names, and no name on the list is of a later version.
pub latest-IsLatest :
    (best : String) (names : List String)
    → (elem (latest best names) (best ∷ names) ≡ true) × IsLatest (latest best names) (best ∷ names)
latest-IsLatest best names = (latest-elem best names, latest-bound best names)

found_inj : (g h : String) → found g ≡ found h → g ≡ h
found_inj g h e = cc e

-- An update is offered exactly when GitHub has a version, it is later than the local one, and
-- there is no source tree.
pub check_version_iff :
    (tree : Checkout) (lookup : Lookup)
    → ((check_version tree lookup).update_available ≡ true) ↔ (
        (g : String) × (lookup ≡ found g)
        × (version_lt (parse_version local_version) (parse_version g) ≡ true)
        × (tree.is_source ≡ false))
unfolding check_version local_unreleased
check_version_iff tree (missing why) = (λ h. cc h, λ x. cc (x.1))
check_version_iff tree (found g) =
    (λ h. (g, refl, ground (arith, h), ground (arith, h)), λ x. offered x.0 x.1 x.2 x.3)
  where
    offered :
        (g' : String)
        → found g ≡ found g'
        → version_lt (parse_version local_version) (parse_version g') ≡ true
        → tree.is_source ≡ false
        → (check_version tree (found g)).update_available ≡ true
    offered g' e later plain =
        ground (
          arith,
          found_inj g g' e,
          version_lt_asym (parse_version local_version) (parse_version g'),
        )
