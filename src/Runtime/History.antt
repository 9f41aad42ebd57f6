-- ===== src/Runtime/History.antt =====
-- The messages that the guest keeps from turn to turn: the last ones, and no more than the cap.
use corvus_node.Prelude.{
  ℕ, zero, suc, ◌+◌, ◌-◌, ◌≤◌, ◌<◌, ◌≡◌, refl, ap, List, [], ◌∷◌, ◌++◌, length, drop, arith,
}
use corvus_node.Json.{Value}
use corvus_node.Runtime.Turn.{history_max, trim}

-- Dropping as many as there are too many leaves the cap.
drop_last {ℓ} :
    {A : Type ℓ} (n : ℕ) (xs : List A)
    → n ≤ length xs
    → (older : List A) × (xs ≡ older ++ drop n xs) × (length (drop n xs) + n ≡ length xs)
drop_last zero xs h = ([], refl, ground arith)
drop_last (suc n) [] h = absurd (omega (arith, h))
drop_last (suc n) (x ∷ xs) h =
    let (older, whole, count) = drop_last n xs (omega (arith, h)) in
    (x ∷ older, ap (λ ys. x ∷ ys) whole, omega (arith, count))

-- `ms` is the end of `all`, whole if it fits.
pub record IsHistoryOf (all ms : List Value) : Type 0 where
  pub older : List Value
  pub whole : all ≡ older ++ ms
  pub capped : length ms ≤ history_max
  pub full : length ms < history_max → all ≡ ms

drop_none {ℓ} : {A : Type ℓ} (n : ℕ) (xs : List A) → n ≡ 0 → xs ≡ drop n xs
drop_none zero xs h = refl
drop_none (suc n) xs h = absurd (omega (arith, h))

-- Trimming keeps the end of the messages, at most 32 of them, and all of them if fewer than 32 are
-- left.
pub trim-IsHistoryOf : (all : List Value) → IsHistoryOf all (trim all)
unfolding trim
trim-IsHistoryOf all =
    let n : ℕ = length all - history_max in
    let (older, whole, count) = drop_last n all (omega arith) in
    record {
      older = older;
      whole = whole;
      capped = omega (arith, count);
      full = λ short. drop_none n all (omega (arith, count, short));
    }
