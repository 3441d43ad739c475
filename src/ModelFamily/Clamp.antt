-- ===== src/ModelFamily/Clamp.antt =====
-- src/service/model_family.rs: the level that an upstream with a table is sent.
use mathlib.Core.Option
use llm_gateway.Prelude.{
  ℕ, ◌≤◌, ◌<◌, ◌≡◌, ◌⊎◌, refl, inl, inr, Option, none, some, Bool, true, false, List, [], ◌∷◌, ltb,
  leb, any, filter, All, All-mono, if_both, if◌then◌else◌, arith,
}
use llm_gateway.Prelude.Eq.{◌==◌, List_Eq, ℕ_Eq, list_beq_refl}
use llm_gateway.Prelude.Text.{Text}
use llm_gateway.ModelFamily.{zen_effort_rank, ranked, min_by_key, max_by_key, or_else, zen_level}

module _ {ℓ} {A : Type ℓ} (key : A → ℕ) (P : A → Type ℓ) where
  -- An entry with the least key, unless there is none.
  abbrev Least : List A → Option A → Type ℓ
  Least xs none = xs ≡ []
  Least xs (some y) = P y × All (λ x. key y ≤ key x) xs

  abbrev Greatest : List A → Option A → Type ℓ
  Greatest xs none = xs ≡ []
  Greatest xs (some y) = P y × All (λ x. key x ≤ key y) xs

  min_by_key-Least : (xs : List A) → All P xs → Least xs (min_by_key key xs)
  unfolding min_by_key
  min_by_key-Least [] a = refl
  min_by_key-Least (x ∷ xs) a = step (min_by_key key xs) (min_by_key-Least xs a.1)
    where
      step :
          (o : Option A)
          → Least xs o
          → Least
              (x ∷ xs)
              (elim o [ none ↦ some x | some y ↦ if leb (key x) (key y) then some x else some y ])
      step none h = rw h (a.0, (omega arith, tt))
      step (some y) h =
          if_both (Least (x ∷ xs)) (leb (key x) (key y)) (some x) (some y)
            (λ c. (a.0, (omega arith, All-mono _ _ (λ z k. ground (arith, c, k)) xs h.1)))
            (λ c. (h.0, (ground (arith, c), h.1)))

  max_by_key-Greatest : (xs : List A) → All P xs → Greatest xs (max_by_key key xs)
  unfolding max_by_key
  max_by_key-Greatest [] a = refl
  max_by_key-Greatest (x ∷ xs) a = step (max_by_key key xs) (max_by_key-Greatest xs a.1)
    where
      step :
          (o : Option A)
          → Greatest xs o
          → Greatest
              (x ∷ xs)
              (elim o [ none ↦ some x | some y ↦ if ltb (key y) (key x) then some x else some y ])
      step none h = rw h (a.0, (omega arith, tt))
      step (some y) h =
          if_both (Greatest (x ∷ xs)) (ltb (key y) (key x)) (some x) (some y)
            (λ c. (a.0, (omega arith, All-mono _ _ (λ z k. ground (arith, c, k)) xs h.1)))
            (λ c. (h.0, (ground (arith, c), h.1)))

-- What is known of a level: it stands in the table, and has the rank.
abbrev IsRanked : List Text → ℕ × Text → Type 0
IsRanked levels r = (zen_effort_rank r.1 ≡ some r.0) × (any (λ l. l == r.1) levels ≡ true)

abbrev OfRank : (ℕ → Type 0) → Option ℕ → Type 0
OfRank P none = Unit
OfRank P (some p) = P p

-- A property of the ranks of the levels that have one.
abbrev AllRanks : (ℕ → Type 0) → List Text → Type 0
AllRanks P = All (λ l. OfRank P (zen_effort_rank l))

ranked-AllRanks_step :
    (P : ℕ → Type 0) (l : Text) (ls : List Text) (o : Option ℕ)
    → All (λ r. P (r.0)) (elim o [ none ↦ ranked ls | some rank ↦ (rank, l) ∷ ranked ls ])
    → OfRank P o × All (λ r. P (r.0)) (ranked ls)
ranked-AllRanks_step P l ls none k = (tt, k)
ranked-AllRanks_step P l ls (some rank) k = k

ranked-AllRanks :
    (P : ℕ → Type 0) (levels : List Text) → All (λ r. P (r.0)) (ranked levels) → AllRanks P levels
unfolding ranked
ranked-AllRanks P [] a = tt
ranked-AllRanks P (l ∷ ls) a =
    let (here, rest) = ranked-AllRanks_step P l ls (zen_effort_rank l) a in
    (here, ranked-AllRanks P ls rest)

IsRanked-tail : (l : Text) (ls : List Text) (r : ℕ × Text) → IsRanked ls r → IsRanked (l ∷ ls) r
IsRanked-tail l ls r h = (h.0, ground (arith, h.1))

ranked-IsRanked : (levels : List Text) → All (IsRanked levels) (ranked levels)
unfolding ranked
ranked-IsRanked [] = tt
ranked-IsRanked (l ∷ ls) =
    step
      (All-mono (IsRanked ls) (IsRanked (l ∷ ls)) (IsRanked-tail l ls) (ranked ls)
        (ranked-IsRanked ls))
      (zen_effort_rank l) refl
  where
    step :
        All (IsRanked (l ∷ ls)) (ranked ls)
        → (o : Option ℕ) → zen_effort_rank l ≡ o
        → All (IsRanked (l ∷ ls)) (elim o [ none ↦ ranked ls | some rank ↦ (rank, l) ∷ ranked ls ])
    step rest none e = rest
    step rest (some rank) e = ((e, ground (arith, list_beq_refl l)), rest)

-- The level is of the table, and its rank is the least from the requested one on, or the greatest
-- where all are below.
abbrev pub Nearest : ℕ → List Text → Option Text → Type 0
Nearest requested levels none = AllRanks (λ p. ⊥) levels
Nearest requested levels (some level) =
    (any (λ l. l == level) levels ≡ true)
    × ((q : ℕ) × ((zen_effort_rank level ≡ some q)
          × (((requested ≤ q) × AllRanks (λ p. (p < requested) ⊎ (q ≤ p)) levels)
              ⊎ ((q < requested) × AllRanks (λ p. p ≤ q) levels))))

All-filter {ℓ κ} :
    {A : Type ℓ} (P : A → Type κ) (p : A → Bool) (xs : List A)
    → All P xs
    → All (λ x. P x × (p x ≡ true)) (filter p xs)
All-filter P p [] a = tt
All-filter P p (x ∷ xs) a =
    if_both (All (λ x. P x × (p x ≡ true))) (p x) (x ∷ filter p xs) (filter p xs)
      (λ c. ((a.0, c), All-filter P p xs a.1)) (λ c. All-filter P p xs a.1)

All-filter_step {ℓ κ} :
    {A : Type ℓ} (P : A → Type κ) (b : Bool) (x : A) (xs : List A)
    → All P (if b then x ∷ xs else xs)
    → ((b ≡ false) ⊎ P x) × All P xs
All-filter_step P true x xs a = (inr (a.0), a.1)
All-filter_step P false x xs a = (inl refl, a)

-- What holds of the entries that pass a test.
All-passed {ℓ κ} :
    {A : Type ℓ} (P : A → Type κ) (p : A → Bool) (xs : List A)
    → All P (filter p xs)
    → All (λ x. (p x ≡ false) ⊎ P x) xs
All-passed P p [] a = tt
All-passed P p (x ∷ xs) a =
    let (here, rest) = All-filter_step P (p x) x (filter p xs) a in (here, All-passed P p xs rest)

abbrev passes : ℕ → ℕ × Text → Bool
passes requested r = leb requested (r.0)

known-Nearest :
    (requested : ℕ) (levels : List Text) (least greatest : Option (ℕ × Text))
    → Least
        (λ r. r.0)
        (λ r. IsRanked levels r × (passes requested r ≡ true))
        (filter (passes requested) (ranked levels))
        least
    → ((P : ℕ × Text → Type 0)
        → All P (ranked levels)
        → Greatest (λ r. r.0) P (ranked levels) greatest)
    → Nearest requested levels (Option.map (λ r. r.1) (or_else least greatest))
known-Nearest requested levels (some (q, l)) g h k = (
  h.0.0.1,
  (
    q,
    (
      h.0.0.0,
      inl (
        ground (arith, h.0.1),
        ranked-AllRanks _ levels (
            All-mono _ _ (λ r c. ground (arith, c)) (ranked levels)
              (All-passed (λ r. q ≤ r.0) (passes requested) (ranked levels) h.1)),
      ),
    ),
  ),
)
known-Nearest requested levels none (some (q, l)) h k =
    let ranks = k (IsRanked levels) (ranked-IsRanked levels) in
    let below =
      k (λ r. (passes requested r ≡ false) ⊎ ⊥)
        (All-passed (λ r. ⊥) (passes requested) (ranked levels) (rw h tt)) in
    (
      ranks.0.1,
      (q, (ranks.0.0, inr (ground (arith, below.0), ranked-AllRanks (λ p. p ≤ q) levels ranks.1))),
    )
known-Nearest requested levels none none h k =
    ranked-AllRanks (λ p. ⊥) levels (rw (k (IsRanked levels) (ranked-IsRanked levels)) tt)

-- The level sent to an upstream with a table is one of the table's; its rank is the least of those
-- from the requested rank on, and where there is none, the greatest. There is no such level only
-- where no level of the table has a rank.
pub zen_level-Nearest :
    (requested : ℕ) (levels : List Text) → Nearest requested levels (zen_level requested levels)
unfolding zen_level
zen_level-Nearest requested levels =
    let a = ranked-IsRanked levels in
    known-Nearest requested levels _ _
      (min_by_key-Least (λ r. r.0) _ (filter (passes requested) (ranked levels))
        (All-filter (IsRanked levels) (passes requested) (ranked levels) a))
      (λ P b. max_by_key-Greatest (λ r. r.0) P (ranked levels) b)
