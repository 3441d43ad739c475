-- ===== src/Prelude/Map.antt =====
-- A `HashMap` as an association list with one entry for each key. The program never depends on the
-- order of a hash map, so every law is stated through `lookup`.
use llm_gateway.Prelude.{
  ◌≡◌, ◌∙◌, refl, Bool, Option, none, some, List, [], ◌∷◌, arith, if◌then◌else◌, Bool-cases, inl,
  inr,
}
use llm_gateway.Prelude.Eq.{Eq}
use mathlib.Core.Option

abbrev pub Map {ℓ κ} : Type ℓ → Type κ → Type (ℓ ⊔ κ)
Map K V = List (K × V)

abbrev keep_if {κ} : {V : Type κ} → (V → Bool) → Option V → Option V
keep_if p none = none
keep_if p (some v) = if p v then some v else none

module _ {ℓ κ} {K : Type ℓ} {V : Type κ} ⦃e : Eq K⦄ where
  -- `get`
  unfoldable pub lookup : K → Map K V → Option V
  lookup k [] = none
  lookup k ((j, v) ∷ m) = if e.equal j k then some v else lookup k m

  -- `insert`, and the write through `entry`
  unfoldable pub insert : K → V → Map K V → Map K V
  insert k v [] = (k, v) ∷ []
  insert k v ((j, w) ∷ m) = if e.equal j k then (k, v) ∷ m else (j, w) ∷ insert k v m

  -- a write through `get_mut`: nothing on a missing key
  unfoldable pub modify : K → (V → V) → Map K V → Map K V
  modify k f [] = []
  modify k f ((j, w) ∷ m) = if e.equal j k then (j, f w) ∷ m else (j, w) ∷ modify k f m

  -- `remove`
  unfoldable pub remove : K → Map K V → Map K V
  remove k [] = []
  remove k ((j, w) ∷ m) = let rest = remove k m in if e.equal j k then rest else (j, w) ∷ rest

  -- `retain` by the value
  unfoldable pub retain : (V → Bool) → Map K V → Map K V
  retain p [] = []
  retain p ((j, w) ∷ m) = let rest = retain p m in if p w then (j, w) ∷ rest else rest

  -- No key stands twice.
  abbrev pub IsMap : Map K V → Type (ℓ ⊔ κ)
  IsMap [] = Unit
  IsMap ((j, w) ∷ m) = (lookup j m ≡ none) × IsMap m

  pub lookup-insert :
      (k j : K) (v : V) (m : Map K V)
      → lookup j (insert k v m) ≡ (if e.equal k j then some v else lookup j m)
  unfolding lookup insert
  lookup-insert k j v [] = refl
  lookup-insert k j v ((i, w) ∷ m) =
      ground (arith, e.equal_iff k j, e.equal_iff i k, e.equal_iff i j, lookup-insert k j v m)

  pub lookup-modify :
      (k j : K) (f : V → V) (m : Map K V)
      → lookup j (modify k f m) ≡ (if e.equal k j then Option.map f (lookup j m) else lookup j m)
  unfolding lookup modify
  lookup-modify k j f [] = ground arith
  lookup-modify k j f ((i, w) ∷ m) =
      ground (arith, e.equal_iff k j, e.equal_iff i k, e.equal_iff i j, lookup-modify k j f m)

  pub lookup-remove :
      (k j : K) (m : Map K V) → lookup j (remove k m) ≡ (if e.equal k j then none else lookup j m)
  unfolding lookup remove
  lookup-remove k j [] = ground arith
  lookup-remove k j ((i, w) ∷ m) =
      ground (arith, e.equal_iff k j, e.equal_iff i k, e.equal_iff i j, lookup-remove k j m)

  pub lookup-retain :
      (p : V → Bool) (j : K) (m : Map K V)
      → IsMap m
      → lookup j (retain p m) ≡ keep_if p (lookup j m)
  unfolding lookup retain
  lookup-retain p j [] h = refl
  lookup-retain p j ((i, w) ∷ m) h = elim (Bool-cases (p w)) [
    | inl kept ↦ rw kept (ground (arith, lookup-retain p j m h.1))
    | inr gone ↦ rw gone (ground (arith, e.equal_iff i j, lookup-retain p j m h.1))
  ]

  pub insert-IsMap : (k : K) (v : V) (m : Map K V) → IsMap m → IsMap (insert k v m)
  unfolding lookup insert
  insert-IsMap k v [] h = (refl, tt)
  insert-IsMap k v ((i, w) ∷ m) h = elim (Bool-cases (e.equal i k)) [
    | inl hit ↦ rw hit (let same = (e.equal_iff i k).0 hit in rw (← same) h)
    | inr miss ↦ rw miss (
      lookup-insert k i v m ∙ ground (arith, e.equal_iff k i, e.equal_iff i k, h.0),
      insert-IsMap k v m h.1,
    )
  ]

  pub modify-IsMap : (k : K) (f : V → V) (m : Map K V) → IsMap m → IsMap (modify k f m)
  unfolding modify
  modify-IsMap k f [] h = tt
  modify-IsMap k f ((i, w) ∷ m) h = elim (Bool-cases (e.equal i k)) [
    | inl hit ↦ rw hit h
    | inr miss ↦ rw miss (
      lookup-modify k i f m ∙ ground (arith, e.equal_iff k i, e.equal_iff i k, h.0),
      modify-IsMap k f m h.1,
    )
  ]

  pub retain-IsMap : (p : V → Bool) (m : Map K V) → IsMap m → IsMap (retain p m)
  unfolding retain
  retain-IsMap p [] h = tt
  retain-IsMap p ((i, w) ∷ m) h = elim (Bool-cases (p w)) [
    | inl kept ↦ rw kept (lookup-retain p i m h.1 ∙ rw h.0, retain-IsMap p m h.1)
    | inr gone ↦ rw gone (retain-IsMap p m h.1)
  ]

  pub lookup-ext-nil : (m : Map K V) → ((k : K) → lookup k m ≡ none) → m ≡ []
  unfolding lookup
  lookup-ext-nil [] h = refl
  lookup-ext-nil ((k, v) ∷ m) h = ground (arith, h k, e.equal_iff k k)
