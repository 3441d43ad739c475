-- ===== src/Outbound/Rectify/Arrays.antt =====
-- src/service/rectify.rs: the loops over the arrays of a request.
use llm_gateway.Prelude.{
  ℕ, ◌≡◌, refl, sym, ap, subst, ◌∙◌, Option, none, some, false, List, [], ◌∷◌, nat_eq, arith,
  Bool-cases, Option-cases, inl, inr, All,
}
use llm_gateway.Prelude.Eq.{List_Eq, ℕ_Eq, list_beq, list_beq_refl}
use llm_gateway.Prelude.Map.{Map, lookup, modify, lookup-modify}
use llm_gateway.Prelude.Text.{Text}
use mathlib.Core.Option
use llm_gateway.Json.{
  Value, null, boolean, number, string, arr, obj, Items, items, of_items, fields, object, array,
  and_then, as_array, get,
}
use llm_gateway.Json.Laws.{get-object, of_fields-fields, of_items-items, items-of_items}
use llm_gateway.Outbound.Rectify.{update_found, update_array, map_count, when_changed}

module _ {N : Type 0} where
  abbrev AllOf : (Value N → Type 0) → Option (List (Value N)) → Type 0
  AllOf P none = Unit
  AllOf P (some vs) = All P vs

  abbrev array_at : Text → Value N → Option (List (Value N))
  array_at k body = and_then (get k body) as_array

  -- Every entry of the array at a key, where there is one.
  abbrev pub AllAt : Text → (Value N → Type 0) → Value N → Type 0
  AllAt k P body = AllOf P (array_at k body)

  pub AllAt-get :
      (k : Text) (P : Value N → Type 0) (a b : Value N)
      → get k a ≡ get k b
      → AllAt k P a
      → AllAt k P b
  AllAt-get k P a b e h = subst (λ g. AllOf P (and_then g as_array)) e h

  -- What a loop does to each entry carries over to the list.
  module _ (f : Value N → Value N × ℕ) (P : Value N → Type 0) where
    pub map_count-All :
        ((v : Value N) → P (f v).0) → (vs : List (Value N)) → All P (map_count f vs).0
    unfolding map_count
    map_count-All h [] = tt
    map_count-All h (v ∷ vs) = (h v, map_count-All h vs)

    pub map_count-keeps :
        ((v : Value N) → P v → P (f v).0)
        → (vs : List (Value N)) → All P vs
        → All P (map_count f vs).0
    unfolding map_count
    map_count-keeps h [] a = tt
    map_count-keeps h (v ∷ vs) a = (h v a.0, map_count-keeps h vs a.1)

    pub map_count-zero :
        ((v : Value N) → P v → (f v).1 ≡ 0)
        → (vs : List (Value N)) → All P vs
        → (map_count f vs).1 ≡ 0
    unfolding map_count
    map_count-zero h [] a = refl
    map_count-zero h (v ∷ vs) a = omega (arith, h v a.0, map_count-zero h vs a.1)

    pub map_count-found :
        ((v : Value N) → (f v).1 ≡ 0 → P v)
        → (vs : List (Value N)) → (map_count f vs).1 ≡ 0
        → All P vs
    unfolding map_count
    map_count-found h [] e = tt
    map_count-found h (v ∷ vs) e = (h v (omega arith), map_count-found h vs (omega arith))

  pub map_count-same :
      (f : Value N → Value N × ℕ)
      → ((v : Value N) → (f v).1 ≡ 0 → (f v).0 ≡ v)
      → (vs : List (Value N)) → (map_count f vs).1 ≡ 0
      → (map_count f vs).0 ≡ vs
  unfolding map_count
  map_count-same f h [] e = refl
  map_count-same f h (v ∷ vs) e = rw (h v (omega arith), map_count-same f h vs (omega arith)) refl

  -- A loop that writes only what it changed.
  module _ (f : List (Value N) → List (Value N) × ℕ) where
    pub when_changed-All :
        (P : Value N → Type 0) (vs : List (Value N))
        → All P (f vs).0
        → ((f vs).1 ≡ 0 → All P vs)
        → All P (when_changed f vs).0
    unfolding when_changed
    when_changed-All P vs a z = elim (Bool-cases (nat_eq (f vs).1 0)) [
      | inl c ↦ rw c (z (ground (arith, c)))
      | inr c ↦ rw c a
    ]

    pub when_changed-count : (vs : List (Value N)) → (when_changed f vs).1 ≡ (f vs).1
    unfolding when_changed
    when_changed-count vs = ground arith

    pub when_changed-same : (vs : List (Value N)) → (f vs).1 ≡ 0 → (when_changed f vs).0 ≡ vs
    unfolding when_changed
    when_changed-same vs h = rw h refl

  some-items : (xs : Items N) (vs : List (Value N)) → some (items xs) ≡ some vs → items xs ≡ vs
  some-items xs vs h = ground (arith, h)

  array_is :
      (o : Option (Value N)) (vs : List (Value N))
      → and_then o as_array ≡ some vs
      → o ≡ some (array vs)
  array_is none vs h = ground arith
  array_is (some (arr xs)) vs h =
      ap (λ r. some (arr r)) (sym (of_items-items xs) ∙ ap of_items (some-items xs vs h))
  array_is (some v) vs h = ground arith

  module _ (k : Text) (f : List (Value N) → List (Value N) × ℕ) where
    pub get-update_array :
        (j : Text) (body : Value N)
        → list_beq k j ≡ false
        → get j (update_array k f body).0 ≡ get j body
    unfolding update_array update_found get
    get-update_array j (obj fs) h = elim (Option-cases (and_then (lookup k (fields fs)) as_array)) [
      | inl gone ↦ rw gone refl
      | inr (vs, found) ↦ rw found (
          get-object j (modify k (λ v. array (f vs).0) (fields fs))
          ∙ (lookup-modify k j (λ v. array (f vs).0) (fields fs) ∙ rw h refl))
    ]
    get-update_array j null h = refl
    get-update_array j (boolean b) h = refl
    get-update_array j (number n) h = refl
    get-update_array j (string s) h = refl
    get-update_array j (arr vs) h = refl

    array_at-update_array :
        (body : Value N)
        → array_at k (update_array k f body).0 ≡ Option.map (λ vs. (f vs).0) (array_at k body)
    unfolding update_array update_found get
    array_at-update_array (obj fs) =
        elim (Option-cases (and_then (lookup k (fields fs)) as_array)) [
          | inl gone ↦ rw gone gone
          | inr (vs, found) ↦ rw found (
              ap (λ o. and_then o as_array) {y = some (array (f vs).0)}
                (get-object k (modify k (λ v. array (f vs).0) (fields fs))
                  ∙ (lookup-modify k k (λ v. array (f vs).0) (fields fs)
                      ∙ rw (list_beq_refl k, array_is _ vs found) refl))
              ∙ ap some (items-of_items (f vs).0))
        ]
    array_at-update_array null = refl
    array_at-update_array (boolean b) = refl
    array_at-update_array (number n) = refl
    array_at-update_array (string s) = refl
    array_at-update_array (arr vs) = refl

    update_array-count :
        (body : Value N) (vs : List (Value N))
        → array_at k body ≡ some vs
        → (update_array k f body).1 ≡ (f vs).1
    unfolding update_array update_found get
    update_array-count (obj fs) vs h = rw h refl
    update_array-count null vs h = ground (arith, h)
    update_array-count (boolean b) vs h = ground (arith, h)
    update_array-count (number n) vs h = ground (arith, h)
    update_array-count (string s) vs h = ground (arith, h)
    update_array-count (arr ws) vs h = ground (arith, h)

    update_array-missing :
        (body : Value N) → array_at k body ≡ none → update_array k f body ≡ (body, 0)
    unfolding update_array update_found get
    update_array-missing (obj fs) h = rw h refl
    update_array-missing null h = refl
    update_array-missing (boolean b) h = refl
    update_array-missing (number n) h = refl
    update_array-missing (string s) h = refl
    update_array-missing (arr ws) h = refl

    modify-same :
        (m : Map Text (Value N)) (v : Value N) → lookup k m ≡ some v → modify k (λ w. v) m ≡ m
    unfolding lookup modify
    modify-same [] v h = refl
    modify-same ((j, w) ∷ m) v h = ground (arith, h, modify-same m v)

    update_array-unchanged :
        (body : Value N) (vs : List (Value N))
        → array_at k body ≡ some vs
        → (f vs).0 ≡ vs
        → (update_array k f body).0 ≡ body
    unfolding update_array update_found get
    update_array-unchanged (obj fs) vs h e =
        rw (h, e)
          (ap object (modify-same (fields fs) (array vs) (array_is _ vs h))
            ∙ ap obj (of_fields-fields fs))
    update_array-unchanged null vs h e = refl
    update_array-unchanged (boolean b) vs h e = refl
    update_array-unchanged (number n) vs h e = refl
    update_array-unchanged (string s) vs h e = refl
    update_array-unchanged (arr ws) vs h e = refl

    module _ (P : Value N → Type 0) where
      pub AllAt-update :
          ((vs : List (Value N)) → All P (f vs).0)
          → (body : Value N) → AllAt k P (update_array k f body).0
      AllAt-update h body = elim (Option-cases (array_at k body)) [
        | inl gone ↦ rw (array_at-update_array body, gone) tt
        | inr (vs, found) ↦ rw (array_at-update_array body, found) (h vs)
      ]

      pub AllAt-keeps :
          ((vs : List (Value N)) → All P vs → All P (f vs).0)
          → (body : Value N) → AllAt k P body
          → AllAt k P (update_array k f body).0
      AllAt-keeps h body a = elim (Option-cases (array_at k body)) [
        | inl gone ↦ rw (array_at-update_array body, gone) tt
        | inr (vs, found) ↦ rw (array_at-update_array body, found) (h vs (subst (AllOf P) found a))
      ]

      pub AllAt-zero :
          ((vs : List (Value N)) → All P vs → (f vs).1 ≡ 0)
          → (body : Value N) → AllAt k P body
          → (update_array k f body).1 ≡ 0
      AllAt-zero h body a = elim (Option-cases (array_at k body)) [
        | inl gone ↦ rw (update_array-missing body gone) refl
        | inr (vs, found) ↦ update_array-count body vs found ∙ h vs (subst (AllOf P) found a)
      ]

      AllAt-found :
          ((vs : List (Value N)) → (f vs).1 ≡ 0 → All P vs)
          → (body : Value N) → (update_array k f body).1 ≡ 0
          → AllAt k P body
      AllAt-found h body z = elim (Option-cases (array_at k body)) [
        | inl gone ↦ rw gone tt
        | inr (vs, found) ↦ rw found (h vs (sym (update_array-count body vs found) ∙ z))
      ]

    pub update_array-same :
        ((vs : List (Value N)) → (f vs).1 ≡ 0 → (f vs).0 ≡ vs)
        → (body : Value N) → (update_array k f body).1 ≡ 0
        → (update_array k f body).0 ≡ body
    update_array-same h body z = elim (Option-cases (array_at k body)) [
      | inl gone ↦ ap (λ r. r.0) (update_array-missing body gone)
      | inr (vs, found) ↦
          update_array-unchanged body vs found (h vs (sym (update_array-count body vs found) ∙ z))
    ]
