-- ===== src/Json/Laws.antt =====
-- The laws of JSON values that the components share.
use llm_gateway.Prelude.{◌≡◌, refl, ap, ◌∙◌, some, List, [], ◌∷◌, if◌then◌else◌, arith}
use llm_gateway.Prelude.Eq.{List_Eq, ℕ_Eq, list_beq, list_beq_iff}
use llm_gateway.Prelude.Map.{Map, lookup}
use llm_gateway.Prelude.Text.{Text}
use llm_gateway.Json.{
  Value, obj, Items, nil, cons, Fields, end, field, items, of_items, fields, of_fields, object, get,
  insert_key, with_key,
}

module _ {N : Type 0} where
  pub items-of_items : (vs : List (Value N)) → items (of_items vs) ≡ vs
  items-of_items [] = refl
  items-of_items (v ∷ vs) = ap (λ r. v ∷ r) (items-of_items vs)

  pub of_items-items : (vs : Items N) → of_items (items vs) ≡ vs
  of_items-items nil = refl
  of_items-items (cons v vs) = ap (cons v) (of_items-items vs)

  pub fields-of_fields : (m : Map Text (Value N)) → fields (of_fields m) ≡ m
  fields-of_fields [] = refl
  fields-of_fields ((k, v) ∷ m) = ap (λ r. (k, v) ∷ r) (fields-of_fields m)

  pub of_fields-fields : (fs : Fields N) → of_fields (fields fs) ≡ fs
  of_fields-fields end = refl
  of_fields-fields (field k v fs) = ap (field k v) (of_fields-fields fs)

  pub get-object : (k : Text) (m : Map Text (Value N)) → get k (object m) ≡ lookup k m
  unfolding get
  get-object k m = ap (lookup k) (fields-of_fields m)

  -- As in any map, but for the place of the entry: a smaller key than the first is not in the rest.
  pub lookup-insert_key :
      (k j : Text) (v : Value N) (m : Map Text (Value N))
      → lookup j (insert_key k v m) ≡ (if list_beq k j then some v else lookup j m)
  unfolding lookup insert_key
  lookup-insert_key k j v [] = refl
  lookup-insert_key k j v ((i, w) ∷ m) =
      ground
        (arith, list_beq_iff k j, list_beq_iff k i, list_beq_iff i j, lookup-insert_key k j v m)

  pub get-with_key :
      (k j : Text) (x : Value N) (fs : Fields N)
      → get j (with_key k x (obj fs)) ≡ (if list_beq k j then some x else get j (obj fs))
  unfolding get
  get-with_key k j x fs =
      ap (lookup j) (fields-of_fields (insert_key k x (fields fs)))
      ∙ lookup-insert_key k j x (fields fs)
