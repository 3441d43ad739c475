-- ===== src/Json.antt =====
-- The values of serde_json, which the gateway's requests and answers are made of. A number is
-- serde_json's own, and so a parameter; an object is its map sorted by the keys.
pub mod Laws
use llm_gateway.Prelude.{ℕ, Option, none, some, Bool, true, false, List, [], ◌∷◌, if◌then◌else◌}
use llm_gateway.Prelude.Eq.{◌==◌, List_Eq, ℕ_Eq, list_beq, option_beq}
use llm_gateway.Prelude.Map.{Map, lookup}
use llm_gateway.Prelude.Text.{Text, codes, ltb_text}

mutual
  pub data Value (N : Type 0) : Type 0 where
    null : Value N
    boolean : Bool → Value N
    number : N → Value N
    string : Text → Value N
    arr : Items N → Value N
    obj : Fields N → Value N

  pub data Items (N : Type 0) : Type 0 where
    nil : Items N
    cons : Value N → Items N → Items N

  pub data Fields (N : Type 0) : Type 0 where
    end : Fields N
    field : Text → Value N → Fields N → Fields N

-- `and_then`
abbrev pub and_then {ℓ κ} : {A : Type ℓ} {B : Type κ} → Option A → (A → Option B) → Option B
and_then none f = none
and_then (some a) f = f a

module _ {N : Type 0} where
  abbrev pub items : Items N → List (Value N)
  items nil = []
  items (cons v vs) = v ∷ items vs

  abbrev pub of_items : List (Value N) → Items N
  of_items [] = nil
  of_items (v ∷ vs) = cons v (of_items vs)

  abbrev pub fields : Fields N → Map Text (Value N)
  fields end = []
  fields (field k v fs) = (k, v) ∷ fields fs

  abbrev pub of_fields : Map Text (Value N) → Fields N
  of_fields [] = end
  of_fields ((k, v) ∷ m) = field k v (of_fields m)

  -- `Value::Array` and `Value::Object`
  abbrev pub array : List (Value N) → Value N
  array vs = arr (of_items vs)

  abbrev pub object : Map Text (Value N) → Value N
  object m = obj (of_fields m)

  -- `as_array`, `as_object`, `as_str` and `as_bool`
  abbrev pub as_array : Value N → Option (List (Value N))
  as_array (arr vs) = some (items vs)
  as_array _ = none

  abbrev pub as_object : Value N → Option (Map Text (Value N))
  as_object (obj fs) = some (fields fs)
  as_object _ = none

  abbrev pub as_str : Value N → Option Text
  as_str (string s) = some s
  as_str _ = none

  abbrev pub as_bool : Value N → Option Bool
  as_bool (boolean b) = some b
  as_bool _ = none

  -- `get` by a key
  unfoldable pub get : Text → Value N → Option (Value N)
  get k (obj fs) = lookup k (fields fs)
  get k _ = none

  -- `get(k).and_then(|v| v.as_str())`
  abbrev pub get_str : Text → Value N → Option Text
  get_str k v = and_then (get k v) as_str

  -- `v.get(k).and_then(|v| v.as_str()) == Some(s)`
  abbrev pub is_str : Text → Text → Value N → Bool
  is_str k s v = option_beq (get_str k v) (some s)

  -- `Map::insert`, in the place of the key
  unfoldable pub insert_key : Text → Value N → Map Text (Value N) → Map Text (Value N)
  insert_key k v [] = (k, v) ∷ []
  insert_key k v ((j, w) ∷ m) =
      if k == j
      then (k, v) ∷ m
      else if ltb_text k j
      then (k, v) ∷ (j, w) ∷ m
      else (j, w) ∷ insert_key k v m

  -- Writes a key of an object, and leaves any other value.
  abbrev pub with_key : Text → Value N → Value N → Value N
  with_key k x (obj fs) = object (insert_key k x (fields fs))
  with_key k x v = v
