-- ===== src/Outbound/Rectify/Images.antt =====
-- src/service/rectify.rs: what is left of the images and of the thinking blocks.
use llm_gateway.Prelude.{
  ℕ, ◌≡◌, refl, sym, ◌∙◌, Bool, true, false, List, if◌then◌else◌, arith, Bool-cases, inl, inr, All,
}
use llm_gateway.Prelude.Eq.{List_Eq, ℕ_Eq}
use llm_gateway.Prelude.Map.{lookup}
use llm_gateway.Prelude.Text.{codes}
use llm_gateway.Json.{Value, get}
use llm_gateway.Outbound.Rectify.{
  update_array, map_count, when_changed, is_image, is_input_image, replace_part, replace_item,
  replace_image_parts,
}
use llm_gateway.Outbound.Rectify.Arrays.{
  AllAt, AllAt-get, map_count-All, map_count-zero, map_count-found, map_count-same,
  when_changed-All, when_changed-count, when_changed-same, get-update_array, AllAt-update,
  AllAt-zero, update_array-same,
}

module _ {N : Type 0} where
  abbrev pub NotImage : Value N → Type 0
  NotImage part = is_image part ≡ false

  abbrev pub NotInputImage : Value N → Type 0
  NotInputImage item = is_input_image item ≡ false

  -- No image is left in a message, and none among the items of the input.
  abbrev pub NoImages : Value N → Type 0
  NoImages body =
      AllAt (codes "messages") (AllAt (codes "content") NotImage) body
      × AllAt (codes "input") NotInputImage body

  counted : Bool → Value N → Value N → Value N × ℕ
  counted b x y = if b then (x, 1) else (y, 0)

  if_count : (b : Bool) (x y : Value N) → (counted b x y).1 ≡ 0 → b ≡ false
  unfolding counted
  if_count true x y h = ground (arith, h)
  if_count false x y h = refl

  replace_part-NotImage : (part : Value N) → NotImage (replace_part part).0
  unfolding replace_part get lookup
  replace_part-NotImage part = elim (Bool-cases (is_image part)) [
    | inl c ↦ rw c refl
    | inr c ↦ rw c c
  ]

  replace_part-zero : (part : Value N) → NotImage part → (replace_part part).1 ≡ 0
  unfolding replace_part
  replace_part-zero part h = rw h refl

  replace_part-found : (part : Value N) → (replace_part part).1 ≡ 0 → NotImage part
  unfolding replace_part counted
  replace_part-found part h = if_count (is_image part) _ _ h

  replace_part-same : (part : Value N) → (replace_part part).1 ≡ 0 → (replace_part part).0 ≡ part
  unfolding replace_part
  replace_part-same part h = rw (replace_part-found part h) refl

  replace_item-NotInputImage : (item : Value N) → NotInputImage (replace_item item).0
  unfolding replace_item get lookup
  replace_item-NotInputImage item = elim (Bool-cases (is_input_image item)) [
    | inl c ↦ rw c refl
    | inr c ↦ rw c c
  ]

  replace_item-zero : (item : Value N) → NotInputImage item → (replace_item item).1 ≡ 0
  unfolding replace_item
  replace_item-zero item h = rw h refl

  replace_item-found : (item : Value N) → (replace_item item).1 ≡ 0 → NotInputImage item
  unfolding replace_item counted
  replace_item-found item h = if_count (is_input_image item) _ _ h

  replace_item-same : (item : Value N) → (replace_item item).1 ≡ 0 → (replace_item item).0 ≡ item
  unfolding replace_item
  replace_item-same item h = rw (replace_item-found item h) refl

  -- The loop over the parts of a content, and that over the messages.
  abbrev replace_parts : List (Value N) → List (Value N) × ℕ
  replace_parts = when_changed (map_count replace_part)

  abbrev replace_in_message : Value N → Value N × ℕ
  replace_in_message = update_array (codes "content") replace_parts

  abbrev replace_items : List (Value N) → List (Value N) × ℕ
  replace_items = when_changed (map_count replace_item)

  replace_parts-All : (vs : List (Value N)) → All NotImage (replace_parts vs).0
  replace_parts-All vs =
      when_changed-All (map_count replace_part) NotImage vs
        (map_count-All replace_part NotImage replace_part-NotImage vs)
        (map_count-found replace_part NotImage replace_part-found vs)

  replace_parts-zero : (vs : List (Value N)) → All NotImage vs → (replace_parts vs).1 ≡ 0
  replace_parts-zero vs a =
      when_changed-count (map_count replace_part) vs
      ∙ map_count-zero replace_part NotImage replace_part-zero vs a

  replace_parts-same : (vs : List (Value N)) → (replace_parts vs).1 ≡ 0 → (replace_parts vs).0 ≡ vs
  replace_parts-same vs h =
      when_changed-same (map_count replace_part) vs
        (sym (when_changed-count (map_count replace_part) vs) ∙ h)

  replace_items-All : (vs : List (Value N)) → All NotInputImage (replace_items vs).0
  replace_items-All vs =
      when_changed-All (map_count replace_item) NotInputImage vs
        (map_count-All replace_item NotInputImage replace_item-NotInputImage vs)
        (map_count-found replace_item NotInputImage replace_item-found vs)

  replace_items-zero : (vs : List (Value N)) → All NotInputImage vs → (replace_items vs).1 ≡ 0
  replace_items-zero vs a =
      when_changed-count (map_count replace_item) vs
      ∙ map_count-zero replace_item NotInputImage replace_item-zero vs a

  replace_items-same : (vs : List (Value N)) → (replace_items vs).1 ≡ 0 → (replace_items vs).0 ≡ vs
  replace_items-same vs h =
      when_changed-same (map_count replace_item) vs
        (sym (when_changed-count (map_count replace_item) vs) ∙ h)

  -- The first of the two loops: the chat messages.
  replace_chat : Value N → Value N × ℕ
  replace_chat body = update_array (codes "messages") (map_count replace_in_message) body

  replace_chat-input :
      (body : Value N) → get (codes "input") (replace_chat body).0 ≡ get (codes "input") body
  unfolding replace_chat
  replace_chat-input body =
      get-update_array (codes "messages") (map_count replace_in_message) (codes "input") body refl

  replace_chat-same : (body : Value N) → (replace_chat body).1 ≡ 0 → (replace_chat body).0 ≡ body
  unfolding replace_chat
  replace_chat-same body h =
      update_array-same (codes "messages") (map_count replace_in_message)
        (map_count-same replace_in_message
          (update_array-same (codes "content") replace_parts replace_parts-same))
        body h

  replace_chat-zero : (body : Value N) → NoImages body → (replace_chat body).1 ≡ 0
  unfolding replace_chat
  replace_chat-zero body (m, i) =
      AllAt-zero (codes "messages") (map_count replace_in_message)
        (AllAt (codes "content") NotImage)
        (map_count-zero replace_in_message _
          (AllAt-zero (codes "content") replace_parts NotImage replace_parts-zero))
        body m

  replace_chat-All :
      (body : Value N)
      → AllAt (codes "messages") (AllAt (codes "content") NotImage) (replace_chat body).0
  unfolding replace_chat
  replace_chat-All body =
      AllAt-update (codes "messages") (map_count replace_in_message) _
        (map_count-All replace_in_message _
          (AllAt-update (codes "content") replace_parts NotImage replace_parts-All))
        body

  pub replace_image_parts-NoImages : (body : Value N) → NoImages (replace_image_parts body).0
  unfolding replace_image_parts replace_chat
  replace_image_parts-NoImages body =
      let chat = (replace_chat body).0 in
      (
        AllAt-get (codes "messages") (AllAt (codes "content") NotImage) chat _
            (sym (get-update_array (codes "input") replace_items (codes "messages") chat refl))
            (replace_chat-All body),
        AllAt-update (codes "input") replace_items NotInputImage replace_items-All chat,
      )

  pub replace_image_parts-zero : (body : Value N) → NoImages body → (replace_image_parts body).1 ≡ 0
  unfolding replace_image_parts replace_chat
  replace_image_parts-zero body h =
      let chat = (replace_chat body).0 in
      omega (
        arith,
        replace_chat-zero body h,
        AllAt-zero (codes "input") replace_items NotInputImage replace_items-zero chat
            (AllAt-get (codes "input") NotInputImage body chat (sym (replace_chat-input body)) h.1),
      )

  -- Where no image is found the request stays as it is.
  pub replace_image_parts-same :
      (body : Value N) → (replace_image_parts body).1 ≡ 0 → (replace_image_parts body).0 ≡ body
  unfolding replace_image_parts replace_chat
  replace_image_parts-same body h =
      update_array-same (codes "input") replace_items replace_items-same (replace_chat body).0
        (omega arith)
      ∙ replace_chat-same body (omega arith)
