-- ===== src/Outbound/Rectify/Thinking.antt =====
-- src/service/rectify.rs: what is left of the thinking blocks and of the signatures.
use llm_gateway.Prelude.{
  ℕ, ◌≡◌, refl, sym, ap, ◌∙◌, Option, none, some, false, List, [], ◌∷◌, if◌then◌else◌, arith,
  Bool-cases, inl, inr, All,
}
use llm_gateway.Prelude.Eq.{List_Eq, ℕ_Eq, list_beq, list_beq_iff}
use llm_gateway.Prelude.Map.{lookup, remove, lookup-remove}
use llm_gateway.Prelude.Text.{Text, codes}
use llm_gateway.Json.{Value, null, boolean, number, string, arr, obj, Fields, fields, get}
use llm_gateway.Json.Laws.{get-object}
use llm_gateway.Outbound.Rectify.{
  update_array, map_count, when_changed, is_thinking, strip_signature, strip_found, strip_blocks,
  strip_thinking_blocks,
}
use llm_gateway.Outbound.Rectify.Arrays.{
  AllAt, AllAt-get, map_count-All, map_count-keeps, map_count-zero, map_count-same,
  when_changed-All, when_changed-count, when_changed-same, get-update_array, AllAt-update,
  AllAt-keeps, AllAt-zero, update_array-same,
}
use llm_gateway.Outbound.Rectify.Images.{NotImage, NoImages, NotInputImage}

module _ {N : Type 0} where
  -- No thinking block, and without a signature.
  abbrev pub Plain : Value N → Type 0
  Plain block = (is_thinking block ≡ false) × (get (codes "signature") block ≡ none)

  abbrev pub NoThinking : Value N → Type 0
  NoThinking body = AllAt (codes "messages") (AllAt (codes "content") Plain) body

  get-strip_found :
      (o : Option (Value N)) (fs : Fields N) (k : Text)
      → lookup (codes "signature") (fields fs) ≡ o
      → get k (strip_found o fs).0
        ≡ (if list_beq (codes "signature") k then none else get k (obj fs))
  unfolding strip_found get
  get-strip_found none fs k h = ground (arith, h, list_beq_iff (codes "signature") k)
  get-strip_found (some s) fs k h =
      get-object k (remove (codes "signature") (fields fs))
      ∙ lookup-remove (codes "signature") k (fields fs)

  strip_found-found : (o : Option (Value N)) (fs : Fields N) → (strip_found o fs).1 ≡ 0 → o ≡ none
  unfolding strip_found
  strip_found-found none fs h = refl
  strip_found-found (some s) fs h = ground (arith, h)

  -- Every key but the signature stays.
  get-strip_signature :
      (block : Value N) (k : Text)
      → get k (strip_signature block).0
        ≡ (if list_beq (codes "signature") k then none else get k block)
  unfolding strip_signature strip_found get
  get-strip_signature (obj fs) k =
      get-strip_found (lookup (codes "signature") (fields fs)) fs k refl
  get-strip_signature null k = ground arith
  get-strip_signature (boolean b) k = ground arith
  get-strip_signature (number n) k = ground arith
  get-strip_signature (string s) k = ground arith
  get-strip_signature (arr vs) k = ground arith

  strip_signature-zero :
      (block : Value N) → get (codes "signature") block ≡ none → strip_signature block ≡ (block, 0)
  unfolding strip_signature strip_found get
  strip_signature-zero (obj fs) h = ap (λ o. strip_found o fs) h
  strip_signature-zero null h = refl
  strip_signature-zero (boolean b) h = refl
  strip_signature-zero (number n) h = refl
  strip_signature-zero (string s) h = refl
  strip_signature-zero (arr vs) h = refl

  strip_signature-found :
      (block : Value N) → (strip_signature block).1 ≡ 0 → get (codes "signature") block ≡ none
  unfolding strip_signature strip_found get
  strip_signature-found (obj fs) h = strip_found-found (lookup (codes "signature") (fields fs)) fs h
  strip_signature-found null h = refl
  strip_signature-found (boolean b) h = refl
  strip_signature-found (number n) h = refl
  strip_signature-found (string s) h = refl
  strip_signature-found (arr vs) h = refl

  strip_signature-type :
      (block : Value N) → get (codes "type") (strip_signature block).0 ≡ get (codes "type") block
  strip_signature-type block = get-strip_signature block (codes "type")

  strip_signature-Plain :
      (block : Value N) → is_thinking block ≡ false → Plain (strip_signature block).0
  strip_signature-Plain block h =
      (rw (strip_signature-type block) h, get-strip_signature block (codes "signature"))

  strip_signature-NotImage : (block : Value N) → NotImage block → NotImage (strip_signature block).0
  strip_signature-NotImage block h = rw (strip_signature-type block) h

  strip_blocks-All : (bs : List (Value N)) → All Plain (strip_blocks bs).0
  unfolding strip_blocks
  strip_blocks-All [] = tt
  strip_blocks-All (b ∷ bs) = elim (Bool-cases (is_thinking b)) [
    | inl c ↦ rw c (strip_blocks-All bs)
    | inr c ↦ rw c (strip_signature-Plain b c, strip_blocks-All bs)
  ]

  strip_blocks-NotImage : (bs : List (Value N)) → All NotImage bs → All NotImage (strip_blocks bs).0
  unfolding strip_blocks
  strip_blocks-NotImage [] a = tt
  strip_blocks-NotImage (b ∷ bs) a = elim (Bool-cases (is_thinking b)) [
    | inl c ↦ rw c (strip_blocks-NotImage bs a.1)
    | inr c ↦ rw c (strip_signature-NotImage b a.0, strip_blocks-NotImage bs a.1)
  ]

  strip_blocks-zero : (bs : List (Value N)) → All Plain bs → (strip_blocks bs).1 ≡ 0
  unfolding strip_blocks
  strip_blocks-zero [] a = refl
  strip_blocks-zero (b ∷ bs) a =
      rw (a.0.0, strip_signature-zero b a.0.1) (omega (arith, strip_blocks-zero bs a.1))

  -- Where nothing is counted, nothing was there.
  strip_blocks-found :
      (bs : List (Value N)) → (strip_blocks bs).1 ≡ 0 → All Plain bs × ((strip_blocks bs).0 ≡ bs)
  unfolding strip_blocks
  strip_blocks-found [] h = (tt, refl)
  strip_blocks-found (b ∷ bs) h = elim (Bool-cases (is_thinking b)) [
    | inl c ↦ ground (arith, h, c)
    | inr c ↦
        let m : (strip_signature b).1 ≡ 0 = ground (arith, h, c) in
        let n : (strip_blocks bs).1 ≡ 0 = ground (arith, h, c) in
        let (rest, same) = strip_blocks-found bs n in
        (
          ((c, strip_signature-found b m), rest),
          rw (c, strip_signature-zero b (strip_signature-found b m), same) refl,
        )
  ]

  -- The loop over the blocks of a content, and that over the messages.
  abbrev strip_content : List (Value N) → List (Value N) × ℕ
  strip_content = when_changed strip_blocks

  abbrev strip_message : Value N → Value N × ℕ
  strip_message = update_array (codes "content") strip_content

  strip_content-All : (vs : List (Value N)) → All Plain (strip_content vs).0
  strip_content-All vs =
      when_changed-All strip_blocks Plain vs (strip_blocks-All vs)
        (λ h. (strip_blocks-found vs h).0)

  strip_content-NotImage :
      (vs : List (Value N)) → All NotImage vs → All NotImage (strip_content vs).0
  strip_content-NotImage vs a =
      when_changed-All strip_blocks NotImage vs (strip_blocks-NotImage vs a) (λ h. a)

  strip_content-zero : (vs : List (Value N)) → All Plain vs → (strip_content vs).1 ≡ 0
  strip_content-zero vs a = when_changed-count strip_blocks vs ∙ strip_blocks-zero vs a

  strip_content-same : (vs : List (Value N)) → (strip_content vs).1 ≡ 0 → (strip_content vs).0 ≡ vs
  strip_content-same vs h =
      when_changed-same strip_blocks vs (sym (when_changed-count strip_blocks vs) ∙ h)

  pub strip_thinking_blocks-NoThinking :
      (body : Value N) → NoThinking (strip_thinking_blocks body).0
  unfolding strip_thinking_blocks
  strip_thinking_blocks-NoThinking body =
      AllAt-update (codes "messages") (map_count strip_message) _
        (map_count-All strip_message _
          (AllAt-update (codes "content") strip_content Plain strip_content-All))
        body

  pub strip_thinking_blocks-NoImages :
      (body : Value N) → NoImages body → NoImages (strip_thinking_blocks body).0
  unfolding strip_thinking_blocks
  strip_thinking_blocks-NoImages body h = (
    AllAt-keeps (codes "messages") (map_count strip_message) _
        (map_count-keeps strip_message _
          (AllAt-keeps (codes "content") strip_content NotImage strip_content-NotImage))
        body h.0,
    AllAt-get (codes "input") NotInputImage body _
        (sym
          (get-update_array (codes "messages") (map_count strip_message) (codes "input") body refl))
        h.1,
  )

  pub strip_thinking_blocks-zero :
      (body : Value N) → NoThinking body → (strip_thinking_blocks body).1 ≡ 0
  unfolding strip_thinking_blocks
  strip_thinking_blocks-zero body h =
      AllAt-zero (codes "messages") (map_count strip_message) (AllAt (codes "content") Plain)
        (map_count-zero strip_message _
          (AllAt-zero (codes "content") strip_content Plain strip_content-zero))
        body h

  pub strip_thinking_blocks-same :
      (body : Value N) → (strip_thinking_blocks body).1 ≡ 0 → (strip_thinking_blocks body).0 ≡ body
  unfolding strip_thinking_blocks
  strip_thinking_blocks-same body h =
      update_array-same (codes "messages") (map_count strip_message)
        (map_count-same strip_message
          (update_array-same (codes "content") strip_content strip_content-same))
        body h
