-- ===== src/History/Enrich.antt =====
-- src/service/responses/history.rs: the request with the history that it refers to.
use llm_gateway.Prelude.{
  ◌≡◌, ◌≢◌, refl, ◌∙◌, Option, none, some, ◌++◌, if◌then◌else◌, ◌⊎◌, inl, inr, Option-cases,
}
use llm_gateway.Prelude.Eq.{List_Eq, ℕ_Eq, list_beq}
use llm_gateway.Prelude.Map.{lookup, remove, lookup-remove}
use llm_gateway.Prelude.Text.{Text, codes}
use llm_gateway.Json.{
  Value, null, boolean, number, string, arr, obj, Fields, fields, get, as_array, array, insert_key,
}
use llm_gateway.Json.Laws.{get-object, fields-of_fields, lookup-insert_key}
use llm_gateway.History.{
  HistoryInner, touch, Enriched, enriched, unknown_reference, reference, restore, or_empty,
  input_items, prepend, enrich_with, enrich_by, enrich_request_with_history,
}

module _ {N : Type 0} where
  -- What the request's keys hold after the restored items stand before its own.
  abbrev merged : Value N → Value N → Text → Option (Value N)
  merged restored json k =
      if list_beq (codes "previous_response_id") k
      then none
      else if list_beq (codes "input") k
      then some (array (or_empty (as_array restored) ++ input_items (get (codes "input") json)))
      else get k json

  prepend-get :
      (restored : Value N) (fs : Fields N) (k : Text)
      → get k (prepend restored (obj fs)) ≡ merged restored (obj fs) k
  unfolding prepend get
  prepend-get restored fs k =
      let input =
        array (or_empty (as_array restored) ++ input_items (get (codes "input") (obj fs))) in
      let m = insert_key (codes "input") input (fields fs) in
      rw (fields-of_fields m) (
        get-object k (remove (codes "previous_response_id") m)
        ∙ (lookup-remove (codes "previous_response_id") k m
            ∙ rw (lookup-insert_key (codes "input") k input (fields fs)) refl))

  reference-plain :
      (json : Value N) {id : Text}
      → get (codes "previous_response_id") json ≡ none
      → reference json ≢ some id
  reference-plain json p h = cc

  -- A request that has a reference is an object.
  prepend-merged :
      (restored json : Value N) (id : Text)
      → reference json ≡ some id
      → (k : Text) → get k (prepend restored json) ≡ merged restored json k
  unfolding get
  prepend-merged restored (obj fs) id h k = prepend-get restored fs k
  prepend-merged restored null id h k = absurd (reference-plain null refl h)
  prepend-merged restored (boolean b) id h k = absurd (reference-plain (boolean b) refl h)
  prepend-merged restored (number n) id h k = absurd (reference-plain (number n) refl h)
  prepend-merged restored (string t) id h k = absurd (reference-plain (string t) refl h)
  prepend-merged restored (arr vs) id h k = absurd (reference-plain (arr vs) refl h)

  -- The three outcomes: no reference, one that the store does not know, and one that it does.
  abbrev pub Outcome : Value N → HistoryInner N → Enriched N × HistoryInner N → Type 0
  Outcome json s r =
      ((reference json ≡ none) × (r ≡ (enriched json, s)))
      ⊎ ((id : Text) × ((reference json ≡ some id)
            × ((r.1 ≡ record s { order = touch id s.order })
                × (((lookup id s.map ≡ none) × (r.0 ≡ unknown_reference id))
                    ⊎ ((restored : Value N) × ((lookup id s.map ≡ some restored)
                          × ((out : Value N) × ((r.0 ≡ enriched out)
                                × ((k : Text) → get k out ≡ merged restored json k)))))))))

  -- A request without a reference, or with a blank one, is left alone. One whose trimmed reference the
  -- store does not hold is refused with it. Otherwise the input is the stored items and then the
  -- request's own, the reference is gone, and every other key keeps its value. Only the order of the
  -- store changes.
  pub enrich_request_with_history-Outcome :
      (json : Value N) (s : HistoryInner N) → Outcome json s (enrich_request_with_history json s)
  unfolding enrich_request_with_history enrich_by enrich_with restore
  enrich_request_with_history-Outcome json s = elim (Option-cases (reference json)) [
    | inl free ↦ inl (free, rw free refl)
    | inr (id, refers) ↦ inr (
      id,
      (
        refers,
        elim (Option-cases (lookup id s.map)) [
          | inl gone ↦ rw (refers, gone) (refl, inl (refl, refl))
          | inr (restored, found) ↦
              rw (refers, found)
                (
                  refl,
                  inr (
                    restored,
                    (
                      refl,
                      (
                        prepend restored json,
                        (refl, λ k. prepend-merged restored json id refers k),
                      ),
                    ),
                  ),
                )
        ],
      ),
    )
  ]
