-- ===== src/History/Kept.antt =====
-- src/service/responses/history.rs: which answers the store keeps.
use llm_gateway.Prelude.{
  ℕ, ◌≤◌, ◌<◌, ◌⊎◌, subst, ◌≡◌, refl, ◌∙◌, Option, none, some, Bool, true, false, List, [], ◌∷◌,
  ◌++◌, length, length-append, if◌then◌else◌, arith, Bool-cases, Option-cases, inl, inr,
}
use llm_gateway.Prelude.Eq.{List_Eq, ℕ_Eq, list_beq, list_beq_iff, list_beq_refl, option_beq}
use llm_gateway.Prelude.Map.{Map, lookup, insert, remove, lookup-insert, lookup-remove}
use llm_gateway.Prelude.Text.{Text}
use llm_gateway.Json.{Value}
use llm_gateway.History.{
  max_entries, HistoryInner, has, touch, drop_first, empty_history, evict, store_items, store,
  accepts, record_items, restore,
}
use llm_gateway.History.Order.{
  IsDistinct, has-append, append-IsDistinct, has-touch, touch-IsDistinct, length-touch,
}
use llm_gateway.History.Newest.{oldest, oldest-cases, newest, order-known, order-room, order-full}

-- The operations on the store.
pub data Access (N : Type 0) : Type 0 where
  recorded : Text → Value N → Access N
  restored : Text → Access N

module _ {N : Type 0} where
  abbrev pub is_known : Option (Value N) → Bool
  is_known none = false
  is_known (some v) = true

  -- The identifiers in order are the keys of the map, each once, and not more than the capacity.
  abbrev pub IsHistory : HistoryInner N → Type 0
  IsHistory s =
      IsDistinct s.order
      × ((length s.order ≤ max_entries) × ((j : Text) → has j s.order ≡ is_known (lookup j s.map)))

  -- The answers after the items `v` are recorded under `id`.
  abbrev kept_after : Text → Value N → HistoryInner N → Text → Option (Value N)
  kept_after id v s j = elim (lookup id s.map) [
    | some old ↦ if list_beq id j then some v else lookup j s.map
    | none ↦
        if list_beq id j
        then some v
        else if option_beq (oldest s.order) (some j)
        then none
        else lookup j s.map
  ]

  evict-small :
      (ks : List Text) (m : Map Text (Value N))
      → length ks ≤ max_entries
      → evict ks m ≡ record { order = ks; map = m }
  unfolding evict
  evict-small [] m h = refl
  evict-small (k ∷ ks) m h = ground (arith, h)

  evict-full :
      (k : Text) (ks : List Text) (m : Map Text (Value N))
      → length ks ≡ max_entries
      → evict (k ∷ ks) m ≡ record { order = ks; map = remove k m }
  unfolding evict
  evict-full k ks m h = ground (arith, h, evict-small ks (remove k m))

  store-known :
      (id : Text) (v old : Value N) (s : HistoryInner N)
      → lookup id s.map ≡ some old
      → store id v s ≡ record { order = touch id s.order; map = insert id v s.map }
  unfolding store store_items
  store-known id v old s h = rw h refl

  store-room :
      (id : Text) (v : Value N) (s : HistoryInner N)
      → lookup id s.map ≡ none
      → length s.order < max_entries
      → store id v s ≡ record { order = touch id (s.order ++ id ∷ []); map = insert id v s.map }
  unfolding store store_items
  store-room id v s h r =
      rw
        (
          h,
          evict-small (s.order ++ id ∷ []) (insert id v s.map)
              (omega (arith, length-append s.order (id ∷ []))),
        )
        refl

  store-full :
      (id : Text) (v : Value N) (s : HistoryInner N) (k : Text) (ks : List Text)
      → lookup id s.map ≡ none
      → s.order ≡ k ∷ ks
      → length ks ≡ 511
      → store id v s
        ≡ record { order = touch id (ks ++ id ∷ []); map = remove k (insert id v s.map) }
  unfolding store store_items
  store-full id v s k ks h o l =
      rw
        (
          h,
          o,
          evict-full k (ks ++ id ∷ []) (insert id v s.map)
              (omega (arith, length-append ks (id ∷ []))),
        )
        refl

  -- An identifier is absent from a list where it is absent from a longer one.
  IsHistory-full :
      (id : Text) (v : Value N) (k : Text) (ks : List Text) (m : Map Text (Value N))
      → IsHistory (record { order = k ∷ ks; map = m })
      → lookup id m ≡ none
      → IsHistory (record { order = touch id (ks ++ id ∷ []); map = remove k (insert id v m) })
  IsHistory-full id v k ks m h new =
      let fresh : has id ks ≡ false = ground (arith, h.1.1 id, new) in
      let d : IsDistinct (ks ++ id ∷ []) = append-IsDistinct id ks h.0.1 fresh in
      (
        touch-IsDistinct id (ks ++ id ∷ []) d,
        (
          omega (arith, length-touch id (ks ++ id ∷ []), length-append ks (id ∷ []), h.1.0),
          λ j. ground (
            arith,
            has-touch id j (ks ++ id ∷ []) d,
            has-append j ks (id ∷ []),
            h.1.1 j,
            h.1.1 id,
            new,
            h.0.0,
            lookup-remove k j (insert id v m),
            lookup-insert id j v m,
            list_beq_iff id j,
            list_beq_iff k j,
            list_beq_iff k id,
          ),
        ),
      )

  IsHistory-room :
      (id : Text) (v : Value N) (ks : List Text) (m : Map Text (Value N))
      → IsHistory (record { order = ks; map = m })
      → lookup id m ≡ none
      → length ks < max_entries
      → IsHistory (record { order = touch id (ks ++ id ∷ []); map = insert id v m })
  IsHistory-room id v ks m h new r =
      let fresh : has id ks ≡ false = ground (arith, h.1.1 id, new) in
      let d : IsDistinct (ks ++ id ∷ []) = append-IsDistinct id ks h.0 fresh in
      (
        touch-IsDistinct id (ks ++ id ∷ []) d,
        (
          omega (arith, length-touch id (ks ++ id ∷ []), length-append ks (id ∷ [])),
          λ j. ground (
            arith,
            has-touch id j (ks ++ id ∷ []) d,
            has-append j ks (id ∷ []),
            h.1.1 j,
            lookup-insert id j v m,
            list_beq_iff id j,
          ),
        ),
      )

  IsHistory-known :
      (id : Text) (v old : Value N) (ks : List Text) (m : Map Text (Value N))
      → IsHistory (record { order = ks; map = m })
      → lookup id m ≡ some old
      → IsHistory (record { order = touch id ks; map = insert id v m })
  IsHistory-known id v old ks m h known = (
    touch-IsDistinct id ks h.0,
    (
      omega (arith, length-touch id ks, h.1.0),
      λ j. ground (
        arith,
        has-touch id j ks h.0,
        h.1.1 j,
        h.1.1 id,
        known,
        lookup-insert id j v m,
        list_beq_iff id j,
      ),
    ),
  )

  -- What recording does to the store and to each of the answers.
  abbrev pub Recorded : Text → Value N → HistoryInner N → HistoryInner N → Type 0
  Recorded id v s s' =
      IsHistory s'
      × ((s'.order ≡ newest (drop_first id s.order ++ id ∷ []))
          × ((j : Text) → lookup j s'.map ≡ kept_after id v s j))

  store-Recorded :
      (id : Text) (v : Value N) (s : HistoryInner N) → IsHistory s → Recorded id v s (store id v s)
  store-Recorded id v s h = elim (Option-cases (lookup id s.map)) [
    | inr (old, known) ↦ rw (store-known id v old s known) (
      IsHistory-known id v old s.order s.map h known,
      (
        order-known id s.order (ground (arith, h.1.1 id, known)) h.1.0,
        λ j. ground (arith, known, lookup-insert id j v s.map),
      ),
    )
    | inl new ↦ elim (oldest-cases s.order h.1.0) [
      | inl (room, none_leaves) ↦ rw (store-room id v s new room) (
        IsHistory-room id v s.order s.map h new room,
        (
          order-room id s.order (ground (arith, h.1.1 id, new)) room,
          λ j. ground (arith, new, none_leaves, lookup-insert id j v s.map),
        ),
      )
      | inr (k, (ks, (order, (full, leaves)))) ↦ rw (store-full id v s k ks new order full) (
        IsHistory-full id v k ks s.map
            (subst (λ o. IsHistory (record { order = o; map = s.map })) order h) new,
        (
          rw order (order-full id k ks (ground (arith, h.1.1 id, new, order)) full),
          λ j. ground (
            arith,
            new,
            leaves,
            lookup-insert id j v s.map,
            lookup-remove k j (insert id v s.map),
            h.1.1 k,
            h.1.1 id,
            order,
            list_beq_refl k,
            list_beq_iff id j,
            list_beq_iff k j,
            list_beq_iff k id,
          ),
        ),
      )
    ]
  ]

  restore-IsHistory : (id : Text) (s : HistoryInner N) → IsHistory s → IsHistory (restore id s).1
  unfolding restore
  restore-IsHistory id s h = (
    touch-IsDistinct id s.order h.0,
    (omega (arith, length-touch id s.order, h.1.0), λ j. has-touch id j s.order h.0 ∙ h.1.1 j),
  )

  -- Recording items under an identifier, in a store whose identifiers are the keys of its map, does
  -- nothing unless the identifier is plausible and the items are a list, not empty, of at most 2 MiB.
  -- Then the identifier comes last in the order, the first one leaves where 513 would remain, and
  -- each answer is what it was but for the recorded one and the one that left; the identifiers are
  -- still the keys.
  pub record_items-kept :
      (serialized : Value N → Option ℕ) (id : Text) (v : Value N) (s : HistoryInner N)
      → IsHistory s
      → ((accepts serialized id v ≡ false) × (record_items serialized id v s ≡ s))
        ⊎ ((accepts serialized id v ≡ true) × Recorded id v s (record_items serialized id v s))
  unfolding record_items
  record_items-kept serialized id v s h = elim (Bool-cases (accepts serialized id v)) [
    | inl taken ↦ inr (taken, rw taken (store-Recorded id v s h))
    | inr refused ↦ inl (refused, rw refused refl)
  ]

  unfoldable pub access_all :
      (Value N → Option ℕ) → List (Access N) → HistoryInner N → HistoryInner N
  access_all serialized [] s = s
  access_all serialized (recorded id v ∷ es) s =
      access_all serialized es (record_items serialized id v s)
  access_all serialized (restored id ∷ es) s = access_all serialized es (restore id s).1

  access_all-keeps :
      (serialized : Value N → Option ℕ) (es : List (Access N)) (s : HistoryInner N)
      → IsHistory s
      → IsHistory (access_all serialized es s)
  unfolding access_all
  access_all-keeps serialized [] s h = h
  access_all-keeps serialized (recorded id v ∷ es) s h =
      access_all-keeps serialized es (record_items serialized id v s)
        (elim (record_items-kept serialized id v s h) [
          | inl (_, same) ↦ rw same h
          | inr (_, r) ↦ r.0
        ])
  access_all-keeps serialized (restored id ∷ es) s h =
      access_all-keeps serialized es (restore id s).1 (restore-IsHistory id s h)

  -- After any run of records and restores from the empty store, its identifiers are the keys of its
  -- map, each once, and at most 512.
  pub access_all-IsHistory :
      (serialized : Value N → Option ℕ) (es : List (Access N))
      → IsHistory (access_all serialized es empty_history)
  unfolding lookup
  access_all-IsHistory serialized es =
      access_all-keeps serialized es empty_history (tt, (omega arith, λ j. refl))
