-- ===== src/Breaker/Filter.antt =====
-- `filter_candidates` and the second question of the proxy's loop.
use llm_gateway.Prelude.{
  ℕ, ◌≤◌, ◌≡◌, refl, some, Bool, true, false, List, [], ◌∷◌, arith, ◌⊎◌, inl, inr, Bool-cases,
  if◌then◌else◌,
}
use llm_gateway.Prelude.Int.{ℤ, ℤ_Eq, beq_ℤ, beq_ℤ_iff}
use llm_gateway.Breaker.{
  ProviderBreaker, States, entry, allow, allow_entry, allowed_of, filter_candidates, unless_empty,
}
use llm_gateway.Breaker.Invariant.{entry-insert}
use llm_gateway.Breaker.Probe.{IsProbing, allow-IsProbing}

-- A candidate with the given id stands in the list.
abbrev pub Stands {ℓ} : {A : Type ℓ} → (A → ℤ) → ℤ → List A → Type 0
Stands id_of id [] = ⊥
Stands id_of id (c ∷ cs) = (id_of c ≡ id) ⊎ Stands id_of id cs

-- The window of the provider's breaker is over, and no probe is on its way.
pub record IsDue (now : ℕ) (id : ℤ) (states : States) : Type 0 where
  pub opened : (u : ℕ) × ((entry id states).open_until ≡ some u) × (u ≤ now)
  pub calm : (entry id states).half_open_probe_in_flight ≡ false

module _ {ℓ} {A : Type ℓ} (id_of : A → ℤ) (now : ℕ) where
  -- Asking for others leaves a provider's entry alone.
  entry-allow_ne :
      (k id : ℤ) (states : States)
      → beq_ℤ k id ≡ false
      → entry id (allow now k states).1 ≡ entry id states
  unfolding allow
  entry-allow_ne k id states h =
      rw (entry-insert k id (allow_entry now (entry k states)).1 states, h)

  keeps_IsProbing :
      (id : ℤ) (cs : List A) (states : States)
      → IsProbing (entry id states)
      → IsProbing (entry id (allowed_of id_of now cs states).1)
  unfolding allowed_of
  keeps_IsProbing id [] states v = v
  keeps_IsProbing id (c ∷ cs) states v =
      keeps_IsProbing id cs (allow now (id_of c) states).1
        (allow-IsProbing now (id_of c) id states v)

  due_entry :
      (u : ℕ) (pb : ProviderBreaker)
      → pb.open_until ≡ some u
      → u ≤ now
      → pb.half_open_probe_in_flight ≡ false
      → ((allow_entry now pb).0 ≡ true) × IsProbing (allow_entry now pb).1
  unfolding allow_entry
  due_entry u pb e le h = (ground arith, record { flagged = ground arith; opened = ground arith })

  ask_due :
      (id : ℤ) (states : States)
      → IsDue now id states
      → ((allow now id states).0 ≡ true) × IsProbing (entry id (allow now id states).1)
  unfolding allow
  ask_due id states d =
      let (u, e, le) = d.opened in
      let (asked, probing) = due_entry u (entry id states) e le d.calm in
      (
        asked,
        rw
            (
              entry-insert id id (allow_entry now (entry id states)).1 states,
              (beq_ℤ_iff id id).1 refl,
            )
            probing,
      )

  IsDue-after :
      (k id : ℤ) (states : States)
      → beq_ℤ k id ≡ false
      → IsDue now id states
      → IsDue now id (allow now k states).1
  IsDue-after k id states h d = record {
    opened = rw (entry-allow_ne k id states h) d.opened;
    calm = rw (entry-allow_ne k id states h) d.calm;
  }

  Stands-tail :
      (id : ℤ) (c : A) (cs : List A)
      → beq_ℤ (id_of c) id ≡ false
      → Stands id_of id (c ∷ cs)
      → Stands id_of id cs
  Stands-tail id c cs miss (inl e) = cc (miss, (beq_ℤ_iff (id_of c) id).1 e)
  Stands-tail id c cs miss (inr s) = s

  Stands-if :
      (id : ℤ) (c : A) (b : Bool) (cs : List A)
      → Stands id_of id cs
      → Stands id_of id (if b then c ∷ cs else cs)
  Stands-if id c true cs s = inr s
  Stands-if id c false cs s = s

  -- The filter lets a candidate whose breaker is due through, and takes the place of its probe.
  allowed_of-due :
      (id : ℤ) (cs : List A) (states : States)
      → Stands id_of id cs
      → IsDue now id states
      → Stands id_of id (allowed_of id_of now cs states).0
        × IsProbing (entry id (allowed_of id_of now cs states).1)
  unfolding allowed_of
  allowed_of-due id [] states s d = absurd s
  allowed_of-due id (c ∷ cs) states s d = elim (Bool-cases (beq_ℤ (id_of c) id)) [
    | inl hit ↦
        let same = (beq_ℤ_iff (id_of c) id).0 hit in
        let asked : (allow now (id_of c) states).0 ≡ true = rw same (ask_due id states d).0 in
        let probing : IsProbing (entry id (allow now (id_of c) states).1) =
          rw same (ask_due id states d).1 in
        (rw asked (inl same), keeps_IsProbing id cs (allow now (id_of c) states).1 probing)
    | inr miss ↦
        let (stands, probing) =
          allowed_of-due id cs (allow now (id_of c) states).1 (Stands-tail id c cs miss s)
            (IsDue-after (id_of c) id states miss d) in
        (Stands-if id c _ _ stands, probing)
  ]

  some_of_Stands : (id : ℤ) (xs : List A) → Stands id_of id xs → unless_empty id_of now xs ≡ some xs
  unfolding unless_empty
  some_of_Stands id [] s = absurd s
  some_of_Stands id (x ∷ xs) s = refl

  -- So the filter answers with a list in which a candidate that is due stands, and its probe's place
  -- is taken when the filter returns.
  pub filter_candidates-due :
      (id : ℤ) (cs : List A) (states : States)
      → Stands id_of id cs
      → IsDue now id states
      → (list : List A) × ((filter_candidates id_of now cs states).0 ≡ some list)
        × Stands id_of id list
        × IsProbing (entry id (filter_candidates id_of now cs states).1)
  unfolding filter_candidates
  filter_candidates-due id cs states s d =
      let (stands, probing) = allowed_of-due id cs states s d in
      (_, some_of_Stands id _ stands, stands, probing)
