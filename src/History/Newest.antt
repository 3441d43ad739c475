-- ===== src/History/Newest.antt =====
-- src/service/responses/history.rs: the order with the latest answer at its end.
use llm_gateway.Prelude.{
  ◌≤◌, ◌<◌, ◌⊎◌, ◌≡◌, refl, sym, ap, ◌∙◌, Option, none, some, true, false, List, [], ◌∷◌, ◌++◌,
  length, length-append, ltb, if◌then◌else◌, arith, Bool-cases, inl, inr,
}
use llm_gateway.Prelude.Eq.{List_Eq, ℕ_Eq, list_beq_refl}
use llm_gateway.Prelude.Text.{Text}
use llm_gateway.History.{max_entries, has, touch, drop_first}
use llm_gateway.History.Order.{has-append, length-touch}

-- The one that makes room for another: the first in order, where there are 512.
abbrev pub oldest : List Text → Option Text
oldest [] = none
oldest (k ∷ ks) = if ltb (length ks) 511 then none else some k

-- The order is full, or has room.
pub oldest-cases :
    (ks : List Text)
    → length ks ≤ max_entries
    → ((length ks < max_entries) × (oldest ks ≡ none))
      ⊎ ((k : Text) × ((rest : List Text) × ((ks ≡ k ∷ rest)
              × ((length rest ≡ 511) × (oldest ks ≡ some k)))))
oldest-cases [] h = ground arith
oldest-cases (k ∷ ks) h = elim (Bool-cases (ltb (length ks) 511)) [
  | inl room ↦ inl (ground arith, rw room refl)
  | inr full ↦ inr (k, (ks, (refl, (ground (arith, h), rw full refl))))
]

-- The order without the first, where it is longer than the capacity.
abbrev pub newest : List Text → List Text
newest [] = []
newest (k ∷ ks) = if ltb max_entries (length (k ∷ ks)) then ks else k ∷ ks

newest-small : (ks : List Text) → length ks ≤ max_entries → newest ks ≡ ks
newest-small [] h = refl
newest-small (k ∷ ks) h = ground (arith, h)

drop_first-new : (id : Text) (ks : List Text) → has id ks ≡ false → drop_first id ks ≡ ks
unfolding drop_first
drop_first-new id [] h = refl
drop_first-new id (k ∷ ks) h = ground (arith, drop_first-new id ks, h)

drop_first-append :
    (id : Text) (ks : List Text) → has id ks ≡ false → drop_first id (ks ++ id ∷ []) ≡ ks
unfolding drop_first
drop_first-append id [] h = ground (arith, list_beq_refl id)
drop_first-append id (k ∷ ks) h = ground (arith, drop_first-append id ks, h)

touch-append :
    (id : Text) (ks : List Text) → has id ks ≡ false → touch id (ks ++ id ∷ []) ≡ ks ++ id ∷ []
unfolding touch
touch-append id ks h =
    ground (arith, has-append id ks (id ∷ []), list_beq_refl id, drop_first-append id ks h)

touch-has :
    (id : Text) (ks : List Text) → has id ks ≡ true → touch id ks ≡ drop_first id ks ++ id ∷ []
unfolding touch
touch-has id ks h = rw h refl

pub order-known :
    (id : Text) (ks : List Text)
    → has id ks ≡ true
    → length ks ≤ max_entries
    → touch id ks ≡ newest (drop_first id ks ++ id ∷ [])
order-known id ks h l =
    touch-has id ks h
    ∙ sym (
        newest-small (drop_first id ks ++ id ∷ [])
          (omega (arith, ap length (touch-has id ks h), length-touch id ks)))

pub order-room :
    (id : Text) (ks : List Text)
    → has id ks ≡ false
    → length ks < max_entries
    → touch id (ks ++ id ∷ []) ≡ newest (drop_first id ks ++ id ∷ [])
order-room id ks h l =
    rw (touch-append id ks h, drop_first-new id ks h)
      (sym (newest-small (ks ++ id ∷ []) (omega (arith, length-append ks (id ∷ [])))))

pub order-full :
    (id k : Text) (ks : List Text)
    → has id (k ∷ ks) ≡ false
    → length ks ≡ 511
    → touch id (ks ++ id ∷ []) ≡ newest (drop_first id (k ∷ ks) ++ id ∷ [])
order-full id k ks h l =
    rw (touch-append id ks (ground (arith, h)), drop_first-new id (k ∷ ks) h)
      (ground (arith, l, length-append ks (id ∷ [])))
