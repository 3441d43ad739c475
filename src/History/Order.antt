-- ===== src/History/Order.antt =====
-- src/service/responses/history.rs: the order in which the answers are evicted.
use llm_gateway.Prelude.{
  ◌+◌, ◌≡◌, refl, true, false, not, ◌&&◌, ◌||◌, List, [], ◌∷◌, ◌++◌, length, length-append, arith,
}
use llm_gateway.Prelude.Eq.{List_Eq, ℕ_Eq, list_beq, list_beq_iff, list_beq_refl}
use llm_gateway.Prelude.Text.{Text}
use llm_gateway.History.{has, drop_first, touch}

-- No identifier stands twice.
abbrev pub IsDistinct : List Text → Type 0
IsDistinct [] = Unit
IsDistinct (k ∷ ks) = (has k ks ≡ false) × IsDistinct ks

pub has-append : (j : Text) (ks ls : List Text) → has j (ks ++ ls) ≡ (has j ks || has j ls)
has-append j [] ls = refl
has-append j (k ∷ ks) ls = ground (arith, has-append j ks ls)

pub append-IsDistinct :
    (k : Text) (ks : List Text) → IsDistinct ks → has k ks ≡ false → IsDistinct (ks ++ k ∷ [])
append-IsDistinct k [] d h = (refl, tt)
append-IsDistinct k (j ∷ js) d h = (
  ground (arith, has-append j js (k ∷ []), list_beq_iff k j, list_beq_iff j k, d.0),
  append-IsDistinct k js d.1 (ground (arith, h)),
)

has-drop_first :
    (id j : Text) (ks : List Text)
    → IsDistinct ks
    → has j (drop_first id ks) ≡ (has j ks && not (list_beq id j))
unfolding drop_first
has-drop_first id j [] d = refl
has-drop_first id j (k ∷ ks) d =
    ground (
      arith,
      has-drop_first id j ks d.1,
      list_beq_iff k id,
      list_beq_iff k j,
      list_beq_iff id j,
      d.0,
    )

drop_first-IsDistinct : (id : Text) (ks : List Text) → IsDistinct ks → IsDistinct (drop_first id ks)
unfolding drop_first
drop_first-IsDistinct id [] d = tt
drop_first-IsDistinct id (k ∷ ks) d =
    ground (arith, drop_first-IsDistinct id ks d.1, has-drop_first id k ks d.1, d.0)

length-drop_first :
    (id : Text) (ks : List Text) → has id ks ≡ true → length (drop_first id ks) + 1 ≡ length ks
unfolding drop_first
length-drop_first id [] h = ground arith
length-drop_first id (k ∷ ks) h = ground (arith, length-drop_first id ks)

-- Using an answer moves it to the end, and no other one comes or goes.
pub has-touch : (id j : Text) (ks : List Text) → IsDistinct ks → has j (touch id ks) ≡ has j ks
unfolding touch
has-touch id j ks d =
    ground (
      arith,
      has-append j (drop_first id ks) (id ∷ []),
      has-drop_first id j ks d,
      list_beq_iff id j,
    )

pub touch-IsDistinct : (id : Text) (ks : List Text) → IsDistinct ks → IsDistinct (touch id ks)
unfolding touch
touch-IsDistinct id ks d = ground (
  arith,
  append-IsDistinct id (drop_first id ks) (drop_first-IsDistinct id ks d),
  has-drop_first id id ks d,
  list_beq_refl id,
)

pub length-touch : (id : Text) (ks : List Text) → length (touch id ks) ≡ length ks
unfolding touch
length-touch id ks =
    ground (arith, length-drop_first id ks, length-append (drop_first id ks) (id ∷ []))
