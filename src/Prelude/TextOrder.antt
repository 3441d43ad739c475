-- ===== src/Prelude/TextOrder.antt =====
-- The order of texts is a strict total order.
use llm_gateway.Prelude.{◌≡◌, refl, ◌⊎◌, inl, inr, true, false, [], ◌∷◌, arith}
use llm_gateway.Prelude.Text.{Text, ltb_text}

pub ltb_text_irrefl : (s : Text) → ltb_text s s ≡ false
ltb_text_irrefl [] = refl
ltb_text_irrefl (c ∷ s) = ground (arith, ltb_text_irrefl s)

pub ltb_text_trans :
    (r s t : Text) → ltb_text r s ≡ true → ltb_text s t ≡ true → ltb_text r t ≡ true
ltb_text_trans [] [] t h k = cc
ltb_text_trans [] (b ∷ s) [] h k = cc
ltb_text_trans [] (b ∷ s) (c ∷ t) h k = refl
ltb_text_trans (a ∷ r) [] t h k = cc
ltb_text_trans (a ∷ r) (b ∷ s) [] h k = cc
ltb_text_trans (a ∷ r) (b ∷ s) (c ∷ t) h k = ground (arith, ltb_text_trans r s t)

pub ltb_text_total : (s t : Text) → (ltb_text s t ≡ true) ⊎ ((s ≡ t) ⊎ (ltb_text t s ≡ true))
ltb_text_total [] [] = inr (inl refl)
ltb_text_total [] (c ∷ t) = inl refl
ltb_text_total (b ∷ s) [] = inr (inr refl)
ltb_text_total (b ∷ s) (c ∷ t) = ground (arith, ltb_text_total s t)
