-- ===== src/Prelude/Decimal.antt =====
-- The decimal form determines the number, and holds nothing but digits and the sign.
use llm_gateway.Prelude.{
  ℕ, zero, suc, ◌+◌, ◌-◌, ◌*◌, ◌/◌, ◌%◌, ◌≤◌, ◌<◌, ◌≡◌, ◌≢◌, refl, ap, sym, [], ◌∷◌, ◌++◌, arith,
  ltb, All, All-append, Bool-cases, inl, inr,
}
use llm_gateway.Prelude.Int.{ℤ, pos, negsuc}
use llm_gateway.Prelude.Text.{Text, digits_fuel, show_ℕ, show_ℤ}

abbrev value : ℕ → Text → ℕ
value acc [] = acc
value acc (c ∷ cs) = value (acc * 10 + (c - 48)) cs

value-append :
    (acc : ℕ) (xs : Text) (c : ℕ) → value acc (xs ++ c ∷ []) ≡ value acc xs * 10 + (c - 48)
value-append acc [] c = refl
value-append acc (x ∷ xs) c = value-append (acc * 10 + (x - 48)) xs c

value-digits_fuel : (f n : ℕ) → n < f → value 0 (digits_fuel f n) ≡ n
unfolding digits_fuel
value-digits_fuel zero n h = absurd (omega arith)
value-digits_fuel (suc f) n h = elim (Bool-cases (ltb n 10)) [
  | inl small ↦ rw small (omega arith)
  | inr big ↦
      rw (big, value-append 0 (digits_fuel f (n / 10)) (48 + n % 10))
        (ground (arith, value-digits_fuel f (n / 10)))
]

abbrev IsDigit : ℕ → Type 0
IsDigit c = (48 ≤ c) × (c < 58)

digits_fuel-IsDigit : (f n : ℕ) → All IsDigit (digits_fuel f n)
unfolding digits_fuel
digits_fuel-IsDigit zero n = tt
digits_fuel-IsDigit (suc f) n = elim (Bool-cases (ltb n 10)) [
  | inl small ↦ rw small (ground arith)
  | inr big ↦
      rw big (
        All-append IsDigit (digits_fuel f (n / 10)) _ (digits_fuel-IsDigit f (n / 10))
          (omega arith))
]

pub show_ℕ-injective : (m n : ℕ) → show_ℕ m ≡ show_ℕ n → m ≡ n
unfolding show_ℕ
show_ℕ-injective m n h = omega (
  arith,
  ap (value 0) h,
  value-digits_fuel (suc m) m (omega arith),
  value-digits_fuel (suc n) n (omega arith),
)

show_ℕ-IsDigit : (n : ℕ) → All IsDigit (show_ℕ n)
unfolding show_ℕ
show_ℕ-IsDigit n = digits_fuel-IsDigit (suc n) n

minus-ne-digits : (xs ys : Text) → All IsDigit ys → b'-' ∷ xs ≢ ys
minus-ne-digits xs [] d h = cc
minus-ne-digits xs (y ∷ ys) d h = ground arith

tail-eq : (x : ℕ) (xs ys : Text) → x ∷ xs ≡ x ∷ ys → xs ≡ ys
tail-eq x xs ys h = cc

pub show_ℤ-injective : (a b : ℤ) → show_ℤ a ≡ show_ℤ b → a ≡ b
unfolding show_ℤ
show_ℤ-injective (pos m) (pos n) h = ap pos (show_ℕ-injective m n h)
show_ℤ-injective (pos m) (negsuc n) h = absurd (minus-ne-digits _ _ (show_ℕ-IsDigit m) (sym h))
show_ℤ-injective (negsuc m) (pos n) h = absurd (minus-ne-digits _ _ (show_ℕ-IsDigit n) h)
show_ℤ-injective (negsuc m) (negsuc n) h =
    let e : suc m ≡ suc n = show_ℕ-injective (suc m) (suc n) (tail-eq _ _ _ h) in ground arith

-- Free of a given character.
abbrev pub Without : ℕ → Text → Type 0
Without c = All (λ x. x ≢ c)

digits-Without : (c : ℕ) (xs : Text) → 57 < c → All IsDigit xs → Without c xs
digits-Without c [] h d = tt
digits-Without c (x ∷ xs) h d = (omega arith, digits-Without c xs h d.1)

pub show_ℤ-Without : (c : ℕ) (a : ℤ) → 57 < c → Without c (show_ℤ a)
unfolding show_ℤ
show_ℤ-Without c (pos n) h = digits-Without c _ h (show_ℕ-IsDigit n)
show_ℤ-Without c (negsuc n) h = (omega arith, digits-Without c _ h (show_ℕ-IsDigit (suc n)))
