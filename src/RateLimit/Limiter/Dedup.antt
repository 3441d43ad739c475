-- ===== src/RateLimit/Limiter/Dedup.antt =====
-- `dedup_min_limit`: one entry for each bucket, the least of its limits, in the order of the keys.
use mathlib.Core.List.{Perm, Permᴰ}
use mathlib.Core.Logic.{∥∥₁_elim}
use native.Mathlib.Nat.{ℕ_set}
use llm_gateway.Prelude.{
  ◌≡◌, refl, sym, ◌∙◌, inl, inr, true, Option, none, some, List, [], ◌∷◌, arith, if◌then◌else◌,
}
use llm_gateway.Prelude.Eq.{◌==◌, List_Eq, ℕ_Eq, list_beq_iff}
use llm_gateway.Prelude.Int.{ℤ, ltb_ℤ}
use llm_gateway.Prelude.Text.{Text, ltb_text}
use llm_gateway.Prelude.TextOrder.{ltb_text_irrefl, ltb_text_trans, ltb_text_total}
use llm_gateway.Prelude.Map.{lookup}
use llm_gateway.RateLimit.Limiter.{upsert_min, dedup_from, dedup_min_limit}

-- All keys stand above the given one.
abbrev pub Above : Text → List (Text × ℤ) → Type 0
Above key [] = Unit {0}
Above key ((k, e) ∷ m) = (ltb_text key k ≡ true) × Above key m

abbrev pub IsSorted : List (Text × ℤ) → Type 0
IsSorted [] = Unit {0}
IsSorted ((k, e) ∷ m) = Above k m × IsSorted m

Above-trans : (j k : Text) (m : List (Text × ℤ)) → ltb_text j k ≡ true → Above k m → Above j m
Above-trans j k [] h a = tt
Above-trans j k ((i, e) ∷ m) h a = (ltb_text_trans j k i h a.0, Above-trans j k m h a.1)

pub lookup_below : (j : Text) (m : List (Text × ℤ)) → Above j m → lookup j m ≡ none
unfolding lookup
lookup_below j [] a = refl
lookup_below j ((i, e) ∷ m) a =
    ground (arith, list_beq_iff i j, lookup_below j m a.1, ltb_text_irrefl j)

-- The less of two limits, either of which may be missing.
abbrev meet : Option ℤ → Option ℤ → Option ℤ
meet none b = b
meet (some a) none = some a
meet (some a) (some b) = some (if ltb_ℤ b a then b else a)

upsert_min-Above :
    (j key : Text) (limit : ℤ) (m : List (Text × ℤ))
    → ltb_text j key ≡ true
    → Above j m
    → Above j (upsert_min key limit m)
unfolding upsert_min
upsert_min-Above j key limit [] h a = (h, tt)
upsert_min-Above j key limit ((k, e) ∷ m) h a = ground (arith, upsert_min-Above j key limit m h a.1)

upsert_min-IsSorted :
    (key : Text) (limit : ℤ) (m : List (Text × ℤ)) → IsSorted m → IsSorted (upsert_min key limit m)
unfolding upsert_min
upsert_min-IsSorted key limit [] s = (tt, tt)
upsert_min-IsSorted key limit ((k, e) ∷ m) s = ground (
  arith,
  list_beq_iff key k,
  ltb_text_total key k,
  Above-trans key k m,
  upsert_min-Above k key limit m,
  upsert_min-IsSorted key limit m s.1,
)

lookup-upsert_min :
    (key j : Text) (limit : ℤ) (m : List (Text × ℤ))
    → IsSorted m
    → lookup j (upsert_min key limit m)
      ≡ (if key == j then meet (lookup j m) (some limit) else lookup j m)
unfolding upsert_min lookup
lookup-upsert_min key j limit [] s = ground arith
lookup-upsert_min key j limit ((k, e) ∷ m) s = ground (
  arith,
  list_beq_iff key k,
  list_beq_iff key j,
  list_beq_iff k j,
  ltb_text_irrefl key,
  lookup_below key m,
  Above-trans key k m,
  lookup-upsert_min key j limit m s.1,
)

-- What the limit of a bucket is meant to be: the least that a rule states for it.
unfoldable pub with_rule : Text → Text × ℤ → Option ℤ → Option ℤ
with_rule j (key, limit) rest = if key == j then meet (some limit) rest else rest

unfoldable pub min_limit : Text → List (Text × ℤ) → Option ℤ
unfolding with_rule
min_limit j [] = none
min_limit j (rule ∷ rules) = with_rule j rule (min_limit j rules)

meet_assoc : (a b c : Option ℤ) → meet (meet a b) c ≡ meet a (meet b c)
meet_assoc none b c = refl
meet_assoc (some a) none c = refl
meet_assoc (some a) (some b) none = refl
meet_assoc (some a) (some b) (some c) = ground arith

meet_comm : (a b : Option ℤ) → meet a b ≡ meet b a
meet_comm none none = refl
meet_comm none (some b) = refl
meet_comm (some a) none = refl
meet_comm (some a) (some b) = ground arith

dedup_from-IsSorted : (m rules : List (Text × ℤ)) → IsSorted m → IsSorted (dedup_from m rules)
unfolding dedup_from
dedup_from-IsSorted m [] s = s
dedup_from-IsSorted m ((key, limit) ∷ rules) s =
    dedup_from-IsSorted (upsert_min key limit m) rules (upsert_min-IsSorted key limit m s)

lookup-dedup_from :
    (j : Text) (m rules : List (Text × ℤ))
    → IsSorted m
    → lookup j (dedup_from m rules) ≡ meet (lookup j m) (min_limit j rules)
unfolding dedup_from min_limit
lookup-dedup_from j m [] s = meet_comm none (lookup j m)
lookup-dedup_from j m ((key, limit) ∷ rules) s = ground (
  arith,
  lookup-dedup_from j (upsert_min key limit m) rules (upsert_min-IsSorted key limit m s),
  lookup-upsert_min key j limit m s,
  meet_assoc (lookup j m) (some limit) (min_limit j rules),
)

pub dedup_min_limit-IsSorted : (rules : List (Text × ℤ)) → IsSorted (dedup_min_limit rules)
unfolding dedup_min_limit
dedup_min_limit-IsSorted rules = dedup_from-IsSorted [] rules tt

-- The limit kept for a bucket is the least that any of the rules states for it, a bucket without a
-- rule gets no entry, and the entries stand in strictly increasing order of their keys.
pub dedup_min_limit_lem :
    (rules : List (Text × ℤ))
    → ((key : Text) → lookup key (dedup_min_limit rules) ≡ min_limit key rules)
      × IsSorted (dedup_min_limit rules)
unfolding dedup_min_limit lookup
dedup_min_limit_lem rules =
    (λ key. lookup-dedup_from key [] rules tt, dedup_min_limit-IsSorted rules)

-- A key below the head of a sorted table has no entry.
lookup_before :
    (k j : Text) (f : ℤ) (n : List (Text × ℤ))
    → IsSorted ((j, f) ∷ n)
    → ltb_text k j ≡ true
    → lookup k ((j, f) ∷ n) ≡ none
lookup_before k j f n t h = lookup_below k ((j, f) ∷ n) (h, Above-trans k j n h t.0)

lookup_head : (k : Text) (e : ℤ) (m : List (Text × ℤ)) → lookup k ((k, e) ∷ m) ≡ some e
unfolding lookup
lookup_head k e m = ground (arith, list_beq_iff k k)

lookup_tail :
    (key k : Text) (e f : ℤ) (m n : List (Text × ℤ))
    → Above k m
    → Above k n
    → lookup key ((k, e) ∷ m) ≡ lookup key ((k, f) ∷ n)
    → lookup key m ≡ lookup key n
unfolding lookup
lookup_tail key k e f m n a b h =
    ground (arith, list_beq_iff k key, lookup_below k m a, lookup_below k n b)

same_head :
    (k j : Text) (e f : ℤ) (m n : List (Text × ℤ))
    → IsSorted ((k, e) ∷ m)
    → IsSorted ((j, f) ∷ n)
    → ((key : Text) → lookup key ((k, e) ∷ m) ≡ lookup key ((j, f) ∷ n))
    → k ≡ j
same_head k j e f m n s t h = elim (ltb_text_total k j) [
  | inl lt ↦ cc (h k, lookup_head k e m, lookup_before k j f n t lt)
  | inr (inl eq) ↦ eq
  | inr (inr gt) ↦ cc (h j, lookup_head j f n, lookup_before j k e m s gt)
]

-- Two sorted tables with the same entries are the same list.
IsSorted-ext :
    (m n : List (Text × ℤ))
    → IsSorted m
    → IsSorted n
    → ((key : Text) → lookup key m ≡ lookup key n)
    → m ≡ n
IsSorted-ext [] [] s t h = refl
IsSorted-ext [] ((k, e) ∷ n) s t h = unfold lookup in ground (arith, h k, list_beq_iff k k)
IsSorted-ext ((k, e) ∷ m) [] s t h = unfold lookup in ground (arith, h k, list_beq_iff k k)
IsSorted-ext ((k, e) ∷ m) ((j, f) ∷ n) s t h =
    let p = same_head k j e f m n s t h in
    let b : Above k n = rw (← p) at (t.0) in
    let h' : (key : Text) → lookup key ((k, e) ∷ m) ≡ lookup key ((k, f) ∷ n) = rw (← p) at h in
    let tails = IsSorted-ext m n s.1 t.1 (λ key. lookup_tail key k e f m n s.0 b (h' key)) in
    cc (p, tails, h' k, lookup_head k e m, lookup_head k f n)

min_limit_swap :
    (j : Text) (a b : Text × ℤ) (rest : Option ℤ)
    → with_rule j a (with_rule j b rest) ≡ with_rule j b (with_rule j a rest)
unfolding with_rule
min_limit_swap j (k, x) (i, y) none = ground (arith, meet_comm (some x) (some y))
min_limit_swap j (k, x) (i, y) (some z) = ground arith

min_limit-Permᴰ :
    {xs ys : List (Text × ℤ)} (j : Text) → Permᴰ xs ys → min_limit j xs ≡ min_limit j ys
unfolding min_limit
min_limit-Permᴰ j Permᴰ.nil = refl
min_limit-Permᴰ j (Permᴰ.cons e p) = cc (e, min_limit-Permᴰ j p)
min_limit-Permᴰ j (Permᴰ.swap {a = a} {b = b} {l = l} e f) =
    min_limit_swap j a b (min_limit j l) ∙ cc (e, f)
min_limit-Permᴰ j (Permᴰ.trans p q) = min_limit-Permᴰ j p ∙ min_limit-Permᴰ j q

table-set : IsSet (List (Text × ℤ))
table-set = hlevel ℕ_set

-- The order in which the rules come from the database does not change the limits applied.
pub dedup_min_limit-perm :
    (xs ys : List (Text × ℤ)) → Perm xs ys → dedup_min_limit xs ≡ dedup_min_limit ys
dedup_min_limit-perm xs ys p = ∥∥₁_elim p (table-set _ _) λ d.
    IsSorted-ext (dedup_min_limit xs) (dedup_min_limit ys) (dedup_min_limit-IsSorted xs)
      (dedup_min_limit-IsSorted ys)
      λ key.
        (dedup_min_limit_lem xs).0 key
        ∙ min_limit-Permᴰ key d
        ∙ sym ((dedup_min_limit_lem ys).0 key)
