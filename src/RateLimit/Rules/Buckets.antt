-- ===== src/RateLimit/Rules/Buckets.antt =====
-- The text of a bucket's key says exactly which requests share the bucket.
use mathlib.Core.List.{append-nil, append_assoc}
use llm_gateway.Prelude.{
  ◌≡◌, refl, sym, ◌∙◌, ap, inl, inr, ◌⊎◌, Option, none, some, [], ◌∷◌, ◌++◌, arith, All-append,
  subst, Bool-cases, Option-cases,
}
use llm_gateway.Prelude.Eq.{List_Eq, ℕ_Eq, list_beq, list_beq→eq}
use llm_gateway.Prelude.Int.{ℤ, ℤ_Eq, beq_ℤ_iff}
use llm_gateway.Prelude.Text.{Text, codes, show_ℤ}
use llm_gateway.Prelude.Decimal.{Without, show_ℤ-injective, show_ℤ-Without}
use llm_gateway.RateLimit.Rules.{
  RateRule, Caller, user_bucket, key_bucket, scope_bucket, model_bucket, bucket_of,
}

data Subject : Type 0 where
  everyone : Subject
  user : ℤ → Subject
  api_key : ℤ → Subject

name : Subject → Text
name everyone = codes "global"
name (user uid) = codes "user:" ++ show_ℤ uid
name (api_key kid) = codes "key:" ++ show_ℤ kid

suffix : Option Text → Text
suffix none = []
suffix (some model) = codes "|model:" ++ model

-- A rule that counts the requests of the subject, for the caller who is that subject.
abbrev IsFor : RateRule → Caller → Subject → Type 0
IsFor r c everyone = r.scope ≡ codes "global"
IsFor r c (user uid) =
    (r.scope ≡ codes "user")
    × (c.user_id ≡ some uid)
    × ((r.scope_id ≡ none) ⊎ (r.scope_id ≡ some uid))
IsFor r c (api_key kid) =
    (r.scope ≡ codes "api_key") × (c.key_id ≡ some kid) × (r.scope_id ≡ some kid)

user_bucket-eq-some :
    (sid uid : Option ℤ) (p : Text)
    → user_bucket sid uid ≡ some p
    → (u : ℤ) × (p ≡ name (user u)) × (uid ≡ some u) × ((sid ≡ none) ⊎ (sid ≡ some u))
unfolding user_bucket name
user_bucket-eq-some sid none p h = cc
user_bucket-eq-some none (some u) p h = (u, cc, refl, inl refl)
user_bucket-eq-some (some s) (some u) p h =
    (u, ground arith, refl, inr (ground (arith, beq_ℤ_iff u s)))

key_bucket-eq-some :
    (sid kid : Option ℤ) (p : Text)
    → key_bucket sid kid ≡ some p
    → (k : ℤ) × (p ≡ name (api_key k)) × (kid ≡ some k) × (sid ≡ some k)
unfolding key_bucket name
key_bucket-eq-some sid none p h = cc
key_bucket-eq-some none (some k) p h = ground arith
key_bucket-eq-some (some s) (some k) p h = (k, ground arith, refl, ground (arith, beq_ℤ_iff k s))

scope_bucket-eq-some :
    (r : RateRule) (c : Caller) (p : Text)
    → scope_bucket r c ≡ some p
    → (x : Subject) × (p ≡ name x) × IsFor r c x
unfolding scope_bucket
scope_bucket-eq-some r c p h = elim (Bool-cases (list_beq r.scope (codes "global"))) [
  | inl g ↦ (everyone, unfold name in ground arith, list_beq→eq _ _ g)
  | inr ng ↦ elim (Bool-cases (list_beq r.scope (codes "user"))) [
    | inl u ↦
        let (uid, e, at, sid) = user_bucket-eq-some r.scope_id c.user_id p (ground arith) in
        (user uid, e, (list_beq→eq _ _ u, at, sid))
    | inr nu ↦ elim (Bool-cases (list_beq r.scope (codes "api_key"))) [
      | inl k ↦
          let (kid, e, at, sid) = key_bucket-eq-some r.scope_id c.key_id p (ground arith) in
          (api_key kid, e, (list_beq→eq _ _ k, at, sid))
      | inr nk ↦ ground arith
    ]
  ]
]

model_bucket-eq-some :
    (o : Option Text) (m p key : Text)
    → model_bucket o m p ≡ some key
    → (key ≡ p ++ suffix o) × ((o ≡ none) ⊎ (o ≡ some m))
unfolding model_bucket suffix
model_bucket-eq-some none m p key h = (rw append-nil cc, inl refl)
model_bucket-eq-some (some o) m p key h = elim (Bool-cases (list_beq o m)) [
  | inl hit ↦ (
    rw (← append_assoc p (codes "|model:") o) (ground arith),
    inr (ap some (list_beq→eq o m hit)),
  )
  | inr miss ↦ ground arith
]

-- What a match tells: whom the rule counts, that its model is the request's, and the key.
bucket_of-eq-some :
    (r : RateRule) (c : Caller) (m key : Text)
    → bucket_of r c m ≡ some key
    → (x : Subject) × (key ≡ name x ++ suffix r.model)
      × IsFor r c x
      × ((r.model ≡ none) ⊎ (r.model ≡ some m))
bucket_of-eq-some r c m key h = elim (Option-cases (scope_bucket r c)) [
  | inl nobody ↦ unfold bucket_of in ground arith
  | inr (p, e) ↦
      let (x, is_name, is_for) = scope_bucket-eq-some r c p e in
      let (with_suffix, right_model) =
        model_bucket-eq-some r.model m p key (unfold bucket_of in ground arith) in
      (x, rw (← is_name) with_suffix, is_for, right_model)
]

abbrev Barred : Text → Type 0
Barred [] = Unit {0}
Barred (c ∷ cs) = c ≡ b'|'

suffix-Barred : (o : Option Text) → Barred (suffix o)
unfolding suffix
suffix-Barred none = tt
suffix-Barred (some m) = refl

split_at_bar :
    (p q s t : Text)
    → Without b'|' p
    → Without b'|' q
    → Barred s
    → Barred t
    → p ++ s ≡ q ++ t
    → (p ≡ q) × (s ≡ t)
split_at_bar [] [] s t wp wq bs bt e = (refl, e)
split_at_bar [] (y ∷ q) [] t wp wq bs bt e = cc
split_at_bar [] (y ∷ q) (x ∷ s) t wp wq bs bt e = ground arith
split_at_bar (x ∷ p) [] s [] wp wq bs bt e = cc
split_at_bar (x ∷ p) [] s (y ∷ t) wp wq bs bt e = ground arith
split_at_bar (x ∷ p) (y ∷ q) s t wp wq bs bt e =
    let (e', tails) = split_at_bar p q s t wp.1 wq.1 bs bt (cc) in (cc, tails)

name-Without : (x : Subject) → Without b'|' (name x)
unfolding name
name-Without everyone = omega arith
name-Without (user uid) =
    All-append _ (codes "user:") _ (omega arith) (show_ℤ-Without b'|' uid (omega arith))
name-Without (api_key kid) =
    All-append _ (codes "key:") _ (omega arith) (show_ℤ-Without b'|' kid (omega arith))

name-injective : (x y : Subject) → name x ≡ name y → x ≡ y
unfolding name
name-injective everyone everyone h = refl
name-injective everyone (user v) h = ground arith
name-injective everyone (api_key v) h = ground arith
name-injective (user u) everyone h = ground arith
name-injective (user u) (user v) h = ap user (show_ℤ-injective u v (cc))
name-injective (user u) (api_key v) h = ground arith
name-injective (api_key u) everyone h = ground arith
name-injective (api_key u) (user v) h = ground arith
name-injective (api_key u) (api_key v) h = ap api_key (show_ℤ-injective u v (cc))

suffix-injective : (o p : Option Text) → suffix o ≡ suffix p → o ≡ p
unfolding suffix
suffix-injective none none h = refl
suffix-injective none (some p) h = cc
suffix-injective (some o) none h = cc
suffix-injective (some o) (some p) h = cc

-- The callers agree in what the rule's scope counts by: the user, or the key.
abbrev pub SameSubject : RateRule → Caller → Caller → Type 0
SameSubject r c c' =
    (r.scope ≡ codes "user" → c.user_id ≡ c'.user_id)
    × (r.scope ≡ codes "api_key" → c.key_id ≡ c'.key_id)

same_subject :
    (r r' : RateRule) (c c' : Caller) (x : Subject)
    → IsFor r c x
    → IsFor r' c' x
    → (r.scope ≡ r'.scope) × SameSubject r c c'
same_subject r r' c c' everyone f g = (f ∙ sym g, (λ h. ground arith, λ h. ground arith))
same_subject r r' c c' (user u) f g = (cc, (λ h. cc, λ h. ground arith))
same_subject r r' c c' (api_key k) f g = (cc, (λ h. ground arith, λ h. cc))

-- Two matches that count in the same bucket come from rules with the same scope and the same model,
-- for the same user if the scope is "user" and for the same key if it is "api_key".
pub bucket_of-injective :
    (r r' : RateRule) (c c' : Caller) (m m' key : Text)
    → bucket_of r c m ≡ some key
    → bucket_of r' c' m' ≡ some key
    → (r.scope ≡ r'.scope) × (r.model ≡ r'.model) × SameSubject r c c'
bucket_of-injective r r' c c' m m' key h h' =
    let (x, e, f, _) = bucket_of-eq-some r c m key h in
    let (y, e', f', _) = bucket_of-eq-some r' c' m' key h' in
    let (names, suffixes) =
      split_at_bar (name x) (name y) (suffix r.model) (suffix r'.model) (name-Without x)
        (name-Without y) (suffix-Barred r.model) (suffix-Barred r'.model) (sym e ∙ e') in
    let g : IsFor r' c' x = subst (IsFor r' c') (sym (name-injective x y names)) f' in
    let (scopes, subjects) = same_subject r r' c c' x f g in
    (scopes, suffix-injective r.model r'.model suffixes, subjects)

-- A rule counts a request only if it limits no model or exactly the request's, and: a "user" rule
-- only the requests of a known user, who is the one that it names if it names one; an "api_key" rule
-- only the requests with the key that it names.
bucket_of_only :
    (r : RateRule) (c : Caller) (m key : Text)
    → bucket_of r c m ≡ some key
    → ((r.model ≡ none) ⊎ (r.model ≡ some m))
      × (r.scope ≡ codes "user"
          → (u : ℤ) × (c.user_id ≡ some u) × ((r.scope_id ≡ none) ⊎ (r.scope_id ≡ some u)))
      × (r.scope ≡ codes "api_key" → (k : ℤ) × (c.key_id ≡ some k) × (r.scope_id ≡ some k))
bucket_of_only r c m key h =
    let (x, _, f, right_model) = bucket_of-eq-some r c m key h in
    (right_model, user_only x f, key_only x f)
  where
    user_only :
        (x : Subject)
        → IsFor r c x
        → r.scope ≡ codes "user"
        → (u : ℤ) × (c.user_id ≡ some u) × ((r.scope_id ≡ none) ⊎ (r.scope_id ≡ some u))
    user_only everyone f s = ground arith
    user_only (user u) f s = (u, f.1, f.2)
    user_only (api_key k) f s = ground arith

    key_only :
        (x : Subject)
        → IsFor r c x
        → r.scope ≡ codes "api_key"
        → (k : ℤ) × (c.key_id ≡ some k) × (r.scope_id ≡ some k)
    key_only everyone f s = ground arith
    key_only (user u) f s = ground arith
    key_only (api_key k) f s = (k, f.1, f.2)
