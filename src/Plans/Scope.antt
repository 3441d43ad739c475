-- ===== src/Plans/Scope.antt =====
-- src/store/plans.rs: which models a plan covers (`ModelScope`), and the check of a pattern on writing.
-- The JSON form of a scope is not modelled: a scope here is what `parse_model_scope` returns.
use llm_gateway.Prelude.{
  ℕ, zero, suc, Option, none, some, Bool, true, false, not, ◌&&◌, ◌||◌, List, [], ◌∷◌, ◌++◌, map,
  any, all, ltb, leb, nat_eq, length, if◌then◌else◌,
}
use llm_gateway.Prelude.Eq.{List_Eq, ℕ_Eq, list_beq}
use llm_gateway.Prelude.Text.{Text, codes, starts_with, strip_suffix, eq_ignore_case, ascii_lower}

pub record ModelScope : Type 0 where
  pub allow : List Text
  deny : List Text

-- The prefix test compares the bytes of the model's head with those of the prefix, ASCII case aside.
unfoldable pub model_matches_pattern : Text → Text → Bool
model_matches_pattern pattern model = elim (strip_suffix b'*' pattern) [
  | some prefix ↦ starts_with (map ascii_lower model) (map ascii_lower prefix)
  | none ↦ eq_ignore_case pattern model
]

is_empty {ℓ} : {A : Type ℓ} → List A → Bool
is_empty [] = true
is_empty (x ∷ xs) = false

unfoldable pub scope_matches : ModelScope → Text → Bool
unfolding is_empty
scope_matches scope model =
    if any (λ p. model_matches_pattern p model) scope.deny
    then false
    else is_empty scope.allow || any (λ p. model_matches_pattern p model) scope.allow

abbrev is_some {ℓ} : {A : Type ℓ} → Option A → Bool
is_some none = false
is_some (some a) = true

abbrev is_wildcard : Text → Bool
is_wildcard p = is_some (strip_suffix b'*' p)

unfoldable specificity : ModelScope → ℕ
specificity scope = if all (λ p. not (is_wildcard p)) (scope.allow ++ scope.deny) then 2 else 1

unfoldable pub scope_specificity : Option ModelScope → ℕ
unfolding specificity
scope_specificity none = 0
scope_specificity (some scope) = specificity scope

abbrev is_alphanumeric : ℕ → Bool
is_alphanumeric b =
    (leb b'0' b && leb b b'9') || (leb b'A' b && leb b b'Z') || (leb b'a' b && leb b b'z')

abbrev is_pattern_char : ℕ → Bool
is_pattern_char b =
    is_alphanumeric b
    || nat_eq b b'*'
    || nat_eq b b'.'
    || nat_eq b b'_'
    || nat_eq b b'+'
    || nat_eq b b':'
    || nat_eq b b'-'
    || nat_eq b b'/'

-- `pattern.matches('*').count()`
stars : Text → ℕ
stars [] = 0
stars (c ∷ cs) = if nat_eq c b'*' then suc (stars cs) else stars cs

pub data PatternError : Type 0 where
  empty_pattern too_long bad_character bare_star inner_star many_stars : PatternError

-- The arms of the `match` on the count.
check_stars : Text → ℕ → Option PatternError
check_stars pattern zero = none
check_stars pattern (suc zero) =
    if is_wildcard pattern && not (list_beq pattern (codes "*"))
    then none
    else if list_beq pattern (codes "*")
    then some bare_star
    else some inner_star
check_stars pattern (suc (suc n)) = some many_stars

-- `none` is `Ok(())`. The length in bytes is that in characters, as the next test admits only ASCII:
-- a text with other characters is refused either way.
unfoldable validate_model_pattern : Text → Option PatternError
unfolding check_stars stars is_empty
validate_model_pattern pattern =
    if is_empty pattern
    then some empty_pattern
    else if ltb 128 (length pattern)
    then some too_long
    else if not (all is_pattern_char pattern)
    then some bad_character
    else check_stars pattern (stars pattern)
