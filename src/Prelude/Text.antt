-- ===== src/Prelude/Text.antt =====
-- Text as the list of its characters (Unicode scalar values), with the operations of Rust's `str`
-- that the program calls, and the decimal form that `format!` gives an integer. UTF-8 keeps the
-- order, the prefixes and the occurrences of texts, so these agree with the operations on bytes.
use Prim.Native.Char.{code}
use mathlib.Core.Option
use llm_gateway.Prelude.{
  ℕ, zero, suc, ◌+◌, ◌-◌, ◌/◌, ◌%◌, String, Bool, true, false, ◌&&◌, ◌||◌, Option, none, some, List,
  [], ◌∷◌, ◌++◌, ltb, leb, nat_eq, length, if◌then◌else◌, map, any,
}
use llm_gateway.Prelude.Eq.{list_beq, ℕ_Eq}
use llm_gateway.Prelude.Int.{ℤ, pos, negsuc}

abbrev pub Text : Type 0
Text = List ℕ

-- A literal's characters.
abbrev pub codes : String → Text
codes String.[] = []
codes (String.◌∷◌ c s) = code c ∷ codes s

-- `s.starts_with(p)`
abbrev pub starts_with : Text → Text → Bool
starts_with s [] = true
starts_with [] (p ∷ ps) = false
starts_with (c ∷ cs) (p ∷ ps) = nat_eq c p && starts_with cs ps

-- `s.strip_prefix(p)`
abbrev pub strip_prefix : Text → Text → Option Text
strip_prefix s [] = some s
strip_prefix [] (p ∷ ps) = none
strip_prefix (c ∷ cs) (p ∷ ps) = let rest = strip_prefix cs ps in if nat_eq c p then rest else none

-- `s.find(p)` for a pattern that is not empty, with what stands before and after the place found.
unfoldable pub split_first : Text → Text → Option (Text × Text)
split_first p [] = none
split_first p (c ∷ cs) = elim (strip_prefix (c ∷ cs) p) [
  | some after ↦ some ([], after)
  | none ↦ Option.map (λ r. (c ∷ r.0, r.1)) (split_first p cs)
]

-- `u8::to_ascii_lowercase`
abbrev pub ascii_lower : ℕ → ℕ
ascii_lower c = if leb b'A' c && leb c b'Z' then c + 32 else c

-- `s.contains(p)`
abbrev pub contains : Text → Text → Bool
contains [] p = starts_with [] p
contains (c ∷ cs) p = starts_with (c ∷ cs) p || contains cs p

-- `s.split(c)`: one piece more than there are separators.
first_piece : ℕ → List Text → List Text
first_piece c [] = (c ∷ []) ∷ []
first_piece c (p ∷ ps) = (c ∷ p) ∷ ps

unfoldable pub split : ℕ → Text → List Text
unfolding first_piece
split c [] = [] ∷ []
split c (x ∷ xs) = let rest = split c xs in if nat_eq x c then [] ∷ rest else first_piece x rest

-- `s.split_once(c)`
unfoldable pub split_once : ℕ → Text → Option (Text × Text)
split_once c [] = none
split_once c (x ∷ xs) =
    let rest = split_once c xs in
    if nat_eq x c then some ([], xs) else Option.map (λ r. (x ∷ r.0, r.1)) rest

-- `s.rsplit(c).next()`, which is what stands behind the last separator.
unfoldable pub last_piece : ℕ → Text → Text
last_piece c [] = []
last_piece c (x ∷ xs) =
    let rest = last_piece c xs in if any (λ y. nat_eq y c) (x ∷ xs) then rest else x ∷ xs

-- `s.to_ascii_lowercase()`
abbrev pub ascii_lowercase : Text → Text
ascii_lowercase s = map ascii_lower s

-- `s.strip_suffix(c)` for one character.
abbrev pub strip_suffix : ℕ → Text → Option Text
strip_suffix c [] = none
strip_suffix c (x ∷ []) = if nat_eq x c then some [] else none
strip_suffix c (x ∷ y ∷ ys) = Option.map (λ r. x ∷ r) (strip_suffix c (y ∷ ys))

-- `s.strip_suffix(suffix)` for a text.
abbrev pub strip_suffix_text : Text → Text → Option Text
strip_suffix_text suffix [] = if list_beq {A = ℕ} [] suffix then some [] else none
strip_suffix_text suffix (c ∷ cs) =
    let rest = strip_suffix_text suffix cs in
    if list_beq (c ∷ cs) suffix then some [] else Option.map (λ r. c ∷ r) rest

-- `a.eq_ignore_ascii_case(b)`
abbrev pub eq_ignore_case : Text → Text → Bool
eq_ignore_case a b = list_beq (map ascii_lower a) (map ascii_lower b)

-- One pass of `s.replace(pat, by)`; `skip` counts the characters of a match that are still to pass.
replace_from : Text → Text → ℕ → Text → Text
replace_from pat by skip [] = []
replace_from pat by (suc skip) (c ∷ cs) = replace_from pat by skip cs
replace_from pat by zero (c ∷ cs) = elim (starts_with (c ∷ cs) pat) [
  | true ↦ by ++ replace_from pat by (length pat - 1) cs
  | false ↦ c ∷ replace_from pat by zero cs
]

-- `s.replace(pat, by)` for a pattern that is not empty.
unfoldable pub replace : Text → Text → Text → Text
unfolding replace_from
replace s pat by = replace_from pat by zero s

-- The order of `String`: by characters, a proper prefix first.
abbrev pub ltb_text : Text → Text → Bool
ltb_text [] [] = false
ltb_text [] (y ∷ ys) = true
ltb_text (x ∷ xs) [] = false
ltb_text (x ∷ xs) (y ∷ ys) = ltb x y || (nat_eq x y && ltb_text xs ys)

-- `char::is_whitespace`
abbrev pub is_whitespace : ℕ → Bool
is_whitespace c =
    (leb 9 c && leb c 13)
    || nat_eq c 32
    || nat_eq c 0x85
    || nat_eq c 0xa0
    || nat_eq c 0x1680
    || (leb 0x2000 c && leb c 0x200a)
    || nat_eq c 0x2028
    || nat_eq c 0x2029
    || nat_eq c 0x202f
    || nat_eq c 0x205f
    || nat_eq c 0x3000

-- `trim_start`
abbrev pub trim_start : Text → Text
trim_start [] = []
trim_start (c ∷ cs) = let rest = trim_start cs in if is_whitespace c then rest else c ∷ cs

-- A blank is dropped where nothing stands behind it.
abbrev drop_blank : ℕ → Text → Text
drop_blank c [] = if is_whitespace c then [] else c ∷ []
drop_blank c (d ∷ ds) = c ∷ d ∷ ds

-- `trim_end`
abbrev trim_end : Text → Text
trim_end [] = []
trim_end (c ∷ cs) = drop_blank c (trim_end cs)

-- `trim`
abbrev pub trim : Text → Text
trim s = trim_end (trim_start s)

-- `filter(|s| !s.is_empty())`
abbrev pub unless_blank : Text → Option Text
unless_blank [] = none
unless_blank (c ∷ cs) = some (c ∷ cs)

-- The decimal digits of a number; `n` rounds are enough for `n < 10 ^ n`.
unfoldable pub digits_fuel : ℕ → ℕ → Text
digits_fuel zero n = []
digits_fuel (suc f) n =
    let rest = digits_fuel f (n / 10) in
    if ltb n 10 then (48 + n) ∷ [] else rest ++ (48 + n % 10) ∷ []

unfoldable pub show_ℕ : ℕ → Text
unfolding digits_fuel
show_ℕ n = digits_fuel (suc n) n

unfoldable pub show_ℤ : ℤ → Text
unfolding show_ℕ
show_ℤ (pos n) = show_ℕ n
show_ℤ (negsuc n) = b'-' ∷ show_ℕ (suc n)

-- `s.len()`: the bytes of the UTF-8 form.
abbrev pub utf8_len : ℕ → ℕ
utf8_len c = if ltb c 0x80 then 1 else if ltb c 0x800 then 2 else if ltb c 0x10000 then 3 else 4

abbrev pub byte_len : Text → ℕ
byte_len [] = 0
byte_len (c ∷ cs) = utf8_len c + byte_len cs
