-- ===== src/Sse/Utf8.antt =====
-- `String::from_utf8_lossy`, which src/service/responses/stream.rs reads an event by: every longest
-- beginning of a character that goes no further is one replacement character.
use llm_gateway.Prelude.{
  ℕ, zero, suc, ◌+◌, ◌-◌, ◌*◌, Option, none, some, Bool, List, [], ◌∷◌, ◌++◌, ltb, leb, ◌&&◌,
  if◌then◌else◌,
}
use llm_gateway.Prelude.Text.{Text}

-- What may follow a beginning of a character: how many bytes besides the next one are missing, the
-- bounds of the next one, and the bits read.
pub record Partial : Type 0 where
  pub missing : ℕ
  pub low : ℕ
  pub high : ℕ
  bits : ℕ

abbrev replacement : ℕ
replacement = 0xfffd

-- A first byte: a character of its own, the beginning of a longer one, or nothing of the kind.
pub data First : Type 0 where
  single : First
  begins : Partial → First
  bad : First

abbrev begin : ℕ → ℕ → ℕ → ℕ → First
begin missing low high bits =
    begins (record { missing = missing; low = low; high = high; bits = bits })

abbrev within : ℕ → ℕ → ℕ → Bool
within low high b = leb low b && leb b high

first_byte : ℕ → First
first_byte b =
    if ltb b 0x80
    then single
    else if within 0xc2 0xdf b
    then begin 0 0x80 0xbf (b - 0xc0)
    else if within 0xe0 0xe0 b
    then begin 1 0xa0 0xbf (b - 0xe0)
    else if within 0xed 0xed b
    then begin 1 0x80 0x9f (b - 0xe0)
    else if within 0xe1 0xef b
    then begin 1 0x80 0xbf (b - 0xe0)
    else if within 0xf0 0xf0 b
    then begin 2 0x90 0xbf (b - 0xf0)
    else if within 0xf1 0xf3 b
    then begin 2 0x80 0xbf (b - 0xf0)
    else if within 0xf4 0xf4 b
    then begin 2 0x80 0x8f (b - 0xf0)
    else bad

-- The byte starts a character.
abbrev started : ℕ → First → Text × Option Partial
started b single = (b ∷ [], none)
started b (begins p) = ([], some p)
started b bad = (replacement ∷ [], none)

-- The byte goes on with one.
abbrev continued : ℕ → ℕ → ℕ → Text × Option Partial
continued b zero bits = ((bits * 64 + (b - 0x80)) ∷ [], none)
continued b (suc missing) bits = (
  [],
  some (record { missing = missing; low = 0x80; high = 0xbf; bits = bits * 64 + (b - 0x80) }),
)

next_byte : ℕ → Option Partial → Text × Option Partial
unfolding first_byte
next_byte b none = started b (first_byte b)
next_byte b (some p) =
    if within p.low p.high b
    then continued b p.missing p.bits
    else let (text, state) = started b (first_byte b) in (replacement ∷ text, state)

decode : Option Partial → List ℕ → Text
unfolding next_byte
decode none [] = []
decode (some p) [] = replacement ∷ []
decode state (b ∷ bs) = let (text, state') = next_byte b state in text ++ decode state' bs

unfoldable pub from_utf8_lossy : List ℕ → Text
unfolding decode
from_utf8_lossy bytes = decode none bytes
