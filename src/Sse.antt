-- ===== src/Sse.antt =====
-- src/service/responses/stream.rs: the incremental parser of an event stream's bytes. A byte is a number
-- below 256.
pub mod Utf8
pub mod Draining
pub mod Chunked
use llm_gateway.Prelude.{
  ℕ, zero, suc, Option, none, some, Bool, true, false, List, [], ◌∷◌, ◌++◌, ltb, length,
  if◌then◌else◌,
}
use llm_gateway.Prelude.Eq.{◌==◌, List_Eq, ℕ_Eq}
use llm_gateway.Prelude.Text.{Text, codes, strip_prefix, split_first, trim, unless_blank}
use llm_gateway.Chat.{join, or_else}
use mathlib.Core.Option
use llm_gateway.Sse.Utf8.{from_utf8_lossy}

abbrev pub Bytes : Type 0
Bytes = List ℕ

pub record SseEvent : Type 0 where
  pub event : Option Text
  pub payload : Text

pub record ChatSseParser : Type 0 where
  pub buf : Bytes

abbrev pub new_parser : ChatSseParser
new_parser = record { buf = [] }

abbrev pub lf_lf : Bytes
lf_lf = codes "\n\n"

abbrev pub crlf_crlf : Bytes
crlf_crlf = b'\r' ∷ b'\n' ∷ b'\r' ∷ b'\n' ∷ []

-- An event with its delimiter, and what follows it.
abbrev with_end : Bytes → Bytes × Bytes → Bytes × Bytes
with_end end (before, after) = (before ++ end, after)

-- `find_event_end` and the `drain` of what stands before it: a blank line anywhere in the buffer, or
-- else one that ends with carriage returns.
unfoldable pub cut_event : Bytes → Option (Bytes × Bytes)
cut_event buf =
    or_else (Option.map (with_end lf_lf) (split_first lf_lf buf))
      (Option.map (with_end crlf_crlf) (split_first crlf_crlf buf))

-- `str::lines`: a line ends with a line feed, and a carriage return before it is no part of it; an
-- empty rest is no line.
abbrev line_start : ℕ → List Text → List Text
line_start c [] = (c ∷ []) ∷ []
line_start c (l ∷ ls) = (c ∷ l) ∷ ls

abbrev starts_line : Text → Bool
starts_line (c ∷ cs) = c == b'\n'
starts_line [] = false

lines : Text → List Text
lines [] = []
lines (c ∷ cs) =
    let rest = lines cs in
    if c == b'\n'
    then [] ∷ rest
    else if c == b'\r'
    then if starts_line cs then rest else line_start c rest
    else line_start c rest

-- What the lines of an event say: its name, the last one, and its data, line by line. The record's
-- field `data` is `payload` here.
note_name : Text → Option Text → Option Text
note_name line later = elim (strip_prefix line (codes "event:")) [
  | none ↦ later
  | some name ↦ or_else later (unless_blank (trim name))
]

read_lines : List Text → Option Text × List Text
unfolding note_name
read_lines [] = (none, [])
read_lines (line ∷ rest) =
    let (name, texts) = read_lines rest in
    elim (strip_prefix line (codes "data:")) [
      | some text ↦ (name, trim text ∷ texts)
      | none ↦ (note_name line name, texts)
    ]

abbrev with_data : Option Text × List Text → Option SseEvent
with_data (name, []) = none
with_data (name, d ∷ ds) = some (record { event = name; payload = join (codes "\n") (d ∷ ds) })

-- An event, unless it has no data.
unfoldable pub read_event : Bytes → Option SseEvent
unfolding from_utf8_lossy lines read_lines
read_event bytes = with_data (read_lines (lines (from_utf8_lossy bytes)))

-- The rest of the buffer, the events, and whether the end mark was met.
abbrev pub Drained : Type 0
Drained = Bytes × List SseEvent × Bool

-- A round of the loop, by what the event says: `later` is what the next rounds give.
pub take_event : Option SseEvent → Bytes → Drained → Drained
take_event none rest later = later
take_event (some e) rest (buf, events, done) =
    if e.payload == codes "[DONE]" then (rest, [], true) else (buf, e ∷ events, done)

-- The loop of `push`; a round takes bytes off, so that the buffer's length is enough rounds.
unfoldable pub drain : ℕ → Bytes → Drained
unfolding cut_event read_event take_event
drain zero buf = (buf, [], false)
drain (suc fuel) buf = elim (cut_event buf) [
  | none ↦ (buf, [], false)
  | some (event, rest) ↦ let later = drain fuel rest in take_event (read_event event) rest later
]

abbrev pub buffer_limit : ℕ
buffer_limit = 1_000_000

-- A buffer that is too long is dropped.
abbrev pub bounded : Bytes → Bytes
bounded buf = if ltb buffer_limit (length buf) then [] else buf

abbrev pub pushed : Drained → ChatSseParser × List SseEvent × Bool
pushed (buf, events, done) = (record { buf = bounded buf }, events, done)

unfoldable pub push : Bytes → ChatSseParser → ChatSseParser × List SseEvent × Bool
unfolding drain
push chunk p = let bytes = p.buf ++ chunk in pushed (drain (length bytes) bytes)
