-- ===== src/AnthropicStream/Client.antt =====
-- What a client of the Anthropic interface accepts: the order of the events of a message, and of the
-- blocks in it. It describes the protocol, and not the code.
use llm_gateway.Prelude.{
  ℕ, ◌≡◌, ◌≢◌, sym, subst, Bool, true, false, List, [], ◌∷◌, ◌++◌, ◌||◌, nat_eq, if◌then◌else◌,
}
use llm_gateway.Prelude.Text.{codes}
use llm_gateway.AnthropicStream.{
  ContentBlock, thinking_block, text_block, tool_use, BlockDelta, thinking_delta, text_delta,
  input_json_delta, Event, message_start, content_block_start, content_block_delta,
  content_block_stop, message_delta, message_stop, error,
}

pub data BlockKind : Type 0 where
  thinks says calls : BlockKind

pub data Status : Type 0 where
  unused closed : Status
  opened : BlockKind → Status

pub data Phase : Type 0 where
  waiting streaming stopping ended : Phase

-- The phase, the status of every block, and whether a tool has been called.
pub record Client : Type 0 where
  pub phase : Phase
  pub status : ℕ → Status
  pub called : Bool

abbrev kind_of : ContentBlock → BlockKind
kind_of thinking_block = thinks
kind_of text_block = says
kind_of (tool_use id name) = calls

abbrev kind_of_delta : BlockDelta → BlockKind
kind_of_delta (thinking_delta t) = thinks
kind_of_delta (text_delta t) = says
kind_of_delta (input_json_delta t) = calls

abbrev is_call : ContentBlock → Bool
is_call (tool_use id name) = true
is_call _ = false

abbrev pub set_status : ℕ → Status → (ℕ → Status) → ℕ → Status
set_status i s f j = if nat_eq j i then s else f j

-- No block without a tool call is open.
abbrev pub NoneSpeaks : (ℕ → Status) → Type 0
NoneSpeaks f = (i : ℕ) → (f i ≢ opened thinks) × (f i ≢ opened says)

-- No block is open.
abbrev pub AllClosed : (ℕ → Status) → Type 0
AllClosed f = (i : ℕ) (k : BlockKind) → f i ≢ opened k

-- Whether the client accepts an event: a message starts once; a block starts under a new index while
-- none that speaks is open; a delta goes to an open block of its kind; only an open block stops; the
-- reason comes when all blocks are closed, and is about a tool only if one was called; nothing
-- follows the end.
abbrev Accepts : Client → Event → Type 0
Accepts c (message_start id model u) = c.phase ≡ waiting
Accepts c (content_block_start i b) =
    (c.phase ≡ streaming) × (c.status i ≡ unused) × NoneSpeaks c.status
Accepts c (content_block_delta i d) =
    (c.phase ≡ streaming) × (c.status i ≡ opened (kind_of_delta d))
Accepts c (content_block_stop i) =
    (c.phase ≡ streaming) × ((k : BlockKind) × (c.status i ≡ opened k))
Accepts c (message_delta r u) =
    (c.phase ≡ streaming)
    × AllClosed c.status
    × (r ≡ codes "tool_use" → c.called ≡ true)
    × (r ≡ codes "end_turn" → c.called ≡ false)
Accepts c message_stop = c.phase ≡ stopping
Accepts c (error m) = (c.phase ≢ stopping) × (c.phase ≢ ended)

abbrev receive : Client → Event → Client
receive c (message_start id model u) = record c { phase = streaming }
receive c (content_block_start i b) = record c {
  status = set_status i (opened (kind_of b)) c.status;
  called = c.called || is_call b;
}
receive c (content_block_delta i d) = c
receive c (content_block_stop i) = record c { status = set_status i closed c.status }
receive c (message_delta r u) = record c { phase = stopping }
receive c message_stop = record c { phase = ended }
receive c (error m) = record c { phase = ended }

-- The client accepts the events, one after the other, and they leave it as `d`.
unfoldable pub Takes : Client → List Event → Client → Type 0
Takes c [] d = c ≡ d
Takes c (e ∷ es) d = Accepts c e × Takes (receive c e) es d

abbrev pub fresh_client : Client
fresh_client = record { phase = waiting; status = λ i. unused; called = false }

pub Takes-append :
    (c d e : Client) (es fs : List Event) → Takes c es d → Takes d fs e → Takes c (es ++ fs) e
unfolding Takes
Takes-append c d e [] fs p q = subst (λ x. Takes x fs e) (sym p) q
Takes-append c d e (x ∷ es) fs p q = (p.0, Takes-append (receive c x) d e es fs p.1 q)

-- A block by itself, in a message that goes on.
abbrev pub speaking : (ℕ → Status) → Bool → Client
speaking f b = record { phase = streaming; status = f; called = b }
