-- ===== src/Kiss.antt =====
-- gfsk_ax25/kiss.py: KISS and SLIP delimiter framing with escapes.
pub mod Escape
pub mod Split
pub mod RoundTrip
pub mod Kept
use gs_flowgraphs.Base.{
  ℕ, zero, suc, ◌+◌, ◌-◌, Bool, true, false, Option, none, some, List, [], ◌∷◌, ◌++◌, bit_and,
  bit_or, ◌&&◌, not,
}
use gs_flowgraphs.Base.{ltb, leb, ◌==◌, if◌then◌else◌, length, ◌<<<◌, ◌>>>◌}

abbrev pub fend : ℕ
fend = 0xC0

abbrev pub fesc : ℕ
fesc = 0xDB

abbrev pub tfend : ℕ
tfend = 0xDC

abbrev pub tfesc : ℕ
tfesc = 0xDD

unfoldable pub escape : List ℕ → List ℕ
escape [] = []
escape (b ∷ frame) =
    let rest = escape frame in
    if b == fend then fesc ∷ tfend ∷ rest else if b == fesc then fesc ∷ tfesc ∷ rest else b ∷ rest

-- `(payload, valid_escape_count)`; the payload is `none` for an invalid escape in strict mode.
pub record Unescaped : Type 0 where
  pub payload : Option (List ℕ)
  pub escapes : ℕ

abbrev pub rejected : Unescaped
rejected = record { payload = none; escapes = 0 }

-- The loop of `_unescape`, from the octets put out so far and the escapes counted so far.
pub unescape_loop : Bool → List ℕ → ℕ → List ℕ → Unescaped
unescape_loop strict out escapes [] = record { payload = some out; escapes = escapes }
unescape_loop strict out escapes (b ∷ []) =
    if b == fesc && strict
    then rejected
    else record { payload = some (out ++ b ∷ []); escapes = escapes }
unescape_loop strict out escapes (b ∷ nxt ∷ payload) =
    let as_end = unescape_loop strict (out ++ fend ∷ []) (escapes + 1) payload in
    let as_escape = unescape_loop strict (out ++ fesc ∷ []) (escapes + 1) payload in
    let as_next = unescape_loop strict (out ++ nxt ∷ []) escapes payload in
    let plain = unescape_loop strict (out ++ b ∷ []) escapes (nxt ∷ payload) in
    if not (b == fesc)
    then plain
    else if nxt == tfend
    then as_end
    else if nxt == tfesc
    then as_escape
    else if strict
    then rejected
    else as_next

unfoldable pub unescape : List ℕ → Bool → Unescaped
unescape payload strict = unescape_loop strict [] 0 payload

-- ((port & 0x0F) << 4) | (command & 0x0F)
unfoldable pub type_byte : ℕ → ℕ → ℕ
type_byte command port = bit_or (bit_and port 0x0F <<< 4) (bit_and command 0x0F)

unfoldable pub kiss_encode : List ℕ → ℕ → ℕ → List ℕ
kiss_encode frame command port = (fend ∷ type_byte command port ∷ []) ++ (escape frame ++ fend ∷ [])

abbrev pub strict_min_payload : ℕ
strict_min_payload = 8

abbrev pub slip_strict_min_payload : ℕ
slip_strict_min_payload = 16

pub to_first : ℕ → List (List ℕ) → List (List ℕ)
to_first b [] = (b ∷ []) ∷ []
to_first b (chunk ∷ chunks) = (b ∷ chunk) ∷ chunks

-- `stream.split(bytes([FEND]))`: the chunks between the delimiters, one more than there are delimiters.
unfoldable pub split : List ℕ → List (List ℕ)
split [] = [] ∷ []
split (b ∷ stream) =
    let chunks = split stream in if b == fend then [] ∷ chunks else to_first b chunks

-- `chunks[:-1]`
unfoldable pub but_last : List (List ℕ) → List (List ℕ)
but_last [] = []
but_last (chunk ∷ []) = []
but_last (chunk ∷ other ∷ chunks) = chunk ∷ but_last (other ∷ chunks)

-- `chunks[1:-1] if len(chunks) >= 2 else []`
unfoldable pub bracketed : List (List ℕ) → List (List ℕ)
bracketed [] = []
bracketed (chunk ∷ chunks) = but_last chunks

unfoldable pub chunks_of : List ℕ → Bool → List (List ℕ)
chunks_of stream strict = if strict then bracketed (split stream) else split stream

-- `len(set(payload)) < 2`
pub is_constant : List ℕ → Bool
is_constant [] = true
is_constant (b ∷ []) = true
is_constant (b ∷ c ∷ payload) = b == c && is_constant (c ∷ payload)

-- The tests on an unescaped payload, with the shortest length that strict mode lets through.
pub keep_payload : ℕ → Bool → ℕ → Option (List ℕ) → List (List ℕ)
keep_payload minimum strict escapes none = []
keep_payload minimum strict escapes (some payload) =
    if strict && ltb (length payload) minimum
    then []
    else if strict && (escapes == 0 && is_constant payload)
    then []
    else if length payload == 0
    then []
    else payload ∷ []

pub keep : ℕ → Bool → Unescaped → List (List ℕ)
keep minimum strict u = keep_payload minimum strict u.escapes u.payload

pub kiss_chunk : Bool → List ℕ → List (List ℕ)
kiss_chunk strict [] = []
kiss_chunk strict (type ∷ chunk) =
    if strict && not (bit_and type 0x0F == 0)
    then []
    else keep strict_min_payload strict (unescape chunk strict)

-- The loop over the chunks, each of which puts out some results.
pub each {ℓ} : {A : Type ℓ} → (List ℕ → List A) → List (List ℕ) → List A
each f [] = []
each f (chunk ∷ chunks) = f chunk ++ each f chunks

unfoldable pub kiss_decode : List ℕ → Bool → List (List ℕ)
kiss_decode stream strict = each (kiss_chunk strict) (chunks_of stream strict)

pub record Command : Type 0 where
  pub port : ℕ
  pub command : ℕ
  pub payload : List ℕ

pub with_type : ℕ → Option (List ℕ) → List Command
with_type type none = []
with_type type (some payload) =
    record { port = type >>> 4; command = bit_and type 0x0F; payload = payload } ∷ []

pub command_chunk : Bool → List ℕ → List Command
command_chunk strict [] = []
command_chunk strict (type ∷ chunk) = with_type type (unescape chunk strict).payload

unfoldable pub kiss_decode_commands : List ℕ → Bool → List Command
kiss_decode_commands stream strict = each (command_chunk strict) (chunks_of stream strict)

unfoldable pub slip_encode : List ℕ → List ℕ
slip_encode frame = fend ∷ (escape frame ++ fend ∷ [])

pub slip_chunk : Bool → List ℕ → List (List ℕ)
slip_chunk strict [] = []
slip_chunk strict (b ∷ chunk) = keep slip_strict_min_payload strict (unescape (b ∷ chunk) strict)

unfoldable pub slip_decode : List ℕ → Bool → List (List ℕ)
slip_decode stream strict = each (slip_chunk strict) (chunks_of stream strict)
