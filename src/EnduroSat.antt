-- ===== src/EnduroSat.antt =====
-- gfsk_ax25/endurosat_link.py, the framing: preamble, sync octet, length, payload and check. The
-- regular expression for the sync is read eight bits at a time: a block is one of the two preamble
-- octets or the sync octet, never both, so that matching it needs no backtracking.
pub mod Packet
pub mod RoundTrip
use gs_flowgraphs.Base.{
  ℕ, zero, suc, ◌+◌, ◌-◌, ◌*◌, ◌/◌, ◌≡◌, Bool, true, false, Option, some, none, List, [], ◌∷◌, ◌++◌,
  ◌&&◌, not, ◌||◌, bit_and,
}
use gs_flowgraphs.Base.{
  Result, ok, value_error, ◌>>=◌, ltb, leb, ◌==◌, if◌then◌else◌, length, take, drop, replicate,
  get_or,
}
use gs_flowgraphs.Octets.{byte_of, unpack_msb, pack_msb}
use gs_flowgraphs.Crc.Fcs.{same_bytes}
use gs_flowgraphs.Crc.Ccitt.{crc16_ccitt_false}

abbrev pub preamble_byte : ℕ
preamble_byte = 0xAA

abbrev pub sync_byte : ℕ
sync_byte = 0x7E

abbrev pub max_payload : ℕ
max_payload = 128

pub crc16 : List ℕ → ℕ
crc16 body = crc16_ccitt_false body 0xFFFF 0x1021

-- `struct.pack(">H", value)`, of a value below 65536.
pub pack_big : ℕ → List ℕ
pack_big value = (value / 256) ∷ bit_and value 0xFF ∷ []

-- The length octet and the payload.
pub body_of : List ℕ → List ℕ
body_of payload = length payload ∷ payload

unfoldable pub frame_bytes : List ℕ → ℕ → Result (List ℕ)
frame_bytes payload preamble_len =
    if ltb max_payload (length payload)
    then value_error
    else ok (
        (replicate preamble_len preamble_byte ++ sync_byte ∷ [])
        ++ (body_of payload ++ pack_big (crc16 (body_of payload))))

unfoldable pub frame_bits : List ℕ → ℕ → Result (List Bool)
frame_bits payload preamble_len = do raw ← frame_bytes payload preamble_len; ok (unpack_msb raw)

-- `10101010` or `01010101`.
pub is_preamble : ℕ → Bool
is_preamble octet = octet == 0xAA || octet == 0x55

-- The end of a match of the sync expression, `n` bits of which are read; `seen` tells whether they
-- hold a block of preamble.
pub match_sync : Bool → ℕ → List Bool → Option ℕ
match_sync seen n (b7 ∷ b6 ∷ b5 ∷ b4 ∷ b3 ∷ b2 ∷ b1 ∷ b0 ∷ rest) =
    let octet = byte_of b0 b1 b2 b3 b4 b5 b6 b7 in
    let more = match_sync true (n + 8) rest in
    if is_preamble octet then more else if seen && octet == sync_byte then some (n + 8) else none
match_sync seen n _ = none

-- `_SYNC_RE.finditer`: the ends of the matches, the next one searched from the end of the last.
-- `skip` positions are left of the last match, and `i` is the index of the head.
pub after_match : Option ℕ → ℕ
after_match none = 0
after_match (some n) = n - 1

pub end_of : ℕ → Option ℕ → List ℕ → List ℕ
end_of i none ends = ends
end_of i (some n) ends = (i + n) ∷ ends

pub ends_loop : ℕ → ℕ → List Bool → List ℕ
ends_loop skip i [] = []
ends_loop zero i (b ∷ bits) =
    let found = match_sync false 0 (b ∷ bits) in
    end_of i found (ends_loop (after_match found) (i + 1) bits)
ends_loop (suc skip) i (b ∷ bits) = ends_loop skip (i + 1) bits

-- What follows one sync: nothing, or one payload.
pub read_packet : List ℕ → List (List ℕ)
read_packet by =
    let size = get_or by 0 0 in
    let body = take (1 + size) by in
    if ltb (length by) 3
    then []
    else if not (leb 1 size && leb size max_payload) || ltb (length by) (3 + size)
    then []
    else if same_bytes (take 2 (drop (1 + size) by)) (pack_big (crc16 body))
    then drop 1 body ∷ []
    else []

pub packets : List Bool → List ℕ → List (List ℕ)
packets bits [] = []
packets bits (e ∷ ends) = read_packet (pack_msb (drop e bits)) ++ packets bits ends

pub deframe : List Bool → List (List ℕ)
deframe bits = packets bits (ends_loop 0 0 bits)
