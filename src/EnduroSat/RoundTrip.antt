-- ===== src/EnduroSat/RoundTrip.antt =====
-- A frame of endurosat_link.py comes back, first of what the deframer gives.
use gs_flowgraphs.Base.{
  ℕ, zero, suc, ◌+◌, ◌-◌, ◌*◌, ◌/◌, ◌^◌, ◌≤◌, ◌<◌, ◌≡◌, refl, ap, ap₂, ◌∙◌, Bool, true, false, some,
  none, List, [], ◌∷◌, ◌++◌, ◌&&◌, arith, append_assoc, odd,
}
use gs_flowgraphs.Base.{
  ok, ltb, ◌==◌, if◌then◌else◌, length, drop, replicate, length-append, length-replicate,
  drop-append, and_mask, All-append,
}
use gs_flowgraphs.Octets.{IsByte, IsBytes, byte_of-byte_bits, unpack_msb, pack_msb}
use gs_flowgraphs.Crc.Catalog.{post_init}
use gs_flowgraphs.Crc.Catalog.RoundTrip.{compute-lt}
use gs_flowgraphs.Crc.Ccitt.Bitwise.{as_spec, crc16_ccitt_false-eq-compute}
use gs_flowgraphs.EnduroSat.{
  preamble_byte, sync_byte, max_payload, crc16, pack_big, body_of, frame_bytes, frame_bits,
  is_preamble, match_sync, after_match, end_of, ends_loop, read_packet, packets, deframe,
}
use gs_flowgraphs.EnduroSat.Packet.{check_of, read_packet-append}

-- One octet of the stream is one block of the expression.
match_sync-octet :
    (seen : Bool) (n b : ℕ) (octets : List ℕ) (tail : List Bool)
    → IsByte b
    → match_sync seen n (unpack_msb (b ∷ octets) ++ tail) ≡ (
        if is_preamble b
        then match_sync true (n + 8) (unpack_msb octets ++ tail)
        else if seen && b == sync_byte
        then some (n + 8)
        else none)
unfolding match_sync unpack_msb
match_sync-octet seen n b octets tail h = rw (byte_of-byte_bits b h)

module _ (octets : List ℕ) (tail : List Bool) where
  match-preamble :
      (k n : ℕ)
      → match_sync true n (unpack_msb (replicate k preamble_byte ++ sync_byte ∷ octets) ++ tail)
        ≡ some (n + (k + 1) * 8)
  unfolding is_preamble
  match-preamble zero n =
      match_sync-octet true n sync_byte octets tail (omega arith)
      ∙ ap some {y = n + (0 + 1) * 8} (omega arith)
  match-preamble (suc k) n =
      match_sync-octet true n preamble_byte (replicate k preamble_byte ++ sync_byte ∷ octets) tail
        (omega arith)
      ∙ match-preamble k (n + 8)
      ∙ ap some {x = n + 8 + (k + 1) * 8} {y = n + (suc k + 1) * 8} (omega arith)

  match-start :
      (k : ℕ)
      → match_sync false 0
          (unpack_msb (replicate (suc k) preamble_byte ++ sync_byte ∷ octets) ++ tail)
        ≡ some ((suc k + 1) * 8)
  unfolding is_preamble
  match-start k =
      match_sync-octet false 0 preamble_byte (replicate k preamble_byte ++ sync_byte ∷ octets) tail
        (omega arith)
      ∙ match-preamble k 8
      ∙ ap some {x = 8 + (k + 1) * 8} {y = (suc k + 1) * 8} (omega arith)

unpack_msb-append : (xs ys : List ℕ) → unpack_msb (xs ++ ys) ≡ unpack_msb xs ++ unpack_msb ys
unfolding unpack_msb
unpack_msb-append [] ys = refl
unpack_msb-append (x ∷ xs) ys =
    ap
      (λ l.
        odd (x / 128)
        ∷ odd (x / 64)
        ∷ odd (x / 32)
        ∷ odd (x / 16)
        ∷ odd (x / 8)
        ∷ odd (x / 4)
        ∷ odd (x / 2)
        ∷ odd x
        ∷ l)
      (unpack_msb-append xs ys)

length-unpack_msb : (xs : List ℕ) → length (unpack_msb xs) ≡ length xs * 8
unfolding unpack_msb
length-unpack_msb [] = refl
length-unpack_msb (x ∷ xs) = omega (arith, length-unpack_msb xs)

-- Packing octets and what follows them.
pack_msb-append :
    (xs : List ℕ) (tail : List Bool)
    → IsBytes xs
    → pack_msb (unpack_msb xs ++ tail) ≡ xs ++ pack_msb tail
unfolding unpack_msb pack_msb
pack_msb-append [] tail h = refl
pack_msb-append (x ∷ xs) tail h = ap₂ ◌∷◌ (byte_of-byte_bits x h.0) (pack_msb-append xs tail h.1)

first_end :
    (n : ℕ) (bits : List Bool)
    → match_sync false 0 bits ≡ some n
    → (ends : List ℕ) × (ends_loop 0 0 bits ≡ n ∷ ends)
unfolding ends_loop end_of after_match match_sync
first_end n [] h = cc
first_end n (b ∷ bits) h =
    (ends_loop (n - 1) 1 bits, rw h (ap (λ k. k ∷ ends_loop (n - 1) 1 bits) {y = n} (omega arith)))

crc16-lt : (body : List ℕ) → crc16 body < 2 ^ 16
unfolding crc16 post_init
crc16-lt body = omega (
  arith,
  compute-lt (as_spec 0x1021 (omega arith) 0xFFFF) refl body,
  crc16_ccitt_false-eq-compute 0x1021 (omega arith) 0xFFFF body,
)

check_of-IsBytes : (payload : List ℕ) → IsBytes (check_of payload)
unfolding pack_big
check_of-IsBytes payload = (
  omega (arith, crc16-lt (body_of payload)),
  (omega (arith, and_mask 8 (crc16 (body_of payload))), tt),
)

body_of-IsBytes :
    (payload : List ℕ) → IsBytes payload → length payload ≤ max_payload → IsBytes (body_of payload)
unfolding body_of
body_of-IsBytes payload h high = (omega arith, h)

module _ (payload : List ℕ) (k : ℕ) (tail : List Bool) (octets : IsBytes payload)
    (low : 1 ≤ length payload) (high : length payload ≤ max_payload) where
  abbrev contents : List ℕ
  contents = body_of payload ++ check_of payload

  abbrev sent : List Bool
  sent = unpack_msb ((replicate (suc k) preamble_byte ++ sync_byte ∷ []) ++ contents)

  synced :
      sent ++ tail
      ≡ unpack_msb (replicate (suc k) preamble_byte ++ sync_byte ∷ [])
        ++ (unpack_msb contents ++ tail)
  synced =
      ap (λ l. l ++ tail)
        (unpack_msb-append (replicate (suc k) preamble_byte ++ sync_byte ∷ []) contents)
      ∙ append_assoc (unpack_msb (replicate (suc k) preamble_byte ++ sync_byte ∷ []))
          (unpack_msb contents) tail

  matched : match_sync false 0 (sent ++ tail) ≡ some ((suc k + 1) * 8)
  matched =
      ap (λ l. match_sync false 0 (unpack_msb l ++ tail))
        (append_assoc (replicate (suc k) preamble_byte) (sync_byte ∷ []) contents)
      ∙ match-start contents tail k

  after_sync : drop ((suc k + 1) * 8) (sent ++ tail) ≡ unpack_msb contents ++ tail
  after_sync =
      ap (drop ((suc k + 1) * 8)) synced
      ∙ drop-append (unpack_msb (replicate (suc k) preamble_byte ++ sync_byte ∷ []))
          (unpack_msb contents ++ tail) _
          (omega (
            arith,
            length-unpack_msb (replicate (suc k) preamble_byte ++ sync_byte ∷ []),
            length-append (replicate (suc k) preamble_byte) (sync_byte ∷ []),
            length-replicate {A = ℕ} (suc k) preamble_byte,
          ))

  read : read_packet (pack_msb (unpack_msb contents ++ tail)) ≡ payload ∷ []
  read =
      ap read_packet (
        pack_msb-append contents tail (
          All-append IsByte (body_of payload) (check_of payload)
            (body_of-IsBytes payload octets high) (check_of-IsBytes payload))
        ∙ append_assoc (body_of payload) (check_of payload) (pack_msb tail))
      ∙ read_packet-append payload (pack_msb tail) low high

  first_packet : (others : List (List ℕ)) × (deframe (sent ++ tail) ≡ payload ∷ others)
  unfolding deframe packets
  first_packet =
      let found = first_end ((suc k + 1) * 8) (sent ++ tail) matched in
      (
        packets (sent ++ tail) found.0,
        ap (packets (sent ++ tail)) found.1
            ∙ ap (λ p. p ++ packets (sent ++ tail) found.0)
                (ap (λ l. read_packet (pack_msb l)) after_sync ∙ read),
      )

-- A payload of 1 to 128 octets, after at least one octet of preamble, is framed without an error,
-- and whatever bits follow the frame, the deframer gives this payload first.
pub deframe-frame_bits :
    (payload : List ℕ) (preamble_len : ℕ) (tail : List Bool)
    → IsBytes payload
    → 1 ≤ length payload
    → length payload ≤ max_payload
    → 1 ≤ preamble_len
    → (bits : List Bool) × (frame_bits payload preamble_len ≡ ok bits)
      × ((others : List (List ℕ)) × (deframe (bits ++ tail) ≡ payload ∷ others))
unfolding frame_bits frame_bytes
deframe-frame_bits payload zero tail octets low high some_preamble = absurd (omega arith)
deframe-frame_bits payload (suc k) tail octets low high some_preamble =
    let fits : ltb max_payload (length payload) ≡ false = ground arith in
    (sent payload k tail octets low high, rw fits, first_packet payload k tail octets low high)
