-- ===== src/EnduroSat/Packet.antt =====
-- What the deframer of endurosat_link.py accepts after a sync.
use gs_flowgraphs.Base.{
  ℕ, suc, ◌+◌, ◌≤◌, ◌≡◌, refl, ap, sym, ◌∙◌, ◌↔◌, true, false, List, [], ◌∷◌, ◌++◌, arith, subst,
}
use gs_flowgraphs.Base.{
  ltb, leb, length, take, drop, get_or, length-append, take-append, drop-append, take-append-drop,
  length-take,
}
use gs_flowgraphs.Crc.Fcs.{same_bytes}
use gs_flowgraphs.Crc.Fcs.Check.{same_bytes_self, eq_of_same_bytes}
use gs_flowgraphs.EnduroSat.{max_payload, crc16, pack_big, body_of, read_packet}

-- The check octets of a payload.
abbrev pub check_of : List ℕ → List ℕ
check_of payload = pack_big (crc16 (body_of payload))

pub length-body_of : (payload : List ℕ) → length (body_of payload) ≡ 1 + length payload
unfolding body_of
length-body_of payload = omega arith

pub size_read : (payload rest : List ℕ) → get_or (body_of payload ++ rest) 0 0 ≡ length payload
unfolding body_of
size_read payload rest = refl

pub length-pack_big : (value : ℕ) → length (pack_big value) ≡ 2
unfolding pack_big
length-pack_big value = refl

module _ (payload rest : List ℕ) (low : 1 ≤ length payload) (high : length payload ≤ 128) where
  abbrev packet : List ℕ
  packet = body_of payload ++ (check_of payload ++ rest)

  length-packet : 3 + length payload ≤ length packet
  length-packet = omega (
    arith,
    length-append (body_of payload) (check_of payload ++ rest),
    length-append (check_of payload) rest,
    length-body_of payload,
    length-pack_big (crc16 (body_of payload)),
  )

  body_taken : take (1 + length payload) packet ≡ body_of payload
  body_taken =
      take-append (body_of payload) (check_of payload ++ rest) _ (sym (length-body_of payload))

  check_taken : take 2 (drop (1 + length payload) packet) ≡ check_of payload
  check_taken =
      ap (take 2)
        (drop-append (body_of payload) (check_of payload ++ rest) _ (sym (length-body_of payload)))
      ∙ take-append (check_of payload) rest _ (sym (length-pack_big (crc16 (body_of payload))))

  payload_read : drop 1 (body_of payload) ≡ payload
  unfolding body_of
  payload_read = refl

  pub read_packet-append : read_packet packet ≡ payload ∷ []
  unfolding read_packet
  read_packet-append =
      let long : ltb (length packet) 3 ≡ false = ground (arith, length-packet) in
      let whole : ltb (length packet) (3 + length payload) ≡ false =
        ground (arith, length-packet) in
      let least : leb 1 (length payload) ≡ true = ground arith in
      let most : leb (length payload) 128 ≡ true = ground arith in
      rw (
        size_read payload (check_of payload ++ rest),
        long,
        whole,
        least,
        most,
        body_taken,
        check_taken,
        same_bytes_self (check_of payload),
        payload_read,
      )

-- What the tests of `read_packet` say when it returns a payload.
record IsRead (by payload : List ℕ) (size : ℕ) : Type 0 where
  low : 1 ≤ size
  high : size ≤ 128
  whole : 3 + size ≤ length by
  checked : same_bytes (take 2 (drop (1 + size) by)) (pack_big (crc16 (take (1 + size) by))) ≡ true
  payload_eq : drop 1 (take (1 + size) by) ≡ payload

read_packet-IsRead :
    (by payload : List ℕ) → read_packet by ≡ payload ∷ [] → IsRead by payload (get_or by 0 0)
unfolding read_packet
read_packet-IsRead by payload h = record {
  low = ground arith;
  high = ground arith;
  whole = ground arith;
  checked = ground arith;
  payload_eq = ground arith;
}

abbrev IsPacket : List ℕ → List ℕ → Type 0
IsPacket by payload =
    (1 ≤ length payload)
    × (length payload ≤ max_payload)
    × ((rest : List ℕ) × (by ≡ body_of payload ++ (check_of payload ++ rest)))

one_more : (n : ℕ) → 1 + n ≡ suc n
one_more n = omega arith

split-IsPacket :
    (n : ℕ) (octets : List ℕ)
    → IsRead (n ∷ octets) (take n octets) n
    → IsPacket (n ∷ octets) (take n octets)
unfolding body_of
split-IsPacket n octets r =
    let T = take n octets in
    let D = drop n octets in
    let size : length T ≡ n = omega (arith, length-take n octets, r.whole) in
    let checked : take 2 D ≡ pack_big (crc16 (n ∷ T)) =
      eq_of_same_bytes (take 2 D) (pack_big (crc16 (n ∷ T))) (rw (one_more n) at r.checked) in
    (
      omega (arith, r.low, size),
      omega (arith, r.high, size),
      (
        drop 2 D,
        rw size (
            ap (◌∷◌ n) (
              sym (take-append-drop n octets)
              ∙ ap (◌++◌ T) (sym (take-append-drop 2 D) ∙ ap (λ c. c ++ drop 2 D) checked))),
      ),
    )

accepted : (by payload : List ℕ) → read_packet by ≡ payload ∷ [] → IsPacket by payload
accepted [] payload h = let r = read_packet-IsRead [] payload h in absurd (omega (arith, r.whole))
accepted (n ∷ octets) payload h =
    let r = read_packet-IsRead (n ∷ octets) payload h in
    let payload_eq : take n octets ≡ payload =
      ap (λ k. drop 1 (take k (n ∷ octets))) (sym (one_more n)) ∙ r.payload_eq in
    subst (λ p. IsPacket (n ∷ octets) p) payload_eq
      (split-IsPacket n octets (record {
        low = r.low;
        high = r.high;
        whole = r.whole;
        checked = r.checked;
        payload_eq = ap (λ k. drop 1 (take k (n ∷ octets))) (one_more n);
      }))

-- A payload is read from the octets after a sync exactly when its length is 1 to 128 and the
-- octets begin with the length, the payload and the two octets of its check.
pub read_packet_iff :
    (by payload : List ℕ)
    → (read_packet by ≡ payload ∷ []) ↔ (
        (1 ≤ length payload)
        × (length payload ≤ max_payload)
        × ((rest : List ℕ) × (by ≡ body_of payload ++ (check_of payload ++ rest))))
read_packet_iff by payload =
    (accepted by payload, λ p. ap read_packet p.2.1 ∙ read_packet-append payload p.2.0 p.0 p.1)
