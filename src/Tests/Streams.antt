-- ===== src/Tests/Streams.antt =====
-- Concrete streams for linecode.py, sync.py and fixed.py.
use gs_flowgraphs.Base.{
  ℕ, ◌≡◌, refl, Bool, true, false, Option, some, none, List, [], ◌∷◌, ◌++◌, ok, drop, odd, arith,
}
use gs_flowgraphs.LineCode.{
  tapped, shift_down, bit_count, pn9_bytes, pn9_loop, pn9_octet, additive_randomize_bits,
  additive_loop, register_ok, SelfSynchronizingDescrambler, descrambler, push, push_bits,
  multiplicative_scramble, multiplicative_loop,
}
use gs_flowgraphs.LineCode.Descrambler.{push_self_sync}
use gs_flowgraphs.Sync
use gs_flowgraphs.Sync.{StreamingSync}
use gs_flowgraphs.Sync.Chunks.{IsSynced, push_in_chunks}
use gs_flowgraphs.Fixed.{
  passed, DecodedFixedFrame, FixedSyncFrameDecoder, fixed_sync_frame_decoder, done,
}
use gs_flowgraphs.Fixed.Reference.{reference_of}
use gs_flowgraphs.Fixed.Stream.{push_all, joined, push_all-eq-reference}

abbrev few_bits : List Bool
few_bits = true ∷ true ∷ false ∷ true ∷ []

whitened_zeros : pn9_bytes (0 ∷ 0 ∷ []) 0x1FF ≡ ok (0xFF ∷ 0xE1 ∷ [])
unfolding pn9_bytes pn9_loop pn9_octet
whitened_zeros = refl

randomized_bits : additive_randomize_bits few_bits 1 3 1 ≡ ok (false ∷ false ∷ true ∷ false ∷ [])
unfolding additive_randomize_bits register_ok additive_loop shift_down tapped bit_count odd
randomized_bits = refl

-- A register of two bits, with the seed that the scrambler starts from and with another.
abbrev sender : SelfSynchronizingDescrambler
sender = record { mask = 1; seed = 3; register_length = 1; state = 3 }

abbrev receiver : SelfSynchronizingDescrambler
receiver = record { mask = 1; seed = 0; register_length = 1; state = 0 }

sender_made : descrambler 1 3 1 ≡ ok sender
unfolding descrambler register_ok
sender_made = refl

receiver_made : descrambler 1 0 1 ≡ ok receiver
unfolding descrambler register_ok
receiver_made = refl

abbrev sent_bits : List Bool
sent_bits = false ∷ false ∷ false ∷ true ∷ []

bits_sent : multiplicative_scramble few_bits 1 3 1 ≡ ok sent_bits
unfolding multiplicative_scramble descrambler register_ok multiplicative_loop shift_down tapped
    bit_count odd
bits_sent = refl

-- After `register_length` bits the seed still shows: the second bit differs from the one sent.
seed_shows : drop 1 (push receiver sent_bits).1 ≡ false ∷ false ∷ true ∷ []
unfolding push push_bits shift_down tapped bit_count odd
seed_shows = refl

push_self_sync_example : drop 2 (push receiver sent_bits).1 ≡ drop 2 few_bits
push_self_sync_example = push_self_sync few_bits sent_bits 1 3 0 1 receiver bits_sent receiver_made

abbrev marker : StreamingSync
marker = record {
  pattern = few_bits;
  threshold = 1;
  accept_inverted = true;
  tail = [];
  total_seen = 0;
}

marker-IsSynced : IsSynced marker
marker-IsSynced = record { some_pattern = omega arith; short = omega arith; seen = omega arith }

push_in_chunks_example : Sync.push marker (few_bits ++ few_bits) ≡ (
  (Sync.push (Sync.push marker few_bits).0 few_bits).0,
  (Sync.push marker few_bits).1 ++ (Sync.push (Sync.push marker few_bits).0 few_bits).1,
)
push_in_chunks_example = push_in_chunks marker few_bits few_bits marker-IsSynced

abbrev octet_decoder : FixedSyncFrameDecoder
octet_decoder = record {
  frame_bits = 8;
  syncword_length = 4;
  sync = marker;
  buffer = [];
  buffer_base = 0;
  total_seen = 0;
  pending = [];
}

octet_decoder_made : fixed_sync_frame_decoder few_bits 1 1 ≡ ok octet_decoder
unfolding fixed_sync_frame_decoder Sync.streaming_sync
octet_decoder_made = refl

-- Takes every octet for a payload.
abbrev any_payload : List ℕ → Option DecodedFixedFrame
any_payload wire = some (record { payload = wire; integrity = passed; corrected_symbols = none })

push_all-eq-reference_example :
    (next : FixedSyncFrameDecoder) × (push_all any_payload
        (few_bits ∷ (few_bits ++ few_bits) ∷ [])
        octet_decoder
      ≡ done (
        next,
        reference_of any_payload 8 marker (joined (few_bits ∷ (few_bits ++ few_bits) ∷ [])),
      ))
push_all-eq-reference_example =
    push_all-eq-reference any_payload few_bits 1 1 octet_decoder
      (few_bits ∷ (few_bits ++ few_bits) ∷ []) octet_decoder_made
