-- ===== src/DualBasis.antt =====
-- native_framing/rs.py: the codec of CCSDS on gfsk_ax25/reedsolomon.py, with its two bases and with
-- interleaved paths. The tests on Python's types have no counterpart: a position is a natural number.
pub mod Basis
pub mod Columns
pub mod Paths
pub mod RoundTrip
use gs_flowgraphs.Base.{
  ℕ, zero, suc, ◌+◌, ◌-◌, ◌/◌, ◌%◌, Bool, true, false, Option, none, some, List, [], ◌∷◌, ◌++◌, map,
  ◌&&◌, ◌||◌, not, Result, ok, value_error, ◌>>=◌, ltb, leb, ◌==◌, if◌then◌else◌, length, get_or,
  replicate,
}
use gs_flowgraphs.ReedSolomon.{RsCodec, rs_codec, set_at}
use gs_flowgraphs.ReedSolomon
use gs_flowgraphs.ReedSolomon.Decoder.{
  Decoded, decoded, uncorrectable, value_error, index_error, decode_with_count, sorted_set,
  any_outside, distinct,
}

-- `_TALTAB`
abbrev pub taltab : List ℕ
taltab =
    0x00 ∷ 0x7B ∷ 0xAF ∷ 0xD4 ∷ 0x99 ∷ 0xE2 ∷ 0x36 ∷ 0x4D ∷ 0xFA ∷ 0x81 ∷ 0x55 ∷ 0x2E ∷ 0x63 ∷ 0x18
    ∷ 0xCC ∷ 0xB7 ∷ 0x86 ∷ 0xFD ∷ 0x29 ∷ 0x52 ∷ 0x1F ∷ 0x64 ∷ 0xB0 ∷ 0xCB ∷ 0x7C ∷ 0x07 ∷ 0xD3
    ∷ 0xA8 ∷ 0xE5 ∷ 0x9E ∷ 0x4A ∷ 0x31 ∷ 0xEC ∷ 0x97 ∷ 0x43 ∷ 0x38 ∷ 0x75 ∷ 0x0E ∷ 0xDA ∷ 0xA1
    ∷ 0x16 ∷ 0x6D ∷ 0xB9 ∷ 0xC2 ∷ 0x8F ∷ 0xF4 ∷ 0x20 ∷ 0x5B ∷ 0x6A ∷ 0x11 ∷ 0xC5 ∷ 0xBE ∷ 0xF3
    ∷ 0x88 ∷ 0x5C ∷ 0x27 ∷ 0x90 ∷ 0xEB ∷ 0x3F ∷ 0x44 ∷ 0x09 ∷ 0x72 ∷ 0xA6 ∷ 0xDD ∷ 0xEF ∷ 0x94
    ∷ 0x40 ∷ 0x3B ∷ 0x76 ∷ 0x0D ∷ 0xD9 ∷ 0xA2 ∷ 0x15 ∷ 0x6E ∷ 0xBA ∷ 0xC1 ∷ 0x8C ∷ 0xF7 ∷ 0x23
    ∷ 0x58 ∷ 0x69 ∷ 0x12 ∷ 0xC6 ∷ 0xBD ∷ 0xF0 ∷ 0x8B ∷ 0x5F ∷ 0x24 ∷ 0x93 ∷ 0xE8 ∷ 0x3C ∷ 0x47
    ∷ 0x0A ∷ 0x71 ∷ 0xA5 ∷ 0xDE ∷ 0x03 ∷ 0x78 ∷ 0xAC ∷ 0xD7 ∷ 0x9A ∷ 0xE1 ∷ 0x35 ∷ 0x4E ∷ 0xF9
    ∷ 0x82 ∷ 0x56 ∷ 0x2D ∷ 0x60 ∷ 0x1B ∷ 0xCF ∷ 0xB4 ∷ 0x85 ∷ 0xFE ∷ 0x2A ∷ 0x51 ∷ 0x1C ∷ 0x67
    ∷ 0xB3 ∷ 0xC8 ∷ 0x7F ∷ 0x04 ∷ 0xD0 ∷ 0xAB ∷ 0xE6 ∷ 0x9D ∷ 0x49 ∷ 0x32 ∷ 0x8D ∷ 0xF6 ∷ 0x22
    ∷ 0x59 ∷ 0x14 ∷ 0x6F ∷ 0xBB ∷ 0xC0 ∷ 0x77 ∷ 0x0C ∷ 0xD8 ∷ 0xA3 ∷ 0xEE ∷ 0x95 ∷ 0x41 ∷ 0x3A
    ∷ 0x0B ∷ 0x70 ∷ 0xA4 ∷ 0xDF ∷ 0x92 ∷ 0xE9 ∷ 0x3D ∷ 0x46 ∷ 0xF1 ∷ 0x8A ∷ 0x5E ∷ 0x25 ∷ 0x68
    ∷ 0x13 ∷ 0xC7 ∷ 0xBC ∷ 0x61 ∷ 0x1A ∷ 0xCE ∷ 0xB5 ∷ 0xF8 ∷ 0x83 ∷ 0x57 ∷ 0x2C ∷ 0x9B ∷ 0xE0
    ∷ 0x34 ∷ 0x4F ∷ 0x02 ∷ 0x79 ∷ 0xAD ∷ 0xD6 ∷ 0xE7 ∷ 0x9C ∷ 0x48 ∷ 0x33 ∷ 0x7E ∷ 0x05 ∷ 0xD1
    ∷ 0xAA ∷ 0x1D ∷ 0x66 ∷ 0xB2 ∷ 0xC9 ∷ 0x84 ∷ 0xFF ∷ 0x2B ∷ 0x50 ∷ 0x62 ∷ 0x19 ∷ 0xCD ∷ 0xB6
    ∷ 0xFB ∷ 0x80 ∷ 0x54 ∷ 0x2F ∷ 0x98 ∷ 0xE3 ∷ 0x37 ∷ 0x4C ∷ 0x01 ∷ 0x7A ∷ 0xAE ∷ 0xD5 ∷ 0xE4
    ∷ 0x9F ∷ 0x4B ∷ 0x30 ∷ 0x7D ∷ 0x06 ∷ 0xD2 ∷ 0xA9 ∷ 0x1E ∷ 0x65 ∷ 0xB1 ∷ 0xCA ∷ 0x87 ∷ 0xFC
    ∷ 0x28 ∷ 0x53 ∷ 0x8E ∷ 0xF5 ∷ 0x21 ∷ 0x5A ∷ 0x17 ∷ 0x6C ∷ 0xB8 ∷ 0xC3 ∷ 0x74 ∷ 0x0F ∷ 0xDB
    ∷ 0xA0 ∷ 0xED ∷ 0x96 ∷ 0x42 ∷ 0x39 ∷ 0x08 ∷ 0x73 ∷ 0xA7 ∷ 0xDC ∷ 0x91 ∷ 0xEA ∷ 0x3E ∷ 0x45
    ∷ 0xF2 ∷ 0x89 ∷ 0x5D ∷ 0x26 ∷ 0x6B ∷ 0x10 ∷ 0xC4 ∷ 0xBF ∷ []

-- The entries from source `i`, put into the inverse.
unfoldable pub inverse_entries : List ℕ → ℕ → List ℕ → List ℕ
inverse_entries [] i inverse = inverse
inverse_entries (target ∷ table) i inverse = inverse_entries table (i + 1) (set_at inverse target i)

unfoldable pub inverse_table : List ℕ → Result (List ℕ)
inverse_table table =
    if (length table == 256) && (distinct table == 256)
    then ok (inverse_entries table 0 (replicate 256 0))
    else value_error

-- `_TAL1TAB`
unfoldable pub tal1tab : List ℕ
tal1tab = inverse_entries taltab 0 (replicate 256 0)

-- `_CODEC`
abbrev pub codec : RsCodec
codec = rs_codec 32 0x187 112 0xAD

pub record CcsdsReedSolomon : Type 0 where
  pub dual : Bool
  pub interleaving : ℕ

-- `__init__`, for one of the two names of a basis.
unfoldable pub ccsds_reed_solomon : Bool → ℕ → Result CcsdsReedSolomon
ccsds_reed_solomon dual interleaving =
    if interleaving == 0
    then value_error
    else ok (record { dual = dual; interleaving = interleaving })

-- `payload[path::interleaving]`: `skip` symbols are left to pass over before the next one.
unfoldable pub every_nth : ℕ → ℕ → List ℕ → List ℕ
every_nth n skip [] = []
every_nth n zero (x ∷ xs) = x ∷ every_nth n (n - 1) xs
every_nth n (suc skip) (x ∷ xs) = every_nth n skip xs

unfoldable pub to_conventional : Bool → List ℕ → List ℕ
to_conventional dual data_ = if dual then map (λ v. get_or tal1tab v 0) data_ else data_

unfoldable pub from_conventional : Bool → List ℕ → List ℕ
from_conventional dual data_ = if dual then map (λ v. get_or taltab v 0) data_ else data_

unfoldable pub heads : List (List ℕ) → List ℕ
heads [] = []
heads ([] ∷ paths) = heads paths
heads ((x ∷ path) ∷ paths) = x ∷ heads paths

unfoldable pub tails : List (List ℕ) → List (List ℕ)
tails [] = []
tails ([] ∷ paths) = [] ∷ tails paths
tails ((x ∷ path) ∷ paths) = path ∷ tails paths

-- The columns of paths of one length, with the columns that are left.
unfoldable pub columns : ℕ → List (List ℕ) → List ℕ
columns zero paths = []
columns (suc left) paths = heads paths ++ columns left (tails paths)

unfoldable pub same_lengths : ℕ → List (List ℕ) → Bool
same_lengths n [] = true
same_lengths n (path ∷ paths) = (length path == n) && same_lengths n paths

unfoldable pub interleave : List (List ℕ) → Result (List ℕ)
interleave [] = value_error
interleave (path ∷ paths) =
    if same_lengths (length path) paths
    then ok (columns (length path) (path ∷ paths))
    else value_error

-- The loop of `encode` over the paths that are left, from number `path`.
unfoldable pub encode_paths : CcsdsReedSolomon → List ℕ → ℕ → ℕ → Result (List (List ℕ))
encode_paths s payload zero path = ok []
encode_paths s payload (suc left) path =
    ReedSolomon.encode codec (to_conventional s.dual (every_nth s.interleaving path payload))
    >>= λ codeword. encode_paths s payload left (path + 1) >>= λ rest.
        ok (from_conventional s.dual codeword ∷ rest)

unfoldable pub encode : CcsdsReedSolomon → List ℕ → Result (List ℕ)
encode s payload =
    if (length payload == 0) || not (length payload % s.interleaving == 0)
    then value_error
    else if ltb 223 (length payload / s.interleaving)
    then value_error
    else encode_paths s payload s.interleaving 0 >>= interleave

pub record ReedSolomonResult : Type 0 where
  pub payload : List ℕ
  pub corrected_symbols : ℕ

-- The erasures of one path.
unfoldable pub path_erasures : ℕ → ℕ → List ℕ → List ℕ
path_erasures n path [] = []
path_erasures n path (position ∷ positions) =
    let rest = path_erasures n path positions in
    if position % n == path then (position / n) ∷ rest else rest

-- A path that cannot be corrected gives `None`. A path has symbols, so that it is no `IndexError`.
unfoldable pub add_path :
    Bool → Decoded → Result (Option (List (List ℕ) × ℕ)) → Result (Option (List (List ℕ) × ℕ))
add_path dual uncorrectable later = ok none
add_path dual value_error later = value_error
add_path dual index_error later = value_error
add_path dual (decoded payload corrected) value_error = value_error
add_path dual (decoded payload corrected) (ok none) = ok none
add_path dual (decoded payload corrected) (ok (some (paths, total))) =
    ok (some (from_conventional dual payload ∷ paths, corrected + total))

-- The loop of `decode` over the paths that are left, from number `path`.
unfoldable pub decode_paths :
    CcsdsReedSolomon → List ℕ → List ℕ → ℕ → ℕ → Result (Option (List (List ℕ) × ℕ))
decode_paths s codeword erasures zero path = ok (some ([], 0))
decode_paths s codeword erasures (suc left) path =
    add_path s.dual
      (decode_with_count codec (to_conventional s.dual (every_nth s.interleaving path codeword))
        (path_erasures s.interleaving path erasures))
      (decode_paths s codeword erasures left (path + 1))

unfoldable pub joined : Option (List (List ℕ) × ℕ) → Result (Option ReedSolomonResult)
joined none = ok none
joined (some (paths, corrected)) = interleave paths >>= λ payload.
    ok (some (record { payload = payload; corrected_symbols = corrected }))

unfoldable pub decode : CcsdsReedSolomon → List ℕ → List ℕ → Result (Option ReedSolomonResult)
decode s codeword erase_pos =
    let path_size = length codeword / s.interleaving in
    if (length codeword == 0) || not (length codeword % s.interleaving == 0)
    then ok none
    else if leb path_size 32 || ltb 255 path_size
    then ok none
    else if any_outside (length codeword) erase_pos
    then value_error
    else decode_paths s codeword (sorted_set erase_pos) s.interleaving 0 >>= joined
