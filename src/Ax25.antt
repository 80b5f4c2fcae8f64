-- ===== src/Ax25.antt =====
-- gfsk_ax25/ax25.py: UI frames. A callsign is a list of character codes. `upper` is that of ASCII;
-- a character outside ASCII makes `encode("ascii")` raise, a subclass of `ValueError`. (The few
-- other characters whose upper case is an ASCII letter are not modelled.)
pub mod Address
pub mod RoundTrip
use gs_flowgraphs.Base.{
  ℕ, zero, suc, ◌+◌, ◌-◌, ◌*◌, ◌/◌, Bool, true, false, Option, none, some, List, [], ◌∷◌, ◌++◌, map,
  bit_and, bit_or, ◌&&◌, ◌||◌, not,
}
use gs_flowgraphs.Base.{
  Result, ok, value_error, ◌>>=◌, ltb, leb, ◌==◌, if◌then◌else◌, length, take, drop, replicate,
  get_or, bit, odd, ◌<<<◌, ◌>>>◌,
}

abbrev pub control_ui : ℕ
control_ui = 0x03

abbrev pub pid_no_layer3 : ℕ
pid_no_layer3 = 0xF0

-- Two addresses, control and protocol octet.
abbrev pub min_body : ℕ
min_body = 16

pub upper_char : ℕ → ℕ
upper_char c = if leb b'a' c && leb c b'z' then c - 32 else c

pub ljust : ℕ → List ℕ → List ℕ
ljust width text = text ++ replicate (width - length text) b' '

-- `call.upper()[:6].ljust(6)`
pub padded : List ℕ → List ℕ
padded call = ljust 6 (take 6 (map upper_char call))

-- `str.encode("ascii")`
pub ascii : List ℕ → Result (List ℕ)
ascii [] = ok []
ascii (c ∷ text) = do rest ← ascii text; if ltb c 128 then ok (c ∷ rest) else value_error

-- 0x60 | ((ssid & 0x0F) << 1) | (1 if last else 0)
pub ssid_octet : ℕ → Bool → ℕ
ssid_octet ssid last = bit_or (bit_or 0x60 (bit_and ssid 0x0F <<< 1)) (bit last)

pub encode_callsign : List ℕ → ℕ → Bool → Result (List ℕ)
encode_callsign call ssid last = do
  text ← ascii (padded call)
  ok (map (λ c. c <<< 1) text ++ ssid_octet ssid last ∷ [])

-- `str.isspace` of an ASCII character.
pub is_space : ℕ → Bool
is_space c = (leb 9 c && leb c 13) || (leb 28 c && leb c 32)

pub rstrip_cons : ℕ → List ℕ → List ℕ
rstrip_cons c [] = if is_space c then [] else c ∷ []
rstrip_cons c (d ∷ rest) = c ∷ d ∷ rest

pub rstrip : List ℕ → List ℕ
rstrip [] = []
rstrip (c ∷ text) = rstrip_cons c (rstrip text)

pub record Callsign : Type 0 where
  pub call : List ℕ
  pub ssid : ℕ
  pub last : Bool

pub decode_callsign : List ℕ → Callsign
decode_callsign octets = record {
  call = rstrip (map (λ b. b >>> 1) (take 6 octets));
  ssid = bit_and (get_or octets 6 0 >>> 1) 0x0F;
  last = odd (get_or octets 6 0);
}

pub record Ui : Type 0 where
  pub dest : List ℕ
  pub src : List ℕ
  pub info : List ℕ
  pub dest_ssid : ℕ
  pub src_ssid : ℕ

-- The keyword arguments of `encode_ui` are the fields of a `Ui`.
unfoldable pub encode_ui : Ui → Result (List ℕ)
encode_ui ui = do
  dest ← encode_callsign ui.dest ui.dest_ssid false
  src ← encode_callsign ui.src ui.src_ssid true
  ok ((dest ++ src) ++ ((control_ui ∷ pid_no_layer3 ∷ []) ++ ui.info))

unfoldable pub decode_ui : List ℕ → Option Ui
decode_ui body =
    let dest = decode_callsign (take 7 body) in
    let src = decode_callsign (take 7 (drop 7 body)) in
    if ltb (length body) min_body
    then none
    else if not (get_or body 14 0 == control_ui) || not (get_or body 15 0 == pid_no_layer3)
    then none
    else some (record {
      dest = dest.call;
      src = src.call;
      info = drop 16 body;
      dest_ssid = dest.ssid;
      src_ssid = src.ssid;
    })
