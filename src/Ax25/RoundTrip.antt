-- ===== src/Ax25/RoundTrip.antt =====
-- A UI frame comes back from its octets.
use gs_flowgraphs.Base.{
  ℕ, zero, suc, ◌+◌, ◌%◌, ◌≤◌, ◌≡◌, refl, ap, sym, ◌∙◌, true, false, some, List, [], ◌∷◌, ◌++◌,
  append_assoc, arith,
}
use gs_flowgraphs.Base.{
  ok, ltb, length, take, drop, get_or, All-append, length-append, take-append, drop-append,
}
use gs_flowgraphs.Octets.{IsByte, IsBytes}
use gs_flowgraphs.Hdlc.Segment.{IsBody}
use gs_flowgraphs.Ax25.{Ui, control_ui, pid_no_layer3, encode_ui, decode_ui}
use gs_flowgraphs.Ax25.Address.{IsAscii, shown, callsign_octets, callsign-IsAddress}

-- What the keyword arguments of `encode_ui` may be.
pub record IsSendable (ui : Ui) : Type 0 where
  pub dest : IsAscii ui.dest
  pub src : IsAscii ui.src
  pub info : IsBytes ui.info

-- What the receiver gets: the callsigns as shown, the SSIDs modulo 16, the same information.
abbrev pub as_received : Ui → Ui
as_received ui = record {
  dest = shown ui.dest;
  src = shown ui.src;
  info = ui.info;
  dest_ssid = ui.dest_ssid % 16;
  src_ssid = ui.src_ssid % 16;
}

pub ui_body : Ui → List ℕ
ui_body ui =
    (callsign_octets ui.dest ui.dest_ssid false ++ callsign_octets ui.src ui.src_ssid true)
    ++ ((control_ui ∷ pid_no_layer3 ∷ []) ++ ui.info)

pub encode_ui-eq : (ui : Ui) → IsSendable ui → encode_ui ui ≡ ok (ui_body ui)
unfolding encode_ui ui_body
encode_ui-eq ui h = rw (
  (callsign-IsAddress ui.dest ui.dest_ssid false h.dest).encoded,
  (callsign-IsAddress ui.src ui.src_ssid true h.src).encoded,
)

module _ (dest src info : List ℕ) (d : length dest ≡ 7) (s : length src ≡ 7) where
  abbrev body : List ℕ
  body = (dest ++ src) ++ ((control_ui ∷ pid_no_layer3 ∷ []) ++ info)

  first_seven : take 7 body ≡ dest
  first_seven = ap (take 7) (append_assoc dest src _) ∙ take-append dest _ 7 (sym d)

  next_seven : take 7 (drop 7 body) ≡ src
  next_seven =
      ap (λ l. take 7 (drop 7 l)) (append_assoc dest src _)
      ∙ ap (take 7) (drop-append dest _ 7 (sym d))
      ∙ take-append src _ 7 (sym s)

  abbrev address : List ℕ
  address = dest ++ src

  fourteen : length address ≡ 14
  fourteen = omega (arith, length-append dest src, d, s)

  get_or-after : (l : List ℕ) (m n i : ℕ) → m ≡ n + i → get_or l m 0 ≡ get_or (drop n l) i 0
  get_or-after l m zero i e = ap (λ k. get_or l k 0) {y = i} (omega arith)
  get_or-after [] m (suc n) i e = refl
  get_or-after (x ∷ l) zero (suc n) i e = absurd (omega arith)
  get_or-after (x ∷ l) (suc m) (suc n) i e = get_or-after l m n i (omega arith)

  after_address : drop 14 body ≡ control_ui ∷ pid_no_layer3 ∷ info
  after_address = drop-append address _ 14 (sym fourteen)

  control_read : get_or body 14 0 ≡ control_ui
  control_read = get_or-after body 14 14 0 refl ∙ ap (λ l. get_or l 0 0) after_address

  pid_read : get_or body 15 0 ≡ pid_no_layer3
  pid_read = get_or-after body 15 14 1 refl ∙ ap (λ l. get_or l 1 0) after_address

  info_read : drop 16 body ≡ info
  info_read =
      ap (drop 16) (sym (append_assoc address (control_ui ∷ pid_no_layer3 ∷ []) info))
      ∙ drop-append (address ++ (control_ui ∷ pid_no_layer3 ∷ [])) info 16
          (omega (arith, length-append address (control_ui ∷ pid_no_layer3 ∷ []), fourteen))

  long_enough : 16 ≤ length body
  long_enough = omega (
    arith,
    length-append address ((control_ui ∷ pid_no_layer3 ∷ []) ++ info),
    length-append (control_ui ∷ pid_no_layer3 ∷ []) info,
    fourteen,
  )

pub ui_body-IsBody : (ui : Ui) → IsSendable ui → IsBody (ui_body ui)
unfolding ui_body
ui_body-IsBody ui h =
    let to = callsign-IsAddress ui.dest ui.dest_ssid false h.dest in
    let from = callsign-IsAddress ui.src ui.src_ssid true h.src in
    let dest = callsign_octets ui.dest ui.dest_ssid false in
    let src = callsign_octets ui.src ui.src_ssid true in
    record {
      octets =
          All-append IsByte (dest ++ src) ((control_ui ∷ pid_no_layer3 ∷ []) ++ ui.info)
            (All-append IsByte dest src to.bytes from.bytes) (omega arith, (omega arith, h.info));
      long = long_enough dest src ui.info to.seven from.seven;
    }

pub decode_ui-ui_body : (ui : Ui) → IsSendable ui → decode_ui (ui_body ui) ≡ some (as_received ui)
unfolding decode_ui ui_body
decode_ui-ui_body ui h =
    let to = callsign-IsAddress ui.dest ui.dest_ssid false h.dest in
    let from = callsign-IsAddress ui.src ui.src_ssid true h.src in
    let dest = callsign_octets ui.dest ui.dest_ssid false in
    let src = callsign_octets ui.src ui.src_ssid true in
    let whole = (dest ++ src) ++ ((control_ui ∷ pid_no_layer3 ∷ []) ++ ui.info) in
    let long : ltb (length whole) 16 ≡ false =
      ground (arith, long_enough dest src ui.info to.seven from.seven) in
    rw (
      long,
      control_read dest src ui.info to.seven from.seven,
      pid_read dest src ui.info to.seven from.seven,
      first_seven dest src ui.info to.seven from.seven,
      next_seven dest src ui.info to.seven from.seven,
      info_read dest src ui.info to.seven from.seven,
      to.decoded,
      from.decoded,
    )

-- A UI frame with ASCII callsigns, any SSIDs and any octets of information is encoded without an
-- error, and decoded to the same information with the callsigns cut to six characters in upper
-- case without the spaces at the end, and the SSIDs modulo 16.
pub decode_ui-encode_ui :
    (ui : Ui)
    → IsSendable ui
    → (body : List ℕ) × (encode_ui ui ≡ ok body) × (decode_ui body ≡ some (as_received ui))
decode_ui-encode_ui ui h = (ui_body ui, encode_ui-eq ui h, decode_ui-ui_body ui h)
