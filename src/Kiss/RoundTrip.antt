-- ===== src/Kiss/RoundTrip.antt =====
-- Decoding a stream of encoded frames.
use gs_flowgraphs.Base.{
  ℕ, ◌+◌, ◌*◌, ◌%◌, ◌≡◌, refl, ap, ap₂, ◌∙◌, Bool, true, false, List, [], ◌∷◌, ◌++◌, append_assoc,
  bit_and, bit_or, arith, map,
}
use gs_flowgraphs.Base.{◌==◌, All, ◌<<<◌, ◌>>>◌, and_mask, or_fields}
use gs_flowgraphs.Kiss.{
  fend, escape, type_byte, kiss_encode, split, but_last, bracketed, chunks_of, each, Command,
  command_chunk, with_type, kiss_decode_commands,
}
use gs_flowgraphs.Kiss.Escape.{IsFree, escape-IsFree, unescape-escape}
use gs_flowgraphs.Kiss.Split.{split-append}

-- A type byte is the port and the command, four bits each.
pub type_byte-eq : (command port : ℕ) → type_byte command port ≡ port % 16 * 16 + command % 16
unfolding type_byte
type_byte-eq command port =
    ap₂ (λ p c. bit_or (p <<< 4) c) (and_mask 4 port) (and_mask 4 command)
    ∙ or_fields 4 (port % 16) (command % 16) (omega arith)

-- The type byte of port 12 with command 0 is the delimiter itself.
abbrev pub IsClear : ℕ → ℕ → Type 0
IsClear command port = (type_byte command port == fend) ≡ false

-- One frame on the wire, by its content between the delimiters.
abbrev pub wrapped : List ℕ → List ℕ
wrapped content = fend ∷ (content ++ fend ∷ [])

abbrev pub wire : List (List ℕ) → List ℕ
wire [] = []
wire (content ∷ contents) = wrapped content ++ wire contents

-- The chunks of such a stream: the contents, with an empty chunk before each and one at the end.
abbrev spread : List (List ℕ) → List (List ℕ)
spread [] = [] ∷ []
spread (content ∷ contents) = [] ∷ content ∷ spread contents

pub split-wire :
    (contents : List (List ℕ)) → All IsFree contents → split (wire contents) ≡ spread contents
unfolding split
split-wire [] h = refl
split-wire (content ∷ contents) h = ap (◌∷◌ []) (
    ap split (append_assoc content (fend ∷ []) (wire contents))
    ∙ split-append content (wire contents) h.0
    ∙ ap (◌∷◌ content) (split-wire contents h.1))

module _ {ℓ} {A : Type ℓ} (f : List ℕ → List A) (skips : f [] ≡ []) where
  each-spread : (contents : List (List ℕ)) → each f (spread contents) ≡ each f contents
  unfolding each
  each-spread [] = ap (λ l. l ++ []) skips
  each-spread (content ∷ contents) =
      ap (λ l. l ++ (f content ++ each f (spread contents))) skips
      ∙ ap (◌++◌ (f content)) (each-spread contents)

  each-bracketed :
      (contents : List (List ℕ)) → each f (bracketed (spread contents)) ≡ each f contents
  unfolding each bracketed but_last
  each-bracketed [] = refl
  each-bracketed (content ∷ []) = refl
  each-bracketed (content ∷ other ∷ contents) = ap (◌++◌ (f content)) (
      ap (λ l. l ++ each f (but_last (other ∷ spread contents))) skips
      ∙ each-bracketed (other ∷ contents))

  -- In both modes every content of the stream is looked at, in order, and nothing else.
  pub each-chunks_of :
      (strict : Bool) (contents : List (List ℕ))
      → All IsFree contents
      → each f (chunks_of (wire contents) strict) ≡ each f contents
  unfolding chunks_of
  each-chunks_of true contents h =
      ap (λ c. each f (bracketed c)) (split-wire contents h) ∙ each-bracketed contents
  each-chunks_of false contents h = ap (each f) (split-wire contents h) ∙ each-spread contents

abbrev pub content_of : Command → List ℕ
content_of c = type_byte c.command c.port ∷ escape c.payload

-- The frames of the commands, one after the other.
pub stream : List Command → List ℕ
stream [] = []
stream (c ∷ cs) = kiss_encode c.payload c.command c.port ++ stream cs

-- No type byte is the delimiter.
abbrev pub AreClear : List Command → Type 0
AreClear cs = All (λ c. IsClear c.command c.port) cs

pub stream-wire : (cs : List Command) → stream cs ≡ wire (map content_of cs)
unfolding stream kiss_encode
stream-wire [] = refl
stream-wire (c ∷ cs) = ap (◌++◌ (wrapped (content_of c))) (stream-wire cs)

pub contents-IsFree : (cs : List Command) → AreClear cs → All IsFree (map content_of cs)
contents-IsFree [] h = tt
contents-IsFree (c ∷ cs) h = ((h.0, escape-IsFree c.payload), contents-IsFree cs h.1)

-- Port and command are nibbles.
abbrev pub as_nibbles : Command → Command
as_nibbles c = record { port = c.port % 16; command = c.command % 16; payload = c.payload }

command_chunk-content :
    (strict : Bool) (c : Command) → command_chunk strict (content_of c) ≡ as_nibbles c ∷ []
unfolding command_chunk with_type
command_chunk-content strict c =
    let t = type_byte-eq c.command c.port in
    let port : type_byte c.command c.port >>> 4 ≡ c.port % 16 = omega (arith, t) in
    let command : bit_and (type_byte c.command c.port) 0x0F ≡ c.command % 16 =
      and_mask 4 (type_byte c.command c.port) ∙ omega (arith, t) in
    ap (λ u. with_type (type_byte c.command c.port) u.payload) (unescape-escape strict c.payload)
    ∙ (λ i. record { port = port i; command = command i; payload = c.payload } ∷ [])

each-map {ℓ κ} :
    {A : Type ℓ} {B : Type κ} (f : List ℕ → List A) (g : B → List ℕ) (h : B → A)
    → ((b : B) → f (g b) ≡ h b ∷ [])
    → (bs : List B) → each f (map g bs) ≡ map h bs
unfolding each
each-map f g h e [] = refl
each-map f g h e (b ∷ bs) = ap₂ ◌++◌ (e b) (each-map f g h e bs)

-- From a stream of any frames whose type bytes are not the delimiter, `kiss_decode_commands`
-- recovers in both modes each payload in order, whatever octets it holds, with the low four bits
-- of its port and of its command.
pub kiss_decode_commands-stream :
    (strict : Bool) (cs : List Command)
    → AreClear cs
    → kiss_decode_commands (stream cs) strict ≡ map as_nibbles cs
unfolding kiss_decode_commands
kiss_decode_commands-stream strict cs h =
    ap (λ s. each (command_chunk strict) (chunks_of s strict)) (stream-wire cs)
    ∙ each-chunks_of (command_chunk strict) (unfold command_chunk in refl) strict
        (map content_of cs) (contents-IsFree cs h)
    ∙ each-map (command_chunk strict) content_of as_nibbles (command_chunk-content strict) cs
