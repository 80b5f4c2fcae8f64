-- ===== src/Spawn/Url.antt =====
-- _spawn_contract.py, `parse_tcp_url`. A string is the list of its code points, and `int` stands for
-- Python's, `none` where that raises `ValueError`.
use gs_flowgraphs.Base.{
  ℕ, false, Option, none, some, List, [], ◌∷◌, ◌++◌, ◌≡◌, refl, ◌==◌, All, Result, ok, value_error,
  if◌then◌else◌,
}

pub record TcpEndpoint (P : Type 0) : Type 0 where
  pub host : List ℕ
  pub port : P

-- "tcp://"
abbrev pub tcp_prefix : List ℕ
tcp_prefix = 116 ∷ 99 ∷ 112 ∷ 58 ∷ 47 ∷ 47 ∷ []

abbrev pub colon : ℕ
colon = 58

-- What follows a prefix, if the string starts with it.
unfoldable pub after_prefix : List ℕ → List ℕ → Option (List ℕ)
after_prefix [] s = some s
after_prefix (p ∷ ps) [] = none
after_prefix (p ∷ ps) (c ∷ s) = let rest = after_prefix ps s in if p == c then rest else none

unfoldable pub split_here : ℕ → List ℕ → Option (List ℕ × List ℕ) → Option (List ℕ × List ℕ)
split_here c s (some (host, port)) = some (c ∷ host, port)
split_here c s none = if c == colon then some ([], s) else none

-- `rsplit(":", 1)`; `none` if there is no colon.
unfoldable pub rsplit : List ℕ → Option (List ℕ × List ℕ)
rsplit [] = none
rsplit (c ∷ s) = split_here c s (rsplit s)

module _ {P : Type 0} (int : List ℕ → Option P) where
  unfoldable pub endpoint : List ℕ → Option P → Result (TcpEndpoint P)
  endpoint host none = value_error
  endpoint host (some port) = ok (record { host = host; port = port })

  unfoldable pub parse_parts : Option (List ℕ × List ℕ) → Result (TcpEndpoint P)
  parse_parts none = value_error
  parse_parts (some (host, port_str)) = endpoint host (int port_str)

  unfoldable pub parse_rest : Option (List ℕ) → Result (TcpEndpoint P)
  parse_rest none = value_error
  parse_rest (some rest) = parse_parts (rsplit rest)

  unfoldable pub parse_tcp_url : List ℕ → Result (TcpEndpoint P)
  parse_tcp_url url = parse_rest (after_prefix tcp_prefix url)

rsplit-plain : (s : List ℕ) → All (λ c. (c == colon) ≡ false) s → rsplit s ≡ none
unfolding rsplit split_here
rsplit-plain [] h = refl
rsplit-plain (c ∷ s) h = rw (rsplit-plain s h.1, h.0) refl

rsplit-colon :
    (host port : List ℕ)
    → All (λ c. (c == colon) ≡ false) port
    → rsplit (host ++ colon ∷ port) ≡ some (host, port)
unfolding rsplit split_here
rsplit-colon [] port h = rw (rsplit-plain port h) refl
rsplit-colon (c ∷ host) port h = rw (rsplit-colon host port h) refl

-- A host, which may hold colons, and a port text without one come back from their URL: the last
-- colon is the one that splits it, and the port is the number that `int` reads in its text.
pub parse_tcp_url-endpoint :
    {P : Type 0} (int : List ℕ → Option P) (host port_str : List ℕ) (port : P)
    → All (λ c. (c == colon) ≡ false) port_str
    → int port_str ≡ some port
    → parse_tcp_url int (tcp_prefix ++ host ++ colon ∷ port_str)
      ≡ ok (record { host = host; port = port })
unfolding parse_tcp_url parse_rest parse_parts endpoint after_prefix
parse_tcp_url-endpoint int host port_str port h k = rw (rsplit-colon host port_str h, k) refl
