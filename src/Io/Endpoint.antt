-- ===== src/Io/Endpoint.antt =====
-- src/io/endpoint.hpp: a host and a port, and their text.
pub mod RoundTrip
use cpp_prototype.Common.{
  ℕ, Bool, true, false, ◌&&◌, ◌==◌, ltb, if◌then◌else◌, List, [], ◌∷◌, ◌++◌, Bytes, Option, none,
  some, Outcome, ok, err, ◌>>=◌, invalid_endpoint, invalid_port,
}
use cpp_prototype.Common.Int.{ℤ, pos, negsuc}
use cpp_prototype.Common.Text.{stoi, decimal}
use cpp_prototype.Serialization.BasicToken.{split_at}

pub record Endpoint : Type 0 where
  pub host : Bytes
  pub port : ℕ

-- `Endpoint ()`
abbrev pub empty_endpoint : Endpoint
empty_endpoint = record { host = []; port = 0 }

abbrev is_empty_text : Bytes → Bool
is_empty_text [] = true
is_empty_text (_ ∷ _) = false

unfoldable pub empty : Endpoint → Bool
empty e = is_empty_text e.host && (e.port == 0)

-- `operator std::string`
unfoldable pub to_string : Endpoint → Bytes
to_string e = e.host ++ b':' ∷ decimal e.port

-- The test of the port, which is an int.
abbrev pub with_port : Bytes → ℤ → Outcome Endpoint
with_port host (negsuc n) = err invalid_port
with_port host (pos n) =
    if (n == 0)
    then err invalid_port
    else if ltb 65535 n
    then err invalid_port
    else ok (record { host = host; port = n })

abbrev pub parse_parts : Option (Bytes × Bytes) → Outcome Endpoint
parse_parts none = err invalid_endpoint
parse_parts (some (host, port)) = stoi port >>= with_port host

unfoldable pub parse : Bytes → Outcome Endpoint
parse text = parse_parts (split_at b':' text)
