-- ===== src/Client/Options.antt =====
-- src/clients/client/options.cpp and .hpp: the command line of the client.
pub mod Endings
pub mod Login
use cpp_prototype.Common.{
  ℕ, zero, suc, ◌==◌, Bool, true, false, not, List, [], ◌∷◌, Bytes, Option, none, some, length, ltb,
  if◌then◌else◌, Outcome, ok, err, ◌>>=◌, undefined, out_of_fuel, invalid_port, invalid_option,
}
use cpp_prototype.Common.Arguments.{Taken, take_one, take_two, once, and_on}
use cpp_prototype.Common.Int.{ℤ, pos, negsuc}
use cpp_prototype.Common.Key.{bytes_key, same}
use cpp_prototype.Common.Map.{is_some}
use cpp_prototype.Common.Text.{stoi}
use cpp_prototype.Serialization.BasicToken.{encode_basic_token}
use cpp_prototype.Messages.Message.{AuthenticationRequest}

pub record AuthenticationOption : Type 0 where
  pub username : Bytes
  pub password : Bytes

pub record Options : Type 0 where
  pub host : Bytes
  pub port : ℕ
  pub tls : Bool
  pub capath : Option Bytes
  pub authentication : Option AuthenticationOption

-- What `parse` ends in: its result, or `exit (1)` after the usage.
pub data Parsed : Type 0 where
  parsed : Options → Parsed
  failed : Parsed

-- `Options options`
abbrev pub no_options : Options
no_options = record { host = []; port = 0; tls = false; capath = none; authentication = none }

abbrev pub port_text : Bytes
port_text = b'-' ∷ b'-' ∷ b'p' ∷ b'o' ∷ b'r' ∷ b't' ∷ []

abbrev pub host_text : Bytes
host_text = b'-' ∷ b'-' ∷ b'h' ∷ b'o' ∷ b's' ∷ b't' ∷ []

abbrev pub tls_text : Bytes
tls_text = b'-' ∷ b'-' ∷ b't' ∷ b'l' ∷ b's' ∷ []

abbrev pub capath_text : Bytes
capath_text = b'-' ∷ b'-' ∷ b'c' ∷ b'a' ∷ b'p' ∷ b'a' ∷ b't' ∷ b'h' ∷ []

abbrev pub authentication_text : Bytes
authentication_text =
    b'-' ∷ b'-' ∷ b'a' ∷ b'u' ∷ b't' ∷ b'h' ∷ b'e' ∷ b'n' ∷ b't' ∷ b'i' ∷ b'c' ∷ b'a' ∷ b't' ∷ b'i'
    ∷ b'o' ∷ b'n' ∷ []

abbrev pub localhost : Bytes
localhost = b'l' ∷ b'o' ∷ b'c' ∷ b'a' ∷ b'l' ∷ b'h' ∷ b'o' ∷ b's' ∷ b't' ∷ []

abbrev pub is_empty : Bytes → Bool
is_empty [] = true
is_empty (_ ∷ _) = false

-- The test of the port, which is an int.
abbrev pub with_port : Options → ℤ → Outcome Options
with_port o (negsuc n) = err invalid_port
with_port o (pos n) =
    if n == 0
    then err invalid_port
    else if ltb 65535 n
    then err invalid_port
    else ok (record o { port = n })

unfoldable pub set_port : Bytes → Options → Outcome Options
set_port value o = stoi value >>= with_port o

-- The chain of tests in the loop. An `--authentication` may be given again.
unfoldable pub handle_arg : Bytes → List Bytes → Options → Outcome (Taken Options)
handle_arg arg args o =
    if same arg port_text
    then once (not (o.port == 0)) (take_one args (λ value. set_port value o))
    else if same arg host_text
    then once (not (is_empty o.host)) (take_one args (λ value. ok (record o { host = value })))
    else if same arg tls_text
    then ok (record o { tls = true }, args)
    else if same arg capath_text
    then once (is_some o.capath) (take_one args (λ file. ok (record o { capath = some file })))
    else if same arg authentication_text
    then take_two args (λ username password.
      ok (record o { authentication = some (record { username = username; password = password }) }))
    else err invalid_option

abbrev pub with_default_port : Options → Options
with_default_port o = if o.port == 0 then record o { port = 8558 } else o

abbrev pub with_default_host : Options → Options
with_default_host o = if is_empty o.host then record o { host = localhost } else o

unfoldable pub parse_loop : ℕ → List Bytes → Options → Outcome Options
parse_loop zero args o = err out_of_fuel
parse_loop (suc fuel) [] o = ok (with_default_host (with_default_port o))
parse_loop (suc fuel) (arg ∷ args) o = and_on (handle_arg arg args o) (parse_loop fuel)

-- Every exception is caught.
abbrev pub caught : Outcome Options → Outcome Parsed
caught (ok o) = ok (parsed o)
caught (err undefined) = err undefined
caught (err out_of_fuel) = err out_of_fuel
caught (err e) = ok failed

-- The arguments behind the name of the program: a round takes at least one of them.
unfoldable pub parse : List Bytes → Outcome Parsed
parse args = caught (parse_loop (suc (length args)) args no_options)

abbrev method_none : Bytes
method_none = b'n' ∷ b'o' ∷ b'n' ∷ b'e' ∷ []

abbrev method_basic : Bytes
method_basic = b'b' ∷ b'a' ∷ b's' ∷ b'i' ∷ b'c' ∷ []

unfoldable pub make_authentication_request : Options → AuthenticationRequest
make_authentication_request o = elim o.authentication [
  | none ↦ record { method = method_none; payload = [] }
  | some a ↦ record { method = method_basic; payload = encode_basic_token a.username a.password }
]
