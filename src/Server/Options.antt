-- ===== src/Server/Options.antt =====
-- src/server/options.cpp and .hpp: the command line of the server. A path is its text.
pub mod Items
use cpp_prototype.Common.{
  ℕ, zero, suc, Bool, true, false, not, List, [], ◌∷◌, ◌++◌, Bytes, Option, none, some, length,
  if◌then◌else◌, Outcome, ok, err, ◌>>=◌, out_of_fuel, duplicate_argument, missing_argument,
  invalid_option,
}
use cpp_prototype.Common.Arguments.{Taken, take_one, take_two, once, and_on}
use cpp_prototype.Common.Key.{bytes_key, same}
use cpp_prototype.Common.Map.{is_some}
use cpp_prototype.Io.Endpoint
use cpp_prototype.Io.Endpoint.{Endpoint, empty_endpoint}
use cpp_prototype.Server.Effects.{Regex}
use cpp_prototype.Server.Authorization.{AuthorizationSpec}
use cpp_prototype.Server.Specification.{from}

pub record TlsOptions : Type 0 where
  pub certfile : Bytes
  pub keyfile : Bytes

pub record Options : Type 0 where
  pub endpoint : Endpoint
  pub tls : Option TlsOptions
  pub authorizations : List AuthorizationSpec
  pub authorizations_file : Option Bytes
  pub password_file : Option Bytes

-- `Options {}`
abbrev pub no_options : Options
no_options = record {
  endpoint = empty_endpoint;
  tls = none;
  authorizations = [];
  authorizations_file = none;
  password_file = none;
}

-- What `parse` ends in: its result, or `exit (0)` after the usage.
pub data Parsed : Type 0 where
  parsed : Options → Parsed
  exited : Parsed

abbrev pub help_text : Bytes
help_text = b'-' ∷ b'-' ∷ b'h' ∷ b'e' ∷ b'l' ∷ b'p' ∷ []

abbrev pub endpoint_text : Bytes
endpoint_text = b'-' ∷ b'-' ∷ b'e' ∷ b'n' ∷ b'd' ∷ b'p' ∷ b'o' ∷ b'i' ∷ b'n' ∷ b't' ∷ []

abbrev pub tls_text : Bytes
tls_text = b'-' ∷ b'-' ∷ b't' ∷ b'l' ∷ b's' ∷ []

abbrev pub authorizations_file_text : Bytes
authorizations_file_text =
    b'-' ∷ b'-' ∷ b'a' ∷ b'u' ∷ b't' ∷ b'h' ∷ b'o' ∷ b'r' ∷ b'i' ∷ b'z' ∷ b'a' ∷ b't' ∷ b'i' ∷ b'o'
    ∷ b'n' ∷ b's' ∷ b'-' ∷ b'f' ∷ b'i' ∷ b'l' ∷ b'e' ∷ []

abbrev pub password_file_text : Bytes
password_file_text =
    b'-' ∷ b'-' ∷ b'p' ∷ b'a' ∷ b's' ∷ b's' ∷ b'w' ∷ b'o' ∷ b'r' ∷ b'd' ∷ b'-' ∷ b'f' ∷ b'i' ∷ b'l'
    ∷ b'e' ∷ []

abbrev pub authorization_text : Bytes
authorization_text =
    b'-' ∷ b'-' ∷ b'a' ∷ b'u' ∷ b't' ∷ b'h' ∷ b'o' ∷ b'r' ∷ b'i' ∷ b'z' ∷ b'a' ∷ b't' ∷ b'i' ∷ b'o'
    ∷ b'n' ∷ []

-- constants.cpp, and the host of the default endpoint.
abbrev pub default_endpoint : Endpoint
default_endpoint = record {
  host = b'0' ∷ b'.' ∷ b'0' ∷ b'.' ∷ b'0' ∷ b'.' ∷ b'0' ∷ [];
  port = 8558;
}

-- The default endpoint, where none is given.
unfoldable pub with_default : Options → Options
with_default o = if Endpoint.empty o.endpoint then record o { endpoint = default_endpoint } else o

module _ (rx : Regex) where
  unfoldable pub set_endpoint : Bytes → Options → Outcome Options
  set_endpoint value o =
      Endpoint.parse value >>= (λ endpoint. ok (record o { endpoint = endpoint }))

  unfoldable pub add_authorization : Bytes → Options → Outcome Options
  add_authorization value o =
      from rx value >>= (λ spec. ok (record o { authorizations = o.authorizations ++ spec ∷ [] }))

  -- The chain of tests in the loop, but for `--help`.
  unfoldable pub handle_arg : Bytes → List Bytes → Options → Outcome (Taken Options)
  handle_arg arg args o =
      if same arg endpoint_text
      then once (not (Endpoint.empty o.endpoint)) (take_one args (λ value. set_endpoint value o))
      else if same arg tls_text
      then once (is_some o.tls) (
          take_two args (λ certfile keyfile.
            ok (record o { tls = some (record { certfile = certfile; keyfile = keyfile }) })))
      else if same arg authorizations_file_text
      then once (is_some o.authorizations_file)
          (take_one args (λ file. ok (record o { authorizations_file = some file })))
      else if same arg password_file_text
      then once (is_some o.password_file)
          (take_one args (λ file. ok (record o { password_file = some file })))
      else if same arg authorization_text
      then take_one args (λ value. add_authorization value o)
      else err invalid_option

  unfoldable pub parse_loop : ℕ → List Bytes → Options → Outcome Parsed
  parse_loop zero args o = err out_of_fuel
  parse_loop (suc fuel) [] o = ok (parsed (with_default o))
  parse_loop (suc fuel) (arg ∷ args) o =
      if same arg help_text then ok exited else and_on (handle_arg arg args o) (parse_loop fuel)

  -- The arguments behind the name of the program: a round takes at least one of them.
  unfoldable pub parse : List Bytes → Outcome Parsed
  parse args = parse_loop (suc (length args)) args no_options
