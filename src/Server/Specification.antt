-- ===== src/Server/Specification.antt =====
-- src/server/authorization_spec.cpp: a specification on the command line.
pub mod RoundTrip
use cpp_prototype.Common.{
  ℕ, Bool, true, false, List, [], ◌∷◌, Bytes, if◌then◌else◌, Outcome, ok, err, ◌>>=◌, wrong_parts,
  unknown_role,
}
use cpp_prototype.Common.Int.{ℤ}
use cpp_prototype.Common.Key.{bytes_key, ℤ_key, same}
use cpp_prototype.Common.Set
use cpp_prototype.Common.Set.{Set}
use cpp_prototype.Common.Text.{stoi, split}
use cpp_prototype.Server.Effects.{Regex}
use cpp_prototype.Server.Authorization.{
  Role, role_none, subscriber, publisher, notifier, role_or, AuthorizationSpec, make_spec,
}

abbrev pub subscriber_text : Bytes
subscriber_text = b'S' ∷ b'u' ∷ b'b' ∷ b's' ∷ b'c' ∷ b'r' ∷ b'i' ∷ b'b' ∷ b'e' ∷ b'r' ∷ []

abbrev pub publisher_text : Bytes
publisher_text = b'P' ∷ b'u' ∷ b'b' ∷ b'l' ∷ b'i' ∷ b's' ∷ b'h' ∷ b'e' ∷ b'r' ∷ []

abbrev pub notifier_text : Bytes
notifier_text = b'N' ∷ b'o' ∷ b't' ∷ b'i' ∷ b'f' ∷ b'i' ∷ b'e' ∷ b'r' ∷ []

unfoldable pub role_of : Bytes → Outcome Role
role_of text =
    if same text subscriber_text
    then ok subscriber
    else if same text publisher_text
    then ok publisher
    else if same text notifier_text
    then ok notifier
    else err unknown_role

-- The third part: std::stoi of each entitlement, into a set.
unfoldable pub read_entitlements : List Bytes → Set ℤ → Outcome (Set ℤ)
read_entitlements [] s = ok s
read_entitlements (text ∷ texts) s = stoi text >>= (λ e. read_entitlements texts (Set.insert e s))

-- The fourth: the fold of the roles by `|`.
unfoldable pub read_roles : List Bytes → Role → Outcome Role
read_roles [] role = ok role
read_roles (text ∷ texts) role = role_of text >>= (λ r. read_roles texts (role_or role r))

-- The four parts, the topic pattern first.
unfoldable pub from_parts : Regex → List Bytes → Outcome AuthorizationSpec
from_parts rx [] = err wrong_parts
from_parts rx (a ∷ []) = err wrong_parts
from_parts rx (a ∷ b ∷ []) = err wrong_parts
from_parts rx (a ∷ b ∷ c ∷ []) = err wrong_parts
from_parts rx (topic_pattern ∷ user_pattern ∷ entitlements ∷ roles ∷ []) =
    read_entitlements (split b',' entitlements) [] >>= (λ es.
      read_roles (split b',' roles) role_none
      >>= (λ r. make_spec rx user_pattern topic_pattern es r))
from_parts rx (a ∷ b ∷ c ∷ d ∷ e ∷ rest) = err wrong_parts

unfoldable pub from : Regex → Bytes → Outcome AuthorizationSpec
from rx line = from_parts rx (split b':' line)
