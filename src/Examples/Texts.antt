-- ===== src/Examples/Texts.antt =====
-- The texts of the command line, at concrete inputs.
use cpp_prototype.Common.{◌≡◌, refl, List, [], ◌∷◌, Bytes, map, concat, ok, arith}
use cpp_prototype.Common.Int.{pos, negsuc}
use cpp_prototype.Common.Text.{stoi, skip_space, signed, unsigned, scan}
use cpp_prototype.Serialization.BasicToken.{find_char, split_at}
use cpp_prototype.Io.Endpoint
use cpp_prototype.Io.Endpoint.{Endpoint}
use cpp_prototype.Io.Endpoint.RoundTrip.{IsTextOf, parse-IsTextOf}
use cpp_prototype.Server.Authorization.{role_none}
use cpp_prototype.Server.Specification.{from}
use cpp_prototype.Server.Specification.RoundTrip.{
  subscriber_role, notifier_role, set_of, all_of, to_text, from-to_text,
}
use cpp_prototype.Server.Options.{no_options, parse}
use cpp_prototype.Server.Options.Items.{
  Item, endpoint_item, password_file_item, args_of, finish, apply_all, parse-items,
}
use cpp_prototype.Examples.World.{rx}

abbrev local : Endpoint
local = record { host = b'h' ∷ []; port = 80 }

-- "h: 80x", which std::stoi reads as 80.
abbrev local_text : Bytes
local_text = b'h' ∷ b':' ∷ b' ' ∷ b'8' ∷ b'0' ∷ b'x' ∷ []

local_text-parsed : Endpoint.parse local_text ≡ ok local
unfolding Endpoint.parse split_at find_char stoi skip_space signed unsigned scan
local_text-parsed = refl

parse-IsTextOf_example : IsTextOf local_text local
parse-IsTextOf_example = parse-IsTextOf local_text local local_text-parsed

from-to_text_example :
    from rx (
      to_text
        (b't' ∷ [])
        (b'u' ∷ [])
        (pos 10 ∷ negsuc 2 ∷ [])
        (subscriber_role ∷ notifier_role ∷ []))
    ≡ ok (record {
      user_pattern = b'u' ∷ [];
      topic_pattern = b't' ∷ [];
      entitlements = set_of (pos 10 ∷ negsuc 2 ∷ []) [];
      roles = all_of (subscriber_role ∷ notifier_role ∷ []) role_none;
    })
from-to_text_example =
    from-to_text rx (b't' ∷ []) (b'u' ∷ []) (pos 10 ∷ negsuc 2 ∷ [])
      (subscriber_role ∷ notifier_role ∷ []) (λ e. cc) ((λ e. omega arith), tt)
      ((λ e. omega arith), tt) (omega arith, (omega arith, tt)) refl refl

abbrev items : List Item
items = endpoint_item local_text ∷ password_file_item (b'p' ∷ []) ∷ []

parse-items_example :
    parse rx (concat (map args_of items)) ≡ finish rx (apply_all rx items no_options)
parse-items_example = parse-items rx items
