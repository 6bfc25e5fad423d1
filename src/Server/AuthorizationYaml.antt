-- ===== src/Server/AuthorizationYaml.antt =====
-- src/server/authorization_yaml.hpp: how roles and authorizations are read from a YAML file, and
-- written to one. The nodes of yaml-cpp are an argument.
use cpp_prototype.Common.{
  ◌≡◌, refl, ap, ◌∙◌, Bool, true, ◌==◌, if◌then◌else◌, List, [], ◌∷◌, ◌++◌, map, Bytes, Option,
  none, some, Outcome, ok, err, ◌>>=◌, bad_conversion,
}
use cpp_prototype.Common.Int.{ℤ}
use cpp_prototype.Common.Key.{bytes_key, lexicographic, same}
use cpp_prototype.Server.Authorization.{
  Role, role_none, subscriber, publisher, notifier, role_or, role_and, Authorization,
}
use cpp_prototype.Server.Specification.{subscriber_text, publisher_text, notifier_text}
use cpp_prototype.Server.Specification.RoundTrip.{
  Named, subscriber_role, publisher_role, notifier_role, text_of, value_of, all_of,
}

-- What a node is, what it has under a key, its elements, and its conversions, which may throw.
pub record Nodes (N : Type 0) : Type 0 where
  pub is_sequence : N → Bool
  pub is_map : N → Bool
  pub elements : N → List N
  pub under : Bytes → N → N
  pub as_string : N → Outcome Bytes
  pub as_ints : N → Outcome (List ℤ)

abbrev pub entitlements_key : Bytes
entitlements_key =
    b'e' ∷ b'n' ∷ b't' ∷ b'i' ∷ b't' ∷ b'l' ∷ b'e' ∷ b'm' ∷ b'e' ∷ b'n' ∷ b't' ∷ b's' ∷ []

abbrev pub roles_key : Bytes
roles_key = b'r' ∷ b'o' ∷ b'l' ∷ b'e' ∷ b's' ∷ []

-- The tests in the loop of `convert<Role>::decode`: a name that is none of the three is ignored.
abbrev add_notifier : Bytes → Role → Role
add_notifier name role = if same name notifier_text then role_or role notifier else role

unfoldable pub add_name : Bytes → Role → Role
add_name name role = add_notifier name (
    if same name subscriber_text
    then role_or role subscriber
    else if same name publisher_text
    then role_or role publisher
    else role)

-- `convert<Role>::encode`: the names that are pushed to the node.
unfoldable pub encode_role : Role → List Bytes
encode_role role =
    (if role_and role subscriber == subscriber then [] else subscriber_text ∷ [])
    ++ ((if role_and role notifier == notifier then [] else notifier_text ∷ [])
        ++ (if role_and role publisher == publisher then [] else publisher_text ∷ []))

module _ {N : Type 0} (yaml : Nodes N) where
  unfoldable pub add_names : List N → Role → Outcome Role
  add_names [] role = ok role
  add_names (node ∷ nodes) role =
      yaml.as_string node >>= (λ name. add_names nodes (add_name name role))

  -- `convert<Role>::decode`, which returns false where there is no role.
  unfoldable pub decode_role : N → Outcome (Option Role)
  decode_role node =
      if yaml.is_sequence node
      then (add_names (yaml.elements node) role_none >>= (λ role. ok (some role)))
      else ok none

  abbrev pub converted {ℓ} : {A : Type ℓ} → Option A → Outcome A
  converted none = err bad_conversion
  converted (some a) = ok a

  -- `convert<Authorization>::decode`
  unfoldable pub decode_authorization : N → Outcome (Option Authorization)
  decode_authorization node =
      let decoded = yaml.as_ints (yaml.under entitlements_key node) >>= (λ entitlements.
        decode_role (yaml.under roles_key node) >>= (λ found.
          converted found
          >>= (λ role. ok (some (record { entitlements = entitlements; role = role }))))) in
      if yaml.is_map node then decoded else ok none

  add_name-text_of :
      (n : Named) (role : Role) → add_name (text_of n) role ≡ role_or role (value_of n)
  unfolding add_name lexicographic
  add_name-text_of subscriber_role role = refl
  add_name-text_of publisher_role role = refl
  add_name-text_of notifier_role role = refl

  add_names-all_of :
      (nodes : List N) (ns : List Named) (role : Role)
      → map yaml.as_string nodes ≡ map (λ n. ok (text_of n)) ns
      → add_names nodes role ≡ ok (all_of ns role)
  unfolding add_names all_of
  add_names-all_of [] [] role e = refl
  add_names-all_of [] (n ∷ ns) role e = absurd cc
  add_names-all_of (node ∷ nodes) [] role e = absurd cc
  add_names-all_of (node ∷ nodes) (n ∷ ns) role e =
      let head : yaml.as_string node ≡ ok (text_of n) = cc in
      let tail : map yaml.as_string nodes ≡ map (λ n. ok (text_of n)) ns = cc in
      ap (λ o. o >>= (λ name. add_names nodes (add_name name role))) head
      ∙ ap (add_names nodes) (add_name-text_of n role)
      ∙ add_names-all_of nodes ns (role_or role (value_of n)) tail

  -- The entry of an authorization file with entitlements and the names of roles is decoded to these
  -- entitlements and all these roles, which the command line gives for the same names.
  pub decode_authorization-all_of :
      (node : N) (es : List ℤ) (ns : List Named)
      → yaml.is_map node ≡ true
      → yaml.as_ints (yaml.under entitlements_key node) ≡ ok es
      → yaml.is_sequence (yaml.under roles_key node) ≡ true
      → map yaml.as_string (yaml.elements (yaml.under roles_key node))
        ≡ map (λ n. ok (text_of n)) ns
      → decode_authorization node
        ≡ ok (some (record { entitlements = es; role = all_of ns role_none }))
  unfolding decode_authorization decode_role
  decode_authorization-all_of node es ns is_map ints is_sequence names =
      rw (is_map, ints, is_sequence, add_names-all_of _ ns role_none names) refl
