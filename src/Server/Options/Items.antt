-- ===== src/Server/Options/Items.antt =====
-- The loop over the command line ends, and is the sequence of its items.
use cpp_prototype.Common.{
  ℕ, zero, suc, ◌<◌, ◌≡◌, refl, sym, ap, ◌∙◌, Bool, true, false, not, List, [], ◌∷◌, ◌++◌, map,
  Bytes, concat, some, length, length-append, if◌then◌else◌, if_intro, inl, inr, Bool-cases,
  Outcome, ok, err, ◌>>=◌, duplicate_argument, arith,
}
use cpp_prototype.Common.Arguments.{
  once, and_on, Shrinks, take_one-Shrinks, take_two-Shrinks, once-Shrinks, and_on_fuel,
}
use cpp_prototype.Common.Key.{bytes_key, same, lexicographic}
use cpp_prototype.Common.Map.{is_some}
use cpp_prototype.Io.Endpoint
use cpp_prototype.Io.Endpoint.{Endpoint}
use cpp_prototype.Server.Specification.{from}
use cpp_prototype.Server.Effects.{Regex}
use cpp_prototype.Server.Options.{
  Options, Parsed, parsed, exited, help_text, endpoint_text, tls_text, authorizations_file_text,
  password_file_text, authorization_text, no_options, set_endpoint, add_authorization, handle_arg,
  with_default, parse_loop, parse,
}

module _ (rx : Regex) where
  handle_arg-Shrinks :
      (arg : Bytes) (args : List Bytes) (o : Options) → Shrinks args (handle_arg rx arg args o)
  unfolding handle_arg
  handle_arg-Shrinks arg args o =
      if_intro (Shrinks args) (same arg endpoint_text) _ _
        (once-Shrinks args _ _ (take_one-Shrinks args _))
        (if_intro (Shrinks args) (same arg tls_text) _ _
          (once-Shrinks args _ _ (take_two-Shrinks args _))
          (if_intro (Shrinks args) (same arg authorizations_file_text) _ _
            (once-Shrinks args _ _ (take_one-Shrinks args _))
            (if_intro (Shrinks args) (same arg password_file_text) _ _
              (once-Shrinks args _ _ (take_one-Shrinks args _))
              (if_intro (Shrinks args) (same arg authorization_text) _ _ (take_one-Shrinks args _)
                (λ o' rest e. absurd cc)))))

  -- Enough fuel is enough: more of it changes nothing.
  pub parse_loop_fuel :
      (n m : ℕ) (args : List Bytes) (o : Options)
      → length args < n
      → length args < m
      → parse_loop rx n args o ≡ parse_loop rx m args o
  unfolding parse_loop
  parse_loop_fuel zero m args o h k = absurd (omega arith)
  parse_loop_fuel (suc n) zero args o h k = absurd (omega arith)
  parse_loop_fuel (suc n) (suc m) [] o h k = refl
  parse_loop_fuel (suc n) (suc m) (arg ∷ args) o h k =
      ap (λ r. if same arg help_text then ok exited else r)
        (and_on_fuel args (handle_arg rx arg args o) (parse_loop rx n) (parse_loop rx m)
          (handle_arg-Shrinks arg args o)
          (λ rest o' l. parse_loop_fuel n m rest o' (omega arith) (omega arith)))

-- What one may write on the command line, and its arguments.
pub data Item : Type 0 where
  endpoint_item : Bytes → Item
  tls_item : Bytes → Bytes → Item
  authorizations_file_item : Bytes → Item
  password_file_item : Bytes → Item
  authorization_item : Bytes → Item

abbrev pub args_of : Item → List Bytes
args_of (endpoint_item value) = endpoint_text ∷ value ∷ []
args_of (tls_item certfile keyfile) = tls_text ∷ certfile ∷ keyfile ∷ []
args_of (authorizations_file_item file) = authorizations_file_text ∷ file ∷ []
args_of (password_file_item file) = password_file_text ∷ file ∷ []
args_of (authorization_item value) = authorization_text ∷ value ∷ []

abbrev pub unless_given : Bool → Outcome Options → Outcome Options
unless_given is_given r = if is_given then err duplicate_argument else r

-- An endpoint that has a host or a port.
abbrev pub has_any : Bytes → ℕ → Bool
has_any [] zero = false
has_any [] (suc port) = true
has_any (c ∷ host) port = true

abbrev pub is_set : Endpoint → Bool
is_set e = has_any e.host e.port

-- Port 8558 of all addresses, where no endpoint is set.
abbrev pub or_any : Endpoint → Endpoint
or_any e =
    if is_set e
    then e
    else record { host = b'0' ∷ b'.' ∷ b'0' ∷ b'.' ∷ b'0' ∷ b'.' ∷ b'0' ∷ []; port = 8558 }

has_any-empty :
    (host : Bytes) (port : ℕ)
    → not (Endpoint.empty (record { host = host; port = port })) ≡ has_any host port
unfolding Endpoint.empty
has_any-empty [] zero = refl
has_any-empty [] (suc port) = ground arith
has_any-empty (c ∷ host) port = refl

empty_lem : (e : Endpoint) → Endpoint.empty e ≡ not (is_set e)
empty_lem e = ground (arith, has_any-empty e.host e.port)

with_default_lem : (o : Options) → with_default o ≡ record o { endpoint = or_any o.endpoint }
unfolding with_default
with_default_lem o = elim (Bool-cases (is_set o.endpoint)) [
  | inl h ↦ rw (empty_lem o.endpoint, h) refl
  | inr h ↦ rw (empty_lem o.endpoint, h) refl
]

module _ (rx : Regex) where
  -- The meaning of an item: all but an authorization may be given once.
  unfoldable pub apply : Item → Options → Outcome Options
  apply (endpoint_item value) o =
      unless_given (is_set o.endpoint)
        (Endpoint.parse value >>= (λ endpoint. ok (record o { endpoint = endpoint })))
  apply (tls_item certfile keyfile) o =
      unless_given (is_some o.tls)
        (ok (record o { tls = some (record { certfile = certfile; keyfile = keyfile }) }))
  apply (authorizations_file_item file) o =
      unless_given (is_some o.authorizations_file)
        (ok (record o { authorizations_file = some file }))
  apply (password_file_item file) o =
      unless_given (is_some o.password_file) (ok (record o { password_file = some file }))
  apply (authorization_item value) o =
      from rx value >>= (λ spec. ok (record o { authorizations = o.authorizations ++ spec ∷ [] }))

  unfoldable pub apply_all : List Item → Options → Outcome Options
  apply_all [] o = ok o
  apply_all (item ∷ items) o = apply item o >>= apply_all items

  abbrev pub finish : Outcome Options → Outcome Parsed
  finish r = r >>= (λ o. ok (parsed (record o { endpoint = or_any o.endpoint })))

  once_lem :
      (b : Bool) (r : Outcome Options) (rest : List Bytes)
      (f : List Bytes → Options → Outcome Parsed)
      → and_on (once b (r >>= (λ o. ok (o, rest)))) f ≡ (unless_given b r >>= f rest)
  once_lem true r rest f = refl
  once_lem false (ok o) rest f = refl
  once_lem false (err e) rest f = refl

  item_lem :
      (item : Item) (fuel : ℕ) (rest : List Bytes) (o : Options)
      → parse_loop rx (suc fuel) (args_of item ++ rest) o
        ≡ (apply item o >>= parse_loop rx fuel rest)
  unfolding parse_loop handle_arg apply lexicographic set_endpoint add_authorization
  item_lem (endpoint_item value) fuel rest o =
      ap
        (λ b.
          and_on (once b (set_endpoint rx value o >>= (λ x. ok (x, rest)))) (parse_loop rx fuel))
        (has_any-empty o.endpoint.host o.endpoint.port)
      ∙ once_lem (is_set o.endpoint) (set_endpoint rx value o) rest (parse_loop rx fuel)
  item_lem (tls_item certfile keyfile) fuel rest o =
      once_lem (is_some o.tls) _ rest (parse_loop rx fuel)
  item_lem (authorizations_file_item file) fuel rest o =
      once_lem (is_some o.authorizations_file) _ rest (parse_loop rx fuel)
  item_lem (password_file_item file) fuel rest o =
      once_lem (is_some o.password_file) _ rest (parse_loop rx fuel)
  item_lem (authorization_item value) fuel rest o =
      once_lem false (add_authorization rx value o) rest (parse_loop rx fuel)

  bind_ext :
      (r : Outcome Options) (f g : Options → Outcome Parsed)
      → ((o : Options) → f o ≡ g o)
      → (r >>= f) ≡ (r >>= g)
  bind_ext (ok o) f g h = h o
  bind_ext (err e) f g h = refl

  bind_assoc :
      (r : Outcome Options) (f : Options → Outcome Options)
      → finish (r >>= f) ≡ (r >>= (λ o. finish (f o)))
  bind_assoc (ok o) f = refl
  bind_assoc (err e) f = refl

  args_of-ne : (item : Item) → 0 < length (args_of item)
  args_of-ne (endpoint_item value) = omega arith
  args_of-ne (tls_item certfile keyfile) = omega arith
  args_of-ne (authorizations_file_item file) = omega arith
  args_of-ne (password_file_item file) = omega arith
  args_of-ne (authorization_item value) = omega arith

  loop-items :
      (fuel : ℕ) (items : List Item) (o : Options)
      → length (concat (map args_of items)) < fuel
      → parse_loop rx fuel (concat (map args_of items)) o ≡ finish (apply_all items o)
  unfolding apply_all parse_loop
  loop-items zero items o h = absurd (omega arith)
  loop-items (suc fuel) [] o h = ap (λ x. ok (parsed x)) (with_default_lem o)
  loop-items (suc fuel) (item ∷ items) o h =
      let rest = concat (map args_of items) in
      let less : length rest < fuel =
        omega (arith, length-append (args_of item) rest, args_of-ne item, h) in
      item_lem item fuel rest o
      ∙ bind_ext (apply item o) _ _ (λ o'. loop-items fuel items o' less)
      ∙ sym (bind_assoc (apply item o) (apply_all items))

  -- A command line that is made of items is parsed to what the items say one after the other: an
  -- endpoint, the two files of TLS, an authorization file, a password file, and authorizations,
  -- which are kept in order. Where no item sets the endpoint, it is port 8558 of 0.0.0.0. An item
  -- other than an authorization that is given twice is an exception, and so is a value that does
  -- not parse.
  pub parse-items :
      (items : List Item)
      → parse rx (concat (map args_of items)) ≡ finish (apply_all items no_options)
  unfolding parse
  parse-items items =
      loop-items (suc (length (concat (map args_of items)))) items no_options (omega arith)
