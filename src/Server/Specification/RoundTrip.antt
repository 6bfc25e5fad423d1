-- ===== src/Server/Specification/RoundTrip.antt =====
-- A specification is read back from its text.
use cpp_prototype.Common.{
  ℕ, suc, ◌≡◌, ◌≢◌, refl, ap, ◌∙◌, List, [], ◌∷◌, map, Bytes, All, All-append, All-imply, All-map,
  true, ok, ◌>>=◌, arith,
}
use cpp_prototype.Common.Int.{ℤ, pos, negsuc, IsInt32}
use cpp_prototype.Common.Key.{bytes_key, ℤ_key, lexicographic}
use cpp_prototype.Common.Set
use cpp_prototype.Common.Set.{Set}
use cpp_prototype.Common.Text.{decimal, decimal_int, split}
use cpp_prototype.Common.Text.Decimal.{decimal-AllDigits, decimal-ne, stoi-decimal_int}
use cpp_prototype.Common.Text.Splitting.{join, Lacks, split-join}
use cpp_prototype.Server.Effects.{Regex}
use cpp_prototype.Server.Authorization.{
  Role, role_none, subscriber, publisher, notifier, role_or, make_spec,
}
use cpp_prototype.Server.Specification.{
  subscriber_text, publisher_text, notifier_text, role_of, read_entitlements, read_roles,
  from_parts, from,
}

-- The roles that have a name.
pub data Named : Type 0 where
  subscriber_role publisher_role notifier_role : Named

abbrev pub text_of : Named → Bytes
text_of subscriber_role = subscriber_text
text_of publisher_role = publisher_text
text_of notifier_role = notifier_text

abbrev pub value_of : Named → Role
value_of subscriber_role = subscriber
value_of publisher_role = publisher
value_of notifier_role = notifier

-- The set of the entitlements, and all the roles together.
unfoldable pub set_of : List ℤ → Set ℤ → Set ℤ
set_of [] s = s
set_of (e ∷ es) s = set_of es (Set.insert e s)

unfoldable pub all_of : List Named → Role → Role
all_of [] role = role
all_of (n ∷ ns) role = all_of ns (role_or role (value_of n))

role_of-text_of : (n : Named) → role_of (text_of n) ≡ ok (value_of n)
unfolding role_of lexicographic
role_of-text_of subscriber_role = refl
role_of-text_of publisher_role = refl
role_of-text_of notifier_role = refl

read_roles-text_of :
    (ns : List Named) (role : Role) → read_roles (map text_of ns) role ≡ ok (all_of ns role)
unfolding read_roles all_of
read_roles-text_of [] role = refl
read_roles-text_of (n ∷ ns) role =
    ap (λ o. o >>= (λ r. read_roles (map text_of ns) (role_or role r))) (role_of-text_of n)
    ∙ read_roles-text_of ns (role_or role (value_of n))

read_entitlements-decimal_int :
    (es : List ℤ) (s : Set ℤ)
    → All IsInt32 es
    → read_entitlements (map decimal_int es) s ≡ ok (set_of es s)
unfolding read_entitlements set_of
read_entitlements-decimal_int [] s h = refl
read_entitlements-decimal_int (e ∷ es) s h =
    ap (λ o. o >>= (λ x. read_entitlements (map decimal_int es) (Set.insert x s)))
      (stoi-decimal_int e h.0)
    ∙ read_entitlements-decimal_int es (Set.insert e s) h.1

-- A text that has neither a comma nor a colon, and is not empty.
abbrev IsPlain : Bytes → Type 0
IsPlain text = (text ≢ []) × Lacks b',' text × Lacks b':' text

decimal-IsPlain : (n : ℕ) → IsPlain (decimal n)
decimal-IsPlain n = (
  decimal-ne n,
  All-imply _ _ (decimal n) (λ d p e. omega arith) (decimal-AllDigits n),
  All-imply _ _ (decimal n) (λ d p e. omega arith) (decimal-AllDigits n),
)

decimal_int-IsPlain : (i : ℤ) → IsPlain (decimal_int i)
unfolding decimal_int
decimal_int-IsPlain (pos n) = decimal-IsPlain n
decimal_int-IsPlain (negsuc n) =
    let (filled, no_comma, no_colon) = decimal-IsPlain (suc n) in
    (λ e. cc, (omega arith, no_comma), (omega arith, no_colon))

text_of-IsPlain : (n : Named) → IsPlain (text_of n)
text_of-IsPlain subscriber_role = (λ e. cc, omega arith, omega arith)
text_of-IsPlain publisher_role = (λ e. cc, omega arith, omega arith)
text_of-IsPlain notifier_role = (λ e. cc, omega arith, omega arith)

-- A list in one part: it has no colon, and its commas separate it.
listed_split : (texts : List Bytes) → All IsPlain texts → split b',' (join b',' texts) ≡ texts
unfolding split join
listed_split [] h = refl
listed_split (text ∷ texts) h =
    split-join b',' text texts h.0.0
      (All-imply IsPlain (Lacks b',') (text ∷ texts) (λ (t : Bytes) (p : IsPlain t). p.1) h)

listed-Lacks : (texts : List Bytes) → All IsPlain texts → Lacks b':' (join b',' texts)
unfolding join
listed-Lacks [] h = tt
listed-Lacks (text ∷ []) h = h.0.2
listed-Lacks (text ∷ next ∷ rest) h =
    All-append _ text (b',' ∷ join b',' (next ∷ rest)) h.0.2
      (omega arith, listed-Lacks (next ∷ rest) h.1)

-- The text of a specification: topic pattern, user pattern, entitlements and roles.
unfoldable pub to_text : Bytes → Bytes → List ℤ → List Named → Bytes
to_text topic_pattern user_pattern es ns = join b':' (
    topic_pattern ∷ user_pattern ∷ join b',' (map decimal_int es) ∷ join b',' (map text_of ns) ∷ [])

-- The text of a topic pattern, a user pattern, entitlements and roles, in that order, separated
-- by colons and by commas, is read as the specification with these patterns, the set of these
-- entitlements, and all these roles, where both patterns compile and have no colon, the topic
-- pattern is not empty, and the entitlements are 32-bit integers. The README and the usage text
-- give the user pattern first: the code does not read them so.
pub from-to_text :
    (rx : Regex) (topic_pattern user_pattern : Bytes) (es : List ℤ) (ns : List Named)
    → topic_pattern ≢ []
    → Lacks b':' topic_pattern
    → Lacks b':' user_pattern
    → All IsInt32 es
    → rx.is_valid user_pattern ≡ true
    → rx.is_valid topic_pattern ≡ true
    → from rx (to_text topic_pattern user_pattern es ns)
      ≡ ok (record {
        user_pattern = user_pattern;
        topic_pattern = topic_pattern;
        entitlements = set_of es [];
        roles = all_of ns role_none;
      })
unfolding from from_parts to_text make_spec
from-to_text rx topic_pattern user_pattern es ns n t u h valid valid' =
    let es_plain = All-map IsPlain decimal_int es decimal_int-IsPlain in
    let ns_plain = All-map IsPlain text_of ns text_of-IsPlain in
    let fields =
      split-join b':' topic_pattern
        (user_pattern ∷ join b',' (map decimal_int es) ∷ join b',' (map text_of ns) ∷ []) n
        (
          t,
          (
            u,
            (
              listed-Lacks (map decimal_int es) es_plain,
              (listed-Lacks (map text_of ns) ns_plain, tt),
            ),
          ),
        ) in
    ap (from_parts rx) fields
    ∙ ap
        (λ o. o >>= (λ e.
          read_roles (split b',' (join b',' (map text_of ns))) role_none
          >>= (λ r. make_spec rx user_pattern topic_pattern e r)))
        (ap (λ s. read_entitlements s []) (listed_split (map decimal_int es) es_plain)
          ∙ read_entitlements-decimal_int es [] h)
    ∙ ap (λ o. o >>= (λ r. make_spec rx user_pattern topic_pattern (set_of es []) r))
        (ap (λ s. read_roles s role_none) (listed_split (map text_of ns) ns_plain)
          ∙ read_roles-text_of ns role_none)
    ∙ rw (valid, valid') refl
