-- ===== src/Io/Endpoint/RoundTrip.antt =====
-- An endpoint that has been parsed is in bounds, and one that has been printed is parsed again.
use cpp_prototype.Common.{
  ℕ, zero, suc, take, drop, subst, if_cases, ◌==◌, ==_iff, ◌<◌, ◌^◌, ◌≡◌, ◌≢◌, refl, sym, ap, ◌∙◌,
  Option-cases, Outcome-cases, inl, inr, [], ◌∷◌, ◌++◌, Bytes, All, Option, none, some, ok, arith,
}
use cpp_prototype.Common.Int.{ℤ, pos, negsuc}
use cpp_prototype.Common.Text.{stoi, decimal}
use cpp_prototype.Common.Text.Decimal.{stoi-decimal}
use cpp_prototype.Serialization.BasicToken.{find_char, split_at}
use cpp_prototype.Serialization.BasicToken.RoundTrip.{split_at-append}
use cpp_prototype.Io.Endpoint.{Endpoint, to_string, with_port, parse_parts, parse}

-- A port that can be used.
abbrev pub IsPort : ℕ → Type 0
IsPort n = (0 < n) × (n < 2 ^ 16)

find_char-split :
    (c : ℕ) (s : Bytes) (i : ℕ) → find_char c s ≡ some i → s ≡ take i s ++ c ∷ drop (suc i) s
unfolding find_char
find_char-split c [] i h = absurd cc
find_char-split c (d ∷ s) i h =
    if_cases (λ o. o ≡ some i → d ∷ s ≡ take i (d ∷ s) ++ c ∷ drop (suc i) (d ∷ s)) (d == c) _ _
      (λ e q. here i ((==_iff d c).0 e) q)
      (λ e q. elim (Option-cases (find_char c s)) [
        | inl r ↦ absurd (ground (arith, r, q))
        | inr (j, r) ↦ there i j (find_char-split c s j r) (ground (arith, r, q))
      ])
      h
  where
    here : (i : ℕ) → d ≡ c → some 0 ≡ some i → d ∷ s ≡ take i (d ∷ s) ++ c ∷ drop (suc i) (d ∷ s)
    here zero e q = ap (λ x. x ∷ s) e
    here (suc i) e q = absurd cc

    there :
        (i j : ℕ)
        → s ≡ take j s ++ c ∷ drop (suc j) s
        → i ≡ suc j
        → d ∷ s ≡ take i (d ∷ s) ++ c ∷ drop (suc i) (d ∷ s)
    there i j r q =
        subst (λ k. d ∷ s ≡ take k (d ∷ s) ++ c ∷ drop (suc k) (d ∷ s)) (sym q) (ap (◌∷◌ d) r)

split_at_sound : (c : ℕ) (s a b : Bytes) → split_at c s ≡ some (a, b) → s ≡ a ++ c ∷ b
unfolding split_at
split_at_sound c s a b h = elim (Option-cases (find_char c s)) [
  | inl e ↦ absurd (ground (arith, e, h))
  | inr (i, e) ↦
      let q : ◌≡◌ {A = Option (Bytes × Bytes)} (some (take i s, drop (suc i) s)) (some (a, b)) =
        ground (arith, e, h) in
      find_char-split c s i e ∙ ground (arith, q)
]

-- The text of a usable endpoint: the host, a colon, and what std::stoi reads as the port.
pub record IsTextOf (text : Bytes) (e : Endpoint) : Type 0 where
  pub port : IsPort e.port
  pub rest : Bytes
  pub parts : text ≡ e.host ++ b':' ∷ rest
  pub number : stoi rest ≡ ok (pos e.port)

with_port_ok :
    (host : Bytes) (n : ℕ) (e : Endpoint)
    → with_port host (pos n) ≡ ok e
    → IsPort n × (◌≡◌ {A = Endpoint} (record { host = host; port = n }) e)
with_port_ok host n e h = ground (arith, h)

with_port-IsTextOf :
    (host port : Bytes) (i : ℤ) (e : Endpoint)
    → stoi port ≡ ok i
    → with_port host i ≡ ok e
    → IsTextOf (host ++ b':' ∷ port) e
with_port-IsTextOf host port (negsuc n) e q h = absurd cc
with_port-IsTextOf host port (pos n) e q h =
    let k = with_port_ok host n e h in
    subst (IsTextOf (host ++ b':' ∷ port)) k.1
      (record { port = k.0; rest = port; parts = refl; number = q })

parse_parts-IsTextOf :
    (o : Option (Bytes × Bytes)) (text : Bytes) (e : Endpoint)
    → split_at b':' text ≡ o
    → parse_parts o ≡ ok e
    → IsTextOf text e
parse_parts-IsTextOf none text e s h = absurd cc
parse_parts-IsTextOf (some (host, port)) text e s h = elim (Outcome-cases (stoi port)) [
  | inl (i, q) ↦
      subst (λ t. IsTextOf t e) (sym (split_at_sound b':' text host port s))
        (with_port-IsTextOf host port i e q (ground (arith, q, h)))
  | inr (x, q) ↦ absurd (ground (arith, q, h))
]

-- Whatever text is parsed to an endpoint is its host, a colon, and a rest that std::stoi reads as
-- its port; and the port is above 0 and below 2 ^ 16.
pub parse-IsTextOf : (text : Bytes) (e : Endpoint) → parse text ≡ ok e → IsTextOf text e
unfolding parse
parse-IsTextOf text e h = parse_parts-IsTextOf (split_at b':' text) text e refl h

-- An endpoint whose host has no colon, and whose port is above 0 and below 2 ^ 16, is parsed
-- again from its text.
pub parse-to_string :
    (e : Endpoint) → All (λ c. c ≢ b':') e.host → IsPort e.port → parse (to_string e) ≡ ok e
unfolding parse to_string
parse-to_string e h p =
    ap parse_parts (split_at-append b':' e.host (decimal e.port) h)
    ∙ ground (arith, stoi-decimal e.port (omega arith), p)
