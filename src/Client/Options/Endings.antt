-- ===== src/Client/Options/Endings.antt =====
-- How the parsing of the client's command line ends.
use cpp_prototype.Common.{
  ℕ, zero, suc, ◌<◌, ◌^◌, ◌==◌, ◌≡◌, ◌≢◌, refl, ap, subst, sym, List, [], ◌∷◌, Bytes, Option, none,
  some, length, leb, if◌then◌else◌, ◌>>=◌, undefined, out_of_fuel, if_intro, if_cases, Outcome, ok,
  err, ltb, arith,
}
use cpp_prototype.Common.Arguments.{
  Taken, and_on, Shrinks, take_one-Shrinks, take_two-Shrinks, once-Shrinks, Sets, Takes,
  take_one-Takes, take_two-Takes, once-Takes,
}
use cpp_prototype.Common.Int.{ℤ, pos, negsuc}
use cpp_prototype.Common.Key.{bytes_key, same}
use cpp_prototype.Common.Text.{stoi, positive, negative, signed, skip_space, unsigned}
use cpp_prototype.Client.Options.{
  Options, Parsed, parsed, failed, no_options, port_text, host_text, tls_text, capath_text,
  authentication_text, is_empty, localhost, with_port, set_port, handle_arg, with_default_port,
  with_default_host, parse_loop, caught, parse,
}

abbrev HasPort : Options → Type 0
HasPort o = o.port < 2 ^ 16

-- Options with which the client can connect.
pub record IsUsable (o : Options) : Type 0 where
  pub port_given : 0 < o.port
  pub port_fits : o.port < 2 ^ 16
  pub host_given : o.host ≢ []

-- The program goes on with options that it can use, or exits: there is no other ending.
abbrev pub Ends : Outcome Parsed → Type 0
Ends (ok (parsed o)) = IsUsable o
Ends (ok failed) = Unit
Ends (err e) = ⊥

handle_arg-Shrinks :
    (arg : Bytes) (args : List Bytes) (o : Options) → Shrinks args (handle_arg arg args o)
unfolding handle_arg
handle_arg-Shrinks arg args o =
    if_intro (Shrinks args) (same arg port_text) _ _
      (once-Shrinks args _ _ (take_one-Shrinks args _))
      (if_intro (Shrinks args) (same arg host_text) _ _
        (once-Shrinks args _ _ (take_one-Shrinks args _))
        (if_intro (Shrinks args) (same arg tls_text) _ _ (λ o' rest e. ground (arith, e))
          (if_intro (Shrinks args) (same arg capath_text) _ _
            (once-Shrinks args _ _ (take_one-Shrinks args _))
            (if_intro (Shrinks args) (same arg authentication_text) _ _ (take_two-Shrinks args _)
              (λ o' rest e. absurd cc)))))

with_port-Sets : (o : Options) (i : ℤ) → Sets HasPort (with_port o i)
with_port-Sets o (negsuc n) = tt
with_port-Sets o (pos n) =
    if_intro (Sets HasPort) (n == 0) _ _ tt
      (if_cases (Sets HasPort) (ltb 65535 n) _ _ (λ h. tt) (λ h. ground (arith, h)))

abbrev Throws : Outcome ℤ → Type 0
Throws = Sets (λ i. Unit {0})

positive-Throws : (n : Option ℕ) → Throws (positive n)
positive-Throws none = tt
positive-Throws (some n) = if_intro Throws (ltb n (2 ^ 31)) _ _ tt tt

negative-Throws : (n : Option ℕ) → Throws (negative n)
negative-Throws none = tt
negative-Throws (some n) = if_intro Throws (leb n (2 ^ 31)) _ _ tt tt

signed-Throws : (s : Bytes) → Throws (signed s)
unfolding signed
signed-Throws [] = tt
signed-Throws (c ∷ s) = if_intro Throws (c == b'-') _ _ (negative-Throws (unsigned s)) (
    if_intro Throws (c == b'+') _ _ (positive-Throws (unsigned s))
      (positive-Throws (unsigned (c ∷ s))))

after_number : (o : Options) (r : Outcome ℤ) → Throws r → Sets HasPort (r >>= with_port o)
after_number o (ok i) h = with_port-Sets o i
after_number o (err e) h = h

set_port-Sets : (value : Bytes) (o : Options) → Sets HasPort (set_port value o)
unfolding set_port stoi
set_port-Sets value o = after_number o (stoi value) (signed-Throws (skip_space value))

handle_arg-Takes :
    (arg : Bytes) (args : List Bytes) (o : Options)
    → HasPort o
    → Takes HasPort (handle_arg arg args o)
unfolding handle_arg
handle_arg-Takes arg args o h =
    if_intro (Takes HasPort) (same arg port_text) _ _
      (once-Takes HasPort _ _ (take_one-Takes HasPort args _ (λ value. set_port-Sets value o)))
      (if_intro (Takes HasPort) (same arg host_text) _ _
        (once-Takes HasPort _ _ (take_one-Takes HasPort args _ (λ value. h)))
        (if_intro (Takes HasPort) (same arg tls_text) _ _ h (
          if_intro (Takes HasPort) (same arg capath_text) _ _
            (once-Takes HasPort _ _ (take_one-Takes HasPort args _ (λ value. h)))
            (if_intro (Takes HasPort) (same arg authentication_text) _ _
              (take_two-Takes HasPort args _ (λ username password. h)) tt))))

with_host :
    (p : Options)
    → 0 < p.port
    → HasPort p
    → (host : Bytes) → p.host ≡ host
    → IsUsable (with_default_host p)
with_host p given fits [] e =
    subst (λ b. IsUsable (if b then record p { host = localhost } else p)) (sym (ap is_empty e))
      (record { port_given = given; port_fits = fits; host_given = λ h. cc })
with_host p given fits (c ∷ s) e =
    subst (λ b. IsUsable (if b then record p { host = localhost } else p)) (sym (ap is_empty e))
      (record { port_given = given; port_fits = fits; host_given = λ h. cc })

defaults-IsUsable : (o : Options) → HasPort o → IsUsable (with_default_host (with_default_port o))
defaults-IsUsable o h =
    let p = with_default_port o in
    let given : 0 < p.port =
      if_cases (λ (q : Options). 0 < q.port) (o.port == 0) _ _ (λ e. omega arith)
        (λ e. ground (arith, e)) in
    let fits : HasPort p = if_intro HasPort (o.port == 0) _ _ (omega arith) h in
    with_host p given fits (p.host) refl

on-Sets :
    (t : Outcome (Taken Options)) (f : List Bytes → Options → Outcome Options)
    → Takes HasPort t
    → ((o : Options) (rest : List Bytes) → t ≡ ok (o, rest) → HasPort o → Sets IsUsable (f rest o))
    → Sets IsUsable (and_on t f)
on-Sets (err e) f k h = k
on-Sets (ok (o, rest)) f k h = h o rest refl k

loop-Sets :
    (fuel : ℕ) (args : List Bytes) (o : Options)
    → length args < fuel
    → HasPort o
    → Sets IsUsable (parse_loop fuel args o)
unfolding parse_loop
loop-Sets zero args o l h = absurd (omega arith)
loop-Sets (suc fuel) [] o l h = defaults-IsUsable o h
loop-Sets (suc fuel) (arg ∷ args) o l h =
    on-Sets (handle_arg arg args o) (parse_loop fuel) (handle_arg-Takes arg args o h)
      (λ o' rest e k.
        loop-Sets fuel rest o' (omega (arith, handle_arg-Shrinks arg args o o' rest e)) k)

caught-Ends : (r : Outcome Options) → Sets IsUsable r → Ends (caught r)
caught-Ends (ok o) h = h
caught-Ends (err undefined) h = absurd h
caught-Ends (err out_of_fuel) h = absurd h
caught-Ends (err e) h = tt

-- Whatever the client's command line is, parsing it ends: in an exit after the usage, or in
-- options with a host that is not empty and a port above 0 and below 2 ^ 16.
pub parse-Ends : (args : List Bytes) → Ends (parse args)
unfolding parse
parse-Ends args =
    caught-Ends _ (loop-Sets (suc (length args)) args no_options (omega arith) (omega arith))
