-- ===== src/Client/Input.antt =====
-- What the client's commands use of std::stringstream: words, std::quoted, and an int. A stream is
-- the bytes that are left; one that has failed has none, and yields nothing.
pub mod Quoting
use cpp_prototype.Common.{
  ℕ, ◌^◌, ◌-◌, ◌==◌, Bool, true, false, ltb, leb, if◌then◌else◌, [], ◌∷◌, Bytes, Option, none, some,
}
use cpp_prototype.Common.Int.{ℤ, pos, negsuc}
use cpp_prototype.Common.Text.{is_space, skip_space, unsigned, negate}

-- A char that is put in front of what a stream has yielded.
abbrev pub onto : ℕ → Bytes × Bytes → Bytes × Bytes
onto c (word, rest) = (c ∷ word, rest)

unfoldable pub take_word : Bytes → Bytes × Bytes
take_word [] = ([], [])
take_word (c ∷ s) = let more = take_word s in if is_space c then ([], c ∷ s) else onto c more

-- `ss >> word`
unfoldable pub next_word : Bytes → Bytes × Bytes
next_word s = take_word (skip_space s)

abbrev pub quote_char : ℕ
quote_char = 34

abbrev pub escape_char : ℕ
escape_char = 92

-- Up to the closing quote, where the char before may have been an escape.
unfoldable pub unquote : Bool → Bytes → Bytes × Bytes
unquote is_escaped [] = ([], [])
unquote true (c ∷ s) = onto c (unquote false s)
unquote false (c ∷ s) =
    let more = unquote (c == escape_char) s in
    if c == quote_char then ([], s) else if c == escape_char then more else onto c more

abbrev pub quoted_or_word : Bytes → Bytes × Bytes
quoted_or_word [] = ([], [])
quoted_or_word (c ∷ s) = if c == quote_char then unquote false s else take_word (c ∷ s)

-- `ss >> std::quoted (word)`
unfoldable pub next_quoted : Bytes → Bytes × Bytes
next_quoted s = quoted_or_word (skip_space s)

-- An int: 0 where there are no digits, and a limit of int where it is passed.
abbrev pub clamp_positive : Option ℕ → ℤ
clamp_positive none = pos 0
clamp_positive (some n) = if ltb n (2 ^ 31) then pos n else pos (2 ^ 31 - 1)

abbrev pub clamp_negative : Option ℕ → ℤ
clamp_negative none = pos 0
clamp_negative (some n) = if leb n (2 ^ 31) then negate n else negsuc (2 ^ 31 - 1)

unfoldable pub signed_int : Bytes → ℤ
signed_int [] = pos 0
signed_int (c ∷ s) =
    if c == b'-'
    then clamp_negative (unsigned s)
    else if c == b'+'
    then clamp_positive (unsigned s)
    else clamp_positive (unsigned (c ∷ s))

-- `ss >> i`, for an int that is 0 before.
unfoldable pub next_int : Bytes → ℤ
next_int s = signed_int (skip_space s)
