-- ===== src/Client/Input/Quoting.antt =====
-- What is written for a word, a quoted text and an int is read back.
use cpp_prototype.Common.{
  ℕ, suc, ◌≡◌, ◌≢◌, refl, ap, ◌∙◌, ◌==◌, ◌||◌, true, false, if◌then◌else◌, [], ◌∷◌, ◌++◌, Bytes,
  All, append_assoc, arith,
}
use cpp_prototype.Common.Int.{ℤ, pos, negsuc, IsInt32}
use cpp_prototype.Common.Text.{is_space, is_digit, skip_space, unsigned, decimal, decimal_int}
use cpp_prototype.Common.Text.Decimal.{
  Numeral, numeral, Numeral-append, decimal-Numeral, unsigned-append,
}
use cpp_prototype.Client.Input.{
  take_word, next_word, quote_char, escape_char, unquote, next_quoted, clamp_positive,
  clamp_negative, signed_int, next_int,
}

-- A text without white space.
abbrev pub IsWord : Bytes → Type 0
IsWord = All (λ c. is_space c ≡ false)

take_word-append :
    (word : Bytes) (d : ℕ) (s : Bytes)
    → IsWord word
    → is_space d ≡ true
    → take_word (word ++ d ∷ s) ≡ (word, d ∷ s)
unfolding take_word
take_word-append [] d s h e = rw e refl
take_word-append (c ∷ word) d s h e = rw (h.0, take_word-append word d s h.1 e) refl

-- The next word, after a space and before another.
pub next_word-append :
    (word : Bytes) (d : ℕ) (s : Bytes)
    → word ≢ []
    → IsWord word
    → is_space d ≡ true
    → next_word (b' ' ∷ (word ++ d ∷ s)) ≡ (word, d ∷ s)
unfolding next_word skip_space
next_word-append [] d s n h e = absurd (n refl)
next_word-append (c ∷ word) d s n h e = rw h.0 (take_word-append (c ∷ word) d s h e)

-- The first word of a line.
pub first_word-append :
    (c : ℕ) (word : Bytes) (d : ℕ) (s : Bytes)
    → IsWord (c ∷ word)
    → is_space d ≡ true
    → next_word (c ∷ (word ++ d ∷ s)) ≡ (c ∷ word, d ∷ s)
unfolding next_word skip_space
first_word-append c word d s h e = rw h.0 (take_word-append (c ∷ word) d s h e)

unfoldable pub escape : Bytes → Bytes
escape [] = []
escape (c ∷ s) =
    let rest = escape s in
    if (c == quote_char) || (c == escape_char) then escape_char ∷ c ∷ rest else c ∷ rest

abbrev pub quote : Bytes → Bytes
quote s = quote_char ∷ (escape s ++ quote_char ∷ [])

unquote-escape : (s t : Bytes) → unquote false (escape s ++ quote_char ∷ t) ≡ (s, t)
unfolding unquote escape
unquote-escape [] t = refl
unquote-escape (c ∷ s) t = ground (arith, unquote-escape s t)

-- Any text at all is read back from its quoted form.
pub next_quoted-quote : (s t : Bytes) → next_quoted (b' ' ∷ (quote s ++ t)) ≡ (s, t)
unfolding next_quoted skip_space
next_quoted-quote s t =
    ap (unquote false) (append_assoc (escape s) (quote_char ∷ []) t) ∙ unquote-escape s t

signed_int_lem : (s : Bytes) → Numeral s → next_int (b' ' ∷ s) ≡ clamp_positive (unsigned s)
unfolding next_int skip_space signed_int
signed_int_lem _ (numeral lo hi) = ground (arith, lo, hi)

minus_lem : (s : Bytes) → next_int (b' ' ∷ b'-' ∷ s) ≡ clamp_negative (unsigned s)
unfolding next_int skip_space signed_int
minus_lem s = refl

-- An int is read back from its decimal form, after a space and before a char that is no digit.
pub next_int-decimal_int :
    (i : ℤ) (d : ℕ) (s : Bytes)
    → IsInt32 i
    → is_digit d ≡ false
    → next_int (b' ' ∷ (decimal_int i ++ d ∷ s)) ≡ i
unfolding decimal_int
next_int-decimal_int (pos n) d s h e =
    signed_int_lem (decimal n ++ d ∷ s) (Numeral-append (decimal n) (d ∷ s) (decimal-Numeral n))
    ∙ ap clamp_positive (unsigned-append n d s e)
    ∙ ground (arith, h)
next_int-decimal_int (negsuc n) d s h e =
    minus_lem (decimal (suc n) ++ d ∷ s)
    ∙ ap clamp_negative (unsigned-append (suc n) d s e)
    ∙ ground (arith, h)
