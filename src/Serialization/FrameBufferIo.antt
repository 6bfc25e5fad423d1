-- ===== src/Serialization/FrameBufferIo.antt =====
-- src/serialization/frame_buffer_io.hpp: the operators `<<` and `>>` of the frame buffer, for the
-- types that the messages use, and the `>>` of std::optional in frame_reader.hpp.
pub mod Wire
pub mod RoundTrip
use cpp_prototype.Common.{
  ℕ, zero, suc, ◌-◌, ◌%◌, ◌^◌, Bool, List, [], ◌∷◌, Bytes, length, Option, some, ltb, ◌==◌,
  if◌then◌else◌, Outcome, ok, err, undefined, size_too_big,
}
use cpp_prototype.Common.Int.{ℤ, to_uint32, to_int32}
use cpp_prototype.Common.Key.{Key}
use cpp_prototype.Common.Set.{Set, insert}
use cpp_prototype.Serialization.FrameBuffer.{
  FrameBuffer, read, write, network_long_to_buf, buf_to_network_long,
}

-- `fbuf >> x`: the value read, and the buffer after.
abbrev pub Reader {ℓ} : Type ℓ → Type ℓ
Reader A = FrameBuffer → Outcome (A × FrameBuffer)

abbrev pub Writer : Type 0
Writer = FrameBuffer → Outcome FrameBuffer

abbrev pub pure {ℓ} : {A : Type ℓ} → A → Reader A
pure a b = ok (a, b)

infixl 5 ◌>>=◌
abbrev pub ◌>>=◌ {ℓ κ} : {A : Type ℓ} {B : Type κ} → Reader A → (A → Reader B) → Reader B
◌>>=◌ r f b = elim (r b) [ ok (a, b') ↦ f a b' | err e ↦ err e ]

-- A chain `frame << x << y` stops at an exception.
infixl 5 ◌<<◌
abbrev pub ◌<<◌ : Outcome FrameBuffer → Writer → Outcome FrameBuffer
ok b << w = w b
err e << w = err e

-- A value that the bytes read determine, or a read past their end.
abbrev pub lift {ℓ} : {A : Type ℓ} → Outcome A → Reader A
lift (ok a) b = ok (a, b)
lift (err e) b = err e

-- `buf[0]`
abbrev pub first : Bytes → Outcome ℕ
first [] = err undefined
first (c ∷ _) = ok c

unfoldable pub write_char : ℕ → Writer
write_char c b = ok (write b (c ∷ []))

unfoldable pub read_char : Reader ℕ
read_char = do buf ← read 1; lift (first buf)

unfoldable pub write_bool : Bool → Writer
unfolding write_char
write_bool v = write_char (if v then 1 else 0)

unfoldable pub read_bool : Reader Bool
read_bool = do c ← read_char; pure (c == 1)

unfoldable pub write_uint32 : ℕ → Writer
write_uint32 i b = ok (write b (network_long_to_buf i))

unfoldable pub read_uint32 : Reader ℕ
read_uint32 = do buf ← read 4; lift (buf_to_network_long buf)

unfoldable pub write_size : ℕ → Writer
write_size l b = if ltb (2 ^ 32 - 1) l then err size_too_big else write_uint32 (l % 2 ^ 32) b

unfoldable pub read_size : Reader ℕ
read_size = read_uint32

unfoldable pub write_int32 : ℤ → Writer
write_int32 i = write_uint32 (to_uint32 i)

unfoldable pub read_int32 : Reader ℤ
read_int32 = do u ← read_uint32; pure (to_int32 u)

unfoldable pub write_string : Bytes → Writer
write_string s b = write_size (length s) b << λ b'. ok (write b' s)

unfoldable pub read_string : Reader Bytes
read_string = do l ← read_size; read l

module _ {ℓ} {A : Type ℓ} where
  unfoldable pub write_items : (A → Writer) → List A → Writer
  write_items w [] b = ok b
  write_items w (x ∷ xs) b = w x b << write_items w xs

  -- `operator<<` of std::vector<T>, given that of T.
  unfoldable pub write_vector : (A → Writer) → List A → Writer
  write_vector w v b = write_size (length v) b << write_items w v

  unfoldable pub read_items : ℕ → Reader A → Reader (List A)
  read_items zero r = pure []
  read_items (suc l) r = do x ← r; xs ← read_items l r; pure (x ∷ xs)

  -- `operator>>` of std::vector<T>, given that of T.
  unfoldable pub read_vector : Reader A → Reader (List A)
  read_vector r = do l ← read_size; read_items l r

  -- `operator>>` of std::optional<T>: a value is always read.
  unfoldable pub read_optional : Reader A → Reader (Option A)
  read_optional r = do x ← r; pure (some x)

module _ {ℓ} {A : Type ℓ} ⦃key : Key A⦄ where
  -- `operator<<` of std::set<T>, whose elements come in their order.
  unfoldable pub write_set : (A → Writer) → Set A → Writer
  write_set w v b = write_size (length v) b << write_items w v

  unfoldable pub read_into : ℕ → Reader A → Set A → Reader (Set A)
  read_into zero r v = pure v
  read_into (suc l) r v = do x ← r; read_into l r (insert x v)

  -- `operator>>` of std::set<T>, into a set that may have elements already.
  unfoldable pub read_set : Reader A → Set A → Reader (Set A)
  read_set r v = do l ← read_size; read_into l r v
