-- ===== src/Serialization/FrameBufferIo/Wire.antt =====
-- The wire format as a specification, and what it means that an operator writes or reads it.
use cpp_prototype.Common.{
  ◌<◌, ◌^◌, ◌≡◌, refl, ap, sym, ◌∙◌, Bool, List, [], ◌∷◌, ◌++◌, append_assoc, append-nil, Bytes,
  length, if◌then◌else◌, Outcome, ok,
}
use cpp_prototype.Common.Int.{ℤ, to_uint32}
use cpp_prototype.Serialization.FrameBuffer.{FrameBuffer, network_long_to_buf}
use cpp_prototype.Serialization.FrameBuffer.Contents.{contents, IsValid, Leaves}
use cpp_prototype.Serialization.FrameBufferIo.{Reader, Writer, pure, ◌>>=◌, ◌<<◌}

abbrev pub wire_bool : Bool → Bytes
wire_bool v = (if v then 1 else 0) ∷ []

abbrev pub wire_int32 : ℤ → Bytes
wire_int32 i = network_long_to_buf (to_uint32 i)

abbrev pub wire_string : Bytes → Bytes
wire_string s = network_long_to_buf (length s) ++ s

abbrev pub wire_items {ℓ} : {A : Type ℓ} → (A → Bytes) → List A → Bytes
wire_items f [] = []
wire_items f (x ∷ xs) = f x ++ wire_items f xs

abbrev pub wire_vector {ℓ} : {A : Type ℓ} → (A → Bytes) → List A → Bytes
wire_vector f xs = network_long_to_buf (length xs) ++ wire_items f xs

-- The sizes that fit into the four bytes of a length.
abbrev pub Fits {ℓ} : {A : Type ℓ} → List A → Type 0
Fits xs = length xs < 2 ^ 32

-- `r` reads `v` from the bytes `bs`, whatever follows them.
pub record Reads {ℓ} {A : Type ℓ} (r : Reader A) (v : A) (bs : Bytes) : Type ℓ where
  pub at :
      (b : FrameBuffer) (rest : Bytes) → IsValid b → contents b ≡ bs ++ rest → Leaves (r b) v rest

module _ {ℓ} {A : Type ℓ} where
  pub Reads-pure : (v : A) → Reads (pure v) v []
  Reads-pure v = record { at = λ b rest valid h. (b, refl, valid, h) }

pub bind-ok {ℓ κ} :
    {A : Type ℓ} {B : Type κ} (r : Reader A) (f : A → Reader B) {b b' : FrameBuffer} {a : A}
    → r b ≡ ok (a, b')
    → (r >>= f) b ≡ f a b'
bind-ok r f e = rw (e, ◌>>=◌)

module _ {ℓ κ} {A : Type ℓ} {B : Type κ} {v : A} {w : B} (r : Reader A) (xs : Bytes)
    (first : Reads r v xs) where
  pub Reads-bind : (f : A → Reader B) (ys : Bytes) → Reads (f v) w ys → Reads (r >>= f) w (xs ++ ys)
  Reads-bind f ys second = record {
    at = λ b rest valid h.
        let (b', e, valid', h') = first.at b (ys ++ rest) valid (h ∙ append_assoc xs ys rest) in
        let (b'', e', valid'', h'') = second.at b' rest valid' h' in
        (b'', bind-ok r f e ∙ e', valid'', h'');
  }

  -- The last step of a block only computes.
  pub Reads-map : (f : A → B) → f v ≡ w → Reads (r >>= λ u. pure (f u)) w xs
  Reads-map f e = record {
    at = λ b rest valid h.
        let (b', p, valid', h') = first.at b rest valid h in
        (b', bind-ok r (λ u. pure (f u)) p ∙ ap (λ x. ok (x, b')) e, valid', h');
  }

-- A buffer after writing `bs` to `b`: valid, with the same bytes read before.
pub record Wrote (r : Outcome FrameBuffer) (b : FrameBuffer) (bs : Bytes) : Type 0 where
  pub after : FrameBuffer
  pub returned : r ≡ ok after
  pub is_valid : IsValid after
  pub appended : contents after ≡ contents b ++ bs
  pub same_offset : after.offset ≡ b.offset

pub record Writes (w : Writer) (bs : Bytes) : Type 0 where
  pub at : (b : FrameBuffer) → IsValid b → Wrote (w b) b bs

pub Wrote-nothing : (b : FrameBuffer) → IsValid b → Wrote (ok b) b []
Wrote-nothing b valid = record {
  after = b;
  returned = refl;
  is_valid = valid;
  appended = sym (append-nil (contents b));
  same_offset = refl;
}

pub Wrote-then :
    {r : Outcome FrameBuffer} {w : Writer} {b : FrameBuffer} {xs ys : Bytes}
    → Wrote r b xs
    → Writes w ys
    → Wrote (r << w) b (xs ++ ys)
Wrote-then {w} {b} {xs} {ys} first second =
    let next = second.at first.after first.is_valid in
    record {
      after = next.after;
      returned = rw first.returned next.returned;
      is_valid = next.is_valid;
      appended =
          next.appended ∙ ap (λ bs. bs ++ ys) first.appended ∙ append_assoc (contents b) xs ys;
      same_offset = next.same_offset ∙ first.same_offset;
    }
