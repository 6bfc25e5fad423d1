-- ===== src/Server/Interactor/Transport.antt =====
-- A message that one side sends is the message that the other processes, however the network cuts it.
use cpp_prototype.Common.{
  ℕ, suc, ◌+◌, ◌<◌, ◌^◌, ◌≡◌, refl, sym, ap, subst, ◌∙◌, List, [], ◌∷◌, ◌++◌, append_assoc,
  append-nil, Bytes, length, concat, length-append, Option, none, some, Outcome, ok, ◌>>=◌, inl,
  inr, leb, Bool-cases, Outcome-cases, ok-injective, arith,
}
use cpp_prototype.Serialization.FrameBuffer
use cpp_prototype.Serialization.FrameBuffer.{FrameBuffer}
use cpp_prototype.Serialization.FrameBuffer.Contents.{unread, unread-zero}
use cpp_prototype.Serialization.FrameBuffer.Writing.{
  contents-write, write-IsValid, to_vector-unread,
}
use cpp_prototype.Serialization.FrameReader.{FrameReader, has_frame, read, write}
use cpp_prototype.Serialization.FrameReader
use cpp_prototype.Serialization.FrameReader.Abstract.{Abstract, take_len, take_frame, feed}
use cpp_prototype.Serialization.FrameReader.Refinement.{Shows, write-feed}
use cpp_prototype.Serialization.FrameReader.Chunks.{frame, feed_all, between, feed_all-frame}
use cpp_prototype.Messages.Message.{Message}
use cpp_prototype.Messages.Codec.{deserialize}
use cpp_prototype.Messages.Codec.Wire.{wire, MessageFits}
use cpp_prototype.Messages.Codec.Reading.{deserialize-Reads}
use cpp_prototype.Messages.Codec.Writing.{serialize-Wrote}
use cpp_prototype.Server.Interactor.{send, drain, receive, receive_all}

-- The abstract reader, with the frames taken out after each chunk.
abbrev pub collect : Abstract → List Bytes → Abstract × List Bytes
collect a [] = (a, [])
collect a (c ∷ cs) =
    let (z, rest) = collect (record (feed a c) { frames = [] }) cs in (z, (feed a c).frames ++ rest)

-- Frames found before only stand before the new ones.
feed-frames :
    (len : Option ℕ) (pending c : Bytes) (fs : List Bytes)
    → let a = feed (record { len = len; pending = pending; frames = [] }) c in
      feed (record { len = len; pending = pending; frames = fs }) c
      ≡ record a { frames = fs ++ a.frames }
feed-frames len pending c fs = by_len (take_len len (pending ++ c))
  where
    by_len :
        (p : Option ℕ × Bytes)
        → take_frame p fs ≡ record (take_frame p []) { frames = fs ++ (take_frame p []).frames }
    by_len (none, bytes) =
        ap (λ gs. record { len = none; pending = bytes; frames = gs }) (sym (append-nil fs))
    by_len (some l, bytes) = elim (Bool-cases (leb l (length bytes))) [
      | inl whole ↦ rw whole refl
      | inr part ↦ rw (part, append-nil) refl
    ]

module _ {ℓ} {S : Type ℓ} (process : Message → S → Outcome S) where
  -- What the loop of `receive` does with frames.
  abbrev pub process_frames : List Bytes → S → Outcome S
  process_frames [] s = ok s
  process_frames (f ∷ fs) s = do
    (message, rest) ← deserialize (FrameBuffer.write FrameBuffer.empty f)
    s' ← process message s
    process_frames fs s'

  drain-frames :
      (fs : List Bytes) (len : Option ℕ) (b : FrameBuffer) (s : S)
      → drain process (suc (length fs)) (record { len = len; fbuf = b; frames = fs }) s
        ≡ process_frames fs s >>= (λ s'. ok (record { len = len; fbuf = b; frames = [] }, s'))
  unfolding drain has_frame read FrameReader.pop_frame
  drain-frames [] len b s = refl
  drain-frames (f ∷ fs) len b s =
      elim (Outcome-cases (deserialize (FrameBuffer.write FrameBuffer.empty f))) [
        | inl ((message, rest), e) ↦ rw e (elim (Outcome-cases (process message s)) [
          | inl (s', e') ↦ rw e' (drain-frames fs len b s')
          | inr (x, e') ↦ rw e' refl
        ])
        | inr (x, e) ↦ rw e refl
      ]

  -- Between chunks the reader has no frame: each chunk's are processed as they come.
  receive-frames :
      (r : FrameReader) (a : Abstract) (n : ℕ) (buf : Bytes) (s : S)
      → Shows r a n
      → n + length buf < 2 ^ 31
      → (r' : FrameReader) × (receive process buf r s
          ≡ process_frames (feed a buf).frames s >>= (λ s'. ok (record r' { frames = [] }, s')))
        × Shows (record r' { frames = [] }) (record (feed a buf) { frames = [] }) (n + length buf)
  unfolding receive
  receive-frames r a n buf s shows room =
      let (r', e, shows') = write-feed r a n buf shows room in
      (
        r',
        rw e (
            drain-frames r'.frames r'.len r'.fbuf s
            ∙ ap
                (λ (v : Abstract).
                  process_frames v.frames s >>= (λ s'. ok (record r' { frames = [] }, s')))
                shows'.shows),
        record {
          valid = shows'.valid;
          shows = ap (λ (v : Abstract). record v { frames = [] }) shows'.shows;
          kept = shows'.kept;
        },
      )

  process_frames-append :
      (xs ys : List Bytes) (s : S)
      → process_frames (xs ++ ys) s ≡ process_frames xs s >>= process_frames ys
  process_frames-append [] ys s = refl
  process_frames-append (x ∷ xs) ys s =
      elim (Outcome-cases (deserialize (FrameBuffer.write FrameBuffer.empty x))) [
        | inl ((message, rest), e) ↦ rw e (elim (Outcome-cases (process message s)) [
          | inl (s', e') ↦ rw e' (process_frames-append xs ys s')
          | inr (x, e') ↦ rw e' refl
        ])
        | inr (x, e) ↦ rw e refl
      ]

  -- Where all goes well, the first part does, and then the second.
  process_frames-split :
      (xs ys : List Bytes) (s s' : S)
      → process_frames (xs ++ ys) s ≡ ok s'
      → (t : S) × (process_frames xs s ≡ ok t) × (process_frames ys t ≡ ok s')
  process_frames-split xs ys s s' e =
      let e' : process_frames xs s >>= process_frames ys ≡ ok s' =
        sym (process_frames-append xs ys s) ∙ e in
      elim (Outcome-cases (process_frames xs s)) [
        | inl (t, first) ↦ (t, first, sym (ap (λ o. o >>= process_frames ys) first) ∙ e')
        | inr (x, failed) ↦ cc
      ]

  -- Any chunks: what is processed is what the abstract reader collects, in order.
  receive_all-frames :
      (cs : List Bytes) (r : FrameReader) (a : Abstract) (n : ℕ) (s s' : S)
      → Shows r a n
      → n + length (concat cs) < 2 ^ 31
      → process_frames (collect a cs).1 s ≡ ok s'
      → (r' : FrameReader) × (receive_all process cs r s ≡ ok (r', s'))
        × Shows r' (collect a cs).0 (n + length (concat cs))
  unfolding receive_all
  receive_all-frames [] r a n s s' shows room e =
      (r, ap (λ o. o >>= (λ s'. ok (r, s'))) e, subst (Shows r a) (omega arith) shows)
  receive_all-frames (c ∷ cs) r a n s s' shows room e =
      let left = record (feed a c) { frames = [] } in
      let total : n + length c + length (concat cs) ≡ n + length (concat (c ∷ cs)) =
        omega (arith, length-append c (concat cs)) in
      let (t, first, second) = process_frames-split (feed a c).frames (collect left cs).1 s s' e in
      let (r1, e1, shows1) = receive-frames r a n c s shows (omega (arith, total, room)) in
      let (r2, e2, shows2) =
        receive_all-frames cs (record r1 { frames = [] }) left (n + length c) t s' shows1
          (omega (arith, total, room)) second in
      (
        r2,
        ap (λ o. o >>= (λ u. receive_all process cs u.0 u.1))
              (e1 ∙ ap (λ o. o >>= (λ u. ok (record r1 { frames = [] }, u))) first)
            ∙ e2,
        subst (Shows r2 (collect left cs).0) total shows2,
      )

-- The frames that are collected are those that are found when none is taken out.
collect-feed_all :
    (cs : List Bytes) (len : Option ℕ) (pending : Bytes) (fs : List Bytes)
    → let z = collect (record { len = len; pending = pending; frames = [] }) cs in
      feed_all (record { len = len; pending = pending; frames = fs }) cs
      ≡ record z.0 { frames = fs ++ z.1 }
collect-feed_all [] len pending fs =
    ap (λ gs. record { len = len; pending = pending; frames = gs }) (sym (append-nil fs))
collect-feed_all (c ∷ cs) len pending fs =
    let fed = feed (record { len = len; pending = pending; frames = [] }) c in
    let z = collect (record fed { frames = [] }) cs in
    ap (λ b. feed_all b cs) (feed-frames len pending c fs)
    ∙ collect-feed_all cs fed.len fed.pending (fs ++ fed.frames)
    ∙ ap (λ gs. record z.0 { frames = gs }) (append_assoc fs fed.frames z.1)

collect-no_frames : (cs : List Bytes) (a : Abstract) → a.frames ≡ [] → (collect a cs).0.frames ≡ []
collect-no_frames [] a e = e
collect-no_frames (c ∷ cs) a e = collect-no_frames cs _ refl

collect-frame :
    (payload : Bytes) (cs : List Bytes)
    → length payload < 2 ^ 32
    → concat cs ≡ frame payload
    → ((collect (between []) cs).1 ≡ payload ∷ []) × ((collect (between []) cs).0 ≡ between [])
collect-frame payload cs fits e =
    let z = collect (between []) cs in
    let found : record z.0 { frames = z.1 } ≡ between (payload ∷ []) =
      sym (collect-feed_all cs none [] []) ∙ feed_all-frame payload [] cs fits e in
    (
      ap (λ (b : Abstract). b.frames) found,
      ap (λ gs. record z.0 { frames = gs }) (collect-no_frames cs (between []) refl)
          ∙ ap (λ (b : Abstract). record b { frames = [] }) found,
    )

-- For a message whose strings and vectors have fewer than 2 ^ 32 elements each and that takes
-- fewer than 2 ^ 31 bytes, `send` hands the poller the four bytes of the length of the message's
-- wire format, and then that wire format.
pub send-frame :
    (m : Message) → MessageFits m → length (wire m) < 2 ^ 31 → send m ≡ ok (frame (wire m))
unfolding send
send-frame m fits small =
    let w = serialize-Wrote m fits in
    let all : concat w.after.fragments ≡ wire m =
      sym (unread-zero w.after.fragments)
      ∙ sym (ap (unread w.after.fragments) w.same_offset)
      ∙ w.appended in
    rw w.returned (
      to_vector-unread w.after w.is_valid (omega (arith, ap length all, small)) w.same_offset
      ∙ ap (λ bs. ok (frame bs)) w.appended)

deserialize-wire :
    (m : Message)
    → MessageFits m
    → (rest : FrameBuffer) × (deserialize (FrameBuffer.write FrameBuffer.empty (wire m))
        ≡ ok (m, rest))
deserialize-wire m fits =
    let b = FrameBuffer.write FrameBuffer.empty (wire m) in
    let (rest, e, valid, none_left) =
      (deserialize-Reads m fits).at b [] (write-IsValid FrameBuffer.empty (wire m) refl)
        (contents-write FrameBuffer.empty (wire m) refl ∙ sym (append-nil (wire m))) in
    (rest, e)

-- Take a message whose fields fit and that takes fewer than 2 ^ 31 bytes, the bytes that `send`
-- makes of it cut into chunks in any way, and a reader that is between two frames, with the bytes
-- in its buffer and the new ones fewer than 2 ^ 31 together. If processing the message succeeds,
-- receiving the chunks processes that message, once, and nothing else, and leaves the reader
-- between two frames again.
pub send-receive_all {ℓ} :
    {S : Type ℓ} (process : Message → S → Outcome S) (m : Message) (cs : List Bytes)
    (r : FrameReader) (n : ℕ) (s s' : S)
    → MessageFits m
    → length (wire m) < 2 ^ 31
    → send m ≡ ok (concat cs)
    → Shows r (between []) n
    → n + length (concat cs) < 2 ^ 31
    → process m s ≡ ok s'
    → (r' : FrameReader) × (receive_all process cs r s ≡ ok (r', s'))
      × Shows r' (between []) (n + length (concat cs))
send-receive_all process m cs r n s s' fits small sent shows room e =
    let framed : concat cs ≡ frame (wire m) = ok-injective (sym sent ∙ send-frame m fits small) in
    let (frames, last) = collect-frame (wire m) cs (omega (arith, small)) framed in
    let (rest, read_back) = deserialize-wire m fits in
    let processed : process_frames process (wire m ∷ []) s ≡ ok s' =
      ap (λ o. o >>= (λ u. process u.0 s >>= (λ t. process_frames process [] t))) read_back
      ∙ ap (λ o. o >>= (λ t. process_frames process [] t)) e in
    let (r', e', shows') =
      receive_all-frames process cs r (between []) n s s' shows room
        (ap (λ fs. process_frames process fs s) frames ∙ processed) in
    (r', e', subst (λ a. Shows r' a (n + length (concat cs))) last shows')
