-- ===== src/Client/SquawkbusClient/Commands.antt =====
-- What is typed at the client is what the server processes.
use cpp_prototype.Common.{
  ℕ, suc, ◌≤◌, ◌==◌, take, ◌+◌, ◌^◌, ◌<◌, ◌≡◌, ◌≢◌, refl, sym, ap, ◌∙◌, Bool, true, false, List, [],
  ◌∷◌, ◌++◌, Bytes, length, concat, Outcome, ok, take-all, arith,
}
use cpp_prototype.Common.Int.{ℤ, IsInt32}
use cpp_prototype.Common.Key.{bytes_key, lexicographic}
use cpp_prototype.Common.Text.{skip_space, decimal_int}
use cpp_prototype.Serialization.FrameReader.{FrameReader}
use cpp_prototype.Serialization.FrameReader.Chunks.{frame, between}
use cpp_prototype.Serialization.FrameReader.Refinement.{Shows}
use cpp_prototype.Messages.Message.{Message, notification, subscription, multicast}
use cpp_prototype.Messages.Codec.Wire.{wire, MessageFits}
use cpp_prototype.Io.FileStream
use cpp_prototype.Io.FileStream.{FileCalls, Called, returned, would_block}
use cpp_prototype.Io.FilePollHandler
use cpp_prototype.Io.Poller.{write_to}
use cpp_prototype.Server.Interactor.{send, receive_all}
use cpp_prototype.Server.Interactor.Transport.{send-frame, send-receive_all}
use cpp_prototype.Client.Input.{take_word, next_word}
use cpp_prototype.Client.Input.Quoting.{
  IsWord, next_word-append, quote, next_quoted-quote, next_int-decimal_int,
}
use cpp_prototype.Client.SquawkbusClient.{
  SquawkbusClient, ask, hand_over, send_message, subscribe_text, unsubscribe_text, listen_text,
  unlisten_text, publish_text, or_text_plain, publish, handle_words, handle_command, handle_buf,
  on_read, console,
}

-- The commands that send a message.
pub data Command : Type 0 where
  subscribing : Bool → Bytes → Command
  listening : Bool → Bytes → Command
  publishing : Bytes → Bytes → Bytes → ℤ → Command

abbrev pub command_text : Command → Bytes
command_text (subscribing true topic) = subscribe_text
command_text (subscribing false topic) = unsubscribe_text
command_text (listening true topic) = listen_text
command_text (listening false topic) = unlisten_text
command_text (publishing topic content content_type entitlement) = publish_text

abbrev line_end : Bytes
line_end = b'\n' ∷ []

-- The arguments, each after a space, and the end of the line.
abbrev pub arguments : Command → Bytes
arguments (subscribing is_add topic) = b' ' ∷ (topic ++ line_end)
arguments (listening is_add topic_pattern) = b' ' ∷ (topic_pattern ++ line_end)
arguments (publishing topic content content_type entitlement) =
    b' '
    ∷ (quote topic
        ++ b' '
          ∷ (quote content
              ++ b' ' ∷ (quote content_type ++ b' ' ∷ (decimal_int entitlement ++ line_end))))

-- A command as it is typed.
abbrev pub text_of : Command → Bytes
text_of k = command_text k ++ arguments k

abbrev pub message_of : Command → Message
message_of (subscribing is_add topic) = subscription (record { topic = topic; is_add = is_add })
message_of (listening is_add topic_pattern) =
    notification (record { topic_pattern = topic_pattern; is_add = is_add })
message_of (publishing topic content content_type entitlement) = multicast (record {
  topic = topic;
  data_packets =
      record { entitlement = entitlement; content_type = content_type; payload = content } ∷ [];
})

-- Topics and patterns that are one word, a content type that is given, and an int.
abbrev pub CanBeTyped : Command → Type 0
CanBeTyped (subscribing is_add topic) = (topic ≢ []) × IsWord topic
CanBeTyped (listening is_add topic_pattern) = (topic_pattern ≢ []) × IsWord topic_pattern
CanBeTyped (publishing topic content content_type entitlement) =
    (content_type ≢ []) × IsInt32 entitlement

or_text_plain_lem : (s : Bytes) → s ≢ [] → or_text_plain s ≡ s
or_text_plain_lem [] h = absurd (h refl)
or_text_plain_lem (c ∷ s) h = refl

publish-arguments :
    (topic content content_type : Bytes) (entitlement : ℤ)
    → content_type ≢ []
    → IsInt32 entitlement
    → publish (arguments (publishing topic content content_type entitlement))
      ≡ message_of (publishing topic content content_type entitlement)
unfolding publish
publish-arguments topic content content_type entitlement h i =
    let third = b' ' ∷ (quote content_type ++ b' ' ∷ (decimal_int entitlement ++ line_end)) in
    rw
      (
        next_quoted-quote topic (b' ' ∷ (quote content ++ third)),
        next_quoted-quote content third,
        next_quoted-quote content_type (b' ' ∷ (decimal_int entitlement ++ line_end)),
        next_int-decimal_int entitlement b'\n' [] i refl,
        or_text_plain_lem content_type h,
      )
      refl

next_word-text_of : (k : Command) → next_word (text_of k) ≡ (command_text k, arguments k)
unfolding next_word take_word skip_space
next_word-text_of (subscribing true topic) = refl
next_word-text_of (subscribing false topic) = refl
next_word-text_of (listening true topic_pattern) = refl
next_word-text_of (listening false topic_pattern) = refl
next_word-text_of (publishing topic content content_type entitlement) = refl

word-argument :
    (word : Bytes) → word ≢ [] → IsWord word → (next_word (b' ' ∷ (word ++ line_end))).0 ≡ word
word-argument word n h = ap (λ (p : Bytes × Bytes). p.0) (next_word-append word b'\n' [] n h refl)

handle_words-arguments :
    (k : Command) (c : SquawkbusClient)
    → CanBeTyped k
    → handle_words (command_text k) (arguments k) c ≡ send_message (message_of k) c
unfolding handle_words lexicographic
handle_words-arguments (subscribing true topic) c h =
    ap (λ t. send_message (subscription (record { topic = t; is_add = true })) c)
      (word-argument topic h.0 h.1)
handle_words-arguments (subscribing false topic) c h =
    ap (λ t. send_message (subscription (record { topic = t; is_add = false })) c)
      (word-argument topic h.0 h.1)
handle_words-arguments (listening true topic_pattern) c h =
    ap (λ t. send_message (notification (record { topic_pattern = t; is_add = true })) c)
      (word-argument topic_pattern h.0 h.1)
handle_words-arguments (listening false topic_pattern) c h =
    ap (λ t. send_message (notification (record { topic_pattern = t; is_add = false })) c)
      (word-argument topic_pattern h.0 h.1)
handle_words-arguments (publishing topic content content_type entitlement) c h =
    ap (λ m. send_message m c) (publish-arguments topic content content_type entitlement h.0 h.1)

handle_command-text_of :
    (k : Command) (c : SquawkbusClient)
    → CanBeTyped k
    → handle_command (text_of k) c ≡ send_message (message_of k) c
unfolding handle_command
handle_command-text_of k c h =
    ap (λ (p : Bytes × Bytes). handle_words p.0 p.1 c) (next_word-text_of k)
    ∙ handle_words-arguments k c h

send_message-ok :
    (m : Message) (c : SquawkbusClient) (buf : Bytes)
    → send m ≡ ok buf
    → send_message m c ≡ ask (write_to c.fd buf) c
unfolding send_message
send_message-ok m c buf e = ap (λ o. hand_over o c) e

on_read-command :
    (text : Bytes) (c : SquawkbusClient) (buf : Bytes)
    → handle_command text c ≡ ask (write_to c.fd buf) c
    → on_read 0 (text ∷ []) c ≡ ask (write_to c.fd buf) c
unfolding on_read handle_buf
on_read-command text c buf e = rw e refl

module _ {W : Type 0} (calls : FileCalls W) (d d' d'' : W) (text : Bytes)
    (got : calls.read 1024 d ≡ (returned text, d'))
    (blocks : calls.read 1024 d' ≡ (would_block, d'')) where
  -- What the console has, where one call of ::read gives it and the next would block.
  console-read :
      (fuel : ℕ)
      → (length text == 0) ≡ false
      → (FilePollHandler.read calls (suc (suc fuel)) (console d)).1.read_queue ≡ text ∷ []
  unfolding FilePollHandler.read FilePollHandler.read_loop FilePollHandler.after_read
      FileStream.read FileStream.after_read
  console-read fuel filled = rw (got, filled, blocks) refl

text_of-filled : (k : Command) → (length (text_of k) == 0) ≡ false
text_of-filled (subscribing true topic) = ground arith
text_of-filled (subscribing false topic) = ground arith
text_of-filled (listening true topic_pattern) = ground arith
text_of-filled (listening false topic_pattern) = ground arith
text_of-filled (publishing topic content content_type entitlement) = ground arith

-- Take a command for a topic or a pattern of one word, or one to publish any texts, with a
-- content type, under a 32-bit entitlement. Typed at the client as one line of at most 1024
-- bytes, which one ::read of the console gives whole while the next would block, it is read by
-- the console's handler and makes the client write one buffer to its socket, where the message
-- fits the wire in fewer than 2 ^ 31 bytes; and cut into chunks in any way, these bytes make a
-- server whose reader is between two frames, with fewer than 2 ^ 31 bytes in all, process exactly
-- that message, where processing it succeeds.
pub command-IsProcessed {ℓ} :
    {S : Type ℓ} {W : Type 0} (process : Message → S → Outcome S) (k : Command)
    (c : SquawkbusClient) (calls : FileCalls W) (d d' d'' : W) (fuel : ℕ) (cs : List Bytes)
    (r : FrameReader) (n : ℕ) (s s' : S)
    → CanBeTyped k
    → length (text_of k) ≤ 1024
    → calls.read 1024 d ≡ (returned (take 1024 (text_of k)), d')
    → calls.read 1024 d' ≡ (would_block, d'')
    → MessageFits (message_of k)
    → length (wire (message_of k)) < 2 ^ 31
    → concat cs ≡ frame (wire (message_of k))
    → Shows r (between []) n
    → n + length (concat cs) < 2 ^ 31
    → process (message_of k) s ≡ ok s'
    → let typed = (FilePollHandler.read calls (suc (suc fuel)) (console d)).1.read_queue in
      (on_read 0 typed c ≡ ask (write_to c.fd (concat cs)) c)
      × ((r' : FrameReader) × (receive_all process cs r s ≡ ok (r', s'))
          × Shows r' (between []) (n + length (concat cs)))
command-IsProcessed process k c calls d d' d'' fuel cs r n s s' can short got blocks fits small cut
      shows room e =
    let sent : send (message_of k) ≡ ok (concat cs) =
      send-frame (message_of k) fits small ∙ ap ok (sym cut) in
    let whole : calls.read 1024 d ≡ (returned (text_of k), d') =
      got ∙ ap (λ t. (returned t, d')) (take-all 1024 (text_of k) short) in
    (
      ap (λ bufs. on_read 0 bufs c)
            (console-read calls d d' d'' (text_of k) whole blocks fuel (text_of-filled k))
          ∙ on_read-command (text_of k) c (concat cs)
              (handle_command-text_of k c can ∙ send_message-ok (message_of k) c (concat cs) sent),
      send-receive_all process (message_of k) cs r n s s' fits small sent shows room e,
    )
