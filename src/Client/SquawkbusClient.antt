-- ===== src/Client/SquawkbusClient.antt =====
-- src/clients/client/squawkbus_client.cpp and .hpp: the client of the poller in the client program.
-- What it prints is a list of lines, and `exit (0)` ends what it does.
pub mod Commands
use cpp_prototype.Common.{
  ℕ, zero, suc, Bool, true, false, ◌==◌, if◌then◌else◌, List, [], ◌∷◌, ◌++◌, Bytes, Option, none,
  some, length, Outcome, ok, err, Error, out_of_fuel,
}
use cpp_prototype.Common.Key.{bytes_key, same}
use cpp_prototype.Serialization.FrameBuffer.{FrameBuffer}
use cpp_prototype.Serialization.FrameReader
use cpp_prototype.Serialization.FrameReader.{FrameReader}
use cpp_prototype.Messages.Message.{
  Message, AuthenticationRequest, authentication, authenticated, notification, subscription,
  multicast,
}
use cpp_prototype.Messages.Codec.{deserialize}
use cpp_prototype.Io.FileStream.{readonly}
use cpp_prototype.Io.FilePollHandler
use cpp_prototype.Io.FilePollHandler.{FilePollHandler}
use cpp_prototype.Io.Poller.{Request, write_to, close_fd}
use cpp_prototype.Server.Interactor.{send}
use cpp_prototype.Client.Input.{next_word, next_quoted, next_int}

-- `fd` is the descriptor of the client's socket.
pub record SquawkbusClient : Type 0 where
  pub fd : ℕ
  pub reader : FrameReader
  pub authentication_request : AuthenticationRequest

pub data Line : Type 0 where
  authenticated_line prompt failed_line : Line
  received_line : Message → Line
  unknown_line : Bytes → Line

-- What a callback does: the client after it, its calls of the poller, what it prints, and whether it
-- has thrown or exited.
pub record Reaction : Type 0 where
  pub client : SquawkbusClient
  pub requests : List Request
  pub printed : List Line
  pub thrown : Option Error
  pub is_exited : Bool

abbrev pub quiet : SquawkbusClient → Reaction
quiet c = record { client = c; requests = []; printed = []; thrown = none; is_exited = false }

abbrev pub ask : Request → SquawkbusClient → Reaction
ask r c = record (quiet c) { requests = r ∷ [] }

abbrev pub throw : Error → SquawkbusClient → Reaction
throw e c = record (quiet c) { thrown = some e }

abbrev has_ended : Reaction → Bool
has_ended r = elim r.thrown [ some e ↦ true | none ↦ r.is_exited ]

-- What comes after, unless it has thrown or exited.
abbrev pub and_after : Reaction → Reaction → Reaction
and_after r rest =
    if has_ended r
    then r
    else record rest { requests = r.requests ++ rest.requests; printed = r.printed ++ rest.printed }

-- `serialize`, and `poller.write` to the socket.
abbrev pub hand_over : Outcome Bytes → SquawkbusClient → Reaction
hand_over (ok buf) c = ask (write_to c.fd buf) c
hand_over (err e) c = throw e c

unfoldable pub send_message : Message → SquawkbusClient → Reaction
send_message m c = hand_over (send m) c

unfoldable pub on_startup : SquawkbusClient → Reaction
on_startup c = send_message (authentication c.authentication_request) c

abbrev pub close_text : Bytes
close_text = b'C' ∷ b'L' ∷ b'O' ∷ b'S' ∷ b'E' ∷ []

abbrev pub subscribe_text : Bytes
subscribe_text = b'S' ∷ b'U' ∷ b'B' ∷ b'S' ∷ b'C' ∷ b'R' ∷ b'I' ∷ b'B' ∷ b'E' ∷ []

abbrev pub unsubscribe_text : Bytes
unsubscribe_text = b'U' ∷ b'N' ∷ subscribe_text

abbrev pub listen_text : Bytes
listen_text = b'L' ∷ b'I' ∷ b'S' ∷ b'T' ∷ b'E' ∷ b'N' ∷ []

abbrev pub unlisten_text : Bytes
unlisten_text = b'U' ∷ b'N' ∷ listen_text

abbrev pub publish_text : Bytes
publish_text = b'P' ∷ b'U' ∷ b'B' ∷ b'L' ∷ b'I' ∷ b'S' ∷ b'H' ∷ []

abbrev pub text_plain : Bytes
text_plain = b't' ∷ b'e' ∷ b'x' ∷ b't' ∷ b'/' ∷ b'p' ∷ b'l' ∷ b'a' ∷ b'i' ∷ b'n' ∷ []

abbrev pub or_text_plain : Bytes → Bytes
or_text_plain [] = text_plain
or_text_plain (c ∷ s) = c ∷ s

abbrev pub subscribe : Bool → Bytes → Message
subscribe is_add s = subscription (record { topic = (next_word s).0; is_add = is_add })

abbrev pub listen : Bool → Bytes → Message
listen is_add s = notification (record { topic_pattern = (next_word s).0; is_add = is_add })

unfoldable pub publish : Bytes → Message
publish s =
    let (topic, s1) = next_quoted s in
    let (content, s2) = next_quoted s1 in
    let (content_type, s3) = next_quoted s2 in
    multicast (record {
      topic = topic;
      data_packets =
          record {
            entitlement = next_int s3;
            content_type = or_text_plain content_type;
            payload = content;
          }
          ∷ [];
    })

-- The chain of tests, on the command and the rest of the line.
unfoldable pub handle_words : Bytes → Bytes → SquawkbusClient → Reaction
handle_words command s c =
    if same command close_text
    then ask (close_fd c.fd) c
    else if same command subscribe_text
    then send_message (subscribe true s) c
    else if same command unsubscribe_text
    then send_message (subscribe false s) c
    else if same command listen_text
    then send_message (listen true s) c
    else if same command unlisten_text
    then send_message (listen false s) c
    else if same command publish_text
    then send_message (publish s) c
    else record (quiet c) { printed = unknown_line command ∷ [] }

unfoldable pub handle_command : Bytes → SquawkbusClient → Reaction
handle_command buf c = handle_words (next_word buf).0 (next_word buf).1 c

-- What a message makes the client print, and whether it exits then.
abbrev pub show_message : Message → SquawkbusClient → Reaction
show_message (authenticated r) c =
    if r.is_authenticated
    then record (quiet c) { printed = authenticated_line ∷ prompt ∷ [] }
    else record (quiet c) { printed = failed_line ∷ []; is_exited = true }
show_message m c = record (quiet c) { printed = received_line m ∷ [] }

abbrev pub show_frame : Outcome (Message × FrameBuffer) → SquawkbusClient → Reaction
show_frame (err e) c = throw e c
show_frame (ok (m, _)) c = show_message m c

abbrev pub take_frame : Outcome (FrameBuffer × FrameReader) → SquawkbusClient → Reaction
take_frame (err e) c = throw e c
take_frame (ok (frame, reader)) c = show_frame (deserialize frame) (record c { reader = reader })

-- The loop of `handle_message`.
unfoldable pub drain : ℕ → SquawkbusClient → Reaction
drain zero c = throw out_of_fuel c
drain (suc fuel) c =
    let r = take_frame (FrameReader.read c.reader) c in
    let rest = drain fuel r.client in
    if FrameReader.has_frame c.reader then and_after r rest else quiet c

-- One round for each frame, and one to stop.
abbrev pub written : Outcome (FrameReader × Bool) → SquawkbusClient → Reaction
written (err e) c = throw e c
written (ok (reader, _)) c = drain (suc (length reader.frames)) (record c { reader = reader })

unfoldable pub handle_message : Bytes → SquawkbusClient → Reaction
handle_message buf c = written (FrameReader.write c.reader buf) c

-- STDIN_FILENO is 0.
unfoldable pub handle_buf : ℕ → Bytes → SquawkbusClient → Reaction
handle_buf fd buf c =
    if fd == 0 then handle_command buf c else if fd == c.fd then handle_message buf c else quiet c

unfoldable pub on_read : ℕ → List Bytes → SquawkbusClient → Reaction
on_read fd [] c = quiet c
on_read fd (buf ∷ bufs) c = let r = handle_buf fd buf c in and_after r (on_read fd bufs r.client)

unfoldable pub on_close : ℕ → SquawkbusClient → Reaction
on_close fd c = record (quiet c) { is_exited = true }

-- The handler of the console, as `main` of src/clients/client/main.cpp makes it of STDIN_FILENO.
abbrev pub console : {W : Type 0} → W → FilePollHandler W
console d =
    FilePollHandler.make (record { descriptor = d; oflag = readonly; is_open = true }) 1024 1024
