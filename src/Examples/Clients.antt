-- ===== src/Examples/Clients.antt =====
-- The client program at concrete inputs.
use cpp_prototype.Common.{
  ◌+◌, ◌<◌, ◌≤◌, ◌^◌, ◌≡◌, refl, List, [], ◌∷◌, Bytes, length, concat, take, drop, some, ok, arith,
}
use cpp_prototype.Common.Int.{pos}
use cpp_prototype.Common.Text.{decimal_int, decimal, digits}
use cpp_prototype.Common.Key.{bytes_key, lexicographic}
use cpp_prototype.Common.Map.{find}
use cpp_prototype.Serialization.FrameBuffer.{network_long_to_buf}
use cpp_prototype.Serialization.FrameReader
use cpp_prototype.Serialization.FrameReader.{FrameReader}
use cpp_prototype.Serialization.FrameReader.Chunks.{frame, between}
use cpp_prototype.Serialization.FrameReader.Refinement.{Shows}
use cpp_prototype.Messages.MessageType.{to_char}
use cpp_prototype.Messages.Codec.Wire.{wire}
use cpp_prototype.Io.FileStream.{FileCalls, returned, would_block}
use cpp_prototype.Io.FilePollHandler
use cpp_prototype.Io.Poller.{write_to}
use cpp_prototype.Server.Authentication.{authenticate}
use cpp_prototype.Server.Interactor.{receive_all}
use cpp_prototype.Client.Options.{
  AuthenticationOption, Options, no_options, port_text, host_text, parse,
  make_authentication_request,
}
use cpp_prototype.Client.Options.Endings.{Ends, parse-Ends}
use cpp_prototype.Client.Options.Login.{make_authentication_request-authenticate}
use cpp_prototype.Client.Input.Quoting.{escape}
use cpp_prototype.Client.SquawkbusClient.{SquawkbusClient, ask, on_read, console}
use cpp_prototype.Client.SquawkbusClient.Commands.{
  Command, publishing, text_of, message_of, command-IsProcessed,
}
use cpp_prototype.Examples.Wire.{empty-Shows, collect_messages}
use cpp_prototype.Examples.Passwords.{md5, tom, secret, salt, manager}

-- "--port 80x --host h", of which the port is 80.
abbrev command_line : List Bytes
command_line = port_text ∷ (b'8' ∷ b'0' ∷ b'x' ∷ []) ∷ host_text ∷ (b'h' ∷ []) ∷ []

parse-Ends_example : Ends (parse command_line)
parse-Ends_example = parse-Ends command_line

abbrev login : AuthenticationOption
login = record { username = tom; password = secret }

abbrev options : Options
options = record no_options { authentication = some login }

make_authentication_request-authenticate_example :
    authenticate md5 manager (make_authentication_request options) ≡ ok (some tom)
unfolding find lexicographic
make_authentication_request-authenticate_example =
    make_authentication_request-authenticate md5 manager options login salt refl refl
      ((λ h. absurd (omega arith)), ((λ h. absurd (omega arith)), tt)) (omega arith)
      (omega arith, (omega arith, (omega arith, tt)))
      (omega arith, (omega arith, (omega arith, tt)))
      (
        (λ h. absurd (omega arith)),
        ((λ h. absurd (omega arith)), ((λ h. absurd (omega arith)), tt)),
      )

-- PUBLISH "a b" "\"" "c" 7
abbrev command : Command
command = publishing (b'a' ∷ b' ' ∷ b'b' ∷ []) (34 ∷ []) (b'c' ∷ []) (pos 7)

abbrev client : SquawkbusClient
client = record {
  fd = 3;
  reader = FrameReader.empty;
  authentication_request = make_authentication_request no_options;
}

-- The server gets two bytes of the length, and then the rest.
abbrev chunks : List Bytes
chunks =
    take 2 (frame (wire (message_of command))) ∷ drop 2 (frame (wire (message_of command))) ∷ []

command-small : length (wire (message_of command)) < 2 ^ 31
unfolding to_char network_long_to_buf
command-small = omega arith

-- A console that has the command, and then nothing.
abbrev console_calls : FileCalls (List Bytes)
console_calls = record {
  read =
      λ len d. elim d [ [] ↦ (would_block, []) | text ∷ texts ↦ (returned (take len text), texts) ];
  write = λ buf d. (would_block, d);
}

command-short : length (text_of command) ≤ 1024
unfolding decimal_int decimal digits escape
command-short = omega arith

command-IsProcessed_example :
    let typed =
      (FilePollHandler.read console_calls 2 (console (text_of command ∷ []))).1.read_queue in
    (on_read 0 typed client ≡ ask (write_to 3 (concat chunks)) client)
    × ((r' : FrameReader) × (receive_all collect_messages chunks FrameReader.empty []
          ≡ ok (r', message_of command ∷ []))
        × Shows r' (between []) (0 + length (concat chunks)))
unfolding to_char network_long_to_buf
command-IsProcessed_example =
    command-IsProcessed collect_messages command client console_calls (text_of command ∷ []) [] [] 0
      chunks FrameReader.empty 0 [] (message_of command ∷ []) ((λ e. cc), omega arith) command-short
      refl refl (omega arith, (omega arith, ((omega arith, omega arith, omega arith), tt)))
      command-small refl empty-Shows (omega arith) refl
