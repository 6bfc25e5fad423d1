-- ===== src/Examples/Connections.antt =====
-- Streams and their handlers, at a connection that is two lists of bytes.
use cpp_prototype.Common.{
  ℕ, ◌≤◌, ◌≡◌, ◌⊎◌, refl, sym, true, false, List, [], ◌∷◌, ◌++◌, Bytes, append-nil, none, some,
  length, take, drop, take-drop, ok, arith,
}
use cpp_prototype.Common.Int.{pos}
use cpp_prototype.Io.Ssl.{Openssl, no_error}
use cpp_prototype.Io.TcpStream
use cpp_prototype.Io.TcpStream.{TcpStream, make_plain, make_ssl}
use cpp_prototype.Io.TcpStream.States.{IsValid, IsReported, transfer-IsReported}
use cpp_prototype.Io.TcpStream.Handshake.{IsHandshaken, IsWithheld, transfer-IsHandshaken}
use cpp_prototype.Io.Transport.Reading.{given, Receives}
use cpp_prototype.Io.Transport.Writing.{taken, Sends}
use cpp_prototype.Io.TcpSocketPollHandler
use cpp_prototype.Io.TcpSocketPollHandler.{TcpSocketPollHandler}
use cpp_prototype.Io.TcpSocketPollHandler.Draining.{Accepts, write-drains}
use cpp_prototype.Io.TcpSocketPollHandler.History.{
  Call, enqueue_call, write_call, read_call, outside, run, run_sent,
}
use cpp_prototype.Io.TcpSocketPollHandler.Pending.{pending, InBounds}
use cpp_prototype.Io.TcpSocketPollHandler.Receiving.{input, read-IsReceived}

-- What the peer has sent, and what has been sent to it.
pub record Pipe : Type 0 where
  pub inbox : Bytes
  pub outbox : Bytes

-- It gives out all it has up to the length asked for, and takes one byte at a time.
abbrev pub os : Openssl Pipe
os = record {
  read_ex = λ len w. elim (w.inbox) [
    | [] ↦ (none, w)
    | c ∷ cs ↦ (some (take len (c ∷ cs)), record w { inbox = drop len (c ∷ cs) })
  ];
  write_ex = λ buf w. elim buf [
    | [] ↦ (none, w)
    | c ∷ cs ↦ (some 1, record w { outbox = w.outbox ++ c ∷ [] })
  ];
  should_retry = λ w. true;
  should_read = λ w. false;
  should_write = λ w. false;
  do_handshake = λ w. (pos 1, w);
  shutdown = λ w. (pos 1, w);
  get_error = λ r w. no_error;
  is_verified = λ w. true;
  has_certificate = λ w. true;
  set_quiet_shutdown = λ b w. w;
}

pub os-Sends : Sends os (λ (w : Pipe). w.outbox)
os-Sends = record {
  keeps = record {
    do_handshake = λ w. refl;
    shutdown = λ w. refl;
    set_quiet_shutdown = λ b w. refl;
  };
  read_ex = λ len w. ground arith;
  write_ex = write_ex_takes;
  written = write_ex_bounds;
}
  where
    write_ex_takes :
        (buf : Bytes) (w : Pipe)
        → (os.write_ex buf w).1.outbox ≡ w.outbox ++ taken (os.write_ex buf w).0 buf
    write_ex_takes [] w = sym (append-nil w.outbox)
    write_ex_takes (c ∷ cs) w = refl

    write_ex_bounds :
        (buf : Bytes) (w : Pipe) (n : ℕ) → (os.write_ex buf w).0 ≡ some n → n ≤ length buf
    write_ex_bounds [] w n e = absurd cc
    write_ex_bounds (c ∷ cs) w n e = ground arith

pub os-Receives : Receives os (λ (w : Pipe). w.inbox)
os-Receives = record {
  keeps = record {
    do_handshake = λ w. refl;
    shutdown = λ w. refl;
    set_quiet_shutdown = λ b w. refl;
  };
  read_ex = λ len w. given_before len w.inbox w.outbox;
}
  where
    given_before :
        (len : ℕ) (inbox outbox : Bytes)
        → let w : Pipe = record { inbox = inbox; outbox = outbox } in
          inbox ≡ given (os.read_ex len w).0 ++ (os.read_ex len w).1.inbox
    given_before len [] outbox = refl
    given_before len (c ∷ cs) outbox = sym (take-drop len (c ∷ cs))

os-Accepts : Accepts os
os-Accepts [] w h = elim h [ ]
os-Accepts (c ∷ cs) w h = (0, refl)

abbrev pub fresh : Bytes → Pipe
fresh inbox = record { inbox = inbox; outbox = [] }

abbrev plain : TcpStream Pipe
plain = make_plain (fresh (1 ∷ 2 ∷ 3 ∷ [])) false

abbrev secure : TcpStream Pipe
secure = make_ssl (fresh (1 ∷ 2 ∷ 3 ∷ [])) true

plain-IsValid : IsValid plain
plain-IsValid = record { plain = λ e. refl; secure = λ e. cc; stopped = λ e. cc }

transfer-IsReported_example :
    IsReported os plain (TcpStream.read os 2 plain)
    × IsReported os plain (TcpStream.write os (7 ∷ []) plain)
transfer-IsReported_example = transfer-IsReported os 2 (7 ∷ []) plain plain-IsValid refl

transfer-IsHandshaken_example :
    (IsHandshaken os secure ⊎ IsWithheld os secure (TcpStream.read os 2 secure))
    × (IsHandshaken os secure ⊎ IsWithheld os secure (TcpStream.write os (7 ∷ []) secure))
transfer-IsHandshaken_example = transfer-IsHandshaken os 2 (7 ∷ []) secure refl refl

-- Two buffers, the second enqueued while the first is on its way, and a byte that the peer sends.
abbrev calls : List (Call Pipe)
calls =
    enqueue_call (1 ∷ 2 ∷ [])
    ∷ write_call
    ∷ outside (λ w. record w { inbox = w.inbox ++ 9 ∷ [] })
    ∷ enqueue_call (3 ∷ [])
    ∷ read_call 9
    ∷ []

run_sent_example :
    let h = run os calls (TcpSocketPollHandler.make plain 8 8) in
    (h.stream.bio.outbox ++ pending h.write_queue ≡ 1 ∷ 2 ∷ 3 ∷ []) × InBounds h.write_queue
run_sent_example =
    run_sent os (λ (w : Pipe). w.outbox) os-Sends calls plain 8 8
      (tt, (tt, (λ w. refl, (tt, (tt, tt)))))

abbrev loaded_ : TcpSocketPollHandler Pipe
loaded_ = record (TcpSocketPollHandler.make plain 8 8) {
  write_queue = (5 ∷ 6 ∷ 7 ∷ [], 1) ∷ (8 ∷ [], 0) ∷ [];
}

write-drains_example :
    ((TcpSocketPollHandler.write os 9 loaded_).1.write_queue ≡ [])
    × ((TcpSocketPollHandler.write os 9 loaded_).1.stream.bio.outbox
        ≡ [] ++ pending loaded_.write_queue)
unfolding pending
write-drains_example =
    write-drains os (λ (w : Pipe). w.outbox) os-Sends os-Accepts 9 loaded_ (omega arith)
      (record { opened = refl; shaken = λ e. cc; not_shut = λ e. cc }) (omega arith) (omega arith)

read-IsReceived_example :
    let r = TcpSocketPollHandler.read os 4 loaded_ in
    (r.0 ≡ ok (TcpSocketPollHandler.is_open r.1))
    × (input os (λ (w : Pipe). w.inbox) os-Receives r.1
        ≡ input os (λ (w : Pipe). w.inbox) os-Receives loaded_)
    × (r.1.write_queue ≡ loaded_.write_queue)
read-IsReceived_example =
    read-IsReceived os (λ (w : Pipe). w.inbox) os-Receives 4 loaded_ (omega arith)

-- The bytes are there as well when the functions are run.
drained : (TcpSocketPollHandler.write os 9 loaded_).1.stream.bio.outbox ≡ 6 ∷ 7 ∷ 8 ∷ []
unfolding TcpSocketPollHandler.write TcpSocketPollHandler.write_loop TcpStream.write
    TcpSocketPollHandler.after_write TcpStream.handshake_first TcpStream.shutdown_first
    TcpStream.write_bio TcpStream.after_write TcpSocketPollHandler.advance
    TcpSocketPollHandler.write_pending TcpStream.want_write
drained = refl
