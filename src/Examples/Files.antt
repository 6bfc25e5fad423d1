-- ===== src/Examples/Files.antt =====
-- The handler of a file at concrete inputs.
use cpp_prototype.Common.{ℕ, refl, [], ◌∷◌, ◌++◌, Bytes, true, arith}
use cpp_prototype.Io.FileStream.{FileCalls, Called, returned, would_block, readwrite}
use cpp_prototype.Io.FilePollHandler.{FilePollHandler, write}
use cpp_prototype.Io.TcpSocketPollHandler.Pending.{pending}
use cpp_prototype.Io.FilePollHandler.Writing.{Took, Appends, IsWritten, write-IsWritten}

-- A file that takes one byte in a call. Its state is what has been written.
abbrev write_one : Bytes → Bytes → Called ℕ × Bytes
write_one [] w = (would_block, w)
write_one (c ∷ buf) w = (returned 1, w ++ c ∷ [])

abbrev calls : FileCalls Bytes
calls = record { read = λ len w. (would_block, w); write = write_one }

one_taken : (buf w : Bytes) → Took w buf (write_one buf w).1 (write_one buf w).0
one_taken [] w = refl
one_taken (c ∷ buf) w = (omega arith, refl)

calls-Appends : Appends calls (λ w. w)
calls-Appends = record { takes = one_taken }

-- A handler of which the first byte has been written.
abbrev half_way : FilePollHandler Bytes
half_way = record {
  stream = record { descriptor = b'a' ∷ []; oflag = readwrite; is_open = true };
  read_queue = [];
  write_queue = (b'a' ∷ b'b' ∷ [], 1) ∷ (b'c' ∷ [], 0) ∷ [];
  read_bufsiz = 8;
  write_bufsiz = 8;
}

write-IsWritten_example : IsWritten calls (λ w. w) calls-Appends half_way (write calls 9 half_way)
unfolding pending
write-IsWritten_example =
    write-IsWritten calls (λ w. w) calls-Appends 9 half_way (omega arith, (omega arith, tt))
      (omega arith)
