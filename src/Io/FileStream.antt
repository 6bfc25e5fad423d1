-- ===== src/Io/FileStream.antt =====
-- src/io/file_stream.hpp, and the members of src/io/file.hpp that it uses. The calls of the system
-- are an argument.
use cpp_prototype.Common.{
  ℕ, Bool, true, false, ◌&&◌, ◌==◌, if◌then◌else◌, Bytes, length, Outcome, ok, err, read_failed,
  write_failed,
}
use cpp_prototype.Io.Ssl.{Transfer, transferred, eof, blocked}

-- What ::read and ::write return: -1 where they would block, and where they have failed.
pub data Called {ℓ} (A : Type ℓ) : Type ℓ where
  returned : A → Called A
  would_block failed : Called A

-- The calls on a descriptor with a state `W`: the bytes that have been read, and how many have been
-- written.
pub record FileCalls (W : Type 0) : Type 0 where
  pub read : ℕ → W → Called Bytes × W
  pub write : Bytes → W → Called ℕ × W

pub data OpenFlag : Type 0 where
  readonly writeonly readwrite : OpenFlag

pub record FileStream (W : Type 0) : Type 0 where
  pub descriptor : W
  pub oflag : OpenFlag
  pub is_open : Bool

-- What a call returns or throws, and the stream after it.
abbrev pub Result {ℓ} : Type 0 → Type ℓ → Type ℓ
Result W A = Outcome A × FileStream W

abbrev is_readable : OpenFlag → Bool
is_readable writeonly = false
is_readable _ = true

abbrev is_writeable : OpenFlag → Bool
is_writeable readonly = false
is_writeable _ = true

module _ {W : Type 0} where
  unfoldable pub can_read : FileStream W → Bool
  can_read s = s.is_open && is_readable s.oflag

  unfoldable pub can_write : FileStream W → Bool
  can_write s = s.is_open && is_writeable s.oflag

  abbrev pub closed : FileStream W → FileStream W
  closed s = record s { is_open = false }

  -- What `read` and `write` do after the call of the system.
  unfoldable pub after_read : Called Bytes → FileStream W → Result W (Transfer Bytes)
  after_read failed s = (err read_failed, closed s)
  after_read would_block s = (ok blocked, s)
  after_read (returned buf) s =
      if length buf == 0 then (ok eof, closed s) else (ok (transferred buf), s)

  unfoldable pub after_write : Called ℕ → FileStream W → Result W (Transfer ℕ)
  after_write failed s = (err write_failed, closed s)
  after_write would_block s = (ok blocked, s)
  after_write (returned n) s = if n == 0 then (ok eof, closed s) else (ok (transferred n), s)

module _ {W : Type 0} (calls : FileCalls W) where
  unfoldable pub read : ℕ → FileStream W → Result W (Transfer Bytes)
  read len s =
      let (called, w) = calls.read len s.descriptor in
      after_read called (record s { descriptor = w })

  unfoldable pub write : Bytes → FileStream W → Result W (Transfer ℕ)
  write buf s =
      let (called, w) = calls.write buf s.descriptor in
      after_write called (record s { descriptor = w })
