-- ===== src/Server/Distributor.antt =====
-- src/server/distributor.cpp and .hpp: the client of the poller, which has an interactor for each
-- connection; with the constructor and `receive` of src/server/interactor.cpp.
pub mod Tracking
use cpp_prototype.Common.{
  ℕ, zero, suc, Bool, true, false, ◌==◌, if◌then◌else◌, List, [], ◌∷◌, ◌++◌, Bytes, Option, none,
  some, length, Outcome, ok, err, Error, undefined, out_of_fuel,
}
use cpp_prototype.Common.Key.{ℕ_key}
use cpp_prototype.Common.Map.{Map, find, put, insert, erase}
use cpp_prototype.Serialization.FrameBuffer.{FrameBuffer}
use cpp_prototype.Serialization.FrameReader
use cpp_prototype.Serialization.FrameReader.{FrameReader}
use cpp_prototype.Messages.Message.{Message}
use cpp_prototype.Messages.Codec.{deserialize}
use cpp_prototype.Io.Poller.{Request, write_to, close_fd, Reply, PollClient}
use cpp_prototype.Server.Effects.{Address, Peer, Sent, Regex, Done}
use cpp_prototype.Server.Authentication.{AuthenticationManager, authenticator, load}
use cpp_prototype.Server.Hub.{Hub, Yaml, on_interrupt, on_disconnected}
use cpp_prototype.Server.Interactor.{send}
use cpp_prototype.Server.Session.{Processed, process_message}

pub record Interactor : Type 0 where
  pub address : Address
  pub fd : ℕ
  pub host : Bytes
  pub id : Bytes
  pub reader : FrameReader
  pub user : Option Bytes

-- `created` counts the interactors made so far: the next is at that address.
pub record Distributor : Type 0 where
  pub interactors : Map ℕ Interactor
  pub authentication_manager : AuthenticationManager
  pub hub : Hub
  pub created : ℕ

-- The libraries and files that the server uses, the identifiers that uuid::generate gives out, and
-- what is read of an interactor that is no longer there, or of a user that is not known.
pub record Surroundings : Type 0 where
  pub rx : Regex
  pub yaml : Yaml
  pub files : Bytes → Option (List Bytes)
  pub md5 : Bytes → Bytes
  pub ids : ℕ → Bytes
  pub unspecified : Address → Peer

abbrev pub quiet : Distributor → Reply Distributor
quiet d = record { client = d; requests = []; thrown = none }

abbrev pub throw : Error → Distributor → Reply Distributor
throw e d = record { client = d; requests = []; thrown = some e }

-- What comes after, unless an exception has been thrown.
abbrev pub and_after : Option Error → Reply Distributor → Reply Distributor → Reply Distributor
and_after (some e) r rest = r
and_after none r rest = record rest { requests = r.requests ++ rest.requests }

-- The interactor at an address.
unfoldable pub at_address : Address → Map ℕ Interactor → Option Interactor
at_address a [] = none
at_address a ((fd, i) ∷ m) = let rest = at_address a m in if a == i.address then some i else rest

abbrev pub peer_of : Peer → Option Interactor → Peer
peer_of p none = record p { is_freed = true }
peer_of p (some i) = record {
  user = elim (i.user) [ none ↦ p.user | some user ↦ user ];
  host = i.host;
  id = i.id;
  is_freed = false;
}

unfoldable pub peers_of : Surroundings → Map ℕ Interactor → Address → Peer
peers_of w m a = peer_of (w.unspecified a) (at_address a m)

-- The calls of the poller that sending makes, up to an exception of `serialize`.
unfoldable pub deliver : Map ℕ Interactor → List Sent → List Request × Option Error
deliver m [] = ([], none)
deliver m (s ∷ ss) = elim (at_address s.receiver m) [
  | none ↦ ([], some undefined)
  | some i ↦ elim (send s.message) [
    | err e ↦ ([], some e)
    | ok buf ↦ (write_to i.fd buf ∷ (deliver m ss).0, (deliver m ss).1)
  ]
]

abbrev pub first_of : Option Error → Option Error → Option Error
first_of (some e) _ = some e
first_of none e = e

module _ (w : Surroundings) where
  -- `process_message` of the interactor that `i` is, with the frame already taken from its reader.
  unfoldable pub handle_message : ℕ → Interactor → Message → Distributor → Reply Distributor
  handle_message fd i m d =
      let p =
        process_message (authenticator w.md5 d.authentication_manager) i.address w.rx
          (peers_of w d.interactors) m i.user d.hub in
      let interactors = put fd (record i { user = p.user }) d.interactors in
      let (requests, failed) = deliver interactors p.sent in
      record {
        client = record d { interactors = interactors; hub = p.hub };
        requests = if p.is_closed then close_fd i.fd ∷ requests else requests;
        thrown = first_of failed p.thrown;
      }

  -- What `Message::deserialize` gives of a frame.
  abbrev pub handle_frame :
      ℕ → Interactor → Outcome (Message × FrameBuffer) → Distributor → Reply Distributor
  handle_frame fd i (err e) d = throw e (record d { interactors = put fd i d.interactors })
  handle_frame fd i (ok (m, _)) d = handle_message fd i m d

  abbrev pub take_frame :
      ℕ → Interactor → Outcome (FrameBuffer × FrameReader) → Distributor → Reply Distributor
  take_frame fd i (err e) d = throw e d
  take_frame fd i (ok (frame, reader)) d =
      handle_frame fd (record i { reader = reader }) (deserialize frame) d

  -- The loop of `receive`.
  unfoldable pub drain : ℕ → ℕ → Distributor → Reply Distributor
  drain zero fd d = throw out_of_fuel d
  drain (suc fuel) fd d = elim (find fd d.interactors) [
    | none ↦ quiet d
    | some i ↦
        let r = take_frame fd i (FrameReader.read i.reader) d in
        let rest = drain fuel fd r.client in
        if FrameReader.has_frame i.reader then and_after r.thrown r rest else quiet d
  ]

  -- One round for each frame, and one to stop.
  abbrev pub written :
      ℕ → Interactor → Outcome (FrameReader × Bool) → Distributor → Reply Distributor
  written fd i (err e) d = throw e d
  written fd i (ok (reader, _)) d =
      drain (suc (length reader.frames)) fd
        (record d { interactors = put fd (record i { reader = reader }) d.interactors })

  unfoldable pub receive : ℕ → Bytes → Distributor → Reply Distributor
  receive fd buf d = elim (find fd d.interactors) [
    | none ↦ quiet d
    | some i ↦ written fd i (FrameReader.write i.reader buf) d
  ]

  unfoldable pub on_read : ℕ → List Bytes → Distributor → Reply Distributor
  on_read fd [] d = quiet d
  on_read fd (buf ∷ bufs) d =
      let r = receive fd buf d in and_after r.thrown r (on_read fd bufs r.client)

  unfoldable pub on_open : ℕ → Bytes → ℕ → Distributor → Reply Distributor
  on_open fd host port d =
      let interactor : Interactor = record {
        address = d.created;
        fd = fd;
        host = host;
        id = w.ids d.created;
        reader = FrameReader.empty;
        user = none;
      } in
      quiet (record d { interactors = insert fd interactor d.interactors; created = suc d.created })

  -- The interactor is freed once the hub has forgotten it.
  unfoldable pub on_close : ℕ → Distributor → Reply Distributor
  on_close fd d = elim (find fd d.interactors) [
    | none ↦ quiet d
    | some i ↦
        let done = on_disconnected w.rx (peers_of w d.interactors) i.address d.hub in
        let (requests, failed) = deliver d.interactors done.sent in
        record {
          client = record d { interactors = erase fd d.interactors; hub = done.state };
          requests = requests;
          thrown = first_of failed done.thrown;
        }
  ]

  -- `hub_.on_startup ()`, which sends nothing.
  abbrev pub reload_hub : Distributor → Reply Distributor
  reload_hub d =
      let done = on_interrupt w.rx w.yaml d.hub in
      record { client = record d { hub = done.state }; requests = []; thrown = done.thrown }

  abbrev pub loaded : Outcome AuthenticationManager → Distributor → Reply Distributor
  loaded (err e) d = throw e d
  loaded (ok m) d = reload_hub (record d { authentication_manager = m })

  -- `on_startup` and `on_interrupt`: both only reload.
  unfoldable pub reload : Distributor → Reply Distributor
  reload d = loaded (load w.files d.authentication_manager) d

  unfoldable pub on_error : ℕ → Distributor → Reply Distributor
  on_error fd d = quiet d

  abbrev pub distributor : PollClient Distributor
  distributor = record {
    on_startup = reload;
    on_interrupt = reload;
    on_open = on_open;
    on_close = on_close;
    on_read = on_read;
    on_error = on_error;
  }
