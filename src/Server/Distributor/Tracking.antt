-- ===== src/Server/Distributor/Tracking.antt =====
-- The distributor has an interactor exactly for the connections of the poller.
use cpp_prototype.Common.{
  ℕ, zero, suc, ◌≡◌, refl, sym, ap, ◌∙◌, Bool, true, false, if◌then◌else◌, if_intro, if_cases,
  option_intro, List, [], ◌∷◌, Bytes, Option, none, some, length, Outcome, ok, err, Error, arith,
}
use cpp_prototype.Common.Key.{ℕ_key, same, same_iff}
use cpp_prototype.Common.Map.{Map, find, put, insert, erase, is_some, find-put, find-erase}
use cpp_prototype.Serialization.FrameBuffer.{FrameBuffer}
use cpp_prototype.Serialization.FrameReader
use cpp_prototype.Serialization.FrameReader.{FrameReader}
use cpp_prototype.Messages.Message.{Message}
use cpp_prototype.Messages.Codec.{deserialize}
use cpp_prototype.Io.Poller.{Reply}
use cpp_prototype.Io.Poller.Invariant.{IsTracking}
use cpp_prototype.Server.Authentication.{AuthenticationManager, load}
use cpp_prototype.Server.Distributor.{
  Interactor, Distributor, Surroundings, and_after, handle_message, handle_frame, take_frame, drain,
  written, receive, on_read, on_open, on_close, loaded, reload, on_error, distributor,
}

-- Whether there is an interactor for a descriptor.
abbrev pub has_interactor : ℕ → Distributor → Bool
has_interactor fd d = is_some (find fd d.interactors)

-- The same descriptors have interactors.
abbrev HasSame : Distributor → Distributor → Type 0
HasSame d d' = (k : ℕ) → has_interactor k d' ≡ has_interactor k d

put-HasSame :
    (fd : ℕ) (i j : Interactor) (m : Map ℕ Interactor)
    → find fd m ≡ some i
    → (k : ℕ) → is_some (find k (put fd j m)) ≡ is_some (find k m)
put-HasSame fd i j m e k =
    ap is_some (find-put k fd j m)
    ∙ if_cases (λ o. is_some o ≡ is_some (find k m)) (same k fd) (some j) (find k m)
        (λ s. sym (ap is_some (ap (λ x. find x m) ((same_iff k fd).0 s) ∙ e))) (λ s. refl)

put-is_some :
    (fd : ℕ) (j : Interactor) (m : Map ℕ Interactor) (k : ℕ)
    → is_some (find k (put fd j m)) ≡ (if same k fd then true else is_some (find k m))
put-is_some fd j m k = ground (arith, find-put k fd j m)

erase-is_some :
    (fd : ℕ) (m : Map ℕ Interactor) (k : ℕ)
    → is_some (find k (erase fd m)) ≡ (if same k fd then false else is_some (find k m))
erase-is_some fd m k = ground (arith, find-erase k fd m)

-- A key that is there is found, whether or not it is asked for.
found-is_some :
    (b : Bool) (fd : ℕ) (m : Map ℕ Interactor) (k : ℕ)
    → is_some (find fd m) ≡ b
    → is_some (find k m) ≡ (if same k fd then b else is_some (find k m))
found-is_some b fd m k e =
    if_cases (λ x. is_some (find k m) ≡ x) (same k fd) b (is_some (find k m))
      (λ s. ap (λ x. is_some (find x m)) ((same_iff k fd).0 s) ∙ e) (λ s. refl)

and_after-HasSame :
    (o : Option Error) (d : Distributor) (r rest : Reply Distributor)
    → HasSame d r.client
    → HasSame r.client rest.client
    → HasSame d (and_after o r rest).client
and_after-HasSame (some e) d r rest h g = h
and_after-HasSame none d r rest h g = λ k. g k ∙ h k

module _ (w : Surroundings) where
  handle_frame-HasSame :
      (fd : ℕ) (i j : Interactor) (o : Outcome (Message × FrameBuffer)) (d : Distributor)
      → find fd d.interactors ≡ some i
      → HasSame d (handle_frame w fd j o d).client
  unfolding handle_message
  handle_frame-HasSame fd i j (err e) d h = put-HasSame fd i j d.interactors h
  handle_frame-HasSame fd i j (ok (m, b)) d h = put-HasSame fd i _ d.interactors h

  take_frame-HasSame :
      (fd : ℕ) (i : Interactor) (o : Outcome (FrameBuffer × FrameReader)) (d : Distributor)
      → find fd d.interactors ≡ some i
      → HasSame d (take_frame w fd i o d).client
  take_frame-HasSame fd i (err e) d h = λ k. refl
  take_frame-HasSame fd i (ok (frame, reader)) d h =
      handle_frame-HasSame fd i (record i { reader = reader }) (deserialize frame) d h

  drain-HasSame : (fuel fd : ℕ) (d : Distributor) → HasSame d (drain w fuel fd d).client
  unfolding drain
  drain-HasSame zero fd d = λ k. refl
  drain-HasSame (suc fuel) fd d =
      option_intro (λ (r : Reply Distributor). HasSame d r.client) (find fd d.interactors) _ _
        (λ e k. refl)
        (λ i e.
          let r = take_frame w fd i (FrameReader.read i.reader) d in
          if_intro (λ (r : Reply Distributor). HasSame d r.client) (FrameReader.has_frame i.reader)
            _ _
            (and_after-HasSame r.thrown d r (drain w fuel fd r.client)
              (take_frame-HasSame fd i (FrameReader.read i.reader) d e)
              (drain-HasSame fuel fd r.client))
            (λ k. refl))

  written-HasSame :
      (fd : ℕ) (i : Interactor) (o : Outcome (FrameReader × Bool)) (d : Distributor)
      → find fd d.interactors ≡ some i
      → HasSame d (written w fd i o d).client
  written-HasSame fd i (err e) d h = λ k. refl
  written-HasSame fd i (ok (reader, b)) d h =
      let d' = record d { interactors = put fd (record i { reader = reader }) d.interactors } in
      λ k.
        drain-HasSame (suc (length reader.frames)) fd d' k
        ∙ put-HasSame fd i (record i { reader = reader }) d.interactors h k

  receive-HasSame : (fd : ℕ) (buf : Bytes) (d : Distributor) → HasSame d (receive w fd buf d).client
  unfolding receive
  receive-HasSame fd buf d =
      option_intro (λ (r : Reply Distributor). HasSame d r.client) (find fd d.interactors) _ _
        (λ e k. refl) (λ i e. written-HasSame fd i (FrameReader.write i.reader buf) d e)

  on_read-HasSame :
      (fd : ℕ) (bufs : List Bytes) (d : Distributor) → HasSame d (on_read w fd bufs d).client
  unfolding on_read
  on_read-HasSame fd [] d = λ k. refl
  on_read-HasSame fd (buf ∷ bufs) d =
      let r = receive w fd buf d in
      and_after-HasSame r.thrown d r (on_read w fd bufs r.client) (receive-HasSame fd buf d)
        (on_read-HasSame fd bufs r.client)

  loaded-HasSame :
      (o : Outcome AuthenticationManager) (d : Distributor) → HasSame d (loaded w o d).client
  loaded-HasSame (err e) d = λ k. refl
  loaded-HasSame (ok m) d = λ k. refl

  on_open-has_interactor :
      (k fd : ℕ) (host : Bytes) (port : ℕ) (d : Distributor)
      → has_interactor k (on_open w fd host port d).client
        ≡ (if same k fd then true else has_interactor k d)
  unfolding on_open insert
  on_open-has_interactor k fd host port d =
      option_intro
        (λ (m : Map ℕ Interactor).
          is_some (find k m) ≡ (if same k fd then true else has_interactor k d))
        (find fd d.interactors) _ _ (λ e. put-is_some fd _ d.interactors k)
        (λ i e. found-is_some true fd d.interactors k (ap is_some e))

  on_close-has_interactor :
      (k fd : ℕ) (d : Distributor)
      → has_interactor k (on_close w fd d).client
        ≡ (if same k fd then false else has_interactor k d)
  unfolding on_close
  on_close-has_interactor k fd d =
      option_intro
        (λ (r : Reply Distributor).
          has_interactor k r.client ≡ (if same k fd then false else has_interactor k d))
        (find fd d.interactors) _ _ (λ e. found-is_some false fd d.interactors k (ap is_some e))
        (λ i e. erase-is_some fd d.interactors k)

  -- The distributor keeps track of the connections, whatever it throws.
  pub distributor-IsTracking : IsTracking (distributor w) has_interactor (λ e. Unit)
  unfolding reload on_error
  distributor-IsTracking = record {
    on_startup = λ k d. loaded-HasSame (load w.files d.authentication_manager) d k;
    on_interrupt = λ k d. loaded-HasSame (load w.files d.authentication_manager) d k;
    on_open = on_open-has_interactor;
    on_close = on_close-has_interactor;
    on_read = λ k fd bufs d. on_read-HasSame fd bufs d k;
    on_error = λ k fd d. refl;
    exceptions = λ e x. tt;
    startup_throws = λ d e x. tt;
    interrupt_throws = λ d e x. tt;
    open_throws = λ fd host port d e x. tt;
    close_throws = λ fd d e x. tt;
    read_throws = λ fd bufs d e x. tt;
    error_throws = λ fd d e x. tt;
  }
