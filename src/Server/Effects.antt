-- ===== src/Server/Effects.antt =====
-- What the managers of src/server share: the interactors that they hold pointers to, the messages
-- that they send, and the regular expressions, which the standard library implements.
use cpp_prototype.Common.{
  ℕ, Bool, false, ◌≡◌, refl, List, [], ◌∷◌, Bytes, Option, none, some, Error, undefined, All,
  if◌then◌else◌,
}
use cpp_prototype.Messages.Message.{Message}

-- An `Interactor*`: the address of the object.
abbrev pub Address : Type 0
Address = ℕ

-- What the managers read of an interactor: `user ()`, `host ()` and `id ()`. To read it of an object
-- that has been freed is undefined.
pub record Peer : Type 0 where
  pub is_freed : Bool
  pub user : Bytes
  pub host : Bytes
  pub id : Bytes

-- One call `interactor->send (message)`.
pub record Sent : Type 0 where
  pub receiver : Address
  pub message : Message

-- std::regex: which patterns its constructor accepts, and `std::regex_match` of a topic or a user
-- with a pattern, which is taken to end without an exception. A compiled expression is its pattern.
pub record Regex : Type 0 where
  pub is_valid : Bytes → Bool
  pub matches : Bytes → Bytes → Bool

-- The state after a call, the messages that it sent in order, and the exception that left it, if any.
pub record Done {ℓ} (S : Type ℓ) : Type ℓ where
  pub state : S
  pub sent : List Sent
  pub thrown : Option Error

abbrev pub done {ℓ} : {S : Type ℓ} → S → List Sent → Done S
done s sent = record { state = s; sent = sent; thrown = none }

-- Reading the interactors at some addresses.
unfoldable pub reads_freed : (Address → Peer) → List Address → Option Error
reads_freed peers [] = none
reads_freed peers (a ∷ as') =
    let rest = reads_freed peers as' in if (peers a).is_freed then some undefined else rest

-- None of the interactors has been freed.
abbrev pub AreAlive : (Address → Peer) → List Address → Type 0
AreAlive peers = All (λ a. (peers a).is_freed ≡ false)

pub reads_freed-none :
    (peers : Address → Peer) (as' : List Address)
    → AreAlive peers as'
    → reads_freed peers as' ≡ none
unfolding reads_freed
reads_freed-none peers [] h = refl
reads_freed-none peers (a ∷ as') h = rw h.0 (reads_freed-none peers as' h.1)
