-- ===== src/Server/Publishers/Selection.antt =====
-- Which packets the publisher manager forwards, as the two entitlements have it.
use cpp_prototype.Common.{
  ◌≡◌, refl, ◌∙◌, Bool, true, false, not, ◌&&◌, ◌||◌, List, [], ◌∷◌, Option, none, some,
  if◌then◌else◌, All, arith,
}
use cpp_prototype.Common.Int.{ℤ}
use cpp_prototype.Common.Key.{ℤ_key, same_iff}
use cpp_prototype.Common.Set
use cpp_prototype.Common.Set.{Set, intersection, contains-intersection}
use cpp_prototype.Messages.Message.{DataPacket}
use cpp_prototype.Server.Publishers.{is_authorized, get_authorized_data, no_packets, select}

-- The publisher and the receiver are both entitled to a packet.
abbrev pub BothEntitled : Set ℤ → Set ℤ → DataPacket → Type 0
BothEntitled publishers receivers d =
    (Set.contains d.entitlement publishers ≡ true) × (Set.contains d.entitlement receivers ≡ true)

get_authorized_data-All :
    (publishers receivers : Set ℤ) (packets : List DataPacket)
    → All
        (BothEntitled publishers receivers)
        (get_authorized_data packets (intersection publishers receivers))
unfolding get_authorized_data is_authorized
get_authorized_data-All publishers receivers [] = tt
get_authorized_data-All publishers receivers (d ∷ ds) = ground (
  arith,
  contains-intersection d.entitlement publishers receivers,
  get_authorized_data-All publishers receivers ds,
)

-- Every packet that is forwarded is one to which the publisher and the receiver are both entitled.
pub select-All :
    (publishers receivers : Set ℤ) (packets chosen : List DataPacket)
    → select publishers receivers packets ≡ some chosen
    → All (BothEntitled publishers receivers) chosen
unfolding select
select-All publishers receivers packets chosen h =
    ground (arith, get_authorized_data-All publishers receivers packets)

-- What both are entitled to, one packet after the other.
abbrev pub permitted : Set ℤ → Set ℤ → List DataPacket → List DataPacket
permitted publishers receivers [] = []
permitted publishers receivers (d ∷ ds) =
    let rest = permitted publishers receivers ds in
    if Set.contains d.entitlement publishers && Set.contains d.entitlement receivers
    then d ∷ rest
    else rest

-- There is an entitlement that both have.
abbrev pub share : Set ℤ → Set ℤ → Bool
share [] receivers = false
share (e ∷ es) receivers = Set.contains e receivers || share es receivers

abbrev pub unless_none : List DataPacket → Option (List DataPacket)
unless_none [] = none
unless_none (d ∷ ds) = some (d ∷ ds)

-- What the two sets of entitlements let through of a message: the permitted packets, and no message
-- where there is none. A message without packets passes where they share an entitlement, or the
-- publisher has none at all.
abbrev pub let_through : Set ℤ → Set ℤ → List DataPacket → Option (List DataPacket)
let_through publishers receivers [] =
    if Set.is_empty publishers || share publishers receivers then some [] else none
let_through publishers receivers (d ∷ ds) = unless_none (permitted publishers receivers (d ∷ ds))

get_authorized_data-permitted :
    (publishers receivers : Set ℤ) (packets : List DataPacket)
    → get_authorized_data packets (intersection publishers receivers)
      ≡ permitted publishers receivers packets
unfolding get_authorized_data is_authorized
get_authorized_data-permitted publishers receivers [] = refl
get_authorized_data-permitted publishers receivers (d ∷ ds) =
    rw
      (
        contains-intersection d.entitlement publishers receivers,
        get_authorized_data-permitted publishers receivers ds,
      )
      refl

is_empty-intersection :
    (publishers receivers : Set ℤ)
    → Set.is_empty (intersection publishers receivers) ≡ not (share publishers receivers)
unfolding Set.is_empty intersection
is_empty-intersection [] receivers = refl
is_empty-intersection (e ∷ es) receivers = ground (arith, is_empty-intersection es receivers)

share_none :
    (e : ℤ) (publishers receivers : Set ℤ)
    → share publishers receivers ≡ false
    → (Set.contains e publishers && Set.contains e receivers) ≡ false
unfolding Set.contains
share_none e [] receivers h = refl
share_none e (j ∷ js) receivers h = ground (arith, share_none e js receivers, same_iff e j)

permitted-apart :
    (publishers receivers : Set ℤ) (packets : List DataPacket)
    → share publishers receivers ≡ false
    → permitted publishers receivers packets ≡ []
permitted-apart publishers receivers [] h = refl
permitted-apart publishers receivers (d ∷ ds) h =
    rw (share_none d.entitlement publishers receivers h, permitted-apart publishers receivers ds h)
      refl

-- The two tests of the code, where there are packets.
tested :
    (is_empty shared : Bool) (ps : List DataPacket)
    → (shared ≡ false → ps ≡ [])
    → (if not is_empty && not shared then none else if no_packets ps then none else some ps)
      ≡ unless_none ps
tested true shared [] h = refl
tested true shared (d ∷ ds) h = refl
tested false true [] h = refl
tested false true (d ∷ ds) h = refl
tested false false ps h = rw (h refl) refl

abbrev no_data : List DataPacket
no_data = []

-- And where there are none.
tested_nil :
    (is_empty shared : Bool)
    → (if not is_empty && not shared then none else some no_data)
      ≡ (if is_empty || shared then some no_data else none)
tested_nil true shared = refl
tested_nil false true = refl
tested_nil false false = refl

-- The two tests of the code come to what is let through.
pub select-let_through :
    (publishers receivers : Set ℤ) (packets : List DataPacket)
    → select publishers receivers packets ≡ let_through publishers receivers packets
unfolding select get_authorized_data
select-let_through publishers receivers [] =
    rw (is_empty-intersection publishers receivers)
      (tested_nil (Set.is_empty publishers) (share publishers receivers))
select-let_through publishers receivers (d ∷ ds) =
    rw
      (
        is_empty-intersection publishers receivers,
        get_authorized_data-permitted publishers receivers (d ∷ ds),
      )
      (tested (Set.is_empty publishers) (share publishers receivers)
        (permitted publishers receivers (d ∷ ds)) (permitted-apart publishers receivers (d ∷ ds)))

pub let_through-All :
    (publishers receivers : Set ℤ) (packets chosen : List DataPacket)
    → let_through publishers receivers packets ≡ some chosen
    → All (BothEntitled publishers receivers) chosen
let_through-All publishers receivers packets chosen h =
    select-All publishers receivers packets chosen
      (select-let_through publishers receivers packets ∙ h)
