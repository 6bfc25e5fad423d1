-- ===== src/Server/Publishers.antt =====
-- src/server/publisher_manager.cpp and .hpp.
pub mod Selection
pub mod Delivery
pub mod Tables
pub mod Closing
pub mod Unicast
pub mod Receivers
use cpp_prototype.Common.{
  Bool, true, false, not, ◌&&◌, ◌||◌, List, [], ◌∷◌, ◌++◌, map, Bytes, Option, none, some,
  if◌then◌else◌,
}
use cpp_prototype.Common.Int.{ℤ}
use cpp_prototype.Common.Key.{Key, bytes_key, ℕ_key, ℤ_key}
use cpp_prototype.Common.Map
use cpp_prototype.Common.Map.{Map, find}
use cpp_prototype.Common.Set
use cpp_prototype.Common.Set.{Set, intersection}
use cpp_prototype.Messages.Message.{
  DataPacket, MulticastData, UnicastData, forwarded_multicast, forwarded_unicast,
}
use cpp_prototype.Server.Effects.{Address, Peer, Sent, Regex, Done, done, reads_freed}
use cpp_prototype.Server.Authorization
use cpp_prototype.Server.Authorization.{
  AuthorizationRepository, AuthorizationManager, entitlements, subscriber, publisher,
}
use cpp_prototype.Server.Subscriptions.{SubscriptionManager, find_subscribers}

pub record PublisherManager : Type 0 where
  pub authorization_manager : AuthorizationManager
  pub topic_publishers : Map Bytes (Set Address)
  pub publisher_topics : Map Address (Set Bytes)

-- `DataPacket::is_authorized`
unfoldable pub is_authorized : Set ℤ → DataPacket → Bool
is_authorized granted d = Set.contains d.entitlement granted

unfoldable pub get_authorized_data : List DataPacket → Set ℤ → List DataPacket
unfolding is_authorized
get_authorized_data [] granted = []
get_authorized_data (d ∷ ds) granted =
    let rest = get_authorized_data ds granted in if is_authorized granted d then d ∷ rest else rest

abbrev pub no_packets : List DataPacket → Bool
no_packets [] = true
no_packets (_ ∷ _) = false

-- What both send operations forward of the packets, given the entitlements of the publisher and of
-- the receiver: nothing at all, or a message with these packets.
unfoldable pub select : Set ℤ → Set ℤ → List DataPacket → Option (List DataPacket)
unfolding get_authorized_data
select publishers receivers packets =
    let common = intersection publishers receivers in
    let authorized = get_authorized_data packets common in
    if not (Set.is_empty publishers) && Set.is_empty common
    then none
    else if not (no_packets packets) && no_packets authorized
    then none
    else some authorized

-- One table of `add_publisher`: `value` joins the set of `k`.
unfoldable pub join {ℓ κ} :
    {K : Type ℓ} {V : Type κ} ⦃key : Key K⦄ ⦃key' : Key V⦄ → K → V → Map K (Set V) → Map K (Set V)
join k v m = elim (find k m) [
  | none ↦ Map.insert k (v ∷ []) m
  | some s ↦ Map.put k (Set.insert v s) m
]

unfoldable pub add_publisher : Address → Bytes → PublisherManager → PublisherManager
unfolding join
add_publisher publisher' topic p = record p {
  topic_publishers = join topic publisher' p.topic_publishers;
  publisher_topics = join publisher' topic p.publisher_topics;
}

-- The entitlements of a user, with the manager after: the query may fill the cache.
unfoldable pub query :
    Regex → Bytes → Bytes → Authorization.Role → PublisherManager → Set ℤ × PublisherManager
query rx user topic role p =
    let m = p.authorization_manager in
    let (granted, r) = entitlements rx user topic role m.repository in
    (granted, record p { authorization_manager = record m { repository = r } })

module _ (rx : Regex) (peers : Address → Peer) where
  unfoldable pub on_send_unicast :
      Map Bytes Address → Address → UnicastData → PublisherManager → PublisherManager × List Sent
  on_send_unicast interactors publisher' request p = elim (find request.client_id interactors) [
    | none ↦ (p, [])
    | some receiver ↦
        let (from, p1) = query rx (peers publisher').user request.topic publisher p in
        let (to, p2) = query rx (peers receiver).user request.topic subscriber p1 in
        elim (select from to request.data_packets) [
          | none ↦ (p2, [])
          | some packets ↦ (
            add_publisher publisher' request.topic p2,
            record {
              receiver = receiver;
              message = forwarded_unicast (record {
                user = (peers publisher').user;
                host = (peers publisher').host;
                client_id = request.client_id;
                topic = request.topic;
                data_packets = packets;
              });
            }
                ∷ [],
          )
        ]
  ]

  -- The message of `on_send_multicast` and of `on_interactor_closed`.
  abbrev pub multicast_from : Address → Bytes → List DataPacket → Address → Sent
  multicast_from publisher' topic packets receiver = record {
    receiver = receiver;
    message = forwarded_multicast (record {
      user = (peers publisher').user;
      host = (peers publisher').host;
      topic = topic;
      data_packets = packets;
    });
  }

  abbrev pub forward : Address → Bytes → Address → Option (List DataPacket) → List Sent
  forward publisher' topic receiver none = []
  forward publisher' topic receiver (some packets) =
      multicast_from publisher' topic packets receiver ∷ []

  -- The loop over the subscribers, with `has_published`.
  unfoldable pub send_each :
      Set ℤ
      → Address
      → MulticastData
      → List Address
      → PublisherManager
      → PublisherManager × List Sent × Bool
  send_each from publisher' request [] p = (p, [], false)
  send_each from publisher' request (s ∷ ss) p =
      let (to, p1) = query rx (peers s).user request.topic subscriber p in
      let chosen = select from to request.data_packets in
      let (p2, sent, has_published) = send_each from publisher' request ss p1 in
      (p2, forward publisher' request.topic s chosen ++ sent, Map.is_some chosen || has_published)

  -- The rest of `on_send_multicast`, when there are subscribers.
  unfoldable pub publish_to :
      List Address → Address → MulticastData → PublisherManager → PublisherManager × List Sent
  publish_to subscribers publisher' request p =
      let (from, p1) = query rx (peers publisher').user request.topic publisher p in
      let (p2, sent, has_published) = send_each from publisher' request subscribers p1 in
      (if has_published then add_publisher publisher' request.topic p2 else p2, sent)

  -- The loop reads the user of each subscriber.
  unfoldable pub on_send_multicast :
      SubscriptionManager → Address → MulticastData → PublisherManager → Done PublisherManager
  on_send_multicast subscriptions publisher' request p =
      let p1 = add_publisher publisher' request.topic p in
      let subscribers = find_subscribers subscriptions request.topic in
      let (p2, sent) =
        if Set.is_empty subscribers
        then (p1, [])
        else publish_to subscribers publisher' request p1 in
      record { state = p2; sent = sent; thrown = reads_freed peers subscribers }

  -- The first loop of `on_interactor_closed`: the publisher leaves every topic, and the topics that
  -- have no publisher then are stale.
  unfoldable pub leave_topics :
      Address → Map Bytes (Set Address) → Set Bytes → Map Bytes (Set Address) × Set Bytes
  leave_topics interactor [] stale = ([], stale)
  leave_topics interactor ((topic, publishers) ∷ m) stale =
      let left = Set.erase interactor publishers in
      let (m', stale') =
        leave_topics interactor m (if Set.is_empty left then Set.insert topic stale else stale) in
      ((topic, left) ∷ m', stale')

  -- The second loop: the stale topics go, and their subscribers get a message with no packets.
  unfoldable pub drop_stale :
      SubscriptionManager
      → Address
      → List Bytes
      → Map Bytes (Set Address)
      → Map Bytes (Set Address) × List Sent
  drop_stale subscriptions interactor [] m = (m, [])
  drop_stale subscriptions interactor (topic ∷ topics) m =
      let (m', sent) = drop_stale subscriptions interactor topics (Map.erase topic m) in
      (m', map (multicast_from interactor topic []) (find_subscribers subscriptions topic) ++ sent)

  -- Whom it sends to.
  unfoldable pub stale_subscribers : SubscriptionManager → List Bytes → List Address
  stale_subscribers subscriptions [] = []
  stale_subscribers subscriptions (topic ∷ topics) =
      find_subscribers subscriptions topic ++ stale_subscribers subscriptions topics

  unfoldable pub on_interactor_closed :
      SubscriptionManager → Address → PublisherManager → Done PublisherManager
  unfolding leave_topics drop_stale
  on_interactor_closed subscriptions interactor p = elim (find interactor p.publisher_topics) [
    | none ↦ done p []
    | some _ ↦
        let (left, stale) = leave_topics interactor p.topic_publishers [] in
        let (m, sent) = drop_stale subscriptions interactor stale left in
        record {
          state = record p {
            topic_publishers = m;
            publisher_topics = Map.erase interactor p.publisher_topics;
          };
          sent = sent;
          thrown = reads_freed peers (stale_subscribers subscriptions stale);
        }
  ]
