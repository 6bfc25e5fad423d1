-- ===== src/Server/Hub/Delivery.antt =====
-- Which packets each manager lets into the messages that it sends.
use cpp_prototype.Common.{
  ℕ, ◌≡◌, refl, sym, Bool, true, false, inl, inr, List, [], ◌∷◌, Bytes, Option, none, some, All,
  All-append, All-map, arith, Option-cases, Bool-cases,
}
use cpp_prototype.Common.Key.{bytes_key, ℕ_key, ℤ_key}
use cpp_prototype.Common.Map
use cpp_prototype.Common.Map.{Map, find}
use cpp_prototype.Common.Set.{Set}
use cpp_prototype.Messages.Message.{
  Message, DataPacket, MulticastData, UnicastData, SubscriptionRequest, NotificationRequest,
  forwarded_multicast, forwarded_unicast,
}
use cpp_prototype.Server.Effects.{Address, Peer, Sent, Regex}
use cpp_prototype.Server.Authorization.{AuthorizationSpec, subscriber, publisher}
use cpp_prototype.Server.Authorization.Coherence.{granted}
use cpp_prototype.Server.Publishers.{
  PublisherManager, on_send_unicast, on_send_multicast, forward, drop_stale, multicast_from,
}
use cpp_prototype.Server.Publishers
use cpp_prototype.Server.Publishers.Delivery.{due_all}
use cpp_prototype.Server.Publishers.Selection.{BothEntitled, let_through, let_through-All}
use cpp_prototype.Server.Publishers.Unicast.{forward_to, due_to}
use cpp_prototype.Server.Subscriptions
use cpp_prototype.Server.Subscriptions.{
  SubscriptionManager, find_subscribers, find_matching_subscriptions, count_subscription,
  add_subscription, remove_counted, remove_subscription, leave_topic, leave_topics, on_subscription,
}
use cpp_prototype.Server.Notifications.{NotificationManager, notify, about, find_listeners}
use cpp_prototype.Server.Listening.{tell_topic, tell_all, add_pattern, add_listener, on_listen}

-- A user may see a packet of a topic, and another may publish it.
abbrev pub MaySee : Regex → List AuthorizationSpec → Bytes → Bytes → Bytes → DataPacket → Type 0
MaySee rx ss from to topic d =
    BothEntitled (granted rx ss from topic publisher) (granted rx ss to topic subscriber) d

module _ (rx : Regex) (peers : Address → Peer) (ss : List AuthorizationSpec) where
  -- A message with data carries only packets that the specifications let the user it names publish,
  -- and let the user it is sent to see. No other message is restricted.
  abbrev pub IsAllowedMessage : Address → Message → Type 0
  IsAllowedMessage to (forwarded_multicast m) =
      All (MaySee rx ss m.user (peers to).user m.topic) m.data_packets
  IsAllowedMessage to (forwarded_unicast m) =
      All (MaySee rx ss m.user (peers to).user m.topic) m.data_packets
  IsAllowedMessage to _ = Unit {0}

  abbrev pub IsAllowed : Sent → Type 0
  IsAllowed s = IsAllowedMessage s.receiver s.message

  forward-IsAllowed :
      (a : Address) (topic : Bytes) (packets : List DataPacket) (s : Address)
      (o : Option (List DataPacket))
      → o
        ≡ let_through
            (granted rx ss (peers a).user topic publisher)
            (granted rx ss (peers s).user topic subscriber)
            packets
      → All IsAllowed (forward rx peers a topic s o)
  forward-IsAllowed a topic packets s none e = tt
  forward-IsAllowed a topic packets s (some chosen) e =
      (let_through-All _ _ packets chosen (sym e), tt)

  pub due_all-IsAllowed :
      (a : Address) (request : MulticastData) (subscribers : List Address)
      → All IsAllowed (
          due_all rx peers a request ss
            (granted rx ss (peers a).user request.topic publisher)
            subscribers)
  due_all-IsAllowed a request [] = tt
  due_all-IsAllowed a request (s ∷ rest) =
      All-append IsAllowed _ _ (forward-IsAllowed a request.topic request.data_packets s _ refl)
        (due_all-IsAllowed a request rest)

  forward_to-IsAllowed :
      (a : Address) (request : UnicastData) (s : Address) (o : Option (List DataPacket))
      → o
        ≡ let_through
            (granted rx ss (peers a).user request.topic publisher)
            (granted rx ss (peers s).user request.topic subscriber)
            request.data_packets
      → All IsAllowed (forward_to rx peers a request s o)
  forward_to-IsAllowed a request s none e = tt
  forward_to-IsAllowed a request s (some chosen) e =
      (let_through-All _ _ request.data_packets chosen (sym e), tt)

  pub due_to-IsAllowed :
      (a : Address) (request : UnicastData) (receiver : Option Address)
      → All IsAllowed (due_to rx peers a request ss receiver)
  due_to-IsAllowed a request none = tt
  due_to-IsAllowed a request (some s) = forward_to-IsAllowed a request s _ refl

  notify-IsAllowed :
      (n : NotificationManager) (a : Address) (topic : Bytes) (is_add : Bool)
      → All IsAllowed (notify rx peers n a topic is_add)
  unfolding notify
  notify-IsAllowed n a topic is_add =
      All-map IsAllowed (about (peers a) topic is_add) (find_listeners rx n topic) (λ b. tt)

  count_subscription-IsAllowed :
      (n : NotificationManager) (a : Address) (topic : Bytes) (m : Map Bytes (Map Address ℕ))
      → All IsAllowed (count_subscription rx peers n a topic m).1
  unfolding count_subscription
  count_subscription-IsAllowed n a topic m = elim (Option-cases (find topic m)) [
    | inl e ↦ ground (arith, notify-IsAllowed n a topic true)
    | inr (subscribers, e) ↦ elim (Option-cases (find a subscribers)) [
      | inl f ↦ ground (arith, notify-IsAllowed n a topic true)
      | inr (c, f) ↦ ground arith
    ]
  ]

  remove_subscription-IsAllowed :
      (n : NotificationManager) (a : Address) (topic : Bytes) (s : SubscriptionManager)
      → All IsAllowed (remove_subscription rx peers n a topic s).1
  unfolding remove_subscription remove_counted
  remove_subscription-IsAllowed n a topic s = elim (Option-cases (find topic s.subscriptions)) [
    | inl e ↦ ground arith
    | inr (subscribers, e) ↦ elim (Option-cases (find a subscribers)) [
      | inl f ↦ ground arith
      | inr (c, f) ↦ ground (arith, notify-IsAllowed n a topic false)
    ]
  ]

  pub on_subscription-IsAllowed :
      (n : NotificationManager) (a : Address) (request : SubscriptionRequest)
      (s : SubscriptionManager)
      → All IsAllowed (on_subscription rx peers n a request s).1
  unfolding on_subscription add_subscription
  on_subscription-IsAllowed n a request s = elim (Bool-cases request.is_add) [
    | inl add ↦ rw add (count_subscription-IsAllowed n a request.topic s.subscriptions)
    | inr remove ↦ rw remove (remove_subscription-IsAllowed n a request.topic s)
  ]

  leave_topic-IsAllowed :
      (n : NotificationManager) (a : Address) (topic : Bytes) (m : Map Bytes (Map Address ℕ))
      → All IsAllowed (leave_topic rx peers n a topic m).1
  unfolding leave_topic
  leave_topic-IsAllowed n a topic m = elim (Option-cases (find topic m)) [
    | inl e ↦ ground arith
    | inr (subscribers, e) ↦ ground (arith, notify-IsAllowed n a topic false)
  ]

  leave_topics-IsAllowed :
      (n : NotificationManager) (a : Address) (topics : List Bytes) (m : Map Bytes (Map Address ℕ))
      → All IsAllowed (leave_topics rx peers n a topics m).1
  unfolding leave_topics
  leave_topics-IsAllowed n a [] m = tt
  leave_topics-IsAllowed n a (t ∷ ts) m =
      All-append IsAllowed _ _ (leave_topic-IsAllowed n a t m) (leave_topics-IsAllowed n a ts _)

  drop_stale-IsAllowed :
      (s : SubscriptionManager) (a : Address) (topics : List Bytes) (m : Map Bytes (Set Address))
      → All IsAllowed (drop_stale rx peers s a topics m).1
  unfolding drop_stale
  drop_stale-IsAllowed s a [] m = tt
  drop_stale-IsAllowed s a (t ∷ ts) m =
      All-append IsAllowed _ _
        (All-map IsAllowed (multicast_from rx peers a t []) (find_subscribers s t) (λ b. tt))
        (drop_stale-IsAllowed s a ts (Map.erase t m))

  tell_all-IsAllowed :
      (a : Address) (topics : List (Bytes × List Address))
      → All IsAllowed (tell_all rx peers a topics)
  unfolding tell_all tell_topic
  tell_all-IsAllowed a [] = tt
  tell_all-IsAllowed a ((t, subscribers) ∷ ts) =
      All-append IsAllowed _ _
        (All-map IsAllowed (λ s. about (peers s) t true a) subscribers (λ b. tt))
        (tell_all-IsAllowed a ts)

  add_listener-IsAllowed :
      (a : Address) (topic_pattern : Bytes) (s : SubscriptionManager) (n : NotificationManager)
      → All IsAllowed (add_listener rx peers a topic_pattern s n).sent
  unfolding add_listener
  add_listener-IsAllowed a topic_pattern s n =
      elim (Option-cases
        (find topic_pattern (add_pattern rx peers a topic_pattern n).0.regex_cache)) [
          | inl e ↦ ground arith
          | inr (regex, e) ↦
              ground (arith, tell_all-IsAllowed a (find_matching_subscriptions rx s regex))
        ]

  pub on_listen-IsAllowed :
      (a : Address) (request : NotificationRequest) (s : SubscriptionManager)
      (n : NotificationManager)
      → All IsAllowed (on_listen rx peers a request s n).sent
  unfolding on_listen
  on_listen-IsAllowed a request s n = elim (Bool-cases request.is_add) [
    | inl add ↦ rw add (add_listener-IsAllowed a request.topic_pattern s n)
    | inr remove ↦ rw remove tt
  ]

  pub subscriptions_closed-IsAllowed :
      (n : NotificationManager) (a : Address) (s : SubscriptionManager)
      → All IsAllowed (Subscriptions.on_interactor_closed rx peers n a s).1
  unfolding Subscriptions.on_interactor_closed
  subscriptions_closed-IsAllowed n a s = elim (Option-cases (find a s.subscriber_topics)) [
    | inl e ↦ ground arith
    | inr (topics, e) ↦ ground (arith, leave_topics-IsAllowed n a topics s.subscriptions)
  ]

  pub publishers_closed-IsAllowed :
      (s : SubscriptionManager) (a : Address) (p : PublisherManager)
      → All IsAllowed (Publishers.on_interactor_closed rx peers s a p).sent
  unfolding Publishers.on_interactor_closed
  publishers_closed-IsAllowed s a p = elim (Option-cases (find a p.publisher_topics)) [
    | inl e ↦ ground arith
    | inr (topics, e) ↦
        let (left, stale) = Publishers.leave_topics rx peers a p.topic_publishers [] in
        ground (arith, drop_stale-IsAllowed s a stale left)
  ]
