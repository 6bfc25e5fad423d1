-- ===== src/Server/Publishers/Unicast.antt =====
-- `on_send_unicast`: what it sends, and what it keeps.
use cpp_prototype.Common.{
  ◌≡◌, refl, sym, subst, ap, ◌∙◌, inl, inr, List, [], ◌∷◌, Bytes, Option, none, some, arith,
  if◌then◌else◌, Option-cases,
}
use cpp_prototype.Common.Key.{bytes_key}
use cpp_prototype.Common.Map
use cpp_prototype.Common.Map.{Map, find}
use cpp_prototype.Messages.Message.{DataPacket, UnicastData, forwarded_unicast}
use cpp_prototype.Server.Effects.{Address, Peer, Sent, Regex}
use cpp_prototype.Server.Authorization.{AuthorizationSpec, subscriber, publisher}
use cpp_prototype.Server.Authorization.Coherence.{granted}
use cpp_prototype.Server.Publishers.{
  PublisherManager, select, add_publisher, query, on_send_unicast,
}
use cpp_prototype.Server.Publishers.Selection.{let_through, select-let_through}
use cpp_prototype.Server.Publishers.Delivery.{
  specs, CacheIsCoherent, query-granted, query-IsCoherent, specs-query, either,
}
use cpp_prototype.Server.Publishers.Tables.{
  IsConsistent, add_publisher-IsConsistent, query-IsConsistent,
}

module _ (rx : Regex) (peers : Address → Peer) (publisher' : Address) (request : UnicastData) where
  -- The message that carries the chosen packets, if any are.
  abbrev pub forward_to : Address → Option (List DataPacket) → List Sent
  forward_to receiver none = []
  forward_to receiver (some packets) =
      record {
        receiver = receiver;
        message = forwarded_unicast (record {
          user = (peers publisher').user;
          host = (peers publisher').host;
          client_id = request.client_id;
          topic = request.topic;
          data_packets = packets;
        });
      }
      ∷ []

  -- What the receiver, if it is known, is to get by the specifications alone.
  abbrev pub due_to : List AuthorizationSpec → Option Address → List Sent
  due_to ss none = []
  due_to ss (some receiver) = forward_to receiver (
      let_through (granted rx ss (peers publisher').user request.topic publisher)
        (granted rx ss (peers receiver).user request.topic subscriber) request.data_packets)

  module _ (interactors : Map Bytes Address) (p : PublisherManager) where
    -- The manager after the two queries of a unicast to a receiver.
    abbrev pub queried : Address → PublisherManager
    queried receiver =
        (query rx (peers receiver).user request.topic subscriber
          (query rx (peers publisher').user request.topic publisher p).1).1

    abbrev chosen : Address → Option (List DataPacket)
    chosen receiver =
        select (query rx (peers publisher').user request.topic publisher p).0
          (query rx (peers receiver).user request.topic subscriber
            (query rx (peers publisher').user request.topic publisher p).1).0
          request.data_packets

    chosen-granted :
        (receiver : Address)
        → CacheIsCoherent rx p
        → chosen receiver
          ≡ select
              (granted rx (specs p) (peers publisher').user request.topic publisher)
              (granted rx (specs p) (peers receiver).user request.topic subscriber)
              request.data_packets
    chosen-granted receiver v =
        let user = (peers publisher').user in
        let p1 = (query rx user request.topic publisher p).1 in
        rw
          (
            query-granted rx user request.topic publisher p v,
            query-granted rx (peers receiver).user request.topic subscriber p1
                (query-IsCoherent rx user request.topic publisher p v),
            specs-query rx user request.topic publisher p,
          )
          refl

    on_send_unicast-unknown :
        find request.client_id interactors ≡ none
        → on_send_unicast rx peers interactors publisher' request p ≡ (p, [])
    unfolding on_send_unicast
    on_send_unicast-unknown e = ground arith

    sent_to :
        (receiver : Address)
        → find request.client_id interactors ≡ some receiver
        → (on_send_unicast rx peers interactors publisher' request p).1
          ≡ forward_to receiver (chosen receiver)
    unfolding on_send_unicast
    sent_to receiver e = ground arith

    on_send_unicast-known :
        (receiver : Address)
        → find request.client_id interactors ≡ some receiver
        → (on_send_unicast rx peers interactors publisher' request p).0 ≡ (
            if Map.is_some (chosen receiver)
            then add_publisher publisher' request.topic (queried receiver)
            else queried receiver)
    unfolding on_send_unicast
    on_send_unicast-known receiver e = ground arith

    -- With a coherent authorization cache, a unicast sends to the interactor registered under the
    -- client id, if there is one, exactly what the specifications let through, one message or
    -- none, and nothing to anyone else.
    pub on_send_unicast-due :
        CacheIsCoherent rx p
        → (on_send_unicast rx peers interactors publisher' request p).1
          ≡ due_to (specs p) (find request.client_id interactors)
    on_send_unicast-due v = elim (Option-cases (find request.client_id interactors)) [
      | inl e ↦
          ap (λ (r : PublisherManager × List Sent). r.1) (on_send_unicast-unknown e)
          ∙ ap (due_to (specs p)) (sym e)
      | inr (receiver, e) ↦
          sent_to receiver e
          ∙ ap (forward_to receiver) (
              chosen-granted receiver v
              ∙ select-let_through
                  (granted rx (specs p) (peers publisher').user request.topic publisher)
                  (granted rx (specs p) (peers receiver).user request.topic subscriber)
                  request.data_packets)
          ∙ ap (due_to (specs p)) (sym e)
    ]

    -- What holds of the manager before, after the queries, and after the publisher has been noted
    -- then, holds after a unicast.
    pub after :
        (P : PublisherManager → Type 0)
        → P p
        → ((receiver : Address) → P (queried receiver))
        → ((receiver : Address) → P (add_publisher publisher' request.topic (queried receiver)))
        → P (on_send_unicast rx peers interactors publisher' request p).0
    after P same_ queried_ added_ = elim (Option-cases (find request.client_id interactors)) [
      | inl e ↦
          subst P (sym (ap (λ (r : PublisherManager × List Sent). r.0) (on_send_unicast-unknown e)))
            same_
      | inr (receiver, e) ↦
          subst P (sym (on_send_unicast-known receiver e))
            (either P (Map.is_some (chosen receiver)) (added_ receiver) (queried_ receiver))
    ]

    pub on_send_unicast-IsCoherent :
        CacheIsCoherent rx p
        → CacheIsCoherent rx (on_send_unicast rx peers interactors publisher' request p).0
    on_send_unicast-IsCoherent v =
        after (CacheIsCoherent rx) v queried-IsCoherent
          (λ receiver. unfold add_publisher in queried-IsCoherent receiver)
      where
        queried-IsCoherent : (receiver : Address) → CacheIsCoherent rx (queried receiver)
        queried-IsCoherent receiver =
            query-IsCoherent rx (peers receiver).user request.topic subscriber _
              (query-IsCoherent rx (peers publisher').user request.topic publisher p v)

    pub on_send_unicast-IsConsistent :
        IsConsistent p → IsConsistent (on_send_unicast rx peers interactors publisher' request p).0
    on_send_unicast-IsConsistent v = after IsConsistent v queried-IsConsistent (λ receiver.
        add_publisher-IsConsistent publisher' request.topic (queried receiver)
          (queried-IsConsistent receiver))
      where
        queried-IsConsistent : (receiver : Address) → IsConsistent (queried receiver)
        queried-IsConsistent receiver =
            query-IsConsistent rx (peers receiver).user request.topic subscriber _
              (query-IsConsistent rx (peers publisher').user request.topic publisher p v)
