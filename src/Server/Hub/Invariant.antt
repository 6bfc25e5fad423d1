-- ===== src/Server/Hub/Invariant.antt =====
-- What every run of the server keeps, and the unicasts that no run delivers.
use cpp_prototype.Common.{
  ◌≡◌, refl, sym, ap, ◌∙◌, subst, inl, inr, List, [], ◌∷◌, Bytes, Option, Error, ok, err, arith,
  Outcome-cases,
}
use cpp_prototype.Common.Key.{bytes_key, ℕ_key}
use cpp_prototype.Common.Map.{Map, find}
use cpp_prototype.Common.Ordered.{IsOrdered}
use cpp_prototype.Common.Set.{Set}
use cpp_prototype.Common.Nested.{contains2}
use cpp_prototype.Messages.Message.{
  Message, authentication, authenticated, multicast, unicast, subscription, notification,
  forwarded_subscription, forwarded_multicast, forwarded_unicast,
}
use cpp_prototype.Server.Effects.{Address, Peer, Regex}
use cpp_prototype.Server.Authorization.{
  AuthorizationSpec, AuthorizationManager, AuthorizationRepository, load,
}
use cpp_prototype.Server.Authorization
use cpp_prototype.Server.Authorization.Coherence
use cpp_prototype.Server.Publishers.{PublisherManager}
use cpp_prototype.Server.Publishers.Delivery.{CacheIsCoherent, on_send_multicast-IsCoherent}
use cpp_prototype.Server.Publishers.Tables.{IsConsistent, on_send_multicast-IsConsistent}
use cpp_prototype.Server.Publishers.Closing.{
  publisher_closed-IsConsistent, on_interactor_closed-IsCoherent,
}
use cpp_prototype.Server.Publishers.Unicast.{
  on_send_unicast-IsConsistent, on_send_unicast-IsCoherent,
}
use cpp_prototype.Server.Subscriptions.Invariant
use cpp_prototype.Server.Hub.{
  Hub, Yaml, Event, startup, interrupt, disconnected, message, make, reload_authorizations,
  on_interrupt, on_disconnected, on_message, handle, run,
}

-- A topic that is listed is subscribed to; who publishes a topic is who lists it; the cache holds
-- what the specifications grant.
pub record IsValid (rx : Regex) (h : Hub) : Type 0 where
  pub subscriptions : Invariant.IsCoherent h.subscription_manager
  pub publishers : IsConsistent h.publisher_manager
  pub cache : CacheIsCoherent rx h.publisher_manager

module _ (rx : Regex) where
  -- Whatever configuration is loaded, the cache starts empty.
  cache-load :
      (yaml : Yaml) (m m' : AuthorizationManager)
      → load rx yaml m ≡ ok m'
      → m'.repository.cache ≡ []
  unfolding load Authorization.make
  cache-load yaml m m' h = ground arith

  IsCoherent-of_empty : (r : AuthorizationRepository) → r.cache ≡ [] → Coherence.IsCoherent rx r
  unfolding find
  IsCoherent-of_empty r e = record { holds = λ u t role granted' h. cc }

  reload_authorizations-IsCoherent :
      (yaml : Yaml) (p p' : PublisherManager)
      → reload_authorizations rx yaml p ≡ ok p'
      → CacheIsCoherent rx p'
  unfolding reload_authorizations
  reload_authorizations-IsCoherent yaml p p' h =
      IsCoherent-of_empty p'.authorization_manager.repository
        (ground (arith, cache-load yaml p.authorization_manager p'.authorization_manager))

  tables-reload_authorizations :
      (yaml : Yaml) (p p' : PublisherManager)
      → reload_authorizations rx yaml p ≡ ok p'
      → (p'.topic_publishers ≡ p.topic_publishers) × (p'.publisher_topics ≡ p.publisher_topics)
  unfolding reload_authorizations
  tables-reload_authorizations yaml p p' h = ground arith

  reload_authorizations-IsConsistent :
      (yaml : Yaml) (p p' : PublisherManager)
      → reload_authorizations rx yaml p ≡ ok p'
      → IsConsistent p
      → IsConsistent p'
  reload_authorizations-IsConsistent yaml p p' h v =
      let (forth, back) = tables-reload_authorizations yaml p p' h in
      record {
        agree = λ a t. ap (contains2 t a) forth ∙ v.agree a t ∙ ap (contains2 a t) (sym back);
        ordered = subst (λ (m : Map Bytes (Set Address)). IsOrdered m) (sym forth) v.ordered;
      }

  make-IsValid :
      (m : AuthorizationManager) → Coherence.IsCoherent rx m.repository → IsValid rx (make m)
  unfolding make contains2 find
  make-IsValid m v = record {
    subscriptions = Invariant.IsCoherent-empty;
    publishers = record { agree = λ a t. refl; ordered = tt };
    cache = v;
  }

  module _ (peers : Address → Peer) where
    on_interrupt-loaded :
        (yaml : Yaml) (h : Hub) (p : PublisherManager)
        → reload_authorizations rx yaml h.publisher_manager ≡ ok p
        → (on_interrupt rx yaml h).state ≡ record h { publisher_manager = p }
    unfolding on_interrupt
    on_interrupt-loaded yaml h p e = ground arith

    on_interrupt-failed :
        (yaml : Yaml) (h : Hub) (x : Error)
        → reload_authorizations rx yaml h.publisher_manager ≡ err x
        → (on_interrupt rx yaml h).state ≡ h
    unfolding on_interrupt
    on_interrupt-failed yaml h x e = ground arith

    on_interrupt-IsValid :
        (yaml : Yaml) (h : Hub) → IsValid rx h → IsValid rx (on_interrupt rx yaml h).state
    on_interrupt-IsValid yaml h v =
        elim (Outcome-cases (reload_authorizations rx yaml h.publisher_manager)) [
          | inl (p, e) ↦ subst (IsValid rx) (sym (on_interrupt-loaded yaml h p e)) (record {
            subscriptions = v.subscriptions;
            publishers =
                reload_authorizations-IsConsistent yaml h.publisher_manager p e v.publishers;
            cache = reload_authorizations-IsCoherent yaml h.publisher_manager p e;
          })
          | inr (x, e) ↦ subst (IsValid rx) (sym (on_interrupt-failed yaml h x e)) v
        ]

    on_disconnected-IsValid :
        (a : Address) (h : Hub) → IsValid rx h → IsValid rx (on_disconnected rx peers a h).state
    unfolding on_disconnected
    on_disconnected-IsValid a h v = record {
      subscriptions =
          Invariant.on_interactor_closed-IsCoherent rx peers h.notification_manager a
            h.subscription_manager v.subscriptions;
      publishers = publisher_closed-IsConsistent rx peers a _ h.publisher_manager v.publishers;
      cache = on_interactor_closed-IsCoherent rx peers a _ h.publisher_manager v.cache;
    }

    on_message-IsValid :
        (a : Address) (m : Message) (h : Hub)
        → IsValid rx h
        → IsValid rx (on_message rx peers a m h).state
    unfolding on_message
    on_message-IsValid a (subscription request) h v = record {
      subscriptions =
          Invariant.on_subscription-IsCoherent rx peers h.notification_manager a request
            h.subscription_manager v.subscriptions;
      publishers = v.publishers;
      cache = v.cache;
    }
    on_message-IsValid a (notification request) h v = record {
      subscriptions = v.subscriptions;
      publishers = v.publishers;
      cache = v.cache;
    }
    on_message-IsValid a (unicast request) h v = record {
      subscriptions = v.subscriptions;
      publishers =
          on_send_unicast-IsConsistent rx peers a request h.interactors h.publisher_manager
            v.publishers;
      cache =
          on_send_unicast-IsCoherent rx peers a request h.interactors h.publisher_manager v.cache;
    }
    on_message-IsValid a (multicast request) h v = record {
      subscriptions = v.subscriptions;
      publishers =
          on_send_multicast-IsConsistent rx peers a request h.subscription_manager
            h.publisher_manager v.publishers;
      cache =
          on_send_multicast-IsCoherent rx peers a request h.subscription_manager h.publisher_manager
            v.cache;
    }
    on_message-IsValid a (authentication _) h v = v
    on_message-IsValid a (authenticated _) h v = v
    on_message-IsValid a (forwarded_subscription _) h v = v
    on_message-IsValid a (forwarded_multicast _) h v = v
    on_message-IsValid a (forwarded_unicast _) h v = v

    handle-IsValid : (e : Event) (h : Hub) → IsValid rx h → IsValid rx (handle rx peers e h).state
    unfolding handle
    handle-IsValid (startup yaml) h v = on_interrupt-IsValid yaml h v
    handle-IsValid (interrupt yaml) h v = on_interrupt-IsValid yaml h v
    handle-IsValid (disconnected a) h v = on_disconnected-IsValid a h v
    handle-IsValid (message a m) h v = on_message-IsValid a m h v

    -- Whatever happens in whatever order, every state of the server is valid.
    pub run-IsValid : (es : List Event) (h : Hub) → IsValid rx h → IsValid rx (run rx peers es h).0
    unfolding run
    run-IsValid [] h v = v
    run-IsValid (e ∷ es) h v = run-IsValid es _ (handle-IsValid e h v)

    -- From the construction of the server on, after any events in any order: every topic that the
    -- reverse table lists for an interactor is one that it subscribes to, the two tables of
    -- publishers agree, the table of topics is in the order of its keys, and every entry of the
    -- authorization cache is what the specifications grant.
    pub started-IsValid :
        (path : Option Bytes) (specs : List AuthorizationSpec) (es : List Event)
        → IsValid rx (run rx peers es (make (Authorization.construct path specs))).0
    unfolding Authorization.construct
    started-IsValid path specs es = run-IsValid es _ (make-IsValid _ (IsCoherent-of_empty _ refl))
