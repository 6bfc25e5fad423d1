-- ===== src/Server/Subscriptions/Lookup.antt =====
-- `find_subscribers` and the counts.
use cpp_prototype.Common.{
  ◌≡◌, inl, inr, false, ◌&&◌, ◌||◌, List, [], ◌∷◌, Bytes, arith, if◌then◌else◌, Option-cases,
  option_intro,
}
use cpp_prototype.Common.Key.{bytes_key, ℕ_key, same}
use cpp_prototype.Common.Map.{find, keys, is_some, keys-find}
use cpp_prototype.Common.Nested.{find2}
use cpp_prototype.Common.Ordered.{IsAscending, insert-IsAscending}
use cpp_prototype.Common.Set
use cpp_prototype.Common.Set.{Set}
use cpp_prototype.Server.Effects.{Address, Peer, Regex}
use cpp_prototype.Server.Notifications.{NotificationManager, insert_all}
use cpp_prototype.Server.Notifications.Listeners.{contains-insert_all}
use cpp_prototype.Server.Subscriptions.{
  SubscriptionManager, find_subscribers, add_subscription, on_interactor_closed,
}
use cpp_prototype.Server.Subscriptions.Counts.{
  count, is_listed, count-add_subscription, count-on_interactor_closed,
}

-- The subscribers of a topic are the interactors that are counted for it.
pub contains-find_subscribers :
    (s : SubscriptionManager) (a : Address) (topic : Bytes)
    → Set.contains a (find_subscribers s topic) ≡ is_some (count s a topic)
unfolding find_subscribers find2 Set.contains
contains-find_subscribers s a topic = elim (Option-cases (find topic s.subscriptions)) [
  | inl e ↦ ground arith
  | inr (subscribers, e) ↦
      ground (arith, contains-insert_all a (keys subscribers) [], keys-find a subscribers)
]

insert_all-IsAscending :
    (xs : List Address) (s : Set Address) → IsAscending s → IsAscending (insert_all xs s)
unfolding insert_all
insert_all-IsAscending [] s o = o
insert_all-IsAscending (x ∷ xs) s o =
    insert_all-IsAscending xs (Set.insert x s) (insert-IsAscending x s o)

-- They stand in the order of their addresses, each once.
pub find_subscribers-IsAscending :
    (s : SubscriptionManager) (topic : Bytes) → IsAscending (find_subscribers s topic)
unfolding find_subscribers
find_subscribers-IsAscending s topic =
    option_intro (λ (xs : Set Address). IsAscending xs) (find topic s.subscriptions) _ _ (λ e. tt)
      (λ subscribers e. insert_all-IsAscending (keys subscribers) [] tt)

module _ (rx : Regex) (peers : Address → Peer) (n : NotificationManager) where
  -- After an interactor has subscribed to a topic, the subscribers of that topic are those from
  -- before and the interactor, and those of every other topic are those from before.
  pub find_subscribers-add_subscription :
      (i : Address) (t : Bytes) (s : SubscriptionManager) (a : Address) (u : Bytes)
      → Set.contains a (find_subscribers (add_subscription rx peers n i t s).0 u)
        ≡ (same a i && same u t || Set.contains a (find_subscribers s u))
  find_subscribers-add_subscription i t s a u = ground (
    arith,
    contains-find_subscribers (add_subscription rx peers n i t s).0 a u,
    contains-find_subscribers s a u,
    count-add_subscription rx peers n i t s a u,
  )

  -- After an interactor has been closed, it is not a subscriber of the topics that the reverse
  -- table listed for it, and every other interactor and topic is as before.
  pub find_subscribers-on_interactor_closed :
      (i : Address) (s : SubscriptionManager) (a : Address) (u : Bytes)
      → Set.contains a (find_subscribers (on_interactor_closed rx peers n i s).0 u)
        ≡ (if same a i && is_listed s i u then false else Set.contains a (find_subscribers s u))
  find_subscribers-on_interactor_closed i s a u = ground (
    arith,
    contains-find_subscribers (on_interactor_closed rx peers n i s).0 a u,
    contains-find_subscribers s a u,
    count-on_interactor_closed rx peers n i s a u,
  )
