-- ===== src/Server/Notifications/Closing.antt =====
-- `on_interactor_closed` of the notification manager.
use cpp_prototype.Common.{
  ◌≡◌, ◌∙◌, ◌≢◌, inl, inr, true, false, ◌&&◌, List, [], ◌∷◌, Bytes, none, arith, if◌then◌else◌,
  Option-cases,
}
use cpp_prototype.Common.Key.{bytes_key, ℕ_key, same, same_iff, same_refl}
use cpp_prototype.Common.Map.{find, erase, is_some, find-erase, is_empty-find}
use cpp_prototype.Common.Nested.{find2, find2-put, find2-erase, contains2}
use cpp_prototype.Common.Set
use cpp_prototype.Common.Set.{Set}
use cpp_prototype.Server.Effects.{Address, Regex}
use cpp_prototype.Server.Notifications.{
  NotificationManager, leave_pattern, leave_patterns, on_interactor_closed, find_listeners,
}
use cpp_prototype.Server.Notifications.Listeners.{count, contains-find_listeners, hears-none}

-- Every pattern that an interactor listens to is listed for it.
pub record IsTracked (m : NotificationManager) : Type 0 where
  pub holds :
      (a : Address) (p : Bytes)
      → is_some (count m a p) ≡ true
      → contains2 a p m.listener_topic_patterns ≡ true

leave_pattern-count :
    (i : Address) (p : Bytes) (m : NotificationManager) (a : Address) (q : Bytes)
    → count (leave_pattern i p m) a q ≡ (if same a i && same q p then none else count m a q)
unfolding leave_pattern find2
leave_pattern-count i p m a q = elim (Option-cases (find p m.notifications)) [
  | inl e ↦ ground (arith, same_iff q p)
  | inr (listeners, e) ↦ ground (
    arith,
    find2-put q a p (erase i listeners) m.notifications,
    find2-erase q a p m.notifications,
    find-erase a i listeners,
    is_empty-find a (erase i listeners),
    same_iff q p,
  )
]

leave_patterns-count :
    (i : Address) (ps : List Bytes) (m : NotificationManager) (a : Address) (q : Bytes)
    → count (leave_patterns i ps m) a q
      ≡ (if same a i && Set.contains q ps then none else count m a q)
unfolding leave_patterns Set.contains
leave_patterns-count i [] m a q = ground arith
leave_patterns-count i (p ∷ ps) m a q =
    ground
      (arith, leave_patterns-count i ps (leave_pattern i p m) a q, leave_pattern-count i p m a q)

pub count-on_interactor_closed :
    (i : Address) (m : NotificationManager) (a : Address) (q : Bytes)
    → count (on_interactor_closed i m) a q
      ≡ (if same a i && contains2 i q m.listener_topic_patterns then none else count m a q)
unfolding on_interactor_closed contains2
count-on_interactor_closed i m a q = elim (Option-cases (find i m.listener_topic_patterns)) [
  | inl e ↦ ground arith
  | inr (patterns, e) ↦ ground (arith, leave_patterns-count i patterns m a q)
]

closed-count :
    (i : Address) (m : NotificationManager) (q : Bytes)
    → IsTracked m
    → count (on_interactor_closed i m) i q ≡ none
closed-count i m q v = ground (arith, count-on_interactor_closed i m i q, v.holds i q, same_refl i)

-- Where every pattern that is listened to is listed in the reverse table, an interactor that
-- closes is not among those told of any topic, and all the others listen to their patterns as
-- before.
pub listener_closed-forgets :
    (rx : Regex) (i : Address) (m : NotificationManager) (topic : Bytes)
    → IsTracked m
    → (Set.contains i (find_listeners rx (on_interactor_closed i m) topic) ≡ false)
      × ((a : Address) (p : Bytes) → a ≢ i → count (on_interactor_closed i m) a p ≡ count m a p)
listener_closed-forgets rx i m topic v = (
  contains-find_listeners rx i topic (on_interactor_closed i m)
      ∙ hears-none rx i topic _ (on_interactor_closed i m).regex_cache (λ p. closed-count i m p v),
  λ a p ne. ground (arith, count-on_interactor_closed i m a p, same_iff a i),
)
