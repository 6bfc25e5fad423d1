-- ===== src/Server/Notifications/Listeners.antt =====
-- `find_listeners`: who is told about a topic.
use cpp_prototype.Common.{
  ℕ, ◌≡◌, refl, inl, inr, Bool, true, false, ◌&&◌, ◌||◌, List, [], ◌∷◌, Bytes, Option, none, some,
  arith, if◌then◌else◌, Option-cases,
}
use cpp_prototype.Common.Key.{bytes_key, ℕ_key, same_iff}
use cpp_prototype.Common.Map.{Map, find, keys, is_some, keys-find}
use cpp_prototype.Common.Nested.{find2}
use cpp_prototype.Common.Set
use cpp_prototype.Common.Set.{Set, contains-insert}
use cpp_prototype.Server.Effects.{Address, Regex}
use cpp_prototype.Server.Notifications.{
  NotificationManager, insert_all, listeners_of, find_listeners_loop, find_listeners,
}

pub contains-insert_all :
    (a : Address) (as' : List Address) (s : Set Address)
    → Set.contains a (insert_all as' s) ≡ (Set.contains a as' || Set.contains a s)
unfolding insert_all Set.contains
contains-insert_all a [] s = refl
contains-insert_all a (b ∷ bs) s =
    ground (arith, contains-insert_all a bs (Set.insert b s), contains-insert a b s)

-- How often an interactor listens to a pattern, if it does.
abbrev pub count : NotificationManager → Address → Bytes → Option ℕ
count m a topic_pattern = find2 topic_pattern a m.notifications

-- Some pattern of a cache matches the topic, and has the interactor among its listeners.
abbrev pub hears : Regex → Map Bytes (Map Address ℕ) → Address → Bytes → Map Bytes Bytes → Bool
hears rx notifications a topic [] = false
hears rx notifications a topic ((topic_pattern, regex) ∷ cache) =
    rx.matches regex topic && is_some (find2 topic_pattern a notifications)
    || hears rx notifications a topic cache

listeners_of-contains :
    (a : Address) (topic_pattern : Bytes) (n : Map Bytes (Map Address ℕ)) (s : Set Address)
    → Set.contains a (listeners_of (find topic_pattern n) s)
      ≡ (is_some (find2 topic_pattern a n) || Set.contains a s)
unfolding listeners_of find2
listeners_of-contains a topic_pattern n s = elim (Option-cases (find topic_pattern n)) [
  | inl e ↦ ground arith
  | inr (listeners, e) ↦
      ground (arith, contains-insert_all a (keys listeners) s, keys-find a listeners)
]

module _ (rx : Regex) (a : Address) (topic : Bytes) where
  contains-loop :
      (n : Map Bytes (Map Address ℕ)) (cache : Map Bytes Bytes) (s : Set Address)
      → Set.contains a (find_listeners_loop rx n topic cache s)
        ≡ (hears rx n a topic cache || Set.contains a s)
  unfolding find_listeners_loop
  contains-loop n [] s = refl
  contains-loop n ((p, regex) ∷ cache) s = ground (
    arith,
    contains-loop n cache (if rx.matches regex topic then listeners_of (find p n) s else s),
    listeners_of-contains a p n s,
  )

  -- Those told about a topic are those that listen to a pattern that matches it.
  pub contains-find_listeners :
      (m : NotificationManager)
      → Set.contains a (find_listeners rx m topic) ≡ hears rx m.notifications a topic m.regex_cache
  unfolding find_listeners Set.contains
  contains-find_listeners m = ground (arith, contains-loop m.notifications m.regex_cache [])

  pub hears-of :
      (n : Map Bytes (Map Address ℕ)) (cache : Map Bytes Bytes) (p regex : Bytes)
      → find p cache ≡ some regex
      → rx.matches regex topic ≡ true
      → is_some (find2 p a n) ≡ true
      → hears rx n a topic cache ≡ true
  unfolding find
  hears-of n [] p regex e h k = cc
  hears-of n ((q, r) ∷ cache) p regex e h k = ground (arith, hears-of n cache p regex, same_iff p q)

  pub hears-none :
      (n : Map Bytes (Map Address ℕ)) (cache : Map Bytes Bytes)
      → ((p : Bytes) → find2 p a n ≡ none)
      → hears rx n a topic cache ≡ false
  hears-none n [] h = refl
  hears-none n ((q, r) ∷ cache) h = ground (arith, hears-none n cache h, h q)
