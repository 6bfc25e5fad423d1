-- ===== src/Server/Listening/Adding.antt =====
-- What `on_listen` makes of a pattern: one that is new, one that exists, and one that does not compile.
use cpp_prototype.Common.{
  ℕ, ◌≡◌, refl, ◌∙◌, inl, inr, true, false, List, [], ◌∷◌, ◌++◌, map, ap, All, All-append,
  Bool-cases, if◌then◌else◌, Bytes, none, some, regex_error, arith, Option-cases,
}
use cpp_prototype.Common.Key.{bytes_key, ℕ_key, same_refl}
use cpp_prototype.Common.Map.{Map, find, insert, keys, find-insert}
use cpp_prototype.Common.Nested.{find2}
use cpp_prototype.Common.Set
use cpp_prototype.Messages.Message.{forwarded_subscription}
use cpp_prototype.Server.Effects.{
  Address, Peer, Sent, Regex, Done, AreAlive, reads_freed, reads_freed-none,
}
use cpp_prototype.Server.Notifications.{NotificationManager, find_listeners}
use cpp_prototype.Server.Notifications.Listeners.{count, contains-find_listeners, hears-of}
use cpp_prototype.Server.Subscriptions.{SubscriptionManager, matching, find_matching_subscriptions}
use cpp_prototype.Server.Listening.{
  tell_topic, tell_all, all_subscribers, add_pattern, add_listener, on_listen,
}

module _ (rx : Regex) (peers : Address → Peer) (i : Address) (p : Bytes) (s : SubscriptionManager)
    (m : NotificationManager) where
  abbrev listened : Done NotificationManager
  listened = on_listen rx peers i (record { topic_pattern = p; is_add = true }) s m

  -- The request that tells the listener of a subscriber of a topic.
  abbrev pub announcement : Bytes → Address → Sent
  announcement topic a = record {
    receiver = i;
    message = forwarded_subscription (record {
      user = (peers a).user;
      host = (peers a).host;
      client_id = (peers a).id;
      topic = topic;
      is_add = true;
    });
  }

  -- One for each subscriber of each topic that the pattern matches.
  abbrev pub announcements : Map Bytes (Map Address ℕ) → List Sent
  announcements [] = []
  announcements ((topic, subscribers) ∷ table) =
      let rest = announcements table in
      if rx.matches p topic then map (announcement topic) (keys subscribers) ++ rest else rest

  -- No subscriber in the table has been freed.
  abbrev pub SubscribersAreAlive : Map Bytes (Map Address ℕ) → Type 0
  SubscribersAreAlive = All (λ (e : Bytes × Map Address ℕ). AreAlive peers (keys e.1))

  tell_all-matching :
      (table : Map Bytes (Map Address ℕ))
      → tell_all rx peers i (matching rx p table) ≡ announcements table
  unfolding tell_all tell_topic matching
  tell_all-matching [] = refl
  tell_all-matching ((topic, subscribers) ∷ table) = elim (Bool-cases (rx.matches p topic)) [
    | inl e ↦
        rw e (ap (λ x. map (announcement topic) (keys subscribers) ++ x) (tell_all-matching table))
    | inr e ↦ rw e (tell_all-matching table)
  ]

  matching-AreAlive :
      (table : Map Bytes (Map Address ℕ))
      → SubscribersAreAlive table
      → AreAlive peers (all_subscribers (matching rx p table))
  unfolding all_subscribers matching
  matching-AreAlive [] h = tt
  matching-AreAlive ((topic, subscribers) ∷ table) h = elim (Bool-cases (rx.matches p topic)) [
    | inl e ↦ rw e (All-append _ (keys subscribers) _ h.0 (matching-AreAlive table h.1))
    | inr e ↦ rw e (matching-AreAlive table h.1)
  ]

  fresh-tables :
      find p m.notifications ≡ none
      → rx.is_valid p ≡ true
      → find p m.regex_cache ≡ none
      → let matches = find_matching_subscriptions rx s p in
        (listened.state.notifications ≡ insert p ((i, 1) ∷ []) m.notifications)
        × (listened.state.regex_cache ≡ insert p p m.regex_cache)
        × (listened.sent ≡ tell_all rx peers i matches)
        × (listened.thrown ≡ reads_freed peers (all_subscribers matches))
  unfolding on_listen add_listener add_pattern
  fresh-tables new valid uncached =
      ground (arith, find-insert p p p m.regex_cache uncached, same_refl p)

  -- Where no subscriber in the table has been freed: the first listener of a pattern that
  -- compiles, and that the table and the regex cache do not have, is sent one request for each
  -- subscriber of each topic that the pattern matches, in the order of the table, that names the
  -- subscriber and the topic, and nothing else; nothing is thrown, and the listener is from then
  -- on among those told of each topic that the pattern matches.
  pub on_listen-fresh :
      (topic : Bytes)
      → SubscribersAreAlive s.subscriptions
      → find p m.notifications ≡ none
      → find p m.regex_cache ≡ none
      → rx.is_valid p ≡ true
      → rx.matches p topic ≡ true
      → (listened.sent ≡ announcements s.subscriptions)
        × (listened.thrown ≡ none)
        × (Set.contains i (find_listeners rx listened.state topic) ≡ true)
  unfolding find2 find find_matching_subscriptions
  on_listen-fresh topic alive new uncached valid matches =
      let (tables, cached, sent, thrown) = fresh-tables new valid uncached in
      (
        sent ∙ tell_all-matching s.subscriptions,
        thrown ∙ reads_freed-none peers _ (matching-AreAlive s.subscriptions alive),
        contains-find_listeners rx i topic listened.state
            ∙ hears-of rx i topic _ _ p p
                (ground (arith, cached, find-insert p p p m.regex_cache uncached, same_refl p))
                matches
                (ground (
                  arith,
                  tables,
                  find-insert p p ((i, 1) ∷ []) m.notifications new,
                  same_refl p,
                  same_refl i,
                )),
      )

  -- A request to listen to a pattern that has listeners already is lost: whoever was told of a
  -- topic before is told after, in the same order, and nobody else.
  pub on_listen-lost :
      (listeners : Map Address ℕ) (topic : Bytes)
      → find p m.notifications ≡ some listeners
      → find_listeners rx listened.state topic ≡ find_listeners rx m topic
  unfolding on_listen add_listener add_pattern find_listeners
  on_listen-lost listeners topic exists = elim (Option-cases (find p m.regex_cache)) [
    | inl e ↦ ground arith
    | inr (r, e) ↦ ground arith
  ]

  -- Listening to a new pattern that does not compile throws and sends nothing; the interactor is
  -- counted as a listener of the pattern then, and the reverse table, by which it would be
  -- forgotten, is as before.
  pub on_listen-invalid :
      find p m.notifications ≡ none
      → rx.is_valid p ≡ false
      → (listened.sent ≡ [])
        × (listened.thrown ≡ some regex_error)
        × (count listened.state i p ≡ some 1)
        × (listened.state.listener_topic_patterns ≡ m.listener_topic_patterns)
  unfolding on_listen add_listener add_pattern find2 find
  on_listen-invalid new invalid =
      ground (arith, find-insert p p ((i, 1) ∷ []) m.notifications new, same_refl p, same_refl i)
