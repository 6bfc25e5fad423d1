-- ===== src/Examples/Sessions.antt =====
-- An interactor before and after authentication, at concrete inputs.
use cpp_prototype.Common.{◌≡◌, refl, false, [], ◌∷◌, none, some, ok}
use cpp_prototype.Common.Key.{bytes_key, lexicographic, same}
use cpp_prototype.Common.{if◌then◌else◌}
use cpp_prototype.Messages.Message.{AuthenticationRequest, authentication, multicast, subscription}
use cpp_prototype.Server.Subscriptions
use cpp_prototype.Server.Notifications
use cpp_prototype.Server.Hub.{Hub, on_message}
use cpp_prototype.Server.Session.{Authenticator, reply, process_all}
use cpp_prototype.Server.Session.Isolation.{
  IsIsolated, process_all-IsIsolated, authentication_accepted,
}
use cpp_prototype.Examples.World.{rx, peers, news, join_topic, publishers}

-- Whoever asks by the method "a" is "nobody"; all others are refused.
abbrev auth : Authenticator
auth = record {
  authenticate =
      λ request. if same request.method (b'a' ∷ []) then ok (some (b'n' ∷ [])) else ok none;
}

abbrev good : AuthenticationRequest
good = record { method = b'a' ∷ []; payload = [] }

abbrev bad : AuthenticationRequest
bad = record { method = b'b' ∷ []; payload = [] }

abbrev hub : Hub
hub = record {
  interactors = [];
  publisher_manager = publishers;
  subscription_manager = Subscriptions.empty;
  notification_manager = Notifications.empty;
}

process_all-IsIsolated_example : IsIsolated auth 1 hub (
    process_all auth 1 rx peers
      (authentication bad ∷ multicast news ∷ subscription join_topic ∷ [])
      none
      hub)
unfolding lexicographic
process_all-IsIsolated_example =
    process_all-IsIsolated auth 1 rx peers
      (authentication bad ∷ multicast news ∷ subscription join_topic ∷ []) hub
      ((λ user h. cc), (tt, (tt, tt)))

authentication_accepted_example :
    let p =
      process_all auth 1 rx peers (authentication good ∷ subscription join_topic ∷ []) none hub in
    let d = on_message rx peers 1 (subscription join_topic) hub in
    (p.user ≡ some (b'n' ∷ []))
    × (p.hub ≡ d.state)
    × (p.sent ≡ reply 1 ∷ d.sent)
    × (p.is_closed ≡ false)
    × (p.thrown ≡ d.thrown)
unfolding lexicographic
authentication_accepted_example =
    authentication_accepted auth 1 rx peers good (b'n' ∷ []) (subscription join_topic) hub refl
