-- ===== src/Server/Session/Isolation.antt =====
-- Nothing of an interactor reaches the hub before the authentication manager has named its user.
use cpp_prototype.Common.{
  ◌≡◌, ◌≢◌, refl, sym, subst, false, List, [], ◌∷◌, append-nil, Bytes, Option, none, some, Error,
  Outcome, ok, err, All, All-append, arith,
}
use cpp_prototype.Messages.Message.{AuthenticationRequest, Message, authentication}
use cpp_prototype.Server.Effects.{Address, Peer, Sent, Regex}
use cpp_prototype.Server.Hub.{Hub, on_message}
use cpp_prototype.Server.Session.{
  Authenticator, Processed, reply, answered, authenticate, unless, process_message, process_all,
}

module _ (auth : Authenticator) (interactor : Address) where
  -- A message that does not name a user.
  abbrev pub NamesNobody : Message → Type 0
  NamesNobody (authentication request) = (user : Bytes) → auth.authenticate request ≢ ok (some user)
  NamesNobody _ = Unit {0}

  -- The hub is as before, the interactor has no user, and only replies have been sent to it.
  pub record IsIsolated (h : Hub) (p : Processed) : Type 0 where
    pub user : p.user ≡ none
    pub hub : p.hub ≡ h
    pub sent : All (λ (x : Sent). x ≡ reply interactor) p.sent

  answered-IsIsolated :
      (o : Outcome (Option Bytes)) (h : Hub)
      → ((user : Bytes) → o ≢ ok (some user))
      → IsIsolated h (answered auth interactor o h)
  unfolding answered
  answered-IsIsolated (err e) h n = record { user = refl; hub = refl; sent = tt }
  answered-IsIsolated (ok none) h n = record { user = refl; hub = refl; sent = (refl, tt) }
  answered-IsIsolated (ok (some user)) h n = absurd (n user refl)

  authenticate-IsIsolated :
      (m : Message) (h : Hub) → NamesNobody m → IsIsolated h (authenticate auth interactor m h)
  unfolding authenticate
  authenticate-IsIsolated (authentication request) h n =
      answered-IsIsolated (auth.authenticate request) h n
  authenticate-IsIsolated _ h n = record { user = refl; hub = refl; sent = tt }

  unless-IsIsolated :
      (o : Option Error) (h : Hub) (p rest : Processed)
      → IsIsolated h p
      → IsIsolated h rest
      → IsIsolated h (unless o p rest)
  unless-IsIsolated (some e) h p rest v w = v
  unless-IsIsolated none h p rest v w = record {
    user = w.user;
    hub = w.hub;
    sent = All-append (λ (x : Sent). x ≡ reply interactor) _ _ v.sent w.sent;
  }

  module _ (rx : Regex) (peers : Address → Peer) where
    -- For the messages of an interactor with no user, in any order, where the authentication
    -- manager names no user for any of their authentication requests: afterwards the hub is as
    -- before, the interactor has no user, and nothing but replies to it has been sent.
    pub process_all-IsIsolated :
        (ms : List Message) (h : Hub)
        → All NamesNobody ms
        → IsIsolated h (process_all auth interactor rx peers ms none h)
    unfolding process_all process_message
    process_all-IsIsolated [] h n = record { user = refl; hub = refl; sent = tt }
    process_all-IsIsolated (m ∷ ms) h n =
        let p = authenticate auth interactor m h in
        let v : IsIsolated h p = authenticate-IsIsolated m h n.0 in
        let rest : IsIsolated h (process_all auth interactor rx peers ms p.user p.hub) =
          subst
            (λ (u : Option Bytes). IsIsolated h (process_all auth interactor rx peers ms u p.hub))
            (sym v.user)
            (subst (λ (g : Hub). IsIsolated h (process_all auth interactor rx peers ms none g))
              (sym v.hub) (process_all-IsIsolated ms h n.1)) in
        unless-IsIsolated p.thrown h p _ v rest

    -- Where the authentication manager names a user for the request of an interactor that has
    -- none, the interactor has that user from then on, gets one reply, is not closed, and its
    -- next message has the effect on the hub, the messages sent and the exception that the hub
    -- gives it.
    pub authentication_accepted :
        (request : AuthenticationRequest) (user : Bytes) (m : Message) (h : Hub)
        → auth.authenticate request ≡ ok (some user)
        → let p = process_all auth interactor rx peers (authentication request ∷ m ∷ []) none h in
          let d = on_message rx peers interactor m h in
          (p.user ≡ some user)
          × (p.hub ≡ d.state)
          × (p.sent ≡ reply interactor ∷ d.sent)
          × (p.is_closed ≡ false)
          × (p.thrown ≡ d.thrown)
    unfolding process_all process_message authenticate answered
    authentication_accepted request user m h accepted =
        ground (arith, accepted, append-nil (on_message rx peers interactor m h).sent)
