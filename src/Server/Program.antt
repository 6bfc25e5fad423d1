-- ===== src/Server/Program.antt =====
-- `start_server` of src/server/server.cpp: the distributor, the poller and its listener together.
use cpp_prototype.Common.{ℕ, Bool, true, List, [], Bytes}
use cpp_prototype.Common.Key.{ℕ_key}
use cpp_prototype.Io.Ssl.{Openssl}
use cpp_prototype.Io.PollHandler.{listener}
use cpp_prototype.Io.Poller.{System, Poller, Result, and_then, add_handler}
use cpp_prototype.Io.Poller.EventLoop.{Round, event_loop}
use cpp_prototype.Server.Authentication.{AuthenticationManager}
use cpp_prototype.Server.Authorization.{AuthorizationManager}
use cpp_prototype.Server.Hub
use cpp_prototype.Server.Distributor.{Distributor, Surroundings, distributor}

-- The constructor of `Distributor`.
abbrev pub make_distributor : AuthenticationManager → AuthorizationManager → Distributor
make_distributor authentication authorization = record {
  interactors = [];
  authentication_manager = authentication;
  hub = Hub.make authorization;
  created = 0;
}

module _ {W N : Type 0} (os : Openssl W) (sys : System W N) (budget : W → ℕ)
    (w : Surroundings) where
  -- `Poller (poll_client)`
  abbrev pub make_poller : Distributor → N → Poller W N Distributor
  make_poller d n = record { handlers = []; client = d; system = n }

  -- `fd` is the descriptor of the listening socket.
  unfoldable pub start_server :
      ℕ
      → Bool
      → Bytes
      → ℕ
      → AuthenticationManager
      → AuthorizationManager
      → N
      → List Round
      → Result W N Distributor Bool
  start_server fd has_ssl_ctx host port authentication authorization n rs =
      let handler = listener (record { has_ssl_ctx = has_ssl_ctx; is_open = true }) in
      let p = make_poller (make_distributor authentication authorization) n in
      and_then (add_handler sys (distributor w) fd handler host port p)
        λ _. event_loop os sys (distributor w) budget rs
