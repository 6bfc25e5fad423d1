-- ===== src/Examples/Server.antt =====
-- Whole runs of the server at concrete inputs.
use cpp_prototype.Common.{◌≡◌, List, [], ◌∷◌, Bytes, none, some, Error, ok, err, All}
use cpp_prototype.Common.Int.{pos}
use cpp_prototype.Common.Key.{ℤ_key, ℕ_key}
use cpp_prototype.Common.Set
use cpp_prototype.Messages.Message.{subscription, multicast, unicast}
use cpp_prototype.Server.Authorization.{publisher, construct}
use cpp_prototype.Server.Authorization.File.{Config}
use cpp_prototype.Server.Publishers.Delivery.{specs}
use cpp_prototype.Server.Hub.{Hub, Yaml, Event, startup, message, make, on_message, handle, run}
use cpp_prototype.Server.Hub.Invariant.{IsValid, started-IsValid}
use cpp_prototype.Server.Hub.Delivery.{IsAllowed}
use cpp_prototype.Server.Hub.Runs.{reached, handle-reached-IsAllowed, unicast-is_dropped}
use cpp_prototype.Examples.World.{rx, peers, topic, news, letter, join_topic}

abbrev no_file : Yaml
no_file path = err Error.undefined

abbrev user : Bytes
user = b'u' ∷ []

-- A file with one user pattern and one topic pattern, which lets the user publish under 5.
abbrev config : Config
config = (user, (topic, record { entitlements = pos 5 ∷ []; role = publisher }) ∷ []) ∷ []

abbrev file : Yaml
file path = ok config

-- The server starts without a file, interactor 2 subscribes, and 1 publishes.
abbrev history : List Event
history = startup no_file ∷ message 2 (subscription join_topic) ∷ message 1 (multicast news) ∷ []

-- A server that has a path, and whose file was not there.
abbrev restarted : Hub
restarted = reached rx peers (some (b'f' ∷ [])) [] (startup no_file ∷ [])

started-IsValid_example : IsValid rx (run rx peers history (make (construct none []))).0
started-IsValid_example = started-IsValid rx peers none [] history

handle-reached-IsAllowed_example :
    All
      (IsAllowed rx peers (specs (reached rx peers none [] history).publisher_manager))
      (handle rx peers (message 1 (multicast news)) (reached rx peers none [] history)).sent
handle-reached-IsAllowed_example =
    handle-reached-IsAllowed rx peers none [] history (message 1 (multicast news))

unicast-is_dropped_example :
    on_message rx peers 2 (unicast letter) (reached rx peers none [] history)
    ≡ record { state = reached rx peers none [] history; sent = []; thrown = none }
unicast-is_dropped_example = unicast-is_dropped rx peers none [] history 2 letter
