-- ===== src/Relay/Reach.antt =====
-- The states that accesses to the shared state reach, whatever requests make them and in whatever
-- order they come.
use qsl_server.Base.{◌≡◌, refl, List}
use qsl_server.Relay.State.{Settings, Relay, Deps}
use qsl_server.Relay.Actions.{Action, act, Allowed}
use qsl_server.Relay.Requests.{Parsers, Event, handle_all}
use qsl_server.Relay.Steps.Serving.{handle_all-keeps}

pub data Reaches (st : Settings) (r : Relay) : Relay → Type 0 where
  here : Reaches st r r
  next :
      {s t : Relay} → Reaches st r s → (a : Action) → Allowed st a → t ≡ act st a s → Reaches st r t

-- Whatever requests and ticks the relay handles, with whatever faults, it only makes accesses to the
-- shared state of the four kinds, and passes to the store the configured caps and keys of hexadecimal
-- digits: the state that it leaves is one that such accesses reach.
pub handle_all-Reaches :
    (st : Settings) (deps : Deps) (parse : Parsers) (es : List Event) (r : Relay)
    → Reaches st r (handle_all st deps parse es r)
handle_all-Reaches st deps parse es r =
    handle_all-keeps st (Reaches st r) (λ a s ok h. next h a ok refl) deps parse es r here
