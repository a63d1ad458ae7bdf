-- ===== src/Celestrak/Registry.antt =====
-- The registry of the CelesTrak client (app/core/celestrak/registry.py). The client that `_build_default`
-- makes of the settings is an argument.
use apsis.Prelude.{Option, none, some, ◌≡◌, refl}

module _ {CelestrakClient : Type 0} where
  unfoldable pub register : CelestrakClient → Option CelestrakClient → Option CelestrakClient
  register client registry = some client

  -- `get`: the client, and the registry after it.
  unfoldable pub get :
      (default : CelestrakClient)
      → Option CelestrakClient
      → CelestrakClient × Option CelestrakClient
  get default none = (default, some default)
  get default (some client) = (client, some client)

  unfoldable pub reset : Option CelestrakClient → Option CelestrakClient
  reset registry = none

  -- Once a client is there, whatever default a later call would build, it is the one that is given out.
  get-get :
      (default other : CelestrakClient) (registry : Option CelestrakClient)
      → get other (get default registry).1 ≡ get default registry
  unfolding get
  get-get default other none = refl
  get-get default other (some client) = refl
