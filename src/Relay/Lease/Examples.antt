-- ===== src/Relay/Lease/Examples.antt =====
-- Runs of the registry.
use aethos_linux.Base.{◌≡◌, ◌↔◌, false, List, [], ◌∷◌}
use aethos_linux.Base.Text.{Text, codes, contains}
use aethos_linux.Base.Result.{ok}
use aethos_linux.Relay.Lease.{RelaySessionLease, relay_session_key, acquire}
use aethos_linux.Relay.Lease.World.{
  Event, acquires, transitions, drops, keys, run, start, AreDistinct,
}
use aethos_linux.Relay.Lease.Reachable.{run_exclusive, acquire-ok_iff}

abbrev relay : Text
relay = codes "wss://relay"

abbrev wayfarer : Text
wayfarer = codes "ab"

abbrev events : List Event
events =
    acquires relay wayfarer (codes "manual") 5
    ∷ acquires relay wayfarer (codes "timer") 6
    ∷ transitions 0 (codes "connected")
    ∷ acquires relay (codes "cd") (codes "timer") 7
    ∷ drops 1
    ∷ []

run_exclusive_example : AreDistinct (keys (run start events).leases)
run_exclusive_example = run_exclusive events

acquire-ok_iff_example :
    ((lease : RelaySessionLease) × ((acquire
          (run start events).registry
          relay
          wayfarer
          (codes "timer")
          9).1
        ≡ ok lease))
    ↔ (contains (keys (run start events).leases) (relay_session_key relay wayfarer) ≡ false)
acquire-ok_iff_example = acquire-ok_iff events relay wayfarer (codes "timer") 9
