-- ===== src/Orchestration/Examples.antt =====
-- A run of an encounter.
use aethos_linux.Base.{◌≡◌, List, [], ◌∷◌, none}
use aethos_linux.Base.Text.{codes}
use aethos_linux.Orchestration.{
  EncounterManager, new_manager, lan_datagram, relay_web_socket, initial_selection, no_progress,
}
use aethos_linux.Orchestration.Bearers.{
  Call, sets, downgrades, interrupts, closes, perform_all, last_named, transfer_bearer-perform_all,
}

abbrev manager : EncounterManager
manager = new_manager (codes "e") (codes "ab") none

abbrev calls : List Call
calls =
    sets lan_datagram initial_selection 1
    ∷ interrupts no_progress 2
    ∷ downgrades relay_web_socket no_progress 3
    ∷ closes 4
    ∷ []

transfer_bearer-perform_all_example :
    (perform_all manager calls).0.transfer_bearer ≡ last_named manager.transfer_bearer calls
transfer_bearer-perform_all_example = transfer_bearer-perform_all manager calls
