-- ===== src/Mesh/Examples.antt =====
-- src/mesh.rs: a session of two players, for the theorems about it.
use signal_fish_client_rust.Common.{
  ◌≡◌, ◌⊎◌, refl, true, false, ◌&&◌, none, List, [], ◌∷◌, ◌==◌, is_some,
}
use signal_fish_client_rust.Protocol.Types.{SessionPeer, Topology, TransportKind}
use signal_fish_client_rust.Protocol.Payloads.{SessionPlanPayload}
use signal_fish_client_rust.Mesh.Session.{
  apply_single, MeshSession, MeshEvent, session_plan, new_peer, peer_transport_status, player_left,
  empty_session, find_peer, is_connected, apply, apply_all,
}
use signal_fish_client_rust.Mesh.Changes.{apply_all-unchanged}
use signal_fish_client_rust.Mesh.Liveness.{
  names, apply-session_plan, apply-player_left, apply_all-twice,
}

abbrev peer : SessionPeer
peer = record { player_id = 2; player_name = "bob"; is_authority = false; initiate = true }

abbrev plan : SessionPlanPayload
plan = record {
  topology = Topology.mesh;
  transport = TransportKind.web_rtc;
  host = none;
  peers = peer ∷ [];
  ice_servers = [];
  fallback = TransportKind.relay;
}

abbrev planned : List MeshEvent
planned = session_plan plan ∷ peer_transport_status 2 true ∷ []

abbrev live : MeshSession
live = apply_all planned empty_session

apply_all-unchanged_example : (apply (new_peer 2 true) live).1 ≡ live
unfolding apply_all apply_single
apply_all-unchanged_example = apply_all-unchanged planned (new_peer 2 true) refl

apply-session_plan_example :
    (is_some (find_peer 2 (apply (session_plan plan) live).1.peers) ≡ names 2 plan.peers)
    × (is_connected 2 (apply (session_plan plan) live).1.peers
        ≡ (names 2 plan.peers && is_connected 2 live.peers))
apply-session_plan_example = apply-session_plan plan live 2

apply-player_left_example :
    (find_peer 2 (apply (player_left 2) live).1.peers ≡ none)
    × (((3 == 2) ≡ true)
        ⊎ (find_peer 3 (apply (player_left 2) live).1.peers ≡ find_peer 3 live.peers))
apply-player_left_example = apply-player_left 2 3 live

abbrev flaky : List MeshEvent
flaky = peer_transport_status 2 true ∷ session_plan plan ∷ []

apply_all-twice_example :
    (is_connected 2 (apply_all flaky empty_session).peers ≡ false)
    × (is_connected 2 (apply_all flaky (apply_all flaky empty_session)).peers ≡ true)
apply_all-twice_example = apply_all-twice 2 plan empty_session refl refl
