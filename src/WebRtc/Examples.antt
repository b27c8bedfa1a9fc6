-- ===== src/WebRtc/Examples.antt =====
-- src/webrtc.rs: a client with room for two signals, and a driver with books on its outputs, channels
-- and connections, for the theorems about the controller.
use signal_fish_client_rust.Common.{
  ◌≡◌, refl, Bool, true, false, Option, none, some, List, [], ◌∷◌, ◌++◌, ◌==◌, ◌↔◌, length, leb,
  if◌then◌else◌, Result, ok, err, arith,
}
use signal_fish_client_rust.Protocol.Delivery.{PlayerId}
use signal_fish_client_rust.Core.Operations.{
  PeerSignal, offer, answer, SignalFishError, send_buffer_full, not_connected,
}
use signal_fish_client_rust.Protocol.Types.{SessionPeer, Topology, TransportKind}
use signal_fish_client_rust.Protocol.Payloads.{SessionPlanPayload}
use signal_fish_client_rust.WebRtc.Plan.{last_role, handle_event-session_plan}
use signal_fish_client_rust.WebRtc.Agreement.{view_role}
use signal_fish_client_rust.WebRtc.Agreement.Runs.{handle_all, handle_all-new-Agree}
use signal_fish_client_rust.Mesh.Session.{
  MeshEvent, nil, cons, session_plan, new_peer, peer_transport_status, player_left, reconnected,
  room_left,
}
use signal_fish_client_rust.WebRtc.Controller.{
  DriverEvent, signal, connected, dropped, Surfaced, WebRtcDriver, MeshClient, MeshController,
  start, role_of, handle_event, drain_driver,
}
use signal_fish_client_rust.WebRtc.Turns.{Turn, pump, incoming, turns}
use signal_fish_client_rust.WebRtc.Channels.{announced, KeepsChannels}
use signal_fish_client_rust.WebRtc.Reports.{
  PassesReports, alternating, last_report, turns-new-Reported,
}
use signal_fish_client_rust.WebRtc.Relay.{Polled, idle, gives, Queues, Drained}
use signal_fish_client_rust.WebRtc.Drain.{drain_driver-Drained}
use signal_fish_client_rust.WebRtc.Agreement.Driven.{KeepsConnections}

-- The signals that were answered for good, and the reports.
abbrev Taken : Type 0
Taken = List (PlayerId × PeerSignal) × List Bool

-- A signal to player 6 is refused for good; there is room for two answers.
abbrev take_signal : PlayerId × PeerSignal → Taken → Result (Unit {0}) SignalFishError × Taken
take_signal s c =
    if leb 2 (length c.0)
    then (err (send_buffer_full 2), c)
    else (if s.0 == 6 then err not_connected else ok tt, (c.0 ++ s ∷ [], c.1))

abbrev narrow : MeshClient Taken
narrow = record {
  send_signal = λ peer s c. take_signal (peer, s) c;
  report_transport_status = λ b c. (ok tt, (c.0, c.1 ++ b ∷ []));
}

-- The outputs to come, the open channels, and the connections that it was told to make.
abbrev Book : Type 0
Book = List DriverEvent × (PlayerId → Bool) × (PlayerId → Option Bool)

abbrev next_output : List DriverEvent → Book → Option DriverEvent × Book
next_output [] d = (none, d)
next_output (e ∷ events) d = (some e, (events, (λ id. announced (some e) id (d.1 id)), d.2))

abbrev listed : WebRtcDriver Book
listed = record {
  set_ice_servers = λ ice d. d;
  connect = λ peer b d. (d.0, d.1, λ id. if peer == id then some b else d.2 id);
  on_signal = λ peer s d. d;
  send = λ peer bytes d. d;
  disconnect = λ peer d. (
    d.0,
    (λ id. if peer == id then false else d.1 id),
    λ id. if peer == id then none else d.2 id,
  );
  poll = λ d. next_output d.0 d;
}

abbrev with_outputs : List DriverEvent → Book
with_outputs events = (events, (λ id. false), λ id. none)

abbrev outputs : List DriverEvent
outputs =
    signal 5 (offer "o")
    ∷ signal 6 (answer "a")
    ∷ connected 5
    ∷ signal 7 (offer "p")
    ∷ dropped 5
    ∷ []

narrow-PassesReports : PassesReports narrow (λ c. c.1)
narrow-PassesReports = record { reports = λ b c. refl; signals = λ peer s c. ground arith }

listed-KeepsChannels : KeepsChannels listed (λ d. d.1)
listed-KeepsChannels = record {
  set_ice_servers = λ ice d id. refl;
  connect = λ peer b d id. refl;
  on_signal = λ peer s d id. refl;
  disconnect = λ peer d id. refl;
  poll = λ d id. polls d.0 d id;
}
  where
    polls :
        (events : List DriverEvent) (d : Book) (id : PlayerId)
        → (next_output events d).1.1 id ≡ announced (next_output events d).0 id (d.1 id)
    polls [] d id = refl
    polls (e ∷ events) d id = refl

listed-KeepsConnections : KeepsConnections listed (λ d. d.2)
listed-KeepsConnections = record {
  set_ice_servers = λ ice d id. refl;
  connect = λ peer b d id. refl;
  on_signal = λ peer s d id. refl;
  disconnect = λ peer d id. refl;
}

narrow-Queues : Queues narrow listed (λ c. c.0) (λ d. d.0)
narrow-Queues = record {
  polls = λ d. polls d.0 d refl;
  sends = λ peer s c. ground arith;
  reports = λ b c. refl;
}
  where
    polls :
        (events : List DriverEvent) (d : Book)
        → d.0 ≡ events
        → Polled d.0 (next_output events d).1.0 (next_output events d).0
    polls [] d e = idle e e refl
    polls (x ∷ events) d e = gives x e refl

abbrev some_turns : List Turn
some_turns = incoming (new_peer 5 true) ∷ pump 9 ∷ pump 9 ∷ incoming room_left ∷ []

turns-new-Reported_example :
    let m = turns narrow listed some_turns (start ([], []) (with_outputs (connected 5 ∷ []))) in
    (alternating false m.client.1 ≡ true)
    × ((last_report false m.client.1 ≡ true) ↔ ((id : PlayerId) × (m.driver.1 id ≡ true)))
turns-new-Reported_example =
    turns-new-Reported narrow listed (λ c. c.1) narrow-PassesReports (λ d. d.1) listed-KeepsChannels
      ([], []) (with_outputs (connected 5 ∷ [])) some_turns refl (λ id. refl)

-- The channel opened, and the session ended.
reports_of_turns :
    (turns narrow listed some_turns (start ([], []) (with_outputs (connected 5 ∷ [])))).client.1
    ≡ true ∷ false ∷ []
unfolding turns start
reports_of_turns = refl

abbrev with_signals : MeshController Taken Book
with_signals = start ([], []) (with_outputs outputs)

drain_driver-Drained_example :
    (e : Option Surfaced) × (m : MeshController Taken Book) × (drain_driver narrow listed 6
        with_signals
      ≡ some (e, m))
    × Drained narrow listed (λ c. c.0) (λ d. d.0) with_signals e m
unfolding start
drain_driver-Drained_example =
    drain_driver-Drained narrow listed (λ c. c.0) (λ d. d.0) narrow-Queues 6 with_signals
      (ground arith)

-- The second drain finds no room for the third signal, which waits.
waits_after_drain :
    (turns narrow listed (pump 6 ∷ pump 6 ∷ []) with_signals).pending_signal ≡ some (7, offer "p")
unfolding turns drain_driver start
waits_after_drain = refl

abbrev bob : SessionPeer
bob = record { player_id = 5; player_name = "bob"; is_authority = false; initiate = true }

abbrev plan : SessionPlanPayload
plan = record {
  topology = Topology.mesh;
  transport = TransportKind.web_rtc;
  host = none;
  peers = bob ∷ [];
  ice_servers = [];
  fallback = TransportKind.relay;
}

-- The controller knows two players, one of them in the other role.
abbrev before_plan : MeshController Taken (Book)
before_plan =
    turns narrow listed (incoming (new_peer 5 false) ∷ incoming (new_peer 6 true) ∷ [])
      (start ([], []) (with_outputs []))

handle_event-session_plan_example :
    role_of 5 (handle_event narrow listed (session_plan plan) before_plan).known_peers
    ≡ last_role 5 plan.peers none
handle_event-session_plan_example = handle_event-session_plan narrow listed 5 plan before_plan

-- A plan that turns a role around and drops a peer, and a replay that brings that peer back.
abbrev some_events : List MeshEvent
some_events =
    new_peer 5 false
    ∷ new_peer 6 true
    ∷ session_plan plan
    ∷ peer_transport_status 5 true
    ∷ reconnected [] (cons (new_peer 6 false) (cons room_left (cons (new_peer 7 true) nil)))
    ∷ player_left 7
    ∷ []

handle_all-new-Agree_example :
    let m = handle_all narrow listed some_events (start ([], []) (with_outputs [])) in
    (m.driver.2 6 ≡ view_role 6 m.session.peers)
    × (role_of 6 m.known_peers ≡ view_role 6 m.session.peers)
handle_all-new-Agree_example =
    handle_all-new-Agree narrow listed (λ d. d.2) listed-KeepsConnections ([], []) (with_outputs [])
      some_events 6 (λ peer. refl) refl

-- The peer that was dropped is there again, in the role that the replay gave to it.
role_after_replay :
    (handle_all narrow listed some_events (start ([], []) (with_outputs []))).driver.2 6
    ≡ some false
unfolding start handle_event
role_after_replay = refl
