-- ===== src/WebRtc/Controller.antt =====
-- src/webrtc.rs: `MeshController` on a client and a driver. The channel of the client's events is the
-- sequence of events that come in; the interval of the pump and the waker only say when the loop turns.
use signal_fish_client_rust.Common.{
  ℕ, zero, suc, Bool, true, false, not, ◌&&◌, Option, none, some, List, [], ◌∷◌, ◌++◌, ◌==◌, map,
  any, retain, if◌then◌else◌, is_empty, is_some, Result, ok, err,
}
use signal_fish_client_rust.Protocol.Delivery.{PlayerId}
use signal_fish_client_rust.Protocol.Types.{IceServer, SessionPeer}
use signal_fish_client_rust.Core.Operations.{PeerSignal, SignalFishError, send_buffer_full}
use signal_fish_client_rust.Core.Config.{SignalFishConfig, enable_mesh}
use signal_fish_client_rust.Mesh.Session.{
  MeshEvent, MeshEvents, nil, cons, session_plan, new_peer, signal_received, player_left,
  room_joined, room_left, disconnected, reconnected, MeshSession, empty_session, apply, is_skipped,
  differ,
}

pub data DriverEvent : Type 0 where
  signal : (peer : PlayerId) → PeerSignal → DriverEvent
  connected : (peer : PlayerId) → DriverEvent
  dropped : (peer : PlayerId) → DriverEvent
  data_received : (peer : PlayerId) → List ℕ → DriverEvent

-- What the controller hands to the application, but for the events that it passes through.
pub data Surfaced : Type 0 where
  peer_connected : PlayerId → Surfaced
  peer_disconnected : PlayerId → Surfaced
  peer_data : (from : PlayerId) → List ℕ → Surfaced

-- The trait, on a state `D`.
pub record WebRtcDriver (D : Type 0) : Type 0 where
  pub set_ice_servers : List IceServer → D → D
  pub connect : PlayerId → (initiate : Bool) → D → D
  pub on_signal : PlayerId → PeerSignal → D → D
  pub send : PlayerId → List ℕ → D → D
  pub disconnect : PlayerId → D → D
  pub poll : D → Option DriverEvent × D

-- The two operations of the client that the controller calls by itself, on a state `C`. The second one
-- is the report on the transport WebRTC.
pub record MeshClient (C : Type 0) : Type 0 where
  pub send_signal : PlayerId → PeerSignal → C → Result (Unit {0}) SignalFishError × C
  pub report_transport_status : Bool → C → Result (Unit {0}) SignalFishError × C

pub record KnownPeer : Type 0 where
  pub id : PlayerId
  pub initiate : Bool

pub record MeshController (C D : Type 0) : Type 0 where
  pub client : C
  pub driver : D
  pub session : MeshSession
  pub known_peers : List KnownPeer
  pub connected_peers : List PlayerId
  pub pending_signal : Option (PlayerId × PeerSignal)

unfoldable pub start : {C D : Type 0} → C → D → MeshController C D
start client driver = record {
  client = client;
  driver = driver;
  session = empty_session;
  known_peers = [];
  connected_peers = [];
  pending_signal = none;
}

-- The configuration that the client is started with.
unfoldable pub mesh_config : SignalFishConfig → SignalFishConfig
unfolding enable_mesh
mesh_config config = if is_some config.protocol_version then config else enable_mesh config

abbrev pub contains : PlayerId → List PlayerId → Bool
contains id ids = any (λ other. other == id) ids

-- The role of the first known peer of that id.
abbrev pub role_of : PlayerId → List KnownPeer → Option Bool
role_of id [] = none
role_of id (k ∷ known) = if k.id == id then some k.initiate else role_of id known

unfoldable pub set_role : PlayerId → Bool → List KnownPeer → List KnownPeer
set_role id b [] = []
set_role id b (k ∷ known) =
    if k.id == id then record k { initiate = b } ∷ known else k ∷ set_role id b known

abbrev pub is_to : PlayerId → Option (PlayerId × PeerSignal) → Bool
is_to id none = false
is_to id (some (peer, s)) = peer == id

module _ {C D : Type 0} (api : MeshClient C) (rtc : WebRtcDriver D) where
  unfoldable pub send_to : PlayerId → List ℕ → MeshController C D → MeshController C D
  send_to peer bytes m = record m { driver = rtc.send peer bytes m.driver }

  unfoldable pub report : Bool → MeshController C D → MeshController C D
  report b m = record m { client = (api.report_transport_status b m.client).1 }

  unfoldable pub mark_connected : PlayerId → MeshController C D → MeshController C D
  unfolding report
  mark_connected peer m =
      if contains peer m.connected_peers
      then m
      else (let marked = record m { connected_peers = m.connected_peers ++ peer ∷ [] } in
          if is_empty m.connected_peers then report true marked else marked)

  unfoldable pub mark_disconnected : PlayerId → MeshController C D → MeshController C D
  unfolding report
  mark_disconnected peer m =
      let left = retain (λ p. not (p == peer)) m.connected_peers in
      let marked = record m { connected_peers = left } in
      if is_empty left && not (is_empty m.connected_peers) then report false marked else marked

  unfoldable pub disconnect_peer : PlayerId → MeshController C D → MeshController C D
  unfolding mark_disconnected
  disconnect_peer peer m = mark_disconnected peer (record m {
    driver = rtc.disconnect peer m.driver;
    pending_signal = if is_to peer m.pending_signal then none else m.pending_signal;
  })

  abbrev pub disconnect_peers : List PlayerId → MeshController C D → MeshController C D
  disconnect_peers [] m = m
  disconnect_peers (peer ∷ peers) m = disconnect_peers peers (disconnect_peer peer m)

  -- The match on the role that the peer has.
  abbrev pub with_role :
      Option Bool → PlayerId → (initiate : Bool) → MeshController C D → MeshController C D
  with_role none peer initiate m = record m {
    driver = rtc.connect peer initiate m.driver;
    known_peers = m.known_peers ++ (record { id = peer; initiate = initiate }) ∷ [];
  }
  with_role (some before) peer initiate m =
      if differ before initiate
      then (let cut = disconnect_peer peer m in
          record cut {
            driver = rtc.connect peer initiate cut.driver;
            known_peers = set_role peer initiate cut.known_peers;
          })
      else m

  unfoldable pub ensure_peer :
      PlayerId → (initiate : Bool) → MeshController C D → MeshController C D
  unfolding disconnect_peer set_role
  ensure_peer peer initiate m = with_role (role_of peer m.known_peers) peer initiate m

  unfoldable pub ensure_peers : List SessionPeer → MeshController C D → MeshController C D
  unfolding ensure_peer
  ensure_peers [] m = m
  ensure_peers (p ∷ peers) m = ensure_peers peers (ensure_peer p.player_id p.initiate m)

  abbrev pub gather : List IceServer → MeshController C D → MeshController C D
  gather ice m = if is_empty ice then m else record m { driver = rtc.set_ice_servers ice m.driver }

  abbrev pub ids : List KnownPeer → List PlayerId
  ids known = map (λ k. k.id) known

  unfoldable pub follow_plan :
      List IceServer → List SessionPeer → MeshController C D → MeshController C D
  unfolding disconnect_peer ensure_peers
  follow_plan ice peers m =
      let new_ids = map (λ p. p.player_id) peers in
      let dropped = retain (λ id. not (contains id new_ids)) (ids m.known_peers) in
      let cut = disconnect_peers dropped (record m { driver = rtc.set_ice_servers ice m.driver }) in
      ensure_peers peers
        (record cut { known_peers = retain (λ k. contains k.id new_ids) cut.known_peers })

  abbrev pub feed : PlayerId → Option PeerSignal → MeshController C D → MeshController C D
  feed from none m = m
  feed from (some s) m = record m { driver = rtc.on_signal from s m.driver }

  unfoldable pub forget_player : PlayerId → MeshController C D → MeshController C D
  unfolding disconnect_peer
  forget_player id m =
      let cut = disconnect_peer id m in
      record cut { known_peers = retain (λ k. not (k.id == id)) cut.known_peers }

  unfoldable pub tear_down : MeshController C D → MeshController C D
  unfolding disconnect_peer
  tear_down m = disconnect_peers (ids m.known_peers) (record m { known_peers = [] })

  -- `choreograph` on an event without missed events.
  unfoldable pub choreograph_single : MeshEvent → MeshController C D → MeshController C D
  unfolding follow_plan ensure_peer forget_player tear_down
  choreograph_single (session_plan plan) m = follow_plan plan.ice_servers plan.peers m
  choreograph_single (new_peer id initiate) m = ensure_peer id initiate m
  choreograph_single (signal_received from s) m = feed from s m
  choreograph_single (player_left id) m = forget_player id m
  choreograph_single room_left m = tear_down m
  choreograph_single disconnected m = tear_down m
  choreograph_single (room_joined ice) m = gather ice m
  choreograph_single _ m = m

  unfoldable pub choreograph_missed : MeshEvents → MeshController C D → MeshController C D
  unfolding choreograph_single
  choreograph_missed nil m = m
  choreograph_missed (cons e es) m =
      let next = if is_skipped e then m else choreograph_single e m in choreograph_missed es next

  unfoldable pub choreograph : MeshEvent → MeshController C D → MeshController C D
  unfolding choreograph_missed choreograph_single
  choreograph (reconnected ice missed) m = choreograph_missed missed (gather ice m)
  choreograph e m = choreograph_single e m

  unfoldable pub handle_event : MeshEvent → MeshController C D → MeshController C D
  unfolding apply choreograph
  handle_event e m = choreograph e (record m { session = (apply e m.session).1 })

  abbrev pub relayed :
      (PlayerId × PeerSignal)
      → Result (Unit {0}) SignalFishError × C
      → MeshController C D
      → Bool × MeshController C D
  relayed s (ok _, client) m = (true, record m { client = client; pending_signal = none })
  relayed s (err (send_buffer_full capacity), client) m =
      (false, record m { client = client; pending_signal = some s })
  relayed s (err e, client) m = (true, record m { client = client; pending_signal = none })

  abbrev pub relay : Option (PlayerId × PeerSignal) → MeshController C D → Bool × MeshController C D
  relay none m = (true, m)
  relay (some (peer, s)) m = relayed (peer, s) (api.send_signal peer s m.client) m

  unfoldable pub relay_pending_signal : MeshController C D → Bool × MeshController C D
  relay_pending_signal m = relay m.pending_signal m

  -- What a polled output does; `again` where the loop goes on.
  unfoldable pub surface :
      Option DriverEvent
      → MeshController C D
      → (again : Bool) × Option Surfaced × MeshController C D
  unfolding mark_connected mark_disconnected
  surface none m = (false, none, m)
  surface (some (signal peer s)) m = (true, none, record m { pending_signal = some (peer, s) })
  surface (some (connected peer)) m = (false, some (peer_connected peer), mark_connected peer m)
  surface (some (dropped peer)) m = (false, some (peer_disconnected peer), mark_disconnected peer m)
  surface (some (data_received peer bytes)) m = (false, some (peer_data peer bytes), m)

  -- A round of the loop of `drain_driver`.
  unfoldable pub drain_round :
      MeshController C D → (again : Bool) × Option Surfaced × MeshController C D
  unfolding relay_pending_signal surface
  drain_round m =
      let (clear, sent) = relay_pending_signal m in
      if clear
      then (let (output, driver) = rtc.poll sent.driver in
          surface output (record sent { driver = driver }))
      else (false, none, sent)

  abbrev pub after_drain :
      (again : Bool) × Option Surfaced × MeshController C D
      → (MeshController C D → Option (Option Surfaced × MeshController C D))
      → Option (Option Surfaced × MeshController C D)
  after_drain (true, e, m) rest = rest m
  after_drain (false, e, m) rest = some (e, m)

  -- `none` where the fuel runs out.
  unfoldable pub drain_driver :
      ℕ → MeshController C D → Option (Option Surfaced × MeshController C D)
  unfolding drain_round
  drain_driver zero m = none
  drain_driver (suc fuel) m = after_drain (drain_round m) (drain_driver fuel)
