-- ===== src/Mesh/Session.antt =====
-- src/mesh.rs: `MeshSession` and `apply`.
use signal_fish_client_rust.Common.{
  Bool, true, false, not, ◌&&◌, ◌||◌, Option, none, some, List, [], ◌∷◌, ◌++◌, ◌==◌, if◌then◌else◌,
  is_some, is_some_and, is_empty, length,
}
use Prim.Native.String.{String}
use text.Mathlib.Text.{◌==◌ as str_eq}
use signal_fish_client_rust.Protocol.Delivery.{PlayerId}
use signal_fish_client_rust.Protocol.Types.{IceServer, SessionPeer, Topology, TransportKind}
use signal_fish_client_rust.Core.Operations.{PeerSignal}
use signal_fish_client_rust.Protocol.Payloads.{SessionPlanPayload}

pub record MeshPeer : Type 0 where
  pub player_id : PlayerId
  pub player_name : String
  pub is_authority : Bool
  pub initiate : Bool
  pub connected : Bool

pub record MeshSession : Type 0 where
  pub topology : Option Topology
  pub transport : Option TransportKind
  pub fallback : Option TransportKind
  pub host : Option PlayerId
  pub peers : List MeshPeer
  pub ice_servers : List IceServer

-- The events that the tracker or the controller of src/webrtc.rs reads; `other` stands for the rest. The
-- missed events of a reconnect are events again. A signal comes with what the serde crate makes of it,
-- which is none where it has no shape of a `PeerSignal`.
mutual
  pub data MeshEvent : Type 0 where
    session_plan : SessionPlanPayload → MeshEvent
    new_peer : (peer_id : PlayerId) (you_initiate : Bool) → MeshEvent
    peer_transport_status : (peer_id : PlayerId) (connected : Bool) → MeshEvent
    player_left : PlayerId → MeshEvent
    room_joined : (ice_servers : List IceServer) → MeshEvent
    reconnected : (ice_servers : List IceServer) (missed_events : MeshEvents) → MeshEvent
    signal_received : (from : PlayerId) (signal : Option PeerSignal) → MeshEvent
    room_left disconnected other : MeshEvent

  pub data MeshEvents : Type 0 where
    nil : MeshEvents
    cons : MeshEvent → MeshEvents → MeshEvents

abbrev pub empty_session : MeshSession
empty_session = record {
  topology = none;
  transport = none;
  fallback = none;
  host = none;
  peers = [];
  ice_servers = [];
}

abbrev pub find_peer : PlayerId → List MeshPeer → Option MeshPeer
find_peer id [] = none
find_peer id (p ∷ ps) = if p.player_id == id then some p else find_peer id ps

abbrev pub is_connected : PlayerId → List MeshPeer → Bool
is_connected id peers = is_some_and (find_peer id peers) (λ p. p.connected)

abbrev pub planned_peer : List MeshPeer → SessionPeer → MeshPeer
planned_peer before p = record {
  player_id = p.player_id;
  player_name = p.player_name;
  is_authority = p.is_authority;
  initiate = p.initiate;
  connected = is_connected p.player_id before;
}

-- The peers of a plan, with the liveness of those that were there before.
unfoldable pub plan_peers : List MeshPeer → List SessionPeer → List MeshPeer
plan_peers before [] = []
plan_peers before (p ∷ ps) = planned_peer before p ∷ plan_peers before ps

-- Writing to what `iter_mut().find(..)` finds: the first peer of that id.
unfoldable pub set_initiate : PlayerId → Bool → List MeshPeer → List MeshPeer
set_initiate id b [] = []
set_initiate id b (p ∷ ps) =
    if p.player_id == id then record p { initiate = b } ∷ ps else p ∷ set_initiate id b ps

unfoldable pub set_connected : PlayerId → Bool → List MeshPeer → List MeshPeer
set_connected id b [] = []
set_connected id b (p ∷ ps) =
    if p.player_id == id then record p { connected = b } ∷ ps else p ∷ set_connected id b ps

unfoldable pub drop_peer : PlayerId → List MeshPeer → List MeshPeer
drop_peer id [] = []
drop_peer id (p ∷ ps) = let rest = drop_peer id ps in if p.player_id == id then rest else p ∷ rest

abbrev pub same_option : Option String → Option String → Bool
same_option none none = true
same_option (some a) (some b) = str_eq a b
same_option _ _ = false

abbrev pub same_texts : List String → List String → Bool
same_texts [] [] = true
same_texts (a ∷ xs) (b ∷ ys) = str_eq a b && same_texts xs ys
same_texts _ _ = false

abbrev pub same_server : IceServer → IceServer → Bool
same_server a b =
    same_texts a.urls b.urls
    && same_option a.username b.username
    && same_option a.credential b.credential

abbrev pub same_servers : List IceServer → List IceServer → Bool
same_servers [] [] = true
same_servers (a ∷ xs) (b ∷ ys) = same_server a b && same_servers xs ys
same_servers _ _ = false

-- A method on `&mut self` that reports whether it changed the view.
abbrev pub Fold : Type 0
Fold = MeshSession → Bool × MeshSession

unfoldable pub apply_pre_gather : List IceServer → Fold
apply_pre_gather ice s =
    if is_empty ice || same_servers s.ice_servers ice
    then (false, s)
    else (true, record s { ice_servers = ice })

abbrev pub differ : Bool → Bool → Bool
differ true b = not b
differ false b = b

abbrev pub late_joiner : PlayerId → Bool → MeshPeer
late_joiner id b = record {
  player_id = id;
  player_name = "";
  is_authority = false;
  initiate = b;
  connected = false;
}

unfoldable pub apply_new_peer : PlayerId → Bool → Fold
unfolding set_initiate
apply_new_peer id b s = elim (find_peer id s.peers) [
  | some existing ↦ (differ existing.initiate b, record s { peers = set_initiate id b s.peers })
  | none ↦ (true, record s { peers = s.peers ++ late_joiner id b ∷ [] })
]

unfoldable pub apply_status : PlayerId → Bool → Fold
unfolding set_connected
apply_status id b s = elim (find_peer id s.peers) [
  | some p ↦ (differ p.connected b, record s { peers = set_connected id b s.peers })
  | none ↦ (false, s)
]

-- The session is over.
unfoldable pub clear : Fold
clear s =
    (is_some s.topology || not (is_empty s.peers) || not (is_empty s.ice_servers), empty_session)

unfoldable pub apply_plan : SessionPlanPayload → MeshSession → MeshSession
unfolding plan_peers
apply_plan plan s = record {
  topology = some plan.topology;
  transport = some plan.transport;
  fallback = some plan.fallback;
  host = plan.host;
  peers = plan_peers s.peers plan.peers;
  ice_servers = plan.ice_servers;
}

-- `apply` on an event without missed events.
unfoldable pub apply_single : MeshEvent → Fold
unfolding apply_plan apply_new_peer apply_status drop_peer apply_pre_gather clear
apply_single (session_plan plan) s = (true, apply_plan plan s)
apply_single (new_peer id initiate) s = apply_new_peer id initiate s
apply_single (peer_transport_status id connected) s = apply_status id connected s
apply_single (player_left id) s = (
  not (length (drop_peer id s.peers) == length s.peers),
  record s { peers = drop_peer id s.peers },
)
apply_single (room_joined ice) s = apply_pre_gather ice s
apply_single room_left s = clear s
apply_single disconnected s = clear s
apply_single _ s = (false, s)

-- Terminal and meta events are no part of a replay.
abbrev pub is_skipped : MeshEvent → Bool
is_skipped room_left = true
is_skipped disconnected = true
is_skipped (reconnected _ _) = true
is_skipped (room_joined _) = true
is_skipped _ = false

unfoldable pub apply_missed : MeshEvent → Fold
apply_missed e s = if is_skipped e then (false, s) else apply_single e s

-- The loop over the missed events.
unfoldable pub replay : MeshEvents → (changed : Bool) → Fold
replay nil changed s = (changed, s)
replay (cons e es) changed s =
    let missed = apply_missed e s in replay es (changed || missed.0) missed.1

unfoldable pub apply : MeshEvent → Fold
apply (reconnected ice missed) s =
    let gathered = apply_pre_gather ice s in replay missed gathered.0 gathered.1
apply e s = apply_single e s

-- The tracker after a sequence of events.
unfoldable pub apply_all : List MeshEvent → MeshSession → MeshSession
unfolding apply
apply_all [] s = s
apply_all (e ∷ es) s = apply_all es (apply e s).1
