-- ===== src/WebRtc/Agreement/Runs.antt =====
-- src/webrtc.rs: the controller and the session view over a sequence of events.
use signal_fish_client_rust.Common.{
  ◌≡◌, refl, sym, ◌∙◌, subst, Bool, true, false, ◌&&◌, Option, none, some, List, [], ◌∷◌,
  if◌then◌else◌, not, map, retain, arith,
}
use signal_fish_client_rust.Protocol.Delivery.{PlayerId}
use signal_fish_client_rust.Protocol.Types.{IceServer, SessionPeer}
use signal_fish_client_rust.Mesh.Session.{
  MeshEvent, MeshEvents, nil, cons, session_plan, new_peer, peer_transport_status, signal_received,
  player_left, room_joined, room_left, disconnected, reconnected, other, MeshSession,
  apply_pre_gather, apply_single, is_skipped, apply_missed, replay, apply,
}
use signal_fish_client_rust.WebRtc.Controller.{
  WebRtcDriver, MeshClient, MeshController, start, contains, role_of, gather, ids, report,
  mark_disconnected, with_role, ensure_peer, ensure_peers, follow_plan, forget_player, tear_down,
  disconnect_peer, disconnect_peers, choreograph_single, choreograph_missed, choreograph,
  handle_event,
}
use signal_fish_client_rust.WebRtc.Agreement.Driven.{KeepsConnections, Driven, handle_event-Driven}
use signal_fish_client_rust.WebRtc.Agreement.{
  view_role, Agree, distinct_event, gather-known, apply_pre_gather-peers, single-Agree,
}

module _ {C D : Type 0} (api : MeshClient C) (rtc : WebRtcDriver D) where
  -- No plan of the event or of its missed events names a peer twice.
  abbrev all_distinct : MeshEvents → Bool
  all_distinct nil = true
  all_distinct (cons e es) = distinct_event api rtc e && all_distinct es

  abbrev pub has_distinct_plans : MeshEvent → Bool
  has_distinct_plans (reconnected ice missed) = all_distinct missed
  has_distinct_plans e = distinct_event api rtc e

  missed-Agree :
      (es : MeshEvents) (changed : Bool) (m : MeshController C D) (s : MeshSession)
      → all_distinct es ≡ true
      → Agree m.known_peers s.peers
      → Agree (choreograph_missed api rtc es m).known_peers (replay es changed s).1.peers
  unfolding choreograph_missed replay apply_missed
  missed-Agree nil changed m s d h = h
  missed-Agree (cons e es) changed m s d h =
      missed-Agree es _ _ _ (ground arith) (one (is_skipped e))
    where
      one :
          (b : Bool)
          → Agree
              (if b then m else choreograph_single api rtc e m).known_peers
              (if b then (false, s) else apply_single e s).1.peers
      one true = h
      one false = single-Agree api rtc e m s (ground arith) h

  choreograph-Agree :
      (e : MeshEvent) (m : MeshController C D) (s : MeshSession)
      → has_distinct_plans e ≡ true
      → Agree m.known_peers s.peers
      → Agree (choreograph api rtc e m).known_peers (apply e s).1.peers
  unfolding choreograph apply
  choreograph-Agree (reconnected ice missed) m s d h =
      missed-Agree missed _ (gather api rtc ice m) (apply_pre_gather ice s).1 d (gathered h)
    where
      gathered :
          Agree m.known_peers s.peers
          → Agree (gather api rtc ice m).known_peers (apply_pre_gather ice s).1.peers
      gathered h =
          subst (λ known. Agree known (apply_pre_gather ice s).1.peers)
            (sym (gather-known api rtc ice m))
            (subst (λ peers. Agree m.known_peers peers) (sym (apply_pre_gather-peers ice s)) h)
  choreograph-Agree (session_plan plan) m s d h = single-Agree api rtc (session_plan plan) m s d h
  choreograph-Agree (new_peer id b) m s d h = single-Agree api rtc (new_peer id b) m s d h
  choreograph-Agree (peer_transport_status id b) m s d h =
      single-Agree api rtc (peer_transport_status id b) m s d h
  choreograph-Agree (player_left id) m s d h = single-Agree api rtc (player_left id) m s d h
  choreograph-Agree (room_joined ice) m s d h = single-Agree api rtc (room_joined ice) m s d h
  choreograph-Agree (signal_received from x) m s d h =
      single-Agree api rtc (signal_received from x) m s d h
  choreograph-Agree room_left m s d h = single-Agree api rtc room_left m s d h
  choreograph-Agree disconnected m s d h = single-Agree api rtc disconnected m s d h
  choreograph-Agree other m s d h = single-Agree api rtc other m s d h

  -- The choreography leaves the view alone.
  disconnect_peer-session :
      (peer : PlayerId) (m : MeshController C D)
      → (disconnect_peer api rtc peer m).session ≡ m.session
  unfolding disconnect_peer mark_disconnected report
  disconnect_peer-session peer m = ground arith

  disconnect_peers-session :
      (peers : List PlayerId) (m : MeshController C D)
      → (disconnect_peers api rtc peers m).session ≡ m.session
  disconnect_peers-session [] m = refl
  disconnect_peers-session (peer ∷ peers) m =
      disconnect_peers-session peers (disconnect_peer api rtc peer m)
      ∙ disconnect_peer-session peer m

  with_role-session :
      (role : Option Bool) (peer : PlayerId) (b : Bool) (m : MeshController C D)
      → (with_role api rtc role peer b m).session ≡ m.session
  with_role-session none peer b m = refl
  with_role-session (some before) peer b m = ground (arith, disconnect_peer-session peer m)

  ensure_peers-session :
      (peers : List SessionPeer) (m : MeshController C D)
      → (ensure_peers api rtc peers m).session ≡ m.session
  unfolding ensure_peers ensure_peer
  ensure_peers-session [] m = refl
  ensure_peers-session (p ∷ peers) m =
      ensure_peers-session peers (ensure_peer api rtc p.player_id p.initiate m)
      ∙ with_role-session (role_of p.player_id m.known_peers) p.player_id p.initiate m

  follow_plan-session :
      (ice : List IceServer) (peers : List SessionPeer) (m : MeshController C D)
      → (follow_plan api rtc ice peers m).session ≡ m.session
  unfolding follow_plan
  follow_plan-session ice peers m =
      let new_ids = map (λ p. p.player_id) peers in
      let gone = retain (λ x. not (contains x new_ids)) (ids api rtc m.known_peers) in
      let served = record m { driver = rtc.set_ice_servers ice m.driver } in
      let cut = disconnect_peers api rtc gone served in
      ensure_peers-session peers
        (record cut { known_peers = retain (λ k. contains k.id new_ids) cut.known_peers })
      ∙ disconnect_peers-session gone served

  tear_down-session : (m : MeshController C D) → (tear_down api rtc m).session ≡ m.session
  unfolding tear_down
  tear_down-session m =
      disconnect_peers-session (ids api rtc m.known_peers) (record m { known_peers = [] })

  gather-session :
      (ice : List IceServer) (m : MeshController C D) → (gather api rtc ice m).session ≡ m.session
  gather-session ice m = ground arith

  single-session :
      (e : MeshEvent) (m : MeshController C D)
      → (choreograph_single api rtc e m).session ≡ m.session
  unfolding choreograph_single forget_player ensure_peer
  single-session (session_plan plan) m = follow_plan-session plan.ice_servers plan.peers m
  single-session (new_peer id b) m = with_role-session (role_of id m.known_peers) id b m
  single-session (player_left id) m = disconnect_peer-session id m
  single-session room_left m = tear_down-session m
  single-session disconnected m = tear_down-session m
  single-session (room_joined ice) m = gather-session ice m
  single-session (signal_received from none) m = refl
  single-session (signal_received from (some x)) m = refl
  single-session (peer_transport_status id b) m = refl
  single-session (reconnected ice missed) m = refl
  single-session other m = refl

  missed-session :
      (es : MeshEvents) (m : MeshController C D)
      → (choreograph_missed api rtc es m).session ≡ m.session
  unfolding choreograph_missed
  missed-session nil m = refl
  missed-session (cons e es) m =
      missed-session es (if is_skipped e then m else choreograph_single api rtc e m)
      ∙ one (is_skipped e)
    where
      one : (b : Bool) → (if b then m else choreograph_single api rtc e m).session ≡ m.session
      one true = refl
      one false = single-session e m

  choreograph-session :
      (e : MeshEvent) (m : MeshController C D) → (choreograph api rtc e m).session ≡ m.session
  unfolding choreograph
  choreograph-session (reconnected ice missed) m =
      missed-session missed (gather api rtc ice m) ∙ gather-session ice m
  choreograph-session (session_plan plan) m = single-session (session_plan plan) m
  choreograph-session (new_peer id b) m = single-session (new_peer id b) m
  choreograph-session (peer_transport_status id b) m = refl
  choreograph-session (player_left id) m = single-session (player_left id) m
  choreograph-session (room_joined ice) m = single-session (room_joined ice) m
  choreograph-session (signal_received from x) m = single-session (signal_received from x) m
  choreograph-session room_left m = single-session room_left m
  choreograph-session disconnected m = single-session disconnected m
  choreograph-session other m = refl

  handle_event-Agree :
      (e : MeshEvent) (m : MeshController C D)
      → has_distinct_plans e ≡ true
      → Agree m.known_peers m.session.peers
      → Agree (handle_event api rtc e m).known_peers (handle_event api rtc e m).session.peers
  unfolding handle_event
  handle_event-Agree e m d h =
      let told = record m { session = (apply e m.session).1 } in
      subst (λ (s : MeshSession). Agree (choreograph api rtc e told).known_peers s.peers)
        (sym (choreograph-session e told)) (choreograph-Agree e told m.session d h)

  -- The controller after a sequence of events.
  abbrev pub handle_all : List MeshEvent → MeshController C D → MeshController C D
  handle_all [] m = m
  handle_all (e ∷ es) m = handle_all es (handle_event api rtc e m)

  abbrev pub all_distinct_plans : List MeshEvent → Bool
  all_distinct_plans [] = true
  all_distinct_plans (e ∷ es) = has_distinct_plans e && all_distinct_plans es

  handle_all-Agree :
      (es : List MeshEvent) (m : MeshController C D)
      → all_distinct_plans es ≡ true
      → Agree m.known_peers m.session.peers
      → Agree (handle_all es m).known_peers (handle_all es m).session.peers
  handle_all-Agree [] m d h = h
  handle_all-Agree (e ∷ es) m d h =
      handle_all-Agree es (handle_event api rtc e m) (ground arith)
        (handle_event-Agree e m (ground arith) h)

  handle_all-Driven :
      (role_to : D → PlayerId → Option Bool)
      → KeepsConnections rtc role_to
      → (es : List MeshEvent) (m : MeshController C D) → Driven api rtc role_to m
      → Driven api rtc role_to (handle_all es m)
  handle_all-Driven role_to keeps [] m h = h
  handle_all-Driven role_to keeps (e ∷ es) m h =
      handle_all-Driven role_to keeps es (handle_event api rtc e m)
        (handle_event-Driven api rtc role_to keeps e m h)

  -- Whatever events a new controller takes, as long as no plan among them, replayed or not, names a
  -- player twice: the connections that its driver was told to make, and not to tear down, are to exactly
  -- the peers of its session view, each in the same role, and these are the peers that the controller
  -- knows. The driver starts without connections, and its book on them changes with the calls that tell
  -- it to connect or to disconnect.
  pub handle_all-new-Agree :
      (role_to : D → PlayerId → Option Bool)
      → KeepsConnections rtc role_to
      → (c : C) (d : D) (es : List MeshEvent) (id : PlayerId)
      → ((peer : PlayerId) → role_to d peer ≡ none)
      → all_distinct_plans es ≡ true
      → let m = handle_all es (start c d) in
        (role_to m.driver id ≡ view_role id m.session.peers)
        × (role_of id m.known_peers ≡ view_role id m.session.peers)
  unfolding start Agree Driven
  handle_all-new-Agree role_to keeps c d es id fresh h =
      let agrees = handle_all-Agree es (start c d) h (λ i. refl) id in
      let driven = handle_all-Driven role_to keeps es (start c d) (λ peer. fresh peer) id in
      (driven ∙ agrees, agrees)
