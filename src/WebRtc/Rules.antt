-- ===== src/WebRtc/Rules.antt =====
-- src/webrtc.rs: what each step of the controller keeps, every turn of it keeps.
use signal_fish_client_rust.Common.{
  ℕ, zero, suc, Bool, true, false, not, Option, none, some, List, [], ◌∷◌, map, retain, if_cases,
  is_empty,
}
use signal_fish_client_rust.Protocol.Delivery.{PlayerId}
use signal_fish_client_rust.Protocol.Types.{IceServer, SessionPeer}
use signal_fish_client_rust.Core.Operations.{PeerSignal}
use signal_fish_client_rust.Mesh.Session.{
  MeshEvent, MeshEvents, nil, cons, session_plan, new_peer, peer_transport_status, signal_received,
  player_left, room_joined, room_left, disconnected, reconnected, other, MeshSession, apply,
  is_skipped, differ,
}
use signal_fish_client_rust.WebRtc.Controller.{
  Surfaced, WebRtcDriver, MeshClient, MeshController, KnownPeer, contains, role_of, disconnect_peer,
  disconnect_peers, with_role, ensure_peer, ensure_peers, gather, ids, follow_plan, forget_player,
  tear_down, choreograph_single, choreograph_missed, choreograph, handle_event, relay,
  relay_pending_signal, surface, drain_round, after_drain, drain_driver,
}
use signal_fish_client_rust.WebRtc.Turns.{Turn, pump, incoming, drained, turns}

module _ {C D : Type 0} (api : MeshClient C) (rtc : WebRtcDriver D) where
  -- The steps of the choreography.
  pub record MeshRules (P : MeshController C D → Type 0) : Type 0 where
    pub folds : (s : MeshSession) (m : MeshController C D) → P m → P (record m { session = s })
    pub knows :
        (known : List KnownPeer) (m : MeshController C D)
        → P m
        → P (record m { known_peers = known })
    pub gathers :
        (ice : List IceServer) (m : MeshController C D)
        → P m
        → P (record m { driver = rtc.set_ice_servers ice m.driver })
    pub connects :
        (peer : PlayerId) (b : Bool) (m : MeshController C D)
        → P m
        → P (record m { driver = rtc.connect peer b m.driver })
    pub feeds :
        (peer : PlayerId) (s : PeerSignal) (m : MeshController C D)
        → P m
        → P (record m { driver = rtc.on_signal peer s m.driver })
    pub disconnects :
        (peer : PlayerId) (m : MeshController C D) → P m → P (disconnect_peer api rtc peer m)

  -- With those of a drain.
  pub record TurnRules (P : MeshController C D → Type 0) : Type 0 where
    pub mesh : MeshRules P
    pub relays : (m : MeshController C D) → P m → P (relay api rtc m.pending_signal m).1
    pub surfaces :
        (m : MeshController C D)
        → P m
        → P (surface api rtc (rtc.poll m.driver).0 (record m { driver = (rtc.poll m.driver).1 })).2

  module _ (P : MeshController C D → Type 0) where
    module _ (rules : MeshRules P) where
      disconnect_peers-keeps :
          (peers : List PlayerId) (m : MeshController C D)
          → P m
          → P (disconnect_peers api rtc peers m)
      disconnect_peers-keeps [] m h = h
      disconnect_peers-keeps (peer ∷ peers) m h =
          disconnect_peers-keeps peers (disconnect_peer api rtc peer m) (rules.disconnects peer m h)

      with_role-keeps :
          (role : Option Bool) (peer : PlayerId) (b : Bool) (m : MeshController C D)
          → P m
          → P (with_role api rtc role peer b m)
      with_role-keeps none peer b m h = rules.knows _ _ (rules.connects peer b m h)
      with_role-keeps (some before) peer b m h =
          if_cases P (differ before b) _ _
            (λ y.
              rules.knows _ _ (
                rules.connects peer b (disconnect_peer api rtc peer m)
                  (rules.disconnects peer m h)))
            (λ n. h)

      ensure_peers-keeps :
          (peers : List SessionPeer) (m : MeshController C D)
          → P m
          → P (ensure_peers api rtc peers m)
      unfolding ensure_peers ensure_peer
      ensure_peers-keeps [] m h = h
      ensure_peers-keeps (p ∷ peers) m h =
          ensure_peers-keeps peers _
            (with_role-keeps (role_of p.player_id m.known_peers) p.player_id p.initiate m h)

      gather-keeps :
          (ice : List IceServer) (m : MeshController C D) → P m → P (gather api rtc ice m)
      gather-keeps ice m h = if_cases P (is_empty ice) _ _ (λ y. h) (λ n. rules.gathers ice m h)

      tear_down-keeps : (m : MeshController C D) → P m → P (tear_down api rtc m)
      unfolding tear_down
      tear_down-keeps m h =
          disconnect_peers-keeps (ids api rtc m.known_peers) _ (rules.knows [] m h)

      follow_plan-keeps :
          (ice : List IceServer) (peers : List SessionPeer) (m : MeshController C D)
          → P m
          → P (follow_plan api rtc ice peers m)
      unfolding follow_plan
      follow_plan-keeps ice peers m h =
          let new_ids = map (λ p. p.player_id) peers in
          let gone = retain (λ id. not (contains id new_ids)) (ids api rtc m.known_peers) in
          let served = record m { driver = rtc.set_ice_servers ice m.driver } in
          let cut = disconnect_peers api rtc gone served in
          ensure_peers-keeps peers
            (record cut { known_peers = retain (λ k. contains k.id new_ids) cut.known_peers })
            (rules.knows (retain (λ k. contains k.id new_ids) cut.known_peers) cut
              (disconnect_peers-keeps gone served (rules.gathers ice m h)))

      choreograph_single-keeps :
          (e : MeshEvent) (m : MeshController C D) → P m → P (choreograph_single api rtc e m)
      unfolding choreograph_single forget_player ensure_peer
      choreograph_single-keeps (session_plan plan) m h =
          follow_plan-keeps plan.ice_servers plan.peers m h
      choreograph_single-keeps (new_peer id b) m h =
          with_role-keeps (role_of id m.known_peers) id b m h
      choreograph_single-keeps (signal_received from none) m h = h
      choreograph_single-keeps (signal_received from (some s)) m h = rules.feeds from s m h
      choreograph_single-keeps (player_left id) m h =
          rules.knows _ (disconnect_peer api rtc id m) (rules.disconnects id m h)
      choreograph_single-keeps room_left m h = tear_down-keeps m h
      choreograph_single-keeps disconnected m h = tear_down-keeps m h
      choreograph_single-keeps (room_joined ice) m h = gather-keeps ice m h
      choreograph_single-keeps (peer_transport_status id b) m h = h
      choreograph_single-keeps (reconnected ice missed) m h = h
      choreograph_single-keeps other m h = h

      choreograph_missed-keeps :
          (es : MeshEvents) (m : MeshController C D) → P m → P (choreograph_missed api rtc es m)
      unfolding choreograph_missed
      choreograph_missed-keeps nil m h = h
      choreograph_missed-keeps (cons e es) m h = choreograph_missed-keeps es _ (
          if_cases P (is_skipped e) m (choreograph_single api rtc e m) (λ y. h)
            (λ n. choreograph_single-keeps e m h))

      choreograph-keeps :
          (e : MeshEvent) (m : MeshController C D) → P m → P (choreograph api rtc e m)
      unfolding choreograph
      choreograph-keeps (reconnected ice missed) m h =
          choreograph_missed-keeps missed (gather api rtc ice m) (gather-keeps ice m h)
      choreograph-keeps (session_plan plan) m h = choreograph_single-keeps (session_plan plan) m h
      choreograph-keeps (new_peer id b) m h = choreograph_single-keeps (new_peer id b) m h
      choreograph-keeps (peer_transport_status id b) m h =
          choreograph_single-keeps (peer_transport_status id b) m h
      choreograph-keeps (player_left id) m h = choreograph_single-keeps (player_left id) m h
      choreograph-keeps (room_joined ice) m h = choreograph_single-keeps (room_joined ice) m h
      choreograph-keeps (signal_received from s) m h =
          choreograph_single-keeps (signal_received from s) m h
      choreograph-keeps room_left m h = choreograph_single-keeps room_left m h
      choreograph-keeps disconnected m h = choreograph_single-keeps disconnected m h
      choreograph-keeps other m h = choreograph_single-keeps other m h

      pub handle_event-keeps :
          (e : MeshEvent) (m : MeshController C D) → P m → P (handle_event api rtc e m)
      unfolding handle_event
      handle_event-keeps e m h =
          let s = (apply e m.session).1 in
          choreograph-keeps e (record m { session = s }) (rules.folds s m h)

    module _ (rules : TurnRules P) where
      drain_round-keeps : (m : MeshController C D) → P m → P (drain_round api rtc m).2
      unfolding drain_round relay_pending_signal
      drain_round-keeps m h =
          let r = relay api rtc m.pending_signal m in
          if_cases (λ (x : Bool × Option Surfaced × MeshController C D). P x.2) r.0 _
            (false, none, r.1) (λ y. rules.surfaces r.1 (rules.relays m h)) (λ n. rules.relays m h)

      after_drain-keeps :
          (r : Bool × Option Surfaced × MeshController C D) (fuel : ℕ) (before : MeshController C D)
          → P r.2
          → P (drained api rtc (drain_driver api rtc fuel r.2) before)
          → P (drained api rtc (after_drain api rtc r (drain_driver api rtc fuel)) before)
      after_drain-keeps (true, e, m) fuel before h k = k
      after_drain-keeps (false, e, m) fuel before h k = h

      drain_driver-keeps :
          (fuel : ℕ) (m before : MeshController C D)
          → P m
          → P before
          → P (drained api rtc (drain_driver api rtc fuel m) before)
      unfolding drain_driver
      drain_driver-keeps zero m before h b = b
      drain_driver-keeps (suc fuel) m before h b =
          let next = drain_round-keeps m h in
          after_drain-keeps (drain_round api rtc m) fuel before next
            (drain_driver-keeps fuel (drain_round api rtc m).2 before next b)

      pub turns-keeps : (ts : List Turn) (m : MeshController C D) → P m → P (turns api rtc ts m)
      unfolding turns
      turns-keeps [] m h = h
      turns-keeps (pump fuel ∷ ts) m h = turns-keeps ts _ (drain_driver-keeps fuel m m h h)
      turns-keeps (incoming e ∷ ts) m h = turns-keeps ts _ (handle_event-keeps rules.mesh e m h)
