-- ===== src/WebRtc/Agreement/Driven.antt =====
-- src/webrtc.rs: the connections that the driver was told to make, against the peers that the controller
-- knows.
use signal_fish_client_rust.Common.{
  ◌≡◌, refl, sym, ◌∙◌, ap, Bool, true, false, not, ◌&&◌, Option, none, some, List, [], ◌∷◌, ◌==◌,
  map, retain, if◌then◌else◌, if_cases, arith,
}
use signal_fish_client_rust.Protocol.Delivery.{PlayerId}
use signal_fish_client_rust.Protocol.Types.{IceServer, SessionPeer}
use signal_fish_client_rust.Core.Operations.{PeerSignal}
use signal_fish_client_rust.Mesh.Session.{
  MeshEvent, MeshEvents, nil, cons, session_plan, new_peer, peer_transport_status, signal_received,
  player_left, room_joined, room_left, disconnected, reconnected, other, apply, is_skipped, differ,
}
use signal_fish_client_rust.WebRtc.Controller.{
  WebRtcDriver, MeshClient, MeshController, KnownPeer, contains, role_of, gather, ids, report,
  mark_disconnected, with_role, ensure_peer, ensure_peers, follow_plan, forget_player, tear_down,
  disconnect_peer, disconnect_peers, choreograph_single, choreograph_missed, choreograph,
  handle_event,
}
use signal_fish_client_rust.WebRtc.Plan.{
  role_of-retain, disconnect_peer-known, disconnect_peers-known, with_role-known,
}

-- `role_to` is the driver's own book on the connections that it was told to make and not to tear down,
-- each with the role of the last such call.
pub record KeepsConnections {D : Type 0} (rtc : WebRtcDriver D)
    (role_to : D → PlayerId → Option Bool) : Type 0 where
  pub set_ice_servers :
      (ice : List IceServer) (d : D) (id : PlayerId)
      → role_to (rtc.set_ice_servers ice d) id ≡ role_to d id
  pub connect :
      (peer : PlayerId) (b : Bool) (d : D) (id : PlayerId)
      → role_to (rtc.connect peer b d) id ≡ (if peer == id then some b else role_to d id)
  pub on_signal :
      (peer : PlayerId) (s : PeerSignal) (d : D) (id : PlayerId)
      → role_to (rtc.on_signal peer s d) id ≡ role_to d id
  pub disconnect :
      (peer : PlayerId) (d : D) (id : PlayerId)
      → role_to (rtc.disconnect peer d) id ≡ (if peer == id then none else role_to d id)

contains-retain :
    (id : PlayerId) (q : PlayerId → Bool) (xs : List PlayerId)
    → contains id (retain q xs) ≡ (q id && contains id xs)
contains-retain id q [] = ground arith
contains-retain id q (x ∷ xs) = grind (arith, contains-retain id q xs)

role_of-absent :
    (id : PlayerId) (known : List KnownPeer)
    → contains id (map (λ k. k.id) known) ≡ false
    → role_of id known ≡ none
role_of-absent id [] n = refl
role_of-absent id (k ∷ known) n = ground (arith, role_of-absent id known)

module _ {C D : Type 0} (api : MeshClient C) (rtc : WebRtcDriver D)
    (role_to : D → PlayerId → Option Bool) where
  unfoldable pub Driven : MeshController C D → Type 0
  Driven m = (id : PlayerId) → role_to m.driver id ≡ role_of id m.known_peers

  disconnect_peer-driver :
      (peer : PlayerId) (m : MeshController C D)
      → (disconnect_peer api rtc peer m).driver ≡ rtc.disconnect peer m.driver
  unfolding disconnect_peer mark_disconnected report
  disconnect_peer-driver peer m = ground arith

  module _ (keeps : KeepsConnections rtc role_to) where
    disconnect_peer-role :
        (id peer : PlayerId) (m : MeshController C D)
        → role_to (disconnect_peer api rtc peer m).driver id
          ≡ (if peer == id then none else role_to m.driver id)
    disconnect_peer-role id peer m =
        ap (λ d. role_to d id) (disconnect_peer-driver peer m) ∙ keeps.disconnect peer m.driver id

    disconnect_peers-role :
        (id : PlayerId) (peers : List PlayerId) (m : MeshController C D)
        → role_to (disconnect_peers api rtc peers m).driver id
          ≡ (if contains id peers then none else role_to m.driver id)
    disconnect_peers-role id [] m = refl
    disconnect_peers-role id (peer ∷ peers) m =
        disconnect_peers-role id peers (disconnect_peer api rtc peer m)
        ∙ ground (arith, disconnect_peer-role id peer m)

    with_role-Driven :
        (role : Option Bool) (peer : PlayerId) (b : Bool) (m : MeshController C D)
        → role_of peer m.known_peers ≡ role
        → Driven m
        → Driven (with_role api rtc role peer b m)
    unfolding Driven
    with_role-Driven role peer b m e h id =
        told role e
        ∙ ap (λ (r : Option Bool). if peer == id then some b else r) (h id)
        ∙ sym (with_role-known api rtc id role peer b m e)
      where
        told :
            (role : Option Bool)
            → role_of peer m.known_peers ≡ role
            → role_to (with_role api rtc role peer b m).driver id
              ≡ (if peer == id then some b else role_to m.driver id)
        told none e = keeps.connect peer b m.driver id
        told (some before) e =
            if_cases
              (λ (m' : MeshController C D).
                role_to m'.driver id ≡ (if peer == id then some b else role_to m.driver id))
              (differ before b) _ _
              (λ y.
                keeps.connect peer b (disconnect_peer api rtc peer m).driver id
                ∙ ground (arith, disconnect_peer-role id peer m))
              (λ n. grind (arith, h peer, h id))

    ensure_peers-Driven :
        (peers : List SessionPeer) (m : MeshController C D)
        → Driven m
        → Driven (ensure_peers api rtc peers m)
    unfolding ensure_peers ensure_peer
    ensure_peers-Driven [] m h = h
    ensure_peers-Driven (p ∷ peers) m h =
        ensure_peers-Driven peers _
          (with_role-Driven (role_of p.player_id m.known_peers) p.player_id p.initiate m refl h)

    follow_plan-Driven :
        (ice : List IceServer) (peers : List SessionPeer) (m : MeshController C D)
        → Driven m
        → Driven (follow_plan api rtc ice peers m)
    unfolding follow_plan Driven
    follow_plan-Driven ice peers m h =
        let new_ids = map (λ p. p.player_id) peers in
        let gone = retain (λ x. not (contains x new_ids)) (ids api rtc m.known_peers) in
        let served = record m { driver = rtc.set_ice_servers ice m.driver } in
        let cut = disconnect_peers api rtc gone served in
        ensure_peers-Driven peers
          (record cut { known_peers = retain (λ k. contains k.id new_ids) cut.known_peers })
          (λ id.
            disconnect_peers-role id gone served
            ∙ ap (λ (r : Option Bool). if contains id gone then none else r)
                (keeps.set_ice_servers ice m.driver id ∙ h id)
            ∙ ap (λ (b : Bool). if b then none else role_of id m.known_peers)
                (contains-retain id (λ x. not (contains x new_ids)) (ids api rtc m.known_peers))
            ∙ chosen id (contains id new_ids)
            ∙ sym (role_of-retain id (λ x. contains x new_ids) m.known_peers)
            ∙ ap (λ known. role_of id (retain (λ k. contains k.id new_ids) known))
                (sym (disconnect_peers-known api rtc gone served)))
      where
        chosen :
            (id : PlayerId) (b : Bool)
            → (if not b && contains id (ids api rtc m.known_peers)
                then none
                else role_of id m.known_peers)
              ≡ (if b then role_of id m.known_peers else none)
        chosen id true = refl
        chosen id false = grind (arith, role_of-absent id m.known_peers)

    tear_down-Driven : (m : MeshController C D) → Driven m → Driven (tear_down api rtc m)
    unfolding tear_down Driven
    tear_down-Driven m h id =
        disconnect_peers-role id (ids api rtc m.known_peers) (record m { known_peers = [] })
        ∙ ground (arith, h id, role_of-absent id m.known_peers)
        ∙ sym (
            ap (role_of id) (
              disconnect_peers-known api rtc (ids api rtc m.known_peers)
                (record m { known_peers = [] })))

    forget_player-Driven :
        (peer : PlayerId) (m : MeshController C D)
        → Driven m
        → Driven (forget_player api rtc peer m)
    unfolding forget_player Driven
    forget_player-Driven peer m h id =
        disconnect_peer-role id peer m
        ∙ ground (arith, h id)
        ∙ sym (role_of-retain id (λ x. not (x == peer)) m.known_peers)
        ∙ ap (λ known. role_of id (retain (λ k. not (k.id == peer)) known))
            (sym (disconnect_peer-known api rtc peer m))

    gather-Driven :
        (ice : List IceServer) (m : MeshController C D) → Driven m → Driven (gather api rtc ice m)
    unfolding Driven
    gather-Driven ice m h id = ground (arith, keeps.set_ice_servers ice m.driver id, h id)

    single-Driven :
        (e : MeshEvent) (m : MeshController C D)
        → Driven m
        → Driven (choreograph_single api rtc e m)
    unfolding choreograph_single ensure_peer Driven
    single-Driven (session_plan plan) m h = follow_plan-Driven plan.ice_servers plan.peers m h
    single-Driven (new_peer id b) m h = with_role-Driven (role_of id m.known_peers) id b m refl h
    single-Driven (signal_received from none) m h = h
    single-Driven (signal_received from (some s)) m h =
        λ id. keeps.on_signal from s m.driver id ∙ h id
    single-Driven (player_left id) m h = forget_player-Driven id m h
    single-Driven room_left m h = tear_down-Driven m h
    single-Driven disconnected m h = tear_down-Driven m h
    single-Driven (room_joined ice) m h = gather-Driven ice m h
    single-Driven (peer_transport_status id b) m h = h
    single-Driven (reconnected ice missed) m h = h
    single-Driven other m h = h

    missed-Driven :
        (es : MeshEvents) (m : MeshController C D)
        → Driven m
        → Driven (choreograph_missed api rtc es m)
    unfolding choreograph_missed
    missed-Driven nil m h = h
    missed-Driven (cons e es) m h = missed-Driven es _ (
        if_cases Driven (is_skipped e) m (choreograph_single api rtc e m) (λ y. h)
          (λ n. single-Driven e m h))

    choreograph-Driven :
        (e : MeshEvent) (m : MeshController C D) → Driven m → Driven (choreograph api rtc e m)
    unfolding choreograph
    choreograph-Driven (reconnected ice missed) m h =
        missed-Driven missed (gather api rtc ice m) (gather-Driven ice m h)
    choreograph-Driven (session_plan plan) m h = single-Driven (session_plan plan) m h
    choreograph-Driven (new_peer id b) m h = single-Driven (new_peer id b) m h
    choreograph-Driven (peer_transport_status id b) m h =
        single-Driven (peer_transport_status id b) m h
    choreograph-Driven (player_left id) m h = single-Driven (player_left id) m h
    choreograph-Driven (room_joined ice) m h = single-Driven (room_joined ice) m h
    choreograph-Driven (signal_received from s) m h = single-Driven (signal_received from s) m h
    choreograph-Driven room_left m h = single-Driven room_left m h
    choreograph-Driven disconnected m h = single-Driven disconnected m h
    choreograph-Driven other m h = single-Driven other m h

    pub handle_event-Driven :
        (e : MeshEvent) (m : MeshController C D) → Driven m → Driven (handle_event api rtc e m)
    unfolding handle_event Driven
    handle_event-Driven e m h =
        choreograph-Driven e (record m { session = (apply e m.session).1 }) h
