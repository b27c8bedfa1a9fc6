-- ===== src/WebRtc/Agreement.antt =====
-- src/webrtc.rs: the peers that the controller knows, against those of the session view of src/mesh.rs.
pub mod Driven
pub mod Runs
use signal_fish_client_rust.Common.{
  ◌≡◌, refl, sym, ◌∙◌, ap, subst, Bool, true, false, not, ◌&&◌, Option, none, some, List, [], ◌∷◌,
  ◌++◌, ◌==◌, map, any, retain, if◌then◌else◌, if_cases, is_some, is_empty, Option-cases, inl, inr,
  arith,
}
use signal_fish_client_rust.Protocol.Delivery.{PlayerId}
use signal_fish_client_rust.Protocol.Types.{IceServer, SessionPeer}
use signal_fish_client_rust.Protocol.Payloads.{SessionPlanPayload}
use signal_fish_client_rust.Mesh.Session.{
  MeshEvent, MeshEvents, nil, cons, session_plan, new_peer, peer_transport_status, signal_received,
  player_left, room_joined, room_left, disconnected, reconnected, other, MeshPeer, MeshSession,
  find_peer, plan_peers, set_initiate, set_connected, drop_peer, late_joiner, apply_pre_gather,
  apply_new_peer, apply_status, apply_plan, clear, apply_single, is_skipped, apply_missed, replay,
  apply,
}
use signal_fish_client_rust.WebRtc.Controller.{
  WebRtcDriver, MeshClient, MeshController, KnownPeer, contains, role_of, gather, ids, ensure_peer,
  follow_plan, feed, forget_player, tear_down, disconnect_peer, choreograph_single,
  choreograph_missed, choreograph, handle_event,
}
use signal_fish_client_rust.WebRtc.Plan.{
  last_role, last_role-absent, role_of-retain, disconnect_peer-known, disconnect_peers-known,
  with_role-known, follow_plan-known,
}

-- The role of the first peer of that id in the view.
abbrev pub view_role : PlayerId → List MeshPeer → Option Bool
view_role id [] = none
view_role id (p ∷ peers) = if p.player_id == id then some p.initiate else view_role id peers

-- No peer is named twice.
abbrev pub is_distinct : List SessionPeer → Bool
is_distinct [] = true
is_distinct (p ∷ peers) =
    not (contains p.player_id (map (λ q. q.player_id) peers)) && is_distinct peers

find_peer-view_role :
    (id : PlayerId) (peers : List MeshPeer)
    → is_some (find_peer id peers) ≡ is_some (view_role id peers)
find_peer-view_role id [] = refl
find_peer-view_role id (p ∷ peers) = ground (arith, find_peer-view_role id peers)

view_role-set_initiate :
    (id peer : PlayerId) (b : Bool) (peers : List MeshPeer)
    → is_some (view_role peer peers) ≡ true
    → view_role id (set_initiate peer b peers) ≡ (if peer == id then some b else view_role id peers)
unfolding set_initiate
view_role-set_initiate id peer b [] s = absurd (ground arith)
view_role-set_initiate id peer b (p ∷ peers) s =
    ground (arith, view_role-set_initiate id peer b peers)

view_role-append :
    (id : PlayerId) (peers : List MeshPeer) (p : MeshPeer)
    → is_some (view_role p.player_id peers) ≡ false
    → view_role id (peers ++ p ∷ [])
      ≡ (if p.player_id == id then some p.initiate else view_role id peers)
view_role-append id [] p n = refl
view_role-append id (x ∷ peers) p n = ground (arith, view_role-append id peers p)

view_role-set_connected :
    (id peer : PlayerId) (b : Bool) (peers : List MeshPeer)
    → view_role id (set_connected peer b peers) ≡ view_role id peers
unfolding set_connected
view_role-set_connected id peer b [] = refl
view_role-set_connected id peer b (p ∷ peers) =
    ground (arith, view_role-set_connected id peer b peers)

view_role-drop_peer :
    (id peer : PlayerId) (peers : List MeshPeer)
    → view_role id (drop_peer peer peers) ≡ (if peer == id then none else view_role id peers)
unfolding drop_peer
view_role-drop_peer id peer [] = ground arith
view_role-drop_peer id peer (p ∷ peers) = grind (arith, view_role-drop_peer id peer peers)

view_role-plan_peers :
    (id : PlayerId) (before : List MeshPeer) (peers : List SessionPeer)
    → is_distinct peers ≡ true
    → view_role id (plan_peers before peers) ≡ last_role id peers none
unfolding plan_peers
view_role-plan_peers id before [] d = refl
view_role-plan_peers id before (p ∷ peers) d =
    let rest = view_role-plan_peers id before peers (ground arith) in
    chosen rest (p.player_id == id) (λ y.
      let same : p.player_id ≡ id = ground arith in
      let alone : contains p.player_id (map (λ q. q.player_id) peers) ≡ false = ground arith in
      subst (λ x. contains x (map (λ q. q.player_id) peers) ≡ false) same alone)
  where
    chosen :
        view_role id (plan_peers before peers) ≡ last_role id peers none
        → (b : Bool) → (b ≡ true → contains id (map (λ q. q.player_id) peers) ≡ false)
        → (if b then some p.initiate else view_role id (plan_peers before peers))
          ≡ last_role id peers (if b then some p.initiate else none)
    chosen rest true k = sym (last_role-absent id peers (some p.initiate) (k refl))
    chosen rest false k = rest

apply_new_peer-view :
    (id peer : PlayerId) (b : Bool) (s : MeshSession)
    → view_role id (apply_new_peer peer b s).1.peers
      ≡ (if peer == id then some b else view_role id s.peers)
unfolding apply_new_peer
apply_new_peer-view id peer b s = elim (Option-cases (find_peer peer s.peers)) [
  | inl n ↦
      rw (n, apply_new_peer)
        (view_role-append id s.peers (late_joiner peer b)
          (ground (arith, find_peer-view_role peer s.peers)))
  | inr (p, f) ↦
      rw (f, apply_new_peer)
        (view_role-set_initiate id peer b s.peers
          (ground (arith, find_peer-view_role peer s.peers)))
]

apply_status-view :
    (id peer : PlayerId) (b : Bool) (s : MeshSession)
    → view_role id (apply_status peer b s).1.peers ≡ view_role id s.peers
unfolding apply_status
apply_status-view id peer b s = elim (Option-cases (find_peer peer s.peers)) [
  | inl n ↦ rw (n, apply_status)
  | inr (p, f) ↦ rw (f, apply_status) (view_role-set_connected id peer b s.peers)
]

pub apply_pre_gather-peers :
    (ice : List IceServer) (s : MeshSession) → (apply_pre_gather ice s).1.peers ≡ s.peers
unfolding apply_pre_gather
apply_pre_gather-peers ice s = ground arith

-- Both name the same peers, in the same roles.
pub Agree : List KnownPeer → List MeshPeer → Type 0
Agree known peers = (id : PlayerId) → role_of id known ≡ view_role id peers

module _ {C D : Type 0} (api : MeshClient C) (rtc : WebRtcDriver D) where
  ensure_peer-Agree :
      (peer : PlayerId) (b : Bool) (m : MeshController C D) (s : MeshSession)
      → Agree m.known_peers s.peers
      → Agree (ensure_peer api rtc peer b m).known_peers (apply_new_peer peer b s).1.peers
  unfolding ensure_peer apply_new_peer Agree
  ensure_peer-Agree peer b m s h id =
      with_role-known api rtc id (role_of peer m.known_peers) peer b m refl
      ∙ ground (arith, h id)
      ∙ sym (apply_new_peer-view id peer b s)

  abbrev pub distinct_event : MeshEvent → Bool
  distinct_event (session_plan plan) = is_distinct plan.peers
  distinct_event _ = true

  pub gather-known :
      (ice : List IceServer) (m : MeshController C D)
      → (gather api rtc ice m).known_peers ≡ m.known_peers
  gather-known ice m = ground arith

  tear_down-known : (m : MeshController C D) → (tear_down api rtc m).known_peers ≡ []
  unfolding tear_down
  tear_down-known m = disconnect_peers-known api rtc (ids api rtc m.known_peers) _

  pub single-Agree :
      (e : MeshEvent) (m : MeshController C D) (s : MeshSession)
      → distinct_event e ≡ true
      → Agree m.known_peers s.peers
      → Agree (choreograph_single api rtc e m).known_peers (apply_single e s).1.peers
  unfolding Agree choreograph_single apply_single apply_plan forget_player clear
  single-Agree (session_plan plan) m s d h id =
      follow_plan-known api rtc id plan.ice_servers plan.peers m
      ∙ sym (view_role-plan_peers id s.peers plan.peers d)
  single-Agree (new_peer peer b) m s d h id = ensure_peer-Agree peer b m s h id
  single-Agree (peer_transport_status peer b) m s d h id =
      h id ∙ sym (apply_status-view id peer b s)
  single-Agree (player_left peer) m s d h id =
      ap (λ known. role_of id (retain (λ k. not (k.id == peer)) known))
        (disconnect_peer-known api rtc peer m)
      ∙ role_of-retain id (λ x. not (x == peer)) m.known_peers
      ∙ ground (arith, h id)
      ∙ sym (view_role-drop_peer id peer s.peers)
  single-Agree (signal_received from none) m s d h id = h id
  single-Agree (signal_received from (some x)) m s d h id = h id
  single-Agree (room_joined ice) m s d h id =
      ap (role_of id) (gather-known ice m)
      ∙ h id
      ∙ ap (view_role id) (sym (apply_pre_gather-peers ice s))
  single-Agree room_left m s d h id = ap (role_of id) (tear_down-known m)
  single-Agree disconnected m s d h id = ap (role_of id) (tear_down-known m)
  single-Agree (reconnected ice missed) m s d h id = h id
  single-Agree other m s d h id = h id
