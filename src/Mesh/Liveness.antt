-- ===== src/Mesh/Liveness.antt =====
-- src/mesh.rs: the liveness of a peer under the events of a session.
use signal_fish_client_rust.Common.{
  ◌≡◌, ◌⊎◌, refl, ◌∙◌, Bool, true, false, ◌&&◌, none, List, [], ◌∷◌, ◌==◌, is_some, any, arith,
}
use signal_fish_client_rust.Protocol.Delivery.{PlayerId}
use signal_fish_client_rust.Protocol.Types.{SessionPeer}
use signal_fish_client_rust.Protocol.Payloads.{SessionPlanPayload}
use signal_fish_client_rust.Mesh.Session.{
  MeshPeer, MeshSession, session_plan, peer_transport_status, player_left, find_peer, is_connected,
  plan_peers, set_connected, drop_peer, apply_single, apply, apply_all,
}

-- The plan names the player.
abbrev pub names : PlayerId → List SessionPeer → Bool
names id ps = any (λ p. p.player_id == id) ps

plan_peers-is_connected :
    (id : PlayerId) (before : List MeshPeer) (ps : List SessionPeer)
    → is_connected id (plan_peers before ps) ≡ (names id ps && is_connected id before)
unfolding plan_peers
plan_peers-is_connected id before [] = refl
plan_peers-is_connected id before (p ∷ ps) = ground (arith, plan_peers-is_connected id before ps)

plan_peers-find :
    (id : PlayerId) (before : List MeshPeer) (ps : List SessionPeer)
    → is_some (find_peer id (plan_peers before ps)) ≡ names id ps
unfolding plan_peers
plan_peers-find id before [] = refl
plan_peers-find id before (p ∷ ps) = ground (arith, plan_peers-find id before ps)

-- A plan keeps exactly the peers that it names, and each keeps the liveness that it had: a peer
-- that is new to the session starts out as not connected.
pub apply-session_plan :
    (plan : SessionPlanPayload) (s : MeshSession) (id : PlayerId)
    → (is_some (find_peer id (apply (session_plan plan) s).1.peers) ≡ names id plan.peers)
      × (is_connected id (apply (session_plan plan) s).1.peers
          ≡ (names id plan.peers && is_connected id s.peers))
unfolding apply apply_single
apply-session_plan plan s id =
    (plan_peers-find id s.peers plan.peers, plan_peers-is_connected id s.peers plan.peers)

drop_peer-find : (id : PlayerId) (ps : List MeshPeer) → find_peer id (drop_peer id ps) ≡ none
unfolding drop_peer
drop_peer-find id [] = refl
drop_peer-find id (p ∷ ps) = ground (arith, drop_peer-find id ps)

drop_peer-others :
    (id q : PlayerId) (ps : List MeshPeer)
    → (q == id) ≡ false
    → find_peer q (drop_peer id ps) ≡ find_peer q ps
unfolding drop_peer
drop_peer-others id q [] d = refl
drop_peer-others id q (p ∷ ps) d = ground (arith, drop_peer-others id q ps)

-- A player that leaves is no peer afterwards, and every other peer stays as it was.
pub apply-player_left :
    (id q : PlayerId) (s : MeshSession)
    → (find_peer id (apply (player_left id) s).1.peers ≡ none)
      × (((q == id) ≡ true)
          ⊎ (find_peer q (apply (player_left id) s).1.peers ≡ find_peer q s.peers))
unfolding apply apply_single
apply-player_left id q s =
    (drop_peer-find id s.peers, ground (arith, drop_peer-others id q s.peers))

set_connected-is_connected :
    (id : PlayerId) (b : Bool) (ps : List MeshPeer)
    → is_connected id (set_connected id b ps) ≡ (is_some (find_peer id ps) && b)
unfolding set_connected
set_connected-is_connected id b [] = refl
set_connected-is_connected id b (p ∷ ps) = ground (arith, set_connected-is_connected id b ps)

status-is_connected :
    (id : PlayerId) (b : Bool) (s : MeshSession)
    → is_connected id (apply (peer_transport_status id b) s).1.peers
      ≡ (is_some (find_peer id s.peers) && b)
unfolding apply apply_single
status-is_connected id b s = ground (arith, set_connected-is_connected id b s.peers)

-- A status for a peer, followed by a plan that names it, applied to a session without the peer: the
-- peer is not connected after the sequence is applied once, and is connected after it is applied twice.
pub apply_all-twice :
    (id : PlayerId) (plan : SessionPlanPayload) (s : MeshSession)
    → find_peer id s.peers ≡ none
    → names id plan.peers ≡ true
    → let once = apply_all (peer_transport_status id true ∷ session_plan plan ∷ []) s in
      (is_connected id once.peers ≡ false)
      × (is_connected id
            (apply_all (peer_transport_status id true ∷ session_plan plan ∷ []) once).peers
          ≡ true)
unfolding apply_all
apply_all-twice id plan s fresh named =
    let first = (apply (peer_transport_status id true) s).1 in
    let once = (apply (session_plan plan) first).1 in
    let again = (apply (peer_transport_status id true) once).1 in
    (
      (apply-session_plan plan first id).1 ∙ ground (arith, status-is_connected id true s),
      (apply-session_plan plan again id).1
          ∙ ground (arith, status-is_connected id true once, (apply-session_plan plan first id).0),
    )
