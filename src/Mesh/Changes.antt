-- ===== src/Mesh/Changes.antt =====
-- src/mesh.rs: what `apply` says of a change.
use signal_fish_client_rust.Common.{
  ◌≤◌, ◌≡◌, refl, ◌∙◌, inl, inr, Bool, true, false, not, ◌||◌, some, List, [], ◌∷◌, is_some, length,
  Option-cases, arith,
}
use signal_fish_client_rust.Protocol.Delivery.{PlayerId}
use signal_fish_client_rust.Protocol.Types.{IceServer}
use signal_fish_client_rust.Mesh.Session.{
  MeshPeer, MeshSession, MeshEvent, session_plan, new_peer, peer_transport_status, player_left,
  room_joined, reconnected, room_left, disconnected, MeshEvents, nil, cons, empty_session,
  find_peer, set_initiate, set_connected, drop_peer, apply_pre_gather, differ, apply_single,
  apply_missed, replay, apply, apply_all,
}

-- Without a plan there is no transport, no fallback and no host.
abbrev pub is_settled : MeshSession → Bool
is_settled s =
    is_some s.topology || not (is_some s.transport || is_some s.fallback || is_some s.host)

set_initiate-same :
    (id : PlayerId) (b : Bool) (ps : List MeshPeer) (p : MeshPeer)
    → find_peer id ps ≡ some p
    → differ p.initiate b ≡ false
    → set_initiate id b ps ≡ ps
unfolding set_initiate
set_initiate-same id b [] p f d = refl
set_initiate-same id b (q ∷ qs) p f d = ground (arith, set_initiate-same id b qs p)

set_connected-same :
    (id : PlayerId) (b : Bool) (ps : List MeshPeer) (p : MeshPeer)
    → find_peer id ps ≡ some p
    → differ p.connected b ≡ false
    → set_connected id b ps ≡ ps
unfolding set_connected
set_connected-same id b [] p f d = refl
set_connected-same id b (q ∷ qs) p f d = ground (arith, set_connected-same id b qs p)

length-drop_peer : (id : PlayerId) (ps : List MeshPeer) → length (drop_peer id ps) ≤ length ps
unfolding drop_peer
length-drop_peer id [] = ground arith
length-drop_peer id (p ∷ ps) = ground (arith, length-drop_peer id ps)

drop_peer-same :
    (id : PlayerId) (ps : List MeshPeer)
    → length (drop_peer id ps) ≡ length ps
    → drop_peer id ps ≡ ps
unfolding drop_peer
drop_peer-same id [] e = refl
drop_peer-same id (p ∷ ps) e = ground (arith, length-drop_peer id ps, drop_peer-same id ps)

apply_single-unchanged :
    (e : MeshEvent) (s : MeshSession)
    → is_settled s ≡ true
    → (apply_single e s).0 ≡ false
    → (apply_single e s).1 ≡ s
unfolding apply_single
apply_single-unchanged (session_plan plan) s w h = absurd (ground arith)
apply_single-unchanged (new_peer id b) s w h = elim (Option-cases (find_peer id s.peers)) [
  | inl f ↦ absurd (ground arith)
  | inr (p, f) ↦ ground (arith, set_initiate-same id b s.peers p f)
]
apply_single-unchanged (peer_transport_status id b) s w h =
    elim (Option-cases (find_peer id s.peers)) [
      | inl f ↦ ground arith
      | inr (p, f) ↦ ground (arith, set_connected-same id b s.peers p f)
    ]
apply_single-unchanged (player_left id) s w h = ground (arith, drop_peer-same id s.peers)
apply_single-unchanged (room_joined ice) s w h = ground arith
apply_single-unchanged room_left s w h = ground arith
apply_single-unchanged disconnected s w h = ground arith
apply_single-unchanged _ s w h = refl

apply_single-is_settled :
    (e : MeshEvent) (s : MeshSession) → is_settled s ≡ true → is_settled (apply_single e s).1 ≡ true
unfolding apply_single
apply_single-is_settled (session_plan plan) s w = ground arith
apply_single-is_settled (new_peer id b) s w = ground arith
apply_single-is_settled (peer_transport_status id b) s w = ground arith
apply_single-is_settled (player_left id) s w = ground arith
apply_single-is_settled (room_joined ice) s w = ground arith
apply_single-is_settled room_left s w = ground arith
apply_single-is_settled disconnected s w = ground arith
apply_single-is_settled _ s w = w

apply_pre_gather-unchanged :
    (ice : List IceServer) (s : MeshSession)
    → (apply_pre_gather ice s).0 ≡ false
    → (apply_pre_gather ice s).1 ≡ s
unfolding apply_pre_gather
apply_pre_gather-unchanged ice s h = ground arith

apply_pre_gather-is_settled :
    (ice : List IceServer) (s : MeshSession)
    → is_settled s ≡ true
    → is_settled (apply_pre_gather ice s).1 ≡ true
unfolding apply_pre_gather
apply_pre_gather-is_settled ice s w = ground arith

apply_missed-is_settled :
    (e : MeshEvent) (s : MeshSession) → is_settled s ≡ true → is_settled (apply_missed e s).1 ≡ true
unfolding apply_missed
apply_missed-is_settled e s w = ground (arith, apply_single-is_settled e s w)

apply_missed-unchanged :
    (e : MeshEvent) (s : MeshSession)
    → is_settled s ≡ true
    → (apply_missed e s).0 ≡ false
    → (apply_missed e s).1 ≡ s
unfolding apply_missed
apply_missed-unchanged e s w h = ground (arith, apply_single-unchanged e s w)

replay-is_settled :
    (es : MeshEvents) (changed : Bool) (s : MeshSession)
    → is_settled s ≡ true
    → is_settled (replay es changed s).1 ≡ true
unfolding replay
replay-is_settled nil changed s w = w
replay-is_settled (cons e es) changed s w =
    replay-is_settled es (changed || (apply_missed e s).0) (apply_missed e s).1
      (apply_missed-is_settled e s w)

or-false : (a b : Bool) → (a || b) ≡ false → (a ≡ false) × (b ≡ false)
or-false true b h = absurd (ground arith)
or-false false b h = (refl, h)

replay-unchanged :
    (es : MeshEvents) (changed : Bool) (s : MeshSession)
    → is_settled s ≡ true
    → (replay es changed s).0 ≡ false
    → (changed ≡ false) × ((replay es changed s).1 ≡ s)
unfolding replay
replay-unchanged nil changed s w h = (h, refl)
replay-unchanged (cons e es) changed s w h =
    let missed = apply_missed e s in
    let (quiet, rest) =
      replay-unchanged es (changed || missed.0) missed.1 (apply_missed-is_settled e s w) h in
    let (before, still) = or-false changed missed.0 quiet in
    (before, rest ∙ apply_missed-unchanged e s w still)

apply-is_settled :
    (e : MeshEvent) (s : MeshSession) → is_settled s ≡ true → is_settled (apply e s).1 ≡ true
unfolding apply
apply-is_settled (reconnected ice missed) s w =
    replay-is_settled missed (apply_pre_gather ice s).0 (apply_pre_gather ice s).1
      (apply_pre_gather-is_settled ice s w)
apply-is_settled e s w = apply_single-is_settled e s w

apply-unchanged :
    (e : MeshEvent) (s : MeshSession)
    → is_settled s ≡ true
    → (apply e s).0 ≡ false
    → (apply e s).1 ≡ s
unfolding apply
apply-unchanged (reconnected ice missed) s w h =
    let (quiet, rest) =
      replay-unchanged missed (apply_pre_gather ice s).0 (apply_pre_gather ice s).1
        (apply_pre_gather-is_settled ice s w) h in
    rest ∙ apply_pre_gather-unchanged ice s quiet
apply-unchanged e s w h = apply_single-unchanged e s w h

apply_all-is_settled :
    (es : List MeshEvent) (s : MeshSession)
    → is_settled s ≡ true
    → is_settled (apply_all es s) ≡ true
unfolding apply_all
apply_all-is_settled [] s w = w
apply_all-is_settled (e ∷ es) s w = apply_all-is_settled es (apply e s).1 (apply-is_settled e s w)

-- After any sequence of events, an event for which `apply` reports no change leaves every field of the
-- session as it was.
pub apply_all-unchanged :
    (es : List MeshEvent) (e : MeshEvent)
    → (apply e (apply_all es empty_session)).0 ≡ false
    → (apply e (apply_all es empty_session)).1 ≡ apply_all es empty_session
apply_all-unchanged es e =
    apply-unchanged e (apply_all es empty_session) (apply_all-is_settled es empty_session refl)
