-- ===== src/WebRtc/Plan.antt =====
-- src/webrtc.rs: the peers that the controller knows after a plan.
use signal_fish_client_rust.Common.{
  ◌≡◌, refl, ◌∙◌, ap, Bool, true, false, not, Option, none, some, List, [], ◌∷◌, ◌++◌, ◌==◌, map,
  retain, if◌then◌else◌, if_cases, is_some, arith,
}
use signal_fish_client_rust.Protocol.Delivery.{PlayerId}
use signal_fish_client_rust.Protocol.Types.{IceServer, SessionPeer}
use signal_fish_client_rust.Protocol.Payloads.{SessionPlanPayload}
use signal_fish_client_rust.Mesh.Session.{session_plan, apply, differ}
use signal_fish_client_rust.WebRtc.Controller.{
  WebRtcDriver, MeshClient, MeshController, KnownPeer, contains, role_of, set_role, report,
  mark_disconnected, disconnect_peer, disconnect_peers, with_role, ensure_peer, ensure_peers, ids,
  follow_plan, choreograph_single, choreograph, handle_event,
}

-- The role that the last entry of a plan for the peer gives; `before` where there is none.
abbrev pub last_role : PlayerId → List SessionPeer → (before : Option Bool) → Option Bool
last_role id [] before = before
last_role id (p ∷ peers) before =
    last_role id peers (if p.player_id == id then some p.initiate else before)

role_of-append :
    (id : PlayerId) (known : List KnownPeer) (k : KnownPeer)
    → role_of k.id known ≡ none
    → role_of id (known ++ k ∷ []) ≡ (if k.id == id then some k.initiate else role_of id known)
role_of-append id [] k n = refl
role_of-append id (x ∷ known) k n = ground (arith, role_of-append id known k)

role_of-set_role :
    (id peer : PlayerId) (b : Bool) (known : List KnownPeer)
    → is_some (role_of peer known) ≡ true
    → role_of id (set_role peer b known) ≡ (if peer == id then some b else role_of id known)
unfolding set_role
role_of-set_role id peer b [] s = absurd (ground arith)
role_of-set_role id peer b (k ∷ known) s = ground (arith, role_of-set_role id peer b known)

pub role_of-retain :
    (id : PlayerId) (q : PlayerId → Bool) (known : List KnownPeer)
    → role_of id (retain (λ k. q k.id) known) ≡ (if q id then role_of id known else none)
role_of-retain id q [] = ground arith
role_of-retain id q (k ∷ known) = grind (arith, role_of-retain id q known)

pub last_role-absent :
    (id : PlayerId) (peers : List SessionPeer) (before : Option Bool)
    → contains id (map (λ p. p.player_id) peers) ≡ false
    → last_role id peers before ≡ before
last_role-absent id [] before n = refl
last_role-absent id (p ∷ peers) before n = ground (arith, last_role-absent id peers before)

last_role-present :
    (id : PlayerId) (peers : List SessionPeer) (before before' : Option Bool)
    → contains id (map (λ p. p.player_id) peers) ≡ true
    → last_role id peers before ≡ last_role id peers before'
last_role-present id [] before before' h = absurd (ground arith)
last_role-present id (p ∷ peers) before before' h =
    chosen (p.player_id == id) (λ n. last_role-present id peers before before' (ground arith))
  where
    chosen :
        (b : Bool)
        → (b ≡ false → last_role id peers before ≡ last_role id peers before')
        → last_role id peers (if b then some p.initiate else before)
          ≡ last_role id peers (if b then some p.initiate else before')
    chosen true k = refl
    chosen false k = k refl

module _ {C D : Type 0} (api : MeshClient C) (rtc : WebRtcDriver D) where
  pub disconnect_peer-known :
      (peer : PlayerId) (m : MeshController C D)
      → (disconnect_peer api rtc peer m).known_peers ≡ m.known_peers
  unfolding disconnect_peer mark_disconnected report
  disconnect_peer-known peer m = ground arith

  pub disconnect_peers-known :
      (peers : List PlayerId) (m : MeshController C D)
      → (disconnect_peers api rtc peers m).known_peers ≡ m.known_peers
  disconnect_peers-known [] m = refl
  disconnect_peers-known (peer ∷ peers) m =
      disconnect_peers-known peers (disconnect_peer api rtc peer m) ∙ disconnect_peer-known peer m

  pub with_role-known :
      (id : PlayerId) (role : Option Bool) (peer : PlayerId) (b : Bool) (m : MeshController C D)
      → role_of peer m.known_peers ≡ role
      → role_of id (with_role api rtc role peer b m).known_peers
        ≡ (if peer == id then some b else role_of id m.known_peers)
  with_role-known id none peer b m e =
      role_of-append id m.known_peers (record { id = peer; initiate = b }) e
  with_role-known id (some before) peer b m e =
      if_cases
        (λ (m' : MeshController C D).
          role_of id m'.known_peers ≡ (if peer == id then some b else role_of id m.known_peers))
        (differ before b) _ _
        (λ y.
          ap (λ known. role_of id (set_role peer b known)) (disconnect_peer-known peer m)
          ∙ role_of-set_role id peer b m.known_peers (ground arith))
        (λ n. unchanged m.known_peers e n)
    where
      unchanged :
          (known : List KnownPeer)
          → role_of peer known ≡ some before
          → differ before b ≡ false
          → role_of id known ≡ (if peer == id then some b else role_of id known)
      unchanged known e n = grind arith

  ensure_peers-known :
      (id : PlayerId) (peers : List SessionPeer) (m : MeshController C D)
      → role_of id (ensure_peers api rtc peers m).known_peers
        ≡ last_role id peers (role_of id m.known_peers)
  unfolding ensure_peers ensure_peer
  ensure_peers-known id [] m = refl
  ensure_peers-known id (p ∷ peers) m =
      ensure_peers-known id peers (ensure_peer api rtc p.player_id p.initiate m)
      ∙ ap (last_role id peers)
          (with_role-known id (role_of p.player_id m.known_peers) p.player_id p.initiate m refl)

  pub follow_plan-known :
      (id : PlayerId) (ice : List IceServer) (peers : List SessionPeer) (m : MeshController C D)
      → role_of id (follow_plan api rtc ice peers m).known_peers ≡ last_role id peers none
  unfolding follow_plan
  follow_plan-known id ice peers m =
      let new_ids = map (λ p. p.player_id) peers in
      let gone = retain (λ x. not (contains x new_ids)) (ids api rtc m.known_peers) in
      let served = record m { driver = rtc.set_ice_servers ice m.driver } in
      let cut = disconnect_peers api rtc gone served in
      ensure_peers-known id peers
        (record cut { known_peers = retain (λ k. contains k.id new_ids) cut.known_peers })
      ∙ ap (last_role id peers) (role_of-retain id (λ x. contains x new_ids) cut.known_peers)
      ∙ named (role_of id cut.known_peers) (contains id new_ids) (last_role-absent id peers none)
          (last_role-present id peers (role_of id cut.known_peers) none)
    where
      named :
          (o : Option Bool) (b : Bool)
          → (b ≡ false → last_role id peers none ≡ none)
          → (b ≡ true → last_role id peers o ≡ last_role id peers none)
          → last_role id peers (if b then o else none) ≡ last_role id peers none
      named o true absent present = present refl
      named o false absent present = refl

  -- After a plan the controller knows exactly the peers that the plan names, each with the role that
  -- the plan gives to it, whatever it knew before; of two entries for one peer the last one counts.
  pub handle_event-session_plan :
      (id : PlayerId) (plan : SessionPlanPayload) (m : MeshController C D)
      → role_of id (handle_event api rtc (session_plan plan) m).known_peers
        ≡ last_role id plan.peers none
  unfolding handle_event choreograph choreograph_single
  handle_event-session_plan id plan m =
      follow_plan-known id plan.ice_servers plan.peers
        (record m { session = (apply (session_plan plan) m.session).1 })
