-- ===== src/WebRtc/Reports.antt =====
-- src/webrtc.rs: the reports on the transport WebRTC that the server gets.
use signal_fish_client_rust.Common.{
  ◌≡◌, ◌↔◌, refl, sym, ◌∙◌, Bool, true, false, not, ◌&&◌, Option, none, some, List, [], ◌∷◌, ◌++◌,
  ◌==◌, retain, if_cases, is_empty, Result, ok, err, arith,
}
use signal_fish_client_rust.Protocol.Delivery.{PlayerId}
use signal_fish_client_rust.Core.Operations.{
  PeerSignal, SignalFishError, not_connected, protocol_unsupported, binary_format_not_negotiated,
  send_buffer_full,
}
use signal_fish_client_rust.Mesh.Session.{differ}
use signal_fish_client_rust.WebRtc.Controller.{
  DriverEvent, signal, connected, dropped, data_received, WebRtcDriver, MeshClient, MeshController,
  start, contains, report, mark_connected, mark_disconnected, disconnect_peer, relayed, relay,
  surface,
}
use signal_fish_client_rust.WebRtc.Turns.{Turn, turns}
use signal_fish_client_rust.WebRtc.Rules.{TurnRules, turns-keeps}
use signal_fish_client_rust.WebRtc.Channels.{KeepsChannels, Channels, Channels-TurnRules}

-- Each report differs from the one before it, the first one from `b`.
abbrev pub alternating : (b : Bool) → List Bool → Bool
alternating b [] = true
alternating b (x ∷ xs) = differ b x && alternating x xs

abbrev pub last_report : (b : Bool) → List Bool → Bool
last_report b [] = b
last_report b (x ∷ xs) = last_report x xs

alternating-append :
    (b x : Bool) (xs : List Bool)
    → alternating b (xs ++ x ∷ []) ≡ (alternating b xs && differ (last_report b xs) x)
alternating-append b x [] = ground arith
alternating-append b x (y ∷ xs) = ground (arith, alternating-append y x xs)

last_report-append : (b x : Bool) (xs : List Bool) → last_report b (xs ++ x ∷ []) ≡ x
last_report-append b x [] = refl
last_report-append b x (y ∷ xs) = last_report-append y x xs

-- The client passes each report on, whatever becomes of it, and a signal is none.
pub record PassesReports {C : Type 0} (api : MeshClient C) (log : C → List Bool) : Type 0 where
  pub reports : (b : Bool) (c : C) → log (api.report_transport_status b c).1 ≡ log c ++ b ∷ []
  pub signals :
      (peer : PlayerId) (s : PeerSignal) (c : C) → log (api.send_signal peer s c).1 ≡ log c

-- The reports are up, down, up and so on, and the last one says whether the list of connected peers is empty.
pub record Reported {C D : Type 0} (log : C → List Bool) (m : MeshController C D) : Type 0 where
  pub alternates : alternating false (log m.client) ≡ true
  pub last : last_report false (log m.client) ≡ not (is_empty m.connected_peers)

module _ {C D : Type 0} (api : MeshClient C) (rtc : WebRtcDriver D) (log : C → List Bool) where
  Reported-same :
      (m m' : MeshController C D)
      → log m'.client ≡ log m.client
      → is_empty m'.connected_peers ≡ is_empty m.connected_peers
      → Reported log m
      → Reported log m'
  Reported-same m m' l e h = record { alternates = rw l h.alternates; last = rw (l, e) h.last }

  module _ (passes : PassesReports api log) where
    report-Reported :
        (b : Bool) (m m' : MeshController C D)
        → m'.client ≡ m.client
        → not (is_empty m'.connected_peers) ≡ b
        → differ (not (is_empty m.connected_peers)) b ≡ true
        → Reported log m
        → Reported log (report api rtc b m')
    unfolding report
    report-Reported b m m' c e d h = record {
      alternates =
          rw (c, passes.reports b m.client)
            (alternating-append false b (log m.client) ∙ ground (arith, h.alternates, h.last));
      last = rw (c, passes.reports b m.client) (last_report-append false b (log m.client) ∙ sym e);
    }

    is_empty-append : (peer : PlayerId) (xs : List PlayerId) → is_empty (xs ++ peer ∷ []) ≡ false
    is_empty-append peer [] = refl
    is_empty-append peer (x ∷ xs) = refl

    mark_connected-Reported :
        (peer : PlayerId) (m : MeshController C D)
        → Reported log m
        → Reported log (mark_connected api rtc peer m)
    unfolding mark_connected
    mark_connected-Reported peer m h =
        let marked = record m { connected_peers = m.connected_peers ++ peer ∷ [] } in
        if_cases (Reported log) (contains peer m.connected_peers) _ _ (λ y. h)
          (λ n.
            if_cases (Reported log) (is_empty m.connected_peers) (report api rtc true marked) marked
              (λ e.
                report-Reported true m marked refl
                  (ground (arith, is_empty-append peer m.connected_peers)) (ground arith) h)
              (λ e. Reported-same m marked refl (is_empty-append peer m.connected_peers ∙ sym e) h))

    mark_disconnected-Reported :
        (peer : PlayerId) (m : MeshController C D)
        → Reported log m
        → Reported log (mark_disconnected api rtc peer m)
    unfolding mark_disconnected
    mark_disconnected-Reported peer m h =
        let left = retain (λ p. not (p == peer)) m.connected_peers in
        let marked = record m { connected_peers = left } in
        if_cases (Reported log) (is_empty left && not (is_empty m.connected_peers))
          (report api rtc false marked) marked
          (λ y. report-Reported false m marked refl (ground arith) (ground arith) h)
          (λ n. Reported-same m marked refl (is_empty-retain peer m.connected_peers n) h)
      where
        is_empty-retain :
            (peer : PlayerId) (xs : List PlayerId)
            → (is_empty (retain (λ p. not (p == peer)) xs) && not (is_empty xs)) ≡ false
            → is_empty (retain (λ p. not (p == peer)) xs) ≡ is_empty xs
        is_empty-retain peer [] n = refl
        is_empty-retain peer (x ∷ xs) n = ground arith

    disconnect_peer-Reported :
        (peer : PlayerId) (m : MeshController C D)
        → Reported log m
        → Reported log (disconnect_peer api rtc peer m)
    unfolding disconnect_peer
    disconnect_peer-Reported peer m h =
        mark_disconnected-Reported peer _ (Reported-same m _ refl refl h)

    relayed-Reported :
        (s : PlayerId × PeerSignal) (r : Result (Unit {0}) SignalFishError × C)
        (m : MeshController C D)
        → log r.1 ≡ log m.client
        → Reported log m
        → Reported log (relayed api rtc s r m).1
    relayed-Reported s (ok _, client) m l h = Reported-same m _ l refl h
    relayed-Reported s (err (send_buffer_full capacity), client) m l h = Reported-same m _ l refl h
    relayed-Reported s (err not_connected, client) m l h = Reported-same m _ l refl h
    relayed-Reported s (err (protocol_unsupported mode), client) m l h = Reported-same m _ l refl h
    relayed-Reported s (err binary_format_not_negotiated, client) m l h = Reported-same m _ l refl h

    relay-Reported :
        (pending : Option (PlayerId × PeerSignal)) (m : MeshController C D)
        → Reported log m
        → Reported log (relay api rtc pending m).1
    relay-Reported none m h = h
    relay-Reported (some (peer, s)) m h =
        relayed-Reported (peer, s) (api.send_signal peer s m.client) m
          (passes.signals peer s m.client) h

    surface-Reported :
        (output : Option DriverEvent) (m : MeshController C D)
        → Reported log m
        → Reported log (surface api rtc output m).2
    unfolding surface
    surface-Reported none m h = h
    surface-Reported (some (signal peer s)) m h = Reported-same m _ refl refl h
    surface-Reported (some (connected peer)) m h = mark_connected-Reported peer m h
    surface-Reported (some (dropped peer)) m h = mark_disconnected-Reported peer m h
    surface-Reported (some (data_received peer bytes)) m h = h

    Reported-TurnRules : TurnRules api rtc (Reported log)
    Reported-TurnRules = record {
      mesh = record {
        folds = λ s m h. Reported-same m _ refl refl h;
        knows = λ known m h. Reported-same m _ refl refl h;
        gathers = λ ice m h. Reported-same m _ refl refl h;
        connects = λ peer b m h. Reported-same m _ refl refl h;
        feeds = λ peer s m h. Reported-same m _ refl refl h;
        disconnects = disconnect_peer-Reported;
      };
      relays = λ m h. relay-Reported m.pending_signal m h;
      surfaces = λ m h.
          surface-Reported (rtc.poll m.driver).0 (record m { driver = (rtc.poll m.driver).1 })
            (Reported-same m _ refl refl h);
    }

    module _ (open_to : D → PlayerId → Bool) (keeps : KeepsChannels rtc open_to) where
      some_channel :
          (m : MeshController C D)
          → Channels api rtc open_to m
          → (not (is_empty m.connected_peers) ≡ true)
            ↔ ((id : PlayerId) × (open_to m.driver id ≡ true))
      unfolding Channels
      some_channel m h = (
        (λ e. let (id, listed) = first m.connected_peers e in (id, sym (h id) ∙ listed)),
        (λ (id, e). non_empty id m.connected_peers (h id ∙ e)),
      )
        where
          first :
              (xs : List PlayerId)
              → not (is_empty xs) ≡ true
              → (id : PlayerId) × (contains id xs ≡ true)
          first [] e = absurd (ground arith)
          first (x ∷ xs) e = (x, ground arith)

          non_empty :
              (id : PlayerId) (xs : List PlayerId)
              → contains id xs ≡ true
              → not (is_empty xs) ≡ true
          non_empty id [] e = absurd (ground arith)
          non_empty id (x ∷ xs) e = refl

      -- Over any turns of a new controller, whose client has passed no report on and whose driver has
      -- no channel yet, the reports on the transport are up, down, up and so on, and the last one is up
      -- exactly when a channel is open: one that the driver has announced, of which it has announced no
      -- end and which it was not told to tear down. The client passes each report on, and sends no such
      -- report for a signal; the driver announces a channel or its end only by an output.
      pub turns-new-Reported :
          (c : C) (d : D) (ts : List Turn)
          → log c ≡ []
          → ((id : PlayerId) → open_to d id ≡ false)
          → let m = turns api rtc ts (start c d) in
            (alternating false (log m.client) ≡ true)
            × ((last_report false (log m.client) ≡ true)
                ↔ ((id : PlayerId) × (open_to m.driver id ≡ true)))
      unfolding start Channels
      turns-new-Reported c d ts e none_open =
          let m = turns api rtc ts (start c d) in
          let reported : Reported log m =
            turns-keeps api rtc (Reported log) Reported-TurnRules ts (start c d)
              (record { alternates = rw e refl; last = rw e refl }) in
          let channels : Channels api rtc open_to m =
            turns-keeps api rtc (Channels api rtc open_to)
              (Channels-TurnRules api rtc open_to keeps) ts (start c d)
              (λ id. sym (none_open id)) in
          let (there, back) = some_channel m channels in
          (
            reported.alternates,
            ((λ l. there (sym reported.last ∙ l)), (λ x. reported.last ∙ back x)),
          )
