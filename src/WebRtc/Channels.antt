-- ===== src/WebRtc/Channels.antt =====
-- src/webrtc.rs: the controller's connected peers, against the channels that the driver has announced.
use signal_fish_client_rust.Common.{
  ◌≡◌, refl, ◌∙◌, ap, sym, Bool, true, false, not, Option, none, some, List, [], ◌∷◌, ◌++◌, ◌==◌,
  retain, if◌then◌else◌, Result, ok, err, arith,
}
use signal_fish_client_rust.Protocol.Delivery.{PlayerId}
use signal_fish_client_rust.Protocol.Types.{IceServer}
use signal_fish_client_rust.Core.Operations.{
  PeerSignal, SignalFishError, not_connected, protocol_unsupported, binary_format_not_negotiated,
  send_buffer_full,
}
use signal_fish_client_rust.WebRtc.Controller.{
  DriverEvent, signal, connected, dropped, data_received, WebRtcDriver, MeshClient, MeshController,
  contains, report, mark_connected, mark_disconnected, disconnect_peer, relayed, relay, surface,
}
use signal_fish_client_rust.WebRtc.Rules.{TurnRules}

-- What an output of the driver says of the channel to a player.
abbrev pub announced : Option DriverEvent → PlayerId → (before : Bool) → Bool
announced none id before = before
announced (some (signal peer s)) id before = before
announced (some (connected peer)) id before = if peer == id then true else before
announced (some (dropped peer)) id before = if peer == id then false else before
announced (some (data_received peer bytes)) id before = before

-- `open` is the driver's own book on the channels: one is open once the driver has announced it, until
-- the driver announces its end or is told to tear it down.
pub record KeepsChannels {D : Type 0} (rtc : WebRtcDriver D) (open_to : D → PlayerId → Bool)
    : Type 0 where
  pub set_ice_servers :
      (ice : List IceServer) (d : D) (id : PlayerId)
      → open_to (rtc.set_ice_servers ice d) id ≡ open_to d id
  pub connect :
      (peer : PlayerId) (b : Bool) (d : D) (id : PlayerId)
      → open_to (rtc.connect peer b d) id ≡ open_to d id
  pub on_signal :
      (peer : PlayerId) (s : PeerSignal) (d : D) (id : PlayerId)
      → open_to (rtc.on_signal peer s d) id ≡ open_to d id
  pub disconnect :
      (peer : PlayerId) (d : D) (id : PlayerId)
      → open_to (rtc.disconnect peer d) id ≡ (if peer == id then false else open_to d id)
  pub poll :
      (d : D) (id : PlayerId)
      → open_to (rtc.poll d).1 id ≡ announced (rtc.poll d).0 id (open_to d id)

contains-append :
    (id peer : PlayerId) (xs : List PlayerId)
    → contains id (xs ++ peer ∷ []) ≡ (if peer == id then true else contains id xs)
contains-append id peer [] = ground arith
contains-append id peer (x ∷ xs) = ground (arith, contains-append id peer xs)

contains-retain :
    (id peer : PlayerId) (xs : List PlayerId)
    → contains id (retain (λ p. not (p == peer)) xs)
      ≡ (if peer == id then false else contains id xs)
contains-retain id peer [] = ground arith
contains-retain id peer (x ∷ xs) = grind (arith, contains-retain id peer xs)

module _ {C D : Type 0} (api : MeshClient C) (rtc : WebRtcDriver D)
    (open_to : D → PlayerId → Bool) where
  -- The connected peers are those of the open channels.
  unfoldable pub Channels : MeshController C D → Type 0
  Channels m = (id : PlayerId) → contains id m.connected_peers ≡ open_to m.driver id

  mark_connected-peers :
      (id peer : PlayerId) (m : MeshController C D)
      → contains id (mark_connected api rtc peer m).connected_peers
        ≡ (if peer == id then true else contains id m.connected_peers)
  unfolding mark_connected report
  mark_connected-peers id peer m = grind (arith, contains-append id peer m.connected_peers)

  mark_disconnected-peers :
      (id peer : PlayerId) (m : MeshController C D)
      → contains id (mark_disconnected api rtc peer m).connected_peers
        ≡ (if peer == id then false else contains id m.connected_peers)
  unfolding mark_disconnected report
  mark_disconnected-peers id peer m = ground (arith, contains-retain id peer m.connected_peers)

  -- A mark leaves the driver alone.
  mark_connected-driver :
      (peer : PlayerId) (m : MeshController C D) → (mark_connected api rtc peer m).driver ≡ m.driver
  unfolding mark_connected report
  mark_connected-driver peer m = ground arith

  mark_disconnected-driver :
      (peer : PlayerId) (m : MeshController C D)
      → (mark_disconnected api rtc peer m).driver ≡ m.driver
  unfolding mark_disconnected report
  mark_disconnected-driver peer m = ground arith

  surface-peers :
      (id : PlayerId) (output : Option DriverEvent) (m : MeshController C D)
      → contains id (surface api rtc output m).2.connected_peers
        ≡ announced output id (contains id m.connected_peers)
  unfolding surface
  surface-peers id none m = refl
  surface-peers id (some (signal peer s)) m = refl
  surface-peers id (some (connected peer)) m = mark_connected-peers id peer m
  surface-peers id (some (dropped peer)) m = mark_disconnected-peers id peer m
  surface-peers id (some (data_received peer bytes)) m = refl

  surface-driver :
      (output : Option DriverEvent) (m : MeshController C D)
      → (surface api rtc output m).2.driver ≡ m.driver
  unfolding surface
  surface-driver none m = refl
  surface-driver (some (signal peer s)) m = refl
  surface-driver (some (connected peer)) m = mark_connected-driver peer m
  surface-driver (some (dropped peer)) m = mark_disconnected-driver peer m
  surface-driver (some (data_received peer bytes)) m = refl

  relayed-Channels :
      (s : PlayerId × PeerSignal) (r : Result (Unit {0}) SignalFishError × C)
      (m : MeshController C D)
      → Channels m
      → Channels (relayed api rtc s r m).1
  unfolding Channels
  relayed-Channels s (ok _, client) m h = h
  relayed-Channels s (err (send_buffer_full capacity), client) m h = h
  relayed-Channels s (err not_connected, client) m h = h
  relayed-Channels s (err (protocol_unsupported mode), client) m h = h
  relayed-Channels s (err binary_format_not_negotiated, client) m h = h

  relay-Channels :
      (pending : Option (PlayerId × PeerSignal)) (m : MeshController C D)
      → Channels m
      → Channels (relay api rtc pending m).1
  relay-Channels none m h = h
  relay-Channels (some (peer, s)) m h =
      relayed-Channels (peer, s) (api.send_signal peer s m.client) m h

  module _ (keeps : KeepsChannels rtc open_to) where
    pub Channels-TurnRules : TurnRules api rtc Channels
    unfolding Channels disconnect_peer
    Channels-TurnRules = record {
      mesh = record {
        folds = λ s m h. h;
        knows = λ known m h. h;
        gathers = λ ice m h id. h id ∙ sym (keeps.set_ice_servers ice m.driver id);
        connects = λ peer b m h id. h id ∙ sym (keeps.connect peer b m.driver id);
        feeds = λ peer s m h id. h id ∙ sym (keeps.on_signal peer s m.driver id);
        disconnects = λ peer m h id.
            mark_disconnected-peers id peer _
            ∙ ap (λ (b : Bool). if peer == id then false else b) (h id)
            ∙ sym (keeps.disconnect peer m.driver id)
            ∙ sym (ap (λ d. open_to d id) (mark_disconnected-driver peer _));
      };
      relays = λ m h. relay-Channels m.pending_signal m h;
      surfaces = λ m h id.
          let polled = record m { driver = (rtc.poll m.driver).1 } in
          surface-peers id (rtc.poll m.driver).0 polled
          ∙ ap (announced (rtc.poll m.driver).0 id) (h id)
          ∙ sym (keeps.poll m.driver id)
          ∙ sym (ap (λ d. open_to d id) (surface-driver (rtc.poll m.driver).0 polled));
    }
