-- ===== src/WebRtc/Relay.antt =====
-- src/webrtc.rs: what `drain_driver` does with the signals that the driver brings.
use signal_fish_client_rust.Common.{
  ℕ, ◌≡◌, ◌⊎◌, inl, inr, refl, sym, ◌∙◌, ap, Bool, true, false, Option, none, some, List, [], ◌∷◌,
  ◌++◌, map, append_assoc, append-nil, if◌then◌else◌, is_some, Result, ok, err, arith,
}
use signal_fish_client_rust.Protocol.Delivery.{PlayerId}
use signal_fish_client_rust.Core.Operations.{
  PeerSignal, SignalFishError, not_connected, protocol_unsupported, binary_format_not_negotiated,
  send_buffer_full,
}
use signal_fish_client_rust.WebRtc.Controller.{
  DriverEvent, signal, connected, dropped, data_received, Surfaced, peer_connected,
  peer_disconnected, peer_data, WebRtcDriver, MeshClient, MeshController, report, mark_connected,
  mark_disconnected, relayed, relay,
}

abbrev pub of_pending : Option (PlayerId × PeerSignal) → List (PlayerId × PeerSignal)
of_pending none = []
of_pending (some s) = s ∷ []

abbrev pub as_output : PlayerId × PeerSignal → DriverEvent
as_output (peer, s) = signal peer s

-- The output of the driver that is handed to the application.
abbrev pub surfaced_output : Option Surfaced → List DriverEvent
surfaced_output none = []
surfaced_output (some (peer_connected peer)) = connected peer ∷ []
surfaced_output (some (peer_disconnected peer)) = dropped peer ∷ []
surfaced_output (some (peer_data peer bytes)) = data_received peer bytes ∷ []

-- The driver hands its outputs over one by one: `outbox` lists those to come.
pub data Polled (outbox outbox' : List DriverEvent) (result : Option DriverEvent) : Type 0 where
  idle : outbox ≡ [] → outbox' ≡ [] → result ≡ none → Polled outbox outbox' result
  gives : (e : DriverEvent) → outbox ≡ e ∷ outbox' → result ≡ some e → Polled outbox outbox' result

abbrev pub is_full : Result (Unit {0}) SignalFishError → Bool
is_full (err (send_buffer_full capacity)) = true
is_full _ = false

-- `log` is the client's own book on the signals that it was handed and answered for good, which is to
-- say taken or refused for another reason than a full queue.
pub record Queues {C D : Type 0} (api : MeshClient C) (rtc : WebRtcDriver D)
    (log : C → List (PlayerId × PeerSignal)) (outbox : D → List DriverEvent) : Type 0 where
  pub polls : (d : D) → Polled (outbox d) (outbox (rtc.poll d).1) (rtc.poll d).0
  pub sends :
      (peer : PlayerId) (s : PeerSignal) (c : C)
      → log (api.send_signal peer s c).1
        ≡ (if is_full (api.send_signal peer s c).0 then log c else log c ++ (peer, s) ∷ [])
  pub reports : (b : Bool) (c : C) → log (api.report_transport_status b c).1 ≡ log c

module _ {C D : Type 0} (api : MeshClient C) (rtc : WebRtcDriver D)
    (log : C → List (PlayerId × PeerSignal)) (outbox : D → List DriverEvent) where
  -- A signal waits since the client, in the state in which it was left, had no room for it.
  pub record Blocked (m : MeshController C D) : Type 0 where
    pub peer : PlayerId
    pub signal : PeerSignal
    pub asked : C
    pub capacity : ℕ
    pub waits : m.pending_signal ≡ some (peer, signal)
    pub answer : api.send_signal peer signal asked ≡ (err (send_buffer_full capacity), m.client)

  abbrev pub Stops : Option Surfaced → MeshController C D → Type 0
  Stops e m =
      Blocked m × (e ≡ none)
      ⊎ (m.pending_signal ≡ none) × ((is_some e ≡ true) ⊎ (outbox m.driver ≡ []))

  -- What a drain did. It took the signals `sent` and then the output that it surfaces off the driver,
  -- and the client answered them in their order behind the one that waited, but for one that now waits.
  pub record Drained (m : MeshController C D) (e : Option Surfaced) (m' : MeshController C D)
      : Type 0 where
    pub sent : List (PlayerId × PeerSignal)
    pub outputs : outbox m.driver ≡ map as_output sent ++ (surfaced_output e ++ outbox m'.driver)
    pub order :
        log m'.client ++ of_pending m'.pending_signal
        ≡ log m.client ++ (of_pending m.pending_signal ++ sent)
    pub stops : Stops e m'

  -- A round after which the loop goes on took one signal.
  pub record Goes (m m' : MeshController C D) : Type 0 where
    pub taken : PlayerId × PeerSignal
    pub output : outbox m.driver ≡ as_output taken ∷ outbox m'.driver
    pub order :
        log m'.client ++ of_pending m'.pending_signal
        ≡ log m.client ++ (of_pending m.pending_signal ++ taken ∷ [])

  pub Goes-Drained :
      (m next : MeshController C D) (e : Option Surfaced) (m' : MeshController C D)
      → Goes m next
      → Drained next e m'
      → Drained m e m'
  Goes-Drained m next e m' g d = record {
    sent = g.taken ∷ d.sent;
    outputs = g.output ∙ ap (λ rest. as_output g.taken ∷ rest) d.outputs;
    order =
        d.order
        ∙ sym (append_assoc (log next.client) (of_pending next.pending_signal) d.sent)
        ∙ ap (λ all. all ++ d.sent) g.order
        ∙ simp append_assoc;
    stops = d.stops;
  }

  abbrev pub Stepped : MeshController C D → Bool × Option Surfaced × MeshController C D → Type 0
  Stepped m x = (x.0 ≡ true → Goes m x.2) × (x.0 ≡ false → Drained m x.1 x.2)

  -- How the relay of the buffered signal ends.
  abbrev pub Relayed : MeshController C D → Bool × MeshController C D → Type 0
  Relayed m r =
      (r.1.driver ≡ m.driver)
      × (r.0 ≡ true
          → (r.1.pending_signal ≡ none)
            × (log r.1.client ≡ log m.client ++ of_pending m.pending_signal))
      × (r.0 ≡ false
          → Blocked r.1 × (r.1.pending_signal ≡ m.pending_signal) × (log r.1.client ≡ log m.client))

  module _ (queues : Queues api rtc log outbox) where
    relayed-Relayed :
        (peer : PlayerId) (s : PeerSignal) (r : Result (Unit {0}) SignalFishError × C)
        (m : MeshController C D)
        → m.pending_signal ≡ some (peer, s)
        → api.send_signal peer s m.client ≡ r
        → log r.1 ≡ (if is_full r.0 then log m.client else log m.client ++ (peer, s) ∷ [])
        → Relayed m (relayed api rtc (peer, s) r m)
    relayed-Relayed peer s (ok _, client) m p e l =
        (refl, (λ h. (refl, rw p l)), λ (h : true ≡ false). absurd (ground arith))
    relayed-Relayed peer s (err (send_buffer_full k), client) m p e l = (
      refl,
      (λ (h : false ≡ true). absurd (ground arith)),
      λ h. (
        record {
          peer = peer;
          signal = s;
          asked = m.client;
          capacity = k;
          waits = refl;
          answer = e;
        },
        sym p,
        l,
      ),
    )
    relayed-Relayed peer s (err not_connected, client) m p e l =
        (refl, (λ h. (refl, rw p l)), λ (h : true ≡ false). absurd (ground arith))
    relayed-Relayed peer s (err (protocol_unsupported x), client) m p e l =
        (refl, (λ h. (refl, rw p l)), λ (h : true ≡ false). absurd (ground arith))
    relayed-Relayed peer s (err binary_format_not_negotiated, client) m p e l =
        (refl, (λ h. (refl, rw p l)), λ (h : true ≡ false). absurd (ground arith))

    pub relay-Relayed :
        (pending : Option (PlayerId × PeerSignal)) (m : MeshController C D)
        → m.pending_signal ≡ pending
        → Relayed m (relay api rtc pending m)
    relay-Relayed none m p = (
      refl,
      (λ h. (p, rw p (sym (append-nil (log m.client))))),
      λ (h : true ≡ false). absurd (ground arith),
    )
    relay-Relayed (some (peer, s)) m p =
        relayed-Relayed peer s (api.send_signal peer s m.client) m p refl
          (queues.sends peer s m.client)

    -- A mark changes the client by a report at most.
    pub mark_connected-kept :
        (peer : PlayerId) (m : MeshController C D)
        → let m' = mark_connected api rtc peer m in
          (log m'.client ≡ log m.client)
          × (m'.driver ≡ m.driver)
          × (m'.pending_signal ≡ m.pending_signal)
    unfolding mark_connected report
    mark_connected-kept peer m =
        (ground (arith, queues.reports true m.client), ground arith, ground arith)

    pub mark_disconnected-kept :
        (peer : PlayerId) (m : MeshController C D)
        → let m' = mark_disconnected api rtc peer m in
          (log m'.client ≡ log m.client)
          × (m'.driver ≡ m.driver)
          × (m'.pending_signal ≡ m.pending_signal)
    unfolding mark_disconnected report
    mark_disconnected-kept peer m =
        (ground (arith, queues.reports false m.client), ground arith, ground arith)

    -- A surfaced output ends the drain.
    pub surfaced-Drained :
        (x : Surfaced) (m m' : MeshController C D)
        → m'.pending_signal ≡ none
        → log m'.client ≡ log m.client ++ of_pending m.pending_signal
        → outbox m.driver ≡ surfaced_output (some x) ++ outbox m'.driver
        → Drained m (some x) m'
    surfaced-Drained x m m' p l o = record {
      sent = [];
      outputs = o;
      order = rw (p, l) (simp append-nil);
      stops = inr (p, inl refl);
    }
