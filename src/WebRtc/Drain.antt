-- ===== src/WebRtc/Drain.antt =====
-- src/webrtc.rs: the loop of `drain_driver`, which returns and says why it stops.
use signal_fish_client_rust.Common.{
  ℕ, zero, suc, ◌<◌, ◌≡◌, inl, inr, refl, sym, ◌∙◌, ap, subst, Bool, true, false, Option, none,
  some, List, [], ◌∷◌, ◌++◌, length, append_assoc, append-nil, if_cases, arith,
}
use signal_fish_client_rust.Protocol.Delivery.{PlayerId}
use signal_fish_client_rust.Core.Operations.{PeerSignal}
use signal_fish_client_rust.WebRtc.Controller.{
  DriverEvent, signal, connected, dropped, data_received, Surfaced, peer_connected,
  peer_disconnected, peer_data, WebRtcDriver, MeshClient, MeshController, mark_connected,
  mark_disconnected, relay, relay_pending_signal, surface, drain_round, after_drain, drain_driver,
}
use signal_fish_client_rust.WebRtc.Relay.{
  of_pending, Polled, idle, gives, Queues, Drained, Goes-Drained, Stepped, Relayed, relay-Relayed,
  mark_connected-kept, mark_disconnected-kept, surfaced-Drained,
}

module _ {C D : Type 0} (api : MeshClient C) (rtc : WebRtcDriver D)
    (log : C → List (PlayerId × PeerSignal)) (outbox : D → List DriverEvent)
    (queues : Queues api rtc log outbox) where
  surface-Stepped :
      (output : Option DriverEvent) (m n : MeshController C D)
      → n.pending_signal ≡ none
      → log n.client ≡ log m.client ++ of_pending m.pending_signal
      → Polled (outbox m.driver) (outbox n.driver) output
      → Stepped api rtc log outbox m (surface api rtc output n)
  unfolding surface
  surface-Stepped none m n p l (gives e b r) = absurd (ground arith)
  surface-Stepped none m n p l (idle b a r) = (
    (λ (h : false ≡ true). absurd (ground arith)),
    λ h. record {
      sent = [];
      outputs = b ∙ sym a;
      order = rw (p, l) (simp append-nil);
      stops = inr (p, inr a);
    },
  )
  surface-Stepped (some e) m n p l (idle b a r) = absurd (ground arith)
  surface-Stepped (some (signal peer s)) m n p l (gives e b r) = (
    (λ h. record {
      taken = (peer, s);
      output = cc;
      order = rw l (append_assoc (log m.client) (of_pending m.pending_signal) ((peer, s) ∷ []));
    }),
    λ (h : true ≡ false). absurd (ground arith),
  )
  surface-Stepped (some (connected peer)) m n p l (gives e b r) =
      let (logged, driven, pending) = mark_connected-kept api rtc log outbox queues peer n in
      (
        (λ (h : false ≡ true). absurd (ground arith)),
        λ h.
            surfaced-Drained api rtc log outbox queues (peer_connected peer) m
              (mark_connected api rtc peer n) (pending ∙ p) (logged ∙ l) (rw driven cc),
      )
  surface-Stepped (some (dropped peer)) m n p l (gives e b r) =
      let (logged, driven, pending) = mark_disconnected-kept api rtc log outbox queues peer n in
      (
        (λ (h : false ≡ true). absurd (ground arith)),
        λ h.
            surfaced-Drained api rtc log outbox queues (peer_disconnected peer) m
              (mark_disconnected api rtc peer n) (pending ∙ p) (logged ∙ l) (rw driven cc),
      )
  surface-Stepped (some (data_received peer bytes)) m n p l (gives e b r) = (
    (λ (h : false ≡ true). absurd (ground arith)),
    λ h. surfaced-Drained api rtc log outbox queues (peer_data peer bytes) m n p l (cc),
  )

  drain_round-Stepped :
      (m : MeshController C D) → Stepped api rtc log outbox m (drain_round api rtc m)
  unfolding drain_round relay_pending_signal
  drain_round-Stepped m =
      let r = relay api rtc m.pending_signal m in
      let relayed : Relayed api rtc log outbox m r =
        relay-Relayed api rtc log outbox queues m.pending_signal m refl in
      let polled = rtc.poll r.1.driver in
      if_cases (Stepped api rtc log outbox m) r.0
        (surface api rtc polled.0 (record r.1 { driver = polled.1 })) (false, none, r.1)
        (λ y.
          let (cleared, logged) = relayed.1 y in
          surface-Stepped polled.0 m (record r.1 { driver = polled.1 }) cleared logged
            (subst (λ d. Polled (outbox d) (outbox polled.1) polled.0) relayed.0
              (queues.polls r.1.driver)))
        (λ n.
          let (blocked, kept, logged) = relayed.2 n in
          (
            (λ (h : false ≡ true). absurd (ground arith)),
            λ h. record {
              sent = [];
              outputs = ap outbox (sym relayed.0);
              order =
                  rw (kept, logged)
                    (ap (λ rest. log m.client ++ rest)
                      (sym (append-nil (of_pending m.pending_signal))));
              stops = inl (blocked, refl);
            },
          ))

  after_drain-Drained :
      (m : MeshController C D) (x : Bool × Option Surfaced × MeshController C D)
      (rest : MeshController C D → Option (Option Surfaced × MeshController C D))
      → Stepped api rtc log outbox m x
      → (x.0 ≡ true
          → (e : Option Surfaced) × (m' : MeshController C D) × (rest x.2 ≡ some (e, m'))
            × Drained api rtc log outbox x.2 e m')
      → (e : Option Surfaced) × (m' : MeshController C D) × (after_drain api rtc x rest
          ≡ some (e, m'))
        × Drained api rtc log outbox m e m'
  after_drain-Drained m (true, e, next) rest (goes, stops) h =
      let (e', m', returns, drained) = h refl in
      (e', m', returns, Goes-Drained api rtc log outbox m next e' m' (goes refl) drained)
  after_drain-Drained m (false, e, next) rest (goes, stops) h = (e, next, refl, stops refl)

  -- With more fuel than the driver has outputs a drain returns. It takes signals off the driver, and
  -- the first other output, which is the one that it surfaces. The client answers these signals in the
  -- driver's order, behind the one that waited, and each once: it takes the signal or refuses it for
  -- good, which ends it. The drain stops only where it surfaces an output, where the driver has none
  -- left, or where the client just now had no room for a signal; that signal waits, and is the last one
  -- taken. The driver hands its outputs over one by one, and a report is no signal.
  pub drain_driver-Drained :
      (fuel : ℕ) (m : MeshController C D)
      → length (outbox m.driver) < fuel
      → (e : Option Surfaced) × (m' : MeshController C D) × (drain_driver api rtc fuel m
          ≡ some (e, m'))
        × Drained api rtc log outbox m e m'
  unfolding drain_driver
  drain_driver-Drained zero m l = absurd (ground arith)
  drain_driver-Drained (suc fuel) m l =
      let stepped = drain_round-Stepped m in
      after_drain-Drained m (drain_round api rtc m) (drain_driver api rtc fuel) stepped (λ g.
        drain_driver-Drained fuel (drain_round api rtc m).2
          (let shorter = ap length (stepped.0 g).output in omega (arith)))
