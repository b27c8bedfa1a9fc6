-- ===== src/Transport/Examples.antt =====
-- src/transport.rs: a backend that takes text only, for the theorem about `poll_accept_frame`.
use signal_fish_client_rust.Common.{
  ◌≡◌, ◌⊎◌, true, false, none, some, List, [], ◌∷◌, ◌++◌, Result, ok, err,
}
use signal_fish_client_rust.Transport.{
  TransportFrame, text, binary, ready, pending, poll_accept_frame,
}
use signal_fish_client_rust.Transport.Accept.{poll_accept_frame-slot}

abbrev accept_text :
    TransportFrame → List TransportFrame → Result (Unit {0}) (Unit {0}) × List TransportFrame
accept_text (text t) sent = (ok tt, sent ++ text t ∷ [])
accept_text (binary bytes) sent = (err tt, sent)

poll_accept_frame-slot_example :
    let sent = poll_accept_frame true (some (text "hello")) accept_text [] in
    ((sent.slot ≡ none)
      × (sent.result ≡ ready (ok tt))
      × (true ≡ true)
      × ((accept_text (text "hello") []).0 ≡ ok tt))
    ⊎ ((sent.slot ≡ some (text "hello"))
        × (sent.result ≡ pending)
        × (true ≡ false)
        × (sent.transport ≡ []))
    ⊎ ((sent.slot ≡ some (text "hello"))
        × (true ≡ true)
        × ((e : Unit {0}) × (sent.result ≡ ready (err e))
            × ((accept_text (text "hello") []).0 ≡ err e)))
poll_accept_frame-slot_example = poll_accept_frame-slot true (text "hello") accept_text []
