-- ===== src/Transport/Accept.antt =====
-- src/transport.rs: the ownership of the frame under `poll_accept_frame`.
use signal_fish_client_rust.Common.{
  ◌≡◌, ◌⊎◌, refl, inl, inr, Bool, true, false, none, some, Result, ok, err,
}
use signal_fish_client_rust.Transport.{
  TransportFrame, ready, pending, after_accept, poll_accept_frame,
}

-- A frame is taken exactly where the backend accepted it: while the backend is not ready, and where it
-- refuses, the caller keeps the frame, and a refusal is handed on.
pub poll_accept_frame-slot :
    {T E : Type 0} (is_ready : Bool) (frame : TransportFrame)
    (accept : TransportFrame → T → Result (Unit {0}) E × T) (t : T)
    → let sent = poll_accept_frame is_ready (some frame) accept t in
      ((sent.slot ≡ none)
        × (sent.result ≡ ready (ok tt))
        × (is_ready ≡ true)
        × ((accept frame t).0 ≡ ok tt))
      ⊎ ((sent.slot ≡ some frame)
          × (sent.result ≡ pending)
          × (is_ready ≡ false)
          × (sent.transport ≡ t))
      ⊎ ((sent.slot ≡ some frame)
          × (is_ready ≡ true)
          × ((e : E) × (sent.result ≡ ready (err e)) × ((accept frame t).0 ≡ err e)))
unfolding poll_accept_frame
poll_accept_frame-slot false frame accept t = inr (inl (refl, refl, refl, refl))
poll_accept_frame-slot {T} {E} true frame accept t = settled (accept frame t)
  where
    settled :
        (r : Result (Unit {0}) E × T)
        → let sent = after_accept frame r in
          ((sent.slot ≡ none) × (sent.result ≡ ready (ok tt)) × (true ≡ true) × (r.0 ≡ ok tt))
          ⊎ ((sent.slot ≡ some frame)
              × (sent.result ≡ pending)
              × (true ≡ false)
              × (sent.transport ≡ t))
          ⊎ ((sent.slot ≡ some frame)
              × (true ≡ true)
              × ((e : E) × (sent.result ≡ ready (err e)) × (r.0 ≡ err e)))
    settled (ok _, t') = inl (refl, refl, refl, refl)
    settled (err e, t') = inr (inr (refl, refl, (e, refl, refl)))
