-- ===== src/Transport.antt =====
-- src/transport.rs: the trait `Transport` as a record of its methods on a state `T`, its contract on the
-- ownership of an outbound frame, and `poll_accept_frame`.
use signal_fish_client_rust.Common.{
  ℕ, ◌≡◌, ◌⊎◌, Bool, true, false, Option, none, some, List, [], ◌∷◌, ◌++◌, length, Result, ok, err,
}
use signal_fish_client_rust.Common.Text.{utf8_len}
use Prim.Native.String.{String}
mod Accept
mod Examples

pub data TransportFrame : Type 0 where
  text : String → TransportFrame
  binary : List ℕ → TransportFrame

unfoldable pub frame_payload_len : TransportFrame → ℕ
unfolding utf8_len
frame_payload_len (text t) = utf8_len t
frame_payload_len (binary bytes) = length bytes

pub record TransportCloseInfo : Type 0 where
  pub code : Option ℕ
  pub reason : Option String
  pub clean : Option Bool
  pub initiated_by_peer : Bool

-- `std::task::Poll`.
pub data Poll (A : Type 0) : Type 0 where
  ready : A → Poll A
  pending : Poll A

-- The result of `poll_send`, with the caller's frame slot and the transport that it leaves.
pub record Sent (T E : Type 0) : Type 0 where
  pub result : Poll (Result (Unit {0}) E)
  pub slot : Option TransportFrame
  pub transport : T

pub record Transport (T E : Type 0) : Type 0 where
  pub begin_poll_cycle : T → T
  pub poll_send : Option TransportFrame → T → Sent T E
  pub poll_recv : T → Poll (Option (Result TransportFrame E)) × T
  pub poll_close : T → Poll (Result (Unit {0}) E) × T
  pub abort : T → T
  pub is_ready : T → Bool
  pub close_info : T → Option TransportCloseInfo

-- The frame is left with the caller, or taken once and for all.
pub data TakesOnce (slot slot' : Option TransportFrame) (log log' : List TransportFrame)
    : Type 0 where
  kept : slot' ≡ slot → log' ≡ log → TakesOnce slot slot' log log'
  taken :
      (frame : TransportFrame)
      → slot ≡ some frame
      → slot' ≡ none
      → log' ≡ log ++ frame ∷ []
      → TakesOnce slot slot' log log'

-- The trait's documented contract on ownership: `poll_send` takes the caller's frame whole or leaves
-- it, and no other method takes one. `log` lists the frames taken.
pub record TakesFrames {T E : Type 0} (tr : Transport T E) (log : T → List TransportFrame)
    : Type 0 where
  pub sends :
      (slot : Option TransportFrame) (t : T)
      → TakesOnce slot (tr.poll_send slot t).slot (log t) (log (tr.poll_send slot t).transport)
  pub begins : (t : T) → log (tr.begin_poll_cycle t) ≡ log t
  pub receives : (t : T) → log (tr.poll_recv t).1 ≡ log t
  pub closes : (t : T) → log (tr.poll_close t).1 ≡ log t
  pub aborts : (t : T) → log (tr.abort t) ≡ log t

unfoldable pub after_accept : {T E : Type 0} → TransportFrame → Result (Unit {0}) E × T → Sent T E
after_accept frame (ok _, t) = record { result = ready (ok tt); slot = none; transport = t }
after_accept frame (err e, t) = record { result = ready (err e); slot = some frame; transport = t }

-- `accept` looks at the frame and changes the backend.
unfoldable pub poll_accept_frame :
    {T E : Type 0}
    → (is_ready : Bool) → Option TransportFrame
    → (accept : TransportFrame → T → Result (Unit {0}) E × T) → T
    → Sent T E
unfolding after_accept
poll_accept_frame is_ready none accept t = record {
  result = ready (ok tt);
  slot = none;
  transport = t;
}
poll_accept_frame false (some frame) accept t = record {
  result = pending;
  slot = some frame;
  transport = t;
}
poll_accept_frame true (some frame) accept t = after_accept frame (accept frame t)
