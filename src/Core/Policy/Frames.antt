-- ===== src/Core/Policy/Frames.antt =====
-- src/client_core.rs: the violation policy on every frame.
use signal_fish_client_rust.Common.{
  ◌≡◌, inl, inr, true, false, ◌&&◌, Option, if◌then◌else◌, Option-cases,
}
use Prim.Native.String.{String}
use signal_fish_client_rust.Protocol.Messages.{ServerMessage}
use signal_fish_client_rust.Protocol.Binary.{Wire}
use signal_fish_client_rust.Core.State.{ClientCore, saturating_inc}
use signal_fish_client_rust.Transport.{TransportFrame, text, binary}
use signal_fish_client_rust.Core.Process.{is_quarantine, is_disconnect, process_text, process_frame}
use signal_fish_client_rust.Core.Policy.{
  Obeys, has_data, has_violation, received, process_message-Obeys, undecodable-Obeys,
}
use signal_fish_client_rust.Core.Policy.Binary.{process_binary-Obeys}

module _ {V : Type 0} (parse : String → Option (ServerMessage V)) (w : Wire) where
  process_text-Obeys : (t : String) (core : ClientCore) → Obeys core (process_text parse t core)
  unfolding process_text
  process_text-Obeys t core = elim (Option-cases (parse t)) [
    | inl e ↦ rw (e, process_text) (undecodable-Obeys core)
    | inr (message, e) ↦ rw (e, process_text) (process_message-Obeys message core)
  ]

  pub process_frame-Obeys :
      (frame : TransportFrame) (core : ClientCore) → Obeys core (process_frame parse w frame core)
  unfolding process_frame
  process_frame-Obeys (text t) core = process_text-Obeys t core
  process_frame-Obeys (binary bytes) core = process_binary-Obeys w bytes core

  -- Whatever the frame and the policy, the counter of received game data moves by one (up to the
  -- largest u64) exactly where the outcome holds a game-data event, and does not move elsewhere.
  pub process_frame-received :
      (frame : TransportFrame) (core : ClientCore)
      → received (process_frame parse w frame core).1 ≡ (
          if has_data (process_frame parse w frame core).0.events
          then saturating_inc (received core)
          else received core)
  process_frame-received frame core = (process_frame-Obeys frame core).counted

  -- Whatever the frame, the outcome asks for a disconnect exactly where it reports a violation under
  -- the disconnect policy.
  pub process_frame-disconnect :
      (frame : TransportFrame) (core : ClientCore)
      → (process_frame parse w frame core).0.disconnect ≡ (
          is_disconnect core.violation_policy
          && has_violation (process_frame parse w frame core).0.events)
  process_frame-disconnect frame core = (process_frame-Obeys frame core).closes

  -- Under the quarantine policy, no frame of a quarantined core yields a game-data event.
  pub process_frame-quarantined :
      (frame : TransportFrame) (core : ClientCore)
      → core.snapshot.quarantined ≡ true
      → is_quarantine core.violation_policy ≡ true
      → has_data (process_frame parse w frame core).0.events ≡ false
  process_frame-quarantined frame core = (process_frame-Obeys frame core).silent

  -- Under the quarantine policy, a frame that reports a violation leaves the core quarantined and yields
  -- no game-data event.
  pub process_frame-violated :
      (frame : TransportFrame) (core : ClientCore)
      → has_violation (process_frame parse w frame core).0.events ≡ true
      → is_quarantine core.violation_policy ≡ true
      → ((process_frame parse w frame core).1.snapshot.quarantined ≡ true)
        × (has_data (process_frame parse w frame core).0.events ≡ false)
  process_frame-violated frame core = (process_frame-Obeys frame core).quarantines
