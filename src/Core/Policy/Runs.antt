-- ===== src/Core/Policy/Runs.antt =====
-- src/client_core.rs: the violation policy over the frames of a connection.
use signal_fish_client_rust.Common.{
  ◌≡◌, refl, true, false, Option, List, [], ◌∷◌, ◌++◌, any-append, arith, ◌∙◌, ap,
}
use Prim.Native.String.{String}
use signal_fish_client_rust.Protocol.Messages.{ServerMessage}
use signal_fish_client_rust.Protocol.Binary.{Wire}
use signal_fish_client_rust.Transport.{TransportFrame}
use signal_fish_client_rust.Core.State.{ClientCore, SignalFishEvent}
use signal_fish_client_rust.Core.Process.{is_quarantine, process_frame}
use signal_fish_client_rust.Core.Policy.{
  Obeys, is_data_event, has_data, has_violation, is_release_event, has_release,
}
use signal_fish_client_rust.Core.Policy.Frames.{process_frame-Obeys}

module _ {V : Type 0} (parse : String → Option (ServerMessage V)) (w : Wire) where
  -- The events of all the frames, and the core that they leave.
  unfoldable pub process_all :
      List TransportFrame → ClientCore → List (SignalFishEvent V) × ClientCore
  process_all [] core = ([], core)
  process_all (frame ∷ frames) core =
      let (outcome, next) = process_frame parse w frame core in
      let (events, last) = process_all frames next in (outcome.events ++ events, last)

  process_all-silent :
      (frames : List TransportFrame) (core : ClientCore)
      → core.snapshot.quarantined ≡ true
      → is_quarantine core.violation_policy ≡ true
      → has_release (process_all frames core).0 ≡ false
      → has_data (process_all frames core).0 ≡ false
  unfolding process_all
  process_all-silent [] core q p n = refl
  process_all-silent (frame ∷ frames) core q p n =
      let step = process_frame parse w frame core in
      let o : Obeys core step = process_frame-Obeys parse w frame core in
      let events = (process_all frames step.1).0 in
      let now : has_release step.0.events ≡ false =
        ground (arith, any-append is_release_event step.0.events events) in
      let later : has_release events ≡ false =
        ground (arith, any-append is_release_event step.0.events events) in
      let rest =
        process_all-silent frames step.1 (o.stays q p now) (ap is_quarantine o.policy ∙ p) later in
      any-append is_data_event step.0.events events ∙ ground (arith, o.silent q p, rest)

  -- Under the quarantine policy, from the frame that reports a violation on, no game data is delivered
  -- until an event that begins or ends a stay in a room.
  pub process_all-quarantined :
      (frame : TransportFrame) (frames : List TransportFrame) (core : ClientCore)
      → is_quarantine core.violation_policy ≡ true
      → has_violation (process_frame parse w frame core).0.events ≡ true
      → has_release (process_all frames (process_frame parse w frame core).1).0 ≡ false
      → has_data (process_all (frame ∷ frames) core).0 ≡ false
  unfolding process_all
  process_all-quarantined frame frames core p v n =
      let step = process_frame parse w frame core in
      let o : Obeys core step = process_frame-Obeys parse w frame core in
      let (held, silent) = o.quarantines v p in
      let rest = process_all-silent frames step.1 held (ap is_quarantine o.policy ∙ p) n in
      any-append is_data_event step.0.events (process_all frames step.1).0
      ∙ ground (arith, silent, rest)
