-- ===== src/WebRtc/Turns.antt =====
-- src/webrtc.rs: the turns of the loop of `recv`, one after another.
use signal_fish_client_rust.Common.{ℕ, Option, none, some, List, [], ◌∷◌}
use signal_fish_client_rust.Mesh.Session.{MeshEvent}
use signal_fish_client_rust.WebRtc.Controller.{
  WebRtcDriver, MeshClient, MeshController, Surfaced, handle_event, drain_driver,
}

-- The driver's output is drained, on the given fuel, or an event of the client comes in.
pub data Turn : Type 0 where
  pump : (fuel : ℕ) → Turn
  incoming : MeshEvent → Turn

module _ {C D : Type 0} (api : MeshClient C) (rtc : WebRtcDriver D) where
  -- What runs out of fuel changes nothing.
  abbrev pub drained :
      Option (Option Surfaced × MeshController C D) → MeshController C D → MeshController C D
  drained none m = m
  drained (some (e, m')) m = m'

  abbrev pub turn : Turn → MeshController C D → MeshController C D
  turn (pump fuel) m = drained (drain_driver api rtc fuel m) m
  turn (incoming e) m = handle_event api rtc e m

  unfoldable pub turns : List Turn → MeshController C D → MeshController C D
  unfolding drain_driver handle_event
  turns [] m = m
  turns (t ∷ ts) m = turns ts (turn t m)
