-- ===== src/Accountability/Frame/Run.antt =====
-- src/accountability.rs: the validator over all the frames of one connection.
use signal_fish_client_rust.Common.{Bool, List, [], ◌∷◌}
use signal_fish_client_rust.Protocol.Delivery.{GameDataEncoding}
use signal_fish_client_rust.Protocol.Messages.{ServerMessage}
use signal_fish_client_rust.Accountability.State.{DeliveryAccountability}
use signal_fish_client_rust.Accountability.Stream.{observe_terminal}
use signal_fish_client_rust.Accountability.Frame.{
  validate_server_frame, validate_physical_binary_allowed,
}

-- What a driver can present to the validator of one connection.
pub data Input (V : Type 0) : Type 0 where
  frame : ServerMessage V → GameDataEncoding → Bool → Input V
  binary : GameDataEncoding → Input V
  terminal : Input V

module _ {V : Type 0} where
  unfoldable pub present : Input V → DeliveryAccountability → DeliveryAccountability
  unfolding validate_server_frame validate_physical_binary_allowed observe_terminal
  present (frame message negotiated physical) s =
      (validate_server_frame message negotiated physical s).1
  present (binary negotiated) s = (validate_physical_binary_allowed negotiated s).1
  present terminal s = observe_terminal s

  -- Every input is presented to the state that the last one left, refused or not.
  unfoldable pub run : List (Input V) → DeliveryAccountability → DeliveryAccountability
  unfolding present
  run [] s = s
  run (i ∷ is) s = run is (present i s)
