-- ===== src/Core/Examples.antt =====
-- src/client_core.rs: a core and a few frames, for the theorems about it.
use signal_fish_client_rust.Common.{
  ◌≡◌, refl, true, false, ◌&&◌, [], ◌∷◌, Option, none, some, if◌then◌else◌, ok,
}
use Prim.Native.String.{String}
use package.text.Mathlib.Text.{◌==◌ as str_eq}
use signal_fish_client_rust.Protocol.Delivery.{json, DeliveryClass}
use signal_fish_client_rust.Protocol.Messages.{ServerMessage, game_data}
use signal_fish_client_rust.Protocol.Binary.{Wire}
use signal_fish_client_rust.Accountability.GameData.{record_game_data, validate_class_key}
use signal_fish_client_rust.Core.State.{
  ClientCore, ProtocolViolationPolicy, quarantine, disconnect, observe, new_core, saturating_inc,
}
use signal_fish_client_rust.Core.Operations.{latest, ClientOperation, command_of, prepare}
use signal_fish_client_rust.Transport.{text}
use signal_fish_client_rust.Core.Process.{is_disconnect, process_frame}
use signal_fish_client_rust.Core.Policy.{has_data, has_violation, received}
use signal_fish_client_rust.Core.Policy.Frames.{
  process_frame-received, process_frame-disconnect, process_frame-quarantined,
  process_frame-violated,
}
use signal_fish_client_rust.Core.Policy.Runs.{process_all, process_all-quarantined}
use signal_fish_client_rust.Core.Prepare.{
  operation_of, as_read, allows, is_ok, prepare-class_key, prepare-operation_of, prepare-allows,
}

-- One stamped and one plain frame of game data.
abbrev parse_room : String → Option (ServerMessage (Unit {0}))
parse_room t =
    if str_eq t "stamped"
    then some (game_data 7 tt (some 4) (some 1) none none)
    else if str_eq t "plain"
    then some (game_data 7 tt none none none none)
    else none

abbrev no_wire : Wire
no_wire = record {
  read_map_len = λ bytes. none;
  read_str = λ bytes. none;
  read_bin_len = λ bytes. none;
  read_u64 = λ bytes. none;
  read_u32 = λ bytes. none;
  uuid_from_bytes = λ bytes. 0;
}

-- A core before any statement of the protocol: stamped data is a violation there.
abbrev core_under : ProtocolViolationPolicy → ClientCore
core_under policy = new_core json policy true

abbrev quarantined_core : ClientCore
quarantined_core = record (core_under quarantine) {
  snapshot = record ((core_under quarantine).snapshot) { quarantined = true };
}

abbrev v3_core : ClientCore
v3_core = record (core_under observe) {
  snapshot = record ((core_under observe).snapshot) { negotiated_protocol_version = some 3 };
}

abbrev nothing : String → String → Unit {0}
nothing name value = tt

abbrev update : ClientOperation (Unit {0})
update = ClientOperation.game_data tt (latest 5)

process_frame-received_example :
    received (process_frame parse_room no_wire (text "plain") (core_under observe)).1 ≡ (
      if has_data (process_frame parse_room no_wire (text "plain") (core_under observe)).0.events
      then saturating_inc (received (core_under observe))
      else received (core_under observe))
process_frame-received_example =
    process_frame-received parse_room no_wire (text "plain") (core_under observe)

process_frame-disconnect_example :
    (process_frame parse_room no_wire (text "stamped") (core_under disconnect)).0.disconnect ≡ (
      is_disconnect (core_under disconnect).violation_policy
      && has_violation
          (process_frame parse_room no_wire (text "stamped") (core_under disconnect)).0.events)
process_frame-disconnect_example =
    process_frame-disconnect parse_room no_wire (text "stamped") (core_under disconnect)

process_frame-quarantined_example :
    has_data (process_frame parse_room no_wire (text "plain") quarantined_core).0.events ≡ false
unfolding new_core
process_frame-quarantined_example =
    process_frame-quarantined parse_room no_wire (text "plain") quarantined_core refl refl

process_frame-violated_example :
    ((process_frame parse_room no_wire
        (text "stamped")
        (core_under quarantine)).1.snapshot.quarantined
      ≡ true)
    × (has_data (process_frame parse_room no_wire (text "stamped") (core_under quarantine)).0.events
        ≡ false)
unfolding process_frame new_core record_game_data
process_frame-violated_example =
    process_frame-violated parse_room no_wire (text "stamped") (core_under quarantine) refl refl

process_all-quarantined_example :
    has_data
      (process_all parse_room no_wire
        (text "stamped" ∷ text "plain" ∷ text "plain" ∷ [])
        (core_under quarantine)).0
    ≡ false
unfolding process_frame process_all new_core record_game_data
process_all-quarantined_example =
    process_all-quarantined parse_room no_wire (text "stamped") (text "plain" ∷ text "plain" ∷ [])
      (core_under quarantine) refl refl refl

prepare-class_key_example : validate_class_key (some DeliveryClass.latest) (some 5) ≡ ok tt
unfolding prepare new_core
prepare-class_key_example =
    prepare-class_key nothing update v3_core tt (some DeliveryClass.latest) (some 5) refl

prepare-operation_of_example :
    operation_of (command_of nothing update) ≡ some (as_read nothing update)
unfolding prepare new_core
prepare-operation_of_example =
    prepare-operation_of nothing update v3_core (command_of nothing update) refl

prepare-allows_example :
    is_ok (prepare nothing update v3_core) ≡ allows v3_core (command_of nothing update)
prepare-allows_example = prepare-allows nothing update v3_core
