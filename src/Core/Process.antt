-- ===== src/Core/Process.antt =====
-- src/client_core.rs: `process_text` and `process_binary`. The JSON parser of the crate `serde_json`
-- is a parameter, as is the MessagePack reader behind `decode_binary_server_message`.
use signal_fish_client_rust.Common.{
  ℕ, Bool, true, false, ◌&&◌, ◌||◌, Option, none, some, List, [], ◌∷◌, ◌++◌, if◌then◌else◌, ok, err,
}
use Prim.Native.String.{String}
use signal_fish_client_rust.Transport.{TransportFrame, text, binary}
use signal_fish_client_rust.Protocol.Messages.{
  ServerMessage, protocol_info, room_joined, reconnected, spectator_joined, game_data,
  game_data_binary,
}
use signal_fish_client_rust.Protocol.Binary.{Wire, decode_binary_server_message}
use signal_fish_client_rust.Accountability.State.{
  GameDataDisposition, apply, stale, Violation, Step, new,
}
use signal_fish_client_rust.Accountability.Stream.{observe_server_message}
use signal_fish_client_rust.Accountability.Frame.{
  applied, validate_server_message, validate_server_frame, validate_physical_binary_allowed,
}
use signal_fish_client_rust.Core.State.{
  ClientCore, SignalFishEvent, from_message, decode_failed, protocol_violation, FrameOutcome,
  ProtocolViolationPolicy, quarantine, disconnect, observe, is_v3, saturating_inc,
}
use signal_fish_client_rust.Core.Frames.{set_quarantined, note_violation, update_state}

-- An outcome, with the core that the frame leaves.
abbrev pub Processed : Type 0 → Type 0
Processed V = FrameOutcome V × ClientCore

abbrev pub outcome : {V : Type 0} → List (SignalFishEvent V) → Bool → FrameOutcome V
outcome events closes = record { events = events; disconnect = closes }

abbrev pub is_quarantine : ProtocolViolationPolicy → Bool
is_quarantine quarantine = true
is_quarantine _ = false

abbrev pub is_disconnect : ProtocolViolationPolicy → Bool
is_disconnect disconnect = true
is_disconnect _ = false

abbrev pub is_game_data : {V : Type 0} → ServerMessage V → Bool
is_game_data (game_data _ _ _ _ _ _) = true
is_game_data (game_data_binary _ _ _ _ _) = true
is_game_data _ = false

abbrev pub is_stale_disposition : GameDataDisposition → Bool
is_stale_disposition stale = true
is_stale_disposition apply = false

abbrev pub suppresses : GameDataDisposition → ClientCore → Bool
suppresses d core =
    is_stale_disposition d || core.snapshot.quarantined && is_quarantine core.violation_policy

-- `update_state` and the event of the message itself, behind the events so far.
unfoldable pub deliver :
    {V : Type 0} → ServerMessage V → List (SignalFishEvent V) → ClientCore → Processed V
unfolding update_state
deliver message events core =
    (outcome (events ++ from_message message ∷ []) false, update_state message core)

-- What both decoders do on a frame that they cannot read.
unfoldable pub undecodable : {V : Type 0} → List (SignalFishEvent V) → ClientCore → Processed V
unfolding observe_server_message note_violation
undecodable events core =
    let (result, observed) = observe_server_message false core.accountability in
    let core = record core {
      accountability = observed;
      stats = record (core.stats) {
        messages_undecodable = saturating_inc core.stats.messages_undecodable;
      };
    } in
    elim result [
      | ok _ ↦ (outcome (events ++ decode_failed ∷ []) false, core)
      | err v ↦ (
        outcome (events ++ protocol_violation v ∷ decode_failed ∷ [])
            (is_disconnect core.violation_policy),
        note_violation core,
      )
    ]

-- The end of `process_text`, behind the result of the validation.
unfoldable pub finish_text :
    {V : Type 0}
    → ServerMessage V
    → (duplicate_protocol_info : Bool) → GameDataDisposition
    → List (SignalFishEvent V)
    → ClientCore
    → Processed V
unfolding deliver
finish_text message duplicate d events core =
    if duplicate || is_game_data message && suppresses d core
    then (outcome events false, core)
    else deliver message events core

-- A violation in a text frame, by the policy.
unfoldable pub violated_text :
    {V : Type 0} → ServerMessage V → Bool → Violation → ClientCore → Processed V
unfolding finish_text note_violation
violated_text message duplicate v core = elim core.violation_policy [
  | disconnect ↦ (outcome (protocol_violation v ∷ []) true, note_violation core)
  | quarantine ↦ (outcome (protocol_violation v ∷ []) false, note_violation core)
  | observe ↦ finish_text message duplicate apply (protocol_violation v ∷ []) (note_violation core)
]

abbrev pub is_baseline : {V : Type 0} → ServerMessage V → Bool
is_baseline (room_joined _) = true
is_baseline (spectator_joined _) = true
is_baseline (reconnected _ _) = true
is_baseline _ = false

abbrev pub lift_quarantine : Bool → ClientCore → ClientCore
lift_quarantine true core = set_quarantined false core
lift_quarantine false core = core

-- The validator's result on a text frame, with the state that it left.
unfoldable pub settle_text :
    {V : Type 0} → ServerMessage V → Bool → Step GameDataDisposition → ClientCore → Processed V
unfolding finish_text violated_text set_quarantined
settle_text message duplicate (ok d, validated) core =
    finish_text message duplicate d []
      (lift_quarantine (is_baseline message) (record core { accountability = validated }))
settle_text message duplicate (err v, validated) core =
    violated_text message duplicate v (record core { accountability = validated })

-- The first statement of the protocol starts the validator afresh.
unfoldable pub restart : {V : Type 0} → ServerMessage V → ClientCore → ClientCore
unfolding new
restart (protocol_info payload) core = record core {
  accountability = new (is_v3 payload.protocol_version);
}
restart _ core = core

abbrev pub is_protocol_info : {V : Type 0} → ServerMessage V → Bool
is_protocol_info (protocol_info _) = true
is_protocol_info _ = false

-- `process_text` behind the parser.
unfoldable pub process_message : {V : Type 0} → ServerMessage V → ClientCore → Processed V
unfolding settle_text restart validate_server_frame observe_server_message
process_message message core =
    if is_protocol_info message && core.protocol_info_seen
    then settle_text message true (applied (observe_server_message false core.accountability)) core
    else (let started = restart message core in
        settle_text message false
          (validate_server_frame message started.game_data_encoding false started.accountability)
          started)

unfoldable pub process_text :
    {V : Type 0} → (parse : String → Option (ServerMessage V)) → String → ClientCore → Processed V
unfolding process_message undecodable
process_text parse t core = elim (parse t) [
  | none ↦ undecodable [] core
  | some message ↦ process_message message core
]

-- The end of `process_binary`, behind the result of the validation.
unfoldable pub finish_binary :
    {V : Type 0}
    → ServerMessage V
    → GameDataDisposition
    → List (SignalFishEvent V)
    → ClientCore
    → Processed V
unfolding deliver
finish_binary message d events core =
    if suppresses d core then (outcome events false, core) else deliver message events core

abbrev pub disposition_under : ProtocolViolationPolicy → GameDataDisposition
disposition_under observe = apply
disposition_under _ = stale

unfoldable pub settle_binary :
    {V : Type 0}
    → ServerMessage V
    → Step GameDataDisposition
    → List (SignalFishEvent V)
    → ClientCore
    → Processed V
unfolding finish_binary note_violation
settle_binary message (ok d, validated) events core =
    finish_binary message d events (record core { accountability = validated })
settle_binary message (err v, validated) events core =
    let events = events ++ protocol_violation v ∷ [] in
    let core = note_violation (record core { accountability = validated }) in
    if is_disconnect core.violation_policy
    then (outcome events true, core)
    else finish_binary message (disposition_under core.violation_policy) events core

module _ (w : Wire) {V : Type 0} where
  -- From the decoder on; `seen` is `observe_representation_violation`.
  unfoldable pub process_bytes :
      List ℕ → (seen : Bool) → List (SignalFishEvent V) → ClientCore → Processed V
  unfolding undecodable settle_binary validate_server_message validate_server_frame
  process_bytes bytes seen events core =
      elim (decode_binary_server_message w V bytes
        (is_v3 core.snapshot.negotiated_protocol_version)) [
          | err _ ↦ undecodable events core
          | ok message ↦
              settle_binary message
                (if seen
                  then validate_server_message message core.accountability
                  else validate_server_frame message core.game_data_encoding true
                      core.accountability)
                events core
        ]

  -- A binary frame where the room's data is JSON, by the policy.
  unfoldable pub refuse_bytes :
      ProtocolViolationPolicy → List ℕ → Violation → ClientCore → Processed V
  unfolding process_bytes note_violation
  refuse_bytes quarantine bytes v core =
      (outcome (protocol_violation v ∷ []) false, note_violation core)
  refuse_bytes disconnect bytes v core =
      (outcome (protocol_violation v ∷ []) true, note_violation core)
  refuse_bytes observe bytes v core =
      process_bytes bytes true (protocol_violation v ∷ []) (note_violation core)

  -- The result of `validate_physical_binary_allowed`, with the state that it left.
  unfoldable pub settle_physical : List ℕ → Step (Unit {0}) → ClientCore → Processed V
  unfolding refuse_bytes
  settle_physical bytes (ok _, observed) core =
      process_bytes bytes false [] (record core { accountability = observed })
  settle_physical bytes (err v, observed) core =
      refuse_bytes core.violation_policy bytes v (record core { accountability = observed })

  unfoldable pub process_binary : List ℕ → ClientCore → Processed V
  unfolding settle_physical validate_physical_binary_allowed
  process_binary bytes core =
      settle_physical bytes
        (validate_physical_binary_allowed core.game_data_encoding core.accountability) core

unfoldable pub process_frame :
    {V : Type 0}
    → (parse : String → Option (ServerMessage V)) → Wire
    → TransportFrame
    → ClientCore
    → Processed V
unfolding process_text process_binary
process_frame parse w (text t) core = process_text parse t core
process_frame parse w (binary bytes) core = process_binary w bytes core
