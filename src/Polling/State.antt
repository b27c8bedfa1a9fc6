-- ===== src/Polling/State.antt =====
-- src/polling_client.rs: `SignalFishPollingClient`, its options and its statistics. An `Instant` is
-- the number of nanoseconds from a fixed one.
use signal_fish_client_rust.Common.{
  ℕ, ◌+◌, ◌-◌, Bool, true, false, not, ◌||◌, Option, none, some, List, [], ◌∷◌, ◌++◌, leb,
  if◌then◌else◌, is_some, is_empty, length, u64_max, Result, ok, err,
}
use Prim.Native.String.{String}
use signal_fish_client_rust.Protocol.Messages.{ClientMessage, ServerMessage}
use signal_fish_client_rust.Protocol.Binary.{Wire}
use signal_fish_client_rust.Transport.{Transport, TransportFrame, TransportCloseInfo}
use signal_fish_client_rust.Core.State.{ClientCore, new_core}
use signal_fish_client_rust.Core.Operations.{
  ClientOperation, CoreCommand, SignalFishError, not_connected, send_buffer_full, prepare,
}
use signal_fish_client_rust.Core.Config.{
  SignalFishConfig, max, authenticate, mesh_enabled, requested_encoding,
}

-- What the client calls: its transport, the JSON and MessagePack crates, and the texts that `format!`
-- makes of an error and of a close.
pub record Environment (V T E : Type 0) : Type 0 where
  pub transport : Transport T E
  pub parse : String → Option (ServerMessage V)
  pub wire : Wire
  pub to_json : ClientMessage V → Option String
  pub singleton : String → String → V
  pub send_error : E → String
  pub receive_error : E → String
  pub closed_by_server : TransportCloseInfo → String

pub record PollingWorkBudget : Type 0 where
  pub send_frames : ℕ
  pub send_bytes : ℕ
  pub receive_frames : ℕ
  pub receive_bytes : ℕ

abbrev pub default_budget : PollingWorkBudget
default_budget = record {
  send_frames = 64;
  send_bytes = 65_536;
  receive_frames = 64;
  receive_bytes = 65_536;
}

unfoldable pub clamped : PollingWorkBudget → PollingWorkBudget
clamped b = record {
  send_frames = max b.send_frames 1;
  send_bytes = max b.send_bytes 1;
  receive_frames = max b.receive_frames 1;
  receive_bytes = max b.receive_bytes 1;
}

pub data PollingClosePolicy : Type 0 where
  abandon flush : PollingClosePolicy

pub record PollingClientOptions : Type 0 where
  pub work_budget : PollingWorkBudget
  pub close_policy : PollingClosePolicy

pub record PollingStats : Type 0 where
  pub current_queue_depth : ℕ
  pub peak_queue_depth : ℕ
  pub send_budget_exhaustions : ℕ
  pub receive_budget_exhaustions : ℕ
  pub abandoned_commands : ℕ
  pub close_deadline_expirations : ℕ

pub record PollingQueueAgeStats : Type 0 where
  pub current_oldest_queue_age : ℕ
  pub peak_oldest_queue_age : ℕ

pub record QueuedCommand (V : Type 0) : Type 0 where
  pub command : CoreCommand V
  pub enqueued_at : ℕ

pub data ClosePhase : Type 0 where
  open_phase : ClosePhase
  flushing : (started_at : ℕ) → ClosePhase
  closing : (started_at : ℕ) → ClosePhase
  closed : ClosePhase

pub record PollingClient (V T : Type 0) : Type 0 where
  pub transport : T
  pub cmd_queue : List (QueuedCommand V)
  pub command_capacity : ℕ
  pub core : ClientCore
  pub options : PollingClientOptions
  pub polling_stats : PollingStats
  pub queue_age_stats : PollingQueueAgeStats
  pub shutdown_timeout : ℕ
  pub started : Bool
  pub pending_frame : Option TransportFrame
  pub pending_frame_enqueued_at : Option ℕ
  pub send_in_flight : Bool
  pub pending_frame_is_game_data : Bool
  pub in_flight_is_game_data : Bool
  pub pending_inbound : Option TransportFrame
  pub close_phase : ClosePhase

-- `saturating_add` on a 64-bit word.
abbrev pub saturating_add : ℕ → ℕ → ℕ
saturating_add a b = if leb (a + b) u64_max then a + b else u64_max

-- `usize::from`.
abbrev pub from_bool : Bool → ℕ
from_bool true = 1
from_bool false = 0

-- The commands that the client holds: the queue, and the frame that was made of the last one taken.
abbrev pub queue_depth : {V T : Type 0} → PollingClient V T → ℕ
queue_depth c = saturating_add (length c.cmd_queue) (from_bool (is_some c.pending_frame))

abbrev pub front_enqueued : {V : Type 0} → List (QueuedCommand V) → Option ℕ
front_enqueued [] = none
front_enqueued (q ∷ qs) = some q.enqueued_at

abbrev pub oldest_enqueued : {V : Type 0} → Option ℕ → List (QueuedCommand V) → Option ℕ
oldest_enqueued (some t) queue = some t
oldest_enqueued none queue = front_enqueued queue

abbrev pub age_at : ℕ → Option ℕ → ℕ
age_at now none = 0
age_at now (some t) = now - t

module _ {V T : Type 0} where
  unfoldable pub refresh_queue_diagnostics_at : ℕ → PollingClient V T → PollingClient V T
  refresh_queue_diagnostics_at now c =
      let depth = queue_depth c in
      let age = age_at now (oldest_enqueued c.pending_frame_enqueued_at c.cmd_queue) in
      record c {
        polling_stats = record (c.polling_stats) {
          current_queue_depth = depth;
          peak_queue_depth = max c.polling_stats.peak_queue_depth depth;
        };
        queue_age_stats = record {
          current_oldest_queue_age = age;
          peak_oldest_queue_age = max c.queue_age_stats.peak_oldest_queue_age age;
        };
      }

  unfoldable pub reset_queue_age_peak_at : ℕ → PollingClient V T → PollingClient V T
  unfolding refresh_queue_diagnostics_at
  reset_queue_age_peak_at now c =
      let refreshed = refresh_queue_diagnostics_at now c in
      record refreshed {
        queue_age_stats = record (refreshed.queue_age_stats) {
          peak_oldest_queue_age = refreshed.queue_age_stats.current_oldest_queue_age;
        };
      }

  unfoldable pub has_outbound_work : PollingClient V T → Bool
  has_outbound_work c = c.send_in_flight || is_some c.pending_frame || not (is_empty c.cmd_queue)

  unfoldable pub send_capacity : PollingClient V T → ℕ
  send_capacity c = c.command_capacity - length c.cmd_queue

  unfoldable pub is_closing : PollingClient V T → Bool
  is_closing c = elim c.close_phase [ flushing t ↦ true | closing t ↦ true | _ ↦ false ]

  unfoldable pub new_with_options :
      T → SignalFishConfig → PollingClientOptions → (now : ℕ) → PollingClient V T
  unfolding refresh_queue_diagnostics_at clamped authenticate new_core mesh_enabled
      requested_encoding
  new_with_options transport config options now = refresh_queue_diagnostics_at now (record {
    transport = transport;
    cmd_queue = record { command = authenticate config; enqueued_at = now } ∷ [];
    command_capacity = max config.command_channel_capacity 1;
    core =
        new_core (requested_encoding config) config.protocol_violation_policy (mesh_enabled config);
    options = record options { work_budget = clamped options.work_budget };
    polling_stats = record {
      current_queue_depth = 1;
      peak_queue_depth = 1;
      send_budget_exhaustions = 0;
      receive_budget_exhaustions = 0;
      abandoned_commands = 0;
      close_deadline_expirations = 0;
    };
    queue_age_stats = record { current_oldest_queue_age = 0; peak_oldest_queue_age = 0 };
    shutdown_timeout = config.shutdown_timeout;
    started = false;
    pending_frame = none;
    pending_frame_enqueued_at = none;
    send_in_flight = false;
    pending_frame_is_game_data = false;
    in_flight_is_game_data = false;
    pending_inbound = none;
    close_phase = open_phase;
  })

  unfoldable pub queue_command_at :
      CoreCommand V → ℕ → PollingClient V T → Result (Unit {0}) SignalFishError × PollingClient V T
  unfolding refresh_queue_diagnostics_at
  queue_command_at command now c =
      if not c.core.snapshot.connected
      then (err not_connected, c)
      else if leb c.command_capacity (length c.cmd_queue)
      then (err (send_buffer_full c.command_capacity), c)
      else (
        ok tt,
        refresh_queue_diagnostics_at now (record c {
          cmd_queue = c.cmd_queue ++ (record { command = command; enqueued_at = now }) ∷ [];
        }),
      )

  abbrev pub queue_prepared :
      Result (CoreCommand V) SignalFishError
      → ℕ
      → PollingClient V T
      → Result (Unit {0}) SignalFishError × PollingClient V T
  queue_prepared (err e) now c = (err e, c)
  queue_prepared (ok command) now c = queue_command_at command now c

  unfoldable pub queue_operation :
      {E : Type 0}
      → Environment V T E
      → ClientOperation V
      → ℕ
      → PollingClient V T
      → Result (Unit {0}) SignalFishError × PollingClient V T
  unfolding queue_command_at prepare
  queue_operation env operation now c =
      queue_prepared (prepare env.singleton operation c.core) now c

  unfoldable pub abandon_client_owned :
      (include_in_flight : Bool) → ℕ → PollingClient V T → PollingClient V T
  unfolding refresh_queue_diagnostics_at
  abandon_client_owned include_in_flight now c =
      let owned = saturating_add (length c.cmd_queue) (from_bool (is_some c.pending_frame)) in
      let abandoned =
        if include_in_flight then saturating_add owned (from_bool c.send_in_flight) else owned in
      refresh_queue_diagnostics_at now (record c {
        send_in_flight = if include_in_flight then false else c.send_in_flight;
        in_flight_is_game_data = if include_in_flight then false else c.in_flight_is_game_data;
        cmd_queue = [];
        pending_frame = none;
        pending_frame_enqueued_at = none;
        pending_frame_is_game_data = false;
        polling_stats = record (c.polling_stats) {
          abandoned_commands = saturating_add c.polling_stats.abandoned_commands abandoned;
        };
      })

  unfoldable pub record_serialization_failure_at : ℕ → PollingClient V T → PollingClient V T
  unfolding refresh_queue_diagnostics_at
  record_serialization_failure_at now c = refresh_queue_diagnostics_at now (record c {
    pending_frame_enqueued_at = none;
    polling_stats = record (c.polling_stats) {
      abandoned_commands = saturating_add c.polling_stats.abandoned_commands 1;
    };
  })
