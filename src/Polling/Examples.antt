-- ===== src/Polling/Examples.antt =====
-- src/polling_client.rs: a client on a transport that keeps what it takes, for the theorems about it.
use signal_fish_client_rust.Common.{
  ◌+◌, ◌≤◌, ◌≡◌, refl, true, not, Option, none, some, List, [], ◌∷◌, ◌++◌, length, count, is_some,
  ok, arith,
}
use signal_fish_client_rust.Protocol.Binary.{Wire}
use signal_fish_client_rust.Transport.{
  Transport, TransportFrame, text, frame_payload_len, ready, pending, Sent, TakesOnce, kept, taken,
  TakesFrames,
}
use signal_fish_client_rust.Core.Config.{SignalFishConfig, authenticate, new_config}
use signal_fish_client_rust.Core.Operations.{ClientOperation}
use signal_fish_client_rust.Polling.State.{
  Environment, PollingClient, PollingClientOptions, default_budget, flush, closed, from_bool,
  new_with_options,
}
use signal_fish_client_rust.Polling.Outbound.{drive_outbound}
use signal_fish_client_rust.Polling.Close.{close_at, drain_loop, receive_fuel}
use signal_fish_client_rust.Polling.Drive.{poll_at, receive_loop}
use signal_fish_client_rust.Polling.Calls.{
  Call, poll_call, operation_call, close_call, reset_call, run, accepted,
}
use signal_fish_client_rust.Polling.Ownership.{Owed}
use signal_fish_client_rust.Polling.Ownership.Runs.{frames_of, run-new-Owed}
use signal_fish_client_rust.Polling.Session.{
  is_connected_event, is_disconnected_event, ends, starts, poll_at-Counted,
}
use signal_fish_client_rust.Polling.Session.Runs.{run-new-Within}
use signal_fish_client_rust.Polling.Budget.{receive_loops-return}
use signal_fish_client_rust.Polling.Budget.Sends.{drive_outbound-Limited}
use signal_fish_client_rust.Polling.Deadline.{close-deadline}
use signal_fish_client_rust.Polling.Deadline.Silence.{close_at-silent}

-- A transport whose state is the list of the frames that it took. It always takes one, and brings none.
abbrev take_frame :
    Option TransportFrame → List TransportFrame → Sent (List TransportFrame) (Unit {0})
take_frame none frames = record { result = ready (ok tt); slot = none; transport = frames }
take_frame (some frame) frames = record {
  result = ready (ok tt);
  slot = none;
  transport = frames ++ frame ∷ [];
}

abbrev taking : Transport (List TransportFrame) (Unit {0})
taking = record {
  begin_poll_cycle = λ frames. frames;
  poll_send = take_frame;
  poll_recv = λ frames. (pending, frames);
  poll_close = λ frames. (ready (ok tt), frames);
  abort = λ frames. frames;
  is_ready = λ frames. true;
  close_info = λ frames. none;
}

abbrev all_frames : List TransportFrame → List TransportFrame
all_frames frames = frames

taking-TakesFrames : TakesFrames taking all_frames
taking-TakesFrames = record {
  sends = sends;
  begins = λ frames. refl;
  receives = λ frames. refl;
  closes = λ frames. refl;
  aborts = λ frames. refl;
}
  where
    sends :
        (slot : Option TransportFrame) (frames : List TransportFrame)
        → TakesOnce slot (take_frame slot frames).slot frames (take_frame slot frames).transport
    sends none frames = kept refl refl
    sends (some frame) frames = taken frame refl refl refl

abbrev silent_wire : Wire
silent_wire = record {
  read_map_len = λ bytes. none;
  read_str = λ bytes. none;
  read_bin_len = λ bytes. none;
  read_u64 = λ bytes. none;
  read_u32 = λ bytes. none;
  uuid_from_bytes = λ bytes. 0;
}

abbrev surroundings : Environment (Unit {0}) (List TransportFrame) (Unit {0})
surroundings = record {
  transport = taking;
  parse = λ t. none;
  wire = silent_wire;
  to_json = λ m. some "message";
  singleton = λ name value. tt;
  send_error = λ e. "send";
  receive_error = λ e. "receive";
  closed_by_server = λ info. "closed";
}

abbrev config : SignalFishConfig
config = new_config "0.4.0" "app"

abbrev options : PollingClientOptions
options = record { work_budget = default_budget; close_policy = flush }

abbrev client : PollingClient (Unit {0}) (List TransportFrame)
client = new_with_options [] config options 0

abbrev calls : List (Call (Unit {0}))
calls =
    poll_call 1
    ∷ operation_call ClientOperation.ping 2
    ∷ operation_call ClientOperation.leave_room 3
    ∷ poll_call 4
    ∷ reset_call 4
    ∷ close_call 5
    ∷ poll_call 6
    ∷ []

-- The authentication is on its way.
sends_authentication : (drive_outbound surroundings 1 client).1.transport ≡ text "message" ∷ []
unfolding drive_outbound new_with_options frame_payload_len
sends_authentication = refl

-- Two operations are accepted after it.
accepts_operations : length (accepted surroundings calls client) ≡ 2
unfolding accepted new_with_options frame_payload_len new_config
accepts_operations = refl

run-new-Owed_example :
    Owed surroundings all_frames
      ([] ++ frames_of surroundings (authenticate config ∷ accepted surroundings calls client))
      (run surroundings calls client).1
run-new-Owed_example =
    run-new-Owed surroundings all_frames taking-TakesFrames [] config options 0 calls

poll_at-Counted_example :
    (ends (poll_at surroundings 1 client).0 (poll_at surroundings 1 client).1
      ≡ from_bool client.core.snapshot.connected)
    × (starts (poll_at surroundings 1 client).0 (poll_at surroundings 1 client).1
        ≡ from_bool (not client.started))
poll_at-Counted_example = poll_at-Counted surroundings 1 client

run-new-Within_example :
    (count is_disconnected_event (run surroundings calls client).0
        + from_bool (run surroundings calls client).1.core.snapshot.connected
      ≤ 1)
    × (count is_connected_event (run surroundings calls client).0
        ≡ from_bool (run surroundings calls client).1.started)
run-new-Within_example = run-new-Within surroundings [] config options 0 calls

receive_loops-return_example :
    (is_some (receive_loop surroundings 1 (receive_fuel surroundings client) 0 0 [] client) ≡ true)
    × (is_some (drain_loop surroundings (receive_fuel surroundings client) 0 0 client) ≡ true)
unfolding new_with_options
receive_loops-return_example = receive_loops-return surroundings 1 [] client (ground arith)

drive_outbound-Limited_example :
    length (drive_outbound surroundings 1 client).1.transport
    ≤ length client.transport + client.options.work_budget.send_frames
unfolding new_with_options
drive_outbound-Limited_example =
    drive_outbound-Limited surroundings all_frames taking-TakesFrames 1 client (ground arith)

close-deadline_example :
    (poll_at surroundings 9_000_000_000
      (run surroundings (close_call 5 ∷ poll_call 6 ∷ []) client).1).1.close_phase
    ≡ closed
unfolding new_with_options new_config
close-deadline_example =
    close-deadline surroundings 5 9_000_000_000 client (poll_call 6 ∷ []) refl (ground arith)

close_at-silent_example :
    ((run surroundings calls (close_at surroundings 5 client)).0 ≡ [])
    × (accepted surroundings calls (close_at surroundings 5 client) ≡ [])
unfolding new_with_options
close_at-silent_example = close_at-silent surroundings 5 client calls refl
