-- ===== src/Protocol/Delivery.antt =====
-- src/protocol.rs: delivery classes, exact gaps, cumulative counters and watermarks.
use Prim.Native.Nat.{ℕ}
use mathlib.Core.List.{List}

abbrev pub PlayerId : Type 0
PlayerId = ℕ

abbrev pub RoomId : Type 0
RoomId = ℕ

pub data GameDataEncoding : Type 0 where
  json message_pack rkyv : GameDataEncoding

pub data DeliveryClass : Type 0 where
  reliable latest volatile : DeliveryClass

pub data DeliveryGapReason : Type 0 where
  latest_superseded latest_dropped_full volatile_dropped unsupported_format : DeliveryGapReason

-- `epoch` is a u32, the sequence numbers are u64.
pub record DeliveryGap : Type 0 where
  pub from_player : PlayerId
  pub epoch : ℕ
  pub from_seq : ℕ
  pub to_seq : ℕ
  pub reason : DeliveryGapReason

pub record ReliableDeliveryCounters : Type 0 where
  pub delivered : ℕ
  pub abandoned : ℕ
  pub unsupported_format : ℕ

pub record LatestDeliveryCounters : Type 0 where
  pub delivered : ℕ
  pub superseded : ℕ
  pub dropped_full : ℕ
  pub abandoned : ℕ
  pub unsupported_format : ℕ

pub record VolatileDeliveryCounters : Type 0 where
  pub delivered : ℕ
  pub dropped : ℕ
  pub abandoned : ℕ
  pub unsupported_format : ℕ

pub record DeliveryCountersByClass : Type 0 where
  pub reliable : ReliableDeliveryCounters
  pub latest : LatestDeliveryCounters
  pub volatile : VolatileDeliveryCounters

pub record DeliveryReportPayload : Type 0 where
  pub per_class : DeliveryCountersByClass
  pub gaps : List DeliveryGap

abbrev pub delivery_report_max_gaps : ℕ
delivery_report_max_gaps = 256

-- `Default`: every counter is 0.
abbrev pub no_deliveries : DeliveryCountersByClass
no_deliveries = record {
  reliable = record { delivered = 0; abandoned = 0; unsupported_format = 0 };
  latest = record {
    delivered = 0;
    superseded = 0;
    dropped_full = 0;
    abandoned = 0;
    unsupported_format = 0;
  };
  volatile = record { delivered = 0; dropped = 0; abandoned = 0; unsupported_format = 0 };
}

pub record SenderWatermark : Type 0 where
  pub player_id : PlayerId
  pub epoch : ℕ
  pub seq : ℕ

pub GameDataEncoding-discrete : Discrete GameDataEncoding
GameDataEncoding-discrete = hlevel
