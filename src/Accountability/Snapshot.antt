-- ===== src/Accountability/Snapshot.antt =====
-- src/accountability.rs: the room baselines of a join, a spectator's join and a reconnect.
use signal_fish_client_rust.Common.{
  ℕ, Bool, true, false, not, ◌&&◌, Option, none, some, List, [], ◌∷◌, ◌==◌, is_empty, if◌then◌else◌,
  Result, ok, err, ◌>>=◌, ◌>>◌, reject_if, when_ok,
}
use signal_fish_client_rust.Common.BTreeMap.{
  BTreeMap, BTreeSet, nat_key, get, insert, keys, contains_key,
}
use signal_fish_client_rust.Protocol.Delivery.{PlayerId, SenderWatermark}
use signal_fish_client_rust.Protocol.Types.{PlayerInfo}
use signal_fish_client_rust.Accountability.State.{
  DeliveryAccountability, SenderProgress, Violation, Source, Step, reset_room, validate_epoch,
  omitted_baseline, exposed_baseline, duplicate_player, v2_watermarks, duplicate_watermark,
  watermark_disagrees, watermark_outside_snapshot, watermarks_incomplete,
}

-- The `match (self.protocol_v3, player.epoch, player.seq)`, with the check of the epoch behind it.
unfoldable pub paired_baseline :
    Source → Bool → Option ℕ → Option ℕ → Result (Option SenderProgress) Violation
unfolding validate_epoch
paired_baseline source true (some epoch) (some seq) = do
  validate_epoch epoch source
  ok (some (record { epoch = epoch; last_seq = seq }))
paired_baseline source true _ _ = err (omitted_baseline source)
paired_baseline source false none none = ok none
paired_baseline source false _ _ = err (exposed_baseline source)

abbrev pub Stamps : Type 0
Stamps = BTreeMap PlayerId SenderProgress

abbrev pub add_stamp : PlayerId → Option SenderProgress → Stamps → Stamps
add_stamp id none stamps = stamps
add_stamp id (some progress) stamps = insert id progress stamps

module _ {V : Type 0} where
  -- The loop over the players of a snapshot: their stamps and their ids.
  unfoldable pub scan_players :
      Source
      → Bool
      → List (PlayerInfo V)
      → Stamps
      → BTreeSet PlayerId
      → Result (Stamps × BTreeSet PlayerId) Violation
  unfolding paired_baseline
  scan_players source v3 [] stamps seen = ok (stamps, seen)
  scan_players source v3 (p ∷ ps) stamps seen = do
    reject_if (contains_key p.id seen) (duplicate_player source)
    stamp ← paired_baseline source v3 p.epoch p.seq
    scan_players source v3 ps (add_stamp p.id stamp stamps) (insert p.id tt seen)

  unfoldable pub rebaseline_snapshot :
      List (PlayerInfo V) → DeliveryAccountability → Step (Unit {0})
  unfolding scan_players reset_room
  rebaseline_snapshot players s =
      when_ok (scan_players Source.snapshot s.protocol_v3 players [] []) s
        (λ (senders, _). (ok tt, record (reset_room s) { senders = senders }))

unfoldable pub same_stamp : SenderProgress → SenderWatermark → Bool
same_stamp stamp w = stamp.epoch == w.epoch && stamp.last_seq == w.seq

unfoldable pub agrees : Option SenderProgress → SenderWatermark → Result (Unit {0}) Violation
unfolding same_stamp
agrees none w = err watermark_outside_snapshot
agrees (some stamp) w = reject_if (not (same_stamp stamp w)) watermark_disagrees

-- The loop over the reconnect watermarks.
unfoldable pub scan_watermarks :
    Stamps
    → List SenderWatermark
    → Stamps
    → BTreeSet PlayerId
    → Result (Stamps × BTreeSet PlayerId) Violation
unfolding agrees validate_epoch
scan_watermarks stamps [] senders seen = ok (senders, seen)
scan_watermarks stamps (w ∷ ws) senders seen = do
  validate_epoch w.epoch Source.reconnect_watermark
  reject_if (contains_key w.player_id seen) duplicate_watermark
  agrees (get w.player_id stamps) w
  scan_watermarks stamps ws
      (insert w.player_id (record { epoch = w.epoch; last_seq = w.seq }) senders)
      (insert w.player_id tt seen)

-- Two sets are equal when they list the same keys in order.
unfoldable pub same_keys : List PlayerId → List PlayerId → Bool
same_keys [] [] = true
same_keys (a ∷ xs) (b ∷ ys) = a == b && same_keys xs ys
same_keys _ _ = false

unfoldable pub reconnect_senders :
    Bool → List SenderWatermark → Stamps × BTreeSet PlayerId → Result Stamps Violation
unfolding scan_watermarks same_keys
reconnect_senders false watermarks (stamps, ids) =
    if is_empty watermarks then ok [] else err v2_watermarks
reconnect_senders true watermarks (stamps, ids) = do
  (senders, seen) ← scan_watermarks stamps watermarks [] []
  reject_if (not (same_keys (keys seen) (keys ids))) watermarks_incomplete
  ok senders

module _ {V : Type 0} where
  unfoldable pub rebaseline_reconnected :
      List (PlayerInfo V) → List SenderWatermark → DeliveryAccountability → Step (Unit {0})
  unfolding scan_players reconnect_senders reset_room
  rebaseline_reconnected players watermarks s =
      when_ok
        (scan_players Source.reconnect_snapshot s.protocol_v3 players [] []
          >>= reconnect_senders s.protocol_v3 watermarks)
        s (λ senders. (ok tt, record (reset_room s) { senders = senders }))
