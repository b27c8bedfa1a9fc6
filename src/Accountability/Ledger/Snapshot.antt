-- ===== src/Accountability/Ledger/Snapshot.antt =====
-- src/accountability.rs: a snapshot opens a new ledger, with the baselines that it states.
use signal_fish_client_rust.Common.{
  ℕ, ◌≤◌, ◌≡◌, Bool, true, false, not, Option, none, some, List, [], ◌∷◌, ◌++◌, ok, reject_if,
  ◌>>=◌, >>=-eq-ok, OnOk, when_ok-OnOk, arith,
}
use signal_fish_client_rust.Common.BTreeMap.{
  BTreeSet, nat_key, pair_key, get, insert, contains_key, keys, get-insert,
}
use signal_fish_client_rust.Protocol.Delivery.{PlayerId, SenderWatermark}
use signal_fish_client_rust.Protocol.Types.{PlayerInfo}
use signal_fish_client_rust.Accountability.State.{
  DeliveryAccountability, SenderProgress, Source, duplicate_player, watermarks_incomplete,
  duplicate_watermark, validate_epoch,
}
use signal_fish_client_rust.Accountability.Snapshot.{
  Stamps, agrees, add_stamp, paired_baseline, scan_players, scan_watermarks, same_keys,
  reconnect_senders, rebaseline_snapshot, rebaseline_reconnected,
}
use signal_fish_client_rust.Accountability.Ledger.Defs.{
  Entry, baseline, accounted, accounted-append, IsAccounted,
}
use signal_fish_client_rust.Accountability.Ledger.Lifecycle.{
  baseline_entries, paired_baseline-entries,
}

-- The baselines of a snapshot's players.
abbrev pub add_players : {V : Type 0} → List (PlayerInfo V) → List Entry → List Entry
add_players [] ledger = ledger
add_players (p ∷ ps) ledger = add_players ps (baseline_entries p.id p.epoch p.seq ++ ledger)

-- The baselines of a reconnect's watermarks.
abbrev pub add_watermarks : List SenderWatermark → List Entry → List Entry
add_watermarks [] ledger = ledger
add_watermarks (w ∷ ws) ledger = add_watermarks ws (baseline w.player_id w.epoch w.seq ∷ ledger)

abbrev StampsExplained : List Entry → Stamps → Type 0
StampsExplained ledger stamps =
    (p : PlayerId) (c : SenderProgress) (n : ℕ)
    → get p stamps ≡ some c
    → n ≤ c.last_seq
    → accounted ledger p c.epoch n ≡ true

insert-StampsExplained :
    (ledger : List Entry) (id : PlayerId) (c : SenderProgress) (stamps : Stamps)
    → StampsExplained ledger stamps
    → StampsExplained (baseline id c.epoch c.last_seq ∷ ledger) (insert id c stamps)
insert-StampsExplained ledger id c stamps h p d n g le =
    ground (arith, get-insert id p c stamps, h p d n)

add_stamp-StampsExplained :
    (source : Source) (v3 : Bool) (ledger : List Entry) (id : PlayerId) (epoch seq : Option ℕ)
    (stamp : Option SenderProgress) (stamps : Stamps)
    → paired_baseline source v3 epoch seq ≡ ok stamp
    → StampsExplained ledger stamps
    → StampsExplained (baseline_entries id epoch seq ++ ledger) (add_stamp id stamp stamps)
add_stamp-StampsExplained source v3 ledger id epoch seq none stamps e h =
    λ p c n g le. accounted-append (baseline_entries id epoch seq) ledger p c.epoch n (h p c n g le)
add_stamp-StampsExplained source v3 ledger id epoch seq (some stamp) stamps e h =
    rw (paired_baseline-entries source v3 id epoch seq stamp e)
      (insert-StampsExplained ledger id stamp stamps h)

module _ {V : Type 0} where
  scan_players-StampsExplained :
      (source : Source) (v3 : Bool) (ledger : List Entry) (players : List (PlayerInfo V))
      (stamps : Stamps) (seen : BTreeSet PlayerId) (r : Stamps × BTreeSet PlayerId)
      → scan_players source v3 players stamps seen ≡ ok r
      → StampsExplained ledger stamps
      → StampsExplained (add_players players ledger) r.0
  unfolding scan_players
  scan_players-StampsExplained source v3 ledger [] stamps seen r e h =
      λ p c n g le. ground (arith, h p c n)
  scan_players-StampsExplained source v3 ledger (p ∷ ps) stamps seen r e h =
      let (_, _, e') =
        >>=-eq-ok (reject_if (contains_key p.id seen) (duplicate_player source)) _ e in
      let (stamp, paired, e'') = >>=-eq-ok (paired_baseline source v3 p.epoch p.seq) _ e' in
      scan_players-StampsExplained source v3 (baseline_entries p.id p.epoch p.seq ++ ledger) ps
        (add_stamp p.id stamp stamps) (insert p.id tt seen) r e''
        (add_stamp-StampsExplained source v3 ledger p.id p.epoch p.seq stamp stamps paired h)

  -- An accepted snapshot: the baselines that it states explain every cursor that it sets.
  pub rebaseline_snapshot-IsAccounted :
      (players : List (PlayerInfo V)) (s : DeliveryAccountability)
      → OnOk (λ _. IsAccounted (add_players players [])) (rebaseline_snapshot players s)
  unfolding rebaseline_snapshot get
  rebaseline_snapshot-IsAccounted players s =
      when_ok-OnOk (λ _. IsAccounted (add_players players []))
        (scan_players Source.snapshot s.protocol_v3 players [] []) s _
        λ r e _ _. record {
          cursor = λ p c n g lo hi.
              scan_players-StampsExplained Source.snapshot s.protocol_v3 [] players [] [] r e
                (λ p c n g le. cc) p c n g hi;
          pending = λ p e gaps n g k. cc;
        }

scan_watermarks-StampsExplained :
    (known : Stamps) (ledger : List Entry) (ws : List SenderWatermark) (senders : Stamps)
    (seen : BTreeSet PlayerId) (r : Stamps × BTreeSet PlayerId)
    → scan_watermarks known ws senders seen ≡ ok r
    → StampsExplained ledger senders
    → StampsExplained (add_watermarks ws ledger) r.0
unfolding scan_watermarks
scan_watermarks-StampsExplained known ledger [] senders seen r e h =
    λ p c n g le. ground (arith, h p c n)
scan_watermarks-StampsExplained known ledger (w ∷ ws) senders seen r e h =
    let (_, _, e1) = >>=-eq-ok (validate_epoch w.epoch Source.reconnect_watermark) _ e in
    let (_, _, e2) =
      >>=-eq-ok (reject_if (contains_key w.player_id seen) duplicate_watermark) _ e1 in
    let (_, _, e3) = >>=-eq-ok (agrees (get w.player_id known) w) _ e2 in
    let stamp : SenderProgress = record { epoch = w.epoch; last_seq = w.seq } in
    scan_watermarks-StampsExplained known (baseline w.player_id w.epoch w.seq ∷ ledger) ws
      (insert w.player_id stamp senders) (insert w.player_id tt seen) r e3
      (insert-StampsExplained ledger w.player_id stamp senders h)

reconnect_senders-StampsExplained :
    (v3 : Bool) (ws : List SenderWatermark) (r : Stamps × BTreeSet PlayerId) (senders : Stamps)
    → reconnect_senders v3 ws r ≡ ok senders
    → StampsExplained (add_watermarks ws []) senders
unfolding reconnect_senders get
reconnect_senders-StampsExplained false ws r senders e = λ p c n g le. ground arith
reconnect_senders-StampsExplained true ws (stamps, ids) senders e =
    let (r, scanned, e1) = >>=-eq-ok (scan_watermarks stamps ws [] []) _ e in
    let (_, _, e2) =
      >>=-eq-ok (reject_if (not (same_keys (keys r.1) (keys ids))) watermarks_incomplete) _ e1 in
    λ p c n g le.
      scan_watermarks-StampsExplained stamps [] ws [] [] r scanned (λ p c n g le. cc) p c n
        (ground arith) le

-- An accepted reconnect: its watermarks explain every cursor that it sets.
pub rebaseline_reconnected-IsAccounted :
    {V : Type 0} (players : List (PlayerInfo V)) (ws : List SenderWatermark)
    (s : DeliveryAccountability)
    → OnOk (λ _. IsAccounted (add_watermarks ws [])) (rebaseline_reconnected players ws s)
unfolding rebaseline_reconnected get
rebaseline_reconnected-IsAccounted players ws s =
    when_ok-OnOk (λ _. IsAccounted (add_watermarks ws []))
      (scan_players Source.reconnect_snapshot s.protocol_v3 players [] []
        >>= reconnect_senders s.protocol_v3 ws)
      s _
      λ senders e _ _.
        let (r, _, e') =
          >>=-eq-ok (scan_players Source.reconnect_snapshot s.protocol_v3 players [] []) _ e in
        record {
          cursor = λ p c n g lo hi.
              reconnect_senders-StampsExplained s.protocol_v3 ws r senders e' p c n g hi;
          pending = λ p e gaps n g k. cc;
        }
