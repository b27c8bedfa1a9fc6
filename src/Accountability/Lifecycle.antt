-- ===== src/Accountability/Lifecycle.antt =====
-- src/accountability.rs: players that join, reconnect and leave.
pub mod Tracking
use signal_fish_client_rust.Common.{
  ℕ, Bool, not, ◌&&◌, ◌||◌, Option, none, some, [], ◌==◌, ltb, leb, if◌then◌else◌, is_some,
  is_some_and, unwrap_or, any, Result, ok, err, ◌>>=◌, ◌>>◌, reject_if, ok_or, when_ok,
}
use signal_fish_client_rust.Common.BTreeMap.{
  BTreeSet, nat_key, pair_key, get, insert, remove, any_key, contains_key, last_key,
}
use signal_fish_client_rust.Protocol.Delivery.{PlayerId}
use signal_fish_client_rust.Protocol.Types.{PlayerInfo}
use signal_fish_client_rust.Accountability.State.{
  DeliveryAccountability, SenderProgress, Violation, Source, Step, validate_epoch, v2_terminal,
  omitted_terminal, epoch_not_newer, epoch_not_newer_than_announced, left_unknown_sender,
  left_epoch_backward, left_unannounced_epoch, left_final_backward, left_terminal_changed,
  left_after_newer_leave, left_before_reported_gap,
}
use signal_fish_client_rust.Accountability.Snapshot.{paired_baseline}
use signal_fish_client_rust.Accountability.Retire.{gaps_at, try_retire_departed}

abbrev pub is_announced : PlayerId → ℕ → DeliveryAccountability → Bool
is_announced p epoch s = is_some_and (get p s.announced_epochs) (contains_key epoch)

-- The end of `note_epoch`, with the entry that `or_default` makes.
unfoldable pub announce :
    Source → PlayerId → ℕ → BTreeSet ℕ → DeliveryAccountability → Step (Unit {0})
announce source p epoch announced s =
    if contains_key epoch announced
    then (ok tt, s)
    else if is_some_and (last_key announced) (leb epoch)
    then (err (epoch_not_newer_than_announced source), s)
    else (
      ok tt,
      record s {
        announced_epochs = insert p (insert epoch tt announced) s.announced_epochs;
        stale_senders = insert p tt s.stale_senders;
      },
    )

unfoldable pub note_known :
    Source → PlayerId → ℕ → SenderProgress → DeliveryAccountability → Step (Unit {0})
unfolding announce
note_known source p epoch previous s =
    if previous.epoch == epoch && not (contains_key p s.stale_senders)
    then (ok tt, s)
    else if leb epoch previous.epoch
    then (err (epoch_not_newer source), s)
    else announce source p epoch (unwrap_or (get p s.announced_epochs) []) s

unfoldable pub note_baseline :
    Source → PlayerId → Option SenderProgress → DeliveryAccountability → Step (Unit {0})
unfolding note_known
note_baseline source p none s = (ok tt, s)
note_baseline source p (some stamp) s = elim (get p s.senders) [
  | none ↦ (
    ok tt,
    record s { senders = insert p stamp s.senders; stale_senders = remove p s.stale_senders },
  )
  | some previous ↦ note_known source p stamp.epoch previous s
]

unfoldable pub note_epoch :
    Source → PlayerId → Option ℕ → Option ℕ → DeliveryAccountability → Step (Unit {0})
unfolding paired_baseline note_baseline
note_epoch source p epoch seq s =
    when_ok (paired_baseline source s.protocol_v3 epoch seq) s
      λ stamp. note_baseline source p stamp s

unfoldable pub note_player_joined :
    {V : Type 0} → PlayerInfo V → DeliveryAccountability → Step (Unit {0})
unfolding note_epoch
note_player_joined player s = note_epoch Source.player_joined player.id player.epoch player.seq s

-- `epoch.map(|_| 0)`.
abbrev pub zero_seq : Option ℕ → Option ℕ
zero_seq none = none
zero_seq (some epoch) = some 0

unfoldable pub note_player_reconnected :
    PlayerId → Option ℕ → DeliveryAccountability → Step (Unit {0})
unfolding note_epoch
note_player_reconnected p epoch s = note_epoch Source.player_reconnected p epoch (zero_seq epoch) s

unfoldable pub terminal_watermark : Option ℕ → Option ℕ → Result (ℕ × ℕ) Violation
terminal_watermark (some epoch) (some final) = ok (epoch, final)
terminal_watermark _ _ = err omitted_terminal

-- The checks of a v3 `PlayerLeft`, in their order.
unfoldable pub check_left : PlayerId → ℕ → ℕ → DeliveryAccountability → Result (Unit {0}) Violation
unfolding validate_epoch
check_left p epoch final s = do
  validate_epoch epoch Source.player_left
  progress ← ok_or (get p s.senders) left_unknown_sender
  reject_if (ltb epoch progress.epoch) left_epoch_backward
  reject_if (ltb progress.epoch epoch && not (is_announced p epoch s)) left_unannounced_epoch
  reject_if (epoch == progress.epoch && ltb final progress.last_seq) left_final_backward
  reject_if (is_some_and (get (p, epoch) s.departed_senders) (λ t. not (t.final_seq == final)))
      left_terminal_changed
  reject_if (any_key (λ k. k.0 == p && ltb epoch k.1) s.departed_senders) left_after_newer_leave
  reject_if (any (λ gap. ltb final gap.to_seq) (gaps_at (p, epoch) s)) left_before_reported_gap

unfoldable pub leave : PlayerId → ℕ → ℕ → DeliveryAccountability → DeliveryAccountability
leave p epoch final s = record s {
  departed_senders = insert (p, epoch) (record { final_seq = final }) s.departed_senders;
  stale_senders = insert p tt s.stale_senders;
}

unfoldable pub note_player_left_v3 :
    PlayerId → Option ℕ → Option ℕ → DeliveryAccountability → Step (Unit {0})
unfolding terminal_watermark check_left leave try_retire_departed
note_player_left_v3 p epoch final s =
    when_ok (terminal_watermark epoch final) s
      λ (e, f). when_ok (check_left p e f s) s λ _. try_retire_departed p e (leave p e f s)

unfoldable pub note_player_left :
    PlayerId → Option ℕ → Option ℕ → DeliveryAccountability → Step (Unit {0})
unfolding note_player_left_v3
note_player_left p epoch final s =
    if not s.protocol_v3
    then (if is_some epoch || is_some final then (err v2_terminal, s) else (ok tt, s))
    else note_player_left_v3 p epoch final s
