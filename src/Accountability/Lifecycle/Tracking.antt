-- ===== src/Accountability/Lifecycle/Tracking.antt =====
-- src/accountability.rs: waiting departures and the lifecycle messages.
use signal_fish_client_rust.Common.{
  ℕ, ◌≡◌, inl, inr, true, not, Option, none, some, ok, Option-cases, when_ok_cases, branch_cases,
  is_some, ◌||◌, arith,
}
use signal_fish_client_rust.Common.BTreeMap.{nat_key, pair_key, get, get-insert}
use signal_fish_client_rust.Protocol.Delivery.{PlayerId}
use signal_fish_client_rust.Accountability.State.{DeliveryAccountability, SenderProgress, Source}
use signal_fish_client_rust.Accountability.Snapshot.{paired_baseline}
use signal_fish_client_rust.Accountability.Retire.Tracking.{
  IsTracked, reaches, try_retire_departed-IsTracked,
}
use signal_fish_client_rust.Accountability.Lifecycle.{
  note_known, note_baseline, note_epoch, terminal_watermark, check_left, leave, note_player_left_v3,
  note_player_left,
}

note_known-IsTracked :
    (source : Source) (p : PlayerId) (epoch : ℕ) (c : SenderProgress) (s : DeliveryAccountability)
    → IsTracked s
    → IsTracked (note_known source p epoch c s).1
unfolding note_known
note_known-IsTracked source p epoch c s h q e t d = ground (arith, h q e t)

note_baseline-IsTracked :
    (source : Source) (p : PlayerId) (stamp : Option SenderProgress) (s : DeliveryAccountability)
    → IsTracked s
    → IsTracked (note_baseline source p stamp s).1
unfolding note_baseline
note_baseline-IsTracked source p none s h = h
note_baseline-IsTracked source p (some stamp) s h = elim (Option-cases (get p s.senders)) [
  | inl f ↦
      rw (f, note_baseline) λ q e t d. ground (arith, h q e t d, get-insert p q stamp s.senders)
  | inr (c, f) ↦ rw (f, note_baseline) (note_known-IsTracked source p stamp.epoch c s h)
]

pub note_epoch-IsTracked :
    (source : Source) (p : PlayerId) (epoch seq : Option ℕ) (s : DeliveryAccountability)
    → IsTracked s
    → IsTracked (note_epoch source p epoch seq s).1
unfolding note_epoch
note_epoch-IsTracked source p epoch seq s h =
    when_ok_cases IsTracked (paired_baseline source s.protocol_v3 epoch seq) s _ h
      λ stamp _. note_baseline-IsTracked source p stamp s h

-- The checks of `PlayerLeft` leave only epochs that the sender's cursor has not passed.
pub check_left-reaches :
    (p : PlayerId) (epoch final : ℕ) (s : DeliveryAccountability)
    → check_left p epoch final s ≡ ok tt
    → reaches p epoch s ≡ true
unfolding check_left
check_left-reaches p epoch final s h = ground arith

leave-IsTracked :
    (p : PlayerId) (epoch final : ℕ) (s : DeliveryAccountability)
    → reaches p epoch s ≡ true
    → IsTracked s
    → IsTracked (leave p epoch final s)
unfolding leave
leave-IsTracked p epoch final s r h q e t d =
    ground (
      arith,
      h q e t,
      get-insert (p, epoch) (q, e) (record { final_seq = final }) s.departed_senders,
    )

note_player_left_v3-IsTracked :
    (p : PlayerId) (epoch final : Option ℕ) (s : DeliveryAccountability)
    → IsTracked s
    → IsTracked (note_player_left_v3 p epoch final s).1
unfolding note_player_left_v3
note_player_left_v3-IsTracked p epoch final s h =
    when_ok_cases IsTracked (terminal_watermark epoch final) s _ h λ (e, f) _.
      when_ok_cases IsTracked (check_left p e f s) s _ h λ _ c.
        try_retire_departed-IsTracked p e _
          (leave-IsTracked p e f s (check_left-reaches p e f s (ground arith)) h)

pub note_player_left-IsTracked :
    (p : PlayerId) (epoch final : Option ℕ) (s : DeliveryAccountability)
    → IsTracked s
    → IsTracked (note_player_left p epoch final s).1
unfolding note_player_left
note_player_left-IsTracked p epoch final s h =
    branch_cases IsTracked (not s.protocol_v3) _ _
      (λ _. branch_cases IsTracked (is_some epoch || is_some final) _ _ (λ _. h) (λ _. h))
      (λ _. note_player_left_v3-IsTracked p epoch final s h)
