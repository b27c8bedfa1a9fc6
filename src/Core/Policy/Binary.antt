-- ===== src/Core/Policy/Binary.antt =====
-- src/client_core.rs: the violation policy on binary frames.
use signal_fish_client_rust.Common.{
  ℕ, ◌≡◌, refl, sym, subst, inl, inr, true, false, List, [], ◌∷◌, ok, err, Result-cases, arith,
}
use signal_fish_client_rust.Protocol.Messages.{ServerMessage}
use signal_fish_client_rust.Protocol.Binary.{Wire, decode_binary_server_message}
use signal_fish_client_rust.Accountability.State.{GameDataDisposition, Violation, Step}
use signal_fish_client_rust.Core.State.{
  ClientCore, protocol_violation, ProtocolViolationPolicy, quarantine, disconnect, observe, is_v3,
}
use signal_fish_client_rust.Core.Frames.{set_quarantined, note_violation}
use signal_fish_client_rust.Core.Process.{
  deliver, undecodable, finish_binary, settle_binary, refuse_bytes, settle_physical, process_bytes,
  process_binary,
}
use signal_fish_client_rust.Core.Policy.{
  Obeys, from_accountability-Obeys, update_state-received, update_state-policy,
  update_state-connected, update_state-quarantined, undecodable-Obeys,
}

module _ {V : Type 0} where
  undecodable_observed-Obeys :
      (v : Violation) (core : ClientCore)
      → core.violation_policy ≡ observe
      → Obeys {V = V} core (undecodable (protocol_violation v ∷ []) core)
  unfolding undecodable note_violation set_quarantined
  undecodable_observed-Obeys v core o = record {
    policy = ground arith;
    counted = ground arith;
    closes = ground arith;
    silent = λ q p. ground arith;
    quarantines = λ v p. ground arith;
    connection = ground arith;
    calm = ground arith;
    stays = λ q p n. ground arith;
  }

  settle_binary-Obeys :
      (message : ServerMessage V) (r : Step GameDataDisposition) (core : ClientCore)
      → Obeys core (settle_binary message r [] core)
  unfolding settle_binary finish_binary deliver note_violation set_quarantined
  settle_binary-Obeys message (ok d, validated) core = record {
    policy = ground (arith, update_state-policy message);
    counted = ground (arith, update_state-received message);
    closes = ground arith;
    silent = λ q p. ground arith;
    quarantines = λ v p. absurd (ground arith);
    connection = ground (arith, update_state-connected message);
    calm = ground arith;
    stays = λ q p n. ground (arith, update_state-quarantined message);
  }
  settle_binary-Obeys message (err v, validated) core = record {
    policy = ground (arith, update_state-policy message);
    counted = ground (arith, update_state-received message);
    closes = ground arith;
    silent = λ q p. ground arith;
    quarantines = λ v p. ground arith;
    connection = ground (arith, update_state-connected message);
    calm = ground arith;
    stays = λ q p n. ground (arith, update_state-quarantined message);
  }

  settle_binary_observed-Obeys :
      (message : ServerMessage V) (r : Step GameDataDisposition) (v : Violation) (core : ClientCore)
      → core.violation_policy ≡ observe
      → Obeys core (settle_binary message r (protocol_violation v ∷ []) core)
  unfolding settle_binary finish_binary deliver note_violation set_quarantined
  settle_binary_observed-Obeys message (ok d, validated) v core o = record {
    policy = ground (arith, update_state-policy message);
    counted = ground (arith, update_state-received message);
    closes = ground arith;
    silent = λ q p. ground arith;
    quarantines = λ v p. absurd (ground arith);
    connection = ground (arith, update_state-connected message);
    calm = ground arith;
    stays = λ q p n. ground (arith, update_state-quarantined message);
  }
  settle_binary_observed-Obeys message (err w, validated) v core o = record {
    policy = ground (arith, update_state-policy message);
    counted = ground (arith, update_state-received message);
    closes = ground arith;
    silent = λ q p. ground arith;
    quarantines = λ v p. ground arith;
    connection = ground (arith, update_state-connected message);
    calm = ground arith;
    stays = λ q p n. ground (arith, update_state-quarantined message);
  }

note_violation-observe :
    (core : ClientCore) → core.violation_policy ≡ observe → note_violation core ≡ core
unfolding note_violation
note_violation-observe core o = ground arith

module _ {V : Type 0} (w : Wire) where
  process_bytes-Obeys :
      (bytes : List ℕ) (core : ClientCore)
      → Obeys {V = V} core (process_bytes w bytes false [] core)
  unfolding process_bytes
  process_bytes-Obeys bytes core =
      elim (Result-cases (
        decode_binary_server_message w V bytes (is_v3 core.snapshot.negotiated_protocol_version))) [
          | inl (message, e) ↦ rw (e, process_bytes) (settle_binary-Obeys message _ core)
          | inr (bad, e) ↦ rw (e, process_bytes) (undecodable-Obeys core)
        ]

  process_bytes_observed-Obeys :
      (bytes : List ℕ) (v : Violation) (core : ClientCore)
      → core.violation_policy ≡ observe
      → Obeys {V = V} core (process_bytes w bytes true (protocol_violation v ∷ []) core)
  unfolding process_bytes
  process_bytes_observed-Obeys bytes v core o =
      elim (Result-cases (
        decode_binary_server_message w V bytes (is_v3 core.snapshot.negotiated_protocol_version))) [
          | inl (message, e) ↦
              rw (e, process_bytes) (settle_binary_observed-Obeys message _ v core o)
          | inr (bad, e) ↦ rw (e, process_bytes) (undecodable_observed-Obeys v core o)
        ]

  -- `observe` leaves the core as it is.
  refuse_bytes-Obeys :
      (policy : ProtocolViolationPolicy) (bytes : List ℕ) (v : Violation) (core : ClientCore)
      → core.violation_policy ≡ policy
      → Obeys {V = V} core (refuse_bytes w policy bytes v core)
  unfolding refuse_bytes note_violation set_quarantined
  refuse_bytes-Obeys quarantine bytes v core e = record {
    policy = ground arith;
    counted = ground arith;
    closes = ground arith;
    silent = λ q p. ground arith;
    quarantines = λ h p. ground arith;
    connection = ground arith;
    calm = ground arith;
    stays = λ q p n. ground arith;
  }
  refuse_bytes-Obeys disconnect bytes v core e = record {
    policy = ground arith;
    counted = ground arith;
    closes = ground arith;
    silent = λ q p. ground arith;
    quarantines = λ h p. absurd (ground arith);
    connection = ground arith;
    calm = ground arith;
    stays = λ q p n. ground arith;
  }
  refuse_bytes-Obeys observe bytes v core e =
      subst (λ c. Obeys {V = V} core (process_bytes w bytes true (protocol_violation v ∷ []) c))
        (sym (note_violation-observe core e)) (process_bytes_observed-Obeys bytes v core e)

  settle_physical-Obeys :
      (bytes : List ℕ) (r : Step (Unit {0})) (core : ClientCore)
      → Obeys {V = V} core (settle_physical w bytes r core)
  unfolding settle_physical
  settle_physical-Obeys bytes (ok _, observed) core =
      from_accountability-Obeys observed core _
        (process_bytes-Obeys bytes (record core { accountability = observed }))
  settle_physical-Obeys bytes (err v, observed) core = from_accountability-Obeys observed core _ (
      refuse_bytes-Obeys core.violation_policy bytes v (record core { accountability = observed })
        refl)

  pub process_binary-Obeys :
      (bytes : List ℕ) (core : ClientCore) → Obeys {V = V} core (process_binary w bytes core)
  unfolding process_binary
  process_binary-Obeys bytes core = settle_physical-Obeys bytes _ core
