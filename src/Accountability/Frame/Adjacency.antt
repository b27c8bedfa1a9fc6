-- ===== src/Accountability/Frame/Adjacency.antt =====
-- src/accountability.rs: the error frame that must follow an unsupported-format report.
use signal_fish_client_rust.Common.{
  ◌≡◌, ◌↔◌, refl, ◌∙◌, ap, Bool, true, false, not, ◌&&◌, none, List, [], ◌∷◌, if_cases, is_some, ok,
  err, and_then, and_then-first, arith,
}
use signal_fish_client_rust.Protocol.Delivery.{DeliveryReportPayload, GameDataEncoding, json}
use signal_fish_client_rust.Protocol.Messages.{ServerMessage, delivery_report}
use signal_fish_client_rust.Accountability.State.{
  DeliveryAccountability, GameDataDisposition, Violation, Step, new, representation_mismatch,
  physical_binary_mismatch,
}
use signal_fish_client_rust.Accountability.Stream.{observe_server_message, observe_terminal}
use signal_fish_client_rust.Accountability.Report.{record_report}
use signal_fish_client_rust.Accountability.Report.Unsupported.{
  is_accepted, names_unsupported, record_report-arms,
}
use signal_fish_client_rust.Accountability.Retire.Tracking.{IsTracked}
use signal_fish_client_rust.Accountability.Frame.{
  is_unsupported_error, applied, validate_content, validate_server_message, is_mismatch,
  same_encoding, validate_server_frame, validate_physical_binary_allowed,
}
use signal_fish_client_rust.Accountability.Frame.Run.{Input, frame, binary, terminal, present, run}
use signal_fish_client_rust.Accountability.Frame.Tracking.{
  observe_server_message-IsTracked, present-IsTracked, new-IsTracked,
}
use signal_fish_client_rust.Accountability.Frame.Untouched.{Has, is_report, validate_content-Has}

module _ {V : Type 0} where
  -- Whether the frame that stands last, after an input that `s` is presented with, is an accepted report
  -- of an unsupported format; `before` says so of the inputs before it. The check of a binary frame's
  -- form lets it pass and is no frame, unless it refuses the frame.
  abbrev pub stands : Input V → (before : Bool) → DeliveryAccountability → Bool
  stands (frame (delivery_report report) negotiated physical) before s =
      is_accepted (validate_server_frame {V = V} (delivery_report report) negotiated physical s).0
      && names_unsupported report
  stands (frame message negotiated physical) before s = false
  stands (binary negotiated) before s = not (same_encoding negotiated json) && before
  stands terminal before s = false

  abbrev pub stands_after : List (Input V) → (before : Bool) → DeliveryAccountability → Bool
  stands_after [] before s = before
  stands_after (i ∷ inputs) before s = stands_after inputs (stands i before s) (present i s)

-- A frame passes the check of adjacency exactly when it is the unsupported-format error and such a
-- report stands before it, or neither is so; the obligation is used up either way.
observe_server_message-adjacent :
    (is_error : Bool) (s : DeliveryAccountability)
    → s.protocol_v3 ≡ true
    → (((observe_server_message is_error s).0 ≡ ok tt)
        ↔ (is_error ≡ is_some s.pending_unsupported_error))
      × Has true none (observe_server_message is_error s).1
unfolding observe_server_message Has
observe_server_message-adjacent is_error s v3 =
    (((λ h. ground arith), (λ h. ground arith)), (ground arith, ground arith))

-- The obligation of a state is the flag `b`.
unfoldable Owes : Bool → DeliveryAccountability → Type 0
Owes b s = (s.protocol_v3 ≡ true) × (is_some s.pending_unsupported_error ≡ b)

none-Owes : (s : DeliveryAccountability) → Has true none s → Owes false s
unfolding Has Owes
none-Owes s h = (h.0, ap is_some h.1)

reported-Owes :
    (report : DeliveryReportPayload) (r : Step (Unit {0}))
    → IsTracked r.1
    → Has true none r.1
    → let x = and_then r (λ _ s. applied (record_report report s)) in
      Owes (is_accepted x.0 && names_unsupported report) x.1
unfolding Owes
reported-Owes report (err v, s) t h = none-Owes s h
reported-Owes report (ok _, s) t h =
    through (record_report report s) (record_report-arms report s t h)
  where
    through :
        (r : Step (Unit {0}))
        → Owes (is_accepted r.0 && names_unsupported report) r.1
        → Owes (is_accepted (applied r).0 && names_unsupported report) (applied r).1
    through (ok _, s) h = h
    through (err v, s) h = h

refused-Owes :
    (B : Type 0) (v : Violation) (r : Step (Unit {0}))
    → Has true none r.1
    → Owes false (and_then {B = B} r (λ _ s. (err v, s))).1
refused-Owes B v (err w, s) h = none-Owes s h
refused-Owes B v (ok _, s) h = none-Owes s h

never_ok :
    {B : Type 0} (v : Violation) (r : Step (Unit {0})) (b : B)
    → (and_then r (λ _ s. (err v, s))).0 ≡ ok b
    → ⊥
never_ok v (err w, s) b h = absurd (ground arith)
never_ok v (ok _, s) b h = absurd (ground arith)

module _ {V : Type 0} where
  other-Owes :
      (message : ServerMessage V) (r : Step (Unit {0}))
      → is_report message ≡ false
      → Has true none r.1
      → Owes false (and_then r (λ _. validate_content message)).1
  other-Owes message (err v, s) n h = none-Owes s h
  other-Owes message (ok _, s) n h =
      none-Owes (validate_content message s).1 (validate_content-Has true none message s n h)

  frame-Owes :
      (message : ServerMessage V) (negotiated : GameDataEncoding) (physical : Bool)
      (s : DeliveryAccountability)
      → is_report message ≡ false
      → s.protocol_v3 ≡ true
      → Owes false (validate_server_frame message negotiated physical s).1
  unfolding validate_server_frame validate_server_message
  frame-Owes message negotiated physical s n v3 =
      if_cases (λ (r : Step GameDataDisposition). Owes false r.1)
        (is_mismatch message negotiated physical) _ _
        (λ y.
          refused-Owes GameDataDisposition representation_mismatch (observe_server_message false s)
            (observe_server_message-adjacent false s v3).1)
        (λ m.
          other-Owes message (observe_server_message (is_unsupported_error message) s) n
            (observe_server_message-adjacent (is_unsupported_error message) s v3).1)

  present-Owes :
      (i : Input V) (before : Bool) (s : DeliveryAccountability)
      → IsTracked s
      → Owes before s
      → Owes (stands i before s) (present i s)
  unfolding present Owes
  present-Owes (frame (delivery_report report) negotiated physical) before s t h =
      unfold validate_server_frame in
      unfold validate_server_message in
      unfold validate_content in
      reported-Owes report (observe_server_message false s)
        (observe_server_message-IsTracked false s t) (observe_server_message-adjacent false s h.0).1
  present-Owes (frame message negotiated physical) before s t h =
      frame-Owes message negotiated physical s refl h.0
  present-Owes (binary negotiated) before s t h =
      unfold validate_physical_binary_allowed in
      if_cases (λ (r : Step (Unit {0})). Owes (not (same_encoding negotiated json) && before) r.1)
        (not (same_encoding negotiated json)) _ _ (λ y. (h.0, ground (arith, h.1)))
        (λ n.
          let none_left =
            refused-Owes (Unit {0}) physical_binary_mismatch (observe_server_message false s)
              (observe_server_message-adjacent false s h.0).1 in
          (none_left.0, none_left.1 ∙ ground arith))
  present-Owes terminal before s t h = unfold observe_terminal in (h.0, refl)

  run-Owes :
      (inputs : List (Input V)) (before : Bool) (s : DeliveryAccountability)
      → IsTracked s
      → Owes before s
      → Owes (stands_after inputs before s) (run inputs s)
  unfolding run
  run-Owes [] before s t h = h
  run-Owes (i ∷ inputs) before s t h =
      run-Owes inputs (stands i before s) (present i s) (present-IsTracked i s t)
        (present-Owes i before s t h)

  -- An accepted frame has the representation that was negotiated.
  validate_server_frame-ok :
      (message : ServerMessage V) (negotiated : GameDataEncoding) (physical : Bool)
      (s : DeliveryAccountability) (d : GameDataDisposition)
      → (validate_server_frame message negotiated physical s).0 ≡ ok d
      → (validate_server_message message s).0 ≡ ok d
  unfolding validate_server_frame
  validate_server_frame-ok message negotiated physical s d =
      if_cases
        (λ (r : Step GameDataDisposition).
          r.0 ≡ ok d → (validate_server_message message s).0 ≡ ok d)
        (is_mismatch message negotiated physical) _ _
        (λ y h. absurd (never_ok representation_mismatch (observe_server_message false s) d h))
        (λ n h. h)

  -- After any frames of a v3 connection, a frame is accepted only if it is the unsupported-format error
  -- exactly when the frame right before it was an accepted report that names a gap of that kind.
  pub run-adjacent :
      (inputs : List (Input V)) (message : ServerMessage V) (negotiated : GameDataEncoding)
      (physical : Bool) (d : GameDataDisposition)
      → (validate_server_frame message negotiated physical (run inputs (new true))).0 ≡ ok d
      → is_unsupported_error message ≡ stands_after inputs false (new true)
  unfolding validate_server_message new Owes
  run-adjacent inputs message negotiated physical d h =
      let s = run inputs (new true) in
      let owes = run-Owes inputs false (new true) (new-IsTracked true) (refl, refl) in
      let seen = observe_server_message (is_unsupported_error message) s in
      let accepted : seen.0 ≡ ok tt =
        and_then-first seen (λ _. validate_content message) d
          (validate_server_frame-ok message negotiated physical s d h) in
      let agrees = (observe_server_message-adjacent (is_unsupported_error message) s owes.0).0.0 in
      agrees accepted ∙ owes.1
