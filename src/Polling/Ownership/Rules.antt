-- ===== src/Polling/Ownership/Rules.antt =====
-- src/polling_client.rs: the frames that the client owes, over every operation.
use signal_fish_client_rust.Common.{
  ℕ, ◌≡◌, refl, ◌∙◌, ap, sym, true, false, some, List, [], ◌++◌, append_assoc, append-nil, arith,
}
use signal_fish_client_rust.Transport.{TransportFrame, TakesFrames}
use signal_fish_client_rust.Core.Policy.{Obeys}
use signal_fish_client_rust.Core.Policy.Frames.{process_frame-Obeys}
use signal_fish_client_rust.Core.State.{record_game_data_sent}
use signal_fish_client_rust.Core.Frames.{disconnect_core}
use signal_fish_client_rust.Core.Process.{process_frame}
use signal_fish_client_rust.Polling.State.{
  Environment, PollingClient, record_serialization_failure_at, refresh_queue_diagnostics_at,
  abandon_client_owned, is_closing, PollingClosePolicy, abandon, flush,
}
use signal_fish_client_rust.Polling.Outbound.{load}
use signal_fish_client_rust.Polling.Close.{
  take_inbound, begin_cycle, start_close, expire, exhaust_receive,
}
use signal_fish_client_rust.Polling.Rules.{OutboundRules}
use signal_fish_client_rust.Polling.Rules.Fixed.{
  send_round-Fixed, take_inbound-Fixed, count_sent-Fixed,
}
use signal_fish_client_rust.Polling.Rules.Client.{ClientRules, CloseRules}
use signal_fish_client_rust.Polling.Ownership.{made, waiting, owned, Owed}
use signal_fish_client_rust.Polling.Ownership.Steps.{
  send_round-owned, load-owned, drop-owned, wait-owned, land-owned,
}

module _ {V T E : Type 0} (env : Environment V T E) (log : T → List TransportFrame)
    (all : List TransportFrame) where
  -- A step that keeps what is owned.
  pub Owed-same :
      (c c' : PollingClient V T)
      → owned env log c' ≡ owned env log c
      → c'.core.snapshot.connected ≡ c.core.snapshot.connected
      → c'.close_phase ≡ c.close_phase
      → Owed env log all c
      → Owed env log all c'
  Owed-same c c' o s p h = record {
    abandoned = h.abandoned;
    sum = ap (λ frames. frames ++ h.abandoned) o ∙ h.sum;
    none_abandoned = λ e. h.none_abandoned (sym s ∙ e);
    is_open = λ e. p ∙ h.is_open (sym s ∙ e);
  }

  -- A step of a client that is not connected any more, which keeps what is owned.
  pub Owed-late :
      (c c' : PollingClient V T)
      → owned env log c' ≡ owned env log c
      → c'.core.snapshot.connected ≡ false
      → Owed env log all c
      → Owed env log all c'
  Owed-late c c' o s h = record {
    abandoned = h.abandoned;
    sum = ap (λ frames. frames ++ h.abandoned) o ∙ h.sum;
    none_abandoned = λ e. absurd (ground arith);
    is_open = λ e. absurd (ground arith);
  }

  -- A step that gives up all that waits.
  pub Owed-dropped :
      (c c' : PollingClient V T)
      → log c'.transport ≡ log c.transport
      → waiting env c' ≡ []
      → c'.core.snapshot.connected ≡ false
      → Owed env log all c
      → Owed env log all c'
  Owed-dropped c c' l w s h = record {
    abandoned = waiting env c ++ h.abandoned;
    sum =
        rw (l, w, append-nil)
          (sym (append_assoc (log c.transport) (waiting env c) h.abandoned) ∙ h.sum);
    none_abandoned = λ e. absurd (ground arith);
    is_open = λ e. absurd (ground arith);
  }

  closing-disconnected :
      (c : PollingClient V T)
      → is_closing c ≡ true
      → Owed env log all c
      → c.core.snapshot.connected ≡ false
  unfolding is_closing
  closing-disconnected c p h = ground (arith, h.is_open)

  module _ (takes : TakesFrames env.transport log) where
    pub Owed-OutboundRules : OutboundRules env (Owed env log all)
    unfolding record_game_data_sent refresh_queue_diagnostics_at record_serialization_failure_at
        load
    Owed-OutboundRules = record {
      sends = λ now frames bytes c p h.
          let fixed = send_round-Fixed env now frames bytes c in
          Owed-same c _ (send_round-owned env log takes now frames bytes c) fixed.connected
            fixed.phase h;
      loads = λ now q queue frame c n e f h.
          Owed-same c _ (load-owned env log now q queue frame c n e f) refl refl h;
      drops = λ now q queue c n e f h.
          Owed-same c _ (drop-owned env log now q queue c n e f) refl refl h;
      waits = λ c h. Owed-same c _ (wait-owned env log takes c) refl refl h;
      lands = λ b c h.
          let fixed = count_sent-Fixed b c in
          Owed-same c _ (land-owned env log takes b c) fixed.connected fixed.phase h;
    }

    take_inbound-owned :
        (c : PollingClient V T) → owned env log (take_inbound env c).1 ≡ owned env log c
    unfolding take_inbound
    take_inbound-owned c = ground (arith, takes.receives c.transport)

    pub Owed-ClientRules : ClientRules env (λ events. Owed env log all)
    unfolding is_closing exhaust_receive refresh_queue_diagnostics_at expire abandon_client_owned
        disconnect_core made
    Owed-ClientRules = record {
      outbound = λ events. Owed-OutboundRules;
      takes = λ events c h.
          let fixed = take_inbound-Fixed env c in
          Owed-same c _ (take_inbound-owned c) fixed.connected fixed.phase h;
      exhausts = λ events f c h. Owed-same c _ refl refl refl h;
      processes = λ events f c h.
          let o : Obeys c.core (process_frame env.parse env.wire f c.core) =
            process_frame-Obeys env.parse env.wire f c.core in
          Owed-same c _ refl o.connection refl h;
      cuts_off = λ events reason now c e h. Owed-dropped c _ refl refl refl h;
      starts = λ events c s h. Owed-same c _ refl refl refl h;
      refreshes = λ events now c h.
          Owed-same c _ (ap (λ frames. frames ++ waiting env c) (takes.begins c.transport)) refl
            refl h;
      expires = λ events now c p h.
          Owed-dropped c _ (takes.aborts c.transport) refl (closing-disconnected c p h) h;
      gives_up = λ events now started_at c p h.
          Owed-dropped c _ refl refl (closing-disconnected c (ground arith) h) h;
      finishes =
          λ events started_at c p h. Owed-late c _ refl (closing-disconnected c (ground arith) h) h;
      closes = λ events started_at c p h.
          let same = ap (λ frames. frames ++ waiting env c) (takes.closes c.transport) in
          (
            Owed-same c _ same refl refl h,
            Owed-late c _ same (closing-disconnected c (ground arith) h) h,
          );
    }

    pub Owed-CloseRules : CloseRules env (λ events. Owed env log all)
    unfolding abandon_client_owned disconnect_core made refresh_queue_diagnostics_at
    Owed-CloseRules = record {
      shuts = λ events c p s h. Owed-late c _ refl s h;
      leaves = λ events now c p s h. leaves c.options.close_policy now c h;
    }
      where
        leaves :
            (policy : PollingClosePolicy) (now : ℕ) (c : PollingClient V T)
            → Owed env log all c
            → Owed env log all (
                begin_cycle env (
                  start_close env policy now (record c {
                    core = (disconnect_core {V = V} (some "client closed") c.core).1;
                  })))
        leaves abandon now c h = Owed-dropped c _ (takes.begins c.transport) refl refl h
        leaves flush now c h =
            Owed-late c _ (ap (λ frames. frames ++ waiting env c) (takes.begins c.transport)) refl h
