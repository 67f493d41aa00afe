-- ===== src/Transmit/Worker/Calls.antt =====
-- Every call of the owner and every step of the task keeps the invariant.
use opendiag_firmware.Base.{
  Bool, Bool-cases, and_false, and_true, false, inl, inr, length, ltb, not, or_false, or_true, true,
  ℕ, ◌&&◌, ◌||◌, ◌≡◌,
}
use opendiag_firmware.Transmit.Control.{bus_tx_cancel, exchange_state, is_ok, queued, same_state}
use opendiag_firmware.Transmit.Worker.{
  Message, TaskPc, Worker, bus_tx_worker_cancel, bus_tx_worker_poll, bus_tx_worker_submit,
  close_begin, done, idle, pending, same_work, tx_data_max,
}
use opendiag_firmware.Transmit.Worker.Invariant.{
  SoundWorker, clears, has_left, holds_message, implies_any, implies_elim, loaded_state, moves,
  recalls, renews,
}

module _ (w : Worker) (adm rec rel : Bool) (pc : TaskPc) (h : SoundWorker w adm rec rel pc) where
  pub submit-Sound :
      (msg : Message) (flags rx_sequence : ℕ)
      → let (w', r) = bus_tx_worker_submit w msg flags rx_sequence in
        SoundWorker w' (adm && not (is_ok r)) (rec && not (is_ok r)) rel pc
  unfolding bus_tx_worker_submit
  submit-Sound msg flags rx_sequence =
      let refused : SoundWorker w (adm && true) (rec && true) rel pc =
        rw (and_true adm, and_true rec) h in
      elim (Bool-cases (ltb tx_data_max (length msg.bytes))) [
        | inl e ↦ rw e refused
        | inr e ↦ elim (Bool-cases w.stopping) [
          | inl f ↦ rw (e, f) refused
          | inr f ↦ elim (Bool-cases (same_work w.state idle)) [
            | inl g ↦ rw (e, f, g, and_false adm, and_false rec) (renews h)
            | inr g ↦ rw (e, f, g) refused
          ]
        ]
      ]

  pub poll-Sound : SoundWorker (bus_tx_worker_poll w).0 adm rec rel pc
  unfolding bus_tx_worker_poll
  poll-Sound =
      elim (Bool-cases (
        same_work w.state idle
        || not (same_work w.state done) && (not w.control.ended || w.timing_reported))) [
          | inl e ↦ rw e h
          | inr e ↦ elim (Bool-cases (same_work w.state done)) [
            | inl f ↦ rw (e, f) (clears f h)
            | inr f ↦ rw (e, f) h
          ]
        ]

  pub cancel-Sound : let (w', ok) = bus_tx_worker_cancel w in SoundWorker w' adm (rec || ok) rel pc
  unfolding bus_tx_worker_cancel bus_tx_cancel exchange_state
  cancel-Sound =
      let kept : SoundWorker w adm (rec || false) rel pc = rw (or_false rec) h in
      elim (Bool-cases (same_work w.state pending)) [
        | inl e ↦ elim (Bool-cases (same_state w.control.state queued)) [
          | inl f ↦ rw (e, f, or_true rec) (recalls f h)
          | inr f ↦ rw (e, f) kept
        ]
        | inr e ↦ rw e kept
      ]

  -- A message that the task has is pending.
  pub is_pending : holds_message pc ≡ true → same_work w.state pending ≡ true
  is_pending e = implies_elim (holds_message pc) (same_work w.state pending) h.pending_if e

  -- The task goes on to a place where it has the message.
  pub moves_on :
      (pc' : TaskPc)
      → has_left pc ≡ false
      → holds_message pc ≡ true
      → same_state (loaded_state pc') queued ≡ true
      → SoundWorker w adm rec rel pc'
  moves_on pc' l p q = moves pc' l (rw (is_pending p) (implies_any (holds_message pc'))) q h

pub close-Sound :
    (w : Worker) (adm rec rel : Bool) (pc : TaskPc)
    → SoundWorker w adm rec rel pc
    → let (w', ok) = close_begin w in SoundWorker w' adm (rec || ok) rel pc
unfolding close_begin
close-Sound w adm rec rel pc h = cancel-Sound (record w { stopping = true }) adm rec rel pc h
