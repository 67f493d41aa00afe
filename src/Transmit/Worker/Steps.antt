-- ===== src/Transmit/Worker/Steps.antt =====
-- Every step keeps the invariant.
use opendiag_firmware.Base.{
  Bool, Bool-cases, arith, false, if◌then◌else◌, inl, inr, not, or_false, or_true, refl, subst,
  true, ℕ, ◌&&◌, ◌==◌, ◌||◌, ◌≡◌,
}
use opendiag_firmware.Transmit.Control.{
  TxState, active, admit_exchange, admit_load, bus_tx_cancelled, cancelled, exchange_state, queued,
  same_state, withdrawn,
}
use opendiag_firmware.Transmit.Worker.{
  TaskPc, chosen, done, finishing, has_loaded, has_stamped, inside, pending, reported, returned,
  same_work, stored, task_choose, waiting, woken,
}
use opendiag_firmware.Transmit.Worker.Calls.{
  cancel-Sound, close-Sound, moves_on, poll-Sound, submit-Sound,
}
use opendiag_firmware.Transmit.Worker.Invariant.{
  IsSound, SoundWorker, admits, finishes, holds_message, implies, leaves, loaded_state, moves,
  readmits, releases,
}
use opendiag_firmware.Transmit.Worker.System.{
  Reach, Step, System, after_exchange, after_load, at_start, cancel, close_ends, close_starts,
  driver_ends, driver_exchanges, driver_loads, driver_returns, driver_stamps, later, poll, start,
  submit, task_chooses, task_finishes, task_goes_on, task_leaves, task_looks, task_signals,
  task_stores, task_wakes,
}

looks : (b : Bool) → implies (holds_message (if b then chosen else finishing)) b ≡ true
looks true = refl
looks false = refl

looks_queued :
    (b : Bool) → same_state (loaded_state (if b then chosen else finishing)) queued ≡ true
looks_queued true = refl
looks_queued false = refl

chooses_queued :
    (b : Bool) → same_state (loaded_state (if b then returned cancelled else inside)) queued ≡ true
chooses_queued true = refl
chooses_queued false = refl

is_queued : (x : TxState) → same_state x queued ≡ true → x ≡ queued
is_queued queued e = refl
is_queued active e = absurd (ground arith)
is_queued withdrawn e = absurd (ground arith)

-- The state that `admit_load` goes on with is `queued`.
goes_on_queued :
    (x : TxState)
    → same_state x withdrawn ≡ false
    → same_state x active ≡ false
    → same_state x queued ≡ true
goes_on_queued queued e f = refl
goes_on_queued active e f = absurd (ground arith)
goes_on_queued withdrawn e f = absurd (ground arith)

module _ (s : System) (h : IsSound s) where
  at_place : (pc : TaskPc) → s.pc ≡ pc → SoundWorker s.worker s.admitted s.recalled s.released pc
  at_place pc e = subst (SoundWorker s.worker s.admitted s.recalled s.released) e h

  load-IsSound :
      (rx_sequence : ℕ)
      → s.pc ≡ inside
      → IsSound (after_load s (admit_load s.worker.control rx_sequence))
  unfolding admit_load
  load-IsSound rx_sequence e =
      let c = s.worker.control in
      let k = at_place inside e in
      let same : SoundWorker s.worker (s.admitted || false) s.recalled s.released inside =
        rw (or_false s.admitted) k in
      elim (Bool-cases (same_state c.state withdrawn)) [
        | inl a ↦ rw a same
        | inr a ↦ elim (Bool-cases (same_state c.state active)) [
          | inl b ↦ rw (a, b) (readmits b k)
          | inr b ↦ elim (Bool-cases (c.check_rx && not (c.rx_sequence == rx_sequence))) [
            | inl f ↦ rw (a, b, f) same
            | inr f ↦
                rw (a, b, f)
                  (moves_on s.worker _ _ _ inside k (has_loaded c.state) refl refl
                    (goes_on_queued c.state a b))
          ]
        ]
      ]

  exchange-IsSound :
      (state : TxState)
      → s.pc ≡ has_stamped state
      → IsSound (after_exchange s (admit_exchange s.worker.control state))
  unfolding admit_exchange exchange_state
  exchange-IsSound state e =
      let c = s.worker.control in
      let k = at_place (has_stamped state) e in
      let was : state ≡ queued = is_queued state k.queued_if in
      let there : SoundWorker s.worker s.admitted s.recalled s.released inside =
        moves_on s.worker _ _ _ (has_stamped state) k inside refl refl refl in
      elim (Bool-cases (same_state c.state queued)) [
        | inl f ↦ rw (was, f, or_true s.admitted) (admits f there)
        | inr f ↦ rw (was, f, or_false s.admitted) there
      ]

pub Step-IsSound : {s t : System} → Step s t → IsSound s → IsSound t
Step-IsSound {s} (submit msg flags rx_sequence r) h =
    submit-Sound s.worker _ _ _ s.pc h msg flags rx_sequence
Step-IsSound {s} (poll r) h = poll-Sound s.worker _ _ _ s.pc h
Step-IsSound {s} (cancel r) h = cancel-Sound s.worker _ _ _ s.pc h
Step-IsSound {s} (close_starts r) h = close-Sound s.worker _ _ _ s.pc h
Step-IsSound {s} (close_ends r e) h = releases e h
Step-IsSound {s} (task_wakes e f) h = moves woken refl refl refl (at_place s h waiting e)
Step-IsSound {s} (task_looks e) h =
    let b = same_work s.worker.state pending in
    moves (if b then chosen else finishing) refl (looks b) (looks_queued b) (at_place s h woken e)
Step-IsSound {s} (task_chooses e) h =
    moves_on s.worker _ _ _ chosen (at_place s h chosen e) (task_choose s.worker) refl refl
      (chooses_queued (bus_tx_cancelled s.worker.control))
Step-IsSound {s} (task_stores r e) h =
    moves_on s.worker _ _ _ (returned r) (at_place s h (returned r) e) stored refl refl refl
Step-IsSound {s} (task_finishes e) h =
    finishes done refl (moves reported refl refl refl (at_place s h stored e))
Step-IsSound {s} (task_signals e) h = moves finishing refl refl refl (at_place s h reported e)
Step-IsSound {s} (task_goes_on e f) h = moves waiting refl refl refl (at_place s h finishing e)
Step-IsSound {s} (task_leaves e f) h = leaves true s.released h
Step-IsSound {s} (driver_loads rx_sequence e) h = load-IsSound s h rx_sequence e
Step-IsSound {s} (driver_stamps state now e) h =
    let k = at_place s h (has_loaded state) e in
    moves_on s.worker _ _ _ (has_loaded state) k (has_stamped state) refl refl k.queued_if
Step-IsSound {s} (driver_exchanges state e) h = exchange-IsSound s h state e
Step-IsSound {s} (driver_ends now e) h = h
Step-IsSound {s} (driver_returns r e) h =
    moves_on s.worker _ _ _ inside (at_place s h inside e) (returned r) refl refl refl

start-IsSound : IsSound start
start-IsSound = record {
  active_if = refl;
  withdrawn_if = refl;
  pending_if = refl;
  queued_if = refl;
  left_if = refl;
}

pub Reach-IsSound : {s : System} → Reach s → IsSound s
Reach-IsSound at_start = start-IsSound
Reach-IsSound (later r step) = Step-IsSound step (Reach-IsSound r)
