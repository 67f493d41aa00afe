-- ===== src/Transmit/Worker/Safety.antt =====
-- What holds of the worker in every interleaving of its owner, its task and the driver.
use opendiag_firmware.Base.{
  Bool, and_false, ap, arith, false, if◌then◌else◌, not, or_true, refl, true, ℕ, ◌&&◌, ◌||◌, ◌∙◌,
  ◌≡◌,
}
use opendiag_firmware.Transmit.Control.{BusResult, TxState, active, queued, same_state, withdrawn}
use opendiag_firmware.Transmit.Worker.{
  Message, TaskPc, Worker, WorkerState, bus_tx_worker_submit, chosen, done, finishing, has_loaded,
  reported, has_stamped, idle, inside, left, pending, returned, same_work, stored, waiting, woken,
}
use opendiag_firmware.Transmit.Worker.Calls.{is_pending}
use opendiag_firmware.Transmit.Worker.Invariant.{has_left, holds_message, implies, implies_elim}
use opendiag_firmware.Transmit.Worker.Steps.{Reach-IsSound}
use opendiag_firmware.Transmit.Worker.System.{Reach, System}

only_one :
    (x : TxState) (a b : Bool)
    → implies a (same_state x active) ≡ true
    → implies b (same_state x withdrawn) ≡ true
    → (a && b) ≡ false
only_one active a true h k = absurd (ground arith)
only_one active a false h k = and_false a
only_one queued true b h k = absurd (ground arith)
only_one queued false b h k = refl
only_one withdrawn true b h k = absurd (ground arith)
only_one withdrawn false b h k = refl

not_idle : (k : WorkerState) → same_work k pending ≡ true → same_work k idle ≡ false
not_idle pending e = refl
not_idle idle e = absurd (ground arith)
not_idle done e = absurd (ground arith)

is_left : (pc : TaskPc) → has_left pc ≡ true → pc ≡ left
is_left left e = refl
is_left waiting e = absurd (ground arith)
is_left woken e = absurd (ground arith)
is_left chosen e = absurd (ground arith)
is_left inside e = absurd (ground arith)
is_left (has_loaded _) e = absurd (ground arith)
is_left (has_stamped _) e = absurd (ground arith)
is_left (returned _) e = absurd (ground arith)
is_left stored e = absurd (ground arith)
is_left reported e = absurd (ground arith)
is_left finishing e = absurd (ground arith)

-- In no reachable state has a message both been admitted to the bus and been cancelled: whoever comes
-- first, the driver with `bus_tx_admit` or the owner with a cancellation that succeeds, the other fails.
pub admitted_or_recalled : (s : System) → Reach s → (s.admitted && s.recalled) ≡ false
admitted_or_recalled s r =
    let h = Reach-IsSound r in
    only_one s.worker.control.state s.admitted s.recalled h.active_if h.withdrawn_if

refusals :
    (a b d : Bool) (w : Worker) (x y z : BusResult) (taken : Worker × BusResult)
    → d ≡ false
    → (if a then (w, x) else if b then (w, y) else if not d then (w, z) else taken).0 ≡ w
refusals true b d w x y z taken e = refl
refusals false true d w x y z taken e = refl
refusals false false true w x y z taken e = absurd (ground arith)
refusals false false false w x y z taken e = refl

refused_while_busy :
    (w : Worker) (msg : Message) (flags rx_sequence : ℕ)
    → same_work w.state idle ≡ false
    → (bus_tx_worker_submit w msg flags rx_sequence).0 ≡ w
unfolding bus_tx_worker_submit
refused_while_busy w msg flags rx_sequence e = refusals _ w.stopping _ w _ _ _ _ e

-- In every reachable state in which the task has a message in its hands, from the moment it has found
-- it until it has stored the result, a submission changes nothing: the message that the driver reads,
-- and its flags, stay as they were submitted.
pub submit_while_held :
    (s : System) (msg : Message) (flags rx_sequence : ℕ)
    → Reach s
    → holds_message s.pc ≡ true
    → (bus_tx_worker_submit s.worker msg flags rx_sequence).0 ≡ s.worker
submit_while_held s msg flags rx_sequence r e =
    let busy = is_pending s.worker _ _ _ s.pc (Reach-IsSound r) e in
    refused_while_busy s.worker msg flags rx_sequence (not_idle s.worker.state busy)

-- In every reachable state in which the worker has been released, its task has left: it makes no step
-- any more, and touches no memory of the worker.
pub released_left : (s : System) → Reach s → s.released ≡ true → s.pc ≡ left
released_left s r e =
    let h = Reach-IsSound r in
    is_left s.pc (
      implies_elim (s.worker.is_exited || s.released) (has_left s.pc) h.left_if
        (ap (λ b. s.worker.is_exited || b) e ∙ or_true s.worker.is_exited))
