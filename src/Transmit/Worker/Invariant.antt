-- ===== src/Transmit/Worker/Invariant.antt =====
-- What always holds of a worker, its task and its message.
use opendiag_firmware.Base.{Bool, arith, false, not, refl, true, ◌||◌, ◌≡◌}
use opendiag_firmware.Transmit.Control.{TxState, active, queued, same_state, withdrawn}
use opendiag_firmware.Transmit.Worker.{
  TaskPc, Worker, WorkerState, done, finishing, has_loaded, has_stamped, idle, left, pending,
  reported, same_work, waiting, woken,
}
use opendiag_firmware.Transmit.Worker.System.{System}

abbrev pub implies : Bool → Bool → Bool
implies a b = not a || b

-- The task has been given a message and has not finished it.
abbrev pub holds_message : TaskPc → Bool
holds_message waiting = false
holds_message woken = false
holds_message reported = false
holds_message finishing = false
holds_message left = false
holds_message _ = true

abbrev pub loaded_state : TaskPc → TxState
loaded_state (has_loaded state) = state
loaded_state (has_stamped state) = state
loaded_state _ = queued

abbrev pub has_left : TaskPc → Bool
has_left left = true
has_left _ = false

-- On the parts that matter: the states of the control and of the worker, whether the task has said that
-- it has exited, what has happened to the message, and the place of the task.
pub record Sound (x : TxState) (k : WorkerState) (ex adm rec rel : Bool) (pc : TaskPc)
    : Type 0 where
  pub active_if : implies adm (same_state x active) ≡ true
  pub withdrawn_if : implies rec (same_state x withdrawn) ≡ true
  pub pending_if : implies (holds_message pc) (same_work k pending) ≡ true
  pub queued_if : same_state (loaded_state pc) queued ≡ true
  pub left_if : implies (ex || rel) (has_left pc) ≡ true

abbrev pub SoundWorker : Worker → (admitted recalled released : Bool) → TaskPc → Type 0
SoundWorker w admitted recalled released pc =
    Sound w.control.state w.state w.is_exited admitted recalled released pc

abbrev pub IsSound : System → Type 0
IsSound s = SoundWorker s.worker s.admitted s.recalled s.released s.pc

pub implies_any : (a : Bool) → implies a true ≡ true
implies_any true = refl
implies_any false = refl

pub implies_elim : (a b : Bool) → implies a b ≡ true → a ≡ true → b ≡ true
implies_elim true b h e = h
implies_elim false b h e = absurd (ground arith)

-- A state is only one of the three.
only_queued :
    (x : TxState) (a : Bool)
    → same_state x queued ≡ true
    → implies a (same_state x active) ≡ true
    → implies a false ≡ true
only_queued queued a e h = h
only_queued active a e h = absurd (ground arith)
only_queued withdrawn a e h = absurd (ground arith)

only_queued' :
    (x : TxState) (a : Bool)
    → same_state x queued ≡ true
    → implies a (same_state x withdrawn) ≡ true
    → implies a false ≡ true
only_queued' queued a e h = h
only_queued' active a e h = absurd (ground arith)
only_queued' withdrawn a e h = absurd (ground arith)

only_done :
    (k : WorkerState) (a : Bool)
    → same_work k done ≡ true
    → implies a (same_work k pending) ≡ true
    → implies a false ≡ true
only_done done a e h = h
only_done idle a e h = absurd (ground arith)
only_done pending a e h = absurd (ground arith)

module _ {x : TxState} {k : WorkerState} {ex adm rec rel : Bool} {pc : TaskPc} where
  -- The message is withdrawn while it is queued.
  pub recalls :
      same_state x queued ≡ true
      → Sound x k ex adm rec rel pc
      → Sound withdrawn k ex adm true rel pc
  recalls e h = record {
    active_if = only_queued x adm e h.active_if;
    withdrawn_if = refl;
    pending_if = h.pending_if;
    queued_if = h.queued_if;
    left_if = h.left_if;
  }

  -- A new message is queued.
  pub renews : Sound x k ex adm rec rel pc → Sound queued pending ex false false rel pc
  renews h = record {
    active_if = refl;
    withdrawn_if = refl;
    pending_if = implies_any (holds_message pc);
    queued_if = h.queued_if;
    left_if = h.left_if;
  }

  -- The result of a finished message is taken.
  pub clears :
      same_work k done ≡ true → Sound x k ex adm rec rel pc → Sound x idle ex adm rec rel pc
  clears e h = record {
    active_if = h.active_if;
    withdrawn_if = h.withdrawn_if;
    pending_if = only_done k (holds_message pc) e h.pending_if;
    queued_if = h.queued_if;
    left_if = h.left_if;
  }

  -- The driver is let in while the message is queued.
  pub admits :
      same_state x queued ≡ true → Sound x k ex adm rec rel pc → Sound active k ex true rec rel pc
  admits e h = record {
    active_if = refl;
    withdrawn_if = only_queued' x rec e h.withdrawn_if;
    pending_if = h.pending_if;
    queued_if = h.queued_if;
    left_if = h.left_if;
  }

  -- It asks once more.
  pub readmits :
      same_state x active ≡ true
      → Sound x k ex adm rec rel pc
      → Sound x k ex (adm || true) rec rel pc
  readmits e h = record {
    active_if = rw e (implies_any (adm || true));
    withdrawn_if = h.withdrawn_if;
    pending_if = h.pending_if;
    queued_if = h.queued_if;
    left_if = h.left_if;
  }

  -- The state of the worker changes while the task has no message.
  pub finishes :
      (k' : WorkerState)
      → holds_message pc ≡ false
      → Sound x k ex adm rec rel pc
      → Sound x k' ex adm rec rel pc
  finishes k' e h = record {
    active_if = h.active_if;
    withdrawn_if = h.withdrawn_if;
    pending_if = rw e refl;
    queued_if = h.queued_if;
    left_if = h.left_if;
  }

  -- The worker is released once the task has said that it has exited.
  pub releases : ex ≡ true → Sound x k ex adm rec rel pc → Sound x k ex adm rec true pc
  releases e h = record {
    active_if = h.active_if;
    withdrawn_if = h.withdrawn_if;
    pending_if = h.pending_if;
    queued_if = h.queued_if;
    left_if =
        (let gone : has_left pc ≡ true =
            implies_elim (ex || rel) (has_left pc) h.left_if (rw e refl) in
          rw gone (implies_any (ex || true)));
  }

  -- The task leaves.
  pub leaves : (ex' rel' : Bool) → Sound x k ex adm rec rel pc → Sound x k ex' adm rec rel' left
  leaves ex' rel' h = record {
    active_if = h.active_if;
    withdrawn_if = h.withdrawn_if;
    pending_if = refl;
    queued_if = refl;
    left_if = implies_any (ex' || rel');
  }

  -- The task goes on to another place, and has not left.
  pub moves :
      (pc' : TaskPc)
      → has_left pc ≡ false
      → implies (holds_message pc') (same_work k pending) ≡ true
      → same_state (loaded_state pc') queued ≡ true
      → Sound x k ex adm rec rel pc
      → Sound x k ex adm rec rel pc'
  moves pc' l p q h = record {
    active_if = h.active_if;
    withdrawn_if = h.withdrawn_if;
    pending_if = p;
    queued_if = q;
    left_if =
        (let e : implies (ex || rel) false ≡ true = rw (← l) h.left_if in
          stays (ex || rel) (has_left pc') e);
  }
    where
      stays : (a b : Bool) → implies a false ≡ true → implies a b ≡ true
      stays true b e = absurd (ground arith)
      stays false b e = refl
