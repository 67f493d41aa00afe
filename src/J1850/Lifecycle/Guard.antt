-- ===== src/J1850/Lifecycle/Guard.antt =====
-- The callback guard, and any number of callbacks that run against one thread that stops and starts
-- them. Each atomic access is a step of its own.
use opendiag_firmware.Base.{
  Bool, List, false, get_or, if◌then◌else◌, length, replicate, set, true, ℕ, ◌+◌, ◌-◌, ◌<◌, ◌≡◌,
}

-- `j1850_callback_guard_t`.
pub record Guard : Type 0 where
  pub stopping : Bool
  pub active : ℕ

-- The accesses of `j1850_callback_enter` and `j1850_callback_exit`: the count goes up, the gate is looked
-- at, and the count goes down.
abbrev pub enter_count : Guard → Guard
enter_count g = record g { active = g.active + 1 }

abbrev pub leave_count : Guard → Guard
leave_count g = record g { active = g.active - 1 }

abbrev pub j1850_callbacks_start : Guard → Guard
j1850_callbacks_start g = record g { stopping = false }

-- The store at the start of `j1850_callbacks_stop`.
abbrev pub stop_store : Guard → Guard
stop_store g = record g { stopping = true }

-- Where a callback stands: not running, counted, refused, or past the guard.
pub data CallbackPc : Type 0 where
  outside : CallbackPc
  counted : CallbackPc
  refused : CallbackPc
  past_guard : CallbackPc

-- What a counted callback does on the state of the gate.
abbrev pub enter_look : Guard → CallbackPc
enter_look g = if g.stopping then refused else past_guard

-- `polling` is inside the loop of `j1850_callbacks_stop`, `stopped` since it has returned ESP_OK.
pub record Shop : Type 0 where
  pub guard : Guard
  pub callbacks : List CallbackPc
  pub polling : Bool
  pub stopped : Bool

abbrev pub callback_at : Shop → ℕ → CallbackPc
callback_at s i = get_or s.callbacks i outside

abbrev pub goes_to : Shop → ℕ → CallbackPc → List CallbackPc
goes_to s i pc = set s.callbacks i pc

pub data Step (s : Shop) : Shop → Type 0 where
  callback_counts :
      (i : ℕ)
      → i < length s.callbacks
      → callback_at s i ≡ outside
      → Step s (record s { guard = enter_count s.guard; callbacks = goes_to s i counted })
  callback_looks :
      (i : ℕ)
      → i < length s.callbacks
      → callback_at s i ≡ counted
      → Step s (record s { callbacks = goes_to s i (enter_look s.guard) })
  callback_refused :
      (i : ℕ)
      → i < length s.callbacks
      → callback_at s i ≡ refused
      → Step s (record s { guard = leave_count s.guard; callbacks = goes_to s i outside })
  callback_exits :
      (i : ℕ)
      → i < length s.callbacks
      → callback_at s i ≡ past_guard
      → Step s (record s { guard = leave_count s.guard; callbacks = goes_to s i outside })
  stop_begins : s.polling ≡ false → Step s (record s { guard = stop_store s.guard; polling = true })
  stop_succeeds :
      s.polling ≡ true → s.guard.active ≡ 0 → Step s (record s { polling = false; stopped = true })
  stop_times_out : s.polling ≡ true → Step s (record s { polling = false })
  callbacks_start :
      s.polling ≡ false
      → Step s (record s { guard = j1850_callbacks_start s.guard; stopped = false })

-- `n` callbacks, none of them running, and the gate open.
abbrev pub at_rest : ℕ → Shop
at_rest n = record {
  guard = record { stopping = false; active = 0 };
  callbacks = replicate n outside;
  polling = false;
  stopped = false;
}

pub data Reach (n : ℕ) : Shop → Type 0 where
  at_start : Reach n (at_rest n)
  later : {s t : Shop} → Reach n s → Step s t → Reach n t
