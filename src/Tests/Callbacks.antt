-- ===== src/Tests/Callbacks.antt =====
-- Two callbacks, one of which is past the guard when the stop begins.
use opendiag_firmware.Base.{[], arith, false, refl, true, ◌∷◌, ◌≡◌}
use opendiag_firmware.J1850.Lifecycle.Guard.{
  Reach, Shop, at_rest, at_start, callback_at, callback_counts, callback_exits, callback_looks,
  later, outside, past_guard, stop_begins, stop_succeeds,
}
use opendiag_firmware.J1850.Lifecycle.Shutdown.{is_past_guard, stopped_outside}

abbrev one_inside : Shop
one_inside = record (at_rest 2) {
  guard = record { stopping = false; active = 1 };
  callbacks = past_guard ∷ outside ∷ [];
}

abbrev shut_out : Shop
shut_out = record {
  guard = record { stopping = true; active = 0 };
  callbacks = outside ∷ outside ∷ [];
  polling = false;
  stopped = true;
}

shut_out-Reach : Reach 2 shut_out
shut_out-Reach =
    later
      (later
        (later
          (later (later at_start (callback_counts 0 (omega arith) refl))
            (callback_looks 0 (omega arith) refl))
          (stop_begins refl))
        (callback_exits 0 (omega arith) refl))
      (stop_succeeds refl refl)

stopped_outside_example : is_past_guard (callback_at shut_out 0) ≡ false
stopped_outside_example = stopped_outside 2 shut_out 0 shut_out-Reach refl
