-- ===== src/Scheduler/Responses.antt =====
-- Transmissions and the responses to them: reports that arrive twice, and in either order.
use opendiag_firmware.Base.{
  Bool, ap, arith, at_or_after, false, not, true, u32, ℕ, ◌&&◌, ◌+◌, ◌↔◌, ◌≡◌,
}
use opendiag_firmware.Scheduler.{ScheduleJob, j2534_schedule_transmitted, receive_job, while}

-- A report of the same end of transmission changes nothing the second time, whatever start it
-- names.
transmitted_twice :
    (job : ScheduleJob) (started again ended : ℕ)
    → let reported = j2534_schedule_transmitted job started ended in
      j2534_schedule_transmitted reported again ended ≡ reported
unfolding j2534_schedule_transmitted
transmitted_twice job started again ended = ground arith

-- Does a response at `t` count for a transmission that ended at `ended`, with the given interval?
abbrev pub in_window : ℕ → ℕ → ℕ → Bool
in_window ended interval t = at_or_after t ended && at_or_after (u32 (ended + interval)) t

-- A matching response after the job was created and the report of the transmission that it answers
-- may arrive in either order, for an active while job of which no transmission has been reported:
-- both orders lead to the same state exactly when no match that was recorded before lies in the
-- interval after the transmission, or the response lies there too.
pub receive_transmitted_comm :
    (job : ScheduleJob) (started ended t : ℕ)
    → job.active ≡ true
    → job.kind ≡ while
    → job.sent ≡ false
    → job.transmission_ended ≡ false
    → at_or_after t job.created_us ≡ true
    → (j2534_schedule_transmitted (receive_job job true t) started ended
        ≡ receive_job (j2534_schedule_transmitted job started ended) true t)
      ↔ ((job.have_match
            && in_window ended job.interval_us job.match_us
            && not (in_window ended job.interval_us t))
          ≡ false)
unfolding j2534_schedule_transmitted receive_job
receive_transmitted_comm job started ended t a k s e c = (
  λ h. (let m = ap (λ (j : ScheduleJob). j.matched) h in ground (arith, m)),
  λ h. ground (arith, h),
)
