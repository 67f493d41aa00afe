-- ===== src/Scheduler.antt =====
-- main/j2534_scheduler.h and main/j2534_scheduler.c: the periodic and repeat messages of J2534. A
-- pointer to a job is its index among the scheduler's slots; the first ten slots are for periodic
-- messages, the last ten for repeat messages.
pub mod Lookup
pub mod Choice
pub mod Responses
use opendiag_firmware.Base.{
  Bool, List, Option, [], at_or_after, bit_and, drop, false, get_or, if◌then◌else◌, ltb, map, none,
  not, some, suc, take, true, u32, zero, ℕ, ◌&&◌, ◌*◌, ◌++◌, ◌+◌, ◌==◌, ◌||◌, ◌∷◌,
}

-- `j2534_schedule_kind_t`.
pub data ScheduleKind : Type 0 where
  periodic until while : ScheduleKind

-- `j2534_scheduled_message_t`.
pub record ScheduledMessage : Type 0 where
  pub flags : ℕ
  pub handle : ℕ
  pub len : ℕ
  pub bytes : List ℕ

-- `j2534_schedule_job_t`.
pub record ScheduleJob : Type 0 where
  pub id : ℕ
  pub kind : ScheduleKind
  pub interval_us : ℕ
  pub due_us : ℕ
  pub ended_us : ℕ
  pub created_us : ℕ
  pub match_us : ℕ
  pub active : Bool
  pub pending : Bool
  pub transmission_ended : Bool
  pub sent : Bool
  pub matched : Bool
  pub have_match : Bool
  pub message : ScheduledMessage
  pub match_flags : ℕ
  pub match_len : ℕ
  pub mask : List ℕ
  pub pattern_bytes : List ℕ

-- `J2534_SCHEDULE_SLOTS`, and the slots of `j2534_scheduler_t`.
abbrev pub schedule_slots : ℕ
schedule_slots = 10

abbrev pub Slots : Type 0
Slots = List ScheduleJob

abbrev pub is_periodic : ScheduleKind → Bool
is_periodic periodic = true
is_periodic _ = false

abbrev pub is_until : ScheduleKind → Bool
is_until until = true
is_until _ = false

abbrev pub is_while : ScheduleKind → Bool
is_while while = true
is_while _ = false

-- The loops that return the first slot with a property, from the slot with index `i` on.
unfoldable pub find_from : (ScheduleJob → Bool) → ℕ → Slots → Option ℕ
find_from test i [] = none
find_from test i (job ∷ jobs) = if test job then some i else find_from test (i + 1) jobs

abbrev pub has_id : ℕ → ScheduleJob → Bool
has_id id job = not (id == 0) && job.id == id

unfoldable pub j2534_schedule_find : Slots → ℕ → Option ℕ
j2534_schedule_find jobs id = find_from (has_id id) 0 (take (2 * schedule_slots) jobs)

abbrev pub is_unused : ScheduleJob → Bool
is_unused job = job.id == 0

unfoldable pub j2534_schedule_allocate : Slots → Bool → Option ℕ
j2534_schedule_allocate jobs repeat =
    let start = if repeat then schedule_slots else 0 in
    find_from is_unused start (take schedule_slots (drop start jobs))

-- The jobs that the loop of `j2534_schedule_next` does not skip.
unfoldable pub is_eligible : ℕ → Bool → ScheduleJob → Bool
is_eligible now allow_repeat job = not (
    not job.active
    || (job.pending
        || (not (at_or_after now job.due_us) || not allow_repeat && not (is_periodic job.kind))))

-- Is the job to be preferred to the one found so far?
unfoldable pub is_before : ScheduleJob → ScheduleJob → Bool
is_before job best =
    not (at_or_after job.due_us best.due_us)
    || job.due_us == best.due_us && not (at_or_after job.id best.id)

abbrev pub prefer : ℕ → ScheduleJob → Option (ℕ × ScheduleJob) → Option (ℕ × ScheduleJob)
prefer i job none = some (i, job)
prefer i job (some (k, best)) = if is_before job best then some (i, job) else some (k, best)

-- The loop, with the best slot so far and its job.
unfoldable pub next_from :
    ℕ → Bool → Option (ℕ × ScheduleJob) → ℕ → Slots → Option (ℕ × ScheduleJob)
next_from now allow_repeat best i [] = best
next_from now allow_repeat best i (job ∷ jobs) =
    next_from now allow_repeat
      (if is_eligible now allow_repeat job then prefer i job best else best) (i + 1) jobs

unfoldable pub j2534_schedule_next : Slots → ℕ → Bool → Option (ℕ × ScheduleJob)
j2534_schedule_next jobs now allow_repeat =
    next_from now allow_repeat none 0 (take (2 * schedule_slots) jobs)

-- The comparison of `n` bytes under the mask.
unfoldable pub masked_eq : ℕ → List ℕ → List ℕ → List ℕ → ℕ → Bool
masked_eq zero bytes mask pattern i = true
masked_eq (suc n) bytes mask pattern i =
    let rest = masked_eq n bytes mask pattern (i + 1) in
    if not (bit_and (get_or bytes i 0) (get_or mask i 0) == get_or pattern i 0) then false else rest

-- `matches`: `len` bytes received with `flags`.
unfoldable pub job_matches : ScheduleJob → List ℕ → ℕ → ℕ → Bool
job_matches job bytes len flags =
    if ltb len job.match_len || not (flags == job.match_flags)
    then false
    else masked_eq job.match_len bytes job.mask job.pattern_bytes 0

-- One turn of the loop of `j2534_schedule_receive`, with the outcome of `matches`.
unfoldable pub receive_job : ScheduleJob → Bool → ℕ → ScheduleJob
receive_job job match timestamp =
    let seen = record job { have_match = true; match_us = timestamp } in
    if not job.active || not (at_or_after timestamp job.created_us)
    then job
    else if is_until job.kind && match || is_while job.kind && not match
    then record job { active = false }
    else if match
    then (if job.sent && (at_or_after timestamp job.ended_us && at_or_after job.due_us timestamp)
        then record seen { matched = true }
        else seen)
    else job

-- A loop over the repeat slots that changes each job by itself.
unfoldable pub on_repeats : (ScheduleJob → ScheduleJob) → Slots → Slots
on_repeats f jobs =
    take schedule_slots jobs ++ map f (take schedule_slots (drop schedule_slots jobs))

unfoldable pub j2534_schedule_receive : Slots → List ℕ → ℕ → ℕ → ℕ → Slots
j2534_schedule_receive jobs bytes len flags timestamp =
    on_repeats (λ job. receive_job job (job_matches job bytes len flags) timestamp) jobs

unfoldable pub expire_job : ℕ → ScheduleJob → ScheduleJob
expire_job now job =
    if job.active
      && (is_while job.kind
          && (job.sent
              && ((not job.pending || job.transmission_ended)
                  && (not job.matched && at_or_after now job.due_us))))
    then record job { active = false }
    else job

unfoldable pub j2534_schedule_expire : Slots → ℕ → Slots
j2534_schedule_expire jobs now = on_repeats (expire_job now) jobs

unfoldable pub j2534_schedule_transmitted : ScheduleJob → ℕ → ℕ → ScheduleJob
j2534_schedule_transmitted job started ended =
    let due = u32 ((if is_periodic job.kind then started else ended) + job.interval_us) in
    if job.transmission_ended && job.ended_us == ended then job else record job {
      transmission_ended = true;
      sent = true;
      ended_us = ended;
      due_us = due;
      matched = job.have_match && (at_or_after job.match_us ended && at_or_after due job.match_us);
    }

unfoldable pub j2534_schedule_defer : ScheduleJob → ScheduleJob
j2534_schedule_defer job = record job { pending = false }

unfoldable pub j2534_schedule_complete : ScheduleJob → Bool → ℕ → ℕ → ScheduleJob
unfolding j2534_schedule_transmitted
j2534_schedule_complete job success started ended =
    let idle = record job { pending = false } in
    if not success && not (is_periodic job.kind)
    then record idle { active = false }
    else j2534_schedule_transmitted idle started ended

unfoldable pub j2534_schedule_receive_lost : Slots → Slots
j2534_schedule_receive_lost jobs = on_repeats (λ job. record job { active = false }) jobs
