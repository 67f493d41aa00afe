-- ===== src/Tests/Schedules.antt =====
-- Twenty slots: one periodic message, one repeat message, and eighteen that are free.
use opendiag_firmware.Base.{
  not, ◌&&◌, ◌↔◌, All, [], arith, false, get_or, length, none, refl, replicate, some, true, ◌++◌,
  ◌+◌, ◌<◌, ◌∷◌, ◌≡◌, ◌≢◌, ◌≤◌,
}
use opendiag_firmware.Scheduler.{
  ScheduleJob, ScheduledMessage, Slots, find_from, is_before, is_eligible, j2534_schedule_allocate,
  j2534_schedule_next, j2534_schedule_transmitted, next_from, periodic, receive_job, schedule_slots,
  while,
}
use opendiag_firmware.Scheduler.Choice.{LongestOverdue, Words, next-LongestOverdue, next_none}
use opendiag_firmware.Scheduler.Lookup.{allocate_free, allocate_none, half}
use opendiag_firmware.Scheduler.Responses.{in_window, receive_transmitted_comm}

abbrev blank_message : ScheduledMessage
blank_message = record { flags = 0; handle = 0; len = 0; bytes = [] }

abbrev free_job : ScheduleJob
free_job = record {
  id = 0;
  kind = periodic;
  interval_us = 0;
  due_us = 0;
  ended_us = 0;
  created_us = 0;
  match_us = 0;
  active = false;
  pending = false;
  transmission_ended = false;
  sent = false;
  matched = false;
  have_match = false;
  message = blank_message;
  match_flags = 0;
  match_len = 0;
  mask = [];
  pattern_bytes = [];
}

abbrev periodic_job : ScheduleJob
periodic_job = record free_job { id = 1; interval_us = 10000; due_us = 4294967290; active = true }

abbrev repeat_job : ScheduleJob
repeat_job = record free_job { id = 2; kind = while; interval_us = 5000; due_us = 4; active = true }

abbrev slots : Slots
slots = (periodic_job ∷ replicate 9 free_job) ++ (repeat_job ∷ replicate 9 free_job)

slots-Words : Words slots
slots-Words = ground arith

chosen : j2534_schedule_next slots 20 true ≡ some (0, periodic_job)
unfolding j2534_schedule_next next_from is_eligible is_before
chosen = refl

next-LongestOverdue_example :
    (is_eligible 20 true periodic_job ≡ true) × LongestOverdue 20 true periodic_job slots
next-LongestOverdue_example =
    next-LongestOverdue slots 20 true 0 periodic_job refl (omega arith) slots-Words chosen

not_yet : j2534_schedule_next slots 4294967000 true ≡ none
unfolding j2534_schedule_next next_from is_eligible is_before
not_yet = refl

next_none_example : All (λ job. is_eligible 4294967000 true job ≡ false) slots
next_none_example = next_none slots 4294967000 true refl (omega arith) not_yet

allocated : j2534_schedule_allocate slots true ≡ some 11
unfolding j2534_schedule_allocate find_from
allocated = refl

allocate_free_example :
    (half true ≤ 11)
    × (11 < half true + schedule_slots)
    × (11 < length slots)
    × ((get_or slots 11 free_job).id ≡ 0)
allocate_free_example = allocate_free slots free_job true 11 allocated

abbrev full : Slots
full = replicate 20 periodic_job

full-none : j2534_schedule_allocate full true ≡ none
unfolding j2534_schedule_allocate find_from
full-none = refl

allocate_none_example : (get_or full 13 free_job).id ≢ 0
allocate_none_example = allocate_none full free_job true 3 refl full-none (omega arith)

-- A match was recorded at 250, before the transmission that ended at 200 was reported.
abbrev answered_job : ScheduleJob
answered_job = record repeat_job { have_match = true; match_us = 250 }

receive_transmitted_comm_example :
    (j2534_schedule_transmitted (receive_job answered_job true 350) 100 200
      ≡ receive_job (j2534_schedule_transmitted answered_job 100 200) true 350)
    ↔ ((true
          && in_window 200 answered_job.interval_us 250
          && not (in_window 200 answered_job.interval_us 350))
        ≡ false)
receive_transmitted_comm_example =
    receive_transmitted_comm answered_job 100 200 350 refl refl refl refl refl
