-- ===== src/Scheduler/Choice.antt =====
-- The choice of the next message: the one that is overdue longest.
use opendiag_firmware.Base.{
  All, Bool, Bool-cases, Option, [], arith, at_or_after, false, if◌then◌else◌, inl, inr, length,
  none, some, sub32, subst, take_all, true, ℕ, ◌*◌, ◌+◌, ◌<◌, ◌∷◌, ◌≡◌, ◌≤◌, ◌⊎◌,
}
use opendiag_firmware.Scheduler.{
  ScheduleJob, Slots, is_before, is_eligible, j2534_schedule_next, next_from, prefer,
  schedule_slots,
}

-- How long a job is overdue.
abbrev pub overdue : ℕ → ScheduleJob → ℕ
overdue now job = sub32 now job.due_us

-- Times are 32-bit words.
abbrev pub Words : Slots → Type 0
Words jobs = All (λ job. job.due_us < 4294967296) jobs

-- No job that may be sent is overdue longer than `best`.
abbrev pub LongestOverdue : ℕ → Bool → ScheduleJob → Slots → Type 0
LongestOverdue now allow best jobs =
    All (λ job. (is_eligible now allow job ≡ false) ⊎ (overdue now job ≤ overdue now best)) jobs

module _ (now : ℕ) (allow : Bool) (word : now < 4294967296) where
  -- What the loop knows of the best slot so far.
  pub record IsCandidate (best : ScheduleJob) : Type 0 where
    pub fits : best.due_us < 4294967296
    pub ready : is_eligible now allow best ≡ true

  eligible_due :
      (job : ScheduleJob) → is_eligible now allow job ≡ true → at_or_after now job.due_us ≡ true
  unfolding is_eligible
  eligible_due job h = ground arith

  -- Among jobs that are due the signed comparison of their times orders them by how long they are
  -- overdue.
  before_overdue :
      (job best : ScheduleJob)
      → IsCandidate job
      → IsCandidate best
      → let chosen = if is_before job best then job else best in
        (overdue now job ≤ overdue now chosen) × (overdue now best ≤ overdue now chosen)
  unfolding is_before
  before_overdue job best p q = ground (arith, eligible_due job p.ready, eligible_due best q.ready)

  abbrev CandidateOf : Option (ℕ × ScheduleJob) → Type 0
  CandidateOf none = Unit
  CandidateOf (some (k, best)) = IsCandidate best

  abbrev AtMost : Option (ℕ × ScheduleJob) → ScheduleJob → Type 0
  AtMost none b = Unit
  AtMost (some (k, best)) b = overdue now best ≤ overdue now b

  -- An eligible job takes its place among the candidates.
  prefer_lem :
      (i : ℕ) (job b : ScheduleJob) (best : Option (ℕ × ScheduleJob))
      → IsCandidate job
      → CandidateOf best
      → CandidateOf (prefer i job best)
        × (AtMost (prefer i job best) b → AtMost best b × (overdue now job ≤ overdue now b))
  prefer_lem i job b none c h = (c, λ a. (tt, a))
  prefer_lem i job b (some (k, best)) c h = elim (Bool-cases (is_before job best)) [
    | inl e ↦ rw e (c, λ a. ground (arith, e, before_overdue job best c h))
    | inr e ↦ rw e (h, λ a. ground (arith, e, before_overdue job best c h))
  ]

  next_from-some :
      (best : Option (ℕ × ScheduleJob)) (i k : ℕ) (b : ScheduleJob) (jobs : Slots)
      → Words jobs
      → CandidateOf best
      → next_from now allow best i jobs ≡ some (k, b)
      → IsCandidate b × AtMost best b × LongestOverdue now allow b jobs
  unfolding next_from
  next_from-some none i k b [] w c e = absurd (cc)
  next_from-some (some (m, best)) i k b [] w c e =
      let same_job : best ≡ b = cc in
      subst (λ x. IsCandidate x × AtMost (some (m, best)) x × Unit) same_job (c, omega arith, tt)
  next_from-some best i k b (job ∷ jobs) w c e = elim (Bool-cases (is_eligible now allow job)) [
    | inl h ↦
        (let taken = prefer_lem i job b best (record { fits = w.0; ready = h }) c in
          let (p, q, r) =
            next_from-some (prefer i job best) (i + 1) k b jobs w.1 taken.0 (rw h at e) in
          (p, (taken.1 q).0, (inr (taken.1 q).1, r)))
    | inr h ↦
        (let (p, q, r) = next_from-some best (i + 1) k b jobs w.1 c (rw h at e) in
          (p, q, (inl h, r)))
  ]

  next_from-none :
      (i : ℕ) (best : Option (ℕ × ScheduleJob)) (jobs : Slots)
      → next_from now allow best i jobs ≡ none
      → (best ≡ none) × All (λ job. is_eligible now allow job ≡ false) jobs
  unfolding next_from
  next_from-none i best [] e = (e, tt)
  next_from-none i best (job ∷ jobs) e = elim (Bool-cases (is_eligible now allow job)) [
    | inl h ↦
        absurd (prefer_some best (next_from-none (i + 1) (prefer i job best) jobs (rw h at e)).0)
    | inr h ↦ (let (p, q) = next_from-none (i + 1) best jobs (rw h at e) in (p, (h, q)))
  ]
    where
      prefer_some : (o : Option (ℕ × ScheduleJob)) → prefer i job o ≡ none → ⊥
      prefer_some none h = cc
      prefer_some (some (k, x)) h = ground arith

-- Among the twenty slots, with 32-bit times, the message that `j2534_schedule_next` returns may be
-- sent now, and of all messages that may be
-- sent it is the one overdue longest: the signed comparisons of 32-bit times agree with the order
-- of the delays, across the wrap of the clock too.
pub next-LongestOverdue :
    (jobs : Slots) (now : ℕ) (allow : Bool) (k : ℕ) (job : ScheduleJob)
    → length jobs ≡ 2 * schedule_slots
    → now < 4294967296
    → Words jobs
    → j2534_schedule_next jobs now allow ≡ some (k, job)
    → (is_eligible now allow job ≡ true) × LongestOverdue now allow job jobs
unfolding j2534_schedule_next
next-LongestOverdue jobs now allow k job l word w e =
    let whole = take_all (2 * schedule_slots) jobs (omega arith) in
    let (p, q, r) = next_from-some now allow word none 0 k job jobs w tt (rw whole at e) in
    (p.ready, r)

-- Among the twenty slots no message is returned only if none may be sent.
pub next_none :
    (jobs : Slots) (now : ℕ) (allow : Bool)
    → length jobs ≡ 2 * schedule_slots
    → now < 4294967296
    → j2534_schedule_next jobs now allow ≡ none
    → All (λ job. is_eligible now allow job ≡ false) jobs
unfolding j2534_schedule_next
next_none jobs now allow l word e =
    let whole = take_all (2 * schedule_slots) jobs (omega arith) in
    (next_from-none now allow word 0 none jobs (rw whole at e)).1
