-- ===== src/Scheduler/Lookup.antt =====
-- Slots are found by their identifier and allocated in the right half.
use opendiag_firmware.Base.{
  Bool, Bool-cases, [], arith, drop, false, get_or, get_or-drop, get_or-take, if◌then◌else◌, inl,
  inr, length, length-drop, length-take, min, none, some, suc, take, true, zero, ℕ, ◌*◌, ◌+◌, ◌-◌,
  ◌<◌, ◌∙◌, ◌∷◌, ◌≡◌, ◌≢◌, ◌≤◌,
}
use opendiag_firmware.Scheduler.{
  ScheduleJob, Slots, find_from, is_unused, j2534_schedule_allocate, schedule_slots,
}

-- The loops find the first slot with the property.
find_from_lem :
    (test : ScheduleJob → Bool) (d : ScheduleJob) (i k : ℕ) (jobs : Slots)
    → find_from test i jobs ≡ some k
    → (j : ℕ) × (k ≡ i + j)
      × (j < length jobs)
      × (test (get_or jobs j d) ≡ true)
      × ((m : ℕ) → m < j → test (get_or jobs m d) ≡ false)
unfolding find_from
find_from_lem test d i k [] e = absurd (cc)
find_from_lem test d i k (job ∷ jobs) e = elim (Bool-cases (test job)) [
  | inl t ↦ (0, ground arith, omega arith, t, λ m h. absurd (omega arith))
  | inr t ↦
      (let (j, p, q, r, b) = find_from_lem test d (i + 1) k jobs (rw t at e) in
        (suc j, omega (arith, p), omega (arith, q), r, before j t b))
]
  where
    before :
        (j : ℕ)
        → test job ≡ false
        → ((m : ℕ) → m < j → test (get_or jobs m d) ≡ false)
        → (m : ℕ) → m < suc j
        → test (get_or (job ∷ jobs) m d) ≡ false
    before j t b zero h = t
    before j t b (suc m) h = b m (omega arith)

find_from-none :
    (test : ScheduleJob → Bool) (d : ScheduleJob) (i k : ℕ) (jobs : Slots)
    → find_from test i jobs ≡ none
    → k < length jobs
    → test (get_or jobs k d) ≡ false
unfolding find_from
find_from-none test d i k [] e h = absurd (omega arith)
find_from-none test d i zero (job ∷ jobs) e h = ground arith
find_from-none test d i (suc k) (job ∷ jobs) e h =
    ground (arith, find_from-none test d (i + 1) k jobs)

-- The first slot of the half that a periodic or a repeat message may use.
abbrev pub half : Bool → ℕ
half repeat = if repeat then schedule_slots else 0

-- The ten slots that the loop of `j2534_schedule_allocate` looks at.
abbrev window : Slots → Bool → Slots
window jobs repeat = take schedule_slots (drop (half repeat) jobs)

window_at :
    (jobs : Slots) (d : ScheduleJob) (repeat : Bool) (j : ℕ)
    → j < schedule_slots
    → get_or (window jobs repeat) j d ≡ get_or jobs (half repeat + j) d
window_at jobs d repeat j h =
    get_or-take schedule_slots j (drop (half repeat) jobs) d h ∙ get_or-drop (half repeat) j jobs d

length-window :
    (jobs : Slots) (repeat : Bool)
    → length (window jobs repeat) ≡ min schedule_slots (length jobs - half repeat)
length-window jobs repeat =
    omega
      (arith, length-take schedule_slots (drop (half repeat) jobs), length-drop (half repeat) jobs)

-- An allocated slot is unused and lies in the ten slots of its kind.
pub allocate_free :
    (jobs : Slots) (d : ScheduleJob) (repeat : Bool) (k : ℕ)
    → j2534_schedule_allocate jobs repeat ≡ some k
    → (half repeat ≤ k)
      × (k < half repeat + schedule_slots)
      × (k < length jobs)
      × ((get_or jobs k d).id ≡ 0)
unfolding j2534_schedule_allocate
allocate_free jobs d repeat k e =
    let (j, p, q, r, b) = find_from_lem is_unused d (half repeat) k (window jobs repeat) e in
    let size = length-window jobs repeat in
    (
      omega (arith, p),
      omega (arith, p, q, size),
      omega (arith, p, q, size),
      rw (p, ← window_at jobs d repeat j (omega (arith, q, size))) (ground (arith, r)),
    )

-- It is the lowest of them: every slot of that kind below it is in use.
allocate_first :
    (jobs : Slots) (d : ScheduleJob) (repeat : Bool) (k m : ℕ)
    → j2534_schedule_allocate jobs repeat ≡ some k
    → half repeat ≤ m
    → m < k
    → (get_or jobs m d).id ≢ 0
unfolding j2534_schedule_allocate
allocate_first jobs d repeat k m e h l u =
    let (j, p, q, r, b) = find_from_lem is_unused d (half repeat) k (window jobs repeat) e in
    let size = length-window jobs repeat in
    let e' : half repeat + (m - half repeat) ≡ m = omega arith in
    let used = b (m - half repeat) (omega (arith, p)) in
    ground (arith, used, e', window_at jobs d repeat (m - half repeat) (omega (arith, p, q, size)))

-- No slot is allocated only if all ten of the kind are in use.
pub allocate_none :
    (jobs : Slots) (d : ScheduleJob) (repeat : Bool) (j : ℕ)
    → length jobs ≡ 2 * schedule_slots
    → j2534_schedule_allocate jobs repeat ≡ none
    → j < schedule_slots
    → (get_or jobs (half repeat + j) d).id ≢ 0
unfolding j2534_schedule_allocate
allocate_none jobs d repeat j l e h =
    let found =
      find_from-none is_unused d (half repeat) j (window jobs repeat) e
        (ground (arith, length-window jobs repeat)) in
    ground (arith, found, window_at jobs d repeat j h)
