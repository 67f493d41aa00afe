-- ===== src/J1850/Lifecycle/Shutdown.antt =====
-- Once the callbacks have been stopped, none is past the guard.
use opendiag_firmware.Base.{
  Bool, List, [], ap, arith, false, get_or, if◌then◌else◌, inl, inr, length, refl, replicate, set,
  suc, sym, true, zero, ℕ, ◌+◌, ◌-◌, ◌<◌, ◌∷◌, ◌≡◌, ◌≤◌, ◌⊎◌,
}
use opendiag_firmware.J1850.Lifecycle.Guard.{
  CallbackPc, Guard, Reach, Shop, Step, at_start, callback_at, callback_counts, callback_exits,
  callback_looks, callback_refused, callbacks_start, counted, enter_count, enter_look, goes_to,
  later, leave_count, outside, past_guard, refused, stop_begins, stop_succeeds, stop_times_out,
}

weight : CallbackPc → ℕ
weight outside = 0
weight _ = 1

inside_weight : CallbackPc → ℕ
inside_weight past_guard = 1
inside_weight _ = 0

total : (CallbackPc → ℕ) → List CallbackPc → ℕ
unfolding weight
total f [] = 0
total f (c ∷ cs) = f c + total f cs

-- One callback goes on: the total changes by its weights.
total-set :
    (f : CallbackPc → ℕ) (cs : List CallbackPc) (i : ℕ) (pc : CallbackPc)
    → i < length cs
    → total f (set cs i pc) + f (get_or cs i outside) ≡ total f cs + f pc
unfolding total
total-set f [] i pc h = absurd (omega arith)
total-set f (c ∷ cs) zero pc h = omega arith
total-set f (c ∷ cs) (suc i) pc h = omega (arith, total-set f cs i pc (omega arith))

total_at :
    (f : CallbackPc → ℕ) (cs : List CallbackPc) (i : ℕ)
    → f outside ≡ 0
    → f (get_or cs i outside) ≤ total f cs
unfolding total
total_at f [] i e = omega (arith, e)
total_at f (c ∷ cs) zero e = omega arith
total_at f (c ∷ cs) (suc i) e = omega (arith, total_at f cs i e)

total-replicate : (f : CallbackPc → ℕ) (n : ℕ) → f outside ≡ 0 → total f (replicate n outside) ≡ 0
unfolding total
total-replicate f zero e = refl
total-replicate f (suc n) e = omega (arith, e, total-replicate f n e)

inside-counted : (cs : List CallbackPc) → total inside_weight cs ≤ total weight cs
unfolding total inside_weight weight
inside-counted [] = omega arith
inside-counted (outside ∷ cs) = omega (arith, inside-counted cs)
inside-counted (counted ∷ cs) = omega (arith, inside-counted cs)
inside-counted (refused ∷ cs) = omega (arith, inside-counted cs)
inside-counted (past_guard ∷ cs) = omega (arith, inside-counted cs)

-- The count is that of the callbacks that have entered; while the loop polls, the gate is shut; and once
-- they have been stopped, nobody is past it.
record Sound (s : Shop) : Type 0 where
  counts : s.guard.active ≡ total weight s.callbacks
  polls : (s.polling ≡ false) ⊎ (s.guard.stopping ≡ true)
  shut : (s.stopped ≡ false) ⊎ (s.guard.stopping ≡ true) × (total inside_weight s.callbacks ≡ 0)

-- A callback goes on, and is not newly past the guard.
module _ (s : Shop) (h : Sound s) (i : ℕ) (l : i < length s.callbacks) where
  moved :
      (g : Guard) (pc : CallbackPc)
      → g.stopping ≡ s.guard.stopping
      → g.active + weight (callback_at s i) ≡ s.guard.active + weight pc
      → (s.guard.stopping ≡ false) ⊎ (inside_weight pc ≤ inside_weight (callback_at s i))
      → Sound (record s { guard = g; callbacks = goes_to s i pc })
  moved g pc e f k = record {
    counts = omega (arith, f, h.counts, total-set weight s.callbacks i pc l);
    polls = rw e h.polls;
    shut =
        (let q = total-set inside_weight s.callbacks i pc l in
          rw e (still_shut _ _ _ _ _ _ h.shut k q));
  }
    where
      still_shut :
          (stopped stopping : Bool) (a b u v : ℕ)
          → (stopped ≡ false) ⊎ (stopping ≡ true) × (a ≡ 0)
          → (stopping ≡ false) ⊎ (u ≤ v)
          → b + v ≡ a + u
          → (stopped ≡ false) ⊎ (stopping ≡ true) × (b ≡ 0)
      still_shut stopped stopping a b u v (inl e') k' q = inl e'
      still_shut stopped stopping a b u v (inr (e', z)) (inl f') q = absurd (ground arith)
      still_shut stopped stopping a b u v (inr (e', z)) (inr m) q = inr (e', omega (arith, z, m, q))

look_weight : (b : Bool) → weight (if b then refused else past_guard) ≡ 1
unfolding weight
look_weight true = refl
look_weight false = refl

look_inside :
    (b : Bool) (n : ℕ) → (b ≡ false) ⊎ (inside_weight (if b then refused else past_guard) ≤ n)
unfolding inside_weight
look_inside true n = inr (omega arith)
look_inside false n = inl refl

is_shut : (a b : Bool) → (a ≡ false) ⊎ (b ≡ true) → a ≡ true → b ≡ true
is_shut a b (inl e) p = absurd (ground arith)
is_shut a b (inr f) p = f

shut_again :
    (a b : Bool) (n : ℕ)
    → (a ≡ false) ⊎ (b ≡ true) × (n ≡ 0)
    → (a ≡ false) ⊎ (true ≡ true) × (n ≡ 0)
shut_again a b n (inl e) = inl e
shut_again a b n (inr (f, z)) = inr (refl, z)

-- The callback that goes out was counted.
leaves_count :
    (s : Shop) (i : ℕ)
    → Sound s
    → weight (callback_at s i) ≡ 1
    → s.guard.active - 1 + weight (callback_at s i) ≡ s.guard.active + weight outside
unfolding weight
leaves_count s i h e = omega (arith, e, total_at weight s.callbacks i refl, h.counts)

Step-Sound : {s t : Shop} → Step s t → Sound s → Sound t
unfolding weight inside_weight
Step-Sound {s} (callback_counts i l e) h =
    moved s h i l (enter_count s.guard) counted refl (rw e (omega arith)) (inr (omega arith))
Step-Sound {s} (callback_looks i l e) h =
    moved s h i l s.guard (enter_look s.guard) refl
      (omega (arith, ap weight e, look_weight s.guard.stopping))
      (look_inside s.guard.stopping (inside_weight (callback_at s i)))
Step-Sound {s} (callback_refused i l e) h =
    moved s h i l (leave_count s.guard) outside refl (leaves_count s i h (ap weight e))
      (inr (omega arith))
Step-Sound {s} (callback_exits i l e) h =
    moved s h i l (leave_count s.guard) outside refl (leaves_count s i h (ap weight e))
      (inr (omega arith))
Step-Sound {s} (stop_begins p) h = record {
  counts = h.counts;
  polls = inr refl;
  shut = shut_again _ _ _ h.shut;
}
Step-Sound {s} (stop_succeeds p e) h = record {
  counts = h.counts;
  polls = inl refl;
  shut = inr (
    is_shut s.polling s.guard.stopping h.polls p,
    omega (arith, e, h.counts, inside-counted s.callbacks),
  );
}
Step-Sound {s} (stop_times_out p) h = record { counts = h.counts; polls = inl refl; shut = h.shut }
Step-Sound {s} (callbacks_start p) h = record { counts = h.counts; polls = inl p; shut = inl refl }

Reach-Sound : {n : ℕ} {s : Shop} → Reach n s → Sound s
Reach-Sound {n} at_start = record {
  counts = sym (total-replicate weight n (unfold weight in refl));
  polls = inl refl;
  shut = inl refl;
}
Reach-Sound (later r step) = Step-Sound step (Reach-Sound r)

pub is_past_guard : CallbackPc → Bool
is_past_guard past_guard = true
is_past_guard _ = false

weightless : (pc : CallbackPc) → inside_weight pc ≡ 0 → is_past_guard pc ≡ false
unfolding inside_weight is_past_guard
weightless outside e = refl
weightless counted e = refl
weightless refused e = refl
weightless past_guard e = absurd (omega (arith, e))

-- Once `j1850_callbacks_stop` has returned ESP_OK, and until the callbacks are started again, no callback
-- is past the guard, however the accesses of any number of callbacks are interleaved with the stop.
pub stopped_outside :
    (n : ℕ) (s : Shop) (i : ℕ)
    → Reach n s
    → s.stopped ≡ true
    → is_past_guard (callback_at s i) ≡ false
stopped_outside n s i r e =
    let none_inside : total inside_weight s.callbacks ≡ 0 =
      nobody s.stopped _ _ (Reach-Sound r).shut e in
    weightless (callback_at s i) (
      omega
        (arith, none_inside, total_at inside_weight s.callbacks i (unfold inside_weight in refl)))
  where
    nobody : (a b : Bool) (m : ℕ) → (a ≡ false) ⊎ (b ≡ true) × (m ≡ 0) → a ≡ true → m ≡ 0
    nobody a b m (inl f) p = absurd (ground arith)
    nobody a b m (inr (f, z)) p = z
