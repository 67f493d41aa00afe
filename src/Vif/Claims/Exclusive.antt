-- ===== src/Vif/Claims/Exclusive.antt =====
-- However the two owners' threads are interleaved, one group is used by one of them at a time.
use opendiag_firmware.Base.{
  Bool, Bool-cases, Option, and_false, ap, arith, false, if◌then◌else◌, inl, inr, none, not, refl,
  some, subst, sym, true, ℕ, ◌&&◌, ◌∙◌, ◌≡◌, ◌⊎◌,
}
use opendiag_firmware.Vif.Claims.{
  Claim, Group, Owner, OwnerPc, Reach, Step, VehicleBus, at_start, claimed, claims, clean_fails,
  clean_succeeds, cleaning, clearing, clears, close_begins, down_fails, down_succeeds, driven,
  has_bus, held_by_other, in_driver, later, link, no_claim, open_begins, open_ends, open_next,
  open_refused, open_reserve, open_switch, open_switches, opened_bus, reserve_from, reserving,
  resting, same_bus, same_owner, set_pc, set_up, shell, starting, stop_fails, stop_succeeds,
  stopping_bus, taking_down, up_fails, up_succeeds,
}
use opendiag_firmware.Vif.Claims.Fits.{
  AllDown, Fits, Holds, OnlyClaimed, OpenUp, closed-OpenUp, down-set_up, only-AllDown, only-set_up,
  open-OpenUp, same_bus_eq, same_bus_refl, some_bus_eq, up-set_up,
}

record Sound (g : Group) : Type 0 where
  only : OnlyClaimed g.claim g.up
  fits : (owner : Owner) → Fits g.claim g.up owner (g.pc owner)
  open_up : OpenUp g.claim g.up

is_resting : OwnerPc → Bool
is_resting resting = true
is_resting _ = false

same_owner_refl : (o : Owner) → same_owner o o ≡ true
same_owner_refl link = refl
same_owner_refl shell = refl

owner_eq : (o o' : Owner) → same_owner o o' ≡ true → o ≡ o'
owner_eq link link e = refl
owner_eq shell shell e = refl
owner_eq link shell e = absurd (ground arith)
owner_eq shell link e = absurd (ground arith)

-- An owner whose thread is under way has the claim.
busy_owner :
    (claim : Claim) (up : VehicleBus → Bool) (o : Owner) (p : OwnerPc)
    → Fits claim up o p
    → (p ≡ resting) ⊎ (claim.owner ≡ o) × (has_bus claim.bus ≡ true)
busy_owner claim up o resting h = inl refl
busy_owner claim up o (taking_down old bus bitrate) (a, b, c) = inr (a, ap has_bus b)
busy_owner claim up o (reserving bus bitrate) (a, b, c, d) = inr (a, b)
busy_owner claim up o (starting bus) (a, b, c) = inr (a, ap has_bus b)
busy_owner claim up o (opened_bus bus) ((a, b, c), u) = inr (a, ap has_bus b)
busy_owner claim up o (cleaning bus) (a, b, c) = inr (a, ap has_bus b)
busy_owner claim up o (stopping_bus bus) (a, b, c) = inr (a, ap has_bus b)
busy_owner claim up o clearing (a, b, c, d) = inr (a, b)

-- The other owner rests.
abbrev OtherRests : Group → Owner → Type 0
OtherRests g o = (o' : Owner) → same_owner o o' ≡ false → g.pc o' ≡ resting

clash :
    (o o' : Owner) (b : Bool)
    → (b && not (same_owner o' o)) ≡ false
    → b ≡ true
    → same_owner o o' ≡ false
    → ⊥
clash link link b e f g = ground arith
clash shell shell b e f g = ground arith
clash link shell b e f g = ground arith
clash shell link b e f g = ground arith

own_free : (claim : Claim) (o : Owner) → claim.owner ≡ o → held_by_other claim o ≡ false
own_free claim o e =
    subst (λ x. (has_bus claim.bus && not (same_owner x o)) ≡ false) (sym e)
      (rw (same_owner_refl o) (and_false (has_bus claim.bus)))

other_rests : (g : Group) (o : Owner) → Sound g → held_by_other g.claim o ≡ false → OtherRests g o
other_rests g o h e o' f = elim (busy_owner g.claim g.up o' (g.pc o') (h.fits o')) [
  | inl r ↦ r
  | inr k ↦ absurd (
      clash o o' (has_bus g.claim.bus)
        (subst (λ x. (has_bus g.claim.bus && not (same_owner x o)) ≡ false) k.0 e) k.1 f)
]

-- A step of the owner `o`, to a claim and drivers that fit.
module _ (g : Group) (o : Owner) (r : OtherRests g o) where
  acts :
      (claim : Claim) (up : VehicleBus → Bool) (p : OwnerPc)
      → Fits claim up o p
      → OnlyClaimed claim up
      → OpenUp claim up
      → Sound (record { claim = claim; up = up; pc = set_pc g.pc o p })
  acts claim up p f only open_up = record {
    only = only;
    fits = λ o'. elim (Bool-cases (same_owner o o')) [
      | inl e ↦
          subst (λ x. Fits claim up x (set_pc g.pc o p x)) (owner_eq o o' e)
            (subst (λ b. Fits claim up o (if b then p else g.pc o)) (sym (same_owner_refl o)) f)
      | inr e ↦
          subst (λ b. Fits claim up o' (if b then p else g.pc o')) (sym e)
            (subst (Fits claim up o') (sym (r o' e)) tt)
    ];
    open_up = open_up;
  }

unclaimed_down : (g : Group) → Sound g → g.claim.bus ≡ none → AllDown g.up
unclaimed_down g h e b = elim (Bool-cases (g.up b)) [
  | inl u ↦
      (let gone : has_bus (some b) ≡ has_bus none = ap has_bus (sym (h.only b u) ∙ e) in
        absurd (ground (arith, gone)))
  | inr u ↦ u
]

-- A claim that is held, and not by another, is the owner's.
owned :
    (claim : Claim) (o : Owner) (bus : VehicleBus)
    → claim.bus ≡ some bus
    → held_by_other claim o ≡ false
    → claim.owner ≡ o
owned claim o bus e f = owner_eq claim.owner o (
    not_other (same_owner claim.owner o)
      (subst (λ x. (has_bus x && not (same_owner claim.owner o)) ≡ false) e f))
  where
    not_other : (b : Bool) → (true && not b) ≡ false → b ≡ true
    not_other true p = refl
    not_other false p = absurd (ground arith)

module _ (g : Group) (o : Owner) (h : Sound g) where
  at_place : (p : OwnerPc) → g.pc o ≡ p → Fits g.claim g.up o p
  at_place p e = subst (Fits g.claim g.up o) e (h.fits o)

  rests : g.claim.owner ≡ o → OtherRests g o
  rests e = other_rests g o h (own_free g.claim o e)

  -- A call of the driver of the claim's bus has ended.
  drives :
      (bus : VehicleBus) (v : Bool) (p : OwnerPc)
      → Holds g.claim o bus
      → Fits g.claim (set_up g.up bus v) o p
      → Sound (driven g o bus v p)
  drives bus v p (a, b, c) f =
      acts g o (rests a) g.claim (set_up g.up bus v) p f (only-set_up g.claim g.up bus v b h.only)
        (closed-OpenUp g.claim (set_up g.up bus v) c)

  -- The driver of the claim's bus is down.
  drives_down :
      (bus : VehicleBus)
      → Holds g.claim o bus
      → (g.claim.owner ≡ o)
        × (has_bus g.claim.bus ≡ true)
        × (g.claim.is_open ≡ false)
        × AllDown (set_up g.up bus false)
  drives_down bus (a, b, c) = (a, ap has_bus b, c, down-set_up g.claim g.up bus b h.only)

  abbrev Begun : VehicleBus → ℕ → Option VehicleBus → Type 0
  Begun bus bitrate old =
      Sound (claimed g o (reserve_from old g.claim o bus) (open_next old bus bitrate))

  begins :
      (old : Option VehicleBus) (bus : VehicleBus) (bitrate : ℕ)
      → g.claim.bus ≡ old
      → held_by_other g.claim o ≡ false
      → Sound (claimed g o (open_reserve g.claim o bus) (open_next g.claim.bus bus bitrate))
  begins none bus bitrate e f =
      let claim = reserve_from none g.claim o bus in
      let down : AllDown g.up = unclaimed_down g h e in
      subst (Begun bus bitrate) (sym e) (
        acts g o (other_rests g o h f) claim g.up (reserving bus bitrate) (refl, refl, refl, down)
          (only-AllDown claim g.up down) (closed-OpenUp claim g.up refl))
  begins (some old) bus bitrate e f =
      let claim = reserve_from (some old) g.claim o bus in
      subst (Begun bus bitrate) (sym e) (
        acts g o (other_rests g o h f) claim g.up (taking_down old bus bitrate)
          (owned g.claim o old e f, e, refl) h.only (closed-OpenUp claim g.up refl))

Step-Sound : {g : Group} (o : Owner) {g' : Group} → Step g o g' → Sound g → Sound g'
Step-Sound {g} o (open_refused bus e) h = h
Step-Sound {g} o (open_begins bus bitrate e f) h = begins g o h g.claim.bus bus bitrate refl f
Step-Sound {g} o (down_succeeds old bus bitrate e) h =
    let k = at_place g o h (taking_down old bus bitrate) e in
    drives g o h old false (reserving bus bitrate) k (drives_down g o h old k)
Step-Sound {g} o (down_fails old bus bitrate v e) h =
    drives g o h old v resting (at_place g o h (taking_down old bus bitrate) e) tt
Step-Sound {g} o (open_switches bus bitrate e) h =
    let (a, b, c, d) = at_place g o h (reserving bus bitrate) e in
    let claim = open_switch g.claim o bus bitrate in
    acts g o (rests g o h a) claim g.up (starting bus) (refl, refl, c) (only-AllDown claim g.up d)
      (closed-OpenUp claim g.up c)
Step-Sound {g} o (up_succeeds bus e) h =
    let k = at_place g o h (starting bus) e in
    drives g o h bus true (opened_bus bus) k (k, up-set_up g.up bus true)
Step-Sound {g} o (up_fails bus v e) h =
    let k = at_place g o h (starting bus) e in drives g o h bus v (cleaning bus) k k
Step-Sound {g} o (open_ends bus e) h =
    let ((a, b, c), u) = at_place g o h (opened_bus bus) e in
    let claim = record g.claim { is_open = true } in
    acts g o (rests g o h a) claim g.up resting tt h.only (open-OpenUp claim g.up bus b u)
Step-Sound {g} o (clean_succeeds bus e) h =
    let k = at_place g o h (cleaning bus) e in
    drives g o h bus false clearing k (drives_down g o h bus k)
Step-Sound {g} o (clean_fails bus v e) h =
    drives g o h bus v resting (at_place g o h (cleaning bus) e) tt
Step-Sound {g} o (close_begins bus e b a) h =
    let claim = record g.claim { is_open = false } in
    acts g o (rests g o h a) claim g.up (stopping_bus bus) (a, b, refl) h.only
      (closed-OpenUp claim g.up refl)
Step-Sound {g} o (stop_succeeds bus e) h =
    let k = at_place g o h (stopping_bus bus) e in
    drives g o h bus false clearing k (drives_down g o h bus k)
Step-Sound {g} o (stop_fails bus v e) h =
    drives g o h bus v resting (at_place g o h (stopping_bus bus) e) tt
Step-Sound {g} o (clears e) h =
    let (a, b, c, d) = at_place g o h clearing e in
    acts g o (rests g o h a) no_claim g.up resting tt (only-AllDown no_claim g.up d)
      (closed-OpenUp no_claim g.up refl)

Reach-Sound : {g : Group} → Reach g → Sound g
Reach-Sound at_start = record {
  only = only-AllDown no_claim (λ b. false) (λ b. refl);
  fits = λ o. tt;
  open_up = closed-OpenUp no_claim (λ b. false) refl;
}
Reach-Sound (later o r step) = Step-Sound o step (Reach-Sound r)

resting_apart :
    (claim : Claim) (up : VehicleBus → Bool) (p q : OwnerPc)
    → Fits claim up link p
    → Fits claim up shell q
    → (in_driver p && in_driver q) ≡ false
resting_apart claim up p q h k = elim (busy_owner claim up link p h) [
  | inl e ↦ ap (λ x. in_driver x && in_driver q) e
  | inr (a, _) ↦ elim (busy_owner claim up shell q k) [
    | inl f ↦ ap (λ x. in_driver p && in_driver x) f ∙ and_false (in_driver p)
    | inr (b, _) ↦
        (let clash' : same_owner link link ≡ same_owner link shell =
            ap (same_owner link) (sym a ∙ b) in
          absurd (ground (arith, clash')))
  ]
]

no_exception : (x y z : Bool) → ((x ≡ true) → (y ≡ true) → (z ≡ true)) → (x && (y && not z)) ≡ false
no_exception true true true h = refl
no_exception true true false h = absurd (let e : false ≡ true = h refl refl in ground (arith, e))
no_exception true false z h = refl
no_exception false y z h = refl

claims_eq : (held : Option VehicleBus) (b : VehicleBus) → claims held b ≡ true → held ≡ some b
claims_eq none b e = absurd (ground arith)
claims_eq (some x) b e = ap (λ y. let r : Option VehicleBus = some y in r) (same_bus_eq x b e)

-- However the threads of the link and the shell are interleaved, and whatever calls of a driver fail: at
-- most one of them is inside a driver of the group; if drivers are up for two buses of the group, the
-- buses are the same; and a bus that is open has its driver up.
pub group_exclusive :
    (g : Group) (b b' : VehicleBus)
    → Reach g
    → ((in_driver (g.pc link) && in_driver (g.pc shell)) ≡ false)
      × ((g.up b && (g.up b' && not (same_bus b b'))) ≡ false)
      × ((g.claim.is_open && (claims g.claim.bus b && not (g.up b))) ≡ false)
group_exclusive g b b' r =
    let h = Reach-Sound r in
    (
      resting_apart g.claim g.up (g.pc link) (g.pc shell) (h.fits link) (h.fits shell),
      no_exception (g.up b) (g.up b') (same_bus b b') (λ u v.
          subst (λ x. same_bus b x ≡ true) (some_bus_eq g.claim.bus b b' (h.only b u) (h.only b' v))
            (same_bus_refl b)),
      no_exception g.claim.is_open (claims g.claim.bus b) (g.up b)
          (λ u v. h.open_up b u (claims_eq g.claim.bus b v)),
    )
