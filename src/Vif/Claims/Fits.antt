-- ===== src/Vif/Claims/Fits.antt =====
-- What holds of a claim while an owner's thread stands at each place, and how the steps keep it.
use opendiag_firmware.Base.{
  Bool, Bool-cases, Option, ap, arith, false, if◌then◌else◌, inl, inr, none, refl, some, subst, sym,
  true, ◌∙◌, ◌≡◌,
}
use opendiag_firmware.Vif.Claims.{
  Claim, Owner, OwnerPc, VehicleBus, can, cleaning, clearing, has_bus, j1850_pwm, j1850_vpw, kline,
  opened_bus, reserving, resting, same_bus, set_up, starting, stopping_bus, taking_down,
}

pub same_bus_eq : (a b : VehicleBus) → same_bus a b ≡ true → a ≡ b
same_bus_eq can can e = refl
same_bus_eq kline kline e = refl
same_bus_eq j1850_pwm j1850_pwm e = refl
same_bus_eq j1850_vpw j1850_vpw e = refl
same_bus_eq can kline e = absurd (ground arith)
same_bus_eq can j1850_pwm e = absurd (ground arith)
same_bus_eq can j1850_vpw e = absurd (ground arith)
same_bus_eq kline can e = absurd (ground arith)
same_bus_eq kline j1850_pwm e = absurd (ground arith)
same_bus_eq kline j1850_vpw e = absurd (ground arith)
same_bus_eq j1850_pwm can e = absurd (ground arith)
same_bus_eq j1850_pwm kline e = absurd (ground arith)
same_bus_eq j1850_pwm j1850_vpw e = absurd (ground arith)
same_bus_eq j1850_vpw can e = absurd (ground arith)
same_bus_eq j1850_vpw kline e = absurd (ground arith)
same_bus_eq j1850_vpw j1850_pwm e = absurd (ground arith)

pub same_bus_refl : (a : VehicleBus) → same_bus a a ≡ true
same_bus_refl can = refl
same_bus_refl kline = refl
same_bus_refl j1850_pwm = refl
same_bus_refl j1850_vpw = refl

-- A driver of the group is up only for the bus of the claim.
abbrev pub OnlyClaimed : Claim → (VehicleBus → Bool) → Type 0
OnlyClaimed claim up = (b : VehicleBus) → up b ≡ true → claim.bus ≡ some b

abbrev pub AllDown : (VehicleBus → Bool) → Type 0
AllDown up = (b : VehicleBus) → up b ≡ false

-- An open claim is for a bus whose driver is up.
abbrev pub OpenUp : Claim → (VehicleBus → Bool) → Type 0
OpenUp claim up = (b : VehicleBus) → claim.is_open ≡ true → claim.bus ≡ some b → up b ≡ true

-- The claim is the owner's, for this bus, and not open.
abbrev pub Holds : Claim → Owner → VehicleBus → Type 0
Holds claim owner bus = (claim.owner ≡ owner) × (claim.bus ≡ some bus) × (claim.is_open ≡ false)

abbrev pub Fits : Claim → (VehicleBus → Bool) → Owner → OwnerPc → Type 0
Fits claim up owner resting = Unit
Fits claim up owner (taking_down old bus bitrate) = Holds claim owner old
Fits claim up owner (reserving bus bitrate) =
    (claim.owner ≡ owner) × (has_bus claim.bus ≡ true) × (claim.is_open ≡ false) × AllDown up
Fits claim up owner (starting bus) = Holds claim owner bus
Fits claim up owner (opened_bus bus) = Holds claim owner bus × (up bus ≡ true)
Fits claim up owner (cleaning bus) = Holds claim owner bus
Fits claim up owner (stopping_bus bus) = Holds claim owner bus
Fits claim up owner clearing =
    (claim.owner ≡ owner) × (has_bus claim.bus ≡ true) × (claim.is_open ≡ false) × AllDown up

-- A driver call on the bus of the claim leaves the others down.
pub only-set_up :
    (claim : Claim) (up : VehicleBus → Bool) (bus : VehicleBus) (v : Bool)
    → claim.bus ≡ some bus
    → OnlyClaimed claim up
    → OnlyClaimed claim (set_up up bus v)
only-set_up claim up bus v e h b p = elim (Bool-cases (same_bus bus b)) [
  | inl f ↦ e ∙ ap (λ x. let r : Option VehicleBus = some x in r) (same_bus_eq bus b f)
  | inr f ↦ h b (subst (λ x. (if x then v else up b) ≡ true) f p)
]

bus_or : Option VehicleBus → VehicleBus
bus_or none = can
bus_or (some b) = b

pub some_bus_eq : (o : Option VehicleBus) (a b : VehicleBus) → o ≡ some a → o ≡ some b → a ≡ b
unfolding bus_or
some_bus_eq o a b e f = ap bus_or (sym e ∙ f)

-- Once the driver of the claim is down, all are.
pub down-set_up :
    (claim : Claim) (up : VehicleBus → Bool) (bus : VehicleBus)
    → claim.bus ≡ some bus
    → OnlyClaimed claim up
    → AllDown (set_up up bus false)
down-set_up claim up bus e h b = elim (Bool-cases (same_bus bus b)) [
  | inl f ↦ subst (λ x. (if x then false else up b) ≡ false) (sym f) refl
  | inr f ↦ elim (Bool-cases (up b)) [
    | inl u ↦
        (let same : same_bus bus b ≡ true =
            subst (λ x. same_bus bus x ≡ true) (some_bus_eq claim.bus bus b e (h b u))
              (same_bus_refl bus) in
          absurd (ground (arith, same, f)))
    | inr u ↦ subst (λ x. (if x then false else up b) ≡ false) (sym f) u
  ]
]

pub up-set_up : (up : VehicleBus → Bool) (bus : VehicleBus) (v : Bool) → set_up up bus v bus ≡ v
up-set_up up bus v = rw (same_bus_refl bus) refl

-- Nothing is up, so nothing is up for a bus that is not claimed.
pub only-AllDown : (claim : Claim) (up : VehicleBus → Bool) → AllDown up → OnlyClaimed claim up
only-AllDown claim up d b p = absurd (ground (arith, d b, p))

-- A claim that is not open satisfies what an open one must.
pub closed-OpenUp :
    (claim : Claim) (up : VehicleBus → Bool) → claim.is_open ≡ false → OpenUp claim up
closed-OpenUp claim up e b p q = absurd (ground arith)

pub open-OpenUp :
    (claim : Claim) (up : VehicleBus → Bool) (bus : VehicleBus)
    → claim.bus ≡ some bus
    → up bus ≡ true
    → OpenUp claim up
open-OpenUp claim up bus e u b p q = subst (λ x. up x ≡ true) (some_bus_eq claim.bus bus b e q) u
