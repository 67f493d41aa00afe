-- ===== src/Vif/Claims.antt =====
-- main/vif.c: the claim on one group of buses that share their wiring. A region under the lock is one
-- step; the calls of a bus driver in between take time and may fail. The worker of a claim is left out.
pub mod Fits
pub mod Exclusive
use opendiag_firmware.Base.{Bool, Option, false, if◌then◌else◌, none, not, some, true, ℕ, ◌&&◌, ◌≡◌}

-- `vif_owner_t`.
pub data Owner : Type 0 where
  link : Owner
  shell : Owner

-- `vif_bus_t`, but for VIF_BUS_NONE.
pub data VehicleBus : Type 0 where
  can : VehicleBus
  kline : VehicleBus
  j1850_pwm : VehicleBus
  j1850_vpw : VehicleBus

abbrev pub same_owner : Owner → Owner → Bool
same_owner link link = true
same_owner shell shell = true
same_owner _ _ = false

abbrev pub same_bus : VehicleBus → VehicleBus → Bool
same_bus can can = true
same_bus kline kline = true
same_bus j1850_pwm j1850_pwm = true
same_bus j1850_vpw j1850_vpw = true
same_bus _ _ = false

-- An element of `claim`; `none` stands for VIF_BUS_NONE.
pub record Claim : Type 0 where
  pub bus : Option VehicleBus
  pub is_open : Bool
  pub l_line_reserved : Bool
  pub bitrate : ℕ
  pub owner : Owner

-- What `memset` leaves.
abbrev pub no_claim : Claim
no_claim = record {
  bus = none;
  is_open = false;
  l_line_reserved = false;
  bitrate = 0;
  owner = link;
}

abbrev pub has_bus : Option VehicleBus → Bool
has_bus none = false
has_bus (some _) = true

abbrev pub claims : Option VehicleBus → VehicleBus → Bool
claims none bus = false
claims (some held) bus = same_bus held bus

-- The test that refuses `vif_bus_open`.
abbrev pub held_by_other : Claim → Owner → Bool
held_by_other claim owner = has_bus claim.bus && not (same_owner claim.owner owner)

-- The first region of `vif_bus_open`, by the bus that is held: the claim is reserved while the driver
-- blocks.
abbrev pub reserve_from : Option VehicleBus → Claim → Owner → VehicleBus → Claim
reserve_from none claim owner bus = record claim { is_open = false; bus = some bus; owner = owner }
reserve_from (some _) claim owner bus = record claim { is_open = false }

abbrev pub open_reserve : Claim → Owner → VehicleBus → Claim
open_reserve claim owner bus = reserve_from claim.bus claim owner bus

-- The second one, once the old driver is down.
abbrev pub open_switch : Claim → Owner → VehicleBus → ℕ → Claim
open_switch claim owner bus bitrate = record claim {
  bus = some bus;
  l_line_reserved = false;
  bitrate = bitrate;
  owner = owner;
}

-- Where an owner's thread stands: in `vif_bus_open`, with the bus that is opened and its bit rate, or in
-- `vif_bus_close` and `vif_bus_release_all`. `taking_down`, `starting`, `cleaning` and `stopping` are
-- calls of a driver.
pub data OwnerPc : Type 0 where
  resting : OwnerPc
  taking_down : VehicleBus → VehicleBus → ℕ → OwnerPc
  reserving : VehicleBus → ℕ → OwnerPc
  starting : VehicleBus → OwnerPc
  opened_bus : VehicleBus → OwnerPc
  cleaning : VehicleBus → OwnerPc
  stopping_bus : VehicleBus → OwnerPc
  clearing : OwnerPc

abbrev pub open_next : Option VehicleBus → VehicleBus → ℕ → OwnerPc
open_next none bus bitrate = reserving bus bitrate
open_next (some old) bus bitrate = taking_down old bus bitrate

abbrev pub in_driver : OwnerPc → Bool
in_driver (taking_down _ _ _) = true
in_driver (starting _) = true
in_driver (cleaning _) = true
in_driver (stopping_bus _) = true
in_driver _ = false

-- The claim of a group, which drivers of the group are up, and the owners' threads.
pub record Group : Type 0 where
  pub claim : Claim
  pub up : VehicleBus → Bool
  pub pc : Owner → OwnerPc

abbrev pub set_up : (VehicleBus → Bool) → VehicleBus → Bool → VehicleBus → Bool
set_up up bus v bus' = if same_bus bus bus' then v else up bus'

abbrev pub set_pc : (Owner → OwnerPc) → Owner → OwnerPc → Owner → OwnerPc
set_pc pc owner p owner' = if same_owner owner owner' then p else pc owner'

-- A driver has been called for a bus, and is up or down after it.
abbrev pub driven : Group → Owner → VehicleBus → Bool → OwnerPc → Group
driven g owner bus v p = record g { up = set_up g.up bus v; pc = set_pc g.pc owner p }

abbrev pub claimed : Group → Owner → Claim → OwnerPc → Group
claimed g owner claim p = record g { claim = claim; pc = set_pc g.pc owner p }

-- The steps of an owner; `v` is what a driver leaves when its call fails.
pub data Step (g : Group) (owner : Owner) : Group → Type 0 where
  open_refused : (bus : VehicleBus) → held_by_other g.claim owner ≡ true → Step g owner g
  open_begins :
      (bus : VehicleBus) (bitrate : ℕ)
      → g.pc owner ≡ resting
      → held_by_other g.claim owner ≡ false
      → Step g owner
          (claimed g owner (open_reserve g.claim owner bus) (open_next g.claim.bus bus bitrate))
  down_succeeds :
      (old bus : VehicleBus) (bitrate : ℕ)
      → g.pc owner ≡ taking_down old bus bitrate
      → Step g owner (driven g owner old false (reserving bus bitrate))
  down_fails :
      (old bus : VehicleBus) (bitrate : ℕ) (v : Bool)
      → g.pc owner ≡ taking_down old bus bitrate
      → Step g owner (driven g owner old v resting)
  open_switches :
      (bus : VehicleBus) (bitrate : ℕ)
      → g.pc owner ≡ reserving bus bitrate
      → Step g owner (claimed g owner (open_switch g.claim owner bus bitrate) (starting bus))
  up_succeeds :
      (bus : VehicleBus)
      → g.pc owner ≡ starting bus
      → Step g owner (driven g owner bus true (opened_bus bus))
  up_fails :
      (bus : VehicleBus) (v : Bool)
      → g.pc owner ≡ starting bus
      → Step g owner (driven g owner bus v (cleaning bus))
  open_ends :
      (bus : VehicleBus)
      → g.pc owner ≡ opened_bus bus
      → Step g owner (claimed g owner (record g.claim { is_open = true }) resting)
  clean_succeeds :
      (bus : VehicleBus)
      → g.pc owner ≡ cleaning bus
      → Step g owner (driven g owner bus false clearing)
  clean_fails :
      (bus : VehicleBus) (v : Bool)
      → g.pc owner ≡ cleaning bus
      → Step g owner (driven g owner bus v resting)
  close_begins :
      (bus : VehicleBus)
      → g.pc owner ≡ resting
      → g.claim.bus ≡ some bus
      → g.claim.owner ≡ owner
      → Step g owner (claimed g owner (record g.claim { is_open = false }) (stopping_bus bus))
  stop_succeeds :
      (bus : VehicleBus)
      → g.pc owner ≡ stopping_bus bus
      → Step g owner (driven g owner bus false clearing)
  stop_fails :
      (bus : VehicleBus) (v : Bool)
      → g.pc owner ≡ stopping_bus bus
      → Step g owner (driven g owner bus v resting)
  clears : g.pc owner ≡ clearing → Step g owner (claimed g owner no_claim resting)

abbrev pub unclaimed : Group
unclaimed = record { claim = no_claim; up = λ bus. false; pc = λ owner. resting }

pub data Reach : Group → Type 0 where
  at_start : Reach unclaimed
  later : {g g' : Group} (owner : Owner) → Reach g → Step g owner g' → Reach g'
