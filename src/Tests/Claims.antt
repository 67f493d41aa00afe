-- ===== src/Tests/Claims.antt =====
-- The link opens VPW while the shell rests, and then holds it open.
use opendiag_firmware.Base.{false, none, not, refl, true, ◌&&◌, ◌≡◌}
use opendiag_firmware.Vif.Claims.{
  Group, Reach, at_start, claimed, claims, driven, in_driver, j1850_pwm, j1850_vpw, later, link,
  no_claim, open_begins, open_ends, open_next, open_reserve, open_switch, open_switches, opened_bus,
  resting, same_bus, shell, starting, unclaimed, up_succeeds,
}
use opendiag_firmware.Vif.Claims.Exclusive.{group_exclusive}

abbrev vpw_opening : Group
vpw_opening =
    claimed unclaimed link (open_reserve no_claim link j1850_vpw) (open_next none j1850_vpw 10400)

abbrev vpw_starting : Group
vpw_starting =
    claimed vpw_opening link (open_switch vpw_opening.claim link j1850_vpw 10400)
      (starting j1850_vpw)

abbrev vpw_started : Group
vpw_started = driven vpw_starting link j1850_vpw true (opened_bus j1850_vpw)

abbrev vpw_open : Group
vpw_open = claimed vpw_started link (record vpw_started.claim { is_open = true }) resting

vpw_open-Reach : Reach vpw_open
vpw_open-Reach =
    later link
      (later link
        (later link (later link at_start (open_begins j1850_vpw 10400 refl refl))
          (open_switches j1850_vpw 10400 refl))
        (up_succeeds j1850_vpw refl))
      (open_ends j1850_vpw refl)

group_exclusive_example :
    ((in_driver (vpw_open.pc link) && in_driver (vpw_open.pc shell)) ≡ false)
    × ((vpw_open.up j1850_vpw && (vpw_open.up j1850_pwm && not (same_bus j1850_vpw j1850_pwm)))
        ≡ false)
    × ((vpw_open.claim.is_open
          && (claims vpw_open.claim.bus j1850_vpw && not (vpw_open.up j1850_vpw)))
        ≡ false)
group_exclusive_example = group_exclusive vpw_open j1850_vpw j1850_pwm vpw_open-Reach
