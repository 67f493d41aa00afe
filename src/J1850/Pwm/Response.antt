-- ===== src/J1850/Pwm/Response.antt =====
-- main/j1850_common.h and main/j1850_pwm_codec.c: which frames ask for an in-frame response of ours.
use opendiag_firmware.Base.{
  Bool, Bool-cases, List, [], arith, bit_and, false, get_or, get_or-take, if◌then◌else◌, inl, inr,
  length, length-take, ltb, min, not, suc, sym, take, true, ℕ, ◌&&◌, ◌<◌, ◌==◌, ◌∙◌, ◌∷◌, ◌≡◌, ◌≢◌,
  ◌≤◌, ◌⊎◌,
}

-- `j1850_pwm_ifr_cfg_t`.
pub record PwmIfrCfg : Type 0 where
  pub enabled : Bool
  pub node_address : ℕ
  pub targets : List ℕ
  pub target_count : ℕ

abbrev pub pwm_max_ifr_targets : ℕ
pwm_max_ifr_targets = 4

unfoldable pub j1850_hdr_is_three_byte : ℕ → Bool
j1850_hdr_is_three_byte hdr = bit_and hdr 0x10 == 0

unfoldable pub j1850_hdr_wants_ifr : ℕ → Bool
j1850_hdr_wants_ifr hdr = bit_and hdr 0x08 == 0

unfoldable pub j1850_pwm_ifr_cfg_default : PwmIfrCfg
j1850_pwm_ifr_cfg_default = record {
  enabled = true;
  node_address = 0xF1;
  targets = 0x6B ∷ 0xF1 ∷ 0 ∷ 0 ∷ [];
  target_count = 2;
}

-- The loop over the targets.
unfoldable pub is_target : ℕ → List ℕ → Bool
is_target address [] = false
is_target address (t ∷ ts) = let rest = is_target address ts in if address == t then true else rest

unfoldable pub j1850_pwm_ifr_wanted : List ℕ → PwmIfrCfg → Bool
j1850_pwm_ifr_wanted msg cfg =
    let hdr = get_or msg 0 0 in
    let target = get_or msg 1 0 in
    if not cfg.enabled
    then false
    else if ltb (length msg) 3
    then false
    else if not (j1850_hdr_wants_ifr hdr)
    then false
    else if not (j1850_hdr_is_three_byte hdr)
    then false
    else if not (bit_and hdr 0x04 == 0) && target == cfg.node_address
    then true
    else is_target target (take (min cfg.target_count pwm_max_ifr_targets) cfg.targets)

is_target_lem :
    (address : ℕ) (ts : List ℕ)
    → is_target address ts ≡ true
    → (k : ℕ) × (k < length ts) × (get_or ts k 0 ≡ address)
unfolding is_target
is_target_lem address [] e = absurd (cc)
is_target_lem address (t ∷ ts) e = elim (Bool-cases (address == t)) [
  | inl h ↦ (0, omega arith, ground arith)
  | inr h ↦ (let (k, p, q) = is_target_lem address ts (rw h at e) in (suc k, omega (arith, p), q))
]

-- A frame is answered only if responses are enabled, it has a three byte header that asks for one, and
-- its target is the node's own address, with the Y bit set, or one of the first four configured targets.
j1850_pwm_ifr_wanted-addressed :
    (msg : List ℕ) (cfg : PwmIfrCfg)
    → j1850_pwm_ifr_wanted msg cfg ≡ true
    → (cfg.enabled ≡ true)
      × (3 ≤ length msg)
      × (bit_and (get_or msg 0 0) 0x08 ≡ 0)
      × (bit_and (get_or msg 0 0) 0x10 ≡ 0)
      × ((bit_and (get_or msg 0 0) 0x04 ≢ 0) × (get_or msg 1 0 ≡ cfg.node_address)
          ⊎ (k : ℕ) × (k < min cfg.target_count 4) × (get_or cfg.targets k 0 ≡ get_or msg 1 0))
unfolding j1850_pwm_ifr_wanted j1850_hdr_is_three_byte j1850_hdr_wants_ifr
j1850_pwm_ifr_wanted-addressed msg cfg e =
    let target = get_or msg 1 0 in
    let listed = take (min cfg.target_count pwm_max_ifr_targets) cfg.targets in
    (
      ground arith,
      ground arith,
      ground arith,
      ground arith,
      elim (Bool-cases (is_target target listed)) [
        | inl h ↦
            (let (k, p, q) = is_target_lem target listed h in
              let size = length-take (min cfg.target_count pwm_max_ifr_targets) cfg.targets in
              let below : k < min cfg.target_count pwm_max_ifr_targets = omega (arith, p, size) in
              inr (
                k,
                below,
                sym (get_or-take (min cfg.target_count pwm_max_ifr_targets) k cfg.targets 0 below)
                    ∙ q,
              ))
        | inr h ↦ inl (ground (arith, h))
      ],
    )
