-- ===== src/Slcan/Channel/Output.antt =====
-- What the client is told, whatever part of it still stands in the buffer.
use opendiag_firmware.Base.{
  Bool-cases, List, [], ap, append-nil, append_assoc, inl, inr, length, le→not_ltb, ltb, refl, sym,
  ℕ, ◌++◌, ◌-◌, ◌∙◌, ◌∷◌, ◌≡◌, ◌≤◌,
}
use opendiag_firmware.Slcan.Channel.{
  Bus, LinkCall, Slcan, link_flush, link_write, slcan_flush, slcan_tx_buf, slcan_write,
}
use opendiag_firmware.Slcan.Channel.Session.{Session, say}

abbrev pub written_to : List LinkCall → List ℕ
written_to [] = []
written_to (link_write bytes ∷ calls) = bytes ++ written_to calls
written_to (link_flush ∷ calls) = written_to calls

written_to-append : (xs ys : List LinkCall) → written_to (xs ++ ys) ≡ written_to xs ++ written_to ys
written_to-append [] ys = refl
written_to-append (link_write bytes ∷ xs) ys =
    ap (λ r. bytes ++ r) (written_to-append xs ys)
    ∙ sym (append_assoc bytes (written_to xs) (written_to ys))
written_to-append (link_flush ∷ xs) ys = written_to-append xs ys

module _ {d : Bus} where
  abbrev pub session : Slcan d → Session d
  session c = record { rate = c.bitrate; bus = c.bus; said = written_to c.link ++ c.txbuf }

  flush_said :
      (c : Slcan d)
      → written_to (slcan_flush c).link ++ (slcan_flush c).txbuf ≡ written_to c.link ++ c.txbuf
  unfolding slcan_flush
  flush_said c = elim (Bool-cases (ltb 0 (length c.txbuf))) [
    | inl e ↦
        rw (e, written_to-append c.link (link_write c.txbuf ∷ link_flush ∷ []), append-nil c.txbuf)
          (append-nil (written_to c.link ++ c.txbuf))
    | inr e ↦
        rw (e, written_to-append c.link (link_flush ∷ []), append-nil (written_to c.link)) refl
  ]

  -- The fields that the output leaves alone.
  pub record SameInput (c c' : Slcan d) : Type 0 where
    pub same_rate : c'.bitrate ≡ c.bitrate
    pub same_bus : c'.bus ≡ c.bus
    pub same_discard : c'.discard ≡ c.discard
    pub same_cmdbuf : c'.cmdbuf ≡ c.cmdbuf

  pub flush_keeps : (c : Slcan d) → SameInput c (slcan_flush c)
  unfolding slcan_flush
  flush_keeps c = elim (Bool-cases (ltb 0 (length c.txbuf))) [
    | inl e ↦
        rw e (record { same_rate = refl; same_bus = refl; same_discard = refl; same_cmdbuf = refl })
    | inr e ↦
        rw e (record { same_rate = refl; same_bus = refl; same_discard = refl; same_cmdbuf = refl })
  ]

  pub session-slcan_flush : (c : Slcan d) → session (slcan_flush c) ≡ session c
  session-slcan_flush c =
      let k = flush_keeps c in
      λ i. record { rate = k.same_rate i; bus = k.same_bus i; said = flush_said c i }

  appended :
      (c : Slcan d) (s : List ℕ) → session (record c { txbuf = c.txbuf ++ s }) ≡ say (session c) s
  appended c s = λ i. record {
    rate = c.bitrate;
    bus = c.bus;
    said = sym (append_assoc (written_to c.link) c.txbuf s) i;
  }

  -- A line that is composed is said, and nothing else changes.
  pub slcan_write_lem :
      (c : Slcan d) (s : List ℕ)
      → length s ≤ 512
      → (session (slcan_write c s) ≡ say (session c) s) × ((slcan_write c s).discard ≡ c.discard)
  unfolding slcan_write
  slcan_write_lem c s h = elim (Bool-cases (ltb (slcan_tx_buf - length c.txbuf) (length s))) [
    | inl e ↦
        rw (le→not_ltb 512 (length s) h, e)
          (
            appended (slcan_flush c) s ∙ ap (λ t. say t s) (session-slcan_flush c),
            (flush_keeps c).same_discard,
          )
    | inr e ↦ rw (le→not_ltb 512 (length s) h, e) (appended c s, refl)
  ]
