-- ===== src/Slcan/Channel/Lines.antt =====
-- The front-end refines the session that is given whole lines.
use opendiag_firmware.Base.{
  Bool-cases, List, [], ap, arith, false, get_or, if◌then◌else◌, inl, inr, length, length-append,
  le→not_ltb, ltb, ltb→lt, lt→ltb, refl, subst, sym, true, ℕ, ◌++◌, ◌+◌, ◌<◌, ◌==◌, ◌∙◌, ◌∷◌, ◌≡◌,
  ◌≤◌,
}
use opendiag_firmware.Slcan.Channel.{
  Bus, Slcan, c_string, command, end_line, feed_char, slcan_fe_feed, slcan_flush,
}
use opendiag_firmware.Slcan.Channel.Commands.{run_command_lem, slcan_answer_lem}
use opendiag_firmware.Slcan.Channel.Output.{flush_keeps, session, session-slcan_flush}
use opendiag_firmware.Slcan.Channel.Session.{Session, take_input, take_line}

one_too_many : (n m : ℕ) → (n + 1 == 31) ≡ true → m ≡ n + 1 → 30 < m
one_too_many n m e f = ground arith

not_above : (n : ℕ) → ltb 30 n ≡ false → n ≤ 30
not_above n e = ground arith

still_fits : (n m : ℕ) → ltb 30 n ≡ false → (n + 1 == 31) ≡ false → m ≡ n + 1 → m ≤ 30
still_fits n m e f g = ground arith

module _ {d : Bus} where
  -- The state in which the buffer holds the line so far, or nothing once the line is too long.
  abbrev pub held : Slcan d → List ℕ → Slcan d
  held c line = record c {
    cmdbuf = if ltb 30 (length line) then [] else line;
    discard = ltb 30 (length line);
  }

  end_line_lem :
      (c : Slcan d) (line : List ℕ)
      → (session (end_line (held c line)) ≡ take_line (session c) line)
        × ((end_line (held c line)).discard ≡ false)
  unfolding end_line take_line
  end_line_lem c line = elim (Bool-cases (ltb 30 (length line))) [
    | inl e ↦ rw e (slcan_answer_lem (record c { discard = false; cmdbuf = [] }) false)
    | inr e ↦ elim (Bool-cases (ltb 0 (length line))) [
      | inl f ↦
          rw (e, f)
            (run_command_lem (command (get_or (c_string line) 0 0))
              (record c { discard = false; cmdbuf = line }) (c_string line))
      | inr f ↦ rw (e, f) (refl, refl)
    ]
  ]

  carriage_return_lem :
      (c : Slcan d) (line : List ℕ) (val : ℕ)
      → (val == 0x0D) ≡ true
      → let c' = feed_char (held c line) val in
        (session c' ≡ take_line (session c) line) × (c' ≡ held c' [])
  unfolding feed_char
  carriage_return_lem c line val e =
      let c' = record (end_line (held c line)) { cmdbuf = [] } in
      let (p, q) = end_line_lem c line in
      let k = flush_keeps c' in
      rw e (
        session-slcan_flush c' ∙ p,
        λ i. record (slcan_flush c') { cmdbuf = k.same_cmdbuf i; discard = (k.same_discard ∙ q) i },
      )

  character_lem :
      (c : Slcan d) (line : List ℕ) (val : ℕ)
      → (val == 0x0D) ≡ false
      → feed_char (held c line) val ≡ held c (line ++ (val ∷ []))
  unfolding feed_char
  character_lem c line val e =
      let size = length-append line (val ∷ []) in
      elim (Bool-cases (ltb 30 (length line))) [
        | inl f ↦
            (let long : ltb 30 (length (line ++ (val ∷ []))) ≡ true =
                lt→ltb _ _ (omega (arith, size, ltb→lt _ _ f)) in
              rw (e, f, long) refl)
        | inr f ↦ elim (Bool-cases (length line + 1 == 31)) [
          | inl g ↦
              rw (e, f, g, lt→ltb 30 (length (line ++ (val ∷ []))) (one_too_many _ _ g size)) refl
          | inr g ↦
              rw (e, f, g, le→not_ltb 30 (length (line ++ (val ∷ []))) (still_fits _ _ f g size))
                refl
        ]
      ]

  abbrev Agrees : Slcan d → Session d × List ℕ → Type 0
  Agrees c (s, line) = (session c ≡ s) × (c ≡ held c line)

  take_input_ended :
      (s : Session d) (line bs : List ℕ) (b : ℕ)
      → (b == 0x0D) ≡ true
      → take_input s line (b ∷ bs) ≡ take_input (take_line s line) [] bs
  unfolding take_input
  take_input_ended s line bs b e = rw e refl

  take_input_open :
      (s : Session d) (line bs : List ℕ) (b : ℕ)
      → (b == 0x0D) ≡ false
      → take_input s line (b ∷ bs) ≡ take_input s (line ++ (b ∷ [])) bs
  unfolding take_input
  take_input_open s line bs b e = rw e refl

  feed_next :
      (c : Slcan d) (b : ℕ) (bs : List ℕ) (r : Session d × List ℕ)
      → Agrees (slcan_fe_feed (feed_char c b) bs) r
      → Agrees (slcan_fe_feed c (b ∷ bs)) r
  unfolding slcan_fe_feed
  feed_next c b bs r h = h

  slcan_fe_feed-held :
      (c : Slcan d) (line bytes : List ℕ)
      → Agrees (slcan_fe_feed (held c line) bytes) (take_input (session c) line bytes)
  slcan_fe_feed-held c line [] = unfold slcan_fe_feed take_input in (refl, refl)
  slcan_fe_feed-held c line (b ∷ bs) = elim (Bool-cases (b == 0x0D)) [
    | inl e ↦
        (let x = feed_char (held c line) b in
          let (p, q) = carriage_return_lem c line b e in
          let ended : Agrees (slcan_fe_feed x bs) (take_input (session x) [] bs) =
            subst (λ y. Agrees (slcan_fe_feed y bs) (take_input (session x) [] bs)) (sym q)
              (slcan_fe_feed-held x [] bs) in
          feed_next (held c line) b bs _ (
            subst (Agrees (slcan_fe_feed x bs))
              (ap (λ t. take_input t [] bs) p ∙ sym (take_input_ended (session c) line bs b e))
              ended))
    | inr e ↦
        (let more : Agrees (slcan_fe_feed (feed_char (held c line) b) bs)
              (take_input (session c) (line ++ (b ∷ [])) bs) =
            subst (λ x. Agrees (slcan_fe_feed x bs) (take_input (session c) (line ++ (b ∷ [])) bs))
              (sym (character_lem c line b e)) (slcan_fe_feed-held c (line ++ (b ∷ [])) bs) in
          feed_next (held c line) b bs _ (
            subst (Agrees (slcan_fe_feed (feed_char (held c line) b) bs))
              (sym (take_input_open (session c) line bs b e)) more))
  ]

  held-short : (c : Slcan d) (line : List ℕ) → length (held c line).cmdbuf ≤ 30
  held-short c line = elim (Bool-cases (ltb 30 (length line))) [
    | inl e ↦ rw e (omega arith)
    | inr e ↦ rw e (not_above _ e)
  ]

  held_whole : (c : Slcan d) → c.cmdbuf ≡ [] → c.discard ≡ false → c ≡ held c []
  held_whole c e f = λ i. record c { cmdbuf = e i; discard = f i }

  -- From a front-end that holds no characters, the buffers cannot be told from the outside.
  pub slcan_fe_feed-take_input :
      (c : Slcan d) (bytes : List ℕ)
      → c.cmdbuf ≡ []
      → c.discard ≡ false
      → session (slcan_fe_feed c bytes) ≡ (take_input (session c) [] bytes).0
  slcan_fe_feed-take_input c bytes e f =
      ap (λ x. session (slcan_fe_feed x bytes)) (held_whole c e f)
      ∙ (slcan_fe_feed-held c [] bytes).0

  -- After any characters the command buffer holds at most 30 of its 32 places.
  cmdbuf-bound :
      (c : Slcan d) (bytes : List ℕ)
      → c.cmdbuf ≡ []
      → c.discard ≡ false
      → length (slcan_fe_feed c bytes).cmdbuf ≤ 30
  cmdbuf-bound c bytes e f =
      let c' = slcan_fe_feed (held c []) bytes in
      let line = (take_input (session c) [] bytes).1 in
      subst (λ x. length (slcan_fe_feed x bytes).cmdbuf ≤ 30) (sym (held_whole c e f))
        (subst (λ x. length x.cmdbuf ≤ 30) (sym (slcan_fe_feed-held c [] bytes).1)
          (held-short c' line))

  -- A front-end that holds no characters implements the session that is given whole lines and has no
  -- buffers: whatever characters arrive, the bit rate, the bus and all that has been said to the client
  -- are those of the session, and the command buffer never holds more than 30 characters.
  pub slcan_fe_feed_refines :
      (c : Slcan d) (bytes : List ℕ)
      → c.cmdbuf ≡ []
      → c.discard ≡ false
      → (session (slcan_fe_feed c bytes) ≡ (take_input (session c) [] bytes).0)
        × (length (slcan_fe_feed c bytes).cmdbuf ≤ 30)
  slcan_fe_feed_refines c bytes e f =
      (slcan_fe_feed-take_input c bytes e f, cmdbuf-bound c bytes e f)
