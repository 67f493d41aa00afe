-- ===== src/Wire/Fetch.antt =====
-- A response is fetched in fragments that make it up again.
use opendiag_firmware.Base.{
  Bool-cases, List, [], ap, append-nil, append_assoc, arith, drop, equal_test, false, get_or,
  if◌then◌else◌, inl, inr, length, length-drop, le→not_ltb, ltb, refl, suc, sym, take,
  take-append-slice, take_all, true, zero, ℕ, ◌&&◌, ◌*◌, ◌++◌, ◌+◌, ◌-◌, ◌<◌, ◌==◌, ◌∙◌, ◌∷◌, ◌≡◌,
  ◌≤◌,
}
use opendiag_firmware.Wire.{
  Core, Wire, feed_bytes, fragment_max, frame_crc, get_le16, get_le32, process_frame, rpc_max,
  send_fragment, send_response_fragment, wire_frame, wire_header, wire_header_size,
}
use opendiag_firmware.Wire.Delivery.{feed_bytes-append}
use opendiag_firmware.Wire.Fields.{crc_agrees, le16_lem, le32_lem}
use opendiag_firmware.Wire.Header.{feed_bytes-whole, wire_frame-IsWhole}

-- The part of a response that a fragment at `offset` has, and the flag that more is to follow.
abbrev pub slice : List ℕ → ℕ → List ℕ
slice response offset =
    let rest = length response - offset in
    take (if ltb fragment_max rest then fragment_max else rest) (drop offset response)

abbrev pub more_flag : List ℕ → ℕ → ℕ
more_flag response offset =
    let rest = length response - offset in
    let len = if ltb fragment_max rest then fragment_max else rest in
    if ltb (offset + len) (length response) then 1 else 0

-- `n` requests for fragments, each 192 bytes behind the one before, and the frames that answer them.
unfoldable pub fetch_frames : ℕ → ℕ → ℕ → ℕ → List ℕ
fetch_frames operation sequence offset zero = []
fetch_frames operation sequence offset (suc n) =
    wire_frame operation 2 sequence offset []
    ++ fetch_frames operation sequence (offset + fragment_max) n

unfoldable pub response_frames : ℕ → ℕ → List ℕ → ℕ → ℕ → List (List ℕ)
response_frames operation sequence response offset zero = []
response_frames operation sequence response offset (suc n) =
    wire_frame operation (128 + more_flag response offset) sequence offset (slice response offset)
    ∷ response_frames operation sequence response (offset + fragment_max) n

unfoldable pub slices : List ℕ → ℕ → ℕ → List ℕ
slices response offset zero = []
slices response offset (suc n) = slice response offset ++ slices response (offset + fragment_max) n

drop-nil : (n : ℕ) → drop n (let e : List ℕ = [] in e) ≡ []
drop-nil zero = refl
drop-nil (suc n) = refl

drop-drop : (xs : List ℕ) (a b : ℕ) → drop b (drop a xs) ≡ drop (a + b) xs
drop-drop xs zero b = ap (λ k. drop k xs) (omega arith)
drop-drop [] (suc a) b = drop-nil b ∙ sym (drop-nil (suc a + b))
drop-drop (x ∷ xs) (suc a) b =
    drop-drop xs a b
    ∙ ap (λ k. drop k (x ∷ xs)) (let e : suc (a + b) ≡ suc a + b = omega arith in e)

not_above : (a b : ℕ) → ltb a b ≡ false → b ≤ a
not_above a b e = ground arith

slice_lem :
    (response : List ℕ) (offset : ℕ)
    → slice response offset ≡ take fragment_max (drop offset response)
slice_lem response offset = elim (Bool-cases (ltb fragment_max (length response - offset))) [
  | inl e ↦ rw e refl
  | inr e ↦
      (let last = drop offset response in
        let rest = length response - offset in
        let size = length-drop offset response in
        rw e (
          take_all rest last (omega (arith, size))
          ∙ sym (take_all fragment_max last (omega (arith, size, not_above _ _ e)))))
]

slices_lem :
    (response : List ℕ) (offset n : ℕ)
    → slices response offset n ≡ take (fragment_max * n) (drop offset response)
unfolding slices
slices_lem response offset zero = refl
slices_lem response offset (suc n) =
    rw
      (
        slice_lem response offset,
        slices_lem response (offset + fragment_max) n,
        ← drop-drop response offset fragment_max,
      )
      (take-append-slice (drop offset response) fragment_max (fragment_max * n)
        ∙ ap (λ k. take k (drop offset response)) (omega arith))

module _ {c : Core} where
  process_fetch :
      (w : Wire c) (offset : ℕ)
      → w.response_ready ≡ true
      → get_or w.frame 5 0 ≡ w.operation
      → get_le16 w.frame 6 ≡ 2
      → get_le32 w.frame 8 ≡ w.sequence
      → get_le16 w.frame 12 ≡ offset
      → get_le16 w.frame 14 ≡ 0
      → get_le32 w.frame (wire_header_size + 0) ≡ frame_crc w.frame 0
      → process_frame w ≡ send_response_fragment w offset
  unfolding process_frame
  process_fetch w offset r e₁ e₂ e₃ e₄ e₅ e₆ =
      let known : (w.response_ready
            && (get_le32 w.frame 8 == w.sequence && get_or w.frame 5 0 == w.operation))
          ≡ true =
        ground (arith, r, e₁, e₃) in
      rw (e₅, equal_test _ _ e₆, e₂, known, e₄) refl

  -- The response frame for an offset, and the state in which it has been sent.
  abbrev response_frame : Wire c → ℕ → List ℕ
  response_frame w offset =
      wire_frame w.operation (128 + more_flag w.response offset) w.sequence offset
        (slice w.response offset)

  abbrev with_sent : Wire c → List (List ℕ) → Wire c
  with_sent w frames = record w { sent = w.sent ++ frames }

  sends_fragment :
      (w : Wire c) (offset : ℕ)
      → offset ≤ length w.response
      → send_response_fragment w offset ≡ with_sent w (response_frame w offset ∷ [])
  unfolding send_response_fragment send_fragment
  sends_fragment w offset h = rw (le→not_ltb (length w.response) offset h) refl

  whole :
      (w : Wire c) (offset : ℕ)
      → let f = wire_frame w.operation 2 w.sequence offset [] in
        feed_bytes (record w { frame = [] }) f
        ≡ record (process_frame (record w { frame = f })) { frame = [] }
  unfolding wire_frame
  whole w offset =
      feed_bytes-whole (record w { frame = [] }) 0x4A _
        (wire_frame-IsWhole w.operation 2 w.sequence offset [] (omega arith))

  -- One fragment is asked for and sent.
  feed_fetch :
      (w : Wire c) (offset : ℕ)
      → w.frame ≡ []
      → w.response_ready ≡ true
      → w.sequence < 4294967296
      → offset ≤ length w.response
      → length w.response ≤ rpc_max
      → feed_bytes w (wire_frame w.operation 2 w.sequence offset [])
        ≡ with_sent w (response_frame w offset ∷ [])
  feed_fetch w offset e r s h k =
      let f = wire_frame w.operation 2 w.sequence offset [] in
      let w' = record w { frame = f } in
      let asked : process_frame w' ≡ with_sent w' (response_frame w offset ∷ []) =
        process_fetch w' offset r (unfold wire_frame in refl) (unfold wire_frame in refl)
          (unfold wire_frame in le32_lem w.sequence s)
          (unfold wire_frame in le16_lem offset (omega (arith, h, k))) (unfold wire_frame in refl)
          (unfold wire_frame in crc_agrees (wire_header w.operation 2 w.sequence offset 0) 0 refl)
        ∙ sends_fragment w' offset h in
      ap (λ g. feed_bytes (record w { frame = g }) f) e
      ∙ (whole w offset
          ∙ (ap (λ v. let r : Wire c = record v { frame = [] } in r) asked
              ∙ ap
                  (λ g.
                    let r : Wire c = record w {
                      frame = g;
                      sent = w.sent ++ (response_frame w offset ∷ []);
                    } in
                    r)
                  (sym e)))

  fetches :
      (w : Wire c) (offset n : ℕ)
      → w.frame ≡ []
      → w.response_ready ≡ true
      → w.sequence < 4294967296
      → offset + fragment_max * n ≤ length w.response + fragment_max
      → length w.response ≤ rpc_max
      → feed_bytes w (fetch_frames w.operation w.sequence offset n)
        ≡ with_sent w (response_frames w.operation w.sequence w.response offset n)
  unfolding fetch_frames response_frames feed_bytes
  fetches w offset zero e r s h k =
      ap (λ l. let r : Wire c = record w { sent = l } in r) (sym (append-nil w.sent))
  fetches w offset (suc n) e r s h k =
      let first = response_frame w offset in
      let later = offset + fragment_max in
      let frames = response_frames w.operation w.sequence w.response later n in
      feed_bytes-append w (wire_frame w.operation 2 w.sequence offset [])
        (fetch_frames w.operation w.sequence later n)
      ∙ (ap (λ v. feed_bytes v (fetch_frames w.operation w.sequence later n))
            (feed_fetch w offset e r s (omega (arith, h)) k)
          ∙ (fetches (with_sent w (first ∷ [])) later n e r s (omega (arith, h)) k
              ∙ ap (λ l. let r : Wire c = record w { sent = l } in r)
                  (append_assoc w.sent (first ∷ []) frames)))

  -- A client that fetches a response that is ready, of no more than 4608 bytes, fragment after fragment,
  -- and asks for as many as the response needs, is sent exactly one frame for each; nothing else
  -- changes, and the parts in the frames make up the response.
  pub fetch_response :
      (w : Wire c) (n : ℕ)
      → w.frame ≡ []
      → w.response_ready ≡ true
      → w.sequence < 4294967296
      → length w.response ≤ rpc_max
      → length w.response ≤ fragment_max * n
      → fragment_max * n ≤ length w.response + fragment_max
      → (feed_bytes w (fetch_frames w.operation w.sequence 0 n)
          ≡ record w { sent = w.sent ++ response_frames w.operation w.sequence w.response 0 n })
        × (slices w.response 0 n ≡ w.response)
  fetch_response w n e r s k l h = (
    fetches w 0 n e r s (omega (arith, h)) k,
    slices_lem w.response 0 n ∙ take_all (fragment_max * n) w.response (omega (arith, l)),
  )
