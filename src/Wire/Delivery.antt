-- ===== src/Wire/Delivery.antt =====
-- A request sent in fragments reaches the server whole.
use opendiag_firmware.Base.{
  List, [], ap, append-nil, append_assoc, arith, inl, inr, length, length-append, refl, same, true,
  ℕ, ◌++◌, ◌+◌, ◌<◌, ◌∙◌, ◌∷◌, ◌≡◌, ◌≤◌, ◌⊎◌,
}
use opendiag_firmware.Wire.{
  Core, Wire, feed_byte, feed_bytes, fragment_max, rpc_max, take_fragment, wire_frame,
}
use opendiag_firmware.Wire.Fields.{process_frame-wire_frame}
use opendiag_firmware.Wire.Fragments.{IsAnswered, IsCollecting, accepted, store_last, store_more}
use opendiag_firmware.Wire.Header.{feed_bytes-whole, wire_frame-IsWhole}

-- The bytes of a request that is cut into the given chunks: every frame but the last says that more
-- are to follow.
abbrev pub join : List (List ℕ) → List ℕ
join [] = []
join (p ∷ ps) = p ++ join ps

unfoldable pub request_frames : ℕ → ℕ → ℕ → List (List ℕ) → List ℕ
request_frames operation sequence offset [] = []
request_frames operation sequence offset (p ∷ []) = wire_frame operation 0 sequence offset p
request_frames operation sequence offset (p ∷ (q ∷ ps)) =
    wire_frame operation 1 sequence offset p
    ++ request_frames operation sequence (offset + length p) (q ∷ ps)

-- Chunks as a client cuts them: none is longer than a fragment may be, and none but the last is empty.
abbrev pub IsCut : List (List ℕ) → Type 0
IsCut [] = ⊥
IsCut (p ∷ []) = length p ≤ fragment_max
IsCut (p ∷ (q ∷ ps)) = (0 < length p) × (length p ≤ fragment_max) × IsCut (q ∷ ps)

pub feed_bytes-append :
    {c : Core} (w : Wire c) (xs ys : List ℕ)
    → feed_bytes w (xs ++ ys) ≡ feed_bytes (feed_bytes w xs) ys
unfolding feed_bytes
feed_bytes-append w [] ys = refl
feed_bytes-append w (x ∷ xs) ys = feed_bytes-append (feed_byte w x) xs ys

module _ {c : Core} where
  -- A frame that arrives where none is under way.
  pub feed_frame :
      (w : Wire c) (operation flags sequence offset : ℕ) (payload : List ℕ)
      → w.frame ≡ []
      → flags ≤ 1
      → sequence < 4294967296
      → offset < 65536
      → length payload ≤ fragment_max
      → let f = wire_frame operation flags sequence offset payload in
        feed_bytes w f
        ≡ record (take_fragment (record w { frame = f }) flags operation sequence offset payload) {
          frame = [];
        }
  unfolding wire_frame
  feed_frame w operation flags sequence offset payload e h s o p =
      let f = wire_frame operation flags sequence offset payload in
      ap (λ g. feed_bytes (record w { frame = g }) f) e
      ∙ (feed_bytes-whole (record w { frame = [] }) 0x4A _
            (wire_frame-IsWhole operation flags sequence offset payload p)
          ∙ ap (λ v. let r : Wire c = record v { frame = [] } in r)
              (process_frame-wire_frame w operation flags sequence offset payload h s o p))

  with_frame :
      (w : Wire c) (f : List ℕ) (operation sequence : ℕ) (sofar : List ℕ)
      → (sofar ≡ []) ⊎ IsCollecting w operation sequence sofar
      → (sofar ≡ []) ⊎ IsCollecting (record w { frame = f }) operation sequence sofar
  with_frame w f operation sequence sofar (inl e) = inl e
  with_frame w f operation sequence sofar (inr h) = inr (record {
    assembling = h.assembling;
    of_sequence = h.of_sequence;
    of_operation = h.of_operation;
    collected = h.collected;
  })

  -- One frame of a request, the last one or not.
  feed_last :
      (w : Wire c) (operation sequence : ℕ) (sofar payload : List ℕ)
      → w.frame ≡ []
      → (sofar ≡ []) ⊎ IsCollecting w operation sequence sofar
      → sequence < 4294967296
      → length payload ≤ fragment_max
      → length sofar + length payload ≤ rpc_max
      → let w' = feed_bytes w (wire_frame operation 0 sequence (length sofar) payload) in
        IsAnswered w' w.core operation (sofar ++ payload) × (w'.frame ≡ [])
  feed_last w operation sequence sofar payload e h s p room =
      let f = wire_frame operation 0 sequence (length sofar) payload in
      let (w', taken, k, same) =
        accepted (record w { frame = f }) 0 operation sequence sofar payload
          (with_frame w f operation sequence sofar h) in
      let r = store_last w' operation sequence sofar payload k room in
      rw
        (
          feed_frame w operation 0 sequence (length sofar) payload e (omega arith) s (omega arith)
              p,
          taken,
        )
        (
          record {
            asked = r.asked ∙ ap (λ t. (c.request t operation (sofar ++ payload)).0) same;
            answer = r.answer ∙ ap (λ t. (c.request t operation (sofar ++ payload)).1) same;
            ready = r.ready;
          },
          refl,
        )

  feed_more :
      (w : Wire c) (operation sequence : ℕ) (sofar payload : List ℕ)
      → w.frame ≡ []
      → (sofar ≡ []) ⊎ IsCollecting w operation sequence sofar
      → sequence < 4294967296
      → 0 < length payload
      → length payload ≤ fragment_max
      → length sofar + length payload ≤ rpc_max
      → let w' = feed_bytes w (wire_frame operation 1 sequence (length sofar) payload) in
        IsCollecting w' operation sequence (sofar ++ payload) × (w'.core ≡ w.core) × (w'.frame ≡ [])
  feed_more w operation sequence sofar payload e h s q p room =
      let f = wire_frame operation 1 sequence (length sofar) payload in
      let (w', taken, k, same) =
        accepted (record w { frame = f }) 1 operation sequence sofar payload
          (with_frame w f operation sequence sofar h) in
      let (r, kept) = store_more w' operation sequence sofar payload k room q in
      rw
        (
          feed_frame w operation 1 sequence (length sofar) payload e (omega arith) s (omega arith)
              p,
          taken,
        )
        (
          record {
            assembling = r.assembling;
            of_sequence = r.of_sequence;
            of_operation = r.of_operation;
            collected = r.collected;
          },
          kept ∙ same,
          refl,
        )

  delivers :
      (w : Wire c) (t : c.State) (operation sequence : ℕ) (sofar : List ℕ) (chunks : List (List ℕ))
      → w.core ≡ t
      → w.frame ≡ []
      → (sofar ≡ []) ⊎ IsCollecting w operation sequence sofar
      → sequence < 4294967296
      → IsCut chunks
      → length sofar + length (join chunks) ≤ rpc_max
      → let w' = feed_bytes w (request_frames operation sequence (length sofar) chunks) in
        IsAnswered w' t operation (sofar ++ join chunks) × (w'.frame ≡ [])
  unfolding request_frames
  delivers w t operation sequence sofar [] e₀ e h s cut room = absurd cut
  delivers w t operation sequence sofar (p ∷ []) e₀ e h s cut room =
      rw (append-nil p, ← e₀)
        (feed_last w operation sequence sofar p e h s cut (omega (arith, room, length-append p [])))
  delivers w t operation sequence sofar (p ∷ (q ∷ ps)) e₀ e h s cut room =
      let rest = join (q ∷ ps) in
      let size = length-append p rest in
      let f = wire_frame operation 1 sequence (length sofar) p in
      let (k, same, clear) =
        feed_more w operation sequence sofar p e h s cut.0 cut.1 (omega (arith, room, size)) in
      let room' : length (sofar ++ p) + length rest ≤ rpc_max =
        omega (arith, room, size, length-append sofar p) in
      rw
        (
          feed_bytes-append w f
              (request_frames operation sequence (length sofar + length p) (q ∷ ps)),
          ← length-append sofar p,
          ← append_assoc sofar p rest,
        )
        (delivers (feed_bytes w f) t operation sequence (sofar ++ p) (q ∷ ps) (same ∙ e₀) clear
          (inr k) s cut.2 room')

  -- A request that a client sends in fragments reaches the server as one. Where no frame is under way,
  -- the chunks are cut as a client cuts them and are no more than 4608 bytes together, and the sequence
  -- number is a 32-bit word, the bytes of the frames leave the server in the state, and the response
  -- in the buffer, that one request for the operation with all the bytes gives; the response is ready
  -- to be fetched and no frame is under way.
  pub feed_bytes-request_frames :
      (w : Wire c) (operation sequence : ℕ) (chunks : List (List ℕ))
      → w.frame ≡ []
      → sequence < 4294967296
      → IsCut chunks
      → length (join chunks) ≤ rpc_max
      → let w' = feed_bytes w (request_frames operation sequence 0 chunks) in
        (w'.core ≡ (c.request w.core operation (join chunks)).0)
        × (w'.response ≡ (c.request w.core operation (join chunks)).1)
        × (w'.response_ready ≡ true)
        × (w'.frame ≡ [])
  feed_bytes-request_frames w operation sequence chunks e s cut room =
      let (h, clear) =
        delivers w w.core operation sequence [] chunks refl e (inl refl) s cut
          (omega (arith, room)) in
      (h.asked, h.answer, h.ready, clear)
