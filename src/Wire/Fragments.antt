-- ===== src/Wire/Fragments.antt =====
-- What a fragment of a request does, one after another.
use opendiag_firmware.Base.{
  Bool, Bool-cases, List, [], ap, ap₂, arith, false, inl, inr, length, ltb, refl, suc, true, ℕ,
  ◌&&◌, ◌++◌, ◌+◌, ◌-◌, ◌<◌, ◌==◌, ◌||◌, ◌∷◌, ◌≡◌, ◌≤◌, ◌⊎◌,
}
use opendiag_firmware.Wire.{
  Core, Wire, begin_request, complete_request, follows, rpc_max, send_fragment,
  send_response_fragment, store_fragment, take_fragment,
}

same_request :
    (b : Bool) (k k' p p' n n' : ℕ)
    → b ≡ true
    → k ≡ k'
    → p ≡ p'
    → n ≡ n'
    → (b && (k' == k && (p' == p && n' == n))) ≡ true
same_request b k k' p p' n n' e f g h = ground arith

not_first : (n m : ℕ) → n ≡ suc m → (n == 0) ≡ false
not_first n m e = ground arith

has_room :
    (n m flags : ℕ)
    → n + m ≤ rpc_max
    → 0 < m
    → (ltb (rpc_max - n) m || flags == 1 && m == 0) ≡ false
has_room n m flags h p = ground arith

last_room : (n m : ℕ) → n + m ≤ rpc_max → (ltb (rpc_max - n) m || 0 == 1 && m == 0) ≡ false
last_room n m h = ground arith

module _ {c : Core} where
  -- A request is being collected, and these are its bytes so far.
  pub record IsCollecting (w : Wire c) (operation sequence : ℕ) (sofar : List ℕ) : Type 0 where
    pub assembling : w.assembling_request ≡ true
    pub of_sequence : w.sequence ≡ sequence
    pub of_operation : w.operation ≡ operation
    pub collected : w.request ≡ sofar

  -- A fragment that begins a request, or that continues the one under way, is stored.
  pub accepted :
      (w : Wire c) (flags operation sequence : ℕ) (sofar payload : List ℕ)
      → (sofar ≡ []) ⊎ IsCollecting w operation sequence sofar
      → (w' : Wire c) × (take_fragment w flags operation sequence (length sofar) payload
          ≡ store_fragment w' flags payload)
        × IsCollecting w' operation sequence sofar
        × (w'.core ≡ w.core)
  unfolding take_fragment follows begin_request
  accepted w flags operation sequence [] payload h =
      let w' = begin_request w operation sequence in
      (
        w',
        rw (same_request true sequence sequence operation operation 0 0 refl refl refl refl) refl,
        record { assembling = refl; of_sequence = refl; of_operation = refl; collected = refl },
        refl,
      )
  accepted w flags operation sequence (x ∷ xs) payload (inl e) = absurd (omega (arith, ap length e))
  accepted w flags operation sequence (x ∷ xs) payload (inr h) = (
    w,
    rw
        (
          not_first (length (x ∷ xs)) (length xs) refl,
          same_request w.assembling_request w.sequence sequence w.operation operation
              (length w.request) (length (x ∷ xs)) h.assembling h.of_sequence h.of_operation
              (ap length h.collected),
        )
        refl,
    h,
    refl,
  )

  pub store_more :
      (w : Wire c) (operation sequence : ℕ) (sofar payload : List ℕ)
      → IsCollecting w operation sequence sofar
      → length sofar + length payload ≤ rpc_max
      → 0 < length payload
      → IsCollecting (store_fragment w 1 payload) operation sequence (sofar ++ payload)
        × ((store_fragment w 1 payload).core ≡ w.core)
  unfolding store_fragment send_fragment
  store_more w operation sequence sofar payload h room p =
      rw
        (has_room (length w.request) (length payload) 1 (omega (arith, room, ap length h.collected))
          p)
        (
          record {
            assembling = h.assembling;
            of_sequence = h.of_sequence;
            of_operation = h.of_operation;
            collected = ap (λ r. r ++ payload) h.collected;
          },
          refl,
        )

  -- What the server answers to the request so collected.
  pub record IsAnswered (w : Wire c) (s : c.State) (operation : ℕ) (bytes : List ℕ) : Type 0 where
    pub asked : w.core ≡ (c.request s operation bytes).0
    pub answer : w.response ≡ (c.request s operation bytes).1
    pub ready : w.response_ready ≡ true

  send_response_fragment-IsAnswered :
      (w : Wire c) (s : c.State) (offset operation : ℕ) (bytes : List ℕ)
      → IsAnswered w s operation bytes
      → IsAnswered (send_response_fragment w offset) s operation bytes
  unfolding send_response_fragment send_fragment
  send_response_fragment-IsAnswered w s offset operation bytes h =
      elim (Bool-cases (ltb (length w.response) offset)) [
        | inl e ↦ rw e h
        | inr e ↦ rw e (record { asked = h.asked; answer = h.answer; ready = h.ready })
      ]

  pub store_last :
      (w : Wire c) (operation sequence : ℕ) (sofar payload : List ℕ)
      → IsCollecting w operation sequence sofar
      → length sofar + length payload ≤ rpc_max
      → IsAnswered (store_fragment w 0 payload) w.core operation (sofar ++ payload)
  unfolding store_fragment complete_request
  store_last w operation sequence sofar payload h room =
      rw
        (last_room (length w.request) (length payload) (omega (arith, room, ap length h.collected)))
        (send_response_fragment-IsAnswered _ w.core 0 operation (sofar ++ payload) (record {
          asked = ap₂ (λ p r. (c.request w.core p (r ++ payload)).0) h.of_operation h.collected;
          answer = ap₂ (λ p r. (c.request w.core p (r ++ payload)).1) h.of_operation h.collected;
          ready = refl;
        }))
