-- ===== src/Node/Activation/Joined.antt =====
-- The first messages after a join.
use snapemu_workflow.Base.{
  ℕ, ◌<◌, ◌≡◌, ◌≢◌, ◌⊎◌, refl, ◌∙◌, inl, inr, Bool, true, false, Bool-cases, Option, none, some,
  ltb, ◌==◌, ==_iff, lt→ltb, ok, err, arith,
}
use snapemu_workflow.Node.{
  Counters, mic_error, payload_decode, is_repetition, new_up_count, decode_counted, decode_reset,
  update_up_count, reset_down_count,
}
use snapemu_workflow.Node.Activation.{
  OtaaInfo, Session, empty_error, activate, try_activate, decode_node_payload, decode_enc_payload,
}

-- A message whose MIC fits its own 16-bit counter only: the counter is stored, and that of downlinks
-- stays or is set to 0.
decode_small :
    {D : Type 0} (decrypt_mic : ℕ → Option D) (n : ℕ) (d : D) (s : Counters)
    → decrypt_mic n ≡ some d
    → ((x : ℕ) → x ≢ n → decrypt_mic x ≡ none)
    → (down : ℕ) × ((down ≡ s.stored_down) ⊎ (down ≡ 0))
      × ((c : Counters) × (c.stored_up ≡ n)
          × (c.stored_down ≡ down)
          × (payload_decode decrypt_mic n s ≡ ok (d, c)))
unfolding payload_decode decode_counted decode_reset update_up_count reset_down_count
decode_small decrypt_mic n d s fits only = elim (Bool-cases (new_up_count s.up_count n == n)) [
  | inl same ↦
      let e = (==_iff (new_up_count s.up_count n) n).0 same in
      (s.stored_down, inl refl, (record s { stored_up = n }, refl, refl, rw (e, fits, e) refl))
  | inr other ↦ (
    0,
    inr refl,
    (
      record s { down_count = 0; stored_up = n; stored_down = 0 },
      refl,
      refl,
      rw (only (new_up_count s.up_count n) (λ e. ground arith), fits) refl,
    ),
  )
]

module _ {K D : Type 0} (decrypt_mic : K → ℕ → Option D) where
  -- The first message after a join, with a counter below 5, of a registered node: if its MIC fits the
  -- keys of the join and its own counter only, and it is not taken for a repetition, it is accepted. The
  -- keys of the join are then in force, none wait, and the stored counter is that of the message.
  pub decode_enc_payload-joined :
      (n : ℕ) (info : OtaaInfo K) (d : D) (s : Session K)
      → n < 5
      → s.otaa ≡ some info
      → decrypt_mic info.keys n ≡ some d
      → ((x : ℕ) → x ≢ n → decrypt_mic info.keys x ≡ none)
      → is_repetition s.counters.up_count n ≡ false
      → (t : Session K) × (decode_enc_payload decrypt_mic true n s ≡ (ok (some d), t))
        × (t.keys ≡ info.keys)
        × (t.otaa ≡ none)
        × (t.counters.stored_up ≡ n)
        × ((t.counters.stored_down ≡ n) ⊎ (t.counters.stored_down ≡ 0))
  unfolding decode_enc_payload try_activate activate decode_node_payload
  decode_enc_payload-joined n info d s small waits fits only fresh =
      let c1 : Counters = record s.counters { stored_up = n; stored_down = n } in
      let (down, kinds, (c, up, is_down, accepted)) =
        decode_small (decrypt_mic info.keys) n d c1 fits only in
      (
        record (activate n info (record s { otaa = none })) { counters = c },
        rw (lt→ltb n 5 small, waits, fits, fresh, accepted) refl,
        refl,
        refl,
        up,
        elim kinds [ inl e ↦ inl (is_down ∙ e) | inr e ↦ inr (is_down ∙ e) ],
      )

  nothing_waits :
      (registered : Bool) (n : ℕ) (s : Session K)
      → try_activate decrypt_mic registered n (record s { otaa = none })
        ≡ (ok tt, record s { otaa = none })
  unfolding try_activate
  nothing_waits registered n s = elim (Bool-cases (ltb n 5)) [
    | inl e ↦ rw e refl
    | inr e ↦ rw e refl
  ]

  mic_refused :
      (k : K) (n : ℕ) (c : Counters)
      → ((x : ℕ) → decrypt_mic k x ≡ none)
      → payload_decode (decrypt_mic k) n c ≡ err mic_error
  unfolding payload_decode decode_counted decode_reset
  mic_refused k n c old = rw (old (new_up_count c.up_count n), old n) refl

  not_accepted :
      (registered : Bool) (n : ℕ) (d : D) (s : Session K)
      → ((x : ℕ) → decrypt_mic s.keys x ≡ none)
      → (decode_enc_payload decrypt_mic registered n (record s { otaa = none })).0 ≢ ok (some d)
  unfolding decode_enc_payload decode_node_payload
  not_accepted registered n d s old e = elim (Bool-cases (is_repetition s.counters.up_count n)) [
    | inl repeated ↦ let passed = rw (nothing_waits registered n s, repeated) at e in cc passed
    | inr fresh ↦
        let refused =
          rw (nothing_waits registered n s, fresh, mic_refused s.keys n s.counters old) at e in
        cc refused
  ]

  -- A message with a counter below 5 whose MIC does not fit the keys of the join is refused, and the
  -- keys of the join are gone, so that the next message, whose MIC fits only these keys, is not
  -- accepted; `other` is the decryption of the first of the two messages.
  pub decode_enc_payload-lost :
      (other : K → ℕ → Option D) (registered : Bool) (m n : ℕ) (info : OtaaInfo K) (s : Session K)
      → m < 5
      → s.otaa ≡ some info
      → other info.keys m ≡ none
      → ((x : ℕ) → decrypt_mic s.keys x ≡ none)
      → (decode_enc_payload other registered m s ≡ (err empty_error, record s { otaa = none }))
        × ((d : D)
            → (decode_enc_payload decrypt_mic registered n (record s { otaa = none })).0
              ≢ ok (some d))
  unfolding decode_enc_payload try_activate
  decode_enc_payload-lost other registered m n info s small waits bad old =
      (rw (lt→ltb m 5 small, waits, bad) refl, λ d. not_accepted registered n d s old)
