-- ===== src/Node/Counter.antt =====
-- Which counters of a node's messages are accepted.
use snapemu_workflow.Base.{
  ℕ, ◌+◌, ◌-◌, ◌%◌, ◌^◌, ◌<◌, ◌≤◌, ◌≡◌, ◌≢◌, ◌⊎◌, refl, ap, ◌∙◌, true, Option, none, some, arith,
  ltb, Outcome, ok, err, inl, inr, ◌↔◌, Bool-cases,
}
use snapemu_workflow.Node.{
  Counters, MicError, mic_error, update_up_count, reset_down_count, up_count_diff, new_up_count,
  decode_reset, decode_counted, payload_decode, is_repetition,
}

-- The counter that is tried carries the 16 bits of the message.
new_up_count_low :
    (up current : ℕ) → up < 2 ^ 32 → current < 2 ^ 16 → new_up_count up current % 2 ^ 16 ≡ current
unfolding new_up_count up_count_diff
new_up_count_low up current h k = ground arith

-- The counters that are found: ahead of the last one by less than 2 ^ 15, or by 3 * 2 ^ 15 up to 2 ^ 17.
abbrev pub InWindow : ℕ → ℕ → Type 0
InWindow up t = ((up ≤ t) × (t < up + 2 ^ 15)) ⊎ ((up + 2 ^ 16 + 2 ^ 15 ≤ t) × (t < up + 2 ^ 17))

window : (up t : ℕ) → up < 2 ^ 32 → t < 2 ^ 32 → InWindow up t → new_up_count up (t % 2 ^ 16) ≡ t
unfolding new_up_count up_count_diff
window up t h k (inl (a, b)) = ground arith
window up t h k (inr (a, b)) = ground arith

no_window :
    (up t : ℕ)
    → up + 2 ^ 17 < 2 ^ 32
    → t < 2 ^ 32
    → new_up_count up (t % 2 ^ 16) ≡ t
    → InWindow up t
unfolding new_up_count up_count_diff
no_window up t h k e =
    elim (Bool-cases (ltb ((t % 2 ^ 16 + 2 ^ 16 - up % 2 ^ 16) % 2 ^ 16) (2 ^ 15))) [
      | inl near ↦ inl (ground arith, ground arith)
      | inr far ↦ inr (ground arith, ground arith)
    ]

module _ {D : Type 0} (decrypt_mic : ℕ → Option D) (t : ℕ) (o : D) where
  in_window :
      (s : Counters)
      → s.up_count < 2 ^ 32
      → t < 2 ^ 32
      → decrypt_mic t ≡ some o
      → InWindow s.up_count t
      → payload_decode decrypt_mic (t % 2 ^ 16) s ≡ ok (o, record s { stored_up = t })
  unfolding payload_decode decode_counted update_up_count
  in_window s h k e w = rw (window s.up_count t h k w, e, window s.up_count t h k w) refl

  out_of_window :
      (s : Counters)
      → s.up_count + 2 ^ 17 < 2 ^ 32
      → t < 2 ^ 32
      → ((x : ℕ) → x ≢ t → decrypt_mic x ≡ none)
      → ¬ InWindow s.up_count t
      → payload_decode decrypt_mic (t % 2 ^ 16) s
        ≡ decode_reset decrypt_mic (t % 2 ^ 16) s (decrypt_mic (t % 2 ^ 16))
  unfolding payload_decode decode_counted
  out_of_window s h k only w =
      rw (only (new_up_count s.up_count (t % 2 ^ 16)) (λ e. w (no_window s.up_count t h k e))) refl

-- A message whose MIC fits the counter `t` and no other, of a node whose counter is not within 2 ^ 17 of
-- wrapping: in the windows it is accepted and `t` is stored; out of them it is accepted as that of a
-- device that was reset if `t` has 16 bits, with the down counter reset, and refused if it has more.
pub payload_decode-genuine :
    {D : Type 0} (decrypt_mic : ℕ → Option D) (t : ℕ) (o : D) (s : Counters)
    → s.up_count + 2 ^ 17 < 2 ^ 32
    → t < 2 ^ 32
    → decrypt_mic t ≡ some o
    → ((x : ℕ) → x ≢ t → decrypt_mic x ≡ none)
    → (InWindow s.up_count t
        → payload_decode decrypt_mic (t % 2 ^ 16) s ≡ ok (o, record s { stored_up = t }))
      × (¬ InWindow s.up_count t
          → t < 2 ^ 16
          → payload_decode decrypt_mic (t % 2 ^ 16) s
            ≡ ok (o, record s { down_count = 0; stored_up = t; stored_down = 0 }))
      × (¬ InWindow s.up_count t
          → 2 ^ 16 ≤ t
          → payload_decode decrypt_mic (t % 2 ^ 16) s ≡ err mic_error)
unfolding decode_reset update_up_count reset_down_count
payload_decode-genuine decrypt_mic t o s h k e only = (
  in_window decrypt_mic t o s (omega arith) k e,
  λ out small.
      let low : t % 2 ^ 16 ≡ t = omega arith in
      out_of_window decrypt_mic t o s h k only out ∙ rw (low, e) refl,
  λ out large.
      let other : t % 2 ^ 16 ≢ t = λ q. omega (arith, q) in
      out_of_window decrypt_mic t o s h k only out ∙ rw (only (t % 2 ^ 16) other) refl,
)

-- Whatever the MIC, an accepted message leaves a stored counter whose low 16 bits are those that the
-- message carries.
pub payload_decode_low :
    {D : Type 0} (decrypt_mic : ℕ → Option D) (current : ℕ) (s s' : Counters) (o : D)
    → s.up_count < 2 ^ 32
    → current < 2 ^ 16
    → payload_decode decrypt_mic current s ≡ ok (o, s')
    → s'.stored_up % 2 ^ 16 ≡ current
unfolding payload_decode decode_counted decode_reset update_up_count reset_down_count
payload_decode_low {D} decrypt_mic current s s' o h k e =
    counted (decrypt_mic (new_up_count s.up_count current)) e
  where
    stored : Outcome MicError (D × Counters) → ℕ
    stored (ok (x, c)) = c.stored_up
    stored _ = 0

    reset :
        (a : Option D)
        → decode_reset decrypt_mic current s a ≡ ok (o, s')
        → s'.stored_up % 2 ^ 16 ≡ current
    reset (some x) q = let up : current ≡ s'.stored_up = ap stored q in omega arith
    reset none q = absurd cc

    counted :
        (a : Option D)
        → decode_counted decrypt_mic current s a ≡ ok (o, s')
        → s'.stored_up % 2 ^ 16 ≡ current
    counted (some x) q =
        let up : new_up_count s.up_count current ≡ s'.stored_up = ap stored q in
        rw (← up) (new_up_count_low s.up_count current h k)
    counted none q = reset (decrypt_mic current) q

-- A message is a repetition exactly if it carries the low 16 bits of the node's counter and these are
-- neither 0 nor 1.
pub is_repetition_iff :
    (up current : ℕ) → (is_repetition up current ≡ true) ↔ ((current ≡ up % 2 ^ 16) × (2 ≤ current))
unfolding is_repetition
is_repetition_iff up current = (λ h. ground arith, λ (e, l). ground arith)
