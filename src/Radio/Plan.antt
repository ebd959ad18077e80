-- ===== src/Radio/Plan.antt =====
-- The frequencies on which messages are sent down, and their times.
use snapemu_workflow.Base.{
  ℕ, ◌+◌, ◌-◌, ◌*◌, ◌%◌, ◌^◌, ◌<◌, ◌≡◌, refl, arith, Outcome, ok, err, panic, stuck, ◌>>=◌,
}
use snapemu_workflow.Radio.{
  LoRaRegion, eu868, us915, cn779, eu433, au915, cn470, as923_1, as923_2, as923_3, kr920, in865,
  ru864, Floats, ChannelError, freq_chan, tx_freq, down_freq, calc_tmst, join_tmst,
}

-- What the frequency of a message down may be, for a message up on `freq`.
abbrev pub InPlan : (f : Floats) → LoRaRegion → f.F32 → f.F32 → Type 0
InPlan f us915 freq down =
    (k : ℕ) × (k < 8) × (down ≡ f.add (f.decimal 9233 1) (f.mul (f.of_u8 k) (f.decimal 6 1)))
InPlan f au915 freq down =
    (k : ℕ) × (k < 8) × (down ≡ f.add (f.decimal 9233 1) (f.mul (f.of_u8 k) (f.decimal 6 1)))
InPlan f cn470 freq down =
    (k : ℕ) × (k < 48) × (down ≡ f.add (f.decimal 5003 1) (f.mul (f.of_u8 k) (f.decimal 2 1)))
InPlan f _ freq down = down ≡ freq

tx_freq-InPlan :
    (f : Floats) (region : LoRaRegion) (freq : f.F32) (chan : ℕ)
    → InPlan f region freq (tx_freq f region freq chan)
unfolding tx_freq
tx_freq-InPlan f eu868 freq chan = refl
tx_freq-InPlan f us915 freq chan = (chan % 8, omega arith, refl)
tx_freq-InPlan f cn779 freq chan = refl
tx_freq-InPlan f eu433 freq chan = refl
tx_freq-InPlan f au915 freq chan = (chan % 8, omega arith, refl)
tx_freq-InPlan f cn470 freq chan = (chan % 48, omega arith, refl)
tx_freq-InPlan f as923_1 freq chan = refl
tx_freq-InPlan f as923_2 freq chan = refl
tx_freq-InPlan f as923_3 freq chan = refl
tx_freq-InPlan f kr920 freq chan = refl
tx_freq-InPlan f in865 freq chan = refl
tx_freq-InPlan f ru864 freq chan = refl

-- A message whose frequency the region has is answered in US915 and AU915 on one of the eight
-- frequencies from 923.3 by 0.6, in CN470 on one of the 48 from 500.3 by 0.2, and in any other region
-- on its own frequency.
pub down_freq-InPlan :
    (f : Floats) (region : LoRaRegion) (freq down : f.F32)
    → down_freq f region freq ≡ ok down
    → InPlan f region freq down
unfolding down_freq
down_freq-InPlan f region freq down e = go (freq_chan f freq region) e
  where
    go :
        (r : Outcome ChannelError ℕ)
        → (r >>= λ chan. ok (tx_freq f region freq chan)) ≡ ok down
        → InPlan f region freq down
    go (ok chan) q =
        let same : tx_freq f region freq chan ≡ down = cc in
        rw (← same) (tx_freq-InPlan f region freq chan)
    go (err x) q = absurd cc
    go panic q = absurd cc
    go stuck q = absurd cc

-- With a delay of at most 4294 seconds, the time of an answer fits 32 bits and is after the message's
-- by that delay, counted modulo 2 ^ 32; the answer to a join request is five seconds after it.
pub tmst_after :
    (tmst delay : ℕ)
    → tmst < 2 ^ 32
    → delay < 4295
    → (calc_tmst tmst delay < 2 ^ 32)
      × ((calc_tmst tmst delay + 2 ^ 32 - tmst) % 2 ^ 32 ≡ delay * 1000000)
      × (join_tmst tmst ≡ calc_tmst tmst 5)
unfolding calc_tmst join_tmst
tmst_after tmst delay h k = (omega arith, omega arith, omega arith)
