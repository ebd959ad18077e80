-- ===== src/Radio.antt =====
-- What a message down is sent with (devices_manager/src/protocol/lora/data.rs): the time, the power and
-- the frequency, by the region. Floating-point numbers and their operations are a parameter.
pub mod Plan
use snapemu_workflow.Base.{
  ℕ, ◌+◌, ◌*◌, ◌%◌, ◌^◌, Bool, ◌&&◌, List, [], ◌∷◌, if◌then◌else◌, Outcome, ok, err, panic, stuck,
  ◌>>=◌,
}

pub data LoRaRegion : Type 0 where
  eu868 us915 cn779 eu433 au915 cn470 as923_1 as923_2 as923_3 kr920 in865 ru864 : LoRaRegion

-- The type f32. `decimal n k` is the literal of n / 10 ^ k.
pub record Floats : Type 1 where
  pub F32 : Type 0
  pub decimal : ℕ → ℕ → F32
  pub of_u8 : ℕ → F32
  pub as_u8 : F32 → ℕ
  pub add : F32 → F32 → F32
  pub sub : F32 → F32 → F32
  pub mul : F32 → F32 → F32
  pub div : F32 → F32 → F32
  pub abs : F32 → F32
  pub lt : F32 → F32 → Bool

pub data ChannelError : Type 0 where
  out_of_band not_supported : ChannelError

unfoldable pub calc_powe : LoRaRegion → ℕ
calc_powe eu868 = 14
calc_powe us915 = 14
calc_powe cn779 = 17
calc_powe eu433 = 14
calc_powe au915 = 14
calc_powe cn470 = 17
calc_powe as923_1 = 14
calc_powe as923_2 = 14
calc_powe as923_3 = 14
calc_powe kr920 = 17
calc_powe in865 = 17
calc_powe ru864 = 17

-- `calc_tmst` of `RespDataBuilder`: a u32 of microseconds. The delay, an i16, is taken not negative.
unfoldable pub calc_tmst : ℕ → ℕ → ℕ
calc_tmst tmst rx1_delay = (tmst + rx1_delay * 1000000 % 2 ^ 32) % 2 ^ 32

-- `calc_tmst` of `JoinRespDataBuilder`.
unfoldable pub join_tmst : ℕ → ℕ
join_tmst tmst = (tmst + 5 * 1000000) % 2 ^ 32

-- `Result::or`
abbrev pub or_else :
    {A : Type 0} → Outcome ChannelError A → Outcome ChannelError A → Outcome ChannelError A
or_else (err e) other = other
or_else result other = result

module _ (f : Floats) where
  -- `_calc_chan`
  unfoldable pub calc_chan : f.F32 → f.F32 → f.F32 → f.F32 → Outcome ChannelError ℕ
  calc_chan freq left right setup =
      if f.lt freq (f.add right (f.decimal 1 3)) && f.lt (f.sub left (f.decimal 1 3)) freq
      then ok (f.as_u8 (f.add (f.div (f.sub freq left) setup) (f.decimal 1 3)))
      else err out_of_band

  abbrev plus : ℕ → Outcome ChannelError ℕ → Outcome ChannelError ℕ
  plus n chan = chan >>= λ c. ok ((c + n) % 2 ^ 8)

  -- One of a list of frequencies, by its index.
  unfoldable pub near_to : f.F32 → List f.F32 → ℕ → Outcome ChannelError ℕ
  near_to freq [] i = err not_supported
  near_to freq (x ∷ xs) i =
      if f.lt (f.abs (f.sub freq x)) (f.decimal 1 5) then ok i else near_to freq xs (i + 1)

  unfoldable pub freq_chan : f.F32 → LoRaRegion → Outcome ChannelError ℕ
  freq_chan freq eu868 = ok 0
  freq_chan freq us915 =
      or_else (calc_chan freq (f.decimal 9023 1) (f.decimal 9149 1) (f.decimal 2 1))
        (plus 64 (calc_chan freq (f.decimal 9030 1) (f.decimal 9142 1) (f.decimal 16 1)))
  freq_chan freq cn779 =
      or_else (calc_chan freq (f.decimal 7795 1) (f.decimal 7799 1) (f.decimal 2 1))
        (plus 3 (calc_chan freq (f.decimal 7805 1) (f.decimal 7809 1) (f.decimal 2 1)))
  freq_chan freq eu433 = calc_chan freq (f.decimal 443175 3) (f.decimal 443575 3) (f.decimal 2 1)
  freq_chan freq au915 =
      or_else (calc_chan freq (f.decimal 9152 1) (f.decimal 9278 1) (f.decimal 2 1))
        (plus 64 (calc_chan freq (f.decimal 9159 1) (f.decimal 9271 1) (f.decimal 16 1)))
  freq_chan freq cn470 = calc_chan freq (f.decimal 4703 1) (f.decimal 4893 1) (f.decimal 2 1)
  freq_chan freq as923_1 = ok 0
  freq_chan freq as923_2 = ok 0
  freq_chan freq as923_3 = ok 0
  freq_chan freq kr920 = calc_chan freq (f.decimal 9221 1) (f.decimal 9233 1) (f.decimal 2 1)
  freq_chan freq in865 =
      near_to freq (f.decimal 8650625 4 ∷ f.decimal 8654025 4 ∷ f.decimal 865985 3 ∷ []) 0
  freq_chan freq ru864 = near_to freq (f.decimal 8689 1 ∷ f.decimal 8691 1 ∷ []) 0

  unfoldable pub tx_freq : LoRaRegion → f.F32 → ℕ → f.F32
  tx_freq us915 freq chan = f.add (f.decimal 9233 1) (f.mul (f.of_u8 (chan % 8)) (f.decimal 6 1))
  tx_freq au915 freq chan = f.add (f.decimal 9233 1) (f.mul (f.of_u8 (chan % 8)) (f.decimal 6 1))
  tx_freq cn470 freq chan = f.add (f.decimal 5003 1) (f.mul (f.of_u8 (chan % 48)) (f.decimal 2 1))
  tx_freq _ freq chan = freq

  -- `DownFreqDrBand::new`
  unfoldable pub down_freq : LoRaRegion → f.F32 → Outcome ChannelError f.F32
  down_freq region freq = do chan ← freq_chan freq region; ok (tx_freq region freq chan)
