-- ===== src/Command/Settings.antt =====
-- The builders' commands as the readers read them (devices_manager/src/man/data.rs).
use snapemu_workflow.Base.{
  ℕ, suc, zero, ◌≤◌, ◌<◌, ◌≡◌, refl, ap, ◌∙◌, Bool, true, false, not, List, [], ◌∷◌, length, arith,
  lt→ltb, ◌==◌, ok, err, panic, ◌>>=◌, index, slice_from, set,
}
use snapemu_workflow.Command.{
  update_info_length, format, format_command, io_timer_new, update_timer, timer_view, TimerView,
  update_device_info_new, update_io_new, update_io, state,
}
use snapemu_workflow.Command.Builders.{
  flag, InfoSetting, set_adr, set_confirm, set_dutycycle, set_dr, set_power, set_time_zone,
  set_info, update_info_new, TimerSetting, set_num, set_enable, set_pin, set_action, set_hour,
  set_minute, set_repeat, set_timer, update_timer_new, set_io, update_io_builder_new,
  update_io_data,
}

abbrev pub timer_data : List TimerSetting → List ℕ
timer_data [] = update_timer_new
timer_data (s ∷ ss) = set_timer s (timer_data ss)

-- The timer that settings make, the last one of a kind standing first in the list.
abbrev pub set_view : TimerSetting → TimerView → TimerView
set_view (set_num n) v = record v { inex = n }
set_view (set_enable b) v = record v { enable = b }
set_view (set_pin n) v = record v { io_number = n }
set_view (set_action b) v = record v { action = b }
set_view (set_hour n) v = record v { hour = n }
set_view (set_minute n) v = record v { minute = n }
set_view (set_repeat n) v = record v { repeat = n }

abbrev pub timer_of : List TimerSetting → TimerView
timer_of [] = record {
  inex = 0;
  enable = false;
  io_number = 0;
  action = false;
  hour = 0;
  minute = 0;
  repeat = 0;
}
timer_of (s ∷ ss) = set_view s (timer_of ss)

abbrev timer_bytes : TimerView → List ℕ
timer_bytes v =
    v.inex ∷ flag v.enable ∷ v.io_number ∷ flag v.action ∷ v.hour ∷ v.minute ∷ v.repeat ∷ []

set_timer_bytes :
    (s : TimerSetting) (v : TimerView)
    → set_timer s (5 ∷ timer_bytes v) ≡ 5 ∷ timer_bytes (set_view s v)
unfolding set_timer
set_timer_bytes (set_num n) v = refl
set_timer_bytes (set_enable b) v = refl
set_timer_bytes (set_pin n) v = refl
set_timer_bytes (set_action b) v = refl
set_timer_bytes (set_hour n) v = refl
set_timer_bytes (set_minute n) v = refl
set_timer_bytes (set_repeat n) v = refl

timer_data_bytes : (ss : List TimerSetting) → timer_data ss ≡ 5 ∷ timer_bytes (timer_of ss)
unfolding update_timer_new
timer_data_bytes [] = refl
timer_data_bytes (s ∷ ss) = ap (set_timer s) (timer_data_bytes ss) ∙ set_timer_bytes s (timer_of ss)

flag_read : (b : Bool) → not (flag b == 0) ≡ b
flag_read true = refl
flag_read false = refl

-- A timer command is read as a timer command, and it reads as the timer that its settings make, in
-- whatever order they were made.
pub timer_view-timer_data :
    (ss : List TimerSetting)
    → (bytes : List ℕ) × (format (timer_data ss) ≡ ok (update_timer bytes))
      × (timer_view bytes ≡ ok (timer_of ss))
unfolding format format_command io_timer_new timer_view index slice_from
timer_view-timer_data ss = (
  timer_bytes (timer_of ss),
  rw (timer_data_bytes ss) refl,
  rw (flag_read (timer_of ss).enable, flag_read (timer_of ss).action) refl,
)

abbrev pub info_data : List InfoSetting → List ℕ
info_data [] = update_info_new
info_data (s ∷ ss) = set_info s (info_data ss)

length-set : (d : List ℕ) (i v : ℕ) → length (set d i v) ≡ length d
length-set [] i v = refl
length-set (x ∷ d) zero v = refl
length-set (x ∷ d) (suc i) v = ap suc (length-set d i v)

-- The first byte stays, and nine follow it.
info_shape :
    (s : InfoSetting) (r : List ℕ)
    → (r' : List ℕ) × (set_info s (1 ∷ r) ≡ 1 ∷ r') × (length r' ≡ length r)
unfolding set_info
info_shape (set_adr n) r = (_, refl, length-set r 0 _)
info_shape (set_confirm b) r = (_, refl, length-set r 1 _)
info_shape (set_dutycycle n) r = (_, refl, length-set _ 3 _ ∙ length-set r 2 _)
info_shape (set_dr n) r = (_, refl, length-set r 4 _)
info_shape (set_power n) r = (_, refl, length-set _ 6 _ ∙ length-set r 5 _)
info_shape (set_time_zone n) r = (_, refl, length-set _ 8 _ ∙ length-set r 7 _)

info_data_shape : (ss : List InfoSetting) → (r : List ℕ) × (info_data ss ≡ 1 ∷ r) × (length r ≡ 9)
unfolding update_info_new
info_data_shape [] = (_, refl, refl)
info_data_shape (s ∷ ss) =
    let (r, e, l) = info_data_shape ss in
    let (r', e', l') = info_shape s r in (r', ap (set_info s) e ∙ e', l' ∙ l)

nine_refused : (r : List ℕ) → length r ≡ 9 → format (1 ∷ r) ≡ err update_info_length
unfolding format format_command update_device_info_new slice_from
nine_refused r l = ground (arith, l)

-- Whatever is set, the reader refuses the command that updates a device's settings for its length.
pub update_info_refused : (ss : List InfoSetting) → format (info_data ss) ≡ err update_info_length
update_info_refused ss = let (r, e, l) = info_data_shape ss in ap format e ∙ nine_refused r l

flag_one : (b : Bool) → (flag b == 1) ≡ b
flag_one true = refl
flag_one false = refl

-- A command for a single pin below 16 is read as that pin with that value; any other pin panics.
pub state-set_io :
    (pin : ℕ) (value : Bool)
    → (pin < 16
        → ((set_io pin value (update_io_builder_new false) >>= λ b. format (update_io_data b))
            ≡ ok (update_io false (pin ∷ flag value ∷ [])))
          × (state (pin ∷ flag value ∷ []) ≡ ok (record { id = pin; value = value } ∷ [])))
      × (16 ≤ pin → set_io pin value (update_io_builder_new false) ≡ panic)
unfolding set_io update_io_builder_new update_io_data format format_command update_io_new state
    index slice_from
state-set_io pin value = (
  λ h.
      let not_ff : (pin == 0xff) ≡ false = ground (arith, h) in
      (
        rw (lt→ltb pin 16 h, not_ff) refl,
        ap (λ b. ok (record { id = pin; value = b } ∷ [])) (flag_one value),
      ),
  λ h. ground arith,
)
