-- ===== src/Command/Tests.antt =====
-- The theorems on commands at concrete settings and bytes.
use snapemu_workflow.Base.{ℕ, ◌≡◌, true, false, List, [], ◌∷◌, ok}
use snapemu_workflow.Command.{format, update_timer, timer_view}
use snapemu_workflow.Command.Builders.{set_num, set_enable, set_hour, TimerSetting}
use snapemu_workflow.Command.Settings.{timer_data, timer_view-timer_data}

abbrev timer : List TimerSetting
timer = set_hour 7 ∷ set_enable true ∷ set_hour 6 ∷ set_num 3 ∷ []

timer_view-timer_data_example :
    (bytes : List ℕ) × (format (timer_data timer) ≡ ok (update_timer bytes))
    × (timer_view bytes
        ≡ ok (record {
          inex = 3;
          enable = true;
          io_number = 0;
          action = false;
          hour = 7;
          minute = 0;
          repeat = 0;
        }))
timer_view-timer_data_example = timer_view-timer_data timer
