-- ===== src/Examples/Meter.antt =====
-- The counters, the runs of the main timer, the display, the clock and the power on the sample device.
use watermeter.Base.{
  ℕ, ◌+◌, ◌*◌, ◌^◌, ◌%◌, ◌<◌, ◌≤◌, ◌≡◌, refl, true, false, List, [], ◌∷◌, ◌++◌, Option, some, none,
  arith,
}
use watermeter.Base.{◌||◌}
use watermeter.Base.Bits.{bit}
use watermeter.Base.Text.{Text, codes}
use watermeter.Base.CString.{c_string, sprintf, decimal, decimal_padded, print_digits}
use watermeter.Config.{local_time}
use watermeter.Device.{Device, emit, show, null_mode}
use watermeter.Counter.{debounce, debounce_start, track, is_pulse, button_timer_cb}
use watermeter.Counter.Lane.{accepted, run_length, next_run, next_value, debounce-lane}
use watermeter.Counter.Edges.{InSync, rises, edges}
use watermeter.Utils.{
  get_mac_address, get_ip, get_voltage, display_line, display_update, set_time_start,
  wakeup_from_motion,
}
use watermeter.Utils.Print.{display_update-fits, get_ip-fits, get_voltage-fits}
use watermeter.Main.{
  Answers, print_topic, print_reading, report, announce, main_hot, main_cold, main_new_hot,
  main_new_cold, main_end, main_timer_cb,
}
use watermeter.Main.Run.{Ran, main_timer_cb-Ran}
use watermeter.Main.Total.{IsReady, main_timer_cb-total}
use watermeter.Main.System.{
  Event, tick, run, run_event, run_events, pulses, hot_total, cold_total, run_events-conserve,
}
use watermeter.Clock.{Date, epoch_to_str}
use watermeter.Clock.Month.{IsDateOf, epoch_to_str-IsDateOf}
use watermeter.Power.{sleep_timer_cb}
use watermeter.Power.Wake.{
  button, power, steps, counts_none, goes_to_sleep, steps-stay_awake, sleep_timer_cb-after_pulse,
}
use watermeter.Examples.{sample_device, sample_config, sample_mac}

abbrev pub answers : Answers
answers = record {
  mac = sample_mac;
  stamp_hot = 1600000100;
  stamp_cold = 1600000100;
  stamp_start = 1600000100;
  topic_hot = true;
  topic_cold = true;
  topic_new_hot = true;
  topic_new_cold = true;
  published_hot = true;
  published_cold = false;
}

abbrev pub or_sample : Option Device → Device
or_sample none = sample_device
or_sample (some d) = d

sample-InSync : InSync sample_device
unfolding bit
sample-InSync = (refl, refl)

debounce-lane_example :
    (run_length 1 (debounce 0 debounce_start)
      ≡ next_run (bit 1 0) (accepted 1 debounce_start) (run_length 1 debounce_start))
    × (accepted 1 (debounce 0 debounce_start)
        ≡ next_value (bit 1 0) (accepted 1 debounce_start) (run_length 1 debounce_start))
debounce-lane_example = debounce-lane 1 0 debounce_start (omega arith)

-- The hot input goes low and high again.
abbrev samples : List (ℕ × ℕ)
samples = (0, 1) ∷ (0, 1) ∷ (0, 1) ∷ (1, 1) ∷ (1, 1) ∷ (1, 1) ∷ (1, 1) ∷ []

one_edge : (edges 0 debounce_start samples ≡ 1) × (edges 1 debounce_start samples ≡ 0)
unfolding edges debounce bit
one_edge = (refl, refl)

-- A device with one pulse of hot water and two of cold.
abbrev pulsed : Device
pulsed = record sample_device {
  counter = record { status = 3; status_old = 3; counter_hot_water = 1; counter_cold_water = 2 };
}

abbrev after_run : Device
after_run = or_sample (main_timer_cb answers pulsed)

main_runs : main_timer_cb answers pulsed ≡ some after_run
unfolding main_timer_cb main_hot main_cold main_new_hot main_new_cold main_end report announce
    print_reading print_topic get_mac_address c_string sprintf decimal decimal_padded print_digits
    display_update display_line local_time set_time_start
main_runs = refl

main_timer_cb-Ran_example : Ran answers pulsed after_run
main_timer_cb-Ran_example = main_timer_cb-Ran answers pulsed after_run main_runs

-- The same device without a connection.
abbrev pub offline : Device
offline = record pulsed { flags = record (pulsed.flags) { mqtt_connected = false } }

abbrev pub after_offline : Device
after_offline = or_sample (main_timer_cb answers offline)

pub offline_runs : main_timer_cb answers offline ≡ some after_offline
unfolding main_timer_cb main_hot main_cold main_new_hot main_new_cold main_end report announce
    print_reading print_topic get_mac_address c_string sprintf decimal decimal_padded print_digits
    display_update display_line local_time set_time_start
offline_runs = refl

sample-IsReady : IsReady sample_config
unfolding c_string
sample-IsReady = record {
  topic = codes "WaterMeter";
  read = refl;
  hot_time = omega arith;
  cold_time = omega arith;
}

main_timer_cb-total_example : (d' : Device) × (main_timer_cb answers pulsed ≡ some d')
main_timer_cb-total_example =
    main_timer_cb-total answers pulsed sample-IsReady (omega arith) (omega arith)

abbrev pub events : List Event
events =
    tick 0 1
    ∷ tick 0 1
    ∷ tick 0 1
    ∷ run answers
    ∷ tick 1 1
    ∷ tick 1 1
    ∷ tick 1 1
    ∷ tick 1 1
    ∷ run answers
    ∷ []

abbrev after_events : Device
after_events = or_sample (run_events events sample_device)

events_run : run_events events sample_device ≡ some after_events
unfolding run_events run_event button_timer_cb debounce track is_pulse main_timer_cb main_hot
    main_cold main_new_hot main_new_cold main_end report announce print_reading print_topic
    get_mac_address c_string sprintf decimal decimal_padded print_digits display_update display_line
    local_time set_time_start
events_run = refl

one_pulse : pulses 0 debounce_start events ≡ 1
unfolding pulses debounce bit
one_pulse = refl

run_events-conserve_example :
    InSync after_events
    × (hot_total after_events % 2 ^ 32
        ≡ (12340 + 0 * 10 + pulses 0 debounce_start events * 10) % 2 ^ 32)
    × (cold_total after_events % 2 ^ 32
        ≡ (56780 + 0 * 10 + pulses 1 debounce_start events * 10) % 2 ^ 32)
    × (after_events.config.liters_per_pulse ≡ 10)
run_events-conserve_example =
    run_events-conserve events sample_device after_events sample-InSync events_run

display_update-fits_example :
    (12340 < 10 ^ 8
      → 56780 < 10 ^ 8
      → display_update sample_device
        ≡ some (
            emit
              (show (codes "Hot  " ++ decimal_padded 12) (codes "Cold " ++ decimal_padded 56))
              (record sample_device {
                flags = record (sample_device.flags) { display_write = false };
              })))
    × (10 ^ 8 ≤ 12340 → display_update sample_device ≡ none)
    × (10 ^ 8 ≤ 56780 → display_update sample_device ≡ none)
display_update-fits_example = display_update-fits sample_device

get_ip-fits_example : (s : Text) × (get_ip 0xffffffff ≡ some s)
get_ip-fits_example = get_ip-fits 0xffffffff

get_voltage-fits_example : (s : Text) × (get_voltage 850 ≡ some s)
get_voltage-fits_example = get_voltage-fits 850 (omega arith)

epoch_to_str-IsDateOf_example :
    (d : Date) × (epoch_to_str 1600000000 ≡ some d) × IsDateOf 1600000000 d
epoch_to_str-IsDateOf_example = epoch_to_str-IsDateOf 1600000000 (omega arith)

quiet : counts_none (button 0 1 ∷ power 0 null_mode ∷ []) sample_device ≡ true
unfolding counts_none button_timer_cb debounce bit
quiet = refl

steps-stay_awake_example :
    let d' = steps (button 0 1 ∷ power 0 null_mode ∷ []) sample_device in
    (d'.trace ≡ []) × (d'.flags.dont_sleep ≡ true)
steps-stay_awake_example =
    steps-stay_awake (button 0 1 ∷ power 0 null_mode ∷ []) sample_device sample-InSync refl quiet

-- The hot input is low, and was high for two samples.
abbrev about_to_count : Device
about_to_count = record sample_device {
  counter = record { status = 2; status_old = 2; counter_hot_water = 0; counter_cold_water = 0 };
  debounce = record { state = 0xfe; cnt0 = 0; cnt1 = 1 };
}

about-InSync : InSync about_to_count
unfolding bit
about-InSync = (refl, refl)

counts :
    let d1 = button_timer_cb 1 1 about_to_count in
    (rises 0 about_to_count.debounce d1.debounce || rises 1 about_to_count.debounce d1.debounce)
    ≡ true
unfolding button_timer_cb debounce bit
counts = refl

sleep_timer_cb-after_pulse_example :
    let d1 = button_timer_cb 1 1 about_to_count in
    let d2 = sleep_timer_cb 0 null_mode d1 in
    (d2.trace ≡ goes_to_sleep d1.trace) × ((wakeup_from_motion d2).flags.dont_sleep ≡ true)
sleep_timer_cb-after_pulse_example =
    sleep_timer_cb-after_pulse 1 1 about_to_count about-InSync counts
