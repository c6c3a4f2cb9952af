-- ===== src/Examples/Restart.antt =====
-- A power cut on the sample device without a connection.
use watermeter.Base.{◌+◌, ◌*◌, ◌^◌, ◌%◌, ◌≡◌, refl, true, false, [], ◌∷◌, some, arith}
use watermeter.Base.{u32, inl}
use watermeter.Base.Bits.{bit}
use watermeter.Base.CString.{c_string, sprintf, decimal, decimal_padded, print_digits}
use watermeter.Config.{local_time}
use watermeter.Config.Valid.{Represents}
use watermeter.Device.{Device, save_config}
use watermeter.Counter.{debounce, debounce_start, track, is_pulse, button_timer_cb}
use watermeter.Counter.Edges.{InSync}
use watermeter.Utils.{get_mac_address, display_line, display_update, set_time_start}
use watermeter.Utils.InitData.{LeavesInitData, HasInitData, set107init_data_bin}
use watermeter.Main.{
  print_topic, print_reading, report, announce, main_hot, main_cold, main_new_hot, main_new_cold,
  main_end, main_timer_cb,
}
use watermeter.Main.Quiet.{last_saved}
use watermeter.Main.Readings.{view_with_readings}
use watermeter.Main.Offline.{Safe}
use watermeter.Main.System.{run_event, run_events, pulses}
use watermeter.Start.{user_init}
use watermeter.Start.Init.{Begun}
use watermeter.Start.Trace.{store_trace}
use watermeter.Start.Restart.{user_init-after_run, user_init-run_events}
use watermeter.Examples.{
  two_sectors, two_sectors-ReadsBack, one_file, media_two, sample_view, sample-Represents,
  sample-WordsFit, sample_device, sample_config,
}
use watermeter.Examples.Meter.{answers, or_sample, events, offline, after_offline, offline_runs}

leaves_init_data : LeavesInitData two_sectors
leaves_init_data s bytes = refl

has_init_data : HasInitData two_sectors true media_two.flash
unfolding set107init_data_bin
has_init_data = refl

user_init-after_run_example :
    (r : Device) × (user_init two_sectors one_file 0 0 true true
        (store_trace two_sectors one_file after_offline.trace media_two)
      ≡ some r)
    × Begun true r.config r
    × (r.config.hot_water ≡ u32 (sample_view.hot_water + u32 (1 * sample_view.liters_per_pulse)))
    × (r.config.cold_water ≡ u32 (sample_view.cold_water + u32 (2 * sample_view.liters_per_pulse)))
    × Represents r.config (view_with_readings r.config sample_view)
user_init-after_run_example =
    user_init-after_run two_sectors one_file answers offline after_offline sample_view media_two 0 0
      true offline_runs refl (inl (omega arith)) sample-Represents sample-WordsFit
      (inl (refl, (two_sectors-ReadsBack, (λ s bytes. refl)))) leaves_init_data has_init_data

-- The sample device without a connection, after its configuration was saved.
abbrev saved_device : Device
saved_device = record sample_device {
  flags = record (sample_device.flags) { mqtt_connected = false };
  trace = save_config sample_config ∷ [];
}

saved_device-Safe : Safe saved_device sample_view
unfolding last_saved
saved_device-Safe = record {
  offline = refl;
  saved = refl;
  means = sample-Represents;
  fits = sample-WordsFit;
}

abbrev after_events : Device
after_events = or_sample (run_events events saved_device)

events_run : run_events events saved_device ≡ some after_events
unfolding run_events run_event button_timer_cb debounce track is_pulse main_timer_cb main_hot
    main_cold main_new_hot main_new_cold main_end report announce print_reading print_topic
    get_mac_address c_string sprintf decimal decimal_padded print_digits display_update display_line
    local_time set_time_start
events_run = refl

saved_device-InSync : InSync saved_device
unfolding bit
saved_device-InSync = (refl, refl)

user_init-run_events_example :
    (r : Device) × (user_init two_sectors one_file 0 0 true true
        (store_trace two_sectors one_file after_events.trace media_two)
      ≡ some r)
    × Begun true r.config r
    × ((r.config.hot_water + after_events.counter.counter_hot_water * 10) % 2 ^ 32
        ≡ (12340 + 0 * 10 + pulses 0 debounce_start events * 10) % 2 ^ 32)
    × ((r.config.cold_water + after_events.counter.counter_cold_water * 10) % 2 ^ 32
        ≡ (56780 + 0 * 10 + pulses 1 debounce_start events * 10) % 2 ^ 32)
user_init-run_events_example =
    user_init-run_events two_sectors one_file events saved_device after_events sample_view media_two
      0 0 true events_run saved_device-InSync saved_device-Safe
      (inl (refl, (two_sectors-ReadsBack, (λ s bytes. refl)))) leaves_init_data has_init_data
