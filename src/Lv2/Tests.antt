-- ===== src/Lv2/Tests.antt =====
-- Tests of the LV2 host, with a limiter of four audio inputs and two control ports.
use ee_eq_cli.Common.{◌*◌, true, false, List, [], ◌∷◌, some, ◌≡◌, refl, arith}
use ee_eq_cli.Floats.Decimal.{Decimal, plus, minus, nan, decimals}
use ee_eq_cli.Lv2.{
  LilvPort, found, not_found, Lv2HostCore, map_urid, create_instance, connect_audio_ports,
  destroy_instance,
}
use ee_eq_cli.Lv2.Ports.{Infinities, new_host, set_control_port_value, get_control_port_value}
use ee_eq_cli.Lv2.Reaching.{made, creates, connects}
use ee_eq_cli.Lv2.Values.{TakesValue, set_control_port_value-TakesValue}
use ee_eq_cli.Preset.{EqPreset, no_equalizer, no_limiter, no_band, no_bands}
use ee_eq_cli.Preset.Labels.{label_index}
use ee_eq_cli.Lv2.Mappers.{Levels, apply_eq_preset_to_host, apply_limiter_preset_to_host}
use ee_eq_cli.Lv2.Limiter.{LimiterShows, apply_limiter-LimiterShows}
use ee_eq_cli.Lv2.Equalizer.{EqShows, apply_eq-EqShows}
use ee_eq_cli.Lv2.Urids.{Maps, map_urid-Maps, nothing_mapped-Consistent}

abbrev limits : Infinities Decimal
limits = record { lowest = minus 1000000000; highest = plus 1000000000 }

abbrev threshold_port : LilvPort Decimal
threshold_port = record {
  name = "Threshold";
  symbol = "th";
  value = plus 1000;
  minimum = plus 0;
  maximum = nan;
  is_input = true;
  optional = false;
  is_control = true;
  is_atom = false;
  is_audio = false;
}

abbrev meter_port : LilvPort Decimal
meter_port = record threshold_port { name = "Meter"; symbol = "mt"; value = nan; is_input = false }

abbrev audio_in : LilvPort Decimal
audio_in = record threshold_port { symbol = "in"; is_control = false; is_audio = true }

abbrev audio_out : LilvPort Decimal
audio_out = record audio_in { symbol = "out"; is_input = false }

abbrev limiter_ports : List (LilvPort Decimal)
limiter_ports =
    audio_in ∷ audio_in ∷ audio_out ∷ audio_out ∷ threshold_port ∷ audio_in ∷ audio_in ∷ meter_port
    ∷ []

abbrev limiter : Lv2HostCore Decimal
limiter = new_host decimals limits "urn:limiter" (found limiter_ports)

abbrev missing : Lv2HostCore Decimal
missing = new_host decimals limits "urn:none" not_found

finds_audio : limiter.audio_ports ≡ record {
  in_left = some 0;
  in_right = some 1;
  probe_left = some 5;
  probe_right = some 6;
  out_left = some 2;
  out_right = some 3;
}
unfolding new_host
finds_audio = refl

-- Values are kept within the bounds of the port, and outputs are not set.
set_threshold :
    get_control_port_value decimals limits "th"
      (set_control_port_value decimals limits "th" (minus 5) limiter)
    ≡ plus 0
unfolding new_host set_control_port_value get_control_port_value
set_threshold = refl

set_meter :
    get_control_port_value decimals limits "mt"
      (set_control_port_value decimals limits "mt" (plus 5) limiter)
    ≡ plus 0
unfolding new_host set_control_port_value get_control_port_value
set_meter = refl

says_missing : missing.init_error ≡ "could not find LV2 plugin: urn:none"
unfolding new_host
says_missing = refl

creates_none : (create_instance true [] 48000 1024 missing).1 ≡ false
unfolding new_host create_instance
creates_none = refl

-- The options take six numbers, and the plugin's own URI the next.
counts_urids : (create_instance true ("urn:event" ∷ []) 48000 1024 limiter).0.next_urid ≡ 8
unfolding new_host create_instance map_urid destroy_instance
counts_urids = refl

map_urid-Maps_example : Maps "urn:event" limiter (map_urid "urn:event" limiter)
unfolding new_host
map_urid-Maps_example =
    map_urid-Maps "urn:event" limiter (omega arith) (nothing_mapped-Consistent limiter refl refl)

-- An instance, connected.
abbrev running : Lv2HostCore Decimal
running = connect_audio_ports (create_instance true [] 48000 1024 limiter).0

set_control_port_value-TakesValue_example :
    TakesValue decimals limits "th"
      (plus 7000)
      running
      (set_control_port_value decimals limits "th" (plus 7000) running)
set_control_port_value-TakesValue_example =
    set_control_port_value-TakesValue decimals limits "th" (plus 7000) running
      (connects (creates true [] 48000 1024 (made "urn:limiter" (found limiter_ports))))

-- An exponential that is right at 0, and thousandths for labels.
abbrev levels : Levels decimals
levels = record {
  of_index = λ n. plus (n * 1000);
  to_float = λ d. d;
  exp = λ d. plus 1000;
  ln10 = plus 2303;
  le_d = λ a b. false;
}

abbrev bell_preset : EqPreset Decimal
bell_preset = record (no_equalizer decimals) {
  mode = "FFT";
  left =
      record (no_band decimals) { type = "Bell"; frequency = plus 440000 } ∷ no_bands decimals 31;
}

abbrev equalizer_ports : List (LilvPort Decimal)
equalizer_ports =
    audio_in
    ∷ audio_out
    ∷ record threshold_port { symbol = "ftl_0" }
    ∷ record threshold_port { symbol = "fl_0"; maximum = plus 400000 }
    ∷ record threshold_port { symbol = "mode" }
    ∷ []

abbrev equalizer : Lv2HostCore Decimal
equalizer = new_host decimals limits "urn:equalizer" (found equalizer_ports)

sets_mode :
    get_control_port_value decimals limits "mode"
      (apply_eq_preset_to_host decimals limits levels bell_preset equalizer)
    ≡ plus 2000
unfolding new_host set_control_port_value get_control_port_value apply_eq_preset_to_host label_index
sets_mode = refl

-- The frequency is held at the port's upper bound.
sets_frequency :
    get_control_port_value decimals limits "fl_0"
      (apply_eq_preset_to_host decimals limits levels bell_preset equalizer)
    ≡ plus 400000
unfolding new_host set_control_port_value get_control_port_value apply_eq_preset_to_host label_index
sets_frequency = refl

apply_eq-EqShows_example :
    EqShows decimals limits levels bell_preset equalizer
      (apply_eq_preset_to_host decimals limits levels bell_preset equalizer)
apply_eq-EqShows_example =
    apply_eq-EqShows decimals limits levels bell_preset equalizer refl refl
      (made "urn:equalizer" (found equalizer_ports))

apply_limiter-LimiterShows_example :
    LimiterShows decimals limits levels
      (no_limiter decimals)
      running
      (apply_limiter_preset_to_host decimals limits levels (no_limiter decimals) running)
apply_limiter-LimiterShows_example =
    apply_limiter-LimiterShows decimals limits levels (no_limiter decimals) running
      (connects (creates true [] 48000 1024 (made "urn:limiter" (found limiter_ports))))

-- The limiter's threshold, at 0 dB.
sets_threshold :
    get_control_port_value decimals limits "th"
      (apply_limiter_preset_to_host decimals limits levels (no_limiter decimals) running)
    ≡ plus 1000
unfolding new_host set_control_port_value get_control_port_value apply_limiter_preset_to_host
    label_index create_instance map_urid destroy_instance connect_audio_ports
sets_threshold = refl
