-- ===== src/Lv2/Ports.antt =====
-- The host's ports (src/lv2_host_core.cpp): how the constructor reads them from lilv, and the
-- control ports' values.
use ee_eq_cli.Common.{
  ℕ, zero, suc, ◌+◌, true, false, not, String, List, [], ◌∷◌, Option, none, some, ◌=s◌, ◌<>◌,
  get_elem?, find, keep, on_option, if◌then◌else◌,
}
use ee_eq_cli.Floats.{FloatOps}
use ee_eq_cli.Lv2.{
  Port, PortType, control, audio, atom, LilvPort, Lilv, no_world, invalid_uri, not_found, found,
  AudioPorts, Lv2HostCore,
}

-- The infinities that a port's bounds start with.
pub record Infinities (Fl : Type 0) : Type 0 where
  pub lowest : Fl
  pub highest : Fl

module _ (F : FloatOps) (I : Infinities F.Float) where
  open F use {Float, f_zero, f_lt, f_ne}

  -- `if (!std::isnan(x))`: only a NaN differs from itself.
  abbrev pub unless_nan : Float → Float → Float
  unless_nan x default_value = if f_ne x x then default_value else x

  abbrev port_type : LilvPort Float → PortType
  port_type p =
      if p.is_control
      then control
      else if p.is_atom
      then atom
      else if p.is_audio
      then audio
      else control

  abbrev pub port_of : ℕ → LilvPort Float → Port Float
  port_of i p = record {
    type = port_type p;
    index = i;
    name = p.name;
    symbol = p.symbol;
    value = unless_nan p.value f_zero;
    min = unless_nan p.minimum I.lowest;
    max = unless_nan p.maximum I.highest;
    is_input = p.is_input;
    optional = p.optional;
  }

  abbrev pub ports_from : ℕ → List (LilvPort Float) → List (Port Float)
  ports_from i [] = []
  ports_from i (p ∷ ps) = port_of i p ∷ ports_from (i + 1) ps

  -- The `n`-th audio input and output.
  abbrev with_audio_input : ℕ → ℕ → AudioPorts → AudioPorts
  with_audio_input zero i a = record a { in_left = some i }
  with_audio_input (suc zero) i a = record a { in_right = some i }
  with_audio_input (suc (suc zero)) i a = record a { probe_left = some i }
  with_audio_input (suc (suc (suc zero))) i a = record a { probe_right = some i }
  with_audio_input (suc (suc (suc (suc n)))) i a = a

  abbrev with_audio_output : ℕ → ℕ → AudioPorts → AudioPorts
  with_audio_output zero i a = record a { out_left = some i }
  with_audio_output (suc zero) i a = record a { out_right = some i }
  with_audio_output (suc (suc n)) i a = a

  -- With the numbers of audio inputs and outputs so far.
  abbrev pub audio_ports_from : ℕ → ℕ → List (Port Float) → AudioPorts → AudioPorts
  audio_ports_from ins outs [] a = a
  audio_ports_from ins outs (p ∷ ps) a =
      let rest_in = audio_ports_from (ins + 1) outs ps (with_audio_input ins p.index a) in
      let rest_out = audio_ports_from ins (outs + 1) ps (with_audio_output outs p.index a) in
      let rest = audio_ports_from ins outs ps a in
      elim p.type [
        | control ↦ rest
        | atom ↦ rest
        | audio ↦ if p.is_input then rest_in else rest_out
      ]

  abbrev no_audio : AudioPorts
  no_audio = record {
    in_left = none;
    in_right = none;
    probe_left = none;
    probe_right = none;
    out_left = none;
    out_right = none;
  }

  -- A symbol that comes twice has its last port.
  abbrev pub index_from : List (Port Float) → List (String × ℕ) → List (String × ℕ)
  index_from [] index = index
  index_from (p ∷ ps) index =
      let rest = index_from ps index in
      let added = index_from ps ((p.symbol, p.index) ∷ keep (λ e. not (e.0 =s p.symbol)) index) in
      elim p.type [ control ↦ added | audio ↦ rest | atom ↦ rest ]

  abbrev empty_host : String → String → Lv2HostCore Float
  empty_host plugin_uri error = record {
    plugin_uri = plugin_uri;
    found_plugin = false;
    init_error = error;
    instance_ = none;
    sample_rate = 0;
    block_size = 0;
    next_urid = 1;
    uri_to_urid = [];
    urid_to_uri = [];
    ports = [];
    control_port_index = [];
    audio_ports = no_audio;
  }

  abbrev pub create_ports : List (LilvPort Float) → Lv2HostCore Float → Lv2HostCore Float
  create_ports lilv_ports h =
      let ports = ports_from 0 lilv_ports in
      record h {
        ports = ports;
        audio_ports = audio_ports_from 0 0 ports no_audio;
        control_port_index = index_from ports [];
      }

  unfoldable pub new_host : String → Lilv Float → Lv2HostCore Float
  new_host plugin_uri no_world = empty_host plugin_uri "failed to initialize Lilv world"
  new_host plugin_uri invalid_uri = empty_host plugin_uri ("invalid LV2 plugin URI: " <> plugin_uri)
  new_host plugin_uri not_found =
      empty_host plugin_uri ("could not find LV2 plugin: " <> plugin_uri)
  new_host plugin_uri (found ports) =
      create_ports ports (record (empty_host plugin_uri "") { found_plugin = true })

  -- `std::clamp`
  abbrev pub clamp : Float → Float → Float → Float
  clamp value low high = if f_lt value low then low else if f_lt high value then high else value

  abbrev pub control_port : Lv2HostCore Float → String → Option ℕ
  control_port h symbol =
      on_option (find (λ e. e.0 =s symbol) h.control_port_index) none (λ e. some e.1)

  abbrev pub set_value : Float → Port Float → Port Float
  set_value value p = if not p.is_input then p else record p { value = clamp value p.min p.max }

  abbrev pub at_index : ℕ → (Port Float → Port Float) → List (Port Float) → List (Port Float)
  at_index i f [] = []
  at_index zero f (p ∷ ps) = f p ∷ ps
  at_index (suc i) f (p ∷ ps) = p ∷ at_index i f ps

  unfoldable pub set_control_port_value : String → Float → Lv2HostCore Float → Lv2HostCore Float
  set_control_port_value symbol value h =
      on_option (control_port h symbol) h
        (λ i. record h { ports = at_index i (set_value value) h.ports })

  abbrev pub value_of : Option (Port Float) → Float
  value_of none = f_zero
  value_of (some p) = p.value

  unfoldable pub get_control_port_value : String → Lv2HostCore Float → Float
  get_control_port_value symbol h =
      on_option (control_port h symbol) f_zero (λ i. value_of (get_elem? h.ports i))
