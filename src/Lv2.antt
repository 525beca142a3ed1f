-- ===== src/Lv2.antt =====
-- The LV2 host (src/lv2_host_core.hpp and src/lv2_host_core.cpp). Lilv and the plugin are
-- parameters: what lilv says of the plugin, and whether it makes an instance of it.
pub mod Urids
pub mod Ports
pub mod Wiring
pub mod Reaching
pub mod Values
pub mod Mappers
pub mod Writes
pub mod Equalizer
pub mod Limiter
mod Tests
use ee_eq_cli.Common.{
  ℕ, zero, suc, ◌+◌, ◌%◌, ◌^◌, ◌==◌, Bool, true, false, not, ◌&&◌, ◌||◌, String, List, [], ◌∷◌,
  Option, none, some, ◌=s◌, ◌<>◌, get_elem?, find, keep, on_option, if◌then◌else◌,
}
use ee_eq_cli.Floats.{FloatOps}

pub data PortType : Type 0 where
  control : PortType
  audio : PortType
  atom : PortType

pub record Port (Fl : Type 0) : Type 0 where
  pub type : PortType
  pub index : ℕ
  pub name : String
  pub symbol : String
  pub value : Fl
  pub min : Fl
  pub max : Fl
  pub is_input : Bool
  pub optional : Bool

-- What lilv says of a port.
pub record LilvPort (Fl : Type 0) : Type 0 where
  pub name : String
  pub symbol : String
  pub value : Fl
  pub minimum : Fl
  pub maximum : Fl
  pub is_input : Bool
  pub optional : Bool
  pub is_control : Bool
  pub is_atom : Bool
  pub is_audio : Bool

-- What the constructor finds.
pub data Lilv (Fl : Type 0) : Type 0 where
  no_world : Lilv Fl
  invalid_uri : Lilv Fl
  not_found : Lilv Fl
  found : List (LilvPort Fl) → Lilv Fl

-- `audio_ports_`, with none for UINT32_MAX.
pub record AudioPorts : Type 0 where
  pub in_left : Option ℕ
  pub in_right : Option ℕ
  pub probe_left : Option ℕ
  pub probe_right : Option ℕ
  pub out_left : Option ℕ
  pub out_right : Option ℕ

pub data AudioBuffer : Type 0 where
  left_in : AudioBuffer
  right_in : AudioBuffer
  left_out : AudioBuffer
  right_out : AudioBuffer
  probe_left : AudioBuffer
  probe_right : AudioBuffer

-- The ports of an instance: the control ports are connected to their `value`, an audio port to the
-- buffer it was connected to last.
pub record Instance : Type 0 where
  pub controls : List ℕ
  pub audio : List (ℕ × AudioBuffer)

pub record Urid : Type 0 where
  pub uri : String
  pub urid : ℕ

pub record Lv2HostCore (Fl : Type 0) : Type 0 where
  pub plugin_uri : String
  pub found_plugin : Bool
  pub init_error : String
  pub instance_ : Option Instance
  pub sample_rate : ℕ
  pub block_size : ℕ
  pub next_urid : ℕ
  pub uri_to_urid : List Urid
  pub urid_to_uri : List Urid
  pub ports : List (Port Fl)
  pub control_port_index : List (String × ℕ)
  pub audio_ports : AudioPorts

-- `map_urid`: the id, and the host that knows it.
pub record Mapped (Fl : Type 0) : Type 0 where
  pub host : Lv2HostCore Fl
  pub urid : ℕ

abbrev pub find_uri : String → List Urid → Option Urid
find_uri uri urids = find (λ u. u.uri =s uri) urids

abbrev pub find_urid : ℕ → List Urid → Option Urid
find_urid urid urids = find (λ u. u.urid == urid) urids

abbrev pub uri_of : Option Urid → Option String
uri_of none = none
uri_of (some u) = some u.uri

-- What `create_instance` maps for the options, in their order.
abbrev pub option_uris : List String
option_uris =
    "http://lv2plug.in/ns/ext/parameters#sampleRate" ∷ "http://lv2plug.in/ns/ext/atom#Float"
    ∷ "http://lv2plug.in/ns/ext/buf-size#minBlockLength" ∷ "http://lv2plug.in/ns/ext/atom#Int"
    ∷ "http://lv2plug.in/ns/ext/buf-size#maxBlockLength" ∷ "http://lv2plug.in/ns/ext/atom#Int"
    ∷ "http://lv2plug.in/ns/ext/buf-size#nominalBlockLength" ∷ "http://lv2plug.in/ns/ext/atom#Int"
    ∷ []

abbrev connect_port : Option ℕ → AudioBuffer → Instance → Instance
connect_port none buffer i = i
connect_port (some index) buffer i = record i {
  audio = (index, buffer) ∷ keep (λ c. not (c.0 == index)) i.audio;
}

abbrev connect_stereo : AudioPorts → Instance → Instance
connect_stereo a i = connect_port a.out_right right_out (
    connect_port a.out_left left_out
      (connect_port a.in_right right_in (connect_port a.in_left left_in i)))

module _ {Fl : Type 0} where
  unfoldable pub map_urid : String → Lv2HostCore Fl → Mapped Fl
  map_urid uri h =
      on_option (find_uri uri h.uri_to_urid)
        (record {
          host = record h {
            next_urid = (h.next_urid + 1) % 2 ^ 32;
            uri_to_urid = record { uri = uri; urid = h.next_urid } ∷ h.uri_to_urid;
            urid_to_uri =
                record { uri = uri; urid = h.next_urid }
                ∷ keep (λ u. not (u.urid == h.next_urid)) h.urid_to_uri;
          };
          urid = h.next_urid;
        })
        (λ u. record { host = h; urid = u.urid })

  -- The `unmap` that the plugin gets; none for a null pointer.
  unfoldable pub unmap_urid : ℕ → Lv2HostCore Fl → Option String
  unmap_urid urid h = uri_of (find_urid urid h.urid_to_uri)

  abbrev pub map_urids : List String → Lv2HostCore Fl → Lv2HostCore Fl
  map_urids [] h = h
  map_urids (uri ∷ uris) h = map_urids uris ((map_urid uri h).host)

  abbrev control_indices : List (Port Fl) → List ℕ
  control_indices [] = []
  control_indices (port ∷ ports) =
      let rest = control_indices ports in
      elim port.type [ control ↦ port.index ∷ rest | audio ↦ rest | atom ↦ rest ]

  unfoldable pub destroy_instance : Lv2HostCore Fl → Lv2HostCore Fl
  destroy_instance h = record h { instance_ = none }

  abbrev same_format : ℕ → ℕ → Lv2HostCore Fl → Option Instance → Bool
  same_format rate block h none = false
  same_format rate block h (some i) = h.sample_rate == rate && h.block_size == block

  -- `instantiates` is whether lilv makes the instance, and `asks` the URIs that the plugin has
  -- mapped while it does.
  abbrev instantiate : Bool → List String → Lv2HostCore Fl → Lv2HostCore Fl × Bool
  instantiate instantiates asks h =
      let known = map_urids asks h in
      if instantiates
      then (
        record known {
          instance_ = some (record { controls = control_indices known.ports; audio = [] });
        },
        true,
      )
      else (known, false)

  unfoldable pub create_instance :
      Bool → List String → ℕ → ℕ → Lv2HostCore Fl → Lv2HostCore Fl × Bool
  create_instance instantiates asks rate block h =
      if not h.found_plugin
      then (h, false)
      else if same_format rate block h h.instance_
      then (h, true)
      else instantiate instantiates asks (
          map_urids option_uris
            (record (destroy_instance h) { sample_rate = rate; block_size = block }))

  abbrev on_instance : (Instance → Instance) → Lv2HostCore Fl → Lv2HostCore Fl
  on_instance f h = on_option h.instance_ h (λ i. record h { instance_ = some (f i) })

  unfoldable pub connect_audio_ports : Lv2HostCore Fl → Lv2HostCore Fl
  connect_audio_ports h = on_instance (connect_stereo h.audio_ports) h

  -- The overload with a side chain.
  unfoldable pub connect_audio_ports_with_probe : Lv2HostCore Fl → Lv2HostCore Fl
  connect_audio_ports_with_probe h =
      on_instance
        (λ i.
          connect_port h.audio_ports.probe_right probe_right
            (connect_port h.audio_ports.probe_left probe_left i))
        (connect_audio_ports h)
