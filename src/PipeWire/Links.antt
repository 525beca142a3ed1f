-- ===== src/PipeWire/Links.antt =====
-- The links between two nodes' ports (src/pipewire_router.cpp, link_nodes).
use ee_eq_cli.Common.{
  ℕ, zero, suc, Option, none, some, ◌==◌, Bool, true, false, ◌&&◌, ◌||◌, not, String, List, [], ◌∷◌,
  ◌=s◌, ◌<>◌, any, push_back, decimal, if◌then◌else◌,
}
use ee_eq_cli.PipeWire.{
  RouterState, LinkState, LinkStatus, PortInfo, World, Tried, done, failed, ◌>>=◌, get_node_ports,
}

-- The state of the `i`-th link; without the change mask's bit there is none to set.
abbrev set_state : ℕ → LinkStatus → List LinkState → List LinkState
set_state i status [] = []
set_state zero status (link ∷ links) = record link { state = status } ∷ links
set_state (suc i) status (link ∷ links) = link ∷ set_state i status links

unfoldable pub on_link_info : ℕ → Option LinkStatus → RouterState → RouterState
on_link_info i none s = s
on_link_info i (some status) s = record s { created_links = set_state i status s.created_links }

-- `proxy == nullptr` leaves no link; the new link's state is 0.
abbrev pub new_link : ℕ → ℕ → PortInfo × PortInfo → LinkState
new_link output_node_id input_node_id (outp, inp) = record {
  output_node = output_node_id;
  output_port = outp.id;
  input_node = input_node_id;
  input_port = inp.id;
  state = LinkStatus.init;
}

abbrev pub other_channel : PortInfo → Bool
other_channel port = not (port.audio_channel =s "FL") && not (port.audio_channel =s "FR")

abbrev pub use_audio_channel : List PortInfo → List PortInfo → Bool
use_audio_channel outs ins = not (any other_channel outs) && not (any other_channel ins)

abbrev pub port_match : Bool → PortInfo → PortInfo → Bool
port_match by_channel outp inp =
    if by_channel then outp.audio_channel =s inp.audio_channel else outp.port_id == inp.port_id

-- The inner loop: the pairs of one output port, before those that follow.
abbrev pub pairs_of :
    Bool → PortInfo → List PortInfo → List (PortInfo × PortInfo) → List (PortInfo × PortInfo)
pairs_of by_channel outp [] rest = rest
pairs_of by_channel outp (inp ∷ ins) rest =
    let more = pairs_of by_channel outp ins rest in
    if port_match by_channel outp inp then (outp, inp) ∷ more else more

abbrev pub match_ports : Bool → List PortInfo → List PortInfo → List (PortInfo × PortInfo)
match_ports by_channel [] ins = []
match_ports by_channel (outp ∷ outs) ins =
    pairs_of by_channel outp ins (match_ports by_channel outs ins)

abbrev pub no_pairs : List (PortInfo × PortInfo) → Bool
no_pairs [] = true
no_pairs (p ∷ ps) = false

abbrev pub no_ports : List PortInfo → Bool
no_ports [] = true
no_ports (p ∷ ps) = false

abbrev pub missing_ports : RouterState → ℕ → ℕ → Bool
missing_ports s output_node_id input_node_id =
    no_ports (get_node_ports s output_node_id "out")
    || no_ports (get_node_ports s input_node_id "in")

-- `matches`
abbrev pub matched_ports : RouterState → ℕ → ℕ → List (PortInfo × PortInfo)
matched_ports s output_node_id input_node_id =
    let outs = get_node_ports s output_node_id "out" in
    let ins = get_node_ports s input_node_id "in" in
    match_ports (use_audio_channel outs ins) outs ins

abbrev pub link_text : String → ℕ → ℕ → String
link_text what a b = what <> decimal a <> " -> " <> decimal b

module _ (W : World) where
  -- One round of the last loop.
  abbrev pub create_link : ℕ → ℕ → PortInfo × PortInfo → RouterState → Tried
  create_link a b pair s =
      if W.creates s (new_link a b pair)
      then done
          (W.during (record s { created_links = push_back s.created_links (new_link a b pair) }))
      else failed s (link_text "failed to create PipeWire link " a b)

  unfoldable pub create_links : ℕ → ℕ → List (PortInfo × PortInfo) → RouterState → Tried
  create_links a b [] s = done s
  create_links a b (pair ∷ pairs) s = create_link a b pair s >>= λ s. create_links a b pairs s

  unfoldable pub link_nodes : ℕ → ℕ → RouterState → Tried
  link_nodes output_node_id input_node_id s =
      if missing_ports s output_node_id input_node_id
      then failed s (link_text "missing ports for link " output_node_id input_node_id)
      else if no_pairs (matched_ports s output_node_id input_node_id)
      then failed s (link_text "failed to match ports for link " output_node_id input_node_id)
      else create_links output_node_id input_node_id (matched_ports s output_node_id input_node_id)
          s
