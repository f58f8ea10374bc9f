-- ===== src/Network/Details.antt =====
-- Details of ethtool and of VLANs: src/parser/network_details.cpp.
use sysal.Prelude.{
  ltb, ◌==◌, if◌then◌else◌, length, take, drop, any, is_nil, is_some, Bytes, codes, text_eq,
  text_mem, starts_with, ℕ, Bool, true, false, not, ◌&&◌, ◌||◌, none, some, List, [], ◌∷◌, ◌++◌,
}
use sysal.Types.{RawSource, CollectStatus, is_success}
use sysal.Text.{trim, split, find, parse_kv, hardware_text}
use sysal.Text.Words.{words}
use sysal.Number.{parse_uint}
use sysal.RawStore.{RawRecord, RawStore, get_all}
use sysal.Network.{NetworkInterface, Network}

-- the list that `modes` points to
pub data LinkModes : Type 0 where
  no_modes supported_modes advertised_modes peer_modes : LinkModes

unfoldable modes_of : Bytes → LinkModes
modes_of key =
    if text_eq key (codes "Supported link modes")
    then supported_modes
    else if text_eq key (codes "Advertised link modes")
    then advertised_modes
    else if text_eq key (codes "Link partner advertised link modes")
    then peer_modes
    else no_modes

-- an address with a digit that is not 0
unfoldable is_address_text : Bytes → Bool
is_address_text value =
    not (is_nil value)
    && any (λ ch. not (ch == b'0') && not (ch == b':')) value
    && is_some (find value b':')

unfoldable set_ethtool : Bytes → Bytes → NetworkInterface → NetworkInterface
unfolding is_address_text
set_ethtool key value iface =
    if text_eq key (codes "firmware-version")
    then record iface { firmware_version = hardware_text value }
    else if text_eq key (codes "version")
    then record iface { driver_version = hardware_text value }
    else if text_eq key (codes "Auto-negotiation")
        && (text_eq value (codes "on") || text_eq value (codes "off"))
    then record iface { autonegotiation = some (text_eq value (codes "on")) }
    else if text_eq key (codes "Permanent address") && is_address_text value
    then record iface { permanent_mac = some value }
    else iface

-- the words with a slash, each one once
unfoldable push_modes : List Bytes → List Bytes → List Bytes
push_modes [] modes = modes
push_modes (mode ∷ tokens) modes =
    push_modes tokens
      (if is_some (find mode b'/') && not (text_mem mode modes) then modes ++ mode ∷ [] else modes)

unfoldable add_modes : LinkModes → Bytes → NetworkInterface → NetworkInterface
unfolding push_modes
add_modes no_modes value iface = iface
add_modes supported_modes value iface = record iface {
  supported_link_modes = push_modes (words value) iface.supported_link_modes;
}
add_modes advertised_modes value iface = record iface {
  advertised_link_modes = push_modes (words value) iface.advertised_link_modes;
}
add_modes peer_modes value iface = record iface {
  peer_link_modes = push_modes (words value) iface.peer_link_modes;
}

-- one line; a line without a colon goes on with the modes of the last one
unfoldable ethtool_line : Bytes → LinkModes × NetworkInterface → LinkModes × NetworkInterface
unfolding modes_of set_ethtool add_modes
ethtool_line line (modes, iface) = elim (find line b':') [
  | none ↦ (modes, add_modes modes (trim line) iface)
  | some colon ↦
      let pair = parse_kv line b':' in
      (modes_of pair.0, add_modes (modes_of pair.0) pair.1 (set_ethtool pair.0 pair.1 iface))
]

unfoldable ethtool_lines : List Bytes → LinkModes × NetworkInterface → LinkModes × NetworkInterface
unfolding ethtool_line
ethtool_lines [] state = state
ethtool_lines (line ∷ lines) state = ethtool_lines lines (ethtool_line line state)

unfoldable parse_ethtool : Bytes → NetworkInterface → NetworkInterface
unfolding ethtool_lines
parse_ethtool payload iface = (ethtool_lines (split payload b'\n') (no_modes, iface)).1

-- the first interface with a name is changed
unfoldable change_interface :
    Bytes → (NetworkInterface → NetworkInterface) → List NetworkInterface → List NetworkInterface
change_interface name f [] = []
change_interface name f (i ∷ is) =
    let rest = change_interface name f is in if text_eq i.name name then f i ∷ is else i ∷ rest

abbrev ethtool_prefix : Bytes
ethtool_prefix = codes "ethtool/"

-- the text up to the next slash
unfoldable interface_name : Bytes → Bytes
interface_name behind = elim (find behind b'/') [ none ↦ behind | some end ↦ take end behind ]

unfoldable is_readable : CollectStatus → Bool
is_readable CollectStatus.success = true
is_readable CollectStatus.partial = true
is_readable _ = false

unfoldable read_ethtool : List RawRecord → List NetworkInterface → List NetworkInterface
unfolding parse_ethtool change_interface interface_name is_readable
read_ethtool [] interfaces = interfaces
read_ethtool (rec ∷ records) interfaces = read_ethtool records (
    if is_readable rec.status && starts_with rec.path_or_command ethtool_prefix
    then change_interface (interface_name (drop (length ethtool_prefix) rec.path_or_command))
        (parse_ethtool rec.payload) interfaces
    else interfaces)

unfoldable set_vlan : ℕ → Bytes → NetworkInterface → NetworkInterface
set_vlan id parent iface = record iface {
  interface_kind = codes "vlan";
  vlan_id = some id;
  vlan_parent = some parent;
}

-- a line of three fields, whose number has twelve bits
unfoldable vlan_fields : List Bytes → List NetworkInterface → List NetworkInterface
unfolding set_vlan change_interface
vlan_fields (name ∷ number ∷ parent ∷ []) interfaces = elim (parse_uint number) [
  | none ↦ interfaces
  | some id ↦
      if ltb 4095 id || is_nil (trim parent)
      then interfaces
      else change_interface (trim name) (set_vlan id (trim parent)) interfaces
]
vlan_fields _ interfaces = interfaces

unfoldable vlan_lines : List Bytes → List NetworkInterface → List NetworkInterface
unfolding vlan_fields
vlan_lines [] interfaces = interfaces
vlan_lines (line ∷ lines) interfaces = vlan_lines lines (vlan_fields (split line b'|') interfaces)

unfoldable read_vlans : List RawRecord → List NetworkInterface → List NetworkInterface
unfolding vlan_lines
read_vlans [] interfaces = interfaces
read_vlans (rec ∷ records) interfaces =
    read_vlans records (
      if is_success rec.status then vlan_lines (split rec.payload b'\n') interfaces else interfaces)

unfoldable apply_network_details : Network → RawStore → Network
unfolding read_ethtool read_vlans
apply_network_details network raw = record network {
  interfaces =
      read_vlans (get_all raw RawSource.proc_net_vlan)
        (read_ethtool (get_all raw RawSource.ethtool) network.interfaces);
}
