-- ===== src/Network.antt =====
-- Network interfaces and RDMA devices: include/sysal/model/network.hpp and rdma.hpp. Ports and the
-- enumerations of RDMA are left out.
pub mod Details
use sysal.Prelude.{keep, first, Bytes, text_eq, ℕ, Bool, Option, List}
use sysal.Pci.{PciAddress}

pub data InterfaceState : Type 0 where
  up down unknown : InterfaceState

pub record NetworkInterface : Type 0 where
  pub name : Bytes
  pub mac : Bytes
  pub state : InterfaceState
  pub speed : Option ℕ
  pub addresses : List Bytes
  pub pci_address : Option PciAddress
  pub visible_to_current_process : Bool
  pub mtu : Option ℕ
  pub carrier : Option Bool
  pub duplex : Bytes
  pub driver : Bytes
  pub physical_port_name : Bytes
  pub numa_node : Option ℕ
  pub interface_index : Option ℕ
  pub vendor : Bytes
  pub device_name : Bytes
  pub firmware_version : Bytes
  pub driver_version : Bytes
  pub permanent_mac : Option Bytes
  pub autonegotiation : Option Bool
  pub supported_link_modes : List Bytes
  pub advertised_link_modes : List Bytes
  pub peer_link_modes : List Bytes
  pub master : Option Bytes
  pub lower_interfaces : List Bytes
  pub interface_kind : Bytes
  pub bond_mode : Bytes
  pub vlan_id : Option ℕ
  pub vlan_parent : Option Bytes

pub record RdmaDevice : Type 0 where
  pub id : ℕ
  pub name : Bytes
  pub description : Bytes
  pub node_guid : Bytes
  pub system_image_guid : Bytes
  pub firmware_version : Bytes
  pub driver : Bytes
  pub pci_address : Option PciAddress
  pub numa_node : Option ℕ
  pub vendor : Bytes
  pub device_name : Bytes
  pub network_interfaces : List Bytes

pub record Network : Type 0 where
  pub interfaces : List NetworkInterface
  pub rdma : List RdmaDevice

-- `Network::visible` and `Network::find`
unfoldable visible_interfaces : Network → List NetworkInterface
visible_interfaces n = keep (λ i. i.visible_to_current_process) n.interfaces

unfoldable find_interface : Network → Bytes → Option NetworkInterface
find_interface n name = first (λ i. text_eq i.name name) n.interfaces
