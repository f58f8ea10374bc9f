-- ===== src/Storage/Classification.antt =====
-- Layers, purposes, protocols and transports: src/parser/storage_classification.cpp.
use sysal.Prelude.{
  ltb, ◌==◌, if◌then◌else◌, first, is_some, Bytes, codes, text_eq, ℕ, Bool, true, false, not,
  Option, none, some, List, [], ◌∷◌, ◌++◌, map,
}
use sysal.Prelude.Sets.{contains}
use sysal.Text.{to_lower}
use sysal.Storage.{
  StorageProtocol, BlockDeviceLayer, StoragePurpose, StorageTransport, StorageClassification,
  NvmeController, ScsiHost, ScsiDeviceInfo, StorageDevice, Storage,
}

unfoldable transport_of : Bytes → StorageTransport
transport_of value =
    let lower = map to_lower value in
    if text_eq lower (codes "pcie")
    then StorageTransport.pcie
    else if text_eq lower (codes "sata")
    then StorageTransport.sata
    else if text_eq lower (codes "sas")
    then StorageTransport.sas
    else if text_eq lower (codes "usb")
    then StorageTransport.usb
    else if text_eq lower (codes "tcp")
    then StorageTransport.tcp
    else if text_eq lower (codes "rdma")
    then StorageTransport.rdma
    else if text_eq lower (codes "fc")
    then StorageTransport.fibre_channel
    else if text_eq lower (codes "iscsi")
    then StorageTransport.iscsi
    else if text_eq lower (codes "spi")
    then StorageTransport.parallel_scsi
    else StorageTransport.unknown

-- `nvme_namespace && nvme_namespace->id.value() != 0`
unfoldable has_namespace : StorageDevice → Bool
has_namespace device = elim device.nvme_namespace [ none ↦ false | some n ↦ not (n.id == 0) ]

-- the peripheral types of SCSI
unfoldable scsi_purpose : ℕ → StoragePurpose
scsi_purpose type =
    if contains type (0 ∷ 14 ∷ 20 ∷ [])
    then StoragePurpose.disk
    else if contains type (4 ∷ 5 ∷ 7 ∷ [])
    then StoragePurpose.optical
    else if contains type (1 ∷ 2 ∷ 3 ∷ 6 ∷ 8 ∷ 9 ∷ 12 ∷ 13 ∷ 17 ∷ 30 ∷ [])
    then StoragePurpose.other
    else StoragePurpose.unknown

unfoldable peripheral_type_of : Option ScsiDeviceInfo → Option ℕ
peripheral_type_of none = none
peripheral_type_of (some info) = info.peripheral_type

unfoldable purpose_of : StorageDevice → StoragePurpose
unfolding has_namespace scsi_purpose peripheral_type_of
purpose_of device =
    if has_namespace device
    then StoragePurpose.disk
    else elim (peripheral_type_of device.scsi_device) [
      | some type ↦ scsi_purpose type
      | none ↦
          if text_eq device.driver (codes "virtio_blk")
          then StoragePurpose.disk
          else StoragePurpose.unknown
    ]

-- the number of an enumerator, which orders the transports
unfoldable transport_rank : StorageTransport → ℕ
transport_rank StorageTransport.unknown = 0
transport_rank StorageTransport.pcie = 1
transport_rank StorageTransport.sata = 2
transport_rank StorageTransport.sas = 3
transport_rank StorageTransport.usb = 4
transport_rank StorageTransport.tcp = 5
transport_rank StorageTransport.rdma = 6
transport_rank StorageTransport.fibre_channel = 7
transport_rank StorageTransport.iscsi = 8
transport_rank StorageTransport.parallel_scsi = 9

-- sorting and removing duplicates, one element at a time
unfoldable insert_transport : StorageTransport → List StorageTransport → List StorageTransport
unfolding transport_rank
insert_transport t [] = t ∷ []
insert_transport t (u ∷ us) =
    let rest = insert_transport t us in
    if ltb (transport_rank t) (transport_rank u)
    then t ∷ u ∷ us
    else if transport_rank t == transport_rank u
    then u ∷ us
    else u ∷ rest

unfoldable sort_unique : List StorageTransport → List StorageTransport
unfolding insert_transport
sort_unique [] = []
sort_unique (t ∷ ts) = insert_transport t (sort_unique ts)

-- `add_transport`: an unknown one is not added
unfoldable add_transport : Bytes → List StorageTransport → List StorageTransport
unfolding transport_of
add_transport value transports =
    let kind = transport_of value in
    if transport_rank kind == 0 then transports else transports ++ kind ∷ []

-- the transports of the controllers with one name, then of all names of a namespace
unfoldable add_controllers :
    Bytes → List NvmeController → List StorageTransport → List StorageTransport
unfolding add_transport
add_controllers name [] transports = transports
add_controllers name (c ∷ cs) transports =
    add_controllers name cs
      (if text_eq c.name name then add_transport c.transport transports else transports)

unfoldable add_names :
    List Bytes → List NvmeController → List StorageTransport → List StorageTransport
unfolding add_controllers
add_names [] controllers transports = transports
add_names (name ∷ names) controllers transports =
    add_names names controllers (add_controllers name controllers transports)

unfoldable namespace_controllers : StorageDevice → List Bytes
namespace_controllers device = elim device.nvme_namespace [ none ↦ [] | some n ↦ n.controllers ]

-- whether the first host with a number has an ATA port
unfoldable host_is_ata : List ScsiHost → ℕ → Bool
host_is_ata hosts number = elim (first (λ h. h.number == number) hosts) [
  | none ↦ false
  | some host ↦ is_some host.ata_port
]

unfoldable protocol_of : List ScsiHost → StorageDevice → StorageProtocol
unfolding has_namespace host_is_ata
protocol_of hosts device =
    if has_namespace device then StorageProtocol.nvme else elim device.scsi_device [
      | none ↦ StorageProtocol.unknown
      | some info ↦
          if host_is_ata hosts info.address.host then StorageProtocol.ata else StorageProtocol.scsi
    ]

-- a virtual namespace of NVMe multipath is a device
unfoldable layer_of : BlockDeviceLayer → Bool → BlockDeviceLayer
layer_of BlockDeviceLayer.virtual true = BlockDeviceLayer.device
layer_of layer _ = layer

unfoldable owns_protocol : BlockDeviceLayer → Bool
owns_protocol BlockDeviceLayer.device = true
owns_protocol BlockDeviceLayer.unknown = true
owns_protocol _ = false

unfoldable transports_of : List NvmeController → StorageDevice → List StorageTransport
unfolding add_names namespace_controllers sort_unique
transports_of controllers device =
    let own = add_transport device.transport [] in
    sort_unique (
      if has_namespace device
      then add_names (namespace_controllers device) controllers own
      else own)

unfoldable classify : List NvmeController → List ScsiHost → StorageDevice → StorageClassification
unfolding purpose_of protocol_of layer_of owns_protocol transports_of
classify controllers hosts device =
    let layer = layer_of device.classification.layer (has_namespace device) in
    if owns_protocol layer
    then record {
      layer = layer;
      purpose = purpose_of device;
      protocol = protocol_of hosts device;
      transports = transports_of controllers device;
    }
    else record {
      layer = layer;
      purpose = StoragePurpose.unknown;
      protocol = StorageProtocol.unknown;
      transports = [];
    }

unfoldable classify_device : List NvmeController → List ScsiHost → StorageDevice → StorageDevice
unfolding classify
classify_device controllers hosts device = record device {
  classification = classify controllers hosts device;
}

unfoldable apply_storage_classification : Storage → Storage
unfolding classify_device
apply_storage_classification storage = record storage {
  devices = map (classify_device storage.nvme_controllers storage.scsi_hosts) storage.devices;
}
