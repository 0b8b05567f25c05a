-- ===== src/Inventory/Discovery/Candidates.antt =====
-- app/inventory/discovery.py: `discover`, all that it shows besides the proposal.
use insatomcat_webui.Base.{
  ℕ, ℤ, String, ◌==◌, Bool, false, not, ◌&&◌, null, Option, none, some, List, [], ◌∷◌, ◌++◌, map,
  keep,
}
use insatomcat_webui.Hosts.Identity.{NodeMode, NodeIdentity}
use insatomcat_webui.Hosts.Cpu.{CpuReading}
use insatomcat_webui.Hosts.Network.{InterfaceAddress, NetworkInterface, NetworkReading}
use insatomcat_webui.Hosts.Disks.{BlockDevice, DisksReading, PtpClock}
use insatomcat_webui.Inventory.Model.{NodeConfig}
use insatomcat_webui.Inventory.Discovery.{proposed, is_loopback}

pub record InterfaceCandidate : Type 0 where
  pub name : String
  pub mac : Option String
  pub operstate : Option String
  pub speed_mbps : Option ℤ
  pub driver : Option String
  pub carries_default_route : Bool
  pub ptp_capable : Bool
  pub addresses : List String

pub record DiskCandidate : Type 0 where
  pub device_path : String
  pub by_path : Option String
  pub size_bytes : Option ℤ
  pub model : Option String
  pub claimed : Bool
  pub claim_reason : Option String

-- `Discovery`
pub record Discovered : Type 0 where
  pub hostname : String
  pub mode : NodeMode
  pub proposal : Option NodeConfig
  pub interfaces : List InterfaceCandidate
  pub disks : List DiskCandidate
  pub cpu_count : Option ℕ
  pub isolated_now : List ℕ
  pub warnings : List String

abbrev is_name : String → Option String → Bool
is_name name none = false
is_name name (some other) = name == other

abbrev candidate_of : Option String → Bool → NetworkInterface → InterfaceCandidate
candidate_of route clocked item = record {
  name = item.name;
  mac = item.mac;
  operstate = item.operstate;
  speed_mbps = item.speed_mbps;
  driver = item.driver;
  carries_default_route = is_name item.name route;
  ptp_capable = clocked && is_name "physical" item.kind;
  addresses = map (λ (a : InterfaceAddress). a.address) item.addresses;
}

abbrev disk_of : BlockDevice → DiskCandidate
disk_of d = record {
  device_path = d.device_path;
  by_path = d.by_path;
  size_bytes = d.size_bytes;
  model = d.model;
  claimed = d.claimed;
  claim_reason = d.claim_reason;
}

abbrev unproposed : Option NodeConfig → List String
unproposed (some node) = []
unproposed none =
    "No interface carries the default route, so the administration address could not be proposed. Fill it in from the form."
    ∷ []

-- `discover`
unfoldable pub discover :
    {F D : Type 0}
    → NodeIdentity F D
    → NetworkReading
    → CpuReading F
    → DisksReading
    → List PtpClock
    → Discovered
unfolding proposed
discover identity network cpu disks clocks =
    let proposal = proposed network cpu.isolated cpu.online in
    record {
      hostname = identity.hostname;
      mode = identity.mode;
      proposal = proposal;
      interfaces =
          map (candidate_of network.default_route_interface (not (null clocks)))
            (keep (λ (i : NetworkInterface). not (is_loopback i.kind)) network.interfaces);
      disks = map disk_of disks.devices;
      cpu_count = cpu.online;
      isolated_now = cpu.isolated;
      warnings =
          identity.warnings
          ++ (network.warnings ++ (cpu.warnings ++ (disks.warnings ++ unproposed proposal)));
    }
