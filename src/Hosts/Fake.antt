-- ===== src/Hosts/Fake.antt =====
-- app/hosts/fake.py: the machine that is invented for development. Its floats and the time of its start are
-- arguments.
use insatomcat_webui.Base.{
  ℕ, ◌/◌, pos, String, ◌=?◌, true, false, none, some, List, [], ◌∷◌, map, any,
}
use insatomcat_webui.Hosts.Cpu.{CpuTopologyEntry, CpuReading}
use insatomcat_webui.Hosts.Disks.{DisksReading, PtpClock}
use insatomcat_webui.Hosts.Identity.{NodeMode, NodeIdentity}
use insatomcat_webui.Hosts.Network.{InterfaceAddress, NetworkReading}

-- `_ISOLATED`
abbrev pub isolated : List ℕ
isolated = 4 ∷ 5 ∷ 6 ∷ 7 ∷ []

unfoldable pub node_identity : {F D : Type 0} → String → NodeMode → F → D → NodeIdentity F D
node_identity hostname mode uptime boot_time = record {
  hostname = hostname;
  kernel_release = some "6.1.0-18-rt-amd64";
  distribution = some "Debian GNU/Linux 12 (bookworm)";
  distribution_id = some "debian";
  distribution_version = some "12";
  uptime_seconds = some uptime;
  boot_time = some boot_time;
  mode = mode;
  warnings = [];
}

abbrev entry : ℕ → CpuTopologyEntry
entry cpu = record {
  cpu = cpu;
  socket = some (pos 0);
  core = some (pos (cpu / 2));
  online = true;
  isolated = any (λ c. c =? cpu) isolated;
  busy_percent = some (record { busy = pos cpu; whole = 100 });
}

unfoldable pub cpu : {F : Type 0} → List F → CpuReading F
cpu loads = record {
  model = some "Intel(R) Xeon(R) Silver 4310 CPU @ 2.10GHz";
  present = some 8;
  online = some 8;
  isolated = isolated;
  isolated_source = some "sysfs";
  nohz_full = isolated;
  housekeeping = 0 ∷ 1 ∷ 2 ∷ 3 ∷ [];
  load_average = some loads;
  topology = map entry (0 ∷ 1 ∷ 2 ∷ 3 ∷ isolated);
  kernel_cmdline =
      some
        "BOOT_IMAGE=/vmlinuz root=/dev/mapper/main-root ro isolcpus=4-7 nohz_full=4-7 rcu_nocbs=4-7";
  warnings = [];
}

abbrev inet : String → ℕ → InterfaceAddress
inet address prefix_length = record {
  address = address;
  prefix_length = some prefix_length;
  family = "inet";
}

unfoldable pub network : NetworkReading
network = record {
  interfaces =
      record {
        name = "eno1";
        kind = some "physical";
        mac = some "3c:ec:ef:00:11:22";
        operstate = some "up";
        carrier = some true;
        mtu = some (pos 1500);
        speed_mbps = some (pos 1000);
        driver = some "igb";
        master = none;
        addresses = inet "192.168.200.125" 24 ∷ [];
      }
      ∷ record {
        name = "eno12419";
        kind = some "physical";
        mac = some "3c:ec:ef:00:11:33";
        operstate = some "up";
        carrier = some true;
        mtu = some (pos 1500);
        speed_mbps = some (pos 10000);
        driver = some "ice";
        master = none;
        addresses = [];
      }
      ∷ record {
        name = "eno2";
        kind = some "physical";
        mac = some "3c:ec:ef:00:11:44";
        operstate = some "down";
        carrier = some false;
        mtu = some (pos 1500);
        speed_mbps = none;
        driver = some "igb";
        master = none;
        addresses = [];
      }
      ∷ record {
        name = "lo";
        kind = some "loopback";
        mac = none;
        operstate = some "unknown";
        carrier = none;
        mtu = some (pos 65536);
        speed_mbps = none;
        driver = none;
        master = none;
        addresses = inet "127.0.0.1" 8 ∷ [];
      }
      ∷ [];
  default_route_interface = some "eno1";
  default_gateway = some "192.168.200.1";
  warnings = [];
}

unfoldable pub ptp_clocks : List PtpClock
ptp_clocks = record { device = "ptp0"; clock_name = some "ice-ptp" } ∷ []

unfoldable pub disks : DisksReading
disks = record {
  devices =
      record {
        name = "sda";
        device_path = "/dev/sda";
        by_path = some "/dev/disk/by-path/pci-0000:03:00.0-scsi-0:2:0:0";
        size_bytes = some (pos 480103981056);
        model = some "PERC H730P";
        serial = none;
        rotational = some false;
        removable = some false;
        read_only = some false;
        partitions = "sda1" ∷ "sda2" ∷ [];
        holders = [];
        claimed = true;
        claim_reason = some "The device carries partitions.";
      }
      ∷ record {
        name = "sdb";
        device_path = "/dev/sdb";
        by_path = some "/dev/disk/by-path/pci-0000:03:00.0-scsi-0:2:1:0";
        size_bytes = some (pos 1920383410176);
        model = some "PERC H730P";
        serial = none;
        rotational = some false;
        removable = some false;
        read_only = some false;
        partitions = [];
        holders = [];
        claimed = false;
        claim_reason = none;
      }
      ∷ [];
  warnings = [];
}
