-- ===== src/Runs/Catalogue/Machine.antt =====
-- The entries for a machine of its own.
use insatomcat_webui.Base.{String, none, some, List, [], ◌∷◌, ◌++◌, false}
use insatomcat_webui.Runs.Catalogue.Entries.{
  PlaybookEntry, VariableSpec, Preview, no_reboot, reboot, gated, inventory_valid, self_trust,
}

abbrev pub skip_reboot : VariableSpec
skip_reboot = record {
  name = "skip_reboot_setup";
  type_name = "boolean";
  description =
      "Converge without rebooting. The configuration is not fully applied until a reboot happens, and the node view keeps saying so.";
  required = false;
}

abbrev pub machine_targets : List String
machine_targets = "cluster_machines" ∷ "standalone_machine" ∷ []

abbrev pub seapath_setup_main : PlaybookEntry
seapath_setup_main = record {
  id = "seapath_setup_main";
  name = "seapath_setup_main";
  title = "Configure this machine";
  targets = machine_targets ++ "VMs" ∷ [];
  preview = Preview.partial;
  reboots = gated;
  reboot_variable = some "skip_reboot_setup";
  disruption =
      "The full convergence: prerequisites, network, time, libvirt, monitoring and real time tuning. On a live machine it restarts whatever the roles decide to restart, and it reboots at the end unless you ask it not to.";
  requires = inventory_valid ∷ self_trust ∷ [];
  variables = skip_reboot ∷ [];
  notes =
      "This is the commissioning path and what the CI runs, which makes it the granularity with evidence behind it.";
}

abbrev pub seapath_setup_network : PlaybookEntry
seapath_setup_network = record {
  id = "seapath_setup_network";
  name = "seapath_setup_network";
  title = "Apply the network configuration";
  targets = machine_targets;
  preview = Preview.partial;
  reboots = reboot;
  reboot_variable = none;
  disruption =
      "The playbook most likely to cut the connection under the run. Applies only when apply_network_config is true.";
  requires = inventory_valid ∷ self_trust ∷ [];
  variables = [];
  notes =
      "Run from another node when there is one. Launched from the machine it reconfigures, the run will very likely be interrupted.";
}

abbrev pub seapath_setup_timemaster : PlaybookEntry
seapath_setup_timemaster = record {
  id = "seapath_setup_timemaster";
  name = "seapath_setup_timemaster";
  title = "Apply the time synchronisation";
  targets = machine_targets;
  preview = Preview.full;
  reboots = no_reboot;
  reboot_variable = none;
  disruption = "Restarts timemaster, which briefly interrupts PTP.";
  requires = inventory_valid ∷ self_trust ∷ [];
  variables = [];
  notes = "";
}

abbrev pub seapath_setup_libvirt : PlaybookEntry
seapath_setup_libvirt = record {
  id = "seapath_setup_libvirt";
  name = "seapath_setup_libvirt";
  title = "Apply the libvirt configuration";
  targets = "hypervisors" ∷ [];
  preview = Preview.partial;
  reboots = no_reboot;
  reboot_variable = none;
  disruption = "Restarts libvirt. Running guests keep running.";
  requires = inventory_valid ∷ self_trust ∷ [];
  variables = [];
  notes = "";
}

abbrev pub seapath_setup_prometheus_exporters : PlaybookEntry
seapath_setup_prometheus_exporters = record {
  id = "seapath_setup_prometheus_exporters";
  name = "seapath_setup_prometheus_exporters";
  title = "Apply the Prometheus exporters";
  targets = machine_targets;
  preview = Preview.full;
  reboots = no_reboot;
  reboot_variable = none;
  disruption = "Restarts the exporters. Monitoring has a gap, nothing else.";
  requires = inventory_valid ∷ self_trust ∷ [];
  variables = [];
  notes = "";
}

abbrev pub seapath_setup_snmp : PlaybookEntry
seapath_setup_snmp = record {
  id = "seapath_setup_snmp";
  name = "seapath_setup_snmp";
  title = "Apply the SNMP configuration";
  targets = machine_targets;
  preview = Preview.full;
  reboots = no_reboot;
  reboot_variable = none;
  disruption = "Restarts snmpd.";
  requires = inventory_valid ∷ self_trust ∷ [];
  variables = [];
  notes = "";
}

abbrev pub seapath_setup_deploy_seapath_alloc : PlaybookEntry
seapath_setup_deploy_seapath_alloc = record {
  id = "seapath_setup_deploy_seapath_alloc";
  name = "seapath_setup_deploy_seapath_alloc";
  title = "Apply the dynamic CPU pinning";
  targets = "hypervisors" ∷ [];
  preview = Preview.partial;
  reboots = no_reboot;
  reboot_variable = none;
  disruption =
      "Real time relevant. Changes how guest threads are pinned to isolated CPUs, which is what the latency guarantee rests on.";
  requires = inventory_valid ∷ self_trust ∷ [];
  variables = [];
  notes = "";
}

abbrev pub seapath_setup_hardening : PlaybookEntry
seapath_setup_hardening = record {
  id = "seapath_setup_hardening";
  name = "seapath_setup_hardening";
  title = "Harden this machine";
  targets = machine_targets ++ "VMs" ∷ [];
  preview = Preview.partial;
  reboots = reboot;
  reboot_variable = none;
  disruption =
      "Ends with a reboot of every host. Sets PermitRootLogin no and restricts sshd to the administration and cluster addresses.";
  requires = inventory_valid ∷ self_trust ∷ [];
  variables = [];
  notes =
      "Offered only once the rest converges cleanly. This is the reason the SSH trust targets the `ansible` account and not root.";
}

abbrev pub machine_entries : List PlaybookEntry
machine_entries =
    seapath_setup_main ∷ seapath_setup_network ∷ seapath_setup_timemaster ∷ seapath_setup_libvirt
    ∷ seapath_setup_prometheus_exporters ∷ seapath_setup_snmp ∷ seapath_setup_deploy_seapath_alloc
    ∷ seapath_setup_hardening ∷ []
