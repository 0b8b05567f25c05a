-- ===== src/Runs/Catalogue/Cluster.antt =====
-- The entries for a cluster.
use insatomcat_webui.Base.{none, List, [], ◌∷◌, true}
use insatomcat_webui.Runs.Catalogue.Entries.{
  PlaybookEntry, VariableSpec, Preview, no_reboot, inventory_valid, self_trust, cluster,
}

abbrev pub machine_to_remove : VariableSpec
machine_to_remove = record {
  name = "machine_to_remove";
  type_name = "string";
  description = "The inventory name of the machine to evict.";
  required = true;
}

abbrev pub cluster_setup_ha : PlaybookEntry
cluster_setup_ha = record {
  id = "cluster_setup_ha";
  name = "cluster_setup_ha";
  title = "Form the cluster";
  targets = "cluster_machines" ∷ [];
  preview = Preview.no_preview;
  reboots = no_reboot;
  reboot_variable = none;
  disruption =
      "Corosync, the authkey, Pacemaker, stonith disabled. Command driven, so check mode would report nothing meaningful.";
  requires = inventory_valid ∷ self_trust ∷ cluster ∷ [];
  variables = [];
  notes = "";
}

abbrev pub cluster_setup_cephadm : PlaybookEntry
cluster_setup_cephadm = record {
  id = "cluster_setup_cephadm";
  name = "cluster_setup_cephadm";
  title = "Deploy Ceph";
  targets = "cluster_machines" ∷ [];
  preview = Preview.no_preview;
  reboots = no_reboot;
  reboot_variable = none;
  disruption =
      "Destructive on the selected disks. The inventory diff is the review step, because check mode cannot be one here.";
  requires = inventory_valid ∷ self_trust ∷ cluster ∷ [];
  variables = [];
  notes = "";
}

abbrev pub cluster_setup_libvirt : PlaybookEntry
cluster_setup_libvirt = record {
  id = "cluster_setup_libvirt";
  name = "cluster_setup_libvirt";
  title = "Apply the cluster libvirt configuration";
  targets = "hypervisors:&cluster_machines" ∷ [];
  preview = Preview.full;
  reboots = no_reboot;
  reboot_variable = none;
  disruption = "Installs the RBD secret for libvirt.";
  requires = inventory_valid ∷ self_trust ∷ cluster ∷ [];
  variables = [];
  notes = "";
}

abbrev pub cluster_setup_users : PlaybookEntry
cluster_setup_users = record {
  id = "cluster_setup_users";
  name = "cluster_setup_users";
  title = "Apply the cluster accounts";
  targets = "hypervisors:&cluster_machines" ∷ [];
  preview = Preview.full;
  reboots = no_reboot;
  reboot_variable = none;
  disruption = "Creates libvirtadmin, needed for live migration.";
  requires = inventory_valid ∷ self_trust ∷ cluster ∷ [];
  variables = [];
  notes = "";
}

abbrev pub cluster_remove_machine : PlaybookEntry
cluster_remove_machine = record {
  id = "cluster_remove_machine";
  name = "cluster_remove_machine";
  title = "Remove a machine from the cluster";
  targets = "cluster_machines" ∷ [];
  preview = Preview.no_preview;
  reboots = no_reboot;
  reboot_variable = none;
  disruption = "Evicts the machine from Pacemaker and from Ceph.";
  requires = inventory_valid ∷ self_trust ∷ cluster ∷ [];
  variables = machine_to_remove ∷ [];
  notes = "Must run from a surviving node, which is why the mesh is full.";
}

abbrev pub cluster_entries : List PlaybookEntry
cluster_entries =
    cluster_setup_ha ∷ cluster_setup_cephadm ∷ cluster_setup_libvirt ∷ cluster_setup_users
    ∷ cluster_remove_machine ∷ []
