-- ===== src/Api/Node.antt =====
-- app/services/node.py and app/api/v1/node.py: what the view of the node is composed of.
use insatomcat_webui.Base.{String, Option, none, List}
use insatomcat_webui.Hosts.Identity.{NodeMode, NodeIdentity}

-- `NodeSummary`, of a service of some version
pub record NodeSummary (F D : Type 0) : Type 0 where
  pub hostname : String
  pub mode : NodeMode
  pub kernel_release : Option String
  pub distribution : Option String
  pub uptime_seconds : Option F
  pub boot_time : Option D
  pub seapath_version : Option String
  pub collection_version : String
  pub webui_version : String
  pub inventory_commit : Option String
  pub role : Option String
  pub warnings : List String

-- `summary`
unfoldable pub summary : {F D : Type 0} → String → String → NodeIdentity F D → NodeSummary F D
summary webui_version collection_version identity = record {
  hostname = identity.hostname;
  mode = identity.mode;
  kernel_release = identity.kernel_release;
  distribution = identity.distribution;
  uptime_seconds = identity.uptime_seconds;
  boot_time = identity.boot_time;
  seapath_version = none;
  collection_version = collection_version;
  webui_version = webui_version;
  inventory_commit = none;
  role = none;
  warnings = identity.warnings;
}
