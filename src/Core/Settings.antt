-- ===== src/Core/Settings.antt =====
-- app/core/settings.py: the settings, their defaults and the files they lead to. A path is its text, normalised.
use insatomcat_webui.Base.{ℕ, ◌*◌, String, ◌==◌, Bool, true, false, [], ◌∷◌, concat, if◌then◌else◌}

pub record Settings : Type 0 where
  pub bind_address : String
  pub port : ℕ
  pub state_dir : String
  pub host_root : String
  pub inventory_dir : String
  pub runs_dir : String
  pub collections_path : String
  pub ssh_config_dir : String
  pub ansible_user : String
  pub ansible_ssh_dir : String
  pub admin_group : String
  pub operator_group : String
  pub viewer_group : String
  pub pam_service : String
  pub tls_additional_sans : String
  pub allow_root_login : Bool
  pub session_ttl_seconds : ℕ
  pub session_cookie_name : String
  pub csrf_cookie_name : String
  pub csrf_header_name : String
  pub log_level : String
  pub collection_version : String
  pub use_fakes : Bool

-- The values when the environment sets none.
abbrev pub default_settings : Settings
default_settings = record {
  bind_address = "0.0.0.0";
  port = 8006;
  state_dir = "/etc/seapath/webui";
  host_root = "/";
  inventory_dir = "/etc/seapath/inventory";
  runs_dir = "/var/lib/seapath-webui/runs";
  collections_path = "/opt/ansible/collections";
  ssh_config_dir = "/etc/ssh";
  ansible_user = "ansible";
  ansible_ssh_dir = "/home/ansible/.ssh";
  admin_group = "seapath-admin";
  operator_group = "seapath-operator";
  viewer_group = "seapath-viewer";
  pam_service = "seapath-webui";
  tls_additional_sans = "";
  allow_root_login = true;
  session_ttl_seconds = 8 * 3600;
  session_cookie_name = "seapath_session";
  csrf_cookie_name = "seapath_csrf";
  csrf_header_name = "X-CSRF-Token";
  log_level = "INFO";
  collection_version = "unknown";
  use_fakes = false;
}

-- `directory / name`, of a relative name
abbrev below : String → String → String
below directory name =
    if directory == "/"
    then concat ("/" ∷ name ∷ [])
    else if directory == "."
    then name
    else concat (directory ∷ "/" ∷ name ∷ [])

module _ (settings : Settings) where
  abbrev pub pki_dir : String
  pki_dir = below settings.state_dir "pki"

  abbrev pub tls_cert_file : String
  tls_cert_file = below pki_dir "server.crt"

  abbrev pub tls_key_file : String
  tls_key_file = below pki_dir "server.key"

  abbrev pub session_secret_file : String
  session_secret_file = below settings.state_dir "session.secret"

  abbrev pub ssh_dir : String
  ssh_dir = below settings.state_dir "ssh"

  abbrev pub authorized_keys_file : String
  authorized_keys_file = below settings.ansible_ssh_dir "authorized_keys"

  abbrev pub self_private_key_file : String
  self_private_key_file = below ssh_dir "id_ed25519_self"

  abbrev pub known_hosts_file : String
  known_hosts_file = below ssh_dir "known_hosts"
