-- ===== src/Main.antt =====
-- app/main.py: `create_app`, which chooses the adapters and gives each service its files. The adapters are of
-- any types, and their constructors are arguments; the secret is what is made or read for these settings.
use insatomcat_webui.Base.{String, ◌==◌, Option, none, some, [], if◌then◌else◌}
use insatomcat_webui.Core.Settings.{
  Settings, ssh_dir, authorized_keys_file, self_private_key_file, known_hosts_file,
}
use insatomcat_webui.Core.Sessions.{SessionStore}

-- The adapters there are, the invented ones and those of a machine.
pub record Adapters (Reader Authenticator Directory Runner : Type 0) : Type 0 where
  pub fake_reader : Reader
  pub local_reader : String → Reader
  pub dev_authenticator : Authenticator
  pub pam_authenticator : String → Authenticator
  pub dev_directory : Directory
  pub unix_directory : Settings → Directory
  pub fake_runner : Runner
  pub ansible_runner : Runner

-- What a caller of `create_app` may give.
pub record Given (Reader Authenticator Directory Runner : Type 0) : Type 0 where
  pub reader : Option Reader
  pub authenticator : Option Authenticator
  pub role_directory : Option Directory
  pub session_secret : Option String
  pub run_adapter : Option Runner

pub record RunPaths : Type 0 where
  pub collections_path : String
  pub private_key_file : String
  pub known_hosts_file : String

-- `app.state`, with what its services were built of
pub record AppState (Reader Authenticator Directory Runner : Type 0) : Type 0 where
  pub settings : Settings
  pub reader : Reader
  pub authenticator : Authenticator
  pub role_directory : Directory
  pub secret : String
  pub sessions : SessionStore
  pub node_hostname : String
  pub trust_ssh_dir : String
  pub trust_authorized_keys_file : String
  pub trust_ansible_user : String
  pub repository_dir : String
  pub store_dir : String
  pub run_adapter : Runner
  pub run_paths : RunPaths

abbrev given_or : {A : Type 0} → A → Option A → A
given_or made none = made
given_or made (some a) = a

-- An empty secret counts as none.
abbrev secret_or : String → Option String → String
secret_or made none = made
secret_or made (some s) = if s == "" then made else s

module _ {Reader Authenticator Directory Runner : Type 0} where
  abbrev pub default_run_adapter :
      Adapters Reader Authenticator Directory Runner → Settings → Runner
  default_run_adapter adapters settings =
      if settings.use_fakes then adapters.fake_runner else adapters.ansible_runner

  unfoldable pub create_app :
      Adapters Reader Authenticator Directory Runner
      → Settings
      → String
      → String
      → Given Reader Authenticator Directory Runner
      → AppState Reader Authenticator Directory Runner
  create_app adapters settings secret hostname given = record {
    settings = settings;
    reader =
        given_or
          (if settings.use_fakes
            then adapters.fake_reader
            else adapters.local_reader settings.host_root)
          given.reader;
    authenticator =
        given_or
          (if settings.use_fakes
            then adapters.dev_authenticator
            else adapters.pam_authenticator settings.pam_service)
          given.authenticator;
    role_directory =
        given_or
          (if settings.use_fakes then adapters.dev_directory else adapters.unix_directory settings)
          given.role_directory;
    secret = secret_or secret given.session_secret;
    sessions = record { ttl = settings.session_ttl_seconds; sessions = [] };
    node_hostname = hostname;
    trust_ssh_dir = ssh_dir settings;
    trust_authorized_keys_file = authorized_keys_file settings;
    trust_ansible_user = settings.ansible_user;
    repository_dir = settings.inventory_dir;
    store_dir = settings.runs_dir;
    run_adapter = given_or (default_run_adapter adapters settings) given.run_adapter;
    run_paths = record {
      collections_path = settings.collections_path;
      private_key_file = self_private_key_file settings;
      known_hosts_file = known_hosts_file settings;
    };
  }
