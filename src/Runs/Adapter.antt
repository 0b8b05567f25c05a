-- ===== src/Runs/Adapter.antt =====
-- app/runs/adapter.py: what `ansible-playbook` is started with. A path is its text.
use insatomcat_webui.Base.{
  ℤ, pos, negsuc, suc, String, Bool, true, false, Option, none, some, List, [], ◌∷◌, ◌++◌, ◌==◌,
  if◌then◌else◌, Dict, Value, concat, join, str_lt, string_of_nat,
}

pub record RunRequest : Type 0 where
  pub run_id : String
  pub playbook : String
  pub inventory_file : String
  pub private_data_dir : String
  pub collections_path : String
  pub private_key_file : String
  pub known_hosts_file : String
  pub extra_vars : Dict Value
  pub check : Bool

pub record RunOutcome : Type 0 where
  pub return_code : Option ℤ
  pub command : List String
  pub cancelled : Bool
  pub error : Option String

pub record Preparation : Type 0 where
  pub config_file : String
  pub config_text : String
  pub environment : Dict String
  pub command : List String

-- The process: the directory of the interpreter, and the PATH it inherited.
pub record Process : Type 0 where
  pub interpreter_directory : String
  pub inherited_path : Option String

-- `_path_with_this_interpreter_first`
unfoldable pub path_with_this_interpreter_first : Process → String
path_with_this_interpreter_first process = elim process.inherited_path [
  | none ↦ process.interpreter_directory
  | some inherited ↦
      if inherited == ""
      then process.interpreter_directory
      else concat (process.interpreter_directory ∷ ":" ∷ inherited ∷ [])
]

-- `" ".join(_SSH_OPTIONS)` with the file of the known hosts
unfoldable pub ssh_args : String → String
ssh_args known_hosts = join " " (
    concat ("-o UserKnownHostsFile=" ∷ known_hosts ∷ [])
    ∷ "-o IdentitiesOnly=yes"
    ∷ "-o ControlMaster=auto"
    ∷ "-o ControlPersist=60s"
    ∷ [])

abbrev newline : String
newline = "\n"

-- `_CONFIG_TEMPLATE`, its lines in order
unfoldable pub config_lines : RunRequest → List String
unfolding ssh_args
config_lines request =
    concat ("# Generated by seapath-webui for run " ∷ request.run_id ∷ "." ∷ [])
    ∷ "#"
    ∷ "# seapath-ansible ships its ansible.cfg under galaxy.yml build_ignore, so the"
    ∷ "# installed collection carries none of it. These are the settings that change"
    ∷ "# what a run does, reproduced from the upstream file."
    ∷ ""
    ∷ "[defaults]"
    ∷ "forks = 20"
    ∷ "gathering = explicit"
    ∷ "any_errors_fatal = True"
    ∷ "force_valid_group_names = ignore"
    ∷ "timeout = 60"
    ∷ "host_key_checking = True"
    ∷ concat ("collections_path = " ∷ request.collections_path ∷ [])
    ∷ concat ("private_key_file = " ∷ request.private_key_file ∷ [])
    ∷ ""
    ∷ "[tags]"
    ∷ "skip = package-install"
    ∷ ""
    ∷ "[ssh_connection]"
    ∷ "# The host key comes from the machine's own filesystem, never from an"
    ∷ "# unverified first connection. IdentitiesOnly stops the agent, if there somehow"
    ∷ "# is one, from offering a key nobody authorised. This must stay on one line:"
    ∷ "# a continuation would put a newline inside the value Ansible hands to ssh."
    ∷ concat ("ssh_args = " ∷ ssh_args request.known_hosts_file ∷ [])
    ∷ ""
    ∷ []

-- `sorted(extra_vars.items())`: the names are distinct, so no two values are compared.
insert_item : String × Value → List (String × Value) → List (String × Value)
insert_item x [] = x ∷ []
insert_item x (y ∷ ys) =
    let rest = insert_item x ys in if str_lt y.0 x.0 then y ∷ rest else x ∷ y ∷ ys

sorted_items : List (String × Value) → List (String × Value)
unfolding insert_item
sorted_items [] = []
sorted_items (x ∷ xs) = insert_item x (sorted_items xs)

-- `show` is `str` on a list and on a dictionary.
module _ (show : Value → String) where
  abbrev int_text : ℤ → String
  int_text (pos n) = string_of_nat n
  int_text (negsuc n) = concat ("-" ∷ string_of_nat (suc n) ∷ [])

  -- `_as_ansible_literal`
  abbrev pub as_ansible_literal : Value → String
  as_ansible_literal Value.null = "None"
  as_ansible_literal (Value.bool true) = "true"
  as_ansible_literal (Value.bool false) = "false"
  as_ansible_literal (Value.int n) = int_text n
  as_ansible_literal (Value.str s) = s
  as_ansible_literal (Value.list xs) = show (Value.list xs)
  as_ansible_literal (Value.dict m) = show (Value.dict m)

  extra_arguments : List (String × Value) → List String
  extra_arguments [] = []
  extra_arguments ((name, value) ∷ rest) =
      "--extra-vars" ∷ concat (name ∷ "=" ∷ as_ansible_literal value ∷ []) ∷ extra_arguments rest

  unfoldable pub command_of : RunRequest → List String
  unfolding sorted_items extra_arguments
  command_of request =
      ("ansible-playbook" ∷ "-i" ∷ request.inventory_file ∷ [])
      ++ ((if request.check then "--check" ∷ [] else [])
          ++ (extra_arguments (sorted_items request.extra_vars) ++ request.playbook ∷ []))

  -- `prepare`, with the text it writes to the configuration file
  unfoldable pub prepare : Process → RunRequest → Preparation
  unfolding path_with_this_interpreter_first config_lines command_of
  prepare process request =
      let config_file = concat (request.private_data_dir ∷ "/ansible.cfg" ∷ []) in
      record {
        config_file = config_file;
        config_text = join newline (config_lines request);
        environment =
            ("ANSIBLE_CONFIG", config_file)
            ∷ ("ANSIBLE_COLLECTIONS_PATH", request.collections_path)
            ∷ ("ANSIBLE_PRIVATE_KEY_FILE", request.private_key_file)
            ∷ ("ANSIBLE_HOST_KEY_CHECKING", "True")
            ∷ ("PATH", path_with_this_interpreter_first process)
            ∷ [];
        command = command_of request;
      }
