-- ===== src/Core/Bootstrap.antt =====
-- app/core/bootstrap.py: what happens at every start, over the files that the tasks write. What the machine
-- is read as and what git answers are arguments.
pub mod Twice
use insatomcat_webui.Base.{
  ℕ, String, ◌==◌, Bool, true, false, not, ◌&&◌, Option, none, some, List, [], ◌∷◌, ◌++◌,
  if◌then◌else◌, keep, map, null, Value, Result, ok, err,
}
use insatomcat_webui.Hosts.Network.{InterfaceAddress, NetworkInterface, NetworkReading}
use insatomcat_webui.Trust.AuthorizedKeys.{KeyFile, MissingAccount}
use insatomcat_webui.Trust.Relations.{TrustRelation}
use insatomcat_webui.Trust.Service.{KeyPair, ensure_self_trust}
use insatomcat_webui.Trust.KnownHosts.{ensure_local}
use insatomcat_webui.Inventory.Model.{Inventory}
use insatomcat_webui.Inventory.Repository.{Repository, GitAnswer}
use insatomcat_webui.Inventory.Service.{ensure_seed}
use insatomcat_webui.Runs.Store.{RunStore, reconcile}

-- The files of the service and of the account it uses.
pub record Node : Type 0 where
  pub keys : KeyFile
  pub known_hosts : Option String
  pub repository : Repository
  pub runs : RunStore

-- What a start meets: the machine's name and network, the key pair if it can be had, the host's public
-- keys, whether authorized_keys, known_hosts and the records of the runs can be written, the inventory that
-- the machine proposes, git's answer, the time.
pub record Machine : Type 0 where
  pub hostname : String
  pub network : Option NetworkReading
  pub key_pair : Option KeyPair
  pub host_keys : String → Option String
  pub keys_writable : Bool
  pub writable : Bool
  pub runs_writable : Bool
  pub proposes : Option Inventory
  pub git : GitAnswer
  pub now : ℕ

abbrev is_default : Option String → String → Bool
is_default none name = false
is_default (some route) name = name == route

addresses_in : Option String → List NetworkInterface → List String
addresses_in route [] = []
addresses_in route (i ∷ is) =
    let found =
      map (λ (a : InterfaceAddress). a.address)
        (keep (λ (a : InterfaceAddress). a.family == "inet") i.addresses) in
    let rest = addresses_in route is in if is_default route i.name then found ++ rest else rest

-- `node_addresses`
unfoldable pub node_addresses : NetworkReading → List String
unfolding addresses_in
node_addresses network = addresses_in network.default_route_interface network.interfaces

-- `check_account_files`, with whether a path is a link and whether it leads somewhere
unfoldable pub check_account_files : (String → Bool) → (String → Bool) → List String
check_account_files is_symlink exists =
    keep (λ p. is_symlink p && not (exists p)) ("/etc/passwd" ∷ "/etc/group" ∷ "/etc/shadow" ∷ [])

abbrev kept_keys : KeyFile → Result MissingAccount (KeyFile × TrustRelation × Bool) → KeyFile
kept_keys file (err e) = file
kept_keys file (ok (file', relation, changed)) = file'

-- the first task, whose errors are logged
unfoldable pub provisioned : Machine → List String → KeyFile → KeyFile
provisioned m addresses file = elim m.key_pair [
  | none ↦ file
  | some pair ↦
      let after = kept_keys file (ensure_self_trust pair m.hostname addresses file) in
      if m.keys_writable then after else file
]

-- the second one
unfoldable pub recorded_keys : Machine → List String → Option String → Option String
recorded_keys m addresses file =
    if m.writable
    then (ensure_local m.host_keys (m.hostname ∷ addresses ++ "127.0.0.1" ∷ "localhost" ∷ [])
        file).0
    else file

module _ (dump : Value → String) (m : Machine) where
  -- the tasks once the addresses are known
  unfoldable pub with_addresses : List String → Node → Node
  unfolding provisioned recorded_keys
  with_addresses addresses node = record {
    keys = provisioned m addresses node.keys;
    known_hosts = recorded_keys m addresses node.known_hosts;
    repository = (ensure_seed dump m.git m.proposes node.repository).0;
    runs = (reconcile m.now node.runs).0;
  }

  -- a record that is to be closed and cannot be written, which the last task passes on
  unfoldable pub reconcile_raises : Node → Bool
  reconcile_raises node = not m.runs_writable && not (null (reconcile m.now node.runs).1)

  -- `run_startup_tasks`; nothing where the service does not start, since the reading of the network or the
  -- closing of a run raises; what the tasks before that have written is left out then
  unfoldable pub run_startup_tasks : Node → Option Node
  unfolding with_addresses node_addresses reconcile_raises
  run_startup_tasks node = elim m.network [
    | none ↦ none
    | some network ↦
        if reconcile_raises node then none else some (with_addresses (node_addresses network) node)
  ]
