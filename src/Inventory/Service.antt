-- ===== src/Inventory/Service.antt =====
-- app/inventory/service.py: the inventory as the API and the forms see it. How YAML is loaded and
-- dumped, and how Python prints values, are arguments.
pub mod Saves
pub mod Seeding
use insatomcat_webui.Base.{
  ℕ, String, ◌==◌, ◌=?◌, Bool, true, false, not, ◌&&◌, ◌||◌, Option, none, some, List, [], ◌∷◌,
  ◌++◌, if◌then◌else◌, concat, join, map, keep, keys, member, null, sorted, Dict, lookup, Value,
  Result, ok, err, strip, codes,
}
use insatomcat_webui.Inventory.Model.{Inventory, NodeConfig, Role, hypervisor, observer}
use insatomcat_webui.Inventory.Validation.{Finding, Printing, valid, validate}
use insatomcat_webui.Inventory.Renderer.{render}
use insatomcat_webui.Inventory.Parser.{Outcome, answer, invalid, raised, parse}
use insatomcat_webui.Inventory.Repository.{
  Commit, Repository, Failure, GitAnswer, head, read, commit, initialise,
}

-- `InventoryState`
pub record InventoryState : Type 0 where
  pub inventory : Option Inventory
  pub commit : Option String
  pub validation : List Finding
  pub seeded : Bool
  pub parse_error : Option String

abbrev unseeded : InventoryState
unseeded = record {
  inventory = none;
  commit = none;
  validation = [];
  seeded = false;
  parse_error = none;
}

-- `_SECTIONS`
unfoldable pub section_of : String → String
section_of name =
    if member name
      ("ansible_host" ∷ "network_interface" ∷ "subnet" ∷ "gateway_addr" ∷ "dns_servers" ∷ [])
    then "network"
    else if member name ("ptp_interface" ∷ "ptp_domain_number" ∷ "ntp_servers" ∷ [])
    then "time"
    else if member name ("admin_user" ∷ "grub_password" ∷ [])
    then "accounts"
    else if name == "isolcpus"
    then "realtime"
    else if name == "role"
    then "cluster"
    else "inventory"

abbrev same_role : Role → Role → Bool
same_role hypervisor hypervisor = true
same_role observer observer = true
same_role hypervisor observer = false
same_role observer hypervisor = false

abbrev same_text : Option String → Option String → Bool
same_text none none = true
same_text (some s) (some t) = s == t
same_text none (some _) = false
same_text (some _) none = false

abbrev same_number : Option ℕ → Option ℕ → Bool
same_number none none = true
same_number (some m) (some n) = m =? n
same_number none (some _) = false
same_number (some _) none = false

abbrev same_texts : List String → List String → Bool
same_texts [] [] = true
same_texts (s ∷ ss) (t ∷ ts) = s == t && same_texts ss ts
same_texts [] (_ ∷ _) = false
same_texts (_ ∷ _) [] = false

abbrev unless_same : String → Bool → List String
unless_same name same = if same then [] else name ∷ []

-- `_changed_fields`, the names of the fields
unfoldable pub changed_fields : NodeConfig → NodeConfig → List String
changed_fields before after =
    unless_same "role" (same_role before.role after.role)
    ++ (unless_same "ansible_host" (before.ansible_host == after.ansible_host)
        ++ (unless_same "network_interface" (before.network_interface == after.network_interface)
            ++ (unless_same "subnet" (before.subnet =? after.subnet)
                ++ (unless_same "gateway_addr" (same_text before.gateway_addr after.gateway_addr)
                    ++ (unless_same "dns_servers" (same_texts before.dns_servers after.dns_servers)
                        ++ (unless_same "ptp_interface"
                              (same_text before.ptp_interface after.ptp_interface)
                            ++ (unless_same "ptp_domain_number"
                                  (same_number before.ptp_domain_number after.ptp_domain_number)
                                ++ (unless_same "ntp_servers"
                                      (same_texts before.ntp_servers after.ntp_servers)
                                    ++ (unless_same "admin_user"
                                          (same_text before.admin_user after.admin_user)
                                        ++ (unless_same "grub_password"
                                              (same_text before.grub_password after.grub_password)
                                            ++ unless_same "isolcpus"
                                                (same_text before.isolcpus after.isolcpus)))))))))))

-- the changed fields of the host, with its name
abbrev changed_since : String → NodeConfig → Option NodeConfig → List (String × String)
changed_since name after none = []
changed_since name after (some before) = map (λ f. (f, name)) (changed_fields before after)

changes_of : Dict NodeConfig → Dict NodeConfig → List (String × String)
unfolding changed_fields lookup
changes_of previous [] = []
changes_of previous ((name, node) ∷ hosts) =
    changed_since name node (lookup name previous) ++ changes_of previous hosts

-- `set(names) - set(others)`
abbrev pub names_without : List String → List String → List String
names_without names others = keep (λ name. not (member name others)) names

-- `_message_for`, against the inventory that `state` answers
unfoldable pub message_for : Inventory → Option Inventory → String
unfolding changes_of section_of sorted
message_for candidate none = concat ("inventory: describe " ∷ join ", " (keys candidate.hosts) ∷ [])
message_for candidate (some previous) =
    let added = names_without (keys candidate.hosts) (keys previous.hosts) in
    let removed = names_without (keys previous.hosts) (keys candidate.hosts) in
    let changes = changes_of previous.hosts candidate.hosts in
    if not (null added)
    then concat ("cluster: add " ∷ join ", " (sorted added) ∷ [])
    else if not (null removed)
    then concat ("cluster: remove " ∷ join ", " (sorted removed) ∷ [])
    else if null changes
    then "inventory: no change"
    else concat (
        join ", " (sorted (map (λ c. section_of c.0) changes))
        ∷ ": set "
        ∷ join ", " (sorted (map (λ c. c.0) changes))
        ∷ " on "
        ∷ join ", " (sorted (map (λ c. c.1) changes))
        ∷ [])

-- What a save comes to: the commit, if there is one, with the findings; a refusal of the
-- repository; or another exception.
pub data Saved : Type 0 where
  saved : Option Commit → List Finding → Saved
  refused : Failure → Saved
  broken : Saved

abbrev committing : List Finding → Repository × Result Failure (Option Commit) → Repository × Saved
committing findings (repo, ok c) = (repo, saved c findings)
committing findings (repo, err f) = (repo, refused f)

-- the message, unless computing it raises
abbrev message_or : Option String → Inventory → Option InventoryState → Option String
message_or (some message) candidate s = some message
message_or none candidate none = none
message_or none candidate (some s) = some (message_for candidate s.inventory)

abbrev committed_as :
    (String → GitAnswer)
    → Option String
    → List Finding
    → Option String
    → Option String
    → Repository
    → Repository × Saved
committed_as git expected_head findings (some message) (some content) repo =
    committing findings (commit (git message) content expected_head repo)
committed_as git expected_head findings _ _ repo = (repo, broken)

module _ (printing : Printing) (show dump : Value → String) (load : String → Outcome Value) where
  -- the state with the findings; validating may raise
  abbrev validated : Option String → Inventory → Option (List Finding) → Option InventoryState
  validated at inventory none = none
  validated at inventory (some findings) = some (record {
    inventory = some inventory;
    commit = at;
    validation = findings;
    seeded = true;
    parse_error = none;
  })

  abbrev state_of : Option String → Outcome Inventory → Option InventoryState
  state_of at (answer inventory) = validated at inventory (validate printing inventory)
  state_of at (invalid message) = some (record {
    inventory = none;
    commit = at;
    validation = [];
    seeded = true;
    parse_error = some message;
  })
  state_of at raised = none

  -- `state`; an exception other than `InvalidInventory` is passed on
  unfoldable pub state : Repository → Option InventoryState
  unfolding read head
  state repo =
      if null (strip (codes (read repo)))
      then some unseeded
      else state_of (head repo) (parse show load (read repo))

  abbrev save_validated :
      (String → GitAnswer)
      → Inventory
      → Option String
      → Option String
      → Option (List Finding)
      → Repository
      → Repository × Saved
  save_validated git candidate expected_head message none repo = (repo, broken)
  save_validated git candidate expected_head message (some findings) repo =
      if not (valid findings)
      then (repo, saved none findings)
      else committed_as git expected_head findings (message_or message candidate (state repo))
          (render dump candidate) repo

  -- `save`; git is asked with the message
  unfoldable pub save :
      (String → GitAnswer)
      → Inventory
      → Option String
      → Option String
      → Repository
      → Repository × Saved
  unfolding state
  save git candidate expected_head message repo =
      save_validated git candidate expected_head message (validate printing candidate) repo

-- Whether the seed was written: it was, it was not, or an exception was passed on.
pub data Seeded : Type 0 where
  seeded unseeded_still seed_failed : Seeded

abbrev seeding : Repository × Result Failure (Option Commit) → Repository × Seeded
seeding (repo, ok c) = (repo, seeded)
seeding (repo, err f) = (repo, seed_failed)

abbrev seeded_with : GitAnswer → Option String → Repository → Repository × Seeded
seeded_with git none repo = (repo, seed_failed)
seeded_with git (some content) repo = seeding (commit git content none repo)

abbrev seed_of : (Value → String) → GitAnswer → Option Inventory → Repository → Repository × Seeded
seed_of dump git none repo = (repo, unseeded_still)
seed_of dump git (some candidate) repo = seeded_with git (render dump candidate) repo

-- `ensure_seed`, with the inventory that the machine proposes
unfoldable pub ensure_seed :
    (Value → String) → GitAnswer → Option Inventory → Repository → Repository × Seeded
unfolding initialise read
ensure_seed dump git candidate repo =
    let ready = initialise repo in
    if null (strip (codes (read ready)))
    then seed_of dump git candidate ready
    else (ready, unseeded_still)
