-- ===== src/Runs/Catalogue.antt =====
-- app/runs/catalogue.py: the playbooks that the service offers.
pub mod Entries
pub mod Machine
pub mod Cluster
use insatomcat_webui.Base.{
  String, Bool, true, false, not, ◌&&◌, Option, none, some, List, [], ◌∷◌, ◌++◌, ◌==◌, keep, first,
  map, concat, join,
}
use Entries.{PlaybookEntry, collection}
use Machine.{machine_entries}
use Cluster.{cluster_entries}

-- `CATALOGUE`, in its order
unfoldable pub catalogue : List PlaybookEntry
catalogue = machine_entries ++ cluster_entries

-- `get`: the identifiers of the entries are distinct, so the dictionary holds each of them.
unfoldable pub get : String → Option PlaybookEntry
unfolding catalogue
get playbook_id = first (λ e. e.id == playbook_id) catalogue

-- `playbook_file`, under the collections path; an entry's playbook is its collection and its name
unfoldable pub playbook_file : String → PlaybookEntry → String
playbook_file collections_path entry = join "/" (
    collections_path
    ∷ "ansible_collections"
    ∷ "seapath"
    ∷ "ansible"
    ∷ "playbooks"
    ∷ concat (entry.name ∷ ".yaml" ∷ [])
    ∷ [])

-- `missing_from`; `is_file` asks the file system.
unfoldable pub missing_from : (String → Bool) → String → List String
unfolding catalogue playbook_file
missing_from is_file collections_path =
    map (λ e. e.id) (keep (λ e. not (is_file (playbook_file collections_path e))) catalogue)
