-- ===== src/Api/Inventory/Writes.antt =====
-- app/api/v1/inventory.py: what `patch_host` writes.
use insatomcat_webui.Base.{
  String, ◌==◌, ◌≡◌, refl, ap, ◌∙◌, true, false, Option, none, some, ◌∷◌, List, null, Dict, lookup,
  insert, lookup-insert_ne, lookup-insert_self, Value, ok,
}
use insatomcat_webui.Core.Auth.{User}
use insatomcat_webui.Inventory.Model.{Inventory, NodeConfig}
use insatomcat_webui.Inventory.Validation.{Finding, Printing, valid, validate}
use insatomcat_webui.Inventory.Renderer.{render}
use insatomcat_webui.Inventory.Parser.{Outcome}
use insatomcat_webui.Inventory.Parser.Variables.{IsDict}
use insatomcat_webui.Inventory.Repository.{
  Commit, Repository, committed, initialise, head, is_stale, is_text,
}
use insatomcat_webui.Inventory.Service.{InventoryState, state}
use insatomcat_webui.Inventory.Service.Saves.{HasMessage, saved_lem}
use insatomcat_webui.Api.Inventory.{
  HostPatch, with_password, unknown_fields, responding, response, commit_response, saving,
  save_candidate, patch_host,
}
use insatomcat_webui.Api.Inventory.Patch.{fields_of, updated}
use insatomcat_webui.Api.Inventory.Patch.Changes.{fields_of-updated}
use insatomcat_webui.Api.Inventory.Patch.Wanted.{wanted, lookup-with_password}

module _ (printing : Printing) (show dump : Value → String) (load : String → Outcome Value)
    (name : String) (if_match : Option String) (user : User) (hash : String → String)
    (payload : HostPatch) (repo : Repository) (s : InventoryState) (inventory : Inventory)
    (node node' : NodeConfig) where
  -- the inventory with the machine replaced
  abbrev pub patched_inventory : Inventory
  patched_inventory = record inventory { hosts = insert name node' inventory.hosts }

  abbrev the_changes : Dict Value
  the_changes = with_password hash payload.grub_password_plain payload.changes

  -- Where the inventory can be read and the machine is in it, every change names a field and every value
  -- fits its field: if validating the inventory with the changed machine finds no error, the If-Match
  -- header names the current head or is left out, the text is not the file's and git commits it, a patch
  -- writes that inventory's text, adds the commit and answers it with the findings. Each field of the
  -- changed machine is what is wanted: the hash of the password, if one is given and the field is the
  -- password's, else the value of the changes, else the old value. Every other machine is as it was.
  pub patch_host-saves :
      (content : String) (c : Commit) (findings : List Finding)
      → state printing show dump load repo ≡ some s
      → s.inventory ≡ some inventory
      → lookup name inventory.hosts ≡ some node
      → IsDict payload.changes
      → null (unknown_fields the_changes node) ≡ true
      → updated the_changes node ≡ some node'
      → render dump patched_inventory ≡ some content
      → validate printing patched_inventory ≡ some findings
      → valid findings ≡ true
      → is_stale if_match (head repo) ≡ false
      → is_text content repo.file ≡ false
      → (patch_host printing show dump load
            (λ author m. committed c)
            name
            if_match
            user
            hash
            payload
            repo
          ≡ (
            record (initialise repo) {
              file = some content;
              commits = c ∷ (initialise repo).commits;
            },
            ok (response (commit_response (some c) findings)),
          ))
        × ((field_name : String)
            → lookup field_name (fields_of node')
              ≡ wanted hash payload.grub_password_plain payload.changes (fields_of node) field_name)
        × (lookup name patched_inventory.hosts ≡ some node')
        × ((other : String)
            → (name == other) ≡ false
            → lookup other patched_inventory.hosts ≡ lookup other inventory.hosts)
  unfolding patch_host save_candidate
  patch_host-saves content c findings read_as present found distinct known fits written_as judged v
        fresh differs =
      let told : HasMessage printing show dump load none repo = rw read_as refl in
      (
        rw (read_as, present, found, known, fits)
            (ap (λ r. responding (saving printing show dump load r))
              (saved_lem printing show dump load patched_inventory content c none if_match repo
                findings written_as judged v told fresh differs)),
        (λ k.
            ap (lookup k) (fields_of-updated the_changes node node' fits)
            ∙ lookup-with_password hash payload.grub_password_plain payload.changes (fields_of node)
                k distinct),
        lookup-insert_self name node' inventory.hosts,
        λ other ne. lookup-insert_ne name other node' inventory.hosts ne,
      )
