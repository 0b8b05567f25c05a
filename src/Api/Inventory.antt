-- ===== src/Api/Inventory.antt =====
-- app/api/v1/inventory.py: the endpoints of the inventory, behind their guards. What git answers, how
-- YAML and Python print, and the hash of a password are arguments.
pub mod Patch
pub mod Writes
use insatomcat_webui.Base.{
  ℕ, String, ◌==◌, Bool, true, false, not, Option, none, some, List, [], ◌∷◌, if◌then◌else◌, concat,
  join, map, keys, null, sorted, Dict, lookup, insert, Value, list_of, dict_of, Result, ok, err,
}
use insatomcat_webui.Core.Errors.{ApiError}
use insatomcat_webui.Core.Auth.{User}
use insatomcat_webui.Inventory.Model.{Inventory, NodeConfig}
use insatomcat_webui.Inventory.Validation.{
  Level, error, warning, Finding, Printing, valid, validate, errors,
}
use insatomcat_webui.Inventory.Parser.{Outcome}
use insatomcat_webui.Inventory.Repository.{
  Commit, Repository, Failure, GitAnswer, RevertAnswer, history, read, revert,
}
use insatomcat_webui.Inventory.Service.{
  InventoryState, Saved, saved, refused, broken, names_without, state, save,
}
use insatomcat_webui.Api.Endpoint.{Problem, Reply}
use insatomcat_webui.Api.Inventory.Patch.{fields_of, updated}

pub record CommitResponse : Type 0 where
  pub commit : Option String
  pub message : Option String
  pub validation : List Finding

pub record HostPatch : Type 0 where
  pub changes : Dict Value
  pub grub_password_plain : Option String

-- `_commit_response`
unfoldable pub commit_response : Option Commit → List Finding → CommitResponse
commit_response none findings = record { commit = none; message = none; validation = findings }
commit_response (some c) findings = record {
  commit = some c.hash;
  message = some c.message;
  validation = findings;
}

abbrev level_value : Level → String
level_value error = "error"
level_value warning = "warning"

abbrev or_null : Option String → Value
or_null none = Value.null
or_null (some s) = Value.str s

-- `finding.model_dump()`
abbrev dumped : Finding → Value
dumped f = dict_of (
    ("level", Value.str (level_value f.level))
    ∷ ("rule", Value.str f.rule)
    ∷ ("message", Value.str f.message)
    ∷ ("field", or_null f.field_name)
    ∷ ("host", or_null f.host)
    ∷ [])

-- `errors()[0].message`; an invalid result has an error
abbrev first_message : List Finding → String
first_message [] = ""
first_message (f ∷ _) = f.message

abbrev pub invalid_inventory : List Finding → ApiError
invalid_inventory findings = record {
  code = "invalid_inventory";
  message = first_message (errors findings);
  status = 422;
  detail = ("findings", list_of (map dumped findings)) ∷ [];
}

abbrev problem : String → String → ℕ → Problem
problem code message status =
    Problem.api (record { code = code; message = message; status = status; detail = [] })

-- how a save leaves the API
unfoldable pub saved_reply : Saved → Reply CommitResponse
unfolding commit_response
saved_reply (saved none findings) =
    if not (valid findings)
    then err (Problem.api (invalid_inventory findings))
    else ok (commit_response none findings)
saved_reply (saved (some c) findings) = ok (commit_response (some c) findings)
saved_reply (refused (Failure.stale message)) = err (problem "stale_write" message 409)
saved_reply (refused (Failure.repository_error message)) = err Problem.raised
saved_reply broken = err Problem.raised

-- What a patch comes to: an answer, or changes of which one does not fit its field. The code goes on
-- with such a value, which no configuration of the model holds.
pub data Patched : Type 0 where
  response : CommitResponse → Patched
  unfit : Patched

abbrev pub responding : Repository × Reply CommitResponse → Repository × Reply Patched
responding (repo, err e) = (repo, err e)
responding (repo, ok r) = (repo, ok (response r))

-- `if payload.grub_password_plain`
abbrev pub with_password : (String → String) → Option String → Dict Value → Dict Value
with_password hash none changes = changes
with_password hash (some plain) changes =
    if plain == "" then changes else insert "grub_password" (Value.str (hash plain)) changes

abbrev pub unknown_fields : Dict Value → NodeConfig → List String
unknown_fields changes node = sorted (names_without (keys changes) (keys (fields_of node)))

abbrev reverting : Repository × Result Failure Commit → Repository × Reply CommitResponse
reverting (repo, err (Failure.repository_error message)) =
    (repo, err (problem "revert_failed" message 409))
reverting (repo, err (Failure.stale message)) = (repo, err Problem.raised)
reverting (repo, ok c) = (repo, ok (commit_response (some c) []))

-- `revert`
unfoldable pub revert_commit : RevertAnswer → User → Repository → Repository × Reply CommitResponse
unfolding commit_response revert
revert_commit git user repo = reverting (revert git repo)

-- `diff`, with what git answers
unfoldable pub get_diff : Result String String → Reply String
get_diff (ok text) = ok text
get_diff (err message) = err (problem "unknown_commit" message 404)

-- `history`
unfoldable pub get_history : ℕ → Repository → List Commit
unfolding history
get_history limit repo = history limit repo

-- `raw`
unfoldable pub get_raw : Repository → String
unfolding read
get_raw repo = read repo

module _ (printing : Printing) (show dump : Value → String) (load : String → Outcome Value) where
  abbrev state_reply : Option InventoryState → Reply InventoryState
  state_reply none = err Problem.raised
  state_reply (some s) = ok s

  -- `inventory`
  unfoldable pub get_inventory : Repository → Reply InventoryState
  unfolding state
  get_inventory repo = state_reply (state printing show dump load repo)

  abbrev pub saving : Repository × Saved → Repository × Reply CommitResponse
  saving (repo, s) = (repo, saved_reply s)

  -- `_save`; git is asked with the author and the message
  unfoldable pub save_candidate :
      (String → String → GitAnswer)
      → Inventory
      → String
      → Option String
      → Repository
      → Repository × Reply CommitResponse
  unfolding save saved_reply
  save_candidate git candidate author if_match repo =
      saving (save printing show dump load (git author) candidate if_match none repo)

  -- `replace`
  unfoldable pub replace :
      (String → String → GitAnswer)
      → Inventory
      → Option String
      → User
      → Repository
      → Repository × Reply CommitResponse
  unfolding save_candidate
  replace git candidate if_match user repo =
      save_candidate git candidate user.username if_match repo

  module _ (git : String → String → GitAnswer) (name : String) (if_match : Option String)
      (user : User) where
    abbrev patched : Inventory → Option NodeConfig → Repository → Repository × Reply Patched
    patched inventory none repo = (repo, ok unfit)
    patched inventory (some node) repo = responding (
        save_candidate git (record inventory { hosts = insert name node inventory.hosts })
          user.username if_match repo)

    abbrev patch_node :
        Dict Value → Inventory → Option NodeConfig → Repository → Repository × Reply Patched
    patch_node changes inventory none repo =
        (repo, err (problem "unknown_host" (concat (name ∷ " is not in the inventory." ∷ [])) 404))
    patch_node changes inventory (some node) repo =
        let unknown = unknown_fields changes node in
        if not (null unknown)
        then (
          repo,
          err (
              problem "unknown_field"
                (concat (join ", " unknown ∷ " is not a field of a machine's configuration." ∷ []))
                400),
        )
        else patched inventory (updated changes node) repo

    abbrev patch_inventory : Dict Value → Option Inventory → Repository → Repository × Reply Patched
    patch_inventory changes none repo =
        (repo, err (problem "no_inventory" "There is no inventory yet on this node." 409))
    patch_inventory changes (some inventory) repo =
        patch_node changes inventory (lookup name inventory.hosts) repo

    abbrev patch_state :
        Dict Value → Option InventoryState → Repository → Repository × Reply Patched
    patch_state changes none repo = (repo, err Problem.raised)
    patch_state changes (some s) repo = patch_inventory changes s.inventory repo

    -- `patch_host`
    unfoldable pub patch_host :
        (String → String) → HostPatch → Repository → Repository × Reply Patched
    unfolding updated sorted
    patch_host hash payload repo =
        patch_state (with_password hash payload.grub_password_plain payload.changes)
          (state printing show dump load repo) repo
