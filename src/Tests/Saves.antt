-- ===== src/Tests/Saves.antt =====
-- A save of one machine at concrete inputs.
use insatomcat_webui.Base.{
  List, false, null, codes, ◌≡◌, refl, String, true, none, some, [], ◌∷◌, Value, Dict, dict_of,
  lookup, lookup-nil, inr, ok, sorted_nat, split_on, partition, strip, int_of_text, concat, join,
}
use insatomcat_webui.Inventory.Model.{NodeConfig, in_range}
use insatomcat_webui.Inventory.HostName.{is_hostname}
use insatomcat_webui.Inventory.Validation.{Finding, findings_of, valid, validate}
use insatomcat_webui.Inventory.Address.{address, is_loopback, in_network}
use insatomcat_webui.Hosts.CpuList.{parse_cpu_list}
use insatomcat_webui.Inventory.Renderer.{document, render}
use insatomcat_webui.Inventory.Parser.{Outcome, answer, or_empty, parse}
use insatomcat_webui.Inventory.Parser.Legible.{IsPlain}
use insatomcat_webui.Inventory.Parser.RoundTrip.{one_machine, parse-document}
use insatomcat_webui.Inventory.Repository.{
  Commit, Repository, read, committed, failed, or_missing, head, commit,
}
use insatomcat_webui.Inventory.Repository.Commits.{commit-head}
use insatomcat_webui.Inventory.Service.{state, save, saved}
use insatomcat_webui.Inventory.Service.Saves.{
  HasMessage, SameFiles, save_refuses, save-state, seen_at,
}
use insatomcat_webui.Inventory.Service.{ensure_seed, seeded, unseeded_still}
use insatomcat_webui.Inventory.Service.Seeding.{ensure_seed-once}
use insatomcat_webui.Tests.Machines.{printing, node}

abbrev pub plain_node : NodeConfig
plain_node = record node { extra = ("site_note", Value.str "rack 4") ∷ [] }

pub plain_node_lem : IsPlain plain_node
unfolding in_range
plain_node_lem = record {
  role_is = refl;
  ranges = refl;
  texts = record { gateway = refl; ptp = refl; admin = refl; grub = refl };
  isolation = refl;
  extra_names = (refl, tt);
  extra_dict = (lookup-nil "site_note", tt);
}

abbrev pub show : Value → String
show v = "a value"

abbrev pub dump : Value → String
dump v = "all: {}\n"

abbrev pub rendered : Dict Value
rendered = or_empty (document (one_machine "seapath" plain_node))

abbrev pub load : String → Outcome Value
load content = answer (dict_of rendered)

abbrev pub content : String
content = or_missing (render dump (one_machine "seapath" plain_node))

pub rendered_lem : document (one_machine "seapath" plain_node) ≡ some rendered
unfolding document
rendered_lem = refl

pub content_lem : render dump (one_machine "seapath" plain_node) ≡ some content
unfolding render document
content_lem = refl

abbrev pub first : Commit
first = record {
  hash = "4be1";
  author = "alice";
  email = "alice@seapath-webui";
  timestamp = 1700000000;
  message = "first";
}

abbrev pub second : Commit
second = record {
  hash = "77ac";
  author = "bob";
  email = "bob@seapath-webui";
  timestamp = 1700000900;
  message = "second";
}

abbrev pub history : Repository
history = record { initialised = true; file = some "old"; commits = first ∷ [] }

parse-document_example : parse show load content ≡ answer (one_machine "seapath" plain_node)
parse-document_example =
    parse-document show "seapath" plain_node plain_node_lem load content rendered rendered_lem refl

abbrev pub plain_findings : List Finding
plain_findings = findings_of printing (one_machine "seapath" plain_node)

pub plain_found : validate printing (one_machine "seapath" plain_node) ≡ some plain_findings
unfolding validate address split_on
plain_found = refl

pub plain_valid : valid plain_findings ≡ true
unfolding findings_of valid is_hostname address split_on is_loopback in_network parse_cpu_list
    sorted_nat partition strip int_of_text lookup
plain_valid = refl

commit-head_example :
    ((commit (failed "index.lock exists") content (some "4be1") history).0.file ≡ some content)
    × ((commit (failed "index.lock exists") content (some "4be1") history).0.commits ≡ first ∷ [])
    × ((commit
          (committed second)
          content
          none
          (commit (failed "index.lock exists") content (some "4be1") history).0).1
        ≡ ok none)
    × ((commit
          (committed second)
          content
          none
          (commit (failed "index.lock exists") content (some "4be1") history).0).0.commits
        ≡ first ∷ [])
unfolding head render document concat join
commit-head_example =
    commit-head content (some "4be1") history (failed "index.lock exists") (committed second)

save_refuses_example :
    SameFiles
      (save printing show dump load
        (λ m. committed second)
        (one_machine "seapath" plain_node)
        (some "77ac")
        none
        history).0
      history
unfolding head
save_refuses_example =
    save_refuses printing show dump load (λ m. committed second) (one_machine "seapath" plain_node)
      (some "77ac") none history (inr refl)

-- the state before the save can be read, and the message is made from it
history_told : HasMessage printing show dump load none history
unfolding state read strip head
history_told =
    rw
      (
        parse-document show "seapath" plain_node plain_node_lem load "old" rendered rendered_lem
            refl,
        plain_found,
      )
      refl

save-state_example :
    let result =
      save printing show dump load
        (λ m. committed second)
        (one_machine "seapath" plain_node)
        (some "4be1")
        none
        history in
    (result.1 ≡ saved (some second) plain_findings)
    × (state printing show dump load result.0
        ≡ some (seen_at plain_findings "seapath" plain_node "77ac"))
unfolding head render document concat join
save-state_example =
    save-state printing show dump load "seapath" plain_node plain_node_lem content rendered second
      none (some "4be1") plain_findings history rendered_lem content_lem refl plain_found
      plain_valid history_told refl refl

abbrev pub blank : Repository
blank = record { initialised = false; file = none; commits = [] }

blank_lem : null (strip (codes (read blank))) ≡ true
unfolding read strip
blank_lem = refl

old_lem : null (strip (codes (read history))) ≡ false
unfolding read strip
old_lem = refl

ensure_seed-once_example :
    let (left, result) =
      ensure_seed dump (committed first) (some (one_machine "seapath" plain_node)) blank in
    (result ≡ seeded)
    × (left.file ≡ some content)
    × (left.commits ≡ first ∷ [])
    × ((ensure_seed dump (committed second) none left).1 ≡ unseeded_still)
    × SameFiles (ensure_seed dump (committed second) none left).0 left
ensure_seed-once_example =
    ensure_seed-once dump (one_machine "seapath" plain_node) content first blank (committed second)
      none blank_lem content_lem
