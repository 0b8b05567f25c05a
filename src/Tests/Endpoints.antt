-- ===== src/Tests/Endpoints.antt =====
-- The endpoints at concrete inputs.
use insatomcat_webui.Inventory.Repository.{read, initialise, is_text}
use insatomcat_webui.Inventory.Parser.RoundTrip.{parse-document}
use insatomcat_webui.Api.Inventory.{response, commit_response}
use insatomcat_webui.Api.Inventory.Patch.Wanted.{wanted}
use insatomcat_webui.Runs.Store.{whole}
use insatomcat_webui.Base.{
  if◌then◌else◌, ◌==◌, ok, pos, ◌+◌, false, ◌≡◌, refl, String, true, none, some, List, [], ◌∷◌,
  ◌++◌, Value, Dict, dict_of, lookup, insert, sorted, sorted_nat, split_on, partition, strip,
  int_of_text, concat, join, ◌⊎◌, length,
}
use insatomcat_webui.Core.Settings.{default_settings}
use insatomcat_webui.Core.Auth.{operator, can}
use insatomcat_webui.Core.Sessions.{Session, session_user}
use insatomcat_webui.Core.Security.Guards.{Holds}
use insatomcat_webui.Inventory.Model.{NodeConfig, in_range}
use insatomcat_webui.Inventory.HostName.{is_hostname}
use insatomcat_webui.Inventory.Validation.{Finding, findings_of, valid, validate}
use insatomcat_webui.Inventory.Address.{address, is_loopback, in_network}
use insatomcat_webui.Hosts.CpuList.{parse_cpu_list}
use insatomcat_webui.Inventory.Renderer.{document, render}
use insatomcat_webui.Inventory.Parser.{Outcome, answer, or_empty}
use insatomcat_webui.Inventory.Parser.Legible.{IsLegible}
use insatomcat_webui.Inventory.Parser.RoundTrip.{one_machine}
use insatomcat_webui.Inventory.Repository.{GitAnswer, head, committed, or_missing}
use insatomcat_webui.Inventory.Service.{state, save, saved}
use insatomcat_webui.Inventory.Service.Saves.{HasMessage, save-state_out_of_range, seen_at}
use insatomcat_webui.Runs.Models.{success, RunRecord, finished}
use insatomcat_webui.Runs.Progress.{Summary}
use insatomcat_webui.Runs.Store.{RunStore, empty_store, events, load, drop}
use insatomcat_webui.Api.Endpoint.{guarded}
use insatomcat_webui.Api.Endpoint.Guarded.{Refused, RanFor, guarded-Holds}
use insatomcat_webui.Api.Inventory.{HostPatch, replace, patch_host}
use insatomcat_webui.Api.Inventory.Patch.{fields_of, updated}
use insatomcat_webui.Api.Inventory.Writes.{patch_host-saves}
use insatomcat_webui.Api.Runs.{Frame, Round, numbered, after, stream, verdict}
use insatomcat_webui.Api.Runs.Stream.{
  last_seen, ending, stream-append, stream-numbered, stream-ended,
}
use insatomcat_webui.Base.{ℕ, zero, suc, Text, join_text, arith}
use insatomcat_webui.Inventory.Grub.{Derive, encoded_parts, hash_password, verify}
use insatomcat_webui.Inventory.Grub.Verified.{hash_password-verify}
use insatomcat_webui.Tests.Machines.{printing, node, inventory}
use insatomcat_webui.Tests.Access.{alice, sessions, sessions-IsValid, mac, request}
use insatomcat_webui.Tests.Saves.{
  rendered, rendered_lem, plain_node_lem, plain_node, show, dump, second, history, plain_findings,
  plain_found,
}
use insatomcat_webui.Tests.Runs.{going}

abbrev reload : String → Outcome Value
reload text = answer (dict_of rendered)

abbrev git : String → String → GitAnswer
git author message = committed second

guarded-Holds_example :
    Refused (replace printing show dump reload git inventory none) history (
      guarded mac default_settings 150 operator request
        (replace printing show dump reload git inventory none)
        sessions
        history)
    ⊎ ((s : Session) × Holds mac default_settings 150 request sessions s
        × (can s.role operator ≡ true)
        × RanFor (replace printing show dump reload git inventory none) history (session_user s) (
            guarded mac default_settings 150 operator request
              (replace printing show dump reload git inventory none)
              sessions
              history))
guarded-Holds_example =
    guarded-Holds (replace printing show dump reload git inventory none) history mac
      default_settings 150 operator request sessions sessions-IsValid

abbrev started : Summary
started = Summary.play (some "all")

abbrev early : RunStore
early = record empty_store {
  records = ("r1", going) ∷ [];
  event_files = ("r1", whole started ∷ []) ∷ [];
}

abbrev late : RunStore
late = record empty_store {
  records = ("r1", record going { state = success }) ∷ [];
  event_files = ("r1", whole started ∷ whole started ∷ []) ∷ [];
}

abbrev opening : List Round
opening = record { reading = early; judging = early; gone = false } ∷ []

abbrev rest : List Round
rest = record { reading = late; judging = late; gone = false } ∷ []

stream-append_example :
    stream "r1" 0 (opening ++ rest)
    ≡ after (stream "r1" 0 opening).0 (stream "r1" (0 + length (stream "r1" 0 opening).0) rest)
unfolding stream numbered lookup load events finished
stream-append_example = stream-append "r1" 0 opening rest refl

stream-numbered_example :
    (stream "r1" 1 (opening ++ rest)).0
    ≡ numbered 1 (drop 1 (last_seen "r1" [] (opening ++ rest))) ++ ending "r1" (opening ++ rest)
unfolding lookup events
stream-numbered_example =
    stream-numbered "r1" 1 (opening ++ rest)
      ((refl, tt), (started ∷ [], refl), ((refl, (refl, tt)), (started ∷ [], refl), tt))

stream-ended_example :
    ((stream "r1" 0 (opening ++ rest)).1 ≡ true)
    × ((r : RunRecord) × (frames : List Frame) × (finished r ≡ true)
        × ((stream "r1" 0 (opening ++ rest)).0 ≡ frames ++ Frame.ended (verdict r) ∷ []))
unfolding lookup load finished
stream-ended_example = stream-ended "r1" 0 (opening ++ rest) (refl, (refl, tt)) refl

abbrev wide : NodeConfig
wide = record node { subnet = 40; gateway_addr = none }

abbrev wide_document : Dict Value
wide_document = or_empty (document (one_machine "seapath" wide))

abbrev wide_text : String
wide_text = or_missing (render dump (one_machine "seapath" wide))

abbrev load_wide : String → Outcome Value
load_wide text = answer (dict_of (if text == wide_text then wide_document else rendered))

wide_lem : IsLegible wide
wide_lem = record {
  role_is = refl;
  prefixed = refl;
  texts = record { gateway = refl; ptp = refl; admin = refl; grub = refl };
  isolation = refl;
  extra_names = tt;
  extra_dict = tt;
}

wide_document_lem : document (one_machine "seapath" wide) ≡ some wide_document
unfolding document
wide_document_lem = refl

wide_text_lem : render dump (one_machine "seapath" wide) ≡ some wide_text
unfolding render document
wide_text_lem = refl

abbrev wide_findings : List Finding
wide_findings = findings_of printing (one_machine "seapath" wide)

wide_found : validate printing (one_machine "seapath" wide) ≡ some wide_findings
unfolding validate address split_on
wide_found = refl

wide-valid : valid wide_findings ≡ true
unfolding findings_of valid is_hostname address split_on is_loopback in_network parse_cpu_list
    sorted_nat partition strip int_of_text lookup
wide-valid = refl

wide_told : HasMessage printing show dump load_wide none history
unfolding state read strip head document render concat join
wide_told =
    rw
      (
        parse-document show "seapath" plain_node plain_node_lem load_wide "old" rendered
            rendered_lem refl,
        plain_found,
      )
      refl

save-state_out_of_range_example :
    let result =
      save printing show dump load_wide
        (λ m. committed second)
        (one_machine "seapath" wide)
        (some "4be1")
        none
        history in
    (result.1 ≡ saved (some second) wide_findings)
    × (state printing show dump load_wide result.0 ≡ none)
unfolding head render document concat join in_range
save-state_out_of_range_example =
    save-state_out_of_range printing show dump load_wide "seapath" wide wide_lem wide_text
      wide_document second none (some "4be1") wide_findings history refl wide_document_lem
      wide_text_lem refl wide_found wide-valid wide_told refl refl

abbrev guarded_boot : HostPatch
guarded_boot = record {
  changes = ("subnet", Value.int (pos 16)) ∷ [];
  grub_password_plain = some "s3cret";
}

-- a hash of the right form
abbrev hashed : String → String
hashed plain = concat ("grub.pbkdf2.sha512.2." ∷ plain ∷ [])

abbrev boot_node : NodeConfig
boot_node = record plain_node { subnet = 16; grub_password = some "grub.pbkdf2.sha512.2.s3cret" }

abbrev boot_text : String
boot_text = or_missing (render dump (one_machine "seapath" boot_node))

boot_text_lem : render dump (one_machine "seapath" boot_node) ≡ some boot_text
unfolding render document
boot_text_lem = refl

abbrev boot_findings : List Finding
boot_findings = findings_of printing (one_machine "seapath" boot_node)

boot_found : validate printing (one_machine "seapath" boot_node) ≡ some boot_findings
unfolding validate address split_on
boot_found = refl

boot-valid : valid boot_findings ≡ true
unfolding findings_of valid is_hostname address split_on is_loopback in_network parse_cpu_list
    sorted_nat partition strip int_of_text lookup
boot-valid = refl

history_read :
    state printing show dump reload history
    ≡ some (seen_at plain_findings "seapath" plain_node "4be1")
unfolding state read strip head
history_read =
    rw
      (
        parse-document show "seapath" plain_node plain_node_lem reload "old" rendered rendered_lem
            refl,
        plain_found,
      )
      refl

boot-differs : is_text boot_text (some "old") ≡ false
unfolding render document concat join
boot-differs = refl

patch_host-saves_example :
    (patch_host printing show dump reload
        (λ author m. committed second)
        "seapath"
        (some "4be1")
        alice
        hashed
        guarded_boot
        history
      ≡ (
        record (initialise history) {
          file = some boot_text;
          commits = second ∷ (initialise history).commits;
        },
        ok (response (commit_response (some second) boot_findings)),
      ))
    × ((field_name : String)
        → lookup field_name (fields_of boot_node)
          ≡ wanted hashed (some "s3cret") guarded_boot.changes (fields_of plain_node) field_name)
    × (lookup "seapath" (insert "seapath" boot_node (one_machine "seapath" plain_node).hosts)
        ≡ some boot_node)
    × ((other : String)
        → ("seapath" == other) ≡ false
        → lookup other (insert "seapath" boot_node (one_machine "seapath" plain_node).hosts)
          ≡ lookup other (one_machine "seapath" plain_node).hosts)
unfolding lookup sorted updated head insert concat
patch_host-saves_example =
    patch_host-saves printing show dump reload "seapath" (some "4be1") alice hashed guarded_boot
      history (seen_at plain_findings "seapath" plain_node "4be1")
      (one_machine "seapath" plain_node) plain_node boot_node boot_text second boot_findings
      history_read refl refl (refl, tt) refl refl boot_text_lem boot_found boot-valid refl
      boot-differs

abbrev bytes : ℕ → List ℕ
bytes zero = []
bytes (suc n) = 171 ∷ bytes n

abbrev derive : Derive
derive password salt rounds size = bytes size

abbrev salt : List ℕ
salt = 0 ∷ 255 ∷ []

abbrev encoded : Text
encoded = join_text b'.' (encoded_parts 2 salt (bytes 64))

hash_password-verify_example : verify derive "s3cret" encoded ≡ some true
unfolding hash_password
hash_password-verify_example =
    hash_password-verify derive salt "s3cret" 1 encoded (ground arith) (ground arith) refl refl
