-- ===== src/Inventory/Service/Saves.antt =====
-- What a save does to the repository, and what is read back behind it.
use Prim.Native.String.{String}
use text.Mathlib.TextLemmas.{cons-append}
use insatomcat_webui.Base.{
  is_some, ◌||◌, Option-cases, ◌≡◌, refl, ap, subst, ◌∙◌, inl, inr, ◌⊎◌, true, false, Option, none,
  some, List, ◌∷◌, Bool-cases, Result, ok, err, Dict, Value, dict_of, null, strip, codes, concat,
  join,
}
use insatomcat_webui.Inventory.Model.{Inventory, NodeConfig, in_range}
use insatomcat_webui.Inventory.Validation.{Finding, Printing, valid, validate, accepted}
use insatomcat_webui.Inventory.Renderer.{document, render, written}
use insatomcat_webui.Inventory.Parser.{Outcome, answer}
use insatomcat_webui.Inventory.Parser.Legible.{IsLegible, IsPlain}
use insatomcat_webui.Inventory.Parser.RoundTrip.{
  one_machine, parse-document, parse-document_out_of_range,
}
use insatomcat_webui.Inventory.Repository.{
  or_missing, Commit, Repository, Failure, GitAnswer, committed, initialise, head, read, is_stale,
  is_text, commit,
}
use insatomcat_webui.Inventory.Repository.Commits.{commit_stale, commit_answered, initialise_keeps}
use insatomcat_webui.Base.Chars.Words.{strip_head}
use insatomcat_webui.Inventory.Service.{
  InventoryState, saved, state, committing, message_or, committed_as, save, save_validated,
  message_for,
}

-- the file and the history
abbrev pub SameFiles : Repository → Repository → Type 0
SameFiles a b = (a.file ≡ b.file) × (a.commits ≡ b.commits)

committing_keeps :
    (findings : List Finding) (r : Repository × Result Failure (Option Commit))
    → (committing findings r).0 ≡ r.0
committing_keeps findings (repo, ok c) = refl
committing_keeps findings (repo, err f) = refl

committed_stale :
    (git : String → GitAnswer) (expected : Option String) (findings : List Finding)
    → (message content : Option String) (repo : Repository) → is_stale expected (head repo) ≡ true
    → SameFiles (committed_as git expected findings message content repo).0 repo
committed_stale git expected findings none content repo s = (refl, refl)
committed_stale git expected findings (some m) none repo s = (refl, refl)
committed_stale git expected findings (some m) (some content) repo s =
    let (_, e) = commit_stale content expected repo (git m) s in
    let k = committing_keeps findings (commit (git m) content expected repo) ∙ e in
    (
      ap (λ (x : Repository). x.file) k ∙ (initialise_keeps repo).1,
      ap (λ (x : Repository). x.commits) k ∙ (initialise_keeps repo).0,
    )

module _ (printing : Printing) (show dump : Value → String) (load : String → Outcome Value) where
  save_stale :
      (git : String → GitAnswer) (candidate : Inventory) (expected message : Option String)
      (repo : Repository) (o : Option (List Finding))
      → (accepted o ≡ false) ⊎ (is_stale expected (head repo) ≡ true)
      → SameFiles
          (save_validated printing show dump load git candidate expected message o repo).0
          repo
  save_stale git candidate expected message repo none h = (refl, refl)
  save_stale git candidate expected message repo (some findings) h =
      elim (Bool-cases (valid findings)) [
        | inl v ↦ rw v (
            committed_stale git expected findings
              (message_or message candidate (state printing show dump load repo))
              (render dump candidate) repo (elim h [ inl n ↦ absurd (cc (v, n)) | inr s ↦ s ]))
        | inr v ↦ rw v (refl, refl)
      ]

  -- Saving an inventory that has an error or cannot be validated, or one from a head that is no longer
  -- the current one, leaves the file and the history as they were, whatever git would answer.
  pub save_refuses :
      (git : String → GitAnswer) (candidate : Inventory) (expected message : Option String)
      (repo : Repository)
      → (accepted (validate printing candidate) ≡ false) ⊎ (is_stale expected (head repo) ≡ true)
      → SameFiles (save printing show dump load git candidate expected message repo).0 repo
  unfolding save
  save_refuses git candidate expected message repo h =
      save_stale git candidate expected message repo (validate printing candidate) h

  -- the message is given, or the state that it is made from can be read
  abbrev pub HasMessage : Option String → Repository → Type 0
  HasMessage message repo = (is_some message || is_some (state printing show dump load repo)) ≡ true

  message_lem :
      (message : Option String) (candidate : Inventory) (repo : Repository)
      → HasMessage message repo
      → (m : String) × (message_or message candidate (state printing show dump load repo) ≡ some m)
  message_lem (some m) candidate repo h = (m, refl)
  message_lem none candidate repo h = elim (Option-cases (state printing show dump load repo)) [
    | inl e ↦ absurd (let k = rw e at h in cc k)
    | inr (s, e) ↦ (message_for candidate s.inventory, rw e refl)
  ]

  pub saved_lem :
      (candidate : Inventory) (content : String) (c : Commit) (message expected : Option String)
      (repo : Repository) (findings : List Finding)
      → render dump candidate ≡ some content
      → validate printing candidate ≡ some findings
      → valid findings ≡ true
      → HasMessage message repo
      → is_stale expected (head repo) ≡ false
      → is_text content repo.file ≡ false
      → save printing show dump load (λ m. committed c) candidate expected message repo ≡ (
        record (initialise repo) { file = some content; commits = c ∷ (initialise repo).commits },
        saved (some c) findings,
      )
  unfolding save
  saved_lem candidate content c message expected repo findings written_as found v told s n =
      let (m, e) = message_lem message candidate repo told in
      rw (found, v, e, written_as, commit_answered content expected repo (committed c) s n) refl

pub text_not_blank :
    (dump : Value → String) (o : Option (Dict Value)) (content : String)
    → written dump o ≡ some content
    → null (strip (codes content)) ≡ false
unfolding concat join
text_not_blank dump none content h = absurd (cc h)
text_not_blank dump (some d) content h =
    let same : or_missing (written dump (some d)) ≡ content = ap or_missing h in
    subst (λ x. null (strip (codes x)) ≡ false) same (rw cons-append (strip_head b'#' _ refl))

-- what `state` answers for an inventory of one machine at a commit
abbrev pub seen_at : List Finding → String → NodeConfig → String → InventoryState
seen_at findings name node hash = record {
  inventory = some (one_machine name node);
  commit = some hash;
  validation = findings;
  seeded = true;
  parse_error = none;
}

module _ (printing : Printing) (show dump : Value → String) (load : String → Outcome Value)
    (name : String) (node : NodeConfig) (h : IsPlain node) where
  pub state_lem :
      (content : String) (d : Dict Value) (c : Commit) (repo : Repository) (findings : List Finding)
      → document (one_machine name node) ≡ some d
      → render dump (one_machine name node) ≡ some content
      → load content ≡ answer (dict_of d)
      → validate printing (one_machine name node) ≡ some findings
      → state printing show dump load
          (record repo { file = some content; commits = c ∷ repo.commits })
        ≡ some (seen_at findings name node c.hash)
  unfolding state read head render
  state_lem content d c repo findings rendered written_as loaded found = rw (
    text_not_blank dump (document (one_machine name node)) content written_as,
    parse-document show name node h load content d rendered loaded,
    found,
  )

  -- Saving an inventory of one plain machine, from the current head and with a content that is not the
  -- file's, when validating it finds no error, its message is given or the state before it can be read, and
  -- git commits it: the answer is that commit with the findings, and what `state` then answers is the saved
  -- inventory at that commit with those findings, provided that YAML loads the text that was written as the
  -- document that was dumped.
  pub save-state :
      (content : String) (d : Dict Value) (c : Commit) (message expected : Option String)
      (findings : List Finding)
      → (repo : Repository) → document (one_machine name node) ≡ some d
      → render dump (one_machine name node) ≡ some content
      → load content ≡ answer (dict_of d)
      → validate printing (one_machine name node) ≡ some findings
      → valid findings ≡ true
      → HasMessage printing show dump load message repo
      → is_stale expected (head repo) ≡ false
      → is_text content repo.file ≡ false
      → let result =
          save printing show dump load
            (λ m. committed c)
            (one_machine name node)
            expected
            message
            repo in
        (result.1 ≡ saved (some c) findings)
        × (state printing show dump load result.0 ≡ some (seen_at findings name node c.hash))
  save-state content d c message expected findings repo rendered written_as loaded found v told s
        n =
      rw
        (saved_lem printing show dump load (one_machine name node) content c message expected repo
          findings written_as found v told s n)
        (refl, state_lem content d c (initialise repo) findings rendered written_as loaded found)

state_unread :
    (printing : Printing) (show dump : Value → String) (load : String → Outcome Value)
    (name : String) (node : NodeConfig) (h : IsLegible node) (content : String) (d : Dict Value)
    (c : Commit) (repo : Repository)
    → in_range node.subnet node.ptp_domain_number ≡ false
    → document (one_machine name node) ≡ some d
    → render dump (one_machine name node) ≡ some content
    → load content ≡ answer (dict_of d)
    → state printing show dump load
        (record repo { file = some content; commits = c ∷ repo.commits })
      ≡ none
unfolding state read head render
state_unread printing show dump load name node h content d c repo out rendered written_as loaded =
    rw (
      text_not_blank dump (document (one_machine name node)) content written_as,
      parse-document_out_of_range show name node h load content d out rendered loaded,
    )

-- Saving an inventory of one legible machine with a prefix length or a PTP domain out of range, from the
-- current head and with a content that is not the file's, when validating it answers and finds no error,
-- its message is given or the state before it can be read, and git commits it: the save answers that commit
-- and the findings, and no state can be read after it, provided that YAML loads the text that was written
-- as the document that was dumped.
pub save-state_out_of_range :
    (printing : Printing) (show dump : Value → String) (load : String → Outcome Value)
    (name : String) (node : NodeConfig) (h : IsLegible node) (content : String) (d : Dict Value)
    (c : Commit) (message expected : Option String) (findings : List Finding) (repo : Repository)
    → in_range node.subnet node.ptp_domain_number ≡ false
    → document (one_machine name node) ≡ some d
    → render dump (one_machine name node) ≡ some content
    → load content ≡ answer (dict_of d)
    → validate printing (one_machine name node) ≡ some findings
    → valid findings ≡ true
    → HasMessage printing show dump load message repo
    → is_stale expected (head repo) ≡ false
    → is_text content repo.file ≡ false
    → let result =
        save printing show dump load
          (λ m. committed c)
          (one_machine name node)
          expected
          message
          repo in
      (result.1 ≡ saved (some c) findings) × (state printing show dump load result.0 ≡ none)
save-state_out_of_range printing show dump load name node h content d c message expected findings
      repo out rendered written_as loaded found v told s n =
    rw
      (saved_lem printing show dump load (one_machine name node) content c message expected repo
        findings written_as found v told s n)
      (
        refl,
        state_unread printing show dump load name node h content d c (initialise repo) out rendered
            written_as loaded,
      )
