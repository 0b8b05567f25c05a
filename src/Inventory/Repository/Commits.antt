-- ===== src/Inventory/Repository/Commits.antt =====
-- What a commit does on each of its branches.
use insatomcat_webui.Base.{
  String, ◌≡◌, refl, ap, ◌∙◌, inl, inr, Bool, true, false, Option, none, some, ◌∷◌, eq_refl,
  Bool-cases, Result, ok, err,
}
use insatomcat_webui.Inventory.Repository.{
  Commit, Repository, Failure, GitAnswer, committed, failed, initialise, head, is_text, is_stale,
  answered, commit,
}

abbrev pub refuses : Result Failure (Option Commit) → Bool
refuses (err (Failure.stale _)) = true
refuses (err (Failure.repository_error _)) = false
refuses (ok _) = false

pub initialise_keeps :
    (repo : Repository)
    → ((initialise repo).commits ≡ repo.commits) × ((initialise repo).file ≡ repo.file)
unfolding initialise
initialise_keeps repo = elim (Bool-cases repo.initialised) [
  | inl e ↦ rw e (refl, refl)
  | inr e ↦ rw e (refl, refl)
]

initialise-head : (repo : Repository) → head (initialise repo) ≡ head repo
unfolding head
initialise-head repo = rw ((initialise_keeps repo).0)

module _ (content : String) (expected : Option String) (repo : Repository) where
  pub commit_stale :
      (git : GitAnswer)
      → is_stale expected (head repo) ≡ true
      → (refuses (commit git content expected repo).1 ≡ true)
        × ((commit git content expected repo).0 ≡ initialise repo)
  unfolding commit
  commit_stale git s = rw (initialise-head repo, s) (refl, refl)

  commit_same :
      (git : GitAnswer)
      → is_stale expected (head repo) ≡ false
      → is_text content repo.file ≡ true
      → commit git content expected repo ≡ (initialise repo, ok none)
  unfolding commit
  commit_same git s e = rw (initialise-head repo, s, (initialise_keeps repo).1, e)

  pub commit_answered :
      (git : GitAnswer)
      → is_stale expected (head repo) ≡ false
      → is_text content repo.file ≡ false
      → commit git content expected repo
        ≡ answered git (record (initialise repo) { file = some content })
  unfolding commit
  commit_answered git s n = rw (initialise-head repo, s, (initialise_keeps repo).1, n)

  commit_again :
      (left : Repository) (git : GitAnswer)
      → left.file ≡ some content
      → commit git content none left ≡ (initialise left, ok none)
  unfolding commit
  commit_again left git e = rw ((initialise_keeps left).1, e, eq_refl content)

  -- what a commit leaves, by whether its head is stale and whether its content is there; `again` is
  -- git's answer to a second try
  abbrev pub Leaves : Bool → Bool → GitAnswer → GitAnswer → Type 0
  Leaves true same git again =
      let (left, answer) = commit git content expected repo in
      (refuses answer ≡ true) × (left.file ≡ repo.file) × (left.commits ≡ repo.commits)
  Leaves false true git again =
      let (left, answer) = commit git content expected repo in
      (answer ≡ ok none) × (left.file ≡ repo.file) × (left.commits ≡ repo.commits)
  Leaves false false (committed c) again =
      let (left, answer) = commit (committed c) content expected repo in
      (answer ≡ ok (some c))
      × (left.file ≡ some content)
      × (head left ≡ some c.hash)
      × (left.commits ≡ c ∷ repo.commits)
  Leaves false false (failed message) again =
      let (left, answer) = commit (failed message) content expected repo in
      (left.file ≡ some content)
      × (left.commits ≡ repo.commits)
      × ((commit again content none left).1 ≡ ok none)
      × ((commit again content none left).0.commits ≡ repo.commits)

  leaves :
      (stale same : Bool)
      → is_stale expected (head repo) ≡ stale
      → is_text content repo.file ≡ same
      → (git again : GitAnswer) → Leaves stale same git again
  unfolding head
  leaves true same s t git again =
      let (r, e) = commit_stale git s in
      (
        r,
        ap (λ (x : Repository). x.file) e ∙ (initialise_keeps repo).1,
        ap (λ (x : Repository). x.commits) e ∙ (initialise_keeps repo).0,
      )
  leaves false true s t git again =
      rw (commit_same git s t) (refl, (initialise_keeps repo).1, (initialise_keeps repo).0)
  leaves false false s t (committed c) again =
      rw (commit_answered (committed c) s t)
        (refl, refl, refl, ap (λ l. c ∷ l) (initialise_keeps repo).0)
  leaves false false s t (failed message) again =
      let written = record (initialise repo) { file = some content } in
      rw (commit_answered (failed message) s t, commit_again written again refl)
        (
          refl,
          (initialise_keeps repo).0,
          refl,
          (initialise_keeps written).0 ∙ (initialise_keeps repo).0,
        )

  -- A commit that expects another head than the current one is refused and changes neither the file
  -- nor the history; one of the content that is there changes neither and answers nothing. Otherwise
  -- the file has the content, and the history grows by the commit that git made, which is the new
  -- head. If git fails, the file has the content all the same while the history is as before, and a
  -- second try that expects no head, whatever git answers to it, commits nothing and reports no error.
  pub commit-head :
      (git again : GitAnswer)
      → Leaves (is_stale expected (head repo)) (is_text content repo.file) git again
  commit-head git again = leaves _ _ refl refl git again
