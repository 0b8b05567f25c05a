-- ===== src/Inventory/Service/Seeding.antt =====
-- What the start of the service does to the inventory.
use insatomcat_webui.Base.{
  String, ◌≡◌, refl, ap, ◌∙◌, inl, inr, ◌⊎◌, Option-cases, Result, ok, err, true, false, Option,
  none, some, ◌∷◌, Value, Bool-cases, null, strip, codes, eq_iff,
}
use insatomcat_webui.Inventory.Model.{Inventory}
use insatomcat_webui.Inventory.Renderer.{document, render}
use insatomcat_webui.Inventory.Repository.{
  Commit, Repository, Failure, GitAnswer, committed, failed, initialise, read, or_missing, is_text,
  answered, commit,
}
use insatomcat_webui.Inventory.Repository.Commits.{initialise_keeps, commit_answered}
use insatomcat_webui.Inventory.Service.{seeded, unseeded_still, ensure_seed, seeding, seed_of}
use insatomcat_webui.Inventory.Service.Saves.{SameFiles, text_not_blank}

is_text_blank :
    (content : String) (o : Option String)
    → null (strip (codes (or_missing o))) ≡ true
    → null (strip (codes content)) ≡ false
    → is_text content o ≡ false
is_text_blank content none b h = refl
is_text_blank content (some t) b h = elim (Bool-cases (is_text content (some t))) [
  | inl e ↦
      let k = ap (λ x. null (strip (codes x))) ((eq_iff t content).0 e) in absurd (cc (k, b, h))
  | inr e ↦ e
]

initialise-SameFiles : (repo : Repository) → SameFiles (initialise repo) repo
initialise-SameFiles repo = let (commits, file) = initialise_keeps repo in (file, commits)

module _ (dump : Value → String) where
  -- At a start with an inventory file that is not blank nothing is seeded, whatever the machine
  -- proposes and git would answer: the file and the history stay as they were.
  pub ensure_seed_keeps :
      (git : GitAnswer) (candidate : Option Inventory) (repo : Repository)
      → null (strip (codes (read repo))) ≡ false
      → ((ensure_seed dump git candidate repo).1 ≡ unseeded_still)
        × SameFiles (ensure_seed dump git candidate repo).0 repo
  unfolding ensure_seed read
  ensure_seed_keeps git candidate repo h =
      rw ((initialise_keeps repo).1, h) (refl, initialise-SameFiles repo)

  -- the repository behind a seed
  abbrev written_to : String → Commit → Repository → Repository
  written_to content c repo = record (initialise (initialise repo)) {
    file = some content;
    commits = c ∷ (initialise (initialise repo)).commits;
  }

  ensure_seed_lem :
      (candidate : Inventory) (content : String) (c : Commit) (repo : Repository)
      → null (strip (codes (read repo))) ≡ true
      → null (strip (codes content)) ≡ false
      → render dump candidate ≡ some content
      → ensure_seed dump (committed c) (some candidate) repo ≡ (written_to content c repo, seeded)
  unfolding ensure_seed read
  ensure_seed_lem candidate content c repo blank h rendered =
      let file = (initialise_keeps repo).1 in
      rw (
        ap (λ o. null (strip (codes (or_missing o)))) file ∙ blank,
        rendered,
        commit_answered content none (initialise repo) (committed c) refl
            (ap (is_text content) file ∙ is_text_blank content repo.file blank h),
      )

  -- At a start without an inventory the one that the machine proposes is written and committed, and a
  -- later start changes nothing any more, whatever the machine then proposes.
  pub ensure_seed-once :
      (candidate : Inventory) (content : String) (c : Commit) (repo : Repository)
      → (later_git : GitAnswer) (later : Option Inventory) → null (strip (codes (read repo))) ≡ true
      → render dump candidate ≡ some content
      → let (left, answer) = ensure_seed dump (committed c) (some candidate) repo in
        (answer ≡ seeded)
        × (left.file ≡ some content)
        × (left.commits ≡ c ∷ repo.commits)
        × ((ensure_seed dump later_git later left).1 ≡ unseeded_still)
        × SameFiles (ensure_seed dump later_git later left).0 left
  unfolding read render
  ensure_seed-once candidate content c repo later_git later blank rendered =
      let h = text_not_blank dump (document candidate) content rendered in
      rw (ensure_seed_lem candidate content c repo blank h rendered) (
        refl,
        refl,
        ap (λ l. c ∷ l) ((initialise_keeps (initialise repo)).0 ∙ (initialise_keeps repo).0),
        (ensure_seed_keeps later_git later (written_to content c repo) h).0,
        (ensure_seed_keeps later_git later (written_to content c repo) h).1,
      )

  answered_file :
      (git : GitAnswer) (content : String) (repo : Repository)
      → (answered git (record repo { file = some content })).0.file ≡ some content
  answered_file (committed c) content repo = refl
  answered_file (failed message) content repo = refl

  seeding_first : (r : Repository × Result Failure (Option Commit)) → (seeding r).0 ≡ r.0
  seeding_first (repo, ok c) = refl
  seeding_first (repo, err f) = refl

  -- a proposal that is rendered, at a start without an inventory
  ensure_seed_file :
      (git : GitAnswer) (candidate : Inventory) (content : String) (repo : Repository)
      → null (strip (codes (read repo))) ≡ true
      → null (strip (codes content)) ≡ false
      → render dump candidate ≡ some content
      → (ensure_seed dump git (some candidate) repo).0.file ≡ some content
  unfolding ensure_seed read
  ensure_seed_file git candidate content repo blank h rendered =
      let file = (initialise_keeps repo).1 in
      rw (ap (λ o. null (strip (codes (or_missing o)))) file ∙ blank, rendered)
        (ap (λ (r : Repository). r.file) (seeding_first (commit git content none (initialise repo)))
          ∙ ap (λ (r : Repository × Result Failure (Option Commit)). r.0.file)
              (commit_answered content none (initialise repo) git refl
                (ap (is_text content) file ∙ is_text_blank content repo.file blank h))
          ∙ answered_file git content (initialise (initialise repo)))

  -- A proposal that writes nothing, or one that is rendered.
  Idle : GitAnswer → Option Inventory → Type 0
  Idle git candidate = (r : Repository) → (seed_of dump git candidate r).0 ≡ r

  seed-cases :
      (git : GitAnswer) (candidate : Option Inventory)
      → Idle git candidate
        ⊎ ((c : Inventory) × (content : String) × (candidate ≡ some c)
            × (render dump c ≡ some content))
  unfolding Idle
  seed-cases git none = inl (λ r. refl)
  seed-cases git (some c) = elim (Option-cases (render dump c)) [
    | inl e ↦ inl (λ r. rw e refl)
    | inr (content, e) ↦ inr (c, content, refl, e)
  ]

  idle_lem :
      (git : GitAnswer) (candidate : Option Inventory) (repo : Repository)
      → Idle git candidate
      → (ensure_seed dump git candidate repo).0 ≡ initialise repo
  unfolding ensure_seed Idle
  idle_lem git candidate repo idle =
      elim (Bool-cases (null (strip (codes (read (initialise repo)))))) [
        | inl b ↦ rw b (idle (initialise repo))
        | inr b ↦ rw b refl
      ]

  -- what a first start leaves
  seed_left :
      (git : GitAnswer) (candidate : Option Inventory) (repo : Repository)
      → Idle git candidate
        ⊎ (null (strip (codes (read (ensure_seed dump git candidate repo).0))) ≡ false)
  unfolding read
  seed_left git candidate repo = elim (seed-cases git candidate) [
    | inl idle ↦ inl idle
    | inr (c, content, same, rendered) ↦ elim (Bool-cases (null (strip (codes (read repo))))) [
      | inl blank ↦
          let h = text_not_blank dump (document c) content (unfold render in rendered) in
          inr (
            ap (λ o. null (strip (codes (or_missing (ensure_seed dump git o repo).0.file)))) same
            ∙ ap (λ o. null (strip (codes (or_missing o))))
                (ensure_seed_file git c content repo blank h rendered)
            ∙ h)
      | inr filled ↦ inr (
          ap (λ o. null (strip (codes (or_missing o))))
            (ensure_seed_keeps git candidate repo filled).1.0
          ∙ filled)
    ]
  ]

  -- A second start with the same proposal and the same answer of git leaves the file and the history as
  -- the first left them.
  pub ensure_seed-ensure_seed :
      (git : GitAnswer) (candidate : Option Inventory) (repo : Repository)
      → SameFiles
          (ensure_seed dump git candidate (ensure_seed dump git candidate repo).0).0
          (ensure_seed dump git candidate repo).0
  ensure_seed-ensure_seed git candidate repo =
      let left = (ensure_seed dump git candidate repo).0 in
      elim (seed_left git candidate repo) [
        | inr filled ↦ (ensure_seed_keeps git candidate left filled).1
        | inl idle ↦ rw (idle_lem git candidate left idle) (initialise-SameFiles left)
      ]
