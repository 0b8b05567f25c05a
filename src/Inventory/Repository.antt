-- ===== src/Inventory/Repository.antt =====
-- app/inventory/repository.py: the inventory file and its history. What git answers to a commit is an
-- argument.
pub mod Commits
use insatomcat_webui.Base.{
  String, Bool, true, false, not, ◌&&◌, Option, none, some, List, [], ◌∷◌, ◌==◌, if◌then◌else◌,
  concat, Result, ok, err, ℕ, take,
}

pub record Commit : Type 0 where
  pub hash : String
  pub author : String
  pub email : String
  pub timestamp : ℕ
  pub message : String

-- The directory: whether git is set up in it, the inventory file, and the history, newest first.
pub record Repository : Type 0 where
  pub initialised : Bool
  pub file : Option String
  pub commits : List Commit

pub data Failure : Type 0 where
  stale : String → Failure
  repository_error : String → Failure

-- What git makes of `add` and `commit`.
pub data GitAnswer : Type 0 where
  committed : Commit → GitAnswer
  failed : String → GitAnswer

unfoldable pub initialise : Repository → Repository
initialise repo = if repo.initialised then repo else record repo { initialised = true }

abbrev newest : List Commit → Option String
newest [] = none
newest (c ∷ _) = some c.hash

-- `head`
unfoldable pub head : Repository → Option String
head repo = newest repo.commits

-- `read`
abbrev pub or_missing : Option String → String
or_missing none = ""
or_missing (some content) = content

unfoldable pub read : Repository → String
read repo = or_missing repo.file

-- `history`
unfoldable pub history : ℕ → Repository → List Commit
history limit repo = take limit repo.commits

abbrev pub is_text : String → Option String → Bool
is_text s none = false
is_text s (some t) = t == s

-- the guard on `expected_head`
abbrev pub is_stale : Option String → Option String → Bool
is_stale none current = false
is_stale (some expected) current = not (is_text expected current)

abbrev or_no_commit : Option String → String
or_no_commit none = "no commit"
or_no_commit (some hash) = if hash == "" then "no commit" else hash

abbrev sent : Option String → String
sent none = ""
sent (some expected) = expected

-- behind the write of the file
abbrev pub answered : GitAnswer → Repository → Repository × Result Failure (Option Commit)
answered (committed c) repo = (record repo { commits = c ∷ repo.commits }, ok (some c))
answered (failed message) repo = (repo, err (Failure.repository_error message))

unfoldable pub commit :
    GitAnswer → String → Option String → Repository → Repository × Result Failure (Option Commit)
unfolding initialise head
commit git content expected_head repo =
    let ready = initialise repo in
    let current = head ready in
    if is_stale expected_head current
    then (
      ready,
      err (
          Failure.stale (
            concat (
              "The inventory changed since you read it. It is now at "
              ∷ or_no_commit current
              ∷ ", you sent "
              ∷ sent expected_head
              ∷ "."
              ∷ []))),
    )
    else if is_text content ready.file
    then (ready, ok none)
    else answered git (record ready { file = some content })

-- What git makes of `revert`, with the file behind it: a revert that meets a conflict leaves its marks
-- in the file.
pub data RevertAnswer : Type 0 where
  reverted : Commit → Option String → RevertAnswer
  unreverted : String → Option String → RevertAnswer

-- `revert`, with git's answer for the commit and the author
unfoldable pub revert : RevertAnswer → Repository → Repository × Result Failure Commit
revert (reverted c file) repo = (record repo { file = file; commits = c ∷ repo.commits }, ok c)
revert (unreverted message file) repo =
    (record repo { file = file }, err (Failure.repository_error message))
