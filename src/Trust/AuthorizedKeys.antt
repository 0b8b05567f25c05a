-- ===== src/Trust/AuthorizedKeys.antt =====
-- app/trust/authorized_keys.py: the lines of the service in a file that belongs to someone else. A
-- text is its code points. The owner and the mode of the file are not modelled.
pub mod Lines
pub mod Preserved
use insatomcat_webui.Base.{
  ℕ, String, Bool, true, false, not, ◌&&◌, ◌||◌, Option, none, some, List, [], ◌∷◌, ◌++◌, ◌=?◌, leb,
  if◌then◌else◌, null, keep, Text, codes, strip, words, last_word, starts_with, join_text,
  split_lines, Result, ok, err,
}

abbrev pub comment_prefix : Text
comment_prefix = codes "seapath-webui:"

-- `AuthorizedKey`
pub record AuthorizedKey : Type 0 where
  pub comment : Text
  pub public_key : Text
  pub from_addresses : List Text

abbrev options_of : List Text → Text
options_of [] = codes "restrict"
options_of (a ∷ as_) =
    codes "from=\"" ++ (join_text b',' (a ∷ as_) ++ (codes "\"," ++ codes "restrict"))

-- `render`
unfoldable pub render : AuthorizedKey → Text
render key = options_of key.from_addresses ++ 32 ∷ key.public_key ++ 32 ∷ key.comment

-- equality of texts
abbrev pub same_text : Text → Text → Bool
same_text [] [] = true
same_text [] (_ ∷ _) = false
same_text (_ ∷ _) [] = false
same_text (c ∷ s) (d ∷ t) = (c =? d) && same_text s t

abbrev pub is_text : Text → Option Text → Bool
is_text t none = false
is_text t (some u) = same_text u t

-- `_comment_of`
unfoldable pub comment_of : Text → Option Text
comment_of line =
    let stripped = strip line in
    let candidate = last_word (words stripped) in
    if null stripped || starts_with stripped (codes "#")
    then none
    else if starts_with candidate comment_prefix
    then some candidate
    else none

-- the last three of at least four fields, without the last one
blob : List Text → Option Text
blob (a ∷ b ∷ c ∷ d ∷ []) = some (b ++ 32 ∷ c)
blob (a ∷ b ∷ c ∷ d ∷ e ∷ fields) = blob (b ∷ c ∷ d ∷ e ∷ fields)
blob _ = none

-- `_key_blob_of`
unfoldable pub key_blob_of : Text → Option Text
unfolding blob
key_blob_of line = blob (words (strip line))

-- The account's directory, and the file in it.
pub record KeyFile : Type 0 where
  pub directory : Bool
  pub content : Option Text

pub data MissingAccount : Type 0 where
  missing_account : MissingAccount

-- `_read`
unfoldable pub read : KeyFile → Result MissingAccount (List Text)
unfolding split_lines
read file = elim file.content [
  | none ↦ if not file.directory then err missing_account else ok []
  | some content ↦ ok (split_lines content)
]

-- `_write`, whose rename makes it atomic
unfoldable pub write : List Text → KeyFile → KeyFile
write lines file = record file {
  content = some (join_text 10 lines ++ (if null lines then [] else 10 ∷ []));
}

abbrev is_other : AuthorizedKey → Text → Option Text → Bool
is_other key line none = true
is_other key line (some comment) =
    not (same_text comment key.comment) && not (is_text key.public_key (key_blob_of line))

-- the loop of `install`
unfoldable pub kept : AuthorizedKey → List Text → List Text
kept key lines = keep (λ line. is_other key line (comment_of line)) lines

abbrev pub same_lines : List Text → List Text → Bool
same_lines [] [] = true
same_lines [] (_ ∷ _) = false
same_lines (_ ∷ _) [] = false
same_lines (s ∷ ss) (t ∷ ts) = same_text s t && same_lines ss ts

-- writes the lines unless they are those of the file
abbrev rewritten : List Text → List Text → KeyFile → KeyFile × Bool
rewritten updated lines file =
    if same_lines updated lines then (file, false) else (write updated file, true)

abbrev on_lines :
    (List Text → List Text)
    → KeyFile
    → Result MissingAccount (List Text)
    → Result MissingAccount (KeyFile × Bool)
on_lines f file (err e) = err e
on_lines f file (ok lines) = ok (rewritten (f lines) lines file)

-- `install`: the file, and whether it changed
unfoldable pub install : AuthorizedKey → KeyFile → Result MissingAccount (KeyFile × Bool)
unfolding read write kept render
install key file = on_lines (λ lines. kept key lines ++ render key ∷ []) file (read file)

-- `remove`
unfoldable pub remove : Text → KeyFile → Result MissingAccount (KeyFile × Bool)
unfolding read write comment_of
remove comment file =
    on_lines (keep (λ line. not (is_text comment (comment_of line)))) file (read file)

abbrev put_comment : Option Text → List Text → List Text
put_comment none rest = rest
put_comment (some comment) rest = comment ∷ rest

unfoldable pub comments : List Text → List Text
comments [] = []
comments (line ∷ lines) = put_comment (comment_of line) (comments lines)

abbrev listed : Result MissingAccount (List Text) → Result MissingAccount (List Text)
listed (err e) = err e
listed (ok lines) = ok (comments lines)

-- `installed`: a comment of a line is not empty and has the prefix
unfoldable pub installed : KeyFile → Result MissingAccount (List Text)
unfolding comments read
installed file = listed (read file)
