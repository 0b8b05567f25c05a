-- ===== src/Trust/KnownHosts.antt =====
-- app/trust/known_hosts.py: the host keys of the machine under every name that it answers to. A file is its
-- text, if it can be read.
pub mod Twice
use insatomcat_webui.Base.{
  ℕ, String, ◌==◌, Bool, true, false, not, Option, none, some, List, [], ◌∷◌, ◌++◌, if◌then◌else◌,
  map, keep, null, concat, sorted, str_lt, Dict, keys, insert, codes, text_of, words, strip, Text,
  newlines, ◌||◌,
}

-- `_HOST_KEY_FILES`
abbrev pub host_key_files : List String
host_key_files = "ssh_host_ed25519_key.pub" ∷ "ssh_host_ecdsa_key.pub" ∷ []

-- `_HEADER`
abbrev pub header : String
header =
    "# Generated by seapath-webui from the host's own public host keys.\n# Read from the filesystem, never from the network.\n"

abbrev key_of : List Text → List String → List String
key_of (kind ∷ blob ∷ _) rest = concat (text_of kind ∷ " " ∷ text_of blob ∷ []) ∷ rest
key_of _ rest = rest

abbrev key_in : Option String → List String → List String
unfolding words strip newlines
key_in none rest = rest
key_in (some content) rest = key_of (words (strip (newlines false (codes content)))) rest

keys_in : (String → Option String) → List String → List String
unfolding key_in
keys_in file [] = []
keys_in file (name ∷ names) = key_in (file name) (keys_in file names)

-- `read_local_host_keys`, from the files of the directory
unfoldable pub read_local_host_keys : (String → Option String) → List String
unfolding keys_in
read_local_host_keys file = keys_in file host_key_files

-- `sorted` of a list, in which a text may stand twice
insert_again : String → List String → List String
insert_again s [] = s ∷ []
insert_again s (t ∷ ts) =
    let rest = t ∷ insert_again s ts in if str_lt t s then rest else s ∷ t ∷ ts

unfoldable pub sorted_all : List String → List String
unfolding insert_again
sorted_all [] = []
sorted_all (s ∷ ss) = insert_again s (sorted_all ss)

abbrev pub line_of : String → String → String
unfolding concat
line_of name key = concat (name ∷ " " ∷ key ∷ "\n" ∷ [])

-- the lines of some names, which all have the same keys
lines_of : List String → List String → List String
unfolding line_of sorted_all
lines_of keys [] = []
lines_of keys (name ∷ names) = map (line_of name) (sorted_all keys) ++ lines_of keys names

-- `render` of the same keys for every name; `sorted` also takes each name once, as the dictionary does
unfoldable pub render : List String → List String → String
unfolding lines_of concat sorted
render names keys = concat (header ∷ concat (lines_of keys (sorted names)) ∷ [])

abbrev pub same_content : String → Option String → Bool
unfolding newlines
same_content content none = false
same_content content (some file) = text_of (newlines false (codes file)) == content

abbrev pub recorded : List String → List String → Option String → Option String × Bool
unfolding render same_content
recorded names [] file = (file, false)
recorded names (k ∷ ks) file =
    let content = render (keep (λ n. not (n == "")) names) (k ∷ ks) in
    if same_content content file then (file, false) else (some content, true)

-- `ensure_local`: the file, and whether it changed
unfoldable pub ensure_local :
    (String → Option String) → List String → Option String → Option String × Bool
unfolding recorded read_local_host_keys
ensure_local host_keys names file = recorded names (read_local_host_keys host_keys) file
