-- ===== src/Hosts/Tree.antt =====
-- app/hosts/local.py: what the reader sees of a machine, its file system under a root, with the helpers
-- of the reader. Paths are relative to the root.
use mathlib.Core.Option
use insatomcat_webui.Base.{
  ℤ, pos, negsuc, zero, suc, String, ◌==◌, Bool, true, false, Option, none, some, List, [], join,
  codes, text_of, strip, int_of_text, if◌then◌else◌, newlines, lines_from, Text, split_on,
  last_word,
}

-- Whether a file can be read and as which text, what exists, what a directory holds, where a link points.
pub record Tree : Type 0 where
  pub file : String → Option String
  pub exists : String → Bool
  pub is_dir : String → Bool
  pub entries : String → Option (List String)
  pub link : String → Option String

-- `_path`
abbrev pub path : List String → String
path parts = join "/" parts

abbrev pub stripped : Text → String
stripped s = text_of (strip s)

abbrev as_read : Option String → Option String
as_read none = none
as_read (some content) = some (stripped (newlines false (codes content)))

-- `_read_text`
unfoldable pub read_text : Tree → List String → Option String
unfolding newlines strip
read_text tree parts = as_read (tree.file (path parts))

abbrev as_int : Option String → Option ℤ
as_int none = none
as_int (some raw) = int_of_text (codes raw)

-- `_read_int`
unfoldable pub read_int : Tree → List String → Option ℤ
unfolding read_text int_of_text
read_int tree parts = as_int (read_text tree parts)

-- `raw.splitlines()`
unfoldable pub text_lines : String → List Text
unfolding lines_from
text_lines raw = lines_from [] (codes raw)

-- `if raw`
abbrev pub given : Option String → Option String
given none = none
given (some raw) = if raw == "" then none else some raw

-- `bool(value)` of a number
abbrev is_nonzero : ℤ → Bool
is_nonzero (pos zero) = false
is_nonzero (pos (suc _)) = true
is_nonzero (negsuc _) = true

-- `_optional_bool`
abbrev pub optional_bool : Option ℤ → Option Bool
optional_bool none = none
optional_bool (some n) = some (is_nonzero n)

-- `Path(target).name`; a link's target does not end in a slash
abbrev pub base_name : String → String
base_name target = text_of (last_word (split_on b'/' (codes target)))

-- `_symlink_name`
abbrev pub symlink_name : Tree → List String → Option String
symlink_name tree parts = Option.map base_name (tree.link (path parts))

-- `_iterdir`, the names
unfoldable pub iterdir : Tree → List String → List String
iterdir tree parts = elim (tree.entries (path parts)) [ none ↦ [] | some names ↦ names ]
