-- ===== src/Hosts/Identity.antt =====
-- app/hosts/local.py: `node_identity` and `read_hostname`. The name of the container, how Python reads a
-- float and the instant that lies so many seconds back are arguments.
use insatomcat_webui.Base.{
  ℕ, String, ◌==◌, Bool, Option, none, some, List, [], ◌∷◌, ◌++◌, if◌then◌else◌, Dict, lookup,
  insert, Text, codes, text_of, strip, words, partition,
}
use insatomcat_webui.Hosts.Tree.{Tree, read_text, text_lines, given, stripped}

pub data NodeMode : Type 0 where
  standalone cluster unknown : NodeMode

pub record NodeIdentity (F D : Type 0) : Type 0 where
  pub hostname : String
  pub kernel_release : Option String
  pub distribution : Option String
  pub distribution_id : Option String
  pub distribution_version : Option String
  pub uptime_seconds : Option F
  pub boot_time : Option D
  pub mode : NodeMode
  pub warnings : List String

abbrev pub unmounted_hostname : String
unmounted_hostname =
    "The node hostname was read from the container, not from /etc/hostname. Check that the quadlet mounts it."

abbrev pub unparsed_uptime : String
unparsed_uptime = "/proc/uptime could not be parsed."

abbrev pub unknown_membership : String
unknown_membership =
    "Cluster membership is unknown: /etc/corosync is not mounted into this container."

-- `value.strip('"')`
drop_quotes : Text → Text
drop_quotes [] = []
drop_quotes (c ∷ s) = let rest = drop_quotes s in if text_of (c ∷ []) == "\"" then rest else c ∷ s

abbrev kept : ℕ → Text → Text
kept c [] = if text_of (c ∷ []) == "\"" then [] else c ∷ []
kept c (d ∷ s) = c ∷ d ∷ s

drop_last_quotes : Text → Text
drop_last_quotes [] = []
drop_last_quotes (c ∷ s) = kept c (drop_last_quotes s)

abbrev unquoted : Text → Text
unfolding drop_quotes drop_last_quotes
unquoted s = drop_quotes (drop_last_quotes s)

abbrev entry_if : Text × Bool × Text → Dict String → Dict String
unfolding insert unquoted strip
entry_if (key, separator, value) values =
    if separator then insert (stripped key) (text_of (unquoted (strip value))) values else values

-- the loop of `_parse_os_release`, from what it has so far
release_in : Dict String → List Text → Dict String
unfolding entry_if partition
release_in values [] = values
release_in values (line ∷ lines) = release_in (entry_if (partition b'=' line) values) lines

abbrev release_of : Option String → Dict String
unfolding release_in text_lines
release_of none = []
release_of (some raw) = release_in [] (text_lines raw)

-- `_parse_os_release`
unfoldable pub parse_os_release : Tree → Dict String
unfolding release_of read_text
parse_os_release tree = release_of (given (read_text tree ("etc/os-release" ∷ [])))

abbrev pub hostname_or : String → Option String → String × List String
hostname_or fallback none = (fallback, unmounted_hostname ∷ [])
hostname_or fallback (some name) = (name, [])

-- the mode, and the warning about it
unfoldable pub membership : Tree → NodeMode × List String
membership tree =
    if tree.exists "etc/corosync/corosync.conf"
    then (cluster, [])
    else if tree.is_dir "etc/corosync"
    then (standalone, [])
    else (unknown, unknown_membership ∷ [])

module _ {F D : Type 0} (float_of : Text → Option F) (back : F → Option D) where
  pub record Uptime : Type 0 where
    pub seconds : Option F
    pub boot : Option D
    pub warnings : List String

  abbrev booted : F → Option D → Uptime
  booted seconds none = record {
    seconds = some seconds;
    boot = none;
    warnings = unparsed_uptime ∷ [];
  }
  booted seconds (some at) = record { seconds = some seconds; boot = some at; warnings = [] }

  abbrev up : Option F → Uptime
  up none = record { seconds = none; boot = none; warnings = unparsed_uptime ∷ [] }
  up (some seconds) = booted seconds (back seconds)

  abbrev first_word : List Text → Uptime
  first_word [] = up none
  first_word (word ∷ _) = up (float_of word)

  abbrev pub uptime_of : Option String → Uptime
  unfolding words
  uptime_of none = record { seconds = none; boot = none; warnings = [] }
  uptime_of (some raw) = first_word (words (codes raw))

  -- `node_identity`
  unfoldable pub node_identity : Tree → String → NodeIdentity F D
  unfolding uptime_of parse_os_release membership read_text lookup
  node_identity tree container =
      let (hostname, unmounted) =
        hostname_or container (given (read_text tree ("etc/hostname" ∷ []))) in
      let uptime = uptime_of (given (read_text tree ("proc/uptime" ∷ []))) in
      let (mode, unseen) = membership tree in
      record {
        hostname = hostname;
        kernel_release = read_text tree ("proc/sys/kernel/osrelease" ∷ []);
        distribution = lookup "PRETTY_NAME" (parse_os_release tree);
        distribution_id = lookup "ID" (parse_os_release tree);
        distribution_version = lookup "VERSION_ID" (parse_os_release tree);
        uptime_seconds = uptime.seconds;
        boot_time = uptime.boot;
        mode = mode;
        warnings = unmounted ++ (uptime.warnings ++ unseen);
      }

-- `read_hostname`
unfoldable pub read_hostname : Tree → String → String
unfolding read_text
read_hostname tree container =
    (hostname_or container (given (read_text tree ("etc/hostname" ∷ [])))).0
