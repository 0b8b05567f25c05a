-- ===== src/Hosts/Disks.antt =====
-- app/hosts/local.py: `disks` with `_by_path_index`, and `ptp_clocks`.
pub mod Claims
use mathlib.Core.Option
use insatomcat_webui.Base.{
  ℕ, zero, suc, ◌+◌, ◌*◌, ℤ, pos, negsuc, String, ◌==◌, Bool, true, false, not, ◌&&◌, ◌||◌, is_some,
  Option, none, some, List, [], ◌∷◌, ◌++◌, if◌then◌else◌, map, keep, any, null, concat, join,
  sorted, Dict, lookup, insert, codes, starts_with,
}
use insatomcat_webui.Hosts.Tree.{Tree, read_text, read_int, path, base_name, optional_bool, iterdir}

pub record BlockDevice : Type 0 where
  pub name : String
  pub device_path : String
  pub by_path : Option String
  pub size_bytes : Option ℤ
  pub model : Option String
  pub serial : Option String
  pub rotational : Option Bool
  pub removable : Option Bool
  pub read_only : Option Bool
  pub partitions : List String
  pub holders : List String
  pub claimed : Bool
  pub claim_reason : Option String

pub record DisksReading : Type 0 where
  pub devices : List BlockDevice
  pub warnings : List String

pub record PtpClock : Type 0 where
  pub device : String
  pub clock_name : Option String

-- `_IGNORED_BLOCK_PREFIXES`
abbrev pub ignored_block_prefixes : List String
ignored_block_prefixes = "loop" ∷ "ram" ∷ "zram" ∷ "sr" ∷ "dm-" ∷ "md" ∷ []

abbrev pub is_ignored : String → Bool
unfolding starts_with
is_ignored name = any (λ p. starts_with (codes name) (codes p)) ignored_block_prefixes

abbrev pub by_path_directory : String
by_path_directory = "dev/disk/by-path"

-- `index.setdefault(key, value)`
unfoldable pub set_default : String → String → Dict String → Dict String
unfolding lookup insert
set_default key value index = if is_some (lookup key index) then index else insert key value index

abbrev pub indexed : String → Option String → Dict String → Dict String
unfolding set_default
indexed entry none index = index
indexed entry (some target) index =
    set_default (base_name target) (concat ("/dev/disk/by-path/" ∷ entry ∷ [])) index

-- the loop of `_by_path_index`, from what it has so far
unfoldable pub index_from : Tree → Dict String → List String → Dict String
unfolding indexed
index_from tree index [] = index
index_from tree index (entry ∷ entries) =
    index_from tree (indexed entry (tree.link (path (by_path_directory ∷ entry ∷ []))) index)
      entries

-- `_by_path_index`
unfoldable pub by_path_index : Tree → Dict String
unfolding index_from sorted iterdir
by_path_index tree = index_from tree [] (sorted (iterdir tree (by_path_directory ∷ [])))

-- `size_sectors * _SECTOR_BYTES if size_sectors else None`
abbrev pub size_of : Option ℤ → Option ℤ
size_of none = none
size_of (some (pos zero)) = none
size_of (some (pos (suc n))) = some (pos (suc n * 512))
size_of (some (negsuc n)) = some (negsuc (n * 512 + 511))

abbrev pub reason_of : List String → List String → Option String
unfolding concat join
reason_of (_ ∷ _) holders = some "The device carries partitions."
reason_of [] (h ∷ hs) = some (concat ("The device is held by " ∷ join ", " (h ∷ hs) ∷ "." ∷ []))
reason_of [] [] = none

module _ (tree : Tree) where
  abbrev device_text : String → String → Option String
  unfolding read_text
  device_text name file = read_text tree ("sys/block" ∷ name ∷ file ∷ [])

  abbrev device_int : String → String → Option ℤ
  unfolding read_int
  device_int name file = read_int tree ("sys/block" ∷ name ∷ file ∷ [])

  abbrev pub partitions_of : String → List String
  unfolding sorted iterdir
  partitions_of name = sorted (
      keep (λ e. tree.exists (path ("sys/block" ∷ name ∷ e ∷ "partition" ∷ [])))
        (iterdir tree ("sys/block" ∷ name ∷ [])))

  abbrev pub holders_of : String → List String
  unfolding sorted iterdir
  holders_of name = sorted (iterdir tree ("sys/block" ∷ name ∷ "holders" ∷ []))

  -- a round of the loop of `disks`
  unfoldable pub device_of : Dict String → String → BlockDevice
  unfolding partitions_of holders_of device_text device_int reason_of
  device_of by_path name =
      let partitions = partitions_of name in
      let holders = holders_of name in
      record {
        name = name;
        device_path = concat ("/dev/" ∷ name ∷ []);
        by_path = lookup name by_path;
        size_bytes = size_of (device_int name "size");
        model = device_text name "device/model";
        serial = device_text name "device/serial";
        rotational = optional_bool (device_int name "queue/rotational");
        removable = optional_bool (device_int name "removable");
        read_only = optional_bool (device_int name "ro");
        partitions = partitions;
        holders = holders;
        claimed = not (null partitions) || not (null holders);
        claim_reason = reason_of partitions holders;
      }

  abbrev pub disk_names : Option (List String) → List String
  unfolding sorted is_ignored
  disk_names none = []
  disk_names (some names) = keep (λ n. not (is_ignored n)) (sorted names)

  abbrev pub unstable : Bool → List String
  unstable true =
      "Stable /dev/disk/by-path names are unavailable, and those are the names ceph_osd_disks must use."
      ∷ []
  unstable false = []

  abbrev pub disks_in : Dict String → Option (List String) → DisksReading
  unfolding device_of
  disks_in by_path none = record { devices = []; warnings = "/sys/block is not readable." ∷ [] }
  disks_in by_path (some names) = record {
    devices = map (device_of by_path) (disk_names (some names));
    warnings = unstable (null by_path);
  }

  -- `disks`
  unfoldable pub disks : DisksReading
  unfolding disks_in by_path_index
  disks = disks_in (by_path_index tree) (tree.entries "sys/block")

  abbrev pub clock_of : String → PtpClock
  unfolding read_text
  clock_of name = record {
    device = name;
    clock_name = read_text tree ("sys/class/ptp" ∷ name ∷ "clock_name" ∷ []);
  }

  abbrev clocks_in : Option (List String) → List PtpClock
  unfolding sorted
  clocks_in none = []
  clocks_in (some names) = map clock_of (sorted names)

  -- `ptp_clocks`
  unfoldable pub ptp_clocks : List PtpClock
  unfolding clocks_in
  ptp_clocks = clocks_in (tree.entries "sys/class/ptp")
