-- ===== src/Hosts/Cpu.antt =====
-- app/hosts/local.py: the processors, `cpu` with what it calls. How Python reads a
-- float is an argument.
pub mod Reading
use mathlib.Core.Option
use insatomcat_webui.Base.{
  ℕ, zero, suc, ◌+◌, ◌-◌, ◌*◌, ℤ, pos, negsuc, String, ◌==◌, ◌=?◌, leb, Bool, true, false, not,
  ◌&&◌, ◌||◌, Option, none, some, List, [], ◌∷◌, ◌++◌, if◌then◌else◌, concat, map, keep, any,
  length, null, take, Text, codes, text_of, strip, words, partition, starts_with, string_of_nat,
  int_of_text,
}
use insatomcat_webui.Hosts.CpuList.{parse_cpu_list}
use insatomcat_webui.Hosts.Busy.{Share, Times, polled, busy_of}
use insatomcat_webui.Hosts.Tree.{Tree, read_text, read_int, text_lines, given, stripped}

pub record CpuTopologyEntry : Type 0 where
  pub cpu : ℕ
  pub socket : Option ℤ
  pub core : Option ℤ
  pub online : Bool
  pub isolated : Bool
  pub busy_percent : Option Share

pub record CpuReading (F : Type 0) : Type 0 where
  pub model : Option String
  pub present : Option ℕ
  pub online : Option ℕ
  pub isolated : List ℕ
  pub isolated_source : Option String
  pub nohz_full : List ℕ
  pub housekeeping : List ℕ
  pub load_average : Option (List F)
  pub topology : List CpuTopologyEntry
  pub kernel_cmdline : Option String
  pub warnings : List String

abbrev value_if : String → Text × Bool × Text → Option String → Option String
value_if name (key, separator, value) rest =
    if separator && (text_of key == name) then some (text_of value) else rest

-- the loop of `_kernel_parameter`
unfoldable pub parameter_in : String → List Text → Option String
unfolding partition
parameter_in name [] = none
parameter_in name (token ∷ tokens) =
    let rest = parameter_in name tokens in value_if name (partition b'=' token) rest

-- `_kernel_parameter`
unfoldable pub kernel_parameter : String → String → Option String
unfolding parameter_in words
kernel_parameter cmdline name = parameter_in name (words (codes cmdline))

abbrev model_if : Text × Bool × Text → Option String → Option String
model_if (key, separator, value) rest =
    let name = stripped key in
    if separator && ((name == "model name") || (name == "Model"))
    then some (stripped value)
    else rest

model_in : List Text → Option String
unfolding partition strip
model_in [] = none
model_in (line ∷ lines) = let rest = model_in lines in model_if (partition b':' line) rest

abbrev model_of : Option String → Option String
model_of none = none
model_of (some raw) = model_in (text_lines raw)

-- `_cpu_model`
unfoldable pub cpu_model : Tree → Option String
unfolding read_text model_in text_lines
cpu_model tree = model_of (given (read_text tree ("proc/cpuinfo" ∷ [])))

abbrev pub base : String
base = "sys/devices/system/cpu"

abbrev pub nothing_isolated : String
nothing_isolated =
    "No isolated CPUs. On a hypervisor this usually means seapath_setup_main.yaml has not been applied yet."

abbrev pub topology_unreadable : String
topology_unreadable = "CPU topology is not readable under /sys."

abbrev pub load_unparsed : String
load_unparsed = "/proc/loadavg could not be parsed."

-- a warning where a test holds
abbrev pub warn_if : Bool → String → List String
warn_if test message = if test then message ∷ [] else []

abbrev pub has : ℕ → List ℕ → Bool
has cpu cpus = any (λ c. c =? cpu) cpus

abbrev pub isolcpus_of : Option String → List ℕ
unfolding parse_cpu_list kernel_parameter
isolcpus_of none = parse_cpu_list none
isolcpus_of (some cmdline) = parse_cpu_list (kernel_parameter cmdline "isolcpus")

-- the isolated CPUs, and where they were read
abbrev pub isolated_or : List ℕ → List ℕ → List ℕ × Option String
isolated_or (c ∷ cs) fallback = (c ∷ cs, some "sysfs")
isolated_or [] (c ∷ cs) = (c ∷ cs, some "cmdline")
isolated_or [] [] = ([], none)

abbrev pub number_or_none : ℕ → Option ℕ
number_or_none zero = none
number_or_none (suc n) = some (suc n)

-- `present or online`
abbrev pub known : List ℕ → List ℕ → List ℕ
known [] online = online
known (c ∷ cs) online = c ∷ cs

module _ (tree : Tree) where
  abbrev pub cpu_set : String → List ℕ
  unfolding parse_cpu_list read_text
  cpu_set name = parse_cpu_list (read_text tree (base ∷ name ∷ []))

  abbrev pub cpu_file : ℕ → String → Option ℤ
  unfolding read_int
  cpu_file cpu name =
      read_int tree (base ∷ concat ("cpu" ∷ string_of_nat cpu ∷ "/topology/" ∷ name ∷ []) ∷ [])

  -- an entry of `topology`
  abbrev pub entry_of : List ℕ → List ℕ → (ℕ → Option Share) → ℕ → CpuTopologyEntry
  entry_of online isolated busy cpu = record {
    cpu = cpu;
    socket = cpu_file cpu "physical_package_id";
    core = cpu_file cpu "core_id";
    online = null online || has cpu online;
    isolated = has cpu isolated;
    busy_percent = busy cpu;
  }

  module _ {F : Type 0} (float_of : Text → Option F) where
    abbrev pub joined : Option F → Option (List F) → Option (List F)
    joined (some n) (some ns) = some (n ∷ ns)
    joined (some n) none = none
    joined none ns = none

    unfoldable pub floats : List Text → Option (List F)
    floats [] = some []
    floats (word ∷ words) = joined (float_of word) (floats words)

    -- the load averages, and the warning about them
    abbrev pub warned_load : Option (List F) → Option (List F) × List String
    warned_load none = (none, load_unparsed ∷ [])
    warned_load (some averages) = (some averages, [])

    abbrev pub load_of : Option String → Option (List F) × List String
    unfolding floats words
    load_of none = (none, [])
    load_of (some raw) = warned_load (floats (take 3 (words (codes raw))))

    unfoldable pub reading_of : (ℕ → Option Share) → CpuReading F
    unfolding cpu_model read_text parse_cpu_list
    reading_of busy =
        let present = cpu_set "present" in
        let online = cpu_set "online" in
        let cmdline = read_text tree ("proc/cmdline" ∷ []) in
        let (isolated, source) = isolated_or (cpu_set "isolated") (isolcpus_of (given cmdline)) in
        let topology = map (entry_of online isolated busy) (known present online) in
        let (averages, load_warnings) = load_of (given (read_text tree ("proc/loadavg" ∷ []))) in
        record {
          model = cpu_model tree;
          present = number_or_none (length present);
          online = number_or_none (length online);
          isolated = isolated;
          isolated_source = source;
          nohz_full = cpu_set "nohz_full";
          housekeeping = keep (λ c. not (has c isolated)) (known present online);
          load_average = averages;
          topology = topology;
          kernel_cmdline = cmdline;
          warnings =
              warn_if (null isolated) nothing_isolated
              ++ (warn_if (null topology) topology_unreadable ++ load_warnings);
        }

    unfoldable pub reading_after : Times → Option (Option Times) → Times × Option (CpuReading F)
    unfolding busy_of
    reading_after previous none = (previous, none)
    reading_after previous (some none) = (previous, some (reading_of (λ id. none)))
    reading_after previous (some (some current)) =
        (current, some (reading_of (busy_of previous current)))

    -- `cpu`, from the times of the last poll; no reading is where it raises
    unfoldable pub cpu : Times → Times × Option (CpuReading F)
    unfolding polled
    cpu previous = reading_after previous (polled tree)
