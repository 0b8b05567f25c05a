-- ===== src/Hosts/Busy.antt =====
-- app/hosts/local.py: `_cpu_busy_percent`, how busy each CPU was between two readings of /proc/stat. A
-- percentage is kept as the busy time and the whole of it, before the rounding.
pub mod Bounds
use mathlib.Core.Option
use insatomcat_webui.Base.{
  ℕ, zero, suc, ◌+◌, ◌-◌, ◌*◌, ℤ, pos, negsuc, String, ◌==◌, ◌=?◌, leb, Bool, true, false, not,
  ◌&&◌, ◌||◌, Option, none, some, List, [], ◌∷◌, ◌++◌, if◌then◌else◌, concat, map, keep, any,
  length, null, take, Text, codes, text_of, strip, words, partition, starts_with, string_of_nat,
  int_of_text,
}
use insatomcat_webui.Hosts.Tree.{Tree, read_text, read_int, text_lines, given, stripped}

-- the busy part of a time, in the kernel's ticks
pub record Share : Type 0 where
  pub busy : ℤ
  pub whole : ℕ

abbrev difference : ℕ → ℕ → ℤ
difference m n = if leb n m then pos (m - n) else negsuc (n - m - 1)

infixl 20 ◌+ℤ◌
infixl 20 ◌-ℤ◌
abbrev pub ◌+ℤ◌ : ℤ → ℤ → ℤ
pos m +ℤ pos n = pos (m + n)
pos m +ℤ negsuc n = difference m (n + 1)
negsuc m +ℤ pos n = difference n (m + 1)
negsuc m +ℤ negsuc n = negsuc (m + n + 1)

abbrev pub ◌-ℤ◌ : ℤ → ℤ → ℤ
m -ℤ pos zero = m
m -ℤ pos (suc n) = m +ℤ negsuc n
m -ℤ negsuc n = m +ℤ pos (n + 1)

abbrev pub sum : List ℤ → ℤ
sum [] = pos 0
sum (n ∷ ns) = n +ℤ sum ns

abbrev joined : Option ℤ → Option (List ℤ) → Option (List ℤ)
joined (some n) (some ns) = some (n ∷ ns)
joined (some n) none = none
joined none ns = none

-- `[int(value) for value in fields]`
ints : List Text → Option (List ℤ)
unfolding int_of_text
ints [] = some []
ints (field ∷ fields) = joined (int_of_text field) (ints fields)

pub record Ticks : Type 0 where
  pub total : ℤ
  pub idle : ℤ

-- The total and the idle time of a line's values; nothing where the code raises `IndexError`.
unfoldable pub times_of : List ℤ → Option Ticks
times_of (a ∷ b ∷ c ∷ d ∷ []) = some (record { total = sum (a ∷ b ∷ c ∷ d ∷ []); idle = d })
times_of (a ∷ b ∷ c ∷ d ∷ e ∷ rest) =
    some (record { total = sum (a ∷ b ∷ c ∷ d ∷ e ∷ rest); idle = d +ℤ e })
times_of [] = none
times_of (a ∷ []) = none
times_of (a ∷ b ∷ []) = none
times_of (a ∷ b ∷ c ∷ []) = none

-- What a line of /proc/stat comes to.
pub data Stat : Type 0 where
  skipped raises : Stat
  times : ℤ → Ticks → Stat

abbrev stat_times : ℤ → Option Ticks → Stat
stat_times id none = raises
stat_times id (some t) = times id t

abbrev stat_values : Option ℤ → Option (List ℤ) → Stat
stat_values (some id) (some values) = stat_times id (times_of values)
stat_values (some id) none = skipped
stat_values none values = skipped

abbrev behind_cpu : Text → Text
behind_cpu (_ ∷ _ ∷ _ ∷ s) = s
behind_cpu s = []

abbrev stat_fields : List Text → Stat
stat_fields [] = skipped
stat_fields (name ∷ fields) = stat_values (int_of_text (behind_cpu name)) (ints fields)

unfoldable pub stat_of : Text → Stat
unfolding ints starts_with words times_of int_of_text
stat_of line =
    if not (starts_with line (codes "cpu")) || starts_with line (codes "cpu ")
    then skipped
    else stat_fields (words line)

abbrev pub Times : Type 0
Times = List (ℕ × Ticks)

-- `current[cpu_id] = …`
put : ℕ → Ticks → Times → Times
put id t [] = (id, t) ∷ []
put id t ((j, u) ∷ ts) = let rest = (j, u) ∷ put id t ts in if j =? id then (id, t) ∷ ts else rest

unfoldable pub time_of : ℕ → Times → Option Ticks
time_of id [] = none
time_of id ((j, u) ∷ ts) = let rest = time_of id ts in if j =? id then some u else rest

-- no negative number is a CPU that is read later
abbrev put_stat : Stat → Times → Option Times
put_stat skipped ts = some ts
put_stat raises ts = none
put_stat (times (pos id) t) ts = some (put id t ts)
put_stat (times (negsuc id) t) ts = some ts

abbrev then_stat : Option Times → Stat → Option Times
then_stat none s = none
then_stat (some ts) s = put_stat s ts

-- the first loop of `_cpu_busy_percent`, from what it has so far
times_in : Option Times → List Text → Option Times
unfolding put stat_of
times_in ts [] = ts
times_in ts (line ∷ lines) = times_in (then_stat ts (stat_of line)) lines

abbrev share_if : ℤ → ℤ → Option Share
share_if (pos (suc n)) idle = some (record { busy = pos (suc n) -ℤ idle; whole = suc n })
share_if (pos zero) idle = none
share_if (negsuc n) idle = none

-- how busy a CPU was between two readings, where time has passed
unfoldable pub share_of : Ticks → Ticks → Option Share
share_of now before = share_if (now.total -ℤ before.total) (now.idle -ℤ before.idle)

abbrev since : Ticks → Option Ticks → Option Share
since now none = none
since now (some before) = share_of now before

abbrev busy_if : Times → Option Ticks → ℕ → Option Share
busy_if previous none id = none
busy_if previous (some now) id = since now (time_of id previous)

-- `busy.get(cpu_id)` of the second loop
unfoldable pub busy_of : Times → Times → ℕ → Option Share
unfolding time_of share_of
busy_of previous current id = busy_if previous (time_of id current) id

abbrev times_read : Option String → Option (Option Times)
times_read none = some none
times_read (some raw) = Option.map some (times_in (some []) (text_lines raw))

-- The times that a poll reads, if it reads any; nothing where it raises.
unfoldable pub polled : Tree → Option (Option Times)
unfolding times_in read_text text_lines
polled tree = times_read (given (read_text tree ("proc/stat" ∷ [])))
