-- ===== src/Hosts/CpuList.antt =====
-- The kernel's syntax for sets of CPUs: `parse_cpu_list` of app/hosts/local.py, and `_as_cpu_list`
-- and `_range` of app/inventory/discovery.py.
pub mod RoundTrip
use insatomcat_webui.Base.{
  ℕ, zero, suc, ◌+◌, ◌-◌, String, Bool, true, false, Option, none, some, List, [], ◌∷◌, ◌++◌, ◌=?◌,
  if◌then◌else◌, Text, codes, strip, partition, split_on, join_text, text_of, decimal, int_of_text,
  ℤ, pos, negsuc, sorted_nat,
}

-- `n` numbers from `start`
abbrev pub count_up : ℕ → ℕ → List ℕ
count_up start zero = []
count_up start (suc n) = start ∷ count_up (suc start) n

-- `range(start, end + 1)`; a negative start needs a sign, which ends the part before the dash.
abbrev pub range_of : Option ℤ → Option ℤ → List ℕ
range_of (some (pos start)) (some (pos last)) = count_up start (last + 1 - start)
range_of (some (pos start)) (some (negsuc last)) = []
range_of (some (negsuc start)) last = []
range_of (some (pos start)) none = []
range_of none last = []

-- `[int(start)]`, or nothing where that raises
abbrev pub single : Option ℤ → List ℕ
single (some (pos n)) = n ∷ []
single (some (negsuc n)) = []
single none = []

abbrev parse_parts : Text × Bool × Text → List ℕ
parse_parts (start, separator, last) =
    if separator
    then range_of (int_of_text start) (int_of_text last)
    else single (int_of_text start)

-- one round of the loop: the CPUs that a chunk adds
unfoldable pub parse_chunk : Text → List ℕ
parse_chunk chunk = parse_parts (partition b'-' (strip chunk))

unfoldable pub parse_chunks : List Text → List ℕ
unfolding parse_chunk
parse_chunks [] = []
parse_chunks (chunk ∷ chunks) = parse_chunk chunk ++ parse_chunks chunks

-- `parse_cpu_list`; an empty chunk adds nothing, since `int` of it raises
unfoldable pub parse_cpu_list : Option String → List ℕ
unfolding parse_chunks
parse_cpu_list none = []
parse_cpu_list (some raw) = sorted_nat (parse_chunks (split_on b',' (codes raw)))

unfoldable pub range_text : ℕ → ℕ → Text
range_text start last =
    if start =? last then decimal start else decimal start ++ b'-' ∷ decimal last

-- the loop of `_as_cpu_list`, and its last range
unfoldable pub ranges_from : ℕ → ℕ → List ℕ → List Text
unfolding range_text
ranges_from start previous [] = range_text start previous ∷ []
ranges_from start previous (cpu ∷ cpus) =
    let longer = ranges_from start cpu cpus in
    let next = range_text start previous ∷ ranges_from cpu cpu cpus in
    if cpu =? previous + 1 then longer else next

-- `_as_cpu_list` of a list with at least one CPU
unfoldable pub as_cpu_list : ℕ → List ℕ → String
unfolding ranges_from
as_cpu_list cpu cpus = text_of (join_text b',' (ranges_from cpu cpu cpus))
