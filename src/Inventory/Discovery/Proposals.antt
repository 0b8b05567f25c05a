-- ===== src/Inventory/Discovery/Proposals.antt =====
-- Which CPUs a machine proposes to isolate.
use insatomcat_webui.Base.{
  ℕ, zero, suc, ◌-◌, ◌+◌, ◌≡◌, refl, ap, ◌∙◌, inl, inr, false, Option, none, some, List, [], ◌∷◌,
  ◌++◌, Bool-cases, arith, All, All-append, Text, split_on, join_text, split_on-join,
  strip-NoSpaces, NoSpaces, partition-append, codes-text_of, decimal, int_of_text-decimal,
  sorted_nat, append-nil,
}
use insatomcat_webui.Hosts.CpuList.{parse_cpu_list, parse_chunks, parse_chunk, count_up}
use insatomcat_webui.Hosts.CpuList.RoundTrip.{
  parse_cpu_list-as_cpu_list, IsIncreasing, IsRangeChar, map-All, decimal-no_dash,
  decimal-IsRangeChar, no_commas, sorted_nat-IsIncreasing,
}
use insatomcat_webui.Inventory.Discovery.{propose_isolation, few, housekeeping_cpus}

count_up-IsIncreasing : (start n : ℕ) → IsIncreasing (count_up start n)
count_up-IsIncreasing start zero = tt
count_up-IsIncreasing start (suc zero) = tt
count_up-IsIncreasing start (suc (suc n)) = (omega arith, count_up-IsIncreasing (suc start) (suc n))

abbrev dashed : ℕ → ℕ → Text
dashed a b = decimal a ++ b'-' ∷ decimal b

dashed-IsRangeChar : (a b : ℕ) → All IsRangeChar (dashed a b)
dashed-IsRangeChar a b =
    All-append IsRangeChar (decimal a) (b'-' ∷ decimal b) (decimal-IsRangeChar a)
      (omega arith, decimal-IsRangeChar b)

dashed-NoSpaces : (a b : ℕ) → NoSpaces (dashed a b)
dashed-NoSpaces a b =
    map-All IsRangeChar _ (λ c h. ground arith) (dashed a b) (dashed-IsRangeChar a b)

parse_chunk-dashed : (a b : ℕ) → parse_chunk (dashed a b) ≡ count_up a (b + 1 - a)
unfolding parse_chunk
parse_chunk-dashed a b = rw (strip-NoSpaces (dashed a b) (dashed-NoSpaces a b)) (
    rw (
      partition-append b'-' (decimal a) (decimal b) (decimal-no_dash a),
      int_of_text-decimal,
      int_of_text-decimal,
    ))

one_piece : (t : Text) → All IsRangeChar t → split_on b',' t ≡ t ∷ []
unfolding join_text
one_piece t h = split_on-join b',' t [] (no_commas (t ∷ []) (h, tt))

upto_lem :
    (online : ℕ)
    → few (some online) ≡ false
    → parse_cpu_list (propose_isolation [] (some online))
      ≡ count_up housekeeping_cpus (online - housekeeping_cpus)
unfolding parse_cpu_list propose_isolation parse_chunks
upto_lem online f =
    let t = dashed 4 (online - 1) in
    let h = dashed-IsRangeChar 4 (online - 1) in
    rw
      (
        f,
        codes-text_of t (map-All IsRangeChar _ (λ c k. omega arith) t h),
        one_piece t h,
        parse_chunk-dashed 4 (online - 1),
      )
      (ap sorted_nat (append-nil _)
        ∙ sorted_nat-IsIncreasing _ (count_up-IsIncreasing 4 (online - 1 + 1 - 4))
        ∙ ap (count_up 4) (ground arith))

-- A machine that isolates CPUs already proposes exactly those, in order. One that isolates none
-- proposes all of its CPUs but the first four, and nothing if it has no more than those.
pub parse_cpu_list-propose_isolation :
    ((cpu : ℕ) (cpus : List ℕ) (online : Option ℕ)
      → parse_cpu_list (propose_isolation (cpu ∷ cpus) online) ≡ sorted_nat (cpu ∷ cpus))
    × ((online : ℕ)
        → parse_cpu_list (propose_isolation [] (some online))
          ≡ count_up housekeeping_cpus (online - housekeeping_cpus))
    × (parse_cpu_list (propose_isolation [] none) ≡ [])
unfolding parse_cpu_list propose_isolation
parse_cpu_list-propose_isolation = (
  (λ cpu cpus online. parse_cpu_list-as_cpu_list cpu cpus),
  (λ online. elim (Bool-cases (few (some online))) [
    | inl f ↦ rw f (ap (count_up 4) {x = 0} (ground arith))
    | inr f ↦ upto_lem online f
  ]),
  refl,
)
