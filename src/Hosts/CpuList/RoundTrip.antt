-- ===== src/Hosts/CpuList/RoundTrip.antt =====
-- Printing a list of CPUs and reading it back.
use insatomcat_webui.Base.{
  ◌≢◌, Option, none, String, ℕ, zero, suc, ◌+◌, ◌-◌, ◌≤◌, ◌<◌, ◌≡◌, refl, sym, ap, ◌∙◌, false, some,
  List, [], ◌∷◌, ◌++◌, ◌=?◌, arith, All, All-append, Text, split_on, join_text, split_on-join,
  NoSpaces, strip-NoSpaces, partition-append, partition-none, codes-text_of, decimal, IsDecimal,
  decimal-IsDecimal, int_of_text-decimal, sorted_nat, insert_nat, append_assoc, Bool-cases, inl,
  inr, =?_iff,
}
use insatomcat_webui.Hosts.CpuList.{
  count_up, parse_chunk, parse_chunks, parse_cpu_list, range_text, ranges_from, as_cpu_list,
}

-- The characters of a printed range.
abbrev pub IsRangeChar : ℕ → Type 0
IsRangeChar c = (b'-' ≤ c) × (c ≤ b'9')

pub map-All : (P Q : ℕ → Type 0) → ((c : ℕ) → P c → Q c) → (t : Text) → All P t → All Q t
map-All P Q f [] h = tt
map-All P Q f (c ∷ t) (hc, h) = (f c hc, map-All P Q f t h)

pub decimal-no_dash : (n : ℕ) → All (λ c. (c =? b'-') ≡ false) (decimal n)
decimal-no_dash n = map-All IsDecimal _ (λ c h. ground arith) (decimal n) (decimal-IsDecimal n)

pub decimal-IsRangeChar : (n : ℕ) → All IsRangeChar (decimal n)
decimal-IsRangeChar n =
    map-All IsDecimal IsRangeChar (λ c h. omega arith) (decimal n) (decimal-IsDecimal n)

range_text-IsRangeChar : (a b : ℕ) → All IsRangeChar (range_text a b)
unfolding range_text
range_text-IsRangeChar a b = elim (Bool-cases (a =? b)) [
  | inl e ↦ rw e (decimal-IsRangeChar a)
  | inr e ↦ rw e (
      All-append IsRangeChar (decimal a) (b'-' ∷ decimal b) (decimal-IsRangeChar a)
        (omega arith, decimal-IsRangeChar b))
]

range_text-NoSpaces : (a b : ℕ) → NoSpaces (range_text a b)
range_text-NoSpaces a b =
    map-All IsRangeChar _ (λ c h. ground arith) (range_text a b) (range_text-IsRangeChar a b)

count_up-one : (a b : ℕ) → a ≡ b → count_up a (b + 1 - a) ≡ a ∷ []
count_up-one a b e = let k : b + 1 - a ≡ suc zero = omega arith in rw k

-- A printed range is read as the CPUs from its first to its last.
parse_chunk-range_text : (a b : ℕ) → a ≤ b → parse_chunk (range_text a b) ≡ count_up a (b + 1 - a)
unfolding parse_chunk
parse_chunk-range_text a b le = elim (Bool-cases (a =? b)) [
  | inl e ↦ rw (strip-NoSpaces (range_text a b) (range_text-NoSpaces a b)) (
      unfold range_text in
      rw (e, partition-none b'-' (decimal a) (decimal-no_dash a), int_of_text-decimal)
        (sym (count_up-one a b ((=?_iff a b).0 e))))
  | inr e ↦ rw (strip-NoSpaces (range_text a b) (range_text-NoSpaces a b)) (
      unfold range_text in
      rw (
        e,
        partition-append b'-' (decimal a) (decimal b) (decimal-no_dash a),
        int_of_text-decimal,
        int_of_text-decimal,
      ))
]

count_up-append : (start n : ℕ) → count_up start (suc n) ≡ count_up start n ++ (start + n) ∷ []
count_up-append start zero = ap (λ k. k ∷ []) (omega arith)
count_up-append start (suc n) =
    ap (λ l. start ∷ l)
      (count_up-append (suc start) n ∙ ap (λ k. count_up (suc start) n ++ k ∷ []) (omega arith))

-- one CPU more in a range
count_up-next :
    (start previous cpu : ℕ) (cpus : List ℕ)
    → start ≤ previous
    → cpu ≡ previous + 1
    → count_up start (cpu + 1 - start) ++ cpus ≡ count_up start (previous + 1 - start) ++ cpu ∷ cpus
count_up-next start previous cpu cpus le e =
    let n = previous + 1 - start in
    ap (λ k. count_up start k ++ cpus) {y = suc n} (omega arith)
    ∙ ap (λ l. l ++ cpus) (count_up-append start n)
    ∙ append_assoc (count_up start n) _ cpus
    ∙ ap (λ k. count_up start n ++ k ∷ cpus) (omega arith)

parse_chunks-ranges_from :
    (start previous : ℕ) (cpus : List ℕ)
    → start ≤ previous
    → parse_chunks (ranges_from start previous cpus) ≡ count_up start (previous + 1 - start) ++ cpus
unfolding parse_chunks ranges_from
parse_chunks-ranges_from start previous [] le = rw (parse_chunk-range_text start previous le)
parse_chunks-ranges_from start previous (cpu ∷ cpus) le = elim (Bool-cases (cpu =? previous + 1)) [
  | inl e ↦
      let next = (=?_iff cpu (previous + 1)).0 e in
      rw e (
        parse_chunks-ranges_from start cpu cpus (omega arith)
        ∙ count_up-next start previous cpu cpus le next)
  | inr e ↦
      rw (e, parse_chunk-range_text start previous le)
        (ap (λ l. count_up start (previous + 1 - start) ++ l)
          (parse_chunks-ranges_from cpu cpu cpus (omega arith)
            ∙ ap (λ l. l ++ cpus) (count_up-one cpu cpu refl)))
]

ranges_from-IsRangeChar :
    (start previous : ℕ) (cpus : List ℕ) → All (All IsRangeChar) (ranges_from start previous cpus)
unfolding ranges_from
ranges_from-IsRangeChar start previous [] = (range_text-IsRangeChar start previous, tt)
ranges_from-IsRangeChar start previous (cpu ∷ cpus) = elim (Bool-cases (cpu =? previous + 1)) [
  | inl e ↦ rw e (ranges_from-IsRangeChar start cpu cpus)
  | inr e ↦ rw e (range_text-IsRangeChar start previous, ranges_from-IsRangeChar cpu cpu cpus)
]

ranges_from-ne-nil : (start previous : ℕ) (cpus : List ℕ) → ranges_from start previous cpus ≢ []
unfolding ranges_from
ranges_from-ne-nil start previous [] = cc
ranges_from-ne-nil start previous (cpu ∷ cpus) = ground (arith, ranges_from-ne-nil start cpu cpus)

pub no_commas :
    (ts : List Text) → All (All IsRangeChar) ts → All (All (λ c. (c =? b',') ≡ false)) ts
no_commas [] h = tt
no_commas (t ∷ ts) (ht, h) = (map-All IsRangeChar _ (λ c k. ground arith) t ht, no_commas ts h)

join_text-IsRangeChar :
    (ts : List Text) → All (All IsRangeChar) ts → All (λ c. c < 55296) (join_text b',' ts)
unfolding join_text
join_text-IsRangeChar [] h = tt
join_text-IsRangeChar (t ∷ []) (ht, h) = map-All IsRangeChar _ (λ c k. omega arith) t ht
join_text-IsRangeChar (t ∷ u ∷ ts) (ht, h) =
    All-append (λ c. c < 55296) t _ (map-All IsRangeChar _ (λ c k. omega arith) t ht)
      (omega arith, join_text-IsRangeChar (u ∷ ts) h)

split_on-join_ne :
    (ts : List Text)
    → ts ≢ []
    → All (All (λ c. (c =? b',') ≡ false)) ts
    → split_on b',' (join_text b',' ts) ≡ ts
split_on-join_ne [] ne h = absurd (ne refl)
split_on-join_ne (t ∷ ts) ne h = split_on-join b',' t ts h

-- Reading back the printed form of any list of CPUs that is not empty gives the CPUs of the list, in
-- order and each once.
pub parse_cpu_list-as_cpu_list :
    (cpu : ℕ) (cpus : List ℕ)
    → parse_cpu_list (some (as_cpu_list cpu cpus)) ≡ sorted_nat (cpu ∷ cpus)
unfolding parse_cpu_list as_cpu_list
parse_cpu_list-as_cpu_list cpu cpus =
    let ts = ranges_from cpu cpu cpus in
    let chars = ranges_from-IsRangeChar cpu cpu cpus in
    rw
      (
        codes-text_of (join_text b',' ts) (join_text-IsRangeChar ts chars),
        split_on-join_ne ts (ranges_from-ne-nil cpu cpu cpus) (no_commas ts chars),
      )
      (ap sorted_nat (
        parse_chunks-ranges_from cpu cpu cpus (omega arith)
        ∙ ap (λ l. l ++ cpus) (count_up-one cpu cpu refl)))

-- Strictly increasing.
abbrev pub IsIncreasing : List ℕ → Type 0
IsIncreasing [] = Unit
IsIncreasing (a ∷ []) = Unit
IsIncreasing (a ∷ b ∷ bs) = (a < b) × IsIncreasing (b ∷ bs)

pub sorted_nat-IsIncreasing : (l : List ℕ) → IsIncreasing l → sorted_nat l ≡ l
unfolding sorted_nat
sorted_nat-IsIncreasing [] h = refl
sorted_nat-IsIncreasing (a ∷ []) h = refl
sorted_nat-IsIncreasing (a ∷ b ∷ bs) (lt, h) =
    ap (insert_nat a) (sorted_nat-IsIncreasing (b ∷ bs) h) ∙ (unfold insert_nat in ground arith)

insert_nat-IsIncreasing : (a : ℕ) (l : List ℕ) → IsIncreasing l → IsIncreasing (insert_nat a l)
unfolding insert_nat
insert_nat-IsIncreasing a [] h = tt
insert_nat-IsIncreasing a (b ∷ []) h = ground arith
insert_nat-IsIncreasing a (b ∷ c ∷ l) (lt, h) = ground (arith, insert_nat-IsIncreasing a (c ∷ l) h)

sorted_nat_lem : (l : List ℕ) → IsIncreasing (sorted_nat l)
unfolding sorted_nat
sorted_nat_lem [] = tt
sorted_nat_lem (a ∷ l) = insert_nat-IsIncreasing a (sorted_nat l) (sorted_nat_lem l)

-- Whatever the text, the CPUs that are read from it are in strictly increasing order.
pub parse_cpu_list-IsIncreasing : (raw : Option String) → IsIncreasing (parse_cpu_list raw)
unfolding parse_cpu_list
parse_cpu_list-IsIncreasing none = tt
parse_cpu_list-IsIncreasing (some raw) = sorted_nat_lem _
