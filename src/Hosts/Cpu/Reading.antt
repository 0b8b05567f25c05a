-- ===== src/Hosts/Cpu/Reading.antt =====
-- What a reading of the processors holds.
use insatomcat_webui.Base.{
  ℕ, ◌≡◌, refl, ap, subst, inl, inr, Bool, not, Option, none, some, List, [], ◌∷◌, map, keep, null,
  All, Bool-cases, Text, is_some,
}
use insatomcat_webui.Hosts.Tree.{Tree}
use insatomcat_webui.Hosts.Busy.{Share, Times, polled, busy_of}
use insatomcat_webui.Hosts.Cpu.{
  CpuTopologyEntry, CpuReading, known, has, entry_of, cpu_set, reading_of, reading_after, cpu,
  isolated_or,
}

abbrev housekept : CpuTopologyEntry → Bool
housekept e = not e.isolated

module _ (tree : Tree) (online isolated : List ℕ) (busy : ℕ → Option Share) where
  entries-cpus :
      (cpus : List ℕ)
      → map (λ (e : CpuTopologyEntry). e.cpu) (map (entry_of tree online isolated busy) cpus) ≡ cpus
  entries-cpus [] = refl
  entries-cpus (c ∷ cs) = ap (λ l. c ∷ l) (entries-cpus cs)

  entries-housekept :
      (cpus : List ℕ)
      → map
          (λ (e : CpuTopologyEntry). e.cpu)
          (keep housekept (map (entry_of tree online isolated busy) cpus))
        ≡ keep (λ c. not (has c isolated)) cpus
  entries-housekept [] = refl
  entries-housekept (c ∷ cs) = elim (Bool-cases (has c isolated)) [
    | inl e ↦ rw e (entries-housekept cs)
    | inr e ↦ rw e (ap (λ l. c ∷ l) (entries-housekept cs))
  ]

  entries-marked :
      (cpus : List ℕ)
      → All
          (λ (e : CpuTopologyEntry). e.isolated ≡ has e.cpu isolated)
          (map (entry_of tree online isolated busy) cpus)
  entries-marked [] = tt
  entries-marked (c ∷ cs) = (refl, entries-marked cs)

isolated-sourced : (a b : List ℕ) → null (isolated_or a b).0 ≡ not (is_some (isolated_or a b).1)
isolated-sourced (a ∷ as_) b = refl
isolated-sourced [] (b ∷ bs) = refl
isolated-sourced [] [] = refl

-- The table of the processors, the isolated and the housekeeping ones tell the same.
pub record IsConsistent {F : Type 0} (tree : Tree) (r : CpuReading F) : Type 0 where
  pub cpus :
      map (λ (e : CpuTopologyEntry). e.cpu) r.topology
      ≡ known (cpu_set tree "present") (cpu_set tree "online")
  pub marked : All (λ (e : CpuTopologyEntry). e.isolated ≡ has e.cpu r.isolated) r.topology
  pub rest : map (λ (e : CpuTopologyEntry). e.cpu) (keep housekept r.topology) ≡ r.housekeeping
  pub sourced : null r.isolated ≡ not (is_some r.isolated_source)

module _ {F : Type 0} (tree : Tree) (float_of : Text → Option F) where
  reading-IsConsistent :
      (busy : ℕ → Option Share) → IsConsistent tree (reading_of tree float_of busy)
  unfolding reading_of cpu_set
  reading-IsConsistent busy =
      let online = cpu_set tree "online" in
      let isolated = (reading_of tree float_of busy).isolated in
      let cpus = known (cpu_set tree "present") online in
      record {
        cpus = entries-cpus tree online isolated busy cpus;
        marked = entries-marked tree online isolated busy cpus;
        rest = entries-housekept tree online isolated busy cpus;
        sourced = isolated-sourced (cpu_set tree "isolated") _;
      }

  after-IsConsistent :
      (previous : Times) (times : Option (Option Times)) (r : CpuReading F)
      → (reading_after tree float_of previous times).1 ≡ some r
      → IsConsistent tree r
  unfolding reading_after
  after-IsConsistent previous none r e = absurd (cc e)
  after-IsConsistent previous (some none) r e =
      subst (IsConsistent tree) (cc e) (reading-IsConsistent (λ id. none))
  after-IsConsistent previous (some (some current)) r e =
      subst (IsConsistent tree) (cc e) (reading-IsConsistent (busy_of previous current))

  -- In every reading of the processors the table lists the present CPUs, or else the online ones, in that
  -- order; the CPUs that it marks as isolated are the isolated ones that it lists; the housekeeping CPUs are the others; and
  -- a source is named exactly if some CPU is isolated.
  pub cpu-IsConsistent :
      (previous : Times) (r : CpuReading F)
      → (cpu tree float_of previous).1 ≡ some r
      → IsConsistent tree r
  unfolding cpu
  cpu-IsConsistent previous r e = after-IsConsistent previous (polled tree) r e
