-- ===== src/Hosts/Busy/Bounds.antt =====
-- How busy a CPU can be. The values of a line of /proc/stat are pairs here: what a counter was at the
-- poll before, and what it is now.
use insatomcat_webui.Base.{
  ℕ, zero, suc, ◌+◌, ◌-◌, ◌≤◌, pos, ◌≡◌, refl, sym, ap, ap₂, ◌∙◌, some, List, [], ◌∷◌, map, All,
  arith,
}
use insatomcat_webui.Hosts.Busy.{Share, Ticks, ◌-ℤ◌, sum, times_of, share_if, share_of}

abbrev total_of : List ℕ → ℕ
total_of [] = 0
total_of (n ∷ ns) = n + total_of ns

sum-pos : (ns : List ℕ) → sum (map pos ns) ≡ pos (total_of ns)
sum-pos [] = refl
sum-pos (n ∷ ns) = rw (sum-pos ns)

minus-pos : (m n : ℕ) → n ≤ m → (pos m -ℤ pos n) ≡ pos (m - n)
minus-pos m zero h = ap pos {x = m} {y = m - 0} (omega arith)
minus-pos m (suc n) h = ground arith

abbrev ticks : ℕ → ℕ → Ticks
ticks total idle = record { total = pos total; idle = pos idle }

-- The ticks that have passed, of all kinds.
abbrev pub passed : List (ℕ × ℕ) → ℕ
passed [] = 0
passed ((a, b) ∷ ps) = (b - a) + passed ps

-- The ticks that have passed idle: those of the fourth value, idle, and of the fifth if there is one, iowait.
abbrev pub idled : List (ℕ × ℕ) → ℕ
idled (_ ∷ _ ∷ _ ∷ (a, b) ∷ []) = b - a
idled (_ ∷ _ ∷ _ ∷ (a, b) ∷ (c, d) ∷ _) = (b - a) + (d - c)
idled _ = 0

-- The whole is what has passed, and the busy part of it all that has not passed idle.
abbrev pub IsPart : List (ℕ × ℕ) → Share → Type 0
IsPart ps s =
    (s.whole ≡ passed ps)
    × ((b : ℕ) × (s.busy ≡ pos b) × (b + idled ps ≡ passed ps) × (b ≤ passed ps))

-- a share of so many ticks, so many of them idle
abbrev Splits : ℕ → ℕ → Share → Type 0
Splits d j s = (s.whole ≡ d) × (s.busy ≡ pos (d - j))

share_if-Splits : (d j : ℕ) → j ≤ d → (s : Share) → share_if (pos d) (pos j) ≡ some s → Splits d j s
share_if-Splits zero j h s e = absurd (cc e)
share_if-Splits (suc n) j h s e =
    let k : record { busy = pos (suc n) -ℤ pos j; whole = suc n } ≡ s = cc e in
    (
      sym (ap (λ (x : Share). x.whole) k),
      sym (ap (λ (x : Share). x.busy) k) ∙ minus-pos (suc n) j h,
    )

share-Splits :
    (t t' i i' : ℕ)
    → t ≤ t'
    → i ≤ i'
    → i' + t ≤ i + t'
    → (s : Share) → share_of (ticks t' i') (ticks t i) ≡ some s
    → Splits (t' - t) (i' - i) s
unfolding share_of
share-Splits t t' i i' ht hi h s e =
    share_if-Splits (t' - t) (i' - i) (omega arith) s
      (sym (ap₂ share_if (minus-pos t' t ht) (minus-pos i' i hi)) ∙ e)

-- The idle part of a line's values.
abbrev idle_of : List ℕ → ℕ
idle_of (a ∷ b ∷ c ∷ d ∷ []) = d
idle_of (a ∷ b ∷ c ∷ d ∷ e ∷ rest) = d + e
idle_of _ = 0

times_of-pos :
    (ns : List ℕ) (t : Ticks)
    → times_of (map pos ns) ≡ some t
    → t ≡ ticks (total_of ns) (idle_of ns)
unfolding times_of
times_of-pos [] t e = absurd (cc e)
times_of-pos (_ ∷ []) t e = absurd (cc e)
times_of-pos (_ ∷ _ ∷ []) t e = absurd (cc e)
times_of-pos (_ ∷ _ ∷ _ ∷ []) t e = absurd (cc e)
times_of-pos (a ∷ b ∷ c ∷ d ∷ []) t h =
    let k : record { total = sum (map pos (a ∷ b ∷ c ∷ d ∷ [])); idle = pos d } ≡ t = cc h in
    sym k ∙ ap (λ n. record { total = n; idle = pos d }) (sum-pos (a ∷ b ∷ c ∷ d ∷ []))
times_of-pos (a ∷ b ∷ c ∷ d ∷ e ∷ rest) t h =
    let ns = a ∷ b ∷ c ∷ d ∷ e ∷ rest in
    let k : record { total = sum (map pos ns); idle = pos (d + e) } ≡ t = cc h in
    sym k ∙ ap (λ n. record { total = n; idle = pos (d + e) }) (sum-pos ns)

abbrev pub was : ℕ × ℕ → ℕ
was p = p.0

abbrev pub is : ℕ × ℕ → ℕ
is p = p.1

grown : (ps : List (ℕ × ℕ)) → All (λ p. p.0 ≤ p.1) ps → total_of (map was ps) ≤ total_of (map is ps)
grown [] h = omega arith
grown (p ∷ ps) (hp, h) = omega (arith, grown ps h)

idle_grown :
    (ps : List (ℕ × ℕ))
    → All (λ p. p.0 ≤ p.1) ps
    → (idle_of (map was ps) ≤ idle_of (map is ps))
      × (idle_of (map is ps) + total_of (map was ps) ≤ idle_of (map was ps) + total_of (map is ps))
idle_grown [] h = (omega arith, omega arith)
idle_grown (a ∷ []) h = (omega arith, omega arith)
idle_grown (a ∷ b ∷ []) h = (omega arith, omega arith)
idle_grown (a ∷ b ∷ c ∷ []) h = (omega arith, omega arith)
idle_grown (a ∷ b ∷ c ∷ d ∷ []) h = (omega arith, omega arith)
idle_grown (a ∷ b ∷ c ∷ d ∷ e ∷ rest) (ha, (hb, (hc, (hd, (he, h))))) =
    (omega arith, omega (arith, grown rest h))

passed_lem :
    (ps : List (ℕ × ℕ))
    → All (λ p. p.0 ≤ p.1) ps
    → total_of (map is ps) - total_of (map was ps) ≡ passed ps
passed_lem [] h = refl
passed_lem (p ∷ ps) (hp, h) = omega (arith, passed_lem ps h, grown ps h)

idled_lem :
    (ps : List (ℕ × ℕ))
    → All (λ p. p.0 ≤ p.1) ps
    → idle_of (map is ps) - idle_of (map was ps) ≡ idled ps
idled_lem [] h = refl
idled_lem (a ∷ []) h = refl
idled_lem (a ∷ b ∷ []) h = refl
idled_lem (a ∷ b ∷ c ∷ []) h = refl
idled_lem (a ∷ b ∷ c ∷ d ∷ []) h = refl
idled_lem (a ∷ b ∷ c ∷ d ∷ e ∷ rest) (ha, (hb, (hc, (hd, (he, h))))) = omega arith

-- Between two polls that read natural numbers, none of which is smaller in the later one, the whole of
-- a CPU's share is the sum of the ticks that have passed of all kinds, and its busy part is a natural
-- number: what is left of them without those that have passed idle or waiting for input and output.
pub share_of-IsPart :
    (ps : List (ℕ × ℕ)) (before now : Ticks) (s : Share)
    → All (λ p. p.0 ≤ p.1) ps
    → times_of (map pos (map was ps)) ≡ some before
    → times_of (map pos (map is ps)) ≡ some now
    → share_of now before ≡ some s
    → IsPart ps s
share_of-IsPart ps before now s h read_before read_now e =
    let b = times_of-pos (map was ps) before read_before in
    let n = times_of-pos (map is ps) now read_now in
    let (idles, parts) = idle_grown ps h in
    let t = total_of (map was ps) in
    let t' = total_of (map is ps) in
    let i = idle_of (map was ps) in
    let i' = idle_of (map is ps) in
    let (whole, busy) =
      share-Splits t t' i i' (grown ps h) idles parts s (sym (ap₂ share_of n b) ∙ e) in
    (
      whole ∙ passed_lem ps h,
      (
        t' - t - (i' - i),
        busy,
        omega (arith, passed_lem ps h, idled_lem ps h, idles, parts, grown ps h),
        omega (arith, passed_lem ps h),
      ),
    )
