-- ===== src/Inventory/Address/Dotted.antt =====
-- The dotted text of four bytes is read as an IPv4 address.
use insatomcat_webui.Base.{
  ℕ, ◌+◌, ◌*◌, ◌<◌, ◌≤◌, ◌≡◌, refl, inl, inr, ◌⊎◌, false, some, [], ◌∷◌, All, arith, Bool-cases,
  ltb, ◌=?◌, Text, join_text, split_on-join, decimal, IsDecimal, decimal-IsDecimal, decimal_one,
  decimal_two, decimal_three,
}
use insatomcat_webui.Inventory.Address.{octet, digits, parse_v4}

size : (n : ℕ) → n < 256 → (n < 10) ⊎ ((10 ≤ n) × (n < 100)) ⊎ ((100 ≤ n) × (n < 1000))
size n h = elim (Bool-cases (ltb n 10)) [
  | inl e ↦ inl (ground arith)
  | inr e ↦ elim (Bool-cases (ltb n 100)) [
    | inl f ↦ inr (inl (ground arith, ground arith))
    | inr f ↦ inr (inr (ground arith, ground arith))
  ]
]

octet-decimal : (n : ℕ) → n < 256 → octet (decimal n) ≡ some n
unfolding octet digits
octet-decimal n h = elim (size n h) [
  | inl one ↦ rw (decimal_one n one) (ground arith)
  | inr (inl (a, b)) ↦ rw (decimal_two n a b) (ground arith)
  | inr (inr (a, b)) ↦ rw (decimal_three n a b) (ground arith)
]

no_dots : (s : Text) → All IsDecimal s → All (λ c. (c =? b'.') ≡ false) s
no_dots [] h = tt
no_dots (c ∷ s) (hc, h) = (ground arith, no_dots s h)

pub parse_v4-dotted :
    (a b c d : ℕ)
    → a < 256
    → b < 256
    → c < 256
    → d < 256
    → parse_v4 (join_text b'.' (decimal a ∷ decimal b ∷ decimal c ∷ decimal d ∷ []))
      ≡ some (((a * 256 + b) * 256 + c) * 256 + d)
unfolding parse_v4
parse_v4-dotted a b c d ha hb hc hd =
    rw
      (
        split_on-join b'.' (decimal a) (decimal b ∷ decimal c ∷ decimal d ∷ []) (
          no_dots (decimal a) (decimal-IsDecimal a),
          (
            no_dots (decimal b) (decimal-IsDecimal b),
            (
              no_dots (decimal c) (decimal-IsDecimal c),
              (no_dots (decimal d) (decimal-IsDecimal d), tt),
            ),
          ),
        ),
        octet-decimal a ha,
        octet-decimal b hb,
        octet-decimal c hc,
        octet-decimal d hd,
      )
      refl
