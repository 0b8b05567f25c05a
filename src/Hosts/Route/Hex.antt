-- ===== src/Hosts/Route/Hex.antt =====
-- The digits in which the kernel prints an address.
use mathlib.Core.Option
use insatomcat_webui.Base.{
  ℕ, ◌+◌, ◌-◌, ◌*◌, ◌/◌, ◌%◌, ◌<◌, pos, ◌≡◌, refl, ap, ◌∙◌, inl, inr, Bool, true, false, some, [],
  ◌∷◌, ◌++◌, arith, Bool-cases, ltb, if◌then◌else◌, ◌=?◌, Text, NoSpaces, is_space,
}
use insatomcat_webui.Hosts.Route.{
  hex_digit, hex_digits, hex_unsigned, hex_signed, byte_at, dotted, bytes_of,
}

-- The digit that the kernel prints for a number below 16.
abbrev pub hex_char : ℕ → ℕ
hex_char k = if ltb k 10 then b'0' + k else b'A' + (k - 10)

-- The two digits of a byte.
abbrev pub hex_byte : ℕ → Text
hex_byte b = hex_char (b / 16) ∷ hex_char (b % 16) ∷ []

-- How the kernel prints an address: its bytes in the machine's order, the last one first.
abbrev pub kernel_hex : ℕ → ℕ → ℕ → ℕ → Text
kernel_hex a b c d = hex_byte d ++ (hex_byte c ++ (hex_byte b ++ hex_byte a))

hex_digit-char : (k : ℕ) → k < 16 → hex_digit (hex_char k) ≡ some k
unfolding hex_digit
hex_digit-char k h = ground arith

hex_digits-digit :
    (need : Bool) (c k : ℕ) (s : Text) (n : ℕ)
    → hex_digit c ≡ some k
    → hex_digits need (c ∷ s) n ≡ hex_digits false s (n * 16 + k)
unfolding hex_digits
hex_digits-digit need c k s n e = rw (hex_digits, e) refl

hex_digits-byte :
    (need : Bool) (b : ℕ) (s : Text) (n : ℕ)
    → b < 256
    → hex_digits need (hex_byte b ++ s) n ≡ hex_digits false s (n * 256 + b)
hex_digits-byte need b s n h =
    hex_digits-digit need _ (b / 16) (hex_char (b % 16) ∷ s) n
      (hex_digit-char (b / 16) (omega arith))
    ∙ hex_digits-digit false _ (b % 16) s (n * 16 + b / 16) (hex_digit-char (b % 16) (omega arith))
    ∙ ap (hex_digits false s) (omega arith)

hex_char-plain :
    (k : ℕ)
    → k < 16
    → (is_space (hex_char k) ≡ false)
      × ((hex_char k =? b'-') ≡ false)
      × ((hex_char k =? b'+') ≡ false)
      × ((hex_char k =? b'x') ≡ false)
      × ((hex_char k =? b'X') ≡ false)
hex_char-plain k h = ground arith

hex_byte-NoSpaces : (b : ℕ) → b < 256 → NoSpaces (hex_byte b)
hex_byte-NoSpaces b h =
    ((hex_char-plain (b / 16) (omega arith)).0, ((hex_char-plain (b % 16) (omega arith)).0, tt))

pub kernel_hex-NoSpaces :
    (a b c d : ℕ) → a < 256 → b < 256 → c < 256 → d < 256 → NoSpaces (kernel_hex a b c d)
kernel_hex-NoSpaces a b c d ha hb hc hd =
    let (x, (y, _)) = hex_byte-NoSpaces d hd in
    let (z, (u, _)) = hex_byte-NoSpaces c hc in
    let (v, (w, _)) = hex_byte-NoSpaces b hb in (x, (y, (z, (u, (v, (w, hex_byte-NoSpaces a ha))))))

pub bytes_of-pos :
    (a b c d : ℕ)
    → a < 256
    → b < 256
    → c < 256
    → d < 256
    → bytes_of (pos (((d * 256 + c) * 256 + b) * 256 + a)) ≡ dotted a b c d
unfolding bytes_of byte_at
bytes_of-pos a b c d ha hb hc hd =
    let n = ((d * 256 + c) * 256 + b) * 256 + a in
    let e0 : n / 1 % 256 ≡ a = omega arith in
    let e1 : n / 256 % 256 ≡ b = omega arith in
    let e2 : n / 65536 % 256 ≡ c = omega arith in
    let e3 : n / 16777216 % 256 ≡ d = omega arith in rw (e0, e1, e2, e3) refl

-- No sign and no prefix.
hex_signed-plain :
    (z x u : ℕ) (s : Text)
    → (z =? b'-') ≡ false
    → (z =? b'+') ≡ false
    → (x =? b'x') ≡ false
    → (x =? b'X') ≡ false
    → hex_signed (z ∷ x ∷ u ∷ s) ≡ Option.map pos (hex_digits true (z ∷ x ∷ u ∷ s) 0)
unfolding hex_signed hex_unsigned
hex_signed-plain z x u s minus plus small big = elim (Bool-cases (z =? b'0')) [
  | inl e ↦ rw (minus, plus, small, big, e) refl
  | inr e ↦ rw (minus, plus, small, big, e) refl
]

hex_digits-kernel :
    (a b c d : ℕ)
    → a < 256
    → b < 256
    → c < 256
    → d < 256
    → hex_digits true (kernel_hex a b c d) 0
      ≡ some ((((0 * 256 + d) * 256 + c) * 256 + b) * 256 + a)
hex_digits-kernel a b c d ha hb hc hd =
    hex_digits-byte true d (hex_byte c ++ (hex_byte b ++ hex_byte a)) 0 hd
    ∙ hex_digits-byte false c (hex_byte b ++ hex_byte a) (0 * 256 + d) hc
    ∙ hex_digits-byte false b (hex_byte a) ((0 * 256 + d) * 256 + c) hb
    ∙ hex_digits-byte false a [] (((0 * 256 + d) * 256 + c) * 256 + b) ha
    ∙ (unfold hex_digits in refl)

pub hex_signed-kernel :
    (a b c d : ℕ)
    → a < 256
    → b < 256
    → c < 256
    → d < 256
    → hex_signed (kernel_hex a b c d) ≡ some (pos (((d * 256 + c) * 256 + b) * 256 + a))
hex_signed-kernel a b c d ha hb hc hd =
    let (_, minus, plus, _, _) = hex_char-plain (d / 16) (omega arith) in
    let (_, _, _, x, big) = hex_char-plain (d % 16) (omega arith) in
    hex_signed-plain _ _ _ _ minus plus x big
    ∙ ap (Option.map pos) (hex_digits-kernel a b c d ha hb hc hd)
    ∙ ap (λ n. some (pos n)) {x = (((0 * 256 + d) * 256 + c) * 256 + b) * 256 + a}
        {y = ((d * 256 + c) * 256 + b) * 256 + a} (omega arith)
