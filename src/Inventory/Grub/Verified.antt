-- ===== src/Inventory/Grub/Verified.antt =====
-- Hashing a password and verifying it.
use insatomcat_webui.Base.{
  ℕ, suc, ◌+◌, ◌*◌, ◌/◌, ◌%◌, ◌<◌, pos, String, ◌==◌, ◌=?◌, ◌≡◌, refl, subst, inl, inr, Bool-cases,
  true, false, some, List, [], ◌∷◌, length, All, arith, Text, codes, decimal, IsDecimal,
  decimal-IsDecimal, int_of_text-decimal, join_text, split_on, split_on-join,
}
use insatomcat_webui.Inventory.Grub.{
  Derive, hex_char, hex, key_bytes, encoded_parts, hash_password, upper_char, upper, digit_of,
  from_hex, same, compared, verified, verify,
}

abbrev pub AreBytes : List ℕ → Type 0
AreBytes = All (λ b. b < 256)

digit_of-hex_char : (k : ℕ) → k < 16 → digit_of (hex_char k) ≡ some k
unfolding digit_of hex_char
digit_of-hex_char k h = ground arith

upper-hex_char : (k : ℕ) → k < 16 → upper_char (hex_char k) ≡ hex_char k
unfolding hex_char
upper-hex_char k h = ground arith

point-hex_char : (k : ℕ) → k < 16 → (hex_char k =? b'.') ≡ false
unfolding hex_char
point-hex_char k h = ground arith

from_hex-hex : (bs : List ℕ) → AreBytes bs → from_hex (hex bs) ≡ some bs
unfolding from_hex hex
from_hex-hex [] h = refl
from_hex-hex (b ∷ bs) (hb, h) =
    let e : b / 16 * 16 + b % 16 ≡ b = omega arith in
    rw
      (
        digit_of-hex_char (b / 16) (omega arith),
        digit_of-hex_char (b % 16) (omega arith),
        from_hex-hex bs h,
        e,
      )
      refl

upper-hex : (bs : List ℕ) → AreBytes bs → upper (hex bs) ≡ hex bs
unfolding upper hex
upper-hex [] h = refl
upper-hex (b ∷ bs) (hb, h) =
    rw
      (upper-hex_char (b / 16) (omega arith), upper-hex_char (b % 16) (omega arith), upper-hex bs h)
      refl

no_points : (bs : List ℕ) → AreBytes bs → All (λ c. (c =? b'.') ≡ false) (hex bs)
unfolding hex
no_points [] h = tt
no_points (b ∷ bs) (hb, h) =
    (point-hex_char (b / 16) (omega arith), (point-hex_char (b % 16) (omega arith), no_points bs h))

no_points_decimal : (s : Text) → All IsDecimal s → All (λ c. (c =? b'.') ≡ false) s
no_points_decimal [] h = tt
no_points_decimal (c ∷ s) (hc, h) = (ground arith, no_points_decimal s h)

length-hex : (bs : List ℕ) → length (hex bs) ≡ length bs * 2
unfolding hex
length-hex [] = refl
length-hex (b ∷ bs) = omega (arith, length-hex bs)

same_refl : (s : Text) → same s s ≡ true
same_refl [] = refl
same_refl (c ∷ s) = ground (arith, same_refl s)

split_lem :
    (rounds : ℕ) (salt derived : List ℕ)
    → AreBytes salt
    → AreBytes derived
    → split_on b'.' (join_text b'.' (encoded_parts rounds salt derived))
      ≡ encoded_parts rounds salt derived
unfolding encoded_parts
split_lem rounds salt derived hs hd =
    split_on-join b'.' (codes "grub")
      (codes "pbkdf2" ∷ codes "sha512" ∷ decimal rounds ∷ hex salt ∷ hex derived ∷ [])
      (
        ground arith,
        (
          ground arith,
          (
            ground arith,
            (
              no_points_decimal (decimal rounds) (decimal-IsDecimal rounds),
              (no_points salt hs, (no_points derived hd, tt)),
            ),
          ),
        ),
      )

compared_lem :
    (derive : Derive) (password : String) (salt : List ℕ) (n : ℕ)
    → AreBytes (derive password salt (suc n) key_bytes)
    → length (derive password salt (suc n) key_bytes) ≡ key_bytes
    → compared derive password
        (hex (derive password salt (suc n) key_bytes))
        (some salt)
        (some (pos (suc n)))
      ≡ some true
unfolding compared
compared_lem derive password salt n bytes sized =
    let d = derive password salt (suc n) key_bytes in
    let half : length (hex d) / 2 ≡ 64 = omega (length-hex d, sized, arith) in
    rw (half, upper-hex d bytes, same_refl (hex d)) refl

verified_lem :
    (derive : Derive) (salt : List ℕ) (password : String) (n : ℕ)
    → AreBytes salt
    → AreBytes (derive password salt (suc n) key_bytes)
    → length (derive password salt (suc n) key_bytes) ≡ key_bytes
    → verify derive password
        (join_text b'.' (encoded_parts (suc n) salt (derive password salt (suc n) key_bytes)))
      ≡ some true
unfolding verify verified encoded_parts join_text
verified_lem derive salt password n hs bytes sized =
    let d = derive password salt (suc n) key_bytes in
    rw (split_lem (suc n) salt d hs bytes, from_hex-hex salt hs, int_of_text-decimal (suc n))
      (compared_lem derive password salt n bytes sized)

-- A hash of a password that is not empty, with at least one round, verifies that password, where the salt
-- and the 64 bytes that are derived are bytes.
pub hash_password-verify :
    (derive : Derive) (salt : List ℕ) (password : String) (n : ℕ) (encoded : Text)
    → AreBytes salt
    → AreBytes (derive password salt (suc n) key_bytes)
    → length (derive password salt (suc n) key_bytes) ≡ key_bytes
    → hash_password derive salt password (suc n) ≡ some encoded
    → verify derive password encoded ≡ some true
unfolding hash_password verify encoded_parts
hash_password-verify derive salt password n encoded hs bytes sized e =
    elim (Bool-cases (password == "")) [
      | inl empty ↦ absurd (let k = rw empty at e in cc k)
      | inr filled ↦
          let d = derive password salt (suc n) key_bytes in
          let k : join_text b'.' (encoded_parts (suc n) salt d) ≡ encoded =
            (let m = rw filled at e in cc m) in
          subst (λ t. verify derive password t ≡ some true) k
            (verified_lem derive salt password n hs bytes sized)
    ]
