-- ===== src/Inventory/Grub.antt =====
-- app/inventory/grub.py: the hash of a GRUB password. PBKDF2 and the salt are arguments; bytes are
-- numbers. The rounds that are asked for are not zero, and the digest that is compared is ASCII.
pub mod Verified
use insatomcat_webui.Base.{
  ℕ, zero, suc, ◌+◌, ◌-◌, ◌*◌, ◌/◌, ◌%◌, ℤ, pos, negsuc, String, ◌==◌, ◌=?◌, leb, ltb, Bool, true,
  false, not, ◌&&◌, Option, none, some, List, [], ◌∷◌, ◌++◌, ◌>>=?◌, if◌then◌else◌, length, null,
  Text, codes, decimal, int_of_text, join_text, split_on, text_of,
}

-- `pbkdf2_hmac("sha512", password, salt, rounds, dklen)`
abbrev pub Derive : Type 0
Derive = String → List ℕ → ℕ → ℕ → List ℕ

-- `.hex().upper()`
unfoldable pub hex_char : ℕ → ℕ
hex_char k = if ltb k 10 then b'0' + k else b'A' + (k - 10)

unfoldable pub hex : List ℕ → Text
unfolding hex_char
hex [] = []
hex (b ∷ bs) = hex_char (b / 16) ∷ hex_char (b % 16) ∷ hex bs

-- `_KEY_BYTES`
abbrev pub key_bytes : ℕ
key_bytes = 64

abbrev pub encoded_parts : ℕ → List ℕ → List ℕ → List Text
unfolding hex decimal
encoded_parts rounds salt derived =
    codes "grub" ∷ codes "pbkdf2" ∷ codes "sha512" ∷ decimal rounds ∷ hex salt ∷ hex derived ∷ []

-- `hash_password`, with the salt; an empty password raises
unfoldable pub hash_password : Derive → List ℕ → String → ℕ → Option Text
unfolding encoded_parts
hash_password derive salt password rounds =
    if password == ""
    then none
    else some (join_text b'.' (encoded_parts rounds salt (derive password salt rounds key_bytes)))

-- `upper` of a digest
abbrev upper_char : ℕ → ℕ
upper_char c = if leb b'a' c && leb c b'z' then c - 32 else c

unfoldable pub upper : Text → Text
upper [] = []
upper (c ∷ s) = upper_char c ∷ upper s

unfoldable pub digit_of : ℕ → Option ℕ
digit_of c =
    if leb b'0' c && leb c b'9'
    then some (c - b'0')
    else if leb b'A' c && leb c b'F'
    then some (c - b'A' + 10)
    else if leb b'a' c && leb c b'f'
    then some (c - b'a' + 10)
    else none

-- `bytes.fromhex`, of a text without white space
unfoldable pub from_hex : Text → Option (List ℕ)
unfolding digit_of
from_hex [] = some []
from_hex (c ∷ []) = none
from_hex (c ∷ d ∷ s) = digit_of c >>=? λ high.
    digit_of d >>=? λ low. from_hex s >>=? λ rest. some ((high * 16 + low) ∷ rest)

abbrev same : Text → Text → Bool
same [] [] = true
same [] (_ ∷ _) = false
same (_ ∷ _) [] = false
same (c ∷ s) (d ∷ t) = (c =? d) && same s t

-- What `verify` answers, or that an exception is passed on: no rounds and no bytes are refused by PBKDF2.
abbrev compared : Derive → String → Text → Option (List ℕ) → Option ℤ → Option Bool
unfolding hex upper
compared derive password digest (some salt) (some (pos (suc n))) =
    if length digest / 2 =? 0
    then none
    else some (same (hex (derive password salt (suc n) (length digest / 2))) (upper digest))
compared derive password digest (some salt) (some (pos zero)) = none
compared derive password digest (some salt) (some (negsuc _)) = none
compared derive password digest (some salt) none = none
compared derive password digest none rounds = none

-- the parts of `split(".", 5)`, the last of which may hold points
abbrev verified : Derive → String → List Text → Option Bool
unfolding from_hex int_of_text compared join_text
verified derive password (_ ∷ _ ∷ algorithm ∷ rounds ∷ salt ∷ digest ∷ more) =
    if not (same algorithm (codes "sha512"))
    then some false
    else compared derive password (join_text b'.' (digest ∷ more)) (from_hex salt)
        (int_of_text rounds)
verified derive password parts = some false

-- `verify`
unfoldable pub verify : Derive → String → Text → Option Bool
unfolding verified split_on
verify derive password encoded = verified derive password (split_on b'.' encoded)
