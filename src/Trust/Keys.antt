-- ===== src/Trust/Keys.antt =====
-- app/trust/keys.py: the key pair on the disk. The pair that a library would make and the digest of a key are
-- arguments; the modes of the files are left out.
pub mod Kept
use insatomcat_webui.Base.{
  String, false, Option, none, some, [], ◌∷◌, codes, concat, text_of, strip, newlines,
}
use insatomcat_webui.Trust.Service.{KeyPair}

-- The two files.
pub record KeyFiles : Type 0 where
  pub private_key : Option String
  pub public_key : Option String

-- a pair that has just been made
pub record Made : Type 0 where
  pub private_text : String
  pub public_text : String

abbrev pair_of : (String → String) → Option String → Option KeyPair
unfolding newlines strip
pair_of fingerprint none = none
pair_of fingerprint (some content) =
    let public_key = text_of (strip (newlines false (codes content))) in
    some (record { public_key = public_key; fingerprint = fingerprint public_key })

abbrev with_pair : Made → KeyFiles → KeyFiles
unfolding concat
with_pair made files = elim files.private_key [
  | some _ ↦ files
  | none ↦ record {
    private_key = some made.private_text;
    public_key = some (concat (made.public_text ∷ "\n" ∷ []));
  }
]

-- `ensure_key_pair`: the files, and the pair, where its public key can be read
unfoldable pub ensure_key_pair : (String → String) → Made → KeyFiles → KeyFiles × Option KeyPair
unfolding pair_of with_pair
ensure_key_pair fingerprint made files =
    let after = with_pair made files in (after, pair_of fingerprint after.public_key)
