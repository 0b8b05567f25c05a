-- ===== src/Trust/Keys/Kept.antt =====
-- The key pair is made once.
use insatomcat_webui.Base.{String, ◌≡◌, refl, ap, inl, inr, Option-cases}
use insatomcat_webui.Trust.Keys.{KeyFiles, Made, pair_of, with_pair, ensure_key_pair}

made_once :
    (made later : Made) (files : KeyFiles)
    → with_pair later (with_pair made files) ≡ with_pair made files
unfolding with_pair
made_once made later files = elim (Option-cases files.private_key) [
  | inl e ↦ rw e refl
  | inr (p, e) ↦ rw e refl
]

-- Whatever pair would be made later, the files and the pair stay those of the first call.
pub ensure_key_pair-ensure_key_pair :
    (fingerprint : String → String) (made later : Made) (files : KeyFiles)
    → ensure_key_pair fingerprint later (ensure_key_pair fingerprint made files).0
      ≡ ensure_key_pair fingerprint made files
unfolding ensure_key_pair
ensure_key_pair-ensure_key_pair fingerprint made later files =
    ap (λ (f : KeyFiles). (f, pair_of fingerprint f.public_key)) (made_once made later files)
