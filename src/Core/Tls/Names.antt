-- ===== src/Core/Tls/Names.antt =====
-- What the certificate of a node names, and that it and the secret are made once.
use insatomcat_webui.Base.{
  String, ◌≡◌, refl, ap, inl, inr, ◌&&◌, Option, none, some, is_some, List, Bool-cases,
}
use insatomcat_webui.Core.Tls.{
  GeneralName, Material, Generated, or_generated, ensure_tls_material, ensure_session_secret,
}

material_once :
    (made later : Generated) (files : Material)
    → let after = or_generated (is_some files.certificate && is_some files.key) made files in
      or_generated (is_some after.certificate && is_some after.key) later after ≡ after
material_once made later files =
    elim (Bool-cases (is_some files.certificate && is_some files.key)) [
      | inl e ↦ rw (e, e) refl
      | inr e ↦ rw e refl
    ]

-- Whatever names are wanted and whatever would be generated later, the certificate, its key and its
-- fingerprint stay those of the first start.
pub ensure_tls_material-ensure_tls_material :
    (fingerprint : String → String) (generate later : List GeneralName → Generated)
    (names others : List GeneralName) (files : Material)
    → ensure_tls_material fingerprint later others
        (ensure_tls_material fingerprint generate names files).0
      ≡ ensure_tls_material fingerprint generate names files
unfolding ensure_tls_material
ensure_tls_material-ensure_tls_material fingerprint generate later names others files =
    ap
      (λ (m : Material).
        (m, elim m.certificate [ none ↦ none | some text ↦ some (fingerprint text) ]))
      (material_once (generate names) (later others) files)

-- The secret of the first start is that of every later one.
pub ensure_session_secret-ensure_session_secret :
    (made later : String) (file : Option String)
    → ensure_session_secret later (ensure_session_secret made file).0
      ≡ ensure_session_secret made file
unfolding ensure_session_secret
ensure_session_secret-ensure_session_secret made later none = refl
ensure_session_secret-ensure_session_secret made later (some secret) = refl
