-- ===== src/Trust/KnownHosts/Twice.antt =====
-- Recording the host keys again.
use insatomcat_webui.Base.{
  String, ◌==◌, ◌≡◌, refl, inl, inr, not, Option, some, List, [], ◌∷◌, keep, Bool-cases,
}
use insatomcat_webui.Trust.KnownHosts.{
  recorded, render, same_content, ensure_local, read_local_host_keys,
}

recorded_again :
    (names keys : List String) (file : Option String)
    → (recorded names keys (recorded names keys file).0).0 ≡ (recorded names keys file).0
unfolding recorded
recorded_again names [] file = refl
recorded_again names (k ∷ ks) file =
    let content = render (keep (λ n. not (n == "")) names) (k ∷ ks) in
    elim (Bool-cases (same_content content file)) [
      | inl same ↦ rw (same, same) refl
      | inr differs ↦ elim (Bool-cases (same_content content (some content))) [
        | inl same ↦ rw (differs, same) refl
        | inr other ↦ rw (differs, other) refl
      ]
    ]

pub ensure_local-ensure_local :
    (host_keys : String → Option String) (names : List String) (file : Option String)
    → (ensure_local host_keys names (ensure_local host_keys names file).0).0
      ≡ (ensure_local host_keys names file).0
unfolding ensure_local
ensure_local-ensure_local host_keys names file =
    recorded_again names (read_local_host_keys host_keys) file
