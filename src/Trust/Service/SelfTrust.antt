-- ===== src/Trust/Service/SelfTrust.antt =====
-- What the trust view shows behind the operations of the trust service.
use insatomcat_webui.Base.{
  String, ◌≡◌, refl, ◌∙◌, inl, inr, Bool, true, false, some, List, [], ◌∷◌, Bool-cases, any, Text,
  codes, ok,
}
use insatomcat_webui.Trust.Relations.{TrustRelation}
use insatomcat_webui.Trust.AuthorizedKeys.{KeyFile, read, comments, same_text, installed}
use insatomcat_webui.Trust.AuthorizedKeys.Lines.{IsKey}
use insatomcat_webui.Trust.AuthorizedKeys.Preserved.{
  foreign, without, install-IsInstalled, remove-foreign, IsInstalled,
}
use insatomcat_webui.Trust.Service.{
  KeyPair, self_comment, self_line, self_relation, restriction_addresses, ensure_self_trust,
  relations, revoke,
}

any-without : (c : Text) (cs : List Text) → any (λ d. same_text d c) (without c cs) ≡ false
any-without c [] = refl
any-without c (d ∷ cs) = elim (Bool-cases (same_text d c)) [
  | inl e ↦ rw e (any-without c cs)
  | inr e ↦ rw e (rw e (any-without c cs))
]

module _ (key_pair : KeyPair) (hostname : String) (addresses : List String) where
  abbrev relation : TrustRelation
  relation = self_relation key_pair hostname (restriction_addresses addresses) true

  -- The file and the view behind `ensure_self_trust`, and behind a revocation after it.
  pub record IsTrusted (lines : List Text) (file : KeyFile) : Type 0 where
    pub new_lines : List Text
    pub reads : read file ≡ ok new_lines
    pub others_kept : foreign new_lines ≡ foreign lines
    pub shown_now :
        relations (some key_pair) hostname file ≡ ok (self_relation key_pair hostname [] true ∷ [])
    pub again : ensure_self_trust key_pair hostname addresses file ≡ ok (file, relation, false)
    pub revoked_file : KeyFile
    pub revoked_changed : Bool
    pub revoked : revoke (self_comment hostname) file ≡ ok (revoked_file, revoked_changed)
    pub revoked_lines : List Text
    pub revoked_reads : read revoked_file ≡ ok revoked_lines
    pub revoked_keeps : foreign revoked_lines ≡ foreign lines
    pub shown_no_more :
        relations (some key_pair) hostname revoked_file
        ≡ ok (self_relation key_pair hostname [] false ∷ [])

  trusted_lem :
      (lines : List Text) (file file' : KeyFile) (changed : Bool)
      → IsInstalled (self_line key_pair hostname addresses) file lines file' changed
      → IsTrusted lines file'
  unfolding relations ensure_self_trust revoke installed
  trusted_lem lines file file' changed i =
      let (gone, gone_changed, gone_lines, e, reads, others, left, same) =
        remove-foreign (codes (self_comment hostname)) file' i.new_lines i.reads in
      record {
        new_lines = i.new_lines;
        reads = i.reads;
        others_kept = i.others_kept;
        shown_now = rw (i.reads, i.listed_now);
        again = rw i.again;
        revoked_file = gone;
        revoked_changed = gone_changed;
        revoked = e;
        revoked_lines = gone_lines;
        revoked_reads = reads;
        revoked_keeps = others ∙ i.others_kept;
        shown_no_more =
            rw (left, any-without (codes (self_comment hostname)) (comments i.new_lines));
      }

  -- Provisioning the trust of the machine in itself in a file that can be read never fails. It keeps
  -- the lines of others in their order, the view then shows the relation as installed, and
  -- provisioning it again changes nothing. Revoking it afterwards keeps the lines of others too, and
  -- the view then shows it as not installed.
  pub ensure_self_trust-IsTrusted :
      (file : KeyFile) (lines : List Text)
      → IsKey (self_line key_pair hostname addresses)
      → read file ≡ ok lines
      → (file' : KeyFile) × (changed : Bool) × (ensure_self_trust key_pair hostname addresses file
          ≡ ok (file', relation, changed))
        × IsTrusted lines file'
  unfolding ensure_self_trust
  ensure_self_trust-IsTrusted file lines h e =
      let (file', changed, done, i) =
        install-IsInstalled (self_line key_pair hostname addresses) h file lines e in
      (file', changed, rw done, trusted_lem lines file file' changed i)
