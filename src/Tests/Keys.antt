-- ===== src/Tests/Keys.antt =====
-- A shared file of authorised keys at concrete inputs.
use insatomcat_webui.Base.{
  ◌≡◌, refl, Bool, true, some, [], ◌∷◌, ◌++◌, arith, Text, codes, ok, join_text, starts_with,
  concat, split_lines,
}
use insatomcat_webui.Trust.AuthorizedKeys.{AuthorizedKey, KeyFile, read, render, install}
use insatomcat_webui.Trust.AuthorizedKeys.Lines.{IsKey}
use insatomcat_webui.Trust.AuthorizedKeys.Preserved.{IsInstalled, install-IsInstalled}
use insatomcat_webui.Trust.Service.{
  KeyPair, self_comment, self_line, self_relation, restriction_addresses, ensure_self_trust,
}
use insatomcat_webui.Trust.Service.SelfTrust.{IsTrusted, ensure_self_trust-IsTrusted}

abbrev key : AuthorizedKey
key = record {
  comment = codes "seapath-webui:a->a";
  public_key = codes "ssh-ed25519 AAAA";
  from_addresses = codes "::1" ∷ [];
}

abbrev key_tail : Text
key_tail = codes "eapath-webui:a->a"

key-IsKey : IsKey key
unfolding render starts_with join_text
key-IsKey = record {
  head = b's';
  tail = key_tail;
  comment_form = refl;
  one_word = ground arith;
  prefixed = refl;
  on_one_line = ground arith;
}

abbrev pub site_line : Text
site_line = codes "ssh-ed25519 BBBB site"

abbrev pub own_line : Text
own_line = codes "restrict ssh-ed25519 CCCC seapath-webui:b->b"

abbrev pub file : KeyFile
file = record { directory = true; content = some (site_line ++ 10 ∷ own_line ++ 10 ∷ []) }

pub file_lines : read file ≡ ok (site_line ∷ own_line ∷ [])
unfolding read split_lines
file_lines = refl

install-IsInstalled_example :
    (file' : KeyFile) × (changed : Bool) × (install key file ≡ ok (file', changed))
    × IsInstalled key file (site_line ∷ own_line ∷ []) file' changed
install-IsInstalled_example =
    install-IsInstalled key key-IsKey file (site_line ∷ own_line ∷ []) file_lines

abbrev pub key_pair : KeyPair
key_pair = record { public_key = "ssh-ed25519 AAAA"; fingerprint = "SHA256:u9" }

pub self_line-IsKey : IsKey (self_line key_pair "a" ("10.0.0.2" ∷ "" ∷ []))
unfolding render starts_with join_text self_comment restriction_addresses concat
self_line-IsKey = record {
  head = b's';
  tail = key_tail;
  comment_form = refl;
  one_word = ground arith;
  prefixed = refl;
  on_one_line = ground arith;
}

ensure_self_trust-IsTrusted_example :
    (file' : KeyFile) × (changed : Bool) × (ensure_self_trust key_pair "a"
        ("10.0.0.2" ∷ "" ∷ [])
        file
      ≡ ok (
        file',
        self_relation key_pair "a" (restriction_addresses ("10.0.0.2" ∷ "" ∷ [])) true,
        changed,
      ))
    × IsTrusted key_pair "a" ("10.0.0.2" ∷ "" ∷ []) (site_line ∷ own_line ∷ []) file'
ensure_self_trust-IsTrusted_example =
    ensure_self_trust-IsTrusted key_pair "a" ("10.0.0.2" ∷ "" ∷ []) file (site_line ∷ own_line ∷ [])
      self_line-IsKey file_lines
