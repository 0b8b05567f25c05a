-- ===== src/Trust/Service.antt =====
-- app/trust/service.py: the trust of the machine in itself. The key pair that is on the disk, or is
-- made, is an argument.
pub mod SelfTrust
use insatomcat_webui.Base.{
  String, ◌==◌, Bool, true, false, not, Option, none, some, List, [], ◌∷◌, ◌++◌, keep, map, any,
  codes, concat, sorted, Result, ok, err, Text,
}
use insatomcat_webui.Trust.Relations.{TrustRelation}
use insatomcat_webui.Trust.AuthorizedKeys.{
  AuthorizedKey, KeyFile, MissingAccount, same_text, install, remove, installed,
}

-- `KeyPair`, what is read of it
pub record KeyPair : Type 0 where
  pub public_key : String
  pub fingerprint : String

-- `_LOOPBACK`
abbrev loopback : List String
loopback = "127.0.0.1" ∷ "::1" ∷ []

-- `self_comment`
unfoldable pub self_comment : String → String
self_comment hostname = concat ("seapath-webui:" ∷ hostname ∷ "->" ∷ hostname ∷ [])

-- `_restriction_addresses`
unfoldable pub restriction_addresses : List String → List String
unfolding sorted
restriction_addresses addresses = sorted (keep (λ a. not (a == "")) addresses ++ loopback)

-- the key that `ensure_self_trust` installs
abbrev pub self_line : KeyPair → String → List String → AuthorizedKey
self_line key_pair hostname addresses = record {
  comment = codes (self_comment hostname);
  public_key = codes key_pair.public_key;
  from_addresses = map codes (restriction_addresses addresses);
}

abbrev pub self_relation : KeyPair → String → List String → Bool → TrustRelation
self_relation key_pair hostname from_addresses is_installed = record {
  comment = self_comment hostname;
  peer = hostname;
  kind = "self";
  fingerprint = key_pair.fingerprint;
  from_addresses = from_addresses;
  installed = is_installed;
}

abbrev related :
    TrustRelation
    → Result MissingAccount (KeyFile × Bool)
    → Result MissingAccount (KeyFile × TrustRelation × Bool)
related relation (err e) = err e
related relation (ok (file, changed)) = ok (file, relation, changed)

-- `ensure_self_trust`: the file, the relation, and whether the file changed
unfoldable pub ensure_self_trust :
    KeyPair
    → String
    → List String
    → KeyFile
    → Result MissingAccount (KeyFile × TrustRelation × Bool)
ensure_self_trust key_pair hostname addresses file =
    related (self_relation key_pair hostname (restriction_addresses addresses) true)
      (install (self_line key_pair hostname addresses) file)

abbrev shown :
    Option KeyPair
    → String
    → Result MissingAccount (List Text)
    → Result MissingAccount (List TrustRelation)
shown key_pair hostname (err e) = err e
shown none hostname (ok present) = ok []
shown (some key_pair) hostname (ok present) = ok (
    self_relation key_pair hostname []
      (any (λ c. same_text c (codes (self_comment hostname))) present)
    ∷ [])

-- `relations`, with the key pair if there is one
unfoldable pub relations :
    Option KeyPair → String → KeyFile → Result MissingAccount (List TrustRelation)
relations key_pair hostname file = shown key_pair hostname (installed file)

-- `revoke`
unfoldable pub revoke : String → KeyFile → Result MissingAccount (KeyFile × Bool)
revoke comment file = remove (codes comment) file
