-- ===== src/Core/Tls.antt =====
-- app/core/tls.py: the certificate of the node and the secret of its sessions, which are made once. What the
-- libraries make is an argument; the modes of the files are left out, and names are ASCII.
pub mod Names
use insatomcat_webui.Base.{
  String, ◌==◌, Bool, true, false, not, ◌||◌, ◌&&◌, member, Option, none, some, is_some, List, [],
  ◌∷◌, ◌++◌, map, if◌then◌else◌, codes, text_of, strip, split_on, Text,
}
use insatomcat_webui.Inventory.Address.{Address, address}

-- `x509.GeneralName`, of the two kinds that are used
pub data GeneralName : Type 0 where
  ip_address : Address → GeneralName
  dns_name : String → GeneralName

abbrev name_as : String → Option Address → GeneralName
name_as value none = dns_name value
name_as value (some a) = ip_address a

unfoldable pub name_of : String → GeneralName
unfolding address
name_of value = name_as value (address (some value))

-- the values that are added and have not been seen
unfoldable pub fresh : List String → List String → List String
unfolding strip
fresh seen [] = []
fresh seen (raw ∷ values) =
    let value = text_of (strip (codes raw)) in
    let skipped = fresh seen values in
    let added = value ∷ fresh (value ∷ seen) values in
    if (value == "") || member value seen then skipped else added

abbrev is_wildcard : String → Bool
is_wildcard bind = (bind == "0.0.0.0") || ((bind == "::") || (bind == ""))

-- all values in their order, with the address that is bound and the setting of further names
abbrev pub candidates : String → String → String → List String
unfolding split_on
candidates bind additional hostname =
    (hostname ∷ "localhost" ∷ "127.0.0.1" ∷ "::1" ∷ [])
    ++ ((if is_wildcard bind then [] else bind ∷ [])
        ++ map text_of (split_on b',' (codes additional)))

-- `_subject_alt_names`
unfoldable pub subject_alt_names : String → String → String → List GeneralName
unfolding fresh candidates name_of
subject_alt_names bind additional hostname =
    map name_of (fresh [] (candidates bind additional hostname))

pub record Material : Type 0 where
  pub certificate : Option String
  pub key : Option String

-- What `_generate` makes for some names.
pub record Generated : Type 0 where
  pub certificate_text : String
  pub key_text : String

abbrev or_generated : Bool → Generated → Material → Material
or_generated true made files = files
or_generated false made files = record {
  certificate = some made.certificate_text;
  key = some made.key_text;
}

-- `ensure_tls_material`: the files, and the fingerprint of the certificate that is there then
unfoldable pub ensure_tls_material :
    (String → String)
    → (List GeneralName → Generated)
    → List GeneralName
    → Material
    → Material × Option String
ensure_tls_material fingerprint generate names files =
    let after =
      or_generated (is_some files.certificate && is_some files.key) (generate names) files in
    (after, elim after.certificate [ none ↦ none | some text ↦ some (fingerprint text) ])

abbrev or_made : String → Option String → String
or_made made none = made
or_made made (some secret) = secret

-- `ensure_session_secret`: the file and the secret
unfoldable pub ensure_session_secret : String → Option String → Option String × String
unfolding strip
ensure_session_secret made file =
    let secret = or_made made file in (some secret, text_of (strip (codes secret)))
