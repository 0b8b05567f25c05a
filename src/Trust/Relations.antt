-- ===== src/Trust/Relations.antt =====
-- app/trust/service.py: the relations as the trust view shows them.
use insatomcat_webui.Base.{String, Bool, List}

pub record TrustRelation : Type 0 where
  pub comment : String
  pub peer : String
  pub kind : String
  pub fingerprint : String
  pub from_addresses : List String
  pub installed : Bool
