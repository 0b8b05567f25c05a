-- ===== src/Api/Trust.antt =====
-- app/api/v1/trust.py: the trust view and the revocation, behind their guards.
use insatomcat_webui.Base.{
  String, Bool, true, Option, List, [], ◌∷◌, if◌then◌else◌, concat, Result, ok, err,
}
use insatomcat_webui.Core.Errors.{ApiError}
use insatomcat_webui.Core.Auth.{User}
use insatomcat_webui.Trust.AuthorizedKeys.{KeyFile, MissingAccount}
use insatomcat_webui.Trust.Relations.{TrustRelation}
use insatomcat_webui.Trust.Service.{KeyPair, relations, revoke}
use insatomcat_webui.Api.Endpoint.{Problem, Reply}

abbrev pub unknown_relation : String → ApiError
unknown_relation comment = record {
  code = "unknown_relation";
  message = concat ("There is no relation " ∷ comment ∷ "." ∷ []);
  status = 404;
  detail = [];
}

abbrev viewed : Result MissingAccount (List TrustRelation) → Reply (List TrustRelation)
viewed (err e) = err Problem.raised
viewed (ok found) = ok found

-- `relations`
unfoldable pub get_relations : Option KeyPair → String → KeyFile → Reply (List TrustRelation)
unfolding relations
get_relations pair hostname file = viewed (relations pair hostname file)

abbrev revoked : String → KeyFile → Result MissingAccount (KeyFile × Bool) → KeyFile × Reply Bool
revoked comment file (err e) = (file, err Problem.raised)
revoked comment file (ok (after, changed)) =
    (after, if changed then ok true else err (Problem.api (unknown_relation comment)))

-- `revoke`
unfoldable pub revoke_relation : String → User → KeyFile → KeyFile × Reply Bool
unfolding revoke
revoke_relation comment user file = revoked comment file (revoke comment file)
