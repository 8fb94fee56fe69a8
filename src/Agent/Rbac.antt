-- ===== src/Agent/Rbac.antt =====
-- cmd/keel-agent/src/rbac.rs: roles, the role of a client certificate, and the authorisation of a
-- request. The certificate parser (`x509_parser`) is a parameter.
pub mod Rpcs
pub mod Laws
use keelos.Prelude.{
  ℕ, leb, if◌then◌else◌, String, str_eq, format, Bool, ◌||◌, Option, none, some, List, [], ◌∷◌,
  Result, ok, err, ◌>>=◌, map_err,
}
use keelos.Agent.Status.{Status, unauthenticated, permission_denied}

pub data Role : Type 0 where
  viewer operator admin : Role

unfoldable pub privilege_level : Role → ℕ
privilege_level viewer = 0
privilege_level operator = 1
privilege_level admin = 2

unfoldable pub has_permission : Role → Role → Bool
unfolding privilege_level
has_permission self required = leb (privilege_level required) (privilege_level self)

-- `Display for Role`.
unfoldable pub role_name : Role → String
role_name viewer = "viewer"
role_name operator = "operator"
role_name admin = "admin"

-- The arms of the `match` on one Organization value.
unfoldable pub role_of_org : String → Option Role
role_of_org val =
    if str_eq val "system:masters" || str_eq val "keel:admin"
    then some admin
    else if str_eq val "keel:operator"
    then some operator
    else if str_eq val "keel:viewer"
    then some viewer
    else none

-- The first Organization value that is a text and a role; `none` in the list is a value that is no
-- text.
unfoldable pub first_role : List (Option String) → Option Role
unfolding role_of_org
first_role [] = none
first_role (none ∷ rest) = first_role rest
first_role (some val ∷ rest) =
    let later = first_role rest in elim (role_of_org val) [ some r ↦ some r | none ↦ later ]

recognised : Option Role → Result Role String
recognised (some r) = ok r
recognised none = err "No recognized RBAC role in certificate Organization field"

-- `Cert` is the DER of a certificate, and `organizations` what the parser finds in its subject.
module _ {Cert : Type 0} (organizations : Cert → Result (List (Option String)) String) where
  unfoldable pub role_from_cert_der : Cert → Result Role String
  unfolding first_role recognised
  role_from_cert_der c = do
    orgs ← map_err (λ e. format ("Failed to parse X.509 certificate: " ∷ e ∷ [])) (organizations c)
    recognised (first_role orgs)

  unrecognised : String → Status
  unrecognised e = record {
    code = permission_denied;
    message = format ("Unrecognized client certificate role: " ∷ e ∷ []);
  }

  permit : Role → Role → Result (Unit {0}) Status
  unfolding has_permission role_name
  permit required client =
      if has_permission client required
      then ok tt
      else err (record {
        code = permission_denied;
        message = format (
            "Role '"
            ∷ role_name client
            ∷ "' does not have permission for this operation (requires '"
            ∷ role_name required
            ∷ "')"
            ∷ []);
      })

  -- `peer_certs` is `None` when the connection has no client certificate.
  unfoldable pub authorize : Option (List Cert) → Role → Result (Unit {0}) Status
  unfolding role_from_cert_der permit unrecognised
  authorize none required = ok tt
  authorize (some []) required =
      err (record { code = unauthenticated; message = "Client certificate chain is empty" })
  authorize (some (first ∷ chain)) required = do
    client ← map_err unrecognised (role_from_cert_der first)
    permit required client
