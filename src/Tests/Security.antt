-- ===== src/Tests/Security.antt =====
-- Tests of include/laso/security/security.hpp.
use laso.Base.{◌≡◌, refl, ◌↔◌, ◌⊎◌, true, ◌++◌, codes, arith}
use laso.Security.{
  Bytes, bearer, authenticate_request, valid_principal, known_role, starts_with, alnum, difference,
  authorize, bytes_eq,
}
use laso.Security.Gateway.{AreBytes, authenticated_iff, operator_access}

abbrev token : Bytes
token = codes "0123456789abcdef0123456789abcdef"

abbrev credential : Bytes
credential = codes "Bearer 0123456789abcdef0123456789abcdef"

token-AreBytes : AreBytes token
token-AreBytes = ground arith

credential-AreBytes : AreBytes credential
credential-AreBytes = ground arith

authenticated_iff_example :
    ((authenticate_request token credential (codes "alice@laso") (codes "operator")).authenticated
      ≡ true)
    ↔ ((credential ≡ bearer ++ token)
        × (valid_principal (codes "alice@laso") ≡ true)
        × (known_role (codes "operator") ≡ true)
        × (authenticate_request token credential (codes "alice@laso") (codes "operator")
            ≡ record { id = codes "alice@laso"; authenticated = true; role = codes "operator" }))
authenticated_iff_example =
    authenticated_iff token credential (codes "alice@laso") (codes "operator") token-AreBytes
      credential-AreBytes

operator_access_example :
    (credential ≡ bearer ++ token)
    × (valid_principal (codes "alice@laso") ≡ true)
    × ((codes "operator" ≡ codes "operator") ⊎ (codes "operator" ≡ codes "admin"))
unfolding authenticate_request starts_with difference valid_principal known_role alnum authorize
    bytes_eq
operator_access_example =
    operator_access token credential (codes "alice@laso") (codes "operator") (codes "POST")
      (codes "/api/v1/operator/pause") token-AreBytes credential-AreBytes refl refl
