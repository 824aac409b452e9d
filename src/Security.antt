-- ===== src/Security.antt =====
-- include/laso/security/security.hpp and src/core/security.cpp: who a request comes from, and what
-- it may do. A std::string is the list of its bytes; a role is compared as a text.
pub mod Gateway
use Prim.Native.Nat.{bit_or, bit_xor}
use laso.Base.{
  ℕ, ◌-◌, String, Bool, true, false, not, ◌&&◌, ◌||◌, Option, none, some, List, [], ◌∷◌, ltb, leb,
  ◌==◌, str_eq, all, any, length, drop, codes, if◌then◌else◌,
}
use laso.Core.Errors.{ErrorCode, Result, ok, throw, throw_if, ◌>>=◌, ◌>>◌}

abbrev pub Bytes : Type 0
Bytes = List ℕ

-- The comparison of two std::strings.
unfoldable pub bytes_eq : Bytes → Bytes → Bool
bytes_eq [] [] = true
bytes_eq (x ∷ xs) (y ∷ ys) = x == y && bytes_eq xs ys
bytes_eq _ _ = false

-- `text.starts_with(prefix)`
unfoldable pub starts_with : Bytes → Bytes → Bool
starts_with text [] = true
starts_with [] (p ∷ ps) = false
starts_with (t ∷ ts) (p ∷ ps) = t == p && starts_with ts ps

pub record Actor : Type 0 where
  pub id : Bytes
  pub authenticated : Bool
  pub role : Bytes

-- `Actor{}`
abbrev pub nobody : Actor
nobody = record { id = codes "local"; authenticated = false; role = codes "user" }

pub record AuthorizationContext : Type 0 where
  pub actor : Actor
  pub action : Bytes
  pub resource : Bytes

unfoldable pub alnum : ℕ → Bool
alnum c = (leb 65 c && leb c 90) || (leb 97 c && leb c 122) || (leb 48 c && leb c 57)

abbrev pub principal_char : ℕ → Bool
principal_char c = alnum c || c == 46 || c == 95 || c == 64 || c == 58 || c == 45

unfoldable pub valid_principal : Bytes → Bool
valid_principal [] = false
valid_principal (c ∷ cs) = leb (length (c ∷ cs)) 128 && alnum c && all principal_char (c ∷ cs)

-- The constructor of `TrustedGatewayIdentity`: the token that it keeps.
unfoldable pub gateway : Bytes → Result Bytes
gateway token = do
  throw_if (ltb (length token) 32 || ltb 8192 (length token)) ErrorCode.configuration
      "Invalid gateway identity token configuration"
  ok token

-- The loop over the bytes; the two texts have the same length there.
unfoldable pub difference : ℕ → Bytes → Bytes → ℕ
difference d (s ∷ ss) (t ∷ ts) = difference (bit_or d (bit_xor s t)) ss ts
difference d _ _ = d

abbrev pub bearer : Bytes
bearer = codes "Bearer "

unfoldable pub known_role : Bytes → Bool
unfolding bytes_eq
known_role role =
    bytes_eq role (codes "user")
    || bytes_eq role (codes "operator")
    || bytes_eq role (codes "admin")

unfoldable pub authenticate_request : Bytes → Bytes → Bytes → Bytes → Actor
authenticate_request token credential principal role =
    if not (starts_with credential bearer)
    then nobody
    else let supplied = drop 7 credential in
      if not (length supplied == length token)
      then nobody
      else if not (difference 0 supplied token == 0)
          || not (valid_principal principal)
          || not (known_role role)
      then nobody
      else record { id = principal; authenticated = true; role = role }

abbrev pub open_resource : Bytes → Bool
open_resource r =
    bytes_eq r (codes "/api/v1/health")
    || bytes_eq r (codes "/api/v1/health/live")
    || bytes_eq r (codes "/api/v1/health/ready")
    || bytes_eq r (codes "/api/v1/version")

unfoldable pub authorize : AuthorizationContext → Bool
authorize c =
    if not c.actor.authenticated
    then bytes_eq c.action (codes "GET") && open_resource c.resource
    else if starts_with c.resource (codes "/api/v1/operator/")
    then bytes_eq c.actor.role (codes "operator") || bytes_eq c.actor.role (codes "admin")
    else true

abbrev pub secret_head : ℕ → Bool
secret_head c = (leb 65 c && leb c 90) || c == 95

-- [A-Z_][A-Z0-9_]{0,127}
unfoldable pub secret_name : Bytes → Bool
secret_name [] = false
secret_name (c ∷ cs) =
    secret_head c && leb (length cs) 127 && all (λ d. secret_head d || (leb 48 d && leb d 57)) cs

abbrev pub found_or_throw : Option Bytes → Result Bytes
found_or_throw none = throw ErrorCode.configuration "Required secret unavailable"
found_or_throw (some v) = ok v

-- `EnvironmentSecretProvider::resolve`, over the environment that `getenv` reads.
unfoldable pub resolve : (Bytes → Option Bytes) → Bytes → Result Bytes
resolve getenv reference = do
  throw_if (not (secret_name reference)) ErrorCode.configuration "Invalid secret reference"
  found_or_throw (getenv reference)
