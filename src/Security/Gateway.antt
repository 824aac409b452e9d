-- ===== src/Security/Gateway.antt =====
-- include/laso/security/security.hpp, `TrustedGatewayIdentity`: who is let in, and to what.
use Prim.Native.Nat.{bit_or, bit_xor}
use laso.Base.{
  ℕ, ◌<◌, ◌≡◌, refl, ap, ◌↔◌, ◌⊎◌, inl, inr, Bool, true, false, [], ◌∷◌, ◌++◌, arith, Bool-cases,
  All, length, drop, codes,
}
use laso.Base.Bytes.{bit_xor-byte, bit_or-byte}
use laso.Security.{
  Bytes, bytes_eq, starts_with, Actor, valid_principal, difference, bearer, known_role,
  authenticate_request, authorize, open_resource,
}

pub bytes_eq_iff : (xs ys : Bytes) → (bytes_eq xs ys ≡ true) ↔ (xs ≡ ys)
unfolding bytes_eq
bytes_eq_iff [] [] = ground arith
bytes_eq_iff [] (y ∷ ys) = ground arith
bytes_eq_iff (x ∷ xs) [] = ground arith
bytes_eq_iff (x ∷ xs) (y ∷ ys) = ground (arith, bytes_eq_iff xs ys)

abbrev pub AreBytes : Bytes → Type 0
AreBytes = All (λ x. x < 256)

difference-zero :
    (d : ℕ) (s t : Bytes)
    → d < 256
    → AreBytes s
    → AreBytes t
    → length s ≡ length t
    → (difference d s t ≡ 0) ↔ ((d ≡ 0) × (s ≡ t))
unfolding difference
difference-zero d [] [] hd hs ht e = ground arith
difference-zero d [] (y ∷ t) hd hs ht e = absurd (omega arith)
difference-zero d (x ∷ s) [] hd hs ht e = absurd (omega arith)
difference-zero d (x ∷ s) (y ∷ t) hd hs ht e =
    let xor = bit_xor-byte x y hs.0 ht.0 in
    let or = bit_or-byte d (bit_xor x y) hd xor.0 in
    let rest = difference-zero (bit_or d (bit_xor x y)) s t or.0 hs.1 ht.1 (omega arith) in
    ground (arith, xor, or, rest)

starts_with-drop :
    (text prefix : Bytes)
    → starts_with text prefix ≡ true
    → text ≡ prefix ++ drop (length prefix) text
unfolding starts_with
starts_with-drop text [] h = refl
starts_with-drop [] (p ∷ ps) h = cc
starts_with-drop (t ∷ ts) (p ∷ ps) h = ground (arith, starts_with-drop ts ps)

starts_with-append : (prefix rest : Bytes) → starts_with (prefix ++ rest) prefix ≡ true
unfolding starts_with
starts_with-append [] rest = refl
starts_with-append (p ∷ ps) rest = ground (arith, starts_with-append ps rest)

drop-AreBytes : (n : ℕ) (xs : Bytes) → AreBytes xs → AreBytes (drop n xs)
drop-AreBytes ℕ.zero xs h = h
drop-AreBytes (ℕ.suc n) [] h = tt
drop-AreBytes (ℕ.suc n) (x ∷ xs) h = drop-AreBytes n xs h.1

module _ (token credential principal role : Bytes) (token_bytes : AreBytes token)
    (credential_bytes : AreBytes credential) where
  supplied : Bytes
  supplied = drop 7 credential

  compares :
      length supplied ≡ length token
      → (difference 0 supplied token ≡ 0) ↔ ((◌≡◌ {A = ℕ} 0 0) × (supplied ≡ token))
  unfolding supplied
  compares e =
      difference-zero 0 (drop 7 credential) token (omega arith)
        (drop-AreBytes 7 credential credential_bytes) token_bytes e

  accepts :
      (authenticate_request token credential principal role).authenticated ≡ true
      → (credential ≡ bearer ++ token)
        × (valid_principal principal ≡ true)
        × (known_role role ≡ true)
        × (authenticate_request token credential principal role
            ≡ record { id = principal; authenticated = true; role = role })
  unfolding authenticate_request supplied
  accepts h = ground (arith, compares, starts_with-drop credential bearer)

  admits :
      credential ≡ bearer ++ token
      → valid_principal principal ≡ true
      → known_role role ≡ true
      → (authenticate_request token credential principal role).authenticated ≡ true
  unfolding authenticate_request supplied
  admits e v r =
      let same : drop 7 credential ≡ token = ap (drop 7) e in
      let begins : starts_with credential bearer ≡ true = rw e (starts_with-append bearer token) in
      ground (arith, same, ap length same, begins, compares)

  -- The token and the credential being made of bytes below 256, a request is authenticated exactly
  -- when it carries the gateway's token behind "Bearer ", with a valid principal and one of the
  -- three roles; the actor is then that principal with that role.
  pub authenticated_iff :
      ((authenticate_request token credential principal role).authenticated ≡ true) ↔ (
        (credential ≡ bearer ++ token)
        × (valid_principal principal ≡ true)
        × (known_role role ≡ true)
        × (authenticate_request token credential principal role
            ≡ record { id = principal; authenticated = true; role = role }))
  authenticated_iff = (accepts, λ h. admits h.0 h.1 h.2)

abbrev pub operator_prefix : Bytes
operator_prefix = codes "/api/v1/operator/"

open_resource-not_operator :
    (r : Bytes) → starts_with r operator_prefix ≡ true → open_resource r ≡ false
unfolding starts_with
open_resource-not_operator r h = ground (
  arith,
  bytes_eq_iff r (codes "/api/v1/health"),
  bytes_eq_iff r (codes "/api/v1/health/live"),
  bytes_eq_iff r (codes "/api/v1/health/ready"),
  bytes_eq_iff r (codes "/api/v1/version"),
)

-- The request as the server sees it: authenticated by the gateway, then authorized.
abbrev pub allowed : Bytes → Bytes → Bytes → Bytes → Bytes → Bytes → Bool
allowed token credential principal role action resource = authorize (record {
  actor = authenticate_request token credential principal role;
  action = action;
  resource = resource;
})

unauthenticated_blocked :
    (a : Actor) (action resource : Bytes)
    → a.authenticated ≡ false
    → starts_with resource operator_prefix ≡ true
    → authorize (record { actor = a; action = action; resource = resource }) ≡ false
unfolding authorize
unauthenticated_blocked a action resource h s =
    ground (arith, open_resource-not_operator resource s)

operator_role :
    (principal role action resource : Bytes)
    → starts_with resource operator_prefix ≡ true
    → (authorize (record {
      actor = record { id = principal; authenticated = true; role = role };
      action = action;
      resource = resource;
    })
        ≡ true)
      ↔ ((role ≡ codes "operator") ⊎ (role ≡ codes "admin"))
unfolding authorize
operator_role principal role action resource s =
    ground (arith, bytes_eq_iff role (codes "operator"), bytes_eq_iff role (codes "admin"))

-- The token and the credential being made of bytes below 256, a request for a resource below the operator's prefix passes both checks only if it carries the
-- gateway's token, a valid principal and the role "operator" or "admin".
pub operator_access :
    (token credential principal role action resource : Bytes)
    → AreBytes token
    → AreBytes credential
    → starts_with resource operator_prefix ≡ true
    → allowed token credential principal role action resource ≡ true
    → (credential ≡ bearer ++ token)
      × (valid_principal principal ≡ true)
      × ((role ≡ codes "operator") ⊎ (role ≡ codes "admin"))
operator_access token credential principal role action resource tb cb s h =
    let actor : Actor = authenticate_request token credential principal role in
    elim (Bool-cases actor.authenticated) [
      | inl yes_actor ↦
          let facts = accepts token credential principal role tb cb yes_actor in
          let h' = rw facts.3 at h in
          (facts.0, facts.1, (operator_role principal role action resource s).0 h')
      | inr no_actor ↦ cc (unauthenticated_blocked actor action resource no_actor s)
    ]
