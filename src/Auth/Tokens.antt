-- ===== src/Auth/Tokens.antt =====
-- auth/bearer.go and auth/verifier.go. go-oidc's check of a token is a parameter.
use xensus.Base.{
  Option, none, some, [], Text, codes, text_eq, is_empty, lower, length, ltb, trim_space,
  if◌then◌else◌,
}
use xensus.Auth.Cookies.{take, drop}

-- `extractBearer` of the header Authorization. The prefix has ASCII letters alone.
unfoldable pub extract_bearer : Text → Text
extract_bearer h =
    if ltb (length h) 7
    then []
    else if text_eq (lower (take 7 h)) (lower (codes "Bearer "))
    then trim_space (drop 7 h)
    else []

pub record Claims : Type 0 where
  pub oid : Text
  pub upn : Text
  pub tid : Text
  pub nonce : Text

-- The claims of a token whose signature, audience and expiry are right, `upn` for
-- preferred_username; or `none`.
abbrev pub Inner : Type 0
Inner = Text → Option Claims

abbrev pub with_identity : Option Claims → Option Claims
with_identity none = none
with_identity (some c) = if is_empty c.oid then none else if is_empty c.tid then none else some c

-- `oidcVerifier.Verify`
unfoldable pub verify : Inner → Text → Option Claims
verify inner raw = with_identity (inner raw)
