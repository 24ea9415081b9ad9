-- ===== src/Web/Middleware.antt =====
-- web/middleware-support.ts, web/auth-role-middleware.ts, web/jwt-verifier.ts and
-- web/jwt-verifier-decoder-middleware.ts: which requests reach a handler.
use velo_external_db.Base.{
  String, Bool, Option, none, some, List, [], ◌∷◌, ok, err, ◌&◌, any, includes, if◌then◌else◌,
}
use velo_external_db.Commons.Values.{Value, undefined, null, str, obj, entries, get, is_truthy}
use velo_external_db.Commons.Errors.{Result, unauthorized}
use velo_external_db.Web.Errors.{message_of}

pub record Request : Type 0 where
  pub path : String
  pub body : Value

-- A middleware passes a request on, perhaps with another body, or ends it with an error.
abbrev pub Middleware : Type 0
Middleware = Request → Result Request

-- `unless`
unfoldable pub unless : List String → Middleware → Middleware
unless paths middleware request =
    if includes paths request.path then ok request else middleware request

-- `includes`; `starts_with` is `String.prototype.startsWith`
unfoldable pub when_prefixed : (String → String → Bool) → List String → Middleware → Middleware
when_prefixed starts_with prefixes middleware request =
    if any (λ p. starts_with request.path p) prefixes then middleware request else ok request

-- `authRoleMiddleware`; `role_of` is the property `requestContext.role` of the body, where the
-- package nested-property finds one.
unfoldable pub auth_role_middleware : (Value → Option Value) → List String → Middleware
auth_role_middleware role_of roles request = elim (role_of request.body) [
  | none ↦ err (unauthorized "You are not authorized")
  | some role ↦ allow role
]
  where
    allow : Value → Result Request
    allow (str role) =
        if includes roles role then ok request else err (unauthorized "You are not authorized")
    allow v = err (unauthorized "You are not authorized")

-- `config` of roles-config.json: the prefix of a path, and the roles that may use it
abbrev pub roles_config : List (String × List String)
roles_config =
    ("/schemas/column", "OWNER" ∷ [])
    ∷ ("/schemas/create", "OWNER" ∷ [])
    ∷ ("/schemas/list", "OWNER" ∷ "BACKEND_CODE" ∷ "MEMBER" ∷ [])
    ∷ ("/schemas/find", "OWNER" ∷ "BACKEND_CODE" ∷ "MEMBER" ∷ "VISITOR" ∷ [])
    ∷ []

-- `decodedToken && decodedToken.data` and its request and metadata; the package jsonwebtoken
-- verifies a token and throws a message if it is not valid.
abbrev decoded : Value → Result (Value × Value)
decoded (obj fs) = elim (get "data" (entries fs)) [
  | obj inner ↦ ok (get "request" (entries inner), get "metadata" (entries inner))
  | null ↦ err (unauthorized "Authorization failed: Authorization failed")
  | undefined ↦ err (unauthorized "Authorization failed: Authorization failed")
  | v ↦
      if is_truthy v
      then ok (undefined, undefined)
      else err (unauthorized "Authorization failed: Authorization failed")
]
decoded v = err (unauthorized "Authorization failed: Authorization failed")

-- `verifyAndDecode`: request and metadata
unfoldable pub verify_and_decode : (String → Result Value) → Value → Result (Value × Value)
unfolding is_truthy
verify_and_decode verify token =
    if is_truthy token then verified token else err (unauthorized "Unauthorized")
  where
    open_token : Result Value → Result (Value × Value)
    open_token (ok payload) = decoded payload
    open_token (err e) = err (unauthorized ("Authorization failed: " & message_of e))

    verified : Value → Result (Value × Value)
    verified (str t) = open_token (verify t)
    verified v = err (unauthorized "Authorization failed: jwt must be a string")
