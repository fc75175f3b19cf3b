-- ===== src/Mcp/Server/Access.antt =====
-- Who reaches the dispatcher of the MCP server.
use mathlib.Core.Option.{some-injective}
use mathlib.Core.Path.{subst}
use dora_metrics_app.Base.{
  ℕ, ◌≤◌, ◌≡◌, ◌≢◌, ◌↔◌, refl, sym, ap, ◌∙◌, inl, inr, Bool, true, false, not, Option, none, some,
  [], ◌++◌, arith, if◌then◌else◌, is_some, Bool-cases, Option-cases,
}
use dora_metrics_app.Base.Int.{ℤ}
use dora_metrics_app.Base.Text.{
  Text, codes, same, same_iff, same_refl, strip_prefix, strip_prefix-append, strip_prefix-some,
}
use dora_metrics_app.Mcp.OAuth.{OAuthServer, validate_token, handle_revoke}
use dora_metrics_app.Mcp.OAuth.Tokens.{validate_token-keeps, revocation_of, handle_revoke_lem}
use dora_metrics_app.Mcp.Server.{
  Server, World, HttpRequest, HttpReply, healthy, to_mux, http_not_found, method_not_allowed,
  RpcRequest, is_static, bad_request, rpc, of_body, after_auth, bearer, oauth_accepts, check_oauth,
  check_auth, serve_http,
}

-- The static token, or a token that the authorization server validates, or a server that has neither.
pub data Accepted (s : Server) (now : ℕ) (header : Text) : Type 0 where
  static_token : s.token ≢ [] → header ≡ bearer ++ s.token → Accepted s now header
  oauth_token :
      (o : OAuthServer) (token : Text) (grant : Text × Text)
      → s.oauth ≡ some o
      → header ≡ bearer ++ token
      → (validate_token o now token).1 ≡ some grant
      → Accepted s now header
  open_mode : s.token ≡ [] → s.oauth ≡ none → Accepted s now header

module _ (s : Server) (now : ℕ) (header : Text) where
  oauth_accepts-Accepted :
      (o : OAuthServer) (stripped : Option Text)
      → s.oauth ≡ some o
      → strip_prefix bearer header ≡ stripped
      → (oauth_accepts s now o stripped).1 ≡ true
      → Accepted s now header
  oauth_accepts-Accepted o none e f h = cc
  oauth_accepts-Accepted o (some token) e f h = elim (Option-cases (validate_token o now token).1) [
    | inl g ↦ absurd (bad g)
    | inr (grant, g) ↦ oauth_token o token grant e (strip_prefix-some bearer header token f) g
  ]
    where
      bad : (validate_token o now token).1 ≡ none → ⊥
      bad g = let stop : false ≡ true = sym (ap is_some g) ∙ h in ground (arith, stop)

  static_lem : is_static s header ≡ true → (s.token ≢ []) × (header ≡ bearer ++ s.token)
  static_lem t = (
    λ e. let stop : same s.token [] ≡ true = (same_iff s.token []).1 e in ground (arith, stop),
    (same_iff header (bearer ++ s.token)).0 (ground arith),
  )

  check_oauth-Accepted :
      (oauth : Option OAuthServer)
      → s.oauth ≡ oauth
      → (check_oauth s now header oauth).1 ≡ true
      → Accepted s now header
  check_oauth-Accepted none e h = open_mode ((same_iff s.token []).0 h) e
  check_oauth-Accepted (some o) e h = oauth_accepts-Accepted o (strip_prefix bearer header) e refl h

  check_auth-Accepted : (check_auth s now header).1 ≡ true → Accepted s now header
  unfolding check_auth
  check_auth-Accepted h = elim (Bool-cases (is_static s header)) [
    | inl t ↦ static_token (static_lem t).0 (static_lem t).1
    | inr f ↦ check_oauth-Accepted s.oauth refl (rw f at h)
  ]

  static_back : s.token ≢ [] → header ≡ bearer ++ s.token → is_static s header ≡ true
  static_back nonempty e = elim (Bool-cases (same s.token [])) [
    | inl t ↦ absurd (nonempty ((same_iff s.token []).0 t))
    | inr f ↦ rw (f, (same_iff header (bearer ++ s.token)).1 e) refl
  ]

  -- What the second test accepts, `checkAuth` accepts.
  by_oauth : (check_oauth s now header s.oauth).1 ≡ true → (check_auth s now header).1 ≡ true
  unfolding check_auth
  by_oauth h = elim (Bool-cases (is_static s header)) [ inl t ↦ rw t refl | inr f ↦ rw f h ]

  oauth_back :
      (o : OAuthServer) (token : Text) (grant : Text × Text)
      → header ≡ bearer ++ token
      → (validate_token o now token).1 ≡ some grant
      → (check_oauth s now header (some o)).1 ≡ true
  oauth_back o token grant f g =
      let stripped : strip_prefix bearer header ≡ some token =
        ap (strip_prefix bearer) f ∙ strip_prefix-append bearer token in
      rw stripped (ap is_some g)

  Accepted-check_auth : Accepted s now header → (check_auth s now header).1 ≡ true
  Accepted-check_auth (static_token nonempty e) =
      unfold check_auth in rw (static_back nonempty e) refl
  Accepted-check_auth (oauth_token o token grant e f g) = by_oauth (
      subst (λ oauth. (check_oauth s now header oauth).1 ≡ true) (sym e)
        (oauth_back o token grant f g))
  Accepted-check_auth (open_mode e f) = by_oauth (
      subst (λ oauth. (check_oauth s now header oauth).1 ≡ true) (sym f)
        ((same_iff s.token []).1 e))

-- The reply of a request whose body was read.
abbrev pub is_served : HttpReply → Bool
is_served (rpc r) = true
is_served (bad_request r) = true
is_served _ = false

of_body-is_served :
    {F : Type 0} (world : World F) (clock : ℤ) (b : Option RpcRequest)
    → is_served (of_body world clock b) ≡ true
of_body-is_served world clock none = refl
of_body-is_served world clock (some r) = refl

module _ {F : Type 0} (world : World F) (clock : ℤ) where
  after_auth-is_served :
      (r : HttpRequest) (checked : Server × Bool)
      → is_served (after_auth world clock r checked).1 ≡ checked.1
  after_auth-is_served r (s, true) = of_body-is_served world clock r.body
  after_auth-is_served r (s, false) = refl

  served_tests :
      (s : Server) (now : ℕ) (r : HttpRequest)
      → is_served (serve_http world clock s now r).1 ≡ true
      → (same r.path (codes "/mcp") ≡ true)
        × (r.is_post ≡ true)
        × ((check_auth s now r.authorization).1 ≡ true)
  unfolding serve_http
  served_tests s now r h = ground (arith, after_auth-is_served r (check_auth s now r.authorization))

  -- A request for the dispatcher meets none of the tests on the path.
  at_mcp :
      (s : Server) (now : ℕ) (r : HttpRequest)
      → r.path ≡ codes "/mcp"
      → r.is_post ≡ true
      → serve_http world clock s now r ≡ after_auth world clock r (check_auth s now r.authorization)
  unfolding serve_http same strip_prefix
  at_mcp s now r p q = rw (p, q) refl

-- The body of a request is read exactly if the request is a POST of `/mcp` that shows the static token,
-- or a token that the authorization server validates then, or reaches a server without either.
pub serve_http-Accepted :
    {F : Type 0} (world : World F) (clock : ℤ) (s : Server) (now : ℕ) (r : HttpRequest)
    → (is_served (serve_http world clock s now r).1 ≡ true)
      ↔ ((r.path ≡ codes "/mcp") × (r.is_post ≡ true) × Accepted s now r.authorization)
serve_http-Accepted world clock s now r = (
  λ h.
      let (path, post, ok) = served_tests world clock s now r h in
      ((same_iff r.path (codes "/mcp")).0 path, post, check_auth-Accepted s now r.authorization ok),
  λ (path, post, accepted).
      ap (λ x. is_served x.1) (at_mcp world clock s now r path post)
      ∙ after_auth-is_served world clock r (check_auth s now r.authorization)
      ∙ Accepted-check_auth s now r.authorization accepted,
)

bearer_cancel : (s t : Text) → bearer ++ s ≡ bearer ++ t → s ≡ t
bearer_cancel s t e =
    some-injective _ _ (
      sym (strip_prefix-append bearer s)
      ∙ ap (strip_prefix bearer) e
      ∙ strip_prefix-append bearer t)

-- After a revocation, whatever the server held before, a request that shows the token is not served,
-- unless it is the static token.
pub revoked_is_refused :
    {F : Type 0} (world : World F) (clock : ℤ) (s : Server) (o : OAuthServer) (now : ℕ)
    (token : Text) (r : HttpRequest)
    → s.oauth ≡ some (handle_revoke o (revocation_of token)).0
    → s.token ≢ token
    → r.authorization ≡ bearer ++ token
    → is_served (serve_http world clock s now r).1 ≡ false
revoked_is_refused world clock s o now token r revoked other shown =
    elim (Bool-cases (is_served (serve_http world clock s now r).1)) [
      | inl yes_served ↦ absurd (go ((serve_http-Accepted world clock s now r).0 yes_served).2)
      | inr e ↦ e
    ]
  where
    go : Accepted s now r.authorization → ⊥
    go (static_token nonempty e) = other (bearer_cancel s.token token (sym e ∙ shown))
    go (oauth_token o' t grant e f g) =
        let same_server : o' ≡ (handle_revoke o (revocation_of token)).0 =
          some-injective _ _ (sym e ∙ revoked) in
        let same_token : t ≡ token = bearer_cancel t token (sym f ∙ shown) in
        let gone : (validate_token (handle_revoke o (revocation_of token)).0 now token).1 ≡ none =
          rw (handle_revoke_lem o now token token, same_refl token) refl in
        cc (same_server, same_token, gone, g)
    go (open_mode e f) = cc

-- Two servers between which no token can tell, from an instant on.
abbrev pub SameOauth : ℕ → Option OAuthServer → Option OAuthServer → Type 0
SameOauth now none none = Unit
SameOauth now (some o) (some o') =
    (later : ℕ) (token : Text)
    → now ≤ later
    → (validate_token o' later token).1 ≡ (validate_token o later token).1
SameOauth now _ _ = ⊥

SameOauth-refl : (now : ℕ) (oauth : Option OAuthServer) → SameOauth now oauth oauth
SameOauth-refl now none = tt
SameOauth-refl now (some o) = λ later token h. refl

-- The second state of a pair keeps what the first one's tokens stand for.
abbrev Same : {A : Type 0} → ℕ → Server → Server × A → Type 0
Same now s (s', a) = (s'.token ≡ s.token) × SameOauth now s.oauth s'.oauth

Same-refl : {A : Type 0} (now : ℕ) (s : Server) (a : A) → Same now s (s, a)
Same-refl now s a = (refl, SameOauth-refl now s.oauth)

either : {A : Type 0} (P : A → Type 0) (b : Bool) (x y : A) → P x → P y → P (if b then x else y)
either P true x y p q = p
either P false x y p q = q

module _ (s : Server) (now : ℕ) (header : Text) where
  oauth_accepts-Same :
      (o : OAuthServer) (stripped : Option Text)
      → s.oauth ≡ some o
      → Same now s (oauth_accepts s now o stripped)
  oauth_accepts-Same o none e = Same-refl now s false
  oauth_accepts-Same o (some token) e = (
    refl,
    subst (λ oauth. SameOauth now oauth (some (validate_token o now token).0)) (sym e)
        (λ later other h. validate_token-keeps o now later token other h),
  )

  check_oauth-Same :
      (oauth : Option OAuthServer) → s.oauth ≡ oauth → Same now s (check_oauth s now header oauth)
  check_oauth-Same none e = Same-refl now s (same s.token [])
  check_oauth-Same (some o) e = oauth_accepts-Same o (strip_prefix bearer header) e

  check_auth-Same : Same now s (check_auth s now header)
  unfolding check_auth
  check_auth-Same =
      either (Same now s) (is_static s header) (s, true) (check_oauth s now header s.oauth)
        (Same-refl now s true) (check_oauth-Same s.oauth refl)

-- A request leaves the static token, and what every token validates to from then on.
pub serve_http-SameOauth :
    {F : Type 0} (world : World F) (clock : ℤ) (s : Server) (now : ℕ) (r : HttpRequest)
    → ((serve_http world clock s now r).0.token ≡ s.token)
      × SameOauth now s.oauth (serve_http world clock s now r).0.oauth
unfolding serve_http
serve_http-SameOauth world clock s now r = path (same r.path (codes "/healthz")) healthy elsewhere (
    path (is_some (strip_prefix (codes "/oauth/") r.path)) to_mux not_oauth (
      path (not (same r.path (codes "/mcp"))) http_not_found at_path
        (path (not r.is_post) method_not_allowed checked (check_auth-Same s now r.authorization))))
  where
    checked : Server × HttpReply
    checked = after_auth world clock r (check_auth s now r.authorization)

    at_path : Server × HttpReply
    at_path = if not r.is_post then (s, method_not_allowed) else checked

    not_oauth : Server × HttpReply
    not_oauth = if not (same r.path (codes "/mcp")) then (s, http_not_found) else at_path

    elsewhere : Server × HttpReply
    elsewhere = if is_some (strip_prefix (codes "/oauth/") r.path) then (s, to_mux) else not_oauth

    path :
        (b : Bool) (reply : HttpReply) (rest : Server × HttpReply)
        → Same now s rest
        → Same now s (if b then (s, reply) else rest)
    path b reply rest h = either (Same now s) b (s, reply) rest (Same-refl now s reply) h
