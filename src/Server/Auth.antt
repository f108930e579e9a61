-- ===== src/Server/Auth.antt =====
-- `basicAuthMidleware`.
use clickhouse_backup.Base.{
  Text, codes, ◌==◌, ==_iff, ◌≡◌, ◌↔◌, ◌⊎◌, true, false, not, ◌&&◌, ◌||◌, List, [], arith,
  if◌then◌else◌,
}
use clickhouse_backup.Base.Maps.{lookup}
use clickhouse_backup.Base.Paths.{is_empty}
use clickhouse_backup.Config.{ApiConfig}
use clickhouse_backup.Server.Handlers.{text_or}
use clickhouse_backup.Server.Response.{Writer, line, fresh_writer, write, write_header, set_header}

-- The credentials of a request: those of its `Authorization` header (empty if there is none), and
-- the first values of `user` and `pass` in the query, which take precedence.
pub record Credentials : Type 0 where
  pub basic_user : Text
  pub basic_pass : Text
  pub query : List (Text × Text)

abbrev pub user_of : Credentials → Text
user_of c = text_or (lookup (codes "user") c.query) c.basic_user

abbrev pub pass_of : Credentials → Text
pass_of c = text_or (lookup (codes "pass") c.query) c.basic_pass

abbrev unauthorized : Writer
unauthorized = write (line (codes "401 Unauthorized")) (
    write_header 401 (
      set_header (codes "WWW-Authenticate") (codes "Basic realm=\"Provide username and password\"")
        fresh_writer))

-- The middleware in front of a handler that it calls or does not call.
unfoldable pub basic_auth_middleware {ℓ} :
    {A : Type ℓ} → ApiConfig → Credentials → (Writer → A) → A → A
basic_auth_middleware config c refuse next =
    if is_empty config.username && is_empty config.password
    then next
    else if not (user_of c == config.username) || not (pass_of c == config.password)
    then refuse unauthorized
    else next

-- A request is let through exactly if no credentials are configured, or if its own are those
-- configured.
pub basic_auth_middleware_iff :
    (config : ApiConfig) (c : Credentials)
    → (basic_auth_middleware config c (λ w. false) true ≡ true) ↔ (
        ((config.username ≡ []) × (config.password ≡ []))
        ⊎ ((user_of c ≡ config.username) × (pass_of c ≡ config.password)))
unfolding basic_auth_middleware
basic_auth_middleware_iff config c = (
  λ h. ground (arith, ==_iff (user_of c) config.username, ==_iff (pass_of c) config.password),
  λ h. ground (arith, ==_iff (user_of c) config.username, ==_iff (pass_of c) config.password),
)
