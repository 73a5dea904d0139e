-- ===== src/Auth/Tokens.antt =====
-- Login, refresh and logout: backend/internal/app/auth_handlers.go and backend/internal/auth/jwt.go.
use package.text.Mathlib.Text.{◌==◌ as str_eq}
use second_hand_market_backe.Base.{
  ℕ, String, Bool, true, false, not, ◌&&◌, Option, none, some, List, [], ◌∷◌, ◌==◌,
}
use second_hand_market_backe.Base.Int.{ℤ, pos, ◌+ℤ◌}
use second_hand_market_backe.Base.Text.{same_bytes}
use second_hand_market_backe.Errors.{Result, ok, err, biz, internal, unauthorized, account_disabled}
use second_hand_market_backe.Model.Status.{Time, AccountStatus, ReviewStatus, UserType, Role, Scope}
use second_hand_market_backe.Model.Shop.{number, text, bytes, flag}
use second_hand_market_backe.Model.People.{AuthSession}
use second_hand_market_backe.Database.Tables.{
  auth_sessions, admin_users, merchant_accounts, merchants,
}
use second_hand_market_backe.Database.Gorm.{Action, Gorm}
use second_hand_market_backe.Database.Actions.{
  pure, lift, ◌>>=◌, ◌>>◌, fail_if, map_error, attempt, first, create, update, transaction,
}
use second_hand_market_backe.Request.{Context, Fields, actor_from_context, is_live}
use second_hand_market_backe.Session.{
  session_lookup_error, active_session_account, is_admin_role, resolve_session_identity,
}

-- `auth.AccessClaims`, less the registered claims.
pub record AccessClaims : Type 0 where
  pub user_id : ℕ
  pub user_type : UserType
  pub role : Role
  pub merchant_id : ℕ
  pub scope : Scope
  pub session_id : ℕ

-- `auth.RefreshClaims`, less the registered claims.
pub record RefreshClaims : Type 0 where
  pub user_id : ℕ
  pub user_type : UserType
  pub session_id : ℕ

-- The JWT library with the server's secrets, bcrypt, SHA-256 and the lifetimes of the configuration.
pub record Crypto : Type 0 where
  -- a token signed at a time, with its end
  pub sign_access : AccessClaims → Time → Time → Option (List ℕ)
  pub sign_refresh : RefreshClaims → Time → Time → Option (List ℕ)
  pub parse_refresh : List ℕ → Option RefreshClaims
  pub compare_hash : List ℕ → List ℕ → Bool
  pub generate_hash : List ℕ → Option (List ℕ)
  pub sha256 : List ℕ → List ℕ
  pub access_ttl : ℤ
  pub refresh_ttl : ℤ

-- `auth.BuildRefreshToken`: the token and its end.
unfoldable pub build_refresh_token : Crypto → RefreshClaims → Time → Option (List ℕ × Time)
build_refresh_token k claims now = elim (k.sign_refresh claims now (now +ℤ k.refresh_ttl)) [
  | none ↦ none
  | some signed ↦ some (signed, now +ℤ k.refresh_ttl)
]

-- `auth.BuildAccessToken`
unfoldable pub build_access_token : Crypto → AccessClaims → Time → Option (List ℕ × Time)
build_access_token k claims now = elim (k.sign_access claims now (now +ℤ k.access_ttl)) [
  | none ↦ none
  | some signed ↦ some (signed, now +ℤ k.access_ttl)
]

-- `if err != nil { return …, common.ErrInternal }`
unfoldable pub or_internal : {A : Type 0} → Option A → Result A
or_internal none = err (biz internal)
or_internal (some a) = ok a

-- `dto.LoginRequest`, less its type, which names the handler.
pub record LoginRequest : Type 0 where
  pub username : String
  pub password : List ℕ

abbrev pub role_text : Role → String
role_text Role.super_admin = "SUPER_ADMIN"
role_text Role.admin = "ADMIN"
role_text Role.owner = "OWNER"
role_text Role.staff = "STAFF"
role_text Role.buyer = "BUYER"
role_text (Role.other s) = s

-- `acct.Status == model.AccountStatusDisabled`
abbrev is_disabled : AccountStatus → Bool
is_disabled AccountStatus.disabled = true
is_disabled _ = false

-- The scope of a merchant's token at login.
unfoldable pub login_scope : ReviewStatus → Scope
login_scope ReviewStatus.approved = Scope.full
login_scope _ = Scope.onboarding

-- The session that `issueTokensWithDB` creates.
new_session : Context → Crypto → UserType → ℕ → AuthSession
new_session c k user_type user_id = record {
  id = 0;
  user_type = user_type;
  user_id = user_id;
  refresh_token_hash = [];
  device_info = none;
  ip = some c.client_ip;
  expired_at = c.now 0 +ℤ k.refresh_ttl;
  revoked_at = none;
}

abbrev tokens : Crypto → List ℕ → List ℕ → Fields
tokens k access refresh =
    ("access_token", bytes access)
    ∷ ("refresh_token", bytes refresh)
    ∷ ("expires_in", number k.access_ttl)
    ∷ []

module _ (g : Gorm) (k : Crypto) (c : Context) where
  unfoldable pub issue_tokens_with_db : UserType → ℕ → Role → ℕ → Scope → Action Fields
  unfolding new_session
  issue_tokens_with_db user_type user_id role merchant_id scope = do
    session ←
        map_error (λ _. biz internal) (create g auth_sessions (new_session c k user_type user_id))
    refresh ← lift (
        or_internal (
          build_refresh_token k
            (record { user_id = user_id; user_type = user_type; session_id = session.id })
            (c.now 1)))
    map_error (λ _. biz internal)
        (update g auth_sessions (λ r. r.id == session.id)
          (λ r. record r { refresh_token_hash = k.sha256 refresh.0; expired_at = refresh.1 }))
    access ← lift (
        or_internal (
          build_access_token k
            (record {
              user_id = user_id;
              user_type = user_type;
              role = role;
              merchant_id = merchant_id;
              scope = scope;
              session_id = session.id;
            })
            (c.now 2)))
    pure (tokens k access.0 refresh.0)

  unfoldable pub admin_login : LoginRequest → Action Fields
  admin_login req = transaction g (do
    admin ←
        map_error session_lookup_error
          (first g admin_users (λ r. str_eq r.username req.username && is_live r.deleted_at))
    lift (active_session_account admin.status)
    fail_if (not (is_admin_role admin.role)) unauthorized
    fail_if (not (k.compare_hash admin.password_hash req.password)) unauthorized
    issued ← issue_tokens_with_db UserType.admin admin.id admin.role 0 Scope.full
    update g admin_users (λ r. r.id == admin.id && is_live r.deleted_at)
        (λ r. record r { last_login_at = some (c.now 3) })
    pure (("user_id", number (pos admin.id)) ∷ ("role", text (role_text admin.role)) ∷ issued))

  -- The steps are no transaction. An error of the last statement is not looked at.
  unfoldable pub merchant_login : LoginRequest → Action Fields
  merchant_login req = do
    acct ←
        map_error (λ _. biz unauthorized)
          (first g merchant_accounts (λ r. str_eq r.username req.username && is_live r.deleted_at))
    fail_if (is_disabled acct.status) account_disabled
    fail_if (not (k.compare_hash acct.password_hash req.password)) unauthorized
    merchant ←
        map_error (λ _. biz unauthorized)
          (first g merchants (λ r. r.id == acct.merchant_id && is_live r.deleted_at))
    let scope = login_scope merchant.review_status
    issued ← issue_tokens_with_db UserType.merchant acct.id acct.role merchant.id scope
    attempt (
        update g merchant_accounts (λ r. r.id == acct.id && is_live r.deleted_at)
          (λ r. record r { last_login_at = some (c.now 3) }))
    pure (
        ("user_id", number (pos acct.id))
        ∷ ("role", text (role_text acct.role))
        ∷ ("merchant_id", number (pos merchant.id))
        ∷ ("must_change_password", flag acct.must_change_password)
        ∷ issued)

  -- A refresh replaces the token of its session.
  unfoldable pub handle_refresh : List ℕ → Action Fields
  handle_refresh refresh_token = do
    claims ←
        lift
          (elim (k.parse_refresh refresh_token) [ none ↦ err (biz unauthorized) | some x ↦ ok x ])
    identity ←
        resolve_session_identity g claims.session_id claims.user_id (c.now 0) claims.user_type
    fail_if (not (same_bytes identity.session.refresh_token_hash (k.sha256 refresh_token)))
        unauthorized
    refresh ← lift (
        or_internal (
          build_refresh_token k
            (record {
              user_id = claims.user_id;
              user_type = claims.user_type;
              session_id = identity.session.id;
            })
            (c.now 1)))
    access ← lift (
        or_internal (
          build_access_token k
            (record {
              user_id = claims.user_id;
              user_type = claims.user_type;
              role = identity.actor.role;
              merchant_id = identity.actor.merchant_id;
              scope = identity.actor.scope;
              session_id = identity.session.id;
            })
            (c.now 2)))
    map_error (λ _. biz internal)
        (update g auth_sessions (λ r. r.id == identity.session.id)
          (λ r. record r { refresh_token_hash = k.sha256 refresh.0; expired_at = refresh.1 }))
    pure (tokens k access.0 refresh.0)

  unfoldable pub handle_logout : Action (Unit {0})
  handle_logout = do
    actor ← lift (actor_from_context c)
    map_error (λ _. biz internal)
        (update g auth_sessions (λ r. r.id == actor.session_id)
          (λ r. record r { revoked_at = some (c.now 0) }))
    pure tt
