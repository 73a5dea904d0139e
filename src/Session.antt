-- ===== src/Session.antt =====
-- backend/internal/app/session_guard.go and backend/internal/middleware/auth.go: who a request is
-- made by. The token names a session and an account; what the actor may do is read from the
-- database.
pub mod Authority
use text.Mathlib.Text.{◌==◌ as str_eq}
use second_hand_market_backe.Base.{
  ℕ, String, Bool, true, false, not, ◌&&◌, ◌||◌, Option, none, some, List, [], ◌∷◌, ◌==◌,
  if◌then◌else◌,
}
use second_hand_market_backe.Base.Int.{ltb_ℤ}
use second_hand_market_backe.Base.Text.{codes, is_blank, same_bytes, to_lower}
use second_hand_market_backe.Errors.{
  Error, Result, ok, err, biz, BizError, internal, unauthorized, forbidden, account_disabled,
  review_not_approved, is_record_not_found,
}
use second_hand_market_backe.Model.Status.{
  Time, AccountStatus, ReviewStatus, UserType, Role, Scope, same_user_type, same_scope,
}
use second_hand_market_backe.Model.People.{AuthSession}
use second_hand_market_backe.Database.Tables.{
  auth_sessions, admin_users, merchant_accounts, merchants, buyer_users,
}
use second_hand_market_backe.Database.Gorm.{Action, Gorm}
use second_hand_market_backe.Database.Actions.{
  pure, lift, raise, ◌>>=◌, ◌>>◌, fail_if, map_error, first,
}
use second_hand_market_backe.Request.{Actor, is_live}

-- `type sessionIdentity`
pub record SessionIdentity : Type 0 where
  pub actor : Actor
  pub session : AuthSession
  pub must_change_password : Bool

unfoldable pub session_lookup_error : Error → Error
session_lookup_error e = if is_record_not_found e then biz unauthorized else biz internal

unfoldable pub active_session_account : AccountStatus → Result (Unit {0})
active_session_account AccountStatus.active = ok tt
active_session_account AccountStatus.disabled = err (biz account_disabled)
active_session_account (AccountStatus.other s) = err (biz unauthorized)

abbrev pub has_account : UserType → Bool
has_account UserType.admin = true
has_account UserType.merchant = true
has_account UserType.buyer = true
has_account _ = false

abbrev pub is_admin_role : Role → Bool
is_admin_role Role.admin = true
is_admin_role Role.super_admin = true
is_admin_role _ = false

abbrev pub is_account_role : Role → Bool
is_account_role Role.owner = true
is_account_role Role.staff = true
is_account_role _ = false

-- The scope that goes with the review of a merchant.
unfoldable pub review_scope : ReviewStatus → Result Scope
review_scope ReviewStatus.approved = ok Scope.full
review_scope ReviewStatus.pending = ok Scope.onboarding
review_scope ReviewStatus.rejected = ok Scope.onboarding
review_scope ReviewStatus.disabled = err (biz review_not_approved)
review_scope (ReviewStatus.other s) = err (biz unauthorized)

-- The session of a token that is neither revoked nor past its time.
unfoldable pub is_live_session : Time → ℕ → UserType → ℕ → AuthSession → Bool
is_live_session now session_id user_type user_id r =
    r.id == session_id
    && r.user_id == user_id
    && same_user_type r.user_type user_type
    && is_live r.revoked_at
    && ltb_ℤ now r.expired_at

module _ (g : Gorm) (session_id : ℕ) (user_id : ℕ) where
  abbrev identity_of : UserType → Role → ℕ → Scope → AuthSession → Bool → SessionIdentity
  identity_of user_type role merchant_id scope session must = record {
    actor = record {
      user_id = user_id;
      user_type = user_type;
      role = role;
      merchant_id = merchant_id;
      scope = scope;
      session_id = session_id;
    };
    session = session;
    must_change_password = must;
  }

  -- The `switch` on the kind of user.
  unfoldable pub resolve_account : UserType → AuthSession → Action SessionIdentity
  resolve_account UserType.admin session = do
    account ←
        map_error session_lookup_error
          (first g admin_users (λ r. r.id == user_id && is_live r.deleted_at))
    lift (active_session_account account.status)
    fail_if (not (is_admin_role account.role)) unauthorized
    pure (identity_of UserType.admin account.role 0 Scope.full session false)
  resolve_account UserType.merchant session = do
    account ←
        map_error session_lookup_error
          (first g merchant_accounts (λ r. r.id == user_id && is_live r.deleted_at))
    lift (active_session_account account.status)
    fail_if (account.merchant_id == 0 || not (is_account_role account.role)) unauthorized
    merchant ←
        map_error session_lookup_error
          (first g merchants (λ r. r.id == account.merchant_id && is_live r.deleted_at))
    scope ← lift (review_scope merchant.review_status)
    pure (
        identity_of UserType.merchant account.role account.merchant_id scope session
          account.must_change_password)
  resolve_account UserType.buyer session = do
    buyer ←
        map_error session_lookup_error
          (first g buyer_users (λ r. r.id == user_id && is_live r.deleted_at))
    lift (active_session_account buyer.status)
    pure (identity_of UserType.buyer Role.buyer 0 Scope.full session false)
  resolve_account t session = pure (identity_of t (Role.other "") 0 Scope.full session false)

  -- `resolveSessionIdentity`
  unfoldable pub resolve_session_identity : Time → UserType → Action SessionIdentity
  resolve_session_identity now user_type = do
    fail_if (session_id == 0 || user_id == 0) unauthorized
    fail_if (not (has_account user_type)) unauthorized
    session ←
        map_error session_lookup_error
          (first g auth_sessions (is_live_session now session_id user_type user_id))
    fail_if (is_blank session.refresh_token_hash) unauthorized
    resolve_account user_type session

-- `err != common.ErrInternal` becomes an invalid token.
unfoldable pub guard_error : Error → Error
guard_error (biz internal) = biz internal
guard_error _ = biz unauthorized

-- The routes that are open before a password is changed.
unfoldable pub allowed_before_password : String → Bool
allowed_before_password path =
    str_eq path "/api/v1/merchant/account"
    || str_eq path "/api/v1/merchant/account/password"
    || str_eq path "/api/v1/auth/logout"
    || str_eq path "/api/v1/auth/refresh"

-- `sessionGuard`: the actor with which the request goes on.
unfoldable pub session_guard : Gorm → Time → String → Option Actor → Action (Option Actor)
session_guard g now path none = pure none
session_guard g now path (some actor) = do
  identity ←
      map_error guard_error
        (resolve_session_identity g actor.session_id actor.user_id now actor.user_type)
  fail_if (identity.must_change_password && not (allowed_before_password path)) forbidden
  pure (some identity.actor)

-- `strings.SplitN(head, " ", 2)`, where it has two parts.
unfoldable pub cut_space : List ℕ → Option (List ℕ × List ℕ)
cut_space [] = none
cut_space (c ∷ s) =
    let rest = cut_space s in
    if c == b' ' then some ([], s) else elim rest [ none ↦ none | some (a, b) ↦ some (c ∷ a, b) ]

-- `OptionalAuth`, with the claims that `auth.ParseAccessToken` reads from a token.
unfoldable pub optional_auth : (List ℕ → Option Actor) → List ℕ → Result (Option Actor)
optional_auth parse [] = ok none
optional_auth parse (c ∷ s) = elim (cut_space (c ∷ s)) [
  | none ↦ err (biz unauthorized)
  | some (scheme, token) ↦
      if same_bytes (to_lower scheme) (codes "bearer")
      then elim (parse token) [ none ↦ err (biz unauthorized) | some a ↦ ok (some a) ]
      else err (biz unauthorized)
]

abbrev has_type : UserType → List UserType → Bool
has_type t [] = false
has_type t (u ∷ us) = same_user_type u t || has_type t us

abbrev has_scope : Scope → List Scope → Bool
has_scope t [] = false
has_scope t (u ∷ us) = same_scope u t || has_scope t us

abbrev is_empty : {A : Type 0} → List A → Bool
is_empty [] = true
is_empty (x ∷ xs) = false

unfoldable pub require_auth : List UserType → Option Actor → Result Actor
require_auth types none = err (biz unauthorized)
require_auth types (some a) =
    if not (is_empty types) && not (has_type a.user_type types) then err (biz forbidden) else ok a

unfoldable pub require_full_merchant_scope : Option Actor → Result Actor
require_full_merchant_scope none = err (biz unauthorized)
require_full_merchant_scope (some a) =
    if not (same_user_type a.user_type UserType.merchant)
    then err (biz unauthorized)
    else if not (same_scope a.scope Scope.full)
    then err (biz review_not_approved)
    else ok a

unfoldable pub require_merchant_scope : List Scope → Option Actor → Result Actor
require_merchant_scope scopes none = err (biz unauthorized)
require_merchant_scope scopes (some a) =
    if not (same_user_type a.user_type UserType.merchant)
    then err (biz unauthorized)
    else if not (is_empty scopes) && not (has_scope a.scope scopes)
    then err (biz forbidden)
    else ok a
