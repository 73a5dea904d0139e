-- ===== src/Auth/Accounts.antt =====
-- Passwords and accounts: `handleMerchantChangePassword`, `handleAdminChangePassword`,
-- `handleAdminResetMerchantPassword` and `handleAdminSetMerchantStatus`.
use second_hand_market_backe.Base.{
  ℕ, String, Bool, true, false, not, ◌&&◌, ◌||◌, none, some, List, [], ◌==◌,
}
use second_hand_market_backe.Base.Text.{codes, same_bytes, to_lower}
use second_hand_market_backe.Errors.{
  biz, internal, unauthorized, forbidden, conflict, invalid_argument, map_database_error, code_ok,
}
use second_hand_market_backe.Model.Status.{Time, AccountStatus, UserType, Role, same_user_type}
use second_hand_market_backe.Model.People.{AuthSession, MerchantAccount, MerchantAuditLog}
use second_hand_market_backe.Database.Tables.{
  auth_sessions, admin_users, merchant_accounts, merchant_audit_logs,
}
use second_hand_market_backe.Database.Gorm.{Action, Gorm}
use second_hand_market_backe.Database.Actions.{
  pure, lift, ◌>>=◌, ◌>>◌, fail_if, map_error, first, count, create, update, transaction,
}
use second_hand_market_backe.Request.{
  Actor, Context, Codec, actor_from_context, is_live, persist_operation_log,
}
use second_hand_market_backe.Session.{
  session_lookup_error, active_session_account, is_admin_role, is_live_session,
}
use second_hand_market_backe.Auth.Password.{valid_password}
use second_hand_market_backe.Auth.Tokens.{Crypto, or_internal}

-- `dto.UpdatePasswordRequest`; `adminPasswordRequest` has the same fields.
pub record UpdatePasswordRequest : Type 0 where
  pub old_password : List ℕ
  pub new_password : List ℕ

-- The sessions of an account.
unfoldable pub sessions_of : UserType → ℕ → AuthSession → Bool
sessions_of user_type user_id r = same_user_type r.user_type user_type && r.user_id == user_id

abbrev pub revoked : Time → AuthSession → AuthSession
revoked now r = record r { revoked_at = some now }

abbrev is_active : AccountStatus → Bool
is_active AccountStatus.active = true
is_active _ = false

abbrev is_owner : Role → Bool
is_owner Role.owner = true
is_owner _ = false

-- The account of the owner of a merchant.
unfoldable pub is_owner_account : ℕ → MerchantAccount → Bool
is_owner_account merchant_id r =
    r.merchant_id == merchant_id && is_owner r.role && is_live r.deleted_at

-- What `updateMerchantAccount` is called with.
pub data AccountChange : Type 0 where
  reset_password : List ℕ → AccountChange
  set_status : AccountStatus → AccountChange

abbrev change_account : AccountChange → MerchantAccount → MerchantAccount
change_account (reset_password hash) r = record r {
  password_hash = hash;
  must_change_password = true;
}
change_account (set_status status) r = record r { status = status }

abbrev change_action : AccountChange → String
change_action (reset_password hash) = "RESET_PASSWORD"
change_action (set_status status) = "SET_ACCOUNT_STATUS"

unfoldable pub account_status_text : AccountStatus → String
account_status_text AccountStatus.active = "ACTIVE"
account_status_text AccountStatus.disabled = "DISABLED"
account_status_text (AccountStatus.other s) = s

module _ (g : Gorm) (k : Crypto) (j : Codec) (c : Context) where
  -- The transaction of `handleMerchantChangePassword`.
  unfoldable pub store_merchant_password : MerchantAccount → List ℕ → Action (Unit {0})
  store_merchant_password acct hash = do
    rows ←
        update g merchant_accounts
          (λ r.
            r.id == acct.id
            && same_bytes r.password_hash acct.password_hash
            && is_live r.deleted_at)
          (λ r. record r { password_hash = hash; must_change_password = false })
    fail_if (not (rows == 1)) conflict
    update g auth_sessions (sessions_of UserType.merchant acct.id) (revoked (c.now 0))
    pure tt

  unfoldable pub merchant_change_password : UpdatePasswordRequest → Action (Unit {0})
  merchant_change_password req = do
    actor ← lift (actor_from_context c)
    acct ←
        map_error map_database_error
          (first g merchant_accounts (λ r. r.id == actor.user_id && is_live r.deleted_at))
    fail_if (not (k.compare_hash acct.password_hash req.old_password)) invalid_argument
    fail_if (not (valid_password req.new_password) || same_bytes req.new_password req.old_password)
        invalid_argument
    hash ← lift (or_internal (k.generate_hash req.new_password))
    map_error (λ _. biz internal) (transaction g (store_merchant_password acct hash))

  -- The transaction of `handleAdminChangePassword`.
  unfoldable pub store_admin_password : Actor → UpdatePasswordRequest → List ℕ → Action (Unit {0})
  store_admin_password actor req hash = do
    account ←
        map_error session_lookup_error
          (first g admin_users (λ r. r.id == actor.user_id && is_live r.deleted_at))
    lift (active_session_account account.status)
    fail_if (not (is_admin_role account.role)) forbidden
    active ←
        count g auth_sessions (is_live_session (c.now 0) actor.session_id UserType.admin account.id)
    fail_if (not (active == 1)) unauthorized
    fail_if (not (k.compare_hash account.password_hash req.old_password)) invalid_argument
    rows ←
        update g admin_users
          (λ r.
            r.id == account.id
            && same_bytes r.password_hash account.password_hash
            && is_active r.status
            && is_live r.deleted_at)
          (λ r. record r { password_hash = hash })
    fail_if (not (rows == 1)) conflict
    update g auth_sessions (λ r. sessions_of UserType.admin account.id r && is_live r.revoked_at)
        (revoked (c.now 0))
    persist_operation_log g j c (record {
      resource_type = "admin_user";
      resource_id = account.id;
      action = "admin_password_change";
      from_status = none;
      to_status = none;
      code = code_ok;
      merchant_id = none;
      detail = [];
    })

  -- The new password may not be the first one that the deployment sets, in any case of letters.
  unfoldable pub admin_change_password : UpdatePasswordRequest → Action (Unit {0})
  admin_change_password req = do
    actor ← lift (actor_from_context c)
    fail_if (not (same_user_type actor.user_type UserType.admin)) forbidden
    fail_if
        (not (valid_password req.new_password)
          || same_bytes req.new_password req.old_password
          || same_bytes (to_lower req.new_password) (to_lower (codes "Admin@123456")))
        invalid_argument
    hash ← lift (or_internal (k.generate_hash req.new_password))
    map_error map_database_error (transaction g (store_admin_password actor req hash))

  -- The row of the history of a merchant.
  abbrev audit_row : Actor → ℕ → AccountChange → MerchantAccount → MerchantAuditLog
  audit_row actor id change account = record {
    id = 0;
    merchant_id = id;
    action = change_action change;
    from_status = account_status_text account.status;
    to_status = account_status_text (change_account change account).status;
    reason = none;
    operator_type = UserType.admin;
    operator_id = actor.user_id;
  }

  unfoldable pub update_merchant_account_body : Actor → ℕ → AccountChange → Action (Unit {0})
  update_merchant_account_body actor id change = do
    account ← first g merchant_accounts (is_owner_account id)
    update g merchant_accounts (λ r. r.id == account.id && is_live r.deleted_at)
        (change_account change)
    update g auth_sessions (sessions_of UserType.merchant account.id) (revoked (c.now 0))
    create g merchant_audit_logs (audit_row actor id change account)
    pure tt

  unfoldable pub update_merchant_account : ℕ → AccountChange → Action (Unit {0})
  update_merchant_account id change = do
    actor ← lift (actor_from_context c)
    map_error map_database_error (transaction g (update_merchant_account_body actor id change))

  unfoldable pub reset_merchant_password : ℕ → List ℕ → Action (Unit {0})
  reset_merchant_password id password = do
    fail_if (not (valid_password password)) invalid_argument
    hash ← lift (or_internal (k.generate_hash password))
    update_merchant_account id (reset_password hash)
