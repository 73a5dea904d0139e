-- ===== src/Tests/Auth.antt =====
-- The theorems about passwords and sessions at concrete requests, on the database in memory.
use second_hand_market_backe.Base.{◌≡◌, ◌≢◌, refl, true, none, some, [], ◌∷◌, keep, false}
use second_hand_market_backe.Base.Int.{pos}
use second_hand_market_backe.Base.Text.{codes, same_bytes}
use second_hand_market_backe.Errors.{ok}
use second_hand_market_backe.Model.Status.{UserType, AccountStatus, same_user_type}
use second_hand_market_backe.Database.Tables.{Name, put}
use second_hand_market_backe.Database.Actions.{
  pure, ◌>>=◌, lift, transaction, map_error, first, find_rows, fail_if, create, update,
  head_or_missing, write,
}
use second_hand_market_backe.Request.{actor_from_context}
use second_hand_market_backe.Session.{SessionIdentity, resolve_session_identity}
use second_hand_market_backe.Auth.Password.{
  IsStrong, scan_password, valid_password, valid_password-IsStrong,
}
use second_hand_market_backe.Auth.Tokens.{Crypto, or_internal, handle_logout}
use second_hand_market_backe.Auth.Accounts.{
  UpdatePasswordRequest, set_status, sessions_of, is_owner_account, store_merchant_password,
  merchant_change_password, update_merchant_account_body, update_merchant_account,
}
use second_hand_market_backe.Auth.Revoked.{
  handle_logout-resolve, merchant_change_password-resolve, update_merchant_account-resolve,
}
use second_hand_market_backe.Tests.Memory.{memory, memory-IsGorm}
use second_hand_market_backe.Tests.Data.{
  market, shop_owner, request_of_ada, one_answer, ada_account, ada_session,
}

accepted : valid_password (codes "abcdefghij12") ≡ true
unfolding valid_password scan_password
accepted = refl

valid_password-IsStrong_example : IsStrong (codes "abcdefghij12")
valid_password-IsStrong_example = valid_password-IsStrong (codes "abcdefghij12") accepted

-- Passwords are stored as they are.
abbrev plain : Crypto
plain = record {
  sign_access = λ claims from until. some [];
  sign_refresh = λ claims from until. some [];
  parse_refresh = λ token. none;
  compare_hash = same_bytes;
  generate_hash = λ password. some password;
  sha256 = λ token. token;
  access_ttl = pos 10;
  refresh_ttl = pos 20;
}

abbrev ada_identity : SessionIdentity
ada_identity = record { actor = shop_owner; session = ada_session; must_change_password = false }

logged_out :
    handle_logout memory plain request_of_ada market
    ≡ (ok tt, (handle_logout memory plain request_of_ada market).1)
unfolding handle_logout ◌>>=◌ lift actor_from_context map_error update memory pure
logged_out = refl

handle_logout-resolve_example :
    (resolve_session_identity memory 9 4
      (pos 5)
      UserType.merchant
      (handle_logout memory plain request_of_ada market).1).0
    ≢ ok ada_identity
handle_logout-resolve_example =
    handle_logout-resolve memory memory-IsGorm plain request_of_ada shop_owner tt market _ refl
      logged_out (pos 5) 4 UserType.merchant ada_identity

abbrev new_password : UpdatePasswordRequest
new_password = record { old_password = codes "x"; new_password = codes "abcdefghij12" }

password_changed :
    merchant_change_password memory plain (one_answer []) request_of_ada new_password market ≡ (
      ok tt,
      (merchant_change_password memory plain (one_answer []) request_of_ada new_password market).1,
    )
unfolding merchant_change_password ◌>>=◌ lift actor_from_context map_error first memory fail_if
    same_bytes valid_password scan_password or_internal transaction store_merchant_password update
    sessions_of same_user_type find_rows head_or_missing pure write put
password_changed = refl

merchant_change_password-resolve_example :
    (resolve_session_identity memory 9 4
      (pos 5)
      UserType.merchant
      (merchant_change_password memory plain
        (one_answer [])
        request_of_ada
        new_password
        market).1).0
    ≢ ok ada_identity
merchant_change_password-resolve_example =
    merchant_change_password-resolve memory memory-IsGorm plain (one_answer []) request_of_ada
      shop_owner new_password tt market _ refl password_changed (pos 5) 9 ada_identity

owner_found : keep (is_owner_account 7) (market Name.merchant_accounts) ≡ ada_account ∷ []
unfolding is_owner_account
owner_found = refl

account_disabled_by_admin :
    update_merchant_account memory plain
      (one_answer [])
      request_of_ada
      7
      (set_status AccountStatus.disabled)
      market
    ≡ (
      ok tt,
      (update_merchant_account memory plain
          (one_answer [])
          request_of_ada
          7
          (set_status AccountStatus.disabled)
          market).1,
    )
unfolding update_merchant_account ◌>>=◌ lift actor_from_context map_error transaction memory
    update_merchant_account_body first is_owner_account update sessions_of same_user_type create
    pure
account_disabled_by_admin = refl

update_merchant_account-resolve_example :
    (resolve_session_identity memory 9 4
      (pos 5)
      UserType.merchant
      (update_merchant_account memory plain
        (one_answer [])
        request_of_ada
        7
        (set_status AccountStatus.disabled)
        market).1).0
    ≢ ok ada_identity
update_merchant_account-resolve_example =
    update_merchant_account-resolve memory memory-IsGorm plain (one_answer []) request_of_ada 7
      (set_status AccountStatus.disabled) ada_account [] tt market _ owner_found
      account_disabled_by_admin (pos 5) 9 ada_identity
