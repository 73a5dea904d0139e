-- ===== src/Model/People.antt =====
-- Rows of the tables of merchants, accounts and sessions.
use second_hand_market_backe.Base.{ℕ, String, Bool, Option, List}
use second_hand_market_backe.Model.Status.{Time, ReviewStatus, AccountStatus, UserType, Role}

pub record Merchant : Type 0 where
  pub id : ℕ
  pub merchant_no : List ℕ
  pub merchant_name : String
  pub contact_name : String
  pub contact_phone : String
  pub contact_email : Option String
  pub license_no : Option String
  pub license_file_id : Option ℕ
  pub review_status : ReviewStatus
  pub reject_reason : Option String
  pub reviewed_by : Option ℕ
  pub reviewed_at : Option Time
  pub deleted_at : Option Time

pub record MerchantAccount : Type 0 where
  pub id : ℕ
  pub must_change_password : Bool
  pub merchant_id : ℕ
  pub username : String
  pub password_hash : List ℕ
  pub role : Role
  pub status : AccountStatus
  pub last_login_at : Option Time
  pub deleted_at : Option Time

pub record AdminUser : Type 0 where
  pub id : ℕ
  pub username : String
  pub password_hash : List ℕ
  pub display_name : String
  pub role : Role
  pub status : AccountStatus
  pub last_login_at : Option Time
  pub deleted_at : Option Time

pub record MerchantAuditLog : Type 0 where
  pub id : ℕ
  pub merchant_id : ℕ
  pub action : String
  pub from_status : String
  pub to_status : String
  pub reason : Option String
  pub operator_type : UserType
  pub operator_id : ℕ

pub record AuthSession : Type 0 where
  pub id : ℕ
  pub user_type : UserType
  pub user_id : ℕ
  pub refresh_token_hash : List ℕ
  pub device_info : Option String
  pub ip : Option String
  pub expired_at : Time
  pub revoked_at : Option Time

pub record BuyerUser : Type 0 where
  pub id : ℕ
  pub buyer_no : String
  pub auth_provider : String
  pub openid : String
  pub unionid : Option String
  pub nickname : Option String
  pub avatar_url : Option String
  pub phone : Option String
  pub status : AccountStatus
  pub last_login_at : Option Time
  pub deleted_at : Option Time
