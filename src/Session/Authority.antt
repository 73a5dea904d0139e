-- ===== src/Session/Authority.antt =====
-- What an actor of backend/internal/app/session_guard.go rests on: a live session and the account's
-- rows as they are now.
use second_hand_market_backe.Base.{
  ℕ, String, ◌≡◌, sym, ◌∙◌, ap, false, not, ◌&&◌, none, some, List, ◌∷◌, ◌==◌, arith, keep, subst,
}
use second_hand_market_backe.Base.Text.{is_blank}
use second_hand_market_backe.Errors.{ok}
use second_hand_market_backe.Model.Status.{
  Time, AccountStatus, ReviewStatus, UserType, Scope, same_user_type, same_scope,
}
use second_hand_market_backe.Model.People.{AuthSession, MerchantAccount, Merchant}
use second_hand_market_backe.Database.Tables.{
  Db, auth_sessions, merchant_accounts, merchants, admin_users, buyer_users,
}
use second_hand_market_backe.Database.Gorm.{Gorm, IsGorm}
use second_hand_market_backe.Database.Invert.{
  bind-ok, map_error-ok, first-ok, fail_if-ok, lift-ok, pure-ok,
}
use second_hand_market_backe.Request.{Actor, is_live}
use second_hand_market_backe.Session.{
  SessionIdentity, active_session_account, review_scope, is_live_session, resolve_account,
  resolve_session_identity, session_guard, require_full_merchant_scope,
}

-- The account of a merchant's actor, and the merchant of the account, as they stand in `s`.
pub record IsMerchantAuthority (s : Db) (user_id : ℕ) (a : Actor) : Type 0 where
  pub account : MerchantAccount
  pub other_accounts : List MerchantAccount
  pub account_found :
      keep (λ r. r.id == user_id && is_live r.deleted_at) (s merchant_accounts)
      ≡ account ∷ other_accounts
  pub account_active : account.status ≡ AccountStatus.active
  pub merchant : Merchant
  pub other_merchants : List Merchant
  pub merchant_found :
      keep (λ r. r.id == account.merchant_id && is_live r.deleted_at) (s merchants)
      ≡ merchant ∷ other_merchants
  pub scope_of_review : review_scope merchant.review_status ≡ ok a.scope
  pub own_merchant : a.merchant_id ≡ account.merchant_id
  pub own_role : a.role ≡ account.role
  pub own_type : a.user_type ≡ UserType.merchant

-- The session of an identity, as it stands in `s`.
pub record IsLiveIdentity (s : Db) (now : Time) (session_id : ℕ) (user_id : ℕ) (t : UserType)
    (i : SessionIdentity) : Type 0 where
  pub others : List AuthSession
  pub found : keep (is_live_session now session_id t user_id) (s auth_sessions) ≡ i.session ∷ others
  pub own_type : i.actor.user_type ≡ t
  pub hashed : is_blank i.session.refresh_token_hash ≡ false
  pub authority : t ≡ UserType.merchant → IsMerchantAuthority s user_id i.actor

active-ok :
    (x : AccountStatus) (u : Unit {0}) → active_session_account x ≡ ok u → x ≡ AccountStatus.active
unfolding active_session_account
active-ok x u h = ground arith

module _ (g : Gorm) (laws : IsGorm g) (session_id user_id : ℕ) where
  merchant-IsMerchantAuthority :
      (session : AuthSession) (s t : Db) (i : SessionIdentity)
      → resolve_account g session_id user_id UserType.merchant session s ≡ (ok i, t)
      → IsMerchantAuthority s user_id i.actor × (i.session ≡ session) × (t ≡ s)
  unfolding resolve_account
  merchant-IsMerchantAuthority session s t i h =
      bind-ok _ _ {b = i} {s = s} {t = t} h λ account s1 read h1. bind-ok _ _ h1 λ u s2 checked h2.
        bind-ok _ _ h2 λ v s3 allowed h3. bind-ok _ _ h3 λ merchant s4 reviewed h4.
          bind-ok _ _ h4 λ scope s5 scoped h5.
            let (more, account_found, e1) =
              first-ok g laws merchant_accounts _ account s s1
                (map_error-ok _ _ account s s1 read) in
            let (active, e2) = lift-ok _ u s1 s2 checked in
            let (role, e3) = fail_if-ok _ _ v s2 s3 allowed in
            let (others, merchant_found, e4) =
              first-ok g laws merchants _ merchant s3 s4
                (map_error-ok _ _ merchant s3 s4 reviewed) in
            let (review, e5) = lift-ok _ scope s4 s5 scoped in
            let (made, e6) = pure-ok _ i s5 t h5 in
            let unchanged : s3 ≡ s = e3 ∙ e2 ∙ e1 in
            (
              record {
                account = account;
                other_accounts = more;
                account_found = account_found;
                account_active = active-ok account.status u active;
                merchant = merchant;
                other_merchants = others;
                merchant_found =
                    ap
                      (λ (d : Db).
                        keep (λ r. r.id == account.merchant_id && is_live r.deleted_at)
                          (d merchants))
                      (sym unchanged)
                    ∙ merchant_found;
                scope_of_review = review ∙ ap (λ (x : SessionIdentity). ok x.actor.scope) made;
                own_merchant = ap (λ (x : SessionIdentity). x.actor.merchant_id) (sym made);
                own_role = ap (λ (x : SessionIdentity). x.actor.role) (sym made);
                own_type = ap (λ (x : SessionIdentity). x.actor.user_type) (sym made);
              },
              ap (λ (x : SessionIdentity). x.session) (sym made),
              e6 ∙ e5 ∙ e4 ∙ unchanged,
            )

  account-session :
      (user_type : UserType) (session : AuthSession) (s t : Db) (i : SessionIdentity)
      → resolve_account g session_id user_id user_type session s ≡ (ok i, t)
      → (i.session ≡ session) × (i.actor.user_type ≡ user_type) × (t ≡ s)
  unfolding resolve_account
  account-session UserType.admin session s t i h =
      bind-ok _ _ {b = i} {s = s} {t = t} h λ account s1 read h1. bind-ok _ _ h1 λ u s2 checked h2.
        bind-ok _ _ h2 λ v s3 allowed h3.
          let (more, found, e1) =
            first-ok g laws admin_users (λ r. r.id == user_id && is_live r.deleted_at) account s s1
              (map_error-ok _ _ account s s1 read) in
          let (active, e2) = lift-ok _ u s1 s2 checked in
          let (role, e3) = fail_if-ok _ _ v s2 s3 allowed in
          let (made, e4) = pure-ok _ i s3 t h3 in
          (
            ap (λ (x : SessionIdentity). x.session) (sym made),
            ap (λ (x : SessionIdentity). x.actor.user_type) (sym made),
            e4 ∙ e3 ∙ e2 ∙ e1,
          )
  account-session UserType.merchant session s t i h =
      let (authority, same, unchanged) = merchant-IsMerchantAuthority session s t i h in
      (same, authority.own_type, unchanged)
  account-session UserType.buyer session s t i h =
      bind-ok _ _ {b = i} {s = s} {t = t} h λ account s1 read h1. bind-ok _ _ h1 λ u s2 checked h2.
        let (more, found, e1) =
          first-ok g laws buyer_users (λ r. r.id == user_id && is_live r.deleted_at) account s s1
            (map_error-ok _ _ account s s1 read) in
        let (active, e2) = lift-ok _ u s1 s2 checked in
        let (made, e3) = pure-ok _ i s2 t h2 in
        (
          ap (λ (x : SessionIdentity). x.session) (sym made),
          ap (λ (x : SessionIdentity). x.actor.user_type) (sym made),
          e3 ∙ e2 ∙ e1,
        )
  account-session _ session s t i h =
      let (made, e) = pure-ok _ i s t h in
      (
        ap (λ (x : SessionIdentity). x.session) (sym made),
        ap (λ (x : SessionIdentity). x.actor.user_type) (sym made),
        e,
      )

  account-authority :
      (user_type : UserType) (session : AuthSession) (s t : Db) (i : SessionIdentity)
      → resolve_account g session_id user_id user_type session s ≡ (ok i, t)
      → user_type ≡ UserType.merchant
      → IsMerchantAuthority s user_id i.actor
  account-authority user_type session s t i h e =
      (merchant-IsMerchantAuthority session s t i
        (ap (λ u. resolve_account g session_id user_id u session s) (sym e) ∙ h)).0

  -- An identity is resolved only from a session of this user that is neither revoked nor past its
  -- time and has a refresh token, and a merchant's only from an active account; nothing is written.
  -- Gorm has its laws.
  pub resolve-IsLiveIdentity :
      (now : Time) (user_type : UserType) (s t : Db) (i : SessionIdentity)
      → resolve_session_identity g session_id user_id now user_type s ≡ (ok i, t)
      → IsLiveIdentity s now session_id user_id user_type i × (t ≡ s)
  unfolding resolve_session_identity
  resolve-IsLiveIdentity now user_type s t i h =
      bind-ok _ _ {b = i} {s = s} {t = t} h λ u s1 named h1. bind-ok _ _ h1 λ v s2 typed h2.
        bind-ok _ _ h2 λ session s3 read h3. bind-ok _ _ h3 λ w s4 checked h4.
          let (n1, e1) = fail_if-ok _ _ u s s1 named in
          let (n2, e2) = fail_if-ok _ _ v s1 s2 typed in
          let (others, found, e3) =
            first-ok g laws auth_sessions _ session s2 s3 (map_error-ok _ _ session s2 s3 read) in
          let (hashed, e4) = fail_if-ok _ _ w s3 s4 checked in
          let (same, typed_as, e5) = account-session user_type session s4 t i h4 in
          let unchanged : s4 ≡ s = e4 ∙ e3 ∙ e2 ∙ e1 in
          (
            record {
              others = others;
              found =
                  ap
                    (λ (d : Db).
                      keep (is_live_session now session_id user_type user_id) (d auth_sessions))
                    (sym (e2 ∙ e1))
                  ∙ found
                  ∙ ap (λ (x : AuthSession). x ∷ others) (sym same);
              own_type = typed_as;
              hashed = ap (λ (x : AuthSession). is_blank x.refresh_token_hash) same ∙ hashed;
              authority = λ e.
                  account-authority user_type session s t i
                    (ap (λ (d : Db). resolve_account g session_id user_id user_type session d)
                        (sym unchanged)
                      ∙ h4)
                    e;
            },
            e5 ∙ unchanged,
          )

full-approved :
    (r : ReviewStatus) (x : Scope)
    → review_scope r ≡ ok x
    → not (same_scope x Scope.full) ≡ false
    → r ≡ ReviewStatus.approved
unfolding review_scope same_scope
full-approved r x h f = ground arith

is_merchant :
    (t : UserType) → not (same_user_type t UserType.merchant) ≡ false → t ≡ UserType.merchant
unfolding same_user_type
is_merchant t h = ground arith

full_scope-ok :
    (a b : Actor)
    → require_full_merchant_scope (some a) ≡ ok b
    → (a ≡ b) × (a.user_type ≡ UserType.merchant) × (not (same_scope a.scope Scope.full) ≡ false)
unfolding require_full_merchant_scope
full_scope-ok a b h = (ground arith, is_merchant a.user_type (ground arith), ground arith)

some-injective : {A : Type 0} (a b : A) → some a ≡ some b → a ≡ b
some-injective a b h = ap (λ o. elim o [ some x ↦ x | none ↦ a ]) h

-- An actor that passes the session guard and the guard of the full merchant scope belongs to an
-- active account of a merchant whose review is approved, as the rows are at this request, where
-- gorm has its laws.
pub full_scope-approved :
    (g : Gorm) (laws : IsGorm g) (now : Time) (path : String) (token a b : Actor) (s t : Db)
    → session_guard g now path (some token) s ≡ (ok (some a), t)
    → require_full_merchant_scope (some a) ≡ ok b
    → (authority : IsMerchantAuthority s token.user_id b) × (authority.merchant.review_status
        ≡ ReviewStatus.approved)
unfolding session_guard
full_scope-approved g laws now path token a b s t guarded full =
    let (same, typed, scoped) = full_scope-ok a b full in
    bind-ok _ _ {b = some a} {s = s} {t = t} guarded λ i s1 read h1.
      bind-ok _ _ h1 λ u s2 allowed h2.
        let (live, e1) =
          resolve-IsLiveIdentity g laws token.session_id token.user_id now token.user_type s s1 i
            (map_error-ok _ _ i s s1 read) in
        let (made, e2) = pure-ok _ (some a) s2 t h2 in
        let actor : i.actor ≡ a = some-injective i.actor a made in
        let merchant : token.user_type ≡ UserType.merchant =
          sym live.own_type ∙ ap (λ (x : Actor). x.user_type) actor ∙ typed in
        let authority =
          subst (IsMerchantAuthority s token.user_id) (actor ∙ same) (live.authority merchant) in
        (
          authority,
          full-approved authority.merchant.review_status b.scope authority.scope_of_review
              (ap (λ (x : Actor). not (same_scope x.scope Scope.full)) (sym same) ∙ scoped),
        )
