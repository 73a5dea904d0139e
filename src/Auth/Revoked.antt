-- ===== src/Auth/Revoked.antt =====
-- What revokes sessions: after it no token of the account, or of the session, stands for anyone.
use second_hand_market_backe.Base.{
  ℕ, ◌≡◌, ◌≢◌, refl, sym, ◌∙◌, ap, Bool, true, false, ◌&&◌, some, List, [], ◌∷◌, ◌==◌, arith, keep,
  map_if, Among-keep, inl, inr, Bool-cases,
}
use second_hand_market_backe.Errors.{ok, Result}
use second_hand_market_backe.Model.Status.{Time, UserType}
use second_hand_market_backe.Model.People.{AuthSession, MerchantAccount}
use second_hand_market_backe.Database.Tables.{
  Db, auth_sessions, merchant_accounts, merchant_audit_logs, put,
}
use second_hand_market_backe.Database.Gorm.{Gorm, IsGorm}
use second_hand_market_backe.Database.Actions.{transaction}
use second_hand_market_backe.Database.Invert.{
  bind-ok, map_error-ok, update-ok, create-ok, pure-ok, lift-ok, first-ok,
}
use second_hand_market_backe.Request.{Actor, Context, Codec, is_live, actor_from_context}
use second_hand_market_backe.Session.{SessionIdentity, is_live_session, resolve_session_identity}
use second_hand_market_backe.Session.Authority.{resolve-IsLiveIdentity}
use second_hand_market_backe.Auth.Tokens.{Crypto, handle_logout}
use second_hand_market_backe.Auth.Accounts.{
  UpdatePasswordRequest, sessions_of, revoked, store_merchant_password, merchant_change_password,
  AccountChange, is_owner_account, update_merchant_account_body, update_merchant_account,
}

-- Where no session of the tokens is live, none of them resolves to an identity.
none_live :
    (g : Gorm) (laws : IsGorm g) (now : Time) (session_id user_id : ℕ) (user_type : UserType)
    (t : Db)
    → keep (is_live_session now session_id user_type user_id) (t auth_sessions) ≡ []
    → (i : SessionIdentity)
    → (resolve_session_identity g session_id user_id now user_type t).0 ≢ ok i
none_live g laws now session_id user_id user_type t empty i h =
    let (live, same) =
      resolve-IsLiveIdentity g laws session_id user_id now user_type t
        (resolve_session_identity g session_id user_id now user_type t).1 i
        (λ k. (h k, (resolve_session_identity g session_id user_id now user_type t).1)) in
    not_empty (sym live.found ∙ empty)
  where
    not_empty : {x : AuthSession} {xs : List AuthSession} → x ∷ xs ≢ []
    not_empty q = cc

dead :
    (at : Time) (session_id user_id : ℕ) (user_type : UserType) (r : AuthSession)
    → is_live r.revoked_at ≡ false
    → is_live_session at session_id user_type user_id r ≡ false
unfolding is_live_session
dead at session_id user_id user_type r h = ground arith

-- A live session of a user is one of the user's.
of_user :
    (at : Time) (session_id user_id : ℕ) (user_type : UserType) (r : AuthSession)
    → is_live_session at session_id user_type user_id r ≡ true
    → sessions_of user_type user_id r ≡ true
unfolding is_live_session sessions_of
of_user at session_id user_id user_type r h = ground arith

-- A live session of a token is the one that the token names.
of_session :
    (at : Time) (session_id user_id : ℕ) (user_type : UserType) (r : AuthSession)
    → is_live_session at session_id user_type user_id r ≡ true
    → (r.id == session_id) ≡ true
unfolding is_live_session
of_session at session_id user_id user_type r h = ground arith

-- Rows that are revoked are not live; if every live row is revoked, none is left.
revoked-none :
    (now at : Time) (session_id user_id : ℕ) (user_type : UserType) (p : AuthSession → Bool)
    → ((r : AuthSession) → is_live_session at session_id user_type user_id r ≡ true → p r ≡ true)
    → (xs : List AuthSession)
    → keep (is_live_session at session_id user_type user_id) (map_if p (revoked now) xs) ≡ []
revoked-none now at session_id user_id user_type p covers [] = refl
revoked-none now at session_id user_id user_type p covers (x ∷ xs) = elim (Bool-cases (p x)) [
  | inl e ↦
      rw (e, dead at session_id user_id user_type (revoked now x) refl)
        (revoked-none now at session_id user_id user_type p covers xs)
  | inr e ↦ rw (e, missed x e) (revoked-none now at session_id user_id user_type p covers xs)
]
  where
    missed :
        (r : AuthSession) → p r ≡ false → is_live_session at session_id user_type user_id r ≡ false
    missed r h = ground (arith, covers r)

-- After an update that has revoked every session of a token, the token stands for nobody.
revoked-resolve :
    (g : Gorm) (laws : IsGorm g) (now at : Time) (session_id user_id : ℕ) (user_type : UserType)
    (p : AuthSession → Bool) (xs : List AuthSession) (t : Db)
    → ((r : AuthSession) → is_live_session at session_id user_type user_id r ≡ true → p r ≡ true)
    → t auth_sessions ≡ map_if p (revoked now) xs
    → (i : SessionIdentity)
    → (resolve_session_identity g session_id user_id at user_type t).0 ≢ ok i
revoked-resolve g laws now at session_id user_id user_type p xs t covers e =
    none_live g laws at session_id user_id user_type t (
      ap (keep (is_live_session at session_id user_type user_id)) e
      ∙ revoked-none now at session_id user_id user_type p covers xs)

key_of : (a b : ℕ) (l : Bool) → (a == b && l) ≡ true → a ≡ b
key_of a b l h = ground arith

actor_of : (c : Context) (a b : Actor) → c.actor ≡ some a → actor_from_context c ≡ ok b → a ≡ b
unfolding actor_from_context
actor_of c a b e h = same (rw e at h)
  where
    same : Result.ok a ≡ Result.ok b → a ≡ b
    same q = cc

-- After a logout the session stands for nobody, whatever the token says besides, where gorm has its
-- laws.
pub handle_logout-resolve :
    (g : Gorm) (laws : IsGorm g) (k : Crypto) (c : Context) (a : Actor) (u : Unit {0}) (s t : Db)
    → c.actor ≡ some a
    → handle_logout g k c s ≡ (ok u, t)
    → (at : Time) (user_id : ℕ) (user_type : UserType) (i : SessionIdentity)
    → (resolve_session_identity g a.session_id user_id at user_type t).0 ≢ ok i
unfolding handle_logout put
handle_logout-resolve g laws k c a u s t acts h at user_id user_type =
    bind-ok _ _ {b = u} {s = s} {t = t} h λ b s1 named h1. bind-ok _ _ h1 λ n s2 updated h2.
      let same = actor_of c a b acts (lift-ok _ b s s1 named).0 in
      let (rows, changed, e) =
        update-ok g auth_sessions _ _ n s1 s2 (map_error-ok _ _ n s1 s2 updated) in
      let (after, counted, fits) =
        laws.update_lem auth_sessions _ _ (s1 auth_sessions) rows n changed in
      revoked-resolve g laws (c.now 0) at a.session_id user_id user_type (λ r. r.id == b.session_id)
        (s1 auth_sessions) t
        (λ r live.
          ap (λ (x : Actor). r.id == x.session_id) (sym same)
          ∙ of_session at a.session_id user_id user_type r live)
        (ap (λ (d : Db). d auth_sessions) ((pure-ok _ u s2 t h2).1 ∙ e) ∙ after)

module _ (g : Gorm) (laws : IsGorm g) (k : Crypto) (j : Codec) (c : Context) where
  -- After a merchant's account has changed its password, no token of that account stands for
  -- anyone, also not that of the request, where gorm has its laws.
  pub merchant_change_password-resolve :
      (a : Actor) (req : UpdatePasswordRequest) (u : Unit {0}) (s t : Db)
      → c.actor ≡ some a
      → merchant_change_password g k j c req s ≡ (ok u, t)
      → (at : Time) (session_id : ℕ) (i : SessionIdentity)
      → (resolve_session_identity g session_id a.user_id at UserType.merchant t).0 ≢ ok i
  unfolding merchant_change_password store_merchant_password transaction put
  merchant_change_password-resolve a req u s t acts h at session_id =
      bind-ok _ _ {b = u} {s = s} {t = t} h λ b s1 named h1. bind-ok _ _ h1 λ acct s2 read h2.
        bind-ok _ _ h2 λ u1 s3 checked h3. bind-ok _ _ h3 λ u2 s4 valid h4.
          bind-ok _ _ h4 λ hash s5 hashed h5.
            let done = laws.commit _ s5 t u (map_error-ok _ _ u s5 t h5) in
            bind-ok _ _ {b = u} {s = s5} {t = t} done λ rows s6 stored h6.
              bind-ok _ _ h6 λ u3 s7 one h7. bind-ok _ _ h7 λ n s8 updated h8.
                let same = actor_of c a b acts (lift-ok _ b s s1 named).0 in
                let (rest, found, e0) =
                  first-ok g laws merchant_accounts _ acct s1 s2
                    (map_error-ok _ _ acct s1 s2 read) in
                let key =
                  key_of acct.id b.user_id _
                    (Among-keep _ acct rest (s1 merchant_accounts) found).1 in
                let own : acct.id ≡ a.user_id = key ∙ ap (λ (x : Actor). x.user_id) (sym same) in
                let (sessions, changed, e) = update-ok g auth_sessions _ _ n s7 s8 updated in
                let (after, counted, fits) =
                  laws.update_lem auth_sessions _ _ (s7 auth_sessions) sessions n changed in
                revoked-resolve g laws (c.now 0) at session_id a.user_id UserType.merchant
                  (sessions_of UserType.merchant acct.id) (s7 auth_sessions) t
                  (λ r live.
                    ap (λ x. sessions_of UserType.merchant x r) own
                    ∙ of_user at session_id a.user_id UserType.merchant r live)
                  (ap (λ (d : Db). d auth_sessions) ((pure-ok _ u s8 t h8).1 ∙ e) ∙ after)

  -- After an administrator has reset the password of a merchant's owner or set the status of that
  -- account, no token of it stands for anyone, where gorm has its laws.
  pub update_merchant_account-resolve :
      (id : ℕ) (change : AccountChange) (account : MerchantAccount) (rest : List MerchantAccount)
      (u : Unit {0}) (s t : Db)
      → keep (is_owner_account id) (s merchant_accounts) ≡ account ∷ rest
      → update_merchant_account g k j c id change s ≡ (ok u, t)
      → (at : Time) (session_id : ℕ) (i : SessionIdentity)
      → (resolve_session_identity g session_id account.id at UserType.merchant t).0 ≢ ok i
  unfolding update_merchant_account update_merchant_account_body transaction put
  update_merchant_account-resolve id change account rest u s t kept h at session_id =
      bind-ok _ _ {b = u} {s = s} {t = t} h λ b s1 named h1.
        let here : s1 ≡ s = (lift-ok _ b s s1 named).1 in
        let done = laws.commit _ s1 t u (map_error-ok _ _ u s1 t h1) in
        bind-ok _ _ {b = u} {s = s1} {t = t} done λ acct s2 read h2.
          bind-ok _ _ h2 λ n1 s3 changed h3. bind-ok _ _ h3 λ n2 s4 updated h4.
            bind-ok _ _ h4 λ made s5 logged h5.
              let (more, found, e0) = first-ok g laws merchant_accounts _ acct s1 s2 read in
              let own : acct.id ≡ account.id =
                ap (λ (x : MerchantAccount). x.id)
                  (head_of (
                    sym found
                    ∙ ap (λ (d : Db). keep (is_owner_account id) (d merchant_accounts)) here
                    ∙ kept)) in
              let (sessions, revoking, e) = update-ok g auth_sessions _ _ n2 s3 s4 updated in
              let (after, counted, fits) =
                laws.update_lem auth_sessions _ _ (s3 auth_sessions) sessions n2 revoking in
              let (logs, inserted, e2) = create-ok g merchant_audit_logs _ made s4 s5 logged in
              revoked-resolve g laws (c.now 0) at session_id account.id UserType.merchant
                (sessions_of UserType.merchant acct.id) (s3 auth_sessions) t
                (λ r live.
                  ap (λ x. sessions_of UserType.merchant x r) own
                  ∙ of_user at session_id account.id UserType.merchant r live)
                (ap (λ (d : Db). d auth_sessions) ((pure-ok _ u s5 t h5).1 ∙ e2)
                  ∙ ap (λ (d : Db). d auth_sessions) e
                  ∙ after)
    where
      head_of : {x y : MerchantAccount} {xs ys : List MerchantAccount} → x ∷ xs ≡ y ∷ ys → x ≡ y
      head_of q = cc
