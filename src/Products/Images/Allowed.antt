-- ===== src/Products/Images/Allowed.antt =====
-- What the tests on one file of `validateMerchantProductImageFiles`
-- (backend/internal/app/product_handlers.go) say of it and of its uploader.
use second_hand_market_backe.Base.{
  ℕ, ◌≡◌, refl, sym, ◌∙◌, ap, Bool, true, false, not, ◌&&◌, ◌||◌, Option, none, some, List, [], ◌∷◌,
  ◌==◌, ==→≡, arith, subst, Bool-cases, Option-cases, inl, inr, Among,
}
use second_hand_market_backe.Model.Status.{FileBizType, ScanStatus, UserType, same_user_type}
use second_hand_market_backe.Model.Shop.{FileRecord}
use second_hand_market_backe.Model.People.{MerchantAccount}
use second_hand_market_backe.Request.{Actor}
use second_hand_market_backe.Products.Images.{
  file_by_id, merchant_by_account, may_use, is_strict_detail_product_image_record, is_product_image,
  is_pass,
}

-- The last row of a key is one of the rows.
pub file_by_id-Among :
    (i : ℕ) (fs : List FileRecord) (f : FileRecord)
    → file_by_id i fs ≡ some f
    → Among f fs × (f.id ≡ i)
unfolding file_by_id
file_by_id-Among i [] f h = cc
file_by_id-Among i (x ∷ fs) f h = elim (Option-cases (file_by_id i fs)) [
  | inr (y, e) ↦
      let same : y ≡ f = there (rw e at h) in
      let (m, k) = file_by_id-Among i fs y e in
      (inr (subst (λ z. Among z fs) same m), ap (λ (z : FileRecord). z.id) (sym same) ∙ k)
  | inl e ↦ elim (Bool-cases (x.id == i)) [
    | inl q ↦
        let same : x ≡ f = there (rw (e, q) at h) in
        (inl (sym same), ap (λ (z : FileRecord). z.id) (sym same) ∙ ==→≡ x.id i q)
    | inr q ↦ absurd (nothing (rw (e, q) at h))
  ]
]
  where
    there : {y z : FileRecord} → Option.some y ≡ some z → y ≡ z
    there q = cc

    nothing : Option.none ≡ some f → ⊥
    nothing q = cc

pub merchant_by_account-Among :
    (u : ℕ) (xs : List MerchantAccount) (m : ℕ)
    → merchant_by_account u xs ≡ some m
    → (a : MerchantAccount) × Among a xs × (a.id ≡ u) × (a.merchant_id ≡ m)
unfolding merchant_by_account
merchant_by_account-Among u [] m h = cc
merchant_by_account-Among u (x ∷ xs) m h = elim (Option-cases (merchant_by_account u xs)) [
  | inr (k, e) ↦
      let same : k ≡ m = there (rw e at h) in
      let (a, among, key, mine) = merchant_by_account-Among u xs k e in
      (a, inr among, key, mine ∙ same)
  | inl e ↦ elim (Bool-cases (x.id == u)) [
    | inl q ↦ (x, inl refl, ==→≡ x.id u q, there (rw (e, q) at h))
    | inr q ↦ absurd (nothing (rw (e, q) at h))
  ]
]
  where
    there : {y z : ℕ} → Option.some y ≡ some z → y ≡ z
    there q = cc

    nothing : Option.none ≡ some m → ⊥
    nothing q = cc

-- What the tests of `may_use` say.
pub record IsAllowed (strict : Bool) (actor : Actor) (accounts : List MerchantAccount)
    (f : FileRecord) : Type 0 where
  pub image : f.biz_type ≡ FileBizType.product_image
  pub passed : f.scan_status ≡ ScanStatus.pass
  pub by_merchant : f.uploader_type ≡ UserType.merchant
  pub uploader : ℕ
  pub uploaded : f.uploader_id ≡ some uploader
  pub known : merchant_by_account uploader accounts ≡ some actor.merchant_id
  pub profile : strict ≡ true → is_strict_detail_product_image_record f ≡ true

uploaded_by :
    (uploader : Option ℕ) (accounts : List MerchantAccount) (merchant_id : ℕ)
    → (elim uploader [
      | none ↦ false
      | some u ↦ elim (merchant_by_account u accounts) [ none ↦ false | some m ↦ m == merchant_id ]
    ])
      ≡ true
    → (u : ℕ) × (uploader ≡ some u) × (merchant_by_account u accounts ≡ some merchant_id)
uploaded_by none accounts merchant_id h = cc
uploaded_by (some u) accounts merchant_id h = elim (Option-cases (merchant_by_account u accounts)) [
  | inl e ↦ absurd (no_account (rw e at h))
  | inr (m, e) ↦ (u, refl, e ∙ ap some (==→≡ m merchant_id (rw e at h)))
]
  where
    no_account : false ≡ true → ⊥
    no_account q = cc

image_of : (t : FileBizType) → is_product_image t ≡ true → t ≡ FileBizType.product_image
image_of t h = ground arith

passed_of : (t : ScanStatus) → is_pass t ≡ true → t ≡ ScanStatus.pass
passed_of t h = ground arith

merchant_of : (t : UserType) → same_user_type t UserType.merchant ≡ true → t ≡ UserType.merchant
unfolding same_user_type
merchant_of t h = ground arith

pub may_use-IsAllowed :
    (strict : Bool) (actor : Actor) (accounts : List MerchantAccount) (f : FileRecord)
    → may_use strict actor accounts f ≡ true
    → IsAllowed strict actor accounts f
unfolding may_use
may_use-IsAllowed strict actor accounts f h =
    let (image, passed, typed, mine, profile) =
      five (is_product_image f.biz_type) (is_pass f.scan_status)
        (same_user_type f.uploader_type UserType.merchant) _
        (not strict || is_strict_detail_product_image_record f) h in
    let (u, uploaded, known) = uploaded_by f.uploader_id accounts actor.merchant_id mine in
    record {
      image = image_of f.biz_type image;
      passed = passed_of f.scan_status passed;
      by_merchant = merchant_of f.uploader_type typed;
      uploader = u;
      uploaded = uploaded;
      known = known;
      profile = λ e. where_strict strict (is_strict_detail_product_image_record f) e profile;
    }
  where
    five :
        (a b c d e : Bool)
        → (a && b && c && d && e) ≡ true
        → (a ≡ true) × (b ≡ true) × (c ≡ true) × (d ≡ true) × (e ≡ true)
    five a b c d e q = (ground arith, ground arith, ground arith, ground arith, ground arith)

    where_strict : (a b : Bool) → a ≡ true → (not a || b) ≡ true → b ≡ true
    where_strict a b e q = ground arith
