-- ===== src/Products/Images/Usable.antt =====
-- What the validation of a product's images (`validateMerchantProductImageFiles` of
-- backend/internal/app/product_handlers.go) shows when it succeeds.
use second_hand_market_backe.Base.{
  ℕ, ◌≡◌, refl, sym, ◌∙◌, ap, Bool, true, false, not, ◌||◌, Option, none, some, List, [], ◌∷◌, ◌==◌,
  ==→≡, All, elem, length, ltb, ◌≤◌, arith, subst, Bool-cases, Option-cases, inl, inr, Among,
  All-Among, Among-itself, All-keep_plain,
}
use second_hand_market_backe.Errors.{ok, invalid_upload}
use second_hand_market_backe.Model.Status.{FileBizType, ScanStatus, UserType}
use second_hand_market_backe.Model.Shop.{FileRecord}
use second_hand_market_backe.Model.People.{MerchantAccount}
use second_hand_market_backe.Database.Tables.{Db, Name, Row, files, merchant_accounts}
use second_hand_market_backe.Database.Gorm.{Gorm, IsGorm}
use second_hand_market_backe.Database.Actions.{find_rows}
use second_hand_market_backe.Database.Invert.{bind-ok, fail_if-ok, find_rows-ok, pure-ok}
use second_hand_market_backe.Request.{Actor}
use second_hand_market_backe.Products.Images.Allowed.{
  file_by_id-Among, merchant_by_account-Among, may_use-IsAllowed,
}
use second_hand_market_backe.Products.Images.{
  unique_ids, file_by_id, may_use, all_usable, is_strict_detail_product_image_record, uploader_ids,
  merchant_ids_for_accounts, check_files, validate_merchant_product_image_files,
}

module _ (P : ℕ → Type 0) where
  -- What holds of every different id holds of every id.
  All-unique_ids :
      (seen ids us : List ℕ)
      → unique_ids seen ids ≡ some us
      → ((i : ℕ) → elem i seen ≡ true → P i)
      → All P us
      → All P ids
  unfolding unique_ids
  All-unique_ids seen [] us h old new = tt
  All-unique_ids seen (i ∷ ids) us h old new = elim (Bool-cases (i == 0)) [
    | inl z ↦ absurd (some≢none us (sym h ∙ rw z refl))
    | inr z ↦ elim (Bool-cases (elem i seen)) [
      | inl e ↦ (old i e, All-unique_ids seen ids us (sym (rw (z, e) refl) ∙ h) old new)
      | inr e ↦ elim (Option-cases (unique_ids (i ∷ seen) ids)) [
        | inl n ↦ absurd (some≢none us (sym h ∙ rw (z, e, n) refl))
        | inr (rest, r) ↦
            let same : i ∷ rest ≡ us = some-injective _ _ (sym (rw (z, e, r) refl) ∙ h) in
            let both : All P (i ∷ rest) = subst (All P) (sym same) new in
            (
              both.0,
              All-unique_ids (i ∷ seen) ids rest r (λ k m. seen_or_new i k seen both.0 old m)
                  both.1,
            )
      ]
    ]
  ]
    where
      some≢none : (us : List ℕ) → some us ≡ none → ⊥
      some≢none us h = cc

      some-injective : (a b : List ℕ) → some a ≡ some b → a ≡ b
      some-injective a b h = ap (λ o. elim o [ some x ↦ x | none ↦ a ]) h

      seen_or_new :
          (i k : ℕ) (seen : List ℕ)
          → P i
          → ((j : ℕ) → elem j seen ≡ true → P j)
          → elem k (i ∷ seen) ≡ true
          → P k
      seen_or_new i k seen p old m = elim (Bool-cases (i == k)) [
        | inl q ↦ subst P (==→≡ i k q) p
        | inr q ↦ old k (sym (rw q refl) ∙ m)
      ]

-- The image of an id: a file of the database that is a product image, has passed its scan, meets the
-- strict profile where it is required, and was uploaded by an account of the actor's merchant.
pub record IsUsableImage (strict : Bool) (actor : Actor) (s : Db) (i : ℕ) : Type 0 where
  pub file : FileRecord
  pub stored : Among file (s files)
  pub asked : file.id ≡ i
  pub image : file.biz_type ≡ FileBizType.product_image
  pub passed : file.scan_status ≡ ScanStatus.pass
  pub by_merchant : file.uploader_type ≡ UserType.merchant
  pub account : MerchantAccount
  pub known : Among account (s merchant_accounts)
  pub uploaded : file.uploader_id ≡ some account.id
  pub own : account.merchant_id ≡ actor.merchant_id
  pub profile : strict ≡ true → is_strict_detail_product_image_record file ≡ true

module _ (strict : Bool) (actor : Actor) (accounts : List MerchantAccount) (found : List FileRecord)
    (s : Db) (stored : All (λ f. Among f (s files)) found)
    (known : All (λ a. Among a (s merchant_accounts)) accounts) where
  usable_image :
      (i : ℕ) (f : FileRecord)
      → file_by_id i found ≡ some f
      → may_use strict actor accounts f ≡ true
      → IsUsableImage strict actor s i
  usable_image i f e h =
      let (among, key) = file_by_id-Among i found f e in
      let allowed = may_use-IsAllowed strict actor accounts f h in
      let (a, there, id, mine) =
        merchant_by_account-Among allowed.uploader accounts actor.merchant_id allowed.known in
      record {
        file = f;
        stored = All-Among (λ x. Among x (s files)) f found stored among;
        asked = key;
        image = allowed.image;
        passed = allowed.passed;
        by_merchant = allowed.by_merchant;
        account = a;
        known = All-Among (λ x. Among x (s merchant_accounts)) a accounts known there;
        uploaded = allowed.uploaded ∙ ap some (sym id);
        own = mine;
        profile = allowed.profile;
      }

  all_usable-IsUsableImage :
      (ids : List ℕ)
      → all_usable strict actor accounts found ids ≡ true
      → All (IsUsableImage strict actor s) ids
  unfolding all_usable
  all_usable-IsUsableImage [] h = tt
  all_usable-IsUsableImage (i ∷ ids) h = elim (Option-cases (file_by_id i found)) [
    | inl n ↦ absurd (ground arith)
    | inr (f, e) ↦ (usable_image i f e (ground arith), all_usable-IsUsableImage ids (ground arith))
  ]

-- Images that were accepted: one to five, each a file that this merchant may use.
pub record IsValidated (strict : Bool) (actor : Actor) (ids : List ℕ) (s : Db) : Type 0 where
  pub at_least : 1 ≤ length ids
  pub at_most : length ids ≤ 5
  pub usable : All (IsUsableImage strict actor s) ids

-- Rows that are selected are among the rows of their table.
selected-Among :
    (g : Gorm) (laws : IsGorm g) (n : Name) (p : Row n → Bool) (rows : List (Row n)) (s t : Db)
    → find_rows g n p s ≡ (ok rows, t)
    → All (λ r. Among r (s n)) rows × (t ≡ s)
selected-Among g laws n p rows s t h =
    let (selected, same) = find_rows-ok g n p rows s t h in
    (
      subst (All (λ r. Among r (s n))) (sym (laws.select_lem n p (s n) rows selected))
          (All-keep_plain (λ r. Among r (s n)) p (s n) (Among-itself (s n))),
      same,
    )

accounts-Among :
    (g : Gorm) (laws : IsGorm g) (us : List ℕ) (accounts : List MerchantAccount) (s t : Db)
    → merchant_ids_for_accounts g us s ≡ (ok accounts, t)
    → All (λ a. Among a (s merchant_accounts)) accounts × (t ≡ s)
unfolding merchant_ids_for_accounts
accounts-Among g laws [] accounts s t h =
    let (none_read, same) = pure-ok [] accounts s t h in
    (subst (All (λ a. Among a (s merchant_accounts))) none_read tt, same)
accounts-Among g laws (u ∷ us) accounts s t h =
    selected-Among g laws merchant_accounts _ accounts s t h

bounded_count : (n : ℕ) → (n == 0 || ltb 5 n) ≡ false → (1 ≤ n) × (n ≤ 5)
bounded_count n h = (ground arith, ground arith)

usable_flag : (b : Bool) → not b ≡ false → b ≡ true
usable_flag b h = ground arith

module _ (g : Gorm) (laws : IsGorm g) (strict : Bool) (actor : Actor) (ids : List ℕ) where
  check_files-IsValidated :
      (o : Option (List ℕ)) (u : Unit {0}) (s t : Db)
      → check_files g strict actor o s ≡ (ok u, t)
      → unique_ids [] ids ≡ o
      → (1 ≤ length ids) × (length ids ≤ 5)
      → IsValidated strict actor ids s
  unfolding check_files
  check_files-IsValidated none u s t h e n =
      absurd (refused (fail_if-ok true invalid_upload u s t h).0)
    where
      refused : true ≡ false → ⊥
      refused q = cc
  check_files-IsValidated (some us) u s t h e n =
      bind-ok _ _ {b = u} {s = s} {t = t} h λ found s1 looked h1. bind-ok _ _ h1 λ v s2 counted h2.
        bind-ok _ _ h2 λ accounts s3 known h3.
          let (stored, e1) = selected-Among g laws files _ found s s1 looked in
          let (count, e2) = fail_if-ok _ _ v s1 s2 counted in
          let (there, e3) = accounts-Among g laws (uploader_ids found) accounts s2 s3 known in
          let passed =
            usable_flag (all_usable strict actor accounts found us) (fail_if-ok _ _ u s3 t h3).0 in
          record {
            at_least = n.0;
            at_most = n.1;
            usable =
                All-unique_ids (IsUsableImage strict actor s) [] ids us e
                  (λ i m. absurd (nowhere m))
                  (all_usable-IsUsableImage strict actor accounts found s stored
                    (subst (λ (d : Db). All (λ a. Among a (d merchant_accounts)) accounts) (e2 ∙ e1)
                      there)
                    us passed);
          }
    where
      nowhere : false ≡ true → ⊥
      nowhere q = cc

  -- Images that are accepted are one to five; each of their ids is that of a file which was read, is
  -- a product image, has passed its scan and was uploaded by an account of this merchant (and meets
  -- the strict profile, if it is required). Gorm has its laws.
  pub validate-IsValidated :
      (u : Unit {0}) (s t : Db)
      → validate_merchant_product_image_files g strict actor ids s ≡ (ok u, t)
      → IsValidated strict actor ids s
  unfolding validate_merchant_product_image_files
  validate-IsValidated u s t h = bind-ok _ _ {b = u} {s = s} {t = t} h λ v s1 few h1.
      let (count, same) = fail_if-ok _ _ v s s1 few in
      check_files-IsValidated (unique_ids [] ids) u s t
        (ap (λ (d : Db). check_files g strict actor (unique_ids [] ids) d) (sym same) ∙ h1) refl
        (bounded_count (length ids) count)
