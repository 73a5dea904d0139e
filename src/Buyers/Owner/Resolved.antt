-- ===== src/Buyers/Owner/Resolved.antt =====
-- What `resolveBuyerOwner` answers.
use second_hand_market_backe.Base.{
  ℕ, ◌≡◌, ◌≢◌, List, [], ◌∷◌, refl, ap, sym, ◌∙◌, subst, true, false, ◌&&◌, Option, none, some, inl,
  inr, arith, Bool-cases, ◌==◌, ==→≡, ==-refl,
}
use second_hand_market_backe.Base.Text.{trim_space, same_bytes→≡, same_bytes_refl}
use second_hand_market_backe.Errors.{Result, ok, err, biz, forbidden, invalid_argument}
use second_hand_market_backe.Model.Status.{UserType, same_user_type}
use second_hand_market_backe.Model.Buyer.{OwnerKey, of_buyer, of_device, no_key}
use second_hand_market_backe.Request.{Actor, Context}
use second_hand_market_backe.Invariant.{Owned}
use second_hand_market_backe.Buyers.Owner.{
  Visit, BuyerOwner, same_owner, get_device_id, buyer_or_guest, ensure_buyer_or_guest, buyer_owner,
  device_owner, is_empty, owner_for, resolve_buyer_owner, required_owner,
}

pub same_owner→≡ : (k l : OwnerKey) → same_owner k l ≡ true → k ≡ l
unfolding same_owner
same_owner→≡ (of_buyer a) (of_buyer b) h = ground (arith, ==→≡ a b)
same_owner→≡ (of_device d) (of_device e) h = ground (arith, same_bytes→≡ d e)
same_owner→≡ (of_buyer a) (of_device e) h = cc
same_owner→≡ (of_device d) (of_buyer b) h = cc
same_owner→≡ no_key no_key h = refl
same_owner→≡ no_key (of_buyer b) h = cc
same_owner→≡ no_key (of_device e) h = cc
same_owner→≡ (of_buyer a) no_key h = cc
same_owner→≡ (of_device d) no_key h = cc

-- The two halves of the test by which an owner's row is looked up.
pub own_row : (k l : OwnerKey) (a b : ℕ) → (same_owner k l && a == b) ≡ true → (k ≡ l) × (a ≡ b)
own_row k l a b h = ground (arith, same_owner→≡ k l, ==→≡ a b)

-- An owner whose columns agree with its key.
abbrev pub IsOwner : BuyerOwner → Type 0
IsOwner o = Owned o.owner_type o.owner_key o.buyer_id o.device_id

-- The owner of a request: the buyer that makes it, or the device of a guest, and no other. Its columns
-- agree with its key.
pub data IsResolved (c : Context) (v : Visit) (o : BuyerOwner) : Type 0 where
  as_buyer :
      (a : Actor)
      → c.actor ≡ some a
      → a.user_type ≡ UserType.buyer
      → o.owner_key ≡ of_buyer a.user_id
      → IsOwner o
      → IsResolved c v o
  as_guest :
      c.actor ≡ none
      → trim_space v.device_header ≢ []
      → o.owner_key ≡ of_device (trim_space v.device_header)
      → IsOwner o
      → IsResolved c v o

is_buyer : (t : UserType) → same_user_type t UserType.buyer ≡ true → t ≡ UserType.buyer
unfolding same_user_type
is_buyer t h = ground arith

ensured :
    (y x : Option Actor)
    → buyer_or_guest y ≡ ok x
    → (y ≡ x) × ((a : Actor) → x ≡ some a → a.user_type ≡ UserType.buyer)
unfolding buyer_or_guest
ensured none x h = (ground arith, λ a e. cc)
ensured (some a) x h = elim (Bool-cases (same_user_type a.user_type UserType.buyer)) [
  | inl t ↦
      let same : some a ≡ x = as_value (rw t at h) in
      (
        same,
        λ b e.
            subst (λ (z : Actor). z.user_type ≡ UserType.buyer) (as_actor (same ∙ e))
              (is_buyer a.user_type t),
      )
  | inr t ↦ absurd (refused (rw t at h))
]
  where
    as_value : {u w : Option Actor} → Result.ok u ≡ Result.ok w → u ≡ w
    as_value q = cc

    as_actor : {u w : Actor} → Option.some u ≡ Option.some w → u ≡ w
    as_actor q = cc

    refused : Result.err (biz forbidden) ≡ Result.ok x → ⊥
    refused q = cc

given : (d : List ℕ) → is_empty d ≡ false → d ≢ []
unfolding is_empty
given [] h e = cc
given (x ∷ d) h e = cc

resolved : {x y : BuyerOwner} → Result.ok x ≡ Result.ok y → y ≡ x
resolved q = cc

buyer_owner-IsResolved :
    (c : Context) (v : Visit) (a : Actor)
    → c.actor ≡ some a
    → a.user_type ≡ UserType.buyer
    → IsResolved c v (buyer_owner a)
unfolding buyer_owner
buyer_owner-IsResolved c v a e b = as_buyer a e b refl (refl, refl)

device_owner-IsResolved :
    (c : Context) (v : Visit)
    → c.actor ≡ none
    → is_empty (get_device_id v) ≡ false
    → IsResolved c v (device_owner (get_device_id v))
unfolding device_owner get_device_id
device_owner-IsResolved c v e t =
    as_guest e (given (trim_space v.device_header) t) refl (refl, refl)

owner_from :
    (c : Context) (v : Visit) (x : Option Actor) (o : BuyerOwner)
    → c.actor ≡ x
    → ((a : Actor) → x ≡ some a → a.user_type ≡ UserType.buyer)
    → owner_for v true x ≡ ok o
    → IsResolved c v o
unfolding owner_for
owner_from c v (some a) o e b h =
    subst (IsResolved c v) (sym (resolved h)) (buyer_owner-IsResolved c v a e (b a refl))
owner_from c v none o e b h = elim (Bool-cases (is_empty (get_device_id v))) [
  | inl t ↦ absurd (refused (rw t at h))
  | inr t ↦ subst (IsResolved c v) (sym (resolved (rw t at h))) (device_owner-IsResolved c v e t)
]
  where
    refused : Result.err (biz invalid_argument) ≡ Result.ok o → ⊥
    refused q = cc

owner_answer :
    (c : Context) (v : Visit) (o : BuyerOwner) (r : Result (Option Actor))
    → ((x : Option Actor)
        → r ≡ ok x
        → (c.actor ≡ x) × ((a : Actor) → x ≡ some a → a.user_type ≡ UserType.buyer))
    → (elim r [ err e ↦ err e | ok actor ↦ owner_for v true actor ]) ≡ ok o
    → IsResolved c v o
owner_answer c v o (ok x) facts h =
    let (same, buyer) = facts x refl in owner_from c v x o same buyer h
owner_answer c v o (err e) facts h = cc

-- The owner that is resolved with a device required is keyed by the buyer who makes the request, or,
-- without an actor, by the trimmed device header, which is then not empty; its columns agree with
-- its key.
pub required_owner-IsResolved :
    (c : Context) (v : Visit) (o : BuyerOwner) → required_owner c v ≡ ok o → IsResolved c v o
unfolding required_owner resolve_buyer_owner ensure_buyer_or_guest
required_owner-IsResolved c v o h =
    owner_answer c v o (ensure_buyer_or_guest c) (λ x e. ensured c.actor x e) h

pub IsResolved-IsOwner : (c : Context) (v : Visit) (o : BuyerOwner) → IsResolved c v o → IsOwner o
IsResolved-IsOwner c v o (as_buyer a e b k q) = q
IsResolved-IsOwner c v o (as_guest e t k q) = q

pub same_owner_refl : (k : OwnerKey) → same_owner k k ≡ true
unfolding same_owner
same_owner_refl (of_buyer a) = ==-refl a
same_owner_refl (of_device d) = same_bytes_refl d
same_owner_refl no_key = refl

-- Where a row's owner is the one asked for, either may stand for the other.
pub same_owner_via : (k x o : OwnerKey) → same_owner x o ≡ true → same_owner x k ≡ same_owner o k
same_owner_via k x o h = ap (λ y. same_owner y k) (same_owner→≡ x o h)

pub same_owner_both :
    (k x o : OwnerKey) → same_owner x k ≡ true → same_owner o k ≡ true → same_owner x o ≡ true
same_owner_both k x o h h2 =
    subst (λ y. same_owner x y ≡ true) (same_owner→≡ x k h ∙ sym (same_owner→≡ o k h2))
      (same_owner_refl x)
