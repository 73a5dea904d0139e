-- ===== src/System/Buyers/Undone.antt =====
-- A request of a buyer or a guest that fails has changed nothing.
use second_hand_market_backe.Base.{ℕ, ◌≡◌, ◌∙◌, refl, List, [], ◌∷◌, inl, inr}
use second_hand_market_backe.Errors.{Error, Result, ok, err}
use second_hand_market_backe.Model.Status.{UserType}
use second_hand_market_backe.Model.People.{Merchant}
use second_hand_market_backe.Database.Tables.{Db, products, merchants}
use second_hand_market_backe.Database.Gorm.{Action, Gorm, IsGorm}
use second_hand_market_backe.Database.Keeps.{Result-cases}
use second_hand_market_backe.Database.Atomic.{
  Atomic, Reads, Reads-pure, Reads-lift, Reads-map_error, Reads-fail_if, Reads-first, Reads-bind,
  Atomic-bind, Atomic-answer, Atomic-map_error, Atomic-transaction, Atomic-update,
}
use second_hand_market_backe.Session.{require_auth}
use second_hand_market_backe.Request.{Actor, Context, Codec, Fields}
use second_hand_market_backe.RateLimiter.{MemoryRateLimiter}
use second_hand_market_backe.Buyers.Owner.{
  Visit, Gate, resolve_buyer_merchant_scope, load_buyer_visible_product, check_rate_limits, limited,
}
use second_hand_market_backe.Buyers.Favorites.{
  owner_and_merchant, add_favorite, delete_favorite, handle_buyer_favorite_add,
  handle_buyer_favorite_delete,
}
use second_hand_market_backe.Buyers.Histories.{
  view_history, delete_histories, handle_buyer_history_view, handle_buyer_history_delete,
}
use second_hand_market_backe.Buyers.Merge.{merge_guest, handle_buyer_guest_merge}
use second_hand_market_backe.System.Atomic.{Atomic-run_with_idempotency}
use second_hand_market_backe.System.Buyers.{
  BuyerCall, favorite_add, favorite_delete, history_view, history_delete, guest_merge,
  intent_create, BuyerIntentCreateRequest, Readers, for_buyer, submit_intent,
  handle_buyer_intent_create, serve_buyer,
}

abbrev Undone :
    {A : Type 0} → (MemoryRateLimiter → Db → (Result A × Db) × MemoryRateLimiter) → Type 0
Undone m = (l : MemoryRateLimiter) (s : Db) (e : Error) → (m l s).0.0 ≡ err e → (m l s).0.1 ≡ s

module _ {A B : Type 0} where
  limited_from :
      (r : Result A) (s t : Db) (gates : A → List Gate) (body : A → Action B)
      (l : MemoryRateLimiter) (e : Error)
      → t ≡ s
      → ((a : A) → Atomic (body a))
      → (limited (λ _. (r, t)) gates body l t).0.0 ≡ err e
      → (limited (λ _. (r, t)) gates body l t).0.1 ≡ s
  unfolding limited
  limited_from (ok a) s t gates body l e same k h =
      (Atomic-bind (Reads-lift (check_rate_limits (gates a) l).0) (λ _. k a)).undone t e h ∙ same
  limited_from (err x) s t gates body l e same k h = same

  Undone-limited :
      {checks : Action A} (gates : A → List Gate) {body : A → Action B}
      → Reads checks
      → ((a : A) → Atomic (body a))
      → Undone (limited checks gates body)
  unfolding limited
  Undone-limited {checks} gates {body} rc ab l s e h =
      limited_from (checks s).0 s (checks s).1 gates body l e (rc.unchanged s) ab h

Undone-for_buyer :
    (c : Context) (m : MemoryRateLimiter → Db → (Result Fields × Db) × MemoryRateLimiter)
    → Undone m
    → Undone (for_buyer c m)
unfolding for_buyer
Undone-for_buyer c m k l s e h = elim (Result-cases (require_auth (UserType.buyer ∷ []) c.actor)) [
  | inl (a, q) ↦ rw (q, for_buyer) (k l s e (rw (q, for_buyer) at h))
  | inr (x, q) ↦ rw (q, for_buyer) refl
]

module _ (g : Gorm) (laws : IsGorm g) where
  Reads-merchant_scope : (v : Visit) → Reads (resolve_buyer_merchant_scope g v)
  unfolding resolve_buyer_merchant_scope
  Reads-merchant_scope v =
      Reads-bind (Reads-fail_if _ _) (λ _. Reads-map_error _ (Reads-first g merchants _))

  Reads-load_visible :
      (product_id merchant_id : ℕ) → Reads (load_buyer_visible_product g product_id merchant_id)
  unfolding load_buyer_visible_product
  Reads-load_visible product_id merchant_id =
      Reads-bind (Reads-map_error _ (Reads-first g products _))
        (λ p. Reads-bind (Reads-fail_if _ _) (λ _. Reads-pure p))

  module _ (c : Context) (v : Visit) (j : Codec) (rd : Readers) where
    Reads-owner_and_merchant : Reads (owner_and_merchant g c v)
    unfolding owner_and_merchant
    Reads-owner_and_merchant =
        Reads-bind (Reads-lift _)
          (λ o. Reads-bind (Reads-merchant_scope v) (λ m. Reads-pure (o, m)))

    Atomic-submit_intent :
        (a : Actor) (m : Merchant) (req : BuyerIntentCreateRequest)
        → Atomic (submit_intent g j rd c v a m req)
    unfolding submit_intent
    Atomic-submit_intent a m req = Atomic-bind (Reads-fail_if _ _) (λ _.
        Atomic-bind (Reads-map_error _ (Reads-first g products _))
          (λ p. Atomic-bind (Reads-fail_if _ _) (λ _. Atomic-run_with_idempotency g laws j c _ _)))

    -- A request of a buyer or a guest that ends in an error, also that of a rate limit, leaves every
    -- table as it was, where gorm has its laws.
    pub serve_buyer-failure :
        (call : BuyerCall) (l : MemoryRateLimiter) (s : Db) (e : Error)
        → (serve_buyer g j rd c v call l s).0.0 ≡ err e
        → (serve_buyer g j rd c v call l s).0.1 ≡ s
    unfolding serve_buyer handle_buyer_favorite_add handle_buyer_favorite_delete
        handle_buyer_history_view handle_buyer_history_delete handle_buyer_guest_merge
        handle_buyer_intent_create add_favorite delete_favorite view_history delete_histories
        merge_guest
    serve_buyer-failure (favorite_add bound) = Undone-limited _ Reads-owner_and_merchant (λ x.
        Atomic-bind (Reads-lift _) (λ id.
          Atomic-bind (Reads-load_visible id x.1.id)
            (λ p. Atomic-answer _ (Atomic-map_error _ (Atomic-transaction g laws _)))))
    serve_buyer-failure (favorite_delete parsed) = Undone-limited _ Reads-owner_and_merchant (λ x.
        Atomic-bind (Reads-lift _)
          (λ id. Atomic-answer _ (Atomic-answer _ (Atomic-map_error _ (Atomic-update g _ _ _)))))
    serve_buyer-failure (history_view bound) = Undone-limited _ Reads-owner_and_merchant (λ x.
        Atomic-bind (Reads-lift _) (λ req. Atomic-bind (Reads-lift _) (λ t.
          Atomic-bind (Reads-load_visible req.product_id x.1.id)
            (λ p. Atomic-answer _ (Atomic-map_error _ (Atomic-transaction g laws _))))))
    serve_buyer-failure (history_delete query) =
        Undone-limited _ Reads-owner_and_merchant
          (λ x. Atomic-answer _ (Atomic-answer _ (Atomic-map_error _ (Atomic-update g _ _ _))))
    serve_buyer-failure (guest_merge bound) = Undone-for_buyer c _ (
        Undone-limited _
          (Reads-bind (Reads-lift _) (λ a. Reads-bind (Reads-fail_if _ _) (λ _. Reads-pure a)))
          (λ a.
            Atomic-bind (Reads-lift _)
              (λ d. Atomic-answer _ (Atomic-map_error _ (Atomic-transaction g laws _)))))
    serve_buyer-failure (intent_create bound) = Undone-for_buyer c _ (
        Undone-limited _
          (Reads-bind (Reads-lift _) (λ a.
            Reads-bind (Reads-fail_if _ _)
              (λ _. Reads-bind (Reads-merchant_scope v) (λ m. Reads-pure (a, m)))))
          (λ x. Atomic-bind (Reads-lift _) (λ req. Atomic-submit_intent x.0 x.1 req)))
