-- ===== src/System/Buyers/Keeps.antt =====
-- The requests of buyers and guests keep the rows sound.
use second_hand_market_backe.Base.{ℕ, refl, Bool, Option, some, List, [], ◌∷◌, inl, inr}
use second_hand_market_backe.Errors.{Result, ok, err}
use second_hand_market_backe.Model.Status.{Time, UserType}
use second_hand_market_backe.Model.People.{Merchant}
use second_hand_market_backe.Database.Tables.{Db, Holds, products, merchants}
use second_hand_market_backe.Database.Gorm.{Action, Gorm, IsGorm}
use second_hand_market_backe.Database.Keeps.{
  Keeps, Any, AtOk, Result-cases, Keeps-bind, Keeps-pure, Keeps-lift, Keeps-fail_if,
  Keeps-map_error, Keeps-first, Keeps-weaken,
}
use second_hand_market_backe.Session.{require_auth}
use second_hand_market_backe.Request.{Actor, Context, Codec, Fields}
use second_hand_market_backe.RateLimiter.{MemoryRateLimiter}
use second_hand_market_backe.Idempotency.Laws.{Keeps-run_with_idempotency}
use second_hand_market_backe.Intents.Keeps.{Keeps-create_buyer_intent}
use second_hand_market_backe.Invariant.{Sound}
use second_hand_market_backe.Buyers.Owner.{
  Visit, Gate, required_owner, resolve_buyer_merchant_scope, load_buyer_visible_product,
  check_rate_limits, limited, get_device_id,
}
use second_hand_market_backe.Buyers.Owner.Resolved.{
  IsOwner, IsResolved-IsOwner, required_owner-IsResolved,
}
use second_hand_market_backe.Buyers.Favorites.{
  owner_and_merchant, handle_buyer_favorite_add, handle_buyer_favorite_delete,
}
use second_hand_market_backe.Buyers.Histories.{
  handle_buyer_history_view, handle_buyer_history_delete, BuyerHistoryViewRequest,
}
use second_hand_market_backe.Buyers.Merge.{handle_buyer_guest_merge}
use second_hand_market_backe.Buyers.Keeps.{
  Keeps-add_favorite, Keeps-delete_favorite, Keeps-view_history, Keeps-delete_histories,
  Keeps-merge_guest,
}
use second_hand_market_backe.System.Buyers.{
  BuyerCall, favorite_add, favorite_delete, history_view, history_delete, guest_merge,
  intent_create, BuyerIntentCreateRequest, new_intent, Readers, for_buyer, submit_intent,
  handle_buyer_intent_create, serve_buyer,
}

-- A handler over the limiter, from whatever state of it.
abbrev pub Serves :
    {A : Type 0} → (MemoryRateLimiter → Db → (Result A × Db) × MemoryRateLimiter) → Type 0
Serves m = (l : MemoryRateLimiter) (s : Db) → Holds Sound s → Holds Sound (m l s).0.1

module _ {A B : Type 0} {P : A → Type 0} where
  limited_from :
      (r : Result A) (t : Db) (gates : A → List Gate) (body : A → Action B) (l : MemoryRateLimiter)
      → Holds Sound t × AtOk P r
      → ((a : A) → P a → Keeps Sound (body a) Any)
      → Holds Sound (limited (λ _. (r, t)) gates body l t).0.1
  unfolding limited
  limited_from (ok a) t gates body l h k =
      ((Keeps-bind (Keeps-lift {Q = Any} (check_rate_limits (gates a) l).0 (λ _ _. tt))
          (λ _ _. k a h.1)).at
        t h.0).0
  limited_from (err e) t gates body l h k = h.0

  Serves-limited :
      {checks : Action A} (gates : A → List Gate) {body : A → Action B}
      → Keeps Sound checks P
      → ((a : A) → P a → Keeps Sound (body a) Any)
      → Serves (limited checks gates body)
  unfolding limited
  Serves-limited {checks} gates {body} kc kb l s h =
      limited_from (checks s).0 (checks s).1 gates body l (kc.at s h) kb

Serves-for_buyer :
    (c : Context) (m : MemoryRateLimiter → Db → (Result Fields × Db) × MemoryRateLimiter)
    → Serves m
    → Serves (for_buyer c m)
unfolding for_buyer
Serves-for_buyer c m k l s h = elim (Result-cases (require_auth (UserType.buyer ∷ []) c.actor)) [
  | inl (a, e) ↦ rw (e, for_buyer) (k l s h)
  | inr (x, e) ↦ rw (e, for_buyer) h
]

module _ (g : Gorm) (laws : IsGorm g) where
  Keeps-merchant_scope : (v : Visit) → Keeps Sound (resolve_buyer_merchant_scope g v) Any
  unfolding resolve_buyer_merchant_scope
  Keeps-merchant_scope v =
      Keeps-bind (Keeps-fail_if _ _)
        (λ _ _. Keeps-map_error _ (Keeps-weaken (λ _ _. tt) (Keeps-first g laws Sound merchants _)))

  Keeps-load_visible :
      (product_id merchant_id : ℕ)
      → Keeps Sound (load_buyer_visible_product g product_id merchant_id) Any
  unfolding load_buyer_visible_product
  Keeps-load_visible product_id merchant_id =
      Keeps-bind (Keeps-map_error _ (Keeps-first g laws Sound products _))
        (λ p _. Keeps-bind (Keeps-fail_if _ _) (λ _ _. Keeps-pure p tt))

  module _ (c : Context) (v : Visit) where
    -- The owner that the handlers resolve agrees with its key.
    Keeps-owner_and_merchant : Keeps Sound (owner_and_merchant g c v) (λ x. IsOwner x.0)
    unfolding owner_and_merchant
    Keeps-owner_and_merchant =
        Keeps-bind
          (Keeps-lift {Q = IsOwner} (required_owner c v)
            (λ o e. IsResolved-IsOwner c v o (required_owner-IsResolved c v o e)))
          (λ o owner. Keeps-bind (Keeps-merchant_scope v) (λ m _. Keeps-pure (o, m) owner))

    Serves-favorite_add : (bound : Result ℕ) → Serves (handle_buyer_favorite_add g c v bound)
    unfolding handle_buyer_favorite_add
    Serves-favorite_add bound = Serves-limited _ Keeps-owner_and_merchant (λ x owner.
        Keeps-bind (Keeps-lift {Q = Any} bound (λ _ _. tt)) (λ id _.
          Keeps-bind (Keeps-load_visible id x.1.id) (λ p _.
            Keeps-bind (Keeps-add_favorite g laws x.0 owner id p.merchant_id)
              (λ _ _. Keeps-pure _ tt))))

    Serves-favorite_delete :
        (parsed : Result ℕ) → Serves (handle_buyer_favorite_delete g c v parsed)
    unfolding handle_buyer_favorite_delete
    Serves-favorite_delete parsed = Serves-limited _ Keeps-owner_and_merchant (λ x owner.
        Keeps-bind (Keeps-lift {Q = Any} parsed (λ _ _. tt)) (λ id _.
          Keeps-bind (Keeps-delete_favorite g laws x.0 x.1.id id) (λ _ _. Keeps-pure _ tt)))

    Serves-history_view :
        (parse : List ℕ → Option Time) (bound : Result BuyerHistoryViewRequest)
        → Serves (handle_buyer_history_view g c v parse bound)
    unfolding handle_buyer_history_view
    Serves-history_view parse bound = Serves-limited _ Keeps-owner_and_merchant (λ x owner.
        Keeps-bind (Keeps-lift {Q = Any} bound (λ _ _. tt)) (λ req _.
          Keeps-bind (Keeps-lift {Q = Any} _ (λ _ _. tt)) (λ viewed_at _.
            Keeps-bind (Keeps-load_visible req.product_id x.1.id) (λ p _.
              Keeps-bind
                (Keeps-view_history g laws x.0 owner req.product_id p.merchant_id viewed_at)
                (λ _ _. Keeps-pure _ tt)))))

    Serves-history_delete :
        (equals : List ℕ → ℕ → Bool) (query : List ℕ)
        → Serves (handle_buyer_history_delete g c v equals query)
    unfolding handle_buyer_history_delete
    Serves-history_delete equals query = Serves-limited _ Keeps-owner_and_merchant (λ x owner.
        Keeps-bind (Keeps-delete_histories g laws x.0 x.1.id _) (λ _ _. Keeps-pure _ tt))

    Serves-guest_merge : (bound : Result (List ℕ)) → Serves (handle_buyer_guest_merge g c bound)
    unfolding handle_buyer_guest_merge
    Serves-guest_merge bound =
        Serves-limited _
          (Keeps-bind (Keeps-lift {Q = Any} _ (λ _ _. tt))
            (λ a _. Keeps-bind (Keeps-fail_if _ _) (λ _ _. Keeps-pure {Q = Any} a tt)))
          (λ a _. Keeps-bind (Keeps-lift {Q = Any} bound (λ _ _. tt)) (λ d _.
            Keeps-bind (Keeps-merge_guest g laws a.user_id (c.now 1) d) (λ _ _. Keeps-pure _ tt)))

    module _ (j : Codec) (rd : Readers) where
      Keeps-submit_intent :
          (a : Actor) (m : Merchant) (req : BuyerIntentCreateRequest)
          → Keeps Sound (submit_intent g j rd c v a m req) Any
      unfolding submit_intent new_intent
      Keeps-submit_intent a m req = Keeps-bind (Keeps-fail_if _ _) (λ _ _.
          Keeps-bind (Keeps-map_error _ (Keeps-first g laws Sound products _)) (λ p _.
            Keeps-bind (Keeps-fail_if _ _) (λ _ _.
              Keeps-run_with_idempotency g laws j Sound (λ _. tt) _
                (Keeps-bind
                  (Keeps-bind
                    (Keeps-create_buyer_intent g laws
                      (new_intent c a (get_device_id v) p.merchant_id req) refl)
                    (λ i _. Keeps-pure {Q = Any} _ tt))
                  (λ x _. Keeps-pure (some x) tt))
                c _)))

      Serves-intent_create :
          (bound : Result BuyerIntentCreateRequest)
          → Serves (handle_buyer_intent_create g j rd c v bound)
      unfolding handle_buyer_intent_create
      Serves-intent_create bound =
          Serves-limited _
            (Keeps-bind (Keeps-lift {Q = Any} _ (λ _ _. tt)) (λ a _.
              Keeps-bind (Keeps-fail_if _ _) (λ _ _.
                Keeps-bind (Keeps-merchant_scope v) (λ m _. Keeps-pure {Q = Any} (a, m) tt))))
            (λ x _.
              Keeps-bind (Keeps-lift {Q = Any} bound (λ _ _. tt))
                (λ req _. Keeps-submit_intent x.0 x.1 req))

      -- A request of a buyer or a guest keeps every row sound, whether it succeeds or fails.
      pub Serves-serve_buyer : (call : BuyerCall) → Serves (serve_buyer g j rd c v call)
      unfolding serve_buyer
      Serves-serve_buyer (favorite_add bound) = Serves-favorite_add bound
      Serves-serve_buyer (favorite_delete parsed) = Serves-favorite_delete parsed
      Serves-serve_buyer (history_view bound) = Serves-history_view rd.parse_time bound
      Serves-serve_buyer (history_delete query) = Serves-history_delete rd.equals_text query
      Serves-serve_buyer (guest_merge bound) = Serves-for_buyer c _ (Serves-guest_merge bound)
      Serves-serve_buyer (intent_create bound) = Serves-for_buyer c _ (Serves-intent_create bound)
