-- ===== src/Intents/Keeps.antt =====
-- The intents' handlers keep the rows sound, on success and on failure.
use second_hand_market_backe.Base.{
  ℕ, ◌≡◌, refl, subst, false, List, [], ◌∷◌, not, arith, Among, Among-keep, ==→≡,
}
use second_hand_market_backe.Errors.{ok}
use second_hand_market_backe.Model.Status.{IntentStatus, same_intent_status}
use second_hand_market_backe.Model.Buyer.{BuyerIntent}
use second_hand_market_backe.Database.Tables.{intents, products, Db}
use second_hand_market_backe.Database.Gorm.{Gorm, IsGorm}
use second_hand_market_backe.Database.Keeps.{
  Keeps, Any, Keeps-bind, Keeps-pure, Keeps-raise, Keeps-lift, Keeps-if, Keeps-fail_if,
  Keeps-map_error, Keeps-first, Keeps-find_rows, Keeps-create, Keeps-update, Keeps-transaction,
  Keeps-weaken,
}
use second_hand_market_backe.Database.KeepsAt.{
  KeepsAt-read, KeepsAt-bind, KeepsAt-here, KeepsAt-update_row, KeepsAt-if, Keeps-everywhere,
}
use second_hand_market_backe.Database.Atomic.{
  Reads, Reads-bind, Reads-pure, Reads-lift, Reads-first, Reads-fail_if, Reads-map_error,
}
use second_hand_market_backe.Database.Invert.{bind-ok, first-ok, fail_if-ok, map_error-ok, pure-ok}
use second_hand_market_backe.Request.{Actor, Context, Audit}
use second_hand_market_backe.Request.Keeps.{KeepsAudit}
use second_hand_market_backe.Invariant.{Sound, Openness}
use second_hand_market_backe.Intents.{
  refuse_existing, create_buyer_intent, load_owned_intent, MerchantIntentCloseRequest,
  contacted_intent, closed_intent, contact_intent, close_intent,
}

module _ (g : Gorm) (laws : IsGorm g) where
  Keeps-refuse_existing : (rs : List BuyerIntent) → Keeps Sound (refuse_existing rs) Any
  unfolding refuse_existing
  Keeps-refuse_existing [] = Keeps-pure tt tt
  Keeps-refuse_existing (r ∷ rs) =
      Keeps-bind (Keeps-lift {Q = Any} _ (λ _ _. tt)) (λ _ _. Keeps-raise _)

  -- A new intent is created sound.
  pub Keeps-create_buyer_intent :
      (intent : BuyerIntent)
      → Openness intent.status intent.is_open
      → Keeps Sound (create_buyer_intent g intent) Any
  unfolding create_buyer_intent
  Keeps-create_buyer_intent intent opened =
      Keeps-bind (Keeps-map_error _ (Keeps-first g laws Sound products _)) (λ p _.
        Keeps-bind (Keeps-fail_if _ _) (λ _ _.
          Keeps-bind (Keeps-map_error _ (Keeps-find_rows g laws Sound intents _)) (λ existing _.
            Keeps-bind (Keeps-refuse_existing existing) (λ _ _. Keeps-map_error _ (
              Keeps-weaken (λ _ _. tt)
                (Keeps-create g laws Sound intents intent (λ i _. opened)))))))

  Keeps-load_owned_intent :
      (id merchant_id : ℕ) → Keeps Sound (load_owned_intent g id merchant_id) Any
  unfolding load_owned_intent
  Keeps-load_owned_intent id merchant_id =
      Keeps-bind (Keeps-map_error _ (Keeps-first g laws Sound intents _)) (λ i _.
        Keeps-bind (Keeps-fail_if _ _)
          (λ _ _. Keeps-bind (Keeps-lift {Q = Any} _ (λ _ _. tt)) (λ _ _. Keeps-pure i tt)))

  Reads-load_owned_intent : (id merchant_id : ℕ) → Reads (load_owned_intent g id merchant_id)
  unfolding load_owned_intent
  Reads-load_owned_intent id merchant_id =
      Reads-bind (Reads-map_error _ (Reads-first g intents _))
        (λ i. Reads-bind (Reads-fail_if _ _) (λ _. Reads-bind (Reads-lift _) (λ _. Reads-pure i)))

  -- The intent that is loaded is one of the table's.
  load_owned_intent-ok :
      (id merchant_id : ℕ) (i : BuyerIntent) (s t : Db)
      → load_owned_intent g id merchant_id s ≡ (ok i, t)
      → Among i (s intents)
  unfolding load_owned_intent
  load_owned_intent-ok id merchant_id i s t h =
      bind-ok _ _ {b = i} {s = s} {t = t} h λ r s1 read h1. bind-ok _ _ h1 λ u s2 own h2.
        bind-ok _ _ h2 λ v s3 valid h3.
          let (rest, found, e) = first-ok g laws intents _ r s s1 (map_error-ok _ _ r s s1 read) in
          subst (λ x. Among x (s intents)) (pure-ok r i s3 t h3).0
            (Among-keep _ r rest (s intents) found).0

  is_new :
      (x : IntentStatus)
      → not (same_intent_status x IntentStatus.new) ≡ false
      → x ≡ IntentStatus.new
  unfolding same_intent_status
  is_new x h = ground arith

  module _ (audit : Audit) (logged : KeepsAudit Sound audit) (c : Context) (actor : Actor) where
    -- A new intent is open, and stays so when its buyer is contacted.
    pub Keeps-contact_intent : (id : ℕ) → Keeps Sound (contact_intent c actor g audit id) Any
    unfolding contact_intent contacted_intent same_intent_status
    Keeps-contact_intent id = Keeps-transaction g laws Sound (
        Keeps-everywhere (λ s h.
          KeepsAt-read (Reads-load_owned_intent id actor.merchant_id) h (λ i loaded.
            let found = load_owned_intent-ok id actor.merchant_id i s s loaded in
            KeepsAt-if (same_intent_status i.status IntentStatus.contacted)
              (KeepsAt-here h (Keeps-pure _ tt))
              (KeepsAt-read (Reads-fail_if _ _) h (λ u allowed.
                let fresh = is_new i.status (fail_if-ok _ _ u s s allowed).0 in
                KeepsAt-bind
                  (KeepsAt-update_row g laws intents _ _ i h found (λ x e. ==→≡ x.id i.id e)
                    (λ sound _. subst (λ st. Openness st i.is_open) fresh sound) (λ x _. refl))
                  (λ _ _. Keeps-bind (logged _) (λ _ _. Keeps-pure _ tt)))))))

    pub Keeps-close_intent :
        (id : ℕ) (req : MerchantIntentCloseRequest)
        → Keeps Sound (close_intent c actor g audit id req) Any
    unfolding close_intent closed_intent
    Keeps-close_intent id req = Keeps-transaction g laws Sound (
        Keeps-bind (Keeps-load_owned_intent id actor.merchant_id) (λ i _.
          Keeps-if (same_intent_status i.status IntentStatus.closed) _ _ (λ _. Keeps-pure _ tt)
            (λ _. Keeps-bind (Keeps-fail_if _ _) (λ _ _.
              Keeps-bind (Keeps-update g laws Sound intents _ _ (λ x _ _ _. refl) (λ x _. refl))
                (λ _ _. Keeps-bind (logged _) (λ _ _. Keeps-pure _ tt))))))
