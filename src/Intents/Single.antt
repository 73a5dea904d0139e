-- ===== src/Intents/Single.antt =====
-- At most one open intent of a buyer for a product, whatever is done with intents
-- (backend/internal/app/buyer_intent_state.go and merchant_intent_handlers.go).
use second_hand_market_backe.Base.{
  ℕ, ◌≡◌, refl, sym, ap, subst, Bool, true, false, ◌&&◌, ◌≤◌, List, [], ◌∷◌, ◌++◌, ◌==◌, arith,
  keep, map_if, count_if, inl, inr, Bool-cases, Option-cases,
}
use second_hand_market_backe.Model.Buyer.{BuyerIntent}
use second_hand_market_backe.Database.Tables.{Db, products, intents, operation_logs, put}
use second_hand_market_backe.Database.Gorm.{Action, Gorm, IsGorm}
use second_hand_market_backe.Database.Keeps.{Result-cases}
use second_hand_market_backe.Database.Actions.{update}
use second_hand_market_backe.Database.Atomic.{
  Reads, Atomic, Reads-pure, Reads-raise, Reads-lift, Reads-bind, Reads-map_error, Reads-first,
  Reads-find_rows, Reads-fail_if, Atomic-bind, Atomic-map_error, Atomic-create,
}
use second_hand_market_backe.Database.KeepsTable.{
  KeepsTable, KeepsTable-bind, KeepsTable-if, KeepsTable-of_Leaves, KeepsTable-transaction,
  KeepsTable-update,
}
use second_hand_market_backe.Database.Leaves.{
  Leaves, Leaves-of_Reads, Leaves-bind, Leaves-create, Leaves-attempt,
}
use second_hand_market_backe.Request.{
  Actor, Context, Codec, AuditEntry, persist_operation_log, write_operation_log,
}
use second_hand_market_backe.Intents.{
  competes, refuse_existing, load_owned_intent, create_buyer_intent, contacted_intent,
  closed_intent, contact_intent, close_intent, MerchantIntentCloseRequest,
}
use second_hand_market_backe.Intents.Create.{IsCreated, create_buyer_intent-IsCreated}

-- An open intent of a buyer for a product.
abbrev is_open_for : ℕ → ℕ → BuyerIntent → Bool
is_open_for buyer product r = r.is_open && r.buyer_id == buyer && r.product_id == product

-- No buyer has two open intents for one product.
abbrev pub IsSingle : List BuyerIntent → Type 0
IsSingle xs = (buyer product : ℕ) → count_if (is_open_for buyer product) xs ≤ 1

-- The states that follow on one another when intents are created, contacted and closed, in any order
-- and by anyone, whether the steps succeed or fail.
pub data IntentSteps (g : Gorm) (j : Codec) (s0 : Db) : Db → Type 0 where
  start : IntentSteps g j s0 s0
  created :
      {s : Db} (intent : BuyerIntent)
      → IntentSteps g j s0 s
      → IntentSteps g j s0 (create_buyer_intent g intent s).1
  contacted :
      {s : Db} (c : Context) (actor : Actor) (id : ℕ)
      → IntentSteps g j s0 s
      → IntentSteps g j s0 (contact_intent c actor g (write_operation_log g j c) id s).1
  closed :
      {s : Db} (c : Context) (actor : Actor) (id : ℕ) (req : MerchantIntentCloseRequest)
      → IntentSteps g j s0 s
      → IntentSteps g j s0 (close_intent c actor g (write_operation_log g j c) id req s).1

module _ {A : Type 0} (q : A → Bool) where
  -- An update after which no row passes that did not pass before.
  count_if-map_if :
      (p : A → Bool) (f : A → A)
      → ((x : A) → q (f x) ≡ true → q x ≡ true)
      → (xs : List A) → count_if q (map_if p f xs) ≤ count_if q xs
  count_if-map_if p f back [] = omega arith
  count_if-map_if p f back (x ∷ xs) = ground (arith, back x, count_if-map_if p f back xs)

  -- A row is added to rows none of which passes the same test.
  count_if_one_more :
      (r : A → Bool) (y : A) (xs : List A)
      → (q y ≡ true → (x : A) → q x ≡ true → r x ≡ true)
      → keep r xs ≡ []
      → count_if q xs ≤ 1
      → count_if q (xs ++ (y ∷ [])) ≤ 1
  count_if_one_more r y xs covers empty h = elim (Bool-cases (q y)) [
    | inl e ↦ added_to xs (covers e) empty
    | inr e ↦ ground (arith, missed xs e)
  ]
    where
      added_to :
          (zs : List A)
          → ((x : A) → q x ≡ true → r x ≡ true)
          → keep r zs ≡ []
          → count_if q (zs ++ (y ∷ [])) ≤ 1
      added_to [] k none_there = ground arith
      added_to (z ∷ zs) k none_there = ground (arith, k z, added_to zs k)

      missed : (zs : List A) → q y ≡ false → count_if q (zs ++ (y ∷ [])) ≡ count_if q zs
      missed [] e = ground (arith, e)
      missed (z ∷ zs) e = ground (arith, missed zs e)

module _ (g : Gorm) (j : Codec) where
  Leaves-write_operation_log :
      (c : Context) (e : AuditEntry) → Leaves intents (write_operation_log g j c e)
  unfolding write_operation_log persist_operation_log put
  Leaves-write_operation_log c e =
      Leaves-bind (Leaves-attempt persisted) (λ _. Leaves-of_Reads (Reads-pure tt))
    where
      persisted : Leaves intents (persist_operation_log g j c e)
      persisted = elim (Option-cases (j.marshal e.detail)) [
        | inl none_made ↦ rw (none_made, persist_operation_log) (Leaves-of_Reads (Reads-raise _))
        | inr (payload, made) ↦
            rw (made, persist_operation_log)
              (Leaves-bind (Leaves-create operation_logs (λ xs s. refl) g _)
                (λ _. Leaves-of_Reads (Reads-pure tt)))
      ]

Reads-refuse_existing : (rs : List BuyerIntent) → Reads (refuse_existing rs)
unfolding refuse_existing
Reads-refuse_existing [] = Reads-pure tt
Reads-refuse_existing (r ∷ rs) = Reads-bind (Reads-lift _) (λ _. Reads-raise _)

Reads-load_owned_intent :
    (g : Gorm) (id merchant_id : ℕ) → Reads (load_owned_intent g id merchant_id)
unfolding load_owned_intent
Reads-load_owned_intent g id merchant_id =
    Reads-bind (Reads-map_error _ (Reads-first g intents _))
      (λ i. Reads-bind (Reads-fail_if _ _) (λ _. Reads-bind (Reads-lift _) (λ _. Reads-pure i)))

module _ (g : Gorm) (laws : IsGorm g) where
  Atomic-create_buyer_intent : (intent : BuyerIntent) → Atomic (create_buyer_intent g intent)
  unfolding create_buyer_intent
  Atomic-create_buyer_intent intent =
      Atomic-bind (Reads-map_error _ (Reads-first g products _)) (λ p.
        Atomic-bind (Reads-fail_if _ _) (λ _.
          Atomic-bind (Reads-map_error _ (Reads-find_rows g intents _)) (λ existing.
            Atomic-bind (Reads-refuse_existing existing)
              (λ _. Atomic-map_error _ (Atomic-create g intents intent)))))

  IsCreated-IsSingle :
      (intent made : BuyerIntent) (s t : Db)
      → IsCreated s intent made t
      → IsSingle (s intents)
      → IsSingle (t intents)
  unfolding put competes
  IsCreated-IsSingle intent made s t one h buyer product =
      subst (λ (d : Db). count_if (is_open_for buyer product) (d intents) ≤ 1) (sym one.appended)
        (count_if_one_more (is_open_for buyer product) (competes intent) made (s intents)
          (λ e x q.
            alike (ap (λ (r : BuyerIntent). r.buyer_id) one.keyed)
              (ap (λ (r : BuyerIntent). r.product_id) one.keyed) x e q)
          one.alone (h buyer product))
    where
      alike :
          made.buyer_id ≡ intent.buyer_id
          → made.product_id ≡ intent.product_id
          → (x : BuyerIntent) → is_open_for buyer product made ≡ true
          → is_open_for buyer product x ≡ true
          → competes intent x ≡ true
      alike b p x e q = ground (arith, b, p, e, q)

  create_buyer_intent-IsSingle :
      (intent : BuyerIntent) (s : Db)
      → IsSingle (s intents)
      → IsSingle ((create_buyer_intent g intent s).1 intents)
  create_buyer_intent-IsSingle intent s h = elim (Result-cases (create_buyer_intent g intent s).0) [
    | inl (made, e) ↦
        IsCreated-IsSingle intent made s (create_buyer_intent g intent s).1
          (create_buyer_intent-IsCreated g laws intent made s (create_buyer_intent g intent s).1
            (λ i. (e i, (create_buyer_intent g intent s).1)))
          h
    | inr (e, failed) ↦
        subst (λ (d : Db). IsSingle (d intents))
          (sym ((Atomic-create_buyer_intent intent).undone s e failed)) h
  ]

  -- An update that opens no intent and moves none.
  updated :
      (p : BuyerIntent → Bool) (f : BuyerIntent → BuyerIntent)
      → ((b q : ℕ) (x : BuyerIntent) → is_open_for b q (f x) ≡ true → is_open_for b q x ≡ true)
      → KeepsTable intents IsSingle (update g intents p f)
  unfolding put
  updated p f back =
      KeepsTable-update intents IsSingle (λ xs s. refl) g laws p f
        (λ xs h b q. below (count_if-map_if (is_open_for b q) p f (back b q) xs) (h b q))
    where
      below : {k l : ℕ} → k ≤ l → l ≤ 1 → k ≤ 1
      below e h = omega arith

  module _ (j : Codec) (c : Context) (actor : Actor) (id : ℕ) where
    reads : {A : Type 0} {m : Action A} → Reads m → KeepsTable intents IsSingle m
    reads r = KeepsTable-of_Leaves (Leaves-of_Reads r)

    logged : (e : AuditEntry) → KeepsTable intents IsSingle (write_operation_log g j c e)
    logged e = KeepsTable-of_Leaves (Leaves-write_operation_log g j c e)

    KeepsTable-contact_intent :
        KeepsTable intents IsSingle (contact_intent c actor g (write_operation_log g j c) id)
    unfolding contact_intent contacted_intent
    KeepsTable-contact_intent = KeepsTable-transaction g laws (
        KeepsTable-bind (reads (Reads-load_owned_intent g id _)) (λ i.
          KeepsTable-if _ (reads (Reads-pure _)) (
            KeepsTable-bind (reads (Reads-fail_if _ _)) (λ _.
              KeepsTable-bind (updated _ (contacted_intent c actor) (λ b q x e. e))
                (λ _. KeepsTable-bind (logged _) (λ _. reads (Reads-pure _)))))))

    KeepsTable-close_intent :
        (req : MerchantIntentCloseRequest)
        → KeepsTable intents IsSingle (close_intent c actor g (write_operation_log g j c) id req)
    unfolding close_intent closed_intent
    KeepsTable-close_intent req = KeepsTable-transaction g laws (
        KeepsTable-bind (reads (Reads-load_owned_intent g id _)) (λ i.
          KeepsTable-if _ (reads (Reads-pure _)) (
            KeepsTable-bind (reads (Reads-fail_if _ _)) (λ _.
              KeepsTable-bind (updated _ (closed_intent c actor req) (λ b q x e. cc))
                (λ _. KeepsTable-bind (logged _) (λ _. reads (Reads-pure _)))))))

  -- Where no buyer has two open intents for one product, none has after any sequence of intents being
  -- created, contacted and closed, one step after another, failing steps included, where gorm has its
  -- laws.
  pub IntentSteps-IsSingle :
      (j : Codec) (s0 s : Db) → IsSingle (s0 intents) → IntentSteps g j s0 s → IsSingle (s intents)
  IntentSteps-IsSingle j s0 s h start = h
  IntentSteps-IsSingle j s0 s h (created {s = s1} intent steps) =
      create_buyer_intent-IsSingle intent s1 (IntentSteps-IsSingle j s0 s1 h steps)
  IntentSteps-IsSingle j s0 s h (contacted {s = s1} c actor id steps) =
      (KeepsTable-contact_intent j c actor id).stays s1 (IntentSteps-IsSingle j s0 s1 h steps)
  IntentSteps-IsSingle j s0 s h (closed {s = s1} c actor id req steps) =
      (KeepsTable-close_intent j c actor id req).stays s1 (IntentSteps-IsSingle j s0 s1 h steps)
