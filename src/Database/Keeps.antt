-- ===== src/Database/Keeps.antt =====
-- Rules for `Keeps`: whether it succeeds or fails, an action leaves every row with its property,
-- and what it returns has a property of its own.
use second_hand_market_backe.Base.{
  ◌≢◌, ℕ, ◌≡◌, refl, Option, none, some, Bool, true, false, not, List, [], ◌∷◌, ◌⊎◌, inl, inr, All,
  All-append, All-keep, All-keep_plain, All-map_if, if◌then◌else◌, subst,
}
use second_hand_market_backe.Errors.{Error, Result, ok, err, BizError, is_record_not_found}
use second_hand_market_backe.Database.Tables.{Table, Name, Row, with_id, Db, Fits, Holds, row_id}
use second_hand_market_backe.Database.Holds.{Holds-put}
use second_hand_market_backe.Database.Keys.{row_id-with_id, Keyed-append, Keyed-map_if, Keyed-keep}
use second_hand_market_backe.Database.Gorm.{Action, Gorm, IsGorm}
use second_hand_market_backe.Database.Actions.{
  pure, raise, lift, ◌>>=◌, fail_if, map_error, attempt, head_or_missing, find_rows, first, count,
  look_up, found_or_none, write, create, update, delete, transaction,
}

-- What is known of a row is its property, given for each table.
abbrev pub RowProperty : Type 1
RowProperty = (n : Name) → Row n → Type 0

-- The property of a result, where it succeeded.
abbrev pub AtOk : {A : Type 0} → (A → Type 0) → Result A → Type 0
AtOk Q (ok a) = Q a
AtOk Q (err e) = Unit

-- The property of a row that is there.
abbrev pub AtFound : {A : Type 0} → (A → Type 0) → Option A → Type 0
AtFound Q none = Unit
AtFound Q (some a) = Q a

pub record Keeps (I : RowProperty) {A : Type 0} (m : Action A) (Q : A → Type 0) : Type 0 where
  pub at : (s : Db) → Holds I s → Holds I (m s).1 × AtOk Q (m s).0

-- Nothing is claimed of the result.
abbrev pub Any : {A : Type 0} → A → Type 0
Any _ = Unit

module _ {A : Type 0} where
  pub Result-cases : (r : Result A) → ((a : A) × (r ≡ ok a)) ⊎ ((e : Error) × (r ≡ err e))
  Result-cases (ok a) = inl (a, refl)
  Result-cases (err e) = inr (e, refl)

  pub AtOk-intro : (Q : A → Type 0) (r : Result A) → ((a : A) → r ≡ ok a → Q a) → AtOk Q r
  AtOk-intro Q (ok a) q = q a refl
  AtOk-intro Q (err e) q = tt

  pub AtOk-elim : (Q : A → Type 0) (r : Result A) (a : A) → AtOk Q r → r ≡ ok a → Q a
  AtOk-elim Q r a q e = subst (AtOk Q) e q

  AtOk-weaken : (Q R : A → Type 0) (r : Result A) → ((a : A) → Q a → R a) → AtOk Q r → AtOk R r
  AtOk-weaken Q R (ok a) w q = w a q
  AtOk-weaken Q R (err e) w q = tt

  AtOk-map_error :
      (Q : A → Type 0) (f : Error → Error) (r : Result A)
      → AtOk Q r
      → AtOk Q (elim r [ ok a ↦ ok a | err e ↦ err (f e) ])
  AtOk-map_error Q f (ok a) q = q
  AtOk-map_error Q f (err e) q = tt

module _ {I : RowProperty} {A : Type 0} {Q : A → Type 0} where
  pub Keeps-pure : (a : A) → Q a → Keeps I (pure a) Q
  unfolding pure
  Keeps-pure a q = record { at = λ s h. (h, q) }

  pub Keeps-raise : (e : Error) → Keeps I (raise {A = A} e) Q
  unfolding raise
  Keeps-raise e = record { at = λ s h. (h, tt) }

  -- The rest may use what the value is.
  pub Keeps-lift : (r : Result A) → ((a : A) → r ≡ ok a → Q a) → Keeps I (lift r) Q
  unfolding lift
  Keeps-lift r q = record { at = λ s h. (h, AtOk-intro Q r q) }

  pub Keeps-if :
      (b : Bool) (m n : Action A)
      → (b ≡ true → Keeps I m Q)
      → (b ≡ false → Keeps I n Q)
      → Keeps I (if b then m else n) Q
  Keeps-if true m n km kn = km refl
  Keeps-if false m n km kn = kn refl

  -- A weaker claim about the result.
  pub Keeps-weaken :
      {R : A → Type 0} {m : Action A} → ((a : A) → Q a → R a) → Keeps I m Q → Keeps I m R
  Keeps-weaken {R} {m} w k = record {
    at = λ s h. ((k.at s h).0, AtOk-weaken Q R (m s).0 w (k.at s h).1);
  }

  pub Keeps-map_error : (f : Error → Error) {m : Action A} → Keeps I m Q → Keeps I (map_error f m) Q
  unfolding map_error
  Keeps-map_error f {m} k = record {
    at = λ s h. ((k.at s h).0, AtOk-map_error Q f (m s).0 (k.at s h).1);
  }

  pub Keeps-attempt : {m : Action A} → Keeps I m Q → Keeps I (attempt m) (AtOk Q)
  unfolding attempt
  Keeps-attempt k = record { at = λ s h. k.at s h }

pub Keeps-fail_if :
    {I : RowProperty} (b : Bool) (e : BizError) → Keeps I (fail_if b e) (λ _. b ≡ false)
unfolding fail_if
Keeps-fail_if true e = record { at = λ s h. (h, tt) }
Keeps-fail_if false e = record { at = λ s h. (h, refl) }

module _ {I : RowProperty} {A B : Type 0} {Q : A → Type 0} {R : B → Type 0} where
  bind_from :
      (f : A → Action B) (r : Result A) (s : Db)
      → ((a : A) → Q a → Keeps I (f a) R)
      → Holds I s
      → AtOk Q r
      → Holds I ((lift r >>= f) s).1 × AtOk R ((lift r >>= f) s).0
  unfolding ◌>>=◌ lift
  bind_from f (ok a) s kf h q = (kf a q).at s h
  bind_from f (err e) s kf h q = (h, tt)

  pub Keeps-bind :
      {m : Action A} {f : A → Action B}
      → Keeps I m Q
      → ((a : A) → Q a → Keeps I (f a) R)
      → Keeps I (m >>= f) R
  unfolding ◌>>=◌ lift
  Keeps-bind {m} {f} km kf = record {
    at = λ s h. bind_from f (m s).0 (m s).1 kf (km.at s h).0 (km.at s h).1;
  }

-- A statement that answers good rows keeps the property.
pub write_from :
    (I : RowProperty) {A : Type 0} (n : Name) (Q : A → Type 0) (r : Result (A × List (Row n)))
    (s : Db)
    → Holds I s
    → ((a : A) (rows : List (Row n)) → r ≡ ok (a, rows) → Table I n rows × Q a)
    → Holds I (write n r s).1 × AtOk Q (write n r s).0
unfolding write
write_from I n Q (ok (a, rows)) s h good =
    let (new, q) = good a rows refl in (Holds-put I n rows s new h, q)
write_from I n Q (err e) s h good = (h, tt)

pub AtOk-found :
    (n : Name) (Q : Row n → Type 0) (r : Result (Row n)) (o : Option (Row n))
    → AtOk Q r
    → found_or_none r ≡ ok o
    → AtFound Q o
unfolding found_or_none
AtOk-found n Q (ok a) none q e = cc
AtOk-found n Q (ok a) (some b) q e = subst Q (same_found e) q
  where
    same_found : {x y : Row n} → Result.ok (some x) ≡ Result.ok (some y) → x ≡ y
    same_found h = cc
AtOk-found n Q (err x) none q e = tt
AtOk-found n Q (err x) (some b) q e = absurd (not_ok (is_record_not_found x) e)
  where
    not_ok : (t : Bool) → (if t then Result.ok none else err x) ≡ Result.ok (some b) → ⊥
    not_ok true h = cc
    not_ok false h = cc

module _ (g : Gorm) (laws : IsGorm g) (I : RowProperty) where
  AtOk-head :
      (n : Name) (Q : Row n → Type 0) (rs : List (Row n)) → All Q rs → AtOk Q (head_or_missing rs)
  unfolding head_or_missing
  AtOk-head n Q [] h = tt
  AtOk-head n Q (r ∷ rs) h = h.0

  -- What is read has passed the test, and has the property of its table.
  pub Keeps-find_rows :
      (n : Name) (p : Row n → Bool) → Keeps I (find_rows g n p) (All (λ r. (p r ≡ true) × I n r))
  unfolding find_rows
  Keeps-find_rows n p = record {
    at = λ s h. (
      h,
      AtOk-intro (All (λ r. (p r ≡ true) × I n r)) (g.select n p (s n))
          (λ ys e. rw (laws.select_lem n p (s n) ys e) (All-keep (I n) p (s n) (h n).0)),
    );
  }

  pub Keeps-first :
      (n : Name) (p : Row n → Bool) → Keeps I (first g n p) (λ r. (p r ≡ true) × I n r)
  unfolding first
  Keeps-first n p = Keeps-bind (Keeps-find_rows n p) (λ rows q.
      Keeps-lift (head_or_missing rows) (λ r e.
        AtOk-elim (λ r. (p r ≡ true) × I n r) (head_or_missing rows) r
          (AtOk-head n (λ r. (p r ≡ true) × I n r) rows q) e))

  pub Keeps-look_up :
      (n : Name) (p : Row n → Bool) → Keeps I (look_up g n p) (AtFound (λ r. (p r ≡ true) × I n r))
  unfolding look_up
  Keeps-look_up n p = Keeps-bind (Keeps-attempt (Keeps-first n p)) (λ r q.
      Keeps-lift (found_or_none r) (λ o e. AtOk-found n (λ r. (p r ≡ true) × I n r) r o q e))

  pub Keeps-count : (n : Name) (p : Row n → Bool) → Keeps I (count g n p) Any
  unfolding count
  Keeps-count n p = Keeps-bind (Keeps-find_rows n p) (λ rows q. Keeps-pure _ tt)

  -- A new row has its property, whatever key it gets.
  pub Keeps-create :
      (n : Name) (r : Row n)
      → ((i : ℕ) → Fits n (with_id n i r) → I n (with_id n i r))
      → Keeps I (create g n r) (λ r'. (i : ℕ) × (r' ≡ with_id n i r) × I n r')
  unfolding create
  Keeps-create n r good = record {
    at = λ s h.
        write_from I n (λ r'. (i : ℕ) × (r' ≡ with_id n i r) × I n r') (g.create n r (s n)) s h
          (λ r' rows e.
            let (i, same, appended, fits, fresh) = laws.create_lem n r r' (s n) rows e in
            let held : I n r' = rw same (good i (rw same at fits)) in
            let key : row_id n r' ≡ i = rw same (row_id-with_id n i r) in
            let unlike : All (λ x. row_id n x ≢ row_id n r') (s n) = rw key fresh in
            (
              (
                rw appended (All-append (I n) (s n) (r' ∷ []) (h n).0 (held, tt)),
                rw appended (Keyed-append n r' (s n) (h n).1 unlike),
              ),
              (i, same, held),
            ));
  }

  -- A changed row keeps its property and its key; the columns hold what was written.
  pub Keeps-update :
      (n : Name) (p : Row n → Bool) (f : Row n → Row n)
      → ((x : Row n) → p x ≡ true → I n x → Fits n (f x) → I n (f x))
      → ((x : Row n) → p x ≡ true → row_id n (f x) ≡ row_id n x)
      → Keeps I (update g n p f) Any
  unfolding update
  Keeps-update n p f good same_key = record {
    at = λ s h. write_from I n Any (g.update n p f (s n)) s h (λ k rows e.
        let (same, counted, fits) = laws.update_lem n p f (s n) rows k e in
        (
          (
            rw same (All-map_if (I n) (Fits n) p f good (s n) (h n).0 fits),
            rw same (Keyed-map_if n p f same_key (s n) (h n).1),
          ),
          tt,
        ));
  }

  pub Keeps-delete : (n : Name) (p : Row n → Bool) → Keeps I (delete g n p) Any
  unfolding delete
  Keeps-delete n p = record {
    at = λ s h. write_from I n Any (g.delete n p (s n)) s h (λ k rows e.
        let same = laws.delete_lem n p (s n) rows k e in
        (
          (
            rw same (All-keep_plain (I n) (λ x. not (p x)) (s n) (h n).0),
            rw same (Keyed-keep n (λ x. not (p x)) (s n) (h n).1),
          ),
          tt,
        ));
  }

  -- A transaction that fails has changed nothing; one that succeeds is its body.
  transaction_from :
      {A : Type 0} (Q : A → Type 0) (m : Action A) (s s' : Db) (r : Result A)
      → Keeps I m Q
      → Holds I s
      → g.transaction m s ≡ (r, s')
      → Holds I s' × AtOk Q r
  transaction_from Q m s s' (ok a) k h e =
      subst (λ (t : Result _ × Db). Holds I t.1 × AtOk Q t.0) (laws.commit m s s' a e) (k.at s h)
  transaction_from Q m s s' (err x) k h e = (rw (laws.abort m s s' x e) h, tt)

  pub Keeps-transaction :
      {A : Type 0} {Q : A → Type 0} {m : Action A} → Keeps I m Q → Keeps I (transaction g m) Q
  unfolding transaction
  Keeps-transaction {A} {Q} {m} k = record {
    at = λ s h. transaction_from Q m s (g.transaction m s).1 (g.transaction m s).0 k h refl;
  }
