-- ===== src/Database/KeepsAt.antt =====
-- Rules for what an action keeps from one known state: what was read there is still known when a
-- row is written.
use second_hand_market_backe.Base.{
  ◌≡◌, refl, sym, subst, Bool, true, Among, All-map_if_zip, Option, Among-keep, ap, if◌then◌else◌,
  false,
}
use second_hand_market_backe.Errors.{Result, ok, err}
use second_hand_market_backe.Database.Tables.{Name, Row, Db, row_id, Fits, Holds}
use second_hand_market_backe.Database.Keys.{Keyed-map_if, Keyed-unique}
use second_hand_market_backe.Database.Gorm.{Action, Gorm, IsGorm}
use second_hand_market_backe.Database.Actions.{lift, ◌>>=◌, update, look_up, attempt, first}
use second_hand_market_backe.Database.Atomic.{Reads}
use second_hand_market_backe.Database.Invert.{first-ok}
use second_hand_market_backe.Database.Keeps.{
  RowProperty, AtOk, AtFound, AtOk-found, AtOk-intro, Keeps, Any, write_from,
}

pub record KeepsAt (I : RowProperty) (s : Db) {A : Type 0} (m : Action A) (Q : A → Type 0)
    : Type 0 where
  pub stays : Holds I (m s).1 × AtOk Q (m s).0

module _ {I : RowProperty} where
  -- It is enough to keep the property from every state that has it.
  pub Keeps-everywhere :
      {A : Type 0} {m : Action A} {Q : A → Type 0}
      → ((s : Db) → Holds I s → KeepsAt I s m Q)
      → Keeps I m Q
  Keeps-everywhere k = record { at = λ s h. (k s h).stays }

  pub KeepsAt-here :
      {A : Type 0} {m : Action A} {Q : A → Type 0} {s : Db}
      → Holds I s
      → Keeps I m Q
      → KeepsAt I s m Q
  KeepsAt-here {s} h k = record { stays = k.at s h }

  module _ {A B : Type 0} {Q : B → Type 0} where
    read_from :
        (f : A → Action B) (r : Result A) (s t : Db)
        → t ≡ s
        → Holds I s
        → ((a : A) → r ≡ ok a → KeepsAt I s (f a) Q)
        → Holds I ((lift r >>= f) t).1 × AtOk Q ((lift r >>= f) t).0
    unfolding ◌>>=◌ lift
    read_from f (ok a) s t e h k =
        subst (λ u. Holds I (f a u).1 × AtOk Q (f a u).0) (sym e) (k a refl).stays
    read_from f (err x) s t e h k = (rw e h, tt)

    -- What is read is known of the state, which stays as it is.
    pub KeepsAt-read :
        {m : Action A} {f : A → Action B} {s : Db}
        → Reads m
        → Holds I s
        → ((a : A) → m s ≡ (ok a, s) → KeepsAt I s (f a) Q)
        → KeepsAt I s (m >>= f) Q
    unfolding ◌>>=◌ lift
    KeepsAt-read {m} {f} {s} reads h k = record {
      stays =
          read_from f (m s).0 s (m s).1 (reads.unchanged s) h
            (λ a e. k a (λ i. (e i, reads.unchanged s i)));
    }

    next_from :
        {P : A → Type 0} (f : A → Action B) (r : Result A) (t : Db)
        → Holds I t × AtOk P r
        → ((a : A) → P a → Keeps I (f a) Q)
        → Holds I ((lift r >>= f) t).1 × AtOk Q ((lift r >>= f) t).0
    unfolding ◌>>=◌ lift
    next_from f (ok a) t h k = let (held, p) = h in (k a p).at t held
    next_from f (err x) t h k = (h.0, tt)

    pub KeepsAt-bind :
        {P : A → Type 0} {m : Action A} {f : A → Action B} {s : Db}
        → KeepsAt I s m P
        → ((a : A) → P a → Keeps I (f a) Q)
        → KeepsAt I s (m >>= f) Q
    unfolding ◌>>=◌ lift
    KeepsAt-bind {m} {f} {s} km kf = record { stays = next_from f (m s).0 (m s).1 km.stays kf }

  -- The row with the key of a row that was read is that row, so that only it need keep its property.
  pub KeepsAt-update_row :
      (g : Gorm) (laws : IsGorm g) (n : Name) (p : Row n → Bool) (f : Row n → Row n) {s : Db}
      (r : Row n)
      → Holds I s
      → Among r (s n)
      → ((x : Row n) → p x ≡ true → row_id n x ≡ row_id n r)
      → (I n r → Fits n (f r) → I n (f r))
      → ((x : Row n) → p x ≡ true → row_id n (f x) ≡ row_id n x)
      → KeepsAt I s (update g n p f) Any
  unfolding update
  KeepsAt-update_row g laws n p f {s} r h found key good same_key = record {
    stays = write_from I n Any (g.update n p f (s n)) s h (λ k rows e.
        let (same, counted, fits) = laws.update_lem n p f (s n) rows k e in
        let only = Keyed-unique n r (s n) (h n).1 found in
        let step : (x : Row n)
            → p x ≡ true
            → (row_id n x ≡ row_id n r → x ≡ r)
            → I n x
            → Fits n (f x)
            → I n (f x) =
          λ x t one i w.
            subst (λ y. I n y → Fits n (f y) → I n (f y)) (sym (one (key x t))) good i w in
        (
          (
            rw same (
                All-map_if_zip (I n) (λ x. row_id n x ≡ row_id n r → x ≡ r) (Fits n) p f step (s n)
                  (h n).0 only fits),
            rw same (Keyed-map_if n p f same_key (s n) (h n).1),
          ),
          tt,
        ));
  }

  pub KeepsAt-if :
      {A : Type 0} {Q : A → Type 0} {s : Db} (b : Bool) {m n : Action A}
      → KeepsAt I s m Q
      → KeepsAt I s n Q
      → KeepsAt I s (if b then m else n) Q
  KeepsAt-if true x y = x
  KeepsAt-if false x y = y

-- A row that is looked up and found is one of the table's that pass the test.
pub look_up-ok :
    (g : Gorm) (laws : IsGorm g) (n : Name) (p : Row n → Bool) (o : Option (Row n)) (s t : Db)
    → look_up g n p s ≡ (ok o, t)
    → AtFound (λ r. Among r (s n) × (p r ≡ true)) o
unfolding look_up attempt ◌>>=◌ lift
look_up-ok g laws n p o s t h =
    AtOk-found n (λ r. Among r (s n) × (p r ≡ true)) (first g n p s).0 o
      (AtOk-intro (λ r. Among r (s n) × (p r ≡ true)) (first g n p s).0
        (λ r e.
          let (rest, found, same) =
            first-ok g laws n p r s (first g n p s).1 (λ i. (e i, (first g n p s).1)) in
          Among-keep p r rest (s n) found))
      (ap (λ (x : Result (Option (Row n)) × Db). x.0) h)
