-- ===== src/Database/Atomic.antt =====
-- Actions that leave no trace when they fail.
use second_hand_market_backe.Base.{inl, inr, List, ◌≡◌, refl, ◌∙◌, Bool, true, false, if◌then◌else◌}
use second_hand_market_backe.Errors.{Error, Result, ok, err, BizError}
use second_hand_market_backe.Database.Tables.{Name, Row, Db}
use second_hand_market_backe.Database.Gorm.{Action, Gorm, IsGorm}
use second_hand_market_backe.Database.Keeps.{Result-cases}
use second_hand_market_backe.Database.Actions.{
  pure, raise, lift, ◌>>=◌, fail_if, map_error, find_rows, first, look_up, attempt, transaction,
  write, create, update,
}

pub record Atomic {A : Type 0} (m : Action A) : Type 0 where
  pub undone : (s : Db) (e : Error) → (m s).0 ≡ err e → (m s).1 ≡ s

-- It changes nothing at all.
pub record Reads {A : Type 0} (m : Action A) : Type 0 where
  pub unchanged : (s : Db) → (m s).1 ≡ s

no_error :
    {A : Type 0} (f : Error → Error) (r : Result A) (x : A) (e : Error)
    → r ≡ ok x
    → (elim r [ ok a ↦ ok a | err y ↦ err (f y) ]) ≡ err e
    → ⊥
no_error f (ok a) x e q h = cc
no_error f (err y) x e q h = cc

written_nothing :
    {A : Type 0} (n : Name) (r : Result (A × List (Row n))) (s : Db) (e : Error)
    → (write n r s).0 ≡ err e
    → (write n r s).1 ≡ s
unfolding write
written_nothing n (ok x) s e h = cc
written_nothing n (err y) s e h = refl

-- A statement that fails writes nothing.
pub Atomic-update :
    (g : Gorm) (n : Name) (p : Row n → Bool) (f : Row n → Row n) → Atomic (update g n p f)
unfolding update
Atomic-update g n p f = record { undone = λ s e h. written_nothing n (g.update n p f (s n)) s e h }

pub Atomic-create : (g : Gorm) (n : Name) (r : Row n) → Atomic (create g n r)
unfolding create
Atomic-create g n r = record { undone = λ s e h. written_nothing n (g.create n r (s n)) s e h }

module _ {A : Type 0} where
  pub Reads-pure : (a : A) → Reads (pure a)
  unfolding pure
  Reads-pure a = record { unchanged = λ s. refl }

  pub Reads-lift : (r : Result A) → Reads (lift r)
  unfolding lift
  Reads-lift r = record { unchanged = λ s. refl }

  pub Reads-raise : (e : Error) → Reads (raise {A = A} e)
  unfolding raise
  Reads-raise e = record { unchanged = λ s. refl }

  pub Reads-map_error : (f : Error → Error) {m : Action A} → Reads m → Reads (map_error f m)
  unfolding map_error
  Reads-map_error f r = record { unchanged = λ s. r.unchanged s }

  pub Reads-if : (b : Bool) {m n : Action A} → Reads m → Reads n → Reads (if b then m else n)
  Reads-if true x y = x
  Reads-if false x y = y

  pub Atomic-of_Reads : {m : Action A} → Reads m → Atomic m
  Atomic-of_Reads r = record { undone = λ s e h. r.unchanged s }

  pub Atomic-if : (b : Bool) {m n : Action A} → Atomic m → Atomic n → Atomic (if b then m else n)
  Atomic-if true x y = x
  Atomic-if false x y = y

  -- The answer and the error of a step that fails do not change what it has undone.
  pub Atomic-map_error : (f : Error → Error) {m : Action A} → Atomic m → Atomic (map_error f m)
  unfolding map_error
  Atomic-map_error f {m} a = record {
    undone = λ s e h. elim (Result-cases (m s).0) [
      | inl (x, q) ↦ absurd (no_error f (m s).0 x e q h)
      | inr (x, q) ↦ a.undone s x q
    ];
  }

  pub Atomic-transaction : (g : Gorm) (laws : IsGorm g) (m : Action A) → Atomic (transaction g m)
  unfolding transaction
  Atomic-transaction g laws m = record {
    undone = λ s e h. laws.abort m s (g.transaction m s).1 e (λ i. (h i, (g.transaction m s).1));
  }

pub Reads-fail_if : (b : Bool) (e : BizError) → Reads (fail_if b e)
unfolding fail_if
Reads-fail_if b e = record { unchanged = λ s. refl }

pub Reads-find_rows : (g : Gorm) (n : Name) (p : Row n → Bool) → Reads (find_rows g n p)
unfolding find_rows
Reads-find_rows g n p = record { unchanged = λ s. refl }

module _ {A B : Type 0} where
  Reads-after :
      (f : A → Action B) (r : Result A) (s t : Db)
      → ((a : A) → Reads (f a))
      → t ≡ s
      → ((lift r >>= f) t).1 ≡ s
  unfolding ◌>>=◌ lift
  Reads-after f (ok a) s t rf e = (rf a).unchanged t ∙ e
  Reads-after f (err x) s t rf e = e

  pub Reads-bind :
      {m : Action A} {f : A → Action B} → Reads m → ((a : A) → Reads (f a)) → Reads (m >>= f)
  unfolding ◌>>=◌ lift
  Reads-bind {m} {f} rm rf = record {
    unchanged = λ s. Reads-after f (m s).0 s (m s).1 rf (rm.unchanged s);
  }

  Atomic-after :
      (f : A → Action B) (r : Result A) (s t : Db) (e : Error)
      → ((a : A) → Atomic (f a))
      → t ≡ s
      → ((lift r >>= f) t).0 ≡ err e
      → ((lift r >>= f) t).1 ≡ s
  unfolding ◌>>=◌ lift
  Atomic-after f (ok a) s t e af same h = (af a).undone t e h ∙ same
  Atomic-after f (err x) s t e af same h = same

  -- What only reads may come first.
  pub Atomic-bind :
      {m : Action A} {f : A → Action B} → Reads m → ((a : A) → Atomic (f a)) → Atomic (m >>= f)
  unfolding ◌>>=◌ lift
  Atomic-bind {m} {f} rm af = record {
    undone = λ s e h. Atomic-after f (m s).0 s (m s).1 e af (rm.unchanged s) h;
  }

  answer_from :
      (f : A → B) (r : Result A) (s t : Db) (e : Error)
      → ((x : Error) → r ≡ err x → t ≡ s)
      → ((lift r >>= λ a. pure (f a)) t).0 ≡ err e
      → ((lift r >>= λ a. pure (f a)) t).1 ≡ s
  unfolding ◌>>=◌ lift pure
  answer_from f (ok a) s t e undone h = cc
  answer_from f (err x) s t e undone h = undone x refl

  -- What is computed from the answer cannot fail.
  pub Atomic-answer : {m : Action A} (f : A → B) → Atomic m → Atomic (m >>= λ a. pure (f a))
  unfolding ◌>>=◌ lift pure
  Atomic-answer {m} f am = record {
    undone = λ s e h. answer_from f (m s).0 s (m s).1 e (λ x q. am.undone s x q) h;
  }

pub Reads-first : (g : Gorm) (n : Name) (p : Row n → Bool) → Reads (first g n p)
unfolding first
Reads-first g n p = Reads-bind (Reads-find_rows g n p) (λ rows. Reads-lift _)

Reads-attempt : {A : Type 0} {m : Action A} → Reads m → Reads (attempt m)
unfolding attempt
Reads-attempt r = record { unchanged = λ s. r.unchanged s }

pub Reads-look_up : (g : Gorm) (n : Name) (p : Row n → Bool) → Reads (look_up g n p)
unfolding look_up
Reads-look_up g n p = Reads-bind (Reads-attempt (Reads-first g n p)) (λ r. Reads-lift _)
