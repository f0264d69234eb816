-- ===== src/Database/Returns.antt =====
-- Statements about the value that a method of the database returns, when it returns one.
use blockscape.Base.{◌≡◌, refl, ap, ◌∙◌}
use blockscape.Database.Store.{Database, Result, ok, err, panic, Action, pure, ◌>>=◌}

abbrev pub Post : {A : Type 0} → (A → Type 0) → Result A → Type 0
Post P (ok a) = P a
Post P (err e) = Unit
Post P panic = Unit

unfoldable pub Returns : {A : Type 0} → (A → Type 0) → Action A → Type 0
Returns {A} P m = (db : Database) → Post P (m db).0

module _ {A B : Type 0} (P : B → Type 0) where
  Post-continue :
      (f : A → Action B)
      → ((a : A) → Returns P (f a))
      → (r : Result A × Database) → Post P (((λ _. r) >>= f) r.1).0
  unfolding Returns
  Post-continue f h (ok a, db) = h a db
  Post-continue f h (err e, db) = tt
  Post-continue f h (panic, db) = tt

  -- What every continuation returns is what the whole returns.
  pub Returns-bind :
      (m : Action A) (f : A → Action B) → ((a : A) → Returns P (f a)) → Returns P (m >>= f)
  unfolding Returns
  Returns-bind m f h db = Post-continue f h (m db)

pub Returns-pure : {A : Type 0} (P : A → Type 0) {a : A} → P a → Returns P (pure a)
unfolding Returns
Returns-pure P p db = p

module _ {A B : Type 0} (Q : A → Type 0) (P : B → Type 0) where
  Post-after :
      (f : A → Action B)
      → ((a : A) → Q a → Returns P (f a))
      → (r : Result A × Database) → Post Q r.0
      → Post P (((λ _. r) >>= f) r.1).0
  unfolding Returns
  Post-after f h (ok a, db) q = h a q db
  Post-after f h (err e, db) q = tt
  Post-after f h (panic, db) q = tt

  -- The same where the continuation relies on what the action before it returns.
  pub Returns-after :
      (m : Action A) (f : A → Action B)
      → Returns Q m
      → ((a : A) → Q a → Returns P (f a))
      → Returns P (m >>= f)
  unfolding Returns
  Returns-after m f q h db = Post-after f h (m db) (q db)

-- The method succeeds and leaves the database as it was.
unfoldable pub Gives : {A : Type 0} → (A → Type 0) → Action A → Database → Type 0
Gives {A} P m db = (a : A) × (m db ≡ (ok a, db)) × P a

pub Gives-bind :
    {A B : Type 0} (Q : A → Type 0) (P : B → Type 0) (m : Action A) (f : A → Action B)
    (db : Database)
    → Gives Q m db
    → ((a : A) → Q a → Gives P (f a) db)
    → Gives P (m >>= f) db
unfolding Gives
Gives-bind Q P m f db (a, e, q) h =
    let (b, e', p) = h a q in (b, ap (λ r. ((λ _. r) >>= f) db) e ∙ e', p)

pub Gives-pure : {A : Type 0} (P : A → Type 0) (db : Database) {a : A} → P a → Gives P (pure a) db
unfolding Gives
Gives-pure P db {a} p = (a, refl, p)
