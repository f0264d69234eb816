-- ===== src/Database/Store.antt =====
-- The store and its monad: a method takes the database and returns its result with the database
-- that it leaves, also after an error (`?` returns early and what was written stays written).
use blockscape.Database.Key.{Key, as_bin}
use blockscape.Database.Interface.{Codec, Externals}
use blockscape.Base.{
  ℕ, ◌≡◌, ap, Bool, true, false, Option, none, some, Bin, nat_eq, list_eq, ◌==◌, if◌then◌else◌,
}

-- `head` is the pair of the current block and its height.
pub record Database : Type 0 where
  pub rows : Bin → Option Bin
  pub head_block : ℕ
  pub head_height : ℕ

pub data Error : Type 0 where
  not_found : Key → Error
  deserialize_failed : Error

pub data Result (A : Type 0) : Type 0 where
  ok : A → Result A
  err : Error → Result A
  panic : Result A

abbrev pub Action : Type 0 → Type 0
Action A = Database → Result A × Database

abbrev pub pure : {A : Type 0} → A → Action A
pure a db = (ok a, db)

abbrev pub fail : {A : Type 0} → Error → Action A
fail e db = (err e, db)

-- `assert!`
abbrev pub assert : Bool → Action (Unit {0})
assert true db = (ok tt, db)
assert false db = (panic, db)

infixl 5 ◌>>=◌ ◌>>◌
abbrev pub ◌>>=◌ : {A B : Type 0} → Action A → (A → Action B) → Action B
◌>>=◌ m f db =
    let (r, db') = m db in elim r [ ok a ↦ f a db' | err e ↦ (err e, db') | panic ↦ (panic, db') ]

abbrev pub ◌>>◌ : {A B : Type 0} → Action A → Action B → Action B
m >> k = m >>= λ _. k

abbrev pub update : (Bin → Option Bin) → Bin → Option Bin → Bin → Option Bin
update rows k v j = if k == j then v else rows j

module _ (ex : Externals) where
  -- `_get`
  unfoldable pub get_raw : Key → Action Bin
  get_raw key db = elim (db.rows (as_bin ex.key_bytes key)) [
    | none ↦ (err (not_found key), db)
    | some d ↦ (ok d, db)
  ]

  -- `_put`
  unfoldable pub put_raw : Key → Bin → Action (Unit {0})
  put_raw key v db = (ok tt, record db { rows = update db.rows (as_bin ex.key_bytes key) (some v) })

  -- `_delete`
  unfoldable pub delete : Key → Action (Unit {0})
  delete key db = (ok tt, record db { rows = update db.rows (as_bin ex.key_bytes key) none })

  -- The arms on a `NotFound` error, as an `Option`.
  abbrev pub found : {A : Type 0} → Action A → Action (Option A)
  found m db =
      let (r, db') = m db in
      elim r [
        | ok a ↦ (ok (some a), db')
        | err (not_found k) ↦ (ok none, db')
        | err e ↦ (err e, db')
        | panic ↦ (panic, db')
      ]

-- `deserialize(&l)?`
abbrev pub decode : {A : Type 0} {Fits : A → Type 0} → Codec A Fits → Bin → Action A
decode c b db = elim (c.deserialize b) [ none ↦ (err deserialize_failed, db) | some a ↦ (ok a, db) ]

abbrev resume : {A B : Type 0} → (A → Action B) → Result A × Database → Result B × Database
resume f p = elim p.0 [ ok a ↦ f a p.1 | err e ↦ (err e, p.1) | panic ↦ (panic, p.1) ]

-- The rest of a method runs on what a call that succeeds has left.
pub bind-ok :
    {A B : Type 0} (m : Action A) (f : A → Action B) (db db' : Database) (a : A)
    → m db ≡ (ok a, db')
    → (m >>= f) db ≡ f a db'
bind-ok m f db db' a p = ap (resume f) p
