-- ===== src/Rules/Ruling.antt =====
-- What a rule of core/src/record_keeper/rules gives: `broken` names what was broken
-- (`LogicError`), and `failed` stands for an error of the database.
use blockscape.Base.{Bool, true, false}

pub data LogicError : Type 0 where
  duplicate expected_admin invalid_merkle_root invalid_mutation invalid_signature invalid_time
        unrecognized_creator :
      LogicError

pub data Ruling (A : Type 0) : Type 0 where
  ok : A → Ruling A
  broken : LogicError → Ruling A
  failed : Ruling A

infixl 5 ◌>>=◌
abbrev pub ◌>>=◌ : {A B : Type 0} → Ruling A → (A → Ruling B) → Ruling B
ok a >>= f = f a
broken e >>= f = broken e
failed >>= f = failed

-- A rule that is broken unless a test passes.
abbrev pub unless : Bool → LogicError → Ruling (Unit {0})
unless true e = ok tt
unless false e = broken e
