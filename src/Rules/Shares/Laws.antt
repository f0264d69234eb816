-- ===== src/Rules/Shares/Laws.antt =====
-- What the rule on shares guarantees of the mutations that it accepts.
use blockscape.HashMap
use blockscape.HashMap.{HashMap, get-insert}
use blockscape.Mutation.{Change, admin, block_reward, plot_event, new_validator, slash, transfer}
use blockscape.Rules.Shares.{
  Result, ok, err, ◌>>=◌, checked_add, subtotal_of, or_zero, is_forbidden, charge, record_senders,
  check_stakes, is_valid, invalid_signer,
}
use blockscape.Base.{
  ℕ, ◌+◌, ◌^◌, ◌≤◌, ◌<◌, ◌≡◌, refl, sym, ap, ◌∙◌, inl, inr, ◌⊎◌, Bool, true, false, not, ◌||◌, some,
  List, [], ◌∷◌, nat_eq, ◌==◌, if◌then◌else◌, Option-cases, Bool-cases, arith,
}

-- What a call that succeeds after another has had from it.
bind-inv :
    {A B : Type 0} (r : Result A) (f : A → Result B) (b : B)
    → (r >>= f) ≡ ok b
    → (a : A) × (r ≡ ok a) × (f a ≡ ok b)
bind-inv (ok a) f b h = (a, refl, h)
bind-inv (err e) f b h = cc

-- The shares of a transfer, and what a sender sends in all its transfers.
abbrev pub total : HashMap ℕ ℕ → ℕ
total [] = 0
total (entry ∷ to) = entry.1 + total to

abbrev pub sent : ℕ → List (Change × ℕ) → ℕ
sent s [] = 0
sent s ((transfer from to, creator) ∷ m) =
    let rest = sent s m in if from == s then total to + rest else rest
sent s (_ ∷ m) = sent s m

abbrev pub sends : ℕ → List (Change × ℕ) → Bool
sends s [] = false
sends s ((transfer from to, creator) ∷ m) = from == s || sends s m
sends s (_ ∷ m) = sends s m

checked_add-sum : (a b c : ℕ) → checked_add a b ≡ ok c → c ≡ a + b
unfolding checked_add
checked_add-sum a b c h = ground arith

subtotal_of-total : (to : HashMap ℕ ℕ) (a b : ℕ) → subtotal_of to a ≡ ok b → b ≡ a + total to
unfolding subtotal_of checked_add
subtotal_of-total [] a b h = ground arith
subtotal_of-total (entry ∷ to) a b h =
    let (sum, p, q) = bind-inv (checked_add a entry.1) (λ sum. subtotal_of to sum) b h in
    ground (arith, checked_add-sum a entry.1 sum p, subtotal_of-total to sum b q)

abbrev amount : HashMap ℕ ℕ → ℕ → ℕ
amount senders s = or_zero (HashMap.get s senders)

module _ (admin_id : Result ℕ) where
  -- Every transfer is made by its sender or sends shares of the administrator.
  abbrev pub Signed : List (Change × ℕ) → Type 0
  Signed [] = Unit {0}
  Signed ((transfer from to, creator) ∷ m) = ((from ≡ creator) ⊎ (admin_id ≡ ok from)) × Signed m
  Signed (_ ∷ m) = Signed m

  record IsCharged (from creator : ℕ) (to senders next : HashMap ℕ ℕ) : Type 0 where
    sum : (s : ℕ) → amount next s ≡ amount senders s + (if from == s then total to else 0)
    listed : (s : ℕ) → HashMap.contains_key s next ≡ (from == s || HashMap.contains_key s senders)
    signed : (from ≡ creator) ⊎ (admin_id ≡ ok from)

  is_forbidden-signed :
      (from creator : ℕ)
      → is_forbidden admin_id from creator ≡ ok false
      → (from ≡ creator) ⊎ (admin_id ≡ ok from)
  unfolding is_forbidden
  is_forbidden-signed from creator h = elim (Bool-cases (from == creator)) [
    | inl e ↦ inl (ground arith)
    | inr e ↦
        let (id, p, q) =
          bind-inv admin_id (λ id. ok (not (from == id))) false (rw (sym (e_else e)) h) in
        inr (ground arith)
  ]
    where
      e_else :
          (from == creator) ≡ false
          → is_forbidden admin_id from creator ≡ (admin_id >>= λ id. ok (not (from == id)))
      e_else e = rw e refl

  not_forbidden :
      (b : Bool) (r : Result ℕ) (a : ℕ)
      → (if b then err invalid_signer else r) ≡ ok a
      → (b ≡ false) × (r ≡ ok a)
  not_forbidden true r a h = cc
  not_forbidden false r a h = (refl, h)

  charge-IsCharged :
      (from creator : ℕ) (to senders next : HashMap ℕ ℕ)
      → charge admin_id from creator to senders ≡ ok next
      → IsCharged from creator to senders next
  unfolding charge
  charge-IsCharged from creator to senders next h =
      let (b, pb, h1) = bind-inv (is_forbidden admin_id from creator) _ next h in
      let (c, pc, h2) = bind-inv (if b then err invalid_signer else subtotal_of to 0) _ next h1 in
      let (d, pd, h3) = bind-inv (checked_add c (or_zero (HashMap.get from senders))) _ next h2 in
      let (bf, ps) = not_forbidden b (subtotal_of to 0) c pc in
      let sub : c ≡ total to = ground (arith, subtotal_of-total to 0 c ps) in
      let new : d ≡ c + amount senders from = checked_add-sum c (amount senders from) d pd in
      let put : HashMap.insert from d senders ≡ next = ground arith in
      record {
        sum = λ s. ground (arith, get-insert from s d senders);
        listed = λ s. ground (arith, get-insert from s d senders);
        signed = is_forbidden-signed from creator (pb ∙ ap ok bf);
      }

  record IsRecorded (m : List (Change × ℕ)) (senders out : HashMap ℕ ℕ) : Type 0 where
    sums : (s : ℕ) → amount out s ≡ amount senders s + sent s m
    all : (s : ℕ) → HashMap.contains_key s out ≡ (HashMap.contains_key s senders || sends s m)
    all_signed : Signed m

  record_transfer :
      (from creator : ℕ) (to : HashMap ℕ ℕ) (m : List (Change × ℕ)) (senders next out : HashMap ℕ ℕ)
      → IsCharged from creator to senders next
      → IsRecorded m next out
      → IsRecorded ((transfer from to, creator) ∷ m) senders out
  record_transfer from creator to m senders next out c r = record {
    sums = λ s. ground (arith, c.sum s, r.sums s);
    all = λ s. ground (arith, c.listed s, r.all s);
    all_signed = (c.signed, r.all_signed);
  }

  record_senders-IsRecorded :
      (m : List (Change × ℕ)) (senders out : HashMap ℕ ℕ)
      → record_senders admin_id m senders ≡ ok out
      → IsRecorded m senders out
  unfolding record_senders
  record_senders-IsRecorded [] senders out h = record {
    sums = λ s. ground arith;
    all = λ s. ground arith;
    all_signed = tt;
  }
  record_senders-IsRecorded ((transfer from to, creator) ∷ m) senders out h =
      let (next, p, q) =
        bind-inv (charge admin_id from creator to senders) (λ next. record_senders admin_id m next)
          out h in
      record_transfer from creator to m senders next out
        (charge-IsCharged from creator to senders next p) (record_senders-IsRecorded m next out q)
  record_senders-IsRecorded ((admin k v, creator) ∷ m) senders out h =
      let r = record_senders-IsRecorded m senders out h in
      record { sums = r.sums; all = r.all; all_signed = r.all_signed }
  record_senders-IsRecorded ((block_reward i p, creator) ∷ m) senders out h =
      let r = record_senders-IsRecorded m senders out h in
      record { sums = r.sums; all = r.all; all_signed = r.all_signed }
  record_senders-IsRecorded ((plot_event e, creator) ∷ m) senders out h =
      let r = record_senders-IsRecorded m senders out h in
      record { sums = r.sums; all = r.all; all_signed = r.all_signed }
  record_senders-IsRecorded ((new_validator k, creator) ∷ m) senders out h =
      let r = record_senders-IsRecorded m senders out h in
      record { sums = r.sums; all = r.all; all_signed = r.all_signed }
  record_senders-IsRecorded ((slash i a p, creator) ∷ m) senders out h =
      let r = record_senders-IsRecorded m senders out h in
      record { sums = r.sums; all = r.all; all_signed = r.all_signed }

check_stakes-get :
    (stake : ℕ → Result ℕ) (senders : HashMap ℕ ℕ) (s a : ℕ)
    → check_stakes stake senders ≡ ok tt
    → HashMap.get s senders ≡ some a
    → (v : ℕ) × (stake s ≡ ok v) × (a ≤ v) × (a < 2 ^ 63)
unfolding check_stakes
check_stakes-get stake [] s a h g = absurd (ground arith)
check_stakes-get stake ((j, w) ∷ senders) s a h g =
    let (v, p, q) = bind-inv (stake j) _ tt h in
    elim (Bool-cases (s == j)) [
      | inl e ↦
          let same : s ≡ j = ground arith in (v, ap stake same ∙ p, ground arith, ground arith)
      | inr e ↦ check_stakes-get stake senders s a (ground arith) (ground arith)
    ]

-- In a mutation that the rule accepts, every transfer is made by its sender or sends shares of the
-- administrator, and whoever sends shares has a stake that covers all its transfers together, which
-- stay below 2 ^ 63.
pub is_valid-covers :
    (admin_id : Result ℕ) (stake : ℕ → Result ℕ) (m : List (Change × ℕ))
    → is_valid admin_id stake m ≡ ok tt
    → Signed admin_id m
      × ((s : ℕ)
          → sends s m ≡ true
          → (v : ℕ) × (stake s ≡ ok v) × (sent s m ≤ v) × (sent s m < 2 ^ 63))
unfolding is_valid
is_valid-covers admin_id stake m h =
    let (out, p, q) =
      bind-inv (record_senders admin_id m []) (λ senders. check_stakes stake senders) tt h in
    let r = record_senders-IsRecorded admin_id m [] out p in
    (
      r.all_signed,
      λ s e. elim (Option-cases (HashMap.get s out)) [
        | inl g ↦ absurd (ground (arith, r.all s))
        | inr (a, g) ↦
            let whole : a ≡ sent s m = ground (arith, r.sums s) in
            rw (sym whole) (check_stakes-get stake out s a q g)
      ],
    )

-- The rule lets anybody send shares of the administrator: it accepts such a transfer, whoever has
-- made it, if the administrator has a stake that covers it and it is below 2 ^ 63.
pub is_valid-admin :
    (stake : ℕ → Result ℕ) (admin_id v creator to n : ℕ)
    → stake admin_id ≡ ok v
    → n ≤ v
    → n < 2 ^ 63
    → is_valid (ok admin_id) stake ((transfer admin_id ((to, n) ∷ []), creator) ∷ []) ≡ ok tt
unfolding is_valid record_senders charge is_forbidden subtotal_of checked_add check_stakes
is_valid-admin stake admin_id v creator to n h l b = ground arith
