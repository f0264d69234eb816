-- ===== src/Forging/Signatures.antt =====
-- The sizes of signatures: what becomes of the one that a forger puts on a block
-- (core/src/forging/epos.rs).
use mathlib.Core.Path.{subst}
use blockscape.Network.Message.{Block}
use blockscape.Forging.{
  EposBlockData, Externals, Forged, ok, unwrap, or_err, bad_key, check_from, check_sigs,
  apply_block, data_of,
}
use blockscape.Forging.Accepted.{bind_ok, or_err_ok}
use blockscape.Base.{
  ℕ, ◌≡◌, ◌≢◌, sym, ap, ◌∙◌, true, false, some, List, [], ◌∷◌, ◌++◌, Bin, length, Bool-cases, inl,
  inr, arith,
}

-- A `U256` is written as 32 bytes, and only a signature of the size of the key is one of the key,
-- as for RSA.
pub record IsSized (x : Externals) (size : Bin → ℕ) : Type 0 where
  pub written : (n : ℕ) → length (x.serialize_u256 n) ≡ 32
  pub verified : (msg sig der : Bin) → x.verify_bytes msg sig der ≡ true → length sig ≡ size der

module _ (x : Externals) (size : Bin → ℕ) (sized : IsSized x size) where
  -- Every signature is of a key of 32 bytes.
  abbrev pub AllFit : List (Bin × ℕ) → Type 0
  AllFit [] = Unit {0}
  AllFit ((der, sig) ∷ sigs) = (size der ≡ 32) × AllFit sigs

  check_from-AllFit :
      (so_far : Bin) (sigs : List (Bin × ℕ)) → check_from x so_far sigs ≡ true → AllFit sigs
  check_from-AllFit so_far [] h = tt
  check_from-AllFit so_far ((der, sig) ∷ sigs) h =
      elim (Bool-cases (x.verify_bytes so_far (x.serialize_u256 sig) der)) [
        | inl v ↦ (
          sym (sized.verified so_far (x.serialize_u256 sig) der v) ∙ sized.written sig,
          check_from-AllFit (so_far ++ x.serialize_u256 sig) sigs (ground (arith, h)),
        )
        | inr v ↦ absurd (ground (arith, h, v))
      ]

  AllFit-last :
      (sigs : List (Bin × ℕ)) (der : Bin) (sig : ℕ)
      → AllFit (sigs ++ (der, sig) ∷ [])
      → size der ≡ 32
  AllFit-last [] der sig h = h.0
  AllFit-last (s ∷ sigs) der sig h = AllFit-last sigs der sig h.1

  same_key : (a b : Bin) → some a ≡ some b → a ≡ b
  same_key a b h = cc

  same_data :
      (d e : EposBlockData) (a b : Block)
      → ◌≡◌ {A = Forged (Block × EposBlockData)} (ok (a, d)) (ok (b, e))
      → e.sigs ≡ d.sigs
  same_data d e a b h = let q : d ≡ e = cc in ap (λ f. f.sigs) (sym q)

  last_of :
      {all : List (Bin × ℕ)} (sigs : List (Bin × ℕ)) (der der' : Bin) (sig : ℕ)
      → der' ≡ der
      → all ≡ sigs ++ (der', sig) ∷ []
      → all ≡ sigs ++ (der, sig) ∷ []
  last_of sigs der der' sig k h = h ∙ ap (λ key. sigs ++ (key, sig) ∷ []) k

  -- What `apply_block` puts last.
  applied-last :
      (block block' : Block) (diff target key : ℕ) (der : Bin) (d : EposBlockData)
      → x.public_key_to_der key ≡ some der
      → apply_block x block diff target key ≡ ok (block', d)
      → (sigs : List (Bin × ℕ)) × (sig : ℕ) × (d.sigs ≡ sigs ++ (der, sig) ∷ [])
  unfolding apply_block
  applied-last block block' diff target key der d k h =
      let (old, g0, h0) = bind_ok (data_of x block.header.blob diff) _ (block', d) h in
      let (der', g1, h1) = bind_ok (or_err bad_key (x.public_key_to_der key)) _ (block', d) h0 in
      let (bytes, g2, h2) =
        bind_ok (unwrap (x.sign_bytes (x.serialize_u256 target ++ block.header.blob) key)) _
          (block', d) h1 in
      let (sig, g3, h3) = bind_ok (unwrap (x.deserialize_u256 bytes)) _ (block', d) h2 in
      let same : some der ≡ some der' =
        sym k ∙ or_err_ok bad_key (x.public_key_to_der key) der' g1 in
      (
        old.sigs,
        sig,
        last_of old.sigs der der' sig (sym (same_key der der' same))
            (same_data (record old { sigs = old.sigs ++ (der', sig) ∷ [] }) d _ block' h3),
      )

  -- Let a `U256` be written as 32 bytes, and let signatures have the size of their key. Then the
  -- block data to which a forger with a key of another size than 32 bytes has put its signature do
  -- not pass the check, whatever the target of the check.
  pub check_sigs-apply_block :
      (block block' : Block) (diff target key info : ℕ) (der : Bin) (d : EposBlockData)
      → x.public_key_to_der key ≡ some der
      → size der ≢ 32
      → apply_block x block diff target key ≡ ok (block', d)
      → check_sigs x d info ≡ false
  unfolding check_sigs
  check_sigs-apply_block block block' diff target key info der d k other h =
      elim (Bool-cases (check_sigs x d info)) [
        | inr f ↦ f
        | inl t ↦
            let (sigs, sig, e) = applied-last block block' diff target key der d k h in
            absurd (
              other (
                AllFit-last sigs der sig
                  (subst AllFit e (check_from-AllFit (x.serialize_u256 info) d.sigs t))))
      ]
