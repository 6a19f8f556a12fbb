-- ===== src/Inference/Whole.antt =====
-- src/semantic/inference/batch.rs: `infer_batch`, where an error fails the whole call, and `infer`.
-- Model, the tokenizer and the embedding model, is the parameter of Inference/Isolation.
use trufflepig.Prelude.{
  ℕ, suc, ◌+◌, ◌-◌, ◌≡◌, refl, ◌∙◌, ap, arith, Option, none, some, List, [], ◌∷◌, ◌++◌,
  if◌then◌else◌, nat_eq, Bool-cases, Option-cases, inl, inr, ◌⊎◌, length, length-append, take, drop,
}
use trufflepig.Inference.Batch.{Range, plan_batch_ranges, planned, failed}
use trufflepig.Inference.Batch.Cuts.{Cuts, plan_batch_ranges_lem}
use trufflepig.Inference.Isolation.{
  Model, InferError, Outcome, ok, err, embed_failed, count_mismatch, invalid_output, plan_failed,
  missing_output, token_length,
}
use trufflepig.Inference.Isolation.Total.{left_length}

module _ {Text Vector Embedding : Type 0} (m : Model Text Vector Embedding) where
  -- `collect` of the token lengths: the first error is the result.
  unfoldable pub token_lengths : ℕ → List Text → Outcome (List ℕ)
  unfolding token_length
  token_lengths index [] = ok []
  token_lengths index (text ∷ texts) =
      let rest = token_lengths (index + 1) texts in
      elim (token_length m text index) [
        | err error ↦ err error
        | ok count ↦ elim rest [ err error ↦ err error | ok counts ↦ ok (count ∷ counts) ]
      ]

  unfoldable pub convert : ℕ → List Vector → Outcome (List Embedding)
  convert index [] = ok []
  convert index (vector ∷ vectors) =
      let rest = convert (index + 1) vectors in
      elim (m.from_values vector) [
        | none ↦ err (invalid_output index)
        | some e ↦ elim rest [ err error ↦ err error | ok es ↦ ok (e ∷ es) ]
      ]

  -- One round of the loop over the ranges.
  unfoldable pub infer_range : List Text → Range → Outcome (List Embedding)
  unfolding convert
  infer_range texts range =
      elim (m.embed (take (range.end - range.start) (drop range.start texts))) [
        | none ↦ err embed_failed
        | some batch ↦
            if nat_eq (length batch) (range.end - range.start)
            then convert range.start batch
            else err count_mismatch
      ]

  unfoldable pub infer_ranges : List Text → List Range → Outcome (List Embedding)
  unfolding infer_range
  infer_ranges texts [] = ok []
  infer_ranges texts (range ∷ ranges) =
      let rest = infer_ranges texts ranges in
      elim (infer_range texts range) [
        | err error ↦ err error
        | ok es ↦ elim rest [ err error ↦ err error | ok more ↦ ok (es ++ more) ]
      ]

  unfoldable pub infer_batch : List Text → Outcome (List Embedding)
  unfolding token_lengths infer_ranges
  infer_batch [] = ok []
  infer_batch (text ∷ texts) = elim (token_lengths 0 (text ∷ texts)) [
    | err error ↦ err error
    | ok counts ↦ elim (plan_batch_ranges counts) [
      | failed error ↦ err (plan_failed error)
      | planned ranges ↦ infer_ranges (text ∷ texts) ranges
    ]
  ]

  abbrev pop : List Embedding → Option Embedding
  pop [] = none
  pop (e ∷ es) = let rest = pop es in elim rest [ none ↦ some e | some last ↦ some last ]

  unfoldable pub infer : Text → Outcome Embedding
  unfolding infer_batch
  infer text = elim (infer_batch (text ∷ [])) [
    | err error ↦ err error
    | ok es ↦ elim (pop es) [ none ↦ err missing_output | some e ↦ ok e ]
  ]

  length-token_lengths :
      (index : ℕ) (texts : List Text) (counts : List ℕ)
      → token_lengths index texts ≡ ok counts
      → length counts ≡ length texts
  unfolding token_lengths
  length-token_lengths index [] counts h = ground arith
  length-token_lengths index (text ∷ texts) counts h =
      by_cases (token_length m text index) refl (token_lengths (index + 1) texts) refl
        (length-token_lengths (index + 1) texts)
    where
      by_cases :
          (o : Outcome ℕ)
          → token_length m text index ≡ o
          → (rest : Outcome (List ℕ)) → token_lengths (index + 1) texts ≡ rest
          → ((cs : List ℕ) → token_lengths (index + 1) texts ≡ ok cs → length cs ≡ length texts)
          → length counts ≡ suc (length texts)
      by_cases (err error) e rest f ih = absurd (ground arith)
      by_cases (ok count) e (err error) f ih = absurd (ground arith)
      by_cases (ok count) e (ok cs) f ih = ground (arith, ih cs f)

  length-convert :
      (index : ℕ) (vectors : List Vector) (es : List Embedding)
      → convert index vectors ≡ ok es
      → length es ≡ length vectors
  unfolding convert
  length-convert index [] es h = ground arith
  length-convert index (v ∷ vs) es h =
      by_rest (convert (index + 1) vs) refl (length-convert (index + 1) vs)
    where
      by_rest :
          (rest : Outcome (List Embedding))
          → convert (index + 1) vs ≡ rest
          → ((xs : List Embedding) → convert (index + 1) vs ≡ ok xs → length xs ≡ length vs)
          → length es ≡ suc (length vs)
      by_rest (err error) f ih = absurd (ground arith)
      by_rest (ok xs) f ih = ground (arith, ih xs f)

  length-infer_range :
      (texts : List Text) (range : Range) (es : List Embedding)
      → infer_range texts range ≡ ok es
      → length es ≡ range.end - range.start
  unfolding infer_range
  length-infer_range texts range es h =
      elim (Option-cases (m.embed (take (range.end - range.start) (drop range.start texts)))) [
        | inl e ↦ absurd (ground arith)
        | inr (batch, e) ↦ elim (Bool-cases (nat_eq (length batch) (range.end - range.start))) [
          | inl same ↦ length-convert range.start batch es (ground arith) ∙ ground arith
          | inr other ↦ absurd (ground arith)
        ]
      ]

  length-infer_ranges :
      (texts : List Text) (start : ℕ) (tokens : List ℕ) (ranges : List Range) (es : List Embedding)
      → length tokens ≡ length (drop start texts)
      → Cuts start tokens ranges
      → infer_ranges texts ranges ≡ ok es
      → length es ≡ length tokens
  unfolding infer_ranges
  length-infer_ranges texts start tokens [] es l c h = ground (arith, ap length c)
  length-infer_ranges texts start tokens (range ∷ ranges) es l
        (batch, left, split, fits, full, s, e, c) h =
      by_cases (infer_range texts range) refl (infer_ranges texts ranges) refl (λ xs.
        length-infer_ranges texts range.end left ranges xs
          (left_length batch left start range.end texts split l e) c)
    where
      by_cases :
          (o : Outcome (List Embedding))
          → infer_range texts range ≡ o
          → (rest : Outcome (List Embedding)) → infer_ranges texts ranges ≡ rest
          → ((xs : List Embedding) → infer_ranges texts ranges ≡ ok xs → length xs ≡ length left)
          → length es ≡ length tokens
      by_cases (err error) p rest f ih = absurd (ground arith)
      by_cases (ok xs) p (err error) f ih = absurd (ground arith)
      by_cases (ok xs) p (ok more) f ih =
          es_length
          ∙ omega (
            arith,
            ap length split,
            length-append batch left,
            length-append xs more,
            ih more f,
            length-infer_range texts range xs p,
            s,
            e,
          )
        where
          es_length : length es ≡ length (xs ++ more)
          es_length = ground arith

  -- Where `infer_batch` succeeds it returns one embedding for each text.
  pub length-infer_batch :
      (texts : List Text) (es : List Embedding)
      → infer_batch texts ≡ ok es
      → length es ≡ length texts
  unfolding infer_batch
  length-infer_batch [] es h = ground arith
  length-infer_batch (text ∷ texts) es h = by_counts (token_lengths 0 (text ∷ texts)) refl
    where
      by_counts :
          (o : Outcome (List ℕ))
          → token_lengths 0 (text ∷ texts) ≡ o
          → length es ≡ suc (length texts)
      by_counts (err error) e = absurd (ground arith)
      by_counts (ok counts) e =
          let l = length-token_lengths 0 (text ∷ texts) counts e in
          elim (plan_batch_ranges_lem counts) [
            | inl (short, (ranges, p, c)) ↦
                length-infer_ranges (text ∷ texts) 0 counts ranges es l c (ground arith) ∙ l
            | inr (error, p, first) ↦ absurd (ground arith)
          ]

  -- `infer` either fails with the error of `infer_batch`, or returns the only embedding of its result:
  -- its own error, for a missing output, does not occur.
  pub infer_lem :
      (text : Text)
      → ((error : InferError) × (infer_batch (text ∷ []) ≡ err error) × (infer text ≡ err error))
        ⊎ ((e : Embedding) × (infer_batch (text ∷ []) ≡ ok (e ∷ [])) × (infer text ≡ ok e))
  unfolding infer
  infer_lem text = by_batch (infer_batch (text ∷ [])) refl (length-infer_batch (text ∷ []))
    where
      by_batch :
          (o : Outcome (List Embedding))
          → infer_batch (text ∷ []) ≡ o
          → ((es : List Embedding) → infer_batch (text ∷ []) ≡ ok es → length es ≡ 1)
          → ((error : InferError) × (infer_batch (text ∷ []) ≡ err error)
              × (infer text ≡ err error))
            ⊎ ((e : Embedding) × (infer_batch (text ∷ []) ≡ ok (e ∷ [])) × (infer text ≡ ok e))
      by_batch (err error) p l = inl (error, p, rw (p, infer) refl)
      by_batch (ok []) p l = absurd (omega (arith, l [] p))
      by_batch (ok (e ∷ [])) p l = inr (e, p, rw (p, infer) refl)
      by_batch (ok (e ∷ f ∷ es)) p l = absurd (omega (arith, l (e ∷ f ∷ es) p))
