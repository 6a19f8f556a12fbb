-- ===== src/Inference/Isolation/Halving.antt =====
-- What the steps of src/semantic/inference/batch.rs leave in the results.
use trufflepig.Prelude.{
  min, ℕ, zero, suc, ◌-◌, ◌/◌, ◌≤◌, ◌<◌, ◌≡◌, refl, sym, ◌∙◌, subst, arith, false, some, List, [],
  ◌∷◌, map, nat_eq, Bool-cases, Option-cases, inl, inr, length, get_elem?, set, length-set, take,
  drop, length-take, length-drop,
}
use trufflepig.Inference.Isolation.{
  Model, InferError, Outcome, ok, err, Entry, Results, checked, infer_one_planned_batch, write_all,
  fail_all, isolate_batch,
}

module _ {Embedding : Type 0} where
  abbrev pub IsFilled : Results Embedding → ℕ → Type 0
  IsFilled results i = (outcome : Outcome Embedding) × (get_elem? results i ≡ some (some outcome))

  IsFilled-set :
      (results : Results Embedding) (i j : ℕ) (x : Outcome Embedding)
      → IsFilled results j
      → IsFilled (set results i (some x)) j
  IsFilled-set [] i j x f = f
  IsFilled-set (y ∷ r) zero zero x f = (x, refl)
  IsFilled-set (y ∷ r) zero (suc j) x f = f
  IsFilled-set (y ∷ r) (suc i) zero x f = f
  IsFilled-set (y ∷ r) (suc i) (suc j) x f = IsFilled-set r i j x f

  pub set-IsFilled :
      (results : Results Embedding) (i : ℕ) (x : Outcome Embedding)
      → i < length results
      → IsFilled (set results i (some x)) i
  set-IsFilled [] i x h = absurd (omega arith)
  set-IsFilled (y ∷ r) zero x h = (x, refl)
  set-IsFilled (y ∷ r) (suc i) x h = set-IsFilled r i x (omega arith)

  -- No result is lost on the way from the first results to the second.
  pub record IsKept (r s : Results Embedding) : Type 0 where
    pub same_length : length s ≡ length r
    pub keeps : (j : ℕ) → IsFilled r j → IsFilled s j

  pub IsKept-refl : (r : Results Embedding) → IsKept r r
  IsKept-refl r = record { same_length = refl; keeps = λ j f. f }

  pub IsKept-trans : {r s t : Results Embedding} → IsKept r s → IsKept s t → IsKept r t
  IsKept-trans a b = record {
    same_length = b.same_length ∙ a.same_length;
    keeps = λ j f. b.keeps j (a.keeps j f);
  }

  pub set-IsKept :
      (r : Results Embedding) (i : ℕ) (x : Outcome Embedding) → IsKept r (set r i (some x))
  set-IsKept r i x = record {
    same_length = length-set r i (some x);
    keeps = λ j f. IsFilled-set r i j x f;
  }

module _ {Text : Type 0} where
  abbrev pub AllBelow : ℕ → List (Entry Text) → Type 0
  AllBelow n [] = Unit
  AllBelow n (entry ∷ batch) = (entry.index < n) × AllBelow n batch

  pub AllBelow-take :
      (k n : ℕ) (batch : List (Entry Text)) → AllBelow n batch → AllBelow n (take k batch)
  AllBelow-take zero n batch h = tt
  AllBelow-take (suc k) n [] h = tt
  AllBelow-take (suc k) n (entry ∷ batch) h = (h.0, AllBelow-take k n batch h.1)

  pub AllBelow-drop :
      (k n : ℕ) (batch : List (Entry Text)) → AllBelow n batch → AllBelow n (drop k batch)
  AllBelow-drop zero n batch h = h
  AllBelow-drop (suc k) n [] h = tt
  AllBelow-drop (suc k) n (entry ∷ batch) h = AllBelow-drop k n batch h.1

module _ {Text Embedding : Type 0} where
  abbrev pub AllFilled : List (Entry Text) → Results Embedding → Type 0
  AllFilled [] r = Unit
  AllFilled (entry ∷ batch) r = IsFilled r entry.index × AllFilled batch r

  pub AllFilled-IsKept :
      (batch : List (Entry Text)) {r s : Results Embedding}
      → IsKept r s
      → AllFilled batch r
      → AllFilled batch s
  AllFilled-IsKept [] k f = tt
  AllFilled-IsKept (entry ∷ batch) k f = (k.keeps entry.index f.0, AllFilled-IsKept batch k f.1)

  AllFilled-halves :
      (n : ℕ) (batch : List (Entry Text)) (r : Results Embedding)
      → AllFilled (take n batch) r
      → AllFilled (drop n batch) r
      → AllFilled batch r
  AllFilled-halves zero batch r f g = g
  AllFilled-halves (suc n) [] r f g = tt
  AllFilled-halves (suc n) (entry ∷ batch) r f g = (f.0, AllFilled-halves n batch r f.1 g)

  -- A step that keeps the results and fills those of a batch.
  pub record Fills (batch : List (Entry Text)) (r s : Results Embedding) : Type 0 where
    pub kept : IsKept r s
    pub filled : AllFilled batch s

module _ {Text Vector Embedding : Type 0} (m : Model Text Vector Embedding) where
  pub fail_all-Fills :
      (error : InferError) (batch : List (Entry Text)) (r : Results Embedding)
      → AllBelow (length r) batch
      → Fills batch r (fail_all m error batch r)
  unfolding fail_all
  fail_all-Fills error [] r h = record { kept = IsKept-refl r; filled = tt }
  fail_all-Fills error (entry ∷ batch) r h =
      let s = set r entry.index (some (err error)) in
      let f = fail_all-Fills error batch s (rw length-set h.1) in
      record {
        kept = IsKept-trans (set-IsKept r entry.index (err error)) f.kept;
        filled = (f.kept.keeps entry.index (set-IsFilled r entry.index (err error) h.0), f.filled);
      }

  write_all-Fills :
      (batch : List (Entry Text)) (embeddings : List Embedding) (r : Results Embedding)
      → length embeddings ≡ length batch
      → AllBelow (length r) batch
      → Fills batch r (write_all m batch embeddings r)
  unfolding write_all
  write_all-Fills [] embeddings r e h = record { kept = IsKept-refl r; filled = tt }
  write_all-Fills (entry ∷ batch) [] r e h = absurd (omega arith)
  write_all-Fills (entry ∷ batch) (x ∷ xs) r e h =
      let s = set r entry.index (some (ok x)) in
      let f = write_all-Fills batch xs s (omega arith) (rw length-set h.1) in
      record {
        kept = IsKept-trans (set-IsKept r entry.index (ok x)) f.kept;
        filled = (f.kept.keeps entry.index (set-IsFilled r entry.index (ok x) h.0), f.filled);
      }

  length-checked :
      (vectors : List Vector) (batch : List (Entry Text)) (embeddings : List Embedding)
      → length vectors ≡ length batch
      → checked m vectors batch ≡ ok embeddings
      → length embeddings ≡ length batch
  unfolding checked
  length-checked [] batch embeddings e h = ground arith
  length-checked (v ∷ vs) [] embeddings e h = absurd (omega arith)
  length-checked (v ∷ vs) (entry ∷ batch) embeddings e h =
      by_rest (checked m vs batch) refl (length-checked vs batch)
    where
      by_rest :
          (o : Outcome (List Embedding))
          → checked m vs batch ≡ o
          → ((es : List Embedding)
              → length vs ≡ length batch
              → checked m vs batch ≡ ok es
              → length es ≡ length batch)
          → length embeddings ≡ suc (length batch)
      by_rest (ok es) f ih = ground (arith, ih es)
      by_rest (err error) f ih = absurd (ground arith)

  infer-length :
      (batch : List (Entry Text)) (embeddings : List Embedding)
      → infer_one_planned_batch m batch ≡ ok embeddings
      → length embeddings ≡ length batch
  unfolding infer_one_planned_batch
  infer-length batch embeddings h =
      elim (Option-cases (m.embed (map (λ entry. entry.text) batch))) [
        | inl e ↦ absurd (ground arith)
        | inr (vectors, e) ↦ elim (Bool-cases (nat_eq (length vectors) (length batch))) [
          | inl same ↦ length-checked vectors batch embeddings (ground arith) (ground arith)
          | inr other ↦ absurd (ground arith)
        ]
      ]

  pub both-Fills :
      (n : ℕ) (batch : List (Entry Text)) {r s t : Results Embedding}
      → Fills (take n batch) r s
      → Fills (drop n batch) s t
      → Fills batch r t
  both-Fills n batch {t = t} f g = record {
    kept = IsKept-trans f.kept g.kept;
    filled = AllFilled-halves n batch t (AllFilled-IsKept (take n batch) g.kept f.filled) g.filled;
  }

  pub no_batch :
      (batch : List (Entry Text)) (r : Results Embedding) → length batch ≤ 0 → Fills batch r r
  no_batch [] r h = record { kept = IsKept-refl r; filled = tt }
  no_batch (entry ∷ batch) r h = absurd (omega arith)

  shorter_half :
      {fuel : ℕ} (n : ℕ) → n ≤ suc fuel → (min (n / 2) n ≤ fuel) × (¬ (n ≡ 1) → n - n / 2 ≤ fuel)
  shorter_half n h = (omega arith, λ more. omega (arith, more))

  pub isolate_batch-Fills :
      (fuel : ℕ) (batch : List (Entry Text)) (r : Results Embedding)
      → length batch ≤ fuel
      → AllBelow (length r) batch
      → Fills batch r (isolate_batch m fuel batch r)
  unfolding isolate_batch
  isolate_batch-Fills zero batch r h b = no_batch batch r h
  isolate_batch-Fills (suc fuel) batch r h b =
      by_outcome (infer_one_planned_batch m batch) refl (isolate_batch-Fills fuel)
    where
      middle : ℕ
      middle = length batch / 2

      by_outcome :
          (o : Outcome (List Embedding))
          → infer_one_planned_batch m batch ≡ o
          → ((half : List (Entry Text)) (s : Results Embedding)
              → length half ≤ fuel
              → AllBelow (length s) half
              → Fills half s (isolate_batch m fuel half s))
          → Fills batch r (isolate_batch m (suc fuel) batch r)
      by_outcome (ok es) e ih =
          rw (e, isolate_batch) (write_all-Fills batch es r (infer-length batch es e) b)
      by_outcome (err error) e ih = elim (Bool-cases (nat_eq (length batch) 1)) [
        | inl one ↦ rw (e, isolate_batch, one) (fail_all-Fills error batch r b)
        | inr more ↦
            let f =
              ih (take middle batch) r shorter_take (AllBelow-take middle (length r) batch b) in
            let s = isolate_batch m fuel (take middle batch) r in
            let g = ih (drop middle batch) s (shorter_drop more) (
              subst (λ n. AllBelow n (drop middle batch)) (sym f.kept.same_length)
                (AllBelow-drop middle (length r) batch b)) in
            rw (e, isolate_batch, more) (both-Fills middle batch f g)
      ]
        where
          shorter_take : length (take middle batch) ≤ fuel
          shorter_take = rw length-take (shorter_half (length batch) h).0

          shorter_drop : nat_eq (length batch) 1 ≡ false → length (drop middle batch) ≤ fuel
          shorter_drop more = rw length-drop ((shorter_half (length batch) h).1 (ground arith))
