-- ===== src/Inference/Batch/Cuts.antt =====
-- What `plan_batch_ranges` of src/semantic/inference/batch.rs returns.
use mathlib.Core.Path.{subst₂}
use trufflepig.Prelude.{
  sym, length-append, ltb→lt, Option-cases, lt→ltb, ℕ, zero, suc, ◌+◌, ◌-◌, ◌*◌, ◌≤◌, ◌<◌, ◌≡◌, ◌↔◌,
  refl, ◌∙◌, ap, subst, arith, max, none, some, List, [], ◌∷◌, ◌++◌, ltb, length, saturating_mul,
  Bool-cases, inl, inr, ◌⊎◌,
}
use trufflepig.Inference.Batch.{
  Range, PlanError, too_long, planned, failed, find_too_long, grow, prepend, plan_from,
  plan_batch_ranges, max_batch_inputs, max_batch_padded_tokens, max_input_tokens,
}

abbrev pub maximum : List ℕ → ℕ
maximum [] = 0
maximum (x ∷ xs) = max x (maximum xs)

abbrev pub AllShort : List ℕ → Type 0
AllShort [] = Unit
AllShort (x ∷ xs) = (x ≤ max_input_tokens) × AllShort xs

-- A batch that the model may be given: not empty, few inputs, and a bounded padded size.
pub record Fits (batch : List ℕ) : Type 0 where
  pub some_input : 0 < length batch
  pub few : length batch ≤ max_batch_inputs
  pub padded : maximum batch * length batch ≤ max_batch_padded_tokens

-- A batch of so many inputs with this maximum could not take the next input too.
abbrev pub IsFull : ℕ → ℕ → List ℕ → Type 0
IsFull count longest [] = Unit
IsFull count longest (next ∷ rest) =
    (max_batch_inputs ≤ count) ⊎ (max_batch_padded_tokens < max longest next * (count + 1))

-- The ranges cut the lengths, from `start` on, into batches that fit, each as long as can be.
abbrev pub Cuts : ℕ → List ℕ → List Range → Type 0
Cuts start tokens [] = tokens ≡ []
Cuts start tokens (range ∷ ranges) =
    (batch : List ℕ) × (left : List ℕ) × (tokens ≡ batch ++ left)
    × Fits batch
    × IsFull (length batch) (maximum batch) left
    × (range.start ≡ start)
    × (range.end ≡ start + length batch)
    × Cuts range.end left ranges

-- What `grow` has added to a batch of `count` inputs, the longest of `longest` tokens.
record Grown (start count longest : ℕ) (tokens : List ℕ) (out : ℕ × List ℕ) : Type 0 where
  added : List ℕ
  splits : tokens ≡ added ++ out.1
  end_is : out.0 ≡ start + (count + length added)
  few : count + length added ≤ max_batch_inputs
  padded : max longest (maximum added) * (count + length added) ≤ max_batch_padded_tokens
  full : IsFull (count + length added) (max longest (maximum added)) out.1

stopped :
    (start count longest : ℕ) (tokens : List ℕ)
    → count ≤ max_batch_inputs
    → longest * count ≤ max_batch_padded_tokens
    → IsFull count longest tokens
    → Grown start count longest tokens (start + count, tokens)
stopped start count longest tokens few padded full = record {
  added = [];
  splits = refl;
  end_is = omega arith;
  few = omega arith;
  padded = subst₂ (λ l c. l * c ≤ max_batch_padded_tokens) at_longest at_count padded;
  full = subst₂ (λ l c. IsFull c l tokens) at_longest at_count full;
}
  where
    at_longest : longest ≡ max longest 0
    at_longest = omega arith

    at_count : count ≡ count + 0
    at_count = omega arith

extended :
    (start count longest token_count : ℕ) (rest : List ℕ) (out : ℕ × List ℕ)
    → Grown start (count + 1) (max longest token_count) rest out
    → Grown start count longest (token_count ∷ rest) out
extended start count longest token_count rest out g = record {
  added = token_count ∷ g.added;
  splits = ap (λ r. token_count ∷ r) g.splits;
  end_is = omega (arith, g.end_is);
  few = omega (arith, g.few);
  padded = subst₂ (λ l c. l * c ≤ max_batch_padded_tokens) at_longest at_count g.padded;
  full = subst₂ (λ l c. IsFull c l out.1) at_longest at_count g.full;
}
  where
    at_longest :
        max (max longest token_count) (maximum g.added)
        ≡ max longest (max token_count (maximum g.added))
    at_longest = omega arith

    at_count : count + 1 + length g.added ≡ count + suc (length g.added)
    at_count = omega arith

grow-Grown :
    (start count longest : ℕ) (tokens : List ℕ)
    → count ≤ max_batch_inputs
    → longest * count ≤ max_batch_padded_tokens
    → Grown start count longest tokens (grow start (start + count) longest tokens)
unfolding grow
grow-Grown start count longest [] few padded = stopped start count longest [] few padded tt
grow-Grown start count longest (t ∷ rest) few padded =
    elim (Bool-cases (ltb (start + count - start) max_batch_inputs)) [
      | inl room ↦
          elim (Bool-cases (
            ltb max_batch_padded_tokens
              (saturating_mul (max longest t) (start + count - start + 1)))) [
                | inl over ↦
                    rw (room, over)
                      (stopped start count longest (t ∷ rest) few padded
                        (inr (ground (arith, candidate))))
                | inr fits ↦
                    rw (room, fits)
                      (extended start count longest t rest
                        (grow start (start + count + 1) (max longest t) rest)
                        (subst
                          (λ end.
                            Grown start (count + 1) (max longest t) rest
                              (grow start end (max longest t) rest))
                          (omega arith)
                          (grow-Grown start (count + 1) (max longest t) rest (ground arith)
                            (ground (arith, candidate)))))
              ]
      | inr none_left ↦
          rw none_left (stopped start count longest (t ∷ rest) few padded (inl (ground arith)))
    ]
  where
    candidate : max longest t * (start + count - start + 1) ≡ max longest t * (count + 1)
    candidate = ap (λ c. max longest t * c) (omega arith)

pub find_too_long-none :
    (index : ℕ) (tokens : List ℕ) → AllShort tokens ↔ (find_too_long index tokens ≡ none)
unfolding find_too_long
find_too_long-none index [] = (λ h. refl, λ h. tt)
find_too_long-none index (t ∷ rest) = elim (Bool-cases (ltb max_input_tokens t)) [
  | inl long ↦ rw long (λ h. absurd (ground arith), λ h. absurd (ground arith))
  | inr short ↦
      let (f, g) = find_too_long-none (index + 1) rest in
      rw short (λ h. f h.1, λ h. (ground arith, g h))
]

AllShort-append : (xs ys : List ℕ) → AllShort (xs ++ ys) → AllShort ys
AllShort-append [] ys h = h
AllShort-append (x ∷ xs) ys h = AllShort-append xs ys h.1

-- From the start of a batch, something is added.
added_some :
    (start t : ℕ) (rest : List ℕ) (out : ℕ × List ℕ)
    → t ≤ max_input_tokens
    → (g : Grown start 0 0 (t ∷ rest) out) → 0 < length g.added
added_some start t rest out short g = by_list g.added refl
  where
    by_list : (added : List ℕ) → g.added ≡ added → 0 < length g.added
    by_list (x ∷ xs) e = rw e (omega arith)
    by_list [] e = absurd (elim stuck [ inl h ↦ omega arith | inr h ↦ omega arith ])
      where
        all_left : t ∷ rest ≡ out.1
        all_left = g.splits ∙ ap (λ xs. xs ++ out.1) e

        stuck : (8 ≤ 0) ⊎ (8192 < max 0 t * 1)
        stuck = subst (IsFull 0 0) (sym all_left) (
            subst₂ (λ c l. IsFull c l out.1) (ap (λ xs. 0 + length xs) e)
              (ap (λ xs. max 0 (maximum xs)) e) g.full)

Grown-Fits :
    {start : ℕ} {tokens : List ℕ} {out : ℕ × List ℕ} (g : Grown start 0 0 tokens out)
    → 0 < length g.added
    → Fits g.added
Grown-Fits g some_added = record {
  some_input = some_added;
  few = omega (arith, g.few);
  padded = subst₂ (λ l c. l * c ≤ max_batch_padded_tokens) (omega arith) (omega arith) g.padded;
}

Grown-IsFull :
    {start : ℕ} {tokens : List ℕ} {out : ℕ × List ℕ} (g : Grown start 0 0 tokens out)
    → IsFull (length g.added) (maximum g.added) out.1
Grown-IsFull {out = out} g = subst₂ (λ l c. IsFull c l out.1) (omega arith) (omega arith) g.full

Grown-lt :
    {start : ℕ} {tokens : List ℕ} {out : ℕ × List ℕ} (g : Grown start 0 0 tokens out)
    → 0 < length g.added
    → (start < out.0) × (length out.1 < length tokens)
Grown-lt {out = out} g h =
    (omega (arith, g.end_is), omega (arith, ap length g.splits, length-append g.added out.1))

grow_batch : (start : ℕ) (tokens : List ℕ) → Grown start 0 0 tokens (grow start start 0 tokens)
grow_batch start tokens =
    subst (λ end. Grown start 0 0 tokens (grow start end 0 tokens)) (omega arith)
      (grow-Grown start 0 0 tokens (omega arith) (omega arith))

-- The rest of the plan, put behind the batch that `grow` returned.
prepend-Cuts :
    (fuel start : ℕ) (tokens : List ℕ) (out : ℕ × List ℕ)
    → (g : Grown start 0 0 tokens out) → 0 < length g.added
    → (ranges : List Range) × (plan_from fuel out.0 out.1 ≡ planned ranges)
      × Cuts out.0 out.1 ranges
    → (ranges : List Range) × (prepend
          (record { start = start; end = out.0 })
          (plan_from fuel out.0 out.1)
        ≡ planned ranges)
      × Cuts start tokens ranges
prepend-Cuts fuel start tokens out g some_added (ranges, e, c) = (
  record { start = start; end = out.0 } ∷ ranges,
  rw e refl,
  (
    g.added,
    out.1,
    g.splits,
    Grown-Fits g some_added,
    Grown-IsFull g,
    refl,
    omega (arith, g.end_is),
    c,
  ),
)

le_of_suc : {k n fuel : ℕ} → n ≤ suc fuel → k < n → k ≤ fuel
le_of_suc h l = omega arith

plan_from-Cuts :
    (fuel start : ℕ) (tokens : List ℕ)
    → length tokens ≤ fuel
    → AllShort tokens
    → (ranges : List Range) × (plan_from fuel start tokens ≡ planned ranges)
      × Cuts start tokens ranges
unfolding plan_from
plan_from-Cuts zero start [] h short = ([], refl, refl)
plan_from-Cuts (suc fuel) start [] h short = ([], refl, refl)
plan_from-Cuts zero start (t ∷ rest) h short = absurd (omega arith)
plan_from-Cuts (suc fuel) start (t ∷ rest) h short =
    let out = grow start start 0 (t ∷ rest) in
    let g = grow_batch start (t ∷ rest) in
    let some_added = added_some start t rest out short.0 g in
    let (moves, fewer) = Grown-lt g some_added in
    rw (lt→ltb start out.0 moves) (
      prepend-Cuts fuel start (t ∷ rest) out g some_added (
        plan_from-Cuts fuel out.0 out.1 (le_of_suc h fewer)
          (AllShort-append g.added out.1 (subst AllShort g.splits short))))

-- The first input over the limit.
pub record FirstLong (index : ℕ) (tokens : List ℕ) (error : PlanError) : Type 0 where
  pub before : List ℕ
  pub token_count : ℕ
  pub after : List ℕ
  pub splits : tokens ≡ before ++ token_count ∷ after
  pub short : AllShort before
  pub long : max_input_tokens < token_count
  pub error_is : error ≡ too_long (index + length before) token_count

find_too_long-some :
    (index : ℕ) (tokens : List ℕ) (error : PlanError)
    → find_too_long index tokens ≡ some error
    → FirstLong index tokens error
unfolding find_too_long
find_too_long-some index [] error h = absurd (ground arith)
find_too_long-some index (t ∷ rest) error h = elim (Bool-cases (ltb max_input_tokens t)) [
  | inl long ↦ record {
    before = [];
    token_count = t;
    after = rest;
    splits = refl;
    short = tt;
    long = ltb→lt max_input_tokens t long;
    error_is = ground arith;
  }
  | inr fits ↦
      let f = find_too_long-some (index + 1) rest error (ground arith) in
      record {
        before = t ∷ f.before;
        token_count = f.token_count;
        after = f.after;
        splits = ap (λ r. t ∷ r) f.splits;
        short = (ground arith, f.short);
        long = f.long;
        error_is = f.error_is ∙ ap (λ i. too_long i f.token_count) (omega arith);
      }
]

-- `plan_batch_ranges` returns on every input. Where no input is over the limit it cuts the inputs, in
-- order and with none left out, into batches that fit the model and could not be longer; otherwise
-- it names the first input that is over the limit. The other two errors never occur.
pub plan_batch_ranges_lem :
    (tokens : List ℕ)
    → (AllShort tokens
        × ((ranges : List Range) × (plan_batch_ranges tokens ≡ planned ranges)
            × Cuts 0 tokens ranges))
      ⊎ ((error : PlanError) × (plan_batch_ranges tokens ≡ failed error) × FirstLong 0 tokens error)
unfolding plan_batch_ranges
plan_batch_ranges_lem tokens = elim (Option-cases (find_too_long 0 tokens)) [
  | inl e ↦
      let short = (find_too_long-none 0 tokens).1 e in
      rw (e, plan_batch_ranges)
        (inl (short, plan_from-Cuts (length tokens) 0 tokens (omega arith) short))
  | inr (error, e) ↦
      rw (e, plan_batch_ranges) (inr (error, refl, find_too_long-some 0 tokens error e))
]
