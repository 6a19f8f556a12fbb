-- ===== src/Search/Permute.antt =====
-- src/search/rerank_window.rs, permute_in_place: a slice moved to given destinations by swaps.
pub mod Swaps
pub mod Unfixed
pub mod Cycles
use trufflepig.Prelude.{
  ℕ, zero, suc, ◌+◌, Option, none, some, List, [], ◌∷◌, if◌then◌else◌, nat_eq, length, get_elem?,
  set,
}

abbrev pub put {ℓ} : {A : Type ℓ} → List A → ℕ → Option A → List A
put xs i none = xs
put xs i (some a) = set xs i a

-- `swap`, of two positions in bounds.
unfoldable pub swap {ℓ} : {A : Type ℓ} → ℕ → ℕ → List A → List A
swap i j xs = put (put xs i (get_elem? xs j)) j (get_elem? xs i)

pub record Scratch (A : Type 0) : Type 0 where
  pub elements : List A
  pub destinations : List ℕ

module _ {A : Type 0} where
  unfoldable pub swap_both : ℕ → ℕ → Scratch A → Scratch A
  unfolding swap
  swap_both i j s = record {
    elements = swap i j s.elements;
    destinations = swap i j s.destinations;
  }

  -- The `while` loop at position `i`, on fuel.
  unfoldable pub settle : ℕ → ℕ → Scratch A → Scratch A
  unfolding swap_both
  settle zero i s = s
  settle (suc fuel) i s = elim (get_elem? s.destinations i) [
    | none ↦ s
    | some j ↦ let next = settle fuel i (swap_both i j s) in if nat_eq j i then s else next
  ]

  -- The positions from `i`, `count` of them; each loop has the number of positions as fuel.
  unfoldable pub settle_from : ℕ → ℕ → Scratch A → Scratch A
  unfolding settle
  settle_from zero i s = s
  settle_from (suc count) i s = settle_from count (i + 1) (settle (length s.destinations) i s)

  unfoldable pub permute_in_place : List A → List ℕ → List A
  unfolding settle_from
  permute_in_place slice destinations =
      let s =
        settle_from (length destinations) 0
          (record { elements = slice; destinations = destinations }) in
      s.elements
