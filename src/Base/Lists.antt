-- ===== src/Base/Lists.antt =====
-- Lists measured and indexed by native numbers, under the library's names.
use Prim.Native.Nat.{ℕ, zero, suc, ◌+◌, ◌<◌, ◌≤◌}
use mathlib.Core.Path.{◌≡◌, refl, subst}
use mathlib.Core.List.{List, [], ◌∷◌, ◌++◌, Permᴰ}
use mathlib.Core.List.Permᴰ.{nil, cons, swap, trans}
use mathlib.Core.Option.{Option, none, some}
use native.Mathlib.Omega.{arith}

module _ {ℓ} {A : Type ℓ} where
  abbrev pub length : List A → ℕ
  length [] = 0
  length (x ∷ xs) = suc (length xs)

  abbrev pub get_elem? : List A → ℕ → Option A
  get_elem? [] i = none
  get_elem? (x ∷ xs) zero = some x
  get_elem? (x ∷ xs) (suc i) = get_elem? xs i

  -- `Vec::remove` at an index in range; out of range nothing changes.
  abbrev pub erase_idx : List A → ℕ → List A
  erase_idx [] i = []
  erase_idx (x ∷ xs) zero = xs
  erase_idx (x ∷ xs) (suc i) = x ∷ erase_idx xs i

  pub length-append : (xs ys : List A) → length (xs ++ ys) ≡ length xs + length ys
  length-append [] ys = omega arith
  length-append (x ∷ xs) ys = omega (arith, length-append xs ys)

  pub length-erase_idx :
      (xs : List A) (i : ℕ) → i < length xs → length (erase_idx xs i) + 1 ≡ length xs
  length-erase_idx [] i h = elim h [ ]
  length-erase_idx (x ∷ xs) zero h = omega arith
  length-erase_idx (x ∷ xs) (suc i) h = omega (arith, length-erase_idx xs i (omega arith))

  pub length-erase_idx-le : (xs : List A) (i : ℕ) → length (erase_idx xs i) ≤ length xs
  length-erase_idx-le [] i = omega arith
  length-erase_idx-le (x ∷ xs) zero = omega arith
  length-erase_idx-le (x ∷ xs) (suc i) = omega (arith, length-erase_idx-le xs i)

  pub get_elem?-some : (xs : List A) (i : ℕ) → i < length xs → (x : A) × (get_elem? xs i ≡ some x)
  get_elem?-some [] i h = elim h [ ]
  get_elem?-some (x ∷ xs) zero h = (x, refl)
  get_elem?-some (x ∷ xs) (suc i) h = get_elem?-some xs i (omega arith)

  pub get_elem?-lt : (xs : List A) (i : ℕ) {x : A} → get_elem? xs i ≡ some x → i < length xs
  get_elem?-lt [] i h = cc
  get_elem?-lt (y ∷ xs) zero h = omega arith
  get_elem?-lt (y ∷ xs) (suc i) h = omega (arith, get_elem?-lt xs i h)

  -- an element behind a list stands at the list's length, and the next one after it
  pub get_elem?-append :
      (xs : List A) (y : A) (ys : List A) → get_elem? (xs ++ y ∷ ys) (length xs) ≡ some y
  get_elem?-append [] y ys = refl
  get_elem?-append (x ∷ xs) y ys = get_elem?-append xs y ys

  pub get_elem?-append_next :
      (xs : List A) (y z : A) (ys : List A) → get_elem? (xs ++ y ∷ z ∷ ys) (length xs + 1) ≡ some z
  get_elem?-append_next [] y z ys = refl
  get_elem?-append_next (x ∷ xs) y z ys = rw suc_next (get_elem?-append_next xs y z ys)
    where
      suc_next : suc (length xs) + 1 ≡ suc (length xs + 1)
      suc_next = omega arith

-- A predicate on every element, by recursion.
abbrev pub All {ℓ κ} : {A : Type ℓ} → (A → Type κ) → List A → Type κ
All P [] = Unit
All P (x ∷ xs) = P x × All P xs

-- A predicate that holds of every element, under the operations on lists.
module _ {ℓ κ} {A : Type ℓ} (P : A → Type κ) where
  pub All-append : (xs : List A) (x : A) → All P xs → P x → All P (xs ++ x ∷ [])
  All-append [] x h p = (p, tt)
  All-append (y ∷ ys) x h p = (h.0, All-append ys x h.1 p)

  pub All-erase_idx : (xs : List A) (i : ℕ) → All P xs → All P (erase_idx xs i)
  All-erase_idx [] i h = tt
  All-erase_idx (x ∷ xs) zero h = h.1
  All-erase_idx (x ∷ xs) (suc i) h = (h.0, All-erase_idx xs i h.1)

  pub All-at : (xs : List A) (a : A) (ys : List A) → All P (xs ++ a ∷ ys) → P a
  All-at [] a ys h = h.0
  All-at (x ∷ xs) a ys h = All-at xs a ys h.1

  pub All-replace :
      (xs : List A) (a a' : A) (ys : List A)
      → All P (xs ++ a ∷ ys)
      → (P a → P a')
      → All P (xs ++ a' ∷ ys)
  All-replace [] a a' ys h keep = (keep h.0, h.1)
  All-replace (x ∷ xs) a a' ys h keep = (h.0, All-replace xs a a' ys h.1 keep)

  pub All-perm : (xs ys : List A) → Permᴰ xs ys → All P xs → All P ys
  All-perm xs ys nil h = tt
  All-perm (x ∷ xs) (y ∷ ys) (cons e p) h = (subst P e h.0, All-perm xs ys p h.1)
  All-perm (x ∷ y ∷ xs) (y' ∷ x' ∷ ys) (swap e f) h = (subst P f h.1.0, (subst P e h.0, h.1.1))
  All-perm xs ys (trans {l₂ = zs} p q) h = All-perm zs ys q (All-perm xs zs p h)
