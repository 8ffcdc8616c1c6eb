-- ===== src/Common/Lists.antt =====
-- List functions over the native numbers, predicates on lists by recursion, and Boolean searches.
use Prim.Native.Nat.{ℕ, suc, ◌+◌, ◌≤◌}
use mathlib.Core.Path.{◌≡◌, refl}
use mathlib.Core.Bool.{Bool, true, false, ◌&&◌, ◌||◌}
use mathlib.Core.Option.{Option, none, some}
use mathlib.Core.List.{List, [], ◌∷◌, ◌++◌}
use native.Mathlib.Omega.{arith}
use mathai_ai_swarm_memory.Common.Tests.{if◌then◌else◌}

-- Every element of the list satisfies the predicate.
abbrev pub All {ℓ κ} : {A : Type ℓ} → (A → Type κ) → List A → Type κ
All P [] = Unit
All P (x ∷ xs) = P x × All P xs

module _ {ℓ} {A : Type ℓ} where
  abbrev pub length : List A → ℕ
  length [] = 0
  length (x ∷ xs) = suc (length xs)

  abbrev pub is_empty : List A → Bool
  is_empty [] = true
  is_empty (x ∷ xs) = false

  abbrev pub any : (A → Bool) → List A → Bool
  any p [] = false
  any p (x ∷ xs) = p x || any p xs

  abbrev pub all : (A → Bool) → List A → Bool
  all p [] = true
  all p (x ∷ xs) = p x && all p xs

  -- `[x for x in xs if p(x)]`
  abbrev pub keep : (A → Bool) → List A → List A
  keep p [] = []
  keep p (x ∷ xs) = let rest = keep p xs in if p x then x ∷ rest else rest

  -- The first element that passes the test.
  abbrev pub find : (A → Bool) → List A → Option A
  find p [] = none
  find p (x ∷ xs) = let rest = find p xs in if p x then some x else rest

  -- `UPDATE ... WHERE p`: every element that passes the test is replaced.
  abbrev pub update_where : (A → Bool) → (A → A) → List A → List A
  update_where p f [] = []
  update_where p f (x ∷ xs) = (if p x then f x else x) ∷ update_where p f xs

  pub all-append : (p : A → Bool) (xs ys : List A) → all p (xs ++ ys) ≡ (all p xs && all p ys)
  all-append p [] ys = refl
  all-append p (x ∷ xs) ys = ground (arith, all-append p xs ys)

  pub any-append : (p : A → Bool) (xs ys : List A) → any p (xs ++ ys) ≡ (any p xs || any p ys)
  any-append p [] ys = refl
  any-append p (x ∷ xs) ys = ground (arith, any-append p xs ys)

  pub length-append : (xs ys : List A) → length (xs ++ ys) ≡ length xs + length ys
  length-append [] ys = omega arith
  length-append (x ∷ xs) ys = omega (arith, length-append xs ys)

  pub find-append :
      (p : A → Bool) (xs ys : List A)
      → find p (xs ++ ys) ≡ (elim (find p xs) [ none ↦ find p ys | some x ↦ some x ])
  find-append p [] ys = refl
  find-append p (x ∷ xs) ys = ground (arith, find-append p xs ys)

  pub find-holds : (p : A → Bool) (xs : List A) (x : A) → find p xs ≡ some x → p x ≡ true
  find-holds p [] x h = cc
  find-holds p (y ∷ ys) x h = ground (arith, find-holds p ys x)

module _ {ℓ} {A : Type ℓ} where
  -- `SELECT COUNT(*) ... WHERE p`, and the `rowcount` of an update.
  abbrev pub count_where : (A → Bool) → List A → ℕ
  count_where p [] = 0
  count_where p (x ∷ xs) = let n = count_where p xs in if p x then suc n else n

  -- `DELETE ... WHERE p`
  abbrev pub delete_where : (A → Bool) → List A → List A
  delete_where p [] = []
  delete_where p (x ∷ xs) = let rest = delete_where p xs in if p x then rest else x ∷ rest

  abbrev pub map_found : (A → A) → Option A → Option A
  map_found f none = none
  map_found f (some x) = some (f x)

  -- A row is found by its key whatever an update does to its other columns.
  pub find-update_where :
      (p q : A → Bool) (f : A → A) (xs : List A)
      → ((x : A) → p (f x) ≡ p x)
      → find p (update_where q f xs) ≡ map_found (λ x. if q x then f x else x) (find p xs)
  find-update_where p q f [] k = refl
  find-update_where p q f (x ∷ xs) k = ground (arith, k x, find-update_where p q f xs k)

  pub any-update_where :
      (p q : A → Bool) (f : A → A) (xs : List A)
      → ((x : A) → p (f x) ≡ p x)
      → any p (update_where q f xs) ≡ any p xs
  any-update_where p q f [] k = refl
  any-update_where p q f (x ∷ xs) k = ground (arith, k x, any-update_where p q f xs k)

  pub count-update_where :
      (p q : A → Bool) (f : A → A) (xs : List A)
      → ((x : A) → p (f x) ≡ p x)
      → count_where p (update_where q f xs) ≡ count_where p xs
  count-update_where p q f [] k = refl
  count-update_where p q f (x ∷ xs) k = ground (arith, k x, count-update_where p q f xs k)

  pub count-append :
      (p : A → Bool) (xs ys : List A)
      → count_where p (xs ++ ys) ≡ count_where p xs + count_where p ys
  count-append p [] ys = omega arith
  count-append p (x ∷ xs) ys = ground (arith, count-append p xs ys)

  find-count_zero : (p : A → Bool) (xs : List A) → count_where p xs ≡ 0 → find p xs ≡ none
  find-count_zero p [] h = refl
  find-count_zero p (x ∷ xs) h = ground (arith, find-count_zero p xs)

  delete-find-none :
      (p q : A → Bool) (xs : List A) → find p xs ≡ none → find p (delete_where q xs) ≡ none
  delete-find-none p q [] h = refl
  delete-find-none p q (x ∷ xs) h = ground (arith, delete-find-none p q xs)

  -- The one row of a key, after a deletion by another test.
  pub find-delete_where :
      (p q : A → Bool) (xs : List A)
      → count_where p xs ≤ 1
      → find p (delete_where q xs)
        ≡ (elim (find p xs) [ none ↦ none | some x ↦ if q x then none else some x ])
  find-delete_where p q [] n = refl
  find-delete_where p q (x ∷ xs) n =
      ground (arith, find-delete_where p q xs, find-count_zero p xs, delete-find-none p q xs)

  -- A deletion leaves no row that was not there.
  pub any-delete_false :
      (p q : A → Bool) (xs : List A) → any p xs ≡ false → any p (delete_where q xs) ≡ false
  any-delete_false p q [] h = refl
  any-delete_false p q (x ∷ xs) h = ground (arith, any-delete_false p q xs)

  -- An update that makes no row pass the test.
  pub any-update_false :
      (p q : A → Bool) (f : A → A) (xs : List A)
      → ((x : A) → p (f x) ≡ false)
      → any p xs ≡ false
      → any p (update_where q f xs) ≡ false
  any-update_false p q f [] k h = refl
  any-update_false p q f (x ∷ xs) k h = ground (arith, k x, any-update_false p q f xs k)

  -- An update that makes none of the rows that it changes pass the test anew.
  pub any-update_guarded :
      (p q : A → Bool) (f : A → A) (xs : List A)
      → ((x : A) → q x ≡ true → p x ≡ false → p (f x) ≡ false)
      → any p xs ≡ false
      → any p (update_where q f xs) ≡ false
  any-update_guarded p q f [] k h = refl
  any-update_guarded p q f (x ∷ xs) k h = ground (arith, k x, any-update_guarded p q f xs k)

  -- An update of the rows that pass the test, after which they do not.
  pub any-update_own :
      (p : A → Bool) (f : A → A) (xs : List A)
      → ((x : A) → p (f x) ≡ false)
      → any p (update_where p f xs) ≡ false
  any-update_own p f [] k = refl
  any-update_own p f (x ∷ xs) k = ground (arith, k x, any-update_own p f xs k)

  pub find-holds_any :
      (p q : A → Bool) (xs : List A) (x : A) → find p xs ≡ some x → q x ≡ true → any q xs ≡ true
  find-holds_any p q [] x h e = cc
  find-holds_any p q (y ∷ ys) x h e = ground (arith, find-holds_any p q ys x)

  pub any-delete_where :
      (p q : A → Bool) (xs : List A)
      → ((x : A) → p x ≡ true → q x ≡ false)
      → any p xs ≡ true
      → any p (delete_where q xs) ≡ true
  any-delete_where p q [] k h = h
  any-delete_where p q (x ∷ xs) k h = ground (arith, k x, any-delete_where p q xs k)

  pub any_weaken :
      (p q : A → Bool) (xs : List A)
      → ((x : A) → p x ≡ true → q x ≡ true)
      → any p xs ≡ true
      → any q xs ≡ true
  any_weaken p q [] k h = h
  any_weaken p q (x ∷ xs) k h = ground (arith, k x, any_weaken p q xs k)

  pub find-some-count :
      (p q : A → Bool) (xs : List A) (x : A)
      → find p xs ≡ some x
      → q x ≡ true
      → (count_where q xs ≡ 0 → ⊥)
  find-some-count p q [] x h e z = cc
  find-some-count p q (y ∷ ys) x h e z = ground (arith, find-some-count p q ys x)

  count-none :
      (p q : A → Bool) (xs : List A)
      → ((y : A) → q y ≡ true → p y ≡ true)
      → count_where p xs ≡ 0
      → count_where q xs ≡ 0
  count-none p q [] k n = refl
  count-none p q (y ∷ ys) k n = ground (arith, k y, count-none p q ys k)

  -- The one row of a key is counted when it passes a narrower test.
  pub find-count-one :
      (p q : A → Bool) (xs : List A) (x : A)
      → ((y : A) → q y ≡ true → p y ≡ true)
      → count_where p xs ≡ 1
      → find p xs ≡ some x
      → q x ≡ true
      → count_where q xs ≡ 1
  find-count-one p q [] x k n h e = cc
  find-count-one p q (y ∷ ys) x k n h e =
      ground (arith, k y, count-none p q ys k, find-count-one p q ys x k)

  pub find-none-count : (p : A → Bool) (xs : List A) → find p xs ≡ none → count_where p xs ≡ 0
  find-none-count p [] h = refl
  find-none-count p (x ∷ xs) h = ground (arith, find-none-count p xs)

module _ {ℓ κ} {A : Type ℓ} (P : A → Type κ) where
  pub All-append : (xs ys : List A) → All P xs → All P ys → All P (xs ++ ys)
  All-append [] ys hx hy = hy
  All-append (x ∷ xs) ys hx hy = (hx.0, All-append xs ys hx.1 hy)

  pub All-find : (p : A → Bool) (xs : List A) (x : A) → All P xs → find p xs ≡ some x → P x
  All-find p [] x h e = cc
  All-find p (y ∷ ys) x h e = ground (arith, All-find p ys x)

  pub All-update_where :
      (p : A → Bool) (f : A → A) (xs : List A)
      → ((x : A) → p x ≡ true → P x → P (f x))
      → All P xs
      → All P (update_where p f xs)
  All-update_where p f [] k h = h
  All-update_where p f (x ∷ xs) k h = (if_P (p x) refl, All-update_where p f xs k h.1)
    where
      if_P : (b : Bool) → p x ≡ b → P (if b then f x else x)
      if_P true e = k x e h.0
      if_P false e = h.0

pub All-map {ℓ κ μ} :
    {A : Type ℓ} (P : A → Type κ) (Q : A → Type μ) (xs : List A)
    → ((x : A) → P x → Q x)
    → All P xs
    → All Q xs
All-map P Q [] k h = tt
All-map P Q (x ∷ xs) k h = (k x h.0, All-map P Q xs k h.1)
