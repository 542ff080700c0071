-- ===== src/Vectors.antt =====
-- `Vec` of the standard library: `swap_remove`, and lists in another order.
use mathlib.Core.List.{Permᴰ}
use mathlib.Core.Option.{some-injective}
use creo_bench.Prelude.{
  ℕ, zero, suc, ◌<◌, ◌≡◌, refl, ap, ◌∙◌, subst, Option, none, some, List, [], ◌∷◌, arith, length,
  All,
}

unfoldable pub last_of {ℓ} : {A : Type ℓ} → A → List A → A
last_of x [] = x
last_of x (y ∷ ys) = last_of y ys

unfoldable pub but_last {ℓ} : {A : Type ℓ} → A → List A → List A
but_last x [] = []
but_last x (y ∷ ys) = x ∷ but_last y ys

-- The head is removed, and the last element takes its place.
unfoldable pub swap_remove_head {ℓ} : {A : Type ℓ} → List A → List A
unfolding last_of but_last
swap_remove_head [] = []
swap_remove_head (x ∷ []) = []
swap_remove_head (x ∷ y ∷ ys) = last_of y ys ∷ but_last y ys

-- What `swap_remove` does with the elements behind the first.
abbrev keep_head {ℓ} : {A : Type ℓ} → A → Option (A × List A) → Option (A × List A)
keep_head x none = none
keep_head x (some (y, ys)) = some (y, x ∷ ys)

-- The element at an index, and the others; `none` is a panic.
unfoldable pub swap_remove {ℓ} : {A : Type ℓ} → ℕ → List A → Option (A × List A)
swap_remove i [] = none
swap_remove zero (x ∷ xs) = some (x, swap_remove_head (x ∷ xs))
swap_remove (suc i) (x ∷ xs) = keep_head x (swap_remove i xs)

last_of-Perm {ℓ} :
    {A : Type ℓ} (x : A) (xs : List A) → Permᴰ (last_of x xs ∷ but_last x xs) (x ∷ xs)
unfolding last_of but_last
last_of-Perm x [] = Permᴰ.cons refl Permᴰ.nil
last_of-Perm x (y ∷ ys) = Permᴰ.trans (Permᴰ.swap refl refl) (Permᴰ.cons refl (last_of-Perm y ys))

-- What is left is the rest, in another order.
pub swap_remove_head-Perm {ℓ} :
    {A : Type ℓ} (x : A) (xs : List A) → Permᴰ (swap_remove_head (x ∷ xs)) xs
unfolding swap_remove_head
swap_remove_head-Perm x [] = Permᴰ.nil
swap_remove_head-Perm x (y ∷ ys) = last_of-Perm y ys

pub Perm-length {ℓ} : {A : Type ℓ} {xs ys : List A} → Permᴰ xs ys → length xs ≡ length ys
Perm-length Permᴰ.nil = refl
Perm-length (Permᴰ.cons e p) = ap suc (Perm-length p)
Perm-length (Permᴰ.swap e f) = refl
Perm-length (Permᴰ.trans p q) = Perm-length p ∙ Perm-length q

pub All-Perm {ℓ κ} :
    {A : Type ℓ} (P : A → Type κ) {xs ys : List A} → Permᴰ xs ys → All P xs → All P ys
All-Perm P Permᴰ.nil all = all
All-Perm P (Permᴰ.cons e p) all = (subst P e all.0, All-Perm P p all.1)
All-Perm P (Permᴰ.swap e f) all = (subst P f all.1.0, (subst P e all.0, all.1.1))
All-Perm P (Permᴰ.trans p q) all = All-Perm P q (All-Perm P p all)

-- An element within range is taken out, and the others stay.
pub swap_remove_total {ℓ} :
    {A : Type ℓ} (i : ℕ) (xs : List A)
    → i < length xs
    → (y : A) × (ys : List A) × (swap_remove i xs ≡ some (y, ys)) × Permᴰ (y ∷ ys) xs
unfolding swap_remove
swap_remove_total i [] h = absurd (omega arith)
swap_remove_total zero (x ∷ xs) h =
    (x, swap_remove_head (x ∷ xs), refl, Permᴰ.cons refl (swap_remove_head-Perm x xs))
swap_remove_total (suc i) (x ∷ xs) h =
    let (y, ys, e, p) = swap_remove_total i xs (omega arith) in
    (y, x ∷ ys, rw e, Permᴰ.trans (Permᴰ.swap refl refl) (Permᴰ.cons refl p))

keep_head-Perm {ℓ} :
    {A : Type ℓ} (x : A) (xs : List A) (o : Option (A × List A)) (r : A × List A)
    → ((q : A × List A) → o ≡ some q → Permᴰ (q.0 ∷ q.1) xs)
    → keep_head x o ≡ some r
    → Permᴰ (r.0 ∷ r.1) (x ∷ xs)
keep_head-Perm x xs none r h e = cc
keep_head-Perm x xs (some (y, ys)) r h e =
    subst (λ q. Permᴰ (q.0 ∷ q.1) (x ∷ xs)) (some-injective _ _ e)
      (Permᴰ.trans (Permᴰ.swap refl refl) (Permᴰ.cons refl (h (y, ys) refl)))

-- What is taken out was there, and the others stay.
pub swap_remove-Perm {ℓ} :
    {A : Type ℓ} (i : ℕ) (xs : List A) (r : A × List A)
    → swap_remove i xs ≡ some r
    → Permᴰ (r.0 ∷ r.1) xs
unfolding swap_remove
swap_remove-Perm i [] r e = cc
swap_remove-Perm zero (x ∷ xs) r e =
    subst (λ q. Permᴰ (q.0 ∷ q.1) (x ∷ xs)) (some-injective _ _ e)
      (Permᴰ.cons refl (swap_remove_head-Perm x xs))
swap_remove-Perm (suc i) (x ∷ xs) r e =
    keep_head-Perm x xs (swap_remove i xs) r (λ q. swap_remove-Perm i xs q) e
