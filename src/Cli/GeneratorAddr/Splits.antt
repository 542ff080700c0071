-- ===== src/Cli/GeneratorAddr/Splits.antt =====
-- cli/generator_addr.rs: where a text is split.
use mathlib.Core.Option.{some-injective}
use creo_bench.Prelude.{
  ℕ, ◌≡◌, refl, ap, sym, subst, ◌∙◌, Bool, true, false, Bool-cases, inl, inr, Option, none, some,
  List, [], ◌∷◌, ◌++◌, All, ◌==◌, if◌then◌else◌, arith,
}
use creo_bench.Cli.GeneratorAddr.{cons_first, split_once, or_here, rsplit_once, starts_with_bracket}

abbrev pub Lacks : ℕ → List ℕ → Type 0
Lacks d = All (λ c. (c == d) ≡ false)

pub split_once-Lacks :
    (d : ℕ) (xs ys : List ℕ) → Lacks d xs → split_once d (xs ++ d ∷ ys) ≡ some (xs, ys)
unfolding split_once
split_once-Lacks d [] ys h = ground arith
split_once-Lacks d (x ∷ xs) ys h = rw (split_once, h.0, split_once-Lacks d xs ys h.1) refl

cons_first-Lacks :
    (d c : ℕ) (o : Option (List ℕ × List ℕ)) (a b : List ℕ)
    → (c == d) ≡ false
    → ((a' b' : List ℕ) → o ≡ some (a', b') → Lacks d a')
    → cons_first c o ≡ some (a, b)
    → Lacks d a
cons_first-Lacks d c none a b h later e = cc
cons_first-Lacks d c (some (a', b')) a b h later e =
    subst (Lacks d) (ap (λ p. p.0) (some-injective _ _ e)) (h, later a' b' refl)

split_once_here : (d c : ℕ) (cs : List ℕ) → (c == d) ≡ true → split_once d (c ∷ cs) ≡ some ([], cs)
unfolding split_once
split_once_here d c cs h = rw (split_once, h) refl

split_once_later :
    (d c : ℕ) (cs : List ℕ)
    → (c == d) ≡ false
    → split_once d (c ∷ cs) ≡ cons_first c (split_once d cs)
unfolding split_once
split_once_later d c cs h = rw (split_once, h) refl

split_once_empty : (d : ℕ) → split_once d [] ≡ none
unfolding split_once
split_once_empty d = refl

pub split_once-some : (d : ℕ) (s a b : List ℕ) → split_once d s ≡ some (a, b) → Lacks d a
split_once-some d [] a b h = cc (split_once_empty d, h)
split_once-some d (c ∷ cs) a b h = elim (Bool-cases (c == d)) [
  | inl here ↦
      subst (Lacks d) (ap (λ p. p.0) (some-injective _ _ (sym (split_once_here d c cs here) ∙ h)))
        tt
  | inr later ↦
      cons_first-Lacks d c (split_once d cs) a b later (split_once-some d cs)
        (sym (split_once_later d c cs later) ∙ h)
]

cons_first-head :
    (c : ℕ) (o : Option (List ℕ × List ℕ)) (a b : List ℕ)
    → cons_first c o ≡ some (a, b)
    → (a' : List ℕ) × (a ≡ c ∷ a')
cons_first-head c none a b e = cc
cons_first-head c (some (a', b')) a b e = (a', sym (ap (λ p. p.0) (some-injective _ _ e)))

-- The part before the first `]` of a text that starts with `[` does too.
pub starts-split_once :
    (s a b : List ℕ)
    → starts_with_bracket s ≡ true
    → split_once b']' s ≡ some (a, b)
    → starts_with_bracket a ≡ true
unfolding starts_with_bracket
starts-split_once [] a b h e = cc
starts-split_once (c ∷ cs) a b h e =
    let (a', same) =
      cons_first-head c (split_once b']' cs) a b
        (sym (split_once_later b']' c cs (ground (arith, h))) ∙ e) in
    subst (λ t. starts_with_bracket t ≡ true) (sym same) h

rsplit_once-none : (d : ℕ) (ys : List ℕ) → Lacks d ys → rsplit_once d ys ≡ none
unfolding rsplit_once
rsplit_once-none d [] h = refl
rsplit_once-none d (y ∷ ys) h = rw (rsplit_once-none d ys h.1, h.0) refl

pub rsplit_once-Lacks :
    (d : ℕ) (xs ys : List ℕ) → Lacks d ys → rsplit_once d (xs ++ d ∷ ys) ≡ some (xs, ys)
unfolding rsplit_once
rsplit_once-Lacks d [] ys h = rw (rsplit_once-none d ys h) (ground arith)
rsplit_once-Lacks d (x ∷ xs) ys h = rw (rsplit_once-Lacks d xs ys h) refl

before_it :
    (here : Bool) (cs a b : List ℕ)
    → (if◌then◌else◌ {A = Option (List ℕ × List ℕ)} here (some ([], cs)) none) ≡ some (a, b)
    → a ≡ []
before_it true cs a b e = sym (ap (λ p. p.0) (some-injective _ _ e))
before_it false cs a b e = cc

or_here-starts :
    (d c : ℕ) (cs : List ℕ) (o : Option (List ℕ × List ℕ)) (a b : List ℕ)
    → (c == b'[') ≡ false
    → or_here d c cs o ≡ some (a, b)
    → starts_with_bracket a ≡ false
unfolding starts_with_bracket
or_here-starts d c cs (some (a', b')) a b h e =
    subst (λ t. starts_with_bracket t ≡ false) (ap (λ p. p.0) (some-injective _ _ e)) h
or_here-starts d c cs none a b h e =
    subst (λ t. starts_with_bracket t ≡ false) (sym (before_it (c == d) cs a b e)) refl

pub rsplit_once-starts :
    (s a b : List ℕ)
    → starts_with_bracket s ≡ false
    → rsplit_once b':' s ≡ some (a, b)
    → starts_with_bracket a ≡ false
unfolding rsplit_once starts_with_bracket
rsplit_once-starts [] a b h e = cc
rsplit_once-starts (c ∷ cs) a b h e = or_here-starts b':' c cs (rsplit_once b':' cs) a b h e
