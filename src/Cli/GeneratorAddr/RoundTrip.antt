-- ===== src/Cli/GeneratorAddr/RoundTrip.antt =====
-- cli/generator_addr.rs: addresses that are printed and parsed again.
use creo_bench.Prelude.{
  ℕ, ◌≤◌, ◌≡◌, refl, ap, sym, subst, ◌∙◌, true, false, Bool-cases, ◌⊎◌, inl, inr, Option, none,
  some, List, [], ◌∷◌, ◌++◌, append_assoc, Result, ok, err, ◌==◌, arith,
}
use creo_bench.Cli.Decimal.{
  u16_max, parse_u16, print_u16, AllDigits, print_u16-AllDigits, parse_u16-print_u16, parse_u16-le,
}
use creo_bench.Cli.GeneratorAddr.{
  GeneratorAddr, AddrError, split_once, rsplit_once, starts_with_bracket, with_port, after_bracket,
  bracketed, addr_and_port, from_str, display,
}
use creo_bench.Cli.GeneratorAddr.Splits.{
  Lacks, split_once-Lacks, split_once-some, starts-split_once, rsplit_once-Lacks,
  rsplit_once-starts,
}

digits-lack-colon : (ys : List ℕ) → AllDigits ys → Lacks b':' ys
digits-lack-colon [] h = tt
digits-lack-colon (y ∷ ys) h = (ground (arith, h.0.0, h.0.1), digits-lack-colon ys h.1)

-- What `from_str` makes of an address: one without a bracket in front, or one in brackets.
abbrev IsAddr : List ℕ → Type 0
IsAddr addr =
    (starts_with_bracket addr ≡ false)
    ⊎ ((a : List ℕ) × (addr ≡ a ++ b']' ∷ []) × Lacks b']' a × (starts_with_bracket a ≡ true))

abbrev address : List ℕ → ℕ → GeneratorAddr
address addr port = record { addr = addr; port = port }

starts-append :
    (xs ys : List ℕ) → starts_with_bracket xs ≡ true → starts_with_bracket (xs ++ ys) ≡ true
unfolding starts_with_bracket
starts-append [] ys h = cc
starts-append (x ∷ xs) ys h = h

starts-colon :
    (xs ys : List ℕ)
    → starts_with_bracket xs ≡ false
    → starts_with_bracket (xs ++ b':' ∷ ys) ≡ false
unfolding starts_with_bracket
starts-colon [] ys h = refl
starts-colon (x ∷ xs) ys h = h

from_str-bracket :
    (s : List ℕ) → starts_with_bracket s ≡ true → from_str s ≡ bracketed s (split_once b']' s)
unfolding from_str
from_str-bracket s h = rw (from_str, h) refl

from_str-plain :
    (s : List ℕ) → starts_with_bracket s ≡ false → from_str s ≡ addr_and_port s (rsplit_once b':' s)
unfolding from_str
from_str-plain s h = rw (from_str, h) refl

from_str-display_plain :
    (a : GeneratorAddr)
    → starts_with_bracket a.addr ≡ false
    → a.port ≤ u16_max
    → from_str (display a) ≡ ok a
unfolding display addr_and_port
from_str-display_plain a plain h =
    let text = a.addr ++ b':' ∷ print_u16 a.port in
    from_str-plain text (starts-colon a.addr (print_u16 a.port) plain)
    ∙ ap (addr_and_port text) (
        rsplit_once-Lacks b':' a.addr (print_u16 a.port)
          (digits-lack-colon (print_u16 a.port) (print_u16-AllDigits a.port)))
    ∙ ap (with_port a.addr (print_u16 a.port)) (parse_u16-print_u16 a.port h)

from_str-display_bracketed :
    (x : List ℕ) (port : ℕ)
    → Lacks b']' x
    → starts_with_bracket x ≡ true
    → port ≤ u16_max
    → let a = address (x ++ b']' ∷ []) port in from_str (display a) ≡ ok a
unfolding display bracketed after_bracket
from_str-display_bracketed x port lacks starts h =
    let rest = b':' ∷ print_u16 port in
    let text = (x ++ b']' ∷ []) ++ rest in
    from_str-bracket text (starts-append (x ++ b']' ∷ []) rest (starts-append x (b']' ∷ []) starts))
    ∙ ap (bracketed text) (
        ap (split_once b']') (append_assoc x (b']' ∷ []) rest) ∙ split_once-Lacks b']' x rest lacks)
    ∙ ap (with_port (x ++ b']' ∷ []) (print_u16 port)) (parse_u16-print_u16 port h)

from_str-display_addr :
    (a : GeneratorAddr) → IsAddr a.addr → a.port ≤ u16_max → from_str (display a) ≡ ok a
from_str-display_addr a (inl plain) h = from_str-display_plain a plain h
from_str-display_addr a (inr (x, e, lacks, starts)) h =
    subst (λ addr. from_str (display (address addr a.port)) ≡ ok (address addr a.port)) (sym e)
      (from_str-display_bracketed x a.port lacks starts h)

-- The address and the port, if there are any, are as `from_str` makes them.
abbrev Sound : Result GeneratorAddr AddrError → Type 0
Sound (ok a) = IsAddr a.addr × (a.port ≤ u16_max)
Sound (err e) = Unit {0}

with_port-Sound :
    (addr port : List ℕ) (o : Option ℕ)
    → IsAddr addr
    → ((n : ℕ) → o ≡ some n → n ≤ u16_max)
    → Sound (with_port addr port o)
with_port-Sound addr port none v h = tt
with_port-Sound addr port (some n) v h = (v, h n refl)

after_bracket-Sound : (addr port : List ℕ) → IsAddr addr → Sound (after_bracket addr port)
unfolding after_bracket
after_bracket-Sound addr [] v = (v, omega arith)
after_bracket-Sound addr (c ∷ port) v = elim (Bool-cases (c == b':')) [
  | inl colon ↦
      rw (after_bracket, colon) (with_port-Sound addr port (parse_u16 port) v (parse_u16-le port))
  | inr other ↦ rw (after_bracket, other) tt
]

bracketed-Sound :
    (s : List ℕ) (o : Option (List ℕ × List ℕ))
    → starts_with_bracket s ≡ true
    → split_once b']' s ≡ o
    → Sound (bracketed s o)
unfolding bracketed
bracketed-Sound s none h e = tt
bracketed-Sound s (some (a, b)) h e =
    after_bracket-Sound (a ++ b']' ∷ []) b
      (inr (a, refl, split_once-some b']' s a b e, starts-split_once s a b h e))

addr_and_port-Sound :
    (s : List ℕ) (o : Option (List ℕ × List ℕ))
    → starts_with_bracket s ≡ false
    → rsplit_once b':' s ≡ o
    → Sound (addr_and_port s o)
unfolding addr_and_port
addr_and_port-Sound s none h e = (inl h, omega arith)
addr_and_port-Sound s (some (a, b)) h e =
    with_port-Sound a b (parse_u16 b) (inl (rsplit_once-starts s a b h e)) (parse_u16-le b)

from_str-Sound : (s : List ℕ) → Sound (from_str s)
from_str-Sound s = elim (Bool-cases (starts_with_bracket s)) [
  | inl starts ↦ rw (from_str-bracket s starts) (bracketed-Sound s (split_once b']' s) starts refl)
  | inr plain ↦ rw (from_str-plain s plain) (addr_and_port-Sound s (rsplit_once b':' s) plain refl)
]

-- If a text parses as the address of a load generator, then what the address prints parses as the
-- same address: with its port, the default one or one written with a plus sign or zeros, behind an
-- address in brackets or one without.
pub from_str-display :
    (s : List ℕ) (a : GeneratorAddr) → from_str s ≡ ok a → from_str (display a) ≡ ok a
from_str-display s a e =
    let sound = subst Sound e (from_str-Sound s) in from_str-display_addr a sound.0 sound.1
