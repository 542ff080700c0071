-- ===== src/Cli/GeneratorAddr.antt =====
-- cli/generator_addr.rs: the addresses of load generators. Texts are their code points.
pub mod Splits
pub mod RoundTrip
use creo_bench.Prelude.{
  ℕ, Bool, true, false, Option, none, some, List, [], ◌∷◌, ◌++◌, Result, ok, err, ◌==◌,
  if◌then◌else◌,
}
use creo_bench.Cli.Decimal.{parse_u16, print_u16}

abbrev pub default_generator_port : ℕ
default_generator_port = 24266

pub record GeneratorAddr : Type 0 where
  pub addr : List ℕ
  pub port : ℕ

-- cli/error.rs
pub data AddrError : Type 0 where
  invalid_ipv6_format invalid_port : List ℕ → AddrError

abbrev pub cons_first : ℕ → Option (List ℕ × List ℕ) → Option (List ℕ × List ℕ)
cons_first c none = none
cons_first c (some (a, b)) = some (c ∷ a, b)

-- `str::split_once` at a character.
unfoldable pub split_once : ℕ → List ℕ → Option (List ℕ × List ℕ)
split_once d [] = none
split_once d (c ∷ cs) =
    let rest = cons_first c (split_once d cs) in if c == d then some ([], cs) else rest

abbrev pub or_here : ℕ → ℕ → List ℕ → Option (List ℕ × List ℕ) → Option (List ℕ × List ℕ)
or_here d c cs none = if c == d then some ([], cs) else none
or_here d c cs (some (a, b)) = some (c ∷ a, b)

-- `str::rsplit_once` at a character.
unfoldable pub rsplit_once : ℕ → List ℕ → Option (List ℕ × List ℕ)
rsplit_once d [] = none
rsplit_once d (c ∷ cs) = or_here d c cs (rsplit_once d cs)

unfoldable pub starts_with_bracket : List ℕ → Bool
starts_with_bracket [] = false
starts_with_bracket (c ∷ cs) = c == b'['

abbrev pub with_port : List ℕ → List ℕ → Option ℕ → Result GeneratorAddr AddrError
with_port addr port none = err (invalid_port port)
with_port addr port (some n) = ok (record { addr = addr; port = n })

-- What follows the bracket that closes an IPv6 address.
after_bracket : List ℕ → List ℕ → Result GeneratorAddr AddrError
after_bracket addr [] = ok (record { addr = addr; port = default_generator_port })
after_bracket addr (c ∷ port) =
    if c == b':' then with_port addr port (parse_u16 port) else err (invalid_port (c ∷ port))

bracketed : List ℕ → Option (List ℕ × List ℕ) → Result GeneratorAddr AddrError
unfolding after_bracket
bracketed s none = err (invalid_ipv6_format s)
bracketed s (some (addr, port)) = after_bracket (addr ++ b']' ∷ []) port

addr_and_port : List ℕ → Option (List ℕ × List ℕ) → Result GeneratorAddr AddrError
addr_and_port s none = ok (record { addr = s; port = default_generator_port })
addr_and_port s (some (addr, port)) = with_port addr port (parse_u16 port)

-- `GeneratorAddr::from_str`.
unfoldable pub from_str : List ℕ → Result GeneratorAddr AddrError
unfolding bracketed addr_and_port
from_str s =
    if starts_with_bracket s
    then bracketed s (split_once b']' s)
    else addr_and_port s (rsplit_once b':' s)

-- Its `Display`.
unfoldable pub display : GeneratorAddr → List ℕ
display a = a.addr ++ b':' ∷ print_u16 a.port
