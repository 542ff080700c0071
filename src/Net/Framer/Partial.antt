-- ===== src/Net/Framer/Partial.antt =====
-- net/framer.rs: the decoder before a message is complete.
use creo_bench.Prelude.{
  ℕ, ◌+◌, ◌<◌, ◌≤◌, ◌≡◌, refl, inl, inr, none, List, [], ◌∷◌, ◌++◌, append-nil, arith, ok, length,
  not-ltb, lt→ltb, Bool-cases, ltb,
}
use creo_bench.Net.Bytes.{Buffer}
use creo_bench.Net.Value.{Value, Shape}
use creo_bench.Net.De.{usize_max}
use creo_bench.Net.Encoding.{encode}
use creo_bench.Net.Protocol.{header_size, deserialize_header}
use creo_bench.Net.Framer.{decode}
use creo_bench.Net.Framer.RoundTrip.{frame, length-frame, deserialize_header-frame}

-- The header is read from the first twelve bytes alone.
deserialize_header-append :
    (xs ys : List ℕ)
    → header_size ≤ length xs
    → deserialize_header (xs ++ ys) header_size ≡ deserialize_header xs header_size
unfolding deserialize_header
deserialize_header-append (a ∷ b ∷ c ∷ d ∷ e ∷ f ∷ g ∷ h ∷ i ∷ j ∷ k ∷ l ∷ xs) ys m = refl
deserialize_header-append xs ys m = absurd (omega arith)

module _ (bytes : Buffer) (s : Shape) where
  -- For a value whose frame is no longer than usize::MAX: on a buffer that holds a part of the
  -- frame, from its beginning on and shorter than the frame, `decode` yields nothing and leaves the
  -- buffer as it is.
  pub decode-partial :
      (v : Value) (p q : List ℕ)
      → p ++ q ≡ frame v
      → length p < length (frame v)
      → header_size + length (encode v) ≤ usize_max
      → decode bytes s p ≡ (ok none, p)
  unfolding decode
  decode-partial v p q e short h = elim (Bool-cases (ltb (length p) header_size)) [
    | inl few ↦ rw few
    | inr enough ↦ rw (
      enough,
      ← deserialize_header-append p q (ground arith),
      e,
      ← append-nil (frame v),
      deserialize_header-frame v [] (omega arith),
      not-ltb usize_max (header_size + length (encode v)) h,
      lt→ltb (length p) (header_size + length (encode v)) (omega (arith, length-frame v)),
    )
  ]
