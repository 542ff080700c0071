-- ===== src/Net/Framer/Stream.antt =====
-- The messages of a stream, however the network cuts it into chunks. The reading loop is that of
-- `Framed` (of the crate `tokio-util`): it appends what arrives to the buffer, and calls `decode`
-- until that has no message.
use creo_bench.Prelude.{
  Option, Result, ok, err, ℕ, zero, suc, ◌+◌, ◌<◌, ◌≤◌, ◌≡◌, refl, sym, ap, ◌∙◌, ◌⊎◌, inl, inr,
  some, none, List, [], ◌∷◌, ◌++◌, append_assoc, append-nil, subst, arith, err, length,
  length-append, All,
}
use creo_bench.Net.Bytes.{Buffer}
use creo_bench.Net.Value.{Value, Shape}
use creo_bench.Net.De.{usize_max}
use creo_bench.Net.Encoding.{encode, HasShape}
use creo_bench.Net.Protocol.{header_size}
use creo_bench.Net.Framer.{DecoderError, decode}
use creo_bench.Net.Framer.RoundTrip.{frame, length-frame, decode-frame}
use creo_bench.Net.Framer.Partial.{decode-partial}

abbrev pub frames : List Value → List ℕ
frames [] = []
frames (v ∷ vs) = frame v ++ frames vs

abbrev pub joined : List (List ℕ) → List ℕ
joined [] = []
joined (c ∷ cs) = c ++ joined cs

-- A value of the shape whose message fits into memory.
abbrev pub Fits : Shape → Value → Type 0
Fits s v = HasShape v s × (header_size + length (encode v) ≤ usize_max)

split_append {ℓ} :
    {A : Type ℓ} (x f y g : List A)
    → x ++ y ≡ f ++ g
    → ((z : List A) × (x ≡ f ++ z) × (z ++ y ≡ g))
      ⊎ ((w : List A) × (length x < length f) × (x ++ w ≡ f))
split_append x [] y g e = inl (x, refl, e)
split_append [] (b ∷ f) y g e = inr (b ∷ f, omega arith, refl)
split_append (a ∷ x) (b ∷ f) y g e = elim (split_append x f y g (cc)) [
  | inl (z, p, q) ↦ inl (z, cc, q)
  | inr (w, l, p) ↦ inr (w, omega arith, cc)
]

-- What the loop does with a result of `decode`.
abbrev go_on :
    (List ℕ → List Value × List ℕ)
    → Result (Option Value) DecoderError × List ℕ
    → List Value × List ℕ
go_on again (ok (some v), rest) = (let (vs, left) = again rest in (v ∷ vs, left))
go_on again (ok none, rest) = ([], rest)
go_on again (err e, rest) = ([], rest)

module _ (bytes : Buffer) (s : Shape) where
  -- `decode` until it has no message, at most `fuel` times.
  unfoldable pub drain : ℕ → List ℕ → List Value × List ℕ
  drain zero buf = ([], buf)
  drain (suc fuel) buf = go_on (λ b. drain fuel b) (decode bytes s buf)

  -- The messages of the chunks that arrive, and what is left in the buffer. Each message takes
  -- bytes off it, so its length is fuel enough.
  unfoldable pub receive : List ℕ → List (List ℕ) → List Value × List ℕ
  receive buf [] = ([], buf)
  receive buf (c ∷ cs) =
      let (vs, left) = drain (suc (length (buf ++ c))) (buf ++ c) in
      let (us, left') = receive left cs in (vs ++ us, left')

  decode-nil : decode bytes s [] ≡ (ok none, [])
  unfolding decode
  decode-nil = refl

  drain-none :
      (fuel : ℕ) (buf : List ℕ) {rest : List ℕ}
      → decode bytes s buf ≡ (ok none, rest)
      → drain (suc fuel) buf ≡ ([], rest)
  unfolding drain
  drain-none fuel buf e = rw (drain, e)

  drain-some :
      (fuel : ℕ) (buf : List ℕ) {v : Value} {rest left : List ℕ} {vs : List Value}
      → decode bytes s buf ≡ (ok (some v), rest)
      → drain fuel rest ≡ (vs, left)
      → drain (suc fuel) buf ≡ (v ∷ vs, left)
  unfolding drain
  drain-some fuel buf e p = rw (drain, e, p)

  drain-frames :
      (fuel : ℕ) (vs : List Value) (q : List ℕ)
      → All (Fits s) vs
      → decode bytes s q ≡ (ok none, q)
      → length vs < fuel
      → drain fuel (frames vs ++ q) ≡ (vs, q)
  drain-frames zero vs q fits e h = absurd (omega arith)
  drain-frames (suc fuel) [] q fits e h = drain-none fuel q e
  drain-frames (suc fuel) (v ∷ vs) q fits e h = rw (append_assoc (frame v) (frames vs) q) (
      drain-some fuel _ (decode-frame bytes fits.0.0 (frames vs ++ q) fits.0.1)
        (drain-frames fuel vs q fits.1 e (omega arith)))

  length-le-frames : (vs : List Value) → length vs ≤ length (frames vs)
  length-le-frames [] = omega arith
  length-le-frames (v ∷ vs) =
      omega (arith, length-append (frame v) (frames vs), length-frame v, length-le-frames vs)

  -- Where a stream of messages is cut, whole messages stand before the cut, then a part that the
  -- decoder leaves alone, and the rest of the stream goes on from there.
  record Cut (vs : List Value) (x y : List ℕ) : Type 0 where
    before : List Value
    after : List Value
    rest : List ℕ
    parts : vs ≡ before ++ after
    fits_before : All (Fits s) before
    fits_after : All (Fits s) after
    here : x ≡ frames before ++ rest
    on : rest ++ y ≡ frames after
    waits : decode bytes s rest ≡ (ok none, rest)

  cut : (vs : List Value) (x y : List ℕ) → All (Fits s) vs → x ++ y ≡ frames vs → Cut vs x y
  cut [] [] y fits e = record {
    before = [];
    after = [];
    rest = [];
    parts = refl;
    fits_before = tt;
    fits_after = tt;
    here = refl;
    on = e;
    waits = decode-nil;
  }
  cut [] (a ∷ x) y fits e = cc
  cut (v ∷ vs) x y fits e = elim (split_append x (frame v) y (frames vs) e) [
    | inl (z, p, q) ↦
        let c = cut vs z y fits.1 q in
        record {
          before = v ∷ c.before;
          after = c.after;
          rest = c.rest;
          parts = ap (◌∷◌ v) c.parts;
          fits_before = (fits.0, c.fits_before);
          fits_after = c.fits_after;
          here =
              p
              ∙ ap (◌++◌ (frame v)) c.here
              ∙ sym (append_assoc (frame v) (frames c.before) c.rest);
          on = c.on;
          waits = c.waits;
        }
    | inr (w, l, p) ↦ record {
      before = [];
      after = v ∷ vs;
      rest = x;
      parts = refl;
      fits_before = tt;
      fits_after = fits;
      here = refl;
      on = e;
      waits = decode-partial bytes s v x w p l fits.0.1;
    }
  ]

  drain-Cut :
      {vs : List Value} {x y : List ℕ} (c : Cut vs x y)
      → drain (suc (length x)) x ≡ (c.before, c.rest)
  drain-Cut {x = x} c =
      subst (λ (z : List ℕ). drain (suc (length x)) z ≡ (c.before, c.rest)) (sym c.here)
        (drain-frames (suc (length x)) c.before c.rest c.fits_before c.waits (
          omega (
            arith,
            ap length c.here,
            length-append (frames c.before) c.rest,
            length-le-frames c.before,
          )))

  receive-frames_from :
      (buf : List ℕ) (cs : List (List ℕ)) (vs : List Value)
      → All (Fits s) vs
      → buf ++ joined cs ≡ frames vs
      → decode bytes s buf ≡ (ok none, buf)
      → receive buf cs ≡ (vs, [])
  unfolding receive
  receive-frames_from buf [] [] fits e waits =
      ap (λ (b : List ℕ). ([], b)) (sym (append-nil buf) ∙ e)
  receive-frames_from buf [] (v ∷ vs) fits e waits =
      cc (decode-frame bytes fits.0.0 (frames vs) fits.0.1, append-nil buf)
  receive-frames_from buf (c ∷ cs) vs fits e waits =
      let k = cut vs (buf ++ c) (joined cs) fits (append_assoc buf c (joined cs) ∙ e) in
      rw (drain-Cut k, receive-frames_from k.rest cs k.after k.fits_after k.on k.waits)
        (ap (λ (us : List Value). (us, [])) (sym k.parts))

  -- Let the frames of a list of values arrive in chunks, cut anywhere; each value has the shape
  -- that is asked for, with a known length and at least as many bytes as elements in every sequence
  -- and map in it, which rules out sequences of one or more units; and its frame is no longer than
  -- usize::MAX. A reader that appends each chunk to its buffer and then calls `decode` until it
  -- yields nothing gets exactly these values, each once and in order, and its buffer ends up empty.
  pub receive-frames :
      (vs : List Value) (cs : List (List ℕ))
      → All (Fits s) vs
      → joined cs ≡ frames vs
      → receive [] cs ≡ (vs, [])
  receive-frames vs cs fits e = receive-frames_from [] cs vs fits e decode-nil
