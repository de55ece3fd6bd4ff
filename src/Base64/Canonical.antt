-- ===== src/Base64/Canonical.antt =====
-- What `b64_decode` accepts.
use mathlib.Core.List.{append_assoc, append-nil}
use qsl_server.Base.{
  ℕ, ◌+◌, ◌*◌, ◌/◌, ◌%◌, ◌^◌, ◌<◌, ◌≡◌, ◌≢◌, refl, sym, ap, ap₂, subst, ◌∙◌, ◌⊎◌, inl, inr,
  Option-cases, none, some, List, [], ◌∷◌, ◌++◌, arith, All, Text, map,
}
use qsl_server.Base.Bits.{bit_and_ones}
use qsl_server.Base64.Digits.{digit, val, digit-val, val-lt}
use qsl_server.Base64.Codec.{
  Decoder, decode_loop, feed, finish, finish_loop, trim_padding, start, b64_decode, b64_encode,
}
use qsl_server.Base64.Loop.{
  at_bits, shifted, feed_keep, loop_digit, two_emit, three_emit, four_emit,
}
use qsl_server.Base64.Words.{IsByte, encode_one, encode_two, encode_three}

abbrev Digits : List ℕ → Type 0
Digits = All (λ v. v < 64)

-- A text is digits, or the loop fails on it.
spelled :
    (cs : Text)
    → ((vs : List ℕ) × Digits vs × (cs ≡ map digit vs)) ⊎ ((d : Decoder) → decode_loop d cs ≡ none)
unfolding decode_loop
spelled [] = inl ([], tt, refl)
spelled (c ∷ cs) = elim (Option-cases (val c)) [
  | inl bad ↦ inr (λ d. rw (bad, decode_loop))
  | inr (v, good) ↦ elim (spelled cs) [
    | inl (vs, small, e) ↦
        inl (v ∷ vs, (val-lt c v good, small), ap₂ ◌∷◌ (sym (digit-val c v good)) e)
    | inr fails ↦ inr (λ d. rw (good, decode_loop) (fails (feed d v)))
  ]
]

finish_inv :
    (out bs : List ℕ) (acc bits : ℕ)
    → finish_loop (some (at_bits out acc bits)) ≡ some bs
    → (acc % 2 ^ bits ≡ 0) × (out ≡ bs)
unfolding finish_loop finish
finish_inv out bs acc bits h = ground (arith, bit_and_ones bits acc)

-- What decoding digits behind `out` gives: more bytes, which encode to those digits.
abbrev Encodes : List ℕ → List ℕ → List ℕ → Type 0
Encodes vs out bs =
    (tail : List ℕ) × (out ++ tail ≡ bs) × All IsByte tail × (b64_encode tail ≡ map digit vs)

one_byte :
    (acc u v : ℕ)
    → u < 64
    → v < 64
    → shifted (shifted acc u) v % 2 ^ 4 ≡ 0
    → ((u * 4 + v / 16) / 4 ≡ u) × ((u * 4 + v / 16) % 4 * 16 + 0 / 16 ≡ v)
one_byte acc u v h g e = (omega arith, omega arith)

two_bytes :
    (acc u v w : ℕ)
    → u < 64
    → v < 64
    → w < 64
    → shifted (shifted (shifted acc u) v) w % 2 ^ 2 ≡ 0
    → let a = u * 4 + v / 16 in
      let b = v % 16 * 16 + w / 4 in
      (a / 4 ≡ u) × (a % 4 * 16 + b / 16 ≡ v) × (b % 16 * 4 + 0 / 64 ≡ w)
two_bytes acc u v w h g k e = (omega arith, omega arith, omega arith)

three_bytes :
    (u v w x : ℕ)
    → u < 64
    → v < 64
    → w < 64
    → x < 64
    → let a = u * 4 + v / 16 in
      let b = v % 16 * 16 + w / 4 in
      let c = w % 4 * 64 + x in
      (a / 4 ≡ u) × (a % 4 * 16 + b / 16 ≡ v) × (b % 16 * 4 + c / 64 ≡ w) × (c % 64 ≡ x)
three_bytes u v w x h g k l = (omega arith, omega arith, omega arith, omega arith)

fits_1 : (u v : ℕ) → u < 64 → v < 64 → IsByte (u * 4 + v / 16)
fits_1 u v h g = omega arith

fits_2 : (v w : ℕ) → v < 64 → w < 64 → IsByte (v % 16 * 16 + w / 4)
fits_2 v w h g = omega arith

fits_3 : (w x : ℕ) → w < 64 → x < 64 → IsByte (w % 4 * 64 + x)
fits_3 w x h g = omega arith

one_digit :
    (out : List ℕ) (acc u : ℕ) (bs : List ℕ)
    → u < 64
    → finish_loop (decode_loop (at_bits out acc 0) (digit u ∷ [])) ≢ some bs
unfolding decode_loop finish_loop finish
one_digit out acc u bs small h =
    let left : finish_loop (some (at_bits out (shifted acc u) 6)) ≡ some bs =
      sym (
        ap finish_loop (
          loop_digit (at_bits out acc 0) u [] small
          ∙ ap (λ d. decode_loop d []) (feed_keep out acc u small)))
      ∙ h in
    ground arith

undecoded : (bs : List ℕ) → finish_loop none ≢ some bs
unfolding finish_loop
undecoded bs h = cc

encode_chunks :
    (vs out bs : List ℕ) (acc : ℕ)
    → Digits vs
    → finish_loop (decode_loop (at_bits out acc 0) (map digit vs)) ≡ some bs
    → Encodes vs out bs
unfolding decode_loop
encode_chunks [] out bs acc d h =
    ([], append-nil out ∙ (finish_inv out bs acc 0 h).1, tt, unfold b64_encode in refl)
encode_chunks (u ∷ []) out bs acc d h = absurd (one_digit out acc u bs d.0 h)
encode_chunks (u ∷ v ∷ []) out bs acc d h =
    let (clean, same) =
      finish_inv (out ++ (u * 4 + v / 16) ∷ []) bs (shifted (shifted acc u) v) 4
        (sym (ap finish_loop (two_emit out acc u v [] d.0 d.1.0)) ∙ h) in
    let (p, q) = one_byte acc u v d.0 d.1.0 clean in
    (
      (u * 4 + v / 16) ∷ [],
      same,
      (fits_1 u v d.0 d.1.0, tt),
      encode_one (u * 4 + v / 16) (fits_1 u v d.0 d.1.0) ∙ ap₂ (λ x y. digit x ∷ digit y ∷ []) p q,
    )
encode_chunks (u ∷ v ∷ w ∷ []) out bs acc d h =
    let a = u * 4 + v / 16 in
    let b = v % 16 * 16 + w / 4 in
    let (clean, same) =
      finish_inv (out ++ a ∷ b ∷ []) bs (shifted (shifted (shifted acc u) v) w) 2
        (sym (ap finish_loop (three_emit out acc u v w [] d.0 d.1.0 d.1.1.0)) ∙ h) in
    let (p, q, r) = two_bytes acc u v w d.0 d.1.0 d.1.1.0 clean in
    (
      a ∷ b ∷ [],
      same,
      (fits_1 u v d.0 d.1.0, (fits_2 v w d.1.0 d.1.1.0, tt)),
      encode_two a b (fits_1 u v d.0 d.1.0) (fits_2 v w d.1.0 d.1.1.0)
          ∙ ap₂ (λ x y. digit x ∷ digit y ∷ digit (b % 16 * 4 + 0 / 64) ∷ []) p q
          ∙ ap (λ z. digit u ∷ digit v ∷ digit z ∷ []) r,
    )
encode_chunks (u ∷ v ∷ w ∷ x ∷ vs) out bs acc d h =
    let a = u * 4 + v / 16 in
    let b = v % 16 * 16 + w / 4 in
    let c = w % 4 * 64 + x in
    let (rest, same, bytes, encoded) =
      encode_chunks vs (out ++ a ∷ b ∷ c ∷ []) bs
        (shifted (shifted (shifted (shifted acc u) v) w) x) d.1.1.1.1
        (sym (ap finish_loop (four_emit out acc u v w x (map digit vs) d.0 d.1.0 d.1.1.0 d.1.1.1.0))
          ∙ h) in
    let (p, q, r, t) = three_bytes u v w x d.0 d.1.0 d.1.1.0 d.1.1.1.0 in
    (
      a ∷ b ∷ c ∷ rest,
      sym (append_assoc out (a ∷ b ∷ c ∷ []) rest) ∙ same,
      (fits_1 u v d.0 d.1.0, (fits_2 v w d.1.0 d.1.1.0, (fits_3 w x d.1.1.0 d.1.1.1.0, bytes))),
      encode_three a b c rest (fits_1 u v d.0 d.1.0) (fits_2 v w d.1.0 d.1.1.0)
            (fits_3 w x d.1.1.0 d.1.1.1.0)
          ∙ ap₂
              (λ y z.
                digit y ∷ digit z ∷ digit (b % 16 * 4 + c / 64) ∷ digit (c % 64) ∷ b64_encode rest)
              p q
          ∙ ap₂ (λ y z. digit u ∷ digit v ∷ digit y ∷ digit z ∷ b64_encode rest) r t
          ∙ ap (λ cs. digit u ∷ digit v ∷ digit w ∷ digit x ∷ cs) encoded,
    )

-- `b64_decode` accepts one spelling for each list of bytes, but for padding: what it accepts decodes to
-- bytes whose encoding is the text without its trailing padding.
pub b64_decode-canonical :
    (s : Text) (bs : List ℕ)
    → b64_decode s ≡ some bs
    → All IsByte bs × (b64_encode bs ≡ trim_padding s)
unfolding b64_decode
b64_decode-canonical s bs h = elim (spelled (trim_padding s)) [
  | inl (vs, small, e) ↦
      let (tail, same, bytes, encoded) =
        encode_chunks vs [] bs 0 small
          (sym (ap (λ cs. finish_loop (decode_loop start cs)) e) ∙ h) in
      (subst (All IsByte) same bytes, ap b64_encode (sym same) ∙ encoded ∙ sym e)
  | inr fails ↦ absurd (undecoded bs (sym (ap finish_loop (fails start)) ∙ h))
]
