-- ===== src/Uri/RoundTrip.antt =====
-- Decoding what was encoded.
use mathlib.Core.List.{append_assoc}
use marshal_pm.Base.{
  is_blank, All-append, tests, ℕ, ◌+◌, ◌-◌, ◌*◌, ◌/◌, ◌%◌, ◌≤◌, ◌<◌, ◌≡◌, refl, ◌∙◌, ◌⊎◌, inl, inr,
  true, false, some, List, [], ◌∷◌, ◌++◌, arith, Text, ltb, Outcome, returned, threw, ◌>>=◌, tests,
  All, Lacks, ◌≢◌, sym, ap, Bool-cases,
}
use marshal_pm.Uri.{
  is_alnum, is_unreserved, is_surrogate, hex_digit, hex_value, percent, percents, utf8, encode_char,
  encode, Escape, idle, percent_seen, high, Pending, whole, more, take_byte, take_high, take_low,
  back_to_idle, take_plain, decode_step, decode_end, decode_from, decode,
}

hex_value-hex_digit : (n : ℕ) → n < 16 → hex_value (hex_digit n) ≡ some n
unfolding hex_value hex_digit
hex_value-hex_digit n h = ground arith

abbrev emit : Text → Outcome Text → Outcome Text
emit out m = m >>= λ t. returned (out ++ t)

emit-nil : (m : Outcome Text) → emit [] m ≡ m
emit-nil (returned t) = refl
emit-nil (threw e) = refl

decode_from-step :
    (p : Pending) (e : Escape) (c : ℕ) (s : Text) {p' : Pending} {e' : Escape} {out : Text}
    → decode_step p e c ≡ some ((p', e'), out)
    → decode_from p e (c ∷ s) ≡ emit out (decode_from p' e' s)
unfolding decode_from
decode_from-step p e c s h = rw (h, decode_from)

decode_step-idle : (p : Pending) → decode_step p idle 37 ≡ some ((p, percent_seen), [])
unfolding decode_step
decode_step-idle p = refl

decode_step-percent_seen :
    (p : Pending) (b : ℕ)
    → b < 256
    → decode_step p percent_seen (hex_digit (b / 16)) ≡ some ((p, high (b / 16)), [])
unfolding decode_step take_high
decode_step-percent_seen p b h = rw (hex_value-hex_digit (b / 16) (omega arith))

decode_step-high :
    (p : Pending) (b : ℕ) {p' : Pending} {out : Text}
    → b < 256
    → take_byte p b ≡ some (p', out)
    → decode_step p (high (b / 16)) (hex_digit (b % 16)) ≡ some ((p', idle), out)
unfolding decode_step take_low back_to_idle
decode_step-high p b h k =
    let e : b / 16 * 16 + b % 16 ≡ b = omega arith in
    rw (hex_value-hex_digit (b % 16) (omega arith), e, k)

-- Three characters of an escape hand one byte over.
decode_from-percent :
    (p : Pending) (b : ℕ) (s : Text) {p' : Pending} {out : Text}
    → b < 256
    → take_byte p b ≡ some (p', out)
    → decode_from p idle (percent b ++ s) ≡ emit out (decode_from p' idle s)
unfolding percent
decode_from-percent p b s h k =
    decode_from-step p idle 37 (hex_digit (b / 16) ∷ hex_digit (b % 16) ∷ s) (decode_step-idle p)
    ∙ emit-nil _
    ∙ decode_from-step p percent_seen (hex_digit (b / 16)) (hex_digit (b % 16) ∷ s)
        (decode_step-percent_seen p b h)
    ∙ emit-nil _
    ∙ decode_from-step p (high (b / 16)) (hex_digit (b % 16)) s (decode_step-high p b h k)

emit-append : (t u : Text) (m : Outcome Text) → emit t (emit u m) ≡ emit (t ++ u) m
emit-append t u (returned v) = rw append_assoc
emit-append t u (threw e) = refl

-- A run of the decoder over bytes: where it starts, where it ends, and what it puts out.
data Takes : Pending → List ℕ → Pending → Text → Type 0 where
  done : {p : Pending} → Takes p [] p []
  next :
      {p p' q : Pending} {b : ℕ} {bs : List ℕ} {out rest : Text}
      → b < 256
      → take_byte p b ≡ some (p', out)
      → Takes p' bs q rest
      → Takes p (b ∷ bs) q (out ++ rest)

decode_from-percents :
    (s : Text) {p q : Pending} {bs : List ℕ} {out : Text}
    → Takes p bs q out
    → decode_from p idle (percents bs ++ s) ≡ emit out (decode_from q idle s)
unfolding percents
decode_from-percents s {p} done = sym (emit-nil (decode_from p idle s))
decode_from-percents s {p} {q} (next {b = b} {bs = bs} {out = out} {rest = rest} h k t) =
    rw (append_assoc (percent b) (percents bs) s) (
      decode_from-percent p b (percents bs ++ s) h k
      ∙ ap (emit out) (decode_from-percents s t)
      ∙ emit-append out rest (decode_from q idle s))

-- A code point that is no surrogate.
abbrev pub IsScalar : ℕ → Type 0
IsScalar c = (c ≤ 0x10ffff) × ((c < 0xd800) ⊎ (0xe000 ≤ c))

only_byte : (c : ℕ) → c < 128 → take_byte whole c ≡ some (whole, c ∷ [])
unfolding take_byte
only_byte c h = ground arith

first_of_two :
    (c : ℕ) → 128 ≤ c → c < 2048 → take_byte whole (192 + c / 64) ≡ some (more 1 (c / 64) 128, [])
unfolding take_byte
first_of_two c lo hi = ground arith

last_byte :
    (c least : ℕ)
    → IsScalar c
    → least ≤ c
    → take_byte (more 1 (c / 64) least) (128 + c % 64) ≡ some (whole, c ∷ [])
unfolding take_byte is_surrogate
last_byte c least h lo =
    let e : c / 64 * 64 + (128 + c % 64 - 128) ≡ c = omega arith in rw e (ground arith)

first_of_three :
    (c : ℕ)
    → 2048 ≤ c
    → c < 65536
    → take_byte whole (224 + c / 4096) ≡ some (more 2 (c / 4096) 2048, [])
unfolding take_byte
first_of_three c lo hi = ground arith

first_of_four :
    (c : ℕ)
    → 65536 ≤ c
    → c ≤ 0x10ffff
    → take_byte whole (240 + c / 262144) ≡ some (more 3 (c / 262144) 65536, [])
unfolding take_byte
first_of_four c lo hi = ground arith

second_last :
    (c least : ℕ)
    → take_byte (more 2 (c / 4096) least) (128 + c / 64 % 64) ≡ some (more 1 (c / 64) least, [])
unfolding take_byte
second_last c least =
    let e : c / 4096 * 64 + (128 + c / 64 % 64 - 128) ≡ c / 64 = omega arith in rw e (ground arith)

third_last :
    (c least : ℕ)
    → take_byte (more 3 (c / 262144) least) (128 + c / 4096 % 64)
      ≡ some (more 2 (c / 4096) least, [])
unfolding take_byte
third_last c least =
    let e : c / 262144 * 64 + (128 + c / 4096 % 64 - 128) ≡ c / 4096 = omega arith in
    rw e (ground arith)

-- The decoder reads the bytes of a code point back.
utf8-Takes : (c : ℕ) → IsScalar c → Takes whole (utf8 c) whole (c ∷ [])
unfolding utf8
utf8-Takes c h = elim (Bool-cases (ltb c 128)) [
  | inl one ↦ rw one (next (omega tests) (only_byte c (ground arith)) done)
  | inr no1 ↦ elim (Bool-cases (ltb c 2048)) [
    | inl two ↦
        rw (no1, two)
          (next (omega tests) (first_of_two c (ground arith) (ground arith))
            (next (omega arith) (last_byte c 128 h (ground arith)) done))
    | inr no2 ↦ elim (Bool-cases (ltb c 65536)) [
      | inl three ↦
          rw (no1, no2, three)
            (next (omega tests) (first_of_three c (ground arith) (ground arith)) (
              next (omega arith) (second_last c 2048)
                (next (omega arith) (last_byte c 2048 h (ground arith)) done)))
      | inr four ↦
          rw (no1, no2, four)
            (next (omega arith) (first_of_four c (ground arith) h.0) (
              next (omega arith) (third_last c 65536) (
                next (omega arith) (second_last c 65536)
                  (next (omega arith) (last_byte c 65536 h (ground arith)) done))))
    ]
  ]
]

is_unreserved_bounds : (c : ℕ) → is_unreserved c ≡ true → (c < 128) × (c ≢ 37) × (c ≢ 47)
unfolding is_unreserved is_alnum
is_unreserved_bounds c h = ground arith

decode_step-unreserved :
    (c : ℕ) → is_unreserved c ≡ true → decode_step whole idle c ≡ some ((whole, idle), c ∷ [])
unfolding decode_step take_plain
decode_step-unreserved c h = ground (arith, is_unreserved_bounds c h)

-- One encoded character is decoded back.
decode_from-encode_char :
    (c : ℕ) (s : Text)
    → IsScalar c
    → decode_from whole idle (encode_char c ++ s) ≡ emit (c ∷ []) (decode_from whole idle s)
unfolding encode_char
decode_from-encode_char c s h = elim (Bool-cases (is_unreserved c)) [
  | inl plain ↦ rw plain (decode_from-step whole idle c s (decode_step-unreserved c plain))
  | inr quoted ↦ rw quoted (decode_from-percents s (utf8-Takes c h))
]

-- An encoded character is not empty and holds no slash.
hex_digit-ne-slash : (n : ℕ) → hex_digit n ≢ 47
unfolding hex_digit
hex_digit-ne-slash n = ground arith

percents-Lacks : (bs : List ℕ) → Lacks 47 (percents bs)
unfolding percents percent
percents-Lacks [] = tt
percents-Lacks (b ∷ bs) =
    (omega arith, (hex_digit-ne-slash (b / 16), (hex_digit-ne-slash (b % 16), percents-Lacks bs)))

encode_char-Lacks : (c : ℕ) → Lacks 47 (encode_char c)
unfolding encode_char
encode_char-Lacks c = elim (Bool-cases (is_unreserved c)) [
  | inl plain ↦ rw plain ((is_unreserved_bounds c plain).2, tt)
  | inr quoted ↦ rw quoted (percents-Lacks (utf8 c))
]

-- A segment of a path: not empty, and without a slash.
abbrev pub IsSegment : Text → Type 0
IsSegment t = (is_blank t ≡ false) × Lacks 47 t

encode_char-append_is_blank : (c : ℕ) (t : Text) → is_blank (encode_char c ++ t) ≡ false
unfolding encode_char utf8 percents percent
encode_char-append_is_blank c t = ground arith

is_surrogate_of_IsScalar : (c : ℕ) → IsScalar c → is_surrogate c ≡ false
unfolding is_surrogate
is_surrogate_of_IsScalar c h = ground arith

-- `encode` succeeds on text without lone surrogates, its result holds no slash, and `decode` gives
-- the text back.
pub decode-encode :
    (s : Text)
    → All IsScalar s
    → (t : Text) × (encode s ≡ returned t) × (decode t ≡ returned s) × Lacks 47 t
unfolding encode decode decode_end
decode-encode [] h = ([], refl, refl, tt)
decode-encode (c ∷ s) (h, hs) =
    let (t, e, d, k) = decode-encode s hs in
    (
      encode_char c ++ t,
      rw (is_surrogate_of_IsScalar c h, e) refl,
      decode_from-encode_char c t h ∙ rw d refl,
      All-append (λ d. d ≢ 47) (encode_char c) t (encode_char-Lacks c) k,
    )

pub encode-is_blank :
    (c : ℕ) (s : Text) {t : Text} → encode (c ∷ s) ≡ returned t → is_blank t ≡ false
unfolding encode
encode-is_blank c s h = ground (arith, encode_char-append_is_blank c)
