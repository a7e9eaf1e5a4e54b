-- ===== src/Storage/Utf8/Scalars.antt =====
-- What ValidUtf8 accepts: the texts of Unicode scalar values without the zero.
use wotex_matter.Base.{
  ℕ, zero, suc, ◌+◌, ◌*◌, ◌/◌, ◌%◌, ◌≤◌, ◌<◌, ◌≡◌, ◌↔◌, ◌⊎◌, inl, refl, sym, ap, ◌∙◌, Bool, true,
  false, ◌&&◌, List, [], ◌∷◌, ◌++◌, Option, none, some, length, length-append, ◌==◌, leb, ltb,
  if◌then◌else◌, if_cases, Bytes, All, arith,
}
use mathlib.Core.Path.{subst}
use wotex_matter.Storage.Utf8.{
  lead, continuation_bytes, refused_codepoint, after_sequence, after_lead, valid_from, valid_utf8,
}

-- The UTF-8 encoding of a code point, from the standard.
unfoldable pub utf8_of : ℕ → Bytes
utf8_of c =
    if ltb c 0x80
    then c ∷ []
    else if ltb c 0x800
    then (192 + c / 64) ∷ (128 + c % 64) ∷ []
    else if ltb c 0x10000
    then (224 + c / 4096) ∷ (128 + c / 64 % 64) ∷ (128 + c % 64) ∷ []
    else (240 + c / 262144) ∷ (128 + c / 4096 % 64) ∷ (128 + c / 64 % 64) ∷ (128 + c % 64) ∷ []

-- A scalar value other than zero: in range, and no surrogate.
abbrev pub IsScalar : ℕ → Type 0
IsScalar c = (1 ≤ c) × (c ≤ 0x10FFFF) × ((c < 0xD800) ⊎ (0xDFFF < c))

abbrev pub utf8_text : List ℕ → Bytes
utf8_text [] = []
utf8_text (c ∷ cs) = utf8_of c ++ utf8_text cs

-- One round of the loop over the encoding of a scalar value.
module _ (c fuel : ℕ) (rest : Bytes) where
  round_one : 1 ≤ c → c < 0x80 → valid_from (suc fuel) (utf8_of c ++ rest) ≡ valid_from fuel rest
  unfolding valid_from utf8_of
  round_one h k = ground arith

  round_two :
      0x80 ≤ c → c < 0x800 → valid_from (suc fuel) (utf8_of c ++ rest) ≡ valid_from fuel rest
  unfolding valid_from utf8_of lead after_lead continuation_bytes after_sequence refused_codepoint
  round_two h k = ground arith

  round_three :
      0x800 ≤ c
      → c < 0x10000
      → (c < 0xD800) ⊎ (0xDFFF < c)
      → valid_from (suc fuel) (utf8_of c ++ rest) ≡ valid_from fuel rest
  unfolding valid_from utf8_of lead after_lead continuation_bytes after_sequence refused_codepoint
  round_three h k s = ground arith

  round_four :
      0x10000 ≤ c → c ≤ 0x10FFFF → valid_from (suc fuel) (utf8_of c ++ rest) ≡ valid_from fuel rest
  unfolding valid_from utf8_of lead after_lead continuation_bytes after_sequence refused_codepoint
  round_four h k = ground arith

  round : IsScalar c → valid_from (suc fuel) (utf8_of c ++ rest) ≡ valid_from fuel rest
  round h = ground (arith, round_one, round_two, round_three, round_four)

length-utf8_of_pos : (c : ℕ) → 1 ≤ length (utf8_of c)
unfolding utf8_of
length-utf8_of_pos c = ground arith

valid_from-utf8_text :
    (fuel : ℕ) (cs : List ℕ)
    → All IsScalar cs
    → length (utf8_text cs) ≤ fuel
    → valid_from fuel (utf8_text cs) ≡ true
unfolding valid_from
valid_from-utf8_text zero [] h k = refl
valid_from-utf8_text (suc fuel) [] h k = refl
valid_from-utf8_text zero (c ∷ cs) h k =
    absurd (omega (arith, length-append (utf8_of c) (utf8_text cs), length-utf8_of_pos c))
valid_from-utf8_text (suc fuel) (c ∷ cs) h k =
    round c fuel (utf8_text cs) h.0
    ∙ valid_from-utf8_text fuel cs h.1
        (omega (arith, length-append (utf8_of c) (utf8_text cs), length-utf8_of_pos c))

-- One continuation byte of a sequence that was read.
continuation_step :
    (count codepoint : ℕ) (text : Bytes) (v : ℕ) (rest : Bytes)
    → continuation_bytes (suc count) codepoint text ≡ some (v, rest)
    → (byte : ℕ) × (more : Bytes) × (text ≡ byte ∷ more)
      × (byte / 64 ≡ 2)
      × (continuation_bytes count (codepoint * 64 + byte % 64) more ≡ some (v, rest))
unfolding continuation_bytes
continuation_step count codepoint [] v rest e = cc e
continuation_step count codepoint (byte ∷ more) v rest e =
    (byte, more, refl, ground arith, ground arith)

continuation_end :
    (codepoint : ℕ) (text : Bytes) (v : ℕ) (rest : Bytes)
    → continuation_bytes 0 codepoint text ≡ some (v, rest)
    → (codepoint ≡ v) × (text ≡ rest)
unfolding continuation_bytes
continuation_end codepoint text v rest e = (cc e, cc e)

-- A text that starts with a scalar value.
abbrev Starts : Bytes → Bytes → Type 0
Starts text rest = (c : ℕ) × IsScalar c × (text ≡ utf8_of c ++ rest)

-- The sequence of a lead byte, with its continuation bytes.
module _ (first v : ℕ) (text rest : Bytes) where
  Starts-two :
      0xC2 ≤ first
      → first ≤ 0xDF
      → continuation_bytes 1 (first % 32) text ≡ some (v, rest)
      → refused_codepoint 1 v ≡ false
      → Starts (first ∷ text) rest
  unfolding utf8_of refused_codepoint
  Starts-two h k e ok =
      let (b, more, same, mark, e') = continuation_step 0 (first % 32) text v rest e in
      let (value, tail) = continuation_end (first % 32 * 64 + b % 64) more v rest e' in
      (v, (omega arith, omega arith, inl (omega arith)), rw (same, tail) (ground arith))

  Starts-three :
      0xE0 ≤ first
      → first ≤ 0xEF
      → continuation_bytes 2 (first % 16) text ≡ some (v, rest)
      → refused_codepoint 2 v ≡ false
      → Starts (first ∷ text) rest
  unfolding utf8_of refused_codepoint
  Starts-three h k e ok =
      let (b, more, same, mark, e') = continuation_step 1 (first % 16) text v rest e in
      let (b2, more2, same2, mark2, e2) =
        continuation_step 0 (first % 16 * 64 + b % 64) more v rest e' in
      let (value, tail) =
        continuation_end ((first % 16 * 64 + b % 64) * 64 + b2 % 64) more2 v rest e2 in
      (v, (ground arith, omega arith, ground arith), rw (same, same2, tail) (ground arith))

  Starts-four :
      0xF0 ≤ first
      → first ≤ 0xF4
      → continuation_bytes 3 (first % 8) text ≡ some (v, rest)
      → refused_codepoint 3 v ≡ false
      → Starts (first ∷ text) rest
  unfolding utf8_of refused_codepoint
  Starts-four h k e ok =
      let (b, more, same, mark, e') = continuation_step 2 (first % 8) text v rest e in
      let (b2, more2, same2, mark2, e2) =
        continuation_step 1 (first % 8 * 64 + b % 64) more v rest e' in
      let (b3, more3, same3, mark3, e3) =
        continuation_step 0 ((first % 8 * 64 + b % 64) * 64 + b2 % 64) more2 v rest e2 in
      let (value, tail) =
        continuation_end (((first % 8 * 64 + b % 64) * 64 + b2 % 64) * 64 + b3 % 64) more3 v rest
          e3 in
      (v, (ground arith, ground arith, ground arith), rw (same, same2, same3, tail) (ground arith))

abbrev Reads : (Bytes → Bool) → Bytes → Type 0
Reads more text = (rest : Bytes) × Starts text rest × (more rest ≡ true)

after_sequence-true :
    (more : Bytes → Bool) (count : ℕ) (o : Option (ℕ × Bytes))
    → after_sequence more count o ≡ true
    → (v : ℕ) × (rest : Bytes) × (o ≡ some (v, rest))
      × (refused_codepoint count v ≡ false)
      × (more rest ≡ true)
unfolding after_sequence
after_sequence-true more count none e = cc e
after_sequence-true more count (some (v, rest)) e = (v, rest, refl, ground arith, ground arith)

after_lead-Reads :
    (more : Bytes → Bool) (first : ℕ) (text : Bytes)
    → after_lead more (lead first) text ≡ true
    → Reads more (first ∷ text)
unfolding lead after_lead
after_lead-Reads more first text =
    if_cases (λ (o : Option (ℕ × ℕ)). after_lead more o text ≡ true → Reads more (first ∷ text))
      (leb 0xC2 first && leb first 0xDF)
      (λ t e.
        let (v, rest, o, ok, m) = after_sequence-true more 1 _ e in
        (rest, Starts-two first v text rest (ground arith) (ground arith) o ok, m))
      λ _.
        if_cases (λ (o : Option (ℕ × ℕ)). after_lead more o text ≡ true → Reads more (first ∷ text))
          (leb 0xE0 first && leb first 0xEF)
          (λ t e.
            let (v, rest, o, ok, m) = after_sequence-true more 2 _ e in
            (rest, Starts-three first v text rest (ground arith) (ground arith) o ok, m))
          λ _.
            if_cases
              (λ (o : Option (ℕ × ℕ)). after_lead more o text ≡ true → Reads more (first ∷ text))
              (leb 0xF0 first && leb first 0xF4)
              (λ t e.
                let (v, rest, o, ok, m) = after_sequence-true more 3 _ e in
                (rest, Starts-four first v text rest (ground arith) (ground arith) o ok, m))
              λ _ e. cc e

valid_from-Reads :
    (fuel first : ℕ) (text : Bytes)
    → valid_from (suc fuel) (first ∷ text) ≡ true
    → Reads (valid_from fuel) (first ∷ text)
unfolding valid_from utf8_of
valid_from-Reads fuel first text =
    if_cases (λ (b : Bool). b ≡ true → Reads (valid_from fuel) (first ∷ text)) (first == 0)
      (λ _ e. cc e)
      λ pos.
        if_cases (λ (b : Bool). b ≡ true → Reads (valid_from fuel) (first ∷ text)) (leb first 0x7F)
          (λ ascii e.
            (text, (first, (ground arith, ground arith, inl (ground arith)), ground arith), e))
          λ _. after_lead-Reads (valid_from fuel) first text

valid_from_sound :
    (fuel : ℕ) (text : Bytes)
    → valid_from fuel text ≡ true
    → (cs : List ℕ) × All IsScalar cs × (text ≡ utf8_text cs)
unfolding valid_from
valid_from_sound zero [] e = ([], tt, refl)
valid_from_sound zero (first ∷ text) e = cc e
valid_from_sound (suc fuel) [] e = ([], tt, refl)
valid_from_sound (suc fuel) (first ∷ text) e =
    let (rest, (c, scalar, same), more) = valid_from-Reads fuel first text e in
    let (cs, scalars, others) = valid_from_sound fuel rest more in
    (c ∷ cs, (scalar, scalars), same ∙ ap (λ r. utf8_of c ++ r) others)

-- A text is valid exactly when it is the UTF-8 encoding of a sequence of Unicode scalar values other than
-- zero: overlong forms, surrogates, truncated sequences and values above 0x10FFFF are refused, and
-- nothing else is.
pub valid_utf8_iff :
    (text : Bytes)
    → (valid_utf8 text ≡ true) ↔ ((cs : List ℕ) × All IsScalar cs × (text ≡ utf8_text cs))
unfolding valid_utf8
valid_utf8_iff text = (
  valid_from_sound (length text) text,
  λ (cs, scalars, same).
      subst (λ t. valid_from (length t) t ≡ true) (sym same)
        (valid_from-utf8_text (length (utf8_text cs)) cs scalars (omega arith)),
)
