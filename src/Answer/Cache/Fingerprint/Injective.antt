-- ===== src/Answer/Cache/Fingerprint/Injective.antt =====
-- What a fingerprint of the answer cache tells of the values that it was made from.
use raglibrarian.Base.{
  append_assoc, ℕ, zero, suc, ◌+◌, ◌-◌, ◌*◌, ◌/◌, ◌%◌, ◌≤◌, ◌<◌, ◌≡◌, refl, sym, ap, ◌∙◌, Bool,
  true, false, List, [], ◌∷◌, ◌++◌, inl, inr, arith, if◌then◌else◌, ltb, ◌==◌, is_empty, Text,
  byte_len, rune_width, Bool-cases,
}
use raglibrarian.Answer.Output.{digits}
use raglibrarian.Answer.Cache.Fingerprint.{itoa, field_frame, field_frames}

-- The number that decimal digits behind others spell.
unfoldable read_decimal : ℕ → Text → ℕ
read_decimal n [] = n
read_decimal n (c ∷ s) = read_decimal (10 * n + (c - 0x30)) s

read_decimal-append :
    (n c : ℕ) (s : Text) → read_decimal n (s ++ (c ∷ [])) ≡ 10 * read_decimal n s + (c - 0x30)
unfolding read_decimal
read_decimal-append n c [] = refl
read_decimal-append n c (d ∷ s) = read_decimal-append (10 * n + (d - 0x30)) c s

read_decimal-digits : (fuel n : ℕ) → n < fuel → read_decimal 0 (digits fuel n) ≡ n
unfolding digits read_decimal
read_decimal-digits zero n h = omega arith
read_decimal-digits (suc fuel) n h = elim (Bool-cases (ltb n 10)) [
  | inl small ↦ rw small (ground arith)
  | inr large ↦
      rw
        (
          large,
          read_decimal-append 0 (0x30 + n % 10) (digits fuel (n / 10)),
          read_decimal-digits fuel (n / 10) (ground arith),
        )
        (omega arith)
]

pub itoa-injective : (m n : ℕ) → itoa m ≡ itoa n → m ≡ n
unfolding itoa
itoa-injective m n h =
    sym (read_decimal-digits (suc m) m (omega arith))
    ∙ ap (read_decimal 0) h
    ∙ read_decimal-digits (suc n) n (omega arith)

-- The characters up to the first colon.
unfoldable before_colon : Text → Text
before_colon [] = []
before_colon (c ∷ s) = let rest = before_colon s in if c == b':' then [] else c ∷ rest

unfoldable after_colon : Text → Text
after_colon [] = []
after_colon (c ∷ s) = let rest = after_colon s in if c == b':' then s else rest

unfoldable no_colon : Text → Bool
no_colon [] = true
no_colon (c ∷ s) = let rest = no_colon s in if c == b':' then false else rest

no_colon-append : (s t : Text) → no_colon s ≡ true → no_colon t ≡ true → no_colon (s ++ t) ≡ true
unfolding no_colon
no_colon-append [] t h k = k
no_colon-append (c ∷ s) t h k = ground (arith, no_colon-append s t)

no_colon-digits : (fuel n : ℕ) → no_colon (digits fuel n) ≡ true
unfolding digits no_colon
no_colon-digits zero n = refl
no_colon-digits (suc fuel) n = elim (Bool-cases (ltb n 10)) [
  | inl small ↦ rw small (ground arith)
  | inr large ↦ rw large (
      no_colon-append (digits fuel (n / 10)) ((0x30 + n % 10) ∷ []) (no_colon-digits fuel (n / 10))
        (ground arith))
]

no_colon-itoa : (n : ℕ) → no_colon (itoa n) ≡ true
unfolding itoa
no_colon-itoa n = no_colon-digits (suc n) n

before_colon-append : (s t : Text) → no_colon s ≡ true → before_colon (s ++ (b':' ∷ t)) ≡ s
unfolding before_colon no_colon
before_colon-append [] t h = refl
before_colon-append (c ∷ s) t h = ground (arith, before_colon-append s t)

after_colon-append : (s t : Text) → no_colon s ≡ true → after_colon (s ++ (b':' ∷ t)) ≡ t
unfolding after_colon no_colon
after_colon-append [] t h = refl
after_colon-append (c ∷ s) t h = ground (arith, after_colon-append s t)

rune_width-pos : (c : ℕ) → 1 ≤ rune_width c
unfolding rune_width
rune_width-pos c = ground arith

-- Of two strings with as many bytes, before which nothing differs, neither is longer.
split_bytes : (s t u v : Text) → byte_len s ≡ byte_len t → s ++ u ≡ t ++ v → (s ≡ t) × (u ≡ v)
unfolding byte_len
split_bytes [] [] u v h k = (refl, k)
split_bytes [] (b ∷ t) u v h k = absurd (omega (arith, rune_width-pos b))
split_bytes (a ∷ s) [] u v h k = absurd (omega (arith, rune_width-pos a))
split_bytes (a ∷ s) (b ∷ t) u v h k =
    let same : a ≡ b = cc in
    let rest : s ++ u ≡ t ++ v = cc in
    let widths : rune_width a ≡ rune_width b = ap rune_width same in
    let (text, behind) = split_bytes s t u v (omega arith) rest in (cc, behind)

pub field_frame-split :
    (s t u v : Text) → field_frame s ++ u ≡ field_frame t ++ v → (s ≡ t) × (u ≡ v)
unfolding field_frame
field_frame-split s t u v h =
    let left = append_assoc (itoa (byte_len s)) (b':' ∷ s) u in
    let right = append_assoc (itoa (byte_len t)) (b':' ∷ t) v in
    let whole = sym left ∙ h ∙ right in
    let plain_s = no_colon-itoa (byte_len s) in
    let plain_t = no_colon-itoa (byte_len t) in
    let lengths =
      sym (before_colon-append (itoa (byte_len s)) (s ++ u) plain_s)
      ∙ ap before_colon whole
      ∙ before_colon-append (itoa (byte_len t)) (t ++ v) plain_t in
    let texts =
      sym (after_colon-append (itoa (byte_len s)) (s ++ u) plain_s)
      ∙ ap after_colon whole
      ∙ after_colon-append (itoa (byte_len t)) (t ++ v) plain_t in
    split_bytes s t u v (itoa-injective (byte_len s) (byte_len t) lengths) texts

is_empty-append : (s t : Text) (c : ℕ) → is_empty (s ++ (c ∷ t)) ≡ false
is_empty-append [] t c = refl
is_empty-append (d ∷ s) t c = refl

is_empty-field_frame : (s t : Text) → is_empty (field_frame s ++ t) ≡ false
unfolding field_frame
is_empty-field_frame s t =
    rw (append_assoc (itoa (byte_len s)) (b':' ∷ s) t)
      (is_empty-append (itoa (byte_len s)) (s ++ t) b':')

-- The fields can be read back from what is written of them.
pub field_frames-injective : (xs ys : List Text) → field_frames xs ≡ field_frames ys → xs ≡ ys
unfolding field_frames
field_frames-injective [] [] h = refl
field_frames-injective [] (y ∷ ys) h =
    absurd (ground (arith, ap is_empty h, is_empty-field_frame y (field_frames ys)))
field_frames-injective (x ∷ xs) [] h =
    absurd (ground (arith, ap is_empty h, is_empty-field_frame x (field_frames xs)))
field_frames-injective (x ∷ xs) (y ∷ ys) h =
    let (same, rest) = field_frame-split x y (field_frames xs) (field_frames ys) h in
    let later = field_frames-injective xs ys rest in cc
