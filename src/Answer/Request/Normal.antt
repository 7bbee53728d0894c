-- ===== src/Answer/Request/Normal.antt =====
-- What a request is once it has passed the validation.
use raglibrarian.Base.{
  some-injective, ℕ, ◌≤◌, ◌≡◌, refl, sym, ap, subst, ◌∙◌, Bool, true, false, not, ◌&&◌, List, [],
  ◌∷◌, some, arith, inl, inr, length, is_empty, Text, trim_space, trim_left, trim_right, is_space,
  valid_string, Bool-cases, Option-cases, Result, ok, ℤ,
}
use raglibrarian.Answer.Request.{
  RequestPolicy, SearchRequest, RequestError, can_answer, valid_request_policy, fits, bad_years,
  normal_tags, bad_fields, normalized, normalize_and_validate,
}

length-trim_left : (s : Text) → length (trim_left s) ≤ length s
unfolding trim_left
length-trim_left [] = omega arith
length-trim_left (c ∷ s) = ground (arith, length-trim_left s)

length-trim_right : (s : Text) → length (trim_right s) ≤ length s
unfolding trim_right
length-trim_right [] = omega arith
length-trim_right (c ∷ s) = ground (arith, length-trim_right s)

valid-trim_left : (s : Text) → valid_string s ≡ true → valid_string (trim_left s) ≡ true
unfolding trim_left valid_string
valid-trim_left [] h = refl
valid-trim_left (c ∷ s) h = ground (arith, valid-trim_left s)

valid-trim_right : (s : Text) → valid_string s ≡ true → valid_string (trim_right s) ≡ true
unfolding trim_right valid_string
valid-trim_right [] h = refl
valid-trim_right (c ∷ s) h = ground (arith, valid-trim_right s)

-- A string that does not begin with white space.
unfoldable begins_well : Text → Bool
begins_well [] = true
begins_well (c ∷ s) = not (is_space c)

begins_well-trim_left : (s : Text) → begins_well (trim_left s) ≡ true
unfolding trim_left begins_well
begins_well-trim_left [] = refl
begins_well-trim_left (c ∷ s) = elim (Bool-cases (is_space c)) [
  | inl blank ↦ rw (trim_left, blank) (begins_well-trim_left s)
  | inr dark ↦ rw (trim_left, dark, begins_well, dark) refl
]

trim_left_done : (s : Text) → begins_well s ≡ true → trim_left s ≡ s
unfolding trim_left begins_well
trim_left_done [] h = refl
trim_left_done (c ∷ s) h = ground arith

begins_well-trim_right : (s : Text) → begins_well s ≡ true → begins_well (trim_right s) ≡ true
unfolding trim_right begins_well
begins_well-trim_right [] h = refl
begins_well-trim_right (c ∷ s) h = ground arith

trim_right_done : (s : Text) → trim_right (trim_right s) ≡ trim_right s
unfolding trim_right
trim_right_done [] = refl
trim_right_done (c ∷ s) = elim (Bool-cases (is_empty (trim_right s) && is_space c)) [
  | inl blank ↦ rw blank refl
  | inr dark ↦ rw (dark, trim_right, trim_right_done s, dark) refl
]

pub trim_space_done : (s : Text) → trim_space (trim_space s) ≡ trim_space s
unfolding trim_space
trim_space_done s =
    ap trim_right (
      trim_left_done (trim_right (trim_left s))
        (begins_well-trim_right (trim_left s) (begins_well-trim_left s)))
    ∙ trim_right_done (trim_left s)

-- A string that fits fits when it is trimmed.
fits-trim_space : (s : Text) (most : ℤ) → fits s most ≡ true → fits (trim_space s) most ≡ true
unfolding trim_space
fits-trim_space s most h = ground (
  arith,
  valid-trim_right (trim_left s),
  valid-trim_left s,
  length-trim_right (trim_left s),
  length-trim_left s,
)

pair_eq : {a b c d : Text} → a ≡ b → c ≡ d → ◌≡◌ {A = Text × Text} (a, c) (b, d)
pair_eq p q = cc

ok_eq : {a b : SearchRequest} → ◌≡◌ {A = Result RequestError SearchRequest} (ok a) (ok b) → a ≡ b
ok_eq h = cc

normal_tags-cons :
    (most : ℤ) (tag : Text) (tags normals : List Text)
    → fits tag most ≡ true
    → trim_space tag ≡ tag
    → is_empty tag ≡ false
    → normal_tags most tags ≡ some normals
    → normal_tags most (tag ∷ tags) ≡ some (tag ∷ normals)
unfolding normal_tags
normal_tags-cons most tag tags normals fitting done dark passed =
    rw (normal_tags, fitting, done, dark, passed) (ap (λ t. some (t ∷ normals)) done)

bad_fields-normalized :
    (policy : RequestPolicy) (r : SearchRequest) (tags : List Text)
    → bad_fields policy r ≡ false
    → length tags ≡ length r.filters.tags
    → bad_fields policy (normalized r tags) ≡ false
unfolding bad_fields normalized
bad_fields-normalized policy r tags h same = ground (
  arith,
  fits-trim_space r.question policy.maximum_question_characters,
  fits-trim_space r.filters.author policy.maximum_author_characters,
)

normalized_done :
    (r : SearchRequest) (tags : List Text) → normalized (normalized r tags) tags ≡ normalized r tags
unfolding normalized
normalized_done r tags =
    ap
      (λ (q : Text × Text). record r {
        question = q.0;
        filters = record r.filters { tags = tags; author = q.1 };
      })
      (pair_eq (trim_space_done r.question) (trim_space_done r.filters.author))

-- The tags of a request that has passed pass again, and are no more.
normal_tags_done :
    (most : ℤ) (tags normals : List Text)
    → normal_tags most tags ≡ some normals
    → (normal_tags most normals ≡ some normals) × (length normals ≡ length tags)
unfolding normal_tags
normal_tags_done most [] [] h = (refl, refl)
normal_tags_done most [] (n ∷ normals) h = absurd (ground arith)
normal_tags_done most (tag ∷ tags) normals h = elim (Option-cases (normal_tags most tags)) [
  | inl refused ↦ absurd (ground arith)
  | inr (rest, passed) ↦
      let fitting : fits tag most ≡ true = ground arith in
      let dark : is_empty (trim_space tag) ≡ false = ground arith in
      let start : normal_tags most (tag ∷ tags) ≡ some (trim_space tag ∷ rest) =
        rw (normal_tags, fitting, dark, passed) refl in
      let whole : normals ≡ trim_space tag ∷ rest =
        some-injective normals (trim_space tag ∷ rest) (sym h ∙ start) in
      let (again, many) = normal_tags_done most tags rest passed in
      let trimmed =
        normal_tags-cons most (trim_space tag) rest rest (fits-trim_space tag most fitting)
          (trim_space_done tag) dark again in
      (rw whole trimmed, rw whole (omega (arith, many)))
]

module _ (valid_score : ℕ → Bool) where
  -- The conditions of a request that passes, each once.
  passes :
      (policy : RequestPolicy) (r : SearchRequest) (tags : List Text)
      → can_answer r.actor ≡ true
      → valid_request_policy policy ≡ true
      → bad_fields policy r ≡ false
      → valid_score r.minimum_evidence_score ≡ true
      → bad_years r.filters ≡ false
      → is_empty (trim_space r.question) ≡ false
      → normal_tags policy.maximum_tag_characters r.filters.tags ≡ some tags
      → normalize_and_validate valid_score policy r ≡ ok (normalized r tags)
  unfolding normalize_and_validate
  passes policy r tags a b c d e f g = rw (normalize_and_validate, a, b, c, d, e, f, g) refl

  of_tags :
      (policy : RequestPolicy) (r n : SearchRequest) (tags : List Text)
      → normalize_and_validate valid_score policy r ≡ ok n
      → normal_tags policy.maximum_tag_characters r.filters.tags ≡ some tags
      → normalize_and_validate valid_score policy n ≡ ok n
  unfolding normalize_and_validate normalized bad_years
  of_tags policy r n tags h there =
      let a : can_answer r.actor ≡ true = ground arith in
      let b : valid_request_policy policy ≡ true = ground arith in
      let c : bad_fields policy r ≡ false = ground arith in
      let d : valid_score r.minimum_evidence_score ≡ true = ground arith in
      let e : bad_years r.filters ≡ false = ground arith in
      let f : is_empty (trim_space r.question) ≡ false = ground arith in
      let whole : n ≡ normalized r tags = ok_eq (sym h ∙ passes policy r tags a b c d e f there) in
      let (again, many) =
        normal_tags_done policy.maximum_tag_characters r.filters.tags tags there in
      subst (λ x. normalize_and_validate valid_score policy x ≡ ok x) (sym whole)
        (passes policy (normalized r tags) tags a b (bad_fields-normalized policy r tags c many) d e
            (ap is_empty (trim_space_done r.question) ∙ f) again
          ∙ ap ok (normalized_done r tags))

  -- Validation again leaves a validated request as it is.
  pub normalize_and_validate-again :
      (policy : RequestPolicy) (r n : SearchRequest)
      → normalize_and_validate valid_score policy r ≡ ok n
      → normalize_and_validate valid_score policy n ≡ ok n
  unfolding normalize_and_validate
  normalize_and_validate-again policy r n h =
      let passed = normal_tags policy.maximum_tag_characters r.filters.tags in
      elim (Option-cases passed) [
        | inl refused ↦ absurd (ground arith)
        | inr (tags, there) ↦ of_tags policy r n tags h there
      ]
