-- ===== src/Answer/Output/Grounded.antt =====
-- What the segments that are accepted rest on.
use raglibrarian.Base.{
  ℕ, zero, suc, ◌+◌, ◌/◌, ◌%◌, ◌≤◌, ◌≡◌, inl, inr, refl, Bool, true, false, not, ◌&&◌, List, [],
  ◌∷◌, ◌++◌, some, map, leb, ltb, ◌==◌, if◌then◌else◌, arith, length, is_empty, all, All,
  Bool-cases, Option-cases, Text, literal, text_eq, text_eq→eq, text_eq_comm, byte_len, trim_space,
  is_space, member, distinct, join, if-both,
}
use raglibrarian.Answer.Evidence.{ContextEvidence, Limits}
use raglibrarian.Answer.Output.{
  AnswerSegment, is_control, digits, decimal, page_range, add_part, split_parts, fields_func,
  human_separator, human_field, unsafe_answer_rune, find_evidence, introduction, labelled,
  grounded_segment_text, valid_citations, safe_text, validate_from, validate_segments,
}

all-append {ℓ} :
    {A : Type ℓ} (p : A → Bool) (xs ys : List A) → all p (xs ++ ys) ≡ (all p xs && all p ys)
all-append p [] ys = refl
all-append p (x ∷ xs) ys = ground (arith, all-append p xs ys)

abbrev pub printable : ℕ → Bool
printable c = leb 0x20 c && ltb c 0x7f

digits-printable : (fuel n : ℕ) → all printable (digits fuel n) ≡ true
unfolding digits
digits-printable zero n = refl
digits-printable (suc fuel) n =
    rw (all-append printable (if ltb n 10 then [] else digits fuel (n / 10)) ((0x30 + n % 10) ∷ []))
      (ground (arith, digits-printable fuel (n / 10)))

page_range-printable : (start end : ℕ) → all printable (page_range start end) ≡ true
unfolding page_range decimal
page_range-printable start end = ground (
  arith,
  digits-printable 10 start,
  digits-printable 10 end,
  all-append printable (literal "page ") (digits 10 start),
  all-append printable (literal "pages ") (digits 10 start),
  all-append printable (literal "pages " ++ digits 10 start) (literal "-"),
  all-append printable (literal "pages " ++ digits 10 start ++ literal "-") (digits 10 end),
)

-- No rune of the category Cf is in ASCII.
module _ (is_format : ℕ → Bool)
    (no_ascii : (c : ℕ) → printable c ≡ true → is_format c ≡ false) where
  abbrev safe : ℕ → Bool
  safe c = not (unsafe_answer_rune is_format c)

  printable-safe : (s : Text) → all printable s ≡ true → all safe s ≡ true
  unfolding unsafe_answer_rune is_control
  printable-safe [] h = refl
  printable-safe (c ∷ s) h = ground (arith, no_ascii c, printable-safe s)

  separator_safe : (c : ℕ) → human_separator is_format c ≡ false → safe c ≡ true
  unfolding human_separator unsafe_answer_rune is_space
  separator_safe c h = ground arith

  add_part-safe :
      (part : Text) (parts : List Text)
      → all safe part ≡ true
      → All (λ part. all safe part ≡ true) parts
      → All (λ part. all safe part ≡ true) (add_part part parts)
  unfolding add_part
  add_part-safe [] parts h k = k
  add_part-safe (c ∷ part) parts h k = (h, k)

  split_safe :
      (s : Text)
      → (all safe (split_parts (human_separator is_format) s).0 ≡ true)
        × All (λ part. all safe part ≡ true) (split_parts (human_separator is_format) s).1
  unfolding split_parts
  split_safe [] = (refl, tt)
  split_safe (c ∷ s) =
      let (part, parts) = split_safe s in
      elim (Bool-cases (human_separator is_format c)) [
        | inl e ↦ rw e (refl, add_part-safe _ _ part parts)
        | inr e ↦ rw e (ground (arith, separator_safe c e, part), parts)
      ]

  join-safe :
      (parts : List Text)
      → All (λ part. all safe part ≡ true) parts
      → all safe (join parts (0x20 ∷ [])) ≡ true
  unfolding join
  join-safe [] h = refl
  join-safe (s ∷ []) h = h.0
  join-safe (s ∷ t ∷ ts) h =
      rw
        (
          all-append safe (s ++ (0x20 ∷ [])) (join (t ∷ ts) (0x20 ∷ [])),
          all-append safe s (0x20 ∷ []),
        )
        (ground (arith, h.0, printable-safe (0x20 ∷ []), join-safe (t ∷ ts) h.1))

  human_field-safe : (value : Text) → all safe (human_field is_format value) ≡ true
  unfolding human_field fields_func
  human_field-safe value =
      let (part, parts) = split_safe value in join-safe _ (add_part-safe _ _ part parts)

  append-safe : (s t : Text) → all safe s ≡ true → all safe t ≡ true → all safe (s ++ t) ≡ true
  append-safe s t h k = ground (arith, all-append safe s t)

  labelled-safe :
      (label s : Text)
      → all safe label ≡ true
      → all safe s ≡ true
      → all safe (labelled label s) ≡ true
  labelled-safe label s h k =
      if-both (λ t. all safe t ≡ true) (is_empty s) [] (label ++ s) (λ e. refl)
        (append-safe label s h k)

  introduction-safe : (e : ContextEvidence) → all safe (introduction is_format e) ≡ true
  unfolding introduction
  introduction-safe e =
      let pages =
        printable-safe (page_range e.page_start e.page_end)
          (page_range-printable e.page_start e.page_end) in
      let by =
        labelled-safe (literal " by ") (human_field is_format e.author)
          (printable-safe (literal " by ") refl) (human_field-safe e.author) in
      let comma =
        labelled-safe (literal ", ") (page_range e.page_start e.page_end)
          (printable-safe (literal ", ") refl) pages in
      let title =
        append-safe (literal "This is described in ") (human_field is_format e.title)
          (printable-safe (literal "This is described in ") refl) (human_field-safe e.title) in
      let begun = literal "This is described in " ++ human_field is_format e.title in
      let named = begun ++ labelled (literal " by ") (human_field is_format e.author) in
      let placed = named ++ labelled (literal ", ") (page_range e.page_start e.page_end) in
      let whole =
        append-safe placed (literal ": ")
          (append-safe named (labelled (literal ", ") (page_range e.page_start e.page_end))
            (append-safe begun (labelled (literal " by ") (human_field is_format e.author)) title
              by)
            comma)
          (printable-safe (literal ": ") refl) in
      if-both (λ t. all safe t ≡ true) (is_empty (human_field is_format e.title)) []
        (placed ++ literal ": ") (λ e. refl) whole

  abbrev ids_of : List ContextEvidence → List Text
  ids_of evidence = map (λ e. e.evidence_id) evidence

  -- No identifier of a list is among those seen, with one more or without it.
  fresh-member :
      (id : Text) (seen ids : List Text)
      → all (λ x. not (member x (id ∷ seen))) ids ≡ true
      → (member id ids ≡ false) × (all (λ x. not (member x seen)) ids ≡ true)
  unfolding member
  fresh-member id seen [] h = (refl, refl)
  fresh-member id seen (x ∷ ids) h =
      let (new, old) = fresh-member id seen ids (ground arith) in
      (ground (arith, text_eq_comm id x, new), ground (arith, old))

  valid_citations_lem :
      (allowed seen ids : List Text)
      → valid_citations is_format allowed seen ids ≡ true
      → (all (λ id. member id allowed) ids ≡ true)
        × (distinct ids ≡ true)
        × (all (λ x. not (member x seen)) ids ≡ true)
  unfolding valid_citations distinct
  valid_citations_lem allowed seen [] h = (refl, refl, refl)
  valid_citations_lem allowed seen (id ∷ ids) h =
      let (known, once, fresh) = valid_citations_lem allowed (id ∷ seen) ids (ground arith) in
      let (new, old) = fresh-member id seen ids fresh in
      (ground (arith, known), ground (arith, once, new), ground (arith, old))

  find_evidence-known :
      (id : Text) (evidence : List ContextEvidence)
      → member id (ids_of evidence) ≡ true
      → (e : ContextEvidence) × (find_evidence is_format id evidence ≡ some e)
        × (e.evidence_id ≡ id)
  unfolding member find_evidence
  find_evidence-known id [] h = absurd (ground arith)
  find_evidence-known id (e ∷ es) h = elim (Bool-cases (text_eq e.evidence_id id)) [
    | inl same ↦ (e, rw same refl, text_eq→eq e.evidence_id id same)
    | inr other ↦
        let (d, found, named) =
          find_evidence-known id es (ground (arith, text_eq_comm id e.evidence_id, other)) in
        (d, rw other found, named)
  ]

  -- The text is that of the generator behind an introduction of the evidence cited first.
  pub record IsIntroduced (evidence : List ContextEvidence) (id text grounded : Text) : Type 0 where
    pub cited : ContextEvidence
    pub found : find_evidence is_format id evidence ≡ some cited
    pub named : cited.evidence_id ≡ id
    pub introduced : grounded ≡ introduction is_format cited ++ trim_space text

  abbrev pub FirstIntroduced : List ContextEvidence → List Text → Text → Text → Type 0
  FirstIntroduced evidence [] text grounded = ⊥
  FirstIntroduced evidence (id ∷ ids) text grounded = IsIntroduced evidence id text grounded

  -- How an accepted segment came from a segment of the generator.
  pub record IsGrounded (evidence : List ContextEvidence) (limits : Limits)
      (value result : AnswerSegment) : Type 0 where
    pub same_citations : result.evidence_ids ≡ value.evidence_ids
    pub few : length result.evidence_ids ≤ limits.maximum_citations
    pub known : all (λ id. member id (map (λ e. e.evidence_id) evidence)) result.evidence_ids ≡ true
    pub once : distinct result.evidence_ids ≡ true
    pub source : FirstIntroduced evidence result.evidence_ids value.text result.text
    pub filled : is_empty (trim_space value.text) ≡ false
    pub printed : all safe result.text ≡ true

  abbrev pub AllGrounded :
      List ContextEvidence → Limits → List AnswerSegment → List AnswerSegment → Type 0
  AllGrounded evidence limits [] [] = Unit
  AllGrounded evidence limits (v ∷ vs) (r ∷ rs) =
      IsGrounded evidence limits v r × AllGrounded evidence limits vs rs
  AllGrounded evidence limits _ _ = ⊥

  unfoldable pub answer_bytes : List AnswerSegment → ℕ
  answer_bytes [] = 0
  answer_bytes (r ∷ rs) = byte_len r.text + answer_bytes rs

  safe_text-safe :
      (text : Text)
      → safe_text is_format text ≡ true
      → (is_empty text ≡ false) × (all safe text ≡ true)
  unfolding safe_text
  safe_text-safe text h = (ground arith, kept text (ground arith))
    where
      kept : (s : Text) → all (λ c. not (c == 0xfffd) && safe c) s ≡ true → all safe s ≡ true
      kept [] k = refl
      kept (c ∷ s) k = ground (arith, kept s)

  module _ (evidence : List ContextEvidence) (limits : Limits) where
    grounded_segment_text_lem :
        (id text : Text) (ids : List Text) (e : ContextEvidence)
        → find_evidence is_format id evidence ≡ some e
        → grounded_segment_text is_format text (id ∷ ids) evidence
          ≡ introduction is_format e ++ text
    unfolding grounded_segment_text
    grounded_segment_text_lem id text ids e h = rw (grounded_segment_text, h) refl

    introduced-safe :
        (ids : List Text) (text : Text)
        → is_empty ids ≡ false
        → all (λ id. member id (ids_of evidence)) ids ≡ true
        → all safe (trim_space text) ≡ true
        → FirstIntroduced evidence ids text
            (grounded_segment_text is_format (trim_space text) ids evidence)
          × (all safe (grounded_segment_text is_format (trim_space text) ids evidence) ≡ true)
    unfolding grounded_segment_text
    introduced-safe [] text h k s = absurd (ground arith)
    introduced-safe (id ∷ ids) text h k s =
        let (e, found, named) = find_evidence-known id evidence (ground (arith, k)) in
        let same : grounded_segment_text is_format (trim_space text) (id ∷ ids) evidence
            ≡ introduction is_format e ++ trim_space text =
          grounded_segment_text_lem id (trim_space text) ids e found in
        (
          record { cited = e; found = found; named = named; introduced = same },
          rw same
              (append-safe (introduction is_format e) (trim_space text) (introduction-safe e) s),
        )

    grounded_of : AnswerSegment → AnswerSegment
    grounded_of v = record {
      text = grounded_segment_text is_format (trim_space v.text) v.evidence_ids evidence;
      evidence_ids = v.evidence_ids;
    }

    grounded_of-IsGrounded :
        (v : AnswerSegment)
        → safe_text is_format (trim_space v.text) ≡ true
        → is_empty v.evidence_ids ≡ false
        → ltb limits.maximum_citations (length v.evidence_ids) ≡ false
        → valid_citations is_format (ids_of evidence) [] v.evidence_ids ≡ true
        → IsGrounded evidence limits v (grounded_of v)
    unfolding grounded_of
    grounded_of-IsGrounded v t i m c =
        let (filled, printed) = safe_text-safe (trim_space v.text) t in
        let (known, once, fresh) = valid_citations_lem (ids_of evidence) [] v.evidence_ids c in
        let (source, safe_all) = introduced-safe v.evidence_ids v.text i known printed in
        record {
          same_citations = refl;
          few = ground arith;
          known = known;
          once = once;
          source = source;
          filled = filled;
          printed = safe_all;
        }

    -- The segment that is taken, and the rest of the loop behind it.
    validate_step :
        (total : ℕ) (v : AnswerSegment) (vs result : List AnswerSegment)
        → validate_from is_format evidence limits total (v ∷ vs) ≡ some result
        → (rest : List AnswerSegment) × (result ≡ grounded_of v ∷ rest)
          × (validate_from is_format evidence limits (total + byte_len (grounded_of v).text) vs
              ≡ some rest)
          × IsGrounded evidence limits v (grounded_of v)
          × (total + byte_len (grounded_of v).text ≤ limits.maximum_answer_bytes)
    unfolding validate_from grounded_of
    validate_step total v vs result h =
        elim (Option-cases
          (validate_from is_format evidence limits (total + byte_len (grounded_of v).text) vs)) [
            | inl e ↦ absurd (ground arith)
            | inr (rest, e) ↦ (
              rest,
              ground arith,
              e,
              grounded_of-IsGrounded v (ground arith) (ground arith) (ground arith) (ground arith),
              ground arith,
            )
          ]

    validate_from-AllGrounded :
        (total : ℕ) (values result : List AnswerSegment)
        → total ≤ limits.maximum_answer_bytes
        → validate_from is_format evidence limits total values ≡ some result
        → AllGrounded evidence limits values result
          × (total + answer_bytes result ≤ limits.maximum_answer_bytes)
    unfolding validate_from answer_bytes
    validate_from-AllGrounded total [] [] b h = (tt, omega arith)
    validate_from-AllGrounded total [] (r ∷ rs) b h = absurd (ground arith)
    validate_from-AllGrounded total (v ∷ vs) result b h =
        let (rest, same, e, sound, within) = validate_step total v vs result h in
        let (sounds, few) =
          validate_from-AllGrounded (total + byte_len (grounded_of v).text) vs rest within e in
        rw same ((sound, sounds), omega (arith, few))

    -- When no rune of ASCII has the category Cf: segments that are accepted are at least one and no more than the limit, each cites known
    -- evidence, no piece twice and no more than the limit, has the text of the generator behind an introduction of
    -- the evidence that it cites first, holds no control or format rune, and together they have at most the
    -- limit of bytes.
    pub validate_segments-AllGrounded :
        (values result : List AnswerSegment)
        → validate_segments is_format values evidence limits ≡ some result
        → AllGrounded evidence limits values result
          × (answer_bytes result ≤ limits.maximum_answer_bytes)
          × (1 ≤ length values)
          × (length values ≤ limits.maximum_segments)
    unfolding validate_segments
    validate_segments-AllGrounded values result h =
        let (sound, few) = validate_from-AllGrounded 0 values result (omega arith) (ground arith) in
        (sound, omega (arith, few), ground arith, ground arith)
