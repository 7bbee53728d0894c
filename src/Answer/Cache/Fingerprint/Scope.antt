-- ===== src/Answer/Cache/Fingerprint/Scope.antt =====
-- What equal fingerprints of the answer cache tell of the actors and the evidence that they were made
-- from: they are equal, or two strings have one hash.
use raglibrarian.Base.{
  append_assoc, append-nil, ◌≡◌, ◌≢◌, ◌⊎◌, refl, sym, ap, ◌∙◌, List, [], ◌∷◌, ◌++◌, inl, inr, arith,
  Text, text_eq, text_eq→eq, text_eq_refl, Bool-cases,
}
use raglibrarian.Answer.Evidence.{ContextEvidence}
use raglibrarian.Answer.Request.{Actor}
use raglibrarian.Answer.Cache.Fingerprint.{
  field_frames, projected_fields, fingerprint_fields, evidence_projection_fingerprint, quoted,
  quoted_evidence, evidence_fingerprint, auth_scope_fingerprint,
}
use raglibrarian.Answer.Cache.Fingerprint.Injective.{itoa-injective, field_frames-injective}

append_empty : (s t : Text) → s ++ t ≡ [] → s ≡ []
append_empty [] t h = refl
append_empty (c ∷ s) t h = cc

-- Two strings with one hash.
abbrev pub Collision : (Text → Text) → Type 0
Collision hash = (s : Text) × (t : Text) × (s ≢ t) × (hash s ≡ hash t)

module _ (hash : Text → Text) where
  hash-eq : (s t : Text) → hash s ≡ hash t → (s ≡ t) ⊎ Collision hash
  hash-eq s t h = elim (Bool-cases (text_eq s t)) [
    | inl same ↦ inl (text_eq→eq s t same)
    | inr other ↦ inr (s, t, λ e. ground (arith, ap (text_eq s) e, text_eq_refl s), h)
  ]

  pub fingerprint_fields-eq :
      (xs ys : List Text)
      → fingerprint_fields hash xs ≡ fingerprint_fields hash ys
      → (xs ≡ ys) ⊎ Collision hash
  unfolding fingerprint_fields
  fingerprint_fields-eq xs ys h = elim (hash-eq (field_frames xs) (field_frames ys) h) [
    | inl same ↦ inl (field_frames-injective xs ys same)
    | inr collision ↦ inr collision
  ]

  projected_fields-injective :
      (a b : ContextEvidence) → projected_fields a ≡ projected_fields b → a ≡ b
  unfolding projected_fields
  projected_fields-injective a b h =
      let starts = itoa-injective a.page_start b.page_start cc in
      let ends = itoa-injective a.page_end b.page_end cc in cc

  -- `%q` ends where its closing quote is.
  module _ (quote : Text → Text)
      (quote-split : (s t u v : Text) → quote s ++ u ≡ quote t ++ v → (s ≡ t) × (u ≡ v)) where
    quote_some : (s : Text) → ¬ (quote s ≡ [])
    quote_some s h =
        let equals : (t : Text) → s ≡ t = λ t.
          (quote-split s t (quote t) []
            (ap (λ q. q ++ quote t) h ∙ sym (append-nil (quote t)))).0 in
        let wrong : ◌≡◌ {A = Text} [] (0 ∷ []) = sym (equals []) ∙ equals (0 ∷ []) in cc

    quote_append-some : (s t : Text) → ¬ (quote s ++ t ≡ [])
    quote_append-some s t h = quote_some s (append_empty (quote s) t h)

    quoted-injective : (xs ys : List Text) → quoted hash quote xs ≡ quoted hash quote ys → xs ≡ ys
    unfolding quoted
    quoted-injective [] [] h = refl
    quoted-injective [] (y ∷ ys) h = absurd (quote_append-some y (quoted hash quote ys) (sym h))
    quoted-injective (x ∷ xs) [] h = absurd (quote_append-some x (quoted hash quote xs) h)
    quoted-injective (x ∷ xs) (y ∷ ys) h =
        let (same, rest) = quote-split x y (quoted hash quote xs) (quoted hash quote ys) h in
        let later = quoted-injective xs ys rest in cc

    -- A scope tells the actors apart.
    pub auth_scope_fingerprint-eq :
        (a b : Actor)
        → auth_scope_fingerprint hash quote a ≡ auth_scope_fingerprint hash quote b
        → (a ≡ b) ⊎ Collision hash
    unfolding auth_scope_fingerprint
    auth_scope_fingerprint-eq a b h = elim (hash-eq _ _ h) [
      | inl same ↦ inl (
          let fields =
            quoted-injective (a.user_id ∷ a.role ∷ a.status ∷ [])
              (b.user_id ∷ b.role ∷ b.status ∷ []) same in
          cc)
      | inr collision ↦ inr collision
    ]

    quoted_pair :
        (a : ContextEvidence) (t : Text)
        → quoted hash quote (a.evidence_id ∷ evidence_projection_fingerprint hash a ∷ []) ++ t
          ≡ quote a.evidence_id ++ (quote (evidence_projection_fingerprint hash a) ++ t)
    unfolding quoted
    quoted_pair a t =
        append_assoc (quote a.evidence_id) (quote (evidence_projection_fingerprint hash a) ++ []) t
        ∙ ap (λ q. quote a.evidence_id ++ (q ++ t))
            (append-nil (quote (evidence_projection_fingerprint hash a)))

    evidence_projection_fingerprint-eq :
        (a b : ContextEvidence)
        → evidence_projection_fingerprint hash a ≡ evidence_projection_fingerprint hash b
        → (a ≡ b) ⊎ Collision hash
    unfolding evidence_projection_fingerprint
    evidence_projection_fingerprint-eq a b h =
        elim (fingerprint_fields-eq (projected_fields a) (projected_fields b) h) [
          | inl same ↦ inl (projected_fields-injective a b same)
          | inr collision ↦ inr collision
        ]

    quoted_evidence-eq :
        (es fs : List ContextEvidence)
        → quoted_evidence hash quote es ≡ quoted_evidence hash quote fs
        → (es ≡ fs) ⊎ Collision hash
    unfolding quoted_evidence
    quoted_evidence-eq [] [] h = inl refl
    quoted_evidence-eq [] (b ∷ fs) h =
        absurd (quote_append-some b.evidence_id _ (sym (h ∙ quoted_pair b _)))
    quoted_evidence-eq (a ∷ es) [] h =
        absurd (quote_append-some a.evidence_id _ (sym (quoted_pair a _) ∙ h))
    quoted_evidence-eq (a ∷ es) (b ∷ fs) h =
        let whole = sym (quoted_pair a _) ∙ h ∙ quoted_pair b _ in
        let (id, behind) = quote-split a.evidence_id b.evidence_id _ _ whole in
        let (projection, rest) =
          quote-split (evidence_projection_fingerprint hash a)
            (evidence_projection_fingerprint hash b) _ _ behind in
        elim (evidence_projection_fingerprint-eq a b projection) [
          | inr collision ↦ inr collision
          | inl same ↦ elim (quoted_evidence-eq es fs rest) [
            | inr collision ↦ inr collision
            | inl later ↦ inl cc
          ]
        ]

    -- A context tells the selected evidence apart, its order and all that the generator saw of it.
    pub evidence_fingerprint-eq :
        (es fs : List ContextEvidence)
        → evidence_fingerprint hash quote es ≡ evidence_fingerprint hash quote fs
        → (es ≡ fs) ⊎ Collision hash
    unfolding evidence_fingerprint
    evidence_fingerprint-eq es fs h = elim (hash-eq _ _ h) [
      | inl same ↦ quoted_evidence-eq es fs same
      | inr collision ↦ inr collision
    ]
