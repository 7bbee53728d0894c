-- ===== src/Answer/Cache/Entries.antt =====
-- Moves and replacements in the entries of the cache, and what they keep.
use raglibrarian.Base.{
  ℕ, zero, suc, ◌≡◌, refl, Bool, true, false, List, [], ◌∷◌, ◌++◌, All, All-append, arith, length,
  length-append, keep, drop, inl, inr, Bool-cases,
}
use raglibrarian.Answer.Cache.Store.{CacheEntry, touch, replace}

pub length-touch : (i : ℕ) (es : List CacheEntry) → length (touch i es) ≡ length es
unfolding touch
length-touch i [] = refl
length-touch zero (e ∷ es) = omega (arith, length-append es (e ∷ []))
length-touch (suc i) (e ∷ es) = omega (arith, length-touch i es)

pub length-replace :
    (i : ℕ) (entry : CacheEntry) (es : List CacheEntry) → length (replace i entry es) ≡ length es
unfolding replace
length-replace i entry [] = refl
length-replace zero entry (e ∷ es) = refl
length-replace (suc i) entry (e ∷ es) = omega (arith, length-replace i entry es)

module _ {ℓ} (P : CacheEntry → Type ℓ) where
  pub All-touch : (i : ℕ) (es : List CacheEntry) → All P es → All P (touch i es)
  unfolding touch
  All-touch i [] a = a
  All-touch zero (e ∷ es) a = All-append P es (e ∷ []) a.1 (a.0, tt)
  All-touch (suc i) (e ∷ es) a = (a.0, All-touch i es a.1)

  pub All-replace :
      (i : ℕ) (entry : CacheEntry) (es : List CacheEntry)
      → P entry
      → All P es
      → All P (replace i entry es)
  unfolding replace
  All-replace i entry [] p a = a
  All-replace zero entry (e ∷ es) p a = (p, a.1)
  All-replace (suc i) entry (e ∷ es) p a = (a.0, All-replace i entry es p a.1)

  pub All-drop : (n : ℕ) (es : List CacheEntry) → All P es → All P (drop n es)
  All-drop zero es a = a
  All-drop (suc n) [] a = a
  All-drop (suc n) (e ∷ es) a = All-drop n es a.1

  pub All-keep : (p : CacheEntry → Bool) (es : List CacheEntry) → All P es → All P (keep p es)
  All-keep p [] a = a
  All-keep p (e ∷ es) a = elim (Bool-cases (p e)) [
    | inl kept ↦ rw kept (a.0, All-keep p es a.1)
    | inr gone ↦ rw gone (All-keep p es a.1)
  ]

  -- What a test keeps passes it.
  pub keep-All :
      (p : CacheEntry → Bool) (es : List CacheEntry)
      → All P es
      → All (λ e. P e × (p e ≡ true)) (keep p es)
  keep-All p [] a = tt
  keep-All p (e ∷ es) a = elim (Bool-cases (p e)) [
    | inl kept ↦ rw kept ((a.0, kept), keep-All p es a.1)
    | inr gone ↦ rw gone (keep-All p es a.1)
  ]

  pub All-map :
      (Q : CacheEntry → Type ℓ) (es : List CacheEntry)
      → ((e : CacheEntry) → P e → Q e)
      → All P es
      → All Q es
  All-map Q [] h a = a
  All-map Q (e ∷ es) h a = (h e a.0, All-map Q es h a.1)

module _ (r : CacheEntry → CacheEntry → Bool) where
  abbrev pub Unlike : CacheEntry → List CacheEntry → Type 0
  Unlike e es = All (λ x. r e x ≡ false) es

  -- No entry is related to a later one.
  abbrev pub Apart : List CacheEntry → Type 0
  Apart [] = Unit
  Apart (e ∷ es) = Unlike e es × Apart es

  pub Apart-append :
      (es : List CacheEntry) (entry : CacheEntry)
      → All (λ x. r x entry ≡ false) es
      → Apart es
      → Apart (es ++ (entry ∷ []))
  Apart-append [] entry a p = (tt, tt)
  Apart-append (e ∷ es) entry a p =
      (All-append (λ x. r e x ≡ false) es (entry ∷ []) p.0 (a.0, tt), Apart-append es entry a.1 p.1)

  pub Apart-drop : (n : ℕ) (es : List CacheEntry) → Apart es → Apart (drop n es)
  Apart-drop zero es p = p
  Apart-drop (suc n) [] p = p
  Apart-drop (suc n) (e ∷ es) p = Apart-drop n es p.1

  pub Apart-keep : (p : CacheEntry → Bool) (es : List CacheEntry) → Apart es → Apart (keep p es)
  Apart-keep p [] a = a
  Apart-keep p (e ∷ es) a = elim (Bool-cases (p e)) [
    | inl kept ↦ rw kept (All-keep (λ x. r e x ≡ false) p es a.0, Apart-keep p es a.1)
    | inr gone ↦ rw gone (Apart-keep p es a.1)
  ]

  module _ (r_comm : (x y : CacheEntry) → r x y ≡ r y x) where
    pub Apart-touch : (i : ℕ) (es : List CacheEntry) → Apart es → Apart (touch i es)
    unfolding touch
    Apart-touch i [] p = p
    Apart-touch zero (e ∷ es) p =
        Apart-append es e
          (All-map (λ x. r e x ≡ false) (λ x. r x e ≡ false) es (λ x h. rw (r_comm x e) h) p.0) p.1
    Apart-touch (suc i) (e ∷ es) p = (All-touch (λ x. r e x ≡ false) i es p.0, Apart-touch i es p.1)
