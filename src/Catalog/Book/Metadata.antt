-- ===== src/Catalog/Book/Metadata.antt =====
-- Who may change books, and which metadata an upload may carry.
use raglibrarian.Base.{
  ℕ, ◌+◌, ◌≤◌, ◌≡◌, ◌↔◌, refl, true, false, List, [], ◌∷◌, arith, All, length, pos, ◌≤ℤ◌, Text,
  byte_len, is_blank, ok,
}
use raglibrarian.Catalog.Commands.{
  Actor, max_tag_length, max_tags, max_title_length, max_author_length, can_read, can_upload,
  can_manage, validate_tags, validate_metadata_at,
}
use raglibrarian.Catalog.Status.{BookMetadata}

abbrev pub IsTag : Text → Type 0
IsTag t = (is_blank t ≡ false) × (byte_len t ≤ max_tag_length)

-- The bounds on the metadata of an upload in a year.
pub record IsPublishable (m : BookMetadata) (year : ℕ) : Type 0 where
  pub title_given : is_blank m.title ≡ false
  pub title_short : byte_len m.title ≤ max_title_length
  pub author_given : is_blank m.author ≡ false
  pub author_short : byte_len m.author ≤ max_author_length
  pub not_negative : pos 0 ≤ℤ m.year
  pub not_future : m.year ≤ℤ pos (year + 1)
  pub tags_few : length m.tags ≤ max_tags
  pub tags_valid : All IsTag m.tags

validate_tags-All : (ts : List Text) → validate_tags ts ≡ ok tt → All IsTag ts
unfolding validate_tags
validate_tags-All [] h = tt
validate_tags-All (t ∷ ts) h = ground (arith, validate_tags-All ts)

All-validate_tags : (ts : List Text) → All IsTag ts → validate_tags ts ≡ ok tt
unfolding validate_tags
All-validate_tags [] h = refl
All-validate_tags (t ∷ ts) h = ground (arith, All-validate_tags ts h.1)

-- Metadata is accepted exactly when it is within all the bounds.
pub validate_metadata_at_iff :
    (m : BookMetadata) (year : ℕ) → (validate_metadata_at m year ≡ ok tt) ↔ IsPublishable m year
unfolding validate_metadata_at
validate_metadata_at_iff m year = (
  λ h. ground (arith, validate_tags-All m.tags),
  λ p. ground (arith, All-validate_tags m.tags p.tags_valid),
)

-- Who may manage books may also read them.
pub can_manage-can_read : (a : Actor) → can_manage a ≡ true → can_read a ≡ true
unfolding can_manage can_upload can_read
can_manage-can_read a h = ground arith
