-- ===== src/Ingestion/ContentSelection/Tests.antt =====
-- A message of the layout worker's tests and the profile that fits it.
use raglibrarian.Base.{ℕ, ◌*◌, Bool, true, ◌&&◌, leb, ltb, pos, Text, literal}
use raglibrarian.Ingestion.ContentSelection.{ContentSelectionProfile}

abbrev sha256 : Text → ℕ
sha256 s = 9

abbrev hex : ℕ → Text
hex n = literal "0123456789abcdef0123456789abcdef0123456789abcdef0123456789abcdef"

abbrev is_hex : Text → Bool
is_hex s = true

abbrev moderate : ℕ → Bool
moderate r = leb 1 r && leb r 500

abbrev exceeds : ℕ → ℕ → ℕ → Bool
exceeds a b r = ltb (b * r) (a * 1000)

abbrev profile : ContentSelectionProfile
profile = record {
  mode = literal "enforcement";
  policy_version = literal "layout-selector-v1";
  parser_version = literal "poppler-1";
  model_sha256 = literal "0123456789abcdef0123456789abcdef0123456789abcdef0123456789abcdef";
  minimum_signals = pos 2;
  maximum_ranges = pos 5;
  maximum_excluded_ratio = 400;
}
