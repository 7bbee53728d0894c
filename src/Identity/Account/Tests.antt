-- ===== src/Identity/Account/Tests.antt =====
-- A librarian who is reviewed three times.
use raglibrarian.Base.{
  ◌≡◌, ◌&&◌, ◌||◌, refl, List, [], ◌∷◌, Text, literal, true, false, ok, err, is_blank, trim_space,
  byte_len,
}
use raglibrarian.Identity.Account.{
  User, Decided, librarian, reader, pending, invalid_status, invalid_email, valid_role,
  valid_status, last_index, valid_email, new_user, new_unverified_user, reviewable, approve, reject,
  review, review_all, can_authenticate, is_pending, is_active,
}
use raglibrarian.Identity.Account.Review.{
  first_named, decide_by, approved, new-Coherent, review_all-can_authenticate,
}

program : Unit {0}
unfolding valid_role valid_status last_index valid_email new_user new_unverified_user reviewable
    approve reject review review_all can_authenticate first_named decide_by is_blank trim_space
    byte_len
program = tt

abbrev lower : Text → Text
lower s = s

abbrev ada : User
ada = record {
  id = literal "1";
  name = literal "Ada";
  email = literal "a@b";
  email_fingerprint = [];
  password_hash = literal "h";
  role = librarian;
  status = pending;
  verified_at = 0;
  created_at = 7;
  reviewed_by = [];
  reviewed_at = 0;
}

abbrev reviews : List Decided
reviews =
    record { approves = false; reviewer_id = []; at = 8 }
    ∷ record { approves = true; reviewer_id = literal "r"; at = 9 }
    ∷ record { approves = false; reviewer_id = literal "s"; at = 10 }
    ∷ []

ada_made :
    new_unverified_user lower
      (literal "1")
      (literal " Ada ")
      (literal "a@b")
      []
      (literal "h")
      librarian
      pending
      7
    ≡ ok ada
unfolding program
ada_made = refl

reader_refused :
    new_unverified_user lower
      (literal "1")
      (literal "Ada")
      (literal "a@b")
      []
      (literal "h")
      reader
      pending
      7
    ≡ err invalid_status
unfolding program
reader_refused = refl

email_refused :
    new_unverified_user lower
      (literal "1")
      (literal "Ada")
      (literal "a@")
      []
      (literal "h")
      reader
      pending
      7
    ≡ err invalid_email
unfolding program
email_refused = refl

approved_run : can_authenticate (review_all ada reviews) ≡ true
unfolding program
approved_run = refl

review_all-can_authenticate_example :
    can_authenticate (review_all ada reviews)
    ≡ (is_active ada.status || (is_pending ada.status && approved (first_named reviews)))
unfolding new_unverified_user
review_all-can_authenticate_example = review_all-can_authenticate ada reviews (
    new-Coherent lower (literal "1") (literal " Ada ") (literal "a@b") [] (literal "h") librarian
      pending 0 7 ada ada_made)
