-- ===== src/Identity/Login/Grants.antt =====
-- Who gets a session, and what a login costs.
use raglibrarian.Base.{
  ℕ, suc, ◌≡◌, ◌≢◌, inl, inr, refl, sym, subst, ap, Bool, true, false, ◌||◌, List, [], ◌∷◌, Option,
  none, some, arith, All, map, length, Bool-cases, Option-cases, is_empty, if◌then◌else◌, Text,
  text_eq→eq, text_eq_refl, trim_space, ◌∙◌,
}
use raglibrarian.Identity.Account.{
  Role, User, admin, librarian, reader, other_role, valid_role, can_authenticate, valid_email,
}
use raglibrarian.Identity.Login.{
  Comparison, equal, different, compare_failed, create_session, available_roles,
  invalid_credentials, role_named, role_eq, by_role, hash_of, matched, add_match, match_roles,
  select_role, decide_login, all_roles, login,
}

role_eq→eq : (r s : Role) → role_eq r s ≡ true → r ≡ s
unfolding role_eq
role_eq→eq admin admin h = refl
role_eq→eq librarian librarian h = refl
role_eq→eq reader reader h = refl
role_eq→eq (other_role s) (other_role t) h = ap other_role (text_eq→eq s t h)
role_eq→eq r s h = absurd (ground arith)

role_eq_refl : (r : Role) → role_eq r r ≡ true
unfolding role_eq
role_eq_refl admin = refl
role_eq_refl librarian = refl
role_eq_refl reader = refl
role_eq_refl (other_role s) = text_eq_refl s

by_role-role :
    (users : List User) (role : Role) (u : User) → by_role users role ≡ some u → u.role ≡ role
unfolding by_role
by_role-role [] role u h = absurd (ground arith)
by_role-role (v ∷ users) role u h = elim (Option-cases (by_role users role)) [
  | inr (w, e) ↦ ground (arith, by_role-role users role w e)
  | inl e ↦ ground (arith, role_eq→eq v.role role)
]

module _ (lower : Text → Text) (dummy_password_hash : Text)
    (compare : Text → Text → Comparison) where
  -- An active account whose password it is, the one that counts for its role.
  pub record IsMatch (plaintext : Text) (users : List User) (u : User) : Type 0 where
    pub account : by_role users u.role ≡ some u
    pub password : compare u.password_hash plaintext ≡ equal
    pub active : can_authenticate u ≡ true

  matched-All :
      (plaintext : Text) (users : List User) (role : Role) (o : Option User) (result : Comparison)
      (ms : List User)
      → by_role users role ≡ o
      → compare (hash_of lower dummy_password_hash compare o) plaintext ≡ result
      → All (IsMatch plaintext users) ms
      → All (IsMatch plaintext users) (matched lower dummy_password_hash compare o result ms)
  matched-All plaintext users role (some u) equal ms b c h =
      elim (Bool-cases (can_authenticate u)) [
        | inr e ↦ rw e h
        | inl e ↦ rw e (
          record {
            account = ap (by_role users) (by_role-role users role u b) ∙ b;
            password = c;
            active = e;
          },
          h,
        )
      ]
  matched-All plaintext users role (some u) different ms b c h = h
  matched-All plaintext users role (some u) compare_failed ms b c h = h
  matched-All plaintext users role none result ms b c h = h

  add_match-All :
      (plaintext : Text) (users : List User) (role : Role) (o : Option User) (result : Comparison)
      (rest : Option (List User) × ℕ) (ms : List User)
      → by_role users role ≡ o
      → compare (hash_of lower dummy_password_hash compare o) plaintext ≡ result
      → ((ls : List User) → rest.0 ≡ some ls → All (IsMatch plaintext users) ls)
      → (add_match lower dummy_password_hash compare o result rest).0 ≡ some ms
      → All (IsMatch plaintext users) ms
  add_match-All plaintext users role o compare_failed rest ms b c h e = absurd (ground arith)
  add_match-All plaintext users role o equal (none, n) ms b c h e = absurd (ground arith)
  add_match-All plaintext users role o different (none, n) ms b c h e = absurd (ground arith)
  add_match-All plaintext users role o equal (some ls, n) ms b c h e =
      subst (All (IsMatch plaintext users))
        {x = matched lower dummy_password_hash compare o equal ls} (ground arith)
        (matched-All plaintext users role o equal ls b c (h ls refl))
  add_match-All plaintext users role o different (some ls, n) ms b c h e =
      subst (All (IsMatch plaintext users))
        {x = matched lower dummy_password_hash compare o different ls} (ground arith)
        (matched-All plaintext users role o different ls b c (h ls refl))

  match_roles-All :
      (plaintext : Text) (users : List User) (roles : List Role) (ms : List User)
      → (match_roles lower dummy_password_hash compare plaintext users roles).0 ≡ some ms
      → All (IsMatch plaintext users) ms
  unfolding match_roles
  match_roles-All plaintext users [] ms h =
      subst (All (IsMatch plaintext users)) {x = []} (ground arith) tt
  match_roles-All plaintext users (role ∷ roles) ms h =
      add_match-All plaintext users role (by_role users role) _
        (match_roles lower dummy_password_hash compare plaintext users roles) ms refl refl
        (match_roles-All plaintext users roles) h

  select_role-All :
      (P : User → Type 0) (role : Role) (ms : List User) (u : User)
      → All P ms
      → select_role lower dummy_password_hash compare role ms ≡ create_session u
      → P u × (u.role ≡ role)
  unfolding select_role
  select_role-All P role [] u a h = absurd (ground arith)
  select_role-All P role (v ∷ ms) u a h = elim (Bool-cases (role_eq v.role role)) [
    | inl e ↦
        let same : v ≡ u = ground arith in
        (subst P same a.0, ap (λ w. w.role) (sym same) ∙ role_eq→eq v.role role e)
    | inr e ↦ select_role-All P role ms u a.1 (ground arith)
  ]

  decide_login-All :
      (P : User → Type 0) (selected_role : Text) (ms : List User) (u : User)
      → All P ms
      → decide_login lower dummy_password_hash compare selected_role ms ≡ create_session u
      → P u × (is_empty selected_role ≡ false → u.role ≡ role_named selected_role)
  unfolding decide_login
  decide_login-All P selected_role ms u a h = elim (Bool-cases (is_empty selected_role)) [
    | inr e ↦
        let (p, r) = select_role-All P (role_named selected_role) ms u a (ground arith) in
        (p, λ f. r)
    | inl e ↦ (only ms a (ground arith), λ f. absurd (ground arith))
  ]
    where
      only :
          (ls : List User)
          → All P ls
          → elim ls [
            | [] ↦ invalid_credentials
            | v ∷ rest ↦
                if is_empty rest
                then create_session v
                else available_roles (map (λ w. w.role) (v ∷ rest))
          ]
            ≡ create_session u
          → P u
      only [] b k = absurd (ground arith)
      only (v ∷ []) b k = subst P (ground arith) b.0
      only (v ∷ w ∷ rest) b k = absurd (ground arith)

  -- A session is made only for an active account of the address, the one that counts for its role,
  -- whose password it is, and whose role is the selected one if a role is selected.
  pub login-IsMatch :
      (accounts : Text → Option (List User)) (email plaintext selected_role : Text) (u : User)
      → (login lower dummy_password_hash compare accounts email plaintext selected_role).outcome
        ≡ create_session u
      → (users : List User) × (accounts (lower (trim_space email)) ≡ some users)
        × IsMatch plaintext users u
        × (is_empty selected_role ≡ false → u.role ≡ role_named selected_role)
  unfolding login
  login-IsMatch accounts email plaintext selected_role u h =
      elim (Option-cases (accounts (lower (trim_space email)))) [
        | inl e ↦ absurd (ground arith)
        | inr (users, e) ↦
            elim (Option-cases
              (match_roles lower dummy_password_hash compare plaintext users all_roles).0) [
                | inl k ↦ absurd (ground arith)
                | inr (ms, k) ↦
                    let (p, r) =
                      decide_login-All (IsMatch plaintext users) selected_role ms u
                        (match_roles-All plaintext users all_roles ms k) (ground arith) in
                    (users, e, p, r)
              ]
      ]

  module _ (plaintext : Text)
      (works : (hash : Text) → compare hash plaintext ≢ compare_failed) where
    add_match_count :
        (o : Option User) (result : Comparison) (rest : Option (List User) × ℕ)
        → result ≢ compare_failed
        → (add_match lower dummy_password_hash compare o result rest).1 ≡ suc rest.1
    add_match_count o compare_failed rest h = absurd (h refl)
    add_match_count o equal (none, n) h = refl
    add_match_count o different (none, n) h = refl
    add_match_count o equal (some ls, n) h = refl
    add_match_count o different (some ls, n) h = refl

    match_roles_count :
        (users : List User) (roles : List Role)
        → (match_roles lower dummy_password_hash compare plaintext users roles).1 ≡ length roles
    unfolding match_roles
    match_roles_count users [] = refl
    match_roles_count users (role ∷ roles) =
        add_match_count (by_role users role) _
          (match_roles lower dummy_password_hash compare plaintext users roles) (works _)
        ∙ ap (λ n. suc n) (match_roles_count users roles)

    -- When no comparison and no search for accounts breaks down, a login compares three passwords,
    -- whether the address is one, has accounts, or has active ones.
    pub login_cost :
        (accounts : Text → Option (List User)) (email selected_role : Text)
        → accounts (lower (trim_space email)) ≢ none
        → (login lower dummy_password_hash compare accounts email plaintext
            selected_role).comparisons
          ≡ 3
    unfolding login
    login_cost accounts email selected_role h =
        elim (Option-cases (accounts (lower (trim_space email)))) [
          | inl e ↦ absurd (h e)
          | inr (users, e) ↦ ground (arith, e, match_roles_count users all_roles)
        ]

    add_match-some :
        (o : Option User) (result : Comparison) (ls : List User) (n : ℕ)
        → result ≢ compare_failed
        → (add_match lower dummy_password_hash compare o result (some ls, n)).0
          ≡ some (matched lower dummy_password_hash compare o result ls)
    add_match-some o compare_failed ls n h = absurd (h refl)
    add_match-some o equal ls n h = refl
    add_match-some o different ls n h = refl

    match_roles_step :
        (users : List User) (role : Role) (roles : List Role) (ls : List User)
        → (match_roles lower dummy_password_hash compare plaintext users roles).0 ≡ some ls
        → (match_roles lower dummy_password_hash compare plaintext users (role ∷ roles)).0
          ≡ some (
              matched lower dummy_password_hash compare
                (by_role users role)
                (compare (hash_of lower dummy_password_hash compare (by_role users role)) plaintext)
                ls)
    unfolding match_roles
    match_roles_step users role roles ls e =
        let o = by_role users role in
        let result = compare (hash_of lower dummy_password_hash compare o) plaintext in
        subst
          (λ m.
            (add_match lower dummy_password_hash compare o result
              (m, (match_roles lower dummy_password_hash compare plaintext users roles).1)).0
            ≡ some (matched lower dummy_password_hash compare o result ls))
          (sym e)
          (add_match-some o result ls
            (match_roles lower dummy_password_hash compare plaintext users roles).1 (works _))

    match_roles_total :
        (users : List User) (roles : List Role)
        → (ls : List User) × ((match_roles lower dummy_password_hash compare plaintext users
              roles).0
            ≡ some ls)
    unfolding match_roles
    match_roles_total users [] = ([], refl)
    match_roles_total users (role ∷ roles) =
        let (ls, e) = match_roles_total users roles in (_, match_roles_step users role roles ls e)

    -- A match is found at its role, behind roles of others.
    match_kept :
        (users : List User) (role : Role) (result : Comparison) (o : Option User) (ls : List User)
        (u : User)
        → by_role users role ≡ o
        → role_eq role u.role ≡ false
        → select_role lower dummy_password_hash compare u.role ls ≡ create_session u
        → select_role lower dummy_password_hash compare u.role
            (matched lower dummy_password_hash compare o result ls)
          ≡ create_session u
    unfolding select_role
    match_kept users role equal (some v) ls u b r h = elim (Bool-cases (can_authenticate v)) [
      | inr e ↦ rw e h
      | inl e ↦
          let other : role_eq v.role u.role ≡ false = rw (by_role-role users role v b) r in
          rw (e, other) h
    ]
    match_kept users role different (some v) ls u b r h = h
    match_kept users role compare_failed (some v) ls u b r h = h
    match_kept users role result none ls u b r h = h

    match_first :
        (users : List User) (role : Role) (ls : List User) (u : User)
        → IsMatch plaintext users u
        → role ≡ u.role
        → select_role lower dummy_password_hash compare u.role (
            matched lower dummy_password_hash compare
              (by_role users role)
              (compare (hash_of lower dummy_password_hash compare (by_role users role)) plaintext)
              ls)
          ≡ create_session u
    unfolding select_role
    match_first users role ls u m e =
        rw (e, m.account, m.password, m.active, role_eq_refl u.role) refl

    abbrev among : Role → List Role → Bool
    among role [] = false
    among role (r ∷ roles) = role_eq r role || among role roles

    match_roles-select :
        (users : List User) (roles : List Role) (u : User)
        → IsMatch plaintext users u
        → among u.role roles ≡ true
        → (ms : List User) × ((match_roles lower dummy_password_hash compare plaintext users
              roles).0
            ≡ some ms)
          × (select_role lower dummy_password_hash compare u.role ms ≡ create_session u)
    unfolding match_roles
    match_roles-select users [] u m a = absurd (ground arith)
    match_roles-select users (role ∷ roles) u m a = elim (Bool-cases (role_eq role u.role)) [
      | inl r ↦
          let (ls, e) = match_roles_total users roles in
          (
            _,
            match_roles_step users role roles ls e,
            match_first users role ls u m (role_eq→eq role u.role r),
          )
      | inr r ↦
          let (ls, e, found) = match_roles-select users roles u m (ground arith) in
          (
            _,
            match_roles_step users role roles ls e,
            match_kept users role _ (by_role users role) ls u refl r found,
          )
    ]

    valid_role-among : (r : Role) → valid_role r ≡ true → among r all_roles ≡ true
    unfolding valid_role role_eq
    valid_role-among admin h = refl
    valid_role-among librarian h = refl
    valid_role-among reader h = refl
    valid_role-among (other_role s) h = absurd (ground arith)

    -- When no comparison breaks down and the accounts are found, `createSession` is called for the owner
    -- of an active account of the address who gives its password and selects its role, one of the three.
    pub login-create_session :
        (accounts : Text → Option (List User)) (email selected_role : Text) (users : List User)
        (u : User)
        → valid_email (lower (trim_space email)) ≡ true
        → accounts (lower (trim_space email)) ≡ some users
        → IsMatch plaintext users u
        → valid_role u.role ≡ true
        → is_empty selected_role ≡ false
        → role_named selected_role ≡ u.role
        → (login lower dummy_password_hash compare accounts email plaintext selected_role).outcome
          ≡ create_session u
    unfolding login decide_login
    login-create_session accounts email selected_role users u v a m r s n =
        let (ms, e, found) = match_roles-select users all_roles u m (valid_role-among u.role r) in
        rw (v, a, e, s, n, r) found
