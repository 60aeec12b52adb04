-- ===== src/Auth/Accounts.antt =====
-- An account that signing up makes: the next login with its name and its password, in
-- internal/auth/auth.go.
mod Tests
use toyotaview.Common.{
  ℕ, Option, none, some, Str, GoError, Result, ok, err, Option-cases, Duration, ◌≡◌, refl, ap, ◌∙◌,
  subst, inl, inr,
}
use toyotaview.Auth.Types.{
  User, Session, CreateUserParams, CreateSessionParams, Store, Library, SessionResult,
}
use toyotaview.Auth.Service.{
  validate_username, validate_password, normalize_username, finish_session, open_session,
  with_token, create_session, after_create_user, after_hash, signup, after_find_user, login,
}

-- The user that the storage has under a name.
abbrev pub Knows : {W : Type 0} → Store W → Str → User → W → Type 0
Knows store name user w = (store.find_user_by_username name w).0 ≡ ok user

-- What the storage and bcrypt promise: a created user is found under its name with the hash that it
-- was created with, and stays there while sessions come and go and random bytes are drawn; and a
-- password matches the hash that was made of it.
pub record IsAccounts {W : Type 0} (lib : Library W) (store : Store W) : Type 0 where
  pub finds_created :
      (params : CreateUserParams) (user : User) (before after : W)
      → store.create_user params before ≡ (ok user, after)
      → Knows store params.username user after × (user.password_hash ≡ params.password_hash)
  pub stays_expired :
      (name : Str) (user : User) (w : W)
      → Knows store name user w
      → Knows store name user (store.delete_expired_sessions w).1
  pub stays_opened :
      (name : Str) (user : User) (params : CreateSessionParams) (w : W)
      → Knows store name user w
      → Knows store name user (store.create_session params w).1
  pub stays_drawn :
      (name : Str) (user : User) (n : ℕ) (w : W)
      → Knows store name user w
      → Knows store name user (lib.random_bytes n w).1
  pub matches :
      (password hash : Str) (before after : W)
      → lib.generate_from_password password before ≡ (ok hash, after)
      → lib.compare_hash_and_password hash password ≡ none

module _ {W : Type 0} (lib : Library W) (store : Store W) (session_ttl : Duration)
    (promised : IsAccounts lib store) (name password : Str) where
  -- The storage has the user of a result, and the password matches.
  abbrev Settled : Result SessionResult × W → Type 0
  Settled (ok r, w) =
      Knows store name r.user w
      × (lib.compare_hash_and_password r.user.password_hash password ≡ none)
  Settled (err e, w) = Unit {0}

  module _ (user : User)
      (fits : lib.compare_hash_and_password user.password_hash password ≡ none) where
    finish_session-Settled :
        (token : Str) (p : Result Session × W)
        → Knows store name user p.1
        → Settled (finish_session lib store session_ttl user token p)
    unfolding finish_session
    finish_session-Settled token (err e, w) known = tt
    finish_session-Settled token (ok session, w) known = (known, fits)

    open_session-Settled :
        (token : Str) (p : Option GoError × W)
        → Knows store name user p.1
        → Settled (open_session lib store session_ttl user token p)
    unfolding open_session
    open_session-Settled token (some e, w) known = tt
    open_session-Settled token (none, w) known =
        finish_session-Settled token _ (promised.stays_opened name user _ w known)

    with_token-Settled :
        (p : Result Str × W)
        → Knows store name user p.1
        → Settled (with_token lib store session_ttl user p)
    unfolding with_token
    with_token-Settled (err e, w) known = tt
    with_token-Settled (ok bytes, w) known =
        open_session-Settled _ _ (promised.stays_expired name user w known)

    create_session-Settled :
        (w : W) → Knows store name user w → Settled (create_session lib store session_ttl user w)
    unfolding create_session
    create_session-Settled w known =
        with_token-Settled _ (promised.stays_drawn name user 32 w known)

  after_create_user-Settled :
      (hash : Str) (p : Result User × W)
      → lib.compare_hash_and_password hash password ≡ none
      → ((user : User) (after : W)
          → p ≡ (ok user, after)
          → Knows store name user after × (user.password_hash ≡ hash))
      → Settled (after_create_user lib store session_ttl p)
  unfolding after_create_user
  after_create_user-Settled hash (err e, w) fits made = tt
  after_create_user-Settled hash (ok user, w) fits made =
      let (known, same) = made user w refl in
      create_session-Settled user (ap (λ h. lib.compare_hash_and_password h password) same ∙ fits) w
        known

  after_hash-Settled :
      (p : Result Str × W)
      → ((hash : Str) (after : W)
          → p ≡ (ok hash, after)
          → lib.compare_hash_and_password hash password ≡ none)
      → Settled (after_hash lib store session_ttl name p)
  unfolding after_hash
  after_hash-Settled (err e, w) fits = tt
  after_hash-Settled (ok hash, w) fits =
      after_create_user-Settled hash _ (fits hash w refl)
        (λ user after made. promised.finds_created _ user w after made)

  after_find_user-known :
      (user : User) (p : Result User × W)
      → p.0 ≡ ok user
      → lib.compare_hash_and_password user.password_hash password ≡ none
      → after_find_user lib store session_ttl password p
        ≡ create_session lib store session_ttl user p.1
  unfolding after_find_user
  after_find_user-known user (err e, w) found fits = absurd (cc found)
  after_find_user-known user (ok u, w) found fits =
      let same : u ≡ user = ap (user_or user) found in rw same (rw (fits, after_find_user) refl)
    where
      user_or : User → Result User → User
      user_or d (ok v) = v
      user_or d (err e) = d

module _ {W : Type 0} (lib : Library W) (store : Store W) (session_ttl : Duration)
    (promised : IsAccounts lib store) where
  -- A signup that gave a session passed the checks, and left the account in the storage.
  pub signed_up :
      (username password : Str) (w after : W) (r : SessionResult)
      → signup lib store session_ttl username password w ≡ (ok r, after)
      → (validate_username (normalize_username lib username) ≡ none)
        × (validate_password password ≡ none)
        × Knows store (normalize_username lib username) r.user after
        × (lib.compare_hash_and_password r.user.password_hash password ≡ none)
  unfolding signup
  signed_up username password w after r made =
      let name = normalize_username lib username in
      elim (Option-cases (validate_username name)) [
        | inr (e, bad) ↦ absurd (cc (rw (bad, signup) at made))
        | inl good ↦ elim (Option-cases (validate_password password)) [
          | inr (e, bad) ↦ absurd (cc (rw (good, bad, signup) at made))
          | inl fine ↦
              let settled =
                subst (Settled lib store session_ttl promised name password)
                  (rw (good, fine, signup) at made)
                  (after_hash-Settled lib store session_ttl promised name password
                    (lib.generate_from_password password w)
                    (λ hash later drawn. promised.matches password hash w later drawn)) in
              (good, fine, settled.0, settled.1)
        ]
      ]

  login_checked :
      (username password : Str) (w : W)
      → validate_username (normalize_username lib username) ≡ none
      → validate_password password ≡ none
      → login lib store session_ttl username password w
        ≡ after_find_user lib store session_ttl password
            (store.find_user_by_username (normalize_username lib username) w)
  unfolding login
  login_checked username password w good fine = rw (good, fine, login) refl

  -- Where the storage and bcrypt keep their promises, a login with the password of a signup that gave
  -- a session, under any spelling of the name with the same normal form, is not refused: it opens
  -- a session for the user that the signup made.
  pub login-signup :
      (username spelling password : Str) (w after : W) (r : SessionResult)
      → signup lib store session_ttl username password w ≡ (ok r, after)
      → normalize_username lib spelling ≡ normalize_username lib username
      → login lib store session_ttl spelling password after
        ≡ create_session lib store session_ttl r.user
            (store.find_user_by_username (normalize_username lib username) after).1
  login-signup username spelling password w after r made same =
      let (good, fine, known, fits) = signed_up username password w after r made in
      login_checked spelling password after (ap validate_username same ∙ good) fine
      ∙ ap
          (λ name.
            after_find_user lib store session_ttl password (store.find_user_by_username name after))
          same
      ∙ after_find_user-known lib store session_ttl promised (normalize_username lib username)
          password r.user _ known fits
