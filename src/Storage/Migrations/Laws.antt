-- ===== src/Storage/Migrations/Laws.antt =====
-- What Postgres.Migrate leaves behind, and what the next Migrate does.
use toyotaview.Common.{
  Bool, true, false, ◌||◌, Option, none, some, List, [], ◌∷◌, Str, str_eq, str_eq_refl, mem, All,
  GoError, Result, ok, err, Result-cases, ◌≡◌, ◌≢◌, refl, sym, ap, subst, ◌∙◌, arith, inl, inr,
}
use toyotaview.Storage.Migrations.{
  Migration, Transactions, after_record, after_apply, apply_missing, next_migration, apply_all,
  after_commit, commit_or, after_table, after_lock, migrate,
}

-- What the statements on the table of versions promise where they return no error, for the versions
-- that the table holds: the lock and the creation of the table lose none, an answer is the table's and
-- changes nothing, and a record adds to it; and that the next transaction after a commit, if it
-- begins, has the versions that were committed.
pub record IsRecording {W T : Type 0} (tx : Transactions W T) (versions : T → List Str)
    : Type 0 where
  pub locks : (t : T) → (tx.lock t).0 ≡ none → versions (tx.lock t).1 ≡ versions t
  pub ensures : (t : T) → (tx.ensure_table t).0 ≡ none → versions (tx.ensure_table t).1 ≡ versions t
  pub asks :
      (v : Str) (t u : T) (b : Bool)
      → tx.is_recorded v t ≡ (ok b, u)
      → (b ≡ mem v (versions t)) × (versions u ≡ versions t)
  pub records :
      (v : Str) (t : T)
      → (tx.record_version v t).0 ≡ none
      → (k : Str) → mem k (versions (tx.record_version v t).1) ≡ (str_eq v k || mem k (versions t))
  pub commits :
      (t u : T) (w after : W)
      → tx.commit t w ≡ (none, after)
      → tx.begin after ≡ ok u
      → versions u ≡ versions t

-- The SQL of a migration that runs without an error leaves the versions.
abbrev pub IsApart : {W T : Type 0} → Transactions W T → (T → List Str) → Migration → Type 0
IsApart {T = T} tx versions m =
    (t : T) → (tx.apply m.sql t).0 ≡ none → versions (tx.apply m.sql t).1 ≡ versions t

module _ {W T : Type 0} (tx : Transactions W T) (versions : T → List Str)
    (recording : IsRecording tx versions) where
  -- Nothing that one state records is lost in the other.
  abbrev Grows : T → T → Type 0
  Grows t u = (k : Str) → mem k (versions t) ≡ true → mem k (versions u) ≡ true

  abbrev pub IsRecorded : Str → T → Type 0
  IsRecorded v t = mem v (versions t) ≡ true

  abbrev pub AllRecorded : List Migration → T → Type 0
  AllRecorded migrations t = All (λ m. IsRecorded m.version t) migrations

  -- A step without an error that keeps what is recorded, and records this version.
  abbrev Recorded : Str → T → Option GoError × T → Type 0
  Recorded v t p = p.0 ≡ none → Grows t p.1 × IsRecorded v p.1

  after_record-none :
      (v : Str) (p : Option GoError × T)
      → (after_record tx v p).0 ≡ none
      → (p.0 ≡ none) × ((after_record tx v p).1 ≡ p.1)
  unfolding after_record
  after_record-none v (none, t) h = (refl, refl)
  after_record-none v (some e, t) h = absurd (cc h)

  Recorded-after_apply :
      (v : Str) (t : T) (p : Option GoError × T)
      → (p.0 ≡ none → versions p.1 ≡ versions t)
      → Recorded v t (after_apply tx v p)
  unfolding after_apply
  Recorded-after_apply v t (some e, u) kept h = absurd (cc h)
  Recorded-after_apply v t (none, u) kept h =
      let same = kept refl in
      let done = after_record-none v (tx.record_version v u) h in
      let added = recording.records v u done.0 in
      rw (done.1)
        (λ k there. rw (added k, same, there) (ground arith), rw (added v, str_eq_refl v) refl)

  Recorded-apply_missing :
      (m : Migration) (t : T) (p : Result Bool × T)
      → IsApart tx versions m
      → tx.is_recorded m.version t ≡ p
      → Recorded m.version t (apply_missing tx m p)
  unfolding apply_missing
  Recorded-apply_missing m t (err e, u) apart asked h = absurd (cc h)
  Recorded-apply_missing m t (ok true, u) apart asked h =
      let told = recording.asks m.version t u true asked in
      (λ k there. rw (told.1) there, rw (told.1) (sym told.0))
  Recorded-apply_missing m t (ok false, u) apart asked h =
      let told = recording.asks m.version t u false asked in
      Recorded-after_apply m.version t (tx.apply m.sql u) (λ fine. apart u fine ∙ told.1) h

  next_migration-none :
      (rest : T → Option GoError × T) (p : Option GoError × T)
      → (next_migration tx rest p).0 ≡ none
      → (p.0 ≡ none) × (next_migration tx rest p ≡ rest p.1)
  unfolding next_migration
  next_migration-none rest (none, t) h = (refl, refl)
  next_migration-none rest (some e, t) h = absurd (cc h)

  All-Grows :
      (migrations : List Migration) (t u : T)
      → Grows t u
      → AllRecorded migrations t
      → AllRecorded migrations u
  All-Grows [] t u grows recorded = recorded
  All-Grows (m ∷ migrations) t u grows recorded =
      (grows m.version recorded.0, All-Grows migrations t u grows recorded.1)

  Recorded-apply_all :
      (migrations : List Migration) (t : T)
      → All (IsApart tx versions) migrations
      → (apply_all tx migrations t).0 ≡ none
      → Grows t (apply_all tx migrations t).1 × AllRecorded migrations (apply_all tx migrations t).1
  unfolding apply_all
  Recorded-apply_all [] t apart h = (λ k there. there, tt)
  Recorded-apply_all (m ∷ migrations) t apart h =
      let p = apply_missing tx m (tx.is_recorded m.version t) in
      let went = next_migration-none (apply_all tx migrations) p h in
      let first = Recorded-apply_missing m t (tx.is_recorded m.version t) apart.0 refl went.0 in
      let rest = Recorded-apply_all migrations p.1 apart.1 (ap (λ q. q.0) (sym went.1) ∙ h) in
      subst (λ q. Grows t q.1 × AllRecorded (m ∷ migrations) q.1) (sym went.1)
        (λ k there. rest.0 k (first.0 k there), (rest.0 m.version first.1, rest.1))

  -- The transactions with another way to run the SQL of a migration and to record a version.
  abbrev pub with_other :
      (Str → T → Option GoError × T) → (Str → T → Option GoError × T) → Transactions W T
  with_other apply record_version = record tx { apply = apply; record_version = record_version }

  module _ (run mark : Str → T → Option GoError × T) where
    apply_missing_same :
        (m : Migration) (p : Result Bool × T)
        → ((u : T) → p ≢ (ok false, u))
        → apply_missing (with_other run mark) m p ≡ apply_missing tx m p
    unfolding apply_missing
    apply_missing_same m (err e, u) recorded = refl
    apply_missing_same m (ok true, u) recorded = refl
    apply_missing_same m (ok false, u) recorded = absurd (recorded u refl)

    versions-apply_missing :
        (m : Migration) (t : T) (p : Result Bool × T)
        → tx.is_recorded m.version t ≡ p
        → IsRecorded m.version t
        → (apply_missing tx m p).0 ≡ none
        → versions (apply_missing tx m p).1 ≡ versions t
    unfolding apply_missing
    versions-apply_missing m t (err e, u) asked known h = absurd (cc h)
    versions-apply_missing m t (ok true, u) asked known h =
        (recording.asks m.version t u true asked).1
    versions-apply_missing m t (ok false, u) asked known h =
        absurd (cc ((recording.asks m.version t u false asked).0, known))

    never_missing : (v : Str) (t u : T) → IsRecorded v t → tx.is_recorded v t ≢ (ok false, u)
    never_missing v t u known asked = absurd (cc ((recording.asks v t u false asked).0, known))

    next_migration_same :
        (f g : T → Option GoError × T) (p : Option GoError × T)
        → (p.0 ≡ none → f p.1 ≡ g p.1)
        → next_migration (with_other run mark) f p ≡ next_migration tx g p
    unfolding next_migration
    next_migration_same f g (none, t) same = same refl
    next_migration_same f g (some e, t) same = refl

    -- Where every version is recorded, the loop runs no SQL and records nothing.
    apply_all_same :
        (migrations : List Migration) (t : T)
        → AllRecorded migrations t
        → apply_all (with_other run mark) migrations t ≡ apply_all tx migrations t
    unfolding apply_all
    apply_all_same [] t recorded = refl
    apply_all_same (m ∷ migrations) t recorded =
        let asked = tx.is_recorded m.version t in
        let p = apply_missing tx m asked in
        ap (next_migration (with_other run mark) (apply_all (with_other run mark) migrations))
          (apply_missing_same m asked (λ u. never_missing m.version t u recorded.0))
        ∙ next_migration_same (apply_all (with_other run mark) migrations) (apply_all tx migrations)
            p
            (λ fine.
              let kept = versions-apply_missing m t asked refl recorded.0 fine in
              apply_all_same migrations p.1
                (All-Grows migrations t p.1 (λ k there. rw kept there) recorded.1))

    after_table_same :
        (migrations : List Migration) (p : Option GoError × T)
        → (p.0 ≡ none → AllRecorded migrations p.1)
        → after_table (with_other run mark) (ok migrations) p ≡ after_table tx (ok migrations) p
    unfolding after_table
    after_table_same migrations (some e, t) recorded = refl
    after_table_same migrations (none, t) recorded = apply_all_same migrations t (recorded refl)

    after_lock_same :
        (migrations : List Migration) (p : Option GoError × T)
        → (p.0 ≡ none → AllRecorded migrations p.1)
        → after_lock (with_other run mark) (ok migrations) p ≡ after_lock tx (ok migrations) p
    unfolding after_lock
    after_lock_same migrations (some e, t) recorded = refl
    after_lock_same migrations (none, t) recorded =
        after_table_same migrations (tx.ensure_table t) (λ fine.
          All-Grows migrations t (tx.ensure_table t).1
            (λ k there. rw (recording.ensures t fine) there) (recorded refl))

    commit_or_same :
        (w : W) (p : Option GoError × T) → commit_or (with_other run mark) w p ≡ commit_or tx w p
    unfolding commit_or after_commit
    commit_or_same w (none, t) = committed w (tx.commit t w)
      where
        committed :
            (v : W) (q : Option GoError × W)
            → after_commit (with_other run mark) q ≡ after_commit tx q
        committed v (none, u) = refl
        committed v (some e, u) = refl
    commit_or_same w (some e, t) = refl

  -- What a transaction that commits has done.
  after_table-none :
      (migrations : List Migration) (p : Option GoError × T)
      → All (IsApart tx versions) migrations
      → (after_table tx (ok migrations) p).0 ≡ none
      → AllRecorded migrations (after_table tx (ok migrations) p).1
  unfolding after_table
  after_table-none migrations (some e, t) apart h = absurd (cc h)
  after_table-none migrations (none, t) apart h = (Recorded-apply_all migrations t apart h).1

  after_lock-none :
      (migrations : List Migration) (p : Option GoError × T)
      → All (IsApart tx versions) migrations
      → (after_lock tx (ok migrations) p).0 ≡ none
      → AllRecorded migrations (after_lock tx (ok migrations) p).1
  unfolding after_lock
  after_lock-none migrations (some e, t) apart h = absurd (cc h)
  after_lock-none migrations (none, t) apart h =
      after_table-none migrations (tx.ensure_table t) apart h

  after_commit-none :
      (p : Option GoError × W) (after : W) → after_commit tx p ≡ (none, after) → p ≡ (none, after)
  unfolding after_commit
  after_commit-none (none, w) after h = h
  after_commit-none (some e, w) after h = absurd (cc (ap (λ q. q.0) h))

  commit_or-none :
      (w after : W) (p : Option GoError × T)
      → commit_or tx w p ≡ (none, after)
      → (p.0 ≡ none) × (tx.commit p.1 w ≡ (none, after))
  unfolding commit_or
  commit_or-none w after (none, t) h = (refl, after_commit-none _ after h)
  commit_or-none w after (some e, t) h = absurd (cc (ap (λ q. q.0) h))

  -- After a Migrate without an error, the next transaction has every version.
  Recorded-migrate :
      (migrations : List Migration) (w after : W) (u : T)
      → All (IsApart tx versions) migrations
      → migrate tx (ok migrations) w ≡ (none, after)
      → tx.begin after ≡ ok u
      → AllRecorded migrations u
  unfolding migrate
  Recorded-migrate migrations w after u apart h next = elim (Result-cases (tx.begin w)) [
    | inr (e, refused) ↦ absurd (cc (ap (λ q. q.0) (rw (migrate, refused) at h)))
    | inl (t, begun) ↦
        let done : commit_or tx w (after_lock tx (ok migrations) (tx.lock t)) ≡ (none, after) =
          rw (migrate, begun) at h in
        let (fine, stored) = commit_or-none w after _ done in
        let same = recording.commits _ u w after stored next in
        All-Grows migrations (after_lock tx (ok migrations) (tx.lock t)).1 u
          (λ k there. rw same there) (after_lock-none migrations (tx.lock t) apart fine)
  ]

  -- Where the statements on the table of versions keep their promises, and the SQL of the migrations
  -- leaves that table: after a Migrate that returned no error, the next transaction has the version
  -- of every migration, and the next Migrate does the same whatever it would do to run a migration's
  -- SQL and to record a version: it runs none and records none.
  pub migrate_again :
      (migrations : List Migration) (w after : W) (run mark : Str → T → Option GoError × T)
      → All (IsApart tx versions) migrations
      → migrate tx (ok migrations) w ≡ (none, after)
      → ((u : T) → tx.begin after ≡ ok u → AllRecorded migrations u)
        × (migrate (with_other run mark) (ok migrations) after ≡ migrate tx (ok migrations) after)
  unfolding migrate
  migrate_again migrations w after run mark apart h = (
    λ u next. Recorded-migrate migrations w after u apart h next,
    elim (Result-cases (tx.begin after)) [
      | inr (e, refused) ↦ rw (migrate, refused) refl
      | inl (u, next) ↦
          let known = Recorded-migrate migrations w after u apart h next in
          rw (migrate, next)
            (commit_or_same run mark after _
              ∙ ap (commit_or tx after) (
                  after_lock_same run mark migrations (tx.lock u) (λ fine.
                    All-Grows migrations u (tx.lock u).1
                      (λ k there. rw (recording.locks u fine) there) known)))
    ],
  )
