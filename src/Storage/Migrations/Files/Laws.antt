-- ===== src/Storage/Migrations/Files/Laws.antt =====
-- Which files postgresMigrationFiles of internal/storage/postgres.go makes migrations of.
use toyotaview.Common.{
  ℕ, Bool, true, false, ◌||◌, List, [], ◌∷◌, ◌++◌, map, Str, str, str_eq, str_eq_iff, is_empty,
  Result, ok, err, All, Bool-cases, ◌≡◌, refl, sym, ap, subst, ◌∙◌, arith, inl, inr, if◌then◌else◌,
}
use toyotaview.Storage.Migrations.{Migration}
use toyotaview.Storage.Migrations.Files.{
  Entry, is_dotted, ext, trim_suffix, is_skipped, with_file, files_from, postgres_migration_files,
}

-- A text that ends in another.
unfoldable pub ends_in : Str → Str → Bool
ends_in suffix [] = is_empty suffix
ends_in suffix (c ∷ s) = str_eq (c ∷ s) suffix || ends_in suffix s

abbrev first_or : ℕ → Str → ℕ
first_or a [] = a
first_or a (c ∷ s) = c

abbrev tail_of : Str → Str
tail_of [] = []
tail_of (c ∷ s) = s

extension_split :
    (c : ℕ) (s : Str) → c ∷ s ≡ str ".sql" → (is_dotted c s ≡ true) × (is_empty (ext s) ≡ true)
unfolding is_dotted ext
extension_split c s e =
    let head : c ≡ b'.' = ap (first_or c) e in
    let rest : s ≡ str "sql" = ap tail_of e in rw (head, rest) (refl, refl)

empty_nil : (s : Str) → is_empty s ≡ true → s ≡ []
empty_nil [] h = refl
empty_nil (c ∷ s) h = absurd (cc h)

nil_differs : (s : Str) → is_empty s ≡ true → str_eq s (str ".sql") ≡ false
unfolding str_eq
nil_differs [] h = refl
nil_differs (c ∷ s) h = absurd (cc h)

-- filepath.Ext finds the extension .sql exactly in the names that end in it.
ext-ends_in : (s : Str) → str_eq (ext s) (str ".sql") ≡ ends_in (str ".sql") s
unfolding ext ends_in
ext-ends_in [] = nil_differs [] refl
ext-ends_in (c ∷ s) = elim (Bool-cases (str_eq (c ∷ s) (str ".sql"))) [
  | inl whole ↦
      let parts = extension_split c s ((str_eq_iff (c ∷ s) (str ".sql")).0 whole) in
      rw (parts.1, parts.0, whole) refl
  | inr longer ↦ elim (Bool-cases (is_empty (ext s))) [
    | inr later ↦ rw (later, longer) (ext-ends_in s)
    | inl last ↦
        let ended : ends_in (str ".sql") s ≡ false =
          sym (ext-ends_in s) ∙ nil_differs (ext s) last in
        elim (Bool-cases (is_dotted c s)) [
          | inl dotted ↦ rw (last, dotted, longer, ended) refl
          | inr plain ↦ rw (last, plain, longer, ended) (nil_differs [] refl)
        ]
  ]
]

-- The names of the SQL files among the entries.
unfoldable pub sql_names : List Entry → List Str
sql_names [] = []
sql_names (e ∷ es) =
    let rest = sql_names es in
    if e.is_dir then rest else if ends_in (str ".sql") e.name then e.name ∷ rest else rest

sql_names-cons :
    (e : Entry) (es : List Entry)
    → sql_names (e ∷ es) ≡ (if is_skipped e then sql_names es else e.name ∷ sql_names es)
unfolding sql_names is_skipped
sql_names-cons e es = rw (ext-ends_in e.name) (ground arith)

-- The name of the file of a migration.
abbrev pub file_name : Migration → Str
file_name m = m.version ++ str ".sql"

trim_suffix-ext : (s : Str) → ext s ≡ str ".sql" → trim_suffix (str ".sql") s ++ str ".sql" ≡ s
unfolding ext trim_suffix
trim_suffix-ext [] h = absurd (cc h)
trim_suffix-ext (c ∷ s) h = elim (Bool-cases (str_eq (c ∷ s) (str ".sql"))) [
  | inl whole ↦ rw whole (sym ((str_eq_iff (c ∷ s) (str ".sql")).0 whole))
  | inr longer ↦ elim (Bool-cases (is_empty (ext s))) [
    | inr later ↦ rw longer (ap (λ t. c ∷ t) (trim_suffix-ext s (rw later at h)))
    | inl last ↦ elim (Bool-cases (is_dotted c s)) [
      | inl dotted ↦
          absurd (cc (longer, (str_eq_iff (c ∷ s) (str ".sql")).1 (rw (last, dotted) at h)))
      | inr plain ↦ let none_left : [] ≡ str ".sql" = rw (last, plain) at h in absurd (cc none_left)
    ]
  ]
]

module _ (read_file : Str → Result Str) where
  abbrev pub IsFile : Migration → Type 0
  IsFile m = read_file (str "migrations/postgres/" ++ file_name m) ≡ ok m.sql

  -- One migration for each SQL file, in order, with the version that the file is named by.
  abbrev pub IsRead : List Entry → Result (List Migration) → Type 0
  IsRead es (err e) = Unit {0}
  IsRead es (ok ms) = (map file_name ms ≡ sql_names es) × All IsFile ms

  IsRead-with_file :
      (e : Entry) (es : List Entry) (read : Result Str) (rest : Result (List Migration))
      → read_file (str "migrations/postgres/" ++ e.name) ≡ read
      → is_skipped e ≡ false
      → ext e.name ≡ str ".sql"
      → IsRead es rest
      → IsRead (e ∷ es) (with_file e.name read rest)
  unfolding with_file
  IsRead-with_file e es (err x) rest known kept named h = tt
  IsRead-with_file e es (ok payload) (err x) known kept named h = tt
  IsRead-with_file e es (ok payload) (ok ms) known kept named h =
      let whole = trim_suffix-ext e.name named in
      rw (sql_names-cons e es, kept)
        (
          (λ i. whole i ∷ h.0 i),
          (ap (λ n. read_file (str "migrations/postgres/" ++ n)) whole ∙ known, h.1),
        )

  IsRead-skipped :
      (e : Entry) (es : List Entry) (rest : Result (List Migration))
      → is_skipped e ≡ true
      → IsRead es rest
      → IsRead (e ∷ es) rest
  IsRead-skipped e es (err x) skipped h = tt
  IsRead-skipped e es (ok ms) skipped h = rw (sql_names-cons e es, skipped) h

  kept_named : (e : Entry) → is_skipped e ≡ false → ext e.name ≡ str ".sql"
  unfolding is_skipped
  kept_named e h = (str_eq_iff (ext e.name) (str ".sql")).0 (ground arith)

  IsRead-files_from : (es : List Entry) → IsRead es (files_from read_file es)
  unfolding files_from sql_names
  IsRead-files_from [] = (refl, tt)
  IsRead-files_from (e ∷ es) = elim (Bool-cases (is_skipped e)) [
    | inl skipped ↦
        rw skipped (IsRead-skipped e es (files_from read_file es) skipped (IsRead-files_from es))
    | inr kept ↦
        rw kept (IsRead-with_file e es _ _ refl kept (kept_named e kept) (IsRead-files_from es))
  ]

  -- The SQL files among the entries can be read.
  abbrev IsNamed : List Str → Type 0
  IsNamed names =
      All (λ name. (payload : Str) × (read_file (str "migrations/postgres/" ++ name) ≡ ok payload))
        names

  abbrev pub IsReadable : List Entry → Type 0
  IsReadable es = IsNamed (sql_names es)

  abbrev IsDone : Result (List Migration) → Type 0
  IsDone r = (ms : List Migration) × (r ≡ ok ms)

  IsDone-with_file :
      (name : Str) (rest : Result (List Migration)) (payload : Str)
      → IsDone rest
      → IsDone (with_file name (ok payload) rest)
  unfolding with_file
  IsDone-with_file name (ok ms) payload done = (_, refl)
  IsDone-with_file name (err e) payload done = absurd (cc (done.1))

  IsDone-files_from : (es : List Entry) → IsReadable es → IsDone (files_from read_file es)
  unfolding files_from
  IsDone-files_from [] readable = ([], refl)
  IsDone-files_from (e ∷ es) readable = elim (Bool-cases (is_skipped e)) [
    | inl skipped ↦
        rw skipped (IsDone-files_from es (rw (sql_names-cons e es, skipped) at readable))
    | inr kept ↦
        let both : IsNamed (e.name ∷ sql_names es) = rw (sql_names-cons e es, kept) at readable in
        rw (kept, both.0.1) (IsDone-with_file e.name _ both.0.0 (IsDone-files_from es both.1))
  ]

  -- Where the embedded files can be read, there is exactly one migration for each entry of the
  -- directory that is a file whose name ends in .sql, in the order of the entries: its version is
  -- the name without the extension, and its SQL is what the file holds.
  pub postgres_migration_files-IsRead :
      (es : List Entry)
      → IsReadable es
      → (ms : List Migration) × (postgres_migration_files read_file (ok es) ≡ ok ms)
        × (map file_name ms ≡ sql_names es)
        × All IsFile ms
  unfolding postgres_migration_files
  postgres_migration_files-IsRead es readable =
      let done = IsDone-files_from es readable in
      let read = subst (IsRead es) (done.1) (IsRead-files_from es) in
      (done.0, done.1, read.0, read.1)
