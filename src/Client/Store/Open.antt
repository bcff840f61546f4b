-- ===== src/Client/Store/Open.antt =====
-- `Store::open` and `create_parent` of rust/crates/clickman/src/store.rs. `FileSystem` stands for
-- `Path::parent`, `create_dir_all`, and `Connection::open` with the pragma of the journal: the file
-- that is opened, or none where SQLite fails. What is not committed stays as it was.
use clickman.Base.{
  ◌≡◌, refl, sym, ap, ◌∙◌, ◌⊎◌, inl, inr, Bool, Option, none, some, arith, if◌then◌else◌,
  Option-cases, Bool-cases, zero, suc,
}
use clickman.Base.Int.{ℤ, pos, negsuc, ◌<ℤ◌}
use clickman.Base.Text.{Text, is_blank}
use clickman.Client.Error.{Result, ok, err, ◌>>=◌, store_directory, storage, newer_store}
use clickman.Client.Store.Migrate.{File, migrate_from, migrate, migrate-migrate, format}

pub record FileSystem : Type 0 where
  pub parent : Text → Option Text
  pub create_dir_all : Text → Bool
  pub connect : Text → Option File

-- `filter(|parent| !parent.as_os_str().is_empty())`
abbrev named : Option Text → Option Text
named none = none
named (some directory) = if is_blank directory then none else some directory

module _ (fs : FileSystem) where
  unfoldable pub create_parent : Text → Result (Unit {0})
  create_parent path = elim (named (fs.parent path)) [
    | none ↦ ok tt
    | some directory ↦ if fs.create_dir_all directory then ok tt else err store_directory
  ]

  abbrev pub connected : Option File → Result File
  connected none = err storage
  connected (some file) = ok file

  -- `Store::open`, with the file after it.
  unfoldable pub open_file : Text → Result File
  unfolding create_parent
  open_file path = create_parent path >>= λ u. connected (fs.connect path) >>= migrate

  create_parent-cases :
      (path : Text) → (create_parent path ≡ ok tt) ⊎ (create_parent path ≡ err store_directory)
  unfolding create_parent
  create_parent-cases path = elim (Option-cases (named (fs.parent path))) [
    | inl e ↦ inl (rw (e, create_parent) refl)
    | inr (directory, e) ↦ elim (Bool-cases (fs.create_dir_all directory)) [
      | inl made ↦ inl (rw (e, create_parent) (rw made refl))
      | inr fails ↦ inr (rw (e, create_parent) (rw fails refl))
    ]
  ]

  open_file-connected :
      (path : Text)
      → create_parent path ≡ ok tt
      → open_file path ≡ (connected (fs.connect path) >>= migrate)
  unfolding open_file
  open_file-connected path made =
      ap (λ (r : Result (Unit {0})). r >>= λ u. connected (fs.connect path) >>= migrate) made

  connected-migrate :
      (file : Option File) (after : File)
      → (connected file >>= migrate) ≡ ok after
      → (before : File) × (file ≡ some before) × (migrate before ≡ ok after)
  connected-migrate none after h = absurd (ground arith)
  connected-migrate (some before) after h = (before, refl, h)

  migrate-newer :
      (file : File)
      → format <ℤ file.user_version
      → migrate file ≡ err (newer_store file.user_version)
  unfolding migrate
  migrate-newer file newer = from file.user_version newer
    where
      from : (v : ℤ) → format <ℤ v → migrate_from v file ≡ err (newer_store v)
      from (pos zero) h = absurd (ground arith)
      from (pos (suc zero)) h = absurd (ground arith)
      from (pos (suc (suc n))) h = unfold migrate_from in refl
      from (negsuc n) h = absurd (ground arith)

-- The file system in which the file at every path is this one.
abbrev pub holding : FileSystem → File → FileSystem
holding fs file = record fs { connect = λ path. some file }

-- A store that is opened was there or is new, its directory is there, and its file is migrated to the
-- current format; opened again it is the same.
pub open_file-migrate :
    (fs : FileSystem) (path : Text) (after : File)
    → open_file fs path ≡ ok after
    → (before : File) × (fs.connect path ≡ some before)
      × (migrate before ≡ ok after)
      × (create_parent fs path ≡ ok tt)
      × (after.user_version ≡ format)
      × (open_file (holding fs after) path ≡ ok after)
unfolding open_file create_parent
open_file-migrate fs path after h = elim (create_parent-cases fs path) [
  | inl made ↦
      let (before, found, migrated) =
        connected-migrate fs (fs.connect path) after (sym (open_file-connected fs path made) ∙ h) in
      let (current, again) = migrate-migrate before after migrated in
      (
        before,
        found,
        migrated,
        made,
        current,
        open_file-connected (holding fs after) path made ∙ again,
      )
  | inr fails ↦ absurd (
      err-ok (
        sym (
          ap (λ (r : Result (Unit {0})). r >>= λ u. connected fs (fs.connect path) >>= migrate)
            fails)
        ∙ h))
]
  where
    err-ok : ◌≡◌ {A = Result File} (err store_directory) (ok after) → ⊥
    err-ok h = cc

-- A file of a later format is refused, whatever it holds, with its format as the reason, unless its
-- directory is refused first.
pub open_file-newer :
    (fs : FileSystem) (path : Text) (file : File)
    → fs.connect path ≡ some file
    → format <ℤ file.user_version
    → (open_file fs path ≡ err store_directory)
      ⊎ (open_file fs path ≡ err (newer_store file.user_version))
unfolding open_file
open_file-newer fs path file found newer = elim (create_parent-cases fs path) [
  | inl made ↦ inr (
      open_file-connected fs path made
      ∙ (ap (λ f. connected fs f >>= migrate) found ∙ migrate-newer fs file newer))
  | inr fails ↦
      inl (
        ap (λ (r : Result (Unit {0})). r >>= λ u. connected fs (fs.connect path) >>= migrate) fails)
]
