-- ===== src/Backup/Files/Safety.antt =====
-- Which files the routes and the cleanup of backups can change.
use lo_ra_dbase.Common.{
  ℕ, String, ◌≡◌, refl, sym, ap, ◌∙◌, ◌≢◌, inl, inr, true, false, ◌&&◌, ◌||◌, Option, none, some,
  List, [], ◌∷◌, arith, ◌==◌, nat_eq, string_eq, Bool-cases, Option-cases, beq_of_ne, All,
}
use Prim.Native.String.append
use Prim.Native.String.{[], ◌∷◌, ◌++◌ as append}
use lo_ra_dbase.Text
use lo_ra_dbase.Text.{starts_with, after_prefix}
use lo_ra_dbase.Backup.Files.{
  Node, prefix, automatic, cleanup_old_backups, delete_backup_file, remove_older, BackupFile, File,
  list_automatic_backups, entry, find_file, cutoff_ms, is_older, is_unsafe, newest_first,
  save_automatic_backup, backup_name,
}
use lo_ra_dbase.Text.Prefix.{after_prefix-append, append_of_prefix, append_texts_assoc}
use lo_ra_dbase.Backup.Routes.{delete_backup}
use lo_ra_dbase.Config.{Env}
use lo_ra_dbase.Table.Keys.{by_key-delete_ne}
use lo_ra_dbase.Table.Sort.{order_by-All}
use lo_ra_dbase.Json.{Json}
use lo_ra_dbase.Table.Laws.{first-insert_other}

-- What Node's documentation says of `path.join` for a name that is one segment of a path.
abbrev pub Joins : Node → Type 0
Joins node =
    (name : String)
    → name ≢ ""
    → name ≢ "."
    → name ≢ ".."
    → Text.includes b'/' name ≡ false
    → node.join node.backup_dir name ≡ append node.backup_dir (append "/" name)

-- the path is not that of a file in the directory whose name starts as those of automatic backups do
abbrev pub IsOther : Node → String → Type 0
IsOther node path = after_prefix (append node.backup_dir (append "/" prefix)) path ≡ none

includes-append :
    (k : ℕ) (s t : String) → Text.includes k (append s t) ≡ (Text.includes k s || Text.includes k t)
unfolding Text.includes
includes-append k [] t = rw (append.nil t) refl
includes-append k (c ∷ s) t = rw (append.cons c s t) (ground (arith, includes-append k s t))

plain_name :
    (day time : String)
    → Text.includes b'/' day ≡ false
    → Text.includes b'/' time ≡ false
    → Text.includes b'/' (append prefix (append day (append "-" (append time ".json")))) ≡ false
unfolding Text.includes
plain_name day time d t =
    rw
      (
        includes-append b'/' prefix (append day (append "-" (append time ".json"))),
        includes-append b'/' day (append "-" (append time ".json")),
        includes-append b'/' "-" (append time ".json"),
        includes-append b'/' time ".json",
        d,
        t,
      )
      refl

apart :
    (name short rest : String)
    → after_prefix prefix name ≡ some rest
    → after_prefix prefix short ≡ none
    → name ≢ short
apart name short rest e absent c = let h = ap (after_prefix prefix) c in absurd (cc (e, absent, h))

module _ (node : Node) (joins : Joins node) where
  -- a name that starts so is one segment, and its path is in the directory
  joined_name :
      (name rest : String)
      → after_prefix prefix name ≡ some rest
      → Text.includes b'/' name ≡ false
      → node.join node.backup_dir name ≡ append (append node.backup_dir (append "/" prefix)) rest
  unfolding after_prefix
  joined_name name rest e plain =
      joins name (apart name "" rest e refl) (apart name "." rest e refl)
        (apart name ".." rest e refl) plain
      ∙ ap (λ (s : String). append node.backup_dir (append "/" s))
          (append_of_prefix prefix name rest e)
      ∙ ap (λ (s : String). append node.backup_dir s) (sym (append_texts_assoc "/" prefix rest))
      ∙ sym (append_texts_assoc node.backup_dir (append "/" prefix) rest)

  module _ (path : String) (other : IsOther node path) where
    joined_other :
        (name rest : String)
        → after_prefix prefix name ≡ some rest
        → Text.includes b'/' name ≡ false
        → node.join node.backup_dir name ≢ path
    joined_other name rest e plain c =
        let h : after_prefix (append node.backup_dir (append "/" prefix)) path ≡ some rest =
          rw (sym c ∙ joined_name name rest e plain)
            (after_prefix-append (append node.backup_dir (append "/" prefix)) rest) in
        absurd (cc (h, other))

    -- deleting a file whose name starts so
    deleted_other :
        (name : String) (files : List File)
        → Text.begins_with prefix name ≡ true
        → find_file path (delete_backup_file node name files).1 ≡ find_file path files
    unfolding delete_backup_file
    deleted_other name files starts = elim (Bool-cases (is_unsafe name)) [
      | inl t ↦ rw t refl
      | inr f ↦ elim (Option-cases (after_prefix prefix name)) [
        | inl absent ↦ absurd (ground arith)
        | inr (rest, e) ↦ elim (Option-cases (find_file (node.join node.backup_dir name) files)) [
          | inl missing ↦ rw (f, missing, delete_backup_file) refl
          | inr (g, found) ↦
              rw (f, found, delete_backup_file)
                (by_key-delete_ne (λ (x : File). x.path) (node.join node.backup_dir name) path files
                  (joined_other name rest e (ground arith)))
        ]
      ]
    ]

    removed_other :
        (cutoff : ℕ) (backups : List BackupFile) (files : List File)
        → All (λ (b : BackupFile). Text.begins_with prefix b.filename ≡ true) backups
        → find_file path (remove_older node cutoff backups files).1 ≡ find_file path files
    unfolding remove_older
    removed_other cutoff [] files h = refl
    removed_other cutoff (b ∷ backups) files (starts, h) =
        elim (Bool-cases (is_older node cutoff b)) [
          | inr f ↦ rw f (removed_other cutoff backups files h)
          | inl t ↦
              rw t (removed_other cutoff backups (delete_backup_file node b.filename files).1 h)
              ∙ deleted_other b.filename files starts
        ]

    automatic_names :
        (files : List File)
        → All (λ (b : BackupFile). Text.begins_with prefix b.filename ≡ true) (automatic node files)
    unfolding automatic
    automatic_names [] = tt
    automatic_names (f ∷ files) = elim (Option-cases (entry node f)) [
      | inl absent ↦ rw (absent, automatic) (automatic_names files)
      | inr (name, found) ↦
          elim (Bool-cases (Text.begins_with prefix name && Text.ends_with ".json" name)) [
            | inl t ↦ rw (found, automatic, t) (ground arith, automatic_names files)
            | inr n ↦ rw (found, automatic, n) (automatic_names files)
          ]
    ]

    cleaned_other :
        (now keep_days : ℕ) (files : List File)
        → find_file path (cleanup_old_backups node now keep_days files).1 ≡ find_file path files
    unfolding cleanup_old_backups list_automatic_backups
    cleaned_other now keep_days files =
        removed_other (cutoff_ms node now keep_days) (list_automatic_backups node files) files (
          order_by-All (newest_first node)
            (λ (b : BackupFile). Text.begins_with prefix b.filename ≡ true) (automatic node files)
            (automatic_names files))

    saved_other :
        (now day time : String) (size : ℕ) (backup : Json) (files : List File)
        → Text.includes b'/' day ≡ false
        → Text.includes b'/' time ≡ false
        → find_file path (save_automatic_backup node now day time size backup files).1
          ≡ find_file path files
    unfolding save_automatic_backup
    saved_other now day time size backup files d t =
        let name = backup_name node day time in
        let away : node.join node.backup_dir name ≢ path =
          joined_other name (append day (append "-" (append time ".json")))
            (after_prefix-append prefix (append day (append "-" (append time ".json"))))
            (plain_name day time d t) in
        first-insert_other (λ (x : File). x.path == path) _ _
          (beq_of_ne (node.join node.backup_dir name) path away)
        ∙ by_key-delete_ne (λ (x : File). x.path) (node.join node.backup_dir name) path files away

    route_other :
        (env : Env) (at : ℕ) (token : Option String) (filename : String) (files : List File)
        → find_file path (delete_backup env node at token filename files).1 ≡ find_file path files
    unfolding delete_backup
    route_other env at token filename files = elim (Bool-cases (Text.begins_with prefix filename)) [
      | inr f ↦ ground arith
      | inl t ↦ ground (arith, deleted_other filename files t)
    ]

-- Where `path.join` appends the name of a file to the directory, a file whose path is not that of the
-- directory and a name that begins with `backup-automatic-` is neither removed nor changed: not by
-- DELETE /:filename, whatever the file name of the request is, not by the daily cleanup, and not by saving
-- a backup on a day and at a time whose texts have no slash.
pub files-kept :
    (env : Env) (node : Node) (at keep_days size : ℕ) (token : Option String)
    (filename now day time path : String) (backup : Json) (files : List File)
    → Joins node
    → IsOther node path
    → Text.includes b'/' day ≡ false
    → Text.includes b'/' time ≡ false
    → (find_file path (delete_backup env node at token filename files).1 ≡ find_file path files)
      × (find_file path (cleanup_old_backups node at keep_days files).1 ≡ find_file path files)
      × (find_file path (save_automatic_backup node now day time size backup files).1
          ≡ find_file path files)
files-kept env node at keep_days size token filename now day time path backup files joins other d
      t =
    (
      route_other node joins path other env at token filename files,
      cleaned_other node joins path other at keep_days files,
      saved_other node joins path other now day time size backup files d t,
    )
