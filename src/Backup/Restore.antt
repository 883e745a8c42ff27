-- ===== src/Backup/Restore.antt =====
-- A backup of the servers, imported with `replace`: every server is there again.
use lo_ra_dbase.Common.{
  map-concat, ℕ, suc, ◌+◌, String, ◌≡◌, refl, sym, ap, ◌∙◌, ◌≢◌, false, none, some, List, [], ◌∷◌,
  ◌++◌, map, arith, ◌==◌, nat_eq, string_eq, beq_of_ne, length, All, All-map, All-image, All-every,
  Distinct,
}
use lo_ra_dbase.Backup.{
  BackupServer, ImportResult, validate_server_data, backup_of, import_server, given_of, replace,
  text_or, insert_backup, import_all, import_servers, export_servers, without_servers, nothing,
  oldest_first,
}
use lo_ra_dbase.Db.{Db, Server, ok}
use lo_ra_dbase.Servers.{find_by_name, find_by_host, server_row, insert_server}
use lo_ra_dbase.Table.{insert, first}
use lo_ra_dbase.Table.Laws.{first-insert_other}
use mathlib.Core.List.{append-nil, append_assoc}
use lo_ra_dbase.Db.WellFormed.{IsWellFormed}
use lo_ra_dbase.Table.Sort.{order_by, order_by-All, order_by-Distinct}

abbrev name_of : BackupServer → String
name_of b = b.name

abbrev host_of : BackupServer → String
host_of b = b.host

-- a server of a backup that an import takes, with both its times
pub record IsStored (b : BackupServer) : Type 0 where
  pub valid : length (validate_server_data b) ≡ 0
  pub created : String
  pub has_created : b.created_at ≡ some created
  pub updated : String
  pub has_updated : b.updated_at ≡ some updated
  pub not_empty : (updated == "") ≡ false

-- no server of the database has the name or the host
abbrev IsNew : Db → BackupServer → Type 0
IsNew db b = (find_by_name b.name db ≡ none) × (find_by_host b.host db ≡ none)

abbrev grown : String → BackupServer → String → Db → Db
grown now b created db = record db {
  servers =
      insert (server_row db.next_server (given_of b.name b) created (text_or b.updated_at now))
        db.servers;
  next_server = suc db.next_server;
}

module _ (day now : String) (b : BackupServer) (db : Db) (r : ImportResult) (stored : IsStored b)
    (free : IsNew db b) where
  turn-run :
      import_server replace day now b db r
      ≡ (grown now b stored.created db, record r { imported = suc r.imported })
  unfolding import_server
  turn-run =
      let run : insert_server (given_of b.name b) stored.created (text_or b.updated_at now) db
          ≡ ok (db.next_server, grown now b stored.created db) =
        unfold insert_server in rw (free.0, free.1) refl in
      let done : insert_backup now b.name b db ≡ ok (grown now b stored.created db) =
        unfold insert_backup in rw (stored.has_created, insert_backup) (rw run refl) in
      rw (stored.valid, done) refl

  row-backup :
      backup_of
        (server_row db.next_server (given_of b.name b) stored.created (text_or b.updated_at now))
      ≡ b
  row-backup = ground (arith, stored.has_created, stored.has_updated, stored.not_empty)

  still-IsNew :
      (c : BackupServer)
      → IsNew db c
      → b.name ≢ c.name
      → b.host ≢ c.host
      → IsNew (grown now b stored.created db) c
  unfolding find_by_name find_by_host
  still-IsNew c new names hosts = (
    first-insert_other (λ (s : Server). s.name == c.name) db.servers _
          (beq_of_ne b.name c.name names)
        ∙ new.0,
    first-insert_other (λ (s : Server). s.host == c.host) db.servers _
          (beq_of_ne b.host c.host hosts)
        ∙ new.1,
  )

still-IsNew_all :
    (day now : String) (b : BackupServer) (db : Db) (stored : IsStored b) (r : ImportResult)
    → IsNew db b
    → (bs : List BackupServer) → All (λ c. b.name ≢ name_of c) bs
    → All (λ c. b.host ≢ host_of c) bs
    → All (IsNew db) bs
    → All (IsNew (grown now b stored.created db)) bs
still-IsNew_all day now b db stored r free [] n h new = tt
still-IsNew_all day now b db stored r free (c ∷ bs) (n, ns) (h, hs) (new, news) = (
  still-IsNew day now b db r stored free c new n h,
  still-IsNew_all day now b db stored r free bs ns hs news,
)

loop-restores :
    (day now : String) (bs : List BackupServer) (db : Db) (r : ImportResult)
    → All IsStored bs
    → Distinct name_of bs
    → Distinct host_of bs
    → All (IsNew db) bs
    → (map backup_of (import_all replace day now bs db r).0.servers
        ≡ map backup_of db.servers ++ bs)
      × ((import_all replace day now bs db r).1 ≡ record r { imported = r.imported + length bs })
unfolding import_all
loop-restores day now [] db r s n h new =
    (sym (append-nil (map backup_of db.servers)), ground arith)
loop-restores day now (b ∷ bs) db r (s, ss) (n, ns) (h, hs) (new, news) =
    let next = grown now b s.created db in
    let more =
      loop-restores day now bs next (record r { imported = suc r.imported }) ss ns hs
        (still-IsNew_all day now b db s r new bs n h news) in
    rw (turn-run day now b db r s new, import_all)
      (
        more.0
            ∙ ap (λ (xs : List BackupServer). xs ++ bs)
                (map-concat backup_of db.servers _
                  ∙ ap (λ (x : BackupServer). map backup_of db.servers ++ x ∷ [])
                      (row-backup day now b db r s new))
            ∙ append_assoc (map backup_of db.servers) (b ∷ []) bs,
        more.1 ∙ ground arith,
      )

-- every server of the database passes the checks of an import
abbrev pub IsRestorable : List Server → Type 0
IsRestorable servers =
    All
      (λ (s : Server).
        (length (validate_server_data (backup_of s)) ≡ 0) × ((s.updated_at == "") ≡ false))
      servers

row-IsStored :
    (s : Server)
    → (length (validate_server_data (backup_of s)) ≡ 0) × ((s.updated_at == "") ≡ false)
    → IsStored (backup_of s)
row-IsStored s h = record {
  valid = h.0;
  created = s.created_at;
  has_created = refl;
  updated = s.updated_at;
  has_updated = refl;
  not_empty = h.1;
}

Distinct-image :
    {A B : Type 0} (key : B → String) (f : A → B) (xs : List A)
    → Distinct (λ (a : A). key (f a)) xs
    → Distinct key (map f xs)
Distinct-image key f [] d = tt
Distinct-image key f (x ∷ xs) (p, d) =
    (All-image (λ y. key (f x) ≢ key y) f xs p, Distinct-image key f xs d)

all-IsNew : (db : Db) (bs : List BackupServer) → All (IsNew (without_servers db)) bs
unfolding find_by_name find_by_host first
all-IsNew db bs = All-every {P = IsNew (without_servers db)} (λ b. (refl, refl)) bs

-- The servers of a well-formed database are exported, and the export is imported with `replace` into any
-- database: if every server passes the checks of an import, then the servers of that database are
-- afterwards those of the export, field by field and in its order; each is counted as imported, and none
-- is skipped.
pub replace-restores :
    (day now : String) (db target : Db)
    → IsWellFormed db
    → IsRestorable db.servers
    → (map backup_of (import_servers replace day now (export_servers db) target).0.servers
        ≡ export_servers db)
      × ((import_servers replace day now (export_servers db) target).1
          ≡ record nothing { imported = length (export_servers db) })
unfolding import_servers export_servers
replace-restores day now db target w valid =
    let rows = order_by oldest_first db.servers in
    let h =
      loop-restores day now (map backup_of rows) (without_servers target) nothing
        (All-image IsStored backup_of rows (
          order_by-All oldest_first (λ (s : Server). IsStored (backup_of s)) db.servers
            (All-map {Q = λ (s : Server). IsStored (backup_of s)} row-IsStored db.servers valid)))
        (Distinct-image name_of backup_of rows
          (order_by-Distinct oldest_first (λ (s : Server). s.name) db.servers w.servers.names))
        (Distinct-image host_of backup_of rows
          (order_by-Distinct oldest_first (λ (s : Server). s.host) db.servers w.servers.hosts))
        (all-IsNew target (map backup_of rows)) in
    (h.0, h.1 ∙ ap (λ (n : ℕ). record nothing { imported = n }) (omega arith))
