-- ===== src/Servers/Removal.antt =====
-- What DELETE /api/servers/:id leaves.
use lo_ra_dbase.Common.{
  ℕ, ◌≡◌, refl, sym, ◌≢◌, inl, inr, true, false, none, some, arith, ltb, ◌==◌, nat_eq, string_eq,
  Bool-cases, Option-cases, All-every,
}
use lo_ra_dbase.Table.{select, count}
use lo_ra_dbase.Table.Laws.{count-delete, count-zero_iff}
use lo_ra_dbase.Table.Apart.{select-delete_apart}
use lo_ra_dbase.Table.Keys.{by_key-delete_self, by_key-delete_ne}
use lo_ra_dbase.Db.{Db, Server, FailedAttempt, Dashboard}
use lo_ra_dbase.Db.WellFormed.{IsWellFormed}
use lo_ra_dbase.Http.{reply}
use lo_ra_dbase.Encryption.Cache.{Cache, get, clear_cached_api_key}
use lo_ra_dbase.Encryption.Cache.Laws.{IsCache, get-clear}
use lo_ra_dbase.Servers.{find_by_id, delete_server}
use lo_ra_dbase.Servers.Routes.{delete_route}
use lo_ra_dbase.Servers.Deletion.{delete_server-IsWellFormed}

-- every trace of the server is gone, and all that belongs to another is as it was
pub record IsRemoved (server_id : ℕ) (db : Db) (cache : Cache) (db' : Db) (cache' : Cache)
    : Type 0 where
  pub gone : find_by_id server_id db' ≡ none
  pub no_attempts : count (λ (a : FailedAttempt). a.server_id == server_id) db'.failed_attempts ≡ 0
  pub no_dashboards : count (λ (d : Dashboard). d.server_id == server_id) db'.dashboards ≡ 0
  pub no_key : get server_id cache' ≡ none
  pub other_servers : (j : ℕ) → j ≢ server_id → find_by_id j db' ≡ find_by_id j db
  pub other_attempts :
      (j : ℕ)
      → j ≢ server_id
      → select (λ (a : FailedAttempt). a.server_id == j) db'.failed_attempts
        ≡ select (λ (a : FailedAttempt). a.server_id == j) db.failed_attempts
  pub other_dashboards :
      (j : ℕ)
      → j ≢ server_id
      → select (λ (d : Dashboard). d.server_id == j) db'.dashboards
        ≡ select (λ (d : Dashboard). d.server_id == j) db.dashboards
  pub other_keys : (j : ℕ) → j ≢ server_id → get j cache' ≡ get j cache
  pub kept : IsWellFormed db'

module _ (server_id : ℕ) (db : Db) (cache : Cache) (w : IsWellFormed db) (c : IsCache cache) where
  removed :
      IsRemoved server_id db cache
        (delete_server server_id db).1
        (clear_cached_api_key server_id cache)
  unfolding delete_server find_by_id
  removed = record {
    gone = by_key-delete_self (λ (s : Server). s.id) server_id db.servers;
    no_attempts = count-delete (λ (a : FailedAttempt). a.server_id == server_id) db.failed_attempts;
    no_dashboards = count-delete (λ (d : Dashboard). d.server_id == server_id) db.dashboards;
    no_key = ground (arith, get-clear server_id server_id cache c);
    other_servers =
        λ j n. by_key-delete_ne (λ (s : Server). s.id) server_id j db.servers (λ e. n (sym e));
    other_attempts = λ j n.
        select-delete_apart (λ (a : FailedAttempt). a.server_id == j)
          (λ (a : FailedAttempt). a.server_id == server_id) db.failed_attempts
          (All-every
            {P = λ (a : FailedAttempt).
              (a.server_id == server_id) ≡ true → (a.server_id == j) ≡ false}
            (λ a t. ground (arith, n)) db.failed_attempts);
    other_dashboards = λ j n.
        select-delete_apart (λ (d : Dashboard). d.server_id == j)
          (λ (d : Dashboard). d.server_id == server_id) db.dashboards
          (All-every
            {P = λ (d : Dashboard). (d.server_id == server_id) ≡ true → (d.server_id == j) ≡ false}
            (λ d t. ground (arith, n)) db.dashboards);
    other_keys = λ j n. ground (arith, n, get-clear server_id j cache c);
    kept = unfold delete_server in delete_server-IsWellFormed server_id db w;
  }

-- DELETE /api/servers/:id of a server that exists, on a well-formed database and a cache with one entry
-- for a server: it answers 200; the server, its failed attempts, its dashboards and its cached key are
-- gone; what belongs to other servers is as it was; and the database stays well formed.
pub delete_route_lem :
    (server_id : ℕ) (db : Db) (cache : Cache)
    → IsWellFormed db
    → IsCache cache
    → find_by_id server_id db ≢ none
    → ((delete_route (some server_id) db cache).0 ≡ reply 200 "Server deleted successfully")
      × IsRemoved server_id db cache
          (delete_route (some server_id) db cache).1
          (delete_route (some server_id) db cache).2
delete_route_lem server_id db cache w c there = elim (Option-cases (find_by_id server_id db)) [
  | inl absent ↦ absurd (there absent)
  | inr (s, found) ↦
      let deleted : (delete_server server_id db).0 ≡ true =
        unfold delete_server find_by_id in
        (elim (Bool-cases (ltb 0 (count (λ (s : Server). s.id == server_id) db.servers))) [
          | inl t ↦ t
          | inr f ↦ absurd (
              there (
                (count-zero_iff (λ (s : Server). s.id == server_id) db.servers).0
                  (ground (arith, f))))
        ]) in
      let run : delete_route (some server_id) db cache ≡ (
        reply 200 "Server deleted successfully",
        (delete_server server_id db).1,
        clear_cached_api_key server_id cache,
      ) =
        unfold delete_route in rw (found, delete_route) (rw deleted refl) in
      rw run (refl, removed server_id db cache w c)
]
