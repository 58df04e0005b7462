-- ===== src/Auth/SessionLimit.antt =====
-- How many sessions of a user stay active when one more begins
-- (src/modules/auth/services/auth.service.ts).
use fieldserviceit_backend.Base.{
  ℕ, suc, ◌≤◌, String, ◌≡◌, ap, Bool, true, not, ◌&&◌, List, [], ◌∷◌, ◌==◌, map, arith, includes,
  select, drop, eq_refl, count_where, order_by_desc, count-order_by_desc, count-take-drop,
  count-take, count-drop, count-select, count-update_where, count_mono,
}
use mathlib.Core.List.{Memᴰ}
use fieldserviceit_backend.Auth.{Session}
use fieldserviceit_backend.Auth.Sessions.{
  is_active, last_activity, session_id_of, stale_ids, trim_sessions, revoke,
}

id_listed :
    (test : Session → Bool) (x : Session) (xs : List Session)
    → Memᴰ x xs
    → test x ≡ true
    → includes (map session_id_of (select test xs)) x.id ≡ true
id_listed test x [] m t = elim m [ ]
id_listed test x (y ∷ ys) (Memᴰ.head e) t =
    ground (arith, e, ap test e, ap session_id_of e, eq_refl x.id)
id_listed test x (y ∷ ys) (Memᴰ.tail m) t = ground (arith, id_listed test x ys m t)

kept_of_fresh : (a : Bool) (b : Bool) → (not a ≡ true → b ≡ true) → not b ≡ true → a ≡ true
kept_of_fresh a b stale fresh = ground (arith, stale)

-- After the trimming at most one session more than the limit is active, where one row at most has
-- the id to keep.
pub active-trim_sessions :
    (now : ℕ) (user_id : String) (limit : ℕ) (keep : String) (sessions : List Session)
    → count_where (λ row. row.id == keep) sessions ≤ 1
    → count_where (is_active now user_id) (trim_sessions now user_id limit keep sessions)
      ≤ suc limit
unfolding trim_sessions stale_ids
active-trim_sessions now user_id limit keep sessions unique =
    let rows = order_by_desc last_activity (select (is_active now user_id) sessions) in
    let other = λ (row : Session). not (row.id == keep) in
    let ids = map session_id_of (select other (drop limit rows)) in
    let stale = λ (row : Session). includes ids row.id in
    let fresh = λ (row : Session). not (stale row) in
    let kept = λ (row : Session). row.id == keep in
    let cleared =
      count-update_where (is_active now user_id) stale (revoke now "session-limit") sessions
        (λ x. ground arith) in
    let moved = count-select fresh (is_active now user_id) sessions in
    let sorted =
      count-order_by_desc fresh last_activity (select (is_active now user_id) sessions) in
    let split = count-take-drop fresh limit rows in
    let first = count-take fresh limit rows in
    let beyond =
      count_mono fresh kept (drop limit rows)
        (λ x m f. kept_of_fresh (kept x) (stale x) (id_listed other x (drop limit rows) m) f) in
    let dropped = count-drop kept limit rows in
    let resorted =
      count-order_by_desc kept last_activity (select (is_active now user_id) sessions) in
    let selected = count-select kept (is_active now user_id) sessions in
    let among =
      count_mono (λ x. is_active now user_id x && kept x) kept sessions (λ x m t. ground arith) in
    omega (
      arith, cleared, moved, sorted, split, first, beyond, dropped, resorted, selected, among,
      unique,
    )
