-- ===== src/Store/Queries/Listing.antt =====
-- flowcore/src/store.rs: list_events_locked, which asks for one row more than its page holds.
use flowcontrol.Common.{
  ℕ, zero, suc, ◌≤◌, ◌<◌, ℤ, pos, ◌≡◌, refl, ap, String, List, [], ◌∷◌, map, take, length, ltb,
  ◌+ℤ◌, wrap_i32, arith,
}
use mathlib.Core.List.{reverse}
use flowcontrol.Schema.{EventRow, Db}
use flowcontrol.Sql.{done}
use flowcontrol.Statement.{Conn}
use flowcontrol.Store.Reads.Faithful.{event_message}
use flowcontrol.Store.Queries.Paging.{collect_events}
use flowcontrol.Store.Queries.{
  events_before, limited, to_events, list_events_locked, max_1, more_than,
}

-- A number below 2^31 is itself as an i32.
wrap_i32-small : (n : ℕ) → n < 2147483648 → wrap_i32 (pos n) ≡ pos n
unfolding wrap_i32
wrap_i32-small n h = ground (arith, h)

one_more : (n : ℕ) → (pos n +ℤ pos 1) ≡ pos (suc n)
unfolding ◌+ℤ◌
one_more n = ground arith

max_1-pos : (n : ℕ) → 1 ≤ n → max_1 (pos n) ≡ pos n
max_1-pos n h = ground (arith, h)

take-map-take :
    (n : ℕ) (rows : List EventRow)
    → take n (map event_message (take (suc n) rows)) ≡ map event_message (take n rows)
take-map-take zero [] = refl
take-map-take zero (e ∷ rows) = refl
take-map-take (suc n) [] = refl
take-map-take (suc n) (e ∷ rows) = ap (λ l. event_message e ∷ l) (take-map-take n rows)

length-map-take-le : (n : ℕ) (rows : List EventRow) → length (map event_message (take n rows)) ≤ n
length-map-take-le zero rows = omega arith
length-map-take-le (suc n) [] = omega arith
length-map-take-le (suc n) (e ∷ rows) = omega (arith, length-map-take-le n rows)

-- One row more than the page tells whether there are more.
ltb-length-take :
    (n : ℕ) (rows : List EventRow)
    → ltb n (length (map event_message (take (suc n) rows))) ≡ ltb n (length rows)
ltb-length-take n [] = refl
ltb-length-take zero (e ∷ rows) = ground arith
ltb-length-take (suc n) (e ∷ rows) = ground (arith, ltb-length-take n rows)

more_than_lem :
    (n : ℕ) (rows : List EventRow)
    → n < 2147483647
    → more_than (pos n) (map event_message (take (suc n) rows)) ≡ ltb n (length rows)
more_than_lem n rows h =
    rw
      (wrap_i32-small (length (map event_message (take (suc n) rows)))
        (omega (arith, h, length-map-take-le (suc n) rows)))
      (ground (arith, ltb-length-take n rows))

-- What a listing is about: the events of a project, of one node of it where one is named, before a
-- number where one is given, newest first.
abbrev pub newest : Db → String → String → ℤ → List EventRow
newest d project node before = reverse (events_before d project node before)

-- For a limit that is positive and below the greatest i32, list_events_locked succeeds and changes
-- nothing: it gives that many of the newest events, and tells whether there are more.
pub list_events_locked_lem :
    (c : Conn) (project node : String) (before : ℤ) (n : ℕ)
    → 1 ≤ n
    → n < 2147483647
    → list_events_locked project node before (pos n) c
      ≡ done
          (
            map event_message (take n (newest c.db project node before)),
            ltb n (length (newest c.db project node before)),
          )
          c
unfolding list_events_locked to_events limited
list_events_locked_lem c project node before n h k =
    let rows = newest c.db project node before in
    rw
      (
        max_1-pos n h,
        one_more n,
        wrap_i32-small (suc n) (omega (arith, k)),
        collect_events (take (suc n) rows),
        take-map-take n rows,
        more_than_lem n rows k,
      )
      refl
