-- ===== src/Store/Queries/Paging.antt =====
-- flowcore/src/store.rs: poll_changes_locked page by page.
use flowcontrol.Common.{
  ℕ, zero, suc, ◌≤◌, ◌<◌, ℤ, pos, negsuc, ◌≡◌, refl, ap, Bool, true, false, ◌&&◌, String, List, [],
  ◌∷◌, ◌++◌, ◌==◌, map, keep_if, take, last?, ltb_ℤ, arith, Bool-cases, inl, inr, if◌then◌else◌,
}
use flowcontrol.Error.{ok}
use flowcontrol.Schema.{EventRow, Db}
use flowcontrol.Sql.{done}
use flowcontrol.Statement.{Conn}
use flowcontrol.Store.Invariant.Log.{IsOrdered, Increasing}
use flowcontrol.Store.Rows.{collect, event_cells, proto_event}
use flowcontrol.Store.Reads.Faithful.{event_message, proto_event-event_cells}
use flowcontrol.Store.Queries.{
  events_since, limited, poll_limit, poll_changes_locked, seq_or, to_events,
}

-- Each number above the one before it.
abbrev Rising : ℕ → List EventRow → Type 0
Rising s [] = Unit
Rising s (e ∷ es) = (s < e.seq) × Rising e.seq es

Increasing-Rising :
    (low : ℕ) (es : List EventRow) (high : ℕ) → Increasing low es high → Rising low es
Increasing-Rising low [] high h = tt
Increasing-Rising low (e ∷ es) high (a, h) = (a, Increasing-Rising e.seq es high h)

-- The cursor that a page leaves.
abbrev reached : ℕ → List EventRow → ℕ
reached s [] = s
reached s (e ∷ es) = reached e.seq es

reached_grows : (s n : ℕ) (es : List EventRow) → Rising s es → s ≤ reached s (take n es)
reached_grows s zero es h = omega arith
reached_grows s (suc n) [] h = omega arith
reached_grows s (suc n) (e ∷ es) (a, h) = omega (arith, a, reached_grows e.seq n es h)

Rising-lower : (s t : ℕ) (es : List EventRow) → s ≤ t → Rising t es → Rising s es
Rising-lower s t [] a h = tt
Rising-lower s t (e ∷ es) a (b, h) = (omega (arith, a, b), h)

later : (s q : ℕ) → s < q → ltb_ℤ (pos s) (pos q) ≡ true
later s q h = ground (arith, h)

-- What a cursor leaves out, a later one leaves out.
still_out :
    (b : Bool) (s r q : ℕ)
    → s ≤ r
    → (b && ltb_ℤ (pos s) (pos q)) ≡ false
    → (b && ltb_ℤ (pos r) (pos q)) ≡ false
still_out true s r q a h = ground (arith, a, h)
still_out false s r q a h = refl

not_newer : (b : Bool) (r q : ℕ) → q ≤ r → (b && ltb_ℤ (pos r) (pos q)) ≡ false
not_newer true r q a = ground (arith, a)
not_newer false r q a = refl

module _ (project : String) where
  abbrev newer : ℕ → EventRow → Bool
  newer s e = e.project_id == project && ltb_ℤ (pos s) (pos e.seq)

  is_newer : (s : ℕ) (e : EventRow) → newer s e ≡ true → s < e.seq
  is_newer s e q = ground (arith, q)

  unfoldable since : ℕ → List EventRow → List EventRow
  since s es = keep_if (newer s) es

  since-in :
      (s : ℕ) (e : EventRow) (es : List EventRow)
      → newer s e ≡ true
      → since s (e ∷ es) ≡ e ∷ since s es
  unfolding since
  since-in s e es q = rw q refl

  since-out :
      (s : ℕ) (e : EventRow) (es : List EventRow)
      → newer s e ≡ false
      → since s (e ∷ es) ≡ since s es
  unfolding since
  since-out s e es q = rw q refl

  since_above : (t s : ℕ) (es : List EventRow) → Rising s es → Rising s (since t es)
  unfolding since
  since_above t s [] h = tt
  since_above t s (e ∷ es) (a, h) = kept (newer t e) (since_above t e.seq es h)
    where
      kept :
          (b : Bool)
          → Rising e.seq (since t es)
          → Rising s (if b then e ∷ since t es else since t es)
      kept true r = (a, r)
      kept false r = Rising-lower s e.seq (since t es) (omega (arith, a)) r

  since-Rising : (s low : ℕ) (es : List EventRow) → Rising low es → Rising s (since s es)
  unfolding since
  since-Rising s low [] h = tt
  since-Rising s low (e ∷ es) (a, h) = elim (Bool-cases (newer s e)) [
    | inl q ↦ rw q (ground (arith, q), since_above s e.seq es h)
    | inr q ↦ rw q (since-Rising s e.seq es h)
  ]

  since_later : (s t : ℕ) (es : List EventRow) → s ≤ t → Rising t es → since s es ≡ since t es
  unfolding since
  since_later s t [] a h = refl
  since_later s t (e ∷ es) a (b, h) =
      rw
        (
          later s e.seq (omega (arith, a, b)),
          later t e.seq b,
          since_later s t es a (Rising-lower t e.seq es (omega (arith, b)) h),
        )
        refl

  nil_page :
      (n s : ℕ) → since s [] ≡ take n (since s []) ++ since (reached s (take n (since s []))) []
  unfolding since
  nil_page zero s = refl
  nil_page (suc n) s = refl

  -- A page, and what is newer than its end.
  since-take :
      (n s low : ℕ) (es : List EventRow)
      → Rising low es
      → since s es ≡ take n (since s es) ++ since (reached s (take n (since s es))) es
  since-take zero s low es h = refl
  since-take (suc n) s low [] h = nil_page (suc n) s
  since-take (suc n) s low (e ∷ es) (a, h) = elim (Bool-cases (newer s e)) [
    | inl q ↦
        let same = since_later s e.seq es (omega (arith, is_newer s e q)) h in
        let r = reached_grows e.seq n (since e.seq es) (since-Rising e.seq e.seq es h) in
        rw
          (
            since-in s e es q,
            same,
            since-out (reached e.seq (take n (since e.seq es))) e es (not_newer _ _ e.seq r),
          )
          (ap (λ l. e ∷ l) (since-take n e.seq e.seq es h))
    | inr q ↦
        let r = reached_grows s (suc n) (since s es) (since-Rising s e.seq es h) in
        rw
          (
            since-out s e es q,
            since-out (reached s (take (suc n) (since s es))) e es (still_out _ s _ e.seq r q),
          )
          (since-take (suc n) s e.seq es h)
  ]

pub collect_events :
    (es : List EventRow) → collect (λ e. proto_event (event_cells e)) es ≡ ok (map event_message es)
unfolding collect
collect_events [] = refl
collect_events (e ∷ es) = rw (proto_event-event_cells e, collect_events es) refl

seq_or-reached :
    (s : ℕ) (es : List EventRow)
    → seq_or (pos s) (last? (map event_message es)) ≡ pos (reached s es)
seq_or-reached s [] = refl
seq_or-reached s (e ∷ []) = refl
seq_or-reached s (e ∷ f ∷ es) = seq_or-reached s (f ∷ es)

-- The limit is a positive number.
poll_limit-pos : (limit : ℤ) → (n : ℕ) × (poll_limit limit ≡ pos n)
unfolding poll_limit
poll_limit-pos (pos n) = elim (Bool-cases (ltb_ℤ (pos 0) (pos n))) [
  | inl q ↦ (n, rw q refl)
  | inr q ↦ (1000, rw q refl)
]
poll_limit-pos (negsuc n) = elim (Bool-cases (ltb_ℤ (pos 0) (negsuc n))) [
  | inl q ↦ absurd (ground (arith, q))
  | inr q ↦ (1000, rw q refl)
]

-- The page of a poll.
abbrev pub page_of : Db → String → ℕ → ℤ → List EventRow
page_of d project after limit = limited (poll_limit limit) (events_since d project (pos after))

-- The cursor of a poll.
abbrev pub cursor_of : Db → String → ℕ → ℤ → ℕ
cursor_of d project after limit = reached after (page_of d project after limit)

-- On an ordered log, poll_changes_locked succeeds and changes nothing. The page that it gives,
-- followed by what is newer than the cursor that it gives, is what is newer than the cursor asked
-- with: nothing is skipped and nothing comes twice.
pub poll_changes_locked_lem :
    (c : Conn) (project : String) (after : ℕ) (limit : ℤ)
    → IsOrdered c.db
    → (poll_changes_locked project (pos after) limit c
        ≡ done
            (record {
              events = map event_message (page_of c.db project after limit);
              seq = pos (cursor_of c.db project after limit);
            })
            c)
      × (events_since c.db project (pos after)
          ≡ page_of c.db project after limit
            ++ events_since c.db project (pos (cursor_of c.db project after limit)))
unfolding poll_changes_locked to_events events_since limited since
poll_changes_locked_lem c project after limit h =
    let (n, e) = poll_limit-pos limit in
    (
      rw
          (
            collect_events (page_of c.db project after limit),
            seq_or-reached after (page_of c.db project after limit),
          )
          refl,
      rw e (
          since-take project n after 0 c.db.events
            (Increasing-Rising 0 c.db.events c.db.last_seq h.log)),
    )
