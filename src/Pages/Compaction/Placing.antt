-- ===== src/Pages/Compaction/Placing.antt =====
-- Placing rows on fresh pages one after another (src/backend/core/table.rs, the loop of `compact`).
use ant_db.Common.{
  ℕ, ◌-◌, ◌<◌, ◌≡◌, refl, ◌≢◌, ap, ◌∙◌, inl, inr, Option, none, some, List, [], ◌∷◌, ltb, ◌==◌,
  if◌then◌else◌, NatMap, lookup, arith, lookup-insert, Bool-cases, Option-cases,
}
use ant_db.Row.Entry.{RowId}
use ant_db.Row.{Row}
use ant_db.Pages.Defs.{PageId, new_page, append_row}
use ant_db.Pages.Insertion.{last_entry, div_ceil}
use ant_db.Pages.Compaction.{
  LiveRow, Packing, empty_packing, alloc_page, extend_chain, put_live, tail_with_room, place_row,
  place_rows,
}
use ant_db.Pages.Compaction.Packed.{
  last_entry-IsAbove, rows_in, packed_row, IsPacked, IsAbove-change_page, lookup-change_page,
  allocated, allocated-IsPacked, rows_in-allocated, extend_chain-rows_in,
}

put_live-IsPacked :
    (id : PageId) (r : LiveRow) (k : Packing)
    → id < k.next
    → lookup id k.pages ≢ none
    → IsPacked k
    → IsPacked (put_live id r k)
unfolding put_live
put_live-IsPacked id r k low held h = record {
  above = IsAbove-change_page id (append_row r.live_id r.live_row r.size) k.pages h.above;
  fresh = λ j low.
      ground (
        arith,
        lookup-change_page id j (append_row r.live_id r.live_row r.size) k.pages,
        h.fresh j,
      );
  issued = λ j i e. ground (arith, lookup-insert r.live_id j id k.locations, h.issued j i);
  there = λ j i e. ground (
    arith,
    lookup-insert r.live_id j id k.locations,
    lookup-change_page id i (append_row r.live_id r.live_row r.size) k.pages,
    h.there j i,
  );
}

packed_row-put_live :
    (id : PageId) (r : LiveRow) (k : Packing) (rows : NatMap Row) (j : RowId)
    → rows_in id k ≡ some rows
    → packed_row j (put_live id r k) ≡ (if r.live_id == j then some r.live_row else packed_row j k)
unfolding put_live append_row
packed_row-put_live id r k rows j e =
    let append = append_row r.live_id r.live_row r.size in
    let located = lookup-insert r.live_id j id k.locations in
    elim (Option-cases (lookup id k.pages)) [
      | inl absent ↦ absurd (ground arith)
      | inr (page, at) ↦ elim (Bool-cases (r.live_id == j)) [
        | inl same ↦ ground (
          arith,
          located,
          lookup-change_page id id append k.pages,
          lookup-insert r.live_id j r.live_row page.rows,
        )
        | inr other ↦ elim (Option-cases (lookup j k.locations)) [
          | inl unknown ↦ ground (arith, located)
          | inr (i, known) ↦ elim (Option-cases (lookup i k.pages)) [
            | inl missing ↦ ground (arith, located, lookup-change_page id i append k.pages)
            | inr (held, f) ↦ ground (
              arith,
              located,
              lookup-change_page id i append k.pages,
              lookup-insert r.live_id j r.live_row held.rows,
            )
          ]
        ]
      ]
    ]

packed_row_congr :
    (j : RowId) (k l : Packing)
    → IsPacked k
    → l.locations ≡ k.locations
    → ((id : PageId) → id < k.next → rows_in id l ≡ rows_in id k)
    → packed_row j l ≡ packed_row j k
packed_row_congr j k l h locs same = elim (Option-cases (lookup j k.locations)) [
  | inl absent ↦ ground (arith, locs)
  | inr (id, e) ↦ ground (arith, locs, e, same id (h.issued j id e))
]

packed_row-allocated :
    (page_size : ℕ) (j : RowId) (k : Packing)
    → IsPacked k
    → packed_row j (allocated page_size k) ≡ packed_row j k
packed_row-allocated page_size j k h =
    packed_row_congr j k (allocated page_size k) h refl
      λ id low. rows_in-allocated page_size id k ∙ ground arith

-- A row goes onto a fresh page.
fresh_row :
    (page_size : ℕ) (r : LiveRow) (k : Packing)
    → IsPacked k
    → IsPacked (put_live k.next r (allocated page_size k))
      × ((j : RowId)
          → packed_row j (put_live k.next r (allocated page_size k))
            ≡ (if r.live_id == j then some r.live_row else packed_row j k))
fresh_row page_size r k h =
    let u = allocated page_size k in
    (
      put_live-IsPacked k.next r u (omega arith)
          (ground (arith, lookup-insert k.next k.next (new_page k.next page_size) k.pages))
          (allocated-IsPacked page_size k h),
      λ j. ground (
        arith,
        packed_row-put_live k.next r u [] j (rows_in-allocated page_size k.next k ∙ ground arith),
        packed_row-allocated page_size j k h,
      ),
    )

tail_with_room-held :
    (size : ℕ) (k : Packing) (id : PageId)
    → IsPacked k
    → tail_with_room size k.pages ≡ some id
    → (rows : NatMap Row) × (rows_in id k ≡ some rows) × (id < k.next)
unfolding tail_with_room
tail_with_room-held size k id h e = elim (Option-cases (last_entry k.pages)) [
  | inl empty ↦ absurd (ground arith)
  | inr ((i, page), last) ↦
      let at : lookup i k.pages ≡ some page = last_entry-IsAbove 0 k.pages (i, page) h.above last in
      let same : i ≡ id = ground arith in
      (page.rows, ground (arith, ap (λ (n : ℕ). lookup n k.pages) same), ground (arith, h.fresh i))
]

-- A row that is placed is found under its id, and no other row changes.
place_row-packed_row :
    (page_size : ℕ) (r : LiveRow) (k : Packing)
    → IsPacked k
    → IsPacked (place_row page_size r k)
      × ((j : RowId)
          → packed_row j (place_row page_size r k)
            ≡ (if r.live_id == j then some r.live_row else packed_row j k))
unfolding place_row alloc_page
place_row-packed_row page_size r k h = elim (Bool-cases (ltb page_size r.size)) [
  | inl oversized ↦
      let u = put_live k.next r (allocated page_size k) in
      let (packed, rows) = fresh_row page_size r k h in
      let extra = div_ceil r.size page_size - 1 in
      let (chained, locs, same) = extend_chain-rows_in page_size extra k.next u packed in
      rw (oversized, place_row)
        (
          chained,
          λ j.
              packed_row_congr j u (extend_chain page_size extra k.next u) packed locs same
              ∙ rows j,
        )
  | inr fits ↦ elim (Option-cases (tail_with_room r.size k.pages)) [
    | inl full ↦ rw (fits, full, place_row) (fresh_row page_size r k h)
    | inr (id, e) ↦
        let (rows, held, low) = tail_with_room-held r.size k id h e in
        rw (fits, e, place_row)
          (
            put_live-IsPacked id r k low (λ e. ground arith) h,
            λ j. packed_row-put_live id r k rows j held,
          )
  ]
]

-- The row that the last entry for an id in a list gives, or else a given one.
abbrev pub row_among : RowId → List LiveRow → Option Row → Option Row
row_among j [] base = base
row_among j (r ∷ rs) base = row_among j rs (if r.live_id == j then some r.live_row else base)

pub place_rows-row_among :
    (page_size : ℕ) (rs : List LiveRow) (k : Packing) (j : RowId)
    → IsPacked k
    → packed_row j (place_rows page_size rs k) ≡ row_among j rs (packed_row j k)
unfolding place_rows
place_rows-row_among page_size [] k j h = refl
place_rows-row_among page_size (r ∷ rs) k j h =
    let (packed, rows) = place_row-packed_row page_size r k h in
    place_rows-row_among page_size rs (place_row page_size r k) j packed
    ∙ ap (row_among j rs) (rows j)

pub place_rows-IsPacked :
    (page_size : ℕ) (rs : List LiveRow) (k : Packing)
    → IsPacked k
    → IsPacked (place_rows page_size rs k)
unfolding place_rows
place_rows-IsPacked page_size [] k h = h
place_rows-IsPacked page_size (r ∷ rs) k h =
    place_rows-IsPacked page_size rs (place_row page_size r k)
      (place_row-packed_row page_size r k h).0

pub empty-IsPacked : IsPacked empty_packing
empty-IsPacked = record {
  above = tt;
  fresh = λ id low. refl;
  issued = λ j id e. absurd (cc);
  there = λ j id e. absurd (cc);
}
