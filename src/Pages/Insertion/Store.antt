-- ===== src/Pages/Insertion/Store.antt =====
-- A stored row is found again (src/backend/core/table.rs), with eviction switched off.
use ant_db.Common.{
  ℕ, ◌+◌, ◌-◌, ◌<◌, ◌≡◌, refl, ◌≢◌, ◌⊎◌, inl, inr, none, some, [], ltb, ◌==◌, if◌then◌else◌, NatMap,
  lookup, insert, arith, lookup-insert, Bool-cases, Option-cases, ◌∙◌,
}
use ant_db.Row.Entry.{RowId}
use ant_db.Row.{Row}
use ant_db.Pages.Defs.{PageId, Sizes, new_page, append_row, u64_mod}
use ant_db.Pages.{Space, fetch_add}
use ant_db.Pages.Rows.{row_at}
use ant_db.Pages.Insertion.{
  last_entry, write_through, div_ceil, register_page, try_append_to_tail_page, insert_row_into_page,
  chain_pages, insert_overflow_row, store_row,
}
use ant_db.Pages.Insertion.Registration.{
  IsAscending, rows_on, lookup-last_entry, rows_on-register_page, register_page-fields,
  write_through-fields, chain_pages-rows_on,
}

-- The ids in use are below the next one, and the pages in memory stand in the order of their ids.
pub record IsNumbered (t : Space) : Type 0 where
  pub ascending : IsAscending t.row_space
  pub located_issued :
      (row_id : RowId) (id : PageId) → lookup row_id t.row_locations ≡ some id → id < t.next_page_id

-- What both ways of storing a row achieve: the row is on the page that is returned, with the rows
-- that were there before if the page is not new, and every other old page keeps its rows.
record IsStored (row_id : RowId) (row : Row) (t : Space) (id : PageId) (u : Space) : Type 0 where
  base : NatMap Row
  placed : rows_on id u ≡ some (insert row_id row base)
  origin : (rows_on id t ≡ some base) ⊎ (id ≡ t.next_page_id)
  others : (k : PageId) → k < t.next_page_id → k ≢ id → rows_on k u ≡ rows_on k t
  locations : u.row_locations ≡ t.row_locations

row_at_of_IsStored :
    (row_id : RowId) (row : Row) (t : Space) (id : PageId) (u : Space)
    → IsNumbered t
    → IsStored row_id row t id u
    → (j : RowId)
    → row_at j (record u { row_locations = insert row_id id u.row_locations })
      ≡ (if row_id == j then some row else row_at j t)
unfolding row_at
row_at_of_IsStored row_id row t id u n st j = elim (Bool-cases (row_id == j)) [
  | inl same ↦ ground (
    arith,
    lookup-insert row_id j id u.row_locations,
    lookup-insert row_id j row st.base,
    st.placed,
  )
  | inr other ↦ elim (Option-cases (lookup j t.row_locations)) [
    | inl absent ↦ ground (arith, lookup-insert row_id j id u.row_locations, st.locations)
    | inr (k, e) ↦ ground (
      arith,
      lookup-insert row_id j id u.row_locations,
      lookup-insert row_id j row st.base,
      st.placed,
      st.locations,
      st.origin,
      st.others k,
      n.located_issued j k e,
    )
  ]
]

module _ (sizes : Sizes) (row_id : RowId) (row : Row) (size : ℕ) where
  -- A fresh page, written through at once.
  fresh_page : Space → Space
  unfolding register_page
  fresh_page t = write_through t.next_page_id (append_row row_id row size) (register_page sizes t).1

  fresh_page-IsStored :
      (t : Space) → t.memory_limit ≡ 0 → IsStored row_id row t t.next_page_id (fresh_page t)
  unfolding fresh_page write_through append_row new_page
  fresh_page-IsStored t off =
      let u = (register_page sizes t).1 in
      let f = register_page-fields sizes t off in
      record {
        base = [];
        placed = ground (
          arith,
          f.3,
          lookup-insert t.next_page_id t.next_page_id
              (append_row row_id row size (new_page t.next_page_id t.page_size)) u.row_space,
        );
        origin = inr refl;
        others = λ k low ne. ground (
          arith,
          f.3,
          rows_on-register_page sizes k t off,
          lookup-insert t.next_page_id k
              (append_row row_id row size (new_page t.next_page_id t.page_size)) u.row_space,
        );
        locations = ground (arith, f.3, f.0);
      }

  tail_page-IsStored :
      (t : Space) (id : PageId) (u : Space)
      → IsNumbered t
      → try_append_to_tail_page sizes row_id row size t ≡ some (id, u)
      → IsStored row_id row t id u
  unfolding try_append_to_tail_page append_row
  tail_page-IsStored t id u n h = elim (Option-cases (last_entry t.row_space)) [
    | inl absent ↦ absurd (ground arith)
    | inr (e, last) ↦
        let found = lookup-last_entry t.row_space e n.ascending last in
        record {
          base = e.1.rows;
          placed =
              ground (arith, lookup-insert e.0 id (append_row row_id row size e.1) t.row_space);
          origin = inl (ground arith);
          others = λ k low ne.
              ground (arith, lookup-insert e.0 k (append_row row_id row size e.1) t.row_space);
          locations = ground arith;
        }
  ]

  insert_row_into_page-fresh :
      (t : Space)
      → try_append_to_tail_page sizes row_id row size t ≡ none
      → insert_row_into_page sizes row_id row size t ≡ (t.next_page_id, fresh_page t)
  unfolding insert_row_into_page fresh_page
  insert_row_into_page-fresh t full = ground (arith, full)

  insert_row_into_page-tail :
      (t : Space) (e : PageId × Space)
      → try_append_to_tail_page sizes row_id row size t ≡ some e
      → insert_row_into_page sizes row_id row size t ≡ e
  unfolding insert_row_into_page
  insert_row_into_page-tail t e done = ground (arith, done)

  insert_row_into_page-IsStored :
      (t : Space)
      → t.memory_limit ≡ 0
      → IsNumbered t
      → let (id, u) = insert_row_into_page sizes row_id row size t in IsStored row_id row t id u
  insert_row_into_page-IsStored t off n =
      elim (Option-cases (try_append_to_tail_page sizes row_id row size t)) [
        | inl full ↦ rw (insert_row_into_page-fresh t full) (fresh_page-IsStored t off)
        | inr (e, done) ↦
            rw (insert_row_into_page-tail t e done) (tail_page-IsStored t e.0 e.1 n done)
      ]

  fresh_page-fields :
      (t : Space)
      → t.memory_limit ≡ 0
      → ((fresh_page t).memory_limit ≡ 0)
        × ((fresh_page t).next_page_id ≡ fetch_add t.next_page_id 1)
  unfolding fresh_page
  fresh_page-fields t off =
      let f = register_page-fields sizes t off in
      let g =
        write_through-fields sizes t.next_page_id (append_row row_id row size)
          (register_page sizes t).1 in
      (g.1 ∙ f.1, g.2 ∙ f.2)

  insert_overflow_row-chain :
      (t : Space)
      → insert_overflow_row sizes row_id row size t ≡ (
        t.next_page_id,
        chain_pages sizes (div_ceil size t.page_size - 1) t.next_page_id (fresh_page t),
      )
  unfolding insert_overflow_row fresh_page
  insert_overflow_row-chain t = refl

  overflow_chain-IsStored :
      (t : Space)
      → t.memory_limit ≡ 0
      → t.next_page_id + div_ceil size t.page_size + 1 < u64_mod
      → IsStored row_id row t t.next_page_id
          (chain_pages sizes (div_ceil size t.page_size - 1) t.next_page_id (fresh_page t))
  overflow_chain-IsStored t off room =
      let st = fresh_page-IsStored t off in
      let v = fresh_page t in
      let f = fresh_page-fields t off in
      let next : v.next_page_id ≡ t.next_page_id + 1 = omega (arith, f.1) in
      let extra = div_ceil size t.page_size - 1 in
      let chain = λ (k : PageId) (low : k < v.next_page_id).
        chain_pages-rows_on sizes extra t.next_page_id k v f.0 (omega arith) low in
      record {
        base = st.base;
        placed = (chain t.next_page_id (omega arith)).0 ∙ st.placed;
        origin = st.origin;
        others = λ k low ne. (chain k (omega arith)).0 ∙ st.others k low ne;
        locations = (chain t.next_page_id (omega arith)).1 ∙ st.locations;
      }

  insert_overflow_row-IsStored :
      (t : Space)
      → t.memory_limit ≡ 0
      → t.next_page_id + div_ceil size t.page_size + 1 < u64_mod
      → let (id, u) = insert_overflow_row sizes row_id row size t in IsStored row_id row t id u
  insert_overflow_row-IsStored t off room =
      rw (insert_overflow_row-chain t) (overflow_chain-IsStored t off room)

-- A stored row, small or oversized, is found under its id, and every other row is found as before.
-- (Eviction is off, the pages are in the order of their ids, all ids in use were issued, and page ids
-- do not run out.)
pub row_at-store_row :
    (sizes : Sizes) (row_id : RowId) (row : Row) (t : Space)
    → t.memory_limit ≡ 0
    → IsNumbered t
    → t.next_page_id + div_ceil (sizes.row_bytes row) t.page_size + 1 < u64_mod
    → (j : RowId)
    → row_at j (store_row sizes row_id row t) ≡ (if row_id == j then some row else row_at j t)
unfolding store_row
row_at-store_row sizes row_id row t off n room j =
    elim (Bool-cases (ltb t.page_size (sizes.row_bytes row))) [
      | inl oversized ↦
          let (id, u) = insert_overflow_row sizes row_id row (sizes.row_bytes row) t in
          rw oversized (
            row_at_of_IsStored row_id row t id u n
              (insert_overflow_row-IsStored sizes row_id row (sizes.row_bytes row) t off room) j)
      | inr regular ↦
          let (id, u) = insert_row_into_page sizes row_id row (sizes.row_bytes row) t in
          rw regular (
            row_at_of_IsStored row_id row t id u n
              (insert_row_into_page-IsStored sizes row_id row (sizes.row_bytes row) t off n) j)
    ]
