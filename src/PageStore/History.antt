-- ===== src/PageStore/History.antt =====
-- A page store over a whole history of writes and restarts (src/backend/core/page_store.rs).
use ant_db.Common.{ℕ, ◌^◌, ◌<◌, ◌≡◌, refl, Option, none, List, [], ◌∷◌, NatMap, length, All, arith}
use ant_db.Errors.{Result, ok}
use ant_db.Pages.Defs.{PageId, Page}
use ant_db.PageStore.Store.{
  RowLocationIndex, Codec, PageStore, initial_state, merge_pages, read_page, load_state,
}
use ant_db.PageStore.Compact.{write_all, write_compact_file}
use ant_db.PageStore.Laws.{IsCodec, IsStorable, PageMap, update_all}
use ant_db.PageStore.Durability.{Stores, read_page-Stores}
use ant_db.PageStore.Merging.{merge_pages-Stores}
use ant_db.PageStore.Rewriting.{write_all-Stores}

pub data StoreStep : Type 0 where
  merge : NatMap Page → RowLocationIndex → StoreStep
  rewrite : NatMap Page → RowLocationIndex → StoreStep
  -- The process ends, and another opens the file.
  restart : StoreStep

-- `PageStore::new`, over the files that are there.
unfoldable pub new_store : Option (List ℕ) → Option (List ℕ) → PageStore
new_store file tmp_file = record { file = file; tmp_file = tmp_file; state = initial_state }

-- What a step does to the pages of the abstract store, and to its row locations: merging no page
-- saves no row location.
abbrev pub step_pages : StoreStep → PageMap → PageMap
step_pages (merge pages rows) m = update_all pages m
step_pages (rewrite pages rows) m = update_all pages (λ _. none)
step_pages restart m = m

abbrev pub step_rows : StoreStep → RowLocationIndex → RowLocationIndex
step_rows (merge [] new_rows) rows = rows
step_rows (merge (u ∷ us) new_rows) rows = new_rows
step_rows (rewrite pages new_rows) rows = new_rows
step_rows restart rows = rows

abbrev pub run_pages : List StoreStep → PageMap → PageMap
run_pages [] m = m
run_pages (step ∷ steps) m = run_pages steps (step_pages step m)

abbrev pub run_rows : List StoreStep → RowLocationIndex → RowLocationIndex
run_rows [] rows = rows
run_rows (step ∷ steps) rows = run_rows steps (step_rows step rows)

module _ (codec : Codec) where
  unfoldable pub store_step : StoreStep → PageStore → PageStore × Result (Unit {0})
  unfolding merge_pages write_all new_store
  store_step (merge pages rows) s = merge_pages codec pages rows s
  store_step (rewrite pages rows) s = write_all codec pages rows s
  store_step restart s = (new_store s.file s.tmp_file, ok tt)

  -- The pages of a step can be stored, and its file stays below 2^64 bytes.
  abbrev pub CanStep : StoreStep → PageStore → Type 0
  CanStep (merge pages rows) s =
      All (λ p. IsStorable codec p.1) pages
      × ((merge_pages codec pages rows s).0.state.append_offset < 2 ^ 64)
  CanStep (rewrite pages rows) s =
      All (λ p. IsStorable codec p.1) pages
      × (length (write_compact_file codec s.tmp_file pages rows).0 < 2 ^ 64)
  CanStep restart s = Unit

  unfoldable pub run_store : List StoreStep → PageStore → PageStore
  unfolding store_step
  run_store [] s = s
  run_store (step ∷ steps) s = run_store steps (store_step step s).0

  abbrev pub CanRun : List StoreStep → PageStore → Type 0
  CanRun [] s = Unit
  CanRun (step ∷ steps) s = CanStep step s × CanRun steps (store_step step s).0

  store_step-Stores :
      (step : StoreStep) (s : PageStore) (m : PageMap) (rows : RowLocationIndex)
      → IsCodec codec
      → Stores codec s m rows
      → CanStep step s
      → Stores codec (store_step step s).0 (step_pages step m) (step_rows step rows)
  unfolding store_step merge_pages new_store
  store_step-Stores (merge [] new_rows) s m rows w holds can = holds
  store_step-Stores (merge (u ∷ us) new_rows) s m rows w holds (storable, fits) =
      (merge_pages-Stores codec u us new_rows rows s m w holds storable fits).1
  store_step-Stores (rewrite pages new_rows) s m rows w holds (storable, fits) =
      (write_all-Stores codec pages new_rows s w storable fits).1
  store_step-Stores restart s m rows w holds can = record {
    loaded_state = holds.loaded_state;
    current = holds.durable;
    durable = holds.durable;
    is_loaded = holds.is_loaded;
    behind_header = holds.behind_header;
    represents = holds.represents;
    same_rows = holds.same_rows;
  }

  -- Over every history of merges, rewrites and restarts that the file has room for, the store holds
  -- the pages and the row locations that the history gives the abstract store.
  pub run_store-Stores :
      (steps : List StoreStep) (s : PageStore) (m : PageMap) (rows : RowLocationIndex)
      → IsCodec codec
      → Stores codec s m rows
      → CanRun steps s
      → Stores codec (run_store steps s) (run_pages steps m) (run_rows steps rows)
  unfolding run_store
  run_store-Stores [] s m rows w holds can = holds
  run_store-Stores (step ∷ steps) s m rows w holds (can, rest) =
      run_store-Stores steps (store_step step s).0 (step_pages step m) (step_rows step rows) w
        (store_step-Stores step s m rows w holds can) rest

  -- A store that starts without a file, or with an empty one, holds no page.
  pub new_store-Stores :
      (tmp_file : Option (List ℕ)) → Stores codec (new_store none tmp_file) (λ _. none) []
  unfolding new_store load_state
  new_store-Stores tmp_file = record {
    loaded_state = _;
    current = refl;
    durable = refl;
    is_loaded = refl;
    behind_header = omega arith;
    represents = λ id. refl;
    same_rows = refl;
  }

  -- If bincode reads back what it writes, then reading a page after any sequence of merges, rewrites and
  -- restarts whose pages can be stored in a file below 2^64 bytes, of a store that started without a
  -- file, gives the page that
  -- the last write under its id has put there since the last rewrite, and nothing if there was none.
  pub read_page-run_store :
      (steps : List StoreStep) (tmp_file : Option (List ℕ)) (id : PageId)
      → IsCodec codec
      → CanRun steps (new_store none tmp_file)
      → (t : PageStore) × (read_page codec id (run_store steps (new_store none tmp_file))
          ≡ ok (run_pages steps (λ _. none) id, t))
  read_page-run_store steps tmp_file id w can =
      let s = new_store none tmp_file in
      let holds = run_store-Stores steps s (λ _. none) [] w (new_store-Stores tmp_file) can in
      let (t, found, _) =
        read_page-Stores codec id (run_store steps s) (run_pages steps (λ _. none))
          (run_rows steps []) holds in
      (t, found)
