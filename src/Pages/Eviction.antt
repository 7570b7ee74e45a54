-- ===== src/Pages/Eviction.antt =====
-- Moving pages between memory and the page file (src/backend/core/table.rs) loses nothing.
use ant_db.Common.{
  ℕ, zero, suc, ◌≤◌, ◌<◌, ◌≡◌, refl, ◌≢◌, ◌⊎◌, inl, inr, true, false, Option, none, some, List, [],
  ◌∷◌, leb, ◌==◌, ==_iff, NatMap, lookup, erase, keys, contains, arith, lookup-insert, lookup-erase,
  contains-insert_key, length, ◌∙◌, Bool-cases, Option-cases,
}
use ant_db.Pages.Defs.{PageId, Page, Sizes}
use ant_db.Pages.{Space, is_pinned, pick_lru_victim, evict_page, evict_loop, maybe_evict_pages}

-- The page that the table holds under an id, in memory or else in the page file.
abbrev pub content : PageId → Space → Option Page
content id t = elim (lookup id t.row_space) [
  | some page ↦ some page
  | none ↦ lookup id t.page_store
]

-- A page in memory that is clean and listed as being on disk is on disk as it is in memory.
abbrev pub IsSynced : Space → Type 0
IsSynced t =
    (id : PageId) (page : Page)
    → lookup id t.row_space ≡ some page
    → page.is_dirty ≡ false
    → contains id t.on_disk_pages ≡ true
    → lookup id t.page_store ≡ some page

module _ (sizes : Sizes) where
  evict_page-content :
      (v id : PageId) (t : Space) → IsSynced t → content id (evict_page sizes v t) ≡ content id t
  unfolding evict_page
  evict_page-content v id t w = elim (Option-cases (lookup v t.row_space)) [
    | inl absent ↦ ground arith
    | inr (page, e) ↦
        ground
          (arith, w v page e, lookup-erase v id t.row_space, lookup-insert v id page t.page_store)
  ]

  evict_page-IsSynced : (v : PageId) (t : Space) → IsSynced t → IsSynced (evict_page sizes v t)
  unfolding evict_page
  evict_page-IsSynced v t w id page r clean disk = elim (Option-cases (lookup v t.row_space)) [
    | inl absent ↦ ground (arith, w id page)
    | inr (gone, e) ↦ ground (
      arith,
      w id page,
      lookup-erase v id t.row_space,
      lookup-insert v id gone t.page_store,
      contains-insert_key v id t.on_disk_pages,
    )
  ]

  pick-mem :
      (lru : NatMap ℕ) (pinned : Option PageId) (m : NatMap Page) (v : PageId × ℕ)
      → pick_lru_victim lru pinned (keys m) ≡ some v
      → (is_pinned pinned v.0 ≡ false) × (contains v.0 (keys m) ≡ true)
  unfolding pick_lru_victim
  pick-mem lru pinned [] v h = absurd (cc)
  pick-mem lru pinned ((id, page) ∷ m) v h = elim (Option-cases (lookup id lru)) [
    | inl absent ↦ ground (arith, pick-mem lru pinned m v)
    | inr (seq, e) ↦ elim (Option-cases (pick_lru_victim lru pinned (keys m))) [
      | inl last ↦ ground arith
      | inr (w, f) ↦ ground (arith, pick-mem lru pinned m w, pick-mem lru pinned m v)
    ]
  ]

  length-erase-le : (k : ℕ) (m : NatMap Page) → length (erase k m) ≤ length m
  length-erase-le k [] = omega arith
  length-erase-le k ((j, v) ∷ m) = ground (arith, length-erase-le k m)

  length-erase-lt :
      (k : ℕ) (m : NatMap Page) → contains k (keys m) ≡ true → length (erase k m) < length m
  length-erase-lt k [] h = absurd (cc)
  length-erase-lt k ((j, v) ∷ m) h = ground (arith, length-erase-lt k m, length-erase-le k m)

  lookup_of_contains : (k : ℕ) (m : NatMap Page) → contains k (keys m) ≡ true → lookup k m ≢ none
  lookup_of_contains k [] h = absurd (cc)
  lookup_of_contains k ((j, v) ∷ m) h = ground (arith, lookup_of_contains k m)

  evict_page-length :
      (v : PageId) (t : Space)
      → contains v (keys t.row_space) ≡ true
      → length (evict_page sizes v t).row_space < length t.row_space
  unfolding evict_page
  evict_page-length v t h =
      ground (arith, lookup_of_contains v t.row_space h, length-erase-lt v t.row_space h)

  evict_page-limit : (v : PageId) (t : Space) → (evict_page sizes v t).memory_limit ≡ t.memory_limit
  unfolding evict_page
  evict_page-limit v t = ground arith

  evict_page-other :
      (v id : PageId) (t : Space)
      → v ≢ id
      → lookup id (evict_page sizes v t).row_space ≡ lookup id t.row_space
  unfolding evict_page
  evict_page-other v id t ne = ground (arith, lookup-erase v id t.row_space)

  evict_page-locations :
      (v : PageId) (t : Space) → (evict_page sizes v t).row_locations ≡ t.row_locations
  unfolding evict_page
  evict_page-locations v t = ground arith

  -- What the eviction loop keeps.
  pub record Keeps (pinned : Option PageId) (t u : Space) : Type 0 where
    pub synced : IsSynced u
    pub same_content : (id : PageId) → content id u ≡ content id t
    pub same_pinned :
        (id : PageId) → pinned ≡ some id → lookup id u.row_space ≡ lookup id t.row_space
    pub same_locations : u.row_locations ≡ t.row_locations

  -- A page that must stay in memory: the pinned one, and one whose last use is not recorded.
  abbrev pub MustStay : Option PageId → Space → PageId → Type 0
  MustStay pinned u id = (pinned ≡ some id) ⊎ (lookup id u.lru ≡ none)

  -- Memory is within the limit, or every page in memory must stay there.
  abbrev pub IsSettled : Option PageId → Space → Type 0
  IsSettled pinned u =
      (u.memory_used ≤ u.memory_limit)
      ⊎ ((id : PageId) → contains id (keys u.row_space) ≡ true → MustStay pinned u id)

  is_pinned-some :
      (pinned : Option PageId) (id : PageId) → is_pinned pinned id ≡ true → pinned ≡ some id
  is_pinned-some none id h = absurd (cc)
  is_pinned-some (some i) id h = ground arith

  no_victim_tail :
      (lru : NatMap ℕ) (pinned : Option PageId) (i : PageId) (ids : List PageId)
      → pick_lru_victim lru pinned (i ∷ ids) ≡ none
      → pick_lru_victim lru pinned ids ≡ none
  unfolding pick_lru_victim
  no_victim_tail lru pinned i ids h = elim (Option-cases (lookup i lru)) [
    | inl unused ↦ ground arith
    | inr (seq, e) ↦ ground arith
  ]

  -- Where no victim is found, no page but the pinned one has a use on record.
  no_victim :
      (lru : NatMap ℕ) (pinned : Option PageId) (ids : List PageId)
      → pick_lru_victim lru pinned ids ≡ none
      → (id : PageId) → contains id ids ≡ true
      → (pinned ≡ some id) ⊎ (lookup id lru ≡ none)
  unfolding pick_lru_victim
  no_victim lru pinned [] h id c = absurd (cc)
  no_victim lru pinned (i ∷ ids) h id c = elim (Bool-cases (i == id)) [
    | inr other ↦ no_victim lru pinned ids (no_victim_tail lru pinned i ids h) id (ground arith)
    | inl same ↦ elim (Bool-cases (is_pinned pinned id)) [
      | inl kept ↦ inl (is_pinned-some pinned id kept)
      | inr loose ↦ elim (Option-cases (lookup id lru)) [
        | inl unused ↦ inr unused
        | inr (seq, e) ↦ absurd (ground arith)
      ]
    ]
  ]

  evict_loop-Keeps :
      (fuel : ℕ) (pinned : Option PageId) (t : Space)
      → IsSynced t
      → Keeps pinned t (evict_loop sizes fuel pinned t)
  unfolding evict_loop
  evict_loop-Keeps zero pinned t w = record {
    synced = w;
    same_content = λ id. refl;
    same_pinned = λ id e. refl;
    same_locations = refl;
  }
  evict_loop-Keeps (suc fuel) pinned t w = elim (Bool-cases (leb t.memory_used t.memory_limit)) [
    | inl fits ↦
        rw (fits, evict_loop)
          (record {
            synced = w;
            same_content = λ id. refl;
            same_pinned = λ id e. refl;
            same_locations = refl;
          })
    | inr over ↦ elim (Option-cases (pick_lru_victim t.lru pinned (keys t.row_space))) [
      | inl last ↦
          rw (over, last, evict_loop)
            (record {
              synced = w;
              same_content = λ id. refl;
              same_pinned = λ id e. refl;
              same_locations = refl;
            })
      | inr (v, e) ↦
          let k =
            evict_loop-Keeps fuel pinned (evict_page sizes v.0 t) (evict_page-IsSynced v.0 t w) in
          rw (over, e, evict_loop)
            (record {
              synced = k.synced;
              same_content = λ id. k.same_content id ∙ evict_page-content v.0 id t w;
              same_pinned = λ id p.
                  k.same_pinned id p
                  ∙ evict_page-other v.0 id t
                      (ground (arith, pick-mem t.lru pinned t.row_space v e));
              same_locations = k.same_locations ∙ evict_page-locations v.0 t;
            })
    ]
  ]

  evict_loop-IsSettled :
      (fuel : ℕ) (pinned : Option PageId) (t : Space)
      → length t.row_space < fuel
      → IsSettled pinned (evict_loop sizes fuel pinned t)
  unfolding evict_loop
  evict_loop-IsSettled zero pinned t h = absurd (omega arith)
  evict_loop-IsSettled (suc fuel) pinned t h =
      elim (Bool-cases (leb t.memory_used t.memory_limit)) [
        | inl fits ↦ rw (fits, evict_loop) (inl (ground arith))
        | inr over ↦ elim (Option-cases (pick_lru_victim t.lru pinned (keys t.row_space))) [
          | inl last ↦
              rw (over, last, evict_loop) (inr (no_victim t.lru pinned (keys t.row_space) last))
          | inr (v, e) ↦
              rw (over, e, evict_loop)
                (evict_loop-IsSettled fuel pinned (evict_page sizes v.0 t) (
                  omega (arith, evict_page-length v.0 t (pick-mem t.lru pinned t.row_space v e).1)))
        ]
      ]

  -- Evicting pages loses nothing, if clean pages in memory that are listed as on disk are on disk
  -- unchanged: every id has the content that it had, the page that is pinned stays
  -- in memory, and memory and page file stay in step.
  pub maybe_evict_pages-Keeps :
      (pinned : Option PageId) (t : Space)
      → IsSynced t
      → Keeps pinned t (maybe_evict_pages sizes pinned t)
  unfolding maybe_evict_pages
  maybe_evict_pages-Keeps pinned t w = elim (Bool-cases (t.memory_limit == 0)) [
    | inl off ↦
        rw (off, maybe_evict_pages)
          (record {
            synced = w;
            same_content = λ id. refl;
            same_pinned = λ id e. refl;
            same_locations = refl;
          })
    | inr limited ↦
        rw (limited, maybe_evict_pages) (evict_loop-Keeps (suc (length t.row_space)) pinned t w)
  ]

  -- Under a limit that is not zero the eviction goes on until memory is within the limit, or the only
  -- pages left in memory are the pinned one and pages whose last use is not recorded.
  pub maybe_evict_pages-IsSettled :
      (pinned : Option PageId) (t : Space)
      → t.memory_limit ≢ 0
      → IsSettled pinned (maybe_evict_pages sizes pinned t)
  unfolding maybe_evict_pages
  maybe_evict_pages-IsSettled pinned t limited = elim (Bool-cases (t.memory_limit == 0)) [
    | inl off ↦ absurd (limited ((==_iff t.memory_limit 0).0 off))
    | inr on ↦
        rw (on, maybe_evict_pages)
          (evict_loop-IsSettled (suc (length t.row_space)) pinned t (omega arith))
  ]
