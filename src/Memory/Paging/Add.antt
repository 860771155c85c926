-- ===== src/Memory/Paging/Add.antt =====
-- `page_table_add` as a whole where it makes a table.
use oslearn.Base.{ℕ, ◌+◌, ◌*◌, ◌/◌, ◌%◌, ◌^◌, ◌<◌, ◌≡◌, ◌≢◌, ◌∙◌, bit_and, false, ok, arith}
use oslearn.Base.Bits.{bit_and_low}
use oslearn.Bitmap.Bits.{used}
use oslearn.Machine.{Machine, pde_addr, pte_addr, put_word, load, store}
use oslearn.Machine.Walk.{load_at, store_at}
use oslearn.Memory.{Pool, palloc, pg_size}
use oslearn.Memory.Frames.{IsPool, Takes, palloc-Takes}
use oslearn.Memory.Paging.{pte_ptr, pde_ptr, entry_for, clear_words, make_table, page_table_add}
use oslearn.Memory.Paging.SelfMap.{IsDirectory, walk-pde_ptr, walk-pte_ptr}
use oslearn.Memory.Paging.Extend.{
  Extends, with_entry, with_entry-IsDirectory, cleared, table-IsFree, mapped-Extends,
}

make_table_steps :
    (m m₂ m' : Machine) (v frame f p shown q : ℕ) (pool pool' : Pool)
    → load m (pde_ptr v) ≡ ok p
    → bit_and p 1 ≡ 0
    → palloc pool ≡ ok (pool', f)
    → store m (pde_ptr v) (entry_for f) ≡ ok (put_word (pde_addr m v) (entry_for f) m)
    → load (put_word (pde_addr m v) (entry_for f) m) (pde_ptr v) ≡ ok shown
    → clear_words 1024 (bit_and (pte_ptr v) 0xfffff000) (put_word (pde_addr m v) (entry_for f) m)
      ≡ ok m₂
    → load m₂ (pte_ptr v) ≡ ok q
    → bit_and q 1 ≡ 0
    → store m₂ (pte_ptr v) (entry_for frame) ≡ ok m'
    → page_table_add v frame pool m ≡ ok (pool', m')
unfolding page_table_add make_table
make_table_steps m m₂ m' v frame f p shown q pool pool' l b a s₁ l₁ c l₂ b₂ s₂ =
    simp (l, b, a, s₁, l₁, c, l₂, b₂, s₂)

-- Where the table of `v` is not there, and the pool has a free frame but not the directory's among
-- its free ones, `page_table_add` makes an empty table in the lowest free frame of the pool and maps
-- the page of `v` in it. No other page of the 4 MB of `v` is mapped then, and an address outside them
-- whose table is neither the new frame nor the directory goes where it went.
pub page_table_add-Extends :
    (m : Machine) (v frame free : ℕ) (pool : Pool)
    → IsDirectory m
    → v < 2 ^ 32
    → v / 4194304 < 1023
    → m.words (pde_addr m v) % 2 ≡ 0
    → frame % 4096 ≡ 0
    → IsPool pool
    → pool.phy_addr_start % 4096 ≡ 0
    → free < pool.pool_bitmap.btmp_bytes_len * 8
    → used pool.pool_bitmap free ≡ false
    → ((i : ℕ) → used pool.pool_bitmap i ≡ false → pool.phy_addr_start + i * pg_size ≢ m.cr3)
    → (pool' : Pool) × (m' : Machine) × (i : ℕ) × (page_table_add v frame pool m ≡ ok (pool', m'))
      × IsPool pool'
      × Takes pool pool' i
      × IsDirectory m'
      × Extends m m' v frame (pool.phy_addr_start + i * pg_size)
page_table_add-Extends m v frame free pool s h inner absent fa w start_al lt unused cr3_taken =
    let (pool', i, taken, w', takes) = palloc-Takes pool free w lt unused in
    let f = pool.phy_addr_start + i * pg_size in
    let al : f % 4096 ≡ 0 = omega arith in
    let ne : f ≢ m.cr3 = cr3_taken i takes.was_free in
    let (m₂, c, t) = cleared s v f h inner al ne in
    let free₂ = table-IsFree s v f h inner al ne t in
    let (m', st, d, ext) = mapped-Extends s v f h inner al ne t frame fa in
    (
      pool',
      m',
      i,
      make_table_steps m m₂ m' v frame f (m.words (pde_addr m v)) _ (m₂.words (pte_addr m₂ v)) pool
          pool' (load_at m (pde_ptr v) (pde_addr m v) (walk-pde_ptr s v h))
          (bit_and_low 1 (m.words (pde_addr m v)) ∙ absent) taken
          (store_at m (pde_ptr v) (pde_addr m v) (entry_for f) (walk-pde_ptr s v h))
          (load_at (with_entry s v f h inner al ne) (pde_ptr v) (pde_addr m v)
            (walk-pde_ptr (with_entry-IsDirectory s v f h inner al ne) v h))
          c (load_at m₂ (pte_ptr v) (pte_addr m₂ v) (walk-pte_ptr t.directory v h free₂.table))
          (bit_and_low 1 (m₂.words (pte_addr m₂ v)) ∙ free₂.free) st,
      w',
      takes,
      d,
      ext,
    )
