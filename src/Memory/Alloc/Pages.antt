-- ===== src/Memory/Alloc/Pages.antt =====
-- The loop of `malloc_page` on kernel pages.
use oslearn.Base.{
  ℕ, zero, suc, ◌+◌, ◌*◌, ◌/◌, ◌%◌, ◌<◌, ◌≤◌, ◌≡◌, ◌⊎◌, inl, inr, refl, ap, ◌∙◌, Bool, true, false,
  ◌||◌, ◌==◌, ==_of_ne, Bool-cases, some, List, [], ◌∷◌, length, get_or, has, Distinct, u32, Run,
  ok, arith,
}
use oslearn.Bitmap.Bits.{used}
use oslearn.Machine.{Machine, frame_of, walk, pde_addr}
use oslearn.Memory.{Pool, pf_kernel, palloc, pg_size}
use oslearn.Memory.Frames.{IsPool, Takes, palloc-Takes}
use oslearn.Memory.Paging.{page_table_add}
use oslearn.Memory.Paging.Table.{Maps, page_table_add-Maps}
use oslearn.Memory.Alloc.{Space, map_pages}
use oslearn.Memory.Alloc.Free.{free_below, some_free, free_below-Stored}
use oslearn.Memory.Alloc.Tables.{
  HasTables, InKernel, Unmapped, Unmapped-IsFree, Maps-HasTables, Maps-Unmapped, entries_apart,
  kept_table,
}
use oslearn.Memory.Alloc.Page.{IsPlain, entries-IsPlain}

abbrev pub frames : Space → Pool
frames s = s.memory.kernel_pool

abbrev pub frame_bits : Space → ℕ
frame_bits s = (frames s).pool_bitmap.btmp_bytes_len * 8

abbrev pub frame_used : Space → ℕ → Bool
frame_used s i = used (frames s).pool_bitmap i

-- The tables of the kernel are there, and the pool is well formed and begins at a frame.
pub record IsReady (s : Space) : Type 0 where
  pub tables : HasTables s.machine
  pub pool : IsPool (frames s)
  pub aligned : (frames s).phy_addr_start % 4096 ≡ 0
  pub positive : 0 < (frames s).phy_addr_start

-- The pages from `v` on have been mapped to the frames `fs`: these are different, they were free and
-- are taken, and no other frame and no other page of the kernel changes.
pub record Mapped (s s' : Space) (v : ℕ) (fs : List ℕ) : Type 0 where
  pub ready : IsReady s'
  pub start : (frames s').phy_addr_start ≡ (frames s).phy_addr_start
  pub bits : frame_bits s' ≡ frame_bits s
  pub vaddr : s'.memory.kernel_vaddr ≡ s.memory.kernel_vaddr
  pub user : s'.memory.user_pool ≡ s.memory.user_pool
  pub cr3 : s'.machine.cr3 ≡ s.machine.cr3
  pub directory :
      (u : ℕ)
      → InKernel u
      → s'.machine.words (pde_addr s'.machine u) ≡ s.machine.words (pde_addr s.machine u)
  pub words : (b : ℕ) → IsPlain s.machine (frame_of b) → s'.machine.words b ≡ s.machine.words b
  pub distinct : Distinct fs
  pub inside : (i : ℕ) → has i fs ≡ true → i < frame_bits s
  pub was_free : (i : ℕ) → has i fs ≡ true → frame_used s i ≡ false
  pub taken : (i : ℕ) → frame_used s' i ≡ (has i fs || frame_used s i)
  pub mapped :
      (j u : ℕ)
      → j < length fs
      → InKernel u
      → u / 4096 ≡ v / 4096 + j
      → walk s'.machine u ≡ some ((frames s).phy_addr_start + get_or fs j 0 * pg_size + u % 4096)
  pub others :
      (u : ℕ)
      → InKernel u
      → (u / 4096 < v / 4096) ⊎ (v / 4096 + length fs ≤ u / 4096)
      → walk s'.machine u ≡ walk s.machine u

-- One round: frame `i` and a mapped page.
abbrev after_round : Space → Pool → Machine → Space
after_round s pool m = record { memory = record s.memory { kernel_pool = pool }; machine = m }

map_pages_step :
    (n v page : ℕ) (s : Space) (pool : Pool) (m : Machine) (r : Run (Space × Bool))
    → palloc (frames s) ≡ ok (pool, page)
    → (page == 0) ≡ false
    → page_table_add v page pool s.machine ≡ ok (pool, m)
    → u32 (v + pg_size) ≡ v + pg_size
    → map_pages pf_kernel n (v + pg_size) (after_round s pool m) ≡ r
    → map_pages pf_kernel (suc n) v s ≡ r
unfolding map_pages
map_pages_step n v page s pool m r a z t w rest = simp (a, z, t, w, rest)

Mapped-cons :
    (s : Space) (pool : Pool) (m : Machine) (v i n : ℕ) (s' : Space) (fs : List ℕ)
    → IsReady s
    → InKernel v
    → v % 4096 ≡ 0
    → length fs ≡ n
    → v + suc n * 4096 ≤ 0xffc00000
    → Takes (frames s) pool i
    → Maps s.machine m v ((frames s).phy_addr_start + i * pg_size)
    → Mapped (after_round s pool m) s' (v + pg_size) fs
    → Mapped s s' v (i ∷ fs)
Mapped-cons s pool m v i n s' fs w kv al count top takes maps x = record {
  ready = x.ready;
  start = x.start ∙ takes.same_start;
  bits = x.bits ∙ ap (λ t. t * 8) takes.stored.len;
  vaddr = x.vaddr;
  user = x.user;
  cr3 = x.cr3 ∙ maps.cr3;
  directory =
      λ u k. x.directory u k ∙ kept_table v ((frames s).phy_addr_start + i * pg_size) u maps k;
  words = λ b p.
      let frame = (frames s).phy_addr_start + i * pg_size in
      let table : (u : ℕ)
          → InKernel u
          → m.words (pde_addr m u) ≡ s.machine.words (pde_addr s.machine u) =
        λ u k. kept_table v frame u maps k in
      x.words b (entries-IsPlain s.machine m maps.cr3 table (frame_of b) p)
      ∙ maps.words b (λ e. p.tables v kv (omega arith));
  distinct = (fresh, x.distinct);
  inside = λ k h. ground (arith, x.inside k, takes.stored.len, takes.inside);
  was_free = λ k h. ground (arith, x.was_free k, takes.stored.bit k, takes.was_free);
  taken = λ k. ground (arith, x.taken k, takes.stored.bit k);
  mapped = mapped_at;
  others = others_at;
}
  where
    fresh : has i fs ≡ false
    fresh = elim (Bool-cases (has i fs)) [
      | inl e ↦ ground (arith, x.was_free i e, takes.stored.bit i)
      | inr e ↦ e
    ]

    mapped_at :
        (j u : ℕ)
        → j < suc (length fs)
        → InKernel u
        → u / 4096 ≡ v / 4096 + j
        → walk s'.machine u
          ≡ some ((frames s).phy_addr_start + get_or (i ∷ fs) j 0 * pg_size + u % 4096)
    mapped_at zero u lt k e =
        x.others u k (inl (omega arith)) ∙ maps.mapped u (omega arith) (omega arith)
    mapped_at (suc j) u lt k e =
        x.mapped j u (omega arith) k (omega arith)
        ∙ ap (λ t. some (t + get_or fs j 0 * pg_size + u % 4096)) takes.same_start

    others_at :
        (u : ℕ)
        → InKernel u
        → (u / 4096 < v / 4096) ⊎ (v / 4096 + suc (length fs) ≤ u / 4096)
        → walk s'.machine u ≡ walk s.machine u
    others_at u k o =
        x.others u k (elim o [ inl b ↦ inl (omega arith) | inr a ↦ inr (omega arith) ])
        ∙ maps.others u (omega arith) (
            entries_apart u v w.tables k kv
              (λ e. elim o [ inl b ↦ omega arith | inr a ↦ omega arith ]))

-- With `n` frames free, `n` unmapped pages from `v` on in the kernel's addresses get mapped.
pub map_pages-Mapped :
    (n v : ℕ) (s : Space)
    → IsReady s
    → n ≤ free_below (frames s).pool_bitmap (frame_bits s)
    → v % 4096 ≡ 0
    → 0xc0000000 ≤ v
    → v + n * 4096 ≤ 0xffc00000
    → ((u : ℕ) → InKernel u → v / 4096 ≤ u / 4096 → u / 4096 < v / 4096 + n → Unmapped s.machine u)
    → (s' : Space) × (fs : List ℕ) × (map_pages pf_kernel n v s ≡ ok (s', true))
      × (length fs ≡ n)
      × Mapped s s' v fs
unfolding map_pages
map_pages-Mapped zero v s w few al low top un = (
  s,
  [],
  refl,
  refl,
  record {
    ready = w;
    start = refl;
    bits = refl;
    vaddr = refl;
    user = refl;
    cr3 = refl;
    directory = λ u k. refl;
    words = λ b p. refl;
    distinct = tt;
    inside = λ i h. cc;
    was_free = λ i h. cc;
    taken = λ i. refl;
    mapped = λ j u l. absurd (omega arith);
    others = λ u k o. refl;
  },
)
map_pages-Mapped (suc n) v s w few al low top un =
    let (free, lt, unused) = some_free (frames s).pool_bitmap (frame_bits s) (omega arith) in
    let (pool, i, got, w', takes) = palloc-Takes (frames s) free w.pool lt unused in
    let kv : InKernel v = (omega arith, omega arith) in
    let page = (frames s).phy_addr_start + i * pg_size in
    let (m, added, d, maps) =
      page_table_add-Maps s.machine v page pool w.tables.directory (omega arith)
        (Unmapped-IsFree v w.tables kv (un v kv (omega arith) (omega arith)))
        (omega (arith, w.aligned)) in
    let s₁ : Space = after_round s pool m in
    let w₁ : IsReady s₁ = record {
      tables = Maps-HasTables {m' = m} v page w.tables d maps;
      pool = w';
      aligned = ap (λ t. t % 4096) takes.same_start ∙ w.aligned;
      positive = omega (arith, w.positive, takes.same_start);
    } in
    let left : free_below pool.pool_bitmap (frame_bits s) + 1
        ≡ free_below (frames s).pool_bitmap (frame_bits s) =
      free_below-Stored (frames s).pool_bitmap pool.pool_bitmap i (frame_bits s) takes.stored.bit
        takes.was_free takes.inside in
    let same_bits : free_below pool.pool_bitmap (frame_bits s₁)
        ≡ free_below pool.pool_bitmap (frame_bits s) =
      ap (λ t. free_below pool.pool_bitmap (t * 8)) takes.stored.len in
    let (s', fs, r, count, x) =
      map_pages-Mapped n (v + pg_size) s₁ w₁ (omega arith) (omega arith) (omega arith) (omega arith)
        (λ u k a b.
          Maps-Unmapped {m' = m} v page u w.tables maps kv k (λ e. omega arith)
            (un u k (omega arith) (omega arith))) in
    (
      s',
      i ∷ fs,
      map_pages_step n v page s pool m (ok (s', true)) got
          (==_of_ne page 0 (λ e. omega (arith, w.positive))) added (omega arith) r,
      ap suc {x = length fs} count,
      Mapped-cons s pool m v i n s' fs w kv al count top takes maps x,
    )
