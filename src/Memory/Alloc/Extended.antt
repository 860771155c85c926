-- ===== src/Memory/Alloc/Extended.antt =====
-- A page of the kernel where `page_table_add` has made a table for a user's address.
use oslearn.Base.{ℕ, ◌%◌, ◌<◌, ◌≡◌, ap, sym, ◌∙◌, arith}
use oslearn.Machine.{Machine, frame_of, pde_addr}
use oslearn.Memory.Paging.SelfMap.{IsDirectory}
use oslearn.Memory.Paging.Extend.{Extends}
use oslearn.Memory.Alloc.Tables.{HasTables, InKernel}
use oslearn.Memory.Alloc.Page.{IsPlain, Shows}

module _ {m m' : Machine} {v frame table : ℕ} (t : HasTables m) (x : Extends m m' v frame table)
    (d : IsDirectory m') (user : v < 0xc0000000) (p : IsPlain m table) where
  same_entry : (u : ℕ) → InKernel u → m'.words (pde_addr m' u) ≡ m.words (pde_addr m u)
  same_entry u k = ap m'.words (omega (arith, x.cr3)) ∙ x.entries u (omega arith) (λ e. omega arith)

  Extends-HasTables : HasTables m'
  Extends-HasTables = record {
    directory = d;
    table = λ u k. ap (λ w. w % 2) (same_entry u k) ∙ t.table u k;
    apart = λ u k e. t.apart u k (ap frame_of (sym (same_entry u k)) ∙ e ∙ x.cr3);
    own = λ u w ku kw ne e.
        t.own u w ku kw ne
          (ap frame_of (sym (same_entry u ku)) ∙ e ∙ ap frame_of (same_entry w kw));
  }

  -- The page shows its frame as before.
  pub Extends-Shows : {a f : ℕ} → Shows m a f → Shows m' a f
  Extends-Shows {a} {f} s = record {
    tables = Extends-HasTables;
    plain = record {
      aligned = s.plain.aligned;
      directory = λ e. s.plain.directory (e ∙ x.cr3);
      tables = λ u k e. s.plain.tables u k (e ∙ ap frame_of (same_entry u k));
    };
    kernel = s.kernel;
    page = s.page;
    shown =
        x.elsewhere a (omega (arith, s.kernel)) (λ e. omega (arith, s.kernel))
          (λ e. p.tables a s.kernel (sym e)) (t.apart a s.kernel)
        ∙ s.shown;
  }
