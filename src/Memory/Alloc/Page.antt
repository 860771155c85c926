-- ===== src/Memory/Alloc/Page.antt =====
-- Writing to a page of the kernel whose frame holds none of its tables.
use oslearn.Base.{
  ℕ, ◌+◌, ◌*◌, ◌%◌, ◌^◌, ◌<◌, ◌≡◌, ◌≢◌, refl, ap, sym, subst, ◌∙◌, some, ==_of_ne, arith,
}
use oslearn.Machine.{Machine, frame_of, pde_addr, pte_addr, walk, put_word}
use oslearn.Machine.Walk.{walk_mapped, walk_same, walk-some}
use oslearn.Memory.Alloc.Tables.{HasTables, InKernel, Unmapped}

-- The frame is neither the directory nor a table of the kernel.
pub record IsPlain (m : Machine) (f : ℕ) : Type 0 where
  pub aligned : f % 4096 ≡ 0
  pub directory : f ≢ m.cr3
  pub tables : (u : ℕ) → InKernel u → f ≢ frame_of (m.words (pde_addr m u))

-- Only plain frames have changed.
pub record Keeps (m m' : Machine) : Type 0 where
  pub cr3 : m'.cr3 ≡ m.cr3
  pub outside : (b : ℕ) → ¬ (IsPlain m (frame_of b)) → m'.words b ≡ m.words b

module _ {m m' : Machine} (t : HasTables m) (d : Keeps m m') where
  pub same_directory : (u : ℕ) → u < 2 ^ 32 → m'.words (pde_addr m u) ≡ m.words (pde_addr m u)
  same_directory u k =
      d.outside (pde_addr m u) (λ p. p.directory (omega (arith, t.directory.aligned)))

  pub same_table : (u : ℕ) → InKernel u → m'.words (pde_addr m' u) ≡ m.words (pde_addr m u)
  same_table u k = ap m'.words (omega (arith, d.cr3)) ∙ same_directory u (omega arith)

  same_entry : (u : ℕ) → InKernel u → m'.words (pte_addr m u) ≡ m.words (pte_addr m u)
  same_entry u k = d.outside (pte_addr m u) (λ p. p.tables u k (omega arith))

  pub same_walk : (u : ℕ) → InKernel u → walk m' u ≡ walk m u
  same_walk u k = walk_same m m' u d.cr3 (same_directory u (omega arith)) (same_entry u k)

  pub Keeps-Unmapped : (u : ℕ) → InKernel u → Unmapped m u → Unmapped m' u
  Keeps-Unmapped u k e =
      let q = same_table u k in
      ap (λ a. m'.words a % 2) (omega arith) ∙ ap (λ w. w % 2) (same_entry u k) ∙ e

  pub Keeps-IsPlain : (f : ℕ) → IsPlain m f → IsPlain m' f
  Keeps-IsPlain f p = record {
    aligned = p.aligned;
    directory = λ e. p.directory (e ∙ d.cr3);
    tables = λ u k e. p.tables u k (e ∙ ap frame_of (same_table u k));
  }

  pub was-IsPlain : (f : ℕ) → IsPlain m' f → IsPlain m f
  was-IsPlain f p = record {
    aligned = p.aligned;
    directory = λ e. p.directory (e ∙ sym d.cr3);
    tables = λ u k e. p.tables u k (e ∙ ap frame_of (sym (same_table u k)));
  }

  pub Keeps-HasTables : HasTables m'
  Keeps-HasTables =
      let kept : m'.words (m'.cr3 + 4092) ≡ m.words (m.cr3 + 4092) =
        ap m'.words (omega (arith, d.cr3))
        ∙ d.outside (m.cr3 + 4092) (λ p. p.directory (omega (arith, t.directory.aligned))) in
      record {
        directory = record {
          aligned = ap (λ c. c % 4096) d.cr3 ∙ t.directory.aligned;
          self_present = ap (λ w. w % 2) kept ∙ t.directory.self_present;
          self_frame = ap frame_of kept ∙ t.directory.self_frame ∙ sym d.cr3;
        };
        table = λ u k. ap (λ w. w % 2) (same_table u k) ∙ t.table u k;
        apart = λ u k e. t.apart u k (ap frame_of (sym (same_table u k)) ∙ e ∙ d.cr3);
        own = λ u w ku kw ne e.
            t.own u w ku kw ne
              (ap frame_of (sym (same_table u ku)) ∙ e ∙ ap frame_of (same_table w kw));
      }

-- The directory and its entries are the same, and so are the plain frames.
pub entries-IsPlain :
    (m m' : Machine)
    → m'.cr3 ≡ m.cr3
    → ((u : ℕ) → InKernel u → m'.words (pde_addr m' u) ≡ m.words (pde_addr m u))
    → (f : ℕ) → IsPlain m f
    → IsPlain m' f
entries-IsPlain m m' c d f p = record {
  aligned = p.aligned;
  directory = λ e. p.directory (e ∙ c);
  tables = λ u k e. p.tables u k (e ∙ ap frame_of (d u k));
}

-- The page at `a` shows the frame `f`.
pub record Shows (m : Machine) (a f : ℕ) : Type 0 where
  pub tables : HasTables m
  pub plain : IsPlain m f
  pub kernel : InKernel a
  pub page : a % 4096 ≡ 0
  pub shown : walk m a ≡ some f

pub Keeps-Shows : {m m' : Machine} {a f : ℕ} → Shows m a f → Keeps m m' → Shows m' a f
Keeps-Shows s d = record {
  tables = Keeps-HasTables s.tables d;
  plain = Keeps-IsPlain s.tables d _ s.plain;
  kernel = s.kernel;
  page = s.page;
  shown = same_walk s.tables d _ s.kernel ∙ s.shown;
}

pub word_walk :
    {m : Machine} {a f : ℕ} (j : ℕ) → Shows m a f → j < 1024 → walk m (a + j * 4) ≡ some (f + j * 4)
word_walk {m} {a} {f} j s h =
    let (d, t, e) = walk-some m a f s.shown in
    let pde : m.words (pde_addr m (a + j * 4)) ≡ m.words (pde_addr m a) =
      ap m.words (omega (arith, s.page)) in
    walk_mapped m (a + j * 4) (m.words (pde_addr m a)) (m.words (pte_addr m a)) pde d
      (ap m.words (omega (arith, s.page))) t
    ∙ ap some (omega (arith, s.page))

pub Keeps-refl : (m : Machine) → Keeps m m
Keeps-refl m = record { cr3 = refl; outside = λ b n. refl }

pub Keeps-trans : {m m₁ m₂ : Machine} → HasTables m → Keeps m m₁ → Keeps m₁ m₂ → Keeps m m₂
Keeps-trans t d e = record {
  cr3 = e.cr3 ∙ d.cr3;
  outside = λ b n. e.outside b (λ p. n (was-IsPlain t d (frame_of b) p)) ∙ d.outside b n;
}

-- A change within the frame of a page is one.
pub within-Keeps :
    {m m' : Machine} {a f : ℕ}
    → Shows m a f
    → m'.cr3 ≡ m.cr3
    → ((b : ℕ) → frame_of b ≢ f → m'.words b ≡ m.words b)
    → Keeps m m'
within-Keeps {m} s c same = record {
  cr3 = c;
  outside = λ b n. same b (λ e. n (subst (IsPlain m) (sym e) s.plain));
}

pub put_word-Keeps :
    {m : Machine} {a f : ℕ} (j x : ℕ) → Shows m a f → j < 1024 → Keeps m (put_word (f + j * 4) x m)
put_word-Keeps {m} {a} {f} j x s h =
    within-Keeps s refl
      (λ b ne. rw (==_of_ne (f + j * 4) b (λ e. ne (omega (arith, s.plain.aligned)))) refl)
