-- ===== src/Bitmap/Free.antt =====
-- The last loop of `bitmap_scan` finds the first run of free bits.
use oslearn.Base.{
  ℕ, zero, suc, ◌+◌, ◌-◌, ◌*◌, ◌^◌, ◌≤◌, ◌<◌, ◌≡◌, refl, inl, inr, true, false, ◌∙◌, Option, none,
  some, arith, ltb, ◌==◌, ==_iff, Bool-cases, Run, ok, u32,
}
use oslearn.Bitmap.{Bitmap, scan_run}
use oslearn.Bitmap.Bits.{used, IsValid, scan_test-used}

abbrev pub FreeRun : Bitmap → ℕ → ℕ → Type 0
FreeRun bm s cnt = (j : ℕ) → j < cnt → used bm (s + j) ≡ false

-- A used bit among the `cnt` bits from `s` on.
abbrev pub Blocked : Bitmap → ℕ → ℕ → Type 0
Blocked bm s cnt = (j : ℕ) × (j < cnt) × (used bm (s + j) ≡ true)

-- Of the runs of `cnt` bits below `lim`, the one at `s` is free and none before it is.
pub record FirstFit (bm : Bitmap) (cnt lim s : ℕ) : Type 0 where
  pub fits : s + cnt ≤ lim
  pub free : FreeRun bm s cnt
  pub first : (t : ℕ) → t < s → Blocked bm t cnt

abbrev pub Found : Bitmap → ℕ → ℕ → Option ℕ → Type 0
Found bm cnt lim none = (t : ℕ) → t + cnt ≤ lim → Blocked bm t cnt
Found bm cnt lim (some s) = FirstFit bm cnt lim s

-- The state of the last loop: the `count` bits before `next` are free, and it is no longer run.
pub record Scanning (bm : Bitmap) (cnt next count : ℕ) : Type 0 where
  pub few : count < cnt
  pub le : count ≤ next
  pub free : FreeRun bm (next - count) count
  pub edge : count < next → used bm (next - count - 1) ≡ true
  pub before : (t : ℕ) → t + cnt ≤ next → Blocked bm t cnt

module _ {bm : Bitmap} {cnt next count : ℕ} (s : Scanning bm cnt next count) where
  run-free : used bm next ≡ false → FreeRun bm (next - count) (count + 1)
  run-free u j p = elim (Bool-cases (j == count)) [
    | inl e ↦ let e' : next - count + j ≡ next = ground (arith, s.le) in rw e' u
    | inr e ↦ s.free j (ground arith)
  ]

  Scanning-used : used bm next ≡ true → Scanning bm cnt (next + 1) 0
  Scanning-used u = record {
    few = omega (arith, s.few);
    le = omega arith;
    free = λ j h. absurd (omega arith);
    edge = λ h. let e : next + 1 - 0 - 1 ≡ next = omega arith in rw e u;
    before = λ t h. elim (Bool-cases (t + cnt == next + 1)) [
      | inl e ↦ (
        cnt - 1,
        omega (arith, s.few),
        let e' : t + (cnt - 1) ≡ next = ground (arith, s.few) in rw e' u,
      )
      | inr e ↦ s.before t (ground arith)
    ];
  }

  Scanning-free : used bm next ≡ false → count + 1 < cnt → Scanning bm cnt (next + 1) (count + 1)
  Scanning-free u h = record {
    few = h;
    le = omega (arith, s.le);
    free =
        λ j p. let e : next + 1 - (count + 1) ≡ next - count = omega arith in rw e (run-free u j p);
    edge = λ p.
        let e : next + 1 - (count + 1) - 1 ≡ next - count - 1 = omega (arith, s.le) in
        rw e (s.edge (omega arith));
    before = λ t p. elim (Bool-cases (t + cnt == next + 1)) [
      | inl e ↦
          let q : t + cnt ≡ next + 1 = (==_iff _ _).0 e in
          (
            next - count - 1 - t,
            omega (arith, s.few, s.le),
            let e' : t + (next - count - 1 - t) ≡ next - count - 1 = omega (arith, s.le) in
                rw e' (s.edge (omega arith)),
          )
      | inr e ↦ s.before t (ground arith)
    ];
  }

module _ {bm : Bitmap} (cnt n next count : ℕ) (v : IsValid bm) (h : next ≤ bm.btmp_bytes_len * 8)
    (s : Scanning bm cnt next count) where
  scan_run-used :
      used bm next ≡ true → scan_run bm cnt (suc n) next count ≡ scan_run bm cnt n (next + 1) 0
  unfolding scan_run
  scan_run-used u =
      let p : (cnt == 0) ≡ false = ground (arith, s.few) in
      let q : u32 (next + 1) ≡ next + 1 = omega (arith, v.small) in
      rw (scan_test-used next v h, u, p, q)

  scan_run-free :
      used bm next ≡ false
      → count + 1 < cnt
      → scan_run bm cnt (suc n) next count ≡ scan_run bm cnt n (next + 1) (count + 1)
  unfolding scan_run
  scan_run-free u l =
      let c : u32 (count + 1) ≡ count + 1 = omega (arith, v.small, s.le) in
      let p : (cnt == count + 1) ≡ false = ground arith in
      let q : u32 (next + 1) ≡ next + 1 = omega (arith, v.small) in
      rw (scan_test-used next v h, u, c, p, q)

  scan_run-done :
      used bm next ≡ false
      → count + 1 ≡ cnt
      → scan_run bm cnt (suc n) next count ≡ ok (some (next + 1 - cnt))
  unfolding scan_run
  scan_run-done u l =
      let c : u32 (count + 1) ≡ count + 1 = omega (arith, v.small, s.le) in
      let p : (cnt == count + 1) ≡ true = ground arith in
      let q : u32 (next + 2 ^ 32 - cnt + 1) ≡ next + 1 - cnt = omega (arith, v.small, s.le) in
      rw (scan_test-used next v h, u, c, p, q)

abbrev pub Finds : Bitmap → ℕ → ℕ → Run (Option ℕ) → Type 0
Finds bm cnt lim run = (r : Option ℕ) × (run ≡ ok r) × Found bm cnt lim r

pub Finds-of_eq :
    {bm : Bitmap} {cnt lim lim' : ℕ} {run run' : Run (Option ℕ)}
    → lim ≡ lim'
    → run' ≡ run
    → Finds bm cnt lim run
    → Finds bm cnt lim' run'
Finds-of_eq {bm} {cnt} e f (r, p, q) = (r, f ∙ p, rw e at q)

pub scan_run-Finds :
    {bm : Bitmap} (cnt n next count : ℕ)
    → IsValid bm
    → next + n ≤ bm.btmp_bytes_len * 8 + 1
    → Scanning bm cnt next count
    → Finds bm cnt (next + n) (scan_run bm cnt n next count)
scan_run-Finds cnt zero next count v h s =
    (none, unfold scan_run in refl, λ t p. s.before t (omega arith))
scan_run-Finds {bm} cnt (suc n) next count v h s =
    let near : next ≤ bm.btmp_bytes_len * 8 = omega arith in
    let lim : next + 1 + n ≡ next + suc n = omega arith in
    elim (Bool-cases (used bm next)) [
      | inl u ↦
          Finds-of_eq lim (scan_run-used cnt n next count v near s u)
            (scan_run-Finds cnt n (next + 1) 0 v (omega arith) (Scanning-used s u))
      | inr u ↦ elim (Bool-cases (ltb (count + 1) cnt)) [
        | inl more ↦
            let more' : count + 1 < cnt = ground arith in
            Finds-of_eq lim (scan_run-free cnt n next count v near s u more') (
              scan_run-Finds cnt n (next + 1) (count + 1) v (omega arith) (Scanning-free s u more'))
        | inr last ↦
            let e : count + 1 ≡ cnt = ground (arith, s.few) in
            let b : next + 1 - cnt ≡ next - count = omega arith in
            (
              some (next + 1 - cnt),
              scan_run-done cnt n next count v near s u e,
              record {
                fits = omega (arith, s.le);
                free = λ j p. rw b (run-free s u j (omega arith));
                first = λ t p. s.before t (omega (arith, s.le));
              },
            )
      ]
    ]
