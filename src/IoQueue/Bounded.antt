-- ===== src/IoQueue/Bounded.antt =====
-- `ioq_getchar` and `ioq_putchar` against a bounded queue of characters.
use oslearn.Base.{
  ℕ, suc, ◌+◌, ◌%◌, ◌<◌, ◌≡◌, refl, sym, ◌≢◌, ◌∙◌, ap, List, [], ◌∷◌, ◌++◌, arith, length, get_or,
  set, get_elem?-eq-get_or, length-set, ◌==◌, ==_of_ne, true, false, Bool-cases, inl, inr, ok,
}
use oslearn.Interrupt.Status.{intr_off}
use oslearn.Thread.State.{Kernel, may_wake}
use oslearn.Thread.Invariant.{IsKernel}
use oslearn.Thread.Schedule.{thread_unblock-IsKernel}
use oslearn.IoQueue.{
  IoQueue, bufsize, next_pos, Side, producing, consuming, waiter, set_waiter, done, ioq_full,
  ioq_empty, wakeup, wake_if_any, ioq_getchar, ioq_putchar,
}
use oslearn.IoQueue.Ring.{IsRing, items, fill_level, contents, length-items, items-set, items-suc}

-- `ioq_empty` holds exactly for a queue without characters, `ioq_full` for one with 63.
pub ioq_empty-length :
    (q : IoQueue) (k : Kernel)
    → IsRing q
    → k.intr ≡ intr_off
    → (ioq_empty q k ≡ ok (length (contents q) == 0))
      × (ioq_full q k ≡ ok (length (contents q) == 63))
unfolding ioq_empty ioq_full next_pos
ioq_empty-length q k v off = (
  rw (off, length-items q.buf q.tail (fill_level q)) (ap ok empty),
  rw (off, length-items q.buf q.tail (fill_level q)) (ap ok full),
)
  where
    empty : (q.head == q.tail) ≡ (fill_level q == 0)
    empty = ground (arith, v.head_in, v.tail_in)

    full : ((q.head + 1) % bufsize == q.tail) ≡ (fill_level q == 63)
    full = ground (arith, v.head_in, v.tail_in)

-- Waking the one who waits changes neither the characters nor the invariant.
pub record Woken (side : Side) (q q' : IoQueue) (k k' : Kernel) : Type 0 where
  pub ring : IsRing q'
  pub same : contents q' ≡ contents q
  pub nobody : waiter side q' ≡ 0
  pub kernel : IsKernel k'
  pub running : k'.running ≡ k.running

-- Whoever is noted as waiting sleeps.
abbrev pub Sleeps : Side → IoQueue → Kernel → Type 0
Sleeps side q k = waiter side q ≢ 0 → may_wake (k.tasks (waiter side q)).status ≡ true

wake_if_any-Woken :
    (side : Side) (q : IoQueue) (k : Kernel)
    → IsRing q
    → IsKernel k
    → Sleeps side q k
    → (q' : IoQueue) × (k' : Kernel) × (wake_if_any side q k ≡ ok (q', k')) × Woken side q q' k k'
unfolding wake_if_any wakeup
wake_if_any-Woken side q k v w s = elim (Bool-cases (waiter side q == 0)) [
  | inl e ↦ (
    q,
    k,
    simp e,
    record { ring = v; same = refl; nobody = ground arith; kernel = w; running = refl },
  )
  | inr e ↦
      let (k', r, is, run, _, _, _, _) =
        thread_unblock-IsKernel (waiter side q) k w (s (ground arith)) in
      (set_waiter side 0 q, k', simp (e, r), cleared side k' is run)
]
  where
    cleared :
        (side : Side) (k' : Kernel)
        → IsKernel k'
        → k'.running ≡ k.running
        → Woken side q (set_waiter side 0 q) k k'
    cleared producing k' is run = record {
      ring = record { size = v.size; head_in = v.head_in; tail_in = v.tail_in };
      same = refl;
      nobody = refl;
      kernel = is;
      running = run;
    }
    cleared consuming k' is run = record {
      ring = record { size = v.size; head_in = v.head_in; tail_in = v.tail_in };
      same = refl;
      nobody = refl;
      kernel = is;
      running = run;
    }

abbrev taken : IoQueue → IoQueue
taken q = record q { tail = (q.tail + 1) % bufsize }

taken-contents :
    (q : IoQueue)
    → IsRing q
    → q.head ≢ q.tail
    → IsRing (taken q) × (contents q ≡ get_or q.buf q.tail 0 ∷ contents (taken q))
taken-contents q v ne = (
  record { size = v.size; head_in = v.head_in; tail_in = omega arith },
  items-suc q.buf q.tail (fill_level q) (omega (arith, v.head_in, v.tail_in))
      ∙ ap (λ n. get_or q.buf q.tail 0 ∷ items q.buf ((q.tail + 1) % bufsize) n)
          (omega (arith, v.head_in, v.tail_in)),
)

getchar_steps :
    (q q' : IoQueue) (k k' : Kernel)
    → IsRing q
    → k.intr ≡ intr_off
    → (q.head == q.tail) ≡ false
    → wake_if_any producing (taken q) k ≡ ok (q', k')
    → ioq_getchar q k ≡ ok (done (get_or q.buf q.tail 0) q' k')
unfolding ioq_getchar ioq_empty next_pos
getchar_steps q q' k k' v off ne r =
    simp (off, ne, get_elem?-eq-get_or q.buf q.tail 0 (omega (arith, v.size, v.tail_in)), r)

cons-injective : (x y : ℕ) (xs ys : List ℕ) → x ∷ xs ≡ y ∷ ys → (x ≡ y) × (xs ≡ ys)
cons-injective x y xs ys e = (cc, cc)

-- With interrupts off, a well-formed queue that holds a character, and a noted producer that
-- sleeps, `ioq_getchar` returns the oldest character, leaves the others in order, and leaves no
-- producer noted; it does not wait, and the running task goes on.
pub ioq_getchar_takes :
    (q : IoQueue) (k : Kernel) (byte : ℕ) (bytes : List ℕ)
    → IsRing q
    → IsKernel k
    → k.intr ≡ intr_off
    → Sleeps producing q k
    → contents q ≡ byte ∷ bytes
    → (q' : IoQueue) × (k' : Kernel) × (ioq_getchar q k ≡ ok (done byte q' k'))
      × IsRing q'
      × (contents q' ≡ bytes)
      × (q'.producer ≡ 0)
      × IsKernel k'
      × (k'.running ≡ k.running)
ioq_getchar_takes q k byte bytes v w off s e =
    let level : fill_level q ≡ suc (length bytes) =
      sym (length-items q.buf q.tail (fill_level q)) ∙ ap length e in
    let apart : q.head ≢ q.tail = λ h. omega (arith, v.tail_in) in
    let (ring, split) = taken-contents q v apart in
    let (first, rest) = cons-injective _ _ _ _ (sym split ∙ e) in
    let (q', k', r, woken) = wake_if_any-Woken producing (taken q) k ring w s in
    (
      q',
      k',
      getchar_steps q q' k k' v off (==_of_ne q.head q.tail apart) r
          ∙ ap (λ b. ok (done b q' k')) first,
      woken.ring,
      woken.same ∙ rest,
      woken.nobody,
      woken.kernel,
      woken.running,
    )

abbrev stored : ℕ → IoQueue → IoQueue
stored byte q = record q { buf = set q.buf q.head byte; head = (q.head + 1) % bufsize }

stored-contents :
    (q : IoQueue) (byte : ℕ)
    → IsRing q
    → fill_level q < 63
    → IsRing (stored byte q) × (contents (stored byte q) ≡ contents q ++ byte ∷ [])
stored-contents q byte v room =
    let level : fill_level (stored byte q) ≡ suc (fill_level q) =
      omega (arith, v.head_in, v.tail_in) in
    (
      record {
        size = length-set q.buf q.head byte ∙ v.size;
        head_in = omega arith;
        tail_in = v.tail_in;
      },
      rw level (
          items-set q.buf q.tail (fill_level q) q.head byte v.size v.tail_in (omega arith)
            (omega (arith, v.head_in, v.tail_in))),
    )

putchar_steps :
    (q q' : IoQueue) (byte : ℕ) (k k' : Kernel)
    → IsRing q
    → k.intr ≡ intr_off
    → ((q.head + 1) % bufsize == q.tail) ≡ false
    → wake_if_any consuming (stored byte q) k ≡ ok (q', k')
    → ioq_putchar q byte k ≡ ok (done tt q' k')
unfolding ioq_putchar ioq_full next_pos
putchar_steps q q' byte k k' v off ne r =
    simp (off, ne, get_elem?-eq-get_or q.buf q.head 0 (omega (arith, v.size, v.head_in)), r)

-- With interrupts off, a well-formed queue of fewer than 63 characters, and a noted consumer that
-- sleeps, `ioq_putchar` appends the new character and leaves no consumer noted; it does not wait,
-- and the running task goes on.
pub ioq_putchar_appends :
    (q : IoQueue) (byte : ℕ) (k : Kernel)
    → IsRing q
    → IsKernel k
    → k.intr ≡ intr_off
    → Sleeps consuming q k
    → length (contents q) < 63
    → (q' : IoQueue) × (k' : Kernel) × (ioq_putchar q byte k ≡ ok (done tt q' k'))
      × IsRing q'
      × (contents q' ≡ contents q ++ byte ∷ [])
      × (q'.consumer ≡ 0)
      × IsKernel k'
      × (k'.running ≡ k.running)
ioq_putchar_appends q byte k v w off s h =
    let room : fill_level q < 63 = omega (arith, length-items q.buf q.tail (fill_level q)) in
    let apart : (q.head + 1) % bufsize ≢ q.tail = λ e. omega (arith, v.head_in, v.tail_in) in
    let (ring, joined) = stored-contents q byte v room in
    let (q', k', r, woken) = wake_if_any-Woken consuming (stored byte q) k ring w s in
    (
      q',
      k',
      putchar_steps q q' byte k k' v off (==_of_ne _ q.tail apart) r,
      woken.ring,
      woken.same ∙ joined,
      woken.nobody,
      woken.kernel,
      woken.running,
    )
