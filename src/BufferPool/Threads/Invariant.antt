-- ===== src/BufferPool/Threads/Invariant.antt =====
-- What holds of the threads and the pool after every step.
use qwanto.Base.{
  ℕ, suc, ℤ, pos, ◌<◌, ◌≡◌, true, false, Option, ◌==◌, length, if◌then◌else◌, arith, refl, sym, ◌∙◌,
  inl, inr, Bool-cases,
}
use qwanto.BufferPool.{EBufferPool, mark, fill_entry, buffer_pool_release}
use qwanto.BufferPool.Marks.{
  marked, marked-lt, marked-mark, marked-release, marked-fill_entry, new_pool_free,
}
use qwanto.BufferPool.Threads.{
  Pc, idle, scans, won, leased, has, Move, begins, wins, loses, gives_up, fills, releases, System,
  update, Step, runs, Reach, start, later,
}

module _ {M : Type 0} (posix_memalign : ℕ → M → Option ℕ × M) where
  pub record Inv (s : System posix_memalign) : Type 0 where
    -- Two threads never have the same entry.
    pub unique : (t u i : ℕ) → has (s.pc t) i ≡ true → has (s.pc u) i ≡ true → t ≡ u
    -- An entry that a thread has is marked.
    pub kept : (t i : ℕ) → has (s.pc t) i ≡ true → marked s.pool i ≡ true
    -- A marked entry is one that a thread has.
    pub owned : (i : ℕ) → marked s.pool i ≡ true → (t : ℕ) × (has (s.pc t) i ≡ true)

  -- A step that changes neither what a thread has nor a mark.
  quiet :
      (s : System posix_memalign) (t : ℕ) (p : EBufferPool M) (x : Pc)
      → Inv s
      → ((i : ℕ) → has x i ≡ has (s.pc t) i)
      → ((i : ℕ) → marked p i ≡ marked s.pool i)
      → Inv (record { pool = p; pc = update posix_memalign s.pc t x })
  quiet s t p x inv same marks = record {
    unique = λ u v i a b. inv.unique u v i (sym (old u i) ∙ a) (sym (old v i) ∙ b);
    kept = λ u i a. marks i ∙ inv.kept u i (sym (old u i) ∙ a);
    owned = λ i a. let (u, b) = inv.owned i (sym (marks i) ∙ a) in (u, old u i ∙ b);
  }
    where
      old : (u i : ℕ) → has (update posix_memalign s.pc t x u) i ≡ has (s.pc u) i
      old u i = elim (Bool-cases (u == t)) [
        | inl e ↦ let same_thread : u ≡ t = ground arith in rw (e, same i, same_thread)
        | inr e ↦ rw e
      ]

  -- What a thread has after thread `t` went to `x`.
  has-update :
      (pc : ℕ → Pc) (t u i : ℕ) (x : Pc)
      → has (update posix_memalign pc t x u) i ≡ (if u == t then has x i else has (pc u) i)
  has-update pc t u i x = elim (Bool-cases (u == t)) [ inl e ↦ rw e | inr e ↦ rw e ]

  -- A free entry taken by a thread.
  win :
      (s : System posix_memalign) (t i : ℕ)
      → Inv s
      → i < length s.pool.entries
      → marked s.pool i ≡ false
      → ((j : ℕ) → has (s.pc t) j ≡ false)
      → Inv (record { pool = mark s.pool i true; pc = update posix_memalign s.pc t (won i) })
  unfolding has
  win s t i inv lt free none = record {
    unique = λ u v j a b. ground (
      arith,
      inv.unique u v j,
      inv.kept u i,
      inv.kept v i,
      has-update s.pc t u j (won i),
      has-update s.pc t v j (won i),
      free,
    );
    kept = λ u j a.
        ground (arith, marked-mark s.pool i j true lt, inv.kept u j, has-update s.pc t u j (won i));
    owned = λ j a. elim (Bool-cases (j == i)) [
      | inl e ↦ (t, ground (arith, has-update s.pc t t j (won i)))
      | inr e ↦
          let before : marked s.pool j ≡ true = ground (arith, marked-mark s.pool i j true lt) in
          let (u, b) = inv.owned j before in
          (u, ground (arith, has-update s.pc t u j (won i), none j))
    ];
  }

  -- An entry given back by the thread that has it.
  give_back :
      (s : System posix_memalign) (t i : ℕ)
      → Inv s
      → i < length s.pool.entries
      → ((j : ℕ) → has (s.pc t) j ≡ (i == j))
      → Inv (record {
        pool = buffer_pool_release s.pool (pos i);
        pc = update posix_memalign s.pc t idle;
      })
  unfolding has
  give_back s t i inv lt own = record {
    unique = λ u v j a b.
        ground (arith, inv.unique u v j, has-update s.pc t u j idle, has-update s.pc t v j idle);
    kept = λ u j a. ground (
      arith,
      marked-release s.pool i j lt,
      inv.kept u j,
      has-update s.pc t u j idle,
      inv.unique u t j,
      own j,
    );
    owned = λ j a.
        let before : marked s.pool j ≡ true = ground (arith, marked-release s.pool i j lt) in
        let (u, b) = inv.owned j before in
        (u, ground (arith, has-update s.pc t u j idle, own j, marked-release s.pool i j lt));
  }

  -- The entry of a thread between its exchange and its release is one of the pool.
  held :
      (s : System posix_memalign) (t i : ℕ)
      → Inv s
      → ((j : ℕ) → has (s.pc t) j ≡ (i == j))
      → i < length s.pool.entries
  held s t i inv own =
      let here : has (s.pc t) i ≡ true = ground (arith, own i) in
      marked-lt s.pool i (inv.kept t i here)

  Step-Inv : {s s' : System posix_memalign} → Step posix_memalign s s' → Inv s → Inv s'
  unfolding has
  Step-Inv {s} (runs t mv) inv = after (s.pc t) mv (λ i. refl)
    where
      after :
          (x : Pc) {p : EBufferPool M} {y : Pc}
          → Move posix_memalign s.pool x p y
          → ((i : ℕ) → has (s.pc t) i ≡ has x i)
          → Inv (record { pool = p; pc = update posix_memalign s.pc t y })
      after _ begins e = quiet s t s.pool (scans 0) inv (λ i. sym (e i)) (λ i. refl)
      after _ (wins {i} lt free) e = win s t i inv lt free e
      after _ (loses {i} lt used) e =
          quiet s t s.pool (scans (suc i)) inv (λ j. sym (e j)) (λ j. refl)
      after _ (gives_up {i} le) e = quiet s t s.pool idle inv (λ j. sym (e j)) (λ j. refl)
      after _ (fills {i}) e =
          quiet s t (fill_entry posix_memalign s.pool i) (leased i) inv (λ j. sym (e j))
            (λ j. marked-fill_entry posix_memalign s.pool i j (held s t i inv e))
      after _ (releases {i}) e = give_back s t i inv (held s t i inv e) e

  pub Reach-Inv :
      {m : M} {count : ℤ} {slab_cap fslab_cap : ℕ} {s : System posix_memalign}
      → Reach posix_memalign m count slab_cap fslab_cap s
      → Inv s
  unfolding has
  Reach-Inv {m} {count} {slab_cap} {fslab_cap} start = record {
    unique = λ t u i a b. cc;
    kept = λ t i a. cc;
    owned = λ i a. ground (arith, a, new_pool_free m count slab_cap fslab_cap i);
  }
  Reach-Inv (later r st) = Step-Inv st (Reach-Inv r)
