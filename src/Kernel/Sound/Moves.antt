-- ===== src/Kernel/Sound/Moves.antt =====
-- The moves of threads between the lists, each stated of `Ordered`.
use nach_os.Base.{
  ℕ, true, false, Option, none, some, List, [], ◌∷◌, ◌++◌, ◌≡◌, ◌≢◌, ◌⊎◌, inl, inr, refl, ◌∙◌,
  subst, ap, arith, contains, Distinct, contains-append, Distinct-append, ◌==◌, ==_iff, Bool-cases,
}
use nach_os.Kernel.{
  ThreadStatus, running, ready, blocked, Statement, p_loop, sleep_loop, switched, Thread, Semaphore,
  put,
}
use nach_os.Kernel.Sound.{IsResumed, waits_on, StatusFits, status_of, code_of, Ordered}

-- Only the loop of Sleep may find its thread blocked.
woken-StatusFits :
    (s : ℕ) (code : List Statement)
    → waits_on code ≡ some s
    → StatusFits code (some blocked)
    → StatusFits code (some ready)
woken-StatusFits s (sleep_loop false ∷ rest) w st = inr refl
woken-StatusFits s code w st = cc

pub code_of-put :
    (threads : ℕ → Option Thread) (t : ℕ) (c : Thread) (st : ThreadStatus) (t' : ℕ)
    → threads t ≡ some c
    → code_of (put threads t (some (record c { status = st })) t') ≡ code_of (threads t')
code_of-put threads t c st t' e = elim (Bool-cases (t == t')) [
  | inl same ↦ rw same (rw (← (==_iff t t').0 same) (rw e))
  | inr other ↦ rw other
]

module _ {current : ℕ} {ready_list : List ℕ} {destroyed : Option ℕ} {threads : ℕ → Option Thread}
    {semaphores : ℕ → Semaphore} (o : Ordered current ready_list destroyed threads semaphores) where
  -- A running thread stands in no list.
  pub not-mem-ready : (t : ℕ) → status_of (threads t) ≡ some running → contains ready_list t ≡ false
  not-mem-ready t r = ground (arith, o.is_ready t)

  pub not-mem-queue :
      (t : ℕ)
      → status_of (threads t) ≡ some running
      → (s : ℕ) → contains (semaphores s).queue t ≡ false
  not-mem-queue t r s = ground (arith, o.is_blocked s t)

  -- The current thread, which stands in no list, gets a new record.
  pub Ordered-set_current :
      (c : Thread)
      → status_of (threads current) ≡ some running
      → (destroyed ≡ none) ⊎ IsResumed c.code
      → StatusFits c.code (some c.status)
      → Ordered current ready_list destroyed (put threads current (some c)) semaphores
  Ordered-set_current c r d st = record {
    distinct_ready = o.distinct_ready;
    distinct_queue = o.distinct_queue;
    is_ready = λ t h. ground (arith, o.is_ready t, not-mem-ready current r);
    is_blocked = λ s t h. ground (arith, o.is_blocked s t, not-mem-queue current r s);
    waits = λ s t h. ground (arith, o.waits s t, not-mem-queue current r s);
    resumed = λ t h e n. ground (arith, o.resumed t);
    fits = λ t h e n. ground (arith, o.fits t);
    destroyed_ne_current = o.destroyed_ne_current;
    destroyed_status = λ t e. ground (arith, o.destroyed_status t, o.destroyed_ne_current);
    destroyed_code = λ t e. ground (arith, o.destroyed_code t, o.destroyed_ne_current);
    current_status = ground (arith);
    destroys = ground (arith);
  }

  -- A blocked thread is woken.
  module _ (s t : ℕ) (rest : List ℕ) (c : Thread) (q : (semaphores s).queue ≡ t ∷ rest)
      (e : threads t ≡ some c) where
    pub first_blocked : c.status ≡ blocked
    first_blocked = ground (arith, o.is_blocked s t)

    pub first-not-ready : contains ready_list t ≡ false
    first-not-ready = ground (arith, o.is_ready t, first_blocked)

    first_waits : waits_on (code_of (threads t)) ≡ some s
    first_waits = o.waits s t (ground arith)

    first-not-destroyed : destroyed ≢ some t
    first-not-destroyed d =
        let w : waits_on (switched ∷ []) ≡ some s =
          subst (λ code. waits_on code ≡ some s) (o.destroyed_code t d) first_waits in
        cc

    first-Distinct : Distinct (t ∷ rest)
    first-Distinct = subst Distinct q (o.distinct_queue s)

    -- Who waits still waits in the same queue as before, and is another thread.
    still_waits :
        (s' t' : ℕ)
        → contains (put semaphores s (record (semaphores s) { queue = rest }) s').queue t' ≡ true
        → (contains (semaphores s').queue t' ≡ true) × (t ≢ t')
    still_waits s' t' h = elim (Bool-cases (s == s')) [
      | inl same ↦ (ground (arith), λ i. ground (arith, first-Distinct))
      | inr other ↦ (ground arith, λ i. ground (arith, first_waits, o.waits s' t'))
    ]

    pub Ordered-wake :
        Ordered current
          (ready_list ++ t ∷ [])
          destroyed
          (put threads t (some (record c { status = ready })))
          (put semaphores s (record (semaphores s) { queue = rest }))
    Ordered-wake = record {
      distinct_ready = Distinct-append ready_list t o.distinct_ready first-not-ready;
      distinct_queue = λ s'. ground (arith, o.distinct_queue s', first-Distinct);
      is_ready = λ t' h. ground (arith, contains-append ready_list t t', o.is_ready t');
      is_blocked = λ s' t' h. ground (arith, still_waits s' t' h, o.is_blocked s' t');
      waits = λ s' t' h.
          rw (code_of-put threads t c ready t' e) (o.waits s' t' (still_waits s' t' h).0);
      resumed =
          λ t' h n d. rw (code_of-put threads t c ready t' e) (o.resumed t' h (ground arith) d);
      fits = λ t' h n d. rw (code_of-put threads t c ready t' e) (o.fits t' h (ground arith) d);
      destroyed_ne_current = o.destroyed_ne_current;
      destroyed_status = λ t' e. ground (arith, o.destroyed_status t', first-not-destroyed);
      destroyed_code = λ t' d. rw (code_of-put threads t c ready t' e) (o.destroyed_code t' d);
      current_status = elim (Bool-cases (t == current)) [
        | inl same ↦ rw same (
            woken-StatusFits s c.code (ground (arith, first_waits))
              (ground (arith, o.current_status, first_blocked)))
        | inr other ↦ rw other o.current_status
      ];
      destroys = rw (code_of-put threads t c ready current e) o.destroys;
    }

  -- The value of a semaphore does not matter.
  pub Ordered-queues :
      (semaphores' : ℕ → Semaphore)
      → ((s : ℕ) → (semaphores' s).queue ≡ (semaphores s).queue)
      → Ordered current ready_list destroyed threads semaphores'
  Ordered-queues semaphores' e = record {
    distinct_ready = o.distinct_ready;
    distinct_queue = λ s. rw (e s) (o.distinct_queue s);
    is_ready = o.is_ready;
    is_blocked = λ s t h. o.is_blocked s t (subst (λ q. contains q t ≡ true) (e s) h);
    waits = λ s t h. o.waits s t (subst (λ q. contains q t ≡ true) (e s) h);
    resumed = o.resumed;
    fits = o.fits;
    destroyed_ne_current = o.destroyed_ne_current;
    destroyed_status = o.destroyed_status;
    destroyed_code = o.destroyed_code;
    current_status = o.current_status;
    destroys = o.destroys;
  }

  pub Ordered-value :
      (n value : ℕ)
      → Ordered current ready_list destroyed threads
          (put semaphores n (record (semaphores n) { value = value }))
  Ordered-value n value = Ordered-queues _ λ s. elim (Bool-cases (n == s)) [
    | inl same ↦ rw same (ap (λ (i : ℕ). (semaphores i).queue) ((==_iff n s).0 same))
    | inr other ↦ rw other
  ]

  -- A new semaphore has no queue.
  pub Ordered-new_semaphore :
      (n : ℕ)
      → Ordered current ready_list destroyed threads
          (put semaphores n (record { value = 0; queue = [] }))
  Ordered-new_semaphore n = record {
    distinct_ready = o.distinct_ready;
    distinct_queue = λ s. ground (arith, o.distinct_queue s);
    is_ready = o.is_ready;
    is_blocked = λ s t h. ground (arith, o.is_blocked s t);
    waits = λ s t h. ground (arith, o.waits s t);
    resumed = o.resumed;
    fits = o.fits;
    destroyed_ne_current = o.destroyed_ne_current;
    destroyed_status = o.destroyed_status;
    destroyed_code = o.destroyed_code;
    current_status = o.current_status;
    destroys = o.destroys;
  }

  -- The current thread goes to sleep in P of semaphore `s`.
  module _ (s : ℕ) (rest : List Statement) (c : Thread)
      (r : status_of (threads current) ≡ some running) (d : destroyed ≡ none)
      (b : c.status ≡ blocked) (e : c.code ≡ sleep_loop false ∷ p_loop s ∷ rest) where
    pub Ordered-block :
        Ordered current ready_list destroyed (put threads current (some c)) (
          put semaphores s (record (semaphores s) { queue = (semaphores s).queue ++ current ∷ [] }))
    Ordered-block = record {
      distinct_ready = o.distinct_ready;
      distinct_queue = λ s'. elim (Bool-cases (s == s')) [
        | inl same ↦ rw same (
            Distinct-append (semaphores s).queue current (o.distinct_queue s)
              (not-mem-queue current r s))
        | inr other ↦ rw other (o.distinct_queue s')
      ];
      is_ready = λ t h. ground (arith, o.is_ready t, not-mem-ready current r);
      is_blocked = λ s' t h.
          ground
            (arith, o.is_blocked s' t, contains-append (semaphores s).queue current t, ==_iff s s');
      waits = λ s' t h. elim (Bool-cases (current == t)) [
        | inl same ↦ ground (arith, not-mem-queue current r s')
        | inr other ↦
            ground
              (arith, o.waits s' t, contains-append (semaphores s).queue current t, ==_iff s s')
      ];
      resumed = λ t h n k. ground (arith, o.resumed t);
      fits = λ t h n k. ground (arith, o.fits t);
      destroyed_ne_current = o.destroyed_ne_current;
      destroyed_status = λ t k. cc;
      destroyed_code = λ t k. cc;
      current_status = rw ((==_iff current current).1 refl) (rw (b, e) (inl refl));
      destroys = inl d;
    }

  -- The finished thread is deleted.
  pub Ordered-destroy :
      (t : ℕ) → destroyed ≡ some t → Ordered current ready_list none (put threads t none) semaphores
  Ordered-destroy t d = record {
    distinct_ready = o.distinct_ready;
    distinct_queue = o.distinct_queue;
    is_ready = λ t' h. ground (arith, o.is_ready t', o.destroyed_status t);
    is_blocked = λ s t' h. elim (Bool-cases (t == t')) [
      | inl same ↦ absurd (not_waiting s t' h ((==_iff t t').0 same))
      | inr other ↦ rw other (o.is_blocked s t' h)
    ];
    waits = λ s t' h. elim (Bool-cases (t == t')) [
      | inl same ↦ absurd (not_waiting s t' h ((==_iff t t').0 same))
      | inr other ↦ rw other (o.waits s t' h)
    ];
    resumed = λ t' h n k. ground (arith, o.resumed t');
    fits = λ t' h n k. ground (arith, o.fits t');
    destroyed_ne_current = cc;
    destroyed_status = λ t' k. cc;
    destroyed_code = λ t' k. cc;
    current_status = ground (arith, o.current_status, o.destroyed_ne_current);
    destroys = inl refl;
  }
    where
      not_waiting : (s t' : ℕ) → contains (semaphores s).queue t' ≡ true → t ≡ t' → ⊥
      not_waiting s t' h i =
          let w : waits_on (switched ∷ []) ≡ some s =
            subst (λ code. waits_on code ≡ some s) (o.destroyed_code t' (d ∙ ap some i))
              (o.waits s t' h) in
          cc
