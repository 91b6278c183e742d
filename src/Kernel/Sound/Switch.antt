-- ===== src/Kernel/Sound/Switch.antt =====
-- The switches of the processor to the next ready thread, stated of `Ordered`.
use nach_os.Base.{
  contains-append, Distinct-append, ℕ, true, false, Option, none, some, List, [], ◌∷◌, ◌++◌, ◌≡◌,
  ◌≢◌, inl, inr, refl, arith, ==_iff,
}
use nach_os.Kernel.{
  int_off, int_on, running, ready, blocked, Statement, p_loop, sleep_loop, switched, begin, Thread,
  Semaphore, put,
}
use nach_os.Kernel.Sound.{Continues, Fits, IsResumed, waits_on, StatusFits, status_of, Ordered}

pub resumed-StatusFits : (code : List Statement) → IsResumed code → StatusFits code (some running)
resumed-StatusFits (switched ∷ rest) h = refl
resumed-StatusFits (begin ∷ rest) h = refl
resumed-StatusFits code h = absurd h

waits_on-switched :
    (rest : List Statement) → waits_on (switched ∷ rest) ≡ waits_on (sleep_loop false ∷ rest)
waits_on-switched [] = refl
waits_on-switched (p_loop s ∷ rest) = refl
waits_on-switched (x ∷ rest) = refl

module _ {current t : ℕ} {rest : List ℕ} {threads : ℕ → Option Thread} {semaphores : ℕ → Semaphore}
    (o : Ordered current (t ∷ rest) none threads semaphores) (c : Thread)
    (e : threads current ≡ some c) where
  next_ready : status_of (threads t) ≡ some ready
  next_ready = o.is_ready t (ground arith)

  -- Run, called by the loop of Sleep in P.
  module _ (r : List Statement) (k : c.code ≡ sleep_loop false ∷ r) (f : Continues int_off r)
      (c2 : Thread)
      (e2 : put threads current (some (record c { code = switched ∷ r })) t ≡ some c2) where
    next-IsResumed : IsResumed c2.code
    next-IsResumed = ground (arith, o.resumed t)

    pub sleep-Fits : Fits int_off c2.code
    sleep-Fits = ground (arith, o.fits t)

    pub Ordered-sleep :
        Ordered t rest none
          (put
            (put threads current (some (record c { code = switched ∷ r })))
            t
            (some (record c2 { status = running })))
          semaphores
    Ordered-sleep = record {
      distinct_ready = o.distinct_ready.1;
      distinct_queue = o.distinct_queue;
      is_ready = λ t' h. ground (arith, o.is_ready t', o.distinct_ready);
      is_blocked = λ s t' h. ground (arith, o.is_blocked s t', next_ready);
      waits = λ s t' h.
          ground (arith, o.waits s t', o.is_blocked s t', next_ready, waits_on-switched r);
      resumed = λ t' h n d. ground (arith, o.resumed t');
      fits = λ t' h n d. ground (arith, o.fits t');
      destroyed_ne_current = cc;
      destroyed_status = λ t' d. cc;
      destroyed_code = λ t' d. cc;
      current_status = rw ((==_iff t t).1 refl) (resumed-StatusFits c2.code next-IsResumed);
      destroys = inl refl;
    }

  -- Run, called by the loop of Sleep in Finish.
  module _ (k : c.code ≡ sleep_loop true ∷ []) (c2 : Thread)
      (e2 : put threads current (some (record c { code = switched ∷ [] })) t ≡ some c2) where
    was_blocked : c.status ≡ blocked
    was_blocked = ground (arith, o.current_status)

    finished-IsResumed : IsResumed c2.code
    finished-IsResumed = ground (arith, o.resumed t, next_ready, was_blocked)

    pub finish-Fits : Fits int_off c2.code
    finish-Fits = ground (arith, o.fits t, next_ready, was_blocked)

    pub Ordered-finish :
        Ordered t rest
          (some current)
          (put
            (put threads current (some (record c { code = switched ∷ [] })))
            t
            (some (record c2 { status = running })))
          semaphores
    Ordered-finish = record {
      distinct_ready = o.distinct_ready.1;
      distinct_queue = o.distinct_queue;
      is_ready = λ t' h. ground (arith, o.is_ready t', o.distinct_ready);
      is_blocked = λ s t' h. ground (arith, o.is_blocked s t', next_ready);
      waits =
          λ s t' h. ground (arith, o.waits s t', o.is_blocked s t', next_ready, o.waits s current);
      resumed = λ t' h n d. ground (arith, o.resumed t');
      fits = λ t' h n d. ground (arith, o.fits t');
      destroyed_ne_current = λ i. ground (arith, next_ready, was_blocked);
      destroyed_status = λ t' d. ground (arith, next_ready, was_blocked);
      destroyed_code = λ t' d. ground (arith, next_ready, was_blocked);
      current_status = rw ((==_iff t t).1 refl) (resumed-StatusFits c2.code finished-IsResumed);
      destroys = inr (rw ((==_iff t t).1 refl) finished-IsResumed);
    }

  -- Run, called by Yield: the current thread has been put on the ready list.
  module _ (c1 : Thread) (r : List Statement) (k : c.status ≡ running) (b : c1.status ≡ ready)
      (k1 : c1.code ≡ switched ∷ r) (f : Continues int_off r) (c2 : Thread)
      (e2 : threads t ≡ some c2) where
    yields-IsResumed : IsResumed c2.code
    yields-IsResumed = ground (arith, o.resumed t, next_ready)

    next-ne-current : t ≢ current
    next-ne-current i = ground (arith, next_ready)

    pub yield-Fits : Fits int_off c2.code
    yield-Fits = ground (arith, o.fits t, next_ready)

    pub Ordered-yield :
        Ordered t
          (rest ++ current ∷ [])
          none
          (put (put threads current (some c1)) t (some (record c2 { status = running })))
          semaphores
    Ordered-yield = record {
      distinct_ready =
          Distinct-append rest current o.distinct_ready.1 (ground (arith, o.is_ready current));
      distinct_queue = o.distinct_queue;
      is_ready = λ t' h. ground (
        arith,
        o.is_ready t',
        o.distinct_ready,
        contains-append rest current t',
        next-ne-current,
      );
      is_blocked = λ s t' h. ground (arith, o.is_blocked s t', next_ready);
      waits = λ s t' h. ground (arith, o.waits s t', o.is_blocked s t', next_ready);
      resumed = λ t' h n d. ground (arith, o.resumed t');
      fits = λ t' h n d. ground (arith, o.fits t');
      destroyed_ne_current = cc;
      destroyed_status = λ t' d. cc;
      destroyed_code = λ t' d. cc;
      current_status = rw ((==_iff t t).1 refl) (resumed-StatusFits c2.code yields-IsResumed);
      destroys = inl refl;
    }

-- Fork: the new thread is put on the ready list.
pub Ordered-fork :
    {current : ℕ} {ready_list : List ℕ} {destroyed : Option ℕ} {threads : ℕ → Option Thread}
    {semaphores : ℕ → Semaphore} (t : ℕ) (r : List Statement)
    → Ordered current ready_list destroyed threads semaphores
    → threads t ≡ none
    → status_of (threads current) ≡ some running
    → Continues int_on r
    → Ordered current
        (ready_list ++ t ∷ [])
        destroyed
        (put threads t (some (record { status = ready; code = begin ∷ r })))
        semaphores
Ordered-fork {current} {ready_list} {destroyed} {threads} {semaphores} t r o new st f = record {
  distinct_ready = Distinct-append ready_list t o.distinct_ready (ground (arith, o.is_ready t));
  distinct_queue = o.distinct_queue;
  is_ready = λ t' h. ground (arith, o.is_ready t', contains-append ready_list t t');
  is_blocked = λ s t' h. ground (arith, o.is_blocked s t');
  waits = λ s t' h. ground (arith, o.waits s t', o.is_blocked s t');
  resumed = λ t' h n d. ground (arith, o.resumed t');
  fits = λ t' h n d. ground (arith, o.fits t');
  destroyed_ne_current = o.destroyed_ne_current;
  destroyed_status = λ t' d. ground (arith, o.destroyed_status t');
  destroyed_code = λ t' d. ground (arith, o.destroyed_code t', o.destroyed_status t');
  current_status = ground (arith, o.current_status);
  destroys = ground (arith, o.destroys);
}
