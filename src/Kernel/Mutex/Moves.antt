-- ===== src/Kernel/Mutex/Moves.antt =====
-- The moves of a lock from thread to thread.
use nach_os.Base.{ℕ, ◌+◌, ◌-◌, ◌≡◌, ◌≢◌, Option, none, some, arith}
use nach_os.Kernel.{put}
use nach_os.Kernel.Mutex.{Role, outside, entering, owning, bad, Exclusive}

module _ {roles : ℕ → Role} {value : ℕ} {holder : Option ℕ} (e : Exclusive roles value holder)
    (t : ℕ) where
  -- P takes the semaphore.
  pub Exclusive-take :
      roles t ≡ entering → value ≢ 0 → Exclusive (put roles t owning) (value - 1) holder
  Exclusive-take r v = record {
    not_bad = λ u. ground (arith, e.not_bad u);
    holder_value = λ u h. ground (arith, e.holder_value u);
    owner_value = λ u h. ground (arith, e.small);
    one_holder = λ u w h. ground (arith, e.holder_value u);
    unique = λ u w h h'. ground (arith, e.owner_value u, e.owner_value w);
    small = ground (arith, e.small);
  }

  -- V gives it back.
  pub Exclusive-give : roles t ≡ owning → Exclusive (put roles t outside) (value + 1) holder
  Exclusive-give r = record {
    not_bad = λ u. ground (arith, e.not_bad u);
    holder_value = λ u h. ground (arith, e.one_holder u t);
    owner_value = λ u h. ground (arith, e.unique u t);
    one_holder = λ u w h. ground (arith, e.one_holder u t);
    unique = λ u w h h'. ground (arith, e.unique u t, e.unique w t);
    small = ground (arith, e.owner_value t);
  }

  pub Exclusive-hold : roles t ≡ owning → Exclusive (put roles t outside) value (some t)
  Exclusive-hold r = record {
    not_bad = λ u. ground (arith, e.not_bad u);
    holder_value = λ u h. ground (arith, e.owner_value t);
    owner_value = λ u h. ground (arith, e.owner_value t);
    one_holder = λ u w h. ground (arith, e.unique w t);
    unique = λ u w h h'. ground (arith, e.unique u t, e.unique w t);
    small = e.small;
  }

  pub Exclusive-release :
      roles t ≡ outside → holder ≡ some t → Exclusive (put roles t owning) value none
  Exclusive-release r h = record {
    not_bad = λ u. ground (arith, e.not_bad u);
    holder_value = λ u i. cc;
    owner_value = λ u i. ground (arith, e.holder_value t);
    one_holder = λ u w i. cc;
    unique = λ u w i i'. ground (arith, e.one_holder t u, e.one_holder t w);
    small = e.small;
  }

  -- A thread that has nothing to do with the lock starts to wait for it.
  pub Exclusive-enter :
      (r' : Role)
      → r' ≢ owning
      → r' ≢ bad
      → roles t ≢ owning
      → Exclusive (put roles t r') value holder
  Exclusive-enter r' o b r = record {
    not_bad = λ u. ground (arith, e.not_bad u);
    holder_value = e.holder_value;
    owner_value = λ u h. ground (arith, e.owner_value u);
    one_holder = λ u w h. ground (arith, e.one_holder u w);
    unique = λ u w h h'. ground (arith, e.unique u w);
    small = e.small;
  }
