-- ===== src/Mutex/Locks.antt =====
-- No bucket is locked twice, and a lock is given back whole.
use bt_server.Prelude.{
  ℕ, ◌+◌, ◌≤◌, ◌≡◌, ◌≢◌, refl, List, [], ◌∷◌, true, false, none, some, arith, ◌==◌, if◌then◌else◌,
  length, length-append,
}
use bt_server.Mutex.{max_threads, is_locked, bucket_check, bucket_push, bucket_remove, bucket_lock}

-- How often a bucket stands in the list of locks.
unfoldable pub holds : ℕ → List ℕ → ℕ
holds bucket [] = 0
holds bucket (b ∷ locks) = (if b == bucket then 1 else 0) + holds bucket locks

holds-push :
    (bucket c : ℕ) (locks : List ℕ)
    → holds c (bucket_push bucket locks) ≡ holds c locks + (if bucket == c then 1 else 0)
unfolding holds
holds-push bucket c [] = omega arith
holds-push bucket c (b ∷ locks) = omega (arith, holds-push bucket c locks)

is_locked-holds :
    (bucket : ℕ) (locks : List ℕ) → is_locked bucket locks ≡ false → holds bucket locks ≡ 0
unfolding holds
is_locked-holds bucket [] h = refl
is_locked-holds bucket (b ∷ locks) h = ground (arith, is_locked-holds bucket locks)

holds-is_locked :
    (bucket : ℕ) (locks : List ℕ) → holds bucket locks ≡ 0 → is_locked bucket locks ≡ false
unfolding holds
holds-is_locked bucket [] h = refl
holds-is_locked bucket (b ∷ locks) h = ground (arith, holds-is_locked bucket locks)

holds-remove :
    (bucket c : ℕ) (locks : List ℕ)
    → holds bucket locks ≡ 1
    → holds c (bucket_remove bucket locks) + (if bucket == c then 1 else 0) ≡ holds c locks
unfolding holds bucket_remove
holds-remove bucket c [] h = cc
holds-remove bucket c (b ∷ locks) h = ground (arith, holds-remove bucket c locks)

-- Each bucket is locked once at most, and there are no more locks than threads.
pub record Exclusive (locks : List ℕ) : Type 0 where
  pub once : (c : ℕ) → holds c locks ≤ 1
  pub few : length locks ≤ max_threads

length-remove : (bucket : ℕ) (locks : List ℕ) → length (bucket_remove bucket locks) ≤ length locks
unfolding bucket_remove
length-remove bucket [] = omega arith
length-remove bucket (b ∷ locks) = ground (arith, length-remove bucket locks)

-- What the locks are after a successful `mutex_bucket_lock` and, later, its unlock.
pub record LockedFor (bucket : ℕ) (locks after : List ℕ) : Type 0 where
  pub was_free : holds bucket locks ≡ 0
  pub exclusive : Exclusive after
  pub blocks : bucket_lock bucket after ≡ none
  pub others : (c : ℕ) → c ≢ bucket → holds c after ≡ holds c locks
  pub released : (c : ℕ) → holds c (bucket_remove bucket after) ≡ holds c locks

lock_free :
    (bucket : ℕ) (locks after : List ℕ)
    → bucket_lock bucket locks ≡ some after
    → is_locked bucket locks ≡ false
unfolding bucket_lock bucket_check
lock_free bucket locks after e = ground arith

lock_pushed :
    (bucket : ℕ) (locks after : List ℕ)
    → bucket_lock bucket locks ≡ some after
    → bucket_push bucket locks ≡ after
unfolding bucket_lock bucket_check
lock_pushed bucket locks after e = ground arith

lock_few :
    (bucket : ℕ) (locks after : List ℕ)
    → bucket_lock bucket locks ≡ some after
    → length locks ≢ max_threads
unfolding bucket_lock bucket_check
lock_few bucket locks after e = ground arith

locked_waits :
    (bucket : ℕ) (locks : List ℕ) → is_locked bucket locks ≡ true → bucket_lock bucket locks ≡ none
unfolding bucket_lock bucket_check
locked_waits bucket locks e = ground arith

is_locked-push : (bucket : ℕ) (locks : List ℕ) → is_locked bucket (bucket_push bucket locks) ≡ true
is_locked-push bucket [] = ground arith
is_locked-push bucket (b ∷ locks) = ground (arith, is_locked-push bucket locks)

-- `mutex_bucket_lock` returns only where no one holds the bucket. Afterwards each bucket is still
-- locked once at most and there are at most 64 locks, a second request for the bucket waits, the other
-- buckets are as before, and unlocking gives back exactly what was taken.
pub bucket_lock-LockedFor :
    (bucket : ℕ) (locks after : List ℕ)
    → Exclusive locks
    → bucket_lock bucket locks ≡ some after
    → LockedFor bucket locks after
bucket_lock-LockedFor bucket locks after x e =
    let free = is_locked-holds bucket locks (lock_free bucket locks after e) in
    rw (← lock_pushed bucket locks after e) (record {
      was_free = free;
      exclusive = record {
        once = λ c. ground (arith, holds-push bucket c locks, x.once c, free);
        few =
            omega (arith, length-append locks (bucket ∷ []), x.few, lock_few bucket locks after e);
      };
      blocks = locked_waits bucket (bucket_push bucket locks) (is_locked-push bucket locks);
      others = λ c ne. ground (arith, holds-push bucket c locks);
      released = λ c. ground (
        arith,
        holds-remove bucket c (bucket_push bucket locks),
        holds-push bucket bucket locks,
        holds-push bucket c locks,
        free,
      );
    })
