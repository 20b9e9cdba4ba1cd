-- ===== src/Semaphores/Deadline.antt =====
-- `section5_timedwait` of exercises/30_semaphores/semaphores.c: the deadline of a bounded wait.
use c_programming.Prelude.{ℕ, ◌+◌, ◌-◌, ◌*◌, ◌<◌, ◌≡◌, Bool, true, if◌then◌else◌, leb, ltb, arith}
use c_programming.Semaphores.{sem_trywait, sem_post}

-- `struct timespec`, of a clock after 1970: its fields are not negative.
pub record Timespec : Type 0 where
  pub tv_sec : ℕ
  pub tv_nsec : ℕ

abbrev pub second : ℕ
second = 1000000000

unfoldable pub add_100_ms : Timespec → Timespec
add_100_ms now =
    let nsec = now.tv_nsec + 100000000 in
    if leb second nsec
    then record { tv_sec = now.tv_sec + 1; tv_nsec = nsec - second }
    else record { tv_sec = now.tv_sec; tv_nsec = nsec }

abbrev pub add_2_s : Timespec → Timespec
add_2_s now = record { tv_sec = now.tv_sec + 2; tv_nsec = now.tv_nsec }

-- The nanoseconds that a time stands for.
abbrev pub nanos : Timespec → ℕ
nanos t = t.tv_sec * second + t.tv_nsec

-- A deadline is valid where its nanoseconds are below a second; a wait with another fails with EINVAL.
abbrev pub is_valid : Timespec → Bool
is_valid t = ltb t.tv_nsec second

pub data Waited : Type 0 where
  acquired : Waited
  timed_out : Waited
  invalid : Waited

-- `sem_timedwait` where nobody else posts: the new value and the result.
unfoldable pub sem_timedwait : ℕ → Timespec → ℕ × Waited
unfolding sem_trywait
sem_timedwait v deadline =
    let (left, taken) = sem_trywait v in
    if taken then (left, acquired) else (v, if is_valid deadline then timed_out else invalid)

-- The two waits of the section, at the two times that the clock tells.
unfoldable pub section5_timedwait : Timespec → Timespec → Waited × Waited
unfolding sem_timedwait add_100_ms
section5_timedwait now later =
    let (v, first) = sem_timedwait 0 (add_100_ms now) in
    let (_, second_wait) = sem_timedwait (sem_post v) (add_2_s later) in (first, second_wait)

-- With a clock that tells valid times, the deadline is valid and 100 ms ahead, so the first wait times
-- out, and the second acquires the semaphore at once.
pub section5-deadline :
    (now later : Timespec)
    → now.tv_nsec < second
    → (is_valid (add_100_ms now) ≡ true)
      × (nanos (add_100_ms now) ≡ nanos now + 100000000)
      × (section5_timedwait now later ≡ (timed_out, acquired))
unfolding add_100_ms section5_timedwait
section5-deadline now later h = (ground arith, ground arith, ground arith)
