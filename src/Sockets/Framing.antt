-- ===== src/Sockets/Framing.antt =====
-- `recv_all` and `recv_msg` of exercises/26_sockets/sockets.c, however the stream is split into reads.
use c_programming.Prelude.{
  ℕ, zero, suc, ◌+◌, ◌-◌, ◌%◌, ◌≤◌, ◌<◌, ◌≡◌, refl, sym, ap, ◌∙◌, false, Option, none, some, [],
  ◌∷◌, ◌++◌, if◌then◌else◌, leb, ◌==◌, length, length-append, take, drop, arith, Bool-cases, inl,
  inr, ◌⊎◌,
}
use c_programming.Prelude.Texts.{Text}
use mathlib.Core.List.{append_assoc}
use c_programming.Sockets.{
  Arrivals, arriving, arrived, Stream, stream, recv, recv_loop, recv_all, frame, recv_msg,
}

take-take : (n m : ℕ) (d : Text) → take (length (take n (take m d))) d ≡ take n (take m d)
take-take zero m d = refl
take-take (suc n) zero d = refl
take-take (suc n) (suc m) [] = refl
take-take (suc n) (suc m) (c ∷ d) = ap (λ l. c ∷ l) (take-take n m d)

length-take_le : (n : ℕ) (d : Text) → length (take n d) ≤ n
length-take_le zero d = omega arith
length-take_le (suc n) [] = omega arith
length-take_le (suc n) (c ∷ d) = omega (arith, length-take_le n d)

take_split : (j n : ℕ) (d : Text) → j ≤ n → take j d ++ take (n - j) (drop j d) ≡ take n d
take_split zero n d low = let e : n - 0 ≡ n = omega arith in rw e refl
take_split (suc j) zero d low = absurd (omega arith)
take_split (suc j) (suc n) [] low = take_nil (suc n - suc j)
  where
    take_nil : (k : ℕ) → take {A = ℕ} k [] ≡ []
    take_nil zero = refl
    take_nil (suc k) = refl
take_split (suc j) (suc n) (c ∷ d) low =
    let e : suc n - suc j ≡ n - j = omega arith in
    rw e (ap (λ l. c ∷ l) (take_split j n d (omega arith)))

drop_split : (j n : ℕ) (d : Text) → j ≤ n → drop (n - j) (drop j d) ≡ drop n d
drop_split zero n d low = let e : n - 0 ≡ n = omega arith in rw e refl
drop_split (suc j) zero d low = absurd (omega arith)
drop_split (suc j) (suc n) [] low = drop_nil (suc n - suc j)
  where
    drop_nil : (k : ℕ) → drop {A = ℕ} k [] ≡ []
    drop_nil zero = refl
    drop_nil (suc k) = refl
drop_split (suc j) (suc n) (c ∷ d) low =
    let e : suc n - suc j ≡ n - j = omega arith in rw e (drop_split j n d (omega arith))

take-drop : (j : ℕ) (d : Text) → take j d ++ drop j d ≡ d
take-drop zero d = refl
take-drop (suc j) [] = refl
take-drop (suc j) (c ∷ d) = ap (λ l. c ∷ l) (take-drop j d)

-- A read takes at most as many bytes as it is asked for off the front of the stream.
recv-short :
    (arrivals : Arrivals) (n : ℕ) (s : Stream)
    → (length ((recv arrivals n s).0) ≤ n)
      × ((recv arrivals n s).0 ++ (recv arrivals n s).1.data_left ≡ s.data_left)
unfolding recv
recv-short arrivals n s = front (arrivals s.reads) n s.data_left
  where
    front :
        (a : Option ℕ) (n : ℕ) (d : Text)
        → (length (arrived a n d) ≤ n) × (arrived a n d ++ drop (length (arrived a n d)) d ≡ d)
    front none n d = (omega arith, refl)
    front (some m) n d = (
      length-take_le n (take (suc m) d),
      ap (λ l. l ++ drop (length (take n (take (suc m) d))) d) (sym (take-take n (suc m) d))
          ∙ take-drop (length (take n (take (suc m) d))) d,
    )

nothing_read : (chunk d e : Text) → length chunk ≡ 0 → chunk ++ d ≡ e → d ≡ e
nothing_read [] d e none_read kept = kept
nothing_read (c ∷ chunk) d e none_read kept = absurd (omega arith)

suc_ne_zero : (n : ℕ) → (suc n == 0) ≡ false
suc_ne_zero n = ground arith

module _ (more : ℕ → ℕ) where
  -- The reads give the next bytes, as many as are asked for or are left.
  recv_loop-take :
      (rounds left : ℕ) (d : Text) (t : ℕ)
      → left < rounds
      → (t' : ℕ) × (recv_loop (arriving more) rounds left (stream d t)
          ≡ some (take left d, stream (drop left d) t'))
  unfolding recv_loop recv
  recv_loop-take zero left d t fuel = absurd (omega arith)
  recv_loop-take (suc rounds) zero d t fuel = (t, refl)
  recv_loop-take (suc rounds) (suc left) [] t fuel = (t + 1, rw (suc_ne_zero left) refl)
  recv_loop-take (suc rounds) (suc left) (c ∷ d) t fuel =
      let chunk = take left (take (more t) d) in
      let j = length chunk in
      let short = length-take_le left (take (more t) d) in
      let (t', run) = recv_loop-take rounds (left - j) (drop j d) (t + 1) (omega arith) in
      let rest : suc left - suc j ≡ left - j = omega arith in
      let after = drop_split j left d short in
      let bytes =
        ap (λ l. l ++ take (left - j) (drop j d)) (sym (take-take left (more t) d))
        ∙ take_split j left d short in
      (
        t',
        rw (suc_ne_zero left, suc_ne_zero j, rest, run)
            (λ i. some (c ∷ bytes i, stream (after i) t')),
      )

  recv_all-take :
      (n : ℕ) (d : Text) (t : ℕ)
      → (t' : ℕ) × (recv_all (arriving more) n (stream d t) ≡ some (take n d, stream (drop n d) t'))
  unfolding recv_all
  recv_all-take n d t = recv_loop-take (n + 1) n d t (omega arith)

take_front : (a b : Text) → take (length a) (a ++ b) ≡ a
take_front [] b = refl
take_front (c ∷ a) b = ap (λ l. c ∷ l) (take_front a b)

drop_front : (a b : Text) → drop (length a) (a ++ b) ≡ b
drop_front [] b = refl
drop_front (c ∷ a) b = drop_front a b

pub take_long : (n : ℕ) (a : Text) → length a ≤ n → take n a ≡ a
take_long zero [] low = refl
take_long (suc n) [] low = refl
take_long zero (c ∷ a) low = absurd (omega arith)
take_long (suc n) (c ∷ a) low = ap (λ l. c ∷ l) (take_long n a (omega arith))

-- A message that fits in a `uint8_t` is its length and its bytes.
frame_is : (msg : Text) → length msg < 256 → frame msg ≡ length msg ∷ msg
unfolding frame
frame_is msg small =
    let e : length msg % 256 ≡ length msg = omega arith in
    rw (e, take_long (length msg) msg (omega arith)) refl

module _ (more : ℕ → ℕ) (bufsz : ℕ) where
  -- However the stream is split into reads, as long as none fails, recv_msg takes exactly the next message off it, where that has
  -- at most 255 bytes and fits in the buffer.
  pub recv_msg-frame :
      (msg rest : Text) (t : ℕ)
      → length msg < 256
      → length msg < bufsz
      → (t' : ℕ) × (recv_msg (arriving more) bufsz (stream (frame msg ++ rest) t)
          ≡ some (some msg, stream rest t'))
  unfolding recv_msg
  recv_msg-frame msg rest t small fits =
      let (t1, head) = recv_all-take more 1 (length msg ∷ (msg ++ rest)) t in
      let (t2, body) = recv_all-take more (length msg) (msg ++ rest) t1 in
      let whole : leb bufsz (length msg) ≡ false = ground arith in
      (
        t2,
        rw (frame_is msg small, head, whole, body, take_front msg rest, drop_front msg rest) refl,
      )

cut_fits : (len bufsz : ℕ) → 0 < bufsz → (if leb bufsz len then (bufsz - 1) % 256 else len) < bufsz
cut_fits len bufsz positive = ground arith

-- The loop reads at most the bytes that it is asked for, whatever happens at each read.
recv_loop-short :
    (arrivals : Arrivals) (rounds left : ℕ) (s : Stream)
    → left < rounds
    → (t : Text) × (s' : Stream) × (recv_loop arrivals rounds left s ≡ some (t, s'))
      × (length t ≤ left)
      × (t ++ s'.data_left ≡ s.data_left)
unfolding recv_loop
recv_loop-short arrivals zero left s fuel = absurd (omega arith)
recv_loop-short arrivals (suc rounds) left s fuel =
    let (chunk, s1) = recv arrivals left s in
    let (some_read, kept) = recv-short arrivals left s in
    elim (Bool-cases (left == 0)) [
      | inl done ↦ rw done ([], s, refl, omega arith, refl)
      | inr on ↦ elim (Bool-cases (length chunk == 0)) [
        | inl stops ↦
            rw (on, stops)
              (
                [],
                s1,
                refl,
                omega arith,
                nothing_read chunk s1.data_left s.data_left (ground arith) kept,
              )
        | inr reads ↦
            let (t, s2, run, short, rest) =
              recv_loop-short arrivals rounds (left - length chunk) s1 (ground arith) in
            rw (on, reads, run)
              (
                chunk ++ t,
                s2,
                refl,
                omega (arith, length-append chunk t, some_read, short),
                append_assoc chunk t s2.data_left ∙ ap (λ l. chunk ++ l) rest ∙ kept,
              )
      ]
    ]

recv_all-short :
    (arrivals : Arrivals) (n : ℕ) (s : Stream)
    → (t : Text) × (s' : Stream) × (recv_all arrivals n s ≡ some (t, s'))
      × (length t ≤ n)
      × (t ++ s'.data_left ≡ s.data_left)
unfolding recv_all
recv_all-short arrivals n s = recv_loop-short arrivals (n + 1) n s (omega arith)

module _ (arrivals : Arrivals) (t : ℕ) where
  -- The read of the length.
  one_failed :
      (d : Text)
      → arrivals t ≡ none
      → recv_all arrivals 1 (stream d t) ≡ some ([], stream d (t + 1))
  unfolding recv_all recv_loop recv
  one_failed d e = rw e refl

  one_ended :
      (m : ℕ)
      → arrivals t ≡ some m
      → recv_all arrivals 1 (stream [] t) ≡ some ([], stream [] (t + 1))
  unfolding recv_all recv_loop recv
  one_ended m e = rw e refl

  one_read :
      (m len : ℕ) (d : Text)
      → arrivals t ≡ some m
      → recv_all arrivals 1 (stream (len ∷ d) t) ≡ some (len ∷ [], stream d (t + 1))
  unfolding recv_all recv_loop recv
  one_read m len d e = rw e refl

-- The answer of recv_msg lies in the buffer, and is -1 only at the end of the stream or at an error of
-- the first read.
abbrev pub Answered : Arrivals → ℕ → Stream → Option Text → Type 0
Answered arrivals bufsz s none = (s.data_left ≡ []) ⊎ (arrivals s.reads ≡ none)
Answered arrivals bufsz s (some msg) = length msg < bufsz

-- recv_msg ends on every stream, whatever happens at each read, errors included. It writes inside the
-- buffer, the final 0 included, whatever length the stream claims, and its result is -1 only where
-- nothing is left or the first read fails.
pub recv_msg-Answered :
    (arrivals : Arrivals) (bufsz : ℕ) (s : Stream)
    → 0 < bufsz
    → (answer : Option Text) × (s' : Stream) × (recv_msg arrivals bufsz s ≡ some (answer, s'))
      × Answered arrivals bufsz s answer
unfolding recv_msg
recv_msg-Answered arrivals bufsz s positive = at (arrivals s.reads) s.data_left refl
  where
    at :
        (a : Option ℕ) (d : Text)
        → arrivals s.reads ≡ a
        → (answer : Option Text) × (s' : Stream) × (recv_msg arrivals bufsz (stream d s.reads)
            ≡ some (answer, s'))
          × Answered arrivals bufsz (stream d s.reads) answer
    at none d e = rw (one_failed arrivals s.reads d e) (none, stream d (s.reads + 1), refl, inr e)
    at (some m) [] e =
        rw (one_ended arrivals s.reads m e) (none, stream [] (s.reads + 1), refl, inl refl)
    at (some m) (len ∷ d) e =
        let n : ℕ = if leb bufsz len then (bufsz - 1) % 256 else len in
        let (msg, s', body, short, rest) = recv_all-short arrivals n (stream d (s.reads + 1)) in
        let fits : n < bufsz = cut_fits len bufsz positive in
        rw (one_read arrivals s.reads m len d e, body)
          (some msg, s', refl, omega (arith, fits, short))
