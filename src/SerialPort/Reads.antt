-- ===== src/SerialPort/Reads.antt =====
-- What a read of a serial port returns, against the bytes that it takes.
use elite_robots_cs_sdk.Shared.{
  ℕ, ◌+◌, ◌%◌, ◌^◌, ◌≤◌, ◌<◌, ◌≡◌, refl, sym, ap, ◌∙◌, [], ◌∷◌, ◌++◌, Bytes, Bool, true, false,
  ◌&&◌, Result, ok, if◌then◌else◌, ltb, leb, leb→le, lt→ltb, length, take, drop, length-take, ℤ,
  pos, negsuc, ltb_ℤ, ◌⊎◌, inl, inr, arith, zero, suc, Bool-cases, ltb→lt, some, none, not,
}
use elite_robots_cs_sdk.SerialPort.{
  SerialPort, Read, as_int, reported, read_blocking, read_timed, read_serial,
}

-- The bytes in the buffer are the next of the connection, no more than were asked for; and the result
-- is 0 where the read is still to be completed, and otherwise their number, or -1 where there are none.
abbrev pub Counts : ℕ → SerialPort → ℤ → Bytes → SerialPort → Type 0
Counts size s r data_bytes t =
    (data_bytes ++ t.incoming ≡ s.incoming)
    × (length data_bytes ≤ size)
    × (((t.pending ≡ true) × (r ≡ pos 0))
        ⊎ ((t.pending ≡ false)
            × ((r ≡ pos (length data_bytes)) ⊎ ((r ≡ negsuc 0) × (data_bytes ≡ [])))))

abbrev Reads : ℕ → SerialPort → Result Read × SerialPort → Type 0
Reads size s x =
    (r : ℤ) × (data_bytes : Bytes) × (t : SerialPort) × (x ≡ (ok (some (r, data_bytes)), t))
    × Counts size s r data_bytes t

if-Reads :
    (size : ℕ) (s : SerialPort) (b : Bool) (x y : Result Read × SerialPort)
    → (b ≡ true → Reads size s x)
    → (b ≡ false → Reads size s y)
    → Reads size s (if b then x else y)
if-Reads size s true x y h k = h refl
if-Reads size s false x y h k = k refl

take-drop : (n : ℕ) (xs : Bytes) → take n xs ++ drop n xs ≡ xs
take-drop zero xs = refl
take-drop (suc n) [] = refl
take-drop (suc n) (x ∷ xs) = ap (λ ys. x ∷ ys) (take-drop n xs)

as_int-small : (n : ℕ) → n < 2 ^ 31 → as_int n ≡ pos n
as_int-small n small =
    let whole : n % 2 ^ 32 ≡ n = omega arith in rw (whole, lt→ltb n (2 ^ 31) small) refl

reported-cases :
    (error : Bool) (bs : Bytes)
    → length bs < 2 ^ 31
    → (reported error (length bs) ≡ pos (length bs))
      ⊎ ((reported error (length bs) ≡ negsuc 0) × (bs ≡ []))
reported-cases true [] small = inr (refl, refl)
reported-cases false [] small = inl refl
reported-cases error (b ∷ bs) small = inl (counted error)
  where
    counted : (e : Bool) → reported e (suc (length bs)) ≡ pos (suc (length bs))
    counted true =
        rw (as_int-small (suc (length bs)) small, lt→ltb 0 (suc (length bs) + 0) (omega arith)) refl
    counted false = as_int-small (suc (length bs)) small

leb→lt : (a b : ℕ) → leb a b ≡ false → b < a
leb→lt a b h = ground arith

and-left : (a b : Bool) → (a && b) ≡ true → a ≡ true
and-left a b e = ground (arith, Bool-cases a)

and-right : (a b : Bool) → (a && b) ≡ true → b ≡ true
and-right a b e = ground (arith, Bool-cases a)

not-true : (a : Bool) → not a ≡ true → a ≡ false
not-true a e = ground (arith, Bool-cases a)

blocking-Reads :
    (size : ℕ) (s : SerialPort)
    → s.pending ≡ false
    → size < 2 ^ 31
    → (ltb (length (take size s.incoming)) size && not s.ends) ≡ false
    → Reads size s (read_blocking size s)
unfolding read_blocking
blocking-Reads size s idle small comes =
    let got = take size s.incoming in
    let fits : length got ≤ size = omega (arith, length-take size s.incoming) in
    if-Reads size s (ltb (length got) size && not s.ends) _ _
      (λ waits. absurd (let bad = sym comes ∙ waits in cc))
      λ _. (
        _,
        got,
        _,
        refl,
        (
          take-drop size s.incoming,
          fits,
          inr (idle, reported-cases (ltb (length got) size) got (omega arith)),
        ),
      )

timed-Reads :
    (size arrived : ℕ) (s : SerialPort)
    → s.pending ≡ false
    → size < 2 ^ 31
    → Reads size s (read_timed size arrived s)
unfolding read_timed
timed-Reads size arrived s idle small =
    let there = take arrived s.incoming in
    if-Reads size s (s.pending && ltb 0 arrived) _ _
      (λ busy. absurd (let bad = rw idle at busy in cc))
      λ _.
        if-Reads size s (leb size (length there)) _ _
          (λ whole. (
            _,
            take size s.incoming,
            _,
            refl,
            (
              take-drop size s.incoming,
              omega (arith, length-take size s.incoming),
              inr (
                idle,
                inl (
                    as_int-small size small
                    ∙ ap pos (
                        let room = leb→le size (length there) whole in
                        omega
                          (arith, length-take size s.incoming, length-take arrived s.incoming))),
              ),
            ),
          ))
          λ short.
            if-Reads size s (s.ends && ltb (length s.incoming) arrived) _ _
              (λ ended. (
                _,
                there,
                _,
                refl,
                (
                  take-drop arrived s.incoming,
                  (let less = leb→lt size (length there) short in omega arith),
                  inr (
                    idle,
                    reported-cases true there
                        (let less = leb→lt size (length there) short in omega arith),
                  ),
                ),
              ))
              (λ waits. (
                _,
                there,
                _,
                refl,
                (
                  take-drop arrived s.incoming,
                  (let less = leb→lt size (length there) short in omega arith),
                  inl (refl, refl),
                ),
              ))

-- A read of an open port, with no earlier read to be completed, of less than 2 ^ 31 bytes. Either it has no
-- timeout, fewer bytes come than were asked for, and the robot does not end the connection: then it does not
-- return. Or it returns: the bytes in the buffer are the next of the connection, at most as many as were
-- asked for, and what follows them is left; the result is 0 where the time has run out, and otherwise
-- the number of these bytes, or -1 where there are none.
pub read_serial-Counts :
    (size arrived : ℕ) (timeout_ms : ℤ) (s : SerialPort)
    → s.is_open ≡ true
    → s.pending ≡ false
    → size < 2 ^ 31
    → ((ltb_ℤ (pos 0) timeout_ms ≡ false)
        × ((length s.incoming < size) × (s.ends ≡ false))
        × (read_serial size timeout_ms arrived s ≡ (ok none, s)))
      ⊎ ((r : ℤ) × (data_bytes : Bytes) × (t : SerialPort) × (read_serial size timeout_ms arrived s
            ≡ (ok (some (r, data_bytes)), t))
          × Counts size s r data_bytes t)
unfolding read_serial read_blocking
read_serial-Counts size arrived timeout_ms s up idle small =
    elim (Bool-cases (ltb_ℤ (pos 0) timeout_ms)) [
      | inl timed ↦ inr (
          if-Reads size s s.is_open _ _ (λ _. rw timed (timed-Reads size arrived s idle small))
            (λ closed. absurd (let bad = sym up ∙ closed in cc)))
      | inr blocking ↦ elim (Bool-cases (ltb (length (take size s.incoming)) size && not s.ends)) [
        | inl waits ↦
            let short = ltb→lt (length (take size s.incoming)) size (and-left _ _ waits) in
            inl (
              blocking,
              (omega (arith, length-take size s.incoming), not-true s.ends (and-right _ _ waits)),
              rw (up, blocking, waits) refl,
            )
        | inr comes ↦ inr (
            if-Reads size s s.is_open _ _
              (λ _. rw blocking (blocking-Reads size s idle small comes))
              (λ closed. absurd (let bad = sym up ∙ closed in cc)))
      ]
    ]
