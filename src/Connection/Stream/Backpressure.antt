-- ===== src/Connection/Stream/Backpressure.antt =====
-- When the socket of a stream is paused.
use minipg.Base.{
  ℕ, ◌*◌, ◌≤◌, ◌≡◌, refl, Bool, true, false, not, ◌&&◌, List, [], ◌∷◌, ◌++◌, length, length-append,
  ltb, ltb→lt, ltb→le, if-split, option-split, list-split, arith,
}
use minipg.Connection.State.{Error}
use minipg.Connection.Stream.{
  item, Stream, opened, answer, stream_end, stream_error, next_empty, shift, pause_if_full, on_row,
  resume_if_low, next, Event, receives, asks, ends, fails, plugs, step, run,
}

module _ {ℓ} {A : Type ℓ} where
  -- While the socket is paused the buffer is at least half full, and no call waits beside a row.
  record Holds (s : Stream A) : Type 0 where
    full : s.paused ≡ true → s.high_water_mark ≤ 2 * length s.buf
    dry : s.waiting ≡ true → length s.buf ≡ 0

  next_empty-Holds : (s : Stream A) → length s.buf ≡ 0 → Holds s → Holds (next_empty s)
  unfolding next_empty answer
  next_empty-Holds s e h =
      option-split Holds s.err
        (λ k.
          if-split Holds s.done (λ m. record { full = h.full; dry = h.dry })
            (λ m. record { full = h.full; dry = λ n. e }))
        (λ x k. record { full = h.full; dry = h.dry })

  next-Holds : (s : Stream A) → Holds s → Holds (next s)
  unfolding next resume_if_low answer
  next-Holds s h =
      list-split Holds s.buf (λ k. next_empty-Holds s (ground arith) h)
        (λ r rs k.
          let w : s.waiting ≡ true → length rs ≡ 0 = λ m. absurd (ground (arith, h.dry m)) in
          if-split (λ (t : Stream A). Holds (answer (item r) t))
            (s.paused && ltb (2 * length rs) s.high_water_mark)
            (λ m. record { full = λ n. cc; dry = w })
            (λ m. record { full = λ n. ltb→le _ _ (other s.paused _ n m); dry = w }))
    where
      other : (a b : Bool) → a ≡ true → (a && b) ≡ false → b ≡ false
      other true b p q = q
      other false b p q = cc

  taken :
      (r : A) (s : Stream A)
      → Holds s
      → s.waiting ≡ true
      → Holds (shift (record s { buf = s.buf ++ (r ∷ []); waiting = false }))
  unfolding shift answer
  taken r s h k =
      list-split Holds (s.buf ++ (r ∷ [])) (λ e. absurd (no_nil s.buf e))
        (λ x xs e. record { full = λ n. omega (arith, h.full n, h.dry k); dry = λ n. cc })
    where
      no_nil : (ys : List A) → ys ++ (r ∷ []) ≡ [] → ⊥
      no_nil [] e = cc
      no_nil (y ∷ ys) e = cc

  on_row-Holds : (r : A) (s : Stream A) → Holds s → Holds (on_row r s)
  unfolding on_row shift pause_if_full answer
  on_row-Holds r s h =
      if-split Holds s.waiting (λ k. taken r s h k)
        (λ k.
          if-split Holds
            (ltb s.high_water_mark (length (s.buf ++ (r ∷ []))) && (s.socket && not s.paused))
            (λ m. record {
              full = λ n. omega (
                arith,
                ltb→lt s.high_water_mark (length (s.buf ++ (r ∷ [])))
                    (first _ (s.socket && not s.paused) m),
              );
              dry = λ n. cc;
            })
            (λ m. record {
              full = λ n. omega (arith, h.full n, length-append s.buf (r ∷ []));
              dry = λ n. cc;
            }))
    where
      first : (a b : Bool) → (a && b) ≡ true → a ≡ true
      first true b p = refl
      first false b p = cc

  stream_end-Holds : (s : Stream A) → Holds s → Holds (stream_end s)
  unfolding stream_end answer
  stream_end-Holds s h =
      if-split Holds s.waiting (λ k. record { full = h.full; dry = λ m. cc })
        (λ k. record { full = h.full; dry = h.dry })

  stream_error-Holds : (e : Error) (s : Stream A) → Holds s → Holds (stream_error e s)
  unfolding stream_error answer
  stream_error-Holds e s h =
      if-split Holds s.waiting (λ k. record { full = h.full; dry = λ m. cc })
        (λ k. record { full = h.full; dry = h.dry })

  run-Holds : (es : List (Event A)) (s : Stream A) → Holds s → Holds (run es s)
  unfolding run step
  run-Holds [] s h = h
  run-Holds (receives r ∷ es) s h = run-Holds es (on_row r s) (on_row-Holds r s h)
  run-Holds (asks ∷ es) s h = run-Holds es (next s) (next-Holds s h)
  run-Holds (ends ∷ es) s h = run-Holds es (stream_end s) (stream_end-Holds s h)
  run-Holds (fails e ∷ es) s h = run-Holds es (stream_error e s) (stream_error-Holds e s h)
  run-Holds (plugs b ∷ es) s h =
      run-Holds es (record s { socket = b }) (record { full = h.full; dry = h.dry })

  -- Whatever the order of rows, calls of `next`, the end, errors and changes of the socket: while the socket is paused, at
  -- least half the high-water mark of rows is buffered.
  pub paused-run :
      (hwm : ℕ) (es : List (Event A))
      → (run es (opened hwm)).paused ≡ true
      → (run es (opened hwm)).high_water_mark ≤ 2 * length (run es (opened hwm)).buf
  unfolding opened
  paused-run hwm es k =
      (run-Holds es (opened hwm) (record { full = λ n. cc; dry = λ n. cc })).full k
