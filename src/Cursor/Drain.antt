-- ===== src/Cursor/Drain.antt =====
-- Draining a cursor of src/cursor.ts with `all`.
use mathlib.Core.List.{append-nil}
use minipg.Base.{
  ℕ, zero, suc, ◌<◌, ◌≡◌, refl, sym, ap, subst, ◌∙◌, true, false, Option, none, some, List, [], ◌∷◌,
  ◌++◌, arith, length, ltb, Bool-cases, inl, inr, if-split, option-split, take, drop,
  take-append-drop, length-take, length-drop, tests, ltb→le,
}
use minipg.Cursor.{
  Options, fetch, idle, opened, done, Outcome, value, threw, World, Cursor, new_cursor, give_back,
  clear_timers, run_setup, setup, awaited, open_cursor, if_open, close, or_null, fetched,
  fetch_batch, after_open, next, batch_size, join, all, has_ceiling, is_positive, idle_ms,
}
use minipg.Cursor.Sound.{Lease, lease, lease-if_open, phase-split}

module _ {S E R : Type 0} (world : World S E R) (opts : Options) (remaining : S → List R)
    (fetch_answers : (n : ℕ) (s : S) → (world.query (fetch n) s).0 ≡ value (take n (remaining s)))
    (fetch_leaves : (n : ℕ) (s : S)
      → remaining ((world.query (fetch n) s).1) ≡ drop n (remaining s)) where
  abbrev Cur : Type 0
  Cur = Cursor world opts

  -- The cursor is open and sound, and between two calls.
  pub record IsReady (c : Cur) : Type 0 where
    pub no_error : c.err ≡ none
    pub is_open : c.phase ≡ opened
    pub opened_well : c.opening ≡ some (value tt)

  abbrev Finished : Cur → Type 0
  Finished c = (c.phase ≡ done) × (c.err ≡ none)

  give_back-Finished : (c : Cur) → Finished c → Finished (give_back world opts c)
  unfolding give_back
  give_back-Finished c h = if-split Finished c.held (λ e. h) (λ e. h)

  close-Finished : (c : Cur) → c.err ≡ none → c.phase ≡ opened → Finished (close world opts c)
  unfolding close clear_timers
  close-Finished c h p =
      let d : Cur = clear_timers world opts (record c { phase = done }) in
      let same : lease world opts (if_open world opts c.phase c.err d) ≡ lease world opts d =
        lease-if_open world opts c.phase c.err d in
      subst
        (λ q. Finished (elim q [
          | done ↦ c
          | idle ↦ give_back world opts (if_open world opts c.phase c.err d)
          | opened ↦ give_back world opts (if_open world opts c.phase c.err d)
        ]))
        (sym p)
        (give_back-Finished _ (
          ap (λ (l : Lease world opts). l.phase) same,
          ap (λ (l : Lease world opts). l.err) same ∙ h,
        ))

  -- One call of `next` on a cursor that is ready.
  next_ready : (c : Cur) → IsReady c → next world opts c ≡ fetch_batch world opts c
  unfolding next
  next_ready c h =
      option-split P c.err
        (λ n.
          phase-split P c.phase (λ q. cc)
            (λ q.
              ap (λ o. after_open world opts (awaited world opts o, c)) h.opened_well
              ∙ option-split P c.err (λ k. refl) (λ e k. cc))
            (λ q. cc))
        (λ e n. cc)
    where
      P : Outcome E (Option (List R)) × Cur → Type 0
      P r = r ≡ fetch_batch world opts c

  next-Finished : (c : Cur) → Finished c → next world opts c ≡ (value none, c)
  unfolding next
  next-Finished c (p, n) =
      option-split P c.err (λ k. phase-split P c.phase (λ q. cc) (λ q. cc) (λ q. refl)) (λ e k. cc)
    where
      P : Outcome E (Option (List R)) × Cur → Type 0
      P r = r ≡ (value none, c)

  -- The state in which a fetch's answer is looked at.
  abbrev answered : Cur → Cur
  answered c = record c {
    idle_timer = false;
    server = (world.query (fetch (batch_size opts.fetch_size)) c.server).1;
  }

  next_answer :
      (c : Cur)
      → IsReady c
      → next world opts c
        ≡ fetched world opts
            (value (take (batch_size opts.fetch_size) (remaining c.server)))
            (answered c)
  next_answer c h =
      next_ready c h
      ∙ ap (λ o. fetched world opts o (answered c))
          (fetch_answers (batch_size opts.fetch_size) c.server)

  batch_positive : (o : Option ℕ) → 0 < batch_size o
  unfolding batch_size
  batch_positive none = omega arith
  batch_positive (some zero) = omega arith
  batch_positive (some (suc n)) = omega arith

  -- `all` returns the rows, and leaves the cursor done.
  abbrev Drained : List R → Option (Outcome E (List R) × Cur) → Type 0
  Drained rows o = (d : Cur) × ((o ≡ some (value rows, d)) × Finished d)

  join-Drained :
      (b rows : List R) (o : Option (Outcome E (List R) × Cur))
      → Drained rows o
      → Drained (b ++ rows) (join world opts b o)
  join-Drained b rows o (d, (e, f)) = (d, (ap (join world opts b) e, f))

  -- The loop of `all` after one call of `next`.
  all_after :
      (fuel : ℕ) (c d : Cur) (o : Option (List R))
      → next world opts c ≡ (value o, d)
      → all world opts (suc fuel) c ≡ (elim o [
        | none ↦ some (value [], d)
        | some b ↦ join world opts b (all world opts fuel d)
      ])
  unfolding all
  all_after fuel c d o e =
      ap
        (λ r. elim (r.0) [
          | threw x ↦ some (threw x, r.1)
          | value q ↦ elim q [
            | none ↦ some (value [], r.1)
            | some b ↦ join world opts b (all world opts fuel (r.1))
          ]
        ])
        e

  all-Finished :
      (fuel : ℕ) (c : Cur) → Finished c → all world opts (suc fuel) c ≡ some (value [], c)
  all-Finished fuel c h = all_after fuel c c none (next-Finished c h)

  -- The last batch is a short one.
  all_short :
      (fuel : ℕ) (c d : Cur) (rows : List R)
      → Finished d
      → next world opts c ≡ (value (or_null world opts rows), d)
      → Drained rows (all world opts (suc (suc fuel)) c)
  all_short fuel c d [] f e = (d, (all_after (suc fuel) c d none e, f))
  all_short fuel c d (r ∷ rows) f e = (
    d,
    (
      all_after (suc fuel) c d (some (r ∷ rows)) e
          ∙ ap (join world opts (r ∷ rows)) (all-Finished fuel d f)
          ∙ ap (λ q. some (value q, d)) (append-nil (r ∷ rows)),
      f,
    ),
  )

  take_whole : (n : ℕ) (xs : List R) → length (take n xs) < n → take n xs ≡ xs
  take_whole zero xs h = absurd (omega (arith, h))
  take_whole (suc n) [] h = refl
  take_whole (suc n) (x ∷ xs) h = ap (◌∷◌ x) (take_whole n xs (omega (arith, h)))

  abbrev held_batch : Cur → Cur
  held_batch c = record (answered c) { idle_timer = is_positive (idle_ms opts.idle_timeout_ms) }

  next_short :
      (c : Cur)
      → IsReady c
      → ltb
          (length (take (batch_size opts.fetch_size) (remaining c.server)))
          (batch_size opts.fetch_size)
        ≡ true
      → next world opts c ≡ (
        value (or_null world opts (take (batch_size opts.fetch_size) (remaining c.server))),
        close world opts (answered c),
      )
  unfolding fetched
  next_short c h e = next_answer c h ∙ rw e

  next_full :
      (c : Cur)
      → IsReady c
      → ltb
          (length (take (batch_size opts.fetch_size) (remaining c.server)))
          (batch_size opts.fetch_size)
        ≡ false
      → next world opts c
        ≡ (value (some (take (batch_size opts.fetch_size) (remaining c.server))), held_batch c)
  unfolding fetched
  next_full c h e = next_answer c h ∙ rw e

  all_ready :
      (fuel : ℕ) (c : Cur)
      → IsReady c
      → length (remaining c.server) < fuel
      → Drained (remaining c.server) (all world opts (suc fuel) c)
  all_ready zero c h k = absurd (omega (arith, k))
  all_ready (suc fuel) c h k =
      let n : ℕ = batch_size opts.fetch_size in
      let rows : List R = take n (remaining c.server) in
      elim (Bool-cases (ltb (length rows) n)) [
        | inl e ↦
            subst (λ q. Drained q (all world opts (suc (suc fuel)) c))
              (take_whole n (remaining c.server) (omega (tests, e)))
              (all_short fuel c (close world opts (answered c)) rows
                (close-Finished (answered c) h.no_error h.is_open) (next_short c h e))
        | inr e ↦
            let left : remaining ((held_batch c).server) ≡ drop n (remaining c.server) =
              fetch_leaves n c.server in
            let ready : IsReady (held_batch c) = record {
              no_error = h.no_error;
              is_open = h.is_open;
              opened_well = h.opened_well;
            } in
            let (d, (p, f)) = join-Drained rows _ _ (
              all_ready fuel (held_batch c) ready (
                omega (
                  arith,
                  k,
                  ap length left,
                  length-drop n (remaining c.server),
                  length-take n (remaining c.server),
                  batch_positive opts.fetch_size,
                  ltb→le (length rows) n e,
                ))) in
            (
              d,
              (
                all_after (suc fuel) c (held_batch c) (some rows) (next_full c h e)
                    ∙ p
                    ∙ ap (λ q. some (value (rows ++ q), d)) left
                    ∙ ap (λ q. some (value q, d)) (take-append-drop n (remaining c.server)),
                f,
              ),
            )
      ]

  -- The cursor that `open` leaves where all goes well.
  abbrev open_on : S → Cur
  open_on s = record {
    phase = opened;
    err = none;
    held = true;
    acquired = 1;
    released = 0;
    opening = some (value tt);
    idle_timer = false;
    deadline = has_ceiling opts.max_duration_ms;
    server = s;
  }

  next-new_cursor :
      (s s1 s2 : S)
      → world.acquire s ≡ (none, s1)
      → run_setup world opts (setup opts) s1 ≡ (none, s2)
      → next world opts (new_cursor world opts s) ≡ fetch_batch world opts (open_on s2)
  unfolding next new_cursor open_cursor
  next-new_cursor s s1 s2 a r = rw (a, r)

  all_same :
      (fuel : ℕ) (c d : Cur)
      → next world opts c ≡ next world opts d
      → all world opts (suc fuel) c ≡ all world opts (suc fuel) d
  unfolding all
  all_same fuel c d e =
      ap
        (λ r. elim (r.0) [
          | threw x ↦ some (threw x, r.1)
          | value q ↦ elim q [
            | none ↦ some (value [], r.1)
            | some b ↦ join world opts b (all world opts fuel (r.1))
          ]
        ])
        e

  -- Where the lease is given, the queries of `open` succeed, and FETCH n answers with the next n rows
  -- of the cursor, `all` on a new cursor returns every row of it in order, whatever the batch size,
  -- after at most one call of `next` for each row and two more, and the cursor is done without an
  -- error.
  pub all-new_cursor :
      (fuel : ℕ) (s s1 s2 : S)
      → world.acquire s ≡ (none, s1)
      → run_setup world opts (setup opts) s1 ≡ (none, s2)
      → length (remaining s2) < fuel
      → (d : Cur) × ((all world opts (suc fuel) (new_cursor world opts s)
            ≡ some (value (remaining s2), d))
          × ((d.phase ≡ done) × (d.err ≡ none)))
  all-new_cursor fuel s s1 s2 a r k =
      let ready : IsReady (open_on s2) = record {
        no_error = refl;
        is_open = refl;
        opened_well = refl;
      } in
      let (d, (p, f)) = all_ready fuel (open_on s2) ready k in
      (
        d,
        (
          all_same fuel (new_cursor world opts s) (open_on s2)
                (next-new_cursor s s1 s2 a r ∙ sym (next_ready (open_on s2) ready))
              ∙ p,
          f,
        ),
      )
