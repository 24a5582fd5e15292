-- ===== src/Connection/Bulk/Whole.antt =====
-- A bulk call sends every row once, in order.
use minipg.Base.{
  ℕ, zero, suc, ◌+◌, ◌-◌, ◌≤◌, ◌<◌, ◌≡◌, refl, sym, ap, ◌∙◌, Bool, true, false, Option, none, some,
  List, [], ◌∷◌, ◌++◌, length, take, drop, min, length-drop, take-append-drop, take_all, drop-drop,
  drop_all, append-nil, append_assoc, ltb, leb, leb→lt, ltb→lt, ltb→le, inl, inr, Bool-cases,
  bool-split, arith, ◌&&◌, ◌||◌, not, if◌then◌else◌,
}
use minipg.Connection.Bulk.{
  slice, QueryResult, all_rows, merge_results, ranges, Ended, completed, failed,
  in_open_transaction, Control, begins, commits, in_begin, run_tx, run_each, run_all, run_one,
  run_bulk,
}

module _ {ℓ} {A : Type ℓ} where
  unfoldable pub slices : List (ℕ × ℕ) → List A → List A
  slices [] rows = []
  slices ((a, b) ∷ rs) rows = slice a b rows ++ slices rs rows

  -- The first range and what follows it.
  slice-append :
      (i chunk : ℕ) (rows : List A)
      → i ≤ length rows
      → slice i (min (i + chunk) (length rows)) rows ++ drop (i + chunk) rows ≡ drop i rows
  unfolding slice
  slice-append i chunk rows h = elim (Bool-cases (leb (i + chunk) (length rows))) [
    | inl e ↦
        ap (λ k. take k (drop i rows) ++ drop (i + chunk) rows) (inside e)
        ∙ ap (λ xs. take chunk (drop i rows) ++ xs) (sym (drop-drop i chunk rows))
        ∙ take-append-drop chunk (drop i rows)
    | inr e ↦
        ap (λ xs. take (min (i + chunk) (length rows) - i) (drop i rows) ++ xs)
          (drop_all (i + chunk) rows (beyond e))
        ∙ append-nil (take (min (i + chunk) (length rows) - i) (drop i rows))
        ∙ take_all (min (i + chunk) (length rows) - i) (drop i rows)
            (omega (arith, length-drop i rows, leb→lt (i + chunk) (length rows) e))
  ]
    where
      inside : leb (i + chunk) (length rows) ≡ true → min (i + chunk) (length rows) - i ≡ chunk
      inside e = ground arith

      beyond : leb (i + chunk) (length rows) ≡ false → length rows ≤ i + chunk
      beyond e = omega (arith, leb→lt (i + chunk) (length rows) e)

  slices-ranges :
      (fuel chunk i : ℕ) (rows : List A)
      → 0 < chunk
      → length rows ≤ fuel + i
      → slices (ranges fuel chunk (length rows) i) rows ≡ drop i rows
  unfolding slices ranges
  slices-ranges zero chunk i rows c h = sym (drop_all i rows (omega (arith, h)))
  slices-ranges (suc fuel) chunk i rows c h =
      bool-split (λ rg. slices rg rows ≡ drop i rows) (ltb i (length rows))
        (λ e.
          ap (λ xs. slice i (min (i + chunk) (length rows)) rows ++ xs)
            (slices-ranges fuel chunk (i + chunk) rows c (omega arith))
          ∙ slice-append i chunk rows (omega (arith, ltb→lt i (length rows) e)))
        (λ e. sym (drop_all i rows (ltb→le i (length rows) e)))

  all_rows-append :
      (rs ss : List (QueryResult A)) → all_rows (rs ++ ss) ≡ all_rows rs ++ all_rows ss
  unfolding all_rows
  all_rows-append [] ss = refl
  all_rows-append (r ∷ rs) ss =
      ap (λ xs. r.rows ++ xs) (all_rows-append rs ss)
      ∙ sym (append_assoc r.rows (all_rows rs) (all_rows ss))

  abbrev pub rows_of : Ended A → Option (List A)
  rows_of (completed r) = some r.rows
  rows_of (failed k) = none
  rows_of in_open_transaction = none

  -- Every query for a range succeeds and returns the rows of that range.
  module _ (rows : List A) (server : ℕ → ℕ → QueryResult A) where
    abbrev Echoes : Type ℓ
    Echoes = (a b : ℕ) → (server a b).rows ≡ slice a b rows

    abbrev pub answers : ℕ → ℕ → Option (QueryResult A)
    answers a b = some (server a b)

    more :
        (a b : ℕ) (rs : List (QueryResult A)) (xs : List A)
        → Echoes
        → all_rows (rs ++ (server a b ∷ [])) ++ xs ≡ all_rows rs ++ (slice a b rows ++ xs)
    unfolding all_rows
    more a b rs xs h =
        ap (λ ys. ys ++ xs)
          (all_rows-append rs (server a b ∷ [])
            ∙ ap (λ ys. all_rows rs ++ ys) (append-nil (server a b).rows ∙ h a b))
        ∙ append_assoc (all_rows rs) (slice a b rows) xs

    run_each-rows :
        (rg : List (ℕ × ℕ)) (done : ℕ) (rs : List (QueryResult A))
        → Echoes
        → rows_of (run_each answers rg done rs) ≡ some (all_rows rs ++ slices rg rows)
    unfolding run_each merge_results slices
    run_each-rows [] done rs h = ap some (sym (append-nil (all_rows rs)))
    run_each-rows ((a, b) ∷ rg) done rs h =
        run_each-rows rg _ (rs ++ (server a b ∷ [])) h ∙ ap some (more a b rs (slices rg rows) h)

    run_all-rows :
        (rg : List (ℕ × ℕ)) (rs : List (QueryResult A))
        → Echoes
        → rows_of (run_all answers rg rs) ≡ some (all_rows rs ++ slices rg rows)
    unfolding run_all merge_results slices
    run_all-rows [] rs h = ap some (sym (append-nil (all_rows rs)))
    run_all-rows ((a, b) ∷ rg) rs h =
        run_all-rows rg (rs ++ (server a b ∷ [])) h ∙ ap some (more a b rs (slices rg rows) h)

    whole :
        (chunk : ℕ) → 0 < chunk → slices (ranges (length rows) chunk (length rows) 0) rows ≡ rows
    whole chunk c = slices-ranges (length rows) chunk 0 rows c (omega arith)

    -- A callback that completes with the rows, in a transaction of its own.
    rows-run_tx :
        (accepts : Control → Bool) (sp : ℕ) (e : Ended A)
        → rows_of e ≡ some rows
        → rows_of (run_tx accepts false sp e).0
          ≡ (if accepts begins && accepts commits then some rows else none)
    unfolding run_tx in_begin
    rows-run_tx accepts sp (completed r) h = elim (Bool-cases (accepts begins)) [
      | inl b ↦ elim (Bool-cases (accepts commits)) [ inl k ↦ rw (b, k) h | inr k ↦ rw (b, k) refl ]
      | inr b ↦ rw b refl
    ]
    rows-run_tx accepts sp (failed k) h = cc
    rows-run_tx accepts sp in_open_transaction h = cc

    -- Whether a bulk call completes where every query for a range does.
    abbrev pub completes : (Control → Bool) → (atomic in_transaction : Bool) → ℕ → Bool
    completes accepts atomic in_transaction chunk =
        leb (length rows) chunk
        || (if atomic
            then in_transaction || (accepts begins && accepts commits)
            else not in_transaction)

    -- Where every query for a range of rows returns those rows: a bulk call of at most one chunk
    -- completes with all rows. One of several chunks completes with all rows in order, each once, if it
    -- joins the caller's transaction, or the server takes the BEGIN and the COMMIT of its own, or the
    -- chunks commit one by one outside a transaction; and it fails otherwise.
    pub rows-run_bulk :
        (accepts : Control → Bool) (atomic in_transaction : Bool) (chunk sp : ℕ)
        → 0 < chunk
        → ((a b : ℕ) → (server a b).rows ≡ slice a b rows)
        → rows_of (run_bulk answers accepts atomic in_transaction chunk (length rows) sp).0
          ≡ (if completes accepts atomic in_transaction chunk then some rows else none)
    unfolding run_bulk run_one all_rows slice
    rows-run_bulk accepts atomic in_transaction chunk sp c h =
        elim (Bool-cases (leb (length rows) chunk)) [
          | inl e ↦
              rw e (ap some (h 0 (length rows) ∙ take_all (length rows - 0) rows (omega arith)))
          | inr e ↦ rw e (several atomic in_transaction)
        ]
      where
        rg : List (ℕ × ℕ)
        rg = ranges (length rows) chunk (length rows) 0

        all : rows_of (run_all answers rg []) ≡ some rows
        all = run_all-rows rg [] h ∙ ap some (whole chunk c)

        several :
            (atomic in_transaction : Bool)
            → rows_of
                (if atomic
                  then (if in_transaction
                      then (run_all answers rg [], [])
                      else run_tx accepts in_transaction sp (run_all answers rg []))
                  else if in_transaction
                  then (in_open_transaction, [])
                  else (run_each answers rg 0 [], [])).0
              ≡ (if (if atomic
                    then in_transaction || (accepts begins && accepts commits)
                    else not in_transaction)
                  then some rows
                  else none)
        several true true = all
        several true false = rows-run_tx accepts sp (run_all answers rg []) all
        several false true = refl
        several false false = run_each-rows rg 0 [] h ∙ ap some (whole chunk c)
