-- ===== src/Connection/Stream/Delivery.antt =====
-- What the consumer of a stream gets.
use minipg.Base.{
  ℕ, ◌*◌, ◌≡◌, refl, sym, ap, ◌∙◌, true, false, not, ◌&&◌, some, List, [], ◌∷◌, ◌++◌, length,
  append_assoc, append-nil, ltb, if-split, option-split, list-split,
}
use minipg.Connection.State.{Error}
use minipg.Connection.Stream.{
  Answer, item, finished, failed, Stream, opened, answer, stream_end, stream_error, next_empty,
  shift, pause_if_full, on_row, resume_if_low, next, Event, receives, asks, ends, fails, plugs,
  step, run,
}

module _ {ℓ} {A : Type ℓ} where
  -- The items among some answers, and those that some events bring.
  abbrev pub items : List (Answer A) → List A
  items [] = []
  items (item a ∷ xs) = a ∷ items xs
  items (finished ∷ xs) = items xs
  items (failed e ∷ xs) = items xs

  abbrev pub received : List (Event A) → List A
  received [] = []
  received (receives a ∷ es) = a ∷ received es
  received (asks ∷ es) = received es
  received (ends ∷ es) = received es
  received (fails e ∷ es) = received es
  received (plugs b ∷ es) = received es

  pub items-append : (xs ys : List (Answer A)) → items (xs ++ ys) ≡ items xs ++ items ys
  items-append [] ys = refl
  items-append (item a ∷ xs) ys = ap (◌∷◌ a) (items-append xs ys)
  items-append (finished ∷ xs) ys = items-append xs ys
  items-append (failed e ∷ xs) ys = items-append xs ys

  -- What was handed over and then what waits.
  abbrev pub flow : Stream A → List A
  flow s = items s.answers ++ s.buf

  -- An answer without an item.
  pub flow-finished : (s : Stream A) → flow (answer finished s) ≡ flow s
  unfolding answer
  flow-finished s =
      ap (λ xs. xs ++ s.buf) (items-append s.answers (finished ∷ []) ∙ append-nil (items s.answers))

  pub flow-failed : (e : Error) (s : Stream A) → flow (answer (failed e) s) ≡ flow s
  unfolding answer
  flow-failed e s =
      ap (λ xs. xs ++ s.buf) (items-append s.answers (failed e ∷ []) ∙ append-nil (items s.answers))

  -- An item of the buffer that answers.
  flow-item :
      (r : A) (rs : List A) (s : Stream A)
      → s.buf ≡ rs
      → flow (answer (item r) s) ≡ items s.answers ++ (r ∷ rs)
  unfolding answer
  flow-item r rs s e =
      ap (λ xs. xs ++ s.buf) (items-append s.answers (item r ∷ []))
      ∙ append_assoc (items s.answers) (r ∷ []) s.buf
      ∙ ap (λ xs. items s.answers ++ (r ∷ xs)) e

  pub flow-stream_end : (s : Stream A) → flow (stream_end s) ≡ flow s
  unfolding stream_end
  flow-stream_end s =
      if-split (λ (t : Stream A). flow t ≡ flow s) s.waiting
        (λ k. flow-finished (record s { done = true; waiting = false })) (λ k. refl)

  pub flow-stream_error : (e : Error) (s : Stream A) → flow (stream_error e s) ≡ flow s
  unfolding stream_error
  flow-stream_error e s =
      if-split (λ (t : Stream A). flow t ≡ flow s) s.waiting
        (λ k. flow-failed e (record s { err = some e; waiting = false })) (λ k. refl)

  pub flow-next_empty : (s : Stream A) → flow (next_empty s) ≡ flow s
  unfolding next_empty
  flow-next_empty s =
      option-split (λ (t : Stream A). flow t ≡ flow s) s.err
        (λ k.
          if-split (λ (t : Stream A). flow t ≡ flow s) s.done (λ m. flow-finished s) (λ m. refl))
        (λ e k. flow-failed e s)

  flow-shift : (s : Stream A) → flow (shift s) ≡ flow s
  unfolding shift
  flow-shift s =
      list-split (λ (t : Stream A). flow t ≡ flow s) s.buf (λ k. refl)
        (λ r rs k.
          flow-item r rs (record s { buf = rs }) refl ∙ ap (λ xs. items s.answers ++ xs) (sym k))

  flow-on_row : (r : A) (s : Stream A) → flow (on_row r s) ≡ flow s ++ (r ∷ [])
  unfolding on_row pause_if_full
  flow-on_row r s =
      let t = record s { buf = s.buf ++ (r ∷ []) } in
      let e = sym (append_assoc (items s.answers) s.buf (r ∷ [])) in
      if-split (λ (u : Stream A). flow u ≡ flow s ++ (r ∷ [])) s.waiting
        (λ k. flow-shift (record t { waiting = false }) ∙ e)
        (λ k.
          if-split (λ (u : Stream A). flow u ≡ flow s ++ (r ∷ []))
            (ltb s.high_water_mark (length (s.buf ++ (r ∷ []))) && (s.socket && not s.paused))
            (λ m. e) (λ m. e))

  flow-next : (s : Stream A) → flow (next s) ≡ flow s
  unfolding next resume_if_low
  flow-next s =
      list-split (λ (t : Stream A). flow t ≡ flow s) s.buf (λ k. flow-next_empty s)
        (λ r rs k.
          let e = ap (λ xs. items s.answers ++ xs) (sym k) in
          if-split (λ (t : Stream A). flow (answer (item r) t) ≡ flow s)
            (s.paused && ltb (2 * length rs) s.high_water_mark)
            (λ m. flow-item r rs (record s { buf = rs; paused = false }) refl ∙ e)
            (λ m. flow-item r rs (record s { buf = rs }) refl ∙ e))

  flow-run : (es : List (Event A)) (s : Stream A) → flow (run es s) ≡ flow s ++ received es
  unfolding run step
  flow-run [] s = sym (append-nil (flow s))
  flow-run (receives r ∷ es) s =
      flow-run es (on_row r s)
      ∙ ap (λ xs. xs ++ received es) (flow-on_row r s)
      ∙ append_assoc (flow s) (r ∷ []) (received es)
  flow-run (asks ∷ es) s = flow-run es (next s) ∙ ap (λ xs. xs ++ received es) (flow-next s)
  flow-run (ends ∷ es) s =
      flow-run es (stream_end s) ∙ ap (λ xs. xs ++ received es) (flow-stream_end s)
  flow-run (fails e ∷ es) s =
      flow-run es (stream_error e s) ∙ ap (λ xs. xs ++ received es) (flow-stream_error e s)
  flow-run (plugs b ∷ es) s = flow-run es (record s { socket = b })

  -- Whatever the order of rows, calls of `next`, the end, errors and changes of the socket: the rows that the calls of `next`
  -- got, and then those in the buffer, are the rows that arrived, each once and in order.
  pub items-run :
      (hwm : ℕ) (es : List (Event A))
      → items (run es (opened hwm)).answers ++ (run es (opened hwm)).buf ≡ received es
  unfolding opened
  items-run hwm es = flow-run es (opened hwm)
