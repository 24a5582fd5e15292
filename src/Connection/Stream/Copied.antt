-- ===== src/Connection/Stream/Copied.antt =====
-- What the consumer of copyTo gets.
use minipg.Base.{
  ℕ, ◌≡◌, refl, sym, ap, ◌∙◌, true, false, not, ◌&&◌, List, [], ◌∷◌, ◌++◌, length, append_assoc,
  append-nil, ltb, if-split, option-split, list-split,
}
use minipg.Buffer.{Bytes}
use minipg.Connection.State.{Error}
use minipg.Connection.Stream.{
  item, Stream, opened, answer, stream_end, stream_error, next_empty, Event, receives, asks, ends,
  fails, plugs, joined, pause_if_over, on_copy_data, next_chunk, copy_step, copy_run,
}
use minipg.Connection.Stream.Delivery.{
  items, received, flow, items-append, flow-stream_end, flow-stream_error, flow-next_empty,
}

joined-append : (xs ys : List Bytes) → joined (xs ++ ys) ≡ joined xs ++ joined ys
unfolding joined
joined-append [] ys = refl
joined-append (x ∷ xs) ys =
    ap (λ b. x ++ b) (joined-append xs ys) ∙ sym (append_assoc x (joined xs) (joined ys))

-- The bytes that were handed over and then those that wait.
abbrev poured : Stream Bytes → Bytes
poured s = joined (flow s)

abbrev Pours : Bytes → Stream Bytes → Type 0
Pours b s = poured s ≡ b

direct :
    (c : Bytes) (s : Stream Bytes)
    → s.buf ≡ []
    → poured (answer (item c) (record s { waiting = false })) ≡ poured s ++ c
unfolding answer joined
direct c s e =
    ap joined (append_assoc' (items-append s.answers (item c ∷ [])))
    ∙ joined-append (items s.answers) (c ∷ s.buf)
    ∙ rw e (
        ap (λ b. joined (items s.answers) ++ b) (append-nil c)
        ∙ sym (ap (λ xs. joined xs ++ c) (append-nil (items s.answers))))
  where
    append_assoc' :
        {xs : List Bytes}
        → xs ≡ items s.answers ++ (c ∷ [])
        → xs ++ s.buf ≡ items s.answers ++ (c ∷ s.buf)
    append_assoc' f = ap (λ xs. xs ++ s.buf) f ∙ append_assoc (items s.answers) (c ∷ []) s.buf

drained :
    (c : Bytes) (cs : List Bytes) (s : Stream Bytes)
    → s.buf ≡ c ∷ cs
    → poured (answer (item (c ++ joined cs)) (record s { buf = []; paused = false })) ≡ poured s
unfolding answer joined
drained c cs s e =
    ap joined (append-nil _ ∙ items-append s.answers (item (c ++ joined cs) ∷ []))
    ∙ joined-append (items s.answers) ((c ++ joined cs) ∷ [])
    ∙ ap (λ b. joined (items s.answers) ++ b) (append-nil (c ++ joined cs) ∙ ap joined (sym e))
    ∙ sym (joined-append (items s.answers) s.buf)

poured-on_copy_data :
    (c : Bytes) (s : Stream Bytes)
    → (s.waiting ≡ true → s.buf ≡ [])
    → poured (on_copy_data c s) ≡ poured s ++ c
unfolding on_copy_data pause_if_over answer joined
poured-on_copy_data c s w =
    let e : joined (flow s ++ (c ∷ [])) ≡ poured s ++ c =
      joined-append (flow s) (c ∷ []) ∙ ap (λ b. poured s ++ b) (append-nil c) in
    let f : joined (items s.answers ++ (s.buf ++ (c ∷ []))) ≡ poured s ++ c =
      ap joined (sym (append_assoc (items s.answers) s.buf (c ∷ []))) ∙ e in
    if-split (Pours (poured s ++ c)) s.waiting (λ k. direct c s (w k))
      (λ k.
        if-split (Pours (poured s ++ c))
          (ltb s.high_water_mark (length (joined (s.buf ++ (c ∷ []))))
            && (not s.paused && s.socket))
          (λ m. f) (λ m. f))

poured-next_chunk : (s : Stream Bytes) → poured (next_chunk s) ≡ poured s
unfolding next_chunk answer joined
poured-next_chunk s =
    list-split (Pours (poured s)) s.buf (λ k. ap joined (flow-next_empty s))
      (λ c cs k. drained c cs s k)

-- A waiting call finds the buffer empty.
abbrev IsDry : Stream Bytes → Type 0
IsDry s = s.waiting ≡ true → s.buf ≡ []

on_copy_data-IsDry : (c : Bytes) (s : Stream Bytes) → IsDry s → IsDry (on_copy_data c s)
unfolding on_copy_data pause_if_over answer
on_copy_data-IsDry c s w =
    if-split IsDry s.waiting (λ k m. cc)
      (λ k.
        if-split IsDry
          (ltb s.high_water_mark (length (joined (s.buf ++ (c ∷ []))))
            && (not s.paused && s.socket))
          (λ m n. cc) (λ m n. cc))

next_chunk-IsDry : (s : Stream Bytes) → IsDry s → IsDry (next_chunk s)
unfolding next_chunk next_empty answer
next_chunk-IsDry s w =
    list-split IsDry s.buf
      (λ k. option-split IsDry s.err (λ e. if-split IsDry s.done (λ m. w) (λ m n. k)) (λ e m. w))
      (λ c cs k m. refl)

stream_end-IsDry : (s : Stream Bytes) → IsDry s → IsDry (stream_end s)
unfolding stream_end answer
stream_end-IsDry s w = if-split IsDry s.waiting (λ k m. cc) (λ k. w)

stream_error-IsDry : (e : Error) (s : Stream Bytes) → IsDry s → IsDry (stream_error e s)
unfolding stream_error answer
stream_error-IsDry e s w = if-split IsDry s.waiting (λ k m. cc) (λ k. w)

poured-copy_run :
    (es : List (Event Bytes)) (s : Stream Bytes)
    → IsDry s
    → poured (copy_run es s) ≡ poured s ++ joined (received es)
unfolding copy_run copy_step joined
poured-copy_run [] s w = sym (append-nil (poured s))
poured-copy_run (receives c ∷ es) s w =
    poured-copy_run es (on_copy_data c s) (on_copy_data-IsDry c s w)
    ∙ ap (λ b. b ++ joined (received es)) (poured-on_copy_data c s w)
    ∙ append_assoc (poured s) c (joined (received es))
poured-copy_run (asks ∷ es) s w =
    poured-copy_run es (next_chunk s) (next_chunk-IsDry s w)
    ∙ ap (λ b. b ++ joined (received es)) (poured-next_chunk s)
poured-copy_run (ends ∷ es) s w =
    poured-copy_run es (stream_end s) (stream_end-IsDry s w)
    ∙ ap (λ b. joined b ++ joined (received es)) (flow-stream_end s)
poured-copy_run (fails e ∷ es) s w =
    poured-copy_run es (stream_error e s) (stream_error-IsDry e s w)
    ∙ ap (λ b. joined b ++ joined (received es)) (flow-stream_error e s)
poured-copy_run (plugs b ∷ es) s w = poured-copy_run es (record s { socket = b }) w

-- Whatever the order of chunks, calls of `next`, the end, errors and changes of the socket: the bytes that the calls of `next`
-- of copyTo got, and then those in the buffer, are the bytes that arrived, each once and in order.
pub joined-copy_run :
    (hwm : ℕ) (es : List (Event Bytes))
    → joined (items (copy_run es (opened hwm)).answers) ++ joined (copy_run es (opened hwm)).buf
      ≡ joined (received es)
unfolding opened joined
joined-copy_run hwm es =
    let s = copy_run es (opened hwm) in
    sym (joined-append (items s.answers) s.buf) ∙ poured-copy_run es (opened hwm) (λ k. refl)
