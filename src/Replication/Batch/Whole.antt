-- ===== src/Replication/Batch/Whole.antt =====
-- A consumer that puts the batches of each transaction together again.
use minipg.Base.{
  ℕ, ◌≤◌, ◌<◌, ◌≡◌, refl, ap, ◌∙◌, true, false, Option, none, some, List, [], ◌∷◌, ◌++◌, length,
  leb, leb→lt, leb→le, if◌then◌else◌, if-split, append_assoc, append-nil, All, length-append, arith,
}
use minipg.Replication.Batch.{
  Event, begin, commit, message, change, Batch, limit, is_full, chunk, last_chunk, assemble,
  batch_transactions,
}

-- A transaction: its number, what was done in it, and its commit.
pub record Transaction : Type 0 where
  pub xid : ℕ
  pub body : List Event
  pub end : ℕ

-- An event inside a transaction is neither its begin nor its commit.
abbrev pub IsInner : Event → Type 0
IsInner (begin x) = ⊥
IsInner (commit k) = ⊥
IsInner (message t m) = Unit {0}
IsInner (change m) = Unit {0}

abbrev pub IsWhole : Transaction → Type 0
IsWhole t = All IsInner t.body

-- The stream of some transactions, and what of a body is delivered.
abbrev pub stream_of : List Transaction → List Event
stream_of [] = []
stream_of (t ∷ ts) = begin t.xid ∷ (t.body ++ (commit t.end ∷ stream_of ts))

abbrev pub delivered : List Event → List Event
delivered [] = []
delivered (message false m ∷ es) = delivered es
delivered (message true m ∷ es) = message true m ∷ delivered es
delivered (begin x ∷ es) = begin x ∷ delivered es
delivered (commit k ∷ es) = commit k ∷ delivered es
delivered (change m ∷ es) = change m ∷ delivered es

-- A consumer that keeps the events of a transaction until its last batch.
abbrev pub collect : List Event → List Batch → List Transaction
collect held [] = []
collect held (b ∷ bs) = elim b.done [
  | none ↦ collect (held ++ b.events) bs
  | some k ↦ (record { xid = b.xid; body = held ++ b.events; end = k }) ∷ collect [] bs
]

abbrev pub delivered_all : List Transaction → List Transaction
delivered_all [] = []
delivered_all (t ∷ ts) = (record t { body = delivered t.body }) ∷ delivered_all ts

-- Whether the buffer with one more event is handed on or kept, the consumer has the same in the end.
added :
    (max : Option ℕ) (x : ℕ) (held es rest : List Event) (e : Event) (out : List Event) (k : ℕ)
    (ts : List Transaction)
    → ((g f : List Event)
        → collect g (assemble max x f rest)
          ≡ (record { xid = x; body = g ++ (f ++ out); end = k }) ∷ ts)
    → collect held (
        if is_full max (es ++ (e ∷ []))
        then chunk x (es ++ (e ∷ [])) ∷ assemble max x [] rest
        else assemble max x (es ++ (e ∷ [])) rest)
      ≡ (record { xid = x; body = held ++ (es ++ (e ∷ out)); end = k }) ∷ ts
unfolding chunk
added max x held es rest e out k ts ih =
    let whole : List Event → List Transaction = λ b. (record { xid = x; body = b; end = k }) ∷ ts in
    if-split (λ bs. collect held bs ≡ whole (held ++ (es ++ (e ∷ out))))
      (is_full max (es ++ (e ∷ [])))
      (λ f.
        ih (held ++ (es ++ (e ∷ []))) []
        ∙ ap whole (
            append_assoc held (es ++ (e ∷ [])) out ∙ ap (◌++◌ held) (append_assoc es (e ∷ []) out)))
      (λ f. ih held (es ++ (e ∷ [])) ∙ ap whole (ap (◌++◌ held) (append_assoc es (e ∷ []) out)))

-- The rest of a transaction of which `held` is with the consumer and `es` in the buffer.
collect-assemble :
    (max : Option ℕ) (x : ℕ) (held es body : List Event) (k : ℕ) (ts : List Transaction)
    → All IsInner body
    → ((y : ℕ) → collect [] (assemble max y [] (stream_of ts)) ≡ delivered_all ts)
    → collect held (assemble max x es (body ++ (commit k ∷ stream_of ts)))
      ≡ (record { xid = x; body = held ++ (es ++ delivered body); end = k }) ∷ delivered_all ts
unfolding assemble last_chunk
collect-assemble max x held es [] k ts h ih =
    rw (append-nil es) (ap (◌∷◌ (record { xid = x; body = held ++ es; end = k })) (ih x))
collect-assemble max x held es (begin y ∷ body) k ts h ih = absurd h.0
collect-assemble max x held es (commit y ∷ body) k ts h ih = absurd h.0
collect-assemble max x held es (message false m ∷ body) k ts h ih =
    collect-assemble max x held es body k ts h.1 ih
collect-assemble max x held es (message true m ∷ body) k ts h ih =
    added max x held es (body ++ (commit k ∷ stream_of ts)) (message true m) (delivered body) k
      (delivered_all ts) (λ g f. collect-assemble max x g f body k ts h.1 ih)
collect-assemble max x held es (change m ∷ body) k ts h ih =
    added max x held es (body ++ (commit k ∷ stream_of ts)) (change m) (delivered body) k
      (delivered_all ts) (λ g f. collect-assemble max x g f body k ts h.1 ih)

collect-stream_of :
    (max : Option ℕ) (ts : List Transaction)
    → All IsWhole ts
    → (y : ℕ) → collect [] (assemble max y [] (stream_of ts)) ≡ delivered_all ts
unfolding assemble
collect-stream_of max [] h y = refl
collect-stream_of max (t ∷ ts) h y =
    collect-assemble max t.xid [] [] t.body t.end ts h.0 (collect-stream_of max ts h.1)

-- Whatever the limit, the batches of a stream of whole transactions, collected up to each last batch,
-- are those transactions in order with their numbers and commits, each with its events in order, less
-- the messages that are not transactional.
pub collect-batch_transactions :
    (max : Option ℕ) (ts : List Transaction)
    → All IsWhole ts
    → collect [] (batch_transactions max (stream_of ts)) ≡ delivered_all ts
unfolding batch_transactions
collect-batch_transactions max ts h = collect-stream_of (limit max) ts h 0

abbrev pub Within : ℕ → Batch → Type 0
Within n b = length b.events ≤ n

assemble-Within :
    (n x : ℕ) (es stream : List Event)
    → length es < n
    → All (Within n) (assemble (some n) x es stream)
unfolding assemble chunk last_chunk is_full
assemble-Within n x es [] h = tt
assemble-Within n x es (begin y ∷ stream) h = assemble-Within n y [] stream (omega arith)
assemble-Within n x es (commit k ∷ stream) h =
    (omega arith, assemble-Within n x [] stream (omega arith))
assemble-Within n x es (message false m ∷ stream) h = assemble-Within n x es stream h
assemble-Within n x es (message true m ∷ stream) h =
    if-split (All (Within n)) (leb n (length (es ++ (message true m ∷ []))))
      (λ f. (
        omega (arith, length-append es (message true m ∷ [])),
        assemble-Within n x [] stream (omega arith),
      ))
      (λ f. assemble-Within n x (es ++ (message true m ∷ [])) stream (leb→lt n _ f))
assemble-Within n x es (change m ∷ stream) h =
    if-split (All (Within n)) (leb n (length (es ++ (change m ∷ []))))
      (λ f. (
        omega (arith, length-append es (change m ∷ [])),
        assemble-Within n x [] stream (omega arith),
      ))
      (λ f. assemble-Within n x (es ++ (change m ∷ [])) stream (leb→lt n _ f))

-- With a limit of at least one event, no batch has more events than the limit.
pub batch_transactions-Within :
    (n : ℕ) (stream : List Event) → 0 < n → All (Within n) (batch_transactions (some n) stream)
unfolding batch_transactions limit
batch_transactions-Within n stream h =
    if-split (λ max. All (Within n) (assemble max 0 [] stream)) (leb n 0)
      (λ f. absurd (omega (arith, leb→le n 0 f))) (λ f. assemble-Within n 0 [] stream h)
