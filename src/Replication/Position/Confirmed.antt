-- ===== src/Replication/Position/Confirmed.antt =====
-- What is confirmed only grows, and never passes a commit that was not acknowledged.
use minipg.Base.{
  ℕ, ◌≤◌, ◌<◌, ◌≡◌, refl, ◌∙◌, Bool, ◌&&◌, none, some, List, [], ◌∷◌, ltb, leb, if-split,
  option-split, All, arith, ltb→lt,
}
use minipg.Replication.Position.{
  Positions, send_status, normalized, ack, receive, follow, keepalive, deliver, xlog_data, Event,
  acks, keeps_alive, has_data, reports, step, run,
}

-- What the messages of the server do to the positions.
record Grows (s t : Positions) : Type 0 where
  flushed : s.flushed ≤ t.flushed
  received : s.last_received ≤ t.last_received
  delivered : s.last_delivered_end ≤ t.last_delivered_end

same : (s : Positions) → Grows s s
same s = record { flushed = omega arith; received = omega arith; delivered = omega arith }

both : {s t u : Positions} → Grows s t → Grows t u → Grows s u
both g h = record {
  flushed = omega (arith, g.flushed, h.flushed);
  received = omega (arith, g.received, h.received);
  delivered = omega (arith, g.delivered, h.delivered);
}

ack-Grows : (v : ℕ) (s : Positions) → Grows s (ack v s)
unfolding ack send_status
ack-Grows v s =
    if-split (Grows s) (ltb s.flushed (normalized v s))
      (λ e. record {
        flushed = omega (arith, ltb→lt s.flushed (normalized v s) e);
        received = omega arith;
        delivered = omega arith;
      })
      (λ e. same s)

receive-Grows : (p : ℕ) (s : Positions) → Grows s (receive p s)
unfolding receive
receive-Grows p s =
    if-split (Grows s) (ltb s.last_received p)
      (λ e. record {
        flushed = omega arith;
        received = omega (arith, ltb→lt s.last_received p e);
        delivered = omega arith;
      })
      (λ e. same s)

follow-Grows : (idle : Bool) (p : ℕ) (s : Positions) → Grows s (follow idle p s)
unfolding follow
follow-Grows idle p s =
    if-split (Grows s) (idle && (leb s.last_delivered_end s.flushed && ltb s.flushed p))
      (λ e. record { flushed = ground arith; received = omega arith; delivered = omega arith })
      (λ e. same s)

deliver-Grows : (a b : ℕ) (s : Positions) → Grows s (deliver a b s)
unfolding deliver
deliver-Grows a b s =
    if-split (Grows s) (ltb s.last_delivered_end b)
      (λ e. record {
        flushed = omega arith;
        received = omega arith;
        delivered = omega (arith, ltb→lt s.last_delivered_end b e);
      })
      (λ e. same s)

step-Grows : (e : Event) (s : Positions) → Grows s (step e s)
unfolding step keepalive xlog_data send_status
step-Grows (acks v) s = ack-Grows v s
step-Grows (keeps_alive idle p reply) s =
    let g = both (receive-Grows p s) (follow-Grows idle p (receive p s)) in
    if-split (Grows s) reply
      (λ e. record { flushed = g.flushed; received = g.received; delivered = g.delivered }) (λ e. g)
step-Grows (has_data p c) s =
    option-split (Grows s) c (λ e. receive-Grows p s)
      (λ k e. both (receive-Grows p s) (deliver-Grows k.0 k.1 (receive p s)))
step-Grows reports s = record {
  flushed = omega arith;
  received = omega arith;
  delivered = omega arith;
}

run-Grows : (es : List Event) (s : Positions) → Grows s (run es s)
unfolding run
run-Grows [] s = same s
run-Grows (e ∷ es) s = both (step-Grows e s) (run-Grows es (step e s))

-- Whatever the consumer acknowledges and the server sends, the confirmed position, the received one and
-- the end of the last delivered commit never go back.
pub run_monotone :
    (es : List Event) (s : Positions)
    → (s.flushed ≤ (run es s).flushed)
      × ((s.last_received ≤ (run es s).last_received)
          × (s.last_delivered_end ≤ (run es s).last_delivered_end))
run_monotone es s = let g = run-Grows es s in (g.flushed, (g.received, g.delivered))

-- Events that are not an acknowledgement.
abbrev pub IsServer : Event → Type 0
IsServer (acks v) = ⊥
IsServer (keeps_alive i p r) = Unit {0}
IsServer (has_data p c) = Unit {0}
IsServer reports = Unit {0}

-- While a commit is delivered and not confirmed, a message of the server confirms nothing.
step_held :
    (e : Event) (s : Positions)
    → IsServer e
    → s.flushed < s.last_delivered_end
    → (step e s).flushed ≡ s.flushed
unfolding step keepalive follow receive xlog_data deliver send_status
step_held (acks v) s h k = absurd h
step_held (keeps_alive idle p reply) s h k = ground arith
step_held (has_data p none) s h k = ground arith
step_held (has_data p (some c)) s h k = ground arith
step_held reports s h k = refl

-- As long as the end of the last delivered commit is not confirmed, keepalives, data and status
-- reports leave the confirmed position as it is, however many come and whether or not idle
-- positions follow the server: only an acknowledgement moves it.
pub flushed-run :
    (es : List Event) (s : Positions)
    → All IsServer es
    → s.flushed < s.last_delivered_end
    → (run es s).flushed ≡ s.flushed
unfolding run
flushed-run [] s h k = refl
flushed-run (e ∷ es) s h k =
    let f = step_held e s h.0 k in
    flushed-run es (step e s) h.1 (omega (arith, f, k, (step-Grows e s).delivered)) ∙ f

-- Acknowledging any position of the last delivered commit's record, its end included, confirms the end
-- where less was confirmed before, and tells the server.
pub ack-commit :
    (v : ℕ) (s : Positions)
    → s.flushed < s.last_delivered_end
    → s.last_delivered_start ≤ v
    → v ≤ s.last_delivered_end
    → ack v s ≡ record s {
      flushed = s.last_delivered_end;
      statuses = (s.last_received, s.last_delivered_end) ∷ s.statuses;
    }
unfolding ack send_status normalized
ack-commit v s h k m = ground arith
