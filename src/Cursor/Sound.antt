-- ===== src/Cursor/Sound.antt =====
-- The lease of a cursor of src/cursor.ts, and what gives it back.
use minipg.Base.{
  ℕ, ◌+◌, ◌≤◌, ◌≡◌, ◌≢◌, ◌∙◌, refl, sym, ap, subst, Bool, true, false, Option, none, some, List,
  arith, if-split, option-split,
}
use minipg.Cursor.{
  Options, committed, cursor_closed, send, close_cursor, commit, Phase, idle, opened, done, Outcome,
  value, threw, World, Cursor, give_back, clear_timers, cleanup, abort, finish, if_open, close,
}

-- What holds in each phase, each with the phase, holds of the whole.
pub phase-split {ℓ κ} :
    {A : Type ℓ} (P : A → Type κ) (p : Phase) {x y z : A}
    → (p ≡ idle → P x)
    → (p ≡ opened → P y)
    → (p ≡ done → P z)
    → P (elim p [ idle ↦ x | opened ↦ y | done ↦ z ])
phase-split P idle i o d = i refl
phase-split P opened i o d = o refl
phase-split P done i o d = d refl

-- 1 where the lease is there.
abbrev pub holds : Bool → ℕ
holds true = 1
holds false = 0

abbrev pub may_hold : Phase → ℕ
may_hold idle = 0
may_hold opened = 1
may_hold done = 0

module _ {S E R : Type 0} (world : World S E R) (opts : Options) where
  done-ne-idle : done ≢ idle
  done-ne-idle h = cc

  pub opened-ne-idle : opened ≢ idle
  opened-ne-idle h = cc

  abbrev Cur : Type 0
  Cur = Cursor world opts

  pub record Lease : Type 0 where
    pub held : Bool
    pub acquired : ℕ
    pub released : ℕ
    pub phase : Phase
    pub err : Option E

  abbrev pub lease : Cur → Lease
  lease c = record {
    held = c.held;
    acquired = c.acquired;
    released = c.released;
    phase = c.phase;
    err = c.err;
  }

  -- At most one lease was taken; it is there or was given back; it is there only while the cursor is
  -- open; and nothing was taken before it is opened.
  pub record IsSound (l : Lease) : Type 0 where
    pub balanced : l.acquired ≡ l.released + holds l.held
    pub once : l.acquired ≤ 1
    pub only_open : holds l.held ≤ may_hold l.phase
    pub not_yet : l.phase ≡ idle → l.acquired ≡ 0

  abbrev pub Sound : Cur → Type 0
  Sound c = IsSound (lease c)

  -- A lease that is there is given back when the cursor is done.
  give_back_done :
      (c : Cur)
      → c.acquired ≡ c.released + holds c.held
      → c.acquired ≤ 1
      → c.phase ≡ done
      → Sound (give_back world opts c)
  unfolding give_back
  give_back_done c b o p =
      if-split Sound c.held
        (λ e. record {
          balanced = omega (arith, b, ap holds e);
          once = o;
          only_open = omega arith;
          not_yet = λ q. absurd (done-ne-idle (sym p ∙ q));
        })
        (λ e. record {
          balanced = b;
          once = o;
          only_open = omega (arith, ap holds e);
          not_yet = λ q. absurd (done-ne-idle (sym p ∙ q));
        })

  pub cleanup-IsSound :
      (fetching : Bool) (e : E) (c : Cur) → Sound c → Sound (cleanup world opts fetching e c)
  unfolding cleanup clear_timers
  cleanup-IsSound fetching e c h =
      if-split Sound c.held (λ k. give_back_done _ h.balanced h.once refl)
        (λ k. record {
          balanced = h.balanced;
          once = h.once;
          only_open = omega (arith, ap holds k);
          not_yet = λ q. absurd (done-ne-idle q);
        })

  pub abort-IsSound :
      (fetching : Bool) (e : E) (c : Cur) → Sound c → Sound (abort world opts fetching e c)
  unfolding abort
  abort-IsSound fetching e c h = phase-split Sound c.phase (λ q. stopped) (λ q. stopped) (λ q. h)
    where
      stopped : Sound (elim c.err [ none ↦ cleanup world opts fetching e c | some x ↦ c ])
      stopped = option-split Sound c.err (λ n. cleanup-IsSound fetching e c h) (λ x n. h)

  -- The queries of `close` leave the lease alone.
  lease-committed : (o : Outcome E (List R)) (c : Cur) → lease (committed world opts o c) ≡ lease c
  lease-committed (value rows) c = refl
  lease-committed (threw e) c = refl

  lease-finish : (c : Cur) → lease (finish world opts c) ≡ lease c
  unfolding finish
  lease-finish c = go (world.query close_cursor c.server).0
    where
      go :
          (o : Outcome E (List R))
          → lease (cursor_closed world opts o (send world opts close_cursor c)) ≡ lease c
      go (value rows) = lease-committed _ (send world opts commit (send world opts close_cursor c))
      go (threw e) = refl

  pub lease-if_open :
      (p : Phase) (o : Option E) (c : Cur) → lease (if_open world opts p o c) ≡ lease c
  lease-if_open opened none c =
      if-split (λ (d : Cur). lease d ≡ lease c) c.held (λ k. lease-finish c) (λ k. refl)
  lease-if_open opened (some e) c = refl
  lease-if_open idle o c = refl
  lease-if_open done o c = refl

  pub close-IsSound : (c : Cur) → Sound c → Sound (close world opts c)
  unfolding close clear_timers
  close-IsSound c h =
      let d : Cur = clear_timers world opts (record c { phase = done }) in
      let e : Cur = if_open world opts c.phase c.err d in
      let same : lease e ≡ lease d = lease-if_open c.phase c.err d in
      let given : Sound (give_back world opts e) =
        give_back_done e
          (subst (λ (l : Lease). l.acquired ≡ l.released + holds l.held) (sym same) h.balanced)
          (subst (λ (l : Lease). l.acquired ≤ 1) (sym same) h.once)
          (ap (λ (l : Lease). l.phase) same) in
      go c.phase given
    where
      go :
          (p : Phase)
          → Sound (
              give_back world opts (
                if_open world opts c.phase c.err
                  (clear_timers world opts (record c { phase = done }))))
          → Sound (elim p [
            | done ↦ c
            | idle ↦ give_back world opts (
                if_open world opts c.phase c.err
                  (clear_timers world opts (record c { phase = done })))
            | opened ↦ give_back world opts (
                if_open world opts c.phase c.err
                  (clear_timers world opts (record c { phase = done })))
          ])
      go done g = h
      go idle g = g
      go opened g = g
