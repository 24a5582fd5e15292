-- ===== src/Cursor/Lease.antt =====
-- The lease of the connection that a cursor of src/cursor.ts reads from, in any order of its uses.
use minipg.Base.{
  suc, ◌+◌, ◌≤◌, ◌≡◌, ◌∙◌, refl, sym, subst, Bool, true, false, Option, none, some, List, [], ◌∷◌,
  arith, length, ltb, if-split, option-split,
}
use minipg.Cursor.{
  Options, opened, Outcome, value, threw, World, Cursor, new_cursor, abort, run_setup, setup,
  opened_or_failed, leased, awaited, open_cursor, close, earlier, fetched, after_open, next,
  batch_size,
}
use minipg.Cursor.Sound.{
  phase-split, lease, holds, may_hold, IsSound, opened-ne-idle, cleanup-IsSound, abort-IsSound,
  close-IsSound,
}

module _ {S E R : Type 0} (world : World S E R) (opts : Options) where
  abbrev Cur : Type 0
  Cur = Cursor world opts

  abbrev Sound : Cur → Type 0
  Sound c = IsSound world opts (lease world opts c)

  -- `open` takes the lease where none was taken before.
  leased-IsSound :
      (o : Option E) (c : Cur)
      → Sound c
      → c.acquired ≡ 0
      → c.phase ≡ opened
      → Sound (leased world opts o c).1
  leased-IsSound (some e) c h z p = h
  leased-IsSound none c h z p = go (run_setup world opts (setup opts) c.server).0
    where
      d : Cur
      d = record c {
        held = true;
        acquired = suc c.acquired;
        server = (run_setup world opts (setup opts) c.server).1;
      }

      sound : Sound d
      sound = record {
        balanced = omega (arith, z, h.balanced);
        once = omega (arith, z);
        only_open = subst (λ q. 1 ≤ may_hold q) (sym p) (omega arith);
        not_yet = λ q. absurd (opened-ne-idle world opts (sym p ∙ q));
      }

      go : (o : Option E) → Sound (opened_or_failed world opts o d).1
      go none = sound
      go (some e) = cleanup-IsSound world opts false e (record d { opening = some (threw e) }) sound

  opening-IsSound :
      (c : Cur)
      → Sound c
      → c.acquired ≡ 0
      → Sound
          (leased world opts
            (world.acquire c.server).0
            (record c { phase = opened; server = (world.acquire c.server).1 })).1
  opening-IsSound c h z =
      leased-IsSound (world.acquire c.server).0
        (record c { phase = opened; server = (world.acquire c.server).1 })
        (record {
          balanced = h.balanced;
          once = h.once;
          only_open = omega (arith, z, h.balanced);
          not_yet = λ q. absurd (opened-ne-idle world opts q);
        })
        z refl

  open_cursor-IsSound : (c : Cur) → Sound c → Sound (open_cursor world opts c).1
  unfolding open_cursor
  open_cursor-IsSound c h =
      option-split After c.err
        (λ n. phase-split After c.phase (λ q. opening-IsSound c h (h.not_yet q)) (λ q. h) (λ q. h))
        (λ e n. h)
    where
      After : Outcome E Unit × Cur → Type 0
      After r = Sound (r.1)

  fetched-IsSound : (o : Outcome E (List R)) (c : Cur) → Sound c → Sound (fetched world opts o c).1
  unfolding fetched
  fetched-IsSound (threw e) c h = cleanup-IsSound world opts true (earlier world opts c.err e) c h
  fetched-IsSound (value rows) c h =
      if-split (λ (r : Outcome E (Option (List R)) × Cur). Sound (r.1))
        (ltb (length rows) (batch_size opts.fetch_size)) (λ e. close-IsSound world opts c h)
        (λ e. h)

  after_open-IsSound :
      (o : Outcome E Unit) (c : Cur) → Sound c → Sound (after_open world opts (o, c)).1
  after_open-IsSound (threw e) c h = h
  after_open-IsSound (value u) c h =
      option-split (λ (r : Outcome E (Option (List R)) × Cur). Sound (r.1)) c.err
        (λ n. fetched-IsSound _ _ h) (λ e n. h)

  next-IsSound : (c : Cur) → Sound c → Sound (next world opts c).1
  unfolding next
  next-IsSound c h =
      option-split After c.err
        (λ n.
          phase-split After c.phase
            (λ q.
              after_open-IsSound (open_cursor world opts c).0 (open_cursor world opts c).1
                (open_cursor-IsSound c h))
            (λ q. after_open-IsSound (awaited world opts c.opening) c h) (λ q. h))
        (λ e n. h)
    where
      After : Outcome E (Option (List R)) × Cur → Type 0
      After r = Sound (r.1)

  -- A use of the cursor: its methods, and its timers, whose flag tells whether a fetch is under way.
  pub data Use : Type 0 where
    opens nexts closes : Use
    aborts : Bool → E → Use

  unfoldable pub use_once : Use → Cur → Cur
  use_once opens c = (open_cursor world opts c).1
  use_once nexts c = (next world opts c).1
  use_once closes c = close world opts c
  use_once (aborts fetching why) c = abort world opts fetching why c

  unfoldable pub use_all : List Use → Cur → Cur
  use_all [] c = c
  use_all (u ∷ us) c = use_all us (use_once u c)

  use_once-IsSound : (u : Use) (c : Cur) → Sound c → Sound (use_once u c)
  unfolding use_once
  use_once-IsSound opens c h = open_cursor-IsSound c h
  use_once-IsSound nexts c h = next-IsSound c h
  use_once-IsSound closes c h = close-IsSound world opts c h
  use_once-IsSound (aborts fetching why) c h = abort-IsSound world opts fetching why c h

  use_all-IsSound : (us : List Use) (c : Cur) → Sound c → Sound (use_all us c)
  unfolding use_all
  use_all-IsSound [] c h = h
  use_all-IsSound (u ∷ us) c h = use_all-IsSound us (use_once u c) (use_once-IsSound u c h)

  -- Whatever the server answers, and in whatever order a new cursor's methods are called one after the
  -- other and its timers fire between them: one lease is taken at most, it is there or was given back
  -- once, and it is there only while the cursor is open.
  pub use_all-new_cursor :
      (us : List Use) (s : S)
      → let c = use_all us (new_cursor world opts s) in
        (c.acquired ≡ c.released + holds c.held)
        × (c.acquired ≤ 1)
        × (holds c.held ≤ may_hold c.phase)
  unfolding new_cursor
  use_all-new_cursor us s =
      let sound : Sound (use_all us (new_cursor world opts s)) =
        use_all-IsSound us (new_cursor world opts s) (record {
          balanced = omega arith;
          once = omega arith;
          only_open = omega arith;
          not_yet = λ q. refl;
        }) in
      (sound.balanced, sound.once, sound.only_open)
