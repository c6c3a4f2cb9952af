-- ===== src/SdCard/Wait.antt =====
-- `waitNotBusy`: when the wait for a card ends.
use watermeter.Base.{
  ℕ, zero, suc, ◌+◌, ◌/◌, ◌^◌, ◌≤◌, ◌<◌, ◌≡◌, ◌≢◌, refl, arith, Bool, true, false, ◌⊎◌, inl, inr,
  none, some,
}
use watermeter.Base.{◌==◌, ltb, Bool-cases}
use watermeter.SdCard.{SpiBus, milliss}
use watermeter.SdCard.Media.{wait_loop, wait_not_busy}
use watermeter.SdCard.Write.{clock}

-- In its 32 bits the clock of microseconds starts again after 71 minutes, and `milliss` with it.
milliss_eq : (m : ℕ) → m < 2 ^ 32 → milliss m ≡ m / 1000
unfolding milliss
milliss_eq m h = ground (arith, h)

module _ (bus : SpiBus) where
  -- The bus after `n` more bytes were read.
  unfoldable pub after_reads : ℕ → bus.State → bus.State
  after_reads zero s = s
  after_reads (suc n) s = after_reads n (bus.receive s).1

  -- The wait that began at `t0` comes to its end in state `s`: the card is ready, or the clock has
  -- gone past the time that was given.
  abbrev pub EndsAt : ℕ → ℕ → bus.State → Type 0
  EndsAt timeout t0 s = ((bus.receive s).0 ≡ 0xFF) ⊎ (t0 + timeout ≤ clock bus (bus.receive s).1)

  wait_loop-ends :
      (fuel timeout t0 k : ℕ) (s : bus.State)
      → k < fuel
      → EndsAt timeout t0 (after_reads k s)
      → (r : Bool × bus.State) × (wait_loop bus fuel timeout t0 s ≡ some r)
  unfolding wait_loop after_reads
  wait_loop-ends zero timeout t0 k s enough ends = absurd (omega arith)
  wait_loop-ends (suc fuel) timeout t0 zero s enough (inl ready) =
      ((true, (bus.receive s).1), rw ready refl)
  wait_loop-ends (suc fuel) timeout t0 zero s enough (inr late) =
      let over : ltb (clock bus (bus.receive s).1) (t0 + timeout) ≡ false = ground (arith, late) in
      elim (Bool-cases ((bus.receive s).0 == 0xFF)) [
        | inl ready ↦ ((true, (bus.receive s).1), rw ready refl)
        | inr busy ↦ ((false, (bus.receive s).1), rw (busy, over) refl)
      ]
  wait_loop-ends (suc fuel) timeout t0 (suc k) s enough ends =
      let (r, e) = wait_loop-ends fuel timeout t0 k (bus.receive s).1 (omega arith) ends in
      elim (Bool-cases ((bus.receive s).0 == 0xFF)) [
        | inl ready ↦ ((true, (bus.receive s).1), rw ready refl)
        | inr busy ↦ elim (Bool-cases (ltb (clock bus (bus.receive s).1) (t0 + timeout))) [
          | inl early ↦ (r, rw (busy, early) e)
          | inr over ↦ ((false, (bus.receive s).1), rw (busy, over) refl)
        ]
      ]

  stuck_loop :
      (fuel timeout t0 : ℕ) (s : bus.State)
      → 2 ^ 16 ≤ t0 + timeout
      → ((k : ℕ) → (bus.receive (after_reads k s)).0 ≢ 0xFF)
      → wait_loop bus fuel timeout t0 s ≡ none
  unfolding wait_loop after_reads
  stuck_loop zero timeout t0 s late busy = refl
  stuck_loop (suc fuel) timeout t0 s late busy =
      let waits : ((bus.receive s).0 == 0xFF) ≡ false = ground (arith, busy 0) in
      let early : ltb (clock bus (bus.receive s).1) (t0 + timeout) ≡ true = ground (arith, late) in
      rw (waits, early) (stuck_loop fuel timeout t0 (bus.receive s).1 late (λ k. busy (suc k)))

  -- The wait comes to its end, with some result, as soon as the card answers that it is ready or the
  -- clock, of 16 bits, has gone past the time that was given.
  pub wait_not_busy-ends :
      (fuel timeout k : ℕ) (s : bus.State)
      → k < fuel
      → EndsAt timeout (clock bus s) (after_reads k s)
      → (r : Bool × bus.State) × (wait_not_busy bus fuel timeout s ≡ some r)
  unfolding wait_not_busy
  wait_not_busy-ends fuel timeout k s enough ends =
      wait_loop-ends fuel timeout (clock bus s) k s enough ends

  -- A wait that begins less than `timeout` milliseconds before the clock of 16 bits starts again has no
  -- end but the card's: while the card stays busy, no number of rounds is enough.
  pub wait_not_busy-stuck :
      (fuel timeout : ℕ) (s : bus.State)
      → 2 ^ 16 ≤ clock bus s + timeout
      → ((k : ℕ) → (bus.receive (after_reads k s)).0 ≢ 0xFF)
      → wait_not_busy bus fuel timeout s ≡ none
  unfolding wait_not_busy
  wait_not_busy-stuck fuel timeout s late busy = stuck_loop fuel timeout (clock bus s) s late busy
