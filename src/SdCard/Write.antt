-- ===== src/SdCard/Write.antt =====
-- `media_write` with a card that takes blocks, and the way back by `media_read`.
use watermeter.Base.{
  ℕ, zero, suc, ◌≤◌, Bool, ◌+◌, ◌%◌, ◌^◌, ◌<◌, ◌≡◌, ◌≢◌, refl, sym, ap, ap₂, ◌∙◌, arith, true,
  false, List, [], ◌∷◌, ◌++◌, some,
}
use watermeter.Base.{◌==◌, ltb, if◌then◌else◌, length, take, take-length, All, u16, u32}
use watermeter.Base.Bits.{bit}
use watermeter.SdCard.{SpiBus, is_sd2, sd_write_timeout, milliss, send_all, sector_address}
use watermeter.SdCard.Media.{
  Card, wait_loop, wait_not_busy, finish_write, end_write, release, give_up,
  send_command_and_write_block, media_write,
}
use watermeter.SdCard.Read.{
  Answers, after_command, released, sectors_of, address_of, Addressable, sector_address_lem,
  poll_ready-Answers,
}

-- The blocks of a card after that of one sector was written.
unfoldable pub update : (ℕ → List ℕ) → ℕ → List ℕ → ℕ → List ℕ
update m sector block a = if a == sector then block else m a

-- The blocks after those of `buffer` were written to the sectors from `sector` on.
unfoldable pub write_all : (ℕ → List ℕ) → ℕ → List (List ℕ) → ℕ → List ℕ
write_all m sector [] = m
write_all m sector (block ∷ buffer) = write_all (update m sector block) (suc sector) buffer

module _ (bus : SpiBus) where
  abbrev pub clock : bus.State → ℕ
  clock s = u16 (milliss (bus.system_get_time s))

  -- The card is busy with `busy` and then ready, before `timeout` milliseconds after `t0` are over.
  abbrev pub BusyFor : ℕ → ℕ → List ℕ → bus.State → bus.State → Type 0
  BusyFor timeout t0 [] s s2 = bus.receive s ≡ (0xFF, s2)
  BusyFor timeout t0 (b ∷ busy) s s2 =
      (s1 : bus.State) × (bus.receive s ≡ (b, s1))
      × (b ≢ 0xFF)
      × (clock s1 < t0 + timeout)
      × BusyFor timeout t0 busy s1 s2

  wait_loop-BusyFor :
      (fuel timeout t0 : ℕ) (busy : List ℕ) (s s2 : bus.State)
      → length busy < fuel
      → BusyFor timeout t0 busy s s2
      → wait_loop bus fuel timeout t0 s ≡ some (true, s2)
  unfolding wait_loop
  wait_loop-BusyFor zero timeout t0 busy s s2 enough b = absurd (omega arith)
  wait_loop-BusyFor (suc fuel) timeout t0 [] s s2 enough e = rw e
  wait_loop-BusyFor (suc fuel) timeout t0 (x ∷ busy) s s2 enough (s1, e, other, early, more) =
      let test : (x == 0xFF) ≡ false = ground (arith, other) in
      let in_time : ltb (clock s1) (t0 + timeout) ≡ true = ground (arith, early) in
      rw (e, test, in_time) (wait_loop-BusyFor fuel timeout t0 busy s1 s2 (omega arith) more)

  -- How a card answers the command to write a block: it takes the command, then the block, and is
  -- busy for a while.
  pub record Takes (fuel : ℕ) (s : bus.State) (block : List ℕ) (s2 : bus.State) : Type 0 where
    pub busy : List ℕ
    pub accepted : ℕ
    pub is_busy : All (λ b. bit 7 b ≡ 1) busy
    pub is_accepted : bit 7 accepted ≡ 0
    pub busy_ends : length busy < 0xFF
    pub answering : bus.State
    pub ready : bus.State
    pub answers : Answers bus busy s answering
    pub accepts : bus.receive answering ≡ (accepted, ready)
    pub status : ℕ
    pub is_taken : status % 32 ≡ 5
    pub taken : bus.State
    pub takes :
        bus.receive (send_all bus (0xFE ∷ (block ++ (0xFF ∷ 0xFF ∷ []))) ready) ≡ (status, taken)
    pub programming : List ℕ
    pub programming_ends : length programming < fuel
    pub programs : BusyFor sd_write_timeout (clock taken) programming taken s2

  finish_write-Takes :
      (fuel status : ℕ) (busy : List ℕ) (c : Card bus) (s s2 : bus.State)
      → bus.receive c.spi ≡ (status, s)
      → status % 32 ≡ 5
      → length busy < fuel
      → BusyFor sd_write_timeout (clock s) busy s s2
      → finish_write bus fuel c ≡ some (release bus (record c { spi = s2; status_ = status }))
  unfolding finish_write wait_not_busy end_write
  finish_write-Takes fuel status busy c s s2 e taken enough b =
      let test : (status % 32 == 5) ≡ true = ground (arith, taken) in
      rw (e, wait_loop-BusyFor fuel sd_write_timeout (clock s) busy s s2 enough b, test)

  -- A card of so many sectors that holds the blocks `m` takes a block at the address of one of them, and
  -- holds it there from then on.
  pub record WritesBlocks (bytes : Bool) (sectors fuel : ℕ)
      (Holds : (ℕ → List ℕ) → bus.State → Type 0) : Type 0 where
    pub takes :
        (m : ℕ → List ℕ) (s : bus.State) (sector : ℕ) (block : List ℕ)
        → sector < sectors
        → Holds m s
        → length block ≡ 512
        → (s2 : bus.State) × Takes fuel
            (after_command bus 0x58 (address_of bytes sector) s)
            block
            s2
          × Holds (update m sector block) (bus.select false (released bus s2))

  module _ (bytes : Bool) (sectors fuel : ℕ) (Holds : (ℕ → List ℕ) → bus.State → Type 0)
      (writes : WritesBlocks bytes sectors fuel Holds) (fits : Addressable bytes sectors) where
    write_block :
        (m : ℕ → List ℕ) (sector : ℕ) (block : List ℕ) (c : Card bus)
        → sector < sectors
        → Holds m c.spi
        → length block ≡ 512
        → (c1 : Card bus) × (send_command_and_write_block bus fuel 0x58
              (address_of bytes sector)
              0xFF
              block
              c
            ≡ some c1)
          × (c1.type_ ≡ c.type_)
          × Holds (update m sector block) (bus.select false c1.spi)
    unfolding send_command_and_write_block release
    write_block m sector block c within holds size =
        let address = address_of bytes sector in
        let (s2, v, again) = writes.takes m c.spi sector block within holds size in
        let whole : take 512 block ≡ block =
          ap (λ n. take n block) (sym size) ∙ take-length block in
        let polled =
          poll_ready-Answers bus v.busy v.accepted 0xFF (after_command bus 0x58 address c.spi)
            v.answering v.ready v.is_busy v.is_accepted v.busy_ends v.answers v.accepts in
        let sent = send_all bus (0xFE ∷ (block ++ (0xFF ∷ 0xFF ∷ []))) v.ready in
        let e =
          finish_write-Takes fuel v.status v.programming
            (record c { spi = sent; status_ = v.accepted }) v.taken s2 v.takes v.is_taken
            v.programming_ends v.programs in
        (
          record c { spi = released bus s2; status_ = v.status },
          rw (polled, whole, e) refl,
          refl,
          again,
        )

    write_step :
        (sector : ℕ) (block : List ℕ) (buffer : List (List ℕ)) (c c1 c2 : Card bus)
        → sector_address c.type_ sector ≡ address_of bytes sector
        → suc sector < 2 ^ 32
        → send_command_and_write_block bus fuel 0x58 (address_of bytes sector) 0xFF block c
          ≡ some c1
        → media_write bus fuel (suc sector) buffer (give_up bus c1) ≡ some c2
        → media_write bus fuel sector (block ∷ buffer) c ≡ some c2
    unfolding media_write
    write_step sector block buffer c c1 c2 at below e rest =
        let next : u32 (suc sector) ≡ suc sector = omega arith in rw (at, e, next) rest

    -- With a card that takes blocks and whose type says how it counts, `media_write` ends and the card
    -- holds the blocks of the buffer in consecutive sectors.
    pub media_write-Holds :
        (m : ℕ → List ℕ) (sector : ℕ) (buffer : List (List ℕ)) (c : Card bus)
        → is_sd2 c.type_ ≡ bytes
        → Holds m c.spi
        → All (λ block. length block ≡ 512) buffer
        → sector + length buffer ≤ sectors
        → sectors < 2 ^ 32
        → (c1 : Card bus) × (media_write bus fuel sector buffer c ≡ some c1)
          × (c1.type_ ≡ c.type_)
          × Holds (write_all m sector buffer) c1.spi
    unfolding media_write write_all
    media_write-Holds m sector [] c typed holds sized within below = (c, refl, refl, holds)
    media_write-Holds m sector (block ∷ buffer) c typed holds (size, sized) within below =
        let at = sector_address_lem c.type_ bytes sector typed (fits sector (omega arith)) in
        let (c1, e, same, again) = write_block m sector block c (omega arith) holds size in
        let (c2, rest, kept, after) =
          media_write-Holds (update m sector block) (suc sector) buffer (give_up bus c1)
            (ap is_sd2 same ∙ typed) again sized (omega arith) below in
        (c2, write_step sector block buffer c c1 c2 at (omega arith) e rest, kept ∙ same, after)

write_all-before :
    (m : ℕ → List ℕ) (i sector : ℕ) (buffer : List (List ℕ))
    → i < sector
    → write_all m sector buffer i ≡ m i
unfolding write_all update
write_all-before m i sector [] less = refl
write_all-before m i sector (block ∷ buffer) less =
    let other : (i == sector) ≡ false = ground (arith, less) in
    write_all-before (update m sector block) i (suc sector) buffer (omega arith) ∙ rw other refl

pub sectors_of-write_all :
    (m : ℕ → List ℕ) (sector : ℕ) (buffer : List (List ℕ))
    → sectors_of (write_all m sector buffer) sector (length buffer) ≡ buffer
unfolding write_all update
sectors_of-write_all m sector [] = refl
sectors_of-write_all m sector (block ∷ buffer) =
    let same : (sector == sector) ≡ true = ground arith in
    let first = write_all-before (update m sector block) sector (suc sector) buffer (omega arith) in
    ap₂ (λ b bs. b ∷ bs) (first ∙ rw same refl)
      (sectors_of-write_all (update m sector block) (suc sector) buffer)
