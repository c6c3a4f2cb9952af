-- ===== src/SdCard/RoundTrip.antt =====
-- What was written to the card by `media_write` is read by `media_read`.
use watermeter.Base.{ℕ, ◌+◌, ◌^◌, ◌<◌, ◌≤◌, ◌≡◌, Bool, ap, ◌∙◌, arith, List, some}
use watermeter.Base.{length, All}
use watermeter.SdCard.{SpiBus, is_sd2}
use watermeter.SdCard.Media.{Card, media_read, media_write}
use watermeter.SdCard.Read.{ReadsBlocks, Addressable, sectors_of, media_read-sectors_of}
use watermeter.SdCard.Write.{WritesBlocks, write_all, media_write-Holds, sectors_of-write_all}

module _ (bus : SpiBus) (bytes : Bool) (sectors fuel : ℕ)
    (Holds : (ℕ → List ℕ) → bus.State → Type 0) (reads : ReadsBlocks bus bytes sectors Holds)
    (writes : WritesBlocks bus bytes sectors fuel Holds) (fits : Addressable bytes sectors) where
  -- On a card that serves and takes the blocks of its sectors, at their byte addresses where the type of
  -- the card is SD2 and at their numbers otherwise, where these addresses have 32 bits: a write of any
  -- number of blocks to consecutive sectors of the card ends, and leaves every other sector as it was;
  -- and a read of these sectors then gives the same blocks, whatever the buffer held.
  pub media_read-media_write :
      (m : ℕ → List ℕ) (sector : ℕ) (blocks buffer : List (List ℕ)) (c : Card bus)
      → is_sd2 c.type_ ≡ bytes
      → Holds m c.spi
      → All (λ block. length block ≡ 512) blocks
      → All (λ old. length old ≡ 512) buffer
      → length buffer ≡ length blocks
      → sector + length blocks ≤ sectors
      → sectors < 2 ^ 32
      → (c1 : Card bus) × (media_write bus fuel sector blocks c ≡ some c1)
        × Holds (write_all m sector blocks) c1.spi
        × ((media_read bus sector buffer c1).0 ≡ blocks)
  media_read-media_write m sector blocks buffer c typed holds sized room same within below =
      let (c1, e, kept, after) =
        media_write-Holds bus bytes sectors fuel Holds writes fits m sector blocks c typed holds
          sized within below in
      let all = write_all m sector blocks in
      let read =
        (media_read-sectors_of bus bytes sectors Holds reads fits all sector buffer c1
          (ap is_sd2 kept ∙ typed) room (omega (arith, same, within)) below after).0 in
      (
        c1,
        e,
        after,
        read ∙ ap (λ n. sectors_of all sector n) same ∙ sectors_of-write_all m sector blocks,
      )
