-- ===== src/SdCard/Read.antt =====
-- `media_read` with a card that serves its blocks.
use watermeter.Base.{
  ℕ, zero, suc, ◌+◌, ◌*◌, ◌^◌, ◌<◌, ◌≤◌, Bool, ◌≡◌, ◌≢◌, refl, sym, ◌∙◌, arith, true, false, List,
  [], ◌∷◌, ◌++◌,
}
use watermeter.Base.{◌==◌, length, drop, set, All, u32, length-set, drop-all}
use watermeter.Base.Bits.{bit}
use watermeter.SdCard.{
  SpiBus, CardType, cmd17, frame, send_all, receive_bytes, poll_ready, poll_token,
  get_block_read_response, get_response, send_sd_card_command, sector_address, is_sd2,
}
use watermeter.SdCard.Media.{Card, media_read}
use mathlib.Core.List.{append-nil}

-- The blocks of `n` sectors from `sector` on.
abbrev pub sectors_of : (ℕ → List ℕ) → ℕ → ℕ → List (List ℕ)
sectors_of m sector zero = []
sectors_of m sector (suc n) = m sector ∷ sectors_of m (suc sector) n

-- The address of a sector in a command: cards of standard capacity count bytes, those of high capacity
-- count blocks.
abbrev pub address_of : Bool → ℕ → ℕ
address_of true sector = sector * 512
address_of false sector = sector

-- The addresses of all sectors of a card fit the 32 bits of a command.
abbrev pub Addressable : Bool → ℕ → Type 0
Addressable bytes sectors = (sector : ℕ) → sector < sectors → address_of bytes sector < 2 ^ 32

-- `media_read` and `media_write` address a card by its bytes exactly where its type is SD2.
pub sector_address_lem :
    (t : CardType) (bytes : Bool) (sector : ℕ)
    → is_sd2 t ≡ bytes
    → address_of bytes sector < 2 ^ 32
    → sector_address t sector ≡ address_of bytes sector
unfolding sector_address
sector_address_lem t true sector e below = rw e (omega (arith, below))
sector_address_lem t false sector e below = rw e refl

module _ (bus : SpiBus) where
  -- The bus answers with `bytes`, one for each byte that is read.
  abbrev pub Answers : List ℕ → bus.State → bus.State → Type 0
  Answers [] s s2 = s ≡ s2
  Answers (b ∷ bytes) s s2 = (s1 : bus.State) × (bus.receive s ≡ (b, s1)) × Answers bytes s1 s2

  receive_bytes-Answers :
      (bytes : List ℕ) (s s2 : bus.State)
      → Answers bytes s s2
      → receive_bytes bus (length bytes) s ≡ (bytes, s2)
  unfolding receive_bytes
  receive_bytes-Answers [] s s2 e = rw e
  receive_bytes-Answers (b ∷ bytes) s s2 (s1, e, more) =
      rw (e, receive_bytes-Answers bytes s1 s2 more)

  Answers-append :
      (xs ys : List ℕ) (s s2 : bus.State)
      → Answers (xs ++ ys) s s2
      → (s1 : bus.State) × Answers xs s s1 × Answers ys s1 s2
  Answers-append [] ys s s2 a = (s, refl, a)
  Answers-append (x ∷ xs) ys s s2 (s1, e, more) =
      let (s3, first, second) = Answers-append xs ys s1 s2 more in (s3, (s1, e, first), second)

  pub poll_ready-Answers :
      (busy : List ℕ) (r left : ℕ) (s s1 s2 : bus.State)
      → All (λ b. bit 7 b ≡ 1) busy
      → bit 7 r ≡ 0
      → length busy < left
      → Answers busy s s1
      → bus.receive s1 ≡ (r, s2)
      → poll_ready bus left s ≡ record { answer = r; timed_out = false; after = s2 }
  unfolding poll_ready
  poll_ready-Answers [] r zero s s1 s2 all ready short a e = absurd (omega arith)
  poll_ready-Answers [] r (suc left) s s1 s2 all ready short a e = rw (a, e, ready)
  poll_ready-Answers (b ∷ busy) r zero s s1 s2 all ready short a e = absurd (omega arith)
  poll_ready-Answers (b ∷ busy) r (suc left) s s1 s2 (waits, all) ready short (s3, e3, more) e =
      rw (e3, waits) (poll_ready-Answers busy r left s3 s1 s2 all ready (omega arith) more e)

  poll_token-Answers :
      (idle : List ℕ) (left : ℕ) (s s1 s2 : bus.State)
      → All (λ b. b ≢ 0xFE) idle
      → length idle < left
      → Answers idle s s1
      → bus.receive s1 ≡ (0xFE, s2)
      → poll_token bus left s ≡ record { answer = 0xFE; timed_out = false; after = s2 }
  unfolding poll_token
  poll_token-Answers [] zero s s1 s2 all short a e = absurd (omega arith)
  poll_token-Answers [] (suc left) s s1 s2 all short a e = rw (a, e)
  poll_token-Answers (b ∷ idle) zero s s1 s2 all short a e = absurd (omega arith)
  poll_token-Answers (b ∷ idle) (suc left) s s1 s2 (other, all) short (s3, e3, more) e =
      let test : (b == 0xFE) ≡ false = ground (arith, other) in
      rw (e3, test) (poll_token-Answers idle left s3 s1 s2 all (omega arith) more e)

  -- How a card answers the command to read a block: it may be busy for a while, says that it took the
  -- command, may be busy again, and sends the token, the block and the check sum.
  pub record Serves (s : bus.State) (block : List ℕ) (s2 : bus.State) : Type 0 where
    pub busy : List ℕ
    pub accepted : ℕ
    pub idle : List ℕ
    pub crc0 : ℕ
    pub crc1 : ℕ
    pub is_busy : All (λ b. bit 7 b ≡ 1) busy
    pub is_accepted : bit 7 accepted ≡ 0
    pub is_idle : All (λ b. b ≢ 0xFE) idle
    pub busy_ends : length busy < 0xFF
    pub idle_ends : length idle < 0xFFFF
    pub answers :
        Answers (busy ++ (accepted ∷ (idle ++ (0xFE ∷ (block ++ (crc0 ∷ crc1 ∷ [])))))) s s2

  get_block-Serves :
      (s s2 : bus.State) (block response : List ℕ)
      → Serves s block s2
      → length block ≡ length response
      → get_block_read_response bus response (length block) s ≡ (block, s2)
  unfolding get_block_read_response
  get_block-Serves s s2 block response v size =
      let (s3, busy, (s4, took, more)) = Answers-append v.busy _ s s2 v.answers in
      let (s5, idle, (s6, token, data_bytes)) = Answers-append v.idle _ s4 s2 more in
      let (s7, content, crc) = Answers-append block (v.crc0 ∷ v.crc1 ∷ []) s6 s2 data_bytes in
      let rest : drop (length block) (set response 0 v.accepted) ≡ [] =
        drop-all (length block) (set response 0 v.accepted)
          (omega (arith, size, length-set response 0 v.accepted)) in
      rw (
        poll_ready-Answers v.busy v.accepted 0xFF s s3 s4 v.is_busy v.is_accepted v.busy_ends busy
            took,
        poll_token-Answers v.idle 0xFFFF s4 s5 s6 v.is_idle v.idle_ends idle token,
        receive_bytes-Answers block s6 s7 content,
        receive_bytes-Answers (v.crc0 ∷ v.crc1 ∷ []) s7 s2 crc,
        rest,
        append-nil block,
      )

  abbrev pub after_command : ℕ → ℕ → bus.State → bus.State
  after_command cmd address s = send_all bus (frame cmd address 0xFF) (bus.select true s)

  abbrev pub released : bus.State → bus.State
  released s = send_all bus (0xFF ∷ 0xFF ∷ []) (bus.select false s)

  -- A card of so many sectors that is ready and holds the blocks `m`, by their sectors, serves each of
  -- them at its address and is ready again.
  pub record ReadsBlocks (bytes : Bool) (sectors : ℕ) (Holds : (ℕ → List ℕ) → bus.State → Type 0)
      : Type 0 where
    pub sized :
        (m : ℕ → List ℕ) (s : bus.State) (sector : ℕ)
        → sector < sectors
        → Holds m s
        → length (m sector) ≡ 512
    pub serves :
        (m : ℕ → List ℕ) (s : bus.State) (sector : ℕ)
        → sector < sectors
        → Holds m s
        → (s2 : bus.State) × Serves (after_command cmd17 (address_of bytes sector) s) (m sector) s2
          × Holds m (released s2)

  module _ (bytes : Bool) (sectors : ℕ) (Holds : (ℕ → List ℕ) → bus.State → Type 0)
      (reads : ReadsBlocks bytes sectors Holds) (fits : Addressable bytes sectors)
      (m : ℕ → List ℕ) where
    read_command :
        (s : bus.State) (sector : ℕ) (old : List ℕ)
        → length old ≡ 512
        → sector < sectors
        → Holds m s
        → (s2 : bus.State) × (send_sd_card_command bus cmd17
              (address_of bytes sector)
              0xFF
              old
              512
              s
            ≡ (m sector, s2))
          × Holds m s2
    unfolding send_sd_card_command get_response
    read_command s sector old size within holds =
        let (s2, v, again) = reads.serves m s sector within holds in
        let whole = reads.sized m s sector within holds in
        let e =
          get_block-Serves (after_command cmd17 (address_of bytes sector) s) s2 (m sector) old v
            (whole ∙ sym size) in
        (released s2, rw (← whole, e) refl, again)

    -- With a card that serves its blocks and whose type says how it counts, `media_read` leaves in the
    -- buffer the blocks of as many sectors as the buffer is long, in their order from the first on;
    -- the card is ready for the next access.
    pub media_read-sectors_of :
        (sector : ℕ) (buffer : List (List ℕ)) (c : Card bus)
        → is_sd2 c.type_ ≡ bytes
        → All (λ old. length old ≡ 512) buffer
        → sector + length buffer ≤ sectors
        → sectors < 2 ^ 32
        → Holds m c.spi
        → ((media_read bus sector buffer c).0 ≡ sectors_of m sector (length buffer))
          × Holds m ((media_read bus sector buffer c).1).spi
    unfolding media_read
    media_read-sectors_of sector [] c typed sized within below holds = (refl, holds)
    media_read-sectors_of sector (old ∷ buffer) c typed (size, sized) within below holds =
        let at = sector_address_lem c.type_ bytes sector typed (fits sector (omega arith)) in
        let (s2, e, again) = read_command c.spi sector old size (omega arith) holds in
        let next : u32 (suc sector) ≡ suc sector = omega arith in
        let (rest, after) =
          media_read-sectors_of (suc sector) buffer (record c { spi = s2 }) typed sized
            (omega arith) below again in
        (rw (at, e, next, rest), rw (at, e, next) after)
