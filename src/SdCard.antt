-- ===== src/SdCard.antt =====
-- user/sdcard.c: the commands of the SD card on the SPI bus, its start, and the access of the FAT
-- library to its sectors. The driver of the bus with the card behind it is a parameter: what a byte that
-- is sent, a byte that is read and the chip select do to its state. The delays and the function of the
-- data pin are not modelled.
pub mod Media
pub mod Init
pub mod Wait
pub mod Frame
pub mod Read
pub mod Write
pub mod RoundTrip
pub mod Startup
use watermeter.Base.{
  ℕ, zero, suc, ◌+◌, ◌*◌, ◌/◌, ◌%◌, ◌^◌, Bool, true, false, not, ◌&&◌, ◌||◌, List, [], ◌∷◌, ◌++◌,
  Option, none, some,
}
use watermeter.Base.{◌==◌, ltb, leb, if◌then◌else◌, take, drop, set, get_or, replicate, u16, u32}
use watermeter.Base.Bits.{bit}
use watermeter.Base.CString.{◌>>=◌}

pub record SpiBus : Type 1 where
  pub State : Type 0
  pub send : ℕ → State → State
  pub receive : State → ℕ × State
  -- `spi_CS_low` is `select true`, `spi_CS_high` is `select false`.
  pub select : Bool → State → State
  -- `system_get_time()`, in microseconds.
  pub system_get_time : State → ℕ

-- `milliss`: nothing counts the overflows, so that both variables stay 0.
abbrev pub micros_at_last_overflow_tick : ℕ
micros_at_last_overflow_tick = 0

abbrev pub micros_overflow_count : ℕ
micros_overflow_count = 0

unfoldable pub milliss : ℕ → ℕ
milliss m =
    let c = micros_overflow_count + (if ltb m micros_at_last_overflow_tick then 1 else 0) in
    u32 (c * 4294967 + m / 1000)

pub data CardType : Type 0 where
  no_type sd1 sd2 sdhc : CardType

abbrev pub is_sd2 : CardType → Bool
is_sd2 sd2 = true
is_sd2 t = false

pub data CardError : Type 0 where
  no_error error_write error_write_timeout : CardError

abbrev pub cmd17 : ℕ
cmd17 = 0x51

abbrev pub sd_write_timeout : ℕ
sd_write_timeout = 600

abbrev pub sd_init_timeout : ℕ
sd_init_timeout = 200

-- A command: its number, the argument from the highest byte on, and the check sum.
unfoldable pub frame : ℕ → ℕ → ℕ → List ℕ
frame cmd command_bytes crc =
    cmd
    ∷ command_bytes / 2 ^ 24 % 256
    ∷ command_bytes / 2 ^ 16 % 256
    ∷ command_bytes / 2 ^ 8 % 256
    ∷ command_bytes % 256
    ∷ crc
    ∷ []

-- Where the card finds a sector: an SD2 card counts bytes.
unfoldable pub sector_address : CardType → ℕ → ℕ
sector_address t sector = if is_sd2 t then u32 (sector * 512) else sector

module _ (bus : SpiBus) where
  unfoldable pub send_all : List ℕ → bus.State → bus.State
  send_all [] s = s
  send_all (b ∷ bytes) s = send_all bytes (bus.send b s)

  unfoldable pub receive_bytes : ℕ → bus.State → List ℕ × bus.State
  receive_bytes zero s = ([], s)
  receive_bytes (suc n) s =
      let (b, s1) = bus.receive s in let (bytes, s2) = receive_bytes n s1 in (b ∷ bytes, s2)

  -- What a wait for an answer ends with: the byte that was read last, and whether the count ran out.
  pub record Polled : Type 0 where
    pub answer : ℕ
    pub timed_out : Bool
    pub after : bus.State

  -- `for (i = 0; ((x = spi_rec(1)) & 0x80) && i != 0xFF; i++)`; `left` is 0xFF - i.
  unfoldable pub poll_ready : ℕ → bus.State → Polled
  poll_ready zero s =
      let (x, s1) = bus.receive s in record { answer = x; timed_out = true; after = s1 }
  poll_ready (suc left) s =
      let (x, s1) = bus.receive s in
      let rest = poll_ready left s1 in
      if bit 7 x == 1 then rest else record { answer = x; timed_out = false; after = s1 }

  -- `for (i = 0; (temp = spi_rec(1)) != 0xFE && i != 0xFFFF; i++)`.
  unfoldable pub poll_token : ℕ → bus.State → Polled
  poll_token zero s =
      let (x, s1) = bus.receive s in record { answer = x; timed_out = true; after = s1 }
  poll_token (suc left) s =
      let (x, s1) = bus.receive s in
      let rest = poll_token left s1 in
      if x == 0xFE then record { answer = x; timed_out = false; after = s1 } else rest

  -- `GetBlockReadResponse`, into the buffer `response`.
  unfoldable pub get_block_read_response : List ℕ → ℕ → bus.State → List ℕ × bus.State
  get_block_read_response response response_length s =
      let ready = poll_ready 0xFF s in
      let response1 = set response 0 ready.answer in
      let token = poll_token 0xFFFF ready.after in
      if token.timed_out
      then (set response1 0 0xFF, token.after)
      else (let (bytes, s1) = receive_bytes response_length token.after in
          let (crc, s2) = receive_bytes 2 s1 in (bytes ++ drop response_length response1, s2))

  -- `GetCommandResponse`: the answer and then `response_length` bytes more.
  unfoldable pub get_command_response : List ℕ → ℕ → bus.State → List ℕ × bus.State
  get_command_response response response_length s =
      let ready = poll_ready 0xFF s in
      let response1 = set response 0 (if ready.timed_out then 0xFF else ready.answer) in
      let (bytes, s1) = receive_bytes response_length ready.after in
      (take 1 response1 ++ (bytes ++ drop (suc response_length) response1), bus.select false s1)

  unfoldable pub get_response : ℕ → List ℕ → ℕ → bus.State → List ℕ × bus.State
  get_response cmd response response_length s =
      if cmd == cmd17
      then get_block_read_response response response_length s
      else get_command_response response response_length s

  -- `SendSdCardCommand`: the buffer with the response, and the bus. No caller reads its result.
  unfoldable pub send_sd_card_command : ℕ → ℕ → ℕ → List ℕ → ℕ → bus.State → List ℕ × bus.State
  send_sd_card_command cmd command_bytes crc response response_length s =
      let s1 = send_all (frame cmd command_bytes crc) (bus.select true s) in
      let (response1, s2) = get_response cmd response response_length s1 in
      (response1, send_all (0xFF ∷ 0xFF ∷ []) (bus.select false s2))
