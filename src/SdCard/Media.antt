-- ===== src/SdCard/Media.antt =====
-- The access of the FAT library to the sectors in user/sdcard.c: `waitNotBusy`,
-- `SendSdCardCommandAndWriteBlock`, `media_read` and `media_write`.
use watermeter.Base.{
  ℕ, zero, suc, ◌+◌, ◌%◌, Bool, true, false, List, [], ◌∷◌, ◌++◌, Option, none, some,
}
use watermeter.Base.{◌==◌, ltb, if◌then◌else◌, take, u16, u32}
use watermeter.Base.CString.{◌>>=◌}
use watermeter.SdCard.{
  SpiBus, CardType, CardError, error_write, error_write_timeout, cmd17, sd_write_timeout, frame,
  sector_address, milliss, send_all, poll_ready, send_sd_card_command,
}

module _ (bus : SpiBus) where
  -- One round of the loop of `waitNotBusy` may be the last.
  unfoldable pub wait_loop : ℕ → ℕ → ℕ → bus.State → Option (Bool × bus.State)
  wait_loop zero timeout t0 s = none
  wait_loop (suc fuel) timeout t0 s =
      let (x, s1) = bus.receive s in
      let rest = wait_loop fuel timeout t0 s1 in
      if x == 0xFF
      then some (true, s1)
      else if ltb (u16 (milliss (bus.system_get_time s1))) (t0 + timeout)
      then rest
      else some (false, s1)

  -- `waitNotBusy`, for as many answers as `fuel` says; `none` is a wait that goes on.
  unfoldable pub wait_not_busy : ℕ → ℕ → bus.State → Option (Bool × bus.State)
  wait_not_busy fuel timeout s = wait_loop fuel timeout (u16 (milliss (bus.system_get_time s))) s

  -- The bus and the variables of the card.
  pub record Card : Type 0 where
    pub spi : bus.State
    pub response : List ℕ
    pub type_ : CardType
    pub status_ : ℕ
    pub error_code : CardError
    pub sd_ok : Bool

  -- `goto fail` of `SendSdCardCommandAndWriteBlock`.
  abbrev pub give_up : Card → Card
  give_up c = record c { spi = bus.select false c.spi }

  unfoldable pub release : Card → Card
  release c = record c { spi = send_all bus (0xFF ∷ 0xFF ∷ []) (bus.select false c.spi) }

  unfoldable pub end_write : Bool → Card → Card
  end_write true c = release c
  end_write false c = give_up (record c { error_code = error_write_timeout })

  -- After the block was sent.
  unfoldable pub finish_write : ℕ → Card → Option Card
  finish_write fuel c =
      let (status, s) = bus.receive c.spi in
      wait_not_busy fuel sd_write_timeout s >>= λ (ready, s1).
      let c1 = record c { spi = s1; status_ = status } in
      some (
        if status % 32 == 5
        then end_write ready c1
        else release (record c1 { error_code = error_write }))

  -- `SendSdCardCommandAndWriteBlock`.
  unfoldable pub send_command_and_write_block : ℕ → ℕ → ℕ → ℕ → List ℕ → Card → Option Card
  send_command_and_write_block fuel cmd command_bytes crc data_block c =
      let s1 = send_all bus (frame cmd command_bytes crc) (bus.select true c.spi) in
      let ready = poll_ready bus 0xFF s1 in
      let c1 = record c { spi = ready.after; status_ = ready.answer } in
      if ready.timed_out
      then some (give_up c1)
      else (let block = 0xFE ∷ (take 512 data_block ++ (0xFF ∷ 0xFF ∷ [])) in
          finish_write fuel (record c1 { spi = send_all bus block c1.spi }))

  -- `media_read`, into a buffer of as many blocks as sectors are asked for. It returns 1.
  unfoldable pub media_read : ℕ → List (List ℕ) → Card → List (List ℕ) × Card
  media_read sector [] c = ([], c)
  media_read sector (block ∷ buffer) c =
      let (block1, s) =
        send_sd_card_command bus cmd17 (sector_address c.type_ sector) 0xFF block 512 c.spi in
      let (buffer1, c1) = media_read (u32 (suc sector)) buffer (record c { spi = s }) in
      (block1 ∷ buffer1, c1)

  -- `media_write`. It returns 1.
  unfoldable pub media_write : ℕ → ℕ → List (List ℕ) → Card → Option Card
  media_write fuel sector [] c = some c
  media_write fuel sector (block ∷ buffer) c =
      send_command_and_write_block fuel 0x58 (sector_address c.type_ sector) 0xFF block c >>= λ c1.
      media_write fuel (u32 (suc sector)) buffer (give_up c1)
