-- ===== src/SdCard/Init.antt =====
-- The start of the card in user/sdcard.c: `media_init`, `sd_init`, `InitFat`, `checkDir` and `mkDir`.
use watermeter.Base.{ℕ, zero, suc, Bool, true, false, not, ◌&&◌}
use watermeter.Base.{◌==◌, if◌then◌else◌, get_or, replicate}
use watermeter.SdCard.{SpiBus, sd1, sd2, sdhc, sd_init_timeout, send_all, send_sd_card_command}
use watermeter.SdCard.Media.{Card, release}

module _ (bus : SpiBus) where
  -- `SendSdCardCommand` into the array `response`.
  unfoldable pub command : ℕ → ℕ → ℕ → ℕ → Card bus → Card bus
  command cmd command_bytes crc response_length c =
      let (response, s) =
        send_sd_card_command bus cmd command_bytes crc c.response response_length c.spi in
      record c { response = response; spi = s }

  unfoldable pub clock_out : ℕ → Card bus → Card bus
  clock_out n c = record c { spi = send_all bus (replicate n 0xFF) c.spi }

  -- CMD55 and ACMD41, until the card is ready; how many rounds of the `left` there are not used.
  unfoldable pub wait_for_start : ℕ → Card bus → ℕ × Card bus
  wait_for_start zero c = (0, c)
  wait_for_start (suc left) c =
      let c1 = command 0x69 0x40000000 0xFF 1 (command 0x77 0 0x87 5 c) in
      let rest = wait_for_start left c1 in
      if get_or c.response 0 0 == 0 then (suc left, c) else rest

  -- CMD58: whether the card counts blocks.
  unfoldable pub read_capacity : Card bus → Card bus
  read_capacity c =
      let c1 = command 0x7A 0 0xFF 5 c in
      if get_or c1.response 1 0 == 0xC0 then record c1 { type_ = sdhc } else c1

  -- `InitFat`: the FAT library answers whether it found a file system.
  unfoldable pub init_fat : (bus.State → Bool × bus.State) → Card bus → Card bus
  init_fat attach c = let (found, s) = attach c.spi in record c { spi = s; sd_ok = found }

  unfoldable pub after_start : (bus.State → Bool × bus.State) → ℕ × Card bus → Card bus
  after_start attach (left, c) = init_fat attach (if left == 0 then c else read_capacity c)

  -- Behind CMD8.
  unfoldable pub start_card : (bus.State → Bool × bus.State) → Card bus → Card bus
  start_card attach c =
      after_start attach (wait_for_start sd_init_timeout (record c { type_ = sd2 }))

  -- `media_init`.
  unfoldable pub media_init : (bus.State → Bool × bus.State) → Card bus → Card bus
  media_init attach c =
      let c1 = command 0x40 0 0x95 1 (clock_out 12 c) in
      let c2 = command 0x48 0x1AA 0x87 5 (clock_out 2 c1) in
      let is_old = get_or c2.response 0 0 == 4 in
      let c3 = if is_old then record c2 { type_ = sd1 } else c2 in
      let failed = not is_old && not (get_or c2.response 4 0 == 0xAA) in
      let started = start_card attach c3 in
      release bus (if not (get_or c1.response 0 0 == 1) then c1 else if failed then c2 else started)

  -- `sd_init`.
  unfoldable pub sd_init : (bus.State → Bool × bus.State) → Card bus → Bool × Card bus
  sd_init attach c = let c1 = media_init attach c in (c1.sd_ok, c1)

-- `checkDir` and `mkDir`, with the answers of the FAT library to `fl_opendir` and
-- `fl_createdirectory`: the result, and whether the directory was asked to be created.
unfoldable pub check_dir : Bool → Bool
check_dir opened = opened

unfoldable pub mk_dir : Bool → Bool → Bool → Bool × Bool
unfolding check_dir
mk_dir sd_ok opened created =
    if not sd_ok
    then (false, false)
    else if not (check_dir opened)
    then (created, true)
    else (true, false)
