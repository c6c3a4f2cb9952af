-- ===== src/Config/Flash.antt =====
-- `read_flash_config` and `write_flash_config` of user/wm_config.c.
-- The SPI flash of the SDK is a parameter: its state, and what each call returns and leaves.
use watermeter.Base.{
  ℕ, ◌+◌, ◌*◌, ◌^◌, ◌-◌, ◌≤◌, ◌≡◌, refl, ap, Bool, true, false, List, ◌++◌, arith,
}
use watermeter.Base.{
  ◌==◌, if◌then◌else◌, length, take, drop, length-append, take-length, take-append, ==_iff,
  drop-append,
}
use watermeter.Base.Bytes.{bytes_of_u32, u32_at, length-bytes_of_u32, u32_at-bytes_of_u32}
use watermeter.Config.Crc.{crc_update, crc_update-lt}

pub record SpiFlash : Type 1 where
  pub State : Type 0
  pub erase_sector : ℕ → State → State
  -- Address and bytes; the result code and the state after the call.
  pub write : ℕ → List ℕ → State → ℕ × State
  -- Address and length; the result code and the bytes that were read.
  pub read : ℕ → ℕ → State → ℕ × List ℕ

abbrev pub flash_ok : ℕ
flash_ok = 0

abbrev pub crc_error : ℕ
crc_error = 4

-- `return -1`, as a SpiFlashOpResult.
abbrev pub no_memory : ℕ
no_memory = 2 ^ 32 - 1

-- SEC_FLASH, for OTA_FLASH_MAP 6.
abbrev pub config_sector : ℕ
config_sector = 0x1fa

abbrev pub config_address : ℕ
config_address = config_sector * 4096

-- What the code relies on: a sector that was erased and then written with success reads back.
abbrev pub ReadsBack : SpiFlash → Type 0
ReadsBack spi =
    (s : spi.State) (sector : ℕ) (bytes : List ℕ) (n : ℕ)
    → length bytes ≤ 4096
    → n ≤ length bytes
    → (spi.write (sector * 4096) bytes (spi.erase_sector sector s)).0 ≡ flash_ok
    → spi.read (sector * 4096) n (spi.write (sector * 4096) bytes (spi.erase_sector sector s)).1
      ≡ (flash_ok, take n bytes)

module _ (spi : SpiFlash) where
  -- `allocated` says whether `os_malloc` gave the scratch buffer. The first result is the code,
  -- the second the caller's buffer.
  unfoldable pub read_flash_config : Bool → List ℕ → ℕ → spi.State → ℕ × List ℕ
  read_flash_config false buffer len s = (no_memory, buffer)
  read_flash_config true buffer len s =
      let (ret, buf) = spi.read config_address (len + 4) s in
      if ret == flash_ok
      then (
        if crc_update (take len buf) len == u32_at (drop len buf) 0 then flash_ok else crc_error,
        take len buf,
      )
      else (ret, buffer)

  unfoldable pub write_flash_config : Bool → List ℕ → ℕ → spi.State → ℕ × spi.State
  write_flash_config false buffer len s = (no_memory, s)
  write_flash_config true buffer len s =
      spi.write config_address (take len buffer ++ bytes_of_u32 (crc_update buffer len))
        (spi.erase_sector config_sector s)

-- The bytes that a write of a whole buffer sends to the flash.
unfoldable pub stored : List ℕ → List ℕ
stored buffer = buffer ++ bytes_of_u32 (crc_update buffer (length buffer))

length-stored : (buffer : List ℕ) → length (stored buffer) ≡ length buffer + 4
unfolding stored
length-stored buffer = omega (
  arith,
  length-append {0} buffer (bytes_of_u32 (crc_update buffer (length buffer))),
  length-bytes_of_u32 (crc_update buffer (length buffer)),
)

module _ (spi : SpiFlash) where
  write_flash_config-whole :
      (buffer : List ℕ) (s : spi.State)
      → write_flash_config spi true buffer (length buffer) s
        ≡ spi.write config_address (stored buffer) (spi.erase_sector config_sector s)
  unfolding write_flash_config stored
  write_flash_config-whole buffer s =
      ap
        (λ t.
          spi.write config_address (t ++ bytes_of_u32 (crc_update buffer (length buffer)))
            (spi.erase_sector config_sector s))
        (take-length buffer)

  -- The caller gets the code `crc_error` where the checksum does not fit the bytes, and the code of
  -- the SDK where it refuses; only with the checksum right it is `flash_ok`.
  pub read_flash_config-checked :
      (old : List ℕ) (len : ℕ) (s : spi.State)
      → (read_flash_config spi true old len s).0 ≡ flash_ok
      → let buf = (spi.read config_address (len + 4) s).1 in
        (crc_update (take len buf) len ≡ u32_at (drop len buf) 0)
        × ((read_flash_config spi true old len s).1 ≡ take len buf)
  unfolding read_flash_config
  read_flash_config-checked old len s h = ground arith

module _ (spi : SpiFlash) (reads_back : ReadsBack spi) where
  -- A shorter read of what was written with success.
  pub read-stored :
      (buffer : List ℕ) (s : spi.State) (n : ℕ)
      → length buffer + 4 ≤ 4096
      → n ≤ length buffer + 4
      → (write_flash_config spi true buffer (length buffer) s).0 ≡ flash_ok
      → spi.read config_address n (write_flash_config spi true buffer (length buffer) s).1
        ≡ (flash_ok, take n (stored buffer))
  read-stored buffer s n fits inside written =
      let size = length-stored buffer in
      rw write_flash_config-whole (
        reads_back s config_sector (stored buffer) n (omega arith) (omega arith)
          (rw write_flash_config-whole at written))

  -- What was written with success is read back, checksum included.
  pub read_flash_config-write_flash_config :
      (buffer old : List ℕ) (s : spi.State)
      → length buffer + 4 ≤ 4096
      → (write_flash_config spi true buffer (length buffer) s).0 ≡ flash_ok
      → read_flash_config spi true old
          (length buffer)
          (write_flash_config spi true buffer (length buffer) s).1
        ≡ (flash_ok, buffer)
  unfolding read_flash_config stored
  read_flash_config-write_flash_config buffer old s fits written =
      let crc = crc_update buffer (length buffer) in
      rw (
        read-stored buffer s (length buffer + 4) fits (omega arith) written,
        ← length-stored buffer,
        take-length,
        take-append,
        drop-append,
        u32_at-bytes_of_u32 crc (crc_update-lt buffer (length buffer)),
        (==_iff crc crc).1 refl,
      )
