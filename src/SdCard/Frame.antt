-- ===== src/SdCard/Frame.antt =====
-- The bytes of a command.
use watermeter.Base.{ℕ, ◌+◌, ◌*◌, ◌^◌, ◌<◌, ◌≡◌, arith, List}
use watermeter.Base.{get_or}
use watermeter.SdCard.{frame}

-- How a card reads the argument of a command, from the highest byte on.
abbrev pub argument : List ℕ → ℕ
argument bytes =
    ((get_or bytes 1 0 * 256 + get_or bytes 2 0) * 256 + get_or bytes 3 0) * 256 + get_or bytes 4 0

pub argument-frame :
    (cmd command_bytes crc : ℕ)
    → command_bytes < 2 ^ 32
    → argument (frame cmd command_bytes crc) ≡ command_bytes
unfolding frame
argument-frame cmd command_bytes crc h = omega arith
