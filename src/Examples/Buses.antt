-- ===== src/Examples/Buses.antt =====
-- Buses and a flash that answer always the same.
use watermeter.Base.{
  ℕ, ◌≡◌, refl, ◌∙◌, arith, Bool, true, false, inl, inr, ◌⊎◌, List, [], some, none,
}
use watermeter.Base.{leb, if◌then◌else◌, length, take, replicate, length-take, Bool-cases}
use watermeter.Config.Flash.{SpiFlash, ReadsBack, flash_ok}
use watermeter.Utils.InitData.{set107init_data_bin, ReadsSectors, set107init_data_bin-settles}
use watermeter.SdCard.{SpiBus, no_type, no_error, milliss}
use watermeter.SdCard.Media.{Card, wait_not_busy}
use watermeter.SdCard.Init.{media_init}
use watermeter.SdCard.Wait.{wait_not_busy-ends, wait_not_busy-stuck}
use watermeter.SdCard.Startup.{Answered, Begins, media_init-Begins}
use watermeter.Examples.{write_erased}

-- A card that answers `x` at the time `t`, in microseconds.
abbrev constant_bus : ℕ → ℕ → SpiBus
constant_bus x t = record {
  State = Unit;
  send = λ b s. s;
  receive = λ s. (x, s);
  select = λ low s. s;
  system_get_time = λ s. t;
}

wait_not_busy-ends_example :
    (r : Bool × Unit) × (wait_not_busy (constant_bus 0xFF 1000) 1 600 tt ≡ some r)
wait_not_busy-ends_example =
    wait_not_busy-ends (constant_bus 0xFF 1000) 1 600 0 tt (omega arith) (inl refl)

wait_not_busy-stuck_example : wait_not_busy (constant_bus 0 65500000) 1000000 600 tt ≡ none
unfolding milliss
wait_not_busy-stuck_example =
    wait_not_busy-stuck (constant_bus 0 65500000) 1000000 600 tt (omega arith) (λ k. omega arith)

-- The answers 1 to CMD0 and CMD8, which is none that the card may give to CMD8.
abbrev dumb_card : Card (constant_bus 1 0)
dumb_card = record {
  spi = tt;
  response = replicate 580 0;
  type_ = no_type;
  status_ = 0;
  error_code = no_error;
  sd_ok = false;
}

abbrev no_fat : (constant_bus 1 0).State → Bool × (constant_bus 1 0).State
no_fat s = (false, s)

media_init-Begins_example :
    (Answered (constant_bus 1 0) no_fat dumb_card
      × Begins (constant_bus 1 0) no_fat (media_init (constant_bus 1 0) no_fat dumb_card))
    ⊎ (¬ Answered (constant_bus 1 0) no_fat dumb_card
        × ((media_init (constant_bus 1 0) no_fat dumb_card).type_ ≡ no_type)
        × ((media_init (constant_bus 1 0) no_fat dumb_card).sd_ok ≡ false))
media_init-Begins_example = media_init-Begins (constant_bus 1 0) no_fat dumb_card

-- A flash of one sector, which reads no more than there is.
abbrev read_checked : ℕ → List ℕ → ℕ × List ℕ
read_checked n s = if leb n (length s) then (flash_ok, take n s) else (1, [])

abbrev checked_sector : SpiFlash
checked_sector = record {
  State = List ℕ;
  erase_sector = λ sector s. [];
  write = λ address bytes s. write_erased bytes s;
  read = λ address n s. read_checked n s;
}

checked_sector-ReadsBack : ReadsBack checked_sector
checked_sector-ReadsBack s sector bytes n fits within written = ground (arith, within)

checked_sector-ReadsSectors : ReadsSectors checked_sector
checked_sector-ReadsSectors s sector read = elim (Bool-cases (leb 4096 (length s))) [
  | inl whole ↦ rw whole (length-take 4096 s ∙ ground (arith, whole))
  | inr short ↦ absurd (omega (arith, rw short at read))
]

abbrev blank : List ℕ
blank = replicate 4096 0xFF

blank_restarts : (set107init_data_bin checked_sector true blank).0 ≡ true
unfolding set107init_data_bin
blank_restarts = refl

set107init_data_bin-settles_example :
    set107init_data_bin checked_sector true (set107init_data_bin checked_sector true blank).1
    ≡ (false, (set107init_data_bin checked_sector true blank).1)
set107init_data_bin-settles_example =
    set107init_data_bin-settles checked_sector blank checked_sector-ReadsBack
      checked_sector-ReadsSectors blank_restarts refl
