-- ===== src/SdCard/Startup.antt =====
-- `media_init`: what the card is after its start.
use watermeter.Base.{ℕ, zero, suc, ◌≡◌, refl, ◌∙◌, arith, Bool, ◌⊎◌, inl, inr}
use watermeter.Base.{◌==◌, get_or, Bool-cases}
use watermeter.SdCard.{SpiBus, sd2, sdhc}
use watermeter.SdCard.Media.{Card, release}
use watermeter.SdCard.Init.{
  command, clock_out, wait_for_start, read_capacity, init_fat, after_start, start_card, media_init,
}

module _ (bus : SpiBus) (attach : bus.State → Bool × bus.State) where
  -- The card after the answer to CMD0, and after that to CMD8.
  abbrev pub after_cmd0 : Card bus → Card bus
  after_cmd0 c = command bus 0x40 0 0x95 1 (clock_out bus 12 c)

  abbrev pub after_cmd8 : Card bus → Card bus
  after_cmd8 c = command bus 0x48 0x1AA 0x87 5 (clock_out bus 2 (after_cmd0 c))

  -- The card answers that it is idle, and then that it knows the voltage or not the command.
  abbrev pub Answered : Card bus → Type 0
  Answered c =
      (get_or (after_cmd0 c).response 0 0 ≡ 1)
      × ((get_or (after_cmd8 c).response 0 0 ≡ 4) ⊎ (get_or (after_cmd8 c).response 4 0 ≡ 0xAA))

  command-keeps :
      (cmd command_bytes crc n : ℕ) (c : Card bus)
      → ((command bus cmd command_bytes crc n c).type_ ≡ c.type_)
        × ((command bus cmd command_bytes crc n c).sd_ok ≡ c.sd_ok)
  unfolding command
  command-keeps cmd command_bytes crc n c = (refl, refl)

  clock_out-keeps :
      (n : ℕ) (c : Card bus)
      → ((clock_out bus n c).type_ ≡ c.type_) × ((clock_out bus n c).sd_ok ≡ c.sd_ok)
  unfolding clock_out
  clock_out-keeps n c = (refl, refl)

  cmd0-keeps : (c : Card bus) → ((after_cmd0 c).type_ ≡ c.type_) × ((after_cmd0 c).sd_ok ≡ c.sd_ok)
  cmd0-keeps c =
      let (typed, ok) = command-keeps 0x40 0 0x95 1 (clock_out bus 12 c) in
      let (typed1, ok1) = clock_out-keeps 12 c in (typed ∙ typed1, ok ∙ ok1)

  cmd8-keeps : (c : Card bus) → ((after_cmd8 c).type_ ≡ c.type_) × ((after_cmd8 c).sd_ok ≡ c.sd_ok)
  cmd8-keeps c =
      let (typed, ok) = command-keeps 0x48 0x1AA 0x87 5 (clock_out bus 2 (after_cmd0 c)) in
      let (typed1, ok1) = clock_out-keeps 2 (after_cmd0 c) in
      let (typed0, ok0) = cmd0-keeps c in (typed ∙ typed1 ∙ typed0, ok ∙ ok1 ∙ ok0)

  wait_for_start-type : (left : ℕ) (c : Card bus) → ((wait_for_start bus left c).1).type_ ≡ c.type_
  unfolding wait_for_start
  wait_for_start-type zero c = refl
  wait_for_start-type (suc left) c =
      let c1 = command bus 0x77 0 0x87 5 c in
      let c2 = command bus 0x69 0x40000000 0xFF 1 c1 in
      elim (Bool-cases (get_or c.response 0 0 == 0)) [
        | inl ready ↦ rw ready refl
        | inr idle ↦ rw idle (
            wait_for_start-type left c2
            ∙ (command-keeps 0x69 0x40000000 0xFF 1 c1).0
            ∙ (command-keeps 0x77 0 0x87 5 c).0)
      ]

  -- The type and the answer of the FAT library that a card ends its start with.
  pub record Begins (c : Card bus) : Type 0 where
    pub typed : (c.type_ ≡ sd2) ⊎ (c.type_ ≡ sdhc)
    pub asked : bus.State
    pub attached : c.sd_ok ≡ (attach asked).0

  init_fat-Begins :
      (c : Card bus) → (c.type_ ≡ sd2) ⊎ (c.type_ ≡ sdhc) → Begins (init_fat bus attach c)
  unfolding init_fat
  init_fat-Begins c typed = record { typed = typed; asked = c.spi; attached = refl }

  read_capacity-type :
      (c : Card bus)
      → c.type_ ≡ sd2
      → ((read_capacity bus c).type_ ≡ sd2) ⊎ ((read_capacity bus c).type_ ≡ sdhc)
  unfolding read_capacity
  read_capacity-type c e =
      let c1 = command bus 0x7A 0 0xFF 5 c in
      elim (Bool-cases (get_or c1.response 1 0 == 0xC0)) [
        | inl high ↦ inr (rw high refl)
        | inr low ↦ inl (rw low ((command-keeps 0x7A 0 0xFF 5 c).0 ∙ e))
      ]

  start_card-Begins : (c : Card bus) → Begins (start_card bus attach c)
  unfolding start_card after_start
  start_card-Begins c =
      let r = wait_for_start bus 200 (record c { type_ = sd2 }) in
      let typed : r.1.type_ ≡ sd2 = wait_for_start-type 200 (record c { type_ = sd2 }) in
      elim (Bool-cases (r.0 == 0)) [
        | inl late ↦ rw late (init_fat-Begins r.1 (inl typed))
        | inr done ↦
            rw done (init_fat-Begins (read_capacity bus r.1) (read_capacity-type r.1 typed))
      ]

  release-Begins : (c : Card bus) → Begins c → Begins (release bus c)
  unfolding release
  release-Begins c b = record { typed = b.typed; asked = b.asked; attached = b.attached }

  release-keeps :
      (c : Card bus) → ((release bus c).type_ ≡ c.type_) × ((release bus c).sd_ok ≡ c.sd_ok)
  unfolding release
  release-keeps c = (refl, refl)

  -- Either the card answered to the first two commands, and its start ends with the type SD2 or SDHC,
  -- also where it was found to be of the older type, and with `sd_ok` as the FAT library answers; or it
  -- did not, and both stay as they were.
  pub media_init-Begins :
      (c : Card bus)
      → (Answered c × Begins (media_init bus attach c))
        ⊎ (¬ Answered c
            × ((media_init bus attach c).type_ ≡ c.type_)
            × ((media_init bus attach c).sd_ok ≡ c.sd_ok))
  unfolding media_init
  media_init-Begins c =
      let c1 = after_cmd0 c in
      let c2 = after_cmd8 c in
      let (typed1, ok1) = cmd0-keeps c in
      let (typed2, ok2) = cmd8-keeps c in
      let (typed3, ok3) = release-keeps c1 in
      let (typed4, ok4) = release-keeps c2 in
      elim (Bool-cases (get_or c1.response 0 0 == 1)) [
        | inr other ↦ inr (
          λ (a, b). absurd (ground (arith, a, other)),
          rw other (typed3 ∙ typed1),
          rw other (ok3 ∙ ok1),
        )
        | inl idle ↦ elim (Bool-cases (get_or c2.response 0 0 == 4)) [
          | inl old ↦ inl (
            (ground (arith, idle), inl (ground (arith, old))),
            rw (idle, old) (release-Begins _ (start_card-Begins _)),
          )
          | inr known ↦ elim (Bool-cases (get_or c2.response 4 0 == 0xAA)) [
            | inl echoed ↦ inl (
              (ground (arith, idle), inr (ground (arith, echoed))),
              rw (idle, known, echoed) (release-Begins _ (start_card-Begins _)),
            )
            | inr lost ↦ inr (
              λ (a, b). absurd (grind (arith, b, known, lost)),
              rw (idle, known, lost) (typed4 ∙ typed2),
              rw (idle, known, lost) (ok4 ∙ ok2),
            )
          ]
        ]
      ]
