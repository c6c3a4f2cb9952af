-- ===== src/Examples/SdCard.antt =====
-- A card of standard capacity on the bus, which counts bytes, to run user/sdcard.c on.
use watermeter.Base.{
  ℕ, ◌*◌, ◌/◌, ◌^◌, ◌<◌, ◌≡◌, refl, sym, ap, ◌∙◌, subst, arith, Bool, true, false, List, [], ◌∷◌,
  ◌++◌, some,
}
use watermeter.Base.{◌==◌, if◌then◌else◌, length, take, drop, replicate, take-chunk}
use watermeter.Base.Bits.{bit}
use watermeter.SdCard.{SpiBus, sd2, no_error, frame, send_all}
use watermeter.SdCard.Media.{Card, media_read, media_write}
use watermeter.SdCard.Frame.{argument, argument-frame}
use watermeter.SdCard.Read.{Answers, Serves, ReadsBlocks, after_command, released}
use watermeter.SdCard.Write.{update, write_all, Takes, WritesBlocks}
use watermeter.SdCard.RoundTrip.{media_read-media_write}
use mathlib.Core.List.{append_assoc, append-nil}

data Phase : Type 0 where
  -- The bytes of a command, newest first.
  listening : List ℕ → Phase
  answering : List ℕ → Phase
  starting : ℕ → Phase
  taking : ℕ → List ℕ → Phase
  programming : ℕ → List ℕ → Phase

record Sample : Type 0 where
  content : ℕ → List ℕ
  phase : Phase

abbrev obey : (ℕ → List ℕ) → List ℕ → Phase
obey m (crc ∷ a0 ∷ a1 ∷ a2 ∷ a3 ∷ cmd ∷ []) =
    let sector = argument (cmd ∷ a3 ∷ a2 ∷ a1 ∷ a0 ∷ []) / 512 in
    if cmd == 0x51 then answering (0 ∷ 0xFE ∷ (m sector ++ (0 ∷ 0 ∷ []))) else starting sector
obey m sent = listening sent

abbrev hear : ℕ → (ℕ → List ℕ) → Phase → Phase
hear b m (listening sent) = obey m (b ∷ sent)
hear b m (taking address bytes) = taking address (bytes ++ (b ∷ []))
hear b m p = p

abbrev say : Phase → ℕ × Phase
say (answering (b ∷ out)) = (b, answering out)
say (starting address) = (0, taking address [])
say (taking address bytes) = (5, programming address bytes)
say p = (0xFF, p)

abbrev put_down : (ℕ → List ℕ) → Phase → ℕ → List ℕ
put_down m (programming address bytes) = update m address (take 512 (drop 1 bytes))
put_down m p = m

abbrev chip_select : Bool → Sample → Sample
chip_select true s = record s { phase = listening [] }
chip_select false s = record { content = put_down s.content s.phase; phase = listening [] }

abbrev sample_bus : SpiBus
sample_bus = record {
  State = Sample;
  send = λ b s. record s { phase = hear b s.content s.phase };
  receive = λ s. let (b, p) = say s.phase in (b, record s { phase = p });
  select = chip_select;
  system_get_time = λ s. 0;
}

abbrev Keeps : (ℕ → List ℕ) → Sample → Type 0
Keeps m s = (s.content ≡ m) × ((a : ℕ) → length (m a) ≡ 512)

answers_all :
    (m : ℕ → List ℕ) (out : List ℕ)
    → Answers sample_bus out
        (record { content = m; phase = answering out })
        (record { content = m; phase = answering [] })
answers_all m [] = refl
answers_all m (b ∷ out) = (_, refl, answers_all m out)

-- A card of 512 MB.
abbrev card_sectors : ℕ
card_sectors = 2 ^ 20

sector_of :
    (cmd sector : ℕ)
    → sector < card_sectors
    → argument (frame cmd (sector * 512) 0xFF) / 512 ≡ sector
sector_of cmd sector h =
    ap (λ a. a / 512) (argument-frame cmd (sector * 512) 0xFF (omega (arith, h))) ∙ omega arith

hears_command :
    (m : ℕ → List ℕ) (p : Phase) (sector : ℕ)
    → sector < card_sectors
    → after_command sample_bus 0x51 (sector * 512) (record { content = m; phase = p })
      ≡ record { content = m; phase = answering (0 ∷ 0xFE ∷ (m sector ++ (0 ∷ 0 ∷ []))) }
unfolding send_all frame
hears_command m p sector h =
    ap (λ a. record { content = m; phase = answering (0 ∷ 0xFE ∷ (m a ++ (0 ∷ 0 ∷ []))) })
      (sector_of 0x51 sector h)

one_low : bit 7 0 ≡ 0
unfolding bit
one_low = refl

content-Serves :
    (m : ℕ → List ℕ) (block : List ℕ)
    → Serves sample_bus
        (record { content = m; phase = answering (0 ∷ 0xFE ∷ (block ++ (0 ∷ 0 ∷ []))) })
        block
        (record { content = m; phase = answering [] })
content-Serves m block = record {
  busy = [];
  accepted = 0;
  idle = [];
  crc0 = 0;
  crc1 = 0;
  is_busy = tt;
  is_accepted = one_low;
  is_idle = tt;
  busy_ends = omega arith;
  idle_ends = omega arith;
  answers = answers_all m (0 ∷ 0xFE ∷ (block ++ (0 ∷ 0 ∷ [])));
}

sample-Serves :
    (m : ℕ → List ℕ) (s : Sample) (sector : ℕ)
    → sector < card_sectors
    → Keeps m s
    → (s2 : Sample) × Serves sample_bus
        (after_command sample_bus 0x51 (sector * 512) s)
        (m sector)
        s2
      × Keeps m (released sample_bus s2)
unfolding send_all
sample-Serves m s sector fits (same, sized) =
    subst
      (λ m.
        ((a : ℕ) → length (m a) ≡ 512)
        → (s2 : Sample) × Serves sample_bus (after_command sample_bus 0x51 (sector * 512) s)
            (m sector) s2
          × Keeps m (released sample_bus s2))
      same
      (λ sized. (
        record { content = s.content; phase = answering [] },
        rw (hears_command s.content s.phase sector fits)
            (content-Serves s.content (s.content sector)),
        (refl, sized),
      ))
      sized

sample_reads : ReadsBlocks sample_bus true card_sectors Keeps
sample_reads = record {
  sized = λ m s sector fits (same, sized). sized sector;
  serves = sample-Serves;
}

hears_bytes :
    (m : ℕ → List ℕ) (address : ℕ) (bytes sent : List ℕ)
    → send_all sample_bus bytes (record { content = m; phase = taking address sent })
      ≡ record { content = m; phase = taking address (sent ++ bytes) }
unfolding send_all
hears_bytes m address [] sent =
    ap (λ t. record { content = m; phase = taking address t }) (sym (append-nil sent))
hears_bytes m address (b ∷ bytes) sent =
    hears_bytes m address bytes (sent ++ (b ∷ []))
    ∙ ap (λ t. record { content = m; phase = taking address t }) (append_assoc sent (b ∷ []) bytes)

hears_write :
    (m : ℕ → List ℕ) (p : Phase) (sector : ℕ)
    → sector < card_sectors
    → after_command sample_bus 0x58 (sector * 512) (record { content = m; phase = p })
      ≡ record { content = m; phase = starting sector }
unfolding send_all frame
hears_write m p sector h =
    ap (λ a. record { content = m; phase = starting a }) (sector_of 0x58 sector h)

abbrev sent_block : List ℕ → List ℕ
sent_block block = 0xFE ∷ (block ++ (0xFF ∷ 0xFF ∷ []))

content-Takes :
    (m : ℕ → List ℕ) (address : ℕ) (block : List ℕ)
    → Takes sample_bus 1
        (record { content = m; phase = starting address })
        block
        (record { content = m; phase = programming address (sent_block block) })
content-Takes m address block = record {
  busy = [];
  accepted = 0;
  is_busy = tt;
  is_accepted = one_low;
  busy_ends = omega arith;
  answering = record { content = m; phase = starting address };
  ready = record { content = m; phase = taking address [] };
  answers = refl;
  accepts = refl;
  status = 5;
  is_taken = refl;
  taken = record { content = m; phase = programming address (sent_block block) };
  takes = rw (hears_bytes m address (sent_block block) []) refl;
  programming = [];
  programming_ends = omega arith;
  programs = refl;
}

update-sized :
    (m : ℕ → List ℕ) (address : ℕ) (block : List ℕ)
    → ((a : ℕ) → length (m a) ≡ 512)
    → length block ≡ 512
    → (a : ℕ) → length (update m address block a) ≡ 512
unfolding update
update-sized m address block sized size a = ground (arith, sized a, size)

sample-Takes :
    (m : ℕ → List ℕ) (s : Sample) (sector : ℕ) (block : List ℕ)
    → sector < card_sectors
    → Keeps m s
    → length block ≡ 512
    → (s2 : Sample) × Takes sample_bus 1 (after_command sample_bus 0x58 (sector * 512) s) block s2
      × Keeps (update m sector block) (chip_select false (released sample_bus s2))
unfolding send_all
sample-Takes m s sector block fits (same, sized) size = (
  record { content = s.content; phase = programming sector (sent_block block) },
  rw (hears_write s.content s.phase sector fits) (content-Takes s.content sector block),
  (
    ap (λ b. update s.content sector b) (take-chunk block size (0xFF ∷ 0xFF ∷ []))
        ∙ ap (λ n. update n sector block) same,
    update-sized m sector block sized size,
  ),
)

sample_writes : WritesBlocks sample_bus true card_sectors 1 Keeps
sample_writes = record { takes = sample-Takes }

abbrev zeros : ℕ → List ℕ
zeros a = replicate 512 0

abbrev sample_card : Card sample_bus
sample_card = record {
  spi = record { content = zeros; phase = listening [] };
  response = replicate 580 0;
  type_ = sd2;
  status_ = 0;
  error_code = no_error;
  sd_ok = true;
}

media_read-media_write_example :
    (c1 : Card sample_bus) × (media_write sample_bus 1 100
        (replicate 512 7 ∷ replicate 512 8 ∷ [])
        sample_card
      ≡ some c1)
    × Keeps (write_all zeros 100 (replicate 512 7 ∷ replicate 512 8 ∷ [])) c1.spi
    × ((media_read sample_bus 100 (replicate 512 0 ∷ replicate 512 0 ∷ []) c1).0
        ≡ replicate 512 7 ∷ replicate 512 8 ∷ [])
media_read-media_write_example =
    media_read-media_write sample_bus true card_sectors 1 Keeps sample_reads sample_writes
      (λ sector h. omega (arith, h)) zeros 100 (replicate 512 7 ∷ replicate 512 8 ∷ [])
      (replicate 512 0 ∷ replicate 512 0 ∷ []) sample_card refl (refl, λ a. refl) (refl, (refl, tt))
      (refl, (refl, tt)) refl (omega arith) (omega arith)
