-- ===== src/Web/Upload/Accept.antt =====
-- The first piece of a firmware: what `myCgiUpdate` refuses, and which sectors it erases.
use watermeter.Base.{
  ℕ, zero, suc, ◌+◌, ◌-◌, ◌*◌, ◌/◌, ◌%◌, ◌≤◌, ◌<◌, ◌≡◌, ◌↔◌, refl, ap, arith, Bool, true, false,
  ◌⊎◌, inl, inr, List, [], ◌∷◌, Option, none, some,
}
use watermeter.Base.{◌==◌, ltb, drop, Bool-cases}
use watermeter.Base.Text.{Text, codes}
use watermeter.Web.Access.{check_bin_header}
use watermeter.Web.Upload.{UploadDef, Post, UploadAction, respond, erase_sector}
use watermeter.Web.Upload.Handler.{
  Session, Cgi, find_image, upload_error, count_sector, erase_sectors, check_image, first_piece,
  receive_piece, my_cgi_update, reject,
}
use mathlib.Core.List.{Memᴰ}
use mathlib.Core.List.Memᴰ

-- Why a first piece is not taken for a firmware.
pub data IsRefused (def : UploadDef) (p : Post) : Option ℕ → Type 0 where
  no_content_type : IsRefused def p none
  bad_header : {at : ℕ} → check_bin_header (drop at p.buff) ≡ false → IsRefused def p (some at)
  too_large : {at : ℕ} → def.fw_size < p.len → IsRefused def p (some at)

refused_text :
    (def : UploadDef) (allocated : Bool) (userbin : ℕ) (p : Post) (s : Session) (at : Option ℕ)
    → IsRefused def p at
    → (text : Text) × (first_piece def allocated userbin p s at ≡ some (reject text s))
unfolding first_piece check_image upload_error
refused_text def allocated userbin p s none no_content_type = (_, refl)
refused_text def allocated userbin p s (some at) (bad_header bad) =
    elim (Bool-cases (ltb def.fw_size p.len)) [
      | inl large ↦ (codes "Firmware image too large\n", rw large refl)
      | inr fits ↦ (codes "Invalid flash image type!\n", rw (fits, bad) refl)
    ]
refused_text def allocated userbin p s (some at) (too_large large) =
    let test : ltb def.fw_size p.len ≡ true = ground (arith, large) in
    (codes "Firmware image too large\n", rw test refl)

-- A first piece without the content type of a firmware, with another header than that of a firmware, or
-- of a request that is longer than an image may be is answered 400 and ends the request: no sector is
-- erased, nothing is written, no state is kept and no reset is started.
pub my_cgi_update-refuses :
    (def : UploadDef) (allocated : Bool) (userbin : ℕ) (p : Post) (trace : List UploadAction)
    (at : Option ℕ)
    → find_image p ≡ some at
    → IsRefused def p at
    → (text : Text) × (my_cgi_update def true allocated userbin p
          (record { state = none; trace = trace })
        ≡ some (Cgi.done, record { state = none; trace = respond 400 text ∷ trace }))
unfolding my_cgi_update receive_piece reject
my_cgi_update-refuses def allocated userbin p trace at found refused =
    let (text, e) =
      refused_text def allocated userbin p (record { state = none; trace = trace }) at refused in
    (text, rw found e)

-- The calls that are there stay.
erase_sectors-keeps :
    (n first s : ℕ) (trace : List UploadAction)
    → Memᴰ (erase_sector s) trace
    → Memᴰ (erase_sector s) (erase_sectors n first trace)
unfolding erase_sectors
erase_sectors-keeps zero first s trace m = m
erase_sectors-keeps (suc n) first s trace m =
    erase_sectors-keeps n (suc first) s (erase_sector first ∷ trace) (Memᴰ.tail m)

erase_sectors-each :
    (n first s : ℕ) (trace : List UploadAction)
    → first ≤ s
    → s < first + n
    → Memᴰ (erase_sector s) (erase_sectors n first trace)
unfolding erase_sectors
erase_sectors-each zero first s trace low high = absurd (omega arith)
erase_sectors-each (suc n) first s trace low high = elim (Bool-cases (s == first)) [
  | inl same ↦
      let e : s ≡ first = ground arith in
      erase_sectors-keeps n (suc first) s (erase_sector first ∷ trace)
        (Memᴰ.head (ap erase_sector e))
  | inr other ↦
      erase_sectors-each n (suc first) s (erase_sector first ∷ trace) (ground arith) (omega arith)
]

erased_number : UploadAction → ℕ
erased_number (erase_sector s) = s
erased_number a = 0

erase_sectors-only :
    (n first s : ℕ) (trace : List UploadAction)
    → Memᴰ (erase_sector s) (erase_sectors n first trace)
    → ((first ≤ s) × (s < first + n)) ⊎ Memᴰ (erase_sector s) trace
unfolding erase_sectors erased_number
erase_sectors-only zero first s trace m = inr m
erase_sectors-only (suc n) first s trace m =
    elim (erase_sectors-only n (suc first) s (erase_sector first ∷ trace) m) [
      | inl (low, high) ↦ inl (omega arith, omega arith)
      | inr (Memᴰ.head e) ↦ (let same = ap erased_number e in inl (omega arith, omega arith))
      | inr (Memᴰ.tail later) ↦ inr later
    ]

count_sector-least :
    (len k : ℕ) → (k < count_sector len → 4096 * k < len) × (4096 * k < len → k < count_sector len)
unfolding count_sector
count_sector-least len k = (λ h. ground (arith, h), λ h. ground (arith, h))

-- When the image starts at a sector, the sectors that are erased for a request of `len` bytes are those
-- that hold one of the `len` bytes from there on, and no others.
pub erase_sectors-exact :
    (len at s : ℕ)
    → at % 4096 ≡ 0
    → Memᴰ (erase_sector s) (erase_sectors (count_sector len) (at / 4096) [])
      ↔ ((i : ℕ) × (i < len) × ((at + i) / 4096 ≡ s))
erase_sectors-exact len at s aligned = (
  λ m. elim (erase_sectors-only (count_sector len) (at / 4096) s [] m) [
    | inl (low, high) ↦
        let k = s - at / 4096 in
        let below : 4096 * k < len = (count_sector-least len k).0 (omega arith) in
        (4096 * k, below, omega arith)
    | inr m ↦ absurd (Memᴰ.not-nil m)
  ],
  λ (i, below, e). erase_sectors-each (count_sector len) (at / 4096) s [] (omega arith) (
      let k = s - at / 4096 in
      let counted = (count_sector-least len k).1 (omega arith) in omega (arith, counted)),
)
