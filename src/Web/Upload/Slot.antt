-- ===== src/Web/Upload/Slot.antt =====
-- Where in the flash a firmware is written.
use watermeter.Base.{
  ℕ, zero, suc, ◌+◌, ◌-◌, ◌/◌, ◌%◌, ◌≤◌, ◌<◌, ◌≡◌, refl, sym, ap, ◌∙◌, subst, arith, Bool, true,
  false, ◌⊎◌, inl, inr, List, [], ◌∷◌, ◌++◌, some, none,
}
use watermeter.Base.{ltb, length, length-append, All, Bool-cases}
use watermeter.Web.Upload.{
  UploadDef, Post, UploadAction, erase_sector, flash_write, respond, arm_reset,
}
use watermeter.Web.Upload.Handler.{
  Session, upload_error, count_sector, erase_sectors, start_state, upload_done,
}
use watermeter.Web.Upload.Pages.{Stores, nothing, next}
use watermeter.Web.Upload.Image.{
  receive_all, IsFirst, IsMiddle, IsLast, image, nothing_yet, receive_all-Stores,
}
use watermeter.Web.Upload.Accept.{erase_sectors-exact}
use mathlib.Core.List.{Memᴰ}
use mathlib.Core.List.Memᴰ
use mathlib.Core.Option.{some-injective}

Stores-keeps :
    {before : List UploadAction} {at : ℕ} {all : List ℕ} {after : List UploadAction}
    (a : UploadAction)
    → Stores before at all after
    → Memᴰ a before
    → Memᴰ a after
Stores-keeps a nothing m = m
Stores-keeps a (next s placed split) m = Memᴰ.tail (Stores-keeps a s m)

abbrev place_of : UploadAction → ℕ
place_of (flash_write place bytes) = place
place_of a = 0

abbrev bytes_of : UploadAction → List ℕ
bytes_of (flash_write place bytes) = bytes
bytes_of a = []

-- A write is one of those that were there, or lies in the range that is stored.
Stores-within :
    {before : List UploadAction} {at : ℕ} {all : List ℕ} {after : List UploadAction} (place : ℕ)
    (bytes : List ℕ)
    → Stores before at all after
    → Memᴰ (flash_write place bytes) after
    → Memᴰ (flash_write place bytes) before
      ⊎ ((at ≤ place) × (place + length bytes ≤ at + length all))
Stores-within place bytes nothing m = inl m
Stores-within place bytes (next {front = front} {bytes = written} s placed split) (Memᴰ.head e) =
    let here = ap place_of e in
    let size = ap (λ a. length (bytes_of a)) e in
    let total = ap (λ t. length t) split in
    inr (
      omega (arith, here, placed),
      omega (arith, here, size, placed, total, length-append front written),
    )
Stores-within place bytes (next {front = front} {bytes = written} s placed split) (Memᴰ.tail m) =
    let total = ap (λ t. length t) split in
    elim (Stores-within place bytes s m) [
      | inl there ↦ inl there
      | inr (low, high) ↦ inr (low, omega (arith, high, total, length-append front written))
    ]

-- Erasing writes nothing.
abbrev is_write : UploadAction → Bool
is_write (flash_write place bytes) = true
is_write a = false

erase_sectors-quiet :
    (n first : ℕ) (a : UploadAction) (trace : List UploadAction)
    → is_write a ≡ true
    → Memᴰ a (erase_sectors n first trace)
    → Memᴰ a trace
unfolding erase_sectors
erase_sectors-quiet zero first a trace w m = m
erase_sectors-quiet (suc n) first a trace w m =
    elim (erase_sectors-quiet n (suc first) a (erase_sector first ∷ trace) w m) [
      | Memᴰ.head e ↦ absurd (cc (sym w ∙ ap is_write e))
      | Memᴰ.tail later ↦ later
    ]

ended :
    (a : UploadAction) (calls : List UploadAction)
    → is_write a ≡ true
    → Memᴰ a (arm_reset 1000 ∷ (respond 200 upload_done ∷ calls))
    → Memᴰ a calls
ended a calls w (Memᴰ.head e) = absurd (cc (sym w ∙ ap is_write e))
ended a calls w (Memᴰ.tail (Memᴰ.head e)) = absurd (cc (sym w ∙ ap is_write e))
ended a calls w (Memᴰ.tail (Memᴰ.tail m)) = m

accepted-fits :
    (def : UploadDef) (p : Post) (at : ℕ) → upload_error def p at ≡ none → p.len ≤ def.fw_size
unfolding upload_error
accepted-fits def p at e = elim (Bool-cases (ltb def.fw_size p.len)) [
  | inl large ↦ absurd (cc (rw large at e))
  | inr fits ↦ ground (arith, fits)
]

-- A byte of the range that is stored, when the range starts at a sector, is erased before.
erased_byte :
    (len at place : ℕ)
    → at % 4096 ≡ 0
    → at ≤ place
    → place < at + len
    → Memᴰ (erase_sector (place / 4096)) (erase_sectors (count_sector len) (at / 4096) [])
erased_byte len at place aligned low high =
    let i = place - at in
    let e : at + i ≡ place = omega arith in
    (erase_sectors-exact len at (place / 4096) aligned).1 (i, omega arith, ap (λ b. b / 4096) e)

-- When a firmware as above was taken, of an image that is no longer than the request says and whose
-- place starts at a sector, every byte that was written lies in the `fw_size` bytes from the address
-- that was chosen for the image, and in a sector that was erased.
pub receive_all-erased :
    (def : UploadDef) (userbin : ℕ) (first : Post) (at : ℕ) (middles : List Post) (last : Post)
    (image_len : ℕ) (s : Session) (place : ℕ) (bytes : List ℕ) (k : ℕ)
    → IsFirst def first at
    → All IsMiddle middles
    → IsLast last image_len
    → length (image first at middles last image_len) ≤ first.len
    → (start_state def userbin).address % 4096 ≡ 0
    → receive_all def userbin (first ∷ (middles ++ (last ∷ []))) nothing_yet ≡ some s
    → Memᴰ (flash_write place bytes) s.trace
    → k < length bytes
    → Memᴰ (erase_sector ((place + k) / 4096)) s.trace
      × ((start_state def userbin).address ≤ place + k)
      × (place + k < (start_state def userbin).address + def.fw_size)
receive_all-erased def userbin first at middles last image_len s place bytes k f all l fits aligned
      e written inside =
    let (calls, returns, stores) =
      receive_all-Stores def userbin first at middles last image_len f all l in
    let same = ap (λ t. t.trace) (some-injective _ _ (sym returns ∙ e)) in
    let a = flash_write place bytes in
    let write = ended a calls refl (subst (λ t. Memᴰ a t) (sym same) written) in
    let start = (start_state def userbin).address in
    let small = accepted-fits def first at f.accepted in
    elim (Stores-within place bytes stores write) [
      | inl old ↦
          absurd (
            Memᴰ.not-nil
              (erase_sectors-quiet (count_sector first.len) (start / 4096) a [] refl old))
      | inr (low, high) ↦
          let gone =
            erased_byte first.len start (place + k) aligned (omega (arith, low))
              (omega (arith, high, inside)) in
          (
            subst (λ t. Memᴰ (erase_sector ((place + k) / 4096)) t) same
                (Memᴰ.tail (Memᴰ.tail (Stores-keeps _ stores gone))),
            omega (arith, low),
            omega (arith, high, inside, small),
          )
    ]
