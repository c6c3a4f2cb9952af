-- ===== src/Web/Upload/Handler.antt =====
-- `myCgiUpdate` of user/wm_web.c around its loop: the first piece, the later ones, and the end.
use watermeter.Base.{
  ℕ, zero, suc, ◌+◌, ◌-◌, ◌/◌, ◌%◌, Bool, true, false, not, List, [], ◌∷◌, Option, none, some,
}
use watermeter.Base.{◌==◌, leb, ltb, if◌then◌else◌, length, take, drop, replicate}
use watermeter.Base.Text.{Text, codes}
use watermeter.Base.CString.{◌>>=◌, c_string, strstr, starts_with}
use watermeter.Web.Access.{check_bin_header}
use watermeter.Web.Upload.{
  UploadDef, Post, UploadState, UploadAction, erase_sector, respond, arm_reset, upgrade_finish,
  upgrade_reboot, page_len, Upload, upload_pages,
}

-- `memmem`: where the first occurrence starts.
unfoldable pub memmem : List ℕ → List ℕ → Option ℕ
memmem [] pat = if starts_with pat [] then some 0 else none
memmem (c ∷ s) pat =
    let rest = memmem s pat in
    if starts_with pat (c ∷ s) then some 0 else (rest >>= λ i. some (suc i))

abbrev pub content_type : Text
content_type = codes "Content-Type: application/octet-stream\r\n\r\n"

-- Where the firmware starts in the first piece: behind the content type.
unfoldable pub find_image : Post → Option (Option ℕ)
find_image p = c_string p.buff >>= λ text.
    some
      (strstr text content_type >>= λ tail. some (length text - length tail + length content_type))

-- The check of the first piece: the text of the error, if there is one. The last that applies counts.
unfoldable pub upload_error : UploadDef → Post → ℕ → Option Text
upload_error def p at =
    if ltb def.fw_size p.len
    then some (codes "Firmware image too large\n")
    else if check_bin_header (drop at p.buff)
    then none
    else some (codes "Invalid flash image type!\n")

-- `countSector`.
unfoldable pub count_sector : ℕ → ℕ
count_sector len = len / 4096 + (if len % 4096 == 0 then 0 else 1)

unfoldable pub erase_sectors : ℕ → ℕ → List UploadAction → List UploadAction
erase_sectors zero sector trace = trace
erase_sectors (suc n) sector trace = erase_sectors n (suc sector) (erase_sector sector ∷ trace)

-- What the handler keeps from one piece to the next, and the calls so far.
pub record Session : Type 0 where
  pub state : Option UploadState
  pub trace : List UploadAction

pub data Cgi : Type 0 where
  done more : Cgi

abbrev pub upload_done : Text
upload_done = codes "Upload done! Rebooting ...\n"

-- The end of the handler: the last piece frees the state and starts the timer of the reset.
unfoldable pub finish_piece : Post → Upload → Cgi × Session
finish_piece p u =
    if p.len == p.received
    then (
      done,
      record { state = none; trace = arm_reset 1000 ∷ (respond 200 upload_done ∷ u.trace) },
    )
    else (more, record { state = some u.state; trace = u.trace })

unfoldable pub take_pages : Bool → Post → List ℕ → ℕ → Upload → Option (Cgi × Session)
take_pages last p mem n u = upload_pages last mem n u >>= λ after. some (finish_piece p after)

-- `resetTimerCb`: the new firmware is marked as complete, and started.
unfoldable pub reset_timer_cb : List UploadAction → List UploadAction
reset_timer_cb trace = upgrade_reboot ∷ (upgrade_finish ∷ trace)

-- `system_upgrade_userbin_check() == 1` is whether the second of the two images runs.
unfoldable pub start_state : UploadDef → ℕ → UploadState
start_state def userbin = record {
  page_data = replicate page_len 0;
  page_pos = 0;
  address = if userbin == 1 then def.fw1_pos else def.fw2_pos;
  len = 0;
}

unfoldable pub reject : Text → Session → Cgi × Session
reject text s = (done, record s { trace = respond 400 text ∷ s.trace })

-- The first piece, once its image was found at `at`.
unfoldable pub accept : UploadDef → Bool → ℕ → Post → ℕ → Session → Option (Cgi × Session)
accept def allocated userbin p at s =
    if not allocated
    then some (done, s)
    else (let state = start_state def userbin in
        let trace = erase_sectors (count_sector p.len) (state.address / 4096) s.trace in
        if leb at p.buff_len
        then take_pages false p (drop at p.buff) (p.buff_len - at)
            (record { state = state; trace = trace })
        else none)

unfoldable pub check_image :
    UploadDef → Bool → ℕ → Post → ℕ → Session → Option Text → Option (Cgi × Session)
check_image def allocated userbin p at s none = accept def allocated userbin p at s
check_image def allocated userbin p at s (some text) = some (reject text s)

unfoldable pub first_piece :
    UploadDef → Bool → ℕ → Post → Session → Option ℕ → Option (Cgi × Session)
first_piece def allocated userbin p s none = some (reject (codes "Invalid content type\n") s)
first_piece def allocated userbin p s (some at) =
    check_image def allocated userbin p at s (upload_error def p at)

-- A later piece: the image ends two bytes, a line break, in front of the boundary.
unfoldable pub next_piece :
    Post → UploadState → List UploadAction → Option ℕ → Option (Cgi × Session)
next_piece p state trace none =
    take_pages false p p.buff p.buff_len (record { state = state; trace = trace })
next_piece p state trace (some i) =
    if leb 2 i
    then take_pages true p p.buff (i - 2) (record { state = state; trace = trace })
    else none

unfoldable pub receive_piece :
    UploadDef → Bool → ℕ → Post → List UploadAction → Option UploadState → Option (Cgi × Session)
receive_piece def allocated userbin p trace none = find_image p >>= λ at.
    first_piece def allocated userbin p (record { state = none; trace = trace }) at
receive_piece def allocated userbin p trace (some state) =
    next_piece p state trace (memmem (take p.buff_len p.buff) p.boundary)

-- `myCgiUpdate`: whether the connection stands, whether `malloc` succeeds, and the running image.
unfoldable pub my_cgi_update : UploadDef → Bool → Bool → ℕ → Post → Session → Option (Cgi × Session)
my_cgi_update def connected allocated userbin p s =
    if connected
    then receive_piece def allocated userbin p s.trace s.state
    else some (done, record s { state = none })
