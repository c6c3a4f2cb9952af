-- ===== src/Examples/Upload.antt =====
-- A firmware of three pieces.
use watermeter.Base.{
  ℕ, ◌+◌, ◌<◌, ◌≤◌, ◌≡◌, ◌↔◌, refl, true, false, inr, ◌/◌, [], ◌∷◌, ◌++◌, List, some, none, arith,
}
use watermeter.Base.{replicate, take}
use watermeter.Base.Bytes.{u16_at, u32_at}
use watermeter.Base.Text.{Text, codes}
use watermeter.Base.CString.{c_string, strstr, starts_with}
use watermeter.Web.Access.{check_bin_header}
use watermeter.Web.Upload.{
  UploadDef, UploadAction, Upload, Post, respond, arm_reset, erase_sector, flash_write,
  upload_pages, upload_loop, page_round, fill_empty, fill_rest, read_bytes, put_page, write_round,
}
use watermeter.Web.Upload.Handler.{
  Session, Cgi, done, content_type, find_image, upload_error, memmem, start_state, my_cgi_update,
  receive_piece, first_piece, next_piece, check_image, accept, take_pages, finish_piece, reject,
  count_sector, erase_sectors, upload_done,
}
use watermeter.Web.Upload.Life.{my_cgi_update-done}
use watermeter.Web.Upload.Slot.{receive_all-erased}
use watermeter.Web.Upload.Pages.{IsSound, Stores}
use watermeter.Web.Upload.Stream.{Streamed, upload_pages-Streamed}
use watermeter.Web.Upload.Short.{upload_pages-total, upload_pages-repeats}
use watermeter.Web.Upload.Image.{
  receive_all, IsFirst, IsMiddle, IsLast, image, nothing_yet, erased, receive_all-Stores,
}
use watermeter.Web.Upload.Accept.{my_cgi_update-refuses, IsRefused}
use mathlib.Core.List.{Memᴰ}

abbrev flash_map : UploadDef
flash_map = record { fw1_pos = 0x1000; fw2_pos = 0x101000; fw_size = 0xfb000 }

-- A header of a firmware.
abbrev header : List ℕ
header = 0xEA ∷ 4 ∷ 0 ∷ 0x40 ∷ 0 ∷ 0 ∷ 0x10 ∷ 0x40 ∷ 0 ∷ 0 ∷ 0 ∷ 0 ∷ []

abbrev first_buff : List ℕ
first_buff = content_type ++ (header ++ (0 ∷ []))

abbrev first_post : Post
first_post = record {
  buff = first_buff;
  buff_len = 54;
  len = 800;
  received = 54;
  boundary = codes "--b";
}

abbrev middle_post : Post
middle_post = record {
  buff = replicate 300 7;
  buff_len = 300;
  len = 800;
  received = 354;
  boundary = codes "--b";
}

abbrev last_post : Post
last_post = record {
  buff = replicate 256 9 ++ codes "\r\n--b";
  buff_len = 261;
  len = 800;
  received = 800;
  boundary = codes "--b";
}

first_found : find_image first_post ≡ some (some 42)
unfolding find_image c_string strstr starts_with
first_found = refl

first_accepted : upload_error flash_map first_post 42 ≡ none
unfolding upload_error check_bin_header u16_at u32_at
first_accepted = refl

first_post-IsFirst : IsFirst flash_map first_post 42
first_post-IsFirst = record {
  found = first_found;
  accepted = first_accepted;
  inside = omega arith;
  within = omega arith;
  unfinished = omega arith;
}

middle_clean : memmem (take 300 (replicate 300 7)) (codes "--b") ≡ none
unfolding memmem starts_with
middle_clean = refl

middle_post-IsMiddle : IsMiddle middle_post
middle_post-IsMiddle = record {
  no_boundary = middle_clean;
  a_page = omega arith;
  within = omega arith;
  unfinished = omega arith;
}

last_cut : memmem (take 261 (replicate 256 9 ++ codes "\r\n--b")) (codes "--b") ≡ some 258
unfolding memmem starts_with
last_cut = refl

last_post-IsLast : IsLast last_post 256
last_post-IsLast = record {
  boundary_at = last_cut;
  a_page = omega arith;
  within = omega arith;
  finished = refl;
}

receive_all-Stores_example :
    (calls : List UploadAction) × (receive_all flash_map 1
        (first_post ∷ (middle_post ∷ (last_post ∷ [])))
        nothing_yet
      ≡ some (record { state = none; trace = arm_reset 1000 ∷ (respond 200 upload_done ∷ calls) }))
    × Stores
        (erased flash_map 1 first_post).trace
        (start_state flash_map 1).address
        (image first_post 42 (middle_post ∷ []) last_post 256)
        calls
receive_all-Stores_example =
    receive_all-Stores flash_map 1 first_post 42 (middle_post ∷ []) last_post 256 first_post-IsFirst
      (middle_post-IsMiddle, tt) last_post-IsLast

-- A page with ten bytes in it.
abbrev ten_waiting : Upload
ten_waiting = record {
  state = record {
    page_data = replicate 10 1 ++ replicate 246 0;
    page_pos = 10;
    address = 0x1000;
    len = 0;
  };
  trace = [];
}

ten_waiting-IsSound : IsSound ten_waiting.state
ten_waiting-IsSound = record { sized = refl; position = omega arith }

upload_pages-Streamed_example :
    Streamed true ten_waiting
      (take 250 (replicate 300 5))
      (upload_pages true (replicate 300 5) 250 ten_waiting)
upload_pages-Streamed_example =
    upload_pages-Streamed true (replicate 300 5) 250 ten_waiting ten_waiting-IsSound
      (inr (omega arith)) (omega arith)

upload_pages-total_example :
    (after : Upload) × (upload_pages true (replicate 300 5) 20 ten_waiting ≡ some after)
    × IsSound after.state
upload_pages-total_example =
    upload_pages-total true (replicate 300 5) 20 ten_waiting ten_waiting-IsSound (omega arith)

upload_pages-repeats_example :
    Streamed false ten_waiting
      (take 246 (replicate 300 5) ++ take 20 (replicate 300 5))
      (upload_pages false (replicate 300 5) 20 ten_waiting)
upload_pages-repeats_example =
    upload_pages-repeats (replicate 300 5) 20 ten_waiting ten_waiting-IsSound (omega arith)
      (omega arith) (omega arith) (omega arith)

my_cgi_update-refuses_example :
    (text : Text) × (my_cgi_update
        (record flash_map { fw_size = 700 })
        true
        true
        1
        first_post
        nothing_yet
      ≡ some (Cgi.done, record { state = none; trace = respond 400 text ∷ [] }))
my_cgi_update-refuses_example =
    my_cgi_update-refuses (record flash_map { fw_size = 700 }) true 1 first_post [] (some 42)
      first_found (IsRefused.too_large (omega arith))

abbrev sample_session : Session
sample_session = record {
  state = none;
  trace =
      arm_reset 1000
      ∷ (respond 200 upload_done
          ∷ (flash_write 0x1200 (replicate 56 9)
              ∷ (flash_write 0x1100 (replicate 56 7 ++ replicate 200 9)
                  ∷ (flash_write 0x1000 (header ++ replicate 244 7) ∷ (erase_sector 1 ∷ [])))));
}

sample_run :
    receive_all flash_map 1 (first_post ∷ (middle_post ∷ (last_post ∷ []))) nothing_yet
    ≡ some sample_session
unfolding receive_all my_cgi_update receive_piece first_piece next_piece check_image accept
    take_pages finish_piece start_state upload_pages upload_loop page_round fill_empty fill_rest
    read_bytes put_page write_round find_image c_string strstr starts_with upload_error
    check_bin_header u16_at u32_at memmem count_sector erase_sectors
sample_run = refl

receive_all-erased_example :
    Memᴰ (erase_sector ((0x1200 + 55) / 4096)) sample_session.trace
    × ((start_state flash_map 1).address ≤ 0x1200 + 55)
    × (0x1200 + 55 < (start_state flash_map 1).address + 0xfb000)
unfolding start_state
receive_all-erased_example =
    receive_all-erased flash_map 1 first_post 42 (middle_post ∷ []) last_post 256 sample_session
      0x1200 (replicate 56 9) 55 first_post-IsFirst (middle_post-IsMiddle, tt) last_post-IsLast
      (omega arith) refl sample_run (Memᴰ.tail (Memᴰ.tail (Memᴰ.head refl))) (omega arith)

abbrev refused_session : Session
refused_session = record {
  state = none;
  trace = respond 400 (codes "Firmware image too large\n") ∷ [];
}

too_large_run :
    my_cgi_update (record flash_map { fw_size = 700 }) true true 1 first_post nothing_yet
    ≡ some (done, refused_session)
unfolding my_cgi_update receive_piece first_piece check_image find_image c_string strstr starts_with
    upload_error reject
too_large_run = refl

my_cgi_update-done_example : (done ≡ done) ↔ (refused_session.state ≡ none)
my_cgi_update-done_example =
    my_cgi_update-done (record flash_map { fw_size = 700 }) true true 1 first_post nothing_yet
      refused_session done too_large_run
