-- ===== src/Web/Upload.antt =====
-- `myCgiUpdate` of user/wm_web.c: the handler that takes a new firmware in pieces and writes it to the
-- flash. The calls of the SDK and of the HTTP server are recorded in a trace, newest first; what they
-- answer is an argument. A `char *` is the memory from there on, and `none` is a read past the end of
-- that memory, a negative length, or a loop that does not end.
pub mod Handler
pub mod Pages
pub mod Stream
pub mod Short
pub mod Image
pub mod Accept
pub mod Life
pub mod Slot
use watermeter.Base.{
  ℕ, zero, suc, ◌+◌, ◌-◌, ◌*◌, ◌/◌, ◌%◌, Bool, true, false, not, List, [], ◌∷◌, ◌++◌, Option, none,
  some,
}
use watermeter.Base.{◌==◌, leb, ltb, if◌then◌else◌, length, take, drop, replicate}
use watermeter.Base.Text.{Text, codes}
use watermeter.Base.CString.{◌>>=◌, c_string, strstr, starts_with}
use watermeter.Web.Access.{check_bin_header}

-- `CgiUploadFlashDef`, as far as the handler reads it.
pub record UploadDef : Type 0 where
  pub fw1_pos : ℕ
  pub fw2_pos : ℕ
  pub fw_size : ℕ

-- The piece of the request that the server hands over: `connData->post`.
pub record Post : Type 0 where
  pub buff : List ℕ
  pub buff_len : ℕ
  pub len : ℕ
  pub received : ℕ
  pub boundary : Text

-- `file` is always null: the call that opens it is commented out.
pub record UploadState : Type 0 where
  pub page_data : List ℕ
  pub page_pos : ℕ
  pub address : ℕ
  pub len : ℕ

pub data UploadAction : Type 0 where
  erase_sector : ℕ → UploadAction
  flash_write : ℕ → List ℕ → UploadAction
  -- Status and text.
  respond : ℕ → Text → UploadAction
  -- `resetTimer`, after which `resetTimerCb` starts the new firmware.
  arm_reset : ℕ → UploadAction
  upgrade_finish : UploadAction
  upgrade_reboot : UploadAction

abbrev pub page_len : ℕ
page_len = 256

-- `memcpy` out of a memory.
unfoldable pub read_bytes : ℕ → List ℕ → Option (List ℕ)
read_bytes n memory = if leb n (length memory) then some (take n memory) else none

-- `memcpy` into the page.
unfoldable pub put_page : ℕ → List ℕ → List ℕ → List ℕ
put_page pos bytes page = take pos page ++ (bytes ++ drop (pos + length bytes) page)

-- What one round of the loop leaves, in front of `if (write)`.
pub record Round : Type 0 where
  pub write : Bool
  pub mem : List ℕ
  pub data_len : ℕ
  pub state : UploadState

-- A round that starts with an empty page.
unfoldable pub fill_empty : Bool → List ℕ → ℕ → UploadState → Option Round
fill_empty last mem n s =
    if leb page_len n
    then (read_bytes page_len mem >>= λ bytes. some (record {
      write = true;
      mem = drop page_len mem;
      data_len = n - page_len;
      state = record s { page_data = put_page 0 bytes s.page_data; len = page_len };
    }))
    else (read_bytes n mem >>= λ bytes. some (record {
      write = last;
      mem = mem;
      data_len = 0;
      state = record s {
        page_data = put_page 0 bytes s.page_data;
        page_pos = n;
        len = if last then n else s.len;
      };
    }))

-- A round that starts with a page of which `page_pos` bytes are there. When fewer bytes are at hand
-- than the page lacks, the code copies as many as the page lacks and moves on neither `data` (here `mem`) nor
-- `data_len`.
unfoldable pub fill_rest : Bool → List ℕ → ℕ → UploadState → Option Round
fill_rest last mem n s =
    let lacks = page_len - s.page_pos in
    if leb lacks n
    then (read_bytes lacks mem >>= λ bytes. some (record {
      write = true;
      mem = drop lacks mem;
      data_len = n - lacks;
      state = record s {
        page_data = put_page s.page_pos bytes s.page_data;
        page_pos = 0;
        len = page_len;
      };
    }))
    else (read_bytes lacks mem >>= λ bytes. some (record {
      write = last;
      mem = mem;
      data_len = n;
      state = record s {
        page_data = put_page s.page_pos bytes s.page_data;
        page_pos = s.page_pos + lacks;
        len = if last then lacks else s.len;
      };
    }))

unfoldable pub page_round : Bool → List ℕ → ℕ → UploadState → Option Round
page_round last mem n s =
    if s.page_pos == 0 then fill_empty last mem n s else fill_rest last mem n s

pub record Upload : Type 0 where
  pub state : UploadState
  pub trace : List UploadAction

-- `if (write)`.
unfoldable pub write_round : Round → List UploadAction → Upload
write_round r trace =
    if r.write
    then record {
      state = record r.state { address = r.state.address + r.state.len };
      trace = flash_write r.state.address (take r.state.len r.state.page_data) ∷ trace;
    }
    else record { state = r.state; trace = trace }

-- `while (dataLen != 0)`.
unfoldable pub upload_loop : ℕ → Bool → List ℕ → ℕ → Upload → Option Upload
upload_loop fuel last mem zero u = some u
upload_loop zero last mem (suc n) u = none
upload_loop (suc fuel) last mem (suc n) u = page_round last mem (suc n) u.state >>= λ r.
    upload_loop fuel last r.mem r.data_len (write_round r u.trace)

-- Three rounds for each byte of the request are enough fuel: a round that takes none is followed by
-- one that empties the page.
unfoldable pub upload_pages : Bool → List ℕ → ℕ → Upload → Option Upload
upload_pages last mem n u = upload_loop (suc (3 * n + 2)) last mem n u
