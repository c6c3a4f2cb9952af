-- ===== src/Web/Upload/Pages.antt =====
-- The rounds of the loop of `myCgiUpdate`: what each leaves of the bytes that wait in the page.
use watermeter.Base.{
  ℕ, ◌+◌, ◌-◌, ◌≤◌, ◌<◌, ◌≡◌, refl, sym, ap, ◌∙◌, arith, Bool, true, false, List, [], ◌∷◌, ◌++◌,
  some,
}
use watermeter.Base.{
  leb, if◌then◌else◌, length, take, drop, length-append, length-take, length-drop, take-chunk,
}
use watermeter.Web.Upload.{
  UploadState, UploadAction, Round, flash_write, page_len, read_bytes, put_page, fill_empty,
  fill_rest,
}
use mathlib.Core.List.{append_assoc, append-nil}

-- The bytes that wait in the page.
unfoldable pub waiting : UploadState → List ℕ
waiting s = take s.page_pos s.page_data

-- The page is a page, and not full.
pub record IsSound (s : UploadState) : Type 0 where
  pub sized : length s.page_data ≡ page_len
  pub position : s.page_pos < page_len

-- The calls from trace `before` to trace `after` write `bytes` to the flash, one piece behind the other
-- from address `at` on, and nothing else.
pub data Stores (before : List UploadAction) (at : ℕ) : List ℕ → List UploadAction → Type 0 where
  nothing : Stores before at [] before
  next :
      {front bytes all : List ℕ} {place : ℕ} {after : List UploadAction}
      → Stores before at front after
      → place ≡ at + length front
      → all ≡ front ++ bytes
      → Stores before at all (flash_write place bytes ∷ after)

pub Stores-trans :
    {before middle : List UploadAction} {at from : ℕ} {xs ys : List ℕ} {after : List UploadAction}
    {all : List ℕ}
    → Stores before at xs middle
    → Stores middle from ys after
    → from ≡ at + length xs
    → all ≡ xs ++ ys
    → Stores before at all after
Stores-trans {xs = xs} s nothing e joined = rw (joined, append-nil xs) s
Stores-trans {at = at} {xs = xs} s (next {front = front} {bytes = bytes} t placed split) e joined =
    next (Stores-trans s t e refl) (omega (arith, placed, e, length-append xs front))
      (joined ∙ ap (λ b. xs ++ b) split ∙ sym (append_assoc xs front bytes))

pub read_bytes_enough :
    (n : ℕ) (memory : List ℕ) → n ≤ length memory → read_bytes n memory ≡ some (take n memory)
unfolding read_bytes
read_bytes_enough n memory h = ground arith

pub length-put_page :
    (pos : ℕ) (bytes page : List ℕ)
    → pos + length bytes ≤ length page
    → length (put_page pos bytes page) ≡ length page
unfolding put_page
length-put_page pos bytes page h =
    omega (arith, length-append {A = ℕ}, length-take {A = ℕ}, length-drop {A = ℕ})

-- The bytes in front of the end of a copy.
pub take-put_page :
    (pos : ℕ) (bytes page : List ℕ)
    → pos + length bytes ≤ length page
    → take (pos + length bytes) (put_page pos bytes page) ≡ take pos page ++ bytes
unfolding put_page
take-put_page pos bytes page h =
    let size : length (take pos page ++ bytes) ≡ pos + length bytes =
      omega (arith, length-append (take pos page) bytes, length-take pos page) in
    rw (← append_assoc) (take-chunk (take pos page ++ bytes) size (drop (pos + length bytes) page))

-- The round that fills the page and writes it.
abbrev pub full_round : List ℕ → ℕ → UploadState → Round
full_round mem n s =
    let lacks = page_len - s.page_pos in
    record {
      write = true;
      mem = drop lacks mem;
      data_len = n - lacks;
      state = record s {
        page_data = put_page s.page_pos (take lacks mem) s.page_data;
        page_pos = 0;
        len = page_len;
      };
    }

pub fill_empty-full :
    (last : Bool) (mem : List ℕ) (n : ℕ) (s : UploadState)
    → s.page_pos ≡ 0
    → page_len ≤ n
    → n ≤ length mem
    → fill_empty last mem n s ≡ some (full_round mem n s)
unfolding fill_empty
fill_empty-full last mem n s empty full there =
    let test : leb page_len n ≡ true = ground arith in
    rw (test, read_bytes_enough page_len mem (omega arith), empty)

-- The round that stores the end of a piece, and writes it after the last one.
abbrev pub part_round : Bool → List ℕ → ℕ → UploadState → Round
part_round last mem n s = record {
  write = last;
  mem = mem;
  data_len = 0;
  state = record s {
    page_data = put_page 0 (take n mem) s.page_data;
    page_pos = n;
    len = if last then n else s.len;
  };
}

pub fill_empty-part :
    (last : Bool) (mem : List ℕ) (n : ℕ) (s : UploadState)
    → n < page_len
    → n ≤ length mem
    → fill_empty last mem n s ≡ some (part_round last mem n s)
unfolding fill_empty
fill_empty-part last mem n s part there =
    let test : leb page_len n ≡ false = ground arith in rw (test, read_bytes_enough n mem there)

-- A page that waits is filled, when enough bytes are at hand.
pub fill_rest-full :
    (last : Bool) (mem : List ℕ) (n : ℕ) (s : UploadState)
    → page_len - s.page_pos ≤ n
    → n ≤ length mem
    → fill_rest last mem n s ≡ some (full_round mem n s)
unfolding fill_rest
fill_rest-full last mem n s full there =
    let test : leb (page_len - s.page_pos) n ≡ true = ground arith in
    rw (test, read_bytes_enough (page_len - s.page_pos) mem (omega arith))

-- The round when they are not: the page is filled all the same, with what stands behind them in memory.
abbrev pub short_round : Bool → List ℕ → ℕ → UploadState → Round
short_round last mem n s =
    let lacks = page_len - s.page_pos in
    record {
      write = last;
      mem = mem;
      data_len = n;
      state = record s {
        page_data = put_page s.page_pos (take lacks mem) s.page_data;
        page_pos = s.page_pos + lacks;
        len = if last then lacks else s.len;
      };
    }

pub fill_rest-short :
    (last : Bool) (mem : List ℕ) (n : ℕ) (s : UploadState)
    → n < page_len - s.page_pos
    → page_len - s.page_pos ≤ length mem
    → fill_rest last mem n s ≡ some (short_round last mem n s)
unfolding fill_rest
fill_rest-short last mem n s short there =
    let test : leb (page_len - s.page_pos) n ≡ false = ground arith in
    rw (test, read_bytes_enough (page_len - s.page_pos) mem there)
