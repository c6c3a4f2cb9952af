-- ===== src/Web/Upload/Short.antt =====
-- A piece that is shorter than what the page of `myCgiUpdate` lacks.
use watermeter.Base.{
  ℕ, zero, suc, ◌+◌, ◌-◌, ◌*◌, ◌≤◌, ◌<◌, ◌≡◌, ◌≢◌, refl, sym, ap, ◌∙◌, arith, Bool, true, false,
  inl, inr, List, ◌++◌, some,
}
use watermeter.Base.{◌==◌, leb, length, take, drop, length-take, length-drop, Bool-cases}
use watermeter.Web.Upload.{
  UploadState, Upload, page_len, put_page, write_round, upload_loop, upload_pages,
}
use watermeter.Web.Upload.Pages.{
  waiting, IsSound, length-put_page, take-put_page, full_round, short_round, fill_rest-full,
  fill_rest-short,
}
use watermeter.Web.Upload.Stream.{
  Streamed, full-Streamed, empty-Streamed, sized_full, emptied_full, page_round_rest,
  upload_pages-Streamed,
}
use mathlib.Core.List.{append_assoc}

-- After the round that fills the page without moving on.
abbrev refilled : Bool → List ℕ → ℕ → Upload → Upload
refilled last mem n u = write_round (short_round last mem n u.state) u.trace

sized_fill :
    (mem : List ℕ) (s : UploadState)
    → IsSound s
    → page_len - s.page_pos ≤ length mem
    → length (put_page s.page_pos (take (page_len - s.page_pos) mem) s.page_data) ≡ page_len
sized_fill mem s sound there =
    length-put_page s.page_pos (take (page_len - s.page_pos) mem) s.page_data
      (omega (arith, length-take (page_len - s.page_pos) mem, sound.sized, sound.position))
    ∙ sound.sized

sized_refilled :
    (last : Bool) (mem : List ℕ) (n : ℕ) (u : Upload)
    → IsSound u.state
    → page_len - u.state.page_pos ≤ length mem
    → length (refilled last mem n u).state.page_data ≡ page_len
unfolding write_round
sized_refilled true mem n u sound there = sized_fill mem u.state sound there
sized_refilled false mem n u sound there = sized_fill mem u.state sound there

position_refilled :
    (last : Bool) (mem : List ℕ) (n : ℕ) (u : Upload)
    → IsSound u.state
    → (refilled last mem n u).state.page_pos ≡ page_len
unfolding write_round
position_refilled true mem n u sound = omega (arith, sound.position)
position_refilled false mem n u sound = omega (arith, sound.position)

-- The loop from there on.
refilled-Streamed :
    (fuel n : ℕ) (last : Bool) (mem : List ℕ) (u : Upload)
    → u.state.page_pos ≡ page_len
    → length u.state.page_data ≡ page_len
    → suc n ≤ length mem
    → suc n ≤ fuel
    → Streamed last u (take (suc n) mem) (upload_loop (suc fuel) last mem (suc n) u)
refilled-Streamed fuel n last mem u filled sized there enough =
    let lacks = page_len - u.state.page_pos in
    full-Streamed fuel n last mem u sized (omega (arith, filled)) (omega (arith, filled)) there
      (page_round_rest last mem (suc n) u.state (omega (arith, filled))
        ∙ fill_rest-full last mem (suc n) u.state (omega (arith, filled)) there)
      (empty-Streamed fuel (suc n - lacks) last (drop lacks mem)
        (write_round (full_round mem (suc n) u.state) u.trace) (emptied_full mem (suc n) u)
        (sized_full mem (suc n) u sized (omega (arith, filled)))
        (omega (arith, filled, length-drop lacks mem)) (omega (arith, filled)))

refilled-waiting :
    (mem : List ℕ) (n : ℕ) (u : Upload)
    → IsSound u.state
    → page_len - u.state.page_pos ≤ length mem
    → waiting (refilled false mem n u).state
      ≡ waiting u.state ++ take (page_len - u.state.page_pos) mem
unfolding write_round waiting
refilled-waiting mem n u sound there =
    let pos = u.state.page_pos in
    let page = u.state.page_data in
    let bytes = take (page_len - pos) mem in
    let size : length bytes ≡ page_len - pos = omega (arith, length-take (page_len - pos) mem) in
    ap (λ k. take (pos + k) (put_page pos bytes page)) (sym size)
    ∙ take-put_page pos bytes page (omega (arith, size, sound.sized, sound.position))

-- The loop on a piece that is too short is one such round, and the loop from there on.
short_loop :
    (last : Bool) (mem : List ℕ) (n : ℕ) (u : Upload)
    → IsSound u.state
    → suc n < page_len - u.state.page_pos
    → page_len - u.state.page_pos ≤ length mem
    → u.state.page_pos ≢ 0
    → upload_pages last mem (suc n) u
      ≡ upload_loop (3 * suc n + 2) last mem (suc n) (refilled last mem (suc n) u)
unfolding upload_pages upload_loop
short_loop last mem n u sound short there waits =
    let e =
      page_round_rest last mem (suc n) u.state waits
      ∙ fill_rest-short last mem (suc n) u.state short there in
    rw e

short-Streamed :
    (last : Bool) (mem : List ℕ) (n : ℕ) (u : Upload)
    → IsSound u.state
    → suc n < page_len - u.state.page_pos
    → page_len ≤ length mem
    → u.state.page_pos ≢ 0
    → Streamed last
        (refilled last mem (suc n) u)
        (take (suc n) mem)
        (upload_pages last mem (suc n) u)
short-Streamed last mem n u sound short there waits =
    let fuel : 3 * suc n + 2 ≡ suc (3 * suc n + 1) = omega arith in
    rw (short_loop last mem n u sound short (omega arith) waits, fuel)
      (refilled-Streamed (3 * suc n + 1) n last mem (refilled last mem (suc n) u)
        (position_refilled last mem (suc n) u sound)
        (sized_refilled last mem (suc n) u sound (omega arith)) (omega arith) (omega arith))

-- The loop ends on every piece, whatever waits in the page, when the memory of the request goes on for
-- a page behind the piece: in as many rounds as the fuel allows, without a read past the memory, and
-- with a page that is sound again.
pub upload_pages-total :
    (last : Bool) (mem : List ℕ) (n : ℕ) (u : Upload)
    → IsSound u.state
    → n + page_len ≤ length mem
    → (after : Upload) × (upload_pages last mem n u ≡ some after) × IsSound after.state
unfolding upload_pages upload_loop
upload_pages-total last mem zero u sound there = (u, refl, sound)
upload_pages-total last mem (suc n) u sound there =
    elim (Bool-cases (leb page_len (u.state.page_pos + suc n))) [
      | inl full ↦
          let s =
            upload_pages-Streamed last mem (suc n) u sound (inr (ground arith)) (omega arith) in
          (s.after, s.returns, s.sound)
      | inr short ↦ elim (Bool-cases (u.state.page_pos == 0)) [
        | inl empty ↦
            let s =
              upload_pages-Streamed last mem (suc n) u sound (inl (ground arith)) (omega arith) in
            (s.after, s.returns, s.sound)
        | inr waits ↦
            let less : suc n < page_len - u.state.page_pos = ground arith in
            let s = short-Streamed last mem n u sound less (omega (arith, there)) (ground arith) in
            (s.after, s.returns, s.sound)
      ]
    ]

-- A piece in the middle that is shorter than what the page lacks reaches the flash twice: the loop does
-- what it would do for the memory up to the end of the page, other bytes than those of the request
-- included, and then for the piece again.
pub upload_pages-repeats :
    (mem : List ℕ) (n : ℕ) (u : Upload)
    → IsSound u.state
    → u.state.page_pos ≢ 0
    → n ≢ 0
    → u.state.page_pos + n < page_len
    → page_len ≤ length mem
    → Streamed false u
        (take (page_len - u.state.page_pos) mem ++ take n mem)
        (upload_pages false mem n u)
unfolding write_round
upload_pages-repeats mem zero u sound waits some_bytes short there = absurd (some_bytes refl)
upload_pages-repeats mem (suc n) u sound waits some_bytes short there =
    let s = short-Streamed false mem n u sound (omega arith) there waits in
    record {
      after = s.after;
      returns = s.returns;
      written = s.written;
      stores = s.stores;
      moved = s.moved;
      kept =
          sym (
            append_assoc (waiting u.state) (take (page_len - u.state.page_pos) mem)
              (take (suc n) mem))
          ∙ ap (λ front. front ++ take (suc n) mem)
              (sym (refilled-waiting mem (suc n) u sound (omega arith)))
          ∙ s.kept;
      sound = s.sound;
    }
