-- ===== src/Web/Upload/Stream.antt =====
-- The loop of `myCgiUpdate` over one piece: which bytes reach the flash, and which wait in the page.
use watermeter.Base.{
  ℕ, zero, suc, ◌+◌, ◌-◌, ◌*◌, ◌≤◌, ◌<◌, ◌≡◌, ◌≢◌, refl, sym, ap, ◌∙◌, arith, Bool, true, false,
  ◌⊎◌, inl, inr, List, [], ◌++◌, Option, some,
}
use watermeter.Base.{
  ◌==◌, leb, if◌then◌else◌, length, take, drop, length-append, length-take, length-drop, take-split,
  Bool-cases,
}
use watermeter.Web.Upload.{
  UploadState, Upload, page_len, put_page, fill_empty, fill_rest, page_round, write_round,
  upload_loop, upload_pages,
}
use watermeter.Web.Upload.Pages.{
  waiting, IsSound, Stores, nothing, next, Stores-trans, length-put_page, take-put_page, full_round,
  fill_empty-full, part_round, fill_empty-part, fill_rest-full,
}
use mathlib.Core.List.{append_assoc, append-nil}

-- The loop ended; of the bytes that waited and the bytes of the piece, in their order, the front is
-- written to the flash and the back waits, which is empty after the last piece.
pub record Streamed (last : Bool) (u : Upload) (bytes : List ℕ) (r : Option Upload) : Type 0 where
  pub after : Upload
  pub returns : r ≡ some after
  pub written : List ℕ
  pub stores : Stores u.trace u.state.address written after.trace
  pub moved : after.state.address ≡ u.state.address + length written
  pub kept : waiting u.state ++ bytes ≡ written ++ (if last then [] else waiting after.state)
  pub sound : IsSound after.state

-- A part of the way, which writes `out`.
pub record Moves (u : Upload) (taken out : List ℕ) (u2 : Upload) : Type 0 where
  pub stores : Stores u.trace u.state.address out u2.trace
  pub moved : u2.state.address ≡ u.state.address + length out
  pub kept : waiting u.state ++ taken ≡ out ++ waiting u2.state

Moves-Streamed :
    {last : Bool} {u u2 : Upload} {taken out rest : List ℕ} {r : Option Upload}
    → Moves u taken out u2
    → Streamed last u2 rest r
    → Streamed last u (taken ++ rest) r
Moves-Streamed {last = last} {u = u} {u2 = u2} {taken = taken} {out = out} {rest = rest} step s =
    record {
      after = s.after;
      returns = s.returns;
      written = out ++ s.written;
      stores = Stores-trans step.stores s.stores step.moved refl;
      moved = omega (arith, step.moved, s.moved, length-append out s.written);
      kept =
          sym (append_assoc (waiting u.state) taken rest)
          ∙ ap (λ front. front ++ rest) step.kept
          ∙ append_assoc out (waiting u2.state) rest
          ∙ ap (λ back. out ++ back) s.kept
          ∙ sym (append_assoc out s.written (if last then [] else waiting s.after.state));
      sound = s.sound;
    }

pub Streamed-Moves :
    {u : Upload} {bytes : List ℕ} {r : Option Upload} (s : Streamed false u bytes r)
    → Moves u bytes s.written s.after
Streamed-Moves s = record { stores = s.stores; moved = s.moved; kept = s.kept }

waiting_empty : (s : UploadState) → s.page_pos ≡ 0 → waiting s ≡ []
unfolding waiting
waiting_empty s e = rw e

page_round_empty :
    (last : Bool) (mem : List ℕ) (n : ℕ) (s : UploadState)
    → s.page_pos ≡ 0
    → page_round last mem n s ≡ fill_empty last mem n s
unfolding page_round
page_round_empty last mem n s e = ground (arith, e)

pub page_round_rest :
    (last : Bool) (mem : List ℕ) (n : ℕ) (s : UploadState)
    → s.page_pos ≢ 0
    → page_round last mem n s ≡ fill_rest last mem n s
unfolding page_round
page_round_rest last mem n s e = ground (arith, e)

-- A full page, written.
full_page-Moves :
    (u : Upload) (mem : List ℕ) (n : ℕ)
    → length u.state.page_data ≡ page_len
    → u.state.page_pos ≤ page_len
    → page_len - u.state.page_pos ≤ length mem
    → Moves u
        (take (page_len - u.state.page_pos) mem)
        (waiting u.state ++ take (page_len - u.state.page_pos) mem)
        (write_round (full_round mem n u.state) u.trace)
unfolding write_round waiting
full_page-Moves u mem n sized within there =
    let pos = u.state.page_pos in
    let page = u.state.page_data in
    let bytes = take (page_len - pos) mem in
    let size : page_len ≡ pos + length bytes = omega (arith, length-take (page_len - pos) mem) in
    let whole : take page_len (put_page pos bytes page) ≡ take pos page ++ bytes =
      ap (λ k. take k (put_page pos bytes page)) size
      ∙ take-put_page pos bytes page (omega (arith, size)) in
    record {
      stores = next nothing (omega arith) (sym whole);
      moved = omega (arith, length-append (take pos page) bytes, length-take pos page);
      kept = sym (append-nil (take pos page ++ bytes));
    }

-- The first bytes of the page after a copy to its start.
take-put_page_start :
    (n : ℕ) (mem page : List ℕ)
    → n ≤ length mem
    → n ≤ length page
    → take n (put_page 0 (take n mem) page) ≡ take n mem
take-put_page_start n mem page there fits =
    let size : n ≡ 0 + length (take n mem) = omega (arith, length-take n mem) in
    ap (λ k. take k (put_page 0 (take n mem) page)) size
    ∙ take-put_page 0 (take n mem) page (omega (arith, size))

length-put_page_start :
    (n : ℕ) (mem page : List ℕ)
    → n ≤ length mem
    → n ≤ length page
    → length (put_page 0 (take n mem) page) ≡ length page
length-put_page_start n mem page there fits =
    length-put_page 0 (take n mem) page (omega (arith, length-take n mem))

-- The end of the piece, less than a page.
part-Streamed :
    (n : ℕ) (last : Bool) (mem : List ℕ) (u : Upload)
    → u.state.page_pos ≡ 0
    → length u.state.page_data ≡ page_len
    → n ≤ length mem
    → n < page_len
    → Streamed last u (take n mem) (some (write_round (part_round last mem n u.state) u.trace))
unfolding write_round waiting
part-Streamed n true mem u empty sized there part =
    let page = u.state.page_data in
    let front = take-put_page_start n mem page there (omega arith) in
    record {
      after = write_round (part_round true mem n u.state) u.trace;
      returns = refl;
      written = take n mem;
      stores = next nothing (omega arith) (sym front);
      moved = omega (arith, length-take n mem);
      kept = rw (empty, append-nil (take n mem)) refl;
      sound = record {
        sized = length-put_page_start n mem page there (omega arith) ∙ sized;
        position = part;
      };
    }
part-Streamed n false mem u empty sized there part =
    let page = u.state.page_data in
    record {
      after = write_round (part_round false mem n u.state) u.trace;
      returns = refl;
      written = [];
      stores = nothing;
      moved = omega arith;
      kept = rw (empty, take-put_page_start n mem page there (omega arith)) refl;
      sound = record {
        sized = length-put_page_start n mem page there (omega arith) ∙ sized;
        position = part;
      };
    }

-- Nothing is left of the piece.
ended-Streamed :
    (last : Bool) (u : Upload)
    → IsSound u.state
    → (last ≡ true → u.state.page_pos ≡ 0)
    → Streamed last u [] (some u)
ended-Streamed true u sound empty = record {
  after = u;
  returns = refl;
  written = [];
  stores = nothing;
  moved = omega arith;
  kept = rw (waiting_empty u.state (empty refl)) refl;
  sound = sound;
}
ended-Streamed false u sound empty = record {
  after = u;
  returns = refl;
  written = [];
  stores = nothing;
  moved = omega arith;
  kept = append-nil (waiting u.state);
  sound = sound;
}

-- A round that fills the page, and the loop on what is left.
pub full-Streamed :
    (fuel n : ℕ) (last : Bool) (mem : List ℕ) (u : Upload)
    → length u.state.page_data ≡ page_len
    → u.state.page_pos ≤ page_len
    → page_len - u.state.page_pos ≤ suc n
    → suc n ≤ length mem
    → page_round last mem (suc n) u.state ≡ some (full_round mem (suc n) u.state)
    → (let lacks = page_len - u.state.page_pos in
        let u2 = write_round (full_round mem (suc n) u.state) u.trace in
        Streamed last u2
          (take (suc n - lacks) (drop lacks mem))
          (upload_loop fuel last (drop lacks mem) (suc n - lacks) u2))
    → Streamed last u (take (suc n) mem) (upload_loop (suc fuel) last mem (suc n) u)
unfolding upload_loop
full-Streamed fuel n last mem u sized within full there round rest =
    rw (round, ← take-split (page_len - u.state.page_pos) (suc n) mem full)
      (Moves-Streamed (full_page-Moves u mem (suc n) sized within (omega arith)) rest)

-- The page is as long after a round that fills it.
pub sized_full :
    (mem : List ℕ) (n : ℕ) (u : Upload)
    → length u.state.page_data ≡ page_len
    → u.state.page_pos ≤ page_len
    → length (write_round (full_round mem n u.state) u.trace).state.page_data ≡ page_len
unfolding write_round
sized_full mem n u sized within =
    length-put_page u.state.page_pos (take (page_len - u.state.page_pos) mem) u.state.page_data
      (omega (arith, length-take (page_len - u.state.page_pos) mem))
    ∙ sized

pub emptied_full :
    (mem : List ℕ) (n : ℕ) (u : Upload)
    → (write_round (full_round mem n u.state) u.trace).state.page_pos ≡ 0
unfolding write_round
emptied_full mem n u = refl

-- Pages from an empty one on.
pub empty-Streamed :
    (fuel n : ℕ) (last : Bool) (mem : List ℕ) (u : Upload)
    → u.state.page_pos ≡ 0
    → length u.state.page_data ≡ page_len
    → n ≤ length mem
    → n ≤ fuel
    → Streamed last u (take n mem) (upload_loop fuel last mem n u)
unfolding upload_loop
empty-Streamed fuel zero last mem u empty sized there enough =
    ended-Streamed last u (record { sized = sized; position = omega (arith, empty) }) (λ l. empty)
empty-Streamed zero (suc n) last mem u empty sized there enough = absurd (omega arith)
empty-Streamed (suc fuel) (suc n) last mem u empty sized there enough =
    elim (Bool-cases (leb page_len (suc n))) [
      | inl full ↦
          let enough_here : page_len ≤ suc n = ground arith in
          let lacks = page_len - u.state.page_pos in
          full-Streamed fuel n last mem u sized (omega (arith, empty)) (omega (arith, empty)) there
            (page_round_empty last mem (suc n) u.state empty
              ∙ fill_empty-full last mem (suc n) u.state empty enough_here there)
            (empty-Streamed fuel (suc n - lacks) last (drop lacks mem)
              (write_round (full_round mem (suc n) u.state) u.trace) (emptied_full mem (suc n) u)
              (sized_full mem (suc n) u sized (omega (arith, empty)))
              (omega (arith, length-drop lacks mem)) (omega (arith, empty, enough)))
      | inr part ↦
          let less : suc n < page_len = ground arith in
          let e =
            page_round_empty last mem (suc n) u.state empty
            ∙ fill_empty-part last mem (suc n) u.state less there in
          rw e (part-Streamed (suc n) last mem u empty sized there less)
    ]

-- A piece after which a page cannot stay half filled by the wrong bytes: the page was empty, or the
-- piece fills it.
abbrev pub Fits : UploadState → ℕ → Type 0
Fits s n = (s.page_pos ≡ 0) ⊎ (page_len ≤ s.page_pos + n)

-- For every piece that fits, the loop ends, and no byte of the piece is lost, repeated or moved: the
-- bytes that waited and then those of the piece are written to the flash in their order, each behind
-- the one before, up to an end of less than a page that waits, and that is written too after the last
-- piece.
pub upload_pages-Streamed :
    (last : Bool) (mem : List ℕ) (n : ℕ) (u : Upload)
    → IsSound u.state
    → Fits u.state n
    → n ≤ length mem
    → Streamed last u (take n mem) (upload_pages last mem n u)
unfolding upload_pages upload_loop
upload_pages-Streamed last mem n u sound (inl empty) there =
    empty-Streamed (suc (3 * n + 2)) n last mem u empty sound.sized there (omega arith)
upload_pages-Streamed last mem zero u sound (inr full) there =
    absurd (omega (arith, full, sound.position))
upload_pages-Streamed last mem (suc n) u sound (inr full) there =
    let lacks = page_len - u.state.page_pos in
    elim (Bool-cases (u.state.page_pos == 0)) [
      | inl empty ↦
          let e : u.state.page_pos ≡ 0 = ground arith in
          empty-Streamed (suc (3 * suc n + 2)) (suc n) last mem u e sound.sized there (omega arith)
      | inr waits ↦
          let rest : u.state.page_pos ≢ 0 = ground arith in
          full-Streamed (3 * suc n + 2) n last mem u sound.sized (omega (arith, sound.position))
            (omega (arith, full)) there
            (page_round_rest last mem (suc n) u.state rest
              ∙ fill_rest-full last mem (suc n) u.state (omega (arith, full)) there)
            (empty-Streamed (3 * suc n + 2) (suc n - lacks) last (drop lacks mem)
              (write_round (full_round mem (suc n) u.state) u.trace) (emptied_full mem (suc n) u)
              (sized_full mem (suc n) u sound.sized (omega (arith, sound.position)))
              (omega (arith, length-drop lacks mem)) (omega arith))
    ]
