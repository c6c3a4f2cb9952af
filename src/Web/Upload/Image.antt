-- ===== src/Web/Upload/Image.antt =====
-- A whole firmware, from the first piece of the request to the last.
use watermeter.Base.{
  ℕ, ◌+◌, ◌-◌, ◌/◌, ◌≤◌, ◌≡◌, ◌≢◌, refl, sym, ap, ◌∙◌, arith, true, false, inl, inr, List, [], ◌∷◌,
  ◌++◌, Option, none, some,
}
use watermeter.Base.{◌==◌, leb, length, take, drop, All, length-drop, length-replicate}
use watermeter.Base.CString.{◌>>=◌}
use watermeter.Web.Upload.{
  UploadDef, Post, UploadAction, Upload, respond, arm_reset, page_len, upload_pages,
}
use watermeter.Web.Upload.Handler.{
  Session, Cgi, more, memmem, find_image, upload_error, count_sector, erase_sectors, start_state,
  finish_piece, take_pages, accept, check_image, first_piece, next_piece, receive_piece,
  my_cgi_update, upload_done,
}
use watermeter.Web.Upload.Pages.{waiting, IsSound, Stores, Stores-trans}
use watermeter.Web.Upload.Stream.{Streamed, Moves, Streamed-Moves, upload_pages-Streamed}
use mathlib.Core.List.{append_assoc, append-nil}

-- The server calls the handler with one piece after another.
unfoldable pub receive_all : UploadDef → ℕ → List Post → Session → Option Session
receive_all def userbin [] s = some s
receive_all def userbin (p ∷ pieces) s =
    my_cgi_update def true true userbin p s >>= λ r. receive_all def userbin pieces r.1

-- What a piece holds.
abbrev pub content : Post → List ℕ
content p = take p.buff_len p.buff

abbrev pub contents : List Post → List ℕ
contents [] = []
contents (p ∷ pieces) = content p ++ contents pieces

-- A piece between the first and the last: at least a page, and no boundary.
pub record IsMiddle (p : Post) : Type 0 where
  pub no_boundary : memmem (content p) p.boundary ≡ none
  pub a_page : page_len ≤ p.buff_len
  pub within : p.buff_len ≤ length p.buff
  pub unfinished : p.len ≢ p.received

-- The last piece: the image goes on for at least a page and ends `image_len` bytes in.
pub record IsLast (p : Post) (image_len : ℕ) : Type 0 where
  pub boundary_at : memmem (content p) p.boundary ≡ some (image_len + 2)
  pub a_page : page_len ≤ image_len
  pub within : image_len ≤ length p.buff
  pub finished : p.len ≡ p.received

-- The first piece, which is accepted: the image starts `at` bytes in.
pub record IsFirst (def : UploadDef) (p : Post) (at : ℕ) : Type 0 where
  pub found : find_image p ≡ some (some at)
  pub accepted : upload_error def p at ≡ none
  pub inside : at ≤ p.buff_len
  pub within : p.buff_len ≤ length p.buff
  pub unfinished : p.len ≢ p.received

abbrev running : Upload → Session
running u = record { state = some u.state; trace = u.trace }

middle_piece :
    (def : UploadDef) (userbin : ℕ) (p : Post) (u : Upload)
    → IsSound u.state
    → IsMiddle p
    → (s : Streamed false u (content p) (upload_pages false p.buff p.buff_len u)) × (my_cgi_update
          def true true userbin p
          (running u)
        ≡ some (more, running s.after))
unfolding my_cgi_update receive_piece next_piece take_pages finish_piece
middle_piece def userbin p u sound m =
    let s =
      upload_pages-Streamed false p.buff p.buff_len u sound (inr (omega (arith, m.a_page)))
        m.within in
    let test : (p.len == p.received) ≡ false = ground (arith, m.unfinished) in
    (s, rw (m.no_boundary, s.returns, test))

last_piece :
    (def : UploadDef) (userbin : ℕ) (p : Post) (image_len : ℕ) (u : Upload)
    → IsSound u.state
    → IsLast p image_len
    → (s : Streamed true u (take image_len p.buff) (upload_pages true p.buff image_len u))
      × (my_cgi_update def true true userbin p (running u)
          ≡ some (
            Cgi.done,
            record {
              state = none;
              trace = arm_reset 1000 ∷ (respond 200 upload_done ∷ s.after.trace);
            },
          ))
unfolding my_cgi_update receive_piece next_piece take_pages finish_piece
last_piece def userbin p image_len u sound l =
    let s =
      upload_pages-Streamed true p.buff image_len u sound (inr (omega (arith, l.a_page)))
        l.within in
    let test : (p.len == p.received) ≡ true = ground (arith, l.finished) in
    let cut : leb 2 (image_len + 2) ≡ true = ground arith in
    let size : image_len + 2 - 2 ≡ image_len = omega arith in
    (s, rw (l.boundary_at, cut, size, s.returns, test))

-- The state in front of the first page: the sectors are erased.
abbrev pub erased : UploadDef → ℕ → Post → Upload
erased def userbin p =
    let state = start_state def userbin in
    record { state = state; trace = erase_sectors (count_sector p.len) (state.address / 4096) [] }

abbrev pub nothing_yet : Session
nothing_yet = record { state = none; trace = [] }

first_piece_lem :
    (def : UploadDef) (userbin : ℕ) (p : Post) (at : ℕ)
    → IsFirst def p at
    → (s : Streamed false
        (erased def userbin p)
        (take (p.buff_len - at) (drop at p.buff))
        (upload_pages false (drop at p.buff) (p.buff_len - at) (erased def userbin p)))
      × (my_cgi_update def true true userbin p nothing_yet ≡ some (more, running s.after))
unfolding my_cgi_update receive_piece first_piece check_image accept take_pages finish_piece
    start_state
first_piece_lem def userbin p at f =
    let sound : IsSound (start_state def userbin) = record {
      sized = length-replicate {A = ℕ} page_len 0;
      position = omega arith;
    } in
    let s =
      upload_pages-Streamed false (drop at p.buff) (p.buff_len - at) (erased def userbin p) sound
        (inl refl) (omega (arith, f.within, length-drop at p.buff)) in
    let test : (p.len == p.received) ≡ false = ground (arith, f.unfinished) in
    let inside : leb at p.buff_len ≡ true = ground (arith, f.inside) in
    (s, rw (f.found, f.accepted, inside, s.returns, test))

-- The upload ended: `bytes` behind those that waited are in the flash, the answer is sent, the state is
-- freed and the timer of the reset runs.
pub record Finished (u : Upload) (bytes : List ℕ) (r : Option Session) : Type 0 where
  pub calls : List UploadAction
  pub returns :
      r ≡ some (record { state = none; trace = arm_reset 1000 ∷ (respond 200 upload_done ∷ calls) })
  pub stores : Stores u.trace u.state.address (waiting u.state ++ bytes) calls

Moves-Finished :
    {u u2 : Upload} {taken out rest : List ℕ} {r : Option Session}
    → Moves u taken out u2
    → Finished u2 rest r
    → Finished u (taken ++ rest) r
Moves-Finished {u = u} {u2 = u2} {taken = taken} {out = out} {rest = rest} step s = record {
  calls = s.calls;
  returns = s.returns;
  stores = Stores-trans step.stores s.stores step.moved (
      sym (append_assoc (waiting u.state) taken rest)
      ∙ ap (λ front. front ++ rest) step.kept
      ∙ append_assoc out (waiting u2.state) rest);
}

-- The pieces behind the first.
rest-Finished :
    (def : UploadDef) (userbin : ℕ) (middles : List Post) (last : Post) (image_len : ℕ) (u : Upload)
    → IsSound u.state
    → All IsMiddle middles
    → IsLast last image_len
    → Finished u
        (contents middles ++ take image_len last.buff)
        (receive_all def userbin (middles ++ (last ∷ [])) (running u))
unfolding receive_all
rest-Finished def userbin [] last image_len u sound all l =
    let (s, e) = last_piece def userbin last image_len u sound l in
    record {
      calls = s.after.trace;
      returns = rw e;
      stores = rw (s.kept, append-nil s.written) s.stores;
    }
rest-Finished def userbin (p ∷ middles) last image_len u sound (m, all) l =
    let (s, e) = middle_piece def userbin p u sound m in
    let rest = rest-Finished def userbin middles last image_len s.after s.sound all l in
    rw (e, append_assoc (content p) (contents middles) (take image_len last.buff))
      (Moves-Finished (Streamed-Moves s) rest)

-- The image that the pieces of a request carry.
abbrev pub image : Post → ℕ → List Post → Post → ℕ → List ℕ
image first at middles last image_len =
    take (first.buff_len - at) (drop at first.buff)
    ++ (contents middles ++ take image_len last.buff)

-- A firmware that comes in a first piece which is accepted, any number of pieces of at least a page, and
-- a last piece with at least a page of the image in front of the boundary is taken to its end: after
-- the erasing, the flash is written with the bytes of the image and no others, in their order from the
-- first address of the image on, then the answer 200 is sent, the state is freed and the timer of the
-- reset is started.
pub receive_all-Stores :
    (def : UploadDef) (userbin : ℕ) (first : Post) (at : ℕ) (middles : List Post) (last : Post)
    (image_len : ℕ)
    → IsFirst def first at
    → All IsMiddle middles
    → IsLast last image_len
    → (calls : List UploadAction) × (receive_all def userbin
          (first ∷ (middles ++ (last ∷ [])))
          nothing_yet
        ≡ some
            (record { state = none; trace = arm_reset 1000 ∷ (respond 200 upload_done ∷ calls) }))
      × Stores
          (erased def userbin first).trace
          (start_state def userbin).address
          (image first at middles last image_len)
          calls
unfolding receive_all waiting start_state
receive_all-Stores def userbin first at middles last image_len f all l =
    let (s, e) = first_piece_lem def userbin first at f in
    let r =
      Moves-Finished (Streamed-Moves s)
        (rest-Finished def userbin middles last image_len s.after s.sound all l) in
    (r.calls, rw e r.returns, r.stores)
