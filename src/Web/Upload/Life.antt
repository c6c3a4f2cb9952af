-- ===== src/Web/Upload/Life.antt =====
-- The life of the state that `myCgiUpdate` allocates.
use watermeter.Base.{
  ℕ, ◌≡◌, ◌↔◌, refl, subst, Bool, true, false, inl, inr, List, Option, some, none,
}
use watermeter.Base.{◌==◌, leb, take, Bool-cases}
use watermeter.Base.Text.{Text}
use watermeter.Base.CString.{◌>>=◌}
use watermeter.Web.Upload.{UploadDef, Post, UploadState, UploadAction, Upload, upload_pages}
use watermeter.Web.Upload.Handler.{
  Session, Cgi, done, more, find_image, upload_error, memmem, finish_piece, take_pages, reject,
  accept, check_image, first_piece, next_piece, receive_piece, my_cgi_update,
}

-- The handler is done exactly when it keeps no state.
abbrev IsFreed : Cgi → Option UploadState → Type 0
IsFreed done none = Unit
IsFreed more (some s) = Unit
IsFreed c s = ⊥

abbrev Freed : Option (Cgi × Session) → Type 0
Freed none = Unit
Freed (some (c, s)) = IsFreed c s.state

finish_piece-Freed : (p : Post) (u : Upload) → Freed (some (finish_piece p u))
unfolding finish_piece
finish_piece-Freed p u = elim (Bool-cases (p.len == p.received)) [
  | inl whole ↦ rw whole tt
  | inr part ↦ rw part tt
]

take_pages-Freed :
    (last : Bool) (p : Post) (mem : List ℕ) (n : ℕ) (u : Upload) → Freed (take_pages last p mem n u)
unfolding take_pages
take_pages-Freed last p mem n u = after_pages (upload_pages last mem n u)
  where
    after_pages : (r : Option Upload) → Freed (r >>= λ after. some (finish_piece p after))
    after_pages none = tt
    after_pages (some after) = finish_piece-Freed p after

accept-Freed :
    (def : UploadDef) (allocated : Bool) (userbin : ℕ) (p : Post) (at : ℕ)
    (trace : List UploadAction)
    → Freed (accept def allocated userbin p at (record { state = none; trace = trace }))
unfolding accept
accept-Freed def false userbin p at trace = tt
accept-Freed def true userbin p at trace = elim (Bool-cases (leb at p.buff_len)) [
  | inl inside ↦ rw inside (take_pages-Freed false p _ _ _)
  | inr outside ↦ rw outside tt
]

first_piece-Freed :
    (def : UploadDef) (allocated : Bool) (userbin : ℕ) (p : Post) (trace : List UploadAction)
    (at : Option ℕ)
    → Freed (first_piece def allocated userbin p (record { state = none; trace = trace }) at)
unfolding first_piece check_image reject
first_piece-Freed def allocated userbin p trace none = tt
first_piece-Freed def allocated userbin p trace (some at) = checked (upload_error def p at)
  where
    checked :
        (error : Option Text)
        → Freed
            (check_image def allocated userbin p at (record { state = none; trace = trace }) error)
    checked none = accept-Freed def allocated userbin p at trace
    checked (some text) = tt

next_piece-Freed :
    (p : Post) (state : UploadState) (trace : List UploadAction) (boundary : Option ℕ)
    → Freed (next_piece p state trace boundary)
unfolding next_piece
next_piece-Freed p state trace none = take_pages-Freed false p _ _ _
next_piece-Freed p state trace (some i) = elim (Bool-cases (leb 2 i)) [
  | inl behind ↦ rw behind (take_pages-Freed true p _ _ _)
  | inr front ↦ rw front tt
]

receive_piece-Freed :
    (def : UploadDef) (allocated : Bool) (userbin : ℕ) (p : Post) (trace : List UploadAction)
    (state : Option UploadState)
    → Freed (receive_piece def allocated userbin p trace state)
unfolding receive_piece
receive_piece-Freed def allocated userbin p trace none = found (find_image p)
  where
    found :
        (at : Option (Option ℕ))
        → Freed (
            at >>= λ i.
            first_piece def allocated userbin p (record { state = none; trace = trace }) i)
    found none = tt
    found (some at) = first_piece-Freed def allocated userbin p trace at
receive_piece-Freed def allocated userbin p trace (some state) =
    next_piece-Freed p state trace (memmem (take p.buff_len p.buff) p.boundary)

my_cgi_update-Freed :
    (def : UploadDef) (connected allocated : Bool) (userbin : ℕ) (p : Post) (s : Session)
    → Freed (my_cgi_update def connected allocated userbin p s)
unfolding my_cgi_update
my_cgi_update-Freed def false allocated userbin p s = tt
my_cgi_update-Freed def true allocated userbin p s =
    receive_piece-Freed def allocated userbin p s.trace s.state

IsFreed-iff : (c : Cgi) (s : Option UploadState) → IsFreed c s → (c ≡ done) ↔ (s ≡ none)
IsFreed-iff done none h = (λ e. refl, λ e. refl)
IsFreed-iff more (some s) h = (λ e. cc, λ e. cc)
IsFreed-iff done (some s) h = absurd h
IsFreed-iff more none h = absurd h

-- Whatever the piece, the state before it and the answers of the calls: the handler tells the server
-- that it is done exactly when it has freed its state, or never had one. So no state outlives its
-- request, and none is freed that a later piece needs.
pub my_cgi_update-done :
    (def : UploadDef) (connected allocated : Bool) (userbin : ℕ) (p : Post) (s s1 : Session)
    (c : Cgi)
    → my_cgi_update def connected allocated userbin p s ≡ some (c, s1)
    → (c ≡ done) ↔ (s1.state ≡ none)
my_cgi_update-done def connected allocated userbin p s s1 c e =
    IsFreed-iff c s1.state (subst Freed e (my_cgi_update-Freed def connected allocated userbin p s))
