-- ===== src/Web/Fields.antt =====
-- The login of the settings form, and how long it may be.
use watermeter.Base.{
  ℕ, ◌≤◌, ◌<◌, ◌≡◌, ◌≢◌, refl, sym, ap, ◌∙◌, arith, true, false, List, [], ◌∷◌, ◌++◌, Option, some,
  none,
}
use watermeter.Base.{length, leb, ltb, ◌==◌, All, replicate}
use watermeter.Base.Text.{Text, codes}
use watermeter.Base.CString.{◌>>=◌, strcpy, strstr, starts_with}
use watermeter.Base.CString.Chars.{Holds, IsNonzero, strcpy-Holds}
use watermeter.Config.{clear_config, local_time}
use watermeter.Device.{Device}
use watermeter.Web.Form.{
  Form, login, fields, strtok, add_piece, find_field, skip, apply_field, apply_found, apply_piece,
  apply_pieces, read_form,
}
use mathlib.Core.List.{append_assoc, append-nil}

-- The text has no "&" in it.
abbrev pub IsNoSeparator : ℕ → Type 0
IsNoSeparator c = c ≢ 38

strtok_whole : (piece s : Text) → All IsNoSeparator s → strtok piece s ≡ add_piece (piece ++ s) []
unfolding strtok
strtok_whole piece [] h = sym (ap (λ t. add_piece t []) (append-nil piece))
strtok_whole piece (c ∷ s) h =
    let other : (c == 38) ≡ false = ground (arith, h.0) in
    rw (other, strtok)
      (strtok_whole (piece ++ (c ∷ [])) s h.1
        ∙ ap (λ t. add_piece t []) (append_assoc piece (c ∷ []) s))

abbrev pub login_is : Text → Text
login_is name = codes "login=" ++ name

strtok_login :
    (name : Text) → All IsNoSeparator name → strtok [] (login_is name) ≡ login_is name ∷ []
strtok_login name h = strtok_whole [] (login_is name) (
  λ z. ground (arith, z),
  (
    λ z. ground (arith, z),
    (
      λ z. ground (arith, z),
      (λ z. ground (arith, z), (λ z. ground (arith, z), (λ z. ground (arith, z), h))),
    ),
  ),
)

find_login : (name : Text) → find_field fields (login_is name) ≡ some (login, login_is name)
unfolding find_field strstr starts_with
find_login name = refl

skip_login : (name : Text) → skip 6 (login_is name) ≡ some name
unfolding skip
skip_login name = let e : leb 6 (length (login_is name)) ≡ true = ground arith in rw e refl

too_long : (s : Text) → 16 ≤ length s → strcpy (replicate 16 0) s ≡ none
unfolding strcpy
too_long s long = let e : ltb (length s) 16 ≡ false = ground arith in rw e refl

-- The form with that login.
abbrev form_with : List ℕ → Device → Form
form_with out d = record {
  config = record clear_config { web_admin_login = out };
  reboot_now = d.flags.reboot_now;
  default_config = d.flags.default_config;
  save_new_config = d.flags.save_new_config;
}

apply_login :
    (now : ℕ) (name : Text) (f : Form)
    → apply_piece now (login_is name) f ≡ (
        strcpy f.config.web_admin_login name >>= λ v.
        some (record f { config = record (f.config) { web_admin_login = v } }))
unfolding apply_piece apply_field
apply_login now name f =
    ap (λ o. apply_found now o f) (find_login name)
    ∙ ap
        (λ o. o >>= λ a. strcpy f.config.web_admin_login a >>= λ v.
          some (record f { config = record (f.config) { web_admin_login = v } }))
        (skip_login name)

read_login :
    (stamp : ℕ) (name : Text) (d : Device)
    → All IsNoSeparator name
    → read_form stamp (login_is name) d
      ≡ (strcpy (replicate 16 0) name >>= λ v. some (form_with v d))
unfolding clear_config read_form apply_pieces
read_login stamp name d plain =
    let now = local_time stamp d.config in
    let start = form_with (replicate 16 0) d in
    ap (λ ps. apply_pieces now ps start) (strtok_login name plain)
    ∙ ap (λ o. o >>= λ f. some f) (apply_login now name start)
    ∙ again (strcpy (replicate 16 0) name)
  where
    again :
        (o : Option (List ℕ))
        → ((o >>= λ v. some (form_with v d)) >>= λ f. some f) ≡ (o >>= λ v. some (form_with v d))
    again none = refl
    again (some v) = refl

-- A request with a login alone, without "&" in it: up to fifteen characters, the form holds that login;
-- from sixteen on, the copy overruns the field.
pub read_form-login :
    (stamp : ℕ) (name : Text) (d : Device)
    → All IsNoSeparator name
    → All IsNonzero name
    → (length name < 16
        → (f : Form) × (read_form stamp (login_is name) d ≡ some f)
          × Holds 16 f.config.web_admin_login name)
      × (16 ≤ length name → read_form stamp (login_is name) d ≡ none)
read_form-login stamp name d plain nonzero = (
  λ short.
      let (out, copied, holds) = strcpy-Holds (replicate 16 0) name short nonzero in
      (form_with out d, read_login stamp name d plain ∙ rw copied refl, holds),
  λ long.
      let e : strcpy (replicate 16 0) name ≡ none = too_long name long in
      read_login stamp name d plain ∙ rw e refl,
)
