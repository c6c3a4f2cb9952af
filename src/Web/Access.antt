-- ===== src/Web/Access.antt =====
-- `adminPass`, `myCgiEspFsTemplate` and `checkBinHeader`. The HTTP server is a
-- library: `authenticated` is whether `authBasic` took the login, the answer is what the handler does.
use watermeter.Base.{
  ℕ, ◌≡◌, ◌↔◌, arith, Bool, true, false, not, ◌&&◌, ◌||◌, List, Option, some, none,
}
use watermeter.Base.{◌==◌, ltb, get_or, if◌then◌else◌}
use watermeter.Base.Bytes.{u16_at, u32_at}
use watermeter.Base.Text.{Text, codes}
use watermeter.Base.CString.{◌>>=◌, c_string, str_eq}
use watermeter.Config.{Config}
use watermeter.Device.{Device}

-- `adminPass`: the one pair of login and password.
unfoldable pub admin_pass : Config → ℕ → Option (Option (Text × Text))
admin_pass c number =
    if number == 0
    then (c_string c.web_admin_login >>= λ user.
        c_string c.web_admin_password >>= λ pass. some (some (user, pass)))
    else some none

-- What the handler of a page does.
pub data Answer : Type 0 where
  refused to_config shown : Answer

abbrev pub index_tpl : Text
index_tpl = codes "/index.tpl"

-- The test for a login.
unfoldable pub asks_login : Config → Text → Bool
asks_login c url =
    (c.full_security && str_eq index_tpl url || (c.config_security || c.full_security))
    && not (str_eq index_tpl url)

-- `myCgiEspFsTemplate`.
unfoldable pub my_cgi_esp_fs_template : Bool → Text → Device → Answer
my_cgi_esp_fs_template authenticated url d =
    if asks_login d.config url && not authenticated
    then refused
    else if d.flags.first_start && str_eq index_tpl url
    then to_config
    else shown

-- `checkBinHeader`, on the first bytes of what was uploaded.
unfoldable pub check_bin_header : List ℕ → Bool
check_bin_header buf =
    if not (get_or buf 0 0 == 0xEA)
    then false
    else if not (get_or buf 1 0 == 4) || (ltb 3 (get_or buf 2 0) || ltb 0x40 (get_or buf 3 0))
    then false
    else if not (u16_at buf 6 == 0x4010)
    then false
    else u32_at buf 8 == 0

-- The handler on the values of its tests.
abbrev decide : Bool → Bool → Bool → Bool → Bool → Answer
decide f c i a s =
    if (f && i || (c || f)) && not i && not a then refused else if s && i then to_config else shown

decide-refused :
    (f c i a s : Bool) → (decide f c i a s ≡ refused) ↔ (((c || f) && not i && not a) ≡ true)
decide-refused f c i a s = ground arith

decide-to_config : (f c i a s : Bool) → (decide f c i a s ≡ to_config) ↔ ((s && i) ≡ true)
decide-to_config f c i a s = ground arith

-- Whatever the two settings of the security are, the page that the firmware shows first is refused to
-- nobody; every other page is refused exactly where one of the two is on and the login was not taken. So
-- `fullSecurity` protects no page more than `configSecurity` does. What is not refused is sent on to
-- the settings exactly where it is the first page and this is a first start.
pub my_cgi_esp_fs_template-refuses :
    (authenticated : Bool) (url : Text) (d : Device)
    → ((my_cgi_esp_fs_template authenticated url d ≡ refused) ↔ (
        ((d.config.config_security || d.config.full_security)
          && not (str_eq index_tpl url)
          && not authenticated)
        ≡ true))
      × ((my_cgi_esp_fs_template authenticated url d ≡ to_config)
          ↔ ((d.flags.first_start && str_eq index_tpl url) ≡ true))
unfolding my_cgi_esp_fs_template asks_login
my_cgi_esp_fs_template-refuses authenticated url d = (
  decide-refused d.config.full_security d.config.config_security (str_eq index_tpl url)
      authenticated d.flags.first_start,
  decide-to_config d.config.full_security d.config.config_security (str_eq index_tpl url)
      authenticated d.flags.first_start,
)
