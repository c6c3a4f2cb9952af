-- ===== src/Web/Compare.antt =====
-- Which forms `htmlSettings` saves: the comparison of the form with the settings, on what the two mean.
use watermeter.Base.{◌≡◌, refl, sym, ap, ap₂, ◌∙◌, arith, ℕ, Bool, true, false, not, ◌||◌, ◌&&◌}
use watermeter.Base.{List, Option, some, ◌==◌, if◌then◌else◌}
use watermeter.Base.Text.{Text}
use watermeter.Base.CString.{str_eq}
use watermeter.Base.CString.Chars.{Holds}
use watermeter.Config.{Config}
use watermeter.Config.Valid.{View, Represents}
use watermeter.Device.{Device}
use watermeter.Web.Apply.{
  bool_differs, str_differs, web_changed, ap_changed, sta_changed, ntp_changed, mqtt_changed, mark,
  ◌or_else◌, compare,
}
use mathlib.Core.Option.{some-injective}

abbrev differ : Text → Text → Bool
differ s t = not (str_eq s t)

abbrev flags_differ : Bool → Bool → Bool
flags_differ a b = (a && not b) || (not a && b)

abbrev web_differs : View → View → Bool
web_differs v w =
    differ v.web_admin_login w.web_admin_login
    || (differ v.web_admin_password w.web_admin_password
        || (flags_differ v.full_security w.full_security
            || flags_differ v.config_security w.config_security))

abbrev ap_differs : View → View → Bool
ap_differs v w = not w.ap_mode || (differ v.ap_ssid w.ap_ssid || differ v.ap_password w.ap_password)

abbrev sta_differs : View → View → Bool
sta_differs v w =
    w.ap_mode || (differ v.sta_ssid w.sta_ssid || differ v.sta_password w.sta_password)

abbrev ntp_differs : View → View → Bool
ntp_differs v w = differ v.ntp_server_name w.ntp_server_name || not (v.time_zone == w.time_zone)

abbrev mqtt_differs : View → View → Bool
mqtt_differs v w =
    differ v.mqtt_broker w.mqtt_broker
    || (differ v.mqtt_user w.mqtt_user
        || (differ v.mqtt_password w.mqtt_password || differ v.mqtt_topic w.mqtt_topic))

-- What makes a form with the settings `w` one that is saved, on a device with the settings `v`: another
-- login, security, time server, time zone, MQTT setting or reading; on an access point, that the form
-- asks for none, or has another name or password for it; on a station, that the form asks for an access
-- point, or has another network.
abbrev pub form_differs : Bool → Bool → View → View → Bool
form_differs ap_now sta_now v w =
    web_differs v w
    || (ap_now && ap_differs v w)
    || (sta_now && sta_differs v w)
    || ntp_differs v w
    || mqtt_differs v w
    || not (v.hot_water == w.hot_water)
    || not (v.cold_water == w.cold_water)

str_differs-Holds :
    (n : ℕ) (a b : List ℕ) (s t : Text)
    → Holds n a s
    → Holds n b t
    → str_differs a b ≡ some (differ s t)
unfolding str_differs
str_differs-Holds n a b s t p q = rw (p.read, q.read) refl

some-bool_differs :
    (a b c d : Bool) → a ≡ c → b ≡ d → some (bool_differs a b) ≡ some (flags_differ c d)
some-bool_differs a b c d p q = ground arith

or_else_some : (a b : Bool) → (some a or_else some b) ≡ some (a || b)
or_else_some true b = refl
or_else_some false b = refl

or_else_eq :
    {p q : Option Bool} {a b : Bool} → p ≡ some a → q ≡ some b → (p or_else q) ≡ some (a || b)
or_else_eq {a = a} {b = b} e f = ap₂ (λ p q. p or_else q) e f ∙ or_else_some a b

module _ (old new : Config) (v w : View) (r : Represents old v) (s : Represents new w) where
  web_changed_eq : web_changed old new ≡ some (web_differs v w)
  unfolding web_changed
  web_changed_eq = or_else_eq (str_differs-Holds 16 _ _ _ _ r.web_admin_login s.web_admin_login) (
      or_else_eq (str_differs-Holds 16 _ _ _ _ r.web_admin_password s.web_admin_password) (
        or_else_eq (some-bool_differs _ _ _ _ r.full_security s.full_security)
          (some-bool_differs _ _ _ _ r.config_security s.config_security)))

  ap_changed_eq : ap_changed old new ≡ some (ap_differs v w)
  unfolding ap_changed
  ap_changed_eq = or_else_eq (ap (λ b. some (not b)) s.ap_mode) (
      or_else_eq (str_differs-Holds 16 _ _ _ _ r.ap_ssid s.ap_ssid)
        (str_differs-Holds 16 _ _ _ _ r.ap_password s.ap_password))

  sta_changed_eq : sta_changed old new ≡ some (sta_differs v w)
  unfolding sta_changed
  sta_changed_eq = or_else_eq (ap some s.ap_mode) (
      or_else_eq (str_differs-Holds 16 _ _ _ _ r.sta_ssid s.sta_ssid)
        (str_differs-Holds 16 _ _ _ _ r.sta_password s.sta_password))

  ntp_changed_eq : ntp_changed old new ≡ some (ntp_differs v w)
  unfolding ntp_changed
  ntp_changed_eq =
      or_else_eq (str_differs-Holds 32 _ _ _ _ r.ntp_server_name s.ntp_server_name)
        (ap₂ (λ a b. some (not (a == b))) r.time_zone s.time_zone)

  mqtt_changed_eq : mqtt_changed old new ≡ some (mqtt_differs v w)
  unfolding mqtt_changed
  mqtt_changed_eq = or_else_eq (str_differs-Holds 32 _ _ _ _ r.mqtt_broker s.mqtt_broker) (
      or_else_eq (str_differs-Holds 16 _ _ _ _ r.mqtt_user s.mqtt_user) (
        or_else_eq (str_differs-Holds 16 _ _ _ _ r.mqtt_password s.mqtt_password)
          (str_differs-Holds 64 _ _ _ _ r.mqtt_topic s.mqtt_topic)))

when :
    (b : Bool) {p : Option Bool} {a : Bool}
    → p ≡ some a
    → (if b then p else some false) ≡ some (b && a)
when true e = e
when false e = refl

mark-saves : (b : Bool) (f : Device → Device) (s : Bool × Device) → (mark b f s).0 ≡ (b || s.0)
unfolding mark
mark-saves true f s = refl
mark-saves false f s = refl

in_order :
    (a b c d e f g : Bool)
    → (g || (f || (e || (d || (c || (b || (a || false))))))) ≡ (a || b || c || d || e || f || g)
in_order a b c d e f g = ground arith

marks :
    (a b c d e f g : Bool) (f1 f2 f3 f4 f5 f6 f7 : Device → Device) (x : Device)
    → (mark g f7
        (mark f f6 (mark e f5 (mark d f4 (mark c f3 (mark b f2 (mark a f1 (false, x)))))))).0
      ≡ (a || b || c || d || e || f || g)
marks a b c d e f g f1 f2 f3 f4 f5 f6 f7 x =
    let s1 = mark a f1 (false, x) in
    let s2 = mark b f2 s1 in
    let s3 = mark c f3 s2 in
    let s4 = mark d f4 s3 in
    let s5 = mark e f5 s4 in
    let s6 = mark f f6 s5 in
    mark-saves g f7 s6
    ∙ ap (λ y. g || y)
        (mark-saves f f6 s5
          ∙ ap (λ y. f || y)
              (mark-saves e f5 s4
                ∙ ap (λ y. e || y)
                    (mark-saves d f4 s3
                      ∙ ap (λ y. d || y)
                          (mark-saves c f3 s2
                            ∙ ap (λ y. c || y)
                                (mark-saves b f2 s1
                                  ∙ ap (λ y. b || y) (mark-saves a f1 (false, x)))))))
    ∙ in_order a b c d e f g

-- `newSave` is set exactly where the form differs.
pub compare-differs :
    (new : Config) (d : Device) (v w : View) (s : Bool × Device)
    → Represents d.config v
    → Represents new w
    → compare new (false, d) ≡ some s
    → s.0 ≡ form_differs d.flags.ap_mode_now d.flags.sta_mode_now v w
unfolding compare
compare-differs new d v w s r n h =
    let same = some-injective _ _ (
      rw
        (
          web_changed_eq d.config new v w r n,
          when d.flags.ap_mode_now (ap_changed_eq d.config new v w r n),
          when d.flags.sta_mode_now (sta_changed_eq d.config new v w r n),
          ntp_changed_eq d.config new v w r n,
          mqtt_changed_eq d.config new v w r n,
          r.hot_water,
          n.hot_water,
          r.cold_water,
          n.cold_water,
        )
        at h) in
    sym (ap (λ x. x.0) same) ∙ marks _ _ _ _ _ _ _ _ _ _ _ _ _ _ _
