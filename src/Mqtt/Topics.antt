-- ===== src/Mqtt/Topics.antt =====
-- Where `strstr` finds the names of the counters in the topics of the device.
use watermeter.Base.{ℕ, ◌/◌, ◌%◌, ◌<◌, ◌≡◌, refl, ap, ◌∙◌, arith, true, false, Bool-cases, inl, inr}
use watermeter.Base.{[], ◌∷◌, ◌++◌, ◌==◌, ◌&&◌, All}
use watermeter.Base.Text.{Text, codes}
use watermeter.Base.CString.{contains, strstr, starts_with}
use watermeter.Utils.{Mac, get_mac_address, hex_digit}
use watermeter.Mqtt.{hot_in, cold_in}

-- A pattern is found in front of a text, and behind any other.
starts_with_self : (s : Text) → starts_with s s ≡ true
unfolding starts_with
starts_with_self [] = refl
starts_with_self (c ∷ s) = let e = starts_with_self s in ground (arith, e)

pub contains_self : (s : Text) → contains s s ≡ true
unfolding contains strstr
contains_self [] = rw (starts_with_self []) refl
contains_self (c ∷ s) = rw (starts_with_self (c ∷ s)) refl

pub contains-append : (a s pat : Text) → contains s pat ≡ true → contains (a ++ s) pat ≡ true
unfolding contains strstr
contains-append [] s pat h = h
contains-append (c ∷ a) s pat h = elim (Bool-cases (starts_with pat (c ∷ (a ++ s)))) [
  | inl here ↦ rw here refl
  | inr later ↦ rw later (contains-append a s pat h)
]

-- The six bytes of the address are bytes.
abbrev pub IsMac : Mac → Type 0
IsMac m = (m.m0 < 256) × (m.m1 < 256) × (m.m2 < 256) × (m.m3 < 256) × (m.m4 < 256) × (m.m5 < 256)

-- No end of the pattern begins a text: so a match in front of that text does not reach into it.
abbrev Ends : Text → Text → Type 0
Ends [] rest = Unit
Ends (c ∷ pat) rest = (starts_with (c ∷ pat) rest ≡ false) × Ends pat rest

starts_with-append :
    (pat s rest : Text) → Ends pat rest → starts_with pat (s ++ rest) ≡ starts_with pat s
unfolding starts_with
starts_with-append [] s rest h = refl
starts_with-append (c ∷ pat) [] rest (none_here, h) = none_here
starts_with-append (c ∷ pat) (x ∷ s) rest (none_here, h) =
    ap (λ b. c == x && b) (starts_with-append pat s rest h)

contains_front :
    (pat s rest : Text)
    → Ends pat rest
    → contains rest pat ≡ contains [] pat
    → contains (s ++ rest) pat ≡ contains s pat
unfolding contains strstr
contains_front pat [] rest h none_behind = none_behind
contains_front pat (x ∷ s) rest h none_behind =
    let here : starts_with pat (x ∷ (s ++ rest)) ≡ starts_with pat (x ∷ s) =
      starts_with-append pat (x ∷ s) rest h in
    elim (Bool-cases (starts_with pat (x ∷ s))) [
      | inl found ↦ rw (here ∙ found, found) refl
      | inr absent ↦ rw (here ∙ absent, absent) (contains_front pat s rest h none_behind)
    ]

-- A character of a hexadecimal number is neither H nor I.
hex_digit-lt : (n : ℕ) → n < 16 → hex_digit n < 72
hex_digit-lt n h = ground arith

byte_digits : (b : ℕ) → b < 256 → (hex_digit (b / 16) < 72) × (hex_digit (b % 16) < 72)
byte_digits b h = (hex_digit-lt (b / 16) (omega (arith, h)), hex_digit-lt (b % 16) (omega arith))

get_mac_address-All : (m : Mac) → IsMac m → All (λ c. c < 72) (get_mac_address m)
unfolding get_mac_address
get_mac_address-All m (h0, h1, h2, h3, h4, h5) =
    let (a0, b0) = byte_digits m.m0 h0 in
    let (a1, b1) = byte_digits m.m1 h1 in
    let (a2, b2) = byte_digits m.m2 h2 in
    let (a3, b3) = byte_digits m.m3 h3 in
    let (a4, b4) = byte_digits m.m4 h4 in
    let (a5, b5) = byte_digits m.m5 h5 in
    (a0, (b0, (a1, (b1, (a2, (b2, (a3, (b3, (a4, (b4, (a5, (b5, tt))))))))))))

contains-hex : (a s : Text) → All (λ c. c < 72) a → contains (a ++ s) hot_in ≡ contains s hot_in
unfolding contains strstr starts_with
contains-hex [] s h = refl
contains-hex (c ∷ a) s (low, h) =
    let no_h : (72 == c) ≡ false = ground (arith, low) in rw no_h (contains-hex a s h)

-- What stands behind the topic of the settings in the name of the cold counter.
abbrev behind : Mac → Text
behind mac = codes "/" ++ (get_mac_address mac ++ (codes "/" ++ cold_in))

behind-Ends : (mac : Mac) → IsMac mac → Ends hot_in (behind mac)
unfolding starts_with get_mac_address
behind-Ends mac m =
    let low = hex_digit-lt (mac.m0 / 16) (omega (arith, m.0)) in
    let no_i : (73 == hex_digit (mac.m0 / 16)) ≡ false = ground (arith, low) in
    (
      refl,
      (refl, (refl, (refl, (refl, (refl, (refl, (refl, (rw no_i refl, (refl, (refl, tt)))))))))),
    )

behind-hot_in : (mac : Mac) → IsMac mac → contains (behind mac) hot_in ≡ false
unfolding contains strstr starts_with
behind-hot_in mac m =
    contains-hex (get_mac_address mac) (codes "/" ++ cold_in) (get_mac_address-All mac m)

-- The name of the cold counter has "HotWater/In" in it exactly where the topic of the settings has.
pub contains-cold_topic :
    (topic : Text) (mac : Mac)
    → IsMac mac
    → contains (codes "/" ++ (topic ++ behind mac)) hot_in ≡ contains topic hot_in
unfolding contains strstr starts_with
contains-cold_topic topic mac m =
    contains_front hot_in topic (behind mac) (behind-Ends mac m) (behind-hot_in mac m)
