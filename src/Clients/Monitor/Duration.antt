-- ===== src/Clients/Monitor/Duration.antt =====
-- A duration's text shows its days, hours, minutes and seconds.
use rustkv_lab.Prelude.{
  ℕ, ◌+◌, ◌*◌, ◌/◌, ◌%◌, ◌<◌, ◌≡◌, refl, ◌++◌, Bytes, arith, ltb, if◌then◌else◌,
}
use rustkv_lab.Text.{codes}
use rustkv_lab.Text.Decimal.{to_string}
use rustkv_lab.Clients.Monitor.{two_digits, format_duration}

abbrev pub parts_text : ℕ → ℕ → ℕ → Bytes
parts_text hours minutes seconds =
    two_digits hours
    ++ codes "h "
    ++ two_digits minutes
    ++ codes "m "
    ++ two_digits seconds
    ++ codes "s"

-- The days, hours, minutes and seconds of a duration are printed, the days only if there are any.
pub format_duration_of_parts :
    (days hours minutes seconds : ℕ)
    → hours < 24
    → minutes < 60
    → seconds < 60
    → format_duration (days * 86400 + hours * 3600 + minutes * 60 + seconds) ≡ (
        if ltb 0 days
        then to_string days ++ codes "d " ++ parts_text hours minutes seconds
        else parts_text hours minutes seconds)
unfolding format_duration
format_duration_of_parts days hours minutes seconds h m s =
    let total = days * 86400 + hours * 3600 + minutes * 60 + seconds in
    let d : total / 86400 ≡ days = omega arith in
    let e : total % 86400 / 3600 ≡ hours = omega arith in
    let f : total % 3600 / 60 ≡ minutes = omega arith in
    let g : total % 60 ≡ seconds = omega arith in rw (d, e, f, g) refl
