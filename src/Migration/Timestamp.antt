-- ===== src/Migration/Timestamp.antt =====
-- migration/timestamp.go. An instant is the number of nanoseconds since Go's zero time, so that the zero
-- value is 0.
pub mod Waiting
use Prim.Native.Char.{code}
use Prim.Native.String
use ces_importer.Base.{
  ℕ, zero, suc, ◌+◌, String, Bool, true, false, ◌&&◌, ◌||◌, Option, none, some, Error, wrap,
  expired_timestamp, Result, ok, err, ltb, leb, nat_eq, if◌then◌else◌,
}

abbrev pub FinalTimestamp : Type 0
FinalTimestamp = ℕ

unfoldable pub is_zero : FinalTimestamp → Bool
is_zero ft = nat_eq ft 0

-- `now` is the answer of `time.Now`.
unfoldable pub expired : FinalTimestamp → ℕ → Bool
unfolding is_zero
expired ft now = if is_zero ft then true else ltb ft now

-- The earlier of two instants, the second of which may never come.
abbrev pub earlier : ℕ → Option ℕ → ℕ
earlier t none = t
earlier t (some u) = if ltb u t then u else t

-- The instant at which `WaitUntil` returns, from the one at which it is called and the one at which the
-- context is done. A context that is done already ends the wait at once.
unfoldable pub wait_until : FinalTimestamp → Option ℕ → ℕ → ℕ
unfolding is_zero
wait_until ft cancelled now =
    if is_zero ft
    then now
    else if leb ft now
    then now
    else let stop = earlier ft cancelled in if ltb stop now then now else stop

-- One minute
abbrev pub tick_duration : ℕ
tick_duration = 60000000000

-- The loop of `WaitUntilReady`, which does not look at the context; `ready` is asked at an instant. The
-- first argument bounds the rounds.
unfoldable pub poll : ℕ → (ℕ → Bool) → ℕ → Option ℕ
poll zero ready now = none
poll (suc fuel) ready now =
    let later = poll fuel ready (now + tick_duration) in if ready now then some now else later

unfoldable pub wait_until_ready : ℕ → FinalTimestamp → Option ℕ → (ℕ → Bool) → ℕ → Option ℕ
wait_until_ready fuel ft cancelled ready now = poll fuel ready (wait_until ft cancelled now)

-- `unicode.IsSpace`
abbrev is_space : ℕ → Bool
is_space c =
    (leb 9 c && leb c 13)
    || nat_eq c 32
    || nat_eq c 0x85
    || nat_eq c 0xa0
    || nat_eq c 0x1680
    || (leb 0x2000 c && leb c 0x200a)
    || nat_eq c 0x2028
    || nat_eq c 0x2029
    || nat_eq c 0x202f
    || nat_eq c 0x205f
    || nat_eq c 0x3000

-- `strings.TrimSpace(s) == ""`
unfoldable pub is_blank : String → Bool
is_blank String.[] = true
is_blank (String.◌∷◌ c s) = is_space (code c) && is_blank s

-- `parse` is `time.Parse` with the layout RFC 3339.
unfoldable pub parse_final_timestamp : (String → Result ℕ) → ℕ → String → Result FinalTimestamp
parse_final_timestamp parse now timestamp =
    if is_blank timestamp then ok 0 else elim (parse timestamp) [
      | err e ↦ err (wrap "timestamp is not in RFC3339 format" e)
      | ok t ↦ if ltb t now then err expired_timestamp else ok t
    ]
