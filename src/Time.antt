-- ===== src/Time.antt =====
-- `time.Time` of Go's standard library, as far as parser/ uses it: an instant on the internal
-- clock of the package (seconds since the year 1, an int64, and nanoseconds) with the location
-- that `==` on the struct compares too. Lib.antt says what is left out.
use nsg_parser.Prelude.{ℕ, ◌≡◌, ◌&&◌, ◌||◌, ◌==◌, Bool, true, false, ltb, arith}
use nsg_parser.Prelude.Int.{ℤ, pos, negsuc, ltb_ℤ, eqb_ℤ, ◌+ℤ◌, ◌-ℤ◌, wrap64, IsInt64}

-- `loc` is nil for UTC; `Local` is a pointer to another location.
pub data Location : Type 0 where
  utc local : Location

pub record Time : Type 0 where
  pub sec : ℤ
  pub nsec : ℕ
  pub loc : Location

-- `time.Time{}`.
abbrev pub zero_time : Time
zero_time = record { sec = pos 0; nsec = 0; loc = utc }

-- The seconds from the year 1 to 1970.
abbrev pub unix_to_internal : ℤ
unix_to_internal = pos 62135596800

-- `time.Unix(sec, 0)`.
unfoldable pub unix : ℤ → Time
unix sec = record { sec = wrap64 (sec +ℤ unix_to_internal); nsec = 0; loc = local }

-- `t.Unix()`.
unfoldable pub to_unix : Time → ℤ
to_unix t = wrap64 (t.sec -ℤ unix_to_internal)

-- `t.After(u)`.
abbrev pub after : Time → Time → Bool
after t u = ltb_ℤ u.sec t.sec || (eqb_ℤ u.sec t.sec && ltb u.nsec t.nsec)

-- `t.Before(u)`.
abbrev pub before : Time → Time → Bool
before t u = after u t

-- `t == u` on the structs.
abbrev pub same_location : Location → Location → Bool
same_location utc utc = true
same_location local local = true
same_location _ _ = false

abbrev pub time_eq : Time → Time → Bool
time_eq t u = eqb_ℤ t.sec u.sec && (t.nsec == u.nsec && same_location t.loc u.loc)

-- No instant is after itself.
pub after_irrefl : (t : Time) → after t t ≡ false
after_irrefl t = ground arith

pub after_asymm : (t u : Time) → after t u ≡ true → after u t ≡ false
after_asymm t u h = ground arith

-- A wrapped addition is undone by the wrapped subtraction, so no epoch is lost.
to_unix-unix_pos : (n : ℕ) → IsInt64 (pos n) → to_unix (unix (pos n)) ≡ pos n
unfolding to_unix unix wrap64 ◌+ℤ◌ ◌-ℤ◌
to_unix-unix_pos n h = ground arith

to_unix-unix_negsuc : (n : ℕ) → IsInt64 (negsuc n) → to_unix (unix (negsuc n)) ≡ negsuc n
unfolding to_unix unix wrap64 ◌+ℤ◌ ◌-ℤ◌
to_unix-unix_negsuc n h = ground arith

-- `time.Unix(e, 0).Unix()` is `e`, for every `int64`.
pub to_unix-unix : (e : ℤ) → IsInt64 e → to_unix (unix e) ≡ e
to_unix-unix (pos n) h = to_unix-unix_pos n h
to_unix-unix (negsuc n) h = to_unix-unix_negsuc n h
