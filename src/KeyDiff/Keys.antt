-- ===== src/KeyDiff/Keys.antt =====
-- src/utils/cache/key-diff.cache.ts: the type `keyType` of keys, their equality under `includes` and
-- `indexOf`, and `convertToKeyString` with the test of its length that follows each call.
use Prim.Native.Char.{Char}
use Prim.Native.String
use text.Mathlib.TextLemmas.{length-append, length-cons, length-eq-zero_iff}
use d_hub.Base.{
  ℕ, zero, suc, ◌/◌, ◌%◌, ◌<◌, ◌≡◌, refl, ◌≢◌, ◌↔◌, Bool, true, false, Option, none, some, String,
  arith, ltb, ◌==◌, str_eq, str_eq_iff, if◌then◌else◌,
}

-- `missing` is `null` or `undefined`, which the code guards against.
pub data Key : Type 0 where
  string : String → Key
  number : ℕ → Key
  missing : Key

digit : ℕ → Char
digit n =
    if n == 0
    then "0"
    else if n == 1
    then "1"
    else if n == 2
    then "2"
    else if n == 3
    then "3"
    else if n == 4
    then "4"
    else if n == 5
    then "5"
    else if n == 6
    then "6"
    else if n == 7
    then "7"
    else if n == 8
    then "8"
    else "9"

-- A text of one digit.
abbrev digit_text : ℕ → String
digit_text n = String.◌∷◌ (digit n) ""

-- `Number.prototype.toString` on natural numbers; `n` rounds are enough, since `n / 10 < n`.
decimal_from : ℕ → ℕ → String
decimal_from zero n = digit_text n
decimal_from (suc f) n =
    let rest = String.◌++◌ (decimal_from f (n / 10)) (digit_text (n % 10)) in
    if ltb n 10 then digit_text n else rest

unfoldable pub decimal : ℕ → String
unfolding decimal_from digit
decimal n = decimal_from n n

-- `===`: a number and its text are different keys.
abbrev pub key_eq : Key → Key → Bool
key_eq (string s) (string t) = str_eq s t
key_eq (number m) (number n) = m == n
key_eq missing missing = true
key_eq _ _ = false

-- `key?.toString()`, and `none` where the code throws because that is undefined or empty.
unfoldable pub key_string : Key → Option String
key_string (string s) = if str_eq s "" then none else some s
key_string (number n) = some (decimal n)
key_string missing = none

pub key_eq_iff : (j k : Key) → (key_eq j k ≡ true) ↔ (j ≡ k)
key_eq_iff (string s) (string t) = ground (arith, str_eq_iff s t)
key_eq_iff (number m) (number n) = ground arith
key_eq_iff missing missing = ground arith
key_eq_iff _ _ = ground arith

count-decimal_from : (f n : ℕ) → 0 < String.count (decimal_from f n)
unfolding decimal_from
count-decimal_from zero n = omega (arith, length-cons (digit n) "")
count-decimal_from (suc f) n = ground (
  arith,
  length-cons (digit n) "",
  length-cons (digit (n % 10)) "",
  length-append (decimal_from f (n / 10)) (digit_text (n % 10)),
)

pub decimal-ne-empty : (n : ℕ) → decimal n ≢ ""
unfolding decimal
decimal-ne-empty n e = omega (arith, count-decimal_from n n, length-eq-zero_iff.1 e)

-- A key's text is never empty.
pub key_string-ne-empty : (k : Key) {s : String} → key_string k ≡ some s → s ≢ ""
unfolding key_string
key_string-ne-empty (string t) {s} e = ground (arith, str_eq_iff t "", str_eq_iff s "")
key_string-ne-empty (number n) {s} e = ground (arith, decimal-ne-empty n)
key_string-ne-empty missing e = cc

-- The text of a key is a key of its own, with that text.
pub key_string_idem :
    (k : Key) {s : String} → key_string k ≡ some s → key_string (string s) ≡ some s
unfolding key_string
key_string_idem k {s} e = ground (arith, str_eq_iff s "", key_string-ne-empty k e)

decimal_test : decimal 1207 ≡ "1207"
unfolding decimal
decimal_test = refl
