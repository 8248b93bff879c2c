-- ===== src/Json/Dump.antt =====
-- `json.dumps` with compact separators, for the values that the program dumps. `ascii` is its
-- `ensure_ascii` flag, `print` the text of a number.
use Prim.Native.Char.{code}
use artifact_proof_lab.Base.{
  ◌≡◌, refl, ℕ, zero, suc, ◌+◌, ◌-◌, ◌/◌, ◌%◌, String, Bool, true, false, ◌||◌, ◌&&◌, List, [], ◌∷◌,
  ◌++◌, eqb, ltb, if◌then◌else◌,
}
use artifact_proof_lab.Base.Int.{ℤ, pos, negsuc}
use artifact_proof_lab.Json.{
  Json, Items, Fields, null, bool, num, str, arr, obj, nil, cons, end, field,
}

-- Code points; bytes where the text is ASCII.
abbrev pub Codes : Type 0
Codes = List ℕ

abbrev pub codes : String → Codes
codes String.[] = []
codes (String.◌∷◌ c s) = code c ∷ codes s

-- A lowercase hexadecimal digit.
unfoldable pub hex_digit : ℕ → ℕ
hex_digit n = if ltb n 10 then b'0' + n else b'a' + n - 10

-- \uXXXX
unfoldable pub unicode_escape : ℕ → Codes
unfolding hex_digit
unicode_escape n =
    92
    ∷ b'u'
    ∷ hex_digit (n / 4096 % 16)
    ∷ hex_digit (n / 256 % 16)
    ∷ hex_digit (n / 16 % 16)
    ∷ hex_digit (n % 16)
    ∷ []

-- Past the basic plane, a surrogate pair.
unfoldable pub wide_escape : ℕ → Codes
unfolding unicode_escape
wide_escape n =
    if ltb n 0x10000
    then unicode_escape n
    else (unicode_escape (0xd800 + (n - 0x10000) / 1024)
        ++ unicode_escape (0xdc00 + (n - 0x10000) % 1024))

unfoldable pub dump_char : Bool → ℕ → Codes
unfolding wide_escape
dump_char ascii n =
    if eqb n b'"'
    then 92 ∷ b'"' ∷ []
    else if eqb n 92
    then 92 ∷ 92 ∷ []
    else if eqb n 10
    then 92 ∷ b'n' ∷ []
    else if eqb n 13
    then 92 ∷ b'r' ∷ []
    else if eqb n 9
    then 92 ∷ b't' ∷ []
    else if eqb n 12
    then 92 ∷ b'f' ∷ []
    else if eqb n 8
    then 92 ∷ b'b' ∷ []
    else if ltb n 32 || (ascii && ltb 126 n)
    then wide_escape n
    else n ∷ []

dump_chars : Bool → Codes → Codes
unfolding dump_char
dump_chars ascii [] = b'"' ∷ []
dump_chars ascii (n ∷ ns) = dump_char ascii n ++ dump_chars ascii ns

unfoldable pub dump_string : Bool → String → Codes
unfolding dump_chars
dump_string ascii s = b'"' ∷ dump_chars ascii (codes s)

-- The decimal digits of `n` before `rest`, on fuel above `n`.
unfoldable pub decimal_from : ℕ → ℕ → Codes → Codes
decimal_from zero n rest = rest
decimal_from (suc f) n rest =
    let digits = (b'0' + n % 10) ∷ rest in
    let more = decimal_from f (n / 10) digits in if ltb n 10 then digits else more

unfoldable pub decimal : ℕ → Codes
unfolding decimal_from
decimal n = decimal_from (n + 1) n []

unfoldable pub dump_int : ℤ → Codes
unfolding decimal
dump_int (pos n) = decimal n
dump_int (negsuc n) = b'-' ∷ decimal (n + 1)

module _ {N : Type 0} (ascii : Bool) (print : N → Codes) where
  unfoldable mutual
    pub dump : Json N → Codes
    dump null = codes "null"
    dump (bool true) = codes "true"
    dump (bool false) = codes "false"
    dump (num n) = print n
    dump (str s) = dump_string ascii s
    dump (arr vs) = b'[' ∷ dump_items vs
    dump (obj fs) = b'{' ∷ dump_fields fs

    pub dump_items : Items N → Codes
    dump_items nil = b']' ∷ []
    dump_items (cons v vs) = dump v ++ dump_more vs

    pub dump_more : Items N → Codes
    dump_more nil = b']' ∷ []
    dump_more (cons v vs) = b',' ∷ (dump v ++ dump_more vs)

    pub dump_fields : Fields N → Codes
    dump_fields end = b'}' ∷ []
    dump_fields (field k v fs) = dump_string ascii k ++ b':' ∷ (dump v ++ dump_others fs)

    pub dump_others : Fields N → Codes
    dump_others end = b'}' ∷ []
    dump_others (field k v fs) = b',' ∷ (dump_string ascii k ++ b':' ∷ (dump v ++ dump_others fs))

abbrev sample : Json ℤ
sample = arr (cons (str "a\"b\n") (cons (num (negsuc 41)) (cons (bool true) (cons (arr nil) nil))))

sample-dump : dump true dump_int sample ≡ codes "[\"a\\\"b\\n\",-42,true,[]]"
unfolding dump dump_string dump_int
sample-dump = refl
