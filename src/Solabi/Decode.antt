-- ===== src/Solabi/Decode.antt =====
-- solabi.go, `Decoder`. The decoders of a tuple and of the tuples in it share one error, which is
-- sticky: a read is an action on that error, and takes the decoder's data.
pub mod Sticky
pub mod Cut
pub mod Lenient
use safenet_arbitration_bot.Base.{
  ℕ, ◌+◌, ◌*◌, ◌-◌, Bool, true, false, not, ◌||◌, Option, none, some, List, [], String,
  if◌then◌else◌, ltb, ◌==◌, Bytes, from_be, is_zero, length, take, drop, replicate, Error, message,
}

abbrev pub Read : Type 0 → Type 0
Read A = Option Error → A × Option Error

infixl 5 ◌>>=◌ ◌>>◌
abbrev pub ◌>>=◌ : {A B : Type 0} → Read A → (A → Read B) → Read B
◌>>=◌ m f s = f (m s).0 (m s).1

abbrev pub ◌>>◌ : {A B : Type 0} → Read A → Read B → Read B
m >> k = m >>= λ _. k

abbrev pub pure : {A : Type 0} → A → Read A
pure a s = (a, s)

-- `Decoder.fail`, with the value that the failed read returns. The first error stays.
abbrev pub fail : {A : Type 0} → String → A → Read A
fail text a (some e) = (a, some e)
fail text a none = (a, some (message text))

-- `Decoder.word`, with `none` for nil.
unfoldable pub word : Bytes → ℕ → Read (Option Bytes)
word d offset (some e) = (none, some e)
word d offset none =
    if ltb (length d) offset || ltb (length d - offset) 32
    then fail "solabi: data has no word at offset" none none
    else (some (take 32 (drop offset d)), none)

abbrev pub head : Bytes → ℕ → Read (Option Bytes)
head d i = word d (i * 32)

as_uint : Option Bytes → ℕ
as_uint none = 0
as_uint (some w) = from_be w

unfoldable pub uint : Bytes → ℕ → Read ℕ
unfolding as_uint
uint d i = do w ← head d i; pure (as_uint w)

-- `Decoder.uint64`.
unfoldable pub word_uint64 : Option Bytes → Read ℕ
word_uint64 none = pure 0
word_uint64 (some w) =
    if not (is_zero (take 24 w))
    then fail "solabi: value does not fit in 64 bits" 0
    else pure (from_be (drop 24 w))

unfoldable pub uint64 : Bytes → ℕ → Read ℕ
unfolding word_uint64
uint64 d i = do w ← head d i; word_uint64 w

abbrev pub zero_address : Bytes
zero_address = replicate 20 0

as_address : Option Bytes → Read Bytes
as_address none = pure zero_address
as_address (some w) =
    if not (is_zero (take 12 w))
    then fail "solabi: value is not an address" zero_address
    else pure (drop 12 w)

unfoldable pub address : Bytes → ℕ → Read Bytes
unfolding as_address
address d i = do w ← head d i; as_address w

as_bool : Option Bytes → Read Bool
as_bool none = pure false
as_bool (some w) =
    let last = from_be (drop 31 w) in
    if not (is_zero (take 31 w)) || ltb 1 last
    then fail "solabi: value is not a bool" false
    else pure (last == 1)

unfoldable pub bool : Bytes → ℕ → Read Bool
unfolding as_bool
bool d i = do w ← head d i; as_bool w

as_bytes32 : Option Bytes → Bytes
as_bytes32 none = replicate 32 0
as_bytes32 (some w) = w

unfoldable pub bytes32 : Bytes → ℕ → Read Bytes
unfolding as_bytes32
bytes32 d i = do w ← head d i; pure (as_bytes32 w)

-- The end of `Bytes`: the data of `len` bytes after the length's word at `offset`.
dynamic : Bytes → ℕ → ℕ → Read Bytes
dynamic d offset len (some e) = ([], some e)
dynamic d offset len none =
    let start = offset + 32 in
    if ltb (length d - start) len
    then fail "solabi: value exceeds data" [] none
    else (take len (drop start d), none)

-- `Bytes`, and `String`, whose text is its bytes.
unfoldable pub bytes : Bytes → ℕ → Read Bytes
unfolding dynamic word_uint64
bytes d i = do offset ← uint64 d i; w ← word d offset; len ← word_uint64 w; dynamic d offset len

nested : Bytes → ℕ → Read Bytes
nested d offset (some e) = ([], some e)
nested d offset none =
    if ltb (length d) offset
    then fail "solabi: offset exceeds data" [] none
    else (drop offset d, none)

-- `Tuple`: the data of the decoder for the tuple. After an error it has none.
unfoldable pub tuple : Bytes → ℕ → Read Bytes
unfolding nested
tuple d i = do offset ← uint64 d i; nested d offset
