-- ===== src/Functions/Encoded.antt =====
-- Call data that is encoded from the arguments of a well-known function is decoded into them.
use safenet_arbitration_bot.Base.{
  ℕ, suc, ◌+◌, ◌^◌, ◌<◌, ◌≤◌, ◌≡◌, refl, sym, ap, ◌∙◌, false, Option, some, List, [], ◌∷◌, ◌++◌,
  Bytes, length, ltb, ok, arith, >>=-eq-ok, ok-injective, length-append, take-append, drop-append,
}
use safenet_arbitration_bot.Keccak.{Keccak}
use safenet_arbitration_bot.Solabi.Encode.{Value, Values, encode_values, calldata}
use safenet_arbitration_bot.Solabi.Encode as Encode
use safenet_arbitration_bot.Solabi.Encode.Shape.{AllPlain, value_at}
use safenet_arbitration_bot.Solabi.RoundTrip.{Decodes, decode-encode}
use safenet_arbitration_bot.Solabi.Decode.Lenient.{bytes32-address}
use safenet_arbitration_bot.Functions.{
  ParamType, address, uint256, uint8, bytes, Param, Definition, ArgValue, account, number, octets,
  Function, function, Args, nil, cons, definition_at, valued, small, read_value, argument,
  read_args, defined, decode_levels,
}

-- A value of the parameter's type, and what is read of it.
pub data Fits : ParamType → Value → ArgValue → Type 0 where
  fits_address : (a : Bytes) → Fits address (Encode.address a) (account a)
  fits_uint256 : (n : ℕ) → Fits uint256 (Encode.uint n) (number n)
  fits_uint8 : (n : ℕ) → n ≤ 255 → Fits uint8 (Encode.uint64 n) (number n)
  fits_bytes : (b : Bytes) → Fits bytes (Encode.bytes b) (octets b)

abbrev pub AllFit : List Param → Values → List ArgValue → Type 0
AllFit [] Encode.nil [] = Unit
AllFit (p ∷ ps) (Encode.cons v vs) (x ∷ xs) = Fits p.type v x × AllFit ps vs xs
AllFit _ _ _ = ⊥

-- The arguments with these values, and with the calls that `nested` decodes from them.
abbrev pub args_of : (Bytes → Option Function) → List Param → List ArgValue → Args
args_of nested (p ∷ ps) (x ∷ xs) = cons (argument nested p x) (args_of nested ps xs)
args_of nested _ _ = nil

read_value-Decodes :
    {t : ParamType} {v : Value} {x : ArgValue} (d : Bytes) (i : ℕ)
    → Fits t v x
    → Decodes v d i
    → read_value t d i ≡ some x
unfolding read_value valued small
read_value-Decodes d i (fits_address a) e =
    let (w, read, cut) = bytes32-address d i e in rw read (ap (λ b. some (account b)) cut)
read_value-Decodes d i (fits_uint256 n) e = rw e
read_value-Decodes d i (fits_uint8 n h) e = rw e (ground arith)
read_value-Decodes d i (fits_bytes b) e = rw e

shift : (i j : ℕ) → i + suc j ≡ i + 1 + j
shift i j = omega arith

module _ (nested : Bytes → Option Function) (vs : Values) (d : Bytes) (plain : AllPlain vs)
    (short : length d < 2 ^ 64) (h : encode_values vs ≡ ok d) where
  -- The values `us` stand in `vs` from index `i` on.
  read_args-AllFit :
      (i : ℕ) (ps : List Param) (us : Values) (xs : List ArgValue)
      → AllFit ps us xs
      → ((j : ℕ) → value_at vs (i + j) ≡ value_at us j)
      → read_args nested d i ps ≡ some (args_of nested ps xs)
  unfolding read_args
  read_args-AllFit i [] us xs fit at = refl
  read_args-AllFit i (p ∷ ps) Encode.nil xs fit at = elim fit [ ]
  read_args-AllFit i (p ∷ ps) (Encode.cons v us) [] fit at = elim fit [ ]
  read_args-AllFit i (p ∷ ps) (Encode.cons v us) (x ∷ xs) fit at =
      let here : value_at vs i ≡ some v = ap (value_at vs) (omega arith) ∙ at 0 in
      let read = read_value-Decodes d i fit.0 (decode-encode vs i plain short h here) in
      let rest =
        read_args-AllFit (i + 1) ps us xs fit.1
          (λ j. ap (value_at vs) (sym (shift i j)) ∙ at (suc j)) in
      rw (read, rest) refl

module _ ⦃k : Keccak⦄ where
  -- Call data that is encoded from the arguments of a well-known function, with its selector, is
  -- decoded into the function, with the values of the arguments, and with the calls that its call
  -- data arguments decode to one level down: for addresses of 20 bytes, numbers in the ranges of
  -- their types, and data below 2^64 bytes.
  pub decode_levels-calldata :
      (levels : ℕ) (def : Definition) (sel : Bytes) (vs : Values) (xs : List ArgValue)
      {input : Bytes}
      → length sel ≡ 4
      → definition_at sel ≡ some def
      → AllFit def.params vs xs
      → AllPlain vs
      → length input < 2 ^ 64
      → calldata sel vs ≡ ok input
      → decode_levels (suc levels) input
        ≡ some (function def.name def.signature (args_of (decode_levels levels) def.params xs))
  unfolding decode_levels calldata defined
  decode_levels-calldata levels def sel vs xs {input} size known fit plain short h =
      let (d, encodes, h') = >>=-eq-ok (encode_values vs) _ h in
      let e : sel ++ d ≡ input = ok-injective h' in
      let long : ltb (length (sel ++ d)) 4 ≡ false = ground (arith, length-append sel d) in
      let short' : length d < 2 ^ 64 = omega (arith, ap length e, length-append sel d) in
      let args =
        read_args-AllFit (decode_levels levels) vs d plain short' encodes 0 def.params vs xs fit
          (λ j. ap (value_at vs) (omega arith)) in
      ap (decode_levels (suc levels)) (sym e)
      ∙ rw (long, take-append 4 sel d size, drop-append 4 sel d size, known, args) refl
